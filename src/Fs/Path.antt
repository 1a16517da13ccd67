-- ===== src/Fs/Path.antt =====
-- Path parsing in pmeunier-project/fs.c: strtok on "/", and `parse`, which drops "." and backs up
-- over ".." as it counts and stores names.
pub mod Normal
use cs.Common.{
  ℕ, zero, suc, ◌+◌, ◌-◌, Bool, true, false, not, ◌&&◌, ◌||◌, Option, none, some, List, [], ◌∷◌,
  ◌++◌, length, set, replicate, ltb, ◌==◌, if◌then◌else◌,
}
use cs.Fs.Layout.{filename_size}
use cs.Fs.Dir.{Name, str_eq}

-- The successive results of strtok(path, "/"): the runs of bytes between slashes, none empty.
unfoldable pub push_token : Name → List Name → List Name
push_token [] rest = rest
push_token (c ∷ cs) rest = (c ∷ cs) ∷ rest

unfoldable pub tokens_from : Name → List ℕ → List Name
tokens_from word [] = push_token word []
tokens_from word (c ∷ cs) =
    if c == b'/' then push_token word (tokens_from [] cs) else tokens_from (word ++ (c ∷ [])) cs

unfoldable pub strtok_all : List ℕ → List Name
unfolding tokens_from push_token
strtok_all path = tokens_from [] path

abbrev pub dot : Name
dot = b'.' ∷ []

abbrev pub dot_dot : Name
dot_dot = b'.' ∷ b'.' ∷ []

-- `parse`'s variables: `names` (`none` for NULL) and `count`.
pub record Parsed : Type 0 where
  pub names : Option (List Name)
  pub count : ℕ

-- `if (names != NULL && count < nnames) names[count] = token;`
abbrev store : ℕ → ℕ → Name → Option (List Name) → Option (List Name)
store nnames count token none = none
store nnames count token (some ns) = some (if ltb count nnames then set ns count token else ns)

unfoldable pub parse_token : ℕ → Name → Parsed → Parsed
parse_token nnames token p =
    if str_eq token dot_dot && ltb 0 p.count
    then record p { count = p.count - 1 }
    else if str_eq token dot
    then p
    else record p { names = store nnames p.count token p.names; count = p.count + 1 }

-- The loop; `none` is the return of -EINVAL at a name of more than 27 bytes.
unfoldable pub parse_loop : ℕ → List Name → Parsed → Option Parsed
parse_loop nnames [] p = some p
parse_loop nnames (token ∷ tokens) p =
    let rest = parse_loop nnames tokens (parse_token nnames token p) in
    if ltb (filename_size - 1) (length token) then none else rest

-- `none` stands for a negative result: a name too long, or more names than `nnames`.
unfoldable pub parse : List ℕ → Option (List Name) → ℕ → Option Parsed
unfolding strtok_all parse_loop parse_token
parse path names nnames =
    elim (parse_loop nnames (strtok_all path) (record { names = names; count = 0 })) [
      | none ↦ none
      | some p ↦ if not (nnames == 0) && ltb nnames p.count then none else some p
    ]
