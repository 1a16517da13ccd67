-- ===== src/Shell/Paths.antt =====
-- The paths of pmeunier-project/main.c: split, normalize_paths, full_path and update_cwd. The names are
-- offsets into the one buffer that strtok_r has cut, and are moved inside it by strcpy, which is not
-- defined where the two strings overlap. `none` is an access that is not defined.
pub mod Plain
use cs.Common.{
  ℕ, zero, suc, ◌+◌, ◌-◌, ◌*◌, Bool, true, false, ◌&&◌, ◌||◌, Option, none, some, List, [], ◌∷◌,
  ◌++◌, map, length, take, drop, set, get_or, ltb, leb, ◌==◌, if◌then◌else◌,
}
use cs.Fs.Dir.{cstr, str_eq}
use cs.Fs.Path.{dot, dot_dot}

-- `MAX_PATH`
abbrev pub max_path : ℕ
max_path = 4096

-- Where the words of a string stand, and how long they are: what strtok_r finds. `k` letters of a
-- word stand before the position `pos`.
abbrev pub end_span : ℕ → ℕ → List (ℕ × ℕ) → List (ℕ × ℕ)
end_span pos k rest = if k == 0 then rest else (pos - k, k) ∷ rest

unfoldable pub spans : (ℕ → Bool) → ℕ → ℕ → List ℕ → List (ℕ × ℕ)
spans delim pos k [] = end_span pos k []
spans delim pos k (c ∷ cs) =
    let separated = spans delim (pos + 1) 0 cs in
    let continued = spans delim (pos + 1) (k + 1) cs in
    if delim c then end_span pos k separated else continued

-- The buffer with its final NUL, once a NUL stands behind each word.
unfoldable pub cut : List (ℕ × ℕ) → List ℕ → List ℕ
cut [] buf = buf
cut ((start, k) ∷ rest) buf = cut rest (set buf (start + k) 0)

abbrev pub string_at : List ℕ → ℕ → List ℕ
string_at buf p = cstr (drop p buf)

-- `split` with an array for the words; 0 means any number of them.
unfoldable pub split : List ℕ → ℕ → (ℕ → Bool) → List ℕ × List ℕ
split p n delim =
    let all = spans delim 0 0 p in
    let kept = if n == 0 then all else take n all in (map (λ w. w.0) kept, cut kept (p ++ (0 ∷ [])))

abbrev pub is_slash : ℕ → Bool
is_slash c = c == b'/'

-- `strcpy(buf + to, buf + from)`
unfoldable pub move_string : List ℕ → ℕ → ℕ → Option (List ℕ)
move_string buf to from =
    let n = length (string_at buf from) + 1 in
    if ltb from (to + n) && ltb to (from + n)
    then none
    else some (take to buf ++ (string_at buf from ++ (0 ∷ drop (to + n) buf)))

-- `strcpy(names[dest], names[src])` if the name stands elsewhere.
abbrev pub place : List ℕ → List ℕ → ℕ → ℕ → ℕ → Option (List ℕ)
place buf names dest src p =
    if ltb dest src then move_string buf (get_or names dest 0) p else some buf

-- The loop of normalize_paths over the names from `src` on.
unfoldable pub normal_loop : List ℕ → List ℕ → ℕ → ℕ → List ℕ → Option (ℕ × List ℕ)
normal_loop names [] src dest buf = some (dest, buf)
normal_loop names (p ∷ ps) src dest buf =
    if str_eq (string_at buf p) dot
    then normal_loop names ps (src + 1) dest buf
    else if str_eq (string_at buf p) dot_dot
    then normal_loop names ps (src + 1) (dest - 1) buf
    else (elim (place buf names dest src p) [
      | none ↦ none
      | some buf' ↦ normal_loop names ps (src + 1) (dest + 1) buf'
    ])

unfoldable pub normalize_paths : List ℕ → List ℕ → Option (ℕ × List ℕ)
normalize_paths names buf = normal_loop names names 0 0 buf

-- `"/%s"` for each of the names.
unfoldable pub joined : List (List ℕ) → List ℕ
joined [] = []
joined (w ∷ ws) = (b'/' ∷ w) ++ joined ws

unfoldable pub or_root : List ℕ → List ℕ
or_root [] = b'/' ∷ []
or_root (c ∷ cs) = c ∷ cs

-- A string of 4096 bytes or more does not fit the arrays.
unfoldable pub bounded : List ℕ → Option (List ℕ)
bounded s = if ltb (length s) max_path then some s else none

abbrev pub absolute : List ℕ → List ℕ → List ℕ
absolute cwd [] = cwd ++ (b'/' ∷ [])
absolute cwd (c ∷ cs) = if is_slash c then c ∷ cs else cwd ++ (b'/' ∷ c ∷ cs)

-- The names from the normalised array, written out one behind the other.
abbrev pub written_out : List ℕ → ℕ × List ℕ → List ℕ
written_out names (n, buf) = or_root (joined (map (string_at buf) (take n names)))

unfoldable pub normal_path : List ℕ → Option (List ℕ)
normal_path path =
    let names = (split path 0 is_slash).0 in
    elim (normalize_paths names (split path 0 is_slash).1) [
      | none ↦ none
      | some r ↦ bounded (written_out names r)
    ]

unfoldable pub full_path : List ℕ → List ℕ → Option (List ℕ)
full_path cwd path = elim (bounded (absolute cwd path)) [ none ↦ none | some tmp ↦ normal_path tmp ]

-- `update_cwd`, with the names it is given.
unfoldable pub update_cwd : List (List ℕ) → List ℕ
update_cwd names = or_root (joined names)
