-- ===== src/Fs/Path/Normal.antt =====
-- The two calls of `parse` in pmeunier-project/fs.c against a plain reading of a path: a stack of
-- names, on which ".." pops, "." does nothing and any other name is pushed.
use cs.Common.{
  ℕ, suc, ◌-◌, min, ◌≡◌, refl, ap, Bool, true, false, ◌&&◌, Option, none, some, List, [], ◌∷◌, ◌++◌,
  inl, inr, arith, length, set, take, replicate, ltb, if◌then◌else◌, Bool-cases, dec_lt, lt→ltb,
  length-append, length-set, length-take, length-replicate, take_all, take-take, take-append_le,
  take-set, sym, ◌∙◌,
}
use cs.Fs.Layout.{filename_size}
use cs.Fs.Dir.{Name, str_eq}
use cs.Fs.Path.{Parsed, parse, parse_loop, parse_token, strtok_all, dot, dot_dot}

-- A ".." at the root is no backing up: it is pushed like a name.
push_name : Name → List Name → List Name
push_name token names =
    if str_eq token dot_dot && ltb 0 (length names)
    then take (length names - 1) names
    else if str_eq token dot
    then names
    else names ++ (token ∷ [])

push_all : List Name → List Name → List Name
push_all [] names = names
push_all (token ∷ tokens) names = push_all tokens (push_name token names)

-- The names that a path stands for.
pub normal : List ℕ → List Name
unfolding push_all push_name
normal path = push_all (strtok_all path) []

-- Every token of a path fits a directory entry.
short_names : List Name → Bool
short_names [] = true
short_names (token ∷ tokens) = ltb (length token) filename_size && short_names tokens

pub has_short_names : List ℕ → Bool
unfolding short_names
has_short_names path = short_names (strtok_all path)

-- As much of the stack `ns` as the array `arr` of `n` names has room for is stored in it.
abbrev Stored : ℕ → List Name → List Name → Type 0
Stored n ns arr = (length arr ≡ n) × (take (min (length ns) n) arr ≡ take (min (length ns) n) ns)

pop-Stored : (n : ℕ) (ns arr : List Name) → Stored n ns arr → Stored n (take (length ns - 1) ns) arr
pop-Stored n ns arr (sized, same) = (
  sized,
  rw shorter (
      sym (take-take i (min (length ns) n) arr (omega arith))
      ∙ ap (take i) same
      ∙ take-take i (min (length ns) n) ns (omega arith)
      ∙ sym (take-take i (length ns - 1) ns (omega arith))),
)
  where
    i : ℕ
    i = min (length ns - 1) n

    shorter : min (length (take (length ns - 1) ns)) n ≡ min (length ns - 1) n
    shorter = omega (arith, length-take (length ns - 1) ns)

push-Stored :
    (n : ℕ) (token : Name) (ns arr : List Name)
    → Stored n ns arr
    → Stored n (ns ++ (token ∷ [])) (if ltb (length ns) n then set arr (length ns) token else arr)
push-Stored n token ns arr (sized, same) = elim (dec_lt (length ns) n) [
  | yes room ↦
      let e : min (length (ns ++ (token ∷ []))) n ≡ suc (length ns) =
        omega (arith, length-append ns (token ∷ [])) in
      let c : min (length ns) n ≡ length ns = omega arith in
      rw (lt→ltb _ _ room) (
        omega (arith, length-set arr (length ns) token),
        rw e (
            take-set (length ns) arr token (omega arith)
            ∙ ap (λ t. t ++ (token ∷ [])) ((rw c at same) ∙ take_all ns (length ns) refl)
            ∙ sym (
                take_all (ns ++ (token ∷ [])) (suc (length ns))
                  (omega (arith, length-append ns (token ∷ []))))),
      )
  | no full ↦
      let e : min (length (ns ++ (token ∷ []))) n ≡ n =
        omega (arith, length-append ns (token ∷ [])) in
      let c : min (length ns) n ≡ n = omega arith in
      let f : ltb (length ns) n ≡ false = ground arith in
      rw f (sized, rw e ((rw c at same) ∙ sym (take-append_le n ns (token ∷ []) (omega arith))))
]

parse_token-count :
    (n : ℕ) (token : Name) (ns : List Name) (p : Parsed)
    → p.count ≡ length ns
    → (parse_token n token p).count ≡ length (push_name token ns)
unfolding parse_token push_name
parse_token-count n token ns p e =
    ground (arith, length-take (length ns - 1) ns, length-append ns (token ∷ []))

-- `parse`'s variables once the stack is `ns`.
abbrev Holds : ℕ → List Name → Parsed → Type 0
Holds n ns p = (p.count ≡ length ns) × (arr : List Name) × (p.names ≡ some arr) × Stored n ns arr

parse_token-Holds :
    (n : ℕ) (token : Name) (ns : List Name) (p : Parsed)
    → Holds n ns p
    → Holds n (push_name token ns) (parse_token n token p)
unfolding parse_token push_name
parse_token-Holds n token ns p (e, arr, h, st) =
    elim (Bool-cases (str_eq token dot_dot && ltb 0 (length ns))) [
      | inl up ↦
          let up' : (str_eq token dot_dot && ltb 0 p.count) ≡ true = rw e up in
          rw (up, up')
            (omega (arith, length-take (length ns - 1) ns), arr, h, pop-Stored n ns arr st)
      | inr down ↦
          let down' : (str_eq token dot_dot && ltb 0 p.count) ≡ false = rw e down in
          rw (down, down')
            (elim (Bool-cases (str_eq token dot)) [
              | inl stay ↦ rw stay (e, arr, h, st)
              | inr name ↦ rw name (
                omega (arith, length-append ns (token ∷ [])),
                if ltb (length ns) n then set arr (length ns) token else arr,
                rw (e, h) refl,
                push-Stored n token ns arr st,
              )
            ])
    ]

parse_loop-count :
    (n : ℕ) (tokens ns : List Name) (p : Parsed)
    → short_names tokens ≡ true
    → p.count ≡ length ns
    → (q : Parsed) × (parse_loop n tokens p ≡ some q) × (q.count ≡ length (push_all tokens ns))
unfolding parse_loop short_names push_all
parse_loop-count n [] ns p short e = (p, refl, e)
parse_loop-count n (token ∷ tokens) ns p short e =
    let (q, ran, kept) =
      parse_loop-count n tokens (push_name token ns) (parse_token n token p) (ground arith)
        (parse_token-count n token ns p e) in
    (q, ground arith, kept)

-- Short names: the loop ends with the stack; a long one ends it with an error.
parse_loop-Holds :
    (n : ℕ) (tokens ns : List Name) (p : Parsed)
    → short_names tokens ≡ true
    → Holds n ns p
    → (q : Parsed) × (parse_loop n tokens p ≡ some q) × Holds n (push_all tokens ns) q
unfolding parse_loop short_names push_all
parse_loop-Holds n [] ns p short h = (p, refl, h)
parse_loop-Holds n (token ∷ tokens) ns p short h =
    let (q, ran, kept) =
      parse_loop-Holds n tokens (push_name token ns) (parse_token n token p) (ground arith)
        (parse_token-Holds n token ns p h) in
    (q, ground arith, kept)

parse_loop-none :
    (n : ℕ) (tokens : List Name) (p : Parsed)
    → short_names tokens ≡ false
    → parse_loop n tokens p ≡ none
unfolding parse_loop short_names
parse_loop-none n [] p long = cc
parse_loop-none n (token ∷ tokens) p long =
    ground (arith, parse_loop-none n tokens (parse_token n token p))

pub parse_counts :
    (path : List ℕ)
    → has_short_names path ≡ true
    → (p : Parsed) × (parse path none 0 ≡ some p) × (p.count ≡ length (normal path))
unfolding has_short_names parse normal
parse_counts path short =
    let (q, ran, kept) =
      parse_loop-count 0 (strtok_all path) [] (record { names = none; count = 0 }) short refl in
    (q, ground arith, kept)

-- With as many places as names, the array is filled with exactly the names.
pub parse_stores :
    (path : List ℕ) (n : ℕ)
    → has_short_names path ≡ true
    → n ≡ length (normal path)
    → (q : Parsed) × (parse path (some (replicate n [])) n ≡ some q)
      × (q.names ≡ some (normal path))
unfolding has_short_names parse normal take
parse_stores path n short e =
    let (q, ran, kept) =
      parse_loop-Holds n (strtok_all path) [] (record { names = some (replicate n []); count = 0 })
        short (refl, replicate n [], refl, (length-replicate n [], take_none (replicate n []))) in
    let fits : ltb n q.count ≡ false = ground (arith, kept.0) in
    (q, ground (arith, ran, fits), stored q kept)
  where
    names : List Name
    names = push_all (strtok_all path) []

    take_none : (xs : List Name) → take (min 0 n) xs ≡ take (min 0 n) []
    take_none xs = let z : min 0 n ≡ 0 = omega arith in rw z refl

    all_of : (arr : List Name) → Stored n names arr → arr ≡ names
    all_of arr (sized, same) =
        let m : min (length names) n ≡ n = omega arith in
        sym (take_all arr n sized) ∙ (rw m at same) ∙ take_all names n (omega arith)

    stored : (q : Parsed) → Holds n names q → q.names ≡ some names
    stored q (c, arr, h, st) = h ∙ ap some (all_of arr st)

pub parse_refuses :
    (path : List ℕ) (names : Option (List Name)) (n : ℕ)
    → has_short_names path ≡ false
    → parse path names n ≡ none
unfolding has_short_names parse
parse_refuses path names n long =
    ground (arith, parse_loop-none n (strtok_all path) (record { names = names; count = 0 }) long)
