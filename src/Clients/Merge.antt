-- ===== src/Clients/Merge.antt =====
-- Processes' calls in the orders that a scheduler may give them.
use cs.Common.{
  suc, ◌≡◌, refl, sym, ap, Bool, false, ◌||◌, List, [], ◌∷◌, ◌++◌, length, arith, length-append,
}
use cs.Fs.Layout.Codec.{All}

module _ {A : Type 0} where
  unfoldable pub flatten : List (List A) → List A
  flatten [] = []
  flatten (p ∷ ps) = p ++ flatten ps

  unfoldable pub any : (A → Bool) → List A → Bool
  any f [] = false
  any f (x ∷ xs) = f x || any f xs

  -- The next call of one of the processes happens.
  pub data Picks : A → List (List A) → List (List A) → Type 0 where
    here : {c : A} {p : List A} {ps : List (List A)} → Picks c ((c ∷ p) ∷ ps) (p ∷ ps)
    there : {c : A} {p : List A} {ps qs : List (List A)} → Picks c ps qs → Picks c (p ∷ ps) (p ∷ qs)

  -- An order of all the processes' calls that keeps each one's own.
  pub data Merges : List (List A) → List A → Type 0 where
    finished : {ps : List (List A)} → flatten ps ≡ [] → Merges ps []
    turn :
        {c : A} {ps qs : List (List A)} {cs : List A}
        → Picks c ps qs
        → Merges qs cs
        → Merges ps (c ∷ cs)

  any-append : (f : A → Bool) (xs ys : List A) → any f (xs ++ ys) ≡ (any f xs || any f ys)
  unfolding any
  any-append f [] ys = refl
  any-append f (x ∷ xs) ys = ground (arith, any-append f xs ys)

  any-Picks :
      (f : A → Bool) (c : A) (ps qs : List (List A))
      → Picks c ps qs
      → any f (flatten ps) ≡ (f c || any f (flatten qs))
  unfolding any flatten
  any-Picks f c _ _ here = refl
  any-Picks f c (p ∷ ps) (_ ∷ qs) (there r) =
      ground
        (arith, any-append f p (flatten ps), any-append f p (flatten qs), any-Picks f c ps qs r)

  pub any-Merges :
      (f : A → Bool) (ps : List (List A)) (cs : List A)
      → Merges ps cs
      → any f cs ≡ any f (flatten ps)
  unfolding any
  any-Merges f ps _ (finished e) = ap (any f) (sym e)
  any-Merges f ps (c ∷ cs) (turn {qs = qs} r rest) =
      ground (arith, any-Picks f c ps qs r, any-Merges f qs cs rest)

  All-append : (P : A → Type 0) (xs ys : List A) → All P (xs ++ ys) → All P xs × All P ys
  All-append P [] ys h = (tt, h)
  All-append P (x ∷ xs) ys h = let r = All-append P xs ys h.1 in ((h.0, r.0), r.1)

  append-All : (P : A → Type 0) (xs ys : List A) → All P xs → All P ys → All P (xs ++ ys)
  append-All P [] ys h k = k
  append-All P (x ∷ xs) ys h k = (h.0, append-All P xs ys h.1 k)

  All-Picks :
      (P : A → Type 0) (c : A) (ps qs : List (List A))
      → Picks c ps qs
      → All P (flatten ps)
      → P c × All P (flatten qs)
  unfolding flatten
  All-Picks P c _ _ here h = h
  All-Picks P c (p ∷ ps) (_ ∷ qs) (there r) h =
      let both = All-append P p (flatten ps) h in
      let rest = All-Picks P c ps qs r both.1 in (rest.0, append-All P p (flatten qs) both.0 rest.1)

  pub All-Merges :
      (P : A → Type 0) (ps : List (List A)) (cs : List A)
      → Merges ps cs
      → All P (flatten ps)
      → All P cs
  All-Merges P ps _ (finished e) h = tt
  All-Merges P ps (c ∷ cs) (turn {qs = qs} r rest) h =
      let picked = All-Picks P c ps qs r h in (picked.0, All-Merges P qs cs rest picked.1)

  length-Picks :
      (c : A) (ps qs : List (List A))
      → Picks c ps qs
      → length (flatten ps) ≡ suc (length (flatten qs))
  unfolding flatten
  length-Picks c _ _ here = refl
  length-Picks c (p ∷ ps) (_ ∷ qs) (there r) =
      omega
        (arith, length-append p (flatten ps), length-append p (flatten qs), length-Picks c ps qs r)

  pub length-Merges :
      (ps : List (List A)) (cs : List A) → Merges ps cs → length cs ≡ length (flatten ps)
  length-Merges ps _ (finished e) = ap length (sym e)
  length-Merges ps (c ∷ cs) (turn {qs = qs} r rest) =
      omega (arith, length-Picks c ps qs r, length-Merges qs cs rest)
