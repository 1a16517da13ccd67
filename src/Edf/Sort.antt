-- ===== src/Edf/Sort.antt =====
-- deadline_Sort of pa3/edf.c sorts: its result is in order, and a rearrangement of what it is given.
use cs.Common.{
  ℕ, zero, suc, ◌-◌, ◌≡◌, refl, ap, append_assoc, append-nil, subst, inl, inr, arith, List, [], ◌∷◌,
  ◌++◌, length,
}
use mathlib.Core.List.{Permᴰ}
use mathlib.Core.List.Permᴰ as Perm
use cs.Fs.Layout.Codec.{All}
use cs.Edf.{Process, bubble, bubbles, deadline_sort}
use cs.Edf.Order.{Before, Before-trans, order_pair-Before}

-- Every process comes before those behind it.
unfoldable pub InOrder : List Process → Type 0
InOrder [] = Unit
InOrder (p ∷ ps) = All (Before p) ps × InOrder ps

module _ (P : Process → Type 0) where
  All-Permᴰ : {xs ys : List Process} → Permᴰ xs ys → All P xs → All P ys
  All-Permᴰ Permᴰ.nil h = tt
  All-Permᴰ (Permᴰ.cons e d) h = (subst P e h.0, All-Permᴰ d h.1)
  All-Permᴰ (Permᴰ.swap e f) h = (subst P f h.1.0, (subst P e h.0, h.1.1))
  All-Permᴰ (Permᴰ.trans d d') h = All-Permᴰ d' (All-Permᴰ d h)

  All-append : (xs : List Process) (y : Process) → All P xs → P y → All P (xs ++ (y ∷ []))
  All-append [] y h k = (k, tt)
  All-append (x ∷ xs) y h k = (h.0, All-append xs y h.1 k)

  All-last : (xs : List Process) (y : Process) → All P (xs ++ (y ∷ [])) → All P xs × P y
  All-last [] y h = (tt, h.0)
  All-last (x ∷ xs) y h = let (a, b) = All-last xs y h.1 in ((h.0, a), b)

-- What a round of `n` steps over `front ++ back` gives, where the front has `n + 1` elements: the
-- greatest of the front stands before the back.
pub record Bubbled (n : ℕ) (front back result : List Process) : Type 0 where
  pub before : List Process
  pub top : Process
  pub shape : result ≡ before ++ (top ∷ back)
  pub sized : length before ≡ n
  pub lesser : All (λ p. Before p top) before
  pub same : Permᴰ front (before ++ (top ∷ []))

Before-refl : (p : Process) → Before p p
Before-refl p = ground arith

extend_round :
    (n : ℕ) (a b : Process) (ps back rest : List Process) {front : List Process}
    → Before a b
    → Permᴰ front (a ∷ b ∷ ps)
    → Bubbled n (b ∷ ps) back rest
    → Bubbled (suc n) front back (a ∷ rest)
extend_round n a b ps back rest ordered moved r =
    let top_last = All-append (λ p. Before p r.top) r.before r.top r.lesser (Before-refl r.top) in
    let all_below = All-Permᴰ (λ p. Before p r.top) (Perm.symm r.same) top_last in
    record {
      before = a ∷ r.before;
      top = r.top;
      shape = ap (λ t. a ∷ t) r.shape;
      sized = ap suc r.sized;
      lesser = (Before-trans a b r.top ordered all_below.0, r.lesser);
      same = Permᴰ.trans moved (Permᴰ.cons refl r.same);
    }

bubble-Bubbled :
    (n : ℕ) (front back : List Process)
    → length front ≡ suc n
    → Bubbled n front back (bubble n (front ++ back))
unfolding bubble
bubble-Bubbled n [] back e = absurd (omega arith)
bubble-Bubbled zero (x ∷ []) back e = record {
  before = [];
  top = x;
  shape = refl;
  sized = refl;
  lesser = tt;
  same = Perm.refl (x ∷ []);
}
bubble-Bubbled zero (x ∷ y ∷ ps) back e = absurd (omega arith)
bubble-Bubbled (suc n) (x ∷ []) back e = absurd (omega arith)
bubble-Bubbled (suc n) (x ∷ y ∷ ps) back e = elim (order_pair-Before x y) [
  | inl (kept, ordered) ↦ rw kept (
      extend_round n x y ps back (bubble n (y ∷ ps ++ back)) ordered (Perm.refl (x ∷ y ∷ ps))
        (bubble-Bubbled n (y ∷ ps) back (omega arith)))
  | inr (swapped, ordered) ↦ rw swapped (
      extend_round n y x ps back (bubble n (x ∷ ps ++ back)) ordered (Permᴰ.swap refl refl)
        (bubble-Bubbled n (x ∷ ps) back (omega arith)))
]

-- The rounds that are left sort a front before a back that is in order and behind it.
bubbles_lem :
    (n : ℕ) (front back : List Process)
    → length front ≡ suc n
    → InOrder back
    → All (λ p. All (Before p) back) front
    → InOrder (bubbles n (front ++ back)) × Permᴰ (front ++ back) (bubbles n (front ++ back))
unfolding bubbles InOrder
bubbles_lem n [] back e sorted behind = absurd (omega arith)
bubbles_lem zero (x ∷ []) back e sorted behind = ((behind.0, sorted), Perm.refl (x ∷ back))
bubbles_lem zero (x ∷ y ∷ ps) back e sorted behind = absurd (omega arith)
bubbles_lem (suc n) (x ∷ ps) back e sorted behind =
    let r = bubble-Bubbled (suc n) (x ∷ ps) back e in
    let moved = All-Permᴰ (λ p. All (Before p) back) r.same behind in
    let (front', top') = All-last (λ p. All (Before p) back) r.before r.top moved in
    let (done', same') =
      bubbles_lem n r.before (r.top ∷ back) r.sized (top', sorted)
        (pairs back r.top r.before r.lesser front') in
    let there : Permᴰ ((x ∷ ps) ++ back) (r.before ++ (r.top ∷ back)) =
      subst (Permᴰ ((x ∷ ps) ++ back)) (append_assoc r.before (r.top ∷ []) back)
        (Perm.append_right back r.same) in
    rw r.shape (done', Permᴰ.trans there same')
  where
    pairs :
        (back : List Process) (top : Process) (ps : List Process)
        → All (λ p. Before p top) ps
        → All (λ p. All (Before p) back) ps
        → All (λ p. All (Before p) (top ∷ back)) ps
    pairs back top [] h k = tt
    pairs back top (p ∷ ps) h k = ((h.0, k.0), pairs back top ps h.1 k.1)

none_behind : (ps : List Process) → All (λ p. All (Before p) []) ps
none_behind [] = tt
none_behind (p ∷ ps) = (tt, none_behind ps)

-- Sorting an array of processes puts it in the order of deadline, age and number, and rearranges
-- it.
pub deadline_sort-InOrder :
    (ps : List Process) → InOrder (deadline_sort ps) × Permᴰ ps (deadline_sort ps)
unfolding deadline_sort bubbles InOrder
deadline_sort-InOrder [] = (tt, Permᴰ.nil)
deadline_sort-InOrder (p ∷ ps) =
    let count : suc (length ps) - 1 ≡ length ps = omega arith in
    rw count (
      rw (append-nil (p ∷ ps)) at
        (bubbles_lem (length ps) (p ∷ ps) [] refl tt (none_behind (p ∷ ps))))
