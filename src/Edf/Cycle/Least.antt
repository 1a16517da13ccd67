-- ===== src/Edf/Cycle/Least.antt =====
-- The loop of least_common_multiple in pa3/edf.c ends, and with the least common multiple.
use cs.Common.{
  ℕ, zero, suc, ◌+◌, ◌*◌, ◌/◌, ◌%◌, ◌^◌, ◌≤◌, ◌<◌, ◌≡◌, ◌≢◌, refl, sym, ap, ◌∙◌, arith, ℕ_discrete,
  List, [], ◌∷◌, map, dec_lt,
}
use native.Mathlib.Nat.{
  mod_self, mul-mod_right, mul-mod_left, div-add-mod, mul-le-mul_left, mul-suc, mul_assoc, mul_comm,
  mul-zero, mul-pos,
}
use cs.Fs.Layout.Codec.{All}
use cs.Edf.{Process}
use cs.Edf.Cycle.{found, multiple_from, least_common_multiple, max_time_from}

-- The least positive number that both divide, and it is at most their product.
pub record IsLeast (a b m : ℕ) : Type 0 where
  pub positive : 0 < m
  pub first : m % a ≡ 0
  pub second : m % b ≡ 0
  pub bound : m ≤ a * b
  pub least : (c : ℕ) → 0 < c → c % a ≡ 0 → c % b ≡ 0 → m ≤ c

-- No multiple of `a` before the `k`-th is one of `b`.
abbrev NoneBefore : ℕ → ℕ → ℕ → Type 0
NoneBefore a b k = (j : ℕ) → 0 < j → j < k → (a * j) % b ≢ 0

whole : (c a : ℕ) → c % a ≡ 0 → a * (c / a) ≡ c
whole c a e = omega (arith, div-add-mod c a)

positive_quotient : (c a : ℕ) → 0 < c → c % a ≡ 0 → 0 < c / a
positive_quotient c a pos e = elim (dec_lt 0 (c / a)) [
  | yes h ↦ h
  | no h ↦
      let z : c / a ≡ 0 = omega arith in
      absurd (omega (arith, whole c a e, ap (λ k. a * k) z, mul-zero a))
]

is_least :
    (a b k : ℕ) → 0 < a → 0 < k → k ≤ b → (a * k) % b ≡ 0 → NoneBefore a b k → IsLeast a b (a * k)
is_least a b k pa pk room hit none = record {
  positive = mul-pos pa pk;
  first = mul-mod_right a k;
  second = hit;
  bound = mul-le-mul_left a room;
  least = λ c pc ca cb. elim (dec_lt (c / a) k) [
    | yes before ↦
        absurd
          (none (c / a) (positive_quotient c a pc ca) before (ap (λ n. n % b) (whole c a ca) ∙ cb))
    | no behind ↦
        let far : k ≤ c / a = omega arith in omega (arith, mul-le-mul_left a far, whole c a ca)
  ];
}

-- The rounds from the `k`-th multiple on.
rounds_lem :
    (a b k r : ℕ)
    → 0 < a
    → 0 < b
    → 0 < k
    → k + r ≡ b + 1
    → k ≤ b
    → a * b < 2 ^ 31
    → NoneBefore a b k
    → (m : ℕ) × (multiple_from r (a * k) a b ≡ found m) × IsLeast a b m
unfolding multiple_from
rounds_lem a b k zero pa pb pk total room small none = absurd (omega arith)
rounds_lem a b k (suc r) pa pb pk total room small none = elim (ℕ_discrete ((a * k) % b) 0) [
  | yes hit ↦ (a * k, ground (arith, mul-mod_right a k), is_least a b k pa pk room hit none)
  | no miss ↦
      let behind : k ≢ b = λ e. miss (ap (λ n. (a * n) % b) e ∙ mul-mod_left a b) in
      let none' : NoneBefore a b (suc k) = λ j pj before. elim (ℕ_discrete j k) [
        | yes e ↦ λ hit. miss (ap (λ n. (a * n) % b) (sym e) ∙ hit)
        | no ne ↦ none j pj (omega arith)
      ] in
      let (m, run, h) =
        rounds_lem a b (suc k) r pa pb (omega arith) (omega arith) (omega arith) small none' in
      let next : a * k + a ≡ a * suc k = sym (mul-suc a k) in
      let after : suc k ≤ b = omega arith in
      let in_int : a * k + a < 2 ^ 31 = omega (arith, next, mul-le-mul_left a after, small) in
      (m, ground (arith, run, in_int, next, ap (λ n. multiple_from r n a b) next), h)
]

-- For positive numbers whose product is an int the loop ends within as many rounds as the second one says, with the least
-- positive number that both divide; that is at most their product.
pub least_common_multiple_lem :
    (a b : ℕ)
    → 0 < a
    → 0 < b
    → a * b < 2 ^ 31
    → (m : ℕ) × (least_common_multiple a b ≡ found m) × IsLeast a b m
unfolding least_common_multiple
least_common_multiple_lem a b pa pb small =
    let (m, run, h) =
      rounds_lem a b 1 b pa pb (omega arith) (omega arith) (omega arith) small
        (λ j pj lt. absurd (omega arith)) in
    let one : a * 1 ≡ a = omega arith in
    (m, ground (arith, run, ap (λ n. multiple_from b n a b) one), h)

multiple_trans : (c m p : ℕ) → c % m ≡ 0 → m % p ≡ 0 → c % p ≡ 0
multiple_trans c m p hc hm =
    let e : p * (m / p * (c / m)) ≡ c =
      sym (mul_assoc p (m / p) (c / m)) ∙ ap (λ n. n * (c / m)) (whole m p hm) ∙ whole c m hc in
    ap (λ n. n % p) (sym e) ∙ mul-mod_right p (m / p * (c / m))

abbrev pub product : List ℕ → ℕ
product [] = 1
product (x ∷ xs) = x * product xs

product-pos :
    (ps : List Process) → All (λ p. 0 < p.period) ps → 0 < product (map (λ p. p.period) ps)
product-pos [] all = omega arith
product-pos (p ∷ ps) all = mul-pos all.0 (product-pos ps all.1)

-- Where every period is positive and the product of the time so far and all of them is an int, the
-- loop of main ends with a positive time, at most that product, that the time so far and every
-- period divide.
pub max_time_lem :
    (time : ℕ) (ps : List Process)
    → 0 < time
    → All (λ p. 0 < p.period) ps
    → time * product (map (λ p. p.period) ps) < 2 ^ 31
    → (m : ℕ) × (max_time_from time ps ≡ found m)
      × (0 < m)
      × (m ≤ time * product (map (λ p. p.period) ps))
      × (m % time ≡ 0)
      × All (λ p. m % p.period ≡ 0) ps
unfolding max_time_from
max_time_lem time [] pos all small = (time, refl, pos, omega arith, mod_self time, tt)
max_time_lem time (p ∷ ps) pos all small =
    let n = product (map (λ p. p.period) ps) in
    let some = product-pos ps all.1 in
    let grouped : time * p.period * n ≡ time * (p.period * n) = mul_assoc time p.period n in
    let below : time * p.period ≤ time * p.period * n =
      omega (arith, mul-le-mul_left (time * p.period) some) in
    let (m, run, h) = least_common_multiple_lem time p.period pos all.0 (omega arith) in
    let bound : m * n ≤ time * p.period * n =
      omega (arith, mul-le-mul_left n h.bound, mul_comm n m, mul_comm n (time * p.period)) in
    let (last, run', pos', at_most, hm, hs) = max_time_lem m ps h.positive all.1 (omega arith) in
    (
      last,
      ground (arith, run, run'),
      pos',
      omega arith,
      multiple_trans last m time hm h.first,
      (multiple_trans last m p.period hm h.second, hs),
    )
