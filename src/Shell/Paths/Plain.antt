-- ===== src/Shell/Paths/Plain.antt =====
-- normalize_paths of pmeunier-project/main.c on names without "." and "..", and where it moves a name.
use cs.Common.{
  ℕ, suc, ◌+◌, ◌≤◌, ◌<◌, ◌≡◌, ap, ◌∙◌, true, false, none, some, List, [], ◌∷◌, map, length, arith,
  take_all,
}
use cs.Fs.Layout.Codec.{All}
use cs.Fs.Dir.{str_eq}
use cs.Fs.Path.{dot, dot_dot}
use cs.Shell.Paths.{
  max_path, string_at, split, is_slash, move_string, normal_loop, normalize_paths, joined, or_root,
  bounded, absolute, normal_path, full_path,
}

-- The name at `p` is neither "." nor "..".
pub record IsPlain (buf : List ℕ) (p : ℕ) : Type 0 where
  pub not_dot : str_eq (string_at buf p) dot ≡ false
  pub not_dot_dot : str_eq (string_at buf p) dot_dot ≡ false

plain_loop :
    (names ps : List ℕ) (k : ℕ) (buf : List ℕ)
    → All (IsPlain buf) ps
    → normal_loop names ps k k buf ≡ some (k + length ps, buf)
unfolding normal_loop
plain_loop names [] k buf h = let e : k ≡ k + 0 = omega arith in ap (λ n. some (n, buf)) e
plain_loop names (p ∷ ps) k buf h =
    let not_dot = h.0.not_dot in
    let not_dot_dot = h.0.not_dot_dot in
    let e : k + 1 + length ps ≡ k + suc (length ps) = omega arith in
    let rest = plain_loop names ps (k + 1) buf h.1 ∙ ap (λ n. some (n, buf)) e in
    ground (arith, not_dot, not_dot_dot, rest)

-- A path that is absolute or not, without "." and ".." among its names, is made of these names in their
-- order, if it fits the arrays before and after.
pub full_path_plain :
    (cwd path : List ℕ)
    → length (absolute cwd path) < max_path
    → All
        (IsPlain (split (absolute cwd path) 0 is_slash).1)
        (split (absolute cwd path) 0 is_slash).0
    → length (
        or_root (
          joined (
            map
              (string_at (split (absolute cwd path) 0 is_slash).1)
              (split (absolute cwd path) 0 is_slash).0)))
      < max_path
    → full_path cwd path
      ≡ some (
          or_root (
            joined (
              map
                (string_at (split (absolute cwd path) 0 is_slash).1)
                (split (absolute cwd path) 0 is_slash).0)))
unfolding full_path normal_path normalize_paths bounded
full_path_plain cwd path small plain fits =
    let names = (split (absolute cwd path) 0 is_slash).0 in
    let buf = (split (absolute cwd path) 0 is_slash).1 in
    ground
      (arith, plain_loop names names 0 buf plain, take_all names (0 + length names) (omega arith))

-- Where the first name is "." and the second one stands right behind it, is not "." or ".." and has two
-- letters or more, the two strings of the first strcpy overlap, which is not defined.
pub normalize_overlap :
    (p : ℕ) (ps buf : List ℕ)
    → str_eq (string_at buf p) dot ≡ true
    → IsPlain buf (p + 2)
    → 2 ≤ length (string_at buf (p + 2))
    → normalize_paths (p ∷ (p + 2) ∷ ps) buf ≡ none
unfolding normalize_paths normal_loop move_string
normalize_overlap p ps buf first plain long =
    let not_dot = plain.not_dot in
    let not_dot_dot = plain.not_dot_dot in ground (arith, first, not_dot, not_dot_dot)
