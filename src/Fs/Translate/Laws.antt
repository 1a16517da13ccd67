-- ===== src/Fs/Translate/Laws.antt =====
-- Path translation of pmeunier-project/fs.c against the names that a path stands for.
use cs.Common.{
  ℕ, ◌≡◌, refl, Option, none, some, List, [], ◌∷◌, ◌++◌, arith, length, if◌then◌else◌, Bool-cases,
  ◌∙◌, sym, ap, inl, inr,
}
use cs.Fs.Monad.{State, M, done, pure, ◌>>=◌}
use cs.Fs.Monad.Laws.{
  after, Keeps, keeping, bind-Keeps, pure-Keeps, bind_cong, bind_assoc, bind_pure, bind_done,
}
use cs.Fs.Dir.{Name}
use cs.Fs.Path.Normal.{normal, has_short_names, parse_counts, parse_stores, parse_refuses}
use cs.Fs.Translate.{
  lookup, enter, walk, path_names, is_root_path, translate, translate_1, walk_names, walk_parents,
  split_last,
}

nil_of_length : (ns : List Name) → length ns ≡ 0 → ns ≡ []
nil_of_length [] e = refl
nil_of_length (n ∷ ns) e = absurd (omega arith)

-- The two calls of `parse` give the names that the path stands for, read from left to right: "."
-- is dropped, ".." takes back the name before it and is kept as a name where there is none. A path
-- with a name of more than 27 bytes gives an error.
pub path_names-normal :
    (path : List ℕ) → path_names path ≡ (if has_short_names path then some (normal path) else none)
unfolding path_names
path_names-normal path = elim (Bool-cases (has_short_names path)) [
  | inl short ↦
      let (p, counted, e) = parse_counts path short in
      let (q, stored, f) = parse_stores path p.count short e in
      ground (arith, short, counted, e, stored, f, nil_of_length (normal path))
  | inr long ↦ ground (arith, long, parse_refuses path none 0 long)
]

pub lookup-Keeps : (inum : ℕ) (name : Name) → Keeps (lookup inum name)
unfolding lookup
lookup-Keeps inum name = search keeping depth 12

pub enter-Keeps : (inum : ℕ) (name : Name) → Keeps (enter inum name)
unfolding enter
enter-Keeps inum name = search (keeping, lookup-Keeps) depth 12

-- Walking down names reads the disk and changes nothing.
pub walk-Keeps : (inum : ℕ) (names : List Name) → Keeps (walk inum names)
unfolding walk
walk-Keeps inum [] = pure-Keeps inum
walk-Keeps inum (name ∷ names) = bind-Keeps (enter-Keeps inum name) λ next. walk-Keeps next names

walk_names_keeps : (names : Option (List Name)) (s : State) → after (walk_names names s) ≡ s
walk_names_keeps none s = refl
walk_names_keeps (some names) s = (walk-Keeps s.root_inode names).kept s

walk_parents_keeps : (names : Option (List Name)) (s : State) → after (walk_parents names s) ≡ s
walk_parents_keeps none s = refl
walk_parents_keeps (some names) s =
    (bind-Keeps (walk-Keeps s.root_inode (split_last names).0) (λ inum. pure-Keeps _)).kept s

-- `translate` and `translate_1` change no state, whatever they return.
pub translate-Keeps : (path : List ℕ) → Keeps (translate path) × Keeps (translate_1 path)
unfolding translate translate_1
translate-Keeps path = (
  record { kept = λ s. ground (arith, walk_names_keeps (path_names path) s) },
  record { kept = λ s. ground (arith, walk_parents_keeps (path_names path) s) },
)

-- Walking two runs of names is walking the first and then the second.
walk-append :
    (xs ys : List Name) (inum : ℕ) (s : State)
    → walk inum (xs ++ ys) s ≡ (walk inum xs >>= λ mid. walk mid ys) s
unfolding walk
walk-append [] ys inum s = refl
walk-append (x ∷ xs) ys inum s =
    bind_cong (enter inum x) (λ next. walk next (xs ++ ys))
      (λ next. walk next xs >>= λ mid. walk mid ys) (λ next t. walk-append xs ys next t) s
    ∙ sym (bind_assoc (enter inum x) (λ next. walk next xs) (λ mid. walk mid ys) s)

split_last-append :
    (names : List Name) (leaf : Name)
    → (split_last names).1 ≡ some leaf
    → names ≡ (split_last names).0 ++ (leaf ∷ [])
unfolding split_last
split_last-append [] leaf e = cc
split_last-append (n ∷ []) leaf e = ground arith
split_last-append (n ∷ m ∷ ns) leaf e = ap (λ t. n ∷ t) (split_last-append (m ∷ ns) leaf e)

last_step :
    (m : M ℕ) (leaf : Name) {parent : ℕ} (s : State)
    → m s ≡ done parent s
    → (m >>= λ mid. walk mid (leaf ∷ [])) s ≡ enter parent leaf s
unfolding walk
last_step m leaf {parent} s w =
    bind_done m (λ mid. walk mid (leaf ∷ [])) w ∙ bind_pure (enter parent leaf) s

walk_split :
    (names : List Name) (leaf : Name) (inum parent : ℕ) (s : State)
    → (split_last names).1 ≡ some leaf
    → walk inum (split_last names).0 s ≡ done parent s
    → walk inum names s ≡ enter parent leaf s
walk_split names leaf inum parent s e w =
    ap (λ ns. walk inum ns s) (split_last-append names leaf e)
    ∙ walk-append (split_last names).0 (leaf ∷ []) inum s
    ∙ last_step (walk inum (split_last names).0) leaf s w

-- A successful pairing of a walk's result with a leaf.
abbrev with_leaf : M ℕ → Option Name → M (ℕ × Option Name)
with_leaf m last = m >>= λ inum. pure (inum, last)

done_pair :
    (m : M ℕ) (last : Option Name) (s : State) {parent : ℕ} {leaf : Name}
    → with_leaf m last s ≡ done (parent, some leaf) s
    → (m s ≡ done parent s) × (last ≡ some leaf)
done_pair m last s {parent} {leaf} h = ground arith

walk_names-parents :
    (names : Option (List Name)) (s : State) {parent : ℕ} {leaf : Name}
    → walk_parents names s ≡ done (parent, some leaf) s
    → walk_names names s ≡ enter parent leaf s
walk_names-parents none s h = cc
walk_names-parents (some names) s {parent} {leaf} h =
    let (w, e) = done_pair (walk s.root_inode (split_last names).0) (split_last names).1 s h in
    walk_split names leaf s.root_inode parent s e w

-- Where `translate_1` finds a parent and a leaf, `translate` is one more step: the parent must be a
-- directory, and the leaf is looked up in it.
pub translate-translate_1 :
    (path : List ℕ) (s : State) {parent : ℕ} {leaf : Name}
    → translate_1 path s ≡ done (parent, some leaf) s
    → translate path s ≡ enter parent leaf s
unfolding translate translate_1
translate-translate_1 path s h = elim (Bool-cases (is_root_path path)) [
  | inl root ↦ ground (arith, root)
  | inr below ↦ rw below (walk_names-parents (path_names path) s (rw below at h))
]
