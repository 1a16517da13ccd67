-- ===== src/Fs/Dir/Edits.antt =====
-- Renaming and adding an entry in one directory block of pmeunier-project/fs.c, and what the other
-- names lead to afterwards.
use cs.Common.{
  ℕ, zero, suc, ◌<◌, ◌^◌, ◌≡◌, refl, ◌≢◌, ap, sym, true, false, some, List, [], ◌∷◌, arith,
  if◌then◌else◌, Bool-cases, length, length-replicate, replicate, inl, inr,
}
use cs.Fs.Layout.{Dirent, blank_dirent, filename_size}
use cs.Fs.Layout.Codec.{All}
use cs.Fs.Layout.RoundTrip.{DirentFits}
use cs.Fs.Dir.{
  Name, str_eq, strcpy, entry_is, find_in_dir, find_free_dir, wipe_named, rename_named, add_entry,
}
use cs.Fs.Dir.Laws.{
  NoNul, IsName, str_eq→eq, str_eq_refl, str_eq_ne, cstr-strcpy, length-strcpy, Absent,
  entry_is→valid, entry_is→eq,
}

entry_is-renamed :
    (new name : Name) (d : Dirent)
    → IsName new
    → d.valid ≡ true
    → entry_is name (record d { name = strcpy (replicate filename_size 0) new }) ≡ str_eq new name
unfolding entry_is
entry_is-renamed new name d n v =
    ground (arith, cstr-strcpy (replicate filename_size 0) new n.no_nul)

-- `fs_rename`'s loop: the new name, absent before, leads where the old one did.
pub find-rename_new :
    (old new : Name) (es : List Dirent)
    → IsName new
    → Absent new es
    → find_in_dir (rename_named old new es) new ≡ find_in_dir es old
unfolding find_in_dir rename_named
find-rename_new old new [] n h = refl
find-rename_new old new (d ∷ ds) n h = elim (Bool-cases (entry_is old d)) [
  | inl f ↦
      rw f (ground (arith, entry_is-renamed new new d n (entry_is→valid old d f), str_eq_refl new))
  | inr f ↦ rw (f, h.0) (find-rename_new old new ds n h.1)
]

-- An entry of one name has another name exactly if the two are equal.
entry_is_other :
    (name other : Name) (d : Dirent) → entry_is name d ≡ true → entry_is other d ≡ str_eq name other
unfolding entry_is
entry_is_other name other d f =
    let e = entry_is→eq name d f in
    ground (arith, entry_is→valid name d f, ap (λ t. str_eq t other) e)

entry_is_same :
    (name other : Name) (d : Dirent) → str_eq name other ≡ true → entry_is other d ≡ entry_is name d
entry_is_same name other d e = ap (λ t. entry_is t d) (sym (str_eq→eq name other e))

pub find-rename_ne :
    (old new other : Name) (es : List Dirent)
    → IsName new
    → new ≢ other
    → find_in_dir (rename_named old new es) other
      ≡ (if str_eq old other then 0 else find_in_dir es other)
unfolding find_in_dir rename_named
find-rename_ne old new other [] n ne = ground arith
find-rename_ne old new other (d ∷ ds) n ne = elim (Bool-cases (entry_is old d)) [
  | inl f ↦
      rw
        (
          f,
          entry_is-renamed new other d n (entry_is→valid old d f),
          str_eq_ne new other ne,
          entry_is_other old other d f,
        )
        (ground (arith, find-rename_ne old new other ds n ne))
  | inr f ↦ rw f (ground (arith, find-rename_ne old new other ds n ne, entry_is_same old other d))
]

-- The free index holds no valid entry.
abbrev pub IsFree : ℕ → List Dirent → Type 0
IsFree i [] = ⊥
IsFree zero (d ∷ ds) = d.valid ≡ false
IsFree (suc i) (d ∷ ds) = (d.valid ≡ true) × IsFree i ds

pub find_free_dir_lem :
    (es : List Dirent) (i : ℕ) → find_free_dir es ≡ some i → IsFree i es × (i < length es)
unfolding find_free_dir
find_free_dir_lem [] i e = cc
find_free_dir_lem (d ∷ ds) zero e = (ground arith, omega arith)
find_free_dir_lem (d ∷ ds) (suc i) e =
    let later : (d.valid ≡ true) × (find_free_dir ds ≡ some i) = ground arith in
    let (f, below) = find_free_dir_lem ds i later.1 in ((later.0, f), omega arith)

entry_is-added :
    (name other : Name) (inode : ℕ) (d : Dirent)
    → NoNul name
    → entry_is other (record d { valid = true; inode = inode; name = strcpy d.name name })
      ≡ str_eq name other
unfolding entry_is
entry_is-added name other inode d h = ground (arith, cstr-strcpy d.name name h)

-- A new entry at the free index: its name leads to its inode, every other name where it did.
pub find-add_self :
    (es : List Dirent) (i : ℕ) (name : Name) (inode : ℕ)
    → IsFree i es
    → IsName name
    → Absent name es
    → find_in_dir (add_entry i name inode es) name ≡ inode
unfolding find_in_dir add_entry
find-add_self [] i name inode f n h = elim f [ ]
find-add_self (d ∷ ds) zero name inode f n h =
    ground (arith, entry_is-added name name inode d n.no_nul, str_eq_refl name)
find-add_self (d ∷ ds) (suc i) name inode f n h = rw h.0 (find-add_self ds i name inode f.1 n h.1)

entry_is_invalid : (name : Name) (d : Dirent) → d.valid ≡ false → entry_is name d ≡ false
unfolding entry_is
entry_is_invalid name d e = ground arith

pub find-add_ne :
    (es : List Dirent) (i : ℕ) (name other : Name) (inode : ℕ)
    → IsFree i es
    → IsName name
    → name ≢ other
    → find_in_dir (add_entry i name inode es) other ≡ find_in_dir es other
unfolding find_in_dir add_entry
find-add_ne [] i name other inode f n ne = elim f [ ]
find-add_ne (d ∷ ds) zero name other inode f n ne = rw (
  entry_is-added name other inode d n.no_nul,
  str_eq_ne name other ne,
  entry_is_invalid other d f,
)
find-add_ne (d ∷ ds) (suc i) name other inode f n ne =
    ground (arith, find-add_ne ds i name other inode f.1 n ne)

-- The changed blocks still fit the disk.
blank-DirentFits : DirentFits blank_dirent
blank-DirentFits = record {
  inode_fits = omega arith;
  name_fills = length-replicate filename_size 0;
}

pub wipe_named-fits :
    (name : Name) (es : List Dirent)
    → All DirentFits es
    → All DirentFits (wipe_named name es) × (length (wipe_named name es) ≡ length es)
unfolding wipe_named
wipe_named-fits name [] h = (tt, refl)
wipe_named-fits name (d ∷ ds) h =
    let (fits, sized) = wipe_named-fits name ds h.1 in
    elim (Bool-cases (entry_is name d)) [
      | inl f ↦ rw f ((blank-DirentFits, fits), ap suc sized)
      | inr f ↦ rw f ((h.0, fits), ap suc sized)
    ]

pub rename_named-fits :
    (old new : Name) (es : List Dirent)
    → IsName new
    → All DirentFits es
    → All DirentFits (rename_named old new es) × (length (rename_named old new es) ≡ length es)
unfolding rename_named
rename_named-fits old new [] n h = (tt, refl)
rename_named-fits old new (d ∷ ds) n h =
    let (fits, sized) = rename_named-fits old new ds n h.1 in
    elim (Bool-cases (entry_is old d)) [
      | inl f ↦ rw f (
        (
          record {
            inode_fits = h.0.inode_fits;
            name_fills =
                length-strcpy (replicate filename_size 0) new (length-replicate filename_size 0)
                  n.fits;
          },
          fits,
        ),
        ap suc sized,
      )
      | inr f ↦ rw f ((h.0, fits), ap suc sized)
    ]

pub add_entry-fits :
    (es : List Dirent) (i : ℕ) (name : Name) (inode : ℕ)
    → IsName name
    → inode < 2 ^ 30
    → All DirentFits es
    → All DirentFits (add_entry i name inode es) × (length (add_entry i name inode es) ≡ length es)
unfolding add_entry
add_entry-fits [] i name inode n room h = (tt, refl)
add_entry-fits (d ∷ ds) zero name inode n room h = (
  (record { inode_fits = room; name_fills = length-strcpy d.name name h.0.name_fills n.fits }, h.1),
  refl,
)
add_entry-fits (d ∷ ds) (suc i) name inode n room h =
    let (fits, sized) = add_entry-fits ds i name inode n room h.1 in ((h.0, fits), ap suc sized)
