-- ===== src/Fs/Remove/Freed.antt =====
-- Which blocks fs_truncate of pmeunier-project/fs.c returns to the free map.
use cs.Common.{
  ℕ, ◌*◌, ◌<◌, ◌≡◌, refl, sym, ap, ◌∙◌, Bool, false, List, [], ◌∷◌, ◌++◌, arith, length, Bitmap,
  fd_isset, fd_clr, fd_isset-fd_clr, length-fd_clr, ◌==◌, ◌||◌, if◌then◌else◌, Bool-cases, inl, inr,
}
use cs.Device.Laws.{IsReady}
use cs.Fs.Layout.{decode_ptrs}
use cs.Fs.Layout.Codec.{All}
use cs.Fs.Monad.{State, M, done, read_or_exit}
use cs.Fs.Monad.Laws.{bind_done}
use cs.Fs.Alloc.{return_blk}
use cs.Fs.Directory.{read_lem}
use cs.Fs.Remove.{
  return_entry, return_all, fs_truncate_indir1, fs_truncate_indir2, truncate_entry, truncate_each,
  release_with,
}

-- The block map with the bits of the blocks of a list cleared; block number 0 is no pointer.
unfoldable pub clear_all : List ℕ → Bitmap → Bitmap
clear_all [] m = m
clear_all (b ∷ bs) m = clear_all bs (if b == 0 then m else fd_clr b m)

-- `j` is one of the pointers.
unfoldable pub points_to : ℕ → List ℕ → Bool
points_to j [] = false
points_to j (b ∷ bs) = (if b == 0 then false else b == j) || points_to j bs

-- Every pointer lies in the map.
abbrev pub InMap : Bitmap → List ℕ → Type 0
InMap m = All (λ b. b < 8 * length m)

length-cleared : (b : ℕ) (m : Bitmap) → length (if b == 0 then m else fd_clr b m) ≡ length m
length-cleared b m = ground (arith, length-fd_clr b m)

pub length-clear_all : (bs : List ℕ) (m : Bitmap) → length (clear_all bs m) ≡ length m
unfolding clear_all
length-clear_all [] m = refl
length-clear_all (b ∷ bs) m = length-clear_all bs _ ∙ length-cleared b m

pub InMap-eq : (bs : List ℕ) (m n : Bitmap) → length m ≡ length n → InMap m bs → InMap n bs
InMap-eq [] m n e h = tt
InMap-eq (b ∷ bs) m n e h = (omega arith, InMap-eq bs m n e h.1)

-- A bit is clear afterwards if its block is listed, and else as it was.
pub isset-clear_all :
    (j : ℕ) (bs : List ℕ) (m : Bitmap)
    → InMap m bs
    → fd_isset j (clear_all bs m) ≡ (if points_to j bs then false else fd_isset j m)
unfolding clear_all points_to
isset-clear_all j [] m h = refl
isset-clear_all j (b ∷ bs) m h =
    isset-clear_all j bs _ (InMap-eq bs m _ (sym (length-cleared b m)) h.1)
    ∙ ground (arith, fd_isset-fd_clr b j m h.0)

-- The state with the pointers' blocks freed.
abbrev pub freed : List ℕ → State → State
freed bs s = record s { block_map = clear_all bs s.block_map }

return_blk_lem :
    (b : ℕ) (s : State)
    → b < 8 * length s.block_map
    → return_blk b s ≡ done tt (record s { block_map = fd_clr b s.block_map })
unfolding return_blk
return_blk_lem b s room = ground arith

return_entry_lem :
    (b : ℕ) (s : State)
    → b < 8 * length s.block_map
    → return_entry b s
      ≡ done tt (record s { block_map = if b == 0 then s.block_map else fd_clr b s.block_map })
unfolding return_entry
return_entry_lem b s room = ground (arith, return_blk_lem b s room)

pub return_all_lem :
    (bs : List ℕ) (s : State) → InMap s.block_map bs → return_all bs s ≡ done tt (freed bs s)
unfolding return_all clear_all
return_all_lem [] s h = refl
return_all_lem (b ∷ bs) s h =
    bind_done (return_entry b) (λ _. return_all bs) (return_entry_lem b s h.0)
    ∙ return_all_lem bs _ (InMap-eq bs _ _ (sym (length-cleared b s.block_map)) h.1)

-- The pointers held by block `b` of the disk.
abbrev pub pointers_at : State → ℕ → List ℕ
pointers_at s b = decode_ptrs (s.disk.content b)

pub indir1_lem :
    (b : ℕ) (s : State)
    → IsReady s.disk
    → b < s.disk.nblks
    → InMap s.block_map (pointers_at s b)
    → fs_truncate_indir1 b s ≡ done tt (freed (pointers_at s b) s)
unfolding fs_truncate_indir1
indir1_lem b s ready room h =
    bind_done (read_or_exit b 1) (λ block. return_all (decode_ptrs block)) (read_lem s b ready room)
    ∙ return_all_lem (pointers_at s b) s h

-- The data blocks behind a list of pointers to blocks of pointers.
unfoldable pub behind : (ℕ → List ℕ) → List ℕ → List ℕ
behind content [] = []
behind content (b ∷ bs) = (if b == 0 then [] else decode_ptrs (content b)) ++ behind content bs

pub clear_all-append :
    (xs ys : List ℕ) (m : Bitmap) → clear_all (xs ++ ys) m ≡ clear_all ys (clear_all xs m)
unfolding clear_all
clear_all-append [] ys m = refl
clear_all-append (x ∷ xs) ys m = clear_all-append xs ys _

pub All-split : (xs ys : List ℕ) (m : Bitmap) → InMap m (xs ++ ys) → InMap m xs × InMap m ys
All-split [] ys m h = (tt, h)
All-split (x ∷ xs) ys m h = let (a, b) = All-split xs ys m h.1 in ((h.0, a), b)

-- Blocks of the device.
abbrev pub InDisk : State → List ℕ → Type 0
InDisk s = All (λ b. b < s.disk.nblks)

truncate_entry_lem :
    (b : ℕ) (s : State)
    → IsReady s.disk
    → b < s.disk.nblks
    → InMap s.block_map (if b == 0 then [] else pointers_at s b)
    → truncate_entry b s ≡ done tt (freed (if b == 0 then [] else pointers_at s b) s)
unfolding truncate_entry clear_all
truncate_entry_lem b s ready room h = elim (Bool-cases (b == 0)) [
  | inl null ↦ rw null refl
  | inr real ↦ rw real (indir1_lem b s ready room (rw real at h))
]

pub freed_twice :
    (xs : List ℕ) (s : State) {ys zs : List ℕ}
    → ys ≡ zs
    → done tt (freed ys (freed xs s)) ≡ done tt (freed (xs ++ zs) s)
freed_twice xs s {ys} {zs} e =
    ap (λ l. done tt (freed l (freed xs s))) e
    ∙ ap (λ m. done tt (record s { block_map = m })) (sym (clear_all-append xs zs s.block_map))

truncate_each_lem :
    (bs : List ℕ) (s : State)
    → IsReady s.disk
    → InDisk s bs
    → InMap s.block_map (behind s.disk.content bs)
    → truncate_each bs s ≡ done tt (freed (behind s.disk.content bs) s)
unfolding truncate_each behind clear_all
truncate_each_lem [] s ready room h = refl
truncate_each_lem (b ∷ bs) s ready room h =
    let here = if b == 0 then [] else pointers_at s b in
    let (now, later) = All-split here (behind s.disk.content bs) s.block_map h in
    let rest : InMap (freed here s).block_map (behind s.disk.content bs) =
      InMap-eq _ _ _ (sym (length-clear_all here s.block_map)) later in
    bind_done (truncate_entry b) (λ _. truncate_each bs) (truncate_entry_lem b s ready room.0 now)
    ∙ truncate_each_lem bs (freed here s) ready room.1 rest
    ∙ freed_twice here s refl

-- The second-level blocks of pointers that block `b` names are not in what is freed.
pub indir2_lem :
    (b : ℕ) (s : State)
    → IsReady s.disk
    → b < s.disk.nblks
    → InDisk s (pointers_at s b)
    → InMap s.block_map (behind s.disk.content (pointers_at s b))
    → fs_truncate_indir2 b s ≡ done tt (freed (behind s.disk.content (pointers_at s b)) s)
unfolding fs_truncate_indir2
indir2_lem b s ready room inside h =
    bind_done (read_or_exit b 1) (λ block. truncate_each (decode_ptrs block))
      (read_lem s b ready room)
    ∙ truncate_each_lem (pointers_at s b) s ready inside h

-- What the `if` around a helper frees: the helper's blocks and then the pointer's own.
abbrev pub with_own : ℕ → List ℕ → List ℕ
with_own ptr bs = if ptr == 0 then [] else (bs ++ (ptr ∷ []))

abbrev freed_if : Bool → ℕ → State → State
freed_if b ptr s = record s { block_map = if b then s.block_map else fd_clr ptr s.block_map }

pub release_with_lem :
    (helper : ℕ → M (Unit {0})) (ptr : ℕ) (bs : List ℕ) (s : State)
    → (InMap s.block_map bs → helper ptr s ≡ done tt (freed bs s))
    → InMap s.block_map (with_own ptr bs)
    → release_with helper ptr s ≡ done tt (freed (with_own ptr bs) s)
unfolding clear_all release_with
release_with_lem helper ptr bs s ran h = elim (Bool-cases (ptr == 0)) [
  | inl null ↦ rw null refl
  | inr real ↦
      let (inner, own) = All-split bs (ptr ∷ []) s.block_map (rw real at h) in
      let cut : ptr < 8 * length (clear_all bs s.block_map) =
        omega (arith, own.0, length-clear_all bs s.block_map) in
      rw real (
        bind_done (helper ptr) (λ _. return_blk ptr) (ran inner)
        ∙ return_blk_lem ptr (freed bs s) cut
        ∙ ap (λ b. done tt (freed_if b ptr (freed bs s))) (sym real)
        ∙ freed_twice bs s refl)
]
