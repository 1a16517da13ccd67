-- ===== src/Fs/Create/Attributes.antt =====
-- set_attributes_and_update of pmeunier-project/fs.c, where an entry and an inode are free: the inode
-- is marked, filled in and written, and the entry is added to the caller's array.
use cs.Common.{
  ℕ, ◌%◌, ◌^◌, ◌<◌, ◌≡◌, ◌∙◌, false, some, List, arith, length, length-set, length-fd_set, set,
  get_elem?,
}
use cs.Device.{Device}
use cs.Fs.Layout.{Dirent, Inode}
use cs.Fs.Monad.{State, M, done, pure, ◌>>=◌, ◌>>◌, attempt, inode_at, set_inode}
use cs.Fs.Monad.Laws.{bind_done}
use cs.Fs.Sound.{IsSound}
use cs.Fs.Inode.{set_inode_lem}
use cs.Fs.Directory.{inode_at_lem, attempt_done}
use cs.Fs.Dir.{Name, find_free_dir, add_entry}
use cs.Fs.Alloc.{get_free_inode, update_inode, update_blk}
use cs.Fs.Alloc.Laws.{taken_inode}
use cs.Fs.Alloc.Update.{Spares, update_inode_lem, update_blk_lem}
use cs.Fs.Create.{Caller, fresh_inode, set_attributes_and_update}

-- The state with inode `k` marked and holding `v`, before anything is written.
abbrev pub with_inode : ℕ → Inode → State → State
with_inode k v s = record (taken_inode k s) { inodes = set s.inodes k v }

pub with_inode-IsSound : (s : State) (k : ℕ) (v : Inode) → IsSound s → IsSound (with_inode k v s)
with_inode-IsSound s k v h = record {
  ready = h.ready;
  block_bits = h.block_bits;
  block_room = h.block_room;
  inode_bits = omega (arith, h.inode_bits, length-fd_set k s.inode_map);
  inode_numbers = omega (arith, h.inode_numbers, length-set s.inodes k v);
  inode_room = omega (arith, h.inode_room, length-set s.inodes k v);
  map_base = h.map_base;
  blocks_base = h.blocks_base;
  region_base = h.region_base;
  region_room = omega (arith, h.region_room, length-set s.inodes k v);
}

with_inode-Spares :
    (s : State) (k : ℕ) (v : Inode) {disk : Device} → Spares (with_inode k v s) disk → Spares s disk
with_inode-Spares s k v sp = record {
  ready = sp.ready;
  nblks = sp.nblks;
  same = λ b d. sp.same b (omega (arith, length-set s.inodes k v));
}

-- Filling the inode, writing it and the maps, and the entries as they are handed back.
abbrev fill : Caller → List Dirent → Name → ℕ → ℕ × ℕ × ℕ → M (List Dirent)
fill who es name mode (freed, freei, freeb) = do
  v ← inode_at freei
  set_inode freei (fresh_inode who mode freeb v)
  update_inode freei
  update_blk
  pure (add_entry freed name (freei % 2 ^ 30) es)

fill_lem :
    (who : Caller) (s : State) (es : List Dirent) (name : Name) (mode i k b : ℕ) {v : Inode}
    → IsSound s
    → k < length s.inodes
    → get_elem? s.inodes k ≡ some v
    → let t = with_inode k (fresh_inode who mode b v) s in
      (disk : Device) × (fill who es name mode (i, k, b) (taken_inode k s)
        ≡ done (add_entry i name (k % 2 ^ 30) es) (record t { disk = disk }))
      × Spares s disk
fill_lem who s es name mode i k b {v} h room at_k =
    let v' = fresh_inode who mode b v in
    let t = with_inode k v' s in
    let sound = with_inode-IsSound s k v' h in
    let (d1, w1, sp1) = update_inode_lem t k sound (omega (arith, length-set s.inodes k v')) in
    let (d2, w2, sp2) = update_blk_lem t d1 sound sp1 in
    (
      d2,
      run (inode_at_lem (taken_inode k s) k at_k) (set_inode_lem k v' (taken_inode k s) room) w1 w2,
      with_inode-Spares s k v' sp2,
    )
  where
    run :
        {d1 d2 : Device}
        → inode_at k (taken_inode k s) ≡ done v (taken_inode k s)
        → set_inode k (fresh_inode who mode b v) (taken_inode k s)
          ≡ done tt (with_inode k (fresh_inode who mode b v) s)
        → update_inode k (with_inode k (fresh_inode who mode b v) s)
          ≡ done tt (record (with_inode k (fresh_inode who mode b v) s) { disk = d1 })
        → update_blk (record (with_inode k (fresh_inode who mode b v) s) { disk = d1 })
          ≡ done tt (record (with_inode k (fresh_inode who mode b v) s) { disk = d2 })
        → fill who es name mode (i, k, b) (taken_inode k s)
          ≡ done
              (add_entry i name (k % 2 ^ 30) es)
              (record (with_inode k (fresh_inode who mode b v) s) { disk = d2 })
    run e1 e2 e3 e4 = ground arith

-- A free entry and a free inode for a new file: what `set_attributes_and_update` finds.
pub record HasRoom (s : State) (es : List Dirent) (i k : ℕ) (v : Inode) : Type 0 where
  pub entry : find_free_dir es ≡ some i
  pub inode : get_free_inode s ≡ done k (taken_inode k s)
  pub inside : k < length s.inodes
  pub held : get_elem? s.inodes k ≡ some v

pub set_attributes_lem :
    (who : Caller) (s : State) (es : List Dirent) (name : Name) (mode : ℕ) {i k : ℕ} {v : Inode}
    → IsSound s
    → HasRoom s es i k v
    → let t = with_inode k (fresh_inode who mode 0 v) s in
      (disk : Device) × (set_attributes_and_update who es name mode false s
        ≡ done (add_entry i name (k % 2 ^ 30) es) (record t { disk = disk }))
      × Spares s disk
unfolding set_attributes_and_update
set_attributes_lem who s es name mode {i} {k} {v} h room =
    let (d, ran, sp) = fill_lem who s es name mode i k 0 h room.inside room.held in
    (d, go d room.entry room.inode ran, sp)
  where
    go :
        (d : Device)
        → find_free_dir es ≡ some i
        → get_free_inode s ≡ done k (taken_inode k s)
        → fill who es name mode (i, k, 0) (taken_inode k s)
          ≡ done
              (add_entry i name (k % 2 ^ 30) es)
              (record (with_inode k (fresh_inode who mode 0 v) s) { disk = d })
        → set_attributes_and_update who es name mode false s
          ≡ done
              (add_entry i name (k % 2 ^ 30) es)
              (record (with_inode k (fresh_inode who mode 0 v) s) { disk = d })
    go d e1 e2 e3 =
        rw e1 (bind_done (attempt get_free_inode) _ (attempt_done get_free_inode e2) ∙ e3)
