-- ===== src/Shell/Copy/Show.antt =====
-- What do_show of pmeunier-project/main.c prints of a file in its direct blocks.
use cs.Common.{
  ℕ, zero, suc, subst, ◌+◌, ◌-◌, ◌*◌, ◌/◌, ◌^◌, ◌≤◌, ◌<◌, ◌≡◌, ◌≢◌, refl, sym, ap, ◌∙◌, true, false,
  List, [], ◌∷◌, ◌++◌, some, arith, length, take, drop, get_elem?, append-nil, append_assoc,
  take-append_le, take_all, drop-drop, drop_all,
}
use cs.Device.{block_size}
use cs.Device.Laws.{IsReady}
use cs.Fs.Layout.{Inode}
use cs.Fs.Monad.{State, done, attempt}
use cs.Fs.Monad.Laws.{bind_done, attempt_done}
use cs.Fs.Directory.{inode_at_lem}
use cs.Fs.Translate.{is_dir, translate}
use cs.Fs.Read.{fs_read, dir_size}
use cs.Fs.Read.Laws.{Direct, contents, fs_read_lem}
use cs.Fs.Attr.{fs_open, fs_release}
use cs.Shell.Commands.{resolve}
use cs.Shell.Commands.Listing.{resolved}
use cs.Shell.Paths.{full_path}
use cs.Shell.Copy.{copied, refreshed, show_loop, do_show}

-- The block buffer once the blocks of a list have been read one after the other.
unfoldable pub buffer_after : (ℕ → List ℕ) → List ℕ → List ℕ → List ℕ
buffer_after content buf [] = buf
buffer_after content buf (p ∷ ps) = buffer_after content (content p) ps

next_Direct :
    (s : State) (v : Inode) (k p : ℕ) (used : List ℕ)
    → Direct s v k (p ∷ used)
    → Direct s v (suc k) used
unfolding drop
next_Direct s v k p used d = record {
  rest = d.rest;
  split = sym (drop-drop 1 k (suc k) v.direct (omega arith)) ∙ ap (drop 1) d.split;
  data_blocks = d.data_blocks.1;
}

first_block : (xs ys : List ℕ) → length xs ≡ block_size → take block_size (xs ++ ys) ≡ xs
first_block xs ys h = take-append_le block_size xs ys (omega arith) ∙ take_all xs block_size h

refreshed_all : (buf bytes : List ℕ) → length buf ≡ length bytes → refreshed buf bytes ≡ bytes
refreshed_all buf bytes h = ap (λ r. bytes ++ r) (drop_all buf (length bytes) h) ∙ append-nil bytes

regroup : (a b c d : List ℕ) → (a ++ b) ++ (c ++ d) ≡ a ++ ((b ++ c) ++ d)
regroup a b c d = append_assoc a b (c ++ d) ∙ ap (λ r. a ++ r) (sym (append_assoc b c d))

module _ (s : State) (path : List ℕ) (ready : IsReady s.disk) {inum : ℕ} {v : Inode}
    (found : translate path s ≡ done inum s) (held : get_elem? s.inodes inum ≡ some v)
    (file : is_dir v.mode ≡ false) (sized : v.size < 2 ^ 31) where
  -- A read over the end of the file reports what is left of it and copies nothing.
  read_tail :
      (offset : ℕ)
      → offset ≤ v.size
      → v.size < offset + block_size
      → fs_read path block_size offset s ≡ done (v.size - offset, []) s
  unfolding fs_read
  read_tail offset inside over = ground (arith, found, file, inode_at_lem s inum held)

  -- A round of the loop, and its end.
  show_more :
      (r offset n : ℕ) (buf out bytes : List ℕ)
      → fs_read path block_size offset s ≡ done (n, bytes) s
      → n ≢ 0
      → show_loop path (suc r) offset buf out s
        ≡ show_loop path r
            (offset + n)
            (refreshed buf bytes)
            (out ++ take n (refreshed buf bytes))
            s
  unfolding show_loop
  show_more r offset n buf out bytes e more = ground (arith, e)

  show_end :
      (r offset n : ℕ) (buf out bytes : List ℕ)
      → fs_read path block_size offset s ≡ done (n, bytes) s
      → n ≡ 0
      → show_loop path (suc r) offset buf out s ≡ done (copied true (refreshed buf bytes) out) s
  unfolding show_loop
  show_end r offset n buf out bytes e last = ground (arith, e)

  -- The end of the file: t bytes of the buffer are printed again.
  show_tail :
      (r offset t : ℕ) (buf out : List ℕ)
      → v.size ≡ offset + t
      → t < block_size
      → show_loop path (suc (suc r)) offset buf out s ≡ done (copied true buf (out ++ take t buf)) s
  unfolding drop take
  show_tail r offset zero buf out size few =
      show_end (suc r) offset (v.size - offset) buf out []
        (read_tail offset (omega arith) (omega arith)) (omega arith)
      ∙ ap (λ o. done (copied true buf o) s) (sym (append-nil out))
  show_tail r offset (suc t) buf out size few =
      let e : v.size - offset ≡ suc t = omega arith in
      show_more (suc r) offset (v.size - offset) buf out []
        (read_tail offset (omega arith) (omega arith)) (omega arith)
      ∙ show_end r (offset + (v.size - offset)) _ buf _ []
          (read_tail (offset + (v.size - offset)) (omega arith) (omega arith)) (omega arith)
      ∙ ap (λ n. done (copied true buf (out ++ take n buf)) s) e

  -- The blocks from one on, and the end of the file.
  show_blocks :
      (rounds offset k t : ℕ) (used buf out : List ℕ)
      → Direct s v k used
      → offset ≡ block_size * k
      → v.size ≡ offset + block_size * length used + t
      → t < block_size
      → offset + block_size * length used ≤ dir_size
      → length buf ≡ block_size
      → length used + 2 ≤ rounds
      → show_loop path rounds offset buf out s
        ≡ done
            (copied true (buffer_after s.disk.content buf used) (
              out
              ++ (contents s.disk.content used ++ take t (buffer_after s.disk.content buf used))))
            s
  unfolding buffer_after contents
  show_blocks zero offset k t used buf out d at size few below whole more = absurd (omega arith)
  show_blocks (suc zero) offset k t [] buf out d at size few below whole more = absurd (omega arith)
  show_blocks (suc (suc r)) offset k t [] buf out d at size few below whole more =
      show_tail r offset t buf out (omega arith) few
  show_blocks (suc r) offset k t (p ∷ used) buf out d at size few below whole more =
      let sized_p = d.data_blocks.0.whole in
      let bytes = s.disk.content p in
      let aligned : Direct s v (offset / block_size) (p ∷ used) =
        subst (λ i. Direct s v i (p ∷ used)) (omega arith) d in
      let e : fs_read path block_size offset s ≡ done (block_size, bytes) s =
        fs_read_lem s path ready found held file sized offset block_size (p ∷ used) aligned
          (omega arith) (omega arith) (omega arith) (omega arith)
        ∙ ap (λ b. done (block_size, b) s)
            (first_block bytes (contents s.disk.content used) sized_p) in
      show_more r offset block_size buf out bytes e (omega arith)
      ∙ ap (λ b. show_loop path r (offset + block_size) b (out ++ take block_size b) s)
          (refreshed_all buf bytes (omega arith))
      ∙ ap (λ b. show_loop path r (offset + block_size) bytes (out ++ b) s)
          (take_all bytes block_size sized_p)
      ∙ show_blocks r (offset + block_size) (suc k) t used bytes (out ++ bytes)
          (next_Direct s v k p used d) (omega arith) (omega arith) few (omega arith) sized_p
          (omega arith)
      ∙ ap (λ o. done (copied true (buffer_after s.disk.content bytes used) o) s)
          (regroup out bytes (contents s.disk.content used)
            (take t (buffer_after s.disk.content bytes used)))

  -- A path entered that stands for the file's: do_show opens the file, loops and releases it.
  opened : fs_open path s ≡ done inum s
  unfolding fs_open
  opened = ground (arith, found, file, inode_at_lem s inum held)

  closed : fs_release path s ≡ done (2 ^ 64 - 1) s
  unfolding fs_release
  closed = ground (arith, found, file, inode_at_lem s inum held)

  -- On a device that answers, for a path that stands for a file with a size below 2^31, whose
  -- blocks are direct and hold data, k whole ones and t bytes of a last one, and with a block
  -- buffer of a block's size: do_show ends without an error if its loop is given k + 2 rounds or
  -- more, and prints the whole blocks and then, in place of the last t bytes of the file, the
  -- first t bytes of the block before them, or of what the buffer held where there is no whole
  -- block.
  pub do_show_lem :
      (rounds t : ℕ) (used buf cwd a : List ℕ)
      → full_path cwd a ≡ some path
      → Direct s v 0 used
      → v.size ≡ block_size * length used + t
      → t < block_size
      → block_size * length used ≤ dir_size
      → length buf ≡ block_size
      → length used + 2 ≤ rounds
      → do_show rounds buf cwd a s
        ≡ done
            (copied true
              (buffer_after s.disk.content buf used)
              (contents s.disk.content used ++ take t (buffer_after s.disk.content buf used)))
            s
  unfolding do_show
  do_show_lem rounds t used buf cwd a named d size few below whole more =
      let shows =
        show_blocks rounds 0 0 t used buf [] d refl (omega arith) few (omega arith) whole more in
      bind_done (resolve cwd a) _ (resolved s cwd a path named)
      ∙ bind_done (fs_open path) _ opened
      ∙ bind_done (show_loop path rounds 0 buf []) _ shows
      ∙ bind_done (attempt (fs_release path)) _ (attempt_done (fs_release path) closed)
