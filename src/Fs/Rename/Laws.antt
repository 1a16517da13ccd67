-- ===== src/Fs/Rename/Laws.antt =====
-- What fs_rename of pmeunier-project/fs.c leaves behind.
use cs.Common.{ℕ, ◌≡◌, refl, ◌≢◌, ◌∙◌, sym, ap, some, List, arith}
use cs.Fs.Layout.{Dirent, Inode, encode_dir}
use cs.Fs.Monad.{State, Errno, done, fail, enoent}
use cs.Fs.Sound.{IsSound}
use cs.Fs.Dir.{Name, find_in_dir, rename_named}
use cs.Fs.Dir.Laws.{IsName, Absent-of_find, str_eq_refl, str_eq_ne}
use cs.Fs.Dir.Edits.{find-rename_new, find-rename_ne, rename_named-fits}
use cs.Fs.Alloc.Laws.{write_lem}
use cs.Fs.Directory.{
  IsDirectory, IsTidy, entries_at, read_lem, elem_at_lem, inode_at_lem, lookup_found,
  lookup_missing, unused_leaf, found_leaf, entries_at_written, length-entries_at, rewritten,
  rewritten-IsReady, rewritten-IsDirectory,
}
use cs.Fs.Translate.{lookup, translate, translate_1}
use cs.Fs.Rename.{fs_rename, same_parent}

module _ (s : State) (src dst : List ℕ) (h : IsSound s) {inum parent b : ℕ} {e : Errno}
    {old new : Name} {p : Inode} (found : translate src s ≡ done inum s)
    (missing : translate dst s ≡ fail e s)
    (above_src : translate_1 src s ≡ done (parent, some old) s)
    (above_dst : translate_1 dst s ≡ done (parent, some new) s) (dir : IsDirectory s parent b p)
    (tidy : IsTidy (entries_at s b)) (name : IsName new) where
  abbrev renamed : List Dirent
  renamed = rename_named old new (entries_at s b)

  rename_runs : fs_rename src dst s ≡ done tt (rewritten s b renamed)
  unfolding fs_rename same_parent
  rename_runs = ground (
    arith,
    found,
    missing,
    above_src,
    above_dst,
    dir.typed,
    inode_at_lem s parent dir.held,
    elem_at_lem p.direct 0 s dir.first,
    read_lem s b h.ready dir.inside,
    write_lem s b (encode_dir renamed) h.ready dir.inside,
  )

  entries_renamed : entries_at (rewritten s b renamed) b ≡ renamed
  entries_renamed =
      let (fits, sized) = rename_named-fits old new (entries_at s b) name tidy.fits in
      entries_at_written s.disk b renamed fits (sized ∙ length-entries_at s b)

  -- Renaming a path that is found to one that is not, in the same directory of a sound state,
  -- succeeds: the new name is looked up as the old one was, the old one no longer, any other name
  -- leads where it did, and no inode changes.
  pub rename-lookup :
      (other : Name)
      → old ≢ other
      → new ≢ other
      → (t : State) × (fs_rename src dst s ≡ done tt t)
        × (lookup parent new t ≡ done inum t)
        × (lookup parent old t ≡ fail enoent t)
        × (find_in_dir (entries_at t b) other ≡ find_in_dir (entries_at s b) other)
        × (t.inodes ≡ s.inodes)
  rename-lookup other ne_old ne_new =
      let es = entries_at s b in
      let t = rewritten s b renamed in
      let unused = unused_leaf s dst h.ready missing above_dst dir in
      let (leads, real) = found_leaf s src h.ready found above_src dir in
      let ready = rewritten-IsReady s b renamed h.ready in
      let place = rewritten-IsDirectory s b renamed dir in
      let differ : new ≢ old = λ eq. real (sym leads ∙ ap (find_in_dir es) (sym eq) ∙ unused) in
      let at_entries : (n : Name) → find_in_dir (entries_at t b) n ≡ find_in_dir renamed n =
        λ n. ap (λ l. find_in_dir l n) entries_renamed in
      (
        t,
        rename_runs,
        lookup_found t parent b inum new ready place
            (at_entries new
              ∙ find-rename_new old new es name (Absent-of_find new es tidy.no_zero unused)
              ∙ leads)
            real,
        lookup_missing t parent b old ready place (
            at_entries old ∙ find-rename_ne old new old es name differ ∙ rw (str_eq_refl old) refl),
        at_entries other
            ∙ find-rename_ne old new other es name ne_new
            ∙ rw (str_eq_ne old other ne_old) refl,
        refl,
      )
