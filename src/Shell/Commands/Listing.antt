-- ===== src/Shell/Commands/Listing.antt =====
-- What fs_readdir of pmeunier-project/fs.c and the command ls of pmeunier-project/main.c list.
use cs.Common.{
  ℕ, zero, suc, ◌<◌, ◌≡◌, refl, ◌∙◌, true, some, inl, inr, List, [], ◌∷◌, ◌++◌, map, ap, length,
  get_or, get_elem?, arith, Bool-cases, if◌then◌else◌, ◌^◌, ◌-◌,
}
use cs.Device.Laws.{IsReady}
use cs.Fs.Layout.{Dirent, Inode, blank_inode}
use cs.Fs.Layout.Codec.{All}
use cs.Fs.Monad.{State, done, inode_at, elem_at, read_or_exit, attempt}
use cs.Fs.Monad.Laws.{bind_done, attempt_done}
use cs.Fs.Dir.{Name, cstr}
use cs.Fs.Directory.{IsDirectory, entries_at, elem_at_lem, inode_at_lem, read_lem}
use cs.Fs.Remove.{fs_releasedir}
use cs.Fs.Translate.{translate}
use cs.Fs.Attr.{Stat, cpy_stat, fill_entries, fs_opendir, fs_readdir}
use cs.Shell.Paths.{full_path}
use cs.Shell.Commands.{Host, resolve, filler, concat_lines, print_ls, do_ls1}

-- The valid entries of a directory with the attributes of their inodes, in order.
pub listed : List Inode → List Dirent → List (Name × Stat)
listed inodes [] = []
listed inodes (d ∷ ds) =
    let rest = listed inodes ds in
    if d.valid then (cstr d.name, cpy_stat (get_or inodes d.inode blank_inode)) ∷ rest else rest

-- A line for the name of each valid entry, in order.
unfoldable pub name_lines : List Dirent → List (List ℕ)
name_lines [] = []
name_lines (d ∷ ds) =
    if d.valid then (cstr d.name ++ (b'\n' ∷ [])) ∷ name_lines ds else name_lines ds

-- Lines printed one after the other.
unfoldable pub printed_lines : List (List ℕ) → List ℕ
printed_lines [] = []
printed_lines (l ∷ ls) = l ++ printed_lines ls

-- A valid entry leads to an inode of the array.
unfoldable pub Leads : List Inode → Dirent → Type 0
Leads inodes d = d.valid ≡ true → d.inode < length inodes

inside_get :
    (xs : List Inode) (i : ℕ) → i < length xs → get_elem? xs i ≡ some (get_or xs i blank_inode)
inside_get [] i h = absurd (omega arith)
inside_get (x ∷ xs) zero h = refl
inside_get (x ∷ xs) (suc i) h = inside_get xs i (omega arith)

fill_entries_lem :
    (s : State) (ds : List Dirent)
    → All (Leads s.inodes) ds
    → fill_entries ds s ≡ done (listed s.inodes ds) s
unfolding fill_entries listed Leads
fill_entries_lem s [] h = refl
fill_entries_lem s (d ∷ ds) h = elim (Bool-cases d.valid) [
  | inl valid ↦ rw valid (
      bind_done (inode_at d.inode) _
        (inode_at_lem s d.inode (inside_get s.inodes d.inode (h.0 valid)))
      ∙ bind_done (fill_entries ds) _ (fill_entries_lem s ds h.1))
  | inr free ↦ rw free (fill_entries_lem s ds h.1)
]

filled_lines :
    (inodes : List Inode) (ds : List Dirent) → map filler (listed inodes ds) ≡ name_lines ds
unfolding listed filler name_lines
filled_lines inodes [] = refl
filled_lines inodes (d ∷ ds) = elim (Bool-cases d.valid) [
  | inl valid ↦ rw (valid, filled_lines inodes ds) refl
  | inr free ↦ rw free (filled_lines inodes ds)
]

concat_lines_lem : (lines : List (List ℕ)) → concat_lines lines ≡ printed_lines lines
unfolding concat_lines printed_lines
concat_lines_lem [] = refl
concat_lines_lem (l ∷ ls) = ap (λ t. l ++ t) (concat_lines_lem ls)

print_ls_lem :
    (host : Host) (lines : List (List ℕ)) → print_ls host lines ≡ printed_lines (host.qsort lines)
unfolding print_ls
print_ls_lem host lines = concat_lines_lem (host.qsort lines)

-- A path that fits and whose names are not copied over each other.
pub resolved :
    (s : State) (cwd a path : List ℕ) → full_path cwd a ≡ some path → resolve cwd a s ≡ done path s
unfolding resolve
resolved s cwd a path named = ground (arith, named)

module _ (s : State) (path : List ℕ) (ready : IsReady s.disk) {d b : ℕ} {p : Inode}
    (found : translate path s ≡ done d s) (dir : IsDirectory s d b p)
    (leads : All (Leads s.inodes) (entries_at s b)) where
  fs_readdir_lem : fs_readdir path s ≡ done (listed s.inodes (entries_at s b)) s
  unfolding fs_readdir
  fs_readdir_lem =
      bind_done (translate path) _ found
      ∙ bind_done (inode_at d) _ (inode_at_lem s d dir.held)
      ∙ rw dir.typed (
          bind_done (elem_at p.direct 0) _ (elem_at_lem p.direct 0 s dir.first)
          ∙ bind_done (read_or_exit b 1) _ (read_lem s b ready dir.inside)
          ∙ fill_entries_lem s (entries_at s b) leads)

  opened : fs_opendir path s ≡ done d s
  unfolding fs_opendir
  opened = ground (arith, found, dir.typed, inode_at_lem s d dir.held)

  closed : fs_releasedir path (some 0) s ≡ done (2 ^ 64 - 1) s
  unfolding fs_releasedir
  closed = ground (arith, found, dir.typed, inode_at_lem s d dir.held)

  -- On a device that answers, for a path that stands for a directory whose valid entries lead to inodes:
  -- ls changes nothing and prints, one after the other, the lines that qsort makes of the lines of
  -- the valid entries, each of which is the name up to its NUL and a newline.
  pub do_ls1_lem :
      (host : Host) (cwd a : List ℕ)
      → full_path cwd a ≡ some path
      → do_ls1 host cwd a s ≡ done (printed_lines (host.qsort (name_lines (entries_at s b)))) s
  unfolding do_ls1
  do_ls1_lem host cwd a named =
      let printed = print_ls_lem host (name_lines (entries_at s b)) in
      let lines = filled_lines s.inodes (entries_at s b) in
      rw (← printed, ← lines)
        (bind_done (resolve cwd a) _ (resolved s cwd a path named)
          ∙ bind_done (fs_opendir path) _ opened
          ∙ bind_done (attempt (fs_readdir path)) _ (attempt_done (fs_readdir path) fs_readdir_lem)
          ∙ bind_done (attempt (fs_releasedir path (some 0))) _
              (attempt_done (fs_releasedir path (some 0)) closed))
