-- ===== src/Shell/Commands.antt =====
-- The commands of pmeunier-project/main.c: one do_ function each, on the words behind the command's
-- name. A command returns the working directory. Of what it prints, the listings are modelled.
pub mod Listing
use cs.Common.{
  ℕ, Bool, Option, none, some, List, [], ◌∷◌, ◌++◌, map, if◌then◌else◌, ◌⊎◌, inl, inr, bit_or,
}
use cs.Fs.Monad.{M, Errno, fail, pure, crash, ◌>>=◌, attempt, enoent, enotdir, eexist}
use cs.Fs.Dir.{Name}
use cs.Fs.Create.{Caller, fs_mknod, fs_mkdir, s_ifreg}
use cs.Fs.Remove.{fs_truncate, fs_unlink, fs_rmdir, fs_releasedir}
use cs.Fs.Rename.{fs_rename}
use cs.Fs.Attr.{Stat, StatVfs, fs_getattr, fs_opendir, fs_readdir, fs_chmod, fs_utime, fs_statfs}
use cs.Fs.Translate.{is_dir}
use cs.Shell.Mode.{strmode}
use cs.Shell.Paths.{full_path, split, string_at, is_slash, update_cwd}

-- What dashl_filler hands to sprintf: `st_mtime` stands for the text that ctime_r makes of it.
pub record Row : Type 0 where
  pub blocks : ℕ
  pub mode : List ℕ
  pub nlink : ℕ
  pub uid : ℕ
  pub gid : ℕ
  pub size : ℕ
  pub mtime : ℕ
  pub name : List ℕ

-- The host system: strtol with base 8, the time and the user, new memory, what the reads of a local
-- file return one after the other (`none` if it cannot be opened), whether a local file can be opened
-- for writing, how many of the bytes a write takes (`none` for an error), what qsort makes of lines with
-- strcmp, and the line that sprintf makes of a row.
pub record Host : Type 0 where
  pub strtol : List ℕ → ℕ
  pub caller : Caller
  pub fresh : ℕ → List ℕ
  pub open_input : List ℕ → Option (List (List ℕ))
  pub open_output : List ℕ → Bool
  pub write_output : ℕ → List ℕ → Option ℕ
  pub qsort : List (List ℕ) → List (List ℕ)
  pub sprint_row : Row → List ℕ

-- A path that does not fit, or whose names are copied over each other, is an undefined access.
unfoldable pub resolve : List ℕ → List ℕ → M (List ℕ)
resolve cwd path = elim (full_path cwd path) [ none ↦ crash | some p ↦ pure p ]

abbrev pub names_of : List ℕ → List (List ℕ)
names_of p = map (string_at (split p 0 is_slash).1) (split p 0 is_slash).0

abbrev pub change_to : List ℕ → Stat ⊎ Errno → M (List ℕ)
change_to p (inl st) = if is_dir st.st_mode then pure (update_cwd (names_of p)) else fail enotdir
change_to p (inr e) = fail enoent

unfoldable pub do_cd1 : Host → List ℕ → List ℕ → M (List ℕ)
do_cd1 host cwd a = do p ← resolve cwd a; got ← attempt (fs_getattr host.fresh p); change_to p got

unfoldable pub do_cd0 : Host → List ℕ → M (List ℕ)
do_cd0 host cwd = do_cd1 host cwd (b'/' ∷ [])

-- An error that a function returns after it has done something else.
abbrev pub or_fail : {A : Type 0} → A ⊎ Errno → M A
or_fail (inl a) = pure a
or_fail (inr e) = fail e

-- The lines in `lsbuf`, as the calls of a filler leave them: a name and a newline, or a row.
unfoldable pub filler : Name × Stat → List ℕ
filler (name, st) = name ++ (10 ∷ [])

unfoldable pub dashl_filler : Host → Name × Stat → List ℕ
dashl_filler host (name, st) = host.sprint_row (record {
  blocks = st.st_blocks;
  mode = strmode st.st_mode;
  nlink = st.st_nlink;
  uid = st.st_uid;
  gid = st.st_gid;
  size = st.st_size;
  mtime = st.st_mtime;
  name = name;
})

-- The loop of print_ls over the sorted lines.
unfoldable pub concat_lines : List (List ℕ) → List ℕ
concat_lines [] = []
concat_lines (l ∷ ls) = l ++ concat_lines ls

-- What print_ls prints.
unfoldable pub print_ls : Host → List (List ℕ) → List ℕ
print_ls host lines = concat_lines (host.qsort lines)

-- A command that lists returns what it prints.
unfoldable pub do_ls1 : Host → List ℕ → List ℕ → M (List ℕ)
do_ls1 host cwd a = do
  p ← resolve cwd a
  fh ← fs_opendir p
  got ← attempt (fs_readdir p)
  released ← attempt (fs_releasedir p (some 0))
  entries ← or_fail got
  pure (print_ls host (map filler entries))

unfoldable pub do_ls0 : Host → List ℕ → M (List ℕ)
do_ls0 host cwd = do_ls1 host cwd cwd

-- The working directory and a newline.
unfoldable pub do_pwd : List ℕ → M (List ℕ)
do_pwd cwd = pure (cwd ++ (10 ∷ []))

abbrev pub list_opened : List ℕ → ℕ ⊎ Errno → M (List (Name × Stat))
list_opened p (inl fh) = fs_readdir p
list_opened p (inr e) = fail e

unfoldable pub lsdashl : Host → List ℕ → List ℕ → M (List ℕ)
lsdashl host cwd path = do
  p ← resolve cwd path
  st ← fs_getattr host.fresh p
  if is_dir st.st_mode
      then (do
        opened ← attempt (fs_opendir p)
        got ← attempt (list_opened p opened)
        released ← attempt (fs_releasedir p (some 0))
        entries ← or_fail got
        pure (print_ls host (map (dashl_filler host) entries)))
      else pure (print_ls host (dashl_filler host (p, st) ∷ []))

unfoldable pub do_lsdashl1 : Host → List ℕ → List ℕ → M (List ℕ)
do_lsdashl1 host cwd a = do p ← resolve cwd a; lsdashl host cwd p

unfoldable pub do_lsdashl0 : Host → List ℕ → M (List ℕ)
do_lsdashl0 host cwd = do_lsdashl1 host cwd cwd

unfoldable pub do_chmod : Host → List ℕ → List ℕ → List ℕ → M (Unit {0})
do_chmod host cwd mode a = do p ← resolve cwd a; fs_chmod p (host.strtol mode)

unfoldable pub do_rename : List ℕ → List ℕ → List ℕ → M (Unit {0})
do_rename cwd a b = do p1 ← resolve cwd a; p2 ← resolve cwd b; fs_rename p1 p2

unfoldable pub do_mkdir : Host → List ℕ → List ℕ → M (Unit {0})
do_mkdir host cwd a = do p ← resolve cwd a; fs_mkdir host.caller p 0o777

unfoldable pub do_rmdir : List ℕ → List ℕ → M (Unit {0})
do_rmdir cwd a = do p ← resolve cwd a; fs_rmdir p

unfoldable pub do_rm : List ℕ → List ℕ → M (Unit {0})
do_rm cwd a = do p ← resolve cwd a; fs_unlink p

unfoldable pub do_truncate : List ℕ → List ℕ → M (Unit {0})
do_truncate cwd a = do p ← resolve cwd a; fs_truncate p 0

unfoldable pub do_utime : Host → List ℕ → List ℕ → M (Unit {0})
do_utime host cwd a = do p ← resolve cwd a; fs_utime p host.caller.now

abbrev pub or_touch : Host → List ℕ → (Unit {0}) ⊎ Errno → M (Unit {0})
or_touch host p (inl u) = pure u
or_touch host p (inr eexist) = fs_utime p host.caller.now
or_touch host p (inr e) = fail e

unfoldable pub do_touch : Host → List ℕ → List ℕ → M (Unit {0})
do_touch host cwd a = do
  p ← resolve cwd a
  made ← attempt (fs_mknod host.caller p (bit_or 0o777 s_ifreg))
  or_touch host p made

-- The path is used as it is entered.
unfoldable pub do_stat : Host → List ℕ → M Stat
do_stat host a = fs_getattr host.fresh a

unfoldable pub do_statfs : M StatVfs
do_statfs = fs_statfs
