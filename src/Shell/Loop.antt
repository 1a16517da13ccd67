-- ===== src/Shell/Loop.antt =====
-- The table of commands of pmeunier-project/main.c and its loop over the lines that are entered.
pub mod Laws
use cs.Common.{
  ℕ, suc, ◌+◌, Bool, true, false, ◌&&◌, ◌||◌, Option, none, some, List, [], ◌∷◌, map, length, ◌==◌,
  if◌then◌else◌, ◌⊎◌, inl, inr,
}
use cs.Fs.Monad.{M, Errno, pure, crash, ◌>>=◌, ◌>>◌, attempt}
use cs.Fs.Dir.{str_eq}
use cs.Shell.Paths.{split, string_at}
use cs.Shell.Commands.{
  Host, do_cd0, do_cd1, do_pwd, do_ls0, do_ls1, do_lsdashl0, do_lsdashl1, do_chmod, do_rename,
  do_mkdir, do_rmdir, do_rm, do_truncate, do_utime, do_touch, do_stat, do_statfs,
}
use cs.Shell.Copy.{Copied, unfinished, copied, do_put, do_put1, do_get, do_get1, do_show}

-- The functions of the table.
pub data Function : Type 0 where
  cd0 cd1 pwd ls0 ls1 lsdashl0 lsdashl1 chmod rename mkdir rmdir rm put put1 get get1 show statfs
        truncate utime touch stat :
      Function

pub record Command : Type 0 where
  pub name : List ℕ
  pub nargs : ℕ
  pub f : Function

abbrev pub command : List ℕ → ℕ → Function → Command
command name nargs f = record { name = name; nargs = nargs; f = f }

unfoldable pub cmds : List Command
cmds =
    command (b'c' ∷ b'd' ∷ []) 0 cd0
    ∷ command (b'c' ∷ b'd' ∷ []) 1 cd1
    ∷ command (b'p' ∷ b'w' ∷ b'd' ∷ []) 0 pwd
    ∷ command (b'l' ∷ b's' ∷ []) 0 ls0
    ∷ command (b'l' ∷ b's' ∷ []) 1 ls1
    ∷ command (b'l' ∷ b's' ∷ b'-' ∷ b'l' ∷ []) 0 lsdashl0
    ∷ command (b'l' ∷ b's' ∷ b'-' ∷ b'l' ∷ []) 1 lsdashl1
    ∷ command (b'c' ∷ b'h' ∷ b'm' ∷ b'o' ∷ b'd' ∷ []) 2 chmod
    ∷ command (b'r' ∷ b'e' ∷ b'n' ∷ b'a' ∷ b'm' ∷ b'e' ∷ []) 2 rename
    ∷ command (b'm' ∷ b'k' ∷ b'd' ∷ b'i' ∷ b'r' ∷ []) 1 mkdir
    ∷ command (b'r' ∷ b'm' ∷ b'd' ∷ b'i' ∷ b'r' ∷ []) 1 rmdir
    ∷ command (b'r' ∷ b'm' ∷ []) 1 rm
    ∷ command (b'p' ∷ b'u' ∷ b't' ∷ []) 2 put
    ∷ command (b'p' ∷ b'u' ∷ b't' ∷ []) 1 put1
    ∷ command (b'g' ∷ b'e' ∷ b't' ∷ []) 2 get
    ∷ command (b'g' ∷ b'e' ∷ b't' ∷ []) 1 get1
    ∷ command (b's' ∷ b'h' ∷ b'o' ∷ b'w' ∷ []) 1 show
    ∷ command (b's' ∷ b't' ∷ b'a' ∷ b't' ∷ b'f' ∷ b's' ∷ []) 0 statfs
    ∷ command (b't' ∷ b'r' ∷ b'u' ∷ b'n' ∷ b'c' ∷ b'a' ∷ b't' ∷ b'e' ∷ []) 1 truncate
    ∷ command (b'u' ∷ b't' ∷ b'i' ∷ b'm' ∷ b'e' ∷ []) 1 utime
    ∷ command (b't' ∷ b'o' ∷ b'u' ∷ b'c' ∷ b'h' ∷ []) 1 touch
    ∷ command (b's' ∷ b't' ∷ b'a' ∷ b't' ∷ []) 1 stat
    ∷ []

-- The first entry with the name and the number of arguments.
unfoldable pub matches : List ℕ → ℕ → Command → Bool
matches word nargs c = str_eq word c.name && nargs == c.nargs + 1

unfoldable pub find_command : List ℕ → ℕ → List Command → Option Command
find_command word nargs [] = none
find_command word nargs (c ∷ cs) =
    if matches word nargs c then some c else find_command word nargs cs

-- The working directory and the block buffer.
pub record Session : Type 0 where
  pub cwd : List ℕ
  pub buf : List ℕ

-- A command's result: the session, and whether it ended without an error.
abbrev pub Result : Type 0
Result = Session × Bool

abbrev pub moving : Session → M (List ℕ) → M Result
moving c m = do to ← m; pure (record c { cwd = to }, true)

abbrev pub staying : {A : Type 0} → Session → M A → M Result
staying c m = do a ← m; pure (c, true)

abbrev pub is_result : ℕ ⊎ Errno → Bool
is_result (inl n) = true
is_result (inr e) = false

abbrev pub putting : Session → M (List ℕ × (ℕ ⊎ Errno)) → M Result
putting c m = do (buf, val) ← m; pure (record c { buf = buf }, is_result val)

-- A loop that goes on for longer than its rounds keeps the lines behind it from being run.
abbrev pub ended : Session → Copied → M Result
ended c unfinished = crash
ended c (copied well buf out) = pure (record c { buf = buf }, well)

abbrev pub copying : Session → M Copied → M Result
copying c m = do a ← m; ended c a

-- `cmds[i].f(&args[1])`, with `rounds` for the loops that read. The arguments are as many as the table
-- says.
unfoldable pub call : Host → ℕ → Function → List (List ℕ) → Session → M Result
call host rounds cd0 [] c = moving c (do_cd0 host c.cwd)
call host rounds cd1 (x ∷ []) c = moving c (do_cd1 host c.cwd x)
call host rounds pwd [] c = staying c (do_pwd c.cwd)
call host rounds ls0 [] c = staying c (do_ls0 host c.cwd)
call host rounds ls1 (x ∷ []) c = staying c (do_ls1 host c.cwd x)
call host rounds lsdashl0 [] c = staying c (do_lsdashl0 host c.cwd)
call host rounds lsdashl1 (x ∷ []) c = staying c (do_lsdashl1 host c.cwd x)
call host rounds chmod (x ∷ y ∷ []) c = staying c (do_chmod host c.cwd x y)
call host rounds rename (x ∷ y ∷ []) c = staying c (do_rename c.cwd x y)
call host rounds mkdir (x ∷ []) c = staying c (do_mkdir host c.cwd x)
call host rounds rmdir (x ∷ []) c = staying c (do_rmdir c.cwd x)
call host rounds rm (x ∷ []) c = staying c (do_rm c.cwd x)
call host rounds put (x ∷ y ∷ []) c = putting c (do_put host c.buf c.cwd x y)
call host rounds put1 (x ∷ []) c = putting c (do_put1 host c.buf c.cwd x)
call host rounds get (x ∷ y ∷ []) c = copying c (do_get host rounds c.buf c.cwd x y)
call host rounds get1 (x ∷ []) c = copying c (do_get1 host rounds c.buf c.cwd x)
call host rounds show (x ∷ []) c = copying c (do_show rounds c.buf c.cwd x)
call host rounds statfs [] c = staying c do_statfs
call host rounds truncate (x ∷ []) c = staying c (do_truncate c.cwd x)
call host rounds utime (x ∷ []) c = staying c (do_utime host c.cwd x)
call host rounds touch (x ∷ []) c = staying c (do_touch host c.cwd x)
call host rounds stat (x ∷ []) c = staying c (do_stat host x)
call host rounds f args c = crash

-- After a command: an error is printed, and the loop goes on.
abbrev pub go_on : (Session → M Session) → Session → Result ⊎ Errno → M Session
go_on rest c (inl (c', well)) = rest c'
go_on rest c (inr e) = rest c

abbrev pub blank : ℕ → Bool
blank c = c == b' ' || c == 9 || c == 13 || c == 10

abbrev pub is_quit : List ℕ → Bool
is_quit w = str_eq w (b'q' ∷ b'u' ∷ b'i' ∷ b't' ∷ []) || str_eq w (b'e' ∷ b'x' ∷ b'i' ∷ b't' ∷ [])

abbrev pub is_help : List ℕ → Bool
is_help w = str_eq w (b'h' ∷ b'e' ∷ b'l' ∷ b'p' ∷ []) || str_eq w (b'?' ∷ [])

abbrev pub run_found :
    Host → ℕ → List (List ℕ) → (Session → M Session) → Session → Option Command → M Session
run_found host rounds args rest c none = rest c
run_found host rounds args rest c (some entry) = do
  got ← attempt (call host rounds entry.f args c)
  go_on rest c got

-- What a line's words do, `rest` being the loop over the other lines.
unfoldable pub run_words : Host → ℕ → List (List ℕ) → (Session → M Session) → Session → M Session
run_words host rounds [] rest c = rest c
run_words host rounds (w ∷ args) rest c =
    if is_quit w
    then pure c
    else if is_help w
    then rest c
    else run_found host rounds args rest c (find_command w (length (w ∷ args)) cmds)

abbrev pub words : List ℕ → List (List ℕ)
words line = map (string_at (split line 10 blank).1) (split line 10 blank).0

abbrev pub is_comment : List ℕ → Bool
is_comment [] = false
is_comment (c ∷ cs) = c == b'#'

unfoldable pub run_line : Host → ℕ → List ℕ → (Session → M Session) → Session → M Session
run_line host rounds line rest c =
    if is_comment line then rest c else run_words host rounds (words line) rest c

unfoldable pub cmdloop : Host → ℕ → List (List ℕ) → Session → M Session
cmdloop host rounds [] c = pure c
cmdloop host rounds (line ∷ lines) c = run_line host rounds line (cmdloop host rounds lines) c
