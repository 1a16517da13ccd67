-- ===== src/Shell/Main.antt =====
-- The start of pmeunier-project/main.c: fixup, the checks of the options, and the two ways to run.
use cs.Common.{
  ℕ, ◌-◌, Bool, true, false, ◌&&◌, Option, none, some, List, [], ◌∷◌, length, take, drop, get_or,
  ltb, ◌==◌, if◌then◌else◌,
}
use cs.Device.{Device, image_create, block_size}
use cs.Device as Device
use cs.Fs.Monad.{State, Outcome, done, fail, halt, Halt, undefined_access}
use cs.Fs.Dir.{str_eq}
use cs.Fs.Attr.{fs_init}
use cs.Shell.Commands.{Host}
use cs.Shell.Paths.{update_cwd}
use cs.Shell.Loop.{Session, cmdloop}

-- An argument without the quotes around it. Of a single quote, what is left starts behind its NUL.
unfoldable pub unquoted : List ℕ → Option (List ℕ)
unquoted [] = some []
unquoted (c ∷ cs) =
    if c == 39 && get_or (c ∷ cs) (length cs) 0 == 39
    then (if length cs == 0 then none else some (take (length cs - 1) cs))
    else some (c ∷ cs)

unfoldable pub fixup : List (List ℕ) → Option (List (List ℕ))
fixup [] = some []
fixup (a ∷ as') = elim (unquoted a) [
  | none ↦ none
  | some u ↦ elim (fixup as') [ none ↦ none | some us ↦ some (u ∷ us) ]
]

-- `struct data`, as fuse_opt_parse fills it.
pub record Options : Type 0 where
  pub image_name : Option (List ℕ)
  pub cmd_mode : Bool

-- libfuse: its parser of options (`none` for -1) and what fuse_main returns for the device. `image` is
-- what the system gives for the file's name.
pub record Fuse : Type 0 where
  pub opt_parse : List (List ℕ) → Option Options
  pub fuse_main : Device → ℕ
  pub image : List ℕ → Device.Host

-- The name ends in ".img"; a name of less than four characters is read from in front of it.
unfoldable pub is_image : List ℕ → Option Bool
is_image file =
    if ltb (length file) 4
    then none
    else some (str_eq (drop (length file - 4) file) (b'.' ∷ b'i' ∷ b'm' ∷ b'g' ∷ []))

-- How the program ends: with a status, or not as C defines it. The interactive loop leaves a state.
pub data Exit : Type 0 where
  status : ℕ → Exit
  left : State → Exit
  stopped : Halt → Exit

-- The static variables of fs.c before fs_init, with the device opened.
abbrev pub unmounted : Device → State
unmounted dev = record {
  disk = dev;
  inode_map = [];
  inode_map_base = 0;
  inodes = [];
  n_inodes = 0;
  inode_base = 0;
  block_map = [];
  block_map_base = 0;
  n_blocks = 0;
  root_inode = 0;
  dirty = [];
}

-- The block buffer for a size, of new memory.
unfoldable pub blksiz : Host → ℕ → List ℕ
blksiz host size = host.fresh size

-- The result of `fs_ops.init` is not looked at. The loop starts in the root directory.
unfoldable pub interactive : Host → ℕ → List (List ℕ) → State → Outcome Session
interactive host rounds lines s =
    let c : Session = record { cwd = update_cwd []; buf = blksiz host block_size } in
    elim (fs_init host.fresh s) [
      | done u s' ↦ cmdloop host rounds lines c s'
      | fail e s' ↦ cmdloop host rounds lines c s'
      | halt w s' ↦ halt w s'
    ]

unfoldable pub ending : Outcome Session → Exit
ending (done c s) = left s
ending (fail e s) = left s
ending (halt w s) = stopped w

-- From image_create on.
unfoldable pub run_image : Host → Fuse → ℕ → List (List ℕ) → List ℕ → Bool → Exit
run_image host fuse rounds lines file cmd_mode = elim (image_create (fuse.image file)) [
  | none ↦ status 1
  | some dev ↦
      if cmd_mode
      then ending (interactive host rounds lines (unmounted dev))
      else status (fuse.fuse_main dev)
]

unfoldable pub run_options : Host → Fuse → ℕ → List (List ℕ) → Option Options → Exit
run_options host fuse rounds lines none = status 1
run_options host fuse rounds lines (some data') = elim data'.image_name [
  | none ↦ status 1
  | some file ↦ elim (is_image file) [
    | none ↦ stopped undefined_access
    | some false ↦ status 1
    | some true ↦ run_image host fuse rounds lines file data'.cmd_mode
  ]
]

unfoldable pub main : Host → Fuse → ℕ → List (List ℕ) → List (List ℕ) → Exit
main host fuse rounds lines argv = elim (fixup argv) [
  | none ↦ stopped undefined_access
  | some args ↦ run_options host fuse rounds lines (fuse.opt_parse args)
]
