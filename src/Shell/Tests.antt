-- ===== src/Shell/Tests.antt =====
-- The theorems about pmeunier-project/main.c at small inputs.
use cs.Common.{
  subst, sym, ℕ, true, ◌++◌, replicate, length-replicate, ◌≡◌, refl, false, none, some, List, [],
  ◌∷◌, take, drop, arith,
}
use cs.Fs.Monad.{done}
use cs.Fs.Translate.{is_dir, translate, path_names, walk}
use cs.Fs.Read.Laws.{Direct, contents}
use cs.Fs.Dir.{cstr, str_eq}
use cs.Fs.Path.{strtok_all, push_token, tokens_from, parse, parse_loop}
use cs.Fs.Directory.{entries_at}
use cs.Fs.Layout.{blank_dirent}
use cs.Fs.Layout.Codec.{All}
use cs.Fs.Layout.RoundTrip.{decode-encode_dir}
use cs.Shell.Commands.Listing.{Leads, name_lines, printed_lines, do_ls1_lem}
use cs.Fs.Sample.{
  root-IsDirectory, root_entries, root_entries-fit, All-replicate, sample, sample-IsSound, file_a,
  path_a, found_a,
}
use cs.Shell.Copy.{copied, do_show}
use cs.Shell.Copy.Show.{buffer_after, do_show_lem}
use cs.Shell.Paths.{
  split, spans, cut, normalize_paths, normal_loop, normal_path, move_string, bounded, full_path,
  joined, or_root,
}
use cs.Shell.Paths.Plain.{full_path_plain, normalize_overlap}
use cs.Shell.Commands.{Host, do_ls1}
use cs.Shell.Loop.{Session, cmdloop}
use cs.Shell.Loop.Laws.{Quits, cmdloop-quit}

abbrev slash_a_b : List ℕ
slash_a_b = b'/' ∷ b'a' ∷ b'/' ∷ b'b' ∷ []

full_path_plain_example : full_path (b'/' ∷ []) slash_a_b ≡ some slash_a_b
unfolding joined or_root split spans cut cstr drop str_eq
full_path_plain_example =
    full_path_plain (b'/' ∷ []) slash_a_b (omega arith)
      (
        record { not_dot = refl; not_dot_dot = refl },
        (record { not_dot = refl; not_dot_dot = refl }, tt),
      )
      (omega arith)

-- "./abc", once strtok_r has cut it.
abbrev dot_abc : List ℕ
dot_abc = b'.' ∷ 0 ∷ b'a' ∷ b'b' ∷ b'c' ∷ 0 ∷ []

normalize_overlap_example : normalize_paths (0 ∷ 2 ∷ []) dot_abc ≡ none
unfolding cstr drop str_eq
normalize_overlap_example =
    normalize_overlap 0 [] dot_abc refl (record { not_dot = refl; not_dot_dot = refl })
      (omega arith)

-- The path "/a/b/../../ccc/ddd": the name behind is copied over the end of the one before.
abbrev nested : List ℕ
nested =
    b'/' ∷ b'a' ∷ b'/' ∷ b'b' ∷ b'/' ∷ b'.' ∷ b'.' ∷ b'/' ∷ b'.' ∷ b'.' ∷ b'/' ∷ b'c' ∷ b'c' ∷ b'c'
    ∷ b'/' ∷ b'd' ∷ b'd' ∷ b'd' ∷ []

copied_over :
    full_path (b'/' ∷ []) nested
    ≡ some (b'/' ∷ b'c' ∷ b'c' ∷ b'd' ∷ b'd' ∷ b'd' ∷ b'/' ∷ b'd' ∷ b'd' ∷ b'd' ∷ [])
unfolding full_path normal_path normalize_paths normal_loop move_string bounded joined or_root split
    spans cut cstr drop take str_eq
copied_over = refl

abbrev quit_line : List ℕ
quit_line = b'q' ∷ b'u' ∷ b'i' ∷ b't' ∷ 10 ∷ []

abbrev quiet_host : Host
quiet_host = record {
  strtol = λ s. 0;
  caller = record { uid = 0; gid = 0; now = 0 };
  fresh = λ n. [];
  open_input = λ name. none;
  open_output = λ name. false;
  write_output = λ offset bytes. none;
  qsort = λ lines. lines;
  sprint_row = λ row. row.name;
}

abbrev at_root : Session
at_root = record { cwd = b'/' ∷ []; buf = [] }

quit_line-Quits : Quits quit_line (b'q' ∷ b'u' ∷ b'i' ∷ b't' ∷ []) []
unfolding split spans cut cstr drop str_eq take
quit_line-Quits = record { read = refl; split = refl; quits = refl }

cmdloop-quit_example :
    cmdloop quiet_host 0 ((b'#' ∷ []) ∷ quit_line ∷ slash_a_b ∷ []) at_root
    ≡ cmdloop quiet_host 0 ((b'#' ∷ []) ∷ quit_line ∷ []) at_root
cmdloop-quit_example =
    cmdloop-quit quiet_host 0 quit_line (b'q' ∷ b'u' ∷ b'i' ∷ b't' ∷ []) [] ((b'#' ∷ []) ∷ [])
      (slash_a_b ∷ []) at_root quit_line-Quits

-- The sample's file has 2000 bytes: a whole block, and 976 bytes of the next one.
sample-Direct_whole : Direct sample file_a 0 (5 ∷ [])
unfolding drop replicate
sample-Direct_whole = record {
  rest = 6 ∷ 0 ∷ 0 ∷ 0 ∷ 0 ∷ [];
  split = refl;
  data_blocks = (record { real = omega arith; inside = omega arith; whole = refl }, tt);
}

path_a_full : full_path (b'/' ∷ []) path_a ≡ some path_a
unfolding joined or_root split spans cut cstr drop str_eq
path_a_full =
    full_path_plain (b'/' ∷ []) path_a (omega arith)
      (record { not_dot = refl; not_dot_dot = refl }, tt) (omega arith)

abbrev buffer : List ℕ
buffer = replicate 1024 b'x'

do_show_lem_example :
    do_show 3 buffer (b'/' ∷ []) path_a sample
    ≡ done
        (copied true (buffer_after sample.disk.content buffer (5 ∷ [])) (
          contents sample.disk.content (5 ∷ [])
          ++ take 976 (buffer_after sample.disk.content buffer (5 ∷ []))))
        sample
unfolding is_dir
do_show_lem_example =
    do_show_lem sample path_a sample-IsSound.ready found_a refl refl (omega arith) 3 976 (5 ∷ [])
      buffer (b'/' ∷ []) path_a path_a_full sample-Direct_whole (omega arith) (omega arith)
      (omega arith) (length-replicate 1024 b'x') (omega arith)

-- The root of the sample, which holds one entry.
abbrev root_path : List ℕ
root_path = b'/' ∷ []

root_path_full : full_path root_path root_path ≡ some root_path
unfolding full_path normal_path normalize_paths normal_loop move_string bounded joined or_root split
    spans cut cstr drop take str_eq
root_path_full = refl

found_root : translate root_path sample ≡ done 1 sample
unfolding translate path_names strtok_all push_token tokens_from parse parse_loop walk str_eq
found_root = refl

root-Leads : All (Leads sample.inodes) (entries_at sample 4)
unfolding Leads replicate
root-Leads =
    subst (All (Leads sample.inodes)) (sym (decode-encode_dir root_entries root_entries-fit refl).0)
      (
        (λ valid. omega arith),
        All-replicate (Leads sample.inodes) 31 {x = blank_dirent} (λ valid. absurd cc),
      )

do_ls1_lem_example :
    do_ls1 quiet_host root_path root_path sample
    ≡ done (printed_lines (quiet_host.qsort (name_lines (entries_at sample 4)))) sample
do_ls1_lem_example =
    do_ls1_lem sample root_path sample-IsSound.ready found_root root-IsDirectory root-Leads
      quiet_host root_path root_path root_path_full
