-- ===== src/Fs/DataTests.antt =====
-- The theorems about fs_read and fs_write of pmeunier-project/fs.c at the sample image.
use cs.Common.{◌≡◌, refl, [], ◌∷◌, take, drop, replicate, arith}
use cs.Fs.Layout.Codec.{All}
use cs.Fs.Monad.{State, done, halt, undefined_access}
use cs.Fs.Translate.{is_dir}
use cs.Fs.Read.{fs_read, fs_read_dir}
use cs.Fs.Read.Laws.{HoldsData, Direct, contents, fs_read_lem, fs_read_unaligned}
use cs.Fs.Write.{fs_write, fs_write_dir}
use cs.Fs.Write.Direct.{Distinct}
use cs.Fs.Write.File.{Wrote, fs_read_dir-fs_write_dir, fs_write_lem}
use cs.Fs.Sample.{sample, sample-IsSound, file_a, path_a, found_a}

-- Both blocks of the file hold 1024 bytes.
sample_data : All (HoldsData sample) (5 ∷ 6 ∷ [])
unfolding replicate
sample_data = (
  record { real = omega arith; inside = omega arith; whole = refl },
  (record { real = omega arith; inside = omega arith; whole = refl }, tt),
)

sample-Direct : Direct sample file_a 0 (5 ∷ 6 ∷ [])
unfolding drop replicate
sample-Direct = record { rest = 0 ∷ 0 ∷ 0 ∷ 0 ∷ []; split = refl; data_blocks = sample_data }

sample-Distinct : Distinct (5 ∷ 6 ∷ [])
unfolding Distinct
sample-Distinct = ((omega arith, tt), (tt, tt))

fs_read_lem_example :
    fs_read path_a 1500 0 sample
    ≡ done (1500, take 1500 (contents sample.disk.content (5 ∷ 6 ∷ []))) sample
unfolding is_dir
fs_read_lem_example =
    fs_read_lem sample path_a sample-IsSound.ready found_a refl refl (omega arith) 0 1500
      (5 ∷ 6 ∷ []) sample-Direct (omega arith) (omega arith) (omega arith) (omega arith)

fs_read_unaligned_example : fs_read path_a 10 100 sample ≡ halt undefined_access sample
unfolding drop replicate is_dir
fs_read_unaligned_example =
    fs_read_unaligned sample path_a sample-IsSound.ready found_a refl refl (omega arith) 100 10 5
      (6 ∷ 0 ∷ 0 ∷ 0 ∷ 0 ∷ []) refl sample_data.0 (omega arith) (omega arith) (omega arith)
      (omega arith)

fs_read_dir-fs_write_dir_example :
    (t : State) × (fs_write_dir 2 (1 ∷ 2 ∷ 3 ∷ []) 3 0 sample ≡ done 0 t)
    × (fs_read_dir 2 3 3 0 t ≡ done (0, 1 ∷ 2 ∷ 3 ∷ []) t)
unfolding replicate
fs_read_dir-fs_write_dir_example =
    fs_read_dir-fs_write_dir sample sample-IsSound.ready 2 refl refl 0 (5 ∷ 6 ∷ []) (1 ∷ 2 ∷ 3 ∷ [])
      sample-Direct sample-Distinct (omega arith) (omega arith)

fs_write_lem_example :
    (t : State) × (fs_write path_a (1 ∷ 2 ∷ 3 ∷ []) 0 sample ≡ done 3 t)
    × Wrote sample 2 file_a 0 (5 ∷ 6 ∷ []) (1 ∷ 2 ∷ 3 ∷ []) t
unfolding replicate is_dir
fs_write_lem_example =
    fs_write_lem sample path_a sample-IsSound 2 found_a refl (omega arith) refl (omega arith) refl 0
      (5 ∷ 6 ∷ []) (1 ∷ 2 ∷ 3 ∷ []) sample-Direct sample-Distinct (omega arith, (omega arith, tt))
      (omega arith) (omega arith) (omega arith) (omega arith) (omega arith)
