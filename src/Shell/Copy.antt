-- ===== src/Shell/Copy.antt =====
-- The commands of pmeunier-project/main.c that copy files: do_put, do_get and do_show, a block at a time.
pub mod Show
use cs.Common.{
  ℕ, zero, suc, ◌+◌, Bool, true, false, not, none, some, List, [], ◌∷◌, ◌++◌, length, take, drop,
  ◌==◌, if◌then◌else◌, ◌⊎◌, inl, inr, bit_or,
}
use cs.Device.{block_size}
use cs.Fs.Monad.{M, Errno, pure, fail, ◌>>=◌, ◌>>◌, attempt, eperm}
use cs.Fs.Create.{fs_mknod, s_ifreg}
use cs.Fs.Attr.{fs_open, fs_release}
use cs.Fs.Read.{fs_read}
use cs.Fs.Write.{fs_write}
use cs.Shell.Commands.{Host, resolve, or_fail}

-- A block buffer `buf` into which `bytes` are copied; the rest of it is as it was.
abbrev pub refreshed : List ℕ → List ℕ → List ℕ
refreshed buf bytes = bytes ++ drop (length bytes) buf

-- What is left of the loop of do_put once a block has been written: a short write ends it. The loop
-- returns the block buffer and `val`.
abbrev pub put_next : ℕ → List ℕ → M (List ℕ × (ℕ ⊎ Errno)) → ℕ ⊎ Errno → M (List ℕ × (ℕ ⊎ Errno))
put_next len buf rest (inl n) = if n == len then rest else pure (buf, inl n)
put_next len buf rest (inr e) = pure (buf, inr e)

-- The loop over what the reads of the local file return.
unfoldable pub put_loop : List ℕ → List (List ℕ) → ℕ → List ℕ → ℕ ⊎ Errno → M (List ℕ × (ℕ ⊎ Errno))
put_loop p [] offset buf val = pure (buf, val)
put_loop p (chunk ∷ chunks) offset buf val = do
  let buf' = refreshed buf chunk
  written ← attempt (fs_write p chunk offset)
  put_next (length chunk) buf' (put_loop p chunks (offset + length chunk) buf' written) written

unfoldable pub put_chunks :
    Host → List ℕ → List ℕ → List ℕ → List (List ℕ) → M (List ℕ × (ℕ ⊎ Errno))
put_chunks host buf cwd inside chunks = do
  p ← resolve cwd inside
  fs_mknod host.caller p (bit_or 0o777 s_ifreg)
  fh ← fs_open p
  end ← put_loop p chunks 0 buf (inl 0)
  released ← attempt (fs_release p)
  pure end

-- A local file that cannot be opened gives -1.
unfoldable pub do_put : Host → List ℕ → List ℕ → List ℕ → List ℕ → M (List ℕ × (ℕ ⊎ Errno))
do_put host buf cwd outside inside = elim (host.open_input outside) [
  | none ↦ fail eperm
  | some chunks ↦ put_chunks host buf cwd inside chunks
]

unfoldable pub do_put1 : Host → List ℕ → List ℕ → List ℕ → M (List ℕ × (ℕ ⊎ Errno))
do_put1 host buf cwd a = do_put host buf cwd a a

-- Where the loop of do_get or do_show is: it has ended, with or without an error, the block buffer and
-- what has been written, or it has not in the rounds given.
pub data Copied : Type 0 where
  unfinished : Copied
  copied : (well : Bool) → (buf : List ℕ) → (out : List ℕ) → Copied

-- A round of do_get, into whose buffer fs_read has copied `bytes`. Only a write of nothing, or one that
-- fails, ends the loop: a read that fails is tried again.
abbrev pub get_next :
    Host → ℕ → List ℕ → List ℕ → (ℕ → List ℕ → List ℕ → M Copied) → (ℕ × List ℕ) ⊎ Errno → M Copied
get_next host offset buf out again (inr e) = again offset buf out
get_next host offset buf out again (inl (n, bytes)) =
    elim (host.write_output offset (take n (refreshed buf bytes))) [
      | none ↦ pure (copied false (refreshed buf bytes) out)
      | some len ↦
          if len == 0
          then pure (copied true (refreshed buf bytes) out)
          else again (offset + len) (refreshed buf bytes) (out ++ take len (refreshed buf bytes))
    ]

unfoldable pub get_loop : Host → List ℕ → ℕ → ℕ → List ℕ → List ℕ → M Copied
get_loop host p zero offset buf out = pure unfinished
get_loop host p (suc r) offset buf out = do
  got ← attempt (fs_read p block_size offset)
  get_next host offset buf out (get_loop host p r) got

-- `buf` is what the block buffer holds before.
unfoldable pub do_get : Host → ℕ → List ℕ → List ℕ → List ℕ → List ℕ → M Copied
do_get host rounds buf cwd inside outside =
    if not (host.open_output outside) then fail eperm else (do
      p ← resolve cwd inside
      fh ← fs_open p
      end ← get_loop host p rounds 0 buf []
      released ← attempt (fs_release p)
      pure end)

unfoldable pub do_get1 : Host → ℕ → List ℕ → List ℕ → List ℕ → M Copied
do_get1 host rounds buf cwd a = do_get host rounds buf cwd a a

-- The loop of do_show: it ends with a read of nothing or one that fails.
abbrev pub show_next :
    ℕ → List ℕ → List ℕ → (ℕ → List ℕ → List ℕ → M Copied) → (ℕ × List ℕ) ⊎ Errno → M Copied
show_next offset buf out again (inr e) = pure (copied false buf out)
show_next offset buf out again (inl (n, bytes)) =
    if n == 0
    then pure (copied true (refreshed buf bytes) out)
    else again (offset + n) (refreshed buf bytes) (out ++ take n (refreshed buf bytes))

unfoldable pub show_loop : List ℕ → ℕ → ℕ → List ℕ → List ℕ → M Copied
show_loop p zero offset buf out = pure unfinished
show_loop p (suc r) offset buf out = do
  got ← attempt (fs_read p block_size offset)
  show_next offset buf out (show_loop p r) got

unfoldable pub do_show : ℕ → List ℕ → List ℕ → List ℕ → M Copied
do_show rounds buf cwd a = do
  p ← resolve cwd a
  fh ← fs_open p
  end ← show_loop p rounds 0 buf []
  released ← attempt (fs_release p)
  pure end
