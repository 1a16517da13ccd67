-- ===== src/Fifo/Calls.antt =====
-- Calls of scull_read and scull_write of rmiller-pa5/driver/scull.c that run at the same time: where a
-- call stands, and its steps on the semaphores FULL and EMPTY, the lock mLock and the ring.
pub mod Invariant
pub mod Progress
pub mod Stale
use cs.Common.{
  ℕ, ◌+◌, ◌-◌, ◌<◌, ◌≡◌, Bool, true, false, List, [], ◌∷◌, ◌++◌, length, replicate, ltb,
  if◌then◌else◌,
}
use cs.Fs.Layout.Codec.{le32, read32}
use cs.Fifo.{Fifo, Call, load, overlay, as_size, wrap, slot_size, received}

-- What the calls share. `spoiled` says whether a copy from a user has failed so far.
pub record Shared : Type 0 where
  pub fifo : Fifo
  pub locked : Bool
  pub spoiled : Bool

-- Where a call stands, with the local variables that are live there. A reader has loaded `len` and a
-- writer has taken the address `store_len` before the semaphore.
pub data Pc : Type 0 where
  idle : Pc
  r_wait : (count len : ℕ) → Pc  -- before down_interruptible(&FULL)
  r_token : (count len : ℕ) → Pc  -- before mutex_lock_interruptible
  r_in : (count len : ℕ) → Pc  -- before copy_to_user
  r_copied : (result : ℕ) → (got : List ℕ) → Pc  -- before start is moved on
  r_past : (result : ℕ) → (got : List ℕ) → Pc  -- before start is reset at max_offset
  r_moved : (result : ℕ) → (got : List ℕ) → Pc  -- before mutex_unlock
  r_failed : Pc  -- before mutex_unlock, the copy failed
  r_back : Pc  -- before up(&FULL)
  r_up : (result : ℕ) → (got : List ℕ) → Pc  -- before up(&EMPTY)
  w_wait : (store_len : ℕ) → (bytes : List ℕ) → Pc
  w_token : (store_len : ℕ) → (bytes : List ℕ) → Pc
  w_in : (store_len : ℕ) → (bytes : List ℕ) → Pc  -- before end is moved behind the length
  w_len : (store_len : ℕ) → (bytes : List ℕ) → Pc  -- before the length is stored
  w_copy : (bytes : List ℕ) → Pc  -- before copy_from_user
  w_copied : Pc  -- before end is moved behind the element
  w_past : Pc  -- before end is reset at max_offset
  w_moved : Pc  -- before mutex_unlock
  w_failed : Pc
  w_back : Pc  -- before up(&EMPTY)
  w_up : Pc  -- before up(&FULL)

abbrev pub set_full : Shared → ℕ → Shared
set_full m n = record m { fifo = record m.fifo { full = n } }

abbrev pub set_empty : Shared → ℕ → Shared
set_empty m n = record m { fifo = record m.fifo { empty = n } }

abbrev pub set_lock : Shared → Bool → Shared
set_lock m b = record m { locked = b }

-- The number of bytes that a reader copies, and what it returns.
abbrev pub to_copy : ℕ → ℕ → ℕ
to_copy count len = if ltb count len then count else len

abbrev pub read_result : Fifo → ℕ → ℕ → ℕ
read_result f count len = if ltb count len then count else f.elemsz

abbrev pub set_start : Shared → ℕ → Shared
set_start m n = record m { fifo = record m.fifo { start = n } }

abbrev pub set_end : Shared → ℕ → Shared
set_end m n = record m { fifo = record m.fifo { finish = n } }

abbrev pub set_mem : Shared → (ℕ → ℕ) → Shared
set_mem m mem = record m { fifo = record m.fifo { mem = mem } }

-- How many of its bytes a writer stores.
abbrev pub to_store : Fifo → List ℕ → ℕ
to_store f bytes = if ltb f.elemsz (length bytes) then f.elemsz else length bytes

-- The length, stored at the address that the writer took before the semaphore.
abbrev pub store_length_at : Shared → ℕ → List ℕ → Shared
store_length_at m store_len bytes =
    set_mem m (overlay m.fifo.mem store_len (le32 (to_store m.fifo bytes)))

-- The bytes, copied to where `end` is then.
abbrev pub copy_to_end : Shared → Call → List ℕ → Shared
copy_to_end m call bytes =
    set_mem m (overlay m.fifo.mem m.fifo.finish (received call (to_store m.fifo bytes) bytes))

-- A call that has not failed to copy has copied all.
abbrev pub complete : Call
complete = record { interrupted = false; locked = true; uncopied = 0 }

-- After a failed copy `end` stays behind the length.
abbrev pub spoil : Shared → Call → List ℕ → Shared
spoil m call bytes = record (copy_to_end m call bytes) { spoiled = true }

-- A step that brings a call on. The lock is had when it is free, and a semaphore above 0 lowered.
pub data Advance (m : Shared) : Pc → Shared → Pc → Type 0 where
  down_full :
      {count len : ℕ}
      → 0 < m.fifo.full
      → Advance m (r_wait count len) (set_full m (m.fifo.full - 1)) (r_token count len)
  lock_read :
      {count len : ℕ}
      → m.locked ≡ false
      → Advance m (r_token count len) (set_lock m true) (r_in count len)
  copy_out :
      {count len : ℕ}
      → Advance m (r_in count len) m (
          r_copied
            (read_result m.fifo count len)
            (load m.fifo.mem (m.fifo.start + 4) (to_copy count len)))
  pass_start :
      {result : ℕ} {got : List ℕ}
      → Advance m
          (r_copied result got)
          (set_start m (m.fifo.start + slot_size m.fifo))
          (r_past result got)
  wrap_start :
      {result : ℕ} {got : List ℕ}
      → Advance m (r_past result got) (set_start m (wrap m.fifo m.fifo.start)) (r_moved result got)
  unlock_read :
      {result : ℕ} {got : List ℕ}
      → Advance m (r_moved result got) (set_lock m false) (r_up result got)
  up_empty :
      {result : ℕ} {got : List ℕ}
      → Advance m (r_up result got) (set_empty m (m.fifo.empty + 1)) idle
  unlock_failed_read : Advance m r_failed (set_lock m false) r_back
  up_full_back : Advance m r_back (set_full m (m.fifo.full + 1)) idle
  down_empty :
      {store_len : ℕ} {bytes : List ℕ}
      → 0 < m.fifo.empty
      → Advance m
          (w_wait store_len bytes)
          (set_empty m (m.fifo.empty - 1))
          (w_token store_len bytes)
  lock_write :
      {store_len : ℕ} {bytes : List ℕ}
      → m.locked ≡ false
      → Advance m (w_token store_len bytes) (set_lock m true) (w_in store_len bytes)
  pass_length :
      {store_len : ℕ} {bytes : List ℕ}
      → Advance m (w_in store_len bytes) (set_end m (m.fifo.finish + 4)) (w_len store_len bytes)
  store_length :
      {store_len : ℕ} {bytes : List ℕ}
      → Advance m (w_len store_len bytes) (store_length_at m store_len bytes) (w_copy bytes)
  copy_in : {bytes : List ℕ} → Advance m (w_copy bytes) (copy_to_end m complete bytes) w_copied
  pass_message : Advance m w_copied (set_end m (m.fifo.finish + m.fifo.elemsz)) w_past
  wrap_end : Advance m w_past (set_end m (wrap m.fifo m.fifo.finish)) w_moved
  unlock_write : Advance m w_moved (set_lock m false) w_up
  up_full : Advance m w_up (set_full m (m.fifo.full + 1)) idle
  unlock_failed_write : Advance m w_failed (set_lock m false) w_back
  up_empty_back : Advance m w_back (set_empty m (m.fifo.empty + 1)) idle

-- Every step: also a call that begins, which reads `start` or `end` without the lock, a sleep that
-- is interrupted, and a copy that fails.
pub data Move (m : Shared) : Pc → Shared → Pc → Type 0 where
  advance : {p q : Pc} {m' : Shared} → Advance m p m' q → Move m p m' q
  read :
      (count : ℕ) → Move m idle m (r_wait count (as_size (read32 (load m.fifo.mem m.fifo.start 4))))
  write : (bytes : List ℕ) → Move m idle m (w_wait m.fifo.finish bytes)
  no_full : {count len : ℕ} → Move m (r_wait count len) m idle
  no_lock_read : {count len : ℕ} → Move m (r_token count len) m r_back
  failed_read : {count len : ℕ} → Move m (r_in count len) m r_failed
  no_empty : {store_len : ℕ} {bytes : List ℕ} → Move m (w_wait store_len bytes) m idle
  no_lock_write : {store_len : ℕ} {bytes : List ℕ} → Move m (w_token store_len bytes) m w_back
  failed_write :
      {bytes : List ℕ} (call : Call)
      → 0 < call.uncopied
      → Move m (w_copy bytes) (spoil m call bytes) w_failed

-- The device with the calls of its users.
pub record System : Type 0 where
  pub shared : Shared
  pub calls : List Pc

pub data Step (s : System) : System → Type 0 where
  pick :
      (before after : List Pc) {p q : Pc} {m : Shared}
      → s.calls ≡ before ++ (p ∷ after)
      → Move s.shared p m q
      → Step s (record { shared = m; calls = before ++ (q ∷ after) })

-- A device as `scull_init_module` sets it up, with `users` processes that do not call yet.
abbrev pub launched : Fifo → ℕ → System
launched f users = record {
  shared = record { fifo = f; locked = false; spoiled = false };
  calls = replicate users idle;
}

-- The states that come from `s` by steps.
pub data From (s : System) : System → Type 0 where
  start : From s s
  later : {t u : System} → From s t → Step t u → From s u

pub data Reach (f : Fifo) (users : ℕ) : System → Type 0 where
  reached : {s : System} → From (launched f users) s → Reach f users s
