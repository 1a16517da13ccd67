-- ===== src/Fifo.antt =====
-- rmiller-pa5/driver/scull.c: a character device that is a bounded FIFO of messages, kept in a ring of
-- slots in one kmalloc'ed buffer. A slot is an int, the message's length, and `elemsz` bytes.
-- Offsets count from circleBuffer, so `start` and `end` are pointers less circleBuffer. The lock
-- makes each call's critical section one step; the semaphores are their counts.
pub mod Memory
pub mod Ring
pub mod Queue
pub mod Module
pub mod Refinement
pub mod Calls
mod CallTests
mod ModuleTests
mod Tests
use cs.Common.{
  ◌⊎◌, inl, inr, ℕ, zero, suc, ◌+◌, ◌-◌, ◌*◌, ◌/◌, ◌%◌, ◌^◌, min, Bool, true, false, not, ◌&&◌,
  ◌||◌, Option, none, some, List, [], ◌∷◌, ◌++◌, length, take, replicate, get_or, ltb, leb, ◌==◌,
  if◌then◌else◌,
}
use cs.Fs.Layout.Codec.{le32, read32}

pub record Fifo : Type 0 where
  pub elemsz : ℕ
  pub size : ℕ
  pub mem : ℕ → ℕ
  pub start : ℕ
  pub finish : ℕ
  pub full : ℕ
  pub empty : ℕ

-- `sizeof(int) + scull_fifo_elemsz`
abbrev pub slot_size : Fifo → ℕ
slot_size f = 4 + f.elemsz

abbrev pub max_offset : Fifo → ℕ
max_offset f = slot_size f * f.size

-- Bytes of the buffer, read and written.
unfoldable pub load : (ℕ → ℕ) → ℕ → ℕ → List ℕ
load mem p zero = []
load mem p (suc n) = mem p ∷ load mem (p + 1) n

unfoldable pub overlay : (ℕ → ℕ) → ℕ → List ℕ → ℕ → ℕ
overlay mem p bytes a =
    if leb p a && ltb a (p + length bytes) then get_or bytes (a - p) 0 else mem a

-- An int that is compared with a size_t, or is passed as one.
unfoldable pub as_size : ℕ → ℕ
as_size word = if ltb word (2 ^ 31) then word else word + (2 ^ 64 - 2 ^ 32)

-- What happens to a call: whether a sleep is interrupted, whether the lock is had, and how many
-- bytes of a copy between user and kernel are not copied.
pub record Call : Type 0 where
  pub interrupted : Bool
  pub locked : Bool
  pub uncopied : ℕ

-- A call waits on a semaphore, returns -1, or returns a number with the bytes for the reader;
-- or it touches memory outside the buffer.
pub data Reply : Type 0 where
  sleeps : Reply
  refused : Fifo → Reply
  returned : ℕ → List ℕ → Fifo → Reply
  outside_buffer : Reply

-- `if (p == max_offset) p = circleBuffer;`
abbrev pub wrap : Fifo → ℕ → ℕ
wrap f p = if p == max_offset f then 0 else p

-- The locked part of `scull_read`, with the length read on entry.
unfoldable pub take_out : Call → ℕ → ℕ → Fifo → Reply
take_out call count len f =
    let n = if ltb count len then count else len in
    if ltb (max_offset f) (f.start + 4 + n)
    then outside_buffer
    else if not (call.uncopied == 0)
    then refused f
    else returned (if ltb count len then count else f.elemsz) (load f.mem (f.start + 4) n)
        (record f {
          start = wrap f (f.start + slot_size f);
          full = f.full - 1;
          empty = f.empty + 1;
        })

-- `len` is read before the semaphore is taken. The results are those for a count below 2^31.
unfoldable pub scull_read : Call → ℕ → Fifo → Reply
scull_read call count f =
    let len = as_size (read32 (load f.mem f.start 4)) in
    if ltb (max_offset f) (f.start + 4)
    then outside_buffer
    else if f.full == 0
    then (if call.interrupted then refused f else sleeps)
    else if not call.locked
    then refused f
    else take_out call count len f

-- What copy_from_user leaves in `n` bytes: the bytes it could not copy are zero.
unfoldable pub received : Call → ℕ → List ℕ → List ℕ
received call n bytes = take (n - call.uncopied) bytes ++ replicate (min n call.uncopied) 0

-- The locked part of `scull_write`. A failed copy leaves `end` behind the length that it stored.
unfoldable pub put_in : Call → List ℕ → Fifo → Reply
put_in call bytes f =
    let n = if ltb f.elemsz (length bytes) then f.elemsz else length bytes in
    let mem = overlay (overlay f.mem f.finish (le32 n)) (f.finish + 4) (received call n bytes) in
    if ltb (max_offset f) (f.finish + 4 + n)
    then outside_buffer
    else if not (call.uncopied == 0)
    then refused (record f { mem = mem; finish = f.finish + 4 })
    else returned n [] (record f {
      mem = mem;
      finish = wrap f (f.finish + slot_size f);
      full = f.full + 1;
      empty = f.empty - 1;
    })

-- `bytes` is the user's buffer of `count` bytes.
unfoldable pub scull_write : Call → List ℕ → Fifo → Reply
scull_write call bytes f =
    if f.empty == 0
    then (if call.interrupted then refused f else sleeps)
    else if not call.locked
    then refused f
    else put_in call bytes f

-- The results of the calls that `scull_init_module` makes: error numbers, 0 for success, and what
-- the new memory holds, if there is any.
pub record Boot : Type 0 where
  pub register_error : ℕ
  pub add_error : ℕ
  pub memory : Option (ℕ → ℕ)

-- The error number, and the FIFO if there is one. No memory is no error number.
unfoldable pub scull_init_module : ℕ → ℕ → Boot → ℕ × Option Fifo
scull_init_module elemsz size boot =
    if not (boot.register_error == 0)
    then (boot.register_error, none)
    else if not (boot.add_error == 0)
    then (boot.add_error, none)
    else (elim boot.memory [
      | none ↦ (0, none)
      | some mem ↦ (
        0,
        some (record {
          elemsz = elemsz;
          size = size;
          mem = mem;
          start = 0;
          finish = 0;
          full = 0;
          empty = size;
        }),
      )
    ])

-- What <linux/ioctl.h> and the kernel say of a command and of an address: the type and number
-- fields, whether the user's memory there may be used, and the value of SCULL_IOCGETELEMSZ.
pub record Ioctl : Type 0 where
  pub ioc_type : ℕ → ℕ
  pub ioc_nr : ℕ → ℕ
  pub access_ok : ℕ → ℕ → Bool
  pub get_elemsz : ℕ

pub data IoctlError : Type 0 where
  enotty efault : IoctlError

unfoldable pub scull_ioctl : Ioctl → ℕ → ℕ → Fifo → ℕ ⊎ IoctlError
scull_ioctl io cmd arg f =
    if not (io.ioc_type cmd == b'k') || ltb 2 (io.ioc_nr cmd)
    then inr enotty
    else if not (io.access_ok arg cmd)
    then inr efault
    else if cmd == io.get_elemsz
    then inl f.elemsz
    else inr enotty
