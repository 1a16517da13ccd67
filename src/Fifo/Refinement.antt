-- ===== src/Fifo/Refinement.antt =====
-- Runs of calls on the FIFO of rmiller-pa5/driver/scull.c against a bounded queue.
use cs.Common.{
  ℕ, ◌+◌, ◌*◌, ◌≤◌, ◌<◌, ◌^◌, ◌≡◌, ◌≢◌, refl, sym, ap, ap₂, ◌∙◌, List, [], ◌∷◌, ◌++◌, arith, length,
  some, take, ltb, if◌then◌else◌, dec_lt,
}
use native.Mathlib.Nat.{mul-le-mul_left}
use cs.Fs.Layout.Codec.{le32}
use cs.Fifo.{
  Fifo, Reply, sleeps, refused, returned, outside_buffer, slot_size, scull_read, scull_write,
  put_in, overlay, received, scull_init_module,
}
use cs.Fifo.Ring.{ahead, slot_inside, Holds}
use cs.Fifo.Queue.{smooth, read-Holds, write-Holds, read-Holds_empty, write-Holds_full}

-- A call from a user's program.
pub data Op : Type 0 where
  put : List ℕ → Op
  get : ℕ → Op

abbrev pub call : Op → Fifo → Reply
call (put bytes) f = scull_write smooth bytes f
call (get count) f = scull_read smooth count f

-- The results of calls one after the other, up to the first that waits.
unfoldable pub run : List Op → Fifo → List (ℕ × List ℕ)
run [] f = []
run (o ∷ os) f = elim (call o f) [
  | returned n bytes g ↦ (n, bytes) ∷ run os g
  | sleeps ↦ []
  | refused g ↦ []
  | outside_buffer ↦ []
]

-- What a queue of at most `size` messages of at most `elemsz` bytes answers.
unfoldable pub queue_run : ℕ → ℕ → List Op → List (List ℕ) → List (ℕ × List ℕ)
queue_run elemsz size [] q = []
queue_run elemsz size (put bytes ∷ os) q =
    let m = take elemsz bytes in
    let rest = queue_run elemsz size os (q ++ (m ∷ [])) in
    if ltb (length q) size then (length m, []) ∷ rest else []
queue_run elemsz size (get count ∷ os) [] = []
queue_run elemsz size (get count ∷ os) (m ∷ q) =
    (if ltb count (length m) then count else elemsz, take count m) ∷ queue_run elemsz size os q

run_returned :
    (o : Op) (os : List Op) (f g : Fifo) (n : ℕ) (bytes : List ℕ)
    → call o f ≡ returned n bytes g
    → run (o ∷ os) f ≡ (n, bytes) ∷ run os g
unfolding run
run_returned o os f g n bytes e = rw (run, e) refl

run_sleeps : (o : Op) (os : List Op) (f : Fifo) → call o f ≡ sleeps → run (o ∷ os) f ≡ []
unfolding run
run_sleeps o os f e = rw (run, e) refl

-- From a FIFO that holds a queue, any run of calls gives the answers of the bounded queue.
pub run-queue_run :
    (os : List Op) (f : Fifo) (i : ℕ) (q : List (List ℕ))
    → Holds f i q
    → run os f ≡ queue_run f.elemsz f.size os q
unfolding run queue_run
run-queue_run [] f i q h = refl
run-queue_run (put bytes ∷ os) f i q h = elim (dec_lt (length q) f.size) [
  | yes room ↦
      let (g, ran, holds, same_elemsz, same_size) = write-Holds f i bytes q h room in
      run_returned (put bytes) os f g (length (take f.elemsz bytes)) [] ran
      ∙ ap (λ t. (length (take f.elemsz bytes), []) ∷ t)
          (run-queue_run os g i (q ++ (take f.elemsz bytes ∷ [])) holds
            ∙ ap₂ (λ e n. queue_run e n os (q ++ (take f.elemsz bytes ∷ []))) same_elemsz same_size)
      ∙ ground arith
  | no full ↦
      run_sleeps (put bytes) os f (write-Holds_full f i bytes q h (omega (arith, h.used, h.free)))
      ∙ ground arith
]
run-queue_run (get count ∷ os) f i [] h = run_sleeps (get count) os f (read-Holds_empty f i count h)
run-queue_run (get count ∷ os) f i (m ∷ q) h =
    let (g, ran, holds, same_elemsz, same_size) = read-Holds f i count m q h in
    run_returned (get count) os f g (if ltb count (length m) then count else f.elemsz)
      (take count m) ran
    ∙ ap (λ t. (if ltb count (length m) then count else f.elemsz, take count m) ∷ t)
        (run-queue_run os g (ahead f.size i 1) q holds
          ∙ ap₂ (λ e n. queue_run e n os q) same_elemsz same_size)

-- A FIFO of at least one slot, just set up, is empty.
init-Holds :
    (elemsz size : ℕ) (mem : ℕ → ℕ)
    → 0 < size
    → elemsz < 2 ^ 31
    → (f : Fifo) × (scull_init_module elemsz size
          (record { register_error = 0; add_error = 0; memory = some mem })
        ≡ (0, some f))
      × Holds f 0 []
      × (f.elemsz ≡ elemsz)
      × (f.size ≡ size)
unfolding scull_init_module
init-Holds elemsz size mem pos small = (
  record { elemsz = elemsz; size = size; mem = mem; start = 0; finish = 0; full = 0; empty = size },
  refl,
  record {
    head = pos;
    small = small;
    start_at = omega arith;
    finish_at = ground arith;
    used = refl;
    free = omega arith;
    slots = λ k m e. absurd cc;
  },
  refl,
  refl,
)

-- Setting the device up with at least one slot and memory succeeds, and any run of undisturbed
-- calls then gives the answers of an empty bounded queue, up to the first that waits.
pub init-queue_run :
    (elemsz size : ℕ) (mem : ℕ → ℕ) (os : List Op)
    → 0 < size
    → elemsz < 2 ^ 31
    → (f : Fifo) × (scull_init_module elemsz size
          (record { register_error = 0; add_error = 0; memory = some mem })
        ≡ (0, some f))
      × (run os f ≡ queue_run elemsz size os [])
init-queue_run elemsz size mem os pos small =
    let (f, ran, holds, same_elemsz, same_size) = init-Holds elemsz size mem pos small in
    (f, ran, run-queue_run os f 0 [] holds ∙ ap₂ (λ e n. queue_run e n os []) same_elemsz same_size)

-- An offset 4 bytes into a slot of more than 4 bytes is the start of no slot.
off_slot : (w a b : ℕ) → 4 < w → w * a + 4 ≢ w * b
off_slot w a b big e = elim (dec_lt a b) [
  | yes less ↦ omega (arith, slot_inside w a b less)
  | no above ↦ let over : b ≤ a = omega arith in omega (arith, mul-le-mul_left w over)
]

-- The FIFO after a copy from the user that misses some bytes.
abbrev half_written : Fifo → ℕ → List ℕ → Fifo
half_written f missed bytes =
    let n = if ltb f.elemsz (length bytes) then f.elemsz else length bytes in
    record f {
      mem =
          overlay (overlay f.mem f.finish (le32 n)) (f.finish + 4)
            (received (record smooth { uncopied = missed }) n bytes);
      finish = f.finish + 4;
    }

-- A write whose bytes are not all copied returns -1 to the writer, and afterwards the device holds
-- no queue: `end` is inside a slot, if an element has at least one byte.
pub failed_write-Holds :
    (f : Fifo) (i missed j : ℕ) (bytes : List ℕ) (q r : List (List ℕ))
    → Holds f i q
    → length q < f.size
    → 0 < f.elemsz
    → 0 < missed
    → (g : Fifo) × (scull_write (record smooth { uncopied = missed }) bytes f ≡ refused g)
      × (¬ (Holds g j r))
unfolding scull_write put_in
failed_write-Holds f i missed j bytes q r h room some_bytes failed =
    let last = ahead f.size i (length q) in
    let place : last < f.size = ground (arith, h.head) in
    let inside = slot_inside (slot_size f) last f.size place in
    let free : f.empty ≢ 0 = omega (arith, h.used, h.free) in
    (
      half_written f missed bytes,
      ground (arith, h.finish_at, inside, free),
      λ holds.
          off_slot (slot_size f) last (ahead f.size j (length r)) (omega (arith, some_bytes))
            (ap (λ t. t + 4) (sym h.finish_at) ∙ holds.finish_at),
    )
