-- ===== src/Clients/Fifo/Hand.antt =====
-- From rmiller-pa5/src/producer.c through the FIFO device to consumer.c.
use cs.Common.{
  ℕ, zero, suc, ◌+◌, ◌-◌, ◌^◌, ◌≤◌, ◌<◌, ◌≡◌, ◌≢◌, refl, sym, ap, ap₂, ◌∙◌, true, false, List, [],
  ◌∷◌, ◌++◌, length, drop, take, set, replicate, ◌==◌, if◌then◌else◌, ltb, some, arith,
  length-append, length-take, length-drop, take_short, append-nil, append_assoc,
}
use cs.Fs.Layout.Codec.{All}
use cs.Fs.Dir.{cstr}
use cs.Fifo.{Fifo, scull_init_module}
use cs.Fifo.Refinement.{Op, put, get, run, queue_run, init-queue_run}
use cs.Clients.Arguments.{accepted, exits, concurrency, out_of_range, max_concurrency}
use cs.Clients.Fifo.{
  Host, start_children, waits, do_procs, run_main, message, producer, run_parsed, consumer, text,
  filled, print_read,
}

-- The same call again and again on the queue: what puts answer, and what gets answer.
queue_run-puts :
    (elemsz size n : ℕ) (bytes : List ℕ) (os : List Op) (q : List (List ℕ))
    → length q + n ≤ size
    → queue_run elemsz size (replicate n (put bytes) ++ os) q
      ≡ replicate n (length (take elemsz bytes), [])
        ++ queue_run elemsz size os (q ++ replicate n (take elemsz bytes))
unfolding queue_run replicate
queue_run-puts elemsz size zero bytes os q room =
    ap (λ r. queue_run elemsz size os r) (sym (append-nil q))
queue_run-puts elemsz size (suc n) bytes os q room =
    let m = take elemsz bytes in
    let first : ltb (length q) size ≡ true = ground arith in
    let rest =
      queue_run-puts elemsz size n bytes os (q ++ (m ∷ []))
        (omega (arith, length-append q (m ∷ []))) in
    rw first (
      ap (λ t. (length m, []) ∷ t)
        (rest
          ∙ ap (λ r. replicate n (length m, []) ++ queue_run elemsz size os r)
              (append_assoc q (m ∷ []) (replicate n m))))

queue_run-gets :
    (elemsz size n : ℕ) (m : List ℕ)
    → length m ≤ elemsz
    → queue_run elemsz size (replicate n (get elemsz)) (replicate n m) ≡ replicate n (elemsz, m)
unfolding queue_run replicate
queue_run-gets elemsz size zero m fits = refl
queue_run-gets elemsz size (suc n) m fits =
    let short : ltb elemsz (length m) ≡ false = ground arith in
    rw short (
      ap₂ (λ x t. (elemsz, x) ∷ t) (take_short m elemsz fits) (queue_run-gets elemsz size n m fits))

start_all : (n : ℕ) → start_children n (replicate n true) ≡ (n, true)
unfolding start_children replicate
start_all zero = refl
start_all (suc n) = ground (arith, start_all n)

-- A host on which the program is called with `p` and a number, and nothing fails.
pub record Works (host : Host) (word : List ℕ) (n : ℕ) : Type 0 where
  pub number : host.atoi word ≡ n
  pub opens : host.opens ≡ true
  pub closes : host.closes ≡ true
  pub forks : host.forks ≡ replicate n true

abbrev pub with_number : List ℕ → List (List ℕ)
with_number word = (b'p' ∷ []) ∷ word ∷ []

accepts :
    (host : Host) (word : List ℕ) (n : ℕ)
    → Works host word n
    → 0 < n
    → n ≤ max_concurrency
    → concurrency host.atoi (with_number word) ≡ accepted b'p' n
unfolding concurrency
accepts host word n h pos few =
    ap (λ k. if out_of_range k then exits 1 else accepted b'p' k) h.number ∙ ground arith

do_procs_lem :
    (host : Host) (word : List ℕ) (n : ℕ) (op : Op)
    → Works host word n
    → do_procs host op n ≡ record { status = 0; calls = replicate n op; waited = waits n }
unfolding do_procs
do_procs_lem host word n op h =
    let started : start_children n host.forks ≡ (n, true) =
      ap (start_children n) h.forks ∙ start_all n in
    rw (started, h.closes) refl

-- `main` then starts that many children, all with the same call, and waits for each.
run_lem :
    (host : Host) (word : List ℕ) (n : ℕ) (op : Op)
    → Works host word n
    → 0 < n
    → n ≤ max_concurrency
    → run_main host op (with_number word)
      ≡ record { status = 0; calls = replicate n op; waited = waits n }
unfolding run_main run_parsed
run_lem host word n op h pos few =
    ap (run_parsed host op) (accepts host word n h pos few)
    ∙ ap (λ o. if o then do_procs host op n else record { status = 1; calls = []; waited = 0 })
        h.opens
    ∙ do_procs_lem host word n op h

-- In a run in which no two calls on the device overlap, with an element size below 2^31 and a
-- device of at least as many slots as there are children, on hosts where nothing fails: a producer
-- and then a consumer, each called for the same number of children, 1 to 20, both end with status
-- 0; every write returns the number of bytes of the message, cut at the element size, and every
-- read hands over these bytes and returns the element size.
pub consumer-producer :
    (elemsz size n : ℕ) (mem : ℕ → ℕ) (ph ch : Host) (pw cw : List ℕ)
    → elemsz < 2 ^ 31
    → n ≤ size
    → 0 < n
    → n ≤ max_concurrency
    → Works ph pw n
    → Works ch cw n
    → (f : Fifo) × (scull_init_module elemsz size
          (record { register_error = 0; add_error = 0; memory = some mem })
        ≡ (0, some f))
      × ((producer ph (with_number pw)).status ≡ 0)
      × ((consumer ch elemsz (with_number cw)).status ≡ 0)
      × (run ((producer ph (with_number pw)).calls ++ (consumer ch elemsz (with_number cw)).calls) f
          ≡ replicate n (length (take elemsz message), [])
            ++ replicate n (elemsz, take elemsz message))
unfolding producer consumer
consumer-producer elemsz size n mem ph ch pw cw small room pos few hp hc =
    let produced = run_lem ph pw n (put message) hp pos few in
    let consumed = run_lem ch cw n (get elemsz) hc pos few in
    let m = take elemsz message in
    let fits : length m ≤ elemsz = omega (arith, length-take elemsz message) in
    let (f, ready, answers) =
      init-queue_run elemsz size mem (replicate n (put message) ++ replicate n (get elemsz))
        (omega arith) small in
    (
      f,
      ready,
      ap (λ e. e.status) produced,
      ap (λ e. e.status) consumed,
      ap₂ (λ a b. run (a.calls ++ b.calls) f) produced consumed
          ∙ answers
          ∙ queue_run-puts elemsz size n message (replicate n (get elemsz)) [] (omega arith)
          ∙ ap (λ t. replicate n (length m, []) ++ t) (queue_run-gets elemsz size n m fits),
    )

cstr-append : (m xs : List ℕ) → All (λ c. c ≢ 0) m → cstr (m ++ xs) ≡ m ++ cstr xs
unfolding cstr
cstr-append [] xs h = refl
cstr-append (c ∷ m) xs h = let real = h.0 in ground (arith, cstr-append m xs h.1)

set-append : (m xs : List ℕ) (i k : ℕ) → length m + k ≡ i → set (m ++ xs) i 0 ≡ m ++ set xs k 0
set-append [] xs i k e = let e' : i ≡ k = omega arith in ap (λ j. set xs j 0) e'
set-append (c ∷ m) xs zero k e = absurd (omega arith)
set-append (c ∷ m) xs (suc i) k e = ap (λ t. c ∷ t) (set-append m xs i k (omega arith))

cstr-set : (xs : List ℕ) (k : ℕ) → k < length xs → cstr (set xs k 0) ≡ cstr (take k xs)
unfolding cstr take
cstr-set [] k h = absurd (omega arith)
cstr-set (x ∷ xs) zero h = refl
cstr-set (x ∷ xs) (suc k) h = ap (λ t. if x == 0 then [] else x ∷ t) (cstr-set xs k (omega arith))

-- After a read of a message without a NUL, of at most the length asked for, that returns that
-- length, if it is not 0: a child of the consumer, whose buffer is one byte longer, prints the
-- message and then what its memory held behind it, up to a NUL or the end of what was asked for.
pub print_read-stale :
    (memory m : List ℕ) (len : ℕ)
    → All (λ c. c ≢ 0) m
    → 0 < len
    → length m ≤ len
    → length memory ≡ suc len
    → print_read memory (some len) m
      ≡ text (m ++ cstr (take (len - length m) (drop (length m) memory)))
unfolding print_read
print_read-stale memory m len plain pos fits sized =
    let rest = drop (length m) memory in
    let printed : cstr (set (filled memory m) len 0) ≡ m ++ cstr (take (len - length m) rest) =
      ap cstr (set-append m rest len (len - length m) (omega arith))
      ∙ cstr-append m (set rest (len - length m) 0) plain
      ∙ ap (λ t. m ++ t)
          (cstr-set rest (len - length m) (omega (arith, length-drop (length m) memory))) in
    ground (arith, printed)
