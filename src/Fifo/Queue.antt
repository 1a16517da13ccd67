-- ===== src/Fifo/Queue.antt =====
-- The ring of rmiller-pa5/driver/scull.c as a bounded queue of messages.
use cs.Common.{
  ℕ, zero, suc, ◌+◌, ◌-◌, ◌*◌, ◌≤◌, ◌<◌, ◌^◌, ◌≡◌, ◌≢◌, refl, sym, ap, ◌∙◌, subst, ◌⊎◌, inl, inr,
  List, [], ◌∷◌, ◌++◌, arith, length, some, get_elem?, ltb, if◌then◌else◌, true, false, dec_lt,
  take, append-nil, min, replicate, length-take, length-append,
}
use cs.Fs.Layout.Codec.{read32}
use cs.Fifo.{
  Fifo, Call, sleeps, returned, load, as_size, slot_size, max_offset, wrap, scull_read, scull_write,
  take_out, put_in, received,
}
use cs.Fifo.Ring.{
  ahead, slot_inside, slots_apart, wrap-slot, HasSlot, Holds, with_message, HasSlot-new,
  HasSlot-kept,
}

-- A call that nothing disturbs.
abbrev pub smooth : Call
smooth = record { interrupted = false; locked = true; uncopied = 0 }

take_ge : (xs : List ℕ) (n : ℕ) → length xs ≤ n → take n xs ≡ xs
unfolding take
take_ge [] zero h = refl
take_ge [] (suc n) h = refl
take_ge (x ∷ xs) zero h = absurd (omega arith)
take_ge (x ∷ xs) (suc n) h = ap (λ t. x ∷ t) (take_ge xs n (omega arith))

take-load : (mem : ℕ → ℕ) (p n c : ℕ) → c ≤ n → take c (load mem p n) ≡ load mem p c
unfolding take load
take-load mem p n zero h = refl
take-load mem p zero (suc c) h = absurd (omega arith)
take-load mem p (suc n) (suc c) h = ap (λ t. mem p ∷ t) (take-load mem (p + 1) n c (omega arith))

-- What the reader gets of a slot's message.
read_bytes :
    (mem : ℕ → ℕ) (elemsz p : ℕ) (m : List ℕ) (count : ℕ)
    → HasSlot mem elemsz p m
    → load mem (p + 4) (if ltb count (length m) then count else length m) ≡ take count m
read_bytes mem elemsz p m count h = elim (dec_lt count (length m)) [
  | yes less ↦
      let same = take-load mem (p + 4) (length m) count (omega arith) in
      let part : load mem (p + 4) count ≡ take count m = sym same ∙ ap (take count) h.bytes in
      ground (arith, part)
  | no all ↦ ground (arith, h.bytes, take_ge m count)
]

get_elem?-lt : (q : List (List ℕ)) (k : ℕ) {m : List ℕ} → get_elem? q k ≡ some m → k < length q
get_elem?-lt [] k e = absurd cc
get_elem?-lt (x ∷ q) zero e = omega arith
get_elem?-lt (x ∷ q) (suc k) e = omega (arith, get_elem?-lt q k e)

-- The FIFO after its oldest message is taken out.
abbrev pub popped : Fifo → Fifo
popped f = record f {
  start = wrap f (f.start + slot_size f);
  full = f.full - 1;
  empty = f.empty + 1;
}

popped-Holds :
    (f : Fifo) (i : ℕ) (m : List ℕ) (q : List (List ℕ))
    → Holds f i (m ∷ q)
    → Holds (popped f) (ahead f.size i 1) q
popped-Holds f i m q h =
    let room : suc (length q) ≤ f.size = omega (arith, h.used, h.free) in
    record {
      head = ground (arith, h.head);
      small = h.small;
      start_at = ap (λ p. wrap f (p + slot_size f)) h.start_at ∙ wrap-slot f i h.head;
      finish_at = h.finish_at ∙ ap (λ j. slot_size f * j) (ground (arith, h.head));
      used = omega (arith, h.used);
      free = omega (arith, h.used, h.free);
      slots = λ k m' e.
          subst (λ j. HasSlot f.mem f.elemsz (slot_size f * j) m')
            (ground (arith, h.head, get_elem?-lt q k e)) (h.slots (suc k) m' e);
    }

read_steps :
    (f : Fifo) (count : ℕ) (m got : List ℕ)
    → f.elemsz < 2 ^ 31
    → length m ≤ f.elemsz
    → f.start + 4 + f.elemsz ≤ max_offset f
    → f.full ≢ 0
    → read32 (load f.mem f.start 4) ≡ length m
    → load f.mem (f.start + 4) (if ltb count (length m) then count else length m) ≡ got
    → scull_read smooth count f
      ≡ returned (if ltb count (length m) then count else f.elemsz) got (popped f)
unfolding scull_read take_out as_size
read_steps f count m got small fits room used len bytes = rw len (ground (arith, bytes))

-- A read of a FIFO that holds messages takes the oldest one out and hands over its bytes, at most
-- `count` of them; it returns `count` if it is less than the message's length and else the element
-- size, whatever that length is;
-- the sizes stay.
pub read-Holds :
    (f : Fifo) (i count : ℕ) (m : List ℕ) (q : List (List ℕ))
    → Holds f i (m ∷ q)
    → (g : Fifo) × (scull_read smooth count f
        ≡ returned (if ltb count (length m) then count else f.elemsz) (take count m) g)
      × Holds g (ahead f.size i 1) q
      × (g.elemsz ≡ f.elemsz)
      × (g.size ≡ f.size)
read-Holds f i count m q h =
    let slot : HasSlot f.mem f.elemsz f.start m =
      subst (λ p. HasSlot f.mem f.elemsz p m)
        (ap (λ j. slot_size f * j) (ground (arith, h.head)) ∙ sym h.start_at) (h.slots 0 m refl) in
    (
      popped f,
      read_steps f count m (take count m) h.small slot.fits
          (omega (arith, h.start_at, slot_inside (slot_size f) i f.size h.head))
          (omega (arith, h.used)) slot.len (read_bytes f.mem f.elemsz f.start m count slot),
      popped-Holds f i m q h,
      refl,
      refl,
    )

-- The FIFO after a message is put in.
abbrev pub pushed : Fifo → List ℕ → Fifo
pushed f m = record f {
  mem = with_message f.mem f.finish m;
  finish = wrap f (f.finish + slot_size f);
  full = f.full + 1;
  empty = f.empty - 1;
}

-- What the slots hold of a queue with a new last message.
get_elem?-snoc :
    (q : List (List ℕ)) (x : List ℕ) (k : ℕ) {m : List ℕ}
    → get_elem? (q ++ (x ∷ [])) k ≡ some m
    → ((k ≡ length q) × (x ≡ m)) ⊎ (get_elem? q k ≡ some m)
get_elem?-snoc [] x zero e = inl (refl, cc)
get_elem?-snoc [] x (suc k) e = absurd cc
get_elem?-snoc (y ∷ q) x zero e = inr e
get_elem?-snoc (y ∷ q) x (suc k) e = elim (get_elem?-snoc q x k e) [
  | inl (at, same) ↦ inl (ap suc at, same)
  | inr old ↦ inr old
]

pub pushed-Holds :
    (f : Fifo) (i : ℕ) (m : List ℕ) (q : List (List ℕ))
    → Holds f i q
    → length q < f.size
    → length m ≤ f.elemsz
    → Holds (pushed f m) i (q ++ (m ∷ []))
pushed-Holds f i m q h room fits =
    let last = ahead f.size i (length q) in
    let place : last < f.size = ground (arith, h.head) in
    let one : length (q ++ (m ∷ [])) ≡ length q + 1 = length-append q (m ∷ []) in
    record {
      head = h.head;
      small = h.small;
      start_at = h.start_at;
      finish_at =
          ap (λ p. wrap f (p + slot_size f)) h.finish_at
          ∙ wrap-slot f last place
          ∙ ap (λ j. slot_size f * j) (ground (arith, h.head, one));
      used = omega (arith, h.used, one);
      free = omega (arith, h.used, h.free);
      slots = λ k m' e. elim (get_elem?-snoc q m k e) [
        | inl (at, same) ↦
            subst
              (λ x.
                HasSlot (with_message f.mem f.finish m) f.elemsz (slot_size f * ahead f.size i k) x)
              same
              (subst (λ p. HasSlot (with_message f.mem f.finish m) f.elemsz p m)
                (h.finish_at ∙ ap (λ t. slot_size f * ahead f.size i t) (sym at))
                (HasSlot-new f.mem f.elemsz f.finish m fits h.small))
        | inr old ↦
            let ne : ahead f.size i k ≢ last = ground (arith, h.head, get_elem?-lt q k old) in
            HasSlot-kept f.mem f.elemsz f.finish m (slot_size f * ahead f.size i k) m' fits
              (omega (arith, slots_apart (slot_size f) (ahead f.size i k) last ne, h.finish_at))
              (h.slots k m' old)
      ];
    }

received_all :
    (n : ℕ) (elemsz : ℕ) (bytes : List ℕ)
    → n ≡ (if ltb elemsz (length bytes) then elemsz else length bytes)
    → received smooth n bytes ≡ take elemsz bytes
unfolding received replicate
received_all n elemsz bytes e =
    let none_left : min n 0 ≡ 0 = omega arith in
    let whole : n - 0 ≡ n = omega arith in
    rw (none_left, whole)
      (append-nil (take n bytes) ∙ elim (dec_lt elemsz (length bytes)) [
        | yes long ↦ ap (λ t. take t bytes) (ground (arith, e))
        | no short ↦
            let all : n ≡ length bytes = ground (arith, e) in
            take_ge bytes n (omega arith) ∙ sym (take_ge bytes elemsz (omega arith))
      ])

write_steps :
    (f : Fifo) (bytes m : List ℕ)
    → (if ltb f.elemsz (length bytes) then f.elemsz else length bytes) ≡ length m
    → received smooth (length m) bytes ≡ m
    → f.finish + 4 + length m ≤ max_offset f
    → f.empty ≢ 0
    → scull_write smooth bytes f ≡ returned (length m) [] (pushed f m)
unfolding scull_write put_in
write_steps f bytes m count got room free = rw (count, got) (ground arith)

-- A write to a FIFO with a free slot puts in the bytes given, cut at the element size, as the
-- newest message, and returns their number; the sizes stay.
pub write-Holds :
    (f : Fifo) (i : ℕ) (bytes : List ℕ) (q : List (List ℕ))
    → Holds f i q
    → length q < f.size
    → (g : Fifo) × (scull_write smooth bytes f ≡ returned (length (take f.elemsz bytes)) [] g)
      × Holds g i (q ++ (take f.elemsz bytes ∷ []))
      × (g.elemsz ≡ f.elemsz)
      × (g.size ≡ f.size)
write-Holds f i bytes q h room =
    let m = take f.elemsz bytes in
    let sized : length m ≡ min f.elemsz (length bytes) = length-take f.elemsz bytes in
    let count : (if ltb f.elemsz (length bytes) then f.elemsz else length bytes) ≡ length m =
      ground (arith, sized) in
    let last = ahead f.size i (length q) in
    let place : last < f.size = ground (arith, h.head) in
    (
      pushed f m,
      write_steps f bytes m count (received_all (length m) f.elemsz bytes (sym count))
          (omega (arith, h.finish_at, sized, slot_inside (slot_size f) last f.size place))
          (omega (arith, h.used, h.free)),
      pushed-Holds f i m q h room (omega (arith, sized)),
      refl,
      refl,
    )

-- A reader of an empty FIFO waits.
pub read-Holds_empty : (f : Fifo) (i count : ℕ) → Holds f i [] → scull_read smooth count f ≡ sleeps
unfolding scull_read
read-Holds_empty f i count h =
    let room : f.start + 4 ≤ max_offset f =
      omega (arith, h.start_at, slot_inside (slot_size f) i f.size h.head) in
    ground (arith, h.used, room)

-- A writer to a full one waits.
pub write-Holds_full :
    (f : Fifo) (i : ℕ) (bytes : List ℕ) (q : List (List ℕ))
    → Holds f i q
    → length q ≡ f.size
    → scull_write smooth bytes f ≡ sleeps
unfolding scull_write
write-Holds_full f i bytes q h e =
    let none_free : f.empty ≡ 0 = omega (arith, h.used, h.free, e) in ground (arith, none_free)
