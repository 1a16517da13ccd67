-- ===== src/Fifo/Ring.antt =====
-- The slots of the ring in rmiller-pa5/driver/scull.c, and what a slot holds.
use cs.Common.{
  ℕ, suc, ◌+◌, ◌-◌, ◌*◌, ◌≤◌, ◌<◌, ◌^◌, ◌≡◌, ◌≢◌, refl, ap, ◌∙◌, ◌⊎◌, inl, inr, List, [], arith,
  length, some, get_elem?, ltb, if◌then◌else◌, dec_lt,
}
use cs.Fs.Layout.Codec.{le32, read32, read32-le32}
use native.Mathlib.Nat.{mul-le-mul_left, mul-suc}
use cs.Fifo.{Fifo, load, overlay, slot_size, wrap}
use cs.Fifo.Memory.{load-overlay, load-overlay_apart}

-- The slot `k` places after slot `i` of a ring of `n`.
abbrev pub ahead : ℕ → ℕ → ℕ → ℕ
ahead n i k = if ltb (i + k) n then i + k else i + k - n

-- A slot lies inside the ring, and two slots do not overlap.
pub slot_inside : (w a n : ℕ) → a < n → w * a + w ≤ w * n
slot_inside w a n h =
    let step : suc a ≤ n = omega arith in omega (arith, mul-le-mul_left w step, mul-suc w a)

pub slots_apart : (w a b : ℕ) → a ≢ b → (w * a + w ≤ w * b) ⊎ (w * b + w ≤ w * a)
slots_apart w a b ne = elim (dec_lt a b) [
  | yes h ↦ inl (slot_inside w a b h)
  | no h ↦ inr (slot_inside w b a (omega arith))
]

-- Moving on from slot `a` ends at the next one, or at the first after the last.
pub wrap-slot :
    (f : Fifo) (a : ℕ)
    → a < f.size
    → wrap f (slot_size f * a + slot_size f) ≡ slot_size f * ahead f.size a 1
wrap-slot f a h = elim (dec_lt (a + 1) f.size) [
  | yes more ↦ let room = slot_inside (slot_size f) (a + 1) f.size more in ground (arith, room)
  | no last ↦ let e : f.size ≡ a + 1 = omega arith in rw e (ground arith)
]

-- The message that a slot at offset `p` holds.
pub record HasSlot (mem : ℕ → ℕ) (elemsz p : ℕ) (m : List ℕ) : Type 0 where
  pub len : read32 (load mem p 4) ≡ length m
  pub bytes : load mem (p + 4) (length m) ≡ m
  pub fits : length m ≤ elemsz

-- `f` holds the messages `q`, oldest first, from slot `i` on, and the semaphores count them.
pub record Holds (f : Fifo) (i : ℕ) (q : List (List ℕ)) : Type 0 where
  pub head : i < f.size
  pub small : f.elemsz < 2 ^ 31
  pub start_at : f.start ≡ slot_size f * i
  pub finish_at : f.finish ≡ slot_size f * ahead f.size i (length q)
  pub used : f.full ≡ length q
  pub free : f.full + f.empty ≡ f.size
  pub slots :
      (k : ℕ) (m : List ℕ)
      → get_elem? q k ≡ some m
      → HasSlot f.mem f.elemsz (slot_size f * ahead f.size i k) m

-- The memory after a message is stored at `p`.
abbrev pub with_message : (ℕ → ℕ) → ℕ → List ℕ → ℕ → ℕ
with_message mem p m = overlay (overlay mem p (le32 (length m))) (p + 4) m

-- The slot written holds the message.
pub HasSlot-new :
    (mem : ℕ → ℕ) (elemsz p : ℕ) (m : List ℕ)
    → length m ≤ elemsz
    → elemsz < 2 ^ 31
    → HasSlot (with_message mem p m) elemsz p m
unfolding le32
HasSlot-new mem elemsz p m fits small = record {
  len =
      ap read32 (
        load-overlay_apart (overlay mem p (le32 (length m))) (p + 4) m p 4 (inl (omega arith))
        ∙ load-overlay mem p (le32 (length m)) 4 refl)
      ∙ read32-le32 (length m) [] (omega arith);
  bytes = load-overlay (overlay mem p (le32 (length m))) (p + 4) m (length m) refl;
  fits = fits;
}

-- A load outside the slot written.
load_kept :
    (mem : ℕ → ℕ) (elemsz p : ℕ) (m : List ℕ) (a n : ℕ)
    → length m ≤ elemsz
    → a + n ≤ p ⊎ p + (4 + elemsz) ≤ a
    → load (with_message mem p m) a n ≡ load mem a n
unfolding le32
load_kept mem elemsz p m a n fits apart =
    load-overlay_apart (overlay mem p (le32 (length m))) (p + 4) m a n (omega arith)
    ∙ load-overlay_apart mem p (le32 (length m)) a n (omega arith)

-- Every other slot holds what it did.
pub HasSlot-kept :
    (mem : ℕ → ℕ) (elemsz p : ℕ) (m : List ℕ) (a : ℕ) (old : List ℕ)
    → length m ≤ elemsz
    → (a + (4 + elemsz) ≤ p) ⊎ (p + (4 + elemsz) ≤ a)
    → HasSlot mem elemsz a old
    → HasSlot (with_message mem p m) elemsz a old
HasSlot-kept mem elemsz p m a old fits apart h = record {
  len = ap read32 (load_kept mem elemsz p m a 4 fits (omega arith)) ∙ h.len;
  bytes = load_kept mem elemsz p m (a + 4) (length old) fits (omega (arith, h.fits)) ∙ h.bytes;
  fits = h.fits;
}
