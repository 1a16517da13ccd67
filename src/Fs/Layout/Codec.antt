-- ===== src/Fs/Layout/Codec.antt =====
-- Little-endian integers and arrays of fixed-size records, as fsx492.h's structures lie in a block.
use cs.Common.{
  ℕ, zero, suc, ◌+◌, ◌*◌, ◌/◌, ◌%◌, ◌<◌, ◌^◌, ◌≡◌, refl, List, [], ◌∷◌, ◌++◌, arith, length, get_or,
  drop, drop-append, append_assoc, length-append,
}

-- The bytes of a `uint16_t` and of a `uint32_t`.
unfoldable pub le16 : ℕ → List ℕ
le16 w = w % 256 ∷ w / 256 % 256 ∷ []

unfoldable pub le32 : ℕ → List ℕ
le32 w = w % 256 ∷ w / 256 % 256 ∷ w / 65536 % 256 ∷ w / 16777216 % 256 ∷ []

unfoldable pub read16 : List ℕ → ℕ
read16 bytes = get_or bytes 0 0 + 256 * get_or bytes 1 0

unfoldable pub read32 : List ℕ → ℕ
read32 bytes =
    get_or bytes 0 0
    + 256 * get_or bytes 1 0
    + 65536 * get_or bytes 2 0
    + 16777216 * get_or bytes 3 0

pub read16-le16 : (w : ℕ) (rest : List ℕ) → w < 2 ^ 16 → read16 (le16 w ++ rest) ≡ w
unfolding read16 le16
read16-le16 w rest h = omega arith

pub read32-le32 : (w : ℕ) (rest : List ℕ) → w < 2 ^ 32 → read32 (le32 w ++ rest) ≡ w
unfolding read32 le32
read32-le32 w rest h = omega arith

-- An array is its elements' bytes one after another; `size` is one element's.
module _ {A : Type 0} where
  unfoldable pub encode_array : (A → List ℕ) → List A → List ℕ
  encode_array enc [] = []
  encode_array enc (a ∷ as') = enc a ++ encode_array enc as'

  unfoldable pub decode_array : (List ℕ → A) → ℕ → ℕ → List ℕ → List A
  decode_array dec size zero bytes = []
  decode_array dec size (suc n) bytes = dec bytes ∷ decode_array dec size n (drop size bytes)

pub length-decode_array :
    {A : Type 0} (dec : List ℕ → A) (size n : ℕ) (bytes : List ℕ)
    → length (decode_array dec size n bytes) ≡ n
unfolding decode_array
length-decode_array dec size zero bytes = refl
length-decode_array dec size (suc n) bytes =
    omega (arith, length-decode_array dec size n (drop size bytes))

-- A predicate on every element.
abbrev pub All : {A : Type 0} → (A → Type 0) → List A → Type 0
All P [] = Unit
All P (x ∷ xs) = P x × All P xs

pub All-map :
    {A : Type 0} {P Q : A → Type 0} (xs : List A) → ((q : A) → P q → Q q) → All P xs → All Q xs
All-map [] f all = tt
All-map (x ∷ xs) f all = (f x all.0, All-map xs f all.1)

-- What an element's coding has to satisfy for arrays of it to be read back.
pub record IsCodec {A : Type 0} (Fits : A → Type 0) (enc : A → List ℕ) (dec : List ℕ → A) (size : ℕ)
    : Type 0 where
  pub sized : (a : A) → Fits a → length (enc a) ≡ size
  pub read_back : (a : A) (rest : List ℕ) → Fits a → dec (enc a ++ rest) ≡ a

module _ {A : Type 0} (Fits : A → Type 0) (enc : A → List ℕ) (dec : List ℕ → A) (size : ℕ)
    (c : IsCodec Fits enc dec size) where
  pub length-encode_array :
      (xs : List A) → All Fits xs → length (encode_array enc xs) ≡ length xs * size
  unfolding encode_array
  length-encode_array [] h = omega arith
  length-encode_array (x ∷ xs) h = omega (
    arith,
    length-append (enc x) (encode_array enc xs),
    c.sized x h.0,
    length-encode_array xs h.1,
  )

  pub decode-encode_array :
      (xs : List A) (rest : List ℕ) (n : ℕ)
      → All Fits xs
      → length xs ≡ n
      → decode_array dec size n (encode_array enc xs ++ rest) ≡ xs
  unfolding encode_array decode_array
  decode-encode_array [] rest zero h e = refl
  decode-encode_array [] rest (suc n) h e = absurd (omega arith)
  decode-encode_array (x ∷ xs) rest zero h e = absurd (omega arith)
  decode-encode_array (x ∷ xs) rest (suc n) h e = rw (
    append_assoc (enc x) (encode_array enc xs) rest,
    c.read_back x (encode_array enc xs ++ rest) h.0,
    drop-append (enc x) (encode_array enc xs ++ rest) size (c.sized x h.0),
    decode-encode_array xs rest n h.1 (omega arith),
  )

pub All-drop : {A : Type 0} (P : A → Type 0) (n : ℕ) (xs : List A) → All P xs → All P (drop n xs)
unfolding drop
All-drop P zero xs h = h
All-drop P (suc n) [] h = tt
All-drop P (suc n) (x ∷ xs) h = All-drop P n xs h.1
