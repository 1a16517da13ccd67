-- ===== src/Clients/Arguments.antt =====
-- parse_arguments of rmiller-pa5/src/producer.c and consumer.c, which are the same, and of
-- pa4/src/scull.c. `args` are the words behind the program's name; an int is its bit pattern.
use cs.Common.{ℕ, ◌^◌, Bool, ◌||◌, List, [], ◌∷◌, ltb, leb, ◌==◌, if◌then◌else◌}

-- The program ends with a status, or goes on with a command and the number entered for it.
pub data Parsed : Type 0 where
  exits : ℕ → Parsed
  accepted : (cmd : ℕ) → (number : ℕ) → Parsed

-- `argv[1][0]`
abbrev pub first_letter : List ℕ → ℕ
first_letter [] = 0
first_letter (c ∷ cs) = c

abbrev pub max_concurrency : ℕ
max_concurrency = 20

-- `g_concurrency < 1 || g_concurrency > MAX_CONCURRENCY`
abbrev pub out_of_range : ℕ → Bool
out_of_range v = leb (2 ^ 31) v || ltb v 1 || ltb max_concurrency v

-- The letter h is no case of the switch.
unfoldable pub concurrency : (List ℕ → ℕ) → List (List ℕ) → Parsed
concurrency atoi [] = exits 1
concurrency atoi (a ∷ rest) =
    if first_letter a == b'p'
    then (elim rest [
      | [] ↦ exits 1
      | v ∷ vs ↦ if out_of_range (atoi v) then exits 1 else accepted b'p' (atoi v)
    ])
    else exits 1

abbrev pub needs_number : ℕ → Bool
needs_number c = c == b'S' || c == b'T' || c == b'H' || c == b'X'

abbrev pub stands_alone : ℕ → Bool
stands_alone c = c == b'R' || c == b'G' || c == b'Q' || c == b'i' || c == b'p' || c == b't'

-- Without a number `g_quantum` is 0.
unfoldable pub quantum_command : (List ℕ → ℕ) → List (List ℕ) → Parsed
quantum_command atoi [] = exits 1
quantum_command atoi (a ∷ rest) =
    if needs_number (first_letter a)
    then (elim rest [ [] ↦ exits 1 | v ∷ vs ↦ accepted (first_letter a) (atoi v) ])
    else if stands_alone (first_letter a)
    then accepted (first_letter a) 0
    else if first_letter a == b'h'
    then exits 0
    else exits 1
