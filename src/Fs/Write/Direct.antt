-- ===== src/Fs/Write/Direct.antt =====
-- Overwriting the direct blocks of a file in pmeunier-project/fs.c: the bytes that are there after
-- fs_write_dir, and the blocks it leaves.
use cs.Common.{
  ℕ, zero, suc, ◌+◌, ◌-◌, ◌*◌, ◌≤◌, ◌<◌, ◌≡◌, ◌≢◌, refl, sym, ap, ap₂, ◌∙◌, List, [], ◌∷◌, ◌++◌,
  some, arith, length, take, drop, get_elem?, ◌==◌, if◌then◌else◌, dec_lt, append-nil, length-take,
  length-drop, take_all, drop_all, drop-append_over, drop-append_le, take-append-drop, append_assoc,
}
use cs.Device.{Device, block_size}
use cs.Device.Laws.{IsReady, overwrite_block}
use cs.Fs.Layout.{Inode}
use cs.Fs.Layout.Codec.{All, All-map}
use cs.Fs.Monad.{State, done}
use cs.Fs.Read.Laws.{HoldsData, contents}
use cs.Fs.Write.{write_direct}
use cs.Fs.Write.Laws.{over, length-over, over_block, write_none, write_more, write_last}

-- No block stands twice among the pointers.
abbrev pub Apart : ℕ → List ℕ → Type 0
Apart p = All (λ q. p ≢ q)

unfoldable pub Distinct : List ℕ → Type 0
Distinct [] = Unit
Distinct (p ∷ ps) = Apart p ps × Distinct ps

-- What an overwriting of blocks leaves: the blocks with the bytes over their first ones, and every
-- other block.
pub record Overwritten (s : State) (used : List ℕ) (buf : List ℕ) (disk : Device) : Type 0 where
  pub ready : IsReady disk
  pub nblks : disk.nblks ≡ s.disk.nblks
  pub holds : contents disk.content used ≡ buf ++ drop (length buf) (contents s.disk.content used)
  pub blocks : All (HoldsData (record s { disk = disk })) used
  pub others : (b : ℕ) → Apart b used → disk.content b ≡ s.disk.content b

-- A copy that fills the block.
over_whole :
    (entries bytes : List ℕ)
    → length entries ≡ block_size
    → length bytes ≡ block_size
    → over entries bytes ≡ bytes
unfolding take
over_whole entries bytes whole full =
    ap (λ t. bytes ++ t) (drop_all entries (0 + length bytes) (omega arith)) ∙ append-nil bytes

-- The state after a copy to the start of block `p`.
abbrev copied : State → ℕ → List ℕ → State
copied s p bytes = record s { disk = over_block s.disk p bytes }

module _ (s : State) (p : ℕ) (bytes : List ℕ) (h : HoldsData s p)
    (small : length bytes ≤ block_size) where
  copied_content :
      (b : ℕ)
      → (copied s p bytes).disk.content b
        ≡ (if p == b then over (s.disk.content p) bytes else s.disk.content b)
  copied_content b =
      overwrite_block s.disk.content p b (over (s.disk.content p) bytes)
        (length-over (s.disk.content p) bytes h.whole small)

  copied_at : (copied s p bytes).disk.content p ≡ over (s.disk.content p) bytes
  copied_at = ground (arith, copied_content p)

  copied_ne : (b : ℕ) → p ≢ b → (copied s p bytes).disk.content b ≡ s.disk.content b
  copied_ne b ne = ground (arith, copied_content b)

  copied-HoldsData : (q : ℕ) → HoldsData s q → HoldsData (copied s p bytes) q
  copied-HoldsData q g = record {
    real = g.real;
    inside = g.inside;
    whole =
        ground
          (arith, copied_content q, g.whole, length-over (s.disk.content p) bytes h.whole small);
  }

pub contents_same :
    (f g : ℕ → List ℕ) (used : List ℕ)
    → All (λ p. f p ≡ g p) used
    → contents f used ≡ contents g used
unfolding contents
contents_same f g [] all = refl
contents_same f g (p ∷ used) all = ap₂ (λ x y. x ++ y) all.0 (contents_same f g used all.1)

-- A copy to one block leaves the contents of others.
copied_contents :
    (s : State) (p : ℕ) (bytes used : List ℕ)
    → HoldsData s p
    → length bytes ≤ block_size
    → Apart p used
    → contents (copied s p bytes).disk.content used ≡ contents s.disk.content used
copied_contents s p bytes used h small apart =
    contents_same (copied s p bytes).disk.content s.disk.content used
      (All-map used (λ q ne. copied_ne s p bytes h small q ne) apart)

unchanged :
    (s : State) (used : List ℕ)
    → IsReady s.disk
    → All (HoldsData s) used
    → Overwritten s used [] s.disk
unfolding drop
unchanged s used ready all = record {
  ready = ready;
  nblks = refl;
  holds = refl;
  blocks = all;
  others = λ b apart. refl;
}

-- One block, and then the blocks of the rest.
then_rest :
    (s : State) (p : ℕ) (used buf : List ℕ) {disk : Device}
    → HoldsData s p
    → Apart p used
    → block_size < length buf
    → Overwritten (copied s p (take block_size buf)) used (drop block_size buf) disk
    → Overwritten s (p ∷ used) buf disk
unfolding contents
then_rest s p used buf {disk} h apart more o =
    let bytes = take block_size buf in
    let full : length bytes ≡ block_size = omega (arith, length-take block_size buf) in
    let small : length bytes ≤ block_size = omega arith in
    let here : disk.content p ≡ bytes =
      o.others p apart
      ∙ copied_at s p bytes h small
      ∙ over_whole (s.disk.content p) bytes h.whole full in
    record {
      ready = o.ready;
      nblks = o.nblks;
      holds =
          ap₂ (λ x y. x ++ y) here
            (o.holds
              ∙ ap (λ c. drop block_size buf ++ drop (length (drop block_size buf)) c)
                  (copied_contents s p bytes used h small apart))
          ∙ sym (
              append_assoc bytes (drop block_size buf)
                (drop (length (drop block_size buf)) (contents s.disk.content used)))
          ∙ ap₂ (λ x y. x ++ y) (take-append-drop block_size buf)
              (sym (
                drop-append_over (s.disk.content p) (contents s.disk.content used) (length buf)
                  (length (drop block_size buf))
                  (omega (arith, h.whole, length-drop block_size buf))));
      blocks = (
        record {
          real = h.real;
          inside = omega (arith, h.inside, o.nblks);
          whole = ap (λ c. length c) here ∙ full;
        },
        o.blocks,
      );
      others = λ b out. o.others b out.1 ∙ copied_ne s p bytes h small b (λ e. out.0 (sym e));
    }

last_block :
    (s : State) (p : ℕ) (used buf : List ℕ)
    → IsReady s.disk
    → All (HoldsData s) (p ∷ used)
    → Apart p used
    → length buf ≤ block_size
    → Overwritten s (p ∷ used) buf (over_block s.disk p buf)
unfolding contents take
last_block s p used buf ready all apart small =
    let zero_more : 0 + length buf ≡ length buf = omega arith in
    let at_p = copied_at s p buf all.0 small in
    let sized = length-over (s.disk.content p) buf all.0.whole small in
    record {
      ready = record {
        available = ready.available;
        complete = ready.complete;
        small = ready.small;
      };
      nblks = refl;
      holds =
          ap₂ (λ x y. x ++ y) at_p (copied_contents s p buf used all.0 small apart)
          ∙ append_assoc buf (drop (0 + length buf) (s.disk.content p))
              (contents s.disk.content used)
          ∙ ap (λ c. buf ++ c)
              (sym (
                drop-append_le (0 + length buf) (s.disk.content p) (contents s.disk.content used)
                  (omega (arith, all.0.whole))))
          ∙ ap (λ n. buf ++ drop n (s.disk.content p ++ contents s.disk.content used)) zero_more;
      blocks = All-map (p ∷ used) (copied-HoldsData s p buf all.0 small) all;
      others = λ b out. copied_ne s p buf all.0 small b (λ e. out.0 (sym e));
    }

pub drop_next :
    (k : ℕ) (xs ys : List ℕ) {p : ℕ}
    → drop k xs ≡ p ∷ ys
    → (get_elem? xs k ≡ some p) × (drop (k + 1) xs ≡ ys)
unfolding drop
drop_next zero [] ys e = absurd cc
drop_next zero (x ∷ xs) ys e = (cc, cc)
drop_next (suc k) [] ys e = absurd cc
drop_next (suc k) (x ∷ xs) ys e =
    let next : suc k + 1 ≡ suc (k + 1) = omega arith in rw next (drop_next k xs ys e)

-- The rounds of fs_write_dir.
pub rounds_lem :
    (s : State) (inum k r : ℕ) (used rest buf : List ℕ) (n : ℕ) {v : Inode}
    → get_elem? s.inodes inum ≡ some v
    → drop k v.direct ≡ used ++ rest
    → IsReady s.disk
    → All (HoldsData s) used
    → Distinct used
    → length used ≤ r
    → length buf ≡ n
    → n ≤ block_size * length used
    → (disk : Device) × (write_direct r inum k buf n 0 s ≡ done 0 (record s { disk = disk }))
      × Overwritten s used buf disk
unfolding Distinct
rounds_lem s inum k r used rest [] zero held at ready all apart enough sized room =
    (s.disk, write_none r inum k [] 0 s, unchanged s used ready all)
rounds_lem s inum k r used rest (b ∷ buf) zero held at ready all apart enough sized room =
    absurd (omega arith)
rounds_lem s inum k r [] rest buf (suc n) held at ready all apart enough sized room =
    absurd (omega arith)
rounds_lem s inum k zero (p ∷ used) rest buf (suc n) held at ready all apart enough sized room =
    absurd (omega arith)
rounds_lem s inum k (suc r) (p ∷ used) rest buf (suc n) held at ready all apart enough sized room =
    let (here, next) = drop_next k _ _ at in
    elim (dec_lt block_size (suc n)) [
      | yes more ↦
          (let bytes = take block_size buf in
            let small : length bytes ≤ block_size = omega (arith, length-take block_size buf) in
            let (disk, run, o) =
              rounds_lem (copied s p bytes) inum (k + 1) r used rest (drop block_size buf)
                (suc n - block_size) held next
                (record {
                  available = ready.available;
                  complete = ready.complete;
                  small = ready.small;
                })
                (All-map used (copied-HoldsData s p bytes all.0 small) all.1) apart.1 (omega arith)
                (omega (arith, length-drop block_size buf)) (omega arith) in
            (
              disk,
              write_more s (record s { disk = disk }) r inum k p (suc n) buf held here ready all.0
                  more sized run,
              then_rest s p used buf all.0 apart.0 (omega arith) o,
            ))
      | no last ↦ (
        over_block s.disk p buf,
        write_last s r inum k p (suc n) buf held here ready all.0 (omega arith) (omega arith) sized
            ∙ ap (λ t. done 0 (copied s p t)) (take_all buf (suc n) sized),
        last_block s p used buf ready all apart.0 (omega arith),
      )
    ]
