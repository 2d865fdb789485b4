-- ===== src/Piece/Assembler/Blocks/Delivery.antt =====
-- internal/piece/assembler.go: blocks of the true piece, in the order in which peers deliver them.
use sid_torrent.Prelude.{
  ℕ, zero, suc, ◌+◌, ◌-◌, ◌/◌, ◌<◌, ◌≡◌, ◌⊎◌, inl, inr, refl, sym, ◌∙◌, ap, Bool, true, false, List,
  [], ◌∷◌, arith, length, set, get_or, replicate, get_elem?_beyond, list_ext,
}
use native.Mathlib.Decide.{dec_lt}
use sid_torrent.Piece.Assembler.{PieceAssembler, block_size, new_assembler, is_complete, all_true}
use sid_torrent.Piece.Assembler.Blocks.{new_assembler-IsValid}
unfoldable pub use sid_torrent.Piece.Assembler.Blocks.Agreement.{deliver, deliver_all}
pub use sid_torrent.Piece.Assembler.Blocks.Agreement.{Agrees, deliver-shape, deliver-Agrees}
use sid_torrent.Piece.Assembler.Blocks.Agreement.{all_true-get}

-- Indices of blocks of the piece.
abbrev pub AllBelow : List ℕ → ℕ → Type 0
AllBelow [] n = Unit
AllBelow (k ∷ ks) n = (k < n) × AllBelow ks n

deliver_all-Agrees :
    (whole : List ℕ) (pa : PieceAssembler) (ks : List ℕ)
    → Agrees whole pa
    → AllBelow ks pa.total_blocks
    → Agrees whole (deliver_all whole pa ks)
unfolding deliver_all
deliver_all-Agrees whole pa [] a h = a
deliver_all-Agrees whole pa (k ∷ ks) a (lt, h) =
    let e : (deliver whole pa k).total_blocks ≡ pa.total_blocks =
      ap (λ p. p.total_blocks) (deliver-shape whole pa k a.valid a.size lt) in
    deliver_all-Agrees whole (deliver whole pa k) ks (deliver-Agrees whole pa k a lt) (rw e h)

pub Agrees-content :
    (whole : List ℕ) (pa : PieceAssembler)
    → Agrees whole pa
    → is_complete pa ≡ true
    → pa.content ≡ whole
unfolding is_complete
Agrees-content whole pa a h =
    let v = a.valid in
    list_ext pa.content whole λ j. elim (dec_lt j pa.piece_size) [
      | yes lt ↦
          a.bytes j
            (all_true-get pa.received (j / block_size) h (omega (arith, v.blocks, v.received_size)))
      | no ge ↦
          get_elem?_beyond pa.content j (omega arith) ∙ sym (get_elem?_beyond whole j (omega arith))
    ]

get_or-replicate : (n j : ℕ) → get_or (replicate n false) j false ≡ false
get_or-replicate zero j = refl
get_or-replicate (suc n) zero = refl
get_or-replicate (suc n) (suc j) = get_or-replicate n j

pub new_assembler-Agrees :
    (whole : List ℕ) (index : ℕ) → Agrees whole (new_assembler index (length whole))
unfolding new_assembler
new_assembler-Agrees whole index = record {
  valid = new_assembler-IsValid index (length whole);
  size = refl;
  bytes = λ j h.
      cc (get_or-replicate ((length whole + block_size - 1) / block_size) (j / block_size), h);
}

-- Start with a new assembler for a piece, and deliver its blocks by `AddBlock` in any order, any
-- of them again and again: as soon as `IsComplete` says so, the data is the piece.
pub deliver_all-content :
    (whole : List ℕ) (index : ℕ) (ks : List ℕ)
    → AllBelow ks (new_assembler index (length whole)).total_blocks
    → is_complete (deliver_all whole (new_assembler index (length whole)) ks) ≡ true
    → (deliver_all whole (new_assembler index (length whole)) ks).content ≡ whole
deliver_all-content whole index ks below done =
    Agrees-content whole _ (deliver_all-Agrees whole _ ks (new_assembler-Agrees whole index) below)
      done

get_or-set_self : (bs : List Bool) (i : ℕ) → i < length bs → get_or (set bs i true) i false ≡ true
get_or-set_self [] i h = absurd (omega arith)
get_or-set_self (b ∷ bs) zero h = refl
get_or-set_self (b ∷ bs) (suc i) h = get_or-set_self bs i (omega arith)

pub get_or-set_keeps :
    (bs : List Bool) (i j : ℕ) → get_or bs j false ≡ true → get_or (set bs i true) j false ≡ true
get_or-set_keeps [] i j h = h
get_or-set_keeps (b ∷ bs) zero zero h = refl
get_or-set_keeps (b ∷ bs) zero (suc j) h = h
get_or-set_keeps (b ∷ bs) (suc i) zero h = h
get_or-set_keeps (b ∷ bs) (suc i) (suc j) h = get_or-set_keeps bs i j h

-- `k` is one of the blocks delivered.
abbrev pub In : ℕ → List ℕ → Type 0
In k [] = ⊥
In k (i ∷ is) = (i ≡ k) ⊎ In k is

pub all_true_from :
    (bs : List Bool) → ((j : ℕ) → j < length bs → get_or bs j false ≡ true) → all_true bs ≡ true
unfolding all_true
all_true_from [] h = refl
all_true_from (b ∷ bs) h =
    let first : b ≡ true = h 0 (omega arith) in
    rw first (all_true_from bs (λ j lt. h (suc j) (omega arith)))

module _ (whole : List ℕ) where
  deliver_all_marks :
      (pa : PieceAssembler) (ks : List ℕ) (k : ℕ)
      → Agrees whole pa
      → AllBelow ks pa.total_blocks
      → k < pa.total_blocks
      → (get_or pa.received k false ≡ true) ⊎ In k ks
      → (get_or (deliver_all whole pa ks).received k false ≡ true)
        × ((deliver_all whole pa ks).total_blocks ≡ pa.total_blocks)
  unfolding deliver_all
  deliver_all_marks pa [] k a below lt (inl h) = (h, refl)
  deliver_all_marks pa [] k a below lt (inr h) = absurd h
  deliver_all_marks pa (i ∷ is) k a (hi, below) lt h =
      let e = deliver-shape whole pa i a.valid a.size hi in
      let next = deliver-Agrees whole pa i a hi in
      let total : (deliver whole pa i).total_blocks ≡ pa.total_blocks =
        ap (λ p. p.total_blocks) e in
      let (m, t) =
        deliver_all_marks (deliver whole pa i) is k next (rw total below) (rw total lt) (mark h) in
      (m, t ∙ total)
    where
      mark :
          (get_or pa.received k false ≡ true) ⊎ ((i ≡ k) ⊎ In k is)
          → (get_or (deliver whole pa i).received k false ≡ true) ⊎ In k is
      mark (inr (inr later)) = inr later
      mark (inl before) = inl (
          rw (deliver-shape whole pa i a.valid a.size hi) (get_or-set_keeps pa.received i k before))
      mark (inr (inl now)) = inl (
          rw (deliver-shape whole pa i a.valid a.size hi, now)
            (get_or-set_self pa.received k (omega (arith, a.valid.received_size))))

deliver_all_total :
    (whole : List ℕ) (pa : PieceAssembler) (ks : List ℕ)
    → Agrees whole pa
    → AllBelow ks pa.total_blocks
    → (deliver_all whole pa ks).total_blocks ≡ pa.total_blocks
unfolding deliver_all
deliver_all_total whole pa [] a below = refl
deliver_all_total whole pa (i ∷ is) a (hi, below) =
    let total : (deliver whole pa i).total_blocks ≡ pa.total_blocks =
      ap (λ p. p.total_blocks) (deliver-shape whole pa i a.valid a.size hi) in
    deliver_all_total whole (deliver whole pa i) is (deliver-Agrees whole pa i a hi)
      (rw total below)
    ∙ total

-- And once every block of the piece has been delivered, `IsComplete` says so.
pub deliver_all-is_complete :
    (whole : List ℕ) (index : ℕ) (ks : List ℕ)
    → AllBelow ks (new_assembler index (length whole)).total_blocks
    → ((k : ℕ) → k < (new_assembler index (length whole)).total_blocks → In k ks)
    → is_complete (deliver_all whole (new_assembler index (length whole)) ks) ≡ true
unfolding is_complete
deliver_all-is_complete whole index ks below all =
    let start = new_assembler index (length whole) in
    let a = new_assembler-Agrees whole index in
    let end = deliver_all whole start ks in
    let size = (deliver_all-Agrees whole start ks a below).valid.received_size in
    let total = deliver_all_total whole start ks a below in
    all_true_from end.received λ j lt.
      let here : j < start.total_blocks = omega (arith, total, size) in
      (deliver_all_marks whole start ks j a below here (inr (all j here))).0
