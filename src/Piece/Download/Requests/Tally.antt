-- ===== src/Piece/Download/Requests/Tally.antt =====
-- internal/piece/downloader.go: the counts of blocks that are outstanding or free.
use sid_torrent.Prelude.{
  ℕ, zero, suc, ◌+◌, ◌<◌, ◌≤◌, ◌≡◌, ◌≢◌, refl, ap, Bool, true, false, not, ◌||◌, Bool-cases, inl,
  inr, none, List, [], ◌∷◌, arith, ◌==◌, if◌then◌else◌, length, set, get_or,
}
use sid_torrent.Prelude.Int.{ℤ}
use sid_torrent.Piece.Assembler.{PieceAssembler, next_missing_block}
use sid_torrent.Piece.Assembler.Blocks.{IsValid, IsNextBlock, next_missing_block-none}
use sid_torrent.Piece.Download.{tally, is_outstanding, outstanding}

module _ {ℓ} {A : Type ℓ} where
  pub get_or-set_self :
      (xs : List A) (k : ℕ) (v d : A) → k < length xs → get_or (set xs k v) k d ≡ v
  get_or-set_self [] k v d h = absurd (omega arith)
  get_or-set_self (x ∷ xs) zero v d h = refl
  get_or-set_self (x ∷ xs) (suc k) v d h = get_or-set_self xs k v d (omega arith)

  pub get_or-set_ne :
      (xs : List A) (k j : ℕ) (v d : A) → k ≢ j → get_or (set xs k v) j d ≡ get_or xs j d
  get_or-set_ne [] k j v d ne = refl
  get_or-set_ne (x ∷ xs) zero zero v d ne = absurd (ne refl)
  get_or-set_ne (x ∷ xs) zero (suc j) v d ne = refl
  get_or-set_ne (x ∷ xs) (suc k) zero v d ne = refl
  get_or-set_ne (x ∷ xs) (suc k) (suc j) v d ne = get_or-set_ne xs k j v d (λ e. ne (ap suc e))

abbrev pub weight : Bool → ℕ
weight b = if b then 1 else 0

module _ (test : Bool → Bool → Bool) (rs qs : List Bool) where
  tally-mark_before :
      (k i left : ℕ) → k < i → tally test rs (set qs k true) i left ≡ tally test rs qs i left
  unfolding tally
  tally-mark_before k i zero lt = refl
  tally-mark_before k i (suc left) lt =
      let other : k ≢ i = omega arith in
      rw (get_or-set_ne qs k i true false other, tally-mark_before k (suc i) left (omega arith))

  -- What a new request changes in a count.
  pub tally-mark :
      (k i left : ℕ)
      → i ≤ k
      → k < i + left
      → k < length qs
      → tally test rs (set qs k true) i left + weight (test (get_or rs k false) (get_or qs k false))
        ≡ tally test rs qs i left + weight (test (get_or rs k false) true)
  unfolding tally
  tally-mark k i zero lo hi lt = absurd (omega arith)
  tally-mark k i (suc left) lo hi lt = elim (Bool-cases (i == k)) [
    | inl e ↦
        let same : i ≡ k = ground arith in
        rw same (
          rw (get_or-set_self qs k true false lt, tally-mark_before k (suc k) left (omega arith))
            (ground arith))
    | inr ne ↦
        let other : k ≢ i = ground arith in
        rw (get_or-set_ne qs k i true false other)
          (ground (arith, tally-mark k (suc i) left (ground arith) (omega arith) lt))
  ]

-- A request makes one more block outstanding.
pub outstanding-next :
    (pa : PieceAssembler) {offset : ℕ} {size : ℤ} {k : ℕ}
    → IsValid pa
    → IsNextBlock pa offset size k
    → outstanding (next_missing_block pa).0 ≡ outstanding pa + 1
unfolding outstanding
outstanding-next pa {k = k} v b =
    let mark =
      tally-mark is_outstanding pa.received pa.requested k 0 pa.total_blocks (omega arith)
        (omega (arith, b.in_range)) (omega (arith, b.in_range, v.requested_size)) in
    rw b.marks (ground (arith, mark, b.free))

abbrev pub is_free : Bool → Bool → Bool
is_free received requested = not (received || requested)

-- How many blocks are neither received nor requested.
unfoldable pub free : PieceAssembler → ℕ
free pa = tally is_free pa.received pa.requested 0 pa.total_blocks

pub free-next :
    (pa : PieceAssembler) {offset : ℕ} {size : ℤ} {k : ℕ}
    → IsValid pa
    → IsNextBlock pa offset size k
    → free (next_missing_block pa).0 + 1 ≡ free pa
unfolding free
free-next pa {k = k} v b =
    let mark =
      tally-mark is_free pa.received pa.requested k 0 pa.total_blocks (omega arith)
        (omega (arith, b.in_range)) (omega (arith, b.in_range, v.requested_size)) in
    rw b.marks (ground (arith, mark, b.free))

pub tally-zero :
    (test : Bool → Bool → Bool) (rs qs : List Bool) (i left : ℕ)
    → ((j : ℕ) → i ≤ j → j < i + left → test (get_or rs j false) (get_or qs j false) ≡ false)
    → tally test rs qs i left ≡ 0
unfolding tally
tally-zero test rs qs i zero h = refl
tally-zero test rs qs i (suc left) h =
    rw (h i (omega arith) (omega arith))
      (tally-zero test rs qs (suc i) left (λ j lo hi. h j (omega arith) (omega arith)))

pub free-none : (pa : PieceAssembler) → (next_missing_block pa).1 ≡ none → free pa ≡ 0
unfolding free
free-none pa h =
    tally-zero is_free pa.received pa.requested 0 pa.total_blocks
      (λ j lo hi. let (busy, _) = next_missing_block-none pa j h (omega arith) in rw busy)
