-- ===== src/Api/Stream/Reading.antt =====
-- internal/api/server.go: the pieces that `Read` asks for first, and the place of the reader.
use sid_torrent.Prelude.{
  ℕ, zero, suc, ◌+◌, ◌-◌, ◌*◌, ◌/◌, ◌<◌, ◌≤◌, ◌≡◌, ◌↔◌, inl, inr, ◌∙◌, true, ◌&&◌, Bool-cases, List,
  [], arith, leb, ltb, ◌==◌, if◌then◌else◌,
}
use sid_torrent.Prelude.Keys.{has, insert, has-insert}
use native.Mathlib.Nat.{le-div_iff_mul-le, div-eq_of_lt-le, div-mul-le_self, add-mul}
use native.Mathlib.Decide.{dec_lt}
use sid_torrent.Piece.Manager.{PieceManager, keep_in_range, set_priority_pieces}
use sid_torrent.Api.Stream.{StreamingReader, wants, wanted, indices_from, prioritize, start_read}

has-kept :
    (total i p : ℕ) (kept : List ℕ)
    → has p (if ltb i total then insert i kept else kept)
      ≡ (if (i == p) && ltb i total then true else has p kept)
has-kept total i p kept = elim (Bool-cases (ltb i total)) [
  | inl within ↦ rw within (ground (arith, has-insert p i kept))
  | inr beyond ↦ rw beyond (ground arith)
]

-- What is kept of a run of indices.
keep_in_range-indices_from :
    (total i left p : ℕ) (kept : List ℕ)
    → has p (keep_in_range total (indices_from i left) kept)
      ≡ (if leb i p && (ltb p (i + left) && ltb p total) then true else has p kept)
unfolding keep_in_range indices_from
keep_in_range-indices_from total i zero p kept = ground arith
keep_in_range-indices_from total i (suc left) p kept =
    let kept' = if ltb i total then insert i kept else kept in
    keep_in_range-indices_from total (suc i) left p kept' ∙ ground (arith, has-kept total i p kept)

has-prioritize :
    (pm : PieceManager) (first last p : ℕ)
    → first ≤ last
    → (has p (prioritize pm first last).priority_pieces ≡ true)
      ↔ ((first ≤ p) × (p ≤ last) × (p < pm.total_pieces))
unfolding prioritize set_priority_pieces
has-prioritize pm first last p le =
    ground (arith, keep_in_range-indices_from pm.total_pieces first (last + 1 - first) p [])

-- What is wanted lies in the file, and in the pieces from the first to the last.
pub record IsWindow (sr : StreamingReader) (n limit first last : ℕ) : Type 0 where
  pub some_byte : 1 ≤ limit
  pub fits_buffer : limit ≤ n
  pub within : sr.offset + limit ≤ sr.file_length
  pub its_first : first ≡ (sr.start_offset + sr.offset) / sr.piece_length
  pub its_last : last ≡ (sr.start_offset + sr.offset + limit - 1) / sr.piece_length

wanted-IsWindow :
    (sr : StreamingReader) (n : ℕ) {limit first last : ℕ}
    → wanted sr n ≡ wants limit first last
    → IsWindow sr n limit first last
unfolding wanted
wanted-IsWindow sr n h = ground arith

-- A place in the torrent lies in the piece `p` and among the wanted bytes.
abbrev pub IsWantedIn : StreamingReader → ℕ → ℕ → ℕ → Type 0
IsWantedIn sr limit p b =
    (sr.start_offset + sr.offset ≤ b)
    × (b < sr.start_offset + sr.offset + limit)
    × (b / sr.piece_length ≡ p)

next_start : (p : ℕ) {k : ℕ} → 0 < k → p * k < (p + 1) * k
next_start p {k} positive = omega (arith, add-mul p 1 k)

div_mono : (k : ℕ) → 0 < k → {a b : ℕ} → a ≤ b → a / k ≤ b / k
div_mono k positive {a} le = (le-div_iff_mul-le positive).1 (omega (arith, div-mul-le_self a k, le))

its_order :
    (sr : StreamingReader) (n limit first last : ℕ)
    → 0 < sr.piece_length
    → IsWindow sr n limit first last
    → first ≤ last
its_order sr n limit first last positive w =
    let start = sr.start_offset + sr.offset in
    let le : start / sr.piece_length ≤ (start + limit - 1) / sr.piece_length =
      div_mono sr.piece_length positive (omega (arith, w.some_byte)) in
    omega (arith, w.its_first, w.its_last)

-- A piece from the first to the last has a wanted byte: the first of the window, or its own first.
wanted_byte :
    (sr : StreamingReader) (n limit first last p : ℕ)
    → IsWindow sr n limit first last
    → 0 < sr.piece_length
    → first ≤ p
    → p ≤ last
    → (b : ℕ) × IsWantedIn sr limit p b
wanted_byte sr n limit first last p w positive lo hi =
    let start = sr.start_offset + sr.offset in
    let k = sr.piece_length in
    elim (dec_lt start (p * k)) [
      | yes later ↦
          let reach : p * k ≤ start + limit - 1 =
            (le-div_iff_mul-le positive).0 (omega (arith, w.its_last)) in
          (
            p * k,
            (
              omega arith,
              omega (arith, w.some_byte),
              div-eq_of_lt-le k (omega arith) (next_start p positive),
            ),
          )
      | no here ↦
          let reach : p ≤ start / k = (le-div_iff_mul-le positive).1 (omega (arith, here)) in
          (start, (omega arith, omega (arith, w.some_byte), omega (arith, w.its_first)))
    ]

-- A wanted byte lies in a piece from the first to the last.
wanted_piece :
    (sr : StreamingReader) (n limit first last p : ℕ)
    → IsWindow sr n limit first last
    → 0 < sr.piece_length
    → (b : ℕ) → IsWantedIn sr limit p b
    → (first ≤ p) × (p ≤ last)
wanted_piece sr n limit first last p w positive b (lo, hi, at) =
    let k = sr.piece_length in
    let from : (sr.start_offset + sr.offset) / k ≤ b / k = div_mono k positive lo in
    let upto : b / k ≤ (sr.start_offset + sr.offset + limit - 1) / k =
      div_mono k positive (omega (arith, hi)) in
    (omega (arith, from, at, w.its_first), omega (arith, upto, at, w.its_last))

-- `Read` that wants bytes makes exactly the pieces of the torrent with a wanted byte the priority pieces.
pub start_read-priorities :
    (pm : PieceManager) (sr : StreamingReader) (n p : ℕ) {limit first last : ℕ}
    → 0 < sr.piece_length
    → wanted sr n ≡ wants limit first last
    → (has p (start_read pm (wanted sr n)).priority_pieces ≡ true)
      ↔ ((p < pm.total_pieces) × ((b : ℕ) × IsWantedIn sr limit p b))
unfolding start_read
start_read-priorities pm sr n p {limit} {first} {last} positive h =
    let w : IsWindow sr n limit first last = wanted-IsWindow sr n h in
    let kept = has-prioritize pm first last p (its_order sr n limit first last positive w) in
    rw h (
      (λ yes.
          let (lo, hi, within) = kept.0 yes in
          (within, wanted_byte sr n limit first last p w positive lo hi)),
      (λ (within, (b, at)).
          let (lo, hi) = wanted_piece sr n limit first last p w positive b at in
          kept.1 (lo, hi, within)),
    )
