-- ===== src/Torrent/Pieces/Layout.antt =====
-- internal/torrent/pieces.go: `PieceCount` and `PieceLengthAt` together.
use sid_torrent.Prelude.{
  ℕ, zero, suc, ◌+◌, ◌-◌, ◌*◌, ◌/◌, ◌%◌, ◌≤◌, ◌<◌, ◌≡◌, sym, ◌∙◌, ◌↔◌, Bool, Bool-cases, ==_iff,
  inl, inr, true, false, some, arith, leb, ◌==◌, if◌then◌else◌,
}
use native.Mathlib.Nat.{div-add-mod', mod-lt, mul-le-mul_right}
use sid_torrent.Prelude.Int.{ℤ, pos, negsuc, ◌+ℤ◌, pos_part, ◌≤ℤ◌}
use sid_torrent.Torrent.Pieces.{
  LengthError, LengthResult, ok, failed, piece_count, piece_length_at, file_piece_length_at,
}

-- The number of pieces of a torrent of `t` bytes, rounded up.
abbrev pub count_of : ℕ → ℕ → ℕ
count_of t s = if (t % s) == 0 then t / s else t / s + 1

pub piece_count-pos : (t s : ℕ) → 0 < s → piece_count (pos t) (pos s) ≡ some (pos (count_of t s))
unfolding piece_count
piece_count-pos t s h = ground arith

-- What the quotient and the remainder say of the products that the layout uses.
division :
    (t s i : ℕ)
    → 0 < s
    → (t ≡ (t / s) * s + t % s)
      × (t % s < s)
      × (i < t / s → suc i * s ≤ t)
      × (t / s ≤ i → t < suc i * s)
division t s i h = (
  sym (div-add-mod' t s),
  mod-lt t h,
  λ below. omega (arith, div-add-mod' t s, mul-le-mul_right s below),
  λ above. omega (arith, div-add-mod' t s, mul-le-mul_right s above, mod-lt t h),
)

pub piece_length_at-pos :
    (t s i : ℕ)
    → 0 < t
    → 0 < s
    → piece_length_at (pos t) (pos s) (pos i) ≡ (
        if leb (count_of t s) i
        then failed LengthError.out_of_range
        else ok (pos (if leb (suc i * s) t then s else t - i * s)))
unfolding piece_length_at
piece_length_at-pos t s i ht hs = let (a, b, c, d) = division t s i hs in ground arith

leb-false : (a b : ℕ) → leb a b ≡ false → b < a
leb-false a b h = ground arith

zero_test : (r : ℕ) → (r == 0) ≡ false → 0 < r
zero_test r h = ground arith

count_of_cover : (t s : ℕ) → 0 < s → (t ≤ count_of t s * s) × (count_of t s * s < t + s)
count_of_cover t s h = elim (Bool-cases ((t % s) == 0)) [
  | inl e ↦
      let z = (==_iff (t % s) 0).0 e in
      rw e (omega (arith, division t s 0 h), omega (arith, division t s 0 h))
  | inr e ↦ rw e (
    omega (arith, division t s 0 h, zero_test (t % s) e),
    omega (arith, division t s 0 h, zero_test (t % s) e),
  )
]

unfoldable pub accepts : LengthResult → Bool
accepts (ok n) = true
accepts (failed e) = false

-- For a torrent and a piece length of at least one byte, `PieceLengthAt` accepts exactly the
-- indices from 0 up to, and not including, `PieceCount`.
pub piece_length_at-accepts :
    (total standard index count : ℤ)
    → pos 1 ≤ℤ total
    → pos 1 ≤ℤ standard
    → piece_count total standard ≡ some count
    → (accepts (piece_length_at total standard index) ≡ true)
      ↔ ((pos 0 ≤ℤ index) × (index +ℤ pos 1 ≤ℤ count))
unfolding accepts
piece_length_at-accepts (negsuc t) _ _ _ ht hs h = absurd (omega arith)
piece_length_at-accepts (pos t) (negsuc s) _ _ ht hs h = absurd (omega arith)
piece_length_at-accepts (pos t) (pos s) (negsuc i) count ht hs h =
    unfold piece_length_at in ground arith
piece_length_at-accepts (pos t) (pos s) (pos i) count ht hs h =
    let c = piece_count-pos t s (omega arith) in
    let e = piece_length_at-pos t s i (omega arith) (omega arith) in ground (arith, c, e)

-- The bytes of the first `k` pieces.
unfoldable pub sum_lengths : ℕ → ℕ → ℕ → ℕ
sum_lengths t s zero = 0
sum_lengths t s (suc k) =
    sum_lengths t s k + pos_part (file_piece_length_at (pos t) (pos s) (pos k))

sum_lengths_lem :
    (t s k : ℕ)
    → 0 < t
    → 0 < s
    → k ≤ count_of t s
    → sum_lengths t s k ≡ (if leb (k * s) t then k * s else t)
unfolding sum_lengths file_piece_length_at
sum_lengths_lem t s zero ht hs h = ground arith
sum_lengths_lem t s (suc k) ht hs h =
    let before = sum_lengths_lem t s k ht hs (omega arith) in
    let here = piece_length_at-pos t s k ht hs in
    let cover = count_of_cover t s hs in ground (arith, before, here)

pos_count : (a b : ℕ) → some (pos a) ≡ some (pos b) → a ≡ b
pos_count a b h = cc

whole : (t c : ℕ) → t ≤ c → (if leb c t then c else t) ≡ t
whole t c h = ground arith

-- The lengths of all pieces of a torrent, as `PieceLengthAt` gives them, sum to its length.
pub sum_lengths-count :
    (t s count : ℕ)
    → 0 < t
    → 0 < s
    → piece_count (pos t) (pos s) ≡ some (pos count)
    → sum_lengths t s count ≡ t
sum_lengths-count t s count ht hs h =
    let cover = count_of_cover t s hs in
    let e : count_of t s ≡ count =
      pos_count (count_of t s) count (sym (piece_count-pos t s hs) ∙ h) in
    let all = sum_lengths_lem t s (count_of t s) ht hs (omega arith) in
    rw (← e) (all ∙ whole t (count_of t s * s) (cover.0))

below_count : (t s i : ℕ) → 0 < s → leb (count_of t s) i ≡ false → i * s < t
below_count t s i h e =
    let lt = leb-false (count_of t s) i e in
    omega (arith, count_of_cover t s h, mul-le-mul_right s lt)

-- Every accepted piece of a torrent of at least one byte is not empty, is at most the piece length,
-- and ends within the torrent.
pub piece_length_at-bounds :
    (t s i : ℕ) {n : ℤ}
    → 0 < t
    → 0 < s
    → piece_length_at (pos t) (pos s) (pos i) ≡ ok n
    → (1 ≤ pos_part n) × (pos_part n ≤ s) × (i * s + pos_part n ≤ t) × (n ≡ pos (pos_part n))
piece_length_at-bounds t s i ht hs h =
    let shape = piece_length_at-pos t s i ht hs in let cover = below_count t s i hs in ground arith
