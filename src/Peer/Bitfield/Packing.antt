-- ===== src/Peer/Bitfield/Packing.antt =====
-- A bitfield as the protocol packs it: the piece 0 in the high bit of the first byte, spare bits 0.
use sid_torrent.Prelude.{
  ℕ, zero, suc, ◌+◌, ◌-◌, ◌*◌, ◌/◌, ◌%◌, ◌^◌, ◌<◌, ◌≤◌, ◌≡◌, refl, sym, ◌∙◌, ap, Bool, true, false,
  not, none, some, List, [], ◌∷◌, arith, ◌==◌, length, get_or, get_elem?, get_elem?_beyond,
  list_ext,
}
use native.Mathlib.Decide.{dec_lt}
use sid_torrent.Prelude.Int.{pos}
use sid_torrent.Prelude.Bytes.{Bytes}
use sid_torrent.Peer.Bitfield.{has_bit, read_bits, parse_bitfield, validate_bitfield}

abbrev bit_value : Bool → ℕ
bit_value false = 0
bit_value true = 1

bit_value-le : (b : Bool) → bit_value b ≤ 1
bit_value-le false = omega arith
bit_value-le true = omega arith

module _ (bs : List Bool) where
  abbrev value_at : ℕ → ℕ
  value_at i = bit_value (get_or bs i false)

  -- The byte of the eight pieces from `i` on.
  unfoldable pub pack_byte : ℕ → ℕ
  pack_byte i =
      value_at i * 128
      + value_at (i + 1) * 64
      + value_at (i + 2) * 32
      + value_at (i + 3) * 16
      + value_at (i + 4) * 8
      + value_at (i + 5) * 4
      + value_at (i + 6) * 2
      + value_at (i + 7)

  unfoldable pub pack_from : ℕ → ℕ → Bytes
  pack_from i zero = []
  pack_from i (suc left) = pack_byte (8 * i) ∷ pack_from (suc i) left

  unfoldable pub pack : Bytes
  pack = pack_from 0 ((length bs + 7) / 8)

  length-pack_from : (i n : ℕ) → length (pack_from i n) ≡ n
  unfolding pack_from
  length-pack_from i zero = refl
  length-pack_from i (suc n) = ap suc (length-pack_from (suc i) n)

  get_or-pack_from : (i n k : ℕ) → k < n → get_or (pack_from i n) k 0 ≡ pack_byte (8 * (i + k))
  unfolding pack_from
  get_or-pack_from i zero k h = absurd (omega arith)
  get_or-pack_from i (suc n) zero h =
      let e : i ≡ i + 0 = omega arith in ap (λ t. pack_byte (8 * t)) e
  get_or-pack_from i (suc n) (suc k) h =
      let e : suc i + k ≡ i + suc k = omega arith in
      get_or-pack_from (suc i) n k (omega arith) ∙ ap (λ t. pack_byte (8 * t)) e

bit_of : (b : Bool) (v : ℕ) → v ≡ bit_value b → not (v == 0) ≡ b
bit_of false v h = ground arith
bit_of true v h = ground arith

-- The digits of a byte.
module _ (a b c d e f g h : ℕ) (ha : a ≤ 1) (hb : b ≤ 1) (hc : c ≤ 1) (hd : d ≤ 1) (he : e ≤ 1)
    (hf : f ≤ 1) (hg : g ≤ 1) (hh : h ≤ 1) where
  abbrev byte : ℕ
  byte = a * 128 + b * 64 + c * 32 + d * 16 + e * 8 + f * 4 + g * 2 + h

  digits :
      (byte / 2 ^ 7 % 2 ≡ a)
      × (byte / 2 ^ 6 % 2 ≡ b)
      × (byte / 2 ^ 5 % 2 ≡ c)
      × (byte / 2 ^ 4 % 2 ≡ d)
      × (byte / 2 ^ 3 % 2 ≡ e)
      × (byte / 2 ^ 2 % 2 ≡ f)
      × (byte / 2 ^ 1 % 2 ≡ g)
      × (byte / 2 ^ 0 % 2 ≡ h)
  digits = (
    omega arith,
    omega arith,
    omega arith,
    omega arith,
    omega arith,
    omega arith,
    omega arith,
    omega arith,
  )

module _ (bs : List Bool) where
  byte_digits :
      (P : (j : ℕ) → Type 0) → P 0 → P 1 → P 2 → P 3 → P 4 → P 5 → P 6 → P 7 → (j : ℕ) → j < 8 → P j
  byte_digits P a b c d e f g h zero lt = a
  byte_digits P a b c d e f g h (suc zero) lt = b
  byte_digits P a b c d e f g h (suc (suc zero)) lt = c
  byte_digits P a b c d e f g h (suc (suc (suc zero))) lt = d
  byte_digits P a b c d e f g h (suc (suc (suc (suc zero)))) lt = e
  byte_digits P a b c d e f g h (suc (suc (suc (suc (suc zero))))) lt = f
  byte_digits P a b c d e f g h (suc (suc (suc (suc (suc (suc zero)))))) lt = g
  byte_digits P a b c d e f g h (suc (suc (suc (suc (suc (suc (suc zero))))))) lt = h
  byte_digits P a b c d e f g h (suc (suc (suc (suc (suc (suc (suc (suc j)))))))) lt =
      absurd (omega arith)

  pack_byte-has_bit : (i j : ℕ) → j < 8 → has_bit (pack_byte bs i) (7 - j) ≡ get_or bs (i + j) false
  unfolding has_bit pack_byte
  pack_byte-has_bit i j h =
      let (a, b, c, d, e, f, g, l) =
        digits _ _ _ _ _ _ _ _ (bit_value-le (get_or bs i false))
          (bit_value-le (get_or bs (i + 1) false)) (bit_value-le (get_or bs (i + 2) false))
          (bit_value-le (get_or bs (i + 3) false)) (bit_value-le (get_or bs (i + 4) false))
          (bit_value-le (get_or bs (i + 5) false)) (bit_value-le (get_or bs (i + 6) false))
          (bit_value-le (get_or bs (i + 7) false)) in
      let z : i + 0 ≡ i = omega arith in
      bit_of (get_or bs (i + j) false) _ (
        byte_digits (λ k. pack_byte bs i / 2 ^ (7 - k) % 2 ≡ bit_value (get_or bs (i + k) false))
          (rw z a) b c d e f g l j h)

  length-read_bits : (content : Bytes) (i n : ℕ) → length (read_bits content i n) ≡ n
  unfolding read_bits
  length-read_bits content i zero = refl
  length-read_bits content i (suc n) = ap suc (length-read_bits content (suc i) n)

  get_elem?-read_bits :
      (content : Bytes) (i n j : ℕ)
      → j < n
      → get_elem? (read_bits content i n) j
        ≡ some (has_bit (get_or content ((i + j) / 8) 0) (7 - (i + j) % 8))
  unfolding read_bits
  get_elem?-read_bits content i zero j h = absurd (omega arith)
  get_elem?-read_bits content i (suc n) zero h = let e : i + 0 ≡ i = omega arith in rw e refl
  get_elem?-read_bits content i (suc n) (suc j) h =
      let e : suc i + j ≡ i + suc j = omega arith in
      rw (← e) (get_elem?-read_bits content (suc i) n j (omega arith))

get_elem?-get_or :
    (bs : List Bool) (j : ℕ) → j < length bs → get_elem? bs j ≡ some (get_or bs j false)
get_elem?-get_or [] j h = absurd (omega arith)
get_elem?-get_or (b ∷ bs) zero h = refl
get_elem?-get_or (b ∷ bs) (suc j) h = get_elem?-get_or bs j (omega arith)

get_or_beyond : (bs : List Bool) (j : ℕ) → length bs ≤ j → get_or bs j false ≡ false
get_or_beyond [] j h = refl
get_or_beyond (b ∷ bs) zero h = absurd (omega arith)
get_or_beyond (b ∷ bs) (suc j) h = get_or_beyond bs j (omega arith)

packed_bit :
    (bs : List Bool) (j : ℕ)
    → j < length bs
    → has_bit (get_or (pack bs) (j / 8) 0) (7 - j % 8) ≡ get_or bs j false
unfolding pack
packed_bit bs j h =
    let e : 8 * (0 + j / 8) + j % 8 ≡ j = omega arith in
    rw (get_or-pack_from bs 0 ((length bs + 7) / 8) (j / 8) (omega arith))
      (pack_byte-has_bit bs (8 * (0 + j / 8)) (j % 8) (omega arith) ∙ ap (λ t. get_or bs t false) e)

-- `ParseBitField` reads back every bitfield that is packed, whatever its number of pieces.
pub parse_bitfield-pack : (bs : List Bool) → parse_bitfield (pack bs) (length bs) ≡ some bs
unfolding parse_bitfield pack
parse_bitfield-pack bs =
    let fits : (length (pack_from bs 0 ((length bs + 7) / 8)) == (length bs + 7) / 8) ≡ true =
      ground (arith, length-pack_from bs 0 ((length bs + 7) / 8)) in
    rw fits (
      ap some (
        list_ext (read_bits (pack bs) 0 (length bs)) bs λ j. elim (dec_lt j (length bs)) [
          | yes lt ↦
              let z : 0 + j ≡ j = omega arith in
              get_elem?-read_bits bs (pack bs) 0 (length bs) j lt
              ∙ rw z (ap some (packed_bit bs j lt))
              ∙ sym (get_elem?-get_or bs j lt)
          | no ge ↦
              get_elem?_beyond _ j (omega (arith, length-read_bits bs (pack bs) 0 (length bs)))
              ∙ sym (get_elem?_beyond bs j (omega arith))
        ]))

-- The pieces beyond the last have no bit.
no_bit : (bs : List Bool) (j : ℕ) → length bs ≤ j → bit_value (get_or bs j false) ≡ 0
no_bit bs j h = rw (get_or_beyond bs j h)

-- The spare bits of the last byte are 0.
last_byte :
    (bs : List Bool) (q r : ℕ)
    → r < 8
    → 0 < r
    → length bs ≡ 8 * q + r
    → pack_byte bs (8 * q) % 2 ^ (8 - r) ≡ 0
unfolding pack_byte
last_byte bs q r lt =
    byte_digits bs (λ k. 0 < k → length bs ≡ 8 * q + k → pack_byte bs (8 * q) % 2 ^ (8 - k) ≡ 0)
      (λ p e. absurd (omega arith))
      (λ p e. omega (
        arith,
        no_bit bs (8 * q + 1) (omega arith),
        no_bit bs (8 * q + 2) (omega arith),
        no_bit bs (8 * q + 3) (omega arith),
        no_bit bs (8 * q + 4) (omega arith),
        no_bit bs (8 * q + 5) (omega arith),
        no_bit bs (8 * q + 6) (omega arith),
        no_bit bs (8 * q + 7) (omega arith),
      ))
      (λ p e. omega (
        arith,
        no_bit bs (8 * q + 2) (omega arith),
        no_bit bs (8 * q + 3) (omega arith),
        no_bit bs (8 * q + 4) (omega arith),
        no_bit bs (8 * q + 5) (omega arith),
        no_bit bs (8 * q + 6) (omega arith),
        no_bit bs (8 * q + 7) (omega arith),
      ))
      (λ p e. omega (
        arith,
        no_bit bs (8 * q + 3) (omega arith),
        no_bit bs (8 * q + 4) (omega arith),
        no_bit bs (8 * q + 5) (omega arith),
        no_bit bs (8 * q + 6) (omega arith),
        no_bit bs (8 * q + 7) (omega arith),
      ))
      (λ p e. omega (
        arith,
        no_bit bs (8 * q + 4) (omega arith),
        no_bit bs (8 * q + 5) (omega arith),
        no_bit bs (8 * q + 6) (omega arith),
        no_bit bs (8 * q + 7) (omega arith),
      ))
      (λ p e. omega (
        arith,
        no_bit bs (8 * q + 5) (omega arith),
        no_bit bs (8 * q + 6) (omega arith),
        no_bit bs (8 * q + 7) (omega arith),
      ))
      (λ p e.
        omega (arith, no_bit bs (8 * q + 6) (omega arith), no_bit bs (8 * q + 7) (omega arith)))
      (λ p e. omega (arith, no_bit bs (8 * q + 7) (omega arith))) r lt

-- `ValidateBitfield` accepts every bitfield that is packed.
pub validate_bitfield-pack : (bs : List Bool) → validate_bitfield (pack bs) (pos (length bs)) ≡ none
unfolding validate_bitfield pack
validate_bitfield-pack bs =
    let n = length bs in
    let size = length-pack_from bs 0 ((n + 7) / 8) in
    elim (dec_lt 0 (n % 8)) [
      | no whole ↦ ground (arith, size)
      | yes part ↦
          let q = n / 8 in
          let long : (n + 7) / 8 ≡ q + 1 = omega arith in
          let place : length (pack_from bs 0 ((n + 7) / 8)) - 1 ≡ q = omega arith in
          let last : get_or (pack_from bs 0 ((n + 7) / 8)) q 0 ≡ pack_byte bs (8 * (0 + q)) =
            get_or-pack_from bs 0 ((n + 7) / 8) q (omega arith) in
          let z : 0 + q ≡ q = omega arith in
          let spare = last_byte bs q (n % 8) (omega arith) part (omega arith) in
          let masked : get_or (pack_from bs 0 ((n + 7) / 8))
                  (length (pack_from bs 0 ((n + 7) / 8)) - 1) 0
                % 2 ^ (8 - n % 8)
              ≡ 0 =
            rw place (rw last (rw z spare)) in
          ground (arith, size, masked)
    ]
