-- ===== src/Peer/Bitfield.antt =====
-- internal/peer/bitfield.go and the check of a bitfield in internal/peer/message.go.
pub mod Packing
use sid_torrent.Prelude.{
  ℕ, zero, suc, ◌+◌, ◌-◌, ◌/◌, ◌%◌, ◌^◌, Bool, true, false, not, ◌||◌, Option, none, some, List, [],
  ◌∷◌, ◌==◌, if◌then◌else◌, length, get_or,
}
use sid_torrent.Prelude.Int.{ℤ, pos, negsuc}
use sid_torrent.Prelude.Bytes.{Bytes}

-- `b & (1 << k) != 0`
unfoldable pub has_bit : ℕ → ℕ → Bool
has_bit b k = not (b / 2 ^ k % 2 == 0)

-- The loop of `ParseBitField` from the piece `i` on, over as many as `left`.
unfoldable pub read_bits : Bytes → ℕ → ℕ → List Bool
unfolding has_bit
read_bits content i zero = []
read_bits content i (suc left) =
    has_bit (get_or content (i / 8) 0) (7 - i % 8) ∷ read_bits content (suc i) left

-- `ParseBitField`; `none` is its error.
unfoldable pub parse_bitfield : Bytes → ℕ → Option (List Bool)
unfolding read_bits
parse_bitfield content total =
    if length content == (total + 7) / 8 then some (read_bits content 0 total) else none

pub data BitfieldError : Type 0 where
  negative_count wrong_length spare_bits_set : BitfieldError

-- `ValidateBitfield`; `none` is success. The mask keeps the low bits, as a remainder does.
unfoldable pub validate_bitfield : Bytes → ℤ → Option BitfieldError
validate_bitfield payload (negsuc n) = some negative_count
validate_bitfield payload (pos count) =
    if not (length payload == (count + 7) / 8)
    then some wrong_length
    else if count == 0 || (count % 8) == 0
    then none
    else if not (get_or payload (length payload - 1) 0 % 2 ^ (8 - count % 8) == 0)
    then some spare_bits_set
    else none
