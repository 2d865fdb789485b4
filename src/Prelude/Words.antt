-- ===== src/Prelude/Words.antt =====
-- encoding/binary.BigEndian: 16-bit and 32-bit words in the order of the network.
use Prim.Native.Nat.{ℕ, ◌+◌, ◌*◌, ◌/◌, ◌%◌, ◌^◌, ◌<◌}
use mathlib.Core.Path.{◌≡◌}
use mathlib.Core.List.{[], ◌∷◌}
use native.Mathlib.Omega.{arith}
use sid_torrent.Prelude.Bytes.{Bytes}

-- `uint32(n)` of an int.
abbrev pub uint32 : ℕ → ℕ
uint32 n = n % 2 ^ 32

abbrev pub uint16 : ℕ → ℕ
uint16 n = n % 2 ^ 16

-- `PutUint32` of a 32-bit word.
unfoldable pub put_uint32 : ℕ → Bytes
put_uint32 w = w / 2 ^ 24 % 256 ∷ (w / 2 ^ 16 % 256 ∷ (w / 2 ^ 8 % 256 ∷ (w % 256 ∷ [])))

unfoldable pub get_uint32 : ℕ → ℕ → ℕ → ℕ → ℕ
get_uint32 a b c d = a * 2 ^ 24 + b * 2 ^ 16 + c * 2 ^ 8 + d

unfoldable pub put_uint16 : ℕ → Bytes
put_uint16 w = w / 2 ^ 8 % 256 ∷ (w % 256 ∷ [])

unfoldable pub get_uint16 : ℕ → ℕ → ℕ
get_uint16 a b = a * 2 ^ 8 + b

pub get-put_uint32 :
    (w : ℕ)
    → w < 2 ^ 32
    → get_uint32 (w / 2 ^ 24 % 256) (w / 2 ^ 16 % 256) (w / 2 ^ 8 % 256) (w % 256) ≡ w
unfolding get_uint32
get-put_uint32 w h = omega arith

pub get-put_uint16 : (w : ℕ) → w < 2 ^ 16 → get_uint16 (w / 2 ^ 8 % 256) (w % 256) ≡ w
unfolding get_uint16
get-put_uint16 w h = omega arith
