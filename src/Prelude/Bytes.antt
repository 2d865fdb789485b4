-- ===== src/Prelude/Bytes.antt =====
-- Byte strings: literals, the order of `sort.Strings`, equality.
use Prim.Native.Nat.{ℕ}
use Prim.Native.Char.{code}
use Prim.Native.String.{String}
use mathlib.Core.Path.{◌≡◌, refl}
use mathlib.Core.Bool.{Bool, true, false, ◌&&◌}
use mathlib.Core.List.{List, [], ◌∷◌}
use native.Mathlib.Omega.{arith}
use sid_torrent.Prelude.Tests.{ltb, ◌==◌, if◌then◌else◌}

abbrev pub Bytes : Type 0
Bytes = List ℕ

-- The code points of a literal, which are its bytes when the text is ASCII.
abbrev pub codes : String → Bytes
codes String.[] = []
codes (String.◌∷◌ c s) = code c ∷ codes s

-- `bytes.Equal`, and `==` on strings.
abbrev pub bytes_equal : Bytes → Bytes → Bool
bytes_equal [] [] = true
bytes_equal (x ∷ xs) (y ∷ ys) = (x == y) && bytes_equal xs ys
bytes_equal _ _ = false

-- `<` on strings: byte by byte.
abbrev pub bytes_less : Bytes → Bytes → Bool
bytes_less [] [] = false
bytes_less [] (y ∷ ys) = true
bytes_less (x ∷ xs) [] = false
bytes_less (x ∷ xs) (y ∷ ys) = if ltb x y then true else (x == y) && bytes_less xs ys

pub bytes_equal→eq : (xs ys : Bytes) → bytes_equal xs ys ≡ true → xs ≡ ys
bytes_equal→eq [] [] h = refl
bytes_equal→eq [] (y ∷ ys) h = cc
bytes_equal→eq (x ∷ xs) [] h = cc
bytes_equal→eq (x ∷ xs) (y ∷ ys) h = ground (arith, bytes_equal→eq xs ys)

pub bytes_equal_refl : (xs : Bytes) → bytes_equal xs xs ≡ true
bytes_equal_refl [] = refl
bytes_equal_refl (x ∷ xs) = ground (arith, bytes_equal_refl xs)

pub bytes_equal_sym : (xs ys : Bytes) → bytes_equal xs ys ≡ bytes_equal ys xs
bytes_equal_sym [] [] = refl
bytes_equal_sym [] (y ∷ ys) = refl
bytes_equal_sym (x ∷ xs) [] = refl
bytes_equal_sym (x ∷ xs) (y ∷ ys) = ground (arith, bytes_equal_sym xs ys)

pub bytes_less_irrefl : (xs : Bytes) → bytes_less xs xs ≡ false
bytes_less_irrefl [] = refl
bytes_less_irrefl (x ∷ xs) = ground (arith, bytes_less_irrefl xs)

pub bytes_less_asym : (xs ys : Bytes) → bytes_less xs ys ≡ true → bytes_less ys xs ≡ false
bytes_less_asym [] [] h = cc
bytes_less_asym [] (y ∷ ys) h = refl
bytes_less_asym (x ∷ xs) [] h = cc
bytes_less_asym (x ∷ xs) (y ∷ ys) h = ground (arith, bytes_less_asym xs ys)

-- At least is transitive.
pub bytes_less_neg_trans :
    (xs ys zs : Bytes)
    → bytes_less xs ys ≡ false
    → bytes_less ys zs ≡ false
    → bytes_less xs zs ≡ false
bytes_less_neg_trans [] [] zs h k = k
bytes_less_neg_trans [] (y ∷ ys) zs h k = cc
bytes_less_neg_trans (x ∷ xs) ys [] h k = refl
bytes_less_neg_trans (x ∷ xs) [] (z ∷ zs) h k = cc
bytes_less_neg_trans (x ∷ xs) (y ∷ ys) (z ∷ zs) h k = ground (arith, bytes_less_neg_trans xs ys zs)

pub bytes_less_trans :
    (xs ys zs : Bytes) → bytes_less xs ys ≡ true → bytes_less ys zs ≡ true → bytes_less xs zs ≡ true
bytes_less_trans [] [] zs h k = cc
bytes_less_trans [] (y ∷ ys) [] h k = cc
bytes_less_trans [] (y ∷ ys) (z ∷ zs) h k = refl
bytes_less_trans (x ∷ xs) [] zs h k = cc
bytes_less_trans (x ∷ xs) (y ∷ ys) [] h k = cc
bytes_less_trans (x ∷ xs) (y ∷ ys) (z ∷ zs) h k = ground (arith, bytes_less_trans xs ys zs)

-- A smaller string is another string, both ways round.
pub bytes_less→ne : (xs ys : Bytes) → bytes_less xs ys ≡ true → bytes_equal xs ys ≡ false
bytes_less→ne [] [] h = cc
bytes_less→ne [] (y ∷ ys) h = refl
bytes_less→ne (x ∷ xs) [] h = cc
bytes_less→ne (x ∷ xs) (y ∷ ys) h = ground (arith, bytes_less→ne xs ys)
