-- ===== src/Bencode/Decimal.antt =====
-- strconv.Itoa, strconv.Atoi and strconv.ParseInt in base 10, as the package uses them.
use sid_torrent.Prelude.{
  ℕ, zero, suc, ◌+◌, ◌-◌, ◌*◌, ◌/◌, ◌%◌, ◌^◌, ◌<◌, ◌≡◌, refl, ◌∙◌, ap, Bool, true, false, ◌&&◌,
  Bool-cases, inl, inr, Option, none, some, [], ◌∷◌, arith, lt→ltb, ltb, leb, ◌==◌, if◌then◌else◌,
}
use sid_torrent.Prelude.Int.{ℤ, pos, negsuc, neg}
use sid_torrent.Prelude.Bytes.{Bytes}

abbrev pub int64_limit : ℕ
int64_limit = 2 ^ 63

abbrev pub is_digit : ℕ → Bool
is_digit b = leb b'0' b && leb b b'9'

-- The digits of `n` before `out`, with fuel for as many rounds as needed.
unfoldable pub emit_digits : ℕ → ℕ → Bytes → Bytes
emit_digits zero n out = out
emit_digits (suc f) n out =
    let rest = emit_digits f (n / 10) ((b'0' + n % 10) ∷ out) in
    if ltb n 10 then (b'0' + n) ∷ out else rest

unfoldable pub itoa : ℕ → Bytes
unfolding emit_digits
itoa n = emit_digits (suc n) n []

-- The decimal with a minus sign, as `%d` prints it.
unfoldable pub format_int : ℤ → Bytes
unfolding itoa
format_int (pos n) = itoa n
format_int (negsuc n) = b'-' ∷ itoa (suc n)

-- The number that digits spell, if they all are digits.
unfoldable pub scan : Bytes → ℕ → Option ℕ
scan [] n = some n
scan (c ∷ s) n = let rest = scan s (n * 10 + (c - b'0')) in if is_digit c then rest else none

unfoldable pub below_limit : ℕ → Option ℕ → Option ℕ
below_limit limit none = none
below_limit limit (some n) = if ltb n limit then some n else none

unfoldable pub parse_uint : ℕ → Bytes → Option ℕ
unfolding scan below_limit
parse_uint limit [] = none
parse_uint limit (c ∷ s) = below_limit limit (scan (c ∷ s) 0)

-- `strconv.Atoi` on digits: `none` is its range error.
unfoldable pub atoi : Bytes → Option ℕ
unfolding parse_uint
atoi s = parse_uint int64_limit s

unfoldable pub as_positive : Option ℕ → Option ℤ
as_positive none = none
as_positive (some n) = some (pos n)

unfoldable pub as_negative : Option ℕ → Option ℤ
as_negative none = none
as_negative (some n) = some (neg n)

-- `strconv.ParseInt(s, 10, 64)`: a sign is allowed, also `+`, and -2^63 is the least value.
unfoldable pub parse_int : Bytes → Option ℤ
unfolding parse_uint as_positive as_negative
parse_int [] = none
parse_int (c ∷ s) =
    if c == b'-'
    then as_negative (parse_uint (int64_limit + 1) s)
    else if c == b'+'
    then as_positive (parse_uint int64_limit s)
    else as_positive (parse_uint int64_limit (c ∷ s))

max_int : parse_int (format_int (pos 9223372036854775807)) ≡ some (pos 9223372036854775807)
unfolding parse_int format_int
max_int = refl

too_big :
    (parse_int (b'9' ∷ itoa 223372036854775808) ≡ none)
    × (parse_int (b'+' ∷ b'5' ∷ []) ≡ some (pos 5))
unfolding parse_int itoa
too_big = (refl, refl)

abbrev pub AllDigits : Bytes → Type 0
AllDigits [] = Unit
AllDigits (c ∷ s) = (is_digit c ≡ true) × AllDigits s

-- Digits with no zero in front, but for the number zero itself.
pub record IsDecimal (n : ℕ) (s : Bytes) : Type 0 where
  pub head : ℕ
  pub tail : Bytes
  pub shape : s ≡ head ∷ tail
  pub digit : is_digit head ≡ true
  pub digits : AllDigits tail
  pub no_zero : 0 < n → (head == b'0') ≡ false
  pub short : n ≡ 0 → tail ≡ []
  pub value : scan s 0 ≡ some n

emit_digits-scan : (f n : ℕ) (out : Bytes) → n < f → scan (emit_digits f n out) 0 ≡ scan out n
unfolding emit_digits scan
emit_digits-scan zero n out h = absurd (omega arith)
emit_digits-scan (suc f) n out h =
    ground (arith, emit_digits-scan f (n / 10) ((b'0' + n % 10) ∷ out))

emit_digits-shape :
    (f n : ℕ) (out : Bytes)
    → n < f
    → AllDigits out
    → (c : ℕ) × (s : Bytes) × (emit_digits f n out ≡ c ∷ s)
      × (is_digit c ≡ true)
      × AllDigits s
      × (0 < n → (c == b'0') ≡ false)
      × (n ≡ 0 → s ≡ out)
unfolding emit_digits
emit_digits-shape zero n out h d = absurd (omega arith)
emit_digits-shape (suc f) n out h d = elim (Bool-cases (ltb n 10)) [
  | inl small ↦ (b'0' + n, out, rw small, ground arith, d, λ p. ground arith, λ e. refl)
  | inr big ↦
      let (c, s, e, a, b, z, _) =
        emit_digits-shape f (n / 10) ((b'0' + n % 10) ∷ out) (ground arith) (ground arith, d) in
      (c, s, rw big e, a, b, λ p. z (ground arith), λ e. absurd (ground arith))
]

-- A number that is printed is scanned back, and has no zero in front.
pub itoa-IsDecimal : (n : ℕ) → IsDecimal n (itoa n)
unfolding itoa scan
itoa-IsDecimal n =
    let (c, s, e, a, b, z, t) = emit_digits-shape (suc n) n [] (omega arith) tt in
    record {
      head = c;
      tail = s;
      shape = e;
      digit = a;
      digits = b;
      no_zero = z;
      short = t;
      value = emit_digits-scan (suc n) n [] (omega arith);
    }

pub parse_uint-itoa : (limit n : ℕ) → n < limit → parse_uint limit (itoa n) ≡ some n
unfolding parse_uint
parse_uint-itoa limit n h =
    let d = itoa-IsDecimal n in rw d.shape (rw (rw d.shape at d.value) (rw (lt→ltb n limit h)))

-- The values of int64.
abbrev pub IsInt64 : ℤ → Type 0
IsInt64 (pos n) = n < int64_limit
IsInt64 (negsuc n) = n < int64_limit

not_sign : (c : ℕ) → is_digit c ≡ true → ((c == b'-') ≡ false) × ((c == b'+') ≡ false)
not_sign c h = ground arith

parse_int-digits :
    (c : ℕ) (s : Bytes)
    → is_digit c ≡ true
    → parse_int (c ∷ s) ≡ as_positive (parse_uint int64_limit (c ∷ s))
unfolding parse_int
parse_int-digits c s h = rw ((not_sign c h).0, (not_sign c h).1)

parse_int-itoa : (n : ℕ) → n < int64_limit → parse_int (itoa n) ≡ some (pos n)
unfolding as_positive
parse_int-itoa n h =
    let d = itoa-IsDecimal n in
    let e = parse_uint-itoa int64_limit n h in
    rw d.shape (parse_int-digits d.head d.tail d.digit ∙ ap as_positive (rw d.shape at e))

-- Every int64 that is printed in decimal is parsed back to itself.
pub parse_int-format_int : (i : ℤ) → IsInt64 i → parse_int (format_int i) ≡ some i
unfolding format_int
parse_int-format_int (pos n) h = parse_int-itoa n h
parse_int-format_int (negsuc n) h =
    unfold parse_int as_negative in
    (rw (parse_uint-itoa (int64_limit + 1) (suc n) (omega arith)) (ap some (ground arith)))
