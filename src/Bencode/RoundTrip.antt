-- ===== src/Bencode/RoundTrip.antt =====
-- internal/bencode: strings and integers, encoded and decoded.
pub mod Tree
use sid_torrent.Prelude.{
  ℕ, zero, suc, ◌+◌, ◌-◌, ◌*◌, ◌≤◌, ◌<◌, ◌≡◌, ◌≢◌, refl, sym, ◌∙◌, ap, subst, Bool, true, false,
  not, ◌&&◌, ◌||◌, Bool-cases, inl, inr, Option, none, some, List, [], ◌∷◌, ◌++◌, append_assoc,
  append-nil, arith, ltb, leb, lt→ltb, ◌==◌, if◌then◌else◌, length, take, drop, length-append,
}
use sid_torrent.Prelude.Int.{ℤ, pos, negsuc}
use sid_torrent.Prelude.Bytes.{
  Bytes, codes, bytes_equal, bytes_less, bytes_less→ne, bytes_less_trans,
}
use sid_torrent.Bencode.{Value, Items, Fields, no_items, item, no_fields, field}
use sid_torrent.Bencode.Decimal.{
  is_digit, int64_limit, itoa, format_int, atoi, parse_int, IsDecimal, itoa-IsDecimal, AllDigits,
  IsInt64, parse_int-format_int, parse_uint-itoa,
}
use sid_torrent.Bencode.Encoder.{
  encode, encode_items, encode_fields, encode_string, encode_int, write_entries, sort_entries,
}
use sid_torrent.Bencode.Decoder.{
  Node, Shape, Nodes, Entries, node, no_nodes, also, no_entries, entry, value_of, values_of,
  fields_of, Result, ok, failed, ◌>>=◌, read_length, leading_zero, cut_string, decode_string,
  read_to_end, negative_zero_in, int_node, decode_int, put_entry, key_of, decode_value,
  decode_items, decode_entries, finish, decode_with_raw, decode_bytes,
}

take-append : (s rest : Bytes) → take (length s) (s ++ rest) ≡ s
take-append [] rest = refl
take-append (b ∷ s) rest = ap (λ t. b ∷ t) (take-append s rest)

drop-append : (s rest : Bytes) → drop (length s) (s ++ rest) ≡ rest
drop-append [] rest = refl
drop-append (b ∷ s) rest = drop-append s rest

read_length-digits :
    (s rest : Bytes) (p : ℕ)
    → AllDigits s
    → read_length (s ++ b':' ∷ rest) p ≡ ok (s, rest, p + length s + 1)
unfolding read_length
read_length-digits [] rest p d = ap (λ q. ok ([], rest, q)) (omega arith)
read_length-digits (c ∷ s) rest p (h, d) =
    let not_colon : (c == b':') ≡ false = ground arith in
    rw (not_colon, h, read_length-digits s rest (p + 1) d)
      (ap (λ q. ok (c ∷ s, rest, q)) (omega arith))

-- A printed number is a length that passes the check for a leading zero.
leading_zero-decimal : (n : ℕ) (s : Bytes) → IsDecimal n s → leading_zero s ≡ false
unfolding leading_zero
leading_zero-decimal n s d = rw d.shape (go n refl)
  where
    go : (m : ℕ) → n ≡ m → leading_zero (d.head ∷ d.tail) ≡ false
    go zero e = rw (d.short e)
    go (suc m) e = let z = d.no_zero (omega arith) in ground arith

decode_string-read :
    (start c : ℕ) (rest : Bytes) (p : ℕ) (digits left : Bytes) (q n : ℕ)
    → read_length rest p ≡ ok (digits, left, q)
    → leading_zero (c ∷ digits) ≡ false
    → atoi (c ∷ digits) ≡ some n
    → n ≤ length left
    → decode_string start c rest p
      ≡ ok (node (Shape.bytes (take n left)) start (q + n), drop n left, q + n)
unfolding decode_string cut_string
decode_string-read start c rest p digits left q n e z a h =
    rw e (rw z (rw a (rw (not_less (length left) n h))))
  where
    not_less : (a b : ℕ) → b ≤ a → ltb a b ≡ false
    not_less a b h = ground arith

-- `decodeString` behind the first digit of the length.
pub decode_string-encode :
    (start : ℕ) (s rest : Bytes) (p : ℕ)
    → length s < int64_limit
    → (c : ℕ) × (t : Bytes) × (is_digit c ≡ true)
      × (encode_string s ≡ c ∷ t)
      × (decode_string start c (t ++ rest) p
          ≡ ok (node (Shape.bytes s) start (p + length t), rest, p + length t))
unfolding encode_string atoi
decode_string-encode start s rest p h =
    let d = itoa-IsDecimal (length s) in
    let whole : d.head ∷ d.tail ≡ itoa (length s) = sym d.shape in
    let size : p + length d.tail + 1 + length s ≡ p + length (d.tail ++ b':' ∷ s) =
      omega (arith, length-append d.tail (b':' ∷ s)) in
    (
      d.head,
      d.tail ++ b':' ∷ s,
      d.digit,
      ap (λ t. t ++ b':' ∷ s) d.shape,
      decode_string-read start d.head ((d.tail ++ b':' ∷ s) ++ rest) p d.tail (s ++ rest)
            (p + length d.tail + 1) (length s)
            (rw append_assoc (read_length-digits d.tail (s ++ rest) p d.digits))
            (rw whole (leading_zero-decimal (length s) (itoa (length s)) d))
            (ap atoi whole ∙ parse_uint-itoa int64_limit (length s) h)
            (omega (arith, length-append s rest))
          ∙ rw (take-append, drop-append, size),
    )

-- Bytes without an `e`.
LacksE : Bytes → Type 0
LacksE [] = Unit
LacksE (b ∷ s) = ((b == b'e') ≡ false) × LacksE s

read_to_end-append :
    (s rest : Bytes) (p : ℕ)
    → LacksE s
    → read_to_end (s ++ b'e' ∷ rest) p ≡ ok (s, rest, p + length s + 1)
unfolding read_to_end LacksE
read_to_end-append [] rest p h = ap (λ q. ok ([], rest, q)) (omega arith)
read_to_end-append (b ∷ s) rest p (ne, h) =
    rw (ne, read_to_end-append s rest (p + 1) h) (ap (λ q. ok (b ∷ s, rest, q)) (omega arith))

AllDigits-LacksE : (s : Bytes) → AllDigits s → LacksE s
unfolding LacksE
AllDigits-LacksE [] d = tt
AllDigits-LacksE (c ∷ s) (h, d) = (ground arith, AllDigits-LacksE s d)

decode_int-read :
    (start : ℕ) (rest : Bytes) (p : ℕ) (buf left : Bytes) (q : ℕ) (i : ℤ)
    → read_to_end rest p ≡ ok (buf, left, q)
    → (length buf == 0) ≡ false
    → leading_zero buf ≡ false
    → negative_zero_in buf ≡ false
    → parse_int buf ≡ some i
    → decode_int start rest p ≡ ok (node (Shape.int i) start q, left, q)
unfolding decode_int int_node
decode_int-read start rest p buf left q i e a b c d = rw e (rw a (rw b (rw c (rw d))))

-- What `%d` prints passes all checks of `decodeInt`.
record PrintsInt (i : ℤ) : Type 0 where
  not_empty : (length (format_int i) == 0) ≡ false
  lacks : LacksE (format_int i)
  zeros : leading_zero (format_int i) ≡ false
  minus : negative_zero_in (format_int i) ≡ false

pos-PrintsInt :
    (n : ℕ) (s : Bytes)
    → IsDecimal n s
    → ((length s == 0) ≡ false) × LacksE s × (leading_zero s ≡ false) × (negative_zero_in s ≡ false)
unfolding LacksE
pos-PrintsInt n s d = (
  rw d.shape (ground arith),
  rw d.shape (ground (arith, d.digit), AllDigits-LacksE d.tail d.digits),
  leading_zero-decimal n s d,
  rw d.shape (no_minus d.head d.tail d.digit),
)
  where
    no_minus : (c : ℕ) (t : Bytes) → is_digit c ≡ true → negative_zero_in (c ∷ t) ≡ false
    no_minus c [] h = unfold negative_zero_in in refl
    no_minus c (x ∷ t) h = unfold negative_zero_in in ground arith

format_int-PrintsInt : (i : ℤ) → PrintsInt i
unfolding format_int LacksE
format_int-PrintsInt (pos n) =
    let (a, b, c, d) = pos-PrintsInt n (itoa n) (itoa-IsDecimal n) in
    record { not_empty = a; lacks = b; zeros = c; minus = d }
format_int-PrintsInt (negsuc n) =
    let d = itoa-IsDecimal (suc n) in
    let (a, b, c, e) = pos-PrintsInt (suc n) (itoa (suc n)) d in
    record {
      not_empty = ground arith;
      lacks = (refl, b);
      zeros = unfold leading_zero in ground arith;
      minus = rw d.shape (unfold negative_zero_in in (rw (d.no_zero (omega arith))));
    }

pub decode_int-encode :
    (start : ℕ) (i : ℤ) (rest : Bytes) (p : ℕ)
    → IsInt64 i
    → decode_int start ((format_int i ++ b'e' ∷ []) ++ rest) p
      ≡ ok (
        node (Shape.int i) start (p + length (format_int i) + 1),
        rest,
        p + length (format_int i) + 1,
      )
decode_int-encode start i rest p h =
    let w = format_int-PrintsInt i in
    decode_int-read start _ p (format_int i) rest (p + length (format_int i) + 1) i
      (rw append_assoc (read_to_end-append (format_int i) rest p w.lacks)) w.not_empty w.zeros
      w.minus (parse_int-format_int i h)
