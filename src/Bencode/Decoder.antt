-- ===== src/Bencode/Decoder.antt =====
-- internal/bencode/decoder.go. The decoder's state is what is left of the data together with the
-- position; each call takes both and gives them back.
use sid_torrent.Prelude.{
  ℕ, zero, suc, ◌+◌, ◌*◌, ◌≡◌, refl, Bool, false, ◌&&◌, not, Option, none, some, [], ◌∷◌, ltb, ◌==◌,
  if◌then◌else◌, length, take, drop,
}
use sid_torrent.Prelude.Int.{ℤ, pos}
use sid_torrent.Prelude.Bytes.{Bytes, codes, bytes_equal}
use sid_torrent.Bencode.{Value, Items, Fields, no_items, item, no_fields, field}
use sid_torrent.Bencode.Decimal.{is_digit, atoi, parse_int}

-- A node is a value with the range of the data that it was read from, and so are the values in it.
-- `Value`, `List` and `Dict` of the source hold the same tree: see `value_of`.
mutual
  pub data Node : Type 0 where
    node : Shape → ℕ → ℕ → Node

  pub data Shape : Type 0 where
    bytes : Bytes → Shape
    int : ℤ → Shape
    list : Nodes → Shape
    dict : Entries → Shape

  pub data Nodes : Type 0 where
    no_nodes : Nodes
    also : Node → Nodes → Nodes

  pub data Entries : Type 0 where
    no_entries : Entries
    entry : Bytes → Node → Entries → Entries

unfoldable mutual
  pub value_of : Node → Value
  value_of (node s start end) = value_of_shape s

  pub value_of_shape : Shape → Value
  value_of_shape (bytes s) = Value.bytes s
  value_of_shape (int i) = Value.int i
  value_of_shape (list ns) = Value.list (values_of ns)
  value_of_shape (dict es) = Value.dict (fields_of es)

  pub values_of : Nodes → Items
  values_of no_nodes = no_items
  values_of (also n ns) = item (value_of n) (values_of ns)

  pub fields_of : Entries → Fields
  fields_of no_entries = no_fields
  fields_of (entry k n es) = field k (value_of n) (fields_of es)

pub data DecodeError : Type 0 where
  unexpected_eof unknown_token invalid_length_byte leading_zero_length length_range : DecodeError
  empty_integer leading_zero_integer negative_zero integer_syntax key_not_string : DecodeError
  trailing_data : DecodeError

-- `out_of_fuel` has no counterpart in the source.
pub data Result {ℓ} (A : Type ℓ) : Type ℓ where
  ok : A → Result A
  failed : DecodeError → Result A
  out_of_fuel : Result A

infixl 5 ◌>>=◌
abbrev pub ◌>>=◌ {ℓ κ} : {A : Type ℓ} {B : Type κ} → Result A → (A → Result B) → Result B
ok a >>= f = f a
failed e >>= f = failed e
out_of_fuel >>= f = out_of_fuel

-- What was read, what is left, and the position.
abbrev pub Read {ℓ} : Type ℓ → Type ℓ
Read A = Result (A × Bytes × ℕ)

-- The digits of a length, up to the colon.
unfoldable pub read_length : Bytes → ℕ → Read Bytes
read_length [] p = failed unexpected_eof
read_length (b ∷ rest) p =
    let more = do (digits, left, q) ← read_length rest (p + 1); ok (b ∷ digits, left, q)
    in if b == b':'
      then ok ([], rest, p + 1)
      else if not (is_digit b)
      then failed invalid_length_byte
      else more

unfoldable pub leading_zero : Bytes → Bool
leading_zero [] = false
leading_zero (b ∷ s) = ltb 0 (length s) && b == b'0'

-- `make` and `append` copy the slice, whose end is checked first.
unfoldable pub cut_string : ℕ → Option ℕ → Bytes → ℕ → Read Node
cut_string start none rest p = failed length_range
cut_string start (some n) rest p =
    if ltb (length rest) n
    then failed unexpected_eof
    else ok (node (Shape.bytes (take n rest)) start (p + n), drop n rest, p + n)

unfoldable pub decode_string : ℕ → ℕ → Bytes → ℕ → Read Node
unfolding read_length leading_zero cut_string
decode_string start first rest p = do
  (digits, left, q) ← read_length rest p
  let whole = first ∷ digits
  if leading_zero whole then failed leading_zero_length else cut_string start (atoi whole) left q

-- The bytes up to the `e`.
unfoldable pub read_to_end : Bytes → ℕ → Read Bytes
read_to_end [] p = failed unexpected_eof
read_to_end (b ∷ rest) p =
    let more = do (buf, left, q) ← read_to_end rest (p + 1); ok (b ∷ buf, left, q)
    in if b == b'e' then ok ([], rest, p + 1) else more

unfoldable pub negative_zero_in : Bytes → Bool
negative_zero_in (b ∷ c ∷ s) = b == b'-' && c == b'0'
negative_zero_in _ = false

unfoldable pub int_node : ℕ → Option ℤ → Bytes → ℕ → Read Node
int_node start none left q = failed integer_syntax
int_node start (some i) left q = ok (node (Shape.int i) start q, left, q)

unfoldable pub decode_int : ℕ → Bytes → ℕ → Read Node
unfolding read_to_end leading_zero negative_zero_in int_node
decode_int start rest p = do
  (buf, left, q) ← read_to_end rest p
  if length buf == 0
      then failed empty_integer
      else if leading_zero buf
      then failed leading_zero_integer
      else if negative_zero_in buf
      then failed negative_zero
      else int_node start (parse_int buf) left q

-- `nodes[key] = valueNode`: a key that comes again overwrites the first.
unfoldable pub put_entry : Bytes → Node → Entries → Entries
put_entry k n no_entries = entry k n no_entries
put_entry k n (entry j m es) =
    if bytes_equal j k then entry k n es else entry j m (put_entry k n es)

-- `keyNode.Value.([]byte)`
unfoldable pub key_of : Node → Result Bytes
key_of (node (Shape.bytes s) start end) = ok s
key_of _ = failed key_not_string

-- Each call costs a unit of fuel.
unfoldable mutual
  pub decode_value : ℕ → Bytes → ℕ → Read Node
  decode_value zero rest p = out_of_fuel
  decode_value (suc f) [] p = failed unexpected_eof
  decode_value (suc f) (b ∷ rest) p =
      let items = do
        (ns, left, q) ← decode_items f rest (p + 1)
        ok (node (Shape.list ns) p q, left, q)
      in let entries = do
        (es, left, q) ← decode_entries f rest (p + 1) no_entries
        ok (node (Shape.dict es) p q, left, q)
        in if is_digit b
          then decode_string p b rest (p + 1)
          else if b == b'i'
          then decode_int p rest (p + 1)
          else if b == b'l'
          then items
          else if b == b'd'
          then entries
          else failed unknown_token

  -- The loop of `decodeList`.
  pub decode_items : ℕ → Bytes → ℕ → Read Nodes
  decode_items zero rest p = out_of_fuel
  decode_items (suc f) [] p = failed unexpected_eof
  decode_items (suc f) (b ∷ rest) p =
      let more = do
        (n, left, q) ← decode_value f (b ∷ rest) p
        (ns, left', q') ← decode_items f left q
        ok (also n ns, left', q')
      in if b == b'e' then ok (no_nodes, rest, p + 1) else more

  -- The loop of `decodeDict`, with the entries so far.
  pub decode_entries : ℕ → Bytes → ℕ → Entries → Read Entries
  decode_entries zero rest p es = out_of_fuel
  decode_entries (suc f) [] p es = failed unexpected_eof
  decode_entries (suc f) (b ∷ rest) p es =
      let more = do
        (k, left, q) ← decode_value f (b ∷ rest) p
        key ← key_of k
        (n, left', q') ← decode_value f left q
        decode_entries f left' q' (put_entry key n es)
      in if b == b'e' then ok (es, rest, p + 1) else more

unfoldable pub finish : Node → Bytes → Result Node
finish n [] = ok n
finish n (b ∷ rest) = failed trailing_data

-- `DecodeWithRaw`
unfoldable pub decode_with_raw : Bytes → Result Node
unfolding finish
decode_with_raw data' = do (n, left, p) ← decode_value (2 * length data' + 2) data' 0; finish n left

-- `DecodeBytes`
unfoldable pub decode_bytes : Bytes → Result Value
unfolding decode_with_raw
decode_bytes data' = do n ← decode_with_raw data'; ok (value_of n)

nested :
    decode_bytes (codes "d1:ali7e2:xyee")
    ≡ ok (
        Value.dict (
          field
            (codes "a")
            (Value.list (item (Value.int (pos 7)) (item (Value.bytes (codes "xy")) no_items)))
            no_fields))
unfolding decode_bytes decode_value decode_string decode_int put_entry key_of value_of atoi
    parse_int
nested = refl
