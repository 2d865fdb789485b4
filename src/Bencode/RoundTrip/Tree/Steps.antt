-- ===== src/Bencode/RoundTrip/Tree/Steps.antt =====
-- internal/bencode: canonical values, and the steps of the decoder on what the encoder writes.
use sid_torrent.Prelude.{
  ℕ, suc, ◌+◌, ◌≤◌, ◌<◌, ◌≡◌, refl, ◌∙◌, ap, true, false, Bool-cases, inl, inr, [], ◌∷◌, ◌++◌,
  arith, ◌==◌, length, length-append,
}
use sid_torrent.Prelude.Int.{ℤ}
use sid_torrent.Prelude.Bytes.{Bytes, bytes_less, bytes_less_trans, bytes_less_irrefl}
use sid_torrent.Bencode.{Value, Items, Fields, no_items, item, no_fields, field}
use sid_torrent.Bencode.Decimal.{int64_limit, IsInt64, format_int}
use sid_torrent.Bencode.Encoder.{
  encode, encode_fields, encode_string, encode_int, sort_entries, insert_entry,
}
use sid_torrent.Bencode.Decoder.{
  Node, Shape, Nodes, Entries, node, no_nodes, also, no_entries, entry, value_of, values_of,
  fields_of, ok, put_entry, key_of, decode_value, decode_items, decode_entries,
}
use sid_torrent.Bencode.RoundTrip.{decode_string-encode, decode_int-encode}

-- The node that the decoder is to make of a value whose encoding starts at a position.
unfoldable mutual
  pub node_at : ℕ → Value → Node
  node_at p (Value.bytes s) = node (Shape.bytes s) p (p + length (encode_string s))
  node_at p (Value.int i) = node (Shape.int i) p (p + length (encode_int i))
  node_at p (Value.list xs) =
      node (Shape.list (nodes_at (p + 1) xs)) p (p + length (encode (Value.list xs)))
  node_at p (Value.dict fs) =
      node (Shape.dict (entries_at (p + 1) fs)) p (p + length (encode (Value.dict fs)))

  pub nodes_at : ℕ → Items → Nodes
  nodes_at p no_items = no_nodes
  nodes_at p (item v xs) = also (node_at p v) (nodes_at (p + length (encode v)) xs)

  pub entries_at : ℕ → Fields → Entries
  entries_at p no_fields = no_entries
  entries_at p (field k v fs) =
      let q = p + length (encode_string k) in
      entry k (node_at q v) (entries_at (q + length (encode v)) fs)

-- Every key is greater than `k`.
abbrev pub AllAbove : Bytes → Fields → Type 0
AllAbove k no_fields = Unit
AllAbove k (field j v fs) = (bytes_less k j ≡ true) × AllAbove k fs

-- Values that Go's types hold, with the keys of each dictionary in order.
unfoldable mutual
  pub IsCanonical : Value → Type 0
  IsCanonical (Value.bytes s) = length s < int64_limit
  IsCanonical (Value.int i) = IsInt64 i
  IsCanonical (Value.list xs) = AreCanonical xs
  IsCanonical (Value.dict fs) = HasCanonical fs

  pub AreCanonical : Items → Type 0
  AreCanonical no_items = Unit
  AreCanonical (item v xs) = IsCanonical v × AreCanonical xs

  pub HasCanonical : Fields → Type 0
  HasCanonical no_fields = Unit
  HasCanonical (field k v fs) =
      (length k < int64_limit) × IsCanonical v × AllAbove k fs × HasCanonical fs

mutual
  unfolding node_at value_of

  -- The values of the nodes are those that were encoded.
  pub value_of-node_at : (v : Value) (p : ℕ) → value_of (node_at p v) ≡ v
  value_of-node_at (Value.bytes s) p = refl
  value_of-node_at (Value.int i) p = refl
  value_of-node_at (Value.list xs) p = ap Value.list (values_of-nodes_at xs (p + 1))
  value_of-node_at (Value.dict fs) p = ap Value.dict (fields_of-entries_at fs (p + 1))

  values_of-nodes_at : (xs : Items) (p : ℕ) → values_of (nodes_at p xs) ≡ xs
  values_of-nodes_at no_items p = refl
  values_of-nodes_at (item v xs) p =
      cc (value_of-node_at v p, values_of-nodes_at xs (p + length (encode v)))

  fields_of-entries_at : (fs : Fields) (p : ℕ) → fields_of (entries_at p fs) ≡ fs
  fields_of-entries_at no_fields p = refl
  fields_of-entries_at (field k v fs) p = cc (
    value_of-node_at v (p + length (encode_string k)),
    fields_of-entries_at fs (p + length (encode_string k) + length (encode v)),
  )

less_asym : (a b : Bytes) → bytes_less a b ≡ true → bytes_less b a ≡ false
less_asym a b h = elim (Bool-cases (bytes_less b a)) [
  | inr e ↦ e
  | inl e ↦ cc (bytes_less_trans a b a h e, bytes_less_irrefl a)
]

insert_first :
    (k : Bytes) (e : Bytes) (fs : Fields)
    → AllAbove k fs
    → insert_entry k e (encode_fields fs) ≡ (k, e) ∷ encode_fields fs
unfolding insert_entry encode
insert_first k e no_fields a = refl
insert_first k e (field j v fs) (h, a) = rw (less_asym k j h)

-- Keys in order stay as they are.
pub sort_entries-canonical :
    (fs : Fields) → HasCanonical fs → sort_entries (encode_fields fs) ≡ encode_fields fs
unfolding sort_entries encode IsCanonical
sort_entries-canonical no_fields h = refl
sort_entries-canonical (field k v fs) (_, _, a, h) =
    rw (sort_entries-canonical fs h) (insert_first k (encode v) fs a)

-- An encoding starts with a byte that is no `e`.
abbrev StartsValue : Bytes → Type 0
StartsValue s = (c : ℕ) × (t : Bytes) × (s ≡ c ∷ t) × ((c == b'e') ≡ false)

pub string-StartsValue : (s : Bytes) → length s < int64_limit → StartsValue (encode_string s)
string-StartsValue s h =
    let (c, t, d, e, _) = decode_string-encode 0 s [] 0 h in (c, t, e, ground arith)

pub encode-StartsValue : (v : Value) → IsCanonical v → StartsValue (encode v)
unfolding encode encode_int IsCanonical
encode-StartsValue (Value.bytes s) h = string-StartsValue s h
encode-StartsValue (Value.int i) h = (b'i', _, refl, refl)
encode-StartsValue (Value.list xs) h = (b'l', _, refl, refl)
encode-StartsValue (Value.dict fs) h = (b'd', _, refl, refl)

pub StartsValue-length : (s : Bytes) → StartsValue s → 1 ≤ length s
StartsValue-length s (c, t, e, _) = rw e (omega arith)

-- The steps of the decoder.
pub decode_value-string :
    (f : ℕ) (s rest : Bytes) (p : ℕ)
    → length s < int64_limit
    → decode_value (suc f) (encode_string s ++ rest) p
      ≡ ok (
        node (Shape.bytes s) p (p + length (encode_string s)),
        rest,
        p + length (encode_string s),
      )
unfolding decode_value
decode_value-string f s rest p h =
    let (c, t, d, e, run) = decode_string-encode p s rest (p + 1) h in
    rw e (rw d (run ∙ ap (λ q. ok (node (Shape.bytes s) p q, rest, q)) (omega arith)))

pub decode_value-int :
    (f : ℕ) (i : ℤ) (rest : Bytes) (p : ℕ)
    → IsInt64 i
    → decode_value (suc f) (encode_int i ++ rest) p
      ≡ ok (node (Shape.int i) p (p + length (encode_int i)), rest, p + length (encode_int i))
unfolding decode_value encode_int
decode_value-int f i rest p h =
    decode_int-encode p i rest (p + 1) h
    ∙ ap (λ q. ok (node (Shape.int i) p q, rest, q))
        (omega (arith, length-append (format_int i) (b'e' ∷ [])))

pub decode_value-list :
    (f : ℕ) (rest : Bytes) (p : ℕ) (ns : Nodes) (left : Bytes) (q : ℕ)
    → decode_items f rest (p + 1) ≡ ok (ns, left, q)
    → decode_value (suc f) (b'l' ∷ rest) p ≡ ok (node (Shape.list ns) p q, left, q)
unfolding decode_value
decode_value-list f rest p ns left q e = rw e

pub decode_value-dict :
    (f : ℕ) (rest : Bytes) (p : ℕ) (es : Entries) (left : Bytes) (q : ℕ)
    → decode_entries f rest (p + 1) no_entries ≡ ok (es, left, q)
    → decode_value (suc f) (b'd' ∷ rest) p ≡ ok (node (Shape.dict es) p q, left, q)
unfolding decode_value
decode_value-dict f rest p es left q e = rw e

pub decode_items-end :
    (f : ℕ) (rest : Bytes) (p : ℕ)
    → decode_items (suc f) (b'e' ∷ rest) p ≡ ok (no_nodes, rest, p + 1)
unfolding decode_value
decode_items-end f rest p = refl

pub decode_items-step :
    (f : ℕ) (s rest : Bytes) (p : ℕ) (n : Node) (left : Bytes) (q : ℕ) (ns : Nodes) (left' : Bytes)
    (q' : ℕ)
    → StartsValue s
    → decode_value f (s ++ rest) p ≡ ok (n, left, q)
    → decode_items f left q ≡ ok (ns, left', q')
    → decode_items (suc f) (s ++ rest) p ≡ ok (also n ns, left', q')
unfolding decode_value
decode_items-step f s rest p n left q ns left' q' (c, t, e, ne) one more =
    rw e (rw ne (rw (rw e at one) (rw more)))

pub decode_entries-end :
    (f : ℕ) (rest : Bytes) (p : ℕ) (es : Entries)
    → decode_entries (suc f) (b'e' ∷ rest) p es ≡ ok (es, rest, p + 1)
unfolding decode_value
decode_entries-end f rest p es = refl

pub decode_entries-step :
    (f : ℕ) (s rest : Bytes) (p : ℕ) (es : Entries) (k : Bytes) (start end : ℕ) (left : Bytes)
    (q : ℕ) (n : Node) (left' : Bytes) (q' : ℕ)
    → StartsValue s
    → decode_value f (s ++ rest) p ≡ ok (node (Shape.bytes k) start end, left, q)
    → decode_value f left q ≡ ok (n, left', q')
    → decode_entries (suc f) (s ++ rest) p es ≡ decode_entries f left' q' (put_entry k n es)
unfolding decode_value key_of
decode_entries-step f s rest p es k start end left q n left' q' (c, t, e, ne) one two =
    rw e (rw ne (rw (rw e at one) (rw two)))
