-- ===== src/Bencode/RoundTrip/Tree.antt =====
-- internal/bencode: trees of values, encoded and decoded, with the spans of nested values.
mod Steps
use sid_torrent.Prelude.{
  ℕ, zero, suc, ◌+◌, ◌*◌, ◌≤◌, ◌<◌, ◌≡◌, refl, sym, ◌∙◌, ap, subst, true, false, Bool-cases, inl,
  inr, [], ◌∷◌, ◌++◌, append_assoc, append-nil, arith, ◌==◌, length, length-append,
}
use sid_torrent.Prelude.Int.{ℤ}
use sid_torrent.Prelude.Bytes.{
  Bytes, bytes_less, bytes_less→ne, bytes_less_trans, bytes_less_irrefl,
}
use sid_torrent.Bencode.{Value, Items, Fields, no_items, item, no_fields, field}
use sid_torrent.Bencode.Decimal.{int64_limit, IsInt64, format_int}
use sid_torrent.Bencode.Encoder.{
  encode, encode_items, encode_fields, encode_string, encode_int, write_entries, sort_entries,
  insert_entry,
}
use sid_torrent.Bencode.Decoder.{
  Node, Shape, Nodes, Entries, node, no_nodes, also, no_entries, entry, value_of, values_of,
  fields_of, ok, put_entry, key_of, decode_value, decode_items, decode_entries, decode_with_raw,
  decode_bytes,
}
use sid_torrent.Bencode.RoundTrip.{decode_string-encode, decode_int-encode}
unfoldable pub use sid_torrent.Bencode.RoundTrip.Tree.Steps.{
  AllAbove, IsCanonical, AreCanonical, HasCanonical,
}
use sid_torrent.Bencode.RoundTrip.Tree.Steps.{
  node_at, nodes_at, entries_at, value_of-node_at, sort_entries-canonical, string-StartsValue,
  encode-StartsValue, StartsValue-length, decode_value-string, decode_value-int, decode_value-list,
  decode_value-dict, decode_items-end, decode_items-step, decode_entries-end, decode_entries-step,
}

-- `es` with the nodes of `fs` behind it.
snoc : Entries → Bytes → Node → Entries
snoc no_entries k n = entry k n no_entries
snoc (entry j m es) k n = entry j m (snoc es k n)

append_entries : Entries → Entries → Entries
append_entries no_entries more = more
append_entries (entry j m es) more = entry j m (append_entries es more)

append_entries-snoc :
    (es : Entries) (k : Bytes) (n : Node) (more : Entries)
    → append_entries (snoc es k n) more ≡ append_entries es (entry k n more)
unfolding append_entries snoc
append_entries-snoc no_entries k n more = refl
append_entries-snoc (entry j m es) k n more = ap (entry j m) (append_entries-snoc es k n more)

append-no_entries : (es : Entries) → append_entries es no_entries ≡ es
unfolding append_entries
append-no_entries no_entries = refl
append-no_entries (entry j m es) = ap (entry j m) (append-no_entries es)

-- Every key so far is below the keys to come.
abbrev AllBelow : Entries → Fields → Type 0
AllBelow no_entries fs = Unit
AllBelow (entry j m es) fs = AllAbove j fs × AllBelow es fs

put_entry-snoc :
    (k : Bytes) (n : Node) (es : Entries) (v : Value) (fs : Fields)
    → AllBelow es (field k v fs)
    → put_entry k n es ≡ snoc es k n
unfolding put_entry snoc
put_entry-snoc k n no_entries v fs h = refl
put_entry-snoc k n (entry j m es) v fs ((lt, _), h) =
    rw (bytes_less→ne j k lt) (ap (entry j m) (put_entry-snoc k n es v fs h))

AllBelow-snoc :
    (k : Bytes) (n : Node) (es : Entries) (v : Value) (fs : Fields)
    → AllBelow es (field k v fs)
    → AllAbove k fs
    → AllBelow (snoc es k n) fs
unfolding snoc
AllBelow-snoc k n no_entries v fs h a = (a, tt)
AllBelow-snoc k n (entry j m es) v fs ((lt, b), h) a = (b, AllBelow-snoc k n es v fs h a)

length-split : (xs ys : Bytes) → length (xs ++ ys) ≡ length xs + length ys
length-split = length-append

ruleset lengths = (arith, length-split)

read_key :
    (k : Bytes) (f : ℕ) (rest : Bytes) (p : ℕ)
    → length k < int64_limit
    → 0 < f
    → decode_value f (encode_string k ++ rest) p
      ≡ ok (
        node (Shape.bytes k) p (p + length (encode_string k)),
        rest,
        p + length (encode_string k),
      )
read_key k zero rest p h fuel = absurd (omega arith)
read_key k (suc f) rest p h fuel = decode_value-string f k rest p h

mutual
  unfolding node_at encode write_entries IsCanonical append_entries

  read_value :
      (v : Value) (f : ℕ) (rest : Bytes) (p : ℕ)
      → IsCanonical v
      → 2 * length (encode v) < f
      → decode_value f (encode v ++ rest) p ≡ ok (node_at p v, rest, p + length (encode v))
  read_value v zero rest p h fuel = absurd (omega arith)
  read_value (Value.bytes s) (suc f) rest p h fuel = decode_value-string f s rest p h
  read_value (Value.int i) (suc f) rest p h fuel = decode_value-int f i rest p h
  read_value (Value.list xs) (suc f) rest p h fuel =
      let run = read_items xs f rest (p + 1) h (omega lengths) in
      let size : p + 1 + length (encode_items xs) + 1 ≡ p + length (encode (Value.list xs)) =
        omega lengths in
      rw append_assoc (
        decode_value-list f (encode_items xs ++ b'e' ∷ rest) p (nodes_at (p + 1) xs) rest
          (p + 1 + length (encode_items xs) + 1) run
        ∙ ap (λ q. ok (node (Shape.list (nodes_at (p + 1) xs)) p q, rest, q)) size)
  read_value (Value.dict fs) (suc f) rest p h fuel =
      let body = write_entries (encode_fields fs) in
      let sorted : write_entries (sort_entries (encode_fields fs)) ≡ body =
        ap write_entries (sort_entries-canonical fs h) in
      let whole : encode (Value.dict fs) ≡ b'd' ∷ (body ++ b'e' ∷ []) =
        ap (λ t. b'd' ∷ (t ++ b'e' ∷ [])) sorted in
      let run =
        read_entries fs f rest (p + 1) no_entries h tt
          (omega (lengths, ap length whole, length-append body (b'e' ∷ []))) in
      let size : p + 1 + length body + 1 ≡ p + length (encode (Value.dict fs)) =
        omega (lengths, ap length whole, length-append body (b'e' ∷ [])) in
      subst
        (λ t.
          decode_value (suc f) (t ++ rest) p
          ≡ ok (node_at p (Value.dict fs), rest, p + length (encode (Value.dict fs))))
        (sym whole)
        (rw append_assoc (
          decode_value-dict f (body ++ b'e' ∷ rest) p (entries_at (p + 1) fs) rest
            (p + 1 + length body + 1) run
          ∙ ap (λ q. ok (node (Shape.dict (entries_at (p + 1) fs)) p q, rest, q)) size))

  read_items :
      (xs : Items) (f : ℕ) (rest : Bytes) (p : ℕ)
      → AreCanonical xs
      → 2 * length (encode_items xs) + 1 < f
      → decode_items f (encode_items xs ++ b'e' ∷ rest) p
        ≡ ok (nodes_at p xs, rest, p + length (encode_items xs) + 1)
  read_items xs zero rest p h fuel = absurd (omega arith)
  read_items no_items (suc f) rest p h fuel =
      decode_items-end f rest p ∙ ap (λ q. ok (no_nodes, rest, q)) (omega arith)
  read_items (item v xs) (suc f) rest p (hv, h) fuel =
      let some_bytes = StartsValue-length (encode v) (encode-StartsValue v hv) in
      let one = read_value v f (encode_items xs ++ b'e' ∷ rest) p hv (omega lengths) in
      let more = read_items xs f rest (p + length (encode v)) h (omega lengths) in
      rw append_assoc (
        decode_items-step f (encode v) (encode_items xs ++ b'e' ∷ rest) p (node_at p v)
          (encode_items xs ++ b'e' ∷ rest) (p + length (encode v))
          (nodes_at (p + length (encode v)) xs) rest
          (p + length (encode v) + length (encode_items xs) + 1) (encode-StartsValue v hv) one more
        ∙ ap (λ q. ok (nodes_at p (item v xs), rest, q)) (omega lengths))

  read_entries :
      (fs : Fields) (f : ℕ) (rest : Bytes) (p : ℕ) (es : Entries)
      → HasCanonical fs
      → AllBelow es fs
      → 2 * length (write_entries (encode_fields fs)) + 1 < f
      → decode_entries f (write_entries (encode_fields fs) ++ b'e' ∷ rest) p es
        ≡ ok (
          append_entries es (entries_at p fs),
          rest,
          p + length (write_entries (encode_fields fs)) + 1,
        )
  read_entries fs zero rest p es h b fuel = absurd (omega arith)
  read_entries no_fields (suc f) rest p es h b fuel =
      decode_entries-end f rest p es
      ∙ (ap (λ q. ok (es, rest, q)) (omega arith)
          ∙ ap (λ t. ok (t, rest, p + 0 + 1)) (sym (append-no_entries es)))
  read_entries (field k v fs) (suc f) rest p es (hk, hv, a, h) b fuel =
      let tail = write_entries (encode_fields fs) in
      let key = encode_string k in
      let q = p + length key in
      let starts = string-StartsValue k hk in
      let long = StartsValue-length key starts in
      let after = tail ++ b'e' ∷ rest in
      let one =
        read_key k f (encode v ++ after) p hk (omega (lengths, length-append (encode v) tail)) in
      let two = read_value v f after q hv (omega (lengths, length-append (encode v) tail)) in
      let n = node_at q v in
      let more =
        read_entries fs f rest (q + length (encode v)) (snoc es k n) h
          (AllBelow-snoc k n es v fs b a)
          (omega (
            lengths,
            length-append (encode v) tail,
            StartsValue-length (encode v) (encode-StartsValue v hv),
          )) in
      let joined : (key ++ (encode v ++ tail)) ++ b'e' ∷ rest ≡ key ++ (encode v ++ after) =
        append_assoc key (encode v ++ tail) (b'e' ∷ rest)
        ∙ ap (λ t. key ++ t) (append_assoc (encode v) tail (b'e' ∷ rest)) in
      subst
        (λ t.
          decode_entries (suc f) t p es
          ≡ ok (
            append_entries es (entries_at p (field k v fs)),
            rest,
            p + length (key ++ (encode v ++ tail)) + 1,
          ))
        (sym joined)
        (decode_entries-step f key (encode v ++ after) p es k p q (encode v ++ after) q n after
            (q + length (encode v)) starts one two
          ∙ (ap (decode_entries f after (q + length (encode v))) (put_entry-snoc k n es v fs b)
              ∙ (more
                  ∙ (ap (λ t. ok (t, rest, q + length (encode v) + length tail + 1))
                        (append_entries-snoc es k n (entries_at (q + length (encode v)) fs))
                      ∙ ap (λ t. ok (append_entries es (entries_at p (field k v fs)), rest, t))
                          (omega (
                            lengths,
                            length-append (encode v) tail,
                            length-append key (encode v ++ tail),
                          ))))))

-- A canonical value that is encoded is decoded by `DecodeWithRaw` to the same value, with each nested
-- value at the place in the data where its encoding stands. Canonical: int64 integers, lengths below
-- 2^63, and the keys of each dictionary in increasing order.
pub decode_with_raw-encode :
    (v : Value) → IsCanonical v → decode_with_raw (encode v) ≡ ok (node_at 0 v)
unfolding decode_with_raw
decode_with_raw-encode v h =
    let whole = read_value v (2 * length (encode v) + 2) [] 0 h (omega arith) in
    rw (rw append-nil at whole)

-- `DecodeBytes` after `Encode` gives back every canonical value.
pub decode_bytes-encode : (v : Value) → IsCanonical v → decode_bytes (encode v) ≡ ok v
unfolding decode_bytes
decode_bytes-encode v h = rw (decode_with_raw-encode v h) (ap ok (value_of-node_at v 0))
