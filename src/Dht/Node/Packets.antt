-- ===== src/Dht/Node/Packets.antt =====
-- internal/dht/dht.go: the packets of a query for peers fit into the buffer of `listenLoop`.
use sid_torrent.Prelude.{
  ℕ, zero, suc, ◌+◌, ◌*◌, ◌≤◌, ◌≡◌, refl, ap, List, [], ◌∷◌, ◌++◌, arith, length, length-append,
  take, ltb, ◌/◌, ◌%◌, Bool-cases, inl, inr,
}
use sid_torrent.Prelude.Bytes.{Bytes, bytes_less}
use sid_torrent.Bencode.{
  Value, Items, Fields, bytes, int, list, dict, no_items, item, no_fields, field,
}
use sid_torrent.Dht.Kademlia.{bucket_size, closest_nodes}
use sid_torrent.Dht.Compact.{pack_compact_nodes}
use sid_torrent.Dht.Node.{
  DhtNode, response, response_fields, nodes_reply, get_peers_query, query_value, receive_size,
}
use sid_torrent.Bencode.Decimal.{itoa, emit_digits}
use sid_torrent.Bencode.Encoder.{
  encode, encode_items, encode_fields, encode_string, encode_int, insert_entry, sort_entries,
  write_entries,
}

length-emit_digits : (f n : ℕ) (out : Bytes) → length (emit_digits f n out) ≤ f + length out
unfolding emit_digits
length-emit_digits zero n out = omega arith
length-emit_digits (suc f) n out = elim (Bool-cases (ltb n 10)) [
  | inl last ↦ rw last (omega arith)
  | inr more ↦ rw more (omega (arith, length-emit_digits f (n / 10) ((b'0' + n % 10) ∷ out)))
]

length-itoa : (n : ℕ) → length (itoa n) ≤ n + 1
unfolding itoa
length-itoa n = omega (arith, length-emit_digits (suc n) n [])

length-encode_string : (s : Bytes) → length (encode_string s) ≤ 2 * length s + 2
unfolding encode_string
length-encode_string s =
    omega (arith, length-itoa (length s), length-append (itoa (length s)) (b':' ∷ s))

length-insert :
    (k e : Bytes) (es : List (Bytes × Bytes))
    → length (write_entries (insert_entry k e es))
      ≡ length (encode_string k) + length e + length (write_entries es)
unfolding write_entries insert_entry
length-insert k e [] = omega (arith, length-append (encode_string k) (e ++ []), length-append e [])
length-insert k e ((j, d) ∷ es) =
    let first = length-append (encode_string k) (e ++ write_entries ((j, d) ∷ es)) in
    let second = length-append e (write_entries ((j, d) ∷ es)) in
    elim (Bool-cases (bytes_less j k)) [
      | inl less ↦
          let a = length-append (encode_string j) (d ++ write_entries (insert_entry k e es)) in
          let b = length-append d (write_entries (insert_entry k e es)) in
          let c = length-append (encode_string j) (d ++ write_entries es) in
          let f = length-append d (write_entries es) in
          rw less (omega (arith, a, b, c, f, length-insert k e es))
      | inr more ↦ rw more (omega (arith, first, second))
    ]

length-sort :
    (es : List (Bytes × Bytes))
    → length (write_entries (sort_entries es)) ≡ length (write_entries es)
unfolding sort_entries write_entries
length-sort [] = refl
length-sort ((k, e) ∷ es) = omega (
  arith,
  length-insert k e (sort_entries es),
  length-sort es,
  length-append (encode_string k) (e ++ write_entries es),
  length-append e (write_entries es),
)

-- A bound for the encoding, from the sizes of the strings alone.
unfoldable mutual
  weight : Value → ℕ
  weight (bytes s) = 2 * length s + 2
  weight (int i) = length (encode_int i)
  weight (list xs) = 2 + weight_items xs
  weight (dict fs) = 2 + weight_fields fs

  weight_items : Items → ℕ
  weight_items no_items = 0
  weight_items (item v xs) = weight v + weight_items xs

  weight_fields : Fields → ℕ
  weight_fields no_fields = 0
  weight_fields (field k v fs) = 2 * length k + 2 + (weight v + weight_fields fs)

mutual
  unfolding weight encode write_entries

  length-encode : (v : Value) → length (encode v) ≤ weight v
  length-encode (bytes s) = length-encode_string s
  length-encode (int i) = omega arith
  length-encode (list xs) =
      omega (arith, length-append (encode_items xs) (b'e' ∷ []), length-encode_items xs)
  length-encode (dict fs) =
      let es = encode_fields fs in
      omega (
        arith,
        length-append (write_entries (sort_entries es)) (b'e' ∷ []),
        length-sort es,
        length-encode_fields fs,
      )

  length-encode_items : (xs : Items) → length (encode_items xs) ≤ weight_items xs
  length-encode_items no_items = omega arith
  length-encode_items (item v xs) =
      omega
        (arith, length-append (encode v) (encode_items xs), length-encode v, length-encode_items xs)

  length-encode_fields :
      (fs : Fields) → length (write_entries (encode_fields fs)) ≤ weight_fields fs
  length-encode_fields no_fields = omega arith
  length-encode_fields (field k v fs) = omega (
    arith,
    length-append (encode_string k) (encode v ++ write_entries (encode_fields fs)),
    length-append (encode v) (write_entries (encode_fields fs)),
    length-encode_string k,
    length-encode v,
    length-encode_fields fs,
  )

pub take_whole : (n : ℕ) (xs : Bytes) → length xs ≤ n → take n xs ≡ xs
take_whole zero [] h = refl
take_whole zero (x ∷ xs) h = absurd (omega arith)
take_whole (suc n) [] h = refl
take_whole (suc n) (x ∷ xs) h = ap (λ ys. x ∷ ys) (take_whole n xs (omega arith))

-- A query fits into the buffer of the node that it reaches.
pub query-fits :
    (id tx info : Bytes)
    → length id ≡ 20
    → length info ≡ 20
    → length tx ≡ 2
    → take receive_size (get_peers_query id tx info) ≡ get_peers_query id tx info
unfolding get_peers_query weight
query-fits id tx info h k l =
    take_whole 2048 _ (omega (arith, length-encode (query_value id tx info), h, k, l))

-- So does an answer with at most eight contacts.
pub response-fits :
    (t : Bytes) (node : DhtNode) (target : Bytes)
    → length t ≡ 2
    → length node.id ≡ 20
    → length (pack_compact_nodes (closest_nodes node.routing_table target bucket_size)) ≤ 208
    → take receive_size (response t (nodes_reply node target))
      ≡ response t (nodes_reply node target)
unfolding response nodes_reply weight
response-fits t node target h k l = take_whole 2048 _ (
    omega
      (arith, length-encode (Value.dict (response_fields t (nodes_reply node target))), h, k, l))
