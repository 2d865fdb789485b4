-- ===== src/Bencode/Encoder.antt =====
-- internal/bencode/encoder.go.
use sid_torrent.Prelude.{◌≡◌, refl, List, [], ◌∷◌, ◌++◌, if◌then◌else◌, length}
use sid_torrent.Prelude.Bytes.{Bytes, bytes_less, codes}
use sid_torrent.Bencode.{
  Value, Items, Fields, bytes, int, list, dict, no_items, item, no_fields, field,
}
use sid_torrent.Bencode.Decimal.{itoa, format_int}
use sid_torrent.Prelude.Int.{ℤ, negsuc}

unfoldable pub encode_string : Bytes → Bytes
encode_string s = itoa (length s) ++ b':' ∷ s

unfoldable pub encode_int : ℤ → Bytes
encode_int i = b'i' ∷ (format_int i ++ b'e' ∷ [])

-- `sort.Strings(keys)`, each key with the encoding of its value.
unfoldable pub insert_entry : Bytes → Bytes → List (Bytes × Bytes) → List (Bytes × Bytes)
insert_entry k e [] = (k, e) ∷ []
insert_entry k e ((j, d) ∷ es) =
    if bytes_less j k then (j, d) ∷ insert_entry k e es else (k, e) ∷ (j, d) ∷ es

unfoldable pub sort_entries : List (Bytes × Bytes) → List (Bytes × Bytes)
unfolding insert_entry
sort_entries [] = []
sort_entries ((k, e) ∷ es) = insert_entry k e (sort_entries es)

unfoldable pub write_entries : List (Bytes × Bytes) → Bytes
unfolding encode_string
write_entries [] = []
write_entries ((k, e) ∷ es) = encode_string k ++ (e ++ write_entries es)

-- The values are encoded before the keys are sorted, and not after: encoding has no effect but its
-- result.
unfoldable mutual
  pub encode : Value → Bytes
  encode (bytes s) = encode_string s
  encode (int i) = encode_int i
  encode (list xs) = b'l' ∷ (encode_items xs ++ b'e' ∷ [])
  encode (dict fs) = b'd' ∷ (write_entries (sort_entries (encode_fields fs)) ++ b'e' ∷ [])

  pub encode_items : Items → Bytes
  encode_items no_items = []
  encode_items (item v xs) = encode v ++ encode_items xs

  pub encode_fields : Fields → List (Bytes × Bytes)
  encode_fields no_fields = []
  encode_fields (field k v fs) = (k, encode v) ∷ encode_fields fs

sorted_keys :
    encode (
      dict (field (codes "b") (int (negsuc 6)) (field (codes "a") (bytes (codes "xyz")) no_fields)))
    ≡ codes "d1:a3:xyz1:bi-7ee"
unfolding encode encode_string encode_int sort_entries write_entries itoa format_int
sorted_keys = refl
