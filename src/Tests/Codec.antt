-- ===== src/Tests/Codec.antt =====
-- internal/bencode: the dictionary d1:ali7e2:xyee.
use sid_torrent.Prelude.{◌≡◌, [], arith}
use sid_torrent.Prelude.Int.{pos}
use sid_torrent.Prelude.Bytes.{codes}
use sid_torrent.Bencode.{Value, no_items, item, no_fields, field}
use sid_torrent.Bencode.Encoder.{encode}
use sid_torrent.Bencode.Decoder.{ok, decode_with_raw, decode_bytes}
use sid_torrent.Bencode.RoundTrip.Tree.{IsCanonical, decode_bytes-encode}
use sid_torrent.Bencode.Spans.{Ensures, NodeRead}
use sid_torrent.Bencode.Spans.Total.{decode_with_raw-Ensures}

abbrev sample : Value
sample = Value.dict (
    field (codes "a")
      (Value.list (item (Value.int (pos 7)) (item (Value.bytes (codes "xy")) no_items))) no_fields)

sample-IsCanonical : IsCanonical sample
unfolding IsCanonical
sample-IsCanonical = (omega arith, (omega arith, (omega arith, tt)), tt, tt)

decode_bytes-encode_example : decode_bytes (encode sample) ≡ ok sample
decode_bytes-encode_example = decode_bytes-encode sample sample-IsCanonical

decode_with_raw-Ensures_example :
    Ensures
      (λ n. NodeRead (codes "d1:ali7e2:xyee") 0 (n, [], 14))
      (decode_with_raw (codes "d1:ali7e2:xyee"))
decode_with_raw-Ensures_example = decode_with_raw-Ensures (codes "d1:ali7e2:xyee")
