-- ===== src/Tests/Metainfo.antt =====
-- internal/torrent/parser.go: a torrent of one file of three bytes.
use sid_torrent.Prelude.{◌≡◌, refl, false, some, [], ◌∷◌}
use sid_torrent.Prelude.Int.{pos}
use sid_torrent.Prelude.Bytes.{Bytes, codes}
use sid_torrent.Bencode.{Value, item, no_items}
use sid_torrent.Bencode.Decimal.{atoi, parse_int}
use sid_torrent.Bencode.Decoder.{
  decode_with_raw, decode_value, decode_string, key_of, decode_int, value_of, put_entry,
}
use sid_torrent.Torrent.Parser.{
  TorrentFile, ok, open_torrent, public_trackers, collect_tracker_tiers,
}
use sid_torrent.Torrent.Parser.Trackers.{AreCollected, collect_tracker_tiers-AreCollected}
use sid_torrent.Torrent.Parser.Opened.{IsOpened, open_torrent-IsOpened}

abbrev metainfo : Bytes
metainfo = codes "d4:infod6:lengthi3e4:name1:x12:piece lengthi2e6:pieces1:yee"

-- In place of SHA-1.
abbrev sum_stub : Bytes → Bytes
sum_stub b = b

abbrev expected : TorrentFile
expected = record {
  announce = codes "udp://tracker.opentrackr.org:1337/announce";
  trackers = public_trackers;
  name = codes "x";
  total_length = pos 3;
  piece_length = pos 2;
  pieces = codes "y";
  info_hash = codes "d6:lengthi3e4:name1:x12:piece lengthi2e6:pieces1:ye";
  raw_info = codes "d6:lengthi3e4:name1:x12:piece lengthi2e6:pieces1:ye";
  files = record { size = pos 3; path = codes "x" ∷ [] } ∷ [];
  is_multi_file = false;
}

opened : open_torrent sum_stub metainfo ≡ ok expected
unfolding open_torrent decode_with_raw decode_value decode_string atoi key_of decode_int parse_int
    value_of put_entry
opened = refl

open_torrent-IsOpened_example : IsOpened sum_stub metainfo expected
open_torrent-IsOpened_example = open_torrent-IsOpened sum_stub metainfo opened

abbrev announce_list : Value
announce_list = Value.list (
    item (Value.list (item (Value.bytes (codes "a")) (item (Value.bytes (codes "b")) no_items)))
      no_items)

collect_tracker_tiers-AreCollected_example :
    AreCollected
      (codes "a")
      (some announce_list)
      (collect_tracker_tiers (codes "a") (some announce_list))
collect_tracker_tiers-AreCollected_example =
    collect_tracker_tiers-AreCollected (codes "a") (some announce_list)
