-- ===== src/Peer/Pex.antt =====
-- internal/peer/pex.go: the extension handshake, and the exchange of peers. An address is given as what
-- net.SplitHostPort, net.ParseIP and fmt.Sscanf make of its text.
pub mod RoundTrip
use sid_torrent.Prelude.{
  ℕ, zero, suc, ◌+◌, ◌-◌, ◌%◌, Bool, true, false, Option, none, some, List, [], ◌∷◌, ◌++◌, ltb,
  ◌==◌, if◌then◌else◌, length, drop,
}
use sid_torrent.Prelude.Int.{ℤ, pos, negsuc}
use sid_torrent.Prelude.Bytes.{Bytes, codes}
use sid_torrent.Prelude.Words.{uint16, put_uint16}
use sid_torrent.Bencode.{Value, Fields, no_fields, field, find}
use sid_torrent.Bencode.Encoder.{encode}
use sid_torrent.Bencode.Decoder.{Result, ok, failed, out_of_fuel, decode_bytes}
use sid_torrent.Dht.Compact.{to4}
use sid_torrent.Dht.Node.{bytes_or_nil, dict_of}
use sid_torrent.Peer.Message.{Message, msg_extended}
use sid_torrent.Peer.State.{PeerState, Channel, Client, write_message}
use sid_torrent.Tracker.Peers.{TrackerPeer, read_peer}

abbrev pub local_pex_extension_id : ℕ
local_pex_extension_id = 1

abbrev pub extended_message : ℕ → Value → Message
extended_message id v = record { id = msg_extended; payload = id ∷ encode v }

-- `payloadDict`
abbrev pub handshake_value : Value
handshake_value = Value.dict (
    field (codes "m")
      (Value.dict (field (codes "ut_pex") (Value.int (pos local_pex_extension_id)) no_fields))
      (field (codes "v") (Value.bytes (codes "SidTorrent 1.0")) no_fields))

unfoldable pub send_extension_handshake : Client → Client × Bool
send_extension_handshake c = write_message c (extended_message 0 handshake_value)

-- An address whose text cannot be split is none. An address that is no IP has no bytes.
abbrev pub ParsedAddress : Type 0
ParsedAddress = Option TrackerPeer

-- What an address writes in front of `add4Buf`, by what `To4` gives for it.
unfoldable pub write4 : Option Bytes → ℕ → Bytes → Bytes
write4 none port buf = buf
write4 (some ip4) port buf = ip4 ++ (put_uint16 port ++ buf)

-- `add4Buf`
unfoldable pub add4 : List ParsedAddress → Bytes
unfolding write4
add4 [] = []
add4 (none ∷ added) = add4 added
add4 (some p ∷ added) = write4 (to4 p.ip) p.port (add4 added)

unfoldable pub write6 : Option Bytes → TrackerPeer → Bytes → Bytes
write6 none p buf = p.ip ++ (put_uint16 p.port ++ buf)
write6 (some ip4) p buf = buf

-- `add6Buf`
unfoldable pub add6 : List ParsedAddress → Bytes
unfolding write6
add6 [] = []
add6 (none ∷ added) = add6 added
add6 (some p ∷ added) = write6 (to4 p.ip) p (add6 added)

-- `pexDict["added6"]`, which is left out when it is empty.
unfoldable pub added6_field : Bytes → Fields
added6_field [] = no_fields
added6_field (b ∷ bs) = field (codes "added6") (Value.bytes (b ∷ bs)) no_fields

unfoldable pub pex_value : List ParsedAddress → Value
unfolding add4 add6 added6_field
pex_value added =
    Value.dict (field (codes "added") (Value.bytes (add4 added)) (added6_field (add6 added)))

-- `byte(n)` of an int.
unfoldable pub to_byte : ℤ → ℕ
to_byte (pos n) = n % 256
to_byte (negsuc n) = 255 - n % 256

unfoldable pub send_pex_message : Client → List ParsedAddress → ℤ → Client × Bool
unfolding pex_value to_byte
send_pex_message c added remote_pex_id =
    write_message c (extended_message (to_byte remote_pex_id) (pex_value added))

-- What `HandleExtended` leaves: the state and the channel, or an error, or it waits for ever, on a
-- channel that is nil, or that is full and from which nobody receives any more.
pub data Extended : Type 0 where
  handled : PeerState → Option Channel → Extended
  refused : Extended
  blocked : Extended

-- The answer to an extension handshake.
unfoldable pub take_pex_id : PeerState → Option Value → PeerState
take_pex_id s (some (Value.int i)) = record s { remote_pex_id = i }
take_pex_id s _ = s

unfoldable pub take_handshake : PeerState → Option Fields → PeerState
unfolding take_pex_id
take_handshake s none = s
take_handshake s (some m) = take_pex_id s (find (codes "ut_pex") m)

-- The loop over compact peers of one size, with fuel for as many rounds as there are bytes.
unfoldable pub added_peers : ℕ → ℕ → Bytes → List TrackerPeer
unfolding read_peer
added_peers zero size content = []
added_peers (suc f) size content =
    let rest = added_peers f size (drop size content) in
    if ltb (length content) size then [] else read_peer size content ∷ rest

-- The sends into a channel, by how many it still takes.
unfoldable pub deliver : PeerState → Option ℕ → List TrackerPeer → List TrackerPeer → Extended
deliver s none sent ps = handled s (some (record { sent = sent ++ ps; room = none }))
deliver s (some n) sent ps =
    if ltb n (length ps)
    then blocked
    else handled s (some (record { sent = sent ++ ps; room = some (n - length ps) }))

-- The peers go into the channel one by one.
unfoldable pub announce : PeerState → Option Channel → List TrackerPeer → Extended
unfolding deliver
announce s chan [] = handled s chan
announce s none (p ∷ ps) = blocked
announce s (some ch) (p ∷ ps) = deliver s ch.room ch.sent (p ∷ ps)

unfoldable pub all_added : Fields → List TrackerPeer
unfolding added_peers bytes_or_nil
all_added d =
    let four = bytes_or_nil (find (codes "added") d) in
    let six = bytes_or_nil (find (codes "added6") d) in
    added_peers (length four) 6 four ++ added_peers (length six) 18 six

unfoldable pub handle_dict : PeerState → Option Channel → ℕ → Fields → Extended
unfolding take_handshake dict_of announce all_added
handle_dict s chan ext_id d =
    if ext_id == 0
    then handled (take_handshake s (dict_of (find (codes "m") d))) chan
    else if ext_id == local_pex_extension_id
    then announce s chan (all_added d)
    else handled s chan

unfoldable pub handle_decoded : PeerState → Option Channel → ℕ → Result Value → Extended
unfolding handle_dict
handle_decoded s chan ext_id (ok (Value.dict d)) = handle_dict s chan ext_id d
handle_decoded s chan ext_id _ = refused

unfoldable pub handle_payload : PeerState → Option Channel → Bytes → Extended
unfolding handle_decoded
handle_payload s chan [] = refused
handle_payload s chan (ext_id ∷ raw) = handle_decoded s chan ext_id (decode_bytes raw)

-- `HandleExtended`
unfoldable pub handle_extended : PeerState → Option Channel → Message → Extended
unfolding handle_payload
handle_extended s chan m = handle_payload s chan m.payload
