-- ===== src/Peer/Startup/Outcomes/Messages.antt =====
-- internal/peer: what one message changes of a client.
use sid_torrent.Prelude.{
  ℕ, zero, suc, ◌-◌, ◌<◌, ◌≡◌, refl, Bool, true, false, Option, none, some, List, [], ◌∷◌, arith,
  ◌==◌, ltb, length, length-set, length-drop, inl, inr, Bool-cases, Option-cases,
}
use sid_torrent.Prelude.Bytes.{Bytes, codes}
use sid_torrent.Prelude.Words.{get_uint32}
use sid_torrent.Bencode.{Value, Fields, find}
use sid_torrent.Bencode.Decoder.{Result, ok, failed, out_of_fuel, decode_bytes}
use sid_torrent.Dht.Node.{dict_of}
use sid_torrent.Peer.Message.{Message, got, read_message, handle_have, parse_have}
use sid_torrent.Peer.Bitfield.{parse_bitfield, read_bits}
use sid_torrent.Peer.State.{PeerState, Channel, receives, served}
use sid_torrent.Peer.Pex.{
  Extended, handled, refused, blocked, take_handshake, take_pex_id, announce, deliver,
  handle_extended, handle_dict, handle_decoded, handle_payload,
}
use sid_torrent.Tracker.Peers.{TrackerPeer}

-- Handling an extended message keeps the bitfield, and a channel with a consumer; only on a
-- channel without one it can block.
abbrev pub Keeps : PeerState → Option Channel → Extended → Type 0
Keeps s chan (handled s' chan') =
    (s'.bitfield ≡ s.bitfield) × (served chan' ≡ false → served chan ≡ false)
Keeps s chan refused = Unit
Keeps s chan blocked = served chan ≡ false

take_pex_id-bitfield : (s : PeerState) (v : Option Value) → (take_pex_id s v).bitfield ≡ s.bitfield
unfolding take_pex_id
take_pex_id-bitfield s none = refl
take_pex_id-bitfield s (some (Value.int i)) = refl
take_pex_id-bitfield s (some (Value.bytes b)) = refl
take_pex_id-bitfield s (some (Value.list xs)) = refl
take_pex_id-bitfield s (some (Value.dict d)) = refl

take_handshake-bitfield :
    (s : PeerState) (m : Option Fields) → (take_handshake s m).bitfield ≡ s.bitfield
unfolding take_handshake
take_handshake-bitfield s none = refl
take_handshake-bitfield s (some m) = take_pex_id-bitfield s (find (codes "ut_pex") m)

deliver-Keeps :
    (s : PeerState) (room : Option ℕ) (sent ps : List TrackerPeer)
    → Keeps s (some (record { sent = sent; room = room })) (deliver s room sent ps)
unfolding deliver served receives
deliver-Keeps s none sent ps = (refl, λ h. h)
deliver-Keeps s (some n) sent ps = elim (Bool-cases (ltb n (length ps))) [
  | inl full ↦ rw full refl
  | inr fits ↦ rw fits (refl, λ h. h)
]

announce-Keeps :
    (s : PeerState) (chan : Option Channel) (ps : List TrackerPeer)
    → Keeps s chan (announce s chan ps)
unfolding announce served
announce-Keeps s chan [] = (refl, λ h. h)
announce-Keeps s none (p ∷ ps) = refl
announce-Keeps s (some ch) (p ∷ ps) = deliver-Keeps s ch.room ch.sent (p ∷ ps)

handle_dict-Keeps :
    (s : PeerState) (chan : Option Channel) (ext_id : ℕ) (d : Fields)
    → Keeps s chan (handle_dict s chan ext_id d)
unfolding handle_dict
handle_dict-Keeps s chan ext_id d = elim (Bool-cases (ext_id == 0)) [
  | inl handshake ↦ rw handshake (take_handshake-bitfield s (dict_of (find (codes "m") d)), λ h. h)
  | inr other ↦ rw other (elim (Bool-cases (ext_id == 1)) [
    | inl pex ↦ rw pex (announce-Keeps s chan _)
    | inr unknown ↦ rw unknown (refl, λ h. h)
  ])
]

handle_decoded-Keeps :
    (s : PeerState) (chan : Option Channel) (ext_id : ℕ) (r : Result Value)
    → Keeps s chan (handle_decoded s chan ext_id r)
unfolding handle_decoded
handle_decoded-Keeps s chan ext_id (ok (Value.dict d)) = handle_dict-Keeps s chan ext_id d
handle_decoded-Keeps s chan ext_id (ok (Value.bytes b)) = tt
handle_decoded-Keeps s chan ext_id (ok (Value.int i)) = tt
handle_decoded-Keeps s chan ext_id (ok (Value.list xs)) = tt
handle_decoded-Keeps s chan ext_id (failed e) = tt
handle_decoded-Keeps s chan ext_id out_of_fuel = tt

handle_payload-Keeps :
    (s : PeerState) (chan : Option Channel) (payload : Bytes)
    → Keeps s chan (handle_payload s chan payload)
unfolding handle_payload
handle_payload-Keeps s chan [] = tt
handle_payload-Keeps s chan (ext_id ∷ raw) = handle_decoded-Keeps s chan ext_id (decode_bytes raw)

pub handle_extended-Keeps :
    (s : PeerState) (chan : Option Channel) (m : Message) → Keeps s chan (handle_extended s chan m)
unfolding handle_extended
handle_extended-Keeps s chan m = handle_payload-Keeps s chan m.payload

length-read_bits : (content : Bytes) (i left : ℕ) → length (read_bits content i left) ≡ left
unfolding read_bits
length-read_bits content i zero = refl
length-read_bits content i (suc left) = omega (arith, length-read_bits content (suc i) left)

pub length-parse_bitfield :
    (content : Bytes) (total : ℕ) {bf : List Bool}
    → parse_bitfield content total ≡ some bf
    → length bf ≡ total
unfolding parse_bitfield
length-parse_bitfield content total h = ground (arith, length-read_bits content 0 total)

pub length-handle_have :
    (bf : List Bool) (m : Message) {bf' : List Bool}
    → handle_have bf m ≡ some bf'
    → length bf' ≡ length bf
unfolding handle_have
length-handle_have bf m h = elim (Option-cases (parse_have m.payload)) [
  | inl bad ↦ cc
  | inr (i, good) ↦ ground (arith, length-set bf i true)
]

-- A message takes something from the stream.
pub read_message-shorter :
    (stream : Bytes) {m : Option Message} {rest : Bytes}
    → read_message stream ≡ got m rest
    → length rest < length stream
unfolding read_message
read_message-shorter [] h = cc
read_message-shorter (a ∷ []) h = cc
read_message-shorter (a ∷ b ∷ []) h = cc
read_message-shorter (a ∷ b ∷ c ∷ []) h = cc
read_message-shorter (a ∷ b ∷ c ∷ d ∷ []) h = ground arith
read_message-shorter (a ∷ b ∷ c ∷ d ∷ x ∷ xs) {m} {rest} h =
    ground (arith, length-drop (get_uint32 a b c d - 1) xs)
