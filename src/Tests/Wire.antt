-- ===== src/Tests/Wire.antt =====
-- internal/peer: messages, bitfields, handshakes.
use sid_torrent.Prelude.{◌≡◌, some, [], ◌∷◌, ◌++◌, arith}
use sid_torrent.Peer.Message.{Message, serialize, got, read_message}
use sid_torrent.Prelude.{List, Bool, true, false, replicate, refl}
use sid_torrent.Prelude.Bytes.{codes}
use sid_torrent.Peer.Bitfield.Packing.{pack, pack_from, pack_byte}
use sid_torrent.Peer.Handshake.{Handshake, HandshakeResult, read_handshake}
use sid_torrent.Peer.Handshake
use sid_torrent.Peer.Handshake.RoundTrip.{read_handshake-serialize}
use sid_torrent.Peer.Message.Framing.{read_message-serialize}

abbrev have_three : Message
have_three = record { id = 4; payload = 0 ∷ 0 ∷ 0 ∷ 3 ∷ [] }

read_message-serialize_example :
    read_message (serialize have_three ++ 9 ∷ []) ≡ got (some have_three) (9 ∷ [])
read_message-serialize_example = read_message-serialize have_three (9 ∷ []) (omega arith)

abbrev owned : List Bool
owned = true ∷ false ∷ true ∷ true ∷ false ∷ false ∷ false ∷ true ∷ false ∷ true ∷ []

packed_owned : pack owned ≡ 177 ∷ 64 ∷ []
unfolding pack pack_from pack_byte
packed_owned = refl

abbrev hello : Handshake
hello = record {
  pstr = codes "BitTorrent protocol";
  info_hash = replicate 20 7;
  peer_id = replicate 20 9;
  supports_extensions = true;
}

read_handshake-serialize_example :
    read_handshake (Handshake.serialize hello ++ 1 ∷ 2 ∷ []) ≡ Handshake.got hello
read_handshake-serialize_example =
    read_handshake-serialize hello (1 ∷ 2 ∷ []) (omega arith) refl refl
