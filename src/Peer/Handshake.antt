-- ===== src/Peer/Handshake.antt =====
-- internal/peer/handshake.go.
pub mod RoundTrip
use sid_torrent.Prelude.{
  ℕ, zero, suc, ◌+◌, ◌%◌, Bool, true, false, List, [], ◌∷◌, ◌++◌, ltb, if◌then◌else◌, length,
  get_or, slice,
}
use sid_torrent.Prelude.Bytes.{Bytes, codes, bytes_equal}
use sid_torrent.Peer.Bitfield.{has_bit}

-- The hash and the id are arrays of 20 bytes, which is a condition where it matters.
pub record Handshake : Type 0 where
  pub pstr : Bytes
  pub info_hash : Bytes
  pub peer_id : Bytes
  pub supports_extensions : Bool

unfoldable pub new_handshake : Bytes → Bytes → Handshake
new_handshake info_hash peer_id = record {
  pstr = codes "BitTorrent protocol";
  info_hash = info_hash;
  peer_id = peer_id;
  supports_extensions = true;
}

unfoldable pub reserved : Bool → Bytes
reserved supported = 0 ∷ 0 ∷ 0 ∷ 0 ∷ 0 ∷ (if supported then 16 else 0) ∷ 0 ∷ 0 ∷ []

-- The buffer has just the room for what is copied into it, one part behind the other.
unfoldable pub serialize : Handshake → Bytes
unfolding reserved
serialize h =
    length h.pstr % 256 ∷ (h.pstr ++ (reserved h.supports_extensions ++ (h.info_hash ++ h.peer_id)))

-- `panics`: the first byte of an empty buffer is read.
pub data HandshakeResult : Type 0 where
  got : Handshake → HandshakeResult
  invalid panics : HandshakeResult

unfoldable pub read_handshake : Bytes → HandshakeResult
read_handshake [] = panics
read_handshake (pstrlen ∷ rest) =
    let buf = pstrlen ∷ rest in
    if ltb (length buf) (pstrlen + 49)
    then invalid
    else got (record {
      pstr = slice buf 1 pstrlen;
      info_hash = slice buf (pstrlen + 9) 20;
      peer_id = slice buf (pstrlen + 29) 20;
      supports_extensions = has_bit (get_or buf (pstrlen + 6) 0) 4;
    })

unfoldable pub verify_handshake : Handshake → Handshake → Bool
verify_handshake sent recv = bytes_equal sent.info_hash recv.info_hash
