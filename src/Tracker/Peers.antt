-- ===== src/Tracker/Peers.antt =====
-- internal/tracker/tracker.go: `parseCompactPeers`.
pub mod Listing
use sid_torrent.Prelude.{
  ℕ, zero, suc, ◌+◌, ◌-◌, ◌/◌, ◌%◌, Bool, true, false, not, ◌&&◌, ◌||◌, Option, none, some, List,
  [], ◌∷◌, ◌++◌, ltb, ◌==◌, if◌then◌else◌, length, take, drop, get_or, slice, replicate,
}
use sid_torrent.Prelude.Bytes.{Bytes, bytes_equal}
use sid_torrent.Prelude.Words.{get_uint16}
use sid_torrent.Dht.Compact.{to4}

pub record TrackerPeer : Type 0 where
  pub ip : Bytes
  pub port : ℕ

-- `net.IP.IsUnspecified`: 0.0.0.0, also as an IPv4 address in an IPv6 one, or ::.
unfoldable pub is_unspecified : Bytes → Bool
unfolding to4
is_unspecified ip = elim (to4 ip) [
  | none ↦ bytes_equal ip (replicate 16 0)
  | some ip4 ↦ bytes_equal ip4 (replicate 4 0)
]

-- `net.IP.IsMulticast`: 224.0.0.0/4 and ff00::/8.
unfoldable pub is_multicast : Bytes → Bool
unfolding to4
is_multicast ip = elim (to4 ip) [
  | none ↦ (length ip == 16) && (get_or ip 0 0 == 255)
  | some ip4 ↦ (get_or ip4 0 0 / 16) == 14
]

unfoldable pub peer_size : Bool → ℕ
peer_size is_ipv6 = if is_ipv6 then 18 else 6

-- The address and the port at the front.
unfoldable pub read_peer : ℕ → Bytes → TrackerPeer
read_peer size content = record {
  ip = take (size - 2) content;
  port = get_uint16 (get_or content (size - 2) 0) (get_or content (size - 1) 0);
}

unfoldable pub usable : TrackerPeer → Bool
unfolding is_unspecified is_multicast
usable p = not (is_unspecified p.ip || is_multicast p.ip)

-- The loop, with fuel for as many rounds as there are bytes.
unfoldable pub read_peers : ℕ → ℕ → Bytes → List TrackerPeer
unfolding read_peer usable
read_peers zero size content = []
read_peers (suc f) size content =
    let p = read_peer size content in
    let rest = read_peers f size (drop size content) in
    if ltb (length content) size then [] else if usable p then p ∷ rest else rest

unfoldable pub parse_compact_peers : Bytes → Bool → List TrackerPeer
unfolding read_peers peer_size
parse_compact_peers content is_ipv6 = read_peers (length content) (peer_size is_ipv6) content
