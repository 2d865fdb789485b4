-- ===== src/Tracker/Peers/Listing.antt =====
-- internal/tracker/tracker.go: `parseCompactPeers` on the peers that it is given.
use sid_torrent.Prelude.{
  ℕ, zero, suc, ◌+◌, ◌-◌, ◌^◌, ◌<◌, ◌≤◌, ◌≡◌, refl, ◌∙◌, ap, Bool, true, false, List, [], ◌∷◌, ◌++◌,
  arith, ltb, if◌then◌else◌, length, length-append, drop, part, drop_add, get_or-append,
}
use sid_torrent.Prelude.Bytes.{Bytes}
use sid_torrent.Prelude.Words.{put_uint16, get-put_uint16}
use sid_torrent.Tracker.Peers.{
  TrackerPeer, usable, peer_size, read_peer, read_peers, parse_compact_peers,
}

-- A peer of `size` bytes.
abbrev pub IsPeer : ℕ → TrackerPeer → Type 0
IsPeer size p = (length p.ip ≡ size - 2) × (p.port < 2 ^ 16)

abbrev pub ArePeers : ℕ → List TrackerPeer → Type 0
ArePeers size [] = Unit
ArePeers size (p ∷ ps) = IsPeer size p × ArePeers size ps

-- The list that a tracker sends.
abbrev pub compact : List TrackerPeer → Bytes
compact [] = []
compact (p ∷ ps) = p.ip ++ (put_uint16 p.port ++ compact ps)

abbrev pub usable_peers : List TrackerPeer → List TrackerPeer
usable_peers [] = []
usable_peers (p ∷ ps) = if usable p then p ∷ usable_peers ps else usable_peers ps

module _ (size : ℕ) (big : 3 ≤ size) where
  pub front :
      (p : TrackerPeer) (rest : Bytes)
      → IsPeer size p
      → (length (p.ip ++ (put_uint16 p.port ++ rest)) ≡ size + length rest)
        × (read_peer size (p.ip ++ (put_uint16 p.port ++ rest)) ≡ p)
        × (drop size (p.ip ++ (put_uint16 p.port ++ rest)) ≡ rest)
  unfolding read_peer put_uint16
  front p rest (a, b) =
      let tail = put_uint16 p.port ++ rest in
      let e0 : length p.ip + 0 ≡ size - 2 = omega arith in
      let e1 : length p.ip + 1 ≡ size - 1 = omega arith in
      let e2 : length p.ip + 2 ≡ size = omega arith in
      let hi = rw e0 at (get_or-append p.ip tail 0 0) in
      let lo = rw e1 at (get_or-append p.ip tail 1 0) in
      let end = rw e2 at (drop_add p.ip tail 2) in
      (
        omega (arith, length-append p.ip tail),
        rw (part p.ip tail (size - 2) a, hi, lo, get-put_uint16 p.port b) refl,
        end,
      )

  read_peers-compact :
      (f : ℕ) (ps : List TrackerPeer)
      → ArePeers size ps
      → length (compact ps) ≤ f
      → read_peers f size (compact ps) ≡ usable_peers ps
  unfolding read_peers
  read_peers-compact zero [] all le = refl
  read_peers-compact (suc f) [] all le =
      let short : ltb 0 size ≡ true = ground arith in rw short refl
  read_peers-compact zero (p ∷ ps) (fit, all) le =
      let (long, _, _) = front p (compact ps) fit in absurd (omega arith)
  read_peers-compact (suc f) (p ∷ ps) (fit, all) le =
      let (long, first, rest) = front p (compact ps) fit in
      let enough : ltb (length (p.ip ++ (put_uint16 p.port ++ compact ps))) size ≡ false =
        ground (arith, long) in
      let later = ap (read_peers f size) rest ∙ read_peers-compact f ps all (omega arith) in
      let others = read_peers f size (drop size (p.ip ++ (put_uint16 p.port ++ compact ps))) in
      rw enough (
        ap (λ q. if usable q then q ∷ others else others) first
        ∙ ap (λ r. if usable p then p ∷ r else r) later)

-- `parseCompactPeers` of a list in compact form gives its peers in their order, without those whose
-- address is unspecified or multicast. The addresses have four bytes, or sixteen for IPv6.
pub parse_compact_peers-compact :
    (is_ipv6 : Bool) (ps : List TrackerPeer)
    → ArePeers (peer_size is_ipv6) ps
    → parse_compact_peers (compact ps) is_ipv6 ≡ usable_peers ps
unfolding parse_compact_peers peer_size
parse_compact_peers-compact true ps all =
    read_peers-compact 18 (omega arith) (length (compact ps)) ps all (omega arith)
parse_compact_peers-compact false ps all =
    read_peers-compact 6 (omega arith) (length (compact ps)) ps all (omega arith)
