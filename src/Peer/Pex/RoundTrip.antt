-- ===== src/Peer/Pex/RoundTrip.antt =====
-- internal/peer/pex.go: what a client sends, handled by another.
use sid_torrent.Prelude.{
  ℕ, zero, suc, ◌^◌, ◌<◌, ◌≤◌, ◌≡◌, ◌⊎◌, inl, inr, refl, ◌∙◌, ap, true, false, Option, none, some,
  List, [], ◌∷◌, ◌++◌, append-nil, arith, ltb, length, length-drop, Option-cases,
}
use sid_torrent.Prelude.Int.{pos}
use sid_torrent.Prelude.Bytes.{Bytes, codes}
use sid_torrent.Prelude.Words.{put_uint16}
use sid_torrent.Bencode.{Value, field, find}
use sid_torrent.Bencode.Decimal.{int64_limit}
use sid_torrent.Bencode.RoundTrip.Tree.{IsCanonical, HasCanonical, AllAbove, decode_bytes-encode}
use sid_torrent.Dht.Compact.{to4}
use sid_torrent.Dht.Node.{bytes_or_nil}
use sid_torrent.Peer.State.{PeerState, Channel, open_channel}
use sid_torrent.Peer.Pex.{
  ParsedAddress, handled, blocked, extended_message, local_pex_extension_id, handshake_value,
  pex_value, add4, add6, added6_field, added_peers, all_added, announce, deliver, handle_extended,
}
use sid_torrent.Tracker.Peers.{TrackerPeer}
use sid_torrent.Tracker.Peers.Listing.{ArePeers, compact, front}

keep4 : Option Bytes → ℕ → List TrackerPeer → List TrackerPeer
keep4 none port ps = ps
keep4 (some ip4) port ps = record { ip = ip4; port = port } ∷ ps

keep6 : Option Bytes → TrackerPeer → List TrackerPeer → List TrackerPeer
keep6 none p ps = p ∷ ps
keep6 (some ip4) p ps = ps

-- The addresses that have four bytes, so written.
unfoldable pub four : List ParsedAddress → List TrackerPeer
unfolding keep4
four [] = []
four (none ∷ added) = four added
four (some p ∷ added) = keep4 (to4 p.ip) p.port (four added)

-- The others.
unfoldable pub six : List ParsedAddress → List TrackerPeer
unfolding keep6
six [] = []
six (none ∷ added) = six added
six (some p ∷ added) = keep6 (to4 p.ip) p (six added)

-- Every address that can be split is an IP address and a port.
abbrev pub AreAddresses : List ParsedAddress → Type 0
AreAddresses [] = Unit
AreAddresses (none ∷ added) = AreAddresses added
AreAddresses (some p ∷ added) =
    ((length p.ip ≡ 4) ⊎ (length p.ip ≡ 16)) × (p.port < 2 ^ 16) × AreAddresses added

add4-compact : (added : List ParsedAddress) → add4 added ≡ compact (four added)
unfolding add4 four
add4-compact [] = refl
add4-compact (none ∷ added) = add4-compact added
add4-compact (some p ∷ added) = elim (Option-cases (to4 p.ip)) [
  | inl long ↦ rw long (add4-compact added)
  | inr (ip4, short) ↦ rw (short, add4-compact added)
]

add6-compact : (added : List ParsedAddress) → add6 added ≡ compact (six added)
unfolding add6 six
add6-compact [] = refl
add6-compact (none ∷ added) = add6-compact added
add6-compact (some p ∷ added) = elim (Option-cases (to4 p.ip)) [
  | inl long ↦ rw (long, add6-compact added)
  | inr (ip4, short) ↦ rw short (add6-compact added)
]

-- What `To4` gives has four bytes, and what it refuses among addresses has sixteen.
length-to4 : (ip ip4 : Bytes) → to4 ip ≡ some ip4 → length ip4 ≡ 4
unfolding to4
length-to4 ip ip4 h = ground (arith, length-drop 12 ip)

long_of_to4 : (ip : Bytes) → (length ip ≡ 4) ⊎ (length ip ≡ 16) → to4 ip ≡ none → length ip ≡ 16
unfolding to4
long_of_to4 ip h k = ground arith

four-ArePeers : (added : List ParsedAddress) → AreAddresses added → ArePeers 6 (four added)
unfolding four
four-ArePeers [] all = tt
four-ArePeers (none ∷ added) all = four-ArePeers added all
four-ArePeers (some p ∷ added) (h, r, all) = elim (Option-cases (to4 p.ip)) [
  | inl long ↦ rw long (four-ArePeers added all)
  | inr (ip4, short) ↦ rw short ((length-to4 p.ip ip4 short, r), four-ArePeers added all)
]

six-ArePeers : (added : List ParsedAddress) → AreAddresses added → ArePeers 18 (six added)
unfolding six
six-ArePeers [] all = tt
six-ArePeers (none ∷ added) all = six-ArePeers added all
six-ArePeers (some p ∷ added) (h, r, all) = elim (Option-cases (to4 p.ip)) [
  | inl long ↦ rw long ((long_of_to4 p.ip h long, r), six-ArePeers added all)
  | inr (ip4, short) ↦ rw short (six-ArePeers added all)
]

added_peers-compact :
    (size f : ℕ) (ps : List TrackerPeer)
    → 3 ≤ size
    → ArePeers size ps
    → length (compact ps) ≤ f
    → added_peers f size (compact ps) ≡ ps
unfolding added_peers
added_peers-compact size zero [] big all le = refl
added_peers-compact size (suc f) [] big all le =
    let short : ltb 0 size ≡ true = ground arith in rw short refl
added_peers-compact size zero (p ∷ ps) big (fit, all) le =
    let (long, _, _) = front size big p (compact ps) fit in absurd (omega arith)
added_peers-compact size (suc f) (p ∷ ps) big (fit, all) le =
    let (long, first, rest) = front size big p (compact ps) fit in
    let enough : ltb (length (p.ip ++ (put_uint16 p.port ++ compact ps))) size ≡ false =
      ground (arith, long) in
    let later =
      ap (added_peers f size) rest ∙ added_peers-compact size f ps big all (omega arith) in
    rw enough (rw (first, later))

-- The dictionary's entry, which is missing when there is nothing in it.
find-added6 :
    (v : Value) (x : Bytes)
    → bytes_or_nil (find (codes "added6") (field (codes "added") v (added6_field x))) ≡ x
unfolding bytes_or_nil added6_field
find-added6 v [] = refl
find-added6 v (b ∷ bs) = refl

field-HasCanonical :
    (x : Bytes)
    → length x < int64_limit
    → AllAbove (codes "added") (added6_field x) × HasCanonical (added6_field x)
unfolding added6_field IsCanonical
field-HasCanonical [] h = (tt, tt)
field-HasCanonical (b ∷ bs) h = ((refl, tt), (omega arith, h, tt, tt))

pex-IsCanonical :
    (added : List ParsedAddress)
    → length (add4 added) < int64_limit
    → length (add6 added) < int64_limit
    → IsCanonical (pex_value added)
unfolding pex_value IsCanonical
pex-IsCanonical added h k =
    let (above, canonical) = field-HasCanonical (add6 added) k in (omega arith, h, above, canonical)

all_added-pex :
    (added : List ParsedAddress)
    → AreAddresses added
    → all_added (field (codes "added") (Value.bytes (add4 added)) (added6_field (add6 added)))
      ≡ four added ++ six added
unfolding all_added
all_added-pex added all =
    let v = Value.bytes (add4 added) in
    let here : bytes_or_nil
          (find (codes "added") (field (codes "added") v (added6_field (add6 added))))
        ≡ compact (four added) =
      add4-compact added in
    let there = find-added6 v (add6 added) ∙ add6-compact added in
    rw (there, here)
      (rw (
        added_peers-compact 6 (length (compact (four added))) (four added) (omega arith)
            (four-ArePeers added all) (omega arith),
        added_peers-compact 18 (length (compact (six added))) (six added) (omega arith)
            (six-ArePeers added all) (omega arith),
      ))

announce-open :
    (s : PeerState) (sent ps : List TrackerPeer)
    → announce s (some (open_channel sent)) ps ≡ handled s (some (open_channel (sent ++ ps)))
unfolding announce deliver
announce-open s sent [] = rw append-nil
announce-open s sent (p ∷ ps) = refl

announce-blocked :
    (s : PeerState) (ps : List TrackerPeer) → 0 < length ps → announce s none ps ≡ blocked
unfolding announce
announce-blocked s [] h = absurd (omega arith)
announce-blocked s (p ∷ ps) h = refl

-- The message that `SendPexMessage` makes for a client of this program, handled by `HandleExtended`,
-- sends the IPv4 addresses into a channel that has a consumer, and then the IPv6 addresses, in their
-- order and without the texts that cannot be split. It changes nothing else. Each address is an IP
-- address with a port below 2^16, and each list has fewer bytes than an int64 counts.
pub handle_extended-pex :
    (s : PeerState) (sent : List TrackerPeer) (added : List ParsedAddress)
    → AreAddresses added
    → length (add4 added) < int64_limit
    → length (add6 added) < int64_limit
    → handle_extended s
        (some (open_channel sent))
        (extended_message local_pex_extension_id (pex_value added))
      ≡ handled s (some (open_channel (sent ++ (four added ++ six added))))
unfolding handle_extended pex_value
handle_extended-pex s sent added all h k = rw (decode_bytes-encode _ (pex-IsCanonical added h k)) (
    ap (announce s (some (open_channel sent))) (all_added-pex added all)
    ∙ announce-open s sent (four added ++ six added))

-- The extension handshake that a client of this program sends tells the other one the number under
-- which it takes exchanges of peers.
pub handle_extended-handshake :
    (s : PeerState) (chan : Option Channel)
    → handle_extended s chan (extended_message 0 handshake_value)
      ≡ handled (record s { remote_pex_id = pos local_pex_extension_id }) chan
unfolding handle_extended IsCanonical
handle_extended-handshake s chan = rw (decode_bytes-encode handshake_value (ground arith))

-- Under the same conditions, an exchange that brings an address blocks for ever when the client has no
-- channel.
pub handle_extended-blocked :
    (s : PeerState) (added : List ParsedAddress)
    → AreAddresses added
    → length (add4 added) < int64_limit
    → length (add6 added) < int64_limit
    → 0 < length (four added ++ six added)
    → handle_extended s none (extended_message local_pex_extension_id (pex_value added)) ≡ blocked
unfolding handle_extended pex_value
handle_extended-blocked s added all h k some_peer =
    rw (decode_bytes-encode _ (pex-IsCanonical added h k))
      (ap (announce s none) (all_added-pex added all) ∙ announce-blocked s _ some_peer)
