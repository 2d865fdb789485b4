-- ===== src/Dht/Node/Search.antt =====
-- internal/dht/dht.go: `SearchPeers`, in which the answers to the queries are given by a function, `none`
-- for an error. A contact is asked once at most, so one answer for each is enough.
pub mod Found
mod Discovered
use sid_torrent.Prelude.{
  ℕ, zero, suc, ◌+◌, ◌≤◌, ◌≡◌, ◌⊎◌, inl, inr, refl, Bool, true, false, ◌&&◌, Option, none, some,
  List, [], ◌∷◌, ◌++◌, arith, ◌==◌, if◌then◌else◌, Bool-cases, length,
}
use sid_torrent.Prelude.Bytes.{Bytes, bytes_equal}
use sid_torrent.Dht.Kademlia.{Contact, RoutingTable, bucket_size, closest_nodes}
use sid_torrent.Dht.Compact.{pack_ip}
use sid_torrent.Dht.Node.{waits}
use sid_torrent.Tracker.Peers.{TrackerPeer}

-- Equality of the keys `fmt.Sprintf("%s:%d", p.IP.String(), p.Port)`: an address is printed the same
-- whether it has 4 bytes or is mapped into 16.
unfoldable pub same_peer : TrackerPeer → TrackerPeer → Bool
same_peer p q = bytes_equal (pack_ip p.ip) (pack_ip q.ip) && (p.port == q.port)

-- `seenPeers[key]`, for the peers that were discovered.
unfoldable pub seen : TrackerPeer → List TrackerPeer → Bool
unfolding same_peer
seen p [] = false
seen p (q ∷ qs) = if same_peer q p then true else seen p qs

-- The loop over the peers of an answer.
unfoldable pub discover : List TrackerPeer → List TrackerPeer → List TrackerPeer
unfolding seen
discover [] found = found
discover (p ∷ ps) found = discover ps (if seen p found then found else found ++ p ∷ [])

-- `visited` lists the ids that were asked, the last one first.
pub record Search : Type 0 where
  pub visited : List Bytes
  pub discovered : List TrackerPeer

abbrev pub Answers : Type 0
Answers = Contact → Option (List TrackerPeer × List Contact)

-- What an answer adds to the discovered peers and to the contacts of the next round.
unfoldable pub take_answer :
    Search → List Contact → Bytes → Option (List TrackerPeer × List Contact) → Search × List Contact
unfolding discover
take_answer s next id none = (record s { visited = id ∷ s.visited }, next)
take_answer s next id (some (ps, nodes)) =
    (record { visited = id ∷ s.visited; discovered = discover ps s.discovered }, next ++ nodes)

-- One contact: it is asked unless it was asked before.
unfoldable pub ask : Answers → Search → List Contact → Contact → Search × List Contact
unfolding take_answer
ask query s next c = if waits c.id s.visited then (s, next) else take_answer s next c.id (query c)

-- One round over the closest contacts.
unfoldable pub visit : Answers → Search → List Contact → List Contact → Search × List Contact
visit query s next [] = (s, next)
visit query s next (c ∷ cs) = let (s', next') = ask query s next c in visit query s' next' cs

-- The rounds that are left. A round over no contacts changes nothing, which is what the loop's test
-- `len(closest) > 0` saves.
unfoldable pub rounds : ℕ → Answers → Search → List Contact → Search
unfolding visit
rounds zero query s closest = s
rounds (suc n) query s closest = let (s', next) = visit query s [] closest in rounds n query s' next

-- `SearchPeers`
unfoldable pub search_peers : Answers → RoutingTable → Bytes → Search
unfolding rounds
search_peers query rt info =
    rounds 3 query (record { visited = []; discovered = [] }) (closest_nodes rt info bucket_size)
