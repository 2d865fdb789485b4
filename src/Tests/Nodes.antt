-- ===== src/Tests/Nodes.antt =====
-- internal/dht/dht.go: two nodes, of which one asks the other for peers, and a search.
use sid_torrent.Prelude.{◌≡◌, refl, some, [], ◌∷◌, arith, replicate}
use sid_torrent.Prelude.Bytes.{Bytes}
use sid_torrent.Dht.Kademlia.{
  Contact, RoutingTable, new_routing_table, add_contact, closest_nodes, bucket_size,
}
use sid_torrent.Dht.Compact.{pack_ip}
use sid_torrent.Dht.Compact.RoundTrip.{Fits}
use sid_torrent.Dht.Node.{DhtNode, Address, meet, peers_for}
use sid_torrent.Dht.Node.Exchange.{exchange, closest, exchange-nodes}
use sid_torrent.Dht.Node.Search.{Answers, search_peers}
use sid_torrent.Dht.Node.Search.Found.{IsSearch, AreVisited, search_peers-IsSearch}
use sid_torrent.Tracker.Peers.{TrackerPeer}

abbrev home : Address
home = record { ip = 10 ∷ 0 ∷ 0 ∷ 1 ∷ []; port = 6881 }

abbrev info : Bytes
info = replicate 20 3

abbrev asker : DhtNode
asker = record {
  id = replicate 20 7;
  routing_table = new_routing_table (replicate 20 7);
  peers_map = [];
  waiters = [];
  tx_counter = 0;
}

abbrev peer : TrackerPeer
peer = record { ip = 1 ∷ 2 ∷ 3 ∷ 4 ∷ []; port = 80 }

-- A node which knows a peer for one torrent.
abbrev knower : DhtNode
knower = record {
  id = replicate 20 9;
  routing_table = new_routing_table (replicate 20 9);
  peers_map = (replicate 20 5, peer ∷ []) ∷ [];
  waiters = [];
  tx_counter = 0;
}

abbrev asker_contact : Contact
asker_contact = record { id = replicate 20 7; ip = 10 ∷ 0 ∷ 0 ∷ 1 ∷ []; port = 6881 }

asker_closest : closest (meet knower asker.id home) info ≡ asker_contact ∷ []
unfolding meet add_contact closest_nodes new_routing_table
asker_closest = refl

asker-Fits : Fits 26 asker_contact
unfolding pack_ip
asker-Fits = record { id_size = refl; ip_size = refl; ip_kept = refl; port_range = omega arith }

exchange-nodes_example :
    exchange asker knower info home home ≡ some ([], closest (meet knower asker.id home) info)
unfolding peers_for
exchange-nodes_example =
    exchange-nodes asker knower info home home refl refl refl refl
      (rw asker_closest (asker-Fits, tt))

abbrev first : Contact
first = record { id = replicate 20 200; ip = 10 ∷ 0 ∷ 0 ∷ 2 ∷ []; port = 6881 }

abbrev second : Contact
second = record { id = replicate 20 201; ip = 10 ∷ 0 ∷ 0 ∷ 3 ∷ []; port = 6881 }

-- Every contact gives the same peer and points to the second one.
abbrev answers : Answers
answers c = some (peer ∷ peer ∷ [], second ∷ [])

abbrev table : RoutingTable
table = record { self_id = replicate 20 1; buckets = (first ∷ []) ∷ [] }

search_peers-IsSearch_example :
    IsSearch answers (search_peers answers table info)
    × AreVisited answers
        (closest_nodes table info bucket_size)
        (search_peers answers table info).visited
search_peers-IsSearch_example = search_peers-IsSearch answers table info
