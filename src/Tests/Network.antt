-- ===== src/Tests/Network.antt =====
-- internal/dht and internal/tracker.
use sid_torrent.Prelude.{
  ℕ, ◌+◌, ◌≡◌, ◌≤◌, refl, false, zero, suc, List, [], ◌∷◌, ◌++◌, arith, length, replicate,
}
use sid_torrent.Prelude.Words.{put_uint32, put_uint16}
use sid_torrent.Dht.Kademlia.{
  Contact, RoutingTable, add_contact, new_routing_table, all_contacts, closest_nodes,
}
use sid_torrent.Dht.Kademlia.Table.{IsTable, add_contact-IsTable, new_routing_table-IsTable}
use sid_torrent.Dht.Kademlia.Closest.{AreClosest, closest_nodes-AreClosest}
use sid_torrent.Dht.Compact.{pack_ip, pack_compact_nodes, parse_compact_nodes}
use sid_torrent.Dht.Compact.RoundTrip.{Fits, AllFit, parse_compact_nodes-pack}
use sid_torrent.Tracker.Peers.{TrackerPeer, peer_size}
use sid_torrent.Tracker.Peers.Listing.{ArePeers, compact, usable_peers}
use sid_torrent.Tracker.Udp.{ok, announce_response, udp_action_announce}
use sid_torrent.Tracker.Udp.Checks.{announce_response-compact}

abbrev near : Contact
near = record { id = replicate 20 7; ip = 10 ∷ 0 ∷ 0 ∷ 1 ∷ []; port = 6881 }

abbrev far : Contact
far = record { id = replicate 20 200; ip = replicate 16 1; port = 6881 }

near-Fits : Fits 26 near
unfolding pack_ip
near-Fits = record { id_size = refl; ip_size = refl; ip_kept = refl; port_range = omega arith }

far-Fits : Fits 38 far
unfolding pack_ip
far-Fits = record { id_size = refl; ip_size = refl; ip_kept = refl; port_range = omega arith }

add_contact-IsTable_example : IsTable (add_contact (new_routing_table (replicate 20 1)) near)
add_contact-IsTable_example =
    add_contact-IsTable (new_routing_table (replicate 20 1)) near
      (new_routing_table-IsTable (replicate 20 1) refl)

abbrev table : RoutingTable
table = record { self_id = replicate 20 1; buckets = (near ∷ []) ∷ (far ∷ []) ∷ [] }

closest_nodes-AreClosest_example :
    AreClosest
      (replicate 20 255)
      1
      (all_contacts table.buckets)
      (closest_nodes table (replicate 20 255) 1)
closest_nodes-AreClosest_example = closest_nodes-AreClosest table (replicate 20 255) 1

parse_compact_nodes-pack_example :
    parse_compact_nodes (pack_compact_nodes (near ∷ near ∷ [])) ≡ near ∷ near ∷ []
parse_compact_nodes-pack_example =
    parse_compact_nodes-pack (near ∷ near ∷ []) (near-Fits, (near-Fits, tt))

all_far : (n : ℕ) → AllFit 38 (replicate n far)
all_far zero = tt
all_far (suc n) = (far-Fits, all_far n)

abbrev peers : List TrackerPeer
peers =
    record { ip = 1 ∷ 2 ∷ 3 ∷ 4 ∷ []; port = 80 }
    ∷ record { ip = 224 ∷ 0 ∷ 0 ∷ 1 ∷ []; port = 81 }
    ∷ []

peers-ArePeers : ArePeers (peer_size false) peers
unfolding peer_size
peers-ArePeers = ((refl, omega arith), ((refl, omega arith), tt))

short_list : 20 + length (compact peers) ≤ 1500
unfolding put_uint16
short_list = omega arith

announce_response-compact_example :
    announce_response 77 false (
      put_uint32 udp_action_announce
      ++ (put_uint32 77 ++ (put_uint32 1800 ++ (put_uint32 3 ++ (put_uint32 4 ++ compact peers)))))
    ≡ ok (usable_peers peers)
announce_response-compact_example =
    announce_response-compact 77 1800 3 4 false peers (omega arith) peers-ArePeers short_list
