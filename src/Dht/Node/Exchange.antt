-- ===== src/Dht/Node/Exchange.antt =====
-- internal/dht/dht.go: a query for peers, from the node that asks to the node that answers and back.
use sid_torrent.Prelude.{
  ◌+◌, ◌≤◌, ◌≡◌, ◌∙◌, ap, refl, true, Option, none, some, List, [], ◌∷◌, arith, if◌then◌else◌,
  length, take,
}
use sid_torrent.Prelude.Bytes.{Bytes, bytes_equal, bytes_equal_refl}
use sid_torrent.Prelude.Words.{uint16, uint32, put_uint16}
use sid_torrent.Bencode.{Value, Fields}
use sid_torrent.Bencode.Decoder.{ok, decode_bytes}
use sid_torrent.Bencode.RoundTrip.Tree.{IsCanonical, HasCanonical, decode_bytes-encode}
use sid_torrent.Dht.Kademlia.{Contact, bucket_size, closest_nodes}
use sid_torrent.Dht.Kademlia.Closest.{closest_nodes-AreClosest}
use sid_torrent.Dht.Compact.{pack_compact_nodes}
use sid_torrent.Dht.Compact.RoundTrip.{AllFit, length-pack26, parse_compact_nodes-pack}
use sid_torrent.Dht.Node.{
  Address, DhtNode, response, nodes_reply, peers_reply, peers_for, meet, get_peers_query,
  query_value, response_fields, begin_query, handle_message, read_answer, handle_decoded, waits,
}
use sid_torrent.Dht.Node.{receive_size}
use sid_torrent.Dht.Node.Packets.{query-fits, response-fits}
use sid_torrent.Tracker.Peers.{TrackerPeer}

unfoldable pub read_delivered :
    Bytes → Option (Bytes × Fields) → Option (List TrackerPeer × List Contact)
read_delivered tx none = none
read_delivered tx (some (t, m)) = if bytes_equal t tx then read_answer m else none

unfoldable pub receive :
    DhtNode → Bytes → Address → Option Bytes → Option (List TrackerPeer × List Contact)
unfolding read_delivered
receive node tx raddr none = none
receive node tx raddr (some packet) =
    read_delivered tx (handle_message node (take receive_size packet) raddr).delivered

-- Both packets arrive, each as far as the buffer of `listenLoop` goes: the node `b` answers the query of
-- `a`, and `a` reads the answer that goes into the channel of this query.
unfoldable pub exchange :
    DhtNode → DhtNode → Bytes → Address → Address → Option (List TrackerPeer × List Contact)
unfolding begin_query receive
exchange a b info at_a at_b =
    let q = begin_query a info in
    receive q.node q.tx at_b (handle_message b (take receive_size q.packet) at_a).reply

-- The contacts that a node offers for a target.
abbrev pub closest : DhtNode → Bytes → List Contact
closest node info = closest_nodes node.routing_table info bucket_size

query-IsCanonical :
    (id tx info : Bytes)
    → length id ≡ 20
    → length info ≡ 20
    → length tx ≡ 2
    → IsCanonical (query_value id tx info)
unfolding IsCanonical
query-IsCanonical id tx info h k l = ground arith

handle_message-decoded :
    (node : DhtNode) (v : Value) (content : Bytes) (raddr : Address)
    → decode_bytes content ≡ ok v
    → handle_message node content raddr ≡ handle_decoded node v raddr
unfolding handle_message
handle_message-decoded node v content raddr h = rw (h, handle_message)

-- What the node `b` does with a query for peers.
handle_message-get_peers :
    (b : DhtNode) (id tx info : Bytes) (raddr : Address)
    → length id ≡ 20
    → length info ≡ 20
    → length tx ≡ 2
    → handle_message b (get_peers_query id tx info) raddr ≡ record {
      node = meet b id raddr;
      reply = some (response tx (peers_reply (meet b id raddr) info (peers_for info b.peers_map)));
      delivered = none;
    }
unfolding get_peers_query handle_decoded
handle_message-get_peers b id tx info raddr h k l =
    let read = decode_bytes-encode (query_value id tx info) (query-IsCanonical id tx info h k l) in
    handle_message-decoded b (query_value id tx info) _ raddr read ∙ rw (l, h, k)

response-IsCanonical :
    (t : Bytes) (r : Fields)
    → length t ≡ 2
    → HasCanonical r
    → IsCanonical (Value.dict (response_fields t r))
unfolding IsCanonical
response-IsCanonical t r h k = ground arith

-- What a node does with an answer that one of its queries waits for.
handle_message-response :
    (a : DhtNode) (t : Bytes) (r : Fields) (raddr : Address)
    → length t ≡ 2
    → HasCanonical r
    → waits t a.waiters ≡ true
    → (handle_message a (response t r) raddr).delivered ≡ some (t, response_fields t r)
unfolding response handle_decoded
handle_message-response a t r raddr h k w =
    let v = Value.dict (response_fields t r) in
    let read = decode_bytes-encode v (response-IsCanonical t r h k) in
    rw (handle_message-decoded a v _ raddr read) (rw w)

-- The transaction of the next query.
abbrev next_tx : DhtNode → Bytes
next_tx a = put_uint16 (uint16 (uint32 (a.tx_counter + 1)))

exchange-response :
    (a b : DhtNode) (info : Bytes) (at_a at_b : Address)
    → length a.id ≡ 20
    → length info ≡ 20
    → let r = peers_reply (meet b a.id at_a) info (peers_for info b.peers_map) in
      HasCanonical r
      → take receive_size (response (next_tx a) r) ≡ response (next_tx a) r
      → exchange a b info at_a at_b ≡ read_answer (response_fields (next_tx a) r)
unfolding exchange waits put_uint16
exchange-response a b info at_a at_b h k canonical whole =
    let tx = next_tx a in
    let asked = record a { tx_counter = uint32 (a.tx_counter + 1); waiters = tx ∷ a.waiters } in
    let r = peers_reply (meet b a.id at_a) info (peers_for info b.peers_map) in
    let waiting : waits tx (tx ∷ a.waiters) ≡ true = rw (bytes_equal_refl tx) in
    let back = handle_message-response asked tx r at_b refl canonical waiting in
    rw (query-fits a.id tx info h k refl) (
      rw (handle_message-get_peers b a.id tx info at_a h k refl)
        (rw (receive, whole) (rw back (rw (bytes_equal_refl tx)))))

-- The contacts that a node gives for the target are few.
length-closest : (node : DhtNode) (info : Bytes) → length (closest node info) ≤ bucket_size
length-closest node info =
    let c = closest_nodes-AreClosest node.routing_table info bucket_size in ground (arith, c.size)

nodes-IsCanonical :
    (node : DhtNode) (info : Bytes)
    → length node.id ≡ 20
    → AllFit 26 (closest node info)
    → HasCanonical (nodes_reply node info)
unfolding nodes_reply IsCanonical
nodes-IsCanonical node info h fit =
    ground (arith, length-pack26 (closest node info) fit, length-closest node info)

-- With ids and an info hash of 20 bytes: a query for peers to a node that knows none for the torrent,
-- but contacts with IPv4 addresses, gives no peers and the contacts that `ClosestNodes` picks for the
-- info hash from that node's routing table, to which the asking node has been added.
pub exchange-nodes :
    (a b : DhtNode) (info : Bytes) (at_a at_b : Address)
    → length a.id ≡ 20
    → length b.id ≡ 20
    → length info ≡ 20
    → peers_for info b.peers_map ≡ []
    → AllFit 26 (closest (meet b a.id at_a) info)
    → exchange a b info at_a at_b ≡ some ([], closest (meet b a.id at_a) info)
unfolding peers_reply read_answer meet put_uint16
exchange-nodes a b info at_a at_b h k l absent fit =
    let met = meet b a.id at_a in
    let reply : peers_reply met info (peers_for info b.peers_map) ≡ nodes_reply met info =
      rw absent in
    let canonical = nodes-IsCanonical met info k fit in
    let short : length (pack_compact_nodes (closest met info)) ≤ 208 =
      omega (arith, length-pack26 (closest met info) fit, length-closest met info) in
    let whole = response-fits (next_tx a) met info refl k short in
    exchange-response a b info at_a at_b h l (rw reply canonical) (rw reply whole)
    ∙ ap (λ r. read_answer (response_fields (next_tx a) r)) reply
    ∙ ap (λ cs. some ([], cs)) (parse_compact_nodes-pack (closest met info) fit)
