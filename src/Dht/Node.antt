-- ===== src/Dht/Node.antt =====
-- internal/dht/dht.go: what a node does with the packets that it gets, and the query for peers. A
-- channel of a waiting query takes one message at most, since its entry is deleted when it is used.
pub mod Packets
pub mod Exchange
pub mod Search
use sid_torrent.Prelude.{
  ℕ, zero, suc, ◌+◌, ◌%◌, ◌^◌, Bool, true, false, ◌||◌, Option, none, some, List, [], ◌∷◌, ◌++◌,
  ◌==◌, if◌then◌else◌, length, take, drop, get_or,
}
use sid_torrent.Prelude.Bytes.{Bytes, bytes_equal, codes}
use sid_torrent.Prelude.Words.{uint16, uint32, put_uint16, get_uint16}
use sid_torrent.Bencode.{Value, Items, Fields, no_items, item, no_fields, field, find}
use sid_torrent.Bencode.Encoder.{encode}
use sid_torrent.Bencode.Decoder.{ok, failed, out_of_fuel, decode_bytes}
use sid_torrent.Dht.Kademlia.{Contact, RoutingTable, bucket_size, add_contact, closest_nodes}
use sid_torrent.Dht.Compact.{to4, pack_compact_nodes, parse_compact_nodes}
use sid_torrent.Tracker.Peers.{TrackerPeer}

-- `net.UDPAddr`
pub record Address : Type 0 where
  pub ip : Bytes
  pub port : ℕ

-- `waiters` lists the transactions whose queries wait.
pub record DhtNode : Type 0 where
  pub id : Bytes
  pub routing_table : RoutingTable
  pub peers_map : List (Bytes × List TrackerPeer)
  pub waiters : List Bytes
  pub tx_counter : ℕ

-- `v.([]byte)`, where a failure gives `nil`, which has no bytes.
unfoldable pub bytes_or_nil : Option Value → Bytes
bytes_or_nil (some (Value.bytes s)) = s
bytes_or_nil _ = []

-- `v.([]byte)` with its second result.
unfoldable pub bytes_of : Option Value → Option Bytes
bytes_of (some (Value.bytes s)) = some s
bytes_of _ = none

-- `v.(map[string]interface{})`
unfoldable pub dict_of : Option Value → Option Fields
dict_of (some (Value.dict fs)) = some fs
dict_of _ = none

-- `v.([]interface{})`
unfoldable pub items_of : Option Value → Items
items_of (some (Value.list xs)) = xs
items_of _ = no_items

-- What a handler leaves: the node, and the packet that it sends back.
pub record Handled : Type 0 where
  pub node : DhtNode
  pub reply : Option Bytes

abbrev pub silent : DhtNode → Handled
silent node = record { node = node; reply = none }

-- `resp`
abbrev pub response_fields : Bytes → Fields → Fields
response_fields t r =
    field (codes "r") (Value.dict r)
      (field (codes "t") (Value.bytes t) (field (codes "y") (Value.bytes (codes "r")) no_fields))

-- The packet of `resp`.
unfoldable pub response : Bytes → Fields → Bytes
response t r = encode (Value.dict (response_fields t r))

-- Six bytes, of which the first four stay 0 when `To4` gives nothing.
unfoldable pub pack_peer : TrackerPeer → Bytes
pack_peer p = elim (to4 p.ip) [ none ↦ 0 ∷ 0 ∷ 0 ∷ 0 ∷ [] | some ip4 ↦ ip4 ] ++ put_uint16 p.port

unfoldable pub pack_peers : List TrackerPeer → Items
unfolding pack_peer
pack_peers [] = no_items
pack_peers (p ∷ ps) = item (Value.bytes (pack_peer p)) (pack_peers ps)

-- `dht.peersMap[infoHash]`
unfoldable pub peers_for : Bytes → List (Bytes × List TrackerPeer) → List TrackerPeer
peers_for h [] = []
peers_for h ((k, ps) ∷ m) = if bytes_equal k h then ps else peers_for h m

unfoldable pub nodes_reply : DhtNode → Bytes → Fields
nodes_reply node target = field (codes "id") (Value.bytes node.id) (
    field (codes "nodes")
      (Value.bytes (pack_compact_nodes (closest_nodes node.routing_table target bucket_size)))
      no_fields)

unfoldable pub peers_reply : DhtNode → Bytes → List TrackerPeer → Fields
unfolding nodes_reply pack_peers
peers_reply node info [] = nodes_reply node info
peers_reply node info (p ∷ ps) =
    field (codes "id") (Value.bytes node.id)
      (field (codes "values") (Value.list (pack_peers (p ∷ ps))) no_fields)

-- The `switch` of `handleQuery`.
unfoldable pub answer : DhtNode → Bytes → Bytes → Fields → Option Bytes
unfolding response nodes_reply peers_reply peers_for bytes_or_nil
answer node q t a =
    if bytes_equal q (codes "ping")
    then some (response t (field (codes "id") (Value.bytes node.id) no_fields))
    else if bytes_equal q (codes "find_node")
    then (let target = bytes_or_nil (find (codes "target") a) in
        if length target == 20 then some (response t (nodes_reply node target)) else none)
    else if bytes_equal q (codes "get_peers")
    then (let info = bytes_or_nil (find (codes "info_hash") a) in
        if length info == 20
        then some (response t (peers_reply node info (peers_for info node.peers_map)))
        else none)
    else none

-- `dht.routingTable.Add` of the sender.
unfoldable pub meet : DhtNode → Bytes → Address → DhtNode
meet node id raddr = record node {
  routing_table =
      add_contact node.routing_table (record { id = id; ip = raddr.ip; port = uint16 raddr.port });
}

-- `handleQuery` once its dictionary of arguments is there.
unfoldable pub handle_arguments : DhtNode → Bytes → Bytes → Address → Option Fields → Handled
unfolding answer meet bytes_or_nil
handle_arguments node q t raddr none = silent node
handle_arguments node q t raddr (some a) =
    let id = bytes_or_nil (find (codes "id") a) in
    let met = meet node id raddr in
    if (length q == 0) || (length t == 0)
    then silent node
    else if length id == 20
    then record { node = met; reply = answer met q t a }
    else silent node

-- `handleQuery`
unfoldable pub handle_query : DhtNode → Fields → Address → Handled
unfolding handle_arguments bytes_or_nil dict_of
handle_query node m raddr =
    handle_arguments node (bytes_or_nil (find (codes "q") m)) (bytes_or_nil (find (codes "t") m))
      raddr (dict_of (find (codes "a") m))

-- `handleResponse` once its dictionary is there.
unfoldable pub handle_result : DhtNode → Address → Option Fields → DhtNode
unfolding meet bytes_or_nil
handle_result node raddr none = node
handle_result node raddr (some r) =
    let id = bytes_or_nil (find (codes "id") r) in
    if length id == 20 then meet node id raddr else node

-- `handleResponse`
unfoldable pub handle_response : DhtNode → Fields → Address → DhtNode
unfolding handle_result dict_of
handle_response node m raddr = handle_result node raddr (dict_of (find (codes "r") m))

-- Is a query with this transaction waiting?
unfoldable pub waits : Bytes → List Bytes → Bool
waits t [] = false
waits t (u ∷ us) = if bytes_equal u t then true else waits t us

-- `delete(dht.waiters, t)`
unfoldable pub forget : Bytes → List Bytes → List Bytes
forget t [] = []
forget t (u ∷ us) = if bytes_equal u t then forget t us else u ∷ forget t us

-- The buffer of `listenLoop`, which cuts a longer packet off.
abbrev pub receive_size : ℕ
receive_size = 2048

-- What `handleMessage` leaves: the node, the packet sent back, and the message that goes into the
-- channel of the query with that transaction.
pub record Outcome : Type 0 where
  pub node : DhtNode
  pub reply : Option Bytes
  pub delivered : Option (Bytes × Fields)

abbrev pub ignored : DhtNode → Outcome
ignored node = record { node = node; reply = none; delivered = none }

unfoldable pub query_outcome : Handled → Outcome
query_outcome h = record { node = h.node; reply = h.reply; delivered = none }

-- The `switch` at the end of `handleMessage`, with the interception of answers before it.
unfoldable pub dispatch : DhtNode → Fields → Address → Bytes → Bytes → Outcome
unfolding waits forget handle_query handle_response query_outcome
dispatch node m raddr y t =
    let released = record node { waiters = forget t node.waiters } in
    if bytes_equal y (codes "r")
    then (if waits t node.waiters
        then record {
          node = handle_response released m raddr;
          reply = none;
          delivered = some (t, m);
        }
        else ignored (handle_response node m raddr))
    else if bytes_equal y (codes "q")
    then query_outcome (handle_query node m raddr)
    else ignored node

unfoldable pub with_kind : DhtNode → Fields → Address → Option Bytes → Option Bytes → Outcome
unfolding dispatch
with_kind node m raddr (some y) (some t) = dispatch node m raddr y t
with_kind node m raddr _ _ = ignored node

unfoldable pub handle_decoded : DhtNode → Value → Address → Outcome
unfolding with_kind bytes_of
handle_decoded node (Value.dict m) raddr =
    with_kind node m raddr (bytes_of (find (codes "y") m)) (bytes_of (find (codes "t") m))
handle_decoded node _ raddr = ignored node

-- `handleMessage`
unfoldable pub handle_message : DhtNode → Bytes → Address → Outcome
unfolding handle_decoded
handle_message node content raddr = elim (decode_bytes content) [
  | ok v ↦ handle_decoded node v raddr
  | failed e ↦ ignored node
  | out_of_fuel ↦ ignored node
]

-- `query`
abbrev pub query_value : Bytes → Bytes → Bytes → Value
query_value id tx info = Value.dict (
    field (codes "a")
      (Value.dict (
        field (codes "id") (Value.bytes id)
          (field (codes "info_hash") (Value.bytes info) no_fields)))
      (field (codes "q") (Value.bytes (codes "get_peers")) (
        field (codes "t") (Value.bytes tx)
          (field (codes "y") (Value.bytes (codes "q")) no_fields))))

-- The query that `queryGetPeers` sends.
unfoldable pub get_peers_query : Bytes → Bytes → Bytes → Bytes
get_peers_query id tx info = encode (query_value id tx info)

-- A query under way: the node that waits, the transaction, and the packet.
pub record Query : Type 0 where
  pub node : DhtNode
  pub tx : Bytes
  pub packet : Bytes

-- `queryGetPeers` up to the wait. The transaction is the low half of the counter.
unfoldable pub begin_query : DhtNode → Bytes → Query
unfolding get_peers_query
begin_query node info =
    let counter = uint32 (node.tx_counter + 1) in
    let tx = put_uint16 (uint16 counter) in
    record {
      node = record node { tx_counter = counter; waiters = tx ∷ node.waiters };
      tx = tx;
      packet = get_peers_query node.id tx info;
    }

-- One entry of `values`: an address and a port in 6 or in 18 bytes.
unfoldable pub peer_of : Value → List TrackerPeer
peer_of (Value.bytes b) =
    if length b == 6
    then record { ip = take 4 b; port = get_uint16 (get_or b 4 0) (get_or b 5 0) } ∷ []
    else if length b == 18
    then record { ip = take 16 b; port = get_uint16 (get_or b 16 0) (get_or b 17 0) } ∷ []
    else []
peer_of _ = []

unfoldable pub peers_of : Items → List TrackerPeer
unfolding peer_of
peers_of no_items = []
peers_of (item v xs) = peer_of v ++ peers_of xs

-- The message that `queryGetPeers` waited for: peers and closer contacts, or its error.
unfoldable pub read_answer : Fields → Option (List TrackerPeer × List Contact)
unfolding dict_of items_of peers_of bytes_or_nil parse_compact_nodes
read_answer m = elim (dict_of (find (codes "r") m)) [
  | none ↦ none
  | some r ↦ some (
    peers_of (items_of (find (codes "values") r)),
    parse_compact_nodes (bytes_or_nil (find (codes "nodes") r)),
  )
]

-- The end of `queryGetPeers`, with the message of the channel, or without one after the timeout.
unfoldable pub end_query :
    DhtNode → Bytes → Option Fields → DhtNode × Option (List TrackerPeer × List Contact)
unfolding forget read_answer
end_query node tx got = (
  record node { waiters = forget tx node.waiters },
  elim got [ none ↦ none | some m ↦ read_answer m ],
)
