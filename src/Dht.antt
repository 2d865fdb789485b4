-- ===== src/Dht.antt =====
-- internal/dht: the routing table, and contacts in their compact form.
pub mod Kademlia
pub mod Compact
pub mod Node
