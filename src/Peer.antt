-- ===== src/Peer.antt =====
-- internal/peer: the wire protocol between peers.
pub mod Message
pub mod Bitfield
pub mod Handshake
pub mod State
pub mod Pex
pub mod Startup
