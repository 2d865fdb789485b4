-- ===== src/Tracker.antt =====
-- internal/tracker/tracker.go: the UDP protocol and the compact form of peers.
pub mod Peers
pub mod Udp
