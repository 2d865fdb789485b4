-- ===== src/Torrent.antt =====
-- internal/torrent: the metainfo of a torrent and the layout of its pieces.
pub mod Pieces
pub mod Parser
