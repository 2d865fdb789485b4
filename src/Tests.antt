-- ===== src/Tests.antt =====
-- The theorems at concrete inputs.
mod Layout
mod Assembly
mod Manager
mod Choice
mod Codec
mod Wire
mod Files
mod Network
mod Metainfo
mod Nodes
mod Jobs
mod Resume
mod Choking
mod Stream
mod Transfer
