-- ===== src/Piece.antt =====
-- internal/piece: the assembly, selection and transfer of pieces.
pub mod Assembler
pub mod Buckets
pub mod Manager
pub mod Selection
pub mod Download
pub mod Worker
pub mod Choke
pub mod Resume
