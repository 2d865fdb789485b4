-- ===== src/Tests/Resume.antt =====
-- internal/piece/manager.go: a torrent of forty bytes that is on disk.
use sid_torrent.Prelude.{zero, suc, refl, none, List, [], ◌∷◌, arith, replicate}
use sid_torrent.Storage.{PhysicalFile, read_at, read_files, file_read}
use sid_torrent.Piece.Resume.{load_existing_state, read_piece, size_at}
use sid_torrent.Piece.Resume.Verified.{IsResumed, load_existing_state-IsResumed}
use sid_torrent.Piece.Resume.Found.{IsFullScan, AllRead, load_existing_state-IsFullScan}
use sid_torrent.Torrent.Pieces.{file_piece_length_at, piece_length_at}
use sid_torrent.Tests.Manager.{demo, demo-IsValid}
use sid_torrent.Tests.Transfer.{sum_stub, torrent}

abbrev files : List PhysicalFile
files = record { content = replicate 40 1; fault = none; start_offset = 0; end_offset = 40 } ∷ []

all_read : AllRead sum_stub torrent files 3
unfolding read_piece read_at read_files file_read size_at file_piece_length_at piece_length_at
all_read zero lt = refl
all_read (suc zero) lt = refl
all_read (suc (suc zero)) lt = refl
all_read (suc (suc (suc i))) lt = absurd (omega arith)

load_existing_state-IsResumed_example :
    IsResumed sum_stub torrent files demo (load_existing_state sum_stub torrent files 16 demo)
load_existing_state-IsResumed_example =
    load_existing_state-IsResumed sum_stub torrent files 16 16 demo refl (omega arith) demo-IsValid

load_existing_state-IsFullScan_example :
    IsFullScan sum_stub torrent files 0 demo (load_existing_state sum_stub torrent files 16 demo)
load_existing_state-IsFullScan_example =
    load_existing_state-IsFullScan sum_stub torrent files 16 16 demo refl (omega arith) all_read
      demo-IsValid
