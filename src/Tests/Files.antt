-- ===== src/Tests/Files.antt =====
-- internal/storage and internal/disk: two files of three and five bytes, in pieces of four.
use sid_torrent.Prelude.{
  ◌≡◌, refl, inl, true, false, some, none, List, [], ◌∷◌, arith, length, slice, splice,
}
use sid_torrent.Storage.{
  PhysicalFile, OnDisk, created, not_created, truncate_file, new_torrent_storage, read_at, write_at,
}
use sid_torrent.Storage.Refinement.{flat, IsLaidOut}
use sid_torrent.Storage.Refinement.Writing.{write_at-splice}
use sid_torrent.Storage.Refinement.Reading.{read_at-slice}
use sid_torrent.Prelude.Int.{pos, negsuc}
use sid_torrent.Storage.Refinement.RoundTrip.{read_at-write_at}
use sid_torrent.Storage.Refinement.Creation.{IsStorage, new_torrent_storage-IsStorage}
use sid_torrent.Disk.{DiskWriter, close}
use sid_torrent.Disk.Saved.{IsHealthy, close-saves}

abbrev two_files : List PhysicalFile
two_files =
    record { content = 1 ∷ 2 ∷ 3 ∷ []; fault = none; start_offset = 0; end_offset = 3 }
    ∷ record { content = 4 ∷ 5 ∷ 6 ∷ 7 ∷ 8 ∷ []; fault = none; start_offset = 3; end_offset = 8 }
    ∷ []

two_files-IsLaidOut : IsLaidOut 0 two_files
two_files-IsLaidOut = (refl, refl, refl, (refl, refl, refl, tt))

eight : length (flat two_files) ≡ 8
unfolding flat
eight = refl

-- A write over the border between the files.
write_at-splice_example :
    (files' : List PhysicalFile) × (write_at two_files (0 ∷ 9 ∷ []) 2 ≡ (files', 2, none))
    × (flat files' ≡ splice (flat two_files) 2 (0 ∷ 9 ∷ []))
    × IsLaidOut 0 files'
write_at-splice_example =
    write_at-splice two_files (0 ∷ 9 ∷ []) 2 two_files-IsLaidOut (omega (arith, eight))

read_at-slice_example : read_at two_files (0 ∷ 0 ∷ 0 ∷ []) 2 ≡ (slice (flat two_files) 2 3, 3, none)
read_at-slice_example =
    read_at-slice two_files (0 ∷ 0 ∷ 0 ∷ []) 2 two_files-IsLaidOut (omega (arith, eight))

read_at-write_at_example :
    read_at (write_at two_files (0 ∷ 9 ∷ []) 2).0 (0 ∷ 0 ∷ []) 2 ≡ (0 ∷ 9 ∷ [], 2, none)
read_at-write_at_example =
    read_at-write_at two_files (0 ∷ 9 ∷ []) (0 ∷ 0 ∷ []) 2 two_files-IsLaidOut
      (omega (arith, eight)) refl

abbrev fresh : OnDisk
fresh = record { makes_directory = true; found = some (1 ∷ []); cuts = true; later_fault = none }

new_torrent_storage-IsStorage_example :
    IsStorage 0
      ((pos 3, fresh) ∷ (pos 5, fresh) ∷ [])
      (new_torrent_storage (pos 8) fresh ((pos 3, fresh) ∷ (pos 5, fresh) ∷ []))
new_torrent_storage-IsStorage_example =
    new_torrent_storage-IsStorage (pos 8) fresh ((pos 3, fresh) ∷ (pos 5, fresh) ∷ [])

new_files :
    new_torrent_storage (pos 8) fresh ((pos 3, fresh) ∷ (pos 1, fresh) ∷ [])
    ≡ created (
        record { content = 1 ∷ 0 ∷ 0 ∷ []; fault = none; start_offset = 0; end_offset = 3 }
        ∷ record { content = 1 ∷ []; fault = none; start_offset = 3; end_offset = 4 }
        ∷ [])
unfolding new_torrent_storage
new_files = refl

-- The second length is negative.
no_storage :
    new_torrent_storage (pos 8) fresh ((pos 3, fresh) ∷ (negsuc 0, fresh) ∷ [])
    ≡ not_created truncate_file
unfolding new_torrent_storage
no_storage = refl

abbrev writer : DiskWriter
writer = record {
  dest = two_files;
  piece_length = 4;
  queue = (1, 9 ∷ 9 ∷ 9 ∷ 9 ∷ []) ∷ (0, 5 ∷ 5 ∷ 5 ∷ 5 ∷ []) ∷ [];
  error = none;
  cache = [];
  cache_size = 0;
  max_cache_size = 4194304;
  closed = false;
}

writer-IsHealthy : IsHealthy 8 writer
writer-IsHealthy = record {
  no_error = refl;
  laid = two_files-IsLaidOut;
  size = eight;
  distinct = tt;
  in_range = tt;
  counted = refl;
}

close-saves_example :
    ((close writer).1 ≡ none) × (slice (flat (close writer).0.dest) 4 4 ≡ 9 ∷ 9 ∷ 9 ∷ 9 ∷ [])
close-saves_example =
    close-saves 8 writer 1 (9 ∷ 9 ∷ 9 ∷ 9 ∷ []) writer-IsHealthy refl
      ((omega arith, omega arith), ((omega arith, omega arith), tt)) (omega arith, omega arith)
      (inl refl)
