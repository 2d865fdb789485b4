-- ===== src/Tests/Stream.antt =====
-- internal/api/server.go: the choice of a video, and a read in pieces of four bytes.
use sid_torrent.Prelude.{ℕ, ◌<◌, ◌≡◌, ◌↔◌, refl, true, some, List, [], ◌∷◌, ◌++◌, arith}
use sid_torrent.Prelude.Int.{pos}
use sid_torrent.Prelude.Bytes.{Bytes, codes}
use sid_torrent.Prelude.Keys.{has}
use sid_torrent.Torrent.Parser.{FileEntry}
use sid_torrent.Api.Stream.{
  VideoFile, StreamingReader, find_video_file, consider_all, video_of, wanted, wants, start_read,
  is_video_extension, ext_from, to_lower, is_video, consider, ext,
}
use sid_torrent.Api.Stream.Video.{IsVideoFile, find_video_file-IsVideoFile}
use sid_torrent.Api.Stream.Reading.{IsWantedIn, start_read-priorities}
use sid_torrent.Tests.Manager.{demo}

-- In place of `filepath.Join`.
abbrev join_stub : List Bytes → Bytes
join_stub [] = []
join_stub (p ∷ ps) = codes "/" ++ (p ++ join_stub ps)

abbrev notes : FileEntry
notes = record { size = pos 9; path = codes "notes.txt" ∷ [] }

abbrev film : FileEntry
film = record { size = pos 5; path = codes "film.MP4" ∷ [] }

abbrev chosen : VideoFile
chosen = record { path = codes "/out//film.MP4"; start_offset = pos 9; length = pos 5 }

film_found : find_video_file join_stub (pos 14) (notes ∷ film ∷ []) (codes "out") ≡ some chosen
unfolding find_video_file consider_all video_of consider is_video ext ext_from to_lower
    is_video_extension
film_found = refl

find_video_file-IsVideoFile_example : IsVideoFile join_stub (notes ∷ film ∷ []) (codes "out") chosen
find_video_file-IsVideoFile_example =
    find_video_file-IsVideoFile join_stub (pos 14) notes (film ∷ []) (codes "out") film_found

abbrev reader : StreamingReader
reader = record {
  piece_length = 4;
  file = 1 ∷ 2 ∷ 3 ∷ 4 ∷ 5 ∷ 6 ∷ [];
  start_offset = 3;
  file_length = 6;
  offset = 0;
}

two_bytes : wanted reader 2 ≡ wants 2 0 1
unfolding wanted
two_bytes = refl

start_read-priorities_example :
    (has 1 (start_read demo (wanted reader 2)).priority_pieces ≡ true)
    ↔ ((1 < demo.total_pieces) × ((b : ℕ) × IsWantedIn reader 2 1 b))
start_read-priorities_example = start_read-priorities demo reader 2 1 (omega arith) two_bytes
