-- ===== src/Api/Stream.antt =====
-- internal/api/server.go: the choice of the file to stream, and `StreamingReader`. The joining of a path
-- is a parameter. The wait of `Read` is the state of the manager when it ends.
pub mod Video
pub mod Reading
use sid_torrent.Prelude.{
  ℕ, zero, suc, ◌+◌, ◌-◌, ◌/◌, Bool, true, false, not, ◌&&◌, ◌||◌, Option, none, some, List, [],
  ◌∷◌, ◌++◌, ltb, leb, ◌==◌, if◌then◌else◌, length, take, slice,
}
use sid_torrent.Prelude.Int.{ℤ, pos, negsuc, pos_part, ◌+ℤ◌, ltb_ℤ, eqb_ℤ}
use sid_torrent.Prelude.Bytes.{Bytes, bytes_equal, codes}
use sid_torrent.Torrent.Parser.{FileEntry}
use sid_torrent.Piece.Manager.{PieceManager, set_priority_pieces, is_piece_complete}

-- `strings.ToLower` of ASCII.
unfoldable pub to_lower : Bytes → Bytes
to_lower [] = []
to_lower (b ∷ bs) = (if leb b'A' b && leb b b'Z' then b + 32 else b) ∷ to_lower bs

-- `filepath.Ext`: from the last dot behind the last slash on. The second argument is the part from the
-- last dot so far.
unfoldable pub ext_from : Bytes → Bytes → Bytes
ext_from [] found = found
ext_from (b ∷ bs) found =
    ext_from bs (if b == b'/' then [] else if b == b'.' then b ∷ bs else found)

unfoldable pub ext : Bytes → Bytes
unfolding ext_from
ext path = ext_from path []

-- `videoExtensions`
unfoldable pub is_video_extension : Bytes → Bool
is_video_extension e =
    bytes_equal e (codes ".mp4")
    || bytes_equal e (codes ".mkv")
    || bytes_equal e (codes ".webm")
    || bytes_equal e (codes ".avi")
    || bytes_equal e (codes ".mov")
    || bytes_equal e (codes ".mp3")

pub record VideoFile : Type 0 where
  pub path : Bytes
  pub start_offset : ℤ
  pub length : ℤ

-- The variables of the loop of `findVideoFile`.
pub record Choice : Type 0 where
  pub best_path : List Bytes
  pub best_length : ℤ
  pub best_start : ℤ
  pub current_offset : ℤ
  pub found_video : Bool

module _ (join : List Bytes → Bytes) where
  unfoldable pub is_video : FileEntry → Bool
  unfolding is_video_extension ext to_lower
  is_video fe = is_video_extension (to_lower (ext (join fe.path)))

  -- One round of the loop.
  unfoldable pub consider : Choice → FileEntry → Choice
  consider s fe =
      let longer = ltb_ℤ s.best_length fe.size in
      let next = record s { current_offset = s.current_offset +ℤ fe.size } in
      let better = record next {
        best_path = fe.path;
        best_length = fe.size;
        best_start = s.current_offset;
      } in
      if is_video fe
      then (if not s.found_video || longer then record better { found_video = true } else next)
      else if not s.found_video && longer
      then better
      else next

  unfoldable pub consider_all : Choice → List FileEntry → Choice
  unfolding consider
  consider_all s [] = s
  consider_all s (fe ∷ files) = consider_all (consider s fe) files

  abbrev pub first_choice : Choice
  first_choice = record {
    best_path = [];
    best_length = pos 0;
    best_start = pos 0;
    current_offset = pos 0;
    found_video = false;
  }

  -- The end of `findVideoFile`; `none` is its error.
  unfoldable pub video_of : Bytes → Choice → Option VideoFile
  video_of output_path s =
      if eqb_ℤ s.best_length (pos 0)
      then none
      else some (record {
        path = join (output_path ∷ join s.best_path ∷ []);
        start_offset = s.best_start;
        length = s.best_length;
      })

  -- `findVideoFile`, for a torrent of that length and those files.
  unfoldable pub find_video_file : ℤ → List FileEntry → Bytes → Option VideoFile
  unfolding consider_all video_of
  find_video_file total [] output_path =
      some (record { path = output_path; start_offset = pos 0; length = total })
  find_video_file total (fe ∷ files) output_path =
      video_of output_path (consider_all first_choice (fe ∷ files))

-- The file's bytes stand for the open file.
pub record StreamingReader : Type 0 where
  pub piece_length : ℕ
  pub file : Bytes
  pub start_offset : ℕ
  pub file_length : ℕ
  pub offset : ℕ

pub data Whence : Type 0 where
  seek_start seek_current seek_end seek_other : Whence

pub data SeekError : Type 0 where
  invalid_whence out_of_bounds : SeekError

pub data SeekResult : Type 0 where
  moved : StreamingReader → ℕ → SeekResult
  stayed : SeekError → SeekResult

-- `newOffset`
unfoldable pub seek_target : StreamingReader → ℤ → Whence → Option ℤ
seek_target sr offset seek_start = some offset
seek_target sr offset seek_current = some (pos sr.offset +ℤ offset)
seek_target sr offset seek_end = some (pos sr.file_length +ℤ offset)
seek_target sr offset seek_other = none

unfoldable pub move_to : StreamingReader → Option ℤ → SeekResult
move_to sr none = stayed invalid_whence
move_to sr (some (negsuc n)) = stayed out_of_bounds
move_to sr (some (pos n)) =
    if ltb sr.file_length n then stayed out_of_bounds else moved (record sr { offset = n }) n

-- `Seek`
unfoldable pub seek : StreamingReader → ℤ → Whence → SeekResult
unfolding seek_target move_to
seek sr offset whence = move_to sr (seek_target sr offset whence)

-- What `Read` of a buffer of `n` bytes does before it waits: it is at the end, or there is nothing to
-- read, or it wants that many bytes, which lie in the pieces from the first to the last.
pub data Wanted : Type 0 where
  at_end nothing_wanted : Wanted
  wants : ℕ → ℕ → ℕ → Wanted

unfoldable pub wanted : StreamingReader → ℕ → Wanted
wanted sr n =
    let rest = sr.file_length - sr.offset in
    let limit = if ltb sr.file_length (sr.offset + n) then rest else n in
    let start = sr.start_offset + sr.offset in
    if leb sr.file_length sr.offset
    then at_end
    else if limit == 0
    then nothing_wanted
    else wants limit (start / sr.piece_length) ((start + limit - 1) / sr.piece_length)

-- `priorityIndices`: as many as `left`, from `i` on.
unfoldable pub indices_from : ℕ → ℕ → List ℤ
indices_from i zero = []
indices_from i (suc left) = pos i ∷ indices_from (suc i) left

-- `SetPriorityPieces` with the pieces wanted.
unfoldable pub prioritize : PieceManager → ℕ → ℕ → PieceManager
unfolding indices_from
prioritize pm start_piece end_piece =
    set_priority_pieces pm (indices_from start_piece (end_piece + 1 - start_piece))

-- The result of `Read`: the bytes with an end of file when there are fewer than wanted, or an error.
pub data ReadResult : Type 0 where
  read : StreamingReader → Bytes → Bool → ReadResult
  eof : ReadResult
  timeout : ReadResult

-- `file.ReadAt(p[:limit], offset)`
unfoldable pub read_file : StreamingReader → ℕ → ReadResult
read_file sr limit =
    let bytes = slice sr.file sr.offset limit in
    read (record sr { offset = sr.offset + length bytes }) bytes (ltb (length bytes) limit)

-- `Read` once its wait is over: the manager is in the state `pm`.
unfoldable pub finish_read : PieceManager → StreamingReader → Wanted → ReadResult
unfolding read_file
finish_read pm sr at_end = eof
finish_read pm sr nothing_wanted = read sr [] false
finish_read pm sr (wants limit start_piece end_piece) =
    if is_piece_complete pm start_piece then read_file sr limit else timeout

-- `Read`: the manager with its new priorities, and the result when the wait has ended in `later`.
unfoldable pub start_read : PieceManager → Wanted → PieceManager
unfolding prioritize
start_read pm at_end = pm
start_read pm nothing_wanted = pm
start_read pm (wants limit start_piece end_piece) = prioritize pm start_piece end_piece

unfoldable pub read_stream :
    PieceManager → PieceManager → StreamingReader → ℕ → PieceManager × ReadResult
unfolding start_read finish_read wanted
read_stream pm later sr n = (start_read pm (wanted sr n), finish_read later sr (wanted sr n))
