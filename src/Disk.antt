-- ===== src/Disk.antt =====
-- internal/disk/writer.go, and internal/storage/writer.go in front of it: pieces wait in a channel,
-- then in a cache, and are written in the order of their indices. The destination is the storage of
-- internal/storage. The writer's goroutine is the only one that takes from the channel and flushes.
pub mod Flush
pub mod Saved
use sid_torrent.Prelude.{
  ℕ, zero, suc, ◌+◌, ◌-◌, ◌*◌, Bool, true, false, not, Option, none, some, List, [], ◌∷◌, ◌++◌, ltb,
  leb, ◌==◌, if◌then◌else◌, length,
}
use sid_torrent.Prelude.Int.{ℤ, pos, eqb_ℤ}
use sid_torrent.Prelude.Bytes.{Bytes}
use sid_torrent.Prelude.Keys.{lookup, put}
use sid_torrent.Torrent.Pieces.{file_piece_length_at}
use sid_torrent.Storage.{PhysicalFile, StorageError, write_at}

abbrev pub default_max_cache_size : ℕ
default_max_cache_size = 4194304

abbrev pub default_queue_size : ℕ
default_queue_size = 32

-- A piece's index with its bytes.
abbrev pub WriteRequest : Type 0
WriteRequest = ℕ × Bytes

pub data DiskError : Type 0 where
  write_failed : ℕ → ℕ → StorageError → DiskError
  already_closed invalid_piece_size : DiskError

pub record DiskWriter : Type 0 where
  pub dest : List PhysicalFile
  pub piece_length : ℕ
  pub queue : List WriteRequest
  pub error : Option DiskError
  pub cache : List WriteRequest
  pub cache_size : ℕ
  pub max_cache_size : ℕ
  pub closed : Bool

unfoldable pub new_disk_writer : ℕ → List PhysicalFile → DiskWriter
new_disk_writer piece_length dest = record {
  dest = dest;
  piece_length = piece_length;
  queue = [];
  error = none;
  cache = [];
  cache_size = 0;
  max_cache_size = default_max_cache_size;
  closed = false;
}

-- `WritePiece`; `none` is a sender that waits, since the channel is full.
unfoldable pub write_piece : DiskWriter → ℕ → Bytes → Option (DiskWriter × Option DiskError)
write_piece dw index bytes = elim dw.error [
  | some e ↦ some (dw, some e)
  | none ↦
      if dw.closed
      then some (dw, some already_closed)
      else if leb default_queue_size (length dw.queue)
      then none
      else some (record dw { queue = dw.queue ++ (index, bytes) ∷ [] }, none)
]

-- `Writer.WritePiece` of internal/storage, for a torrent of `total` bytes.
unfoldable pub write_checked : ℤ → DiskWriter → ℕ → Bytes → Option (DiskWriter × Option DiskError)
unfolding write_piece
write_checked total dw index bytes =
    if not
      (eqb_ℤ (pos (length bytes)) (file_piece_length_at total (pos dw.piece_length) (pos index)))
    then some (dw, some invalid_piece_size)
    else write_piece dw index bytes

unfoldable pub old_size : Option Bytes → ℕ
old_size none = 0
old_size (some old) = length old

unfoldable pub add_to_cache : DiskWriter → WriteRequest → DiskWriter
unfolding old_size
add_to_cache dw (index, bytes) = record dw {
  cache = put index bytes dw.cache;
  cache_size = dw.cache_size - old_size (lookup index dw.cache) + length bytes;
}

-- `sort.Ints(indices)`, each index with its bytes.
unfoldable pub insert_request : WriteRequest → List WriteRequest → List WriteRequest
insert_request (i, bytes) [] = (i, bytes) ∷ []
insert_request (i, bytes) ((j, other) ∷ rs) =
    if leb i j then (i, bytes) ∷ (j, other) ∷ rs else (j, other) ∷ insert_request (i, bytes) rs

unfoldable pub sort_requests : List WriteRequest → List WriteRequest
unfolding insert_request
sort_requests [] = []
sort_requests (r ∷ rs) = insert_request r (sort_requests rs)

-- The writes of `flush`, up to the first error.
unfoldable pub write_all :
    ℕ → List WriteRequest → List PhysicalFile → List PhysicalFile × Option DiskError
write_all piece_length [] files = (files, none)
write_all piece_length ((i, bytes) ∷ rs) files =
    let (files', n, failed) = write_at files bytes (i * piece_length) in
    let rest = write_all piece_length rs files' in
    elim failed [ none ↦ rest | some e ↦ (files', some (write_failed i (i * piece_length) e)) ]

-- `flush`: the cache is emptied first; after an earlier error nothing is written.
unfoldable pub flush : DiskWriter → DiskWriter
unfolding write_all sort_requests
flush dw =
    let cleared = record dw { cache = []; cache_size = 0 } in
    let (files, failed) = write_all dw.piece_length (sort_requests dw.cache) dw.dest in
    if length dw.cache == 0
    then dw
    else elim dw.error [ some e ↦ cleared | none ↦ record cleared { dest = files; error = failed } ]

-- A request that the writer's loop receives.
unfoldable pub handle_request : DiskWriter → WriteRequest → DiskWriter
unfolding add_to_cache flush
handle_request dw r =
    let cached = add_to_cache dw r in
    if leb cached.max_cache_size cached.cache_size then flush cached else cached

unfoldable pub handle_all : DiskWriter → List WriteRequest → DiskWriter
unfolding handle_request
handle_all dw [] = dw
handle_all dw (r ∷ rs) = handle_all (handle_request dw r) rs

-- What the loop does with a closed channel: what is left in it, and a last flush.
unfoldable pub finish_loop : DiskWriter → DiskWriter
unfolding handle_all flush
finish_loop dw = flush (handle_all (record dw { queue = [] }) dw.queue)

unfoldable pub set_max_cache_size : DiskWriter → ℕ → DiskWriter
set_max_cache_size dw size = record dw { max_cache_size = size }

-- `Close`
unfoldable pub close : DiskWriter → DiskWriter × Option DiskError
unfolding finish_loop
close dw =
    let finished = finish_loop (record dw { closed = true }) in
    if dw.closed then (dw, none) else (finished, finished.error)
