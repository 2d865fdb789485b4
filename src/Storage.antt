-- ===== src/Storage.antt =====
-- internal/storage: the files of a torrent as one range of bytes.
pub mod Overlay
pub mod Refinement
use sid_torrent.Prelude.{
  ℕ, zero, suc, ◌+◌, ◌-◌, ◌*◌, Bool, true, false, ◌||◌, Option, none, some, List, [], ◌∷◌, ◌++◌,
  ltb, leb, ◌==◌, if◌then◌else◌, length, take, splice, slice, replicate,
}
use sid_torrent.Prelude.Int.{ℤ, pos, negsuc}
use sid_torrent.Prelude.Bytes.{Bytes}

-- The open file is its bytes, and what the operating system does with it: `fault` is none if its
-- calls succeed, and some `n` if each call fails behind `n` bytes. `length` of the source, which
-- nothing reads, is left out.
pub record PhysicalFile : Type 0 where
  pub content : Bytes
  pub fault : Option ℕ
  pub start_offset : ℕ
  pub end_offset : ℕ

pub data StorageError : Type 0 where
  io_error unexpected_eof : StorageError

abbrev pub max_val : ℕ → ℕ → ℕ
max_val a b = if ltb b a then a else b

abbrev pub min_val : ℕ → ℕ → ℕ
min_val a b = if ltb a b then a else b

-- `os.File.Truncate` of a file that holds `old`: cut, or filled up with zeros.
unfoldable pub truncate : ℕ → Bytes → Bytes
truncate n old = take n (old ++ replicate n 0)

-- What the operating system does for one file of the torrent: whether the directory can be made, the
-- bytes that `OpenFile` finds or creates, none if it fails, whether a length that is not negative can be
-- set, and the fault of later calls. Each entry has a file of its own.
pub record OnDisk : Type 0 where
  pub makes_directory : Bool
  pub found : Option Bytes
  pub cuts : Bool
  pub later_fault : Option ℕ

pub data CreateError : Type 0 where
  create_directory open_file truncate_file : CreateError

-- A new storage, or an error, for which the files that are open already are closed.
pub data Created : Type 0 where
  created : List PhysicalFile → Created
  not_created : CreateError → Created

-- `Truncate`, which refuses a negative length.
unfoldable pub set_size : ℕ → ℤ → OnDisk → Bytes → (PhysicalFile → Created) → Created
unfolding truncate
set_size offset (negsuc n) d old next = not_created truncate_file
set_size offset (pos n) d old next =
    if d.cuts
    then next (record {
      content = truncate n old;
      fault = d.later_fault;
      start_offset = offset;
      end_offset = offset + n;
    })
    else not_created truncate_file

unfoldable pub open_found : ℕ → ℤ → OnDisk → Option Bytes → (PhysicalFile → Created) → Created
unfolding set_size
open_found offset size d none next = not_created open_file
open_found offset size d (some old) next = set_size offset size d old next

-- A round of the loop, up to the new entry.
unfoldable pub create_file : ℕ → ℤ → OnDisk → (PhysicalFile → Created) → Created
unfolding open_found
create_file offset size d next =
    if d.makes_directory
    then open_found offset size d d.found next
    else not_created create_directory

abbrev pub behind : PhysicalFile → Created → Created
behind pf (created files) = created (pf ∷ files)
behind pf (not_created e) = not_created e

-- `NewTorrentStorage`: the loop over the files, each with its length in the torrent.
unfoldable pub lay_out : ℕ → List (ℤ × OnDisk) → Created
unfolding create_file
lay_out offset [] = created []
lay_out offset ((size, d) ∷ files) =
    create_file offset size d (λ pf. behind pf (lay_out pf.end_offset files))

-- A torrent without a list of files is one file of its whole length.
abbrev pub or_whole : ℤ → OnDisk → List (ℤ × OnDisk) → List (ℤ × OnDisk)
or_whole total d [] = (total, d) ∷ []
or_whole total d (f ∷ files) = f ∷ files

unfoldable pub new_torrent_storage : ℤ → OnDisk → List (ℤ × OnDisk) → Created
unfolding lay_out
new_torrent_storage total d files = lay_out 0 (or_whole total d files)

-- `os.File.ReadAt` into a buffer of `n` bytes: the bytes that it reads, and whether it fails. At the
-- end of the file it reads fewer, with `io.EOF`, which the caller passes over.
unfoldable pub file_read : PhysicalFile → ℕ → ℕ → Bytes × Bool
file_read pf n at = elim pf.fault [
  | none ↦ (slice pf.content at n, false)
  | some k ↦ (slice pf.content at (min_val k n), true)
]

-- Bytes written over a file, which grows where they go past its end.
unfoldable pub overwrite : Bytes → ℕ → Bytes → Bytes
overwrite content at p = splice (content ++ replicate (at + length p - length content) 0) at p

-- `os.File.WriteAt`: the new file, the bytes written, and whether it fails.
unfoldable pub file_write : PhysicalFile → Bytes → ℕ → PhysicalFile × ℕ × Bool
unfolding overwrite
file_write pf p at = elim pf.fault [
  | none ↦ (record pf { content = overwrite pf.content at p }, length p, false)
  | some k ↦ (record pf { content = overwrite pf.content at (take k p) }, length (take k p), true)
]

-- `off >= pf.endOffset || off+int64(toRead) <= pf.startOffset`
unfoldable pub apart : PhysicalFile → ℕ → ℕ → Bool
apart pf off n = leb pf.end_offset off || leb (off + n) pf.start_offset

-- The loop of `ReadAt`: the buffer, the bytes read so far, and the error.
unfoldable pub read_files : List PhysicalFile → Bytes → ℕ → ℕ → Bytes × ℕ × Option StorageError
unfolding apart file_read
read_files [] p off total = (p, total, if ltb total (length p) then some unexpected_eof else none)
read_files (pf ∷ files) p off total =
    let start = max_val off pf.start_offset in
    let end = min_val (off + length p) pf.end_offset in
    let (bytes, failed) = file_read pf (end - start) (start - pf.start_offset) in
    let p' = splice p (start - off) bytes in
    let total' = total + length bytes in
    let skipped = read_files files p off total in
    let rest = read_files files p' off total' in
    if apart pf off (length p)
    then skipped
    else if failed
    then (p', total', some io_error)
    else rest

unfoldable pub read_at : List PhysicalFile → Bytes → ℕ → Bytes × ℕ × Option StorageError
unfolding read_files
read_at files p off = if length p == 0 then (p, 0, none) else read_files files p off 0

-- The loop of `WriteAt`: the files, the bytes written so far, and the error.
unfoldable pub write_files :
    List PhysicalFile → Bytes → ℕ → ℕ → List PhysicalFile × ℕ × Option StorageError
unfolding apart file_write
write_files [] p off total = ([], total, none)
write_files (pf ∷ files) p off total =
    let start = max_val off pf.start_offset in
    let end = min_val (off + length p) pf.end_offset in
    let (pf', written, failed) =
      file_write pf (slice p (start - off) (end - start)) (start - pf.start_offset) in
    let total' = total + written in
    let (skipped, n, e) = write_files files p off total in
    let (rest, n', e') = write_files files p off total' in
    if apart pf off (length p)
    then (pf ∷ skipped, n, e)
    else if failed
    then (pf' ∷ files, total', some io_error)
    else (pf' ∷ rest, n', e')

unfoldable pub write_at :
    List PhysicalFile → Bytes → ℕ → List PhysicalFile × ℕ × Option StorageError
unfolding write_files
write_at files p off = if length p == 0 then (files, 0, none) else write_files files p off 0

-- internal/storage/layout.go
unfoldable pub piece_offset : ℕ → ℕ → ℕ
piece_offset piece_length index = index * piece_length
