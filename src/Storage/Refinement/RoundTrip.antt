-- ===== src/Storage/Refinement/RoundTrip.antt =====
-- internal/storage/storage.go: `WriteAt` and `ReadAt` together.
use sid_torrent.Prelude.{
  ℕ, ◌+◌, ◌≤◌, ◌≡◌, refl, sym, ◌∙◌, ap, none, List, arith, ◌==◌, Bool-cases, inl, inr, length,
  get_elem?_beyond, get_elem?-slice, get_elem?-splice_in, list_ext, splice, slice, length-splice,
  length-slice,
}
use native.Mathlib.Decide.{dec_lt}
use sid_torrent.Prelude.Bytes.{Bytes}
use sid_torrent.Storage.{PhysicalFile, read_at, write_at}
use sid_torrent.Storage.Overlay.{overlay_apart}
use sid_torrent.Storage.Refinement.{flat, IsLaidOut, shared}
use sid_torrent.Storage.Refinement.Writing.{write_at-splice, write_files-Written}
use sid_torrent.Storage.Refinement.Reading.{read_at-slice}

pub slice-splice :
    (xs : Bytes) (off : ℕ) (ys : Bytes)
    → off + length ys ≤ length xs
    → slice (splice xs off ys) off (length ys) ≡ ys
slice-splice xs off ys h =
    let size = length-splice xs off ys in
    let long = length-slice (splice xs off ys) off (length ys) (omega arith) in
    list_ext _ _ λ j. elim (dec_lt j (length ys)) [
      | yes lt ↦
          get_elem?-slice (splice xs off ys) off (length ys) j lt
          ∙ get_elem?-splice_in xs off ys j (omega arith) lt
      | no ge ↦ get_elem?_beyond _ j (omega arith) ∙ sym (get_elem?_beyond ys j (omega arith))
    ]

-- What `WriteAt` has written within the files, across the borders between them, `ReadAt` reads back.
-- That is if the files are laid out one behind the other and the operating system fails no call.
pub read_at-write_at :
    (files : List PhysicalFile) (p buffer : Bytes) (off : ℕ)
    → IsLaidOut 0 files
    → off + length p ≤ length (flat files)
    → length buffer ≡ length p
    → read_at (write_at files p off).0 buffer off ≡ (p, length p, none)
read_at-write_at files p buffer off laid fits size =
    let (files', run, bytes, laid') = write_at-splice files p off laid fits in
    let long = ap length bytes ∙ length-splice (flat files) off p in
    let read = read_at-slice files' buffer off laid' (omega arith) in
    let content : slice (flat files') off (length p) ≡ p =
      ap (λ t. slice t off (length p)) bytes ∙ slice-splice (flat files) off p fits in
    ap (λ r. read_at r.0 buffer off) run ∙ rw (size, content) at read

-- `WriteAt` of bytes behind the last file writes none of them and gives no error, which the contract
-- of io.WriterAt demands where fewer bytes are written than given.
pub write_at_beyond :
    (files : List PhysicalFile) (p : Bytes) (off : ℕ)
    → IsLaidOut 0 files
    → length (flat files) ≤ off
    → (files' : List PhysicalFile) × (write_at files p off ≡ (files', 0, none))
      × (flat files' ≡ flat files)
unfolding write_at
write_at_beyond files p off laid h = elim (Bool-cases (length p == 0)) [
  | inl empty ↦ (files, rw empty refl, refl)
  | inr some_bytes ↦
      let w = write_files-Written files 0 p off 0 laid (ground arith) in
      let n : 0 + shared 0 (length (flat files)) off (length p) ≡ 0 =
        unfold shared in ground arith in
      (
        w.after,
        rw (some_bytes, w.run, n) refl,
        w.bytes ∙ overlay_apart (flat files) 0 off p (inl (ground arith)),
      )
]
