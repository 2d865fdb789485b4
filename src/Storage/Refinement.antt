-- ===== src/Storage/Refinement.antt =====
-- internal/storage/storage.go: the files of a torrent, against one flat array of bytes.
pub mod Writing
pub mod Reading
pub mod RoundTrip
pub mod Creation
use sid_torrent.Prelude.{
  ℕ, zero, suc, ◌+◌, ◌-◌, ◌<◌, ◌≤◌, ◌≡◌, refl, sym, ◌∙◌, ap, subst, Bool, true, false, ◌||◌,
  Bool-cases, ◌⊎◌, inl, inr, Option, none, some, List, [], ◌∷◌, ◌++◌, append-nil, append_assoc,
  arith, ltb, leb, ◌==◌, if◌then◌else◌, length, length-append, splice, slice, length-splice,
  length-slice, replicate, length-take, length-replicate,
}
use sid_torrent.Prelude.Bytes.{Bytes}
use sid_torrent.Storage.{
  PhysicalFile, StorageError, io_error, unexpected_eof, max_val, min_val, lay_out, truncate,
  new_torrent_storage, file_read, file_write, overwrite, apart, read_files, read_at, write_files,
  write_at,
}
use sid_torrent.Storage.Overlay.{
  overlay, length-overlay, overlay-append, overlay_apart, splice_overlap, overlay-splice,
  overlay-slice, overlay_twice,
}

-- The bytes of the torrent, one file behind the other.
unfoldable pub flat : List PhysicalFile → Bytes
flat [] = []
flat (pf ∷ files) = pf.content ++ flat files

-- The files follow each other from `st` on without a gap, and the operating system fails none.
abbrev pub IsLaidOut : ℕ → List PhysicalFile → Type 0
IsLaidOut st [] = Unit
IsLaidOut st (pf ∷ files) =
    (pf.fault ≡ none)
    × (pf.start_offset ≡ st)
    × (pf.end_offset ≡ st + length pf.content)
    × IsLaidOut (st + length pf.content) files

pub file_write-healthy :
    (pf : PhysicalFile) (p : Bytes) (at : ℕ)
    → pf.fault ≡ none
    → at + length p ≤ length pf.content
    → file_write pf p at ≡ (record pf { content = splice pf.content at p }, length p, false)
unfolding file_write overwrite
file_write-healthy pf p at h fits = go pf.fault refl
  where
    go :
        (o : Option ℕ)
        → pf.fault ≡ o
        → file_write pf p at ≡ (record pf { content = splice pf.content at p }, length p, false)
    go none e =
        let full : at + length p - length pf.content ≡ 0 = omega arith in
        rw (e, full, append-nil) refl
    go (some k) e = cc

pub file_read-healthy :
    (pf : PhysicalFile) (n at : ℕ)
    → pf.fault ≡ none
    → file_read pf n at ≡ (slice pf.content at n, false)
unfolding file_read
file_read-healthy pf n at h = go pf.fault refl
  where
    go : (o : Option ℕ) → pf.fault ≡ o → file_read pf n at ≡ (slice pf.content at n, false)
    go none e = rw e refl
    go (some k) e = cc

-- How many bytes two ranges share.
unfoldable pub shared : ℕ → ℕ → ℕ → ℕ → ℕ
shared st l off n = min_val (off + n) (st + l) - max_val off st

-- What one round of `WriteAt` does with the file and its bytes.
module _ (pf : PhysicalFile) (p : Bytes) (off : ℕ) (sound : pf.fault ≡ none)
    (ends : pf.end_offset ≡ pf.start_offset + length pf.content) where
  abbrev pub from : ℕ
  from = max_val off pf.start_offset

  abbrev pub many : ℕ
  many = min_val (off + length p) pf.end_offset - from

  pub apart→same :
      apart pf off (length p) ≡ true → overlay pf.content pf.start_offset off p ≡ pf.content
  unfolding apart
  apart→same h = overlay_apart pf.content pf.start_offset off p (ground arith)

  pub write_round :
      apart pf off (length p) ≡ false
      → file_write pf (slice p (from - off) many) (from - pf.start_offset)
        ≡ (record pf { content = overlay pf.content pf.start_offset off p }, many, false)
  unfolding apart
  write_round h =
      let long : length (slice p (from - off) many) ≡ many =
        length-slice p (from - off) many (ground arith) in
      let written =
        file_write-healthy pf (slice p (from - off) many) (from - pf.start_offset) sound
          (ground arith) in
      let copied = splice_overlap pf.content pf.start_offset off p (ground arith) (ground arith) in
      let same : many ≡ min_val (off + length p) (pf.start_offset + length pf.content) - from =
        ap (λ t. min_val (off + length p) t - from) ends in
      let content =
        ap (λ t. splice pf.content (from - pf.start_offset) (slice p (from - off) t)) same
        ∙ copied in
      written
      ∙ ap
          (λ t. (
            record pf {
              content = splice pf.content (from - pf.start_offset) (slice p (from - off) many);
            },
            t,
            false,
          ))
          long
      ∙ ap (λ c. (record pf { content = c }, many, false)) content

  pub read_round :
      apart pf off (length p) ≡ false
      → splice p (from - off) (file_read pf many (from - pf.start_offset)).0
        ≡ overlay p off pf.start_offset pf.content
  unfolding apart
  read_round h =
      let got =
        ap (λ r. splice p (from - off) r.0)
          (file_read-healthy pf many (from - pf.start_offset) sound) in
      let copied = splice_overlap p off pf.start_offset pf.content (ground arith) (ground arith) in
      let side : max_val pf.start_offset off ≡ from = ground arith in
      let size : min_val (pf.start_offset + length pf.content) (off + length p) - from ≡ many =
        ground arith in
      got
      ∙ sym (ap (λ t. splice p (from - off) (slice pf.content (from - pf.start_offset) t)) size)
      ∙ rw side at copied

  pub length-read_round :
      apart pf off (length p) ≡ false → length (file_read pf many (from - pf.start_offset)).0 ≡ many
  unfolding apart
  length-read_round h =
      ap (λ r. length r.0) (file_read-healthy pf many (from - pf.start_offset) sound)
      ∙ length-slice pf.content (from - pf.start_offset) many (ground arith)

  pub read_fails : (file_read pf many (from - pf.start_offset)).1 ≡ false
  read_fails = ap (λ r. r.1) (file_read-healthy pf many (from - pf.start_offset) sound)

pub shared-split :
    (st l rest off n : ℕ)
    → 0 < n
    → shared st l off n + shared (st + l) rest off n ≡ shared st (l + rest) off n
unfolding shared
shared-split st l rest off n h = ground arith

pub shared-apart :
    (st l off n : ℕ) → (leb (st + l) off || leb (off + n) st) ≡ true → shared st l off n ≡ 0
unfolding shared
shared-apart st l off n h = ground arith
