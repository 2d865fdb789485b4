-- ===== src/Storage/Refinement/Reading.antt =====
-- internal/storage/storage.go: `ReadAt`, against the flat array.
use sid_torrent.Prelude.{
  ℕ, suc, ◌+◌, ◌-◌, ◌<◌, ◌≤◌, ◌≡◌, refl, sym, ◌∙◌, ap, subst, true, false, Bool-cases, inl, inr,
  Option, none, some, List, [], ◌∷◌, ◌++◌, arith, ltb, leb, ◌==◌, if◌then◌else◌, length,
  length-append, slice, ◌&&◌,
}
use sid_torrent.Prelude.Bytes.{Bytes}
use sid_torrent.Storage.{
  PhysicalFile, StorageError, unexpected_eof, max_val, min_val, apart, read_files, read_at,
}
use sid_torrent.Storage.Overlay.{
  overlay, length-overlay, overlay_apart, overlay-slice, overlay_twice,
}
use sid_torrent.Storage.Refinement.{
  flat, IsLaidOut, shared, many, read_round, length-read_round, read_fails, shared-split,
  shared-apart,
}

overlay_nil : (xs : Bytes) (st off : ℕ) → overlay xs st off [] ≡ xs
unfolding overlay
overlay_nil [] st off = refl
overlay_nil (x ∷ xs) st off =
    let out : (leb off st && ltb st (off + 0)) ≡ false = ground arith in
    rw (out, overlay_nil xs (suc st) off)

-- `io.ErrUnexpectedEOF` where fewer bytes were read than asked for.
abbrev pub eof_if_short : ℕ → ℕ → Option StorageError
eof_if_short total n = if ltb total n then some unexpected_eof else none

-- What the loop of `ReadAt` does from a file on that starts at `st`.
abbrev ReadsFlat : List PhysicalFile → ℕ → Bytes → ℕ → ℕ → Type 0
ReadsFlat files st p off total =
    let n = total + shared st (length (flat files)) off (length p) in
    read_files files p off total ≡ (overlay p off st (flat files), n, eof_if_short n (length p))

read_none : (st : ℕ) (p : Bytes) (off total : ℕ) → ReadsFlat [] st p off total
unfolding read_files flat shared
read_none st p off total =
    let z : total + (min_val (off + length p) (st + 0) - max_val off st) ≡ total = ground arith in
    rw (z, overlay_nil p off st) refl

module _ (pf : PhysicalFile) (files : List PhysicalFile) (p : Bytes) (off total : ℕ)
    (f : pf.fault ≡ none) (e : pf.end_offset ≡ pf.start_offset + length pf.content)
    (h : 0 < length p) where
  abbrev next : ℕ
  next = pf.start_offset + length pf.content

  whole_count :
      shared pf.start_offset (length pf.content) off (length p)
        + shared next (length (flat files)) off (length p)
      ≡ shared pf.start_offset (length (pf.content ++ flat files)) off (length p)
  whole_count =
      let size =
        ap (λ t. shared pf.start_offset t off (length p)) (length-append pf.content (flat files)) in
      let split =
        shared-split pf.start_offset (length pf.content) (length (flat files)) off (length p) h in
      omega (arith, size, split)

  read_skip :
      apart pf off (length p) ≡ true
      → ReadsFlat files next p off total
      → ReadsFlat (pf ∷ files) pf.start_offset p off total
  unfolding read_files flat
  read_skip skip r =
      let zero =
        shared-apart pf.start_offset (length pf.content) off (length p)
          (unfold apart in (rw e at skip)) in
      let count : shared next (length (flat files)) off (length p)
          ≡ shared pf.start_offset (length (pf.content ++ flat files)) off (length p) =
        omega (arith, whole_count, zero) in
      let same =
        overlay_apart p off pf.start_offset pf.content (unfold apart in ground (arith, e, skip)) in
      let bytes : overlay p off next (flat files)
          ≡ overlay p off pf.start_offset (pf.content ++ flat files) =
        ap (λ t. overlay t off next (flat files)) (sym same)
        ∙ overlay_twice p off pf.start_offset pf.content (flat files) in
      rw (skip, r, count, bytes) refl

  read_one :
      apart pf off (length p) ≡ false
      → ReadsFlat files next
          (overlay p off pf.start_offset pf.content)
          off
          (total + many pf p off f e)
      → ReadsFlat (pf ∷ files) pf.start_offset p off total
  unfolding read_files flat
  read_one meet r =
      let here : many pf p off f e ≡ shared pf.start_offset (length pf.content) off (length p) =
        unfold shared in (ap (λ t. min_val (off + length p) t - max_val off pf.start_offset) e) in
      let count : total + many pf p off f e + shared next (length (flat files)) off (length p)
          ≡ total + shared pf.start_offset (length (pf.content ++ flat files)) off (length p) =
        omega (arith, whole_count, here) in
      let long = length-overlay p off pf.start_offset pf.content in
      rw
        (
          meet,
          read_fails pf p off f e,
          read_round pf p off f e meet,
          length-read_round pf p off f e meet,
          r,
          long,
          count,
          overlay_twice p off pf.start_offset pf.content (flat files),
        )
        refl

read_files-ReadsFlat :
    (files : List PhysicalFile) (st : ℕ) (p : Bytes) (off total : ℕ)
    → IsLaidOut st files
    → 0 < length p
    → ReadsFlat files st p off total
read_files-ReadsFlat [] st p off total laid h = read_none st p off total
read_files-ReadsFlat (pf ∷ files) st p off total (f, s, e, laid) h =
    let step : (q : Bytes) (t : ℕ)
        → 0 < length q
        → ReadsFlat files (st + length pf.content) q off t =
      λ q t. read_files-ReadsFlat files (st + length pf.content) q off t laid in
    subst
      (λ t.
        pf.end_offset ≡ t + length pf.content
        → ((q : Bytes) (n : ℕ) → 0 < length q → ReadsFlat files (t + length pf.content) q off n)
        → ReadsFlat (pf ∷ files) t p off total)
      s
      (λ e' next. elim (Bool-cases (apart pf off (length p))) [
        | inl skip ↦ read_skip pf files p off total f e' h skip (next p total h)
        | inr meet ↦ read_one pf files p off total f e' h meet (
            next (overlay p off pf.start_offset pf.content) (total + many pf p off f e')
              (omega (arith, length-overlay p off pf.start_offset pf.content)))
      ])
      e step

-- `ReadAt` of a range that lies within the files fills the buffer with the bytes of the flat array
-- there, without an error. That is if the files are laid out one behind the other and the operating
-- system fails no call.
pub read_at-slice :
    (files : List PhysicalFile) (p : Bytes) (off : ℕ)
    → IsLaidOut 0 files
    → off + length p ≤ length (flat files)
    → read_at files p off ≡ (slice (flat files) off (length p), length p, none)
unfolding read_at
read_at-slice files p off laid fits = elim (Bool-cases (length p == 0)) [
  | inl empty ↦ let size : length p ≡ 0 = ground arith in rw empty (nothing p size)
  | inr some_bytes ↦
      let r = read_files-ReadsFlat files 0 p off 0 laid (ground arith) in
      let n : 0 + shared 0 (length (flat files)) off (length p) ≡ length p =
        unfold shared in ground arith in
      let full : ltb (length p) (length p) ≡ false = ground arith in
      rw (some_bytes, r, n, full, overlay-slice p off (flat files) fits) refl
]
  where
    nothing :
        (q : Bytes)
        → length q ≡ 0
        → ◌≡◌ {A = Bytes × ℕ × Option StorageError}
            (q, 0, none)
            (slice (flat files) off (length q), length q, none)
    nothing [] h = refl
    nothing (b ∷ q) h = absurd (omega arith)
