-- ===== src/Storage/Refinement/Writing.antt =====
-- internal/storage/storage.go: `WriteAt`, against the flat array.
use sid_torrent.Prelude.{
  ℕ, ◌+◌, ◌-◌, ◌<◌, ◌≤◌, ◌≡◌, refl, sym, ◌∙◌, ap, subst, true, false, Bool-cases, inl, inr, none,
  List, [], ◌∷◌, ◌++◌, arith, ◌==◌, length, length-append, splice, splice_empty,
}
use sid_torrent.Prelude.Bytes.{Bytes}
use sid_torrent.Storage.{PhysicalFile, max_val, min_val, apart, write_files, write_at}
use sid_torrent.Storage.Overlay.{overlay, length-overlay, overlay-append, overlay-splice}
use sid_torrent.Storage.Refinement.{
  flat, IsLaidOut, shared, many, apart→same, write_round, shared-split, shared-apart,
}

-- What the loop of `WriteAt` does from a file on that starts at `st`.
pub record Written (files : List PhysicalFile) (st : ℕ) (p : Bytes) (off total : ℕ) : Type 0 where
  pub after : List PhysicalFile
  pub run :
      write_files files p off total
      ≡ (after, total + shared st (length (flat files)) off (length p), none)
  pub bytes : flat after ≡ overlay (flat files) st off p
  pub laid : IsLaidOut st after

write_none : (st : ℕ) (p : Bytes) (off total : ℕ) → Written [] st p off total
unfolding write_files flat overlay shared
write_none st p off total =
    let z : total + shared st 0 off (length p) ≡ total = ground arith in
    record { after = []; run = rw z refl; bytes = refl; laid = tt }

module _ (pf : PhysicalFile) (files : List PhysicalFile) (p : Bytes) (off total : ℕ)
    (f : pf.fault ≡ none) (e : pf.end_offset ≡ pf.start_offset + length pf.content)
    (h : 0 < length p) where
  write_skip :
      apart pf off (length p) ≡ true
      → Written files (pf.start_offset + length pf.content) p off total
      → Written (pf ∷ files) pf.start_offset p off total
  unfolding write_files flat
  write_skip skip w =
      let size =
        ap (λ t. shared pf.start_offset t off (length p)) (length-append pf.content (flat files)) in
      let split =
        shared-split pf.start_offset (length pf.content) (length (flat files)) off (length p) h in
      let zero =
        shared-apart pf.start_offset (length pf.content) off (length p)
          (unfold apart in (rw e at skip)) in
      let count : shared (pf.start_offset + length pf.content) (length (flat files)) off (length p)
          ≡ shared pf.start_offset (length (pf.content ++ flat files)) off (length p) =
        omega (arith, size, split, zero) in
      record {
        after = pf ∷ w.after;
        run = rw (skip, w.run, count);
        bytes =
            ap (λ t. pf.content ++ t) w.bytes
            ∙ sym (
                overlay-append pf.content (flat files) pf.start_offset off p
                ∙ ap (λ t. t ++ overlay (flat files) (pf.start_offset + length pf.content) off p)
                    (apart→same pf p off f e skip));
        laid = (f, refl, e, w.laid);
      }

  write_one :
      apart pf off (length p) ≡ false
      → Written files (pf.start_offset + length pf.content) p off (total + many pf p off f e)
      → Written (pf ∷ files) pf.start_offset p off total
  unfolding write_files flat
  write_one meet w =
      let size =
        ap (λ t. shared pf.start_offset t off (length p)) (length-append pf.content (flat files)) in
      let split =
        shared-split pf.start_offset (length pf.content) (length (flat files)) off (length p) h in
      let here : many pf p off f e ≡ shared pf.start_offset (length pf.content) off (length p) =
        unfold shared in (ap (λ t. min_val (off + length p) t - max_val off pf.start_offset) e) in
      let count : total
            + many pf p off f e
            + shared (pf.start_offset + length pf.content) (length (flat files)) off (length p)
          ≡ total + shared pf.start_offset (length (pf.content ++ flat files)) off (length p) =
        omega (arith, size, split, here) in
      let long = length-overlay pf.content pf.start_offset off p in
      record {
        after = record pf { content = overlay pf.content pf.start_offset off p } ∷ w.after;
        run = rw (meet, write_round pf p off f e meet, w.run, count);
        bytes =
            ap (λ t. overlay pf.content pf.start_offset off p ++ t) w.bytes
            ∙ sym (overlay-append pf.content (flat files) pf.start_offset off p);
        laid = (f, refl, rw long e, rw long w.laid);
      }

-- `WriteAt` from a file on that starts at `st`.
pub write_files-Written :
    (files : List PhysicalFile) (st : ℕ) (p : Bytes) (off total : ℕ)
    → IsLaidOut st files
    → 0 < length p
    → Written files st p off total
write_files-Written [] st p off total laid h = write_none st p off total
write_files-Written (pf ∷ files) st p off total (f, s, e, laid) h =
    let step : (t : ℕ) → Written files (st + length pf.content) p off t =
      λ t. write_files-Written files (st + length pf.content) p off t laid h in
    subst
      (λ t.
        pf.end_offset ≡ t + length pf.content
        → ((n : ℕ) → Written files (t + length pf.content) p off n)
        → Written (pf ∷ files) t p off total)
      s
      (λ e' next. elim (Bool-cases (apart pf off (length p))) [
        | inl skip ↦ write_skip pf files p off total f e' h skip (next total)
        | inr meet ↦ write_one pf files p off total f e' h meet (next (total + many pf p off f e'))
      ])
      e step

-- `WriteAt` of a range that lies within the files writes all of it, and does to their bytes what the
-- same write does to one flat array; the files stay where they are. That is if the files are laid out
-- one behind the other and the operating system fails no call.
pub write_at-splice :
    (files : List PhysicalFile) (p : Bytes) (off : ℕ)
    → IsLaidOut 0 files
    → off + length p ≤ length (flat files)
    → (files' : List PhysicalFile) × (write_at files p off ≡ (files', length p, none))
      × (flat files' ≡ splice (flat files) off p)
      × IsLaidOut 0 files'
unfolding write_at
write_at-splice files p off laid fits = elim (Bool-cases (length p == 0)) [
  | inl empty ↦
      let size : length p ≡ 0 = ground arith in
      (files, rw (empty, size) refl, sym (splice_empty (flat files) off p size), laid)
  | inr some_bytes ↦
      let w = write_files-Written files 0 p off 0 laid (ground arith) in
      let n : 0 + shared 0 (length (flat files)) off (length p) ≡ length p =
        unfold shared in ground arith in
      (
        w.after,
        rw (some_bytes, w.run, n) refl,
        w.bytes ∙ overlay-splice (flat files) off p fits,
        w.laid,
      )
]
