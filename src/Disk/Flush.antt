-- ===== src/Disk/Flush.antt =====
-- internal/disk/writer.go: the writes of a flush.
use sid_torrent.Prelude.{
  ℕ, ◌+◌, ◌*◌, ◌<◌, ◌≤◌, ◌≡◌, ◌⊎◌, refl, sym, ◌∙◌, ap, false, Bool-cases, inl, inr, Option, none,
  some, List, [], ◌∷◌, arith, leb, ◌==◌, if◌then◌else◌, length, get_elem?, get_elem?_beyond,
  get_elem?-slice, get_elem?-splice_before, get_elem?-splice_after, list_ext, splice, slice,
  length-splice, length-slice,
}
use native.Mathlib.Decide.{dec_lt}
use native.Mathlib.Nat.{mul-le-mul_right}
use sid_torrent.Prelude.Bytes.{Bytes}
use sid_torrent.Prelude.Keys.{lookup}
use sid_torrent.Storage.{PhysicalFile}
use sid_torrent.Storage.Refinement.{flat, IsLaidOut}
use sid_torrent.Storage.Refinement.Writing.{write_at-splice}
use sid_torrent.Storage.Refinement.RoundTrip.{slice-splice}
use sid_torrent.Disk.{
  WriteRequest, DiskError, write_failed, insert_request, sort_requests, write_all,
}

-- The piece is no longer than a piece, and ends within `total` bytes.
abbrev pub InRange : ℕ → ℕ → WriteRequest → Type 0
InRange piece_length total (i, bytes) =
    (length bytes ≤ piece_length) × (i * piece_length + length bytes ≤ total)

abbrev pub AllInRange : ℕ → ℕ → List WriteRequest → Type 0
AllInRange piece_length total [] = Unit
AllInRange piece_length total (r ∷ rs) =
    InRange piece_length total r × AllInRange piece_length total rs

-- No index stands twice.
abbrev pub DistinctRequests : List WriteRequest → Type 0
DistinctRequests [] = Unit
DistinctRequests ((i, bytes) ∷ rs) = (lookup i rs ≡ none) × DistinctRequests rs

lookup-insert_request :
    (j i : ℕ) (bytes : Bytes) (rs : List WriteRequest)
    → lookup j (insert_request (i, bytes) rs) ≡ (if i == j then some bytes else lookup j rs)
unfolding insert_request
lookup-insert_request j i bytes [] = refl
lookup-insert_request j i bytes ((k, other) ∷ rs) =
    ground (arith, lookup-insert_request j i bytes rs)

pub lookup-sort_requests :
    (j : ℕ) (rs : List WriteRequest) → lookup j (sort_requests rs) ≡ lookup j rs
unfolding sort_requests
lookup-sort_requests j [] = refl
lookup-sort_requests j ((i, bytes) ∷ rs) =
    ground (arith, lookup-insert_request j i bytes (sort_requests rs), lookup-sort_requests j rs)

insert_request-AllInRange :
    (piece_length total : ℕ) (r : WriteRequest) (rs : List WriteRequest)
    → InRange piece_length total r
    → AllInRange piece_length total rs
    → AllInRange piece_length total (insert_request r rs)
unfolding insert_request
insert_request-AllInRange piece_length total (i, bytes) [] h all = (h, tt)
insert_request-AllInRange piece_length total (i, bytes) ((j, other) ∷ rs) h (g, all) =
    elim (Bool-cases (leb i j)) [
      | inl b ↦ rw b (h, (g, all))
      | inr b ↦ rw b (g, insert_request-AllInRange piece_length total (i, bytes) rs h all)
    ]

pub sort_requests-AllInRange :
    (piece_length total : ℕ) (rs : List WriteRequest)
    → AllInRange piece_length total rs
    → AllInRange piece_length total (sort_requests rs)
unfolding sort_requests
sort_requests-AllInRange piece_length total [] all = tt
sort_requests-AllInRange piece_length total (r ∷ rs) (h, all) =
    insert_request-AllInRange piece_length total r (sort_requests rs) h
      (sort_requests-AllInRange piece_length total rs all)

insert_request-Distinct :
    (i : ℕ) (bytes : Bytes) (rs : List WriteRequest)
    → lookup i rs ≡ none
    → DistinctRequests rs
    → DistinctRequests (insert_request (i, bytes) rs)
unfolding insert_request
insert_request-Distinct i bytes [] h d = (refl, tt)
insert_request-Distinct i bytes ((j, other) ∷ rs) h (fresh, d) = elim (Bool-cases (leb i j)) [
  | inl b ↦ rw b (h, (fresh, d))
  | inr b ↦ rw b (
    ground (arith, lookup-insert_request j i bytes rs, fresh, b),
    insert_request-Distinct i bytes rs (ground (arith, h, b)) d,
  )
]

pub sort_requests-Distinct :
    (rs : List WriteRequest) → DistinctRequests rs → DistinctRequests (sort_requests rs)
unfolding sort_requests
sort_requests-Distinct [] d = tt
sort_requests-Distinct ((i, bytes) ∷ rs) (fresh, d) =
    insert_request-Distinct i bytes (sort_requests rs) (lookup-sort_requests i rs ∙ fresh)
      (sort_requests-Distinct rs d)

-- A write beside a range leaves the range alone.
slice-splice_apart :
    (xs : Bytes) (off : ℕ) (ys : Bytes) (at n : ℕ)
    → (off + length ys ≤ at) ⊎ (at + n ≤ off)
    → at + n ≤ length xs
    → slice (splice xs off ys) at n ≡ slice xs at n
slice-splice_apart xs off ys at n h fits =
    let long = length-slice (splice xs off ys) at n (omega (arith, length-splice xs off ys)) in
    let long' = length-slice xs at n fits in
    list_ext _ _ λ j. elim (dec_lt j n) [
      | no ge ↦ get_elem?_beyond _ j (omega arith) ∙ sym (get_elem?_beyond _ j (omega arith))
      | yes lt ↦
          get_elem?-slice (splice xs off ys) at n j lt
          ∙ untouched h (at + j) (omega arith) (omega arith)
          ∙ sym (get_elem?-slice xs at n j lt)
    ]
  where
    untouched :
        (off + length ys ≤ at) ⊎ (at + n ≤ off)
        → (j : ℕ) → at ≤ j
        → j < at + n
        → get_elem? (splice xs off ys) j ≡ get_elem? xs j
    untouched (inl before) j lo hi = get_elem?-splice_after xs off ys j (omega arith)
    untouched (inr after) j lo hi = get_elem?-splice_before xs off ys j (omega arith)

-- Different pieces do not overlap.
pieces_apart :
    (piece_length i j m n : ℕ)
    → (i == j) ≡ false
    → m ≤ piece_length
    → n ≤ piece_length
    → (i * piece_length + m ≤ j * piece_length) ⊎ (j * piece_length + n ≤ i * piece_length)
pieces_apart piece_length i j m n h a b = elim (dec_lt i j) [
  | yes lt ↦
      let up : (i + 1) * piece_length ≤ j * piece_length =
        mul-le-mul_right piece_length (omega arith) in
      let e : (i + 1) * piece_length ≡ i * piece_length + piece_length = omega arith in
      inl (omega arith)
  | no ge ↦
      let lt : j + 1 ≤ i = ground arith in
      let up : (j + 1) * piece_length ≤ i * piece_length = mul-le-mul_right piece_length lt in
      let e : (j + 1) * piece_length ≡ j * piece_length + piece_length = omega arith in
      inr (omega arith)
]

-- All requests are written, and no other piece is touched.
pub record AllWritten (piece_length : ℕ) (rs : List WriteRequest) (files : List PhysicalFile)
    : Type 0 where
  pub after : List PhysicalFile
  pub run : write_all piece_length rs files ≡ (after, none)
  pub laid : IsLaidOut 0 after
  pub size : length (flat after) ≡ length (flat files)
  pub written :
      (i : ℕ) (bytes : Bytes)
      → lookup i rs ≡ some bytes
      → slice (flat after) (i * piece_length) (length bytes) ≡ bytes
  pub kept :
      (i n : ℕ)
      → lookup i rs ≡ none
      → n ≤ piece_length
      → i * piece_length + n ≤ length (flat files)
      → slice (flat after) (i * piece_length) n ≡ slice (flat files) (i * piece_length) n

pub write_all-AllWritten :
    (piece_length : ℕ) (rs : List WriteRequest) (files : List PhysicalFile)
    → IsLaidOut 0 files
    → DistinctRequests rs
    → AllInRange piece_length (length (flat files)) rs
    → AllWritten piece_length rs files
unfolding write_all
write_all-AllWritten piece_length [] files laid d all = record {
  after = files;
  run = refl;
  laid = laid;
  size = refl;
  written = λ i bytes h. cc;
  kept = λ i n h a b. refl;
}
write_all-AllWritten piece_length ((k, data') ∷ rs) files laid (fresh, d) ((short, fits), all) =
    let (files', run, content, laid') = write_at-splice files data' (k * piece_length) laid fits in
    let size' = ap length content ∙ length-splice (flat files) (k * piece_length) data' in
    let w = write_all-AllWritten piece_length rs files' laid' d (rw size' all) in
    record {
      after = w.after;
      run =
          ap
            (λ r. elim r.2 as (λ x. List PhysicalFile × Option DiskError) [
              | none ↦ write_all piece_length rs r.0
              | some e ↦ (r.0, some (write_failed k (k * piece_length) e))
            ])
            run
          ∙ w.run;
      laid = w.laid;
      size = w.size ∙ size';
      written = λ i bytes h. elim (Bool-cases (k == i)) [
        | inl e ↦
            let same : k ≡ i = ground arith in
            let b : data' ≡ bytes = cc (rw e at h) in
            rw (← same, ← b)
              (w.kept k (length data') fresh short (omega arith)
                ∙ ap (λ t. slice t (k * piece_length) (length data')) content
                ∙ slice-splice (flat files) (k * piece_length) data' fits)
        | inr e ↦ w.written i bytes (rw e at h)
      ];
      kept = λ i n h a b. elim (Bool-cases (k == i)) [
        | inl e ↦ cc (rw e at h)
        | inr e ↦
            w.kept i n (rw e at h) a (omega arith)
            ∙ ap (λ t. slice t (i * piece_length) n) content
            ∙ slice-splice_apart (flat files) (k * piece_length) data' (i * piece_length) n
                (pieces_apart piece_length k i (length data') n e short a) b
      ];
    }
