-- ===== src/Disk/Saved.antt =====
-- internal/disk/writer.go: the requests of a run of the writer, up to `Close`.
mod Kept
use sid_torrent.Prelude.{
  ℕ, ◌+◌, ◌-◌, ◌*◌, ◌≤◌, ◌≡◌, ◌⊎◌, refl, sym, ◌∙◌, ap, subst, Bool, true, false, Bool-cases,
  Option-cases, inl, inr, Option, none, some, List, [], ◌∷◌, arith, leb, ◌==◌, if◌then◌else◌,
  length, slice,
}
use sid_torrent.Prelude.Bytes.{Bytes}
use sid_torrent.Prelude.Keys.{lookup, put, lookup-put}
use sid_torrent.Storage.{PhysicalFile}
use sid_torrent.Storage.Refinement.{flat, IsLaidOut}
use sid_torrent.Disk.{
  WriteRequest, DiskError, DiskWriter, old_size, add_to_cache, sort_requests, write_all, flush,
  handle_request, handle_all, finish_loop, close,
}
use sid_torrent.Disk.Flush.{
  InRange, AllInRange, DistinctRequests, lookup-sort_requests, sort_requests-AllInRange,
  sort_requests-Distinct, write_all-AllWritten,
}
pub use sid_torrent.Disk.Saved.Kept.{IsHealthy}
use sid_torrent.Disk.Saved.Kept.{IsSaved, flush-Keeps, handle_request-Keeps}

-- The bytes that come last for a piece.
abbrev pub last_of : ℕ → List WriteRequest → Option Bytes
last_of i [] = none
last_of i ((j, bytes) ∷ rs) = elim (last_of i rs) [
  | none ↦ if j == i then some bytes else none
  | some b ↦ some b
]

-- Where a piece is saved after the first of the requests.
one_more :
    {total : ℕ} (dw dw' : DiskWriter) (j : ℕ) (b : Bytes) (rs : List WriteRequest) (i : ℕ)
    (bytes : Bytes)
    → IsSaved dw' j b
    → ((j == i) ≡ false
        → InRange dw.piece_length total (i, bytes)
        → IsSaved dw i bytes
        → IsSaved dw' i bytes)
    → InRange dw.piece_length total (i, bytes)
    → (last_of i ((j, b) ∷ rs) ≡ some bytes)
      ⊎ ((last_of i ((j, b) ∷ rs) ≡ none) × IsSaved dw i bytes)
    → (last_of i rs ≡ some bytes) ⊎ ((last_of i rs ≡ none) × IsSaved dw' i bytes)
one_more dw dw' j b rs i bytes here other g s = elim (Option-cases (last_of i rs)) [
  | inr (b', e) ↦ elim s [
    | inl e2 ↦ let same : some b' ≡ some bytes = rw e at e2 in inl (e ∙ same)
    | inr (e2, there) ↦ cc (rw e at e2)
  ]
  | inl e ↦ elim (Bool-cases (j == i)) [
    | inl q ↦ elim s [
      | inl e2 ↦
          let which : j ≡ i = ground arith in
          let what : b ≡ bytes = cc (rw (e, q) at e2) in
          inr (e, subst (λ n. IsSaved dw' n bytes) which (subst (λ c. IsSaved dw' j c) what here))
      | inr (e2, there) ↦ cc (rw (e, q) at e2)
    ]
    | inr q ↦ elim s [ inl e2 ↦ cc (rw (e, q) at e2) | inr (e2, there) ↦ inr (e, other q g there) ]
  ]
]

handle_all-saves :
    (total : ℕ) (dw : DiskWriter) (rs : List WriteRequest)
    → IsHealthy total dw
    → AllInRange dw.piece_length total rs
    → IsHealthy total (handle_all dw rs)
      × ((handle_all dw rs).piece_length ≡ dw.piece_length)
      × ((i : ℕ) (bytes : Bytes)
          → InRange dw.piece_length total (i, bytes)
          → (last_of i rs ≡ some bytes) ⊎ ((last_of i rs ≡ none) × IsSaved dw i bytes)
          → IsSaved (handle_all dw rs) i bytes)
unfolding handle_all
handle_all-saves total dw [] h all =
    (h, refl, λ i bytes g s. elim s [ inl e ↦ cc | inr (e, there) ↦ there ])
handle_all-saves total dw ((j, b) ∷ rs) h (r, all) =
    let (k, here) = handle_request-Keeps total dw j b h r in
    let (healthy, same, saves) =
      handle_all-saves total (handle_request dw (j, b)) rs k.healthy (rw k.same_length all) in
    (
      healthy,
      same ∙ k.same_length,
      λ i bytes g s.
          saves i bytes (rw k.same_length g)
            (one_more dw (handle_request dw (j, b)) j b rs i bytes here (k.saved i bytes) g s),
    )

if_false {ℓ} : {A : Type ℓ} (b : Bool) (x y : A) → b ≡ false → (if b then x else y) ≡ y
if_false true x y h = cc
if_false false x y h = refl

-- A flush leaves the cache empty.
flush-cache : (dw : DiskWriter) → (flush dw).cache ≡ []
unfolding flush
flush-cache dw = elim (Bool-cases (length dw.cache == 0)) [
  | inl empty ↦ rw empty (no_requests dw.cache empty)
  | inr full ↦ rw full (go dw.error refl)
]
  where
    no_requests : (rs : List WriteRequest) → (length rs == 0) ≡ true → rs ≡ []
    no_requests [] h = refl
    no_requests (r ∷ rs) h = absurd (ground arith)

    go :
        (o : Option DiskError)
        → dw.error ≡ o
        → (elim dw.error as (λ x. DiskWriter) [
          | none ↦ record dw {
            dest = (write_all dw.piece_length (sort_requests dw.cache) dw.dest).0;
            error = (write_all dw.piece_length (sort_requests dw.cache) dw.dest).1;
            cache = [];
            cache_size = 0;
          }
          | some e ↦ record dw { cache = []; cache_size = 0 }
        ]).cache
          ≡ []
    go none h = rw h refl
    go (some e) h = rw h refl

-- After a flush a saved piece is on disk.
on_disk :
    (dw : DiskWriter) (i : ℕ) (bytes : Bytes)
    → IsSaved (flush dw) i bytes
    → slice (flat (flush dw).dest) (i * (flush dw).piece_length) (length bytes) ≡ bytes
on_disk dw i bytes (inr (absent, there)) = there
on_disk dw i bytes (inl cached) =
    let e : lookup i (flush dw).cache ≡ none = ap (lookup i) (flush-cache dw) in cc

-- `Close` of an open writer in a healthy state, whose channel holds pieces of the torrent each no longer
-- than a piece, gives no error; for each piece in the channel, what was sent last for it is then on
-- disk at the piece's offset, and the same goes for a piece in the cache for which nothing was sent.
-- Healthy: no write has failed, and the files are laid out one behind the other.
pub close-saves :
    (total : ℕ) (dw : DiskWriter) (i : ℕ) (bytes : Bytes)
    → IsHealthy total dw
    → dw.closed ≡ false
    → AllInRange dw.piece_length total dw.queue
    → InRange dw.piece_length total (i, bytes)
    → (last_of i dw.queue ≡ some bytes)
      ⊎ ((last_of i dw.queue ≡ none) × (lookup i dw.cache ≡ some bytes))
    → ((close dw).1 ≡ none)
      × (slice (flat (close dw).0.dest) (i * dw.piece_length) (length bytes) ≡ bytes)
unfolding close finish_loop
close-saves total dw i bytes h not_closed all g s =
    let start = record dw { closed = true; queue = [] } in
    let h' : IsHealthy total start = record {
      no_error = h.no_error;
      laid = h.laid;
      size = h.size;
      distinct = h.distinct;
      in_range = h.in_range;
      counted = h.counted;
    } in
    let (healthy, same, saves) = handle_all-saves total start dw.queue h' all in
    let f = flush-Keeps total (handle_all start dw.queue) healthy in
    let saved = f.saved i bytes refl (rw same g) (saves i bytes g (cached s)) in
    let e : close dw
        ≡ (flush (handle_all start dw.queue), (flush (handle_all start dw.queue)).error) =
      if_false dw.closed (dw, none)
        (flush (handle_all start dw.queue), (flush (handle_all start dw.queue)).error) not_closed in
    let there = on_disk (handle_all start dw.queue) i bytes saved in
    let length_same = f.same_length ∙ same in
    (
      ap (λ r. r.1) e ∙ f.healthy.no_error,
      ap (λ r. slice (flat r.0.dest) (i * dw.piece_length) (length bytes)) e
          ∙ rw length_same at there,
    )
  where
    cached :
        (last_of i dw.queue ≡ some bytes)
          ⊎ ((last_of i dw.queue ≡ none) × (lookup i dw.cache ≡ some bytes))
        → (last_of i dw.queue ≡ some bytes)
          ⊎ ((last_of i dw.queue ≡ none)
              × IsSaved (record dw { closed = true; queue = [] }) i bytes)
    cached (inl e) = inl e
    cached (inr (e, c)) = inr (e, inl c)
