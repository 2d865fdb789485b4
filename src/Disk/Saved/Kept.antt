-- ===== src/Disk/Saved/Kept.antt =====
-- internal/disk/writer.go: what a step of the writer keeps of the pieces that are on disk or in the
-- cache.
use sid_torrent.Prelude.{
  ℕ, ◌+◌, ◌-◌, ◌*◌, ◌≤◌, ◌≡◌, ◌⊎◌, refl, sym, ◌∙◌, subst, Bool, true, false, Bool-cases, inl, inr,
  Option, none, some, List, [], ◌∷◌, arith, leb, ◌==◌, length, slice,
}
use sid_torrent.Prelude.Bytes.{Bytes}
use sid_torrent.Prelude.Keys.{lookup, put, lookup-put}
use sid_torrent.Storage.{PhysicalFile}
use sid_torrent.Storage.Refinement.{flat, IsLaidOut}
use sid_torrent.Disk.{
  WriteRequest, DiskError, DiskWriter, old_size, add_to_cache, sort_requests, write_all, flush,
  handle_request,
}
use sid_torrent.Disk.Flush.{
  InRange, AllInRange, DistinctRequests, lookup-sort_requests, sort_requests-AllInRange,
  sort_requests-Distinct, write_all-AllWritten,
}

abbrev pub total_size : List WriteRequest → ℕ
total_size [] = 0
total_size ((i, bytes) ∷ rs) = length bytes + total_size rs

-- The state as long as no write has failed, for a torrent of `total` bytes.
pub record IsHealthy (total : ℕ) (dw : DiskWriter) : Type 0 where
  pub no_error : dw.error ≡ none
  pub laid : IsLaidOut 0 dw.dest
  pub size : length (flat dw.dest) ≡ total
  pub distinct : DistinctRequests dw.cache
  pub in_range : AllInRange dw.piece_length total dw.cache
  pub counted : dw.cache_size ≡ total_size dw.cache

put-Distinct :
    (i : ℕ) (bytes : Bytes) (rs : List WriteRequest)
    → DistinctRequests rs
    → DistinctRequests (put i bytes rs)
unfolding put
put-Distinct i bytes [] d = (refl, tt)
put-Distinct i bytes ((j, other) ∷ rs) (fresh, d) = elim (Bool-cases (j == i)) [
  | inl e ↦ let same : j ≡ i = ground arith in rw e (rw same at fresh, d)
  | inr e ↦ rw e (ground (arith, lookup-put j i bytes rs, fresh, e), put-Distinct i bytes rs d)
]

put-AllInRange :
    (piece_length total i : ℕ) (bytes : Bytes) (rs : List WriteRequest)
    → InRange piece_length total (i, bytes)
    → AllInRange piece_length total rs
    → AllInRange piece_length total (put i bytes rs)
unfolding put
put-AllInRange piece_length total i bytes [] h all = (h, tt)
put-AllInRange piece_length total i bytes ((j, other) ∷ rs) h (g, all) =
    elim (Bool-cases (j == i)) [
      | inl e ↦ rw e (h, all)
      | inr e ↦ rw e (g, put-AllInRange piece_length total i bytes rs h all)
    ]

old_size-le : (i : ℕ) (rs : List WriteRequest) → old_size (lookup i rs) ≤ total_size rs
unfolding old_size
old_size-le i [] = omega arith
old_size-le i ((j, other) ∷ rs) = ground (arith, old_size-le i rs)

total_size-put :
    (i : ℕ) (bytes : Bytes) (rs : List WriteRequest)
    → total_size (put i bytes rs) ≡ total_size rs - old_size (lookup i rs) + length bytes
unfolding put old_size
total_size-put i bytes [] = omega arith
total_size-put i bytes ((j, other) ∷ rs) =
    ground (arith, total_size-put i bytes rs, old_size-le i rs)

-- The piece is in the cache, or on disk and not in the cache.
abbrev pub IsSaved : DiskWriter → ℕ → Bytes → Type 0
IsSaved dw i bytes =
    (lookup i dw.cache ≡ some bytes)
    ⊎ ((lookup i dw.cache ≡ none)
        × (slice (flat dw.dest) (i * dw.piece_length) (length bytes) ≡ bytes))

-- A step that keeps the state healthy and the pieces but `j` where they are.
pub record Keeps (total : ℕ) (dw dw' : DiskWriter) (but : ℕ → Bool) : Type 0 where
  pub healthy : IsHealthy total dw'
  pub same_length : dw'.piece_length ≡ dw.piece_length
  pub saved :
      (i : ℕ) (bytes : Bytes)
      → but i ≡ false
      → InRange dw.piece_length total (i, bytes)
      → IsSaved dw i bytes
      → IsSaved dw' i bytes

add_to_cache-Keeps :
    (total : ℕ) (dw : DiskWriter) (j : ℕ) (bytes : Bytes)
    → IsHealthy total dw
    → InRange dw.piece_length total (j, bytes)
    → Keeps total dw (add_to_cache dw (j, bytes)) (λ i. j == i)
unfolding add_to_cache
add_to_cache-Keeps total dw j bytes h r = record {
  healthy = record {
    no_error = h.no_error;
    laid = h.laid;
    size = h.size;
    distinct = put-Distinct j bytes dw.cache h.distinct;
    in_range = put-AllInRange dw.piece_length total j bytes dw.cache r h.in_range;
    counted = omega (arith, h.counted, total_size-put j bytes dw.cache);
  };
  same_length = refl;
  saved = λ i b other g s. elim s [
    | inl cached ↦ inl (rw (lookup-put i j bytes dw.cache, other) cached)
    | inr (absent, on_disk) ↦ inr (rw (lookup-put i j bytes dw.cache, other) absent, on_disk)
  ];
}

-- The state after a flush that had something to write.
flushed : DiskWriter → List PhysicalFile → DiskWriter
flushed dw files = record dw { dest = files; cache = []; cache_size = 0 }

flush-shape :
    (dw : DiskWriter) (files : List PhysicalFile)
    → (length dw.cache == 0) ≡ false
    → dw.error ≡ none
    → write_all dw.piece_length (sort_requests dw.cache) dw.dest ≡ (files, none)
    → flush dw ≡ record dw { dest = files; error = none; cache = []; cache_size = 0 }
unfolding flush
flush-shape dw files full sound run = go dw.error refl
  where
    go :
        (o : Option DiskError)
        → dw.error ≡ o
        → flush dw ≡ record dw { dest = files; error = none; cache = []; cache_size = 0 }
    go (some e) h = cc
    go none h = rw (full, h, run) refl

pub flush-Keeps :
    (total : ℕ) (dw : DiskWriter) → IsHealthy total dw → Keeps total dw (flush dw) (λ i. false)
unfolding flush
flush-Keeps total dw h = elim (Bool-cases (length dw.cache == 0)) [
  | inl empty ↦ rw empty (record { healthy = h; same_length = refl; saved = λ i b o g s. s })
  | inr full ↦
      let w =
        write_all-AllWritten dw.piece_length (sort_requests dw.cache) dw.dest h.laid
          (sort_requests-Distinct dw.cache h.distinct)
          (rw h.size (sort_requests-AllInRange dw.piece_length total dw.cache h.in_range)) in
      subst (λ d. Keeps total dw d (λ i. false))
        (sym (flush-shape dw w.after full h.no_error w.run))
        (record {
          healthy = record {
            no_error = refl;
            laid = w.laid;
            size = w.size ∙ h.size;
            distinct = tt;
            in_range = tt;
            counted = refl;
          };
          same_length = refl;
          saved = λ i b o (short, fits) s. elim s [
            | inl cached ↦ inr (refl, w.written i b (lookup-sort_requests i dw.cache ∙ cached))
            | inr (absent, on_disk) ↦ inr (
              refl,
              w.kept i (length b) (lookup-sort_requests i dw.cache ∙ absent) short
                    (omega (arith, h.size))
                  ∙ on_disk,
            )
          ];
        })
]

pub handle_request-Keeps :
    (total : ℕ) (dw : DiskWriter) (j : ℕ) (bytes : Bytes)
    → IsHealthy total dw
    → InRange dw.piece_length total (j, bytes)
    → Keeps total dw (handle_request dw (j, bytes)) (λ i. j == i)
      × IsSaved (handle_request dw (j, bytes)) j bytes
unfolding handle_request
handle_request-Keeps total dw j bytes h r =
    let a = add_to_cache-Keeps total dw j bytes h r in
    let dw1 = add_to_cache dw (j, bytes) in
    let self : (j == j) ≡ true = ground arith in
    let here : IsSaved dw1 j bytes =
      unfold add_to_cache in (inl (rw (lookup-put j j bytes dw.cache, self) refl)) in
    let f = flush-Keeps total dw1 a.healthy in
    let r1 : InRange dw1.piece_length total (j, bytes) = rw a.same_length r in
    elim (Bool-cases (leb dw1.max_cache_size dw1.cache_size)) [
      | inr room ↦ rw room (a, here)
      | inl over ↦ rw over (
        record {
          healthy = f.healthy;
          same_length = f.same_length ∙ a.same_length;
          saved = λ i b o g s. f.saved i b refl (rw a.same_length g) (a.saved i b o g s);
        },
        f.saved j bytes refl r1 here,
      )
    ]
