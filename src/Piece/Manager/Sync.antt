-- ===== src/Piece/Manager/Sync.antt =====
-- internal/piece/manager.go: `ensureBucketsSync`.
use sid_torrent.Prelude.{
  ℕ, ◌<◌, ◌≡◌, ◌⊎◌, refl, true, not, ◌||◌, Bool-cases, inl, inr, some, List, [], ◌∷◌, arith, ◌==◌,
  length, get_elem?, get_elem?_within,
}
use sid_torrent.Prelude.Keys.{has}
use sid_torrent.Piece.Buckets.{
  Buckets, bucket, members, add_member, has-add_member, AllDistinct, add_member-AllDistinct,
  total_in_buckets,
}
use sid_torrent.Piece.Buckets.Count.{buckets_cover}
use sid_torrent.Piece.Manager.{PieceManager, sum, fill_buckets, ensure_buckets_sync}
use sid_torrent.Piece.Manager.Invariant.{IsValid}

record Filled (av : List ℕ) (is : List ℕ) (bs bs' : Buckets) : Type 0 where
  distinct : AllDistinct bs'
  from :
      (c j : ℕ)
      → has j (bucket c bs') ≡ true
      → (has j (bucket c bs) ≡ true) ⊎ ((has j is ≡ true) × (get_elem? av j ≡ some c))
  kept : (c j : ℕ) → has j (bucket c bs) ≡ true → has j (bucket c bs') ≡ true
  filled : (c j : ℕ) → has j is ≡ true → get_elem? av j ≡ some c → has j (bucket c bs') ≡ true

fill_buckets-Filled :
    (av is : List ℕ) (bs : Buckets)
    → AllDistinct bs
    → ((j : ℕ) → has j is ≡ true → j < length av)
    → (bs' : Buckets) × (fill_buckets av is bs ≡ some bs') × Filled av is bs bs'
unfolding fill_buckets
fill_buckets-Filled av [] bs d h = (
  bs,
  refl,
  record { distinct = d; from = λ c j e. inl e; kept = λ c j e. e; filled = λ c j e f. cc },
)
fill_buckets-Filled av (i ∷ is) bs d h =
    let (count, e) = get_elem?_within av i (h i (ground arith)) in
    let (bs', run, f) =
      fill_buckets-Filled av is (add_member count i bs) (add_member-AllDistinct count i bs d)
        (λ j hj. h j (ground arith)) in
    (
      bs',
      rw e run,
      record {
        distinct = f.distinct;
        from = λ c j m. elim (f.from c j m) [
          | inr (a, b) ↦ inr (ground arith, b)
          | inl old ↦ ground (arith, has-add_member c j count i bs, old, e)
        ];
        kept = λ c j m. f.kept c j (ground (arith, has-add_member c j count i bs));
        filled = λ c j m at. elim (Bool-cases (i == j)) [
          | inr ne ↦ f.filled c j (rw ne at m) at
          | inl eq ↦ f.kept c j (ground (arith, has-add_member c j count i bs, e, at))
        ];
      },
    )

-- A valid state in which every pending piece stands in its bucket.
pub record IsSynced (pm : PieceManager) : Type 0 where
  pub valid : IsValid pm
  pub in_bucket :
      (i : ℕ)
      → has i pm.pending ≡ true
      → (c : ℕ) × (get_elem? pm.availability i ≡ some c) × (has i (bucket c pm.buckets) ≡ true)

-- Only the buckets and their checksum may differ.
pub record OnlyBuckets (pm pm' : PieceManager) : Type 0 where
  pub same_rest : pm' ≡ record pm { buckets = pm'.buckets; availability_sum = pm'.availability_sum }
  pub total : pm'.total_pieces ≡ pm.total_pieces
  pub same_pending : pm'.pending ≡ pm.pending
  pub same_in_progress : pm'.in_progress ≡ pm.in_progress
  pub same_completed : pm'.completed ≡ pm.completed
  pub same_availability : pm'.availability ≡ pm.availability
  pub same_window : pm'.streaming_window_size ≡ pm.streaming_window_size

rebuilt :
    (pm : PieceManager) (bs : Buckets)
    → IsValid pm
    → Filled pm.availability pm.pending [] bs
    → IsSynced (record pm { buckets = bs; availability_sum = sum pm.availability })
unfolding members
rebuilt pm bs v f = record {
  valid = record {
    availability_size = v.availability_size;
    pending_below = v.pending_below;
    completed_below = v.completed_below;
    pending_distinct = v.pending_distinct;
    completed_distinct = v.completed_distinct;
    apart = v.apart;
    tracked = v.tracked;
    buckets_distinct = f.distinct;
    bucketed = λ c i h. ground (arith, f.from c i h);
    sum_exact = refl;
  };
  in_bucket = λ i h.
      let (c, e) =
        get_elem?_within pm.availability i
          (ground (arith, v.pending_below i h, v.availability_size)) in
      (c, e, f.filled c i h e);
}

-- On a valid state `ensureBucketsSync` does not panic, changes at most the buckets and the
-- checksum, and leaves every pending piece in the bucket of its count.
pub ensure_buckets_sync-IsSynced :
    (pm : PieceManager)
    → IsValid pm
    → (pm' : PieceManager) × (ensure_buckets_sync pm ≡ some pm') × IsSynced pm' × OnlyBuckets pm pm'
unfolding ensure_buckets_sync
ensure_buckets_sync-IsSynced pm v =
    elim (Bool-cases (
      not (total_in_buckets pm.buckets == length pm.pending)
      || not (sum pm.availability == pm.availability_sum))) [
        | inl stale ↦
            let (bs, run, f) =
              fill_buckets-Filled pm.availability pm.pending [] tt
                (λ j h. ground (arith, v.pending_below j h, v.availability_size)) in
            (
              record pm { buckets = bs; availability_sum = sum pm.availability },
              rw (stale, run),
              rebuilt pm bs v f,
              record {
                same_rest = refl;
                total = refl;
                same_pending = refl;
                same_in_progress = refl;
                same_completed = refl;
                same_availability = refl;
                same_window = refl;
              },
            )
        | inr fresh ↦
            let size : total_in_buckets pm.buckets ≡ length pm.pending = ground (arith, fresh) in
            (
              pm,
              rw fresh,
              record {
                valid = v;
                in_bucket = λ i h.
                    let (c, m) =
                      buckets_cover (λ j. get_elem? pm.availability j) pm.pending pm.buckets
                        v.buckets_distinct (λ c j hj. (v.bucketed c j hj).1)
                        (λ c j hj. (v.bucketed c j hj).0) size i h in
                    (c, (v.bucketed c i m).1, m);
              },
              record {
                same_rest = refl;
                total = refl;
                same_pending = refl;
                same_in_progress = refl;
                same_completed = refl;
                same_availability = refl;
                same_window = refl;
              },
            )
      ]
