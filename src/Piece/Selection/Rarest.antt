-- ===== src/Piece/Selection/Rarest.antt =====
-- internal/piece/manager.go: `NextRarestPiece`.
use sid_torrent.Prelude.{
  ℕ, ◌≤◌, ◌<◌, ◌≡◌, refl, ◌∙◌, Bool, true, false, Option-cases, inl, inr, Option, none, some, List,
  subst, get_elem?,
}
use sid_torrent.Prelude.Keys.{has, remove, insert}
use sid_torrent.Piece.Buckets.{drop_member}
use sid_torrent.Piece.Manager.{PieceManager, claim_piece}
use sid_torrent.Piece.Manager.Invariant.{IsValid, Keeps, claim_piece-Keeps}
use sid_torrent.Piece.Manager.Sync.{IsSynced, OnlyBuckets, ensure_buckets_sync-IsSynced}
use sid_torrent.Piece.Selection.{offers, counts, rarest_of, claim_choice, next_rarest_piece}
use sid_torrent.Piece.Selection.Sorted.{
  choose_rarest-some, choose_rarest-none, sort_ints-IsSorted, has-sort_ints, has-counts,
}

-- `i` is pending, the peer offers it, and fewer peers own no other such piece.
pub record IsRarest (pm : PieceManager) (available : List Bool) (i : ℕ) : Type 0 where
  pub is_pending : has i pm.pending ≡ true
  pub is_offered : offers available i ≡ true
  pub count : ℕ
  pub its_count : get_elem? pm.availability i ≡ some count
  pub least :
      (j n : ℕ)
      → has j pm.pending ≡ true
      → offers available j ≡ true
      → get_elem? pm.availability j ≡ some n
      → count ≤ n

pub rarest_of-IsRarest :
    (pm : PieceManager) (available : List Bool) (rand : ℕ) {i : ℕ}
    → IsSynced pm
    → rarest_of pm available rand ≡ some i
    → IsRarest pm available i
unfolding rarest_of
rarest_of-IsRarest pm available rand {i} s h =
    let (c, m, o, least) =
      choose_rarest-some available rand pm.buckets _ (sort_ints-IsSorted (counts pm.buckets)) h in
    let (p, e) = s.valid.bucketed c i m in
    record {
      is_pending = p;
      is_offered = o;
      count = c;
      its_count = e;
      least = λ j n hp ho hn.
          let (d, ed, md) = s.in_bucket j hp in
          let same : d ≡ n = cc in
          subst (λ k. c ≤ k) same
            (least d j (has-sort_ints d (counts pm.buckets) ∙ has-counts d j pm.buckets md) md ho);
    }

pub rarest_of-none :
    (pm : PieceManager) (available : List Bool) (rand j : ℕ)
    → IsSynced pm
    → rarest_of pm available rand ≡ none
    → has j pm.pending ≡ true
    → offers available j ≡ false
unfolding rarest_of
rarest_of-none pm available rand j s h hp =
    let (d, ed, md) = s.in_bucket j hp in
    choose_rarest-none available rand pm.buckets _ d j h
      (has-sort_ints d (counts pm.buckets) ∙ has-counts d j pm.buckets md) md

pub IsRarest-transfer :
    (pm pm' : PieceManager) (available : List Bool) (i : ℕ)
    → OnlyBuckets pm pm'
    → IsRarest pm' available i
    → IsRarest pm available i
IsRarest-transfer pm pm' available i o r = record {
  is_pending = rw (← o.same_pending) r.is_pending;
  is_offered = r.is_offered;
  count = r.count;
  its_count = rw (← o.same_availability) r.its_count;
  least = λ j n hp ho hn. r.least j n (rw o.same_pending hp) ho (rw o.same_availability hn);
}

-- The piece has gone from the pending ones to those in progress.
pub record Claimed (pm pm' : PieceManager) (i : ℕ) : Type 0 where
  pub valid : IsValid pm'
  pub pending : pm'.pending ≡ remove i pm.pending
  pub in_progress : pm'.in_progress ≡ insert i pm.in_progress
  pub completed : pm'.completed ≡ pm.completed
  pub availability : pm'.availability ≡ pm.availability

pub claim_piece-Claimed :
    (pm : PieceManager) (i : ℕ)
    → IsValid pm
    → i < pm.total_pieces
    → (pm' : PieceManager) × (claim_piece pm i ≡ some pm') × Claimed pm pm' i
unfolding claim_piece
claim_piece-Claimed pm i v h = go (get_elem? pm.availability i) refl (claim_piece-Keeps pm i v h)
  where
    go :
        (o : Option ℕ)
        → get_elem? pm.availability i ≡ o
        → Keeps (claim_piece pm i)
        → (pm' : PieceManager) × (claim_piece pm i ≡ some pm') × Claimed pm pm' i
    go none e k = absurd (rw e at k)
    go (some c) e k = (
      record pm {
        pending = remove i pm.pending;
        in_progress = insert i pm.in_progress;
        buckets = drop_member c i pm.buckets;
      },
      rw e,
      record {
        valid = rw e at k;
        pending = refl;
        in_progress = refl;
        completed = refl;
        availability = refl;
      },
    )

-- What a choice by rarity comes to.
pub data RarestOutcome (pm : PieceManager) (available : List Bool)
    : PieceManager → Option ℕ → Type 0 where
  chosen :
      {pm' : PieceManager} (i : ℕ)
      → IsRarest pm available i
      → Claimed pm pm' i
      → RarestOutcome pm available pm' (some i)
  nothing :
      {pm' : PieceManager}
      → IsValid pm'
      → OnlyBuckets pm pm'
      → ((j : ℕ) → has j pm.pending ≡ true → offers available j ≡ false)
      → RarestOutcome pm available pm' none

pub Claimed-transfer :
    (pm synced pm' : PieceManager) (i : ℕ)
    → OnlyBuckets pm synced
    → Claimed synced pm' i
    → Claimed pm pm' i
Claimed-transfer pm synced pm' i o c = record {
  valid = c.valid;
  pending = rw (← o.same_pending) c.pending;
  in_progress = rw (← o.same_in_progress) c.in_progress;
  completed = rw (← o.same_completed) c.completed;
  availability = rw (← o.same_availability) c.availability;
}

-- On a valid state `NextRarestPiece` does not panic, for every bitfield and every random value.
-- Either it claims a pending piece that the peer offers, such that no other pending piece on offer
-- has a smaller count; or it claims nothing, and then no pending piece is on offer at all.
pub next_rarest_piece-RarestOutcome :
    (pm : PieceManager) (available : List Bool) (rand : ℕ)
    → IsValid pm
    → (pm' : PieceManager) × (answer : Option ℕ) × (next_rarest_piece pm available rand
        ≡ some (pm', answer))
      × RarestOutcome pm available pm' answer
unfolding next_rarest_piece claim_choice
next_rarest_piece-RarestOutcome pm available rand v =
    let (synced, run, s, o) = ensure_buckets_sync-IsSynced pm v in
    elim (Option-cases (rarest_of synced available rand)) [
      | inl e ↦ (
        synced,
        none,
        rw (run, e),
        nothing s.valid o
            (λ j hp. rarest_of-none synced available rand j s e (rw o.same_pending hp)),
      )
      | inr (i, e) ↦
          let r = rarest_of-IsRarest synced available rand s e in
          let (pm', claimed, c) =
            claim_piece-Claimed synced i s.valid (s.valid.pending_below i r.is_pending) in
          (
            pm',
            some i,
            rw (run, e, claimed),
            chosen i (IsRarest-transfer pm synced available i o r)
                (Claimed-transfer pm synced pm' i o c),
          )
    ]
