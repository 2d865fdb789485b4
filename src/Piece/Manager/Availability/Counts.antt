-- ===== src/Piece/Manager/Availability/Counts.antt =====
-- internal/piece/manager.go: a piece whose count changes, and what a recount is.
use sid_torrent.Prelude.{
  ℕ, zero, suc, ◌+◌, ◌-◌, ◌<◌, ◌≡◌, ◌≢◌, refl, sym, ◌∙◌, subst, Bool, true, false, ◌&&◌, Bool-cases,
  inl, inr, some, List, [], ◌∷◌, arith, ltb, ◌==◌, if◌then◌else◌, set, get_or, get_elem?,
  length-set, get_elem?_beyond,
}
use native.Mathlib.Decide.{ℕ_discrete}
use sid_torrent.Prelude.Keys.{has}
use sid_torrent.Piece.Buckets.{
  Buckets, bucket, move_member, drop_member, has-add_member, has-drop_member,
  add_member-AllDistinct, drop_member-AllDistinct,
}
use sid_torrent.Piece.Manager.{PieceManager, sum}
use sid_torrent.Piece.Manager.Invariant.{IsValid}

sum-set :
    (xs : List ℕ) (i v old : ℕ) → get_elem? xs i ≡ some old → sum (set xs i v) + old ≡ sum xs + v
unfolding sum
sum-set [] i v old h = cc
sum-set (x ∷ xs) zero v old h = let e : x ≡ old = cc in omega arith
sum-set (x ∷ xs) (suc i) v old h = omega (arith, sum-set xs i v old h)

-- The count of one piece changed from `old` to `new`, as both directions do.
unfoldable pub moved : PieceManager → ℕ → ℕ → ℕ → ℕ → PieceManager
moved pm i old new total = record pm {
  availability = set pm.availability i new;
  availability_sum = total;
  buckets = if has i pm.pending then move_member i old new pm.buckets else pm.buckets;
}

moved_get :
    (xs : List ℕ) (i j new old : ℕ)
    → get_elem? xs i ≡ some old
    → get_elem? (set xs i new) j ≡ (if i == j then some new else get_elem? xs j)
moved_get [] i j new old h = cc
moved_get (x ∷ xs) zero zero new old h = refl
moved_get (x ∷ xs) zero (suc j) new old h = ground arith
moved_get (x ∷ xs) (suc i) zero new old h = ground arith
moved_get (x ∷ xs) (suc i) (suc j) new old h = ground (arith, moved_get xs i j new old h)

has-moved :
    (c j i old new : ℕ) (bs : Buckets)
    → has j (bucket c (move_member i old new bs)) ≡ (
        if (new == c) && (i == j)
        then true
        else if (old == c) && (i == j)
        then false
        else has j (bucket c bs))
unfolding move_member
has-moved c j i old new bs =
    ground (arith, has-add_member c j new i (drop_member old i bs), has-drop_member c j old i bs)

pub moved-IsValid :
    (pm : PieceManager) (i old new total : ℕ)
    → IsValid pm
    → get_elem? pm.availability i ≡ some old
    → total + old ≡ pm.availability_sum + new
    → IsValid (moved pm i old new total)
unfolding moved move_member
moved-IsValid pm i old new total v e size = record {
  availability_size = length-set pm.availability i new ∙ v.availability_size;
  pending_below = v.pending_below;
  completed_below = v.completed_below;
  pending_distinct = v.pending_distinct;
  completed_distinct = v.completed_distinct;
  apart = v.apart;
  tracked = v.tracked;
  buckets_distinct = elim (Bool-cases (has i pm.pending)) [
    | inl p ↦ rw p (
        add_member-AllDistinct new i _
          (drop_member-AllDistinct old i pm.buckets v.buckets_distinct))
    | inr p ↦ rw p v.buckets_distinct
  ];
  bucketed = λ c j hj. elim (Bool-cases (has i pm.pending)) [
    | inl p ↦ ground (
      arith,
      has-moved c j i old new pm.buckets,
      rw p at hj,
      v.bucketed c j,
      moved_get pm.availability i j new old e,
      e,
      p,
    )
    | inr p ↦
        ground (arith, rw p at hj, v.bucketed c j, moved_get pm.availability i j new old e, e, p)
  ];
  sum_exact = omega (arith, sum-set pm.availability i new old e, v.sum_exact);
}

-- What a run over a bitfield leaves: a valid state that differs in the counts and the buckets
-- alone, where the count of the piece `j` has become `f j` of what it was.
pub record Recounted (f : ℕ → ℕ → ℕ) (pm pm' : PieceManager) : Type 0 where
  pub valid : IsValid pm'
  pub total : pm'.total_pieces ≡ pm.total_pieces
  pub same_pending : pm'.pending ≡ pm.pending
  pub same_in_progress : pm'.in_progress ≡ pm.in_progress
  pub same_completed : pm'.completed ≡ pm.completed
  pub counts :
      (j n : ℕ) → get_elem? pm.availability j ≡ some n → get_elem? pm'.availability j ≡ some (f j n)

-- Does the bitfield, whose first bit is that of the piece `i`, own the piece `j`?
abbrev pub bit_from : ℕ → List Bool → ℕ → Bool
bit_from i [] j = false
bit_from i (b ∷ bf) j = if i == j then b else bit_from (suc i) bf j

pub bit_from-before : (i : ℕ) (bf : List Bool) (j : ℕ) → j < i → bit_from i bf j ≡ false
bit_from-before i [] j h = refl
bit_from-before i (b ∷ bf) j h = ground (arith, bit_from-before (suc i) bf j)

pub bit_from-get_or : (bf : List Bool) (i k : ℕ) → bit_from i bf (i + k) ≡ get_or bf k false
bit_from-get_or [] i k = refl
bit_from-get_or (b ∷ bf) i zero = ground arith
bit_from-get_or (b ∷ bf) i (suc k) =
    let e : i + suc k ≡ suc i + k = omega arith in
    ground (
      arith,
      subst (λ t. bit_from (suc i) bf t ≡ get_or bf k false) (sym e) (bit_from-get_or bf (suc i) k),
    )

abbrev pub up : List Bool → ℕ → ℕ → ℕ → ℕ
up bf i j n = if bit_from i bf j then n + 1 else n

abbrev pub down : List Bool → ℕ → ℕ → ℕ → ℕ
down bf i j n = if bit_from i bf j then n - 1 else n

pub Recounted-same :
    (pm : PieceManager) (f : ℕ → ℕ → ℕ)
    → IsValid pm
    → ((j n : ℕ) → j < pm.total_pieces → f j n ≡ n)
    → Recounted f pm pm
Recounted-same pm f v h = record {
  valid = v;
  total = refl;
  same_pending = refl;
  same_in_progress = refl;
  same_completed = refl;
  counts = λ j n e. rw (h j n (within j n e)) e;
}
  where
    within : (j n : ℕ) → get_elem? pm.availability j ≡ some n → j < pm.total_pieces
    within j n e = elim (Bool-cases (ltb j pm.total_pieces)) [
      | inl lt ↦ ground arith
      | inr ge ↦
          let beyond = get_elem?_beyond pm.availability j (ground (arith, v.availability_size)) in
          cc
    ]

-- One change of a count, and then the rest of the loop.
pub Recounted-moved :
    (pm pm' : PieceManager) (f g : ℕ → ℕ → ℕ) (i old new total : ℕ)
    → get_elem? pm.availability i ≡ some old
    → g i new ≡ f i old
    → ((j n : ℕ) → j ≢ i → g j n ≡ f j n)
    → Recounted g (moved pm i old new total) pm'
    → Recounted f pm pm'
unfolding moved
Recounted-moved pm pm' f g i old new total e here other r = record {
  valid = r.valid;
  total = r.total;
  same_pending = r.same_pending;
  same_in_progress = r.same_in_progress;
  same_completed = r.same_completed;
  counts = λ j n h. elim (ℕ_discrete j i) [
    | yes same ↦
        ground (arith, moved_get pm.availability i j new old e, r.counts i new, e, h, same, here)
    | no ne ↦
        ground
          (arith, moved_get pm.availability i j new old e, r.counts j n, e, h, ne, other j n ne)
  ];
}

pub Recounted-skip :
    (pm pm' : PieceManager) (f g : ℕ → ℕ → ℕ)
    → IsValid pm
    → ((j n : ℕ) → j < pm.total_pieces → g j n ≡ f j n)
    → Recounted g pm pm'
    → Recounted f pm pm'
Recounted-skip pm pm' f g v h r = record {
  valid = r.valid;
  total = r.total;
  same_pending = r.same_pending;
  same_in_progress = r.same_in_progress;
  same_completed = r.same_completed;
  counts = λ j n e. rw (← h j n (within j n e)) (r.counts j n e);
}
  where
    within : (j n : ℕ) → get_elem? pm.availability j ≡ some n → j < pm.total_pieces
    within j n e = elim (Bool-cases (ltb j pm.total_pieces)) [
      | inl lt ↦ ground arith
      | inr ge ↦
          let beyond = get_elem?_beyond pm.availability j (ground (arith, v.availability_size)) in
          cc
    ]
