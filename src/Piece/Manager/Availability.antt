-- ===== src/Piece/Manager/Availability.antt =====
-- Peers come and go: `RegisterPeerBitfield`, `UnregisterPeerBitfield`, `IncrementAvailability`.
mod Counts
use sid_torrent.Prelude.{
  ℕ, zero, suc, ◌+◌, ◌-◌, ◌≤◌, ◌<◌, ◌≡◌, ◌≢◌, refl, sym, ◌∙◌, ap, subst, Bool, true, false, ◌&&◌,
  Bool-cases, inl, inr, some, List, [], ◌∷◌, arith, ltb, ◌==◌, if◌then◌else◌, set, get_or,
  get_elem?, get_elem?_within, length-set, get_elem?_beyond, list_ext,
}
use native.Mathlib.Decide.{ℕ_discrete}
use sid_torrent.Prelude.Int.{ℤ, pos, negsuc}
use sid_torrent.Prelude.Keys.{has}
use sid_torrent.Piece.Buckets.{
  Buckets, bucket, move_member, drop_member, has-add_member, has-drop_member,
  add_member-AllDistinct, drop_member-AllDistinct,
}
use sid_torrent.Piece.Manager.{
  PieceManager, sum, count_up, register_from, unregister_from, register_peer_bitfield,
  unregister_peer_bitfield, increment_availability,
}
use sid_torrent.Piece.Manager.Invariant.{IsValid}
use sid_torrent.Piece.Manager.Availability.Counts.{
  moved, moved-IsValid, Recounted, bit_from, bit_from-before, bit_from-get_or, up, down,
  Recounted-same, Recounted-moved, Recounted-skip,
}

get-le-sum : (xs : List ℕ) (i n : ℕ) → get_elem? xs i ≡ some n → n ≤ sum xs
unfolding sum
get-le-sum [] i n h = cc
get-le-sum (x ∷ xs) zero n h = let e : x ≡ n = cc in omega arith
get-le-sum (x ∷ xs) (suc i) n h = omega (arith, get-le-sum xs i n h)

register_from-Recounted :
    (i : ℕ) (bf : List Bool) (pm : PieceManager)
    → IsValid pm
    → (pm' : PieceManager) × (register_from i bf pm ≡ some pm') × Recounted (up bf i) pm pm'
unfolding register_from moved
register_from-Recounted i [] pm v = (pm, refl, Recounted-same pm _ v (λ j n h. refl))
register_from-Recounted i (b ∷ bf) pm v = elim (Bool-cases (b && ltb i pm.total_pieces)) [
  | inl owned ↦
      let (old, e) = get_elem?_within pm.availability i (ground (arith, v.availability_size)) in
      let w = moved-IsValid pm i old (old + 1) (pm.availability_sum + 1) v e (omega arith) in
      let (pm', run, r) =
        register_from-Recounted (suc i) bf (moved pm i old (old + 1) (pm.availability_sum + 1)) w in
      (
        pm',
        rw (owned, e) run,
        Recounted-moved pm pm' _ _ i old (old + 1) _ e
            (ground (arith, bit_from-before (suc i) bf i, owned)) (λ j n ne. ground arith) r,
      )
  | inr skip ↦
      let (pm', run, r) = register_from-Recounted (suc i) bf pm v in
      (
        pm',
        rw skip run,
        Recounted-skip pm pm' _ _ v (λ j n h. ground (arith, skip, bit_from-before (suc i) bf j)) r,
      )
]

unregister_from-Recounted :
    (i : ℕ) (bf : List Bool) (pm : PieceManager)
    → IsValid pm
    → (pm' : PieceManager) × (unregister_from i bf pm ≡ some pm') × Recounted (down bf i) pm pm'
unfolding unregister_from moved
unregister_from-Recounted i [] pm v = (pm, refl, Recounted-same pm _ v (λ j n h. refl))
unregister_from-Recounted i (b ∷ bf) pm v = elim (Bool-cases (b && ltb i pm.total_pieces)) [
  | inl owned ↦
      let (old, e) = get_elem?_within pm.availability i (ground (arith, v.availability_size)) in
      let total = if ltb 0 old then pm.availability_sum - 1 else pm.availability_sum in
      let w =
        moved-IsValid pm i old (old - 1) total v e
          (ground (arith, get-le-sum pm.availability i old e, v.sum_exact)) in
      let (pm', run, r) = unregister_from-Recounted (suc i) bf (moved pm i old (old - 1) total) w in
      (
        pm',
        rw (owned, e) run,
        Recounted-moved pm pm' _ _ i old (old - 1) _ e
            (ground (arith, bit_from-before (suc i) bf i, owned)) (λ j n ne. ground arith) r,
      )
  | inr skip ↦
      let (pm', run, r) = unregister_from-Recounted (suc i) bf pm v in
      (
        pm',
        rw skip run,
        Recounted-skip pm pm' _ _ v (λ j n h. ground (arith, skip, bit_from-before (suc i) bf j)) r,
      )
]

bit_from_zero : (bf : List Bool) (j : ℕ) → bit_from 0 bf j ≡ get_or bf j false
bit_from_zero bf j =
    let e : 0 + j ≡ j = omega arith in
    subst (λ t. bit_from 0 bf t ≡ get_or bf j false) e (bit_from-get_or bf 0 j)

-- `RegisterPeerBitfield` on a valid state does not panic, keeps the state valid with the same
-- pieces pending, in progress and completed, and counts each piece that the peer owns once more.
pub register_peer_bitfield-Recounted :
    (pm : PieceManager) (bf : List Bool)
    → IsValid pm
    → (pm' : PieceManager) × (register_peer_bitfield pm bf ≡ some pm')
      × Recounted (λ j n. if get_or bf j false then n + 1 else n) pm pm'
unfolding register_peer_bitfield
register_peer_bitfield-Recounted pm bf v =
    let (pm', run, r) = register_from-Recounted 0 bf pm v in
    (
      pm',
      run,
      record {
        valid = r.valid;
        total = r.total;
        same_pending = r.same_pending;
        same_in_progress = r.same_in_progress;
        same_completed = r.same_completed;
        counts = λ j n e. rw (← bit_from_zero bf j) (r.counts j n e);
      },
    )

pub unregister_peer_bitfield-Recounted :
    (pm : PieceManager) (bf : List Bool)
    → IsValid pm
    → (pm' : PieceManager) × (unregister_peer_bitfield pm bf ≡ some pm')
      × Recounted (λ j n. if get_or bf j false then n - 1 else n) pm pm'
unfolding unregister_peer_bitfield
unregister_peer_bitfield-Recounted pm bf v =
    let (pm', run, r) = unregister_from-Recounted 0 bf pm v in
    (
      pm',
      run,
      record {
        valid = r.valid;
        total = r.total;
        same_pending = r.same_pending;
        same_in_progress = r.same_in_progress;
        same_completed = r.same_completed;
        counts = λ j n e. rw (← bit_from_zero bf j) (r.counts j n e);
      },
    )

-- A peer that comes with a bitfield and leaves with the same one leaves the counts as they were:
-- neither call panics, and the availability afterwards is that of the start.
pub unregister-register :
    (pm : PieceManager) (bf : List Bool)
    → IsValid pm
    → (joined left : PieceManager) × (register_peer_bitfield pm bf ≡ some joined)
      × (unregister_peer_bitfield joined bf ≡ some left)
      × IsValid left
      × (left.availability ≡ pm.availability)
unregister-register pm bf v =
    let (joined, run, r) = register_peer_bitfield-Recounted pm bf v in
    let (left, back, q) = unregister_peer_bitfield-Recounted joined bf r.valid in
    (
      joined,
      left,
      run,
      back,
      q.valid,
      list_ext left.availability pm.availability λ j. elim (Bool-cases (ltb j pm.total_pieces)) [
        | inl lt ↦
            let (n, e) = get_elem?_within pm.availability j (ground (arith, v.availability_size)) in
            let there = r.counts j n e in
            let here = q.counts j (if get_or bf j false then n + 1 else n) there in
            here ∙ (ap some (undo (get_or bf j false) n) ∙ sym e)
        | inr ge ↦
            get_elem?_beyond left.availability j
              (ground (arith, q.valid.availability_size, q.total, r.total))
            ∙ sym (get_elem?_beyond pm.availability j (ground (arith, v.availability_size)))
      ],
    )
  where
    undo :
        (b : Bool) (n : ℕ)
        → (if b then (if b then n + 1 else n) - 1 else (if b then n + 1 else n)) ≡ n
    undo b n = ground arith

-- `IncrementAvailability` keeps a valid state valid, for every index.
pub increment_availability-IsValid :
    (pm : PieceManager) (i : ℤ) {pm' : PieceManager}
    → IsValid pm
    → increment_availability pm i ≡ some pm'
    → IsValid pm'
unfolding increment_availability count_up moved
increment_availability-IsValid pm (negsuc i) v h = subst IsValid (cc) v
increment_availability-IsValid pm (pos i) {pm'} v h = elim (Bool-cases (ltb i pm.total_pieces)) [
  | inr out ↦ let e : pm ≡ pm' = cc (rw out at h) in subst IsValid e v
  | inl within ↦
      let (old, e) = get_elem?_within pm.availability i (ground (arith, v.availability_size)) in
      let w = moved-IsValid pm i old (old + 1) (pm.availability_sum + 1) v e (omega arith) in
      let same : moved pm i old (old + 1) (pm.availability_sum + 1) ≡ pm' =
        cc (rw (within, e) at h) in
      subst IsValid same w
]
