-- ===== src/Piece/Selection/Streaming.antt =====
-- internal/piece/manager.go: the streaming window, the priority pieces, and pieces after a resume.
use sid_torrent.Prelude.{
  ℕ, zero, suc, ◌+◌, ◌≤◌, ◌<◌, ◌≡◌, refl, Bool, true, false, not, ◌&&◌, Bool-cases, Option-cases,
  inl, inr, Option, none, some, List, [], ◌∷◌, arith, if◌then◌else◌, ◌==◌,
}
use native.Mathlib.Decide.{dec_lt}
use sid_torrent.Prelude.Keys.{has}
use sid_torrent.Piece.Manager.{PieceManager, mark_complete}
use sid_torrent.Piece.Manager.Invariant.{IsValid, Keeps, mark_complete-Keeps}
use sid_torrent.Piece.Manager.Sync.{OnlyBuckets, ensure_buckets_sync-IsSynced}
use sid_torrent.Piece.Manager.Completion.{mark_complete-pending}
use sid_torrent.Piece.Selection.{
  offers, rarest_of, claim_choice, or_rarest, first_in_window, window_size, next_rarest_piece,
  next_streaming_piece, first_priority, next_by_mode, claim_or_next, next_piece,
}
use sid_torrent.Piece.Selection.Rarest.{
  RarestOutcome, chosen, nothing, IsRarest-transfer, Claimed, Claimed-transfer, rarest_of-IsRarest,
  rarest_of-none, claim_piece-Claimed, next_rarest_piece-RarestOutcome,
}

abbrev fits_peer : PieceManager → List Bool → ℕ → Bool
fits_peer pm available i = has i pm.pending && offers available i

first_in_window-some :
    (pm : PieceManager) (available : List Bool) (i left k : ℕ)
    → first_in_window pm available i left ≡ some k
    → (fits_peer pm available k ≡ true)
      × (i ≤ k)
      × (k < i + left)
      × ((j : ℕ) → i ≤ j → j < k → fits_peer pm available j ≡ false)
unfolding first_in_window
first_in_window-some pm available i zero k h = cc
first_in_window-some pm available i (suc left) k h = elim (Bool-cases (fits_peer pm available i)) [
  | inl fits ↦
      let e : i ≡ k = cc (rw fits at h) in
      (rw (← e) fits, omega arith, omega arith, λ j lo hi. absurd (omega arith))
  | inr no_fit ↦
      let (a, b, c, d) = first_in_window-some pm available (suc i) left k (rw no_fit at h) in
      (
        a,
        omega arith,
        omega arith,
        λ j lo hi. elim (dec_lt i j) [
          | yes lt ↦ d j lt hi
          | no ge ↦ let e : i ≡ j = omega arith in rw (← e) no_fit
        ],
      )
]

first_in_window-none :
    (pm : PieceManager) (available : List Bool) (i left j : ℕ)
    → first_in_window pm available i left ≡ none
    → i ≤ j
    → j < i + left
    → fits_peer pm available j ≡ false
unfolding first_in_window
first_in_window-none pm available i zero j h lo hi = absurd (omega arith)
first_in_window-none pm available i (suc left) j h lo hi =
    elim (Bool-cases (fits_peer pm available i)) [
      | inl fits ↦ cc (rw fits at h)
      | inr no_fit ↦ elim (dec_lt i j) [
        | yes lt ↦
            first_in_window-none pm available (suc i) left j (rw no_fit at h) lt (omega arith)
        | no ge ↦ let e : i ≡ j = omega arith in rw (← e) no_fit
      ]
    ]

-- What a choice in streaming mode comes to.
pub data StreamingOutcome (pm : PieceManager) (available : List Bool)
    : PieceManager → Option ℕ → Type 0 where
  in_window :
      {pm' : PieceManager} (i : ℕ)
      → i < window_size pm
      → has i pm.pending ≡ true
      → offers available i ≡ true
      → ((j : ℕ) → j < i → (has j pm.pending && offers available j) ≡ false)
      → Claimed pm pm' i
      → StreamingOutcome pm available pm' (some i)
  by_rarity :
      {pm' : PieceManager} {answer : Option ℕ}
      → ((j : ℕ) → j < window_size pm → (has j pm.pending && offers available j) ≡ false)
      → RarestOutcome pm available pm' answer
      → StreamingOutcome pm available pm' answer

window_size-same : (pm pm' : PieceManager) → OnlyBuckets pm pm' → window_size pm' ≡ window_size pm
unfolding window_size
window_size-same pm pm' o = rw (o.same_window, o.total)

-- On a valid state `NextStreamingPiece` does not panic. Where the peer offers a pending piece of the
-- window, the first such piece is claimed; where it does not, the outcome is that of rarest first.
pub next_streaming_piece-StreamingOutcome :
    (pm : PieceManager) (available : List Bool) (rand : ℕ)
    → IsValid pm
    → (pm' : PieceManager) × (answer : Option ℕ) × (next_streaming_piece pm available rand
        ≡ some (pm', answer))
      × StreamingOutcome pm available pm' answer
unfolding next_streaming_piece claim_choice or_rarest
next_streaming_piece-StreamingOutcome pm available rand v =
    let (synced, run, s, o) = ensure_buckets_sync-IsSynced pm v in
    let pend = o.same_pending in
    elim (Option-cases (first_in_window synced available 0 (window_size synced))) [
      | inr (i, e) ↦
          let (fits, _, below, first) =
            first_in_window-some synced available 0 (window_size synced) i e in
          let p : has i synced.pending ≡ true = ground arith in
          let (pm', claimed, c) =
            claim_piece-Claimed synced i s.valid (s.valid.pending_below i p) in
          (
            pm',
            some i,
            rw (run, e, claimed),
            in_window i (omega (arith, window_size-same pm synced o)) (rw (← pend) p) (ground arith)
                (λ j hj. rw (← pend) (first j (omega arith) hj))
                (Claimed-transfer pm synced pm' i o c),
          )
      | inl e ↦
          let outside : (j : ℕ)
              → j < window_size pm
              → (has j pm.pending && offers available j) ≡ false =
            λ j hj. rw (← pend) (
              first_in_window-none synced available 0 (window_size synced) j e (omega arith)
                (omega (arith, window_size-same pm synced o))) in
          elim (Option-cases (rarest_of synced available rand)) [
            | inl none_left ↦ (
              synced,
              none,
              rw (run, e, none_left),
              by_rarity outside (
                  nothing s.valid o
                    (λ j hp. rarest_of-none synced available rand j s none_left (rw pend hp))),
            )
            | inr (i, found) ↦
                let r = rarest_of-IsRarest synced available rand s found in
                let (pm', claimed, c) =
                  claim_piece-Claimed synced i s.valid (s.valid.pending_below i r.is_pending) in
                (
                  pm',
                  some i,
                  rw (run, e, found, claimed),
                  by_rarity outside (
                      chosen i (IsRarest-transfer pm synced available i o r)
                        (Claimed-transfer pm synced pm' i o c)),
                )
          ]
    ]

-- A priority piece that comes first is in the list, not completed, and on offer.
first_priority-some :
    (pm : PieceManager) (available : List Bool) (is : List ℕ) {i : ℕ}
    → first_priority pm available is ≡ some i
    → (has i is ≡ true) × (has i pm.completed ≡ false) × (offers available i ≡ true)
unfolding first_priority
first_priority-some pm available [] h = cc
first_priority-some pm available (k ∷ ks) {i} h =
    elim (Bool-cases (not (has k pm.completed) && offers available k)) [
      | inl use_it ↦ let e : k ≡ i = cc (rw use_it at h) in ground (arith, use_it, e)
      | inr later ↦
          let (a, b, c) = first_priority-some pm available ks (rw later at h) in
          (ground arith, b, c)
    ]

-- No priority piece that is still wanted is on offer.
abbrev pub NoPriority : PieceManager → List Bool → Type 0
NoPriority pm available =
    (i : ℕ)
    → has i pm.priority_pieces ≡ true
    → has i pm.completed ≡ false
    → offers available i ≡ false

-- Where none comes first, none is wanted and on offer.
first_priority-none :
    (pm : PieceManager) (available : List Bool) (is : List ℕ)
    → first_priority pm available is ≡ none
    → (i : ℕ) → has i is ≡ true
    → has i pm.completed ≡ false
    → offers available i ≡ false
unfolding first_priority
first_priority-none pm available [] h i m w = cc
first_priority-none pm available (k ∷ ks) h i m w =
    elim (Bool-cases (not (has k pm.completed) && offers available k)) [
      | inl use_it ↦ cc (rw use_it at h)
      | inr later ↦ elim (Bool-cases (k == i)) [
        | inl e ↦ let same : k ≡ i = ground arith in ground (arith, rw same at later)
        | inr ne ↦ first_priority-none pm available ks (rw later at h) i (ground arith) w
      ]
    ]

-- What `NextPiece` comes to: a piece claimed, or none.
pub data PieceOutcome (pm later : PieceManager) (available : List Bool)
    : PieceManager → Option ℕ → Type 0 where
  priority :
      {pm' : PieceManager} (i : ℕ)
      → has i pm.priority_pieces ≡ true
      → has i pm.completed ≡ false
      → offers available i ≡ true
      → Claimed pm pm' i
      → PieceOutcome pm later available pm' (some i)
  streaming :
      {pm' : PieceManager} {answer : Option ℕ}
      → NoPriority pm available
      → later.streaming_mode ≡ true
      → StreamingOutcome later available pm' answer
      → PieceOutcome pm later available pm' answer
  rarest :
      {pm' : PieceManager} {answer : Option ℕ}
      → NoPriority pm available
      → later.streaming_mode ≡ false
      → RarestOutcome later available pm' answer
      → PieceOutcome pm later available pm' answer

if_true {ℓ} : {A : Type ℓ} (b : Bool) (x y : A) → b ≡ true → (if b then x else y) ≡ x
if_true true x y h = refl
if_true false x y h = cc

if_false {ℓ} : {A : Type ℓ} (b : Bool) (x y : A) → b ≡ false → (if b then x else y) ≡ y
if_false true x y h = cc
if_false false x y h = refl

module _ (pm : PieceManager) (available : List Bool) (rand : ℕ) where
  next_by_mode_on :
      pm.streaming_mode ≡ true
      → next_by_mode pm available rand ≡ next_streaming_piece pm available rand
  unfolding next_by_mode
  next_by_mode_on = if_true pm.streaming_mode _ _

  next_by_mode_off :
      pm.streaming_mode ≡ false
      → next_by_mode pm available rand ≡ next_rarest_piece pm available rand
  unfolding next_by_mode
  next_by_mode_off = if_false pm.streaming_mode _ _

-- On a valid state whose priority pieces are in range, as `SetPriorityPieces` leaves them,
-- `NextPiece` does not panic. It claims a priority piece that is not completed and on offer; only where
-- there is none it does what the mode says, on the state that it finds when it takes the mutex again,
-- which others may have changed and is valid too.
pub next_piece-PieceOutcome :
    (pm later : PieceManager) (available : List Bool) (rand : ℕ)
    → IsValid pm
    → IsValid later
    → ((i : ℕ) → has i pm.priority_pieces ≡ true → i < pm.total_pieces)
    → (pm' : PieceManager) × (answer : Option ℕ) × (next_piece pm later available rand
        ≡ some (pm', answer))
      × PieceOutcome pm later available pm' answer
unfolding next_piece claim_or_next
next_piece-PieceOutcome pm later available rand v w within =
    elim (Option-cases (first_priority pm available pm.priority_pieces)) [
      | inr (i, e) ↦
          let (a, b, c) = first_priority-some pm available pm.priority_pieces e in
          let (pm', claimed, done) = claim_piece-Claimed pm i v (within i a) in
          (pm', some i, rw (e, claimed), priority i a b c done)
      | inl e ↦ elim (Bool-cases later.streaming_mode) [
        | inl on ↦
            let (pm', answer, run, out) =
              next_streaming_piece-StreamingOutcome later available rand w in
            (
              pm',
              answer,
              rw (e, next_by_mode_on later available rand on) run,
              streaming (first_priority-none pm available pm.priority_pieces e) on out,
            )
        | inr off ↦
            let (pm', answer, run, out) = next_rarest_piece-RarestOutcome later available rand w in
            (
              pm',
              answer,
              rw (e, next_by_mode_off later available rand off) run,
              rarest (first_priority-none pm available pm.priority_pieces e) off out,
            )
      ]
    ]

-- A piece that is pending when it is marked complete, as every piece found on disk by
-- `LoadExistingState` is, is claimed for download again: `NextRarestPiece` gives it to a peer that
-- offers it and no other piece.
pub next_rarest_piece-mark_complete :
    (pm : PieceManager) (i bytes : ℕ) (available : List Bool) (rand : ℕ)
    → IsValid pm
    → has i pm.pending ≡ true
    → offers available i ≡ true
    → ((j : ℕ) → offers available j ≡ true → j ≡ i)
    → (marked pm' : PieceManager) × (mark_complete pm i bytes ≡ some marked)
      × (has i marked.completed ≡ true)
      × (next_rarest_piece marked available rand ≡ some (pm', some i))
next_rarest_piece-mark_complete pm i bytes available rand v p o only =
    go (mark_complete pm i bytes) refl (mark_complete-Keeps pm i bytes v (v.pending_below i p))
  where
    claimed :
        (marked pm' : PieceManager) (answer : Option ℕ)
        → has i marked.pending ≡ true
        → RarestOutcome marked available pm' answer
        → answer ≡ some i
    claimed marked pm' answer hp (chosen k r c) = rw (only k r.is_offered)
    claimed marked pm' answer hp (nothing w same no_offer) = cc (no_offer i hp, o)

    go :
        (m : Option PieceManager)
        → mark_complete pm i bytes ≡ m
        → Keeps m
        → (marked pm' : PieceManager) × (mark_complete pm i bytes ≡ some marked)
          × (has i marked.completed ≡ true)
          × (next_rarest_piece marked available rand ≡ some (pm', some i))
    go none e k = absurd k
    go (some marked) e w =
        let (pend, done, _) = mark_complete-pending pm i bytes e in
        let (pm', answer, run, out) = next_rarest_piece-RarestOutcome marked available rand w in
        (marked, pm', e, done, rw (← claimed marked pm' answer (rw pend p) out) run)
