-- ===== src/Piece/Worker/Rounds/Steps.antt =====
-- internal/piece: what the manager, the choice of a piece and the writer do in a round of a worker.
use sid_torrent.Prelude.{
  ℕ, ◌+◌, ◌<◌, ◌≡◌, ◌⊎◌, inl, inr, refl, sym, ◌∙◌, ap, Bool, true, not, Bool-cases, Option-cases,
  Option, none, some, List, [], ◌∷◌, ◌++◌, arith, leb, ltb, length, get_elem?,
}
use sid_torrent.Prelude.Int.{ℤ, pos, eqb_ℤ}
use sid_torrent.Prelude.Bytes.{Bytes}
use sid_torrent.Prelude.Keys.{has, has-insert}
use sid_torrent.Torrent.Pieces.{file_piece_length_at}
use sid_torrent.Disk.{DiskWriter, DiskError, write_checked, write_piece, default_queue_size}
use sid_torrent.Piece.Manager.{
  PieceManager, mark_complete, mark_failed, attempts, return_to_pending,
}
use sid_torrent.Piece.Manager.Invariant.{
  IsValid, return_to_pending-Keeps, mark_failed-Keeps, mark_complete-Keeps,
}
use sid_torrent.Piece.Selection.Rarest.{Claimed, RarestOutcome, chosen, nothing}
use sid_torrent.Piece.Selection.Streaming.{
  PieceOutcome, priority, streaming, rarest, StreamingOutcome, in_window, by_rarity,
}

-- An operation on the manager that neither panics nor completes a piece.
abbrev pub Frames : PieceManager → Option PieceManager → Type 0
Frames pm none = ⊥
Frames pm (some pm') =
    IsValid pm' × (pm'.total_pieces ≡ pm.total_pieces) × (pm'.completed ≡ pm.completed)

pub return_to_pending-Frames :
    (pm : PieceManager) (i : ℕ)
    → IsValid pm
    → i < pm.total_pieces
    → Frames pm (return_to_pending pm i)
unfolding return_to_pending
return_to_pending-Frames pm i v h =
    let keeps = return_to_pending-Keeps pm i v h in
    elim (Option-cases (get_elem? pm.availability i)) [
      | inl e ↦ absurd (rw e at keeps)
      | inr (c, e) ↦ rw e (rw e at keeps, refl, refl)
    ]

abbrev pub FramesPair : PieceManager → Option (PieceManager × Bool) → Type 0
FramesPair pm none = ⊥
FramesPair pm (some (pm', again)) =
    IsValid pm' × (pm'.total_pieces ≡ pm.total_pieces) × (pm'.completed ≡ pm.completed)

pub mark_failed-Frames :
    (pm : PieceManager) (i : ℕ)
    → IsValid pm
    → i < pm.total_pieces
    → FramesPair pm (mark_failed pm i)
unfolding mark_failed
mark_failed-Frames pm i v h =
    let keeps = mark_failed-Keeps pm i v h in
    elim (Bool-cases (ltb pm.max_retries (attempts pm i + 1))) [
      | inl over ↦ rw over (rw over at keeps, refl, refl)
      | inr under ↦ elim (Option-cases (get_elem? pm.availability i)) [
        | inl e ↦ absurd (rw (under, e) at keeps)
        | inr (c, e) ↦ rw (under, e) (rw (under, e) at keeps, refl, refl)
      ]
    ]

-- The piece, and no other, is completed.
abbrev pub Completes : PieceManager → ℕ → Option PieceManager → Type 0
Completes pm i none = ⊥
Completes pm i (some pm') =
    IsValid pm'
    × (pm'.total_pieces ≡ pm.total_pieces)
    × ((j : ℕ) → has j pm'.completed ≡ true → (has j pm.completed ≡ true) ⊎ (i ≡ j))

pub mark_complete-Completes :
    (pm : PieceManager) (i bytes : ℕ)
    → IsValid pm
    → i < pm.total_pieces
    → Completes pm i (mark_complete pm i bytes)
unfolding mark_complete
mark_complete-Completes pm i bytes v h =
    let keeps = mark_complete-Keeps pm i bytes v h in
    elim (Bool-cases (has i pm.completed)) [
      | inl old ↦ rw old (rw old at keeps, refl, λ j hj. inl hj)
      | inr new ↦ elim (Option-cases (get_elem? pm.availability i)) [
        | inl e ↦ absurd (rw (new, e) at keeps)
        | inr (c, e) ↦
            rw (new, e)
              (rw (new, e) at keeps, refl, λ j hj. ground (arith, has-insert j i pm.completed, hj))
      ]
    ]

-- The choice completes nothing, and gives a piece of the torrent.
Claimed-total :
    (pm pm' : PieceManager) (i : ℕ)
    → IsValid pm
    → Claimed pm pm' i
    → pm'.total_pieces ≡ pm.total_pieces
Claimed-total pm pm' i v c =
    sym c.valid.availability_size ∙ (ap length c.availability ∙ v.availability_size)

abbrev pub IsChoice : PieceManager → PieceManager → Option ℕ → Type 0
IsChoice pm pm' answer =
    IsValid pm'
    × (pm'.total_pieces ≡ pm.total_pieces)
    × (pm'.completed ≡ pm.completed)
    × ((i : ℕ) → answer ≡ some i → i < pm.total_pieces)

claim-IsChoice :
    (pm pm' : PieceManager) (i : ℕ)
    → IsValid pm
    → i < pm.total_pieces
    → Claimed pm pm' i
    → IsChoice pm pm' (some i)
claim-IsChoice pm pm' i v lt c = (
  c.valid,
  Claimed-total pm pm' i v c,
  c.completed,
  λ j e. let same : i ≡ j = ground arith in rw (← same) lt,
)

rarest-IsChoice :
    (pm : PieceManager) (available : List Bool) {pm' : PieceManager} {answer : Option ℕ}
    → IsValid pm
    → RarestOutcome pm available pm' answer
    → IsChoice pm pm' answer
rarest-IsChoice pm available {pm'} v (chosen i r c) =
    claim-IsChoice pm pm' i v (v.pending_below i r.is_pending) c
rarest-IsChoice pm available v (nothing w o no_offer) = (w, o.total, o.same_completed, λ j e. cc)

streaming-IsChoice :
    (pm : PieceManager) (available : List Bool) {pm' : PieceManager} {answer : Option ℕ}
    → IsValid pm
    → StreamingOutcome pm available pm' answer
    → IsChoice pm pm' answer
streaming-IsChoice pm available {pm'} v (in_window i lt pending offered first c) =
    claim-IsChoice pm pm' i v (v.pending_below i pending) c
streaming-IsChoice pm available v (by_rarity none_near r) = rarest-IsChoice pm available v r

-- The state from which `NextPiece` chooses is the first one or the later one.
pub piece-IsChoice :
    (pm later : PieceManager) (available : List Bool) {pm' : PieceManager} {answer : Option ℕ}
    → IsValid pm
    → IsValid later
    → ((i : ℕ) → has i pm.priority_pieces ≡ true → i < pm.total_pieces)
    → PieceOutcome pm later available pm' answer
    → IsChoice pm pm' answer ⊎ IsChoice later pm' answer
piece-IsChoice pm later available {pm'} v w within (priority i first missing offered c) =
    inl (claim-IsChoice pm pm' i v (within i first) c)
piece-IsChoice pm later available v w within (streaming none_first on s) =
    inr (streaming-IsChoice later available w s)
piece-IsChoice pm later available v w within (rarest none_first off r) =
    inr (rarest-IsChoice later available w r)

-- What the writer makes of a piece: it takes it, refuses it, or has no room.
abbrev pub Written : DiskWriter → ℕ → Bytes → Option (DiskWriter × Option DiskError) → Type 0
Written dw i bytes none = Unit
Written dw i bytes (some (dw', none)) = dw'.queue ≡ dw.queue ++ (i, bytes) ∷ []
Written dw i bytes (some (dw', some e)) = dw'.queue ≡ dw.queue

write_piece-Written :
    (dw : DiskWriter) (i : ℕ) (bytes : Bytes) → Written dw i bytes (write_piece dw i bytes)
unfolding write_piece
write_piece-Written dw i bytes = elim (Option-cases dw.error) [
  | inr (e, broken) ↦ rw (broken, write_piece) refl
  | inl healthy ↦
      rw (healthy, write_piece)
        (elim (Bool-cases dw.closed) [
          | inl shut ↦ rw shut refl
          | inr open_still ↦
              rw open_still (elim (Bool-cases (leb default_queue_size (length dw.queue))) [
                | inl full ↦ rw full tt
                | inr room ↦ rw room refl
              ])
        ])
]

pub write_checked-Written :
    (total : ℤ) (dw : DiskWriter) (i : ℕ) (bytes : Bytes)
    → Written dw i bytes (write_checked total dw i bytes)
unfolding write_checked
write_checked-Written total dw i bytes =
    elim (Bool-cases (
      not
        (eqb_ℤ (pos (length bytes)) (file_piece_length_at total (pos dw.piece_length) (pos i))))) [
          | inl wrong ↦ rw wrong refl
          | inr right ↦ rw right (write_piece-Written dw i bytes)
        ]
