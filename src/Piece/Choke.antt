-- ===== src/Piece/Choke.antt =====
-- internal/piece/choke_manager.go: which peers may ask for blocks. A client is known by its place in
-- `clients`. Two things are parameters: for which clients time has passed since they were active, and
-- the order of the scores after the rates have been updated, which are floating-point numbers.
pub mod Slots
use sid_torrent.Prelude.{
  ℕ, zero, suc, ◌+◌, ◌-◌, ◌%◌, Bool, true, false, not, ◌&&◌, ◌||◌, Option, none, some, List, [],
  ◌∷◌, leb, ◌==◌, if◌then◌else◌, take, get_elem?,
}
use sid_torrent.Prelude.Keys.{has, insert}
use sid_torrent.Peer.State.{Client, send_choke, send_unchoke}
use sid_torrent.Piece.Selection.{choose}

pub record ChokeManager : Type 0 where
  pub clients : List Client
  pub max_uploads : ℕ
  pub optimistic_timer : ℕ
  pub current_optimistic : Option ℕ

-- `NewChokeManager`
unfoldable pub new_choke_manager : List Client → ℕ → ChokeManager
new_choke_manager clients max_uploads = record {
  clients = clients;
  max_uploads = max_uploads;
  optimistic_timer = 0;
  current_optimistic = none;
}

-- The first loop of `Evaluate`, from the place `i` on.
unfoldable pub sample : (ℕ → Bool) → ℕ → List Client → List Client
sample elapsed i [] = []
sample elapsed i (c ∷ cs) =
    (if elapsed i then record c { state = record c.state { interval_bytes = 0 } } else c)
    ∷ sample elapsed (suc i) cs

-- `interested`
unfoldable pub interested_from : ℕ → List Client → List ℕ
interested_from i [] = []
interested_from i (c ∷ cs) =
    let rest = interested_from (suc i) cs in if c.state.interested_in_us then i ∷ rest else rest

-- `sort.Slice` of the interested clients, those with the largest scores first.
unfoldable pub insert_by_score : (ℕ → ℕ) → ℕ → List ℕ → List ℕ
insert_by_score score i [] = i ∷ []
insert_by_score score i (j ∷ js) =
    if leb (score j) (score i) then i ∷ j ∷ js else j ∷ insert_by_score score i js

unfoldable pub sort_by_score : (ℕ → ℕ) → List ℕ → List ℕ
unfolding insert_by_score
sort_by_score score [] = []
sort_by_score score (i ∷ is) = insert_by_score score i (sort_by_score score is)

-- `remaining`: those that have no slot.
unfoldable pub remaining : List ℕ → List ℕ → List ℕ
remaining unchoked [] = []
remaining unchoked (i ∷ is) =
    let rest = remaining unchoked is in if has i unchoked then rest else i ∷ rest

unfoldable pub is_interested : List Client → ℕ → Bool
is_interested clients i = elim (get_elem? clients i) [
  | none ↦ false
  | some c ↦ c.state.interested_in_us
]

-- Is another client to be chosen for the optimistic slot?
unfoldable pub rotates : ChokeManager → Bool
unfolding is_interested
rotates cm =
    (cm.optimistic_timer % 3 == 0)
    || elim cm.current_optimistic [ none ↦ true | some i ↦ not (is_interested cm.clients i) ]

-- `currentOptimistic` when there are clients without a slot.
unfoldable pub next_optimistic : ℕ → ChokeManager → List ℕ → Option ℕ
unfolding rotates choose
next_optimistic rand cm rest = if rotates cm then choose rand rest else cm.current_optimistic

-- The last loop, from the place `i` on; an error of a write is dropped.
unfoldable pub settle_client : Bool → Client → Client
settle_client should c =
    let unchoked = record c { state = record c.state { choked_by_us = false } } in
    let choked = record c { state = record c.state { choked_by_us = true } } in
    if should && c.state.choked_by_us
    then (send_unchoke unchoked).0
    else if not should && not c.state.choked_by_us
    then (send_choke choked).0
    else c

unfoldable pub settle : List ℕ → ℕ → List Client → List Client
unfolding settle_client
settle unchoked i [] = []
settle unchoked i (c ∷ cs) = settle_client (has i unchoked) c ∷ settle unchoked (suc i) cs

-- `unchokedPeers` with the optimistic slot.
unfoldable pub with_optimistic : Option ℕ → List ℕ → List ℕ
with_optimistic none unchoked = unchoked
with_optimistic (some i) unchoked = insert i unchoked

-- From the slots on, for the interested clients in order: one slot is kept for the optimistic one.
unfoldable pub give_slots : ℕ → ChokeManager → List ℕ → ChokeManager
unfolding remaining next_optimistic with_optimistic settle
give_slots rand cm ranked =
    let top = take (cm.max_uploads - 1) ranked in
    elim (remaining top ranked) [
      | [] ↦ record cm { clients = settle top 0 cm.clients }
      | i ∷ is ↦
          let chosen = next_optimistic rand cm (i ∷ is) in
          record cm {
            clients = settle (with_optimistic chosen top) 0 cm.clients;
            current_optimistic = chosen;
          }
    ]

-- `Evaluate`
unfoldable pub evaluate : (ℕ → Bool) → (ℕ → ℕ) → ℕ → ChokeManager → ChokeManager
unfolding sample interested_from sort_by_score give_slots
evaluate elapsed score rand cm =
    let ready = record cm {
      clients = sample elapsed 0 cm.clients;
      optimistic_timer = cm.optimistic_timer + 1;
    } in
    elim (interested_from 0 ready.clients) [
      | [] ↦ ready
      | i ∷ is ↦ give_slots rand ready (sort_by_score score (i ∷ is))
    ]
