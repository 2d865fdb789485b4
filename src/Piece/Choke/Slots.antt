-- ===== src/Piece/Choke/Slots.antt =====
-- internal/piece/choke_manager.go: who has a slot after `Evaluate`.
mod Ranking
use sid_torrent.Prelude.{
  ℕ, zero, suc, ◌+◌, ◌-◌, ◌%◌, ◌<◌, ◌≤◌, ◌≡◌, ◌⊎◌, inl, inr, refl, sym, ap, subst, ◌∙◌, Bool, true,
  false, not, ◌&&◌, ◌||◌, Bool-cases, Option, none, some, List, [], ◌∷◌, arith, leb, ◌==◌,
  if◌then◌else◌, length, take, get_elem?,
}
use sid_torrent.Prelude.Bytes.{Bytes}
use sid_torrent.Prelude.Keys.{has, insert, has-insert, Distinct, insert-Distinct}
use sid_torrent.Peer.State.{Client, send_choke, send_unchoke, write_message, write_counted}
use sid_torrent.Piece.Selection.Sorted.{choose-has}
use sid_torrent.Piece.Choke.{
  ChokeManager, sample, interested_from, insert_by_score, sort_by_score, remaining, is_interested,
  rotates, next_optimistic, settle_client, settle, with_optimistic, give_slots, evaluate,
}
use sid_torrent.Piece.Choke.Slots.Ranking.{
  has-interested_from, interested_from-Distinct, IsRanked, has-sort_by_score,
  sort_by_score-Distinct, sort_by_score-IsRanked, has-take, take-IsRanked, take-Distinct,
  length-take_le, take_full,
}

has-remaining : (j : ℕ) (top is : List ℕ) → has j (remaining top is) ≡ (has j is && not (has j top))
unfolding remaining
has-remaining j top [] = refl
has-remaining j top (i ∷ is) = elim (Bool-cases (i == j)) [
  | inl e ↦ let same : i ≡ j = ground arith in rw same (ground (arith, has-remaining j top is))
  | inr e ↦ ground (arith, has-remaining j top is)
]

write_counted_state :
    (n : ℕ) (c : Client) (packet : Bytes) → (write_counted n c packet).0.state ≡ c.state
unfolding write_counted
write_counted_state zero c packet = refl
write_counted_state (suc n) c packet = refl

-- After the last loop a client is choked exactly if it has no slot.
settle_client-choked :
    (should : Bool) (c : Client) → (settle_client should c).state.choked_by_us ≡ not should
unfolding settle_client send_choke send_unchoke write_message
settle_client-choked true c = elim (Bool-cases c.state.choked_by_us) [
  | inl e ↦ rw e (ap (λ s. s.choked_by_us) (write_counted_state c.writes_left _ _))
  | inr e ↦ rw e refl
]
settle_client-choked false c = elim (Bool-cases c.state.choked_by_us) [
  | inl e ↦ rw e refl
  | inr e ↦ rw e (ap (λ s. s.choked_by_us) (write_counted_state c.writes_left _ _))
]

settle-choked :
    (unchoked : List ℕ) (i j k : ℕ) (cs : List Client) {found : Client}
    → j ≡ i + k
    → get_elem? (settle unchoked i cs) k ≡ some found
    → found.state.choked_by_us ≡ not (has j unchoked)
unfolding settle
settle-choked unchoked i j k [] e h = cc
settle-choked unchoked i j zero (c ∷ cs) {found} e h =
    let same : settle_client (has i unchoked) c ≡ found = cc in
    let place : j ≡ i = omega arith in rw (place, ← same) (settle_client-choked (has i unchoked) c)
settle-choked unchoked i j (suc k) (c ∷ cs) e h =
    settle-choked unchoked (suc i) j k cs (omega arith) h

kept_interested :
    (cm : ChokeManager) (i : ℕ)
    → cm.current_optimistic ≡ some i
    → rotates cm ≡ false
    → is_interested cm.clients i ≡ true
unfolding rotates
kept_interested cm i h e =
    let stays : ((cm.optimistic_timer % 3 == 0) || not (is_interested cm.clients i)) ≡ false =
      rw (h, rotates) at e in
    ground arith

-- The optimistic client is one without a slot, or the one of before, which is still interested.
next_optimistic-interested :
    (rand : ℕ) (cm : ChokeManager) (rest : List ℕ) {i : ℕ}
    → next_optimistic rand cm rest ≡ some i
    → (has i rest ≡ true) ⊎ (is_interested cm.clients i ≡ true)
unfolding next_optimistic
next_optimistic-interested rand cm rest {i} h = elim (Bool-cases (rotates cm)) [
  | inl e ↦ inl (choose-has rand rest (rw e at h))
  | inr e ↦ inr (kept_interested cm i (rw e at h) e)
]

sample-interested :
    (elapsed : ℕ → Bool) (i k : ℕ) (cs : List Client)
    → is_interested (sample elapsed i cs) k ≡ is_interested cs k
unfolding sample is_interested
sample-interested elapsed i k [] = refl
sample-interested elapsed i zero (c ∷ cs) = elim (Bool-cases (elapsed i)) [
  | inl e ↦ rw e
  | inr e ↦ rw e
]
sample-interested elapsed i (suc k) (c ∷ cs) = sample-interested elapsed (suc i) k cs

-- Who has a slot: `top` are those with the largest scores, and `chosen` has the optimistic one besides.
pub record HaveSlots (score : ℕ → ℕ) (cm after : ChokeManager) (top chosen : List ℕ) : Type 0 where
  pub distinct : Distinct chosen
  pub few : length chosen ≤ length top + 1
  pub few_top : length top ≤ cm.max_uploads - 1
  pub full :
      (length top ≡ cm.max_uploads - 1)
      ⊎ ((i : ℕ) → is_interested cm.clients i ≡ true → has i top ≡ true)
  pub kept : (i : ℕ) → has i top ≡ true → has i chosen ≡ true
  pub interested : (i : ℕ) → has i chosen ≡ true → is_interested cm.clients i ≡ true
  pub best :
      (i k : ℕ)
      → has i top ≡ true
      → is_interested cm.clients k ≡ true
      → has k top ≡ false
      → score k ≤ score i
  pub settled :
      (i : ℕ) {c : Client}
      → get_elem? after.clients i ≡ some c
      → c.state.choked_by_us ≡ not (has i chosen)

-- The slots of those that come first.
top-HaveSlots :
    (score : ℕ → ℕ) (cm after : ChokeManager) (ranked : List ℕ)
    → IsRanked score ranked
    → Distinct ranked
    → ((i : ℕ) → has i ranked ≡ is_interested cm.clients i)
    → after.clients ≡ settle (take (cm.max_uploads - 1) ranked) 0 cm.clients
    → HaveSlots score cm after (take (cm.max_uploads - 1) ranked) (take (cm.max_uploads - 1) ranked)
top-HaveSlots score cm after ranked r d members out =
    let n = cm.max_uploads - 1 in
    record {
      distinct = take-Distinct n ranked d;
      few = omega arith;
      few_top = length-take_le n ranked;
      full = take_full n ranked (λ i. is_interested cm.clients i) members;
      kept = λ i h. h;
      interested = λ i h. sym (members i) ∙ has-take n i ranked h;
      best = λ i k h there cut. take-IsRanked score n i k ranked r h (members k ∙ there) cut;
      settled = λ i h. settle-choked (take n ranked) 0 i i cm.clients (omega arith) (rw out at h);
    }

length-insert_le : (i : ℕ) (is : List ℕ) → length (insert i is) ≤ length is + 1
unfolding insert
length-insert_le i is = ground arith

with_optimistic-HaveSlots :
    (score : ℕ → ℕ) (cm after : ChokeManager) (ranked : List ℕ) (o : ℕ)
    → IsRanked score ranked
    → Distinct ranked
    → ((i : ℕ) → has i ranked ≡ is_interested cm.clients i)
    → is_interested cm.clients o ≡ true
    → after.clients ≡ settle (insert o (take (cm.max_uploads - 1) ranked)) 0 cm.clients
    → HaveSlots score cm after
        (take (cm.max_uploads - 1) ranked)
        (insert o (take (cm.max_uploads - 1) ranked))
with_optimistic-HaveSlots score cm after ranked o r d members good out =
    let n = cm.max_uploads - 1 in
    let top = take n ranked in
    record {
      distinct = insert-Distinct o top (take-Distinct n ranked d);
      few = length-insert_le o top;
      few_top = length-take_le n ranked;
      full = take_full n ranked (λ i. is_interested cm.clients i) members;
      kept = λ i h. ground (arith, has-insert i o top);
      interested = λ i h. elim (Bool-cases (o == i)) [
        | inl e ↦ let same : o ≡ i = ground arith in rw (← same) good
        | inr e ↦ sym (members i) ∙ has-take n i ranked (ground (arith, has-insert i o top))
      ];
      best = λ i k h there cut. take-IsRanked score n i k ranked r h (members k ∙ there) cut;
      settled = λ i h. settle-choked (insert o top) 0 i i cm.clients (omega arith) (rw out at h);
    }

give_slots-HaveSlots :
    (score : ℕ → ℕ) (rand : ℕ) (cm : ChokeManager) (ranked : List ℕ)
    → IsRanked score ranked
    → Distinct ranked
    → ((i : ℕ) → has i ranked ≡ is_interested cm.clients i)
    → (top chosen : List ℕ) × HaveSlots score cm (give_slots rand cm ranked) top chosen
unfolding give_slots with_optimistic
give_slots-HaveSlots score rand cm ranked r d members = by_rest _ refl
  where
    top : List ℕ
    top = take (cm.max_uploads - 1) ranked

    by_choice :
        (i : ℕ) (is : List ℕ) (o : Option ℕ)
        → remaining top ranked ≡ i ∷ is
        → next_optimistic rand cm (i ∷ is) ≡ o
        → (chosen : List ℕ) × HaveSlots score cm (give_slots rand cm ranked) top chosen
    by_choice i is none e h =
        (top, top-HaveSlots score cm _ ranked r d members (rw (e, give_slots) (rw h)))
    by_choice i is (some o) e h =
        let good : is_interested cm.clients o ≡ true =
          elim (next_optimistic-interested rand cm (i ∷ is) h) [
            | inl there ↦
                let left : (has o ranked && not (has o top)) ≡ true =
                  sym (has-remaining o top ranked) ∙ ap (has o) e ∙ there in
                sym (members o) ∙ ground arith
            | inr stays ↦ stays
          ] in
        (
          insert o top,
          with_optimistic-HaveSlots score cm _ ranked o r d members good
              (rw (e, give_slots) (rw h)),
        )

    by_rest :
        (rest : List ℕ)
        → remaining top ranked ≡ rest
        → (top chosen : List ℕ) × HaveSlots score cm (give_slots rand cm ranked) top chosen
    by_rest [] e = (top, top, top-HaveSlots score cm _ ranked r d members (rw (e, give_slots)))
    by_rest (i ∷ is) e = let (chosen, slots) = by_choice i is _ e refl in (top, chosen, slots)

-- When some client is interested, `Evaluate` leaves exactly those unchoked that have a slot: different
-- interested clients. All upload slots but one go to clients with the largest scores, as far as
-- clients are interested, and at most one client more has a slot.
pub evaluate-HaveSlots :
    (elapsed : ℕ → Bool) (score : ℕ → ℕ) (rand : ℕ) (cm : ChokeManager) (k : ℕ)
    → is_interested cm.clients k ≡ true
    → (top chosen : List ℕ) × HaveSlots score cm (evaluate elapsed score rand cm) top chosen
unfolding evaluate
evaluate-HaveSlots elapsed score rand cm k good = by_interested _ refl
  where
    ready : ChokeManager
    ready = record cm {
      clients = sample elapsed 0 cm.clients;
      optimistic_timer = cm.optimistic_timer + 1;
    }

    same : (i : ℕ) → is_interested ready.clients i ≡ is_interested cm.clients i
    same i = sample-interested elapsed 0 i cm.clients

    by_interested :
        (is : List ℕ)
        → interested_from 0 ready.clients ≡ is
        → (top chosen : List ℕ) × HaveSlots score cm (evaluate elapsed score rand cm) top chosen
    by_interested [] e =
        let here : has k (interested_from 0 ready.clients) ≡ true =
          has-interested_from 0 k k ready.clients (omega arith) ∙ same k ∙ good in
        cc (rw e at here)
    by_interested (i ∷ is) e =
        let ranked = sort_by_score score (i ∷ is) in
        let members : (j : ℕ) → has j ranked ≡ is_interested ready.clients j = λ j.
          has-sort_by_score score j (i ∷ is)
          ∙ ap (has j) (sym e)
          ∙ has-interested_from 0 j j ready.clients (omega arith) in
        let distinct : Distinct (i ∷ is) =
          subst Distinct e (interested_from-Distinct 0 ready.clients) in
        let (top, chosen, slots) =
          give_slots-HaveSlots score rand ready ranked (sort_by_score-IsRanked score (i ∷ is))
            (sort_by_score-Distinct score (i ∷ is) distinct) members in
        (
          top,
          chosen,
          rw (e, evaluate)
              (record {
                distinct = slots.distinct;
                few = slots.few;
                few_top = slots.few_top;
                full = elim slots.full [
                  | inl whole ↦ inl whole
                  | inr all ↦ inr (λ j h. all j (same j ∙ h))
                ];
                kept = slots.kept;
                interested = λ j h. sym (same j) ∙ slots.interested j h;
                best = λ j l h there cut. slots.best j l h (same l ∙ there) cut;
                settled = slots.settled;
              }),
        )
