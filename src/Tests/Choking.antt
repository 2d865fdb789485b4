-- ===== src/Tests/Choking.antt =====
-- internal/piece/choke_manager.go: three clients, of which the last two are interested.
use sid_torrent.Prelude.{ℕ, ◌≡◌, refl, true, List, [], ◌∷◌}
use sid_torrent.Peer.State.{Client}
use sid_torrent.Piece.Choke.{ChokeManager, new_choke_manager, evaluate, is_interested}
use sid_torrent.Piece.Choke.Slots.{HaveSlots, evaluate-HaveSlots}
use sid_torrent.Tests.Transfer.{client}

abbrev interested : Client
interested = record (client []) { state = record (client []).state { interested_in_us = true } }

abbrev manager : ChokeManager
manager = new_choke_manager (client [] ∷ interested ∷ interested ∷ []) 2

second_interested : is_interested manager.clients 1 ≡ true
unfolding is_interested new_choke_manager
second_interested = refl

evaluate-HaveSlots_example :
    (top chosen : List ℕ) × HaveSlots
      (λ i. i)
      manager
      (evaluate (λ i. true) (λ i. i) 5 manager)
      top
      chosen
evaluate-HaveSlots_example = evaluate-HaveSlots (λ i. true) (λ i. i) 5 manager 1 second_interested
