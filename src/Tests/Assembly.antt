-- ===== src/Tests/Assembly.antt =====
-- internal/piece/assembler.go: a piece of three bytes.
use sid_torrent.Prelude.{ℕ, ◌<◌, ◌≡◌, refl, true, some, List, [], ◌∷◌, arith}
use sid_torrent.Prelude.Int.{pos}
use sid_torrent.Piece.Assembler.{
  PieceAssembler, new_assembler, block_length, add_block, is_complete, next_missing_block,
}
use sid_torrent.Piece.Assembler.Blocks.Delivery.{deliver, deliver_all, deliver_all-content}

abbrev whole : List ℕ
whole = 7 ∷ 8 ∷ 9 ∷ []

abbrev fresh : PieceAssembler
fresh = new_assembler 4 3

one_block : fresh.total_blocks ≡ 1
unfolding new_assembler
one_block = refl

below : 0 < fresh.total_blocks
unfolding new_assembler
below = omega arith

done : is_complete (deliver_all whole fresh (0 ∷ 0 ∷ [])) ≡ true
unfolding is_complete deliver_all add_block new_assembler deliver block_length
done = refl

deliver_all-content_example : (deliver_all whole (new_assembler 4 3) (0 ∷ 0 ∷ [])).content ≡ whole
deliver_all-content_example = deliver_all-content whole 4 (0 ∷ 0 ∷ []) (below, (below, tt)) done

first_block : (next_missing_block fresh).1 ≡ some (0, pos 3)
unfolding next_missing_block new_assembler block_length
first_block = refl
