-- ===== src/Piece/Worker/Leaving.antt =====
-- internal/piece/worker.go: a worker registers the bitfield of its peer and unregisters it at the end.
-- The slice is the same array, which `HandleHave` changes in between.
use sid_torrent.Prelude.{
  ℕ, ◌-◌, ◌%◌, ◌^◌, ◌<◌, ◌≡◌, Bool, true, false, some, List, arith, ltb, length, set, get_or,
  get_elem?,
}
use sid_torrent.Prelude.Words.{get-put_uint32, put_uint32}
use sid_torrent.Peer.Message.{have_message, handle_have}
use sid_torrent.Piece.Manager.{PieceManager, register_peer_bitfield, unregister_peer_bitfield}
use sid_torrent.Piece.Manager.Invariant.{IsValid}
use sid_torrent.Piece.Manager.Availability.{
  register_peer_bitfield-Recounted, unregister_peer_bitfield-Recounted,
}
use sid_torrent.Piece.Download.Requests.{get_or-set_self}

handle_have-message :
    (bf : List Bool) (i : ℕ)
    → i < length bf
    → i < 2 ^ 32
    → handle_have bf (have_message i) ≡ some (set bf i true)
unfolding handle_have have_message put_uint32
handle_have-message bf i lt small =
    let wrap : i % 2 ^ 32 ≡ i = omega arith in
    let within : ltb i (length bf) ≡ true = ground arith in
    rw wrap (rw (get-put_uint32 i small) (rw within))

-- A peer that joins without a piece, announces it, and leaves, takes one from the count of that piece,
-- although nothing was added for it.
pub unregister-have :
    (pm : PieceManager) (bf : List Bool) (i n : ℕ)
    → IsValid pm
    → i < length bf
    → i < 2 ^ 32
    → get_or bf i false ≡ false
    → get_elem? pm.availability i ≡ some n
    → (bf' : List Bool) × (joined left : PieceManager) × (handle_have bf (have_message i)
        ≡ some bf')
      × (register_peer_bitfield pm bf ≡ some joined)
      × (unregister_peer_bitfield joined bf' ≡ some left)
      × (get_elem? left.availability i ≡ some (n - 1))
unregister-have pm bf i n v lt small absent count =
    let bf' = set bf i true in
    let (joined, run, here) = register_peer_bitfield-Recounted pm bf v in
    let (left, run', there) = unregister_peer_bitfield-Recounted joined bf' here.valid in
    let kept : get_elem? joined.availability i ≡ some n = rw absent at (here.counts i n count) in
    let owned = get_or-set_self bf i true false lt in
    (
      bf',
      joined,
      left,
      handle_have-message bf i lt small,
      run,
      run',
      rw owned at (there.counts i n kept),
    )
