-- ===== src/Peer/Message/Framing.antt =====
-- internal/peer/message.go: `Message.Serialize` and `ReadMessage`, one message after another.
use sid_torrent.Prelude.{
  suc, ◌+◌, ◌-◌, ◌%◌, ◌^◌, ◌<◌, ◌≡◌, refl, ap, false, some, [], ◌∷◌, ◌++◌, arith, ltb, ◌==◌, length,
  take, drop, length-append,
}
use sid_torrent.Prelude.Bytes.{Bytes}
use sid_torrent.Prelude.Words.{put_uint32, get-put_uint32}
use sid_torrent.Peer.Message.{Message, serialize, got, read_body, read_message}

take-append : (s rest : Bytes) → take (length s) (s ++ rest) ≡ s
take-append [] rest = refl
take-append (b ∷ s) rest = ap (λ t. b ∷ t) (take-append s rest)

drop-append : (s rest : Bytes) → drop (length s) (s ++ rest) ≡ rest
drop-append [] rest = refl
drop-append (b ∷ s) rest = drop-append s rest

read_body-serialized :
    (m : Message) (rest : Bytes)
    → read_body (length m.payload + 1) (m.id ∷ (m.payload ++ rest)) ≡ got (some m) rest
unfolding read_body
read_body-serialized m rest =
    let fits : ltb (suc (length (m.payload ++ rest))) (length m.payload + 1) ≡ false =
      ground (arith, length-append m.payload rest) in
    let size : length m.payload + 1 - 1 ≡ length m.payload = omega arith in
    rw fits (rw (size, take-append, drop-append))

-- A message that is written is read back as it is, and the stream goes on behind it, if the payload
-- has fewer than 2^32 - 1 bytes.
pub read_message-serialize :
    (m : Message) (rest : Bytes)
    → length m.payload + 1 < 2 ^ 32
    → read_message (serialize m ++ rest) ≡ got (some m) rest
unfolding read_message serialize put_uint32
read_message-serialize m rest h =
    let n = length m.payload + 1 in
    let wrap : n % 2 ^ 32 ≡ n = omega arith in
    let word = get-put_uint32 n h in
    let nonzero : (n == 0) ≡ false = ground arith in
    rw wrap (rw word (rw nonzero (read_body-serialized m rest)))
