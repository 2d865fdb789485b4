-- ===== src/Peer/Message.antt =====
-- internal/peer/message.go and have.go, and the messages of internal/piece: framing, `have`,
-- `request` and `piece`. A message of `nil`, the keep-alive, is `none`.
pub mod Framing
use sid_torrent.Prelude.{
  ℕ, zero, suc, ◌+◌, ◌-◌, ◌%◌, ◌^◌, ◌<◌, Bool, true, false, not, Option, none, some, List, [], ◌∷◌,
  ◌++◌, ltb, ◌==◌, if◌then◌else◌, length, set, take, drop,
}
use sid_torrent.Prelude.Bytes.{Bytes}
use sid_torrent.Prelude.Words.{uint32, put_uint32, get_uint32}

abbrev pub msg_choke : ℕ
msg_choke = 0

abbrev pub msg_unchoke : ℕ
msg_unchoke = 1

abbrev pub msg_interested : ℕ
msg_interested = 2

abbrev pub msg_not_interested : ℕ
msg_not_interested = 3

abbrev pub msg_have : ℕ
msg_have = 4

abbrev pub msg_bitfield : ℕ
msg_bitfield = 5

abbrev pub msg_request : ℕ
msg_request = 6

abbrev pub msg_piece : ℕ
msg_piece = 7

abbrev pub msg_extended : ℕ
msg_extended = 20

pub record Message : Type 0 where
  pub id : ℕ
  pub payload : Bytes

-- The length is a uint32, which wraps.
unfoldable pub serialize : Message → Bytes
serialize m = put_uint32 (uint32 (length m.payload + 1)) ++ m.id ∷ m.payload

-- The stream ended: before the first byte (`io.EOF`), or later (`io.ErrUnexpectedEOF`).
pub data ReadError : Type 0 where
  eof unexpected_eof : ReadError

-- A message or a keep-alive with what is left of the stream, or an error.
pub data ReadResult : Type 0 where
  got : Option Message → Bytes → ReadResult
  failed : ReadError → ReadResult

-- `io.ReadFull(r, messageBuf)` for a length that is not 0: the first byte is the id.
unfoldable pub read_body : ℕ → Bytes → ReadResult
read_body n [] = failed eof
read_body n (id ∷ stream) =
    if ltb (length (id ∷ stream)) n
    then failed unexpected_eof
    else got (some (record { id = id; payload = take (n - 1) stream })) (drop (n - 1) stream)

unfoldable pub read_message : Bytes → ReadResult
unfolding read_body
read_message [] = failed eof
read_message (a ∷ b ∷ c ∷ d ∷ stream) =
    let n = get_uint32 a b c d in if n == 0 then got none stream else read_body n stream
read_message _ = failed unexpected_eof

-- `ParseHave`; `none` is its error.
unfoldable pub parse_have : Bytes → Option ℕ
parse_have (a ∷ b ∷ c ∷ d ∷ []) = some (get_uint32 a b c d)
parse_have _ = none

-- What `SendHave` writes.
unfoldable pub have_message : ℕ → Message
have_message i = record { id = msg_have; payload = put_uint32 (uint32 i) }

-- The client's bitfield with the piece announced, or none where `HandleHave` gives an error.
unfoldable pub mark_owned : List Bool → Option ℕ → Option (List Bool)
mark_owned bf none = none
mark_owned bf (some i) = if ltb i (length bf) then some (set bf i true) else none

unfoldable pub handle_have : List Bool → Message → Option (List Bool)
unfolding parse_have mark_owned
handle_have bf m = mark_owned bf (parse_have m.payload)

-- internal/piece/downloader.go
unfoldable pub request_message : ℕ → ℕ → ℕ → Message
request_message index begin size = record {
  id = msg_request;
  payload = put_uint32 (uint32 index) ++ (put_uint32 (uint32 begin) ++ put_uint32 (uint32 size));
}

-- internal/piece/parse_piece.go
pub data PieceError : Type 0 where
  nil_message not_a_piece payload_too_short empty_block : PieceError

pub data PieceResult : Type 0 where
  block : ℕ → Bytes → PieceResult
  refused : PieceError → PieceResult

-- The offset and the block behind the index, which is not looked at.
unfoldable pub parse_payload : Bytes → PieceResult
parse_payload (i ∷ j ∷ k ∷ l ∷ a ∷ b ∷ c ∷ d ∷ []) = refused empty_block
parse_payload (i ∷ j ∷ k ∷ l ∷ a ∷ b ∷ c ∷ d ∷ x ∷ xs) = block (get_uint32 a b c d) (x ∷ xs)
parse_payload _ = refused payload_too_short

unfoldable pub parse_piece : Option Message → PieceResult
unfolding parse_payload
parse_piece none = refused nil_message
parse_piece (some m) =
    if not (m.id == msg_piece) then refused not_a_piece else parse_payload m.payload
