-- ===== src/Peer/Startup/Outcomes.antt =====
-- internal/peer/peer.go: how `ReadBitField` ends.
mod Messages
use sid_torrent.Prelude.{
  ℕ, zero, suc, ◌+◌, ◌-◌, ◌^◌, ◌<◌, ◌≤◌, ◌≡◌, refl, ◌∙◌, Bool, true, false, Option, none, some,
  List, [], ◌∷◌, ◌++◌, arith, ◌==◌, length, length-set, length-replicate, length-drop, replicate,
  inl, inr, Bool-cases, Option-cases,
}
use sid_torrent.Prelude.Bytes.{Bytes, codes}
use sid_torrent.Prelude.Words.{get_uint32}
use sid_torrent.Bencode.{Value, Fields, find}
use sid_torrent.Bencode.Decoder.{Result, ok, failed, out_of_fuel, decode_bytes}
use sid_torrent.Dht.Node.{dict_of}
use sid_torrent.Peer.Message
use sid_torrent.Peer.Message.{
  Message, ReadResult, got, read_message, read_body, serialize, handle_have, mark_owned, parse_have,
  msg_bitfield, msg_have, msg_choke, msg_unchoke, msg_extended,
}
use sid_torrent.Peer.Message.Framing.{read_message-serialize}
use sid_torrent.Peer.Bitfield.{parse_bitfield, read_bits}
use sid_torrent.Peer.Bitfield.Packing.{pack, parse_bitfield-pack}
use sid_torrent.Peer.State.{PeerState, Channel, Client, served}
use sid_torrent.Peer.Pex.{
  Extended, handled, refused, blocked, take_handshake, take_pex_id, announce, handle_extended,
  handle_dict, handle_decoded, handle_payload,
}
use sid_torrent.Peer.Startup.{
  Startup, ready, broken, hung, with_bitfield, take_bitfield, after_extended, startup_message,
  after_read, startup_rounds, read_bitfield,
}
use sid_torrent.Tracker.Peers.{TrackerPeer}
pub use sid_torrent.Peer.Startup.Outcomes.Messages.{
  Keeps, handle_extended-Keeps, length-handle_have, read_message-shorter,
}
use sid_torrent.Peer.Startup.Outcomes.Messages.{length-parse_bitfield}

-- What is left of a client after the start: the bitfield has a place for each piece, and nothing was
-- written. It hangs only when nobody receives from its channel.
abbrev pub IsStarted : ℕ → Client → Startup → Type 0
IsStarted total c (ready c') = (length c'.state.bitfield ≡ total) × (c'.output ≡ c.output)
IsStarted total c (broken c') = (length c'.state.bitfield ≡ total) × (c'.output ≡ c.output)
IsStarted total c hung = served c.peer_chan ≡ false
IsStarted total c Startup.out_of_fuel = ⊥

take_bitfield-IsStarted :
    (total : ℕ) (c : Client) (o : Option (List Bool))
    → length c.state.bitfield ≡ total
    → ((bf : List Bool) → o ≡ some bf → length bf ≡ total)
    → IsStarted total c (take_bitfield c o)
unfolding take_bitfield
take_bitfield-IsStarted total c none h sized = (h, refl)
take_bitfield-IsStarted total c (some bf) h sized = (sized bf refl, refl)

IsStarted-earlier :
    (total : ℕ) (c c' : Client) (r : Startup)
    → c'.output ≡ c.output
    → (served c'.peer_chan ≡ false → served c.peer_chan ≡ false)
    → IsStarted total c' r
    → IsStarted total c r
IsStarted-earlier total c c' (ready d) same chan (h, k) = (h, k ∙ same)
IsStarted-earlier total c c' (broken d) same chan (h, k) = (h, k ∙ same)
IsStarted-earlier total c c' hung same chan h = chan h
IsStarted-earlier total c c' Startup.out_of_fuel same chan h = h

module _ (again : Client → Startup) (total n : ℕ)
    (later : (c : Client)
      → length c.state.bitfield ≡ total
      → length c.input < n
      → IsStarted total c (again c)) where
  after_extended-IsStarted :
      (c : Client) (r : Extended)
      → length c.state.bitfield ≡ total
      → length c.input < n
      → Keeps c.state c.peer_chan r
      → IsStarted total c (after_extended again c r)
  unfolding after_extended
  after_extended-IsStarted c (handled s chan) h lt (same, open_still) =
      let c' = record c { state = s; peer_chan = chan } in
      IsStarted-earlier total c c' (again c') refl open_still (later c' (rw same h) lt)
  after_extended-IsStarted c refused h lt k = later c h lt
  after_extended-IsStarted c blocked h lt k = k

  startup_message-IsStarted :
      (c : Client) (m : Message)
      → length c.state.bitfield ≡ total
      → length c.input < n
      → IsStarted total c (startup_message again total c m)
  unfolding startup_message
  startup_message-IsStarted c m h lt =
      let whole =
        take_bitfield-IsStarted total c (parse_bitfield m.payload total) h
          (λ bf e. length-parse_bitfield m.payload total e) in
      let one =
        take_bitfield-IsStarted total c (handle_have c.state.bitfield m) h
          (λ bf e. length-handle_have c.state.bitfield m e ∙ h) in
      let extension =
        after_extended-IsStarted c (handle_extended c.state c.peer_chan m) h lt
          (handle_extended-Keeps c.state c.peer_chan m) in
      elim (Bool-cases (m.id == msg_bitfield)) [
        | inl e ↦ rw e whole
        | inr e ↦ rw e (elim (Bool-cases (m.id == msg_extended)) [
          | inl e1 ↦ rw e1 extension
          | inr e1 ↦ rw e1 (elim (Bool-cases (m.id == msg_have)) [
            | inl e2 ↦ rw e2 one
            | inr e2 ↦ rw e2 (elim (Bool-cases (m.id == msg_choke)) [
              | inl e3 ↦ rw e3 (h, refl)
              | inr e3 ↦ rw e3 (elim (Bool-cases (m.id == msg_unchoke)) [
                | inl e4 ↦ rw e4 (h, refl)
                | inr e4 ↦ rw e4 (h, refl)
              ])
            ])
          ])
        ])
      ]

  after_read-IsStarted :
      (c : Client) (r : ReadResult)
      → length c.state.bitfield ≡ total
      → ((m : Option Message) (rest : Bytes) → r ≡ got m rest → length rest < n)
      → IsStarted total c (after_read again total c r)
  unfolding after_read
  after_read-IsStarted c (Message.failed e) h lt = (h, refl)
  after_read-IsStarted c (got none rest) h lt =
      let c' = record c { input = rest } in
      IsStarted-earlier total c c' (again c') refl (λ k. k) (later c' h (lt none rest refl))
  after_read-IsStarted c (got (some m) rest) h lt =
      let c' = record c { input = rest } in
      IsStarted-earlier total c c' (startup_message again total c' m) refl (λ k. k)
        (startup_message-IsStarted c' m h (lt (some m) rest refl))

startup_rounds-IsStarted :
    (f total : ℕ) (c : Client)
    → length c.state.bitfield ≡ total
    → length c.input < f
    → IsStarted total c (startup_rounds f total c)
unfolding startup_rounds
startup_rounds-IsStarted zero total c h lt = absurd (omega arith)
startup_rounds-IsStarted (suc f) total c h lt =
    after_read-IsStarted (startup_rounds f total) total f (startup_rounds-IsStarted f total) c
      (read_message c.input) h (λ m rest e. omega (arith, read_message-shorter c.input e))

-- On a connection that gives finitely many bytes, any bytes, and then fails, `ReadBitField` ends,
-- unless it waits for ever on a channel that is nil or from which nobody receives any more. In success
-- and in error the bitfield has a place for each piece, and nothing was written.
pub read_bitfield-IsStarted : (c : Client) (total : ℕ) → IsStarted total c (read_bitfield c total)
unfolding read_bitfield
read_bitfield-IsStarted c total =
    let c' = with_bitfield c (replicate total false) in
    IsStarted-earlier total c c' (startup_rounds (length c.input + 1) total c') refl (λ k. k)
      (startup_rounds-IsStarted (length c.input + 1) total c' (length-replicate total false)
        (omega arith))

-- Keep-alives, each a length of 0.
abbrev pub keep_alives : ℕ → Bytes → Bytes
keep_alives zero stream = stream
keep_alives (suc k) stream = 0 ∷ 0 ∷ 0 ∷ 0 ∷ keep_alives k stream

abbrev pub bitfield_message : List Bool → Message
bitfield_message bs = record { id = msg_bitfield; payload = pack bs }

read_message-keep_alive : (stream : Bytes) → read_message (0 ∷ 0 ∷ 0 ∷ 0 ∷ stream) ≡ got none stream
unfolding read_message get_uint32
read_message-keep_alive stream = refl

startup_rounds-bitfield :
    (k f : ℕ) (c : Client) (bs : List Bool) (rest : Bytes)
    → k < f
    → length (pack bs) + 1 < 2 ^ 32
    → c.input ≡ keep_alives k (serialize (bitfield_message bs) ++ rest)
    → startup_rounds f (length bs) c ≡ ready (record (with_bitfield c bs) { input = rest })
unfolding startup_rounds after_read
startup_rounds-bitfield k zero c bs rest lt h e = absurd (omega arith)
startup_rounds-bitfield zero (suc f) c bs rest lt h e =
    let read = read_message-serialize (bitfield_message bs) rest h in
    rw e (rw (read, after_read) (rw (parse_bitfield-pack bs) refl))
startup_rounds-bitfield (suc k) (suc f) c bs rest lt h e =
    let left = keep_alives k (serialize (bitfield_message bs) ++ rest) in
    let later =
      startup_rounds-bitfield k f (record c { input = left }) bs rest (omega arith) h refl in
    rw e (rw (read_message-keep_alive left, after_read) later)

length-keep_alives : (k : ℕ) (stream : Bytes) → k ≤ length (keep_alives k stream)
length-keep_alives zero stream = omega arith
length-keep_alives (suc k) stream = omega (arith, length-keep_alives k stream)

-- `ReadBitField` takes a bitfield as the protocol packs it, also behind keep-alives, and leaves what
-- follows unread. The message has fewer than 2^32 bytes.
pub read_bitfield-bitfield :
    (k : ℕ) (c : Client) (bs : List Bool) (rest : Bytes)
    → length (pack bs) + 1 < 2 ^ 32
    → c.input ≡ keep_alives k (serialize (bitfield_message bs) ++ rest)
    → read_bitfield c (length bs) ≡ ready (record (with_bitfield c bs) { input = rest })
unfolding read_bitfield
read_bitfield-bitfield k c bs rest h e =
    let stream = serialize (bitfield_message bs) ++ rest in
    let enough : k < length c.input + 1 = rw e (omega (arith, length-keep_alives k stream)) in
    startup_rounds-bitfield k (length c.input + 1) (with_bitfield c (replicate (length bs) false))
      bs rest enough h e
