-- ===== src/Peer/Startup.antt =====
-- internal/peer/peer.go: `ReadBitField`, the first messages of a connection, and `ReadNextMessage`.
pub mod Outcomes
use sid_torrent.Prelude.{
  ℕ, zero, suc, ◌+◌, Bool, true, false, Option, none, some, List, [], ◌∷◌, ◌==◌, if◌then◌else◌,
  length, replicate,
}
use sid_torrent.Prelude.Bytes.{Bytes}
use sid_torrent.Peer.Message.{
  Message, ReadResult, got, failed, read_message, handle_have, msg_choke, msg_unchoke, msg_have,
  msg_bitfield, msg_extended,
}
use sid_torrent.Peer.Bitfield.{parse_bitfield}
use sid_torrent.Peer.State.{Client}
use sid_torrent.Peer.Pex.{Extended, handled, refused, blocked, handle_extended}

-- The client after success, or after an error; or the call blocks for ever.
pub data Startup : Type 0 where
  ready : Client → Startup
  broken : Client → Startup
  hung : Startup
  out_of_fuel : Startup

abbrev pub with_bitfield : Client → List Bool → Client
with_bitfield c bf = record c { state = record c.state { bitfield = bf } }

abbrev pub with_choked : Client → Bool → Client
with_choked c b = record c { state = record c.state { choked = b } }

-- A bitfield that an announcement or a message gives, none for its error.
unfoldable pub take_bitfield : Client → Option (List Bool) → Startup
take_bitfield c none = broken c
take_bitfield c (some bf) = ready (with_bitfield c bf)

-- After `HandleExtended`, whose error is not looked at, the loop goes on.
unfoldable pub after_extended : (Client → Startup) → Client → Extended → Startup
after_extended again c (handled s chan) = again (record c { state = s; peer_chan = chan })
after_extended again c refused = again c
after_extended again c blocked = hung

-- The `switch` of `ReadBitField`; `again` is the next round.
unfoldable pub startup_message : (Client → Startup) → ℕ → Client → Message → Startup
unfolding take_bitfield after_extended
startup_message again total c m =
    if m.id == msg_bitfield
    then take_bitfield c (parse_bitfield m.payload total)
    else if m.id == msg_extended
    then after_extended again c (handle_extended c.state c.peer_chan m)
    else if m.id == msg_have
    then take_bitfield c (handle_have c.state.bitfield m)
    else if m.id == msg_choke
    then ready (with_choked c true)
    else if m.id == msg_unchoke
    then ready (with_choked c false)
    else ready c

unfoldable pub after_read : (Client → Startup) → ℕ → Client → ReadResult → Startup
unfolding startup_message
after_read again total c (failed e) = broken (record c { input = [] })
after_read again total c (got none rest) = again (record c { input = rest })
after_read again total c (got (some m) rest) =
    startup_message again total (record c { input = rest }) m

-- Each round takes a message from the input.
unfoldable pub startup_rounds : ℕ → ℕ → Client → Startup
startup_rounds zero total c = out_of_fuel
startup_rounds (suc f) total c = after_read (startup_rounds f total) total c (read_message c.input)

-- `ReadBitField`
unfoldable pub read_bitfield : Client → ℕ → Startup
read_bitfield c total =
    startup_rounds (length c.input + 1) total (with_bitfield c (replicate total false))

-- `ReadNextMessage`: the client, and whether there was no error.
unfoldable pub take_have : Client → Option (List Bool) → Client × Bool
take_have c none = (c, false)
take_have c (some bf) = (with_bitfield c bf, true)

unfoldable pub next_message : Client → ReadResult → Client × Bool
unfolding take_have
next_message c (failed e) = (record c { input = [] }, false)
next_message c (got none rest) = (record c { input = rest }, true)
next_message c (got (some m) rest) =
    let c' = record c { input = rest } in
    if m.id == msg_have then take_have c' (handle_have c.state.bitfield m) else (c', true)

unfoldable pub read_next_message : Client → Client × Bool
unfolding next_message
read_next_message c = next_message c (read_message c.input)
