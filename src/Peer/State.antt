-- ===== src/Peer/State.antt =====
-- internal/peer/state.go and the client of internal/peer/peer.go. Of the connection there is what can be
-- read from it, what was written, and how many writes still succeed. `peer_chan` is none for a nil
-- channel. The fields for scores, rates and times are left out.
use sid_torrent.Prelude.{ℕ, zero, suc, Bool, true, false, Option, none, some, List, [], ◌++◌}
use sid_torrent.Prelude.Int.{ℤ}
use sid_torrent.Prelude.Bytes.{Bytes}
use sid_torrent.Peer.Message.{
  Message, serialize, have_message, msg_choke, msg_unchoke, msg_interested, msg_not_interested,
}
use sid_torrent.Tracker.Peers.{TrackerPeer}

pub record PeerState : Type 0 where
  pub choked : Bool
  pub bitfield : List Bool
  pub choked_by_us : Bool
  pub interested_in_us : Bool
  pub interval_bytes : ℕ
  pub remote_pex_id : ℤ
  pub corrupt_count : ℕ
  pub successful_downloads : ℕ
  pub total_downloads : ℕ

-- A channel: what was sent into it, an address by its parts, and, when nobody will receive from it
-- any more, how many sends it still takes before one waits for ever. `room` is none while its consumer
-- goes on.
pub record Channel : Type 0 where
  pub sent : List TrackerPeer
  pub room : Option ℕ

abbrev pub open_channel : List TrackerPeer → Channel
open_channel sent = record { sent = sent; room = none }

unfoldable pub receives : Option ℕ → Bool
receives none = true
receives (some n) = false

-- Somebody receives from the channel, so no send waits for ever.
unfoldable pub served : Option Channel → Bool
unfolding receives
served none = false
served (some ch) = receives ch.room

pub record Client : Type 0 where
  pub state : PeerState
  pub peer_chan : Option Channel
  pub input : Bytes
  pub output : Bytes
  pub writes_left : ℕ

-- `WriteMessage`: the client afterwards, and whether the write succeeded.
unfoldable pub write_counted : ℕ → Client → Bytes → Client × Bool
write_counted zero c packet = (c, false)
write_counted (suc n) c packet = (record c { output = c.output ++ packet; writes_left = n }, true)

unfoldable pub write_message : Client → Message → Client × Bool
unfolding write_counted
write_message c m = write_counted c.writes_left c (serialize m)

abbrev pub plain_message : ℕ → Message
plain_message id = record { id = id; payload = [] }

unfoldable pub send_interested : Client → Client × Bool
send_interested c = write_message c (plain_message msg_interested)

unfoldable pub send_not_interested : Client → Client × Bool
send_not_interested c = write_message c (plain_message msg_not_interested)

unfoldable pub send_choke : Client → Client × Bool
send_choke c = write_message c (plain_message msg_choke)

unfoldable pub send_unchoke : Client → Client × Bool
send_unchoke c = write_message c (plain_message msg_unchoke)

unfoldable pub send_have : Client → ℕ → Client × Bool
send_have c i = write_message c (have_message i)
