-- ===== src/Tracker/Udp.antt =====
-- internal/tracker/tracker.go: what is sent to a UDP tracker, and what is taken from it. The
-- transaction id and the key are the random numbers of the source.
pub mod Checks
use sid_torrent.Prelude.{
  ℕ, zero, suc, ◌+◌, ◌-◌, ◌*◌, ◌/◌, ◌%◌, ◌^◌, Bool, true, false, not, ◌&&◌, ◌||◌, Option, none,
  some, List, [], ◌∷◌, ◌++◌, ltb, leb, ◌==◌, if◌then◌else◌, length, take, drop, get_or,
}
use sid_torrent.Prelude.Bytes.{Bytes}
use sid_torrent.Prelude.Words.{uint32, put_uint32, get_uint32, put_uint16}
use sid_torrent.Tracker.Peers.{TrackerPeer, parse_compact_peers}

abbrev pub udp_protocol_id : ℕ
udp_protocol_id = 4497486125440

abbrev pub udp_action_connect : ℕ
udp_action_connect = 0

abbrev pub udp_action_announce : ℕ
udp_action_announce = 1

abbrev pub udp_action_error : ℕ
udp_action_error = 3

abbrev pub default_port : ℕ
default_port = 6881

abbrev pub default_num_want : ℕ
default_num_want = 50

unfoldable pub put_uint64 : ℕ → Bytes
put_uint64 w = put_uint32 (w / 2 ^ 32 % 2 ^ 32) ++ put_uint32 (w % 2 ^ 32)

-- The word of four bytes at a place.
unfoldable pub word_at : Bytes → ℕ → ℕ
word_at resp i =
    get_uint32 (get_or resp i 0) (get_or resp (i + 1) 0) (get_or resp (i + 2) 0)
      (get_or resp (i + 3) 0)

unfoldable pub connect_request : ℕ → Bytes
unfolding put_uint64
connect_request transaction =
    put_uint64 udp_protocol_id ++ (put_uint32 udp_action_connect ++ put_uint32 transaction)

pub data UdpError : Type 0 where
  tracker_error : Bytes → UdpError
  short_response invalid_response invalid_action invalid_transaction invalid_request : UdpError

pub data UdpResult {ℓ} (A : Type ℓ) : Type ℓ where
  ok : A → UdpResult A
  failed : UdpError → UdpResult A

-- `udpConnect`, from the datagram that is read into a buffer of 100 bytes.
unfoldable pub connect_response : ℕ → Bytes → UdpResult ℕ
unfolding word_at
connect_response transaction datagram =
    let resp = take 100 datagram in
    let n = length resp in
    let action = word_at resp 0 in
    if ltb n 16
    then if leb 8 n && action == udp_action_error
      then failed (tracker_error (drop 8 resp))
      else failed short_response
    else if action == udp_action_error
    then failed (tracker_error (drop 8 resp))
    else if not (action == udp_action_connect) || not (word_at resp 4 == transaction)
    then failed invalid_response
    else ok (word_at resp 8 * 2 ^ 32 + word_at resp 12)

-- `udpAnnounce`: nothing downloaded or uploaded, all of the torrent left.
unfoldable pub announce_bytes : ℕ → ℕ → Bytes → Bytes → ℕ → ℕ → Bytes
unfolding put_uint64
announce_bytes connection transaction info_hash peer_id total_length key =
    put_uint64 connection
    ++ (put_uint32 udp_action_announce
        ++ (put_uint32 transaction
            ++ (info_hash
                ++ (peer_id
                    ++ (put_uint64 0
                        ++ (put_uint64 total_length
                            ++ (put_uint64 0
                                ++ (put_uint32 0
                                    ++ (put_uint32 0
                                        ++ (put_uint32 key
                                            ++ (put_uint32 default_num_want
                                                ++ put_uint16 default_port)))))))))))

unfoldable pub announce_request : ℕ → ℕ → Bytes → Bytes → ℕ → ℕ → UdpResult Bytes
unfolding announce_bytes
announce_request connection transaction info_hash peer_id total_length key =
    let req = announce_bytes connection transaction info_hash peer_id total_length key in
    if not (length req == 98) then failed invalid_request else ok req

-- The answer, read into a buffer of 1500 bytes; the remote address says which peers it lists.
unfoldable pub announce_response : ℕ → Bool → Bytes → UdpResult (List TrackerPeer)
unfolding word_at
announce_response transaction is_ipv6 datagram =
    let resp = take 1500 datagram in
    let n = length resp in
    let action = word_at resp 0 in
    if ltb n 8
    then failed short_response
    else if action == udp_action_error
    then failed (tracker_error (drop 8 resp))
    else if not (action == udp_action_announce)
    then failed invalid_action
    else if not (word_at resp 4 == transaction)
    then failed invalid_transaction
    else if ltb n 20
    then failed short_response
    else ok (parse_compact_peers (drop 20 resp) is_ipv6)
