-- ===== src/Tracker/Udp/Checks.antt =====
-- internal/tracker/tracker.go: the checks of the UDP answers, and what is sent.
use sid_torrent.Prelude.{
  ℕ, zero, suc, ◌+◌, ◌*◌, ◌/◌, ◌%◌, ◌^◌, ◌<◌, ◌≤◌, ◌≡◌, refl, ap, Bool, true, false, List, [], ◌∷◌,
  ◌++◌, arith, ltb, ◌==◌, length, length-append, length-take, take,
}
use sid_torrent.Prelude.Bytes.{Bytes}
use sid_torrent.Prelude.Words.{put_uint32, get_uint32, get-put_uint32, put_uint16}
use sid_torrent.Tracker.Peers.{TrackerPeer, peer_size}
use sid_torrent.Tracker.Peers.Listing.{ArePeers, compact, usable_peers, parse_compact_peers-compact}
use sid_torrent.Tracker.Udp.{
  put_uint64, word_at, ok, connect_response, announce_bytes, announce_request, announce_response,
  udp_action_connect, udp_action_announce, default_num_want, default_port,
}

sizes : (xs ys : Bytes) (n m : ℕ) → length xs ≡ n → length ys ≡ m → length (xs ++ ys) ≡ n + m
sizes xs ys n m h k = omega (arith, length-append xs ys)

-- With a hash and an id of 20 bytes, the announce request has the 98 bytes that it is checked for.
pub announce_request-length :
    (connection transaction : ℕ) (info_hash peer_id : Bytes) (total_length key : ℕ)
    → length info_hash ≡ 20
    → length peer_id ≡ 20
    → (req : Bytes) × (announce_request connection transaction info_hash peer_id total_length key
        ≡ ok req)
      × (length req ≡ 98)
unfolding announce_request announce_bytes put_uint64 put_uint32 put_uint16
announce_request-length connection transaction info_hash peer_id total_length key h i =
    let numbers =
      put_uint64 0
      ++ (put_uint64 total_length
          ++ (put_uint64 0
              ++ (put_uint32 0
                  ++ (put_uint32 0
                      ++ (put_uint32 key
                          ++ (put_uint32 default_num_want ++ put_uint16 default_port)))))) in
    let action = put_uint32 udp_action_announce in
    let rest = put_uint32 transaction ++ (info_hash ++ (peer_id ++ numbers)) in
    let req = announce_bytes connection transaction info_hash peer_id total_length key in
    let size : length req ≡ 98 = sizes (put_uint64 connection) (action ++ rest) 8 90 refl (
      sizes action rest 4 86 refl (
        sizes (put_uint32 transaction) (info_hash ++ (peer_id ++ numbers)) 4 82 refl
          (sizes info_hash (peer_id ++ numbers) 20 62 h (sizes peer_id numbers 20 42 i refl)))) in
    (req, rw size refl, size)

-- A connect response is accepted only if it has 16 bytes at least, the action `connect`, and the
-- transaction id that was sent.
pub connect_response-accepts :
    (transaction : ℕ) (datagram : Bytes) {connection : ℕ}
    → connect_response transaction datagram ≡ ok connection
    → (16 ≤ length datagram)
      × (word_at (take 100 datagram) 0 ≡ udp_action_connect)
      × (word_at (take 100 datagram) 4 ≡ transaction)
unfolding connect_response
connect_response-accepts transaction datagram h = ground (arith, length-take 100 datagram, h)

-- The answer of a tracker that goes by the protocol.
abbrev pub connect_answer : ℕ → ℕ → Bytes
connect_answer transaction connection =
    put_uint32 udp_action_connect ++ (put_uint32 transaction ++ put_uint64 connection)

-- The connection id of such an answer is what `udpConnect` gives.
pub connect_response-answer :
    (transaction connection : ℕ)
    → transaction < 2 ^ 32
    → connection < 2 ^ 64
    → connect_response transaction (connect_answer transaction connection) ≡ ok connection
unfolding connect_response word_at put_uint64 put_uint32 get_uint32
connect_response-answer transaction connection h k =
    let t = get-put_uint32 transaction h in
    let hi = get-put_uint32 (connection / 2 ^ 32 % 2 ^ 32) (omega arith) in
    let lo = get-put_uint32 (connection % 2 ^ 32) (omega arith) in
    let whole : connection / 2 ^ 32 % 2 ^ 32 * 2 ^ 32 + connection % 2 ^ 32 ≡ connection =
      omega arith in
    let same : (transaction == transaction) ≡ true = ground arith in
    rw (t, hi, lo, whole, same) refl

take_all : (n : ℕ) (xs : Bytes) → length xs ≤ n → take n xs ≡ xs
take_all zero [] h = refl
take_all zero (x ∷ xs) h = absurd (omega arith)
take_all (suc n) [] h = refl
take_all (suc n) (x ∷ xs) h = ap (λ t. x ∷ t) (take_all n xs (omega arith))

-- An announce response of at most 1500 bytes with the action `announce`, the transaction id that was
-- sent, twelve bytes of numbers and a list of peers in compact form gives the usable ones.
pub announce_response-compact :
    (transaction a b c : ℕ) (is_ipv6 : Bool) (ps : List TrackerPeer)
    → transaction < 2 ^ 32
    → ArePeers (peer_size is_ipv6) ps
    → 20 + length (compact ps) ≤ 1500
    → announce_response transaction is_ipv6 (
        put_uint32 udp_action_announce
        ++ (put_uint32 transaction
            ++ (put_uint32 a ++ (put_uint32 b ++ (put_uint32 c ++ compact ps)))))
      ≡ ok (usable_peers ps)
unfolding announce_response word_at put_uint32 get_uint32
announce_response-compact transaction a b c is_ipv6 ps h all le =
    let t = get-put_uint32 transaction h in
    let same : (transaction == transaction) ≡ true = ground arith in
    let kept : take 1480 (compact ps) ≡ compact ps = take_all 1480 (compact ps) (omega arith) in
    let long : (k : ℕ)
        → k ≤ 20
        → ltb
            (suc (
              suc (
                suc (
                  suc (
                    suc (
                      suc (
                        suc (
                          suc (
                            suc (
                              suc (
                                suc (
                                  suc (
                                    suc (
                                      suc (
                                        suc (
                                          suc (
                                            suc (
                                              suc
                                                (suc (suc (length (compact ps))))))))))))))))))))))
            k
          ≡ false =
      λ k h. ground arith in
    rw (kept, t, same, long 8 (omega arith), long 20 (omega arith))
      (ap ok (parse_compact_peers-compact is_ipv6 ps all))
