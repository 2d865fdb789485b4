-- ===== src/Peer/Handshake/RoundTrip.antt =====
-- internal/peer/handshake.go: `Handshake.Serialize` and `ReadHandshake` together.
use sid_torrent.Prelude.{
  ℕ, suc, ◌+◌, ◌%◌, ◌<◌, ◌≡◌, refl, ap, ◌∙◌, sym, Bool, true, false, ◌∷◌, ◌++◌, append_assoc, arith,
  ltb, if◌then◌else◌, length, get_or, slice, take, drop, length-append, take-append, part, behind,
  drop_add, get_or-append,
}
use sid_torrent.Prelude.Bytes.{Bytes}
use sid_torrent.Peer.Bitfield.{has_bit}
use sid_torrent.Peer.Handshake.{Handshake, reserved, serialize, got, read_handshake}

module _ (l : ℕ) (p r hash id rest : Bytes) (eight : length r ≡ 8) where
  abbrev buffer : Bytes
  buffer = l ∷ (p ++ (r ++ (hash ++ (id ++ rest))))

  past : (k : ℕ) → drop (length p + suc k) buffer ≡ drop k (r ++ (hash ++ (id ++ rest)))
  past k =
      let e : length p + suc k ≡ suc (length p + k) = omega arith in
      ap (λ t. drop t buffer) e ∙ drop_add p (r ++ (hash ++ (id ++ rest))) k

  hash_of : length hash ≡ 20 → slice buffer (length p + 9) 20 ≡ hash
  hash_of h =
      ap (take 20) (past 8 ∙ behind r (hash ++ (id ++ rest)) 8 eight) ∙ part hash (id ++ rest) 20 h

  id_of : length hash ≡ 20 → length id ≡ 20 → slice buffer (length p + 29) 20 ≡ id
  id_of h i =
      let e : length r + 20 ≡ 28 = omega arith in
      ap (take 20) (
        past 28
        ∙ ap (λ t. drop t (r ++ (hash ++ (id ++ rest)))) (sym e)
        ∙ drop_add r (hash ++ (id ++ rest)) 20
        ∙ behind hash (id ++ rest) 20 h)
      ∙ part id rest 20 i

  byte_of :
      (k : ℕ)
      → k < 8
      → get_or buffer (length p + suc k) 0 ≡ get_or (r ++ (hash ++ (id ++ rest))) k 0
  byte_of k h =
      let e : length p + suc k ≡ suc (length p + k) = omega arith in
      ap (λ t. get_or buffer t 0) e ∙ get_or-append p (r ++ (hash ++ (id ++ rest))) k 0

  long_enough : length hash ≡ 20 → length id ≡ 20 → ltb (length buffer) (length p + 49) ≡ false
  long_enough h i = ground (
    arith,
    length-append p (r ++ (hash ++ (id ++ rest))),
    length-append r (hash ++ (id ++ rest)),
    length-append hash (id ++ rest),
    length-append id rest,
  )

flag : (b : Bool) → has_bit (if b then 16 else 0) 4 ≡ b
unfolding has_bit
flag true = refl
flag false = refl

-- A handshake whose protocol name has fewer than 256 bytes, and whose hash and id have 20, is read
-- back from the front of what follows it as it was written.
pub read_handshake-serialize :
    (h : Handshake) (rest : Bytes)
    → length h.pstr < 256
    → length h.info_hash ≡ 20
    → length h.peer_id ≡ 20
    → read_handshake (serialize h ++ rest) ≡ got h
unfolding read_handshake serialize reserved
read_handshake-serialize h rest short hash id =
    let l : length h.pstr % 256 ≡ length h.pstr = omega arith in
    let r = reserved h.supports_extensions in
    let n = length h.pstr in
    rw (append_assoc h.pstr (r ++ (h.info_hash ++ h.peer_id)) rest) (
      rw (append_assoc r (h.info_hash ++ h.peer_id) rest) (
        rw (append_assoc h.info_hash h.peer_id rest) (
          rw l (
            rw (long_enough n h.pstr r h.info_hash h.peer_id rest refl hash id) (
              rw (
                take-append h.pstr (r ++ (h.info_hash ++ (h.peer_id ++ rest))),
                hash_of n h.pstr r h.info_hash h.peer_id rest refl hash,
                id_of n h.pstr r h.info_hash h.peer_id rest refl hash id,
                byte_of n h.pstr r h.info_hash h.peer_id rest refl 5 (omega arith),
                flag h.supports_extensions,
              ))))))
