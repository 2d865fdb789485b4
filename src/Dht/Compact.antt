-- ===== src/Dht/Compact.antt =====
-- internal/dht/dht.go: contacts in their compact form, of 26 bytes with an IPv4 address and of 38 with
-- an IPv6 address.
pub mod RoundTrip
use sid_torrent.Prelude.{
  ℕ, zero, suc, ◌+◌, ◌-◌, ◌%◌, Bool, true, false, not, ◌&&◌, Option, none, some, List, [], ◌∷◌,
  ◌++◌, ltb, ◌==◌, if◌then◌else◌, length, take, drop, get_or, slice,
}
use sid_torrent.Prelude.Bytes.{Bytes, bytes_equal}
use sid_torrent.Prelude.Words.{put_uint16, get_uint16}
use sid_torrent.Dht.Kademlia.{Contact}

-- `net.IP.To4`: an address of 4 bytes, or of 16 bytes with the prefix of a mapped one.
unfoldable pub to4 : Bytes → Option Bytes
to4 ip =
    if length ip == 4
    then some ip
    else if (length ip == 16)
        && bytes_equal (take 12 ip) (0 ∷ 0 ∷ 0 ∷ 0 ∷ 0 ∷ 0 ∷ 0 ∷ 0 ∷ 0 ∷ 0 ∷ 255 ∷ 255 ∷ [])
    then some (drop 12 ip)
    else none

unfoldable pub node_size : Bytes → ℕ
node_size content =
    if (length content % 38) == 0 && not ((length content % 26) == 0) then 38 else 26

-- One contact of `size` bytes at the front.
unfoldable pub read_contact : ℕ → Bytes → Contact
read_contact size content = record {
  id = take 20 content;
  ip = slice content 20 (size - 22);
  port = get_uint16 (get_or content (size - 2) 0) (get_or content (size - 1) 0);
}

-- The loop: what is left of the data, with fuel for as many rounds as it has bytes.
unfoldable pub read_contacts : ℕ → ℕ → Bytes → List Contact
unfolding read_contact
read_contacts zero size content = []
read_contacts (suc f) size content =
    let rest = read_contacts f size (drop size content) in
    if ltb (length content) size then [] else read_contact size content ∷ rest

-- `parseCompactNodes`
unfoldable pub parse_compact_nodes : Bytes → List Contact
unfolding node_size read_contacts
parse_compact_nodes content = read_contacts (length content) (node_size content) content

unfoldable pub pack_ip : Bytes → Bytes
unfolding to4
pack_ip ip = elim (to4 ip) [ none ↦ ip | some ip4 ↦ ip4 ]

-- `packCompactNodes`
unfoldable pub pack_compact_nodes : List Contact → Bytes
unfolding pack_ip
pack_compact_nodes [] = []
pack_compact_nodes (c ∷ cs) = c.id ++ (pack_ip c.ip ++ (put_uint16 c.port ++ pack_compact_nodes cs))
