-- ===== src/Dht/Compact/RoundTrip.antt =====
-- internal/dht/dht.go: contacts that are packed and parsed.
use sid_torrent.Prelude.{
  ℕ, zero, suc, ◌+◌, ◌-◌, ◌*◌, ◌/◌, ◌%◌, ◌^◌, ◌<◌, ◌≤◌, ◌≡◌, ◌≢◌, refl, ◌∙◌, true, false, not, ◌&&◌,
  Bool-cases, inl, inr, List, [], ◌∷◌, ◌++◌, arith, ltb, ◌==◌, length, length-append, length-drop,
  drop, part, behind, drop_add, get_or-append,
}
use sid_torrent.Prelude.Bytes.{Bytes}
use sid_torrent.Prelude.Words.{put_uint16, get-put_uint16}
use sid_torrent.Dht.Kademlia.{Contact}
use sid_torrent.Dht.Compact.{
  node_size, read_contact, read_contacts, parse_compact_nodes, pack_ip, pack_compact_nodes,
}

-- A contact that packs to `size` bytes.
pub record Fits (size : ℕ) (c : Contact) : Type 0 where
  pub id_size : length c.id ≡ 20
  pub ip_size : length c.ip ≡ size - 22
  pub ip_kept : pack_ip c.ip ≡ c.ip
  pub port_range : c.port < 2 ^ 16

abbrev pub AllFit : ℕ → List Contact → Type 0
AllFit size [] = Unit
AllFit size (c ∷ cs) = Fits size c × AllFit size cs

module _ (size : ℕ) (big : 24 ≤ size) where
  packed : Contact → Bytes
  packed c = c.id ++ (c.ip ++ put_uint16 c.port)

  front :
      (c : Contact) (rest : Bytes)
      → Fits size c
      → (length (c.id ++ (c.ip ++ (put_uint16 c.port ++ rest))) ≡ size + length rest)
        × (read_contact size (c.id ++ (c.ip ++ (put_uint16 c.port ++ rest))) ≡ c)
        × (drop size (c.id ++ (c.ip ++ (put_uint16 c.port ++ rest))) ≡ rest)
  unfolding read_contact put_uint16
  front c rest f =
      let a = f.id_size in
      let b = f.ip_size in
      let tail = put_uint16 c.port ++ rest in
      let whole = c.id ++ (c.ip ++ tail) in
      let e2 : length c.id + (length c.ip + 0) ≡ size - 2 = omega arith in
      let e1 : length c.id + (length c.ip + 1) ≡ size - 1 = omega arith in
      let e0 : length c.id + (length c.ip + 2) ≡ size = omega arith in
      let e20 : length c.id + 0 ≡ 20 = omega arith in
      let hi =
        rw e2 at
          (get_or-append c.id (c.ip ++ tail) (length c.ip + 0) 0 ∙ get_or-append c.ip tail 0 0) in
      let lo =
        rw e1 at
          (get_or-append c.id (c.ip ++ tail) (length c.ip + 1) 0 ∙ get_or-append c.ip tail 1 0) in
      let end = rw e0 at (drop_add c.id (c.ip ++ tail) (length c.ip + 2) ∙ drop_add c.ip tail 2) in
      let middle = behind c.id (c.ip ++ tail) 20 a in
      (
        omega (arith, length-append c.id (c.ip ++ tail), length-append c.ip tail),
        rw
            (
              part c.id (c.ip ++ tail) 20 a,
              middle,
              part c.ip tail (size - 22) b,
              hi,
              lo,
              get-put_uint16 c.port f.port_range,
            )
            refl,
        end,
      )

  read_contacts-pack :
      (f : ℕ) (cs : List Contact)
      → AllFit size cs
      → length (pack_compact_nodes cs) ≤ f
      → read_contacts f size (pack_compact_nodes cs) ≡ cs
  unfolding read_contacts pack_compact_nodes
  read_contacts-pack zero [] all le = refl
  read_contacts-pack (suc f) [] all le =
      let short : ltb 0 size ≡ true = ground arith in rw short refl
  read_contacts-pack zero (c ∷ cs) (fit, all) le =
      let (long, _, _) = front c (pack_compact_nodes cs) fit in
      absurd (omega (arith, rw fit.ip_kept at le))
  read_contacts-pack (suc f) (c ∷ cs) (fit, all) le =
      let (long, first, rest) = front c (pack_compact_nodes cs) fit in
      let le' = rw fit.ip_kept at le in
      let enough : ltb (length (c.id ++ (c.ip ++ (put_uint16 c.port ++ pack_compact_nodes cs))))
            size
          ≡ false =
        ground (arith, long) in
      rw (fit.ip_kept, enough, first, rest, read_contacts-pack f cs all (omega arith)) refl

pub length-pack26 :
    (cs : List Contact) → AllFit 26 cs → length (pack_compact_nodes cs) ≡ 26 * length cs
unfolding pack_compact_nodes
length-pack26 [] all = refl
length-pack26 (c ∷ cs) (fit, all) =
    let (long, _, _) = front 26 (omega arith) c (pack_compact_nodes cs) fit in
    rw fit.ip_kept (omega (arith, long, length-pack26 cs all))

length-pack38 : (cs : List Contact) → AllFit 38 cs → length (pack_compact_nodes cs) ≡ 38 * length cs
unfolding pack_compact_nodes
length-pack38 [] all = refl
length-pack38 (c ∷ cs) (fit, all) =
    let (long, _, _) = front 38 (omega arith) c (pack_compact_nodes cs) fit in
    rw fit.ip_kept (omega (arith, long, length-pack38 cs all))

-- Contacts with IPv4 addresses, packed by `packCompactNodes`, are what `parseCompactNodes` gives back.
pub parse_compact_nodes-pack :
    (cs : List Contact) → AllFit 26 cs → parse_compact_nodes (pack_compact_nodes cs) ≡ cs
unfolding parse_compact_nodes node_size
parse_compact_nodes-pack cs all =
    let long = length-pack26 cs all in
    let four : ((length (pack_compact_nodes cs) % 38) == 0
          && not ((length (pack_compact_nodes cs) % 26) == 0))
        ≡ false =
      ground arith in
    rw four
      (read_contacts-pack 26 (omega arith) (length (pack_compact_nodes cs)) cs all (omega arith))

-- So are contacts with IPv6 addresses, unless their number is a multiple of 13.
pub parse_compact_nodes-pack6 :
    (cs : List Contact)
    → AllFit 38 cs
    → length cs % 13 ≢ 0
    → parse_compact_nodes (pack_compact_nodes cs) ≡ cs
unfolding parse_compact_nodes node_size
parse_compact_nodes-pack6 cs all odd =
    let long = length-pack38 cs all in
    let six : ((length (pack_compact_nodes cs) % 38) == 0
          && not ((length (pack_compact_nodes cs) % 26) == 0))
        ≡ true =
      ground arith in
    rw six
      (read_contacts-pack 38 (omega arith) (length (pack_compact_nodes cs)) cs all (omega arith))

length-read_contacts :
    (f : ℕ) (content : Bytes)
    → length content ≤ f
    → length (read_contacts f 26 content) ≡ length content / 26
unfolding read_contacts
length-read_contacts zero content le = omega arith
length-read_contacts (suc f) content le = elim (Bool-cases (ltb (length content) 26)) [
  | inl short ↦ rw short (ground arith)
  | inr long ↦
      let fewer = length-drop 26 content in
      rw long (
        ground
          (arith, length-read_contacts f (drop 26 content) (ground (arith, fewer)), fewer, long))
]

-- Thirteen contacts with IPv6 addresses are taken for nineteen with IPv4 addresses.
pub parse_compact_nodes_thirteen :
    (cs : List Contact)
    → AllFit 38 cs
    → length cs ≡ 13
    → length (parse_compact_nodes (pack_compact_nodes cs)) ≡ 19
unfolding parse_compact_nodes node_size
parse_compact_nodes_thirteen cs all h =
    let long = length-pack38 cs all in
    let four : ((length (pack_compact_nodes cs) % 38) == 0
          && not ((length (pack_compact_nodes cs) % 26) == 0))
        ≡ false =
      ground arith in
    rw four (
      length-read_contacts (length (pack_compact_nodes cs)) (pack_compact_nodes cs) (omega arith)
      ∙ omega arith)
