-- ===== src/Dht/Kademlia.antt =====
-- internal/dht/kademlia.go. An id is an array of 20 bytes, a condition where it matters.
pub mod Bucket
pub mod Closest
pub mod Table
use sid_torrent.Prelude.{
  ℕ, zero, suc, ◌+◌, ◌-◌, ◌*◌, ◌/◌, ◌%◌, ◌^◌, Bool, true, false, not, ◌&&◌, Option, none, some,
  List, [], ◌∷◌, ◌++◌, ltb, leb, ◌==◌, if◌then◌else◌, length, take, set, get_or, replicate,
}
use sid_torrent.Prelude.Bytes.{Bytes, bytes_equal, bytes_less}
use sid_torrent.Peer.Bitfield.{has_bit}

-- The package's `K`.
abbrev pub bucket_size : ℕ
bucket_size = 8

pub record Contact : Type 0 where
  pub id : Bytes
  pub ip : Bytes
  pub port : ℕ

-- The contacts without the one at which the loop of `Add` stops, if it does.
unfoldable pub without : Bytes → List Contact → Option (List Contact)
without id [] = none
without id (c ∷ cs) =
    let rest = without id cs in
    if bytes_equal c.id id then some cs else elim rest [ none ↦ none | some ds ↦ some (c ∷ ds) ]

unfoldable pub add_or_refresh : List Contact → Contact → Option (List Contact) → List Contact
add_or_refresh cs contact (some ds) = ds ++ contact ∷ []
add_or_refresh cs contact none = if ltb (length cs) bucket_size then cs ++ contact ∷ [] else cs

-- `KBucket.Add`
unfoldable pub add : List Contact → Contact → List Contact
unfolding without add_or_refresh
add cs contact = add_or_refresh cs contact (without contact.id cs)

-- `a ^ b` of bytes, from the high bit down.
unfoldable pub xor_bits : ℕ → ℕ → ℕ → ℕ
unfolding has_bit
xor_bits zero a b = 0
xor_bits (suc k) a b =
    let rest = xor_bits k a b in
    let same = (a / 2 ^ k % 2) == (b / 2 ^ k % 2) in if same then rest else 2 ^ k + rest

unfoldable pub distance : Bytes → Bytes → Bytes
unfolding xor_bits
distance [] [] = []
distance (a ∷ rest1) (b ∷ rest2) = xor_bits 8 a b ∷ distance rest1 rest2
distance _ _ = []

-- The first bit that is set, from `0x80 >> bit` on, as many as `left`.
unfoldable pub first_bit : ℕ → ℕ → ℕ → Option ℕ
unfolding has_bit
first_bit b bit zero = none
first_bit b bit (suc left) =
    let rest = first_bit b (suc bit) left in if has_bit b (7 - bit) then some bit else rest

unfoldable pub index_from : ℕ → Bytes → ℕ
unfolding first_bit
index_from i [] = 159
index_from i (b ∷ dist) =
    let rest = index_from (suc i) dist in
    if b == 0 then rest else elim (first_bit b 0 8) [ none ↦ rest | some bit ↦ i * 8 + bit ]

-- `BucketIndex`
unfoldable pub bucket_index : Bytes → Bytes → ℕ
unfolding distance index_from
bucket_index id1 id2 = index_from 0 (distance id1 id2)

pub record RoutingTable : Type 0 where
  pub self_id : Bytes
  pub buckets : List (List Contact)

unfoldable pub new_routing_table : Bytes → RoutingTable
new_routing_table self_id = record { self_id = self_id; buckets = replicate 160 [] }

-- `RoutingTable.Add`
unfoldable pub add_contact : RoutingTable → Contact → RoutingTable
unfolding bucket_index add
add_contact rt contact =
    let index = bucket_index rt.self_id contact.id in
    if bytes_equal contact.id rt.self_id
    then rt
    else record rt { buckets = set rt.buckets index (add (get_or rt.buckets index []) contact) }

unfoldable pub all_contacts : List (List Contact) → List Contact
all_contacts [] = []
all_contacts (cs ∷ css) = cs ++ all_contacts css

-- The comparison that `sort.Slice` gets.
unfoldable pub closer : Bytes → Contact → Contact → Bool
unfolding distance
closer target a b = bytes_less (distance a.id target) (distance b.id target)

-- `sort.Slice`, which is free in the order of equal elements; this one keeps it.
unfoldable pub insert_contact : Bytes → Contact → List Contact → List Contact
unfolding closer
insert_contact target c [] = c ∷ []
insert_contact target c (d ∷ ds) =
    if closer target d c then d ∷ insert_contact target c ds else c ∷ d ∷ ds

unfoldable pub sort_contacts : Bytes → List Contact → List Contact
unfolding insert_contact
sort_contacts target [] = []
sort_contacts target (c ∷ cs) = insert_contact target c (sort_contacts target cs)

-- `ClosestNodes`
unfoldable pub closest_nodes : RoutingTable → Bytes → ℕ → List Contact
unfolding all_contacts sort_contacts
closest_nodes rt target count =
    let all = sort_contacts target (all_contacts rt.buckets) in
    if ltb count (length all) then take count all else all
