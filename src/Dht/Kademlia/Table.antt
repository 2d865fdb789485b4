-- ===== src/Dht/Kademlia/Table.antt =====
-- internal/dht/kademlia.go: `RoutingTable`.
use sid_torrent.Prelude.{
  ℕ, zero, suc, ◌+◌, ◌<◌, ◌≤◌, ◌≡◌, refl, sym, ◌∙◌, ap, true, false, Bool-cases, Option-cases, inl,
  inr, some, List, [], ◌∷◌, arith, ◌==◌, if◌then◌else◌, length, set, length-set, get_or, replicate,
  length-replicate,
}
use sid_torrent.Prelude.Bytes.{Bytes, bytes_equal, bytes_equal→eq}
use sid_torrent.Dht.Kademlia.{
  Contact, RoutingTable, distance, first_bit, index_from, bucket_index, add, new_routing_table,
  add_contact,
}
use sid_torrent.Dht.Kademlia.Bucket.{knows, IsBucket, add-IsBucket, knows-add}

first_bit-lt : (b bit left : ℕ) {k : ℕ} → first_bit b bit left ≡ some k → k < bit + left
unfolding first_bit
first_bit-lt b bit zero h = cc
first_bit-lt b bit (suc left) {k = k} h = ground (arith, first_bit-lt b (suc bit) left {k = k})

index_from-lt : (i : ℕ) (dist : Bytes) → i + length dist ≤ 20 → index_from i dist < 160
unfolding index_from
index_from-lt i [] h = omega arith
index_from-lt i (b ∷ dist) h =
    let rest = index_from-lt (suc i) dist (omega arith) in
    elim (Option-cases (first_bit b 0 8)) [
      | inl e ↦ rw e (ground arith)
      | inr (bit, e) ↦ let k = first_bit-lt b 0 8 e in rw e (ground arith)
    ]

length-distance : (id1 id2 : Bytes) → length (distance id1 id2) ≤ length id1
unfolding distance
length-distance [] [] = omega arith
length-distance [] (b ∷ id2) = omega arith
length-distance (a ∷ id1) [] = omega arith
length-distance (a ∷ id1) (b ∷ id2) = omega (arith, length-distance id1 id2)

-- `BucketIndex` of two ids of 20 bytes is the index of one of the 160 buckets.
pub bucket_index-lt : (id1 id2 : Bytes) → length id1 ≡ 20 → bucket_index id1 id2 < 160
unfolding bucket_index
bucket_index-lt id1 id2 h =
    index_from-lt 0 (distance id1 id2) (omega (arith, length-distance id1 id2))

pub record IsTable (rt : RoutingTable) : Type 0 where
  pub self_size : length rt.self_id ≡ 20
  pub size : length rt.buckets ≡ 160
  pub bucketed : (i : ℕ) → IsBucket (get_or rt.buckets i [])
  -- Who is in a bucket is at the bucket's distance.
  pub placed :
      (i : ℕ) (id : Bytes)
      → knows id (get_or rt.buckets i []) ≡ true
      → bucket_index rt.self_id id ≡ i
  pub not_self : (i : ℕ) → knows rt.self_id (get_or rt.buckets i []) ≡ false

get_or-set :
    (bs : List (List Contact)) (i j : ℕ) (v : List Contact)
    → i < length bs
    → get_or (set bs i v) j [] ≡ (if i == j then v else get_or bs j [])
get_or-set [] i j v h = absurd (omega arith)
get_or-set (b ∷ bs) zero zero v h = refl
get_or-set (b ∷ bs) zero (suc j) v h = ground arith
get_or-set (b ∷ bs) (suc i) zero v h = ground arith
get_or-set (b ∷ bs) (suc i) (suc j) v h = ground (arith, get_or-set bs i j v)

get_or-replicate : (n j : ℕ) → get_or {A = List Contact} (replicate n []) j [] ≡ []
get_or-replicate zero j = refl
get_or-replicate (suc n) zero = refl
get_or-replicate (suc n) (suc j) = get_or-replicate n j

-- `NewRoutingTable` for an id of 20 bytes is a valid table.
pub new_routing_table-IsTable : (id : Bytes) → length id ≡ 20 → IsTable (new_routing_table id)
unfolding new_routing_table
new_routing_table-IsTable id h = record {
  self_size = h;
  size = length-replicate {A = List Contact} 160 [];
  bucketed = λ i. rw (get_or-replicate 160 i) (record { bounded = omega arith; distinct = tt });
  placed = λ i j k. cc (rw (get_or-replicate 160 i) at k);
  not_self = λ i. rw (get_or-replicate 160 i) refl;
}

module _ (rt : RoutingTable) (c : Contact) (t : IsTable rt) where
  abbrev index : ℕ
  index = bucket_index rt.self_id c.id

  at_place :
      (j : ℕ)
      → get_or (set rt.buckets index (add (get_or rt.buckets index []) c)) j []
        ≡ (if index == j then add (get_or rt.buckets index []) c else get_or rt.buckets j [])
  at_place j =
      get_or-set rt.buckets index j _
        (omega (arith, t.size, bucket_index-lt rt.self_id c.id t.self_size))

  at_distance :
      (i : ℕ) (id : Bytes)
      → knows id (if index == i then add (get_or rt.buckets index []) c else get_or rt.buckets i [])
        ≡ true
      → bucket_index rt.self_id id ≡ i
  at_distance i id k = elim (Bool-cases (index == i)) [
    | inr e ↦ t.placed i id (rw e at k)
    | inl e ↦
        let same : index ≡ i = ground arith in
        elim (Bool-cases (bytes_equal c.id id)) [
          | inl alike ↦ ap (bucket_index rt.self_id) (sym (bytes_equal→eq c.id id alike)) ∙ same
          | inr other ↦
              let old : knows id (get_or rt.buckets index []) ≡ true = ground (
                arith,
                knows-add (get_or rt.buckets index []) c id (t.bucketed index),
                rw e at k,
                other,
              ) in
              t.placed index id old ∙ same
        ]
  ]

-- `Add` keeps a valid table valid: 160 buckets of at most eight contacts with different ids, each at
-- the bucket's distance, and never the table's own id.
pub add_contact-IsTable :
    (rt : RoutingTable) (c : Contact) → IsTable rt → IsTable (add_contact rt c)
unfolding add_contact
add_contact-IsTable rt c t = elim (Bool-cases (bytes_equal c.id rt.self_id)) [
  | inl itself ↦ rw itself t
  | inr other ↦
      let here = index rt c t in
      let b = t.bucketed here in
      rw other (record {
        self_size = t.self_size;
        size = length-set rt.buckets here _ ∙ t.size;
        bucketed = λ i. rw (at_place rt c t i) (elim (Bool-cases (here == i)) [
          | inl e ↦ rw e (add-IsBucket _ c b)
          | inr e ↦ rw e (t.bucketed i)
        ]);
        placed = λ i id k. at_distance rt c t i id (rw (at_place rt c t i) at k);
        not_self = λ i. rw (at_place rt c t i) (elim (Bool-cases (here == i)) [
          | inl e ↦ rw e (
              ground (
                arith,
                knows-add (get_or rt.buckets here []) c rt.self_id b,
                t.not_self here,
                other,
              ))
          | inr e ↦ rw e (t.not_self i)
        ]);
      })
]
