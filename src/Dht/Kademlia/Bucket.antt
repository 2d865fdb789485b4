-- ===== src/Dht/Kademlia/Bucket.antt =====
-- internal/dht/kademlia.go: `KBucket`.
use sid_torrent.Prelude.{
  suc, ◌≤◌, ◌≡◌, refl, ◌∙◌, ap, Bool, true, false, ◌||◌, ◌&&◌, subst, Bool-cases, inl, inr,
  Option-cases, none, some, List, [], ◌∷◌, ◌++◌, arith, ltb, if◌then◌else◌, length, length-append,
}
use sid_torrent.Prelude.Bytes.{
  Bytes, bytes_equal, bytes_equal→eq, bytes_equal_refl, bytes_equal_sym,
}
use sid_torrent.Dht.Kademlia.{Contact, bucket_size, without, add_or_refresh, add}

-- Is there a contact with the id?
abbrev pub knows : Bytes → List Contact → Bool
knows id [] = false
knows id (c ∷ cs) = if bytes_equal c.id id then true else knows id cs

abbrev pub DistinctIds : List Contact → Type 0
DistinctIds [] = Unit
DistinctIds (c ∷ cs) = (knows c.id cs ≡ false) × DistinctIds cs

pub record IsBucket (cs : List Contact) : Type 0 where
  pub bounded : length cs ≤ bucket_size
  pub distinct : DistinctIds cs

knows-snoc :
    (id : Bytes) (cs : List Contact) (c : Contact)
    → knows id (cs ++ c ∷ []) ≡ (if knows id cs then true else bytes_equal c.id id)
knows-snoc id [] c = ground arith
knows-snoc id (d ∷ cs) c = ground (arith, knows-snoc id cs c)

snoc-DistinctIds :
    (cs : List Contact) (c : Contact)
    → DistinctIds cs
    → knows c.id cs ≡ false
    → DistinctIds (cs ++ c ∷ [])
snoc-DistinctIds [] c d h = (refl, tt)
snoc-DistinctIds (e ∷ cs) c (fresh, d) h = elim (Bool-cases (bytes_equal e.id c.id)) [
  | inl same ↦ cc (rw same at h)
  | inr other ↦ (
    ground (arith, knows-snoc e.id cs c, fresh, bytes_equal_sym c.id e.id, other),
    snoc-DistinctIds cs c d (rw other at h),
  )
]

-- What `without` gives.
without-none : (id : Bytes) (cs : List Contact) → without id cs ≡ none → knows id cs ≡ false
unfolding without
without-none id [] h = refl
without-none id (c ∷ cs) h = elim (Bool-cases (bytes_equal c.id id)) [
  | inl same ↦ cc (rw same at h)
  | inr other ↦ rw other (elim (Option-cases (without id cs)) [
    | inl e ↦ without-none id cs e
    | inr (ds, e) ↦ cc (rw (other, e) at h)
  ])
]

-- `ds` is the bucket without its contact of that id.
record Removed (id : Bytes) (cs ds : List Contact) : Type 0 where
  shorter : length cs ≡ suc (length ds)
  gone : knows id ds ≡ false
  distinct : DistinctIds ds
  known : (j : Bytes) → knows j cs ≡ (if bytes_equal id j then true else knows j ds)

without-Removed :
    (id : Bytes) (cs : List Contact) {ds : List Contact}
    → without id cs ≡ some ds
    → DistinctIds cs
    → Removed id cs ds
unfolding without
without-Removed id [] h d = cc
without-Removed id (c ∷ cs) {ds} h (fresh, d) = elim (Bool-cases (bytes_equal c.id id)) [
  | inl same ↦
      let e : cs ≡ ds = cc (rw same at h) in
      let name = bytes_equal→eq c.id id same in
      subst (Removed id (c ∷ cs)) e
        (record { shorter = refl; gone = rw name at fresh; distinct = d; known = λ j. rw name })
  | inr other ↦ elim (Option-cases (without id cs)) [
    | inl e ↦ cc (rw (other, e) at h)
    | inr (ds', e) ↦
        let r = without-Removed id cs e d in
        let same : c ∷ ds' ≡ ds = cc (rw (other, e) at h) in
        subst (Removed id (c ∷ cs)) same (record {
          shorter = ap suc r.shorter;
          gone = rw other r.gone;
          distinct =
              (ground (arith, r.known c.id, fresh, bytes_equal_sym id c.id, other), r.distinct);
          known = λ j. ground (arith, r.known j, differ j other);
        })
  ]
]
  where
    differ :
        (j : Bytes)
        → bytes_equal c.id id ≡ false
        → bytes_equal c.id j ≡ true
        → bytes_equal id j ≡ false
    differ j other h = elim (Bool-cases (bytes_equal id j)) [
      | inr apart ↦ apart
      | inl alike ↦
          let e = bytes_equal→eq c.id j h in
          let e' = bytes_equal→eq id j alike in cc (rw (e, e') at other, bytes_equal_refl j)
    ]

-- `Add` keeps a bucket at eight contacts at most, each id once.
pub add-IsBucket : (cs : List Contact) (c : Contact) → IsBucket cs → IsBucket (add cs c)
unfolding add add_or_refresh
add-IsBucket cs c b = elim (Option-cases (without c.id cs)) [
  | inr (ds, e) ↦
      let r = without-Removed c.id cs e b.distinct in
      rw e (record {
        bounded = omega (arith, length-append ds (c ∷ []), b.bounded, r.shorter);
        distinct = snoc-DistinctIds ds c r.distinct r.gone;
      })
  | inl e ↦ elim (Bool-cases (ltb (length cs) bucket_size)) [
    | inl room ↦
        rw (e, room)
          (record {
            bounded = ground (arith, length-append cs (c ∷ []));
            distinct = snoc-DistinctIds cs c b.distinct (without-none c.id cs e);
          })
    | inr full ↦ rw (e, full) b
  ]
]

-- Which ids a bucket knows after `Add`: that of the contact too, unless the bucket is full and did not
-- know it; no other id comes or goes.
pub knows-add :
    (cs : List Contact) (c : Contact) (j : Bytes)
    → IsBucket cs
    → knows j (add cs c) ≡ (
        if (knows c.id cs || ltb (length cs) bucket_size) && bytes_equal c.id j
        then true
        else knows j cs)
unfolding add add_or_refresh
knows-add cs c j b = elim (Option-cases (without c.id cs)) [
  | inr (ds, e) ↦
      let r = without-Removed c.id cs e b.distinct in
      let here : knows c.id cs ≡ true = r.known c.id ∙ rw (bytes_equal_refl c.id) refl in
      rw e (ground (arith, knows-snoc j ds c, r.known j, here))
  | inl e ↦
      let absent = without-none c.id cs e in
      elim (Bool-cases (ltb (length cs) bucket_size)) [
        | inl room ↦ rw (e, room) (ground (arith, knows-snoc j cs c))
        | inr full ↦ rw (e, full) (ground (arith, absent))
      ]
]
