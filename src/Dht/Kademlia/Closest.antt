-- ===== src/Dht/Kademlia/Closest.antt =====
-- internal/dht/kademlia.go: `ClosestNodes`.
use sid_torrent.Prelude.{
  ℕ, zero, suc, ◌≡◌, refl, ◌∙◌, ap, false, Bool-cases, ◌⊎◌, inl, inr, List, [], ◌∷◌, arith, ltb,
  if◌then◌else◌, length, take, length-take,
}
use sid_torrent.Prelude.Bytes.{Bytes, bytes_less_asym, bytes_less_neg_trans}
use sid_torrent.Dht.Kademlia.{
  Contact, RoutingTable, all_contacts, closer, insert_contact, sort_contacts, closest_nodes,
  distance,
}

abbrev pub In : Contact → List Contact → Type 0
In c [] = ⊥
In c (d ∷ ds) = (d ≡ c) ⊎ In c ds

module _ (target : Bytes) where
  -- None of the contacts is closer than `d`.
  abbrev pub NoneCloser : Contact → List Contact → Type 0
  NoneCloser d [] = Unit
  NoneCloser d (x ∷ xs) = (closer target x d ≡ false) × NoneCloser d xs

  abbrev pub IsSorted : List Contact → Type 0
  IsSorted [] = Unit
  IsSorted (d ∷ ds) = NoneCloser d ds × IsSorted ds

  insert_contact-NoneCloser :
      (d c : Contact) (ds : List Contact)
      → NoneCloser d ds
      → closer target c d ≡ false
      → NoneCloser d (insert_contact target c ds)
  unfolding insert_contact
  insert_contact-NoneCloser d c [] h k = (k, tt)
  insert_contact-NoneCloser d c (e ∷ ds) (g, h) k = elim (Bool-cases (closer target e c)) [
    | inl b ↦ rw b (g, insert_contact-NoneCloser d c ds h k)
    | inr b ↦ rw b (k, (g, h))
  ]

  NoneCloser-trans :
      (c d : Contact) (ds : List Contact)
      → closer target d c ≡ false
      → NoneCloser d ds
      → NoneCloser c ds
  unfolding closer
  NoneCloser-trans c d [] h k = tt
  NoneCloser-trans c d (e ∷ ds) h (g, k) = (
    bytes_less_neg_trans (distance e.id target) (distance d.id target) (distance c.id target) g h,
    NoneCloser-trans c d ds h k,
  )

  insert_contact-IsSorted :
      (c : Contact) (ds : List Contact) → IsSorted ds → IsSorted (insert_contact target c ds)
  unfolding insert_contact
  insert_contact-IsSorted c [] s = (tt, tt)
  insert_contact-IsSorted c (d ∷ ds) (n, s) = elim (Bool-cases (closer target d c)) [
    | inl b ↦
        let a : closer target c d ≡ false =
          unfold closer in (bytes_less_asym (distance d.id target) (distance c.id target) b) in
        rw b (insert_contact-NoneCloser d c ds n a, insert_contact-IsSorted c ds s)
    | inr b ↦ rw b ((b, NoneCloser-trans c d ds b n), (n, s))
  ]

  sort_contacts-IsSorted : (cs : List Contact) → IsSorted (sort_contacts target cs)
  unfolding sort_contacts
  sort_contacts-IsSorted [] = tt
  sort_contacts-IsSorted (c ∷ cs) = insert_contact-IsSorted c _ (sort_contacts-IsSorted cs)

  length-insert_contact :
      (c : Contact) (ds : List Contact) → length (insert_contact target c ds) ≡ suc (length ds)
  unfolding insert_contact
  length-insert_contact c [] = refl
  length-insert_contact c (d ∷ ds) = ground (arith, length-insert_contact c ds)

  length-sort_contacts : (cs : List Contact) → length (sort_contacts target cs) ≡ length cs
  unfolding sort_contacts
  length-sort_contacts [] = refl
  length-sort_contacts (c ∷ cs) =
      length-insert_contact c (sort_contacts target cs) ∙ ap suc (length-sort_contacts cs)

  -- Sorting neither loses a contact nor makes one.
  insert_contact-In_self : (c : Contact) (ds : List Contact) → In c (insert_contact target c ds)
  unfolding insert_contact
  insert_contact-In_self c [] = inl refl
  insert_contact-In_self c (d ∷ ds) = elim (Bool-cases (closer target d c)) [
    | inl b ↦ rw b (inr (insert_contact-In_self c ds))
    | inr b ↦ rw b (inl refl)
  ]

  insert_contact-In :
      (x c : Contact) (ds : List Contact) → In x ds → In x (insert_contact target c ds)
  unfolding insert_contact
  insert_contact-In x c [] h = absurd h
  insert_contact-In x c (d ∷ ds) (inl e) = elim (Bool-cases (closer target d c)) [
    | inl b ↦ rw b (inl e)
    | inr b ↦ rw b (inr (inl e))
  ]
  insert_contact-In x c (d ∷ ds) (inr i) = elim (Bool-cases (closer target d c)) [
    | inl b ↦ rw b (inr (insert_contact-In x c ds i))
    | inr b ↦ rw b (inr (inr i))
  ]

  In-insert_contact :
      (x c : Contact) (ds : List Contact) → In x (insert_contact target c ds) → In x (c ∷ ds)
  unfolding insert_contact
  In-insert_contact x c [] h = h
  In-insert_contact x c (d ∷ ds) h = elim (Bool-cases (closer target d c)) [
    | inl b ↦ swap (In-insert_contact x c ds) (rw b at h)
    | inr b ↦ rw b at h
  ]
    where
      swap :
          (In x (insert_contact target c ds) → In x (c ∷ ds))
          → In x (d ∷ insert_contact target c ds)
          → In x (c ∷ d ∷ ds)
      swap next (inl e) = inr (inl e)
      swap next (inr i) = elim (next i) [ inl e ↦ inl e | inr j ↦ inr (inr j) ]

  sort_contacts-In : (x : Contact) (cs : List Contact) → In x cs → In x (sort_contacts target cs)
  unfolding sort_contacts
  sort_contacts-In x [] h = h
  sort_contacts-In x (c ∷ cs) (inl e) =
      rw (← e) (insert_contact-In_self c (sort_contacts target cs))
  sort_contacts-In x (c ∷ cs) (inr i) =
      insert_contact-In x c (sort_contacts target cs) (sort_contacts-In x cs i)

  In-sort_contacts : (x : Contact) (cs : List Contact) → In x (sort_contacts target cs) → In x cs
  unfolding sort_contacts
  In-sort_contacts x [] h = h
  In-sort_contacts x (c ∷ cs) h = elim (In-insert_contact x c (sort_contacts target cs) h) [
    | inl e ↦ inl e
    | inr i ↦ inr (In-sort_contacts x cs i)
  ]

  NoneCloser-In :
      (d x : Contact) (ds : List Contact) → NoneCloser d ds → In x ds → closer target x d ≡ false
  NoneCloser-In d x [] n h = absurd h
  NoneCloser-In d x (e ∷ ds) (g, n) (inl same) = rw (← same) g
  NoneCloser-In d x (e ∷ ds) (g, n) (inr i) = NoneCloser-In d x ds n i

  -- What is cut off behind the first `n` is no closer than what is kept.
  take-closest :
      (n : ℕ) (x : Contact) (ds : List Contact)
      → IsSorted ds
      → In x ds
      → In x (take n ds) ⊎ ((d : Contact) → In d (take n ds) → closer target x d ≡ false)
  take-closest zero x ds s h = inr (λ d i. absurd i)
  take-closest (suc n) x [] s h = absurd h
  take-closest (suc n) x (e ∷ ds) (none_closer, s) (inl same) = inl (inl same)
  take-closest (suc n) x (e ∷ ds) (none_closer, s) (inr i) = elim (take-closest n x ds s i) [
    | inl kept ↦ inl (inr kept)
    | inr f ↦ inr (λ d j. elim j [
      | inl same ↦ rw (← same) (NoneCloser-In e x ds none_closer i)
      | inr k ↦ f d k
    ])
  ]

  take-In : (n : ℕ) (x : Contact) (ds : List Contact) → In x (take n ds) → In x ds
  take-In zero x ds h = absurd h
  take-In (suc n) x [] h = h
  take-In (suc n) x (d ∷ ds) (inl e) = inl e
  take-In (suc n) x (d ∷ ds) (inr i) = inr (take-In n x ds i)

  take-NoneCloser :
      (n : ℕ) (d : Contact) (ds : List Contact) → NoneCloser d ds → NoneCloser d (take n ds)
  take-NoneCloser zero d ds h = tt
  take-NoneCloser (suc n) d [] h = tt
  take-NoneCloser (suc n) d (e ∷ ds) (g, h) = (g, take-NoneCloser n d ds h)

  take-IsSorted : (n : ℕ) (ds : List Contact) → IsSorted ds → IsSorted (take n ds)
  take-IsSorted zero ds s = tt
  take-IsSorted (suc n) [] s = tt
  take-IsSorted (suc n) (d ∷ ds) (h, s) = (take-NoneCloser n d ds h, take-IsSorted n ds s)

  -- The contacts `cs` are the closest ones among `all`, the closest first, and at most `count`.
  pub record AreClosest (count : ℕ) (all cs : List Contact) : Type 0 where
    pub size : length cs ≡ (if ltb count (length all) then count else length all)
    pub sorted : IsSorted cs
    pub from_table : (x : Contact) → In x cs → In x all
    pub best :
        (x : Contact) → In x all → In x cs ⊎ ((d : Contact) → In d cs → closer target x d ≡ false)

-- `ClosestNodes` gives as many contacts of the table as asked for, or all if there are fewer, the
-- closest to the target first; a contact of the table that it does not give is no closer than any
-- that it gives.
pub closest_nodes-AreClosest :
    (rt : RoutingTable) (target : Bytes) (count : ℕ)
    → AreClosest target count (all_contacts rt.buckets) (closest_nodes rt target count)
unfolding closest_nodes
closest_nodes-AreClosest rt target count =
    let all = all_contacts rt.buckets in
    let sorted = sort_contacts target all in
    let s = sort_contacts-IsSorted target all in
    let size = length-sort_contacts target all in
    elim (Bool-cases (ltb count (length sorted))) [
      | inl cut ↦ rw cut (record {
        size = ground (arith, length-take count sorted, size, cut);
        sorted = take-IsSorted target count sorted s;
        from_table = λ x h. In-sort_contacts target x all (take-In target count x sorted h);
        best = λ x h. take-closest target count x sorted s (sort_contacts-In target x all h);
      })
      | inr whole ↦ rw whole (record {
        size = ground (arith, size, whole);
        sorted = s;
        from_table = λ x h. In-sort_contacts target x all h;
        best = λ x h. inl (sort_contacts-In target x all h);
      })
    ]
