-- ===== src/Dht/Node/Search/Found.antt =====
-- internal/dht/dht.go: the contacts that `SearchPeers` asks, and the peers that it gives.
use sid_torrent.Prelude.{
  ℕ, zero, suc, ◌≡◌, ◌⊎◌, inl, inr, refl, true, false, List, [], ◌∷◌, ◌++◌, arith, Bool-cases,
  Option-cases,
}
use sid_torrent.Prelude.Bytes.{Bytes, bytes_equal_refl}
use sid_torrent.Dht.Kademlia.{Contact, RoutingTable, bucket_size, closest_nodes}
use sid_torrent.Dht.Node.{waits}
use sid_torrent.Dht.Node.Search.{
  Search, Answers, seen, discover, take_answer, ask, visit, rounds, search_peers,
}
use sid_torrent.Tracker.Peers.{TrackerPeer}
pub use sid_torrent.Dht.Node.Search.Discovered.{IsSearch}
use sid_torrent.Dht.Node.Search.Discovered.{
  Has, peers_in, AreHeard, AreTold, discover-AreDistinct, discover-AllSeen, AllSeen-discover,
}

module _ (query : Answers) where
  AreHeard-discover :
      (ids : List Bytes) (ps found : List TrackerPeer)
      → AreHeard query ids found
      → AreHeard query ids (discover ps found)
  AreHeard-discover [] ps found h = tt
  AreHeard-discover (id ∷ ids) ps found ((c, e, all), h) =
      ((c, e, AllSeen-discover _ ps found all), AreHeard-discover ids ps found h)

  AreTold-append :
      (ids : List Bytes) (ps qs : List TrackerPeer)
      → AreTold query ids ps
      → AreTold query ids qs
      → AreTold query ids (ps ++ qs)
  AreTold-append ids [] qs h k = k
  AreTold-append ids (p ∷ ps) qs (t, h) k = (t, AreTold-append ids ps qs h k)

  discover-AreTold :
      (ids : List Bytes) (ps found : List TrackerPeer)
      → AreTold query ids ps
      → AreTold query ids found
      → AreTold query ids (discover ps found)
  unfolding discover
  discover-AreTold ids [] found h k = k
  discover-AreTold ids (p ∷ ps) found (t, h) k = elim (Bool-cases (seen p found)) [
    | inl old ↦ rw old (discover-AreTold ids ps found h k)
    | inr new ↦
        rw new (discover-AreTold ids ps (found ++ p ∷ []) h (AreTold-append ids found _ k (t, tt)))
  ]

  -- One more id loses no teller.
  AreTold-cons :
      (id : Bytes) (ids : List Bytes) (ps : List TrackerPeer)
      → AreTold query ids ps
      → AreTold query (id ∷ ids) ps
  unfolding waits
  AreTold-cons id ids [] h = tt
  AreTold-cons id ids (p ∷ ps) ((c, e, m), h) = ((c, ground arith, m), AreTold-cons id ids ps h)

  -- A contact tells the peers of its answer.
  IsTold-answer :
      (c : Contact) (ids : List Bytes) (ps : List TrackerPeer)
      → waits c.id ids ≡ true
      → ((p : TrackerPeer) → Has p ps → Has p (peers_in (query c)))
      → AreTold query ids ps
  IsTold-answer c ids [] w sub = tt
  IsTold-answer c ids (p ∷ ps) w sub =
      ((c, w, sub p (inl refl)), IsTold-answer c ids ps w (λ q h. sub q (inr h)))

  take_answer-IsSearch :
      (s : Search) (next : List Contact) (c : Contact)
      → IsSearch query s
      → waits c.id s.visited ≡ false
      → IsSearch query (take_answer s next c.id (query c)).0
  unfolding take_answer waits
  take_answer-IsSearch s next c v new = elim (Option-cases (query c)) [
    | inl error ↦ rw error (record {
      once = (new, v.once);
      distinct = v.distinct;
      heard = ((c, refl, rw error tt), v.heard);
      told = AreTold-cons c.id s.visited s.discovered v.told;
    })
    | inr ((ps, nodes), answer) ↦
        let here : waits c.id (c.id ∷ s.visited) ≡ true = rw (bytes_equal_refl c.id) in
        let tell : AreTold query (c.id ∷ s.visited) ps =
          IsTold-answer c (c.id ∷ s.visited) ps here (λ p h. rw answer h) in
        let old = AreTold-cons c.id s.visited s.discovered v.told in
        rw answer (record {
          once = (new, v.once);
          distinct = discover-AreDistinct ps s.discovered v.distinct;
          heard = (
            (c, refl, rw answer (discover-AllSeen ps s.discovered)),
            AreHeard-discover s.visited ps s.discovered v.heard,
          );
          told = discover-AreTold (c.id ∷ s.visited) ps s.discovered tell old;
        })
  ]

  ask-IsSearch :
      (s : Search) (next : List Contact) (c : Contact)
      → IsSearch query s
      → IsSearch query (ask query s next c).0
  unfolding ask
  ask-IsSearch s next c v = elim (Bool-cases (waits c.id s.visited)) [
    | inl old ↦ rw old v
    | inr new ↦ rw new (take_answer-IsSearch s next c v new)
  ]

  visit-IsSearch :
      (s : Search) (next cs : List Contact)
      → IsSearch query s
      → IsSearch query (visit query s next cs).0
  unfolding visit
  visit-IsSearch s next [] v = v
  visit-IsSearch s next (c ∷ cs) v =
      let (s', next') = ask query s next c in visit-IsSearch s' next' cs (ask-IsSearch s next c v)

  -- Who is asked, and who was.
  visited-ask :
      (s : Search) (next : List Contact) (id : Bytes) (c : Contact)
      → (waits id s.visited ≡ true) ⊎ (c.id ≡ id)
      → waits id (ask query s next c).0.visited ≡ true
  unfolding ask waits take_answer
  visited-ask s next id c h = elim (Option-cases (query c)) [
    | inl error ↦ rw error (ground (arith, bytes_equal_refl c.id, h))
    | inr ((ps, nodes), answer) ↦ rw answer (ground (arith, bytes_equal_refl c.id, h))
  ]

  visited-visit :
      (s : Search) (next cs : List Contact) (id : Bytes)
      → waits id s.visited ≡ true
      → waits id (visit query s next cs).0.visited ≡ true
  unfolding visit
  visited-visit s next [] id h = h
  visited-visit s next (c ∷ cs) id h =
      let (s', next') = ask query s next c in
      visited-visit s' next' cs id (visited-ask s next id c (inl h))

  abbrev pub AreVisited : List Contact → List Bytes → Type 0
  AreVisited [] ids = Unit
  AreVisited (c ∷ cs) ids = (waits c.id ids ≡ true) × AreVisited cs ids

  visit-AreVisited :
      (s : Search) (next cs : List Contact) → AreVisited cs (visit query s next cs).0.visited
  unfolding visit
  visit-AreVisited s next [] = tt
  visit-AreVisited s next (c ∷ cs) =
      let (s', next') = ask query s next c in
      (
        visited-visit s' next' cs c.id (visited-ask s next c.id c (inr refl)),
        visit-AreVisited s' next' cs,
      )

  rounds-IsSearch :
      (n : ℕ) (s : Search) (cs : List Contact)
      → IsSearch query s
      → IsSearch query (rounds n query s cs)
  unfolding rounds
  rounds-IsSearch zero s cs v = v
  rounds-IsSearch (suc n) s cs v =
      let (s', next) = visit query s [] cs in rounds-IsSearch n s' next (visit-IsSearch s [] cs v)

  visited-rounds :
      (n : ℕ) (s : Search) (cs : List Contact) (id : Bytes)
      → waits id s.visited ≡ true
      → waits id (rounds n query s cs).visited ≡ true
  unfolding rounds
  visited-rounds zero s cs id h = h
  visited-rounds (suc n) s cs id h =
      let (s', next) = visit query s [] cs in
      visited-rounds n s' next id (visited-visit s [] cs id h)

  AreVisited-rounds :
      (n : ℕ) (s : Search) (cs ds : List Contact)
      → AreVisited ds s.visited
      → AreVisited ds (rounds n query s cs).visited
  AreVisited-rounds n s cs [] h = tt
  AreVisited-rounds n s cs (d ∷ ds) (h, hs) =
      (visited-rounds n s cs d.id h, AreVisited-rounds n s cs ds hs)

  -- `SearchPeers` asks no id twice, and each of the contacts in the table that are closest to the info
  -- hash; it gives no peer twice, every peer of the answers that it gets, and no other.
  pub search_peers-IsSearch :
      (rt : RoutingTable) (info : Bytes)
      → IsSearch query (search_peers query rt info)
        × AreVisited (closest_nodes rt info bucket_size) (search_peers query rt info).visited
  unfolding search_peers rounds
  search_peers-IsSearch rt info =
      let start : Search = record { visited = []; discovered = [] } in
      let near = closest_nodes rt info bucket_size in
      let empty : IsSearch query start = record {
        once = tt;
        distinct = tt;
        heard = tt;
        told = tt;
      } in
      let (s', next) = visit query start [] near in
      (
        rounds-IsSearch 3 start near empty,
        AreVisited-rounds 2 s' next near (visit-AreVisited start [] near),
      )
