-- ===== src/Dht/Node/Search/Discovered.antt =====
-- internal/dht/dht.go: what a search is to find, and the list of discovered peers.
use sid_torrent.Prelude.{
  ◌≡◌, ◌⊎◌, inl, inr, true, false, Option, none, some, List, [], ◌∷◌, ◌++◌, arith, Bool-cases,
  append-nil, append_assoc,
}
use sid_torrent.Prelude.Bytes.{Bytes, bytes_equal_refl}
use sid_torrent.Dht.Kademlia.{Contact}
use sid_torrent.Dht.Compact.{pack_ip}
use sid_torrent.Dht.Node.{waits}
use sid_torrent.Dht.Node.Search.{Search, Answers, same_peer, seen, discover}
use sid_torrent.Tracker.Peers.{TrackerPeer}

abbrev pub Has : TrackerPeer → List TrackerPeer → Type 0
Has a [] = ⊥
Has a (x ∷ xs) = (x ≡ a) ⊎ Has a xs

-- No peer is listed after another with the same address and port.
abbrev pub AreDistinct : List TrackerPeer → List TrackerPeer → Type 0
AreDistinct before [] = Unit
AreDistinct before (p ∷ ps) = (seen p before ≡ false) × AreDistinct (before ++ p ∷ []) ps

abbrev pub DistinctIds : List Bytes → Type 0
DistinctIds [] = Unit
DistinctIds (id ∷ ids) = (waits id ids ≡ false) × DistinctIds ids

-- The peers of an answer; an error gives none.
abbrev pub peers_in : Option (List TrackerPeer × List Contact) → List TrackerPeer
peers_in none = []
peers_in (some (ps, nodes)) = ps

abbrev pub AllSeen : List TrackerPeer → List TrackerPeer → Type 0
AllSeen [] found = Unit
AllSeen (p ∷ ps) found = (seen p found ≡ true) × AllSeen ps found

module _ (query : Answers) where
  -- Each id is that of a contact whose answer is among the peers found.
  abbrev pub AreHeard : List Bytes → List TrackerPeer → Type 0
  AreHeard [] found = Unit
  AreHeard (id ∷ ids) found =
      ((c : Contact) × (c.id ≡ id) × AllSeen (peers_in (query c)) found) × AreHeard ids found

  -- The peer is one of the answer of a contact with one of the ids.
  abbrev pub IsTold : List Bytes → TrackerPeer → Type 0
  IsTold ids p = (c : Contact) × (waits c.id ids ≡ true) × Has p (peers_in (query c))

  abbrev pub AreTold : List Bytes → List TrackerPeer → Type 0
  AreTold ids [] = Unit
  AreTold ids (p ∷ ps) = IsTold ids p × AreTold ids ps

  pub record IsSearch (s : Search) : Type 0 where
    pub once : DistinctIds s.visited
    pub distinct : AreDistinct [] s.discovered
    pub heard : AreHeard s.visited s.discovered
    pub told : AreTold s.visited s.discovered

seen-append :
    (p : TrackerPeer) (ps qs : List TrackerPeer) → seen p ps ≡ true → seen p (ps ++ qs) ≡ true
unfolding seen
seen-append p [] qs h = cc
seen-append p (q ∷ ps) qs h = ground (arith, seen-append p ps qs)

same_peer_refl : (p : TrackerPeer) → same_peer p p ≡ true
unfolding same_peer
same_peer_refl p = ground (arith, bytes_equal_refl (pack_ip p.ip))

seen-last : (p : TrackerPeer) (ps : List TrackerPeer) → seen p (ps ++ p ∷ []) ≡ true
unfolding seen
seen-last p [] = rw (same_peer_refl p)
seen-last p (q ∷ ps) = ground (arith, seen-last p ps)

AreDistinct-last :
    (before ps : List TrackerPeer) (p : TrackerPeer)
    → AreDistinct before ps
    → seen p (before ++ ps) ≡ false
    → AreDistinct before (ps ++ p ∷ [])
AreDistinct-last before [] p d h = (rw append-nil at h, tt)
AreDistinct-last before (q ∷ ps) p (fresh, d) h =
    (fresh, AreDistinct-last (before ++ q ∷ []) ps p d (rw append_assoc h))

pub discover-AreDistinct :
    (ps found : List TrackerPeer) → AreDistinct [] found → AreDistinct [] (discover ps found)
unfolding discover
discover-AreDistinct [] found d = d
discover-AreDistinct (p ∷ ps) found d = elim (Bool-cases (seen p found)) [
  | inl old ↦ rw old (discover-AreDistinct ps found d)
  | inr new ↦ rw new (discover-AreDistinct ps (found ++ p ∷ []) (AreDistinct-last [] found p d new))
]

seen-discover :
    (p : TrackerPeer) (ps found : List TrackerPeer)
    → seen p found ≡ true
    → seen p (discover ps found) ≡ true
unfolding discover
seen-discover p [] found h = h
seen-discover p (q ∷ ps) found h = elim (Bool-cases (seen q found)) [
  | inl old ↦ rw old (seen-discover p ps found h)
  | inr new ↦ rw new (seen-discover p ps (found ++ q ∷ []) (seen-append p found (q ∷ []) h))
]

pub discover-AllSeen : (ps found : List TrackerPeer) → AllSeen ps (discover ps found)
unfolding discover
discover-AllSeen [] found = tt
discover-AllSeen (p ∷ ps) found = elim (Bool-cases (seen p found)) [
  | inl old ↦ rw old (seen-discover p ps found old, discover-AllSeen ps found)
  | inr new ↦ rw new (
    seen-discover p ps (found ++ p ∷ []) (seen-last p found),
    discover-AllSeen ps (found ++ p ∷ []),
  )
]

pub AllSeen-discover :
    (qs ps found : List TrackerPeer) → AllSeen qs found → AllSeen qs (discover ps found)
AllSeen-discover [] ps found h = tt
AllSeen-discover (q ∷ qs) ps found (h, hs) =
    (seen-discover q ps found h, AllSeen-discover qs ps found hs)
