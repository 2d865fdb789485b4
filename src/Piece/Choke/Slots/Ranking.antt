-- ===== src/Piece/Choke/Slots/Ranking.antt =====
-- internal/piece/choke_manager.go: the interested clients, and their order.
use sid_torrent.Prelude.{
  ℕ, zero, suc, ◌+◌, ◌<◌, ◌≤◌, ◌≡◌, ◌⊎◌, inl, inr, refl, ap, ◌∙◌, Bool, true, false, Bool-cases,
  List, [], ◌∷◌, arith, leb, ◌==◌, if◌then◌else◌, length, take,
}
use sid_torrent.Prelude.Keys.{has, Distinct}
use sid_torrent.Peer.State.{Client}
use sid_torrent.Piece.Choke.{interested_from, insert_by_score, sort_by_score, is_interested}

interested_from_before : (i j : ℕ) (cs : List Client) → j < i → has j (interested_from i cs) ≡ false
unfolding interested_from
interested_from_before i j [] lt = refl
interested_from_before i j (c ∷ cs) lt = ground (arith, interested_from_before (suc i) j cs)

pub has-interested_from :
    (i j k : ℕ) (cs : List Client) → j ≡ i + k → has j (interested_from i cs) ≡ is_interested cs k
unfolding interested_from is_interested
has-interested_from i j k [] e = refl
has-interested_from i j zero (c ∷ cs) e =
    let same : j ≡ i = omega arith in rw same (ground (arith, interested_from_before (suc i) i cs))
has-interested_from i j (suc k) (c ∷ cs) e =
    ground (arith, has-interested_from (suc i) j k cs (omega arith))

pub interested_from-Distinct : (i : ℕ) (cs : List Client) → Distinct (interested_from i cs)
unfolding interested_from
interested_from-Distinct i [] = tt
interested_from-Distinct i (c ∷ cs) = elim (Bool-cases c.state.interested_in_us) [
  | inl e ↦
      rw e (interested_from_before (suc i) i cs (omega arith), interested_from-Distinct (suc i) cs)
  | inr e ↦ rw e (interested_from-Distinct (suc i) cs)
]

-- The largest scores come first.
abbrev NoneAbove : (ℕ → ℕ) → ℕ → List ℕ → Type 0
NoneAbove score n [] = Unit
NoneAbove score n (i ∷ is) = (score i ≤ n) × NoneAbove score n is

abbrev pub IsRanked : (ℕ → ℕ) → List ℕ → Type 0
IsRanked score [] = Unit
IsRanked score (i ∷ is) = NoneAbove score (score i) is × IsRanked score is

has-insert_by_score :
    (score : ℕ → ℕ) (j i : ℕ) (is : List ℕ)
    → has j (insert_by_score score i is) ≡ (if i == j then true else has j is)
unfolding insert_by_score
has-insert_by_score score j i [] = ground arith
has-insert_by_score score j i (k ∷ ks) = ground (arith, has-insert_by_score score j i ks)

pub has-sort_by_score :
    (score : ℕ → ℕ) (j : ℕ) (is : List ℕ) → has j (sort_by_score score is) ≡ has j is
unfolding sort_by_score
has-sort_by_score score j [] = refl
has-sort_by_score score j (i ∷ is) =
    has-insert_by_score score j i _ ∙ ground (arith, has-sort_by_score score j is)

insert_by_score-Distinct :
    (score : ℕ → ℕ) (i : ℕ) (is : List ℕ)
    → has i is ≡ false
    → Distinct is
    → Distinct (insert_by_score score i is)
unfolding insert_by_score
insert_by_score-Distinct score i [] h d = (refl, tt)
insert_by_score-Distinct score i (k ∷ ks) h (fresh, d) =
    elim (Bool-cases (leb (score k) (score i))) [
      | inl e ↦ rw e (h, (fresh, d))
      | inr e ↦ rw e (
        ground (arith, has-insert_by_score score k i ks),
        insert_by_score-Distinct score i ks (ground arith) d,
      )
    ]

pub sort_by_score-Distinct :
    (score : ℕ → ℕ) (is : List ℕ) → Distinct is → Distinct (sort_by_score score is)
unfolding sort_by_score
sort_by_score-Distinct score [] d = tt
sort_by_score-Distinct score (i ∷ is) (fresh, d) =
    insert_by_score-Distinct score i _ (has-sort_by_score score i is ∙ fresh)
      (sort_by_score-Distinct score is d)

NoneAbove-trans :
    (score : ℕ → ℕ) (m n : ℕ) (is : List ℕ) → m ≤ n → NoneAbove score m is → NoneAbove score n is
NoneAbove-trans score m n [] h a = tt
NoneAbove-trans score m n (i ∷ is) h (le, a) = (omega arith, NoneAbove-trans score m n is h a)

insert_by_score-NoneAbove :
    (score : ℕ → ℕ) (n i : ℕ) (is : List ℕ)
    → score i ≤ n
    → NoneAbove score n is
    → NoneAbove score n (insert_by_score score i is)
unfolding insert_by_score
insert_by_score-NoneAbove score n i [] h a = (h, tt)
insert_by_score-NoneAbove score n i (k ∷ ks) h (le, a) =
    ground (arith, insert_by_score-NoneAbove score n i ks h a)

insert_by_score-IsRanked :
    (score : ℕ → ℕ) (i : ℕ) (is : List ℕ)
    → IsRanked score is
    → IsRanked score (insert_by_score score i is)
unfolding insert_by_score
insert_by_score-IsRanked score i [] r = (tt, tt)
insert_by_score-IsRanked score i (k ∷ ks) (a, r) = elim (Bool-cases (leb (score k) (score i))) [
  | inl e ↦
      rw e ((ground arith, NoneAbove-trans score (score k) (score i) ks (ground arith) a), (a, r))
  | inr e ↦ rw e (
    insert_by_score-NoneAbove score (score k) i ks (ground arith) a,
    insert_by_score-IsRanked score i ks r,
  )
]

pub sort_by_score-IsRanked : (score : ℕ → ℕ) (is : List ℕ) → IsRanked score (sort_by_score score is)
unfolding sort_by_score
sort_by_score-IsRanked score [] = tt
sort_by_score-IsRanked score (i ∷ is) =
    insert_by_score-IsRanked score i _ (sort_by_score-IsRanked score is)

-- Cutting a ranked list: what is cut off scores no more than what is kept.
NoneAbove-has :
    (score : ℕ → ℕ) (n k : ℕ) (is : List ℕ) → NoneAbove score n is → has k is ≡ true → score k ≤ n
NoneAbove-has score n k [] a h = cc
NoneAbove-has score n k (i ∷ is) (le, a) h = elim (Bool-cases (i == k)) [
  | inl e ↦ let same : i ≡ k = ground arith in rw (← same) le
  | inr e ↦ NoneAbove-has score n k is a (ground arith)
]

pub has-take : (n j : ℕ) (is : List ℕ) → has j (take n is) ≡ true → has j is ≡ true
has-take zero j is h = cc
has-take (suc n) j [] h = h
has-take (suc n) j (i ∷ is) h = ground (arith, has-take n j is)

pub take-IsRanked :
    (score : ℕ → ℕ) (n j k : ℕ) (is : List ℕ)
    → IsRanked score is
    → has j (take n is) ≡ true
    → has k is ≡ true
    → has k (take n is) ≡ false
    → score k ≤ score j
take-IsRanked score zero j k is r h there cut = cc
take-IsRanked score (suc n) j k [] r h there cut = cc
take-IsRanked score (suc n) j k (i ∷ is) (a, r) h there cut = elim (Bool-cases (i == j)) [
  | inl e ↦
      let same : i ≡ j = ground arith in
      rw (← same) (NoneAbove-has score (score i) k is a (ground arith))
  | inr e ↦ take-IsRanked score n j k is r (ground arith) (ground arith) (ground arith)
]

pub take-Distinct : (n : ℕ) (is : List ℕ) → Distinct is → Distinct (take n is)
take-Distinct zero is d = tt
take-Distinct (suc n) [] d = tt
take-Distinct (suc n) (i ∷ is) (fresh, d) = elim (Bool-cases (has i (take n is))) [
  | inl e ↦ cc (has-take n i is e)
  | inr e ↦ (e, take-Distinct n is d)
]

pub length-take_le : (n : ℕ) (is : List ℕ) → length (take n is) ≤ n
length-take_le zero is = omega arith
length-take_le (suc n) [] = omega arith
length-take_le (suc n) (i ∷ is) = omega (arith, length-take_le n is)

length-take_or : (n : ℕ) (is : List ℕ) → (length (take n is) ≡ n) ⊎ (take n is ≡ is)
length-take_or zero is = inl refl
length-take_or (suc n) [] = inr refl
length-take_or (suc n) (i ∷ is) = elim (length-take_or n is) [
  | inl whole ↦ inl (ap suc whole)
  | inr all ↦ inr (ap (λ js. i ∷ js) all)
]

-- As many as are cut, or all.
pub take_full :
    (n : ℕ) (is : List ℕ) (test : ℕ → Bool)
    → ((i : ℕ) → has i is ≡ test i)
    → (length (take n is) ≡ n) ⊎ ((i : ℕ) → test i ≡ true → has i (take n is) ≡ true)
take_full n is test members = elim (length-take_or n is) [
  | inl whole ↦ inl whole
  | inr all ↦ inr (λ i h. ap (has i) all ∙ (members i ∙ h))
]
