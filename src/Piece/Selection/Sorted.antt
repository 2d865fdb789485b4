-- ===== src/Piece/Selection/Sorted.antt =====
-- Lemmas on the parts of the choice: candidates, the random pick, the sorted counts.
use sid_torrent.Prelude.{
  ℕ, zero, suc, ◌%◌, ◌≤◌, ◌≡◌, refl, Bool, true, false, ◌&&◌, Bool-cases, Option-cases, inl, inr,
  none, some, List, [], ◌∷◌, arith, leb, ◌==◌, if◌then◌else◌, length, get_elem?, get_elem?_within,
}
use sid_torrent.Prelude.Keys.{has}
use sid_torrent.Piece.Buckets.{Buckets, bucket, members}
use sid_torrent.Piece.Selection.{
  offers, candidates, choose, counts, insert_sorted, sort_ints, choose_rarest,
}

pub has-candidates :
    (j : ℕ) (available : List Bool) (is : List ℕ)
    → has j (candidates available is) ≡ (has j is && offers available j)
unfolding candidates
has-candidates j available [] = refl
has-candidates j available (i ∷ is) = elim (Bool-cases (i == j)) [
  | inl e ↦ let same : i ≡ j = ground arith in ground (arith, has-candidates j available is, same)
  | inr e ↦ ground (arith, has-candidates j available is)
]

get_elem?-has : (xs : List ℕ) (k : ℕ) {x : ℕ} → get_elem? xs k ≡ some x → has x xs ≡ true
get_elem?-has [] k h = cc
get_elem?-has (y ∷ ys) zero h = ground arith
get_elem?-has (y ∷ ys) (suc k) h = ground (arith, get_elem?-has ys k h)

-- What is picked is one of the candidates, and there is a pick unless there are none.
pub choose-has : (rand : ℕ) (is : List ℕ) {i : ℕ} → choose rand is ≡ some i → has i is ≡ true
unfolding choose
choose-has rand [] h = cc
choose-has rand (x ∷ xs) h = get_elem?-has (x ∷ xs) _ h

pub choose-none : (rand : ℕ) (is : List ℕ) → choose rand is ≡ none → is ≡ []
unfolding choose
choose-none rand [] h = refl
choose-none rand (x ∷ xs) h =
    let (v, e) = get_elem?_within (x ∷ xs) (rand % length (x ∷ xs)) (omega arith) in cc

-- At most every element.
abbrev pub AtMost : ℕ → List ℕ → Type 0
AtMost n [] = Unit
AtMost n (m ∷ ms) = (n ≤ m) × AtMost n ms

abbrev pub IsSorted : List ℕ → Type 0
IsSorted [] = Unit
IsSorted (n ∷ ns) = AtMost n ns × IsSorted ns

AtMost-trans : (a b : ℕ) (ns : List ℕ) → a ≤ b → AtMost b ns → AtMost a ns
AtMost-trans a b [] h m = tt
AtMost-trans a b (n ∷ ns) h (le, m) = (omega arith, AtMost-trans a b ns h m)

AtMost-insert_sorted : (a n : ℕ) (ns : List ℕ) → a ≤ n → AtMost a ns → AtMost a (insert_sorted n ns)
unfolding insert_sorted
AtMost-insert_sorted a n [] h m = (h, tt)
AtMost-insert_sorted a n (k ∷ ks) h (le, m) = ground (arith, AtMost-insert_sorted a n ks h m)

insert_sorted-IsSorted : (n : ℕ) (ns : List ℕ) → IsSorted ns → IsSorted (insert_sorted n ns)
unfolding insert_sorted
insert_sorted-IsSorted n [] s = (tt, tt)
insert_sorted-IsSorted n (k ∷ ks) (m, s) = elim (Bool-cases (leb n k)) [
  | inl e ↦ rw e ((ground arith, AtMost-trans n k ks (ground arith) m), (m, s))
  | inr e ↦ rw e (AtMost-insert_sorted k n ks (ground arith) m, insert_sorted-IsSorted n ks s)
]

pub sort_ints-IsSorted : (ns : List ℕ) → IsSorted (sort_ints ns)
unfolding sort_ints
sort_ints-IsSorted [] = tt
sort_ints-IsSorted (n ∷ ns) = insert_sorted-IsSorted n _ (sort_ints-IsSorted ns)

has-insert_sorted :
    (j n : ℕ) (ns : List ℕ) → has j (insert_sorted n ns) ≡ (if n == j then true else has j ns)
unfolding insert_sorted
has-insert_sorted j n [] = refl
has-insert_sorted j n (k ∷ ks) = ground (arith, has-insert_sorted j n ks)

pub has-sort_ints : (j : ℕ) (ns : List ℕ) → has j (sort_ints ns) ≡ has j ns
unfolding sort_ints
has-sort_ints j [] = refl
has-sort_ints j (n ∷ ns) = ground (arith, has-insert_sorted j n (sort_ints ns), has-sort_ints j ns)

-- A bucket with a piece in it has its count in the list.
pub has-counts : (c j : ℕ) (bs : Buckets) → has j (bucket c bs) ≡ true → has c (counts bs) ≡ true
unfolding counts members
has-counts c j [] h = cc
has-counts c j ((d, []) ∷ bs) h = ground (arith, has-counts c j bs)
has-counts c j ((d, i ∷ is) ∷ bs) h = ground (arith, has-counts c j bs)

AtMost-has : (a j : ℕ) (ns : List ℕ) → AtMost a ns → has j ns ≡ true → a ≤ j
AtMost-has a j [] m h = cc
AtMost-has a j (n ∷ ns) (le, m) h = elim (Bool-cases (n == j)) [
  | inl e ↦ let same : n ≡ j = ground arith in omega arith
  | inr e ↦ AtMost-has a j ns m (rw e at h)
]

both_true : (a b : Bool) → a ≡ true → b ≡ true → (a && b) ≡ true
both_true a b h k = ground arith

no_candidate :
    (available : List Bool) (is : List ℕ) (j : ℕ)
    → candidates available is ≡ []
    → has j is ≡ true
    → offers available j ≡ true
    → ⊥
no_candidate available is j empty h ho =
    let both = has-candidates j available is in
    let gone : has j (candidates available is) ≡ false = rw empty in
    cc (both, gone, both_true (has j is) (offers available j) h ho)

-- The piece chosen stands in a bucket, is offered, and no offered piece stands in a bucket with a
-- smaller count, among those listed.
pub choose_rarest-some :
    (available : List Bool) (rand : ℕ) (bs : Buckets) (cs : List ℕ) {i : ℕ}
    → IsSorted cs
    → choose_rarest available rand bs cs ≡ some i
    → (c : ℕ) × (has i (bucket c bs) ≡ true)
      × (offers available i ≡ true)
      × ((d j : ℕ)
          → has d cs ≡ true
          → has j (bucket d bs) ≡ true
          → offers available j ≡ true
          → c ≤ d)
unfolding choose_rarest
choose_rarest-some available rand bs [] s h = cc
choose_rarest-some available rand bs (c ∷ cs) {i} (m, s) h =
    elim (Option-cases (choose rand (candidates available (bucket c bs)))) [
      | inr (k, e) ↦
          let same : k ≡ i = cc (rw (e, choose_rarest) at h) in
          let got = choose-has rand _ e in
          let both = has-candidates k available (bucket c bs) in
          (
            c,
            ground arith,
            ground arith,
            λ d j hd hj ho. AtMost-has c d (c ∷ cs) (omega arith, m) hd,
          )
      | inl e ↦
          let empty = choose-none rand _ e in
          let (b, p, q, r) =
            choose_rarest-some available rand bs cs s (rw (e, choose_rarest) at h) in
          (
            b,
            p,
            q,
            λ d j hd hj ho. elim (Bool-cases (c == d)) [
              | inr ne ↦ r d j (rw ne at hd) hj ho
              | inl eq ↦
                  let same : d ≡ c = ground arith in
                  absurd (no_candidate available (bucket c bs) j empty (rw same at hj) ho)
            ],
          )
    ]

pub choose_rarest-none :
    (available : List Bool) (rand : ℕ) (bs : Buckets) (cs : List ℕ) (d j : ℕ)
    → choose_rarest available rand bs cs ≡ none
    → has d cs ≡ true
    → has j (bucket d bs) ≡ true
    → offers available j ≡ false
unfolding choose_rarest
choose_rarest-none available rand bs [] d j h hd hj = cc
choose_rarest-none available rand bs (c ∷ cs) d j h hd hj =
    elim (Option-cases (choose rand (candidates available (bucket c bs)))) [
      | inr (k, e) ↦ cc (rw (e, choose_rarest) at h)
      | inl e ↦ elim (Bool-cases (c == d)) [
        | inr ne ↦
            choose_rarest-none available rand bs cs d j (rw (e, choose_rarest) at h) (rw ne at hd)
              hj
        | inl eq ↦
            let same : d ≡ c = ground arith in
            let here = rw same at hj in
            elim (Bool-cases (offers available j)) [
              | inr no_offer ↦ no_offer
              | inl ho ↦
                  absurd (no_candidate available (bucket c bs) j (choose-none rand _ e) here ho)
            ]
      ]
    ]
