-- ===== src/Piece/Buckets.antt =====
-- internal/piece/manager.go: the buckets, which hold the pending pieces by their availability.
pub mod Count
use sid_torrent.Prelude.{
  ℕ, zero, suc, ◌+◌, ◌≤◌, ◌<◌, ◌≡◌, ◌≢◌, refl, Bool, true, false, ◌&&◌, ◌||◌, Bool-cases, inl, inr,
  Option, none, some, List, [], ◌∷◌, ◌++◌, arith, ltb, leb, ◌==◌, if◌then◌else◌, length, get_or,
  map,
}
use sid_torrent.Prelude.Keys.{
  has, insert, remove, lookup, put, has-insert, has-remove, lookup-put, Distinct, insert-Distinct,
  remove-Distinct,
}

-- `map[int]map[int]bool`: for each count the pieces that so many peers own.
abbrev pub Buckets : Type 0
Buckets = List (ℕ × List ℕ)

-- Reading a missing bucket gives a nil map, which is empty.
unfoldable pub members : Option (List ℕ) → List ℕ
members none = []
members (some ps) = ps

abbrev pub bucket : ℕ → Buckets → List ℕ
bucket c bs = members (lookup c bs)

-- `if buckets[c] != nil { delete(buckets[c], i) }`
unfoldable pub drop_member : ℕ → ℕ → Buckets → Buckets
drop_member c i bs = elim (lookup c bs) [ none ↦ bs | some ps ↦ put c (remove i ps) bs ]

-- `if buckets[c] == nil { buckets[c] = make(…) }; buckets[c][i] = true`
unfoldable pub add_member : ℕ → ℕ → Buckets → Buckets
unfolding members
add_member c i bs = put c (insert i (bucket c bs)) bs

unfoldable pub move_member : ℕ → ℕ → ℕ → Buckets → Buckets
unfolding drop_member add_member
move_member i old new bs = add_member new i (drop_member old i bs)

-- The pieces in all buckets, as many as `totalInBuckets`.
unfoldable pub total_in_buckets : Buckets → ℕ
total_in_buckets [] = 0
total_in_buckets ((c, ps) ∷ bs) = length ps + total_in_buckets bs

pub bucket-add_member :
    (d c i : ℕ) (bs : Buckets)
    → bucket d (add_member c i bs) ≡ (if c == d then insert i (bucket c bs) else bucket d bs)
unfolding add_member
bucket-add_member d c i bs = ground (arith, lookup-put d c (insert i (bucket c bs)) bs)

pub bucket-drop_member :
    (d c i : ℕ) (bs : Buckets)
    → bucket d (drop_member c i bs) ≡ (if c == d then remove i (bucket c bs) else bucket d bs)
unfolding drop_member members remove
bucket-drop_member d c i bs = go (lookup c bs) refl
  where
    go :
        (o : Option (List ℕ))
        → lookup c bs ≡ o
        → bucket d (drop_member c i bs) ≡ (if c == d then remove i (bucket c bs) else bucket d bs)
    go none e = rw (e, drop_member) (ground (arith, e))
    go (some ps) e = rw (e, drop_member) (ground (arith, e, lookup-put d c (remove i ps) bs))

pub has-add_member :
    (d j c i : ℕ) (bs : Buckets)
    → has j (bucket d (add_member c i bs))
      ≡ (if (c == d) && (i == j) then true else has j (bucket d bs))
has-add_member d j c i bs = elim (Bool-cases (c == d)) [
  | inl e ↦
      let same : c ≡ d = ground arith in
      ground (arith, bucket-add_member d c i bs, has-insert j i (bucket d bs), same)
  | inr e ↦ ground (arith, bucket-add_member d c i bs)
]

pub has-drop_member :
    (d j c i : ℕ) (bs : Buckets)
    → has j (bucket d (drop_member c i bs))
      ≡ (if (c == d) && (i == j) then false else has j (bucket d bs))
has-drop_member d j c i bs = elim (Bool-cases (c == d)) [
  | inl e ↦
      let same : c ≡ d = ground arith in
      ground (arith, bucket-drop_member d c i bs, has-remove j i (bucket d bs), same)
  | inr e ↦ ground (arith, bucket-drop_member d c i bs)
]

-- No bucket holds a piece twice, and no count stands twice.
abbrev pub keys : Buckets → List ℕ
keys [] = []
keys ((c, ps) ∷ bs) = c ∷ keys bs

abbrev pub AllDistinct : Buckets → Type 0
AllDistinct [] = Unit
AllDistinct ((c, ps) ∷ bs) = Distinct ps × (has c (keys bs) ≡ false) × AllDistinct bs

has-keys-put :
    (j c : ℕ) (ps : List ℕ) (bs : Buckets)
    → has j (keys (put c ps bs)) ≡ (if c == j then true else has j (keys bs))
unfolding put
has-keys-put j c ps [] = refl
has-keys-put j c ps ((d, qs) ∷ bs) = ground (arith, has-keys-put j c ps bs)

put-AllDistinct :
    (c : ℕ) (ps : List ℕ) (bs : Buckets) → Distinct ps → AllDistinct bs → AllDistinct (put c ps bs)
unfolding put
put-AllDistinct c ps [] d h = (d, refl, tt)
put-AllDistinct c ps ((e, qs) ∷ bs) d (dq, fresh, h) = elim (Bool-cases (e == c)) [
  | inl same ↦ let eq : e ≡ c = ground arith in rw same (d, rw eq at fresh, h)
  | inr other ↦
      rw other (dq, ground (arith, has-keys-put e c ps bs, fresh), put-AllDistinct c ps bs d h)
]

pub bucket-Distinct : (c : ℕ) (bs : Buckets) → AllDistinct bs → Distinct (bucket c bs)
unfolding members
bucket-Distinct c [] h = tt
bucket-Distinct c ((e, qs) ∷ bs) (dq, fresh, h) = elim (Bool-cases (e == c)) [
  | inl same ↦ rw same dq
  | inr other ↦ rw other (bucket-Distinct c bs h)
]

pub add_member-AllDistinct :
    (c i : ℕ) (bs : Buckets) → AllDistinct bs → AllDistinct (add_member c i bs)
unfolding add_member
add_member-AllDistinct c i bs h =
    put-AllDistinct c _ bs (insert-Distinct i (bucket c bs) (bucket-Distinct c bs h)) h

pub drop_member-AllDistinct :
    (c i : ℕ) (bs : Buckets) → AllDistinct bs → AllDistinct (drop_member c i bs)
unfolding drop_member members
drop_member-AllDistinct c i bs h = go (lookup c bs) refl
  where
    go : (o : Option (List ℕ)) → lookup c bs ≡ o → AllDistinct (drop_member c i bs)
    go none e = rw (e, drop_member) h
    go (some ps) e =
        rw (e, drop_member)
          (put-AllDistinct c _ bs (remove-Distinct i ps (rw e at (bucket-Distinct c bs h))) h)
