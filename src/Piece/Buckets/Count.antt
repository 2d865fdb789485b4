-- ===== src/Piece/Buckets/Count.antt =====
-- internal/piece/manager.go: `totalInBuckets`, against the pieces that stand in the buckets.
use sid_torrent.Prelude.{
  ℕ, ◌≡◌, refl, true, false, ◌||◌, Bool-cases, inl, inr, Option, some, List, [], ◌∷◌, ◌++◌, arith,
  ◌==◌, length, length-append,
}
use sid_torrent.Prelude.Keys.{has, Distinct, Distinct-covers}
use sid_torrent.Piece.Buckets.{Buckets, bucket, members, total_in_buckets, AllDistinct, keys}

has-append : (j : ℕ) (xs ys : List ℕ) → has j (xs ++ ys) ≡ (has j xs || has j ys)
has-append j [] ys = refl
has-append j (x ∷ xs) ys = ground (arith, has-append j xs ys)

append-Distinct :
    (xs ys : List ℕ)
    → Distinct xs
    → Distinct ys
    → ((j : ℕ) → has j xs ≡ true → has j ys ≡ false)
    → Distinct (xs ++ ys)
append-Distinct [] ys dx dy apart = dy
append-Distinct (x ∷ xs) ys (fresh, dx) dy apart =
    let here : has x ys ≡ false = apart x (ground arith) in
    (
      ground (arith, has-append x xs ys, fresh, here),
      append-Distinct xs ys dx dy (λ j h. apart j (ground arith)),
    )

all_members : Buckets → List ℕ
all_members [] = []
all_members ((c, ps) ∷ bs) = ps ++ all_members bs

length-all_members : (bs : Buckets) → length (all_members bs) ≡ total_in_buckets bs
unfolding all_members total_in_buckets
length-all_members [] = refl
length-all_members ((c, ps) ∷ bs) =
    omega (arith, length-append ps (all_members bs), length-all_members bs)

absent-bucket : (c : ℕ) (bs : Buckets) → has c (keys bs) ≡ false → bucket c bs ≡ []
unfolding members
absent-bucket c [] h = refl
absent-bucket c ((d, ps) ∷ bs) h = ground (arith, absent-bucket c bs)

in_all_members :
    (c j : ℕ) (bs : Buckets) → has j (bucket c bs) ≡ true → has j (all_members bs) ≡ true
unfolding all_members members
in_all_members c j [] h = cc
in_all_members c j ((d, ps) ∷ bs) h =
    ground (arith, has-append j ps (all_members bs), in_all_members c j bs)

found_in_bucket :
    (j : ℕ) (bs : Buckets)
    → AllDistinct bs
    → has j (all_members bs) ≡ true
    → (c : ℕ) × (has c (keys bs) ≡ true) × (has j (bucket c bs) ≡ true)
unfolding all_members members
found_in_bucket j [] a h = cc
found_in_bucket j ((d, ps) ∷ bs) (_, fresh, a) h = elim (Bool-cases (has j ps)) [
  | inl here ↦ (d, ground arith, ground arith)
  | inr later ↦
      let (c, k, m) = found_in_bucket j bs a (ground (arith, has-append j ps (all_members bs))) in
      let other : (d == c) ≡ false = ground (arith, fresh) in (c, ground arith, rw other m)
]

-- Each piece stands only in the bucket that `at` names.
abbrev pub Located : (ℕ → Option ℕ) → Buckets → Type 0
Located at bs = (c j : ℕ) → has j (bucket c bs) ≡ true → at j ≡ some c

Located-tail :
    (at : ℕ → Option ℕ) (d : ℕ) (ps : List ℕ) (bs : Buckets)
    → has d (keys bs) ≡ false
    → Located at ((d, ps) ∷ bs)
    → Located at bs
unfolding members
Located-tail at d ps bs fresh l c j h = elim (Bool-cases (d == c)) [
  | inl e ↦
      let same : d ≡ c = ground arith in
      let gone = absent-bucket c bs (rw same at fresh) in cc (rw gone at h)
  | inr e ↦ l c j (rw e h)
]

all_members-Distinct :
    (at : ℕ → Option ℕ) (bs : Buckets) → AllDistinct bs → Located at bs → Distinct (all_members bs)
unfolding all_members members
all_members-Distinct at [] a l = tt
all_members-Distinct at ((d, ps) ∷ bs) (dp, fresh, a) l =
    let tail = Located-tail at d ps bs fresh l in
    append-Distinct ps (all_members bs) dp (all_members-Distinct at bs a tail) λ j h.
      elim (Bool-cases (has j (all_members bs))) [
        | inr e ↦ e
        | inl e ↦
            let (c, k, m) = found_in_bucket j bs a e in
            let here : has j (bucket d ((d, ps) ∷ bs)) ≡ true = ground (arith, h) in
            let same : d ≡ c = cc (l d j here, tail c j m) in cc (rw same at fresh, k)
      ]

-- As many pieces in the buckets as there are pending ones: then every pending piece is in one.
pub buckets_cover :
    (at : ℕ → Option ℕ) (pending : List ℕ) (bs : Buckets)
    → AllDistinct bs
    → Located at bs
    → ((c j : ℕ) → has j (bucket c bs) ≡ true → has j pending ≡ true)
    → total_in_buckets bs ≡ length pending
    → (j : ℕ) → has j pending ≡ true
    → (c : ℕ) × (has j (bucket c bs) ≡ true)
buckets_cover at pending bs a l sub size j h =
    let inside =
      Distinct-covers (all_members bs) pending (all_members-Distinct at bs a l)
        (λ i hi. let (c, k, m) = found_in_bucket i bs a hi in sub c i m)
        (omega (arith, length-all_members bs)) j h in
    let (c, k, m) = found_in_bucket j bs a inside in (c, m)
