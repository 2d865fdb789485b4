-- ===== src/Prelude/Keys.antt =====
-- Go's `map[int]bool` used as a set, and `map[int]V`: lists of keys, in the order in which a range
-- over the map happens to meet them. Statements hold for every such list, so for every order.
use Prim.Native.Nat.{ℕ, zero, suc, ◌≤◌, ◌<◌}
use mathlib.Core.Path.{◌≡◌, refl, ap}
use mathlib.Core.Logic.{inl, inr}
use mathlib.Core.Bool.{Bool, true, false}
use mathlib.Core.List.{List, [], ◌∷◌}
use mathlib.Core.Option.{Option, none, some}
use native.Mathlib.Omega.{arith}
use sid_torrent.Prelude.Tests.{◌==◌, ltb, if◌then◌else◌, Bool-cases}
use sid_torrent.Prelude.Lists.{length}

-- Is the key set?
abbrev pub has : ℕ → List ℕ → Bool
has k [] = false
has k (x ∷ xs) = if x == k then true else has k xs

-- `m[k] = true`
unfoldable pub insert : ℕ → List ℕ → List ℕ
insert k xs = if has k xs then xs else k ∷ xs

-- `delete(m, k)`
unfoldable pub remove : ℕ → List ℕ → List ℕ
remove k [] = []
remove k (x ∷ xs) = if x == k then remove k xs else x ∷ remove k xs

pub has-insert : (j k : ℕ) (xs : List ℕ) → has j (insert k xs) ≡ (if k == j then true else has j xs)
unfolding insert
has-insert j k xs = elim (Bool-cases (has k xs)) [
  | inl h ↦ rw h (elim (Bool-cases (k == j)) [
    | inl e ↦ let same : k ≡ j = ground arith in rw e (rw same at h)
    | inr ne ↦ rw ne
  ])
  | inr h ↦ rw h
]

pub has-remove :
    (j k : ℕ) (xs : List ℕ) → has j (remove k xs) ≡ (if k == j then false else has j xs)
unfolding remove
has-remove j k [] = ground arith
has-remove j k (x ∷ xs) = ground (arith, has-remove j k xs)

-- No key stands twice.
abbrev pub Distinct : List ℕ → Type 0
Distinct [] = Unit
Distinct (x ∷ xs) = (has x xs ≡ false) × Distinct xs

pub insert-Distinct : (k : ℕ) (xs : List ℕ) → Distinct xs → Distinct (insert k xs)
unfolding insert
insert-Distinct k xs d = elim (Bool-cases (has k xs)) [ inl h ↦ rw h d | inr h ↦ rw h (h, d) ]

pub remove-Distinct : (k : ℕ) (xs : List ℕ) → Distinct xs → Distinct (remove k xs)
unfolding remove
remove-Distinct k [] d = tt
remove-Distinct k (x ∷ xs) (fresh, d) = elim (Bool-cases (x == k)) [
  | inl e ↦ rw e (remove-Distinct k xs d)
  | inr e ↦ rw e (ground (arith, has-remove x k xs, fresh), remove-Distinct k xs d)
]

pub remove_absent : (k : ℕ) (xs : List ℕ) → has k xs ≡ false → remove k xs ≡ xs
unfolding remove
remove_absent k [] h = refl
remove_absent k (x ∷ xs) h = ground (arith, remove_absent k xs)

pub length-remove_le : (k : ℕ) (xs : List ℕ) → length (remove k xs) ≤ length xs
unfolding remove
length-remove_le k [] = omega arith
length-remove_le k (x ∷ xs) = ground (arith, length-remove_le k xs)

pub length-remove_lt : (k : ℕ) (xs : List ℕ) → has k xs ≡ true → length (remove k xs) < length xs
unfolding remove
length-remove_lt k [] h = cc
length-remove_lt k (x ∷ xs) h = ground (arith, length-remove_le k xs, length-remove_lt k xs)

-- Counting: keys that stand once and all lie in another list are at most as many.
pub Distinct-length-le :
    (xs ys : List ℕ)
    → Distinct xs
    → ((j : ℕ) → has j xs ≡ true → has j ys ≡ true)
    → length xs ≤ length ys
Distinct-length-le [] ys d sub = omega arith
Distinct-length-le (x ∷ xs) ys (fresh, d) sub =
    let here : has x ys ≡ true = sub x (ground arith) in
    let rest =
      Distinct-length-le xs (remove x ys) d
        (λ j h. ground (arith, has-remove j x ys, sub j, fresh, h)) in
    omega (arith, length-remove_lt x ys here, rest)

-- And if they are as many, they are the same keys.
pub Distinct-covers :
    (xs ys : List ℕ)
    → Distinct xs
    → ((j : ℕ) → has j xs ≡ true → has j ys ≡ true)
    → length ys ≤ length xs
    → (j : ℕ) → has j ys ≡ true
    → has j xs ≡ true
Distinct-covers [] [] d sub le j h = h
Distinct-covers [] (y ∷ ys) d sub le j h = absurd (omega arith)
Distinct-covers (x ∷ xs) ys (fresh, d) sub le j h =
    let here : has x ys ≡ true = sub x (ground arith) in
    let rest =
      Distinct-covers xs (remove x ys) d
        (λ i hi. ground (arith, has-remove i x ys, sub i, fresh, hi))
        (omega (arith, length-remove_lt x ys here)) j in
    ground (arith, rest, has-remove j x ys, h)

-- The keys below `n`.
abbrev pub below : ℕ → List ℕ
below zero = []
below (suc n) = n ∷ below n

pub has-below : (j n : ℕ) → has j (below n) ≡ ltb j n
has-below j zero = ground arith
has-below j (suc n) = ground (arith, has-below j n)

pub length-below : (n : ℕ) → length (below n) ≡ n
length-below zero = refl
length-below (suc n) = ap suc (length-below n)

pub below-Distinct : (n : ℕ) → Distinct (below n)
below-Distinct zero = tt
below-Distinct (suc n) = (ground (arith, has-below n n), below-Distinct n)

-- `map[int]V`
module _ {ℓ} {V : Type ℓ} where
  abbrev pub lookup : ℕ → List (ℕ × V) → Option V
  lookup k [] = none
  lookup k ((j, v) ∷ m) = if j == k then some v else lookup k m

  unfoldable pub put : ℕ → V → List (ℕ × V) → List (ℕ × V)
  put k v [] = (k, v) ∷ []
  put k v ((j, w) ∷ m) = if j == k then (k, v) ∷ m else (j, w) ∷ put k v m

  pub lookup-put :
      (j k : ℕ) (v : V) (m : List (ℕ × V))
      → lookup j (put k v m) ≡ (if k == j then some v else lookup j m)
  unfolding put
  lookup-put j k v [] = refl
  lookup-put j k v ((i, w) ∷ m) = ground (arith, lookup-put j k v m)
