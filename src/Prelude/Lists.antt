-- ===== src/Prelude/Lists.antt =====
-- Lists measured and indexed by native numbers, under the library's names.
use Prim.Native.Nat.{ℕ, zero, suc, ◌+◌, ◌-◌, ◌<◌, ◌≤◌, min}
use mathlib.Core.Path.{◌≡◌, refl, ap, ◌∙◌}
use mathlib.Core.Logic.{◌≢◌}
use mathlib.Core.List.{List, [], ◌∷◌, ◌++◌, map}
use mathlib.Core.Option.{Option, none, some}
use native.Mathlib.Omega.{arith}
use native.Mathlib.Nat.{zero-add, suc-add}

module _ {ℓ} {A : Type ℓ} where
  abbrev pub length : List A → ℕ
  length [] = 0
  length (x ∷ xs) = suc (length xs)

  abbrev pub get_elem? : List A → ℕ → Option A
  get_elem? [] i = none
  get_elem? (x ∷ xs) zero = some x
  get_elem? (x ∷ xs) (suc i) = get_elem? xs i

  -- A write out of bounds changes nothing.
  abbrev pub set : List A → ℕ → A → List A
  set [] i v = []
  set (x ∷ xs) zero v = v ∷ xs
  set (x ∷ xs) (suc i) v = x ∷ set xs i v

  pub length-append : (xs ys : List A) → length (xs ++ ys) ≡ length xs + length ys
  length-append [] ys = omega arith
  length-append (x ∷ xs) ys = omega (arith, length-append xs ys)

module _ {ℓ} {A : Type ℓ} where
  pub length-set : (xs : List A) (i : ℕ) (v : A) → length (set xs i v) ≡ length xs
  length-set [] i v = refl
  length-set (x ∷ xs) zero v = refl
  length-set (x ∷ xs) (suc i) v = ap suc (length-set xs i v)

  pub get_elem?-set_self :
      (xs : List A) (i : ℕ) (v : A) → i < length xs → get_elem? (set xs i v) i ≡ some v
  get_elem?-set_self [] i v h = elim h [ ]
  get_elem?-set_self (x ∷ xs) zero v h = refl
  get_elem?-set_self (x ∷ xs) (suc i) v h = get_elem?-set_self xs i v (omega arith)

  pub get_elem?-set_ne :
      (xs : List A) {i j : ℕ} (v : A) → i ≢ j → get_elem? (set xs i v) j ≡ get_elem? xs j
  get_elem?-set_ne [] v h = refl
  get_elem?-set_ne (x ∷ xs) {i = zero} {j = zero} v h = absurd (h refl)
  get_elem?-set_ne (x ∷ xs) {i = zero} {j = suc j} v h = refl
  get_elem?-set_ne (x ∷ xs) {i = suc i} {j = zero} v h = refl
  get_elem?-set_ne (x ∷ xs) {i = suc i} {j = suc j} v h = get_elem?-set_ne xs v (λ e. h (ap suc e))

module _ {ℓ} {A : Type ℓ} where
  abbrev pub get_or : List A → ℕ → A → A
  get_or [] i d = d
  get_or (x ∷ xs) zero d = x
  get_or (x ∷ xs) (suc i) d = get_or xs i d

  abbrev pub take : ℕ → List A → List A
  take zero xs = []
  take (suc n) [] = []
  take (suc n) (x ∷ xs) = x ∷ take n xs

  abbrev pub drop : ℕ → List A → List A
  drop zero xs = xs
  drop (suc n) [] = []
  drop (suc n) (x ∷ xs) = drop n xs

  abbrev pub replicate : ℕ → A → List A
  replicate zero a = []
  replicate (suc n) a = a ∷ replicate n a

  pub take-append-drop : (n : ℕ) (xs : List A) → take n xs ++ drop n xs ≡ xs
  take-append-drop zero xs = refl
  take-append-drop (suc n) [] = refl
  take-append-drop (suc n) (x ∷ xs) = rw (take-append-drop n xs)

  pub take-append : (xs ys : List A) → take (length xs) (xs ++ ys) ≡ xs
  take-append [] ys = refl
  take-append (x ∷ xs) ys = ap (λ t. x ∷ t) (take-append xs ys)

  pub drop-append : (xs ys : List A) → drop (length xs) (xs ++ ys) ≡ ys
  drop-append [] ys = refl
  drop-append (x ∷ xs) ys = drop-append xs ys

  pub length-take : (n : ℕ) (xs : List A) → length (take n xs) ≡ min n (length xs)
  length-take zero xs = omega arith
  length-take (suc n) [] = omega arith
  length-take (suc n) (x ∷ xs) = omega (arith, length-take n xs)

  pub length-drop : (n : ℕ) (xs : List A) → length (drop n xs) ≡ length xs - n
  length-drop zero xs = omega arith
  length-drop (suc n) [] = omega arith
  length-drop (suc n) (x ∷ xs) = omega (arith, length-drop n xs)

  pub length-replicate : (n : ℕ) (a : A) → length (replicate n a) ≡ n
  length-replicate zero a = refl
  length-replicate (suc n) a = ap suc (length-replicate n a)

  pub length-map {κ} : {B : Type κ} (xs : List A) (f : A → B) → length (map f xs) ≡ length xs
  length-map [] f = refl
  length-map (x ∷ xs) f = ap suc (length-map xs f)

-- Reading and writing ranges, pointwise.
module _ {ℓ} {A : Type ℓ} where
  -- Go's `copy(xs[i:], ys)`: it stops at the end of either.
  abbrev pub splice : List A → ℕ → List A → List A
  splice [] i ys = []
  splice (x ∷ xs) (suc i) ys = x ∷ splice xs i ys
  splice (x ∷ xs) zero [] = x ∷ xs
  splice (x ∷ xs) zero (y ∷ ys) = y ∷ splice xs zero ys

  -- Go's `xs[i:i+n]`, within bounds.
  abbrev pub slice : List A → ℕ → ℕ → List A
  slice xs i n = take n (drop i xs)

  pub length-splice : (xs : List A) (i : ℕ) (ys : List A) → length (splice xs i ys) ≡ length xs
  length-splice [] i ys = refl
  length-splice (x ∷ xs) (suc i) ys = ap suc (length-splice xs i ys)
  length-splice (x ∷ xs) zero [] = refl
  length-splice (x ∷ xs) zero (y ∷ ys) = ap suc (length-splice xs zero ys)

  pub splice_empty : (xs : List A) (i : ℕ) (ys : List A) → length ys ≡ 0 → splice xs i ys ≡ xs
  splice_empty [] i ys h = refl
  splice_empty (x ∷ xs) zero [] h = refl
  splice_empty (x ∷ xs) zero (y ∷ ys) h = absurd (omega arith)
  splice_empty (x ∷ xs) (suc i) ys h = ap (λ t. x ∷ t) (splice_empty xs i ys h)

  pub get_elem?-splice_before :
      (xs : List A) (i : ℕ) (ys : List A) (j : ℕ)
      → j < i
      → get_elem? (splice xs i ys) j ≡ get_elem? xs j
  get_elem?-splice_before [] i ys j h = refl
  get_elem?-splice_before (x ∷ xs) zero ys j h = absurd (omega arith)
  get_elem?-splice_before (x ∷ xs) (suc i) ys zero h = refl
  get_elem?-splice_before (x ∷ xs) (suc i) ys (suc j) h =
      get_elem?-splice_before xs i ys j (omega arith)

  pub get_elem?-splice_after :
      (xs : List A) (i : ℕ) (ys : List A) (j : ℕ)
      → i + length ys ≤ j
      → get_elem? (splice xs i ys) j ≡ get_elem? xs j
  get_elem?-splice_after [] i ys j h = refl
  get_elem?-splice_after (x ∷ xs) zero [] j h = refl
  get_elem?-splice_after (x ∷ xs) zero (y ∷ ys) zero h = absurd (omega arith)
  get_elem?-splice_after (x ∷ xs) zero (y ∷ ys) (suc j) h =
      get_elem?-splice_after xs zero ys j (omega arith)
  get_elem?-splice_after (x ∷ xs) (suc i) ys zero h = absurd (omega arith)
  get_elem?-splice_after (x ∷ xs) (suc i) ys (suc j) h =
      get_elem?-splice_after xs i ys j (omega arith)

  pub get_elem?-splice_in :
      (xs : List A) (i : ℕ) (ys : List A) (k : ℕ)
      → i + k < length xs
      → k < length ys
      → get_elem? (splice xs i ys) (i + k) ≡ get_elem? ys k
  get_elem?-splice_in [] i ys k h l = absurd (omega arith)
  get_elem?-splice_in (x ∷ xs) zero [] k h l = absurd (omega arith)
  get_elem?-splice_in (x ∷ xs) zero (y ∷ ys) zero h l = refl
  get_elem?-splice_in (x ∷ xs) zero (y ∷ ys) (suc k) h l =
      rw zero-add (rw zero-add at (get_elem?-splice_in xs zero ys k (omega arith) (omega arith)))
  get_elem?-splice_in (x ∷ xs) (suc i) ys k h l =
      rw suc-add (get_elem?-splice_in xs i ys k (omega arith) l)

  pub get_elem?-drop : (xs : List A) (i k : ℕ) → get_elem? (drop i xs) k ≡ get_elem? xs (i + k)
  get_elem?-drop xs zero k = rw zero-add
  get_elem?-drop [] (suc i) k = refl
  get_elem?-drop (x ∷ xs) (suc i) k = rw suc-add (get_elem?-drop xs i k)

  pub get_elem?-take : (xs : List A) (n k : ℕ) → k < n → get_elem? (take n xs) k ≡ get_elem? xs k
  get_elem?-take xs zero k h = absurd (omega arith)
  get_elem?-take [] (suc n) k h = refl
  get_elem?-take (x ∷ xs) (suc n) zero h = refl
  get_elem?-take (x ∷ xs) (suc n) (suc k) h = get_elem?-take xs n k (omega arith)

  pub get_elem?-slice :
      (xs : List A) (i n k : ℕ) → k < n → get_elem? (slice xs i n) k ≡ get_elem? xs (i + k)
  get_elem?-slice xs i n k h = get_elem?-take (drop i xs) n k h ∙ get_elem?-drop xs i k

  pub length-slice : (xs : List A) (i n : ℕ) → i + n ≤ length xs → length (slice xs i n) ≡ n
  length-slice xs i n h = omega (arith, length-take n (drop i xs), length-drop i xs)

  pub get_elem?_beyond : (xs : List A) (j : ℕ) → length xs ≤ j → get_elem? xs j ≡ none
  get_elem?_beyond [] j h = refl
  get_elem?_beyond (x ∷ xs) zero h = absurd (omega arith)
  get_elem?_beyond (x ∷ xs) (suc j) h = get_elem?_beyond xs j (omega arith)

  pub get_elem?_within : (xs : List A) (j : ℕ) → j < length xs → (x : A) × (get_elem? xs j ≡ some x)
  get_elem?_within [] j h = absurd (omega arith)
  get_elem?_within (x ∷ xs) zero h = (x, refl)
  get_elem?_within (x ∷ xs) (suc j) h = get_elem?_within xs j (omega arith)

  -- Lists that agree at every place are equal.
  pub list_ext : (xs ys : List A) → ((j : ℕ) → get_elem? xs j ≡ get_elem? ys j) → xs ≡ ys
  list_ext [] [] h = refl
  list_ext [] (y ∷ ys) h = cc (h 0)
  list_ext (x ∷ xs) [] h = cc (h 0)
  list_ext (x ∷ xs) (y ∷ ys) h = cc (h 0, list_ext xs ys (λ j. h (suc j)))

  pub get_elem?-replicate : (n : ℕ) (a : A) (j : ℕ) → j < n → get_elem? (replicate n a) j ≡ some a
  get_elem?-replicate zero a j h = absurd (omega arith)
  get_elem?-replicate (suc n) a zero h = refl
  get_elem?-replicate (suc n) a (suc j) h = get_elem?-replicate n a j (omega arith)

-- Lists cut where they were put together.
module _ {ℓ} {A : Type ℓ} where
  pub get_or-append :
      (xs ys : List A) (k : ℕ) (d : A) → get_or (xs ++ ys) (length xs + k) d ≡ get_or ys k d
  get_or-append [] ys k d = let e : 0 + k ≡ k = omega arith in ap (λ t. get_or ys t d) e
  get_or-append (x ∷ xs) ys k d =
      let e : suc (length xs) + k ≡ suc (length xs + k) = omega arith in
      ap (λ t. get_or (x ∷ (xs ++ ys)) t d) e ∙ get_or-append xs ys k d

  pub drop_add : (xs ys : List A) (k : ℕ) → drop (length xs + k) (xs ++ ys) ≡ drop k ys
  drop_add [] ys k = let e : 0 + k ≡ k = omega arith in ap (λ t. drop t ys) e
  drop_add (x ∷ xs) ys k =
      let e : suc (length xs) + k ≡ suc (length xs + k) = omega arith in
      ap (λ t. drop t (x ∷ (xs ++ ys))) e ∙ drop_add xs ys k

  -- A part in front of others is cut out by its length, and what is behind it.
  pub part : (xs ys : List A) (n : ℕ) → length xs ≡ n → take n (xs ++ ys) ≡ xs
  part xs ys n e = rw (← e) (take-append xs ys)

  pub behind : (xs ys : List A) (n : ℕ) → length xs ≡ n → drop n (xs ++ ys) ≡ ys
  behind xs ys n e = rw (← e) (drop-append xs ys)
