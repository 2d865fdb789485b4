-- ===== src/Bencode/Spans.antt =====
-- internal/bencode/decoder.go: the fuel of the decoder, and the ranges that it records.
pub mod Total
use sid_torrent.Prelude.{
  ℕ, zero, suc, ◌+◌, ◌-◌, ◌*◌, ◌≤◌, ◌<◌, ◌≡◌, ◌≢◌, refl, sym, ◌∙◌, ap, subst, Bool, true, false,
  not, ◌&&◌, Bool-cases, inl, inr, Option, none, some, List, [], ◌∷◌, ◌++◌, append_assoc, arith,
  ltb, leb, ◌==◌, if◌then◌else◌, length, take, drop, length-append, take-append-drop, length-take,
}
use sid_torrent.Prelude.Int.{ℤ}
use sid_torrent.Prelude.Bytes.{Bytes, bytes_equal}
use sid_torrent.Bencode.Decimal.{is_digit, atoi, parse_int}
use sid_torrent.Bencode.Decoder.{
  Node, Shape, Nodes, Entries, node, no_nodes, also, no_entries, entry, Result, ok, failed,
  out_of_fuel, DecodeError, ◌>>=◌, Read, read_length, leading_zero, cut_string, decode_string,
  read_to_end, negative_zero_in, int_node, decode_int, put_entry, key_of, decode_value,
  decode_items, decode_entries, finish, decode_with_raw,
}

-- The run kept within its fuel, and `P` holds of its value if it has one.
abbrev pub Ensures {ℓ} : {A : Type ℓ} → (A → Type 0) → Result A → Type 0
Ensures P (ok a) = P a
Ensures P (failed e) = Unit
Ensures P out_of_fuel = ⊥

pub Ensures-bind {ℓ κ} :
    {A : Type ℓ} {B : Type κ} (P : A → Type 0) (Q : B → Type 0) (r : Result A) (f : A → Result B)
    → Ensures P r
    → ((a : A) → P a → Ensures Q (f a))
    → Ensures Q (r >>= f)
Ensures-bind P Q (ok a) f h k = k a h
Ensures-bind P Q (failed e) f h k = tt
Ensures-bind P Q out_of_fuel f h k = h

pub Ensures-if {ℓ} :
    {A : Type ℓ} (P : A → Type 0) (b : Bool) (x y : Result A)
    → (b ≡ true → Ensures P x)
    → (b ≡ false → Ensures P y)
    → Ensures P (if b then x else y)
Ensures-if P true x y h k = h refl
Ensures-if P false x y h k = k refl

-- The position has moved by what was read, and something was.
abbrev pub Moved : Bytes → ℕ → Bytes → ℕ → Type 0
Moved rest p left q =
    (used : Bytes) × (rest ≡ used ++ left) × (q ≡ p + length used) × (1 ≤ length used)

pub Moved-trans :
    (rest left left' : Bytes) (p q q' : ℕ)
    → Moved rest p left q
    → Moved left q left' q'
    → Moved rest p left' q'
Moved-trans rest left left' p q q' (u, a, b, c) (w, d, e, f) = (
  u ++ w,
  rw a (rw d (sym (append_assoc u w left'))),
  omega (arith, length-append u w),
  omega (arith, length-append u w),
)

pub Moved-length :
    (rest left : Bytes) (p q : ℕ) → Moved rest p left q → (length left < length rest) × (p < q)
Moved-length rest left p q (u, a, b, c) =
    (omega (arith, ap length a, length-append u left), omega arith)

pub Moved-cons :
    (b : ℕ) (rest left : Bytes) (p q : ℕ) → Moved rest (p + 1) left q → Moved (b ∷ rest) p left q
Moved-cons b rest left p q (u, a, e, c) = (b ∷ u, ap (λ t. b ∷ t) a, omega arith, omega arith)

pub Moved-one : (b : ℕ) (rest : Bytes) (p : ℕ) → Moved (b ∷ rest) p rest (p + 1)
Moved-one b rest p = (b ∷ [], refl, omega arith, omega arith)

-- Every node lies between `lo` and `hi`, and the nodes in it lie in it.
mutual
  pub Inside : ℕ → ℕ → Node → Type 0
  Inside lo hi (node s a b) = (lo ≤ a) × (a ≤ b) × (b ≤ hi) × InsideShape a b s

  pub InsideShape : ℕ → ℕ → Shape → Type 0
  InsideShape lo hi (Shape.bytes s) = Unit
  InsideShape lo hi (Shape.int i) = Unit
  InsideShape lo hi (Shape.list ns) = AllInside lo hi ns
  InsideShape lo hi (Shape.dict es) = EntriesInside lo hi es

  pub AllInside : ℕ → ℕ → Nodes → Type 0
  AllInside lo hi no_nodes = Unit
  AllInside lo hi (also n ns) = Inside lo hi n × AllInside lo hi ns

  pub EntriesInside : ℕ → ℕ → Entries → Type 0
  EntriesInside lo hi no_entries = Unit
  EntriesInside lo hi (entry k n es) = Inside lo hi n × EntriesInside lo hi es

pub Inside-wider :
    (n : Node) (lo hi lo' hi' : ℕ) → lo' ≤ lo → hi ≤ hi' → Inside lo hi n → Inside lo' hi' n
unfolding Inside
Inside-wider (node s a b) lo hi lo' hi' h k (x, y, z, w) =
    (omega arith, omega arith, omega arith, w)

pub AllInside-wider :
    (ns : Nodes) (lo hi lo' hi' : ℕ)
    → lo' ≤ lo
    → hi ≤ hi'
    → AllInside lo hi ns
    → AllInside lo' hi' ns
unfolding Inside
AllInside-wider no_nodes lo hi lo' hi' h k x = tt
AllInside-wider (also n ns) lo hi lo' hi' h k (x, xs) =
    (Inside-wider n lo hi lo' hi' h k x, AllInside-wider ns lo hi lo' hi' h k xs)

pub EntriesInside-wider :
    (es : Entries) (lo hi lo' hi' : ℕ)
    → lo' ≤ lo
    → hi ≤ hi'
    → EntriesInside lo hi es
    → EntriesInside lo' hi' es
unfolding Inside
EntriesInside-wider no_entries lo hi lo' hi' h k x = tt
EntriesInside-wider (entry j n es) lo hi lo' hi' h k (x, xs) =
    (Inside-wider n lo hi lo' hi' h k x, EntriesInside-wider es lo hi lo' hi' h k xs)

pub put_entry-Inside :
    (k : Bytes) (n : Node) (es : Entries) (lo hi : ℕ)
    → Inside lo hi n
    → EntriesInside lo hi es
    → EntriesInside lo hi (put_entry k n es)
unfolding put_entry Inside
put_entry-Inside k n no_entries lo hi h x = (h, tt)
put_entry-Inside k n (entry j m es) lo hi h (x, xs) = elim (Bool-cases (bytes_equal j k)) [
  | inl e ↦ rw e (h, xs)
  | inr e ↦ rw e (x, put_entry-Inside k n es lo hi h xs)
]

-- What a call leaves: the position has moved past what was read, and the node spans it.
abbrev pub NodeRead : Bytes → ℕ → Node × Bytes × ℕ → Type 0
NodeRead rest p (node s a b, left, q) =
    Moved rest p left q × (a ≡ p) × (b ≡ q) × Inside p q (node s a b)

abbrev BytesRead : Bytes → ℕ → Bytes × Bytes × ℕ → Type 0
BytesRead rest p (s, left, q) = Moved rest p left q

read_length-Moved : (rest : Bytes) (p : ℕ) → Ensures (BytesRead rest p) (read_length rest p)
unfolding read_length
read_length-Moved [] p = tt
read_length-Moved (b ∷ rest) p =
    Ensures-if (BytesRead (b ∷ rest) p) (b == b':') _ _ (λ e. Moved-one b rest p)
      λ e.
        Ensures-if (BytesRead (b ∷ rest) p) (not (is_digit b)) _ _ (λ f. tt)
          λ f.
            Ensures-bind (BytesRead rest (p + 1)) (BytesRead (b ∷ rest) p)
              (read_length rest (p + 1)) _ (read_length-Moved rest (p + 1))
              λ (s, left, q) m. Moved-cons b rest left p q m

read_to_end-Moved : (rest : Bytes) (p : ℕ) → Ensures (BytesRead rest p) (read_to_end rest p)
unfolding read_to_end
read_to_end-Moved [] p = tt
read_to_end-Moved (b ∷ rest) p =
    Ensures-if (BytesRead (b ∷ rest) p) (b == b'e') _ _ (λ e. Moved-one b rest p)
      λ e.
        Ensures-bind (BytesRead rest (p + 1)) (BytesRead (b ∷ rest) p) (read_to_end rest (p + 1)) _
          (read_to_end-Moved rest (p + 1)) λ (s, left, q) m. Moved-cons b rest left p q m

cut_string-NodeRead :
    (o : Option ℕ) (b : ℕ) (rest left : Bytes) (p q : ℕ)
    → Moved rest (p + 1) left q
    → Ensures (NodeRead (b ∷ rest) p) (cut_string p o left q)
unfolding cut_string Inside
cut_string-NodeRead none b rest left p q m = tt
cut_string-NodeRead (some n) b rest left p q (u, a, e, c) =
    Ensures-if (NodeRead (b ∷ rest) p) (ltb (length left) n) _ _ (λ h. tt)
      λ h. (
        (
          b ∷ (u ++ take n left),
          ap (λ t. b ∷ t)
              (a
                ∙ (ap (λ t. u ++ t) (sym (take-append-drop n left))
                    ∙ sym (append_assoc u (take n left) (drop n left)))),
          omega (
            arith,
            length-append u (take n left),
            length-take n left,
            not_less (length left) n h,
          ),
          omega arith,
        ),
        refl,
        refl,
        (omega arith, omega arith, omega arith, tt),
      )
  where
    not_less : (x y : ℕ) → ltb x y ≡ false → y ≤ x
    not_less x y h = ground arith

pub decode_string-NodeRead :
    (b : ℕ) (rest : Bytes) (p : ℕ)
    → Ensures (NodeRead (b ∷ rest) p) (decode_string p b rest (p + 1))
unfolding decode_string
decode_string-NodeRead b rest p =
    Ensures-bind (BytesRead rest (p + 1)) (NodeRead (b ∷ rest) p) (read_length rest (p + 1)) _
      (read_length-Moved rest (p + 1))
      λ (s, left, q) m.
        Ensures-if (NodeRead (b ∷ rest) p) (leading_zero (b ∷ s)) _ _ (λ e. tt)
          λ e. cut_string-NodeRead (atoi (b ∷ s)) b rest left p q m

int_node-NodeRead :
    (o : Option ℤ) (b : ℕ) (rest left : Bytes) (p q : ℕ)
    → Moved rest (p + 1) left q
    → Ensures (NodeRead (b ∷ rest) p) (int_node p o left q)
unfolding int_node Inside
int_node-NodeRead none b rest left p q m = tt
int_node-NodeRead (some i) b rest left p q m =
    let (_, lt) = Moved-length rest left (p + 1) q m in
    (Moved-cons b rest left p q m, refl, refl, (omega arith, omega arith, omega arith, tt))

pub decode_int-NodeRead :
    (b : ℕ) (rest : Bytes) (p : ℕ) → Ensures (NodeRead (b ∷ rest) p) (decode_int p rest (p + 1))
unfolding decode_int
decode_int-NodeRead b rest p =
    Ensures-bind (BytesRead rest (p + 1)) (NodeRead (b ∷ rest) p) (read_to_end rest (p + 1)) _
      (read_to_end-Moved rest (p + 1))
      λ (s, left, q) m.
        Ensures-if (NodeRead (b ∷ rest) p) (length s == 0) _ _ (λ e. tt)
          λ e.
            Ensures-if (NodeRead (b ∷ rest) p) (leading_zero s) _ _ (λ e. tt)
              λ e.
                Ensures-if (NodeRead (b ∷ rest) p) (negative_zero_in s) _ _ (λ e. tt)
                  λ e. int_node-NodeRead (parse_int s) b rest left p q m
