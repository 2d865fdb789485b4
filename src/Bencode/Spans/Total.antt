-- ===== src/Bencode/Spans/Total.antt =====
-- internal/bencode/decoder.go: induction on the fuel of the decoder.
use sid_torrent.Prelude.{
  ℕ, zero, suc, ◌+◌, ◌*◌, ◌≤◌, ◌<◌, ◌≡◌, refl, ◌∙◌, ap, subst, [], ◌∷◌, arith, ◌==◌, length,
  length-append,
}
use sid_torrent.Prelude.Bytes.{Bytes}
use sid_torrent.Bencode.Decimal.{is_digit}
use sid_torrent.Bencode.Decoder.{
  Node, Shape, Nodes, Entries, node, no_entries, Result, ok, failed, out_of_fuel, put_entry, key_of,
  decode_value, decode_items, decode_entries, finish, decode_with_raw,
}
use sid_torrent.Bencode.Spans.{
  Ensures, Ensures-bind, Ensures-if, Moved, Moved-trans, Moved-length, Moved-cons, Moved-one,
  Inside, AllInside, EntriesInside, Inside-wider, AllInside-wider, EntriesInside-wider,
  put_entry-Inside, NodeRead, decode_string-NodeRead, decode_int-NodeRead,
}

abbrev NodesRead : Bytes → ℕ → Nodes × Bytes × ℕ → Type 0
NodesRead rest p (ns, left, q) = Moved rest p left q × AllInside p q ns

abbrev EntriesRead : Bytes → ℕ → Entries × Bytes × ℕ → Type 0
EntriesRead rest p (es, left, q) = Moved rest p left q × EntriesInside p q es

key_of-Ensures : (n : Node) → Ensures (λ k. Unit {0}) (key_of n)
unfolding key_of
key_of-Ensures (node (Shape.bytes s) a b) = tt
key_of-Ensures (node _ a b) = tt

NodeRead-Inside :
    (n : Node) (rest left : Bytes) (p q : ℕ)
    → NodeRead rest p (n, left, q)
    → Moved rest p left q × Inside p q n
NodeRead-Inside (node s a b) rest left p q (m, _, _, i) = (m, i)

Ensures-map :
    {A : Type 0} (P Q : A → Type 0) (r : Result A)
    → Ensures P r
    → ((a : A) → P a → Q a)
    → Ensures Q r
Ensures-map P Q (ok a) h k = k a h
Ensures-map P Q (failed e) h k = tt
Ensures-map P Q out_of_fuel h k = h

EntriesRead-from : Bytes → ℕ → ℕ → Entries × Bytes × ℕ → Type 0
EntriesRead-from rest lo p (es, left, q) = Moved rest p left q × EntriesInside lo q es

mutual
  unfolding decode_value Inside EntriesRead-from

  value_read :
      (f : ℕ) (rest : Bytes) (p : ℕ)
      → 2 * length rest < f
      → Ensures (NodeRead rest p) (decode_value f rest p)
  value_read zero rest p h = absurd (omega arith)
  value_read (suc f) [] p h = tt
  value_read (suc f) (b ∷ rest) p h =
      let P = NodeRead (b ∷ rest) p in
      let on_list =
        Ensures-bind (NodesRead rest (p + 1)) P (decode_items f rest (p + 1)) _
          (items_read f rest (p + 1) (omega arith))
          λ (ns, left, q) (m, i).
            let (_, lt) = Moved-length rest left (p + 1) q m in
            (
              Moved-cons b rest left p q m,
              refl,
              refl,
              (
                omega arith,
                omega arith,
                omega arith,
                AllInside-wider ns (p + 1) q p q (omega arith) (omega arith) i,
              ),
            ) in
      let on_dict =
        Ensures-bind (EntriesRead-from rest (p + 1) (p + 1)) P
          (decode_entries f rest (p + 1) no_entries) _
          (entries_read f rest (p + 1) (p + 1) no_entries (omega arith) (omega arith) tt)
          λ (es, left, q) (m, i).
            let (_, lt) = Moved-length rest left (p + 1) q m in
            (
              Moved-cons b rest left p q m,
              refl,
              refl,
              (
                omega arith,
                omega arith,
                omega arith,
                EntriesInside-wider es (p + 1) q p q (omega arith) (omega arith) i,
              ),
            ) in
      Ensures-if P (is_digit b) _ _ (λ e. decode_string-NodeRead b rest p)
        λ e.
          Ensures-if P (b == b'i') _ _ (λ e. decode_int-NodeRead b rest p)
            λ e.
              Ensures-if P (b == b'l') _ _ (λ e. on_list)
                λ e. Ensures-if P (b == b'd') _ _ (λ e. on_dict) λ e. tt

  items_read :
      (f : ℕ) (rest : Bytes) (p : ℕ)
      → 2 * length rest + 1 < f
      → Ensures (NodesRead rest p) (decode_items f rest p)
  items_read zero rest p h = absurd (omega arith)
  items_read (suc f) [] p h = tt
  items_read (suc f) (b ∷ rest) p h =
      let P = NodesRead (b ∷ rest) p in
      Ensures-if P (b == b'e') _ _ (λ e. (Moved-one b rest p, tt))
        λ e.
          Ensures-bind (NodeRead (b ∷ rest) p) P (decode_value f (b ∷ rest) p) _
            (value_read f (b ∷ rest) p (omega arith))
            λ (n, left, q) got.
              let (m, i) = NodeRead-Inside n (b ∷ rest) left p q got in
              let (short, lt) = Moved-length (b ∷ rest) left p q m in
              Ensures-bind (NodesRead left q) P (decode_items f left q) _
                (items_read f left q (omega arith))
                λ (ns, left', q') (m', j).
                  let (_, lt') = Moved-length left left' q q' m' in
                  (
                    Moved-trans (b ∷ rest) left left' p q q' m m',
                    (
                      Inside-wider n p q p q' (omega arith) (omega arith) i,
                      AllInside-wider ns q q' p q' (omega arith) (omega arith) j,
                    ),
                  )

  entries_read :
      (f : ℕ) (rest : Bytes) (lo p : ℕ) (es : Entries)
      → 2 * length rest + 1 < f
      → lo ≤ p
      → EntriesInside lo p es
      → Ensures (EntriesRead-from rest lo p) (decode_entries f rest p es)
  entries_read zero rest lo p es h le i = absurd (omega arith)
  entries_read (suc f) [] lo p es h le i = tt
  entries_read (suc f) (b ∷ rest) lo p es h le i =
      let P = EntriesRead-from (b ∷ rest) lo p in
      Ensures-if P (b == b'e') _ _
        (λ e. (
          Moved-one b rest p,
          EntriesInside-wider es lo p lo (p + 1) (omega arith) (omega arith) i,
        ))
        λ e.
          Ensures-bind (NodeRead (b ∷ rest) p) P (decode_value f (b ∷ rest) p) _
            (value_read f (b ∷ rest) p (omega arith))
            λ (k, left, q) got.
              let (m, _) = NodeRead-Inside k (b ∷ rest) left p q got in
              let (short, lt) = Moved-length (b ∷ rest) left p q m in
              Ensures-bind (λ key. Unit {0}) P (key_of k) _ (key_of-Ensures k)
                λ key _.
                  Ensures-bind (NodeRead left q) P (decode_value f left q) _
                    (value_read f left q (omega arith))
                    λ (n, left', q') got'.
                      let (m', j) = NodeRead-Inside n left left' q q' got' in
                      let (short', lt') = Moved-length left left' q q' m' in
                      let es' = put_entry key n es in
                      let inside =
                        put_entry-Inside key n es lo q'
                          (Inside-wider n q q' lo q' (omega arith) (omega arith) j)
                          (EntriesInside-wider es lo p lo q' (omega arith) (omega arith) i) in
                      Ensures-map (EntriesRead-from left' lo q') P (decode_entries f left' q' es')
                        (entries_read f left' lo q' es' (omega arith) (omega arith) inside)
                        λ (more, left'', q'') (m'', i'). (
                          Moved-trans (b ∷ rest) left' left'' p q' q''
                              (Moved-trans (b ∷ rest) left left' p q q' m m') m'',
                          i',
                        )

finish-Ensures :
    (n : Node) (data' left : Bytes) (q : ℕ)
    → NodeRead data' 0 (n, left, q)
    → Ensures (λ m. NodeRead data' 0 (m, [], length data')) (finish n left)
unfolding finish
finish-Ensures n data' (b ∷ left) q r = tt
finish-Ensures (node s a e) data' [] q ((u, whole, moved, long), start, end, inside) =
    let all : q ≡ length data' = omega (arith, ap length whole, length-append u []) in
    (
      (u, whole, omega arith, long),
      start,
      end ∙ all,
      subst (λ k. Inside 0 k (node s a e)) all inside,
    )

-- `DecodeWithRaw` always ends, and a node that it gives spans the whole data, with every nested node
-- within the range of the one that holds it: no `data[n.Start:n.End]` is out of range.
pub decode_with_raw-Ensures :
    (data' : Bytes) → Ensures (λ n. NodeRead data' 0 (n, [], length data')) (decode_with_raw data')
unfolding decode_with_raw
decode_with_raw-Ensures data' =
    Ensures-bind (NodeRead data' 0) (λ n. NodeRead data' 0 (n, [], length data'))
      (decode_value (2 * length data' + 2) data' 0) _
      (value_read (2 * length data' + 2) data' 0 (omega arith))
      λ (n, left, q) r. finish-Ensures n data' left q r
