-- ===== src/Storage/Overlay.antt =====
-- Two ranges of bytes at their offsets, and what is copied from one to the other where they overlap.
use sid_torrent.Prelude.{
  ℕ, zero, suc, ◌+◌, ◌-◌, ◌<◌, ◌≤◌, ◌≡◌, refl, sym, ◌∙◌, ap, true, ◌&&◌, Bool-cases, ◌⊎◌, inl, inr,
  some, [], ◌∷◌, ◌++◌, arith, ltb, leb, if◌then◌else◌, length, length-append, get_or, get_elem?,
  splice, slice, list_ext, get_elem?_beyond, length-splice, length-slice, get_elem?-splice_before,
  get_elem?-splice_after, get_elem?-splice_in, get_elem?-slice,
}
use native.Mathlib.Decide.{dec_lt}
use sid_torrent.Prelude.Bytes.{Bytes}
use sid_torrent.Storage.{max_val, min_val}

-- The bytes `xs`, which stand from `st` on, with those of `ys`, which stand from `off` on, over them.
unfoldable pub overlay : Bytes → ℕ → ℕ → Bytes → Bytes
overlay [] st off ys = []
overlay (x ∷ xs) st off ys =
    (if leb off st && ltb st (off + length ys) then get_or ys (st - off) x else x)
    ∷ overlay xs (suc st) off ys

pub length-overlay :
    (xs : Bytes) (st off : ℕ) (ys : Bytes) → length (overlay xs st off ys) ≡ length xs
unfolding overlay
length-overlay [] st off ys = refl
length-overlay (x ∷ xs) st off ys = ap suc (length-overlay xs (suc st) off ys)

get_elem?-get_or : (ys : Bytes) (k d : ℕ) → k < length ys → some (get_or ys k d) ≡ get_elem? ys k
get_elem?-get_or [] k d h = absurd (omega arith)
get_elem?-get_or (y ∷ ys) zero d h = refl
get_elem?-get_or (y ∷ ys) (suc k) d h = get_elem?-get_or ys k d (omega arith)

pub get_elem?-overlay :
    (xs : Bytes) (st off : ℕ) (ys : Bytes) (j : ℕ)
    → j < length xs
    → get_elem? (overlay xs st off ys) j ≡ (
        if leb off (st + j) && ltb (st + j) (off + length ys)
        then get_elem? ys (st + j - off)
        else get_elem? xs j)
unfolding overlay
get_elem?-overlay [] st off ys j h = absurd (omega arith)
get_elem?-overlay (x ∷ xs) st off ys zero h =
    let e : st + 0 ≡ st = omega arith in
    rw e (elim (Bool-cases (leb off st && ltb st (off + length ys))) [
      | inl i ↦ rw i (get_elem?-get_or ys (st - off) x (ground arith))
      | inr o ↦ rw o
    ])
get_elem?-overlay (x ∷ xs) st off ys (suc j) h =
    let e : suc st + j ≡ st + suc j = omega arith in
    rw (← e) (get_elem?-overlay xs (suc st) off ys j (omega arith))

pub overlay-append :
    (xs zs : Bytes) (st off : ℕ) (ys : Bytes)
    → overlay (xs ++ zs) st off ys ≡ overlay xs st off ys ++ overlay zs (st + length xs) off ys
unfolding overlay
overlay-append [] zs st off ys = let e : st + 0 ≡ st = omega arith in rw e
overlay-append (x ∷ xs) zs st off ys =
    let e : suc st + length xs ≡ st + suc (length xs) = omega arith in
    rw (overlay-append xs zs (suc st) off ys, e)

-- Where the ranges do not meet nothing changes.
pub overlay_apart :
    (xs : Bytes) (st off : ℕ) (ys : Bytes)
    → (leb (st + length xs) off ≡ true) ⊎ (leb (off + length ys) st ≡ true)
    → overlay xs st off ys ≡ xs
overlay_apart xs st off ys h = list_ext _ xs λ j. elim (dec_lt j (length xs)) [
  | yes lt ↦ ground (arith, get_elem?-overlay xs st off ys j lt, h)
  | no ge ↦
      get_elem?_beyond _ j (omega (arith, length-overlay xs st off ys))
      ∙ sym (get_elem?_beyond xs j (omega arith))
]

-- The same at one place of `xs`, for the overlap from `s` on over `n` bytes.
spliced :
    (xs : Bytes) (st off : ℕ) (ys : Bytes) (s n j : ℕ)
    → st ≤ s
    → off ≤ s
    → (st ≡ s) ⊎ (off ≡ s)
    → s + n ≤ st + length xs
    → s + n ≤ off + length ys
    → (s + n ≡ st + length xs) ⊎ (s + n ≡ off + length ys)
    → j < length xs
    → get_elem? (splice xs (s - st) (slice ys (s - off) n)) j ≡ get_elem? (overlay xs st off ys) j
spliced xs st off ys s n j a b c d e f lt =
    let cut = slice ys (s - off) n in
    let long : length cut ≡ n = length-slice ys (s - off) n (omega arith) in
    let over = get_elem?-overlay xs st off ys j lt in
    elim (dec_lt j (s - st)) [
      | yes before ↦
          get_elem?-splice_before xs (s - st) cut j before ∙ sym (ground (arith, over, c))
      | no from ↦ elim (dec_lt j (s - st + n)) [
        | no after ↦
            get_elem?-splice_after xs (s - st) cut j (omega arith) ∙ sym (ground (arith, over, f))
        | yes within ↦
            let k = j - (s - st) in
            let place : s - st + k ≡ j = omega arith in
            let there : s - off + k ≡ st + j - off = omega arith in
            let inside : (leb off (st + j) && ltb (st + j) (off + length ys)) ≡ true =
              ground arith in
            let copied : get_elem? (splice xs (s - st) cut) (s - st + k)
                ≡ get_elem? ys (s - off + k) =
              get_elem?-splice_in xs (s - st) cut k (omega arith) (omega arith)
              ∙ get_elem?-slice ys (s - off) n k (omega arith) in
            rw (place, there) at copied ∙ sym (rw inside at over)
      ]
    ]

-- What `ReadAt` and `WriteAt` copy for one file.
pub splice_overlap :
    (xs : Bytes) (st off : ℕ) (ys : Bytes)
    → off < st + length xs
    → st < off + length ys
    → splice xs (max_val off st - st) (
        slice ys
          (max_val off st - off)
          (min_val (off + length ys) (st + length xs) - max_val off st))
      ≡ overlay xs st off ys
splice_overlap xs st off ys h k = list_ext _ _ λ j. elim (dec_lt j (length xs)) [
  | no ge ↦
      get_elem?_beyond _ j (
        omega (
          arith,
          length-splice xs (max_val off st - st) (
              slice ys (max_val off st - off)
                (min_val (off + length ys) (st + length xs) - max_val off st)),
        ))
      ∙ sym (get_elem?_beyond _ j (omega (arith, length-overlay xs st off ys)))
  | yes lt ↦
      spliced xs st off ys (max_val off st)
        (min_val (off + length ys) (st + length xs) - max_val off st) j (ground arith)
        (ground arith) (ground arith) (ground arith) (ground arith) (ground arith) lt
]

-- Over the whole range from 0 on, an overlay is a splice.
pub overlay-splice :
    (xs : Bytes) (off : ℕ) (ys : Bytes)
    → off + length ys ≤ length xs
    → overlay xs 0 off ys ≡ splice xs off ys
overlay-splice xs off ys h = list_ext _ _ λ j. elim (dec_lt j (length xs)) [
  | no ge ↦
      get_elem?_beyond _ j (omega (arith, length-overlay xs 0 off ys))
      ∙ sym (get_elem?_beyond _ j (omega (arith, length-splice xs off ys)))
  | yes lt ↦ whole j lt
]
  where
    whole :
        (j : ℕ) → j < length xs → get_elem? (overlay xs 0 off ys) j ≡ get_elem? (splice xs off ys) j
    whole j lt =
        let over = get_elem?-overlay xs 0 off ys j lt in
        let z : 0 + j ≡ j = omega arith in
        elim (dec_lt j off) [
          | yes before ↦ ground (arith, over, get_elem?-splice_before xs off ys j before)
          | no from ↦ elim (dec_lt j (off + length ys)) [
            | no after ↦ ground (arith, over, get_elem?-splice_after xs off ys j (omega arith))
            | yes within ↦
                let place : off + (j - off) ≡ j = omega arith in
                let copied = get_elem?-splice_in xs off ys (j - off) (omega arith) (omega arith) in
                let inside : (leb off j && ltb j (off + length ys)) ≡ true = ground arith in
                rw (z, inside) at over ∙ sym (rw place at copied)
          ]
        ]

-- A range that lies within the other is replaced by the bytes that stand there.
pub overlay-slice :
    (xs : Bytes) (st : ℕ) (ys : Bytes)
    → st + length xs ≤ length ys
    → overlay xs st 0 ys ≡ slice ys st (length xs)
overlay-slice xs st ys h =
    let long = length-slice ys st (length xs) h in
    list_ext _ _ λ j. elim (dec_lt j (length xs)) [
      | no ge ↦
          get_elem?_beyond _ j (omega (arith, length-overlay xs st 0 ys))
          ∙ sym (get_elem?_beyond _ j (omega arith))
      | yes lt ↦
          let over = get_elem?-overlay xs st 0 ys j lt in
          let inside : (leb 0 (st + j) && ltb (st + j) (0 + length ys)) ≡ true = ground arith in
          let z : st + j - 0 ≡ st + j = omega arith in
          rw (inside, z) at over ∙ sym (get_elem?-slice ys st (length xs) j lt)
    ]

get_or-append :
    (ys zs : Bytes) (k d : ℕ)
    → get_or (ys ++ zs) k d
      ≡ (if ltb k (length ys) then get_or ys k d else get_or zs (k - length ys) d)
get_or-append [] zs k d = let e : k - 0 ≡ k = omega arith in ground (arith, e)
get_or-append (y ∷ ys) zs zero d = ground arith
get_or-append (y ∷ ys) zs (suc k) d =
    let e : suc k - suc (length ys) ≡ k - length ys = omega arith in
    ground (arith, get_or-append ys zs k d, e)

-- Copying two ranges that follow each other copies both.
pub overlay_twice :
    (xs : Bytes) (st off : ℕ) (ys zs : Bytes)
    → overlay (overlay xs st off ys) st (off + length ys) zs ≡ overlay xs st off (ys ++ zs)
unfolding overlay
overlay_twice [] st off ys zs = refl
overlay_twice (x ∷ xs) st off ys zs =
    let e : st - off - length ys ≡ st - (off + length ys) = omega arith in
    cc (overlay_twice xs (suc st) off ys zs, head_of e)
  where
    head_of :
        st - off - length ys ≡ st - (off + length ys)
        → (if leb (off + length ys) st && ltb st (off + length ys + length zs)
            then get_or zs
                (st - (off + length ys))
                (if leb off st && ltb st (off + length ys) then get_or ys (st - off) x else x)
            else if leb off st && ltb st (off + length ys)
            then get_or ys (st - off) x
            else x)
          ≡ (if leb off st && ltb st (off + length (ys ++ zs))
              then get_or (ys ++ zs) (st - off) x
              else x)
    head_of e = ground (arith, get_or-append ys zs (st - off) x, length-append ys zs, e)
