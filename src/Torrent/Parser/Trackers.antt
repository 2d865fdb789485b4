-- ===== src/Torrent/Parser/Trackers.antt =====
-- internal/torrent/parser.go: the tiers of trackers.
use sid_torrent.Prelude.{
  ◌≤◌, ◌≡◌, refl, sym, ◌∙◌, ap, false, ◌||◌, Bool-cases, inl, inr, Option, List, [], ◌∷◌, arith,
  subst, ltb, ◌==◌, length, Bool, true, ◌&&◌, ◌⊎◌, some, none,
}
use sid_torrent.Prelude.Bytes.{Bytes, bytes_equal, bytes_equal→eq, bytes_equal_refl}
use sid_torrent.Bencode.{Value, Items, item, no_items}
use sid_torrent.Torrent.Parser.{
  is_seen, keep_new, add_tiers, raw_tiers, or_else, as_list, collect_tracker_tiers, strings_of,
  as_bytes,
}

-- Each tracker is not empty, and has not come before.
abbrev pub AreNew : List Bytes → List Bytes → Type 0
AreNew seen [] = Unit
AreNew seen (t ∷ ts) = (1 ≤ length t) × (is_seen seen t ≡ false) × AreNew (t ∷ seen) ts

-- What has been seen behind a tier.
abbrev pub seen_after : List Bytes → List Bytes → List Bytes
seen_after seen [] = seen
seen_after seen (t ∷ ts) = seen_after (t ∷ seen) ts

-- No tier is empty.
abbrev pub AreTiers : List Bytes → List (List Bytes) → Type 0
AreTiers seen [] = Unit
AreTiers seen (tier ∷ tiers) =
    (1 ≤ length tier) × AreNew seen tier × AreTiers (seen_after seen tier) tiers

keep_new-AreNew :
    (raws seen : List Bytes)
    → AreNew seen (keep_new raws seen).0
      × ((keep_new raws seen).1 ≡ seen_after seen (keep_new raws seen).0)
unfolding keep_new
keep_new-AreNew [] seen = (tt, refl)
keep_new-AreNew (raw ∷ raws) seen =
    let (skipped, after) = keep_new-AreNew raws seen in
    let (taken, after') = keep_new-AreNew raws (raw ∷ seen) in
    elim (Bool-cases ((length raw == 0) || is_seen seen raw)) [
      | inl b ↦ rw b (skipped, after)
      | inr b ↦ rw b ((ground arith, ground arith, taken), after')
    ]

add_tiers-AreTiers :
    (raws : List (List Bytes)) (seen : List Bytes) → AreTiers seen (add_tiers raws seen)
unfolding add_tiers
add_tiers-AreTiers [] seen = tt
add_tiers-AreTiers (raw ∷ raws) seen =
    let (new, after) = keep_new-AreNew raw seen in
    let rest = add_tiers-AreTiers raws (keep_new raw seen).1 in
    elim (Bool-cases (ltb 0 (length (keep_new raw seen).0))) [
      | inl some_trackers ↦ rw some_trackers (
        ground arith,
        new,
        subst (λ s. AreTiers s (add_tiers raws (keep_new raw seen).1)) after rest,
      )
      | inr empty ↦
          let nothing = no_trackers (keep_new raw seen).0 empty in
          let same = after ∙ ap (seen_after seen) nothing in
          rw empty (subst (λ s. AreTiers s (add_tiers raws (keep_new raw seen).1)) same rest)
    ]
  where
    no_trackers : (ts : List Bytes) → ltb 0 (length ts) ≡ false → ts ≡ []
    no_trackers [] h = refl
    no_trackers (t ∷ ts) h = absurd (ground arith)

-- Is the address in one of the tiers?
abbrev pub in_tiers : List (List Bytes) → Bytes → Bool
in_tiers [] t = false
in_tiers (tier ∷ tiers) t = is_seen tier t || in_tiers tiers t

-- Is it among these, and not empty?
abbrev wanted : List Bytes → Bytes → Bool
wanted raws t = is_seen raws t && ltb 0 (length t)

abbrev wanted_in : List (List Bytes) → Bytes → Bool
wanted_in [] t = false
wanted_in (raws ∷ rest) t = wanted raws t || wanted_in rest t

-- What `addTier` keeps, with what was seen before.
keep_new-kept :
    (raws seen : List Bytes) (t : Bytes)
    → ((is_seen (keep_new raws seen).0 t || is_seen seen t) ≡ (wanted raws t || is_seen seen t))
      × (is_seen (keep_new raws seen).1 t ≡ (is_seen (keep_new raws seen).0 t || is_seen seen t))
unfolding keep_new
keep_new-kept [] seen t = (refl, refl)
keep_new-kept (raw ∷ raws) seen t =
    let (kept, after) = keep_new-kept raws seen t in
    let (kept', after') = keep_new-kept raws (raw ∷ seen) t in
    elim (Bool-cases (bytes_equal raw t)) [
      | inl e ↦
          let same : raw ≡ t = bytes_equal→eq raw t e in
          elim (Bool-cases ((length raw == 0) || is_seen seen raw)) [
            | inl b ↦ rw (b, e) (ground (arith, kept, after, rw same at b))
            | inr b ↦ rw (b, e) (ground (arith, kept', after', e, rw same at b))
          ]
      | inr ne ↦ elim (Bool-cases ((length raw == 0) || is_seen seen raw)) [
        | inl b ↦ rw (b, ne) (kept, after)
        | inr b ↦ rw (b, ne) (rw ne at kept', rw ne at after')
      ]
    ]

add_tiers-kept :
    (raws : List (List Bytes)) (seen : List Bytes) (t : Bytes)
    → (in_tiers (add_tiers raws seen) t || is_seen seen t) ≡ (wanted_in raws t || is_seen seen t)
unfolding add_tiers
add_tiers-kept [] seen t = refl
add_tiers-kept (raw ∷ raws) seen t =
    let (kept, after) = keep_new-kept raw seen t in
    let rest = add_tiers-kept raws (keep_new raw seen).1 t in
    elim (Bool-cases (ltb 0 (length (keep_new raw seen).0))) [
      | inl some_trackers ↦ rw some_trackers (ground (arith, kept, after, rest))
      | inr empty ↦
          let nothing : is_seen (keep_new raw seen).0 t ≡ false =
            no_member (keep_new raw seen).0 empty in
          rw empty (ground (arith, kept, after, rest, nothing))
    ]
  where
    no_member : (ts : List Bytes) → ltb 0 (length ts) ≡ false → is_seen ts t ≡ false
    no_member [] h = refl
    no_member (u ∷ us) h = absurd (ground arith)

-- The address is a string of the list.
abbrev pub IsNamed : Items → Bytes → Type 0
IsNamed no_items t = ⊥
IsNamed (item (Value.bytes s) xs) t = (s ≡ t) ⊎ IsNamed xs t
IsNamed (item v xs) t = IsNamed xs t

-- It is a string of one of the lists in the list.
abbrev pub IsNamedIn : Items → Bytes → Type 0
IsNamedIn no_items t = ⊥
IsNamedIn (item (Value.list xs) rest) t = IsNamed xs t ⊎ IsNamedIn rest t
IsNamedIn (item v rest) t = IsNamedIn rest t

abbrev pub IsNamedBy : Option Value → Bytes → Type 0
IsNamedBy (some (Value.list xs)) t = IsNamedIn xs t
IsNamedBy v t = ⊥

strings_of-IsNamed :
    (xs : Items) (t : Bytes)
    → (is_seen (strings_of xs) t ≡ true → IsNamed xs t)
      × (IsNamed xs t → is_seen (strings_of xs) t ≡ true)
unfolding strings_of as_bytes
strings_of-IsNamed no_items t = (λ h. cc, λ h. absurd h)
strings_of-IsNamed (item (Value.bytes s) xs) t =
    let (to, fro) = strings_of-IsNamed xs t in
    elim (Bool-cases (bytes_equal s t)) [
      | inl e ↦ (λ h. inl (bytes_equal→eq s t e), λ h. rw e refl)
      | inr ne ↦ (
        λ h. inr (to (rw ne at h)),
        λ h. elim h [
          | inl same ↦ let here : bytes_equal s t ≡ true = rw same (bytes_equal_refl t) in cc
          | inr later ↦ rw ne (fro later)
        ],
      )
    ]
strings_of-IsNamed (item (Value.int n) xs) t = strings_of-IsNamed xs t
strings_of-IsNamed (item (Value.list ys) xs) t = strings_of-IsNamed xs t
strings_of-IsNamed (item (Value.dict fs) xs) t = strings_of-IsNamed xs t

raw_tiers-IsNamedIn :
    (xs : Items) (t : Bytes)
    → (wanted_in (raw_tiers xs) t ≡ true → IsNamedIn xs t)
      × (IsNamedIn xs t → 1 ≤ length t → wanted_in (raw_tiers xs) t ≡ true)
unfolding raw_tiers as_list
raw_tiers-IsNamedIn no_items t = (λ h. cc, λ h k. absurd h)
raw_tiers-IsNamedIn (item (Value.list ys) xs) t =
    let (to, fro) = raw_tiers-IsNamedIn xs t in
    let (named, seen) = strings_of-IsNamed ys t in
    (
      λ h. elim (Bool-cases (wanted (strings_of ys) t)) [
        | inl e ↦ inl (named (ground arith))
        | inr ne ↦ inr (to (rw ne at h))
      ],
      λ h k. elim h [
        | inl here ↦ let e = seen here in ground arith
        | inr later ↦ let e = fro later k in ground arith
      ],
    )
raw_tiers-IsNamedIn (item (Value.bytes s) xs) t = raw_tiers-IsNamedIn xs t
raw_tiers-IsNamedIn (item (Value.int n) xs) t = raw_tiers-IsNamedIn xs t
raw_tiers-IsNamedIn (item (Value.dict fs) xs) t = raw_tiers-IsNamedIn xs t

named_by :
    (announce_list : Option Value) (t : Bytes)
    → (wanted_in (raw_tiers (or_else no_items (as_list announce_list))) t ≡ true
        → IsNamedBy announce_list t)
      × (IsNamedBy announce_list t
          → 1 ≤ length t
          → wanted_in (raw_tiers (or_else no_items (as_list announce_list))) t ≡ true)
unfolding as_list raw_tiers
named_by none t = (λ h. cc, λ h k. absurd h)
named_by (some (Value.list xs)) t = raw_tiers-IsNamedIn xs t
named_by (some (Value.bytes s)) t = (λ h. cc, λ h k. absurd h)
named_by (some (Value.int n)) t = (λ h. cc, λ h k. absurd h)
named_by (some (Value.dict fs)) t = (λ h. cc, λ h k. absurd h)

-- The tiers have every address that is given, but the empty one, and no other.
pub record AreCollected (primary : Bytes) (announce_list : Option Value) (tiers : List (List Bytes))
    : Type 0 where
  pub are_tiers : AreTiers [] tiers
  pub every :
      (t : Bytes)
      → 1 ≤ length t
      → (primary ≡ t) ⊎ IsNamedBy announce_list t
      → in_tiers tiers t ≡ true
  pub no_other : (t : Bytes) → in_tiers tiers t ≡ true → (primary ≡ t) ⊎ IsNamedBy announce_list t

or_false : (b : Bool) → (b || false) ≡ b
or_false true = refl
or_false false = refl

-- `collectTrackerTiers` gives every tracker, the announce address and the strings in the lists of the
-- announce list, exactly once over all tiers, but none with an empty address, and no empty tier.
pub collect_tracker_tiers-AreCollected :
    (primary : Bytes) (announce_list : Option Value)
    → AreCollected primary announce_list (collect_tracker_tiers primary announce_list)
unfolding collect_tracker_tiers
collect_tracker_tiers-AreCollected primary announce_list =
    let raws = (primary ∷ []) ∷ raw_tiers (or_else no_items (as_list announce_list)) in
    let kept : (t : Bytes) → in_tiers (add_tiers raws []) t ≡ wanted_in raws t =
      λ t. sym (or_false _) ∙ (add_tiers-kept raws [] t ∙ or_false _) in
    record {
      are_tiers = add_tiers-AreTiers raws [];
      every = λ t long given. kept t ∙ elim given [
        | inl first ↦
            let here : bytes_equal primary t ≡ true = rw first (bytes_equal_refl t) in ground arith
        | inr named ↦ let later = (named_by announce_list t).1 named long in ground arith
      ];
      no_other = λ t h. elim (Bool-cases (wanted (primary ∷ []) t)) [
        | inl here ↦ inl (bytes_equal→eq primary t (ground arith))
        | inr ne ↦ inr ((named_by announce_list t).0 (rw ne at (sym (kept t) ∙ h)))
      ];
    }
