-- ===== src/Api/Stream/Video.antt =====
-- internal/api/server.go: which file `findVideoFile` picks.
mod Placing
use sid_torrent.Prelude.{
  ◌≡◌, ◌⊎◌, inl, inr, refl, ◌∙◌, ap, sym, Bool, true, false, not, ◌&&◌, ◌||◌, Bool-cases, some,
  List, [], ◌∷◌, ◌++◌, append_assoc, append-nil, arith,
}
use sid_torrent.Prelude.Int.{ℤ, pos, ◌+ℤ◌, ltb_ℤ, eqb_ℤ}
use sid_torrent.Prelude.Bytes.{Bytes}
use sid_torrent.Torrent.Parser.{FileEntry}
use sid_torrent.Api.Stream.{
  VideoFile, Choice, is_video, consider, consider_all, first_choice, video_of, find_video_file,
}
use sid_torrent.Api.Stream.Video.Placing.{
  offset_of, NoLonger, NoneAre, IsPlaced, any_file, offset_of-append, NoLonger-append,
  NoLonger-raise, NoneAre-append, NoneAre-NoLonger, IsPlaced-append, IsPlaced-last,
}

module _ (join : List Bytes → Bytes) where
  -- The best file so far: the longest video, or as long as there is none, the longest file that is not
  -- empty.
  abbrev IsBest : List FileEntry → Choice → Type 0
  IsBest files s =
      ((s.found_video ≡ true)
        × ((fe : FileEntry) × IsPlaced files s.best_path s.best_length s.best_start fe
            × (is_video join fe ≡ true))
        × NoLonger (is_video join) s.best_length files)
      ⊎ ((s.found_video ≡ false)
          × NoneAre (is_video join) files
          × NoLonger any_file s.best_length files
          × (((fe : FileEntry) × IsPlaced files s.best_path s.best_length s.best_start fe)
              ⊎ (s.best_length ≡ pos 0)))

  -- The state after a file that is taken, and after one that is not.
  abbrev taken : Choice → FileEntry → Bool → Choice
  taken s fe video = record s {
    best_path = fe.path;
    best_length = fe.size;
    best_start = s.current_offset;
    current_offset = s.current_offset +ℤ fe.size;
    found_video = video;
  }

  abbrev passed : Choice → FileEntry → Choice
  passed s fe = record s { current_offset = s.current_offset +ℤ fe.size }

  module _ (files : List FileEntry) (s : Choice) (fe : FileEntry)
      (here : s.current_offset ≡ offset_of (pos 0) files) where
    itself : ltb_ℤ fe.size fe.size ≡ false
    itself = ground arith

    video_taken :
        is_video join fe ≡ true
        → (not s.found_video || ltb_ℤ s.best_length fe.size) ≡ true
        → IsBest files s
        → IsBest (files ++ fe ∷ []) (taken s fe true)
    video_taken video more (inl (found, old, longest)) =
        let longer : ltb_ℤ s.best_length fe.size ≡ true = ground arith in
        inl (
          refl,
          (fe, IsPlaced-last files s.current_offset fe here, video),
          NoLonger-append (is_video join) fe.size files fe
              (NoLonger-raise (is_video join) s.best_length fe.size files longer longest)
              (λ v. itself),
        )
    video_taken video more (inr (missing, none_are, longest, old)) = inl (
      refl,
      (fe, IsPlaced-last files s.current_offset fe here, video),
      NoLonger-append (is_video join) fe.size files fe
          (NoneAre-NoLonger (is_video join) fe.size files none_are) (λ v. itself),
    )

    video_passed :
        (not s.found_video || ltb_ℤ s.best_length fe.size) ≡ false
        → IsBest files s
        → IsBest (files ++ fe ∷ []) (passed s fe)
    video_passed less (inl (found, (g, placed, video), longest)) =
        let no_longer : ltb_ℤ s.best_length fe.size ≡ false = ground arith in
        inl (
          found,
          (g, IsPlaced-append files s.best_path s.best_length s.best_start g fe placed, video),
          NoLonger-append (is_video join) s.best_length files fe longest (λ v. no_longer),
        )
    video_passed less (inr (missing, none_are, longest, old)) = absurd (ground arith)

    other_taken :
        is_video join fe ≡ false
        → (not s.found_video && ltb_ℤ s.best_length fe.size) ≡ true
        → IsBest files s
        → IsBest (files ++ fe ∷ []) (taken s fe s.found_video)
    other_taken other more (inl (found, old, longest)) = absurd (ground arith)
    other_taken other more (inr (missing, none_are, longest, old)) =
        let longer : ltb_ℤ s.best_length fe.size ≡ true = ground arith in
        inr (
          missing,
          NoneAre-append (is_video join) files fe none_are other,
          NoLonger-append any_file fe.size files fe
              (NoLonger-raise any_file s.best_length fe.size files longer longest) (λ v. itself),
          inl (fe, IsPlaced-last files s.current_offset fe here),
        )

    other_passed :
        is_video join fe ≡ false
        → (not s.found_video && ltb_ℤ s.best_length fe.size) ≡ false
        → IsBest files s
        → IsBest (files ++ fe ∷ []) (passed s fe)
    other_passed other less (inl (found, (g, placed, video), longest)) = inl (
      found,
      (g, IsPlaced-append files s.best_path s.best_length s.best_start g fe placed, video),
      NoLonger-append (is_video join) s.best_length files fe longest (λ v. cc),
    )
    other_passed other less (inr (missing, none_are, longest, old)) =
        let no_longer : ltb_ℤ s.best_length fe.size ≡ false = ground arith in
        inr (
          missing,
          NoneAre-append (is_video join) files fe none_are other,
          NoLonger-append any_file s.best_length files fe longest (λ v. no_longer),
          still old,
        )
      where
        still :
            ((g : FileEntry) × IsPlaced files s.best_path s.best_length s.best_start g)
              ⊎ (s.best_length ≡ pos 0)
            → ((g : FileEntry) × IsPlaced
                  (files ++ fe ∷ [])
                  s.best_path
                  s.best_length
                  s.best_start
                  g)
              ⊎ (s.best_length ≡ pos 0)
        still (inl (g, placed)) =
            inl (g, IsPlaced-append files s.best_path s.best_length s.best_start g fe placed)
        still (inr empty) = inr empty

    consider-IsBest : IsBest files s → IsBest (files ++ fe ∷ []) (consider join s fe)
    unfolding consider
    consider-IsBest best = elim (Bool-cases (is_video join fe)) [
      | inl video ↦ rw video (elim (Bool-cases (not s.found_video || ltb_ℤ s.best_length fe.size)) [
        | inl more ↦ rw more (video_taken video more best)
        | inr less ↦ rw less (video_passed less best)
      ])
      | inr other ↦ rw other (elim (Bool-cases (not s.found_video && ltb_ℤ s.best_length fe.size)) [
        | inl more ↦ rw more (other_taken other more best)
        | inr less ↦ rw less (other_passed other less best)
      ])
    ]

    consider-offset : (consider join s fe).current_offset ≡ offset_of (pos 0) (files ++ fe ∷ [])
    unfolding consider
    consider-offset = rw (offset_of-append (pos 0) files fe, ← here) (ground arith)

  consider_all-IsBest :
      (files later : List FileEntry) (s : Choice)
      → IsBest files s
      → s.current_offset ≡ offset_of (pos 0) files
      → IsBest (files ++ later) (consider_all join s later)
  unfolding consider_all
  consider_all-IsBest files [] s best here = rw append-nil best
  consider_all-IsBest files (fe ∷ later) s best here =
      rw (sym (append_assoc files (fe ∷ []) later)) (
        consider_all-IsBest (files ++ fe ∷ []) later (consider join s fe)
          (consider-IsBest files s fe here best) (consider-offset files s fe here))

  -- The file that is streamed is one of the torrent's, at its place among them: the longest video, or
  -- the longest file of a torrent without videos.
  pub record IsVideoFile (files : List FileEntry) (output_path : Bytes) (vf : VideoFile)
      : Type 0 where
    pub fe : FileEntry
    pub placed : IsPlaced files fe.path vf.length vf.start_offset fe
    pub its_path : vf.path ≡ join (output_path ∷ join fe.path ∷ [])
    pub longest :
        ((is_video join fe ≡ true) × NoLonger (is_video join) vf.length files)
        ⊎ (NoneAre (is_video join) files × NoLonger any_file vf.length files)

  IsBest-IsVideoFile :
      (files : List FileEntry) (output_path : Bytes) (s : Choice) {vf : VideoFile}
      → IsBest files s
      → video_of join output_path s ≡ some vf
      → IsVideoFile files output_path vf
  unfolding video_of
  IsBest-IsVideoFile files output_path s {vf} best h =
      elim (Bool-cases (eqb_ℤ s.best_length (pos 0))) [
        | inl empty ↦ cc (rw empty at h)
        | inr some_file ↦
            let e : record {
              path = join (output_path ∷ join s.best_path ∷ []);
              start_offset = s.best_start;
              length = s.best_length;
            }
                ≡ vf =
              cc (rw some_file at h) in
            rw (← e) (go some_file best)
      ]
    where
      chosen : VideoFile
      chosen = record {
        path = join (output_path ∷ join s.best_path ∷ []);
        start_offset = s.best_start;
        length = s.best_length;
      }

      moved :
          (fe : FileEntry)
          → IsPlaced files s.best_path s.best_length s.best_start fe
          → ((is_video join fe ≡ true) × NoLonger (is_video join) s.best_length files)
            ⊎ (NoneAre (is_video join) files × NoLonger any_file s.best_length files)
          → IsVideoFile files output_path chosen
      moved fe p l = record {
        fe = fe;
        placed = record {
          before = p.before;
          after = p.after;
          split = p.split;
          its_path = refl;
          its_size = p.its_size;
          its_start = p.its_start;
        };
        its_path = ap (λ q. join (output_path ∷ join q ∷ [])) p.its_path;
        longest = l;
      }

      go :
          eqb_ℤ s.best_length (pos 0) ≡ false
          → IsBest files s
          → IsVideoFile files output_path chosen
      go some_file (inl (found, (fe, p, video), longest)) = moved fe p (inl (video, longest))
      go some_file (inr (missing, none_are, longest, inl (fe, p))) =
          moved fe p (inr (none_are, longest))
      go some_file (inr (missing, none_are, longest, inr empty)) =
          let zero_length : eqb_ℤ s.best_length (pos 0) ≡ true = rw empty refl in cc

  -- When `findVideoFile` gives a file of a torrent with several, it is that file at the offset of all
  -- files before it: a longest video if there is a video, and else a longest file.
  pub find_video_file-IsVideoFile :
      (total : ℤ) (fe : FileEntry) (files : List FileEntry) (output_path : Bytes) {vf : VideoFile}
      → find_video_file join total (fe ∷ files) output_path ≡ some vf
      → IsVideoFile (fe ∷ files) output_path vf
  unfolding find_video_file
  find_video_file-IsVideoFile total fe files output_path h =
      let start : IsBest [] (first_choice join) = inr (refl, tt, tt, inr refl) in
      IsBest-IsVideoFile (fe ∷ files) output_path
        (consider_all join (first_choice join) (fe ∷ files))
        (consider_all-IsBest [] (fe ∷ files) (first_choice join) start refl) h
