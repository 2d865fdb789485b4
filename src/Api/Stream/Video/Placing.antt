-- ===== src/Api/Stream/Video/Placing.antt =====
-- internal/api/server.go: the offset of a file, and longest files.
use sid_torrent.Prelude.{
  ◌≡◌, refl, ◌∙◌, ap, Bool, true, false, List, [], ◌∷◌, ◌++◌, append_assoc, arith,
}
use sid_torrent.Prelude.Int.{ℤ, pos, ◌+ℤ◌, ltb_ℤ}
use sid_torrent.Prelude.Bytes.{Bytes}
use sid_torrent.Torrent.Parser.{FileEntry}

-- Where the file behind those before it starts.
abbrev pub offset_of : ℤ → List FileEntry → ℤ
offset_of start [] = start
offset_of start (fe ∷ files) = offset_of (start +ℤ fe.size) files

-- No file for which the test holds is longer.
abbrev pub NoLonger : (FileEntry → Bool) → ℤ → List FileEntry → Type 0
NoLonger test best [] = Unit
NoLonger test best (fe ∷ files) =
    (test fe ≡ true → ltb_ℤ best fe.size ≡ false) × NoLonger test best files

abbrev pub NoneAre : (FileEntry → Bool) → List FileEntry → Type 0
NoneAre test [] = Unit
NoneAre test (fe ∷ files) = (test fe ≡ false) × NoneAre test files

-- A file of the list, with its path, its size and its place.
pub record IsPlaced (files : List FileEntry) (path : List Bytes) (size start : ℤ) (fe : FileEntry)
    : Type 0 where
  pub before : List FileEntry
  pub after : List FileEntry
  pub split : files ≡ before ++ fe ∷ after
  pub its_path : path ≡ fe.path
  pub its_size : size ≡ fe.size
  pub its_start : start ≡ offset_of (pos 0) before

abbrev pub any_file : FileEntry → Bool
any_file fe = true

unfoldable pub offset_of-append :
    (start : ℤ) (files : List FileEntry) (fe : FileEntry)
    → offset_of start (files ++ fe ∷ []) ≡ offset_of start files +ℤ fe.size
offset_of-append start [] fe = refl
offset_of-append start (g ∷ files) fe = offset_of-append (start +ℤ g.size) files fe

pub NoLonger-append :
    (test : FileEntry → Bool) (best : ℤ) (files : List FileEntry) (fe : FileEntry)
    → NoLonger test best files
    → (test fe ≡ true → ltb_ℤ best fe.size ≡ false)
    → NoLonger test best (files ++ fe ∷ [])
NoLonger-append test best [] fe h k = (k, tt)
NoLonger-append test best (g ∷ files) fe (h, hs) k = (h, NoLonger-append test best files fe hs k)

-- A longer file is no shorter than the others either.
pub NoLonger-raise :
    (test : FileEntry → Bool) (best better : ℤ) (files : List FileEntry)
    → ltb_ℤ best better ≡ true
    → NoLonger test best files
    → NoLonger test better files
NoLonger-raise test best better [] h k = tt
NoLonger-raise test best better (g ∷ files) h (k, ks) =
    (λ t. above t (k t), NoLonger-raise test best better files h ks)
  where
    above : test g ≡ true → ltb_ℤ best g.size ≡ false → ltb_ℤ better g.size ≡ false
    above t le = ground arith

pub NoneAre-append :
    (test : FileEntry → Bool) (files : List FileEntry) (fe : FileEntry)
    → NoneAre test files
    → test fe ≡ false
    → NoneAre test (files ++ fe ∷ [])
NoneAre-append test [] fe h k = (k, tt)
NoneAre-append test (g ∷ files) fe (h, hs) k = (h, NoneAre-append test files fe hs k)

pub NoneAre-NoLonger :
    (test : FileEntry → Bool) (best : ℤ) (files : List FileEntry)
    → NoneAre test files
    → NoLonger test best files
NoneAre-NoLonger test best [] h = tt
NoneAre-NoLonger test best (g ∷ files) (h, hs) = (λ t. cc, NoneAre-NoLonger test best files hs)

pub IsPlaced-append :
    (files : List FileEntry) (path : List Bytes) (size start : ℤ) (fe g : FileEntry)
    → IsPlaced files path size start fe
    → IsPlaced (files ++ g ∷ []) path size start fe
IsPlaced-append files path size start fe g p = record {
  before = p.before;
  after = p.after ++ g ∷ [];
  split = ap (λ l. l ++ g ∷ []) p.split ∙ append_assoc p.before (fe ∷ p.after) (g ∷ []);
  its_path = p.its_path;
  its_size = p.its_size;
  its_start = p.its_start;
}

pub IsPlaced-last :
    (files : List FileEntry) (start : ℤ) (fe : FileEntry)
    → start ≡ offset_of (pos 0) files
    → IsPlaced (files ++ fe ∷ []) fe.path fe.size start fe
IsPlaced-last files start fe e = record {
  before = files;
  after = [];
  split = refl;
  its_path = refl;
  its_size = refl;
  its_start = e;
}
