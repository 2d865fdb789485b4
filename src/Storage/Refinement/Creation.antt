-- ===== src/Storage/Refinement/Creation.antt =====
-- internal/storage/storage.go: what `NewTorrentStorage` makes of the files of a torrent.
use sid_torrent.Prelude.{
  ℕ, zero, ◌+◌, ◌≡◌, ◌⊎◌, refl, ap, sym, subst, Bool-cases, true, false, inl, inr, none, some, List,
  [], ◌∷◌, ◌++◌, arith, length, length-append, length-take, length-replicate, replicate, take,
  Option-cases,
}
use sid_torrent.Prelude.Int.{ℤ, pos, negsuc}
use sid_torrent.Prelude.Bytes.{Bytes}
use sid_torrent.Storage.{
  PhysicalFile, OnDisk, CreateError, create_directory, open_file, truncate_file, Created, created,
  not_created, truncate, set_size, open_found, create_file, behind, lay_out, or_whole,
  new_torrent_storage,
}
use sid_torrent.Storage.Refinement.{IsLaidOut}

-- The file has the length of the torrent's entry and begins where the one before it ends. As far as
-- they go, its bytes are those that were found, and then zeros.
pub record IsCreated (st : ℕ) (size : ℤ) (d : OnDisk) (pf : PhysicalFile) : Type 0 where
  pub sized : pos (length pf.content) ≡ size
  pub starts : pf.start_offset ≡ st
  pub ends : pf.end_offset ≡ st + length pf.content
  pub same_fault : pf.fault ≡ d.later_fault
  pub directory : d.makes_directory ≡ true
  pub size_set : d.cuts ≡ true
  pub old : Bytes
  pub was_found : d.found ≡ some old
  pub kept : pf.content ≡ take (length pf.content) (old ++ replicate (length pf.content) 0)

-- One file for each entry, in order.
abbrev pub AreCreated : ℕ → List (ℤ × OnDisk) → List PhysicalFile → Type 0
AreCreated st [] [] = Unit
AreCreated st [] (pf ∷ pfs) = ⊥
AreCreated st (f ∷ files) [] = ⊥
AreCreated st ((size, d) ∷ files) (pf ∷ pfs) =
    IsCreated st size d pf × AreCreated (st + length pf.content) files pfs

-- What the error says of the entry at which it was found.
abbrev pub Refuses : CreateError → ℤ → OnDisk → Type 0
Refuses create_directory size d = d.makes_directory ≡ false
Refuses open_file size d = (d.makes_directory ≡ true) × (d.found ≡ none)
Refuses truncate_file size d =
    (d.makes_directory ≡ true) × ((d.cuts ≡ false) ⊎ ((n : ℕ) × (size ≡ negsuc n)))

-- Every file is there, or an entry is refused behind others of which each was created.
abbrev pub IsStorage : ℕ → List (ℤ × OnDisk) → Created → Type 0
IsStorage st files (created pfs) = AreCreated st files pfs
IsStorage st files (not_created e) =
    (before after : List (ℤ × OnDisk)) × (pfs : List PhysicalFile) × (size : ℤ) × (d : OnDisk)
    × (files ≡ before ++ (size, d) ∷ after)
    × AreCreated st before pfs
    × Refuses e size d

length-truncate : (n : ℕ) (old : Bytes) → length (truncate n old) ≡ n
unfolding truncate
length-truncate n old =
    let zeros : length (replicate n zero) ≡ n = length-replicate n zero in
    omega (arith, length-take n (old ++ replicate n 0), length-append old (replicate n 0), zeros)

-- A round of the loop goes on with the file, or ends with an error.
record HasMade (st : ℕ) (size : ℤ) (d : OnDisk) (next : PhysicalFile → Created) (r : Created)
    : Type 0 where
  file : PhysicalFile
  is_created : IsCreated st size d file
  run : r ≡ next file

record HasRefused (size : ℤ) (d : OnDisk) (r : Created) : Type 0 where
  error : CreateError
  refuses : Refuses error size d
  run : r ≡ not_created error

set_size-outcome :
    (st : ℕ) (size : ℤ) (d : OnDisk) (old : Bytes) (next : PhysicalFile → Created)
    → d.makes_directory ≡ true
    → d.found ≡ some old
    → HasMade st size d next (set_size st size d old next)
      ⊎ HasRefused size d (set_size st size d old next)
unfolding set_size
set_size-outcome st (negsuc n) d old next made found =
    inr (record { error = truncate_file; refuses = (made, inr (n, refl)); run = refl })
set_size-outcome st (pos n) d old next made found =
    let long = length-truncate n old in
    elim (Bool-cases d.cuts) [
      | inl cuts ↦ inl (record {
        file = record {
          content = truncate n old;
          fault = d.later_fault;
          start_offset = st;
          end_offset = st + n;
        };
        is_created = record {
          sized = ap pos long;
          starts = refl;
          ends = ap (λ k. st + k) (sym long);
          same_fault = refl;
          directory = made;
          size_set = cuts;
          old = old;
          was_found = found;
          kept = rw long (unfold truncate in refl);
        };
        run = rw cuts refl;
      })
      | inr stuck ↦
          inr (record { error = truncate_file; refuses = (made, inl stuck); run = rw stuck refl })
    ]

create_file-outcome :
    (st : ℕ) (size : ℤ) (d : OnDisk) (next : PhysicalFile → Created)
    → HasMade st size d next (create_file st size d next)
      ⊎ HasRefused size d (create_file st size d next)
unfolding create_file open_found
create_file-outcome st size d next = elim (Bool-cases d.makes_directory) [
  | inr no_directory ↦
      inr (record { error = create_directory; refuses = no_directory; run = rw no_directory refl })
  | inl made ↦ elim (Option-cases d.found) [
    | inl absent ↦
        inr (record { error = open_file; refuses = (made, absent); run = rw made (rw absent refl) })
    | inr (old, found) ↦
        let same : create_file st size d next ≡ set_size st size d old next =
          rw made (rw found refl) in
        subst (λ r. HasMade st size d next r ⊎ HasRefused size d r) (sym same)
          (set_size-outcome st size d old next made found)
  ]
]

behind-IsStorage :
    (st : ℕ) (size : ℤ) (d : OnDisk) (files : List (ℤ × OnDisk)) (pf : PhysicalFile) (r : Created)
    → IsCreated st size d pf
    → IsStorage (st + length pf.content) files r
    → IsStorage st ((size, d) ∷ files) (behind pf r)
behind-IsStorage st size d files pf (created pfs) c h = (c, h)
behind-IsStorage st size d files pf (not_created e) c
      (before, after, pfs, s, d', at, made, refused) =
    ((size, d) ∷ before, after, pf ∷ pfs, s, d', ap (λ l. (size, d) ∷ l) at, (c, made), refused)

lay_out-IsStorage : (st : ℕ) (files : List (ℤ × OnDisk)) → IsStorage st files (lay_out st files)
unfolding lay_out
lay_out-IsStorage st [] = tt
lay_out-IsStorage st ((size, d) ∷ files) =
    let next = λ (pf : PhysicalFile). behind pf (lay_out pf.end_offset files) in
    elim (create_file-outcome st size d next) [
      | inl m ↦
          let later = lay_out-IsStorage m.file.end_offset files in
          rw m.run (
            behind-IsStorage st size d files m.file (lay_out m.file.end_offset files) m.is_created (
              subst (λ k. IsStorage k files (lay_out m.file.end_offset files)) m.is_created.ends
                later))
      | inr f ↦ rw f.run ([], files, [], size, d, refl, tt, f.refuses)
    ]

-- `NewTorrentStorage` makes one file for each entry of the torrent, in order and one behind the other
-- from 0 on, each with exactly the length of its entry, with the bytes that were found as far as they go
-- and zeros behind them. Otherwise it gives the error of an entry whose directory, file or length the
-- operating system refuses, a negative length among them, behind entries of which none is refused. A
-- torrent without a list of files counts as one entry of its whole length.
pub new_torrent_storage-IsStorage :
    (total : ℤ) (d : OnDisk) (files : List (ℤ × OnDisk))
    → IsStorage 0 (or_whole total d files) (new_torrent_storage total d files)
unfolding new_torrent_storage
new_torrent_storage-IsStorage total d files = lay_out-IsStorage 0 (or_whole total d files)

abbrev pub AreHealthy : List PhysicalFile → Type 0
AreHealthy [] = Unit
AreHealthy (pf ∷ pfs) = (pf.fault ≡ none) × AreHealthy pfs

-- So the new storage is one flat array, if no later call fails.
pub AreCreated-IsLaidOut :
    (st : ℕ) (files : List (ℤ × OnDisk)) (pfs : List PhysicalFile)
    → AreCreated st files pfs
    → AreHealthy pfs
    → IsLaidOut st pfs
AreCreated-IsLaidOut st [] [] h k = tt
AreCreated-IsLaidOut st [] (pf ∷ pfs) h k = absurd h
AreCreated-IsLaidOut st (f ∷ files) [] h k = tt
AreCreated-IsLaidOut st ((size, d) ∷ files) (pf ∷ pfs) (c, h) (no_fault, k) =
    (no_fault, c.starts, c.ends, AreCreated-IsLaidOut (st + length pf.content) files pfs h k)
