-- ===== src/Torrent/Parser.antt =====
-- internal/torrent/parser.go: the metainfo out of the bencode tree. SHA-1 is a parameter. The decoder
-- makes no Go strings and no `int`, so that those cases of `asString`, `asBytes` and `asInt` do not
-- occur. The sums of lengths are integers, which do not overflow.
pub mod Trackers
pub mod Opened
use sid_torrent.Prelude.{
  ℕ, zero, suc, ◌+◌, ◌-◌, Bool, true, false, not, ◌&&◌, ◌||◌, Option, none, some, List, [], ◌∷◌,
  ◌++◌, ltb, ◌==◌, if◌then◌else◌, length, slice,
}
use sid_torrent.Prelude.Int.{ℤ, pos, ◌+ℤ◌, eqb_ℤ}
use sid_torrent.Prelude.Bytes.{Bytes, codes, bytes_equal}
use sid_torrent.Bencode.{Value, Items, Fields, no_items, item, find}
use sid_torrent.Bencode.Decoder.{
  Node, Shape, Entries, node, no_entries, entry, value_of, Result, DecodeError, decode_with_raw,
}

pub record FileEntry : Type 0 where
  pub size : ℤ
  pub path : List Bytes

pub record TorrentFile : Type 0 where
  pub announce : Bytes
  pub trackers : List (List Bytes)
  pub name : Bytes
  pub total_length : ℤ
  pub piece_length : ℤ
  pub pieces : Bytes
  pub info_hash : Bytes
  pub raw_info : Bytes
  pub files : List FileEntry
  pub is_multi_file : Bool

-- `out_of_fuel` is the decoder's, which does not happen.
pub data OpenError : Type 0 where
  undecodable : DecodeError → OpenError
  invalid_root missing_info no_size missing_name missing_piece_length missing_pieces : OpenError
  out_of_fuel : OpenError

pub data OpenResult {ℓ} (A : Type ℓ) : Type ℓ where
  ok : A → OpenResult A
  failed : OpenError → OpenResult A

infixl 5 ◌>>=◌
abbrev pub ◌>>=◌ {ℓ κ} :
    {A : Type ℓ} {B : Type κ} → OpenResult A → (A → OpenResult B) → OpenResult B
ok a >>= f = f a
failed e >>= f = failed e

-- `asString` and `asBytes` of the value of a key.
unfoldable pub as_bytes : Option Value → Option Bytes
as_bytes (some (Value.bytes s)) = some s
as_bytes _ = none

unfoldable pub as_int : Option Value → Option ℤ
as_int (some (Value.int i)) = some i
as_int _ = none

abbrev pub or_else {ℓ} : {A : Type ℓ} → A → Option A → A
or_else d none = d
or_else d (some a) = a

unfoldable pub as_dict : Option Value → Option Fields
as_dict (some (Value.dict fs)) = some fs
as_dict _ = none

unfoldable pub as_list : Option Value → Option Items
as_list (some (Value.list xs)) = some xs
as_list _ = none

-- The strings of a list; what is not a string is passed over.
unfoldable pub strings_of : Items → List Bytes
unfolding as_bytes
strings_of no_items = []
strings_of (item v xs) =
    let rest = strings_of xs in elim (as_bytes (some v)) [ none ↦ rest | some s ↦ s ∷ rest ]

unfoldable pub file_entry : Fields → FileEntry
unfolding as_int as_list strings_of
file_entry fs = record {
  size = or_else (pos 0) (as_int (find (codes "length") fs));
  path = strings_of (or_else no_items (as_list (find (codes "path") fs)));
}

-- The loop over `files`; what is not a dictionary is passed over.
unfoldable pub file_entries : Items → List FileEntry
unfolding file_entry as_dict
file_entries no_items = []
file_entries (item v xs) =
    let rest = file_entries xs in
    elim (as_dict (some v)) [ none ↦ rest | some fs ↦ file_entry fs ∷ rest ]

unfoldable pub add_sizes : ℤ → List FileEntry → ℤ
add_sizes total [] = total
add_sizes total (f ∷ files) = add_sizes (total +ℤ f.size) files

-- The loop of `addTier`: the trackers that are new, and all that have been seen.
abbrev pub is_seen : List Bytes → Bytes → Bool
is_seen [] raw = false
is_seen (s ∷ seen) raw = if bytes_equal s raw then true else is_seen seen raw

unfoldable pub keep_new : List Bytes → List Bytes → List Bytes × List Bytes
keep_new [] seen = ([], seen)
keep_new (raw ∷ raws) seen =
    let skipped = keep_new raws seen in
    let (tier, seen') = keep_new raws (raw ∷ seen) in
    if (length raw == 0) || is_seen seen raw then skipped else (raw ∷ tier, seen')

unfoldable pub add_tiers : List (List Bytes) → List Bytes → List (List Bytes)
unfolding keep_new
add_tiers [] seen = []
add_tiers (raws ∷ rest) seen =
    let (tier, seen') = keep_new raws seen in
    let tiers = add_tiers rest seen' in if ltb 0 (length tier) then tier ∷ tiers else tiers

unfoldable pub raw_tiers : Items → List (List Bytes)
unfolding as_list strings_of
raw_tiers no_items = []
raw_tiers (item v xs) =
    let rest = raw_tiers xs in
    elim (as_list (some v)) [ none ↦ rest | some ts ↦ strings_of ts ∷ rest ]

-- `collectTrackerTiers`
unfoldable pub collect_tracker_tiers : Bytes → Option Value → List (List Bytes)
unfolding add_tiers raw_tiers
collect_tracker_tiers primary announce_list =
    add_tiers ((primary ∷ []) ∷ raw_tiers (or_else no_items (as_list announce_list))) []

abbrev pub public_trackers : List (List Bytes)
public_trackers =
    (codes "udp://tracker.opentrackr.org:1337/announce" ∷ [])
    ∷ (codes "udp://open.demonii.com:1337/announce" ∷ [])
    ∷ (codes "udp://exodus.desync.com:6969/announce" ∷ [])
    ∷ (codes "http://tracker.opentrackr.org:1337/announce" ∷ [])
    ∷ []

unfoldable pub or_public : List (List Bytes) → List (List Bytes)
or_public [] = public_trackers
or_public (t ∷ ts) = t ∷ ts

unfoldable pub first_tracker : List (List Bytes) → Bytes
first_tracker ((t ∷ ts) ∷ tiers) = t
first_tracker _ = []

-- `rootNode.Dict[key]`, as the range of the data that it spans.
abbrev pub span_of : Bytes → Entries → Option (ℕ × ℕ)
span_of k no_entries = none
span_of k (entry j (node s start end) es) =
    if bytes_equal j k then some (start, end) else span_of k es

unfoldable pub root_span : Node → OpenResult (ℕ × ℕ)
root_span (node (Shape.dict es) start end) = elim (span_of (codes "info") es) [
  | none ↦ failed missing_info
  | some r ↦ ok r
]
root_span (node s start end) = failed invalid_root

unfoldable pub need {ℓ} : {A : Type ℓ} → OpenError → Option A → OpenResult A
need e none = failed e
need e (some a) = ok a

-- The total length, the files behind a `files` key, and whether there is one.
unfoldable pub measure : Fields → ℤ × List FileEntry × Bool
unfolding as_int as_list file_entries add_sizes
measure info =
    let single = or_else (pos 0) (as_int (find (codes "length") info)) in
    elim (as_list (find (codes "files") info)) [
      | none ↦ (single, [], false)
      | some fs ↦ (add_sizes single (file_entries fs), file_entries fs, true)
    ]

module _ (sha1 : Bytes → Bytes) where
  -- The torrent out of the fields that are needed.
  unfoldable pub built : Bytes → Fields → Fields → ℕ × ℕ → Bytes → ℤ → Bytes → TorrentFile
  unfolding measure as_bytes collect_tracker_tiers or_public first_tracker
  built content root info (start, end) name piece_length pieces =
      let (total, entries, multi) = measure info in
      let raw = slice content start (end - start) in
      let announce = or_else [] (as_bytes (find (codes "announce") root)) in
      let trackers =
        or_public (collect_tracker_tiers announce (find (codes "announce-list") root)) in
      record {
        announce = if length announce == 0 then first_tracker trackers else announce;
        trackers = trackers;
        name = name;
        total_length = total;
        piece_length = piece_length;
        pieces = pieces;
        info_hash = sha1 raw;
        raw_info = raw;
        files = if multi then entries else record { size = total; path = name ∷ [] } ∷ [];
        is_multi_file = multi;
      }

  -- The checks of the fields, one after the other.
  unfoldable pub need_pieces : (Bytes → TorrentFile) → Option Bytes → OpenResult TorrentFile
  need_pieces f none = failed missing_pieces
  need_pieces f (some pieces) = ok (f pieces)

  unfoldable pub need_piece_length :
      (ℤ → Bytes → TorrentFile) → Fields → Option ℤ → OpenResult TorrentFile
  unfolding need_pieces as_bytes
  need_piece_length f info none = failed missing_piece_length
  need_piece_length f info (some n) = need_pieces (f n) (as_bytes (find (codes "pieces") info))

  unfoldable pub need_name :
      (Bytes → ℤ → Bytes → TorrentFile) → Fields → Option Bytes → OpenResult TorrentFile
  unfolding need_piece_length as_int
  need_name f info none = failed missing_name
  need_name f info (some name) =
      need_piece_length (f name) info (as_int (find (codes "piece length") info))

  unfoldable pub assemble : Bytes → Fields → Fields → ℕ × ℕ → OpenResult TorrentFile
  unfolding measure built need_name as_bytes
  assemble content root info range =
      if eqb_ℤ (measure info).0 (pos 0)
      then failed no_size
      else need_name (built content root info range) info (as_bytes (find (codes "name") info))

  unfoldable pub open_node : Bytes → Result Node → OpenResult TorrentFile
  unfolding root_span need as_dict assemble
  open_node content (Result.failed e) = failed (undecodable e)
  open_node content Result.out_of_fuel = failed out_of_fuel
  open_node content (Result.ok n) = do
    root ← need invalid_root (as_dict (some (value_of n)))
    range ← root_span n
    info ← need missing_info (as_dict (find (codes "info") root))
    assemble content root info range

  -- `Open` of a file with the bytes `content`.
  unfoldable pub open_torrent : Bytes → OpenResult TorrentFile
  unfolding open_node
  open_torrent content = open_node content (decode_with_raw content)
