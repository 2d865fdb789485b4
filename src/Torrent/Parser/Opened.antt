-- ===== src/Torrent/Parser/Opened.antt =====
-- internal/torrent/parser.go: the torrents that `Open` accepts.
use sid_torrent.Prelude.{
  ℕ, ◌-◌, slice, ◌≤◌, ◌≡◌, refl, subst, false, Bool-cases, inl, inr, Option, none, some, List, [],
  ◌∷◌, arith, length,
}
use sid_torrent.Prelude.Int.{ℤ, pos, eqb_ℤ}
use sid_torrent.Prelude.Bytes.{Bytes, codes}
use sid_torrent.Bencode.{Fields, find}
use sid_torrent.Bencode.Decoder.{Node, Result, value_of, decode_with_raw}
use sid_torrent.Torrent.Parser.{
  TorrentFile, OpenResult, ok, failed, ◌>>=◌, invalid_root, missing_info, need, as_dict, root_span,
  built, need_pieces, need_piece_length, need_name, open_node, open_torrent, as_bytes, as_int,
  or_public, measure, assemble,
}

-- A torrent that was accepted. The data are a tree whose root is a dictionary; `start` and `end` are
-- where the value behind its key `info` stands in the data, and this value is a dictionary.
pub record IsOpened (sha1 : Bytes → Bytes) (content : Bytes) (tf : TorrentFile) : Type 0 where
  pub tree : Node
  pub root : Fields
  pub info : Fields
  pub start : ℕ
  pub end : ℕ
  pub decoded : decode_with_raw content ≡ Result.ok tree
  pub is_root : as_dict (some (value_of tree)) ≡ some root
  pub is_info : as_dict (find (codes "info") root) ≡ some info
  pub spanned : root_span tree ≡ ok (start, end)
  pub raw : tf.raw_info ≡ slice content start (end - start)
  pub hashed : tf.info_hash ≡ sha1 (slice content start (end - start))
  pub named : as_bytes (find (codes "name") info) ≡ some tf.name
  pub cut : as_int (find (codes "piece length") info) ≡ some tf.piece_length
  pub has_pieces : as_bytes (find (codes "pieces") info) ≡ some tf.pieces
  pub sized : eqb_ℤ tf.total_length (pos 0) ≡ false
  pub tracked : 1 ≤ length tf.trackers
  pub one_file :
      tf.is_multi_file ≡ false
      → tf.files ≡ (record { size = tf.total_length; path = tf.name ∷ [] } ∷ [])

or_public-length : (ts : List (List Bytes)) → 1 ≤ length (or_public ts)
unfolding or_public
or_public-length [] = omega arith
or_public-length (t ∷ ts) = omega arith

-- What the checks let through, if it holds of every torrent that is built.
module _ (sha1 : Bytes → Bytes) (P : TorrentFile → Type 0) where
  need_pieces-passes :
      (f : Bytes → TorrentFile) (o : Option Bytes) {tf : TorrentFile}
      → ((a : Bytes) → o ≡ some a → P (f a))
      → need_pieces sha1 f o ≡ ok tf
      → P tf
  unfolding need_pieces
  need_pieces-passes f none h e = cc
  need_pieces-passes f (some a) h e = subst P (cc) (h a refl)

  need_piece_length-passes :
      (f : ℤ → Bytes → TorrentFile) (info : Fields) (o : Option ℤ) {tf : TorrentFile}
      → ((n : ℤ) (a : Bytes)
          → o ≡ some n
          → as_bytes (find (codes "pieces") info) ≡ some a
          → P (f n a))
      → need_piece_length sha1 f info o ≡ ok tf
      → P tf
  unfolding need_piece_length
  need_piece_length-passes f info none h e = cc
  need_piece_length-passes f info (some n) h e =
      need_pieces-passes (f n) (as_bytes (find (codes "pieces") info)) (λ a here. h n a refl here) e

  need_name-passes :
      (f : Bytes → ℤ → Bytes → TorrentFile) (info : Fields) (o : Option Bytes) {tf : TorrentFile}
      → ((s : Bytes) (n : ℤ) (a : Bytes)
          → o ≡ some s
          → as_int (find (codes "piece length") info) ≡ some n
          → as_bytes (find (codes "pieces") info) ≡ some a
          → P (f s n a))
      → need_name sha1 f info o ≡ ok tf
      → P tf
  unfolding need_name
  need_name-passes f info none h e = cc
  need_name-passes f info (some s) h e =
      need_piece_length-passes (f s) info (as_int (find (codes "piece length") info))
        (λ n a cut here. h s n a refl cut here) e

module _ (sha1 : Bytes → Bytes) (content : Bytes) (tree : Node)
    (decoded : decode_with_raw content ≡ Result.ok tree) where
  module _ (root info : Fields) (is_root : as_dict (some (value_of tree)) ≡ some root)
      (is_info : as_dict (find (codes "info") root) ≡ some info) where
    built-IsOpened :
        (range : ℕ × ℕ) (s : Bytes) (n : ℤ) (a : Bytes)
        → root_span tree ≡ ok range
        → eqb_ℤ (measure info).0 (pos 0) ≡ false
        → as_bytes (find (codes "name") info) ≡ some s
        → as_int (find (codes "piece length") info) ≡ some n
        → as_bytes (find (codes "pieces") info) ≡ some a
        → IsOpened sha1 content (built sha1 content root info range s n a)
    unfolding built
    built-IsOpened (start, end) s n a spanned sized named cut has_pieces = record {
      tree = tree;
      root = root;
      info = info;
      start = start;
      end = end;
      decoded = decoded;
      is_root = is_root;
      is_info = is_info;
      spanned = spanned;
      raw = refl;
      hashed = refl;
      named = named;
      cut = cut;
      has_pieces = has_pieces;
      sized = sized;
      tracked = or_public-length _;
      one_file = λ h. rw h refl;
    }

    assemble-IsOpened :
        (range : ℕ × ℕ) {tf : TorrentFile}
        → root_span tree ≡ ok range
        → assemble sha1 content root info range ≡ ok tf
        → IsOpened sha1 content tf
    unfolding assemble
    assemble-IsOpened range spanned h = elim (Bool-cases (eqb_ℤ (measure info).0 (pos 0))) [
      | inl b ↦ cc (rw b at h)
      | inr b ↦
          need_name-passes sha1 (IsOpened sha1 content) (built sha1 content root info range) info
            (as_bytes (find (codes "name") info))
            (λ s n a named cut here. built-IsOpened range s n a spanned b named cut here)
            (rw b at h)
    ]

  -- The steps before the fields are looked at.
  info-IsOpened :
      (root : Fields) (range : ℕ × ℕ) (o : Option Fields) {tf : TorrentFile}
      → as_dict (some (value_of tree)) ≡ some root
      → root_span tree ≡ ok range
      → as_dict (find (codes "info") root) ≡ o
      → (need missing_info o >>= (λ info. assemble sha1 content root info range)) ≡ ok tf
      → IsOpened sha1 content tf
  unfolding need
  info-IsOpened root range none is_root spanned e h = cc
  info-IsOpened root range (some info) is_root spanned e h =
      assemble-IsOpened root info is_root e range spanned h

  range-IsOpened :
      (root : Fields) (r : OpenResult (ℕ × ℕ)) {tf : TorrentFile}
      → as_dict (some (value_of tree)) ≡ some root
      → root_span tree ≡ r
      → (r >>= (λ range.
          need missing_info (as_dict (find (codes "info") root))
          >>= (λ info. assemble sha1 content root info range)))
        ≡ ok tf
      → IsOpened sha1 content tf
  range-IsOpened root (failed e) is_root spanned h = cc
  range-IsOpened root (ok range) is_root spanned h =
      info-IsOpened root range (as_dict (find (codes "info") root)) is_root spanned refl h

  root-IsOpened :
      (o : Option Fields) {tf : TorrentFile}
      → as_dict (some (value_of tree)) ≡ o
      → (need invalid_root o >>= (λ root. root_span tree >>= (λ range.
          need missing_info (as_dict (find (codes "info") root))
          >>= (λ info. assemble sha1 content root info range))))
        ≡ ok tf
      → IsOpened sha1 content tf
  unfolding need
  root-IsOpened none e h = cc
  root-IsOpened (some root) e h = range-IsOpened root (root_span tree) e refl h

open_node-IsOpened :
    (sha1 : Bytes → Bytes) (content : Bytes) (r : Result Node) {tf : TorrentFile}
    → decode_with_raw content ≡ r
    → open_node sha1 content r ≡ ok tf
    → IsOpened sha1 content tf
unfolding open_node
open_node-IsOpened sha1 content (Result.failed e) decoded h = cc
open_node-IsOpened sha1 content Result.out_of_fuel decoded h = cc
open_node-IsOpened sha1 content (Result.ok n) decoded h =
    root-IsOpened sha1 content n decoded (as_dict (some (value_of n))) refl h

-- When `Open` accepts a torrent, the data are a tree with a dictionary at its root, and under `info`
-- stands a dictionary there. The torrent's raw info is exactly the bytes of the data that this entry
-- spans, and its hash is their SHA-1 sum; its name, piece length and pieces are those of this
-- dictionary. Its length is not 0, it has at least one tier of trackers, and if it has no list of
-- files, it is one file of its name and its whole length.
pub open_torrent-IsOpened :
    (sha1 : Bytes → Bytes) (content : Bytes) {tf : TorrentFile}
    → open_torrent sha1 content ≡ ok tf
    → IsOpened sha1 content tf
unfolding open_torrent
open_torrent-IsOpened sha1 content h =
    open_node-IsOpened sha1 content (decode_with_raw content) refl h
