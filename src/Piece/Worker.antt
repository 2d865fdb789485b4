-- ===== src/Piece/Worker.antt =====
-- internal/piece/worker.go and verify.go: one round of the loop of `StartWorker`, with what it shares
-- with the other workers: the piece manager, the writer, the counters and the blacklist. What
-- others do between two rounds is another state at the start of the next one. SHA-1 is a parameter.
pub mod Rounds
pub mod Leaving
use sid_torrent.Prelude.{
  ℕ, zero, suc, ◌+◌, ◌*◌, Bool, true, false, ◌&&◌, Option, none, some, List, [], ◌∷◌, ltb, leb,
  ◌==◌, if◌then◌else◌, length, slice,
}
use sid_torrent.Prelude.Int.{ℤ, pos, pos_part}
use sid_torrent.Prelude.Bytes.{Bytes, bytes_equal}
use sid_torrent.Metrics.{MetricsTracker, inc_failed_pieces, inc_success_pieces, add_downloaded}
use sid_torrent.Torrent.Pieces.{file_piece_length_at}
use sid_torrent.Torrent.Parser.{TorrentFile}
use sid_torrent.Disk.{DiskWriter, DiskError, write_checked}
use sid_torrent.Peer.State.{Client}
use sid_torrent.Piece.Manager.{
  PieceManager, mark_complete, mark_failed, return_to_pending, is_complete, register_peer_bitfield,
  unregister_peer_bitfield,
}
use sid_torrent.Piece.Selection.{next_piece}
use sid_torrent.Piece.Download.{
  Download, downloaded, connection_lost, rejected, hung, download_piece,
}

-- `PieceHash`; `none` is its error.
unfoldable pub piece_hash : Bytes → ℕ → Option Bytes
piece_hash pieces i =
    if ltb (length pieces) (i * 20 + 20) then none else some (slice pieces (i * 20) 20)

unfoldable pub hash_equal : Bytes → Option Bytes → Bool
hash_equal actual none = false
hash_equal actual (some expected) = bytes_equal expected actual

pub record Worker : Type 0 where
  pub manager : PieceManager
  pub client : Client
  pub address : Bytes
  pub writer : DiskWriter
  pub metrics : MetricsTracker
  pub blacklist : List Bytes

-- What other goroutines do to the shared state: to the manager while NextPiece lets the mutex go, and to
-- everything while DownloadPiece runs.
pub record Others : Type 0 where
  pub between : PieceManager → PieceManager
  pub managed : PieceManager → PieceManager
  pub written : DiskWriter → DiskWriter
  pub counted : MetricsTracker → MetricsTracker
  pub banned : List Bytes → List Bytes

pub data WorkerError : Type 0 where
  lost too_many_retries malicious_peer : WorkerError

-- How a round ends: the loop goes on, at once or after a second; it is over, well or with an error; it
-- waits for the writer to take a piece; it waits for ever on a channel; or the program panics.
pub data Round : Type 0 where
  continues idles finishes waits : Worker → Round
  stops : Worker → WorkerError → Round
  hangs panics out_of_fuel : Round

abbrev pub with_manager : Worker → PieceManager → Worker
with_manager w pm = record w { manager = pm }

abbrev pub with_client : Worker → Client → Worker
with_client w c = record w { client = c }

abbrev pub meanwhile : Others → Worker → Worker
meanwhile o w = record w {
  manager = o.managed w.manager;
  writer = o.written w.writer;
  metrics = o.counted w.metrics;
  blacklist = o.banned w.blacklist;
}

abbrev pub failed_piece : Worker → Worker
failed_piece w = record w { metrics = inc_failed_pieces w.metrics }

-- After `ReturnToPending`, with what comes then.
unfoldable pub after_return : (Worker → Round) → Worker → Option PieceManager → Round
after_return next w none = panics
after_return next w (some pm) = next (with_manager w pm)

-- After `MarkFailed`.
unfoldable pub after_failed : (Worker → Round) → Worker → Option (PieceManager × Bool) → Round
after_failed next w none = panics
after_failed next w (some (pm, true)) = next (with_manager w pm)
after_failed next w (some (pm, false)) = stops (with_manager w pm) too_many_retries

-- A peer whose second piece is corrupt is blacklisted.
unfoldable pub count_corrupt : Worker → Round
count_corrupt w =
    let corrupt = w.client.state.corrupt_count + 1 in
    let counted =
      with_client w
        (record w.client { state = record w.client.state { corrupt_count = corrupt } }) in
    if leb 2 corrupt
    then stops (record counted { blacklist = w.address ∷ w.blacklist }) malicious_peer
    else continues counted

-- After `MarkComplete` of a piece of `bytes` bytes.
unfoldable pub after_complete : Worker → ℕ → Option PieceManager → Round
after_complete w bytes none = panics
after_complete w bytes (some pm) =
    let counted = record w {
      manager = pm;
      metrics = add_downloaded (inc_success_pieces w.metrics) bytes;
    } in
    if is_complete pm then finishes counted else continues counted

-- After `writer.WritePiece`.
unfoldable pub after_write : Worker → ℕ → Bytes → Option (DiskWriter × Option DiskError) → Round
unfolding after_failed after_complete
after_write w i bytes none = waits w
after_write w i bytes (some (dw, some e)) =
    let refused = failed_piece (record w { writer = dw }) in
    after_failed continues refused (mark_failed w.manager i)
after_write w i bytes (some (dw, none)) =
    after_complete (record w { writer = dw }) (length bytes)
      (mark_complete w.manager i (length bytes))

module _ (sha1 : Bytes → Bytes) (tf : TorrentFile) where
  -- `VerifyPiece`
  unfoldable pub verify_piece : ℕ → Bytes → Bool
  unfolding piece_hash hash_equal
  verify_piece i bytes = hash_equal (sha1 bytes) (piece_hash tf.pieces i)

  unfoldable pub after_verify : Worker → ℕ → Bytes → Bool → Round
  unfolding after_failed count_corrupt after_write
  after_verify w i bytes false =
      after_failed count_corrupt (failed_piece w) (mark_failed w.manager i)
  after_verify w i bytes true =
      after_write w i bytes (write_checked tf.total_length w.writer i bytes)

  unfoldable pub after_download : Worker → ℕ → Download → Round
  unfolding after_return after_verify verify_piece
  after_download w i (downloaded c bytes) =
      after_verify (with_client w c) i bytes (verify_piece i bytes)
  after_download w i (connection_lost c) =
      after_return (λ w'. stops w' lost) (failed_piece (with_client w c))
        (return_to_pending w.manager i)
  after_download w i (rejected c) =
      after_return continues (failed_piece (with_client w c)) (return_to_pending w.manager i)
  after_download w i hung = hangs
  after_download w i Download.out_of_fuel = out_of_fuel

  -- With no piece to ask for, the worker is done if nothing is pending or in progress.
  unfoldable pub without_piece : Worker → Round
  without_piece w =
      if (length w.manager.pending == 0) && (length w.manager.in_progress == 0)
      then finishes w
      else idles w

  -- The download works on the client alone, and what others do in that time on the shared state alone.
  unfoldable pub after_choice : ℤ → Others → Worker → Option (PieceManager × Option ℕ) → Round
  unfolding without_piece after_download
  after_choice queue_size o w none = panics
  after_choice queue_size o w (some (pm, none)) = without_piece (meanwhile o (with_manager w pm))
  after_choice queue_size o w (some (pm, some i)) =
      let size = pos_part (file_piece_length_at tf.total_length tf.piece_length (pos i)) in
      after_download (meanwhile o (with_manager w pm)) i (download_piece queue_size w.client i size)

  -- One round; `rand` is what `rand.Intn` is taken from.
  unfoldable pub worker_round : ℤ → ℕ → Others → Worker → Round
  unfolding after_choice
  worker_round queue_size rand o w =
      after_choice queue_size o w
        (next_piece w.manager (o.between w.manager) w.client.state.bitfield rand)

-- Before the loop of `StartWorker` the pieces of the peer are counted, and when it returns they are taken
-- back.
unfoldable pub join_peer : Worker → Round
unfolding after_return
join_peer w = after_return continues w (register_peer_bitfield w.manager w.client.state.bitfield)

unfoldable pub leave_peer : Worker → Round
unfolding after_return
leave_peer w = after_return finishes w (unregister_peer_bitfield w.manager w.client.state.bitfield)
