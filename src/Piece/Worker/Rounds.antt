-- ===== src/Piece/Worker/Rounds.antt =====
-- internal/piece/worker.go: what a round of a worker does to what it shares with the others.
pub mod Steps
pub mod Among
use sid_torrent.Prelude.{
  ℕ, ◌+◌, ◌<◌, ◌≤◌, ◌≡◌, ◌⊎◌, inl, inr, refl, sym, ◌∙◌, ap, subst, Bool, true, false, not, ◌&&◌,
  Bool-cases, Option-cases, Option, none, some, List, [], ◌∷◌, ◌++◌, arith, leb, ltb, ◌==◌, length,
  get_elem?,
}
use sid_torrent.Prelude.Int.{ℤ, pos, pos_part, eqb_ℤ}
use sid_torrent.Prelude.Bytes.{Bytes}
use sid_torrent.Prelude.Keys.{has, has-insert}
use sid_torrent.Metrics.{add_downloaded, inc_success_pieces}
use sid_torrent.Torrent.Pieces.{file_piece_length_at}
use sid_torrent.Torrent.Parser.{TorrentFile}
use sid_torrent.Peer.State.{served}
use sid_torrent.Disk.{DiskWriter, DiskError, write_checked, write_piece, default_queue_size}
use sid_torrent.Piece.Manager.{
  PieceManager, mark_complete, mark_failed, attempts, return_to_pending, is_complete,
}
use sid_torrent.Piece.Manager.Invariant.{
  IsValid, return_to_pending-Keeps, mark_failed-Keeps, mark_complete-Keeps,
}
use sid_torrent.Piece.Selection.{next_piece}
use sid_torrent.Piece.Selection.Rarest.{Claimed, RarestOutcome, chosen, nothing}
use sid_torrent.Piece.Selection.Streaming.{
  PieceOutcome, priority, streaming, rarest, StreamingOutcome, in_window, by_rarity,
  next_piece-PieceOutcome,
}
use sid_torrent.Piece.Download.{
  Download, downloaded, connection_lost, rejected, hung, download_piece,
}
use sid_torrent.Piece.Download.Outcomes.{IsEnded, download_piece-IsEnded}
use sid_torrent.Piece.Worker.{
  Worker, Round, continues, idles, finishes, waits, stops, hangs, panics, with_manager, with_client,
  failed_piece, after_return, after_failed, count_corrupt, after_complete, after_write,
  verify_piece, after_verify, after_download, without_piece, after_choice, worker_round, lost,
  Others, meanwhile,
}
use sid_torrent.Piece.Worker.Rounds.Steps.{
  Frames, return_to_pending-Frames, FramesPair, mark_failed-Frames, Completes,
  mark_complete-Completes, IsChoice, piece-IsChoice, Written, write_checked-Written,
}

module _ (sha1 : Bytes → Bytes) (tf : TorrentFile) where
  -- What a round leaves. A piece that is completed now and was not before has the torrent's hash, and
  -- its bytes are the last that the writer took. Who is blacklisted has sent two corrupt pieces.
  pub record IsRound (w w' : Worker) : Type 0 where
    pub valid : IsValid w'.manager
    pub total : w'.manager.total_pieces ≡ w.manager.total_pieces
    pub checked :
        (j : ℕ)
        → has j w'.manager.completed ≡ true
        → (has j w.manager.completed ≡ true)
          ⊎ ((bytes : Bytes) × (verify_piece sha1 tf j bytes ≡ true)
              × (w'.writer.queue ≡ w.writer.queue ++ (j, bytes) ∷ []))
    pub blacklisted :
        (w'.blacklist ≡ w.blacklist)
        ⊎ ((w'.blacklist ≡ w.address ∷ w.blacklist) × (2 ≤ w'.client.state.corrupt_count))

  abbrev pub IsRoundOf : Worker → Round → Type 0
  IsRoundOf w (continues w') = IsRound w w'
  IsRoundOf w (idles w') = IsRound w w'
  IsRoundOf w (finishes w') =
      IsRound w w'
      × ((is_complete w'.manager ≡ true)
          ⊎ ((length w'.manager.pending ≡ 0) × (length w'.manager.in_progress ≡ 0)))
  IsRoundOf w (waits w') = IsRound w w'
  IsRoundOf w (stops w' e) = IsRound w w'
  IsRoundOf w hangs = served w.client.peer_chan ≡ false
  IsRoundOf w panics = ⊥
  IsRoundOf w Round.out_of_fuel = ⊥

  -- What the worker is before it takes up the piece, seen from the start of the round.
  pub record IsSame (w w' : Worker) : Type 0 where
    pub valid : IsValid w'.manager
    pub total : w'.manager.total_pieces ≡ w.manager.total_pieces
    pub completed : w'.manager.completed ≡ w.manager.completed
    pub queue : w'.writer.queue ≡ w.writer.queue
    pub blacklist : w'.blacklist ≡ w.blacklist
    pub address : w'.address ≡ w.address

  IsSame-IsRound : (w w' : Worker) → IsSame w w' → IsRound w w'
  IsSame-IsRound w w' s = record {
    valid = s.valid;
    total = s.total;
    checked = λ j h. inl (rw s.completed at h);
    blacklisted = inl s.blacklist;
  }

  pub unchanged : (w : Worker) → IsValid w.manager → IsSame w w
  unchanged w v = record {
    valid = v;
    total = refl;
    completed = refl;
    queue = refl;
    blacklist = refl;
    address = refl;
  }

  IsSame-framed :
      (w0 w w' : Worker)
      → IsSame w0 w
      → IsValid w'.manager
      → w'.manager.total_pieces ≡ w.manager.total_pieces
      → w'.manager.completed ≡ w.manager.completed
      → w'.writer.queue ≡ w.writer.queue
      → w'.blacklist ≡ w.blacklist
      → w'.address ≡ w.address
      → IsSame w0 w'
  IsSame-framed w0 w w' s v t c q b a = record {
    valid = v;
    total = t ∙ s.total;
    completed = c ∙ s.completed;
    queue = q ∙ s.queue;
    blacklist = b ∙ s.blacklist;
    address = a ∙ s.address;
  }

  after_return-IsRoundOf :
      (w0 w : Worker) (next : Worker → Round) (o : Option PieceManager)
      → IsSame w0 w
      → Frames w.manager o
      → ((w' : Worker) → IsSame w0 w' → IsRoundOf w0 (next w'))
      → IsRoundOf w0 (after_return next w o)
  unfolding after_return
  after_return-IsRoundOf w0 w next none s f h = f
  after_return-IsRoundOf w0 w next (some pm) s (v, t, c) h =
      h (with_manager w pm) (IsSame-framed w0 w (with_manager w pm) s v t c refl refl refl)

  after_failed-IsRoundOf :
      (w0 w : Worker) (next : Worker → Round) (o : Option (PieceManager × Bool))
      → IsSame w0 w
      → FramesPair w.manager o
      → ((w' : Worker) → IsSame w0 w' → IsRoundOf w0 (next w'))
      → IsRoundOf w0 (after_failed next w o)
  unfolding after_failed
  after_failed-IsRoundOf w0 w next none s f h = f
  after_failed-IsRoundOf w0 w next (some (pm, true)) s (v, t, c) h =
      h (with_manager w pm) (IsSame-framed w0 w (with_manager w pm) s v t c refl refl refl)
  after_failed-IsRoundOf w0 w next (some (pm, false)) s (v, t, c) h =
      IsSame-IsRound w0 (with_manager w pm)
        (IsSame-framed w0 w (with_manager w pm) s v t c refl refl refl)

  count_corrupt-IsRoundOf : (w0 w : Worker) → IsSame w0 w → IsRoundOf w0 (count_corrupt w)
  unfolding count_corrupt
  count_corrupt-IsRoundOf w0 w s = elim (Bool-cases (leb 2 (w.client.state.corrupt_count + 1))) [
    | inl second ↦ rw second (record {
      valid = s.valid;
      total = s.total;
      checked = λ j h. inl (rw s.completed at h);
      blacklisted = inr (rw (s.address, s.blacklist) refl, ground (arith, second));
    })
    | inr first ↦ rw first (record {
      valid = s.valid;
      total = s.total;
      checked = λ j h. inl (rw s.completed at h);
      blacklisted = inl s.blacklist;
    })
  ]

  after_complete-IsRoundOf :
      (w0 w : Worker) (i : ℕ) (bytes : Bytes) (dw : DiskWriter) (o : Option PieceManager)
      → IsSame w0 w
      → verify_piece sha1 tf i bytes ≡ true
      → dw.queue ≡ w.writer.queue ++ (i, bytes) ∷ []
      → Completes w.manager i o
      → IsRoundOf w0 (after_complete (record w { writer = dw }) (length bytes) o)
  unfolding after_complete
  after_complete-IsRoundOf w0 w i bytes dw none s ok taken f = f
  after_complete-IsRoundOf w0 w i bytes dw (some pm) s ok taken (v, t, c) =
      let counted = record w {
        manager = pm;
        writer = dw;
        metrics = add_downloaded (inc_success_pieces w.metrics) (length bytes);
      } in
      let done : IsRound w0 counted = record {
        valid = v;
        total = t ∙ s.total;
        checked = λ j h. new j (c j h);
        blacklisted = inl s.blacklist;
      } in
      elim (Bool-cases (is_complete pm)) [
        | inl all ↦ rw all (done, inl all)
        | inr more ↦ rw more done
      ]
    where
      new :
          (j : ℕ)
          → (has j w.manager.completed ≡ true) ⊎ (i ≡ j)
          → (has j w0.manager.completed ≡ true)
            ⊎ ((b : Bytes) × (verify_piece sha1 tf j b ≡ true)
                × (dw.queue ≡ w0.writer.queue ++ (j, b) ∷ []))
      new j (inl old) = inl (rw s.completed at old)
      new j (inr same) = inr (bytes, rw same at ok, rw (← same) (rw s.queue at taken))

  after_write-IsRoundOf :
      (w0 w : Worker) (i : ℕ) (bytes : Bytes) (r : Option (DiskWriter × Option DiskError))
      → IsSame w0 w
      → i < w.manager.total_pieces
      → verify_piece sha1 tf i bytes ≡ true
      → Written w.writer i bytes r
      → IsRoundOf w0 (after_write w i bytes r)
  unfolding after_write
  after_write-IsRoundOf w0 w i bytes none s lt ok taken = IsSame-IsRound w0 w s
  after_write-IsRoundOf w0 w i bytes (some (dw, none)) s lt ok taken =
      after_complete-IsRoundOf w0 w i bytes dw (mark_complete w.manager i (length bytes)) s ok taken
        (mark_complete-Completes w.manager i (length bytes) s.valid lt)
  after_write-IsRoundOf w0 w i bytes (some (dw, some e)) s lt ok same =
      let w' = failed_piece (record w { writer = dw }) in
      let s' : IsSame w0 w' = IsSame-framed w0 w w' s s.valid refl refl same refl refl in
      after_failed-IsRoundOf w0 w' continues (mark_failed w.manager i) s'
        (mark_failed-Frames w.manager i s.valid lt) (λ d h. IsSame-IsRound w0 d h)

  after_verify-IsRoundOf :
      (w0 w : Worker) (i : ℕ) (bytes : Bytes) (b : Bool)
      → IsSame w0 w
      → i < w.manager.total_pieces
      → verify_piece sha1 tf i bytes ≡ b
      → IsRoundOf w0 (after_verify sha1 tf w i bytes b)
  unfolding after_verify
  after_verify-IsRoundOf w0 w i bytes false s lt bad =
      let w' = failed_piece w in
      let s' : IsSame w0 w' = IsSame-framed w0 w w' s s.valid refl refl refl refl refl in
      after_failed-IsRoundOf w0 w' count_corrupt (mark_failed w.manager i) s'
        (mark_failed-Frames w.manager i s.valid lt) (count_corrupt-IsRoundOf w0)
  after_verify-IsRoundOf w0 w i bytes true s lt ok =
      after_write-IsRoundOf w0 w i bytes (write_checked tf.total_length w.writer i bytes) s lt ok
        (write_checked-Written tf.total_length w.writer i bytes)

  pub after_download-IsRoundOf :
      (w0 w : Worker) (i total size : ℕ) (d : Download)
      → IsSame w0 w
      → i < w.manager.total_pieces
      → IsEnded total size w0.client d
      → IsRoundOf w0 (after_download sha1 tf w i d)
  unfolding after_download
  after_download-IsRoundOf w0 w i total size (downloaded c bytes) s lt ended =
      let w' = with_client w c in
      after_verify-IsRoundOf w0 w' i bytes (verify_piece sha1 tf i bytes)
        (IsSame-framed w0 w w' s s.valid refl refl refl refl refl) lt refl
  after_download-IsRoundOf w0 w i total size (connection_lost c) s lt ended =
      let w' = failed_piece (with_client w c) in
      after_return-IsRoundOf w0 w' (λ d. stops d lost) (return_to_pending w.manager i)
        (IsSame-framed w0 w w' s s.valid refl refl refl refl refl)
        (return_to_pending-Frames w.manager i s.valid lt) (IsSame-IsRound w0)
  after_download-IsRoundOf w0 w i total size (rejected c) s lt ended =
      let w' = failed_piece (with_client w c) in
      after_return-IsRoundOf w0 w' continues (return_to_pending w.manager i)
        (IsSame-framed w0 w w' s s.valid refl refl refl refl refl)
        (return_to_pending-Frames w.manager i s.valid lt) (IsSame-IsRound w0)
  after_download-IsRoundOf w0 w i total size hung s lt ended = ended
  after_download-IsRoundOf w0 w i total size Download.out_of_fuel s lt ended = ended

  pub without_piece-IsRoundOf :
      (w0 w : Worker) → IsSame w0 w → IsRoundOf w0 (without_piece sha1 tf w)
  unfolding without_piece
  without_piece-IsRoundOf w0 w s =
      let round = IsSame-IsRound w0 w s in
      elim (Bool-cases ((length w.manager.pending == 0) && (length w.manager.in_progress == 0))) [
        | inl over ↦ rw over (round, inr (ground (arith, over), ground (arith, over)))
        | inr more ↦ rw more round
      ]
