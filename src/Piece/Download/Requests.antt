-- ===== src/Piece/Download/Requests.antt =====
-- internal/piece/downloader.go: `queueRequests`, its rounds and what it asks for.
mod Tally
use sid_torrent.Prelude.{
  ℕ, zero, suc, ◌+◌, ◌*◌, ◌<◌, ◌≤◌, ◌≡◌, ◌≢◌, ◌⊎◌, refl, ◌∙◌, ap, Bool, true, false, not, ◌||◌,
  Bool-cases, Option-cases, inl, inr, Option, none, some, List, [], ◌∷◌, ◌++◌, arith, leb, ◌==◌,
  if◌then◌else◌, length, set, get_or, append_assoc, append-nil, sym,
}
use sid_torrent.Prelude.Int.{ℤ, pos_part}
use sid_torrent.Prelude.Bytes.{Bytes}
use sid_torrent.Prelude.Words.{put_uint32, uint32}
use sid_torrent.Peer.Message.{Message, serialize, request_message}
use sid_torrent.Peer.State.{Client, write_message, write_counted}
use sid_torrent.Piece.Assembler.{PieceAssembler, next_missing_block, block_length}
use sid_torrent.Piece.Assembler.Blocks.{
  IsValid, IsNextBlock, next_missing_block_found, next_missing_block-none,
  next_missing_block-IsValid, request_block-none,
}
use sid_torrent.Piece.Download.{
  tally, is_outstanding, outstanding, Queued, queued, write_failed, out_of_fuel, after_write,
  request_next, queue_rounds, queue_requests,
}
unfoldable pub use sid_torrent.Piece.Download.Requests.Tally.{is_free, free}
pub use sid_torrent.Piece.Download.Requests.Tally.{get_or-set_self, tally-zero}
use sid_torrent.Piece.Download.Requests.Tally.{outstanding-next, free-next, free-none}

-- The request for the block `k` of the piece: its index, the place of the block, and its size.
abbrev pub block_request : PieceAssembler → ℕ → Message
block_request pa k = record {
  id = 6;
  payload =
      put_uint32 (uint32 pa.piece_index)
      ++ (put_uint32 (uint32 (k * 16384)) ++ put_uint32 (uint32 (pos_part (block_length pa k))));
}

-- Such requests, one after another.
abbrev pub requests : PieceAssembler → List ℕ → Bytes
requests pa [] = []
requests pa (k ∷ ks) = serialize (block_request pa k) ++ requests pa ks

abbrev pub mark_block : PieceAssembler → ℕ → PieceAssembler
mark_block pa k = record pa { requested = set pa.requested k true }

-- The assembler with the request marks of some blocks, and nothing else, set.
abbrev pub mark_blocks : PieceAssembler → List ℕ → PieceAssembler
mark_blocks pa [] = pa
mark_blocks pa (k ∷ ks) = mark_blocks (mark_block pa k) ks

-- Each is a block of the piece that is not received, not requested, and not among those before it.
abbrev pub AreFree : PieceAssembler → List ℕ → Type 0
AreFree pa [] = Unit
AreFree pa (k ∷ ks) =
    (k < pa.total_blocks)
    × ((get_or pa.received k false || get_or pa.requested k false) ≡ false)
    × AreFree (mark_block pa k) ks

requests-mark :
    (pa : PieceAssembler) (k : ℕ) (ks : List ℕ) → requests (mark_block pa k) ks ≡ requests pa ks
unfolding block_length
requests-mark pa k [] = refl
requests-mark pa k (j ∷ js) =
    ap (λ bs. serialize (block_request pa j) ++ bs) (requests-mark pa k js)

-- What `queueRequests` leaves alone in the client and in the assembler, how many writes it spends, and
-- that it asks for as much as it may.
pub record IsFilled (max : ℕ) (c : Client) (pa : PieceAssembler) (c' : Client)
    (pa' : PieceAssembler) : Type 0 where
  pub asked : List ℕ
  pub are_free : AreFree pa asked
  pub written : c'.output ≡ c.output ++ requests pa asked
  pub marked : pa' ≡ mark_blocks pa asked
  pub valid : IsValid pa'
  pub bounded : outstanding pa' ≤ max
  pub same_received : pa'.received ≡ pa.received
  pub same_content : pa'.content ≡ pa.content
  pub same_size : pa'.piece_size ≡ pa.piece_size
  pub same_blocks : pa'.total_blocks ≡ pa.total_blocks
  pub same_input : c'.input ≡ c.input
  pub same_state : c'.state ≡ c.state
  pub same_chan : c'.peer_chan ≡ c.peer_chan
  pub spent : c'.writes_left + free pa ≡ c.writes_left + free pa'
  pub full : (outstanding pa' ≡ max) ⊎ (free pa' ≡ 0)

-- What was written before a write failed are requests for different free blocks, as many as there were
-- writes left.
abbrev pub AreWritten : Client → PieceAssembler → Client → Type 0
AreWritten c pa c' =
    (asked : List ℕ) × AreFree pa asked
    × (c'.output ≡ c.output ++ requests pa asked)
    × (length asked ≡ c.writes_left)

-- A write fails only when there are fewer left than blocks to ask for.
abbrev pub IsQueued : ℕ → Client → PieceAssembler → Queued → Type 0
IsQueued max c pa (queued c' pa') = IsFilled max c pa c' pa'
IsQueued max c pa (write_failed c') =
    (c.writes_left < free pa) × (c'.state ≡ c.state) × AreWritten c pa c'
IsQueued max c pa out_of_fuel = ⊥

next_missing_block-same :
    (pa : PieceAssembler) → (next_missing_block pa).1 ≡ none → (next_missing_block pa).0 ≡ pa
unfolding next_missing_block
next_missing_block-same pa h = let (_, same) = request_block-none pa _ h in same

request_next-none :
    (again : Client → PieceAssembler → Queued) (c : Client) (p : PieceAssembler × Option (ℕ × ℤ))
    → p.1 ≡ none
    → request_next again c p ≡ queued c p.0
unfolding request_next
request_next-none again c (pa, none) h = refl
request_next-none again c (pa, some (o, s)) h = cc

request_next-some :
    (again : Client → PieceAssembler → Queued) (c : Client) (p : PieceAssembler × Option (ℕ × ℤ))
    {offset : ℕ} {size : ℤ}
    → p.1 ≡ some (offset, size)
    → request_next again c p
      ≡ after_write again p.0
          (write_message c (request_message p.0.piece_index offset (pos_part size)))
unfolding request_next
request_next-some again c (pa, none) h = cc
request_next-some again c (pa, some (o, s)) {offset} {size} h =
    let e : o ≡ offset = ground arith in let e' : s ≡ size = ground arith in rw (e, e')

-- One request: the rest of the rounds works on one block less.
after_write-IsQueued :
    (again : Client → PieceAssembler → Queued) (max w : ℕ) (c : Client) (pa : PieceAssembler)
    (k : ℕ)
    → c.writes_left ≡ w
    → free (mark_block pa k) + 1 ≡ free pa
    → k < pa.total_blocks
    → (get_or pa.received k false || get_or pa.requested k false) ≡ false
    → ((c' : Client) → IsQueued max c' (mark_block pa k) (again c' (mark_block pa k)))
    → IsQueued max c pa
        (after_write again (mark_block pa k) (write_counted w c (serialize (block_request pa k))))
unfolding after_write write_counted
after_write-IsQueued again max zero c pa k e one within busy later =
    (omega arith, refl, ([], tt, sym (append-nil c.output), sym e))
after_write-IsQueued again max (suc w) c pa k e one within busy later =
    let packet = serialize (block_request pa k) in
    let c' = record c { output = c.output ++ packet; writes_left = w } in
    go (again c' (mark_block pa k)) (later c')
  where
    joined :
        (ks : List ℕ)
        → (c.output ++ serialize (block_request pa k)) ++ requests (mark_block pa k) ks
          ≡ c.output ++ requests pa (k ∷ ks)
    joined ks =
        append_assoc c.output (serialize (block_request pa k)) (requests (mark_block pa k) ks)
        ∙ ap (λ bs. c.output ++ (serialize (block_request pa k) ++ bs)) (requests-mark pa k ks)

    go :
        (q : Queued)
        → IsQueued max
            (record c { output = c.output ++ serialize (block_request pa k); writes_left = w })
            (mark_block pa k)
            q
        → IsQueued max c pa q
    go (queued d qa) f = record {
      asked = k ∷ f.asked;
      are_free = (within, busy, f.are_free);
      written = f.written ∙ joined f.asked;
      marked = f.marked;
      valid = f.valid;
      bounded = f.bounded;
      same_received = f.same_received;
      same_content = f.same_content;
      same_size = f.same_size;
      same_blocks = f.same_blocks;
      same_input = f.same_input;
      same_state = f.same_state;
      same_chan = f.same_chan;
      spent = omega (arith, f.spent);
      full = f.full;
    }
    go (write_failed d) (f, same, (ks, free_all, out, many)) = (
      omega arith,
      same,
      (k ∷ ks, (within, busy, free_all), out ∙ joined ks, omega (arith, many)),
    )
    go out_of_fuel f = f

IsFilled-refl :
    (max : ℕ) (c : Client) (pa : PieceAssembler)
    → IsValid pa
    → outstanding pa ≤ max
    → (outstanding pa ≡ max) ⊎ (free pa ≡ 0)
    → IsFilled max c pa c pa
IsFilled-refl max c pa v h k = record {
  asked = [];
  are_free = tt;
  written = sym (append-nil c.output);
  marked = refl;
  valid = v;
  bounded = h;
  same_received = refl;
  same_content = refl;
  same_size = refl;
  same_blocks = refl;
  same_input = refl;
  same_state = refl;
  same_chan = refl;
  spent = refl;
  full = k;
}

queue_rounds-IsQueued :
    (f max : ℕ) (c : Client) (pa : PieceAssembler)
    → IsValid pa
    → outstanding pa ≤ max
    → max < f + outstanding pa
    → IsQueued max c pa (queue_rounds f max c pa)
unfolding queue_rounds write_message request_message
queue_rounds-IsQueued zero max c pa v h lt = absurd (omega arith)
queue_rounds-IsQueued (suc f) max c pa v h lt = elim (Bool-cases (leb max (outstanding pa))) [
  | inl enough ↦ rw (enough, queue_rounds) (IsFilled-refl max c pa v h (inl (ground arith)))
  | inr more ↦
      let again = queue_rounds f max in
      let p = next_missing_block pa in
      rw (more, queue_rounds)
        (elim (Option-cases p.1) [
          | inl stop ↦
              let same : p.0 ≡ pa = next_missing_block-same pa stop in
              rw (request_next-none again c p stop, same)
                (IsFilled-refl max c pa v h (inr (free-none pa stop)))
          | inr ((offset, size), next) ↦
              let (k, b) = next_missing_block_found pa v next in
              let valid : IsValid (mark_block pa k) =
                rw b.marks at (next_missing_block-IsValid pa v) in
              let one : free (mark_block pa k) + 1 ≡ free pa = rw b.marks at (free-next pa v b) in
              let more_out : outstanding (mark_block pa k) ≡ outstanding pa + 1 =
                rw b.marks at (outstanding-next pa v b) in
              let packet : request_message p.0.piece_index offset (pos_part size)
                  ≡ block_request pa k =
                rw (b.marks, b.at, b.is_length) refl in
              rw (request_next-some again c p next, packet, b.marks)
                (after_write-IsQueued again max c.writes_left c pa k refl one b.in_range b.free
                  (λ c'.
                    queue_rounds-IsQueued f max c' (mark_block pa k) valid
                      (ground (arith, more_out)) (omega (arith, more_out))))
        ])
]

-- `queueRequests` on a valid assembler with no more outstanding blocks than the pipeline holds ends by
-- itself. What it writes are requests for different blocks that are neither received nor requested,
-- each with the index of the piece and the place and the size of the block. Unless a write fails, the
-- request marks of just these blocks are set and nothing else in the assembler changes, at most as
-- many blocks are outstanding as the pipeline holds, and either that many or no block is left to ask
-- for. A write fails only when fewer writes are left than blocks to ask for.
pub queue_requests-IsQueued :
    (max : ℕ) (c : Client) (pa : PieceAssembler)
    → IsValid pa
    → outstanding pa ≤ max
    → IsQueued max c pa (queue_requests max c pa)
unfolding queue_requests
queue_requests-IsQueued max c pa v h = queue_rounds-IsQueued (max + 1) max c pa v h (omega arith)

get_or-set_either :
    (rs : List Bool) (k i : ℕ)
    → (get_or (set rs k true) i false ≡ get_or rs i false) ⊎ (get_or (set rs k true) i false ≡ true)
get_or-set_either [] k i = inl refl
get_or-set_either (r ∷ rs) zero zero = inr refl
get_or-set_either (r ∷ rs) zero (suc i) = inl refl
get_or-set_either (r ∷ rs) (suc k) zero = inl refl
get_or-set_either (r ∷ rs) (suc k) (suc i) = get_or-set_either rs k i

-- A block that comes in raises neither count.
pub tally-receive :
    (test : Bool → Bool → Bool) (rs qs : List Bool) (k i left : ℕ)
    → ((q : Bool) → test true q ≡ false)
    → tally test (set rs k true) qs i left ≤ tally test rs qs i left
unfolding tally
tally-receive test rs qs k i zero h = omega arith
tally-receive test rs qs k i (suc left) h = elim (get_or-set_either rs k i) [
  | inl same ↦ rw same (ground (arith, tally-receive test rs qs k (suc i) left h))
  | inr here ↦
      rw (here, h (get_or qs i false)) (ground (arith, tally-receive test rs qs k (suc i) left h))
]
