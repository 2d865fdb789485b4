-- ===== src/Lib.antt =====
-- SidTorrent is a BitTorrent engine in Go. A session opens a torrent (internal/torrent over
-- internal/bencode), finds peers (internal/tracker, internal/dht), talks to them (internal/peer), and
-- lets one worker for each peer ask the piece manager (internal/piece) for a piece, put it together from
-- blocks, and hand it to storage. This development models the sequential core of these parts.
--
--   Torrent   internal/torrent. Pieces: `piece_count` is PieceCount, `piece_length_at` PieceLengthAt.
--             Parser: `open_torrent` is Open, over the tree of Bencode.
--   Bencode   internal/bencode. Decoder: each method of `decoder` is the function of its name; the
--             state, the data behind the position and the position, is passed on. Encoder: Encode and
--             its helpers, with the keys of a dictionary sorted. Decimal: the strconv functions.
--   Peer      internal/peer: the messages and their framing, with the messages of internal/piece
--             (RequestMessage, ParsePiece), bitfields and handshakes. State: PeerState and Client with
--             what can be read and what was written. Startup: ReadBitField. Pex: peer exchange.
--   Piece     internal/piece. Assembler: PieceAssembler. Buckets and Manager: PieceManager, each method
--             the function of its name. Selection: NextPiece and the methods that it chooses from.
--             Download: DownloadPiece, from Peer to Assembler. Worker: a round of StartWorker, which
--             joins Selection, Download, the hash of the torrent, Disk and Manager. Choke:
--             ChokeManager. Resume: LoadExistingState, over Storage.
--   Storage   internal/storage: TorrentStorage over the files, refined to one flat array of bytes.
--   Disk      internal/disk: DiskWriter, its channel, cache and flush, and Writer.WritePiece in front.
--   Dht       internal/dht: KBucket, RoutingTable, and contacts in compact form. Node: `handle_message`
--             is handleMessage, `begin_query` and `end_query` are the halves of queryGetPeers around
--             its wait, and Search is SearchPeers.
--   Tracker   internal/tracker: the UDP protocol and peers in compact form.
--   Metrics   internal/metrics: the counters.
--   Api       internal/api: findVideoFile and StreamingReader; JobStore, and the steps of a job's life.
--   Prelude   lists, integers, maps as lists of keys, byte strings, words of 16 and 32 bits.
--   Tests     each theorem with hypotheses at a concrete input.
--
-- State is a record, and an operation gives the new one. The methods of the piece manager, the job
-- store, the metrics and the disk writer hold a mutex throughout, or run in one goroutine, so that an
-- interleaving of them is a sequence of these steps. NextPiece lets the mutex go between its look at the
-- priority pieces and its choice by the mode; `next_piece` takes the state that it finds then as a
-- second one. A round of StartWorker holds no mutex between its calls: `worker_round` takes what other
-- goroutines do to the shared state while NextPiece lets the mutex go and while DownloadPiece runs, and
-- what they do between its later calls, which do not wait for the peer, is not modelled. A run-time
-- panic (an index out of range, a division by zero, a buffer that cannot be had) is `none`, or a result
-- of its own; errors are values of data types. The range of Go over a map has no order: a map is a list
-- of keys here, and every list is some order. rand.Intn(n) is `rand % n` for an arbitrary number `rand`.
-- Numbers that are never negative are natural numbers, others are integers; the wrap-around of uint32
-- and uint16 is written out, that of int64 is not, apart from what strconv refuses.
--
-- Structural recursion is used where a loop runs over a list or a count. The decoder recurses on fuel,
-- two for each byte of the data and two more: each call of decodeValue reads a byte, and each round of a
-- list or dictionary reads one or calls decodeValue. Printing a number has as much fuel as the number is
-- large, and one more, and each round divides by ten. The loops over compact contacts and peers have as
-- much fuel as there are bytes, and each round takes some. ReadBitField and DownloadPiece have one more
-- than the bytes that can be read, and each round takes a message; queueRequests has one more than the
-- pipeline holds, and each round asks for a block. That the fuel is enough is proved where the results
-- below say that they end.
--
-- A file is its bytes, with an optional fault after which a call to the operating system fails. For a
-- new storage each entry of the torrent says whether its directory can be made, its file opened and its
-- length set; each entry has a file of its own. The goroutine of the disk writer is the sequence of the
-- requests that it takes.
--
-- The bytes that a connection gives are a list, at whose end a read fails; a read or a write that stands
-- still is not told from one that fails, since each has a deadline. The deadline is set anew for each
-- message, so that a peer which sends keep-alives without end is outside of this model. A channel says
-- whether somebody goes on to receive from it, or how many sends it takes before one waits for ever,
-- which is a result of its own, as for a nil channel. Parameters are SHA-1 (Parser, Worker, Resume), the
-- largest buffer that `make` gives (Resume), the joining of a path (Api), what the parsing of an address
-- gives (Pex), the order of the scores (Choke), and the answers of other nodes (Dht.Node.Search).
--
-- Not modelled: the opening and the encryption of connections, goroutines and clocks, with the rate
-- limiter, which only delays; floating-point scores and rates; the session, and the service of the
-- requests of peers; paths and directories; the handlers of the HTTP server, and the web console.
pub mod Prelude
pub mod Torrent
pub mod Bencode
pub mod Peer
pub mod Piece
pub mod Storage
pub mod Disk
pub mod Dht
pub mod Tracker
mod Tests
pub mod Metrics
pub mod Api
