-- ===== src/Lib.antt =====
-- The spore-peer node: a body store served over framed CBOR (rpc2) and a relay that holds pointers
-- for handles (the fabric). Paths are from the repository's root.
--
-- Parts and files:
--   Prelude, Words, Json, Text, Crates, Dict: the helpers. Json is serde_json's `Value` as far as the
--     sources use it, with an object's fields in the order of their keys. Crates has the third-party
--     code as records of functions and their documented laws (hex, sha2, serde_json's text).
--   Cbor: src/p2p.rs. Encode is `mod cbor` with the payload builders, Decode is `decode_value` and
--     `decode_message`. Item is an abstract syntax of what is encoded; ReadBack, Messages, Payloads
--     and Replies are about reading it back, Room about lengths, Bounds about the decoder on
--     any bytes, Extends and Prefix about bytes behind a message.
--   Frames: `write_frame` and `read_frame` of src/p2p.rs over the bytes of a connection.
--   Limiter and Tokens: `RateLimiter` and `ct_eq` of src/spore_peer.rs (src/fabric.rs takes the same).
--   Store: the body store of src/spore_peer.rs. Decode is `hex_decode`, with the panic of a slice inside
--     a character; Files has `store_body` and `serve_body` over a directory; Laws, Origin and Serve
--     are about the directory and about what is served.
--   Peer: the requests of peers in src/spore_peer.rs. Chain is `chain_view` with the selection of
--     Peer.Chain, Ledger is about its entries, Policy is `enforce_write_policy`, Rpc2 is `handle_rpc2`,
--     Laws, Accepted and Quota are about its pushes, Threads has its pushes on several connections as a
--     relation of steps, Fetch the frames of the legacy fetch with `parse_fetch_response`.
--   Server: one turn of `handle_client`, which hands a frame to the peer's requests, to the fabric or to
--     the legacy fetch; Connection is its loop over the bytes of a connection, Exchange about the loop
--     over frames, Legacy about a frame that is JSON.
--   Network: a client and a node on one connection: `online` is the `Remote` whose answers are the
--     node's. Calls and Requests are about single calls, Opening, Pull and Synced about a pull,
--     Pushed about a push.
--   Fuzz: the target of fuzz/fuzz_targets/fuzz_p2p_decode.rs over `decode_message`.
--   Refusal: the errors of both files with their text on the wire.
--   Fabric: src/fabric.rs. Derive is the key derivation, Envelope the stored form of a pointer, State
--     the relay's maps and its directory, Reg, Put and Pop are `run_freg`, `run_fput` and `run_fpop`,
--     each a function from the state before (and the readings of the clock) to the state after and
--     the reply. Their Laws are about single verbs, Invariant and Reach about
--     histories of requests. Reply is the dispatch of the verbs and the two encodings of their
--     replies.
--     Open is `FabricState::open`, the rebuild of the queues from the envelopes of the directory, with
--     Order about the sorting, Reopened about what is live and Restart about an envelope that a verb
--     has persisted.
--   Client: the node as the client of its peers, with the other side of a connection as a parameter
--     (`Remote`: what it does with the bytes written to it, and the bytes it sends then). Call is
--     `rpc2_call` of src/p2p.rs and the two calls that open a pass, Sync is `sync_stream`, Push is
--     `push_stream`, Converge is `sync`, `push`, `sync_pass` and `sync_loop` of src/spore_peer.rs
--     with Laws about any pass and Synced about one without a failure, Legacy is `fetch`, and Fabric
--     is `fabric_pub` with its requests as `run_freg` reads them.
--   Peers: peers.txt in src/spore_peer.rs. Lines has the texts (`trim`, `lines`, `chars`), Address is
--     `validate_peer_addr`, Valid is about what it asks, File has `peers_list`, `peers_write`,
--     `peers_add` and `peers_remove`, and Changes is about the last two.
--   Integers: `s.parse()` into an unsigned integer, with Decimal about what `{}` prints.
--   Cli: `main` of src/spore_peer.rs. Cli has the options of each subcommand and the loop over the
--     arguments, Command the command that they spell, Main its run over the models of Client and
--     Peers with the exit code; Laws, Exit and Lifecycle are about the spelling, the code and a
--     process that serves.
--   Serve: the loop of `serve` in src/spore_peer.rs and its drain at shutdown, with what each turn
--     accepts and the readings of the clock as arguments. Process is the command around it, with
--     `write_pidfile`; Pidfile is about that file, and Drain about the drain.
--   Tests: runs on concrete inputs.
--
-- Correspondence: a byte string is a list of numbers, and a text is its UTF-8. A Rust panic is the
-- outcome `panic` of `Result`, so that its absence can be stated. Each reading of the clock is an
-- argument, in the source's order. A mutex is held for the whole of each use that is modelled, so
-- a verb's reads and writes of one map are one step. A directory is a list of named files, in the order
-- in which it lists them, and what the file system refuses during a call is an argument (`Faults`,
-- `HoldFaults`). A server's bodies and the fabric's envelopes are two directories here.
--
-- Bounds: the decoder's nesting is a number of levels, 65, one more than MAX_DEPTH, as the source
-- counts it, so it is structural and needs no fuel. The loop of HKDF has one round for each byte
-- that is asked for, which is enough since a round yields 32. The decimal text of a number has
-- at most 20 digits, which is enough for a 64-bit word.
--
-- `handle_client` has the length of the connection's bytes as fuel, which is enough since every turn
-- takes a frame of them.
--
-- Arithmetic: the additions of a time and a horizon or a lease, which are plain additions on u64, wrap
-- around here as in a release build (`wrapping_add`); a debug build panics where they overflow.
--
-- Loops: the passes of `sync_stream` and `push_stream` are by recursion on the entries. `sync_loop`, which
-- goes on forever unless it is run once, takes the number of its passes and has no result before it ends.
--
-- Not modelled: sockets and the installation of the signal handlers, which are input and output around
-- the parts above; the lines that are written to the standard error. A request is one step here, but
-- for the pushes of Peer/Threads, where the checks of a body, the write of its temporary file and its
-- rename are steps of their own. The temporary file is named by the hash, so two threads that push
-- one body at once can write it over each other; Peer/Threads leaves that out: a temporary file is
-- written there only while no other thread stands between the write and the rename of that file.
pub mod Prelude
pub mod Words
pub mod Json
pub mod Text
pub mod Crates
pub mod Cbor
pub mod Frames
pub mod Dict
pub mod Limiter
pub mod Tokens
pub mod Refusal
pub mod Store
pub mod Peer
pub mod Fabric
pub mod Server
pub mod Network
pub mod Client
pub mod Peers
mod Tests
pub mod Integers
pub mod Cli
pub mod Serve
pub mod Fuzz
