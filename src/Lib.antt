-- ===== src/Lib.antt =====
-- kvstore: a networked key-value store in Go, with a binary protocol, a sharded in-memory engine
-- with expiry and eviction, and a write-ahead log.
--
-- A connection reads a frame (internal/protocol), the server decodes its body into a command, the
-- engine applies the command to the shard that has the key (internal/store) and appends a record of
-- it to the log (internal/wal). A restart loads the newest snapshot (internal/snapshot) and replays
-- the log above it. A replica connects to a primary (internal/cluster), which sends it the log above
-- its number or, in a full resync, every entry, and then each new record. Modelled here are the
-- codec, one shard with its operations, the routing of keys over shards, the log from its writer to
-- its replay, the snapshots, the engine over them, the dispatch of a request and the replication
-- stream from both of its ends.
--
-- Files:
--   Prelude, Prelude/Tests, Prelude/Lists, Prelude/Bytes: Boolean tests, lists by native numbers,
--     little-endian words with the appenders of internal/protocol/command.go.
--   Protocol/Limits: internal/protocol/limits.go and status.go, and the codec's errors.
--   Protocol/Opcode: internal/protocol/opcode.go.
--   Protocol/Frame: EncodeHeader, DecodeHeader, ReadFrame, WriteFrame of internal/protocol/frame.go
--     (encode_header, decode_header, read_frame, write_frame); Frame/Writer: WriteFull.
--   Protocol/Cursor: the cursor of internal/protocol/command.go; Protocol/Command: DecodeCommand and
--     EncodeCommand; Protocol/Bodies: the response bodies.
--   Store/Entry, Store/Random: EntryCost and Expired of internal/store/entry.go, splitmix64 of
--     internal/store/hash.go.
--   Store/Shard, Store/Slots, Store/Lru, Store/Evict, Store/Operations: internal/store/shard.go. A
--     shard is a record; an entry is an address, and its fields are functions of the address. The
--     operations are named without Locked: get, set, delete, expire, reap, sweep, flush, and admit,
--     evict, pick_victim beneath set.
--   Store/Keyspace: Get, Exists, TTL, Delete and Expire of internal/store/store.go on one shard
--     (lookup, exists, ttl, remove, set_expiry). Store/Reference: internal/store/reference.go.
--     Store/Purge: PurgeExpired of internal/store/expiry.go on one shard (purge_expired).
--     Store/Wheel: internal/store/wheel.go (add, advance, run_once), RunOnce on one shard.
--   Store/Range: Range and Keys of internal/store/store.go on one shard (range, keys).
--     Range/Restore, Range/Members: what is rebuilt from a listing, and lists of batches.
--   Store/Memory: SetMemoryLimit and EvictToLimit of internal/store/memory.go on one shard.
--   Store/Hash: Hash64 of internal/store/hash.go. Store/Sharded: the store of internal/store/store.go
--     over all shards (new_store, route, and get, set, delete, exists, expire, ttl, flush).
--     Sharded/Local, Steps, Index, Traffic: the store and the reference store, step by step.
--   Store/Invariant: the invariant IsSound and what keeps it. Store/Refinement: the shard against
--     the reference store.
--   Wal/Record, Wal/Checksum: internal/wal/record.go. Wal/Scan: ScanSegment of internal/wal/reader.go.
--   Wal/Truncation: TruncateBelow of internal/wal/recover.go. Wal/Replay: Replay of the same file
--     (replay), over the scans of the segments.
--   Wal/Writer: internal/wal/writer.go and the segments of internal/wal/segment.go, as steps of the
--     writer's state: submit, run_once with flush_batch and rotate, sync, tick. Writer/Run: the runs
--     of these steps. Writer/Crash: what a
--     crash leaves of the directory. Writer/Synced, Writer/Torn, Writer/Durable: the writer and Replay
--     together.
--   Snapshot: Create, Add and Commit of internal/snapshot/write.go, and the loop over them in
--     internal/engine/commands.go (add_all). Snapshot/Load: Load and LoadNewestValid of
--     internal/snapshot/read.go.
--   Engine: Set, Delete, Expire, mutate, deadline, onStoreEvict, logEvict and ApplyReplicated of
--     internal/engine/commands.go, applyRecord of engine.go, on one shard. Engine/Effects: what they
--     do to the shard. Engine/Steps, Engine/Mirror: the store that a replay rebuilds, against the
--     engine's own.
--     Engine/Restart: the engine, its log and the replay together. Engine/Losses: two
--     orders of records under a replay.
--   Engine/Reads: Get, Exists, TTL and Keys of internal/engine/commands.go. Engine/Snapshot: Snapshot,
--     resetKeyspace and Flush of the same file (snapshot, reset_keyspace, flush), and Prune of
--     internal/snapshot/read.go. Engine/Replicated: ApplyReplicated on an open log.
--   Cluster/Stream: internal/cluster/stream.go (write_record and the other writers, read_msg).
--     Cluster/Node: internal/cluster/node.go with the replica's state (new, promote, connect).
--     Cluster/Replica: the loop of replicateOnce in internal/cluster/replica.go (handle, follow).
--     Cluster/Primary: fullResync and catchUp of internal/cluster/primary.go. Cluster/Fencing,
--     Cluster/Follow, Cluster/Resync, Cluster/Position: promotions and messages in any order, the
--     stream's two ends together, and the numbers that a replica asks from.
--   Server/Dispatch: execute of internal/server/dispatch.go (answer, respond, execute); Server/Texts:
--     its messages. Dispatch/Framed: its response as a frame. Dispatch/SetGet: two requests in a row.
--   Protocol/Tests, Store/Tests, Store/Range/Tests, Store/Sharded/Tests, Wal/Tests, Wal/Writer/Tests, Snapshot/Tests,
--     Engine/Tests, Engine/Snapshot/Tests, Cluster/Tests, Server/Tests: the theorems at concrete
--     inputs. Engine/Sample: an engine for them.
--
-- Numbers are natural numbers with the wrap-around written out; byte slices are lists of numbers.
-- A Go map is a function. An io.Writer is a parameter, with what io.Writer documents as hypotheses,
-- and a stream that is read is the list of bytes that it still gives. The callbacks of the scan, of
-- Replay and of Load are parameters, as are the answers of the file system to the writer, to
-- Replay and to a snapshot, and the paths of segments and snapshots. So are, in the dispatch, the
-- texts of errors that it does not write itself and the document of STATS. A lock's section
-- is one state change, and so is a flush. A segment has, beside the Go fields, the bytes of its file
-- and how many of them were fsynced. The clocks that a replica's loop reads are functions of the
-- number of the message. The truncation behind a snapshot is that of a writer whose rotations did
-- not fail.
--
-- Loops on fuel: write_loop has the length of the bytes, of which each round takes one at least;
-- scan_loop has one turn for each byte of the file and one more, as a record takes eight at least;
-- read_body of a snapshot likewise, as an entry takes fourteen;
-- walk_tail has the number of entries, the length of the list that it walks; evict_loop counts the
-- batch limit of the source itself; purge_loop has one pass for each entry with a deadline and one
-- more, as each pass but the last removes some; range_from has a turn for each entry, of which a batch
-- takes one at least; follow has a turn for each byte and one more, as a message takes one at least.
--
-- The invariant's theorems are for the sampled eviction policies: the shape of the linked list of
-- the exact LRU is not shown. Not modelled: an engine over more than one shard, the schedules of the timing wheel
-- and the sweeper, the names of segments and snapshots and their listing, the writer's opening on
-- a segment to resume and its closing, the engine's opening and shutdown, the text protocol, the
-- configuration, the client and the tools, each a component of its own above or beside these. Of
-- replication, the acknowledgements, the timers, the read deadline and the pauses between
-- connections are left out, and a write to the connection does not fail. Goroutines, sockets, file
-- system errors where a reader meets them, and the texts of errors are the runtime's.
pub mod Prelude
pub mod Protocol
pub mod Store
pub mod Wal
pub mod Snapshot
pub mod Engine
pub mod Cluster
pub mod Server
