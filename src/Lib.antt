-- ===== src/Lib.antt =====
-- distkv: a key-value store that is replicated by Raft (Go).
--
-- The parts of the program and their files here:
--
-- * raft/confstate.go, the cluster's membership with its two-phase changes: ConfState.antt has the
--   type, the quorums and the commit index; ConfState/Change.antt ApplyConfChange,
--   ConfState/Encoding.antt the bytes of a membership; ConfState/Tally.antt, Quorum.antt and
--   Commit.antt count votes and matches. IdSet.antt is Go's map[uint64]struct{} as the ascending
--   list of its keys, which is the order of sortedKeys.
-- * storage/wal.go, the write-ahead log: Wal.antt (OpenWAL, Append, Sync, Close, ReplayWAL) over
--   the byte layouts and the CRC-32 of Codec.antt. A log is the bytes on the disk, the bytes that
--   wait for an fsync, and the number of calls that the device still takes; a crash keeps the first
--   bytes of those that wait. Wal/Frames.antt and Wal/Recovery.antt read frames back,
--   Wal/Crash.antt runs calls and crashes, Wal/TornTail.antt looks behind a torn record.
-- * storage/memtable.go, the skip list: Memtable.antt, with the search through its levels in
--   Memtable/Search.antt and the list as a map in Memtable/Refinement.antt. Memtable/Pointers.antt
--   is put along the pointers of each level: Memtable/Levels.antt, Splicing.antt and Linking.antt
--   are about linking a node, Memtable/Descent.antt about the search, and Memtable/HeapPut.antt
--   joins it with the list. KeyMap.antt has the entries and Go's map[string]kvEntry as the
--   ascending list of its entries, and Text.antt the comparison of strings.
-- * storage/sstable.go, the sorted tables: SsTable.antt (writeSSTable, openSSTable, scanBlock, get and
--   all) over a file's bytes, with SsTable/Format.antt for the records, SsTable/Opening.antt and
--   RoundTrip.antt for the index and the footer, SsTable/Reading.antt for get, and
--   SsTable/Finishing.antt for the loops.
-- * storage/engine.go, the storage engine: Engine.antt (put, delete, write, get, flushLocked,
--   compactLocked), Engine/Dump.antt (SnapshotEntries, Reset) and Engine/Start.antt (OpenEngine). Its
--   state has the log, the buffer, the open tables and the tables' files in the directory.
--   Engine/Layers.antt is about the tables together, Engine/Reading.antt has the invariant and the
--   map that an engine holds, Engine/Logging.antt the records in the log, Engine/Steps.antt,
--   Flushing.antt and Writing.antt follow a write on every branch, Engine/Resetting.antt a snapshot.
--   Engine/Recovery.antt is about a start after a crash, and Engine/Succeeding.antt, Lasting.antt and
--   Durable.antt about writes on a device that does not fail.
-- * raft/storage.go, the node's state on disk: DiskStorage.antt (diskStorage with setHardState,
--   setConfState, appendEntries, sync and the readers of the log), DiskStorage/Restart.antt
--   (openDiskStorage) and DiskStorage/Compaction.antt (saveSnapshot). DiskStorage/Backed.antt,
--   RecordReplay.antt, Appending.antt, Keeping.antt and Durability.antt relate memory and disk, and
--   DiskStorage/Contiguous.antt is about the log's indices.
-- * raft/node.go, a Raft node: Node.antt (the state, the messages, sending), Node/Election.antt
--   (elections and votes), Node/Replication.antt (entries, their answers, the commit index),
--   Node/Membership.antt (proposals, membership entries, the applier) and Node/Snapshots.antt
--   (snapshots and reads). Every handler is a function on the state that the mutex guards; the
--   requests that it sends from goroutines are in its result, and each answer is a later step.
--   Node/HardState.antt and its children follow the term and the vote through every handler,
--   Node/Voting.antt is the step relation of one node, Node/VoteDurability.antt joins it with the
--   disk, Node/Commitment.antt is about the commit index, Node/Contiguous.antt about the
--   follower's log and Node/Hazards.antt about behaviours that callers have to know of.
--   Node/Running.antt has a turn of run, Stop and the calls that read a node.
-- * harness/network.go, the network that the tests simulate: Network.antt (faults, routing and the
--   four calls of a transport) and Network/Partition.antt.
-- * server/statemachine.go, the replicated state machine: StateMachine.antt (apply, get, snapshot and
--   restore) over the record Engine, which lists what it uses of storage/engine.go.
--   StateMachine/Once.antt is about retries, StateMachine/Restoring.antt about snapshots,
--   StateMachine/Replaying.antt about two machines that run the same commands, and
--   StateMachine/OnEngine.antt fills the record with the operations of Engine.antt.
-- * server/server.go, the server: Server.antt has one turn of applyLoop (on_message) with the waiters,
--   and the second half of New. Server/Requests.antt has propose and proposeConfChange as steps
--   (registered, woken, cancelled, timed out) between the turns of the loop; a call's channel has the
--   call's number, and a send to a full channel blocks, which is a run that has no result.
--   Server/Requests/Waiting.antt, Turns.antt, Calls.antt and Answers.antt follow the waiters and their
--   channels, Core.antt and Refinement.antt there what the calls cannot change; Server/Snapshots.antt
--   is about the automatic snapshots, Server/Replicas.antt about two servers, and Server/Reads.antt has Get and
--   Status. Server/Members.antt has the membership calls of server/membership.go.
-- * server/transport.go, the transport: Transport.antt, with the kept connections in
--   Transport/Caching.antt. IdMap.antt is Go's map[uint64]V as a list of entries.
-- * client/client.go, a client with its retries: Client.antt, and what its loops come to in
--   Client/Retrying.antt; its calls are in Client/Requests.antt. Connecting, calling, the context and
--   its timer are parameters; the loop over the rounds is on fuel.
-- * linearizability/model.go, the sequential specification: KvModel.antt (KVModel's Init, Step and
--   Equal), with the state machine's steps beside it in KvModel/Refinement.antt. Partition and
--   PartitionEvent are in KvModel/Histories.antt, over the maps of KvModel/Groups.antt.
-- * harness/cluster.go, the cluster of the tests: Harness.antt (its record of nodes and of what they
--   have applied, and CheckConsistency), Harness/Consistency.antt, and Harness/Polling.antt with the
--   waits until a deadline, which Harness/Leading.antt is about.
-- * cmd/, the programs: Programs.antt has how distkv and distkv-cli read their flags and arguments,
--   Programs/WebApi.antt the handlers of distkv-webapi, Programs/Bench.antt the keys and percentiles
--   of bench; Programs/Numbers.antt and Programs/Specs.antt are about reading back what was written,
--   and Programs/MembersCmd.antt about the members command.
--
-- Prelude.antt holds what the parts share, and Tests.antt and its children concrete inputs.
--
-- A node calls its storage, the storage calls the log, and both use the membership: a change that
-- the applier commits is written by setConfState, and a restart replays it. Every call of the
-- device may fail, and the error paths are those of the source. The engine uses the same log, and
-- flushes its buffer into a table before it begins the log anew.
--
-- Conventions. Bytes are lists of numbers. Words are natural numbers with `% 2 ^ 64` where the
-- source's sums could wrap; the theorems that need a bound state it. ReplayWAL recurses on the
-- length of the file plus one, which is enough since every turn takes eight bytes at least; the
-- applier recurses on commitIndex - lastApplied, since every turn raises lastApplied. scanBlock
-- recurses on the length of its block plus one: a record takes nine bytes at least. The rounds of
-- the client's try are on fuel, and each takes time; so are the loop of the server's Get, with 3003
-- turns for its three seconds, and the waits of the test cluster, with a turn for each millisecond
-- and two more. The clock and the random draw are parameters of a step. A table must fit into its
-- format: lengths of keys and values and the number of index entries below 2 ^ 32, and offsets below
-- 2 ^ 63.
--
-- Not in the sources are protobuf's Marshal and Unmarshal of an entry: they are the record
-- EntryProto, with the law that unmarshalling gives back what was marshalled; Tests/Proto.antt
-- has one. The records Gob and CommandGob are encoding/gob's codings of a snapshot and of a command,
-- with the same law. Tests/Engines.antt has an engine and a coding, Tests/Servers.antt a server on
-- them. gRPC's connections and calls, JSON and net.SplitHostPort are parameters.
--
-- Not modelled: the generated messages in proto/, the metrics, the web client and the deployment
-- files; listening and serving in the server and the programs, and what the programs print; the
-- goroutines and clocks of bench; the goroutines of the nodes in the cluster of the tests; the hash
-- and the printing in linearizability/model.go. Of the engine, a read of a file that fails, and the
-- making of its directory. A call of the record Engine in StateMachine.antt has only whether it
-- succeeded.
pub mod Prelude
pub mod IdSet
pub mod ConfState
pub mod Codec
pub mod Text
pub mod Wal
pub mod KeyMap
pub mod Memtable
pub mod SsTable
pub mod Engine
pub mod DiskStorage
pub mod Node
pub mod Network
pub mod IdMap
pub mod Transport
pub mod StateMachine
pub mod Server
pub mod Client
pub mod Harness
pub mod KvModel
pub mod Programs
pub mod Tests
