-- ===== src/Lib.antt =====
-- Verification of qonduit, a pipeline that reads the peer-to-peer protocol of Qubic nodes, decodes
-- packets, publishes them, stores them and answers queries.
--
-- A connection reads packets from a TCP stream (crates/ingestion/src/protocol.rs): a header of
-- eight bytes with a 24-bit size (crates/core/src/header.rs) and a payload. The decoder
-- (crates/ingestion/src/decoder.rs) hands a payload to the decoder of its type
-- (crates/ingestion/src/decoders.rs), which checks the length and reads fields at fixed offsets,
-- and publishes what it returns. Tick votes are counted per epoch and tick, and a tick with 451
-- voters gives a quorum event. Keys are shown as identities of 60 letters
-- (crates/core/src/identity.rs). The processor (crates/processor/src/indexer.rs) takes the
-- published messages, writes them to column families of RocksDB under keys that sort by tick or
-- entity (crates/storage/src/warm.rs) and counts them (crates/core/src/pipeline.rs). The queries,
-- over HTTP (crates/query/src/rest.rs) and JSON-RPC (crates/query/src/rpc.rs), read the column
-- families by iterators. A cache in memory (crates/storage/src/hot.rs) is created at start-up;
-- neither the indexer nor the queries use it. The backfill (crates/ingestion/src/backfill.rs)
-- splits a range of past ticks among workers, each of which keeps a window of requests open on a
-- connection, and publishes the answers like the live data.
--
-- The files.
--
-- Common: names of the library, Boolean tests on the native numbers, lists. Bytes: results (a
-- value, an error, or a panic), little-endian words, slices that panic out of range, and the
-- layout of a packet as a list of fields with what reading at the offset of a field gives.
--
-- Core.MessageType: NetworkMessageType, from_u8, is_request, is_response, is_broadcast of
-- crates/core/src/message_type.rs. Core.Header: RequestResponseHeader of
-- crates/core/src/header.rs, with to_bytes and of_bytes for the memory image of the structure.
-- Core.Identity: compute_checksum, encode_base26 and decode_base26 of crates/core/src/identity.rs.
-- Core.Hash: crates/core/src/hash.rs. Core.InputType: InputType of
-- crates/core/src/structs/transaction.rs.
--
-- Core.Epochs: set_epoch_ranges, get_epoch_range and the totals of
-- crates/core/src/epoch_intervals.rs.
--
-- Ingestion.Protocol: send_raw, read_packet and the request functions of
-- crates/ingestion/src/protocol.rs. The stream is a list of bytes, and a request loop reads the
-- outcomes of its rounds (a packet, a read error, the deadline) from a list.
--
-- Ingestion.Decoders: the functions of crates/ingestion/src/decoders.rs, under their names.
-- Records holds those of fixed records, Tables those with arrays, and Mining, Transaction, Tick
-- and LogEvents one or two each. Guards has the length check that all of them start with,
-- LogEvents.Wire the layout of log events.
--
-- Ingestion.Votes: TickVoteAggregator of crates/ingestion/src/decoder.rs with record_vote and
-- prune; Votes.Handler: decode_tick_vote with its state and its publisher.
--
-- Ingestion.Dispatch: decode_and_publish and the other handlers of
-- crates/ingestion/src/decoder.rs.
--
-- Ingestion.Peers: the list of known peers of crates/ingestion/src/peer_manager.rs, with the peer
-- exchange, the marks and prune_stale; Peers.Scores: Peer::score in the f64 arithmetic of the
-- source; Peers.Selection: best_peer, best_bob_peer and random_peer; Peers.Bootstrap:
-- parse_peer_addr and bootstrap_from_api. Known, Stale, Distinct, Choice, Favoured, Rounding and
-- Broadcasting are about them.
--
-- Ingestion.Backfill: the window of requests of a connection, try_peer from the handshake on,
-- fill_pipeline and decode_and_publish of crates/ingestion/src/backfill.rs, with Backfill.State
-- for what it keeps; Backfill.Plan: what BackfillClient::run does before and after the workers
-- (the end tick, the start tick, the partition, the counters); Backfill.Worker: BackfillWorker
-- with run, connect_and_process and try_peer; Backfill.Transactions: fetch_txs_for_range and the
-- workers of the second phase. Partition, Filling, Window, Answers, Connection, Progress,
-- Liveness, Complete, Unskipped, Whole, Resuming and Fetching are about them. The packets that
-- arrive, the peers that are chosen and whether a write succeeds are inputs, and each worker is
-- one function of them: the workers share only counters, which commute, the highest tick and the
-- list of peers.
--
-- Storage.Hot: HotCache of crates/storage/src/hot.rs with all its operations; Hot.Maps, Eviction
-- and Bounds are about it.
--
-- Storage.Keys: keys in bytewise order, big-endian numbers in them, prefixes, and scans of sorted
-- entries. Storage.Database: RocksDB as an interface, a record of operations and the laws that its
-- documentation gives: iterators in bytewise order from either end or from a key, reads that agree
-- with them, writes that change one key of one column family, batches as sequences of writes.
-- Database.ListStore meets the laws with sorted lists. Storage.Warm: WarmStorage of
-- crates/storage/src/warm.rs, with the writes, the reads of one key and the batches; Warm.Scans:
-- its reads by iterators; Warm.Changes: the writes as values, so that sequences of them can be
-- run; Warm.Valid, ByTick, Ticks, ByEntity, Pages and History: about what the reads return.
-- Storage.Cold: the rows that ColdStorage of crates/storage/src/cold.rs exports; Cold.Columns and
-- Cold.Export are about them.
--
-- Core.Pipeline: PipelineState of crates/core/src/pipeline.rs and EpochStats. Core.Asset:
-- AssetRecord. Processor.Parsers: what the processor uses of serde_json and hex.
-- Processor.Indexer: the state of Indexer of crates/processor/src/indexer.rs, update_epoch_stats,
-- index_tick and index_transaction; Indexer.Records: its other handlers; Indexer.Messages, Hashes,
-- Writes, Transactions, Interleaved, Summaries and Stats: about sequences of messages.
--
-- Query.Values: what the queries use of serde_json and hex. Query.Texts: the parsing and trimming
-- of the Rust standard library; Texts.Trimming is about it. Query.Rest: the handlers of
-- crates/query/src/rest.rs; Rest.Search: search and search_entities_by_prefix. Query.Rpc:
-- handle_rpc of crates/query/src/rpc.rs; Rpc.Params: the extraction of parameters, and the errors
-- with their messages; Rpc.Lookups, Rpc.Search and Rpc.Methods: dispatch_method with a function
-- for each method. Rest.Endpoints, Rpc.Codes, Agreement (REST and RPC) and Indexed (the processor,
-- the store and the handlers together) are about them. Processor.Indexer.Stored: what stays stored
-- while later transactions are indexed.
--
-- Tests: runs on concrete inputs.
--
-- Conventions. A text is the list of its bytes. A w-bit integer is a natural number, and
-- arithmetic that can wrap has its remainder written out, as in a release build. A hash map is an
-- association list and a hash set a list without repetitions; nothing rests on their order except
-- which of several equally old entries a cache evicts. The clock and random numbers are arguments.
-- The floating-point numbers of the peer scores are exact multiples of 2^-128, rounded to 53 bits
-- as IEEE 754 rounds, so that a run gives the value that the program computes. The hash functions
-- K12 and SHA-256 and the hexadecimal text are parameters of which nothing is assumed; the
-- publisher is a parameter that says whether it takes a message. RocksDB, serde_json and hex are
-- parameters too; that an operation of RocksDB can fail with an I/O error is left out. Atomic
-- counters are fields of the state, and a handler of the processor, which waits for nothing, is
-- one step. A panic is an outcome of its own; the one reservation of memory whose size a payload
-- names takes from a parameter whether the allocator has room, and its failure, which aborts the
-- process, is written like a panic.
--
-- Fuel. Three loops take fuel. The search for the exponent of a rounded number takes 128 rounds,
-- more than the scores' 109 exponents. The loop over log events takes the length of the payload,
-- which is enough, since each round consumes at least 26 bytes. The loop that fills the window of
-- a backfill connection takes 22 rounds, which are enough for one skip, 20 requests and the last
-- test. The other loops run over a count or over the list of what arrives, and the loops over
-- connections stop waiting where that list ends.
--
-- Not modelled: the sockets, their timeouts and the delays between attempts, the NATS client and
-- JSON, logging, metrics and the sizes chosen from the system's resources; the pending requests,
-- which no other code uses, and the live client of crates/ingestion; the floating-point rates of
-- the pipeline status and the percentages of epoch intervals of crates/core; the set-up of
-- RocksDB, its I/O errors and the Parquet files of crates/storage; the consumer of
-- crates/processor; the pages of health, system information, metrics and documentation and the web
-- sockets of crates/query; the command line.
pub mod Common
pub mod Bytes
pub mod Core
pub mod Ingestion
pub mod Storage
pub mod Processor
pub mod Query
pub mod Tests
