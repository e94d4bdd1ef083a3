-- ===== src/Lib.antt =====
-- Verification library of logdrain, an online log-template miner (Rust).
--
-- The library crate crates/logdrain turns log lines into clusters. A call of `Miner::add` masks the line
-- (mask.rs), splits it into tokens (tokenize.rs), goes down a prefix tree of the shard for its token count
-- (tree.rs) to a leaf of cluster ids, scores the clusters there (similarity.rs), and joins the best one
-- that reaches the threshold, generalizing its template (cluster.rs), or makes a new one, evicting the
-- least recently used cluster of a full leaf (miner.rs). A snapshot of all clusters goes to bytes and back
-- (snapshot.rs) and to a backend (persistence.rs). The program crates/logdrain-cli puts the lines of its
-- input together to records, feeds them to a miner with their event times, and prints the clusters.
--
-- The files, each with its children:
--   Common      names of the libraries passed on, tests, lists, association lists, decimal numbers
--   Extern      what the code takes from elsewhere: `f64` and the `regex` crate, as interfaces
--   Errors      error.rs and the errors of persistence.rs
--   Mask        mask.rs: `Mask::new`, `apply_masks`, the built-in masks
--   Tokenize    tokenize.rs: `tokenize_with`, `split_first_line`, `is_numeric_token`
--   Options     options.rs: `Options`, `MinerBuilder`, `build_options`
--   Similarity  similarity.rs
--   Cluster     cluster.rs: `ClusterInner`, `Cluster`, clock times, rates; Render and Reread: the
--               rendered template, tokenized again
--   Tree        tree.rs: `LeafBucket`, `TreeNode`
--   Snapshot    snapshot.rs: the layouts, `encode`, `decode`, the upgrade of version 2
--   Persistence persistence.rs: the trait, the memory and the file backend; Redis and Kafka, with what
--               a load from Kafka reads in Kafka/Latest; Stores is the contract between a backend and
--               the miner (`IsStore`), which the backends fulfil, Kafka where no delivery fails, and
--               which Miner/Snapshot/Persisted uses
--   Miner       miner.rs: State (`Miner`), Matching (`best_match`), Learn (`apply_match`,
--               `evict_if_full`, the creation of a cluster), Add (`add` and its kin), Query
--               (`match_only`, `extract`, `clusters`), Snapshot (`snapshot`, `restore`); Layout reads the
--               shards as one map to leaves, Invariant ties leaves and bodies, Rematch and Adding
--               say what a call of `add` guarantees; Concurrent is `add_inner` on many threads:
--               Handles (what a thread may hold), Hits (what the bodies count), Spots, Sections, Searching,
--               Creating and Phases (each section under a lock), Reachable, Conserved, Progress, Alone
--               and Whole (what a thread does undisturbed)
--   Cli         crates/logdrain-cli: `unescape`, `find_sub`, `ingest_separated`,
--               `ingest_multiline_start`, `parse_event_ms`, the `Ingestor`, `build_masks`,
--               `build_miner` (main.rs), `extract_field` (input.rs), `prepare`, `csv_escape`
--               (format.rs), Output (`render` and the four formats, format.rs), Run
--               (`ingest_source`, `run`, `main`, main.rs)
--   Examples    runs of the model on the unit tests' inputs, and the theorems at concrete inputs
--
-- How the code is read. A `u64` is a number and its addition wraps (`% 2^64`). A text is the list of
-- its code points, a `HashMap` or `DashMap` an association list, a `SystemTime` its distance from
-- the epoch in nanoseconds. In all files but those below Miner/Concurrent calls run one at a time,
-- so the locks leave no trace and the atomics are fields; the two phases of an `add` stay two. A
-- handle to a cluster body is its id with the body found under it. A mutable reference to a leaf is
-- the leaf with a write along its path, `set_leaf`, which is of the model and not of the code;
-- `split_whitespace` is that of the standard library. A panic is `none`. Operations are the
-- functions of the same name; `set_…` are the builder's setters, `Cluster.new` is
-- `ClusterInner::new`, `decode_snapshot` is `decode`, and `has_no_clusters` is `Miner::is_empty`.
--
-- Threads. In Miner/Concurrent a thread is at a `Pc` of `add_inner`, with its locals, and a step
-- runs one section of one thread: `shard_for`, phase 1 under the shard's read lock, phase 2 under
-- its write lock, the part of `apply_match` under the body's read lock, the part under its write
-- lock. Such a section is one step. The code holds only its own shard's lock in a scan of bodies and
-- in a creation, and takes the body's lock for each body: what other threads do to bodies, or under
-- other shards' locks, within such a section is taken before or after it. A handle is the body's id;
-- a body that an eviction took out of the miner stays in `dropped` for the threads that hold it.
-- There is one clock reading for each step, any number of threads, and each makes one call.
--
-- All loops are structural recursions, so there is no fuel, but for decimal printing: 20 digits are
-- enough for a `u64`; and but for the inner loop of `ingest_separated`, whose fuel is the length of
-- the buffer, of which each round drains at least a byte.
--
-- Parameters: the type of floats with its operations (`Float`) and the laws of IEEE 754 that are
-- used (`IsIeee`); the regex engine (`RegexEngine`, `IsReplacing`); the `bincode` codec (`Bincode`),
-- of each of which Examples gives an instance; the JSON library (`Json`) and `chrono` (`Chrono`);
-- the printer of JSON values and of a float with one decimal (`Writer`); the clients of Redis and
-- Kafka (`RedisCrate`, `KafkaCrate`, and `IsKeyValue` and `IsPartition` for what Redis and Kafka
-- document); the files, the standard input, the clock, the conversions between bytes and text,
-- `Regex::is_match`, and whether the output can be written, of a run (`Host`).
--
-- The code is read as a release build: `prefix_len` wraps at a depth below 2, where a build with
-- overflow checks panics.
--
-- Not modelled: the state of the locks, so that neither a thread that waits for one nor a deadlock
-- is seen; interleavings of `restore` and of the queries with `add`, benchmarks, the example
-- programs, and of the command line the parsing of flags, which clap does.
pub mod Common
pub mod Extern
pub mod Errors
pub mod Mask
pub mod Tokenize
pub mod Options
pub mod Similarity
pub mod Cluster
pub mod Tree
pub mod Snapshot
pub mod Persistence
pub mod Miner
pub mod Cli
mod Examples
