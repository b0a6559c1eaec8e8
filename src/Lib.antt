-- ===== src/Lib.antt =====
-- A verification library for strk20-indexer: the public feed of a Starknet privacy pool, from its
-- files to the mirror that a wallet reads.
--
-- The indexer publishes the pool's history as a feed: a manifest, a chain of epoch files, a head
-- file for the tail, and snapshots for a cold start. A consumer trusts none of it. It decodes each
-- file with its structural checks, follows the hashes from the manifest, folds the blocks into a
-- mirror, recomputes the pool's storage root from the mirror, and compares it with a root that a
-- storage proof authenticates against a block header it trusts.
--
-- Feed (crates/feed/src):
--   Feed.Error        FeedError and the ? operator of lib.rs
--   Feed.Felt         field elements as their canonical integers; the hash functions of
--                     starknet_crypto and Felt::from_hex are the fields of the record Crypto
--   Feed.Host         sha256, hex, UTF-8 and serde_json as the records Host and Json, and the lines
--                     of a text
--   Feed.Mpt          mpt.rs: the root of a slot set by recursion on its sorted keys. Spec is the
--                     reference trie of a map from paths to values, Root compares the two; Order,
--                     Sorted, Bits, Edges and Nodes are the steps, and Binds is about roots of two
--                     maps
--   Feed.Trie         trie.rs: the tree that is kept up to date slot by slot, with its cached hashes.
--                     Holds, Commit, Branches, Write, Digits, Parts, Build, Slots, Loops and Collected are the
--                     steps, Refines joins it with Feed.Mpt, and Total says when it succeeds
--   Feed.Proof        mpt.rs: verify_storage_proof as rounds of one node each
--   Feed.Codec        codec.rs: the records and the checks on blocks; Codec.Parse the decoders
--                     parse_epoch and parse_head, Codec.Valid what they accept
--   Feed.Manifest     manifest.rs: verify_chain and its parts; Chain and Pinned what they establish
--   Feed.Decimal      the numbers in file names
--   Feed.Hex          felt_hex of lib.rs
--   Feed.Anchors      anchors.rs: the parser and the encoder of the anchor log; Ascending is about
--                     their order
--   Feed.Snapshot     snapshot.rs: parse and the ladder up to verify_snapshot_payload
--   Feed.Checkpoint   checkpoint.rs: verify_checkpoint
--
-- Map, with Map.Laws, is BTreeMap as an ordered list of entries.
--
-- Consumer (crates/consumer/src):
--   Consumer.Number   u64::to_string and str::parse, since the mirror keeps numbers as text
--   Consumer.Mem      mem.rs and the types of store.rs: the state Inner and every call that writes
--                     it. Reads, Rows, Mirror, Replace and Generation are about the rows and the
--                     metadata, Notes and Registry about the note registry, View about the
--                     reads, Steps makes the calls the steps of a state machine
--   Consumer.Reply    anyhow's results
--   Consumer.Act      a function that writes the store on its way, as an answer with the store that it
--                     leaves; Trace counts what such a function writes
--   Consumer.Apply    apply.rs: the epoch loop over a transport, Apply.Tail the rebuild of the tail,
--                     and Apply.Start the whole of apply_feed_once with the identity checks and the
--                     cold start. Apply.Contradiction says when a stored block contradicts a file;
--                     Apply.Epochs and Apply.Floor say what one epoch and the tail do to the
--                     mirror; Start.Runs, Start.Pinned and Start.Bounds are about the whole
--   Consumer.State    anchors.rs: verify_state, with the bounds of apply.rs; Grounded joins it with
--                     the checkpoint
--   Consumer.Anchors  the rest of anchors.rs: verify_anchors, with Matched, and
--                     ground_mirror_against_rpc, with Proved
--   Consumer.Sync     sync.rs: sync_once over the discovery that it starts, with Trusted, and the
--                     upkeep of the note registry, with Pruned
--
-- Indexer (crates/indexerd/src):
--   Indexer.Store     the meta table of db.rs as a record of two operations, with the laws that SQL
--                     gives them; both can fail
--   Indexer.Config    config.rs: the chain profiles and the epoch arithmetic; Covers joins its two
--                     directions
--   Indexer.Recovery  recovery.rs: the record of the divergence that has had its attempt. Marks is
--                     about what is on record, Named about its text, Repeats about the warning
--   Indexer.Cutter    cutter.rs: verify_and_capture over the probe of the chain's root; Cleared is
--                     about what it leaves on record
--   Indexer.Closure   recovery.rs: run_closure over the trie walk and the ingest
--   Indexer.Cycle     main.rs: cut_epochs_with_recovery over the cutter and the closure loop as it
--                     meets them, with a list of the attempts as a history variable; Once is
--                     about their number
--
-- Examples holds toy hash functions, documents in place of JSON, and concrete runs.
--
-- How the code corresponds. A Result of the source is the type Result of Feed.Error; messages keep
-- the constant part of their format string. A u64 is a natural number; the wrap-around of the
-- generation counter and the saturation of a range's bound are written out. A BTreeMap::range on
-- bounds that are out of order panics in the source and gives none here. The update of the
-- cached tree gives none where Node::build panics.
--
-- Third-party code is a parameter: hash functions, sha256, hex, serde_json, and the deserialiser
-- that serde derives for the proof. Nothing is assumed of it but
-- where a theorem says so. Where security rests on a hash
-- function, the theorem returns a collision as a value: Break (a collision of the trie's node hash
-- or a node that hashes to zero), PedersenCollision, PoseidonCollision, DigestCollision.
--
-- Fuel. The recursion of subtree goes down one level of the trie at a time and has as many levels
-- as keys have bits left. Two keys with the same bits would exhaust it, which the source answers
-- with a panic; bit_entries has removed them. The walk of a storage proof gets one round more than
-- the trie has levels: every node goes down one level at least, since an edge of length zero is
-- refused. The tree of trie.rs is built with as many levels as are left below the node, and a
-- set of keys that differ ends before. The loop of cut_epochs_with_recovery has two turns, as in the
-- source.
--
-- Not modelled. The cache file of trie.rs and mem.rs (the state check takes the root of the trait's
-- own method, which the incremental trie is proved to agree with), the encoders of codec.rs and
-- snapshot.rs, discover_state and the passes of sync.rs, which run the third-party discovery
-- engine, and of the indexer the cut of an epoch, the ingest, the trie walk and the
-- live head. The rest of its database, the network, the command lines and the browser bindings are
-- input and output.
pub mod Consumer
pub mod Examples
pub mod Feed
pub mod Indexer
pub mod Map
pub mod Prelude
