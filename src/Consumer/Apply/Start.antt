-- ===== src/Consumer/Apply/Start.antt =====
-- `apply_feed_once` from its first line: the identity checks, the cold start from a snapshot, the
-- check for a divergent chain, and then the epochs and the tail.
pub mod Runs
pub mod Pinned
pub mod Bounds
use strk20_indexer.Prelude.{
  ℕ, ◌+◌, ◌-◌, ◌*◌, ◌%◌, Bool, true, false, not, ◌&&◌, Option, none, some, List, [], ◌∷◌, String,
  length, leb, ◌==◌, str_eq, if◌then◌else◌,
}
use strk20_indexer.Feed.Error.{malformed}
use strk20_indexer.Feed.Felt.{Felt, Crypto, felt_from_hex}
use strk20_indexer.Feed.Host.{Bytes, Host, Json}
use strk20_indexer.Feed.Decimal.{decimal}
use strk20_indexer.Feed.Codec.Parse.{and_then}
use strk20_indexer.Feed.Manifest.{Genesis, Manifest, ManifestEpoch, ManifestSnapshot, epoch_entry}
use strk20_indexer.Feed.Snapshot.{
  Snapshot, SnapshotHeader, FeedIdentity, check_zst_hash, decode_snapshot_payload,
}
use strk20_indexer.Map.{meta_get}
use strk20_indexer.Consumer.Number.{u64_max, parse_u64}
use strk20_indexer.Consumer.Reply.{
  Failure, bail, Reply, done, failed, from_feed, with_value, requiring,
}
use strk20_indexer.Consumer.Mem.{Inner, install_snapshot}
use strk20_indexer.Consumer.Mem.View.{is_empty}
use strk20_indexer.Consumer.State.{history_floor_of}
use strk20_indexer.Consumer.Act.{
  Act, ◌>>=◌, ◌>>◌, give, stop, look, answer, put_meta, read_meta, check, carry,
}
use strk20_indexer.Consumer.Apply.{Transport, Progress, max_decompressed, apply_epochs}
use strk20_indexer.Consumer.Apply.Tail.{TailOutcome, epoch_floor, apply_tail}

pub data ColdStart : Type 0 where
  auto snapshot epochs : ColdStart

abbrev pub is_epochs : ColdStart → Bool
is_epochs epochs = true
is_epochs auto = false
is_epochs snapshot = false

-- `ApplyOutcome`
pub record ApplyOutcome : Type 0 where
  pub epochs_applied : ℕ
  pub tail_rewound : Bool
  pub tail_changed : Bool
  pub head : ℕ
  pub l1_accepted : ℕ
  pub last_epoch_to : ℕ
  pub snapshot_basis : Option ℕ
  pub history_floor : ℕ

-- a mirror without a pool is pinned to this one
abbrev pub pin_stored : Genesis → Option String → Act (Unit {0})
pin_stored genesis none = do
  put_meta "pool" genesis.pool
  put_meta "chain_id" genesis.chain_id
  put_meta "epoch_size" (decimal genesis.epoch_size)
  put_meta "genesis_block" (decimal genesis.genesis_block)
pin_stored genesis (some pool) =
    check (str_eq pool genesis.pool) "feed pool does not match local mirror"

unfoldable pub pin_identity : Genesis → Act (Unit {0})
pin_identity genesis = read_meta "pool" >>= pin_stored genesis

abbrev pub check_stored_chain : Genesis → Option String → Act (Unit {0})
check_stored_chain genesis none = give tt
check_stored_chain genesis (some chain_id) =
    check (str_eq chain_id genesis.chain_id) "feed chain id does not match local mirror"

unfoldable pub check_pinned_chain : Genesis → Act (Unit {0})
check_pinned_chain genesis = read_meta "chain_id" >>= check_stored_chain genesis

-- `checked_mul`, `checked_add` and `checked_sub` of u64
unfoldable pub checked_mul : ℕ → ℕ → Option ℕ
checked_mul a b = if leb (a * b) u64_max then some (a * b) else none

unfoldable pub checked_add : ℕ → ℕ → Option ℕ
checked_add a b = if leb (a + b) u64_max then some (a + b) else none

unfoldable pub checked_sub : ℕ → ℕ → Option ℕ
checked_sub a b = if leb b a then some (a - b) else none

-- the last block of the epoch, unless the arithmetic overflows
unfoldable pub expected_end : ℕ → ℕ → Option ℕ
unfolding checked_mul checked_add checked_sub
expected_end e epoch_size =
    and_then (and_then (checked_mul e epoch_size) (λ start. checked_add start epoch_size))
      (λ end. checked_sub end 1)

-- the function `install_snapshot` of apply.rs; the sum is of a release build
abbrev pub snapshot_meta : SnapshotHeader → List (String × String)
snapshot_meta h =
    ("last_epoch_applied", decimal h.epoch)
    ∷ ("last_epoch_hash", h.epoch_hash)
    ∷ ("last_epoch_to", decimal h.block)
    ∷ ("history_floor", decimal ((h.block + 1) % (u64_max + 1)))
    ∷ ("snapshot_basis", decimal h.block)
    ∷ []

unfoldable pub fold_snapshot : Snapshot → Act (Unit {0})
fold_snapshot snap g = (done tt, install_snapshot snap.slots (snapshot_meta snap.header) g)

-- `manifest.epoch(e).map(|m| m.hash.clone())`
abbrev pub hash_of_epoch : Option ManifestEpoch → Reply String
hash_of_epoch none = failed (bail "FEED_CHAIN_BROKEN")
hash_of_epoch (some m) = done m.hash

unfoldable pub is_some_end : Option ℕ → ℕ → Act (Unit {0})
is_some_end none block = stop "FEED_MALFORMED: overflows the epoch range arithmetic"
is_some_end (some end) block =
    check (block == end) "FEED_MALFORMED: snapshot basis is not the end block of epoch"

-- of 32 bytes
unfoldable pub stored_hash : Host → Option String → Reply (Option Bytes)
stored_hash h none = done none
stored_hash h (some text) = elim (h.hex_decode text) [
  | none ↦ failed (bail "hex")
  | some b ↦ requiring (length b == 32) "bad stored epoch hash" (done (some b))
]

abbrev pub check_listed : Option ManifestEpoch → String → Act (Unit {0})
check_listed none local = stop "feed diverged: manifest no longer lists applied epoch"
check_listed (some entry) local = check (str_eq entry.hash local) "feed diverged: hash"

-- the manifest still lists the last epoch that was applied, with its hash
unfoldable pub check_diverged : Host → Manifest → Option ℕ → Option Bytes → Act (Unit {0})
check_diverged h manifest none local = give tt
check_diverged h manifest (some last) none = give tt
check_diverged h manifest (some last) (some local) =
    check_listed (epoch_entry manifest last) (h.hex_encode local)

module _ {Value : Type 0} (c : Crypto) (h : Host) (j : Json Value) (t : Transport) where
  unfoldable pub verify_snapshot : Bytes → ManifestSnapshot → String → FeedIdentity → Reply Snapshot
  verify_snapshot compressed entry basis_epoch_hash expect =
      let zst = h.hex_encode (h.payload_sha256 compressed) in
      with_value (from_feed (check_zst_hash c h j zst entry)) λ _.
        with_value (t.decompress compressed max_decompressed entry.file) λ payload.
          from_feed (decode_snapshot_payload c h j payload zst entry basis_epoch_hash expect)

  unfoldable pub cold_start_from_snapshot : Manifest → ManifestSnapshot → Genesis → Felt → Act ℕ
  cold_start_from_snapshot manifest entry genesis feed_pool = do
    basis_epoch_hash ← answer (hash_of_epoch (epoch_entry manifest entry.e))
    compressed ← answer (t.fetch_snapshot entry.e)
    snap ← answer (
        verify_snapshot compressed entry basis_epoch_hash
          (record { chain_id = genesis.chain_id; pool = feed_pool }))
    is_some_end (expected_end entry.e genesis.epoch_size) snap.header.block
    fold_snapshot snap
    give snap.header.block

  -- what an empty mirror starts from
  unfoldable pub take_snapshot :
      Option ManifestSnapshot → ColdStart → Manifest → Genesis → Felt → Act (Unit {0})
  take_snapshot (some entry) cold_start manifest genesis feed_pool =
      cold_start_from_snapshot manifest entry genesis feed_pool >>= λ _. give tt
  take_snapshot none snapshot manifest genesis feed_pool = stop "SNAPSHOT_UNAVAILABLE"
  take_snapshot none auto manifest genesis feed_pool = give tt
  take_snapshot none epochs manifest genesis feed_pool = give tt

  unfoldable pub start_cold : ColdStart → Manifest → Genesis → Felt → Act (Unit {0})
  start_cold cold_start manifest genesis feed_pool g =
      if not (is_epochs cold_start) && is_empty g
      then take_snapshot manifest.snapshot cold_start manifest genesis feed_pool g
      else give tt g

  -- the epoch loop from the recorded position
  unfoldable pub run_epochs :
      String → Felt → List ManifestEpoch → Option ℕ → Option Bytes → Act Progress
  run_epochs chain_id pool entries last prev g =
      let s : Progress = record {
        store = g;
        last_applied = last;
        prev_hash = prev;
        epochs_applied = 0;
        tail_rewound = false;
      } in
      let r = apply_epochs c h j t chain_id pool entries s in carry (r.0, r.1.store) (λ _. give r.1)

  abbrev pub with_tail : Inner → Reply TailOutcome → Reply TailOutcome × Inner
  with_tail g (failed e) = (failed e, g)
  with_tail g (done o) = (done o, o.store)

  unfoldable pub run_tail : Bool → Act TailOutcome
  run_tail rewound g = with_tail g (apply_tail c h j t g rewound)

  unfoldable pub apply_feed_once : ColdStart → Act ApplyOutcome
  apply_feed_once cold_start = do
    genesis ← answer t.fetch_genesis
    pin_identity genesis
    check_pinned_chain genesis
    manifest ← answer t.fetch_manifest
    check (str_eq manifest.chain_id genesis.chain_id) "feed disagrees with itself"
    feed_pool ← answer (from_feed (felt_from_hex c genesis.pool))
    start_cold cold_start manifest genesis feed_pool
    last ← look (λ g. done (and_then (meta_get "last_epoch_applied" g.meta) parse_u64))
    prev ← look (λ g. stored_hash h (meta_get "last_epoch_hash" g.meta))
    check_diverged h manifest last prev
    s ← run_epochs genesis.chain_id feed_pool manifest.epochs last prev
    floor ← look (λ g. done (epoch_floor g))
    o ← run_tail s.tail_rewound
    basis ← look (λ g. done (and_then (meta_get "snapshot_basis" g.meta) parse_u64))
    history ← look (λ g. done (history_floor_of g))
    give (record {
      epochs_applied = s.epochs_applied;
      tail_rewound = o.tail_rewound;
      tail_changed = o.tail_changed;
      head = o.head;
      l1_accepted = o.l1_accepted;
      last_epoch_to = floor;
      snapshot_basis = basis;
      history_floor = history;
    })
