-- ===== src/Consumer/Apply.antt =====
-- The epoch loop of `apply_feed_once` in crates/consumer/src/apply.rs.
--
-- The transport is a parameter. An epoch that fails leaves the store as the epochs before it left
-- it, since the only write is the last step.
pub mod Epochs
pub mod Tail
pub mod Contradiction
pub mod Floor
pub mod Start
use strk20_indexer.Prelude.{
  ℕ, ◌+◌, ◌*◌, Bool, true, false, not, ◌&&◌, ◌||◌, Option, none, some, List, [], ◌∷◌, map, String,
  leb, ◌==◌,
}
use strk20_indexer.Feed.Error.{Result, ok, err}
use strk20_indexer.Feed.Felt.{Felt, Crypto}
use strk20_indexer.Feed.Host.{Bytes, Host, Json}
use strk20_indexer.Feed.Decimal.{decimal}
use strk20_indexer.Feed.Codec.{BlockLine, Epoch}
use strk20_indexer.Feed.Manifest.{
  Genesis, Manifest, ManifestEpoch, verify_epoch_against_manifest, verify_epoch_binding,
}
use strk20_indexer.Consumer.Reply.{Failure, panicked, Reply, done, failed, from_feed, with_value}
use strk20_indexer.Consumer.Mem.{Inner, Range, inclusive, replace_range}
use strk20_indexer.Consumer.Mem.View.{block_hashes}

-- `FeedTransport`, as far as the folding of the feed uses it
pub record Transport : Type 0 where
  pub fetch_genesis : Reply Genesis
  pub fetch_manifest : Reply Manifest
  pub fetch_snapshot : ℕ → Reply Bytes
  pub fetch_epoch : ℕ → Reply Bytes
  -- `none` when the entity tag still matches
  pub fetch_head : Option String → Reply (Option (Bytes × String))
  pub decompress : Bytes → (cap : ℕ) → String → Reply Bytes

abbrev pub max_decompressed : ℕ
max_decompressed = 256 * 1024 * 1024

-- the loop's variables with the store
pub record Progress : Type 0 where
  pub store : Inner
  pub last_applied : Option ℕ
  pub prev_hash : Option Bytes
  pub epochs_applied : ℕ
  pub tail_rewound : Bool

-- a call of the store that may stop the process
abbrev pub or_panic : {A : Type 0} → Option A → Reply A
or_panic none = failed panicked
or_panic (some a) = done a

unfoldable pub holds_block : List BlockLine → ℕ → Felt → Bool
holds_block [] n h = false
holds_block (b ∷ r) n h = ((b.number == n) && (b.hash == h)) || holds_block r n h

-- a stored block that the epoch does not hold
unfoldable pub contradicts : List BlockLine → List (ℕ × Felt) → Bool
unfolding holds_block
contradicts blocks [] = false
contradicts blocks (x ∷ r) = not (holds_block blocks x.0 x.1) || contradicts blocks r

abbrev pub final_blocks : List BlockLine → List (BlockLine × Bool)
final_blocks = map (λ b. (b, true))

unfoldable pub is_applied : Option ℕ → ℕ → Bool
is_applied none e = false
is_applied (some last) e = leb e last

abbrev pub epoch_meta : Host → ManifestEpoch → Bytes → List (String × String)
epoch_meta h entry payload =
    ("last_epoch_applied", decimal entry.e)
    ∷ ("last_epoch_hash", h.hex_encode (h.payload_sha256 payload))
    ∷ ("last_epoch_to", decimal entry.to)
    ∷ []

module _ {Value : Type 0} (c : Crypto) (h : Host) (j : Json Value) (t : Transport)
    (chain_id : String) (pool : Felt) where
  -- what follows on the verification of an epoch
  unfoldable pub fold_epoch : ManifestEpoch → Bytes → Epoch → Progress → Reply Progress
  fold_epoch entry payload epoch s =
      let range = inclusive entry.from entry.to in
      with_value (or_panic (block_hashes range s.store)) λ stored.
        let contradiction = contradicts epoch.blocks stored in
        with_value
          (or_panic (
            replace_range range (final_blocks epoch.blocks) (epoch_meta h entry payload)
              contradiction s.store))
          λ store. done (record {
            store = store;
            last_applied = some entry.e;
            prev_hash = some (h.payload_sha256 payload);
            epochs_applied = s.epochs_applied + 1;
            tail_rewound = contradiction || s.tail_rewound;
          })

  unfoldable pub fetch_and_fold : ManifestEpoch → Progress → Reply Progress
  unfolding fold_epoch
  fetch_and_fold entry s = with_value (t.fetch_epoch entry.e) λ compressed.
      with_value (t.decompress compressed max_decompressed "epoch") λ payload.
        with_value (from_feed (verify_epoch_against_manifest c h j payload entry s.prev_hash))
          λ epoch.
            with_value (from_feed (verify_epoch_binding epoch chain_id pool))
              λ _. fold_epoch entry payload epoch s

  -- one turn of the loop
  unfoldable pub apply_epoch : ManifestEpoch → Progress → Reply Progress
  apply_epoch entry s = elim (is_applied s.last_applied entry.e) [
    | true ↦ done s
    | false ↦ fetch_and_fold entry s
  ]

  unfoldable pub apply_epochs : List ManifestEpoch → Progress → Reply (Unit {0}) × Progress
  apply_epochs [] s = (done tt, s)
  apply_epochs (entry ∷ r) s = elim (apply_epoch entry s) [
    | failed e ↦ (failed e, s)
    | done next ↦ apply_epochs r next
  ]
