-- ===== src/Feed/Manifest.antt =====
-- crates/feed/src/manifest.rs: the manifest, and the check of an epoch against it.
pub mod Chain
pub mod Pinned
use strk20_indexer.Prelude.{
  ℕ, Bool, true, false, not, ◌&&◌, Option, none, some, List, [], ◌∷◌, String, ◌==◌, str_eq,
  if◌then◌else◌,
}
use strk20_indexer.Feed.Error.{
  FeedError, malformed, hash_mismatch, chain_broken, Result, ok, err, ◌>>=◌, ◌>>◌, ensure,
}
use strk20_indexer.Feed.Felt.{Felt, Crypto}
use strk20_indexer.Feed.Host.{Bytes, Host, Json}
use strk20_indexer.Feed.Codec.{Epoch}
use strk20_indexer.Feed.Codec.Parse.{parse_epoch}

pub record Genesis : Type 0 where
  pub format : String
  pub v : ℕ
  pub chain_id : String
  pub pool : String
  pub genesis_block : ℕ
  pub epoch_size : ℕ

pub record ManifestHead : Type 0 where
  pub number : ℕ
  pub hash : String
  pub l1_accepted : ℕ
  pub class : String
  pub decode_state : String

pub record EpochAnchor : Type 0 where
  pub block : ℕ
  pub block_hash : String
  pub storage_root : String
  pub class : String

pub record ManifestEpoch : Type 0 where
  pub e : ℕ
  pub from : ℕ
  pub to : ℕ
  pub hash : String
  pub zst : String
  pub bytes : ℕ
  pub anchor : Option EpochAnchor

pub record ManifestSnapshot : Type 0 where
  pub e : ℕ
  pub block : ℕ
  pub epoch_hash : String
  pub file : String
  pub hash : String
  pub zst : String
  pub bytes : ℕ
  pub slots : ℕ
  pub storage_root : String
  pub anchor : Option EpochAnchor
  pub grounding : String

pub record Manifest : Type 0 where
  pub v : ℕ
  pub chain_id : String
  pub pool : String
  pub genesis_block : ℕ
  pub epoch_size : ℕ
  pub head : ManifestHead
  pub latest_epoch : Option ℕ
  pub epochs : List ManifestEpoch
  pub snapshot : Option ManifestSnapshot

-- `self.epochs.iter().find(|m| m.e == e)`
unfoldable pub find_epoch : ℕ → List ManifestEpoch → Option ManifestEpoch
find_epoch e [] = none
find_epoch e (m ∷ r) = if m.e == e then some m else find_epoch e r

-- the method `epoch`
unfoldable pub epoch_entry : Manifest → ℕ → Option ManifestEpoch
unfolding find_epoch
epoch_entry m e = find_epoch e m.epochs

-- `==` on byte arrays and on options of them
unfoldable pub bytes_eq : Bytes → Bytes → Bool
bytes_eq [] [] = true
bytes_eq [] (y ∷ ys) = false
bytes_eq (x ∷ xs) [] = false
bytes_eq (x ∷ xs) (y ∷ ys) = x == y && bytes_eq xs ys

unfoldable pub hash_eq : Option Bytes → Option Bytes → Bool
unfolding bytes_eq
hash_eq none none = true
hash_eq none (some b) = false
hash_eq (some a) none = false
hash_eq (some a) (some b) = bytes_eq a b

unfoldable pub verify_epoch_binding : Epoch → String → Felt → Result (Unit {0})
verify_epoch_binding epoch chain_id pool = do
  ensure (str_eq epoch.header.chain_id chain_id) (malformed "epoch is stamped another chain")
  ensure (epoch.header.pool == pool) (malformed "epoch is stamped another pool")
  ok tt

module _ {Value : Type 0} (c : Crypto) (h : Host) (j : Json Value) where
  abbrev hash_text : Option Bytes → String
  hash_text none = "null"
  hash_text (some b) = h.hex_encode b

  unfoldable pub verify_epoch_against_manifest : Bytes → ManifestEpoch → Option Bytes → Result Epoch
  verify_epoch_against_manifest payload entry prev_hash = do
    let actual = h.hex_encode (h.payload_sha256 payload)
    ensure (str_eq actual entry.hash) (hash_mismatch entry.e entry.hash actual)
    epoch ← parse_epoch c h j payload
    ensure
        (epoch.header.epoch == entry.e
          && epoch.header.from == entry.from
          && epoch.header.to == entry.to)
        (malformed "epoch header range disagrees with manifest")
    ensure (hash_eq epoch.header.prev prev_hash)
        (chain_broken entry.e (hash_text prev_hash) (hash_text epoch.header.prev))
    ok epoch

  -- the loop of `verify_chain`, from `prev` on
  unfoldable pub verify_chain_from :
      Option Bytes → List (ManifestEpoch × Bytes) → Result (List Epoch)
  verify_chain_from prev [] = ok []
  verify_chain_from prev ((entry, payload) ∷ r) = do
    epoch ← verify_epoch_against_manifest payload entry prev
    rest ← verify_chain_from (some (h.payload_sha256 payload)) r
    ok (epoch ∷ rest)

  unfoldable pub verify_chain : List (ManifestEpoch × Bytes) → Result (List Epoch)
  verify_chain items = verify_chain_from none items
