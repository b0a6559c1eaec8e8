-- ===== src/Consumer/Apply/Start/Bounds.antt =====
-- The cold start from a snapshot: what it checks, and the arithmetic of the epoch's end.
use strk20_indexer.Prelude.{
  ℕ, ◌+◌, ◌*◌, ◌≤◌, ◌<◌, ◌≡◌, ◌↔◌, ap, inl, inr, Option, some, String, Bool-cases, leb, arith,
}
use strk20_indexer.Feed.Felt.{Felt, Crypto}
use strk20_indexer.Feed.Host.{Bytes, Host, Json}
use strk20_indexer.Feed.Manifest.{Genesis, Manifest, ManifestEpoch, ManifestSnapshot, epoch_entry}
use strk20_indexer.Feed.Codec.Parse.{and_then}
use strk20_indexer.Feed.Snapshot.{Snapshot}
use strk20_indexer.Feed.Snapshot.Valid.{IsBound}
use strk20_indexer.Consumer.Number.{u64_max}
use strk20_indexer.Consumer.Reply.{Reply}
use strk20_indexer.Consumer.Mem.{Inner, install_snapshot}
use strk20_indexer.Consumer.Apply.{Transport}
use strk20_indexer.Consumer.Apply.Start.{
  expected_end, checked_mul, checked_add, checked_sub, snapshot_meta,
}

next_epoch : (e size : ℕ) → (e + 1) * size ≡ e * size + size
next_epoch e size = grind arith

-- the arithmetic after the product
end_from : ℕ → ℕ → Option ℕ
unfolding checked_add checked_sub
end_from start size = and_then (checked_add start size) (λ end. checked_sub end 1)

end_from_lem :
    (start size end : ℕ)
    → (end_from start size ≡ some end) ↔ ((end + 1 ≡ start + size) × (start + size ≤ u64_max))
unfolding end_from checked_add checked_sub
end_from_lem start size end = elim (Bool-cases (leb (start + size) u64_max)) [
  | inl x ↦ elim (Bool-cases (leb 1 (start + size))) [
    | inl y ↦ rw (end_from, x, y) (λ q. ground (arith, some_inj q), λ w. ap some (ground arith))
    | inr y ↦ rw (end_from, x, y) (λ q. absurd (cc), λ w. absurd (ground arith))
  ]
  | inr x ↦ rw (end_from, x) (λ q. absurd (cc), λ w. absurd (ground arith))
]
  where
    some_inj : {a b : ℕ} → ◌≡◌ {A = Option ℕ} (some a) (some b) → a ≡ b
    some_inj q = cc

-- The end block of an epoch is computed exactly when the start of the next epoch fits into a u64 and
-- is not zero, and is then the block before it.
pub expected_end_lem :
    (e size end : ℕ)
    → (expected_end e size ≡ some end) ↔ ((end + 1 ≡ (e + 1) * size) × ((e + 1) * size ≤ u64_max))
unfolding expected_end checked_mul end_from
expected_end_lem e size end = elim (Bool-cases (leb (e * size) u64_max)) [
  | inl x ↦ rw (next_epoch e size, expected_end, x) (end_from_lem (e * size) size end)
  | inr x ↦ rw (next_epoch e size, expected_end, x) (λ q. absurd (cc), λ w. absurd (ground arith))
]

module _ {Value : Type 0} (c : Crypto) (h : Host) (j : Json Value) (t : Transport) where
  -- a mirror that starts from a snapshot file
  pub record IsCold (manifest : Manifest) (entry : ManifestSnapshot) (genesis : Genesis)
      (feed_pool : Felt) (g : Inner) (block : ℕ) (k : Inner) : Type 0 where
    pub basis : ManifestEpoch
    pub listed : epoch_entry manifest entry.e ≡ some basis
    pub zst : String
    pub payload : Bytes
    pub snap : Snapshot
    pub bound :
        IsBound c h j payload zst entry basis.hash
          (record { chain_id = genesis.chain_id; pool = feed_pool })
          snap
    pub at : snap.header.block ≡ block
    pub next : block + 1 ≡ (entry.e + 1) * genesis.epoch_size
    pub fits : block < u64_max
    pub stored : k ≡ install_snapshot snap.slots (snapshot_meta snap.header) g
