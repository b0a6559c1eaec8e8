-- ===== src/Consumer/Apply/Epochs.antt =====
-- What the epoch loop folds into the mirror.
use strk20_indexer.Prelude.{
  ℕ, ◌+◌, ◌≤◌, ◌≡◌, ◌⊎◌, ◌↔◌, refl, sym, subst, inl, inr, Bool, true, false, ◌||◌, map, arith,
  leb→le, Option, none, some, List, [], ◌∷◌, String, Bool-cases,
}
use strk20_indexer.Feed.Error.{Result, ok, err}
use strk20_indexer.Feed.Felt.{Felt, Crypto}
use strk20_indexer.Feed.Host.{Bytes, Host, Json}
use strk20_indexer.Feed.Codec.{Epoch}
use strk20_indexer.Feed.Manifest.{
  ManifestEpoch, verify_epoch_against_manifest, verify_epoch_binding,
}
use strk20_indexer.Feed.Manifest.Chain.{IsNamed, verify_epoch-IsNamed, verify_epoch_binding_lem}
use strk20_indexer.Consumer.Reply.{Reply, done, failed, from_feed, with_value-eq-done}
use strk20_indexer.Consumer.Mem.{inclusive, replace_range}
use strk20_indexer.Consumer.Mem.View.{block_hashes}
use strk20_indexer.Feed.Decimal.{decimal}
use strk20_indexer.Consumer.Apply.Contradiction.{AnyOf, IsLost, contradicts_iff}
use strk20_indexer.Consumer.Apply.{
  Transport, Progress, or_panic, contradicts, final_blocks, is_applied, epoch_meta, fold_epoch,
  fetch_and_fold, apply_epoch, max_decompressed,
}

pub or_panic-eq-done : {A : Type 0} (o : Option A) {a : A} → or_panic o ≡ done a → o ≡ some a
or_panic-eq-done none q = absurd (cc)
or_panic-eq-done (some a) q = cc

pub from_feed-eq-ok : {A : Type 0} (r : Result A) {a : A} → from_feed r ≡ done a → r ≡ ok a
from_feed-eq-ok (ok a) q = cc
from_feed-eq-ok (err e) q = absurd (cc)

-- the epoch is at or below the last one applied
abbrev pub IsPast : Option ℕ → ℕ → Type 0
IsPast o e = (last : ℕ) × (o ≡ some last) × (e ≤ last)

past : (o : Option ℕ) (e : ℕ) → is_applied o e ≡ true → IsPast o e
unfolding is_applied
past none e q = absurd (cc)
past (some last) e q = (last, refl, leb→le _ _ q)

not-IsPast : (o : Option ℕ) (e : ℕ) → is_applied o e ≡ false → ¬ IsPast o e
unfolding is_applied
not-IsPast none e q (last, x, l) = cc
not-IsPast (some n) e q (last, x, l) = let same : n ≡ last = cc in ground arith

module _ {Value : Type 0} (c : Crypto) (h : Host) (j : Json Value) (t : Transport)
    (chain_id : String) (pool : Felt) where
  -- an epoch that was folded
  pub record IsFolded (entry : ManifestEpoch) (s next : Progress) : Type 0 where
    pub compressed : Bytes
    pub fetched : t.fetch_epoch entry.e ≡ done compressed
    pub payload : Bytes
    pub unpacked : t.decompress compressed max_decompressed "epoch" ≡ done payload
    pub epoch : Epoch
    pub stored : List (ℕ × Felt)
    pub named : IsNamed c h j entry payload s.prev_hash epoch
    pub chain : epoch.header.chain_id ≡ chain_id
    pub about : epoch.header.pool ≡ pool
    pub before : block_hashes (inclusive entry.from entry.to) s.store ≡ some stored
    -- whether the generation is bumped
    pub bumped : Bool
    pub is_bumped : (bumped ≡ true) ↔ AnyOf (IsLost epoch.blocks) stored
    pub replaced :
        replace_range
          (inclusive entry.from entry.to)
          (map (λ b. (b, true)) epoch.blocks)
          (("last_epoch_applied", decimal entry.e)
            ∷ ("last_epoch_hash", h.hex_encode (h.payload_sha256 payload))
            ∷ ("last_epoch_to", decimal entry.to)
            ∷ [])
          bumped
          s.store
        ≡ some next.store
    pub last : next.last_applied ≡ some entry.e
    pub prev : next.prev_hash ≡ some (h.payload_sha256 payload)
    pub count : next.epochs_applied ≡ s.epochs_applied + 1
    pub rewound : next.tail_rewound ≡ bumped || s.tail_rewound

  fetch_and_fold-IsFolded :
      (entry : ManifestEpoch) (s next : Progress)
      → fetch_and_fold c h j t chain_id pool entry s ≡ done next
      → IsFolded entry s next
  unfolding fetch_and_fold fold_epoch
  fetch_and_fold-IsFolded entry s next q =
      let (compressed, e1, q1) = with_value-eq-done (t.fetch_epoch entry.e) _ q in
      let (payload, e2, q2) =
        with_value-eq-done (t.decompress compressed max_decompressed "epoch") _ q1 in
      let (epoch, e3, q3) =
        with_value-eq-done
          (from_feed (verify_epoch_against_manifest c h j payload entry s.prev_hash)) _ q2 in
      let (u, e4, q4) =
        with_value-eq-done (from_feed (verify_epoch_binding epoch chain_id pool)) _ q3 in
      let (stored, e5, q5) =
        with_value-eq-done (or_panic (block_hashes (inclusive entry.from entry.to) s.store)) _ q4 in
      let (store, e6, q6) =
        with_value-eq-done
          (or_panic (
            replace_range (inclusive entry.from entry.to) (final_blocks epoch.blocks)
              (epoch_meta h entry payload) (contradicts epoch.blocks stored) s.store))
          _ q5 in
      let (chain, about) = verify_epoch_binding_lem epoch chain_id pool (from_feed-eq-ok _ e4) in
      subst (λ (x : Reply Progress). elim x [ done y ↦ IsFolded entry s y | failed _ ↦ Unit ]) q6
        (record {
          compressed = compressed;
          fetched = e1;
          payload = payload;
          unpacked = e2;
          epoch = epoch;
          stored = stored;
          named = verify_epoch-IsNamed c h j payload entry s.prev_hash epoch (from_feed-eq-ok _ e3);
          chain = chain;
          about = about;
          before = or_panic-eq-done _ e5;
          bumped = contradicts epoch.blocks stored;
          is_bumped = contradicts_iff epoch.blocks stored;
          replaced = or_panic-eq-done _ e6;
          last = refl;
          prev = refl;
          count = refl;
          rewound = refl;
        })

  -- A turn of the loop that succeeds either leaves everything as it is, and the epoch is at or below
  -- the last one applied, or it is not and the turn folds the payload that the manifest names, that
  -- links to the hash of the payload before it and is about the expected chain and pool. It replaces
  -- the epoch's range in the store by the epoch's blocks, as final ones, records the epoch, and bumps
  -- the generation exactly if for a stored block of the range the epoch has no block of its number and
  -- its hash.
  pub apply_epoch_lem :
      (entry : ManifestEpoch) (s next : Progress)
      → apply_epoch c h j t chain_id pool entry s ≡ done next
      → (IsPast s.last_applied entry.e × (next ≡ s))
        ⊎ ((¬ IsPast s.last_applied entry.e) × IsFolded entry s next)
  unfolding apply_epoch
  apply_epoch_lem entry s next q = elim (Bool-cases (is_applied s.last_applied entry.e)) [
    | inl e ↦ inl (past s.last_applied entry.e e, sym (same (rw (apply_epoch, e) at q)))
    | inr e ↦ inr (
      not-IsPast s.last_applied entry.e e,
      fetch_and_fold-IsFolded entry s next (rw (apply_epoch, e) at q),
    )
  ]
    where
      same : done s ≡ done next → s ≡ next
      same r = cc
