-- ===== src/Consumer/Apply/Start/Pinned.antt =====
-- A mirror is only continued from the feed that it was folded from.
use strk20_indexer.Prelude.{
  ℕ, ◌≡◌, refl, ◌∙◌, subst, Bool, true, false, not, ◌&&◌, Option, none, some, String, str_eq,
  eq_iff,
}
use strk20_indexer.Feed.Felt.{Felt, Crypto}
use strk20_indexer.Feed.Host.{Bytes, Host, Json}
use strk20_indexer.Feed.Codec.Parse.{and_then}
use strk20_indexer.Feed.Manifest.{Genesis, Manifest, ManifestEpoch, epoch_entry}
use strk20_indexer.Map.{meta_get}
use strk20_indexer.Consumer.Number.{parse_u64}
use strk20_indexer.Consumer.Reply.{Reply, done}
use strk20_indexer.Consumer.Mem.{Inner}
use strk20_indexer.Consumer.Mem.View.{is_empty}
use strk20_indexer.Consumer.Act.{after_answer, after_step, after_look, after_check, check-eq-done}
use strk20_indexer.Consumer.Apply.{Transport}
use strk20_indexer.Consumer.Apply.Start.{
  ColdStart, ApplyOutcome, is_epochs, pin_stored, pin_identity, check_stored_chain,
  check_pinned_chain, check_listed, check_diverged, stored_hash, start_cold, apply_feed_once,
}

pin_stored_kept :
    (genesis : Genesis) (pool : String) (g : Inner) {u : Unit {0}} {k : Inner}
    → pin_stored genesis (some pool) g ≡ (done u, k)
    → (pool ≡ genesis.pool) × (k ≡ g)
pin_stored_kept genesis pool g q =
    let (e, same) = check-eq-done (str_eq pool genesis.pool) _ g q in
    ((eq_iff pool genesis.pool).0 e, same)

pin_identity_kept :
    (genesis : Genesis) (pool : String) (g : Inner) {u : Unit {0}} {k : Inner}
    → meta_get "pool" g.meta ≡ some pool
    → pin_identity genesis g ≡ (done u, k)
    → (pool ≡ genesis.pool) × (k ≡ g)
unfolding pin_identity
pin_identity_kept genesis pool g {u = u} {k = k} e q = after_look _ _ g q λ o a r.
    let same : o ≡ some pool = cc in
    pin_stored_kept genesis pool g (subst (λ x. pin_stored genesis x g ≡ (done u, k)) same r)

check_pinned_chain_kept :
    (genesis : Genesis) (chain_id : String) (g : Inner) {u : Unit {0}} {k : Inner}
    → meta_get "chain_id" g.meta ≡ some chain_id
    → check_pinned_chain genesis g ≡ (done u, k)
    → (chain_id ≡ genesis.chain_id) × (k ≡ g)
unfolding check_pinned_chain
check_pinned_chain_kept genesis chain_id g {u = u} {k = k} e q = after_look _ _ g q λ o a r.
    let same : o ≡ some chain_id = cc in
    let (x, kept) =
      check-eq-done (str_eq chain_id genesis.chain_id) _ g
        (subst (λ x. check_stored_chain genesis x g ≡ (done u, k)) same r) in
    ((eq_iff chain_id genesis.chain_id).0 x, kept)

-- a mirror that has applied an epoch is not empty
is_empty_applied :
    (g : Inner) (last : ℕ)
    → and_then (meta_get "last_epoch_applied" g.meta) parse_u64 ≡ some last
    → is_empty g ≡ false
unfolding is_empty
is_empty_applied g last q = of (meta_get "last_epoch_applied" g.meta) refl q
  where
    of :
        (o : Option String)
        → meta_get "last_epoch_applied" g.meta ≡ o
        → and_then o parse_u64 ≡ some last
        → is_empty g ≡ false
    of none e q = absurd (cc)
    of (some text) e q = rw (is_empty, e) refl

check_listed-eq-done :
    (o : Option ManifestEpoch) (text : String) (g : Inner) {u : Unit {0}} {k : Inner}
    → check_listed o text g ≡ (done u, k)
    → (entry : ManifestEpoch) × (o ≡ some entry) × (entry.hash ≡ text)
check_listed-eq-done none text g q = absurd (cc)
check_listed-eq-done (some entry) text g q =
    let (e, same) = check-eq-done (str_eq entry.hash text) _ g q in
    (entry, refl, (eq_iff entry.hash text).0 e)

module _ {Value : Type 0} (c : Crypto) (h : Host) (j : Json Value) (t : Transport) where
  start_cold_applied :
      (cold_start : ColdStart) (manifest : Manifest) (genesis : Genesis) (pool : Felt) (g : Inner)
      {u : Unit {0}} {k : Inner}
      → is_empty g ≡ false
      → start_cold c h j t cold_start manifest genesis pool g ≡ (done u, k)
      → k ≡ g
  unfolding start_cold
  start_cold_applied cold_start manifest genesis pool g {u = u} {k = k} e q =
      let stays : ◌≡◌ {A = Reply (Unit {0}) × Inner} (done tt, g) (done u, k) =
        rw (start_cold, off (is_epochs cold_start)) at q in
      cc
    where
      off : (b : Bool) → not b && is_empty g ≡ false
      off true = refl
      off false = rw e refl

  check_diverged_listed :
      (manifest : Manifest) (o : Option ℕ) (p : Option Bytes) (last : ℕ) (local : Bytes) (g : Inner)
      {u : Unit {0}} {k : Inner}
      → o ≡ some last
      → p ≡ some local
      → check_diverged h manifest o p g ≡ (done u, k)
      → (entry : ManifestEpoch) × (epoch_entry manifest last ≡ some entry)
        × (entry.hash ≡ h.hex_encode local)
  unfolding check_diverged
  check_diverged_listed manifest o p last local g {u = u} {k = k} e f q =
      check_listed-eq-done (epoch_entry manifest last) (h.hex_encode local) g (
        subst (λ y. check_diverged h manifest (some last) y g ≡ (done u, k)) f
          (subst (λ x. check_diverged h manifest x p g ≡ (done u, k)) e q))

  -- a feed that continues what the mirror holds
  pub record IsContinued (pool chain_id : String) (last : ℕ) (local : Bytes) : Type 0 where
    pub genesis : Genesis
    pub manifest : Manifest
    pub entry : ManifestEpoch
    pub is_genesis : t.fetch_genesis ≡ done genesis
    pub is_manifest : t.fetch_manifest ≡ done manifest
    pub same_pool : pool ≡ genesis.pool
    pub same_chain : chain_id ≡ genesis.chain_id
    pub agree : manifest.chain_id ≡ genesis.chain_id
    pub listed : epoch_entry manifest last ≡ some entry
    pub same_hash : entry.hash ≡ h.hex_encode local

  -- A mirror with a pool, a chain and the hash of a last applied epoch on record is only continued
  -- from a feed whose genesis file names that pool and chain, whose manifest is about that chain and
  -- still lists that epoch with that hash.
  pub apply_feed_once-IsContinued :
      (cold_start : ColdStart) (g k : Inner) (o : ApplyOutcome) (pool chain_id : String) (last : ℕ)
      (local : Bytes)
      → meta_get "pool" g.meta ≡ some pool
      → meta_get "chain_id" g.meta ≡ some chain_id
      → and_then (meta_get "last_epoch_applied" g.meta) parse_u64 ≡ some last
      → stored_hash h (meta_get "last_epoch_hash" g.meta) ≡ done (some local)
      → apply_feed_once c h j t cold_start g ≡ (done o, k)
      → IsContinued pool chain_id last local
  unfolding apply_feed_once check_diverged
  apply_feed_once-IsContinued cold_start g k o pool chain_id last local e1 e2 e3 e4 q =
      after_answer _ _ g q λ genesis a1 q1. after_step _ _ g q1 λ _ g2 a2 q2.
        let (same_pool, s2) = pin_identity_kept genesis pool g e1 a2 in
        after_step _ _ g2 q2 λ _ g3 a3 q3.
          let (same_chain, s3) = check_pinned_chain_kept genesis chain_id g2 (rw s2 e2) a3 in
          after_answer _ _ g3 q3 λ manifest a4 q4. after_check _ _ _ g3 q4 λ a5 q5.
            after_answer _ _ g3 q5 λ felt a6 q6. after_step _ _ g3 q6 λ _ g7 a7 q7.
              after_look _ _ g7 q7 λ last' a8 q8. after_look _ _ g7 q8 λ local' a9 q9.
                after_step _ _ g7 q9 λ _ g10 a10 q10.
                  let back : g7 ≡ g =
                    start_cold_applied cold_start manifest genesis felt g3
                      (rw s3 (rw s2 (is_empty_applied g last e3))) a7
                    ∙ s3
                    ∙ s2 in
                  let (entry, listed, same_hash) =
                    check_diverged_listed manifest last' local' last local g7 (cc (a8, back, e3))
                      (cc (a9, back, e4)) a10 in
                  record {
                    genesis = genesis;
                    manifest = manifest;
                    entry = entry;
                    is_genesis = a1;
                    is_manifest = a4;
                    same_pool = same_pool;
                    same_chain = same_chain;
                    agree = (eq_iff manifest.chain_id genesis.chain_id).0 a5;
                    listed = listed;
                    same_hash = same_hash;
                  }
