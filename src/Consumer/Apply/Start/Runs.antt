-- ===== src/Consumer/Apply/Start/Runs.antt =====
-- The fold of a feed writes to the mirror only by the store's calls, whether it succeeds or not.
use strk20_indexer.Prelude.{
  ℕ, ◌≡◌, refl, inl, inr, Bool, true, false, not, ◌&&◌, Option, none, some, List, [], ◌∷◌, String,
  Bool-cases,
}
use strk20_indexer.Feed.Felt.{Felt, Crypto}
use strk20_indexer.Feed.Host.{Bytes, Host, Json}
use strk20_indexer.Feed.Manifest.{Genesis, Manifest, ManifestEpoch, ManifestSnapshot, epoch_entry}
use strk20_indexer.Feed.Snapshot.{Snapshot}
use strk20_indexer.Consumer.Reply.{Reply, done, failed}
use strk20_indexer.Consumer.Mem.{Inner}
use strk20_indexer.Consumer.Mem.Mirror.{IsMirror}
use strk20_indexer.Consumer.Mem.Steps.{installed, replaced, Reachable, Reachable-IsMirror}
use strk20_indexer.Consumer.Mem.View.{is_empty}
use strk20_indexer.Consumer.Act.{check}
use strk20_indexer.Consumer.Act.Trace.{
  Trace, stay, step, Trace-append, Trace-Reachable, Calls, carry-Trace, bind-Calls, put_meta-Calls,
}
use strk20_indexer.Consumer.Apply.{Transport, Progress, apply_epoch, apply_epochs}
use strk20_indexer.Consumer.Apply.Epochs.{apply_epoch_lem}
use strk20_indexer.Consumer.Apply.Tail.{TailOutcome, apply_tail, kept_tail}
use strk20_indexer.Consumer.Apply.Floor.{apply_tail_lem}
use strk20_indexer.Consumer.Apply.Start.{
  ColdStart, auto, snapshot, epochs, is_epochs, pin_identity, check_pinned_chain, pin_stored,
  check_stored_chain, check_listed, snapshot_meta, with_tail, is_some_end, fold_snapshot,
  check_diverged, cold_start_from_snapshot, take_snapshot, start_cold, run_epochs, run_tail,
  apply_feed_once,
}

check-Calls : (test : Bool) (message : String) → Calls (check test message)
check-Calls true message = λ g. stay
check-Calls false message = λ g. stay

pin_stored-Calls : (genesis : Genesis) (o : Option String) → Calls (pin_stored genesis o)
pin_stored-Calls genesis none = bind-Calls _ _ (put_meta-Calls _ _) λ _.
    bind-Calls _ _ (put_meta-Calls _ _)
      λ _. bind-Calls _ _ (put_meta-Calls _ _) λ _. put_meta-Calls _ _
pin_stored-Calls genesis (some pool) = check-Calls _ _

check_stored_chain-Calls :
    (genesis : Genesis) (o : Option String) → Calls (check_stored_chain genesis o)
check_stored_chain-Calls genesis none = λ g. stay
check_stored_chain-Calls genesis (some chain_id) = check-Calls _ _

is_some_end-Calls : (end : Option ℕ) (block : ℕ) → Calls (is_some_end end block)
unfolding is_some_end
is_some_end-Calls none block = λ g. stay
is_some_end-Calls (some end) block = check-Calls _ _

check_listed-Calls : (o : Option ManifestEpoch) (local : String) → Calls (check_listed o local)
check_listed-Calls none local = λ g. stay
check_listed-Calls (some entry) local = check-Calls _ _

check_diverged-Calls :
    (h : Host) (manifest : Manifest) (last : Option ℕ) (local : Option Bytes)
    → Calls (check_diverged h manifest last local)
unfolding check_diverged
check_diverged-Calls h manifest none local = λ g. stay
check_diverged-Calls h manifest (some last) none = λ g. stay
check_diverged-Calls h manifest (some last) (some local) =
    check_listed-Calls (epoch_entry manifest last) (h.hex_encode local)

fold_snapshot-Calls : (snap : Snapshot) → Calls (fold_snapshot snap)
unfolding fold_snapshot
fold_snapshot-Calls snap = λ g. step stay (installed snap.slots (snapshot_meta snap.header))

module _ {Value : Type 0} (c : Crypto) (h : Host) (j : Json Value) (t : Transport) where
  cold_start_from_snapshot-Calls :
      (manifest : Manifest) (entry : ManifestSnapshot) (genesis : Genesis) (feed_pool : Felt)
      → Calls (cold_start_from_snapshot c h j t manifest entry genesis feed_pool)
  unfolding cold_start_from_snapshot
  cold_start_from_snapshot-Calls manifest entry genesis feed_pool =
      bind-Calls _ _ (λ g. stay)
        λ hash.
          bind-Calls _ _ (λ g. stay)
            λ compressed.
              bind-Calls _ _ (λ g. stay)
                λ snap.
                  bind-Calls _ _ (is_some_end-Calls _ _)
                    λ _. bind-Calls _ _ (fold_snapshot-Calls snap) λ _. λ g. stay

  take_snapshot-Calls :
      (o : Option ManifestSnapshot) (cold_start : ColdStart) (manifest : Manifest)
      (genesis : Genesis) (feed_pool : Felt)
      → Calls (take_snapshot c h j t o cold_start manifest genesis feed_pool)
  unfolding take_snapshot
  take_snapshot-Calls (some entry) cold_start manifest genesis feed_pool =
      bind-Calls _ _ (cold_start_from_snapshot-Calls manifest entry genesis feed_pool)
        λ _. λ g. stay
  take_snapshot-Calls none auto manifest genesis feed_pool = λ g. stay
  take_snapshot-Calls none snapshot manifest genesis feed_pool = λ g. stay
  take_snapshot-Calls none epochs manifest genesis feed_pool = λ g. stay

  start_cold-Calls :
      (cold_start : ColdStart) (manifest : Manifest) (genesis : Genesis) (feed_pool : Felt)
      → Calls (start_cold c h j t cold_start manifest genesis feed_pool)
  unfolding start_cold
  start_cold-Calls cold_start manifest genesis feed_pool = λ g.
      elim (Bool-cases (not (is_epochs cold_start) && is_empty g)) [
        | inl e ↦
            rw (start_cold, e)
              (take_snapshot-Calls manifest.snapshot cold_start manifest genesis feed_pool g)
        | inr e ↦ rw (start_cold, e) stay
      ]

  apply_epochs-Trace :
      (chain_id : String) (pool : Felt) (entries : List ManifestEpoch) (s : Progress)
      → Trace s.store (apply_epochs c h j t chain_id pool entries s).1.store
  unfolding apply_epochs
  apply_epochs-Trace chain_id pool [] s = stay
  apply_epochs-Trace chain_id pool (entry ∷ r) s =
      of (apply_epochs-Trace chain_id pool r) (apply_epoch c h j t chain_id pool entry s) refl
    where
      of :
          ((next : Progress) → Trace next.store (apply_epochs c h j t chain_id pool r next).1.store)
          → (x : Reply Progress) → apply_epoch c h j t chain_id pool entry s ≡ x
          → Trace s.store
              (elim x as (λ y. Reply (Unit {0}) × Progress) [
                | failed e ↦ (failed e, s)
                | done next ↦ apply_epochs c h j t chain_id pool r next
              ]).1.store
      of again (failed e) q = stay
      of again (done next) q = elim (apply_epoch_lem c h j t chain_id pool entry s next q) [
        | inl (_, e) ↦ rw e (again s)
        | inr (_, f) ↦ Trace-append (step stay (replaced _ _ _ _ f.replaced)) (again next)
      ]

  run_epochs-Calls :
      (chain_id : String) (pool : Felt) (entries : List ManifestEpoch) (last : Option ℕ)
      (prev : Option Bytes)
      → Calls (run_epochs c h j t chain_id pool entries last prev)
  unfolding run_epochs
  run_epochs-Calls chain_id pool entries last prev =
      λ g. carry-Trace g _ _ (apply_epochs-Trace chain_id pool entries _) (λ _ k. stay)

  with_tail-Trace :
      (g : Inner) (rewound : Bool) (r : Reply TailOutcome)
      → apply_tail c h j t g rewound ≡ r
      → Trace g (with_tail c h j t g r).1
  unfolding kept_tail
  with_tail-Trace g rewound (failed e) q = stay
  with_tail-Trace g rewound (done o) q = elim (apply_tail_lem c h j t g rewound o q) [
    | inl e ↦ rw e.store stay
    | inr (bytes, etag, head, _, _, _, f) ↦ step stay (replaced _ _ _ _ f.replaced)
  ]

  run_tail-Calls : (rewound : Bool) → Calls (run_tail c h j t rewound)
  unfolding run_tail
  run_tail-Calls rewound = λ g. with_tail-Trace g rewound _ refl

  apply_feed_once-Calls : (cold_start : ColdStart) → Calls (apply_feed_once c h j t cold_start)
  unfolding apply_feed_once pin_identity check_pinned_chain
  apply_feed_once-Calls cold_start =
      bind-Calls _ _ (λ g. stay)
        λ genesis. bind-Calls _ _ (bind-Calls _ _ (λ g. stay) (pin_stored-Calls genesis)) λ _.
          bind-Calls _ _ (bind-Calls _ _ (λ g. stay) (check_stored_chain-Calls genesis)) λ _.
            bind-Calls _ _ (λ g. stay)
              λ manifest. bind-Calls _ _ (check-Calls _ _) λ _.
                bind-Calls _ _ (λ g. stay)
                  λ pool. bind-Calls _ _ (start_cold-Calls cold_start manifest genesis pool) λ _.
                    bind-Calls _ _ (λ g. stay)
                      λ last.
                        bind-Calls _ _ (λ g. stay)
                          λ prev. bind-Calls _ _ (check_diverged-Calls h manifest last prev) λ _.
                            bind-Calls _ _ (run_epochs-Calls _ pool _ last prev) λ s.
                              bind-Calls _ _ (λ g. stay)
                                λ floor. bind-Calls _ _ (run_tail-Calls _) λ o.
                                  bind-Calls _ _ (λ g. stay)
                                    λ basis. bind-Calls _ _ (λ g. stay) λ history. λ g. stay

  -- Whatever the feed serves, and whether the fold of it ends well or in an error at any of its
  -- stages, a mirror that calls of the store reach from an empty one is left as such a mirror, so its
  -- rows stand in order and none is above the recorded highest block.
  pub apply_feed_once-IsMirror :
      (cold_start : ColdStart) (g : Inner)
      → Reachable g
      → Reachable (apply_feed_once c h j t cold_start g).1
        × IsMirror (apply_feed_once c h j t cold_start g).1
  apply_feed_once-IsMirror cold_start g r =
      let reached = Trace-Reachable r (apply_feed_once-Calls cold_start g) in
      (reached, Reachable-IsMirror _ reached)
