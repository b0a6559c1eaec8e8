-- ===== src/Indexer/Closure.antt =====
-- `run_closure` of crates/indexerd/src/recovery.rs, over the trie walk and the ingest. The heartbeat,
-- the clock and what it logs are left out.
use strk20_indexer.Prelude.{ℕ, ◌≡◌, refl, List, [], ◌∷◌, map, length}
use strk20_indexer.Feed.Felt.{Felt}
use strk20_indexer.Map.{Meta}
use strk20_indexer.Consumer.Reply.{Reply, done}
use strk20_indexer.Consumer.Act.{Run, ◌>>=◌, give, look}
use strk20_indexer.Indexer.Store.{Store, IsStore}
use strk20_indexer.Indexer.Recovery.{Divergence}
use strk20_indexer.Indexer.Recovery.Marks.{mark, bind-Spares}

-- what `enumerate_missing_slots` answers
pub record Diff : Type 0 where
  pub missing : List (Felt × Felt)
  pub divergent : ℕ
  pub extra : ℕ
  pub proof_calls : ℕ

pub record RecoveryReport : Type 0 where
  pub missing_slots : ℕ
  pub divergent_slots : ℕ
  pub extra_slots : ℕ
  pub proof_calls : ℕ
  pub blocks : List ℕ
  pub reingested : ℕ

-- the walk and the attribution only read
pub record Walk (Db : Type 0) : Type 0 where
  pub enumerate_missing_slots : ℕ → Db → Reply Diff
  pub attribute_to_blocks : List Felt → (genesis_block block : ℕ) → Db → Reply (List ℕ)
  pub reingest_blocks : List ℕ → Run Db ℕ

module _ {Db : Type 0} (w : Walk Db) (genesis_block : ℕ) (d : Divergence) where
  abbrev pub blocks_of : List (Felt × Felt) → Db → Reply (List ℕ)
  blocks_of [] db = done []
  blocks_of (x ∷ r) db = w.attribute_to_blocks (map (λ e. e.0) (x ∷ r)) genesis_block d.block db

  abbrev pub reingest : List ℕ → Run Db ℕ
  reingest [] = give 0
  reingest (b ∷ r) = w.reingest_blocks (b ∷ r)

  unfoldable pub run_closure : Run Db RecoveryReport
  run_closure = do
    diff ← look (w.enumerate_missing_slots d.block)
    blocks ← look (blocks_of diff.missing)
    reingested ← reingest blocks
    give (record {
      missing_slots = length diff.missing;
      divergent_slots = diff.divergent;
      extra_slots = diff.extra;
      proof_calls = diff.proof_calls;
      blocks = blocks;
      reingested = reingested;
    })

-- The closure loop leaves the divergence on record as it is if the ingest of blocks does.
pub run_closure-mark :
    {Db : Type 0} (s : Store Db) (contents : Db → Meta) (law : IsStore s contents) (w : Walk Db)
    (genesis_block : ℕ) (d : Divergence)
    → ((bs : List ℕ) (db : Db) → mark contents (w.reingest_blocks bs db).1 ≡ mark contents db)
    → (db : Db) → mark contents (run_closure w genesis_block d db).1 ≡ mark contents db
unfolding run_closure
run_closure-mark {Db} s contents law w genesis_block d keeps =
    bind-Spares s contents law _ _ (λ _. refl)
      λ diff.
        bind-Spares s contents law _ _ (λ _. refl)
          λ blocks. bind-Spares s contents law _ _ (at blocks) (λ _ _. refl)
  where
    at :
        (blocks : List ℕ) (db : Db)
        → mark contents (reingest w genesis_block d blocks db).1 ≡ mark contents db
    at [] db = refl
    at (b ∷ r) db = keeps (b ∷ r) db
