-- ===== src/Indexer/Store.antt =====
-- What the indexer asks of the `meta` table of its database, crates/indexerd/src/db.rs.
use strk20_indexer.Prelude.{◌≡◌, Option, String}
use strk20_indexer.Map.{Meta, meta_get, meta_insert}
use strk20_indexer.Consumer.Reply.{Failure, Reply, done, failed}

pub record Store (Db : Type 0) : Type 0 where
  pub read : String → Db → Reply (Option String)
  pub write : String → String → Db → Reply (Unit {0}) × Db

-- `contents` is the table. A statement can fail, and then the table is as it was.
pub record IsStore {Db : Type 0} (s : Store Db) (contents : Db → Meta) : Type 0 where
  pub finds :
      (key : String) (o : Option String) (db : Db)
      → s.read key db ≡ done o
      → o ≡ meta_get key (contents db)
  pub writes :
      (key value : String) (db next : Db)
      → s.write key value db ≡ (done tt, next)
      → contents next ≡ meta_insert key value (contents db)
  pub keeps :
      (key value : String) (e : Failure) (db next : Db)
      → s.write key value db ≡ (failed e, next)
      → contents next ≡ contents db
