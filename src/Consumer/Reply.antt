-- ===== src/Consumer/Reply.antt =====
-- `anyhow::Result` in crates/consumer and crates/indexerd: a message of its own, or an error of the feed crate. Of a
-- message the constant start is kept.
use strk20_indexer.Prelude.{String, ◌≡◌, refl, Bool, true, false}
use strk20_indexer.Feed.Error.{FeedError, Result, ok, err}

pub data Failure : Type 0 where
  bail : String → Failure
  feed : FeedError → Failure
  -- the call stops the process
  panicked : Failure

pub data Reply (A : Type 0) : Type 0 where
  done : A → Reply A
  failed : Failure → Reply A

-- `?` on an error of the feed crate
abbrev pub from_feed : {A : Type 0} → Result A → Reply A
from_feed (ok a) = done a
from_feed (err e) = failed (feed e)

-- `anyhow::ensure!(test, message)` in front of what follows
abbrev pub requiring : {A : Type 0} → Bool → String → Reply A → Reply A
requiring false message rest = failed (bail message)
requiring true message rest = rest

-- `?`
abbrev pub with_value : {A B : Type 0} → Reply A → (A → Reply B) → Reply B
with_value (failed e) rest = failed e
with_value (done a) rest = rest a

pub requiring-eq-done :
    {A : Type 0} (test : Bool) (message : String) (rest : Reply A) {a : A}
    → requiring test message rest ≡ done a
    → (test ≡ true) × (rest ≡ done a)
requiring-eq-done false message rest q = absurd (cc)
requiring-eq-done true message rest q = (refl, q)

pub with_value-eq-done :
    {A B : Type 0} (m : Reply A) (rest : A → Reply B) {b : B}
    → with_value m rest ≡ done b
    → (a : A) × (m ≡ done a) × (rest a ≡ done b)
with_value-eq-done (failed e) rest q = absurd (cc)
with_value-eq-done (done a) rest q = (a, refl, q)
