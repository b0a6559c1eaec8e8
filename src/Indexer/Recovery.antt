-- ===== src/Indexer/Recovery.antt =====
-- crates/indexerd/src/recovery.rs but for `run_closure`, which is in Closure, and `RootMismatch` of
-- cutter.rs: the record of the divergence that has had its recovery attempt.
pub mod Marks
pub mod Named
pub mod Repeats
use Prim.Native.Char.{code}
use Prim.Native.String.{◌++◌ as str_append}
use strk20_indexer.Prelude.{
  ℕ, ◌-◌, Bool, true, false, not, Option, none, some, List, [], ◌∷◌, String, leb, ◌==◌, str_eq,
  if◌then◌else◌,
}
use strk20_indexer.Feed.Error.{Result, ok, err}
use strk20_indexer.Feed.Felt.{Felt, Crypto, felt_from_hex}
use strk20_indexer.Feed.Host.{Host}
use strk20_indexer.Feed.Decimal.{decimal}
use strk20_indexer.Feed.Hex.{felt_hex}
use strk20_indexer.Feed.Codec.Parse.{and_then}
use strk20_indexer.Consumer.Number.{parse_u64}
use strk20_indexer.Consumer.Reply.{Failure, bail, Reply, done, failed, with_value}
use strk20_indexer.Consumer.Mem.{number_or_zero}
use strk20_indexer.Consumer.Act.{Run, ◌>>=◌, ◌>>◌, give, look}
use strk20_indexer.Indexer.Store.{Store}

abbrev pub divergence_key : String
divergence_key = "recovery_divergence"

abbrev pub attempts_key : String
attempts_key = "recovery_attempts"

abbrev pub reason_key : String
reason_key = "recovery_reason"

abbrev pub logged_at_key : String
logged_at_key = "recovery_logged_at"

abbrev pub repeat_log_secs : ℕ
repeat_log_secs = 600

-- also `RootMismatch`, which `From` copies field by field
pub record Divergence : Type 0 where
  pub block : ℕ
  pub local_root : Felt
  pub chain_root : Felt

pub data Decision : Type 0 where
  attempt : Decision
  skip : (recorded : String) (same : Bool) → Decision

unfoldable pub fingerprint : Host → Divergence → String
fingerprint h d = str_append (decimal d.block) (
    String.◌∷◌ ":"
      (str_append (felt_hex h d.local_root) (String.◌∷◌ ":" (felt_hex h d.chain_root))))

-- a character in front of the first part
abbrev pub onto_first : (first : String → String) → List String → List String
onto_first first [] = []
onto_first first (p ∷ r) = first p ∷ r

-- `s.split(':')`
unfoldable pub split_colon : String → List String
split_colon String.[] = "" ∷ []
split_colon (String.◌∷◌ ch s) =
    let rest = split_colon s in if code ch == 58 then "" ∷ rest else onto_first (String.◌∷◌ ch) rest

abbrev ok_felt : Result Felt → Option Felt
ok_felt (ok f) = some f
ok_felt (err e) = none

parse_parts : Crypto → List String → Option Divergence
parse_parts c (b ∷ l ∷ r ∷ []) = and_then (parse_u64 b) λ block.
    and_then (ok_felt (felt_from_hex c l)) λ local_root.
      and_then (ok_felt (felt_from_hex c r)) λ chain_root.
        some (record { block = block; local_root = local_root; chain_root = chain_root })
parse_parts c _ = none

unfoldable pub parse_divergence : Crypto → String → Option Divergence
unfolding parse_parts
parse_divergence c s = parse_parts c (split_colon s)

-- `.filter(|s| !s.is_empty())`
abbrev pub not_empty : Option String → Option String
not_empty none = none
not_empty (some s) = if str_eq s "" then none else some s

abbrev pub decision_on : Option String → String → Decision
decision_on none mine = attempt
decision_on (some recorded) mine = skip recorded (str_eq recorded mine)

-- the last tick, if there is one, is `interval` seconds old
abbrev pub is_due : Option ℕ → (now interval : ℕ) → Bool
is_due none now interval = true
is_due (some t) now interval = leb interval (now - t)

module _ {Db : Type 0} (s : Store Db) where
  unfoldable pub recorded : Db → Reply (Option String)
  recorded db = with_value (s.read divergence_key db) λ o. done (not_empty o)

  unfoldable pub mismatch_block : Crypto → Db → Reply (Option ℕ)
  mismatch_block c db =
      with_value (recorded db)
        λ o. done (and_then (and_then o (parse_divergence c)) λ d. some d.block)

  unfoldable pub reason : Db → Reply (Option String)
  reason db = with_value (s.read reason_key db) λ o. done (not_empty o)

  unfoldable pub attempts : Db → Reply ℕ
  attempts db = with_value (s.read attempts_key db) λ o. done (number_or_zero o)

  unfoldable pub decide : Host → Divergence → Db → Reply Decision
  decide h d db = with_value (recorded db) λ o. done (decision_on o (fingerprint h d))

  unfoldable pub begin_attempt : Host → Divergence → Run Db (Unit {0})
  begin_attempt h d = do
    s.write divergence_key (fingerprint h d)
    s.write attempts_key "1"
    s.write reason_key (
        str_append "mismatch at "
          (str_append (decimal d.block) ", recovery in progress (storage-trie walk)"))
    s.write logged_at_key ""

  unfoldable pub record_outcome : Divergence → String → Run Db (Unit {0})
  record_outcome d detail = s.write reason_key (
      str_append "mismatch at " (
        str_append (decimal d.block) (
          str_append ", " (
            str_append detail
              ", operator repair required: enumerate-slots --attribute / rescan --blocks / recut-epochs"))))

  -- the loop of `clear`
  unfoldable pub empty_keys : List String → Run Db (Unit {0})
  empty_keys [] = give tt
  empty_keys (key ∷ r) = do s.write key ""; empty_keys r

  unfoldable pub clear : Run Db (Unit {0})
  clear = empty_keys (divergence_key ∷ attempts_key ∷ reason_key ∷ logged_at_key ∷ [])

  -- `if due`
  abbrev pub tick : ℕ → Bool → Run Db (Unit {0})
  tick now true = s.write logged_at_key (decimal now)
  tick now false = give tt

  unfoldable pub should_log_repeat : (now interval : ℕ) → Run Db Bool
  should_log_repeat now interval = do
    last ← look (s.read logged_at_key)
    tick now (is_due (and_then (not_empty last) parse_u64) now interval)
    give (is_due (and_then (not_empty last) parse_u64) now interval)

-- `normalize_hex` of ingest.rs
unfoldable pub normalize_hex : Crypto → Host → String → Reply String
normalize_hex c h t = elim (c.from_hex t) [
  | none ↦ failed (bail "bad felt")
  | some f ↦ done (felt_hex h f)
]

-- what the answer for the block of the recorded head says, against the recorded hash
abbrev pub reorg_of :
    Crypto → Host → (is_block_not_found : Failure → Bool) → String → Reply String → Reply Bool
reorg_of c h is_block_not_found stored (done hash) =
    with_value (normalize_hex c h hash) λ t. done (not (str_eq t stored))
reorg_of c h is_block_not_found stored (failed e) =
    if is_block_not_found e then done true else failed e

-- `get_block` answers with the hash of the block
abbrev pub reorg_at :
    Crypto
    → Host
    → (get_block : ℕ → Reply String) → (is_block_not_found : Failure → Bool) → Option ℕ
    → Option String
    → Reply Bool
reorg_at c h get_block is_block_not_found (some head) (some stored) =
    reorg_of c h is_block_not_found stored (get_block head)
reorg_at c h get_block is_block_not_found _ _ = done false

unfoldable pub reorg_in_flight :
    {Db : Type 0}
    → Store Db
    → Crypto
    → Host
    → (get_block : ℕ → Reply String) → (is_block_not_found : Failure → Bool) → Db
    → Reply Bool
reorg_in_flight s c h get_block is_block_not_found db = with_value (s.read "head_number" db) λ head.
    with_value (s.read "head_hash" db)
      λ stored. reorg_at c h get_block is_block_not_found (and_then head parse_u64) stored
