-- ===== src/Consumer/Anchors.antt =====
-- crates/consumer/src/anchors.rs but for `verify_state`, which is in State: the comparison with the
-- published anchors, and the check against a proof source of the user's own.
pub mod Matched
pub mod Proved
use Prim.Native.Char.{code}
use strk20_indexer.Prelude.{
  ℕ, ◌+◌, Bool, true, false, not, ◌&&◌, ◌||◌, Option, none, some, List, [], ◌∷◌, ◌++◌, String,
  length, ltb, ◌==◌, if◌then◌else◌,
}
use strk20_indexer.Feed.Error.{Result, ok, err}
use strk20_indexer.Feed.Felt.{Felt, Crypto}
use strk20_indexer.Feed.Host.{Bytes, Host, Json}
use strk20_indexer.Feed.Mpt.{storage_root}
use strk20_indexer.Feed.Checkpoint.{TrustedCheckpoint, ProofResult, verify_checkpoint}
use strk20_indexer.Feed.Anchors.{AnchorRecord, parse_anchors, is_nil}
use strk20_indexer.Map.{meta_get}
use strk20_indexer.Consumer.Reply.{
  Failure, bail, feed, panicked, Reply, done, failed, from_feed, with_value,
}
use strk20_indexer.Consumer.Mem.{Inner, number_or_zero}
use strk20_indexer.Consumer.Mem.View.{block_hash, full_slot_set_as_of}
use strk20_indexer.Consumer.State.{verify_state}
use strk20_indexer.Consumer.Act.{Act, ◌>>=◌, ◌>>◌, give, look, answer}

-- an entry of `problems`
pub data Problem : Type 0 where
  storage_root_differs : (block : ℕ) (local published : Felt) → Problem
  block_hash_differs : (block : ℕ) (stored published : Felt) → Problem

pub record Tally : Type 0 where
  pub problems : List Problem
  pub checked : ℕ
  pub pending : ℕ

-- `status`
pub data Status : Type 0 where
  mismatch verified no_anchors_published empty_anchor_log all_anchors_above_head : Status

pub record AnchorReport : Type 0 where
  pub all_ok : Bool
  pub status : Status
  pub published : ℕ
  pub tally : Tally
  pub head : ℕ

module _ (c : Crypto) (g : Inner) (head basis : ℕ) where
  unfoldable pub root_problems : AnchorRecord → List Problem
  root_problems a =
      let local = storage_root c (full_slot_set_as_of a.block g) in
      if local == a.storage_root then [] else storage_root_differs a.block local a.storage_root ∷ []

  abbrev pub hash_problem : Option Felt → AnchorRecord → List Problem
  hash_problem none a = []
  hash_problem (some stored) a =
      if stored == a.block_hash then [] else block_hash_differs a.block stored a.block_hash ∷ []

  unfoldable pub hash_problems : AnchorRecord → List Problem
  hash_problems a = hash_problem (block_hash a.block g) a

  -- one turn of the loop
  unfoldable pub count_anchor : AnchorRecord → Tally → Tally
  count_anchor a t =
      if ltb head a.block
      then record t { pending = t.pending + 1 }
      else if ltb a.block basis
      then t
      else record t {
        problems = t.problems ++ (root_problems a ++ hash_problems a);
        checked = t.checked + 1;
      }

  unfoldable pub count_anchors : List AnchorRecord → Tally → Tally
  count_anchors [] t = t
  count_anchors (a ∷ r) t = count_anchors r (count_anchor a t)

unfoldable pub status_of : Tally → Option (List AnchorRecord) → Status
status_of t published =
    if not (is_nil t.problems)
    then mismatch
    else if ltb 0 t.checked
    then verified
    else elim published [
      | none ↦ no_anchors_published
      | some [] ↦ empty_anchor_log
      | some (a ∷ r) ↦ all_anchors_above_head
    ]

-- `parse_anchors` of what the feed publishes, if it publishes anything
abbrev pub published_of : Option (List AnchorRecord) → List AnchorRecord
published_of none = []
published_of (some xs) = xs

unfoldable pub report_of : Crypto → Option (List AnchorRecord) → Inner → AnchorReport
report_of c published g =
    let head = number_or_zero (meta_get "head_number" g.meta) in
    let basis = number_or_zero (meta_get "snapshot_basis" g.meta) in
    let t =
      count_anchors c g head basis (published_of published)
        (record { problems = []; checked = 0; pending = 0 }) in
    record {
      all_ok = is_nil t.problems && ltb 0 t.checked;
      status = status_of t published;
      published = length (published_of published);
      tally = t;
      head = head;
    }

module _ {Value : Type 0} (c : Crypto) (h : Host) (j : Json Value) where
  abbrev pub parse_fetched : Option Bytes → Reply (Option (List AnchorRecord))
  parse_fetched none = done none
  parse_fetched (some payload) =
      with_value (from_feed (parse_anchors c h j payload)) λ xs. done (some xs)

  -- `fetched` is the answer of `fetch_anchors`
  unfoldable pub verify_anchors : Reply (Option Bytes) → Act AnchorReport
  verify_anchors fetched = do
    bytes ← answer fetched
    published ← answer (parse_fetched bytes)
    look (λ g. done (report_of c published g))

-- `ProofSource`
pub record ProofSource : Type 0 where
  pub checkpoint : Felt → ℕ → Reply TrustedCheckpoint
  -- the text of the JSON value
  pub storage_proof : Felt → ℕ → Reply Bytes

pub data Grounding : Type 0 where
  anchored : (block : ℕ) → Grounding
  unavailable : (reason : String) → Grounding

-- `str::starts_with` and `str::contains`
unfoldable pub begins : String → String → Bool
begins String.[] s = true
begins (String.◌∷◌ x p) String.[] = false
begins (String.◌∷◌ x p) (String.◌∷◌ y s) = code x == code y && begins p s

unfoldable pub contains_text : String → String → Bool
unfolding begins
contains_text p String.[] = begins p ""
contains_text p (String.◌∷◌ y s) = begins p (String.◌∷◌ y s) || contains_text p s

unfoldable pub contains_any : List String → String → Bool
contains_any [] s = false
contains_any (p ∷ r) s = contains_text p s || contains_any r s

abbrev pub unavailable_texts : List String
unavailable_texts =
    "CHECKPOINT_UNAVAILABLE" ∷ "PROOF_NOT_STAGED" ∷ "too far in the past" ∷ "\"code\":42"
    ∷ "\"code\": 42" ∷ "-32601" ∷ "Method not found" ∷ "method not found" ∷ "Block not found"
    ∷ "\"code\":24" ∷ "\"code\": 24" ∷ []

-- the walk of a proof ends in every case, so there is an answer
abbrev pub of_walk : {A : Type 0} → Option (Result A) → Reply A
of_walk none = failed panicked
of_walk (some r) = from_feed r

-- `Felt::from_hex` of the recorded pool
unfoldable pub recorded_pool : Crypto → Inner → Reply Felt
recorded_pool c g = elim (meta_get "pool" g.meta) [
  | none ↦ failed (bail "missing pool")
  | some s ↦ elim (c.from_hex s) [ none ↦ failed (bail "felt") | some f ↦ done f ]
]

-- the text of an error: `{e:#}`, which is `message`, and `to_string`
module _ (message to_string : Failure → String) where
  unfoldable pub is_proof_unavailable : Failure → Bool
  is_proof_unavailable e = contains_any unavailable_texts (message e)

  -- an answer, or the reason for which the endpoint has none
  abbrev pub or_unavailable : {A : Type 0} → Reply A → (A → Act Grounding) → Act Grounding
  or_unavailable (done a) rest = rest a
  or_unavailable (failed e) rest =
      if is_proof_unavailable e then give (unavailable (to_string e)) else answer (failed e)

module _ (message to_string : Failure → String) {Value : Type 0}
    (to_text : TrustedCheckpoint → String) (c : Crypto) (j : Json Value)
    (from_value : Value → Option ProofResult) (proofs : ProofSource) where
  unfoldable pub ground_on : TrustedCheckpoint → Bytes → Act Grounding
  ground_on checkpoint proof = do
    root ← answer (of_walk (verify_checkpoint c j from_value checkpoint proof))
    verify_state to_text c checkpoint root
    give (anchored checkpoint.block_number)

  unfoldable pub ground_mirror_against_rpc : ℕ → Act Grounding
  ground_mirror_against_rpc head = do
    pool ← look (recorded_pool c)
    or_unavailable message to_string (proofs.checkpoint pool head) λ checkpoint.
        or_unavailable message to_string (proofs.storage_proof pool checkpoint.block_number)
          λ proof. ground_on checkpoint proof
