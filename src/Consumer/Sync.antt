-- ===== src/Consumer/Sync.antt =====
-- crates/consumer/src/sync.rs but for the passes of the discovery engine: the chain check, the reset and
-- the registry's upkeep, and the sync that verifies before it discovers.
pub mod Trusted
pub mod Pruned
use Prim.Native.String.{◌++◌ as str_append}
use strk20_indexer.Prelude.{
  ℕ, ◌+◌, Bool, true, false, not, ◌&&◌, ◌||◌, Option, none, some, List, [], ◌∷◌, ◌++◌, String, ◌==◌,
  str_eq, if◌then◌else◌,
}
use strk20_indexer.Feed.Felt.{Felt, Crypto}
use strk20_indexer.Feed.Host.{Bytes, Host, Json}
use strk20_indexer.Feed.Hex.{felt_hex}
use strk20_indexer.Feed.Checkpoint.{TrustedCheckpoint, ProofResult}
use strk20_indexer.Map.{meta_get}
use strk20_indexer.Consumer.Reply.{Failure, Reply, done, requiring, with_value}
use strk20_indexer.Consumer.Mem.{NoteRow, Inner, read_slot_as_of}
use strk20_indexer.Consumer.Mem.Notes.{notes_of, set_note_spent, delete_note, delete_owner_notes}
use strk20_indexer.Consumer.State.{set_meta}
use strk20_indexer.Consumer.Act.{Act, ◌>>=◌, ◌>>◌, give, stop, answer, read_meta, check}
use strk20_indexer.Consumer.Apply.{Transport}
use strk20_indexer.Consumer.Apply.Start.{ColdStart, ApplyOutcome, apply_feed_once}
use strk20_indexer.Consumer.Anchors.{
  ProofSource, Grounding, anchored, unavailable, ground_mirror_against_rpc,
}

unfoldable pub check_chain_id : Transport → String → Reply (Unit {0})
check_chain_id t expected = with_value t.fetch_genesis λ genesis.
    with_value t.fetch_manifest λ manifest.
      requiring (str_eq genesis.chain_id expected) "feed genesis chain id"
        (requiring (str_eq manifest.chain_id expected) "feed manifest chain id" (done tt))

-- a turn of the loop of `full_resync`
reset_cursors : String → String → Inner → Inner
reset_cursors kind a g = set_meta (str_append "ckpt_at_" (str_append kind (str_append "_" a))) "" (
    set_meta (str_append "ckpt_" (str_append kind (str_append "_" a))) ""
      (set_meta (str_append "cur_" (str_append kind (str_append "_" a))) "" g))

unfoldable pub full_resync : Host → Felt → Inner → Inner
unfolding reset_cursors
full_resync h owner g =
    let a = felt_hex h owner in
    let reset = reset_cursors "out" a (reset_cursors "in" a g) in
    let stamped = set_meta (str_append "sdk_" (str_append a "_stamp")) "" reset in
    (delete_owner_notes owner (set_meta (str_append "sdk_" (str_append a "_block")) "0" stamped)).1

-- `slot` is `storage_slots::nullifiers`; the nullifiers that flipped come with the store
module _ (slot : Felt → Felt) (block : ℕ) where
  unfoldable pub refresh_notes : List NoteRow → List Felt → Inner → List Felt × Inner
  refresh_notes [] flipped g = (flipped, g)
  refresh_notes (n ∷ r) flipped g =
      let is_spent = not ((read_slot_as_of g (slot n.nullifier) block).0 == 0) in
      let same = (is_spent && n.spent) || (not is_spent && not n.spent) in
      let kept = refresh_notes r flipped g in
      let moved =
        refresh_notes r (if is_spent then flipped ++ n.nullifier ∷ [] else flipped)
          (set_note_spent n.note_id is_spent g) in
      if same then kept else moved

  unfoldable pub refresh_spent : Felt → Inner → List Felt × Inner
  refresh_spent owner g = refresh_notes (notes_of owner g) [] g

-- `slot` is `storage_slots::notes`
module _ (slot : Felt → Felt) (as_of : ℕ) where
  unfoldable pub is_missing : Inner → NoteRow → Bool
  is_missing g n = (read_slot_as_of g (slot n.note_id) as_of).0 == 0

  unfoldable pub prune_notes : List NoteRow → ℕ → Inner → ℕ × Inner
  prune_notes [] pruned g = (pruned, g)
  prune_notes (n ∷ r) pruned g =
      let kept = prune_notes r pruned g in
      let dropped = prune_notes r (pruned + 1) (delete_note n.note_id g) in
      if is_missing g n then dropped else kept

  unfoldable pub prune_missing_notes : Felt → Inner → ℕ × Inner
  prune_missing_notes owner g = prune_notes (notes_of owner g) 0 g

pub record SyncOptions : Type 0 where
  pub cold_start : ColdStart
  pub anchor_proofs : Option ProofSource

-- `== Some("1")`
abbrev pub is_failed : Option String → Bool
is_failed none = false
is_failed (some s) = str_eq s "1"

abbrev pub verdict : Grounding → Act String
verdict (anchored block) = give "rpc-verified"
verdict (unavailable reason) = stop (str_append "CHECKPOINT_UNAVAILABLE: " reason)

-- `discover` is `discover_state`, which runs the engine
module _ {Value : Type 0} (c : Crypto) (h : Host) (j : Json Value) (t : Transport)
    (message to_string : Failure → String) (to_text : TrustedCheckpoint → String)
    (from_value : Value → Option ProofResult) {Report : Type 0}
    (discover : ApplyOutcome → String → Act Report) where
  abbrev pub ground_if : Option ProofSource → ℕ → Act String
  ground_if none head = give "server-asserted"
  ground_if (some proofs) head =
      ground_mirror_against_rpc message to_string to_text c j from_value proofs head >>= verdict

  unfoldable pub sync_once : SyncOptions → Act Report
  sync_once opts = do
    outcome ← apply_feed_once c h j t opts.cold_start
    verified ← ground_if opts.anchor_proofs outcome.head
    mark ← read_meta "verification_failed"
    check (not (is_failed mark)) "CHECKPOINT_FAILED"
    discover outcome verified
