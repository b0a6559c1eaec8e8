-- ===== src/Consumer/Mem.antt =====
-- crates/consumer/src/mem.rs and the types of store.rs: the mirror in memory.
--
-- The trie that caches the storage root is left out. A `Mutex` makes every call atomic, so a call
-- is a function of the state.
pub mod Order
pub mod Reads
pub mod Rows
pub mod Mirror
pub mod Replace
pub mod Generation
pub mod Steps
pub mod Notes
pub mod Registry
pub mod View
use strk20_indexer.Prelude.{
  ℕ, zero, suc, ◌+◌, ◌%◌, min, max, Bool, true, false, not, ◌&&◌, ◌||◌, Option, none, some, List,
  [], ◌∷◌, ◌++◌, map, keep, String, length, ltb, leb, ◌==◌, if◌then◌else◌,
}
use strk20_indexer.Feed.Felt.{Felt}
use strk20_indexer.Feed.Decimal.{decimal}
use strk20_indexer.Feed.Codec.{BlockLine, EventLine}
use strk20_indexer.Feed.Codec.Parse.{and_then}
use strk20_indexer.Feed.Snapshot.{SnapSlot}
use strk20_indexer.Consumer.Number.{u64_max, parse_u64}
use strk20_indexer.Map.{insert, get, last, Meta, meta_get, meta_insert, meta_remove}

pub record NoteRow : Type 0 where
  pub note_id : Felt
  pub owner : Felt
  pub sender : Felt
  pub token : Felt
  pub index : ℕ
  pub nullifier : Felt
  pub amount : ℕ
  pub block : ℕ
  pub spent : Bool

pub data Range : Type 0 where
  inclusive : (from to : ℕ) → Range
  above : (floor : ℕ) → Range

unfoldable pub contains : Range → ℕ → Bool
contains (inclusive from to) block = leb from block && leb block to
contains (above floor) block = ltb floor block

-- `a.saturating_add(b)` on u64
unfoldable pub saturating_add : ℕ → ℕ → ℕ
saturating_add a b = min (a + b) u64_max

unfoldable pub bounds : Range → ℕ × ℕ
unfolding saturating_add
bounds (inclusive from to) = (from, to)
bounds (above floor) = (saturating_add floor 1, u64_max)

pub record BlockRec : Type 0 where
  pub hash : Felt
  pub parent : Felt
  pub timestamp : ℕ
  pub l1_final : Bool

pub record EventRec : Type 0 where
  pub tx_index : ℕ
  pub tx_hash : Felt
  pub keys : List Felt
  pub payload : List Felt

-- pairs compare by their first part, then by their second
unfoldable pub pair_lt : ℕ × ℕ → ℕ × ℕ → Bool
pair_lt a b = ltb a.0 b.0 || ((a.0 == b.0) && ltb a.1 b.1)

abbrev pub Storage : Type 0
Storage = List ((Felt × ℕ) × Felt)

pub record Inner : Type 0 where
  pub meta : Meta
  pub blocks : List (ℕ × BlockRec)
  pub storage : Storage
  pub storage_max_block : ℕ
  pub events : List ((ℕ × ℕ) × EventRec)
  pub notes : List (Felt × NoteRow)

-- `.range(lo..=hi)` of a map whose keys are pairs
unfoldable pub pair_range : {V : Type 0} → ℕ × ℕ → ℕ × ℕ → List ((ℕ × ℕ) × V) → List ((ℕ × ℕ) × V)
unfolding pair_lt
pair_range lo hi = keep (λ e. not (pair_lt e.0 lo) && not (pair_lt hi e.0))

unfoldable pub latest : Option ((Felt × ℕ) × Felt) → Felt × ℕ
latest none = (0, 0)
latest (some ((s, b), v)) = (v, b)

unfoldable pub read_slot_as_of : Inner → Felt → ℕ → Felt × ℕ
unfolding pair_range latest
read_slot_as_of g slot bound = latest (last (pair_range (slot, 0) (slot, bound) g.storage))

-- neighbours that are equal collapse
unfoldable pub dedup : List Felt → List Felt
dedup [] = []
dedup (a ∷ []) = a ∷ []
dedup (a ∷ b ∷ r) = let rest = dedup (b ∷ r) in if a == b then rest else a ∷ rest

unfoldable pub slots : Inner → List Felt
unfolding dedup
slots g = dedup (map (λ e. e.0.0) g.storage)

-- what is left in the three maps
unfoldable pub cleared : Range → ℕ → ℕ → Inner → Inner
unfolding contains pair_lt
cleared range lo hi g = record g {
  blocks = keep (λ e. not (leb lo e.0 && leb e.0 hi)) g.blocks;
  events = keep (λ e. pair_lt e.0 (lo, 0) || pair_lt (hi, u64_max) e.0) g.events;
  storage =
      if leb lo g.storage_max_block
      then keep (λ e. not (contains range e.0.1)) g.storage
      else g.storage;
}

-- `none` is the panic of `BTreeMap::range` on bounds that are out of order
unfoldable pub clear_range : Range → Inner → Option Inner
unfolding bounds cleared
clear_range range g =
    let lo = (bounds range).0 in
    let hi = (bounds range).1 in if leb lo hi then some (cleared range lo hi g) else none

unfoldable pub insert_diffs : ℕ → List (Felt × Felt) → Storage → Storage
unfolding pair_lt
insert_diffs number [] st = st
insert_diffs number (d ∷ r) st = insert_diffs number r (insert pair_lt (d.0, number) d.1 st)

unfoldable pub insert_events :
    ℕ → List EventLine → List ((ℕ × ℕ) × EventRec) → List ((ℕ × ℕ) × EventRec)
unfolding pair_lt
insert_events number [] m = m
insert_events number (e ∷ r) m = insert_events number r (
    insert pair_lt (number, e.event_index)
      (record { tx_index = e.tx_index; tx_hash = e.tx_hash; keys = e.keys; payload = e.payload }) m)

is_nil : {A : Type 0} → List A → Bool
is_nil [] = true
is_nil (a ∷ r) = false

unfoldable pub apply_block_line : BlockLine → Bool → Inner → Inner
unfolding insert_diffs insert_events is_nil
apply_block_line b l1_final g = record g {
  blocks =
      insert ltb b.number
        (record { hash = b.hash; parent = b.parent; timestamp = b.timestamp; l1_final = l1_final })
        g.blocks;
  storage = insert_diffs b.number b.diffs g.storage;
  storage_max_block =
      if is_nil b.diffs then g.storage_max_block else max g.storage_max_block b.number;
  events = insert_events b.number b.events g.events;
}

unfoldable pub apply_blocks : List (BlockLine × Bool) → Inner → Inner
unfolding apply_block_line
apply_blocks [] g = g
apply_blocks (x ∷ r) g = apply_blocks r (apply_block_line x.0 x.1 g)

unfoldable pub insert_all : List (String × String) → Meta → Meta
insert_all [] m = m
insert_all (x ∷ r) m = insert_all r (meta_insert x.0 x.1 m)

-- `.and_then(|s| s.parse().ok()).unwrap_or(0)`
unfoldable pub number_or_zero : Option String → ℕ
number_or_zero o = elim (and_then o parse_u64) [ none ↦ 0 | some n ↦ n ]

unfoldable pub tail_generation : Inner → ℕ
unfolding number_or_zero
tail_generation g = number_or_zero (meta_get "tail_generation" g.meta)

-- a release build wraps around
unfoldable pub bump : Inner → Inner
unfolding tail_generation
bump g = record g {
  meta = meta_insert "tail_generation" (decimal ((tail_generation g + 1) % (u64_max + 1))) g.meta;
}

-- what follows on the clearing
unfoldable pub refill : List (BlockLine × Bool) → List (String × String) → Bool → Inner → Inner
unfolding apply_blocks insert_all bump
refill blocks meta bump_generation g =
    let filled = apply_blocks blocks g in
    let set = record filled { meta = insert_all meta filled.meta } in
    if bump_generation then bump set else set

unfoldable pub replace_range :
    Range → List (BlockLine × Bool) → List (String × String) → Bool → Inner → Option Inner
unfolding clear_range refill
replace_range range blocks meta bump_generation g = elim (clear_range range g) [
  | none ↦ none
  | some h ↦ some (refill blocks meta bump_generation h)
]

unfoldable pub install_slots : List SnapSlot → Inner → Inner
unfolding pair_lt
install_slots [] g = g
install_slots (s ∷ r) g = install_slots r (record g {
  storage = insert pair_lt (s.k, s.w) s.v g.storage;
  storage_max_block = max g.storage_max_block s.w;
})

unfoldable pub install_snapshot : List SnapSlot → List (String × String) → Inner → Inner
unfolding install_slots insert_all
install_snapshot slots meta g =
    let h = install_slots slots g in record h { meta = insert_all meta h.meta }

-- the keys that `reset_mirror` removes
abbrev pub sync_keys : List String
sync_keys =
    "last_epoch_applied" ∷ "last_epoch_hash" ∷ "last_epoch_to" ∷ "head_etag" ∷ "head_number"
    ∷ "head_hash" ∷ "l1_accepted" ∷ "snapshot_basis" ∷ "history_floor"
    ∷ "snapshot_pending_grounding" ∷ []

unfoldable pub remove_all : List String → Meta → Meta
remove_all [] m = m
remove_all (k ∷ r) m = remove_all r (meta_remove k m)

unfoldable pub reset_mirror : Inner → Inner
unfolding remove_all
reset_mirror g = record {
  meta = remove_all sync_keys g.meta;
  blocks = [];
  storage = [];
  storage_max_block = 0;
  events = [];
  notes = [];
}
