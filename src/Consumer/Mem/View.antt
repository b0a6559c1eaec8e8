-- ===== src/Consumer/Mem/View.antt =====
-- The reads of crates/consumer/src/mem.rs, and the view that is bound to one block.
use strk20_indexer.Prelude.{
  ℕ, min, Bool, true, false, ◌&&◌, ◌||◌, Option, none, some, List, [], ◌∷◌, map, keep, ltb, leb,
  ◌==◌, if◌then◌else◌,
}
use strk20_indexer.Feed.Felt.{Felt}
use strk20_indexer.Feed.Codec.Parse.{is_some}
use strk20_indexer.Consumer.Number.{u64_max}
use strk20_indexer.Map.{get, meta_get}
use strk20_indexer.Consumer.Mem.{
  Inner, Range, EventRec, bounds, pair_range, pair_lt, read_slot_as_of, slots,
}

no_rows : {A : Type 0} → List A → Bool
no_rows [] = true
no_rows (a ∷ r) = false

unfoldable pub is_empty : Inner → Bool
unfolding no_rows
is_empty g =
    if is_some (meta_get "last_epoch_applied" g.meta)
    then false
    else no_rows g.blocks && no_rows g.storage

unfoldable pub block_hash : ℕ → Inner → Option Felt
block_hash number g = elim (get ltb number g.blocks) [ none ↦ none | some b ↦ some b.hash ]

-- `none` is the panic of `BTreeMap::range` on bounds that are out of order
unfoldable pub block_hashes : Range → Inner → Option (List (ℕ × Felt))
unfolding bounds
block_hashes range g =
    let lo = (bounds range).0 in
    let hi = (bounds range).1 in
    if leb lo hi
    then some (map (λ e. (e.0, e.1.hash)) (keep (λ e. leb lo e.0 && leb e.0 hi) g.blocks))
    else none

-- the loop of `full_slot_set_as_of`
unfoldable pub slot_set : Inner → ℕ → List Felt → List (Felt × Felt)
slot_set g block [] = []
slot_set g block (s ∷ r) =
    let value = (read_slot_as_of g s block).0 in
    let rest = slot_set g block r in if value == 0 then rest else (s, value) ∷ rest

unfoldable pub full_slot_set_as_of : ℕ → Inner → List (Felt × Felt)
unfolding slot_set
full_slot_set_as_of block g = slot_set g block (slots g)

-- `discovery_core`'s event, without the pool's address, which is always zero
pub record EmittedEvent : Type 0 where
  pub keys : List Felt
  pub payload : List Felt
  pub block_hash : Felt
  pub block_number : ℕ
  pub transaction_hash : Felt
  pub event_index : ℕ
  pub transaction_index : ℕ

contains_felt : List Felt → Felt → Bool
contains_felt [] x = false
contains_felt (y ∷ r) x = y == x || contains_felt r x

-- position `i` of the filter allows the event's key there: an empty position allows everything
unfoldable pub matches : List (List Felt) → List Felt → Bool
unfolding contains_felt
matches [] keys = true
matches ([] ∷ r) [] = matches r []
matches ((a ∷ b) ∷ r) [] = false
matches ([] ∷ r) (k ∷ ks) = matches r ks
matches ((a ∷ b) ∷ r) (k ∷ ks) = contains_felt (a ∷ b) k && matches r ks

unfoldable pub emit : Inner → List (List Felt) → List ((ℕ × ℕ) × EventRec) → List EmittedEvent
unfolding matches
emit g keys [] = []
emit g keys (e ∷ r) =
    let rest = emit g keys r in
    if matches keys e.1.keys
    then elim (get ltb e.0.0 g.blocks) [
      | none ↦ rest
      | some b ↦
          record {
            keys = e.1.keys;
            payload = e.1.payload;
            block_hash = b.hash;
            block_number = e.0.0;
            transaction_hash = e.1.tx_hash;
            event_index = e.0.1;
            transaction_index = e.1.tx_index;
          }
          ∷ rest
    ]
    else rest

pub data EventAnswer : Type 0 where
  events : List EmittedEvent → EventAnswer
  history_unavailable : (floor : ℕ) → EventAnswer
  panicked : EventAnswer

-- `get_events` of a view; `from` and `to` are `none` for a block id that is no number
unfoldable pub get_events :
    (bound history_floor : ℕ) → List (List Felt) → Option ℕ → Option ℕ → Inner → EventAnswer
unfolding emit pair_range pair_lt
get_events bound history_floor keys from_block to_block g =
    let from : ℕ = elim from_block [ none ↦ 0 | some n ↦ n ] in
    let to : ℕ = min (elim to_block [ none ↦ bound | some n ↦ n ]) bound in
    if ltb from history_floor
    then history_unavailable history_floor
    else if pair_lt (to, u64_max) (from, 0)
    then panicked
    else events (emit g keys (pair_range (from, 0) (to, u64_max) g.events))
