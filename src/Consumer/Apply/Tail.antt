-- ===== src/Consumer/Apply/Tail.antt =====
-- The rebuild of the tail in `apply_feed_once`, from the head file.
use strk20_indexer.Prelude.{
  ℕ, ◌+◌, ◌%◌, Bool, true, false, not, ◌||◌, Option, none, some, List, [], ◌∷◌, map, String, leb,
  ◌==◌, if◌then◌else◌,
}
use strk20_indexer.Feed.Felt.{Felt, Crypto}
use strk20_indexer.Feed.Host.{Host, Json}
use strk20_indexer.Feed.Decimal.{decimal}
use strk20_indexer.Feed.Hex.{felt_hex}
use strk20_indexer.Feed.Codec.{BlockLine, Finality, l1, l2, Head}
use strk20_indexer.Feed.Codec.Parse.{parse_head}
use strk20_indexer.Consumer.Reply.{Reply, done, from_feed, requiring, with_value}
use strk20_indexer.Consumer.Number.{u64_max}
use strk20_indexer.Map.{meta_get}
use strk20_indexer.Consumer.Mem.{Inner, above, number_or_zero, replace_range}
use strk20_indexer.Consumer.Mem.View.{block_hashes}
use strk20_indexer.Consumer.Apply.{Transport, or_panic}

-- `head.blocks.iter().find(|b| b.number == n)`
unfoldable pub find_block : ℕ → List BlockLine → Option BlockLine
find_block n [] = none
find_block n (b ∷ r) = let rest = find_block n r in if b.number == n then some b else rest

-- a stored block of the tail that the head file contradicts
unfoldable pub tail_contradicts : Head → List (ℕ × Felt) → Bool
unfolding find_block
tail_contradicts head [] = false
tail_contradicts head (x ∷ r) =
    elim (find_block x.0 head.blocks) [
      | some b ↦ not (b.hash == x.1)
      | none ↦ leb head.header.tail_from x.0
    ]
    || tail_contradicts head r

unfoldable pub is_l1 : Option Finality → Bool
is_l1 none = false
is_l1 (some l2) = false
is_l1 (some l1) = true

unfoldable pub tail_blocks : List BlockLine → List (BlockLine × Bool)
unfolding is_l1
tail_blocks = map (λ b. (b, is_l1 b.finality))

abbrev pub head_meta : Host → Head → String → List (String × String)
head_meta h head etag =
    ("head_etag", etag)
    ∷ ("head_number", decimal head.header.head)
    ∷ ("head_hash", felt_hex h head.header.head_hash)
    ∷ ("l1_accepted", decimal head.header.l1_accepted)
    ∷ []

-- the fields of `ApplyOutcome` that the tail sets, with the store
pub record TailOutcome : Type 0 where
  pub store : Inner
  pub tail_rewound : Bool
  pub tail_changed : Bool
  pub head : ℕ
  pub l1_accepted : ℕ

-- `last_epoch_to` of the outcome
unfoldable pub epoch_floor : Inner → ℕ
epoch_floor g = number_or_zero (meta_get "last_epoch_to" g.meta)

unfoldable pub kept_tail : Inner → Bool → TailOutcome
kept_tail g rewound = record {
  store = g;
  tail_rewound = rewound;
  tail_changed = false;
  head = number_or_zero (meta_get "head_number" g.meta);
  l1_accepted = number_or_zero (meta_get "l1_accepted" g.meta);
}

module _ {Value : Type 0} (c : Crypto) (h : Host) (j : Json Value) (t : Transport) where
  -- the sum is of a release build
  unfoldable pub fold_tail : Inner → Bool → Head → String → Reply TailOutcome
  fold_tail g rewound head new_etag =
      let floor = epoch_floor g in
      requiring (leb head.header.tail_from ((floor + 1) % (u64_max + 1))) "feed advanced mid-sync" (
        with_value (or_panic (block_hashes (above floor) g)) λ stored.
          let contradiction = tail_contradicts head stored in
          with_value
            (or_panic (
              replace_range (above floor) (tail_blocks head.blocks) (head_meta h head new_etag)
                contradiction g))
            λ store. done (record {
              store = store;
              tail_rewound = contradiction || rewound;
              tail_changed = true;
              head = head.header.head;
              l1_accepted = head.header.l1_accepted;
            }))

  -- `rewound` is what the epochs have set
  unfoldable pub apply_tail : Inner → Bool → Reply TailOutcome
  apply_tail g rewound = with_value (t.fetch_head (meta_get "head_etag" g.meta)) λ fetched.
      elim fetched [
        | none ↦ done (kept_tail g rewound)
        | some (head_bytes, new_etag) ↦
            with_value (from_feed (parse_head c h j head_bytes))
              λ head. fold_tail g rewound head new_etag
      ]
