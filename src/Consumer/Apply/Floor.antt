-- ===== src/Consumer/Apply/Floor.antt =====
-- What the rebuild of the tail does to the mirror, above and below the epoch floor.
use strk20_indexer.Prelude.{
  ℕ, ◌+◌, ◌%◌, ◌≤◌, ◌<◌, ◌≡◌, ◌⊎◌, ◌↔◌, refl, subst, inl, inr, Bool, true, false, ◌||◌, Option,
  none, some, List, [], ◌∷◌, String, All, leb, leb→le, arith,
}
use strk20_indexer.Feed.Felt.{Felt, Crypto}
use strk20_indexer.Feed.Host.{Bytes, Host, Json}
use strk20_indexer.Feed.Codec.{BlockLine, Head}
use strk20_indexer.Feed.Codec.Parse.{parse_head}
use strk20_indexer.Feed.Codec.Valid.{IsHead, parse_head_lem}
use strk20_indexer.Consumer.Reply.{
  Reply, done, failed, from_feed, with_value, requiring-eq-done, with_value-eq-done,
}
use strk20_indexer.Consumer.Number.{u64_max}
use strk20_indexer.Map.{meta_get}
use strk20_indexer.Consumer.Mem.{
  Inner, above, bounds, number_or_zero, read_slot_as_of, replace_range,
}
use strk20_indexer.Consumer.Mem.View.{block_hashes}
use strk20_indexer.Consumer.Mem.Mirror.{IsMirror}
use strk20_indexer.Consumer.Mem.Replace.{NoneBelow, replace_range_below}
use strk20_indexer.Consumer.Apply.{Transport, or_panic}
use strk20_indexer.Consumer.Apply.Epochs.{or_panic-eq-done, from_feed-eq-ok}
use strk20_indexer.Feed.Error.{ok}
use strk20_indexer.Feed.Decimal.{decimal}
use strk20_indexer.Feed.Hex.{felt_hex}
use strk20_indexer.Consumer.Apply.Contradiction.{
  AnyOf, IsReplaced, AreMarked, tail_contradicts_iff, tail_blocks-AreMarked,
}
use strk20_indexer.Consumer.Apply.Tail.{
  TailOutcome, tail_blocks, tail_contradicts, head_meta, epoch_floor, kept_tail, fold_tail,
  apply_tail,
}

-- every block that is written lies above the start of the range
tail_blocks-NoneBelow :
    (floor : ℕ) (bs : List BlockLine)
    → All (λ (b : BlockLine). floor < b.number) bs
    → NoneBelow (bounds (above floor)).0 (tail_blocks bs)
unfolding tail_blocks bounds
tail_blocks-NoneBelow floor [] a = tt
tail_blocks-NoneBelow floor (b ∷ r) a = (omega (arith, a.0), tail_blocks-NoneBelow floor r a.1)

start_above : (floor bound : ℕ) → floor < u64_max → bound ≤ floor → bound < (bounds (above floor)).0
unfolding bounds
start_above floor bound l m = omega arith

module _ {Value : Type 0} (c : Crypto) (h : Host) (j : Json Value) (t : Transport) where
  -- a tail that was rebuilt from a head file
  pub record IsRebuilt (g : Inner) (rewound : Bool) (head : Head) (etag : String) (o : TailOutcome)
      : Type 0 where
    pub at_floor : epoch_floor g ≡ number_or_zero (meta_get "last_epoch_to" g.meta)
    pub no_gap : head.header.tail_from ≤ (epoch_floor g + 1) % (u64_max + 1)
    pub marked : AreMarked head.blocks (tail_blocks head.blocks)
    -- the blocks above the floor, and whether the generation is bumped
    pub stored : List (ℕ × Felt)
    pub bumped : Bool
    pub is_bumped : (bumped ≡ true) ↔ AnyOf (IsReplaced head) stored
    pub before : block_hashes (above (epoch_floor g)) g ≡ some stored
    pub replaced :
        replace_range
          (above (epoch_floor g))
          (tail_blocks head.blocks)
          (("head_etag", etag)
            ∷ ("head_number", decimal head.header.head)
            ∷ ("head_hash", felt_hex h head.header.head_hash)
            ∷ ("l1_accepted", decimal head.header.l1_accepted)
            ∷ [])
          bumped
          g
        ≡ some o.store
    pub flag : o.tail_rewound ≡ bumped || rewound
    pub changed : o.tail_changed ≡ true
    pub head_number : o.head ≡ head.header.head
    pub l1_number : o.l1_accepted ≡ head.header.l1_accepted

  fold_tail-IsRebuilt :
      (g : Inner) (rewound : Bool) (head : Head) (etag : String) (o : TailOutcome)
      → fold_tail c h j t g rewound head etag ≡ done o
      → IsRebuilt g rewound head etag o
  unfolding fold_tail epoch_floor
  fold_tail-IsRebuilt g rewound head etag o q =
      let (e1, q1) =
        requiring-eq-done (leb head.header.tail_from ((epoch_floor g + 1) % (u64_max + 1))) _ _ q in
      let (stored, e2, q2) =
        with_value-eq-done (or_panic (block_hashes (above (epoch_floor g)) g)) _ q1 in
      let (store, e3, q3) =
        with_value-eq-done
          (or_panic (
            replace_range (above (epoch_floor g)) (tail_blocks head.blocks) (head_meta h head etag)
              (tail_contradicts head stored) g))
          _ q2 in
      subst
        (λ (x : Reply TailOutcome). elim x [
          | done y ↦ IsRebuilt g rewound head etag y
          | failed _ ↦ Unit
        ])
        q3
        (record {
          at_floor = refl;
          no_gap = leb→le _ _ e1;
          marked = tail_blocks-AreMarked head.blocks;
          stored = stored;
          bumped = tail_contradicts head stored;
          is_bumped = tail_contradicts_iff head stored;
          before = or_panic-eq-done _ e2;
          replaced = or_panic-eq-done _ e3;
          flag = refl;
          changed = refl;
          head_number = refl;
          l1_number = refl;
        })

  -- the answer of the transport to the recorded entity tag
  abbrev pub IsFetched : Inner → Option (Bytes × String) → Type 0
  IsFetched g x = t.fetch_head (meta_get "head_etag" g.meta) ≡ done x

  -- a tail that is left as it is
  pub record IsKept (g : Inner) (rewound : Bool) (o : TailOutcome) : Type 0 where
    pub unchanged : IsFetched g none
    pub store : o.store ≡ g
    pub flag : o.tail_rewound ≡ rewound
    pub changed : o.tail_changed ≡ false
    pub head_number : o.head ≡ number_or_zero (meta_get "head_number" g.meta)
    pub l1_number : o.l1_accepted ≡ number_or_zero (meta_get "l1_accepted" g.meta)

  kept_tail-IsKept :
      (g : Inner) (rewound : Bool) (o : TailOutcome)
      → IsFetched g none
      → done (kept_tail g rewound) ≡ done o
      → IsKept g rewound o
  unfolding kept_tail
  kept_tail-IsKept g rewound o f q =
      subst (λ (x : Reply TailOutcome). elim x [ done y ↦ IsKept g rewound y | failed _ ↦ Unit ]) q
        (record {
          unchanged = f;
          store = refl;
          flag = refl;
          changed = refl;
          head_number = refl;
          l1_number = refl;
        })

  -- A tail step that succeeds either finds the head file unchanged and leaves the store as it is, or
  -- has a new head file, which is well formed and whose tail starts right above the epoch floor or
  -- before. It replaces everything above the floor by the file's blocks, marked as final where the file
  -- says so, records the head, and bumps the generation exactly if the file has another hash for a
  -- stored block above the floor, or has no block of its number though its tail reaches down to it.
  pub apply_tail_lem :
      (g : Inner) (rewound : Bool) (o : TailOutcome)
      → apply_tail c h j t g rewound ≡ done o
      → IsKept g rewound o
        ⊎ ((payload : Bytes) × (etag : String) × (head : Head) × IsFetched g (some (payload, etag))
            × (parse_head c h j payload ≡ ok head)
            × IsHead head
            × IsRebuilt g rewound head etag o)
  unfolding apply_tail
  apply_tail_lem g rewound o q =
      let (fetched, f, q1) = with_value-eq-done (t.fetch_head (meta_get "head_etag" g.meta)) _ q in
      of fetched f q1
    where
      of :
          (x : Option (Bytes × String))
          → IsFetched g x
          → elim x as (λ y. Reply TailOutcome) [
            | none ↦ done (kept_tail g rewound)
            | some (head_bytes, etag) ↦
                with_value
                  (from_feed (parse_head c h j head_bytes))
                  λ head. fold_tail c h j t g rewound head etag
          ]
            ≡ done o
          → IsKept g rewound o
            ⊎ ((payload : Bytes) × (etag : String) × (head : Head) × IsFetched g
                  (some (payload, etag))
                × (parse_head c h j payload ≡ ok head)
                × IsHead head
                × IsRebuilt g rewound head etag o)
      of none f r = inl (kept_tail-IsKept g rewound o f r)
      of (some (bytes, etag)) f r =
          let (head, e, r1) = with_value-eq-done (from_feed (parse_head c h j bytes)) _ r in
          inr (
            bytes,
            etag,
            head,
            f,
            from_feed-eq-ok _ e,
            parse_head_lem c h j bytes head (from_feed-eq-ok _ e),
            fold_tail-IsRebuilt g rewound head etag o r1,
          )

  -- The rebuild of a tail whose blocks all lie above the epoch floor, which is below the greatest
  -- u64, does not change what is read as of the floor or a block below it, on a mirror whose rows are
  -- in order and at or below the recorded highest block.
  pub fold_tail_below :
      (g : Inner) (rewound : Bool) (head : Head) (etag : String) (o : TailOutcome) (slot bound : ℕ)
      → IsMirror g
      → epoch_floor g < u64_max
      → All (λ (b : BlockLine). epoch_floor g < b.number) head.blocks
      → bound ≤ epoch_floor g
      → fold_tail c h j t g rewound head etag ≡ done o
      → read_slot_as_of o.store slot bound ≡ read_slot_as_of g slot bound
  fold_tail_below g rewound head etag o slot bound m l a b q =
      let r = fold_tail-IsRebuilt g rewound head etag o q in
      replace_range_below (above (epoch_floor g)) (tail_blocks head.blocks) (head_meta h head etag)
        r.bumped g o.store slot bound m (tail_blocks-NoneBelow (epoch_floor g) head.blocks a)
        (start_above (epoch_floor g) bound l b) r.replaced
