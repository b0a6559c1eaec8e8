-- ===== src/Consumer/Mem/Generation.antt =====
-- The counter that tells every owner that the tail was replaced.
use strk20_indexer.Prelude.{
  ℕ, ◌+◌, ◌%◌, ◌≡◌, refl, sym, ◌∙◌, ap, inl, inr, Bool, true, false, some, List, [], ◌∷◌, All,
  String, str_eq, eq_iff, Bool-cases, if◌then◌else◌, arith,
}
use strk20_indexer.Feed.Decimal.{decimal}
use strk20_indexer.Feed.Codec.{BlockLine}
use strk20_indexer.Consumer.Number.{u64_max, parse_u64-decimal}
use strk20_indexer.Map.{Meta, meta_get, meta_insert}
use strk20_indexer.Consumer.Mem.{
  Inner, Range, bounds, cleared, apply_block_line, apply_blocks, insert_all, bump, refill,
  replace_range, number_or_zero, tail_generation,
}
use strk20_indexer.Consumer.Mem.Replace.{replace_range-eq-some}

pub meta_get-insert_self :
    (key value : String) (m : Meta) → meta_get key (meta_insert key value m) ≡ some value
unfolding meta_get meta_insert
meta_get-insert_self key value [] = rw ((eq_iff key key).1 refl) refl
meta_get-insert_self key value (e ∷ r) = elim (Bool-cases (str_eq e.0 key)) [
  | inl x ↦ rw (x, (eq_iff key key).1 refl) refl
  | inr x ↦ rw (x, x) (meta_get-insert_self key value r)
]

pub meta_get-insert_ne :
    (key other value : String) (m : Meta)
    → str_eq other key ≡ false
    → meta_get key (meta_insert other value m) ≡ meta_get key m
unfolding meta_get meta_insert
meta_get-insert_ne key other value [] n = rw n refl
meta_get-insert_ne key other value (e ∷ r) n = elim (Bool-cases (str_eq e.0 other)) [
  | inl x ↦ rw (x, n, ap (λ (s : String). str_eq s key) ((eq_iff e.0 other).0 x) ∙ n) refl
  | inr x ↦ rw x (rw (meta_get-insert_ne key other value r n) refl)
]

-- the key is not among those that are set
abbrev pub Spares : String → List (String × String) → Type 0
Spares key = All (λ (x : String × String). str_eq x.0 key ≡ false)

pub meta_get-insert_all :
    (key : String) (xs : List (String × String)) (m : Meta)
    → Spares key xs
    → meta_get key (insert_all xs m) ≡ meta_get key m
unfolding insert_all
meta_get-insert_all key [] m s = refl
meta_get-insert_all key (x ∷ r) m s =
    meta_get-insert_all key r _ s.1 ∙ meta_get-insert_ne key x.0 x.1 m s.0

apply_blocks_meta : (bs : List (BlockLine × Bool)) (g : Inner) → (apply_blocks bs g).meta ≡ g.meta
unfolding apply_blocks apply_block_line
apply_blocks_meta [] g = refl
apply_blocks_meta (x ∷ r) g = apply_blocks_meta r _

cleared_meta : (range : Range) (lo hi : ℕ) (g : Inner) → (cleared range lo hi g).meta ≡ g.meta
unfolding cleared
cleared_meta range lo hi g = refl

bump_generation : (g : Inner) → tail_generation (bump g) ≡ (tail_generation g + 1) % (u64_max + 1)
unfolding bump tail_generation number_or_zero
bump_generation g =
    rw
      (meta_get-insert_self "tail_generation" (decimal ((tail_generation g + 1) % (u64_max + 1)))
        g.meta)
      (rw
        (number_or_zero, parse_u64-decimal ((tail_generation g + 1) % (u64_max + 1)) (omega arith))
        refl)

-- the generation is a function of its text
generation_meta :
    (g h : Inner)
    → meta_get "tail_generation" g.meta ≡ meta_get "tail_generation" h.meta
    → tail_generation g ≡ tail_generation h
unfolding tail_generation
generation_meta g h q = ap number_or_zero q

-- A replacement that succeeds and is asked to bump the generation adds one to it, wrapping at the
-- width of a u64, and any other leaves it, if the metadata that it sets does not name the counter.
pub replace_range-tail_generation :
    (range : Range) (bs : List (BlockLine × Bool)) (meta : List (String × String)) (f : Bool)
    (g g' : Inner)
    → Spares "tail_generation" meta
    → replace_range range bs meta f g ≡ some g'
    → tail_generation g'
      ≡ (if f then (tail_generation g + 1) % (u64_max + 1) else tail_generation g)
unfolding refill
replace_range-tail_generation range bs meta f g g' s q =
    of f (replace_range-eq-some range bs meta f g g' q)
  where
    h : Inner
    h = apply_blocks bs (cleared range (bounds range).0 (bounds range).1 g)

    set : Inner
    set = record h { meta = insert_all meta h.meta }

    before : tail_generation set ≡ tail_generation g
    before = generation_meta set g (
        meta_get-insert_all "tail_generation" meta h.meta s
        ∙ ap (meta_get "tail_generation") (apply_blocks_meta bs _ ∙ cleared_meta range _ _ g))

    of :
        (f : Bool)
        → refill bs meta f (cleared range (bounds range).0 (bounds range).1 g) ≡ g'
        → tail_generation g'
          ≡ (if f then (tail_generation g + 1) % (u64_max + 1) else tail_generation g)
    of true r =
        ap tail_generation (sym r)
        ∙ bump_generation set
        ∙ ap (λ (n : ℕ). (n + 1) % (u64_max + 1)) before
    of false r = ap tail_generation (sym r) ∙ before
