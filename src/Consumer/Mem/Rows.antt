-- ===== src/Consumer/Mem/Rows.antt =====
-- The rows after the blocks of a range are written.
use strk20_indexer.Prelude.{
  ℕ, ◌≡◌, ◌≢◌, refl, sym, ◌∙◌, ap, ap₂, inl, inr, Bool, true, false, ◌&&◌, Option, none, some, List,
  [], ◌∷◌, Bool-cases, if◌then◌else◌, arith, ◌==◌,
}
use strk20_indexer.Feed.Felt.{Felt}
use strk20_indexer.Feed.Codec.{BlockLine}
use strk20_indexer.Map.{get, insert}
use strk20_indexer.Map.Laws.{get-insert_self, get-insert_ne}
use strk20_indexer.Consumer.Mem.{
  Storage, Inner, pair_lt, insert_diffs, apply_block_line, apply_blocks,
}
use strk20_indexer.Consumer.Mem.Order.{pair_lt-IsOrder}
use strk20_indexer.Consumer.Mem.Reads.{row}

abbrev pub or_else : {A : Type 0} → Option A → Option A → Option A
or_else (some a) o = some a
or_else none o = o

-- the last value that a block's diffs give to a slot
unfoldable pub diff_of : List (Felt × Felt) → Felt → Option Felt
diff_of [] slot = none
diff_of (d ∷ r) slot = or_else (diff_of r slot) (if d.0 == slot then some d.1 else none)

-- the last value that blocks with the number `b` give to a slot
unfoldable pub written : List (BlockLine × Bool) → Felt → ℕ → Option Felt
unfolding diff_of
written [] slot b = none
written (x ∷ r) slot b =
    or_else (written r slot b) (if x.0.number == b then diff_of x.0.diffs slot else none)

row-insert :
    (s n : ℕ) (v : Felt) (st : Storage) (slot b : ℕ)
    → row (insert pair_lt (s, n) v st) slot b
      ≡ (if s == slot && n == b then some v else row st slot b)
row-insert s n v st slot b = elim (Bool-cases (s == slot && n == b)) [
  | inl e ↦
      let es : s ≡ slot = ground arith in
      let en : n ≡ b = ground arith in
      rw e (
        ap₂ (λ (x y : ℕ). get pair_lt (x, y) (insert pair_lt (s, n) v st)) {x = slot} {y = s}
          {u = b} {v = n} (sym es) (sym en)
        ∙ get-insert_self pair_lt pair_lt-IsOrder (s, n) v st)
  | inr e ↦ rw e (get-insert_ne pair_lt pair_lt-IsOrder (slot, b) (s, n) v st (apart e))
]
  where
    apart : s == slot && n == b ≡ false → ◌≢◌ {A = ℕ × ℕ} (slot, b) (s, n)
    apart e q =
        let es : slot ≡ s = ap (λ (x : ℕ × ℕ). x.0) q in
        let en : b ≡ n = ap (λ (x : ℕ × ℕ). x.1) q in ground arith

or_diffs :
    (x y : Bool) (p : Option Felt) (v : Felt) (o : Option Felt)
    → or_else (if y then p else none) (if x && y then some v else o)
      ≡ or_else (if y then or_else p (if x then some v else none) else none) o
or_diffs true true none v o = refl
or_diffs true true (some w) v o = refl
or_diffs false true none v o = refl
or_diffs false true (some w) v o = refl
or_diffs true false p v o = refl
or_diffs false false p v o = refl

or_blocks : {A : Type 0} (p q o : Option A) → or_else p (or_else q o) ≡ or_else (or_else p q) o
or_blocks none q o = refl
or_blocks (some a) q o = refl

no_diff : (y : Bool) (o : Option Felt) → o ≡ or_else (if y then none else none) o
no_diff true o = refl
no_diff false o = refl

row-insert_diffs :
    (n : ℕ) (ds : List (Felt × Felt)) (st : Storage) (slot b : ℕ)
    → row (insert_diffs n ds st) slot b
      ≡ or_else (if n == b then diff_of ds slot else none) (row st slot b)
unfolding insert_diffs diff_of
row-insert_diffs n [] st slot b = no_diff (n == b) _
row-insert_diffs n (d ∷ r) st slot b =
    row-insert_diffs n r _ slot b
    ∙ ap (or_else (if n == b then diff_of r slot else none)) (row-insert d.0 n d.1 st slot b)
    ∙ or_diffs (d.0 == slot) (n == b) (diff_of r slot) d.1 (row st slot b)

pub row-apply_blocks :
    (bs : List (BlockLine × Bool)) (g : Inner) (slot b : ℕ)
    → row (apply_blocks bs g).storage slot b ≡ or_else (written bs slot b) (row g.storage slot b)
unfolding apply_blocks written apply_block_line
row-apply_blocks [] g slot b = refl
row-apply_blocks (x ∷ r) g slot b =
    row-apply_blocks r _ slot b
    ∙ ap (or_else (written r slot b)) (row-insert_diffs x.0.number x.0.diffs g.storage slot b)
    ∙ or_blocks (written r slot b) _ _
