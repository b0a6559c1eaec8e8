-- ===== src/Consumer/Mem/Order.antt =====
-- The orders of the mirror's keys.
use strk20_indexer.Prelude.{ℕ, ◌≡◌, ap₂, true, false, arith}
use strk20_indexer.Map.Laws.{IsOrder}
use strk20_indexer.Consumer.Mem.{pair_lt}

pair_lt_irreflexive : (a : ℕ × ℕ) → pair_lt a a ≡ false
unfolding pair_lt
pair_lt_irreflexive (a, b) = ground arith

pair_lt_transitive : (a b c : ℕ × ℕ) → pair_lt a b ≡ true → pair_lt b c ≡ true → pair_lt a c ≡ true
unfolding pair_lt
pair_lt_transitive (a, b) (c, d) (e, f) p q = ground arith

pair_lt_connected : (a b : ℕ × ℕ) → pair_lt a b ≡ false → pair_lt b a ≡ false → a ≡ b
unfolding pair_lt
pair_lt_connected (a, b) (c, d) p q =
    ap₂ (λ (x y : ℕ). (x, y)) {x = a} {y = c} {u = b} {v = d} (ground arith) (ground arith)

pub pair_lt-IsOrder : IsOrder pair_lt
pair_lt-IsOrder = record {
  irreflexive = pair_lt_irreflexive;
  transitive = pair_lt_transitive;
  connected = pair_lt_connected;
}
