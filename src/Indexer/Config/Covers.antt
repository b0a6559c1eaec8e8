-- ===== src/Indexer/Config/Covers.antt =====
-- The epochs cover the blocks, each once.
use strk20_indexer.Prelude.{
  ℕ, ◌+◌, ◌-◌, ◌*◌, ◌/◌, ◌%◌, ◌^◌, ◌≤◌, ◌<◌, ◌≡◌, ◌↔◌, refl, ◌∙◌, ap, subst, false, ◌==◌, arith,
}
use native.Mathlib.Nat.{
  le-mul_of_pos_right, div-mul-le_self, lt-div-mul-add, le-div_iff_mul-le, div-lt_iff_lt-mul,
}
use strk20_indexer.Consumer.Reply.{done}
use strk20_indexer.Indexer.Config.{ChainConfig, epoch_of, epoch_range}

wrap_small : (n : ℕ) → n < 2 ^ 64 → n % 2 ^ 64 ≡ n
wrap_small n h = omega arith

before : (e : ℕ) → 0 < e → e < 2 ^ 64 → (e % 2 ^ 64 + (2 ^ 64 - 1)) % 2 ^ 64 + 1 ≡ e
before e p h = omega arith

next_start : (idx size : ℕ) → (idx + 1) * size ≡ idx * size + size
next_start idx size = omega arith

module _ (cfg : ChainConfig) (positive : 0 < cfg.epoch_size) (idx : ℕ)
    (fits : (idx + 1) * cfg.epoch_size < 2 ^ 64) where
  range_from : (epoch_range cfg idx).0 ≡ idx * cfg.epoch_size
  unfolding epoch_range
  range_from = wrap_small (idx * cfg.epoch_size) (omega (arith, next_start idx cfg.epoch_size))

  small : idx + 1 < 2 ^ 64
  small = omega (arith, le-mul_of_pos_right (idx + 1) positive)

  range_to : (epoch_range cfg idx).1 + 1 ≡ (idx + 1) * cfg.epoch_size
  unfolding epoch_range
  range_to =
      ap (λ n. (n * cfg.epoch_size % 2 ^ 64 + (2 ^ 64 - 1)) % 2 ^ 64 + 1)
        (wrap_small (idx + 1) small)
      ∙ before ((idx + 1) * cfg.epoch_size) (omega (arith, next_start idx cfg.epoch_size)) fits

-- Let epochs not be empty and let the epoch `idx` end below 2 ^ 64. Then `epoch_of` answers with it for
-- the blocks in its range and for no others.
pub epoch_of-epoch_range :
    (cfg : ChainConfig) (block : ℕ)
    → 0 < cfg.epoch_size
    → (idx : ℕ) → (idx + 1) * cfg.epoch_size < 2 ^ 64
    → (epoch_of cfg block ≡ done idx)
      ↔ (((epoch_range cfg idx).0 ≤ block) × (block ≤ (epoch_range cfg idx).1))
unfolding epoch_of
epoch_of-epoch_range cfg block positive idx fits =
    (λ q. holds (the_index q), λ (a, b). rw (nonzero, alone a b) refl)
  where
    nonzero : (cfg.epoch_size == 0) ≡ false
    nonzero = ground arith

    the_index : epoch_of cfg block ≡ done idx → block / cfg.epoch_size ≡ idx
    the_index q = cc (rw (epoch_of, nonzero) at q)

    lower : (epoch_range cfg idx).0 ≡ idx * cfg.epoch_size
    lower = range_from cfg positive idx fits

    upper : (epoch_range cfg idx).1 + 1 ≡ (idx + 1) * cfg.epoch_size
    upper = range_to cfg positive idx fits

    holds :
        block / cfg.epoch_size ≡ idx
        → ((epoch_range cfg idx).0 ≤ block) × (block ≤ (epoch_range cfg idx).1)
    holds e =
        let l = subst (λ n. n * cfg.epoch_size ≤ block) e (div-mul-le_self block cfg.epoch_size) in
        let u =
          subst (λ n. block < n * cfg.epoch_size + cfg.epoch_size) e
            (lt-div-mul-add {a = block} positive) in
        (omega (arith, lower, l), omega (arith, upper, u, next_start idx cfg.epoch_size))

    alone :
        (epoch_range cfg idx).0 ≤ block
        → block ≤ (epoch_range cfg idx).1
        → block / cfg.epoch_size ≡ idx
    alone a b =
        let l : idx ≤ block / cfg.epoch_size =
          (le-div_iff_mul-le positive).1 (omega (arith, lower, a)) in
        let u : block / cfg.epoch_size < idx + 1 =
          (div-lt_iff_lt-mul positive).1 (omega (arith, upper, b)) in
        omega (arith, l, u)
