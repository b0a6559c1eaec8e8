-- ===== src/Feed/Proof/Paths.antt =====
-- The comparison of an edge's path with the key.
use strk20_indexer.Prelude.{
  ℕ, zero, suc, ◌+◌, ◌-◌, ◌≤◌, ◌≡◌, refl, sym, ◌∙◌, ap, ap₂, bool_eq→eq, Bool, true, not, List, [],
  ◌∷◌, ◌++◌, append_assoc, arith, length, length-append,
}
use strk20_indexer.Feed.Felt.{bit_at}
use strk20_indexer.Feed.Mpt.{key_bit, key_bits_from, bits_to_felt}
use strk20_indexer.Feed.Mpt.Bits.{bit_at-bits_to_felt}
use strk20_indexer.Feed.Mpt.Edges.{starts}
use strk20_indexer.Feed.Proof.{diverges}

module _ (q1 : List Bool) (b : Bool) (q2 : List Bool) where
  -- bit `i` of the path is bit `len - 1 - i` of its felt
  path_bit :
      (path len i : ℕ)
      → path ≡ bits_to_felt (q1 ++ b ∷ q2)
      → len ≡ length q1 + suc (length q2)
      → i ≡ length q1
      → bit_at path (len - 1 - i) ≡ b
  path_bit path len i p l e =
      ap₂ bit_at {v = length q2} p (omega arith) ∙ bit_at-bits_to_felt q1 b q2

  snoc_path :
      (path : ℕ) → path ≡ bits_to_felt (q1 ++ b ∷ q2) → path ≡ bits_to_felt ((q1 ++ b ∷ []) ++ q2)
  snoc_path path p = p ∙ ap bits_to_felt (sym (append_assoc q1 (b ∷ []) q2))

-- The comparison loop finds whether the edge's path is the beginning of what is left of the key.
pub diverges_lem :
    (q1 q2 : List Bool) (path len key depth i r : ℕ)
    → path ≡ bits_to_felt (q1 ++ q2)
    → len ≡ length q1 + length q2
    → i ≡ length q1
    → length q2 ≤ r
    → diverges path len key depth i (length q2) ≡ not (starts q2 (key_bits_from key (depth + i) r))
unfolding diverges starts key_bits_from
diverges_lem q1 [] path len key depth i r p l e h = refl
diverges_lem q1 (b ∷ q2) path len key depth i zero p l e h = absurd (omega arith)
diverges_lem q1 (b ∷ q2) path len key depth i (suc r) p l e h = ground (
  arith,
  path_bit q1 b q2 path len i p l e,
  diverges_lem (q1 ++ b ∷ []) q2 path len key depth (suc i) r (snoc_path q1 b q2 path p)
      (omega (arith, length-append {0} q1 (b ∷ []))) (omega (arith, length-append {0} q1 (b ∷ [])))
      (omega arith),
  ap (λ (d : ℕ). not (starts q2 (key_bits_from key d r))) {x = depth + suc i} {y = suc (depth + i)}
      (omega arith),
)

pub key_bits_from-append :
    (q : List Bool) (key depth n r : ℕ)
    → n ≡ r + length q
    → starts q (key_bits_from key depth n) ≡ true
    → key_bits_from key depth n ≡ q ++ key_bits_from key (depth + length q) r
unfolding starts key_bits_from
key_bits_from-append [] key depth n r e h =
    ap₂ (key_bits_from key) {x = depth} {y = depth + 0} {u = n} {v = r} (omega arith) (omega arith)
key_bits_from-append (b ∷ q) key depth zero r e h = absurd (omega arith)
key_bits_from-append (b ∷ q) key depth (suc n) r e h = ground (
  arith,
  bool_eq→eq b (key_bit key depth),
  key_bits_from-append q key (suc depth) n r (omega arith),
  ap (λ (d : ℕ). q ++ key_bits_from key d r) {x = suc depth + length q} {y = depth + length (b ∷ q)}
      (omega arith),
)
