-- ===== src/Feed/Mpt/Order.antt =====
-- The lexicographic order of bit paths is a strict total order.
use strk20_indexer.Prelude.{
  ◌≡◌, refl, Bool, true, false, List, [], ◌∷◌, arith, bool_eq→eq, bool_eq_refl,
}
use strk20_indexer.Feed.Mpt.{bits_lt, bits_eq}

pub bits_eq→eq : (a b : List Bool) → bits_eq a b ≡ true → a ≡ b
unfolding bits_eq
bits_eq→eq [] [] h = refl
bits_eq→eq [] (y ∷ ys) h = ground arith
bits_eq→eq (x ∷ xs) [] h = ground arith
bits_eq→eq (x ∷ xs) (y ∷ ys) h = ground (arith, bits_eq→eq xs ys, bool_eq→eq x y)

pub bits_eq_refl : (a : List Bool) → bits_eq a a ≡ true
unfolding bits_eq
bits_eq_refl [] = refl
bits_eq_refl (x ∷ xs) = ground (arith, bits_eq_refl xs, bool_eq_refl x)

pub bits_lt_irrefl : (a : List Bool) → bits_lt a a ≡ false
unfolding bits_lt
bits_lt_irrefl [] = refl
bits_lt_irrefl (x ∷ xs) = ground (arith, bits_lt_irrefl xs, bool_eq_refl x)

pub bits_lt_trans :
    (a b d : List Bool) → bits_lt a b ≡ true → bits_lt b d ≡ true → bits_lt a d ≡ true
unfolding bits_lt
bits_lt_trans [] [] d h k = ground arith
bits_lt_trans [] (y ∷ ys) [] h k = ground arith
bits_lt_trans [] (y ∷ ys) (z ∷ zs) h k = refl
bits_lt_trans (x ∷ xs) [] d h k = ground arith
bits_lt_trans (x ∷ xs) (y ∷ ys) [] h k = ground arith
bits_lt_trans (x ∷ xs) (y ∷ ys) (z ∷ zs) h k = ground (arith, bits_lt_trans xs ys zs)

-- of two different paths one is below the other
pub bits_lt_total :
    (a b : List Bool) → bits_lt a b ≡ false → bits_eq a b ≡ false → bits_lt b a ≡ true
unfolding bits_lt bits_eq
bits_lt_total [] [] h k = ground arith
bits_lt_total [] (y ∷ ys) h k = ground arith
bits_lt_total (x ∷ xs) [] h k = refl
bits_lt_total (x ∷ xs) (y ∷ ys) h k = ground (arith, bits_lt_total xs ys)
