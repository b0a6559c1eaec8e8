-- ===== src/Feed/Trie/Branches.antt =====
-- A single slot and a new branch hold what they are made of.
use strk20_indexer.Prelude.{
  ℕ, zero, suc, ◌+◌, ◌-◌, ◌<◌, ◌≡◌, ◌≢◌, refl, sym, ◌∙◌, ap, Bool, true, false, not, inl, inr,
  Option, none, some, List, ◌∷◌, arith, length, ◌==◌, bool_eq, bool_eq_refl, Bool-cases, ==_iff,
  if◌then◌else◌,
}
use strk20_indexer.Feed.Felt.{Felt, Crypto}
use strk20_indexer.Feed.Mpt.{key_bits_from, bits_eq}
use strk20_indexer.Feed.Trie.{Key, Node, leaf, bit, first_difference, key_of, branch_at, part}
use strk20_indexer.Feed.Trie.Holds.{Agree, Holds, at_leaf, fork, skip, Holds-ext}
use strk20_indexer.Feed.Trie.Commit.{bit-key_bit}

abbrev pub written : Key → ℕ → ℕ → Felt → (List Bool → Felt) → List Bool → Felt
written key s n v m k = if bits_eq (key_bits_from key s n) k then v else m k

pub bits_step :
    (key s n : ℕ) → key_bits_from key s (suc n) ≡ bit key s ∷ key_bits_from key (suc s) n
unfolding key_bits_from
bits_step key s n = rw (bit-key_bit key s) refl

-- the side of a level that the key goes down, and the other
pub on_path :
    (key s n v : ℕ) (m : List Bool → Felt) (b : Bool) (k : List Bool)
    → bit key s ≡ b
    → written key s (suc n) v m (b ∷ k) ≡ written key (suc s) n v (λ j. m (b ∷ j)) k
unfolding bits_eq
on_path key s n v m b k e = rw (bits_step key s n, e, bits_eq, bool_eq_refl b) refl

pub off_path :
    (key s n v : ℕ) (m : List Bool → Felt) (b : Bool) (k : List Bool)
    → bit key s ≡ b
    → written key s (suc n) v m (not b ∷ k) ≡ m (not b ∷ k)
unfolding bits_eq
off_path key s n v m true k e = rw (bits_step key s n, e) refl
off_path key s n v m false k e = rw (bits_step key s n, e) refl

pub Agree-step : (s : ℕ) (a b : Key) → Agree s a b → bit a s ≡ bit b s → Agree (suc s) a b
Agree-step s a b h e d l = elim (Bool-cases (d == s)) [
  | inl q ↦ let p = (==_iff d s).0 q in rw p e
  | inr q ↦ h d (ground (arith, l))
]

pub same_from :
    (a b s d : ℕ)
    → s < d
    → bit a s ≡ bit b s
    → first_difference a b s (d - s) ≡ first_difference a b (suc s) (d - suc s)
unfolding first_difference
same_from a b s d l e =
    ap (first_difference a b s) {x = d - s} {y = suc (d - suc s)} (omega arith)
    ∙ rw (e, bool_eq_refl (bit b s)) refl

pub differs_from :
    (a b s d : ℕ)
    → s < d
    → bool_eq (bit a s) (bit b s) ≡ false
    → first_difference a b s (d - s) ≡ some s
unfolding first_difference
differs_from a b s d l e =
    ap (first_difference a b s) {x = d - s} {y = suc (d - suc s)} (omega arith) ∙ rw e refl

pub no_difference : (a b s d : ℕ) → d ≡ s → first_difference a b s (d - s) ≡ none
unfolding first_difference
no_difference a b s d e = ap (first_difference a b s) {x = d - s} {y = 0} (omega arith)

module _ (c : Crypto) where
  written_zero :
      (key s n v : ℕ) (m : List Bool → Felt) (k : List Bool)
      → m k ≡ 0
      → written key s n v m k ≡ written key s n v (λ j. 0) k
  written_zero key s n v m k e = rw e refl

  -- a leaf alone
  pub single :
      (n s : ℕ) (key v : ℕ)
      → n + s ≡ 251
      → v ≢ 0
      → Holds c n s (leaf key v) (written key s n v (λ k. 0))
  unfolding key_bits_from bits_eq
  single zero s key v q nz = at_leaf nz refl
  single (suc n) s key v q nz =
      skip (bit key s) refl
        (Holds-ext c _ (single n (suc s) key v (omega arith) nz)
          (λ k e. on_path key s n v (λ j. 0) (bit key s) k refl))
        (λ k e. off_path key s n v (λ j. 0) (bit key s) k refl)

  -- a branch over two nodes that part at `s`
  pub branch_at-Holds :
      (n s : ℕ) (l r : Node) (m : List Bool → Felt)
      → bit (key_of l) s ≡ false
      → bit (key_of r) s ≡ true
      → Agree s (key_of l) (key_of r)
      → Holds c n (suc s) l (λ k. m (false ∷ k))
      → Holds c n (suc s) r (λ k. m (true ∷ k))
      → Holds c (suc n) s (branch_at c s l r) m
  unfolding branch_at
  branch_at-Holds n s l r m x y a hl hr = fork refl x y a hl hr

  -- What a write leaves: a tree that holds the written map, or nothing where the map is empty.
  abbrev pub Outcome : ℕ → ℕ → Key → Option Node → (List Bool → Felt) → Type 0
  Outcome n s key o m = elim o as (λ o. Type 0) [
    | none ↦ (k : List Bool) → length k ≡ n → m k ≡ 0
    | some t ↦ Holds c n s t m × Agree s (key_of t) key
  ]

  -- The new leaf hangs on the empty side.
  new_side :
      (n s key v : ℕ) (b : Bool) (m : List Bool → Felt)
      → suc n + s ≡ 251
      → bit key s ≡ b
      → ((k : List Bool) → length k ≡ n → m (b ∷ k) ≡ 0)
      → v ≢ 0
      → Holds c n (suc s) (leaf key v) (λ k. written key s (suc n) v m (b ∷ k))
  new_side n s key v b m q e z nz =
      Holds-ext c _ (single n (suc s) key v (omega arith) nz)
        (λ k l. on_path key s n v m b k e ∙ written_zero key (suc s) n v (λ j. m (b ∷ j)) k (z k l))

  pub old_side :
      (n s key v : ℕ) (t : Node) (b : Bool) (m : List Bool → Felt)
      → bit key s ≡ b
      → Holds c n (suc s) t (λ k. m (not b ∷ k))
      → Holds c n (suc s) t (λ k. written key s (suc n) v m (not b ∷ k))
  old_side n s key v t b m e h = Holds-ext c _ h (λ k l. off_path key s n v m b k e)

  pub part-Outcome :
      (n s : ℕ) (t : Node) (m : List Bool → Felt) (key v : ℕ)
      → suc n + s ≡ 251
      → Holds c n (suc s) t (λ k. m (bit (key_of t) s ∷ k))
      → ((k : List Bool) → length k ≡ n → m (not (bit (key_of t) s) ∷ k) ≡ 0)
      → bool_eq (bit (key_of t) s) (bit key s) ≡ false
      → Agree s (key_of t) key
      → v ≢ 0
      → Outcome (suc n) s key (some (part c t key v s)) (written key s (suc n) v m)
  unfolding part branch_at
  part-Outcome n s t m key v q h z ne a nz = elim (Bool-cases (bit key s)) [
    | inl e ↦
        let f : bit (key_of t) s ≡ false = ground (arith, ne, e) in
        rw e (
          branch_at-Holds n s t (leaf key v) _ f e a (old_side n s key v t true m e (rw f at h))
              (new_side n s key v true m q e (rw f at z) nz),
          a,
        )
    | inr e ↦
        let f : bit (key_of t) s ≡ true = ground (arith, ne, e) in
        rw e (
          branch_at-Holds n s (leaf key v) t _ e f (λ d l. sym (a d l))
              (new_side n s key v false m q e (rw f at z) nz)
              (old_side n s key v t false m e (rw f at h)),
          λ d l. refl,
        )
  ]
