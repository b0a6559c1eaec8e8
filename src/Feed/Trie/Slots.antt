-- ===== src/Feed/Trie/Slots.antt =====
-- The tree and the slots by key: single writes, and the two loops of an update.
use native.Mathlib.Nat.{mod-eq_of_lt}
use strk20_indexer.Prelude.{
  ℕ, ◌^◌, ◌<◌, ◌≡◌, ◌≢◌, refl, ◌∙◌, Bool, inl, inr, Option, none, some, List, arith, length, ltb,
  ◌==◌, if◌then◌else◌, Bool-cases,
}
use strk20_indexer.Map.{get}
use strk20_indexer.Feed.Felt.{Felt, Crypto}
use strk20_indexer.Feed.Mpt.{key_bits_from, bits_to_felt}
use strk20_indexer.Feed.Mpt.Bits.{bits_to_felt-lt}
use strk20_indexer.Feed.Mpt.Sorted.{length-key_bits_from}
use strk20_indexer.Feed.Trie.{Key, Node, set_slot, clear_slot, update}
use strk20_indexer.Feed.Trie.Holds.{Holds, Holds-ext}
use strk20_indexer.Feed.Trie.Branches.{Outcome, written, single}
use strk20_indexer.Feed.Trie.Write.{update-Outcome}
use strk20_indexer.Feed.Trie.Digits.{bits_to_felt-key_bits, key_test}

abbrev pub Slot : Type 0
Slot = Key × Felt

abbrev pub key_limit : ℕ
key_limit = 2 ^ 251

abbrev pub or_zero : Option Felt → Felt
or_zero none = 0
or_zero (some v) = v

-- the map of a list of slots
abbrev pub value_of : List Slot → Key → Felt
value_of m k = or_zero (get ltb k m)

pub path-lt : (j : List Bool) → length j ≡ 251 → bits_to_felt j < key_limit
path-lt j l = let h = bits_to_felt-lt j in rw l at h

abbrev pub assign : Key → Felt → (Key → Felt) → Key → Felt
assign key v g k = if key == k then v else g k

module _ (c : Crypto) where
  -- a tree, or none, that holds the map `g` from keys to values
  abbrev pub Stored : Option Node → (Key → Felt) → Type 0
  Stored none g = (k : Key) → k < key_limit → g k ≡ 0
  Stored (some t) g = Holds c 251 0 t (λ j. g (bits_to_felt j))

  pub Stored-ext :
      (o : Option Node) (g g' : Key → Felt)
      → ((k : Key) → k < key_limit → g' k ≡ g k)
      → Stored o g
      → Stored o g'
  Stored-ext none g g' q h = λ k l. q k l ∙ h k l
  Stored-ext (some t) g g' q h = Holds-ext c _ h (λ j l. q (bits_to_felt j) (path-lt j l))

  Outcome-Stored :
      (o : Option Node) (key v : ℕ) (g : Key → Felt)
      → key < key_limit
      → Outcome c 251 0 key o (written key 0 251 v (λ j. g (bits_to_felt j)))
      → Stored o (assign key v g)
  Outcome-Stored none key v g l h = λ k m. at_key k m
    where
      same : (k : Key) → k < key_limit → bits_to_felt (key_bits_from k 0 251) ≡ k
      same k m = bits_to_felt-key_bits k 0 251 (omega arith) ∙ mod-eq_of_lt m

      at_key : (k : Key) → k < key_limit → assign key v g k ≡ 0
      at_key k m =
          let j = key_bits_from k 0 251 in
          let e = key_test key j l (length-key_bits_from k 0 251) in
          let z = h j (length-key_bits_from k 0 251) in rw (same k m) at (rw e at z)
  Outcome-Stored (some t) key v g l (h, a) = Holds-ext c _ h (λ j m. rw (key_test key j l m) refl)

  pub set_slot-Stored :
      (o : Option Node) (key v : ℕ) (g : Key → Felt)
      → key < key_limit
      → v ≢ 0
      → Stored o g
      → Stored (set_slot c o key v) (assign key v g)
  unfolding set_slot
  set_slot-Stored none key v g l z h =
      Holds-ext c _ (single c 251 0 key v (omega arith) z)
        (λ j m. rw (key_test key j l m, h (bits_to_felt j) (path-lt j m)) refl)
  set_slot-Stored (some t) key v g l z h =
      Outcome-Stored (update c t key v 0) key v g l
        (update-Outcome c key v h (omega arith) (λ d p. absurd (omega arith)))

  pub clear_slot-Stored :
      (o : Option Node) (key : ℕ) (g : Key → Felt)
      → key < key_limit
      → Stored o g
      → Stored (clear_slot c o key) (assign key 0 g)
  unfolding clear_slot
  clear_slot-Stored none key g l h =
      λ k m. elim (Bool-cases (key == k)) [ inl e ↦ rw e refl | inr e ↦ rw e (h k m) ]
  clear_slot-Stored (some t) key g l h =
      Outcome-Stored (update c t key 0 0) key 0 g l
        (update-Outcome c key 0 h (omega arith) (λ d p. absurd (omega arith)))
