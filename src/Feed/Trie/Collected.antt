-- ===== src/Feed/Trie/Collected.antt =====
-- What `collect_slots` keeps of the entries of an update.
use strk20_indexer.Prelude.{
  ◌^◌, ◌<◌, ◌≡◌, refl, sym, ◌∙◌, subst, Bool, true, false, inl, inr, Option, none, some, List, [],
  ◌∷◌, All, arith, length, ltb, ◌==◌, if◌then◌else◌, Bool-cases, Option-cases, ==_refl, ne→==_false,
}
use strk20_indexer.Map.{get, insert}
use strk20_indexer.Map.Laws.{
  ltb-IsOrder, Sorted, key_cases, get-hit, get-skip, get-insert_self, get-insert_ne, insert-Sorted,
  All-insert,
}
use strk20_indexer.Feed.Error.{ok, malformed, ensure-eq-ok}
use strk20_indexer.Feed.Felt.{Felt}
use strk20_indexer.Feed.Mpt.{is_trie_key, key_bits, bits_to_felt}
use strk20_indexer.Feed.Mpt.Bits.{fits_in_bits_iff}
use strk20_indexer.Feed.Mpt.Sorted.{value_at}
use strk20_indexer.Feed.Trie.{Key, collect_slots}
use strk20_indexer.Feed.Trie.Digits.{key_test}
use strk20_indexer.Feed.Trie.Parts.{held}
use strk20_indexer.Feed.Trie.Slots.{Slot, key_limit, or_zero, value_of}
use strk20_indexer.Feed.Trie.Loops.{IsSlots, over}

-- 256-bit keys
abbrev pub AreWords : List (Felt × Felt) → Type 0
AreWords es = All (λ e. e.0 < 2 ^ 256) es

-- the first value that is not zero of a key
pub first_of : List (Felt × Felt) → Key → Felt
first_of [] k = 0
first_of (e ∷ r) k =
    let rest = first_of r k in if e.1 == 0 then rest else if e.0 == k then e.1 else rest

pub trie_key-lt : (f : Felt) → f < 2 ^ 256 → is_trie_key f ≡ true → f < key_limit
unfolding is_trie_key
trie_key-lt f h e = (fits_in_bits_iff f 251 h).0 e

pub first_of-value_at :
    (es : List (Felt × Felt)) (j : List Bool)
    → All (λ e. e.0 < key_limit) es
    → length j ≡ 251
    → value_at es j ≡ first_of es (bits_to_felt j)
unfolding value_at first_of key_bits
first_of-value_at [] j h l = refl
first_of-value_at (e ∷ r) j h l = rw (first_of-value_at r j h.1 l, key_test e.0 j h.0 l) refl

abbrev pub Kept : List Slot → List (Felt × Felt) → List Slot → Type 0
Kept next es done =
    Sorted ltb done
    × IsSlots done
    × All (λ (e : Felt × Felt). e.0 < key_limit) es
    × ((k : Key) → value_of done k ≡ over (get ltb k next) (first_of es k))

pub collect_slots-Kept :
    (es : List (Felt × Felt)) (next done : List Slot)
    → AreWords es
    → Sorted ltb next
    → IsSlots next
    → collect_slots es next ≡ ok done
    → Kept next es done
unfolding first_of collect_slots
collect_slots-Kept [] next done w s i q =
    let e : next ≡ done = cc in
    let k : Kept next [] next = (s, i, tt, λ k. nothing (get ltb k next)) in
    subst (Kept next []) e k
  where
    nothing : (o : Option Felt) → or_zero o ≡ over o 0
    nothing none = refl
    nothing (some v) = refl
collect_slots-Kept (e ∷ r) next done w s i q =
    let (x, q1) = ensure-eq-ok (is_trie_key e.0) (malformed "invalid trie key") _ q in
    let small = trie_key-lt e.0 w.0 x in
    elim (Bool-cases (e.1 == 0)) [
      | inl z ↦
          let k = collect_slots-Kept r next done w.1 s i (rw z at q1) in
          (k.0, k.1, (small, k.2), λ j. k.3 j ∙ rw (first_of, z) refl)
      | inr z ↦ elim (Option-cases (get ltb e.0 next)) [
        | inr (v, g) ↦ absurd (cc (rw (z, g) at q1))
        | inl g ↦
            let k =
              collect_slots-Kept r (insert ltb e.0 e.1 next) done w.1
                (insert-Sorted ltb ltb-IsOrder e.0 e.1 next s)
                (All-insert ltb ltb-IsOrder _ e.0 e.1 next (small, ground arith) i)
                (rw (z, g) at q1) in
            (k.0, k.1, (small, k.2), λ j. k.3 j ∙ step e r next j z g)
      ]
    ]
  where
    step :
        (e : Felt × Felt) (r : List (Felt × Felt)) (next : List Slot) (j : Key)
        → (e.1 == 0) ≡ false
        → get ltb e.0 next ≡ none
        → over (get ltb j (insert ltb e.0 e.1 next)) (first_of r j)
          ≡ over (get ltb j next) (first_of (e ∷ r) j)
    step e r next j z g = elim (key_cases ltb ltb-IsOrder e.0 j) [
      | inl x ↦
          rw (first_of, ← x, g, z, get-insert_self ltb ltb-IsOrder e.0 e.1 next, ==_refl e.0) refl
      | inr n ↦
          rw
            (
              first_of,
              z,
              get-insert_ne ltb ltb-IsOrder j e.0 e.1 next (λ y. n (sym y)),
              ne→==_false e.0 j n,
            )
            refl
    ]

pub held-value_of :
    (es : List Slot) (j : List Bool)
    → length j ≡ 251
    → IsSlots es
    → value_of es (bits_to_felt j) ≡ held es 0 251 j
unfolding held get
held-value_of [] j l i = refl
held-value_of (e ∷ r) j l i = elim (key_cases ltb ltb-IsOrder e.0 (bits_to_felt j)) [
  | inl q ↦
      rw
        (
          get-hit ltb ltb-IsOrder (bits_to_felt j) e r q,
          held,
          key_test e.0 j i.0.0 l,
          q,
          ==_refl (bits_to_felt j),
        )
        refl
  | inr n ↦
      rw
        (
          get-skip ltb ltb-IsOrder (bits_to_felt j) e r n,
          held,
          key_test e.0 j i.0.0 l,
          ne→==_false _ _ n,
        )
        (held-value_of r j l i.1)
]
