-- ===== src/Feed/Mpt/Sorted.antt =====
-- `bit_entries`: the slots in strict order of their paths, with the value of each path kept.
use strk20_indexer.Prelude.{
  ◌≡◌, ◌≢◌, refl, ◌∙◌, ap, Bool, true, false, not, inl, inr, List, [], ◌∷◌, map, arith, All, keep,
  ◌==◌, if◌then◌else◌, Bool-cases, length, zero, suc, ℕ,
}
use strk20_indexer.Feed.Felt.{Felt}
use strk20_indexer.Feed.Mpt.{
  Entry, bits_lt, bits_eq, insert_sorted, sort_bits, dedup_from, dedup_bits, bit_entries, key_bits,
  key_bits_from, tree_height,
}
use strk20_indexer.Feed.Mpt.Order.{
  bits_eq→eq, bits_eq_refl, bits_lt_irrefl, bits_lt_trans, bits_lt_total,
}

-- the value of a path in a list of entries; the first entry counts, and no entry is zero
unfoldable pub find : List Entry → List Bool → Felt
find [] k = 0
find (e ∷ r) k = if bits_eq e.0 k then e.1 else find r k

-- the value of a path in a slot set, where a slot of value zero is no slot
unfoldable pub value_at : List (Felt × Felt) → List Bool → Felt
value_at [] k = 0
value_at (e ∷ r) k =
    let rest = value_at r k in
    if e.1 == 0 then rest else if bits_eq (key_bits e.0) k then e.1 else rest

find-keep :
    (es : List (Felt × Felt)) (k : List Bool)
    → find (map (λ e. (key_bits e.0, e.1)) (keep (λ e. not (e.1 == 0)) es)) k ≡ value_at es k
unfolding find value_at
find-keep [] k = refl
find-keep (e ∷ r) k = ground (arith, find-keep r k)

lt_ne : (a b : List Bool) → bits_lt a b ≡ true → bits_eq b a ≡ false
lt_ne a b h = elim (Bool-cases (bits_eq b a)) [
  | inl e ↦ ground (arith, bits_eq→eq b a e, bits_lt_irrefl a)
  | inr e ↦ e
]

find-insert_sorted :
    (e : Entry) (r : List Entry) (k : List Bool)
    → find (insert_sorted e r) k ≡ (if bits_eq e.0 k then e.1 else find r k)
unfolding find insert_sorted
find-insert_sorted e [] k = refl
find-insert_sorted e (f ∷ r) k = ground (
  arith,
  find-insert_sorted e r k,
  lt_ne f.0 e.0,
  bits_eq→eq e.0 k,
  bits_eq→eq f.0 k,
  bits_lt_irrefl k,
)

find-sort_bits : (es : List Entry) (k : List Bool) → find (sort_bits es) k ≡ find es k
unfolding find sort_bits
find-sort_bits [] k = refl
find-sort_bits (e ∷ r) k = ground (arith, find-insert_sorted e (sort_bits r) k, find-sort_bits r k)

find-dedup_from :
    (e : Entry) (r : List Entry) (k : List Bool)
    → find (dedup_from e r) k ≡ (if bits_eq e.0 k then e.1 else find r k)
unfolding find dedup_from
find-dedup_from e [] k = refl
find-dedup_from e (f ∷ r) k = ground (
  arith,
  find-dedup_from e r k,
  find-dedup_from f r k,
  bits_eq→eq e.0 f.0,
  bits_eq→eq e.0 k,
  bits_eq→eq f.0 k,
  bits_eq_refl k,
)

find-dedup_bits : (xs : List Entry) (k : List Bool) → find (dedup_bits xs) k ≡ find xs k
unfolding find dedup_bits
find-dedup_bits [] k = refl
find-dedup_bits (e ∷ r) k = find-dedup_from e r k

-- `bit_entries` keeps the value of every path.
pub find-bit_entries :
    (es : List (Felt × Felt)) (k : List Bool) → find (bit_entries es) k ≡ value_at es k
unfolding bit_entries
find-bit_entries es k =
    let ms =
      map (λ (e : Felt × Felt). (key_bits e.0, e.1))
        (keep (λ (e : Felt × Felt). not (e.1 == 0)) es) in
    find-dedup_bits (sort_bits ms) k ∙ find-sort_bits ms k ∙ find-keep es k

lt_of_lt-le : (a b d : List Bool) → bits_lt a b ≡ true → bits_lt d b ≡ false → bits_lt a d ≡ true
lt_of_lt-le a b d h k = elim (Bool-cases (bits_eq d b)) [
  | inl e ↦ ground (arith, bits_eq→eq d b e)
  | inr e ↦ bits_lt_trans a b d h (bits_lt_total d b k e)
]

lt_asym : (a b : List Bool) → bits_lt a b ≡ true → bits_lt b a ≡ false
lt_asym a b h = ground (arith, bits_lt_trans a b a h, bits_lt_irrefl a)

All-imp {ℓ κ μ} :
    {A : Type ℓ} {P : A → Type κ} {Q : A → Type μ}
    → ((a : A) → P a → Q a)
    → (xs : List A) → All P xs
    → All Q xs
All-imp f [] h = tt
All-imp f (x ∷ xs) h = (f x h.0, All-imp f xs h.1)

abbrev NotBelow : Entry → List Entry → Type 0
NotBelow e r = All (λ f. bits_lt f.0 e.0 ≡ false) r

abbrev pub Above : Entry → List Entry → Type 0
Above e r = All (λ f. bits_lt e.0 f.0 ≡ true) r

abbrev IsSorted : List Entry → Type 0
IsSorted [] = Unit
IsSorted (e ∷ r) = NotBelow e r × IsSorted r

-- strictly ascending paths
abbrev pub IsAscending : List Entry → Type 0
IsAscending [] = Unit
IsAscending (e ∷ r) = Above e r × IsAscending r

module _ {κ} (P : Entry → Type κ) where
  All-insert_sorted : (e : Entry) (r : List Entry) → P e → All P r → All P (insert_sorted e r)
  unfolding insert_sorted
  All-insert_sorted e [] p h = (p, tt)
  All-insert_sorted e (f ∷ r) p h = elim (Bool-cases (bits_lt f.0 e.0)) [
    | inl c ↦ rw c (h.0, All-insert_sorted e r p h.1)
    | inr c ↦ rw c (p, h)
  ]

  All-sort_bits : (xs : List Entry) → All P xs → All P (sort_bits xs)
  unfolding sort_bits
  All-sort_bits [] h = tt
  All-sort_bits (e ∷ r) h = All-insert_sorted e (sort_bits r) h.0 (All-sort_bits r h.1)

  All-dedup_from : (e : Entry) (r : List Entry) → P e → All P r → All P (dedup_from e r)
  unfolding dedup_from
  All-dedup_from e [] p h = (p, tt)
  All-dedup_from e (f ∷ r) p h = elim (Bool-cases (bits_eq e.0 f.0)) [
    | inl c ↦ rw c (All-dedup_from e r p h.1)
    | inr c ↦ rw c (p, All-dedup_from f r h.0 h.1)
  ]

  All-dedup_bits : (xs : List Entry) → All P xs → All P (dedup_bits xs)
  unfolding dedup_bits
  All-dedup_bits [] h = tt
  All-dedup_bits (e ∷ r) h = All-dedup_from e r h.0 h.1

insert_sorted-IsSorted : (e : Entry) (r : List Entry) → IsSorted r → IsSorted (insert_sorted e r)
unfolding insert_sorted
insert_sorted-IsSorted e [] h = (tt, tt)
insert_sorted-IsSorted e (f ∷ r) h = elim (Bool-cases (bits_lt f.0 e.0)) [
  | inl c ↦ rw c (All-insert_sorted _ e r (lt_asym f.0 e.0 c) h.0, insert_sorted-IsSorted e r h.1)
  | inr c ↦ rw c ((c, All-imp (λ g k. below g c k) r h.0), h)
]
  where
    below :
        (g : Entry) → bits_lt f.0 e.0 ≡ false → bits_lt g.0 f.0 ≡ false → bits_lt g.0 e.0 ≡ false
    below g c k = ground (arith, lt_of_lt-le g.0 e.0 f.0)

sort_bits-IsSorted : (xs : List Entry) → IsSorted (sort_bits xs)
unfolding sort_bits
sort_bits-IsSorted [] = tt
sort_bits-IsSorted (e ∷ r) = insert_sorted-IsSorted e (sort_bits r) (sort_bits-IsSorted r)

dedup_from-IsAscending :
    (e : Entry) (r : List Entry) → IsSorted (e ∷ r) → IsAscending (dedup_from e r)
unfolding dedup_from
dedup_from-IsAscending e [] h = (tt, tt)
dedup_from-IsAscending e (f ∷ r) h = elim (Bool-cases (bits_eq e.0 f.0)) [
  | inl c ↦ rw c (dedup_from-IsAscending e r (h.0.1, h.1.1))
  | inr c ↦
      let l = bits_lt_total f.0 e.0 h.0.0 (sym_ne c) in
      rw c (
        All-dedup_from _ f r l (All-imp (λ g k. lt_of_lt-le e.0 f.0 g.0 l k) r h.1.0),
        dedup_from-IsAscending f r h.1,
      )
]
  where
    sym_ne : bits_eq e.0 f.0 ≡ false → bits_eq f.0 e.0 ≡ false
    sym_ne c = ground (arith, bits_eq→eq f.0 e.0, bits_eq_refl e.0)

dedup_bits-IsAscending : (xs : List Entry) → IsSorted xs → IsAscending (dedup_bits xs)
unfolding dedup_bits
dedup_bits-IsAscending [] h = tt
dedup_bits-IsAscending (e ∷ r) h = dedup_from-IsAscending e r h

pub bit_entries-IsAscending : (es : List (Felt × Felt)) → IsAscending (bit_entries es)
unfolding bit_entries
bit_entries-IsAscending es = dedup_bits-IsAscending _ (sort_bits-IsSorted _)

-- an entry of height `n`: a path of that length and a value that is not zero
abbrev pub IsEntry : ℕ → Entry → Type 0
IsEntry n e = (length e.0 ≡ n) × (e.1 ≢ 0)

pub length-key_bits_from : (f : Felt) (d n : ℕ) → length (key_bits_from f d n) ≡ n
unfolding key_bits_from
length-key_bits_from f d zero = refl
length-key_bits_from f d (suc n) = ap suc (length-key_bits_from f (suc d) n)

length-key_bits : (f : Felt) → length (key_bits f) ≡ tree_height
unfolding key_bits
length-key_bits f = length-key_bits_from f 0 tree_height

keep-IsEntry :
    (es : List (Felt × Felt))
    → All (IsEntry tree_height) (map (λ e. (key_bits e.0, e.1)) (keep (λ e. not (e.1 == 0)) es))
keep-IsEntry [] = tt
keep-IsEntry (e ∷ r) = elim (Bool-cases (e.1 == 0)) [
  | inl c ↦ rw c (keep-IsEntry r)
  | inr c ↦ rw c ((length-key_bits e.0, ground arith), keep-IsEntry r)
]

pub bit_entries-IsEntry : (es : List (Felt × Felt)) → All (IsEntry tree_height) (bit_entries es)
unfolding bit_entries
bit_entries-IsEntry es = All-dedup_bits _ _ (All-sort_bits _ _ (keep-IsEntry es))
