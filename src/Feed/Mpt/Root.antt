-- ===== src/Feed/Mpt/Root.antt =====
-- `storage_root` computes the commitment of the map that the slots stand for.
use strk20_indexer.Prelude.{
  ℕ, zero, suc, ◌≤◌, ◌≡◌, ◌≢◌, refl, sym, ◌∙◌, ap, ap₂, fun_ext, Bool, true, false, not, none, some,
  List, [], ◌∷◌, ◌++◌, map, append_assoc, arith, All, length, get_or, take, drop, partition_point,
  if◌then◌else◌, length-append, ne→==_false,
}
use strk20_indexer.Feed.Felt.{Felt, Crypto}
use strk20_indexer.Feed.Mpt.{
  Entry, bits_lt, bits_eq, join, subtree, hash_of, subtree_hash_at, storage_root, bit_entries,
  entries_with_prefix, tree_height,
}
use strk20_indexer.Feed.Mpt.Order.{bits_lt_irrefl}
use strk20_indexer.Feed.Mpt.Spec.{spec, root_of}
use strk20_indexer.Feed.Mpt.Sorted.{
  find, value_at, IsAscending, Above, IsEntry, find-bit_entries, bit_entries-IsAscending,
  bit_entries-IsEntry,
}

module _ (c : Crypto) where
  pub spec-zero : (n : ℕ) → spec c n (λ k. 0) ≡ none
  unfolding spec join
  spec-zero zero = refl
  spec-zero (suc n) = rw (spec-zero n)

  pub spec_single :
      (n : ℕ) (k : List Bool) (v : Felt)
      → length k ≡ n
      → v ≢ 0
      → spec c n (λ j. if bits_eq k j then v else 0) ≡ some (record { path = k; bottom = v })
  unfolding spec join bits_eq
  spec_single zero [] v l h = rw (ne→==_false v 0 h)
  spec_single (suc n) [] v l h = absurd (omega arith)
  spec_single zero (b ∷ k) v l h = absurd (omega arith)
  spec_single (suc n) (false ∷ k) v l h = rw (spec_single n k v (omega arith) h, spec-zero n)
  spec_single (suc n) (true ∷ k) v l h = rw (spec_single n k v (omega arith) h, spec-zero n)

-- the entries below one child, with the bit taken off
under : Bool → List Entry → List Entry
under b [] = []
under b (([], v) ∷ r) = under b r
under true ((true ∷ k, v) ∷ r) = (k, v) ∷ under true r
under true ((false ∷ k, v) ∷ r) = under true r
under false ((true ∷ k, v) ∷ r) = under false r
under false ((false ∷ k, v) ∷ r) = (k, v) ∷ under false r

find-under : (b : Bool) (es : List Entry) (k : List Bool) → find es (b ∷ k) ≡ find (under b es) k
unfolding find under bits_eq
find-under true [] k = refl
find-under false [] k = refl
find-under true (([], v) ∷ r) k = find-under true r k
find-under false (([], v) ∷ r) k = find-under false r k
find-under true ((true ∷ j, v) ∷ r) k = rw (find-under true r k)
find-under true ((false ∷ j, v) ∷ r) k = find-under true r k
find-under false ((true ∷ j, v) ∷ r) k = find-under false r k
find-under false ((false ∷ j, v) ∷ r) k = rw (find-under false r k)

under-Above :
    (b : Bool) (k : List Bool) (v : Felt) (es : List Entry)
    → Above (b ∷ k, v) es
    → Above (k, v) (under b es)
unfolding under bits_lt
under-Above true k v [] h = tt
under-Above false k v [] h = tt
under-Above true k v (([], w) ∷ r) h = under-Above true k v r h.1
under-Above false k v (([], w) ∷ r) h = under-Above false k v r h.1
under-Above true k v ((true ∷ j, w) ∷ r) h = (h.0, under-Above true k v r h.1)
under-Above true k v ((false ∷ j, w) ∷ r) h = under-Above true k v r h.1
under-Above false k v ((true ∷ j, w) ∷ r) h = under-Above false k v r h.1
under-Above false k v ((false ∷ j, w) ∷ r) h = (h.0, under-Above false k v r h.1)

under-IsAscending : (b : Bool) (es : List Entry) → IsAscending es → IsAscending (under b es)
unfolding under
under-IsAscending true [] h = tt
under-IsAscending false [] h = tt
under-IsAscending true (([], w) ∷ r) h = under-IsAscending true r h.1
under-IsAscending false (([], w) ∷ r) h = under-IsAscending false r h.1
under-IsAscending true ((true ∷ j, w) ∷ r) h =
    (under-Above true j w r h.0, under-IsAscending true r h.1)
under-IsAscending true ((false ∷ j, w) ∷ r) h = under-IsAscending true r h.1
under-IsAscending false ((true ∷ j, w) ∷ r) h = under-IsAscending false r h.1
under-IsAscending false ((false ∷ j, w) ∷ r) h =
    (under-Above false j w r h.0, under-IsAscending false r h.1)

under-IsEntry :
    (b : Bool) (n : ℕ) (es : List Entry) → All (IsEntry (suc n)) es → All (IsEntry n) (under b es)
unfolding under
under-IsEntry true n [] h = tt
under-IsEntry false n [] h = tt
under-IsEntry true n (([], w) ∷ r) h = under-IsEntry true n r h.1
under-IsEntry false n (([], w) ∷ r) h = under-IsEntry false n r h.1
under-IsEntry true n ((true ∷ j, w) ∷ r) h =
    ((omega (arith, h.0.0), h.0.1), under-IsEntry true n r h.1)
under-IsEntry true n ((false ∷ j, w) ∷ r) h = under-IsEntry true n r h.1
under-IsEntry false n ((true ∷ j, w) ∷ r) h = under-IsEntry false n r h.1
under-IsEntry false n ((false ∷ j, w) ∷ r) h =
    ((omega (arith, h.0.0), h.0.1), under-IsEntry false n r h.1)

-- after a path that goes right none goes left
under-false_nil :
    (k : List Bool) (v : Felt) (es : List Entry) → Above (true ∷ k, v) es → under false es ≡ []
unfolding under bits_lt
under-false_nil k v [] h = refl
under-false_nil k v (([], w) ∷ r) h = under-false_nil k v r h.1
under-false_nil k v ((true ∷ j, w) ∷ r) h = under-false_nil k v r h.1
under-false_nil k v ((false ∷ j, w) ∷ r) h = cc (h.0)

-- the entries of a subtree, seen from the root
abbrev put : List Bool → Entry → Entry
put p e = (p ++ e.0, e.1)

get_or-append :
    (p : List Bool) (b : Bool) (k : List Bool) → get_or (p ++ b ∷ k) (length p) false ≡ b
get_or-append [] b k = refl
get_or-append (x ∷ p) b k = get_or-append p b k

drop-append : (p k : List Bool) → drop (length p) (p ++ k) ≡ k
drop-append [] k = refl
drop-append (x ∷ p) k = drop-append p k

snoc_append : (p : List Bool) (b : Bool) (k : List Bool) → (p ++ b ∷ []) ++ k ≡ p ++ b ∷ k
snoc_append p b k = append_assoc p (b ∷ []) k

length-snoc : (p : List Bool) (b : Bool) → length (p ++ b ∷ []) ≡ suc (length p)
length-snoc p b = omega (arith, length-append {0} p (b ∷ []))

-- the test of `partition_point` in `subtree`
abbrev goes_left : ℕ → Entry → Bool
goes_left depth x = not (get_or x.0 depth false)

map-put_nil : (es : List Entry) → map (put []) es ≡ es
map-put_nil [] = refl
map-put_nil (e ∷ r) = rw (map-put_nil r)

take_all :
    (es : List Entry)
    → take (partition_point (λ (e : Entry). not (bits_lt [] (take 0 e.0))) es) es ≡ es
unfolding bits_lt
take_all [] = refl
take_all (e ∷ r) = rw (take_all r)

whole : (es : List Entry) → entries_with_prefix es [] ≡ es
unfolding entries_with_prefix bits_lt
whole [] = refl
whole (e ∷ r) = rw (take_all r)

module _ (p : List Bool) where
  abbrev left_part : List Entry → List Entry
  left_part es = take (partition_point (goes_left (length p)) (map (put p) es)) (map (put p) es)

  abbrev right_part : List Entry → List Entry
  right_part es = drop (partition_point (goes_left (length p)) (map (put p) es)) (map (put p) es)

  left_part_lem :
      (es : List Entry) (n : ℕ)
      → IsAscending es
      → All (IsEntry (suc n)) es
      → left_part es ≡ map (put (p ++ false ∷ [])) (under false es)
  unfolding under
  left_part_lem [] n a h = refl
  left_part_lem (([], w) ∷ r) n a h = absurd (omega (arith, h.0.0))
  left_part_lem ((true ∷ k, w) ∷ r) n a h = rw (get_or-append p true k, under-false_nil k w r a.0)
  left_part_lem ((false ∷ k, w) ∷ r) n a h =
      rw (get_or-append p false k, left_part_lem r n a.1 h.1, snoc_append p false k)

  right_only :
      (k : List Bool) (v : Felt) (es : List Entry) (n : ℕ)
      → Above (true ∷ k, v) es
      → All (IsEntry (suc n)) es
      → map (put p) es ≡ map (put (p ++ true ∷ [])) (under true es)
  unfolding under bits_lt
  right_only k v [] n a h = refl
  right_only k v (([], w) ∷ r) n a h = absurd (omega (arith, h.0.0))
  right_only k v ((false ∷ j, w) ∷ r) n a h = cc (a.0)
  right_only k v ((true ∷ j, w) ∷ r) n a h = rw (snoc_append p true j, right_only k v r n a.1 h.1)

  right_part_lem :
      (es : List Entry) (n : ℕ)
      → IsAscending es
      → All (IsEntry (suc n)) es
      → right_part es ≡ map (put (p ++ true ∷ [])) (under true es)
  unfolding under
  right_part_lem [] n a h = refl
  right_part_lem (([], w) ∷ r) n a h = absurd (omega (arith, h.0.0))
  right_part_lem ((true ∷ k, w) ∷ r) n a h =
      rw (get_or-append p true k, snoc_append p true k, right_only k w r n a.0 h.1)
  right_part_lem ((false ∷ k, w) ∷ r) n a h =
      rw (get_or-append p false k) (right_part_lem r n a.1 h.1)

module _ (c : Crypto) where
  spec_entries :
      (n : ℕ) (es : List Entry)
      → join c (spec c n (find (under false es))) (spec c n (find (under true es)))
        ≡ spec c (suc n) (find es)
  unfolding spec
  spec_entries n es = sym (rw (fun_ext (find-under false es), fun_ext (find-under true es)))

  -- On ascending entries the recursion of `subtree` computes the reference trie.
  subtree-eq-spec :
      (n fuel : ℕ) (p : List Bool) (es : List Entry)
      → n ≤ fuel
      → IsAscending es
      → All (IsEntry n) es
      → subtree c fuel (map (put p) es) (length p) ≡ spec c n (find es)
  unfolding subtree find
  subtree-eq-spec n fuel p [] f a h = sym (spec-zero c n)
  subtree-eq-spec n fuel p ((k, v) ∷ []) f a h =
      rw (drop-append p k, spec_single c n k v h.0.0 h.0.1)
  subtree-eq-spec zero fuel p (([], v) ∷ ([], w) ∷ r) f a h = cc (a.0.0, bits_lt_irrefl [])
  subtree-eq-spec zero fuel p (([], v) ∷ (b ∷ k, w) ∷ r) f a h = absurd (omega (arith, h.1.0.0))
  subtree-eq-spec zero fuel p ((b ∷ k, v) ∷ y ∷ r) f a h = absurd (omega (arith, h.0.0))
  subtree-eq-spec (suc n) zero p (x ∷ y ∷ r) f a h = absurd (omega arith)
  subtree-eq-spec (suc n) (suc fuel) p (x ∷ y ∷ r) f a h =
      let es = x ∷ y ∷ r in
      rw (left_part_lem p es n a h, right_part_lem p es n a h)
        (ap₂ (join c)
            (rw (length-snoc p false) at (
              subtree-eq-spec n fuel (p ++ false ∷ []) (under false es) (omega arith)
                (under-IsAscending false es a) (under-IsEntry false n es h)))
            (rw (length-snoc p true) at (
              subtree-eq-spec n fuel (p ++ true ∷ []) (under true es) (omega arith)
                (under-IsAscending true es a) (under-IsEntry true n es h)))
          ∙ spec_entries n es)

  -- The root of a slot set, computed from its sorted paths, is the commitment of the map that the
  -- slots stand for: the first value that is not zero of every path, and zero elsewhere.
  pub storage_root-eq-root_of :
      (es : List (Felt × Felt)) → storage_root c es ≡ root_of c tree_height (value_at es)
  unfolding storage_root subtree_hash_at root_of
  storage_root-eq-root_of es =
      let bs = bit_entries es in
      rw (whole bs) (
        rw (map-put_nil bs) at (
          ap (hash_of c) (
            subtree-eq-spec tree_height tree_height [] bs (omega arith) (bit_entries-IsAscending es)
              (bit_entries-IsEntry es))
          ∙ ap (λ (f : List Bool → Felt). hash_of c (spec c tree_height f))
              (fun_ext (find-bit_entries es))))
