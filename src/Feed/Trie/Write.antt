-- ===== src/Feed/Trie/Write.antt =====
-- A write to the cached tree writes the map that the tree holds.
use strk20_indexer.Prelude.{
  ℕ, suc, ◌+◌, ◌<◌, ◌≡◌, refl, sym, ◌∙◌, ap, Bool, true, false, not, inl, inr, Option, none, some,
  List, [], ◌∷◌, arith, length, ◌==◌, bool_eq, bool_eq→eq, Bool-cases, if◌then◌else◌,
}
use strk20_indexer.Feed.Felt.{Felt, Crypto}
use strk20_indexer.Feed.Mpt.{key_bits_from, bits_eq}
use strk20_indexer.Feed.Mpt.Order.{bits_eq→eq}
use strk20_indexer.Feed.Mpt.Sorted.{length-key_bits_from}
use strk20_indexer.Feed.Trie.{Node, leaf, branch, bit, key_of, depth_of, branch_at, part, update}
use strk20_indexer.Feed.Trie.Holds.{Agree, Holds, at_leaf, fork, skip, Holds-ext, Holds-depth}
use strk20_indexer.Feed.Trie.Branches.{
  written, bits_step, on_path, off_path, Agree-step, same_from, differs_from, no_difference,
  branch_at-Holds, Outcome, old_side, part-Outcome,
}

module _ (c : Crypto) where
  -- The search for the first difference, one level on.
  update_same :
      (t : Node) (key v s : ℕ)
      → s < depth_of t
      → bit (key_of t) s ≡ bit key s
      → update c t key v s ≡ update c t key v (suc s)
  unfolding update
  update_same (leaf k w) key v s l e = rw (update, same_from k key s 251 l e) refl
  update_same (branch k depth h left right) key v s l e =
      rw (update, same_from k key s depth l e) refl

  update_differs :
      (t : Node) (key v s : ℕ)
      → s < depth_of t
      → bool_eq (bit (key_of t) s) (bit key s) ≡ false
      → update c t key v s ≡ (if v == 0 then some t else some (part c t key v s))
  unfolding update
  update_differs (leaf k w) key v s l e = rw (update, differs_from k key s 251 l e) refl
  update_differs (branch k depth h left right) key v s l e =
      rw (update, differs_from k key s depth l e) refl

  written_same :
      (key s n v : ℕ) (m : List Bool → Felt) (k : List Bool)
      → (bits_eq (key_bits_from key s n) k ≡ true → m k ≡ v)
      → written key s n v m k ≡ m k
  written_same key s n v m k e = elim (Bool-cases (bits_eq (key_bits_from key s n) k)) [
    | inl q ↦ rw q (sym (e q))
    | inr q ↦ rw q refl
  ]

  -- a write to a path that a level skips
  differs-Outcome :
      (n s : ℕ) (t : Node) (m : List Bool → Felt) (key v : ℕ)
      → suc n + s ≡ 251
      → Holds c n (suc s) t (λ k. m (bit (key_of t) s ∷ k))
      → ((k : List Bool) → length k ≡ n → m (not (bit (key_of t) s) ∷ k) ≡ 0)
      → bool_eq (bit (key_of t) s) (bit key s) ≡ false
      → Agree s (key_of t) key
      → Outcome c
          (suc n)
          s
          key
          (if v == 0 then some t else some (part c t key v s))
          (written key s (suc n) v m)
  differs-Outcome n s t m key v q h z ne a = elim (Bool-cases (v == 0)) [
    | inl e ↦ rw e (
      Holds-ext c _ (skip (bit (key_of t) s) refl h z)
          (λ k l. written_same key s (suc n) v m k (λ p. empty_there k (ground arith) p)),
      a,
    )
    | inr e ↦ rw e (part-Outcome c n s t m key v q h z ne a (ground arith))
  ]
    where
      parted : bit key s ≡ not (bit (key_of t) s)
      parted = ground (arith, ne)

      empty_there :
          (k : List Bool) → v ≡ 0 → bits_eq (key_bits_from key s (suc n)) k ≡ true → m k ≡ v
      empty_there k e p =
          ap m (sym (bits_eq→eq _ k p) ∙ bits_step key s n)
          ∙ rw parted (z (key_bits_from key (suc s) n) (length-key_bits_from key (suc s) n) ∙ sym e)

  Left_none :
      (n s key v : ℕ) (m : List Bool → Felt) (b : Bool) (k : List Bool)
      → bit key s ≡ b
      → ((j : List Bool) → length j ≡ n → written key (suc s) n v (λ i. m (b ∷ i)) j ≡ 0)
      → ((j : List Bool) → length j ≡ n → m (not b ∷ j) ≡ 0)
      → length k ≡ suc n
      → written key s (suc n) v m k ≡ 0
  Left_none n s key v m b [] e l z q = absurd (omega arith)
  Left_none n s key v m b (x ∷ j) e l z q = elim (Bool-cases (bool_eq x b)) [
    | inl p ↦ rw (bool_eq→eq x b p) (on_path key s n v m b j e ∙ l j (omega arith))
    | inr p ↦ rw (other x b p) (off_path key s n v m b j e ∙ z j (omega arith))
  ]
    where
      other : (x b : Bool) → bool_eq x b ≡ false → x ≡ not b
      other true false p = refl
      other false true p = refl
      other true true p = cc
      other false false p = cc

  same-Outcome :
      (n s : ℕ) (m : List Bool → Felt) (key v : ℕ) (b : Bool) (o : Option Node)
      → suc n + s ≡ 251
      → bit key s ≡ b
      → Outcome c n (suc s) key o (written key (suc s) n v (λ k. m (b ∷ k)))
      → ((k : List Bool) → length k ≡ n → m (not b ∷ k) ≡ 0)
      → Outcome c (suc n) s key o (written key s (suc n) v m)
  same-Outcome n s m key v b none q e l z = λ k w. Left_none n s key v m b k e l z w
  same-Outcome n s m key v b (some t) q e l z = (
    skip b (l.1 s (omega arith) ∙ e) (Holds-ext c _ l.0 (λ k x. on_path key s n v m b k e))
        (λ k x. off_path key s n v m b k e ∙ z k x),
    λ d x. l.1 d (omega arith),
  )

  -- the parts of a branch
  abbrev Parts : ℕ → ℕ → Node → Node → (List Bool → Felt) → Type 0
  Parts n s l r m =
      (bit (key_of l) s ≡ false)
      × (bit (key_of r) s ≡ true)
      × Agree s (key_of l) (key_of r)
      × Holds c n (suc s) l (λ k. m (false ∷ k))
      × Holds c n (suc s) r (λ k. m (true ∷ k))

  right_child-Outcome :
      (n s key v : ℕ) (l r : Node) (m : List Bool → Felt) (o : Option Node)
      → suc n + s ≡ 251
      → Parts n s l r m
      → bit key s ≡ true
      → Agree s (key_of l) key
      → Outcome c n (suc s) key o (written key (suc s) n v (λ k. m (true ∷ k)))
      → Outcome c
          (suc n)
          s
          key
          (elim o [ some r' ↦ some (branch_at c s l r') | none ↦ some l ])
          (written key s (suc n) v m)
  unfolding branch_at
  right_child-Outcome n s key v l r m none q (x, y, g, hl, hr) e a w = (
    skip false x (old_side c n s key v l true m e hl) (λ k p. on_path key s n v m true k e ∙ w k p),
    a,
  )
  right_child-Outcome n s key v l r m (some t) q (x, y, g, hl, hr) e a w = (
    branch_at-Holds c n s l t _ x (w.1 s (omega arith) ∙ e)
        (λ d p. a d p ∙ sym (w.1 d (omega arith))) (old_side c n s key v l true m e hl)
        (Holds-ext c _ w.0 (λ k p. on_path key s n v m true k e)),
    a,
  )

  left_child-Outcome :
      (n s key v : ℕ) (l r : Node) (m : List Bool → Felt) (o : Option Node)
      → suc n + s ≡ 251
      → Parts n s l r m
      → bit key s ≡ false
      → Agree s (key_of l) key
      → Outcome c n (suc s) key o (written key (suc s) n v (λ k. m (false ∷ k)))
      → Outcome c
          (suc n)
          s
          key
          (elim o [ some l' ↦ some (branch_at c s l' r) | none ↦ some r ])
          (written key s (suc n) v m)
  unfolding branch_at
  left_child-Outcome n s key v l r m none q (x, y, g, hl, hr) e a w = (
    skip true y (old_side c n s key v r false m e hr)
        (λ k p. on_path key s n v m false k e ∙ w k p),
    λ d p. sym (g d p) ∙ a d p,
  )
  left_child-Outcome n s key v l r m (some t) q (x, y, g, hl, hr) e a w = (
    branch_at-Holds c n s t r _ (w.1 s (omega arith) ∙ e) y
        (λ d p. w.1 d (omega arith) ∙ sym (a d p) ∙ g d p)
        (Holds-ext c _ w.0 (λ k p. on_path key s n v m false k e))
        (old_side c n s key v r false m e hr),
    λ d p. w.1 d (omega arith),
  )

  leaf-Outcome :
      (s key v : ℕ) (m : List Bool → Felt)
      → Outcome c 0 s key (if v == 0 then none else some (leaf key v)) (written key s 0 v m)
  unfolding key_bits_from bits_eq
  leaf-Outcome s key v m = elim (Bool-cases (v == 0)) [
    | inl e ↦ rw e (λ k l. nothing k l (ground arith))
    | inr e ↦ rw e (at_leaf (ground arith) refl, λ d p. refl)
  ]
    where
      nothing : (k : List Bool) → length k ≡ 0 → v ≡ 0 → written key s 0 v m k ≡ 0
      nothing [] l e = e
      nothing (x ∷ k) l e = absurd (omega arith)

  -- After a write the tree holds the map with the write.
  pub update-Outcome :
      {n s : ℕ} {t : Node} {m : List Bool → Felt} (key v : ℕ)
      → Holds c n s t m
      → n + s ≡ 251
      → Agree s (key_of t) key
      → Outcome c n s key (update c t key v s) (written key s n v m)
  unfolding update
  update-Outcome {s = s} {m = m} key v (at_leaf {key = k} {v = w} nz e) q a =
      rw (Outcome, update, no_difference k key s 251 (omega arith)) (leaf-Outcome s key v m)
  update-Outcome {m = m} key v (fork {n = n} {s = s} {l = l} {r = r} h x y g hl hr) q a =
      rw (Outcome, update, no_difference (key_of l) key s s refl)
        (elim (Bool-cases (bit key s)) [
          | inl e ↦ rw e (
              right_child-Outcome n s key v l r m _ q (x, y, g, hl, hr) e a
                (update-Outcome key v hr (omega arith)
                  (Agree-step s (key_of r) key (λ d p. sym (g d p) ∙ a d p) (y ∙ sym e))))
          | inr e ↦ rw e (
              left_child-Outcome n s key v l r m _ q (x, y, g, hl, hr) e a
                (update-Outcome key v hl (omega arith) (Agree-step s (key_of l) key a (x ∙ sym e))))
        ])
  update-Outcome {m = m} key v (skip {n = n} {s = s} {t = t} b x ht z) q a =
      let d = Holds-depth c ht (omega arith) in
      elim (Bool-cases (bool_eq (bit (key_of t) s) (bit key s))) [
        | inl e ↦
            let same = bool_eq→eq (bit (key_of t) s) (bit key s) e in
            rw (update_same t key v s (omega (arith, d.0)) same) (
              same-Outcome n s m key v b _ q (sym same ∙ x)
                (update-Outcome key v ht (omega arith) (Agree-step s (key_of t) key a same)) z)
        | inr e ↦
            rw (update_differs t key v s (omega (arith, d.0)) e)
              (differs-Outcome n s t m key v q (rw x ht) (rw x z) e a)
      ]
