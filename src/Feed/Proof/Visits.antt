-- ===== src/Feed/Proof/Visits.antt =====
-- What a round of the walk has checked when it goes on or ends without an error.
use strk20_indexer.Prelude.{
  ℕ, ◌+◌, ◌-◌, ◌≤◌, ◌≡◌, ◌≢◌, not, inl, inr, arith, ◌==◌, leb, if◌then◌else◌, Bool-cases,
  Option-cases, ==_iff, leb→le,
}
use strk20_indexer.Feed.Error.{ok, >>=-eq-ok, ensure-eq-ok}
use strk20_indexer.Feed.Felt.{Felt, Crypto, felt_from_hex}
use strk20_indexer.Feed.Mpt.{tree_height, key_bit, fits_in_bits, binary_hash, edge_hash}
use strk20_indexer.Feed.Proof.{
  ProofNodeBody, binary, edge, non_member, Nodes, Visit, done, next, diverges, get_node, visit,
  round,
}

module _ (c : Crypto) (key cur depth : ℕ) where
  pub data Visited (v : Visit) : Type 0 where
    at_empty : cur ≡ 0 → v ≡ done non_member → Visited v
    at_binary :
        (l r : Felt)
        → cur ≢ 0
        → binary_hash c l r ≡ cur
        → v ≡ next (if key_bit key depth then r else l) (depth + 1)
        → Visited v
    at_edge :
        (path len child : ℕ)
        → cur ≢ 0
        → 1 ≤ len
        → len ≤ tree_height - depth
        → edge_hash c child path len ≡ cur
        → v ≡ (
            if diverges path len key depth 0 len then done non_member else next child (depth + len))
        → Visited v

  visit-Visited :
      (body : ProofNodeBody) {v : Visit} → cur ≢ 0 → visit c key cur depth body ≡ ok v → Visited v
  unfolding visit
  visit-Visited (binary left right) n h =
      let (l, _, h1) = >>=-eq-ok (felt_from_hex c left) _ h in
      let (r, _, h2) = >>=-eq-ok (felt_from_hex c right) _ h1 in
      let (e, h3) = ensure-eq-ok (binary_hash c l r == cur) _ _ h2 in
      at_binary l r n ((==_iff _ _).0 e) (cc)
  visit-Visited (edge path len child) n h =
      let (p, _, h1) = >>=-eq-ok (felt_from_hex c path) _ h in
      let (d, _, h2) = >>=-eq-ok (felt_from_hex c child) _ h1 in
      let (e1, h3) = ensure-eq-ok (not (len == 0)) _ _ h2 in
      let (e2, h4) = ensure-eq-ok (leb len (tree_height - depth)) _ _ h3 in
      let (e3, h5) = ensure-eq-ok (fits_in_bits p len) _ _ h4 in
      let (e4, h6) = ensure-eq-ok (edge_hash c d p len == cur) _ _ h5 in
      at_edge p len d n (ground arith) (leb→le _ _ e2) ((==_iff _ _).0 e4) (cc)

  pub round-Visited :
      (by_hash : Nodes) {v : Visit} → round c by_hash key cur depth ≡ ok v → Visited v
  unfolding round
  round-Visited by_hash h = elim (Bool-cases (cur == 0)) [
    | inl e ↦ at_empty ((==_iff _ _).0 e) (cc (rw e at h))
    | inr e ↦ elim (Option-cases (get_node by_hash cur)) [
      | inl q ↦ absurd (cc (rw (e, q) at h))
      | inr (body, q) ↦ visit-Visited body (ground arith) (rw (e, q) at h)
    ]
  ]
