-- ===== src/Feed/Manifest/Chain.antt =====
-- What an accepted chain of epochs is: every payload is the one that the manifest names, and every
-- header names the payload before it.
use strk20_indexer.Prelude.{
  ◌≡◌, refl, ◌∙◌, ap, true, ◌&&◌, Option, none, some, List, [], ◌∷◌, String, ◌==◌, ==_iff, str_eq,
  eq_iff, arith,
}
use strk20_indexer.Feed.Error.{Result, ok, >>=-eq-ok, ensure-eq-ok}
use strk20_indexer.Feed.Felt.{Felt, Crypto}
use strk20_indexer.Feed.Host.{Bytes, Host, Json}
use strk20_indexer.Feed.Codec.{Epoch}
use strk20_indexer.Feed.Codec.Parse.{parse_epoch}
use strk20_indexer.Feed.Manifest.{
  ManifestEpoch, bytes_eq, hash_eq, verify_epoch_binding, verify_epoch_against_manifest,
  verify_chain_from, verify_chain,
}

pub bytes_eq_refl : (a : Bytes) → bytes_eq a a ≡ true
unfolding bytes_eq
bytes_eq_refl [] = refl
bytes_eq_refl (x ∷ xs) = ground (arith, bytes_eq_refl xs)

pub bytes_eq→eq : (a b : Bytes) → bytes_eq a b ≡ true → a ≡ b
unfolding bytes_eq
bytes_eq→eq [] [] h = refl
bytes_eq→eq [] (y ∷ ys) h = absurd (cc)
bytes_eq→eq (x ∷ xs) [] h = absurd (cc)
bytes_eq→eq (x ∷ xs) (y ∷ ys) h = ground (arith, bytes_eq→eq xs ys)

pub hash_eq→eq : (a b : Option Bytes) → hash_eq a b ≡ true → a ≡ b
unfolding hash_eq
hash_eq→eq none none h = refl
hash_eq→eq none (some b) h = absurd (cc)
hash_eq→eq (some a) none h = absurd (cc)
hash_eq→eq (some a) (some b) h = ap some (bytes_eq→eq a b h)

cons_inj {ℓ} :
    {A : Type ℓ} {x y : A} {xs ys : List A}
    → ◌≡◌ {A = Result (List A)} (ok (x ∷ xs)) (ok (y ∷ ys))
    → (x ≡ y) × (xs ≡ ys)
cons_inj q = ((cc), cc)

-- An epoch accepted under its chain and pool names both.
pub verify_epoch_binding_lem :
    (e : Epoch) (chain_id : String) (pool : Felt)
    → verify_epoch_binding e chain_id pool ≡ ok tt
    → (e.header.chain_id ≡ chain_id) × (e.header.pool ≡ pool)
unfolding verify_epoch_binding
verify_epoch_binding_lem e chain_id pool q =
    let (e1, q1) = ensure-eq-ok (str_eq e.header.chain_id chain_id) _ _ q in
    let (e2, q2) = ensure-eq-ok (e.header.pool == pool) _ _ q1 in
    ((eq_iff _ _).0 e1, (==_iff _ _).0 e2)

module _ {Value : Type 0} (c : Crypto) (h : Host) (j : Json Value) where
  -- what the check of one epoch establishes
  pub record IsNamed (entry : ManifestEpoch) (payload : Bytes) (prev : Option Bytes) (epoch : Epoch)
      : Type 0 where
    pub content : h.hex_encode (h.payload_sha256 payload) ≡ entry.hash
    pub parsed : parse_epoch c h j payload ≡ ok epoch
    pub index : epoch.header.epoch ≡ entry.e
    pub start : epoch.header.from ≡ entry.from
    pub end : epoch.header.to ≡ entry.to
    pub link : epoch.header.prev ≡ prev

  -- The check of an epoch accepts only a payload whose hash is that of the manifest entry and that
  -- decodes to an epoch with the index and the range of the entry and the link `prev`.
  pub verify_epoch-IsNamed :
      (payload : Bytes) (entry : ManifestEpoch) (prev : Option Bytes) (epoch : Epoch)
      → verify_epoch_against_manifest c h j payload entry prev ≡ ok epoch
      → IsNamed entry payload prev epoch
  unfolding verify_epoch_against_manifest
  verify_epoch-IsNamed payload entry prev epoch q =
      let (e1, q1) =
        ensure-eq-ok (str_eq (h.hex_encode (h.payload_sha256 payload)) entry.hash) _ _ q in
      let (ep, p, q2) = >>=-eq-ok (parse_epoch c h j payload) _ q1 in
      let (e3, q3) =
        ensure-eq-ok
          (ep.header.epoch == entry.e && ep.header.from == entry.from && ep.header.to == entry.to) _
          _ q2 in
      let (e4, q4) = ensure-eq-ok (hash_eq ep.header.prev prev) _ _ q3 in
      let same : ep ≡ epoch = cc in
      rw (← same) (record {
        content = (eq_iff _ _).0 e1;
        parsed = p;
        index = ground arith;
        start = ground arith;
        end = ground arith;
        link = hash_eq→eq _ _ e4;
      })

  abbrev pub IsChain : Option Bytes → List (ManifestEpoch × Bytes) → List Epoch → Type 0
  IsChain prev [] [] = Unit
  IsChain prev [] (e ∷ es) = ⊥
  IsChain prev (x ∷ r) [] = ⊥
  IsChain prev ((entry, payload) ∷ r) (e ∷ es) =
      IsNamed entry payload prev e × IsChain (some (h.payload_sha256 payload)) r es

  pub verify_chain_from-IsChain :
      (prev : Option Bytes) (items : List (ManifestEpoch × Bytes)) (es : List Epoch)
      → verify_chain_from c h j prev items ≡ ok es
      → IsChain prev items es
  unfolding verify_chain_from
  verify_chain_from-IsChain prev [] [] q = tt
  verify_chain_from-IsChain prev [] (e ∷ es) q = cc
  verify_chain_from-IsChain prev ((entry, payload) ∷ r) [] q =
      let (ep, p, q1) = >>=-eq-ok (verify_epoch_against_manifest c h j payload entry prev) _ q in
      let (rest, p2, q2) =
        >>=-eq-ok (verify_chain_from c h j (some (h.payload_sha256 payload)) r) _ q1 in
      cc
  verify_chain_from-IsChain prev ((entry, payload) ∷ r) (e ∷ es) q =
      let (ep, p, q1) = >>=-eq-ok (verify_epoch_against_manifest c h j payload entry prev) _ q in
      let (rest, p2, q2) =
        >>=-eq-ok (verify_chain_from c h j (some (h.payload_sha256 payload)) r) _ q1 in
      let (same, others) = cons_inj q2 in
      (
        verify_epoch-IsNamed payload entry prev e (p ∙ ap ok same),
        verify_chain_from-IsChain (some (h.payload_sha256 payload)) r es (p2 ∙ ap ok others),
      )

  -- An accepted chain: each payload hashes to its manifest entry, each header carries the range of
  -- the entry and the hash of the payload before it, and the first has none before it.
  pub verify_chain-IsChain :
      (items : List (ManifestEpoch × Bytes)) (es : List Epoch)
      → verify_chain c h j items ≡ ok es
      → IsChain none items es
  unfolding verify_chain
  verify_chain-IsChain items es q = verify_chain_from-IsChain none items es q
