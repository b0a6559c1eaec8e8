-- ===== src/Feed/Manifest/Pinned.antt =====
-- The hash of the last epoch pins every epoch before it.
use strk20_indexer.Prelude.{
  ◌≡◌, ◌≢◌, ◌⊎◌, refl, sym, ◌∙◌, ap, ap₂, false, inl, inr, Option, none, some, List, [], ◌∷◌,
  String, length, arith, Bool-cases,
}
use strk20_indexer.Feed.Error.{ok}
use strk20_indexer.Feed.Felt.{Crypto}
use strk20_indexer.Feed.Host.{Bytes, Host, Json}
use strk20_indexer.Feed.Codec.{Epoch}
use strk20_indexer.Feed.Codec.Parse.{parse_epoch}
use strk20_indexer.Feed.Manifest.{ManifestEpoch, bytes_eq, verify_chain}
use strk20_indexer.Feed.Manifest.Chain.{
  IsNamed, IsChain, bytes_eq→eq, bytes_eq_refl, verify_chain-IsChain,
}

-- two payloads with the same hex digest
pub record DigestCollision (h : Host) : Type 0 where
  pub first : Bytes
  pub second : Bytes
  pub differ : first ≢ second
  pub same : h.hex_encode (h.payload_sha256 first) ≡ h.hex_encode (h.payload_sha256 second)

pub digest_binds :
    (h : Host) (a b : Bytes)
    → h.hex_encode (h.payload_sha256 a) ≡ h.hex_encode (h.payload_sha256 b)
    → (a ≡ b) ⊎ DigestCollision h
digest_binds h a b q = elim (Bool-cases (bytes_eq a b)) [
  | inl e ↦ inl (bytes_eq→eq a b e)
  | inr e ↦ inr (record { first = a; second = b; differ = apart e; same = q })
]
  where
    apart : bytes_eq a b ≡ false → a ≢ b
    apart e d = cc (bytes_eq_refl a)

-- the hash of the last entry
abbrev pub last_hash : List (ManifestEpoch × Bytes) → String
last_hash [] = ""
last_hash ((entry, payload) ∷ []) = entry.hash
last_hash (x ∷ y ∷ r) = last_hash (y ∷ r)

abbrev pub payloads : List (ManifestEpoch × Bytes) → List Bytes
payloads [] = []
payloads ((entry, payload) ∷ r) = payload ∷ payloads r

some_inj : {a b : Bytes} → some a ≡ some b → a ≡ b
some_inj q = cc

module _ {Value : Type 0} (c : Crypto) (h : Host) (j : Json Value) where
  same_prev :
      {x y : ManifestEpoch} {p q : Bytes} {u v : Option Bytes} {d e : Epoch}
      → IsNamed c h j x p u d
      → IsNamed c h j y q v e
      → p ≡ q
      → u ≡ v
  same_prev {p} {q} {d} {e} a b s =
      sym a.link ∙ (cc (a.parsed, b.parsed, b.link, ap (parse_epoch c h j) s))

  pinned :
      (u v : Option Bytes) (xs ys : List (ManifestEpoch × Bytes)) (ds es : List Epoch)
      → xs ≢ []
      → length xs ≡ length ys
      → IsChain c h j u xs ds
      → IsChain c h j v ys es
      → last_hash xs ≡ last_hash ys
      → ((u ≡ v) × (payloads xs ≡ payloads ys)) ⊎ DigestCollision h
  pinned u v [] ys ds es n l a b q = absurd (n refl)
  pinned u v (x ∷ xs) [] ds es n l a b q = absurd (omega arith)
  pinned u v (x ∷ xs) (y ∷ ys) [] es n l a b q = absurd a
  pinned u v (x ∷ xs) (y ∷ ys) (d ∷ ds) [] n l a b q = absurd b
  pinned u v ((x, p) ∷ []) ((y, r) ∷ []) (d ∷ ds) (e ∷ es) n l a b q =
      elim (digest_binds h p r (a.0.content ∙ q ∙ sym b.0.content)) [
        | inr k ↦ inr k
        | inl s ↦ inl (same_prev a.0 b.0 s, ap (λ (t : Bytes). t ∷ []) s)
      ]
  pinned u v (x ∷ []) (y ∷ z ∷ ys) ds es n l a b q = absurd (omega arith)
  pinned u v (x ∷ z ∷ xs) (y ∷ []) ds es n l a b q = absurd (omega arith)
  pinned u v ((x, p) ∷ x2 ∷ xs) ((y, r) ∷ y2 ∷ ys) (d ∷ ds) (e ∷ es) n l a b q =
      elim (pinned (some (h.payload_sha256 p)) (some (h.payload_sha256 r)) (x2 ∷ xs) (y2 ∷ ys) ds es
        (λ k. cc) (omega arith) a.1 b.1 q) [
          | inr k ↦ inr k
          | inl (w, t) ↦ elim (digest_binds h p r (ap h.hex_encode (some_inj w))) [
            | inr k ↦ inr k
            | inl s ↦ inl (same_prev a.0 b.0 s, ap₂ (λ (m : Bytes) (o : List Bytes). m ∷ o) s t)
          ]
        ]

  -- Two accepted chains of the same length, not empty, whose last manifest entries carry the same
  -- hash consist of the same payloads, or two payloads with the same digest are at hand.
  pub verify_chain_pinned :
      (xs ys : List (ManifestEpoch × Bytes)) (ds es : List Epoch)
      → xs ≢ []
      → length xs ≡ length ys
      → verify_chain c h j xs ≡ ok ds
      → verify_chain c h j ys ≡ ok es
      → last_hash xs ≡ last_hash ys
      → (payloads xs ≡ payloads ys) ⊎ DigestCollision h
  verify_chain_pinned xs ys ds es n l a b q =
      elim (pinned none none xs ys ds es n l (verify_chain-IsChain c h j xs ds a)
        (verify_chain-IsChain c h j ys es b) q) [ inl w ↦ inl w.1 | inr k ↦ inr k ]
