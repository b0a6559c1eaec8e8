-- ===== src/Indexer/Recovery/Named.antt =====
-- The text of a divergence names it.
use Prim.Native.Char.{code}
use Prim.Native.String.{◌++◌ as str_append}
use text.Mathlib.TextLemmas.{nil-append, cons-append}
use strk20_indexer.Prelude.{
  ℕ, zero, suc, ◌≤◌, ◌≡◌, refl, ◌∙◌, ap, inl, inr, false, some, List, [], ◌∷◌, String, ◌==◌, str_eq,
  Bool-cases,
}
use strk20_indexer.Feed.Felt.{Felt, Crypto, felt_from_hex}
use strk20_indexer.Feed.Host.{Bytes, Host}
use strk20_indexer.Feed.Decimal.{decimal, spell, digit_char}
use strk20_indexer.Feed.Hex.{felt_hex, trim_zeros, bytes_be}
use strk20_indexer.Consumer.Number.{u64_max, parse_u64-decimal}
use strk20_indexer.Indexer.Recovery.{
  Divergence, fingerprint, split_colon, parse_parts, parse_divergence,
}

-- a text without a colon
abbrev pub IsPlain : String → Type 0
IsPlain String.[] = Unit
IsPlain (String.◌∷◌ ch s) = ((code ch == 58) ≡ false) × IsPlain s

split_colon-plain : (a : String) → IsPlain a → split_colon a ≡ a ∷ []
unfolding split_colon
split_colon-plain String.[] p = refl
split_colon-plain (String.◌∷◌ ch a) p = rw (p.0, split_colon-plain a p.1) refl

split_colon-append :
    (a b : String) → IsPlain a → split_colon (str_append a (String.◌∷◌ ":" b)) ≡ a ∷ split_colon b
unfolding split_colon
split_colon-append String.[] b p = rw (nil-append (String.◌∷◌ ":" b), split_colon) refl
split_colon-append (String.◌∷◌ ch a) b p =
    rw (cons-append ch a (String.◌∷◌ ":" b), split_colon, p.0, split_colon-append a b p.1) refl

digit_char-plain : (d : ℕ) → (code (digit_char d) == 58) ≡ false
unfolding digit_char
digit_char-plain zero = refl
digit_char-plain (suc zero) = refl
digit_char-plain (suc (suc zero)) = refl
digit_char-plain (suc (suc (suc zero))) = refl
digit_char-plain (suc (suc (suc (suc zero)))) = refl
digit_char-plain (suc (suc (suc (suc (suc zero))))) = refl
digit_char-plain (suc (suc (suc (suc (suc (suc zero)))))) = refl
digit_char-plain (suc (suc (suc (suc (suc (suc (suc zero))))))) = refl
digit_char-plain (suc (suc (suc (suc (suc (suc (suc (suc zero)))))))) = refl
digit_char-plain (suc (suc (suc (suc (suc (suc (suc (suc (suc n))))))))) = refl

spell-IsPlain : (ds : List ℕ) → IsPlain (spell ds)
unfolding spell
spell-IsPlain [] = tt
spell-IsPlain (d ∷ ds) = (digit_char-plain d, spell-IsPlain ds)

decimal-IsPlain : (n : ℕ) → IsPlain (decimal n)
unfolding decimal
decimal-IsPlain n = spell-IsPlain _

trim_zeros-IsPlain : (t : String) → IsPlain t → IsPlain (trim_zeros t)
unfolding trim_zeros
trim_zeros-IsPlain String.[] p = tt
trim_zeros-IsPlain (String.◌∷◌ ch t) p = elim (Bool-cases (code ch == 48)) [
  | inl x ↦ rw (trim_zeros, x) (trim_zeros-IsPlain t p.1)
  | inr x ↦ rw (trim_zeros, x) p
]

after_prefix : (t : String) → str_append "0x" t ≡ String.◌∷◌ "0" (String.◌∷◌ "x" t)
after_prefix t =
    cons-append "0" "x" t
    ∙ ap (String.◌∷◌ "0") (cons-append "x" "" t ∙ ap (String.◌∷◌ "x") (nil-append t))

felt_hex-IsPlain :
    (h : Host) (f : Felt) → ((b : Bytes) → IsPlain (h.hex_encode b)) → IsPlain (felt_hex h f)
unfolding felt_hex
felt_hex-IsPlain h f p = elim (Bool-cases (str_eq (trim_zeros (h.hex_encode (bytes_be 32 f))) "")) [
  | inl x ↦ rw (felt_hex, x) (refl, (refl, (refl, tt)))
  | inr x ↦ rw (felt_hex, x, after_prefix _) (refl, (refl, trim_zeros-IsPlain _ (p _)))
]

-- The text that the record keeps of a divergence is read back as that divergence. The block is a
-- `u64`, the hexadecimal digits hold no colon, and the hexadecimal forms of the two roots are read back.
pub parse_divergence-fingerprint :
    (c : Crypto) (h : Host) (d : Divergence)
    → ((b : Bytes) → IsPlain (h.hex_encode b))
    → d.block ≤ u64_max
    → c.from_hex (felt_hex h d.local_root) ≡ some d.local_root
    → c.from_hex (felt_hex h d.chain_root) ≡ some d.chain_root
    → parse_divergence c (fingerprint h d) ≡ some d
unfolding parse_divergence fingerprint felt_from_hex
parse_divergence-fingerprint c h d p b l r =
    rw
      (
        parse_divergence,
        split_colon-append (decimal d.block) _ (decimal-IsPlain d.block),
        split_colon-append (felt_hex h d.local_root) (felt_hex h d.chain_root)
            (felt_hex-IsPlain h d.local_root p),
        split_colon-plain (felt_hex h d.chain_root) (felt_hex-IsPlain h d.chain_root p),
        parse_parts,
        parse_u64-decimal d.block b,
        felt_from_hex,
        l,
        r,
      )
      refl
