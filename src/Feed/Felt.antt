-- ===== src/Feed/Felt.antt =====
-- Field elements, and what the feed crate takes from `starknet_types_core` and `starknet_crypto`.
--
-- A `Felt` is its canonical integer. `to_bytes_be` is its big-endian form of 32 bytes, so the order
-- of the byte arrays is the order of the integers, and byte `31 - k` is `byte f k`.
use strk20_indexer.Prelude.{ℕ, ◌/◌, ◌%◌, ◌^◌, Bool, Option, none, some, List, String, ◌==◌}
use strk20_indexer.Feed.Error.{Result, ok, err, bad_felt}

abbrev pub Felt : Type 0
Felt = ℕ

-- third-party functions, of which nothing is assumed here
pub record Crypto : Type 0 where
  pub pedersen_hash : Felt → Felt → Felt
  pub poseidon_hash_many : List Felt → Felt
  -- `Felt + Felt`, in the field
  pub add : Felt → Felt → Felt
  -- `Felt::from_hex`
  pub from_hex : String → Option Felt

-- `f.to_bytes_be()[31 - k]`
unfoldable pub byte : Felt → ℕ → ℕ
byte f k = f / 256 ^ k % 256

-- `(bytes[31 - i / 8] >> (i % 8)) & 1 == 1`
unfoldable pub bit_at : Felt → ℕ → Bool
unfolding byte
bit_at f i = byte f (i / 8) / 2 ^ (i % 8) % 2 == 1

unfoldable pub felt_from_hex : Crypto → String → Result Felt
felt_from_hex c s = elim (c.from_hex s) [ none ↦ err (bad_felt s) | some f ↦ ok f ]
