-- ===== src/Indexer/Config.antt =====
-- The chain profiles and the epoch arithmetic of crates/indexerd/src/config.rs, with the wrap-around
-- of a release build.
pub mod Covers
use strk20_indexer.Prelude.{
  ℕ, ◌+◌, ◌-◌, ◌*◌, ◌/◌, ◌%◌, ◌^◌, Option, none, some, List, [], ◌∷◌, String, ◌==◌, if◌then◌else◌,
}
use strk20_indexer.Feed.Felt.{Felt, Crypto}
use strk20_indexer.Consumer.Reply.{panicked, Reply, done, failed, with_value}

abbrev pub mainnet_pool : String
mainnet_pool = "0x040337b1af3c663e86e333bab5a4b28da8d4652a15a69beee2b677776ffe812a"

abbrev pub mainnet_genesis_block : ℕ
mainnet_genesis_block = 8978970

abbrev pub mainnet_epoch_size : ℕ
mainnet_epoch_size = 10000

abbrev pub mainnet_class_v1 : String
mainnet_class_v1 = "0x30b8c540cf04d8ef0f4db2a9098d9cc0e35e83af1cb3325f5a4f40144b4b30b"

abbrev pub mainnet_class_v2 : String
mainnet_class_v2 = "0x67dddd89d80fedadc06b6f160798f94800a4a70164e5a24301cd0d6076b554d"

abbrev pub sepolia_pool : String
sepolia_pool = "0x0254a6b2997ef52e9f830ce1f543f6b29768295e8d17e2267d672c552cfe0d91"

abbrev pub sepolia_genesis_block : ℕ
sepolia_genesis_block = 8271125

-- with the version that the loop of `sepolia` gives each
abbrev pub sepolia_classes : List (String × String)
sepolia_classes =
    ("0x715b22abfb60815623f4127ba64bd2f93613d8a5c1e519841eaab444659d2af", "sepolia-v0")
    ∷ ("0x30b8c540cf04d8ef0f4db2a9098d9cc0e35e83af1cb3325f5a4f40144b4b30b", "sepolia-v1")
    ∷ ("0x1a78d2daee64d1da6e7903b32676c92fcc301d4c03f688cd64e731f46033d18", "sepolia-v2")
    ∷ ("0x67dddd89d80fedadc06b6f160798f94800a4a70164e5a24301cd0d6076b554d", "sepolia-v3")
    ∷ ("0x56ab118a8a6e38efc93ad758cefe909fee421fa931ce3cf72df624d345623b2", "sepolia-v4")
    ∷ ("0x7e2bbd7ccc1e68b2695caef70aeb2a3be6cd017b5d5159278ba08f2d8de33f", "sepolia-v5")
    ∷ []

pub data Network : Type 0 where
  mainnet sepolia : Network

-- the decoder map as the list of its insertions
pub record ChainConfig : Type 0 where
  pub chain_id : String
  pub pool : Felt
  pub genesis_block : ℕ
  pub epoch_size : ℕ
  pub decoder_map : List (Felt × String)

-- `Felt::from_hex(s).unwrap()`
unwrap_hex : Crypto → String → Reply Felt
unwrap_hex c s = elim (c.from_hex s) [ none ↦ failed panicked | some f ↦ done f ]

decoders : Crypto → List (String × String) → Reply (List (Felt × String))
unfolding unwrap_hex
decoders c [] = done []
decoders c (x ∷ r) =
    with_value (unwrap_hex c x.0) λ f. with_value (decoders c r) λ rest. done ((f, x.1) ∷ rest)

unfoldable pub mainnet_config : Crypto → Reply ChainConfig
unfolding unwrap_hex decoders
mainnet_config c =
    with_value (decoders c ((mainnet_class_v1, "v1") ∷ (mainnet_class_v2, "v2") ∷ []))
      λ decoder_map. with_value (unwrap_hex c mainnet_pool) λ pool. done (record {
        chain_id = "SN_MAIN";
        pool = pool;
        genesis_block = mainnet_genesis_block;
        epoch_size = mainnet_epoch_size;
        decoder_map = decoder_map;
      })

unfoldable pub sepolia_config : Crypto → Reply ChainConfig
unfolding unwrap_hex decoders
sepolia_config c = with_value (decoders c sepolia_classes) λ decoder_map.
    with_value (unwrap_hex c sepolia_pool) λ pool. done (record {
      chain_id = "SN_SEPOLIA";
      pool = pool;
      genesis_block = sepolia_genesis_block;
      epoch_size = mainnet_epoch_size;
      decoder_map = decoder_map;
    })

unfoldable pub profile : Crypto → Network → Reply ChainConfig
profile c mainnet = mainnet_config c
profile c sepolia = sepolia_config c

-- a division by zero panics
unfoldable pub epoch_of : ChainConfig → ℕ → Reply ℕ
epoch_of cfg block = if cfg.epoch_size == 0 then failed panicked else done (block / cfg.epoch_size)

unfoldable pub epoch_range : ChainConfig → ℕ → ℕ × ℕ
epoch_range cfg idx = (
  idx * cfg.epoch_size % 2 ^ 64,
  ((idx + 1) % 2 ^ 64 * cfg.epoch_size % 2 ^ 64 + (2 ^ 64 - 1)) % 2 ^ 64,
)

unfoldable pub first_epoch : ChainConfig → Reply ℕ
first_epoch cfg = epoch_of cfg cfg.genesis_block
