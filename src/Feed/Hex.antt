-- ===== src/Feed/Hex.antt =====
-- `felt_hex` of crates/feed/src/lib.rs.
use Prim.Native.Char.{code}
use Prim.Native.String.{◌++◌ as str_append}
use strk20_indexer.Prelude.{ℕ, zero, suc, [], ◌∷◌, String, ◌==◌, str_eq, if◌then◌else◌}
use strk20_indexer.Feed.Felt.{Felt, byte}
use strk20_indexer.Feed.Host.{Bytes, Host}

-- `f.to_bytes_be()`: the last `n` bytes
unfoldable pub bytes_be : ℕ → Felt → Bytes
bytes_be zero f = []
bytes_be (suc n) f = byte f n ∷ bytes_be n f

unfoldable pub trim_zeros : String → String
trim_zeros String.[] = ""
trim_zeros (String.◌∷◌ ch s) =
    let rest = trim_zeros s in if code ch == 48 then rest else String.◌∷◌ ch s

unfoldable pub felt_hex : Host → Felt → String
unfolding bytes_be trim_zeros
felt_hex h f =
    let trimmed = trim_zeros (h.hex_encode (bytes_be 32 f)) in
    if str_eq trimmed "" then "0x0" else str_append "0x" trimmed
