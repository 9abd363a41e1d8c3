-- ===== src/Sha256/Padding.antt =====
-- The digest is that of the padded message, block by block, as FIPS 180-4 has it.
use showmesh_fpp_plugin.Base.{ℕ, zero, suc, ◌-◌, ◌*◌, ◌/◌, ◌%◌, ◌^◌, [], ◌∷◌, ◌++◌, length, Bytes}
use showmesh_fpp_plugin.Json.Number.{take, drop}
use showmesh_fpp_plugin.Sha256.{
  Words, Sha256, block_length, compress, length_bytes, output, initial,
}

-- Zeros as bytes.
unfoldable pub blanks : ℕ → Bytes
blanks zero = []
blanks (suc n) = 0 ∷ blanks n

-- 0x80, zeros up to 56 bytes of the last block, and the length in bits.
unfoldable pub padding : ℕ → Bytes
padding n = 0x80 ∷ (blanks ((119 - n % 64) % 64) ++ length_bytes (n * 8 % 2 ^ 64))

unfoldable pub hash_blocks : ℕ → Words → Bytes → Words
hash_blocks zero v bytes = v
hash_blocks (suc n) v bytes =
    hash_blocks n (compress v (take block_length bytes)) (drop block_length bytes)

unfoldable pub digest : Bytes → Bytes
digest message =
    let padded = message ++ padding (length message) in
    output (hash_blocks (length padded / 64) initial padded)
