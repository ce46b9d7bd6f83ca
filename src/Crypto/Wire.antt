-- ===== src/Crypto/Wire.antt =====
-- The byte-level helpers of packages/crypto/src/openssh.ts. A byte array is a list of numbers
-- below 256.
pub mod Reading
use Prim.Native.Nat.{bit_and}
use trominal.Shared.{
  ℕ, zero, suc, ◌+◌, ◌-◌, ◌/◌, ◌%◌, ◌^◌, Bool, false, not, List, [], ◌∷◌, ◌++◌, Bytes, ◌==◌, length,
  if◌then◌else◌,
}

-- `DataView.setUint32`, big-endian, keeps the value modulo 2 ^ 32.
unfoldable pub uint32 : ℕ → Bytes
uint32 value =
    let v = value % 2 ^ 32 in (v / 2 ^ 24) ∷ (v / 2 ^ 16 % 256) ∷ (v / 2 ^ 8 % 256) ∷ (v % 256) ∷ []

-- The parts one after another in an array of their total length.
unfoldable pub concat : List Bytes → Bytes
concat [] = []
concat (part ∷ parts) = part ++ concat parts

unfoldable pub ssh_string : Bytes → Bytes
unfolding concat
ssh_string bytes = concat (uint32 (length bytes) ∷ bytes ∷ [])

-- The loop stops before the last byte.
unfoldable pub trim_leading_zeros : Bytes → Bytes
trim_leading_zeros [] = []
trim_leading_zeros (b ∷ []) = b ∷ []
trim_leading_zeros (b ∷ c ∷ rest) = if b == 0 then trim_leading_zeros (c ∷ rest) else b ∷ c ∷ rest

-- `bytes.length > 0 && (bytes[0] & 0x80) !== 0`
abbrev pub has_top_bit : Bytes → Bool
has_top_bit [] = false
has_top_bit (b ∷ rest) = not (bit_and b 0x80 == 0)

-- A zero byte in front of a number whose top bit is set, as `sshMpint` and `derInteger` put it.
unfoldable pub unsigned : Bytes → Bytes
unfolding concat
unsigned normalized =
    if has_top_bit normalized then concat ((0 ∷ []) ∷ normalized ∷ []) else normalized

unfoldable pub ssh_mpint : Bytes → Bytes
ssh_mpint bytes = ssh_string (unsigned (trim_leading_zeros bytes))

-- `padding[index] = index + 1`, as the element of a `Uint8Array`
unfoldable pub padding_from : ℕ → ℕ → Bytes
padding_from index zero = []
padding_from index (suc left) = ((index + 1) % 256) ∷ padding_from (index + 1) left

unfoldable pub pad_to_block_size : Bytes → ℕ → Bytes
unfolding concat
pad_to_block_size bytes block_size =
    let padding_length = (block_size - length bytes % block_size) % block_size in
    concat (bytes ∷ padding_from 0 padding_length ∷ [])
