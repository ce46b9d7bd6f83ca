-- ===== src/Crypto/Der.antt =====
-- The DER writer of packages/crypto/src/openssh.ts.
pub mod Reading
use Prim.Native.Nat.{bit_or}
use trominal.Shared.{ℕ, zero, suc, ◌/◌, ◌%◌, [], ◌∷◌, List, Bytes, ltb, length, if◌then◌else◌}
use trominal.Crypto.Wire.{concat, trim_leading_zeros, unsigned}

-- `while (remaining > 0)`: `remaining` falls each round, so `remaining` rounds are enough.
unfoldable pub length_bytes : ℕ → ℕ → Bytes → Bytes
length_bytes zero remaining bytes = bytes
length_bytes (suc rounds) remaining bytes =
    let rest = length_bytes rounds (remaining / 256) ((remaining % 256) ∷ bytes) in
    if ltb 0 remaining then rest else bytes

-- The length of an array is never negative, so the first guard of `derLength` does not fire.
unfoldable pub der_length : ℕ → Bytes
der_length n =
    if ltb n 0x80
    then n ∷ []
    else let bytes = length_bytes n n [] in bit_or 0x80 (length bytes) ∷ bytes

unfoldable pub der_value : ℕ → Bytes → Bytes
unfolding concat
der_value tag value = concat ((tag ∷ []) ∷ der_length (length value) ∷ value ∷ [])

unfoldable pub der_integer : Bytes → Bytes
der_integer bytes = der_value 0x02 (unsigned (trim_leading_zeros bytes))

unfoldable pub der_sequence : List Bytes → Bytes
unfolding concat
der_sequence parts = der_value 0x30 (concat parts)
