-- ===== src/Vault/Ids.antt =====
-- apps/client/src/features/vault/ids.ts: the ids of new rows. The clock and the random bytes are
-- arguments.
pub mod Unique
mod Tests
use trominal.Shared.{
  ℕ, zero, suc, ◌+◌, ◌*◌, ◌/◌, ◌%◌, [], ◌∷◌, ◌++◌, Text, Bytes, codes, get_elem?, get_or_else,
}

abbrev pub crockford : Text
crockford = codes "0123456789ABCDEFGHJKMNPQRSTVWXYZ"

abbrev pub digit : ℕ → ℕ
digit value = get_or_else (get_elem? crockford value) 0

-- The loop, with what is left of the value and the output so far.
unfoldable pub encode_from : ℕ → ℕ → Text → Text
encode_from zero current output = output
encode_from (suc length) current output =
    encode_from length (current / 32) (digit (current % 32) ∷ output)

abbrev pub encode_base32 : ℕ → ℕ → Text
encode_base32 value length = encode_from length value []

-- `(acc << 8n) | BigInt(byte)`, as a byte is below 256.
abbrev pub big_int_from : ℕ → Bytes → ℕ
big_int_from acc [] = acc
big_int_from acc (byte ∷ bytes) = big_int_from (acc * 256 + byte) bytes

unfoldable pub new_vault_id : ℕ → Bytes → Text
unfolding encode_from
new_vault_id now random = encode_base32 now 10 ++ encode_base32 (big_int_from 0 random) 16
