-- ===== src/Crypto/KdfParams.antt =====
-- packages/crypto/src/kdf-params.ts and kdf.ts. Argon2id (libsodium's `crypto_pwhash`) is a
-- parameter.
pub mod Limits
pub mod Policy
pub mod Derivation
mod Tests
use mathlib.Core.Bool.{◌&&◌}
use trominal.Shared.{
  ℕ, ◌*◌, ◌%◌, Bool, true, false, Option, some, List, [], ◌∷◌, Text, Bytes, codes, text_eq, ◌==◌,
  leb, length,
}
use trominal.Shared.Results.{Result, ok, ◌>>=◌, ◌>>◌, require}
use trominal.Json.{Number, nat, fraction, Value, number, string, object, Fields, keys, get}
use trominal.Json.Order.{sort}

pub record KdfParams : Type 0 where
  pub version : Number
  pub alg : Text
  pub memlimit : Number
  pub opslimit : Number
  pub salt_len : Number
  pub out_len : Number

abbrev pub argon2id : Text
argon2id = codes "argon2id"

abbrev pub default_kdf_params : KdfParams
default_kdf_params = record {
  version = nat 1;
  alg = argon2id;
  memlimit = nat (64 * 1024 * 1024);
  opslimit = nat 3;
  salt_len = nat 16;
  out_len = nat 32;
}

abbrev pub kdf_keys : List Text
kdf_keys =
    codes "alg"
    ∷ codes "memlimit"
    ∷ codes "opslimit"
    ∷ codes "out_len"
    ∷ codes "salt_len"
    ∷ codes "version"
    ∷ []

-- `===` between a number and a non-negative integer
abbrev pub number_is : Number → ℕ → Bool
number_is (nat n) k = n == k
number_is _ k = false

abbrev pub is_number_between : Number → ℕ → ℕ → Bool
is_number_between (nat n) lo hi = leb lo n && leb n hi
is_number_between _ lo hi = false

-- `isIntegerBetween`, on a property that may be missing
abbrev pub is_integer_between : Option Value → ℕ → ℕ → Bool
is_integer_between (some (number n)) lo hi = is_number_between n lo hi
is_integer_between _ lo hi = false

abbrev pub is_number : Option Value → ℕ → Bool
is_number (some (number n)) k = number_is n k
is_number _ k = false

abbrev pub is_string : Option Value → Text → Bool
is_string (some (string s)) t = text_eq s t
is_string _ t = false

-- `v.memlimit % 1024 === 0`
abbrev pub is_multiple : Option Value → ℕ → Bool
is_multiple (some (number (nat n))) k = n % k == 0
is_multiple _ k = false

-- `keys.length === KDF_KEYS.length && keys.every(…)`
abbrev pub texts_eq : List Text → List Text → Bool
texts_eq [] [] = true
texts_eq (s ∷ ss) (t ∷ ts) = text_eq s t && texts_eq ss ts
texts_eq _ _ = false

unfoldable pub is_kdf_params : Value → Bool
is_kdf_params (object v) =
    texts_eq (sort (keys v)) kdf_keys
    && is_number (get (codes "version") v) 1
    && is_string (get (codes "alg") v) argon2id
    && is_integer_between (get (codes "memlimit") v) Limits.memlimit_min Limits.memlimit_max
    && is_multiple (get (codes "memlimit") v) 1024
    && is_integer_between (get (codes "opslimit") v) Limits.opslimit_min Limits.opslimit_max
    && is_number (get (codes "salt_len") v) Limits.salt_len
    && is_number (get (codes "out_len") v) Limits.out_len
is_kdf_params _ = false

pub data Error : Type 0 where
  unsupported_params unsupported_alg salt_length : Error

unfoldable pub assert_kdf_params : Value → Result Error (Unit {0})
unfolding is_kdf_params
assert_kdf_params value = require (is_kdf_params value) unsupported_params

-- `ok` of `assertKdfResourceLimits`
abbrev pub within_limits : KdfParams → Bool
within_limits params =
    text_eq params.alg argon2id
    && number_is params.salt_len Limits.salt_len
    && number_is params.out_len Limits.out_len
    && is_number_between params.memlimit 1 Limits.memlimit_max
    && is_number_between params.opslimit 1 Limits.opslimit_max

unfoldable pub assert_kdf_resource_limits : KdfParams → Result Error (Unit {0})
assert_kdf_resource_limits params = require (within_limits params) unsupported_params

-- `crypto_pwhash` for Argon2id: output length, password, salt, operations, memory.
abbrev pub Argon2id : Type 0
Argon2id = Number → Text → Bytes → Number → Number → Bytes

unfoldable pub derive_vault_key : Argon2id → Text → Bytes → KdfParams → Result Error Bytes
unfolding assert_kdf_resource_limits
derive_vault_key pwhash password salt params = do
  require (text_eq params.alg argon2id) unsupported_alg
  assert_kdf_resource_limits params
  require (number_is params.salt_len (length salt)) salt_length
  ok (pwhash params.out_len password salt params.opslimit params.memlimit)

-- The guard narrows `unknown` to `KdfParams`: the same object, its fields read under that type.
abbrev number_of : Option Value → Number
number_of (some (number n)) = n
number_of _ = fraction

abbrev text_of : Option Value → Text
text_of (some (string s)) = s
text_of _ = []

unfoldable pub as_kdf_params : Fields → KdfParams
as_kdf_params v = record {
  version = number_of (get (codes "version") v);
  alg = text_of (get (codes "alg") v);
  memlimit = number_of (get (codes "memlimit") v);
  opslimit = number_of (get (codes "opslimit") v);
  salt_len = number_of (get (codes "salt_len") v);
  out_len = number_of (get (codes "out_len") v);
}
