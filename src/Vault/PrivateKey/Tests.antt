-- ===== src/Vault/PrivateKey/Tests.antt =====
-- Runs of unlocking on the toy cipher, and its properties at concrete inputs.
use trominal.Shared.{
  [], ◌∷◌, none, some, Text, Bytes, codes, replicate, ◌≡◌, ◌≢◌, ◌⊎◌, ◌*◌, ap, refl, In,
}
use trominal.Shared
use trominal.Shared.Results.{ok, err}
use trominal.Json
use trominal.Json.{nat, Value, number, string, object, field, end}
use trominal.Json.Order
use trominal.Crypto.Toy.{toy, toy-IsCodec, toy-IsCorrect, toy-IsAuthentic}
use trominal.Crypto.KdfParams
use trominal.Crypto.KdfParams.{Argon2id}
use trominal.Crypto.Envelope
use trominal.Crypto.Envelope.{Envelope, sealed_envelope, encrypt}
use trominal.Session.VaultStore.{UserVaultMaterial}
use trominal.Vault.PrivateKey.{
  PrivateKeyOwner, user_private_key_ad, legacy_user_private_key_ad, stored_envelope,
  seal_user_private_key, no_material, incorrect_password, Unlocked, Attempt, derived_key, unlock,
}
use trominal.Vault.PrivateKey.Unlocking.{
  unlock_keeps_or_wipes, unlock_binds, unlock-seal_user_private_key, unlock-legacy,
}

-- A stand-in for Argon2id: the first byte of the password, 32 times.
abbrev pwhash : Argon2id
pwhash out_len (c ∷ password) salt opslimit memlimit = replicate 32 c
pwhash out_len [] salt opslimit memlimit = replicate 32 0

abbrev params : Value
params = object (
    field (codes "version") (number (nat 1)) (
      field (codes "alg") (string (codes "argon2id")) (
        field (codes "memlimit") (number (nat (64 * 1024 * 1024))) (
          field (codes "opslimit") (number (nat 3)) (
            field (codes "salt_len") (number (nat 16))
              (field (codes "out_len") (number (nat 32)) end))))))

abbrev owner : PrivateKeyOwner
owner = record { id = codes "7"; email = codes "a@b.c" }

abbrev vault_key : Bytes
vault_key = replicate 32 b's'

abbrev private_key : Bytes
private_key = replicate 32 3

abbrev fresh : Bytes
fresh = replicate 24 1

abbrev material_for : Text → UserVaultMaterial
material_for ad = record {
  kdf_salt = replicate 16 5;
  kdf_params = params;
  private_key_ciphertext = (sealed_envelope toy private_key vault_key ad fresh).ct;
  private_key_nonce = fresh;
  vault_version = none;
}

abbrev material : UserVaultMaterial
material = material_for (codes "trominal:v1:user_private_key:7")

abbrev legacy_material : UserVaultMaterial
legacy_material = material_for (codes "trominal:v1:user_private_key:a@b.c")

derived : derived_key toy pwhash (codes "secret") (some material) ≡ ok (material, vault_key)
unfolding derived_key KdfParams.is_kdf_params KdfParams.derive_vault_key
    KdfParams.assert_kdf_resource_limits KdfParams.as_kdf_params Order.sort Order.text_le Json.get
    Json.keys Shared.text_eq
derived = refl

derived_legacy :
    derived_key toy pwhash (codes "secret") (some legacy_material) ≡ ok (legacy_material, vault_key)
unfolding derived_key KdfParams.is_kdf_params KdfParams.derive_vault_key
    KdfParams.assert_kdf_resource_limits KdfParams.as_kdf_params Order.sort Order.text_le Json.get
    Json.keys Shared.text_eq
derived_legacy = refl

sealed :
    seal_user_private_key toy fresh private_key vault_key (codes "7")
    ≡ ok (stored_envelope material)
unfolding seal_user_private_key user_private_key_ad Envelope.make_ad encrypt
sealed = refl

legacy_ad : legacy_user_private_key_ad owner.email ≡ ok (codes "trominal:v1:user_private_key:a@b.c")
unfolding legacy_user_private_key_ad Envelope.make_ad
legacy_ad = refl

legacy_sealed :
    encrypt toy private_key vault_key (codes "trominal:v1:user_private_key:a@b.c") fresh
    ≡ ok (stored_envelope legacy_material)
unfolding encrypt
legacy_sealed = refl

apart : codes "7" ≢ codes "a@b.c"
apart e = cc e

no_material_run : (unlock toy pwhash fresh (codes "x") owner none).result ≡ err no_material
unfolding unlock derived_key
no_material_run = refl

unlock_keeps_or_wipes_example :
    let attempt = unlock toy pwhash fresh (codes "secret") owner (some material) in
    ((u : Unlocked) × (attempt.result ≡ ok u) × (u.key ≡ vault_key))
    ⊎ ((attempt.result ≡ err incorrect_password) × In vault_key attempt.wiped)
unlock_keeps_or_wipes_example =
    unlock_keeps_or_wipes toy pwhash fresh (codes "secret") owner (some material) derived

unlock-seal_user_private_key_example :
    unlock toy pwhash fresh (codes "secret") owner (some material)
    ≡ record { result = ok (record { key = vault_key; rebound = none }); wiped = private_key ∷ [] }
unlock-seal_user_private_key_example =
    unlock-seal_user_private_key toy toy-IsCodec toy-IsCorrect pwhash fresh fresh (codes "secret")
      owner material private_key vault_key refl derived sealed

unlock-legacy_run : unlock toy pwhash fresh (codes "secret") owner (some legacy_material) ≡ record {
  result = ok (record { key = vault_key; rebound = some (stored_envelope material) });
  wiped = private_key ∷ [];
}
unlock-legacy_run =
    unlock-legacy toy toy-IsCodec toy-IsCorrect pwhash fresh fresh (codes "secret") owner
      legacy_material private_key vault_key (codes "trominal:v1:user_private_key:a@b.c")
      (stored_envelope material) toy-IsAuthentic apart refl derived_legacy legacy_ad legacy_sealed
      sealed

unlocked_run :
    (unlock toy pwhash fresh (codes "secret") owner (some material)).result
    ≡ ok (record { key = vault_key; rebound = none })
unlocked_run =
    ap (λ (a : Attempt). a.result)
      (unlock-seal_user_private_key toy toy-IsCodec toy-IsCorrect pwhash fresh fresh
        (codes "secret") owner material private_key vault_key refl derived sealed)

unlock_binds_example :
    (derived_key toy pwhash (codes "secret") (some material) ≡ ok (material, vault_key))
    × (vault_key ≡ vault_key)
unlock_binds_example =
    unlock_binds toy toy-IsCodec toy-IsCorrect toy-IsAuthentic pwhash fresh fresh (codes "secret")
      owner material private_key vault_key (codes "7") sealed unlocked_run
