-- ===== src/Vault/Ids/Tests.antt =====
-- An id of a concrete time and concrete bytes (apps/client/src/features/vault/ids.ts).
use trominal.Shared.{◌<◌, ℕ, Bytes, codes, replicate, length, All, ◌≡◌, refl, arith}
use trominal.Vault.Ids
use trominal.Vault.Ids.{new_vault_id}
use trominal.Vault.Ids.Unique.{IsDigit, new_vault_id-IsUlid, new_vault_id_injective}

abbrev now : ℕ
now = 1469918176385

abbrev random : Bytes
random = replicate 10 255

id_run : new_vault_id now random ≡ codes "01ARYZ6S41ZZZZZZZZZZZZZZZZ"
unfolding new_vault_id Ids.encode_from
id_run = refl

new_vault_id-IsUlid_example :
    (length (new_vault_id now random) ≡ 26) × All IsDigit (new_vault_id now random)
new_vault_id-IsUlid_example = new_vault_id-IsUlid now random

small : All (λ b. b < 256) random
small = (
  omega arith,
  (
    omega arith,
    (
      omega arith,
      (
        omega arith,
        (
          omega arith,
          (omega arith, (omega arith, (omega arith, (omega arith, (omega arith, tt))))),
        ),
      ),
    ),
  ),
)

new_vault_id_injective_example : (now ≡ now) × (random ≡ random)
new_vault_id_injective_example =
    new_vault_id_injective now now random random (omega arith) (omega arith) refl refl small small
      refl
