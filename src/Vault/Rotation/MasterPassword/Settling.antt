-- ===== src/Vault/Rotation/MasterPassword/Settling.antt =====
-- What becomes of the keys in a change of the master password
-- (apps/client/src/features/vault/rotation.ts).
use trominal.Shared.{true, [], ◌∷◌, Option, none, some, Bytes, ◌≡◌, ◌⊎◌, inl, inr, refl, ap, In}
use trominal.Shared.Results.{Result, ok, err}
use trominal.Json.{object}
use trominal.Crypto.Sodium.{Sodium}
use trominal.Crypto.KdfParams.{Argon2id, is_kdf_params}
use trominal.Vault.PrivateKey.{OpenedPrivateKey, open_user_private_key}
use trominal.Vault.Rotation.MasterPassword.{
  MasterPasswordChangeRequest, MasterPasswordChangeResponse, RotationApi, Fresh,
  RotateMasterPasswordInput, RotateError, RotationResult, Rotation, finished, answered, prepared,
  submitted, new_key, current_key, rotate_master_password,
}

-- The current key and the private key are zeroed, and the new key is handed over or zeroed.
abbrev pub IsSettled : (private_key current new : Bytes) → Rotation → Type 0
IsSettled private_key current new rotation =
    In current rotation.wiped
    × In private_key rotation.wiped
    × (((r : RotationResult) × (rotation.result ≡ ok r)
          × (r.key ≡ new)
          × (rotation.wiped ≡ private_key ∷ current ∷ []))
        ⊎ ((e : RotateError) × (rotation.result ≡ err e) × In new rotation.wiped))

unfoldable key_of : Result RotateError RotationResult → Option Bytes
key_of (ok r) = some r.key
key_of (err e) = none

answered-key :
    (new : Bytes) (request : MasterPasswordChangeRequest) (r : RotationResult)
    (response : Option MasterPasswordChangeResponse)
    → answered new request response ≡ ok r
    → r.key ≡ new
unfolding key_of
answered-key new request r none h = absurd (cc h)
answered-key new request r (some response) h = cc (ap key_of h)

finished-IsSettled :
    (private_key current new : Bytes) (request : Option MasterPasswordChangeRequest)
    (r : Result RotateError RotationResult)
    → ((a : RotationResult) → r ≡ ok a → a.key ≡ new)
    → IsSettled private_key current new (finished private_key current new request r)
finished-IsSettled private_key current new request (ok a) k =
    (inr (inl refl), inl refl, inl (a, refl, k a refl, refl))
finished-IsSettled private_key current new request (err e) k =
    (inr (inl refl), inl refl, inr (e, refl, inr (inr (inl refl))))

module _ (sodium : Sodium) (pwhash : Argon2id) (api : RotationApi) (fresh : Fresh)
    (input : RotateMasterPasswordInput) where
  submitted-IsSettled :
      (private_key current new : Bytes) (r : Result RotateError MasterPasswordChangeRequest)
      → IsSettled private_key current new
          (submitted sodium pwhash api fresh input private_key current new r)
  submitted-IsSettled private_key current new (err e) =
      finished-IsSettled private_key current new none (err e) (λ a h. absurd (cc h))
  submitted-IsSettled private_key current new (ok request) =
      finished-IsSettled private_key current new (some request)
        (answered new request (api.change_master_password request))
        (λ a h. answered-key new request a (api.change_master_password request) h)

  -- When the keys could be derived and the private key opened, the current key and the private key are
  -- zeroed however the change of the master password ends; the new key is zeroed if it fails, and
  -- handed over, not zeroed, if it succeeds.
  pub rotate_master_password-IsSettled :
      {current new : Bytes} {opened : OpenedPrivateKey}
      → is_kdf_params input.material.kdf_params ≡ true
      → is_kdf_params (object input.params) ≡ true
      → current_key sodium pwhash api fresh input ≡ ok current
      → open_user_private_key sodium input.material current input.owner ≡ ok opened
      → new_key sodium pwhash api fresh input ≡ ok new
      → IsSettled opened.private_key current new
          (rotate_master_password sodium pwhash api fresh input)
  unfolding rotate_master_password
  rotate_master_password-IsSettled {current} {new} {opened} h k c o n =
      rw (h, rotate_master_password)
        (rw k (
          rw c (
            rw o (
              rw n (
                submitted-IsSettled opened.private_key current new
                  (prepared sodium pwhash api fresh input opened.private_key current new))))))
