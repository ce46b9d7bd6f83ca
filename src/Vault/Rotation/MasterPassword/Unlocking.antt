-- ===== src/Vault/Rotation/MasterPassword/Unlocking.antt =====
-- What a change of the master password leaves behind (apps/client/src/features/vault/rotation.ts).
use trominal.Shared.{
  ℕ, true, false, Bool-cases, ◌&&◌, List, [], ◌∷◌, Option, none, some, Text, Bytes, codes, text_eq,
  text_eq_iff, length, ◌≡◌, inl, inr, refl, sym, ap, ◌∙◌, subst, and_true, arith,
}
use trominal.Shared.Results.{Result, ok, err, ◌>>=◌, >>=-eq-ok}
use trominal.Json.{Value, null, boolean, array, string, number, object, Fields, get}
use trominal.Crypto.Sodium.{Sodium, IsCodec, IsCorrect}
use trominal.Crypto.KdfParams
use trominal.Crypto.KdfParams.{
  Argon2id, argon2id, is_kdf_params, is_string, derive_vault_key, as_kdf_params,
}
use trominal.Crypto.Envelope.{Envelope, encrypt}
use trominal.Crypto.Envelope.RoundTrip.{encrypt-eq-ok}
use trominal.Session.VaultStore.{UserVaultMaterial}
use trominal.Vault.Records.{RecordResult}
use trominal.Vault.PrivateKey.{
  user_private_key_ad, OpenedPrivateKey, open_user_private_key, seal_user_private_key, is_bootstrap,
  derived_key, unlock,
}
use trominal.Vault.PrivateKey.Unlocking.{unlock-seal_user_private_key}
use trominal.Vault.Rotation.{MasterPasswordChangeItem, thrown}
use trominal.Vault.Rotation.MasterPassword.{
  MasterPasswordChangeRequest, RotationApi, Fresh, RotateMasterPasswordInput, RotateError,
  RotationResult, derived, refusing, finished, answered, re_encrypt_all, request_of, prepared,
  submitted, with_new_key, new_key, with_private_key, with_current_key, current_key,
  rotate_master_password, rotated_resource_types,
}

-- What the server stores for a request, under some version.
abbrev pub stored_material : MasterPasswordChangeRequest → Option ℕ → UserVaultMaterial
stored_material request version = record {
  kdf_salt = request.new_kdf_salt;
  kdf_params = object request.new_kdf_params;
  private_key_ciphertext = request.private_key_ciphertext;
  private_key_nonce = request.private_key_nonce;
  vault_version = version;
}

no_bootstrap : (alg : Option Value) → is_string alg argon2id ≡ true → is_bootstrap alg ≡ false
unfolding text_eq
no_bootstrap none h = absurd (cc h)
no_bootstrap (some (string s)) h =
    subst (λ t. text_eq t (codes "temporary-filament-bootstrap") ≡ false)
      (sym ((text_eq_iff s argon2id).0 h)) refl
no_bootstrap (some null) h = refl
no_bootstrap (some (boolean b)) h = refl
no_bootstrap (some (number n)) h = refl
no_bootstrap (some (array vs)) h = refl
no_bootstrap (some (object fs)) h = refl

supported_alg :
    (v : Fields) → is_kdf_params (object v) ≡ true → is_string (get (codes "alg") v) argon2id ≡ true
unfolding is_kdf_params
supported_alg v h = ground arith

derived-eq-ok : (r : Result KdfParams.Error Bytes) {key : Bytes} → derived r ≡ ok key → r ≡ ok key
derived-eq-ok (ok k) h = cc h
derived-eq-ok (err e) h = absurd (cc h)

refusing-eq-ok : {A : Type 0} (r : RecordResult A) {a : A} → refusing (thrown r) ≡ ok a → r ≡ ok a
refusing-eq-ok (ok b) h = cc h
refusing-eq-ok (err e) h = absurd (cc h)

finished-request :
    (private_key current new : Bytes) (request : Option MasterPasswordChangeRequest)
    (r : Result RotateError RotationResult)
    → (finished private_key current new request r).request ≡ request
finished-request private_key current new request (ok a) = refl
finished-request private_key current new request (err e) = refl

module _ (sodium : Sodium) (pwhash : Argon2id) (api : RotationApi) (fresh : Fresh)
    (input : RotateMasterPasswordInput) where
  submitted-request :
      (private_key current new : Bytes) (r : Result RotateError MasterPasswordChangeRequest)
      {request : MasterPasswordChangeRequest}
      → (submitted sodium pwhash api fresh input private_key current new r).request ≡ some request
      → r ≡ ok request
  submitted-request private_key current new (err e) h = absurd (cc h)
  submitted-request private_key current new (ok q) h =
      let same =
        finished-request private_key current new (some q)
          (answered new q (api.change_master_password q)) in
      cc (same, h)

  -- What a request is made of.
  abbrev pub Sent : MasterPasswordChangeRequest → Type 0
  Sent request =
      (current : Bytes) × (new : Bytes) × (opened : OpenedPrivateKey) × (current_key sodium pwhash
          api fresh input
        ≡ ok current)
      × (open_user_private_key sodium input.material current input.owner ≡ ok opened)
      × (new_key sodium pwhash api fresh input ≡ ok new)
      × (prepared sodium pwhash api fresh input opened.private_key current new ≡ ok request)

  with_new_key-Sent :
      (current : Bytes) (opened : OpenedPrivateKey) (new : Result RotateError Bytes)
      {request : MasterPasswordChangeRequest}
      → current_key sodium pwhash api fresh input ≡ ok current
      → open_user_private_key sodium input.material current input.owner ≡ ok opened
      → new_key sodium pwhash api fresh input ≡ new
      → (with_new_key sodium pwhash api fresh input opened.private_key current new).request
        ≡ some request
      → Sent request
  with_new_key-Sent current opened (err e) c o n h = absurd (cc h)
  with_new_key-Sent current opened (ok new) c o n h =
      (current, new, opened, c, o, n, submitted-request opened.private_key current new _ h)

  with_private_key-Sent :
      (current : Bytes) (opened : RecordResult OpenedPrivateKey)
      {request : MasterPasswordChangeRequest}
      → current_key sodium pwhash api fresh input ≡ ok current
      → open_user_private_key sodium input.material current input.owner ≡ opened
      → (with_private_key sodium pwhash api fresh input current opened).request ≡ some request
      → Sent request
  with_private_key-Sent current (err e) c o h = absurd (cc h)
  with_private_key-Sent current (ok opened) c o h =
      with_new_key-Sent current opened (new_key sodium pwhash api fresh input) c o refl h

  with_current_key-Sent :
      (current : Result RotateError Bytes) {request : MasterPasswordChangeRequest}
      → current_key sodium pwhash api fresh input ≡ current
      → (with_current_key sodium pwhash api fresh input current).request ≡ some request
      → Sent request
  with_current_key-Sent (err e) c h = absurd (cc h)
  with_current_key-Sent (ok current) c h =
      with_private_key-Sent current
        (open_user_private_key sodium input.material current input.owner) c refl h

  pub rotate_master_password-Sent :
      {request : MasterPasswordChangeRequest}
      → (rotate_master_password sodium pwhash api fresh input).request ≡ some request
      → (is_kdf_params (object input.params) ≡ true) × Sent request
  unfolding rotate_master_password
  rotate_master_password-Sent h =
      elim (Bool-cases
        (is_kdf_params input.material.kdf_params && is_kdf_params (object input.params))) [
          | inl e ↦ (
            (and_true e).1,
            with_current_key-Sent (current_key sodium pwhash api fresh input) refl
                (rw (e, rotate_master_password) at h),
          )
          | inr e ↦ absurd (cc (rw (e, rotate_master_password) at h))
        ]

  pub prepared-canary :
      (private_key current new : Bytes) {request : MasterPasswordChangeRequest}
      → prepared sodium pwhash api fresh input private_key current new ≡ ok request
      → (canary : Envelope) × (items : List MasterPasswordChangeItem) × (seal_user_private_key
            sodium fresh.private_key_nonce private_key new input.owner.id
          ≡ ok canary)
        × (re_encrypt_all sodium pwhash api fresh input current new rotated_resource_types
            ≡ ok items)
        × (request ≡ request_of sodium pwhash api fresh input canary items)
  prepared-canary private_key current new h =
      let (items, all, rest) =
        >>=-eq-ok (re_encrypt_all sodium pwhash api fresh input current new rotated_resource_types)
          (λ items.
            refusing (
              thrown (
                seal_user_private_key sodium fresh.private_key_nonce private_key new
                  input.owner.id))
            >>= λ canary. ok (request_of sodium pwhash api fresh input canary items))
          h in
      let (canary, sealed, done) =
        >>=-eq-ok
          (refusing (
            thrown (
              seal_user_private_key sodium fresh.private_key_nonce private_key new input.owner.id)))
          (λ canary. ok (request_of sodium pwhash api fresh input canary items)) rest in
      (canary, items, refusing-eq-ok _ sealed, all, cc done)

  module _ (codec : IsCodec sodium) (correct : IsCorrect sodium) where
    derived_key-stored :
        {new : Bytes} (canary : Envelope) (items : List MasterPasswordChangeItem)
        (version : Option ℕ)
        → is_kdf_params (object input.params) ≡ true
        → new_key sodium pwhash api fresh input ≡ ok new
        → let material =
            stored_material (request_of sodium pwhash api fresh input canary items) version in
          derived_key sodium pwhash input.new_master_password (some material) ≡ ok (material, new)
    unfolding derived_key
    derived_key-stored {new} canary items version supported n =
        let e =
          derived-eq-ok
            (derive_vault_key pwhash input.new_master_password fresh.salt
              (as_kdf_params input.params))
            n in
        rw (no_bootstrap (get (codes "alg") input.params) (supported_alg input.params supported))
          (rw supported (ground (arith, codec.from_base64-to_base64 fresh.salt)))

    seal-stored :
        (fresh_nonce private_key key : Bytes) (id : Text) {canary : Envelope}
        → seal_user_private_key sodium fresh_nonce private_key key id ≡ ok canary
        → seal_user_private_key sodium fresh_nonce private_key key id
          ≡ ok (record { v = 1; ct = canary.ct; n = canary.n })
    unfolding seal_user_private_key
    seal-stored fresh_nonce private_key key id {canary} h =
        let (ad, made, sealed) =
          >>=-eq-ok (user_private_key_ad id) (λ ad. encrypt sodium private_key key ad fresh_nonce)
            h in
        let (_, same) = encrypt-eq-ok sodium codec private_key key fresh_nonce ad sealed in
        let as_read : record { v = 1; ct = canary.ct; n = canary.n } ≡ canary = rw same refl in
        h ∙ ap ok (sym as_read)

    -- If a change of the master password gets as far as the request, the material that the server
    -- stores for it is unlocked by the new password, with the new key and without another upload, and
    -- it holds the private key that the old password opened, if the nonce has 24 bytes.
    pub unlock-rotate_master_password :
        {request : MasterPasswordChangeRequest} (fresh' : Bytes) (version : Option ℕ)
        → length fresh.private_key_nonce ≡ 24
        → (rotate_master_password sodium pwhash api fresh input).request ≡ some request
        → (current : Bytes) × (new : Bytes) × (opened : OpenedPrivateKey) × (current_key sodium
              pwhash api fresh input
            ≡ ok current)
          × (open_user_private_key sodium input.material current input.owner ≡ ok opened)
          × (new_key sodium pwhash api fresh input ≡ ok new)
          × (unlock sodium pwhash fresh' input.new_master_password input.owner
                (some (stored_material request version))
              ≡ record {
                result = ok (record { key = new; rebound = none });
                wiped = opened.private_key ∷ [];
              })
    unlock-rotate_master_password {request} fresh' version size h =
        let (supported, (current, new, opened, c, o, n, built)) = rotate_master_password-Sent h in
        let (canary, items, sealed, all, done) =
          prepared-canary opened.private_key current new built in
        (
          current,
          new,
          opened,
          c,
          o,
          n,
          rw done (
              unlock-seal_user_private_key sodium codec correct pwhash fresh.private_key_nonce
                fresh' input.new_master_password input.owner
                (stored_material (request_of sodium pwhash api fresh input canary items) version)
                opened.private_key new size (derived_key-stored canary items version supported n)
                (seal-stored fresh.private_key_nonce opened.private_key new input.owner.id sealed)),
        )
