-- ===== src/Vault/PrivateKey/Unlocking.antt =====
-- Which password unlocks a vault, and what becomes of the secrets on the way
-- (apps/client/src/stores/vault.ts and features/vault/private-key.ts).
use trominal.Shared.{
  true, false, Bool-cases, [], ◌∷◌, Option, none, some, Text, Bytes, codes, length, ◌≡◌, ◌≢◌, ◌⊎◌,
  inl, inr, refl, sym, ap, ◌∙◌, arith, In,
}
use trominal.Shared.Results.{Result, ok, err, >>=-eq-ok}
use trominal.Crypto.Sodium.{Sodium, IsCodec, IsCorrect, IsAuthentic}
use trominal.Crypto.KdfParams.{Argon2id}
use trominal.Crypto.Envelope
use trominal.Crypto.Envelope.{Envelope, encrypt, decrypt}
use trominal.Crypto.Envelope.Binding.{make_ad-eq-ok, append_cancel_left}
use trominal.Crypto.Envelope.RoundTrip.{decrypt-encrypt, decrypt_binds}
use trominal.Session.VaultStore.{UserVaultMaterial}
use trominal.Vault.PrivateKey.{
  PrivateKeyOwner, OpenedPrivateKey, user_private_key_ad, legacy_user_private_key_ad,
  stored_envelope, open_under, open_user_private_key, seal_user_private_key, incorrect_password,
  Unlocked, derived_key, verified, unlock,
}

Result-cases : {E A : Type 0} (r : Result E A) → ((a : A) × (r ≡ ok a)) ⊎ ((e : E) × (r ≡ err e))
Result-cases (ok a) = inl (a, refl)
Result-cases (err e) = inr (e, refl)

module _ (sodium : Sodium) (pwhash : Argon2id) where
  verified_keeps_or_wipes :
      (fresh : Bytes) (owner : PrivateKeyOwner) (key : Bytes) (opened : OpenedPrivateKey)
      → let attempt = verified sodium pwhash fresh owner key opened in
        ((u : Unlocked) × (attempt.result ≡ ok u) × (u.key ≡ key))
        ⊎ ((attempt.result ≡ err incorrect_password) × In key attempt.wiped)
  verified_keeps_or_wipes fresh owner key opened = elim (Bool-cases opened.legacy) [
    | inr modern ↦ rw modern (inl (_, refl, refl))
    | inl legacy ↦
        rw legacy
          (elim (Result-cases
            (seal_user_private_key sodium fresh opened.private_key key owner.id)) [
              | inl (envelope, e) ↦ rw e (inl (_, refl, refl))
              | inr (e, h) ↦ rw h (inr (refl, inr (inl refl)))
            ])
  ]

  -- A key that was derived is either the one that the vault is unlocked with, or the password counts
  -- as wrong and the key's buffer is zeroed.
  pub unlock_keeps_or_wipes :
      (fresh : Bytes) (password : Text) (owner : PrivateKeyOwner)
      (material : Option UserVaultMaterial) {m : UserVaultMaterial} {key : Bytes}
      → derived_key sodium pwhash password material ≡ ok (m, key)
      → let attempt = unlock sodium pwhash fresh password owner material in
        ((u : Unlocked) × (attempt.result ≡ ok u) × (u.key ≡ key))
        ⊎ ((attempt.result ≡ err incorrect_password) × In key attempt.wiped)
  unfolding unlock
  unlock_keeps_or_wipes fresh password owner material {m} {key} derived =
      rw (derived, unlock)
        (elim (Result-cases (open_user_private_key sodium m key owner)) [
          | inl (opened, e) ↦ rw e (verified_keeps_or_wipes fresh owner key opened)
          | inr (e, h) ↦ rw h (inr (refl, inl refl))
        ])

module _ (sodium : Sodium) (codec : IsCodec sodium) (correct : IsCorrect sodium) where
  open_under-seal :
      (fresh private_key vault_key : Bytes) (material : UserVaultMaterial)
      (made : Result Envelope.Error Text) (ad : Text)
      → length fresh ≡ 24
      → made ≡ ok ad
      → encrypt sodium private_key vault_key ad fresh ≡ ok (stored_envelope material)
      → open_under sodium material vault_key made ≡ ok private_key
  open_under-seal fresh private_key vault_key material made ad size e sealed =
      rw e (decrypt-encrypt sodium codec private_key vault_key fresh ad correct size sealed)

  -- What was sealed for a user id opens for that user, under the same key, and is not a legacy one.
  open_user_private_key-seal :
      (fresh private_key vault_key : Bytes) (owner : PrivateKeyOwner) (material : UserVaultMaterial)
      → length fresh ≡ 24
      → seal_user_private_key sodium fresh private_key vault_key owner.id
        ≡ ok (stored_envelope material)
      → open_user_private_key sodium material vault_key owner
        ≡ ok (record { private_key = private_key; legacy = false })
  unfolding seal_user_private_key open_user_private_key
  open_user_private_key-seal fresh private_key vault_key owner material size h =
      let (ad, made, sealed) =
        >>=-eq-ok (user_private_key_ad owner.id)
          (λ ad. encrypt sodium private_key vault_key ad fresh) h in
      rw
        (
          open_under-seal fresh private_key vault_key material (user_private_key_ad owner.id) ad
              size made sealed,
          open_user_private_key,
        )
        refl

  module _ (authentic : IsAuthentic sodium) where
    open_under_binds :
        (fresh private_key vault_key key : Bytes) (material : UserVaultMaterial) (ad : Text)
        (made : Result Envelope.Error Text) {opened : Bytes}
        → encrypt sodium private_key vault_key ad fresh ≡ ok (stored_envelope material)
        → open_under sodium material key made ≡ ok opened
        → (made ≡ ok ad) × (key ≡ vault_key) × (opened ≡ private_key)
    open_under_binds fresh private_key vault_key key material ad made {opened} sealed h =
        let (ad', e, opens) =
          >>=-eq-ok made (λ a. decrypt sodium (stored_envelope material) key a) h in
        let (ads, keys, same) =
          decrypt_binds sodium codec private_key vault_key fresh key opened ad ad' correct authentic
            sealed opens in
        (e ∙ ap ok (sym ads), sym keys, sym same)

    open_user_private_key_binds :
        (fresh private_key vault_key key : Bytes) (owner : PrivateKeyOwner)
        (material : UserVaultMaterial) (ad : Text) {opened : OpenedPrivateKey}
        → encrypt sodium private_key vault_key ad fresh ≡ ok (stored_envelope material)
        → open_user_private_key sodium material key owner ≡ ok opened
        → (key ≡ vault_key) × (opened.private_key ≡ private_key)
    unfolding open_user_private_key
    open_user_private_key_binds fresh private_key vault_key key owner material ad {opened} sealed
          h =
        elim (Result-cases (open_under sodium material key (user_private_key_ad owner.id))) [
          | inl (pk, e) ↦
              let (ads, keys, same) =
                open_under_binds fresh private_key vault_key key material ad
                  (user_private_key_ad owner.id) sealed e in
              let gives : record { private_key = pk; legacy = false } ≡ opened =
                cc (rw (e, open_user_private_key) at h) in
              (keys, ap (λ (o : OpenedPrivateKey). o.private_key) (sym gives) ∙ same)
          | inr (first, e) ↦
              elim (Result-cases
                (open_under sodium material key (legacy_user_private_key_ad owner.email))) [
                  | inl (pk, e') ↦
                      let (ads, keys, same) =
                        open_under_binds fresh private_key vault_key key material ad
                          (legacy_user_private_key_ad owner.email) sealed e' in
                      let gives : record { private_key = pk; legacy = true } ≡ opened =
                        cc (rw (e, e', open_user_private_key) at h) in
                      (keys, ap (λ (o : OpenedPrivateKey). o.private_key) (sym gives) ∙ same)
                  | inr (second, e') ↦ absurd (cc (rw (e, e', open_user_private_key) at h))
                ]
        ]

    derived_key-material :
        (pwhash : Argon2id) (password : Text) (material m : UserVaultMaterial) (key : Bytes)
        → derived_key sodium pwhash password (some material) ≡ ok (m, key)
        → m ≡ material
    unfolding derived_key
    derived_key-material pwhash password material m key d = ground arith

    unlocked_key :
        (pwhash : Argon2id) (fresh : Bytes) (password : Text) (owner : PrivateKeyOwner)
        (material : UserVaultMaterial) (u : Unlocked) {m : UserVaultMaterial} {key : Bytes}
        → derived_key sodium pwhash password (some material) ≡ ok (m, key)
        → (unlock sodium pwhash fresh password owner (some material)).result ≡ ok u
        → u.key ≡ key
    unlocked_key pwhash fresh password owner material u d unlocked =
        elim (unlock_keeps_or_wipes sodium pwhash fresh password owner (some material) d) [
          | inl (v, e, k) ↦
              let same : u ≡ v = cc (unlocked, e) in ap (λ (w : Unlocked). w.key) same ∙ k
          | inr (e, i) ↦ absurd (cc (unlocked, e))
        ]

    -- A vault whose private key was sealed under one key is unlocked by a password only if exactly
    -- that key is derived from it: a wrong password is refused, whatever email or user id is given.
    pub unlock_binds :
        (pwhash : Argon2id) (fresh fresh' : Bytes) (password : Text) (owner : PrivateKeyOwner)
        (material : UserVaultMaterial) (private_key vault_key : Bytes) (user_id : Text)
        {u : Unlocked}
        → seal_user_private_key sodium fresh private_key vault_key user_id
          ≡ ok (stored_envelope material)
        → (unlock sodium pwhash fresh' password owner (some material)).result ≡ ok u
        → (derived_key sodium pwhash password (some material) ≡ ok (material, vault_key))
          × (u.key ≡ vault_key)
    unfolding unlock seal_user_private_key
    unlock_binds pwhash fresh fresh' password owner material private_key vault_key user_id {u} h
          unlocked =
        let (ad, made, sealed) =
          >>=-eq-ok (user_private_key_ad user_id)
            (λ ad. encrypt sodium private_key vault_key ad fresh) h in
        elim (Result-cases (derived_key sodium pwhash password (some material))) [
          | inr (e, d) ↦ absurd (cc (rw (d, unlock) at unlocked))
          | inl ((m, key), d) ↦
              let same_m : m ≡ material = derived_key-material pwhash password material m key d in
              elim (Result-cases (open_user_private_key sodium m key owner)) [
                | inr (e, o) ↦ absurd (cc (rw (d, o, unlock) at unlocked))
                | inl (opened, o) ↦
                    let (same_key, _) =
                      open_user_private_key_binds fresh private_key vault_key key owner material ad
                        sealed (rw same_m at o) in
                    (
                      d ∙ ap ok (cc (same_m, same_key)),
                      unlocked_key pwhash fresh' password owner material u d unlocked ∙ same_key,
                    )
              ]
        ]

  -- The right password unlocks: if the private key was sealed for this user under the derived key,
  -- the vault is unlocked with that key, nothing is uploaded, and the decrypted private key is zeroed.
  pub unlock-seal_user_private_key :
      (pwhash : Argon2id) (fresh fresh' : Bytes) (password : Text) (owner : PrivateKeyOwner)
      (material : UserVaultMaterial) (private_key vault_key : Bytes)
      → length fresh ≡ 24
      → derived_key sodium pwhash password (some material) ≡ ok (material, vault_key)
      → seal_user_private_key sodium fresh private_key vault_key owner.id
        ≡ ok (stored_envelope material)
      → unlock sodium pwhash fresh' password owner (some material) ≡ record {
        result = ok (record { key = vault_key; rebound = none });
        wiped = private_key ∷ [];
      }
  unfolding unlock
  unlock-seal_user_private_key pwhash fresh fresh' password owner material private_key vault_key
        size derived sealed =
      rw (derived, unlock)
        (rw (open_user_private_key-seal fresh private_key vault_key owner material size sealed)
          refl)

  user_ads_apart :
      (id email ad : Text)
      → id ≢ email
      → legacy_user_private_key_ad email ≡ ok ad
      → user_private_key_ad id ≢ ok ad
  unfolding user_private_key_ad legacy_user_private_key_ad
  user_ads_apart id email ad apart legacy same = apart (
      append_cancel_left (codes "trominal:v1:user_private_key:") (
        make_ad-eq-ok (codes "user_private_key") id same
        ∙ sym (make_ad-eq-ok (codes "user_private_key") email legacy)))

  -- An account whose private key is still bound to its email is unlocked by the right password too,
  -- and the envelope to upload is the same private key, sealed for the user id under the same key.
  pub unlock-legacy :
      (pwhash : Argon2id) (fresh fresh' : Bytes) (password : Text) (owner : PrivateKeyOwner)
      (material : UserVaultMaterial) (private_key vault_key ad : Bytes) (rebound : Envelope)
      → IsAuthentic sodium
      → owner.id ≢ owner.email
      → length fresh ≡ 24
      → derived_key sodium pwhash password (some material) ≡ ok (material, vault_key)
      → legacy_user_private_key_ad owner.email ≡ ok ad
      → encrypt sodium private_key vault_key ad fresh ≡ ok (stored_envelope material)
      → seal_user_private_key sodium fresh' private_key vault_key owner.id ≡ ok rebound
      → unlock sodium pwhash fresh' password owner (some material) ≡ record {
        result = ok (record { key = vault_key; rebound = some rebound });
        wiped = private_key ∷ [];
      }
  unfolding unlock open_user_private_key
  unlock-legacy pwhash fresh fresh' password owner material private_key vault_key ad rebound
        authentic apart size derived made sealed again =
      elim (Result-cases (open_under sodium material vault_key (user_private_key_ad owner.id))) [
        | inl (pk, e) ↦ absurd (
            user_ads_apart owner.id owner.email ad apart made
              (open_under_binds authentic fresh private_key vault_key vault_key material ad
                (user_private_key_ad owner.id) sealed e).0)
        | inr (first, e) ↦
            let opens : open_user_private_key sodium material vault_key owner
                ≡ ok (record { private_key = private_key; legacy = true }) =
              rw
                (
                  e,
                  open_under-seal fresh private_key vault_key material
                      (legacy_user_private_key_ad owner.email) ad size made sealed,
                  open_user_private_key,
                )
                refl in
            rw (derived, unlock) (rw opens (rw again refl))
      ]
