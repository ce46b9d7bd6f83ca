-- ===== src/Vault/Records/RoundTrip.antt =====
-- Encrypted fields read back (apps/client/src/features/vault/model.ts).
use trominal.Shared.{
  ℕ, Bool, Bool-cases, ◌&&◌, [], ◌∷◌, ◌++◌, Option, none, some, Text, Bytes, codes, length,
  length-append, take, take-append_of_length, if◌then◌else◌, ◌≡◌, ◌≢◌, inl, inr, refl, sym, ap, ◌∙◌,
  arith,
}
use trominal.Shared.Results.{ok, ◌>>=◌, >>=-eq-ok}
use trominal.Json.{Value, null, string, Fields, get, put}
use trominal.Json.Objects.{get-put, get-put_other}
use trominal.Crypto.Sodium.{Sodium, IsCodec, IsCorrect}
use trominal.Crypto.Envelope.{Envelope, encrypt}
use trominal.Vault.Records.{
  Resource, VaultRecord, string_of, relation_of, record_ad, scoped_ad, ciphertext_of, nonce_of,
  is_blank, open_text, decrypt_text, put_envelope, seal_text, encrypt_text,
}

-- The last code unit, 0 for the empty text.
unfoldable pub ends : Text → ℕ
ends [] = 0
ends (c ∷ []) = c
ends (c ∷ d ∷ s) = ends (d ∷ s)

ends-append : (s : Text) (d : ℕ) (t : Text) → ends (s ++ (d ∷ t)) ≡ ends (d ∷ t)
unfolding ends
ends-append [] d t = refl
ends-append (c ∷ []) d t = refl
ends-append (c ∷ e ∷ s) d t = ends-append (e ∷ s) d t

pub ends-ciphertext_of : (name : Text) → ends (ciphertext_of name) ≡ b't'
unfolding ends
ends-ciphertext_of name = ends-append name b'_' (codes "ciphertext")

pub ends-nonce_of : (name : Text) → ends (nonce_of name) ≡ b'e'
unfolding ends
ends-nonce_of name = ends-append name b'_' (codes "nonce")

pub ciphertext_of-nonce_of : (a b : Text) → ciphertext_of a ≢ nonce_of b
ciphertext_of-nonce_of a b e = omega (arith, ends-ciphertext_of a, ends-nonce_of b, ap ends e)

ends-team_id : ends (codes "team_id") ≡ b'd'
unfolding ends
ends-team_id = refl

pub ciphertext_of-team_id : (name : Text) → ciphertext_of name ≢ codes "team_id"
ciphertext_of-team_id name e = omega (arith, ends-ciphertext_of name, ends-team_id, ap ends e)

pub nonce_of-team_id : (name : Text) → nonce_of name ≢ codes "team_id"
nonce_of-team_id name e = omega (arith, ends-nonce_of name, ends-team_id, ap ends e)

pub append_cancel_right : (s t u : Text) → s ++ u ≡ t ++ u → s ≡ t
append_cancel_right s t u e =
    let same : length s ≡ length t =
      omega (arith, length-append s u, length-append t u, ap length e) in
    sym (take-append_of_length (length t) s u same)
    ∙ ap (take (length t)) e
    ∙ take-append_of_length (length t) t u refl

-- The properties that an encrypted field leaves: its own two, and all others.
pub get-put_envelope_ciphertext :
    (name : Text) (ct n : Value) (payload : Fields)
    → get (ciphertext_of name) (put_envelope name ct n payload) ≡ some ct
get-put_envelope_ciphertext name ct n payload =
    get-put_other (ciphertext_of name) (nonce_of name) n (put (ciphertext_of name) ct payload)
      (λ e. ciphertext_of-nonce_of name name (sym e))
    ∙ get-put (ciphertext_of name) ct payload

pub get-put_envelope_nonce :
    (name : Text) (ct n : Value) (payload : Fields)
    → get (nonce_of name) (put_envelope name ct n payload) ≡ some n
get-put_envelope_nonce name ct n payload =
    get-put (nonce_of name) n (put (ciphertext_of name) ct payload)

pub get-put_envelope_other :
    (key name : Text) (ct n : Value) (payload : Fields)
    → ciphertext_of name ≢ key
    → nonce_of name ≢ key
    → get key (put_envelope name ct n payload) ≡ get key payload
get-put_envelope_other key name ct n payload h k =
    get-put_other key (nonce_of name) n (put (ciphertext_of name) ct payload) k
    ∙ get-put_other key (ciphertext_of name) ct payload h

-- The record that the server returns for a payload.
abbrev pub echo : Text → Option Text → Fields → VaultRecord
echo id updated_at payload = record { id = id; updated_at = updated_at; columns = payload }

-- The payload's team id is no empty string.
abbrev pub HasTeamId : Fields → Type 0
HasTeamId payload =
    string_of (get (codes "team_id") payload) ≡ relation_of (get (codes "team_id") payload)

-- What is left of a value: a blank one is not stored where the field is nullable.
abbrev pub stored : Bool → Text → Text
stored nullable value = if nullable && is_blank value then [] else value

module _ (sodium : Sodium) (codec : IsCodec sodium) (correct : IsCorrect sodium) where
  module _ (fresh key : Bytes) (payload : Fields) (resource : Resource) (id name value : Text)
      (updated_at : Option Text) (size : length fresh ≡ 24) (scope : HasTeamId payload) where
    record_ad-echo :
        (ct n : Value)
        → record_ad (echo id updated_at (put_envelope name ct n payload)) resource
          ≡ scoped_ad resource id (string_of (get (codes "team_id") payload))
    unfolding record_ad
    record_ad-echo ct n = ap (scoped_ad resource id) (
        ap relation_of (
          get-put_envelope_other (codes "team_id") name ct n payload (ciphertext_of-team_id name)
            (nonce_of-team_id name))
        ∙ sym scope)

    seal_text-put_envelope :
        {after : Fields}
        → seal_text sodium fresh payload key resource id name value ≡ ok after
        → (ct : Value) × (n : Value) × (after ≡ put_envelope name ct n payload)
    seal_text-put_envelope {after} h =
        let (ad, made, rest) =
          >>=-eq-ok (scoped_ad resource id (string_of (get (codes "team_id") payload)))
            (λ ad. encrypt sodium (sodium.utf8_encode value) key ad fresh >>= λ envelope.
              ok (put_envelope name (string envelope.ct) (string envelope.n) payload))
            h in
        let (envelope, e, done) =
          >>=-eq-ok (encrypt sodium (sodium.utf8_encode value) key ad fresh)
            (λ envelope. ok (put_envelope name (string envelope.ct) (string envelope.n) payload))
            rest in
        (string envelope.ct, string envelope.n, cc done)

    pub encrypt_text-put_envelope :
        (nullable : Bool) {after : Fields}
        → encrypt_text sodium fresh payload key resource id name value nullable ≡ ok after
        → (ct : Value) × (n : Value) × (after ≡ put_envelope name ct n payload)
    unfolding encrypt_text
    encrypt_text-put_envelope nullable {after} h = elim (Bool-cases (nullable && is_blank value)) [
      | inl blank ↦ (null, null, cc (rw (blank, encrypt_text) at h))
      | inr kept ↦ seal_text-put_envelope (rw (kept, encrypt_text) at h)
    ]

    open_text-record_ad :
        (row row' : VaultRecord) (ct n : Option Text)
        → record_ad row resource ≡ record_ad row' resource
        → open_text sodium row key resource ct n ≡ open_text sodium row' key resource ct n
    open_text-record_ad row row' (some ct) (some n) e = rw e refl
    open_text-record_ad row row' (some ct) none e = refl
    open_text-record_ad row row' none n e = refl

    -- Encrypting a field leaves every other field of the record as it reads.
    pub decrypt_text-encrypt_text_other :
        (nullable : Bool) (other : Text) {after : Fields}
        → name ≢ other
        → encrypt_text sodium fresh payload key resource id name value nullable ≡ ok after
        → decrypt_text sodium (echo id updated_at after) key resource other
          ≡ decrypt_text sodium (echo id updated_at payload) key resource other
    unfolding decrypt_text record_ad
    decrypt_text-encrypt_text_other nullable other {after} differ h =
        let (ct, n, built) = encrypt_text-put_envelope nullable h in
        let same_ct =
          get-put_envelope_other (ciphertext_of other) name ct n payload
            (λ e. differ (append_cancel_right name other (codes "_ciphertext") e))
            (λ e. ciphertext_of-nonce_of other name (sym e)) in
        let same_n =
          get-put_envelope_other (nonce_of other) name ct n payload
            (ciphertext_of-nonce_of name other)
            (λ e. differ (append_cancel_right name other (codes "_nonce") e)) in
        rw built (
          rw (same_ct, same_n)
            (open_text-record_ad (echo id updated_at (put_envelope name ct n payload))
              (echo id updated_at payload) (string_of (get (ciphertext_of other) payload))
              (string_of (get (nonce_of other) payload))
              (record_ad-echo ct n ∙ ap (scoped_ad resource id) scope)))
