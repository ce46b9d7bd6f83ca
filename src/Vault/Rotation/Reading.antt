-- ===== src/Vault/Rotation/Reading.antt =====
-- A record that was encrypted again reads the same (apps/client/src/features/vault/rotation.ts).
pub mod Items
use trominal.Shared.{
  ℕ, true, Bool-cases, [], ◌∷◌, ◌++◌, Option, none, some, Text, Bytes, codes, text_eq, text_eq_iff,
  length, length-append, ◌≡◌, ◌≢◌, inl, inr, refl, sym, ap, subst, ◌∙◌, All, Distinct, arith,
}
use trominal.Shared.Results.{ok, err, ◌>>=◌, >>=-eq-ok}
use trominal.Json.{Value, string, Fields, end, field, get, keys}
use trominal.Crypto.Sodium.{Sodium, IsCodec, IsCorrect}
use trominal.Crypto.Envelope.{Envelope, encrypt, decrypt}
use trominal.Crypto.Envelope.RoundTrip.{decrypt-encrypt}
use trominal.Vault.Records.{RecordResult, relation_of, ciphertext_of, nonce_of, put_envelope}
use trominal.Vault.Records.RoundTrip.{
  ciphertext_of-nonce_of, get-put_envelope_other, append_cancel_right, get-put_envelope_ciphertext,
  get-put_envelope_nonce,
}
use trominal.Vault.Rotation.{
  strip_suffix, prepend, thrown, re_encrypt_pair, re_encrypt_column, re_encrypt_columns,
}

-- `strip_suffix` finds the base of a column that ends in the suffix, and only there.
prepend-eq-some :
    (c : ℕ) (rest : Option Text) (base : Text)
    → prepend c rest ≡ some base
    → (tail : Text) × (rest ≡ some tail) × (base ≡ c ∷ tail)
prepend-eq-some c none base h = absurd (cc h)
prepend-eq-some c (some tail) base h = (tail, refl, cc h)

pub strip_suffix_sound :
    (suffix column base : Text) → strip_suffix suffix column ≡ some base → column ≡ base ++ suffix
unfolding strip_suffix
strip_suffix_sound suffix [] base h = elim (Bool-cases (text_eq [] suffix)) [
  | inl e ↦ let empty : base ≡ [] = cc (rw e at h) in rw empty ((text_eq_iff [] suffix).0 e)
  | inr e ↦ absurd (cc (rw e at h))
]
strip_suffix_sound suffix (c ∷ s) base h = elim (Bool-cases (text_eq (c ∷ s) suffix)) [
  | inl e ↦ let empty : base ≡ [] = cc (rw e at h) in rw empty ((text_eq_iff (c ∷ s) suffix).0 e)
  | inr e ↦
      let (tail, rest, same) = prepend-eq-some c (strip_suffix suffix s) base (rw e at h) in
      rw same (ap (λ t. c ∷ t) (strip_suffix_sound suffix s tail rest))
]

text_eq_refl : (s : Text) → text_eq s s ≡ true
text_eq_refl s = (text_eq_iff s s).1 refl

pub strip_suffix-append : (suffix base : Text) → strip_suffix suffix (base ++ suffix) ≡ some base
unfolding strip_suffix
strip_suffix-append [] [] = rw (text_eq_refl []) refl
strip_suffix-append (c ∷ suffix) [] = rw (text_eq_refl (c ∷ suffix)) refl
strip_suffix-append suffix (c ∷ base) = elim (Bool-cases (text_eq (c ∷ (base ++ suffix)) suffix)) [
  | inl e ↦ absurd (
      omega (
        arith,
        length-append base suffix,
        ap length ((text_eq_iff (c ∷ (base ++ suffix)) suffix).0 e),
      ))
  | inr e ↦ rw e (rw (strip_suffix-append suffix base) refl)
]

pub thrown-eq-ok : {A : Type 0} (r : RecordResult A) (a : A) → thrown r ≡ ok a → r ≡ ok a
thrown-eq-ok (ok b) a h = cc h
thrown-eq-ok (err e) a h = absurd (cc h)

-- Both properties of a field are as before.
abbrev pub Keeps : Text → Fields → Fields → Type 0
Keeps base fields next =
    (get (ciphertext_of base) next ≡ get (ciphertext_of base) fields)
    × (get (nonce_of base) next ≡ get (nonce_of base) fields)

pub put_envelope-Keeps :
    (base other : Text) (ct n : Value) (fields : Fields)
    → other ≢ base
    → Keeps base fields (put_envelope other ct n fields)
put_envelope-Keeps base other ct n fields differ = (
  get-put_envelope_other (ciphertext_of base) other ct n fields
      (λ e. differ (append_cancel_right other base (codes "_ciphertext") e))
      (λ e. ciphertext_of-nonce_of base other (sym e)),
  get-put_envelope_other (nonce_of base) other ct n fields (ciphertext_of-nonce_of other base)
      (λ e. differ (append_cancel_right other base (codes "_nonce") e)),
)

pub same-Keeps :
    (base : Text) (fields : Fields) {next : Fields} → next ≡ fields → Keeps base fields next
same-Keeps base fields e = rw e (refl, refl)

Keeps-trans : (base : Text) (a b c : Fields) → Keeps base a b → Keeps base b c → Keeps base a c
Keeps-trans base a b c h k = (k.0 ∙ h.0, k.1 ∙ h.1)

module _ (sodium : Sodium) (current_key new_key : Bytes) (fresh : Text → Bytes) (ad : Text) where
  -- A pair that was encrypted again: what it opened to, and what was put in its place.
  abbrev pub Rewrapped : Text → Text → Option Text → Fields → Fields → Type 0
  Rewrapped base ct nonce fields next =
      (n : Text) × (plaintext : Bytes) × (envelope : Envelope) × (nonce ≡ some n)
      × (decrypt sodium (record { v = 1; ct = ct; n = n }) current_key ad ≡ ok plaintext)
      × (encrypt sodium plaintext new_key ad (fresh base) ≡ ok envelope)
      × (next ≡ put_envelope base (string envelope.ct) (string envelope.n) fields)

  pub re_encrypt_pair-eq-ok :
      (base ct : Text) (nonce : Option Text) (fields : Fields) {next : Fields}
      → re_encrypt_pair sodium current_key new_key fresh ad base ct nonce fields ≡ ok next
      → Rewrapped base ct nonce fields next
  re_encrypt_pair-eq-ok base ct none fields h = absurd (cc h)
  re_encrypt_pair-eq-ok base ct (some n) fields h =
      let (plaintext, opened, rest) =
        >>=-eq-ok (thrown (decrypt sodium (record { v = 1; ct = ct; n = n }) current_key ad))
          (λ plaintext. thrown (encrypt sodium plaintext new_key ad (fresh base)) >>= λ envelope.
            ok (put_envelope base (string envelope.ct) (string envelope.n) fields))
          h in
      let (envelope, sealed, done) =
        >>=-eq-ok (thrown (encrypt sodium plaintext new_key ad (fresh base)))
          (λ envelope. ok (put_envelope base (string envelope.ct) (string envelope.n) fields))
          rest in
      (n, plaintext, envelope, refl, thrown-eq-ok _ _ opened, thrown-eq-ok _ _ sealed, cc done)

  re_encrypt_column-Keeps :
      (columns : Fields) (stripped value : Option Text) (fields : Fields) (base : Text)
      {next : Fields}
      → ((other : Text) → stripped ≡ some other → other ≢ base)
      → re_encrypt_column sodium current_key new_key fresh ad columns stripped value fields
        ≡ ok next
      → Keeps base fields next
  re_encrypt_column-Keeps columns (some other) (some ct) fields base differ h =
      let (n, plaintext, envelope, _, _, _, done) =
        re_encrypt_pair-eq-ok other ct (relation_of (get (nonce_of other) columns)) fields h in
      rw done (
        put_envelope-Keeps base other (string envelope.ct) (string envelope.n) fields
          (differ other refl))
  re_encrypt_column-Keeps columns none value fields base differ h = same-Keeps base fields (cc h)
  re_encrypt_column-Keeps columns (some other) none fields base differ h =
      same-Keeps base fields (cc h)

  -- Columns that are not the ciphertext of a field leave the field alone.
  pub re_encrypt_columns-Keeps :
      (columns entries fields : Fields) (base : Text) {next : Fields}
      → All (λ column. ciphertext_of base ≢ column) (keys entries)
      → re_encrypt_columns sodium current_key new_key fresh ad columns entries fields ≡ ok next
      → Keeps base fields next
  unfolding re_encrypt_columns keys
  re_encrypt_columns-Keeps columns end fields base apart h = same-Keeps base fields (cc h)
  re_encrypt_columns-Keeps columns (field column value entries) fields base apart h =
      let stripped = strip_suffix (codes "_ciphertext") column in
      let (middle, first, rest) =
        >>=-eq-ok
          (re_encrypt_column sodium current_key new_key fresh ad columns stripped
            (relation_of (some value)) fields)
          (λ middle. re_encrypt_columns sodium current_key new_key fresh ad columns entries middle)
          h in
      Keeps-trans base fields middle _
        (re_encrypt_column-Keeps columns stripped (relation_of (some value)) fields base
          (λ other found same. apart.0 (
            ap ciphertext_of (sym same)
            ∙ sym (strip_suffix_sound (codes "_ciphertext") column other found)))
          first)
        (re_encrypt_columns-Keeps columns entries middle base apart.1 rest)

  -- The field opens with the new key to the text that the old pair opens to with the old key.
  abbrev pub ReadsTheSame : Fields → Text → Text → Fields → Type 0
  ReadsTheSame columns base ct fields =
      (n : Text) × (plaintext : Bytes) × (envelope : Envelope) × (relation_of
          (get (nonce_of base) columns)
        ≡ some n)
      × (decrypt sodium (record { v = 1; ct = ct; n = n }) current_key ad ≡ ok plaintext)
      × (get (ciphertext_of base) fields ≡ some (string envelope.ct))
      × (get (nonce_of base) fields ≡ some (string envelope.n))
      × (decrypt sodium envelope new_key ad ≡ ok plaintext)

  module _ (codec : IsCodec sodium) (correct : IsCorrect sodium)
      (sized : (base : Text) → length (fresh base) ≡ 24) where
    pub re_encrypt_columns-reads :
        (columns entries fields : Fields) (base ct : Text) {next : Fields}
        → Distinct (keys entries)
        → relation_of (get (ciphertext_of base) entries) ≡ some ct
        → re_encrypt_columns sodium current_key new_key fresh ad columns entries fields ≡ ok next
        → ReadsTheSame columns base ct next
    unfolding re_encrypt_columns keys get
    re_encrypt_columns-reads columns end fields base ct distinct found h = absurd (cc found)
    re_encrypt_columns-reads columns (field column value entries) fields base ct {next} distinct
          found h =
        let stripped = strip_suffix (codes "_ciphertext") column in
        let (middle, first, rest) =
          >>=-eq-ok
            (re_encrypt_column sodium current_key new_key fresh ad columns stripped
              (relation_of (some value)) fields)
            (λ middle.
              re_encrypt_columns sodium current_key new_key fresh ad columns entries middle)
            h in
        elim (Bool-cases (text_eq column (ciphertext_of base))) [
          | inl here ↦
              let same : column ≡ ciphertext_of base =
                (text_eq_iff column (ciphertext_of base)).0 here in
              let value_ct : relation_of (some value) ≡ some ct = rw here at found in
              let cut : stripped ≡ some base =
                rw same (strip_suffix-append (codes "_ciphertext") base) in
              let (n, plaintext, envelope, nonce, opened, sealed, done) =
                re_encrypt_pair-eq-ok base ct (relation_of (get (nonce_of base) columns)) fields
                  (rw (cut, value_ct) at first) in
              let (kept_ct, kept_n) =
                re_encrypt_columns-Keeps columns entries middle base
                  (subst (λ k. All (λ y. k ≢ y) (keys entries)) same distinct.0) rest in
              (
                n,
                plaintext,
                envelope,
                nonce,
                opened,
                kept_ct
                    ∙ ap (get (ciphertext_of base)) done
                    ∙ get-put_envelope_ciphertext base (string envelope.ct) (string envelope.n)
                        fields,
                kept_n
                    ∙ ap (get (nonce_of base)) done
                    ∙ get-put_envelope_nonce base (string envelope.ct) (string envelope.n) fields,
                decrypt-encrypt sodium codec plaintext new_key (fresh base) ad correct (sized base)
                    sealed,
              )
          | inr on ↦
              re_encrypt_columns-reads columns entries middle base ct distinct.1 (rw on at found)
                rest
        ]
