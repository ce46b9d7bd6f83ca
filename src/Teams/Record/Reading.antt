-- ===== src/Teams/Record/Reading.antt =====
-- A shared record that was encrypted again reads the same (apps/client/src/features/teams/rotate-record.ts).
use trominal.Shared.{
  true, not, Option, none, some, Text, Bytes, codes, length, ◌≡◌, ◌≢◌, refl, sym, ap, subst, ◌∙◌,
  Distinct,
}
use trominal.Shared.Results.{ok, err, >>=-eq-ok, require-eq-ok}
use trominal.Json.{Value, string, Fields, end, get, keys}
use trominal.Json.Entries.{for_entries, for_entries-at}
use trominal.Crypto.Sodium.{Sodium, IsCodec, IsCorrect}
use trominal.Crypto.Envelope.{Envelope, decrypt}
use trominal.Crypto.Envelope.RoundTrip.{decrypt-encrypt}
use trominal.Vault.Records.{Resource, VaultRecord, record_ad, ciphertext_of, nonce_of, put_envelope}
use trominal.Vault.Records.RoundTrip.{get-put_envelope_ciphertext, get-put_envelope_nonce}
use trominal.Vault.Rotation.{thrown, re_encrypt_pair, strip_suffix}
use trominal.Vault.Rotation.Reading.{
  thrown-eq-ok, re_encrypt_pair-eq-ok, Keeps, put_envelope-Keeps, strip_suffix_sound,
  strip_suffix-append,
}
use trominal.Teams.Record.{
  failing, is_team, is_ai_settings, unexpected_record, pair_of, Rotated, TeamReencryptedResource,
  check_nonce, rotate_pair, rotate_based, rotate_column, rotate_team_record,
}

failing-eq-ok : {A : Type 0} (r : _) (a : A) → failing r ≡ ok a → r ≡ ok a
failing-eq-ok (ok b) a h = cc h
failing-eq-ok (err e) a h = absurd (cc h)

module _ (sodium : Sodium) (old_key new_key : Bytes) (fresh : Text → Bytes) (ad : Text) where
  -- The pair of a field is sent as it was, beside a new one that opens under the new key to what the
  -- old one opens to under the old key.
  abbrev pub IsCarriedOver : Fields → Text → Text → Rotated → Type 0
  IsCarriedOver columns base ct s =
      (n : Text) × (plaintext : Bytes) × (envelope : Envelope) × (get (nonce_of base) columns
        ≡ some (string n))
      × (decrypt sodium (record { v = 1; ct = ct; n = n }) old_key ad ≡ ok plaintext)
      × (get (ciphertext_of base) s.fields ≡ some (string envelope.ct))
      × (get (nonce_of base) s.fields ≡ some (string envelope.n))
      × (decrypt sodium envelope new_key ad ≡ ok plaintext)
      × (get (ciphertext_of base) s.original_fields ≡ some (string ct))
      × (get (nonce_of base) s.original_fields ≡ some (string n))

  rotate_pair-eq-ok :
      (base ct n : Text) (s : Rotated) {next : Rotated}
      → rotate_pair sodium old_key new_key fresh ad base (some (ct, n)) s ≡ ok next
      → (fields : Fields) × (re_encrypt_pair sodium old_key new_key fresh ad base ct
            (some n)
            s.fields
          ≡ ok fields)
        × (next ≡ record {
          fields = fields;
          original_fields = put_envelope base (string ct) (string n) s.original_fields;
        })
  rotate_pair-eq-ok base ct n s h =
      let (fields, made, done) =
        >>=-eq-ok
          (failing (re_encrypt_pair sodium old_key new_key fresh ad base ct (some n) s.fields))
          (λ fields. ok (record {
            fields = fields;
            original_fields = put_envelope base (string ct) (string n) s.original_fields;
          }))
          h in
      (fields, failing-eq-ok _ _ made, cc done)

  string_pair :
      (ct : Text) (nonce : Option Value) {pair : Option (Text × Text)}
      → pair_of (string ct) nonce ≡ ok pair
      → (n : Text) × (nonce ≡ some (string n)) × (pair ≡ some (ct, n))
  string_pair ct (some (string n)) h = (n, refl, cc h)
  string_pair ct none h = absurd (cc h)
  string_pair ct (some _) h = absurd (cc h)

  same-IsCarriedOver :
      (columns : Fields) (base ct : Text) (s : Rotated) {next : Rotated}
      → IsCarriedOver columns base ct s
      → next ≡ s
      → IsCarriedOver columns base ct next
  same-IsCarriedOver columns base ct s o e = rw e o

  Keeps-IsCarriedOver :
      (columns : Fields) (base ct : Text) (s next : Rotated)
      → Keeps base s.fields next.fields
      → Keeps base s.original_fields next.original_fields
      → IsCarriedOver columns base ct s
      → IsCarriedOver columns base ct next
  Keeps-IsCarriedOver columns base ct s next (kc, kn) (oc, on)
        (n, plaintext, envelope, nonce, opened, c, m, reads, original_c, original_n) =
      (
        n,
        plaintext,
        envelope,
        nonce,
        opened,
        kc ∙ c,
        kn ∙ m,
        reads,
        oc ∙ original_c,
        on ∙ original_n,
      )

  rotate_pair-IsCarriedOver :
      (columns : Fields) (base ct other : Text) (pair : Option (Text × Text)) (s : Rotated)
      {next : Rotated}
      → other ≢ base
      → IsCarriedOver columns base ct s
      → rotate_pair sodium old_key new_key fresh ad other pair s ≡ ok next
      → IsCarriedOver columns base ct next
  rotate_pair-IsCarriedOver columns base ct other none s differ o h =
      same-IsCarriedOver columns base ct s o (cc h)
  rotate_pair-IsCarriedOver columns base ct other (some (c, n)) s {next} differ o h =
      let (fields, made, done) = rotate_pair-eq-ok other c n s h in
      let (_, _, envelope, _, _, _, put) =
        re_encrypt_pair-eq-ok sodium old_key new_key fresh ad other c (some n) s.fields made in
      rw done (
        Keeps-IsCarriedOver columns base ct s _
          (subst (Keeps base s.fields) (sym put) (
            put_envelope-Keeps base other (string envelope.ct) (string envelope.n) s.fields differ))
          (put_envelope-Keeps base other (string c) (string n) s.original_fields differ) o)

  rotate_based-IsCarriedOver :
      (columns : Fields) (base ct : Text) (found : Option Text) (value : Value) (s : Rotated)
      {next : Rotated}
      → ((other : Text) → found ≡ some other → other ≢ base)
      → IsCarriedOver columns base ct s
      → rotate_based sodium old_key new_key fresh ad columns found value s ≡ ok next
      → IsCarriedOver columns base ct next
  rotate_based-IsCarriedOver columns base ct none value s differ o h =
      same-IsCarriedOver columns base ct s o (cc h)
  rotate_based-IsCarriedOver columns base ct (some other) value s differ o h =
      let (pair, _, rest) =
        >>=-eq-ok (pair_of value (get (nonce_of other) columns))
          (λ pair. rotate_pair sodium old_key new_key fresh ad other pair s) h in
      rotate_pair-IsCarriedOver columns base ct other pair s (differ other refl) o rest

  module _ (codec : IsCodec sodium) (correct : IsCorrect sodium)
      (sized : (base : Text) → length (fresh base) ≡ 24) where
    rotate_column-brings :
        (columns : Fields) (base ct : Text) (s next : Rotated)
        → rotate_column sodium old_key new_key fresh ad columns (ciphertext_of base) (string ct) s
          ≡ ok next
        → IsCarriedOver columns base ct next
    rotate_column-brings columns base ct s next h =
        let h : rotate_based sodium old_key new_key fresh ad columns (some base) (string ct) s
            ≡ ok next =
          rw (strip_suffix-append (codes "_ciphertext") base) at h in
        let (pair, paired, rest) =
          >>=-eq-ok (pair_of (string ct) (get (nonce_of base) columns))
            (λ pair. rotate_pair sodium old_key new_key fresh ad base pair s) h in
        let (n, nonce, same) = string_pair ct (get (nonce_of base) columns) paired in
        let (fields, made, done) = rotate_pair-eq-ok base ct n s (rw same at rest) in
        let (n', plaintext, envelope, same_n, opened, sealed, put) =
          re_encrypt_pair-eq-ok sodium old_key new_key fresh ad base ct (some n) s.fields made in
        let opened : decrypt sodium (record { v = 1; ct = ct; n = n }) old_key ad ≡ ok plaintext =
          subst (λ m. decrypt sodium (record { v = 1; ct = ct; n = m }) old_key ad ≡ ok plaintext)
            (cc same_n) opened in
        rw done (
          n,
          plaintext,
          envelope,
          nonce,
          opened,
          ap (get (ciphertext_of base)) put
              ∙ get-put_envelope_ciphertext base (string envelope.ct) (string envelope.n) s.fields,
          ap (get (nonce_of base)) put
              ∙ get-put_envelope_nonce base (string envelope.ct) (string envelope.n) s.fields,
          decrypt-encrypt sodium codec plaintext new_key (fresh base) ad correct (sized base)
              sealed,
          get-put_envelope_ciphertext base (string ct) (string n) s.original_fields,
          get-put_envelope_nonce base (string ct) (string n) s.original_fields,
        )

    rotate_columns-IsCarriedOver :
        (columns : Fields) (base ct : Text) (s : Rotated) {last : Rotated}
        → Distinct (keys columns)
        → get (ciphertext_of base) columns ≡ some (string ct)
        → for_entries (rotate_column sodium old_key new_key fresh ad columns) columns s ≡ ok last
        → IsCarriedOver columns base ct last
    rotate_columns-IsCarriedOver columns base ct s distinct found h =
        for_entries-at (rotate_column sodium old_key new_key fresh ad columns)
          (IsCarriedOver columns base ct) (ciphertext_of base) (string ct) columns s distinct found
          (λ s next h. rotate_column-brings columns base ct s next h)
          (λ other v s next away o h.
            rotate_based-IsCarriedOver columns base ct (strip_suffix (codes "_ciphertext") other) v
              s
              (λ b cut same. away (
                sym (strip_suffix_sound (codes "_ciphertext") other b cut ∙ ap ciphertext_of same)))
              o h)
          h

module _ (sodium : Sodium) (codec : IsCodec sodium) (correct : IsCorrect sodium) where
  -- A shared record that is encrypted again for a team keeps its id, belongs to the team, and each of
  -- its fields that has a ciphertext is sent as it was, beside a pair that opens under the new key,
  -- with the same associated data, to what the old pair opens to under the old key; the properties of
  -- the record are distinct and nonces have 24 bytes.
  pub rotate_team_record-reads :
      (resource : Resource) (row : VaultRecord) (team_id : Text) (old_key new_key : Bytes)
      (fresh : Text → Bytes) (base ct : Text) {item : TeamReencryptedResource}
      → ((base : Text) → length (fresh base) ≡ 24)
      → Distinct (keys row.columns)
      → get (ciphertext_of base) row.columns ≡ some (string ct)
      → rotate_team_record sodium resource row team_id old_key new_key fresh ≡ ok item
      → (item.resource ≡ resource)
        × (item.id ≡ row.id)
        × (is_team (get (codes "team_id") row.columns) team_id ≡ true)
        × ((ad : Text) × (record_ad row resource ≡ ok ad)
            × IsCarriedOver sodium old_key new_key fresh ad row.columns base ct
                (record { fields = item.fields; original_fields = item.original_fields }))
  unfolding rotate_team_record
  rotate_team_record-reads resource row team_id old_key new_key fresh base ct {item} sized distinct
        found h =
      let (belongs, h) =
        require-eq-ok (is_team (get (codes "team_id") row.columns) team_id) unexpected_record _ h in
      let (_, h) = require-eq-ok (not (is_ai_settings resource)) unexpected_record _ h in
      let (ad, made, h) = >>=-eq-ok (failing (thrown (record_ad row resource))) _ h in
      let (rotated, looped, h) =
        >>=-eq-ok
          (for_entries (rotate_column sodium old_key new_key fresh ad row.columns) row.columns
            (record { fields = end; original_fields = end }))
          _ h in
      let (_, checked, h) =
        >>=-eq-ok (for_entries (check_nonce rotated.original_fields) row.columns tt) _ h in
      let same : item ≡ record {
        resource = resource;
        id = row.id;
        original_fields = rotated.original_fields;
        fields = rotated.fields;
      } =
        cc h in
      let o =
        rotate_columns-IsCarriedOver sodium old_key new_key fresh ad codec correct sized row.columns
          base ct _ distinct found looped in
      rw same (refl, refl, belongs, (ad, thrown-eq-ok _ _ (failing-eq-ok _ _ made), o))
