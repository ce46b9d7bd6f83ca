-- ===== src/Vault/Records/Credentials/RoundTrip.antt =====
-- Credentials and identities that are encrypted, stored and read back
-- (apps/client/src/features/vault/model.ts).
use trominal.Shared.{
  true, false, [], ◌∷◌, Option, none, some, Text, Bytes, text_eq, text_eq_iff, ◌≡◌, ◌≢◌,
}
use trominal.Shared
use trominal.Shared.Results.{ok}
use trominal.Json.{Fields, get}
use trominal.Crypto.Sodium.{Sodium, IsCodec, IsCorrect}
use trominal.Vault.Records.{Resource, decrypt_text}
use trominal.Vault.Records.RoundTrip.{ends, echo, HasTeamId, stored}
use trominal.Vault.Records.Credentials.{HostCredentialInput, HostCredentialItem}

pub differ : (s t : Text) → text_eq s t ≡ false → s ≢ t
differ s t h e = absurd (cc (h, (text_eq_iff s t).1 e))

-- A property that no encrypted field is stored under.
abbrev IsPlain : Text → Type 0
IsPlain name = (ends name ≢ b't') × (ends name ≢ b'e')

module _ (sodium : Sodium) (codec : IsCodec sodium) (correct : IsCorrect sodium) (key : Bytes)
    (resource : Resource) (id : Text) (updated_at : Option Text) where
  -- The field `name` of the payload reads as `value`.
  abbrev Reads : Fields → Text → Text → Type 0
  Reads payload name value =
      decrypt_text sodium (echo id updated_at payload) key resource name ≡ ok value

  -- `after` is `before` with one more encrypted field.
  record Extends (before after : Fields) (name value : Text) : Type 0 where
    own : Reads after name value
    kept : (other v : Text) → name ≢ other → Reads before other v → Reads after other v
    plain : (k : Text) → IsPlain k → get k after ≡ get k before
    scope : HasTeamId after

-- A team id or a reference that is no empty string.
abbrev pub known : Option Text → Option Text
known none = none
known (some []) = none
known (some (c ∷ s)) = some (c ∷ s)

-- The item that is read back. A blank text of an optional field comes back empty.
abbrev pub credential_item :
    Text → HostCredentialInput → Option Text → Option Text → HostCredentialItem
credential_item id input team_id updated_at = record {
  id = id;
  team_id = known team_id;
  host_id = known input.host_id;
  identity_id = known input.identity_id;
  label = input.label;
  username = stored true input.username;
  password = stored true input.password;
  private_key_passphrase = stored true input.private_key_passphrase;
  updated_at = updated_at;
}
