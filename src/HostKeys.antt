-- ===== src/HostKeys.antt =====
-- apps/client/src/features/hosts/host-keys.ts: approved host keys and what a server presents.
pub mod Pins
pub mod Prompt
pub mod Gate
mod Tests
use trominal.Shared.{
  Bool, true, false, ◌&&◌, List, [], ◌∷◌, ◌++◌, map, Option, none, some, Text, codes, text_eq,
  after_first, any, if◌then◌else◌,
}
use trominal.Shared.Options.{◌>>=◌, ◌>>◌}
use trominal.Json.{
  Number, nat, Value, number, string, array, object, get, items, as_object, string_value,
}

pub record ScannedHostKey : Type 0 where
  pub key_type : Text
  pub public_key : Text
  pub fingerprint : Text

pub record HostKeyPin : Type 0 where
  pub key_type : Text
  pub public_key : Text
  pub fingerprint : Text
  pub approved_at : Text

pub record HostKeyPinPayload : Type 0 where
  pub key_type : Text
  pub public_key : Text

pub data ProblemKind : Type 0 where
  unknown changed : ProblemKind

pub record HostKeyProblem : Type 0 where
  pub kind : ProblemKind
  pub host : Text
  pub port : Number
  pub expected : List ScannedHostKey
  pub presented : List ScannedHostKey

abbrev pub host_key_error_prefix : Text
host_key_error_prefix = codes "trominal-host-key:"

-- An item that is no object, an array included, has no text under the three names.
abbrev pub scanned_key : Value → List ScannedHostKey
scanned_key (object (fields)) = elim (get (codes "keyType") fields) [
  | some (string key_type) ↦ elim (get (codes "publicKey") fields) [
    | some (string public_key) ↦ elim (get (codes "fingerprint") fields) [
      | some (string fingerprint) ↦
          record { key_type = key_type; public_key = public_key; fingerprint = fingerprint } ∷ []
      | _ ↦ []
    ]
    | _ ↦ []
  ]
  | _ ↦ []
]
scanned_key _ = []

abbrev pub scanned_items : List Value → List ScannedHostKey
scanned_items [] = []
scanned_items (item ∷ rest) = scanned_key item ++ scanned_items rest

abbrev pub scanned_keys : Option Value → List ScannedHostKey
scanned_keys (some (array values)) = scanned_items (items values)
scanned_keys _ = []

abbrev pub problem_kind : Option Value → Option ProblemKind
problem_kind (some (string s)) =
    if text_eq s (codes "unknown")
    then some unknown
    else if text_eq s (codes "changed")
    then some changed
    else none
problem_kind _ = none

abbrev pub port_value : Option Value → Number
port_value (some (number n)) = n
port_value _ = nat 22

-- `error` is the string, or the message of the `Error`; `none` for anything else that was thrown.
-- `parse` is `JSON.parse`, with `none` where that throws.
unfoldable pub parse_host_key_error : (Text → Option Value) → Option Text → Option HostKeyProblem
parse_host_key_error parse error = do
  text ← error
  json ← after_first host_key_error_prefix text
  parsed ← parse json
  fields ← as_object parsed
  kind ← problem_kind (get (codes "kind") fields)
  some (record {
    kind = kind;
    host = string_value (get (codes "host") fields);
    port = port_value (get (codes "port") fields);
    expected = scanned_keys (get (codes "expected") fields);
    presented = scanned_keys (get (codes "presented") fields);
  })

abbrev pub id_of : Text → Text → Text
id_of key_type public_key = key_type ++ (b' ' ∷ public_key)

abbrev pub key_id : ScannedHostKey → Text
key_id key = id_of key.key_type key.public_key

abbrev pub pin_id : HostKeyPin → Text
pin_id pin = id_of pin.key_type pin.public_key

-- `seen.has(id)`
unfoldable pub has : List Text → Text → Bool
has seen id = any (λ s. text_eq s id) seen

abbrev pub approve : Text → ScannedHostKey → HostKeyPin
approve approved_at key = record {
  key_type = key.key_type;
  public_key = key.public_key;
  fingerprint = key.fingerprint;
  approved_at = approved_at;
}

unfoldable pub pins_after : Text → List Text → List ScannedHostKey → List HostKeyPin
pins_after approved_at seen [] = []
pins_after approved_at seen (key ∷ keys) =
    let known = pins_after approved_at seen keys in
    let fresh = pins_after approved_at (key_id key ∷ seen) keys in
    if has seen (key_id key) then known else approve approved_at key ∷ fresh

unfoldable pub pins_from_approval : List ScannedHostKey → Text → List HostKeyPin
pins_from_approval keys approved_at = pins_after approved_at [] keys

unfoldable pub pin_payload : List HostKeyPin → List HostKeyPinPayload
pin_payload pins = map (λ pin. record { key_type = pin.key_type; public_key = pin.public_key }) pins

pub data Comparison : Type 0 where
  matching changed_keys unpinned : Comparison

unfoldable pub compare_with_pins : List HostKeyPin → List ScannedHostKey → Comparison
compare_with_pins [] presented = unpinned
compare_with_pins (pin ∷ pins) presented =
    if any (λ key. has (map pin_id (pin ∷ pins)) (key_id key)) presented
    then matching
    else changed_keys

pub record HostItem : Type 0 where
  pub id : Text
  pub team_id : Option Text
  pub name : Text
  pub hostname : Text
  pub port : Text
  pub username : Text
  pub host_keys : List HostKeyPin

-- The approvals of this session, by host id.
abbrev pub Approvals : Type 0
Approvals = Text → Option (List HostKeyPin)

abbrev pub non_empty : List HostKeyPin → Option (List HostKeyPin)
non_empty [] = none
non_empty (pin ∷ pins) = some (pin ∷ pins)

unfoldable pub effective_pins : HostItem → Approvals → Option (List HostKeyPin)
effective_pins host session_approvals = elim (session_approvals host.id) [
  | some (pin ∷ pins) ↦ some (pin ∷ pins)
  | _ ↦ non_empty host.host_keys
]

-- `===` between two ids that may be null
abbrev pub same_team : Option Text → Option Text → Bool
same_team none none = true
same_team (some s) (some t) = text_eq s t
same_team _ _ = false

unfoldable pub can_persist_pins : HostItem → Option Text → Bool → Bool
can_persist_pins host selected_team_id can_update =
    can_update && same_team host.team_id selected_team_id
