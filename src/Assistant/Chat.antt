-- ===== src/Assistant/Chat.antt =====
-- apps/client/src/features/ai/adapters/types.ts, with what both adapters share: reading a payload,
-- joining an endpoint, and the response that `fetch` gives. `fetch` and `JSON.parse` are parameters.
pub mod OpenAi
pub mod Anthropic
pub mod Final
pub mod Delivery
mod Tests
use trominal.Shared.{
  Bool, List, [], ◌∷◌, ◌++◌, Option, none, some, Text, codes, if◌then◌else◌, ◌==◌,
}
use trominal.Shared.Results.{Result, ok, err}
use trominal.Json.{Value, null, string, array, object, nil, cons, get}
use trominal.Assistant.Sse.{Thrown, error_with, other}

pub data ChatRole : Type 0 where
  system user assistant : ChatRole

pub record ChatMessage : Type 0 where
  pub role : ChatRole
  pub content : Text

-- The message of an error is what the provider put there, mostly a string.
pub data ChatChunk : Type 0 where
  text : Text → ChatChunk
  done : Option Text → ChatChunk
  error : Value → ChatChunk

pub record AdapterConfig : Type 0 where
  pub endpoint : Text
  pub model : Text
  pub api_key : Text

-- `value?.[key]`
abbrev pub chain : Text → Option Value → Option Value
chain key (some (object fields)) = get key fields
chain key _ = none

-- `values?.[0]`
abbrev pub chain_first : Option Value → Option Value
chain_first (some (array nil)) = none
chain_first (some (array (cons value values))) = some value
chain_first (some (object fields)) = get (codes "0") fields
chain_first _ = none

abbrev pub is_string : Option Value → Option Text
is_string (some (string s)) = some s
is_string _ = none

-- `parseJson`, with `null` as `none`.
abbrev pub not_null : Option Value → Option Value
not_null (some null) = none
not_null value = value

-- `err instanceof Error ? err.message : fallback`
abbrev pub message_of : Thrown → Text → Value
message_of (error_with message) fallback = string message
message_of other fallback = string fallback

-- `base.replace(/\/+$/, '')`
unfoldable pub strip_slashes : Text → Text
strip_slashes [] = []
strip_slashes (c ∷ s) =
    let rest = strip_slashes s in
    elim rest [ [] ↦ if c == 47 then [] else c ∷ [] | d ∷ t ↦ c ∷ d ∷ t ]

abbrev pub with_slash : Text → Text
with_slash [] = 47 ∷ []
with_slash (c ∷ path) = if c == 47 then c ∷ path else 47 ∷ c ∷ path

abbrev pub join_endpoint : Text → Text → Text
join_endpoint base path = strip_slashes base ++ with_slash path

abbrev pub or_default : Text → Text → Text
or_default [] fallback = fallback
or_default (c ∷ s) fallback = c ∷ s

-- `status` is `` `${response.status} ${response.statusText}`.trim() ``, and `body_text` is `none` where
-- `response.text()` throws. The pieces are those of `body`, `none` where it is `null`.
pub record Response : Type 0 where
  pub is_ok : Bool
  pub status : Text
  pub body_text : Option Text
  pub pieces : Option (List Text)
  pub broken : Option Thrown

-- `collectChatText`; what it throws is the message.
unfoldable pub collect_chat_text : List ChatChunk → Result Value Text
collect_chat_text [] = ok []
collect_chat_text (text delta ∷ chunks) = elim (collect_chat_text chunks) [
  | ok buffer ↦ ok (delta ++ buffer)
  | err message ↦ err message
]
collect_chat_text (done finish ∷ chunks) = collect_chat_text chunks
collect_chat_text (error message ∷ chunks) = err message
