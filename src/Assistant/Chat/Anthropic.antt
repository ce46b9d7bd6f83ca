-- ===== src/Assistant/Chat/Anthropic.antt =====
-- apps/client/src/features/ai/adapters/anthropic.ts. `fetch` and `JSON.parse` are parameters; the list
-- of models is left out.
use trominal.Shared.{
  ℕ, Bool, true, false, not, List, [], ◌∷◌, map, filter, find, Option, none, some, Text, codes,
  text_eq, if◌then◌else◌, get_or_else,
}
use trominal.Shared.Results.{Result, ok, err}
use trominal.Json.{Value, Number, nat, null, string}
use trominal.Assistant.Sse.{SseEvent, Thrown, parse_sse_stream}
use trominal.Assistant.Chat.{
  ChatRole, system, user, assistant, ChatMessage, ChatChunk, text, done, error, AdapterConfig,
  Response, chain, is_string, not_null, message_of, join_endpoint, or_default,
}
use trominal.Assistant.Chat.OpenAi.{ChatRequest, latest}

abbrev default_endpoint : Text
default_endpoint = codes "https://api.anthropic.com/v1"

abbrev pub is_system : ChatMessage → Bool
is_system message = elim message.role [ system ↦ true | user ↦ false | assistant ↦ false ]

pub record SplitPrompt : Type 0 where
  pub system_prompt : Option Text
  pub messages : List ChatMessage

abbrev pub content_of : Option ChatMessage → Option Text
content_of none = none
content_of (some message) = some message.content

unfoldable pub split_system_prompt : List ChatMessage → SplitPrompt
split_system_prompt messages = record {
  system_prompt = content_of (find is_system messages);
  messages = filter (λ message. not (is_system message)) messages;
}

-- `message.role === 'assistant' ? 'assistant' : 'user'`
abbrev pub wire_role : ChatRole → ChatRole
wire_role assistant = assistant
wire_role user = user
wire_role system = user

abbrev pub wire_message : ChatMessage → ChatMessage
wire_message message = record { role = wire_role message.role; content = message.content }

-- `JSON.stringify` of this is the body.
pub record MessagesBody : Type 0 where
  pub model : Text
  pub system_prompt : Option Text
  pub messages : List ChatMessage
  pub max_tokens : Number
  pub temperature : Option Number

abbrev pub headers : AdapterConfig → List (Text × Text)
headers config =
    (codes "content-type", codes "application/json")
    ∷ (codes "anthropic-dangerous-direct-browser-access", codes "true")
    ∷ (codes "anthropic-version", codes "2023-06-01")
    ∷ (codes "x-api-key", config.api_key)
    ∷ []

abbrev pub is_text_delta : Option Value → Bool
is_text_delta (some (string s)) = text_eq s (codes "text_delta")
is_text_delta _ = false

-- `delta?.type === 'text_delta' && typeof delta.text === 'string'`
abbrev pub yield_text : Option Value → List ChatChunk → List ChatChunk
yield_text delta chunks =
    if is_text_delta (chain (codes "type") delta)
    then elim (is_string (chain (codes "text") delta)) [ none ↦ chunks | some s ↦ text s ∷ chunks ]
    else chunks

-- `?? 'Anthropic error'`
abbrev pub event_error : Option Value → Value
event_error none = string (codes "Anthropic error")
event_error (some null) = string (codes "Anthropic error")
event_error (some message) = message

module _ (parse : Text → Option Value) where
  abbrev pub parse_json : Text → Option Value
  parse_json value = not_null (parse value)

  -- The loop over the events, and the last chunk; `stop` is `stopReason` so far.
  unfoldable pub chat_events : List SseEvent → Option Thrown → Option Text → List ChatChunk
  chat_events [] none stop = done stop ∷ []
  chat_events [] (some e) stop = error (message_of e (codes "Stream interrupted")) ∷ []
  chat_events (event ∷ events) thrown stop =
      if text_eq event.content (codes "[DONE]")
      then done stop ∷ []
      else elim (parse_json event.content) [
        | none ↦ chat_events events thrown stop
        | some payload ↦
            if text_eq event.event (codes "content_block_delta")
            then yield_text (chain (codes "delta") (some payload)) (chat_events events thrown stop)
            else if text_eq event.event (codes "message_delta")
            then chat_events events thrown (
                latest
                  (is_string (chain (codes "stop_reason") (chain (codes "delta") (some payload))))
                  stop)
            else if text_eq event.event (codes "message_stop")
            then done stop ∷ []
            else if text_eq event.event (codes "error")
            then error
                (event_error (chain (codes "message") (chain (codes "error") (some payload))))
              ∷ []
            else chat_events events thrown stop
      ]

  -- `error` of the body: itself if it is a string, or its message if there is one.
  abbrev pub message_in : Option Value → Text → Text → Value
  message_in (some (string s)) body status = string s
  message_in member body status =
      get_or_else (chain (codes "message") member) (string (or_default body status))

  abbrev pub safe_error_message : Response → Value
  safe_error_message response = elim response.body_text [
    | none ↦ string response.status
    | some body ↦ message_in (chain (codes "error") (parse_json body)) body response.status
  ]

  abbrev pub stream_chat : (ℕ → Bool) → Response → List Text → List ChatChunk
  stream_chat aborted response pieces =
      let stream = parse_sse_stream aborted pieces response.broken in
      chat_events stream.events stream.thrown none

  abbrev pub answer : (ℕ → Bool) → Result Thrown Response → List ChatChunk
  answer aborted (err e) = error (message_of e (codes "Network error")) ∷ []
  answer aborted (ok response) = elim response.pieces [
    | none ↦ error (safe_error_message response) ∷ []
    | some pieces ↦
        if response.is_ok
        then stream_chat aborted response pieces
        else error (safe_error_message response) ∷ []
  ]

  abbrev pub body_of : ChatRequest → AdapterConfig → MessagesBody
  body_of request config = record {
    model = config.model;
    system_prompt = (split_system_prompt request.messages).system_prompt;
    messages = map wire_message (split_system_prompt request.messages).messages;
    max_tokens = get_or_else request.max_output_tokens (nat 1024);
    temperature = request.temperature;
  }

  unfoldable pub chat :
      (Text → List (Text × Text) → MessagesBody → Result Thrown Response)
      → (ℕ → Bool)
      → ChatRequest
      → AdapterConfig
      → List ChatChunk
  unfolding chat_events split_system_prompt
  chat fetch aborted request config = answer aborted (
      fetch (join_endpoint (or_default config.endpoint default_endpoint) (codes "/messages"))
        (headers config) (body_of request config))
