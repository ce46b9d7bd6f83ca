-- ===== src/Assistant/Chat/OpenAi.antt =====
-- apps/client/src/features/ai/adapters/openai.ts. `fetch` and `JSON.parse` are parameters; the list of
-- models is left out.
use trominal.Shared.{
  ℕ, Bool, not, List, [], ◌∷◌, ◌++◌, Option, none, some, Text, codes, text_eq, trim, length, ◌==◌,
  if◌then◌else◌,
}
use trominal.Shared.Results.{Result, ok, err}
use trominal.Json.{Value, Number, null, string}
use trominal.Assistant.Sse.{SseEvent, Thrown, parse_sse_stream}
use trominal.Assistant.Chat.{
  ChatMessage, ChatChunk, text, done, error, AdapterConfig, Response, chain, chain_first, is_string,
  not_null, message_of, join_endpoint, or_default,
}

-- `JSON.stringify` of this is the body.
pub record ChatBody : Type 0 where
  pub model : Text
  pub messages : List ChatMessage
  pub temperature : Option Number
  pub max_tokens : Option Number

pub record ChatRequest : Type 0 where
  pub messages : List ChatMessage
  pub max_output_tokens : Option Number
  pub temperature : Option Number

abbrev default_endpoint : Text
default_endpoint = codes "https://api.openai.com/v1"

abbrev pub build_headers : AdapterConfig → List (Text × Text)
build_headers config =
    let headers = (codes "content-type", codes "application/json") ∷ [] in
    if not (length (trim config.api_key) == 0)
    then headers ++ ((codes "authorization", codes "Bearer " ++ config.api_key) ∷ [])
    else headers

abbrev pub delta_of : Value → Option Text
delta_of payload = is_string (
    chain (codes "content")
      (chain (codes "delta") (chain_first (chain (codes "choices") (some payload)))))

abbrev pub finish_reason_of : Value → Option Text
finish_reason_of payload =
    is_string (chain (codes "finish_reason") (chain_first (chain (codes "choices") (some payload))))

abbrev pub error_message_of : Value → Option Value
error_message_of payload = chain (codes "message") (chain (codes "error") (some payload))

-- `typeof delta === 'string' && delta !== ''`
abbrev pub yield_delta : Option Text → List ChatChunk → List ChatChunk
yield_delta (some (c ∷ delta)) chunks = text (c ∷ delta) ∷ chunks
yield_delta _ chunks = chunks

abbrev pub latest : Option Text → Option Text → Option Text
latest (some reason) before = some reason
latest none before = before

module _ (parse : Text → Option Value) where
  abbrev pub parse_json : Text → Option Value
  parse_json value = not_null (parse value)

  -- The loop over the events, and the last chunk; `finish` is `finishReason` so far.
  unfoldable pub chat_events : List SseEvent → Option Thrown → Option Text → List ChatChunk
  chat_events [] none finish = done finish ∷ []
  chat_events [] (some e) finish = error (message_of e (codes "Stream interrupted")) ∷ []
  chat_events (event ∷ events) thrown finish =
      if text_eq event.content (codes "[DONE]")
      then done finish ∷ []
      else elim (parse_json event.content) [
        | none ↦ chat_events events thrown finish
        | some payload ↦ elim (error_message_of payload) [
          | some message ↦ error message ∷ []
          | none ↦
              yield_delta (delta_of payload)
                (chat_events events thrown (latest (finish_reason_of payload) finish))
        ]
      ]

  -- `parsed?.error?.message ?? (body || status)`
  abbrev pub message_in : Option Value → Text → Text → Value
  message_in none body status = string (or_default body status)
  message_in (some null) body status = string (or_default body status)
  message_in (some message) body status = message

  abbrev pub safe_error_message : Response → Value
  safe_error_message response = elim response.body_text [
    | none ↦ string response.status
    | some body ↦
        message_in (chain (codes "message") (chain (codes "error") (parse_json body))) body
          response.status
  ]

  abbrev pub stream_chat : (ℕ → Bool) → Response → List Text → List ChatChunk
  stream_chat aborted response pieces =
      let stream = parse_sse_stream aborted pieces response.broken in
      chat_events stream.events stream.thrown none

  abbrev pub answer : (ℕ → Bool) → Result Thrown Response → List ChatChunk
  answer aborted (err e) = error (message_of e (codes "Network error")) ∷ []
  answer aborted (ok response) = elim response.pieces [
    | none ↦ error (safe_error_message response) ∷ []
    | some pieces ↦
        if response.is_ok
        then stream_chat aborted response pieces
        else error (safe_error_message response) ∷ []
  ]

  abbrev pub body_of : ChatRequest → AdapterConfig → ChatBody
  body_of request config = record {
    model = config.model;
    messages = request.messages;
    temperature = request.temperature;
    max_tokens = request.max_output_tokens;
  }

  unfoldable pub chat :
      (Text → List (Text × Text) → ChatBody → Result Thrown Response)
      → (ℕ → Bool)
      → ChatRequest
      → AdapterConfig
      → List ChatChunk
  unfolding chat_events
  chat fetch aborted request config = answer aborted (
      fetch
        (join_endpoint (or_default config.endpoint default_endpoint) (codes "/chat/completions"))
        (build_headers config) (body_of request config))
