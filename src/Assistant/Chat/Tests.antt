-- ===== src/Assistant/Chat/Tests.antt =====
-- Streams and answers on concrete bodies (apps/client/src/features/ai/adapters).
use trominal.Shared.{
  ltb, not, List, [], ◌∷◌, ◌++◌, map, concat, Option, none, some, Text, codes, text_eq, ◌≡◌, refl,
  arith,
}
use trominal.Shared
use trominal.Json
use trominal.Json.{Value, string, object, array, nil, cons, field, end}
use trominal.Assistant.Sse
use trominal.Assistant.Sse.{error_with, Frame, drain, split_frame, parse_sse_stream}
use trominal.Assistant.Sse.Chunks.{never, drain_settles, parse_sse_stream-concat}
use trominal.Assistant.Sse.Lines.{IsSendable, has_no_newline, print_frame, sent_event}
use trominal.Assistant.Sse.Frames.{parse_sse_stream-sent}
use trominal.Assistant.Chat.{AdapterConfig}
use trominal.Assistant.Chat.OpenAi
use trominal.Assistant.Chat.OpenAi.{ChatRequest}
use trominal.Assistant.Chat.Anthropic
use trominal.Assistant.Chat.Delivery.{done_frame, done_frame-IsSendable, deltas, reason}

abbrev hello : Frame
hello = record { event = codes "message"; data_lines = codes "H" ∷ [] }

abbrev body : Text
body = concat (map print_frame (hello ∷ done_frame ∷ []))

-- The body cut in the middle of the first frame.
abbrev pieces : List Text
pieces = Shared.take 9 body ∷ Shared.drop 9 body ∷ []

hello-IsSendable : IsSendable hello
unfolding Shared.trim_start Sse.without_return
hello-IsSendable = (
  (has_no_newline (codes "message") refl, refl, refl),
  ((has_no_newline (codes "H") refl, refl, refl), tt),
  λ e. cc e,
)

abbrev payload : Value
payload = object (
    field (codes "choices")
      (array (
        cons
          (object (
            field (codes "delta") (object (field (codes "content") (string (codes "Hi")) end))
              (field (codes "finish_reason") (string (codes "stop")) end)))
          nil))
      end)

abbrev parse : Text → Option Value
parse s = some payload

abbrev config : AdapterConfig
config = record { endpoint = []; model = codes "m"; api_key = codes "k" }

abbrev request : ChatRequest
request = record { messages = []; max_output_tokens = none; temperature = none }

cr_run :
    parse_sse_stream never ((codes "data: a" ++ (13 ∷ 10 ∷ 10 ∷ [])) ∷ codes "data: b" ∷ []) none
    ≡ record {
      events =
          record { event = codes "message"; content = codes "a" }
          ∷ record { event = codes "message"; content = codes "b" }
          ∷ [];
      thrown = none;
    }
unfolding Sse.read_pieces Sse.drain Sse.split_frame Sse.parse_frame Sse.read_lines Sse.read_field
    Sse.split_lines Sse.split_field Sse.without_return Sse.flush_frame Shared.text_eq Shared.trim
    Shared.trim_start
cr_run = refl

aborted_run :
    parse_sse_stream (λ n. not (ltb n 1)) (codes "data: a" ∷ codes "b" ∷ []) none
    ≡ record { events = []; thrown = none }
unfolding Sse.read_pieces Sse.drain Sse.split_frame
aborted_run = refl

drain_settles_example :
    (drain 9 (codes "data: b") ≡ drain 7 (codes "data: b"))
    × (split_frame (drain 9 (codes "data: b")).buffer ≡ none)
drain_settles_example = drain_settles 9 (codes "data: b") (omega arith)

parse_sse_stream-concat_example :
    parse_sse_stream never pieces (some (error_with (codes "reset")))
    ≡ parse_sse_stream never (concat pieces ∷ []) (some (error_with (codes "reset")))
parse_sse_stream-concat_example = parse_sse_stream-concat pieces (some (error_with (codes "reset")))

parse_sse_stream-sent_example :
    parse_sse_stream never pieces none
    ≡ record { events = map sent_event (hello ∷ done_frame ∷ []); thrown = none }
parse_sse_stream-sent_example =
    parse_sse_stream-sent (hello ∷ done_frame ∷ []) pieces
      (hello-IsSendable, (done_frame-IsSendable, tt)) refl

deltas_run :
    (deltas ((hello, payload) ∷ []) ≡ codes "Hi" ∷ [])
    × (reason ((hello, payload) ∷ []) none ≡ some (codes "stop"))
unfolding Json.get Shared.text_eq
deltas_run = (refl, refl)
