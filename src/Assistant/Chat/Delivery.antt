-- ===== src/Assistant/Chat/Delivery.antt =====
-- What a provider streams is what the adapter yields (apps/client/src/features/ai/adapters/openai.ts
-- over sse.ts).
use trominal.Shared.{
  true, List, [], ◌∷◌, Option, none, some, Text, codes, trim_start, ◌≡◌, ◌≢◌, refl,
}
use trominal.Json.{Value}
use trominal.Assistant.Sse.{Frame, join_lines, without_return}
use trominal.Assistant.Sse.Lines.{IsSendable, has_no_newline}
use trominal.Assistant.Chat.{Response, not_null}
use trominal.Assistant.Chat.OpenAi.{delta_of, finish_reason_of, error_message_of, latest}

-- A frame with the payload that its data is the JSON of.
abbrev pub Sent : Type 0
Sent = Frame × Value

abbrev pub add_delta : Option Text → List Text → List Text
add_delta (some (c ∷ delta)) later = (c ∷ delta) ∷ later
add_delta _ later = later

abbrev pub deltas : List Sent → List Text
deltas [] = []
deltas ((frame, payload) ∷ sent) = add_delta (delta_of payload) (deltas sent)

-- The last reason that was given.
abbrev pub reason : List Sent → Option Text → Option Text
reason [] before = before
reason ((frame, payload) ∷ sent) before = reason sent (latest (finish_reason_of payload) before)

abbrev pub done_frame : Frame
done_frame = record { event = codes "message"; data_lines = codes "[DONE]" ∷ [] }

abbrev pub streamed : List Text → Response
streamed pieces = record {
  is_ok = true;
  status = codes "200 OK";
  body_text = none;
  pieces = some pieces;
  broken = none;
}

-- The payload is neither `null` nor an error, and its text is not the sentinel.
abbrev pub IsDelivered : (Text → Option Value) → Sent → Type 0
IsDelivered parse (frame, payload) =
    (IsSendable frame)
    × (not_null (parse (join_lines frame.data_lines)) ≡ some payload)
    × (error_message_of payload ≡ none)
    × (join_lines frame.data_lines ≢ codes "[DONE]")

pub done_frame-IsSendable : IsSendable done_frame
unfolding trim_start without_return
done_frame-IsSendable = (
  (has_no_newline (codes "message") refl, refl, refl),
  ((has_no_newline (codes "[DONE]") refl, refl, refl), tt),
  λ e. cc e,
)
