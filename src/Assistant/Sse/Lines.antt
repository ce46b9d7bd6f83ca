-- ===== src/Assistant/Sse/Lines.antt =====
-- The lines of a frame that a provider sends, and their reading (apps/client/src/features/ai/adapters/sse.ts).
use trominal.Shared.{
  ℕ, ◌≢◌, true, false, not, every, and_true, ◌==◌, List, [], ◌∷◌, ◌++◌, map, concat, append_assoc,
  append-nil, some, Text, codes, text_eq, trim_start, ◌≡◌, refl, sym, ap, ◌∙◌, All, arith,
}
use trominal.Assistant.Sse.{
  SseEvent, Frame, join_lines, split_lines, without_return, split_field, read_field, read_lines,
  event_of, parse_frame,
}

abbrev pub field_line : Text → Text → Text
field_line name value = name ++ (58 ∷ 32 ∷ value)

abbrev pub event_line : Text → Text
event_line value = field_line (codes "event") value

abbrev pub data_line : Text → Text
data_line value = field_line (codes "data") value

-- A server's frame: a line for the event, one for each line of the data, and an empty line.
abbrev pub lines_of : Frame → List Text
lines_of frame = event_line frame.event ∷ map data_line frame.data_lines

abbrev pub print_line : Text → Text
print_line line = line ++ (10 ∷ [])

abbrev pub print_frame : Frame → Text
print_frame frame = concat (map print_line (lines_of frame)) ++ (10 ∷ [])

abbrev pub sent_event : Frame → SseEvent
sent_event frame = record { event = frame.event; content = join_lines frame.data_lines }

-- A value has no line end, does not begin with white space and does not end with `\r`.
abbrev pub IsValue : Text → Type 0
IsValue value =
    (All (λ c. c ≢ 10) value) × (trim_start value ≡ value) × (without_return value ≡ value)

abbrev pub IsSendable : Frame → Type 0
IsSendable frame = IsValue frame.event × All IsValue frame.data_lines × (frame.data_lines ≢ [])

abbrev pub Line : Text → Type 0
Line line = All (λ c. c ≢ 10) line

pub not_newline : {c : ℕ} → c ≢ 10 → (c == 10) ≡ false
not_newline {c} h = ground arith

pub has_no_newline : (s : Text) → every (λ c. not (c == 10)) s ≡ true → All (λ c. c ≢ 10) s
has_no_newline [] h = tt
has_no_newline (c ∷ s) h =
    let (first, rest) = and_true {a = not (c == 10)} h in
    (λ e. ground (arith, e, first), has_no_newline s rest)

split_lines-append :
    (line s : Text) → Line line → split_lines (line ++ (10 ∷ s)) ≡ line ∷ split_lines s
unfolding split_lines
split_lines-append [] s h = refl
split_lines-append (c ∷ line) s (h, hs) =
    rw (not_newline h) (rw (split_lines-append line s hs) refl)

split_lines-Line : (line : Text) → Line line → split_lines line ≡ line ∷ []
unfolding split_lines
split_lines-Line [] h = refl
split_lines-Line (c ∷ line) (h, hs) = rw (not_newline h) (rw (split_lines-Line line hs) refl)

split_lines-join_lines :
    (line : Text) (lines : List Text)
    → Line line
    → All Line lines
    → split_lines (join_lines (line ∷ lines)) ≡ line ∷ lines
split_lines-join_lines line [] h hs = split_lines-Line line h
split_lines-join_lines line (next ∷ lines) h (g, hs) =
    split_lines-append line (join_lines (next ∷ lines)) h
    ∙ ap (λ ls. line ∷ ls) (split_lines-join_lines next lines g hs)

without_return-space : (v : Text) → without_return v ≡ v → without_return (32 ∷ v) ≡ 32 ∷ v
unfolding without_return
without_return-space [] h = refl
without_return-space (c ∷ v) h = ap (λ t. 32 ∷ t) h

read-event_line :
    (v : Text) (frame : Frame)
    → IsValue v
    → read_field (split_field (without_return (event_line v))) frame
      ≡ record { event = v; data_lines = frame.data_lines }
unfolding without_return split_field read_field text_eq trim_start
read-event_line v frame (clean, trimmed, plain) =
    rw (without_return-space v plain)
      (ap (λ t. record { event = t; data_lines = frame.data_lines }) trimmed)

read-data_line :
    (v : Text) (frame : Frame)
    → IsValue v
    → read_field (split_field (without_return (data_line v))) frame
      ≡ record { event = frame.event; data_lines = frame.data_lines ++ (v ∷ []) }
unfolding without_return split_field read_field text_eq trim_start
read-data_line v frame (clean, trimmed, plain) =
    rw (without_return-space v plain)
      (ap (λ t. record { event = frame.event; data_lines = frame.data_lines ++ (t ∷ []) }) trimmed)

read-data_lines :
    (vs : List Text) (frame : Frame)
    → All IsValue vs
    → read_lines (map data_line vs) frame
      ≡ record { event = frame.event; data_lines = frame.data_lines ++ vs }
unfolding read_lines
read-data_lines [] frame h =
    ap (λ ls. record { event = frame.event; data_lines = ls }) (sym (append-nil frame.data_lines))
read-data_lines (v ∷ vs) frame (h, hs) =
    ap (read_lines (map data_line vs)) (read-data_line v frame h)
    ∙ read-data_lines vs (record { event = frame.event; data_lines = frame.data_lines ++ (v ∷ []) })
        hs
    ∙ ap (λ ls. record { event = frame.event; data_lines = ls })
        (append_assoc frame.data_lines (v ∷ []) vs)

event_of-sent :
    (event : Text) (ls : List Text)
    → ls ≢ []
    → event_of (record { event = event; data_lines = ls })
      ≡ some (record { event = event; content = join_lines ls })
event_of-sent event [] h = absurd (h refl)
event_of-sent event (l ∷ ls) h = refl

pub event_line-Line : (v : Text) → IsValue v → Line (event_line v)
event_line-Line v (clean, _, _) = (
  λ e. omega (arith, e),
  (
    λ e. omega (arith, e),
    (
      λ e. omega (arith, e),
      (
        λ e. omega (arith, e),
        (λ e. omega (arith, e), (λ e. omega (arith, e), (λ e. omega (arith, e), clean))),
      ),
    ),
  ),
)

pub data_lines-Line : (vs : List Text) → All IsValue vs → All Line (map data_line vs)
data_lines-Line [] h = tt
data_lines-Line (v ∷ vs) ((clean, _, _), hs) = (
  (
    λ e. omega (arith, e),
    (
      λ e. omega (arith, e),
      (
        λ e. omega (arith, e),
        (λ e. omega (arith, e), (λ e. omega (arith, e), (λ e. omega (arith, e), clean))),
      ),
    ),
  ),
  data_lines-Line vs hs,
)

pub parse_frame-sent :
    (frame : Frame)
    → IsSendable frame
    → parse_frame (join_lines (lines_of frame)) ≡ some (sent_event frame)
unfolding parse_frame read_lines
parse_frame-sent frame (h, hs, some_data) =
    ap (λ ls. event_of (read_lines ls start))
      (split_lines-join_lines (event_line frame.event) (map data_line frame.data_lines)
        (event_line-Line frame.event h) (data_lines-Line frame.data_lines hs))
    ∙ ap (λ f. event_of (read_lines (map data_line frame.data_lines) f))
        (read-event_line frame.event start h)
    ∙ ap event_of
        (read-data_lines frame.data_lines (record { event = frame.event; data_lines = [] }) hs)
    ∙ event_of-sent frame.event frame.data_lines some_data
  where
    start : Frame
    start = record { event = codes "message"; data_lines = [] }
