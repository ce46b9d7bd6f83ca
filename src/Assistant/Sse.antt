-- ===== src/Assistant/Sse.antt =====
-- apps/client/src/features/ai/adapters/sse.ts. The pieces are what `decoder.decode` returns for the
-- chunks of the body; `aborted n` is the signal before read number `n`.
pub mod Chunks
pub mod Lines
pub mod Frames
use trominal.Shared.{
  ℕ, zero, suc, Bool, ◌&&◌, ◌==◌, List, [], ◌∷◌, ◌++◌, Option, none, some, Text, codes, text_eq,
  trim, trim_start, length, if◌then◌else◌,
}

pub record SseEvent : Type 0 where
  pub event : Text
  pub content : Text

-- What a read throws: an `Error` with its message, or any other value.
pub data Thrown : Type 0 where
  error_with : Text → Thrown
  other : Thrown

-- What the generator yields, and what it throws after that.
pub record Stream : Type 0 where
  pub events : List SseEvent
  pub thrown : Option Thrown

abbrev newline : ℕ
newline = 10

-- `raw.split('\n')`
abbrev in_first_line : ℕ → List Text → List Text
in_first_line c [] = (c ∷ []) ∷ []
in_first_line c (line ∷ lines) = (c ∷ line) ∷ lines

unfoldable pub split_lines : Text → List Text
split_lines [] = [] ∷ []
split_lines (c ∷ s) =
    let lines = split_lines s in if c == 10 then [] ∷ lines else in_first_line c lines

-- `lines.join('\n')`
abbrev pub join_lines : List Text → Text
join_lines [] = []
join_lines (line ∷ []) = line
join_lines (line ∷ next ∷ lines) = line ++ (10 ∷ join_lines (next ∷ lines))

-- `line.endsWith('\r') ? line.slice(0, -1) : line`
unfoldable pub without_return : Text → Text
without_return [] = []
without_return (c ∷ []) = if c == 13 then [] else c ∷ []
without_return (c ∷ d ∷ s) = c ∷ without_return (d ∷ s)

abbrev pub before : ℕ → Option (Text × Text) → Option (Text × Text)
before c none = none
before c (some (field, value)) = some (c ∷ field, value)

-- What stands before and after the first `:`.
unfoldable pub split_field : Text → Option (Text × Text)
split_field [] = none
split_field (c ∷ s) = let rest = before c (split_field s) in if c == 58 then some ([], s) else rest

pub record Frame : Type 0 where
  pub event : Text
  pub data_lines : List Text

-- The assignments for one field, and the tests of a line that is empty, a comment or no field.
unfoldable pub read_field : Option (Text × Text) → Frame → Frame
read_field none frame = frame
read_field (some ([], value)) frame = frame
read_field (some (c ∷ name, value)) frame =
    if text_eq (c ∷ name) (codes "event")
    then record { event = trim_start value; data_lines = frame.data_lines }
    else if text_eq (c ∷ name) (codes "data")
    then record { event = frame.event; data_lines = frame.data_lines ++ (trim_start value ∷ []) }
    else frame

unfoldable pub read_lines : List Text → Frame → Frame
unfolding read_field
read_lines [] frame = frame
read_lines (line ∷ lines) frame =
    read_lines lines (read_field (split_field (without_return line)) frame)

abbrev pub event_of : Frame → Option SseEvent
event_of frame = elim frame.data_lines [
  | [] ↦ none
  | line ∷ lines ↦ some (record { event = frame.event; content = join_lines (line ∷ lines) })
]

unfoldable pub parse_frame : Text → Option SseEvent
unfolding read_lines
parse_frame raw =
    event_of (read_lines (split_lines raw) (record { event = codes "message"; data_lines = [] }))

abbrev pub is_blank : Text → Bool
is_blank text = length (trim text) == 0

unfoldable pub flush_frame : Text → Option SseEvent
unfolding parse_frame
flush_frame remainder = if is_blank remainder then none else parse_frame remainder

-- The text before the first empty line, and the text after it.
unfoldable pub split_frame : Text → Option (Text × Text)
split_frame [] = none
split_frame (a ∷ []) = none
split_frame (a ∷ b ∷ s) =
    let rest = before a (split_frame (b ∷ s)) in
    if (a == 10) && (b == 10) then some ([], s) else rest

pub record Drained : Type 0 where
  pub events : List SseEvent
  pub buffer : Text

abbrev pub emit : Option SseEvent → List SseEvent → List SseEvent
emit none events = events
emit (some event) events = event ∷ events

-- The inner loop, on fuel.
unfoldable pub drain : ℕ → Text → Drained
unfolding parse_frame
drain zero buffer = record { events = []; buffer = buffer }
drain (suc fuel) buffer = elim (split_frame buffer) [
  | none ↦ record { events = []; buffer = buffer }
  | some (frame, rest) ↦ record {
    events = emit (parse_frame frame) (drain fuel rest).events;
    buffer = (drain fuel rest).buffer;
  }
]

abbrev pub drain_all : Text → Drained
drain_all buffer = drain (length buffer) buffer

abbrev pub ending : Option Thrown → Text → Stream
ending none buffer = record { events = emit (flush_frame buffer) []; thrown = none }
ending (some e) buffer = record { events = []; thrown = some e }

abbrev pub after : List SseEvent → Stream → Stream
after events stream = record { events = events ++ stream.events; thrown = stream.thrown }

abbrev stopped : Stream
stopped = record { events = []; thrown = none }

-- The outer loop; `broken` is what the read after the last piece throws.
unfoldable pub read_pieces : (ℕ → Bool) → ℕ → Text → List Text → Option Thrown → Stream
unfolding drain
read_pieces aborted n buffer [] broken = if aborted n then stopped else ending broken buffer
read_pieces aborted n buffer (piece ∷ pieces) broken =
    let drained = drain_all (buffer ++ piece) in
    let rest = after drained.events (read_pieces aborted (suc n) drained.buffer pieces broken) in
    if aborted n then stopped else rest

abbrev pub parse_sse_stream : (ℕ → Bool) → List Text → Option Thrown → Stream
parse_sse_stream aborted pieces broken = read_pieces aborted 0 [] pieces broken
