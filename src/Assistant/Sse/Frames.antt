-- ===== src/Assistant/Sse/Frames.antt =====
-- What a provider sends comes back (apps/client/src/features/ai/adapters/sse.ts).
use trominal.Shared.{
  ℕ, ◌≤◌, ◌≢◌, List, [], ◌∷◌, ◌++◌, map, concat, append_assoc, append-nil, none, some, Text, codes,
  trim, trim_start, length, ◌≡◌, refl, sym, ap, ◌∙◌, All, arith,
}
use trominal.Assistant.Sse.{
  Frame, join_lines, parse_frame, before, split_frame, Drained, emit, drain, flush_frame, after,
  ending, parse_sse_stream,
}
use trominal.Assistant.Sse.Chunks.{
  drain-of_some, drain-of_none, never, finish, read_pieces-never, split_frame-fuel,
}
use trominal.Assistant.Sse.Lines.{
  event_line, data_line, lines_of, print_line, print_frame, sent_event, IsValue, IsSendable, Line,
  not_newline, event_line-Line, data_lines-Line, parse_frame-sent,
}

split_frame-Line :
    (line : Text) (c : ℕ) (s f r : Text)
    → Line line
    → split_frame (c ∷ s) ≡ some (f, r)
    → split_frame (line ++ (c ∷ s)) ≡ some (line ++ f, r)
unfolding split_frame
split_frame-Line [] c s f r h e = e
split_frame-Line (a ∷ []) c s f r (h, _) e = rw (not_newline h) (ap (before a) e)
split_frame-Line (a ∷ b ∷ line) c s f r (h, hs) e =
    rw (not_newline h) (ap (before a) (split_frame-Line (b ∷ line) c s f r hs e))

split_frame-newline :
    (c : ℕ) (s f r : Text)
    → c ≢ 10
    → split_frame (c ∷ s) ≡ some (f, r)
    → split_frame (10 ∷ c ∷ s) ≡ some (10 ∷ f, r)
unfolding split_frame
split_frame-newline c s f r h e = rw (not_newline h) (ap (before 10) e)

join_lines-cons :
    (d : ℕ) (line : Text) (lines : List Text)
    → join_lines ((d ∷ line) ∷ lines) ≡ d ∷ join_lines (line ∷ lines)
join_lines-cons d line [] = refl
join_lines-cons d line (next ∷ lines) = refl

-- Lines that are not empty, followed by an empty line.
split_frame-join_lines :
    (c : ℕ) (line : Text) (lines : List Text) (rest : Text)
    → Line (c ∷ line)
    → All (λ l. Line l × (l ≢ [])) lines
    → split_frame (join_lines ((c ∷ line) ∷ lines) ++ (10 ∷ 10 ∷ rest))
      ≡ some (join_lines ((c ∷ line) ∷ lines), rest)
unfolding split_frame
split_frame-join_lines c line [] rest h hs =
    split_frame-Line (c ∷ line) 10 (10 ∷ rest) [] rest h refl
    ∙ ap (λ t. some (t, rest)) (append-nil (c ∷ line))
split_frame-join_lines c line ([] ∷ lines) rest h ((_, g), hs) = absurd (g refl)
split_frame-join_lines c line ((d ∷ next) ∷ lines) rest h ((g, _), hs) =
    let found = split_frame-join_lines d next lines rest g hs in
    ap (λ t. split_frame (c ∷ t))
      (append_assoc line (10 ∷ join_lines ((d ∷ next) ∷ lines)) (10 ∷ 10 ∷ rest))
    ∙ split_frame-Line (c ∷ line) 10 (join_lines ((d ∷ next) ∷ lines) ++ (10 ∷ 10 ∷ rest))
        (10 ∷ join_lines ((d ∷ next) ∷ lines)) rest h
        (rw (join_lines-cons d next lines) (
          split_frame-newline d (join_lines (next ∷ lines) ++ (10 ∷ 10 ∷ rest))
            (d ∷ join_lines (next ∷ lines)) rest g.0 (rw (join_lines-cons d next lines) at found)))

print_lines-join_lines :
    (line : Text) (lines : List Text) (rest : Text)
    → concat (map print_line (line ∷ lines)) ++ (10 ∷ rest)
      ≡ join_lines (line ∷ lines) ++ (10 ∷ 10 ∷ rest)
print_lines-join_lines line [] rest =
    ap (λ t. t ++ (10 ∷ rest)) (append-nil (line ++ (10 ∷ [])))
    ∙ append_assoc line (10 ∷ []) (10 ∷ rest)
print_lines-join_lines line (next ∷ lines) rest =
    append_assoc (line ++ (10 ∷ [])) (concat (map print_line (next ∷ lines))) (10 ∷ rest)
    ∙ append_assoc line (10 ∷ []) (concat (map print_line (next ∷ lines)) ++ (10 ∷ rest))
    ∙ ap (λ t. line ++ (10 ∷ t)) (print_lines-join_lines next lines rest)
    ∙ sym (append_assoc line (10 ∷ join_lines (next ∷ lines)) (10 ∷ 10 ∷ rest))

data_lines-IsLine :
    (vs : List Text) → All IsValue vs → All (λ l. Line l × (l ≢ [])) (map data_line vs)
data_lines-IsLine [] h = tt
data_lines-IsLine (v ∷ vs) (h, hs) =
    (((data_lines-Line (v ∷ []) (h, tt)).0, λ e. cc e), data_lines-IsLine vs hs)

split_frame-sent :
    (frame : Frame) (rest : Text)
    → IsSendable frame
    → split_frame (print_frame frame ++ rest) ≡ some (join_lines (lines_of frame), rest)
split_frame-sent frame rest (h, hs, some_data) =
    ap split_frame (
      append_assoc (concat (map print_line (lines_of frame))) (10 ∷ []) rest
      ∙ print_lines-join_lines (event_line frame.event) (map data_line frame.data_lines) rest)
    ∙ split_frame-join_lines 101 (codes "vent" ++ (58 ∷ 32 ∷ frame.event))
        (map data_line frame.data_lines) rest (event_line-Line frame.event h)
        (data_lines-IsLine frame.data_lines hs)

drain-sent :
    (n : ℕ) (frames : List Frame)
    → length (concat (map print_frame frames)) ≤ n
    → All IsSendable frames
    → drain n (concat (map print_frame frames))
      ≡ record { events = map sent_event frames; buffer = [] }
unfolding split_frame
drain-sent n [] fits h = drain-of_none n [] refl
drain-sent n (frame ∷ frames) fits (h, hs) =
    let rest = concat (map print_frame frames) in
    let found = split_frame-sent frame rest h in
    let (k, more, fits) = split_frame-fuel n (print_frame frame ++ rest) found fits in
    ap (λ i. drain i (print_frame frame ++ rest)) more
    ∙ drain-of_some k (print_frame frame ++ rest) found
    ∙ ap
        (λ (d : Drained). record {
          events = emit (parse_frame (join_lines (lines_of frame))) d.events;
          buffer = d.buffer;
        })
        (drain-sent k frames fits hs)
    ∙ ap (λ e. record { events = emit e (map sent_event frames); buffer = [] })
        (parse_frame-sent frame h)

-- Frames that are sent one after the other, cut into pieces in any way, come back as events in
-- their order, with the lines of the data joined, and nothing else is yielded or thrown; the values
-- have no line end, no white space in front and no `\r` at the end, and each frame has data.
pub parse_sse_stream-sent :
    (frames : List Frame) (pieces : List Text)
    → All IsSendable frames
    → concat pieces ≡ concat (map print_frame frames)
    → parse_sse_stream never pieces none ≡ record { events = map sent_event frames; thrown = none }
unfolding split_frame flush_frame trim trim_start
parse_sse_stream-sent frames pieces h sent =
    read_pieces-never 0 [] pieces none refl
    ∙ ap (finish none) sent
    ∙ ap (λ (d : Drained). after d.events (ending none d.buffer))
        (drain-sent (length (concat (map print_frame frames))) frames (omega arith) h)
    ∙ ap (λ es. record { events = es; thrown = none }) (append-nil (map sent_event frames))
