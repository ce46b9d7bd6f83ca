-- ===== src/Assistant/Sse/Chunks.antt =====
-- Frames do not depend on how the body is cut into chunks (apps/client/src/features/ai/adapters/sse.ts).
use trominal.Shared.{
  ℕ, zero, suc, ◌+◌, ◌≤◌, Bool, Bool-cases, true, false, ◌&&◌, ◌==◌, List, [], ◌∷◌, ◌++◌, concat,
  append_assoc, append-nil, Option, none, some, ◌⊎◌, Text, length, length-append, ◌≡◌, refl, sym,
  ap, ◌∙◌, inl, inr, arith,
}
use trominal.Assistant.Sse.{
  SseEvent, Thrown, Stream, before, split_frame, parse_frame, Drained, emit, drain, drain_all,
  ending, after, read_pieces, parse_sse_stream,
}

before-eq-some :
    (c : ℕ) (o : Option (Text × Text)) {f r : Text}
    → before c o ≡ some (f, r)
    → (g : Text) × (o ≡ some (g, r)) × (f ≡ c ∷ g)
before-eq-some c none h = absurd (cc h)
before-eq-some c (some (g, r)) h = (g, cc h, cc h)

pub split_frame-cons :
    (a b : ℕ) (x : Text) {f r : Text}
    → split_frame (a ∷ b ∷ x) ≡ some (f, r)
    → (((a == 10) && (b == 10) ≡ true) × (f ≡ []) × (r ≡ x))
      ⊎ (((a == 10) && (b == 10) ≡ false)
          × ((g : Text) × (split_frame (b ∷ x) ≡ some (g, r)) × (f ≡ a ∷ g)))
unfolding split_frame
split_frame-cons a b x h = elim (Bool-cases ((a == 10) && (b == 10))) [
  | inl e ↦ let h' = rw e at h in inl (e, cc h', cc h')
  | inr e ↦ inr (e, before-eq-some a (split_frame (b ∷ x)) (rw e at h))
]

split_frame-append :
    (x y : Text) {f r : Text}
    → split_frame x ≡ some (f, r)
    → split_frame (x ++ y) ≡ some (f, r ++ y)
unfolding split_frame
split_frame-append [] y h = absurd (cc h)
split_frame-append (a ∷ []) y h = absurd (cc h)
split_frame-append (a ∷ b ∷ x) y h = elim (split_frame-cons a b x h) [
  | inl (e, none_before, rest) ↦ rw e (rw (none_before, rest) refl)
  | inr (e, (g, found, longer)) ↦ rw e (rw (split_frame-append (b ∷ x) y found, longer) refl)
]

pub split_frame-shorter :
    (x : Text) {f r : Text} → split_frame x ≡ some (f, r) → length r + 2 + length f ≡ length x
unfolding split_frame
split_frame-shorter [] h = absurd (cc h)
split_frame-shorter (a ∷ []) h = absurd (cc h)
split_frame-shorter (a ∷ b ∷ x) h = elim (split_frame-cons a b x h) [
  | inl (e, none_before, rest) ↦ rw (none_before, rest) (omega arith)
  | inr (e, (g, found, longer)) ↦ rw longer (omega (arith, split_frame-shorter (b ∷ x) found))
]

pub Frame-cases :
    (x : Text) → (split_frame x ≡ none) ⊎ ((f : Text) × (r : Text) × (split_frame x ≡ some (f, r)))
Frame-cases x = cases (split_frame x) refl
  where
    cases :
        (o : Option (Text × Text))
        → split_frame x ≡ o
        → (split_frame x ≡ none) ⊎ ((f : Text) × (r : Text) × (split_frame x ≡ some (f, r)))
    cases none h = inl h
    cases (some (f, r)) h = inr (f, r, h)

abbrev with_frame : Text → Drained → Drained
with_frame frame d = record { events = emit (parse_frame frame) d.events; buffer = d.buffer }

pub drain-of_none :
    (n : ℕ) (x : Text) → split_frame x ≡ none → drain n x ≡ record { events = []; buffer = x }
unfolding drain
drain-of_none zero x e = refl
drain-of_none (suc n) x e = rw (e, drain) refl

pub drain-of_some :
    (n : ℕ) (x : Text) {f r : Text}
    → split_frame x ≡ some (f, r)
    → drain (suc n) x ≡ with_frame f (drain n r)
unfolding drain
drain-of_some n x e = rw (e, drain) refl

-- Fuel for a text with a frame is fuel for what follows the frame.
pub split_frame-fuel :
    (n : ℕ) (x : Text) {f r : Text}
    → split_frame x ≡ some (f, r)
    → length x ≤ n
    → (k : ℕ) × (n ≡ suc k) × (length r ≤ k)
split_frame-fuel zero x e h = absurd (omega (arith, h, split_frame-shorter x e))
split_frame-fuel (suc k) x e h = (k, refl, omega (arith, h, split_frame-shorter x e))

-- More fuel than the length changes nothing.
pub drain-enough : (n m : ℕ) (x : Text) → length x ≤ n → length x ≤ m → drain n x ≡ drain m x
drain-enough zero m x h k = elim (Frame-cases x) [
  | inl e ↦ drain-of_none zero x e ∙ sym (drain-of_none m x e)
  | inr (f, r, e) ↦ absurd (omega (arith, h, split_frame-shorter x e))
]
drain-enough (suc n) m x h k = elim (Frame-cases x) [
  | inl e ↦ drain-of_none (suc n) x e ∙ sym (drain-of_none m x e)
  | inr (f, r, e) ↦
      let (m', more, fits) = split_frame-fuel m x e k in
      drain-of_some n x e
      ∙ ap (with_frame f) (drain-enough n m' r (omega (arith, h, split_frame-shorter x e)) fits)
      ∙ sym (ap (λ i. drain i x) more ∙ drain-of_some m' x e)
]

-- The inner loop ends with no frame left.
drain-none : (n : ℕ) (x : Text) → length x ≤ n → split_frame (drain n x).buffer ≡ none
drain-none zero x h = elim (Frame-cases x) [
  | inl e ↦ rw (drain-of_none zero x e) e
  | inr (f, r, e) ↦ absurd (omega (arith, h, split_frame-shorter x e))
]
drain-none (suc n) x h = elim (Frame-cases x) [
  | inl e ↦ rw (drain-of_none (suc n) x e) e
  | inr (f, r, e) ↦
      rw (drain-of_some n x e) (drain-none n r (omega (arith, h, split_frame-shorter x e)))
]

-- The inner loop ends, on fuel for the length of the buffer, with no complete frame left in it, and
-- more fuel changes nothing.
pub drain_settles :
    (n : ℕ) (x : Text)
    → length x ≤ n
    → (drain n x ≡ drain (length x) x) × (split_frame (drain n x).buffer ≡ none)
drain_settles n x h = (drain-enough n (length x) x h (omega arith), drain-none n x h)

emit-append : (o : Option SseEvent) (xs ys : List SseEvent) → emit o (xs ++ ys) ≡ emit o xs ++ ys
emit-append none xs ys = refl
emit-append (some e) xs ys = refl

abbrev then_drained : Drained → Text → Drained
then_drained d y = record {
  events = d.events ++ (drain_all (d.buffer ++ y)).events;
  buffer = (drain_all (d.buffer ++ y)).buffer;
}

with_frame-then :
    (f : Text) (d : Drained) (y : Text)
    → with_frame f (then_drained d y) ≡ then_drained (with_frame f d) y
with_frame-then f d y =
    ap (λ es. record { events = es; buffer = (drain_all (d.buffer ++ y)).buffer })
      (emit-append (parse_frame f) d.events (drain_all (d.buffer ++ y)).events)

-- What is read of a text with a continuation is read of the text, and then of what it leaves with
-- the continuation.
drain-append :
    (n m : ℕ) (x y : Text)
    → length x ≤ n
    → length (x ++ y) ≤ m
    → drain m (x ++ y) ≡ then_drained (drain n x) y
drain-append n zero x y h k = elim (Frame-cases x) [
  | inl e ↦ rw (drain-of_none n x e) (drain-enough zero (length (x ++ y)) (x ++ y) k (omega arith))
  | inr (f, r, e) ↦ absurd (omega (arith, k, length-append x y, split_frame-shorter x e))
]
drain-append n (suc m) x y h k = elim (Frame-cases x) [
  | inl e ↦
      rw (drain-of_none n x e) (drain-enough (suc m) (length (x ++ y)) (x ++ y) k (omega arith))
  | inr (f, r, e) ↦
      let (n', more, fits) = split_frame-fuel n x e h in
      let shorter = split_frame-shorter (x ++ y) (split_frame-append x y e) in
      drain-of_some m (x ++ y) (split_frame-append x y e)
      ∙ ap (with_frame f) (drain-append n' m r y fits (omega (arith, k, shorter)))
      ∙ with_frame-then f (drain n' r) y
      ∙ ap (λ d. then_drained d y) (sym (ap (λ i. drain i x) more ∙ drain-of_some n' x e))
]

-- The reading of a whole text.
abbrev pub finish : Option Thrown → Text → Stream
finish broken text = let d = drain_all text in after d.events (ending broken d.buffer)

abbrev pub never : ℕ → Bool
never n = false

after-after : (xs ys : List SseEvent) (s : Stream) → after xs (after ys s) ≡ after (xs ++ ys) s
after-after xs ys s =
    ap (λ es. record { events = es; thrown = s.thrown }) (sym (append_assoc xs ys s.events))

pub read_pieces-never :
    (n : ℕ) (x : Text) (pieces : List Text) (broken : Option Thrown)
    → split_frame x ≡ none
    → read_pieces never n x pieces broken ≡ finish broken (x ++ concat pieces)
unfolding read_pieces
read_pieces-never n x [] broken e = rw (append-nil x) (rw (drain-of_none (length x) x e) refl)
read_pieces-never n x (piece ∷ pieces) broken e =
    let text = x ++ piece in
    let left = (drain_all text).buffer in
    ap (after (drain_all text).events)
      (read_pieces-never (suc n) left pieces broken (drain-none (length text) text (omega arith)))
    ∙ after-after (drain_all text).events (drain_all (left ++ concat pieces)).events _
    ∙ sym (
        ap (λ (d : Drained). after d.events (ending broken d.buffer))
          (drain-append (length text) (length (text ++ concat pieces)) text (concat pieces)
            (omega arith) (omega arith)))
    ∙ ap (finish broken) (append_assoc x piece (concat pieces))

-- The events of a stream depend on its text only, and not on how the body is cut into pieces: they
-- are those of a stream that comes in one piece, and both end alike.
pub parse_sse_stream-concat :
    (pieces : List Text) (broken : Option Thrown)
    → parse_sse_stream never pieces broken ≡ parse_sse_stream never (concat pieces ∷ []) broken
unfolding split_frame
parse_sse_stream-concat pieces broken =
    read_pieces-never 0 [] pieces broken refl
    ∙ ap (finish broken) (sym (append-nil (concat pieces)))
    ∙ sym (read_pieces-never 0 [] (concat pieces ∷ []) broken refl)
