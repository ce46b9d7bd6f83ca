-- ===== src/Crypto/OpenSsh/Wrapping.antt =====
-- `wrapBase64` of packages/crypto/src/openssh.ts: the lines of a PEM body.
use trominal.Shared.{
  ℕ, ◌≤◌, ◌<◌, false, Bool-cases, inl, inr, List, [], ◌∷◌, ◌++◌, length, Text, ltb, ltb→lt, ◌≡◌,
  refl, ap, ◌∙◌, sym, arith, All, append_assoc, length-append,
}
use trominal.Crypto.Wire.{concat}
use trominal.Crypto.OpenSsh.{join_lines, is_line_end, close, matches, wrap_base64, join_matches}

abbrev pub NoLineEnd : Text → Type 0
NoLineEnd = All (λ c. is_line_end c ≡ false)

concat-close : (cur : Text) (rest : List Text) → concat (close cur rest) ≡ cur ++ concat rest
unfolding concat
concat-close [] rest = refl
concat-close (c ∷ cur) rest = refl

concat-matches : (width : ℕ) (cur s : Text) → NoLineEnd s → concat (matches width cur s) ≡ cur ++ s
unfolding matches concat
concat-matches width cur [] h = concat-close cur []
concat-matches width cur (c ∷ s) (here, h) = rw here (elim (Bool-cases (ltb (length cur) width)) [
  | inl e ↦ rw e (concat-matches width (cur ++ c ∷ []) s h ∙ append_assoc cur (c ∷ []) s)
  | inr e ↦ rw e (
      concat-close cur (matches width (c ∷ []) s)
      ∙ ap (λ t. cur ++ t) (concat-matches width (c ∷ []) s h))
])

abbrev pub Fits : ℕ → Text → Type 0
Fits width line = (0 < length line) × (length line ≤ width)

close-Fits :
    (width : ℕ) (cur : Text) (rest : List Text)
    → length cur ≤ width
    → All (Fits width) rest
    → All (Fits width) (close cur rest)
close-Fits width [] rest h r = r
close-Fits width (c ∷ cur) rest h r = ((omega arith, h), r)

matches-Fits :
    (width : ℕ) (cur s : Text)
    → 0 < width
    → length cur ≤ width
    → All (Fits width) (matches width cur s)
unfolding matches
matches-Fits width cur [] w h = close-Fits width cur [] h tt
matches-Fits width cur (c ∷ s) w h = elim (Bool-cases (is_line_end c)) [
  | inl e ↦
      rw e (close-Fits width cur (matches width [] s) h (matches-Fits width [] s w (omega arith)))
  | inr e ↦ rw e (elim (Bool-cases (ltb (length cur) width)) [
    | inl l ↦ rw l (
        matches-Fits width (cur ++ c ∷ []) s w
          (omega (arith, length-append cur (c ∷ []), ltb→lt (length cur) width l)))
    | inr l ↦ rw l (
        close-Fits width cur (matches width (c ∷ []) s) h
          (matches-Fits width (c ∷ []) s w (omega arith)))
  ])
]

join_matches_lem :
    (value : Text) (lines : List Text)
    → concat lines ≡ value
    → join_matches value lines ≡ join_lines lines
unfolding concat join_lines
join_matches_lem value [] h = sym h
join_matches_lem value (line ∷ lines) h = refl

-- The wrapped text is its lines joined by line feeds; no line is empty or longer than the width,
-- and the lines hold the text, in order, if that has no line end of its own.
pub wrap_base64-lines :
    (value : Text) (width : ℕ)
    → 0 < width
    → NoLineEnd value
    → (lines : List Text) × (wrap_base64 value width ≡ join_lines lines)
      × (concat lines ≡ value)
      × All (Fits width) lines
unfolding wrap_base64
wrap_base64-lines value width w h =
    let held : concat (matches width [] value) ≡ value = concat-matches width [] value h in
    (
      matches width [] value,
      join_matches_lem value (matches width [] value) held,
      held,
      matches-Fits width [] value w (omega arith),
    )
