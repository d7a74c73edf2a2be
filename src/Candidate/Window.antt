-- ===== src/Candidate/Window.antt =====
-- The context window: for every span a slice of the text that does not panic.
use jiraleaks.Base.{
  ℕ, ◌-◌, ◌≤◌, min, max, Bool, some, ◌++◌, ◌≡◌, inl, inr, arith, leb, Bool-cases, any, Text,
}
use jiraleaks.Text.Bytes.{saturating_add, byte_len, floor_char_boundary, ceil_char_boundary}
use jiraleaks.Text.Bytes.Boundary.{
  IsBoundary, floor-IsBoundary, ceil-IsBoundary, floor-le, le-ceil, slice-between,
}
use jiraleaks.Text.Find.{contains}
use jiraleaks.Redact.{Range}
use jiraleaks.Candidate.{context_radius, context_words, context_window}
use jiraleaks.Candidate.Checks.{has_context_word}

max-IsBoundary : (s : Text) (i j : ℕ) → IsBoundary s i → IsBoundary s j → IsBoundary s (max i j)
max-IsBoundary s i j p q = elim (Bool-cases (leb i j)) [
  | inl h ↦ let e : max i j ≡ j = ground arith in rw e q
  | inr h ↦ let e : max i j ≡ i = ground arith in rw e p
]

-- For every text and every span, also one that is inverted, that cuts characters or that lies
-- outside the text, the window does not panic. It is a part of the text that begins at the radius
-- before the start of the span or earlier, and ends at the radius after its end or later, as far
-- as the text reaches.
pub context_window_covers :
    (text : Text) (span : Range) (radius : ℕ)
    → (w : Text) × (a : Text) × (b : Text) × (context_window text span radius ≡ some w)
      × (text ≡ (a ++ w) ++ b)
      × (byte_len a ≤ span.start - radius)
      × (min (saturating_add span.end radius) (byte_len text) ≤ byte_len (a ++ w))
unfolding context_window
context_window_covers text span radius =
    let len = byte_len text in
    let from = min (span.start - radius) len in
    let to = min (saturating_add span.end radius) len in
    let start = floor_char_boundary text from in
    let end = max (ceil_char_boundary text to) start in
    let (w, a, b, cut, whole, first, last) =
      slice-between text start end (floor-IsBoundary text from)
        (max-IsBoundary text _ _ (ceil-IsBoundary text to) (floor-IsBoundary text from))
        (omega arith) in
    let reach : to ≤ ceil_char_boundary text to = le-ceil text to (omega arith) in
    (w, a, b, cut, whole, omega (arith, floor-le text from), omega (arith, reach, last))

pub has_context_word_total :
    (lower : Text → Text) (text : Text) (span : Range)
    → (found : Bool) × (has_context_word lower text span ≡ some found)
unfolding has_context_word
has_context_word_total lower text span =
    let (w, a, b, cut, whole, first, last) = context_window_covers text span context_radius in
    (any (λ word. contains (lower w) word) context_words, rw (cut, has_context_word))
