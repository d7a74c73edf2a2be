-- ===== src/Candidate/Classes.antt =====
-- The requirements on character classes.
use jiraleaks.Base.{ℕ, ◌+◌, ◌≤◌, ◌<◌, min, some, List, [], ◌∷◌, ◌≡◌, arith, length, Text}
use jiraleaks.Entropy.{Float}
use jiraleaks.Rule.{CompiledRule}
use jiraleaks.Candidate.{CharClass, missing_char_class}
use jiraleaks.Candidate.Checks.{Counts, count_char, count_chars, class_check, char_classes}

abbrev counted : Counts → ℕ
counted n = n.digits + n.upper + n.lower + n.special

counted-count_char :
    (special : List ℕ) (c : ℕ) (n : Counts) → counted (count_char special c n) ≤ counted n + 1
unfolding count_char
counted-count_char special c n = ground arith

counted-count_chars :
    (special : List ℕ) (s : Text) (n : Counts)
    → counted (count_chars special s n) ≤ counted n + length s
unfolding count_chars
counted-count_chars special [] n = omega arith
counted-count_chars special (c ∷ s) n =
    omega (
      arith,
      counted-count_char special c n,
      counted-count_chars special s (count_char special c n),
    )

abbrev none_counted : Counts
none_counted = record { digits = 0; upper = 0; lower = 0; special = 0 }

module _ (fl : Float) (lower : Text → Text) (rule : CompiledRule fl.F) (value : Text) where
  -- A rejection by character class reports a number below the minimum that it reports, and no more
  -- characters than the value has.
  char_classes_sound :
      (c : CharClass) (min got : ℕ)
      → char_classes fl lower value rule ≡ some (missing_char_class c min got)
      → (got < min) × (got ≤ length value)
  unfolding char_classes class_check
  char_classes_sound c min got h =
      ground (arith, counted-count_chars rule.special_chars value none_counted)
