-- ===== src/Sanitize/Fixed.antt =====
-- Text that sanitising leaves as it is, and the cells of the CSV report.
use jiraleaks.Base.{
  ℕ, zero, suc, ◌<◌, true, false, none, some, [], ◌∷◌, ◌≡◌, inl, inr, refl, ap, arith, Bool-cases,
  length, Text, if_intro,
}
use jiraleaks.Text.Space.{trim_start, is_whitespace}
use jiraleaks.Sanitize.{
  KeepNewlines, Cow, as_str, turn, sanitize_from, sanitize, finish_some, quoted_some,
  starts_with_formula_sigil, quoted, csv_field,
}
use jiraleaks.Sanitize.Clean.{allowed, IsClean, sanitize-IsClean}

turn-allowed :
    (keep : KeepNewlines) (text : Text) (ch : ℕ) (rest : Text)
    → allowed keep ch ≡ true
    → turn keep text none ch rest ≡ (none, rest)
unfolding turn
turn-allowed KeepNewlines.yes text ch rest h = ground arith
turn-allowed KeepNewlines.no text ch rest h = ground arith

sanitize_from-IsClean :
    (keep : KeepNewlines) (text : Text) (n : ℕ) (chars : Text)
    → length chars < n
    → IsClean keep chars
    → sanitize_from keep text n none chars ≡ some none
unfolding sanitize_from
sanitize_from-IsClean keep text zero chars h clean = absurd (omega arith)
sanitize_from-IsClean keep text (suc n) [] h clean = refl
sanitize_from-IsClean keep text (suc n) (ch ∷ rest) h (first, clean) =
    rw (turn-allowed keep text ch rest first)
      (sanitize_from-IsClean keep text n rest (omega arith) clean)

-- Text in which every character may stay is borrowed: it comes back as it is, without a copy.
sanitize-borrowed :
    (text : Text) (keep : KeepNewlines)
    → IsClean keep text
    → sanitize text keep ≡ some (Cow.borrowed text)
unfolding sanitize
sanitize-borrowed text keep clean =
    ap (λ r. finish_some text r)
      (sanitize_from-IsClean keep text (suc (length text)) text (omega arith) clean)

quoted-no_sigil : (c : Cow) → starts_with_formula_sigil (as_str (quoted c)) ≡ false
unfolding quoted starts_with_formula_sigil trim_start is_whitespace
quoted-no_sigil c = elim (Bool-cases (starts_with_formula_sigil (as_str c))) [
  | inl sigil ↦ rw sigil refl
  | inr plain ↦ rw plain plain
]

quoted-IsClean :
    (c : Cow) → IsClean KeepNewlines.no (as_str c) → IsClean KeepNewlines.no (as_str (quoted c))
unfolding quoted
quoted-IsClean c clean =
    if_intro (λ d. IsClean KeepNewlines.no (as_str d)) (starts_with_formula_sigil (as_str c))
      (Cow.owned (b'\'' ∷ as_str c)) c (λ _. (refl, clean)) (λ _. clean)

-- A CSV cell can be made of every text: it holds no control character, no line break among them,
-- and its first character that is not white space starts no formula.
pub csv_field_safe :
    (text : Text)
    → (out : Cow) × (csv_field text ≡ some out)
      × IsClean KeepNewlines.no (as_str out)
      × (starts_with_formula_sigil (as_str out) ≡ false)
unfolding csv_field
csv_field_safe text =
    let (stripped, e, clean) = sanitize-IsClean text KeepNewlines.no in
    (
      quoted stripped,
      ap (λ r. quoted_some r) e,
      quoted-IsClean stripped clean,
      quoted-no_sigil stripped,
    )
