-- ===== src/Redact/Preview.antt =====
-- What the preview of a secret shows.
use jiraleaks.Base.{
  ℕ, ◌-◌, ◌≤◌, ◌<◌, true, false, ◌++◌, ◌≡◌, ◌⊎◌, inl, inr, refl, sym, ap, ◌∙◌, arith, ltb,
  Bool-cases, length, take, drop, length-append, length-take-le, length-reverse, reverse,
  reverse-append, Text, codes,
}
use jiraleaks.Base.{length-drop, take-append-drop, take-append}
use mathlib.Core.List.{reverse-reverse}
use jiraleaks.Text.Find.{contains}
use jiraleaks.Text.Find.Absent.{contains-shorter}
use jiraleaks.Redact.{redact}

redact_short : (value : Text) → ltb (length value) 8 ≡ true → redact value ≡ codes "[REDACTED]"
unfolding redact
redact_short value h = rw h refl

redact_long :
    (value : Text)
    → ltb (length value) 8 ≡ false
    → redact value ≡ take 2 value ++ (codes "..." ++ reverse (take 2 (reverse value)))
unfolding redact
redact_long value h = rw h refl

length-redact : (value : Text) → 8 ≤ length value → length (redact value) ≤ 7
unfolding redact
length-redact value h = ground (
  arith,
  length-append (take 2 value) (codes "..." ++ reverse (take 2 (reverse value))),
  length-append (codes "...") (reverse (take 2 (reverse value))),
  length-take-le 2 value,
  length-reverse (take 2 (reverse value)),
  length-take-le 2 (reverse value),
)

-- The last `n` elements, taken from behind.
reverse-take-reverse :
    (n : ℕ) (value : Text)
    → n ≤ length value
    → reverse (take n (reverse value)) ≡ drop (length value - n) value
reverse-take-reverse n value h =
    let k = length value - n in
    let tail = drop k value in
    let exact : length (reverse tail) ≡ n =
      omega (arith, length-reverse tail, length-drop k value) in
    let split : reverse value ≡ reverse tail ++ reverse (take k value) =
      ap reverse (sym (take-append-drop k value)) ∙ reverse-append (take k value) tail in
    let front : take n (reverse value) ≡ reverse tail =
      ap (take n) split
      ∙ ap (λ m. take m (reverse tail ++ reverse (take k value))) (sym exact)
      ∙ take-append (reverse tail) (reverse (take k value)) in
    ap reverse front ∙ reverse-reverse tail

-- The preview of a secret of eight characters or more is its first two characters, three dots and
-- its last two characters in their order, and it does not contain the secret: of the characters
-- between, the preview shows nothing, not even how many they are. Of a shorter secret it shows
-- nothing at all.
pub redact_hides :
    (value : Text)
    → ((length value < 8) × (redact value ≡ codes "[REDACTED]"))
      ⊎ ((8 ≤ length value)
          × (redact value ≡ take 2 value ++ (codes "..." ++ drop (length value - 2) value))
          × (contains (redact value) value ≡ false))
redact_hides value = elim (Bool-cases (ltb (length value) 8)) [
  | inl short ↦ inl (ground arith, redact_short value short)
  | inr long ↦
      let h : 8 ≤ length value = ground arith in
      inr (
        h,
        redact_long value long
            ∙ ap (λ t. take 2 value ++ (codes "..." ++ t))
                (reverse-take-reverse 2 value (omega arith)),
        contains-shorter (redact value) value (omega (arith, length-redact value h)),
      )
]
