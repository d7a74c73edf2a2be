-- ===== src/Sanitize/Clean.antt =====
-- What the sanitised text is free of.
use jiraleaks.Base.{take-append}
use jiraleaks.Base.{
  ℕ, zero, suc, ◌-◌, ◌≤◌, ◌<◌, Bool, true, false, not, ◌&&◌, ◌||◌, Option, none, some, [], ◌∷◌,
  ◌++◌, append_assoc, append-nil, ◌≡◌, ◌⊎◌, inl, inr, refl, sym, ap, ◌∙◌, subst, arith, ◌==◌,
  Bool-cases, length, All, length-append, All-append, Text,
}
use jiraleaks.Sanitize.{
  KeepNewlines, Cow, as_str, is_control, skip_csi_body, skip_string_body, skip_intermediates,
  skip_final, skip_sequence, before, materialise, kept_whitespace, introduces_string, starts_string,
  push, turn, sanitize_from, sanitize, finish, finish_some, max_csi_body_chars,
  max_string_body_chars,
}

skip_csi_body-le : (k : ℕ) (chars : Text) → length (skip_csi_body k chars) ≤ length chars
unfolding skip_csi_body
skip_csi_body-le zero chars = omega arith
skip_csi_body-le (suc k) [] = omega arith
skip_csi_body-le (suc k) (c ∷ chars) = ground (arith, skip_csi_body-le k chars)

skip_string_body-le : (k : ℕ) (chars : Text) → length (skip_string_body k chars) ≤ length chars
unfolding skip_string_body
skip_string_body-le zero chars = omega arith
skip_string_body-le (suc k) [] = omega arith
skip_string_body-le (suc k) (c ∷ []) = ground (arith, skip_string_body-le k [])
skip_string_body-le (suc k) (c ∷ d ∷ chars) = ground (arith, skip_string_body-le k (d ∷ chars))

skip_intermediates-le : (k : ℕ) (chars : Text) → length (skip_intermediates k chars) ≤ length chars
unfolding skip_intermediates
skip_intermediates-le zero chars = omega arith
skip_intermediates-le (suc k) [] = omega arith
skip_intermediates-le (suc k) (c ∷ chars) = ground (arith, skip_intermediates-le k chars)

skip_final-le : (chars : Text) → length (skip_final chars) ≤ length chars
unfolding skip_final
skip_final-le [] = omega arith
skip_final-le (c ∷ chars) = ground arith

skip_sequence-le : (chars : Text) → length (skip_sequence chars) ≤ length chars
unfolding skip_sequence
skip_sequence-le [] = omega arith
skip_sequence-le (c ∷ chars) = elim (Bool-cases (c == b'[')) [
  | inl csi ↦ rw csi (omega (arith, skip_csi_body-le max_csi_body_chars chars))
  | inr no_csi ↦ elim (Bool-cases (starts_string c)) [
    | inl string ↦
        rw (no_csi, string) (omega (arith, skip_string_body-le max_string_body_chars chars))
    | inr no_string ↦
        let final = skip_final-le (skip_intermediates max_csi_body_chars (c ∷ chars)) in
        let passed = skip_intermediates-le max_csi_body_chars (c ∷ chars) in
        rw (no_csi, no_string) (omega arith)
  ]
]

-- A character that the reports may hold.
abbrev pub allowed : KeepNewlines → ℕ → Bool
allowed keep ch = kept_whitespace keep ch || not (is_control ch)

abbrev pub IsClean : KeepNewlines → Text → Type 0
IsClean keep text = All (λ ch. allowed keep ch ≡ true) text

-- Between two turns: the buffer is clean, or nothing was dropped and the text so far is clean.
abbrev Inv : KeepNewlines → Text → Option Text → Text → Type 0
Inv keep text none chars = (pre : Text) × (text ≡ pre ++ chars) × IsClean keep pre
Inv keep text (some buf) chars = IsClean keep buf

before-append : (text pre chars : Text) → text ≡ pre ++ chars → before text chars ≡ pre
before-append text pre chars h =
    let size : length (pre ++ chars) - length chars ≡ length pre =
      omega (arith, length-append pre chars) in
    rw (h, size) (take-append pre chars)

materialise-IsClean :
    (keep : KeepNewlines) (text : Text) (out : Option Text) (chars : Text)
    → Inv keep text out chars
    → IsClean keep (materialise text chars out)
materialise-IsClean keep text (some buf) chars h = h
materialise-IsClean keep text none chars (pre, e, clean) =
    subst (λ t. IsClean keep t) (sym (before-append text pre chars e)) clean

push-Inv :
    (keep : KeepNewlines) (text : Text) (out : Option Text) (ch : ℕ) (rest : Text)
    → Inv keep text out (ch ∷ rest)
    → allowed keep ch ≡ true
    → Inv keep text (push out ch) rest
push-Inv keep text (some buf) ch rest h ok = All-append _ buf (ch ∷ []) h (ok, tt)
push-Inv keep text none ch rest (pre, e, clean) ok = (
  pre ++ ch ∷ [],
  e ∙ sym (append_assoc pre (ch ∷ []) rest),
  All-append _ pre (ch ∷ []) clean (ok, tt),
)

allowed_of_kept :
    (keep : KeepNewlines) (ch : ℕ)
    → (not (kept_whitespace keep ch) && is_control ch) ≡ false
    → allowed keep ch ≡ true
allowed_of_kept keep ch h = elim (Bool-cases (kept_whitespace keep ch)) [
  | inl kept ↦ rw kept refl
  | inr other ↦ elim (Bool-cases (is_control ch)) [
    | inl control ↦ absurd (ground arith)
    | inr printable ↦ rw (other, printable) refl
  ]
]

-- A turn drops characters, or it keeps one that may stay.
turn-cases :
    (keep : KeepNewlines) (text : Text) (out : Option Text) (ch : ℕ) (rest : Text)
    → ((chars : Text) × (turn keep text out ch rest
          ≡ (some (materialise text (ch ∷ rest) out), chars))
        × (length chars ≤ length rest))
      ⊎ ((turn keep text out ch rest ≡ (push out ch, rest)) × (allowed keep ch ≡ true))
unfolding turn
turn-cases keep text out ch rest = elim (Bool-cases (ch == 0x1b)) [
  | inl a ↦ inl (skip_sequence rest, rw a refl, skip_sequence-le rest)
  | inr a ↦ elim (Bool-cases (ch == 0x9b)) [
    | inl b ↦ inl (
      skip_csi_body max_csi_body_chars rest,
      rw (a, b) refl,
      skip_csi_body-le max_csi_body_chars rest,
    )
    | inr b ↦ elim (Bool-cases (introduces_string ch)) [
      | inl c ↦ inl (
        skip_string_body max_string_body_chars rest,
        rw (a, b, c) refl,
        skip_string_body-le max_string_body_chars rest,
      )
      | inr c ↦ elim (Bool-cases (not (kept_whitespace keep ch) && is_control ch)) [
        | inl d ↦ inl (rest, rw (a, b, c, d) refl, omega arith)
        | inr d ↦ inr (rw (a, b, c, d) refl, allowed_of_kept keep ch d)
      ]
    ]
  ]
]

turn-Inv :
    (keep : KeepNewlines) (text : Text) (out : Option Text) (ch : ℕ) (rest : Text)
    → Inv keep text out (ch ∷ rest)
    → Inv keep text (turn keep text out ch rest).0 (turn keep text out ch rest).1
      × (length (turn keep text out ch rest).1 ≤ length rest)
turn-Inv keep text out ch rest h = elim (turn-cases keep text out ch rest) [
  | inl (chars, e, size) ↦ rw e (materialise-IsClean keep text out (ch ∷ rest) h, size)
  | inr (e, ok) ↦ rw e (push-Inv keep text out ch rest h ok, omega arith)
]

sanitize_from_total :
    (keep : KeepNewlines) (text : Text) (n : ℕ) (out : Option Text) (chars : Text)
    → length chars < n
    → Inv keep text out chars
    → (o : Option Text) × (sanitize_from keep text n out chars ≡ some o) × Inv keep text o []
unfolding sanitize_from
sanitize_from_total keep text zero out chars h i = absurd (omega arith)
sanitize_from_total keep text (suc n) out [] h i = (out, refl, i)
sanitize_from_total keep text (suc n) out (ch ∷ rest) h i =
    let (next, size) = turn-Inv keep text out ch rest i in
    sanitize_from_total keep text n (turn keep text out ch rest).0 (turn keep text out ch rest).1
      (omega arith) next

finish-IsClean :
    (keep : KeepNewlines) (text : Text) (o : Option Text)
    → Inv keep text o []
    → IsClean keep (as_str (finish text o))
finish-IsClean keep text none (pre, same, clean) =
    subst (λ t. IsClean keep t) (sym (same ∙ append-nil pre)) clean
finish-IsClean keep text (some buf) clean = clean

-- Sanitising any text ends, and each character of the result is printable, or a newline or a tab
-- where these are kept.
pub sanitize-IsClean :
    (text : Text) (keep : KeepNewlines)
    → (out : Cow) × (sanitize text keep ≡ some out) × IsClean keep (as_str out)
unfolding sanitize
sanitize-IsClean text keep =
    let (o, e, i) =
      sanitize_from_total keep text (suc (length text)) none text (omega arith) ([], refl, tt) in
    (finish text o, ap (λ r. finish_some text r) e, finish-IsClean keep text o i)
