-- ===== src/Validators/Base62.antt =====
-- src/validators.rs: what the digits that `to_base62_padded` writes stand for.
use native.Mathlib.Nat.{pow-suc}
use mathlib.Core.List.{reverse-reverse}
use jiraleaks.Base.{
  ℕ, zero, suc, ◌+◌, ◌-◌, ◌*◌, ◌/◌, ◌%◌, ◌^◌, ◌<◌, Bool, true, false, ◌&&◌, Option, none, some, [],
  ◌∷◌, ◌≡◌, inl, inr, refl, sym, ap, ◌∙◌, arith, leb, ◌==◌, if◌then◌else◌, Bool-cases, length,
  length-reverse, reverse, reverse-append, Text,
}
use jiraleaks.Base.{eq_of_==, &&-true, ◌>>=◌, >>=-some, >>=-inv, some_inj}
use jiraleaks.Text.Bytes.{len_utf8, byte_len}
use jiraleaks.Text.Bytes.Boundary.{byte_len-append}
use jiraleaks.Validators.{base62_char, base62_digits, pad, to_base62_padded}

-- The value of a digit: 0 to 9, then upper case, then lower case.
abbrev pub digit_value : ℕ → Option ℕ
digit_value c =
    if leb b'0' c && leb c b'9'
    then some (c - b'0')
    else if leb b'A' c && leb c b'Z'
    then some (c - b'A' + 10)
    else if leb b'a' c && leb c b'z'
    then some (c - b'a' + 36)
    else none

-- The value of digits, the lowest first.
abbrev value_low : Text → Option ℕ
value_low [] = some 0
value_low (c ∷ s) = digit_value c >>= (λ d. value_low s >>= (λ v. some (d + 62 * v)))

-- The number that a text in base 62 stands for, the highest digit first.
abbrev pub base62_value : Text → Option ℕ
base62_value s = value_low (reverse s)

digit_value-inj : (a b d : ℕ) → digit_value a ≡ some d → digit_value b ≡ some d → a ≡ b
digit_value-inj a b d p q = ground arith

digit_value-lt : (c d : ℕ) → digit_value c ≡ some d → d < 62
digit_value-lt c d p = ground arith

digit_value-utf8 : (c d : ℕ) → digit_value c ≡ some d → len_utf8 c ≡ 1
unfolding len_utf8
digit_value-utf8 c d p = ground arith

is_value : Option ℕ → ℕ → Bool
is_value none n = false
is_value (some d) n = d == n

is_value-eq : (o : Option ℕ) (n : ℕ) → is_value o n ≡ true → o ≡ some n
unfolding is_value
is_value-eq none n h = absurd (cc)
is_value-eq (some d) n h = ground arith

-- The digits below a number have their values.
are_digits : ℕ → Bool
unfolding is_value
are_digits zero = true
are_digits (suc n) = is_value (digit_value (base62_char n)) n && are_digits n

are_digits_sound : (n i : ℕ) → are_digits n ≡ true → i < n → digit_value (base62_char i) ≡ some i
unfolding are_digits
are_digits_sound zero i h p = absurd (omega arith)
are_digits_sound (suc n) i h p =
    let (last, before) = &&-true (is_value (digit_value (base62_char n)) n) (are_digits n) h in
    elim (Bool-cases (i == n)) [
      | inl same ↦
          let e : i ≡ n = eq_of_== i n same in
          ap (λ k. digit_value (base62_char k)) e
          ∙ is_value-eq (digit_value (base62_char n)) n last
          ∙ ap some (sym e)
      | inr other ↦ are_digits_sound n i before (ground arith)
    ]

table : are_digits 62 ≡ true
unfolding are_digits base62_char
table = refl

value_low-cons :
    (c : ℕ) (s : Text) (d v : ℕ)
    → digit_value c ≡ some d
    → value_low s ≡ some v
    → value_low (c ∷ s) ≡ some (d + 62 * v)
value_low-cons c s d v p q = >>=-some _ p ∙ >>=-some _ q

value_low-digits :
    (fuel v : ℕ) → v < 62 ^ fuel → 0 < fuel → value_low (base62_digits fuel v) ≡ some v
unfolding base62_digits
value_low-digits zero v h p = absurd (omega arith)
value_low-digits (suc fuel) v h p =
    let digit = are_digits_sound 62 (v % 62) table (omega arith) in
    let small : v / 62 < 62 ^ fuel = omega (arith, pow-suc 62 fuel) in
    elim (Bool-cases (v / 62 == 0)) [
      | inl last ↦ rw last (
          value_low-cons (base62_char (v % 62)) [] (v % 62) 0 digit refl
          ∙ ap some (ground (arith, last)))
      | inr more ↦ rw more (
          value_low-cons (base62_char (v % 62)) (base62_digits fuel (v / 62)) (v % 62) (v / 62)
            digit
            (value_low-digits fuel (v / 62) small (positive fuel small (ground (arith, more))))
          ∙ ap some (omega arith))
    ]
  where
    positive : (n : ℕ) → v / 62 < 62 ^ n → 0 < v / 62 → 0 < n
    positive zero h p = absurd (omega (arith, h, p))
    positive (suc n) h p = omega arith

value_low-pad : (n : ℕ) (s : Text) (v : ℕ) → value_low s ≡ some v → value_low (pad n s) ≡ some v
unfolding pad
value_low-pad zero s v h = h
value_low-pad (suc n) [] v h =
    let nothing : 0 ≡ v = some_inj h in
    value_low-cons b'0' (pad n []) 0 0 refl (value_low-pad n [] 0 refl) ∙ ap some nothing
value_low-pad (suc n) (c ∷ s) v h =
    let (d, p, h') = >>=-inv (digit_value c) _ h in
    let (w, q, h'') = >>=-inv (value_low s) _ h' in
    value_low-cons c (pad n s) d w p (value_low-pad n s w q) ∙ h''

-- What is written in base 62 stands for the number.
pub base62_value-padded :
    (v width : ℕ) → v < 62 ^ 11 → base62_value (to_base62_padded v width) ≡ some v
unfolding to_base62_padded
base62_value-padded v width h =
    ap value_low (reverse-reverse (pad width (base62_digits 11 v)))
    ∙ value_low-pad width _ v (value_low-digits 11 v h (omega arith))

value_low-inj :
    (s t : Text) (v : ℕ) → length s ≡ length t → value_low s ≡ some v → value_low t ≡ some v → s ≡ t
value_low-inj [] [] v e p q = refl
value_low-inj [] (c ∷ t) v e p q = absurd (omega (arith, e))
value_low-inj (c ∷ s) [] v e p q = absurd (omega (arith, e))
value_low-inj (c ∷ s) (b ∷ t) v e p q =
    let (d, dc, p') = >>=-inv (digit_value c) _ p in
    let (w, ws, p'') = >>=-inv (value_low s) _ p' in
    let (d', db, q') = >>=-inv (digit_value b) _ q in
    let (w', wt, q'') = >>=-inv (value_low t) _ q' in
    let low = digit_value-lt c d dc in
    let low' = digit_value-lt b d' db in
    let sum : d + 62 * w ≡ d' + 62 * w' = some_inj p'' ∙ sym (some_inj q'') in
    let same_digit : d' ≡ d = omega arith in
    let same_rest : w' ≡ w = omega arith in
    let first = digit_value-inj c b d dc (db ∙ ap some same_digit) in
    let rest = value_low-inj s t w (omega (arith, e)) ws (wt ∙ ap some same_rest) in
    ap (λ x. x ∷ s) first ∙ ap (λ l. b ∷ l) rest

-- Two texts of one length that stand for one number in base 62 are the same.
pub base62_value-inj :
    (s t : Text) (v : ℕ)
    → length s ≡ length t
    → base62_value s ≡ some v
    → base62_value t ≡ some v
    → s ≡ t
base62_value-inj s t v e p q =
    sym (reverse-reverse s)
    ∙ ap reverse (
        value_low-inj (reverse s) (reverse t) v (length-reverse s ∙ e ∙ sym (length-reverse t)) p q)
    ∙ reverse-reverse t

byte_len-value_low : (s : Text) (v : ℕ) → value_low s ≡ some v → byte_len s ≡ length s
unfolding byte_len
byte_len-value_low [] v h = refl
byte_len-value_low (c ∷ s) v h =
    let (d, p, h') = >>=-inv (digit_value c) _ h in
    let (w, q, h'') = >>=-inv (value_low s) _ h' in
    omega (arith, digit_value-utf8 c d p, byte_len-value_low s w q)

byte_len-reverse : (s : Text) → byte_len (reverse s) ≡ byte_len s
unfolding byte_len
byte_len-reverse [] = refl
byte_len-reverse (c ∷ s) =
    ap byte_len (reverse-append (c ∷ []) s)
    ∙ omega (arith, byte_len-append (reverse s) (c ∷ []), byte_len-reverse s)

-- A text in base 62 has as many bytes as characters.
pub byte_len-base62 : (s : Text) (v : ℕ) → base62_value s ≡ some v → byte_len s ≡ length s
byte_len-base62 s v h =
    sym (byte_len-reverse s) ∙ byte_len-value_low (reverse s) v h ∙ length-reverse s
