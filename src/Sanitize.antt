-- ===== src/Sanitize.antt =====
-- src/sanitize.rs: control sequences and formula sigils are taken out of text that others wrote.
-- A stream of characters is the text that is left. The loop runs on fuel, one more than the length
-- of the text.
pub mod Clean
pub mod Fixed
use jiraleaks.Base.{
  ℕ, zero, suc, ◌+◌, ◌-◌, ◌*◌, ◌/◌, ◌%◌, ◌^◌, ◌≤◌, ◌<◌, min, max, Bool, true, false, not, ◌&&◌,
  ◌||◌, Option, none, some, List, [], ◌∷◌, ◌++◌, map, append_assoc, append-nil, ◌≡◌, ◌≢◌, ◌↔◌, ◌⊎◌,
  inl, inr, refl, sym, ap, ◌∙◌, subst, arith, ltb, leb, ◌==◌, if◌then◌else◌, Bool-cases,
  Option-cases, eq_of_==, ==_refl, &&-true, ||-true, ||-false, length, get_elem?, take, drop,
  is_empty, any, all, All, In, here, there, length-append, length-take-le, length-reverse, reverse,
  reverse-append, In-append_left, In-append_right, In-append_split, All-append, All-In, Text, codes,
  text_eq, eq_of_text_eq, text_eq_refl, text_eq_of_eq, text_eq_comm,
}
use jiraleaks.Text.Space.{trim_start}

abbrev pub max_csi_body_chars : ℕ
max_csi_body_chars = 64

abbrev pub max_string_body_chars : ℕ
max_string_body_chars = 8192

pub data KeepNewlines : Type 0 where
  yes : KeepNewlines
  no : KeepNewlines

-- `Cow<str>`.
pub data Cow : Type 0 where
  borrowed : Text → Cow
  owned : Text → Cow

abbrev pub as_str : Cow → Text
as_str (borrowed text) = text
as_str (owned text) = text

-- `(a..=b).contains(&c)`.
abbrev pub within : ℕ → ℕ → ℕ → Bool
within a b c = leb a c && leb c b

abbrev pub is_control : ℕ → Bool
is_control ch = ltb ch 0x20 || ch == 0x7f || within 0x80 0x9f ch

-- The number is how many characters may still be passed over.
unfoldable pub skip_csi_body : ℕ → Text → Text
skip_csi_body zero chars = chars
skip_csi_body (suc k) [] = []
skip_csi_body (suc k) (c ∷ chars) =
    let rest = skip_csi_body k chars in
    if within 0x40 0x7e c then chars else if is_control c then c ∷ chars else rest

unfoldable pub skip_string_body : ℕ → Text → Text
skip_string_body zero chars = chars
skip_string_body (suc k) [] = []
skip_string_body (suc k) (c ∷ chars) =
    let rest = skip_string_body k chars in
    if c == 7
    then chars
    else if c == 0x1b
    then skip_backslash chars
    else if c == 10
    then c ∷ chars
    else rest
  where
    skip_backslash : Text → Text
    skip_backslash [] = []
    skip_backslash (c ∷ chars) = if c == b'\\' then chars else c ∷ chars

-- The intermediate bytes of an escape sequence; the number is 64 less `guard`.
unfoldable pub skip_intermediates : ℕ → Text → Text
skip_intermediates zero chars = chars
skip_intermediates (suc k) [] = []
skip_intermediates (suc k) (c ∷ chars) =
    let rest = skip_intermediates k chars in if within 0x20 0x2f c then rest else c ∷ chars

unfoldable pub skip_final : Text → Text
skip_final [] = []
skip_final (c ∷ chars) = if within 0x30 0x7e c then chars else c ∷ chars

abbrev pub starts_string : ℕ → Bool
starts_string c = c == b']' || c == b'P' || c == b'^' || c == b'_' || c == b'X'

unfoldable pub skip_sequence : Text → Text
unfolding skip_csi_body skip_string_body skip_intermediates skip_final
skip_sequence [] = []
skip_sequence (c ∷ chars) =
    if c == b'['
    then skip_csi_body max_csi_body_chars chars
    else if starts_string c
    then skip_string_body max_string_body_chars chars
    else skip_final (skip_intermediates max_csi_body_chars (c ∷ chars))

-- `text[..idx]`, where `chars` is left from `idx` on.
abbrev pub before : Text → Text → Text
before text chars = take (length text - length chars) text

abbrev pub materialise : Text → Text → Option Text → Text
materialise text chars (some buf) = buf
materialise text chars none = before text chars

abbrev pub kept_whitespace : KeepNewlines → ℕ → Bool
kept_whitespace KeepNewlines.yes ch = ch == 10 || ch == 9
kept_whitespace KeepNewlines.no ch = false

abbrev pub introduces_string : ℕ → Bool
introduces_string ch = ch == 0x90 || ch == 0x98 || ch == 0x9d || ch == 0x9e || ch == 0x9f

abbrev pub push : Option Text → ℕ → Option Text
push none ch = none
push (some buf) ch = some (buf ++ ch ∷ [])

-- One turn of the loop: the buffer and the stream behind it.
unfoldable pub turn : KeepNewlines → Text → Option Text → ℕ → Text → Option Text × Text
unfolding skip_sequence skip_csi_body skip_string_body
turn keep text out ch rest =
    let dropped = some (materialise text (ch ∷ rest) out) in
    if ch == 0x1b
    then (dropped, skip_sequence rest)
    else if ch == 0x9b
    then (dropped, skip_csi_body max_csi_body_chars rest)
    else if introduces_string ch
    then (dropped, skip_string_body max_string_body_chars rest)
    else if not (kept_whitespace keep ch) && is_control ch
    then (dropped, rest)
    else (push out ch, rest)

unfoldable pub sanitize_from : KeepNewlines → Text → ℕ → Option Text → Text → Option (Option Text)
unfolding turn
sanitize_from keep text zero out chars = none
sanitize_from keep text (suc n) out [] = some out
sanitize_from keep text (suc n) out (ch ∷ rest) =
    let (out', chars) = turn keep text out ch rest in sanitize_from keep text n out' chars

abbrev pub finish : Text → Option Text → Cow
finish text none = Cow.borrowed text
finish text (some buf) = Cow.owned buf

abbrev pub finish_some : Text → Option (Option Text) → Option Cow
finish_some text none = none
finish_some text (some out) = some (finish text out)

unfoldable pub sanitize : Text → KeepNewlines → Option Cow
unfolding sanitize_from
sanitize text keep = finish_some text (sanitize_from keep text (suc (length text)) none text)

unfoldable pub terminal : Text → Option Cow
unfolding sanitize
terminal text = sanitize text KeepNewlines.yes

abbrev sigil_first : Text → Bool
sigil_first [] = false
sigil_first (c ∷ text) = c == b'=' || c == b'+' || c == b'-' || c == b'@'

unfoldable pub starts_with_formula_sigil : Text → Bool
unfolding trim_start
starts_with_formula_sigil text = sigil_first (trim_start text)

-- A value with the apostrophe that a formula needs.
unfoldable pub quoted : Cow → Cow
unfolding starts_with_formula_sigil
quoted stripped =
    if starts_with_formula_sigil (as_str stripped)
    then Cow.owned (b'\'' ∷ as_str stripped)
    else stripped

abbrev pub quoted_some : Option Cow → Option Cow
quoted_some none = none
quoted_some (some stripped) = some (quoted stripped)

unfoldable pub csv_field : Text → Option Cow
unfolding sanitize quoted
csv_field text = quoted_some (sanitize text KeepNewlines.no)
