-- ===== src/Validators.antt =====
-- src/validators.rs: the checks of AWS keys, JWT and GitHub tokens, with CRC32 in 32-bit
-- arithmetic. Bytes and characters agree, since the checks that read bytes see ASCII alone or
-- fail on the first other byte.
use jiraleaks.Base.{
  ℕ, zero, suc, ◌+◌, ◌-◌, ◌*◌, ◌/◌, ◌%◌, ◌^◌, ◌≤◌, ◌<◌, min, max, Bool, true, false, not, ◌&&◌,
  ◌||◌, Option, none, some, List, [], ◌∷◌, ◌++◌, map, append_assoc, append-nil, ◌≡◌, ◌≢◌, ◌↔◌, ◌⊎◌,
  inl, inr, refl, sym, ap, ◌∙◌, subst, arith, ltb, leb, ◌==◌, if◌then◌else◌, Bool-cases,
  Option-cases, eq_of_==, ==_refl, &&-true, ||-true, ||-false, length, get_elem?, take, drop,
  is_empty, any, all, All, In, here, there, length-append, length-take-le, length-reverse, reverse,
  reverse-append, In-append_left, In-append_right, In-append_split, All-append, All-In, Text, codes,
  text_eq, eq_of_text_eq, text_eq_refl, text_eq_of_eq, text_eq_comm,
}
pub mod Crc
pub mod Base62
pub mod Tokens
use Prim.Native.Nat.{bit_and, bit_xor}
use jiraleaks.Text.Find.{strip_prefix}
use jiraleaks.Text.Bytes.{byte_len, take_bytes, drop_bytes, as_bytes}

abbrev pub is_ascii_uppercase : ℕ → Bool
is_ascii_uppercase c = leb b'A' c && leb c b'Z'

abbrev pub is_ascii_lowercase : ℕ → Bool
is_ascii_lowercase c = leb b'a' c && leb c b'z'

abbrev pub is_ascii_digit : ℕ → Bool
is_ascii_digit c = leb b'0' c && leb c b'9'

abbrev pub is_ascii : ℕ → Bool
is_ascii c = ltb c 128

abbrev pub is_ascii_alphanumeric : ℕ → Bool
is_ascii_alphanumeric c = is_ascii_uppercase c || (is_ascii_lowercase c || is_ascii_digit c)

abbrev pub valid_prefixes : List Text
valid_prefixes =
    codes "AKIA"
    ∷ codes "ASIA"
    ∷ codes "AGPA"
    ∷ codes "AIDA"
    ∷ codes "AROA"
    ∷ codes "AIPA"
    ∷ codes "ANPA"
    ∷ codes "ANVA"
    ∷ codes "ASCA"
    ∷ []

-- One character of the body: base32 in upper case.
abbrev pub is_base32 : ℕ → Bool
is_base32 b = is_ascii_uppercase b || leb b'2' b && leb b b'7'

unfoldable pub validate_aws_key : Text → Bool
unfolding byte_len
validate_aws_key value =
    if not (byte_len value == 20) || not (all is_ascii value)
    then false
    else if not (any (text_eq (take 4 value)) valid_prefixes)
    then false
    else all is_base32 (drop 4 value)

-- The parts so far, the part that is being read, and the rest.
unfoldable pub split_from : ℕ → Text → Text → List Text
split_from sep [] part = part ∷ []
split_from sep (c ∷ s) part =
    let close = part ∷ split_from sep s [] in
    let grow = split_from sep s (part ++ c ∷ []) in if c == sep then close else grow

-- `s.split(sep)`, for one character.
unfoldable pub split : ℕ → Text → List Text
unfolding split_from
split sep s = split_from sep s []

abbrev pub is_base64url : ℕ → Bool
is_base64url c = is_ascii_alphanumeric c || (c == b'-' || c == b'_')

unfoldable pub validate_jwt : Text → Bool
unfolding split
validate_jwt value =
    let parts = split b'.' value in
    if not (length parts == 3)
    then false
    else all (λ p. not (is_empty p) && all is_base64url p) parts

-- One round of the table's inner loop.
crc_bit : ℕ → ℕ
crc_bit crc = if bit_and crc 1 == 0 then crc / 2 else bit_xor (crc / 2) 0xedb88320

crc_bits : ℕ → ℕ → ℕ
unfolding crc_bit
crc_bits zero crc = crc
crc_bits (suc rounds) crc = crc_bits rounds (crc_bit crc)

-- `table[i]`.
crc_table : ℕ → ℕ
unfolding crc_bits
crc_table i = crc_bits 8 i

-- The loop over the bytes.
crc_from : ℕ → List ℕ → ℕ
unfolding crc_table
crc_from crc [] = crc
crc_from crc (b ∷ bytes) =
    crc_from (bit_xor (crc / 256) (crc_table (bit_and (bit_xor crc b) 0xff))) bytes

unfoldable pub crc32 : List ℕ → ℕ
unfolding crc_from
crc32 bytes = bit_xor (crc_from 0xffffffff bytes) 0xffffffff

abbrev base62_chars : Text
base62_chars = codes "0123456789ABCDEFGHIJKLMNOPQRSTUVWXYZabcdefghijklmnopqrstuvwxyz"

-- `CHARS[i]`; the index is below 62.
base62_char : ℕ → ℕ
base62_char i = elim (get_elem? base62_chars i) [ some c ↦ c | none ↦ 0 ]

-- The `loop` that pushes digits, the lowest first; `fuel` rounds at most.
base62_digits : ℕ → ℕ → Text
unfolding base62_char
base62_digits zero value = []
base62_digits (suc fuel) value =
    let rest = base62_digits fuel (value / 62) in
    base62_char (value % 62) ∷ (if value / 62 == 0 then [] else rest)

-- `while out.len() < width`: zeros up to the width.
pad : ℕ → Text → Text
pad zero out = out
pad (suc n) [] = b'0' ∷ pad n []
pad (suc n) (c ∷ out) = c ∷ pad n out

-- A `u64` has at most eleven digits in base 62.
unfoldable pub to_base62_padded : ℕ → ℕ → Text
unfolding base62_digits pad
to_base62_padded value width = reverse (pad width (base62_digits 11 value))

abbrev pub github_prefixes : List Text
github_prefixes =
    codes "ghp_" ∷ codes "gho_" ∷ codes "ghu_" ∷ codes "ghs_" ∷ codes "ghr_" ∷ codes "ghw_" ∷ []

-- `prefixes.iter().find_map(|p| value.strip_prefix(p))`.
find_strip : Text → List Text → Option Text
find_strip value [] = none
find_strip value (p ∷ ps) = elim (strip_prefix value p) [
  | some rest ↦ some rest
  | none ↦ find_strip value ps
]

-- The last six bytes are the checksum of those before. The slices panic, `none`, where they cut a
-- character.
unfoldable pub validate_github_rest : Text → Option Bool
validate_github_rest rest =
    if ltb (byte_len rest) 7
    then some false
    else let base_len = byte_len rest - 6 in
      elim (take_bytes rest base_len) [
        | none ↦ none
        | some body ↦
            let expected = to_base62_padded (crc32 (as_bytes body)) 6 in
            elim (drop_bytes rest base_len) [
              | none ↦ none
              | some checksum ↦ some (text_eq checksum expected)
            ]
      ]

unfoldable pub validate_github_token : Text → Option Bool
unfolding find_strip
validate_github_token value = elim (find_strip value github_prefixes) [
  | none ↦ some false
  | some rest ↦ validate_github_rest rest
]

-- The validator that a rule names; an unknown name accepts.
unfoldable pub validate : Text → Text → Option Bool
validate validator value =
    if text_eq validator (codes "aws_key_checksum")
    then some (validate_aws_key value)
    else if text_eq validator (codes "jwt_structure")
    then some (validate_jwt value)
    else if text_eq validator (codes "github_token_checksum")
    then validate_github_token value
    else some true
