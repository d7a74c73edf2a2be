-- ===== src/Text/Bytes.antt =====
-- Byte offsets into a text: its length in UTF-8, character boundaries, and slices. A slice at an
-- offset that is no boundary is `none`: Rust panics there.
pub mod Boundary
use jiraleaks.Base.{
  ℕ, ◌+◌, ◌-◌, ◌^◌, min, Bool, true, false, ◌||◌, Option, none, some, List, [], ◌∷◌, ◌++◌, ltb,
  ◌==◌, if◌then◌else◌, Text, ◌/◌, ◌%◌, List, ◌++◌,
}

-- `usize` has 64 bits.
abbrev pub usize_max : ℕ
usize_max = 2 ^ 64 - 1

abbrev pub saturating_add : ℕ → ℕ → ℕ
saturating_add a b = min (a + b) usize_max

-- `char::len_utf8`.
unfoldable pub len_utf8 : ℕ → ℕ
len_utf8 c = if ltb c 0x80 then 1 else if ltb c 0x800 then 2 else if ltb c 0x10000 then 3 else 4

-- `s.len()`.
unfoldable pub byte_len : Text → ℕ
unfolding len_utf8
byte_len [] = 0
byte_len (c ∷ s) = len_utf8 c + byte_len s

-- `s.floor_char_boundary(i)`: the last boundary at or before `i`.
unfoldable pub floor_char_boundary : Text → ℕ → ℕ
unfolding len_utf8
floor_char_boundary [] i = 0
floor_char_boundary (c ∷ s) i =
    if ltb i (len_utf8 c) then 0 else len_utf8 c + floor_char_boundary s (i - len_utf8 c)

-- `s.ceil_char_boundary(i)`: the first boundary at or after `i`, or the end.
unfoldable pub ceil_char_boundary : Text → ℕ → ℕ
unfolding len_utf8
ceil_char_boundary [] i = 0
ceil_char_boundary (c ∷ s) i =
    if i == 0 then 0 else len_utf8 c + ceil_char_boundary s (i - len_utf8 c)

-- `&s[..i]`.
unfoldable pub take_bytes : Text → ℕ → Option Text
unfolding len_utf8
take_bytes [] i = if i == 0 then some [] else none
take_bytes (c ∷ s) i =
    if i == 0
    then some []
    else if ltb i (len_utf8 c)
    then none
    else elim (take_bytes s (i - len_utf8 c)) [ none ↦ none | some t ↦ some (c ∷ t) ]

-- `&s[i..]`.
unfoldable pub drop_bytes : Text → ℕ → Option Text
unfolding len_utf8
drop_bytes [] i = if i == 0 then some [] else none
drop_bytes (c ∷ s) i =
    if i == 0
    then some (c ∷ s)
    else if ltb i (len_utf8 c)
    then none
    else drop_bytes s (i - len_utf8 c)

-- `&s[i..j]`; `none` also where `j < i`.
unfoldable pub slice : Text → ℕ → ℕ → Option Text
unfolding take_bytes drop_bytes
slice s i j = elim (take_bytes s j) [ none ↦ none | some t ↦ drop_bytes t i ]

-- The UTF-8 encoding of a code point.
encode_utf8 : ℕ → List ℕ
encode_utf8 c =
    if ltb c 0x80
    then c ∷ []
    else if ltb c 0x800
    then (0xc0 + c / 64) ∷ (0x80 + c % 64) ∷ []
    else if ltb c 0x10000
    then (0xe0 + c / 4096) ∷ (0x80 + c / 64 % 64) ∷ (0x80 + c % 64) ∷ []
    else (0xf0 + c / 262144) ∷ (0x80 + c / 4096 % 64) ∷ (0x80 + c / 64 % 64) ∷ (0x80 + c % 64) ∷ []

-- `s.as_bytes()`.
unfoldable pub as_bytes : Text → List ℕ
unfolding encode_utf8
as_bytes [] = []
as_bytes (c ∷ s) = encode_utf8 c ++ as_bytes s

-- `&s[..s.floor_char_boundary(i)]`, which does not panic.
unfoldable pub floor_prefix : Text → ℕ → Text
unfolding len_utf8
floor_prefix [] i = []
floor_prefix (c ∷ s) i =
    let rest = floor_prefix s (i - len_utf8 c) in if ltb i (len_utf8 c) then [] else c ∷ rest
