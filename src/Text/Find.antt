-- ===== src/Text/Find.antt =====
-- Prefixes, substrings and replacement: `starts_with`, `strip_prefix`, `contains`, `replace`.
pub mod Absent
pub mod Prefix
use jiraleaks.Base.{
  ℕ, zero, suc, ◌+◌, ◌-◌, ◌≤◌, Bool, true, false, ◌&&◌, ◌||◌, Option, none, some, List, [], ◌∷◌,
  ◌++◌, ◌≡◌, refl, arith, ◌==◌, if◌then◌else◌, length, Text, reverse,
}

-- `s.starts_with(p)`.
abbrev pub starts_with : Text → Text → Bool
starts_with s [] = true
starts_with [] (c ∷ p) = false
starts_with (d ∷ s) (c ∷ p) = d == c && starts_with s p

-- `s.strip_prefix(p)`.
abbrev pub strip_prefix : Text → Text → Option Text
strip_prefix s [] = some s
strip_prefix [] (c ∷ p) = none
strip_prefix (d ∷ s) (c ∷ p) = if d == c then strip_prefix s p else none

-- `s.contains(p)`.
abbrev pub contains : Text → Text → Bool
contains [] p = starts_with [] p
contains (c ∷ s) p = starts_with (c ∷ s) p || contains s p

-- The number is how many code points of a replaced occurrence are still to be passed over.
replace_from : ℕ → Text → Text → Text → Text
replace_from k [] value marker = []
replace_from (suc k) (c ∷ s) value marker = replace_from k s value marker
replace_from zero (c ∷ s) value marker =
    let hit = marker ++ replace_from (length value - 1) s value marker in
    let miss = c ∷ replace_from 0 s value marker in if starts_with (c ∷ s) value then hit else miss

-- `s.replace(value, marker)` for a `value` that is not empty: occurrences from left to right,
-- not overlapping.
unfoldable pub replace : Text → Text → Text → Text
unfolding replace_from
replace s value marker = replace_from 0 s value marker

-- `s.ends_with(p)`.
abbrev pub ends_with : Text → Text → Bool
ends_with s p = starts_with (reverse s) (reverse p)
