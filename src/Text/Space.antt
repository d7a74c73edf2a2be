-- ===== src/Text/Space.antt =====
-- White space: `trim`, `split_whitespace`.
use jiraleaks.Base.{
  ℕ, Bool, ◌&&◌, ◌||◌, List, [], ◌∷◌, ◌++◌, leb, ◌==◌, if◌then◌else◌, is_empty, Text,
}

-- `char::is_whitespace`, the Unicode property White_Space.
unfoldable pub is_whitespace : ℕ → Bool
is_whitespace c =
    leb 9 c && leb c 13
    || c == 32
    || c == 0x85
    || c == 0xa0
    || c == 0x1680
    || leb 0x2000 c && leb c 0x200a
    || c == 0x2028
    || c == 0x2029
    || c == 0x202f
    || c == 0x205f
    || c == 0x3000

unfoldable pub trim_start : Text → Text
unfolding is_whitespace
trim_start [] = []
trim_start (c ∷ s) = if is_whitespace c then trim_start s else c ∷ s

unfoldable pub trim_end : Text → Text
unfolding is_whitespace
trim_end [] = []
trim_end (c ∷ s) =
    let rest = trim_end s in if is_whitespace c && is_empty rest then [] else c ∷ rest

unfoldable pub trim : Text → Text
unfolding trim_start trim_end
trim s = trim_end (trim_start s)

-- The words so far, the word that is being read, and the rest of the text.
unfoldable pub words_from : Text → Text → List Text
unfolding is_whitespace
words_from [] word = if is_empty word then [] else word ∷ []
words_from (c ∷ s) word =
    let close = if is_empty word then words_from s [] else word ∷ words_from s [] in
    let grow = words_from s (word ++ c ∷ []) in if is_whitespace c then close else grow

-- `s.split_whitespace()`.
unfoldable pub split_whitespace : Text → List Text
unfolding words_from
split_whitespace s = words_from s []
