-- ===== src/Tests/Pairs.antt =====
-- Runs of the model and instances of the theorems: user names beside passwords.
use jiraleaks.Base.{
  ℕ, ◌%◌, ◌≤◌, Option, none, some, List, [], ◌∷◌, ◌++◌, map, ◌≡◌, refl, arith, length, take, Text,
  codes,
}
use jiraleaks.Candidate.{words, words_from, is_template}
use jiraleaks.Candidate.Checks.{placeholder_matches}
use jiraleaks.Credpair.{
  CredPairHit, max_hits_per_segment, insert_by_pos, sort_by_pos, count_before, count_upto,
  is_placeholder, hit_of, push_hit, push_users, pair_from, detect_proximity,
}
use jiraleaks.Credpair.Detect.{Patterns, detect}
use jiraleaks.Credpair.Pairs.{pairs, detect_proximity-pairs}
use jiraleaks.Credpair.Bound.{detect-IsBounded}

abbrev identity : Text → Text
identity s = s

abbrev digest : Text → List ℕ
digest s = (length s % 256) ∷ []

abbrev field : Text
field = codes "description"

abbrev users : List (ℕ × Text)
users = (400, codes "far") ∷ (10, codes "near") ∷ []

abbrev passwords : List (ℕ × Text)
passwords = (120, codes "hunter2secret") ∷ []

abbrev username_of : List CredPairHit → List Text
username_of = map (λ (h : CredPairHit). h.username)

only_near :
    username_of (detect_proximity digest identity field users passwords []) ≡ codes "near" ∷ []
unfolding detect_proximity pair_from sort_by_pos insert_by_pos count_before count_upto push_users
    push_hit hit_of is_placeholder placeholder_matches words words_from is_template
only_near = refl

detect_proximity-pairs_example :
    detect_proximity digest identity field users passwords []
    ≡ take max_hits_per_segment
        ([] ++ pairs digest identity field (sort_by_pos users) (sort_by_pos passwords))
detect_proximity-pairs_example =
    detect_proximity-pairs digest identity field users passwords [] (omega arith, tt) (omega arith)

abbrev patterns : Patterns
patterns = record {
  url_userinfo = λ text. [];
  username_key = λ text. users;
  password_key = λ text. passwords;
}

abbrev parse : Text → Option (Text → Option Text)
parse text = none

detect-IsBounded_example :
    (hits : List CredPairHit) × (detect digest identity field patterns parse (codes "user=near")
      ≡ some hits)
    × (length hits ≤ max_hits_per_segment)
detect-IsBounded_example = detect-IsBounded digest identity field patterns parse (codes "user=near")
