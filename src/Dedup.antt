-- ===== src/Dedup.antt =====
-- src/dedup.rs: one finding for each secret and rule, with every location. `HashMap` is an
-- association list; an index out of bounds, which panics, is `none`.
pub mod Group
pub mod Merged
use jiraleaks.Base.{
  ℕ, zero, suc, ◌+◌, ◌-◌, ◌*◌, ◌/◌, ◌%◌, ◌^◌, ◌≤◌, ◌<◌, min, max, Bool, true, false, not, ◌&&◌,
  ◌||◌, Option, none, some, List, [], ◌∷◌, ◌++◌, map, append_assoc, append-nil, ◌≡◌, ◌≢◌, ◌↔◌, ◌⊎◌,
  inl, inr, refl, sym, ap, ◌∙◌, arith, ltb, leb, ◌==◌, if◌then◌else◌, Bool-cases, Option-cases,
  eq_of_==, ==_refl, &&-true, ||-true, ||-false, length, get_elem?, take, drop, is_empty, any, all,
  All, In, here, there, length-append, length-take-le, length-reverse, reverse, reverse-append,
  In-append_left, In-append_right, In-append_split, All-append, All-In, Text, codes, text_eq,
  eq_of_text_eq, text_eq_refl, text_eq_of_eq,
}
use jiraleaks.Finding.{Finding, Location, source_eq, merge_key, merge_key_text}

-- The derived equality of `Location`.
unfoldable pub location_eq : Location → Location → Bool
location_eq a b =
    text_eq a.issue_key b.issue_key
    && (text_eq a.field_path b.field_path && source_eq a.source_type b.source_type)

-- The key of a finding in the map.
abbrev pub map_key : Finding → Text
map_key f = merge_key_text (merge_key f)

pub record Deduplicator : Type 0 where
  pub seen : List (Text × ℕ)
  pub findings : List Finding

unfoldable pub new : Deduplicator
new = record { seen = []; findings = [] }

-- `HashMap::get`.
unfoldable pub get : Text → List (Text × ℕ) → Option ℕ
get key [] = none
get key ((k, idx) ∷ seen) = if text_eq k key then some idx else get key seen

-- The loop over the locations of a duplicate.
unfoldable pub add_locations : List Location → List Location → List Location
unfolding location_eq
add_locations existing [] = existing
add_locations existing (loc ∷ locs) =
    add_locations (if any (location_eq loc) existing then existing else existing ++ loc ∷ []) locs

abbrev pub with_locations : Finding → List Location → Finding
with_locations f locs = record f { locations = locs }

-- A write at an index.
unfoldable pub set : List Finding → ℕ → Finding → List Finding
set [] idx g = []
set (f ∷ fs) zero g = g ∷ fs
set (f ∷ fs) (suc idx) g = f ∷ set fs idx g

unfoldable pub insert : Deduplicator → Finding → Option (Deduplicator × ℕ)
insert d finding = elim (get (map_key finding) d.seen) [
  | some idx ↦ elim (get_elem? d.findings idx) [
    | none ↦ none
    | some existing ↦ some (
      record d {
        findings =
            set d.findings idx
              (with_locations existing (add_locations existing.locations finding.locations));
      },
      idx,
    )
  ]
  | none ↦ some (
    record {
      seen = (map_key finding, length d.findings) ∷ d.seen;
      findings = d.findings ++ finding ∷ [];
    },
    length d.findings,
  )
]

abbrev pub into_findings : Deduplicator → List Finding
into_findings d = d.findings

-- The loop of `pipeline::run` over all findings of a scan.
unfoldable pub insert_all : List Finding → Deduplicator → Option Deduplicator
insert_all [] d = some d
insert_all (f ∷ fs) d = elim (insert d f) [ none ↦ none | some (d', idx) ↦ insert_all fs d' ]
