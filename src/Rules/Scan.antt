-- ===== src/Rules/Scan.antt =====
-- src/rules.rs: `scan`, on fuel: one unit more than the text has bytes for each rule. `none` is a
-- panic of a slice or of a validator, or the fuel used up.
pub mod Spans
pub mod Ends
use jiraleaks.Base.{
  ℕ, zero, suc, ◌+◌, ◌-◌, ◌*◌, ◌/◌, ◌%◌, ◌^◌, ◌≤◌, ◌<◌, min, max, Bool, true, false, not, ◌&&◌,
  ◌||◌, Option, none, some, List, [], ◌∷◌, ◌++◌, map, append_assoc, append-nil, ◌≡◌, ◌≢◌, ◌↔◌, ◌⊎◌,
  inl, inr, refl, sym, ap, ◌∙◌, subst, arith, ltb, leb, ◌==◌, if◌then◌else◌, Bool-cases,
  Option-cases, eq_of_==, ==_refl, &&-true, ||-true, ||-false, length, get_elem?, take, drop,
  is_empty, any, all, All, In, here, there, length-append, length-take-le, length-reverse, reverse,
  reverse-append, In-append_left, In-append_right, In-append_split, All-append, All-In, Text, codes,
  text_eq, eq_of_text_eq, text_eq_refl, text_eq_of_eq, text_eq_comm, if_intro,
}
use jiraleaks.Base.{◌>>=◌}
use jiraleaks.Text.Bytes.{byte_len, floor_char_boundary, ceil_char_boundary, drop_bytes, slice}
use jiraleaks.Entropy.{Float}
use jiraleaks.Redact.{Range, redact_snippet_with}
use jiraleaks.Rule.{Regex, CompiledRule, RawHit, Found, failed, no_match, matched}
use jiraleaks.Candidate.{Candidate}
use jiraleaks.Candidate.Judge.{Filtered, passed, rejected, rule_filters}

-- A turn of the loop over a text: it stops, or goes on at a cursor, with a hit or without.
pub data Turn : Type 0 where
  stop : Turn
  skip : (cursor : ℕ) → Turn
  found : (cursor : ℕ) (hit : RawHit) → Turn

-- `RawHit::redacted_snippet`.
abbrev pub sibling : RawHit → Text × Text
sibling other = (other.matched_value, other.rule_id)

unfoldable pub redacted_snippet : RawHit → List RawHit → Option Text
redacted_snippet hit siblings =
    redact_snippet_with hit.snippet hit.matched_value hit.snippet_span hit.rule_id
      (map sibling siblings)

module _ (fl : Float) (lower : Text → Text) where
  open fl use {F}

  -- A part of the text at the cursor, with its offsets in the whole text.
  abbrev pub located : (cursor : ℕ) (search_text : Text) → Range → Option (Range × Text)
  located cursor search_text m = do
    value ← slice search_text m.start m.end
    some (record { start = cursor + m.start; end = cursor + m.end }, value)

  -- The capture group, if the rule declares one and it took part, else the whole match.
  unfoldable pub value_at :
      CompiledRule F → (cursor : ℕ) (search_text : Text) → Range → Option (Range × Text)
  value_at rule cursor search_text m =
      if ltb 0 rule.capture_group
      then elim (rule.regex.group search_text rule.capture_group) [
        | some g ↦ located cursor search_text g
        | none ↦ located cursor search_text m
      ]
      else located cursor search_text m

  abbrev pub candidate_of : (text field_path : Text) → Range × Text → Candidate
  candidate_of text field_path (span, value) = record {
    value = value;
    text = text;
    value_span = span;
    field_path = field_path;
    issue_key = [];
  }

  unfoldable pub hit_at :
      (text field_path : Text)
      → CompiledRule F
      → (match_span : Range) → Range × Text
      → Option RawHit
  hit_at text field_path rule match_span (span, value) =
      let snippet_start = floor_char_boundary text (span.start - 50) in
      let snippet_end = ceil_char_boundary text (min (span.end + 50) (byte_len text)) in
      do
        snippet ← slice text snippet_start snippet_end
        some (record {
          rule_id = rule.rule_id;
          severity = rule.severity;
          confidence = rule.confidence;
          matched_value = value;
          match_span = match_span;
          snippet_span = record {
            start = span.start - snippet_start;
            end = span.end - snippet_start;
          };
          snippet = snippet;
          field_path = field_path;
          references = rule.references;
        })

  -- What the verdict of the filters makes of a match.
  abbrev pub filtered :
      (text field_path : Text)
      → CompiledRule F
      → (match_span : Range) → Range × Text
      → Filtered F
      → Option Turn
  filtered text field_path rule match_span value (rejected reason) = some (skip match_span.end)
  filtered text field_path rule match_span value passed = do
    hit ← hit_at text field_path rule match_span value
    some (found match_span.end hit)

  unfoldable pub on_match :
      (text field_path : Text)
      → CompiledRule F
      → (cursor : ℕ) (search_text : Text) → Range
      → Option Turn
  unfolding value_at hit_at
  on_match text field_path rule cursor search_text m =
      if leb (cursor + m.end) cursor then some (skip (ceil_char_boundary text (cursor + 1))) else do
        value ← value_at rule cursor search_text m
        verdict ← rule_filters fl lower rule (candidate_of text field_path value)
        filtered text field_path rule (record { start = cursor + m.start; end = cursor + m.end })
            value verdict

  abbrev pub on_found :
      (text field_path : Text)
      → CompiledRule F
      → (cursor : ℕ) (search_text : Text) → Found
      → Option Turn
  on_found text field_path rule cursor search_text failed = some stop
  on_found text field_path rule cursor search_text no_match = some stop
  on_found text field_path rule cursor search_text (matched m) =
      on_match text field_path rule cursor search_text m

  unfoldable pub turn : (text field_path : Text) → CompiledRule F → (cursor : ℕ) → Option Turn
  unfolding on_match
  turn text field_path rule cursor = do
    search_text ← drop_bytes text cursor
    on_found text field_path rule cursor search_text (rule.regex.find search_text)

  -- The loop over one rule.
  unfoldable pub scan_rule :
      (text field_path : Text)
      → CompiledRule F
      → (fuel cursor : ℕ) → List RawHit
      → Option (List RawHit)
  unfolding turn
  scan_rule text field_path rule zero cursor hits =
      if ltb cursor (byte_len text) then none else some hits
  scan_rule text field_path rule (suc n) cursor hits =
      if ltb cursor (byte_len text)
      then elim (turn text field_path rule cursor) [
        | none ↦ none
        | some stop ↦ some hits
        | some (skip next) ↦ scan_rule text field_path rule n next hits
        | some (found next hit) ↦ scan_rule text field_path rule n next (hits ++ hit ∷ [])
      ]
      else some hits

  unfoldable pub scan_rules :
      (text field_path : Text) → List (CompiledRule F) → List RawHit → Option (List RawHit)
  unfolding scan_rule
  scan_rules text field_path [] hits = some hits
  scan_rules text field_path (rule ∷ rules) hits = do
    hits' ← scan_rule text field_path rule (suc (byte_len text)) 0 hits
    scan_rules text field_path rules hits'

  unfoldable pub scan : List (CompiledRule F) → (text field_path : Text) → Option (List RawHit)
  unfolding scan_rules
  scan rules text field_path = scan_rules text field_path rules []
