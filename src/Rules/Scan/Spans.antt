-- ===== src/Rules/Scan/Spans.antt =====
-- The scan of a text comes to an end, and the span of each hit cuts its value out of its snippet.
use jiraleaks.Base.{
  ℕ, ◌+◌, ◌-◌, ◌≤◌, min, some, ◌++◌, append_assoc, ◌≡◌, inl, inr, refl, sym, ap, ◌∙◌, subst, arith,
  ltb, Bool-cases, Option-cases, Text,
}
use jiraleaks.Base.{>>=-some}
use jiraleaks.Text.Bytes.{byte_len, floor_char_boundary, ceil_char_boundary, slice}
use jiraleaks.Text.Bytes.Boundary.{
  IsBoundary, floor-IsBoundary, ceil-IsBoundary, floor-le, le-ceil, byte_len-append, slice-append,
  slice-around,
}
use jiraleaks.Entropy.{Float}
use jiraleaks.Redact.{Range}
use jiraleaks.Rule.{Regex, CompiledRule, RawHit, matched}
use jiraleaks.Candidate.Judge.{passed, rule_filters}
use jiraleaks.Rules.Scan.{located, value_at, candidate_of, hit_at}

-- A text with a part of it, and where that part stands.
pub record IsPart (text value : Text) (span : Range) : Type 0 where
  pub before : Text
  pub after : Text
  pub split : text ≡ (before ++ value) ++ after
  pub start : span.start ≡ byte_len before
  pub end : span.end ≡ byte_len (before ++ value)

-- What the engine documents of the spans it returns: they stand on characters of the text.
pub record IsSound (regex : Regex) : Type 0 where
  pub matches : (t : Text) (m : Range) → regex.find t ≡ matched m → (v : Text) × IsPart t v m
  pub groups : (t : Text) (n : ℕ) (g : Range) → regex.group t n ≡ some g → (v : Text) × IsPart t v g

pub slice-IsPart :
    (text value : Text) (span : Range)
    → IsPart text value span
    → slice text span.start span.end ≡ some value
slice-IsPart text value span p =
    ap (λ t. slice t span.start span.end) p.split
    ∙ ap (λ i. slice ((p.before ++ value) ++ p.after) i span.end) p.start
    ∙ ap (λ j. slice ((p.before ++ value) ++ p.after) (byte_len p.before) j) p.end
    ∙ slice-append p.before value p.after

abbrev pub moved : ℕ → Range → Range
moved cursor m = record { start = cursor + m.start; end = cursor + m.end }

-- A part of what follows the cursor is a part of the text.
pub IsPart-moved :
    (text : Text) (cursor : ℕ) (c : IsBoundary text cursor) (value : Text) (m : Range)
    → IsPart c.after value m
    → IsPart text value (moved cursor m)
IsPart-moved text cursor c value m p = record {
  before = c.before ++ p.before;
  after = p.after;
  split =
      c.split
      ∙ ap (λ t. c.before ++ t) p.split
      ∙ sym (append_assoc c.before (p.before ++ value) p.after)
      ∙ ap (λ t. t ++ p.after) (sym (append_assoc c.before p.before value));
  start = omega (arith, c.offset, p.start, byte_len-append c.before p.before);
  end =
      omega (arith, c.offset, p.end, byte_len-append c.before (p.before ++ value))
      ∙ ap byte_len (sym (append_assoc c.before p.before value));
}

pub end-IsBoundary :
    (text value : Text) (span : Range) → IsPart text value span → IsBoundary text span.end
end-IsBoundary text value span p = record {
  before = p.before ++ value;
  after = p.after;
  split = p.split;
  offset = p.end;
}

module _ (fl : Float) (lower : Text → Text) where
  open fl use {F}

  located_total :
      (text : Text) (cursor : ℕ) (c : IsBoundary text cursor) (value : Text) (m : Range)
      → IsPart c.after value m
      → (r : Range × Text) × (located fl lower cursor c.after m ≡ some r) × IsPart text r.1 r.0
  located_total text cursor c value m p = (
    (moved cursor m, value),
    >>=-some _ (slice-IsPart c.after value m p),
    IsPart-moved text cursor c value m p,
  )

  pub value_at_total :
      (rule : CompiledRule F)
      → IsSound rule.regex
      → (text : Text) (cursor : ℕ) (c : IsBoundary text cursor) (m : Range)
      → rule.regex.find c.after ≡ matched m
      → (r : Range × Text) × (value_at fl lower rule cursor c.after m ≡ some r)
        × IsPart text r.1 r.0
  unfolding value_at
  value_at_total rule sound text cursor c m hit =
      let (v, whole) = sound.matches c.after m hit in
      elim (Bool-cases (ltb 0 rule.capture_group)) [
        | inr no_group ↦ rw no_group (located_total text cursor c v m whole)
        | inl group ↦ elim (Option-cases (rule.regex.group c.after rule.capture_group)) [
          | inl missing ↦ rw (group, missing) (located_total text cursor c v m whole)
          | inr (g, present) ↦
              let (w, part) = sound.groups c.after rule.capture_group g present in
              rw (group, present) (located_total text cursor c w g part)
        ]
      ]

  -- What is said of a hit: its span cuts its value out of its snippet, its rule accepts it where it
  -- stands in the text.
  pub record IsHit (text field_path : Text) (rule : CompiledRule F) (hit : RawHit) : Type 0 where
    pub cut : slice hit.snippet hit.snippet_span.start hit.snippet_span.end ≡ some hit.matched_value
    pub from_rule : hit.rule_id ≡ rule.rule_id
    pub accepted :
        (span : Range) × (slice text span.start span.end ≡ some hit.matched_value)
        × (rule_filters fl lower rule
              (candidate_of fl lower text field_path (span, hit.matched_value))
            ≡ some passed)

  pub hit_at_total :
      (text field_path : Text) (rule : CompiledRule F) (match_span : Range) (r : Range × Text)
      → IsPart text r.1 r.0
      → rule_filters fl lower rule (candidate_of fl lower text field_path r) ≡ some passed
      → (hit : RawHit) × (hit_at fl lower text field_path rule match_span r ≡ some hit)
        × IsHit text field_path rule hit
  unfolding hit_at
  hit_at_total text field_path rule match_span (span, value) p ok =
      let i = floor_char_boundary text (span.start - 50) in
      let j = ceil_char_boundary text (min (span.end + 50) (byte_len text)) in
      let room : span.end ≤ byte_len text =
        omega (arith, p.end, ap byte_len p.split, byte_len-append (p.before ++ value) p.after) in
      let (w, cut, inside) =
        slice-around p.before value p.after i j
          (subst (λ t. IsBoundary t i) p.split (floor-IsBoundary text (span.start - 50)))
          (subst (λ t. IsBoundary t j) p.split (ceil-IsBoundary text _))
          (omega (arith, floor-le text (span.start - 50), p.start))
          (omega (
            arith,
            le-ceil text (min (span.end + 50) (byte_len text)) (omega arith),
            p.end,
            room,
          )) in
      (
        record {
          rule_id = rule.rule_id;
          severity = rule.severity;
          confidence = rule.confidence;
          matched_value = value;
          match_span = match_span;
          snippet_span = record { start = span.start - i; end = span.end - i };
          snippet = w;
          field_path = field_path;
          references = rule.references;
        },
        >>=-some _ (ap (λ t. slice t i j) p.split ∙ cut),
        record {
          cut =
              ap (λ n. slice w (n - i) (span.end - i)) p.start
              ∙ ap (λ n. slice w (byte_len p.before - i) (n - i)) p.end
              ∙ inside;
          from_rule = refl;
          accepted = (span, slice-IsPart text value span p, ok);
        },
      )
