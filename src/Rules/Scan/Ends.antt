-- ===== src/Rules/Scan/Ends.antt =====
-- Every turn of the scan moves the cursor on, so that the fuel is enough.
use jiraleaks.Base.{
  ℕ, zero, suc, ◌+◌, ◌<◌, true, false, some, List, [], ◌∷◌, ◌++◌, ◌≡◌, inl, inr, refl, ap, ◌∙◌,
  arith, ltb, leb, Bool-cases, Option-cases, All, In, here, there, All-append, Text,
}
use jiraleaks.Base.{>>=-some}
use jiraleaks.Text.Bytes.{byte_len, ceil_char_boundary, drop_bytes}
use jiraleaks.Text.Bytes.Boundary.{
  IsBoundary, start-IsBoundary, ceil-IsBoundary, le-ceil, drop_bytes-append,
}
use jiraleaks.Entropy.{Float}
use jiraleaks.Redact.{Range}
use jiraleaks.Rule.{CompiledRule, RawHit, Found, failed, no_match, matched}
use jiraleaks.Candidate.{Candidate, context_radius}
use jiraleaks.Candidate.Checks.{context_keywords}
use jiraleaks.Candidate.Judge.{Filtered, passed, rejected, rule_filters, rule_validator}
use jiraleaks.Candidate.Window.{context_window_covers}
use jiraleaks.Rules.Scan.{
  Turn, stop, skip, found, candidate_of, filtered, on_match, on_found, turn, scan_rule, scan_rules,
  scan,
}
use jiraleaks.Rules.Scan.Spans.{
  IsPart, IsSound, moved, IsPart-moved, end-IsBoundary, value_at_total, IsHit, hit_at_total,
}

module _ (fl : Float) (lower : Text → Text) where
  open fl use {F}

  -- A rule whose engine is as documented and whose validator, if it has one, does not panic.
  pub record IsRunnable (rule : CompiledRule F) : Type 0 where
    pub sound : IsSound rule.regex
    pub validates : (value : Text) → (r : _) × (rule_validator fl lower rule value ≡ some r)

  context_keywords_total :
      (text : Text) (span : Range) (keywords : List Text)
      → (r : _) × (context_keywords fl lower text span keywords ≡ some r)
  unfolding context_keywords
  context_keywords_total text span keywords =
      let (w, a, b, cut, _, _, _) = context_window_covers text span context_radius in
      elim (Option-cases (context_keywords fl lower text span keywords)) [
        | inl panics ↦ absurd (ground arith)
        | inr total ↦ total
      ]

  rule_filters_total :
      (rule : CompiledRule F)
      → IsRunnable rule
      → (cand : Candidate) → (r : Filtered F) × (rule_filters fl lower rule cand ≡ some r)
  unfolding rule_filters
  rule_filters_total rule run cand =
      let (a, first) = context_keywords_total cand.text cand.value_span rule.context_keywords in
      let (b, second) = run.validates cand.value in
      elim (Option-cases (rule_filters fl lower rule cand)) [
        | inl panics ↦ absurd (ground arith)
        | inr total ↦ total
      ]

  -- A turn that goes on does so behind the cursor, at a character.
  abbrev Advances : (text field_path : Text) → CompiledRule F → ℕ → Turn → Type 0
  Advances text field_path rule cursor stop = Unit
  Advances text field_path rule cursor (skip next) = (cursor < next) × IsBoundary text next
  Advances text field_path rule cursor (found next hit) =
      (cursor < next) × IsBoundary text next × IsHit fl lower text field_path rule hit

  filtered_total :
      (text field_path : Text) (rule : CompiledRule F) (cursor : ℕ) (span : Range)
      (r : Range × Text) (f : Filtered F)
      → cursor < span.end
      → IsBoundary text span.end
      → IsPart text r.1 r.0
      → rule_filters fl lower rule (candidate_of fl lower text field_path r) ≡ some f
      → (t : Turn) × (filtered fl lower text field_path rule span r f ≡ some t)
        × Advances text field_path rule cursor t
  filtered_total text field_path rule cursor span r (rejected reason) far bound p e =
      (skip span.end, refl, (far, bound))
  filtered_total text field_path rule cursor span r passed far bound p e =
      let (hit, made, good) = hit_at_total fl lower text field_path rule span r p e in
      (found span.end hit, >>=-some _ made, (far, bound, good))

  on_match_total :
      (text field_path : Text) (rule : CompiledRule F) (cursor : ℕ)
      → IsRunnable rule
      → (c : IsBoundary text cursor) → cursor < byte_len text
      → (m : Range) → rule.regex.find c.after ≡ matched m
      → (t : Turn) × (on_match fl lower text field_path rule cursor c.after m ≡ some t)
        × Advances text field_path rule cursor t
  unfolding on_match
  on_match_total text field_path rule cursor run c room m e =
      elim (Bool-cases (leb (cursor + m.end) cursor)) [
        | inl empty ↦ (
          skip (ceil_char_boundary text (cursor + 1)),
          rw empty refl,
          (
            omega (arith, le-ceil text (cursor + 1) (omega arith)),
            ceil-IsBoundary text (cursor + 1),
          ),
        )
        | inr wide ↦
            let (r, placed, part) = value_at_total fl lower rule run.sound text cursor c m e in
            let (f, judged) =
              rule_filters_total rule run (candidate_of fl lower text field_path r) in
            let (v, whole) = run.sound.matches c.after m e in
            let (t, made, ok) =
              filtered_total text field_path rule cursor (moved cursor m) r f (ground arith)
                (end-IsBoundary text v (moved cursor m) (IsPart-moved text cursor c v m whole)) part
                judged in
            (t, rw wide (>>=-some _ placed ∙ >>=-some _ judged ∙ made), ok)
      ]

  turn_total :
      (text field_path : Text) (rule : CompiledRule F) (cursor : ℕ)
      → IsRunnable rule
      → IsBoundary text cursor
      → cursor < byte_len text
      → (t : Turn) × (turn fl lower text field_path rule cursor ≡ some t)
        × Advances text field_path rule cursor t
  unfolding turn
  turn_total text field_path rule cursor run c room =
      let dropped : drop_bytes text cursor ≡ some c.after =
        ap (λ t. drop_bytes t cursor) c.split
        ∙ ap (λ i. drop_bytes (c.before ++ c.after) i) c.offset
        ∙ drop_bytes-append c.before c.after in
      let (t, e, ok) = on_found_total (rule.regex.find c.after) refl in
      (t, >>=-some _ dropped ∙ e, ok)
    where
      on_found_total :
          (f : Found)
          → rule.regex.find c.after ≡ f
          → (t : Turn) × (on_found fl lower text field_path rule cursor c.after f ≡ some t)
            × Advances text field_path rule cursor t
      on_found_total failed e = (stop, refl, tt)
      on_found_total no_match e = (stop, refl, tt)
      on_found_total (matched m) e = on_match_total text field_path rule cursor run c room m e

  abbrev pub AreHits : (text field_path : Text) → List (CompiledRule F) → List RawHit → Type 0
  AreHits text field_path rules =
      All (λ hit. (rule : CompiledRule F) × In rule rules × IsHit fl lower text field_path rule hit)

  -- The rest of the loop, where the loops from later cursors are known to end.
  after_turn :
      (text field_path : Text) (rules : List (CompiledRule F)) (rule : CompiledRule F)
      (n cursor : ℕ) (hits : List RawHit)
      → In rule rules
      → AreHits text field_path rules hits
      → ltb cursor (byte_len text) ≡ true
      → (t : Turn) → turn fl lower text field_path rule cursor ≡ some t
      → Advances text field_path rule cursor t
      → ((next : ℕ) (more : List RawHit)
          → cursor < next
          → IsBoundary text next
          → AreHits text field_path rules more
          → (out : List RawHit) × (scan_rule fl lower text field_path rule n next more ≡ some out)
            × AreHits text field_path rules out)
      → (out : List RawHit) × (scan_rule fl lower text field_path rule (suc n) cursor hits
          ≡ some out)
        × AreHits text field_path rules out
  unfolding scan_rule
  after_turn text field_path rules rule n cursor hits member good inside stop e ok later =
      (hits, rw (inside, e) refl, good)
  after_turn text field_path rules rule n cursor hits member good inside (skip next) e (far, bound)
        later =
      let (out, rest, good') = later next hits far bound good in (out, rw (inside, e) rest, good')
  after_turn text field_path rules rule n cursor hits member good inside (found next hit) e
        (far, bound, is_hit) later =
      let (out, rest, good') =
        later next (hits ++ hit ∷ []) far bound
          (All-append _ hits (hit ∷ []) good ((rule, member, is_hit), tt)) in
      (out, rw (inside, e) rest, good')

  scan_rule_total :
      (text field_path : Text) (rules : List (CompiledRule F)) (rule : CompiledRule F)
      (fuel cursor : ℕ) (hits : List RawHit)
      → IsRunnable rule
      → In rule rules
      → IsBoundary text cursor
      → byte_len text < fuel + cursor
      → AreHits text field_path rules hits
      → (out : List RawHit) × (scan_rule fl lower text field_path rule fuel cursor hits ≡ some out)
        × AreHits text field_path rules out
  unfolding scan_rule
  scan_rule_total text field_path rules rule zero cursor hits run member c enough good =
      let past : ltb cursor (byte_len text) ≡ false = ground arith in (hits, rw past refl, good)
  scan_rule_total text field_path rules rule (suc n) cursor hits run member c enough good =
      elim (Bool-cases (ltb cursor (byte_len text))) [
        | inr past ↦ (hits, rw past refl, good)
        | inl inside ↦
            let (t, e, ok) = turn_total text field_path rule cursor run c (ground arith) in
            after_turn text field_path rules rule n cursor hits member good inside t e ok
              (λ next more far bound good'.
                scan_rule_total text field_path rules rule n next more run member bound
                  (omega arith) good')
      ]

  scan_rules_total :
      (text field_path : Text) (rules left : List (CompiledRule F)) (hits : List RawHit)
      → All IsRunnable left
      → ((rule : CompiledRule F) → In rule left → In rule rules)
      → AreHits text field_path rules hits
      → (out : List RawHit) × (scan_rules fl lower text field_path left hits ≡ some out)
        × AreHits text field_path rules out
  unfolding scan_rules
  scan_rules_total text field_path rules [] hits run sub good = (hits, refl, good)
  scan_rules_total text field_path rules (rule ∷ left) hits (first, run) sub good =
      let (mid, e, good') =
        scan_rule_total text field_path rules rule (suc (byte_len text)) 0 hits first
          (sub rule here) (start-IsBoundary text) (omega arith) good in
      let (out, e', good'') =
        scan_rules_total text field_path rules left mid run (λ r m. sub r (there m)) good' in
      (out, >>=-some _ e ∙ e', good'')

  -- For rules whose engine stands on characters and whose validators do not panic, the scan of any
  -- text ends and does not panic, though a match may be empty. Of every hit the span cuts the value
  -- out of the snippet, and the value is a part of the text that the filters of one of the rules,
  -- which the hit names, accept there.
  pub scan_total :
      (rules : List (CompiledRule F)) (text field_path : Text)
      → All IsRunnable rules
      → (hits : List RawHit) × (scan fl lower rules text field_path ≡ some hits)
        × AreHits text field_path rules hits
  unfolding scan
  scan_total rules text field_path run =
      scan_rules_total text field_path rules rules [] run (λ r m. m) tt
