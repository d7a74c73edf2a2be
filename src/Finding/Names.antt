-- ===== src/Finding/Names.antt =====
-- The names of severities and confidences, and the adjustment of a confidence.
use jiraleaks.Base.{
  ◌≤◌, Bool, true, false, not, ◌||◌, some, ◌≡◌, ◌↔◌, arith, Text, codes, eq_of_text_eq,
}
use jiraleaks.Finding.{
  Severity, Confidence, confidence_rank, severity_as_str, confidence_as_str, severity_parse_opt,
  confidence_parse_opt, adjust_confidence,
}

module _ (lower : Text → Text) (s : Text) where
  -- `severity` names `v` exactly when it is the name of `v` in lower case.
  severity_name : (v : Severity) → severity_parse_opt lower s ≡ some v → lower s ≡ severity_as_str v
  unfolding severity_parse_opt severity_as_str
  severity_name v h = ground (
    arith,
    eq_of_text_eq (lower s) (codes "critical"),
    eq_of_text_eq (lower s) (codes "high"),
    eq_of_text_eq (lower s) (codes "medium"),
    eq_of_text_eq (lower s) (codes "low"),
    eq_of_text_eq (lower s) (codes "info"),
  )

  severity_of_name :
      (v : Severity) → lower s ≡ severity_as_str v → severity_parse_opt lower s ≡ some v
  unfolding severity_parse_opt severity_as_str
  severity_of_name Severity.critical h = rw h
  severity_of_name Severity.high h = rw h
  severity_of_name Severity.medium h = rw h
  severity_of_name Severity.low h = rw h
  severity_of_name Severity.info h = rw h

  -- A text is read as a severity exactly when its lower case is the name of that severity.
  severity_parse_opt_iff :
      (v : Severity) → (severity_parse_opt lower s ≡ some v) ↔ (lower s ≡ severity_as_str v)
  severity_parse_opt_iff v = (severity_name v, severity_of_name v)

  confidence_name :
      (v : Confidence) → confidence_parse_opt lower s ≡ some v → lower s ≡ confidence_as_str v
  unfolding confidence_parse_opt confidence_as_str
  confidence_name v h = ground (
    arith,
    eq_of_text_eq (lower s) (codes "high"),
    eq_of_text_eq (lower s) (codes "medium"),
    eq_of_text_eq (lower s) (codes "low"),
  )

  confidence_of_name :
      (v : Confidence) → lower s ≡ confidence_as_str v → confidence_parse_opt lower s ≡ some v
  unfolding confidence_parse_opt confidence_as_str
  confidence_of_name Confidence.high h = rw h
  confidence_of_name Confidence.medium h = rw h
  confidence_of_name Confidence.low h = rw h

  -- A text is read as a confidence exactly when its lower case is the name of that confidence.
  confidence_parse_opt_iff :
      (v : Confidence) → (confidence_parse_opt lower s ≡ some v) ↔ (lower s ≡ confidence_as_str v)
  confidence_parse_opt_iff v = (confidence_name v, confidence_of_name v)

-- `false` before `true`.
abbrev pub implies : Bool → Bool → Bool
implies a b = not a || b

-- A better base, one more signal or no placeholder never lowers the adjusted confidence.
adjust_confidence_mono :
    (base base' : Confidence) (k k' e e' p p' : Bool)
    → confidence_rank base ≤ confidence_rank base'
    → implies k k' ≡ true
    → implies e e' ≡ true
    → implies p' p ≡ true
    → confidence_rank (adjust_confidence base k e p)
      ≤ confidence_rank (adjust_confidence base' k' e' p')
unfolding adjust_confidence
adjust_confidence_mono Confidence.low base' k k' e e' true p' b hk he hp = ground arith
adjust_confidence_mono Confidence.low base' k k' e e' false p' b hk he hp = ground arith
adjust_confidence_mono Confidence.medium base' k k' e e' true p' b hk he hp = ground arith
adjust_confidence_mono Confidence.medium base' k k' e e' false p' b hk he hp = ground arith
adjust_confidence_mono Confidence.high base' k k' e e' true p' b hk he hp = ground arith
adjust_confidence_mono Confidence.high base' k k' e e' false p' b hk he hp = ground arith
