-- ===== src/Candidate/Judge.antt =====
-- src/candidate.rs: the two halves of the filter chain. `none` is a panic of one of the checks.
use jiraleaks.Base.{Option, none, some, if◌then◌else◌, Text}
use jiraleaks.Entropy.{Float, shannon}
use jiraleaks.Finding.{Confidence, confidence_lt, adjust_confidence}
use jiraleaks.Rule.{CompiledRule}
use jiraleaks.Candidate.{Candidate, DropReason, PlaceholderMode, Verdict, keep, dropped}
use jiraleaks.Candidate.Checks.{
  placeholder_matches, min_length, entropy, denylist, placeholder, validator, or_else, char_classes,
  context_keywords, has_context_word,
}

-- `Result<(), DropReason>`.
pub data Filtered (F : Type 0) : Type 0 where
  passed : Filtered F
  rejected : DropReason F → Filtered F

module _ (fl : Float) (lower : Text → Text) where
  open fl use {F, lt, entropy_boost_threshold}

  -- A check that runs only if those before gave no reason.
  abbrev pub and_then :
      Option (Option (DropReason F))
      → Option (Option (DropReason F))
      → Option (Option (DropReason F))
  and_then none next = none
  and_then (some (some reason)) next = some (some reason)
  and_then (some none) next = next

  -- The checks that never panic, in order.
  unfoldable pub value_checks : CompiledRule F → Text → Option (DropReason F)
  value_checks rule value = or_else fl lower (min_length fl lower value rule.min_length) (
      or_else fl lower (entropy fl lower value rule.min_entropy) (
        or_else fl lower (denylist fl lower value rule.denylist) (
          or_else fl lower (placeholder fl lower value rule.ignore_if_contains)
            (char_classes fl lower value rule))))

  -- The check that the rule's validator makes, if it names one.
  unfoldable pub rule_validator : CompiledRule F → Text → Option (Option (DropReason F))
  rule_validator rule value = elim rule.validator [
    | none ↦ some none
    | some name ↦ validator fl lower name value
  ]

  unfoldable pub rule_filters : CompiledRule F → Candidate → Option (Filtered F)
  rule_filters rule cand =
      let reason = and_then (some (value_checks rule cand.value)) (
        and_then (context_keywords fl lower cand.text cand.value_span rule.context_keywords)
          (rule_validator rule cand.value)) in
      elim reason [ none ↦ none | some none ↦ some passed | some (some r) ↦ some (rejected r) ]

  -- `allowlisted` holds the reason of the entry that matched, if one did.
  unfoldable pub finalize :
      Confidence → Candidate → Option (Option Text) → Confidence → Option (Verdict F)
  finalize confidence cand (some reason) min_confidence =
      some (dropped (DropReason.allowlisted reason))
  finalize confidence cand none min_confidence =
      elim (has_context_word lower cand.text cand.value_span) [
        | none ↦ none
        | some boosted ↦
            let is_placeholder = placeholder_matches lower PlaceholderMode.by_equality cand.value in
            let adjusted =
              adjust_confidence confidence boosted
                (lt entropy_boost_threshold (shannon fl cand.value)) is_placeholder in
            some (
              if confidence_lt adjusted min_confidence
              then dropped (DropReason.below_min_confidence min_confidence adjusted)
              else keep adjusted boosted)
      ]
