-- ===== src/Candidate/Verdicts.antt =====
-- The verdicts: what the pipeline keeps.
use jiraleaks.Base.{
  ◌≤◌, Bool, true, false, Option, none, some, ◌≡◌, ◌⊎◌, inl, inr, refl, sym, ap, ◌∙◌, arith, leb,
  if◌then◌else◌, Text,
}
use jiraleaks.Entropy.{Float, shannon}
use jiraleaks.Finding.{Confidence, confidence_rank, confidence_lt, adjust_confidence}
use jiraleaks.Candidate.{Candidate, DropReason, PlaceholderMode, Verdict, keep, dropped}
use jiraleaks.Candidate.Checks.{placeholder_matches, has_context_word}
use jiraleaks.Candidate.Window.{has_context_word_total}
use jiraleaks.Candidate.Judge.{finalize}

adjust_placeholder :
    (base : Confidence) (k e p : Bool)
    → (p ≡ false) ⊎ (adjust_confidence base k e p ≡ Confidence.low)
unfolding adjust_confidence
adjust_placeholder base k e true = inr refl
adjust_placeholder base k e false = inl refl

module _ (fl : Float) (lower : Text → Text) where
  open fl use {F, lt, entropy_boost_threshold}

  floor_swap :
      (least adj : Confidence) (boosted : Bool)
      → ◌≡◌ {A = Verdict F}
          (if confidence_lt adj least
            then dropped (DropReason.below_min_confidence least adj)
            else keep adj boosted)
          (if leb (confidence_rank least) (confidence_rank adj)
            then keep adj boosted
            else dropped (DropReason.below_min_confidence least adj))
  floor_swap least adj boosted = ground arith

  -- What passes the floor is kept as it is.
  kept_above :
      (least adj c : Confidence) (b b' : Bool)
      → ◌≡◌ {A = Option (Verdict F)}
          (some (
            if leb (confidence_rank least) (confidence_rank adj)
            then keep adj b
            else dropped (DropReason.below_min_confidence least adj)))
          (some (keep c b'))
      → (adj ≡ c) × (confidence_rank least ≤ confidence_rank c)
  kept_above least adj c b b' h = ground arith

  -- The confidence that the verdict on a candidate is about.
  abbrev adjusted : Confidence → Candidate → Bool → Confidence
  adjusted confidence cand boosted =
      adjust_confidence confidence boosted (lt entropy_boost_threshold (shannon fl cand.value))
        (placeholder_matches lower PlaceholderMode.by_equality cand.value)

  -- The verdict never panics, and a candidate that no entry matched is kept exactly when its
  -- adjusted confidence is at least the configured minimum.
  pub finalize_total :
      (confidence : Confidence) (cand : Candidate) (least : Confidence)
      → (boosted : Bool) × (has_context_word lower cand.text cand.value_span ≡ some boosted)
        × (finalize fl lower confidence cand none least
            ≡ some (
                if leb (confidence_rank least) (confidence_rank (adjusted confidence cand boosted))
                then keep (adjusted confidence cand boosted) boosted
                else dropped
                    (DropReason.below_min_confidence least (adjusted confidence cand boosted))))
  unfolding finalize
  finalize_total confidence cand least =
      let (boosted, found) = has_context_word_total lower cand.text cand.value_span in
      let adj = adjusted confidence cand boosted in
      (boosted, found, rw (found, finalize) (ap some (floor_swap least adj boosted)))

  -- A candidate is kept only if no allowlist entry matched it, with a confidence of at least the
  -- configured minimum, and a placeholder only with low confidence.
  pub finalize-keep :
      (confidence : Confidence) (cand : Candidate) (allowed : Option (Option Text))
      (least c : Confidence) (boosted : Bool)
      → finalize fl lower confidence cand allowed least ≡ some (keep c boosted)
      → (allowed ≡ none)
        × (confidence_rank least ≤ confidence_rank c)
        × ((placeholder_matches lower PlaceholderMode.by_equality cand.value ≡ false)
            ⊎ (c ≡ Confidence.low))
  unfolding finalize
  finalize-keep confidence cand (some reason) least c boosted h = absurd (ground arith)
  finalize-keep confidence cand none least c boosted h =
      let (b, found, verdict) = finalize_total confidence cand least in
      let (same, above) =
        kept_above least (adjusted confidence cand b) c b boosted (sym verdict ∙ h) in
      (
        refl,
        above,
        elim (adjust_placeholder confidence b (lt entropy_boost_threshold (shannon fl cand.value))
            (placeholder_matches lower PlaceholderMode.by_equality cand.value)) [
              | inl real ↦ inl real
              | inr low ↦ inr (sym same ∙ low)
            ],
      )
