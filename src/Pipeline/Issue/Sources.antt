-- ===== src/Pipeline/Issue/Sources.antt =====
-- Where each finding of an issue comes from.
use jiraleaks.Base.{
  ℕ, zero, suc, ◌+◌, ◌≤◌, false, Option, none, some, List, [], ◌∷◌, ◌++◌, map, ◌≡◌, ◌⊎◌, inl, inr,
  refl, sym, ◌∙◌, subst, arith, take, All, In, here, there, All-append, Text, codes, if_intro,
}
use jiraleaks.Base.{>>=-inv, some_inj}
use jiraleaks.Entropy.{Float}
use jiraleaks.Hash.{secret_hash}
use jiraleaks.Finding.{Finding, Confidence, confidence_lt, confidence_parse, confidence_rank}
use jiraleaks.Rule.{CompiledRule, RawHit}
use jiraleaks.Rules.Scan.{redacted_snippet, scan}
use jiraleaks.Rules.Scan.Ends.{IsRunnable}
use jiraleaks.Candidate.{Verdict, keep, dropped}
use jiraleaks.Candidate.Verdicts.{finalize-keep}
use jiraleaks.Allowlist.{AllowlistFilter, check}
use jiraleaks.Credpair.{CredPairHit}
use jiraleaks.Credpair.Detect.{detect}
use jiraleaks.Extract.{TextSegment}
use jiraleaks.Attachments.{AttachmentOutcome}
use jiraleaks.Config.{Config}
use jiraleaks.Pipeline.Issue.{
  Issue, attachment_segments, IssueOutcome, Outside, pair_finding, judged, payload_segments,
  process_issue,
}
use jiraleaks.Pipeline.Issue.Capped.{
  numbered, reported_hit, reported_hits, reported_pairs, reported, process_issue_lem,
}

absurd_outcome : {o : IssueOutcome} → ◌≡◌ {A = Option IssueOutcome} none (some o) → ⊥
absurd_outcome h = cc

module _ (fl : Float) (lower : Text → Text) (out : Outside) (config : Config)
    (rules : List (CompiledRule (fl.F))) (allowlist : AllowlistFilter) where
  open fl use {F}

  abbrev least : Confidence
  least = confidence_parse lower config.min_confidence

  -- A finding that stands for a hit of the rules.
  pub record FromHit (issue : Issue) (all_texts : List TextSegment) (f : Finding) : Type 0 where
    pub segment : TextSegment
    pub text_of : In segment all_texts
    pub hits : List RawHit
    pub hit : RawHit
    pub scanned : scan fl lower rules segment.text segment.field_path ≡ some hits
    pub among : In hit hits
    pub not_allowed :
        check out.digest allowlist hit.matched_value hit.rule_id issue.key hit.field_path ≡ none
    pub rule : f.rule_id ≡ hit.rule_id
    pub hashed : f.secret_hash ≡ secret_hash out.digest hit.matched_value
    pub masked : redacted_snippet hit hits ≡ some f.snippet

  -- A finding that stands for a pair of a user name and a password.
  pub record FromPair (all_texts : List TextSegment) (f : Finding) : Type 0 where
    pub segment : TextSegment
    pub text_of : In segment all_texts
    pub pairs : List CredPairHit
    pub pair : CredPairHit
    pub detected :
        detect out.digest lower segment.field_path out.patterns out.parse_object segment.text
        ≡ some pairs
    pub among : In pair pairs
    pub rule : f.rule_id ≡ codes "credential_pair"
    pub hashed : f.secret_hash ≡ pair.password_hash

  pub record IsSourced (issue : Issue) (all_texts : List TextSegment) (f : Finding) : Type 0 where
    pub source : FromHit issue all_texts f ⊎ FromPair all_texts f
    pub above : confidence_rank least ≤ confidence_rank f.confidence
    pub own : f.issue_key ≡ issue.key

  abbrev AreSourced : Issue → List TextSegment → List (ℕ → Finding) → Type 0
  AreSourced issue all_texts fs = All (λ g. (n : ℕ) → IsSourced issue all_texts (g n)) fs

  reported_hit_lem :
      (issue : Issue) (all_texts : List TextSegment) (segment : TextSegment) (hits : List RawHit)
      (hit : RawHit) (v : Verdict F) (fs : List (ℕ → Finding))
      → In segment all_texts
      → scan fl lower rules segment.text segment.field_path ≡ some hits
      → In hit hits
      → judged fl lower out config rules allowlist issue segment hit ≡ some v
      → reported_hit fl lower out config rules allowlist issue segment hits hit v ≡ some fs
      → AreSourced issue all_texts fs
  reported_hit_lem issue all_texts segment hits hit (dropped reason) fs text_of scanned member
        verdict e =
      subst (AreSourced issue all_texts) (some_inj e) tt
  reported_hit_lem issue all_texts segment hits hit (keep confidence boosted) fs text_of scanned
        member verdict e =
      let (snippet, masked, e') = >>=-inv (redacted_snippet hit hits) _ e in
      let (allowed, above, real) = finalize-keep fl lower _ _ _ _ confidence boosted verdict in
      subst (AreSourced issue all_texts) (some_inj e') (
        (λ n. record {
          source = inl (record {
            segment = segment;
            text_of = text_of;
            hits = hits;
            hit = hit;
            scanned = scanned;
            among = member;
            not_allowed = allowed;
            rule = refl;
            hashed = refl;
            masked = masked;
          });
          above = above;
          own = refl;
        }),
        tt,
      )

  reported_hits_lem :
      (issue : Issue) (all_texts : List TextSegment) (segment : TextSegment)
      (hits left : List RawHit) (fs : List (ℕ → Finding))
      → In segment all_texts
      → scan fl lower rules segment.text segment.field_path ≡ some hits
      → ((hit : RawHit) → In hit left → In hit hits)
      → reported_hits fl lower out config rules allowlist issue segment hits left ≡ some fs
      → AreSourced issue all_texts fs
  reported_hits_lem issue all_texts segment hits [] fs text_of scanned sub e =
      subst (AreSourced issue all_texts) (some_inj e) tt
  reported_hits_lem issue all_texts segment hits (hit ∷ left) fs text_of scanned sub e =
      let (v, verdict, e1) =
        >>=-inv (judged fl lower out config rules allowlist issue segment hit) _ e in
      let (first, found, e2) =
        >>=-inv (reported_hit fl lower out config rules allowlist issue segment hits hit v) _ e1 in
      let (more, rest, e3) =
        >>=-inv (reported_hits fl lower out config rules allowlist issue segment hits left) _ e2 in
      subst (AreSourced issue all_texts) (some_inj e3) (
        All-append _ first more
          (reported_hit_lem issue all_texts segment hits hit v first text_of scanned (sub hit here)
            verdict found)
          (reported_hits_lem issue all_texts segment hits left more text_of scanned
            (λ h m. sub h (there m)) rest))

  pairs_lem :
      (issue : Issue) (all_texts : List TextSegment) (segment : TextSegment)
      (pairs left : List CredPairHit)
      → In segment all_texts
      → detect out.digest lower segment.field_path out.patterns out.parse_object segment.text
        ≡ some pairs
      → ((pair : CredPairHit) → In pair left → In pair pairs)
      → confidence_lt (confidence_parse lower (codes "high")) least ≡ false
      → AreSourced issue all_texts
          (map (pair_finding fl lower out config rules allowlist issue segment) left)
  pairs_lem issue all_texts segment pairs [] text_of detected sub high = tt
  pairs_lem issue all_texts segment pairs (pair ∷ left) text_of detected sub high = (
    (λ n. record {
      source = inr (record {
        segment = segment;
        text_of = text_of;
        pairs = pairs;
        pair = pair;
        detected = detected;
        among = sub pair here;
        rule = refl;
        hashed = refl;
      });
      above = ground (arith, high);
      own = refl;
    }),
    pairs_lem issue all_texts segment pairs left text_of detected (λ p m. sub p (there m)) high,
  )

  reported_pairs_lem :
      (issue : Issue) (all_texts : List TextSegment) (segment : TextSegment)
      (pairs : List CredPairHit)
      → In segment all_texts
      → detect out.digest lower segment.field_path out.patterns out.parse_object segment.text
        ≡ some pairs
      → AreSourced issue all_texts
          (reported_pairs fl lower out config rules allowlist issue segment pairs)
  reported_pairs_lem issue all_texts segment pairs text_of detected =
      if_intro (AreSourced issue all_texts)
        (confidence_lt (confidence_parse lower (codes "high")) least) _ _ (λ _. tt)
        (λ high. pairs_lem issue all_texts segment pairs pairs text_of detected (λ p m. m) high)

  reported_lem :
      (issue : Issue) (all_texts segments : List TextSegment) (fs : List (ℕ → Finding))
      → ((segment : TextSegment) → In segment segments → In segment all_texts)
      → reported fl lower out config rules allowlist issue segments ≡ some fs
      → AreSourced issue all_texts fs
  reported_lem issue all_texts [] fs sub e = subst (AreSourced issue all_texts) (some_inj e) tt
  reported_lem issue all_texts (segment ∷ segments) fs sub e =
      let (hits, scanned, e1) = >>=-inv (scan fl lower rules segment.text segment.field_path) _ e in
      let (first, found, e2) =
        >>=-inv (reported_hits fl lower out config rules allowlist issue segment hits hits) _ e1 in
      let (pairs, detected, e3) =
        >>=-inv
          (detect out.digest lower segment.field_path out.patterns out.parse_object segment.text) _
          e2 in
      let (more, rest, e4) =
        >>=-inv (reported fl lower out config rules allowlist issue segments) _ e3 in
      let text_of = sub segment here in
      subst (AreSourced issue all_texts) (some_inj e4) (
        All-append _ _ more
          (All-append _ first _
            (reported_hits_lem issue all_texts segment hits hits first text_of scanned (λ h m. m)
              found)
            (reported_pairs_lem issue all_texts segment pairs text_of detected))
          (reported_lem issue all_texts segments more (λ x m. sub x (there m)) rest))

  numbered-All :
      (issue : Issue) (all_texts : List TextSegment) (n k : ℕ) (fs : List (ℕ → Finding))
      → AreSourced issue all_texts fs
      → All (IsSourced issue all_texts) (numbered n (take k fs))
  numbered-All issue all_texts n zero fs h = tt
  numbered-All issue all_texts n (suc k) [] h = tt
  numbered-All issue all_texts n (suc k) (f ∷ fs) (first, h) =
      (first n, numbered-All issue all_texts (n + 1) k fs h)

  -- Every finding of an issue stands either for a hit of the rules in a text of the issue, which no
  -- entry of the allowlist matches, with the hash of the value and with the snippet masked for all
  -- hits of the text, or for a credential pair in such a text, with the hash of its password. The
  -- confidence is at least the configured minimum. The texts are those of the payload, of the
  -- further comments and of the attachments.
  pub process_issue-IsSourced :
      (issue : Issue) (o : IssueOutcome)
      → All (IsRunnable fl lower) rules
      → process_issue fl lower out config rules allowlist issue ≡ some o
      → (payload : List TextSegment) × (attached : List TextSegment) × (outcome : AttachmentOutcome)
        × (payload_segments fl lower out config rules allowlist issue ≡ some payload)
        × (attachment_segments out config issue ≡ some (attached, outcome))
        × All (IsSourced issue (payload ++ attached)) o.findings
  process_issue-IsSourced issue o run e =
      elim (process_issue_lem fl lower out config rules allowlist issue run) [
        | inl (o', e', report) ↦
            let same : o' ≡ o = some_inj (sym e' ∙ e) in
            let all_texts = report.payload ++ report.attached in
            (
              report.payload,
              report.attached,
              report.outcome,
              report.of_payload,
              report.attachments,
              subst (λ (x : IssueOutcome). All (IsSourced issue all_texts) x.findings) same
                  (subst (All (IsSourced issue all_texts)) (sym report.findings) (
                    numbered-All issue all_texts 0 config.max_findings_per_issue report.unlimited
                      (reported_lem issue all_texts _ _ (λ x m. m) report.all_segments))),
            )
        | inr (checked, over, panics) ↦ absurd (absurd_outcome (sym panics ∙ e))
      ]
