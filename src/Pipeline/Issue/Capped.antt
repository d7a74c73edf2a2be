-- ===== src/Pipeline/Issue/Capped.antt =====
-- What an issue reports: the findings that a scan without a limit would give, up to the limit.
use jiraleaks.Base.{
  ℕ, zero, suc, ◌+◌, ◌-◌, ◌≤◌, Bool, true, false, Option, none, some, List, [], ◌∷◌, ◌++◌, map,
  append_assoc, append-nil, ◌≡◌, ◌⊎◌, inl, inr, refl, sym, ap, ◌∙◌, arith, if◌then◌else◌,
  Bool-cases, length, take, All, length-take-le, Text, codes, if_intro,
}
use jiraleaks.Base.{◌>>=◌, >>=-some, take-nil}
use jiraleaks.Entropy.{Float}
use jiraleaks.Finding.{Finding, Confidence, confidence_lt, confidence_parse}
use jiraleaks.Rule.{CompiledRule, RawHit}
use jiraleaks.Redact.Absent.{redact_snippet_with_total}
use jiraleaks.Rules.Scan.{sibling, redacted_snippet, scan}
use jiraleaks.Rules.Scan.Ends.{IsRunnable, scan_total}
use jiraleaks.Candidate.{Candidate, Verdict, keep, dropped}
use jiraleaks.Candidate.Judge.{finalize}
use jiraleaks.Candidate.Verdicts.{finalize_total}
use jiraleaks.Allowlist.{AllowlistFilter}
use jiraleaks.Credpair.{CredPairHit}
use jiraleaks.Credpair.Detect.{detect}
use jiraleaks.Credpair.Bound.{detect-IsBounded}
use jiraleaks.Extract.{TextSegment}
use jiraleaks.Attachments.{AttachmentOutcome, policy_from}
use jiraleaks.Attachments.Collect.{no_outcome, collect_segments}
use jiraleaks.Attachments.Collect.Budget.{collect_segments_total}
use jiraleaks.Config.{Config}
use jiraleaks.Pipeline.Issue.Payload.{PagingOverflows, extra_comments_cases}
use jiraleaks.Pipeline.Issue.{
  Issue, IssueOutcome, Outside, Kept, attachment_segments, hit_finding, pair_finding, push_finding,
  judged, on_verdict, is_full, keep_hits, keep_pairs, scan_segments, payload_segments,
  process_issue,
}

redacted_snippet_total :
    (hit : RawHit) (hits : List RawHit) → (out : Text) × (redacted_snippet hit hits ≡ some out)
unfolding redacted_snippet
redacted_snippet_total hit hits =
    redact_snippet_with_total hit.snippet hit.matched_value hit.snippet_span hit.rule_id
      (map sibling hits)

-- The verdict never panics, allowlisted or not.
finalize-some :
    (fl : Float) (lower : Text → Text) (confidence : Confidence) (cand : Candidate)
    (allowed : Option (Option Text)) (least : Confidence)
    → (v : Verdict (fl.F)) × (finalize fl lower confidence cand allowed least ≡ some v)
unfolding finalize
finalize-some fl lower confidence cand (some reason) least = (_, refl)
finalize-some fl lower confidence cand none least =
    let (boosted, found, e) = finalize_total fl lower confidence cand least in (_, e)

-- The findings in their order, numbered.
abbrev pub numbered : ℕ → List (ℕ → Finding) → List Finding
numbered n [] = []
numbered n (f ∷ fs) = f n ∷ numbered (n + 1) fs

length-numbered : (n : ℕ) (fs : List (ℕ → Finding)) → length (numbered n fs) ≡ length fs
length-numbered n [] = refl
length-numbered n (f ∷ fs) = ap suc (length-numbered (n + 1) fs)

module _ (fl : Float) (lower : Text → Text) (out : Outside) (config : Config)
    (rules : List (CompiledRule (fl.F))) (allowlist : AllowlistFilter) where
  open fl use {F}

  -- The reference: what the hits of a segment, its pairs, and all segments report, with no limit.
  abbrev pub reported_hit :
      Issue → TextSegment → (hits : List RawHit) → RawHit → Verdict F → Option (List (ℕ → Finding))
  reported_hit issue segment hits hit (dropped reason) = some []
  reported_hit issue segment hits hit (keep confidence boosted) = do
    snippet ← redacted_snippet hit hits
    some (hit_finding fl lower out config rules allowlist issue segment hit confidence snippet ∷ [])

  abbrev pub reported_hits :
      Issue → TextSegment → (hits left : List RawHit) → Option (List (ℕ → Finding))
  reported_hits issue segment hits [] = some []
  reported_hits issue segment hits (hit ∷ left) = do
    verdict ← judged fl lower out config rules allowlist issue segment hit
    here_found ← reported_hit issue segment hits hit verdict
    more ← reported_hits issue segment hits left
    some (here_found ++ more)

  abbrev pub reported_pairs : Issue → TextSegment → List CredPairHit → List (ℕ → Finding)
  reported_pairs issue segment pairs =
      if confidence_lt (confidence_parse lower (codes "high"))
        (confidence_parse lower config.min_confidence)
      then []
      else map (pair_finding fl lower out config rules allowlist issue segment) pairs

  abbrev pub reported : Issue → List TextSegment → Option (List (ℕ → Finding))
  reported issue [] = some []
  reported issue (segment ∷ segments) = do
    hits ← scan fl lower rules segment.text segment.field_path
    from_hits ← reported_hits issue segment hits hits
    pairs ← detect out.digest lower segment.field_path out.patterns out.parse_object segment.text
    more ← reported issue segments
    some ((from_hits ++ reported_pairs issue segment pairs) ++ more)

  -- Pushing findings up to the limit.
  abbrev push_capped : List (ℕ → Finding) → Kept → Kept
  push_capped [] st = st
  push_capped (f ∷ fs) st =
      let more = push_capped fs (push_finding fl lower out config rules allowlist f st) in
      if is_full fl lower out config rules allowlist st then st else more

  push_full :
      (fs : List (ℕ → Finding)) (st : Kept)
      → is_full fl lower out config rules allowlist st ≡ true
      → push_capped fs st ≡ st
  push_full [] st full = refl
  push_full (f ∷ fs) st full =
      ap
        (λ b.
          if b then st else push_capped fs (push_finding fl lower out config rules allowlist f st))
        full

  push_room :
      (f : ℕ → Finding) (fs : List (ℕ → Finding)) (st : Kept)
      → is_full fl lower out config rules allowlist st ≡ false
      → push_capped (f ∷ fs) st
        ≡ push_capped fs (push_finding fl lower out config rules allowlist f st)
  push_room f fs st room =
      ap
        (λ b.
          if b then st else push_capped fs (push_finding fl lower out config rules allowlist f st))
        room

  push_capped-append :
      (fs gs : List (ℕ → Finding)) (st : Kept)
      → push_capped (fs ++ gs) st ≡ push_capped gs (push_capped fs st)
  push_capped-append [] gs st = refl
  push_capped-append (f ∷ fs) gs st =
      elim (Bool-cases (is_full fl lower out config rules allowlist st)) [
        | inl full ↦
            push_full (f ∷ (fs ++ gs)) st full
            ∙ sym (push_full gs st full)
            ∙ ap (push_capped gs) (sym (push_full (f ∷ fs) st full))
        | inr room ↦
            push_room f (fs ++ gs) st room
            ∙ push_capped-append fs gs _
            ∙ ap (push_capped gs) (sym (push_room f fs st room))
      ]

  abbrev below_floor : Bool
  below_floor =
      confidence_lt (confidence_parse lower (codes "high"))
        (confidence_parse lower config.min_confidence)

  keep_pairs_below :
      (issue : Issue) (segment : TextSegment) (pairs : List CredPairHit) (st : Kept)
      → below_floor ≡ true
      → keep_pairs fl lower out config rules allowlist issue segment pairs st ≡ st
  unfolding keep_pairs
  keep_pairs_below issue segment [] st low = refl
  keep_pairs_below issue segment (pair ∷ pairs) st low =
      if_intro (λ r. r ≡ st) (is_full fl lower out config rules allowlist st) _ _ (λ _. refl)
        (λ _.
          if_intro (λ r. r ≡ st) below_floor _ _ (λ _. keep_pairs_below issue segment pairs st low)
            (λ high. absurd (ground (arith, low, high))))

  keep_pairs_above :
      (issue : Issue) (segment : TextSegment) (pairs : List CredPairHit) (st : Kept)
      → below_floor ≡ false
      → keep_pairs fl lower out config rules allowlist issue segment pairs st
        ≡ push_capped
            (map (pair_finding fl lower out config rules allowlist issue segment) pairs)
            st
  unfolding keep_pairs
  keep_pairs_above issue segment [] st high = refl
  keep_pairs_above issue segment (pair ∷ pairs) st high =
      let finding = pair_finding fl lower out config rules allowlist issue segment in
      if_intro (λ r. r ≡ push_capped (map finding (pair ∷ pairs)) st)
        (is_full fl lower out config rules allowlist st) _ _
        (λ full. sym (push_full (map finding (pair ∷ pairs)) st full))
        (λ room.
          if_intro (λ r. r ≡ push_capped (map finding (pair ∷ pairs)) st) below_floor _ _
            (λ low. absurd (ground (arith, low, high)))
            (λ _.
              keep_pairs_above issue segment pairs _ high
              ∙ sym (push_room (finding pair) (map finding pairs) st room)))

  keep_pairs_lem :
      (issue : Issue) (segment : TextSegment) (pairs : List CredPairHit) (st : Kept)
      → keep_pairs fl lower out config rules allowlist issue segment pairs st
        ≡ push_capped (reported_pairs issue segment pairs) st
  keep_pairs_lem issue segment pairs st =
      if_intro
        (λ fs.
          keep_pairs fl lower out config rules allowlist issue segment pairs st ≡ push_capped fs st)
        below_floor _ _ (λ low. keep_pairs_below issue segment pairs st low)
        (λ high. keep_pairs_above issue segment pairs st high)

  judged_total :
      (issue : Issue) (segment : TextSegment) (hit : RawHit)
      → (v : Verdict F) × (judged fl lower out config rules allowlist issue segment hit ≡ some v)
  judged_total issue segment hit = finalize-some fl lower _ _ _ _

  on_verdict_lem :
      (issue : Issue) (segment : TextSegment) (hits : List RawHit) (hit : RawHit) (v : Verdict F)
      (st : Kept)
      → (fs : List (ℕ → Finding)) × (reported_hit issue segment hits hit v ≡ some fs)
        × (is_full fl lower out config rules allowlist st ≡ false
            → on_verdict fl lower out config rules allowlist issue segment hits hit v st
              ≡ some (push_capped fs st))
  on_verdict_lem issue segment hits hit (dropped reason) st = ([], refl, λ room. refl)
  on_verdict_lem issue segment hits hit (keep confidence boosted) st =
      let (snippet, e) = redacted_snippet_total hit hits in
      let f =
        hit_finding fl lower out config rules allowlist issue segment hit confidence snippet in
      (f ∷ [], >>=-some _ e, λ room. >>=-some _ e ∙ ap some (sym (push_room f [] st room)))

  keep_hits_lem :
      (issue : Issue) (segment : TextSegment) (hits left : List RawHit) (st : Kept)
      → (fs : List (ℕ → Finding)) × (reported_hits issue segment hits left ≡ some fs)
        × (keep_hits fl lower out config rules allowlist issue segment hits left st
            ≡ some (push_capped fs st))
  unfolding keep_hits
  keep_hits_lem issue segment hits [] st = ([], refl, refl)
  keep_hits_lem issue segment hits (hit ∷ left) st =
      let (v, e) = judged_total issue segment hit in
      let (fs, found, pushed) = on_verdict_lem issue segment hits hit v st in
      let (more, found_more, kept) = keep_hits_lem issue segment hits left (push_capped fs st) in
      (
        fs ++ more,
        >>=-some _ e ∙ >>=-some _ found ∙ >>=-some _ found_more,
        if_intro (λ r. r ≡ some (push_capped (fs ++ more) st))
            (is_full fl lower out config rules allowlist st) _ _
            (λ full. ap some (sym (push_full (fs ++ more) st full)))
            (λ room.
              >>=-some _ e
              ∙ >>=-some _ (pushed room)
              ∙ kept
              ∙ ap some (sym (push_capped-append fs more st))),
      )

  scan_segments_lem :
      (issue : Issue) (segments : List TextSegment) (st : Kept)
      → All (IsRunnable fl lower) rules
      → (fs : List (ℕ → Finding)) × (reported issue segments ≡ some fs)
        × (scan_segments fl lower out config rules allowlist issue segments st
            ≡ some (push_capped fs st))
  unfolding scan_segments
  scan_segments_lem issue [] st run = ([], refl, refl)
  scan_segments_lem issue (segment ∷ segments) st run =
      let (hits, scanned, good) = scan_total fl lower rules segment.text segment.field_path run in
      let (fs, found, kept) = keep_hits_lem issue segment hits hits st in
      let (pairs, detected, few) =
        detect-IsBounded out.digest lower segment.field_path out.patterns out.parse_object
          segment.text in
      let ps = reported_pairs issue segment pairs in
      let (more, found_more, rest) =
        scan_segments_lem issue segments (push_capped (fs ++ ps) st) run in
      let paired : keep_pairs fl lower out config rules allowlist issue segment pairs
            (push_capped fs st)
          ≡ push_capped (fs ++ ps) st =
        keep_pairs_lem issue segment pairs _ ∙ sym (push_capped-append fs ps st) in
      (
        (fs ++ ps) ++ more,
        >>=-some _ scanned ∙ >>=-some _ found ∙ >>=-some _ detected ∙ >>=-some _ found_more,
        if_intro (λ r. r ≡ some (push_capped ((fs ++ ps) ++ more) st))
            (is_full fl lower out config rules allowlist st) _ _
            (λ full. ap some (sym (push_full _ st full)))
            (λ room.
              >>=-some _ scanned
              ∙ >>=-some _ kept
              ∙ >>=-some _ detected
              ∙ ap (λ k. scan_segments fl lower out config rules allowlist issue segments k) paired
              ∙ rest
              ∙ ap some (sym (push_capped-append (fs ++ ps) more st))),
      )

  push_capped_lem :
      (fs : List (ℕ → Finding)) (st : Kept) (left : ℕ)
      → config.max_findings_per_issue - st.issue_findings_count ≡ left
      → (push_capped fs st).findings
        ≡ st.findings ++ numbered st.issue_findings_count (take left fs)
  push_capped_lem [] st left e =
      sym (append-nil st.findings)
      ∙ ap (λ fs. st.findings ++ numbered st.issue_findings_count fs) (sym (take-nil left))
  push_capped_lem (f ∷ fs) st zero e =
      ap (λ (k : Kept). k.findings) (push_full (f ∷ fs) st (ground arith))
      ∙ sym (append-nil st.findings)
  push_capped_lem (f ∷ fs) st (suc left) e =
      ap (λ (k : Kept). k.findings) (push_room f fs st (ground arith))
      ∙ push_capped_lem fs (push_finding fl lower out config rules allowlist f st) left
          (omega arith)
      ∙ append_assoc st.findings (f st.issue_findings_count ∷ []) _

  attachment_segments_total :
      (issue : Issue)
      → (r : List TextSegment × AttachmentOutcome) × (attachment_segments out config issue ≡ some r)
  unfolding attachment_segments policy_from
  attachment_segments_total issue =
      let policy = policy_from config.scan_attachments config.max_attachment_size_mb in
      let collected =
        collect_segments out.lib out.base_url out.send out.lossy out.parse_meta
          config.max_text_size_kb policy issue.fields in
      elim (Bool-cases config.scan_attachments) [
        | inr off ↦ (([], no_outcome), ap (λ b. if b then collected else some ([], no_outcome)) off)
        | inl on ↦
            let (segments, outcome, e, accounted) =
              collect_segments_total out.lib out.base_url out.send out.lossy out.parse_meta
                config.max_text_size_kb policy issue.fields on in
            ((segments, outcome), ap (λ b. if b then collected else some ([], no_outcome)) on ∙ e)
      ]

  -- The outcome of an issue, against what its segments report without a limit.
  pub record IsReport (issue : Issue) (o : IssueOutcome) : Type 0 where
    pub payload : List TextSegment
    pub attached : List TextSegment
    pub outcome : AttachmentOutcome
    pub unlimited : List (ℕ → Finding)
    pub of_payload : payload_segments fl lower out config rules allowlist issue ≡ some payload
    pub attachments : attachment_segments out config issue ≡ some (attached, outcome)
    pub all_segments : reported issue (payload ++ attached) ≡ some unlimited
    pub findings : o.findings ≡ numbered 0 (take config.max_findings_per_issue unlimited)
    pub within_limit : length o.findings ≤ config.max_findings_per_issue
    pub attachments_scanned : o.attachments_scanned ≡ outcome.scanned

  IsReport-of_payload :
      (issue : Issue) (payload : List TextSegment)
      → All (IsRunnable fl lower) rules
      → payload_segments fl lower out config rules allowlist issue ≡ some payload
      → (o : IssueOutcome) × (process_issue fl lower out config rules allowlist issue ≡ some o)
        × IsReport issue o
  unfolding process_issue
  IsReport-of_payload issue payload run read =
      let ((attached, outcome), e) = attachment_segments_total issue in
      let start : Kept = record { findings = []; issue_findings_count = 0 } in
      let (fs, found, scanned) = scan_segments_lem issue (payload ++ attached) start run in
      let same : (push_capped fs start).findings
          ≡ numbered 0 (take config.max_findings_per_issue fs) =
        push_capped_lem fs start _ (omega arith) in
      (
        _,
        >>=-some _ read ∙ >>=-some _ e ∙ >>=-some _ scanned,
        record {
          payload = payload;
          attached = attached;
          outcome = outcome;
          unlimited = fs;
          of_payload = read;
          attachments = e;
          all_segments = found;
          findings = same;
          within_limit = omega (
            arith,
            ap length same,
            length-numbered 0 (take config.max_findings_per_issue fs),
            length-take-le config.max_findings_per_issue fs,
          );
          attachments_scanned = refl;
        },
      )

  -- For rules whose engine is as documented and whose validators do not panic, the work on any
  -- issue ends without a panic, whatever the server sends, but for one case: a build with overflow
  -- checks, which the release profile is not, may panic, and then the position of a next page of
  -- comments is above the range of 64 bits, by what the payload or a page of comments says. Without
  -- a panic it reports what a scan of all its segments reports without a limit (the hits of the
  -- rules that the verdict keeps, then the credential pairs of the segment), in that order and cut
  -- off at the limit of findings for an issue.
  pub process_issue_lem :
      (issue : Issue)
      → All (IsRunnable fl lower) rules
      → ((o : IssueOutcome) × (process_issue fl lower out config rules allowlist issue ≡ some o)
          × IsReport issue o)
        ⊎ ((out.overflow_checks ≡ true)
            × PagingOverflows out config issue
            × (process_issue fl lower out config rules allowlist issue ≡ none))
  unfolding process_issue
  process_issue_lem issue run = elim (extra_comments_cases out config issue) [
    | inl (extra, read) ↦ inl (IsReport-of_payload issue _ run (>>=-some _ read))
    | inr (checked, over, panics) ↦ inr (checked, over, rw panics refl)
  ]
