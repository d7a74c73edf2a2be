-- ===== src/Pipeline/Issue.antt =====
-- src/pipeline.rs: `process_issue`. `none` is a panic, or fuel that ran out.
pub mod Payload
pub mod Capped
pub mod Sources
use jiraleaks.Base.{
  ℕ, zero, suc, ◌+◌, ◌-◌, ◌*◌, ◌/◌, ◌%◌, ◌^◌, ◌≤◌, ◌<◌, min, max, Bool, true, false, not, ◌&&◌,
  ◌||◌, Option, none, some, List, [], ◌∷◌, ◌++◌, map, append_assoc, append-nil, ◌≡◌, ◌≢◌, ◌↔◌, ◌⊎◌,
  inl, inr, refl, sym, ap, ◌∙◌, subst, arith, ltb, leb, ◌==◌, if◌then◌else◌, Bool-cases,
  Option-cases, eq_of_==, ==_refl, &&-true, ||-true, ||-false, length, get_elem?, take, drop,
  is_empty, any, all, All, In, here, there, length-append, length-take-le, length-reverse, reverse,
  reverse-append, In-append_left, In-append_right, In-append_split, All-append, All-In, Text, codes,
  text_eq, eq_of_text_eq, text_eq_refl, text_eq_of_eq, text_eq_comm, if_intro,
}
use jiraleaks.Base.{◌>>=◌, add_u64}
use jiraleaks.Text.Find.{starts_with}
use jiraleaks.Hash.{secret_hash}
use jiraleaks.Redact.{redact}
use jiraleaks.Error.{Result, ok, err}
use jiraleaks.Entropy.{Float}
use jiraleaks.Finding.{
  Severity, Confidence, SourceType, FindingStatus, Location, Finding, confidence_lt, source_eq,
  severity_parse, confidence_parse,
}
use jiraleaks.Rule.{CompiledRule, RawHit}
use jiraleaks.Rules.Scan.{redacted_snippet, scan}
use jiraleaks.Candidate.{Candidate, Verdict, keep, dropped}
use jiraleaks.Candidate.Judge.{finalize}
use jiraleaks.Allowlist.{AllowlistFilter, check}
use jiraleaks.Credpair.{CredPairHit}
use jiraleaks.Credpair.Detect.{Patterns, detect}
use jiraleaks.Config.{Config}
use jiraleaks.Json.{Value, get, as_u64, as_array, count}
use jiraleaks.Extract.{TextSegment, at_index, extract, extract_at}
use jiraleaks.Jira.{Comment, CommentPage, get_comments_after}
use jiraleaks.Attachments.{AttachmentMeta, AttachmentOutcome, UrlLib, policy_from}
use jiraleaks.Attachments.Download.{Response}
use jiraleaks.Attachments.Collect.{no_outcome, collect_segments}

pub record Issue : Type 0 where
  pub id : Text
  pub key : Text
  pub fields : Value

pub record IssueOutcome : Type 0 where
  pub findings : List Finding
  pub comments_scanned : ℕ
  pub attachments_scanned : ℕ

-- What is not the scanner's own: the server's answers, the crates, what the clock and the
-- generator of identifiers give to the n-th finding of the issue, and whether the build checks
-- additions for overflow, which the release profile does not.
pub record Outside : Type 1 where
  pub lib : UrlLib
  pub base_url : Text
  pub send : Text → Result Response
  pub page : (issue_key : Text) (start_at max_results : ℕ) → Result CommentPage
  pub lossy : List ℕ → Text
  pub parse_meta : Value → Option AttachmentMeta
  pub digest : Text → List ℕ
  pub patterns : Patterns
  pub parse_object : Text → Option (Text → Option Text)
  pub new_id : ℕ → Text
  pub now : ℕ → Text
  pub version : Text
  pub overflow_checks : Bool

abbrev pub u64_at : Option Value → ℕ
u64_at none = 0
u64_at (some v) = elim (as_u64 v) [ none ↦ 0 | some n ↦ n ]

abbrev pub count_at : Option Value → ℕ
count_at none = 0
count_at (some v) = elim (as_array v) [ none ↦ 0 | some values ↦ count values ]

abbrev pub paging_of : (overflow_checks : Bool) → Option Value → Option (ℕ × ℕ)
paging_of overflow_checks none = some (0, 0)
paging_of overflow_checks (some comment) = do
  offset ←
      add_u64 overflow_checks (u64_at (get comment (codes "startAt")))
        (count_at (get comment (codes "comments")))
  some (u64_at (get comment (codes "total")), offset)

-- The total, and where the next page starts.
unfoldable pub comment_paging : (overflow_checks : Bool) → Value → Option (ℕ × ℕ)
comment_paging overflow_checks fields = paging_of overflow_checks (get fields (codes "comment"))

abbrev more_prefix : ℕ → Option Text → Option Text
more_prefix c none = none
more_prefix c (some s) = some (c ∷ s)

-- A path up to the first `.body`, that included.
abbrev body_prefix : Text → Option Text
body_prefix [] = none
body_prefix (c ∷ s) =
    let deeper = more_prefix c (body_prefix s) in
    if starts_with (c ∷ s) (codes ".body") then some (codes ".body") else deeper

abbrev with_body : Option Text → List Text → List Text
with_body none bodies = bodies
with_body (some body) bodies = if any (text_eq body) bodies then bodies else body ∷ bodies

abbrev comment_bodies : List TextSegment → List Text → List Text
comment_bodies [] bodies = bodies
comment_bodies (segment ∷ segments) bodies = comment_bodies segments (
    if source_eq segment.source_type SourceType.comment
    then with_body (body_prefix segment.field_path) bodies
    else bodies)

unfoldable pub comment_bodies_scanned : List TextSegment → ℕ
comment_bodies_scanned segments = length (comment_bodies segments [])

-- The segments of the comments that were fetched, `i` of them before.
unfoldable pub comment_segments : (max_text_size_kb offset i : ℕ) → List Comment → List TextSegment
comment_segments max_text_size_kb offset i [] = []
comment_segments max_text_size_kb offset i (comment ∷ comments) =
    extract_at max_text_size_kb
      (at_index (codes "comment.comments") (min (offset + i) (2 ^ 64 - 1)) ++ codes ".body")
      comment.body
    ++ comment_segments max_text_size_kb offset (i + 1) comments

abbrev after_fetch : (max_text_size_kb offset : ℕ) → Result (List Comment) → List TextSegment
after_fetch max_text_size_kb offset (ok comments) =
    comment_segments max_text_size_kb offset 0 comments
after_fetch max_text_size_kb offset (err error) = []

module _ (out : Outside) (config : Config) where
  -- The segments of the pages after the first, and `none` for a panic.
  abbrev pub later_pages : (issue_key : Text) → ℕ × ℕ → Option (List TextSegment)
  later_pages issue_key (total, offset) =
      if ltb offset total
      then get_comments_after out.overflow_checks (out.page issue_key) offset
        >>= (λ fetched. some (after_fetch config.max_text_size_kb offset fetched))
      else some []

  unfoldable pub extra_comments : Issue → Option (List TextSegment)
  unfolding comment_segments
  extra_comments issue =
      if not (text_eq config.comments_mode (codes "none"))
      then comment_paging out.overflow_checks issue.fields >>= later_pages issue.key
      else some []

  unfoldable pub attachment_segments : Issue → Option (List TextSegment × AttachmentOutcome)
  attachment_segments issue =
      if config.scan_attachments
      then collect_segments out.lib out.base_url out.send out.lossy out.parse_meta
          config.max_text_size_kb
          (policy_from config.scan_attachments config.max_attachment_size_mb) issue.fields
      else some ([], no_outcome)

-- What the loop over the segments changes.
pub record Kept : Type 0 where
  pub findings : List Finding
  pub issue_findings_count : ℕ

module _ (fl : Float) (lower : Text → Text) (out : Outside) (config : Config)
    (rules : List (CompiledRule (fl.F))) (allowlist : AllowlistFilter) where
  open fl use {F}

  abbrev pub location : Issue → (field_path : Text) → TextSegment → Location
  location issue field_path segment = record {
    issue_key = issue.key;
    field_path = field_path;
    source_type = segment.source_type;
  }

  abbrev pub issue_url : Issue → Text
  issue_url issue = config.jira_url ++ (codes "/browse/" ++ issue.key)

  abbrev pub hit_finding :
      Issue → TextSegment → RawHit → Confidence → (snippet : Text) → ℕ → Finding
  hit_finding issue segment hit confidence snippet n = record {
    finding_id = out.new_id n;
    issue_key = issue.key;
    issue_url = issue_url issue;
    field_path = hit.field_path;
    rule_id = hit.rule_id;
    severity = severity_parse lower hit.severity;
    confidence = confidence;
    redacted_secret = redact hit.matched_value;
    secret_hash = secret_hash out.digest hit.matched_value;
    snippet = snippet;
    detected_at = out.now n;
    scanner_version = out.version;
    locations = location issue hit.field_path segment ∷ [];
    source_type = segment.source_type;
    status = FindingStatus.new;
    username = none;
    references = hit.references;
    first_seen = none;
    times_seen = none;
    external_validation = none;
  }

  abbrev pub pair_finding : Issue → TextSegment → CredPairHit → ℕ → Finding
  pair_finding issue segment hit n = record {
    finding_id = out.new_id n;
    issue_key = issue.key;
    issue_url = issue_url issue;
    field_path = hit.field_path;
    rule_id = codes "credential_pair";
    severity = Severity.high;
    confidence = confidence_parse lower (codes "high");
    redacted_secret = hit.redacted_password;
    secret_hash = hit.password_hash;
    snippet = codes "username=" ++ (hit.username ++ codes " password=[REDACTED:credential_pair]");
    detected_at = out.now n;
    scanner_version = out.version;
    locations = location issue hit.field_path segment ∷ [];
    source_type = segment.source_type;
    status = FindingStatus.new;
    username = some hit.username;
    references = [];
    first_seen = none;
    times_seen = none;
    external_validation = none;
  }

  -- `findings.push` and the count.
  abbrev pub push_finding : (ℕ → Finding) → Kept → Kept
  push_finding f st = record {
    findings = st.findings ++ f st.issue_findings_count ∷ [];
    issue_findings_count = st.issue_findings_count + 1;
  }

  abbrev pub judged : Issue → TextSegment → RawHit → Option (Verdict F)
  judged issue segment hit =
      finalize fl lower (confidence_parse lower hit.confidence)
        (record {
          value = hit.matched_value;
          text = segment.text;
          value_span = hit.match_span;
          field_path = hit.field_path;
          issue_key = issue.key;
        })
        (check out.digest allowlist hit.matched_value hit.rule_id issue.key hit.field_path)
        (confidence_parse lower config.min_confidence)

  abbrev pub on_verdict :
      Issue → TextSegment → (hits : List RawHit) → RawHit → Verdict F → Kept → Option Kept
  on_verdict issue segment hits hit (dropped reason) st = some st
  on_verdict issue segment hits hit (keep confidence boosted) st = do
    snippet ← redacted_snippet hit hits
    some (push_finding (hit_finding issue segment hit confidence snippet) st)

  abbrev pub is_full : Kept → Bool
  is_full st = leb config.max_findings_per_issue st.issue_findings_count

  -- The loop over the hits that are left of a segment.
  unfoldable pub keep_hits : Issue → TextSegment → (hits left : List RawHit) → Kept → Option Kept
  keep_hits issue segment hits [] st = some st
  keep_hits issue segment hits (hit ∷ left) st = if is_full st then some st else do
    verdict ← judged issue segment hit
    st' ← on_verdict issue segment hits hit verdict st
    keep_hits issue segment hits left st'

  unfoldable pub keep_pairs : Issue → TextSegment → List CredPairHit → Kept → Kept
  keep_pairs issue segment [] st = st
  keep_pairs issue segment (pair ∷ pairs) st =
      let passed_over = keep_pairs issue segment pairs st in
      let kept =
        keep_pairs issue segment pairs (push_finding (pair_finding issue segment pair) st) in
      if is_full st
      then st
      else if confidence_lt (confidence_parse lower (codes "high"))
          (confidence_parse lower config.min_confidence)
      then passed_over
      else kept

  unfoldable pub scan_segments : Issue → List TextSegment → Kept → Option Kept
  unfolding keep_hits keep_pairs
  scan_segments issue [] st = some st
  scan_segments issue (segment ∷ segments) st = if is_full st then some st else do
    hits ← scan fl lower rules segment.text segment.field_path
    st' ← keep_hits issue segment hits hits st
    pairs ← detect out.digest lower segment.field_path out.patterns out.parse_object segment.text
    scan_segments issue segments (keep_pairs issue segment pairs st')

  abbrev pub payload_segments : Issue → Option (List TextSegment)
  payload_segments issue = do
    extra ← extra_comments out config issue
    some (extract config.max_text_size_kb issue.fields ++ extra)

  unfoldable pub process_issue : Issue → Option IssueOutcome
  unfolding scan_segments
  process_issue issue = do
    payload ← payload_segments issue
    (attached, outcome) ← attachment_segments out config issue
    st ←
        scan_segments issue (payload ++ attached)
          (record { findings = []; issue_findings_count = 0 })
    some (record {
      findings = st.findings;
      comments_scanned = comment_bodies_scanned (payload ++ attached);
      attachments_scanned = outcome.scanned;
    })
