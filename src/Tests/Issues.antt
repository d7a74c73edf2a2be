-- ===== src/Tests/Issues.antt =====
-- Runs of the model and instances of the theorems: attachments, comments and the work on an issue.
use jiraleaks.Base.{
  ℕ, ◌*◌, ◌%◌, true, false, Option, none, some, List, [], ◌∷◌, ◌++◌, ◌≡◌, refl, sym, ap, ◌∙◌, arith,
  if◌then◌else◌, length, take, drop, All, Text, codes,
}
use jiraleaks.Base.{◌>>=◌, some_inj}
use jiraleaks.Error.{Result, ok, err, jira_access}
use jiraleaks.Json.{
  Value, null, string, array, object, no_values, value_then, no_fields, field_then, get, as_array,
}
use jiraleaks.Extract.{TextSegment}
use jiraleaks.Allowlist.{AllowlistFilter}
use jiraleaks.Attachments.{
  AttachmentMeta, AttachmentPolicy, AttachmentOutcome, UrlLib, same_origin, policy_from,
}
use jiraleaks.Attachments.Download.{data_chunk, Response}
use jiraleaks.Attachments.Collect.{Collected, collect_all, collect_segments}
use jiraleaks.Attachments.Collect.Budget.{IsAccounted, listed, collect_segments_total}
use jiraleaks.Attachments.Origin.{IsOwn}
use jiraleaks.Attachments.Collect.Origin.{collect_segments_same_origin}
use jiraleaks.Rule.{CompiledRule}
use jiraleaks.Base.{◌⊎◌, inl, inr, ◌^◌, ◌-◌, add_u64}
use jiraleaks.Json.{number}
use jiraleaks.Jira.{Comment, CommentPage, max_comment_pages, comments_from, get_comments_after}
use jiraleaks.Jira.Comments.{Serves, get_comments_after_lem}
use jiraleaks.Config.{Config, default}
use jiraleaks.Pipeline.Issue.{
  Issue, IssueOutcome, Outside, comment_paging, attachment_segments, payload_segments,
  process_issue,
}
use jiraleaks.Pipeline.Issue.Payload.{PagingOverflows}
use jiraleaks.Pipeline.Issue.Capped.{IsReport, process_issue_lem}
use jiraleaks.Pipeline.Issue.Sources.{IsSourced, process_issue-IsSourced}
use jiraleaks.Tests.Scans.{identity, numbers, line_rule, line_rule-IsRunnable}

-- URLs as texts of which the first eight characters are the scheme.
abbrev urls : UrlLib
urls = record {
  Url = Text;
  parse = λ t. some t;
  join = λ base t. some (base ++ t);
  scheme = λ url. take 8 url;
  host_str = λ url. none;
  port_or_known_default = λ url. some 443;
  to_string = λ url. url;
}

abbrev base_url : Text
base_url = codes "https://jira"

abbrev answer : Result Response
answer = ok (record {
  content_length = none;
  chunks = data_chunk (codes "key=x1") ∷ data_chunk (codes "23y") ∷ [];
})

abbrev send : Text → Result Response
send url = answer

-- A server behind which no other origin answers.
abbrev send_own : Text → Result Response
send_own url = if same_origin urls base_url url then answer else err (jira_access [])

agree : (url : Text) → IsOwn urls base_url url → send url ≡ send_own url
agree url own =
    let same : same_origin urls base_url url ≡ true =
      ap (λ b. same_origin urls b url) (some_inj own.parsed)
      ∙ ap (λ t. same_origin urls own.base t) own.text
      ∙ own.same in
    ap (λ b. if b then answer else err (jira_access [])) (sym same)

abbrev entry : AttachmentMeta
entry = record {
  id = codes "1";
  filename = codes "prod.env";
  size = 9;
  mime_type = [];
  content = codes "https://jira/secure/1";
}

abbrev parse_meta : Value → Option AttachmentMeta
parse_meta raw = some entry

abbrev policy : AttachmentPolicy
policy = policy_from true 1

abbrev payload : Value
payload = object (
    field_then (codes "attachment") (array (value_then null no_values))
      (field_then (codes "summary") (string (codes "x123y")) no_fields))

on : policy.enabled ≡ true
unfolding policy_from
on = refl

collect_segments_total_example :
    (segments : List TextSegment) × (outcome : AttachmentOutcome) × (collect_segments urls base_url
        send identity parse_meta 1 policy payload
      ≡ some (segments, outcome))
    × IsAccounted urls base_url send identity parse_meta 1 policy
        (listed urls base_url send identity parse_meta 1 policy
          (get payload (codes "attachment") >>= as_array))
        segments
        outcome
collect_segments_total_example =
    collect_segments_total urls base_url send identity parse_meta 1 policy payload on

collect_segments_same_origin_example :
    (st : Collected) × (collect_all urls base_url send identity parse_meta 1 policy payload
      ≡ some st)
    × All (IsOwn urls base_url) st.requests
    × (collect_segments urls base_url send identity parse_meta 1 policy payload
        ≡ some (st.segments, st.outcome))
    × (collect_segments urls base_url send_own identity parse_meta 1 policy payload
        ≡ some (st.segments, st.outcome))
collect_segments_same_origin_example =
    collect_segments_same_origin urls base_url send identity parse_meta 1 policy send_own payload
      agree

abbrev comment : Text → Comment
comment text = record { id = text; author = none; body = string text; created = []; updated = [] }

abbrev thread : List Comment
thread = comment (codes "one") ∷ comment (codes "two") ∷ comment (codes "three") ∷ []

-- A server that gives one comment at once.
abbrev page : (start_at max_results : ℕ) → Result CommentPage
page start_at max_results =
    ok (record { total = length thread; comments = take 1 (drop start_at thread) })

serves : Serves thread 1 page
serves = record { some_at_once = omega arith; in_range = omega arith; answers = λ start_at. refl }

rest_of_thread :
    get_comments_after true page 1
    ≡ some (ok (comment (codes "two") ∷ comment (codes "three") ∷ []))
unfolding get_comments_after comments_from add_u64
rest_of_thread = refl

-- A first page that says it starts at the largest number and holds one comment.
abbrev far : Value
far = object (
    field_then (codes "comment")
      (object (
        field_then (codes "startAt") (number (some (2 ^ 64 - 1))) (
          field_then (codes "total") (number (some 5))
            (field_then (codes "comments") (array (value_then null no_values)) no_fields))))
      no_fields)

-- The next page starts at 0 again, or the addition panics.
far_wraps : comment_paging false far ≡ some (5, 0)
unfolding comment_paging add_u64
far_wraps = refl

far_panics : comment_paging true far ≡ none
unfolding comment_paging add_u64
far_panics = refl

get_comments_after_lem_example :
    get_comments_after true page 1 ≡ some (ok (take (max_comment_pages * 1) (drop 1 thread)))
get_comments_after_lem_example = get_comments_after_lem true thread 1 page serves 1

abbrev pub issue : Issue
issue = record { id = codes "1"; key = codes "SEC-1"; fields = payload }

abbrev outside : Outside
outside = record {
  lib = urls;
  base_url = base_url;
  send = send;
  page = λ issue_key. page;
  lossy = identity;
  parse_meta = parse_meta;
  digest = λ text. (length text % 256) ∷ [];
  patterns = record {
    url_userinfo = λ text. [];
    username_key = λ text. [];
    password_key = λ text. [];
  };
  parse_object = λ text. none;
  new_id = λ n. n ∷ [];
  now = λ n. [];
  version = codes "1";
  overflow_checks = false;
}

abbrev config : Config
config = record default {
  jira_url = base_url;
  pat = codes "token";
  jql = some (codes "project = SEC");
  scan_attachments = true;
  max_findings_per_issue = 2;
}

abbrev nothing_allowed : AllowlistFilter
nothing_allowed = record { entries = []; has_hashes = false }

abbrev rules : List (CompiledRule ℕ)
rules = line_rule ∷ []

process_issue_lem_example :
    ((o : IssueOutcome) × (process_issue numbers identity outside config rules nothing_allowed issue
        ≡ some o)
      × IsReport numbers identity outside config rules nothing_allowed issue o)
    ⊎ ((outside.overflow_checks ≡ true)
        × PagingOverflows outside config issue
        × (process_issue numbers identity outside config rules nothing_allowed issue ≡ none))
process_issue_lem_example =
    process_issue_lem numbers identity outside config rules nothing_allowed issue
      line_rule-IsRunnable

-- The issue is reported.
reported_issue :
    (o : IssueOutcome) × (process_issue numbers identity outside config rules nothing_allowed issue
      ≡ some o)
reported_issue =
    elim (process_issue_lem numbers identity outside config rules nothing_allowed issue
      line_rule-IsRunnable) [
        | inl (o, e, report) ↦ (o, e)
        | inr (checked, over, panics) ↦ absurd (cc)
      ]

process_issue-IsSourced_example :
    (payload_read : List TextSegment) × (attached : List TextSegment)
    × (outcome : AttachmentOutcome) × (payload_segments numbers identity outside config rules
          nothing_allowed issue
        ≡ some payload_read)
    × (attachment_segments outside config issue ≡ some (attached, outcome))
    × All
        (IsSourced numbers identity outside config rules nothing_allowed issue
          (payload_read ++ attached))
        reported_issue.0.findings
process_issue-IsSourced_example =
    process_issue-IsSourced numbers identity outside config rules nothing_allowed issue
      reported_issue.0 line_rule-IsRunnable reported_issue.1
