-- ===== src/Config.antt =====
-- src/config.rs: the configuration and its validation. The reading of arguments by clap and of the
-- environment is outside; paths are texts. `lower` stands for `str::to_lowercase`.
pub mod Checks
pub mod Valid
use jiraleaks.Base.{
  ℕ, zero, suc, ◌+◌, ◌-◌, ◌*◌, ◌/◌, ◌%◌, ◌^◌, ◌≤◌, ◌<◌, min, max, Bool, true, false, not, ◌&&◌,
  ◌||◌, Option, none, some, List, [], ◌∷◌, ◌++◌, map, append_assoc, append-nil, ◌≡◌, ◌≢◌, ◌↔◌, ◌⊎◌,
  inl, inr, refl, sym, ap, ◌∙◌, subst, arith, ltb, leb, ◌==◌, if◌then◌else◌, Bool-cases,
  Option-cases, eq_of_==, ==_refl, &&-true, ||-true, ||-false, length, get_elem?, take, drop,
  is_empty, any, all, All, In, here, there, length-append, length-take-le, length-reverse, reverse,
  reverse-append, In-append_left, In-append_right, In-append_split, All-append, All-In, Text, codes,
  text_eq, eq_of_text_eq, text_eq_refl, text_eq_of_eq, text_eq_comm, if_intro,
}
use jiraleaks.Text.Find.{starts_with, ends_with}
use jiraleaks.Text.Space.{trim}
use jiraleaks.Error.{ScannerError, Result, ok, err, config, ◌>>=◌}
use jiraleaks.Allowlist.{to_ascii_lowercase}
use jiraleaks.Extract.{decimal}
use jiraleaks.Finding.{Confidence, confidence_parse_opt}
use jiraleaks.Report.{format_names, names, unknown_format}

pub data MetricsFormat : Type 0 where
  json prometheus : MetricsFormat

pub record Config : Type 0 where
  pub jira_url : Text
  pub auth : Text
  pub pat : Text
  pub email : Option Text
  pub jql : Option Text
  pub page_size : ℕ
  pub max_issues : ℕ
  pub concurrency : ℕ
  pub fields : Text
  pub comments_mode : Text
  pub scan_attachments : Bool
  pub max_attachment_size_mb : ℕ
  pub max_text_size_kb : ℕ
  pub max_findings_per_issue : ℕ
  pub allowlist : Option Text
  pub rules : Option Text
  pub min_confidence : Text
  pub format : Text
  pub report_dir : Text
  pub report_layout : Text
  pub dry_run : Bool
  pub incremental : Bool
  pub state_dir : Text
  pub db_url : Option Text
  pub metrics_path : Option Text
  pub metrics_format : MetricsFormat
  pub log_level : Option Text
  pub no_proxy : Bool
  pub alerts : Option Text

-- `Config::default`.
abbrev pub default : Config
default = record {
  jira_url = [];
  auth = codes "bearer";
  pat = [];
  email = none;
  jql = none;
  page_size = 50;
  max_issues = 0;
  concurrency = 2;
  fields = codes "*navigable";
  comments_mode = codes "all";
  scan_attachments = false;
  max_attachment_size_mb = 10;
  max_text_size_kb = 2048;
  max_findings_per_issue = 1000;
  allowlist = none;
  rules = none;
  min_confidence = codes "low";
  format = codes "json";
  report_dir = codes "./reports";
  report_layout = codes "flat";
  dry_run = false;
  incremental = false;
  state_dir = codes "./.jiraleaks-state";
  db_url = none;
  metrics_path = none;
  metrics_format = json;
  log_level = none;
  no_proxy = false;
  alerts = none;
}

abbrev pub default_log_level : Text
default_log_level = codes "info"

abbrev pub or_text : Option Text → Text → Text
or_text none s = s
or_text (some t) s = t

unfoldable pub effective_log_level : Config → Text
effective_log_level c = or_text c.log_level default_log_level

-- `present`.
abbrev pub present : Option Text → Option Text
present none = none
present (some v) = if is_empty (trim v) then none else some v

abbrev pub or_else : Option Text → Option Text → Option Text
or_else none o = o
or_else (some v) o = some v

unfoldable pub resolve_pat : (cli env_pat env_alias : Option Text) → Option Text
resolve_pat cli env_pat env_alias =
    or_else (or_else (present cli) (present env_pat)) (present env_alias)

unfoldable pub resolve_pat_from_env : (env_pat env_alias : Option Text) → Config → Config
unfolding resolve_pat
resolve_pat_from_env env_pat env_alias c = record c {
  pat =
      or_text (resolve_pat (if is_empty (trim c.pat) then none else some c.pat) env_pat env_alias)
        [];
}

unfoldable pub accepted_format : Text → Bool
accepted_format name = text_eq name (codes "all") || any (λ n. text_eq n name) format_names

-- The loop over the names, with the message of its error.
abbrev pub parse_names : List Text → Option Text
parse_names [] = none
parse_names (f ∷ more) =
    if is_empty f || not (accepted_format f) then some (unknown_format f) else parse_names more

-- The message of the error, if there is one.
unfoldable pub parse_formats : Text → Option Text
unfolding names accepted_format
parse_formats s = parse_names (names s)

abbrev quoted : Text → Text → Text
quoted what value = what ++ (codes ", got '" ++ (value ++ codes "'"))

abbrev not_positive : Text → ℕ → Text
not_positive name value = name ++ (codes " must be greater than 0, got " ++ decimal value)

abbrev pub is_none {ℓ} : {A : Type ℓ} → Option A → Bool
is_none none = true
is_none (some a) = false

abbrev pub one_of : List Text → Text → Bool
one_of names s = any (λ n. text_eq n s) names

abbrev pub format_message : Text → Option Text → Text
format_message format none = []
format_message format (some reason) =
    codes "format: " ++ (reason ++ (codes " (got '" ++ (format ++ codes "')")))

-- The checks in their order: whether the configuration violates one, and the message.
abbrev pub checks : (lower : Text → Text) → Config → List (Bool × Text)
checks lower c =
    (is_empty c.jira_url, codes "JIRA_URL is required; set JIRA_URL or --jira-url")
    ∷ (
      not (
          starts_with (map to_ascii_lowercase c.jira_url) (codes "http://")
          || starts_with (map to_ascii_lowercase c.jira_url) (codes "https://")),
      quoted (codes "jira_url must start with http:// or https://") c.jira_url,
    )
    ∷ (is_empty (or_text c.jql []), codes "JIRA_JQL / --jql is required and must not be empty")
    ∷ (
      is_empty c.pat && not (text_eq c.auth (codes "none")),
      codes
          "JIRA_PAT / --pat is required (or JIRA_API_TOKEN); use --auth none to scan without credentials",
    )
    ∷ (
      text_eq c.auth (codes "basic") && is_none c.email,
      codes "JIRA_EMAIL is required for basic auth",
    )
    ∷ (
      not (one_of (codes "bearer" ∷ codes "basic" ∷ codes "none" ∷ []) c.auth),
      quoted (codes "auth must be bearer, basic or none") c.auth,
    )
    ∷ (c.page_size == 0, not_positive (codes "page_size") c.page_size)
    ∷ (c.concurrency == 0, not_positive (codes "concurrency") c.concurrency)
    ∷ (
      c.max_findings_per_issue == 0,
      not_positive (codes "max_findings_per_issue") c.max_findings_per_issue,
    )
    ∷ (c.max_text_size_kb == 0, not_positive (codes "max_text_size_kb") c.max_text_size_kb)
    ∷ (
      c.max_attachment_size_mb == 0,
      not_positive (codes "max_attachment_size_mb") c.max_attachment_size_mb,
    )
    ∷ (
      not (one_of (codes "flat" ∷ codes "nested" ∷ []) c.report_layout),
      quoted (codes "report_layout must be flat or nested") c.report_layout,
    )
    ∷ (
      is_none (confidence_parse_opt lower c.min_confidence),
      quoted (codes "min_confidence must be low, medium or high") c.min_confidence,
    )
    ∷ (not (is_none (parse_formats c.format)), format_message c.format (parse_formats c.format))
    ∷ []

-- The first check that is violated is the error.
abbrev pub first_violation : List (Bool × Text) → Result {0} Unit
first_violation [] = ok tt
first_violation ((violated, message) ∷ more) =
    if violated then err (config message) else first_violation more

unfoldable pub validate : (lower : Text → Text) → Config → Result {0} Unit
unfolding parse_formats decimal
validate lower c = first_violation (checks lower c)

-- `Path::join` for one name, on a system where `/` separates: a separator is put in unless the
-- directory ends with one.
abbrev join_path : (dir name : Text) → Text
join_path dir name = if ends_with dir (codes "/") then dir ++ name else dir ++ (codes "/" ++ name)

-- `db_url`; the default is a file in the state directory.
unfoldable pub db_url : Config → Option Text
db_url c = elim c.db_url [
  | some u ↦ if is_empty u then none else some u
  | none ↦
      if is_empty c.state_dir
      then none
      else some
          (codes "sqlite://" ++ (join_path c.state_dir (codes "findings.db") ++ codes "?mode=rwc"))
]
