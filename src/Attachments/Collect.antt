-- ===== src/Attachments/Collect.antt =====
-- src/attachments.rs: `collect_segments`. `lossy` is `String::from_utf8_lossy`, `parse_meta` what
-- the JSON library makes of an entry. `none` never happens: it is the fuel of the sanitising.
pub mod Budget
pub mod Same
pub mod Origin
use jiraleaks.Base.{
  ℕ, zero, suc, ◌+◌, ◌-◌, ◌*◌, ◌/◌, ◌%◌, ◌^◌, ◌≤◌, ◌<◌, min, max, Bool, true, false, not, ◌&&◌,
  ◌||◌, Option, none, some, List, [], ◌∷◌, ◌++◌, map, append_assoc, append-nil, ◌≡◌, ◌≢◌, ◌↔◌, ◌⊎◌,
  inl, inr, refl, sym, ap, ◌∙◌, subst, arith, ltb, leb, ◌==◌, if◌then◌else◌, Bool-cases,
  Option-cases, eq_of_==, ==_refl, &&-true, ||-true, ||-false, length, get_elem?, take, drop,
  is_empty, any, all, All, In, here, there, length-append, length-take-le, length-reverse, reverse,
  reverse-append, In-append_left, In-append_right, In-append_split, All-append, All-In, Text, codes,
  text_eq, eq_of_text_eq, text_eq_refl, text_eq_of_eq, text_eq_comm, if_intro,
}
use jiraleaks.Base.{◌>>=◌}
use jiraleaks.Error.{Result, ok, err}
use jiraleaks.Finding.{SourceType}
use jiraleaks.Json.{Value, Values, no_values, value_then, get, as_array}
use jiraleaks.Extract.{TextSegment, segment}
use jiraleaks.Attachments.{
  AttachmentMeta, AttachmentPolicy, AttachmentOutcome, AttachmentBody, skip_reason, field_name,
  UrlLib, resolve_content_url,
}
use jiraleaks.Attachments.Download.{Response, Requested, download_attachment}

-- What the loop changes, and the URLs that it asked for.
pub record Collected : Type 0 where
  pub segments : List TextSegment
  pub outcome : AttachmentOutcome
  pub budget : ℕ
  pub requests : List Text

abbrev pub no_outcome : AttachmentOutcome
no_outcome = record { scanned = 0; skipped = 0; failed = 0; bytes_downloaded = 0 }

abbrev skipped : Collected → Collected
skipped st = record st { outcome = record st.outcome { skipped = st.outcome.skipped + 1 } }

abbrev failed : Collected → Collected
failed st = record st { outcome = record st.outcome { failed = st.outcome.failed + 1 } }

module _ (lib : UrlLib) (base_url : Text) (send : Text → Result Response) (lossy : List ℕ → Text)
    (parse_meta : Value → Option AttachmentMeta) (max_text_size_kb : ℕ)
    (policy : AttachmentPolicy) where
  abbrev pub on_body : (name : Text) → Result AttachmentBody → Collected → Collected
  on_body name (err error) st = failed st
  on_body name (ok body) st = record {
    segments =
        st.segments
        ++ segment max_text_size_kb (codes "attachment[" ++ (name ++ codes "]")) (lossy body.bytes)
            SourceType.attachment
          ∷ [];
    outcome = record st.outcome {
      scanned = st.outcome.scanned + 1;
      bytes_downloaded = st.outcome.bytes_downloaded + length body.bytes;
    };
    budget = st.budget - length body.bytes;
    requests = st.requests;
  }

  abbrev pub on_download : (name : Text) → Requested AttachmentBody → Collected → Collected
  on_download name (urls, body) st =
      on_body name body (record st { requests = st.requests ++ urls })

  abbrev pub on_url : (name : Text) → AttachmentMeta → Option Text → Collected → Collected
  on_url name meta none st = skipped st
  on_url name meta (some url) st =
      if ltb policy.max_bytes_per_attachment meta.size || st.budget == 0
      then skipped st
      else on_download name
          (download_attachment lib base_url send url
            (min policy.max_bytes_per_attachment st.budget))
          st

  abbrev pub on_reason : (name : Text) → AttachmentMeta → Option Text → Collected → Collected
  on_reason name meta (some reason) st = skipped st
  on_reason name meta none st = on_url name meta (resolve_content_url lib base_url meta.content) st

  -- One turn of the loop.
  abbrev pub on_meta : Option AttachmentMeta → Collected → Option Collected
  on_meta none st = some (failed st)
  on_meta (some meta) st = do
    name ← field_name meta.filename
    some (on_reason name meta (skip_reason meta) st)

  unfoldable pub collect_from : Values → Collected → Option Collected
  collect_from no_values st = some st
  collect_from (value_then raw attachments) st =
      if leb policy.max_attachments_per_issue st.outcome.scanned
      then some st
      else do st' ← on_meta (parse_meta raw) st; collect_from attachments st'

  abbrev pub at_start : Collected
  at_start = record {
    segments = [];
    outcome = no_outcome;
    budget = policy.max_bytes_per_issue;
    requests = [];
  }

  abbrev pub from_attachments : Option Values → Option Collected
  from_attachments none = some at_start
  from_attachments (some attachments) = collect_from attachments at_start

  -- The state in which the function returns.
  unfoldable pub collect_all : (fields : Value) → Option Collected
  unfolding collect_from
  collect_all fields =
      if not policy.enabled
      then some at_start
      else from_attachments (get fields (codes "attachment") >>= as_array)

  unfoldable pub collect_segments : (fields : Value) → Option (List TextSegment × AttachmentOutcome)
  collect_segments fields = do st ← collect_all fields; some (st.segments, st.outcome)
