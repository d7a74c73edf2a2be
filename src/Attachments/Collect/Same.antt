-- ===== src/Attachments/Collect/Same.antt =====
-- src/attachments.rs: what `collect_segments` makes of two servers that agree on one origin.
use jiraleaks.Base.{
  ℕ, ◌+◌, min, not, ◌||◌, Option, none, some, List, ◌≡◌, refl, ap, ◌∙◌, ltb, leb, ◌==◌,
  if◌then◌else◌, Text,
}
use std.Path.{fun_ext}
use jiraleaks.Base.{◌>>=◌}
use jiraleaks.Error.{Result}
use jiraleaks.Json.{Value, Values, no_values, value_then}
use jiraleaks.Attachments.{AttachmentMeta, AttachmentPolicy, skip_reason, field_name, UrlLib}
use jiraleaks.Attachments.Download.{Response, fetch, download_attachment}
use jiraleaks.Attachments.Collect.{
  Collected, on_download, on_url, on_reason, on_meta, collect_from, at_start, from_attachments,
  collect_all,
}
use jiraleaks.Attachments.Origin.{IsOwn, resolve_content_url-IsOwn}

module _ (lib : UrlLib) (base_url : Text) (send send' : Text → Result Response) where
  abbrev pub Agree : Type 0
  Agree = (url : Text) → IsOwn lib base_url url → send url ≡ send' url

  fetch_same :
      (url : Text) (max_bytes : ℕ) (resolved : Option Text)
      → Agree
      → ((u : Text) → resolved ≡ some u → IsOwn lib base_url u)
      → fetch lib base_url send url max_bytes resolved
        ≡ fetch lib base_url send' url max_bytes resolved
  fetch_same url max_bytes none agree own = refl
  fetch_same url max_bytes (some u) agree own = rw (agree u (own u refl)) refl

  download_same :
      (url : Text) (max_bytes : ℕ)
      → Agree
      → download_attachment lib base_url send url max_bytes
        ≡ download_attachment lib base_url send' url max_bytes
  unfolding download_attachment
  download_same url max_bytes agree =
      fetch_same url max_bytes _ agree (λ u e. resolve_content_url-IsOwn lib base_url url u e)

  module _ (lossy : List ℕ → Text) (parse_meta : Value → Option AttachmentMeta)
      (max_text_size_kb : ℕ) (policy : AttachmentPolicy) where
    on_url_same :
        (name : Text) (meta : AttachmentMeta) (url : Option Text) (st : Collected)
        → Agree
        → on_url lib base_url send lossy parse_meta max_text_size_kb policy name meta url st
          ≡ on_url lib base_url send' lossy parse_meta max_text_size_kb policy name meta url st
    on_url_same name meta none st agree = refl
    on_url_same name meta (some url) st agree =
        ap
          (λ r.
            if ltb policy.max_bytes_per_attachment meta.size || st.budget == 0
            then record st { outcome = record st.outcome { skipped = st.outcome.skipped + 1 } }
            else on_download lib base_url send lossy parse_meta max_text_size_kb policy name r st)
          (download_same url (min policy.max_bytes_per_attachment st.budget) agree)

    on_reason_same :
        (name : Text) (meta : AttachmentMeta) (reason : Option Text) (st : Collected)
        → Agree
        → on_reason lib base_url send lossy parse_meta max_text_size_kb policy name meta reason st
          ≡ on_reason lib base_url send' lossy parse_meta max_text_size_kb policy name meta reason
              st
    on_reason_same name meta (some reason) st agree = refl
    on_reason_same name meta none st agree = on_url_same name meta _ st agree

    on_meta_same :
        (entry : Option AttachmentMeta) (st : Collected)
        → Agree
        → on_meta lib base_url send lossy parse_meta max_text_size_kb policy entry st
          ≡ on_meta lib base_url send' lossy parse_meta max_text_size_kb policy entry st
    on_meta_same none st agree = refl
    on_meta_same (some meta) st agree =
        ap (λ f. field_name meta.filename >>= f)
          (fun_ext (λ name. ap some (on_reason_same name meta (skip_reason meta) st agree)))

    collect_from_same :
        (attachments : Values) (st : Collected)
        → Agree
        → collect_from lib base_url send lossy parse_meta max_text_size_kb policy attachments st
          ≡ collect_from lib base_url send' lossy parse_meta max_text_size_kb policy attachments st
    unfolding collect_from
    collect_from_same no_values st agree = refl
    collect_from_same (value_then raw attachments) st agree =
        ap (λ r. if leb policy.max_attachments_per_issue st.outcome.scanned then some st else r)
          (ap
              (λ m. m >>= (λ st'.
                collect_from lib base_url send lossy parse_meta max_text_size_kb policy attachments
                  st'))
              (on_meta_same (parse_meta raw) st agree)
            ∙ ap
                (λ f.
                  on_meta lib base_url send' lossy parse_meta max_text_size_kb policy
                    (parse_meta raw) st
                  >>= f)
                (fun_ext (λ st'. collect_from_same attachments st' agree)))

    from_attachments_same :
        (attachments : Option Values)
        → Agree
        → from_attachments lib base_url send lossy parse_meta max_text_size_kb policy attachments
          ≡ from_attachments lib base_url send' lossy parse_meta max_text_size_kb policy attachments
    from_attachments_same none agree = refl
    from_attachments_same (some attachments) agree = collect_from_same attachments _ agree

    pub collect_all_same :
        (fields : Value)
        → Agree
        → collect_all lib base_url send lossy parse_meta max_text_size_kb policy fields
          ≡ collect_all lib base_url send' lossy parse_meta max_text_size_kb policy fields
    unfolding collect_all
    collect_all_same fields agree =
        ap
          (λ r.
            if not policy.enabled
            then some (at_start lib base_url send lossy parse_meta max_text_size_kb policy)
            else r)
          (from_attachments_same _ agree)
