-- ===== src/Attachments/Collect/Origin.antt =====
-- src/attachments.rs: which URLs the loop of `collect_segments` asks for.
use jiraleaks.Base.{
  ℕ, min, not, ◌||◌, Option, none, some, List, ◌≡◌, inl, inr, refl, ◌∙◌, ltb, leb, ◌==◌, Bool-cases,
  Text, codes,
}
use jiraleaks.Base.{◌>>=◌}
use jiraleaks.Error.{Result, ok, err}
use jiraleaks.Json.{Value, Values, no_values, value_then}
use jiraleaks.Attachments.{AttachmentMeta, AttachmentPolicy, skip_reason, UrlLib}
use jiraleaks.Attachments.Download.{Response, fetch, download_attachment}
use jiraleaks.Attachments.Collect.{
  Collected, on_body, on_url, on_reason, on_meta, collect_from, from_attachments, collect_all,
  collect_segments,
}
use jiraleaks.Attachments.Collect.Budget.{field_name_total}
use jiraleaks.Attachments.{AttachmentBody}
use jiraleaks.Base.{>>=-some, All, All-append, if_intro, sym}
use jiraleaks.Attachments.Origin.{IsOwn, resolve_content_url-IsOwn}
use jiraleaks.Attachments.Collect.Same.{Agree, collect_all_same}
use jiraleaks.Json.{get, as_array}

module _ (lib : UrlLib) (base_url : Text) (send : Text → Result Response) (lossy : List ℕ → Text)
    (parse_meta : Value → Option AttachmentMeta) (max_text_size_kb : ℕ)
    (policy : AttachmentPolicy) where
  -- Every URL that was asked for is of the base URL's origin.
  abbrev pub IsOnOrigin : Collected → Type 0
  IsOnOrigin st = All (IsOwn lib base_url) st.requests

  fetch-All :
      (url : Text) (max_bytes : ℕ) (resolved : Option Text)
      → ((u : Text) → resolved ≡ some u → IsOwn lib base_url u)
      → All (IsOwn lib base_url) (fetch lib base_url send url max_bytes resolved).0
  fetch-All url max_bytes none own = tt
  fetch-All url max_bytes (some u) own = (own u refl, tt)

  download-All :
      (url : Text) (max_bytes : ℕ)
      → All (IsOwn lib base_url) (download_attachment lib base_url send url max_bytes).0
  unfolding download_attachment
  download-All url max_bytes =
      fetch-All url max_bytes _ (λ u e. resolve_content_url-IsOwn lib base_url url u e)

  on_body-IsOnOrigin :
      (name : Text) (r : Result AttachmentBody) (st : Collected)
      → IsOnOrigin st
      → IsOnOrigin (on_body lib base_url send lossy parse_meta max_text_size_kb policy name r st)
  on_body-IsOnOrigin name (ok body) st h = h
  on_body-IsOnOrigin name (err error) st h = h

  on_url-IsOnOrigin :
      (name : Text) (meta : AttachmentMeta) (url : Option Text) (st : Collected)
      → IsOnOrigin st
      → IsOnOrigin
          (on_url lib base_url send lossy parse_meta max_text_size_kb policy name meta url st)
  on_url-IsOnOrigin name meta none st h = h
  on_url-IsOnOrigin name meta (some url) st h =
      let most = min policy.max_bytes_per_attachment st.budget in
      if_intro IsOnOrigin (ltb policy.max_bytes_per_attachment meta.size || st.budget == 0) _ _
        (λ _. h)
        (λ _.
          on_body-IsOnOrigin name (download_attachment lib base_url send url most).1 _
            (All-append (IsOwn lib base_url) st.requests _ h (download-All url most)))

  on_reason-IsOnOrigin :
      (name : Text) (meta : AttachmentMeta) (reason : Option Text) (st : Collected)
      → IsOnOrigin st
      → IsOnOrigin
          (on_reason lib base_url send lossy parse_meta max_text_size_kb policy name meta reason st)
  on_reason-IsOnOrigin name meta (some reason) st h = h
  on_reason-IsOnOrigin name meta none st h = on_url-IsOnOrigin name meta _ st h

  on_meta-IsOnOrigin :
      (entry : Option AttachmentMeta) (st : Collected)
      → IsOnOrigin st
      → (st' : Collected) × (on_meta lib base_url send lossy parse_meta max_text_size_kb policy
            entry st
          ≡ some st')
        × IsOnOrigin st'
  on_meta-IsOnOrigin none st h = (_, refl, h)
  on_meta-IsOnOrigin (some meta) st h =
      let (name, e) = field_name_total meta.filename in
      (_, >>=-some _ e, on_reason-IsOnOrigin name meta (skip_reason meta) st h)

  collect_from-IsOnOrigin :
      (attachments : Values) (st : Collected)
      → IsOnOrigin st
      → (st' : Collected) × (collect_from lib base_url send lossy parse_meta max_text_size_kb policy
            attachments st
          ≡ some st')
        × IsOnOrigin st'
  unfolding collect_from
  collect_from-IsOnOrigin no_values st h = (st, refl, h)
  collect_from-IsOnOrigin (value_then raw attachments) st h =
      elim (Bool-cases (leb policy.max_attachments_per_issue st.outcome.scanned)) [
        | inl full ↦ (st, rw full refl, h)
        | inr room ↦
            let (st', e, h') = on_meta-IsOnOrigin (parse_meta raw) st h in
            let (st'', e', h'') = collect_from-IsOnOrigin attachments st' h' in
            (st'', rw room (>>=-some _ e ∙ e'), h'')
      ]

  from_attachments-IsOnOrigin :
      (attachments : Option Values)
      → (st : Collected) × (from_attachments lib base_url send lossy parse_meta max_text_size_kb
            policy attachments
          ≡ some st)
        × IsOnOrigin st
  from_attachments-IsOnOrigin none = (_, refl, tt)
  from_attachments-IsOnOrigin (some attachments) = collect_from-IsOnOrigin attachments _ tt

  collect_all-IsOnOrigin :
      (fields : Value)
      → (st : Collected) × (collect_all lib base_url send lossy parse_meta max_text_size_kb policy
            fields
          ≡ some st)
        × IsOnOrigin st
  unfolding collect_all
  collect_all-IsOnOrigin fields =
      if_intro (λ r. (st : Collected) × (r ≡ some st) × IsOnOrigin st) (not policy.enabled) _ _
        (λ _. (_, refl, tt))
        (λ _. from_attachments-IsOnOrigin (get fields (codes "attachment") >>= as_array))

  -- Every request that the attachments of an issue make is for a URL with the scheme, the host
  -- and the port of the base URL, whatever URLs the payload names; and two servers that answer
  -- alike for such URLs give the same segments and the same outcome. Redirections that the HTTP
  -- library follows within one request are not seen here.
  pub collect_segments_same_origin :
      (send' : Text → Result Response) (fields : Value)
      → Agree lib base_url send send'
      → (st : Collected) × (collect_all lib base_url send lossy parse_meta max_text_size_kb policy
            fields
          ≡ some st)
        × All (IsOwn lib base_url) st.requests
        × (collect_segments lib base_url send lossy parse_meta max_text_size_kb policy fields
            ≡ some (st.segments, st.outcome))
        × (collect_segments lib base_url send' lossy parse_meta max_text_size_kb policy fields
            ≡ some (st.segments, st.outcome))
  unfolding collect_segments
  collect_segments_same_origin send' fields agree =
      let (st, e, h) = collect_all-IsOnOrigin fields in
      (
        st,
        e,
        h,
        >>=-some _ e,
        >>=-some _ (
            sym (
              collect_all_same lib base_url send send' lossy parse_meta max_text_size_kb policy
                fields agree)
            ∙ e),
      )
