-- ===== src/Attachments/Collect/Budget.antt =====
-- The limits on the attachments of an issue, and that the counts add up.
use jiraleaks.Base.{
  ℕ, ◌+◌, ◌≤◌, ◌<◌, min, true, not, ◌||◌, Option, none, some, List, [], ◌∷◌, ◌≡◌, ◌⊎◌, inl, inr,
  refl, ap, ◌∙◌, arith, ltb, leb, ◌==◌, if◌then◌else◌, Bool-cases, length, length-append, Text,
  codes, if_intro,
}
use jiraleaks.Base.{◌>>=◌, >>=-some}
use jiraleaks.Error.{Result, ok, err}
use jiraleaks.Json.{Value, Values, no_values, value_then, get, as_array, count}
use jiraleaks.Sanitize.Clean.{sanitize-IsClean}
use jiraleaks.Sanitize.{terminal, KeepNewlines}
use jiraleaks.Extract.{TextSegment}
use jiraleaks.Attachments.{
  AttachmentMeta, AttachmentPolicy, AttachmentOutcome, AttachmentBody, skip_reason, field_name,
  name_of, UrlLib,
}
use jiraleaks.Attachments.Download.{Response, download_attachment, download_attachment_bound}
use jiraleaks.Attachments.Collect.{
  Collected, on_body, on_url, on_reason, on_meta, at_start, from_attachments, collect_from,
  collect_all, collect_segments,
}

pub field_name_total : (filename : Text) → (name : Text) × (field_name filename ≡ some name)
unfolding field_name terminal
field_name_total filename =
    let (out, e, clean) = sanitize-IsClean filename KeepNewlines.yes in (_, ap name_of e)

abbrev handled : AttachmentOutcome → ℕ
handled outcome = outcome.scanned + outcome.skipped + outcome.failed

module _ (lib : UrlLib) (base_url : Text) (send : Text → Result Response) (lossy : List ℕ → Text)
    (parse_meta : Value → Option AttachmentMeta) (max_text_size_kb : ℕ)
    (policy : AttachmentPolicy) where
  -- What holds after `n` entries.
  record IsWithin (n : ℕ) (st : Collected) : Type 0 where
    pub spent : st.budget + st.outcome.bytes_downloaded ≡ policy.max_bytes_per_issue
    pub one_each : length st.segments ≡ st.outcome.scanned
    pub limited : st.outcome.scanned ≤ policy.max_attachments_per_issue
    pub all_handled : handled st.outcome ≡ n

  on_body-IsWithin :
      (n : ℕ) (name : Text) (r : Result AttachmentBody) (st : Collected)
      → IsWithin n st
      → st.outcome.scanned < policy.max_attachments_per_issue
      → ((body : AttachmentBody) → r ≡ ok body → length body.bytes ≤ st.budget)
      → IsWithin
          (n + 1)
          (on_body lib base_url send lossy parse_meta max_text_size_kb policy name r st)
  on_body-IsWithin n name (err error) st w room small = record {
    spent = w.spent;
    one_each = w.one_each;
    limited = w.limited;
    all_handled = omega (arith, w.all_handled);
  }
  on_body-IsWithin n name (ok body) st w room small = record {
    spent = omega (arith, w.spent, small body refl);
    one_each = omega (arith, w.one_each, length-append st.segments (_ ∷ []));
    limited = omega (arith, room);
    all_handled = omega (arith, w.all_handled);
  }

  skipped-IsWithin :
      (n : ℕ) (st : Collected)
      → IsWithin n st
      → IsWithin
          (n + 1)
          (record st { outcome = record st.outcome { skipped = st.outcome.skipped + 1 } })
  skipped-IsWithin n st w = record {
    spent = w.spent;
    one_each = w.one_each;
    limited = w.limited;
    all_handled = omega (arith, w.all_handled);
  }

  requests-IsWithin :
      (n : ℕ) (st : Collected) (requests : List Text)
      → IsWithin n st
      → IsWithin n (record st { requests = requests })
  requests-IsWithin n st requests w = record {
    spent = w.spent;
    one_each = w.one_each;
    limited = w.limited;
    all_handled = w.all_handled;
  }

  on_url-IsWithin :
      (n : ℕ) (name : Text) (meta : AttachmentMeta) (url : Option Text) (st : Collected)
      → IsWithin n st
      → st.outcome.scanned < policy.max_attachments_per_issue
      → IsWithin
          (n + 1)
          (on_url lib base_url send lossy parse_meta max_text_size_kb policy name meta url st)
  on_url-IsWithin n name meta none st w room = skipped-IsWithin n st w
  on_url-IsWithin n name meta (some url) st w room =
      if_intro (IsWithin (n + 1)) (ltb policy.max_bytes_per_attachment meta.size || st.budget == 0)
        _ _ (λ _. skipped-IsWithin n st w)
        (λ _.
          on_body-IsWithin n name
            (download_attachment lib base_url send url
              (min policy.max_bytes_per_attachment st.budget)).1
            _ (requests-IsWithin n st _ w) room
            (λ body e. omega (
              arith,
              download_attachment_bound lib base_url send url
                  (min policy.max_bytes_per_attachment st.budget) body e,
            )))

  on_reason-IsWithin :
      (n : ℕ) (name : Text) (meta : AttachmentMeta) (reason : Option Text) (st : Collected)
      → IsWithin n st
      → st.outcome.scanned < policy.max_attachments_per_issue
      → IsWithin
          (n + 1)
          (on_reason lib base_url send lossy parse_meta max_text_size_kb policy name meta reason st)
  on_reason-IsWithin n name meta (some reason) st w room = skipped-IsWithin n st w
  on_reason-IsWithin n name meta none st w room = on_url-IsWithin n name meta _ st w room

  on_meta_total :
      (n : ℕ) (entry : Option AttachmentMeta) (st : Collected)
      → IsWithin n st
      → st.outcome.scanned < policy.max_attachments_per_issue
      → (st' : Collected) × (on_meta lib base_url send lossy parse_meta max_text_size_kb policy
            entry st
          ≡ some st')
        × IsWithin (n + 1) st'
  on_meta_total n none st w room = (
    _,
    refl,
    record {
      spent = w.spent;
      one_each = w.one_each;
      limited = w.limited;
      all_handled = omega (arith, w.all_handled);
    },
  )
  on_meta_total n (some meta) st w room =
      let (name, e) = field_name_total meta.filename in
      (
        on_reason lib base_url send lossy parse_meta max_text_size_kb policy name meta
            (skip_reason meta) st,
        >>=-some _ e,
        on_reason-IsWithin n name meta _ st w room,
      )

  -- The loop either sees every entry or stops at the limit.
  collect_from_total :
      (n : ℕ) (attachments : Values) (st : Collected)
      → IsWithin n st
      → (m : ℕ) × (st' : Collected) × (collect_from lib base_url send lossy parse_meta
            max_text_size_kb policy attachments st
          ≡ some st')
        × IsWithin m st'
        × (m ≤ n + count attachments)
        × ((m ≡ n + count attachments) ⊎ (st'.outcome.scanned ≡ policy.max_attachments_per_issue))
  unfolding collect_from
  collect_from_total n no_values st w = (n, st, refl, w, omega arith, inl (omega arith))
  collect_from_total n (value_then raw attachments) st w =
      elim (Bool-cases (leb policy.max_attachments_per_issue st.outcome.scanned)) [
        | inl full ↦ (n, st, rw full refl, w, omega arith, inr (ground (arith, w.limited)))
        | inr room ↦
            let (st', e, w') = on_meta_total n (parse_meta raw) st w (ground arith) in
            let (m, st'', e', w'', bound, end) = collect_from_total (n + 1) attachments st' w' in
            (
              m,
              st'',
              rw room (>>=-some _ e ∙ e'),
              w'',
              omega arith,
              elim end [ inl all_seen ↦ inl (omega arith) | inr limit ↦ inr limit ],
            )
      ]

  -- What the outcome of the attachments of an issue keeps, where the issue lists `n` of them.
  pub record IsAccounted (n : ℕ) (segments : List TextSegment) (outcome : AttachmentOutcome)
      : Type 0 where
    pub within_budget : outcome.bytes_downloaded ≤ policy.max_bytes_per_issue
    pub within_limit : outcome.scanned ≤ policy.max_attachments_per_issue
    pub one_each : length segments ≡ outcome.scanned
    pub each_once : handled outcome ≤ n
    pub to_the_end : (handled outcome ≡ n) ⊎ (outcome.scanned ≡ policy.max_attachments_per_issue)

  abbrev pub listed : Option Values → ℕ
  listed none = 0
  listed (some attachments) = count attachments

  from_attachments_total :
      (attachments : Option Values)
      → (st : Collected) × (from_attachments lib base_url send lossy parse_meta max_text_size_kb
            policy attachments
          ≡ some st)
        × IsAccounted (listed attachments) st.segments st.outcome
  from_attachments_total none = (
    at_start lib base_url send lossy parse_meta max_text_size_kb policy,
    refl,
    record {
      within_budget = omega arith;
      within_limit = omega arith;
      one_each = refl;
      each_once = omega arith;
      to_the_end = inl refl;
    },
  )
  from_attachments_total (some attachments) =
      let start = at_start lib base_url send lossy parse_meta max_text_size_kb policy in
      let (m, st, e, w, bound, end) = collect_from_total 0 attachments start (record {
        spent = omega arith;
        one_each = refl;
        limited = omega arith;
        all_handled = refl;
      }) in
      (
        st,
        e,
        record {
          within_budget = omega (arith, w.spent);
          within_limit = w.limited;
          one_each = w.one_each;
          each_once = omega (arith, w.all_handled);
          to_the_end = elim end [
            | inl all_seen ↦ inl (omega (arith, w.all_handled))
            | inr limit ↦ inr limit
          ];
        },
      )

  -- The attachments of an issue are always collected, without a panic. The bytes that the outcome
  -- counts stay within the budget of the issue whatever the server sends, the attachments scanned
  -- within their limit, with one segment for each of these; no entry is counted twice, and every
  -- entry is counted as scanned, skipped or failed unless the limit stops the loop.
  pub collect_segments_total :
      (fields : Value)
      → policy.enabled ≡ true
      → (segments : List TextSegment) × (outcome : AttachmentOutcome) × (collect_segments lib
            base_url send lossy parse_meta max_text_size_kb policy fields
          ≡ some (segments, outcome))
        × IsAccounted (listed (get fields (codes "attachment") >>= as_array)) segments outcome
  unfolding collect_segments collect_all
  collect_segments_total fields on =
      let (st, e, accounted) =
        from_attachments_total (get fields (codes "attachment") >>= as_array) in
      let whole =
        ap
          (λ enabled.
            if not enabled
            then some (at_start lib base_url send lossy parse_meta max_text_size_kb policy)
            else from_attachments lib base_url send lossy parse_meta max_text_size_kb policy
                (get fields (codes "attachment") >>= as_array))
          on in
      (st.segments, st.outcome, >>=-some _ (whole ∙ e), accounted)
