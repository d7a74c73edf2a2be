-- ===== src/Config/Valid.antt =====
-- What validation accepts.
use jiraleaks.Base.{
  ◌<◌, true, false, not, ◌&&◌, none, some, [], ◌∷◌, map, ◌≡◌, ◌≢◌, ◌↔◌, ◌⊎◌, inl, inr, ap, arith,
  ||-true, is_empty, All, Text, codes, text_eq, text_eq_of_eq,
}
use jiraleaks.Text.Find.{starts_with}
use jiraleaks.Error.{ok}
use jiraleaks.Allowlist.{to_ascii_lowercase}
use jiraleaks.Finding.{Confidence, confidence_parse_opt}
use jiraleaks.Report.{names}
use jiraleaks.Config.{Config, or_text, is_none, one_of, checks, accepted_format, validate}
use jiraleaks.Config.Checks.{
  Passed-of_ok, ok_of_Passed, nonempty, not-not, positive, some_of, one_of_two, authorised_of,
  accepted_of, not_empty, none_of, not_zero, or_holds, names_first, names_later, All-accepted,
}

module _ (lower : Text → Text) where
  -- What a scan needs of its configuration.
  pub record IsValid (c : Config) : Type 0 where
    pub jira_url : c.jira_url ≢ []
    pub scheme :
        (starts_with (map to_ascii_lowercase c.jira_url) (codes "http://") ≡ true)
        ⊎ (starts_with (map to_ascii_lowercase c.jira_url) (codes "https://") ≡ true)
    pub jql : or_text c.jql [] ≢ []
    pub authorised :
        (c.auth ≡ codes "none")
        ⊎ ((c.pat ≢ [])
            × ((c.auth ≡ codes "bearer") ⊎ ((c.auth ≡ codes "basic") × (c.email ≢ none))))
    pub page_size : 0 < c.page_size
    pub concurrency : 0 < c.concurrency
    pub max_findings_per_issue : 0 < c.max_findings_per_issue
    pub max_text_size_kb : 0 < c.max_text_size_kb
    pub max_attachment_size_mb : 0 < c.max_attachment_size_mb
    pub report_layout : (c.report_layout ≡ codes "flat") ⊎ (c.report_layout ≡ codes "nested")
    pub min_confidence :
        (least : Confidence) × (confidence_parse_opt lower c.min_confidence ≡ some least)
    pub formats :
        All (λ name. (is_empty name ≡ false) × (accepted_format name ≡ true)) (names c.format)

  validate-IsValid : (c : Config) → validate lower c ≡ ok tt → IsValid c
  unfolding validate
  validate-IsValid c e =
      let p = Passed-of_ok (checks lower c) e in
      let q = p.1.1.1.1.1.1 in
      record {
        jira_url = nonempty c.jira_url p.0;
        scheme = ||-true _ _ (not-not _ p.1.0);
        jql = nonempty (or_text c.jql []) p.1.1.0;
        authorised = authorised_of c.auth c.pat c.email p.1.1.1.0 p.1.1.1.1.0 p.1.1.1.1.1.0;
        page_size = positive _ q.0;
        concurrency = positive _ q.1.0;
        max_findings_per_issue = positive _ q.1.1.0;
        max_text_size_kb = positive _ q.1.1.1.0;
        max_attachment_size_mb = positive _ q.1.1.1.1.0;
        report_layout = one_of_two (codes "flat") (codes "nested") c.report_layout q.1.1.1.1.1.0;
        min_confidence = some_of (confidence_parse_opt lower c.min_confidence) q.1.1.1.1.1.1.0;
        formats = accepted_of (names c.format) q.1.1.1.1.1.1.1.0;
      }

  authorised-passed :
      (c : Config)
      → IsValid c
      → ((is_empty c.pat && not (text_eq c.auth (codes "none"))) ≡ false)
        × ((text_eq c.auth (codes "basic") && is_none c.email) ≡ false)
        × (not (one_of (codes "bearer" ∷ codes "basic" ∷ codes "none" ∷ []) c.auth) ≡ false)
  authorised-passed c v = elim v.authorised [
    | inl free ↦ (
      ground (arith, text_eq_of_eq c.auth (codes "none") free),
      ap (λ a. text_eq a (codes "basic") && is_none c.email) free,
      names_later (codes "bearer") c.auth _
          (names_later (codes "basic") c.auth _ (names_first (codes "none") c.auth false free)),
    )
    | inr (pat, inl bearer) ↦ (
      ground (arith, not_empty c.pat pat),
      ap (λ a. text_eq a (codes "basic") && is_none c.email) bearer,
      names_first (codes "bearer") c.auth _ bearer,
    )
    | inr (pat, inr (basic, email)) ↦ (
      ground (arith, not_empty c.pat pat),
      ground (arith, none_of c.email email),
      names_later (codes "bearer") c.auth _ (names_first (codes "basic") c.auth _ basic),
    )
  ]

  layout-passed :
      (s : Text)
      → (s ≡ codes "flat") ⊎ (s ≡ codes "nested")
      → not (one_of (codes "flat" ∷ codes "nested" ∷ []) s) ≡ false
  layout-passed s (inl flat) = names_first (codes "flat") s _ flat
  layout-passed s (inr nested) =
      names_later (codes "flat") s _ (names_first (codes "nested") s false nested)

  IsValid-validate : (c : Config) → IsValid c → validate lower c ≡ ok tt
  unfolding validate
  IsValid-validate c v =
      let (pat, email, auth) = authorised-passed c v in
      let (least, read) = v.min_confidence in
      ok_of_Passed (checks lower c) (
        not_empty c.jira_url v.jira_url,
        (
          or_holds _ _ v.scheme,
          (
            not_empty _ v.jql,
            (
              pat,
              (
                email,
                (
                  auth,
                  (
                    not_zero _ v.page_size,
                    (
                      not_zero _ v.concurrency,
                      (
                        not_zero _ v.max_findings_per_issue,
                        (
                          not_zero _ v.max_text_size_kb,
                          (
                            not_zero _ v.max_attachment_size_mb,
                            (
                              layout-passed c.report_layout v.report_layout,
                              (ap is_none read, (All-accepted (names c.format) v.formats, tt)),
                            ),
                          ),
                        ),
                      ),
                    ),
                  ),
                ),
              ),
            ),
          ),
        ),
      )

  -- A configuration is accepted exactly when it is valid: it names a server by HTTP and a query, a way
  -- to log in with what that needs, positive sizes and limits, a layout, a confidence, and formats
  -- that are each known.
  pub validate-ok_iff : (c : Config) → (validate lower c ≡ ok tt) ↔ IsValid c
  validate-ok_iff c = (validate-IsValid c, IsValid-validate c)
