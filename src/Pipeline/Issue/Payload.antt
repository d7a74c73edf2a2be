-- ===== src/Pipeline/Issue/Payload.antt =====
-- The further comments of an issue: where their paging may panic.
use jiraleaks.Base.{
  ℕ, true, false, not, Option, none, some, List, [], ◌≡◌, ◌⊎◌, inl, inr, refl, ap, ◌∙◌, ltb,
  Bool-cases, Option-cases, Text, codes, text_eq, if_intro, add_u64-unchecked,
}
use jiraleaks.Base.{>>=-some}
use jiraleaks.Json.{Value, get}
use jiraleaks.Extract.{TextSegment}
use jiraleaks.Jira.{get_comments_after}
use jiraleaks.Jira.Comments.{EndsOutside, get_comments_after-some, get_comments_after-none}
use jiraleaks.Base.{Bool, ◌+◌, ◌^◌, ◌≤◌, add_u64, add_u64-none, arith}
use jiraleaks.Config.{Config}
use jiraleaks.Pipeline.Issue.{
  Issue, Outside, u64_at, count_at, paging_of, comment_paging, later_pages, extra_comments,
}

paging_of-some :
    (comment : Option Value) → (paging : ℕ × ℕ) × (paging_of false comment ≡ some paging)
paging_of-some none = (_, refl)
paging_of-some (some comment) = (_, >>=-some _ (add_u64-unchecked _ _))

-- The payload says that the next page of comments starts above the range.
abbrev pub StartsOutside : Option Value → Type 0
StartsOutside none = ⊥
StartsOutside (some comment) =
    2 ^ 64 ≤ u64_at (get comment (codes "startAt")) + count_at (get comment (codes "comments"))

paging_of-none :
    (overflow_checks : Bool) (comment : Option Value)
    → paging_of overflow_checks comment ≡ none
    → StartsOutside comment
paging_of-none overflow_checks none h = absurd (cc)
paging_of-none overflow_checks (some comment) h =
    let start = u64_at (get comment (codes "startAt")) in
    let first = count_at (get comment (codes "comments")) in
    elim (Option-cases (add_u64 overflow_checks start first)) [
      | inl panics ↦ add_u64-none overflow_checks start first panics
      | inr (sum, e) ↦ absurd (ground arith)
    ]

comment_paging-some :
    (fields : Value) → (paging : ℕ × ℕ) × (comment_paging false fields ≡ some paging)
unfolding comment_paging
comment_paging-some fields = paging_of-some (get fields (codes "comment"))

module _ (out : Outside) (config : Config) where
  abbrev IsRead : Option (List TextSegment) → Type 0
  IsRead m = (segments : List TextSegment) × (m ≡ some segments)

  later_pages_total :
      (issue_key : Text) (paging : ℕ × ℕ)
      → out.overflow_checks ≡ false
      → IsRead (later_pages out config issue_key paging)
  later_pages_total issue_key (total, offset) wraps =
      if_intro IsRead (ltb offset total) _ _
        (λ _.
          let (r, e) = get_comments_after-some (out.page issue_key) offset in
          (
            _,
            >>=-some _
                (ap (λ checks. get_comments_after checks (out.page issue_key) offset) wraps ∙ e),
          ))
        (λ _. ([], refl))

  paging_total :
      (fields : Value)
      → out.overflow_checks ≡ false
      → (paging : ℕ × ℕ) × (comment_paging out.overflow_checks fields ≡ some paging)
  paging_total fields wraps =
      let (paging, e) = comment_paging-some fields in
      (paging, ap (λ checks. comment_paging checks fields) wraps ∙ e)

  -- In a build without overflow checks the further comments are read without a panic.
  extra_comments_total :
      (issue : Issue) → out.overflow_checks ≡ false → IsRead (extra_comments out config issue)
  unfolding extra_comments
  extra_comments_total issue wraps =
      if_intro IsRead (not (text_eq config.comments_mode (codes "none"))) _ _
        (λ _.
          let (paging, e) = paging_total issue.fields wraps in
          let (segments, e') = later_pages_total issue.key paging wraps in
          (segments, >>=-some _ e ∙ e'))
        (λ _. ([], refl))

  -- The position of a next page of comments is above the range of `u64`: by what the payload says
  -- of the first page, or by what the server gives later.
  abbrev pub PagingOverflows : Issue → Type 0
  PagingOverflows issue =
      StartsOutside (get issue.fields (codes "comment")) ⊎ EndsOutside (out.page issue.key)

  later_pages-none :
      (issue : Issue) (paging : ℕ × ℕ)
      → later_pages out config issue.key paging ≡ none
      → PagingOverflows issue
  later_pages-none issue (total, offset) h = elim (Bool-cases (ltb offset total)) [
    | inl more ↦
        elim (Option-cases (get_comments_after out.overflow_checks (out.page issue.key) offset)) [
          | inl panics ↦
              inr (get_comments_after-none out.overflow_checks (out.page issue.key) offset panics)
          | inr (r, e) ↦ absurd (ground arith)
        ]
    | inr all_read ↦ absurd (ground arith)
  ]

  extra_comments-none :
      (issue : Issue) → extra_comments out config issue ≡ none → PagingOverflows issue
  unfolding extra_comments comment_paging
  extra_comments-none issue h =
      elim (Bool-cases (not (text_eq config.comments_mode (codes "none")))) [
        | inr off ↦ absurd (ground arith)
        | inl on ↦ elim (Option-cases (comment_paging out.overflow_checks issue.fields)) [
          | inl panics ↦ inl (paging_of-none out.overflow_checks _ panics)
          | inr (paging, e) ↦ later_pages-none issue paging (ground arith)
        ]
      ]

  pub extra_comments_cases :
      (issue : Issue)
      → IsRead (extra_comments out config issue)
        ⊎ ((out.overflow_checks ≡ true)
            × PagingOverflows issue
            × (extra_comments out config issue ≡ none))
  extra_comments_cases issue = elim (Bool-cases out.overflow_checks) [
    | inr wraps ↦ inl (extra_comments_total issue wraps)
    | inl checked ↦ elim (Option-cases (extra_comments out config issue)) [
      | inl panics ↦ inr (checked, extra_comments-none issue panics, panics)
      | inr read ↦ inl read
    ]
  ]
