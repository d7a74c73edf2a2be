-- ===== src/Report/Select.antt =====
-- src/report/mod.rs: what selecting a format, or all of a list, does to the selected ones.
use jiraleaks.Base.{
  Bool, true, false, ◌||◌, some, List, [], ◌∷◌, ◌++◌, ◌≡◌, inl, inr, refl, ap, ◌∙◌, arith,
  if◌then◌else◌, Bool-cases, ||-false, any, Text, text_eq, eq_of_text_eq, text_eq_comm, if_intro,
}
use jiraleaks.Report.{ReportFormat, select, select_all, find_format}

-- A list has a format of this name.
abbrev pub has : Text → List ReportFormat → Bool
has name formats = any (λ (f : ReportFormat). text_eq f.name name) formats

-- No two formats of a list have one name.
abbrev pub AreDistinct : List ReportFormat → Type 0
AreDistinct [] = Unit
AreDistinct (f ∷ formats) = (has f.name formats ≡ false) × AreDistinct formats

any-append :
    (p : ReportFormat → Bool) (xs ys : List ReportFormat)
    → any p (xs ++ ys) ≡ (any p xs || any p ys)
any-append p [] ys = refl
any-append p (x ∷ xs) ys = ground (arith, any-append p xs ys)

pub has-same :
    (a b : Text) (formats : List ReportFormat) → text_eq a b ≡ true → has a formats ≡ has b formats
has-same a b formats same = ap (λ n. has n formats) (eq_of_text_eq a b same)

pub has-select :
    (name : Text) (f : ReportFormat) (selected : List ReportFormat)
    → has name (select f selected) ≡ (has name selected || text_eq f.name name)
unfolding select
has-select name f selected = elim (Bool-cases (has f.name selected)) [
  | inl old ↦ elim (Bool-cases (text_eq f.name name)) [
    | inl same ↦ rw old (ground (arith, has-same f.name name selected same, old, same))
    | inr other ↦ rw old (ground (arith, other))
  ]
  | inr new ↦
      rw new
        (any-append (λ (s : ReportFormat). text_eq s.name name) selected (f ∷ []) ∙ ground arith)
]

AreDistinct-append :
    (f : ReportFormat) (formats : List ReportFormat)
    → AreDistinct formats
    → has f.name formats ≡ false
    → AreDistinct (formats ++ f ∷ [])
AreDistinct-append f [] h new = (refl, tt)
AreDistinct-append f (g ∷ formats) (fresh, h) new =
    let (other, later) = ||-false (text_eq g.name f.name) (has f.name formats) new in
    (
      any-append (λ (s : ReportFormat). text_eq s.name g.name) formats (f ∷ [])
          ∙ ground (arith, fresh, text_eq_comm f.name g.name, other),
      AreDistinct-append f formats h later,
    )

pub select-AreDistinct :
    (f : ReportFormat) (selected : List ReportFormat)
    → AreDistinct selected
    → AreDistinct (select f selected)
unfolding select
select-AreDistinct f selected h =
    if_intro AreDistinct (has f.name selected) _ _ (λ _. h)
      (λ new. AreDistinct-append f selected h new)

pub has-select_all :
    (name : Text) (formats selected : List ReportFormat)
    → has name (select_all formats selected) ≡ (has name selected || has name formats)
unfolding select_all
has-select_all name [] selected = ground arith
has-select_all name (f ∷ formats) selected =
    has-select_all name formats (select f selected) ∙ ground (arith, has-select name f selected)

pub select_all-AreDistinct :
    (formats selected : List ReportFormat)
    → AreDistinct selected
    → AreDistinct (select_all formats selected)
unfolding select_all
select_all-AreDistinct [] selected h = h
select_all-AreDistinct (f ∷ formats) selected h =
    select_all-AreDistinct formats (select f selected) (select-AreDistinct f selected h)

pub found_format :
    (name : Text) (formats : List ReportFormat)
    → has name formats ≡ true
    → (f : ReportFormat) × (find_format name formats ≡ some f) × (f.name ≡ name)
found_format name [] h = absurd (ground arith)
found_format name (f ∷ formats) h = elim (Bool-cases (text_eq f.name name)) [
  | inl same ↦ (
    f,
    ap (λ b. if b then some f else find_format name formats) same,
    eq_of_text_eq f.name name same,
  )
  | inr other ↦
      let (g, e, n) = found_format name formats (ground (arith, h, other)) in
      (g, ap (λ b. if b then some f else find_format name formats) other ∙ e, n)
]
