-- ===== src/Report/Formats.antt =====
-- What a list of formats selects.
use jiraleaks.Base.{
  Bool, true, false, ◌&&◌, ◌||◌, some, List, [], ◌∷◌, ◌≡◌, inl, inr, refl, sym, ap, ◌∙◌, arith,
  if◌then◌else◌, Bool-cases, is_empty, any, All, Text, codes, text_eq,
}
use jiraleaks.Error.{ok, err, config, ◌>>=◌}
use jiraleaks.Report.{
  ReportFormat, catalogue, format_names, names, select, select_all, find_format, on_format, on_name,
  select_names, resolve_formats, unknown_format,
}
use jiraleaks.Config.{Config, accepted_format, validate}
use jiraleaks.Config.Valid.{validate-ok_iff}
use jiraleaks.Report.Select.{
  has, AreDistinct, has-same, has-select, select-AreDistinct, has-select_all,
  select_all-AreDistinct, found_format,
}

-- What a name selects of the catalogue.
abbrev pub wanted : (asked name : Text) → Bool
wanted asked name = has name catalogue && (text_eq asked name || text_eq asked (codes "all"))

listed_here :
    (asked name : Text)
    → has asked catalogue ≡ true
    → text_eq asked name ≡ (has name catalogue && text_eq asked name)
listed_here asked name listed = elim (Bool-cases (text_eq asked name)) [
  | inl same ↦
      same
      ∙ sym (
          ap (λ b. has name catalogue && b) same
          ∙ ap (λ b. b && true) (sym (has-same asked name catalogue same) ∙ listed))
  | inr other ↦
      other ∙ sym (ap (λ b. has name catalogue && b) other ∙ and_false (has name catalogue))
]
  where
    and_false : (b : Bool) → (b && false) ≡ false
    and_false b = ground arith

-- What one name does.
record Selects (asked : Text) (selected selected' : List ReportFormat) : Type 0 where
  pub distinct : AreDistinct selected → AreDistinct selected'
  pub adds : (name : Text) → has name selected' ≡ (has name selected || wanted asked name)

on_all :
    (asked : Text) (selected : List ReportFormat)
    → text_eq asked (codes "all") ≡ true
    → Selects asked selected (select_all catalogue selected)
on_all asked selected every = record {
  distinct = select_all-AreDistinct catalogue selected;
  adds = λ name.
      has-select_all name catalogue selected
      ∙ ap (λ b. has name selected || b)
          (all_wanted (has name catalogue) (text_eq asked name) _ every);
}
  where
    all_wanted : (a b c : Bool) → c ≡ true → a ≡ (a && (b || c))
    all_wanted a b c h = ground arith

on_listed :
    (asked : Text) (selected : List ReportFormat) (f : ReportFormat)
    → f.name ≡ asked
    → has asked catalogue ≡ true
    → text_eq asked (codes "all") ≡ false
    → Selects asked selected (select f selected)
on_listed asked selected f same listed single = record {
  distinct = select-AreDistinct f selected;
  adds = λ name.
      has-select name f selected
      ∙ ap (λ t. has name selected || text_eq t name) same
      ∙ ap (λ b. has name selected || b)
          (listed_here asked name listed
            ∙ one_wanted (has name catalogue) (text_eq asked name) _ single);
}
  where
    one_wanted : (a b c : Bool) → c ≡ false → (a && b) ≡ (a && (b || c))
    one_wanted a b c h = ground arith

catalogue_names : (name : Text) → has name catalogue ≡ any (λ n. text_eq n name) format_names
unfolding catalogue
catalogue_names name = refl

other_one : (a b : Bool) → (a || b) ≡ true → a ≡ false → b ≡ true
other_one a b h e = ground arith

known_name :
    (asked : Text)
    → accepted_format asked ≡ true
    → text_eq asked (codes "all") ≡ false
    → has asked catalogue ≡ true
unfolding accepted_format
known_name asked known single =
    catalogue_names asked
    ∙ other_one (text_eq asked (codes "all")) (any (λ n. text_eq n asked) format_names) known single

on_name_all :
    (asked : Text) (selected : List ReportFormat)
    → is_empty asked ≡ false
    → text_eq asked (codes "all") ≡ true
    → on_name asked selected ≡ ok (select_all catalogue selected)
unfolding on_name
on_name_all asked selected some_name every =
    ap
      (λ b.
        if b
        then err (config (unknown_format asked))
        else if text_eq asked (codes "all")
        then ok (select_all catalogue selected)
        else on_format asked (find_format asked catalogue) selected)
      some_name
    ∙ ap
        (λ b.
          if b
          then ok (select_all catalogue selected)
          else on_format asked (find_format asked catalogue) selected)
        every

on_name_one :
    (asked : Text) (selected : List ReportFormat) (f : ReportFormat)
    → is_empty asked ≡ false
    → text_eq asked (codes "all") ≡ false
    → find_format asked catalogue ≡ some f
    → on_name asked selected ≡ ok (select f selected)
unfolding on_name
on_name_one asked selected f some_name single e =
    ap
      (λ b.
        if b
        then err (config (unknown_format asked))
        else if text_eq asked (codes "all")
        then ok (select_all catalogue selected)
        else on_format asked (find_format asked catalogue) selected)
      some_name
    ∙ ap
        (λ b.
          if b
          then ok (select_all catalogue selected)
          else on_format asked (find_format asked catalogue) selected)
        single
    ∙ ap (λ o. on_format asked o selected) e

on_name_total :
    (asked : Text) (selected : List ReportFormat)
    → is_empty asked ≡ false
    → accepted_format asked ≡ true
    → (selected' : List ReportFormat) × (on_name asked selected ≡ ok selected')
      × Selects asked selected selected'
on_name_total asked selected some_name known = elim (Bool-cases (text_eq asked (codes "all"))) [
  | inl every ↦ (
    select_all catalogue selected,
    on_name_all asked selected some_name every,
    on_all asked selected every,
  )
  | inr single ↦
      let listed = known_name asked known single in
      let (f, e, same) = found_format asked catalogue listed in
      (
        select f selected,
        on_name_one asked selected f some_name single e,
        on_listed asked selected f same listed single,
      )
]

-- The names that a list of formats stands for.
unfoldable pub any_wanted : List Text → Text → Bool
any_wanted [] name = false
any_wanted (asked ∷ more) name = wanted asked name || any_wanted more name

abbrev AreAccepted : List Text → Type 0
AreAccepted asked = All (λ name. (is_empty name ≡ false) × (accepted_format name ≡ true)) asked

select_names_total :
    (asked : List Text) (selected : List ReportFormat)
    → AreAccepted asked
    → AreDistinct selected
    → (selected' : List ReportFormat) × (select_names asked selected ≡ ok selected')
      × AreDistinct selected'
      × ((name : Text) → has name selected' ≡ (has name selected || any_wanted asked name))
unfolding select_names any_wanted
select_names_total [] selected h distinct = (selected, refl, distinct, λ name. ground arith)
select_names_total (asked ∷ more) selected ((some_name, known), h) distinct =
    let (next, e, one) = on_name_total asked selected some_name known in
    let (out, e', distinct', adds) = select_names_total more next h (one.distinct distinct) in
    (
      out,
      ap (λ r. r >>= select_names more) e ∙ e',
      distinct',
      λ name.
          adds name
          ∙ ap (λ b. b || any_wanted more name) (one.adds name)
          ∙ or_assoc (has name selected) (wanted asked name) (any_wanted more name),
    )
  where
    or_assoc : (a b c : Bool) → ((a || b) || c) ≡ (a || (b || c))
    or_assoc a b c = ground arith

-- The formats of a configuration that validation accepts can be resolved. No format is selected
-- twice, and those selected are the ones of the catalogue that the list names, all of them where it
-- says `all`.
pub resolve_formats-validate :
    (lower : Text → Text) (c : Config)
    → validate lower c ≡ ok tt
    → (selected : List ReportFormat) × (resolve_formats c.format ≡ ok selected)
      × AreDistinct selected
      × ((name : Text) → has name selected ≡ any_wanted (names c.format) name)
unfolding resolve_formats
resolve_formats-validate lower c e =
    let v = (validate-ok_iff lower c).0 e in
    let (selected, resolved, distinct, adds) =
      select_names_total (names c.format) [] v.formats tt in
    (selected, resolved, distinct, adds)
