-- ===== src/Report.antt =====
-- src/report/mod.rs: the formats of a report. A format is known by its name and its extension; its
-- writer is output.
pub mod Formats
pub mod Select
use jiraleaks.Base.{
  ℕ, zero, suc, ◌+◌, ◌-◌, ◌*◌, ◌/◌, ◌%◌, ◌^◌, ◌≤◌, ◌<◌, min, max, Bool, true, false, not, ◌&&◌,
  ◌||◌, Option, none, some, List, [], ◌∷◌, ◌++◌, map, append_assoc, append-nil, ◌≡◌, ◌≢◌, ◌↔◌, ◌⊎◌,
  inl, inr, refl, sym, ap, ◌∙◌, subst, arith, ltb, leb, ◌==◌, if◌then◌else◌, Bool-cases,
  Option-cases, eq_of_==, ==_refl, &&-true, ||-true, ||-false, length, get_elem?, take, drop,
  is_empty, any, all, All, In, here, there, length-append, length-take-le, length-reverse, reverse,
  reverse-append, In-append_left, In-append_right, In-append_split, All-append, All-In, Text, codes,
  text_eq, eq_of_text_eq, text_eq_refl, text_eq_of_eq, text_eq_comm, if_intro,
}
use jiraleaks.Text.Space.{trim}
use jiraleaks.Validators.{split}
use jiraleaks.Error.{ScannerError, Result, ok, err, config, ◌>>=◌}

pub record ReportFormat : Type 0 where
  pub name : Text
  pub ext : Text

abbrev format : Text → Text → ReportFormat
format name ext = record { name = name; ext = ext }

unfoldable pub catalogue : List ReportFormat
catalogue =
    format (codes "json") (codes "json")
    ∷ format (codes "ndjson") (codes "ndjson")
    ∷ format (codes "csv") (codes "csv")
    ∷ format (codes "sarif") (codes "sarif")
    ∷ format (codes "summary") (codes "txt")
    ∷ format (codes "defectdojo") (codes "defectdojo.json")
    ∷ []

abbrev pub format_names : List Text
format_names =
    codes "json"
    ∷ codes "ndjson"
    ∷ codes "csv"
    ∷ codes "sarif"
    ∷ codes "summary"
    ∷ codes "defectdojo"
    ∷ []

abbrev joined : Text → List Text → Text
joined sep [] = []
joined sep (s ∷ []) = s
joined sep (s ∷ more) = s ++ (sep ++ joined sep more)

abbrev pub unknown_format : Text → Text
unknown_format name =
    codes "unknown report format '"
    ++ (name
        ++ (codes "', expected one of: " ++ (joined (codes ", ") format_names ++ codes ", all")))

unfoldable pub names : Text → List Text
unfolding trim
names spec = map trim (split b',' spec)

-- `if !selected.iter().any(|s| s.name == format.name) { selected.push(format) }`.
unfoldable pub select : ReportFormat → List ReportFormat → List ReportFormat
select f selected =
    if any (λ (s : ReportFormat). text_eq s.name f.name) selected
    then selected
    else selected ++ f ∷ []

unfoldable pub select_all : List ReportFormat → List ReportFormat → List ReportFormat
unfolding select
select_all [] selected = selected
select_all (f ∷ formats) selected = select_all formats (select f selected)

abbrev pub find_format : Text → List ReportFormat → Option ReportFormat
find_format name [] = none
find_format name (f ∷ formats) = if text_eq f.name name then some f else find_format name formats

abbrev pub on_format : Text → Option ReportFormat → List ReportFormat → Result (List ReportFormat)
on_format name none selected = err (config (unknown_format name))
on_format name (some f) selected = ok (select f selected)

-- One turn of the loop over the names.
unfoldable pub on_name : Text → List ReportFormat → Result (List ReportFormat)
unfolding select_all
on_name name selected =
    if is_empty name
    then err (config (unknown_format name))
    else if text_eq name (codes "all")
    then ok (select_all catalogue selected)
    else on_format name (find_format name catalogue) selected

unfoldable pub select_names : List Text → List ReportFormat → Result (List ReportFormat)
unfolding on_name
select_names [] selected = ok selected
select_names (name ∷ more) selected = on_name name selected >>= select_names more

unfoldable pub resolve_formats : (spec : Text) → Result (List ReportFormat)
unfolding select_names names
resolve_formats spec = select_names (names spec) []
