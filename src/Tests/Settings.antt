-- ===== src/Tests/Settings.antt =====
-- Runs of the model and instances of the theorems: the configuration and the formats.
use jiraleaks.Base.{none, some, List, [], ◌∷◌, map, ◌≡◌, ◌↔◌, refl, Text, codes}
use jiraleaks.Error.{ok}
use jiraleaks.Validators.{split, split_from}
use jiraleaks.Text.Space.{trim, trim_start, trim_end, is_whitespace}
use jiraleaks.Finding.{confidence_parse_opt}
use jiraleaks.Report.{ReportFormat, catalogue, names, select, select_all, resolve_formats}
use jiraleaks.Report.Formats.{any_wanted, resolve_formats-validate}
use jiraleaks.Report.Select.{has, AreDistinct}
use jiraleaks.Config.{Config, default, accepted_format, parse_formats, resolve_pat, validate}
use jiraleaks.Config.Valid.{IsValid, validate-ok_iff}
use jiraleaks.Tests.Scans.{identity}

abbrev settings : Config
settings = record default {
  jira_url = codes "https://jira.example.com";
  pat = codes "token";
  jql = some (codes "project = SEC");
  format = codes "csv, json,csv";
}

accepted : validate identity settings ≡ ok tt
unfolding validate parse_formats names split split_from trim trim_start trim_end is_whitespace
    accepted_format confidence_parse_opt
accepted = refl

every_format :
    map (λ (f : ReportFormat). f.name) (select_all catalogue [])
    ≡ codes "json"
      ∷ codes "ndjson"
      ∷ codes "csv"
      ∷ codes "sarif"
      ∷ codes "summary"
      ∷ codes "defectdojo"
      ∷ []
unfolding select_all select catalogue
every_format = refl

-- An empty variable does not hide a token behind it.
falls_back : resolve_pat none (some (codes " ")) (some (codes "old")) ≡ some (codes "old")
unfolding resolve_pat trim trim_start trim_end is_whitespace
falls_back = refl

validate-ok_iff_example : (validate identity settings ≡ ok tt) ↔ IsValid identity settings
validate-ok_iff_example = validate-ok_iff identity settings

resolve_formats-validate_example :
    (selected : List ReportFormat) × (resolve_formats (codes "csv, json,csv") ≡ ok selected)
    × AreDistinct selected
    × ((name : Text) → has name selected ≡ any_wanted (names (codes "csv, json,csv")) name)
resolve_formats-validate_example = resolve_formats-validate identity settings accepted
