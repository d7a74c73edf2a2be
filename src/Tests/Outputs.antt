-- ===== src/Tests/Outputs.antt =====
-- Runs of the model and instances of the theorems: the store and the text of the reports.
use jiraleaks.Base.{
  ℕ, ◌%◌, ◌^◌, true, false, Option, none, some, List, [], ◌∷◌, ◌++◌, map, ◌≡◌, refl, subst, length,
  Text, codes,
}
use jiraleaks.Text.Space.{trim_start, is_whitespace}
use jiraleaks.Finding.{
  SourceType, Location, Finding, FindingKey, fingerprint, location_key, location_keys,
  effective_locations, ExternalValidation,
}
use jiraleaks.Hash.{sha256_hex, encode}
use jiraleaks.Sanitize.{
  KeepNewlines, Cow, as_str, sanitize, sanitize_from, turn, skip_sequence, skip_csi_body,
  skip_string_body, skip_intermediates, skip_final, terminal, csv_field, quoted,
  starts_with_formula_sigil,
}
use jiraleaks.Sanitize.Clean.{IsClean, sanitize-IsClean}
use jiraleaks.Sanitize.Fixed.{csv_field_safe}
use jiraleaks.Store.{
  StoredRow, Exp, contains_text, expand, expand_location, fp_of, write_rows, upsert_all, upsert,
  close_all, select_scanned,
}
use jiraleaks.Store.Table.{find_row, IsKeyed}
use jiraleaks.Store.Outcome.{
  left, count_fp, IsSeen, write_rows-absent, write_rows-current, write_rows-IsKeyed,
}
use jiraleaks.Store.Report.{enrich}
use jiraleaks.Store.Agree.{enrich-row}
use jiraleaks.Tests.Findings.{found}

-- A colour sequence and a clipboard write go, a formula gets its apostrophe.
colour :
    terminal (0x1b ∷ codes "[1;32mCLEAN" ++ 0x1b ∷ codes "[0m") ≡ some (Cow.owned (codes "CLEAN"))
unfolding terminal sanitize sanitize_from turn skip_sequence skip_csi_body
colour = refl

clipboard :
    terminal (codes "a" ++ 0x1b ∷ codes "]52;c;AAAA" ++ 7 ∷ codes "b")
    ≡ some (Cow.owned (codes "ab"))
unfolding terminal sanitize sanitize_from turn skip_sequence skip_string_body
clipboard = refl

-- An escape with one character behind it.
restored : terminal (0x1b ∷ codes "7kept") ≡ some (Cow.owned (codes "kept"))
unfolding terminal sanitize sanitize_from turn skip_sequence skip_intermediates skip_final
restored = refl

formula : csv_field (codes " =1+1") ≡ some (Cow.owned (codes "' =1+1"))
unfolding csv_field sanitize sanitize_from turn quoted starts_with_formula_sigil trim_start
    is_whitespace
formula = refl

sanitize-IsClean_example :
    (out : Cow) × (sanitize (0x1b ∷ codes "[0mx") KeepNewlines.yes ≡ some out)
    × IsClean KeepNewlines.yes (as_str out)
sanitize-IsClean_example = sanitize-IsClean (0x1b ∷ codes "[0mx") KeepNewlines.yes

csv_field_safe_example :
    (out : Cow) × (csv_field (codes "=1") ≡ some out)
    × IsClean KeepNewlines.no (as_str out)
    × (starts_with_formula_sigil (as_str out) ≡ false)
csv_field_safe_example = csv_field_safe (codes "=1")

abbrev digest : Text → List ℕ
digest s = (length s % 256) ∷ []

abbrev no_locations : List Location → Text
no_locations locations = []

abbrev no_references : List Text → Text
no_references references = []

abbrev exps : List Exp
exps = expand digest no_locations no_references (found (codes "pw") (codes "SEC-1") ∷ [])

abbrev stored : Text → Text → StoredRow
stored fp issue = record {
  fp = fp;
  secret_hash = codes "sha256:00";
  rule_id = codes "pw";
  issue_key = issue;
  issue_url = [];
  severity = codes "high";
  confidence = codes "high";
  status = codes "new";
  field_path = [];
  source_type = codes "description";
  redacted_secret = [];
  snippet = [];
  locations_json = [];
  references_json = [];
  username = none;
  first_seen = codes "2026-01-01";
  last_seen = codes "2026-01-01";
  closed_at = none;
  times_seen = 1;
  scan_id_last = codes "scan-1";
}

abbrev rows : List StoredRow
rows = stored (codes "fp:12") (codes "SEC-1") ∷ stored (codes "fp:99") (codes "SEC-1") ∷ []

abbrev now : Text
now = codes "2026-02-01"

rows-IsKeyed : IsKeyed rows
rows-IsKeyed = (refl, (refl, tt))

abbrev written : Text
written = codes "fp:12"

exps_found : contains_text (map fp_of exps) written ≡ true
unfolding expand expand_location effective_locations fingerprint sha256_hex encode
exps_found = refl

exps_lost : contains_text (map fp_of exps) (codes "fp:99") ≡ false
unfolding expand expand_location effective_locations fingerprint sha256_hex encode
exps_lost = refl

write_rows-absent_example :
    find_row (codes "fp:99") (write_rows (codes "SEC-1" ∷ []) exps now (codes "scan-2") rows)
    ≡ left (codes "SEC-1" ∷ []) now (codes "scan-2") (find_row (codes "fp:99") rows)
write_rows-absent_example =
    write_rows-absent (codes "SEC-1" ∷ []) exps now (codes "scan-2") rows (codes "fp:99")
      rows-IsKeyed exps_lost

write_rows-current_example :
    (r : StoredRow) × (find_row written
        (write_rows (codes "SEC-1" ∷ []) exps now (codes "scan-2") rows)
      ≡ some r)
    × IsSeen (find_row written rows) (count_fp exps written) now (codes "scan-2") r
write_rows-current_example =
    write_rows-current (codes "SEC-1" ∷ []) exps now (codes "scan-2") rows written rows-IsKeyed
      exps_found

write_rows-IsKeyed_example :
    IsKeyed (write_rows (codes "SEC-1" ∷ []) exps now (codes "scan-2") rows)
write_rows-IsKeyed_example =
    write_rows-IsKeyed (codes "SEC-1" ∷ []) exps now (codes "scan-2") rows rows-IsKeyed

abbrev one : Finding
one = found (codes "pw") (codes "SEC-1")

abbrev one_key : FindingKey
one_key = location_key one (record {
  issue_key = codes "SEC-1";
  field_path = codes "description";
  source_type = SourceType.description;
})

one_location : location_keys one ≡ one_key ∷ []
unfolding location_keys effective_locations
one_location = refl

one_found : contains_text (map fp_of exps) (fingerprint digest one_key) ≡ true
unfolding expand expand_location effective_locations fingerprint sha256_hex encode
one_found = refl

found_once : count_fp exps (fingerprint digest one_key) ≡ 1
unfolding expand expand_location effective_locations fingerprint sha256_hex encode
found_once = refl

own_issue :
    (r : StoredRow)
    → find_row (fingerprint digest one_key) rows ≡ some r
    → contains_text (codes "SEC-1" ∷ []) r.issue_key ≡ true
unfolding fingerprint sha256_hex encode
own_issue r e =
    let same : stored (codes "fp:12") (codes "SEC-1") ≡ r = cc in
    subst (λ (x : StoredRow). contains_text (codes "SEC-1" ∷ []) x.issue_key ≡ true) same refl

abbrev nothing_live : Text → Option ExternalValidation
nothing_live hash = none

enrich-row_example :
    (r : StoredRow) × (find_row
        (fingerprint digest one_key)
        (write_rows (codes "SEC-1" ∷ []) exps now (codes "scan-2") rows)
      ≡ some r)
    × ((enrich digest
          (select_scanned (codes "SEC-1" ∷ []) rows)
          nothing_live
          now
          now
          one).first_seen
        ≡ some r.first_seen)
    × ((enrich digest
          (select_scanned (codes "SEC-1" ∷ []) rows)
          nothing_live
          now
          now
          one).times_seen
        ≡ some (r.times_seen % 2 ^ 32))
enrich-row_example =
    enrich-row digest (codes "SEC-1" ∷ []) exps now (codes "scan-2") now rows nothing_live one
      one_key rows-IsKeyed one_location one_found found_once own_issue

abbrev twice : Finding
twice = record one {
  locations =
      record {
        issue_key = codes "SEC-1";
        field_path = codes "description";
        source_type = SourceType.description;
      }
      ∷ record {
        issue_key = codes "SEC-1";
        field_path = codes "comment[1].body";
        source_type = SourceType.comment;
      }
      ∷ [];
}

abbrev state_of : Option StoredRow → Text × ℕ
state_of none = ([], 0)
state_of (some r) = (r.status, r.times_seen)

-- A secret at two places of one issue: its new row is recurring at once and counts two.
new_and_recurring :
    state_of (
      find_row written (
        write_rows
          (codes "SEC-1" ∷ [])
          (expand digest no_locations no_references (twice ∷ []))
          now
          (codes "scan-1")
          []))
    ≡ (codes "recurring", 2)
unfolding write_rows close_all select_scanned upsert_all upsert expand expand_location
    effective_locations fingerprint sha256_hex encode
new_and_recurring = refl
