-- ===== src/Store/Agree.antt =====
-- The report of a scan against the rows that it leaves.
use jiraleaks.Base.{
  ℕ, ◌+◌, ◌%◌, ◌^◌, true, Option, none, some, List, [], ◌∷◌, map, ◌≡◌, inl, inr, refl, sym, ap, ◌∙◌,
  arith, if◌then◌else◌, Bool-cases, Text, text_eq, if_intro,
}
use jiraleaks.Finding.{Finding, FindingKey, fingerprint, location_keys, ExternalValidation}
use jiraleaks.Store.{StoredRow, Exp, contains_text, select_scanned, fp_of, write_rows}
use jiraleaks.Store.Table.{find_row, IsKeyed}
use jiraleaks.Store.Outcome.{count_fp, times_before, first_before, write_rows-current}
use jiraleaks.Store.Report.{seen_over, or_else, with_validation, enrich}

find_row-select_scanned :
    (scanned : List Text) (fp : Text) (rows : List StoredRow)
    → ((r : StoredRow) → find_row fp rows ≡ some r → contains_text scanned r.issue_key ≡ true)
    → IsKeyed rows
    → find_row fp (select_scanned scanned rows) ≡ find_row fp rows
unfolding select_scanned
find_row-select_scanned scanned fp [] h keyed = refl
find_row-select_scanned scanned fp (r ∷ rows) h (fresh, keyed) =
    elim (Bool-cases (text_eq r.fp fp)) [
      | inl same ↦
          let hit = h r (ap (λ b. if b then some r else find_row fp rows) same) in
          rw hit (
            ap (λ b. if b then some r else find_row fp (select_scanned scanned rows)) same
            ∙ sym (ap (λ b. if b then some r else find_row fp rows) same))
      | inr other ↦
          let miss : find_row fp (r ∷ rows) ≡ find_row fp rows =
            ap (λ b. if b then some r else find_row fp rows) other in
          let again = find_row-select_scanned scanned fp rows (λ q e. h q (miss ∙ e)) keyed in
          if_intro (λ l. find_row fp l ≡ find_row fp (r ∷ rows)) (contains_text scanned r.issue_key)
            (r ∷ select_scanned scanned rows) (select_scanned scanned rows)
            (λ _. ap (λ t. if text_eq r.fp fp then some r else t) again) (λ _. again ∙ sym miss)
    ]

seen_over-one :
    (digest : Text → List ℕ) (stored : List StoredRow) (now : Text) (k : FindingKey)
    (o : Option StoredRow)
    → find_row (fingerprint digest k) stored ≡ o
    → seen_over digest stored now (k ∷ []) none 0
      ≡ (some (first_before now o), (times_before o + 1) % 2 ^ 32)
unfolding seen_over
seen_over-one digest stored now k none h = rw h refl
seen_over-one digest stored now k (some s) h =
    let wrapped : (0 + (s.times_seen + 1) % 2 ^ 32) % 2 ^ 32 ≡ (s.times_seen + 1) % 2 ^ 32 =
      omega arith in
    rw h (ap (λ n. (some s.first_seen, n)) wrapped)

with_validation-seen :
    (ev : Option ExternalValidation) (f : Finding)
    → ((with_validation ev f).first_seen ≡ f.first_seen)
      × ((with_validation ev f).times_seen ≡ f.times_seen)
unfolding with_validation
with_validation-seen none f = (refl, refl)
with_validation-seen (some ev) f = elim (Bool-cases ev.valid) [
  | inl valid ↦ rw valid (refl, refl)
  | inr invalid ↦ rw invalid (refl, refl)
]

-- Over a table with distinct fingerprints, a finding with one location that no other finding of
-- the scan shares, and whose stored row, if there is one, belongs to a scanned issue, is reported
-- with the first time and the count (in 32 bits) that its row has behind the scan.
pub enrich-row :
    (digest : Text → List ℕ) (scanned : List Text) (exps : List Exp) (now scan_id started : Text)
    (rows : List StoredRow) (live : Text → Option ExternalValidation) (f : Finding) (k : FindingKey)
    → IsKeyed rows
    → location_keys f ≡ k ∷ []
    → contains_text (map fp_of exps) (fingerprint digest k) ≡ true
    → count_fp exps (fingerprint digest k) ≡ 1
    → ((r : StoredRow)
        → find_row (fingerprint digest k) rows ≡ some r
        → contains_text scanned r.issue_key ≡ true)
    → (r : StoredRow) × (find_row (fingerprint digest k) (write_rows scanned exps now scan_id rows)
        ≡ some r)
      × ((enrich digest (select_scanned scanned rows) live now started f).first_seen
          ≡ some r.first_seen)
      × ((enrich digest (select_scanned scanned rows) live now started f).times_seen
          ≡ some (r.times_seen % 2 ^ 32))
unfolding enrich
enrich-row digest scanned exps now scan_id started rows live f k keyed one found once own =
    let fp = fingerprint digest k in
    let (r, e, seen) = write_rows-current scanned exps now scan_id rows fp keyed found in
    let sums =
      ap (λ ks. seen_over digest (select_scanned scanned rows) now ks none 0) one
      ∙ seen_over-one digest (select_scanned scanned rows) now k (find_row fp rows)
          (find_row-select_scanned scanned fp rows own keyed) in
    let (first_kept, times_kept) = with_validation-seen (live f.secret_hash) _ in
    let times : r.times_seen ≡ times_before (find_row fp rows) + 1 =
      seen.times ∙ ap (λ n. times_before (find_row fp rows) + n) once in
    (
      r,
      e,
      first_kept
          ∙ ap (λ (p : Option Text × ℕ). some (or_else p.0 now)) sums
          ∙ sym (ap (λ t. some t) seen.first),
      times_kept
          ∙ ap (λ (p : Option Text × ℕ). some p.1) sums
          ∙ sym (ap (λ n. some (n % 2 ^ 32)) times),
    )
