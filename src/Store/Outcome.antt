-- ===== src/Store/Outcome.antt =====
-- What a scan leaves in the table: for rows that it did not find again, and for those it found.
use jiraleaks.Base.{
  ℕ, suc, ◌+◌, ◌<◌, Bool, true, false, not, ◌&&◌, ◌||◌, Option, none, some, List, [], ◌∷◌, map, ◌≡◌,
  inl, inr, refl, sym, ap, ◌∙◌, arith, ltb, if◌then◌else◌, Bool-cases, Option-cases, ||-false, Text,
  codes, text_eq, eq_of_text_eq, text_eq_comm, if_intro,
}
use jiraleaks.Store.{
  StoredRow, Exp, contains_text, upsert_all, close, is_vanished, close_all, select_scanned, fp_of,
  write_rows,
}
use jiraleaks.Store.Table.{
  find_row, IsKeyed, upserted, closed_if, find_row_sound, find_row-close_other, find_row-close,
  upsert-IsKeyed,
}
use jiraleaks.Store.Written.{vanished_at, merged, find_row-write_rows}

merged-absent :
    (exps : List Exp) (fp now scan_id : Text) (o : Option StoredRow)
    → contains_text (map fp_of exps) fp ≡ false
    → merged exps fp now scan_id o ≡ o
merged-absent [] fp now scan_id o h = refl
merged-absent (e ∷ exps) fp now scan_id o h =
    let (first, rest) = ||-false (text_eq fp e.fp) (contains_text (map fp_of exps) fp) h in
    rw (text_eq_comm e.fp fp ∙ first) (merged-absent exps fp now scan_id o rest)

-- The row that a scan which did not find its fingerprint leaves, field by field: closed at the
-- time of the scan if the issue was scanned and the row was not closed, else as it was.
abbrev pub left : (scanned : List Text) → (now scan_id : Text) → Option StoredRow → Option StoredRow
left scanned now scan_id none = none
left scanned now scan_id (some r) =
    if contains_text scanned r.issue_key && not (text_eq r.status (codes "closed"))
    then some (record {
      fp = r.fp;
      secret_hash = r.secret_hash;
      rule_id = r.rule_id;
      issue_key = r.issue_key;
      issue_url = r.issue_url;
      severity = r.severity;
      confidence = r.confidence;
      status = codes "closed";
      field_path = r.field_path;
      source_type = r.source_type;
      redacted_secret = r.redacted_secret;
      snippet = r.snippet;
      locations_json = r.locations_json;
      references_json = r.references_json;
      username = r.username;
      first_seen = r.first_seen;
      last_seen = now;
      closed_at = some now;
      times_seen = r.times_seen;
      scan_id_last = scan_id;
    })
    else some r

vanished_at-absent :
    (scanned current_fps : List Text) (r : StoredRow)
    → contains_text current_fps r.fp ≡ false
    → is_vanished scanned current_fps r
      ≡ (contains_text scanned r.issue_key && not (text_eq r.status (codes "closed")))
vanished_at-absent scanned current_fps r h = ground arith

closed_if-left :
    (scanned current_fps : List Text) (now scan_id : Text) (r : StoredRow)
    → contains_text current_fps r.fp ≡ false
    → closed_if (is_vanished scanned current_fps r) now scan_id (some r)
      ≡ left scanned now scan_id (some r)
closed_if-left scanned current_fps now scan_id r h =
    ap (λ b. closed_if b now scan_id (some r)) (vanished_at-absent scanned current_fps r h)
    ∙ both (contains_text scanned r.issue_key && not (text_eq r.status (codes "closed")))
  where
    both :
        (b : Bool)
        → closed_if b now scan_id (some r)
          ≡ (if b then closed_if true now scan_id (some r) else some r)
    both true = refl
    both false = refl

-- In a table with distinct fingerprints, a fingerprint that the scan did not find. If it has a row
-- whose issue was scanned and which is not closed, the row has the status closed, the time of the
-- scan as its closing time and as the time it was last seen, the name of the scan, and all else as
-- it was. Any other row is as it was, and the fingerprint gets no row if it had none.
pub write_rows-absent :
    (scanned : List Text) (exps : List Exp) (now scan_id : Text) (rows : List StoredRow) (fp : Text)
    → IsKeyed rows
    → contains_text (map fp_of exps) fp ≡ false
    → find_row fp (write_rows scanned exps now scan_id rows)
      ≡ left scanned now scan_id (find_row fp rows)
write_rows-absent scanned exps now scan_id rows fp keyed h =
    find_row-write_rows scanned exps now scan_id rows fp keyed
    ∙ merged-absent exps fp now scan_id _ h
    ∙ elim (Option-cases (find_row fp rows)) [
      | inl e ↦ rw e refl
      | inr (r, e) ↦
          let same = eq_of_text_eq r.fp fp (find_row_sound fp rows r e) in
          rw e (closed_if-left scanned (map fp_of exps) now scan_id r (rw same h))
    ]

-- How many rows of the expansion have the fingerprint.
abbrev pub count_fp : List Exp → Text → ℕ
count_fp [] fp = 0
count_fp (e ∷ exps) fp = if text_eq e.fp fp then suc (count_fp exps fp) else count_fp exps fp

abbrev pub times_before : Option StoredRow → ℕ
times_before none = 0
times_before (some r) = r.times_seen

abbrev pub first_before : (now : Text) → Option StoredRow → Text
first_before now none = now
first_before now (some r) = r.first_seen

abbrev pub is_stored : Option StoredRow → Bool
is_stored none = false
is_stored (some r) = true

-- The row `r` is what `n` rows of the expansion, at `now`, make of the row `o`.
pub record IsSeen (o : Option StoredRow) (n : ℕ) (now scan_id : Text) (r : StoredRow) : Type 0 where
  pub times : r.times_seen ≡ times_before o + n
  pub first : r.first_seen ≡ first_before now o
  pub last : r.last_seen ≡ now
  pub reopened : r.closed_at ≡ none
  pub scan : r.scan_id_last ≡ scan_id
  pub state : r.status ≡ (if is_stored o || ltb 1 n then codes "recurring" else codes "new")

upserted-IsSeen :
    (e : Exp) (now scan_id : Text) (o : Option StoredRow)
    → IsSeen o 1 now scan_id (upserted e now scan_id o)
upserted-IsSeen e now scan_id none = record {
  times = omega arith;
  first = refl;
  last = refl;
  reopened = refl;
  scan = refl;
  state = refl;
}
upserted-IsSeen e now scan_id (some r) = record {
  times = refl;
  first = refl;
  last = refl;
  reopened = refl;
  scan = refl;
  state = refl;
}

IsSeen-again :
    (e : Exp) (n : ℕ) (now scan_id : Text) (o : Option StoredRow) (r : StoredRow)
    → 0 < n
    → IsSeen (some (upserted e now scan_id o)) n now scan_id r
    → IsSeen o (suc n) now scan_id r
IsSeen-again e n now scan_id none r h s =
    let many : ltb 1 (suc n) ≡ true = ground arith in
    record {
      times = omega (arith, s.times);
      first = s.first;
      last = s.last;
      reopened = s.reopened;
      scan = s.scan;
      state = s.state ∙ sym (ap (λ b. if b then codes "recurring" else codes "new") many);
    }
IsSeen-again e n now scan_id (some q) r h s = record {
  times = omega (arith, s.times);
  first = s.first;
  last = s.last;
  reopened = s.reopened;
  scan = s.scan;
  state = s.state;
}

merged-zero :
    (exps : List Exp) (fp now scan_id : Text) (o : Option StoredRow)
    → count_fp exps fp ≡ 0
    → merged exps fp now scan_id o ≡ o
merged-zero [] fp now scan_id o h = refl
merged-zero (e ∷ exps) fp now scan_id o h = elim (Bool-cases (text_eq e.fp fp)) [
  | inl same ↦ absurd (ground arith)
  | inr other ↦ rw other (merged-zero exps fp now scan_id o (rw other at h))
]

merged-IsSeen :
    (exps : List Exp) (fp now scan_id : Text) (o : Option StoredRow)
    → 0 < count_fp exps fp
    → (r : StoredRow) × (merged exps fp now scan_id o ≡ some r)
      × IsSeen o (count_fp exps fp) now scan_id r
merged-IsSeen [] fp now scan_id o h = absurd (omega arith)
merged-IsSeen (e ∷ exps) fp now scan_id o h = elim (Bool-cases (text_eq e.fp fp)) [
  | inr other ↦ rw other (merged-IsSeen exps fp now scan_id o (rw other at h))
  | inl same ↦ elim (Bool-cases (ltb 0 (count_fp exps fp))) [
    | inl more ↦
        let (r, e', seen) =
          merged-IsSeen exps fp now scan_id (some (upserted e now scan_id o)) (ground arith) in
        rw same (r, e', IsSeen-again e (count_fp exps fp) now scan_id o r (ground arith) seen)
    | inr last ↦
        let zero_left : count_fp exps fp ≡ 0 = ground arith in
        rw (same, zero_left)
          (
            upserted e now scan_id o,
            merged-zero exps fp now scan_id (some (upserted e now scan_id o)) zero_left,
            upserted-IsSeen e now scan_id o,
          )
  ]
]

vanished_at-current :
    (scanned current_fps : List Text) (fp : Text) (rows : List StoredRow)
    → contains_text current_fps fp ≡ true
    → vanished_at scanned current_fps (find_row fp rows) ≡ false
vanished_at-current scanned current_fps fp rows h = elim (Option-cases (find_row fp rows)) [
  | inl e ↦ rw e refl
  | inr (r, e) ↦
      let same = eq_of_text_eq r.fp fp (find_row_sound fp rows r e) in
      let current : contains_text current_fps r.fp ≡ true = rw same h in
      let kept : is_vanished scanned current_fps r ≡ false = ground arith in
      ap (λ o. vanished_at scanned current_fps o) e ∙ kept
]

closed_if-false : (now scan_id : Text) (o : Option StoredRow) → closed_if false now scan_id o ≡ o
closed_if-false now scan_id none = refl
closed_if-false now scan_id (some r) = refl

count_fp-pos :
    (exps : List Exp) (fp : Text) → contains_text (map fp_of exps) fp ≡ true → 0 < count_fp exps fp
count_fp-pos [] fp h = absurd (cc)
count_fp-pos (e ∷ exps) fp h = elim (Bool-cases (text_eq e.fp fp)) [
  | inl same ↦ rw same (omega arith)
  | inr other ↦
      let rest : contains_text (map fp_of exps) fp ≡ true = rw (text_eq_comm fp e.fp, other) at h in
      rw other (count_fp-pos exps fp rest)
]

-- In a table with distinct fingerprints, the row of one that the scan found: it is there and not
-- closed, it has the time and the name of the scan, the first time that was stored for it, or else
-- the time of the scan, and the stored count and one for each row of the expansion that has the
-- fingerprint, not for each finding. It is new if it was not stored and the expansion has one such
-- row, else recurring.
pub write_rows-current :
    (scanned : List Text) (exps : List Exp) (now scan_id : Text) (rows : List StoredRow) (fp : Text)
    → IsKeyed rows
    → contains_text (map fp_of exps) fp ≡ true
    → (r : StoredRow) × (find_row fp (write_rows scanned exps now scan_id rows) ≡ some r)
      × IsSeen (find_row fp rows) (count_fp exps fp) now scan_id r
write_rows-current scanned exps now scan_id rows fp keyed h =
    let (r, e, seen) =
      merged-IsSeen exps fp now scan_id (find_row fp rows) (count_fp-pos exps fp h) in
    let kept = vanished_at-current scanned (map fp_of exps) fp rows h in
    (
      r,
      find_row-write_rows scanned exps now scan_id rows fp keyed
          ∙ ap (λ o. merged exps fp now scan_id o)
              (ap (λ b. closed_if b now scan_id (find_row fp rows)) kept
                ∙ closed_if-false now scan_id (find_row fp rows))
          ∙ e,
      seen,
    )

upsert_all-IsKeyed :
    (exps : List Exp) (now scan_id : Text) (rows : List StoredRow)
    → IsKeyed rows
    → IsKeyed (upsert_all exps now scan_id rows)
unfolding upsert_all
upsert_all-IsKeyed [] now scan_id rows h = h
upsert_all-IsKeyed (e ∷ exps) now scan_id rows h =
    upsert_all-IsKeyed exps now scan_id _ (upsert-IsKeyed now scan_id e rows h)

close-none :
    (fp gone now scan_id : Text) (rows : List StoredRow)
    → find_row fp rows ≡ none
    → find_row fp (close gone now scan_id rows) ≡ none
close-none fp gone now scan_id rows h = elim (Bool-cases (text_eq gone fp)) [
  | inl same ↦
      rw (eq_of_text_eq gone fp same)
        (find_row-close now scan_id fp rows ∙ ap (λ o. closed_if true now scan_id o) h)
  | inr other ↦ find_row-close_other now scan_id fp gone rows other ∙ h
]

close-IsKeyed :
    (gone now scan_id : Text) (rows : List StoredRow)
    → IsKeyed rows
    → IsKeyed (close gone now scan_id rows)
unfolding close
close-IsKeyed gone now scan_id [] h = tt
close-IsKeyed gone now scan_id (r ∷ rows) (fresh, keyed) =
    let rest = close-IsKeyed gone now scan_id rows keyed in
    let fresh' = close-none r.fp gone now scan_id rows fresh in
    elim (Bool-cases (text_eq r.fp gone)) [
      | inl same ↦ rw same (fresh', rest)
      | inr other ↦ rw other (fresh', rest)
    ]

close_all-IsKeyed :
    (scanned current_fps : List Text) (now scan_id : Text) (stored rows : List StoredRow)
    → IsKeyed rows
    → IsKeyed (close_all scanned current_fps now scan_id stored rows)
unfolding close_all
close_all-IsKeyed scanned current_fps now scan_id [] rows h = h
close_all-IsKeyed scanned current_fps now scan_id (s ∷ stored) rows h =
    close_all-IsKeyed scanned current_fps now scan_id stored _ (
      if_intro IsKeyed (is_vanished scanned current_fps s) (close s.fp now scan_id rows) rows
        (λ _. close-IsKeyed s.fp now scan_id rows h) (λ _. h))

-- A scan keeps the fingerprints of the table distinct.
pub write_rows-IsKeyed :
    (scanned : List Text) (exps : List Exp) (now scan_id : Text) (rows : List StoredRow)
    → IsKeyed rows
    → IsKeyed (write_rows scanned exps now scan_id rows)
unfolding write_rows
write_rows-IsKeyed scanned exps now scan_id rows h =
    upsert_all-IsKeyed exps now scan_id _
      (close_all-IsKeyed scanned (map fp_of exps) now scan_id (select_scanned scanned rows) rows h)
