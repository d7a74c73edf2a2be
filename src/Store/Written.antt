-- ===== src/Store/Written.antt =====
-- The rows behind a scan: which are closed, which are written, and which stay.
use jiraleaks.Base.{
  Bool, true, false, ◌&&◌, ◌||◌, Option, none, some, List, [], ◌∷◌, map, ◌≡◌, ◌⊎◌, inl, inr, refl,
  sym, ap, ◌∙◌, arith, if◌then◌else◌, Bool-cases, Option-cases, any, Text, text_eq, eq_of_text_eq,
  if_intro,
}
use jiraleaks.Store.{
  StoredRow, Exp, contains_text, upsert, upsert_all, close, is_vanished, close_all, select_scanned,
  fp_of, write_rows,
}
use jiraleaks.Store.Table.{
  find_row, IsKeyed, upserted, closed_if, find_row-upsert, find_row-upsert_other, find_row-close,
  find_row-close_other,
}

-- Whether the row of a fingerprint, if there is one, is to be closed.
abbrev pub vanished_at : (scanned current_fps : List Text) → Option StoredRow → Bool
vanished_at scanned current_fps none = false
vanished_at scanned current_fps (some r) = is_vanished scanned current_fps r

-- The statements on one fingerprint.
abbrev pub merged : List Exp → Text → (now scan_id : Text) → Option StoredRow → Option StoredRow
merged [] fp now scan_id o = o
merged (e ∷ exps) fp now scan_id o =
    merged exps fp now scan_id (if text_eq e.fp fp then some (upserted e now scan_id o) else o)

abbrev closes : (scanned current_fps : List Text) → Text → StoredRow → Bool
closes scanned current_fps fp s = is_vanished scanned current_fps s && text_eq s.fp fp

closed_if_twice :
    (a b : Bool) (now scan_id : Text) (o : Option StoredRow)
    → closed_if a now scan_id (closed_if b now scan_id o) ≡ closed_if (b || a) now scan_id o
closed_if_twice a b now scan_id none = refl
closed_if_twice a false now scan_id (some r) = refl
closed_if_twice true true now scan_id (some r) = refl
closed_if_twice false true now scan_id (some r) = refl

find_row-closes :
    (now scan_id : Text) (fp gone : Text) (b : Bool) (rows : List StoredRow)
    → find_row fp (if b then close gone now scan_id rows else rows)
      ≡ closed_if (b && text_eq gone fp) now scan_id (find_row fp rows)
find_row-closes now scan_id fp gone false rows = elim (Option-cases (find_row fp rows)) [
  | inl e ↦ rw e refl
  | inr (r, e) ↦ rw e refl
]
find_row-closes now scan_id fp gone true rows = elim (Bool-cases (text_eq gone fp)) [
  | inl same ↦ rw (same, eq_of_text_eq gone fp same) (find_row-close now scan_id fp rows)
  | inr other ↦ elim (Option-cases (find_row fp rows)) [
    | inl e ↦ rw (other, e) (find_row-close_other now scan_id fp gone rows other ∙ e)
    | inr (r, e) ↦ rw (other, e) (find_row-close_other now scan_id fp gone rows other ∙ e)
  ]
]

find_row-close_all :
    (scanned current_fps : List Text) (now scan_id : Text) (stored : List StoredRow) (fp : Text)
    (rows : List StoredRow)
    → find_row fp (close_all scanned current_fps now scan_id stored rows)
      ≡ closed_if (any (closes scanned current_fps fp) stored) now scan_id (find_row fp rows)
unfolding close_all
find_row-close_all scanned current_fps now scan_id [] fp rows =
    find_row-closes now scan_id fp fp false rows
find_row-close_all scanned current_fps now scan_id (s ∷ stored) fp rows =
    let b = is_vanished scanned current_fps s in
    find_row-close_all scanned current_fps now scan_id stored fp
      (if b then close s.fp now scan_id rows else rows)
    ∙ ap (λ o. closed_if (any (closes scanned current_fps fp) stored) now scan_id o)
        (find_row-closes now scan_id fp s.fp b rows)
    ∙ closed_if_twice (any (closes scanned current_fps fp) stored) (b && text_eq s.fp fp) now
        scan_id (find_row fp rows)

closes-select_scanned :
    (scanned current_fps : List Text) (fp : Text) (rows : List StoredRow)
    → any (closes scanned current_fps fp) (select_scanned scanned rows)
      ≡ any (closes scanned current_fps fp) rows
unfolding select_scanned
closes-select_scanned scanned current_fps fp [] = refl
closes-select_scanned scanned current_fps fp (r ∷ rows) =
    let again = closes-select_scanned scanned current_fps fp rows in
    if_intro
      (λ l. any (closes scanned current_fps fp) l ≡ any (closes scanned current_fps fp) (r ∷ rows))
      (contains_text scanned r.issue_key) (r ∷ select_scanned scanned rows)
      (select_scanned scanned rows) (λ _. ap (λ b. closes scanned current_fps fp r || b) again)
      (λ miss.
        let no_close : closes scanned current_fps fp r ≡ false = ground arith in
        again ∙ sym (ap (λ b. b || any (closes scanned current_fps fp) rows) no_close))

closes-none :
    (scanned current_fps : List Text) (fp : Text) (rows : List StoredRow)
    → find_row fp rows ≡ none
    → any (closes scanned current_fps fp) rows ≡ false
closes-none scanned current_fps fp [] h = refl
closes-none scanned current_fps fp (r ∷ rows) h = elim (Bool-cases (text_eq r.fp fp)) [
  | inl same ↦ let bad : ◌≡◌ {A = Option StoredRow} (some r) none = rw same at h in absurd (cc)
  | inr other ↦
      let rest = closes-none scanned current_fps fp rows (rw other at h) in
      let no_close : closes scanned current_fps fp r ≡ false = ground arith in rw no_close rest
]

closes-IsKeyed :
    (scanned current_fps : List Text) (fp : Text) (rows : List StoredRow)
    → IsKeyed rows
    → any (closes scanned current_fps fp) rows ≡ vanished_at scanned current_fps (find_row fp rows)
closes-IsKeyed scanned current_fps fp [] h = refl
closes-IsKeyed scanned current_fps fp (r ∷ rows) (fresh, keyed) =
    elim (Bool-cases (text_eq r.fp fp)) [
      | inl same ↦
          let rest : any (closes scanned current_fps fp) rows ≡ false =
            closes-none scanned current_fps fp rows (rw (← eq_of_text_eq r.fp fp same) fresh) in
          rw (same, rest) (ground arith)
      | inr other ↦
          let no_close : closes scanned current_fps fp r ≡ false = ground arith in
          ap (λ b. b || any (closes scanned current_fps fp) rows) no_close
          ∙ closes-IsKeyed scanned current_fps fp rows keyed
          ∙ sym (
              ap (λ b. vanished_at scanned current_fps (if b then some r else find_row fp rows))
                other)
    ]

find_row-upsert_all :
    (now scan_id : Text) (exps : List Exp) (fp : Text) (rows : List StoredRow)
    → find_row fp (upsert_all exps now scan_id rows) ≡ merged exps fp now scan_id (find_row fp rows)
unfolding upsert_all
find_row-upsert_all now scan_id [] fp rows = refl
find_row-upsert_all now scan_id (e ∷ exps) fp rows =
    find_row-upsert_all now scan_id exps fp (upsert e now scan_id rows)
    ∙ ap (λ o. merged exps fp now scan_id o) (step_of (Bool-cases (text_eq e.fp fp)))
  where
    step_of :
        (text_eq e.fp fp ≡ true) ⊎ (text_eq e.fp fp ≡ false)
        → find_row fp (upsert e now scan_id rows) ≡ (
            if text_eq e.fp fp
            then some (upserted e now scan_id (find_row fp rows))
            else find_row fp rows)
    step_of (inl same) =
        rw same (rw (← eq_of_text_eq e.fp fp same) (find_row-upsert now scan_id e rows))
    step_of (inr other) = rw other (find_row-upsert_other now scan_id fp e rows other)

-- The row of a fingerprint behind the transaction.
pub find_row-write_rows :
    (scanned : List Text) (exps : List Exp) (now scan_id : Text) (rows : List StoredRow) (fp : Text)
    → IsKeyed rows
    → find_row fp (write_rows scanned exps now scan_id rows)
      ≡ merged exps fp now scan_id (
          closed_if
            (vanished_at scanned (map fp_of exps) (find_row fp rows))
            now
            scan_id
            (find_row fp rows))
unfolding write_rows
find_row-write_rows scanned exps now scan_id rows fp h =
    find_row-upsert_all now scan_id exps fp _
    ∙ ap (λ o. merged exps fp now scan_id o)
        (find_row-close_all scanned (map fp_of exps) now scan_id (select_scanned scanned rows) fp
            rows
          ∙ ap (λ b. closed_if b now scan_id (find_row fp rows))
              (closes-select_scanned scanned (map fp_of exps) fp rows
                ∙ closes-IsKeyed scanned (map fp_of exps) fp rows h))
