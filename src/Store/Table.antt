-- ===== src/Store/Table.antt =====
-- The findings table as a finite map from fingerprints to rows, and what a scan writes to it.
use jiraleaks.Base.{
  Bool, true, false, Option, none, some, List, [], ◌∷◌, ◌≡◌, inl, inr, refl, ap, ◌∙◌, subst,
  if◌then◌else◌, Bool-cases, Text, text_eq, eq_of_text_eq, text_eq_refl, text_eq_comm,
}
use jiraleaks.Store.{StoredRow, Exp, inserted, updated, upsert, closed_row, close}

abbrev pub find_row : Text → List StoredRow → Option StoredRow
find_row fp [] = none
find_row fp (r ∷ rows) = if text_eq r.fp fp then some r else find_row fp rows

-- The primary key: no two rows have one fingerprint.
abbrev pub IsKeyed : List StoredRow → Type 0
IsKeyed [] = Unit
IsKeyed (r ∷ rows) = (find_row r.fp rows ≡ none) × IsKeyed rows

-- The row of a fingerprint behind one statement `INSERT … ON CONFLICT`.
abbrev pub upserted : Exp → (now scan_id : Text) → Option StoredRow → StoredRow
upserted e now scan_id none = inserted e now scan_id
upserted e now scan_id (some r) = updated r e now scan_id

abbrev pub closed_if : Bool → (now scan_id : Text) → Option StoredRow → Option StoredRow
closed_if b now scan_id none = none
closed_if true now scan_id (some r) = some (closed_row now scan_id r)
closed_if false now scan_id (some r) = some r

pub find_row_sound :
    (fp : Text) (rows : List StoredRow) (r : StoredRow)
    → find_row fp rows ≡ some r
    → text_eq r.fp fp ≡ true
find_row_sound fp [] r h = absurd (cc)
find_row_sound fp (q ∷ rows) r h = elim (Bool-cases (text_eq q.fp fp)) [
  | inl e ↦
      let found : ◌≡◌ {A = Option StoredRow} (some q) (some r) = rw e at h in
      let same : q ≡ r = cc in subst (λ (x : StoredRow). text_eq x.fp fp ≡ true) same e
  | inr e ↦ find_row_sound fp rows r (rw e at h)
]

module _ (now scan_id : Text) where
  pub find_row-upsert :
      (e : Exp) (rows : List StoredRow)
      → find_row e.fp (upsert e now scan_id rows)
        ≡ some (upserted e now scan_id (find_row e.fp rows))
  unfolding upsert
  find_row-upsert e [] = rw (text_eq_refl e.fp) refl
  find_row-upsert e (r ∷ rows) = elim (Bool-cases (text_eq r.fp e.fp)) [
    | inl same ↦ rw (same, same) refl
    | inr other ↦ rw (other, other) (find_row-upsert e rows)
  ]

  pub find_row-upsert_other :
      (fp : Text) (e : Exp) (rows : List StoredRow)
      → text_eq e.fp fp ≡ false
      → find_row fp (upsert e now scan_id rows) ≡ find_row fp rows
  unfolding upsert
  find_row-upsert_other fp e [] h = rw h refl
  find_row-upsert_other fp e (r ∷ rows) h = elim (Bool-cases (text_eq r.fp e.fp)) [
    | inl same ↦
        let miss : text_eq r.fp fp ≡ false = rw (eq_of_text_eq r.fp e.fp same) h in
        rw (same, miss) refl
    | inr other ↦
        rw other
          (ap (λ t. if text_eq r.fp fp then some r else t) (find_row-upsert_other fp e rows h))
  ]

  pub find_row-close :
      (fp : Text) (rows : List StoredRow)
      → find_row fp (close fp now scan_id rows) ≡ closed_if true now scan_id (find_row fp rows)
  unfolding close
  find_row-close fp [] = refl
  find_row-close fp (r ∷ rows) = elim (Bool-cases (text_eq r.fp fp)) [
    | inl same ↦ rw (same, same) refl
    | inr other ↦ rw (other, other) (find_row-close fp rows)
  ]

  pub find_row-close_other :
      (fp gone : Text) (rows : List StoredRow)
      → text_eq gone fp ≡ false
      → find_row fp (close gone now scan_id rows) ≡ find_row fp rows
  unfolding close
  find_row-close_other fp gone [] h = refl
  find_row-close_other fp gone (r ∷ rows) h = elim (Bool-cases (text_eq r.fp gone)) [
    | inl same ↦
        let miss : text_eq r.fp fp ≡ false = rw (eq_of_text_eq r.fp gone same) h in
        rw (same, miss) (find_row-close_other fp gone rows h)
    | inr other ↦
        rw other
          (ap (λ t. if text_eq r.fp fp then some r else t) (find_row-close_other fp gone rows h))
  ]

  pub upsert-IsKeyed :
      (e : Exp) (rows : List StoredRow) → IsKeyed rows → IsKeyed (upsert e now scan_id rows)
  unfolding upsert
  upsert-IsKeyed e [] h = (refl, tt)
  upsert-IsKeyed e (r ∷ rows) (fresh, keyed) = elim (Bool-cases (text_eq r.fp e.fp)) [
    | inl same ↦ rw same (fresh, keyed)
    | inr other ↦ rw other (
      find_row-upsert_other r.fp e rows (text_eq_comm e.fp r.fp ∙ other) ∙ fresh,
      upsert-IsKeyed e rows keyed,
    )
  ]
