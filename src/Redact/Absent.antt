-- ===== src/Redact/Absent.antt =====
-- The contract of the snippet masking: whatever the span, no panic, and no secret in the result.
-- A secret is maskable if it is not empty, holds no square bracket and is no part of the generic
-- marker; without that the replacement can bring the secret up again.
use jiraleaks.Base.{
  false, not, ◌||◌, some, List, [], ◌∷◌, ◌++◌, ◌≡◌, ◌≢◌, ◌⊎◌, inl, inr, refl, arith, if◌then◌else◌,
  Bool-cases, Option-cases, is_empty, All, In, here, there, Text, codes,
}
use jiraleaks.Text.Find.{contains, replace}
use jiraleaks.Text.Find.Absent.{Lacks, Bracketed, replace-keeps_absent, replace-absent}
use jiraleaks.Text.Bytes.{floor_char_boundary, ceil_char_boundary, take_bytes, drop_bytes}
use jiraleaks.Text.Bytes.Boundary.{
  IsBoundary, floor-IsBoundary, ceil-IsBoundary, take_bytes-append, drop_bytes-append,
}
use jiraleaks.Redact.{
  Range, with_rule, generic, marker_for, mask_all, clamp_span, splice, enforce_absent, mask_span,
  redact_snippet, mask_others, redact_snippet_with,
}

pub record IsMaskable (value : Text) : Type 0 where
  pub present : value ≢ []
  pub no_open : Lacks b'[' value
  pub no_close : Lacks b']' value
  pub own : contains generic value ≡ false

pub marker_for-Bracketed :
    (rule_id value : Text) → IsMaskable value → Bracketed b'[' b']' (marker_for rule_id value)
unfolding marker_for
marker_for-Bracketed rule_id value k =
    elim (Bool-cases (is_empty value || not (contains (with_rule rule_id) value))) [
      | inl p ↦ rw p (record { inner = codes "REDACTED:" ++ rule_id; shape = refl })
      | inr p ↦ rw (p, k.own) (record { inner = codes "REDACTED"; shape = refl })
    ]

-- The marker of a secret does not contain it.
pub marker_for-absent :
    (rule_id value : Text) → IsMaskable value → contains (marker_for rule_id value) value ≡ false
unfolding marker_for
marker_for-absent rule_id [] k = absurd (k.present refl)
marker_for-absent rule_id (c ∷ v) k = ground (arith, k.own)

-- A splice between boundaries does not panic.
splice_total :
    (s : Text) (r : Range) (m : Text)
    → IsBoundary s r.start
    → IsBoundary s r.end
    → (out : Text) × (splice s r m ≡ some out)
unfolding splice
splice_total s r m p q =
    let head : take_bytes s r.start ≡ some p.before =
      rw (p.split, p.offset) (take_bytes-append p.before p.after) in
    let tail : drop_bytes s r.end ≡ some q.after =
      rw (q.split, q.offset) (drop_bytes-append q.before q.after) in
    (p.before ++ (m ++ q.after), ground arith)

clamp_span-IsBoundary :
    (s : Text) (span r : Range)
    → clamp_span s span ≡ some r
    → IsBoundary s r.start × IsBoundary s r.end
unfolding clamp_span
clamp_span-IsBoundary s span r h =
    let low : floor_char_boundary s span.start ≡ r.start = ground arith in
    let high : ceil_char_boundary s span.end ≡ r.end = ground arith in
    (rw low at (floor-IsBoundary s span.start), rw high at (ceil-IsBoundary s span.end))

-- Replacing the span of a match does not panic, for any span.
pub mask_span_total :
    (snippet value : Text) (span : Range) (rule_id : Text)
    → (out : Text) × (mask_span snippet value span rule_id ≡ some out)
unfolding mask_span
mask_span_total snippet value span rule_id = elim (Option-cases (clamp_span snippet span)) [
  | inl unusable ↦ (snippet, ground arith)
  | inr (r, usable) ↦
      let (p, q) = clamp_span-IsBoundary snippet span r usable in
      let (out, spliced) = splice_total snippet r (marker_for rule_id value) p q in
      (out, ground arith)
]

-- A secret of the list `s` that is swept leaves a marker without `v`; an empty one is passed over.
abbrev pub Foreign : Text → Text × Text → Type 0
Foreign v s = (s.0 ≡ []) ⊎ (IsMaskable s.0 × (contains (marker_for s.1 s.0) v ≡ false))

module _ (v : Text) (k : IsMaskable v) where
  replace_keeps :
      (text : Text) (s : Text × Text)
      → Foreign v s
      → is_empty s.0 ≡ false
      → contains text v ≡ false
      → contains (replace text s.0 (marker_for s.1 s.0)) v ≡ false
  replace_keeps text s (inl e) h clean = absurd (ground arith)
  replace_keeps text s (inr (m, out)) h clean =
      replace-keeps_absent b'[' b']' v k.present k.no_open k.no_close s.0 (marker_for s.1 s.0)
        (marker_for-Bracketed s.1 s.0 m) out text clean

  enforce_absent_keeps :
      (secrets : List (Text × Text)) (text : Text)
      → All (Foreign v) secrets
      → contains text v ≡ false
      → contains (enforce_absent text secrets) v ≡ false
  unfolding enforce_absent mask_all
  enforce_absent_keeps [] text _ clean = clean
  enforce_absent_keeps ((w, r) ∷ secrets) text (f, fs) clean =
      enforce_absent_keeps secrets _ fs (ground (arith, replace_keeps text (w, r) f))

  swept :
      (text r : Text)
      → contains (if is_empty v || not (contains text v) then text else mask_all text v r) v ≡ false
  unfolding mask_all
  swept text r = ground (
    arith,
    k.present,
    replace-absent b'[' b']' v k.present k.no_open k.no_close (marker_for r v)
        (marker_for-Bracketed r v k) (marker_for-absent r v k) text,
  )

  -- After the sweep over a list of secrets, `v` is absent if it is one of them.
  enforce_absent_sweeps :
      (secrets : List (Text × Text)) (text r : Text)
      → In (v, r) secrets
      → All (Foreign v) secrets
      → contains (enforce_absent text secrets) v ≡ false
  unfolding enforce_absent
  enforce_absent_sweeps [] text r m _ = elim m [ ]
  enforce_absent_sweeps (s ∷ secrets) text r here (f, fs) =
      enforce_absent_keeps secrets _ fs (swept text r)
  enforce_absent_sweeps (s ∷ secrets) text r (there m) (f, fs) =
      enforce_absent_sweeps secrets _ r m fs

-- For every snippet and every span, also one that is inverted or that lies out of bounds: the
-- masking does not panic, and its result does not contain the secret, if that is maskable.
pub redact_snippet_absent :
    (snippet value : Text) (span : Range) (rule_id : Text)
    → IsMaskable value
    → (out : Text) × (redact_snippet snippet value span rule_id ≡ some out)
      × (contains out value ≡ false)
unfolding redact_snippet
redact_snippet_absent snippet value span rule_id k =
    let (masked, e) = mask_span_total snippet value span rule_id in
    let secrets : List (Text × Text) = (value, rule_id) ∷ [] in
    (
      enforce_absent masked secrets,
      rw (e, redact_snippet),
      enforce_absent_sweeps value k secrets masked rule_id here
          (inr (k, marker_for-absent rule_id value k), tt),
    )

-- For a snippet with the secrets of its neighbours and every span the masking does not panic, and
-- its result contains no secret, of the match or of the others, that is maskable and not part of
-- the marker of a secret of the snippet, where these are maskable or empty.
pub redact_snippet_with_absent :
    (snippet value : Text) (span : Range) (rule_id : Text) (others : List (Text × Text))
    (v r : Text)
    → In (v, r) ((value, rule_id) ∷ others)
    → IsMaskable v
    → All (Foreign v) ((value, rule_id) ∷ others)
    → (out : Text) × (redact_snippet_with snippet value span rule_id others ≡ some out)
      × (contains out v ≡ false)
unfolding redact_snippet_with
redact_snippet_with_absent snippet value span rule_id others v r m k foreign =
    let (masked, e) = mask_span_total snippet value span rule_id in
    let secrets : List (Text × Text) = (value, rule_id) ∷ others in
    (
      enforce_absent (mask_others value masked others) secrets,
      rw (e, redact_snippet_with),
      enforce_absent_sweeps v k secrets _ r m foreign,
    )

-- The masking never panics.
pub redact_snippet_with_total :
    (snippet value : Text) (span : Range) (rule_id : Text) (others : List (Text × Text))
    → (out : Text) × (redact_snippet_with snippet value span rule_id others ≡ some out)
unfolding redact_snippet_with
redact_snippet_with_total snippet value span rule_id others =
    let (masked, e) = mask_span_total snippet value span rule_id in
    (
      enforce_absent (mask_others value masked others) ((value, rule_id) ∷ others),
      rw (e, redact_snippet_with),
    )
