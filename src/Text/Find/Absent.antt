-- ===== src/Text/Find/Absent.antt =====
-- When a text holds no occurrence of a value: across a code point that the value lacks, and after
-- a replacement whose marker is bracketed by two such code points.
use jiraleaks.Base.{
  ℕ, zero, suc, ◌-◌, ◌≤◌, ◌<◌, true, false, ◌||◌, [], ◌∷◌, ◌++◌, append_assoc, ◌≡◌, ◌≢◌, inl, inr,
  refl, sym, ap, ◌∙◌, arith, ◌==◌, Bool-cases, &&-true, ||-true, ||-false, length, All, Text,
}
use jiraleaks.Text.Find.{starts_with, contains, replace_from, replace}

abbrev pub Lacks : ℕ → Text → Type 0
Lacks b = All (λ c. (c == b) ≡ false)

starts_with-nil : (v : Text) → v ≢ [] → starts_with [] v ≡ false
starts_with-nil [] h = absurd (h refl)
starts_with-nil (c ∷ v) h = refl

-- A prefix that lacks `x` ends before `x`.
starts_with-barrier :
    (x : ℕ) (a b v : Text) → Lacks x v → starts_with (a ++ x ∷ b) v ≡ starts_with a v
starts_with-barrier x a b [] l = refl
starts_with-barrier x [] b (c ∷ v) l = ground arith
starts_with-barrier x (d ∷ a) b (c ∷ v) l = ground (arith, starts_with-barrier x a b v l.1)

-- An occurrence of a value that lacks `x` lies on one side of `x`.
pub contains-barrier :
    (x : ℕ) (a b v : Text)
    → v ≢ []
    → Lacks x v
    → contains (a ++ x ∷ b) v ≡ (contains a v || contains b v)
contains-barrier x [] b v ne l =
    ground (arith, starts_with-barrier x [] b v l, starts_with-nil v ne)
contains-barrier x (d ∷ a) b v ne l =
    ground (arith, starts_with-barrier x (d ∷ a) b v l, contains-barrier x a b v ne l)

-- A marker that stands between two barriers `x` and `y`.
pub record Bracketed (x y : ℕ) (marker : Text) : Type 0 where
  pub inner : Text
  pub shape : marker ≡ x ∷ inner ++ y ∷ []

module _ (x y : ℕ) (value marker : Text) (b : Bracketed x y marker) where
  -- What a replaced text starts with, the text started with.
  starts_with-replace_from :
      (s w : Text)
      → Lacks x w
      → starts_with (replace_from 0 s value marker) w ≡ true
      → starts_with s w ≡ true
  unfolding replace_from
  starts_with-replace_from s [] l h = refl
  starts_with-replace_from [] (e ∷ w) l h = h
  starts_with-replace_from (d ∷ s) (e ∷ w) l h = elim (Bool-cases (starts_with (d ∷ s) value)) [
    | inl hit ↦ absurd (ground (arith, b.shape))
    | inr miss ↦ ground (arith, starts_with-replace_from s w l.1)
  ]

  -- A text that does not start with `v` does not after the replacement.
  cons-replace_from :
      (c : ℕ) (s v : Text)
      → Lacks x v
      → starts_with (c ∷ s) v ≡ false
      → starts_with (c ∷ replace_from 0 s value marker) v ≡ false
  cons-replace_from c s [] l h = h
  cons-replace_from c s (e ∷ w) l h = ground (arith, starts_with-replace_from s w l.1)

module _ (x y : ℕ) (v : Text) (ne : v ≢ []) (lx : Lacks x v) (ly : Lacks y v) where
  contains-brackets :
      (inner t : Text) → contains (x ∷ inner ++ y ∷ t) v ≡ (contains inner v || contains t v)
  contains-brackets inner t =
      contains-barrier x [] (inner ++ y ∷ t) v ne lx
      ∙ ground (arith, starts_with-nil v ne, contains-barrier y inner t v ne ly)

  -- Before a marker that holds no `v`, nothing new comes up.
  contains-marker :
      (marker t : Text)
      → Bracketed x y marker
      → contains marker v ≡ false
      → contains t v ≡ false
      → contains (marker ++ t) v ≡ false
  contains-marker marker t b out h =
      let split : contains (marker ++ t) v ≡ (contains b.inner v || contains t v) =
        ap (λ (m : Text). contains (m ++ t) v) b.shape
        ∙ ap (λ (m : Text). contains m v) (append_assoc (x ∷ b.inner) (y ∷ []) t)
        ∙ contains-brackets b.inner t in
      let clean : (contains b.inner v || contains [] v) ≡ false =
        sym (contains-brackets b.inner []) ∙ ap (λ (m : Text). contains m v) (sym b.shape) ∙ out in
      split ∙ ground (arith, ||-false (contains b.inner v) (contains [] v) clean)

  module _ (value marker : Text) (b : Bracketed x y marker) (out : contains marker v ≡ false) where
    -- A value that is absent stays absent.
    replace_from-keeps_absent :
        (k : ℕ) (s : Text)
        → contains s v ≡ false
        → contains (replace_from k s value marker) v ≡ false
    unfolding replace_from
    replace_from-keeps_absent k [] h = h
    replace_from-keeps_absent (suc k) (c ∷ s) h = replace_from-keeps_absent k s (||-false _ _ h).1
    replace_from-keeps_absent zero (c ∷ s) h =
        let (first, later) = ||-false (starts_with (c ∷ s) v) (contains s v) h in
        elim (Bool-cases (starts_with (c ∷ s) value)) [
          | inl hit ↦ rw hit (
              contains-marker marker _ b out (replace_from-keeps_absent (length value - 1) s later))
          | inr miss ↦
              rw (miss, cons-replace_from x y value marker b c s v lx first)
                (replace_from-keeps_absent 0 s later)
        ]

    pub replace-keeps_absent :
        (s : Text) → contains s v ≡ false → contains (replace s value marker) v ≡ false
    unfolding replace
    replace-keeps_absent s h = replace_from-keeps_absent 0 s h

  module _ (marker : Text) (b : Bracketed x y marker) (out : contains marker v ≡ false) where
    -- A replaced value is absent.
    replace_from-absent : (k : ℕ) (s : Text) → contains (replace_from k s v marker) v ≡ false
    unfolding replace_from
    replace_from-absent k [] = starts_with-nil v ne
    replace_from-absent (suc k) (c ∷ s) = replace_from-absent k s
    replace_from-absent zero (c ∷ s) = elim (Bool-cases (starts_with (c ∷ s) v)) [
      | inl hit ↦ rw hit (contains-marker marker _ b out (replace_from-absent (length v - 1) s))
      | inr miss ↦
          rw (miss, cons-replace_from x y v marker b c s v lx miss) (replace_from-absent 0 s)
    ]

    pub replace-absent : (s : Text) → contains (replace s v marker) v ≡ false
    unfolding replace
    replace-absent s = replace_from-absent 0 s

-- A value is found in nothing shorter than itself.
starts_with-length-le : (s v : Text) → starts_with s v ≡ true → length v ≤ length s
starts_with-length-le s [] h = omega arith
starts_with-length-le [] (c ∷ v) h = cc
starts_with-length-le (d ∷ s) (c ∷ v) h =
    omega (arith, starts_with-length-le s v (&&-true (d == c) (starts_with s v) h).1)

contains-length-le : (s v : Text) → contains s v ≡ true → length v ≤ length s
contains-length-le [] v h = starts_with-length-le [] v h
contains-length-le (c ∷ s) v h = elim (||-true (starts_with (c ∷ s) v) (contains s v) h) [
  | inl p ↦ starts_with-length-le (c ∷ s) v p
  | inr p ↦ omega (arith, contains-length-le s v p)
]

pub contains-shorter : (s v : Text) → length s < length v → contains s v ≡ false
contains-shorter s v h = elim (Bool-cases (contains s v)) [
  | inl p ↦ absurd (omega (arith, contains-length-le s v p))
  | inr p ↦ p
]
