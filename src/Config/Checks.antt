-- ===== src/Config/Checks.antt =====
-- The single checks of the validation, and when they are passed.
use jiraleaks.Base.{
  ℕ, ◌<◌, Bool, true, false, not, ◌&&◌, ◌||◌, Option, none, some, List, [], ◌∷◌, ◌≡◌, ◌≢◌, ◌⊎◌, inl,
  inr, refl, sym, ap, ◌∙◌, arith, ◌==◌, if◌then◌else◌, Bool-cases, ||-true, ||-false, is_empty, All,
  Text, codes, text_eq, eq_of_text_eq, text_eq_of_eq,
}
use jiraleaks.Error.{ok, err, config}
use jiraleaks.Report.{unknown_format}
use jiraleaks.Config.{is_none, one_of, checks, first_violation, accepted_format, parse_names}

abbrev pub Passed : List (Bool × Text) → Type 0
Passed checks = All (λ (r : Bool × Text). r.0 ≡ false) checks

pub Passed-of_ok : (rules : List (Bool × Text)) → first_violation rules ≡ ok tt → Passed rules
Passed-of_ok [] e = tt
Passed-of_ok ((true, message) ∷ rules) e = absurd (ground arith)
Passed-of_ok ((false, message) ∷ rules) e = (refl, Passed-of_ok rules e)

pub ok_of_Passed : (rules : List (Bool × Text)) → Passed rules → first_violation rules ≡ ok tt
ok_of_Passed [] h = refl
ok_of_Passed ((violated, message) ∷ rules) (kept, h) =
    ap (λ b. if b then err (config message) else first_violation rules) kept ∙ ok_of_Passed rules h

pub nonempty : (s : Text) → is_empty s ≡ false → s ≢ []
nonempty s h e = absurd (ground (arith, ap is_empty e, h))

pub not-not : (b : Bool) → not b ≡ false → b ≡ true
not-not true h = refl
not-not false h = absurd (ground arith)

pub positive : (n : ℕ) → (n == 0) ≡ false → 0 < n
positive n h = ground arith

pub unless : (a b : Bool) → (a && b) ≡ false → b ≡ true → a ≡ false
unless a b h e = ground arith

pub some_of {ℓ} : {A : Type ℓ} (o : Option A) → is_none o ≡ false → (a : A) × (o ≡ some a)
some_of none h = absurd (ground arith)
some_of (some a) h = (a, refl)

-- The text that a list names.
pub named_one : (t s : Text) (b : Bool) → (text_eq t s || b) ≡ true → (s ≡ t) ⊎ (b ≡ true)
named_one t s b h = elim (||-true (text_eq t s) b h) [
  | inl same ↦ inl (sym (eq_of_text_eq t s same))
  | inr other ↦ inr other
]

pub one_of_two : (t u s : Text) → not (one_of (t ∷ u ∷ []) s) ≡ false → (s ≡ t) ⊎ (s ≡ u)
one_of_two t u s h = elim (named_one t s _ (not-not _ h)) [
  | inl first ↦ inl first
  | inr other ↦ elim (named_one u s false other) [
    | inl second ↦ inr second
    | inr never ↦ absurd (ground arith)
  ]
]

pub unless_left : (a b : Bool) → (a && b) ≡ false → a ≡ true → b ≡ false
unless_left a b h e = ground arith

pub has_some {ℓ} : {A : Type ℓ} (o : Option A) → is_none o ≡ false → o ≢ none
has_some o h e = absurd (ground (arith, ap is_none e, h))

pub authorised_of :
    (auth pat : Text) (email : Option Text)
    → (is_empty pat && not (text_eq auth (codes "none"))) ≡ false
    → (text_eq auth (codes "basic") && is_none email) ≡ false
    → not (one_of (codes "bearer" ∷ codes "basic" ∷ codes "none" ∷ []) auth) ≡ false
    → (auth ≡ codes "none")
      ⊎ ((pat ≢ []) × ((auth ≡ codes "bearer") ⊎ ((auth ≡ codes "basic") × (email ≢ none))))
authorised_of auth pat email p q r = elim (Bool-cases (text_eq auth (codes "none"))) [
  | inl free ↦ inl (eq_of_text_eq auth (codes "none") free)
  | inr token ↦ inr (
    nonempty pat (unless _ _ p (ap not token)),
    elim (named_one (codes "bearer") auth _ (not-not _ r)) [
      | inl bearer ↦ inl bearer
      | inr others ↦ elim (named_one (codes "basic") auth _ others) [
        | inl basic ↦ inr (basic, has_some email (q_of basic))
        | inr last ↦ absurd (other_of token last)
      ]
    ],
  )
]
  where
    q_of : auth ≡ codes "basic" → is_none email ≡ false
    q_of basic = unless_left _ _ q (text_eq_of_eq auth (codes "basic") basic)

    other_of :
        text_eq auth (codes "none") ≡ false → (text_eq (codes "none") auth || false) ≡ true → ⊥
    other_of token last = elim (named_one (codes "none") auth false last) [
      | inl free ↦ absurd (ground (arith, token, text_eq_of_eq auth (codes "none") free))
      | inr never ↦ absurd (ground arith)
    ]

pub accepted_of :
    (fs : List Text)
    → not (is_none (parse_names fs)) ≡ false
    → All (λ name. (is_empty name ≡ false) × (accepted_format name ≡ true)) fs
accepted_of [] h = tt
accepted_of (f ∷ fs) h = elim (Bool-cases (is_empty f || not (accepted_format f))) [
  | inl bad ↦ absurd (
      ground (
        arith,
        h,
        ap (λ b. not (is_none (if b then some (unknown_format f) else parse_names fs))) bad,
      ))
  | inr good ↦
      let (some_name, known) = ||-false (is_empty f) (not (accepted_format f)) good in
      (
        (some_name, not-not _ known),
        accepted_of fs (
            sym
              (ap (λ b. not (is_none (if b then some (unknown_format f) else parse_names fs))) good)
            ∙ h),
      )
]

pub not_empty : (s : Text) → s ≢ [] → is_empty s ≡ false
not_empty [] h = absurd (h refl)
not_empty (c ∷ s) h = refl

pub none_of {ℓ} : {A : Type ℓ} (o : Option A) → o ≢ none → is_none o ≡ false
none_of none h = absurd (h refl)
none_of (some a) h = refl

pub not_zero : (n : ℕ) → 0 < n → (n == 0) ≡ false
not_zero n h = ground arith

pub or_holds : (a b : Bool) → (a ≡ true) ⊎ (b ≡ true) → not (a || b) ≡ false
or_holds a b (inl h) = ground arith
or_holds a b (inr h) = ground arith

pub names_first : (t s : Text) (b : Bool) → s ≡ t → not (text_eq t s || b) ≡ false
names_first t s b e = or_holds _ _ (inl (text_eq_of_eq t s (sym e)))

pub names_later : (t s : Text) (b : Bool) → not b ≡ false → not (text_eq t s || b) ≡ false
names_later t s b e = or_holds _ _ (inr (not-not b e))

pub All-accepted :
    (fs : List Text)
    → All (λ name. (is_empty name ≡ false) × (accepted_format name ≡ true)) fs
    → not (is_none (parse_names fs)) ≡ false
All-accepted [] h = refl
All-accepted (f ∷ fs) ((some_name, known), h) =
    let good : (is_empty f || not (accepted_format f)) ≡ false = ground (arith, some_name, known) in
    ap (λ b. not (is_none (if b then some (unknown_format f) else parse_names fs))) good
    ∙ All-accepted fs h
