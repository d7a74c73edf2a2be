-- ===== src/Allowlist/Scope.antt =====
-- The field scope of an allowlist record.
use jiraleaks.Base.{
  ℕ, true, ◌||◌, ◌∷◌, ◌++◌, ◌≡◌, ◌↔◌, ◌⊎◌, inl, inr, refl, sym, arith, ◌==◌, Bool-cases,
  Option-cases, ||-true, Text, codes, text_eq, eq_of_text_eq, text_eq_of_eq,
}
use jiraleaks.Text.Find.{starts_with, strip_prefix}
use jiraleaks.Text.Find.Prefix.{strip_prefix_sound, strip_prefix-append, starts_with_sound}
use jiraleaks.Allowlist.{field_scope_matches}

-- A path is in a scope if it is the scope, or goes on behind it with a dot or a bracket.
abbrev pub InScope : Text → Text → Type 0
InScope scope path =
    (path ≡ scope)
    ⊎ ((rest : Text) × ((path ≡ scope ++ b'.' ∷ rest) ⊎ (path ≡ scope ++ b'[' ∷ rest)))

InScope-of_rest :
    (scope path rest : Text)
    → path ≡ scope ++ rest
    → (starts_with rest (codes ".") || starts_with rest (codes "[")) ≡ true
    → InScope scope path
InScope-of_rest scope path rest e h =
    elim (||-true (starts_with rest (codes ".")) (starts_with rest (codes "[")) h) [
      | inl dot ↦ let (r, q) = starts_with_sound rest (codes ".") dot in inr (r, inl (cc))
      | inr bracket ↦ let (r, q) = starts_with_sound rest (codes "[") bracket in inr (r, inr (cc))
    ]

field_scope_matches_sound :
    (scope path : Text) → field_scope_matches scope path ≡ true → InScope scope path
unfolding field_scope_matches
field_scope_matches_sound scope path h = elim (Bool-cases (text_eq scope path)) [
  | inl same ↦ inl (sym (eq_of_text_eq scope path same))
  | inr other ↦ elim (Option-cases (strip_prefix path scope)) [
    | inl miss ↦ absurd (ground arith)
    | inr (rest, hit) ↦
        InScope-of_rest scope path rest (strip_prefix_sound path scope rest hit) (ground arith)
  ]
]

field_scope_matches-append :
    (scope rest : Text) (c : ℕ)
    → ((c == b'.') || (c == b'[')) ≡ true
    → field_scope_matches scope (scope ++ c ∷ rest) ≡ true
unfolding field_scope_matches
field_scope_matches-append scope rest c h = ground (arith, strip_prefix-append scope (c ∷ rest))

field_scope_matches_complete :
    (scope path : Text) → InScope scope path → field_scope_matches scope path ≡ true
field_scope_matches_complete scope path (inl e) =
    unfold field_scope_matches in ground (arith, text_eq_of_eq scope path (sym e))
field_scope_matches_complete scope path (inr (rest, inl e)) =
    rw e (field_scope_matches-append scope rest b'.' refl)
field_scope_matches_complete scope path (inr (rest, inr e)) =
    rw e (field_scope_matches-append scope rest b'[' refl)

-- A scope admits exactly the path that it names and the paths below: those that go on behind it
-- with a dot or an opening bracket.
pub field_scope_matches_iff :
    (scope path : Text) → (field_scope_matches scope path ≡ true) ↔ InScope scope path
field_scope_matches_iff scope path =
    (field_scope_matches_sound scope path, field_scope_matches_complete scope path)
