-- ===== src/Text/Find/Prefix.antt =====
-- What `strip_prefix` and `starts_with` say of a text.
use jiraleaks.Base.{
  true, some, [], ◌∷◌, ◌++◌, ◌≡◌, inl, inr, refl, arith, ◌==◌, Bool-cases, eq_of_==, &&-true, Text,
}
use jiraleaks.Text.Find.{starts_with, strip_prefix}

pub strip_prefix_sound : (s p r : Text) → strip_prefix s p ≡ some r → s ≡ p ++ r
strip_prefix_sound s [] r h = ground arith
strip_prefix_sound [] (c ∷ p) r h = absurd (cc)
strip_prefix_sound (d ∷ s) (c ∷ p) r h = elim (Bool-cases (d == c)) [
  | inl e ↦ cc (eq_of_== d c e, strip_prefix_sound s p r (ground arith))
  | inr e ↦ absurd (ground arith)
]

pub strip_prefix-append : (p r : Text) → strip_prefix (p ++ r) p ≡ some r
strip_prefix-append [] r = refl
strip_prefix-append (c ∷ p) r = ground (arith, strip_prefix-append p r)

pub starts_with_sound : (s p : Text) → starts_with s p ≡ true → (r : Text) × (s ≡ p ++ r)
starts_with_sound s [] h = (s, refl)
starts_with_sound [] (c ∷ p) h = absurd (cc)
starts_with_sound (d ∷ s) (c ∷ p) h =
    let (first, rest) = &&-true (d == c) (starts_with s p) h in
    let (r, e) = starts_with_sound s p rest in (r, cc (eq_of_== d c first, e))

pub starts_with-append : (p r : Text) → starts_with (p ++ r) p ≡ true
starts_with-append [] r = refl
starts_with-append (c ∷ p) r = ground (arith, starts_with-append p r)
