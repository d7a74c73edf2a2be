-- ===== src/Entropy.antt =====
-- src/entropy.rs: Shannon entropy. The numbers `f64` are a parameter, a type with its operations.
use jiraleaks.Base.{
  ℕ, ◌+◌, Bool, List, [], ◌∷◌, ◌≡◌, refl, arith, ◌==◌, if◌then◌else◌, length, is_empty, Text,
}

pub record Float : Type 1 where
  pub F : Type 0
  pub of_ℕ : ℕ → F
  pub div : F → F → F
  pub mul : F → F → F
  pub sub : F → F → F
  pub log2 : F → F
  pub lt : F → F → Bool
  -- The constant `ENTROPY_BOOST_THRESHOLD`, 3.5.
  pub entropy_boost_threshold : F

-- `*freq.entry(ch).or_insert(0) += 1`.
unfoldable pub bump : ℕ → List (ℕ × ℕ) → List (ℕ × ℕ)
bump ch [] = (ch, 1) ∷ []
bump ch ((c, n) ∷ freq) = if c == ch then (c, n + 1) ∷ freq else (c, n) ∷ bump ch freq

-- The counts of the characters; the source iterates over them in an unspecified order, here it is
-- that of their first occurrence.
unfoldable pub frequencies : List (ℕ × ℕ) → Text → List (ℕ × ℕ)
unfolding bump
frequencies freq [] = freq
frequencies freq (ch ∷ s) = frequencies (bump ch freq) s

module _ (fl : Float) where
  open fl use {F, of_ℕ, div, mul, sub, log2}

  -- The loop over the counts, of a text of `len` characters.
  unfoldable pub entropy_from : ℕ → F → List (ℕ × ℕ) → F
  entropy_from len entropy [] = entropy
  entropy_from len entropy ((c, count) ∷ freq) =
      let p = div (of_ℕ count) (of_ℕ len) in entropy_from len (sub entropy (mul p (log2 p))) freq

  unfoldable pub shannon : Text → F
  unfolding entropy_from frequencies
  shannon s = if is_empty s then of_ℕ 0 else entropy_from (length s) (of_ℕ 0) (frequencies [] s)

-- The sum of the counts.
pub total : List (ℕ × ℕ) → ℕ
total [] = 0
total ((c, n) ∷ freq) = n + total freq

total-bump : (ch : ℕ) (freq : List (ℕ × ℕ)) → total (bump ch freq) ≡ total freq + 1
unfolding total bump
total-bump ch [] = refl
total-bump ch ((c, n) ∷ freq) = ground (arith, total-bump ch freq)

total-frequencies_from :
    (freq : List (ℕ × ℕ)) (s : Text) → total (frequencies freq s) ≡ total freq + length s
unfolding frequencies
total-frequencies_from freq [] = omega arith
total-frequencies_from freq (ch ∷ s) =
    omega (arith, total-frequencies_from (bump ch freq) s, total-bump ch freq)

-- The counts that the entropy is taken over add up to the number of characters.
total-frequencies : (s : Text) → total (frequencies [] s) ≡ length s
unfolding total
total-frequencies s = omega (arith, total-frequencies_from [] s)
