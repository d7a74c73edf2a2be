-- ===== src/Base/Slices.antt =====
-- Lemmas on the first elements of a list and on those after them.
use Prim.Native.Nat.{ℕ, zero, suc, ◌+◌, ◌-◌, ◌≤◌, ◌<◌}
use mathlib.Core.List.{List, [], ◌∷◌, ◌++◌}
use mathlib.Core.Path.{◌≡◌, refl, sym, ap, ◌∙◌}
use native.Mathlib.Omega.{arith}
use jiraleaks.Base.Lists.{length, take, drop}

module _ {ℓ} {A : Type ℓ} where
  pub take-nil : (n : ℕ) → ◌≡◌ {A = List A} (take n []) []
  take-nil zero = refl
  take-nil (suc n) = refl

  pub drop-nil : (n : ℕ) → ◌≡◌ {A = List A} (drop n []) []
  drop-nil zero = refl
  drop-nil (suc n) = refl

  pub take_add : (m n : ℕ) (xs : List A) → take (m + n) xs ≡ take m xs ++ take n (drop m xs)
  take_add zero n xs = ap (λ k. take k xs) (omega arith)
  take_add (suc m) n [] = take-nil (suc m + n) ∙ sym (take-nil n)
  take_add (suc m) n (x ∷ xs) =
      let shift : suc m + n ≡ suc (m + n) = omega arith in
      ap (λ k. take k (x ∷ xs)) shift ∙ ap (◌∷◌ x) (take_add m n xs)

  pub drop_add : (m n : ℕ) (xs : List A) → drop (m + n) xs ≡ drop n (drop m xs)
  drop_add zero n xs = ap (λ k. drop k xs) (omega arith)
  drop_add (suc m) n [] = drop-nil (suc m + n) ∙ sym (drop-nil n)
  drop_add (suc m) n (x ∷ xs) =
      let shift : suc m + n ≡ suc (m + n) = omega arith in
      ap (λ k. drop k (x ∷ xs)) shift ∙ drop_add m n xs

  pub drop-length-take : (m : ℕ) (xs : List A) → drop (length (take m xs)) xs ≡ drop m xs
  drop-length-take zero xs = refl
  drop-length-take (suc m) [] = refl
  drop-length-take (suc m) (x ∷ xs) = drop-length-take m xs

  pub drop_all : (n : ℕ) (xs : List A) → length xs ≤ n → drop n xs ≡ []
  drop_all n [] h = drop-nil n
  drop_all zero (x ∷ xs) h = absurd (omega arith)
  drop_all (suc n) (x ∷ xs) h = drop_all n xs (omega arith)

  pub empty_of_take : (m : ℕ) (xs : List A) → 0 < m → length (take m xs) ≡ 0 → xs ≡ []
  empty_of_take m [] h e = refl
  empty_of_take zero (x ∷ xs) h e = absurd (omega arith)
  empty_of_take (suc m) (x ∷ xs) h e = absurd (omega arith)

  pub length-drop : (n : ℕ) (xs : List A) → length (drop n xs) ≡ length xs - n
  length-drop n [] = ap length (drop-nil n) ∙ omega arith
  length-drop zero (x ∷ xs) = omega arith
  length-drop (suc n) (x ∷ xs) = omega (arith, length-drop n xs)

  pub take-append-drop : (n : ℕ) (xs : List A) → take n xs ++ drop n xs ≡ xs
  take-append-drop zero xs = refl
  take-append-drop (suc n) [] = refl
  take-append-drop (suc n) (x ∷ xs) = ap (◌∷◌ x) (take-append-drop n xs)

  pub take-append : (xs ys : List A) → take (length xs) (xs ++ ys) ≡ xs
  take-append [] ys = refl
  take-append (x ∷ xs) ys = ap (◌∷◌ x) (take-append xs ys)

  pub length-take-below : (n : ℕ) (xs : List A) → length (take n xs) ≤ length xs
  length-take-below zero xs = omega arith
  length-take-below (suc n) [] = omega arith
  length-take-below (suc n) (x ∷ xs) = omega (arith, length-take-below n xs)
