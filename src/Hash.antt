-- ===== src/Hash.antt =====
-- src/hash.rs: hashes of secrets and the hex encoder. `digest` stands for `Sha256::digest` of the
-- UTF-8 bytes of a text; it is a parameter, of the crate `sha2`.
use jiraleaks.Base.{
  ℕ, ◌+◌, ◌-◌, ◌*◌, ◌/◌, ◌%◌, ◌<◌, List, [], ◌∷◌, ◌++◌, ◌≡◌, refl, arith, ltb, if◌then◌else◌,
  length, All, Text, codes,
}

-- One digit of `{b:02x}`.
abbrev hex_digit : ℕ → ℕ
hex_digit n = if ltb n 10 then b'0' + n else b'a' + (n - 10)

-- `hex::encode`.
unfoldable pub encode : List ℕ → Text
encode [] = []
encode (b ∷ bytes) = hex_digit (b / 16) ∷ hex_digit (b % 16) ∷ encode bytes

module _ (digest : Text → List ℕ) where
  unfoldable pub secret_hash : Text → Text
  unfolding encode
  secret_hash s = codes "sha256:" ++ encode (digest s)

  unfoldable pub sha256_hex : Text → Text
  unfolding encode
  sha256_hex s = encode (digest s)

abbrev pub IsByte : ℕ → Type 0
IsByte b = b < 256

hex_digit-injective : (a b : ℕ) → a < 16 → b < 16 → hex_digit a ≡ hex_digit b → a ≡ b
hex_digit-injective a b p q h = ground arith

-- The hex form determines the bytes.
pub encode-injective :
    (xs ys : List ℕ) → All IsByte xs → All IsByte ys → encode xs ≡ encode ys → xs ≡ ys
unfolding encode
encode-injective [] [] _ _ h = refl
encode-injective [] (y ∷ ys) _ _ h = absurd (cc)
encode-injective (x ∷ xs) [] _ _ h = absurd (cc)
encode-injective (x ∷ xs) (y ∷ ys) (p, ps) (q, qs) h =
    let high : x / 16 ≡ y / 16 =
      hex_digit-injective (x / 16) (y / 16) (omega arith) (omega arith) (cc) in
    let low : x % 16 ≡ y % 16 =
      hex_digit-injective (x % 16) (y % 16) (omega arith) (omega arith) (cc) in
    let first : x ≡ y = omega arith in cc (first, encode-injective xs ys ps qs (cc))

-- Two digits for each byte: no leading zero is dropped.
pub length-encode : (xs : List ℕ) → length (encode xs) ≡ 2 * length xs
unfolding encode
length-encode [] = refl
length-encode (x ∷ xs) = omega (arith, length-encode xs)
