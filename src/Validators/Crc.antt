-- ===== src/Validators/Crc.antt =====
-- src/validators.rs: the range of `crc32`.
use Prim.Native.Nat.{bit_and, bit_xor, bit_and-bitwise, bit_xor-bitwise, digits, differ}
use native.Mathlib.Nat.{pow-suc}
use jiraleaks.Base.{
  ℕ, zero, suc, ◌/◌, ◌%◌, ◌^◌, ◌≤◌, ◌<◌, min, List, [], ◌∷◌, ◌≡◌, refl, arith, ◌==◌, if_intro,
  codes,
}
use jiraleaks.Validators.{crc_bit, crc_bits, crc_table, crc_from, crc32}

differ-lt : (x y : ℕ) → x < 2 → y < 2 → differ x y < 2
differ-lt zero y p q = q
differ-lt (suc x) zero p q = p
differ-lt (suc zero) (suc zero) p q = omega arith
differ-lt (suc zero) (suc (suc y)) p q = absurd (omega arith)
differ-lt (suc (suc x)) (suc y) p q = absurd (omega arith)

xor_digits-lt : (n k a b : ℕ) → a < 2 ^ k → b < 2 ^ k → digits (λ b. b) differ n a b < 2 ^ k
xor_digits-lt zero k a b p q = q
xor_digits-lt (suc n) k zero b p q = q
xor_digits-lt (suc n) zero (suc a) b p q = absurd (omega arith)
xor_digits-lt (suc n) (suc k) (suc a) b p q =
    let high =
      xor_digits-lt n k (suc a / 2) (b / 2) (omega (arith, pow-suc 2 k))
        (omega (arith, pow-suc 2 k)) in
    omega (arith, high, pow-suc 2 k, differ-lt (suc a % 2) (b % 2) (omega arith) (omega arith))

bit_xor-lt : (k a b : ℕ) → a < 2 ^ k → b < 2 ^ k → bit_xor a b < 2 ^ k
bit_xor-lt k a b p q = omega (arith, bit_xor-bitwise a b, xor_digits-lt a k a b p q)

and_digits-le : (n a b : ℕ) → digits (λ b. zero) min n a b ≤ b
and_digits-le zero a b = omega arith
and_digits-le (suc n) zero b = omega arith
and_digits-le (suc n) (suc a) b = omega (arith, and_digits-le n (suc a / 2) (b / 2))

bit_and-le : (a b : ℕ) → bit_and a b ≤ b
bit_and-le a b = omega (arith, bit_and-bitwise a b, and_digits-le a a b)

crc_bit-lt : (crc : ℕ) → crc < 2 ^ 32 → crc_bit crc < 2 ^ 32
unfolding crc_bit
crc_bit-lt crc h =
    if_intro (λ n. n < 2 ^ 32) (bit_and crc 1 == 0) _ _ (λ _. omega arith)
      (λ _. bit_xor-lt 32 (crc / 2) 0xedb88320 (omega arith) (omega arith))

crc_bits-lt : (rounds crc : ℕ) → crc < 2 ^ 32 → crc_bits rounds crc < 2 ^ 32
unfolding crc_bits
crc_bits-lt zero crc h = h
crc_bits-lt (suc rounds) crc h = crc_bits-lt rounds (crc_bit crc) (crc_bit-lt crc h)

crc_table-lt : (i : ℕ) → i < 2 ^ 32 → crc_table i < 2 ^ 32
unfolding crc_table
crc_table-lt i h = crc_bits-lt 8 i h

crc_from-lt : (crc : ℕ) (bytes : List ℕ) → crc < 2 ^ 32 → crc_from crc bytes < 2 ^ 32
unfolding crc_from
crc_from-lt crc [] h = h
crc_from-lt crc (b ∷ bytes) h =
    let i = bit_and (bit_xor crc b) 0xff in
    crc_from-lt (bit_xor (crc / 256) (crc_table i)) bytes (
      bit_xor-lt 32 (crc / 256) (crc_table i) (omega arith)
        (crc_table-lt i (omega (arith, bit_and-le (bit_xor crc b) 0xff))))

-- The checksum is a 32-bit number.
pub crc32-lt : (bytes : List ℕ) → crc32 bytes < 2 ^ 32
unfolding crc32
crc32-lt bytes =
    bit_xor-lt 32 (crc_from 0xffffffff bytes) 0xffffffff
      (crc_from-lt 0xffffffff bytes (omega arith)) (omega arith)

-- The check value of CRC-32 with the polynomial 0xedb88320.
check_value : crc32 (codes "123456789") ≡ 0xcbf43926
unfolding crc32
check_value = refl
