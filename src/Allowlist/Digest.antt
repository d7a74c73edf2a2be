-- ===== src/Allowlist/Digest.antt =====
-- The digest of an allowlist record against the digests that the scan computes.
use jiraleaks.Base.{
  ℕ, ◌+◌, ◌-◌, ◌*◌, ◌/◌, ◌%◌, ◌<◌, true, some, List, [], ◌∷◌, map, ◌≡◌, refl, arith, ltb,
  if◌then◌else◌, length, all, All, Text, codes,
}
use jiraleaks.Text.Find.Prefix.{strip_prefix-append}
use jiraleaks.Text.Bytes.{byte_len, len_utf8}
use jiraleaks.Hash.{encode, secret_hash, IsByte}
use jiraleaks.Allowlist.{bare, is_ascii_hexdigit, to_ascii_lowercase, normalize_sha256}

abbrev digit : ℕ → ℕ
digit n = if ltb n 10 then b'0' + n else b'a' + (n - 10)

hexdigit-digit : (n : ℕ) → n < 16 → is_ascii_hexdigit (digit n) ≡ true
hexdigit-digit n h = ground arith

lowercase-digit : (n : ℕ) → n < 16 → to_ascii_lowercase (digit n) ≡ digit n
lowercase-digit n h = ground arith

len_utf8-digit : (n : ℕ) → n < 16 → len_utf8 (digit n) ≡ 1
unfolding len_utf8
len_utf8-digit n h = ground arith

hexdigits-encode : (bs : List ℕ) → All IsByte bs → all is_ascii_hexdigit (encode bs) ≡ true
unfolding encode
hexdigits-encode [] _ = refl
hexdigits-encode (b ∷ bs) (p, ps) =
    rw (hexdigit-digit (b / 16) (omega arith), hexdigit-digit (b % 16) (omega arith))
      (hexdigits-encode bs ps)

lowercase-encode : (bs : List ℕ) → All IsByte bs → map to_ascii_lowercase (encode bs) ≡ encode bs
unfolding encode
lowercase-encode [] _ = refl
lowercase-encode (b ∷ bs) (p, ps) = cc (
  lowercase-digit (b / 16) (omega arith),
  lowercase-digit (b % 16) (omega arith),
  lowercase-encode bs ps,
)

byte_len-encode : (bs : List ℕ) → All IsByte bs → byte_len (encode bs) ≡ 2 * length bs
unfolding encode byte_len
byte_len-encode [] _ = omega arith
byte_len-encode (b ∷ bs) (p, ps) = omega (
  arith,
  len_utf8-digit (b / 16) (omega arith),
  len_utf8-digit (b % 16) (omega arith),
  byte_len-encode bs ps,
)

-- The hash that the scan writes for a secret, digest prefix included, is accepted as the digest of
-- an allowlist record and read as the digits that the lookup compares, for a digest of 32 bytes.
pub normalize_sha256-secret_hash :
    (digest : Text → List ℕ) (s : Text)
    → length (digest s) ≡ 32
    → All IsByte (digest s)
    → (normalize_sha256 (secret_hash digest s) ≡ some (bare (secret_hash digest s)))
unfolding normalize_sha256
normalize_sha256-secret_hash digest s size bytes =
    unfold secret_hash in
    rw (strip_prefix-append (codes "sha256:") (encode (digest s))) (
      rw
        (
          byte_len-encode (digest s) bytes,
          size,
          hexdigits-encode (digest s) bytes,
          lowercase-encode (digest s) bytes,
        )
        refl)
