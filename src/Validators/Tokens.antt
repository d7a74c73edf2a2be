-- ===== src/Validators/Tokens.antt =====
-- The base-62 checksum and the bounds of the token validators.
use jiraleaks.Base.{
  ℕ, zero, suc, ◌+◌, ◌-◌, ◌/◌, ◌^◌, ◌≤◌, ◌<◌, none, some, [], ◌∷◌, ◌++◌, ◌≡◌, refl, ◌∙◌, arith,
  length, length-reverse, Text, codes, text_eq,
}
use native.Mathlib.Nat.{pow-suc}
use jiraleaks.Base.{Bool, true, ◌↔◌, sym, ap, eq_of_text_eq, text_eq_refl}
use jiraleaks.Validators.Crc.{crc32-lt}
use jiraleaks.Validators.Base62.{
  base62_value, base62_value-padded, base62_value-inj, byte_len-base62,
}
use jiraleaks.Text.Bytes.{len_utf8, byte_len, take_bytes, as_bytes}
use jiraleaks.Text.Bytes.Boundary.{byte_len-append, take_bytes-append, drop_bytes-append}
use jiraleaks.Validators.{
  base62_digits, pad, to_base62_padded, find_strip, validate_github_rest, validate_github_token,
  crc32, validate,
}

length-base62_digits :
    (fuel value width : ℕ)
    → value < 62 ^ width
    → 0 < width
    → length (base62_digits fuel value) ≤ width
unfolding base62_digits
length-base62_digits zero value width h p = omega arith
length-base62_digits (suc fuel) value zero h p = absurd (omega arith)
length-base62_digits (suc fuel) value (suc zero) h p = ground arith
length-base62_digits (suc fuel) value (suc (suc width)) h p =
    let small : value / 62 < 62 ^ suc width = omega (arith, pow-suc 62 (suc width)) in
    ground (arith, length-base62_digits fuel (value / 62) (suc width) small (omega arith))

length-pad : (width : ℕ) (out : Text) → length out ≤ width → length (pad width out) ≡ width
unfolding pad
length-pad zero [] h = refl
length-pad zero (c ∷ out) h = absurd (omega arith)
length-pad (suc n) [] h = omega (arith, length-pad n [])
length-pad (suc n) (c ∷ out) h = omega (arith, length-pad n out)

-- For a width above 0, a checksum below `62 ^ width` is written with exactly `width` digits.
length-to_base62_padded :
    (value width : ℕ)
    → 0 < width
    → value < 62 ^ width
    → length (to_base62_padded value width) ≡ width
unfolding to_base62_padded
length-to_base62_padded value width p h =
    length-reverse (pad width (base62_digits 11 value))
    ∙ length-pad width _ (length-base62_digits 11 value width h p)

github_rest-append :
    (body checksum : Text)
    → byte_len checksum ≡ 6
    → 0 < byte_len body
    → validate_github_rest (body ++ checksum)
      ≡ some (text_eq checksum (to_base62_padded (crc32 (as_bytes body)) 6))
unfolding validate_github_rest
github_rest-append body checksum h p =
    let base : byte_len (body ++ checksum) - 6 ≡ byte_len body =
      omega (arith, byte_len-append body checksum) in
    ground (
      arith,
      byte_len-append body checksum,
      take_bytes-append body checksum,
      drop_bytes-append body checksum,
      base,
    )

-- A GitHub token `ghp_` whose last six bytes begin inside the first character of the rest makes
-- the validator panic: at least seven bytes follow the prefix, and fewer than six follow that
-- character.
pub validate_github_token_panics :
    (c : ℕ) (t : Text)
    → 7 ≤ len_utf8 c + byte_len t
    → byte_len t < 6
    → validate (codes "github_token_checksum") (codes "ghp_" ++ c ∷ t) ≡ none
unfolding validate validate_github_token validate_github_rest find_strip byte_len take_bytes
validate_github_token_panics c t h p = ground arith

github_token-append :
    (body checksum : Text)
    → byte_len checksum ≡ 6
    → 0 < byte_len body
    → validate (codes "github_token_checksum") (codes "ghp_" ++ (body ++ checksum))
      ≡ some (text_eq checksum (to_base62_padded (crc32 (as_bytes body)) 6))
unfolding validate validate_github_token validate_github_rest find_strip
github_token-append body checksum h p = github_rest-append body checksum h p

-- Six bytes are the digits of a checksum exactly if they stand for it in base 62.
is_checksum_iff :
    (checksum : Text) (v : ℕ)
    → byte_len checksum ≡ 6
    → v < 2 ^ 32
    → (text_eq checksum (to_base62_padded v 6) ≡ true) ↔ (base62_value checksum ≡ some v)
is_checksum_iff checksum v h small =
    let written = base62_value-padded v 6 (omega arith) in
    (
      λ same. ap base62_value (eq_of_text_eq checksum _ same) ∙ written,
      λ value.
          let six : length checksum ≡ length (to_base62_padded v 6) =
            sym (byte_len-base62 checksum v value)
            ∙ h
            ∙ sym (length-to_base62_padded v 6 (omega arith) (omega arith)) in
          let same = base62_value-inj checksum (to_base62_padded v 6) v six value written in
          ap (λ t. text_eq t (to_base62_padded v 6)) same ∙ text_eq_refl (to_base62_padded v 6),
    )

-- A GitHub token `ghp_` whose last six bytes begin at a character, as in ASCII, and are not all
-- that follows the prefix does not make the validator panic. It is accepted exactly if these six
-- are the checksum CRC-32 of what stands between the prefix and them, as a number in base 62 with
-- the digits 0 to 9, A to Z and a to z.
pub validate_github_token_total :
    (body checksum : Text)
    → byte_len checksum ≡ 6
    → 0 < byte_len body
    → (accepted : Bool) × (validate
          (codes "github_token_checksum")
          (codes "ghp_" ++ (body ++ checksum))
        ≡ some accepted)
      × ((accepted ≡ true) ↔ (base62_value checksum ≡ some (crc32 (as_bytes body))))
validate_github_token_total body checksum h p = (
  _,
  github_token-append body checksum h p,
  is_checksum_iff checksum (crc32 (as_bytes body)) h (crc32-lt (as_bytes body)),
)
