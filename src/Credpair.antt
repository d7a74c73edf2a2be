-- ===== src/Credpair.antt =====
-- src/credpair.rs: user names beside passwords. The spans that the patterns of the crate
-- `fancy_regex` capture are a parameter: positions in bytes with the captured texts. Sorting is
-- `sort_unstable_by_key`; matches with one position keep their order here.
pub mod Window
pub mod Pairs
pub mod Detect
pub mod Bound
use jiraleaks.Base.{
  ℕ, zero, suc, ◌+◌, ◌-◌, ◌*◌, ◌/◌, ◌%◌, ◌^◌, ◌≤◌, ◌<◌, min, max, Bool, true, false, not, ◌&&◌,
  ◌||◌, Option, none, some, List, [], ◌∷◌, ◌++◌, map, append_assoc, append-nil, ◌≡◌, ◌≢◌, ◌↔◌, ◌⊎◌,
  inl, inr, refl, sym, ap, ◌∙◌, subst, arith, ltb, leb, ◌==◌, if◌then◌else◌, Bool-cases,
  Option-cases, eq_of_==, ==_refl, &&-true, ||-true, ||-false, length, get_elem?, take, drop,
  is_empty, any, all, All, In, here, there, length-append, length-take-le, length-reverse, reverse,
  reverse-append, In-append_left, In-append_right, In-append_split, All-append, All-In, Text, codes,
  text_eq, eq_of_text_eq, text_eq_refl, text_eq_of_eq, text_eq_comm, if_intro,
}
use jiraleaks.Text.Bytes.{saturating_add}
use jiraleaks.Hash.{secret_hash}
use jiraleaks.Redact.{redact}
use jiraleaks.Candidate.{PlaceholderMode}
use jiraleaks.Candidate.Checks.{placeholder_matches}

abbrev pub proximity_window_bytes : ℕ
proximity_window_bytes = 200

abbrev pub max_hits_per_segment : ℕ
max_hits_per_segment = 256

pub data CredPairFormat : Type 0 where
  json url_userinfo proximity : CredPairFormat

pub record CredPairHit : Type 0 where
  pub username : Text
  pub redacted_password : Text
  pub password_hash : Text
  pub field_path : Text
  pub format : CredPairFormat

-- `sort_unstable_by_key(|(pos, _)| *pos)`.
unfoldable pub insert_by_pos : ℕ × Text → List (ℕ × Text) → List (ℕ × Text)
insert_by_pos m [] = m ∷ []
insert_by_pos m (n ∷ ms) =
    let rest = insert_by_pos m ms in if leb m.0 n.0 then m ∷ n ∷ ms else n ∷ rest

unfoldable pub sort_by_pos : List (ℕ × Text) → List (ℕ × Text)
unfolding insert_by_pos
sort_by_pos [] = []
sort_by_pos (m ∷ ms) = insert_by_pos m (sort_by_pos ms)

-- How far the cursors move: past the positions before `start`, past those up to `end`.
unfoldable pub count_before : (start : ℕ) → List (ℕ × Text) → ℕ
count_before start [] = 0
count_before start (u ∷ users) =
    let rest = count_before start users in if ltb u.0 start then suc rest else 0

unfoldable pub count_upto : (end : ℕ) → List (ℕ × Text) → ℕ
count_upto end [] = 0
count_upto end (u ∷ users) = let rest = count_upto end users in if leb u.0 end then suc rest else 0

abbrev pub window_start : ℕ → ℕ
window_start p_pos = p_pos - proximity_window_bytes

abbrev pub window_end : ℕ → ℕ
window_end p_pos = saturating_add p_pos proximity_window_bytes

module _ (digest : Text → List ℕ) (lower : Text → Text) (field_path : Text) where
  unfoldable pub is_placeholder : Text → Bool
  is_placeholder value = placeholder_matches lower PlaceholderMode.by_equality value

  unfoldable pub hit_of : CredPairFormat → (username password : Text) → CredPairHit
  hit_of format username password = record {
    username = username;
    redacted_password = redact password;
    password_hash = secret_hash digest password;
    field_path = field_path;
    format = format;
  }

  -- The hits behind a call, and whether the caller goes on.
  unfoldable pub push_hit :
      List CredPairHit → (username password : Text) → CredPairFormat → List CredPairHit × Bool
  push_hit hits username password format =
      if leb max_hits_per_segment (length hits)
      then (hits, false)
      else (hits ++ hit_of format username password ∷ [], true)

  -- The loop over the users of one window.
  unfoldable pub push_users :
      List CredPairHit → (password : Text) → List (ℕ × Text) → List CredPairHit × Bool
  unfolding push_hit
  push_users hits password [] = (hits, true)
  push_users hits password ((u_pos, username) ∷ users) =
      let (hits', go) = push_hit hits username password CredPairFormat.proximity in
      let rest = push_users hits' password users in if go then rest else (hits', false)

  -- The loop over the passwords, with both cursors.
  unfoldable pub pair_from :
      (users passwords : List (ℕ × Text)) (lo hi : ℕ) → List CredPairHit → List CredPairHit
  unfolding push_users count_before count_upto is_placeholder
  pair_from users [] lo hi hits = hits
  pair_from users ((p_pos, password) ∷ passwords) lo hi hits =
      let lo' = lo + count_before (window_start p_pos) (drop lo users) in
      let hi' = max hi lo' + count_upto (window_end p_pos) (drop (max hi lo') users) in
      let (hits', go) = push_users hits password (take (hi' - lo') (drop lo' users)) in
      let skip = pair_from users passwords lo hi hits in
      let next = pair_from users passwords lo' hi' hits' in
      if is_placeholder password then skip else if go then next else hits'

  unfoldable pub detect_proximity :
      (users passwords : List (ℕ × Text)) → List CredPairHit → List CredPairHit
  unfolding pair_from sort_by_pos
  detect_proximity users passwords hits =
      pair_from (sort_by_pos users) (sort_by_pos passwords) 0 0 hits
