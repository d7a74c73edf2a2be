-- ===== src/Credpair/Detect.antt =====
-- src/credpair.rs: the searches in URLs and in JSON objects, and the whole of `detect`. What the
-- patterns match and what the JSON parser reads are parameters.
use jiraleaks.Base.{
  ℕ, ◌*◌, Bool, true, false, not, ◌&&◌, ◌||◌, Option, none, some, List, [], ◌∷◌, ◌++◌, leb,
  if◌then◌else◌, take, is_empty, any, Text, codes, text_eq,
}
use jiraleaks.Text.Find.{starts_with}
use jiraleaks.Text.Space.{trim_start}
use jiraleaks.Text.Bytes.{byte_len, floor_char_boundary, take_bytes}
use jiraleaks.Credpair.{CredPairFormat, CredPairHit, is_placeholder, push_hit, detect_proximity}

abbrev pub max_matches_per_pattern : ℕ
max_matches_per_pattern = 4096

abbrev pub max_scan_bytes : ℕ
max_scan_bytes = 64 * 1024

abbrev pub json_username_keys : List Text
json_username_keys =
    codes "username"
    ∷ codes "user"
    ∷ codes "login"
    ∷ codes "email"
    ∷ codes "client_id"
    ∷ codes "clientId"
    ∷ []

abbrev pub json_password_keys : List Text
json_password_keys =
    codes "password"
    ∷ codes "pass"
    ∷ codes "passwd"
    ∷ codes "pwd"
    ∷ codes "secret"
    ∷ codes "client_secret"
    ∷ codes "clientSecret"
    ∷ codes "api_key"
    ∷ codes "apiKey"
    ∷ []

-- The matches of the three patterns in a text.
pub record Patterns : Type 0 where
  pub url_userinfo : Text → List (Option Text × Option Text)
  pub username_key : Text → List (ℕ × Text)
  pub password_key : Text → List (ℕ × Text)

-- `head`: the loop backs off to the last character boundary.
unfoldable pub head : Text → ℕ → Option Text
unfolding byte_len floor_char_boundary take_bytes
head text max_bytes =
    if leb (byte_len text) max_bytes
    then some text
    else take_bytes text (floor_char_boundary text max_bytes)

module _ (digest : Text → List ℕ) (lower : Text → Text) (field_path : Text) where
  -- The groups of each match of the URL pattern, none where a group is missing.
  unfoldable pub detect_url_userinfo :
      List (Option Text × Option Text) → List CredPairHit → List CredPairHit
  unfolding push_hit is_placeholder
  detect_url_userinfo [] hits = hits
  detect_url_userinfo ((some user, some password) ∷ matches) hits =
      let (hits', go) =
        push_hit digest lower field_path hits user password CredPairFormat.url_userinfo in
      let skip = detect_url_userinfo matches hits in
      let next = detect_url_userinfo matches hits' in
      if is_placeholder digest lower field_path password then skip else if go then next else hits'
  detect_url_userinfo (_ ∷ matches) hits = detect_url_userinfo matches hits

  abbrev pub pair_seen : List (Text × Text) → Text → Text → Bool
  pair_seen seen user pass = any (λ (s : Text × Text). text_eq s.0 user && text_eq s.1 pass) seen

  -- The loop over the password keys: the pairs seen, the hits, and whether the caller goes on.
  -- `get` is `obj.get(key).and_then(|v| v.as_str())`.
  unfoldable pub json_passwords :
      (get : Text → Option Text) (user : Text)
      → List Text
      → List (Text × Text)
      → List CredPairHit
      → (List (Text × Text) × List CredPairHit) × Bool
  unfolding push_hit is_placeholder
  json_passwords get user [] seen hits = ((seen, hits), true)
  json_passwords get user (pk ∷ keys) seen hits =
      let skip = json_passwords get user keys seen hits in
      elim (get pk) [
        | none ↦ skip
        | some pass ↦
            let (hits', go) = push_hit digest lower field_path hits user pass CredPairFormat.json in
            let next = json_passwords get user keys (seen ++ (user, pass) ∷ []) hits' in
            if is_empty pass || is_placeholder digest lower field_path pass
            then skip
            else if pair_seen seen user pass
            then skip
            else if go
            then next
            else ((seen ++ (user, pass) ∷ [], hits'), false)
      ]

  unfoldable pub json_users :
      (get : Text → Option Text)
      → List Text
      → List (Text × Text)
      → List CredPairHit
      → List CredPairHit
  unfolding json_passwords
  json_users get [] seen hits = hits
  json_users get (uk ∷ keys) seen hits =
      let skip = json_users get keys seen hits in
      elim (get uk) [
        | none ↦ skip
        | some user ↦
            let ((seen', hits'), go) = json_passwords get user json_password_keys seen hits in
            let next = json_users get keys seen' hits' in
            if is_empty user then skip else if go then next else hits'
      ]

  -- `parse` reads a JSON object as its text fields; `none` is a failure or another value.
  unfoldable pub detect_json :
      (parse : Text → Option (Text → Option Text)) → Text → List CredPairHit → List CredPairHit
  unfolding json_users trim_start
  detect_json parse text hits =
      if not (starts_with (trim_start text) (codes "{"))
      then hits
      else elim (parse text) [ none ↦ hits | some get ↦ json_users get json_username_keys [] hits ]

  abbrev pub detect_in :
      Patterns → (parse : Text → Option (Text → Option Text)) → Text → List CredPairHit
  detect_in patterns parse text = detect_json parse text (
      detect_proximity digest lower field_path
        (take max_matches_per_pattern (patterns.username_key text))
        (take max_matches_per_pattern (patterns.password_key text))
        (detect_url_userinfo (take max_matches_per_pattern (patterns.url_userinfo text)) []))

  unfoldable pub detect :
      Patterns → (parse : Text → Option (Text → Option Text)) → Text → Option (List CredPairHit)
  unfolding detect_url_userinfo detect_json detect_proximity head
  detect patterns parse text = elim (head text max_scan_bytes) [
    | none ↦ none
    | some start ↦ some (detect_in patterns parse start)
  ]
