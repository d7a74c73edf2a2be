-- ===== src/Credpair/Bound.antt =====
-- The bound on the hits of a segment.
use jiraleaks.Base.{
  ℕ, ◌+◌, ◌-◌, ◌≤◌, max, Bool, false, ◌||◌, Option, none, some, List, [], ◌∷◌, ◌++◌, ◌≡◌, inl, inr,
  refl, ap, ◌∙◌, arith, leb, if◌then◌else◌, Bool-cases, Option-cases, length, take, drop, is_empty,
  length-append, Text, codes, if_intro,
}
use jiraleaks.Text.Bytes.{take_bytes, byte_len}
use jiraleaks.Credpair.{
  CredPairFormat, CredPairHit, max_hits_per_segment, count_before, count_upto, window_start,
  window_end, is_placeholder, hit_of, push_hit, push_users, pair_from, detect_proximity,
}
use jiraleaks.Credpair.Detect.{
  max_scan_bytes, max_matches_per_pattern, json_password_keys, json_username_keys,
  detect_url_userinfo, json_passwords, json_users, detect_json, Patterns, head, detect, detect_in,
  pair_seen,
}
use jiraleaks.Text.Find.{starts_with}
use jiraleaks.Text.Space.{trim_start}
use jiraleaks.Text.Bytes.Boundary.{floor-IsBoundary, take_bytes-append}

module _ (digest : Text → List ℕ) (lower : Text → Text) (field_path : Text) where
  abbrev IsBounded : List CredPairHit → Type 0
  IsBounded hits = length hits ≤ max_hits_per_segment

  push_hit-IsBounded :
      (hits : List CredPairHit) (username password : Text) (format : CredPairFormat)
      → IsBounded hits
      → IsBounded (push_hit digest lower field_path hits username password format).0
  unfolding push_hit
  push_hit-IsBounded hits username password format h =
      elim (Bool-cases (leb max_hits_per_segment (length hits))) [
        | inl full ↦ rw full h
        | inr room ↦ rw room (
            ground (
              arith,
              length-append hits (hit_of digest lower field_path format username password ∷ []),
            ))
      ]

  push_users-IsBounded :
      (hits : List CredPairHit) (password : Text) (users : List (ℕ × Text))
      → IsBounded hits
      → IsBounded (push_users digest lower field_path hits password users).0
  unfolding push_users
  push_users-IsBounded hits password [] h = h
  push_users-IsBounded hits password ((u_pos, username) ∷ users) h =
      let pushed = push_hit-IsBounded hits username password CredPairFormat.proximity h in
      let r = push_hit digest lower field_path hits username password CredPairFormat.proximity in
      if_intro (λ (x : List CredPairHit × Bool). IsBounded x.0) r.1
        (push_users digest lower field_path r.0 password users) (r.0, false)
        (λ _. push_users-IsBounded r.0 password users pushed) (λ _. pushed)

  pair_from-IsBounded :
      (users passwords : List (ℕ × Text)) (lo hi : ℕ) (hits : List CredPairHit)
      → IsBounded hits
      → IsBounded (pair_from digest lower field_path users passwords lo hi hits)
  unfolding pair_from
  pair_from-IsBounded users [] lo hi hits h = h
  pair_from-IsBounded users ((p_pos, password) ∷ passwords) lo hi hits h =
      let lo' = lo + count_before (window_start p_pos) (drop lo users) in
      let hi' = max hi lo' + count_upto (window_end p_pos) (drop (max hi lo') users) in
      let near = take (hi' - lo') (drop lo' users) in
      let r = push_users digest lower field_path hits password near in
      let pushed = push_users-IsBounded hits password near h in
      if_intro IsBounded (is_placeholder digest lower field_path password)
        (pair_from digest lower field_path users passwords lo hi hits)
        (if r.1 then pair_from digest lower field_path users passwords lo' hi' r.0 else r.0)
        (λ _. pair_from-IsBounded users passwords lo hi hits h)
        (λ _.
          if_intro IsBounded r.1 (pair_from digest lower field_path users passwords lo' hi' r.0) r.0
            (λ _. pair_from-IsBounded users passwords lo' hi' r.0 pushed) (λ _. pushed))

  detect_url_userinfo-IsBounded :
      (matches : List (Option Text × Option Text)) (hits : List CredPairHit)
      → IsBounded hits
      → IsBounded (detect_url_userinfo digest lower field_path matches hits)
  unfolding detect_url_userinfo
  detect_url_userinfo-IsBounded [] hits h = h
  detect_url_userinfo-IsBounded ((none, b) ∷ matches) hits h =
      detect_url_userinfo-IsBounded matches hits h
  detect_url_userinfo-IsBounded ((some a, none) ∷ matches) hits h =
      detect_url_userinfo-IsBounded matches hits h
  detect_url_userinfo-IsBounded ((some user, some password) ∷ matches) hits h =
      let r = push_hit digest lower field_path hits user password CredPairFormat.url_userinfo in
      let pushed = push_hit-IsBounded hits user password CredPairFormat.url_userinfo h in
      if_intro IsBounded (is_placeholder digest lower field_path password)
        (detect_url_userinfo digest lower field_path matches hits)
        (if r.1 then detect_url_userinfo digest lower field_path matches r.0 else r.0)
        (λ _. detect_url_userinfo-IsBounded matches hits h)
        (λ _.
          if_intro IsBounded r.1 (detect_url_userinfo digest lower field_path matches r.0) r.0
            (λ _. detect_url_userinfo-IsBounded matches r.0 pushed) (λ _. pushed))

  json_passwords-IsBounded :
      (get : Text → Option Text) (user : Text) (keys : List Text) (seen : List (Text × Text))
      (hits : List CredPairHit)
      → IsBounded hits
      → IsBounded (json_passwords digest lower field_path get user keys seen hits).0.1
  unfolding json_passwords
  json_passwords-IsBounded get user [] seen hits h = h
  json_passwords-IsBounded get user (pk ∷ keys) seen hits h =
      let skip = json_passwords-IsBounded get user keys seen hits h in
      elim (Option-cases (get pk)) [
        | inl missing ↦ rw (json_passwords, missing) skip
        | inr (pass, present) ↦
            let r = push_hit digest lower field_path hits user pass CredPairFormat.json in
            let pushed = push_hit-IsBounded hits user pass CredPairFormat.json h in
            let seen' = seen ++ (user, pass) ∷ [] in
            let next = json_passwords-IsBounded get user keys seen' r.0 pushed in
            let P : (List (Text × Text) × List CredPairHit) × Bool → Type 0 =
              λ x. IsBounded x.0.1 in
            let again = json_passwords digest lower field_path get user keys in
            rw (json_passwords, present)
              (if_intro P (is_empty pass || is_placeholder digest lower field_path pass)
                (again seen hits)
                (if pair_seen digest lower field_path seen user pass
                  then again seen hits
                  else if r.1
                  then again seen' r.0
                  else ((seen', r.0), false))
                (λ _. skip)
                (λ _.
                  if_intro P (pair_seen digest lower field_path seen user pass) (again seen hits)
                    (if r.1 then again seen' r.0 else ((seen', r.0), false)) (λ _. skip)
                    (λ _.
                      if_intro P r.1 (again seen' r.0) ((seen', r.0), false) (λ _. next)
                        (λ _. pushed))))
      ]

  json_users-IsBounded :
      (get : Text → Option Text) (keys : List Text) (seen : List (Text × Text))
      (hits : List CredPairHit)
      → IsBounded hits
      → IsBounded (json_users digest lower field_path get keys seen hits)
  unfolding json_users
  json_users-IsBounded get [] seen hits h = h
  json_users-IsBounded get (uk ∷ keys) seen hits h =
      let skip = json_users-IsBounded get keys seen hits h in
      elim (Option-cases (get uk)) [
        | inl missing ↦ rw (json_users, missing) skip
        | inr (user, present) ↦
            let r = json_passwords digest lower field_path get user json_password_keys seen hits in
            let pushed = json_passwords-IsBounded get user json_password_keys seen hits h in
            let next = json_users-IsBounded get keys r.0.0 r.0.1 pushed in
            let again = json_users digest lower field_path get keys in
            rw (json_users, present)
              (if_intro IsBounded (is_empty user) (again seen hits)
                (if r.1 then again r.0.0 r.0.1 else r.0.1) (λ _. skip)
                (λ _. if_intro IsBounded r.1 (again r.0.0 r.0.1) r.0.1 (λ _. next) (λ _. pushed)))
      ]

  detect_json-IsBounded :
      (parse : Text → Option (Text → Option Text)) (text : Text) (hits : List CredPairHit)
      → IsBounded hits
      → IsBounded (detect_json digest lower field_path parse text hits)
  unfolding detect_json
  detect_json-IsBounded parse text hits h =
      elim (Bool-cases (starts_with (trim_start text) (codes "{"))) [
        | inr other ↦ rw other h
        | inl object ↦ elim (Option-cases (parse text)) [
          | inl failed ↦ rw (object, failed) h
          | inr (get, parsed) ↦
              rw (object, parsed) (json_users-IsBounded get json_username_keys [] hits h)
        ]
      ]

  head_total : (text : Text) (max_bytes : ℕ) → (start : Text) × (head text max_bytes ≡ some start)
  unfolding head
  head_total text max_bytes = elim (Bool-cases (leb (byte_len text) max_bytes)) [
    | inl short ↦ (text, rw short refl)
    | inr long ↦
        let cut = floor-IsBoundary text max_bytes in
        (
          cut.before,
          rw long (
              ap (λ i. take_bytes text i) cut.offset
              ∙ ap (λ t. take_bytes t (byte_len cut.before)) cut.split
              ∙ take_bytes-append cut.before cut.after),
        )
  ]

  -- The detector does not panic on any segment, and gives no more hits than the bound, whatever the
  -- patterns match and the segment holds.
  pub detect-IsBounded :
      (patterns : Patterns) (parse : Text → Option (Text → Option Text)) (text : Text)
      → (hits : List CredPairHit) × (detect digest lower field_path patterns parse text ≡ some hits)
        × (length hits ≤ max_hits_per_segment)
  unfolding detect detect_proximity
  detect-IsBounded patterns parse text =
      let (start, e) = head_total text max_scan_bytes in
      (
        detect_in digest lower field_path patterns parse start,
        rw (detect, e) refl,
        detect_json-IsBounded parse start _ (
            pair_from-IsBounded _ _ 0 0 _ (
              detect_url_userinfo-IsBounded
                (take max_matches_per_pattern (patterns.url_userinfo start)) [] (omega arith))),
      )
