-- ===== src/Credpair/Pairs.antt =====
-- The hits of the proximity search against a search of every user for every password.
use jiraleaks.Base.{
  ℕ, zero, suc, ◌+◌, ◌-◌, ◌≤◌, max, Bool, true, false, List, [], ◌∷◌, ◌++◌, map, append_assoc,
  append-nil, ◌≡◌, ◌⊎◌, inl, inr, refl, sym, ap, ◌∙◌, subst, arith, leb, if◌then◌else◌, Bool-cases,
  length, take, drop, All, length-append, Text, if_intro,
}
use jiraleaks.Text.Bytes.{usize_max}
use jiraleaks.Credpair.{
  CredPairFormat, CredPairHit, max_hits_per_segment, insert_by_pos, sort_by_pos, count_before,
  count_upto, window_start, window_end, is_placeholder, hit_of, push_hit, push_users, pair_from,
  detect_proximity,
}
use jiraleaks.Credpair.Window.{
  IsSorted, sort_by_pos-IsSorted, count_before-drop, count_upto-drop, count_before_mono,
  count_upto_mono, count_before-upto, within, slice-within,
}

module _ {ℓ} {A : Type ℓ} where
  take-append_full : (n : ℕ) (xs ys : List A) → n ≤ length xs → take n (xs ++ ys) ≡ take n xs
  take-append_full zero xs ys h = refl
  take-append_full (suc n) [] ys h = absurd (omega arith)
  take-append_full (suc n) (x ∷ xs) ys h = ap (λ l. x ∷ l) (take-append_full n xs ys (omega arith))

  take-all : (n : ℕ) (xs : List A) → length xs ≤ n → take n xs ≡ xs
  take-all zero [] h = refl
  take-all zero (x ∷ xs) h = absurd (omega arith)
  take-all (suc n) [] h = refl
  take-all (suc n) (x ∷ xs) h = ap (λ l. x ∷ l) (take-all n xs (omega arith))

module _ (digest : Text → List ℕ) (lower : Text → Text) (field_path : Text) where
  abbrev hits_of : (password : Text) → List (ℕ × Text) → List CredPairHit
  hits_of password =
      map (λ (u : ℕ × Text). hit_of digest lower field_path CredPairFormat.proximity u.1 password)

  -- The hits of every password, without a bound: one for each user within its window.
  abbrev pub pairs : (users passwords : List (ℕ × Text)) → List CredPairHit
  pairs users [] = []
  pairs users (p ∷ passwords) =
      if is_placeholder digest lower field_path p.1
      then pairs users passwords
      else hits_of p.1 (within (window_start p.0) (window_end p.0) users) ++ pairs users passwords

  -- Pushing the hits of one password: all of them, or the first up to the bound.
  push_users-cases :
      (hits : List CredPairHit) (password : Text) (us : List (ℕ × Text))
      → length hits ≤ max_hits_per_segment
      → ((push_users digest lower field_path hits password us ≡ (hits ++ hits_of password us, true))
          × (length (hits ++ hits_of password us) ≤ max_hits_per_segment))
        ⊎ ((push_users digest lower field_path hits password us
              ≡ (take max_hits_per_segment (hits ++ hits_of password us), false))
            × (max_hits_per_segment ≤ length (hits ++ hits_of password us)))
  unfolding push_users push_hit
  push_users-cases hits password [] h =
      inl (ap (λ l. (l, true)) (sym (append-nil hits)), omega (arith, length-append hits []))
  push_users-cases hits password (u ∷ us) h =
      let hit = hit_of digest lower field_path CredPairFormat.proximity u.1 password in
      elim (Bool-cases (leb max_hits_per_segment (length hits))) [
        | inl full ↦
            let exact : max_hits_per_segment ≤ length hits = ground arith in
            inr (
              rw full (
                  ap (λ l. (l, false))
                    (sym (
                      take-append_full max_hits_per_segment hits (hits_of password (u ∷ us)) exact
                      ∙ take-all max_hits_per_segment hits h))),
              omega (arith, length-append hits (hits_of password (u ∷ us))),
            )
        | inr room ↦
            let fits : length (hits ++ hit ∷ []) ≤ max_hits_per_segment =
              ground (arith, length-append hits (hit ∷ [])) in
            let same = append_assoc hits (hit ∷ []) (hits_of password us) in
            elim (push_users-cases (hits ++ hit ∷ []) password us fits) [
              | inl (e, size) ↦ inl (
                rw room (e ∙ ap (λ l. (l, true)) same),
                subst (λ l. length l ≤ max_hits_per_segment) same size,
              )
              | inr (e, size) ↦ inr (
                rw room (e ∙ ap (λ l. (take max_hits_per_segment l, false)) same),
                subst (λ l. max_hits_per_segment ≤ length l) same size,
              )
            ]
      ]

  abbrev pub Bounded : List (ℕ × Text) → Type 0
  Bounded = All (λ (p : ℕ × Text). p.0 ≤ usize_max)

  pair_from-pairs :
      (users : List (ℕ × Text)) (low : ℕ) (passwords : List (ℕ × Text)) (lo hi : ℕ)
      (hits : List CredPairHit)
      → IsSorted 0 users
      → IsSorted low passwords
      → Bounded passwords
      → lo ≤ count_before (window_start low) users
      → hi ≤ count_upto (window_end low) users
      → length hits ≤ max_hits_per_segment
      → pair_from digest lower field_path users passwords lo hi hits
        ≡ take max_hits_per_segment (hits ++ pairs users passwords)
  unfolding pair_from
  pair_from-pairs users low [] lo hi hits su sp bounded hlo hhi size = sym (
      ap (λ l. take max_hits_per_segment l) (append-nil hits)
      ∙ take-all max_hits_per_segment hits size)
  pair_from-pairs users low ((p_pos, password) ∷ passwords) lo hi hits su (first, sp)
        (bound, bounded) hlo hhi size =
      let cb = count_before (window_start p_pos) users in
      let cu = count_upto (window_end p_pos) users in
      let lo_le : lo ≤ cb =
        omega
          (arith, count_before_mono (window_start low) (window_start p_pos) users (omega arith)) in
      let hi_le : hi ≤ cu =
        omega (arith, count_upto_mono (window_end low) (window_end p_pos) users (omega arith)) in
      let ordered : cb ≤ cu =
        count_before-upto (window_start p_pos) (window_end p_pos) users (omega arith) in
      let lo_end = count_before-drop (window_start p_pos) lo users lo_le in
      let hi_end = count_upto-drop (window_end p_pos) (max hi cb) users (omega arith) in
      let near = within (window_start p_pos) (window_end p_pos) users in
      let slice = slice-within (window_start p_pos) (window_end p_pos) 0 users (omega arith) su in
      let push : List (ℕ × Text) → List CredPairHit × Bool =
        λ us. push_users digest lower field_path hits password us in
      let branch : ℕ → ℕ → List CredPairHit × Bool → List CredPairHit =
        λ a b r. if r.1 then pair_from digest lower field_path users passwords a b r.0 else r.0 in
      let turn =
        ap
          (λ a. branch a (max hi a + count_upto (window_end p_pos) (drop (max hi a) users)) (
            push (
              take (max hi a + count_upto (window_end p_pos) (drop (max hi a) users) - a)
                (drop a users))))
          lo_end
        ∙ ap (λ b. branch cb b (push (take (b - cb) (drop cb users)))) hi_end
        ∙ ap (λ us. branch cb cu (push us)) slice in
      elim (Bool-cases (is_placeholder digest lower field_path password)) [
        | inl placeholder ↦
            rw placeholder
              (pair_from-pairs users p_pos passwords lo hi hits su sp bounded lo_le hi_le size)
        | inr real ↦ rw real (
            turn ∙ elim (push_users-cases hits password near size) [
              | inl (e, fits) ↦
                  ap (λ r. branch cb cu r) e
                  ∙ pair_from-pairs users p_pos passwords cb cu (hits ++ hits_of password near) su
                      sp bounded (omega arith) (omega arith) fits
                  ∙ ap (λ l. take max_hits_per_segment l)
                      (append_assoc hits (hits_of password near) (pairs users passwords))
              | inr (e, full) ↦
                  ap (λ r. branch cb cu r) e
                  ∙ sym (
                      take-append_full max_hits_per_segment (hits ++ hits_of password near)
                        (pairs users passwords) full)
                  ∙ ap (λ l. take max_hits_per_segment l)
                      (append_assoc hits (hits_of password near) (pairs users passwords))
            ])
      ]

  insert_by_pos-Bounded :
      (m : ℕ × Text) (ms : List (ℕ × Text))
      → m.0 ≤ usize_max
      → Bounded ms
      → Bounded (insert_by_pos m ms)
  unfolding insert_by_pos
  insert_by_pos-Bounded m [] h b = (h, tt)
  insert_by_pos-Bounded m (n ∷ ms) h (first, rest) =
      if_intro Bounded (leb m.0 n.0) (m ∷ n ∷ ms) (n ∷ insert_by_pos m ms) (λ _. (h, (first, rest)))
        (λ _. (first, insert_by_pos-Bounded m ms h rest))

  sort_by_pos-Bounded : (ms : List (ℕ × Text)) → Bounded ms → Bounded (sort_by_pos ms)
  unfolding sort_by_pos
  sort_by_pos-Bounded [] b = tt
  sort_by_pos-Bounded (m ∷ ms) (first, rest) =
      insert_by_pos-Bounded m (sort_by_pos ms) first (sort_by_pos-Bounded ms rest)

  -- If the positions fit a `usize` and the hits before are within the bound, the search with two
  -- cursors finds, in whatever order the matches come, a pair for each password
  -- that is no placeholder and each user in its window, in the order of the positions, and stops at
  -- the bound on hits: its result is the hits before and these pairs, cut to the bound.
  pub detect_proximity-pairs :
      (users passwords : List (ℕ × Text)) (hits : List CredPairHit)
      → Bounded passwords
      → length hits ≤ max_hits_per_segment
      → detect_proximity digest lower field_path users passwords hits
        ≡ take max_hits_per_segment (hits ++ pairs (sort_by_pos users) (sort_by_pos passwords))
  unfolding detect_proximity
  detect_proximity-pairs users passwords hits bounded size =
      pair_from-pairs (sort_by_pos users) 0 (sort_by_pos passwords) 0 0 hits
        (sort_by_pos-IsSorted users) (sort_by_pos-IsSorted passwords)
        (sort_by_pos-Bounded passwords bounded) (omega arith) (omega arith) size
