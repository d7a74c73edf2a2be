-- ===== src/Jira/Comments.antt =====
-- The comments that the paging brings together are those of the thread.
use jiraleaks.Base.{
  ℕ, zero, suc, ◌+◌, ◌*◌, ◌<◌, ◌&&◌, List, [], ◌++◌, append_assoc, append-nil, ◌≡◌, sym, ap, ◌∙◌,
  arith, ltb, leb, ◌==◌, eq_of_==, length, take, drop, if_intro,
}
use jiraleaks.Base.{
  take-nil, drop-nil, take_add, drop_add, drop-length-take, drop_all, empty_of_take,
}
use jiraleaks.Base.{
  >>=-some, add_u64, add_u64-in_range, add_u64-unchecked, add_u64-none, Bool-cases, none, inl, inr,
  Option-cases, refl, if◌then◌else◌, ◌%◌, length-drop, length-take-below, Bool, ◌≤◌, ◌^◌, ◌-◌,
  Option, some, false,
}
use jiraleaks.Error.{Result, ok, err}
use jiraleaks.Jira.{
  Comment, CommentPage, comments_page_size, max_comment_pages, on_page, on_answer, comments_from,
  get_comments_after,
}

-- The documented behaviour of the endpoint: the number of comments in the thread, and of those from
-- the start on as many as the server gives at once. A thread has fewer comments than `u64` counts.
pub record Serves (thread : List Comment) (at_once : ℕ)
    (page : (start_at max_results : ℕ) → Result CommentPage) : Type 0 where
  pub some_at_once : 0 < at_once
  pub in_range : length thread < 2 ^ 64
  pub answers :
      (start_at : ℕ)
      → page start_at comments_page_size
        ≡ ok (record { total = length thread; comments = take at_once (drop start_at thread) })

-- Without overflow checks the loop never panics, whatever the server sends.
on_page-some :
    (more : ℕ → List Comment → Option (Result (List Comment))) (next : ℕ) (comments : List Comment)
    (p : CommentPage)
    → ((next' : ℕ) (comments' : List Comment)
        → (r : Result (List Comment)) × (more next' comments' ≡ some r))
    → (r : Result (List Comment)) × (on_page false more next comments p ≡ some r)
on_page-some more next comments p after =
    let fetched = length p.comments in
    if_intro (λ m. (r : Result (List Comment)) × (m ≡ some r)) (fetched == 0) _ _ (λ _. (_, refl))
      (λ _.
        let sum = add_u64-unchecked next fetched in
        let next' = (next + fetched) % 2 ^ 64 in
        let (r, e) : (r : Result (List Comment)) × ((if ltb 0 p.total && leb p.total next'
                then some (ok (comments ++ p.comments))
                else more next' (comments ++ p.comments))
              ≡ some r) =
          if_intro (λ m. (r : Result (List Comment)) × (m ≡ some r))
            (ltb 0 p.total && leb p.total next') _ _ (λ _. (_, refl))
            (λ _. after next' (comments ++ p.comments)) in
        (r, >>=-some _ sum ∙ e))

on_answer-some :
    (more : ℕ → List Comment → Option (Result (List Comment))) (next : ℕ) (comments : List Comment)
    (answer : Result CommentPage)
    → ((next' : ℕ) (comments' : List Comment)
        → (r : Result (List Comment)) × (more next' comments' ≡ some r))
    → (r : Result (List Comment)) × (on_answer false more next comments answer ≡ some r)
on_answer-some more next comments (err error) after = (_, refl)
on_answer-some more next comments (ok p) after = on_page-some more next comments p after

comments_from-some :
    (page : (start_at max_results : ℕ) → Result CommentPage) (pages next : ℕ)
    (comments : List Comment)
    → (r : Result (List Comment)) × (comments_from false page pages next comments ≡ some r)
unfolding comments_from
comments_from-some page zero next comments = (_, refl)
comments_from-some page (suc pages) next comments =
    on_answer-some (comments_from false page pages) next comments (page next comments_page_size)
      (λ next' comments'. comments_from-some page pages next' comments')

pub get_comments_after-some :
    (page : (start_at max_results : ℕ) → Result CommentPage) (offset : ℕ)
    → (r : Result (List Comment)) × (get_comments_after false page offset ≡ some r)
unfolding get_comments_after
get_comments_after-some page offset = comments_from-some page max_comment_pages offset []

-- The server gave a page whose end is above the range of `u64`.
pub record EndsOutside (page : (start_at max_results : ℕ) → Result CommentPage) : Type 0 where
  pub start : ℕ
  pub given : CommentPage
  pub answer : page start comments_page_size ≡ ok given
  pub outside : 2 ^ 64 ≤ start + length given.comments

module _ (overflow_checks : Bool) (page : (start_at max_results : ℕ) → Result CommentPage) where
  on_page-none :
      (more : ℕ → List Comment → Option (Result (List Comment))) (next : ℕ)
      (comments : List Comment) (p : CommentPage)
      → ((next' : ℕ) (comments' : List Comment) → more next' comments' ≡ none → EndsOutside page)
      → page next comments_page_size ≡ ok p
      → on_page overflow_checks more next comments p ≡ none
      → EndsOutside page
  on_page-none more next comments p after answer h = elim (Bool-cases (length p.comments == 0)) [
    | inl nothing ↦ absurd (ground arith)
    | inr some_fetched ↦ elim (Option-cases (add_u64 overflow_checks next (length p.comments))) [
      | inl panics ↦ record {
        start = next;
        given = p;
        answer = answer;
        outside = add_u64-none overflow_checks next (length p.comments) panics;
      }
      | inr (next', sum) ↦ elim (Bool-cases (ltb 0 p.total && leb p.total next')) [
        | inl complete ↦ absurd (ground arith)
        | inr going ↦ after next' (comments ++ p.comments) (ground arith)
      ]
    ]
  ]

  on_answer-none :
      (more : ℕ → List Comment → Option (Result (List Comment))) (next : ℕ)
      (comments : List Comment) (answer : Result CommentPage)
      → ((next' : ℕ) (comments' : List Comment) → more next' comments' ≡ none → EndsOutside page)
      → page next comments_page_size ≡ answer
      → on_answer overflow_checks more next comments answer ≡ none
      → EndsOutside page
  on_answer-none more next comments (err error) after answered h = absurd (cc)
  on_answer-none more next comments (ok p) after answered h =
      on_page-none more next comments p after answered h

  comments_from-none :
      (pages next : ℕ) (comments : List Comment)
      → comments_from overflow_checks page pages next comments ≡ none
      → EndsOutside page
  unfolding comments_from
  comments_from-none zero next comments h = absurd (cc)
  comments_from-none (suc pages) next comments h =
      on_answer-none (comments_from overflow_checks page pages) next comments _
        (λ next' comments' h'. comments_from-none pages next' comments' h') refl h

  -- A panic means that a page ends above the range.
  pub get_comments_after-none :
      (offset : ℕ) → get_comments_after overflow_checks page offset ≡ none → EndsOutside page
  unfolding get_comments_after
  get_comments_after-none offset h = comments_from-none max_comment_pages offset [] h

module _ (overflow_checks : Bool) (thread : List Comment) (at_once : ℕ)
    (page : (start_at max_results : ℕ) → Result CommentPage)
    (serves : Serves thread at_once page) where
  -- The end of the loop, where nothing follows what was fetched.
  last_page :
      (left next : ℕ) (comments : List Comment)
      → drop at_once (drop next thread) ≡ []
      → comments ++ take at_once (drop next thread)
        ≡ comments ++ take (at_once + left) (drop next thread)
  last_page left next comments over =
      ap (λ xs. comments ++ xs)
        (sym (append-nil _)
          ∙ ap (λ xs. take at_once (drop next thread) ++ xs)
              (sym (ap (λ xs. take left xs) over ∙ take-nil left))
          ∙ sym (take_add at_once left (drop next thread)))

  drop_fetched :
      (next : ℕ)
      → drop (next + length (take at_once (drop next thread))) thread
        ≡ drop at_once (drop next thread)
  drop_fetched next = drop_add next _ thread ∙ drop-length-take at_once (drop next thread)

  -- A page that is not empty ends within the thread.
  end_in_range :
      (next : ℕ)
      → (length (take at_once (drop next thread)) == 0) ≡ false
      → add_u64 overflow_checks next (length (take at_once (drop next thread)))
        ≡ some (next + length (take at_once (drop next thread)))
  end_in_range next some_fetched =
      let fetched = length (take at_once (drop next thread)) in
      let below : fetched ≤ length thread - next =
        omega (arith, length-take-below at_once (drop next thread), length-drop next thread) in
      let positive : 0 < fetched = ground (arith, some_fetched) in
      add_u64-in_range overflow_checks next fetched (omega (arith, serves.in_range))

  page_lem :
      (pages next : ℕ) (comments : List Comment)
      (more : ℕ → List Comment → Option (Result (List Comment)))
      → ((next' : ℕ) (comments' : List Comment)
          → more next' comments'
            ≡ some (ok (comments' ++ take (pages * at_once) (drop next' thread))))
      → on_page overflow_checks more next comments
          (record { total = length thread; comments = take at_once (drop next thread) })
        ≡ some (ok (comments ++ take (at_once + pages * at_once) (drop next thread)))
  page_lem pages next comments more after =
      let fetched = length (take at_once (drop next thread)) in
      let done = λ (xs : List Comment). some (ok xs) in
      if_intro
        (λ r. r ≡ some (ok (comments ++ take (at_once + pages * at_once) (drop next thread))))
        (fetched == 0) _ _
        (λ none_left. ap done (
          last_page (pages * at_once) next comments (
            ap (λ xs. drop at_once xs)
              (empty_of_take at_once _ serves.some_at_once (eq_of_== _ 0 none_left))
            ∙ drop-nil at_once)))
        (λ some_fetched.
          >>=-some _ (end_in_range next some_fetched)
          ∙ if_intro
              (λ r. r ≡ some (ok (comments ++ take (at_once + pages * at_once) (drop next thread))))
              (ltb 0 (length thread) && leb (length thread) (next + fetched)) _ _
              (λ complete. ap done (
                last_page (pages * at_once) next comments
                  (sym (drop_fetched next) ∙ drop_all (next + fetched) thread (ground arith))))
              (λ _.
                after (next + fetched) _
                ∙ ap done (
                    append_assoc comments _ _
                    ∙ ap
                        (λ xs.
                          comments
                          ++ (take at_once (drop next thread) ++ take (pages * at_once) xs))
                        (drop_fetched next)
                    ∙ ap (λ xs. comments ++ xs)
                        (sym (take_add at_once (pages * at_once) (drop next thread))))))

  comments_from_lem :
      (pages next : ℕ) (comments : List Comment)
      → comments_from overflow_checks page pages next comments
        ≡ some (ok (comments ++ take (pages * at_once) (drop next thread)))
  unfolding comments_from
  comments_from_lem zero next comments =
      let nothing : 0 * at_once ≡ 0 = omega arith in
      ap (λ xs. some (ok xs))
        (sym (append-nil comments) ∙ ap (λ k. comments ++ take k (drop next thread)) (sym nothing))
  comments_from_lem (suc pages) next comments =
      ap
        (λ r.
          on_answer overflow_checks
            (λ next' comments'. comments_from overflow_checks page pages next' comments') next
            comments r)
        (serves.answers next)
      ∙ page_lem pages next comments (comments_from overflow_checks page pages)
          (λ next' comments'. comments_from_lem pages next' comments')
      ∙ ap (λ k. some (ok (comments ++ take k (drop next thread)))) (omega arith)

  -- If the server gives the comments of a thread some at a time, however few it gives at once, and
  -- the thread has fewer than 2^64 of them, then what comes back, without a panic, are the comments
  -- after the offset, in order and each once: all of them, or as many as the limit of pages allows.
  pub get_comments_after_lem :
      (offset : ℕ)
      → get_comments_after overflow_checks page offset
        ≡ some (ok (take (max_comment_pages * at_once) (drop offset thread)))
  unfolding get_comments_after
  get_comments_after_lem offset = comments_from_lem max_comment_pages offset []
