-- ===== src/Jira.antt =====
-- src/jira/client.rs: reading the comments of an issue page by page. `page` is what
-- `get_comments_paginated` returns, with the retries of the client.
pub mod Comments
use jiraleaks.Base.{
  ℕ, zero, suc, ◌+◌, ◌-◌, ◌*◌, ◌/◌, ◌%◌, ◌^◌, ◌≤◌, ◌<◌, min, max, Bool, true, false, not, ◌&&◌,
  ◌||◌, Option, none, some, List, [], ◌∷◌, ◌++◌, map, append_assoc, append-nil, ◌≡◌, ◌≢◌, ◌↔◌, ◌⊎◌,
  inl, inr, refl, sym, ap, ◌∙◌, subst, arith, ltb, leb, ◌==◌, if◌then◌else◌, Bool-cases,
  Option-cases, eq_of_==, ==_refl, &&-true, ||-true, ||-false, length, get_elem?, take, drop,
  is_empty, any, all, All, In, here, there, length-append, length-take-le, length-reverse, reverse,
  reverse-append, In-append_left, In-append_right, In-append_split, All-append, All-In, Text, codes,
  text_eq, eq_of_text_eq, text_eq_refl, text_eq_of_eq, text_eq_comm, if_intro,
}
use jiraleaks.Base.{◌>>=◌, add_u64}
use jiraleaks.Error.{Result, ok, err}
use jiraleaks.Json.{Value}

pub record UserRef : Type 0 where
  pub display_name : Text
  pub name : Option Text
  pub email_address : Option Text

pub record Comment : Type 0 where
  pub id : Text
  pub author : Option UserRef
  pub body : Value
  pub created : Text
  pub updated : Text

pub record CommentPage : Type 0 where
  pub total : ℕ
  pub comments : List Comment

abbrev pub comments_page_size : ℕ
comments_page_size = 50

abbrev pub max_comment_pages : ℕ
max_comment_pages = 40

-- What the loop does with a page; `more` is the rest of the loop, and `none` a panic.
abbrev pub on_page :
    (overflow_checks : Bool) (more : ℕ → List Comment → Option (Result (List Comment))) (next : ℕ)
    (comments : List Comment)
    → CommentPage
    → Option (Result (List Comment))
on_page overflow_checks more next comments p =
    let fetched = length p.comments in
    let comments' = comments ++ p.comments in
    if fetched == 0 then some (ok comments') else do
      next' ← add_u64 overflow_checks next fetched
      if ltb 0 p.total && leb p.total next' then some (ok comments') else more next' comments'

abbrev pub on_answer :
    (overflow_checks : Bool) (more : ℕ → List Comment → Option (Result (List Comment))) (next : ℕ)
    (comments : List Comment)
    → Result CommentPage
    → Option (Result (List Comment))
on_answer overflow_checks more next comments (err error) = some (err error)
on_answer overflow_checks more next comments (ok p) = on_page overflow_checks more next comments p

module _ (overflow_checks : Bool) (page : (start_at max_results : ℕ) → Result CommentPage) where
  -- The loop, with the pages that it may still ask for.
  unfoldable pub comments_from : (pages next : ℕ) → List Comment → Option (Result (List Comment))
  comments_from zero next comments = some (ok comments)
  comments_from (suc pages) next comments =
      on_answer overflow_checks (λ next' comments'. comments_from pages next' comments') next
        comments (page next comments_page_size)

  unfoldable pub get_comments_after : (offset : ℕ) → Option (Result (List Comment))
  unfolding comments_from
  get_comments_after offset = comments_from max_comment_pages offset []
