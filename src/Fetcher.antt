-- ===== src/Fetcher.antt =====
-- src/fetcher.rs: the issues of a query, page by page. `search` is the client's `search` for the
-- query and the fields; the other parameters are what the checks of the cancellation see at a page
-- and at an issue, and whether the receiver is still there. `start_at` has 32 bits.
pub mod Pages
pub mod Paging
use jiraleaks.Base.{
  ℕ, zero, suc, ◌+◌, ◌-◌, ◌*◌, ◌/◌, ◌%◌, ◌^◌, ◌≤◌, ◌<◌, min, max, Bool, true, false, not, ◌&&◌,
  ◌||◌, Option, none, some, List, [], ◌∷◌, ◌++◌, map, append_assoc, append-nil, ◌≡◌, ◌≢◌, ◌↔◌, ◌⊎◌,
  inl, inr, refl, sym, ap, ◌∙◌, subst, arith, ltb, leb, ◌==◌, if◌then◌else◌, Bool-cases,
  Option-cases, eq_of_==, ==_refl, &&-true, ||-true, ||-false, length, get_elem?, take, drop,
  is_empty, any, all, All, In, here, there, length-append, length-take-le, length-reverse, reverse,
  reverse-append, In-append_left, In-append_right, In-append_split, All-append, All-In, Text, codes,
  text_eq, eq_of_text_eq, text_eq_refl, text_eq_of_eq, text_eq_comm, if_intro,
}
use jiraleaks.Error.{ScannerError, Result, ok, err}
use jiraleaks.Pipeline.Issue.{Issue}

pub record SearchPage : Type 0 where
  pub total : ℕ
  pub start_at : ℕ
  pub max_results : ℕ
  pub issues : List Issue

pub record FetchOptions : Type 0 where
  pub fields : List Text
  pub page_size : ℕ
  pub max_issues : ℕ
  pub concurrency : ℕ

-- What was sent over the channel, the total that was shown last, and what the task returns.
pub record Fetched : Type 0 where
  pub sent : List Issue
  pub issues_total : ℕ
  pub result : Result ℕ

module _ (options : FetchOptions) (search : (start_at page_size : ℕ) → Result SearchPage)
    (cancelled_at_page cancelled_at_issue accepts : ℕ → Bool) where
  abbrev pub limit_reached : (fetched : ℕ) → Bool
  limit_reached fetched = ltb 0 options.max_issues && leb options.max_issues fetched

  -- The loop over the issues of a page: how many are fetched, and those sent.
  unfoldable pub send_issues : List Issue → (fetched : ℕ) → List Issue → ℕ × List Issue
  send_issues [] fetched sent = (fetched, sent)
  send_issues (issue ∷ issues) fetched sent =
      let rest = send_issues issues (fetched + 1) (sent ++ issue ∷ []) in
      if cancelled_at_issue fetched || limit_reached fetched || not (accepts fetched)
      then (fetched, sent)
      else rest

  abbrev pub total_shown : ℕ → ℕ
  total_shown total = if ltb 0 options.max_issues then min total options.max_issues else total

  abbrev pub next_start : ℕ → ℕ
  next_start start_at = (start_at + options.page_size) % 2 ^ 32

  -- What follows a page; `more` is the rest of the loop.
  abbrev pub after_send :
      (more : ℕ → ℕ → List Issue → ℕ → Option Fetched) (total shown next : ℕ)
      → ℕ × List Issue
      → Option Fetched
  after_send more total shown next (fetched, sent) =
      let done = some (record { sent = sent; issues_total = shown; result = ok fetched }) in
      if limit_reached fetched
      then done
      else if leb total next
      then done
      else more next fetched sent shown

  abbrev pub on_page :
      (more : ℕ → ℕ → List Issue → ℕ → Option Fetched) (start_at fetched : ℕ)
      → List Issue
      → ℕ
      → Result SearchPage
      → Option Fetched
  on_page more start_at fetched sent shown (err error) =
      some (record { sent = sent; issues_total = shown; result = err error })
  on_page more start_at fetched sent shown (ok page) =
      after_send more page.total (total_shown page.total) (next_start start_at)
        (send_issues page.issues fetched sent)

  -- The loop over the pages; `none` is the fuel used up.
  unfoldable pub fetch_from :
      (fuel start_at fetched : ℕ) → List Issue → (shown : ℕ) → Option Fetched
  unfolding send_issues
  fetch_from zero start_at fetched sent shown = none
  fetch_from (suc fuel) start_at fetched sent shown =
      if cancelled_at_page start_at
      then some (record { sent = sent; issues_total = shown; result = ok fetched })
      else on_page
          (λ start_at' fetched' sent' shown'. fetch_from fuel start_at' fetched' sent' shown')
          start_at fetched sent shown (search start_at options.page_size)

  unfoldable pub fetch_issues_stream : (fuel : ℕ) → Option Fetched
  unfolding fetch_from
  fetch_issues_stream fuel = fetch_from fuel 0 0 [] 0
