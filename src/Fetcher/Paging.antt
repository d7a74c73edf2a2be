-- ===== src/Fetcher/Paging.antt =====
-- Which issues of a query the paging brings: all of them from a server that gives whole pages, and
-- too few from one that gives fewer issues at once than were asked for.
use jiraleaks.Base.{
  ℕ, zero, suc, ◌+◌, ◌^◌, ◌≤◌, ◌<◌, Bool, true, false, ◌||◌, Option, some, List, [], ◌∷◌, ◌++◌,
  append_assoc, append-nil, ◌≡◌, refl, sym, ap, ◌∙◌, arith, leb, if◌then◌else◌, length, take, drop,
  length-append, if_intro,
}
use jiraleaks.Base.{drop_add, drop_all}
use jiraleaks.Error.{Result, ok}
use jiraleaks.Pipeline.Issue.{Issue}
use jiraleaks.Fetcher.{
  SearchPage, FetchOptions, Fetched, limit_reached, send_issues, total_shown, next_start,
  after_send, on_page, fetch_from, fetch_issues_stream,
}
use jiraleaks.Fetcher.Pages.{pages_of, pages_of-nil, pages_of-whole, pages_of-short}

abbrev pub never : ℕ → Bool
never n = false

abbrev pub always : ℕ → Bool
always n = true

-- A server that answers with the total and, of the issues from the start on, the first `at_once`.
pub record Serves (issues : List Issue) (at_once : ℕ)
    (search : (start_at page_size : ℕ) → Result SearchPage) : Type 0 where
  pub answers :
      (start_at page_size : ℕ)
      → search start_at page_size
        ≡ ok (record {
          total = length issues;
          start_at = start_at;
          max_results = at_once;
          issues = take at_once (drop start_at issues);
        })

-- The settings under which the paging is looked at: no limit on the issues, pages that are not
-- empty, and few enough issues for 32 bits.
pub record IsUnlimited (options : FetchOptions) (issues : List Issue) : Type 0 where
  pub no_limit : options.max_issues ≡ 0
  pub some_page : 0 < options.page_size
  pub room : length issues + options.page_size < 2 ^ 32

module _ (options : FetchOptions) (issues : List Issue) (at_once : ℕ)
    (search : (start_at page_size : ℕ) → Result SearchPage) (serves : Serves issues at_once search)
    (unlimited : IsUnlimited options issues) where
  limit_never : (n : ℕ) → limit_reached options search never never always n ≡ false
  limit_never n = ground (arith, unlimited.no_limit)

  send_issues_lem :
      (page : List Issue) (fetched : ℕ) (sent : List Issue)
      → send_issues options search never never always page fetched sent
        ≡ (fetched + length page, sent ++ page)
  unfolding send_issues
  send_issues_lem [] fetched sent =
      ap (λ n. (n, sent)) (omega arith) ∙ ap (λ xs. (fetched + 0, xs)) (sym (append-nil sent))
  send_issues_lem (issue ∷ page) fetched sent =
      ap
        (λ b.
          if b || false
          then (fetched, sent)
          else send_issues options search never never always page (fetched + 1)
              (sent ++ issue ∷ []))
        (limit_never fetched)
      ∙ send_issues_lem page (fetched + 1) (sent ++ issue ∷ [])
      ∙ ap (λ n. (n, (sent ++ issue ∷ []) ++ page)) (omega arith)
      ∙ ap (λ xs. (fetched + suc (length page), xs)) (append_assoc sent (issue ∷ []) page)

  abbrev whole_run : (sent found : List Issue) (fetched : ℕ) → Option Fetched
  whole_run sent found fetched = some (record {
    sent = sent ++ found;
    issues_total = length issues;
    result = ok (fetched + length found);
  })

  abbrev found_from : (pages start_at : ℕ) → List Issue
  found_from pages start_at = pages_of pages options.page_size at_once (drop start_at issues)

  abbrev ended : List Issue → ℕ → Option Fetched
  ended sent fetched =
      some (record { sent = sent; issues_total = length issues; result = ok fetched })

  ended_run : (sent : List Issue) (fetched : ℕ) → ended sent fetched ≡ whole_run sent [] fetched
  ended_run sent fetched =
      ap (λ xs. ended xs fetched) (sym (append-nil sent)) ∙ ap (ended (sent ++ [])) (omega arith)

  joined_run :
      (sent taken rest : List Issue) (fetched : ℕ)
      → whole_run (sent ++ taken) rest (fetched + length taken)
        ≡ whole_run sent (taken ++ rest) fetched
  joined_run sent taken rest fetched =
      ap (λ xs. ended xs (fetched + length taken + length rest)) (append_assoc sent taken rest)
      ∙ ap (ended (sent ++ (taken ++ rest))) (omega (arith, length-append taken rest))

  on_page_lem :
      (fuel start_at fetched : ℕ) (sent : List Issue) (shown : ℕ)
      (more : ℕ → ℕ → List Issue → ℕ → Option Fetched)
      → start_at ≤ length issues
      → ((start_at' fetched' : ℕ) (sent' : List Issue) (shown' : ℕ)
          → start_at' ≤ length issues
          → start_at < start_at'
          → more start_at' fetched' sent' shown'
            ≡ whole_run sent' (found_from fuel start_at') fetched')
      → on_page options search never never always more start_at fetched sent shown (
          ok (record {
            total = length issues;
            start_at = start_at;
            max_results = at_once;
            issues = take at_once (drop start_at issues);
          }))
        ≡ whole_run sent (found_from (suc fuel) start_at) fetched
  on_page_lem fuel start_at fetched sent shown more low after =
      let taken = take at_once (drop start_at issues) in
      let n = length issues in
      let next = start_at + options.page_size in
      let shown_same : total_shown options search never never always n ≡ n =
        ground (arith, unlimited.no_limit) in
      let next_same : next_start options search never never always start_at ≡ next =
        omega (arith, unlimited.room, low) in
      let behind : drop next issues ≡ drop options.page_size (drop start_at issues) =
        drop_add start_at options.page_size issues in
      ap
        (after_send options search never never always more n
          (total_shown options search never never always n)
          (next_start options search never never always start_at))
        (send_issues_lem taken fetched sent)
      ∙ ap
          (λ k.
            after_send options search never never always more n k
              (next_start options search never never always start_at)
              (fetched + length taken, sent ++ taken))
          shown_same
      ∙ ap
          (λ k.
            after_send options search never never always more n n k
              (fetched + length taken, sent ++ taken))
          next_same
      ∙ ap
          (λ b.
            if b
            then ended (sent ++ taken) (fetched + length taken)
            else if leb n next
            then ended (sent ++ taken) (fetched + length taken)
            else more next (fetched + length taken) (sent ++ taken) n)
          (limit_never (fetched + length taken))
      ∙ if_intro (λ r. r ≡ whole_run sent (found_from (suc fuel) start_at) fetched) (leb n next) _ _
          (λ last.
            let nothing : drop options.page_size (drop start_at issues) ≡ [] =
              sym behind ∙ drop_all next issues (ground arith) in
            ended_run (sent ++ taken) (fetched + length taken)
            ∙ joined_run sent taken [] fetched
            ∙ ap (λ xs. whole_run sent (taken ++ xs) fetched)
                (sym (
                  ap (pages_of fuel options.page_size at_once) nothing
                  ∙ pages_of-nil fuel options.page_size at_once)))
          (λ further.
            after next (fetched + length taken) (sent ++ taken) n (ground arith)
              (omega (arith, unlimited.some_page))
            ∙ joined_run sent taken (found_from fuel next) fetched
            ∙ ap
                (λ xs. whole_run sent (taken ++ pages_of fuel options.page_size at_once xs) fetched)
                behind)

  fetch_from_lem :
      (fuel start_at fetched : ℕ) (sent : List Issue) (shown : ℕ)
      → start_at ≤ length issues
      → length issues < fuel + start_at
      → fetch_from options search never never always fuel start_at fetched sent shown
        ≡ whole_run sent (found_from fuel start_at) fetched
  unfolding fetch_from
  fetch_from_lem zero start_at fetched sent shown low enough = absurd (omega arith)
  fetch_from_lem (suc fuel) start_at fetched sent shown low enough =
      ap
        (on_page options search never never always
          (λ start_at' fetched' sent' shown'.
            fetch_from options search never never always fuel start_at' fetched' sent' shown')
          start_at fetched sent shown)
        (serves.answers start_at options.page_size)
      ∙ on_page_lem fuel start_at fetched sent shown _ low
          (λ start_at' fetched' sent' shown' low' further.
            fetch_from_lem fuel start_at' fetched' sent' shown' low' (omega arith))

  -- Fuel for one page more than there are issues is enough, and what is sent are the first issues of
  -- each page, as many as the server gives at once.
  pub fetch_lem :
      fetch_issues_stream options search never never always (suc (length issues))
      ≡ whole_run [] (found_from (suc (length issues)) 0) 0
  unfolding fetch_issues_stream
  fetch_lem = fetch_from_lem (suc (length issues)) 0 0 [] 0 (omega arith) (omega arith)

module _ (options : FetchOptions) (issues : List Issue)
    (search : (start_at page_size : ℕ) → Result SearchPage)
    (unlimited : IsUnlimited options issues) where
  -- A query without a limit, that is not cancelled, against a server which gives whole pages: every
  -- issue is sent, in order and once, after no more pages than there are issues and one.
  pub fetch_whole :
      Serves issues options.page_size search
      → fetch_issues_stream options search never never always (suc (length issues))
        ≡ some (record { sent = issues; issues_total = length issues; result = ok (length issues) })
  fetch_whole serves =
      fetch_lem options issues options.page_size search serves unlimited
      ∙ ap
          (λ xs.
            some (record { sent = xs; issues_total = length issues; result = ok (0 + length xs) }))
          (pages_of-whole (suc (length issues)) options.page_size issues unlimited.some_page
            (omega arith))
      ∙ ap (λ n. some (record { sent = issues; issues_total = length issues; result = ok n }))
          (omega arith)

  -- The same against a server which gives fewer issues at once than a page asks for, where the query
  -- has more: the fetch ends with success, and has sent fewer issues than the total it shows.
  pub fetch_short :
      (at_once : ℕ)
      → at_once < options.page_size
      → at_once < length issues
      → Serves issues at_once search
      → (r : Fetched) × (fetched : ℕ) × (fetch_issues_stream options search never never always
            (suc (length issues))
          ≡ some r)
        × (r.result ≡ ok fetched)
        × (r.issues_total ≡ length issues)
        × (length r.sent < r.issues_total)
  fetch_short at_once cut more serves =
      let found = pages_of (suc (length issues)) options.page_size at_once issues in
      (
        record { sent = found; issues_total = length issues; result = ok (0 + length found) },
        0 + length found,
        fetch_lem options issues at_once search serves unlimited,
        refl,
        refl,
        pages_of-short (suc (length issues)) options.page_size at_once issues cut more,
      )
