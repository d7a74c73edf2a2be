-- ===== src/Fetcher/Pages.antt =====
-- src/fetcher.rs: the issues of the pages that a paging reads.
use jiraleaks.Base.{
  ℕ, zero, suc, ◌≤◌, ◌<◌, List, [], ◌∷◌, ◌++◌, ◌≡◌, refl, ap, ◌∙◌, arith, length, take, drop,
  length-append, length-take-le,
}
use jiraleaks.Base.{take-nil, drop-nil, length-drop, take-append-drop, length-take-below}
use jiraleaks.Pipeline.Issue.{Issue}

-- The first `at_once` issues of each page, with the pages that are read.
abbrev pub pages_of : (pages page_size at_once : ℕ) → List Issue → List Issue
pages_of zero page_size at_once issues = []
pages_of (suc pages) page_size at_once issues =
    take at_once issues ++ pages_of pages page_size at_once (drop page_size issues)

pub pages_of-nil : (pages page_size at_once : ℕ) → pages_of pages page_size at_once [] ≡ []
pages_of-nil zero page_size at_once = refl
pages_of-nil (suc pages) page_size at_once =
    ap (λ xs. xs ++ pages_of pages page_size at_once (drop page_size [])) (take-nil at_once)
    ∙ ap (pages_of pages page_size at_once) (drop-nil page_size)
    ∙ pages_of-nil pages page_size at_once

-- Whole pages make up the list.
pub pages_of-whole :
    (pages page_size : ℕ) (issues : List Issue)
    → 0 < page_size
    → length issues < pages
    → pages_of pages page_size page_size issues ≡ issues
pages_of-whole zero page_size issues h enough = absurd (omega arith)
pages_of-whole (suc pages) page_size [] h enough = pages_of-nil (suc pages) page_size page_size
pages_of-whole (suc pages) page_size (issue ∷ issues) h enough =
    ap (λ xs. take page_size (issue ∷ issues) ++ xs)
      (pages_of-whole pages page_size (drop page_size (issue ∷ issues)) h
        (omega (arith, length-drop page_size (issue ∷ issues))))
    ∙ take-append-drop page_size (issue ∷ issues)

pages_of-le :
    (pages page_size at_once : ℕ) (issues : List Issue)
    → at_once ≤ page_size
    → length (pages_of pages page_size at_once issues) ≤ length issues
pages_of-le zero page_size at_once issues cut = omega arith
pages_of-le (suc pages) page_size at_once issues cut = omega (
  arith,
  length-append (take at_once issues) (pages_of pages page_size at_once (drop page_size issues)),
  pages_of-le pages page_size at_once (drop page_size issues) cut,
  length-drop page_size issues,
  length-take-le at_once issues,
  length-take-below at_once issues,
)

-- Pages that are cut leave issues out.
pub pages_of-short :
    (pages page_size at_once : ℕ) (issues : List Issue)
    → at_once < page_size
    → at_once < length issues
    → length (pages_of pages page_size at_once issues) < length issues
pages_of-short zero page_size at_once issues cut more = omega arith
pages_of-short (suc pages) page_size at_once issues cut more = omega (
  arith,
  length-append (take at_once issues) (pages_of pages page_size at_once (drop page_size issues)),
  pages_of-le pages page_size at_once (drop page_size issues) (omega arith),
  length-drop page_size issues,
  length-take-le at_once issues,
)
