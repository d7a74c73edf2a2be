-- ===== src/Lib.antt =====
-- The verification library of jiraleaks, a scanner that looks for leaked secrets in the issues,
-- comments and attachments of a Jira instance.
--
-- The program fetches issues, extracts segments of text, and runs the rules over each segment. A
-- match becomes a candidate, which passes the filters of its rule (src/candidate.rs, with the
-- entropy of src/entropy.rs and the validators of src/validators.rs) and the allowlist
-- (src/allowlist.rs), or is dropped with a reason. What is kept becomes a finding (src/finding.rs):
-- its secret is reduced to a hash (src/hash.rs) and a preview, and its snippet is masked
-- (src/redact.rs). Findings are merged under their keys (src/dedup.rs), reconciled with the rows of
-- the scans before (src/store.rs), and reported, in text that is neutralised for terminals and
-- spreadsheets (src/sanitize.rs). src/checkpoint.rs narrows the query of the next scan, and
-- src/credpair.rs finds user names beside passwords. src/pipeline.rs puts these parts together: it
-- takes the issues that src/fetcher.rs sends, takes the texts of each out of its payload
-- (src/extract.rs), its comments (src/jira/client.rs) and its attachments (src/attachments.rs), and
-- runs the rules (src/rules.rs) over them.
--
-- The files:
--   Base, Text: Boolean tests, lists over the native numbers, and text as a list of code points,
--     with the functions of `str` that the program calls; an offset in bytes that is no character
--     boundary gives `none` where Rust panics.
--   Redact: `redact`, `redact_snippet`, `redact_snippet_with` and their helpers.
--   Hash, Finding: `secret_hash`, the enumerations and their names, the identities of findings.
--   Dedup: `Deduplicator::insert` and the loop of `pipeline::run` around it.
--   Entropy, Validators, Rule, Candidate: the checks of `candidate.rs`, and in Candidate.Judge the
--     two halves of the chain, `Judge::rule_filters` and `Judge::finalize`.
--   Allowlist: `AllowlistFilter::from_entries` and `check`.
--   Sanitize: `terminal`, `csv_field` and the loop behind both.
--   Checkpoint: `window_start`, `narrow_jql`, `normalize_jql`, and when a checkpoint is written.
--   Credpair, Credpair.Detect: `CredentialPairDetector::detect` and its three searches.
--   Store, Store.Report: `FindingsStore::reconcile`; the table is a list of rows with the
--     fingerprint as its primary key, and each SQL statement is a function on it. The expansion has
--     a row for each location of a finding.
--   Rules: `CompiledRule::compile` and `RulesEngine::new`; Rules.Scan: `RulesEngine::scan`.
--   Json: the values of serde_json that are read. Extract: `TextExtractor`.
--   Attachments: which attachments are fetched and from where; Attachments.Download:
--     `JiraClient::download_attachment`, with the URLs that it asks for; Attachments.Collect:
--     `collect_segments`.
--   Jira: `JiraClient::get_comments_after`. Fetcher: `Fetcher::fetch_issues_stream`.
--   Pipeline.Issue: `process_issue`, which puts the parts above together for one issue.
--   Pipeline.Loop, Progress: the loop of `run` over the issues as a relation of steps on a state,
--     with `collect_one` and the counters of `ScanProgress`.
--   Config: the configuration and `Config::validate`. Report: `resolve_formats`.
--   Error: the exit codes.
--   Tests: runs at concrete inputs, and an instance of each theorem.
-- A module below one of these has the theorems that its name says.
--
-- State is passed explicitly: a deduplicator, a store or a stream is an argument and a result. A
-- panic, and a loop that uses up its fuel, is `none`; a configuration error is a value. The tasks of
-- the loop run side by side in the program: here a step collects any one of those that are spawned.
-- The additions on `u64` that a server can make overflow, in the paging of comments, panic in a
-- build with overflow checks and wrap around in any other, as the release profile is; whether the
-- build has them is a parameter. `u32` additions are written with their wrap-around.
--
-- Parameters: the digest of the crate sha2, the search of the crate fancy_regex, `f64` with its
-- operations, `str::to_lowercase`, the reading and writing of JSON, the parsing of rules files, the
-- crate url, the answers of the Jira server, the clock, the identifiers of uuid and the version of
-- the crate.
--
-- Fuel: the loop of `sanitize` gets one unit more than the text has characters, and each turn takes
-- at least one character, so that the fuel is enough. The scan of a text with a rule gets one unit
-- more than the text has bytes, and each turn goes on by at least one byte. The fetching gets one
-- page more than there are issues, and each page goes on by at least one. The other loops are
-- recursions on the list that the source iterates over.
--
-- Not modelled: the HTTP client with its retries and redirections, the asynchronous runtime, the
-- report and alert writers, the reading of configuration, rules and command lines, the failures of
-- the database, logging, and the iteration order of hash maps, for which that of the list stands.
pub mod Base
pub mod Text
pub mod Redact
pub mod Error
pub mod Hash
pub mod Finding
pub mod Dedup
pub mod Entropy
pub mod Validators
pub mod Rule
pub mod Candidate
pub mod Allowlist
pub mod Sanitize
pub mod Store
pub mod Checkpoint
pub mod Credpair
pub mod Json
pub mod Rules
pub mod Extract
pub mod Attachments
pub mod Jira
pub mod Pipeline
pub mod Progress
pub mod Fetcher
pub mod Report
pub mod Config
mod Tests
