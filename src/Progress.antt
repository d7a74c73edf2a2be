-- ===== src/Progress.antt =====
-- src/progress.rs: the counters of a scan. Each is an atomic that only grows by additions of the
-- one task which collects; the terminal bar is left out.
use jiraleaks.Base.{ℕ, ◌+◌}

pub record ScanProgress : Type 0 where
  pub issues_total : ℕ
  pub issues_done : ℕ
  pub findings_found : ℕ
  pub comments_scanned : ℕ
  pub attachments_scanned : ℕ
  pub errors_count : ℕ

-- `ScanProgress::new`.
abbrev pub zeroed : ScanProgress
zeroed = record {
  issues_total = 0;
  issues_done = 0;
  findings_found = 0;
  comments_scanned = 0;
  attachments_scanned = 0;
  errors_count = 0;
}

abbrev pub set_total : ℕ → ScanProgress → ScanProgress
set_total total p = record p { issues_total = total }

abbrev pub finish_issue : (findings_delta : ℕ) → ScanProgress → ScanProgress
finish_issue findings_delta p = record p {
  issues_done = p.issues_done + 1;
  findings_found = p.findings_found + findings_delta;
}

abbrev pub record_comments : ℕ → ScanProgress → ScanProgress
record_comments comments p = record p { comments_scanned = p.comments_scanned + comments }

abbrev pub record_attachments : ℕ → ScanProgress → ScanProgress
record_attachments attachments p = record p {
  attachments_scanned = p.attachments_scanned + attachments;
}

abbrev pub finish_issue_error : ScanProgress → ScanProgress
finish_issue_error p = record p {
  issues_done = p.issues_done + 1;
  errors_count = p.errors_count + 1;
}
