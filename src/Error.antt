-- ===== src/Error.antt =====
-- src/error.rs: the errors of the scanner and the exit code of each.
use jiraleaks.Base.{ℕ, Text}

pub data ScannerError : Type 0 where
  config : Text → ScannerError
  jira_access : Text → ScannerError
  scan_critical : Text → ScannerError
  report_write : Text → ScannerError
  other : Text → ScannerError
  store : Text → ScannerError

abbrev pub cli_parse_exit_code : ℕ
cli_parse_exit_code = 1

unfoldable pub exit_code : ScannerError → ℕ
exit_code (config e) = cli_parse_exit_code
exit_code (jira_access e) = 2
exit_code (scan_critical e) = 3
exit_code (other e) = 3
exit_code (report_write e) = 4
exit_code (store e) = 5

pub data Result {ℓ} (A : Type ℓ) : Type ℓ where
  ok : A → Result A
  err : ScannerError → Result A

infixl 5 ◌>>=◌
abbrev pub ◌>>=◌ {ℓ κ} : {A : Type ℓ} {B : Type κ} → Result A → (A → Result B) → Result B
ok a >>= f = f a
err e >>= f = err e
