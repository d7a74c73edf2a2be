-- ===== src/Allowlist.antt =====
-- src/allowlist.rs: loading and matching of allowlist records. The regular expressions of the
-- crate `fancy_regex` are a parameter: `build` makes a search of a pattern, which is `none` where
-- it exceeds its budget. The texts of the messages are not modelled; an error holds their parts.
pub mod Digest
pub mod Scope
pub mod Load
pub mod Check
use jiraleaks.Base.{
  ℕ, zero, suc, ◌+◌, ◌-◌, ◌*◌, ◌/◌, ◌%◌, ◌^◌, ◌≤◌, ◌<◌, min, max, Bool, true, false, not, ◌&&◌,
  ◌||◌, Option, none, some, List, [], ◌∷◌, ◌++◌, map, append_assoc, append-nil, ◌≡◌, ◌≢◌, ◌↔◌, ◌⊎◌,
  inl, inr, refl, sym, ap, ◌∙◌, subst, arith, ltb, leb, ◌==◌, if◌then◌else◌, Bool-cases,
  Option-cases, eq_of_==, ==_refl, &&-true, ||-true, ||-false, length, get_elem?, take, drop,
  is_empty, any, all, All, In, here, there, length-append, length-take-le, length-reverse, reverse,
  reverse-append, In-append_left, In-append_right, In-append_split, All-append, All-In, Text, codes,
  text_eq, eq_of_text_eq, text_eq_refl, text_eq_of_eq, text_eq_comm,
}
use jiraleaks.Text.Find.{starts_with, strip_prefix}
use jiraleaks.Text.Bytes.{byte_len}
use jiraleaks.Text.Space.{trim}
use jiraleaks.Hash.{secret_hash}

abbrev pub sha256_hex_len : ℕ
sha256_hex_len = 64

abbrev pub Search : Type 0
Search = Text → Option Bool

pub record AllowlistEntry : Type 0 where
  pub value : Option Text
  pub sha256 : Option Text
  pub pattern : Option Text
  pub project_key : Option Text
  pub issue_key : Option Text
  pub rule_id : Option Text
  pub field : Option Text
  pub reason : Option Text

pub record CompiledEntry : Type 0 where
  pub field : Option Text
  pub value : Option Text
  pub sha256 : Option Text
  pub pattern : Option (Search × Text)
  pub project_key : Option Text
  pub issue_key : Option Text
  pub rule_id : Option Text
  pub reason : Option Text

-- The configuration errors of loading, each with the number of the record.
pub data LoadError : Type 0 where
  empty_key : (key : Text) (position : ℕ) → LoadError
  invalid_pattern : (position : ℕ) (source : Text) → LoadError
  not_a_digest : (position : ℕ) (raw : Text) → LoadError
  no_match_condition : (position : ℕ) → LoadError

pub data Loaded {ℓ} (A : Type ℓ) : Type ℓ where
  ok : A → Loaded A
  err : LoadError → Loaded A

infixl 5 ◌>>=◌
unfoldable pub ◌>>=◌ {ℓ κ} : {A : Type ℓ} {B : Type κ} → Loaded A → (A → Loaded B) → Loaded B
ok a >>= f = f a
err e >>= f = err e

-- `trimmed`.
abbrev pub trimmed : Option Text → Option Text
trimmed none = none
trimmed (some v) = some (trim v)

unfoldable pub required_non_empty : Text → Option Text → ℕ → Loaded (Option Text)
required_non_empty key none position = ok none
required_non_empty key (some v) position =
    if is_empty (trim v) then err (empty_key key position) else ok (some v)

abbrev pub is_ascii_hexdigit : ℕ → Bool
is_ascii_hexdigit b =
    leb b'0' b && leb b b'9' || leb b'a' b && leb b b'f' || leb b'A' b && leb b b'F'

abbrev pub to_ascii_lowercase : ℕ → ℕ
to_ascii_lowercase c = if leb b'A' c && leb c b'Z' then c + 32 else c

-- `raw.strip_prefix("sha256:").unwrap_or(raw)`.
abbrev pub bare : Text → Text
bare raw = elim (strip_prefix raw (codes "sha256:")) [ some hex ↦ hex | none ↦ raw ]

unfoldable pub normalize_sha256 : Text → Option Text
normalize_sha256 raw =
    let hex = bare raw in
    if byte_len hex == sha256_hex_len && all is_ascii_hexdigit hex
    then some (map to_ascii_lowercase hex)
    else none

unfoldable pub field_scope_matches : Text → Text → Bool
field_scope_matches scope field_path =
    if text_eq scope field_path then true else elim (strip_prefix field_path scope) [
      | some rest ↦ starts_with rest (codes ".") || starts_with rest (codes "[")
      | none ↦ false
    ]

abbrev pub is_none : Option Text → Bool
is_none none = true
is_none (some v) = false

unfoldable pub compile_pattern :
    (build : Text → Option Search) → Option Text → ℕ → Loaded (Option (Search × Text))
compile_pattern build none position = ok none
compile_pattern build (some source) position = elim (build source) [
  | none ↦ err (invalid_pattern position source)
  | some search ↦ ok (some (search, source))
]

unfoldable pub compile_sha256 : Option Text → ℕ → Loaded (Option Text)
compile_sha256 none position = ok none
compile_sha256 (some raw) position = elim (normalize_sha256 raw) [
  | none ↦ err (not_a_digest position raw)
  | some hex ↦ ok (some hex)
]

-- `entry.reason.filter(|r| !r.trim().is_empty())`.
abbrev pub audit_reason : Option Text → Option Text
audit_reason none = none
audit_reason (some r) = if is_empty (trim r) then none else some r

abbrev has_pattern : Option (Search × Text) → Bool
has_pattern none = false
has_pattern (some p) = true

-- A record with at least one predicate.
abbrev pub has_condition : CompiledEntry → Bool
has_condition e = not (
    is_none e.value
    && is_none e.sha256
    && not (has_pattern e.pattern)
    && is_none e.project_key
    && is_none e.issue_key
    && is_none e.rule_id)

unfoldable pub compile : (build : Text → Option Search) → AllowlistEntry → ℕ → Loaded CompiledEntry
compile build entry position = do
  value ← required_non_empty (codes "value") entry.value position
  source ← required_non_empty (codes "pattern") entry.pattern position
  pattern' ← compile_pattern build source position
  raw ← required_non_empty (codes "sha256") entry.sha256 position
  sha256 ← compile_sha256 raw position
  project_key ← required_non_empty (codes "project_key") entry.project_key position
  issue_key ← required_non_empty (codes "issue_key") entry.issue_key position
  rule_id ← required_non_empty (codes "rule_id") entry.rule_id position
  field ← required_non_empty (codes "field") entry.field position
  let compiled : CompiledEntry = record {
    field = trimmed field;
    value = value;
    sha256 = sha256;
    pattern = pattern';
    project_key = trimmed project_key;
    issue_key = trimmed issue_key;
    rule_id = trimmed rule_id;
    reason = audit_reason entry.reason;
  }
  if has_condition compiled then ok compiled else err (no_match_condition position)

-- `issue_key.split('-').next()`.
unfoldable pub before_dash : Text → Text
before_dash [] = []
before_dash (c ∷ s) = if c == b'-' then [] else c ∷ before_dash s

-- `option.as_deref() == Some(value)`.
abbrev pub is_some_text : Option Text → Text → Bool
is_some_text none value = false
is_some_text (some v) value = text_eq v value

abbrev pub scope_admits : Option Text → Text → Bool
scope_admits none field_path = true
scope_admits (some scope) field_path = field_scope_matches scope field_path

abbrev pub hashes_match : Option Text → Option Text → Bool
hashes_match (some expected) (some actual) = text_eq expected actual
hashes_match (some expected) none = false
hashes_match none actual = false

-- A search that fails does not match.
abbrev pub pattern_matches : Option (Search × Text) → Text → Bool
pattern_matches none value = false
pattern_matches (some (search, source)) value = elim (search value) [
  | some found ↦ found
  | none ↦ false
]

unfoldable pub entry_matches : CompiledEntry → Text → Option Text → Text → Text → Text → Bool
entry_matches e value hash_hex rule_id issue_key field_path =
    if not (scope_admits e.field field_path)
    then false
    else if is_some_text e.value value
    then true
    else if hashes_match e.sha256 hash_hex
    then true
    else if pattern_matches e.pattern value
    then true
    else if is_some_text e.rule_id rule_id
    then true
    else if is_some_text e.issue_key issue_key
    then true
    else is_some_text e.project_key (before_dash issue_key)

pub record AllowlistFilter : Type 0 where
  pub entries : List CompiledEntry
  pub has_hashes : Bool

-- The loop of `from_entries`; `index` counts from 0.
unfoldable pub load_from :
    (build : Text → Option Search) → ℕ → List AllowlistEntry → Loaded AllowlistFilter
load_from build index [] = ok (record { entries = []; has_hashes = false })
load_from build index (entry ∷ entries) = do
  compiled ← compile build entry (index + 1)
  rest ← load_from build (index + 1) entries
  ok (record {
    entries = compiled ∷ rest.entries;
    has_hashes = not (is_none compiled.sha256) || rest.has_hashes;
  })

unfoldable pub from_entries :
    (build : Text → Option Search) → List AllowlistEntry → Loaded AllowlistFilter
unfolding load_from
from_entries build entries = load_from build 0 entries

abbrev pub empty : AllowlistFilter
empty = record { entries = []; has_hashes = false }

-- The loop of `check`: the reason of the first entry that matches.
unfoldable pub check_entries :
    List CompiledEntry → Text → Option Text → Text → Text → Text → Option (Option Text)
check_entries [] value hash_hex rule_id issue_key field_path = none
check_entries (e ∷ entries) value hash_hex rule_id issue_key field_path =
    if entry_matches e value hash_hex rule_id issue_key field_path
    then some e.reason
    else check_entries entries value hash_hex rule_id issue_key field_path

unfoldable pub check :
    (digest : Text → List ℕ) → AllowlistFilter → Text → Text → Text → Text → Option (Option Text)
check digest f value rule_id issue_key field_path =
    let hash_hex = if f.has_hashes then some (bare (secret_hash digest value)) else none in
    check_entries f.entries value hash_hex rule_id issue_key field_path

unfoldable pub is_allowed :
    (digest : Text → List ℕ) → AllowlistFilter → Text → Text → Text → Text → Bool
is_allowed digest f value rule_id issue_key field_path =
    elim (check digest f value rule_id issue_key field_path) [ none ↦ false | some reason ↦ true ]
