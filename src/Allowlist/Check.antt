-- ===== src/Allowlist/Check.antt =====
-- The lookup in an allowlist against the one that always computes the digest.
use jiraleaks.Base.{
  ℕ, false, not, Option, none, some, List, [], ◌∷◌, ◌≡◌, inl, inr, refl, sym, ◌∙◌, Bool-cases,
  ||-false, Text,
}
use jiraleaks.Hash.{secret_hash}
use jiraleaks.Allowlist.{
  Search, AllowlistEntry, CompiledEntry, ok, bare, is_none, entry_matches, hashes_match,
  AllowlistFilter, check_entries, check, from_entries,
}
use jiraleaks.Allowlist.Load.{any_hash, from_entries-IsUsable}

hashes_match-none :
    (expected : Option Text) (actual : Option Text)
    → not (is_none expected) ≡ false
    → hashes_match expected actual ≡ hashes_match expected none
hashes_match-none none actual h = refl
hashes_match-none (some e) actual h = absurd (cc)

entry_matches-none :
    (e : CompiledEntry) (value : Text) (hash_hex : Option Text)
    (rule_id issue_key field_path : Text)
    → not (is_none e.sha256) ≡ false
    → entry_matches e value hash_hex rule_id issue_key field_path
      ≡ entry_matches e value none rule_id issue_key field_path
unfolding entry_matches
entry_matches-none e value hash_hex rule_id issue_key field_path h =
    rw (hashes_match-none e.sha256 hash_hex h) refl

check_entries-none :
    (entries : List CompiledEntry) (value : Text) (hash_hex : Option Text)
    (rule_id issue_key field_path : Text)
    → any_hash entries ≡ false
    → check_entries entries value hash_hex rule_id issue_key field_path
      ≡ check_entries entries value none rule_id issue_key field_path
unfolding check_entries
check_entries-none [] value hash_hex rule_id issue_key field_path h = refl
check_entries-none (e ∷ entries) value hash_hex rule_id issue_key field_path h =
    let (no_hash, no_hashes) = ||-false (not (is_none e.sha256)) (any_hash entries) h in
    rw
      (
        entry_matches-none e value hash_hex rule_id issue_key field_path no_hash,
        check_entries-none entries value hash_hex rule_id issue_key field_path no_hashes,
      )
      refl

-- A loaded allowlist decides as the first of its entries that matches does, with the digest of
-- the value at hand: leaving the digest out where no entry has one changes no answer.
pub check-loaded :
    (digest : Text → List ℕ) (build : Text → Option Search) (records : List AllowlistEntry)
    (f : AllowlistFilter) (value rule_id issue_key field_path : Text)
    → from_entries build records ≡ ok f
    → check digest f value rule_id issue_key field_path
      ≡ check_entries f.entries value
          (some (bare (secret_hash digest value)))
          rule_id
          issue_key
          field_path
unfolding check
check-loaded digest build records f value rule_id issue_key field_path h =
    let (_, _, hashes) = from_entries-IsUsable build records f h in
    elim (Bool-cases f.has_hashes) [
      | inl some_hash ↦ rw some_hash refl
      | inr no_hash ↦ rw no_hash (
          sym (
            check_entries-none f.entries value (some (bare (secret_hash digest value))) rule_id
              issue_key field_path (sym hashes ∙ no_hash)))
    ]
