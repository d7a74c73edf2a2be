-- ===== src/Allowlist/Load.antt =====
-- Strict loading: what every record of a loaded allowlist has.
use jiraleaks.Base.{
  ℕ, ◌+◌, Bool, true, false, not, ◌||◌, Option, none, some, List, [], ◌∷◌, ◌≡◌, inl, inr, refl, sym,
  ap, subst, arith, if◌then◌else◌, Bool-cases, length, is_empty, any, All, Text,
}
use jiraleaks.Text.Space.{trim}
use jiraleaks.Allowlist.{
  Search, AllowlistEntry, CompiledEntry, Loaded, ok, err, ◌>>=◌, required_non_empty,
  compile_pattern, is_none, has_condition, compile, AllowlistFilter, load_from, from_entries,
  no_match_condition,
}

-- Not blank, where it is set.
abbrev pub solid : Option Text → Bool
solid none = true
solid (some v) = not (is_empty (trim v))

abbrev pub source_of : Option (Search × Text) → Option Text
source_of none = none
source_of (some (search, source)) = some source

pub record IsUsable (e : CompiledEntry) : Type 0 where
  pub condition : has_condition e ≡ true
  pub solid_value : solid e.value ≡ true
  pub solid_pattern : solid (source_of e.pattern) ≡ true

>>=-eq-ok {ℓ κ} :
    {A : Type ℓ} {B : Type κ} (m : Loaded A) (f : A → Loaded B) {b : B}
    → (m >>= f) ≡ ok b
    → (a : A) × (m ≡ ok a) × (f a ≡ ok b)
unfolding ◌>>=◌
>>=-eq-ok (ok a) f h = (a, refl, h)
>>=-eq-ok (err e) f h = absurd (cc)

required_non_empty-ok :
    (key : Text) (raw r : Option Text) (position : ℕ)
    → required_non_empty key raw position ≡ ok r
    → solid r ≡ true
unfolding required_non_empty
required_non_empty-ok key none r position h = ground arith
required_non_empty-ok key (some v) r position h = ground arith

compile_pattern-ok :
    (build : Text → Option Search) (raw : Option Text) (position : ℕ) (p : Option (Search × Text))
    → compile_pattern build raw position ≡ ok p
    → source_of p ≡ raw
unfolding compile_pattern
compile_pattern-ok build none position p h = ground arith
compile_pattern-ok build (some v) position p h = ground arith

floor_of_condition :
    (c e : CompiledEntry) (position : ℕ)
    → ◌≡◌ {A = Loaded CompiledEntry}
        (if has_condition c then ok c else err (no_match_condition position))
        (ok e)
    → (c ≡ e) × (has_condition e ≡ true)
floor_of_condition c e position h = elim (Bool-cases (has_condition c)) [
  | inl some_condition ↦
      let done : ◌≡◌ {A = Loaded CompiledEntry} (ok c) (ok e) = rw some_condition at h in
      let same : c ≡ e = cc in (same, subst (λ x. has_condition x ≡ true) same some_condition)
  | inr nothing ↦
      let failed : ◌≡◌ {A = Loaded CompiledEntry} (err (no_match_condition position)) (ok e) =
        rw nothing at h in
      absurd (cc)
]

compile-IsUsable :
    (build : Text → Option Search) (entry : AllowlistEntry) (position : ℕ) (e : CompiledEntry)
    → compile build entry position ≡ ok e
    → IsUsable e
unfolding compile
compile-IsUsable build entry position e h0 =
    let (value, v, h1) = >>=-eq-ok _ _ h0 in
    let (source, s, h2) = >>=-eq-ok _ _ h1 in
    let (pattern', p, h3) = >>=-eq-ok _ _ h2 in
    let (raw, r, h4) = >>=-eq-ok _ _ h3 in
    let (sha256, d, h5) = >>=-eq-ok _ _ h4 in
    let (project_key, a, h6) = >>=-eq-ok _ _ h5 in
    let (issue_key, b, h7) = >>=-eq-ok _ _ h6 in
    let (rule_id, c, h8) = >>=-eq-ok _ _ h7 in
    let (field, f, h9) = >>=-eq-ok _ _ h8 in
    let (same, condition) = floor_of_condition _ e position h9 in
    let values : value ≡ e.value = ap (λ (x : CompiledEntry). x.value) same in
    let patterns : pattern' ≡ e.pattern = ap (λ (x : CompiledEntry). x.pattern) same in
    record {
      condition = condition;
      solid_value = subst (λ x. solid x ≡ true) values (required_non_empty-ok _ _ _ _ v);
      solid_pattern =
          subst (λ x. solid (source_of x) ≡ true) patterns
            (subst (λ x. solid x ≡ true) (sym (compile_pattern-ok _ _ _ _ p))
              (required_non_empty-ok _ _ _ _ s));
    }

-- Whether some record matches by digest.
abbrev pub any_hash : List CompiledEntry → Bool
any_hash = any (λ e. not (is_none e.sha256))

load_from-ok :
    (build : Text → Option Search) (index : ℕ) (entries : List AllowlistEntry) (f : AllowlistFilter)
    → load_from build index entries ≡ ok f
    → (length f.entries ≡ length entries)
      × All IsUsable f.entries
      × (f.has_hashes ≡ any_hash f.entries)
unfolding load_from
load_from-ok build index [] f h =
    let same : record { entries = []; has_hashes = false } ≡ f = cc in
    subst
      (λ (x : AllowlistFilter).
        (length x.entries ≡ 0) × All IsUsable x.entries × (x.has_hashes ≡ any_hash x.entries))
      same (refl, tt, refl)
load_from-ok build index (entry ∷ entries) f h =
    let (compiled, c, h1) = >>=-eq-ok _ _ h in
    let (rest, r, h2) = >>=-eq-ok _ _ h1 in
    let (count, usable, hashes) = load_from-ok build (index + 1) entries rest r in
    let same : ◌≡◌ {A = AllowlistFilter}
        (record {
          entries = compiled ∷ rest.entries;
          has_hashes = not (is_none compiled.sha256) || rest.has_hashes;
        })
        f =
      cc in
    subst
      (λ (x : AllowlistFilter).
        (length x.entries ≡ length (entry ∷ entries))
        × All IsUsable x.entries
        × (x.has_hashes ≡ any_hash x.entries))
      same
      (
        omega arith,
        (compile-IsUsable build entry (index + 1) compiled c, usable),
        ap (λ b. not (is_none compiled.sha256) || b) hashes,
      )

-- A loaded allowlist has an entry for each record. Every entry has a predicate, no value and no
-- pattern of an entry is blank, and `has_hashes` says whether some entry matches by digest.
pub from_entries-IsUsable :
    (build : Text → Option Search) (entries : List AllowlistEntry) (f : AllowlistFilter)
    → from_entries build entries ≡ ok f
    → (length f.entries ≡ length entries)
      × All IsUsable f.entries
      × (f.has_hashes ≡ any_hash f.entries)
unfolding from_entries
from_entries-IsUsable build entries f h = load_from-ok build 0 entries f h
