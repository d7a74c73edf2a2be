-- ===== src/Dedup/Merged.antt =====
-- What the report of a scan says of each secret: the locations of all its findings, once.
use jiraleaks.Base.{
  Bool, true, false, ◌&&◌, ◌||◌, some, List, [], ◌∷◌, ◌++◌, ◌≡◌, inl, inr, refl, sym, ap, ◌∙◌,
  arith, Bool-cases, &&-true, any, Text, text_eq, eq_of_text_eq, text_eq_comm, subst,
}
use jiraleaks.Finding.{Finding, Location, source_eq, SourceType}
use jiraleaks.Dedup.{location_eq, map_key, Deduplicator, new, add_locations, insert_all}
use jiraleaks.Dedup.Group.{group, group_all, insert_all-group_all, new-IsIndexed}

-- Whether some finding with the key `k` names the location.
abbrev pub names : Text → Location → List Finding → Bool
names k loc = any (λ f. text_eq (map_key f) k && any (location_eq loc) f.locations)

-- Whether some finding has the key.
abbrev pub has_key : Text → List Finding → Bool
has_key k = any (λ f. text_eq (map_key f) k)

-- No key stands twice.
abbrev pub DistinctKeys : List Finding → Type 0
DistinctKeys [] = Unit
DistinctKeys (f ∷ fs) = (has_key (map_key f) fs ≡ false) × DistinctKeys fs

eq_of_source_eq : (s t : SourceType) → source_eq s t ≡ true → s ≡ t
eq_of_source_eq s t h = ground arith

eq_of_location_eq : (a b : Location) → location_eq a b ≡ true → a ≡ b
unfolding location_eq
eq_of_location_eq a b h =
    let (issue, rest) = &&-true (text_eq a.issue_key b.issue_key) _ h in
    let (path, source) = &&-true (text_eq a.field_path b.field_path) _ rest in
    let p = eq_of_text_eq a.issue_key b.issue_key issue in
    let q = eq_of_text_eq a.field_path b.field_path path in
    let r = eq_of_source_eq a.source_type b.source_type source in
    λ i. record { issue_key = p i; field_path = q i; source_type = r i }

location_eq_trans :
    (a b : Location) (locs : List Location)
    → location_eq a b ≡ true
    → any (location_eq b) locs ≡ true
    → any (location_eq a) locs ≡ true
location_eq_trans a b locs h k =
    subst (λ x. any (location_eq x) locs ≡ true) (sym (eq_of_location_eq a b h)) k

any-append {ℓ} :
    {A : Type ℓ} (p : A → Bool) (xs ys : List A) → any p (xs ++ ys) ≡ (any p xs || any p ys)
any-append p [] ys = refl
any-append p (x ∷ xs) ys = ground (arith, any-append p xs ys)

any-add_locations :
    (loc : Location) (have locs : List Location)
    → any (location_eq loc) (add_locations have locs)
      ≡ (any (location_eq loc) have || any (location_eq loc) locs)
unfolding add_locations
any-add_locations loc have [] = ground arith
any-add_locations loc have (l ∷ locs) = elim (Bool-cases (any (location_eq l) have)) [
  | inl old ↦ rw old (ground (arith, any-add_locations loc have locs, location_eq_trans loc l have))
  | inr new ↦ rw new (
      ground (
        arith,
        any-add_locations loc (have ++ l ∷ []) locs,
        any-append (location_eq loc) have (l ∷ []),
      ))
]

names-group :
    (k : Text) (loc : Location) (f : Finding) (gs : List Finding)
    → names k loc (group gs f) ≡ (names k loc gs || names k loc (f ∷ []))
unfolding group
names-group k loc f [] = refl
names-group k loc f (g ∷ gs) = elim (Bool-cases (text_eq (map_key g) (map_key f))) [
  | inl same ↦
      let e : map_key g ≡ map_key f = eq_of_text_eq _ _ same in
      rw same (
        ground
          (arith, any-add_locations loc g.locations f.locations, ap (λ (t : Text). text_eq t k) e))
  | inr other ↦ rw other (ground (arith, names-group k loc f gs))
]

names-group_all :
    (k : Text) (loc : Location) (fs gs : List Finding)
    → names k loc (group_all gs fs) ≡ (names k loc gs || names k loc fs)
unfolding group_all
names-group_all k loc [] gs = ground arith
names-group_all k loc (f ∷ fs) gs =
    ground (arith, names-group_all k loc fs (group gs f), names-group k loc f gs)

has_key-group :
    (k : Text) (f : Finding) (gs : List Finding)
    → has_key k (group gs f) ≡ (has_key k gs || has_key k (f ∷ []))
unfolding group
has_key-group k f [] = refl
has_key-group k f (g ∷ gs) = elim (Bool-cases (text_eq (map_key g) (map_key f))) [
  | inl same ↦
      let e : map_key g ≡ map_key f = eq_of_text_eq _ _ same in
      rw same (ground (arith, ap (λ (t : Text). text_eq t k) e))
  | inr other ↦ rw other (ground (arith, has_key-group k f gs))
]

group-DistinctKeys : (f : Finding) (gs : List Finding) → DistinctKeys gs → DistinctKeys (group gs f)
unfolding group
group-DistinctKeys f [] _ = (refl, tt)
group-DistinctKeys f (g ∷ gs) (d, ds) = elim (Bool-cases (text_eq (map_key g) (map_key f))) [
  | inl same ↦ rw same (d, ds)
  | inr other ↦ rw other (
    has_key-group (map_key g) f gs ∙ ground (arith, text_eq_comm (map_key f) (map_key g)),
    group-DistinctKeys f gs ds,
  )
]

group_all-DistinctKeys : (fs gs : List Finding) → DistinctKeys gs → DistinctKeys (group_all gs fs)
unfolding group_all
group_all-DistinctKeys [] gs d = d
group_all-DistinctKeys (f ∷ fs) gs d =
    group_all-DistinctKeys fs (group gs f) (group-DistinctKeys f gs d)

-- The deduplication of any findings does not panic. No two findings of its result have one key,
-- and the result names a location for a key exactly when one of the findings does.
pub insert_all-names :
    (fs : List Finding) (k : Text) (loc : Location)
    → (d : Deduplicator) × (insert_all fs new ≡ some d)
      × DistinctKeys d.findings
      × (names k loc d.findings ≡ names k loc fs)
unfolding new
insert_all-names fs k loc =
    let (d, done, grouped) = insert_all-group_all fs new new-IsIndexed in
    (
      d,
      done,
      rw grouped (group_all-DistinctKeys fs [] tt),
      rw grouped (names-group_all k loc fs []),
    )
