-- ===== src/Dedup/Group.antt =====
-- What the deduplicator computes, with the map of indices gone: a finding joins the first one
-- that has its key, or comes last.
use jiraleaks.Base.{
  ℕ, suc, ◌+◌, true, Option, none, some, List, [], ◌∷◌, ◌++◌, ◌≡◌, inl, inr, refl, sym, ap, ◌∙◌,
  arith, if◌then◌else◌, Bool-cases, Option-cases, length, get_elem?, Text, text_eq, eq_of_text_eq,
  text_eq_of_eq,
}
use jiraleaks.Finding.{Finding}
use jiraleaks.Dedup.{
  map_key, Deduplicator, new, get, add_locations, with_locations, set, insert, insert_all,
}

unfoldable pub group : List Finding → Finding → List Finding
group [] f = f ∷ []
group (g ∷ gs) f =
    if text_eq (map_key g) (map_key f)
    then with_locations g (add_locations g.locations f.locations) ∷ gs
    else g ∷ group gs f

unfoldable pub group_all : List Finding → List Finding → List Finding
group_all gs [] = gs
group_all gs (f ∷ fs) = group_all (group gs f) fs

-- The place of the first finding with a key, counted from `i`.
unfoldable pub index_from : ℕ → Text → List Finding → Option ℕ
index_from i k [] = none
index_from i k (g ∷ gs) = if text_eq (map_key g) k then some i else index_from (suc i) k gs

-- The map finds every key where the list first has it.
abbrev pub IsIndexed : Deduplicator → Type 0
IsIndexed d = (k : Text) → get k d.seen ≡ index_from 0 k d.findings

-- A key that is found at `j` is that of the finding there, and the write there is `group`.
index_hit :
    (i j : ℕ) (f : Finding) (gs : List Finding)
    → index_from i (map_key f) gs ≡ some j
    → (n : ℕ) × (g : Finding) × (j ≡ i + n)
      × (get_elem? gs n ≡ some g)
      × (set gs n (with_locations g (add_locations g.locations f.locations)) ≡ group gs f)
      × ((m : ℕ) (k : Text) → index_from m k (group gs f) ≡ index_from m k gs)
unfolding index_from set group
index_hit i j f [] h = absurd (cc)
index_hit i j f (g ∷ gs) h = elim (Bool-cases (text_eq (map_key g) (map_key f))) [
  | inl same ↦ (0, g, ground arith, refl, rw same, λ m k. rw same)
  | inr other ↦
      let (n, g', at, found, written, kept) = index_hit (suc i) j f gs (ground arith) in
      (suc n, g', omega arith, found, rw (other, written), λ m k. rw (other, kept (suc m) k))
]

group_miss :
    (i : ℕ) (f : Finding) (gs : List Finding)
    → index_from i (map_key f) gs ≡ none
    → group gs f ≡ gs ++ f ∷ []
unfolding index_from group
group_miss i f [] h = refl
group_miss i f (g ∷ gs) h = elim (Bool-cases (text_eq (map_key g) (map_key f))) [
  | inl same ↦ absurd (ground arith)
  | inr other ↦ rw (other, group_miss (suc i) f gs (ground arith))
]

text_eq-join : (a b k : Text) → text_eq a k ≡ true → text_eq b k ≡ true → text_eq a b ≡ true
text_eq-join a b k h h' = text_eq_of_eq a b (eq_of_text_eq a k h ∙ sym (eq_of_text_eq b k h'))

index_miss :
    (i m : ℕ) (f : Finding) (k : Text) (gs : List Finding)
    → index_from i (map_key f) gs ≡ none
    → index_from m k (gs ++ f ∷ [])
      ≡ (if text_eq (map_key f) k then some (m + length gs) else index_from m k gs)
unfolding index_from
index_miss i m f k [] h = ground arith
index_miss i m f k (g ∷ gs) h = elim (Bool-cases (text_eq (map_key g) (map_key f))) [
  | inl same ↦ absurd (ground arith)
  | inr other ↦
      ground (arith, index_miss (suc i) (suc m) f k gs, text_eq-join (map_key g) (map_key f) k)
]

insert_hit :
    (d : Deduplicator) (f g : Finding) (j : ℕ)
    → get (map_key f) d.seen ≡ some j
    → get_elem? d.findings j ≡ some g
    → insert d f
      ≡ some (
        record d {
          findings = set d.findings j (with_locations g (add_locations g.locations f.locations));
        },
        j,
      )
unfolding insert
insert_hit d f g j e found = rw (e, insert) (rw (found, insert))

-- An insertion does not panic where the map fits the list; it groups, and the map fits again.
pub insert-group :
    (d : Deduplicator) (f : Finding)
    → IsIndexed d
    → (d' : Deduplicator) × (idx : ℕ) × (insert d f ≡ some (d', idx))
      × (d'.findings ≡ group d.findings f)
      × IsIndexed d'
unfolding insert get
insert-group d f fits = elim (Option-cases (get (map_key f) d.seen)) [
  | inl new_key ↦
      let missing : index_from 0 (map_key f) d.findings ≡ none = sym (fits (map_key f)) ∙ new_key in
      (
        record { seen = (map_key f, length d.findings) ∷ d.seen; findings = d.findings ++ f ∷ [] },
        length d.findings,
        rw (new_key, insert),
        sym (group_miss 0 f d.findings missing),
        λ k. ground (arith, fits k, index_miss 0 0 f k d.findings missing),
      )
  | inr (j, old_key) ↦
      let (n, g, at, found, written, kept) =
        index_hit 0 j f d.findings (sym (fits (map_key f)) ∙ old_key) in
      let same : j ≡ n = omega arith in
      (
        record d { findings = group d.findings f },
        j,
        insert_hit d f g j old_key (rw same found)
            ∙ ap {B = Option (Deduplicator × ℕ)}
                (λ (gs : List Finding). some (record d { findings = gs }, j)) (rw same written),
        refl,
        λ k. fits k ∙ sym (kept 0 k),
      )
]

-- Inserting all findings of a scan into a new deduplicator never panics, and gives the findings
-- grouped by their keys.
pub insert_all-group_all :
    (fs : List Finding) (d : Deduplicator)
    → IsIndexed d
    → (d' : Deduplicator) × (insert_all fs d ≡ some d') × (d'.findings ≡ group_all d.findings fs)
unfolding insert_all group_all
insert_all-group_all [] d fits = (d, refl, refl)
insert_all-group_all (f ∷ fs) d fits =
    let (d', idx, done, grouped, fits') = insert-group d f fits in
    let (last, all_done, all_grouped) = insert_all-group_all fs d' fits' in
    (last, rw (done, insert_all) all_done, all_grouped ∙ ap (λ gs. group_all gs fs) grouped)

pub new-IsIndexed : IsIndexed new
unfolding new get index_from
new-IsIndexed k = refl
