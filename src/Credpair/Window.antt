-- ===== src/Credpair/Window.antt =====
-- The two cursors of the window against the positions that lie in it.
use jiraleaks.Base.{
  ℕ, zero, suc, ◌+◌, ◌-◌, ◌≤◌, ◌<◌, true, false, ◌&&◌, List, [], ◌∷◌, ◌≡◌, inl, inr, refl, sym, ap,
  ◌∙◌, arith, ltb, leb, if◌then◌else◌, Bool-cases, take, drop, Text,
}
use jiraleaks.Credpair.{insert_by_pos, sort_by_pos, count_before, count_upto}

-- The positions do not descend, and none is before `low`.
abbrev pub IsSorted : ℕ → List (ℕ × Text) → Type 0
IsSorted low [] = Unit
IsSorted low (m ∷ ms) = (low ≤ m.0) × IsSorted m.0 ms

IsSorted-weaken :
    (low low' : ℕ) (ms : List (ℕ × Text)) → low' ≤ low → IsSorted low ms → IsSorted low' ms
IsSorted-weaken low low' [] h s = tt
IsSorted-weaken low low' (m ∷ ms) h (first, rest) = (omega arith, rest)

insert_by_pos-IsSorted :
    (low : ℕ) (m : ℕ × Text) (ms : List (ℕ × Text))
    → low ≤ m.0
    → IsSorted low ms
    → IsSorted low (insert_by_pos m ms)
unfolding insert_by_pos
insert_by_pos-IsSorted low m [] h s = (h, tt)
insert_by_pos-IsSorted low m (n ∷ ms) h (first, rest) = elim (Bool-cases (leb m.0 n.0)) [
  | inl before ↦ rw before (h, (ground arith, rest))
  | inr behind ↦ rw behind (first, insert_by_pos-IsSorted n.0 m ms (ground arith) rest)
]

pub sort_by_pos-IsSorted : (ms : List (ℕ × Text)) → IsSorted 0 (sort_by_pos ms)
unfolding sort_by_pos
sort_by_pos-IsSorted [] = tt
sort_by_pos-IsSorted (m ∷ ms) =
    insert_by_pos-IsSorted 0 m (sort_by_pos ms) (omega arith) (sort_by_pos-IsSorted ms)

-- Starting a cursor behind positions that it would pass anyway changes nothing.
pub count_before-drop :
    (start lo : ℕ) (users : List (ℕ × Text))
    → lo ≤ count_before start users
    → lo + count_before start (drop lo users) ≡ count_before start users
unfolding count_before
count_before-drop start zero users h = omega arith
count_before-drop start (suc lo) [] h = omega arith
count_before-drop start (suc lo) (u ∷ users) h = elim (Bool-cases (ltb u.0 start)) [
  | inl passed ↦
      let more : suc lo ≤ suc (count_before start users) = rw passed at h in
      rw passed (omega (arith, count_before-drop start lo users (omega arith)))
  | inr stop ↦ let none_passed : suc lo ≤ 0 = rw stop at h in absurd (omega arith)
]

pub count_upto-drop :
    (end hi : ℕ) (users : List (ℕ × Text))
    → hi ≤ count_upto end users
    → hi + count_upto end (drop hi users) ≡ count_upto end users
unfolding count_upto
count_upto-drop end zero users h = omega arith
count_upto-drop end (suc hi) [] h = omega arith
count_upto-drop end (suc hi) (u ∷ users) h = elim (Bool-cases (leb u.0 end)) [
  | inl passed ↦
      let more : suc hi ≤ suc (count_upto end users) = rw passed at h in
      rw passed (omega (arith, count_upto-drop end hi users (omega arith)))
  | inr stop ↦ let none_passed : suc hi ≤ 0 = rw stop at h in absurd (omega arith)
]

pub count_before_mono :
    (a b : ℕ) (users : List (ℕ × Text)) → a ≤ b → count_before a users ≤ count_before b users
unfolding count_before
count_before_mono a b [] h = omega arith
count_before_mono a b (u ∷ users) h = ground (arith, count_before_mono a b users h)

pub count_upto_mono :
    (a b : ℕ) (users : List (ℕ × Text)) → a ≤ b → count_upto a users ≤ count_upto b users
unfolding count_upto
count_upto_mono a b [] h = omega arith
count_upto_mono a b (u ∷ users) h = ground (arith, count_upto_mono a b users h)

pub count_before-upto :
    (a b : ℕ) (users : List (ℕ × Text)) → a ≤ b → count_before a users ≤ count_upto b users
unfolding count_before count_upto
count_before-upto a b [] h = omega arith
count_before-upto a b (u ∷ users) h = ground (arith, count_before-upto a b users h)

-- The users within a window, one by one.
abbrev pub within : (start end : ℕ) → List (ℕ × Text) → List (ℕ × Text)
within start end [] = []
within start end (u ∷ users) =
    if leb start u.0 && leb u.0 end then u ∷ within start end users else within start end users

within-past :
    (start end low : ℕ) (users : List (ℕ × Text))
    → end < low
    → IsSorted low users
    → within start end users ≡ []
within-past start end low [] h s = refl
within-past start end low (u ∷ users) h (first, rest) =
    ground (arith, within-past start end u.0 users (omega arith) rest)

take-within :
    (start end low : ℕ) (users : List (ℕ × Text))
    → start ≤ low
    → IsSorted low users
    → take (count_upto end users) users ≡ within start end users
unfolding count_upto
take-within start end low [] h s = refl
take-within start end low (u ∷ users) h (first, rest) = elim (Bool-cases (leb u.0 end)) [
  | inl passed ↦
      let inside : leb start u.0 ≡ true = ground arith in
      rw (passed, inside) (ap (λ l. u ∷ l) (take-within start end u.0 users (omega arith) rest))
  | inr stop ↦
      let past : within start end users ≡ [] =
        within-past start end u.0 users (ground arith) rest in
      let inside : leb start u.0 ≡ true = ground arith in rw (stop, inside) (sym past)
]

-- The slice between the cursors holds the users within the window.
pub slice-within :
    (start end low : ℕ) (users : List (ℕ × Text))
    → start ≤ end
    → IsSorted low users
    → take (count_upto end users - count_before start users) (drop (count_before start users) users)
      ≡ within start end users
unfolding count_before count_upto
slice-within start end low [] h s = refl
slice-within start end low (u ∷ users) h (first, rest) = elim (Bool-cases (ltb u.0 start)) [
  | inl passed ↦
      let under : leb u.0 end ≡ true = ground arith in
      let outside : leb start u.0 ≡ false = ground arith in
      let one_less : suc (count_upto end users) - suc (count_before start users)
          ≡ count_upto end users - count_before start users =
        omega arith in
      rw (passed, under, outside)
        (ap (λ n. take n (drop (count_before start users) users)) one_less
          ∙ slice-within start end u.0 users h rest)
  | inr stop ↦
      let whole : count_upto end (u ∷ users) - 0 ≡ count_upto end (u ∷ users) = omega arith in
      rw stop (
        ap (λ n. take n (u ∷ users)) whole
        ∙ take-within start end u.0 (u ∷ users) (ground arith) (omega arith, rest))
]
