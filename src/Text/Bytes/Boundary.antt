-- ===== src/Text/Bytes/Boundary.antt =====
-- Character boundaries: `floor_char_boundary` and `ceil_char_boundary` return one, and a slice
-- between two boundaries in order does not panic.
use jiraleaks.Base.{
  ℕ, ◌+◌, ◌-◌, ◌≤◌, ◌<◌, some, [], ◌∷◌, ◌++◌, ◌≡◌, inl, inr, refl, sym, ap, ◌∙◌, arith, ltb, ◌==◌,
  Bool-cases, Text, append_assoc,
}
use jiraleaks.Text.Bytes.{
  len_utf8, byte_len, floor_char_boundary, ceil_char_boundary, take_bytes, drop_bytes, slice,
  floor_prefix,
}

-- `i` is where the text falls into two.
pub record IsBoundary (s : Text) (i : ℕ) : Type 0 where
  pub before : Text
  pub after : Text
  pub split : s ≡ before ++ after
  pub offset : i ≡ byte_len before

pub len_utf8_pos : (c : ℕ) → 0 < len_utf8 c
unfolding len_utf8
len_utf8_pos c = ground arith

pub byte_len-append : (a b : Text) → byte_len (a ++ b) ≡ byte_len a + byte_len b
unfolding byte_len
byte_len-append [] b = omega arith
byte_len-append (c ∷ a) b = omega (arith, byte_len-append a b)

pub take_bytes-append : (a b : Text) → take_bytes (a ++ b) (byte_len a) ≡ some a
unfolding byte_len take_bytes
take_bytes-append [] [] = refl
take_bytes-append [] (c ∷ b) = refl
take_bytes-append (c ∷ a) b =
    let rest : len_utf8 c + byte_len a - len_utf8 c ≡ byte_len a = omega arith in
    ground (arith, len_utf8_pos c, take_bytes-append a b, rest)

pub drop_bytes-append : (a b : Text) → drop_bytes (a ++ b) (byte_len a) ≡ some b
unfolding byte_len drop_bytes
drop_bytes-append [] [] = refl
drop_bytes-append [] (c ∷ b) = refl
drop_bytes-append (c ∷ a) b =
    let rest : len_utf8 c + byte_len a - len_utf8 c ≡ byte_len a = omega arith in
    ground (arith, len_utf8_pos c, drop_bytes-append a b, rest)

pub floor-le : (s : Text) (i : ℕ) → floor_char_boundary s i ≤ i
unfolding floor_char_boundary
floor-le [] i = omega arith
floor-le (c ∷ s) i = ground (arith, floor-le s (i - len_utf8 c))

pub le-ceil : (s : Text) (i : ℕ) → i ≤ byte_len s → i ≤ ceil_char_boundary s i
unfolding ceil_char_boundary byte_len
le-ceil [] i h = h
le-ceil (c ∷ s) i h = ground (arith, le-ceil s (i - len_utf8 c))

pub start-IsBoundary : (s : Text) → IsBoundary s 0
unfolding byte_len
start-IsBoundary s = record { before = []; after = s; split = refl; offset = refl }

cons-IsBoundary : (c : ℕ) (s : Text) (i : ℕ) → IsBoundary s i → IsBoundary (c ∷ s) (len_utf8 c + i)
unfolding byte_len
cons-IsBoundary c s i b = record {
  before = c ∷ b.before;
  after = b.after;
  split = ap (◌∷◌ c) b.split;
  offset = omega (arith, b.offset);
}

pub floor-IsBoundary : (s : Text) (i : ℕ) → IsBoundary s (floor_char_boundary s i)
unfolding floor_char_boundary
floor-IsBoundary [] i = start-IsBoundary []
floor-IsBoundary (c ∷ s) i = elim (Bool-cases (ltb i (len_utf8 c))) [
  | inl p ↦ rw p (start-IsBoundary (c ∷ s))
  | inr p ↦ rw p (cons-IsBoundary c s _ (floor-IsBoundary s (i - len_utf8 c)))
]

pub ceil-IsBoundary : (s : Text) (i : ℕ) → IsBoundary s (ceil_char_boundary s i)
unfolding ceil_char_boundary
ceil-IsBoundary [] i = start-IsBoundary []
ceil-IsBoundary (c ∷ s) i = elim (Bool-cases (i == 0)) [
  | inl p ↦ rw p (start-IsBoundary (c ∷ s))
  | inr p ↦ rw p (cons-IsBoundary c s _ (ceil-IsBoundary s (i - len_utf8 c)))
]

-- Of two ways to split a text, the shorter first part begins the longer one.
between :
    (a b a' b' : Text) → a ++ b ≡ a' ++ b' → byte_len a ≤ byte_len a' → (m : Text) × (a' ≡ a ++ m)
unfolding byte_len
between [] b a' b' e h = (a', refl)
between (c ∷ a) b [] b' e h = absurd (omega (arith, len_utf8_pos c))
between (c ∷ a) b (d ∷ a') b' e h = let (m, same) = between a b a' b' (cc) (ground arith) in (m, cc)

-- The slice of the middle part.
pub slice-append : (a m b : Text) → slice ((a ++ m) ++ b) (byte_len a) (byte_len (a ++ m)) ≡ some m
unfolding slice
slice-append a m b = rw (slice, take_bytes-append (a ++ m) b) (drop_bytes-append a m)

-- A slice between two boundaries that are in order is the text between them.
pub slice-between :
    (s : Text) (i j : ℕ)
    → IsBoundary s i
    → IsBoundary s j
    → i ≤ j
    → (m : Text) × (a : Text) × (b : Text) × (slice s i j ≡ some m)
      × (s ≡ (a ++ m) ++ b)
      × (i ≡ byte_len a)
      × (j ≡ byte_len (a ++ m))
slice-between s i j p q h =
    let (m, whole) =
      between p.before p.after q.before q.after (sym p.split ∙ q.split)
        (omega (arith, p.offset, q.offset)) in
    let text : s ≡ (p.before ++ m) ++ q.after = cc (q.split, whole) in
    let last : j ≡ byte_len (p.before ++ m) = cc (q.offset, whole) in
    (
      m,
      p.before,
      q.after,
      rw (text, p.offset, last) (slice-append p.before m q.after),
      text,
      p.offset,
      last,
    )

-- A slice around a part of a text holds that part, at its offset less that of the slice.
pub slice-around :
    (a v b : Text) (i j : ℕ)
    → IsBoundary ((a ++ v) ++ b) i
    → IsBoundary ((a ++ v) ++ b) j
    → i ≤ byte_len a
    → byte_len (a ++ v) ≤ j
    → (w : Text) × (slice ((a ++ v) ++ b) i j ≡ some w)
      × (slice w (byte_len a - i) (byte_len (a ++ v) - i) ≡ some v)
slice-around a v b i j p q low high =
    let (x, ahead) =
      between p.before p.after a (v ++ b) (sym p.split ∙ append_assoc a v b)
        (omega (arith, p.offset)) in
    let (y, behind) = between (a ++ v) b q.before q.after q.split (omega (arith, q.offset)) in
    let w = (x ++ v) ++ y in
    let last : q.before ≡ p.before ++ w =
      behind
      ∙ ap (λ t. (t ++ v) ++ y) ahead
      ∙ ap (λ t. t ++ y) (append_assoc p.before x v)
      ∙ append_assoc p.before (x ++ v) y in
    let start : byte_len a - i ≡ byte_len x =
      omega (arith, p.offset, ap byte_len ahead, byte_len-append p.before x) in
    let end : byte_len (a ++ v) - i ≡ byte_len (x ++ v) = omega (
      arith,
      p.offset,
      byte_len-append a v,
      byte_len-append x v,
      ap byte_len ahead,
      byte_len-append p.before x,
    ) in
    (
      w,
      ap (λ t. slice t i j) (q.split ∙ ap (λ t. t ++ q.after) last)
          ∙ ap (λ n. slice ((p.before ++ w) ++ q.after) n j) p.offset
          ∙ ap (λ n. slice ((p.before ++ w) ++ q.after) (byte_len p.before) n)
              (q.offset ∙ ap byte_len last)
          ∙ slice-append p.before w q.after,
      ap (λ n. slice w n (byte_len (a ++ v) - i)) start
          ∙ ap (λ n. slice w (byte_len x) n) end
          ∙ slice-append x v y,
    )

-- The prefix at the last boundary before an offset, and it is no longer than the offset.
pub floor_prefix_lem :
    (s : Text) (i : ℕ)
    → (take_bytes s (floor_char_boundary s i) ≡ some (floor_prefix s i))
      × (byte_len (floor_prefix s i) ≤ i)
unfolding take_bytes floor_char_boundary floor_prefix byte_len
floor_prefix_lem [] i = (refl, omega arith)
floor_prefix_lem (c ∷ s) i =
    let (taken, bounded) = floor_prefix_lem s (i - len_utf8 c) in
    elim (Bool-cases (ltb i (len_utf8 c))) [
      | inl p ↦ rw p (refl, omega arith)
      | inr p ↦
          let fits : len_utf8 c ≤ i = ground arith in
          let rest : len_utf8 c + floor_char_boundary s (i - len_utf8 c) - len_utf8 c
              ≡ floor_char_boundary s (i - len_utf8 c) =
            omega arith in
          (ground (arith, len_utf8_pos c, taken, rest), rw p (omega (arith, fits)))
    ]
