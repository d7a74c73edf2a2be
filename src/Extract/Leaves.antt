-- ===== src/Extract/Leaves.antt =====
-- Which segments come out of a value: one for every string in it, at the path of that string.
use jiraleaks.Base.{
  ℕ, ◌+◌, ◌≤◌, some, List, [], ◌∷◌, ◌≡◌, ◌↔◌, ◌⊎◌, inl, inr, refl, sym, subst, arith, leb,
  Bool-cases, In, here, there, In-append_left, In-append_right, In-append_split, Text,
}
use jiraleaks.Text.Bytes.{byte_len, floor_char_boundary, take_bytes}
use jiraleaks.Text.Bytes.Boundary.{floor_prefix_lem}
use jiraleaks.Json.{
  Value, Values, Fields, null, boolean, number, string, array, object, no_values, value_then,
  no_fields, field_then,
}
use jiraleaks.Extract.{
  TextSegment, at_key, at_index, classify_path, max_bytes, truncate, segment, walk_value,
  walk_elements, walk_fields, extract,
}

-- The text `s` stands in a value that is at `path`, and its own path is `leaf`.
mutual
  pub data Leaf : (path : Text) → Value → (leaf s : Text) → Type 0 where
    is_string : {path s : Text} → Leaf path (string s) path s
    in_array :
        {path leaf s : Text} {values : Values}
        → ElementLeaf path 0 values leaf s
        → Leaf path (array values) leaf s
    in_object :
        {path leaf s : Text} {fields : Fields}
        → FieldLeaf path fields leaf s
        → Leaf path (object fields) leaf s

  pub data ElementLeaf : (path : Text) (i : ℕ) → Values → (leaf s : Text) → Type 0 where
    at_element :
        {path leaf s : Text} {i : ℕ} {v : Value} {values : Values}
        → Leaf (at_index path i) v leaf s
        → ElementLeaf path i (value_then v values) leaf s
    after_element :
        {path leaf s : Text} {i : ℕ} {v : Value} {values : Values}
        → ElementLeaf path (i + 1) values leaf s
        → ElementLeaf path i (value_then v values) leaf s

  pub data FieldLeaf : (path : Text) → Fields → (leaf s : Text) → Type 0 where
    at_field :
        {path leaf s key : Text} {v : Value} {fields : Fields}
        → Leaf (at_key path key) v leaf s
        → FieldLeaf path (field_then key v fields) leaf s
    after_field :
        {path leaf s key : Text} {v : Value} {fields : Fields}
        → FieldLeaf path fields leaf s
        → FieldLeaf path (field_then key v fields) leaf s

In-singleton {ℓ} : {A : Type ℓ} {a b : A} → In a (b ∷ []) → a ≡ b
In-singleton here = refl
In-singleton (there m) = elim m [ ]

module _ (max_text_size_kb : ℕ) where
  abbrev segment_of : Text → Text → TextSegment
  segment_of leaf s = segment max_text_size_kb leaf s (classify_path leaf)

  mutual
    unfolding walk_value walk_elements walk_fields

    kept :
        (path : Text) (v : Value) (segments : List TextSegment) (x : TextSegment)
        → In x segments
        → In x (walk_value max_text_size_kb path v segments)
    kept path null segments x m = m
    kept path (boolean b) segments x m = m
    kept path (number n) segments x m = m
    kept path (string s) segments x m = In-append_left segments _ m
    kept path (array values) segments x m = kept_elements path 0 values segments x m
    kept path (object fields) segments x m = kept_fields path fields segments x m

    kept_elements :
        (path : Text) (i : ℕ) (values : Values) (segments : List TextSegment) (x : TextSegment)
        → In x segments
        → In x (walk_elements max_text_size_kb path i values segments)
    kept_elements path i no_values segments x m = m
    kept_elements path i (value_then v values) segments x m =
        kept_elements path (i + 1) values _ x (kept (at_index path i) v segments x m)

    kept_fields :
        (path : Text) (fields : Fields) (segments : List TextSegment) (x : TextSegment)
        → In x segments
        → In x (walk_fields max_text_size_kb path fields segments)
    kept_fields path no_fields segments x m = m
    kept_fields path (field_then key v fields) segments x m =
        kept_fields path fields _ x (kept (at_key path key) v segments x m)

  -- Every string is reached.
  mutual
    unfolding walk_value walk_elements walk_fields

    reached :
        (path : Text) (v : Value) (segments : List TextSegment) (leaf s : Text)
        → Leaf path v leaf s
        → In (segment_of leaf s) (walk_value max_text_size_kb path v segments)
    reached path null segments leaf s l = elim l [ ]
    reached path (boolean b) segments leaf s l = elim l [ ]
    reached path (number n) segments leaf s l = elim l [ ]
    reached path (string s) segments leaf t is_string = In-append_right segments _ here
    reached path (array values) segments leaf s (in_array l) =
        reached_elements path 0 values segments leaf s l
    reached path (object fields) segments leaf s (in_object l) =
        reached_fields path fields segments leaf s l

    reached_elements :
        (path : Text) (i : ℕ) (values : Values) (segments : List TextSegment) (leaf s : Text)
        → ElementLeaf path i values leaf s
        → In (segment_of leaf s) (walk_elements max_text_size_kb path i values segments)
    reached_elements path i no_values segments leaf s l = elim l [ ]
    reached_elements path i (value_then v values) segments leaf s (at_element l) =
        kept_elements path (i + 1) values _ _ (reached (at_index path i) v segments leaf s l)
    reached_elements path i (value_then v values) segments leaf s (after_element l) =
        reached_elements path (i + 1) values _ leaf s l

    reached_fields :
        (path : Text) (fields : Fields) (segments : List TextSegment) (leaf s : Text)
        → FieldLeaf path fields leaf s
        → In (segment_of leaf s) (walk_fields max_text_size_kb path fields segments)
    reached_fields path no_fields segments leaf s l = elim l [ ]
    reached_fields path (field_then key v fields) segments leaf s (at_field l) =
        kept_fields path fields _ _ (reached (at_key path key) v segments leaf s l)
    reached_fields path (field_then key v fields) segments leaf s (after_field l) =
        reached_fields path fields _ leaf s l

  -- A segment that is of a leaf.
  abbrev pub IsOf : ((leaf s : Text) → Type 0) → TextSegment → Type 0
  IsOf L x = (leaf : Text) × (s : Text) × L leaf s × (x ≡ segment_of leaf s)

  IsOf-map :
      {L M : (leaf s : Text) → Type 0} (x : TextSegment)
      → ((leaf s : Text) → L leaf s → M leaf s)
      → IsOf L x
      → IsOf M x
  IsOf-map x f (leaf, s, l, e) = (leaf, s, f leaf s l, e)

  -- Every segment that is new is that of a string.
  mutual
    unfolding walk_value walk_elements walk_fields

    origin :
        (path : Text) (v : Value) (segments : List TextSegment) (x : TextSegment)
        → In x (walk_value max_text_size_kb path v segments)
        → In x segments ⊎ IsOf (Leaf path v) x
    origin path null segments x m = inl m
    origin path (boolean b) segments x m = inl m
    origin path (number n) segments x m = inl m
    origin path (string s) segments x m = elim (In-append_split segments _ m) [
      | inl old ↦ inl old
      | inr new ↦ inr (path, s, is_string, In-singleton new)
    ]
    origin path (array values) segments x m = elim (origin_elements path 0 values segments x m) [
      | inl old ↦ inl old
      | inr new ↦ inr (IsOf-map x (λ leaf s l. in_array l) new)
    ]
    origin path (object fields) segments x m = elim (origin_fields path fields segments x m) [
      | inl old ↦ inl old
      | inr new ↦ inr (IsOf-map x (λ leaf s l. in_object l) new)
    ]

    origin_elements :
        (path : Text) (i : ℕ) (values : Values) (segments : List TextSegment) (x : TextSegment)
        → In x (walk_elements max_text_size_kb path i values segments)
        → In x segments ⊎ IsOf (ElementLeaf path i values) x
    origin_elements path i no_values segments x m = inl m
    origin_elements path i (value_then v values) segments x m =
        elim (origin_elements path (i + 1) values _ x m) [
          | inr new ↦ inr (IsOf-map x (λ leaf s l. after_element l) new)
          | inl earlier ↦ elim (origin (at_index path i) v segments x earlier) [
            | inl old ↦ inl old
            | inr new ↦ inr (IsOf-map x (λ leaf s l. at_element l) new)
          ]
        ]

    origin_fields :
        (path : Text) (fields : Fields) (segments : List TextSegment) (x : TextSegment)
        → In x (walk_fields max_text_size_kb path fields segments)
        → In x segments ⊎ IsOf (FieldLeaf path fields) x
    origin_fields path no_fields segments x m = inl m
    origin_fields path (field_then key v fields) segments x m =
        elim (origin_fields path fields _ x m) [
          | inr new ↦ inr (IsOf-map x (λ leaf s l. after_field l) new)
          | inl earlier ↦ elim (origin (at_key path key) v segments x earlier) [
            | inl old ↦ inl old
            | inr new ↦ inr (IsOf-map x (λ leaf s l. at_field l) new)
          ]
        ]

  -- The text of a segment has at most the bytes of the limit. It is the whole text, or what stands
  -- before the last character boundary within the limit.
  pub truncate_lem :
      (s : Text)
      → (byte_len (truncate max_text_size_kb s) ≤ max_bytes max_text_size_kb)
        × ((truncate max_text_size_kb s ≡ s)
            ⊎ (take_bytes s (floor_char_boundary s (max_bytes max_text_size_kb))
                ≡ some (truncate max_text_size_kb s)))
  unfolding truncate
  truncate_lem s = elim (Bool-cases (leb (byte_len s) (max_bytes max_text_size_kb))) [
    | inl short ↦ rw short (ground arith, inl refl)
    | inr long ↦
        let (cut, bounded) = floor_prefix_lem s (max_bytes max_text_size_kb) in
        rw long (bounded, inr cut)
  ]

  -- A segment comes out of the fields of an issue just if it is that of a string which stands in them,
  -- at the path of the string.
  pub extract_iff :
      (fields : Fields) (x : TextSegment)
      → In x (extract max_text_size_kb (object fields)) ↔ IsOf (FieldLeaf [] fields) x
  unfolding extract
  extract_iff fields x = (
    λ m. elim (origin_fields [] fields [] x m) [ inl old ↦ elim old [ ] | inr new ↦ new ],
    λ (leaf, s, l, e).
        subst (λ y. In y (walk_fields max_text_size_kb [] fields [])) (sym e)
          (reached_fields [] fields [] leaf s l),
  )
