-- ===== src/Finding/Keys.antt =====
-- The identities of findings: two keys have one fingerprint only if the digest collides, and two
-- merge keys are written alike only if they are equal.
use jiraleaks.Base.{ℕ, List, [], ◌∷◌, ◌++◌, ◌≡◌, refl, arith, ==_refl, length, All, Text}
use jiraleaks.Text.Find.Absent.{Lacks}
use jiraleaks.Hash.{IsByte, encode, sha256_hex, encode-injective}
use jiraleaks.Finding.{FindingKey, MergeKey, merge_key_text, fingerprint_input, fingerprint}

-- A separator that stands in neither first part splits two equal texts alike.
split_at_separator :
    (x : ℕ) (a b a' b' : Text)
    → Lacks x a
    → Lacks x a'
    → a ++ x ∷ b ≡ a' ++ x ∷ b'
    → (a ≡ a') × (b ≡ b')
split_at_separator x [] b [] b' _ _ e = (refl, cc)
split_at_separator x [] b (d ∷ a') b' _ (l, _) e = absurd (ground (arith, ==_refl x))
split_at_separator x (c ∷ a) b [] b' (l, _) _ e = absurd (ground (arith, ==_refl x))
split_at_separator x (c ∷ a) b (d ∷ a') b' (_, ls) (_, ls') e =
    let (first, rest) = split_at_separator x a b a' b' ls ls' (cc) in (cc, rest)

-- Two equal texts with first parts of one length.
split_at_length :
    (a b a' b' : Text) → length a ≡ length a' → a ++ b ≡ a' ++ b' → (a ≡ a') × (b ≡ b')
split_at_length [] b [] b' h e = (refl, e)
split_at_length [] b (d ∷ a') b' h e = absurd (omega arith)
split_at_length (c ∷ a) b [] b' h e = absurd (omega arith)
split_at_length (c ∷ a) b (d ∷ a') b' h e =
    let (first, rest) = split_at_length a b a' b' (omega arith) (cc) in (cc, rest)

-- The parts of a key that stand before a separator do not hold it.
abbrev pub IsSeparable : FindingKey → Type 0
IsSeparable k = Lacks 0x1f k.secret_hash × Lacks 0x1f k.rule_id

fingerprint_input-injective :
    (k k' : FindingKey)
    → IsSeparable k
    → IsSeparable k'
    → fingerprint_input k ≡ fingerprint_input k'
    → k ≡ k'
fingerprint_input-injective k k' (h, r) (h', r') e =
    let (hashes, rest) = split_at_separator 0x1f k.secret_hash _ k'.secret_hash _ h h' e in
    let (rules, issues) =
      split_at_separator 0x1f k.rule_id k.issue_key k'.rule_id k'.issue_key r r' rest in
    λ i. record { secret_hash = hashes i; rule_id = rules i; issue_key = issues i }

-- Two keys whose hash and rule hold no separator have one fingerprint only if they are equal, or
-- their texts collide in the digest, which consists of bytes; the issue key may be any text.
pub fingerprint-injective :
    (digest : Text → List ℕ) (k k' : FindingKey)
    → IsSeparable k
    → IsSeparable k'
    → All IsByte (digest (fingerprint_input k))
    → All IsByte (digest (fingerprint_input k'))
    → (digest (fingerprint_input k) ≡ digest (fingerprint_input k')
        → fingerprint_input k ≡ fingerprint_input k')
    → fingerprint digest k ≡ fingerprint digest k'
    → k ≡ k'
unfolding fingerprint sha256_hex
fingerprint-injective digest k k' s s' b b' no_collision e =
    let hex : encode (digest (fingerprint_input k)) ≡ encode (digest (fingerprint_input k')) = cc in
    fingerprint_input-injective k k' s s' (no_collision (encode-injective _ _ b b' hex))

-- Two merge keys with hashes of one length are written alike only if they are equal, also where a
-- rule id holds a colon.
merge_key_text-injective :
    (k k' : MergeKey)
    → length k.secret_hash ≡ length k'.secret_hash
    → merge_key_text k ≡ merge_key_text k'
    → k ≡ k'
merge_key_text-injective k k' h e =
    let (hashes, rest) = split_at_length k.secret_hash _ k'.secret_hash _ h e in
    let rules : k.rule_id ≡ k'.rule_id = cc in
    λ i. record { secret_hash = hashes i; rule_id = rules i }
