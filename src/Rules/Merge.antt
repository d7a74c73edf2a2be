-- ===== src/Rules/Merge.antt =====
-- Which rules run: of the built-in rules and those of the user, the last with each id.
use jiraleaks.Base.{
  true, false, not, Option, none, some, List, [], ◌∷◌, ◌++◌, append-nil, ◌≡◌, inl, inr, refl, sym,
  ap, ◌∙◌, subst, if◌then◌else◌, Bool-cases, Option-cases, In, here, there, Text, text_eq,
  eq_of_text_eq, text_eq_refl, text_eq_comm,
}
use jiraleaks.Base.{Result, ok, err}
use jiraleaks.Rule.{Regex, Rule, CompiledRule}
use jiraleaks.Rules.{
  compiled_with, from_build, compile, push, from_rules, insert_rule, insert_rules, new,
}

abbrev later {ℓ} : {A : Type ℓ} → Option A → Option A → Option A
later none o = o
later (some a) o = some a

later_assoc {ℓ} : {A : Type ℓ} (a b c : Option A) → later a (later b c) ≡ later (later a b) c
later_assoc none b c = refl
later_assoc (some a) b c = refl

later-none {ℓ} : {A : Type ℓ} (o : Option A) → later o none ≡ o
later-none none = refl
later-none (some a) = refl

abbrev pub written {ℓ} : {A : Type ℓ} → Option (List A) → List A
written none = []
written (some rules) = rules

module _ {F : Type 0} (build : Text → Option Regex) where
  abbrev named : Text → Rule F → Option (Rule F)
  named id rule = if text_eq rule.rule_id id then some rule else none

  abbrev find_rule : Text → List (Rule F) → Option (Rule F)
  find_rule id [] = none
  find_rule id (r ∷ rules) = later (named id r) (find_rule id rules)

  -- The last rule of a list with an id.
  abbrev pub last_rule : Text → List (Rule F) → Option (Rule F)
  last_rule id [] = none
  last_rule id (r ∷ rules) = later (last_rule id rules) (named id r)

  abbrev DistinctIds : List (Rule F) → Type 0
  DistinctIds [] = Unit
  DistinctIds (r ∷ rules) = (find_rule r.rule_id rules ≡ none) × DistinctIds rules

  find_rule-insert_rule :
      (id : Text) (rule : Rule F) (rules : List (Rule F))
      → find_rule id (insert_rule build rule rules) ≡ later (named id rule) (find_rule id rules)
  unfolding insert_rule
  find_rule-insert_rule id rule [] = refl
  find_rule-insert_rule id rule (r ∷ rules) = elim (Bool-cases (text_eq r.rule_id rule.rule_id)) [
    | inl same ↦
        let ids = eq_of_text_eq r.rule_id rule.rule_id same in
        elim (Bool-cases (text_eq rule.rule_id id)) [
          | inl hit ↦ rw (same, hit) refl
          | inr miss ↦ rw (same, miss, ids, miss) refl
        ]
    | inr other ↦ elim (Bool-cases (text_eq rule.rule_id id)) [
      | inl hit ↦
          let miss : text_eq r.rule_id id ≡ false =
            rw (← eq_of_text_eq rule.rule_id id hit) other in
          rw (other, miss) (find_rule-insert_rule id rule rules)
      | inr miss ↦ rw other (
          ap (λ o. later (named id r) o)
            (find_rule-insert_rule id rule rules
              ∙ ap (λ b. later (if b then some rule else none) (find_rule id rules)) miss)
          ∙ sym (ap (λ b. later (if b then some rule else none) (find_rule id (r ∷ rules))) miss))
    ]
  ]

  insert_rule-DistinctIds :
      (rule : Rule F) (rules : List (Rule F))
      → DistinctIds rules
      → DistinctIds (insert_rule build rule rules)
  unfolding insert_rule
  insert_rule-DistinctIds rule [] h = (refl, tt)
  insert_rule-DistinctIds rule (r ∷ rules) (fresh, rest) =
      elim (Bool-cases (text_eq r.rule_id rule.rule_id)) [
        | inl same ↦ rw same (rw (← eq_of_text_eq r.rule_id rule.rule_id same) fresh, rest)
        | inr other ↦
            let miss : text_eq rule.rule_id r.rule_id ≡ false =
              text_eq_comm rule.rule_id r.rule_id ∙ other in
            rw other (
              find_rule-insert_rule r.rule_id rule rules
                  ∙ ap (λ b. later (if b then some rule else none) (find_rule r.rule_id rules)) miss
                  ∙ fresh,
              insert_rule-DistinctIds rule rules rest,
            )
      ]

  find_rule-insert_rules :
      (id : Text) (more rules : List (Rule F))
      → find_rule id (insert_rules build more rules)
        ≡ later (last_rule id more) (find_rule id rules)
  unfolding insert_rules
  find_rule-insert_rules id [] rules = refl
  find_rule-insert_rules id (rule ∷ more) rules =
      find_rule-insert_rules id more (insert_rule build rule rules)
      ∙ ap (λ o. later (last_rule id more) o) (find_rule-insert_rule id rule rules)
      ∙ later_assoc (last_rule id more) (named id rule) (find_rule id rules)

  insert_rules-DistinctIds :
      (more rules : List (Rule F)) → DistinctIds rules → DistinctIds (insert_rules build more rules)
  unfolding insert_rules
  insert_rules-DistinctIds [] rules h = h
  insert_rules-DistinctIds (rule ∷ more) rules h =
      insert_rules-DistinctIds more _ (insert_rule-DistinctIds rule rules h)

  last_rule-append :
      (id : Text) (xs ys : List (Rule F))
      → last_rule id (xs ++ ys) ≡ later (last_rule id ys) (last_rule id xs)
  last_rule-append id [] ys = elim (Option-cases (last_rule id ys)) [
    | inl e ↦ rw e refl
    | inr (r, e) ↦ rw e refl
  ]
  last_rule-append id (x ∷ xs) ys =
      ap (λ o. later o (named id x)) (last_rule-append id xs ys)
      ∙ sym (later_assoc (last_rule id ys) (last_rule id xs) (named id x))

  named-In :
      (r : Rule F) (rules : List (Rule F))
      → In r rules
      → (q : Rule F) × (find_rule r.rule_id rules ≡ some q)
  named-In r [] m = elim m [ ]
  named-In r (x ∷ rules) here = (r, rw (text_eq_refl r.rule_id) refl)
  named-In r (x ∷ rules) (there m) = elim (Bool-cases (text_eq x.rule_id r.rule_id)) [
    | inl hit ↦ (x, rw hit refl)
    | inr miss ↦ let (q, e) = named-In r rules m in (q, rw miss e)
  ]

  find_rule-In :
      (r : Rule F) (rules : List (Rule F))
      → DistinctIds rules
      → In r rules
      → find_rule r.rule_id rules ≡ some r
  find_rule-In r [] d m = elim m [ ]
  find_rule-In r (x ∷ rules) d here = rw (text_eq_refl r.rule_id) refl
  find_rule-In r (x ∷ rules) (fresh, d) (there m) =
      elim (Bool-cases (text_eq x.rule_id r.rule_id)) [
        | inl hit ↦
            let (q, e) = named-In r rules m in
            let none_there : find_rule r.rule_id rules ≡ none =
              rw (← eq_of_text_eq x.rule_id r.rule_id hit) fresh in
            absurd (cc)
        | inr miss ↦ rw miss (find_rule-In r rules d m)
      ]

  -- The rule as it is written that a compiled rule comes from.
  pub record IsSource (c : CompiledRule F) (r : Rule F) : Type 0 where
    pub on : r.enabled ≡ true
    pub regex : build r.regex ≡ some c.regex
    pub same : c ≡ compiled_with build r c.regex

  compile-IsSource :
      (r : Rule F) (c : CompiledRule F) → r.enabled ≡ true → compile build r ≡ ok c → IsSource c r
  unfolding compile compiled_with
  compile-IsSource r c on h = elim (Option-cases (build r.regex)) [
    | inl fails ↦
        let failed : from_build build r none ≡ ok c =
          ap (λ o. from_build build r o) (sym fails) ∙ h in
        absurd (cc)
    | inr (x, built) ↦
        let done : from_build build r (some x) ≡ ok c =
          ap (λ o. from_build build r o) (sym built) ∙ h in
        let same : compiled_with build r x ≡ c = cc in
        subst (λ y. IsSource y r) same (record { on = on; regex = built; same = refl })
  ]

  push-ok :
      (a : Result Text (CompiledRule F)) (b : Result Text (List (CompiledRule F)))
      (cs : List (CompiledRule F))
      → push build a b ≡ ok cs
      → (c : CompiledRule F) × (rest : List (CompiledRule F)) × (a ≡ ok c)
        × (b ≡ ok rest)
        × (c ∷ rest ≡ cs)
  push-ok (err e) b cs h = absurd (cc)
  push-ok (ok c) (err e) cs h = absurd (cc)
  push-ok (ok c) (ok rest) cs h = (c, rest, refl, refl, cc)

  from_rules-IsSource :
      (rules : List (Rule F)) (cs : List (CompiledRule F)) (c : CompiledRule F)
      → from_rules build rules ≡ ok cs
      → In c cs
      → (r : Rule F) × In r rules × IsSource c r
  unfolding from_rules
  from_rules-IsSource [] cs c h m =
      let empty : [] ≡ cs = cc in elim (subst (λ l. In c l) (sym empty) m) [ ]
  from_rules-IsSource (r ∷ rules) cs c h m = elim (Bool-cases r.enabled) [
    | inr off ↦
        let (q, member, source) =
          from_rules-IsSource rules cs c
            (sym (
                ap
                  (λ b.
                    if not b
                    then from_rules build rules
                    else push build (compile build r) (from_rules build rules))
                  off)
              ∙ h)
            m in
        (q, there member, source)
    | inl on ↦
        let pushed : push build (compile build r) (from_rules build rules) ≡ ok cs =
          sym (
            ap
              (λ b.
                if not b
                then from_rules build rules
                else push build (compile build r) (from_rules build rules))
              on)
          ∙ h in
        let (first, rest, compiled, others, whole) = push-ok _ _ cs pushed in
        head_or_tail first rest compiled (λ m'. from_rules-IsSource rules rest c others m')
          (subst (λ l. In c l) (sym whole) m) on
  ]
    where
      head_or_tail :
          (first : CompiledRule F) (rest : List (CompiledRule F))
          → compile build r ≡ ok first
          → (In c rest → (q : Rule F) × In q rules × IsSource c q)
          → In c (first ∷ rest)
          → r.enabled ≡ true
          → (q : Rule F) × In q (r ∷ rules) × IsSource c q
      head_or_tail first rest compiled others here on = (r, here, compile-IsSource r c on compiled)
      head_or_tail first rest compiled others (there m') on =
          let (q, member, source) = others m' in (q, there member, source)

  insert_rules-append :
      (xs ys rules : List (Rule F))
      → insert_rules build ys (insert_rules build xs rules) ≡ insert_rules build (xs ++ ys) rules
  unfolding insert_rules
  insert_rules-append [] ys rules = refl
  insert_rules-append (x ∷ xs) ys rules = insert_rules-append xs ys (insert_rule build x rules)

  merged-IsSource :
      (all_rules : List (Rule F)) (cs : List (CompiledRule F)) (c : CompiledRule F)
      → from_rules build (insert_rules build all_rules []) ≡ ok cs
      → In c cs
      → (r : Rule F) × (last_rule r.rule_id all_rules ≡ some r) × IsSource c r
  merged-IsSource all_rules cs c h m =
      let (r, member, source) = from_rules-IsSource _ cs c h m in
      (
        r,
        sym (later-none (last_rule r.rule_id all_rules))
            ∙ sym (find_rule-insert_rules r.rule_id all_rules [])
            ∙ find_rule-In r _ (insert_rules-DistinctIds all_rules [] tt) member,
        source,
      )

  -- Every rule that runs is compiled from the last rule with its id among the built-in rules and,
  -- behind them, those of the user, so that a rule of the user replaces the one built in; and that
  -- rule is enabled.
  pub new-IsSource :
      (builtin : List (Rule F)) (user : Option (List (Rule F))) (cs : List (CompiledRule F))
      (c : CompiledRule F)
      → new build builtin user ≡ ok cs
      → In c cs
      → (r : Rule F) × (last_rule r.rule_id (builtin ++ written user) ≡ some r) × IsSource c r
  unfolding new
  new-IsSource builtin none cs c h m =
      subst (λ l. (r : Rule F) × (last_rule r.rule_id l ≡ some r) × IsSource c r)
        (sym (append-nil builtin)) (merged-IsSource builtin cs c h m)
  new-IsSource builtin (some user) cs c h m =
      merged-IsSource (builtin ++ user) cs c
        (ap (λ l. from_rules build l) (sym (insert_rules-append builtin user [])) ∙ h) m
