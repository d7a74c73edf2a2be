-- ===== src/Rules.antt =====
-- src/rules.rs: compiling rules, and merging the rules of a user into those built in. `build` is
-- `Regex::new`; the two lists of rules are what the YAML parser reads.
pub mod Scan
pub mod Merge
use jiraleaks.Base.{
  ℕ, zero, suc, ◌+◌, ◌-◌, ◌*◌, ◌/◌, ◌%◌, ◌^◌, ◌≤◌, ◌<◌, min, max, Bool, true, false, not, ◌&&◌,
  ◌||◌, Option, none, some, List, [], ◌∷◌, ◌++◌, map, append_assoc, append-nil, ◌≡◌, ◌≢◌, ◌↔◌, ◌⊎◌,
  inl, inr, refl, sym, ap, ◌∙◌, subst, arith, ltb, leb, ◌==◌, if◌then◌else◌, Bool-cases,
  Option-cases, eq_of_==, ==_refl, &&-true, ||-true, ||-false, length, get_elem?, take, drop,
  is_empty, any, all, All, In, here, there, length-append, length-take-le, length-reverse, reverse,
  reverse-append, In-append_left, In-append_right, In-append_split, All-append, All-In, Text, codes,
  text_eq, eq_of_text_eq, text_eq_refl, text_eq_of_eq, text_eq_comm, if_intro,
}
use jiraleaks.Base.{Result, ok, err}
use jiraleaks.Rule.{Regex, Rule, CompiledRule}
use jiraleaks.Candidate.{PlaceholderMode, words}

abbrev unwrap_or_zero : Option ℕ → ℕ
unwrap_or_zero none = 0
unwrap_or_zero (some n) = n

module _ {F : Type 0} (build : Text → Option Regex) where
  -- The words whose presence discards a match.
  unfoldable pub eff_ignore : Rule F → List Text
  eff_ignore rule =
      (if rule.disable_default_placeholders then [] else words PlaceholderMode.by_substring)
      ++ rule.ignore_if_contains

  unfoldable pub compiled_with : Rule F → Regex → CompiledRule F
  unfolding eff_ignore
  compiled_with rule regex = record {
    rule_id = rule.rule_id;
    description = rule.description;
    severity = rule.severity;
    confidence = rule.confidence;
    regex = regex;
    capture_group = unwrap_or_zero rule.capture_group;
    min_length = rule.min_length;
    min_entropy = rule.min_entropy;
    context_keywords = rule.context_keywords;
    denylist = rule.denylist;
    validator = rule.validator;
    enabled = rule.enabled;
    ignore_if_contains = eff_ignore rule;
    min_digits = rule.min_digits;
    min_uppercase = rule.min_uppercase;
    min_lowercase = rule.min_lowercase;
    min_special_chars = rule.min_special_chars;
    special_chars = rule.special_chars;
    examples = rule.examples;
    references = rule.references;
  }

  -- An error holds the id of the rule whose pattern does not compile.
  abbrev pub from_build : Rule F → Option Regex → Result Text (CompiledRule F)
  from_build rule none = err rule.rule_id
  from_build rule (some regex) = ok (compiled_with rule regex)

  unfoldable pub compile : Rule F → Result Text (CompiledRule F)
  compile rule = from_build rule (build rule.regex)

  abbrev pub push :
      Result Text (CompiledRule F)
      → Result Text (List (CompiledRule F))
      → Result Text (List (CompiledRule F))
  push (err e) rest = err e
  push (ok rule) (err e) = err e
  push (ok rule) (ok rules) = ok (rule ∷ rules)

  unfoldable pub from_rules : List (Rule F) → Result Text (List (CompiledRule F))
  unfolding compile
  from_rules [] = ok []
  from_rules (rule ∷ rules) =
      let rest = from_rules rules in if not rule.enabled then rest else push (compile rule) rest

  -- `rules_map.insert(rule.rule_id.clone(), rule)`, in the order of the first insertion.
  unfoldable pub insert_rule : Rule F → List (Rule F) → List (Rule F)
  insert_rule rule [] = rule ∷ []
  insert_rule rule (r ∷ rules) =
      let rest = insert_rule rule rules in
      if text_eq r.rule_id rule.rule_id then rule ∷ rules else r ∷ rest

  unfoldable pub insert_rules : List (Rule F) → List (Rule F) → List (Rule F)
  unfolding insert_rule
  insert_rules [] rules = rules
  insert_rules (rule ∷ more) rules = insert_rules more (insert_rule rule rules)

  -- `user` holds the rules of the user's file, if one is given.
  unfoldable pub new :
      (builtin : List (Rule F))
      → (user : Option (List (Rule F))) → Result Text (List (CompiledRule F))
  unfolding insert_rules from_rules
  new builtin none = from_rules (insert_rules builtin [])
  new builtin (some user) = from_rules (insert_rules user (insert_rules builtin []))
