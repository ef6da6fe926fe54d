-- ===== src/Analyzer/Matcher.antt =====
-- `_compile_rule_matcher` and `_rule_all_of_matches` of breachscope/analyzer.py.
use breach_scope.Prelude.{
  ℕ, ◌+◌, ◌-◌, String, Bool, true, false, not, ◌&&◌, ◌||◌, leb, Option, none, some, List, [], ◌∷◌,
  ◌==◌, keep, if◌then◌else◌,
}
use breach_scope.Prelude.Text.{split_on, take_chars, drop_chars, count_chars, strip, or_else, ◌+++◌}
use breach_scope.Prelude.Result.{Result, ok, err, ◌>>=◌}
use breach_scope.Schemas.{Event, Rule, Condition}
use breach_scope.Analyzer.Texts.{Engine, Finder, Match, starts_with, find_text}
use breach_scope.Analyzer.FieldCompare.{event_field_text, match_field_reference_condition}

-- re.error; the RuntimeError of a failed chunk; ValueError of a `range` with step 0.
pub data AnalysisError : Type 0 where
  bad_pattern chunk_failed zero_step : AnalysisError

-- s[i:j]
unfoldable pub slice : (i j : ℕ) → String → String
slice i j s = take_chars (j - i) (drop_chars i s)

-- s.endswith(t)
unfoldable pub ends_with : (t s : String) → Bool
ends_with t s =
    leb (count_chars t) (count_chars s) && drop_chars (count_chars s - count_chars t) s == t

module _ (engine : Engine) where
  unfoldable pub find_contains : (targets : List String) → Finder
  unfolding find_text slice
  find_contains [] s = none
  find_contains (t ∷ targets) s =
      let later = find_contains targets s in
      elim (find_text (engine.unicode.lower t) (engine.unicode.lower s)) [
        | none ↦ later
        | some i ↦ some (slice i (i + count_chars t) s, i, i + count_chars t)
      ]

  unfoldable pub find_startswith : (target : String) → Finder
  unfolding starts_with
  find_startswith target s =
      if starts_with (engine.unicode.lower target) (engine.unicode.lower s)
      then some (take_chars (count_chars target) s, 0, count_chars target)
      else none

  -- s[len(s) - len(t):], where Python counts a negative start from the end
  unfoldable pub tail_slice : (target s : String) → String
  tail_slice target s =
      if leb (count_chars target) (count_chars s)
      then drop_chars (count_chars s - count_chars target) s
      else drop_chars (count_chars s - (count_chars target - count_chars s)) s

  -- A negative start counts as 0 where it is used.
  unfoldable pub find_endswith : (target : String) → Finder
  unfolding ends_with tail_slice
  find_endswith target s =
      if ends_with (engine.unicode.lower target) (engine.unicode.lower s)
      then some (tail_slice target s, count_chars s - count_chars target, count_chars s)
      else none

  unfoldable pub find_equals : (target : String) → Finder
  find_equals target s =
      if engine.unicode.lower s == engine.unicode.lower target
      then some (s, 0, count_chars s)
      else none

  unfoldable pub or_bad_pattern : Option Finder → Result AnalysisError Finder
  or_bad_pattern none = err bad_pattern
  or_bad_pattern (some finder) = ok finder

  unfoldable pub finder_for : (operator body pattern : String) → Result AnalysisError Finder
  unfolding find_contains find_startswith find_endswith find_equals or_bad_pattern split_on
  finder_for operator body pattern =
      if operator == "contains"
      then ok (find_contains (keep (λ t. not (t == "")) (split_on b'|' body)))
      else if operator == "startswith"
      then ok (find_startswith body)
      else if operator == "endswith"
      then ok (find_endswith body)
      else if operator == "equals"
      then ok (find_equals body)
      else or_bad_pattern (engine.regex pattern)

  -- The operator and the body of a pattern with one of the prefixes.
  unfoldable pub prefixed : (names : List String) → (pattern : String) → String × String
  unfolding starts_with
  prefixed [] pattern = ("", pattern)
  prefixed (name ∷ names) pattern =
      let rest = prefixed names pattern in
      if starts_with (name +++ ":") (engine.unicode.lower pattern)
      then (name, drop_chars (count_chars name + 1) pattern)
      else rest

  unfoldable pub compile_matcher : (operator pattern : String) → Result AnalysisError Finder
  unfolding finder_for prefixed
  compile_matcher operator pattern =
      let named = engine.unicode.lower operator in
      let (found, body) =
        prefixed ("contains" ∷ "startswith" ∷ "endswith" ∷ "equals" ∷ []) pattern in
      if named == "" then finder_for found body pattern else finder_for named pattern pattern

  unfoldable pub compile_rule_matcher : Rule → Result AnalysisError Finder
  unfolding compile_matcher
  compile_rule_matcher rule =
      compile_matcher (elim rule.operator [ none ↦ "" | some o ↦ o ]) rule.pattern

  unfoldable pub is_found : Option Match → Bool
  is_found none = false
  is_found (some found) = true

  -- One condition with a literal pattern.
  unfoldable pub literal_condition_matches : Event → Condition → Result AnalysisError Bool
  unfolding compile_matcher is_found event_field_text strip or_else
  literal_condition_matches event condition =
      if strip condition.field == "" || condition.pattern == "" then ok false else (do
        finder ←
            compile_matcher (engine.unicode.lower (or_else condition.operator "equals"))
              condition.pattern
        ok (is_found (finder (event_field_text engine event (strip condition.field)))))

  unfoldable pub condition_matches : Event → Condition → Result AnalysisError Bool
  unfolding literal_condition_matches match_field_reference_condition
  condition_matches event condition =
      elim (match_field_reference_condition engine event condition) [
        | some outcome ↦ ok outcome
        | none ↦ literal_condition_matches event condition
      ]

  unfoldable pub all_match : Event → List Condition → Result AnalysisError Bool
  unfolding condition_matches
  all_match event [] = ok true
  all_match event (condition ∷ conditions) = do
    let rest = all_match event conditions
    matched ← condition_matches event condition
    if matched then rest else ok false

  unfoldable pub rule_all_of_matches : Event → Rule → Result AnalysisError Bool
  unfolding all_match
  rule_all_of_matches event rule = elim rule.all_of [
    | none ↦ ok true
    | some conditions ↦ all_match event conditions
  ]
