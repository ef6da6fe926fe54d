-- ===== src/Correlator/Rules.antt =====
-- The loop of `correlate_events` of breachscope/correlator.py over the correlation rules: for each event that starts a
-- chain, the later events that may follow it, found by binary search.
pub mod Candidates
mod Examples
use breach_scope.Prelude.{
  ℕ, zero, suc, ◌+◌, ◌-◌, ◌*◌, String, Bool, true, false, not, ◌&&◌, Option, none, some, List, [],
  ◌∷◌, ◌++◌, ◌==◌, leb, length, take, drop, keep, map, if◌then◌else◌,
}
use breach_scope.Prelude.Bisect.{get_elem?, bisect_right}
use breach_scope.Prelude.Text.{decimal, ◌+++◌}
use breach_scope.Schemas.{Event, Finding}
use breach_scope.Analyzer.Texts.{Engine}
use breach_scope.Analyzer.Windows.{parse_timestamp}
use breach_scope.Correlator.Sessions.{Stamped}
use breach_scope.Correlator.Patterns.{match_event_pattern, extract_common_key}

pub record CorrelationRule : Type 0 where
  pub rule_id : String
  pub name : String
  pub description : String
  pub event_a_patterns : List String
  pub event_b_patterns : List String
  pub time_window_seconds : ℕ
  pub required_fields : List String
  pub chain_type : String

-- enumerate(indexed_events)
unfoldable pub enumerate : ℕ → List Stamped → List (ℕ × Stamped)
enumerate i [] = []
enumerate i (s ∷ indexed) = (i, s) ∷ enumerate (suc i) indexed

abbrev pub timestamp_at : List Stamped → ℕ → ℕ
timestamp_at indexed i = elim (get_elem? indexed i) [ none ↦ 0 | some s ↦ s.0 ]

module _ (engine : Engine) (isalnum : ℕ → Bool) (rule : CorrelationRule) where
  abbrev pub is_b : ℕ × Stamped → Bool
  is_b entry = match_event_pattern engine isalnum entry.1.1 rule.event_b_patterns

  unfoldable pub candidate_b_indices : List Stamped → List ℕ
  unfolding keep enumerate match_event_pattern
  candidate_b_indices indexed =
      map (λ (entry : ℕ × Stamped). entry.0) (keep is_b (enumerate 0 indexed))

  unfoldable pub candidate_b_timestamps : List Stamped → List ℕ
  unfolding candidate_b_indices
  candidate_b_timestamps indexed = map (timestamp_at indexed) (candidate_b_indices indexed)

  -- not rule.required_fields, or a common key
  unfoldable pub shares_fields : (event_a event_b : Event) → Bool
  unfolding extract_common_key
  shares_fields event_a event_b = elim rule.required_fields [
    | [] ↦ true
    | field ∷ fields ↦ elim (extract_common_key engine isalnum event_a event_b (field ∷ fields)) [
      | none ↦ false
      | some key ↦ not (key == "")
    ]
  ]

  -- The events at these positions that share the fields of the first one; a position is always in range.
  unfoldable pub followers : List Stamped → (event_a : Event) → (positions : List ℕ) → List Event
  unfolding get_elem? shares_fields
  followers indexed event_a [] = []
  followers indexed event_a (j ∷ positions) =
      let later = followers indexed event_a positions in
      elim (get_elem? indexed j) [
        | none ↦ later
        | some s ↦ if shares_fields event_a s.1 then s.1 ∷ later else later
      ]

  -- range(candidate_start, candidate_end), as positions of events
  unfoldable pub window_positions : List Stamped → (i ts_a : ℕ) → List ℕ
  unfolding bisect_right candidate_b_indices candidate_b_timestamps
  window_positions indexed i ts_a =
      let window_end = ts_a + rule.time_window_seconds * 1000000 in
      let candidate_start = bisect_right (candidate_b_indices indexed) i 0 in
      let candidate_end =
        bisect_right (candidate_b_timestamps indexed) window_end candidate_start in
      take (candidate_end - candidate_start) (drop candidate_start (candidate_b_indices indexed))

  unfoldable pub chain_events : List Stamped → (i : ℕ) → Stamped → List Event
  unfolding followers window_positions
  chain_events indexed i a = a.1 ∷ followers indexed a.1 (window_positions indexed i a.0)

  -- The chains of the rule, of two events or more each.
  unfoldable pub chains_from : List Stamped → List (ℕ × Stamped) → List (List Event)
  unfolding chain_events match_event_pattern
  chains_from indexed [] = []
  chains_from indexed ((i, a) ∷ rest) =
      let later = chains_from indexed rest in
      let chain = chain_events indexed i a in
      if match_event_pattern engine isalnum a.1 rule.event_a_patterns && leb 2 (length chain)
      then chain ∷ later
      else later

  unfoldable pub rule_chains : List Stamped → List (List Event)
  unfolding chains_from enumerate
  rule_chains indexed = chains_from indexed (enumerate 0 indexed)
