-- ===== src/Correlator/Duplicates.antt =====
-- `_deduplicate_chains` of breachscope/correlator.py. A confidence is a float, of which the comparison `less` is used.
mod Keys
mod Removal
pub mod Best
mod Examples
use breach_scope.Prelude.{
  ℕ, String, Bool, true, false, not, ◌&&◌, ◌||◌, Option, none, some, List, [], ◌∷◌, ◌++◌, ◌==◌, map,
  if◌then◌else◌,
}
use breach_scope.Prelude.Text.{str_le}
use breach_scope.Prelude.Json.{Fields}
use breach_scope.Prelude.Sorting.{sort}
use breach_scope.Schemas.{Event, Finding}
use breach_scope.Analyzer.Texts.{Engine}
use breach_scope.Correlator.{get_event_identity_key}

pub record EventChain (Confidence : Type 0) : Type 0 where
  pub chain_id : String
  pub events : List Event
  pub findings : List Finding
  pub start_time : Option ℕ
  pub end_time : Option ℕ
  pub description : String
  pub confidence : Confidence
  pub chain_type : String
  pub metadata : Fields

abbrev pub ChainKey : Type 0
ChainKey = String × List String

unfoldable pub same_texts : List String → List String → Bool
same_texts [] [] = true
same_texts [] (y ∷ ys) = false
same_texts (x ∷ xs) [] = false
same_texts (x ∷ xs) (y ∷ ys) = x == y && same_texts xs ys

unfoldable pub same_chain_key : ChainKey → ChainKey → Bool
unfolding same_texts
same_chain_key a b = a.0 == b.0 && same_texts a.1 b.1

-- chain_key in seen_chain_keys
unfoldable pub has_chain_key : ChainKey → List ChainKey → Bool
unfolding same_chain_key
has_chain_key k [] = false
has_chain_key k (s ∷ seen) = same_chain_key s k || has_chain_key k seen

module _ {Confidence : Type 0} (engine : Engine) (less : Confidence → Confidence → Bool) where
  unfoldable pub chain_key : EventChain Confidence → ChainKey
  unfolding sort str_le get_event_identity_key
  chain_key chain =
      (chain.chain_type, sort str_le (map (get_event_identity_key engine) chain.events))

  -- The chains without the first one of the key that has less confidence, if there is one. It is the one that
  -- `remove` drops: an equal chain has the same key and the same confidence.
  unfoldable pub without_worse :
      EventChain Confidence → List (EventChain Confidence) → Option (List (EventChain Confidence))
  unfolding chain_key same_chain_key
  without_worse chain [] = none
  without_worse chain (existing ∷ unique) =
      let later = without_worse chain unique in
      if same_chain_key (chain_key existing) (chain_key chain)
        && less existing.confidence chain.confidence
      then some unique
      else elim later [ none ↦ none | some rest ↦ some (existing ∷ rest) ]

  unfoldable pub replaced :
      EventChain Confidence → List (EventChain Confidence) → List (EventChain Confidence)
  unfolding without_worse
  replaced chain unique = elim (without_worse chain unique) [
    | none ↦ unique
    | some rest ↦ rest ++ chain ∷ []
  ]

  unfoldable pub deduplicate_from :
      (seen : List ChainKey) (unique : List (EventChain Confidence))
      → List (EventChain Confidence)
      → List (EventChain Confidence)
  unfolding has_chain_key chain_key replaced
  deduplicate_from seen unique [] = unique
  deduplicate_from seen unique (chain ∷ chains) =
      if has_chain_key (chain_key chain) seen
      then deduplicate_from seen (replaced chain unique) chains
      else deduplicate_from (chain_key chain ∷ seen) (unique ++ chain ∷ []) chains

  unfoldable pub deduplicate_chains : List (EventChain Confidence) → List (EventChain Confidence)
  unfolding deduplicate_from
  deduplicate_chains chains = deduplicate_from [] [] chains
