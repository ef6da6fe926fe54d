-- ===== src/Correlator/Duplicates/Examples.antt =====
-- The theorem at three chains, two of which have one key; a natural number stands for a confidence.
use breach_scope.Prelude.{ℕ, String, ltb, true, false, ◌≡◌, arith, none, List, [], ◌∷◌}
use breach_scope.Prelude.Json.{null, end}
use breach_scope.Analyzer.Texts.{Engine}
use breach_scope.Correlator.Duplicates.{EventChain, deduplicate_chains}
use breach_scope.Correlator.Duplicates.Best.{IsBest, deduplicate_chains-IsBest}

abbrev plain : Engine
plain = record {
  unicode = record { casefold = λ s. s; lower = λ s. s };
  repr = λ v. "";
  basename = λ s. s;
  regex = λ s. none;
  encoded = λ s. [];
  obfuscation = λ s. none;
  behaviors = λ s. none;
  maybe_base64 = λ s. none;
  parse_int = λ b s. none;
  fromisoformat = λ s. none;
  seconds = λ n. null;
}

abbrev chain : (chain_id chain_type : String) → ℕ → EventChain ℕ
chain chain_id chain_type confidence = record {
  chain_id = chain_id;
  events = [];
  findings = [];
  start_time = none;
  end_time = none;
  description = "";
  confidence = confidence;
  chain_type = chain_type;
  metadata = end;
}

abbrev chains : List (EventChain ℕ)
chains = chain "c1" "session" 7 ∷ chain "c2" "activity" 3 ∷ chain "c3" "session" 9 ∷ []

ltb_trans : (a b c : ℕ) → ltb a b ≡ true → ltb b c ≡ true → ltb a c ≡ true
ltb_trans a b c h k = ground (arith, h, k)

ltb_irreflexive : (a : ℕ) → ltb a a ≡ false
ltb_irreflexive a = ground arith

deduplicate_chains-IsBest_example : IsBest plain ltb chains (deduplicate_chains plain ltb chains)
deduplicate_chains-IsBest_example =
    deduplicate_chains-IsBest plain ltb ltb_trans ltb_irreflexive chains
