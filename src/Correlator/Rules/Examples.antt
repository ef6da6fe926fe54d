-- ===== src/Correlator/Rules/Examples.antt =====
-- The theorem at a download that a new process follows, and another on another host.
use breach_scope.Prelude.{
  ℕ, ◌+◌, ◌*◌, String, true, ◌≡◌, refl, none, some, List, [], ◌∷◌, keep, map,
}
use breach_scope.Prelude.Json.{null, end}
use breach_scope.Prelude.Sorting.{IsSorted}
use breach_scope.Schemas.{Event}
use breach_scope.Analyzer.Texts.{Engine}
use breach_scope.Correlator.Sessions.{Stamped, by_time}
use breach_scope.Correlator.Rules.{CorrelationRule, enumerate, is_b, shares_fields, chain_events}
use breach_scope.Correlator.Rules.Candidates.{in_window, chain_events-keep}

abbrev plain : Engine
plain = record {
  unicode = record { casefold = λ s. s; lower = λ s. s };
  repr = λ v. "";
  basename = λ s. s;
  regex = λ s. none;
  encoded = λ s. [];
  obfuscation = λ s. none;
  behaviors = λ s. none;
  maybe_base64 = λ s. none;
  parse_int = λ b s. none;
  fromisoformat = λ s. none;
  seconds = λ n. null;
}

abbrev event : (host source command_line : String) → Event
event host source command_line = record {
  timestamp = "";
  host = host;
  source = source;
  event_id = none;
  level = none;
  user = none;
  command_line = some command_line;
  raw = end;
}

abbrev rule : CorrelationRule
rule = record {
  rule_id = "download_exec";
  name = "Download and Execute Chain";
  description = "";
  event_a_patterns = "cmd:curl" ∷ [];
  event_b_patterns = "source:ProcessCreate" ∷ [];
  time_window_seconds = 600;
  required_fields = "host" ∷ [];
  chain_type = "download_exec";
}

abbrev download : Stamped
download = (0, event "h" "Sysmon" "curl")

abbrev indexed : List Stamped
indexed =
    download
    ∷ (60000000, event "h" "ProcessCreate" "x")
    ∷ (60000001, event "k" "ProcessCreate" "y")
    ∷ []

indexed-IsSorted : IsSorted by_time indexed
unfolding by_time
indexed-IsSorted = ((refl, (refl, tt)), ((refl, tt), (tt, tt)))

chain_events-keep_example :
    chain_events plain (λ c. true) rule indexed 0 download
    ≡ download.1
      ∷ map
          (λ (entry : ℕ × Stamped). entry.1.1)
          (keep
            (λ entry. shares_fields plain (λ c. true) rule download.1 entry.1.1)
            (keep
              (in_window 0 (0 + rule.time_window_seconds * 1000000))
              (keep (is_b plain (λ c. true) rule) (enumerate 0 indexed))))
chain_events-keep_example =
    chain_events-keep plain (λ c. true) rule indexed indexed-IsSorted 0 download
