-- ===== src/Analyzer/Examples.antt =====
-- The theorems at two events of which the first is listed twice.
use breach_scope.Prelude.{
  ◌≡◌, refl, ◌↔◌, none, some, List, [], ◌∷◌, ◌++◌, map, In, In-append, In-append_left,
  In-append_right, inl, inr, Distinct, keep,
}
use breach_scope.Prelude.Text.{take_chars}
use breach_scope.Prelude.Json.{as_object, null, end, get}
use breach_scope.Prelude.Result.{Result, ok}
use breach_scope.Schemas.{Event, Rule, Finding}
use breach_scope.Analyzer.Texts.{Engine, Finder}
use breach_scope.Analyzer.Windows.{resolve}
use breach_scope.Analyzer.Matcher.{AnalysisError}
use breach_scope.Analyzer.Rules.{
  Key, key_of, attempts, compile_all, apply_rules, apply_rules_parallel,
}
use breach_scope.Analyzer.Deduplication.{detect_all}
use breach_scope.Analyzer.Parallel.{apply_rules_reports, apply_rules_parallel_in_order}
use breach_scope.Analyzer.AnyOrder.{apply_rules_parallel_any_order}

abbrev plain : Engine
plain = record {
  unicode = record { casefold = λ s. s; lower = λ s. s };
  repr = λ v. "{}";
  basename = λ s. s;
  regex = λ p. none;
  encoded = λ s. [];
  obfuscation = λ s. none;
  behaviors = λ s. none;
  maybe_base64 = λ s. none;
  parse_int = λ b s. none;
  fromisoformat = λ s. none;
  seconds = λ n. null;
}

abbrev download : Event
download = record {
  timestamp = "t1";
  host = "h";
  source = "s";
  event_id = some "1";
  level = none;
  user = none;
  command_line = some "run mshta http";
  raw = end;
}

abbrev idle : Event
idle = record download { timestamp = "t2"; command_line = some "dir" }

abbrev mshta : Rule
mshta = record {
  id = "R-1";
  name = "mshta";
  description = "";
  field = "command_line";
  pattern = "mshta";
  mitre_technique = some "T1218";
  severity = "high";
  operator = some "contains";
  fields = none;
  all_of = none;
}

abbrev finding : Finding
finding = record {
  rule_id = "R-1";
  rule_name = "mshta";
  severity = "high";
  mitre_technique = some "T1218";
  event = download;
  matched_value = "mshta";
  matched_context = "run mshta http";
}

reports_one : apply_rules plain (download ∷ idle ∷ download ∷ []) (mshta ∷ []) ≡ ok (finding ∷ [])
unfolding apply_rules keep get take_chars as_object
reports_one = refl

apply_rules_reports_example :
    (compiled : List (Rule × Finder)) × (all : List Finding) × (compile_all plain (mshta ∷ [])
      ≡ ok compiled)
    × (detect_all plain (attempts plain (download ∷ idle ∷ download ∷ []) compiled) ≡ ok all)
    × Distinct (map (key_of plain) (finding ∷ []))
    × ((f : Finding) → In f (finding ∷ []) → In f all)
    × ((f : Finding) → In f all → In (key_of plain f) (map (key_of plain) (finding ∷ [])))
unfolding resolve
apply_rules_reports_example =
    apply_rules_reports plain (download ∷ idle ∷ download ∷ []) (mshta ∷ []) (finding ∷ [])
      reports_one

apply_rules_parallel_in_order_example :
    apply_rules_parallel plain (λ rs. rs) 2 (download ∷ idle ∷ download ∷ []) (mshta ∷ [])
    ≡ ok (finding ∷ [])
apply_rules_parallel_in_order_example =
    apply_rules_parallel_in_order plain 1 download (idle ∷ download ∷ []) mshta [] (finding ∷ [])
      reports_one

-- The futures end last first.
abbrev backwards :
    List (Result AnalysisError (List Finding)) → List (Result AnalysisError (List Finding))
backwards [] = []
backwards (r ∷ rs) = backwards rs ++ r ∷ []

In-backwards :
    (rs : List (Result AnalysisError (List Finding))) (r : Result AnalysisError (List Finding))
    → In r (backwards rs) ↔ In r rs
In-backwards [] r = ((λ m. m), (λ m. m))
In-backwards (s ∷ rs) r = (
  (λ m. elim (In-append r (backwards rs) (s ∷ []) m) [
    | inl l ↦ inr ((In-backwards rs r).0 l)
    | inr l ↦ elim l [ inl e ↦ inl e | inr n ↦ elim n [ ] ]
  ]),
  (λ m. elim m [
    | inl e ↦ In-append_right r (backwards rs) (s ∷ []) (inl e)
    | inr l ↦ In-append_left r (backwards rs) (s ∷ []) ((In-backwards rs r).1 l)
  ]),
)

apply_rules_parallel_any_order_example :
    (findings : List Finding) × (apply_rules_parallel plain backwards 2
        (download ∷ idle ∷ download ∷ [])
        (mshta ∷ [])
      ≡ ok findings)
    × Distinct (map (key_of plain) findings)
    × ((k : Key) → In k (map (key_of plain) findings) ↔ In k (map (key_of plain) (finding ∷ [])))
apply_rules_parallel_any_order_example =
    apply_rules_parallel_any_order plain backwards 1 download (idle ∷ download ∷ []) mshta []
      (finding ∷ []) In-backwards reports_one
