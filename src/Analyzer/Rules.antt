-- ===== src/Analyzer/Rules.antt =====
-- `apply_rules` and `apply_rules_parallel` of breachscope/analyzer.py. The events of a call are a list, and
-- a generator that raises gives no list. The two nested loops run through the attempts, an event and a
-- rule each, in the order of the loops.
use breach_scope.Prelude.{
  ℕ, zero, suc, ◌+◌, ◌-◌, String, Bool, true, false, not, ◌&&◌, Option, none, some, List, [], ◌∷◌,
  ◌++◌, ◌==◌, leb, length, take, drop, map, member, if◌then◌else◌,
}
use breach_scope.Prelude.Text.{◌+++◌, count_chars}
use breach_scope.Prelude.Json.{Value, string, Fields, end, field, get, has_key, str}
use breach_scope.Prelude.Result.{Result, ok, err, ◌>>=◌}
use breach_scope.Schemas.{Event, Rule, Finding}
use breach_scope.Analyzer.Texts.{Engine, Finder, Match}
use breach_scope.Analyzer.FieldCompare.{event_field_text}
use breach_scope.Analyzer.Windows.{record_identity, resolve}
use breach_scope.Analyzer.Matcher.{
  AnalysisError, chunk_failed, zero_step, slice, compile_rule_matcher, rule_all_of_matches,
}

-- (rule_id, event_key, match)
abbrev pub Key : Type 0
Key = String × String × String

unfoldable pub same_key : Key → Key → Bool
same_key (a, b, c) (x, y, z) = a == x && (b == y && c == z)

-- key in seen
unfoldable pub has_seen : Key → List Key → Bool
unfolding same_key
has_seen key [] = false
has_seen key (k ∷ ks) = let later = has_seen key ks in if same_key key k then true else later

unfoldable pub text_or_empty : Option String → String
text_or_empty none = ""
text_or_empty (some s) = s

unfoldable pub set_default : String → Value → Fields → Fields
set_default key value fields = if has_key key fields then fields else append fields
  where
    append : Fields → Fields
    append end = field key value end
    append (field k v rest) = field k v (append rest)

unfoldable pub append_new : List String → Option String → List String
append_new texts none = texts
append_new texts (some t) =
    if t == "" then texts else if member t texts then texts else texts ++ t ∷ []

unfoldable pub raw_texts : List String → Fields → List String
raw_texts [] raw = []
raw_texts (k ∷ ks) raw = elim (get k raw) [ string s ↦ s ∷ raw_texts ks raw | _ ↦ raw_texts ks raw ]

-- One pass of the candidate loop: the first text that is not empty and that the finder finds.
unfoldable pub first_match : Finder → List String → Option (String × Match)
first_match finder [] = none
first_match finder (c ∷ cs) =
    let later = first_match finder cs in
    if c == "" then later else elim (finder c) [ none ↦ later | some found ↦ some (c, found) ]

-- What is to be tried, with the texts of the event.
pub record Attempt : Type 0 where
  pub event : Event
  pub texts : List String
  pub rule : Rule
  pub finder : Finder

unfoldable pub attempts_on : Event → List String → List (Rule × Finder) → List Attempt
attempts_on event texts [] = []
attempts_on event texts ((rule, finder) ∷ rest) =
    record { event = event; texts = texts; rule = rule; finder = finder }
    ∷ attempts_on event texts rest

unfoldable pub nonempty_chunks {ℓ} : {A : Type ℓ} → (fuel size : ℕ) → List A → List (List A)
nonempty_chunks fuel size [] = []
nonempty_chunks zero size (x ∷ xs) = []
nonempty_chunks (suc fuel) size (x ∷ xs) =
    take size (x ∷ xs) ∷ nonempty_chunks fuel size (drop size (x ∷ xs))

-- [xs[i:i + size] for i in range(0, len(xs), size)]: as many rounds as there are elements are enough.
unfoldable pub chunks {ℓ} :
    {A : Type ℓ} → (size : ℕ) → List A → Result AnalysisError (List (List A))
unfolding nonempty_chunks
chunks zero xs = err zero_step
chunks (suc n) xs = ok (nonempty_chunks (length xs) (suc n) xs)

module _ (engine : Engine) where
  unfoldable pub get_event_key : Event → String
  unfolding text_or_empty
  get_event_key event =
      event.timestamp
      +++ "|"
      +++ event.host
      +++ "|"
      +++ event.source
      +++ "|"
      +++ text_or_empty event.event_id

  unfoldable pub finding_event_key : Event → String
  unfolding get_event_key record_identity
  finding_event_key event =
      let (channel, record_id) = record_identity engine event in
      if not (channel == "") && not (record_id == "")
      then get_event_key event +++ "|channel=" +++ channel +++ "|event_record_id=" +++ record_id
      else get_event_key event

  unfoldable pub key_of : Finding → Key
  unfolding finding_event_key
  key_of finding = (finding.rule_id, finding_event_key finding.event, finding.matched_value)

  -- The texts of a command line, before those of the raw fields.
  unfoldable pub command_texts : String → List String
  unfolding append_new
  command_texts line =
      if line == ""
      then []
      else append_new (append_new (line ∷ engine.encoded line) (engine.obfuscation line))
          (engine.maybe_base64 line)

  unfoldable pub with_behaviors : Event → Option Value → Event
  unfolding set_default
  with_behaviors event none = event
  with_behaviors event (some behaviors) = record event {
    raw = set_default "decoded_behaviors" behaviors event.raw;
  }

  -- The event as the loop leaves it: what a new decoded text does is put into its raw fields.
  unfoldable pub enriched : Event → Event
  unfolding with_behaviors text_or_empty
  enriched event =
      let line = text_or_empty event.command_line in
      let decoded = text_or_empty (engine.obfuscation line) in
      if not (line == "")
        && (not (decoded == "") && not (member decoded (line ∷ engine.encoded line)))
      then with_behaviors event (engine.behaviors decoded)
      else event

  unfoldable pub event_texts : Event → List String
  unfolding command_texts raw_texts enriched text_or_empty
  event_texts event =
      command_texts (text_or_empty event.command_line)
      ++ raw_texts ("script" ∷ "payload" ∷ "message" ∷ []) (enriched event).raw

  unfoldable pub field_value : Event → String → String
  unfolding text_or_empty
  field_value event name =
      if name == "command_line"
      then text_or_empty event.command_line
      else if has_key name event.raw
      then str engine.repr (get name event.raw)
      else ""

  unfoldable pub candidates_of : Attempt → List String
  unfolding field_value event_field_text
  candidates_of attempt =
      let fields : List String = elim attempt.rule.fields [
        | none ↦ attempt.rule.field ∷ []
        | some [] ↦ attempt.rule.field ∷ []
        | some (f ∷ fs) ↦ f ∷ fs
      ] in
      let primary = event_field_text engine attempt.event attempt.rule.field in
      (if primary == "" then [] else primary ∷ [])
      ++ (map (field_value attempt.event) fields ++ attempt.texts)

  unfoldable pub finding_of : Attempt → String × Match → Finding
  unfolding slice
  finding_of attempt (text, found) = record {
    rule_id = attempt.rule.id;
    rule_name = attempt.rule.name;
    severity = attempt.rule.severity;
    mitre_technique = attempt.rule.mitre_technique;
    event = attempt.event;
    matched_value = found.0;
    matched_context =
        slice (found.1 - 40)
          (if leb (count_chars text) (found.2 + 40) then count_chars text else found.2 + 40) text;
  }

  -- The finding of one attempt, seen before or not.
  unfoldable pub detect : Attempt → Result AnalysisError (Option Finding)
  unfolding rule_all_of_matches candidates_of first_match finding_of
  detect attempt = do
    matches ← rule_all_of_matches engine attempt.event attempt.rule
    ok (
        if matches
        then elim (first_match attempt.finder (candidates_of attempt)) [
          | none ↦ none
          | some found ↦ some (finding_of attempt found)
        ]
        else none)

  unfoldable pub attempts : List Event → List (Rule × Finder) → List Attempt
  unfolding attempts_on enriched event_texts
  attempts [] compiled = []
  attempts (event ∷ events) compiled =
      attempts_on (enriched event) (event_texts event) compiled ++ attempts events compiled

  -- Both loops, which pass on a finding only if its key is new.
  unfoldable pub scan : (seen : List Key) → List Attempt → Result AnalysisError (List Finding)
  unfolding detect has_seen key_of
  scan seen [] = ok []
  scan seen (attempt ∷ rest) = do
    outcome ← detect attempt
    elim outcome [
      | none ↦ scan seen rest
      | some finding ↦
          let known = scan seen rest in
          let new = scan (key_of finding ∷ seen) rest >>= λ later. ok (finding ∷ later) in
          if has_seen (key_of finding) seen then known else new
    ]

  unfoldable pub compile_all : List Rule → Result AnalysisError (List (Rule × Finder))
  unfolding compile_rule_matcher
  compile_all [] = ok []
  compile_all (rule ∷ rules) = do
    finder ← compile_rule_matcher engine rule
    rest ← compile_all rules
    ok ((rule, finder) ∷ rest)

  unfoldable pub apply_rules : List Event → List Rule → Result AnalysisError (List Finding)
  unfolding compile_all scan attempts resolve
  apply_rules events rules = do
    compiled ← compile_all rules
    scan [] (attempts (resolve engine events) compiled)

  unfoldable pub process_chunk :
      List (Rule × Finder) → List Event → Result AnalysisError (List Finding)
  unfolding scan attempts
  process_chunk compiled chunk = scan [] (attempts chunk compiled)

  -- The loop over the findings of one chunk: what is new, and the keys seen after it.
  unfoldable pub take_new : (seen : List Key) → List Finding → List Finding × List Key
  unfolding has_seen key_of
  take_new seen [] = ([], seen)
  take_new seen (finding ∷ findings) =
      let known = take_new seen findings in
      let new = take_new (key_of finding ∷ seen) findings in
      if has_seen (key_of finding) seen then known else (finding ∷ new.0, new.1)

  -- The loop over the chunks in the order in which they end.
  unfoldable pub collect :
      (seen : List Key)
      → List (Result AnalysisError (List Finding))
      → Result AnalysisError (List Finding)
  unfolding take_new
  collect seen [] = ok []
  collect seen (err e ∷ rest) = err chunk_failed
  collect seen (ok findings ∷ rest) = do
    later ← collect (take_new seen findings).1 rest
    ok ((take_new seen findings).0 ++ later)

  -- `as_completed` is the order in which the futures end.
  unfoldable pub apply_rules_parallel :
      (as_completed : List (Result AnalysisError (List Finding))
        → List (Result AnalysisError (List Finding)))
      → (chunk_size : ℕ) → List Event
      → List Rule
      → Result AnalysisError (List Finding)
  unfolding compile_all chunks process_chunk collect resolve
  apply_rules_parallel as_completed chunk_size [] rules = ok []
  apply_rules_parallel as_completed chunk_size (event ∷ events) [] = ok []
  apply_rules_parallel as_completed chunk_size (event ∷ events) (rule ∷ rules) = do
    compiled ← compile_all (rule ∷ rules)
    pieces ← chunks chunk_size (resolve engine (event ∷ events))
    collect [] (as_completed (map (process_chunk compiled) pieces))
