-- ===== src/Correlator/Patterns.antt =====
-- What a correlation rule asks of events: `_match_event_pattern`, `_match_canonical_source` and
-- `_extract_common_key` of breachscope/correlator.py.
use breach_scope.Prelude.{
  ℕ, String, Bool, true, false, not, ◌&&◌, ◌||◌, Option, none, some, List, [], ◌∷◌, ◌++◌, ◌==◌, map,
  member, if◌then◌else◌,
}
use breach_scope.Prelude.Text.{strip, drop_chars, ◌+++◌}
use breach_scope.Prelude.Json.{
  Value, null, string, Fields, get, as_object, truthy, str, str_or_empty,
}
use breach_scope.Schemas.{Event}
use breach_scope.Analyzer.Texts.{Engine, starts_with, find_text}
use breach_scope.Analyzer.Rules.{text_or_empty}
use Prim.Native.Char.{code}

-- needle in text
abbrev pub is_part : (needle text : String) → Bool
is_part needle text = elim (find_text needle text) [ none ↦ false | some i ↦ true ]

-- `isalnum` is the interpreter's test of a character.
module _ (engine : Engine) (isalnum : ℕ → Bool) where
  unfoldable pub alphanumeric_part : String → String
  alphanumeric_part String.[] = ""
  alphanumeric_part (String.◌∷◌ c s) =
      let rest = alphanumeric_part s in if isalnum (code c) then String.◌∷◌ c rest else rest

  unfoldable pub normalize_source_token : String → String
  unfolding alphanumeric_part
  normalize_source_token value = alphanumeric_part (engine.unicode.casefold value)

  -- The table `aliases`.
  unfoldable pub aliases_of : (category action : String) → List String
  aliases_of category action =
      if category == "process" && action == "process_start"
      then "ProcessCreate" ∷ "ProcessStart" ∷ []
      else if category == "network" && action == "connection"
      then "NetworkConnection" ∷ []
      else if category == "authentication" && action == "logon_success"
      then "LogonSuccess" ∷ "AuthenticationSuccess" ∷ []
      else if category == "authentication" && action == "logon_failure"
      then "LogonFailure" ∷ "AuthenticationFailure" ∷ []
      else if category == "task" && action == "task_create"
      then "TaskCreate" ∷ "ScheduledTaskCreate" ∷ []
      else if category == "log" && action == "log_clear"
      then "LogClear" ∷ "EventLogClear" ∷ []
      else if category == "script" && action == "script_block"
      then "ScriptBlock" ∷ "PowerShellScriptBlock" ∷ []
      else if category == "service" && action == "service_install"
      then "ServiceInstall" ∷ "ServiceCreate" ∷ []
      else []

  unfoldable pub nonempty_tokens : List String → List String
  unfolding normalize_source_token
  nonempty_tokens [] = []
  nonempty_tokens (value ∷ values) =
      let later = nonempty_tokens values in
      if normalize_source_token value == "" then later else normalize_source_token value ∷ later

  unfoldable pub tokens_of_meta : Fields → List String
  unfolding nonempty_tokens aliases_of normalize_source_token strip str_or_empty
  tokens_of_meta event_meta =
      let category =
        engine.unicode.casefold (strip (str_or_empty engine.repr (get "category" event_meta))) in
      let action =
        engine.unicode.casefold (strip (str_or_empty engine.repr (get "action" event_meta))) in
      let provider = strip (str_or_empty engine.repr (get "provider" event_meta)) in
      nonempty_tokens (category ∷ action ∷ provider ∷ [])
      ++ map normalize_source_token (aliases_of category action)

  -- The set of tokens, as a list.
  unfoldable pub canonical_source_tokens : Event → List String
  unfolding tokens_of_meta
  canonical_source_tokens event = elim (as_object (get "canonical" event.raw)) [
    | none ↦ []
    | some canonical ↦ elim (as_object (get "event" canonical)) [
      | none ↦ []
      | some event_meta ↦ tokens_of_meta event_meta
    ]
  ]

  -- The source that a pattern asks for, none for a pattern of another kind.
  unfoldable pub requested_source : (pattern : String) → Option String
  unfolding starts_with drop_chars
  requested_source pattern =
      if starts_with "source:" pattern
      then some (drop_chars 7 pattern)
      else if starts_with "event_id:" pattern || starts_with "cmd:" pattern
      then none
      else some pattern

  unfoldable pub requests_token : (tokens : List String) → (pattern : String) → Bool
  unfolding requested_source normalize_source_token
  requests_token tokens pattern = elim (requested_source pattern) [
    | none ↦ false
    | some requested ↦
        not (normalize_source_token requested == "")
        && member (normalize_source_token requested) tokens
  ]

  unfoldable pub some_requests : (tokens patterns : List String) → Bool
  unfolding requests_token
  some_requests tokens [] = false
  some_requests tokens (pattern ∷ patterns) =
      requests_token tokens pattern || some_requests tokens patterns

  unfoldable pub match_canonical_source : Event → (patterns : List String) → Bool
  unfolding canonical_source_tokens some_requests
  match_canonical_source event patterns = elim (canonical_source_tokens event) [
    | [] ↦ false
    | token ∷ tokens ↦ some_requests (token ∷ tokens) patterns
  ]

  -- text and needle.lower() in text.lower()
  unfoldable pub is_lowered_part : (needle text : String) → Bool
  unfolding find_text
  is_lowered_part needle text =
      not (text == "") && is_part (engine.unicode.lower needle) (engine.unicode.lower text)

  unfoldable pub match_pattern : Event → (pattern : String) → Bool
  unfolding starts_with drop_chars is_lowered_part text_or_empty
  match_pattern event pattern =
      if starts_with "source:" pattern
      then is_lowered_part (drop_chars 7 pattern) event.source
      else if starts_with "event_id:" pattern
      then not (text_or_empty event.event_id == "")
        && drop_chars 9 pattern == text_or_empty event.event_id
      else if starts_with "cmd:" pattern
      then is_lowered_part (drop_chars 4 pattern) (text_or_empty event.command_line)
      else is_lowered_part pattern event.source

  unfoldable pub match_some : Event → (patterns : List String) → Bool
  unfolding match_pattern
  match_some event [] = false
  match_some event (pattern ∷ patterns) = match_pattern event pattern || match_some event patterns

  unfoldable pub match_event_pattern : Event → (patterns : List String) → Bool
  unfolding match_some match_canonical_source
  match_event_pattern event patterns =
      match_some event patterns || match_canonical_source event patterns

  -- None is the null.
  unfoldable pub value_of : Option String → Value
  value_of none = null
  value_of (some s) = string s

  unfoldable pub common_value : (field : String) → Event → Value
  unfolding value_of
  common_value field event =
      if field == "host"
      then string event.host
      else if field == "user"
      then value_of event.user
      else if field == "command_line"
      then value_of event.command_line
      else get field event.raw

  unfoldable pub matched_parts :
      (event_a event_b : Event) → (fields : List String) → Option (List String)
  unfolding common_value truthy str
  matched_parts event_a event_b [] = some []
  matched_parts event_a event_b (field ∷ fields) =
      let val_a = common_value field event_a in
      let val_b = common_value field event_b in
      let later = matched_parts event_a event_b fields in
      if truthy val_a
        && truthy val_b
        && engine.unicode.lower (str engine.repr val_a)
          == engine.unicode.lower (str engine.repr val_b)
      then elim later [
        | none ↦ none
        | some parts ↦ some ((field +++ ":" +++ str engine.repr val_a) ∷ parts)
      ]
      else none

  -- " && ".join(parts)
  unfoldable pub join_parts : List String → String
  join_parts [] = ""
  join_parts (part ∷ []) = part
  join_parts (part ∷ other ∷ parts) = part +++ " && " +++ join_parts (other ∷ parts)

  unfoldable pub extract_common_key :
      (event_a event_b : Event) → (fields : List String) → Option String
  unfolding matched_parts join_parts
  extract_common_key event_a event_b fields = elim (matched_parts event_a event_b fields) [
    | none ↦ none
    | some [] ↦ none
    | some (part ∷ parts) ↦ some (join_parts (part ∷ parts))
  ]
