-- ===== src/Analyzer/Windows.antt =====
-- What breachscope/analyzer.py knows of Windows events: the identity of a record, and the pass that
-- resolves the parents of processes from earlier events 4688. An event is changed as the pass yields it.
use breach_scope.Prelude.{
  ℕ, zero, suc, ◌-◌, String, Bool, false, not, ◌&&◌, Option, none, some, List, [], ◌∷◌, ◌++◌, ◌==◌,
  leb, eqb, if◌then◌else◌,
}
use breach_scope.Prelude.Text.{◌+++◌, strip, take_chars, count_chars}
use breach_scope.Prelude.Integers.{ℤ, pos, negsuc}
use breach_scope.Prelude.Json.{
  Value, null, string, object, Fields, end, field, get, has_key, as_object, truthy, str_or_empty,
  pop_field, set_field,
}
use breach_scope.Schemas.{Event}
use breach_scope.Analyzer.Texts.{Engine, starts_with}

-- The objects below an object, in the order in which the stack gives them.
unfoldable pub objects_below : Fields → List Fields
objects_below end = []
objects_below (field k (object fields) rest) = objects_below rest ++ fields ∷ objects_below fields
objects_below (field k v rest) = objects_below rest

unfoldable pub raw_dicts : Fields → List Fields
unfolding objects_below
raw_dicts raw = raw ∷ objects_below raw

-- {str(k).lower(): v for k, v in fields.items()}.get(key), where a later entry replaces an earlier one.
unfoldable pub lowered_find : Engine → String → Fields → Option Value
lowered_find engine key end = none
lowered_find engine key (field k v rest) = elim (lowered_find engine key rest) [
  | some later ↦ some later
  | none ↦ if engine.unicode.lower k == key then some v else none
]

unfoldable pub lowered_get : Engine → String → Fields → Value
unfolding lowered_find
lowered_get engine key fields = elim (lowered_find engine key fields) [ none ↦ null | some v ↦ v ]

-- a or b or c
unfoldable pub first_truthy : List Value → Value
first_truthy [] = null
first_truthy (v ∷ vs) = let later = first_truthy vs in if truthy v then v else later

unfoldable pub identity_in : Engine → Fields → String × String
unfolding lowered_get first_truthy strip str_or_empty
identity_in engine candidate = (
  strip (str_or_empty engine.repr (lowered_get engine "channel" candidate)),
  strip (
      str_or_empty engine.repr (
        first_truthy (
          lowered_get engine "eventrecordid" candidate
          ∷ lowered_get engine "event_record_id" candidate
          ∷ lowered_get engine "record_id" candidate
          ∷ []))),
)

unfoldable pub candidates_in : Engine → Fields → List Fields
unfolding lowered_get
candidates_in engine mapping = elim (as_object (lowered_get engine "system" mapping)) [
  | none ↦ mapping ∷ []
  | some system ↦ system ∷ mapping ∷ []
]

unfoldable pub first_identity : Engine → List Fields → String × String
unfolding identity_in
first_identity engine [] = ("", "")
first_identity engine (candidate ∷ candidates) =
    let later = first_identity engine candidates in
    let found = identity_in engine candidate in
    if not (found.0 == "") && not (found.1 == "") then found else later

unfoldable pub all_candidates : Engine → List Fields → List Fields
unfolding candidates_in
all_candidates engine [] = []
all_candidates engine (mapping ∷ mappings) =
    candidates_in engine mapping ++ all_candidates engine mappings

unfoldable pub record_identity : Engine → Event → String × String
unfolding first_identity all_candidates raw_dicts
record_identity engine event = first_identity engine (all_candidates engine (raw_dicts event.raw))

abbrev pub parent_window_microseconds : ℕ
parent_window_microseconds = 300000000

unfoldable pub positive : Option ℤ → Option ℕ
positive none = none
positive (some (pos zero)) = none
positive (some (pos (suc n))) = some (suc n)
positive (some (negsuc n)) = none

unfoldable pub parse_windows_pid : Engine → Value → Option ℕ
unfolding positive strip str_or_empty starts_with
parse_windows_pid engine value =
    let text = strip (str_or_empty engine.repr value) in
    if text == ""
    then none
    else positive (engine.parse_int (starts_with "0x" (engine.unicode.casefold text)) text)

-- t[:-1] + "+00:00", where t ends in "Z"
unfoldable pub utc_suffix : String → String
unfolding take_chars count_chars
utc_suffix t =
    if take_chars (count_chars t - 1) t +++ "Z" == t
    then take_chars (count_chars t - 1) t +++ "+00:00"
    else t

unfoldable pub parse_timestamp : Engine → String → Option ℕ
unfolding utc_suffix strip
parse_timestamp engine ts =
    if strip ts == "" then none else engine.fromisoformat (utc_suffix (strip ts))

unfoldable pub is_security_4688 : Engine → Event → Bool
is_security_4688 engine event =
    engine.unicode.casefold event.source == "microsoft-windows-security-auditing"
    && elim event.event_id [ none ↦ false | some id ↦ id == "4688" ]

abbrev pub parent_name_key : String
parent_name_key = "resolved_security_4688_parent_process_name"

abbrev pub parent_age_key : String
parent_age_key = "resolved_security_4688_parent_age_seconds"

unfoldable pub clear_derived_parent : Fields → Fields
unfolding pop_field set_field
clear_derived_parent raw = elim (as_object (get "_breachscope" raw)) [
  | none ↦ raw
  | some derived ↦ elim (pop_field parent_age_key (pop_field parent_name_key derived)) [
    | end ↦ pop_field "_breachscope" raw
    | field k v rest ↦ set_field "_breachscope" (object (field k v rest)) raw
  ]
]

-- raw.setdefault("_breachscope", {}), and the two entries if that is a dict.
unfoldable pub derive_parent : Engine → (name : String) → (age : ℕ) → Fields → Fields
unfolding set_field
derive_parent engine name age raw =
    let with_entries = λ (derived : Fields).
      set_field "_breachscope"
        (object (
          set_field parent_age_key (engine.seconds age)
            (set_field parent_name_key (string name) derived)))
        raw in
    if has_key "_breachscope" raw
    then elim (as_object (get "_breachscope" raw)) [
      | none ↦ raw
      | some derived ↦ with_entries derived
    ]
    else with_entries end

-- A process that an event 4688 created: its host and number, the time, and its name.
pub record Process : Type 0 where
  pub host : String
  pub pid : ℕ
  pub created : ℕ
  pub name : String

-- recent.get((host, pid)), where the newest entry comes first.
unfoldable pub find_process : (host : String) (pid : ℕ) → List Process → Option Process
find_process host pid [] = none
find_process host pid (process ∷ recent) =
    let later = find_process host pid recent in
    if process.host == host && eqb process.pid pid then some process else later

unfoldable pub with_parent : Engine → (timestamp : ℕ) → Option Process → Fields → Fields
unfolding derive_parent
with_parent engine timestamp none raw = raw
with_parent engine timestamp (some parent) raw =
    if leb parent.created timestamp
      && (leb (timestamp - parent.created) parent_window_microseconds && not (parent.name == ""))
    then derive_parent engine parent.name (timestamp - parent.created) raw
    else raw

-- One event 4688, whose raw fields are cleared: the fields with its parent, and the processes known then.
unfoldable pub resolve_one :
    Engine
    → (timestamp : Option ℕ) (host : String) (parent_pid new_pid : Option ℕ) (new_name : String)
    → List Process
    → Fields
    → Fields × List Process
unfolding with_parent find_process
resolve_one engine none host parent_pid new_pid new_name recent raw = (raw, recent)
resolve_one engine (some timestamp) host parent_pid new_pid new_name recent raw =
    if host == "" then (raw, recent) else (
      elim parent_pid [
        | none ↦ raw
        | some pid ↦ with_parent engine timestamp (find_process host pid recent) raw
      ],
      elim new_pid [
        | none ↦ recent
        | some pid ↦
            if new_name == ""
            then recent
            else record { host = host; pid = pid; created = timestamp; name = new_name } ∷ recent
      ],
    )

unfoldable pub resolve_event : Engine → List Process → Event → Event × List Process
unfolding is_security_4688 clear_derived_parent resolve_one parse_timestamp parse_windows_pid strip
    str_or_empty
resolve_event engine recent event =
    if is_security_4688 engine event
    then (let raw = clear_derived_parent event.raw in
        let (fields, known) =
          resolve_one engine (parse_timestamp engine event.timestamp)
            (engine.unicode.casefold event.host) (parse_windows_pid engine (get "ProcessId" raw))
            (parse_windows_pid engine (get "NewProcessId" raw))
            (strip (str_or_empty engine.repr (get "NewProcessName" raw))) recent raw in
        (record event { raw = fields }, known))
    else (event, recent)

unfoldable pub resolve_from : Engine → List Process → List Event → List Event
unfolding resolve_event
resolve_from engine recent [] = []
resolve_from engine recent (event ∷ events) =
    let (resolved, known) = resolve_event engine recent event in
    resolved ∷ resolve_from engine known events

unfoldable pub resolve : Engine → List Event → List Event
unfolding resolve_from
resolve engine events = resolve_from engine [] events
