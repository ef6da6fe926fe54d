-- ===== src/Correlator.antt =====
-- The identity of an event, of breachscope/utils.py, and breachscope/correlator.py: sessions and bursts of
-- activity among events. The interpreter's texts and times enter by the record Engine of the analyzer.
pub mod Sessions
pub mod Patterns
pub mod Rules
pub mod Duplicates
use breach_scope.Prelude.{
  String, Bool, not, ◌&&◌, ◌||◌, Option, none, some, List, [], ◌∷◌, ◌==◌, map, if◌then◌else◌,
}
use breach_scope.Prelude.Text.{strip, ◌+++◌}
use breach_scope.Prelude.Json.{Value, null, Fields, end, field, as_object, str_or_empty}
use breach_scope.Schemas.{Event}
use breach_scope.Analyzer.Texts.{Engine}
use breach_scope.Analyzer.Rules.{get_event_key}
use breach_scope.Analyzer.Windows.{raw_dicts, first_truthy}

-- {str(k).casefold(): v for k, v in fields.items()}.get(key), where a later entry replaces an earlier one.
unfoldable pub casefolded_find : Engine → String → Fields → Option Value
casefolded_find engine key end = none
casefolded_find engine key (field k v rest) = elim (casefolded_find engine key rest) [
  | some later ↦ some later
  | none ↦ if engine.unicode.casefold k == key then some v else none
]

unfoldable pub casefolded_get : Engine → String → Fields → Value
unfolding casefolded_find
casefolded_get engine key fields = elim (casefolded_find engine key fields) [
  | none ↦ null
  | some v ↦ v
]

-- The channel of a mapping, and the first of the named entries that is true as a test.
unfoldable pub channel_and_record : Engine → (names : List String) → Fields → String × String
unfolding casefolded_get first_truthy strip str_or_empty
channel_and_record engine names mapping = (
  strip (str_or_empty engine.repr (casefolded_get engine "channel" mapping)),
  strip (
      str_or_empty engine.repr
        (first_truthy (map (λ name. casefolded_get engine name mapping) names))),
)

abbrev pub record_names : List String
record_names = "eventrecordid" ∷ "event_record_id" ∷ []

-- Under System the name record_id counts too.
abbrev pub system_record_names : List String
system_record_names = "eventrecordid" ∷ "event_record_id" ∷ "record_id" ∷ []

unfoldable pub is_complete : String × String → Bool
is_complete identity = not (identity.0 == "") && not (identity.1 == "")

unfoldable pub system_identity : Engine → Fields → String × String
unfolding channel_and_record casefolded_get
system_identity engine mapping = elim (as_object (casefolded_get engine "system" mapping)) [
  | none ↦ ("", "")
  | some system ↦ channel_and_record engine system_record_names system
]

-- The loop over the mappings: what System says, or else the mapping itself.
unfoldable pub first_record_identity : Engine → List Fields → String × String
unfolding system_identity channel_and_record is_complete
first_record_identity engine [] = ("", "")
first_record_identity engine (mapping ∷ mappings) =
    let later = first_record_identity engine mappings in
    let system = system_identity engine mapping in
    let flat = channel_and_record engine record_names mapping in
    if is_complete system then system else if is_complete flat then flat else later

unfoldable pub get_windows_event_record_identity : Engine → Event → String × String
unfolding first_record_identity raw_dicts
get_windows_event_record_identity engine event = first_record_identity engine (raw_dicts event.raw)

unfoldable pub get_event_identity_key : Engine → Event → String
unfolding get_event_key get_windows_event_record_identity
get_event_identity_key engine event =
    let identity = get_windows_event_record_identity engine event in
    if identity.0 == "" || identity.1 == ""
    then get_event_key engine event
    else get_event_key engine event
      +++ "|channel="
      +++ identity.0
      +++ "|event_record_id="
      +++ identity.1
