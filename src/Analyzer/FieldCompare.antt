-- ===== src/Analyzer/FieldCompare.antt =====
-- The conditions of breachscope/rule_field_compare.py that compare two fields of an event, and
-- `_event_field_text` of breachscope/analyzer.py.
use breach_scope.Prelude.{
  String, Bool, true, false, not, ◌&&◌, ◌||◌, Option, none, some, List, [], ◌∷◌, ◌==◌, member,
  if◌then◌else◌,
}
use breach_scope.Prelude.Text.{split_on, strip, drop_chars, count_chars, or_else}
use breach_scope.Prelude.Json.{Value, null, string, object, get, as_object, str}
use breach_scope.Schemas.{Event, Condition}
use breach_scope.Analyzer.Texts.{Engine, starts_with, rstrip_dot}

abbrev pub fieldref_prefix : String
fieldref_prefix = "__breachscope_fieldref__:"

abbrev pub basename_ne_fieldref_prefix : String
basename_ne_fieldref_prefix = "__breachscope_basename_ne_fieldref__:"

-- getattr(event, field_name, None), but for `raw` and for what every Python object has.
unfoldable pub attribute : String → Event → Option String
attribute name event =
    if name == "timestamp"
    then some event.timestamp
    else if name == "host"
    then some event.host
    else if name == "source"
    then some event.source
    else if name == "event_id"
    then event.event_id
    else if name == "level"
    then event.level
    else if name == "user"
    then event.user
    else if name == "command_line"
    then event.command_line
    else none

unfoldable pub is_blank : Value → Bool
is_blank null = true
is_blank (string s) = s == ""
is_blank v = false

-- The loop over the parts of a dotted name, below a value.
unfoldable pub walk : (repr : Value → String) → List String → Value → String
unfolding is_blank
walk repr [] current = str repr current
walk repr (part ∷ parts) current = elim (as_object current) [
  | none ↦ ""
  | some fields ↦ if is_blank (get part fields) then "" else walk repr parts (get part fields)
]

unfoldable pub without_raw : List String → List String
without_raw [] = []
without_raw (part ∷ parts) = if part == "raw" then parts else part ∷ parts

unfoldable pub event_field_text : Engine → Event → String → String
unfolding attribute walk without_raw split_on
event_field_text engine event name =
    if name == "raw"
    then engine.repr (object event.raw)
    else (let walked = walk engine.repr (without_raw (split_on b'.' name)) (object event.raw) in
        elim (attribute name event) [
          | none ↦ walked
          | some value ↦ if value == "" then walked else value
        ])

-- The set of aliases of a host name.
unfoldable pub normalized_host_aliases : Engine → String → List String
unfolding strip rstrip_dot split_on
normalized_host_aliases engine value =
    let text = engine.unicode.casefold (rstrip_dot (strip value)) in
    if text == ""
    then []
    else elim (split_on b'.' text) [ [] ↦ text ∷ [] | first ∷ rest ↦ text ∷ first ∷ [] ]

unfoldable pub meet : (xs ys : List String) → Bool
meet [] ys = false
meet (x ∷ xs) ys = member x ys || meet xs ys

unfoldable pub field_values_equal : Engine → (left right left_field right_field : String) → Bool
unfolding normalized_host_aliases meet strip
field_values_equal engine left right left_field right_field =
    if engine.unicode.casefold left_field == "host" || engine.unicode.casefold right_field == "host"
    then meet (normalized_host_aliases engine left) (normalized_host_aliases engine right)
    else engine.unicode.casefold (strip left) == engine.unicode.casefold (strip right)

unfoldable pub basenames_differ : Engine → (left right : String) → Bool
unfolding strip
basenames_differ engine left right =
    let left_name = engine.unicode.casefold (engine.basename (strip left)) in
    let right_name = engine.unicode.casefold (engine.basename (strip right)) in
    not (left_name == "") && not (right_name == "") && not (left_name == right_name)

-- The comparison once the two field names are known, where `differ` is the mode.
unfoldable pub compare_fields :
    Engine → Event → (differ : Bool) → (left_field right_field : String) → Bool
unfolding event_field_text field_values_equal basenames_differ
compare_fields engine event differ left_field right_field =
    let left = event_field_text engine event left_field in
    let right = event_field_text engine event right_field in
    if left_field == "" || right_field == "" || left == "" || right == ""
    then false
    else if differ
    then basenames_differ engine left right
    else field_values_equal engine left right left_field right_field

-- None for a condition with a literal pattern.
unfoldable pub match_field_reference_condition : Engine → Event → Condition → Option Bool
unfolding compare_fields strip or_else starts_with drop_chars count_chars
match_field_reference_condition engine event condition =
    let operator = engine.unicode.lower (or_else condition.operator "equals") in
    let pattern = condition.pattern in
    let referenced = λ (prefix : String). strip (drop_chars (count_chars prefix) pattern) in
    if not (operator == "equals")
    then none
    else if starts_with fieldref_prefix pattern
    then some
        (compare_fields engine event false (strip condition.field) (referenced fieldref_prefix))
    else if starts_with basename_ne_fieldref_prefix pattern
    then some (
        compare_fields engine event true (strip condition.field)
          (referenced basename_ne_fieldref_prefix))
    else none
