-- ===== src/Correlator/Sessions.antt =====
-- Windows sessions and bursts of activity: `_explicit_session_id`, `_canonicalize_session_id`,
-- `_activity_segments` and `_session_lifecycle_segments` of breachscope/correlator.py.
pub mod Activity
pub mod Keeping
pub mod Lifecycle
mod Examples
use breach_scope.Prelude.{
  ℕ, zero, suc, ◌+◌, ◌-◌, ◌*◌, String, Bool, true, false, not, ◌&&◌, ◌||◌, Option, none, some, List,
  [], ◌∷◌, ◌++◌, ◌==◌, eqb, leb, ltb, length, member, map, if◌then◌else◌,
}
use breach_scope.Prelude.Text.{strip, take_chars, drop_chars, all_chars, str_le, hexadecimal, ◌+++◌}
use breach_scope.Prelude.Json.{Value, Fields, null, get, has_key, str}
use breach_scope.Prelude.Sorting.{sort}
use breach_scope.Schemas.{Event}
use breach_scope.Analyzer.Texts.{Engine}
use breach_scope.Analyzer.Windows.{parse_timestamp}
use breach_scope.Correlator.{get_event_identity_key}
use Prim.Native.Char.{code}

-- An event with the microsecond of its timestamp.
abbrev pub Stamped : Type 0
Stamped = ℕ × Event

-- timedelta(minutes=30)
abbrev pub activity_window : ℕ
activity_window = 1800000000

abbrev pub invalid_session_ids : List String
invalid_session_ids = "0" ∷ "0x0" ∷ "-" ∷ "none" ∷ "null" ∷ []

abbrev pub has_id : String → Event → Bool
has_id id event = elim event.event_id [ none ↦ false | some e ↦ e == id ]

unfoldable pub is_hex_digit : ℕ → Bool
is_hex_digit c = leb b'0' c && leb c b'9' || leb b'a' c && leb c b'f' || leb b'A' c && leb c b'F'

-- The value of a character that is a hexadecimal digit.
unfoldable pub hex_digit_value : ℕ → ℕ
hex_digit_value c = if leb c b'9' then c - b'0' else if leb c b'F' then c - 55 else c - 87

-- int(digits, 16), after the digits whose value is given
unfoldable pub hex_value_from : ℕ → String → ℕ
unfolding hex_digit_value
hex_value_from n String.[] = n
hex_value_from n (String.◌∷◌ c s) = hex_value_from (n * 16 + hex_digit_value (code c)) s

unfoldable pub canonicalize_session_id : Engine → String → Option String
unfolding strip take_chars drop_chars all_chars is_hex_digit hex_value_from hexadecimal
canonicalize_session_id engine session_id =
    let value = strip session_id in
    let digits = drop_chars 2 value in
    if engine.unicode.casefold (take_chars 2 value) == "0x"
    then (if digits == "" || not (all_chars is_hex_digit digits)
        then none
        else some ("0x" +++ hexadecimal (hex_value_from 0 digits)))
    else some value

-- A canonical text that is not empty and not one of those that name no session.
unfoldable pub valid_session_id : Engine → Option String → Option String
valid_session_id engine none = none
valid_session_id engine (some canonical) =
    if canonical == "" || member (engine.unicode.casefold canonical) invalid_session_ids
    then none
    else some canonical

unfoldable pub alias_session_id : Engine → (keys : List String) → Fields → Option String
unfolding canonicalize_session_id valid_session_id
alias_session_id engine [] raw = none
alias_session_id engine (key ∷ keys) raw =
    let later = alias_session_id engine keys raw in
    elim (get key raw) [
      | null ↦ later
      | value ↦
          elim (valid_session_id engine (canonicalize_session_id engine (str engine.repr value))) [
            | none ↦ later
            | some canonical ↦ some canonical
          ]
    ]

unfoldable pub explicit_session_id : Engine → Event → Option String
unfolding canonicalize_session_id valid_session_id alias_session_id strip
explicit_session_id engine event =
    if (has_id "4624" event || has_id "4634" event || has_id "4647" event)
      && has_key "TargetLogonId" event.raw
    then elim (get "TargetLogonId" event.raw) [
      | null ↦ none
      | value ↦
          if strip (str engine.repr value) == ""
          then none
          else valid_session_id engine (canonicalize_session_id engine (str engine.repr value))
    ]
    else if not (has_id "4624" event || has_id "4634" event)
    then none
    else alias_session_id engine ("SessionId" ∷ "session_id" ∷ []) event.raw

unfoldable pub timestamped : Engine → List Event → List Stamped
unfolding parse_timestamp
timestamped engine [] = []
timestamped engine (event ∷ events) =
    let later = timestamped engine events in
    elim (parse_timestamp engine event.timestamp) [
      | none ↦ later
      | some timestamp ↦ (timestamp, event) ∷ later
    ]

unfoldable pub by_time : Stamped → Stamped → Bool
by_time a b = leb a.0 b.0

-- if len(current) >= 2: segments.append(current)
unfoldable pub closed : List (List Event) → List Event → List (List Event)
closed segments current = if leb 2 (length current) then segments ++ current ∷ [] else segments

-- The loop of `_activity_segments`; the events of `current` follow the first one, at `start`.
unfoldable pub activity_loop :
    List Stamped
    → (segments : List (List Event)) → (current : List Event) → (start : ℕ) → List (List Event)
unfolding closed
activity_loop [] segments current start = closed segments current
activity_loop ((timestamp, event) ∷ rest) segments [] start =
    activity_loop rest segments (event ∷ []) timestamp
activity_loop ((timestamp, event) ∷ rest) segments (first ∷ current) start =
    if leb timestamp (start + activity_window)
    then activity_loop rest segments (first ∷ current ++ event ∷ []) start
    else activity_loop rest (closed segments (first ∷ current)) (event ∷ []) timestamp

unfoldable pub activity_segments : Engine → List Event → List (List Event)
unfolding timestamped by_time activity_loop sort
activity_segments engine events = activity_loop (sort by_time (timestamped engine events)) [] [] 0

-- The events, each identity once.
unfoldable pub first_of_each : Engine → (seen : List String) → List Event → List Event
unfolding get_event_identity_key
first_of_each engine seen [] = []
first_of_each engine seen (event ∷ events) =
    let key = get_event_identity_key engine event in
    if member key seen
    then first_of_each engine seen events
    else event ∷ first_of_each engine (key ∷ seen) events

unfoldable pub event_order : Event → ℕ
event_order event = if has_id "4624" event then 0 else if has_id "4634" event then 2 else 1

-- The key (time, order, identity) of the sorting.
unfoldable pub lifecycle_le : Engine → Stamped → Stamped → Bool
unfolding event_order get_event_identity_key
lifecycle_le engine a b =
    if eqb a.0 b.0
    then (if eqb (event_order a.1) (event_order b.1)
        then str_le (get_event_identity_key engine a.1) (get_event_identity_key engine b.1)
        else ltb (event_order a.1) (event_order b.1))
    else ltb a.0 b.0

-- The loop of `_session_lifecycle_segments`.
unfoldable pub lifecycle_loop :
    List Event → (segments : List (List Event)) → (current : List Event) → List (List Event)
unfolding closed
lifecycle_loop [] segments current = closed segments current
lifecycle_loop (event ∷ rest) segments [] =
    if has_id "4624" event
    then lifecycle_loop rest segments (event ∷ [])
    else lifecycle_loop rest segments []
lifecycle_loop (event ∷ rest) segments (first ∷ current) =
    if has_id "4624" event
    then lifecycle_loop rest (closed segments (first ∷ current)) (event ∷ [])
    else if has_id "4647" event
    then lifecycle_loop rest segments (first ∷ current ++ event ∷ [])
    else if has_id "4634" event
    then lifecycle_loop rest (segments ++ (first ∷ current ++ event ∷ []) ∷ []) []
    else lifecycle_loop rest segments (first ∷ current)

unfoldable pub session_lifecycle_segments : Engine → List Event → List (List Event)
unfolding first_of_each timestamped lifecycle_le lifecycle_loop sort
session_lifecycle_segments engine grouped_events =
    lifecycle_loop
      (map (λ (s : Stamped). s.1)
        (sort (lifecycle_le engine) (timestamped engine (first_of_each engine [] grouped_events))))
      [] []
