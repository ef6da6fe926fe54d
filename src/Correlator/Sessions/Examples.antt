-- ===== src/Correlator/Sessions/Examples.antt =====
-- The theorems at the events of one session, and of some activity.
use breach_scope.Prelude.{
  String, ◌≡◌, refl, none, some, List, [], ◌∷◌, ◌==◌, keep, map, All, Distinct, if◌then◌else◌,
}
use breach_scope.Prelude.Json.{null, string, object, Fields, end, field, as_object}
use breach_scope.Prelude.Text.{strip}
use breach_scope.Prelude.Sorting.{sort, IsSorted}
use breach_scope.Schemas.{Event}
use breach_scope.Analyzer.Texts.{Engine}
use breach_scope.Correlator.{get_windows_event_record_identity, get_event_identity_key}
use breach_scope.Correlator.Sessions.{
  by_time, timestamped, activity_segments, session_lifecycle_segments,
}
use breach_scope.Correlator.Sessions.Activity.{
  Burst, stamped_of, IsGreedy, events_of, is_segment, activity_segments-IsGreedy,
}
use breach_scope.Correlator.Sessions.Lifecycle.{
  IsLifecycle, ordered, session_lifecycle_segments-IsLifecycle,
}
use breach_scope.Correlator.Sessions.Keeping.{Keeps, joined}

abbrev plain : Engine
plain = record {
  unicode = record { casefold = λ s. s; lower = λ s. s };
  repr = λ v. "";
  basename = λ s. s;
  regex = λ s. none;
  encoded = λ s. [];
  obfuscation = λ s. none;
  behaviors = λ s. none;
  maybe_base64 = λ s. none;
  parse_int = λ b s. none;
  fromisoformat =
      λ s. if s == "t0" then some 0 else if s == "t1" then some 60000000 else some 3600000000;
  seconds = λ n. null;
}

abbrev event : (timestamp event_id : String) → Event
event timestamp event_id = record {
  timestamp = timestamp;
  host = "h";
  source = "Security";
  event_id = some event_id;
  level = none;
  user = none;
  command_line = none;
  raw = end;
}

abbrev events : List Event
events = event "t2" "4624" ∷ event "t1" "4634" ∷ event "t0" "4624" ∷ event "t0" "4624" ∷ []

activity_segments-IsGreedy_example :
    (groups : List Burst) × (stamped_of groups ≡ sort by_time (timestamped plain events))
    × IsSorted by_time (stamped_of groups)
    × IsGreedy groups
    × (activity_segments plain events ≡ map events_of (keep is_segment groups))
activity_segments-IsGreedy_example = activity_segments-IsGreedy plain events

session_lifecycle_segments-IsLifecycle_example :
    All IsLifecycle (session_lifecycle_segments plain events)
    × Keeps (joined (session_lifecycle_segments plain events)) (ordered plain events)
    × Distinct
        (map (get_event_identity_key plain) (joined (session_lifecycle_segments plain events)))
session_lifecycle_segments-IsLifecycle_example = session_lifecycle_segments-IsLifecycle plain events

abbrev record_fields : (name : String) → Fields
record_fields name = field "channel" (string "alerts") (field name (string "100") end)

abbrev with_raw : Fields → Event
with_raw raw = record (event "t0" "1") { raw = raw }

-- A flat record_id is business data; an EventRecordID, or a record_id under System, is an identity.
record_identities :
    (get_windows_event_record_identity plain (with_raw (record_fields "record_id")) ≡ ("", ""))
    × (get_windows_event_record_identity plain (with_raw (record_fields "eventrecordid"))
        ≡ ("alerts", "100"))
    × (get_windows_event_record_identity plain
          (with_raw (field "system" (object (record_fields "record_id")) end))
        ≡ ("alerts", "100"))
unfolding get_windows_event_record_identity strip as_object
record_identities = (refl, refl, refl)
