-- ===== src/RuleTuning.antt =====
-- RuleTuningProfileService of api/services/rule_tuning.py: profiles of rules to include and to exclude, each with
-- a version and the revisions that led to it. A method takes the profile file and returns its result beside the
-- file that it leaves; `now` and `fresh` are the texts of the clock and of the new identifier.
pub mod RuleIds
pub mod Revisions
pub mod Keeping
pub mod Store
pub mod Concurrency
pub mod ReadBack
mod Examples
use breach_scope.Prelude.{
  ℕ, zero, suc, ◌+◌, String, Bool, true, false, not, ◌&&◌, ◌||◌, Option, none, some, List, [], ◌∷◌,
  ◌++◌, eqb, leb, ◌==◌, length, last_n, keep, map, member, if◌then◌else◌,
}
use breach_scope.Prelude.Text.{Unicode, str_le, strip, take_chars, count_chars, or_else, split_on}
use breach_scope.Prelude.Sorting.{sort}
use breach_scope.Prelude.Dict.{find, put}
use breach_scope.Prelude.Rows.{find_row, replace_row, remove_row}
use breach_scope.Prelude.Result.{Result, ok, err, guard, ◌>>=◌, ◌>>◌}

abbrev pub max_profile_rules : ℕ
max_profile_rules = 200

abbrev pub max_revisions : ℕ
max_revisions = 100

-- RuleTuningProfileError (by what it is about), RuleTuningVersionConflict, and KeyError.
pub data ProfileError : Type 0 where
  unreadable_store foreign_store damaged_store : ProfileError
  too_many_rules unknown_rules overlapping_rules empty_name long_name long_description :
      ProfileError
  version_conflict no_profile : ProfileError

-- What a request, a revision and a profile say of the rules.
pub record Payload : Type 0 where
  pub name : String
  pub description : String
  pub rule_include : List String
  pub rule_exclude : List String

pub record Revision : Type 0 where
  pub version : ℕ
  pub updated_at : String
  pub updated_by : String
  pub payload : Payload

pub record Profile : Type 0 where
  pub profile_id : String
  pub version : ℕ
  pub created_at : String
  pub updated_at : String
  pub updated_by : String
  pub payload : Payload
  pub revisions : List Revision

-- What may stand at the path of the profiles.
pub data ProfileFile : Type 0 where
  missing unreadable foreign damaged : ProfileFile
  stored : List Profile → ProfileFile

unfoldable pub read_profiles : ProfileFile → Result ProfileError (List Profile)
read_profiles missing = ok []
read_profiles unreadable = err unreadable_store
read_profiles foreign = err foreign_store
read_profiles damaged = err damaged_store
read_profiles (stored profiles) = ok profiles

-- What a caller gives for a list of rules: nothing, a text with commas, or a list.
pub data RuleList : Type 0 where
  absent : RuleList
  commas : String → RuleList
  entries : List String → RuleList

-- A request as it comes, before it is normalized; `str(value or "")` of each text.
pub record Draft : Type 0 where
  pub name : String
  pub description : String
  pub rule_include : RuleList
  pub rule_exclude : RuleList

-- The ids that are left: those found, the keys of those, and those that no rule has.
pub record Scan : Type 0 where
  pub result : List String
  pub seen : List String
  pub unknown : List String

unfoldable pub raw_values : RuleList → List String
unfolding split_on
raw_values absent = []
raw_values (commas s) = if s == "" then [] else split_on b',' s
raw_values (entries values) = values

unfoldable pub normalize_name : String → Result ProfileError String
unfolding strip count_chars
normalize_name value = do
  guard (not (strip value == "")) empty_name
  guard (leb (count_chars (strip value)) 120) long_name
  ok (strip value)

unfoldable pub normalize_description : String → Result ProfileError String
unfolding strip count_chars
normalize_description value = do
  guard (leb (count_chars (strip value)) 1000) long_description
  ok (strip value)

unfoldable pub overlap : List String → List String → List String
unfolding keep
overlap include exclude = keep (λ id. member id exclude) include

module _ (u : Unicode) where
  -- {rule.id.casefold(): rule.id for rule in rules}
  unfoldable pub lookup_from : List String → List (String × String) → List (String × String)
  lookup_from [] lookup = lookup
  lookup_from (id ∷ ids) lookup = lookup_from ids (put (u.casefold id) id lookup)

  unfoldable pub rule_lookup : (rule_ids : List String) → List (String × String)
  unfolding lookup_from
  rule_lookup rule_ids = lookup_from rule_ids []

  -- One value of the loop, stripped and not empty.
  unfoldable pub scan_found : (key canonical : String) → Scan → Result ProfileError Scan
  scan_found key canonical scan =
      let next = if member key scan.seen then scan else record {
        result = scan.result ++ canonical ∷ [];
        seen = key ∷ scan.seen;
        unknown = scan.unknown;
      } in
      do guard (leb (length next.result) max_profile_rules) too_many_rules; ok next

  unfoldable pub scan_value :
      (lookup : List (String × String)) → (text : String) → Scan → Result ProfileError Scan
  unfolding scan_found
  scan_value lookup text scan =
      if text == "" then ok scan else elim (find (u.casefold text) lookup) [
        | none ↦
            ok (record {
              result = scan.result;
              seen = scan.seen;
              unknown = scan.unknown ++ text ∷ [];
            })
        | some canonical ↦ scan_found (u.casefold text) canonical scan
      ]

  unfoldable pub scan_values :
      (lookup : List (String × String)) → List String → Scan → Result ProfileError Scan
  unfolding scan_value strip
  scan_values lookup [] scan = ok scan
  scan_values lookup (value ∷ values) scan = do
    scan' ← scan_value lookup (strip value) scan
    scan_values lookup values scan'

  unfoldable pub normalize_rule_ids :
      RuleList → (lookup : List (String × String)) → Result ProfileError (List String)
  unfolding scan_values raw_values
  normalize_rule_ids values lookup = do
    scan ← scan_values lookup (raw_values values) (record { result = []; seen = []; unknown = [] })
    guard (eqb (length scan.unknown) 0) unknown_rules
    ok scan.result

  -- `rule_ids` are those of the rules that load_rules gives.
  unfoldable pub normalized_payload : (rule_ids : List String) → Draft → Result ProfileError Payload
  unfolding rule_lookup normalize_rule_ids normalize_name normalize_description overlap
  normalized_payload rule_ids draft = do
    let lookup = rule_lookup rule_ids
    include ← normalize_rule_ids draft.rule_include lookup
    exclude ← normalize_rule_ids draft.rule_exclude lookup
    guard (eqb (length (overlap include exclude)) 0) overlapping_rules
    name ← normalize_name draft.name
    description ← normalize_description draft.description
    ok (record {
      name = name;
      description = description;
      rule_include = include;
      rule_exclude = exclude;
    })

-- A profile as a reply shows it; without revisions in a list.
pub record PublicProfile : Type 0 where
  pub profile_id : String
  pub version : ℕ
  pub created_at : String
  pub updated_at : String
  pub updated_by : String
  pub payload : Payload
  pub revision_count : ℕ
  pub revisions : Option (List Revision)

unfoldable pub public_profile : (include_revisions : Bool) → Profile → PublicProfile
public_profile include_revisions profile = record {
  profile_id = profile.profile_id;
  version = profile.version;
  created_at = profile.created_at;
  updated_at = profile.updated_at;
  updated_by = profile.updated_by;
  payload = profile.payload;
  revision_count = length profile.revisions;
  revisions = if include_revisions then some profile.revisions else none;
}

abbrev pub profile_key : Profile → String
profile_key row = row.profile_id

unfoldable pub by_name : Unicode → Profile → Profile → Bool
unfolding str_le
by_name u a b =
    if u.casefold a.payload.name == u.casefold b.payload.name
    then str_le a.profile_id b.profile_id
    else str_le (u.casefold a.payload.name) (u.casefold b.payload.name)

unfoldable pub list_profiles : Unicode → ProfileFile → Result ProfileError (List PublicProfile)
unfolding read_profiles public_profile sort by_name
list_profiles u file = do
  rows ← read_profiles file
  ok (map (public_profile false) (sort (by_name u) rows))

unfoldable pub row_of : (profile_id : String) → List Profile → Result ProfileError Profile
row_of profile_id rows = elim (find_row profile_key profile_id rows) [
  | none ↦ err no_profile
  | some row ↦ ok row
]

unfoldable pub get_profile : (profile_id : String) → ProfileFile → Result ProfileError PublicProfile
unfolding read_profiles row_of public_profile
get_profile profile_id file = do
  rows ← read_profiles file
  row ← row_of profile_id rows
  ok (public_profile true row)

-- `_write` at the end of a method that has not raised, with the profile that its reply shows.
unfoldable pub save_profiles :
    ProfileFile
    → Result ProfileError (Profile × List Profile)
    → Result ProfileError PublicProfile × ProfileFile
unfolding public_profile
save_profiles file (err e) = (err e, file)
save_profiles file (ok (profile, profiles)) = (ok (public_profile true profile), stored profiles)

unfoldable pub profile_actor : String → String
unfolding take_chars or_else
profile_actor updated_by = take_chars 120 (or_else updated_by "system")

unfoldable pub new_profile : (fresh now updated_by : String) → Payload → Profile
unfolding profile_actor
new_profile fresh now updated_by payload = record {
  profile_id = fresh;
  version = 1;
  created_at = now;
  updated_at = now;
  updated_by = profile_actor updated_by;
  payload = payload;
  revisions =
      record {
        version = 1;
        updated_at = now;
        updated_by = profile_actor updated_by;
        payload = payload;
      }
      ∷ [];
}

unfoldable pub updated_profile : (now updated_by : String) → Payload → Profile → Profile
unfolding profile_actor
updated_profile now updated_by payload row = record {
  profile_id = row.profile_id;
  version = row.version + 1;
  created_at = row.created_at;
  updated_at = now;
  updated_by = profile_actor updated_by;
  payload = payload;
  revisions = last_n max_revisions (
      row.revisions
      ++ record {
        version = row.version + 1;
        updated_at = now;
        updated_by = profile_actor updated_by;
        payload = payload;
      }
        ∷ []);
}

module _ (u : Unicode) (rule_ids : List String) where
  unfoldable pub create_profile_rows :
      (fresh now : String)
      → Draft
      → (updated_by : String) → ProfileFile
      → Result ProfileError (Profile × List Profile)
  unfolding normalized_payload read_profiles new_profile
  create_profile_rows fresh now draft updated_by file = do
    payload ← normalized_payload u rule_ids draft
    rows ← read_profiles file
    let profile = new_profile fresh now updated_by payload
    ok (profile, rows ++ profile ∷ [])

  unfoldable pub create_profile :
      (fresh now : String)
      → Draft
      → (updated_by : String) → ProfileFile
      → Result ProfileError PublicProfile × ProfileFile
  unfolding create_profile_rows save_profiles
  create_profile fresh now draft updated_by file =
      save_profiles file (create_profile_rows fresh now draft updated_by file)

  unfoldable pub update_profile_rows :
      (now profile_id : String) (expected_version : ℕ)
      → Draft
      → (updated_by : String) → ProfileFile
      → Result ProfileError (Profile × List Profile)
  unfolding normalized_payload read_profiles row_of updated_profile
  update_profile_rows now profile_id expected_version draft updated_by file = do
    payload ← normalized_payload u rule_ids draft
    rows ← read_profiles file
    row ← row_of profile_id rows
    guard (eqb row.version expected_version) version_conflict
    let updated = updated_profile now updated_by payload row
    ok (updated, replace_row profile_key profile_id updated rows)

  unfoldable pub update_profile :
      (now profile_id : String) (expected_version : ℕ)
      → Draft
      → (updated_by : String) → ProfileFile
      → Result ProfileError PublicProfile × ProfileFile
  unfolding update_profile_rows save_profiles
  update_profile now profile_id expected_version draft updated_by file =
      save_profiles file (update_profile_rows now profile_id expected_version draft updated_by file)

unfoldable pub delete_profile_rows :
    (profile_id : String) (expected_version : ℕ)
    → ProfileFile
    → Result ProfileError (Profile × List Profile)
unfolding read_profiles row_of
delete_profile_rows profile_id expected_version file = do
  rows ← read_profiles file
  row ← row_of profile_id rows
  guard (eqb row.version expected_version) version_conflict
  ok (row, remove_row profile_key profile_id rows)

unfoldable pub delete_profile :
    (profile_id : String) (expected_version : ℕ)
    → ProfileFile
    → Result ProfileError PublicProfile × ProfileFile
unfolding delete_profile_rows save_profiles
delete_profile profile_id expected_version file =
    save_profiles file (delete_profile_rows profile_id expected_version file)
