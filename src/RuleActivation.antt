-- ===== src/RuleActivation.antt =====
-- api/services/rule_activation.py: the versioned manifest of the custom rules that are active.
-- A method takes the manifest file and returns its result beside the file that it leaves.
pub mod Active
pub mod History
pub mod Commits
pub mod Rollback
pub mod Loading
mod Examples
use breach_scope.Prelude.{
  ℕ, suc, ◌+◌, String, Bool, true, false, not, ◌&&◌, Option, none, some, List, [], ◌∷◌, ◌++◌, eqb,
  ltb, ◌==◌, length, last_n, keep, member, if◌then◌else◌,
}
use breach_scope.Prelude.Text.{Unicode, str_le, take_chars, or_else, decimal, ◌+++◌}
use breach_scope.Prelude.Sorting.{sort}
use breach_scope.Prelude.Result.{Result, ok, err, guard, ◌>>=◌, ◌>>◌}
use breach_scope.Schemas.{Rule}

abbrev pub max_history : ℕ
max_history = 100

-- One publication of a draft.
pub record Publication : Type 0 where
  pub version : ℕ
  pub rule_id : String
  pub relative_path : String
  pub sha256 : String

pub record Entry : Type 0 where
  pub draft_id : String
  pub published_version : ℕ
  pub rule_id : String
  pub relative_path : String
  pub sha256 : String

pub record Snapshot : Type 0 where
  pub version : ℕ
  pub updated_at : Option String
  pub updated_by : Option String
  pub reason : String
  pub active : List Entry

pub record Manifest : Type 0 where
  pub version : ℕ
  pub updated_at : Option String
  pub updated_by : Option String
  pub active : List Entry
  pub history : List Snapshot

-- What may stand at the manifest's path.
pub data File : Type 0 where
  missing unreadable foreign damaged : File
  stored : Manifest → File

pub data Error : Type 0 where
  unreadable_manifest foreign_manifest damaged_manifest version_conflict : Error
  no_draft no_publication empty_path outside_root no_artifact sha_mismatch : Error
  invalid_rule not_one_rule other_rule_id not_active no_target stale_entry duplicate_rule : Error

-- What the service asks of the authoring store, the file system, SHA-256 and the rule loader.
-- `resolve` answers none for a path outside the authoring root, `read_file` for no regular file,
-- `load_rules` for a RuleLoadError.
pub record Authoring : Type 0 where
  pub publications : String → Option (List Publication)
  pub resolve : String → Option String
  pub read_file : String → Option String
  pub sha256 : String → String
  pub load_rules : String → Option (List Rule)

abbrev pub base_document : Manifest
base_document = record {
  version = 0;
  updated_at = none;
  updated_by = none;
  active = [];
  history =
      record { version = 0; updated_at = none; updated_by = none; reason = "initial"; active = [] }
      ∷ [];
}

unfoldable pub read : File → Result Error Manifest
read missing = ok base_document
read unreadable = err unreadable_manifest
read foreign = err foreign_manifest
read damaged = err damaged_manifest
read (stored doc) = ok doc

pub assert_version : Manifest → ℕ → Result Error (Unit {0})
assert_version doc expected = guard (eqb doc.version expected) version_conflict

pub find_publication : ℕ → List Publication → Result Error Publication
find_publication version [] = err no_publication
find_publication version (p ∷ ps) =
    let rest = find_publication version ps in if eqb p.version version then ok p else rest

pub or_raise {ℓ} : {A : Type ℓ} → Error → Option A → Result Error A
or_raise e none = err e
or_raise e (some a) = ok a

pub publication : Authoring → String → ℕ → Result Error Publication
unfolding find_publication or_raise
publication store draft_id version = do
  found ← or_raise no_draft (store.publications draft_id)
  find_publication version found

pub sole_rule : List Rule → Result Error Rule
sole_rule (rule ∷ []) = ok rule
sole_rule _ = err not_one_rule

-- The path and the rule of a publication whose artifact is still the one that was published.
pub verify_publication : Authoring → Publication → Result Error (String × Rule)
unfolding or_raise sole_rule
verify_publication store p = do
  guard (not (p.relative_path == "")) empty_path
  path ← or_raise outside_root (store.resolve p.relative_path)
  payload ← or_raise no_artifact (store.read_file path)
  guard (not (p.sha256 == "") && store.sha256 payload == p.sha256) sha_mismatch
  loaded ← or_raise invalid_rule (store.load_rules payload)
  rule ← sole_rule loaded
  guard (rule.id == p.rule_id) other_rule_id
  ok (path, rule)

pub entry_of : String → Publication → Entry
entry_of draft_id p = record {
  draft_id = draft_id;
  published_version = p.version;
  rule_id = p.rule_id;
  relative_path = p.relative_path;
  sha256 = p.sha256;
}

-- The comparison of two entry dictionaries.
pub same_entry : Entry → Entry → Bool
same_entry a b =
    a.draft_id == b.draft_id
    && eqb a.published_version b.published_version
    && a.rule_id == b.rule_id
    && a.relative_path == b.relative_path
    && a.sha256 == b.sha256

pub snapshot_of : String → Manifest → List Entry → String → String → Snapshot
snapshot_of now doc active actor reason = record {
  version = doc.version + 1;
  updated_at = some now;
  updated_by = some (take_chars 120 (or_else actor "system"));
  reason = take_chars 500 reason;
  active = active;
}

pub commit_state : String → Manifest → List Entry → String → String → Manifest
unfolding snapshot_of
commit_state now doc active actor reason =
    let snapshot = snapshot_of now doc active actor reason in
    record {
      version = snapshot.version;
      updated_at = snapshot.updated_at;
      updated_by = snapshot.updated_by;
      active = active;
      history = last_n max_history (doc.history ++ snapshot ∷ []);
    }

-- A method that ends in `_commit_state` writes the file then; one that raises has not written.
pub save : File → Result Error Manifest → Result Error Manifest × File
save file (ok doc) = (ok doc, stored doc)
save file (err e) = (err e, file)

pub get_state : File → Result Error Manifest
get_state = read

module _ (u : Unicode) where
  -- The key that orders and separates the active rules.
  abbrev pub rule_key : Entry → String
  rule_key e = u.casefold e.rule_id

  pub by_rule : Entry → Entry → Bool
  by_rule a b = str_le (rule_key a) (rule_key b)

  -- What of the active list stays when `entry` takes its place.
  pub stays : Entry → Entry → Bool
  stays entry item = not (item.draft_id == entry.draft_id) && not (rule_key item == rule_key entry)

  pub activated : List Entry → Entry → List Entry
  unfolding by_rule stays
  activated active entry = sort by_rule (keep (stays entry) active ++ entry ∷ [])

  pub activate :
      Authoring
      → (now draft_id : String) (published_version expected_version : ℕ) (actor : String) → File
      → Result Error Manifest × File
  activate store now draft_id published expected actor file = save file (do
    p ← publication store draft_id published
    verify_publication store p
    let entry = entry_of draft_id p
    doc ← read file
    assert_version doc expected
    ok (
        commit_state now doc (activated doc.active entry) actor
          ("activate " +++ entry.rule_id +++ " from " +++ draft_id +++ " v" +++ decimal published)))

pub remaining : String → List Entry → List Entry
remaining draft_id active = keep (λ item. not (item.draft_id == draft_id)) active

pub deactivate :
    (now draft_id : String) (expected_version : ℕ) (actor : String)
    → File
    → Result Error Manifest × File
deactivate now draft_id expected actor file = save file (do
  doc ← read file
  assert_version doc expected
  let active = remaining draft_id doc.active
  guard (not (eqb (length active) (length doc.active))) not_active
  ok (commit_state now doc active actor ("deactivate " +++ draft_id)))

pub find_snapshot : ℕ → List Snapshot → Result Error Snapshot
find_snapshot version [] = err no_target
find_snapshot version (s ∷ ss) =
    let rest = find_snapshot version ss in if eqb s.version version then ok s else rest

pub check_entry : Authoring → Entry → Result Error (Unit {0})
check_entry store item = do
  p ← publication store item.draft_id item.published_version
  verify_publication store p
  guard (same_entry (entry_of item.draft_id p) item) stale_entry

pub check_entries : Authoring → List Entry → Result Error (Unit {0})
check_entries store [] = ok tt
check_entries store (item ∷ items) = do check_entry store item; check_entries store items

pub rollback :
    Authoring
    → (now : String) (target_version expected_version : ℕ) (actor : String) → File
    → Result Error Manifest × File
rollback store now target expected actor file = save file (do
  doc ← read file
  assert_version doc expected
  snapshot ← find_snapshot target doc.history
  check_entries store snapshot.active
  ok (
      commit_state now doc snapshot.active actor
        ("rollback to activation version " +++ decimal target)))

pub record Provenance : Type 0 where
  pub rule_id : String
  pub draft_id : String
  pub published_version : ℕ
  pub sha256 : String
  pub relative_path : String

pub provenance_of : Rule → Entry → Provenance
provenance_of rule item = record {
  rule_id = rule.id;
  draft_id = item.draft_id;
  published_version = item.published_version;
  sha256 = item.sha256;
  relative_path = item.relative_path;
}

pub load_entry : Authoring → Entry → Result Error Rule
load_entry store item = do
  p ← publication store item.draft_id item.published_version
  guard (same_entry (entry_of item.draft_id p) item) stale_entry
  found ← verify_publication store p
  ok (found.1)

module _ (u : Unicode) (store : Authoring) where
  -- The loop of `load_active_rules`; `seen` holds the folded ids of the rules so far.
  pub load_from : List String → List Entry → Result Error (List Rule × List Provenance)
  load_from seen [] = ok ([], [])
  load_from seen (item ∷ items) = do
    rule ← load_entry store item
    guard (not (member (u.casefold rule.id) seen)) duplicate_rule
    rest ← load_from (u.casefold rule.id ∷ seen) items
    ok (rule ∷ rest.0, provenance_of rule item ∷ rest.1)

  pub load_active_rules : File → Result Error (List Rule × List Provenance)
  load_active_rules file = do doc ← read file; load_from [] doc.active
