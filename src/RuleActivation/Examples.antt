-- ===== src/RuleActivation/Examples.antt =====
-- Concrete requests, and the theorems at them.
use breach_scope.Prelude.{◌+◌, map, ◌≡◌, refl, List, [], ◌∷◌, ◌==◌, if◌then◌else◌, keep, none, some}
use breach_scope.Prelude.Text.{Unicode, decimal}
use breach_scope.Prelude.Sorting.{sort}
use breach_scope.Prelude.Result.{ok, err}
use breach_scope.Schemas.{Rule}
use breach_scope.RuleActivation.{
  Authoring, Entry, Error, Provenance, Manifest, Publication, missing, stored, base_document, read,
  assert_version, publication, verify_publication, entry_of, commit_state, snapshot_of, save,
  activate, activated, rollback, check_entries, check_entry, load_active_rules, by_rule, stays,
  same_entry,
}
use breach_scope.RuleActivation.History.{IsWellFormed, FileIsWellFormed, base_document-IsWellFormed}
use breach_scope.RuleActivation.Commits.{
  Request, activation, deactivation, perform, perform_all, perform_all-IsWellFormed, no_lost_update,
}
use breach_scope.RuleActivation.Rollback.{rollback_restores}
use breach_scope.RuleActivation.Loading.{load_active_rules_total}

abbrev plain : Unicode
plain = record { casefold = λ s. s; lower = λ s. s }

abbrev some_rule : Rule
some_rule = record {
  id = "R-1";
  name = "one";
  description = "";
  field = "command_line";
  pattern = "x";
  mitre_technique = none;
  severity = "low";
  operator = some "contains";
  fields = none;
  all_of = none;
}

-- One draft with one publication, under a hash that is the text itself.
abbrev shelf : Authoring
shelf = record {
  publications = λ d.
      if d == "d1"
      then some
          (record { version = 1; rule_id = "R-1"; relative_path = "d1.yml"; sha256 = "yaml" } ∷ [])
      else none;
  resolve = λ p. some p;
  read_file = λ p. some "yaml";
  sha256 = λ b. b;
  load_rules = λ b. some (some_rule ∷ []);
}

abbrev first : Request
first = activation "t1" "d1" 1 0 "ann"

abbrev second : Request
second = deactivation "t2" "d1" 0 "bob"

abbrev one_active : Manifest
one_active =
    commit_state "t1" base_document (entry_of "d1" published ∷ []) "ann" "activate R-1 from d1 v1"
  where
    published : Publication
    published = record { version = 1; rule_id = "R-1"; relative_path = "d1.yml"; sha256 = "yaml" }

program : Unit {0}
unfolding activate publication verify_publication read assert_version activated by_rule stays save
    commit_state snapshot_of entry_of decimal sort keep check_entries
program = tt

first_commits : (perform plain shelf first missing).0 ≡ ok one_active
unfolding program
first_commits = refl

perform_all-IsWellFormed_example :
    FileIsWellFormed plain (perform_all plain shelf (first ∷ second ∷ []) missing)
perform_all-IsWellFormed_example =
    perform_all-IsWellFormed plain shelf (first ∷ second ∷ []) missing tt

no_lost_update_example :
    (e : Error) × (perform plain shelf second (perform plain shelf first missing).1
      ≡ (err e, stored one_active))
no_lost_update_example = no_lost_update plain shelf first second missing first_commits refl

rollback_restores_example :
    (back : Manifest) × (rollback shelf "t3" 0 1 "ann" (stored one_active) ≡ (ok back, stored back))
    × (back.active ≡ [])
    × (back.version ≡ 0 + 2)
unfolding program
rollback_restores_example =
    rollback_restores plain shelf first base_document one_active "t3" "ann"
      (base_document-IsWellFormed plain) refl refl

one_active-IsWellFormed : IsWellFormed plain one_active
unfolding program
one_active-IsWellFormed = perform_all-IsWellFormed plain shelf (first ∷ []) missing tt

load_active_rules_total_example :
    (rules : List Rule) × (origin : List Provenance) × (load_active_rules plain shelf
        (stored one_active)
      ≡ ok (rules, origin))
    × (map (λ (r : Rule). r.id) rules ≡ map (λ (e : Entry). e.rule_id) one_active.active)
    × (map (λ (p : Provenance). p.draft_id) origin
        ≡ map (λ (e : Entry). e.draft_id) one_active.active)
unfolding program check_entry same_entry
load_active_rules_total_example =
    load_active_rules_total plain shelf one_active one_active-IsWellFormed refl
