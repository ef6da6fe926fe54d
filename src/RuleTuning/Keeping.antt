-- ===== src/RuleTuning/Keeping.antt =====
-- Requests on the profiles of one file, and what each keeps.
use breach_scope.Prelude.{
  ℕ, String, ◌≡◌, refl, sym, ap, subst, Option, none, some, List, [], ◌∷◌, eqb, map, All, All-In,
  All-append, In, Distinct,
}
use breach_scope.Prelude.Text.{Unicode}
use breach_scope.Prelude.Sorting.{Distinct-snoc}
use breach_scope.Prelude.Rows.{
  find_row, find_row-eq-some, replace_row-keys, All-replace_row, All-remove_row,
  remove_row-Distinct,
}
use breach_scope.Prelude.Result.{Result, ok, err, >>=-eq-ok, guard_then-eq-ok, ok-injective}
use breach_scope.RuleTuning.{
  ProfileError, version_conflict, no_profile, Profile, ProfileFile, missing, unreadable, foreign,
  damaged, stored, Draft, profile_key, PublicProfile, read_profiles, row_of, normalized_payload,
  new_profile, updated_profile, save_profiles, create_profile_rows, create_profile,
  update_profile_rows, update_profile, delete_profile_rows, delete_profile,
}
use breach_scope.RuleTuning.Revisions.{
  IsKept, normalized_payload-IsPayload, new_profile-IsKept, updated_profile-IsKept,
}

-- A call of one of the three methods that change the file. `fresh` is the identifier of a new profile.
pub data Request : Type 0 where
  creation : (fresh now : String) (draft : Draft) (updated_by : String) → Request
  change :
      (now profile_id : String) (expected_version : ℕ) (draft : Draft) (updated_by : String)
      → Request
  removal : (profile_id : String) (expected_version : ℕ) → Request

-- No two profiles share an id, and each is kept.
pub record ProfilesAreSound (rows : List Profile) : Type 0 where
  pub distinct : Distinct (map profile_key rows)
  pub kept : All IsKept rows

abbrev pub FileIsSound : ProfileFile → Type 0
FileIsSound missing = Unit
FileIsSound unreadable = Unit
FileIsSound foreign = Unit
FileIsSound damaged = Unit
FileIsSound (stored rows) = ProfilesAreSound rows

-- The profiles of a file that can be read.
abbrev pub rows_in : ProfileFile → List Profile
rows_in missing = []
rows_in unreadable = []
rows_in foreign = []
rows_in damaged = []
rows_in (stored rows) = rows

abbrev pub IsFresh : Request → ProfileFile → Type 0
IsFresh (creation fresh now draft updated_by) file = ¬ In fresh (map profile_key (rows_in file))
IsFresh (change now profile_id expected draft updated_by) file = Unit
IsFresh (removal profile_id expected) file = Unit

module _ (u : Unicode) (rule_ids : List String) where
  unfoldable pub perform : Request → ProfileFile → Result ProfileError PublicProfile × ProfileFile
  unfolding create_profile update_profile delete_profile
  perform (creation fresh now draft updated_by) file =
      create_profile u rule_ids fresh now draft updated_by file
  perform (change now profile_id expected draft updated_by) file =
      update_profile u rule_ids now profile_id expected draft updated_by file
  perform (removal profile_id expected) file = delete_profile profile_id expected file

  -- The requests that reach one file, in the order in which its lock admits them.
  unfoldable pub perform_all : List Request → ProfileFile → ProfileFile
  unfolding perform
  perform_all [] file = file
  perform_all (r ∷ rest) file = perform_all rest (perform r file).1

  abbrev pub AreFresh : List Request → ProfileFile → Type 0
  AreFresh [] file = Unit
  AreFresh (r ∷ rest) file = IsFresh r file × AreFresh rest (perform r file).1

  pub read_profiles-rows :
      (file : ProfileFile) {rows : List Profile}
      → read_profiles file ≡ ok rows
      → rows_in file ≡ rows
  unfolding read_profiles
  read_profiles-rows missing h = ok-injective {E = ProfileError} h
  read_profiles-rows unreadable h = cc
  read_profiles-rows foreign h = cc
  read_profiles-rows damaged h = cc
  read_profiles-rows (stored rows) h = ok-injective {E = ProfileError} h

  rows_in-ProfilesAreSound :
      (file : ProfileFile) → FileIsSound file → ProfilesAreSound (rows_in file)
  rows_in-ProfilesAreSound missing s = record { distinct = tt; kept = tt }
  rows_in-ProfilesAreSound unreadable s = record { distinct = tt; kept = tt }
  rows_in-ProfilesAreSound foreign s = record { distinct = tt; kept = tt }
  rows_in-ProfilesAreSound damaged s = record { distinct = tt; kept = tt }
  rows_in-ProfilesAreSound (stored rows) s = s

  pub row_of-eq-ok :
      (profile_id : String) (rows : List Profile) {row : Profile}
      → row_of profile_id rows ≡ ok row
      → find_row profile_key profile_id rows ≡ some row
  unfolding row_of
  row_of-eq-ok profile_id rows {row} h = go (find_row profile_key profile_id rows) h
    where
      go :
          (o : Option Profile)
          → ◌≡◌ {A = Result ProfileError Profile}
              (elim o [ none ↦ err no_profile | some r ↦ ok r ])
              (ok row)
          → o ≡ some row
      go none k = cc
      go (some r) k = ap {B = Option Profile} some (ok-injective {E = ProfileError} k)

  -- What is to be saved, if anything, is sound.
  abbrev SavesSound : Result ProfileError (Profile × List Profile) → Type 0
  SavesSound (err e) = Unit
  SavesSound (ok (profile, rows)) = ProfilesAreSound rows

  SavesSound-intro :
      (r : Result ProfileError (Profile × List Profile))
      → ((profile : Profile) (rows : List Profile) → r ≡ ok (profile, rows) → ProfilesAreSound rows)
      → SavesSound r
  SavesSound-intro (err e) h = tt
  SavesSound-intro (ok (profile, rows)) h = h profile rows refl

  save_profiles-FileIsSound :
      (file : ProfileFile) (r : Result ProfileError (Profile × List Profile))
      → FileIsSound file
      → SavesSound r
      → FileIsSound (save_profiles file r).1
  unfolding save_profiles
  save_profiles-FileIsSound file (err e) s h = s
  save_profiles-FileIsSound file (ok (profile, rows)) s h = h

  create_profile_rows-SavesSound :
      (fresh now : String) (draft : Draft) (updated_by : String) (file : ProfileFile)
      → (¬ In fresh (map profile_key (rows_in file)))
      → FileIsSound file
      → SavesSound (create_profile_rows u rule_ids fresh now draft updated_by file)
  unfolding create_profile_rows new_profile
  create_profile_rows-SavesSound fresh now draft updated_by file free s =
      SavesSound-intro _ λ profile out h.
        let (payload, normal, h1) = >>=-eq-ok (normalized_payload u rule_ids draft) _ h in
        let (rows, found, h2) = >>=-eq-ok (read_profiles file) _ h1 in
        let before =
          subst ProfilesAreSound (read_profiles-rows file found)
            (rows_in-ProfilesAreSound file s) in
        let pair : ◌≡◌ {A = Profile × List Profile} _ (profile, out) =
          ok-injective {E = ProfileError} h2 in
        subst ProfilesAreSound (ap (λ (p : Profile × List Profile). p.1) pair) (record {
          distinct =
              Distinct-snoc profile_key (new_profile fresh now updated_by payload) rows
                (subst (λ (rs : List Profile). ¬ In fresh (map profile_key rs))
                  (read_profiles-rows file found) free)
                before.distinct;
          kept =
              All-append IsKept rows (new_profile fresh now updated_by payload ∷ []) before.kept (
                new_profile-IsKept fresh now updated_by payload
                    (normalized_payload-IsPayload u rule_ids draft normal),
                tt,
              );
        })

  update_profile_rows-SavesSound :
      (now profile_id : String) (expected : ℕ) (draft : Draft) (updated_by : String)
      (file : ProfileFile)
      → FileIsSound file
      → SavesSound (update_profile_rows u rule_ids now profile_id expected draft updated_by file)
  unfolding update_profile_rows updated_profile
  update_profile_rows-SavesSound now profile_id expected draft updated_by file s =
      SavesSound-intro _ λ profile out h.
        let (payload, normal, h1) = >>=-eq-ok (normalized_payload u rule_ids draft) _ h in
        let (rows, found, h2) = >>=-eq-ok (read_profiles file) _ h1 in
        let (row, named, h3) = >>=-eq-ok (row_of profile_id rows) _ h2 in
        let (_, h4) = guard_then-eq-ok (eqb row.version expected) version_conflict _ h3 in
        let before =
          subst ProfilesAreSound (read_profiles-rows file found)
            (rows_in-ProfilesAreSound file s) in
        let (there, same) =
          find_row-eq-some profile_key profile_id rows (row_of-eq-ok profile_id rows named) in
        let updated = updated_profile now updated_by payload row in
        let pair : ◌≡◌ {A = Profile × List Profile} _ (profile, out) =
          ok-injective {E = ProfileError} h4 in
        subst ProfilesAreSound (ap (λ (p : Profile × List Profile). p.1) pair) (record {
          distinct =
              subst Distinct (sym (replace_row-keys profile_key profile_id updated same rows))
                before.distinct;
          kept = All-replace_row profile_key IsKept profile_id updated rows before.kept (
              updated_profile-IsKept now updated_by payload row
                (normalized_payload-IsPayload u rule_ids draft normal)
                (All-In IsKept row rows before.kept there));
        })

  delete_profile_rows-SavesSound :
      (profile_id : String) (expected : ℕ) (file : ProfileFile)
      → FileIsSound file
      → SavesSound (delete_profile_rows profile_id expected file)
  unfolding delete_profile_rows
  delete_profile_rows-SavesSound profile_id expected file s = SavesSound-intro _ λ profile out h.
      let (rows, found, h1) = >>=-eq-ok (read_profiles file) _ h in
      let (row, named, h2) = >>=-eq-ok (row_of profile_id rows) _ h1 in
      let (_, h3) = guard_then-eq-ok (eqb row.version expected) version_conflict _ h2 in
      let before =
        subst ProfilesAreSound (read_profiles-rows file found) (rows_in-ProfilesAreSound file s) in
      let pair : ◌≡◌ {A = Profile × List Profile} _ (profile, out) =
        ok-injective {E = ProfileError} h3 in
      subst ProfilesAreSound (ap (λ (p : Profile × List Profile). p.1) pair) (record {
        distinct = remove_row-Distinct profile_key profile_id rows before.distinct;
        kept = All-remove_row profile_key IsKept profile_id rows before.kept;
      })

  pub perform-FileIsSound :
      (r : Request) (file : ProfileFile)
      → IsFresh r file
      → FileIsSound file
      → FileIsSound (perform r file).1
  unfolding perform create_profile update_profile delete_profile
  perform-FileIsSound (creation fresh now draft updated_by) file f s =
      save_profiles-FileIsSound file _ s
        (create_profile_rows-SavesSound fresh now draft updated_by file f s)
  perform-FileIsSound (change now profile_id expected draft updated_by) file f s =
      save_profiles-FileIsSound file _ s
        (update_profile_rows-SavesSound now profile_id expected draft updated_by file s)
  perform-FileIsSound (removal profile_id expected) file f s =
      save_profiles-FileIsSound file _ s (delete_profile_rows-SavesSound profile_id expected file s)

  -- Whatever requests follow each other, those that fail included, and as long as new identifiers are fresh, a sound
  -- file stays sound: no two profiles share an id; each profile names at most 200 rules to include and at most 200
  -- to exclude, without doubles and none in both, under a name of at most 120 characters; and its revisions are
  -- consecutive versions, the last 100 or all of them, of which the last one says what the profile says.
  pub perform_all-FileIsSound :
      (rs : List Request) (file : ProfileFile)
      → AreFresh rs file
      → FileIsSound file
      → FileIsSound (perform_all rs file)
  unfolding perform_all
  perform_all-FileIsSound [] file f s = s
  perform_all-FileIsSound (r ∷ rs) file f s =
      perform_all-FileIsSound rs (perform r file).1 f.1 (perform-FileIsSound r file f.0 s)
