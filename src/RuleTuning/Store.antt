-- ===== src/RuleTuning/Store.antt =====
-- What the file of profiles is to its callers: a map from ids to versions and payloads, which an update or a removal
-- changes only under the version that it expects.
use breach_scope.Prelude.{
  ℕ, ◌+◌, String, ◌≡◌, refl, ap, ◌∙◌, inl, inr, Bool, true, false, Option, none, some, List, [],
  ◌∷◌, ◌++◌, ◌==◌, arith, eqb, map, In, Distinct, Bool-cases, if◌then◌else◌,
}
use breach_scope.Prelude.Text.{Unicode}
use breach_scope.Prelude.Rows.{
  find_row, find_row-eq-some, replace_row, find_row-replace_row, remove_row, find_row-remove_row,
  find_row-snoc,
}
use breach_scope.Prelude.Result.{Result, ok, err, guard, ◌>>=◌, ◌>>◌}
use breach_scope.RuleTuning.{
  ProfileError, version_conflict, no_profile, Payload, Profile, ProfileFile, missing, unreadable,
  foreign, damaged, stored, Draft, profile_key, read_profiles, row_of, normalized_payload,
  new_profile, updated_profile, save_profiles, create_profile_rows, create_profile,
  update_profile_rows, update_profile, delete_profile_rows, delete_profile,
}
use breach_scope.RuleTuning.Keeping.{
  Request, creation, change, removal, FileIsSound, rows_in, IsFresh, perform, perform_all, AreFresh,
  perform-FileIsSound,
}

-- The map: of an id, the version and what the profile says.
abbrev pub Versions : Type 0
Versions = String → Option (ℕ × Payload)

abbrev pub version_entry : Option Profile → Option (ℕ × Payload)
version_entry none = none
version_entry (some row) = some (row.version, row.payload)

abbrev pub view_rows : List Profile → Versions
view_rows rows id = version_entry (find_row profile_key id rows)

abbrev pub view : ProfileFile → Versions
view file = view_rows (rows_in file)

abbrev pub assign : String → Option (ℕ × Payload) → Versions → Versions
assign id entry versions other = if id == other then entry else versions other

-- The entry is assigned if the profile is there under the expected version.
abbrev pub assign_if :
    (expected : ℕ) → String → (Option (ℕ × Payload)) → Option (ℕ × Payload) → Versions → Versions
assign_if expected id entry none versions = versions
assign_if expected id entry (some (version, payload)) versions =
    if eqb version expected then assign id entry versions else versions

-- A file that a method can read.
abbrev pub IsReadable : ProfileFile → Type 0
IsReadable missing = Unit
IsReadable unreadable = ⊥
IsReadable foreign = ⊥
IsReadable damaged = ⊥
IsReadable (stored rows) = Unit

module _ (u : Unicode) (rule_ids : List String) where
  abbrev pub after_payload :
      Result ProfileError Payload → (Payload → Versions) → Versions → Versions
  after_payload (err e) next versions = versions
  after_payload (ok payload) next versions = next payload

  -- The request on the map.
  abbrev pub perform_on : Request → Versions → Versions
  perform_on (creation fresh now draft updated_by) versions =
      after_payload (normalized_payload u rule_ids draft)
        (λ payload. assign fresh (some (1, payload)) versions) versions
  perform_on (change now profile_id expected draft updated_by) versions =
      after_payload (normalized_payload u rule_ids draft)
        (λ payload.
          assign_if expected profile_id (some (expected + 1, payload)) (versions profile_id)
            versions)
        versions
  perform_on (removal profile_id expected) versions =
      assign_if expected profile_id none (versions profile_id) versions

  abbrev pub perform_all_on : List Request → Versions → Versions
  perform_all_on [] versions = versions
  perform_all_on (r ∷ rest) versions = perform_all_on rest (perform_on r versions)

  pub readable : (file : ProfileFile) → IsReadable file → read_profiles file ≡ ok (rows_in file)
  unfolding read_profiles
  readable missing h = refl
  readable unreadable h = elim h [ ]
  readable foreign h = elim h [ ]
  readable damaged h = elim h [ ]
  readable (stored rows) h = refl

  version_entry-if :
      (b : Bool) (row : Profile) (o : Option Profile)
      → version_entry (if b then some row else o)
        ≡ (if b then some (row.version, row.payload) else version_entry o)
  version_entry-if true row o = refl
  version_entry-if false row o = refl

  version_entry-if_none :
      (b : Bool) (o : Option Profile)
      → version_entry (if b then none else o) ≡ (if b then none else version_entry o)
  version_entry-if_none true o = refl
  version_entry-if_none false o = refl

  creation_view :
      (fresh now : String) (draft : Draft) (updated_by : String) (file : ProfileFile)
      → IsReadable file
      → (¬ In fresh (map profile_key (rows_in file)))
      → view (create_profile u rule_ids fresh now draft updated_by file).1
        ≡ perform_on (creation fresh now draft updated_by) (view file)
  unfolding create_profile create_profile_rows save_profiles new_profile
  creation_view fresh now draft updated_by file good free = go (normalized_payload u rule_ids draft)
    where
      go :
          (n : Result ProfileError Payload)
          → view
              (save_profiles file (
                n >>= λ payload. read_profiles file >>= λ rows. ok (
                  new_profile fresh now updated_by payload,
                  rows ++ new_profile fresh now updated_by payload ∷ [],
                ))).1
            ≡ after_payload n (λ payload. assign fresh (some (1, payload)) (view file)) (view file)
      go (err e) = refl
      go (ok payload) =
          let p = new_profile fresh now updated_by payload in
          ap
            (λ (r : Result ProfileError (List Profile)).
              view (save_profiles file (r >>= λ rows. ok (p, rows ++ p ∷ []))).1)
            (readable file good)
          ∙ (λ i id.
              (ap version_entry (find_row-snoc profile_key id p (rows_in file) free)
                  ∙ version_entry-if (fresh == id) p (find_row profile_key id (rows_in file)))
                i)

  change_view :
      (now profile_id : String) (expected : ℕ) (draft : Draft) (updated_by : String)
      (file : ProfileFile)
      → IsReadable file
      → view (update_profile u rule_ids now profile_id expected draft updated_by file).1
        ≡ perform_on (change now profile_id expected draft updated_by) (view file)
  unfolding update_profile update_profile_rows save_profiles row_of updated_profile
  change_view now profile_id expected draft updated_by file good =
      go (normalized_payload u rule_ids draft)
    where
      place : Payload → Profile → Result ProfileError (Profile × List Profile)
      place payload row =
          guard (eqb row.version expected) version_conflict
          >> ok (
            updated_profile now updated_by payload row,
            replace_row profile_key profile_id (updated_profile now updated_by payload row)
                (rows_in file),
          )

      placed :
          (payload : Payload) (o : Option Profile)
          → find_row profile_key profile_id (rows_in file) ≡ o
          → view
              (save_profiles file (
                (elim o as (λ x. Result ProfileError Profile) [
                  | none ↦ err no_profile
                  | some row ↦ ok row
                ])
                >>= place payload)).1
            ≡ assign_if expected profile_id
                (some (expected + 1, payload))
                (version_entry o)
                (view file)
      placed payload none e = refl
      placed payload (some row) e = elim (Bool-cases (eqb row.version expected)) [
        | inr other ↦ rw other refl
        | inl same ↦
            let q = updated_profile now updated_by payload row in
            let version : row.version ≡ expected = ground (arith, same) in
            rw same (λ i id.
              (ap version_entry (
                    find_row-replace_row profile_key profile_id id q (rows_in file)
                      (find_row-eq-some profile_key profile_id (rows_in file) e).1 e)
                  ∙ (version_entry-if (profile_id == id) q (find_row profile_key id (rows_in file))
                      ∙ ap
                          (λ (v : ℕ).
                            if profile_id == id then some (v + 1, payload) else view file id)
                          version))
                i)
      ]

      go :
          (n : Result ProfileError Payload)
          → view
              (save_profiles file (
                n >>= λ payload. read_profiles file >>= λ rows. row_of profile_id rows >>= λ row.
                guard (eqb row.version expected) version_conflict
                >> ok (
                  updated_profile now updated_by payload row,
                  replace_row profile_key profile_id
                      (updated_profile now updated_by payload row)
                      rows,
                ))).1
            ≡ after_payload n
                (λ payload.
                  assign_if expected profile_id
                    (some (expected + 1, payload))
                    (view file profile_id)
                    (view file))
                (view file)
      go (err e) = refl
      go (ok payload) =
          ap
            (λ (r : Result ProfileError (List Profile)).
              view
                (save_profiles file (
                  r >>= λ rows. row_of profile_id rows >>= λ row.
                  guard (eqb row.version expected) version_conflict
                  >> ok (
                    updated_profile now updated_by payload row,
                    replace_row profile_key profile_id (updated_profile now updated_by payload row)
                        rows,
                  ))).1)
            (readable file good)
          ∙ placed payload (find_row profile_key profile_id (rows_in file)) refl

  removal_view :
      (profile_id : String) (expected : ℕ) (file : ProfileFile)
      → IsReadable file
      → Distinct (map profile_key (rows_in file))
      → view (delete_profile profile_id expected file).1
        ≡ perform_on (removal profile_id expected) (view file)
  unfolding delete_profile delete_profile_rows save_profiles row_of
  removal_view profile_id expected file good distinct =
      ap
        (λ (r : Result ProfileError (List Profile)).
          view
            (save_profiles file (
              r >>= λ rows. row_of profile_id rows >>= λ row.
              guard (eqb row.version expected) version_conflict
              >> ok (row, remove_row profile_key profile_id rows))).1)
        (readable file good)
      ∙ removed (find_row profile_key profile_id (rows_in file))
    where
      removed :
          (o : Option Profile)
          → view
              (save_profiles file (
                (elim o as (λ x. Result ProfileError Profile) [
                  | none ↦ err no_profile
                  | some row ↦ ok row
                ])
                >>= λ row.
                    guard (eqb row.version expected) version_conflict
                    >> ok (row, remove_row profile_key profile_id (rows_in file)))).1
            ≡ assign_if expected profile_id none (version_entry o) (view file)
      removed none = refl
      removed (some row) = elim (Bool-cases (eqb row.version expected)) [
        | inr other ↦ rw other refl
        | inl same ↦ rw same (λ i id.
            (ap version_entry
                  (find_row-remove_row profile_key profile_id id (rows_in file) distinct)
                ∙ version_entry-if_none (profile_id == id) (find_row profile_key id (rows_in file)))
              i)
      ]

  pub rows_in-Distinct :
      (file : ProfileFile) → FileIsSound file → Distinct (map profile_key (rows_in file))
  rows_in-Distinct missing s = tt
  rows_in-Distinct unreadable s = tt
  rows_in-Distinct foreign s = tt
  rows_in-Distinct damaged s = tt
  rows_in-Distinct (stored rows) s = s.distinct

  pub view-perform :
      (r : Request) (file : ProfileFile)
      → IsReadable file
      → FileIsSound file
      → IsFresh r file
      → view (perform u rule_ids r file).1 ≡ perform_on r (view file)
  unfolding perform
  view-perform (creation fresh now draft updated_by) file good s f =
      creation_view fresh now draft updated_by file good f
  view-perform (change now profile_id expected draft updated_by) file good s f =
      change_view now profile_id expected draft updated_by file good
  view-perform (removal profile_id expected) file good s f =
      removal_view profile_id expected file good (rows_in-Distinct file s)

  save_profiles-IsReadable :
      (file : ProfileFile) (r : Result ProfileError (Profile × List Profile))
      → IsReadable file
      → IsReadable (save_profiles file r).1
  unfolding save_profiles
  save_profiles-IsReadable file (err e) good = good
  save_profiles-IsReadable file (ok (profile, rows)) good = tt

  pub perform-IsReadable :
      (r : Request) (file : ProfileFile)
      → IsReadable file
      → IsReadable (perform u rule_ids r file).1
  unfolding perform create_profile update_profile delete_profile
  perform-IsReadable (creation fresh now draft updated_by) file good =
      save_profiles-IsReadable file _ good
  perform-IsReadable (change now profile_id expected draft updated_by) file good =
      save_profiles-IsReadable file _ good
  perform-IsReadable (removal profile_id expected) file good = save_profiles-IsReadable file _ good

  -- Over any requests with fresh identifiers, on a sound file that can be read, the methods do to the file what the
  -- same requests do to a map from ids to versions and payloads: a creation assigns version 1, an update assigns the
  -- next version and a removal clears the id, both only where the id stands at the expected version, and a request
  -- whose payload is refused changes nothing.
  pub perform_all_refines :
      (rs : List Request) (file : ProfileFile)
      → IsReadable file
      → FileIsSound file
      → AreFresh u rule_ids rs file
      → view (perform_all u rule_ids rs file) ≡ perform_all_on rs (view file)
  unfolding perform_all
  perform_all_refines [] file good s f = refl
  perform_all_refines (r ∷ rs) file good s f =
      perform_all_refines rs (perform u rule_ids r file).1 (perform-IsReadable r file good)
        (perform-FileIsSound u rule_ids r file f.0 s) f.1
      ∙ ap (perform_all_on rs) (view-perform r file good s f.0)
