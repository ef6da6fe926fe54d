-- ===== src/RuleTuning/Concurrency.antt =====
-- Two callers that have read the same version of a profile.
use breach_scope.Prelude.{
  ℕ, ◌+◌, String, ◌≡◌, ◌≢◌, refl, sym, ap, subst, ◌∙◌, inl, inr, Option, none, some, some-eq-some,
  List, arith, eq_iff, eqb, Bool-cases,
}
use breach_scope.Prelude.Text.{Unicode}
use breach_scope.Prelude.Rows.{find_row, replace_row, remove_row}
use breach_scope.Prelude.Result.{Result, ok, err, guard, ◌>>=◌, ◌>>◌}
use breach_scope.RuleTuning.{
  ProfileError, version_conflict, no_profile, Payload, Profile, PublicProfile, ProfileFile, Draft,
  profile_key, read_profiles, row_of, normalized_payload, updated_profile, save_profiles,
  update_profile_rows, update_profile, delete_profile_rows, delete_profile,
}
use breach_scope.RuleTuning.Keeping.{
  Request, creation, change, removal, FileIsSound, rows_in, perform,
}
use breach_scope.RuleTuning.Store.{
  Versions, version_entry, view, assign_if, IsReadable, perform_on, after_payload, view-perform,
  perform-IsReadable, readable,
}

-- The request updates or removes the profile under the expected version.
abbrev pub Expects : String → ℕ → Request → Type 0
Expects id version (creation fresh now draft updated_by) = ⊥
Expects id version (change now profile_id expected draft updated_by) =
    (profile_id ≡ id) × (expected ≡ version)
Expects id version (removal profile_id expected) = (profile_id ≡ id) × (expected ≡ version)

-- The profile is not there under the version.
abbrev IsPast : String → ℕ → Versions → Type 0
IsPast id version versions = (payload : Payload) → versions id ≢ some (version, payload)

assign_if-IsPast :
    (expected : ℕ) (id : String) (entry old : Option (ℕ × Payload)) (versions : Versions)
    → versions id ≡ old
    → ((payload : Payload) → entry ≢ some (expected, payload))
    → IsPast id expected (assign_if expected id entry old versions)
assign_if-IsPast expected id entry none versions e new payload = λ k. cc (e, k)
assign_if-IsPast expected id entry (some (version, old)) versions e new payload =
    elim (Bool-cases (eqb version expected)) [
      | inl same ↦ rw (same, (eq_iff id id).1 refl) (new payload)
      | inr other ↦ rw other (λ k.
          let pair : ◌≡◌ {A = ℕ × Payload} (version, old) (expected, payload) =
            some-eq-some (sym e ∙ k) in
          let v = ap (λ (p : ℕ × Payload). p.0) pair in ground (arith, other, v))
    ]

module _ (u : Unicode) (rule_ids : List String) where
  -- A request that expects a past version fails and changes nothing.
  stale_update :
      (now profile_id : String) (expected : ℕ) (draft : Draft) (updated_by : String)
      (file : ProfileFile)
      → IsReadable file
      → IsPast profile_id expected (view file)
      → (e : ProfileError) × (update_profile u rule_ids now profile_id expected draft updated_by
            file
          ≡ (err e, file))
  unfolding update_profile update_profile_rows save_profiles row_of
  stale_update now profile_id expected draft updated_by file good past =
      go (normalized_payload u rule_ids draft)
    where
      place : Payload → List Profile → Profile → Result ProfileError (Profile × List Profile)
      place payload rows row =
          guard (eqb row.version expected) version_conflict
          >> ok (
            updated_profile now updated_by payload row,
            replace_row profile_key profile_id (updated_profile now updated_by payload row) rows,
          )

      refused :
          (payload : Payload) (o : Option Profile)
          → find_row profile_key profile_id (rows_in file) ≡ o
          → (e : ProfileError) × ◌≡◌ {A = Result ProfileError PublicProfile × ProfileFile}
              (save_profiles file (
                (elim o as (λ x. Result ProfileError Profile) [
                  | none ↦ err no_profile
                  | some row ↦ ok row
                ])
                >>= place payload (rows_in file)))
              (err e, file)
      refused payload none e = (no_profile, refl)
      refused payload (some row) e = elim (Bool-cases (eqb row.version expected)) [
        | inl same ↦
            let version : row.version ≡ expected = ground (arith, same) in
            absurd (
              past row.payload (ap version_entry e ∙ ap (λ (v : ℕ). some (v, row.payload)) version))
        | inr other ↦ rw other (version_conflict, refl)
      ]

      go :
          (n : Result ProfileError Payload)
          → (e : ProfileError) × ◌≡◌ {A = Result ProfileError PublicProfile × ProfileFile}
              (save_profiles file (
                n >>= λ payload.
                read_profiles file >>= λ rows. row_of profile_id rows >>= place payload rows))
              (err e, file)
      go (err e) = (e, refl)
      go (ok payload) =
          let (e, same) = refused payload (find_row profile_key profile_id (rows_in file)) refl in
          (
            e,
            ap
                  (λ (r : Result ProfileError (List Profile)).
                    save_profiles file
                      (r >>= λ rows. row_of profile_id rows >>= place payload rows))
                  (readable u rule_ids file good)
                ∙ same,
          )

  stale_removal :
      (profile_id : String) (expected : ℕ) (file : ProfileFile)
      → IsReadable file
      → IsPast profile_id expected (view file)
      → (e : ProfileError) × (delete_profile profile_id expected file ≡ (err e, file))
  unfolding delete_profile delete_profile_rows save_profiles row_of
  stale_removal profile_id expected file good past =
      let (e, same) = refused (find_row profile_key profile_id (rows_in file)) refl in
      (
        e,
        ap
              (λ (r : Result ProfileError (List Profile)).
                save_profiles file (r >>= λ rows. row_of profile_id rows >>= drop_from rows))
              (readable u rule_ids file good)
            ∙ same,
      )
    where
      drop_from : List Profile → Profile → Result ProfileError (Profile × List Profile)
      drop_from rows row =
          guard (eqb row.version expected) version_conflict
          >> ok (row, remove_row profile_key profile_id rows)

      refused :
          (o : Option Profile)
          → find_row profile_key profile_id (rows_in file) ≡ o
          → (e : ProfileError) × ◌≡◌ {A = Result ProfileError PublicProfile × ProfileFile}
              (save_profiles file (
                (elim o as (λ x. Result ProfileError Profile) [
                  | none ↦ err no_profile
                  | some row ↦ ok row
                ])
                >>= drop_from (rows_in file)))
              (err e, file)
      refused none e = (no_profile, refl)
      refused (some row) e = elim (Bool-cases (eqb row.version expected)) [
        | inl same ↦
            let version : row.version ≡ expected = ground (arith, same) in
            absurd (
              past row.payload (ap version_entry e ∙ ap (λ (v : ℕ). some (v, row.payload)) version))
        | inr other ↦ rw other (version_conflict, refl)
      ]

  stale_request :
      (r : Request) (id : String) (version : ℕ) (file : ProfileFile)
      → IsReadable file
      → Expects id version r
      → IsPast id version (view file)
      → (e : ProfileError) × (perform u rule_ids r file ≡ (err e, file))
  unfolding perform
  stale_request (creation fresh now draft updated_by) id version file good x past = elim x [ ]
  stale_request (change now profile_id expected draft updated_by) id version file good x past =
      stale_update now profile_id expected draft updated_by file good (λ payload k. past payload (
        subst (λ (i : String). view file i ≡ some (version, payload)) x.0
          (subst (λ (v : ℕ). view file profile_id ≡ some (v, payload)) x.1 k)))
  stale_request (removal profile_id expected) id version file good x past =
      stale_removal profile_id expected file good (λ payload k. past payload (
        subst (λ (i : String). view file i ≡ some (version, payload)) x.0
          (subst (λ (v : ℕ). view file profile_id ≡ some (v, payload)) x.1 k)))

  -- A request that got through leaves the profile under another version than the one it expected.
  accepted-IsPast :
      (r : Request) (id : String) (version : ℕ) (file : ProfileFile)
      → IsReadable file
      → FileIsSound file
      → Expects id version r
      → {reply : PublicProfile} → (perform u rule_ids r file).0 ≡ ok reply
      → IsPast id version (view (perform u rule_ids r file).1)
  unfolding perform update_profile update_profile_rows save_profiles
  accepted-IsPast (creation fresh now draft updated_by) id version file good s x h = elim x [ ]
  accepted-IsPast (change now profile_id expected draft updated_by) id version file good s x {reply}
        h =
      let r : Request = change now profile_id expected draft updated_by in
      subst (IsPast id version) (sym (view-perform u rule_ids r file good s tt)) (
        subst (λ (i : String). IsPast i version (perform_on u rule_ids r (view file))) x.0
          (subst (λ (v : ℕ). IsPast profile_id v (perform_on u rule_ids r (view file))) x.1
            (go (normalized_payload u rule_ids draft) h)))
    where
      go :
          (n : Result ProfileError Payload)
          → (save_profiles file (
              n >>= λ payload. read_profiles file >>= λ rows. row_of profile_id rows >>= λ row.
              guard (eqb row.version expected) version_conflict
              >> ok (
                updated_profile now updated_by payload row,
                replace_row profile_key profile_id
                    (updated_profile now updated_by payload row)
                    rows,
              ))).0
            ≡ ok reply
          → IsPast profile_id expected (
              after_payload u rule_ids n
                (λ payload.
                  assign_if expected profile_id
                    (some (expected + 1, payload))
                    (view file profile_id)
                    (view file))
                (view file))
      go (err e) k = cc k
      go (ok payload) k =
          assign_if-IsPast expected profile_id (some (expected + 1, payload)) (view file profile_id)
            (view file) refl
            (λ other same.
              let e = ap (λ (p : ℕ × Payload). p.0) (some-eq-some same) in omega (arith, e))
  accepted-IsPast (removal profile_id expected) id version file good s x h =
      let r : Request = removal profile_id expected in
      subst (IsPast id version) (sym (view-perform u rule_ids r file good s tt)) (
        subst (λ (i : String). IsPast i version (perform_on u rule_ids r (view file))) x.0
          (subst (λ (v : ℕ). IsPast profile_id v (perform_on u rule_ids r (view file))) x.1
            (assign_if-IsPast expected profile_id none (view file profile_id) (view file) refl
              (λ other same. cc (same)))))

  -- Of two requests that update or remove one profile under one version, on a sound file that can be read, at most
  -- one gets through: after the first, the other fails and leaves the file as it is.
  pub one_winner :
      (first second : Request) (id : String) (version : ℕ) (file : ProfileFile)
      → IsReadable file
      → FileIsSound file
      → Expects id version first
      → Expects id version second
      → {reply : PublicProfile} → (perform u rule_ids first file).0 ≡ ok reply
      → (e : ProfileError) × (perform u rule_ids second (perform u rule_ids first file).1
          ≡ (err e, (perform u rule_ids first file).1))
  one_winner first second id version file good s x y h =
      stale_request second id version (perform u rule_ids first file).1
        (perform-IsReadable u rule_ids first file good) y
        (accepted-IsPast first id version file good s x h)
