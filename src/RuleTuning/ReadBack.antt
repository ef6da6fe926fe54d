-- ===== src/RuleTuning/ReadBack.antt =====
-- What a change leaves in the file for the methods that read it.
use breach_scope.Prelude.{
  ℕ, ◌+◌, String, ◌≡◌, ◌≢◌, refl, sym, ap, ◌∙◌, inl, inr, true, Option, none, some, some-eq-some,
  List, ◌==◌, arith, eq_iff, eqb, eqb_iff, Bool-cases, if◌then◌else◌,
}
use breach_scope.Prelude.Text.{Unicode}
use breach_scope.Prelude.Rows.{find_row, find_row-eq-some, replace_row, find_row-replace_row}
use breach_scope.Prelude.Result.{Result, ok, err, guard, ◌>>=◌, ◌>>◌}
use breach_scope.RuleTuning.{
  ProfileError, version_conflict, no_profile, Payload, Profile, PublicProfile, ProfileFile, stored,
  Draft, profile_key, public_profile, row_of, get_profile, normalized_payload, updated_profile,
  save_profiles, update_profile_rows, update_profile,
}
use breach_scope.RuleTuning.Keeping.{change, rows_in, perform}
use breach_scope.RuleTuning.Store.{version_entry, view, IsReadable, readable}

-- What a read of the profile gives, by the row that is found.
abbrev shown : Option Profile → Result ProfileError PublicProfile
shown none = err no_profile
shown (some row) = ok (public_profile true row)

module _ (u : Unicode) (rule_ids : List String) where
  get_profile-rows :
      (id : String) (file : ProfileFile)
      → IsReadable file
      → get_profile id file ≡ shown (find_row profile_key id (rows_in file))
  unfolding get_profile row_of
  get_profile-rows id file good =
      ap
        (λ (r : Result ProfileError (List Profile)).
          r >>= λ rows. row_of id rows >>= λ row. ok (public_profile true row))
        (readable u rule_ids file good)
      ∙ by_row (find_row profile_key id (rows_in file))
    where
      by_row :
          (o : Option Profile)
          → ((elim o as (λ x. Result ProfileError Profile) [
            | none ↦ err no_profile
            | some row ↦ ok row
          ])
              >>= λ row. ok (public_profile true row))
            ≡ shown o
      by_row none = refl
      by_row (some row) = refl

  -- The whole outcome of a change under the version of the row that is there.
  update_profile-row :
      (now profile_id : String) (version : ℕ) (draft : Draft) (updated_by : String)
      (file : ProfileFile) {payload : Payload} (row : Profile)
      → IsReadable file
      → find_row profile_key profile_id (rows_in file) ≡ some row
      → row.version ≡ version
      → normalized_payload u rule_ids draft ≡ ok payload
      → update_profile u rule_ids now profile_id version draft updated_by file ≡ (
        ok (public_profile true (updated_profile now updated_by payload row)),
        stored (
            replace_row profile_key profile_id
              (updated_profile now updated_by payload row)
              (rows_in file)),
      )
  unfolding update_profile update_profile_rows save_profiles row_of
  update_profile-row now profile_id version draft updated_by file {payload} row good there same
        normal =
      rw (normal, readable u rule_ids file good)
        (ap
            (λ (o : Option Profile). save_profiles file (
              (elim o as (λ x. Result ProfileError Profile) [
                | none ↦ err no_profile
                | some found ↦ ok found
              ])
              >>= λ found.
                  guard (eqb found.version version) version_conflict
                  >> ok (
                    updated_profile now updated_by payload found,
                    replace_row profile_key profile_id
                        (updated_profile now updated_by payload found) (rows_in file),
                  )))
            there
          ∙ rw ((eqb_iff row.version version).1 same) refl)

  -- A valid change of a profile under the version that it has gets through. The reply shows the next version and
  -- what was asked for; a read of the profile after it gives that very reply, so the change is in the file; and a
  -- read of any other profile gives what it gave before.
  pub current_change :
      (now profile_id : String) (version : ℕ) (draft : Draft) (updated_by : String)
      (file : ProfileFile) {payload old : Payload}
      → IsReadable file
      → view file profile_id ≡ some (version, old)
      → normalized_payload u rule_ids draft ≡ ok payload
      → (reply : PublicProfile) × ((perform u rule_ids
            (change now profile_id version draft updated_by)
            file).0
          ≡ ok reply)
        × (reply.profile_id ≡ profile_id)
        × (reply.version ≡ version + 1)
        × (reply.payload ≡ payload)
        × (get_profile profile_id
              (perform u rule_ids (change now profile_id version draft updated_by) file).1
            ≡ ok reply)
        × ((other : String)
            → profile_id ≢ other
            → get_profile other
                (perform u rule_ids (change now profile_id version draft updated_by) file).1
              ≡ get_profile other file)
  unfolding perform public_profile updated_profile
  current_change now profile_id version draft updated_by file {payload} {old} good there normal =
      found (find_row profile_key profile_id (rows_in file)) refl there
    where
      found :
          (o : Option Profile)
          → find_row profile_key profile_id (rows_in file) ≡ o
          → version_entry o ≡ some (version, old)
          → (reply : PublicProfile) × ((update_profile u rule_ids now profile_id version draft
                updated_by file).0
              ≡ ok reply)
            × (reply.profile_id ≡ profile_id)
            × (reply.version ≡ version + 1)
            × (reply.payload ≡ payload)
            × (get_profile profile_id
                  (update_profile u rule_ids now profile_id version draft updated_by file).1
                ≡ ok reply)
            × ((other : String)
                → profile_id ≢ other
                → get_profile other
                    (update_profile u rule_ids now profile_id version draft updated_by file).1
                  ≡ get_profile other file)
      found none e k = cc k
      found (some row) e k =
          let v : row.version ≡ version = ap (λ (p : ℕ × Payload). p.0) (some-eq-some k) in
          let named = (find_row-eq-some profile_key profile_id (rows_in file) e).1 in
          let updated = updated_profile now updated_by payload row in
          let rows = replace_row profile_key profile_id updated (rows_in file) in
          let outcome =
            update_profile-row now profile_id version draft updated_by file row good e v normal in
          rw outcome (
            public_profile true updated,
            refl,
            named,
            omega (arith, v),
            refl,
            get_profile-rows profile_id (stored rows) tt
                ∙ ap shown (
                    find_row-replace_row profile_key profile_id profile_id updated (rows_in file)
                      named e
                    ∙ hit updated),
            λ other apart.
                get_profile-rows other (stored rows) tt
                ∙ ap shown (
                    find_row-replace_row profile_key profile_id other updated (rows_in file) named e
                    ∙ miss other updated apart)
                ∙ sym (get_profile-rows other file good),
          )
        where
          hit :
              (updated : Profile)
              → (if profile_id == profile_id
                  then some updated
                  else find_row profile_key profile_id (rows_in file))
                ≡ some updated
          hit updated = rw ((eq_iff profile_id profile_id).1 refl) refl

          miss :
              (other : String) (updated : Profile)
              → profile_id ≢ other
              → (if profile_id == other
                  then some updated
                  else find_row profile_key other (rows_in file))
                ≡ find_row profile_key other (rows_in file)
          miss other updated apart = elim (Bool-cases (profile_id == other)) [
            | inl same ↦ absurd (apart ((eq_iff profile_id other).0 same))
            | inr differ ↦ rw differ refl
          ]
