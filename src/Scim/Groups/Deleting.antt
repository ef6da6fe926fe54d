-- ===== src/Scim/Groups/Deleting.antt =====
-- Deletion of a group or of a user keeps the directory sound.
use breach_scope.Prelude.{
  String, ◌≡◌, ◌≢◌, refl, sym, subst, inl, inr, not, Option, none, some, List, [], ◌∷◌, ◌==◌, keep,
  map, All, All-In, All-intro, Distinct, Bool-cases,
}
use breach_scope.Prelude.Result.{Result, ok, err}
use breach_scope.Scim.Records.{User, Group, Directory, Runtime, ScimError, not_found, user_ids}
use breach_scope.Scim.Groups.{
  name_key, find_group, remove_first, without_member, same_ids, remove_group, delete_group,
  remove_user_references, delete_user,
}
use breach_scope.Scim.Groups.Rows.{
  In-remove_first, In-remove_first_of, remove_first-Distinct, In-user_ids_fewer, In-user_ids_stay,
}
use breach_scope.Scim.Groups.Shrinking.{HasIds, HasIds-changed, shrinking}
use breach_scope.Prelude.Rows.{find_row, remove_row}
use breach_scope.Scim.Users.{id_of}
use breach_scope.Scim.Users.Soundness.{IsAssigned, remove_row-UsersAreSound}
use breach_scope.Scim.Groups.Soundness.{IsSound}

abbrev LeavesSound : Runtime → {A : Type 0} → Result ScimError A × Directory → Type 0
LeavesSound rt outcome = IsSound rt outcome.1

module _ (rt : Runtime) where
  without_member-kept :
      {A : Type 0} (f : Group → A) (now id : String)
      → ((g : Group) → f (without_member now id g) ≡ f g)
      → (rows : List Group) → map f (map (without_member now id) rows) ≡ map f rows
  without_member-kept f now id h [] = refl
  without_member-kept f now id h (g ∷ rows) = cc (h g, without_member-kept f now id h rows)

  without_member-name :
      (now id : String) (g : Group) → name_key rt (without_member now id g) ≡ name_key rt g
  unfolding without_member
  without_member-name now id g =
      elim (Bool-cases (same_ids (keep (λ value. not (value == id)) g.member_ids) g.member_ids)) [
        | inl same ↦ rw same refl
        | inr other ↦ rw other refl
      ]

  without_member-IsAssigned :
      (now id : String) (g : Group)
      → IsAssigned g.role g.organization_id
      → IsAssigned (without_member now id g).role (without_member now id g).organization_id
  unfolding without_member
  without_member-IsAssigned now id g h =
      elim (Bool-cases (same_ids (keep (λ value. not (value == id)) g.member_ids) g.member_ids)) [
        | inl same ↦ rw same h
        | inr other ↦ rw other h
      ]

  without_member-All :
      (now id : String) (rows : List Group)
      → All (λ (g : Group). IsAssigned g.role g.organization_id) rows
      → All (λ (g : Group). IsAssigned g.role g.organization_id) (map (without_member now id) rows)
  without_member-All now id [] h = tt
  without_member-All now id (g ∷ rows) h =
      (without_member-IsAssigned now id g h.0, without_member-All now id rows h.1)

  remove_first-HasIds :
      (id : String) (rows : List Group) → HasIds rows → HasIds (remove_first id rows)
  remove_first-HasIds id rows h = record {
    distinct = remove_first-Distinct id (λ (g : Group). g.id) rows h.distinct;
    nonempty =
        All-intro _ _ (λ g m.
          All-In (λ (g : Group). g.id ≢ "") g rows h.nonempty (In-remove_first id g rows m));
  }

  pub delete_group-IsSound :
      (now id : String) (d : Directory) → IsSound rt d → IsSound rt (delete_group now id d).1
  unfolding delete_group remove_group
  delete_group-IsSound now id d s = go (find_group id d.groups)
    where
      rows : List Group
      rows = remove_first id d.groups

      left : HasIds rows
      left = remove_first-HasIds id d.groups s.has

      removed : IsSound rt (record d { groups = map (without_member now id) rows })
      removed = record {
        has =
            HasIds-changed (user_ids d.users) (user_ids d.users) d.groups rows now id s.has left
              (λ g m. In-remove_first id g d.groups m) (λ b m. m) (λ b other m. m)
              (λ b other m. In-remove_first_of id b d.groups other m);
        names =
            subst Distinct
              (sym (without_member-kept (name_key rt) now id (without_member-name now id) rows))
              (remove_first-Distinct id (name_key rt) d.groups s.names);
        graph =
            shrinking (user_ids d.users) (user_ids d.users) d.groups rows now id s.has left
              (λ g m. In-remove_first id g d.groups m) (λ b m. m) (λ b other m. m)
              (λ b other m. In-remove_first_of id b d.groups other m) s.graph;
        people = s.people;
        assigned = without_member-All now id rows (
            All-intro _ _ (λ g m.
              All-In (λ (g : Group). IsAssigned g.role g.organization_id) g d.groups s.assigned
                (In-remove_first id g d.groups m)));
      }

      go :
          (o : Option Group)
          → LeavesSound rt {A = Group}
              (elim o [ none ↦ (err not_found, d) | some g ↦ remove_group now id d g ])
      go none = s
      go (some g) = removed

  pub delete_user-IsSound :
      (now id : String) (d : Directory) → IsSound rt d → IsSound rt (delete_user now id d).1
  unfolding delete_user remove_user_references
  delete_user-IsSound now id d s = go (find_row id_of id d.users)
    where
      removed : IsSound rt (record {
        users = remove_row id_of id d.users;
        groups = map (without_member now id) d.groups;
      })
      removed = record {
        has =
            HasIds-changed (user_ids d.users) (user_ids (remove_row id_of id d.users)) d.groups
              d.groups now id s.has s.has (λ g m. m) (λ b m. In-user_ids_fewer id b d.users m)
              (λ b other m. In-user_ids_stay id b d.users other m) (λ b other m. m);
        names =
            subst Distinct
              (sym (without_member-kept (name_key rt) now id (without_member-name now id) d.groups))
              s.names;
        graph =
            shrinking (user_ids d.users) (user_ids (remove_row id_of id d.users)) d.groups d.groups
              now id s.has s.has (λ g m. m) (λ b m. In-user_ids_fewer id b d.users m)
              (λ b other m. In-user_ids_stay id b d.users other m) (λ b other m. m) s.graph;
        people = remove_row-UsersAreSound rt id d.users s.people;
        assigned = without_member-All now id d.groups s.assigned;
      }

      go :
          (o : Option User)
          → LeavesSound rt {A = User} (elim o [
            | none ↦ (err not_found, d)
            | some u ↦ (
              ok u,
              record {
                users = remove_row id_of id d.users;
                groups = remove_user_references now id d.groups;
              },
            )
          ])
      go none = s
      go (some u) = removed
