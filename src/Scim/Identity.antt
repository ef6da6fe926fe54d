-- ===== src/Scim/Identity.antt =====
-- The role and organization that a user has by their own row and through groups: `_resolved_identity`,
-- `_normalized_assignment`, `oidc_identity`, `find_by_oidc_subject`, `active_roles` and `stats` of
-- api/services/scim_directory.py.
mod Passes
pub mod Effective
mod Assignments
pub mod Sole
pub mod Sound
mod Examples
use breach_scope.Prelude.{
  ℕ, zero, suc, String, Bool, true, false, not, ◌&&◌, ◌||◌, Option, none, some, List, [], ◌∷◌, ◌++◌,
  ◌==◌, keep, map, length, member, if◌then◌else◌,
}
use breach_scope.Prelude.Text.{strip}
use breach_scope.Prelude.Dict.{find, put, keys}
use breach_scope.Prelude.Result.{Result, ok, err, ◌>>=◌}
use breach_scope.Prelude.Rows.{find_row}
use breach_scope.OrganizationScope.{ScopeError, normalize_organization_id}
use breach_scope.Scim.Records.{User, Group, Directory, Runtime, known_roles}
use breach_scope.Scim.Graph.{GraphError, visit_all}

-- What stops the resolution: a key that the dictionary does not have, or, for the model only, fuel.
pub data IdentityError : Type 0 where
  missing_key exhausted : IdentityError

abbrev pub Assignment : Type 0
Assignment = String × String

-- The groups by their id, a later one in place of an earlier one.
abbrev pub Table : Type 0
Table = List (String × Group)

unfoldable pub table_from : List Group → Table → Table
table_from [] table = table
table_from (group ∷ groups) table =
    table_from groups (if group.id == "" then table else put group.id group table)

unfoldable pub table_of : List Group → Table
unfolding table_from
table_of groups = table_from groups []

unfoldable pub member_ids_in : Table → String → List String
member_ids_in table id = elim (find id table) [ none ↦ [] | some group ↦ group.member_ids ]

-- all(visit(group_id) for group_id in group_ids)
unfoldable pub is_acyclic : Table → Bool
unfolding visit_all member_ids_in
is_acyclic table = elim (visit_all (keys table) (member_ids_in table) (keys table)) [
  | ok visited ↦ true
  | err e ↦ false
]

-- The user is a member of the group, under an id that is no group's.
unfoldable pub has_user : (user_id : String) → (ids : List String) → Group → Bool
has_user user_id ids group =
    member user_id (keep (λ value. not (member value ids)) group.member_ids)

unfoldable pub direct_groups : (user_id : String) → (ids : List String) → Table → List String
unfolding has_user
direct_groups user_id ids [] = []
direct_groups user_id ids ((id, group) ∷ table) =
    let later = direct_groups user_id ids table in
    if has_user user_id ids group then id ∷ later else later

-- nested_ids.intersection(effective_groups), or not
unfoldable pub meets : List String → List String → Bool
meets [] effective = false
meets (id ∷ ids) effective = member id effective || meets ids effective

-- The loop over the groups, with `effective_groups` and `changed`.
unfoldable pub grow :
    (ids : List String) → Table → (effective : List String) → (changed : Bool) → List String × Bool
unfolding meets
grow ids [] effective changed = (effective, changed)
grow ids ((id, group) ∷ table) effective changed =
    if member id effective
    then grow ids table effective changed
    else if meets (keep (λ value. member value ids) group.member_ids) effective
    then grow ids table (effective ++ id ∷ []) true
    else grow ids table effective changed

-- while changed
unfoldable pub close_groups :
    ℕ → Table → (effective : List String) → Result IdentityError (List String)
unfolding grow
close_groups zero table effective = err exhausted
close_groups (suc fuel) table effective =
    let (effective', changed) = grow (keys table) table effective false in
    let rest = close_groups fuel table effective' in if changed then rest else ok effective'

-- One round more than there are groups is enough: each round but the last adds a group.
unfoldable pub effective_groups : (user_id : String) → Table → Result IdentityError (List String)
unfolding close_groups direct_groups
effective_groups user_id table =
    close_groups (suc (length (keys table))) table (direct_groups user_id (keys table) table)

abbrev pub same_assignment : Assignment → Assignment → Bool
same_assignment a b = a.0 == b.0 && a.1 == b.1

-- assignments.add(assignment)
unfoldable pub add_assignment : Assignment → List Assignment → List Assignment
add_assignment a [] = a ∷ []
add_assignment a (b ∷ rest) =
    let later = add_assignment a rest in if same_assignment b a then b ∷ rest else b ∷ later

unfoldable pub add_if : Option Assignment → List Assignment → List Assignment
unfolding add_assignment
add_if none assignments = assignments
add_if (some a) assignments = add_assignment a assignments

unfoldable pub sole : List Assignment → Option Assignment
sole [] = none
sole (a ∷ []) = some a
sole (a ∷ b ∷ rest) = none

module _ (rt : Runtime) where
  unfoldable pub normalized_organization : String → Result ScopeError String → Option Assignment
  normalized_organization role (err e) = none
  normalized_organization role (ok organization) = some (role, organization)

  unfoldable pub normalized_assignment : (role organization_id : String) → Option Assignment
  unfolding strip normalized_organization
  normalized_assignment role organization_id =
      let normalized_role = rt.unicode.casefold (strip role) in
      let organization = strip organization_id in
      if normalized_role == "" && organization == ""
      then none
      else if not (member normalized_role known_roles) || organization == ""
      then none
      else normalized_organization normalized_role
          (normalize_organization_id rt.unicode organization none)

  unfoldable pub group_assignments :
      Table → (ids : List String) → List Assignment → Result IdentityError (List Assignment)
  unfolding normalized_assignment add_if
  group_assignments table [] assignments = ok assignments
  group_assignments table (id ∷ ids) assignments = elim (find id table) [
    | none ↦ err missing_key
    | some group ↦
        group_assignments table ids
          (add_if (normalized_assignment group.role group.organization_id) assignments)
  ]

  unfoldable pub resolved_identity : User → List Group → Result IdentityError (Option Assignment)
  unfolding table_of is_acyclic effective_groups group_assignments normalized_assignment add_if sole
  resolved_identity user groups =
      let table = table_of groups in
      if not user.active
      then ok none
      else if not (is_acyclic table)
      then ok none
      else effective_groups user.id table >>= λ effective.
          group_assignments table effective
            (add_if (normalized_assignment user.role user.organization_id) [])
          >>= λ assignments. ok (sole assignments)

  unfoldable pub find_by_oidc_subject : (subject : String) → List User → Option User
  unfolding find_row
  find_by_oidc_subject subject users =
      if subject == "" then none else find_row (λ (row : User). row.external_id) subject users

  unfoldable pub oidc_identity :
      (subject : String) → Directory → Result IdentityError (Option Assignment)
  unfolding find_by_oidc_subject resolved_identity
  oidc_identity subject d = elim (find_by_oidc_subject subject d.users) [
    | none ↦ ok none
    | some row ↦ resolved_identity row d.groups
  ]
