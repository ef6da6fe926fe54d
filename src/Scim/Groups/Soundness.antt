-- ===== src/Scim/Groups/Soundness.antt =====
-- The invariant of the directory, and that every operation keeps it.
use breach_scope.Prelude.{
  String, ◌≡◌, refl, sym, ap, subst, ◌∙◌, ◌⊎◌, inl, inr, true, false, not, ◌&&◌, ◌||◌, Option, none,
  some, List, eq_iff, arith, map, All, Distinct, Bool-cases, member, member_iff,
}
use breach_scope.Prelude.Text.{or_else}
use breach_scope.Prelude.Json.{Value, get, as_object, Fields}
use breach_scope.Prelude.Result.{Result, ok, err, >>=-eq-ok, guard_then-eq-ok, ok-injective}
use breach_scope.OrganizationScope.{ScopeError, matches_organization, normalize_organization_id}
use breach_scope.OrganizationScope.Normal.{normal}
use breach_scope.Scim.Records.{
  User, Group, Directory, Runtime, ScimError, known_roles, invalid, user_ids, group_ids,
  group_schema,
}
use breach_scope.Scim.Graph.Verdict.{Verdict}
use breach_scope.Scim.Payload.{
  mapping, is_truthy, or_invalid, assigned_organization, check_assignment, extract_assignment,
  group_from_payload, clean_string, member_ids_from_value, text_of, folded_text_of,
}
use breach_scope.Scim.Users.Soundness.{IsAssigned, UsersAreSound}
use breach_scope.Scim.Groups.{node, name_key}
use breach_scope.Scim.Groups.Shrinking.{HasIds}

module _ (rt : Runtime) where
  -- Users are sound, no two groups share an id or a name, ids are not empty, the members of each group are users or
  -- groups and not both, no group lies within itself, and assignments are whole.
  pub record IsSound (d : Directory) : Type 0 where
    pub has : HasIds d.groups
    pub names : Distinct (map (name_key rt) d.groups)
    pub graph : Verdict (user_ids d.users) (map node d.groups) (ok tt)
    pub people : UsersAreSound rt d.users
    pub assigned : All (λ (g : Group). IsAssigned g.role g.organization_id) d.groups

  assigned_organization-eq-ok :
      (organization_id : String) {o : String}
      → assigned_organization rt organization_id ≡ ok o
      → (organization_id ≡ "") × (o ≡ "")
        ⊎ (is_truthy organization_id ≡ true) × (matches_organization o ≡ true)
  unfolding assigned_organization
  assigned_organization-eq-ok organization_id {o} h =
      elim (Bool-cases (is_truthy organization_id)) [
        | inl some' ↦ inr (
          some',
          valid (normalize_organization_id rt.unicode organization_id none) refl (rw some' at h),
        )
        | inr none' ↦
            let e = empty none' in inl (e, sym (ok-injective {E = ScimError} (rw none' at h)) ∙ e)
      ]
    where
      empty : is_truthy organization_id ≡ false → organization_id ≡ ""
      empty f = ground (arith, f, eq_iff organization_id "")

      valid :
          (r : Result ScopeError String)
          → normalize_organization_id rt.unicode organization_id none ≡ r
          → or_invalid r ≡ ok o
          → matches_organization o ≡ true
      valid (ok s) e k =
          (normal rt.unicode organization_id none
            (e ∙ ap {B = Result ScopeError String} ok (ok-injective k))).0
      valid (err x) e k = cc

  pub check_assignment-eq-ok :
      (role organization_id : String) (pair : String × String)
      → check_assignment rt role organization_id ≡ ok pair
      → IsAssigned pair.0 pair.1
  unfolding check_assignment is_truthy
  check_assignment-eq-ok role organization_id pair h =
      let (known, e1) =
        guard_then-eq-ok (not (is_truthy role && not (member role known_roles))) invalid _ h in
      let (both, e2) =
        guard_then-eq-ok
          (not (is_truthy role) && not (is_truthy organization_id)
            || is_truthy role && is_truthy organization_id)
          invalid _ e1 in
      let (o, found, e3) = >>=-eq-ok (assigned_organization rt organization_id) _ e2 in
      let same : ◌≡◌ {A = String × String} (role, o) pair = ok-injective e3 in
      subst (λ (p : String × String). IsAssigned p.0 p.1) same
        (elim (assigned_organization-eq-ok organization_id found) [
          | inl (empty, e) ↦
              inl (ground (arith, empty, both, eq_iff role "", eq_iff organization_id ""), e)
          | inr (full, good) ↦
              inr ((member_iff role known_roles).0 (ground (arith, full, both, known)), good)
        ])

  extract_assignment-eq-ok :
      (payload : Fields) (pair : String × String)
      → extract_assignment rt payload ≡ ok pair
      → IsAssigned pair.0 pair.1
  unfolding extract_assignment
  extract_assignment-eq-ok payload pair h = go (as_object (get group_schema payload)) h
    where
      go :
          (o : Option Fields)
          → ◌≡◌ {A = Result ScimError (String × String)}
              (elim o [
                | none ↦ ok ("", "")
                | some extension ↦
                    check_assignment rt
                      (folded_text_of rt (get "role" extension))
                      (text_of rt (get "organizationId" extension))
              ])
              (ok pair)
          → IsAssigned pair.0 pair.1
      go none k =
          subst (λ (p : String × String). IsAssigned p.0 p.1) (ok-injective k) (inl (refl, refl))
      go (some extension) k =
          check_assignment-eq-ok (folded_text_of rt (get "role" extension))
            (text_of rt (get "organizationId" extension)) pair k

  pub group_from_payload-row :
      (fresh now : String) (body : Value) (users : List User) (groups : List Group)
      (existing : Option Group) {row : Group}
      → group_from_payload rt fresh now body users groups existing ≡ ok row
      → ((elim existing [ none ↦ fresh | some old ↦ or_else old.id fresh ]) ≡ row.id)
        × IsAssigned row.role row.organization_id
  unfolding group_from_payload
  group_from_payload-row fresh now body users groups existing {row} h =
      let (payload, _, e0) = >>=-eq-ok (mapping body) _ h in
      let (name, _, e1) = >>=-eq-ok (clean_string rt (get "displayName" payload) true 256) _ e0 in
      let (ids, _, e2) =
        >>=-eq-ok
          (member_ids_from_value rt (user_ids users) (group_ids groups) (get "members" payload)) _
          e1 in
      let (pair, found, e3) = >>=-eq-ok (extract_assignment rt payload) _ e2 in
      let made = ok-injective e3 in
      (
        ap (λ (g : Group). g.id) made,
        subst (λ (g : Group). IsAssigned g.role g.organization_id) made
            (extract_assignment-eq-ok payload pair found),
      )
