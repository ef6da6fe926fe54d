-- ===== src/Rbac/Policies.antt =====
-- Policies that are read without an error are well formed.
use breach_scope.Prelude.{
  String, ◌≡◌, refl, sym, ap, subst, ◌∙◌, ◌⊎◌, inl, inr, true, not, ◌||◌, none, List, [], ◌∷◌, ◌++◌,
  ◌==◌, eq_iff, All, All-append, In, Distinct, Bool-cases, member, member_iff, if◌then◌else◌,
}
use breach_scope.Prelude.Text.{strip}
use breach_scope.Prelude.Json.{
  Value, null, boolean, zero, number, string, object, array, Fields, end, field, list_of,
  str_or_empty,
}
use breach_scope.Prelude.Dict.{keys}
use breach_scope.Prelude.Result.{Result, ok, err, >>=-eq-ok, guard_then-eq-ok, ok-injective}
use breach_scope.OrganizationScope.{ScopeError, matches_organization, normalize_organization_id}
use breach_scope.OrganizationScope.Normal.{normal}
use breach_scope.Scim.Records.{known_roles}
use breach_scope.Rbac.{
  known_permissions, RbacError, unknown_role, duplicate_role, unknown_permission, bad_organization,
  duplicate_organization, Parsed, unparsed, repeated, parsed, RoleMap, Policies, Host, or_no_scope,
  permissions_from, permissions_of, roles_from, roles_of, policies_from, policies_of,
  configured_organization_rbac_policies,
}

abbrev pub IsPermission : String → Type 0
IsPermission p = (p ≡ "*") ⊎ In p known_permissions

-- The permissions of a known role.
abbrev pub IsRoleEntry : String × List String → Type 0
IsRoleEntry entry = In entry.0 known_roles × All IsPermission entry.1

abbrev pub IsRoleMap : RoleMap → Type 0
IsRoleMap roles = Distinct (keys roles) × All IsRoleEntry roles

abbrev pub IsPolicy : String × RoleMap → Type 0
IsPolicy entry = (matches_organization entry.0 ≡ true) × IsRoleMap entry.1

abbrev pub ArePolicies : Policies → Type 0
ArePolicies policies = Distinct (keys policies) × All IsPolicy policies

keys-snoc :
    {V : Type 0} (key : String) (v : V) (d : List (String × V))
    → (¬ In key (keys d))
    → Distinct (keys d)
    → Distinct (keys (d ++ (key, v) ∷ []))
keys-snoc key v [] new h = (new, tt)
keys-snoc {V} key v ((k, w) ∷ rest) new h = (
  (λ m. elim (split rest m) [ inl old ↦ h.0 old | inr e ↦ new (inl (sym e)) ]),
  keys-snoc key v rest (λ m. new (inr m)) h.1,
)
  where
    split : (d : List (String × V)) → In k (keys (d ++ (key, v) ∷ [])) → In k (keys d) ⊎ (k ≡ key)
    split [] m = elim m [ inl e ↦ inr e | inr n ↦ elim n [ ] ]
    split ((x, y) ∷ d) m = elim m [
      | inl e ↦ inl (inl e)
      | inr n ↦ elim (split d n) [ inl l ↦ inl (inr l) | inr e ↦ inr e ]
    ]

not-member : (s : String) (xs : List String) → not (member s xs) ≡ true → ¬ In s xs
not-member s xs h m = cc (h, (member_iff s xs).1 m)

is_permission : (p : String) → p == "*" || member p known_permissions ≡ true → IsPermission p
is_permission p h = elim (Bool-cases (p == "*")) [
  | inl star ↦ inl ((eq_iff p "*").0 star)
  | inr other ↦ inr ((member_iff p known_permissions).0 (rw other at h))
]

module _ (host : Host) where
  permissions_from-All :
      (seen : List String) (raws : List Value) {permissions : List String}
      → permissions_from host seen raws ≡ ok permissions
      → All IsPermission seen
      → All IsPermission permissions
  unfolding permissions_from
  permissions_from-All seen [] h s = subst (All IsPermission) (ok-injective {E = RbacError} h) s
  permissions_from-All seen (raw ∷ raws) h s =
      let p = strip (str_or_empty host.repr raw) in
      let (known, h1) =
        guard_then-eq-ok (p == "*" || member p known_permissions) unknown_permission _ h in
      permissions_from-All (if member p seen then seen else seen ++ p ∷ []) raws h1
        (elim (Bool-cases (member p seen)) [
          | inl old ↦ rw old s
          | inr new ↦ rw new (All-append IsPermission seen (p ∷ []) s (is_permission p known, tt))
        ])

  permissions_of-All :
      (v : Value) {permissions : List String}
      → permissions_of host v ≡ ok permissions
      → All IsPermission permissions
  unfolding permissions_of
  permissions_of-All (array raws) h = permissions_from-All [] (list_of raws) h tt
  permissions_of-All null h = cc
  permissions_of-All (boolean b) h = cc
  permissions_of-All (zero s) h = cc
  permissions_of-All (number s) h = cc
  permissions_of-All (string s) h = cc
  permissions_of-All (object fs) h = cc

  roles_from-IsRoleMap :
      (role_map : RoleMap) (fields : Fields) {roles : RoleMap}
      → roles_from host role_map fields ≡ ok roles
      → IsRoleMap role_map
      → IsRoleMap roles
  unfolding roles_from
  roles_from-IsRoleMap role_map end h s = subst IsRoleMap (ok-injective {E = RbacError} h) s
  roles_from-IsRoleMap role_map (field raw_role raw_permissions rest) h (d, a) =
      let role = host.unicode.lower (strip raw_role) in
      let (known, h1) = guard_then-eq-ok (member role known_roles) unknown_role _ h in
      let (new, h2) = guard_then-eq-ok (not (member role (keys role_map))) duplicate_role _ h1 in
      let (permissions, e, h3) = >>=-eq-ok (permissions_of host raw_permissions) _ h2 in
      roles_from-IsRoleMap (role_map ++ (role, permissions) ∷ []) rest h3 (
        keys-snoc role permissions role_map (not-member role (keys role_map) new) d,
        All-append IsRoleEntry role_map ((role, permissions) ∷ []) a
            (((member_iff role known_roles).0 known, permissions_of-All raw_permissions e), tt),
      )

  roles_of-IsRoleMap : (v : Value) {roles : RoleMap} → roles_of host v ≡ ok roles → IsRoleMap roles
  unfolding roles_of
  roles_of-IsRoleMap (object fs) h = roles_from-IsRoleMap [] fs h (tt, tt)
  roles_of-IsRoleMap null h = cc
  roles_of-IsRoleMap (boolean b) h = cc
  roles_of-IsRoleMap (zero s) h = cc
  roles_of-IsRoleMap (number s) h = cc
  roles_of-IsRoleMap (string s) h = cc
  roles_of-IsRoleMap (array vs) h = cc

  organization-matches :
      (raw_org : String) {organization : String}
      → or_no_scope bad_organization (normalize_organization_id host.unicode raw_org none)
        ≡ ok organization
      → matches_organization organization ≡ true
  unfolding or_no_scope
  organization-matches raw_org {organization} h =
      go (normalize_organization_id host.unicode raw_org none) refl h
    where
      go :
          (r : Result ScopeError String)
          → normalize_organization_id host.unicode raw_org none ≡ r
          → or_no_scope bad_organization r ≡ ok organization
          → matches_organization organization ≡ true
      go (ok s) e k =
          (normal host.unicode raw_org none
            (e ∙ ap {B = Result ScopeError String} ok (ok-injective {E = RbacError} k))).0
      go (err x) e k = cc

  policies_from-ArePolicies :
      (policies : Policies) (fields : Fields) {all : Policies}
      → policies_from host policies fields ≡ ok all
      → ArePolicies policies
      → ArePolicies all
  unfolding policies_from
  policies_from-ArePolicies policies end h s = subst ArePolicies (ok-injective {E = RbacError} h) s
  policies_from-ArePolicies policies (field raw_org raw_roles rest) h (d, a) =
      let (organization, e, h1) =
        >>=-eq-ok
          (or_no_scope bad_organization (normalize_organization_id host.unicode raw_org none)) _
          h in
      let (new, h2) =
        guard_then-eq-ok (not (member organization (keys policies))) duplicate_organization _ h1 in
      let (role_map, f, h3) = >>=-eq-ok (roles_of host raw_roles) _ h2 in
      policies_from-ArePolicies (policies ++ (organization, role_map) ∷ []) rest h3 (
        keys-snoc organization role_map policies (not-member organization (keys policies) new) d,
        All-append IsPolicy policies ((organization, role_map) ∷ []) a
            ((organization-matches raw_org e, roles_of-IsRoleMap raw_roles f), tt),
      )

  policies_of-ArePolicies :
      (p : Parsed) {all : Policies} → policies_of host p ≡ ok all → ArePolicies all
  unfolding policies_of
  policies_of-ArePolicies unparsed h = cc
  policies_of-ArePolicies repeated h = cc
  policies_of-ArePolicies (parsed (object fs)) h = policies_from-ArePolicies [] fs h (tt, tt)
  policies_of-ArePolicies (parsed null) h = cc
  policies_of-ArePolicies (parsed (boolean b)) h = cc
  policies_of-ArePolicies (parsed (zero s)) h = cc
  policies_of-ArePolicies (parsed (number s)) h = cc
  policies_of-ArePolicies (parsed (string s)) h = cc
  policies_of-ArePolicies (parsed (array vs)) h = cc

  -- Whatever the setting: if it is read without an error, no organization stands in it twice, nor a role
  -- in an organization, the organizations are well formed, the roles are known, and each permission is
  -- known or `*`.
  pub configured_policies-ArePolicies :
      (setting : String) (policies : Policies)
      → configured_organization_rbac_policies host setting ≡ ok policies
      → ArePolicies policies
  unfolding configured_organization_rbac_policies
  configured_policies-ArePolicies setting policies h = elim (Bool-cases (strip setting == "")) [
    | inl empty ↦ subst ArePolicies (ok-injective {E = RbacError} (rw empty at h)) (tt, tt)
    | inr full ↦ policies_of-ArePolicies (host.parse (strip setting)) (rw full at h)
  ]
