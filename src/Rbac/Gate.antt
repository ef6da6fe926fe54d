-- ===== src/Rbac/Gate.antt =====
-- What the policies of organizations do at the gate.
use breach_scope.Prelude.{
  String, ◌≡◌, ◌≢◌, refl, ap, inl, inr, Bool, false, not, ◌&&◌, Option, none, some, List, ◌∷◌, ◌++◌,
  ◌==◌, Bool-cases, member,
}
use breach_scope.Prelude.Result.{ok, err}
use breach_scope.Rbac.{
  RbacError, RoleMap, Policies, Host, configured_organization_rbac_policies, RequestIdentity,
  Refusal, role_not_allowed, unknown_permission_requested, is_global_key, is_known, check_effective,
  check_permission, require_roles,
}
use breach_scope.Rbac.Effective.{
  organization_of, enabled_if_unreadable, enabled_if_some, effective-err, check_effective-err,
  effective-other,
}

module _ (host : Host) where
  -- While the setting of policies cannot be read, the gate refuses every request for a permission, whether or not
  -- there are accounts with roles, whatever the role; but for a local demo, without authentication, and for the
  -- deployment's global key.
  pub unreadable_policies :
      (setting permission : String) (auth_enabled : Bool) (roles allowed_roles : List String)
      (identity : RequestIdentity) {e : RbacError}
      → configured_organization_rbac_policies host setting ≡ err e
      → identity.method == "none" && not auth_enabled ≡ false
      → is_global_key identity ≡ false
      → (refusal : Refusal) × (require_roles host setting auth_enabled roles identity allowed_roles
            (some permission)
          ≡ err refusal)
  unfolding require_roles check_permission
  unreadable_policies setting permission auth_enabled roles allowed_roles identity unreadable demo
        key =
      let (x, failed) =
        effective-err host setting identity.organization_id identity.role unreadable in
      let (refusal, refused) = check_effective-err host setting permission identity x in
      elim (Bool-cases (is_known (some permission))) [
        | inr unknown ↦ rw unknown (unknown_permission_requested, refl)
        | inl known ↦
            rw (known, demo, key, enabled_if_unreadable host setting roles unreadable)
              (elim (Bool-cases
                (not (identity.role == "admin") && not (member identity.role allowed_roles))) [
                  | inl unfit ↦ rw unfit (role_not_allowed, refl)
                  | inr fits ↦ rw (fits, failed) (refusal, refused)
                ])
      ]

  permission-other :
      (setting setting' other : String) (before after : Policies) (role_map role_map' : RoleMap)
      (permission : Option String) (identity : RequestIdentity)
      → configured_organization_rbac_policies host setting
        ≡ ok (before ++ (other, role_map) ∷ after)
      → configured_organization_rbac_policies host setting'
        ≡ ok (before ++ (other, role_map') ∷ after)
      → organization_of host identity.organization_id ≢ ok other
      → check_permission host setting permission identity
        ≡ check_permission host setting' permission identity
  unfolding check_permission check_effective
  permission-other setting setting' other before after role_map role_map' none identity h h' apart =
      refl
  permission-other setting setting' other before after role_map role_map' (some p) identity h h'
        apart =
      ap (check_effective host setting p identity) (
        effective-other host setting setting' identity.organization_id identity.role other before
          after role_map role_map' h h' apart)

  -- What the policies say of one organization makes no difference at the gate for an identity of another one: under
  -- two settings whose policies differ only in the roles of `other`, the gate answers a request alike, whatever the
  -- operation, if the organization of the identity is not `other`.
  pub other_organizations :
      (setting setting' other : String) (before after : Policies) (role_map role_map' : RoleMap)
      (auth_enabled : Bool) (roles allowed_roles : List String) (permission : Option String)
      (identity : RequestIdentity)
      → configured_organization_rbac_policies host setting
        ≡ ok (before ++ (other, role_map) ∷ after)
      → configured_organization_rbac_policies host setting'
        ≡ ok (before ++ (other, role_map') ∷ after)
      → organization_of host identity.organization_id ≢ ok other
      → require_roles host setting auth_enabled roles identity allowed_roles permission
        ≡ require_roles host setting' auth_enabled roles identity allowed_roles permission
  unfolding require_roles
  other_organizations setting setting' other before after role_map role_map' auth_enabled roles
        allowed_roles permission identity h h' apart =
      rw
        (
          enabled_if_some host setting roles before after (other, role_map) h,
          enabled_if_some host setting' roles before after (other, role_map') h',
          permission-other setting setting' other before after role_map role_map' permission
              identity h h' apart,
        )
        refl
