-- ===== src/Rbac/Effective.antt =====
-- The permissions that a role has under the setting of policies.
use breach_scope.Prelude.{
  String, ◌≡◌, ◌≢◌, refl, sym, ap, ◌∙◌, inl, inr, true, Option, none, some, List, [], ◌∷◌, ◌++◌,
  ◌==◌, eq_iff, Bool-cases,
}
use breach_scope.Prelude.Text.{strip}
use breach_scope.Prelude.Dict.{find}
use breach_scope.Prelude.Result.{Result, ok, err, ◌>>=◌}
use breach_scope.OrganizationScope.{normalize_organization_id}
use breach_scope.Rbac.{
  RbacError, duplicate_entries, not_json, not_an_object, bad_organization, duplicate_organization,
  unknown_role, duplicate_role, not_an_array, unknown_permission, no_scope, RoleMap, Policies, Host,
  or_no_scope, configured_organization_rbac_policies, organization_rbac_policy_settings_present,
  override_of, default_role_permissions, effective_role_permissions, RequestIdentity, Refusal,
  check_effective, rbac_is_enabled,
}

module _ (host : Host) where
  pub enabled_if_unreadable :
      (setting : String) (roles : List String) {e : RbacError}
      → configured_organization_rbac_policies host setting ≡ err e
      → rbac_is_enabled host setting roles ≡ true
  unfolding rbac_is_enabled organization_rbac_policy_settings_present
  enabled_if_unreadable setting [] h =
      rw (h, rbac_is_enabled, organization_rbac_policy_settings_present) refl
  enabled_if_unreadable setting (role ∷ roles) h = refl

  pub enabled_if_some :
      (setting : String) (roles : List String) (before after : Policies) (p : String × RoleMap)
      → configured_organization_rbac_policies host setting ≡ ok (before ++ p ∷ after)
      → rbac_is_enabled host setting roles ≡ true
  unfolding rbac_is_enabled organization_rbac_policy_settings_present
  enabled_if_some setting [] [] after p h =
      rw (h, rbac_is_enabled, organization_rbac_policy_settings_present) refl
  enabled_if_some setting [] (q ∷ before) after p h =
      rw (h, rbac_is_enabled, organization_rbac_policy_settings_present) refl
  enabled_if_some setting (role ∷ roles) before after p h = refl

  -- The permissions of a role in an organization, under what the setting gives.
  abbrev permissions_under :
      (organization role : String) → Result RbacError Policies → Result RbacError (List String)
  permissions_under organization role configured = configured >>= λ policies.
      ok (elim (override_of host organization role policies) [
        | none ↦ default_role_permissions role
        | some permissions ↦ permissions
      ])

  -- The organization of an identifier, or why there is none.
  abbrev pub organization_of : (organization_id : String) → Result RbacError String
  organization_of organization_id = or_no_scope no_scope host.default_organization >>= λ default.
      or_no_scope no_scope (normalize_organization_id host.unicode organization_id (some default))

  effective-steps :
      (setting organization_id role : String)
      → effective_role_permissions host setting organization_id role ≡ (
          organization_of organization_id >>= λ organization.
          permissions_under organization
            (host.unicode.lower (strip role))
            (configured_organization_rbac_policies host setting))
  unfolding effective_role_permissions
  effective-steps setting organization_id role =
      by_default (or_no_scope no_scope host.default_organization)
    where
      by_default :
          (r : Result RbacError String)
          → (r >>= λ default.
              or_no_scope no_scope
                (normalize_organization_id host.unicode organization_id (some default))
              >>= λ organization.
                  permissions_under organization
                    (host.unicode.lower (strip role))
                    (configured_organization_rbac_policies host setting))
            ≡ ((r >>= λ default.
                  or_no_scope no_scope
                    (normalize_organization_id host.unicode organization_id (some default)))
                >>= λ organization.
                    permissions_under organization
                      (host.unicode.lower (strip role))
                      (configured_organization_rbac_policies host setting))
      by_default (err e) = refl
      by_default (ok default) = refl

  pub effective-err :
      (setting organization_id role : String) {e : RbacError}
      → configured_organization_rbac_policies host setting ≡ err e
      → (x : RbacError) × (effective_role_permissions host setting organization_id role ≡ err x)
  effective-err setting organization_id role {e} h =
      let (x, same) = by_organization (organization_of organization_id) in
      (
        x,
        effective-steps setting organization_id role
            ∙ ap
                (λ (r : Result RbacError Policies).
                  organization_of organization_id >>= λ organization.
                  permissions_under organization (host.unicode.lower (strip role)) r)
                h
            ∙ same,
      )
    where
      by_organization :
          (r : Result RbacError String)
          → (x : RbacError) × ((r >>= λ organization.
                permissions_under organization (host.unicode.lower (strip role)) (err e))
              ≡ err x)
      by_organization (err x) = (x, refl)
      by_organization (ok organization) = (e, refl)

  pub check_effective-err :
      (setting permission : String) (identity : RequestIdentity) (e : RbacError)
      → (refusal : Refusal) × (check_effective host setting permission identity (err e)
          ≡ err refusal)
  unfolding check_effective
  check_effective-err setting permission identity e =
      elim e
        as (λ (x : RbacError).
          (refusal : Refusal) × (check_effective host setting permission identity (err x)
            ≡ err refusal)) [
              | duplicate_entries ↦ (_, refl)
              | not_json ↦ (_, refl)
              | not_an_object ↦ (_, refl)
              | bad_organization ↦ (_, refl)
              | duplicate_organization ↦ (_, refl)
              | unknown_role ↦ (_, refl)
              | duplicate_role ↦ (_, refl)
              | not_an_array ↦ (_, refl)
              | unknown_permission ↦ (_, refl)
              | no_scope ↦ (_, refl)
            ]

  find-other :
      (own other : String) (before after : Policies) (role_map role_map' : RoleMap)
      → own ≢ other
      → find own (before ++ (other, role_map) ∷ after)
        ≡ find own (before ++ (other, role_map') ∷ after)
  unfolding find
  find-other own other [] after role_map role_map' apart = elim (Bool-cases (other == own)) [
    | inl same ↦ absurd (apart (sym ((eq_iff other own).0 same)))
    | inr differ ↦ rw differ refl
  ]
  find-other own other ((organization, m) ∷ before) after role_map role_map' apart =
      elim (Bool-cases (organization == own)) [
        | inl hit ↦ rw hit refl
        | inr miss ↦ rw miss (find-other own other before after role_map role_map' apart)
      ]

  pub effective-other :
      (setting setting' organization_id role other : String) (before after : Policies)
      (role_map role_map' : RoleMap)
      → configured_organization_rbac_policies host setting
        ≡ ok (before ++ (other, role_map) ∷ after)
      → configured_organization_rbac_policies host setting'
        ≡ ok (before ++ (other, role_map') ∷ after)
      → organization_of organization_id ≢ ok other
      → effective_role_permissions host setting organization_id role
        ≡ effective_role_permissions host setting' organization_id role
  unfolding override_of
  effective-other setting setting' organization_id role other before after role_map role_map' h h'
        apart =
      effective-steps setting organization_id role
      ∙ ap under h
      ∙ by_organization (organization_of organization_id) apart
      ∙ sym (ap under h')
      ∙ sym (effective-steps setting' organization_id role)
    where
      under : Result RbacError Policies → Result RbacError (List String)
      under r = organization_of organization_id >>= λ organization.
          permissions_under organization (host.unicode.lower (strip role)) r

      granted : Option RoleMap → Result RbacError (List String)
      granted o =
          ok
            (elim (elim o as (λ x. Option (List String)) [
              | none ↦ none
              | some m ↦ find (host.unicode.lower (strip role)) m
            ])
              as (λ x. List String) [
                | none ↦ default_role_permissions (host.unicode.lower (strip role))
                | some permissions ↦ permissions
              ])

      by_organization :
          (r : Result RbacError String)
          → r ≢ ok other
          → (r >>= λ organization.
              permissions_under organization
                (host.unicode.lower (strip role))
                (ok (before ++ (other, role_map) ∷ after)))
            ≡ (r >>= λ organization.
                permissions_under organization
                  (host.unicode.lower (strip role))
                  (ok (before ++ (other, role_map') ∷ after)))
      by_organization (err x) k = refl
      by_organization (ok own) k = ap granted (
          find-other own other before after role_map role_map'
            (λ same. k (ap (λ (x : String). ok x) same)))
