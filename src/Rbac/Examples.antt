-- ===== src/Rbac/Examples.antt =====
-- The theorems at one organization that gives its reviewers another permission.
use breach_scope.Prelude.{
  String, ◌≡◌, ◌≢◌, refl, true, none, some, [], ◌∷◌, ◌==◌, eq_iff, member, if◌then◌else◌,
}
use breach_scope.Prelude.Text.{strip}
use breach_scope.Prelude.Json.{Value, object, array, string, field, end, cons, nil}
use breach_scope.Prelude.Dict.{find}
use breach_scope.Prelude.Result.{ok, err, ok-injective}
use breach_scope.OrganizationScope.{
  normalize_organization_id, matches_organization, check_candidate, candidate_of,
}
use breach_scope.Rbac.{
  Host, unparsed, parsed, RbacError, not_json, RoleMap, Policies, or_no_scope,
  configured_organization_rbac_policies, organization_rbac_policy_settings_present, override_of,
  effective_role_permissions, RequestIdentity, Refusal, check_permission, rbac_is_enabled,
  is_global_key, require_roles,
}
use breach_scope.Rbac.Policies.{ArePolicies, configured_policies-ArePolicies}
use breach_scope.Rbac.Effective.{organization_of}
use breach_scope.Rbac.Gate.{unreadable_policies, other_organizations}

abbrev plain : Host
plain = record {
  unicode = record { casefold = λ s. s; lower = λ s. s };
  repr = λ v. "";
  parse = λ s. parsed (
      object (
        field "blue" (object (field "reviewer" (array (cons (string "rule.author") nil)) end))
          end));
  default_organization = ok "default";
}

abbrev blue : Policies
blue = ("blue", ("reviewer", "rule.author" ∷ []) ∷ []) ∷ []

blue_is_read : configured_organization_rbac_policies plain "{}" ≡ ok blue
unfolding configured_organization_rbac_policies normalize_organization_id check_candidate
    matches_organization candidate_of strip member
blue_is_read = refl

configured_policies-ArePolicies_example : ArePolicies blue
configured_policies-ArePolicies_example =
    configured_policies-ArePolicies plain "{}" blue blue_is_read

abbrev ann : RequestIdentity
ann = record {
  subject = "ann";
  role = "reviewer";
  method = "session";
  organization_id = "blue";
  api_key_delegated = none;
}

-- A host whose parser knows the texts "{a}" and "{b}" of two settings, and no other.
abbrev setting_of : String → Value
setting_of permission = object (
    field "blue" (object (field "reviewer" (array (cons (string "rule.author") nil)) end))
      (field "red" (object (field "reviewer" (array (cons (string permission) nil)) end)) end))

abbrev two_settings : Host
two_settings = record plain {
  parse = λ s.
      if s == "{a}"
      then parsed (setting_of "rule.operate")
      else if s == "{b}"
      then parsed (setting_of "rule.review")
      else unparsed;
}

abbrev blue_part : RoleMap
blue_part = ("reviewer", "rule.author" ∷ []) ∷ []

is_read :
    (configured_organization_rbac_policies two_settings "{a}"
      ≡ ok (("blue", blue_part) ∷ ("red", ("reviewer", "rule.operate" ∷ []) ∷ []) ∷ []))
    × (configured_organization_rbac_policies two_settings "{b}"
        ≡ ok (("blue", blue_part) ∷ ("red", ("reviewer", "rule.review" ∷ []) ∷ []) ∷ []))
    × (configured_organization_rbac_policies two_settings "{" ≡ err not_json)
unfolding configured_organization_rbac_policies normalize_organization_id check_candidate
    matches_organization candidate_of strip member
is_read = (refl, refl, refl)

not_red : organization_of two_settings "blue" ≢ ok "red"
unfolding or_no_scope normalize_organization_id check_candidate matches_organization candidate_of
    strip
not_red = λ e.
    let same : "blue" == "red" ≡ true = (eq_iff "blue" "red").1 (ok-injective {E = RbacError} e) in
    cc same

other_organizations_example :
    require_roles two_settings "{a}" true [] ann ("reviewer" ∷ []) (some "rule.author")
    ≡ require_roles two_settings "{b}" true [] ann ("reviewer" ∷ []) (some "rule.author")
other_organizations_example =
    other_organizations two_settings "{a}" "{b}" "red" (("blue", blue_part) ∷ []) []
      (("reviewer", "rule.operate" ∷ []) ∷ []) (("reviewer", "rule.review" ∷ []) ∷ []) true []
      ("reviewer" ∷ []) (some "rule.author") ann is_read.0 is_read.1 not_red

unreadable_policies_example :
    (refusal : Refusal) × (require_roles two_settings "{" true [] ann
        ("reviewer" ∷ [])
        (some "rule.review")
      ≡ err refusal)
unfolding is_global_key
unreadable_policies_example =
    unreadable_policies two_settings "{" "rule.review" true [] ("reviewer" ∷ []) ann is_read.2 refl
      refl

-- Under the first setting the request gets through.
ann_passes :
    require_roles two_settings "{a}" true [] ann ("reviewer" ∷ []) (some "rule.author") ≡ ok ann
unfolding require_roles rbac_is_enabled organization_rbac_policy_settings_present check_permission
    effective_role_permissions override_of configured_organization_rbac_policies
    normalize_organization_id check_candidate matches_organization candidate_of strip member find
ann_passes = refl
