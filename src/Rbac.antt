-- ===== src/Rbac.antt =====
-- api/rbac.py: the permissions of roles, what organizations change of them, and the gate of an operation.
-- Who makes a request is an argument of the gate.
pub mod Policies
pub mod Effective
pub mod Gate
mod Examples
use breach_scope.Prelude.{
  String, Bool, true, false, not, ◌&&◌, ◌||◌, Option, none, some, List, [], ◌∷◌, ◌++◌, ◌==◌, member,
  if◌then◌else◌,
}
use breach_scope.Prelude.Text.{Unicode, strip}
use breach_scope.Prelude.Json.{
  Value, object, array, string, Fields, end, field, list_of, str_or_empty,
}
use breach_scope.Prelude.Dict.{find, keys}
use breach_scope.Prelude.Result.{Result, ok, err, guard, ◌>>=◌, ◌>>◌}
use breach_scope.OrganizationScope.{ScopeError, normalize_organization_id}
use breach_scope.Scim.Records.{known_roles}

abbrev pub known_permissions : List String
known_permissions =
    "rule.author" ∷ "rule.review" ∷ "rule.operate" ∷ "analysis.custom_rules" ∷ "case.object_storage"
    ∷ []

unfoldable pub default_role_permissions : (role : String) → List String
default_role_permissions role =
    if role == "admin"
    then "*" ∷ []
    else if role == "author"
    then "rule.author" ∷ []
    else if role == "reviewer"
    then "rule.review" ∷ []
    else if role == "operator"
    then "rule.operate" ∷ "analysis.custom_rules" ∷ "case.object_storage" ∷ []
    else []

-- OrganizationRbacPolicyError, by its message; `no_scope` is an identifier of an organization that raises.
pub data RbacError : Type 0 where
  duplicate_entries not_json not_an_object bad_organization duplicate_organization : RbacError
  unknown_role duplicate_role not_an_array unknown_permission no_scope : RbacError

-- json.loads with `_unique_object`, which raises at a key that an object has twice.
pub data Parsed : Type 0 where
  unparsed repeated : Parsed
  parsed : Value → Parsed

-- What an organization changes: the permissions of some roles.
abbrev pub RoleMap : Type 0
RoleMap = List (String × List String)

abbrev pub Policies : Type 0
Policies = List (String × RoleMap)

-- The interpreter, its JSON parser, and the organization of the environment, or why it has none.
pub record Host : Type 0 where
  pub unicode : Unicode
  pub repr : Value → String
  pub parse : String → Parsed
  pub default_organization : Result ScopeError String

unfoldable pub or_no_scope : RbacError → Result ScopeError String → Result RbacError String
or_no_scope e (ok s) = ok s
or_no_scope e (err x) = err e

module _ (host : Host) where
  unfoldable pub permissions_from :
      (seen : List String) → List Value → Result RbacError (List String)
  unfolding strip str_or_empty
  permissions_from seen [] = ok seen
  permissions_from seen (raw ∷ raws) = do
    let permission = strip (str_or_empty host.repr raw)
    guard (permission == "*" || member permission known_permissions) unknown_permission
    permissions_from (if member permission seen then seen else seen ++ permission ∷ []) raws

  unfoldable pub permissions_of : Value → Result RbacError (List String)
  unfolding permissions_from list_of
  permissions_of (array raws) = permissions_from [] (list_of raws)
  permissions_of _ = err not_an_array

  unfoldable pub roles_from : (role_map : RoleMap) → Fields → Result RbacError RoleMap
  unfolding permissions_of strip
  roles_from role_map end = ok role_map
  roles_from role_map (field raw_role raw_permissions rest) = do
    let role = host.unicode.lower (strip raw_role)
    guard (member role known_roles) unknown_role
    guard (not (member role (keys role_map))) duplicate_role
    permissions ← permissions_of raw_permissions
    roles_from (role_map ++ (role, permissions) ∷ []) rest

  unfoldable pub roles_of : Value → Result RbacError RoleMap
  unfolding roles_from
  roles_of (object fields) = roles_from [] fields
  roles_of _ = err not_an_object

  unfoldable pub policies_from : (policies : Policies) → Fields → Result RbacError Policies
  unfolding roles_of or_no_scope
  policies_from policies end = ok policies
  policies_from policies (field raw_org raw_roles rest) = do
    organization_id ←
        or_no_scope bad_organization (normalize_organization_id host.unicode raw_org none)
    guard (not (member organization_id (keys policies))) duplicate_organization
    role_map ← roles_of raw_roles
    policies_from (policies ++ (organization_id, role_map) ∷ []) rest

  unfoldable pub policies_of : Parsed → Result RbacError Policies
  unfolding policies_from
  policies_of unparsed = err not_json
  policies_of repeated = err duplicate_entries
  policies_of (parsed (object fields)) = policies_from [] fields
  policies_of (parsed _) = err not_an_object

  -- `setting` is the text of the variable, or "".
  unfoldable pub configured_organization_rbac_policies :
      (setting : String) → Result RbacError Policies
  unfolding policies_of strip
  configured_organization_rbac_policies setting =
      if strip setting == "" then ok [] else policies_of (host.parse (strip setting))

  unfoldable pub organization_rbac_policy_settings_present : (setting : String) → Bool
  unfolding configured_organization_rbac_policies
  organization_rbac_policy_settings_present setting =
      elim (configured_organization_rbac_policies setting) [
        | ok [] ↦ false
        | ok (p ∷ ps) ↦ true
        | err e ↦ true
      ]

  unfoldable pub override_of : (organization role : String) → Policies → Option (List String)
  override_of organization role policies = elim (find organization policies) [
    | none ↦ none
    | some role_map ↦ find role role_map
  ]

  unfoldable pub effective_role_permissions :
      (setting organization_id role : String) → Result RbacError (List String)
  unfolding or_no_scope configured_organization_rbac_policies override_of default_role_permissions
      strip
  effective_role_permissions setting organization_id role = do
    default ← or_no_scope no_scope host.default_organization
    organization ←
        or_no_scope no_scope (normalize_organization_id host.unicode organization_id (some default))
    let normalized_role = host.unicode.lower (strip role)
    policies ← configured_organization_rbac_policies setting
    ok (elim (override_of organization normalized_role policies) [
      | none ↦ default_role_permissions normalized_role
      | some permissions ↦ permissions
    ])

pub record RequestIdentity : Type 0 where
  pub subject : String
  pub role : String
  pub method : String
  pub organization_id : String
  pub api_key_delegated : Option Bool

-- HTTPException 403 for the role and for the permission, 503, and the errors that the gate lets through.
pub data Refusal : Type 0 where
  role_not_allowed permission_denied policy_invalid unknown_permission_requested scope_invalid :
      Refusal

unfoldable pub as_admin : RequestIdentity → RequestIdentity
as_admin identity = record identity { role = "admin" }

unfoldable pub is_global_key : RequestIdentity → Bool
is_global_key identity =
    identity.method == "api_key"
    && elim identity.api_key_delegated [ some false ↦ true | _ ↦ false ]

unfoldable pub is_known : Option String → Bool
is_known none = true
is_known (some permission) = member permission known_permissions

module _ (host : Host) (setting : String) where
  -- The test on the permissions of the role; an invalid policy is a 503.
  unfoldable pub check_effective :
      (permission : String)
      → RequestIdentity
      → Result RbacError (List String)
      → Result Refusal RequestIdentity
  check_effective permission identity (err no_scope) = err scope_invalid
  check_effective permission identity (err _) = err policy_invalid
  check_effective permission identity (ok permissions) =
      if member "*" permissions || member permission permissions
      then ok identity
      else err permission_denied

  unfoldable pub check_permission : Option String → RequestIdentity → Result Refusal RequestIdentity
  unfolding check_effective effective_role_permissions
  check_permission none identity = ok identity
  check_permission (some permission) identity =
      check_effective permission identity
        (effective_role_permissions host setting identity.organization_id identity.role)

  -- `roles` is what configured_rbac_roles() gives.
  unfoldable pub rbac_is_enabled : (roles : List String) → Bool
  unfolding organization_rbac_policy_settings_present
  rbac_is_enabled [] = organization_rbac_policy_settings_present host setting
  rbac_is_enabled (role ∷ roles) = true

  -- `auth_enabled` is auth_is_enabled().
  unfoldable pub require_roles :
      (auth_enabled : Bool) (roles : List String)
      → RequestIdentity
      → (allowed_roles : List String) (permission : Option String) → Result Refusal RequestIdentity
  unfolding is_known as_admin is_global_key rbac_is_enabled check_permission
  require_roles auth_enabled roles identity allowed_roles permission =
      if not (is_known permission)
      then err unknown_permission_requested
      else if identity.method == "none" && not auth_enabled
      then ok (as_admin identity)
      else if is_global_key identity
      then ok identity
      else if not (rbac_is_enabled roles)
      then ok (as_admin identity)
      else if not (identity.role == "admin") && not (member identity.role allowed_roles)
      then err role_not_allowed
      else check_permission permission identity
