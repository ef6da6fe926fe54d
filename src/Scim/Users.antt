-- ===== src/Scim/Users.antt =====
-- ScimUserDirectory of api/services/scim_directory.py: rows from requests, and the operations that get,
-- create, replace and patch a user. `digest` is the SHA-256 text of a row that `_version_for` makes.
pub mod Soundness
mod Examples
use breach_scope.Prelude.{
  ℕ, suc, String, Bool, true, false, not, ◌&&◌, ◌||◌, Option, none, some, List, [], ◌∷◌, ◌++◌, ◌==◌,
  member, if◌then◌else◌,
}
use breach_scope.Prelude.Text.{strip, drop_chars, count_chars, or_else, rstrip_slash, ◌+++◌}
use breach_scope.Prelude.Json.{
  Value, null, boolean, string, array, object, nil, Fields, end, field, list_of, get, has_key,
  as_object, str_or_empty, pop_field, set_field,
}
use breach_scope.Prelude.Rows.{find_row, replace_row}
use breach_scope.Prelude.Result.{Result, ok, err, guard, ◌>>=◌, ◌>>◌}
use breach_scope.OrganizationScope.{normalize_organization_id}
use breach_scope.Scim.Records.{
  User, Directory, Runtime, ScimError, invalid, invalid_path, conflict, not_found, known_roles,
}
use breach_scope.Scim.Payload.{
  is_truthy, or_invalid, mapping, text_of, folded_text_of, clean_string,
}
use breach_scope.Scim.Patch.{operations_of}
use package.text.Mathlib.Text.{starts_with}

abbrev pub core_user_schema : String
core_user_schema = "urn:ietf:params:scim:schemas:core:2.0:User"

abbrev pub user_schema : String
user_schema = "urn:breachscope:params:scim:schemas:extension:1.0:User"

abbrev pub id_of : User → String
id_of row = row.id

module _ (rt : Runtime) where
  unfoldable pub role_value : Value → String
  unfolding folded_text_of
  role_value item = elim (as_object item) [
    | none ↦ folded_text_of rt item
    | some fields ↦ folded_text_of rt (get "value" fields)
  ]

  -- list(dict.fromkeys(values)), of the values that are not empty
  unfoldable pub role_values : (values : List String) → List Value → List String
  unfolding role_value
  role_values values [] = values
  role_values values (item ∷ items) =
      role_values
        (if role_value item == "" || member (role_value item) values
          then values
          else values ++ role_value item ∷ [])
        items

  unfoldable pub known_role : String → Result ScimError String
  known_role role = if member role known_roles then ok role else err invalid

  unfoldable pub sole_role : (values : List String) → Result ScimError String
  unfolding known_role
  sole_role [] = ok ""
  sole_role (value ∷ []) = known_role value
  sole_role (value ∷ other ∷ values) = err invalid

  unfoldable pub role_from_roles : Value → Result ScimError String
  unfolding role_values sole_role
  role_from_roles null = ok ""
  role_from_roles (array items) = sole_role (role_values [] (list_of items))
  role_from_roles _ = err invalid

  unfoldable pub extension_text : (attribute : String) → Fields → Option Fields → Value
  extension_text attribute payload none = null
  extension_text attribute payload (some extension) = get attribute extension

  unfoldable pub extract_role : Fields → Result ScimError String
  unfolding role_from_roles extension_text known_role folded_text_of
  extract_role payload =
      let raw_role =
        folded_text_of rt (extension_text "role" payload (as_object (get user_schema payload))) in
      if raw_role == "" then role_from_roles (get "roles" payload) else known_role raw_role

  unfoldable pub organization_text : Fields → String
  unfolding extension_text text_of
  organization_text payload =
      or_else
        (text_of rt (extension_text "organizationId" payload (as_object (get user_schema payload))))
        (text_of rt (get "organizationId" payload))

  unfoldable pub extract_organization : Fields → Result ScimError String
  unfolding organization_text or_invalid
  extract_organization payload =
      if organization_text payload == ""
      then ok ""
      else or_invalid (normalize_organization_id rt.unicode (organization_text payload) none)

  -- payload.get("active", True), which must be a Boolean
  unfoldable pub active_of : Fields → Result ScimError Bool
  active_of payload =
      if has_key "active" payload
      then elim (get "active" payload) [ boolean b ↦ ok b | _ ↦ err invalid ]
      else ok true

  -- `fresh` is the text of uuid.uuid4(), `now` that of the clock.
  unfoldable pub resource_from_payload :
      (fresh now : String) → Value → (existing : Option User) → Result ScimError User
  unfolding mapping clean_string active_of extract_role extract_organization is_truthy
  resource_from_payload fresh now body existing = do
    payload ← mapping body
    user_name ← clean_string rt (get "userName" payload) true 320
    external_id ← clean_string rt (get "externalId" payload) false 512
    active ← active_of payload
    role ← extract_role payload
    organization_id ← extract_organization payload
    guard (not (active && not (is_truthy external_id))) invalid
    guard
        (not (is_truthy role) && not (is_truthy organization_id)
          || is_truthy role && is_truthy organization_id)
        invalid
    ok (record {
      id = elim existing [ none ↦ fresh | some row ↦ or_else row.id fresh ];
      user_name = user_name;
      external_id = external_id;
      active = active;
      role = role;
      organization_id = organization_id;
      created = elim existing [ none ↦ now | some row ↦ or_else row.created now ];
      last_modified = now;
    })

  abbrev pub user_key : User → String
  user_key row = rt.unicode.casefold row.user_name

  -- `exclude_id` is "" where the caller gives none.
  unfoldable pub check_user_uniqueness :
      List User → User → (exclude_id : String) → Result ScimError (Unit {0})
  check_user_uniqueness [] candidate exclude_id = ok tt
  check_user_uniqueness (row ∷ rows) candidate exclude_id = do
    guard
        (not (exclude_id == "") && row.id == exclude_id
          || not (user_key row == user_key candidate)
            && not (not (candidate.external_id == "") && row.external_id == candidate.external_id))
        conflict
    check_user_uniqueness rows candidate exclude_id

  -- The dictionary that PATCH operations change.
  unfoldable pub user_working_of : User → Fields
  user_working_of current = field "userName" (string current.user_name) (
      field "externalId" (string current.external_id) (
        field "active" (boolean current.active) (
          field user_schema
            (object (
              field "role" (string current.role)
                (field "organizationId" (string current.organization_id) end)))
            end)))

  -- working.setdefault(user_schema, {}), an empty one in place of what is no dictionary
  unfoldable pub extension_of : Fields → Fields
  extension_of working = elim (as_object (get user_schema working)) [
    | none ↦ end
    | some extension ↦ extension
  ]

  unfoldable pub set_extension : Fields → Fields → Fields
  unfolding set_field
  set_extension extension working = set_field user_schema (object extension) working

  unfoldable pub patch_roles : Fields → Value → (remove : Bool) → Fields
  unfolding set_field pop_field extension_of set_extension
  patch_roles working value remove =
      let with_roles = set_field "roles" (if remove then array nil else value) working in
      if has_key user_schema with_roles
      then elim (as_object (get user_schema with_roles)) [
        | none ↦ with_roles
        | some extension ↦ set_extension (pop_field "role" extension) with_roles
      ]
      else set_extension end with_roles

  -- extension[key] = value[key], if it is there
  unfoldable pub copy_field : (key : String) → (value extension : Fields) → Fields
  unfolding set_field
  copy_field key value extension =
      if has_key key value then set_field key (get key value) extension else extension

  unfoldable pub patch_user_extension : Fields → Value → (remove : Bool) → Result ScimError Fields
  unfolding mapping copy_field extension_of set_extension pop_field
  patch_user_extension working value true = ok (pop_field "roles" (set_extension end working))
  patch_user_extension working value false = do
    changes ← mapping value
    let extension =
        copy_field "organizationId" changes (copy_field "role" changes (extension_of working))
    let changed = set_extension extension working
    ok (if has_key "role" changes then pop_field "roles" changed else changed)

  unfoldable pub patch_user_attribute :
      Fields → (attribute : String) → Value → Result ScimError Fields
  unfolding extension_of set_extension set_field pop_field
  patch_user_attribute working attribute value =
      let extension = extension_of working in
      if attribute == "role"
      then ok (pop_field "roles" (set_extension (set_field "role" value extension) working))
      else if attribute == "organizationid"
      then ok (set_extension (set_field "organizationId" value extension) working)
      else err invalid_path

  unfoldable pub apply_user_patch_value :
      Fields → (path : String) → Value → (remove : Bool) → Result ScimError Fields
  unfolding patch_roles patch_user_extension patch_user_attribute set_field strip
  apply_user_patch_value working path value remove =
      let normalized = strip path in
      let lowered = rt.unicode.casefold normalized in
      let cleared = if remove then string "" else value in
      if lowered == "active"
      then ok (set_field "active" (if remove then boolean false else value) working)
      else if lowered == "username"
      then ok (set_field "userName" cleared working)
      else if lowered == "externalid"
      then ok (set_field "externalId" cleared working)
      else if lowered == "roles"
      then ok (patch_roles working value remove)
      else if lowered == rt.unicode.casefold user_schema
      then patch_user_extension working value remove
      else if starts_with lowered (rt.unicode.casefold user_schema +++ ":")
      then patch_user_attribute working
          (rt.unicode.casefold (drop_chars (suc (count_chars user_schema)) normalized)) cleared
      else err invalid_path

  unfoldable pub apply_user_fields : Fields → Fields → Result ScimError Fields
  unfolding apply_user_patch_value
  apply_user_fields working end = ok working
  apply_user_fields working (field key item rest) = do
    working' ← apply_user_patch_value working key item false
    apply_user_fields working' rest

  unfoldable pub apply_user_operation : Fields → Value → Result ScimError Fields
  unfolding mapping folded_text_of text_of apply_user_fields apply_user_patch_value
  apply_user_operation working operation = do
    fields ← mapping operation
    let op = folded_text_of rt (get "op" fields)
    guard (op == "add" || op == "replace" || op == "remove") invalid
    let path = text_of rt (get "path" fields)
    let value = get "value" fields
    (if path == ""
        then (if op == "remove"
            then err invalid
            else mapping value >>= λ items. apply_user_fields working items)
        else apply_user_patch_value working path value (op == "remove"))

  unfoldable pub apply_user_operations : Fields → List Value → Result ScimError Fields
  unfolding apply_user_operation
  apply_user_operations working [] = ok working
  apply_user_operations working (operation ∷ rest) = do
    working' ← apply_user_operation working operation
    apply_user_operations working' rest

pub record UserResource : Type 0 where
  pub schemas : List String
  pub id : String
  pub user_name : String
  pub external_id : String
  pub active : Bool
  pub role : String
  pub organization_id : String
  pub created : String
  pub last_modified : String
  pub version : String
  pub location : String

unfoldable pub user_location : (base_url id : String) → String
user_location base_url id =
    if base_url == "" then "/Users/" +++ id else rstrip_slash base_url +++ "/Users/" +++ id

-- A text that is "" stands for an entry that the resource does not have.
unfoldable pub public_resource : (digest : User → String) (base_url : String) → User → UserResource
unfolding user_location
public_resource digest base_url row = record {
  schemas =
      core_user_schema
      ∷ (if row.role == "" && row.organization_id == "" then [] else user_schema ∷ []);
  id = row.id;
  user_name = row.user_name;
  external_id = row.external_id;
  active = row.active;
  role = row.role;
  organization_id = row.organization_id;
  created = row.created;
  last_modified = row.last_modified;
  version = "W/\"" +++ digest row +++ "\"";
  location = user_location base_url row.id;
}

unfoldable pub current_row : (id : String) → List User → Result ScimError User
current_row id rows = elim (find_row id_of id rows) [ none ↦ err not_found | some row ↦ ok row ]

module _ (rt : Runtime) (digest : User → String) (base_url : String) where
  -- A mutation that raises saves nothing.
  unfoldable pub saved_users :
      Directory → Result ScimError (User × List User) → Result ScimError UserResource × Directory
  saved_users d (err e) = (err e, d)
  saved_users d (ok (row, rows)) =
      (ok (public_resource digest base_url row), record d { users = rows })

  unfoldable pub get_user : (id : String) → Directory → Result ScimError UserResource
  unfolding current_row public_resource
  get_user id d = do row ← current_row id d.users; ok (public_resource digest base_url row)

  unfoldable pub create_user_rows :
      (fresh now : String) → Value → Directory → Result ScimError (User × List User)
  unfolding resource_from_payload check_user_uniqueness
  create_user_rows fresh now body d = do
    row ← resource_from_payload rt fresh now body none
    check_user_uniqueness rt d.users row ""
    ok (row, d.users ++ row ∷ [])

  unfoldable pub create_user :
      (fresh now : String) → Value → Directory → Result ScimError UserResource × Directory
  unfolding create_user_rows saved_users
  create_user fresh now body d = saved_users d (create_user_rows fresh now body d)

  -- What `replace_user` and `patch_user` share: a body becomes the row in place of another.
  unfoldable pub rewrite_user_rows :
      (fresh now id : String)
      → Value
      → (current : User) → Directory
      → Result ScimError (User × List User)
  unfolding resource_from_payload check_user_uniqueness
  rewrite_user_rows fresh now id body current d = do
    row ← resource_from_payload rt fresh now body (some current)
    check_user_uniqueness rt d.users row id
    ok (row, replace_row id_of id row d.users)

  unfoldable pub replace_user_rows :
      (fresh now id : String) → Value → Directory → Result ScimError (User × List User)
  unfolding current_row rewrite_user_rows
  replace_user_rows fresh now id body d = do
    current ← current_row id d.users
    rewrite_user_rows fresh now id body current d

  unfoldable pub replace_user :
      (fresh now id : String) → Value → Directory → Result ScimError UserResource × Directory
  unfolding replace_user_rows saved_users
  replace_user fresh now id body d = saved_users d (replace_user_rows fresh now id body d)

  unfoldable pub patch_user_rows :
      (fresh now id : String) → Value → Directory → Result ScimError (User × List User)
  unfolding operations_of current_row apply_user_operations user_working_of rewrite_user_rows
  patch_user_rows fresh now id payload d = do
    operations ← operations_of payload
    current ← current_row id d.users
    working ← apply_user_operations rt (user_working_of rt current) operations
    rewrite_user_rows fresh now id (object working) current d

  unfoldable pub patch_user :
      (fresh now id : String) → Value → Directory → Result ScimError UserResource × Directory
  unfolding patch_user_rows saved_users
  patch_user fresh now id payload d = saved_users d (patch_user_rows fresh now id payload d)
