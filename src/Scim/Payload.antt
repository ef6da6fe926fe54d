-- ===== src/Scim/Payload.antt =====
-- From a request's body to a group row: `_clean_string`, `_extract_assignment`,
-- `_member_ids_from_value` and `_group_from_payload`.
use breach_scope.Prelude.{
  ℕ, String, Bool, true, false, not, ◌&&◌, ◌||◌, Option, none, some, List, [], ◌∷◌, ◌++◌, ◌==◌, ltb,
  member, if◌then◌else◌,
}
use breach_scope.Prelude.Text.{strip, count_chars, or_else}
use breach_scope.Prelude.Json.{Value, null, array, Fields, list_of, get, as_object, str_or_empty}
use breach_scope.Prelude.Result.{Result, ok, err, guard, ◌>>=◌, ◌>>◌}
use breach_scope.OrganizationScope.{ScopeError, normalize_organization_id}
use breach_scope.Scim.Records.{
  User, Group, Runtime, ScimError, invalid, unresolved, group_schema, known_roles, user_ids,
  group_ids,
}
use package.text.Mathlib.Text.{find?}

-- needle in text
unfoldable pub has_part : (needle text : String) → Bool
has_part needle text' = elim (find? text' needle) [ none ↦ false | some i ↦ true ]

unfoldable pub is_truthy : String → Bool
is_truthy s = not (s == "")

-- except ValueError: raise ScimValidationError
unfoldable pub or_invalid : Result ScopeError String → Result ScimError String
or_invalid (ok s) = ok s
or_invalid (err e) = err invalid

-- `value if isinstance(value, list) else [value]`, after `if value is None: return []`
unfoldable pub items_of : Value → List Value
items_of null = []
items_of (array vs) = list_of vs
items_of v = v ∷ []

-- if not isinstance(value, Mapping): raise ScimValidationError
unfoldable pub mapping : Value → Result ScimError Fields
mapping v = elim (as_object v) [ none ↦ err invalid | some fields ↦ ok fields ]

module _ (rt : Runtime) where
  unfoldable pub text_of : Value → String
  text_of v = strip (str_or_empty rt.repr v)

  unfoldable pub folded_text_of : Value → String
  unfolding text_of
  folded_text_of v = rt.unicode.casefold (text_of v)

  unfoldable pub clean_string : Value → (required : Bool) (max_length : ℕ) → Result ScimError String
  unfolding text_of
  clean_string value required max_length = do
    let candidate = text_of value
    guard (not (required && candidate == "")) invalid
    guard (not (ltb max_length (count_chars candidate))) invalid
    ok candidate

  unfoldable pub assigned_organization : String → Result ScimError String
  unfolding is_truthy or_invalid
  assigned_organization organization_id =
      if is_truthy organization_id
      then or_invalid (normalize_organization_id rt.unicode organization_id none)
      else ok organization_id

  -- The role and the organization of an assignment, from the two texts of the extension.
  unfoldable pub check_assignment :
      (role organization_id : String) → Result ScimError (String × String)
  unfolding is_truthy assigned_organization
  check_assignment role organization_id = do
    guard (not (is_truthy role && not (member role known_roles))) invalid
    guard
        (not (is_truthy role) && not (is_truthy organization_id)
          || is_truthy role && is_truthy organization_id)
        invalid
    organization ← assigned_organization organization_id
    ok (role, organization)

  unfoldable pub extract_assignment : Fields → Result ScimError (String × String)
  unfolding folded_text_of text_of check_assignment
  extract_assignment payload = elim (as_object (get group_schema payload)) [
    | none ↦ ok ("", "")
    | some extension ↦
        check_assignment (folded_text_of (get "role" extension))
          (text_of (get "organizationId" extension))
  ]

  module _ (valid_user_ids valid_group_ids : List String) where
    -- The checks of one id, by its `type` hint, its `$ref` hint, or neither.
    unfoldable pub check_reference :
        (member_id type_hint ref_hint : String) → Result ScimError (Unit {0})
    unfolding is_truthy
    check_reference member_id type_hint ref_hint =
        let in_users = member member_id valid_user_ids in
        let in_groups = member member_id valid_group_ids in
        do
          guard (not (in_users && in_groups)) unresolved
          (if is_truthy type_hint
              then (do
                guard (not (type_hint == "user" && not in_users)) unresolved
                guard (not (type_hint == "group" && not in_groups)) unresolved
                guard (type_hint == "user" || type_hint == "group") invalid)
              else if has_part "/users/" ref_hint && not in_users
              then err unresolved
              else if has_part "/groups/" ref_hint && not in_groups
              then err unresolved
              else if not in_users && not in_groups
              then err unresolved
              else ok tt)

    -- One round of the loop.
    unfoldable pub member_id_of : Value → Result ScimError String
    unfolding mapping text_of folded_text_of check_reference is_truthy
    member_id_of item = do
      fields ← mapping item
      let member_id = text_of (get "value" fields)
      guard (is_truthy member_id) invalid
      check_reference member_id (folded_text_of (get "type" fields))
          (folded_text_of (get "$ref" fields))
      ok member_id

    unfoldable pub member_ids_from :
        (member_ids : List String) → List Value → Result ScimError (List String)
    unfolding member_id_of
    member_ids_from member_ids [] = ok member_ids
    member_ids_from member_ids (item ∷ items) = do
      id ← member_id_of item
      member_ids_from (if member id member_ids then member_ids else member_ids ++ id ∷ []) items

    unfoldable pub member_ids_from_value : Value → Result ScimError (List String)
    unfolding member_ids_from items_of
    member_ids_from_value value = member_ids_from [] (items_of value)

  -- `fresh` is the text of uuid.uuid4(), `now` that of the clock.
  unfoldable pub group_from_payload :
      (fresh now : String)
      → Value
      → List User
      → List Group
      → (existing : Option Group) → Result ScimError Group
  unfolding mapping clean_string extract_assignment member_ids_from_value
  group_from_payload fresh now body users groups existing = do
    payload ← mapping body
    display_name ← clean_string (get "displayName" payload) true 256
    member_ids ← member_ids_from_value (user_ids users) (group_ids groups) (get "members" payload)
    assignment ← extract_assignment payload
    ok (record {
      id = elim existing [ none ↦ fresh | some row ↦ or_else row.id fresh ];
      display_name = display_name;
      member_ids = member_ids;
      role = assignment.0;
      organization_id = assignment.1;
      created = elim existing [ none ↦ now | some row ↦ or_else row.created now ];
      last_modified = now;
    })
