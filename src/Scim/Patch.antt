-- ===== src/Scim/Patch.antt =====
-- PATCH on a group: the working copy, `_apply_patch_value`, and the loop over the operations.
use breach_scope.Prelude.{
  String, Bool, true, false, not, ◌||◌, none, some, List, [], ◌∷◌, ◌++◌, ◌==◌, keep, member,
  if◌then◌else◌, suc,
}
use breach_scope.Prelude.Text.{strip, drop_chars, count_chars, ◌+++◌}
use breach_scope.Prelude.Json.{
  Value, null, string, array, object, Items, nil, cons, Fields, end, field, list_of, get, has_key,
}
use breach_scope.Prelude.Result.{Result, ok, err, guard, ◌>>=◌, ◌>>◌}
use breach_scope.Scim.Records.{
  Group, Runtime, ScimError, invalid, invalid_path, group_schema, patch_schema,
}
use breach_scope.Scim.Payload.{mapping, text_of, folded_text_of, member_ids_from_value}
use package.text.Mathlib.Text.{starts_with}

-- `working`: its members by their ids, its extension by the two values, null where it lacks a key.
pub record Working : Type 0 where
  pub display_name : Value
  pub members : List String
  pub role : Value
  pub organization_id : Value

pub data Op : Type 0 where
  add replace remove : Op

unfoldable pub working_of : Group → Working
working_of current = record {
  display_name = string current.display_name;
  members = current.member_ids;
  role = string current.role;
  organization_id = string current.organization_id;
}

unfoldable pub member_items : List String → Items
member_items [] = nil
member_items (id ∷ ids) = cons (object (field "value" (string id) end)) (member_items ids)

-- The working copy as the body that `_group_from_payload` reads.
unfoldable pub body_of : Working → Value
unfolding member_items
body_of w = object (
    field "displayName" w.display_name (
      field "members" (array (member_items w.members)) (
        field group_schema
          (object (field "role" w.role (field "organizationId" w.organization_id end))) end)))

-- for member_id in incoming: if member_id not in existing: existing.append(member_id)
unfoldable pub append_new : (existing incoming : List String) → List String
append_new existing [] = existing
append_new existing (id ∷ ids) =
    append_new (if member id existing then existing else existing ++ id ∷ []) ids

unfoldable pub is_remove : Op → Bool
is_remove remove = true
is_remove _ = false

unfoldable pub is_replace : Op → Bool
is_replace replace = true
is_replace _ = false

module _ (rt : Runtime) (valid_user_ids valid_group_ids : List String) where
  unfoldable pub patch_members : Working → Value → Op → Result ScimError Working
  unfolding append_new
  patch_members working value remove = ok (record working { members = [] })
  patch_members working value replace = do
    incoming ← member_ids_from_value rt valid_user_ids valid_group_ids value
    ok (record working { members = incoming })
  patch_members working value add = do
    incoming ← member_ids_from_value rt valid_user_ids valid_group_ids value
    ok (record working { members = append_new working.members incoming })

  unfoldable pub patch_extension : Working → Value → Op → Result ScimError Working
  unfolding mapping is_remove
  patch_extension working value op =
      if is_remove op then ok (record working { role = null; organization_id = null }) else (do
        fields ← mapping value
        ok (record working {
          role = if has_key "role" fields then get "role" fields else working.role;
          organization_id =
              if has_key "organizationId" fields
              then get "organizationId" fields
              else working.organization_id;
        }))

  unfoldable pub patch_attribute : Working → (attr : String) → Value → Op → Result ScimError Working
  unfolding is_remove
  patch_attribute working attr value op =
      let value' = if is_remove op then string "" else value in
      if rt.unicode.casefold attr == "role"
      then ok (record working { role = value' })
      else if rt.unicode.casefold attr == "organizationid"
      then ok (record working { organization_id = value' })
      else err invalid_path

  unfoldable pub apply_patch_value :
      Working → (path : String) → Value → Op → Result ScimError Working
  unfolding is_remove patch_members patch_extension patch_attribute
  apply_patch_value working path value op =
      let normalized = strip path in
      let lowered = rt.unicode.casefold normalized in
      elim (rt.member_path normalized) [
        | some target ↦
            if is_remove op
            then ok
                (record working { members = keep (λ item. not (item == target)) working.members })
            else err invalid_path
        | none ↦
            if lowered == "displayname"
            then ok (record working { display_name = if is_remove op then string "" else value })
            else if lowered == "members"
            then patch_members working value op
            else if lowered == rt.unicode.casefold group_schema
            then patch_extension working value op
            else if starts_with lowered (rt.unicode.casefold group_schema +++ ":")
            then patch_attribute working (drop_chars (suc (count_chars group_schema)) normalized)
                value op
            else err invalid_path
      ]

  -- The items of a path-less operation, in their order.
  unfoldable pub apply_fields : Working → Fields → Op → Result ScimError Working
  unfolding apply_patch_value
  apply_fields working end op = ok working
  apply_fields working (field key item rest) op = do
    working' ← apply_patch_value working key item op
    apply_fields working' rest op

  unfoldable pub op_of : String → Result ScimError Op
  op_of name =
      if name == "add"
      then ok add
      else if name == "replace"
      then ok replace
      else if name == "remove"
      then ok remove
      else err invalid

  unfoldable pub apply_operation : Working → Value → Result ScimError Working
  unfolding mapping apply_fields op_of is_remove
  apply_operation working operation = do
    fields ← mapping operation
    op ← op_of (folded_text_of rt (get "op" fields))
    let path = text_of rt (get "path" fields)
    let value = get "value" fields
    (if path == ""
        then (if is_remove op
            then err invalid
            else mapping value >>= λ items. apply_fields working items op)
        else apply_patch_value working path value op)

  unfoldable pub apply_operations : Working → List Value → Result ScimError Working
  unfolding apply_operation
  apply_operations working [] = ok working
  apply_operations working (operation ∷ rest) = do
    working' ← apply_operation working operation
    apply_operations working' rest

-- PATCH_SCHEMA in schemas, and the operations of a body that has some.
unfoldable pub names_schema : List Value → Bool
names_schema [] = false
names_schema (string s ∷ rest) = s == patch_schema || names_schema rest
names_schema (_ ∷ rest) = names_schema rest

unfoldable pub list_value : Value → List Value
list_value (array vs) = list_of vs
list_value _ = []

unfoldable pub operations_of : Value → Result ScimError (List Value)
unfolding mapping names_schema list_value
operations_of body = do
  payload ← mapping body
  guard (names_schema (list_value (get "schemas" payload))) invalid
  elim (list_value (get "Operations" payload)) [ [] ↦ err invalid | v ∷ vs ↦ ok (v ∷ vs) ]
