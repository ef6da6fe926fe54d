-- ===== src/Scim/Groups.antt =====
-- ScimGroupDirectory of api/services/scim_groups.py: its operations on the stored rows, and
-- `delete_user` of api/services/scim_directory.py, which drops the user from every group. Each takes
-- the directory and returns its result beside the directory that it leaves; `fresh` and `now` are the
-- texts of uuid.uuid4() and of the clock.
pub mod Shrinking
pub mod Rows
pub mod Soundness
pub mod Writing
pub mod Deleting
pub mod People
pub mod Keeping
mod Examples
use breach_scope.Prelude.{
  String, Bool, true, false, not, ◌&&◌, Option, none, some, List, [], ◌∷◌, ◌++◌, ◌==◌, keep, map,
  if◌then◌else◌,
}
use breach_scope.Prelude.Text.{rstrip_slash, ◌+++◌}
use breach_scope.Prelude.Json.{Value}
use breach_scope.Prelude.Result.{Result, ok, err, guard, ◌>>=◌, ◌>>◌}
use breach_scope.Scim.Records.{
  User, Group, Directory, Runtime, ScimError, invalid, unresolved, cyclic, conflict, not_found,
  broken, exhausted, core_group_schema, group_schema, user_ids, group_ids,
}
use breach_scope.Scim.Graph.{GraphError, Node, validate_group_graph}
use breach_scope.Scim.Graph
use breach_scope.Prelude.Rows.{find_row, remove_row}
use breach_scope.Scim.Users.{id_of}
use breach_scope.Scim.Payload.{group_from_payload}
use breach_scope.Scim.Patch.{working_of, body_of, apply_operations, operations_of}

-- The node of a row in the membership graph.
abbrev pub node : Group → Node
node g = (g.id, g.member_ids)

unfoldable pub graph_error : GraphError → ScimError
graph_error Graph.ambiguous = unresolved
graph_error Graph.unknown = unresolved
graph_error Graph.cycle = cyclic
graph_error Graph.exhausted = exhausted

unfoldable pub check_graph : List User → List Group → Result ScimError (Unit {0})
unfolding graph_error
check_graph users rows = elim (validate_group_graph (user_ids users) (map node rows)) [
  | ok _ ↦ ok tt
  | err e ↦ err (graph_error e)
]

module _ (rt : Runtime) where
  abbrev pub name_key : Group → String
  name_key g = rt.unicode.casefold g.display_name

  -- `exclude_id` is "" where the caller gives none.
  unfoldable pub check_uniqueness :
      List Group → Group → (exclude_id : String) → Result ScimError (Unit {0})
  check_uniqueness [] candidate exclude_id = ok tt
  check_uniqueness (row ∷ rows) candidate exclude_id = do
    guard
        (not (
          not (not (exclude_id == "") && row.id == exclude_id)
          && name_key row == name_key candidate))
        conflict
    check_uniqueness rows candidate exclude_id

-- The first row with the id.
unfoldable pub find_group : String → List Group → Option Group
find_group id [] = none
find_group id (row ∷ rows) =
    let later = find_group id rows in if row.id == id then some row else later

-- rows[index] = row, where `index` is that of the first row with the id
unfoldable pub replace_first : String → Group → List Group → List Group
replace_first id new [] = []
replace_first id new (row ∷ rows) =
    let later = replace_first id new rows in if row.id == id then new ∷ rows else row ∷ later

-- rows.pop(index)
unfoldable pub remove_first : String → List Group → List Group
remove_first id [] = []
remove_first id (row ∷ rows) =
    let later = remove_first id rows in if row.id == id then rows else row ∷ later

unfoldable pub same_ids : List String → List String → Bool
same_ids [] [] = true
same_ids (x ∷ xs) (y ∷ ys) = x == y && same_ids xs ys
same_ids _ _ = false

-- The loops of `delete_group` and `remove_user_references` on one row.
unfoldable pub without_member : (now id : String) → Group → Group
unfolding same_ids
without_member now id row =
    let filtered = keep (λ value. not (value == id)) row.member_ids in
    if same_ids filtered row.member_ids
    then row
    else record row { member_ids = filtered; last_modified = now }

-- One member of a public resource.
pub record MemberView : Type 0 where
  pub value : String
  pub kind : String
  pub ref : String
  pub display : String

pub record Resource : Type 0 where
  pub schemas : List String
  pub id : String
  pub display_name : String
  pub members : List MemberView
  pub role : String
  pub organization_id : String
  pub created : String
  pub last_modified : String
  pub location : String

-- users_by_id.get(id): rows with no id are left out, and the last row with the id counts.
unfoldable pub user_by_id : String → List User → Option User
user_by_id id [] = none
user_by_id id (row ∷ rows) = elim (user_by_id id rows) [
  | some later ↦ some later
  | none ↦ if not (row.id == "") && row.id == id then some row else none
]

unfoldable pub group_by_id : String → List Group → Option Group
group_by_id id [] = none
group_by_id id (row ∷ rows) = elim (group_by_id id rows) [
  | some later ↦ some later
  | none ↦ if not (row.id == "") && row.id == id then some row else none
]

unfoldable pub location_of : (base_url kind id : String) → String
location_of base_url kind id =
    if base_url == ""
    then "/" +++ kind +++ "s/" +++ id
    else rstrip_slash base_url +++ "/" +++ kind +++ "s/" +++ id

unfoldable pub member_view :
    (base_url id : String) → Option User → Option Group → Result ScimError MemberView
unfolding location_of
member_view base_url id (some user) (some group) = err broken
member_view base_url id (some user) none = ok (record {
  value = id;
  kind = "User";
  ref = location_of base_url "User" id;
  display = user.user_name;
})
member_view base_url id none (some group) = ok (record {
  value = id;
  kind = "Group";
  ref = location_of base_url "Group" id;
  display = group.display_name;
})
member_view base_url id none none = err broken

unfoldable pub member_views :
    (base_url : String) → List User → List Group → List String → Result ScimError (List MemberView)
unfolding member_view user_by_id group_by_id
member_views base_url users groups [] = ok []
member_views base_url users groups (id ∷ ids) = do
  view ← member_view base_url id (user_by_id id users) (group_by_id id groups)
  views ← member_views base_url users groups ids
  ok (view ∷ views)

unfoldable pub public_group_resource :
    (base_url : String) → Group → List User → List Group → Result ScimError Resource
unfolding location_of
public_group_resource base_url row users groups = do
  members ← member_views base_url users groups row.member_ids
  ok (record {
    schemas =
        core_group_schema
        ∷ (if row.role == "" && row.organization_id == "" then [] else group_schema ∷ []);
    id = row.id;
    display_name = row.display_name;
    members = members;
    role = row.role;
    organization_id = row.organization_id;
    created = row.created;
    last_modified = row.last_modified;
    location = location_of base_url "Group" row.id;
  })

unfoldable pub or_not_found {ℓ} : {A : Type ℓ} → Option A → Result ScimError A
or_not_found none = err not_found
or_not_found (some a) = ok a

-- A mutation that raises saves nothing; one that ends has saved, and then builds its reply.
unfoldable pub saved :
    (base_url : String)
    → Directory
    → Result ScimError (Group × List Group)
    → Result ScimError Resource × Directory
saved base_url d (err e) = (err e, d)
saved base_url d (ok (row, rows)) =
    (public_group_resource base_url row d.users rows, record d { groups = rows })

module _ (rt : Runtime) (base_url : String) where
  unfoldable pub get_group : String → Directory → Result ScimError Resource
  unfolding or_not_found
  get_group id d = do
    row ← or_not_found (find_group id d.groups)
    public_group_resource base_url row d.users d.groups

  unfoldable pub create_rows :
      (fresh now : String) → Value → Directory → Result ScimError (Group × List Group)
  create_rows fresh now body d = do
    row ← group_from_payload rt fresh now body d.users d.groups none
    check_uniqueness rt d.groups row ""
    check_graph d.users (d.groups ++ row ∷ [])
    ok (row, d.groups ++ row ∷ [])

  unfoldable pub create_group :
      (fresh now : String) → Value → Directory → Result ScimError Resource × Directory
  unfolding create_rows saved
  create_group fresh now body d = saved base_url d (create_rows fresh now body d)

  -- The part that `replace_group` and `patch_group` share: a body becomes the row in place of another.
  unfoldable pub rewrite_rows :
      (fresh now id : String)
      → Value
      → (current : Group) → Directory
      → Result ScimError (Group × List Group)
  rewrite_rows fresh now id body current d = do
    row ← group_from_payload rt fresh now body d.users d.groups (some current)
    check_uniqueness rt d.groups row id
    check_graph d.users (replace_first id row d.groups)
    ok (row, replace_first id row d.groups)

  unfoldable pub replace_rows :
      (fresh now id : String) → Value → Directory → Result ScimError (Group × List Group)
  unfolding or_not_found rewrite_rows
  replace_rows fresh now id body d = do
    current ← or_not_found (find_group id d.groups)
    rewrite_rows fresh now id body current d

  unfoldable pub replace_group :
      (fresh now id : String) → Value → Directory → Result ScimError Resource × Directory
  unfolding replace_rows saved
  replace_group fresh now id body d = saved base_url d (replace_rows fresh now id body d)

  unfoldable pub patch_rows :
      (fresh now id : String) → Value → Directory → Result ScimError (Group × List Group)
  unfolding or_not_found rewrite_rows
  patch_rows fresh now id payload d = do
    operations ← operations_of payload
    current ← or_not_found (find_group id d.groups)
    working ←
        apply_operations rt (user_ids d.users) (group_ids d.groups) (working_of current) operations
    rewrite_rows fresh now id (body_of working) current d

  unfoldable pub patch_group :
      (fresh now id : String) → Value → Directory → Result ScimError Resource × Directory
  unfolding patch_rows saved
  patch_group fresh now id payload d = saved base_url d (patch_rows fresh now id payload d)

unfoldable pub remove_group :
    (now id : String) → Directory → Group → Result ScimError Group × Directory
unfolding without_member remove_first
remove_group now id d removed =
    (ok removed, record d { groups = map (without_member now id) (remove_first id d.groups) })

unfoldable pub delete_group : (now id : String) → Directory → Result ScimError Group × Directory
unfolding remove_group
delete_group now id d = elim (find_group id d.groups) [
  | none ↦ (err not_found, d)
  | some removed ↦ remove_group now id d removed
]

unfoldable pub remove_user_references : (now id : String) → List Group → List Group
unfolding without_member
remove_user_references now id groups = map (without_member now id) groups

unfoldable pub delete_user : (now id : String) → Directory → Result ScimError User × Directory
unfolding remove_user_references
delete_user now id d = elim (find_row id_of id d.users) [
  | none ↦ (err not_found, d)
  | some removed ↦ (
    ok removed,
    record { users = remove_row id_of id d.users; groups = remove_user_references now id d.groups },
  )
]
