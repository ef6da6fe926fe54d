-- ===== src/Scim/Records.antt =====
-- The rows of the directory, its errors, and what it takes from the interpreter.
use breach_scope.Prelude.{String, Bool, Option, List, [], ◌∷◌, ◌==◌, not, keep, map}
use breach_scope.Prelude.Json.{Value}
use breach_scope.Prelude.Text.{Unicode}

pub record User : Type 0 where
  pub id : String
  pub user_name : String
  pub external_id : String
  pub active : Bool
  pub role : String
  pub organization_id : String
  pub created : String
  pub last_modified : String

pub record Group : Type 0 where
  pub id : String
  pub display_name : String
  pub member_ids : List String
  pub role : String
  pub organization_id : String
  pub created : String
  pub last_modified : String

-- The rows of the identity store.
pub record Directory : Type 0 where
  pub users : List User
  pub groups : List Group

-- ScimValidationError (by what it is about), ScimConflictError, ScimNotFoundError, and the plain
-- ScimDirectoryError. `exhausted` is the model's own, for a search without enough fuel.
pub data ScimError : Type 0 where
  invalid unresolved cyclic invalid_path conflict not_found broken exhausted : ScimError

-- The texts of the interpreter: case folding, `str` of a list or a dict, and what
-- `_GROUP_MEMBER_PATH_RE.fullmatch` captures.
pub record Runtime : Type 0 where
  pub unicode : Unicode
  pub repr : Value → String
  pub member_path : String → Option String

abbrev pub group_schema : String
group_schema = "urn:breachscope:params:scim:schemas:extension:1.0:Group"

abbrev pub core_group_schema : String
core_group_schema = "urn:ietf:params:scim:schemas:core:2.0:Group"

abbrev pub patch_schema : String
patch_schema = "urn:ietf:params:scim:api:messages:2.0:PatchOp"

abbrev pub known_roles : List String
known_roles = "admin" ∷ "author" ∷ "reviewer" ∷ "operator" ∷ []

-- {str(row.get("id") or "") for row in users if str(row.get("id") or "")}
unfoldable pub user_ids : List User → List String
user_ids users = keep (λ s. not (s == "")) (map (λ (r : User). r.id) users)

unfoldable pub group_ids : List Group → List String
group_ids groups = keep (λ s. not (s == "")) (map (λ (r : Group). r.id) groups)
