-- ===== src/AuditLog.antt =====
-- AuditLogService of api/services/audit_log.py: what a record keeps of the details, and the queries.
pub mod Sanitized
pub mod Queries
mod Examples
use breach_scope.Prelude.{
  ℕ, zero, suc, ◌+◌, ◌-◌, String, Bool, true, false, not, ◌&&◌, ◌||◌, Option, none, some, List, [],
  ◌∷◌, ◌++◌, ◌==◌, leb, eqb, length, keep, take, if◌then◌else◌,
}
use breach_scope.Prelude.Text.{Unicode, count_chars, take_chars, ◌+++◌}
use breach_scope.Prelude.Json.{
  Value, null, boolean, zero, number, string, array, object, Items, nil, cons, Fields, end, field,
  get, str_or_empty, set_field,
}
use breach_scope.Prelude.Json
use breach_scope.Prelude.Result.{Result, ok, err, ◌>>=◌, ◌>>◌}
use breach_scope.OrganizationScope.{
  ScopeError, normalize_organization_id, configured_default_organization, row_organization_id,
}
use breach_scope.Scim.Payload.{has_part}

abbrev pub sensitive_keys : List String
sensitive_keys =
    "password" ∷ "api_key" ∷ "token" ∷ "authorization" ∷ "cookie" ∷ "secret" ∷ "session" ∷ []

abbrev pub default_audit_limit : ℕ
default_audit_limit = 100

abbrev pub max_audit_limit : ℕ
max_audit_limit = 1000

abbrev pub redacted : String
redacted = "<redacted>"

unfoldable pub truncate : (limit : ℕ) → String → String
unfolding count_chars take_chars
truncate limit value =
    if leb (count_chars value) limit then value else take_chars (limit - 1) value +++ "…"

-- any(marker in key.lower() for marker in SENSITIVE_KEYS), of the lowered key
unfoldable pub has_marker : (markers : List String) → (lowered : String) → Bool
unfolding has_part
has_marker [] lowered = false
has_marker (marker ∷ markers) lowered = has_part marker lowered || has_marker markers lowered

-- What the caller gives as details: None, a bool, a number by its text (`zero_value` where it is false as a test), a
-- str, a Path and any other object by the text that str gives of it, a list, a tuple or a set in the order of
-- `list`, and a dict. A key is the text that str gives of it, so that two keys of a dict may have one text.
mutual
  pub data Detail : Type 0 where
    none_value : Detail
    bool_value : Bool → Detail
    zero_value number_value str_value path_value other_value : String → Detail
    list_value : Details → Detail
    dict_value : Entries → Detail

  pub data Details : Type 0 where
    no_more : Details
    detail : Detail → Details → Details

  pub data Entries : Type 0 where
    no_entries : Entries
    entry : (key : String) → Detail → Entries → Entries

module _ (u : Unicode) where
  unfoldable pub is_sensitive : (key : String) → Bool
  unfolding has_marker
  is_sensitive key = not (key == "") && has_marker sensitive_keys (u.lower key)

  -- A value with no key of its own, the first entries of a list, and the entries of a dictionary, after those
  -- that are done. Of two keys with one text the later gives the value.
  unfoldable mutual
    unfolding truncate is_sensitive set_field

    pub sanitize : Detail → Value
    sanitize none_value = null
    sanitize (bool_value b) = boolean b
    sanitize (zero_value n) = Json.zero n
    sanitize (number_value n) = number n
    sanitize (str_value s) = string (truncate 500 s)
    sanitize (path_value s) = string s
    sanitize (other_value s) = string (truncate 500 s)
    sanitize (list_value details) = array (sanitize_items 50 details)
    sanitize (dict_value entries) = object (sanitize_entries end entries)

    pub sanitize_items : (left : ℕ) → Details → Items
    sanitize_items left no_more = nil
    sanitize_items zero (detail value details) = nil
    sanitize_items (suc left) (detail value details) =
        cons (sanitize value) (sanitize_items left details)

    pub sanitize_entries : (done : Fields) → Entries → Fields
    sanitize_entries done no_entries = done
    sanitize_entries done (entry key value entries) =
        sanitize_entries
          (set_field key (if is_sensitive key then string redacted else sanitize value) done)
          entries

-- One line of the file: nothing but space, no JSON, or a record.
pub data Line : Type 0 where
  blank broken : Line
  row : Fields → Line

-- What a query asks for; "" for what it leaves open.
pub record Query : Type 0 where
  pub limit : ℕ
  pub action : String
  pub status : String
  pub case_id : String
  pub organization_id : Option String

-- max(1, min(MAX_AUDIT_LIMIT, int(limit or DEFAULT_AUDIT_LIMIT)))
unfoldable pub effective_limit : ℕ → ℕ
effective_limit limit =
    let wanted = if eqb limit 0 then default_audit_limit else limit in
    if leb wanted max_audit_limit then wanted else max_audit_limit

abbrev pub is_text : String → Value → Bool
is_text s (string t) = t == s
is_text s _ = false

-- not wanted or row.get(name) == wanted
unfoldable pub has_wanted : (name wanted : String) → Fields → Bool
has_wanted name wanted fields = wanted == "" || is_text wanted (get name fields)

unfoldable pub wanted_organization : Unicode → Option String → Result ScopeError (Option String)
unfolding normalize_organization_id
wanted_organization u none = ok none
wanted_organization u (some organization_id) =
    normalize_organization_id u organization_id none >>= λ organization. ok (some organization)

unfoldable pub newest_first : List Line → List Line
newest_first [] = []
newest_first (line ∷ lines) = newest_first lines ++ line ∷ []

-- `setting` is the default organization of the environment, `repr` the interpreter's text of a list or a dictionary.
module _ (u : Unicode) (setting : Option String) (repr : Value → String) where
  unfoldable pub is_of : (organization : String) → Fields → Result ScopeError Bool
  unfolding configured_default_organization row_organization_id str_or_empty
  is_of organization fields = do
    default ← configured_default_organization u setting
    found ←
        row_organization_id u setting (str_or_empty repr (get "organization_id" fields))
          (some default)
    ok (found == organization)

  unfoldable pub in_scope : (organization : Option String) → Fields → Result ScopeError Bool
  unfolding is_of
  in_scope none fields = ok true
  in_scope (some organization) fields = is_of organization fields

  unfoldable pub passes : (organization : Option String) → Query → Fields → Result ScopeError Bool
  unfolding in_scope has_wanted
  passes organization query fields = do
    inside ← in_scope organization fields
    ok (
        inside
        && has_wanted "action" query.action fields
        && has_wanted "status" query.status fields
        && has_wanted "case_id" query.case_id fields)

  -- The loop over the lines, the newest first.
  unfoldable pub scan_lines :
      (limit : ℕ) (organization : Option String)
      → Query
      → List Line
      → (rows : List Fields) → Result ScopeError (List Fields)
  unfolding passes
  scan_lines limit organization query [] rows = ok rows
  scan_lines limit organization query (blank ∷ lines) rows =
      scan_lines limit organization query lines rows
  scan_lines limit organization query (broken ∷ lines) rows =
      scan_lines limit organization query lines rows
  scan_lines limit organization query (row fields ∷ lines) rows =
      passes organization query fields >>= λ kept.
      let more = scan_lines limit organization query lines (rows ++ fields ∷ []) in
      let less = scan_lines limit organization query lines rows in
      if kept
      then (if leb limit (length rows + 1) then ok (rows ++ fields ∷ []) else more)
      else less

  -- The lines of the file, none where there is no file.
  unfoldable pub read_events : Query → (log : Option (List Line)) → Result ScopeError (List Fields)
  unfolding effective_limit wanted_organization scan_lines newest_first
  read_events query log = do
    organization ← wanted_organization u query.organization_id
    (elim log [
      | none ↦ ok []
      | some lines ↦
          scan_lines (effective_limit query.limit) organization query (newest_first lines) []
    ])
