-- ===== src/OrganizationScope.antt =====
-- api/services/organization_scope.py: the identifiers of organizations.
pub mod Normal
use breach_scope.Prelude.{
  ℕ, String, Bool, true, false, not, ◌&&◌, ◌||◌, Option, none, some, ◌==◌, leb, eqb, if◌then◌else◌,
}
use breach_scope.Prelude.Text.{Unicode, strip, all_chars, count_chars, or_else}
use breach_scope.Prelude.Result.{Result, ok, err, guard, ◌>>=◌, ◌>>◌}
use Prim.Native.Char.{code}

abbrev pub max_organization_id_length : ℕ
max_organization_id_length = 64

abbrev pub default_organization_id : String
default_organization_id = "default"

-- OrganizationScopeError, by its two messages.
pub data ScopeError : Type 0 where
  required malformed : ScopeError

-- [a-z0-9]
unfoldable pub is_alphanumeric : ℕ → Bool
is_alphanumeric c = leb b'a' c && leb c b'z' || leb b'0' c && leb c b'9'

-- [a-z0-9._-]
unfoldable pub is_id_char : ℕ → Bool
unfolding is_alphanumeric
is_id_char c = is_alphanumeric c || eqb c b'.' || eqb c b'_' || eqb c b'-'

-- `_ORGANIZATION_RE.fullmatch`
unfoldable pub matches_organization : String → Bool
unfolding is_id_char all_chars count_chars
matches_organization String.[] = false
matches_organization (String.◌∷◌ c s) =
    is_alphanumeric (code c) && all_chars is_id_char s && leb (count_chars s) 63

module _ (u : Unicode) where
  -- str(value or "").strip().casefold(), where "" stands for None too.
  unfoldable pub candidate_of : String → String
  candidate_of value = u.casefold (strip value)

  unfoldable pub check_candidate : String → Result ScopeError String
  check_candidate candidate =
      if not (leb (count_chars candidate) max_organization_id_length)
        || not (matches_organization candidate)
      then err malformed
      else ok candidate

  unfoldable pub normalize_organization_id :
      (value : String) (default : Option String) → Result ScopeError String
  normalize_organization_id value none =
      if candidate_of value == "" then err required else check_candidate (candidate_of value)
  normalize_organization_id value (some default) =
      check_candidate
        (if candidate_of value == "" then candidate_of default else candidate_of value)

  -- The environment's setting, none where it is absent.
  unfoldable pub configured_default_organization : Option String → Result ScopeError String
  unfolding normalize_organization_id
  configured_default_organization none =
      normalize_organization_id default_organization_id (some default_organization_id)
  configured_default_organization (some setting) =
      normalize_organization_id setting (some default_organization_id)

  -- The organization of a stored row: legacy rows belong to the deployment's default.
  unfoldable pub row_organization_id :
      (setting : Option String) (organization_id : String) (default : Option String)
      → Result ScopeError String
  unfolding normalize_organization_id configured_default_organization
  row_organization_id setting organization_id none = do
    fallback ← configured_default_organization setting
    normalize_organization_id organization_id (some fallback)
  row_organization_id setting organization_id (some default) =
      normalize_organization_id organization_id (some default)
