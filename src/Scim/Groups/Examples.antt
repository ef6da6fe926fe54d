-- ===== src/Scim/Groups/Examples.antt =====
-- The theorem at five requests that start from a directory with one user.
use breach_scope.Prelude.{◌≢◌, refl, String, inl, inr, false, none, List, [], ◌∷◌, eq_iff, arith}
use breach_scope.Prelude.Text.{count_chars, or_else}
use breach_scope.Prelude.Json.{
  as_object, get, str_or_empty, has_key, Value, boolean, object, string, array, field, end, cons,
  nil,
}
use breach_scope.Scim.Records.{User, Directory, Runtime}
use breach_scope.Scim.Groups.Rows.{check_graph-eq-ok}
use breach_scope.Scim.Groups.{check_graph}
use breach_scope.Scim.Graph.{
  validate_group_graph, visit_all, visit, for_each, check_rows, groups_by_id, index,
}
use breach_scope.Scim.Groups.Soundness.{IsSound}
use breach_scope.Scim.Groups.Keeping.{
  Request, creation, perform, replacement, user_deletion, user_creation, user_patching, perform_all,
  perform_all-IsSound,
}

abbrev plain : Runtime
plain = record {
  unicode = record { casefold = λ s. s; lower = λ s. s };
  repr = λ v. "";
  member_path = λ s. none;
}

abbrev ann : User
ann = record {
  id = "u1";
  user_name = "ann";
  external_id = "";
  active = false;
  role = "";
  organization_id = "";
  created = "t0";
  last_modified = "t0";
}

abbrev start : Directory
start = record { users = ann ∷ []; groups = [] }

u1-nonempty : ◌≢◌ {A = String} "u1" ""
u1-nonempty = ground (arith, eq_iff "u1" "")

start-IsSound : IsSound plain start
unfolding check_graph validate_group_graph visit_all visit for_each check_rows groups_by_id index
start-IsSound = record {
  has = record { distinct = tt; nonempty = tt };
  names = tt;
  graph = check_graph-eq-ok (ann ∷ []) [] {u = tt} refl;
  people = record {
    apart = (tt, tt);
    whole = ((u1-nonempty, (λ e. cc (e)), inl (refl, refl)), tt);
  };
  assigned = tt;
}

abbrev team : Value
team = object (
    field "displayName" (string "Team")
      (field "members" (array (cons (object (field "value" (string "u1") end)) nil)) end))

abbrev bob : Value
bob = object (field "userName" (string "bob") (field "active" (boolean false) end))

abbrev rename : Value
rename = object (
    field "Operations"
      (array (
        cons
          (object (
            field "op" (string "replace")
              (field "path" (string "userName") (field "value" (string "rob") end))))
          nil))
      end)

abbrev requests : List Request
requests =
    user_creation "u2" "t1" bob
    ∷ user_patching "g8" "t1" "u2" rename
    ∷ creation "g1" "t1" team
    ∷ replacement "g9" "t2" "g1" team
    ∷ user_deletion "t3" "u1"
    ∷ []

g1-IsFresh : ◌≢◌ {A = String} "g1" ""
g1-IsFresh = ground (arith, eq_iff "g1" "")

u2-IsFresh : ◌≢◌ {A = String} "u2" ""
u2-IsFresh = ground (arith, eq_iff "u2" "")

perform_all-IsSound_example : IsSound plain (perform_all plain (λ u. u.id) "" requests start)
unfolding perform as_object get str_or_empty count_chars has_key or_else
perform_all-IsSound_example =
    perform_all-IsSound plain (λ u. u.id) "" requests start
      (
        (
          u2-IsFresh,
          (λ m. elim m [ inl e ↦ ground (arith, e, eq_iff "u2" "u1") | inr n ↦ elim n [ ] ]),
          (λ m. elim m [ ]),
        ),
        (tt, ((g1-IsFresh, λ m. elim m [ ]), (tt, (tt, tt)))),
      )
      start-IsSound
