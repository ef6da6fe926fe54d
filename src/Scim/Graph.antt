-- ===== src/Scim/Graph.antt =====
-- The check of the membership graph, `_validate_group_graph` of api/services/scim_groups.py: every
-- member is a user or a group and not both, and no group contains itself through its members.
pub mod Search
pub mod Verdict
mod Examples
use breach_scope.Prelude.{
  ℕ, zero, suc, String, Bool, true, false, ◌&&◌, not, Option, none, some, List, [], ◌∷◌, ◌==◌,
  length, member, if◌then◌else◌,
}
use breach_scope.Prelude.Dict.{find, put, keys}
use breach_scope.Prelude.Result.{Result, ok, err, guard, ◌>>=◌, ◌>>◌}

-- `exhausted` is the model's own: the search ran out of fuel.
pub data GraphError : Type 0 where
  ambiguous unknown cycle exhausted : GraphError

-- A group, as the check sees it: its id and the ids of its members.
abbrev pub Node : Type 0
Node = String × List String

-- `groups_by_id`: rows with no id are left out, and a later row replaces an earlier one.
unfoldable pub index : List Node → List Node → List Node
index [] acc = acc
index ((id, members) ∷ rows) acc = index rows (if id == "" then acc else put id members acc)

unfoldable pub groups_by_id : List Node → List Node
unfolding index
groups_by_id rows = index rows []

unfoldable pub members_of : List Node → String → List String
members_of by_id id = elim (find id by_id) [ none ↦ [] | some members ↦ members ]

-- One row of the first loop.
unfoldable pub check_members : (users ids members : List String) → Result GraphError (Unit {0})
check_members users ids [] = ok tt
check_members users ids (m ∷ ms) = do
  guard (not (member m users && member m ids)) ambiguous
  guard (not (not (member m users) && not (member m ids))) unknown
  check_members users ids ms

unfoldable pub check_rows : (users ids : List String) → List Node → Result GraphError (Unit {0})
check_rows users ids [] = ok tt
check_rows users ids ((id, members) ∷ rows) = do
  check_members users ids members
  check_rows users ids rows

-- A loop that passes `visited` along.
unfoldable pub for_each :
    (String → List String → Result GraphError (List String))
    → List String
    → List String
    → Result GraphError (List String)
for_each step [] visited = ok visited
for_each step (x ∷ xs) visited = do visited' ← step x visited; for_each step xs visited'

-- The nested function `visit`. A group leaves `visiting` when its visit returns, so its callees see it
-- and its caller does not.
module _ (ids : List String) (members : String → List String) where
  unfoldable pub visit :
      ℕ → (group_id : String) → (visiting visited : List String) → Result GraphError (List String)
  unfolding for_each
  visit zero g visiting visited = err exhausted
  visit (suc fuel) g visiting visited =
      let descend =
        for_each (λ m seen. if member m ids then visit fuel m (g ∷ visiting) seen else ok seen)
          (members g) visited in
      if member g visiting
      then err cycle
      else if member g visited
      then ok visited
      else descend >>= λ visited'. ok (g ∷ visited')

  unfoldable pub visit_all : List String → Result GraphError (List String)
  unfolding for_each visit
  visit_all order = for_each (λ g seen. visit (suc (length ids)) g [] seen) order []

unfoldable pub validate_group_graph :
    (users : List String) → List Node → Result GraphError (Unit {0})
unfolding visit_all check_rows check_members groups_by_id members_of
validate_group_graph users rows = do
  let by_id = groups_by_id rows
  check_rows users (keys by_id) by_id
  visit_all (keys by_id) (members_of by_id) (keys by_id)
  ok tt
