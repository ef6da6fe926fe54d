-- ===== src/Scim/Identity/Sound.antt =====
-- Resolution in a sound directory, where the check of the groups and that of the resolution agree.
use breach_scope.Prelude.{
  String, ◌≡◌, ◌↔◌, refl, sym, ap, subst, ◌∙◌, inl, inr, true, Option, some, List, [], ◌∷◌, ◌==◌,
  Bool-cases, map,
}
use breach_scope.Prelude.Dict.{find, put, keys}
use breach_scope.Prelude.Result.{ok}
use breach_scope.Scim.Records.{User, Group, Directory, Runtime}
use breach_scope.Scim.Graph.{Node, index, groups_by_id, members_of}
use breach_scope.Scim.Graph.Search.{Nests}
use breach_scope.Scim.Groups.{node}
use breach_scope.Scim.Groups.Soundness.{IsSound}
use breach_scope.Scim.Identity.{
  Assignment, Table, table_from, table_of, member_ids_in, resolved_identity,
}
use breach_scope.Scim.Identity.Assignments.{NestedBelow}
use breach_scope.Scim.Identity.Sole.{Grants, resolved_identity_iff}

abbrev entry_node : String × Group → Node
entry_node entry = (entry.0, entry.1.member_ids)

put-nodes :
    (key : String) (group : Group) (table : Table)
    → map entry_node (put key group table) ≡ put key group.member_ids (map entry_node table)
unfolding put
put-nodes key group [] = refl
put-nodes key group ((k, g) ∷ table) = elim (Bool-cases (k == key)) [
  | inl hit ↦ rw hit refl
  | inr miss ↦ rw miss (ap (λ (ns : List Node). (k, g.member_ids) ∷ ns) (put-nodes key group table))
]

table_from-nodes :
    (groups : List Group) (table : Table)
    → map entry_node (table_from groups table) ≡ index (map node groups) (map entry_node table)
unfolding table_from index
table_from-nodes [] table = refl
table_from-nodes (g ∷ groups) table = elim (Bool-cases (g.id == "")) [
  | inl empty ↦ rw (empty, index) (table_from-nodes groups table)
  | inr full ↦
      rw (full, index)
        (table_from-nodes groups (put g.id g table)
          ∙ ap (index (map node groups)) (put-nodes g.id g table))
]

keys-nodes : (table : Table) → keys (map entry_node table) ≡ keys table
keys-nodes [] = refl
keys-nodes ((k, g) ∷ table) = ap (λ (xs : List String). k ∷ xs) (keys-nodes table)

members_of-nodes :
    (table : Table) (id : String) → members_of (map entry_node table) id ≡ member_ids_in table id
unfolding members_of member_ids_in find
members_of-nodes [] id = refl
members_of-nodes ((k, g) ∷ table) id = elim (Bool-cases (k == id)) [
  | inl hit ↦ rw (hit, members_of, member_ids_in) refl
  | inr miss ↦ rw (miss, members_of, member_ids_in) (members_of-nodes table id)
]

-- The two checks look at the same graph.
NestedBelow-nested :
    (groups : List Group) (g : String)
    → NestedBelow (table_of groups) g g
    → Nests
        (keys (groups_by_id (map node groups)))
        (members_of (groups_by_id (map node groups)))
        g
        g
unfolding table_of groups_by_id
NestedBelow-nested groups g n =
    subst (λ (ns : List Node). Nests (keys ns) (members_of ns) g g) (table_from-nodes groups [])
      (subst (λ (ks : List String). Nests ks (members_of (map entry_node table)) g g)
        (sym (keys-nodes table))
        (subst (λ (f : String → List String). Nests (keys table) f g g)
          (λ i id. sym (members_of-nodes table id) i) n))
  where
    table : Table
    table = table_from groups []

-- In a sound directory an active user has exactly the assignment, if there is one, that the user's own row and
-- all the groups that the user is in agree on: no cycle of groups ever takes it away.
pub resolved_identity-IsSound :
    (rt : Runtime) (d : Directory) (user : User)
    → IsSound rt d
    → user.active ≡ true
    → (o : Option Assignment) × (resolved_identity rt user d.groups ≡ ok o)
      × ((a : Assignment)
          → (o ≡ some a)
            ↔ (Grants rt user d.groups a × ((b : Assignment) → Grants rt user d.groups b → b ≡ a)))
resolved_identity-IsSound rt d user sound active =
    let (o, same, iff) = resolved_identity_iff rt user d.groups in
    (
      o,
      same,
      λ a. (
        (λ e. let (_, _, g, only) = (iff a).0 e in (g, only)),
        (λ s.
            (iff a).1
              (active, (λ g n. sound.graph.1 g (NestedBelow-nested d.groups g n)), s.0, s.1)),
      ),
    )
