-- ===== src/Scim/Graph/Examples.antt =====
-- The verdict on a graph with a group that contains another one.
use breach_scope.Prelude.{List, [], ◌∷◌}
use breach_scope.Scim.Graph.{Node, validate_group_graph}
use breach_scope.Scim.Graph.Verdict.{Verdict, verdict}

abbrev nested : List Node
nested = ("g1", "u1" ∷ "g2" ∷ []) ∷ ("g2", "u1" ∷ []) ∷ []

verdict_example : Verdict ("u1" ∷ []) nested (validate_group_graph ("u1" ∷ []) nested)
verdict_example = verdict ("u1" ∷ []) nested
