-- ===== src/Scim/Graph/Verdict.antt =====
-- The verdict of `validate_group_graph`, whatever the rows.
use breach_scope.Prelude.{
  String, subst, ◌⊎◌, inl, inr, ◌&&◌, not, Option, none, some, List, [], ◌∷◌, All, In, member,
  member_iff, Bool-cases, Option-cases,
}
use breach_scope.Prelude.Dict.{find, keys, In-keys_of_find}
use breach_scope.Prelude.Result.{Result, ok, err, guard, ◌>>◌}
use breach_scope.Scim.Graph.{
  GraphError, ambiguous, unknown, cycle, exhausted, Node, groups_by_id, members_of, check_members,
  check_rows, visit_all, validate_group_graph,
}
use breach_scope.Scim.Graph.Search.{
  direct, through, Nests, InOrder-acyclic, Reaches, visit_all-Reaches,
}

module _ (users ids : List String) where
  -- The id names a user or a group, and not both.
  abbrev pub IsOne : String → Type 0
  IsOne m = In m users × (¬ In m ids) ⊎ In m ids × (¬ In m users)

  abbrev pub IsResolved : List Node → Type 0
  IsResolved [] = Unit
  IsResolved ((id, members) ∷ rows) = All IsOne members × IsResolved rows

  -- What the outcome of the first loop says.
  abbrev pub Tells : Type 0 → Result GraphError (Unit {0}) → Type 0
  Tells P (ok _) = P
  Tells P (err ambiguous) = ¬ P
  Tells P (err unknown) = ¬ P
  Tells P (err cycle) = ⊥
  Tells P (err exhausted) = ⊥

  Tells-then :
      (P Q : Type 0) (r s : Result GraphError (Unit {0}))
      → Tells P r
      → Tells Q s
      → Tells (P × Q) (r >> s)
  Tells-then P Q (ok _) (ok _) h k = (h, k)
  Tells-then P Q (ok _) (err ambiguous) h k = λ both. k both.1
  Tells-then P Q (ok _) (err unknown) h k = λ both. k both.1
  Tells-then P Q (ok _) (err cycle) h k = k
  Tells-then P Q (ok _) (err exhausted) h k = k
  Tells-then P Q (err ambiguous) s h k = λ both. h both.0
  Tells-then P Q (err unknown) s h k = λ both. h both.0
  Tells-then P Q (err cycle) s h k = h
  Tells-then P Q (err exhausted) s h k = h

  guards-Tells :
      (m : String)
      → Tells (IsOne m) (
          guard (not (member m users && member m ids)) ambiguous
          >> guard (not (not (member m users) && not (member m ids))) unknown)
  guards-Tells m = elim (Bool-cases (member m users)) [
    | inl u ↦ elim (Bool-cases (member m ids)) [
      | inl g ↦ rw u (
          rw g (λ one. elim one [
            | inl a ↦ a.1 ((member_iff m ids).0 g)
            | inr b ↦ b.1 ((member_iff m users).0 u)
          ]))
      | inr g ↦ rw u (rw g (inl ((member_iff m users).0 u, λ k. cc (g, (member_iff m ids).1 k))))
    ]
    | inr u ↦ elim (Bool-cases (member m ids)) [
      | inl g ↦ rw u (rw g (inr ((member_iff m ids).0 g, λ k. cc (u, (member_iff m users).1 k))))
      | inr g ↦ rw u (
          rw g (λ one. elim one [
            | inl a ↦ cc (u, (member_iff m users).1 a.0)
            | inr b ↦ cc (g, (member_iff m ids).1 b.0)
          ]))
    ]
  ]

  regroup :
      (P : Type 0) (r s t : Result GraphError (Unit {0}))
      → Tells P ((r >> s) >> t)
      → Tells P (r >> (s >> t))
  regroup P (ok _) s t h = h
  regroup P (err ambiguous) s t h = h
  regroup P (err unknown) s t h = h
  regroup P (err cycle) s t h = h
  regroup P (err exhausted) s t h = h

  check_members-Tells : (ms : List String) → Tells (All IsOne ms) (check_members users ids ms)
  unfolding check_members
  check_members-Tells [] = tt
  check_members-Tells (m ∷ ms) =
      let one = guard (not (member m users && member m ids)) ambiguous in
      let two = guard (not (not (member m users) && not (member m ids))) unknown in
      regroup (IsOne m × All IsOne ms) one two (check_members users ids ms) (
        Tells-then (IsOne m) (All IsOne ms) (one >> two) (check_members users ids ms)
          (guards-Tells m) (check_members-Tells ms))

  check_rows-Tells : (rows : List Node) → Tells (IsResolved rows) (check_rows users ids rows)
  unfolding check_rows
  check_rows-Tells [] = tt
  check_rows-Tells ((id, members) ∷ rows) =
      Tells-then (All IsOne members) (IsResolved rows) (check_members users ids members)
        (check_rows users ids rows) (check_members-Tells members) (check_rows-Tells rows)

-- The members of the groups that a check of `rows` sees, each a user or a group and not both.
abbrev pub Resolves : List String → List Node → Type 0
Resolves users rows = IsResolved users (keys (groups_by_id rows)) (groups_by_id rows)

-- Membership between groups, over one step or more.
abbrev pub NestedIn : List Node → String → String → Type 0
NestedIn rows = Nests (keys (groups_by_id rows)) (members_of (groups_by_id rows))

abbrev pub Verdict : List String → List Node → Result GraphError (Unit {0}) → Type 0
Verdict users rows (ok _) = Resolves users rows × ((g : String) → ¬ NestedIn rows g g)
Verdict users rows (err ambiguous) = ¬ Resolves users rows
Verdict users rows (err unknown) = ¬ Resolves users rows
Verdict users rows (err cycle) = Resolves users rows × ((g : String) × NestedIn rows g g)
Verdict users rows (err exhausted) = ⊥

-- Only a group has members.
In-ids_of_member :
    (by_id : List Node) (g m : String) → In m (members_of by_id g) → In g (keys by_id)
unfolding members_of
In-ids_of_member by_id g m h = elim (Option-cases (find g by_id)) [
  | inl absent ↦
      let none_has : In m [] =
        subst (λ (o : Option (List String)). In m (elim o [ none ↦ [] | some ms ↦ ms ])) absent h in
      elim none_has [ ]
  | inr (members, e) ↦ In-keys_of_find g by_id e
]

first_group :
    (by_id : List Node) {g h : String}
    → Nests (keys by_id) (members_of by_id) g h
    → In g (keys by_id)
first_group by_id {g} (direct {h = k} c) = In-ids_of_member by_id g k c.0
first_group by_id {g} (through {h = k} c n) = In-ids_of_member by_id g k c.0

-- The check passes exactly when every member of a group is a user or a group and not both, and no
-- group lies within itself over one membership or more. It says `cycle` only if there is such a group,
-- `ambiguous` or `unknown` only if some member is not exactly one of the two, and it never runs out of
-- fuel: the search ends, at a depth of at most the number of groups.
pub verdict :
    (users : List String) (rows : List Node) → Verdict users rows (validate_group_graph users rows)
unfolding validate_group_graph
verdict users rows =
    let by_id = groups_by_id rows in
    join (check_rows users (keys by_id) by_id)
      (visit_all (keys by_id) (members_of by_id) (keys by_id))
      (check_rows-Tells users (keys by_id) by_id)
      (visit_all-Reaches (keys by_id) (members_of by_id) (keys by_id) (λ s m. m))
  where
    join :
        (r : Result GraphError (Unit {0})) (s : Result GraphError (List String))
        → Tells users (keys (groups_by_id rows)) (Resolves users rows) r
        → Reaches
            (keys (groups_by_id rows))
            (members_of (groups_by_id rows))
            (keys (groups_by_id rows))
            []
            s
        → Verdict users rows (r >> (s >> ok tt))
    join (ok _) (ok v) h k = (
      h,
      λ g n. let i = first_group (groups_by_id rows) n in InOrder-acyclic _ _ v k.0 (k.2 g i i) n,
    )
    join (ok _) (err cycle) h k = (h, k)
    join (ok _) (err ambiguous) h k = elim k [ ]
    join (ok _) (err unknown) h k = elim k [ ]
    join (ok _) (err exhausted) h k = k
    join (err ambiguous) s h k = h
    join (err unknown) s h k = h
    join (err cycle) s h k = elim h [ ]
    join (err exhausted) s h k = h
