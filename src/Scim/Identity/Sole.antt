-- ===== src/Scim/Identity/Sole.antt =====
-- The identity that is resolved for a user: when there is one, and which.
use breach_scope.Prelude.{
  String, ◌≡◌, ◌↔◌, refl, sym, ap, subst, ◌∙◌, ◌⊎◌, inl, inr, true, Option, none, some, List, [],
  ◌∷◌, In, Distinct, Bool-cases, some-eq-some,
}
use breach_scope.Prelude.Dict.{find, keys, In-find, find_of_In}
use breach_scope.Prelude.Result.{Result, ok, err, ◌>>=◌}
use breach_scope.Scim.Records.{User, Group, Runtime}
use breach_scope.Scim.Identity.{
  IdentityError, missing_key, Assignment, Table, table_of, is_acyclic, effective_groups, add_if,
  sole, normalized_assignment, group_assignments, resolved_identity,
}
use breach_scope.Scim.Identity.Effective.{effective_groups_total}
use breach_scope.Scim.Identity.Passes.{IsIn, IsIn-key}
use breach_scope.Scim.Identity.Assignments.{
  table_of-Distinct, NestedBelow, is_acyclic_iff, In-add_if, add_if-Distinct, sole_iff, find_of_key,
}

module _ (rt : Runtime) (table : Table) where
  -- Some group of the list gives the assignment.
  abbrev FromGroups : List String → Assignment → Type 0
  FromGroups ids b =
      (id : String) × (group : Group) × In id ids
      × (find id table ≡ some group)
      × (normalized_assignment rt group.role group.organization_id ≡ some b)

  pub record Collects (ids : List String) (assignments out : List Assignment) : Type 0 where
    pub distinct : Distinct out
    pub holds : (b : Assignment) → In b out ↔ (FromGroups ids b ⊎ In b assignments)

  unfoldable next :
      (id : String) (ids : List String) (assignments : List Assignment) (o : Option Group)
      → Result IdentityError (List Assignment)
  next id ids assignments none = err missing_key
  next id ids assignments (some group) =
      group_assignments rt table ids
        (add_if (normalized_assignment rt group.role group.organization_id) assignments)

  group_assignments-Collects :
      (ids : List String) (assignments : List Assignment)
      → ((id : String) → In id ids → In id (keys table))
      → Distinct assignments
      → (out : List Assignment) × (group_assignments rt table ids assignments ≡ ok out)
        × Collects ids assignments out
  unfolding group_assignments next
  group_assignments-Collects [] assignments within d = (
    assignments,
    refl,
    record {
      distinct = d;
      holds = λ b. ((λ m. inr m), (λ s. elim s [ inl f ↦ elim f.2 [ ] | inr m ↦ m ]));
    },
  )
  group_assignments-Collects (id ∷ ids) assignments within d =
      let (group, found) = find_of_key id table (within id (inl refl)) in
      let o = normalized_assignment rt group.role group.organization_id in
      let (out, same, c) =
        group_assignments-Collects ids (add_if o assignments) (λ i m. within i (inr m))
          (add_if-Distinct o assignments d) in
      (
        out,
        ap (next id ids assignments) found ∙ same,
        record {
          distinct = c.distinct;
          holds = λ b. (
            (λ m. elim ((c.holds b).0 m) [
              | inl f ↦ inl (f.0, f.1, inr f.2, f.3, f.4)
              | inr k ↦ elim ((In-add_if o b assignments).0 k) [
                | inl e ↦ inl (id, group, inl refl, found, e)
                | inr l ↦ inr l
              ]
            ]),
            (λ s. (c.holds b).1 (elim s [
              | inl f ↦ elim f.2 [
                | inl e ↦ inr (
                    (In-add_if o b assignments).1 (
                      inl (
                        subst
                          (λ (g : Group).
                            normalized_assignment rt g.role g.organization_id ≡ some b)
                          (some-eq-some (sym f.3 ∙ (ap (λ (t : String). find t table) e ∙ found)))
                          f.4)))
                | inr m ↦ inl (f.0, f.1, m, f.3, f.4)
              ]
              | inr m ↦ inr ((In-add_if o b assignments).1 (inr m))
            ])),
          );
        },
      )

module _ (rt : Runtime) (user : User) (groups : List Group) where
  -- The row of the user gives the assignment, or a group does that the user is in.
  abbrev pub Grants : Assignment → Type 0
  Grants b =
      (normalized_assignment rt user.role user.organization_id ≡ some b)
      ⊎ ((id : String) × (group : Group) × In (id, group) (table_of groups)
          × IsIn user.id (table_of groups) id
          × (normalized_assignment rt group.role group.organization_id ≡ some b))

  -- The user is active, no group lies within itself, and all that is granted is the one assignment.
  abbrev pub IsSoleGrant : Assignment → Type 0
  IsSoleGrant a =
      (user.active ≡ true)
      × ((g : String) → ¬ NestedBelow (table_of groups) g g)
      × Grants a
      × ((b : Assignment) → Grants b → b ≡ a)

  -- What the resolution returns for an active user and groups without a cycle.
  abbrev resolved : Result IdentityError (Option Assignment)
  resolved = effective_groups user.id (table_of groups) >>= λ effective.
      group_assignments rt (table_of groups) effective
        (add_if (normalized_assignment rt user.role user.organization_id) [])
      >>= λ assignments. ok (sole assignments)

  resolved_total :
      (o : Option Assignment) × (resolved ≡ ok o)
      × ((a : Assignment) → (o ≡ some a) ↔ (Grants a × ((b : Assignment) → Grants b → b ≡ a)))
  unfolding effective_groups
  resolved_total =
      let table = table_of groups in
      let own = normalized_assignment rt user.role user.organization_id in
      let (effective, same, _, members) =
        effective_groups_total user.id table (table_of-Distinct groups) in
      let (out, same', c) =
        group_assignments-Collects rt table effective (add_if own [])
          (λ i m. IsIn-key ((members i).0 m)) (add_if-Distinct own [] tt) in
      let to : (b : Assignment) → In b out → Grants b = λ b m. elim ((c.holds b).0 m) [
        | inl f ↦ inr (f.0, f.1, In-find f.0 table f.1 f.3, (members f.0).0 f.2, f.4)
        | inr k ↦ elim ((In-add_if own b []).0 k) [ inl e ↦ inl e | inr n ↦ elim n [ ] ]
      ] in
      let from : (b : Assignment) → Grants b → In b out = λ b g. (c.holds b).1 (elim g [
        | inl e ↦ inr ((In-add_if own b []).1 (inl e))
        | inr f ↦ inl (
          f.0,
          f.1,
          (members f.0).1 f.3,
          find_of_In f.0 f.1 table (table_of-Distinct groups) f.2,
          f.4,
        )
      ]) in
      (
        sole out,
        ap
              (λ (r : Result IdentityError (List String)). r >>= λ effective.
                group_assignments rt table effective (add_if own []) >>= λ assignments.
                ok (sole assignments))
              same
            ∙ ap
                (λ (r : Result IdentityError (List Assignment)).
                  r >>= λ assignments. ok (sole assignments))
                same',
        λ a. (
          (λ e.
              let (m, only) = (sole_iff out a c.distinct).0 e in
              (to a m, λ b g. only b (from b g))),
          (λ s. (sole_iff out a c.distinct).1 (from a s.0, λ b m. s.1 b (to b m))),
        ),
      )

  -- The resolution always returns. It gives an identity exactly when the user is active, no group lies within
  -- itself, and the assignments of the user's own row and of every group that the user is in, by membership or by
  -- nesting to any depth, are one and the same, which is then the identity; otherwise it gives none.
  pub resolved_identity_iff :
      (o : Option Assignment) × (resolved_identity rt user groups ≡ ok o)
      × ((a : Assignment) → (o ≡ some a) ↔ IsSoleGrant a)
  unfolding resolved_identity
  resolved_identity_iff = elim (Bool-cases user.active) [
    | inr inactive ↦ rw inactive (none, refl, λ a. ((λ e. cc (e)), (λ s. cc (s.0))))
    | inl active ↦ elim (Bool-cases (is_acyclic (table_of groups))) [
      | inr cyclic ↦ rw active (
          rw cyclic (
            none,
            refl,
            λ a. ((λ e. cc (e)), (λ s. cc (cyclic, (is_acyclic_iff (table_of groups)).1 s.1))),
          ))
      | inl acyclic ↦
          let (o, same, iff) = resolved_total in
          rw active (
            rw acyclic (
              o,
              same,
              λ a. (
                (λ e.
                    let (g, only) = (iff a).0 e in
                    (refl, (is_acyclic_iff (table_of groups)).0 acyclic, g, only)),
                (λ s. (iff a).1 (s.2, s.3)),
              ),
            ))
    ]
  ]
