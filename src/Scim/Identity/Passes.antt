-- ===== src/Scim/Identity/Passes.antt =====
-- The groups that a user is in, and what one pass over the groups adds to a list of them.
use breach_scope.Prelude.{
  ◌≤◌, ◌<◌, String, ◌≡◌, ◌↔◌, refl, sym, ap, subst, ◌⊎◌, inl, inr, Bool, true, false, not, List, [],
  ◌∷◌, ◌++◌, arith, keep, length, length-append, member, member_iff, In, In-keep, In-keep_of,
  In-append, In-append_left, Distinct, append-Distinct, Bool-cases,
}
use breach_scope.Prelude.Dict.{keys, In-keys}
use breach_scope.Scim.Records.{Group}
use breach_scope.Scim.Graph.Search.{Within}
use breach_scope.Scim.Identity.{Table, has_user, direct_groups, meets, grow}

-- The user is a member of the group, or of a group that is nested in it, however deep. A member's id counts
-- for a user only if no group has it.
pub data IsIn (user_id : String) (table : Table) : String → Type 0 where
  as_member :
      {id : String} (group : Group)
      → In (id, group) table
      → In user_id group.member_ids
      → (¬ In user_id (keys table))
      → IsIn user_id table id
  by_nesting :
      {id : String} (nested : String) (group : Group)
      → In (id, group) table
      → In nested group.member_ids
      → IsIn user_id table nested
      → IsIn user_id table id

pub IsIn-key :
    {user_id : String} {table : Table} {id : String} → IsIn user_id table id → In id (keys table)
IsIn-key {table = table} {id = id} (as_member g m k free) = In-keys id g table m
IsIn-key {table = table} {id = id} (by_nesting h g m k n) = In-keys id g table m

meets_iff :
    (ids effective : List String)
    → (meets ids effective ≡ true) ↔ ((id : String) × In id ids × In id effective)
unfolding meets
meets_iff [] effective = ((λ h. cc (h)), (λ s. elim s.1 [ ]))
meets_iff (id ∷ ids) effective = elim (Bool-cases (member id effective)) [
  | inl there ↦ rw there ((λ h. (id, inl refl, (member_iff id effective).0 there)), (λ s. refl))
  | inr absent ↦ rw absent (
    (λ h. let (i, m, k) = (meets_iff ids effective).0 h in (i, inr m, k)),
    (λ s. elim s.1 [
      | inl e ↦
          cc (absent, (member_iff id effective).1 (subst (λ (t : String). In t effective) e s.2))
      | inr m ↦ (meets_iff ids effective).1 (s.0, m, s.2)
    ]),
  )
]

has_user_iff :
    (user_id : String) (ids : List String) (group : Group)
    → (has_user user_id ids group ≡ true) ↔ (In user_id group.member_ids × (¬ In user_id ids))
unfolding has_user
has_user_iff user_id ids group = (
  (λ h.
      let (m, free) =
        In-keep (λ value. not (member value ids)) user_id group.member_ids
          ((member_iff user_id (keep (λ value. not (member value ids)) group.member_ids)).0 h) in
      (m, λ k. cc (free, (member_iff user_id ids).1 k))),
  (λ s. (member_iff user_id (keep (λ value. not (member value ids)) group.member_ids)).1 (
      In-keep_of (λ value. not (member value ids)) user_id group.member_ids s.0
        (ground (arith, member_iff user_id ids, s.1)))),
)

module _ (user_id : String) (table : Table) where
  abbrev pub Direct : String → Table → Type 0
  Direct id rows =
      (group : Group) × In (id, group) rows
      × In user_id group.member_ids
      × (¬ In user_id (keys table))

  pub In-direct_groups :
      (rows : Table) (id : String)
      → In id (direct_groups user_id (keys table) rows) ↔ Direct id rows
  unfolding direct_groups
  In-direct_groups [] id = ((λ m. elim m [ ]), (λ s. elim s.1 [ ]))
  In-direct_groups ((i, group) ∷ rows) id =
      elim (Bool-cases (has_user user_id (keys table) group)) [
        | inl has ↦ rw has (
          (λ m. elim m [
            | inl e ↦
                let (k, free) = (has_user_iff user_id (keys table) group).0 has in
                (group, inl (ap (λ (t : String). (t, group)) e), k, free)
            | inr l ↦ let (g, k, x, free) = (In-direct_groups rows id).0 l in (g, inr k, x, free)
          ]),
          (λ s. elim s.1 [
            | inl e ↦ inl (ap (λ (p : String × Group). p.0) e)
            | inr k ↦ inr ((In-direct_groups rows id).1 (s.0, k, s.2, s.3))
          ]),
        )
        | inr lacks ↦ rw lacks (
          (λ m. let (g, k, x, free) = (In-direct_groups rows id).0 m in (g, inr k, x, free)),
          (λ s. elim s.1 [
            | inl e ↦ cc (
              lacks,
              (has_user_iff user_id (keys table) group).1 (
                subst (λ (g : Group). In user_id g.member_ids) (ap (λ (p : String × Group). p.1) e)
                    s.2,
                s.3,
              ),
            )
            | inr k ↦ (In-direct_groups rows id).1 (s.0, k, s.2, s.3)
          ]),
        )
      ]

  pub direct-Distinct :
      (rows : Table) → Distinct (keys rows) → Distinct (direct_groups user_id (keys table) rows)
  unfolding direct_groups
  direct-Distinct [] d = d
  direct-Distinct ((i, group) ∷ rows) d = elim (Bool-cases (has_user user_id (keys table) group)) [
    | inl has ↦ rw has (
      (λ m. let (g, k, _, _) = (In-direct_groups rows i).0 m in d.0 (In-keys i g rows k)),
      direct-Distinct rows d.1,
    )
    | inr lacks ↦ rw lacks (direct-Distinct rows d.1)
  ]

  -- A group of the rows that contains a group of the list stands in the list.
  abbrev pub IsClosed : Table → List String → Type 0
  IsClosed rows effective =
      (id nested : String) (group : Group)
      → In (id, group) rows
      → In nested group.member_ids
      → In nested (keys table)
      → In nested effective
      → In id effective

  -- What one pass does to a list of groups that the user is in.
  pub record Grows (rows : Table) (effective : List String) (changed : Bool)
      (outcome : List String × Bool) : Type 0 where
    pub kept : Within effective outcome.0
    pub sound : ((id : String) → In id outcome.0 → IsIn user_id table id)
    pub distinct : Distinct outcome.0
    pub grew : outcome.1 ≡ true → (changed ≡ true) ⊎ (length effective < length outcome.0)
    pub longer : length effective ≤ length outcome.0
    pub settled :
        outcome.1 ≡ false → (changed ≡ false) × (outcome.0 ≡ effective) × IsClosed rows effective

  Grows-end :
      (effective : List String) (changed : Bool)
      → ((id : String) → In id effective → IsIn user_id table id)
      → Distinct effective
      → Grows [] effective changed (effective, changed)
  Grows-end effective changed sound distinct = record {
    kept = λ i m. m;
    sound = sound;
    distinct = distinct;
    grew = λ h. inl h;
    longer = omega arith;
    settled = λ h. (h, refl, λ i n g m. elim m [ ]);
  }

  -- A row that adds nothing.
  Grows-skip :
      (id : String) (group : Group) (rows : Table) (effective : List String) (changed : Bool)
      (outcome : List String × Bool)
      → ((nested : String)
          → In nested group.member_ids
          → In nested (keys table)
          → In nested effective
          → In id effective)
      → Grows rows effective changed outcome
      → Grows ((id, group) ∷ rows) effective changed outcome
  Grows-skip id group rows effective changed outcome here g = record {
    kept = g.kept;
    sound = g.sound;
    distinct = g.distinct;
    grew = g.grew;
    longer = g.longer;
    settled = λ h.
        let (was, same, closed) = g.settled h in
        (
          was,
          same,
          λ i n gr m. elim m [
            | inl e ↦ λ x k y.
                subst (λ (p : String × Group). In p.0 effective) (sym e)
                  (here n (subst (λ (p : String × Group). In n p.1.member_ids) e x) k y)
            | inr l ↦ closed i n gr l
          ],
        );
  }

  -- A row that is added.
  Grows-add :
      (id : String) (group : Group) (rows : Table) (effective : List String) (changed : Bool)
      (outcome : List String × Bool)
      → Grows rows (effective ++ id ∷ []) true outcome
      → Grows ((id, group) ∷ rows) effective changed outcome
  Grows-add id group rows effective changed outcome g = record {
    kept = λ i m. g.kept i (In-append_left i effective (id ∷ []) m);
    sound = g.sound;
    distinct = g.distinct;
    grew = λ h. inr (omega (arith, g.longer, length-append effective (id ∷ [])));
    longer = omega (arith, g.longer, length-append effective (id ∷ []));
    settled = λ h. cc ((g.settled h).0);
  }

  pub grow-Grows :
      (rows : Table) (effective : List String) (changed : Bool)
      → ((i : String) (g : Group) → In (i, g) rows → In (i, g) table)
      → ((id : String) → In id effective → IsIn user_id table id)
      → Distinct effective
      → Grows rows effective changed (grow (keys table) rows effective changed)
  unfolding grow
  grow-Grows [] effective changed within sound distinct = Grows-end effective changed sound distinct
  grow-Grows ((id, group) ∷ rows) effective changed within sound distinct =
      elim (Bool-cases (member id effective)) [
        | inl there ↦ rw there (
            Grows-skip id group rows effective changed _
              (λ n x k y. (member_iff id effective).0 there)
              (grow-Grows rows effective changed (λ i g m. within i g (inr m)) sound distinct))
        | inr absent ↦ rw absent (elim (Bool-cases (meets nested_ids effective)) [
          | inl some_nested ↦ rw some_nested (
              Grows-add id group rows effective changed _ (
                grow-Grows rows (effective ++ id ∷ []) true (λ i g m. within i g (inr m))
                  (λ i m. elim (In-append i effective (id ∷ []) m) [
                    | inl old ↦ sound i old
                    | inr new ↦ elim new [
                      | inl same ↦
                          subst (λ (t : String). IsIn user_id table t) (sym same)
                            (inside some_nested)
                      | inr n ↦ elim n [ ]
                    ]
                  ])
                  (snoc absent)))
          | inr none_nested ↦ rw none_nested (
              Grows-skip id group rows effective changed _
                (λ n x k y.
                  cc (none_nested, (meets_iff nested_ids effective).1 (n, nested_of n x k, y)))
                (grow-Grows rows effective changed (λ i g m. within i g (inr m)) sound distinct))
        ])
      ]
    where
      nested_ids : List String
      nested_ids = keep (λ value. member value (keys table)) group.member_ids

      nested_of : (n : String) → In n group.member_ids → In n (keys table) → In n nested_ids
      nested_of n x k =
          In-keep_of (λ value. member value (keys table)) n group.member_ids x
            ((member_iff n (keys table)).1 k)

      inside : meets nested_ids effective ≡ true → IsIn user_id table id
      inside h =
          let (n, m, k) = (meets_iff nested_ids effective).0 h in
          by_nesting n group (within id group (inl refl))
            (In-keep (λ value. member value (keys table)) n group.member_ids m).0 (sound n k)

      snoc : member id effective ≡ false → Distinct (effective ++ id ∷ [])
      snoc absent =
          append-Distinct id effective (λ m. cc (absent, (member_iff id effective).1 m)) distinct
      -- What the loop returns.
