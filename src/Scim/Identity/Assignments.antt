-- ===== src/Scim/Identity/Assignments.antt =====
-- The table of the groups, the test for cycles, and the assignments one group gives.
use breach_scope.Prelude.{
  String, ◌≡◌, ◌↔◌, refl, sym, ap, ◌∙◌, ◌⊎◌, inl, inr, Bool, true, false, Option, none, some, List,
  [], ◌∷◌, ◌==◌, arith, eq_iff, In, Distinct, Bool-cases, some-eq-some,
}
use breach_scope.Prelude.Dict.{find, put, keys}
use breach_scope.Prelude.Result.{Result, ok, err}
use breach_scope.Scim.Records.{Group}
use breach_scope.Scim.Graph.{GraphError, ambiguous, unknown, cycle, visit_all}
use breach_scope.Scim.Graph
use breach_scope.Scim.Graph.Search.{
  Nests, direct, through, Reaches, InOrder-acyclic, visit_all-Reaches,
}
use breach_scope.Scim.Identity.{
  Assignment, Table, table_from, table_of, member_ids_in, is_acyclic, same_assignment,
  add_assignment, add_if, sole,
}

In-keys_of_put :
    (key : String) (group : Group) (table : Table) (k : String)
    → In k (keys (put key group table))
    → (k ≡ key) ⊎ In k (keys table)
unfolding put
In-keys_of_put key group [] k (inl e) = inl e
In-keys_of_put key group [] k (inr n) = elim n [ ]
In-keys_of_put key group ((i, g) ∷ table) k m = elim (Bool-cases (i == key)) [
  | inl hit ↦ inr (rw hit at m)
  | inr miss ↦ elim (rw miss at m) [
    | inl e ↦ inr (inl e)
    | inr l ↦ elim (In-keys_of_put key group table k l) [ inl e ↦ inl e | inr o ↦ inr (inr o) ]
  ]
]

put-Distinct :
    (key : String) (group : Group) (table : Table)
    → Distinct (keys table)
    → Distinct (keys (put key group table))
unfolding put
put-Distinct key group [] d = ((λ n. elim n [ ]), tt)
put-Distinct key group ((i, g) ∷ table) d = elim (Bool-cases (i == key)) [
  | inl hit ↦ rw hit d
  | inr miss ↦ rw miss (
    (λ m. elim (In-keys_of_put key group table i m) [
      | inl e ↦ cc (miss, (eq_iff i key).1 e)
      | inr o ↦ d.0 o
    ]),
    put-Distinct key group table d.1,
  )
]

table_from-Distinct :
    (groups : List Group) (table : Table)
    → Distinct (keys table)
    → Distinct (keys (table_from groups table))
unfolding table_from
table_from-Distinct [] table d = d
table_from-Distinct (g ∷ groups) table d = elim (Bool-cases (g.id == "")) [
  | inl empty ↦ rw empty (table_from-Distinct groups table d)
  | inr full ↦ rw full (table_from-Distinct groups (put g.id g table) (put-Distinct g.id g table d))
]

pub table_of-Distinct : (groups : List Group) → Distinct (keys (table_of groups))
unfolding table_of
table_of-Distinct groups = table_from-Distinct groups [] tt

-- The group `h` is among the members of `g`, over one step or more.
abbrev pub NestedBelow : Table → String → String → Type 0
NestedBelow table = Nests (keys table) (member_ids_in table)

last_group :
    (ids : List String) (members : String → List String) {g h : String}
    → Nests ids members g h
    → In h ids
last_group ids members (direct c) = c.1
last_group ids members (through c n) = last_group ids members n

pub is_acyclic_iff :
    (table : Table) → (is_acyclic table ≡ true) ↔ ((g : String) → ¬ NestedBelow table g g)
unfolding is_acyclic
is_acyclic_iff table =
    go (visit_all (keys table) (member_ids_in table) (keys table))
      (visit_all-Reaches (keys table) (member_ids_in table) (keys table) (λ s m. m))
  where
    go :
        (r : Result GraphError (List String))
        → Reaches (keys table) (member_ids_in table) (keys table) [] r
        → ((elim r as (λ x. Bool) [ ok visited ↦ true | err e ↦ false ]) ≡ true)
          ↔ ((g : String) → ¬ NestedBelow table g g)
    go (ok v) h = (
      (λ t g n.
          let i = last_group (keys table) (member_ids_in table) n in
          InOrder-acyclic (keys table) (member_ids_in table) v h.0 (h.2 g i i) n),
      (λ t. refl),
    )
    go (err cycle) h = ((λ t. cc (t)), (λ a. absurd (a h.0 h.1)))
    go (err ambiguous) h = elim h [ ]
    go (err unknown) h = elim h [ ]
    go (err Graph.exhausted) h = elim h [ ]

same_assignment_iff : (a b : Assignment) → (same_assignment a b ≡ true) ↔ (a ≡ b)
same_assignment_iff a b = (
  (λ h.
      let e : a.0 ≡ b.0 = ground (arith, h, eq_iff a.0 b.0) in
      let f : a.1 ≡ b.1 = ground (arith, h, eq_iff a.1 b.1) in λ i. (e i, f i)),
  (λ e.
      let e0 = ap (λ (p : Assignment). p.0) e in
      let e1 = ap (λ (p : Assignment). p.1) e in
      ground (arith, e0, e1, eq_iff a.0 b.0, eq_iff a.1 b.1)),
)

In-add_assignment :
    (a b : Assignment) (xs : List Assignment) → In b (add_assignment a xs) ↔ ((b ≡ a) ⊎ In b xs)
unfolding add_assignment
In-add_assignment a b [] = ((λ m. m), (λ m. m))
In-add_assignment a b (x ∷ xs) = elim (Bool-cases (same_assignment x a)) [
  | inl hit ↦ rw hit (
    (λ m. inr m),
    (λ m. elim m [ inl e ↦ inl (e ∙ sym ((same_assignment_iff x a).0 hit)) | inr k ↦ k ]),
  )
  | inr miss ↦ rw miss (
    (λ m. elim m [
      | inl e ↦ inr (inl e)
      | inr k ↦ elim ((In-add_assignment a b xs).0 k) [ inl e ↦ inl e | inr l ↦ inr (inr l) ]
    ]),
    (λ m. elim m [
      | inl e ↦ inr ((In-add_assignment a b xs).1 (inl e))
      | inr k ↦ elim k [ inl e ↦ inl e | inr l ↦ inr ((In-add_assignment a b xs).1 (inr l)) ]
    ]),
  )
]

add_assignment-Distinct :
    (a : Assignment) (xs : List Assignment) → Distinct xs → Distinct (add_assignment a xs)
unfolding add_assignment
add_assignment-Distinct a [] d = ((λ n. elim n [ ]), tt)
add_assignment-Distinct a (x ∷ xs) d = elim (Bool-cases (same_assignment x a)) [
  | inl hit ↦ rw hit d
  | inr miss ↦ rw miss (
    (λ m. elim ((In-add_assignment a x xs).0 m) [
      | inl e ↦ cc (miss, (same_assignment_iff x a).1 e)
      | inr l ↦ d.0 l
    ]),
    add_assignment-Distinct a xs d.1,
  )
]

pub In-add_if :
    (o : Option Assignment) (b : Assignment) (xs : List Assignment)
    → In b (add_if o xs) ↔ ((o ≡ some b) ⊎ In b xs)
unfolding add_if
In-add_if none b xs = ((λ m. inr m), (λ s. elim s [ inl e ↦ cc (e) | inr m ↦ m ]))
In-add_if (some a) b xs = (
  (λ m. elim ((In-add_assignment a b xs).0 m) [ inl e ↦ inl (ap some (sym e)) | inr k ↦ inr k ]),
  (λ s.
      (In-add_assignment a b xs).1 (elim s [ inl e ↦ inl (sym (some-eq-some e)) | inr m ↦ inr m ])),
)

pub add_if-Distinct :
    (o : Option Assignment) (xs : List Assignment) → Distinct xs → Distinct (add_if o xs)
unfolding add_if
add_if-Distinct none xs d = d
add_if-Distinct (some a) xs d = add_assignment-Distinct a xs d

pub sole_iff :
    (xs : List Assignment) (a : Assignment)
    → Distinct xs
    → (sole xs ≡ some a) ↔ (In a xs × ((b : Assignment) → In b xs → b ≡ a))
unfolding sole
sole_iff [] a d = ((λ h. cc (h)), (λ s. elim s.0 [ ]))
sole_iff (x ∷ []) a d = (
  (λ h.
      let e : x ≡ a = some-eq-some h in
      (inl (sym e), λ b m. elim m [ inl f ↦ f ∙ e | inr n ↦ elim n [ ] ])),
  (λ s. ap some (s.1 x (inl refl))),
)
sole_iff (x ∷ y ∷ xs) a d =
    ((λ h. cc (h)), (λ s. absurd (d.0 (inl (s.1 x (inl refl) ∙ sym (s.1 y (inr (inl refl))))))))

pub find_of_key :
    (key : String) (table : Table)
    → In key (keys table)
    → (group : Group) × (find key table ≡ some group)
unfolding find
find_of_key key [] m = elim m [ ]
find_of_key key ((k, g) ∷ table) m = elim (Bool-cases (k == key)) [
  | inl hit ↦ rw hit (g, refl)
  | inr miss ↦
      rw miss
        (elim m [ inl e ↦ cc (miss, (eq_iff k key).1 (sym e)) | inr l ↦ find_of_key key table l ])
]
