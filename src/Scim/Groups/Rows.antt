-- ===== src/Scim/Groups/Rows.antt =====
-- What the operations do to the list of rows: the checks that pass, and rows replaced or removed.
use breach_scope.Prelude.{
  String, ◌≡◌, ◌≢◌, refl, sym, ap, subst, ◌∙◌, ◌⊎◌, inl, inr, not, ◌&&◌, some, List, [], ◌∷◌, ◌==◌,
  eq_iff, arith, map, In, In-keep, In-keep_of, Distinct, Bool-cases, some-eq-some,
}
use breach_scope.Prelude.Sorting.{In-map, In-map_of, In-map_mono}
use breach_scope.Prelude.Result.{Result, ok, err, guard_then-eq-ok}
use breach_scope.Prelude.Rows.{remove_row, In-remove_row, In-remove_row_keys}
use breach_scope.Scim.Users.{id_of}
use breach_scope.Scim.Records.{User, Group, Runtime, ScimError, conflict, user_ids}
use breach_scope.Scim.Graph.{validate_group_graph, GraphError}
use breach_scope.Scim.Graph.Verdict.{Verdict, verdict}
use breach_scope.Scim.Groups.{
  node, name_key, check_graph, graph_error, check_uniqueness, find_group, replace_first,
  remove_first,
}

pub check_graph-eq-ok :
    (users : List User) (rows : List Group) {u : Unit {0}}
    → check_graph users rows ≡ ok u
    → Verdict (user_ids users) (map node rows) (ok tt)
unfolding check_graph
check_graph-eq-ok users rows {u} h =
    go (validate_group_graph (user_ids users) (map node rows)) h
      (verdict (user_ids users) (map node rows))
  where
    go :
        (r : Result GraphError (Unit {0}))
        → ◌≡◌ {A = Result ScimError (Unit {0})}
            (elim r [ ok _ ↦ ok tt | err e ↦ err (graph_error e) ])
            (ok u)
        → Verdict (user_ids users) (map node rows) r
        → Verdict (user_ids users) (map node rows) (ok tt)
    go (ok _) k v = v
    go (err e) k v = cc

pub check_uniqueness-eq-ok :
    (rt : Runtime) (rows : List Group) (candidate : Group) (exclude_id : String) {u : Unit {0}}
    → check_uniqueness rt rows candidate exclude_id ≡ ok u
    → (row : Group) → In row rows
    → (exclude_id ≡ "") ⊎ (row.id ≢ exclude_id)
    → name_key rt row ≢ name_key rt candidate
unfolding check_uniqueness
check_uniqueness-eq-ok rt [] candidate exclude_id h row m other = elim m [ ]
check_uniqueness-eq-ok rt (r ∷ rows) candidate exclude_id h row m other =
    let (free, rest) =
      guard_then-eq-ok
        (not (
          not (not (exclude_id == "") && r.id == exclude_id)
          && name_key rt r == name_key rt candidate))
        conflict _ h in
    elim m [
      | inl e ↦ λ same.
          let same' : name_key rt r ≡ name_key rt candidate =
            subst (λ (g : Group). name_key rt g ≡ name_key rt candidate) e same in
          let other' : (exclude_id ≡ "") ⊎ (r.id ≢ exclude_id) =
            subst (λ (g : Group). (exclude_id ≡ "") ⊎ (g.id ≢ exclude_id)) e other in
          ground (
            arith,
            free,
            same',
            other',
            eq_iff exclude_id "",
            eq_iff r.id exclude_id,
            eq_iff (name_key rt r) (name_key rt candidate),
          )
      | inr k ↦ check_uniqueness-eq-ok rt rows candidate exclude_id rest row k other
    ]

pub find_group-eq-some :
    (id : String) (rows : List Group) {g : Group}
    → find_group id rows ≡ some g
    → In g rows × (g.id ≡ id)
unfolding find_group
find_group-eq-some id [] h = cc
find_group-eq-some id (r ∷ rows) {g} h = elim (Bool-cases (r.id == id)) [
  | inl hit ↦
      let e : r ≡ g = some-eq-some (rw hit at h) in
      (inl (sym e), ap (λ (x : Group). x.id) (sym e) ∙ (eq_iff r.id id).0 hit)
  | inr miss ↦ let (m, e) = find_group-eq-some id rows (rw miss at h) in (inr m, e)
]

module _ (id : String) (new : Group) where
  pub In-replace_first :
      (a : Group) (rows : List Group) → In a (replace_first id new rows) → (a ≡ new) ⊎ In a rows
  unfolding replace_first
  In-replace_first a [] m = elim m [ ]
  In-replace_first a (r ∷ rows) m = elim (Bool-cases (r.id == id)) [
    | inl hit ↦ elim (rw hit at m) [ inl e ↦ inl e | inr k ↦ inr (inr k) ]
    | inr miss ↦ elim (rw miss at m) [
      | inl e ↦ inr (inl e)
      | inr k ↦ elim (In-replace_first a rows k) [ inl e ↦ inl e | inr l ↦ inr (inr l) ]
    ]
  ]

  pub replace_first-ids :
      new.id ≡ id
      → (rows : List Group)
      → map (λ (g : Group). g.id) (replace_first id new rows) ≡ map (λ (g : Group). g.id) rows
  unfolding replace_first
  replace_first-ids e [] = refl
  replace_first-ids e (r ∷ rows) = elim (Bool-cases (r.id == id)) [
    | inl hit ↦ rw hit (cc (e, (eq_iff r.id id).0 hit))
    | inr miss ↦ rw miss (ap (λ (xs : List String). r.id ∷ xs) (replace_first-ids e rows))
  ]

  -- A key that the other rows do not have stays without a double.
  pub replace_first-Distinct :
      (key : Group → String) (rows : List Group)
      → Distinct (map (λ (g : Group). g.id) rows)
      → Distinct (map key rows)
      → ((r : Group) → In r rows → r.id ≢ id → key r ≢ key new)
      → Distinct (map key (replace_first id new rows))
  unfolding replace_first
  replace_first-Distinct key [] i d free = tt
  replace_first-Distinct key (r ∷ rows) i d free = elim (Bool-cases (r.id == id)) [
    | inl hit ↦ rw hit (
      (λ m.
          let (g, k, e) = In-map key (key new) rows m in
          free g (inr k)
            (λ same. i.0 (
              subst (λ (s : String). In s (map (λ (h : Group). h.id) rows))
                (same ∙ sym ((eq_iff r.id id).0 hit)) (In-map_of (λ (h : Group). h.id) g rows k)))
            (sym e)),
      d.1,
    )
    | inr miss ↦ rw miss (
      (λ m.
          let (g, k, e) = In-map key (key r) (replace_first id new rows) m in
          elim (In-replace_first g rows k) [
            | inl same ↦
                free r (inl refl) (λ hit. cc (miss, (eq_iff r.id id).1 hit)) (e ∙ ap key same)
            | inr old ↦
                d.0 (subst (λ (s : String). In s (map key rows)) (sym e) (In-map_of key g rows old))
          ]),
      replace_first-Distinct key rows i.1 d.1 (λ g k. free g (inr k)),
    )
  ]

pub In-remove_first :
    (id : String) (a : Group) (rows : List Group) → In a (remove_first id rows) → In a rows
unfolding remove_first
In-remove_first id a [] m = m
In-remove_first id a (r ∷ rows) m = elim (Bool-cases (r.id == id)) [
  | inl hit ↦ inr (rw hit at m)
  | inr miss ↦ elim (rw miss at m) [ inl e ↦ inl e | inr k ↦ inr (In-remove_first id a rows k) ]
]

pub In-remove_first_of :
    (id b : String) (rows : List Group)
    → b ≢ id
    → In b (map (λ (g : Group). g.id) rows)
    → In b (map (λ (g : Group). g.id) (remove_first id rows))
unfolding remove_first
In-remove_first_of id b [] other m = m
In-remove_first_of id b (r ∷ rows) other m = elim (Bool-cases (r.id == id)) [
  | inl hit ↦ rw hit (elim m [ inl e ↦ absurd (other (e ∙ (eq_iff r.id id).0 hit)) | inr k ↦ k ])
  | inr miss ↦
      rw miss (elim m [ inl e ↦ inl e | inr k ↦ inr (In-remove_first_of id b rows other k) ])
]

pub remove_first-Distinct :
    (id : String) (key : Group → String) (rows : List Group)
    → Distinct (map key rows)
    → Distinct (map key (remove_first id rows))
unfolding remove_first
remove_first-Distinct id key [] d = tt
remove_first-Distinct id key (r ∷ rows) d = elim (Bool-cases (r.id == id)) [
  | inl hit ↦ rw hit d.1
  | inr miss ↦ rw miss (
    (λ m. d.0 (
        In-map_mono key (key r) (remove_first id rows) rows (λ a k. In-remove_first id a rows k)
          m)),
    remove_first-Distinct id key rows d.1,
  )
]

pub In-user_ids_fewer :
    (id b : String) (rows : List User)
    → In b (user_ids (remove_row id_of id rows))
    → In b (user_ids rows)
unfolding user_ids
In-user_ids_fewer id b rows m =
    let (k, t) =
      In-keep (λ s. not (s == "")) b (map (λ (u : User). u.id) (remove_row id_of id rows)) m in
    In-keep_of (λ s. not (s == "")) b (map (λ (u : User). u.id) rows)
      (In-map_mono (λ (u : User). u.id) b (remove_row id_of id rows) rows
        (λ a l. In-remove_row id_of id a rows l) k)
      t

pub In-user_ids_stay :
    (id b : String) (rows : List User)
    → b ≢ id
    → In b (user_ids rows)
    → In b (user_ids (remove_row id_of id rows))
unfolding user_ids
In-user_ids_stay id b rows other m =
    let (k, t) = In-keep (λ s. not (s == "")) b (map (λ (u : User). u.id) rows) m in
    In-keep_of (λ s. not (s == "")) b (map (λ (u : User). u.id) (remove_row id_of id rows))
      (In-remove_row_keys id_of id b rows other k) t
