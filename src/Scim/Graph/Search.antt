-- ===== src/Scim/Graph/Search.antt =====
-- The depth-first search over groups: what it returns, and why its fuel is enough.
use breach_scope.Prelude.{
  ℕ, zero, suc, ◌+◌, ◌≤◌, ◌<◌, String, refl, sym, subst, inl, inr, not, List, [], ◌∷◌, arith, ◌==◌,
  eq_iff, In, Distinct, length, keep, member, member_iff, In-keep_of, Bool-cases, length-keep,
}
use breach_scope.Prelude.Result.{Result, ok, err, ◌>>=◌}
use breach_scope.Scim.Graph.{
  GraphError, ambiguous, unknown, cycle, exhausted, for_each, visit, visit_all,
}

-- Every entry of the one list stands in the other.
abbrev pub Within : List String → List String → Type 0
Within xs ys = (s : String) → In s xs → In s ys

without_shrinks :
    (x : String) (ys : List String)
    → In x ys
    → suc (length (keep (λ y. not (x == y)) ys)) ≤ length ys
unfolding keep
without_shrinks x [] m = elim m [ ]
without_shrinks x (y ∷ ys) (inl e) =
    ground (arith, eq_iff x y, e, length-keep (λ z. not (x == z)) ys)
without_shrinks x (y ∷ ys) (inr m) =
    ground (arith, without_shrinks x ys m, length-keep (λ z. not (x == z)) ys)

-- Distinct texts that all stand in one list are no more than its entries.
pub length-le_of_Within : (xs ys : List String) → Distinct xs → Within xs ys → length xs ≤ length ys
length-le_of_Within [] ys d w = omega arith
length-le_of_Within (x ∷ xs) ys d w = omega (
  arith,
  without_shrinks x ys (w x (inl refl)),
  length-le_of_Within xs (keep (λ y. not (x == y)) ys) d.1 λ s m.
      In-keep_of _ s ys (w s (inr m)) (elim (Bool-cases (x == s)) [
        | inl same ↦ absurd (d.0 (subst (λ (t : String). In t xs) (sym ((eq_iff x s).0 same)) m))
        | inr other ↦ rw other refl
      ]),
)

module _ (ids : List String) (members : String → List String) where
  -- `h` is a group among the members of the group `g`.
  abbrev pub Contains : String → String → Type 0
  Contains g h = In h (members g) × In h ids

  -- `h` is reached from `g` by one membership or more.
  pub data Nests : String → String → Type 0 where
    direct : {g h : String} → Contains g h → Nests g h
    through : {g h k : String} → Contains g h → Nests h k → Nests g k

  Nests-snoc : {g h k : String} → Nests g h → Contains h k → Nests g k
  Nests-snoc (direct c) d = through c (direct d)
  Nests-snoc (through c n) d = through c (Nests-snoc n d)

  -- Each visited group stands in front of the groups that it contains.
  abbrev pub InOrder : List String → Type 0
  InOrder [] = Unit
  InOrder (g ∷ rest) = ((h : String) → Contains g h → In h rest) × InOrder rest

  contained : (v : List String) (g h : String) → InOrder v → In g v → Contains g h → In h v
  contained [] g h o m c = elim m [ ]
  contained (x ∷ rest) g h o (inl e) c = inr (o.0 h (subst (λ (t : String). Contains t h) e c))
  contained (x ∷ rest) g h o (inr m) c = inr (contained rest g h o.1 m c)

  reached : (v : List String) {g h : String} → InOrder v → In g v → Nests g h → In h v
  reached v o m (direct c) = contained v _ _ o m c
  reached v o m (through c n) = reached v o (contained v _ _ o m c) n

  first_step :
      (v : List String) {g : String}
      → ((h : String) → Contains g h → In h v)
      → InOrder v
      → {h : String} → Nests g h
      → In h v
  first_step v o r (direct c) = o _ c
  first_step v o r (through c n) = reached v r (o _ c) n

  pub InOrder-acyclic : (v : List String) {g : String} → InOrder v → In g v → ¬ Nests g g
  InOrder-acyclic [] o m n = elim m [ ]
  InOrder-acyclic (x ∷ rest) {g} o (inr m) n = InOrder-acyclic rest o.1 m n
  InOrder-acyclic (x ∷ rest) {g} o (inl e) n =
      let loop : Nests x x = subst (λ (t : String). Nests t t) e n in
      InOrder-acyclic rest o.1 (first_step rest o.0 o.1 loop) loop

  -- What a search that was to reach the groups of `xs` from the visited `v` may return.
  abbrev pub Reaches : List String → List String → Result GraphError (List String) → Type 0
  Reaches xs v (ok v') = InOrder v' × Within v v' × ((x : String) → In x xs → In x ids → In x v')
  Reaches xs v (err cycle) = (g : String) × Nests g g
  Reaches xs v (err ambiguous) = ⊥
  Reaches xs v (err unknown) = ⊥
  Reaches xs v (err exhausted) = ⊥

  for_each-Reaches :
      (step : String → List String → Result GraphError (List String)) (xs v : List String)
      → ((x : String) (w : List String) → In x xs → InOrder w → Reaches (x ∷ []) w (step x w))
      → InOrder v
      → Reaches xs v (for_each step xs v)
  unfolding for_each
  for_each-Reaches step [] v good o = (o, (λ s m. m), (λ x m k. elim m [ ]))
  for_each-Reaches step (x ∷ xs) v good o =
      next (step x v) (good x v (inl refl) o)
        (λ w o'. for_each-Reaches step xs w (λ y u m. good y u (inr m)) o')
    where
      join :
          (w : List String)
          → Reaches (x ∷ []) v (ok w)
          → (r : Result GraphError (List String)) → Reaches xs w r
          → Reaches (x ∷ xs) v r
      join w h (ok w') k = (
        k.0,
        (λ s m. k.1 s (h.1 s m)),
        (λ y m i. elim m [ inl e ↦ k.1 y (h.2 y (inl e) i) | inr l ↦ k.2 y l i ]),
      )
      join w h (err cycle) k = k
      join w h (err ambiguous) k = k
      join w h (err unknown) k = k
      join w h (err exhausted) k = k

      next :
          (r : Result GraphError (List String))
          → Reaches (x ∷ []) v r
          → ((w : List String) → InOrder w → Reaches xs w (for_each step xs w))
          → Reaches (x ∷ xs) v (r >>= λ w. for_each step xs w)
      next (ok w) h rest = join w h (for_each step xs w) (rest w h.0)
      next (err cycle) h rest = h
      next (err ambiguous) h rest = h
      next (err unknown) h rest = h
      next (err exhausted) h rest = h

  finish :
      (g : String) (v : List String) (r : Result GraphError (List String))
      → Reaches (members g) v r
      → Reaches (g ∷ []) v (r >>= λ w. ok (g ∷ w))
  finish g v (ok w) h = (
    ((λ k c. h.2 k c.0 c.1), h.0),
    (λ s m. inr (h.1 s m)),
    (λ x m i. elim m [ inl e ↦ inl e | inr l ↦ elim l [ ] ]),
  )
  finish g v (err cycle) h = h
  finish g v (err ambiguous) h = h
  finish g v (err unknown) h = h
  finish g v (err exhausted) h = h

  -- The groups under way lead to the one that is visited, and there are too few of them for the fuel
  -- to run out.
  pub visit-Reaches :
      (fuel : ℕ) (g : String) (visiting v : List String)
      → In g ids
      → ((x : String) → In x visiting → Nests x g)
      → Distinct visiting
      → Within visiting ids
      → length ids < fuel + length visiting
      → InOrder v
      → Reaches (g ∷ []) v (visit ids members fuel g visiting v)
  unfolding visit
  visit-Reaches zero g visiting v i path d w f o =
      absurd (omega (arith, length-le_of_Within visiting ids d w))
  visit-Reaches (suc fuel) g visiting v i path d w f o = elim (Bool-cases (member g visiting)) [
    | inl back ↦ rw back (g, path g ((member_iff g visiting).0 back))
    | inr new ↦ rw new (elim (Bool-cases (member g v)) [
      | inl old ↦ rw old (
        o,
        (λ s m. m),
        (λ x m k. elim m [
          | inl e ↦ subst (λ (t : String). In t v) (sym e) ((member_iff g v).0 old)
          | inr l ↦ elim l [ ]
        ]),
      )
      | inr fresh ↦ rw fresh (
          finish g v _ (
            for_each-Reaches _ (members g) v
              (λ x u m o'. elim (Bool-cases (member x ids)) [
                | inl group ↦ rw group (
                    visit-Reaches fuel x (g ∷ visiting) u ((member_iff x ids).0 group)
                      (λ y k. elim k [
                        | inl e ↦
                            subst (λ (t : String). Nests t x) (sym e)
                              (direct (m, (member_iff x ids).0 group))
                        | inr l ↦ Nests-snoc (path y l) (m, (member_iff x ids).0 group)
                      ])
                      ((λ k. cc (new, (member_iff g visiting).1 k)), d)
                      (λ y k. elim k [
                        | inl e ↦ subst (λ (t : String). In t ids) (sym e) i
                        | inr l ↦ w y l
                      ])
                      (omega (arith, f)) o')
                | inr user ↦ rw user (
                  o',
                  (λ s k. k),
                  (λ y k l. elim k [
                    | inl e ↦ cc (user, (member_iff x ids).1 (subst (λ (t : String). In t ids) e l))
                    | inr n ↦ elim n [ ]
                  ]),
                )
              ])
              o))
    ])
  ]

  -- The search from every group.
  pub visit_all-Reaches :
      (order : List String) → Within order ids → Reaches order [] (visit_all ids members order)
  unfolding visit_all
  visit_all-Reaches order w =
      for_each-Reaches _ order []
        (λ g v m o.
          visit-Reaches (suc (length ids)) g [] v (w g m) (λ x k. elim k [ ]) tt (λ x k. elim k [ ])
            (omega arith) o)
        tt
