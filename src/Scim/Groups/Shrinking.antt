-- ===== src/Scim/Groups/Shrinking.antt =====
-- Taking rows away, and their id out of the members of the rest, keeps the membership graph sound.
use breach_scope.Prelude.{
  String, ◌≡◌, ◌≢◌, refl, sym, ap, subst, ◌∙◌, inl, inr, true, not, Option, none, some, List, [],
  ◌∷◌, ◌++◌, ◌==◌, eq_iff, arith, keep, map, All, All-In, All-intro, In, In-append, In-keep,
  Distinct, Bool-cases, Option-cases, if◌then◌else◌,
}
use mathlib.Core.List.{append-nil, append_assoc}
use breach_scope.Prelude.Dict.{find, put, keys, put_new, In-find, find_of_In}
use breach_scope.Prelude.Sorting.{In-map, In-map_of}
use breach_scope.Prelude.Result.{ok}
use breach_scope.Scim.Records.{Group}
use breach_scope.Scim.Graph.{Node, index, groups_by_id, members_of}
use breach_scope.Scim.Graph.Search.{Contains, Nests, direct, through}
use breach_scope.Scim.Graph.Verdict.{IsOne, IsResolved, Verdict}
use breach_scope.Scim.Groups.{node, without_member, same_ids}

-- Ids that are not empty and that no two rows share.
pub record HasIds (rows : List Group) : Type 0 where
  pub distinct : Distinct (map (λ (g : Group). g.id) rows)
  pub nonempty : All (λ (g : Group). g.id ≢ "") rows

pub keys-node : (rows : List Group) → keys (map node rows) ≡ map (λ (g : Group). g.id) rows
keys-node [] = refl
keys-node (g ∷ gs) = ap (λ (r : List String). g.id ∷ r) (keys-node gs)

keys-snoc : (acc : List Node) (n : Node) → keys (acc ++ n ∷ []) ≡ keys acc ++ n.0 ∷ []
keys-snoc [] n = refl
keys-snoc (a ∷ acc) n = ap (λ (r : List String). a.0 ∷ r) (keys-snoc acc n)

index_self :
    (rows : List Group) (acc : List Node)
    → Distinct (map (λ (g : Group). g.id) rows)
    → All (λ (g : Group). g.id ≢ "") rows
    → All (λ (g : Group). ¬ In g.id (keys acc)) rows
    → index (map node rows) acc ≡ acc ++ map node rows
unfolding index
index_self [] acc d e new = sym (append-nil acc)
index_self (g ∷ gs) acc d e new = elim (Bool-cases (g.id == "")) [
  | inl empty ↦ absurd (e.0 ((eq_iff g.id "").0 empty))
  | inr full ↦
      let placed : (if g.id == "" then acc else put g.id g.member_ids acc) ≡ acc ++ node g ∷ [] =
        rw full (put_new g.id g.member_ids acc new.0) in
      ap (index (map node gs)) placed
      ∙ (index_self gs (acc ++ node g ∷ []) d.1 e.1 (
            All-intro _ gs λ x m. λ k.
              elim (In-append x.id (keys acc) (g.id ∷ []) (rw (keys-snoc acc (node g)) at k)) [
                | inl old ↦ All-In _ x gs new.1 m old
                | inr l ↦ elim l [
                  | inl same ↦ d.0 (
                      subst (λ (t : String). In t (map (λ (h : Group). h.id) gs)) same
                        (In-map_of (λ (h : Group). h.id) x gs m))
                  | inr n ↦ elim n [ ]
                ]
              ])
          ∙ append_assoc acc (node g ∷ []) (map node gs))
]

-- The check sees such rows as they are.
pub groups_by_id_self :
    (rows : List Group) → HasIds rows → groups_by_id (map node rows) ≡ map node rows
unfolding groups_by_id
groups_by_id_self rows h =
    index_self rows [] h.distinct h.nonempty (All-intro _ rows (λ x m k. elim k [ ]))

same_ids-eq : (xs ys : List String) → same_ids xs ys ≡ true → xs ≡ ys
unfolding same_ids
same_ids-eq [] [] h = refl
same_ids-eq [] (y ∷ ys) h = cc
same_ids-eq (x ∷ xs) [] h = cc
same_ids-eq (x ∷ xs) (y ∷ ys) h = ground (arith, eq_iff x y, same_ids-eq xs ys)

module _ (now x : String) where
  pub without_member-ids :
      (g : Group) → (without_member now x g).member_ids ≡ keep (λ v. not (v == x)) g.member_ids
  unfolding without_member
  without_member-ids g =
      elim (Bool-cases (same_ids (keep (λ v. not (v == x)) g.member_ids) g.member_ids)) [
        | inl same ↦ rw same (sym (same_ids-eq _ _ same))
        | inr other ↦ rw other refl
      ]

  pub without_member-id : (g : Group) → (without_member now x g).id ≡ g.id
  unfolding without_member
  without_member-id g = ground arith

IsResolved-In :
    (users ids : List String) (rows : List Node) (a : String) (ms : List String)
    → IsResolved users ids rows
    → In (a, ms) rows
    → All (IsOne users ids) ms
IsResolved-In users ids [] a ms h m = elim m [ ]
IsResolved-In users ids ((b, ns) ∷ rows) a ms h (inl e) =
    subst (λ (l : List String). All (IsOne users ids) l) (sym (ap (λ (n : Node). n.1) e)) h.0
IsResolved-In users ids ((b, ns) ∷ rows) a ms h (inr m) = IsResolved-In users ids rows a ms h.1 m

IsResolved-intro :
    (users ids : List String) (rows : List Node)
    → ((a : String) (ms : List String) → In (a, ms) rows → All (IsOne users ids) ms)
    → IsResolved users ids rows
IsResolved-intro users ids [] h = tt
IsResolved-intro users ids ((b, ns) ∷ rows) h =
    (h b ns (inl refl), IsResolved-intro users ids rows (λ a ms m. h a ms (inr m)))

Nests-mono :
    (ids ids' : List String) (members members' : String → List String)
    → ((a b : String) → Contains ids' members' a b → Contains ids members a b)
    → {a b : String} → Nests ids' members' a b
    → Nests ids members a b
Nests-mono ids ids' members members' sub (direct c) = direct (sub _ _ c)
Nests-mono ids ids' members members' sub (through c n) =
    through (sub _ _ c) (Nests-mono ids ids' members members' sub n)

-- `rows'` are some of `rows`, `users'` some of `users`, and at most the id `x` is gone.
module _ (users users' : List String) (rows rows' : List Group) (now x : String) (has : HasIds rows)
    (has' : HasIds rows') (sub : (g : Group) → In g rows' → In g rows)
    (fewer : (b : String) → In b users' → In b users)
    (users_stay : (b : String) → b ≢ x → In b users → In b users')
    (groups_stay : (b : String)
      → b ≢ x
      → In b (map (λ (g : Group). g.id) rows)
      → In b (map (λ (g : Group). g.id) rows')) where
  abbrev old : List Node
  old = map node rows

  abbrev changed : List Group
  changed = map (without_member now x) rows'

  abbrev new : List Node
  new = map node changed

  ids-changed :
      (gs : List Group)
      → map (λ (g : Group). g.id) (map (without_member now x) gs) ≡ map (λ (g : Group). g.id) gs
  ids-changed [] = refl
  ids-changed (g ∷ gs) = cc (without_member-id now x g, ids-changed gs)

  nonempty-changed :
      (gs : List Group)
      → All (λ (g : Group). g.id ≢ "") gs
      → All (λ (g : Group). g.id ≢ "") (map (without_member now x) gs)
  nonempty-changed [] h = tt
  nonempty-changed (g ∷ gs) h =
      ((λ e. h.0 (cc (without_member-id now x g))), nonempty-changed gs h.1)

  pub HasIds-changed : HasIds changed
  HasIds-changed = record {
    distinct = subst Distinct (sym (ids-changed rows')) has'.distinct;
    nonempty = nonempty-changed rows' has'.nonempty;
  }

  keys-new : keys new ≡ map (λ (g : Group). g.id) rows'
  keys-new = keys-node changed ∙ ids-changed rows'

  -- An entry of the new graph comes from a row, with `x` out of its members.
  entry_from :
      (a : String) (ms : List String)
      → In (a, ms) new
      → (g : Group) × In g rows' × (a ≡ g.id) × (ms ≡ keep (λ v. not (v == x)) g.member_ids)
  entry_from a ms m =
      let (c, l, e) = In-map node (a, ms) changed m in
      let (g, k, f) = In-map (without_member now x) c rows' l in
      (
        g,
        k,
        ap (λ (n : Node). n.0) e ∙ (ap (λ (h : Group). h.id) f ∙ without_member-id now x g),
        ap (λ (n : Node). n.1) e
            ∙ (ap (λ (h : Group). h.member_ids) f ∙ without_member-ids now x g),
      )

  ids_fewer : (b : String) → In b (keys new) → In b (keys old)
  ids_fewer b m =
      let (g, l, e) =
        In-map (λ (h : Group). h.id) b rows' (subst (λ (k : List String). In b k) keys-new m) in
      subst (λ (k : List String). In b k) (sym (keys-node rows))
        (subst (λ (t : String). In t (map (λ (h : Group). h.id) rows)) (sym e)
          (In-map_of (λ (h : Group). h.id) g rows (sub g l)))

  kept_member : (b : String) → b ≢ x → IsOne users (keys old) b → IsOne users' (keys new) b
  kept_member b other (inl (u, g)) = inl (users_stay b other u, λ m. g (ids_fewer b m))
  kept_member b other (inr (g, u)) = inr (
    subst (λ (k : List String). In b k) (sym keys-new)
        (groups_stay b other (subst (λ (k : List String). In b k) (keys-node rows) g)),
    λ m. u (fewer b m),
  )

  resolved : IsResolved users (keys old) old → IsResolved users' (keys new) new
  resolved h = IsResolved-intro users' (keys new) new λ a ms m.
      let (g, l, e, f) = entry_from a ms m in
      All-intro _ ms λ b k.
        let (was, other) =
          In-keep (λ v. not (v == x)) b g.member_ids (subst (λ (t : List String). In b t) f k) in
        kept_member b (λ same. cc (other, (eq_iff b x).1 same))
          (All-In (IsOne users (keys old)) b g.member_ids
            (IsResolved-In users (keys old) old g.id g.member_ids h
              (In-map_of node g rows (sub g l)))
            was)

  was_inside :
      (a b : String)
      → Contains (keys new) (members_of new) a b
      → Contains (keys old) (members_of old) a b
  unfolding members_of
  was_inside a b (m, i) = elim (Option-cases (find a new)) [
    | inl absent ↦
        let none_has : In b [] =
          subst (λ (o : Option (List String)). In b (elim o [ none ↦ [] | some ms ↦ ms ])) absent
            m in
        elim none_has [ ]
    | inr (ms, found) ↦
        let k : In b ms =
          subst (λ (o : Option (List String)). In b (elim o [ none ↦ [] | some ns ↦ ns ])) found
            m in
        let (g, l, e, f) = entry_from a ms (In-find a new ms found) in
        let (was, _) =
          In-keep (λ v. not (v == x)) b g.member_ids (subst (λ (t : List String). In b t) f k) in
        let there : find a old ≡ some g.member_ids =
          find_of_In a g.member_ids old (subst Distinct (sym (keys-node rows)) has.distinct) (
            subst (λ (t : String). In (t, g.member_ids) old) (sym e)
              (In-map_of node g rows (sub g l))) in
        (
          subst (λ (o : Option (List String)). In b (elim o [ none ↦ [] | some ns ↦ ns ]))
              (sym there) was,
          ids_fewer b i,
        )
  ]

  pub shrinking : Verdict users old (ok tt) → Verdict users' new (ok tt)
  shrinking (h, acyclic) =
      let plain = groups_by_id_self rows has in
      let plain' = groups_by_id_self changed HasIds-changed in
      (
        subst (λ (d : List Node). IsResolved users' (keys d) d) (sym plain')
            (resolved (subst (λ (d : List Node). IsResolved users (keys d) d) plain h)),
        λ g n. acyclic g (
            subst (λ (d : List Node). Nests (keys d) (members_of d) g g) (sym plain)
              (Nests-mono (keys old) (keys new) (members_of old) (members_of new) was_inside
                (subst (λ (d : List Node). Nests (keys d) (members_of d) g g) plain' n))),
      )
