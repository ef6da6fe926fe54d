-- ===== src/Prelude/Sorting.antt =====
-- `sorted` is stable: an entry goes in front of those that are not below it.
use mathlib.Core.Path.{◌≡◌, refl, sym, ap, subst}
use mathlib.Core.Logic.{◌⊎◌, inl, inr}
use mathlib.Core.Bool.{Bool, true}
use mathlib.Core.List.{List, [], ◌∷◌, ◌++◌, map}
use breach_scope.Prelude.Tests.{if◌then◌else◌, Bool-cases}
use breach_scope.Prelude.Lists.{
  All, In, Distinct, keep, All-In, All-intro, In-append, In-keep, All-keep,
}

module _ {A : Type 0} (le : A → A → Bool) where
  unfoldable pub insert_sorted : A → List A → List A
  insert_sorted x [] = x ∷ []
  insert_sorted x (y ∷ ys) =
      let rest = insert_sorted x ys in if le x y then x ∷ y ∷ ys else y ∷ rest

  unfoldable pub sort : List A → List A
  unfolding insert_sorted
  sort [] = []
  sort (x ∷ xs) = insert_sorted x (sort xs)

  abbrev pub IsSorted : List A → Type 0
  IsSorted [] = Unit
  IsSorted (x ∷ xs) = All (λ y. le x y ≡ true) xs × IsSorted xs

  pub In-insert : (a x : A) (xs : List A) → In a (insert_sorted x xs) → (a ≡ x) ⊎ In a xs
  unfolding insert_sorted
  In-insert a x [] m = m
  In-insert a x (y ∷ ys) m = elim (Bool-cases (le x y)) [
    | inl t ↦ rw t at m
    | inr f ↦ elim (rw f at m) [
      | inl e ↦ inr (inl e)
      | inr r ↦ elim (In-insert a x ys r) [ inl e ↦ inl e | inr k ↦ inr (inr k) ]
    ]
  ]

  pub In-insert_of : (a x : A) (xs : List A) → (a ≡ x) ⊎ In a xs → In a (insert_sorted x xs)
  unfolding insert_sorted
  In-insert_of a x [] m = m
  In-insert_of a x (y ∷ ys) m = elim (Bool-cases (le x y)) [
    | inl t ↦ rw t m
    | inr f ↦ rw f (elim m [
      | inl e ↦ inr (In-insert_of a x ys (inl e))
      | inr r ↦ elim r [ inl e ↦ inl e | inr k ↦ inr (In-insert_of a x ys (inr k)) ]
    ])
  ]

  pub In-sort : (a : A) (xs : List A) → In a (sort xs) → In a xs
  unfolding sort
  In-sort a [] m = m
  In-sort a (x ∷ xs) m = elim (In-insert a x (sort xs) m) [
    | inl e ↦ inl e
    | inr r ↦ inr (In-sort a xs r)
  ]

  pub In-sort_of : (a : A) (xs : List A) → In a xs → In a (sort xs)
  unfolding sort
  In-sort_of a [] m = m
  In-sort_of a (x ∷ xs) (inl e) = In-insert_of a x (sort xs) (inl e)
  In-sort_of a (x ∷ xs) (inr m) = In-insert_of a x (sort xs) (inr (In-sort_of a xs m))

  module _ (total : (x y : A) → (le x y ≡ true) ⊎ (le y x ≡ true))
      (trans : (x y z : A) → le x y ≡ true → le y z ≡ true → le x z ≡ true) where
    insert-IsSorted : (x : A) (xs : List A) → IsSorted xs → IsSorted (insert_sorted x xs)
    unfolding insert_sorted
    insert-IsSorted x [] h = (tt, tt)
    insert-IsSorted x (y ∷ ys) h = elim (Bool-cases (le x y)) [
      | inl t ↦ rw t ((t, All-intro _ ys (λ a m. trans x y a t (All-In _ a ys h.0 m))), h)
      | inr f ↦ rw f (
        All-intro (λ z. le y z ≡ true) (insert_sorted x ys)
            (λ a m. elim (In-insert a x ys m) [
              | inl e ↦
                  subst (λ (z : A). le y z ≡ true) (sym e)
                    (elim (total x y) [ inl t ↦ cc | inr t ↦ t ])
              | inr r ↦ All-In _ a ys h.0 r
            ]),
        insert-IsSorted x ys h.1,
      )
    ]

    pub sort-IsSorted : (xs : List A) → IsSorted (sort xs)
    unfolding sort
    sort-IsSorted [] = tt
    sort-IsSorted (x ∷ xs) = insert-IsSorted x (sort xs) (sort-IsSorted xs)

-- Keys of entries, and lists in which no key stands twice.
module _ {A : Type 0} {K : Type 0} (key : A → K) where
  pub In-map : (k : K) (xs : List A) → In k (map key xs) → (x : A) × In x xs × (k ≡ key x)
  In-map k [] m = elim m [ ]
  In-map k (x ∷ xs) (inl e) = (x, inl refl, e)
  In-map k (x ∷ xs) (inr m) = let (y, l, e) = In-map k xs m in (y, inr l, e)

  pub In-map_of : (x : A) (xs : List A) → In x xs → In (key x) (map key xs)
  In-map_of x [] m = m
  In-map_of x (y ∷ ys) (inl e) = inl (λ i. key (e i))
  In-map_of x (y ∷ ys) (inr m) = inr (In-map_of x ys m)

  -- A list whose entries all come from `xs`, and whose keys do.
  pub In-map_mono :
      (k : K) (ys xs : List A)
      → ((a : A) → In a ys → In a xs)
      → In k (map key ys)
      → In k (map key xs)
  In-map_mono k ys xs sub m =
      let (a, l, e) = In-map k ys m in
      subst (λ (j : K). In j (map key xs)) (sym e) (In-map_of a xs (sub a l))

  pub Distinct-keep :
      (test : A → Bool) (xs : List A) → Distinct (map key xs) → Distinct (map key (keep test xs))
  unfolding keep
  Distinct-keep test [] h = tt
  Distinct-keep test (x ∷ xs) h = elim (Bool-cases (test x)) [
    | inl t ↦ rw t (
      (λ m. h.0 (In-map_mono (key x) (keep test xs) xs (λ a k. (In-keep test a xs k).0) m)),
      Distinct-keep test xs h.1,
    )
    | inr f ↦ rw f (Distinct-keep test xs h.1)
  ]

  pub Distinct-insert :
      (le : A → A → Bool) (x : A) (xs : List A)
      → (¬ In (key x) (map key xs))
      → Distinct (map key xs)
      → Distinct (map key (insert_sorted le x xs))
  unfolding insert_sorted
  Distinct-insert le x [] new h = (new, h)
  Distinct-insert le x (y ∷ ys) new h = elim (Bool-cases (le x y)) [
    | inl t ↦ rw t (new, h)
    | inr f ↦ rw f (
      (λ m.
          let (a, l, e) = In-map (key y) (insert_sorted le x ys) m in
          elim (In-insert le a x ys l) [
            | inl same ↦ new (inl (cc (e, ap key same)))
            | inr r ↦ h.0 (subst (λ (j : K). In j (map key ys)) (sym e) (In-map_of a ys r))
          ]),
      Distinct-insert le x ys (λ m. new (inr m)) h.1,
    )
  ]

  pub Distinct-sort :
      (le : A → A → Bool) (xs : List A) → Distinct (map key xs) → Distinct (map key (sort le xs))
  unfolding sort
  Distinct-sort le [] h = tt
  Distinct-sort le (x ∷ xs) h =
      Distinct-insert le x (sort le xs)
        (λ m. h.0 (In-map_mono (key x) (sort le xs) xs (λ a k. In-sort le a xs k) m))
        (Distinct-sort le xs h.1)

  pub Distinct-snoc :
      (x : A) (xs : List A)
      → (¬ In (key x) (map key xs))
      → Distinct (map key xs)
      → Distinct (map key (xs ++ x ∷ []))
  Distinct-snoc x [] new h = (new, h)
  Distinct-snoc x (y ∷ ys) new h = (
    (λ m.
        let (a, l, e) = In-map (key y) (ys ++ x ∷ []) m in
        elim (In-append a ys (x ∷ []) l) [
          | inl r ↦ h.0 (subst (λ (j : K). In j (map key ys)) (sym e) (In-map_of a ys r))
          | inr r ↦ elim r [ inl same ↦ new (inl (cc (e, ap key same))) | inr k ↦ elim k [ ] ]
        ]),
    Distinct-snoc x ys (λ m. new (inr m)) h.1,
  )

pub keep-IsSorted :
    {A : Type 0} (le : A → A → Bool) (test : A → Bool) (xs : List A)
    → IsSorted le xs
    → IsSorted le (keep test xs)
unfolding keep
keep-IsSorted le test [] h = tt
keep-IsSorted le test (x ∷ xs) h = elim (Bool-cases (test x)) [
  | inl t ↦ rw t (All-keep (λ y. le x y ≡ true) test xs h.0, keep-IsSorted le test xs h.1)
  | inr f ↦ rw f (keep-IsSorted le test xs h.1)
]
