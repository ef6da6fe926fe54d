-- ===== src/Correlator/Duplicates/Best.antt =====
-- Of the chains with one key the best is kept.
use breach_scope.Prelude.{
  ◌≡◌, ◌↔◌, refl, sym, ap, subst, ◌∙◌, inl, inr, Bool, true, false, Option, none, some, List, [],
  ◌∷◌, ◌++◌, map, In, In-append, In-append_left, In-append_right, Distinct, Bool-cases,
}
use mathlib.Core.List.{append-nil, append_assoc}
use breach_scope.Prelude.Sorting.{In-map, In-map_of, In-map_mono, Distinct-snoc}
use breach_scope.Analyzer.Texts.{Engine}
use breach_scope.Correlator.Duplicates.{
  EventChain, ChainKey, has_chain_key, chain_key, without_worse, replaced, deduplicate_from,
  deduplicate_chains,
}
use breach_scope.Correlator.Duplicates.Keys.{has_chain_key_iff}
use breach_scope.Correlator.Duplicates.Removal.{
  Removes, without_worse-Removes, without_worse-none, keys-snoc,
}

module _ {Confidence : Type 0} (engine : Engine) (less : Confidence → Confidence → Bool) where
  -- The chain has the key of the other one, and no less confidence.
  abbrev pub Covers : EventChain Confidence → EventChain Confidence → Type 0
  Covers d c =
      (chain_key engine less d ≡ chain_key engine less c) × (less d.confidence c.confidence ≡ false)

  -- No two chains share a key; each is one of the chains that came; and each of these is covered.
  pub record IsBest (came unique : List (EventChain Confidence)) : Type 0 where
    pub distinct : Distinct (map (chain_key engine less) unique)
    pub chosen : (c : EventChain Confidence) → In c unique → In c came
    pub covered :
        (c : EventChain Confidence)
        → In c came
        → (d : EventChain Confidence) × In d unique × Covers d c

module _ {Confidence : Type 0} (engine : Engine) (less : Confidence → Confidence → Bool)
    (trans : (a b c : Confidence) → less a b ≡ true → less b c ≡ true → less a c ≡ true) where
  abbrev Chain : Type 0
  Chain = EventChain Confidence

  abbrev key : Chain → ChainKey
  key = chain_key engine less

  Covers-worse :
      (gone chain c : Chain)
      → key gone ≡ key chain
      → less gone.confidence chain.confidence ≡ true
      → Covers engine less gone c
      → Covers engine less chain c
  Covers-worse gone chain c same worse (e, f) = (
    sym same ∙ e,
    elim (Bool-cases (less chain.confidence c.confidence)) [
      | inl more ↦ cc (f, trans gone.confidence chain.confidence c.confidence worse more)
      | inr not_more ↦ not_more
    ],
  )

  Covers-refl :
      (irreflexive : (a : Confidence) → less a a ≡ false) (c : Chain) → Covers engine less c c
  Covers-refl irreflexive c = (refl, irreflexive c.confidence)

  -- One more chain has come, and one of those that are left covers it.
  covered-snoc :
      (came : List Chain) (left : Chain → Type 0) (chain : Chain)
      → ((c : Chain) → In c came → (d : Chain) × left d × Covers engine less d c)
      → ((d : Chain) × left d × Covers engine less d chain)
      → (c : Chain) → In c (came ++ chain ∷ [])
      → (d : Chain) × left d × Covers engine less d c
  covered-snoc came left chain old new c m = elim (In-append c came (chain ∷ []) m) [
    | inl l ↦ old c l
    | inr r ↦ elim r [
      | inl same ↦
          subst (λ (x : Chain). (d : Chain) × left d × Covers engine less d x) (sym same) new
      | inr n ↦ elim n [ ]
    ]
  ]

  -- A chain of a new key comes.
  snoc-IsBest :
      (irreflexive : (a : Confidence) → less a a ≡ false) (came unique : List Chain) (chain : Chain)
      → (¬ In (key chain) (map key unique))
      → IsBest engine less came unique
      → IsBest engine less (came ++ chain ∷ []) (unique ++ chain ∷ [])
  snoc-IsBest irreflexive came unique chain new b = record {
    distinct = Distinct-snoc key chain unique new b.distinct;
    chosen = λ c m. elim (In-append c unique (chain ∷ []) m) [
      | inl old ↦ In-append_left c came (chain ∷ []) (b.chosen c old)
      | inr l ↦ In-append_right c came (chain ∷ []) l
    ];
    covered =
        covered-snoc came (λ d. In d (unique ++ chain ∷ [])) chain
          (λ c m.
            let (d, there, cover) = b.covered c m in
            (d, In-append_left d unique (chain ∷ []) there, cover))
          (
            chain,
            In-append_right chain unique (chain ∷ []) (inl refl),
            Covers-refl irreflexive chain,
          );
  }

  -- A better chain of a key takes the place of the one that is there.
  exchanged-IsBest :
      (irreflexive : (a : Confidence) → less a a ≡ false) (came unique rest : List Chain)
      (chain : Chain)
      → Removes engine less chain unique rest
      → IsBest engine less came unique
      → IsBest engine less (came ++ chain ∷ []) (rest ++ chain ∷ [])
  exchanged-IsBest irreflexive came unique rest chain r b = record {
    distinct = Distinct-snoc key chain rest (r.free b.distinct) (r.distinct b.distinct);
    chosen = λ c m. elim (In-append c rest (chain ∷ []) m) [
      | inl old ↦ In-append_left c came (chain ∷ []) (b.chosen c (r.fewer c old))
      | inr l ↦ In-append_right c came (chain ∷ []) l
    ];
    covered =
        covered-snoc came (λ d. In d (rest ++ chain ∷ [])) chain
          (λ c m.
            let (d, there, cover) = b.covered c m in
            elim (r.others d there) [
              | inl gone ↦ (
                chain,
                last,
                Covers-worse r.gone chain c r.same r.worse
                    (subst (λ (x : Chain). Covers engine less x c) gone cover),
              )
              | inr left ↦ (d, In-append_left d rest (chain ∷ []) left, cover)
            ])
          (chain, last, Covers-refl irreflexive chain);
  }
    where
      last : In chain (rest ++ chain ∷ [])
      last = In-append_right chain rest (chain ∷ []) (inl refl)

  exchanged-keys :
      (unique rest : List Chain) (chain : Chain)
      → Removes engine less chain unique rest
      → (k : ChainKey) → In k (map key (rest ++ chain ∷ [])) ↔ In k (map key unique)
  exchanged-keys unique rest chain r k = (
    (λ m. elim ((keys-snoc engine less rest chain k).0 m) [
      | inl e ↦
          subst (λ (j : ChainKey). In j (map key unique)) (r.same ∙ sym e)
            (In-map_of key r.gone unique r.there)
      | inr l ↦ In-map_mono key k rest unique r.fewer l
    ]),
    (λ m.
        let (c, l, e) = In-map key k unique m in
        (keys-snoc engine less rest chain k).1 (elim (r.others c l) [
          | inl gone ↦ inl (e ∙ ap key gone ∙ r.same)
          | inr left ↦
              inr
                (subst (λ (j : ChainKey). In j (map key rest)) (sym e) (In-map_of key c rest left))
        ])),
  )

  abbrev taken : List Chain → Chain → Option (List Chain) → List Chain
  taken unique chain o = elim o as (λ y. List Chain) [
    | none ↦ unique
    | some rest ↦ rest ++ chain ∷ []
  ]

  -- A chain of a key that is there comes.
  replaced-IsBest :
      (irreflexive : (a : Confidence) → less a a ≡ false) (came unique : List Chain) (chain : Chain)
      → In (key chain) (map key unique)
      → IsBest engine less came unique
      → IsBest engine less (came ++ chain ∷ []) (replaced engine less chain unique)
        × ((k : ChainKey)
            → In k (map key (replaced engine less chain unique)) ↔ In k (map key unique))
  unfolding replaced
  replaced-IsBest irreflexive came unique chain here b =
      go (without_worse engine less chain unique) refl
    where
      go :
          (o : Option (List Chain))
          → without_worse engine less chain unique ≡ o
          → IsBest engine less (came ++ chain ∷ []) (taken unique chain o)
            × ((k : ChainKey) → In k (map key (taken unique chain o)) ↔ In k (map key unique))
      go none h =
          let (d, there, e) = In-map key (key chain) unique here in
          (
            record {
              distinct = b.distinct;
              chosen = λ c m. In-append_left c came (chain ∷ []) (b.chosen c m);
              covered =
                  covered-snoc came (λ x. In x unique) chain b.covered
                    (
                      d,
                      there,
                      (sym e, without_worse-none engine less chain unique h d there (sym e)),
                    );
            },
            λ k. ((λ m. m), (λ m. m)),
          )
      go (some rest) h =
          let r = without_worse-Removes engine less chain unique h in
          (
            exchanged-IsBest irreflexive came unique rest chain r b,
            exchanged-keys unique rest chain r,
          )

  deduplicate_from-IsBest :
      (irreflexive : (a : Confidence) → less a a ≡ false) (came : List Chain) (seen : List ChainKey)
      (unique chains : List Chain)
      → IsBest engine less came unique
      → ((k : ChainKey) → In k seen ↔ In k (map key unique))
      → IsBest engine less (came ++ chains) (deduplicate_from engine less seen unique chains)
  unfolding deduplicate_from
  deduplicate_from-IsBest irreflexive came seen unique [] b same =
      subst (λ (cs : List Chain). IsBest engine less cs unique) (sym (append-nil came)) b
  deduplicate_from-IsBest irreflexive came seen unique (chain ∷ chains) b same =
      subst
        (λ (cs : List Chain).
          IsBest engine less cs (deduplicate_from engine less seen unique (chain ∷ chains)))
        (append_assoc came (chain ∷ []) chains)
        (elim (Bool-cases (has_chain_key (key chain) seen)) [
          | inl old ↦
              let (b', keys) =
                replaced-IsBest irreflexive came unique chain
                  ((same (key chain)).0 ((has_chain_key_iff (key chain) seen).0 old)) b in
              rw old (
                deduplicate_from-IsBest irreflexive (came ++ chain ∷ []) seen
                  (replaced engine less chain unique) chains b'
                  (λ k. ((λ m. (keys k).1 ((same k).0 m)), (λ m. (same k).1 ((keys k).0 m)))))
          | inr new ↦ rw new (
              deduplicate_from-IsBest irreflexive (came ++ chain ∷ []) (key chain ∷ seen)
                (unique ++ chain ∷ []) chains
                (snoc-IsBest irreflexive came unique chain
                  (λ m. cc (new, (has_chain_key_iff (key chain) seen).1 ((same (key chain)).1 m)))
                  b)
                (λ k. (
                  (λ m.
                      (keys-snoc engine less unique chain k).1
                        (elim m [ inl e ↦ inl e | inr l ↦ inr ((same k).0 l) ])),
                  (λ m. elim ((keys-snoc engine less unique chain k).0 m) [
                    | inl e ↦ inl e
                    | inr l ↦ inr ((same k).1 l)
                  ]),
                )))
        ])

  -- If confidences are compared by a transitive and irreflexive test, the chains that are left have no key of type
  -- and events twice, each of them is one of the chains that came, and each chain that came has a chain of its key
  -- among them that has no less confidence.
  pub deduplicate_chains-IsBest :
      (irreflexive : (a : Confidence) → less a a ≡ false) (chains : List (EventChain Confidence))
      → IsBest engine less chains (deduplicate_chains engine less chains)
  unfolding deduplicate_chains
  deduplicate_chains-IsBest irreflexive chains =
      deduplicate_from-IsBest irreflexive [] [] [] chains
        (record { distinct = tt; chosen = λ c m. elim m [ ]; covered = λ c m. elim m [ ] })
        (λ k. ((λ m. m), (λ m. m)))
