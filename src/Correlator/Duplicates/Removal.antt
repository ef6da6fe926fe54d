-- ===== src/Correlator/Duplicates/Removal.antt =====
-- The chain of a key that `without_worse` takes out.
use breach_scope.Prelude.{
  ◌≡◌, ◌↔◌, refl, sym, ap, subst, ◌∙◌, ◌⊎◌, inl, inr, Bool, true, false, ◌&&◌, Option, none, some,
  some-eq-some, List, [], ◌∷◌, ◌++◌, arith, map, In, Distinct, Bool-cases,
}
use breach_scope.Prelude.Sorting.{In-map_of, In-map_mono}
use breach_scope.Analyzer.Texts.{Engine}
use breach_scope.Correlator.Duplicates.{
  EventChain, ChainKey, same_chain_key, chain_key, without_worse,
}
use breach_scope.Correlator.Duplicates.Keys.{same_chain_key_iff}

module _ {Confidence : Type 0} (engine : Engine) (less : Confidence → Confidence → Bool) where
  abbrev Chain : Type 0
  Chain = EventChain Confidence

  abbrev key : Chain → ChainKey
  key = chain_key engine less

  -- What `without_worse` finds: a chain of the key with less confidence, or none.
  pub record Removes (chain : Chain) (unique rest : List Chain) : Type 0 where
    pub gone : Chain
    pub there : In gone unique
    pub same : key gone ≡ key chain
    pub worse : less gone.confidence chain.confidence ≡ true
    pub fewer : (c : Chain) → In c rest → In c unique
    pub others : (c : Chain) → In c unique → (c ≡ gone) ⊎ In c rest
    pub distinct : Distinct (map key unique) → Distinct (map key rest)
    pub free : Distinct (map key unique) → ¬ In (key chain) (map key rest)

  pub without_worse-Removes :
      (chain : Chain) (unique : List Chain) {rest : List Chain}
      → without_worse engine less chain unique ≡ some rest
      → Removes chain unique rest
  unfolding without_worse
  without_worse-Removes chain [] h = cc h
  without_worse-Removes chain (x ∷ unique) {rest} h =
      elim (Bool-cases (same_chain_key (key x) (key chain) && less x.confidence chain.confidence)) [
        | inl hit ↦
            let e : unique ≡ rest = some-eq-some (rw hit at h) in
            let same : key x ≡ key chain =
              (same_chain_key_iff (key x) (key chain)).0 (ground (arith, hit)) in
            subst (Removes chain (x ∷ unique)) e (record {
              gone = x;
              there = inl refl;
              same = same;
              worse = ground (arith, hit);
              fewer = λ c m. inr m;
              others = λ c m. m;
              distinct = λ d. d.1;
              free = λ d m. d.0 (subst (λ (k : ChainKey). In k (map key unique)) (sym same) m);
            })
        | inr miss ↦
            later (λ _ e. without_worse-Removes chain unique e)
              (without_worse engine less chain unique) refl (rw miss at h)
      ]
    where
      extend :
          {others' : List Chain}
          → Removes chain unique others'
          → Removes chain (x ∷ unique) (x ∷ others')
      extend {others'} r = record {
        gone = r.gone;
        there = inr r.there;
        same = r.same;
        worse = r.worse;
        fewer = λ c m. elim m [ inl e ↦ inl e | inr l ↦ inr (r.fewer c l) ];
        others = λ c m. elim m [
          | inl e ↦ inr (inl e)
          | inr l ↦ elim (r.others c l) [ inl e ↦ inl e | inr k ↦ inr (inr k) ]
        ];
        distinct =
            λ d. ((λ m. d.0 (In-map_mono key (key x) others' unique r.fewer m)), r.distinct d.1);
        free = λ d m. elim m [
          | inl e ↦ d.0 (
              subst (λ (k : ChainKey). In k (map key unique)) (r.same ∙ e)
                (In-map_of key r.gone unique r.there))
          | inr l ↦ r.free d.1 l
        ];
      }

      later :
          ((others' : List Chain)
            → without_worse engine less chain unique ≡ some others'
            → Removes chain unique others')
          → (o : Option (List Chain)) → without_worse engine less chain unique ≡ o
          → (elim o as (λ y. Option (List Chain)) [
            | none ↦ none
            | some others' ↦ some (x ∷ others')
          ])
            ≡ some rest
          → Removes chain (x ∷ unique) rest
      later found none e k = cc k
      later found (some others') e k =
          subst (Removes chain (x ∷ unique)) (some-eq-some k) (extend (found others' e))

  pub without_worse-none :
      (chain : Chain) (unique : List Chain)
      → without_worse engine less chain unique ≡ none
      → (d : Chain) → In d unique
      → key d ≡ key chain
      → less d.confidence chain.confidence ≡ false
  unfolding without_worse
  without_worse-none chain [] h d m e = elim m [ ]
  without_worse-none chain (x ∷ unique) h d m e =
      elim (Bool-cases (same_chain_key (key x) (key chain) && less x.confidence chain.confidence)) [
        | inl hit ↦ cc (rw hit at h)
        | inr miss ↦ elim m [
          | inl same ↦
              let k : same_chain_key (key x) (key chain) ≡ true =
                (same_chain_key_iff (key x) (key chain)).1 (ap key (sym same) ∙ e) in
              subst (λ (c : Chain). less c.confidence chain.confidence ≡ false) (sym same)
                (ground (arith, miss, k))
          | inr l ↦
              without_worse-none chain unique
                (none_later (without_worse engine less chain unique) (rw miss at h)) d l e
        ]
      ]
    where
      none_later :
          (o : Option (List Chain))
          → (elim o as (λ y. Option (List Chain)) [ none ↦ none | some rest ↦ some (x ∷ rest) ])
            ≡ none
          → o ≡ none
      none_later none k = refl
      none_later (some rest) k = cc k

  pub keys-snoc :
      (unique : List Chain) (chain : Chain) (k : ChainKey)
      → In k (map key (unique ++ chain ∷ [])) ↔ ((k ≡ key chain) ⊎ In k (map key unique))
  keys-snoc [] chain k = ((λ m. m), (λ m. m))
  keys-snoc (x ∷ unique) chain k = (
    (λ m. elim m [
      | inl e ↦ inr (inl e)
      | inr l ↦ elim ((keys-snoc unique chain k).0 l) [ inl e ↦ inl e | inr o ↦ inr (inr o) ]
    ]),
    (λ m. elim m [
      | inl e ↦ inr ((keys-snoc unique chain k).1 (inl e))
      | inr l ↦ elim l [ inl e ↦ inl e | inr o ↦ inr ((keys-snoc unique chain k).1 (inr o)) ]
    ]),
  )
