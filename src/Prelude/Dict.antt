-- ===== src/Prelude/Dict.antt =====
-- Python's `dict` with texts for keys: its entries in the order of insertion, where an assignment to
-- a key that is there changes the value in its place.
use breach_scope.Prelude.Tests.{if◌then◌else◌, Bool-cases, some-eq-some}
use breach_scope.Prelude.Lists.{In, Distinct}
use Prim.Native.String.{String}
use mathlib.Core.Path.{◌≡◌, refl, sym, ap, subst}
use mathlib.Core.Logic.{inl, inr}
use mathlib.Core.Option.{Option, none, some}
use mathlib.Core.List.{List, [], ◌∷◌, ◌++◌}
use native.Mathlib.Omega.{arith}
use package.text.Mathlib.Text.{◌==◌}
use package.text.Mathlib.TextEquality.{eq_iff}

module _ {V : Type 0} where
  -- d.get(key)
  unfoldable pub find : String → List (String × V) → Option V
  find key [] = none
  find key ((k, v) ∷ rest) = let later = find key rest in if k == key then some v else later

  -- d[key] = value
  unfoldable pub put : String → V → List (String × V) → List (String × V)
  put key value [] = (key, value) ∷ []
  put key value ((k, v) ∷ rest) =
      let later = put key value rest in if k == key then (k, value) ∷ rest else (k, v) ∷ later

  -- d.pop(key, None)
  unfoldable pub pop : String → List (String × V) → List (String × V)
  pop key [] = []
  pop key ((k, v) ∷ rest) = let later = pop key rest in if k == key then later else (k, v) ∷ later

  abbrev pub keys : List (String × V) → List String
  keys [] = []
  keys ((k, v) ∷ rest) = k ∷ keys rest

  pub find-put :
      (key other : String) (value : V) (d : List (String × V))
      → find other (put key value d) ≡ (if key == other then some value else find other d)
  unfolding find put
  find-put key other value [] = ground (arith, eq_iff key other)
  find-put key other value ((k, v) ∷ rest) =
      ground (arith, eq_iff key other, eq_iff k key, eq_iff k other, find-put key other value rest)

  pub find-pop :
      (key other : String) (d : List (String × V))
      → find other (pop key d) ≡ (if key == other then none else find other d)
  unfolding find pop
  find-pop key other [] = ground (arith, eq_iff key other)
  find-pop key other ((k, v) ∷ rest) =
      ground (arith, eq_iff key other, eq_iff k key, eq_iff k other, find-pop key other rest)

  pub In-keys_of_find :
      (key : String) (d : List (String × V)) {v : V} → find key d ≡ some v → In key (keys d)
  unfolding find
  In-keys_of_find key [] h = cc
  In-keys_of_find key ((k, w) ∷ rest) h = elim (Bool-cases (k == key)) [
    | inl hit ↦ inl (ground (arith, eq_iff k key, hit))
    | inr miss ↦ inr (In-keys_of_find key rest (rw miss at h))
  ]

module _ {V : Type 0} where
  pub put_new :
      (key : String) (value : V) (d : List (String × V))
      → (¬ In key (keys d))
      → put key value d ≡ d ++ (key, value) ∷ []
  unfolding put
  put_new key value [] new = refl
  put_new key value ((k, v) ∷ rest) new = elim (Bool-cases (k == key)) [
    | inl hit ↦ absurd (new (inl (sym ((eq_iff k key).0 hit))))
    | inr miss ↦
        rw miss
          (ap (λ (r : List (String × V)). (k, v) ∷ r) (put_new key value rest (λ m. new (inr m))))
  ]

  pub In-find : (key : String) (d : List (String × V)) (v : V) → find key d ≡ some v → In (key, v) d
  unfolding find
  In-find key [] v h = cc
  In-find key ((k, w) ∷ rest) v h = elim (Bool-cases (k == key)) [
    | inl hit ↦
        let value : w ≡ v = some-eq-some (rw hit at h) in
        inl (λ i. (sym ((eq_iff k key).0 hit) i, sym value i))
    | inr miss ↦ inr (In-find key rest v (rw miss at h))
  ]

  pub In-keys : (key : String) (v : V) (d : List (String × V)) → In (key, v) d → In key (keys d)
  In-keys key v [] m = m
  In-keys key v ((k, w) ∷ rest) (inl e) = inl (ap (λ (p : String × V). p.0) e)
  In-keys key v ((k, w) ∷ rest) (inr m) = inr (In-keys key v rest m)

  -- With distinct keys an entry is what its key finds.
  pub find_of_In :
      (key : String) (v : V) (d : List (String × V))
      → Distinct (keys d)
      → In (key, v) d
      → find key d ≡ some v
  unfolding find
  find_of_In key v [] h m = elim m [ ]
  find_of_In key v ((k, w) ∷ rest) h (inl e) =
      rw ((eq_iff k key).1 (sym (ap (λ (p : String × V). p.0) e)))
        (ap some (sym (ap (λ (p : String × V). p.1) e)))
  find_of_In key v ((k, w) ∷ rest) h (inr m) = elim (Bool-cases (k == key)) [
    | inl hit ↦ absurd (
        h.0 (
          subst (λ (t : String). In t (keys rest)) (sym ((eq_iff k key).0 hit))
            (In-keys key v rest m)))
    | inr miss ↦ rw miss (find_of_In key v rest h.1 m)
  ]

  pub pop_absent : (key : String) (d : List (String × V)) → find key d ≡ none → pop key d ≡ d
  unfolding find pop
  pop_absent key [] h = refl
  pop_absent key ((k, v) ∷ rest) h = elim (Bool-cases (k == key)) [
    | inl hit ↦ cc (rw hit at h)
    | inr miss ↦
        rw miss (ap (λ (r : List (String × V)). (k, v) ∷ r) (pop_absent key rest (rw miss at h)))
  ]
