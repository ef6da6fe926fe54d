-- ===== src/Prelude/Bisect.antt =====
-- `bisect.bisect_right` of Python's library, and lists by position.
use breach_scope.Prelude.Tests.{ltb, if◌then◌else◌, Bool-cases, some-eq-some}
use breach_scope.Prelude.Lists.{length, drop, take, keep, All, All-keep}
use breach_scope.Prelude.Rows.{Apart}
use Prim.Native.Nat.{ℕ, zero, suc, ◌+◌, ◌-◌, ◌≤◌, ◌<◌, ◌/◌}
use mathlib.Core.Path.{◌≡◌, refl, sym, ap, subst, ◌∙◌}
use mathlib.Core.Logic.{◌↔◌, inl, inr}
use mathlib.Core.Bool.{Bool, true}
use mathlib.Core.Option.{Option, none, some}
use mathlib.Core.List.{List, [], ◌∷◌, map}
use native.Mathlib.Omega.{arith}

module _ {A : Type 0} where
  -- xs[i], none past the end
  unfoldable pub get_elem? : List A → ℕ → Option A
  get_elem? [] i = none
  get_elem? (x ∷ xs) zero = some x
  get_elem? (x ∷ xs) (suc i) = get_elem? xs i

  pub get_elem?-eq-some :
      (xs : List A) (i : ℕ) → i < length xs → (a : A) × (get_elem? xs i ≡ some a)
  unfolding get_elem?
  get_elem?-eq-some [] i h = absurd (omega (arith, h))
  get_elem?-eq-some (x ∷ xs) zero h = (x, refl)
  get_elem?-eq-some (x ∷ xs) (suc i) h = get_elem?-eq-some xs i (omega (arith, h))

  pub lt-length : (xs : List A) (i : ℕ) {a : A} → get_elem? xs i ≡ some a → i < length xs
  unfolding get_elem?
  lt-length [] i h = cc h
  lt-length (x ∷ xs) zero h = omega arith
  lt-length (x ∷ xs) (suc i) h = omega (arith, lt-length xs i h)

pub get_elem?-map :
    {A B : Type 0} (f : A → B) (xs : List A) (i : ℕ) {a : A}
    → get_elem? xs i ≡ some a
    → get_elem? (map f xs) i ≡ some (f a)
unfolding get_elem?
get_elem?-map f [] i h = cc h
get_elem?-map f (x ∷ xs) zero h = ap (λ o. elim o [ none ↦ none | some y ↦ some (f y) ]) h
get_elem?-map f (x ∷ xs) (suc i) h = get_elem?-map f xs i h

pub get_elem?-unmap :
    {A B : Type 0} (f : A → B) (xs : List A) (i : ℕ) {b : B}
    → get_elem? (map f xs) i ≡ some b
    → (a : A) × (get_elem? xs i ≡ some a) × (b ≡ f a)
unfolding get_elem?
get_elem?-unmap f [] i h = cc h
get_elem?-unmap f (x ∷ xs) zero h = (x, refl, sym (some-eq-some h))
get_elem?-unmap f (x ∷ xs) (suc i) h = get_elem?-unmap f xs i h

pub take-map :
    {A B : Type 0} (f : A → B) (xs : List A) (n : ℕ) → take n (map f xs) ≡ map f (take n xs)
take-map f xs zero = refl
take-map f [] (suc n) = refl
take-map f (x ∷ xs) (suc n) = ap (λ ys. f x ∷ ys) (take-map f xs n)

pub drop-map :
    {A B : Type 0} (f : A → B) (xs : List A) (n : ℕ) → drop n (map f xs) ≡ map f (drop n xs)
drop-map f xs zero = refl
drop-map f [] (suc n) = refl
drop-map f (x ∷ xs) (suc n) = drop-map f xs n

pub length-map : {A B : Type 0} (f : A → B) (xs : List A) → length (map f xs) ≡ length xs
length-map f [] = refl
length-map f (x ∷ xs) = ap suc (length-map f xs)

-- `lo` and `hi` of the loop; the fuel bounds what is between them.
unfoldable pub bisect_loop : ℕ → List ℕ → (x lo hi : ℕ) → ℕ
unfolding get_elem?
bisect_loop zero xs x lo hi = lo
bisect_loop (suc fuel) xs x lo hi =
    let mid = (lo + hi) / 2 in
    let left = bisect_loop fuel xs x lo mid in
    let right = bisect_loop fuel xs x (mid + 1) hi in
    if ltb lo hi
    then elim (get_elem? xs mid) [ none ↦ lo | some v ↦ if ltb x v then left else right ]
    else lo

unfoldable pub bisect_right : List ℕ → (x lo : ℕ) → ℕ
unfolding bisect_loop
bisect_right xs x lo = bisect_loop (length xs) xs x lo (length xs)

-- No entry is below an earlier one.
abbrev pub IsRising : List ℕ → Type 0
IsRising xs = (i j v w : ℕ) → i ≤ j → get_elem? xs i ≡ some v → get_elem? xs j ≡ some w → v ≤ w

-- `r` splits the list from `lo` on into what is at most `x` and what is above.
pub record Splits (xs : List ℕ) (x lo r : ℕ) : Type 0 where
  pub from : lo ≤ r
  pub to : r ≤ length xs
  pub below : (i v : ℕ) → lo ≤ i → i < r → get_elem? xs i ≡ some v → v ≤ x
  pub above : (i v : ℕ) → r ≤ i → get_elem? xs i ≡ some v → x < v

module _ (xs : List ℕ) (x : ℕ) (rising : IsRising xs) where
  bisect_loop-Splits :
      (fuel start lo hi : ℕ)
      → start ≤ lo
      → lo ≤ hi
      → hi ≤ length xs
      → hi ≤ fuel + lo
      → ((i v : ℕ) → start ≤ i → i < lo → get_elem? xs i ≡ some v → v ≤ x)
      → ((i v : ℕ) → hi ≤ i → get_elem? xs i ≡ some v → x < v)
      → Splits xs x start (bisect_loop fuel xs x lo hi)
  unfolding bisect_loop
  bisect_loop-Splits zero start lo hi s o n enough below above = record {
    from = s;
    to = omega (arith, o, n);
    below = below;
    above = λ i v le e. above i v (omega (arith, le, enough, o)) e;
  }
  bisect_loop-Splits (suc fuel) start lo hi s o n enough below above =
      elim (Bool-cases (ltb lo hi)) [
        | inr empty ↦ rw empty (record {
          from = s;
          to = omega (arith, o, n);
          below = below;
          above = λ i v le e. above i v (ground (arith, le, empty, o)) e;
        })
        | inl more ↦
            let lt : lo < hi = ground (arith, more) in
            let mid = (lo + hi) / 2 in
            let (v, at) = get_elem?-eq-some xs mid (omega (arith, lt, n)) in
            rw more (elim (Bool-cases (ltb x v)) [
              | inl left ↦
                  let less : x < v = ground (arith, left) in
                  rw (at, left)
                    (bisect_loop-Splits fuel start lo mid s (omega (arith, lt))
                      (omega (arith, lt, n)) (omega (arith, lt, enough)) below
                      (λ i w le e. omega (arith, less, rising mid i v w le at e)))
              | inr right ↦
                  let more' : v ≤ x = ground (arith, right) in
                  rw (at, right)
                    (bisect_loop-Splits fuel start (mid + 1) hi (omega (arith, s, lt))
                      (omega (arith, lt)) n (omega (arith, lt, enough))
                      (λ i w from lt' e.
                        omega (arith, more', rising i mid w v (omega (arith, lt')) e at))
                      above)
            ])
      ]

  pub bisect_right-Splits : (lo : ℕ) → lo ≤ length xs → Splits xs x lo (bisect_right xs x lo)
  unfolding bisect_right
  bisect_right-Splits lo n =
      bisect_loop-Splits (length xs) lo lo (length xs) (omega arith) n (omega arith)
        (omega (arith, n)) (λ i v from lt e. absurd (omega (arith, from, lt)))
        (λ i v le e. absurd (omega (arith, le, lt-length xs i e)))

-- The entries that pass a test which holds at `n` positions from `s` on.
module _ {A : Type 0} (test : A → Bool) where
  abbrev HoldsFrom : (s n : ℕ) → List A → Type 0
  HoldsFrom s n xs =
      (i : ℕ) (a : A) → get_elem? xs i ≡ some a → (test a ≡ true) ↔ ((s ≤ i) × (i < s + n))

  take_from-keep : (xs : List A) (s n : ℕ) → HoldsFrom s n xs → take n (drop s xs) ≡ keep test xs
  unfolding keep get_elem?
  take_from-keep [] zero zero h = refl
  take_from-keep [] zero (suc n) h = refl
  take_from-keep [] (suc s) zero h = refl
  take_from-keep [] (suc s) (suc n) h = refl
  take_from-keep (x ∷ xs) zero zero h = elim (Bool-cases (test x)) [
    | inl yes' ↦ absurd (omega (arith, ((h 0 x refl).0 yes').1))
    | inr no' ↦ rw no' (
        take_from-keep xs zero zero (λ i a e. (
          (λ t. absurd (omega (arith, ((h (suc i) a e).0 t).1))),
          (λ p. absurd (omega (arith, p.1))),
        )))
  ]
  take_from-keep (x ∷ xs) zero (suc n) h = rw ((h 0 x refl).1 (omega arith, omega arith)) (
      ap (λ (ys : List A). x ∷ ys)
        (take_from-keep xs zero n (λ i a e. (
          (λ t. (omega arith, omega (arith, ((h (suc i) a e).0 t).1))),
          (λ p. (h (suc i) a e).1 (omega arith, omega (arith, p.1))),
        ))))
  take_from-keep (x ∷ xs) (suc s) n h = elim (Bool-cases (test x)) [
    | inl yes' ↦ absurd (omega (arith, ((h 0 x refl).0 yes').0))
    | inr no' ↦ rw no' (
        take_from-keep xs s n (λ i a e. (
          (λ t. (omega (arith, ((h (suc i) a e).0 t).0), omega (arith, ((h (suc i) a e).0 t).1))),
          (λ p. (h (suc i) a e).1 (omega (arith, p.0), omega (arith, p.1))),
        )))
  ]

  -- xs[s:e] are the entries that pass a test which holds at the positions from `s` up to `e`.
  pub take-drop :
      (xs : List A) (s e : ℕ)
      → ((i : ℕ) (a : A) → get_elem? xs i ≡ some a → (test a ≡ true) ↔ ((s ≤ i) × (i < e)))
      → take (e - s) (drop s xs) ≡ keep test xs
  take-drop xs s e h = take_from-keep xs s (e - s) (λ i a at. (
    (λ t. (((h i a at).0 t).0, omega (arith, ((h i a at).0 t).0, ((h i a at).0 t).1))),
    (λ p. (h i a at).1 (p.0, omega (arith, p.0, p.1))),
  ))

-- The keys of rows rise that stand in a relation under which they do.
module _ {A : Type 0} (R : A → A → Type 0) where
  Apart-get_elem? :
      (xs : List A) (i j : ℕ) {a b : A}
      → Apart R xs
      → i < j
      → get_elem? xs i ≡ some a
      → get_elem? xs j ≡ some b
      → R a b
  unfolding get_elem?
  Apart-get_elem? [] i j h lt e f = cc e
  Apart-get_elem? (x ∷ xs) i zero h lt e f = absurd (omega (arith, lt))
  Apart-get_elem? (x ∷ xs) zero (suc j) {a} {b} h lt e f =
      subst (λ (y : A). R y b) (some-eq-some e) (All-get xs j h.0 f)
    where
      All-get : (ys : List A) (k : ℕ) → All (λ y. R x y) ys → get_elem? ys k ≡ some b → R x b
      All-get [] k all g = cc g
      All-get (y ∷ ys) zero all g = subst (R x) (some-eq-some g) all.0
      All-get (y ∷ ys) (suc k) all g = All-get ys k all.1 g
  Apart-get_elem? (x ∷ xs) (suc i) (suc j) h lt e f =
      Apart-get_elem? xs i j h.1 (omega (arith, lt)) e f

  pub map-IsRising :
      (f : A → ℕ)
      → ((a b : A) → R a b → f a ≤ f b)
      → (xs : List A) → Apart R xs
      → IsRising (map f xs)
  map-IsRising f up xs h i j v w le e g =
      let (a, at, same) = get_elem?-unmap f xs i e in
      let (b, bt, same') = get_elem?-unmap f xs j g in
      elim (Bool-cases (ltb i j)) [
        | inl less ↦
            let r = up a b (Apart-get_elem? xs i j h (ground (arith, less)) at bt) in
            omega (arith, same, same', r)
        | inr more ↦
            let index : i ≡ j = ground (arith, more, le) in
            let both : some v ≡ some w = sym e ∙ (ap (get_elem? (map f xs)) index ∙ g) in
            omega (arith, some-eq-some both)
      ]

  pub Apart-keep : (test : A → Bool) (xs : List A) → Apart R xs → Apart R (keep test xs)
  unfolding keep
  Apart-keep test [] h = h
  Apart-keep test (x ∷ xs) h = elim (Bool-cases (test x)) [
    | inl yes' ↦ rw yes' (All-keep (λ y. R x y) test xs h.0, Apart-keep test xs h.1)
    | inr no' ↦ rw no' (Apart-keep test xs h.1)
  ]
