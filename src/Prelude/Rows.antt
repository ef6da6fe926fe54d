-- ===== src/Prelude/Rows.antt =====
-- Rows with a text for a key: the first row with a key, looked up, replaced or removed, and rows of
-- which no two are at odds.
use breach_scope.Prelude.Tests.{if◌then◌else◌, Bool-cases, some-eq-some}
use breach_scope.Prelude.Lists.{In, All, All-In, All-intro, Distinct}
use native.Mathlib.Omega.{arith}
use Prim.Native.String.{String}
use mathlib.Core.Path.{◌≡◌, refl, sym, ap, subst, ◌∙◌}
use mathlib.Core.Logic.{◌≢◌, ◌⊎◌, inl, inr}
use mathlib.Core.Option.{Option, none, some}
use mathlib.Core.List.{List, [], ◌∷◌, ◌++◌, map}
use package.text.Mathlib.Text.{◌==◌}
use package.text.Mathlib.TextEquality.{eq_iff}

module _ {A : Type 0} (key : A → String) where
  -- next((row for row in rows if key(row) == id), None)
  unfoldable pub find_row : String → List A → Option A
  find_row id [] = none
  find_row id (row ∷ rows) =
      let later = find_row id rows in if key row == id then some row else later

  -- rows[index] = new, at the first row with the key
  unfoldable pub replace_row : String → A → List A → List A
  replace_row id new [] = []
  replace_row id new (row ∷ rows) =
      let later = replace_row id new rows in if key row == id then new ∷ rows else row ∷ later

  -- rows.pop(index), at the first row with the key
  unfoldable pub remove_row : String → List A → List A
  remove_row id [] = []
  remove_row id (row ∷ rows) =
      let later = remove_row id rows in if key row == id then rows else row ∷ later

  pub find_row-eq-some :
      (id : String) (rows : List A) {a : A} → find_row id rows ≡ some a → In a rows × (key a ≡ id)
  unfolding find_row
  find_row-eq-some id [] h = cc
  find_row-eq-some id (r ∷ rows) {a} h = elim (Bool-cases (key r == id)) [
    | inl hit ↦
        let e : r ≡ a = some-eq-some (rw hit at h) in
        (inl (sym e), ap key (sym e) ∙ (eq_iff (key r) id).0 hit)
    | inr miss ↦ let (m, e) = find_row-eq-some id rows (rw miss at h) in (inr m, e)
  ]

  pub In-replace_row :
      (id : String) (new a : A) (rows : List A)
      → In a (replace_row id new rows)
      → (a ≡ new) ⊎ In a rows
  unfolding replace_row
  In-replace_row id new a [] m = elim m [ ]
  In-replace_row id new a (r ∷ rows) m = elim (Bool-cases (key r == id)) [
    | inl hit ↦ elim (rw hit at m) [ inl e ↦ inl e | inr k ↦ inr (inr k) ]
    | inr miss ↦ elim (rw miss at m) [
      | inl e ↦ inr (inl e)
      | inr k ↦ elim (In-replace_row id new a rows k) [ inl e ↦ inl e | inr l ↦ inr (inr l) ]
    ]
  ]

  pub All-replace_row :
      (P : A → Type 0) (id : String) (new : A) (rows : List A)
      → All P rows
      → P new
      → All P (replace_row id new rows)
  All-replace_row P id new rows h k = All-intro P (replace_row id new rows) λ a m.
      elim (In-replace_row id new a rows m) [
        | inl e ↦ subst P (sym e) k
        | inr l ↦ All-In P a rows h l
      ]

  pub replace_row-keys :
      (id : String) (new : A)
      → key new ≡ id
      → (rows : List A) → map key (replace_row id new rows) ≡ map key rows
  unfolding replace_row
  replace_row-keys id new e [] = refl
  replace_row-keys id new e (r ∷ rows) = elim (Bool-cases (key r == id)) [
    | inl hit ↦ rw hit (cc (e, (eq_iff (key r) id).0 hit))
    | inr miss ↦ rw miss (ap (λ (xs : List String). key r ∷ xs) (replace_row-keys id new e rows))
  ]

  pub In-remove_row : (id : String) (a : A) (rows : List A) → In a (remove_row id rows) → In a rows
  unfolding remove_row
  In-remove_row id a [] m = m
  In-remove_row id a (r ∷ rows) m = elim (Bool-cases (key r == id)) [
    | inl hit ↦ inr (rw hit at m)
    | inr miss ↦ elim (rw miss at m) [ inl e ↦ inl e | inr k ↦ inr (In-remove_row id a rows k) ]
  ]

  pub In-remove_row_keys :
      (id b : String) (rows : List A)
      → b ≢ id
      → In b (map key rows)
      → In b (map key (remove_row id rows))
  unfolding remove_row
  In-remove_row_keys id b [] other m = m
  In-remove_row_keys id b (r ∷ rows) other m = elim (Bool-cases (key r == id)) [
    | inl hit ↦
        rw hit (elim m [ inl e ↦ absurd (other (e ∙ (eq_iff (key r) id).0 hit)) | inr k ↦ k ])
    | inr miss ↦
        rw miss (elim m [ inl e ↦ inl e | inr k ↦ inr (In-remove_row_keys id b rows other k) ])
  ]

  pub All-remove_row :
      (P : A → Type 0) (id : String) (rows : List A) → All P rows → All P (remove_row id rows)
  All-remove_row P id rows h =
      All-intro P (remove_row id rows) (λ a m. All-In P a rows h (In-remove_row id a rows m))

module _ {A : Type 0} (key : A → String) where
  pub find_row-replace_row :
      (id other : String) (new : A) (rows : List A) {old : A}
      → key new ≡ id
      → find_row key id rows ≡ some old
      → find_row key other (replace_row key id new rows)
        ≡ (if id == other then some new else find_row key other rows)
  unfolding find_row replace_row
  find_row-replace_row id other new [] e h = cc
  find_row-replace_row id other new (r ∷ rows) {old} e h = elim (Bool-cases (key r == id)) [
    | inl hit ↦ rw hit (
        ground (
          arith,
          hit,
          e,
          eq_iff (key r) id,
          eq_iff (key new) other,
          eq_iff (key r) other,
          eq_iff id other,
        ))
    | inr miss ↦
        let rest = find_row-replace_row id other new rows {old = old} e (rw miss at h) in
        rw miss
          (ground (arith, miss, rest, eq_iff (key r) id, eq_iff (key r) other, eq_iff id other))
  ]

  pub find_row-absent :
      (id : String) (rows : List A) → (¬ In id (map key rows)) → find_row key id rows ≡ none
  unfolding find_row
  find_row-absent id [] h = refl
  find_row-absent id (r ∷ rows) h = elim (Bool-cases (key r == id)) [
    | inl hit ↦ absurd (h (inl (sym ((eq_iff (key r) id).0 hit))))
    | inr miss ↦ rw miss (find_row-absent id rows (λ m. h (inr m)))
  ]

  pub find_row-remove_row :
      (id other : String) (rows : List A)
      → Distinct (map key rows)
      → find_row key other (remove_row key id rows)
        ≡ (if id == other then none else find_row key other rows)
  unfolding find_row remove_row
  find_row-remove_row id other [] d = ground arith
  find_row-remove_row id other (r ∷ rows) d = elim (Bool-cases (key r == id)) [
    | inl hit ↦ rw hit (elim (Bool-cases (id == other)) [
      | inl same ↦
          let e : other ≡ key r = sym ((eq_iff (key r) id).0 hit ∙ (eq_iff id other).0 same) in
          rw same (
            find_row-absent other rows (λ m. d.0 (subst (λ (t : String). In t (map key rows)) e m)))
      | inr differ ↦
          rw differ
            (ground (arith, hit, differ, eq_iff (key r) id, eq_iff (key r) other, eq_iff id other))
    ])
    | inr miss ↦
        let rest = find_row-remove_row id other rows d.1 in
        rw miss
          (ground (arith, miss, rest, eq_iff (key r) id, eq_iff (key r) other, eq_iff id other))
  ]

  pub find_row-snoc :
      (other : String) (new : A) (rows : List A)
      → (¬ In (key new) (map key rows))
      → find_row key other (rows ++ new ∷ [])
        ≡ (if key new == other then some new else find_row key other rows)
  unfolding find_row
  find_row-snoc other new [] free = refl
  find_row-snoc other new (r ∷ rows) free =
      let rest = find_row-snoc other new rows (λ m. free (inr m)) in
      let apart : key new ≢ key r = λ e. free (inl e) in
      ground (arith, rest, apart, eq_iff (key r) other, eq_iff (key new) other)

  pub remove_row-Distinct :
      (id : String) (rows : List A)
      → Distinct (map key rows)
      → Distinct (map key (remove_row key id rows))
  unfolding remove_row
  remove_row-Distinct id [] d = d
  remove_row-Distinct id (r ∷ rows) d = elim (Bool-cases (key r == id)) [
    | inl hit ↦ rw hit d.1
    | inr miss ↦ rw miss ((λ m. d.0 (fewer (key r) rows m)), remove_row-Distinct id rows d.1)
  ]
    where
      fewer : (b : String) (rs : List A) → In b (map key (remove_row key id rs)) → In b (map key rs)
      fewer b [] m = m
      fewer b (x ∷ rs) m = elim (Bool-cases (key x == id)) [
        | inl hit ↦ inr (rw (hit, remove_row) at m)
        | inr miss ↦ elim (rw (miss, remove_row) at m) [
          | inl e ↦ inl e
          | inr k ↦ inr (fewer b rs k)
        ]
      ]

-- Each row stands in the relation to every later one.
abbrev pub Apart : {A : Type 0} → (A → A → Type 0) → List A → Type 0
Apart R [] = Unit
Apart R (x ∷ xs) = All (λ y. R x y) xs × Apart R xs

module _ {A : Type 0} (key : A → String) (R : A → A → Type 0) where
  pub Apart-snoc :
      (new : A) (rows : List A)
      → ((a : A) → In a rows → R a new)
      → Apart R rows
      → Apart R (rows ++ new ∷ [])
  Apart-snoc new [] free h = (tt, tt)
  Apart-snoc new (r ∷ rows) free h =
      (All-snoc rows h.0, Apart-snoc new rows (λ a m. free a (inr m)) h.1)
    where
      All-snoc : (ys : List A) → All (λ y. R r y) ys → All (λ y. R r y) (ys ++ new ∷ [])
      All-snoc [] k = (free r (inl refl), tt)
      All-snoc (y ∷ ys) k = (k.0, All-snoc ys k.1)

  -- A relation that goes both ways and that keeps keys apart.
  module _ (back : (a b : A) → R a b → R b a) (keyed : (a b : A) → R a b → key a ≢ key b) where
    pub Apart-replace_row :
        (id : String) (new : A) (rows : List A)
        → ((a : A) → In a rows → key a ≢ id → R a new)
        → Apart R rows
        → Apart R (replace_row key id new rows)
    unfolding replace_row
    Apart-replace_row id new [] free h = tt
    Apart-replace_row id new (r ∷ rows) free h = elim (Bool-cases (key r == id)) [
      | inl hit ↦ rw hit (
        All-intro (λ y. R new y) rows
            (λ a m. back a new (
              free a (inr m) (λ e.
                keyed r a (All-In (λ y. R r y) a rows h.0 m) ((eq_iff (key r) id).0 hit ∙ sym e)))),
        h.1,
      )
      | inr miss ↦ rw miss (
        All-replace_row key (λ y. R r y) id new rows h.0
            (free r (inl refl) (λ e. cc (miss, (eq_iff (key r) id).1 e))),
        Apart-replace_row id new rows (λ a m. free a (inr m)) h.1,
      )
    ]

    pub Apart-remove_row :
        (id : String) (rows : List A) → Apart R rows → Apart R (remove_row key id rows)
    unfolding remove_row
    Apart-remove_row id [] h = tt
    Apart-remove_row id (r ∷ rows) h = elim (Bool-cases (key r == id)) [
      | inl hit ↦ rw hit h.1
      | inr miss ↦
          rw miss (All-remove_row key (λ y. R r y) id rows h.0, Apart-remove_row id rows h.1)
    ]
