-- ===== src/Analyzer/Deduplication.antt =====
-- The loops that pass on what is new, as one filter of what is detected.
use breach_scope.Prelude.{
  ◌≡◌, refl, sym, ap, subst, ◌∙◌, ◌⊎◌, inl, inr, Bool, true, false, ◌&&◌, Option, none, some, List,
  [], ◌∷◌, ◌==◌, eq_iff, ◌↔◌, map, In, Distinct, Bool-cases, if◌then◌else◌,
}
use breach_scope.Prelude.Result.{Result, ok, err, ◌>>=◌}
use breach_scope.Prelude.Sorting.{In-map}
use breach_scope.Schemas.{Finding}
use breach_scope.Analyzer.Texts.{Engine}
use breach_scope.Analyzer.Matcher.{AnalysisError}
use breach_scope.Analyzer.Rules.{Key, same_key, has_seen, Attempt, key_of, detect, scan, take_new}

same_key_iff : (a b : Key) → (same_key a b ≡ true) ↔ (a ≡ b)
unfolding same_key
same_key_iff (a, b, c) (x, y, z) = (
  (λ h.
      let (e, f, g) = all_three (a == x) (b == y) (c == z) h in
      cc ((eq_iff a x).0 e, (eq_iff b y).0 f, (eq_iff c z).0 g)),
  (λ h.
      rw ((eq_iff a x).1 (ap (λ (k : Key). k.0) h))
        (rw ((eq_iff b y).1 (ap (λ (k : Key). k.1) h)) ((eq_iff c z).1 (ap (λ (k : Key). k.2) h)))),
)
  where
    all_three : (p q r : Bool) → p && (q && r) ≡ true → (p ≡ true) × (q ≡ true) × (r ≡ true)
    all_three true true true h = (refl, refl, refl)
    all_three false q r h = cc
    all_three true false r h = cc
    all_three true true false h = cc

pub has_seen_iff : (key : Key) (seen : List Key) → (has_seen key seen ≡ true) ↔ In key seen
unfolding has_seen
has_seen_iff key [] = ((λ h. cc), (λ m. elim m [ ]))
has_seen_iff key (k ∷ ks) = elim (Bool-cases (same_key key k)) [
  | inl same ↦ rw same ((λ h. inl ((same_key_iff key k).0 same)), (λ m. refl))
  | inr other ↦ rw other (
    (λ h. inr ((has_seen_iff key ks).0 h)),
    (λ m. elim m [
      | inl e ↦ cc (other, (same_key_iff key k).1 e)
      | inr l ↦ (has_seen_iff key ks).1 l
    ]),
  )
]

not_seen : (key : Key) (seen : List Key) → has_seen key seen ≡ false → ¬ In key seen
not_seen key seen h m = cc (h, (has_seen_iff key seen).1 m)

module _ (engine : Engine) where
  abbrev pub key : Finding → Key
  key = key_of engine

  -- The findings whose keys are new, in their order.
  abbrev pub unseen : List Key → List Finding → List Finding
  unseen seen findings = (take_new engine seen findings).0

  pub take_new-old :
      (seen : List Key) (x : Finding) (xs : List Finding)
      → has_seen (key x) seen ≡ true
      → take_new engine seen (x ∷ xs) ≡ take_new engine seen xs
  unfolding take_new
  take_new-old seen x xs old =
      ap
        (λ (b : Bool).
          if b
          then take_new engine seen xs
          else (x ∷ unseen (key x ∷ seen) xs, (take_new engine (key x ∷ seen) xs).1))
        old

  pub take_new-new :
      (seen : List Key) (x : Finding) (xs : List Finding)
      → has_seen (key x) seen ≡ false
      → take_new engine seen (x ∷ xs)
        ≡ (x ∷ unseen (key x ∷ seen) xs, (take_new engine (key x ∷ seen) xs).1)
  unfolding take_new
  take_new-new seen x xs new =
      ap
        (λ (b : Bool).
          if b
          then take_new engine seen xs
          else (x ∷ unseen (key x ∷ seen) xs, (take_new engine (key x ∷ seen) xs).1))
        new

  pub unseen-old :
      (seen : List Key) (x : Finding) (xs : List Finding)
      → has_seen (key x) seen ≡ true
      → unseen seen (x ∷ xs) ≡ unseen seen xs
  unseen-old seen x xs old = ap (λ (p : List Finding × List Key). p.0) (take_new-old seen x xs old)

  pub unseen-new :
      (seen : List Key) (x : Finding) (xs : List Finding)
      → has_seen (key x) seen ≡ false
      → unseen seen (x ∷ xs) ≡ x ∷ unseen (key x ∷ seen) xs
  unseen-new seen x xs new = ap (λ (p : List Finding × List Key). p.0) (take_new-new seen x xs new)

  pub unseen-nothing : (seen : List Key) → take_new engine seen [] ≡ ([], seen)
  unfolding take_new
  unseen-nothing seen = refl

  -- No key twice, none that was seen before, and nothing but findings of the list.
  abbrev pub IsNew : List Key → List Finding → List Finding → Type 0
  IsNew seen findings passed =
      Distinct (map key passed)
      × ((f : Finding) → In f passed → (¬ In (key f) seen) × In f findings)

  pub unseen-IsNew :
      (seen : List Key) (findings : List Finding) → IsNew seen findings (unseen seen findings)
  unfolding take_new
  unseen-IsNew seen [] = (tt, λ f m. elim m [ ])
  unseen-IsNew seen (x ∷ xs) = elim (Bool-cases (has_seen (key x) seen)) [
    | inl old ↦
        let (d, h) = unseen-IsNew seen xs in
        subst (IsNew seen (x ∷ xs)) (sym (unseen-old seen x xs old))
          (d, λ f m. ((h f m).0, inr (h f m).1))
    | inr new ↦
        let (d, h) = unseen-IsNew (key x ∷ seen) xs in
        subst (IsNew seen (x ∷ xs)) (sym (unseen-new seen x xs new)) (
          (
            (λ m.
                let (f, l, e) = In-map key (key x) (unseen (key x ∷ seen) xs) m in
                (h f l).0 (inl (sym e))),
            d,
          ),
          (λ f m. elim m [
            | inl e ↦ (
              subst (λ (g : Finding). ¬ In (key g) seen) (sym e) (not_seen (key x) seen new),
              inl e,
            )
            | inr l ↦ ((λ k. (h f l).0 (inr k)), inr (h f l).1)
          ]),
        )
  ]

  -- Every key is either seen before or that of a finding that is passed on.
  pub unseen_complete :
      (seen : List Key) (findings : List Finding) (f : Finding)
      → In f findings
      → In (key f) seen ⊎ In (key f) (map key (unseen seen findings))
  unseen_complete seen [] f m = elim m [ ]
  unseen_complete seen (x ∷ xs) f m = elim (Bool-cases (has_seen (key x) seen)) [
    | inl old ↦
        subst (λ (fs : List Finding). In (key f) seen ⊎ In (key f) (map key fs))
          (sym (unseen-old seen x xs old))
          (elim m [
            | inl e ↦ inl (
                subst (λ (g : Finding). In (key g) seen) (sym e)
                  ((has_seen_iff (key x) seen).0 old))
            | inr l ↦ unseen_complete seen xs f l
          ])
    | inr new ↦
        subst (λ (fs : List Finding). In (key f) seen ⊎ In (key f) (map key fs))
          (sym (unseen-new seen x xs new))
          (elim m [
            | inl e ↦ inr (inl (ap key e))
            | inr l ↦ elim (unseen_complete (key x ∷ seen) xs f l) [
              | inl s ↦ elim s [ inl e ↦ inr (inl e) | inr k ↦ inl k ]
              | inr k ↦ inr (inr k)
            ]
          ])
  ]

  -- What the attempts detect, before any is left out.
  unfoldable pub detect_all : List Attempt → Result AnalysisError (List Finding)
  detect_all [] = ok []
  detect_all (attempt ∷ rest) = do
    outcome ← detect engine attempt
    later ← detect_all rest
    ok (elim outcome [ none ↦ later | some finding ↦ finding ∷ later ])

  abbrev pub filtered :
      List Key → Result AnalysisError (List Finding) → Result AnalysisError (List Finding)
  filtered seen r = r >>= λ findings. ok (unseen seen findings)

  unseen_nothing :
      (seen : List Key)
      → ◌≡◌ {A = Result AnalysisError (List Finding)} (ok []) (ok (unseen seen []))
  unfolding take_new
  unseen_nothing seen = refl

  pub scan-filtered :
      (seen : List Key) (rest : List Attempt)
      → scan engine seen rest ≡ filtered seen (detect_all rest)
  unfolding scan detect_all
  scan-filtered seen [] = unseen_nothing seen
  scan-filtered seen (a ∷ rest) =
      go (detect engine a) (detect_all rest) (scan-filtered seen rest)
        (λ k. scan-filtered (k ∷ seen) rest)
    where
      go :
          (outcome : Result AnalysisError (Option Finding))
          (later : Result AnalysisError (List Finding))
          → scan engine seen rest ≡ filtered seen later
          → ((k : Key) → scan engine (k ∷ seen) rest ≡ filtered (k ∷ seen) later)
          → (outcome >>= λ o. elim o [
            | none ↦ scan engine seen rest
            | some finding ↦
                if has_seen (key finding) seen
                then scan engine seen rest
                else scan engine (key finding ∷ seen) rest >>= λ fs. ok (finding ∷ fs)
          ])
            ≡ filtered seen (
                outcome >>= λ o.
                later >>= λ fs. ok (elim o [ none ↦ fs | some finding ↦ finding ∷ fs ]))
      go (err e) later h k = refl
      go (ok none) (err e) h k = h
      go (ok none) (ok fs) h k = h
      go (ok (some f)) (err e) h k = elim (Bool-cases (has_seen (key f) seen)) [
        | inl old ↦ rw old h
        | inr new ↦ rw new (rw (k (key f)) refl)
      ]
      go (ok (some f)) (ok fs) h k = elim (Bool-cases (has_seen (key f) seen)) [
        | inl old ↦
            rw old
              (h ∙ ap {B = Result AnalysisError (List Finding)} ok (sym (unseen-old seen f fs old)))
        | inr new ↦ rw new (
            ap (λ (r : Result AnalysisError (List Finding)). r >>= λ gs. ok (f ∷ gs)) (k (key f))
            ∙ ap {B = Result AnalysisError (List Finding)} ok (sym (unseen-new seen f fs new)))
      ]
