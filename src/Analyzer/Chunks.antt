-- ===== src/Analyzer/Chunks.antt =====
-- A list of events by its slices, and the loop over the reports on them.
use breach_scope.Prelude.{
  ℕ, zero, suc, ◌≤◌, ◌≡◌, refl, sym, ap, subst, ◌∙◌, inl, inr, true, Option, none, some, List, [],
  ◌∷◌, ◌++◌, arith, map, take, drop, length, length-drop, In, In-append, In-append_left,
  In-append_right, Bool-cases,
}
use mathlib.Core.List.{append_assoc}
use breach_scope.Prelude.Result.{Result, ok, ◌>>=◌, >>=-eq-ok, ok-injective}
use breach_scope.Schemas.{Event, Rule, Finding}
use breach_scope.Analyzer.Texts.{Engine, Finder}
use breach_scope.Analyzer.Matcher.{AnalysisError}
use breach_scope.Analyzer.Rules.{
  Key, has_seen, Attempt, attempts, attempts_on, enriched, event_texts, detect, scan, take_new,
  collect, process_chunk, nonempty_chunks,
}
use breach_scope.Analyzer.Deduplication.{
  has_seen_iff, key, unseen, unseen-old, unseen-new, take_new-old, take_new-new, unseen-nothing,
  detect_all, filtered, scan-filtered,
}

unfoldable pub flatten {ℓ} : {A : Type ℓ} → List (List A) → List A
flatten [] = []
flatten (xs ∷ xss) = xs ++ flatten xss

pub In-flatten :
    {A : Type 0} (a : A) (xss : List (List A))
    → In a (flatten xss)
    → (xs : List A) × In xs xss × In a xs
unfolding flatten
In-flatten a [] m = elim m [ ]
In-flatten a (xs ∷ xss) m = elim (In-append a xs (flatten xss) m) [
  | inl l ↦ (xs, inl refl, l)
  | inr r ↦ let (ys, k, l) = In-flatten a xss r in (ys, inr k, l)
]

pub In-flatten_of :
    {A : Type 0} (a : A) (xs : List A) (xss : List (List A))
    → In xs xss
    → In a xs
    → In a (flatten xss)
unfolding flatten
In-flatten_of a xs [] k m = elim k [ ]
In-flatten_of a xs (ys ∷ yss) (inl e) m =
    In-append_left a ys (flatten yss) (subst (λ (zs : List _). In a zs) e m)
In-flatten_of a xs (ys ∷ yss) (inr k) m =
    In-append_right a ys (flatten yss) (In-flatten_of a xs yss k m)

take-drop : {A : Type 0} (n : ℕ) (xs : List A) → take n xs ++ drop n xs ≡ xs
take-drop zero xs = refl
take-drop (suc n) [] = refl
take-drop (suc n) (x ∷ xs) = ap (λ (ys : List _). x ∷ ys) (take-drop n xs)

-- The slices put together are the list: as many rounds as it has elements are enough.
pub flatten-chunks :
    {A : Type 0} (fuel n : ℕ) (xs : List A)
    → length xs ≤ fuel
    → flatten (nonempty_chunks fuel (suc n) xs) ≡ xs
unfolding flatten nonempty_chunks
flatten-chunks fuel n [] h = refl
flatten-chunks zero n (x ∷ xs) h = absurd (omega (arith, h))
flatten-chunks (suc fuel) n (x ∷ xs) h =
    ap (λ (ys : List _). take (suc n) (x ∷ xs) ++ ys)
      (flatten-chunks fuel n (drop (suc n) (x ∷ xs)) (omega (arith, h, length-drop n xs)))
    ∙ take-drop (suc n) (x ∷ xs)

with_outcome : Option Finding → List Finding → List Finding
with_outcome none later = later
with_outcome (some finding) later = finding ∷ later

with_outcome-eq :
    (o : Option Finding) (later : List Finding)
    → (elim o [ none ↦ later | some finding ↦ finding ∷ later ]) ≡ with_outcome o later
unfolding with_outcome
with_outcome-eq none later = refl
with_outcome-eq (some finding) later = refl

with_outcome-append :
    (o : Option Finding) (first second later : List Finding)
    → first ++ second ≡ later
    → with_outcome o first ++ second ≡ with_outcome o later
unfolding with_outcome
with_outcome-append none first second later e = e
with_outcome-append (some finding) first second later e = ap (λ (fs : List Finding). finding ∷ fs) e

module _ (engine : Engine) where
  -- A list that was filtered before is filtered as it was.
  unseen-unseen :
      (seen seen' : List Key) (xs ys : List Finding)
      → ((k : Key) → In k seen' → In k seen)
      → unseen engine seen (unseen engine seen' xs ++ ys) ≡ unseen engine seen (xs ++ ys)
  unseen-unseen seen seen' [] ys sub =
      ap (λ (p : List Finding × List Key). unseen engine seen (p.0 ++ ys))
        (unseen-nothing engine seen')
  unseen-unseen seen seen' (x ∷ xs) ys sub = elim (Bool-cases (has_seen (key engine x) seen')) [
    | inl old ↦
        let there : has_seen (key engine x) seen ≡ true =
          (has_seen_iff (key engine x) seen).1
            (sub (key engine x) ((has_seen_iff (key engine x) seen').0 old)) in
        ap (λ (zs : List Finding). unseen engine seen (zs ++ ys)) (unseen-old engine seen' x xs old)
        ∙ (unseen-unseen seen seen' xs ys sub ∙ sym (unseen-old engine seen x (xs ++ ys) there))
    | inr new ↦
        ap (λ (zs : List Finding). unseen engine seen (zs ++ ys)) (unseen-new engine seen' x xs new)
        ∙ elim (Bool-cases (has_seen (key engine x) seen)) [
          | inl there ↦
              unseen-old engine seen x (unseen engine (key engine x ∷ seen') xs ++ ys) there
              ∙ (unseen-unseen seen (key engine x ∷ seen') xs ys (λ k m. elim m [
                | inl e ↦
                    subst (λ (j : Key). In j seen) (sym e)
                      ((has_seen_iff (key engine x) seen).0 there)
                | inr l ↦ sub k l
              ])
                  ∙ sym (unseen-old engine seen x (xs ++ ys) there))
          | inr free ↦
              unseen-new engine seen x (unseen engine (key engine x ∷ seen') xs ++ ys) free
              ∙ (ap (λ (zs : List Finding). x ∷ zs)
                    (unseen-unseen (key engine x ∷ seen) (key engine x ∷ seen') xs ys
                      (λ k m. elim m [ inl e ↦ inl e | inr l ↦ inr (sub k l) ]))
                  ∙ sym (unseen-new engine seen x (xs ++ ys) free))
        ]
  ]

  abbrev rest_after : List Finding → List Finding × List Key → List Finding
  rest_after ys p = p.0 ++ unseen engine p.1 ys

  -- A filter of two lists in a row passes on the keys of the first.
  unseen-append :
      (seen : List Key) (xs ys : List Finding)
      → (take_new engine seen xs).0 ++ unseen engine (take_new engine seen xs).1 ys
        ≡ unseen engine seen (xs ++ ys)
  unseen-append seen [] ys = ap (λ p. rest_after ys p) (unseen-nothing engine seen)
  unseen-append seen (x ∷ xs) ys = elim (Bool-cases (has_seen (key engine x) seen)) [
    | inl old ↦
        ap (rest_after ys) (take_new-old engine seen x xs old)
        ∙ (unseen-append seen xs ys ∙ sym (unseen-old engine seen x (xs ++ ys) old))
    | inr new ↦
        ap (rest_after ys) (take_new-new engine seen x xs new)
        ∙ (ap (λ (zs : List Finding). x ∷ zs) (unseen-append (key engine x ∷ seen) xs ys)
            ∙ sym (unseen-new engine seen x (xs ++ ys) new))
  ]

  -- The loop over chunks that all succeed is one filter.
  pub collect-ok :
      (seen : List Key) (fss : List (List Finding))
      → collect engine seen (map ok fss) ≡ ok (unseen engine seen (flatten fss))
  unfolding collect flatten take_new
  collect-ok seen [] = refl
  collect-ok seen (fs ∷ fss) =
      ap
        (λ (r : Result AnalysisError (List Finding)).
          r >>= λ later. ok ((take_new engine seen fs).0 ++ later))
        (collect-ok (take_new engine seen fs).1 fss)
      ∙ ap {B = Result AnalysisError (List Finding)} ok (unseen-append seen fs (flatten fss))

  attempts-append :
      (xs ys : List Event) (compiled : List (Rule × Finder))
      → attempts engine (xs ++ ys) compiled
        ≡ attempts engine xs compiled ++ attempts engine ys compiled
  unfolding attempts
  attempts-append [] ys compiled = refl
  attempts-append (x ∷ xs) ys compiled =
      let first = attempts_on (enriched engine x) (event_texts engine x) compiled in
      ap (λ (more : List Attempt). first ++ more) (attempts-append xs ys compiled)
      ∙ sym (append_assoc first (attempts engine xs compiled) (attempts engine ys compiled))

  -- What is detected in two lists in a row.
  detect_all-append :
      (xs ys : List Attempt) {all : List Finding}
      → detect_all engine (xs ++ ys) ≡ ok all
      → (first second : List Finding) × (detect_all engine xs ≡ ok first)
        × (detect_all engine ys ≡ ok second)
        × (first ++ second ≡ all)
  unfolding detect_all
  detect_all-append [] ys {all} h = ([], all, refl, h, refl)
  detect_all-append (x ∷ xs) ys {all} h =
      let (outcome, e, h1) = >>=-eq-ok (detect engine x) _ h in
      let (later, f, h2) = >>=-eq-ok (detect_all engine (xs ++ ys)) _ h1 in
      let (first, second, a, b, c) = detect_all-append xs ys f in
      (
        with_outcome outcome first,
        second,
        rw e (
            rw a (ap {B = Result AnalysisError (List Finding)} ok (with_outcome-eq outcome first))),
        b,
        with_outcome-append outcome first second later c
            ∙ (sym (with_outcome-eq outcome later) ∙ ok-injective {E = AnalysisError} h2),
      )

  -- Chunks that end without an error, and what each of them detects.
  pub process_chunk-ok :
      (compiled : List (Rule × Finder)) (pieces : List (List Event)) {all : List Finding}
      → detect_all engine (attempts engine (flatten pieces) compiled) ≡ ok all
      → (found : List (List Finding)) × (map (process_chunk engine compiled) pieces
          ≡ map ok (map (unseen engine []) found))
        × (flatten found ≡ all)
  unfolding flatten process_chunk attempts detect_all
  process_chunk-ok compiled [] h = ([], refl, ok-injective h)
  process_chunk-ok compiled (piece ∷ pieces) h =
      let (first, second, a, b, c) =
        detect_all-append (attempts engine piece compiled)
          (attempts engine (flatten pieces) compiled)
          (ap (detect_all engine) (sym (attempts-append piece (flatten pieces) compiled)) ∙ h) in
      let (found, d, e) = process_chunk-ok compiled pieces b in
      let one : scan engine [] (attempts engine piece compiled) ≡ ok (unseen engine [] first) =
        scan-filtered engine [] (attempts engine piece compiled) ∙ ap (filtered engine []) a in
      (first ∷ found, cc (one, d), ap (λ (fs : List Finding). first ++ fs) e ∙ c)

  pub flatten-unseen :
      (seen : List Key) (found : List (List Finding))
      → unseen engine seen (flatten (map (unseen engine []) found))
        ≡ unseen engine seen (flatten found)
  unfolding flatten
  flatten-unseen seen [] = refl
  flatten-unseen seen (fs ∷ found) =
      let left = flatten (map (unseen engine []) found) in
      unseen-unseen seen [] fs left (λ k m. elim m [ ])
      ∙ (sym (unseen-append seen fs left)
          ∙ (ap (λ (zs : List Finding). (take_new engine seen fs).0 ++ zs)
                (flatten-unseen (take_new engine seen fs).1 found)
              ∙ unseen-append seen fs (flatten found)))
