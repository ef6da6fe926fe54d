-- ===== src/Correlator/Rules/Candidates.antt =====
-- The binary searches find exactly the later events in the window that match.
use breach_scope.Prelude.{
  ℕ, zero, suc, ◌+◌, ◌-◌, ◌*◌, ◌≤◌, ◌<◌, ◌≡◌, refl, ap, subst, ◌∙◌, inl, inr, Bool, true, ◌&&◌,
  Option, none, some, some-eq-some, List, [], ◌∷◌, arith, ltb, leb, take, drop, keep, map, All,
  All-keep, Bool-cases, if◌then◌else◌,
}
use breach_scope.Prelude.Bisect.{
  get_elem?, get_elem?-map, bisect_right, bisect_right-Splits, take-map, drop-map, length-map,
  take-drop, map-IsRising, Apart-keep,
}
use breach_scope.Prelude.Rows.{Apart}
use breach_scope.Prelude.Sorting.{IsSorted}
use breach_scope.Schemas.{Event}
use breach_scope.Analyzer.Texts.{Engine}
use breach_scope.Correlator.Sessions.{Stamped, by_time}
use breach_scope.Correlator.Rules.{
  CorrelationRule, enumerate, timestamp_at, is_b, candidate_b_indices, candidate_b_timestamps,
  shares_fields, followers, window_positions, chain_events,
}

abbrev pub Numbered : Type 0
Numbered = ℕ × Stamped

-- Entries in their order, and in that of time.
abbrev Precedes : Numbered → Numbered → Type 0
Precedes a b = (a.0 < b.0) × (a.1.0 ≤ b.1.0)

-- The entry stands where its number says.
abbrev StandsIn : List Stamped → Numbered → Type 0
StandsIn indexed entry = get_elem? indexed entry.0 ≡ some entry.1

enumerate-All :
    (P : Numbered → Type 0) (k : ℕ) (xs : List Stamped)
    → ((i : ℕ) (s : Stamped) → get_elem? xs i ≡ some s → P (k + i, s))
    → All P (enumerate k xs)
unfolding enumerate get_elem?
enumerate-All P k [] h = tt
enumerate-All P k (x ∷ xs) h = (
  subst (λ (n : ℕ). P (n, x)) (omega arith) (h 0 x refl),
  enumerate-All P (suc k) xs (λ i s e. subst (λ (n : ℕ). P (n, s)) (omega arith) (h (suc i) s e)),
)

All-get_elem? :
    {A : Type 0} (P : A → Type 0) (xs : List A) (i : ℕ) {a : A}
    → All P xs
    → get_elem? xs i ≡ some a
    → P a
unfolding get_elem?
All-get_elem? P [] i h e = cc e
All-get_elem? P (x ∷ xs) zero h e = subst P (some-eq-some e) h.0
All-get_elem? P (x ∷ xs) (suc i) h e = All-get_elem? P xs i h.1 e

enumerate-Apart :
    (k : ℕ) (xs : List Stamped) → IsSorted by_time xs → Apart Precedes (enumerate k xs)
unfolding enumerate by_time
enumerate-Apart k [] h = tt
enumerate-Apart k (x ∷ xs) h = (
  enumerate-All (λ e. Precedes (k, x) e) (suc k) xs
      (λ i s e. (
        omega arith,
        (let le = All-get_elem? (λ y. by_time x y ≡ true) xs i h.0 e in ground (arith, le)),
      )),
  enumerate-Apart (suc k) xs h.1,
)

enumerate-StandsIn : (xs : List Stamped) → All (StandsIn xs) (enumerate 0 xs)
enumerate-StandsIn xs =
    enumerate-All (StandsIn xs) 0 xs
      (λ i s e. subst (λ (n : ℕ). get_elem? xs n ≡ some s) (omega arith) e)

map-timestamp_at :
    (indexed : List Stamped) (xs : List Numbered)
    → All (StandsIn indexed) xs
    → map (timestamp_at indexed) (map (λ (entry : Numbered). entry.0) xs)
      ≡ map (λ (entry : Numbered). entry.1.0) xs
map-timestamp_at indexed [] h = refl
map-timestamp_at indexed (x ∷ xs) h =
    ap
      (λ (o : Option Stamped).
        (elim o as (λ y. ℕ) [ none ↦ 0 | some s ↦ s.0 ])
        ∷ map (timestamp_at indexed) (map (λ (entry : Numbered). entry.0) xs))
      h.0
    ∙ ap (λ (ts : List ℕ). x.1.0 ∷ ts) (map-timestamp_at indexed xs h.1)

-- Later than the event at `i`, and not after the end.
abbrev pub in_window : (i window_end : ℕ) → Numbered → Bool
in_window i window_end entry = ltb i entry.0 && leb entry.1.0 window_end

module _ (engine : Engine) (isalnum : ℕ → Bool) (rule : CorrelationRule) (indexed : List Stamped)
    (sorted : IsSorted by_time indexed) where
  candidates : List Numbered
  candidates = keep (is_b engine isalnum rule) (enumerate 0 indexed)

  abbrev index_of : Numbered → ℕ
  index_of entry = entry.0

  abbrev time_of : Numbered → ℕ
  time_of entry = entry.1.0

  candidates-Apart : Apart Precedes candidates
  unfolding candidates
  candidates-Apart =
      Apart-keep Precedes (is_b engine isalnum rule) (enumerate 0 indexed)
        (enumerate-Apart 0 indexed sorted)

  candidates-StandsIn : All (StandsIn indexed) candidates
  unfolding candidates
  candidates-StandsIn =
      All-keep (StandsIn indexed) (is_b engine isalnum rule) (enumerate 0 indexed)
        (enumerate-StandsIn indexed)

  positions :
      (i window_end : ℕ)
      → (let indices = map index_of candidates in
          let start = bisect_right indices i 0 in
          let end' = bisect_right (map time_of candidates) window_end start in
          take (end' - start) (drop start indices)
          ≡ map index_of (keep (in_window i window_end) candidates))
  positions i window_end =
      let indices = map index_of candidates in
      let times = map time_of candidates in
      let start = bisect_right indices i 0 in
      let end' = bisect_right times window_end start in
      let a =
        bisect_right-Splits indices i
          (map-IsRising Precedes index_of (λ x y r. omega (arith, r)) candidates candidates-Apart) 0
          (omega arith) in
      let b =
        bisect_right-Splits times window_end
          (map-IsRising Precedes time_of (λ x y r. omega (arith, r)) candidates candidates-Apart)
          start
          (omega (arith, a.to, length-map index_of candidates, length-map time_of candidates)) in
      ap (take (end' - start)) (drop-map index_of candidates start)
      ∙ (take-map index_of (drop start candidates) (end' - start)
          ∙ ap (map index_of) (
              take-drop (in_window i window_end) candidates start end' (λ p c at. (
                (λ t. (
                  inside start p (λ lt.
                      let le =
                        a.below p c.0 (omega arith) lt (get_elem?-map index_of candidates p at) in
                      ground (arith, t, le)),
                  outside end' p (λ le.
                      let lt = b.above p c.1.0 le (get_elem?-map time_of candidates p at) in
                      ground (arith, t, lt)),
                )),
                (λ w.
                    let lt = a.above p c.0 w.0 (get_elem?-map index_of candidates p at) in
                    let le = b.below p c.1.0 w.0 w.1 (get_elem?-map time_of candidates p at) in
                    ground (arith, lt, le)),
              ))))
    where
      inside : (s p : ℕ) → (p < s → ⊥) → s ≤ p
      inside s p h = elim (Bool-cases (ltb p s)) [
        | inl lt ↦ absurd (h (ground (arith, lt)))
        | inr ge ↦ ground (arith, ge)
      ]

      outside : (e p : ℕ) → (e ≤ p → ⊥) → p < e
      outside e p h = elim (Bool-cases (ltb p e)) [
        | inl lt ↦ ground (arith, lt)
        | inr ge ↦ absurd (h (ground (arith, ge)))
      ]

  followers-keep :
      (event_a : Event) (xs : List Numbered)
      → All (StandsIn indexed) xs
      → followers engine isalnum rule indexed event_a (map index_of xs)
        ≡ map
            (λ (entry : Numbered). entry.1.1)
            (keep (λ entry. shares_fields engine isalnum rule event_a entry.1.1) xs)
  unfolding followers keep
  followers-keep event_a [] h = refl
  followers-keep event_a (x ∷ xs) h =
      let later = followers engine isalnum rule indexed event_a (map index_of xs) in
      ap
        (λ (o : Option Stamped). elim o as (λ y. List Event) [
          | none ↦ later
          | some s ↦ if shares_fields engine isalnum rule event_a s.1 then s.1 ∷ later else later
        ])
        h.0
      ∙ (elim (Bool-cases (shares_fields engine isalnum rule event_a x.1.1)) [
        | inl yes' ↦ rw yes' (ap (λ (es : List Event). x.1.1 ∷ es) (followers-keep event_a xs h.1))
        | inr no' ↦ rw no' (followers-keep event_a xs h.1)
      ])

  -- On events in the order of time, a chain is its first event and, in order, all later ones that stand in the time
  -- window, match the second patterns of the rule and share the required fields.
  pub chain_events-keep :
      (i : ℕ) (a : Stamped)
      → chain_events engine isalnum rule indexed i a
        ≡ a.1
          ∷ map
              (λ (entry : ℕ × Stamped). entry.1.1)
              (keep
                (λ entry. shares_fields engine isalnum rule a.1 entry.1.1)
                (keep
                  (in_window i (a.0 + rule.time_window_seconds * 1000000))
                  (keep (is_b engine isalnum rule) (enumerate 0 indexed))))
  unfolding chain_events window_positions candidate_b_indices candidate_b_timestamps candidates
  chain_events-keep i a =
      let window_end = a.0 + rule.time_window_seconds * 1000000 in
      let indices = map index_of candidates in
      let start = bisect_right indices i 0 in
      ap (λ (es : List Event). a.1 ∷ es)
        (ap
            (λ (times : List ℕ).
              followers engine isalnum rule indexed a.1
                (take (bisect_right times window_end start - start) (drop start indices)))
            (map-timestamp_at indexed candidates candidates-StandsIn)
          ∙ (ap (followers engine isalnum rule indexed a.1) (positions i window_end)
              ∙ followers-keep a.1 (keep (in_window i window_end) candidates) (
                  All-keep (StandsIn indexed) (in_window i window_end) candidates
                    candidates-StandsIn)))
