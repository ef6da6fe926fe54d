-- ===== src/Correlator/Sessions/Activity.antt =====
-- Bursts of activity: the cut of events in the order of time where a window of 30 minutes runs out.
use breach_scope.Prelude.{
  suc, ◌+◌, ◌≤◌, ◌<◌, ◌≡◌, refl, sym, ap, subst, ◌∙◌, inl, inr, Bool, true, false, List, [], ◌∷◌,
  ◌++◌, arith, leb, leb→le, length, keep, map, All, All-append, Bool-cases, if◌then◌else◌,
}
use mathlib.Core.List.{append-nil, append_assoc}
use breach_scope.Prelude.Sorting.{sort, IsSorted, sort-IsSorted}
use breach_scope.Schemas.{Event}
use breach_scope.Analyzer.Texts.{Engine}
use breach_scope.Correlator.Sessions.{
  Stamped, activity_window, timestamped, by_time, closed, activity_loop, activity_segments,
}

-- A group of events, the first of which is given apart.
abbrev pub Burst : Type 0
Burst = Stamped × List Stamped

abbrev pub members : Burst → List Stamped
members g = g.0 ∷ g.1

abbrev pub stamped_of : List Burst → List Stamped
stamped_of [] = []
stamped_of (g ∷ gs) = members g ++ stamped_of gs

abbrev pub events_of : Burst → List Event
events_of g = map (λ (s : Stamped). s.1) (members g)

abbrev pub is_segment : Burst → Bool
is_segment g = leb 2 (length (members g))

abbrev pub StartsAfter : Burst → List Burst → Type 0
StartsAfter g [] = Unit
StartsAfter g (h ∷ gs) = g.0.0 + activity_window < h.0.0

-- Each group lasts at most 30 minutes from its first event, and the next one starts later than that.
abbrev pub IsGreedy : List Burst → Type 0
IsGreedy [] = Unit
IsGreedy (g ∷ gs) =
    All (λ (s : Stamped). s.0 ≤ g.0.0 + activity_window) g.1 × StartsAfter g gs × IsGreedy gs

length-events : (xs : List Stamped) → length (map (λ (s : Stamped). s.1) xs) ≡ length xs
length-events [] = refl
length-events (x ∷ xs) = ap suc (length-events xs)

events-append :
    (xs ys : List Stamped)
    → map (λ (s : Stamped). s.1) (xs ++ ys)
      ≡ map (λ (s : Stamped). s.1) xs ++ map (λ (s : Stamped). s.1) ys
events-append [] ys = refl
events-append (x ∷ xs) ys = ap (λ (es : List Event). x.1 ∷ es) (events-append xs ys)

closed-keep :
    (segments : List (List Event)) (g : Burst) (gs : List Burst)
    → closed segments (events_of g) ++ map events_of (keep is_segment gs)
      ≡ segments ++ map events_of (keep is_segment (g ∷ gs))
unfolding closed keep
closed-keep segments g gs = elim (Bool-cases (is_segment g)) [
  | inl two ↦
      let two' : leb 2 (length (events_of g)) ≡ true =
        ap (leb 2) (length-events (members g)) ∙ two in
      ap
        (λ (b : Bool).
          (if b then segments ++ events_of g ∷ [] else segments)
          ++ map events_of (keep is_segment gs))
        two'
      ∙ (append_assoc segments (events_of g ∷ []) (map events_of (keep is_segment gs))
          ∙ ap
              (λ (b : Bool).
                segments
                ++ map events_of (if b then g ∷ keep is_segment gs else keep is_segment gs))
              (sym two))
  | inr one ↦
      let one' : leb 2 (length (events_of g)) ≡ false =
        ap (leb 2) (length-events (members g)) ∙ one in
      ap
        (λ (b : Bool).
          (if b then segments ++ events_of g ∷ [] else segments)
          ++ map events_of (keep is_segment gs))
        one'
      ∙ ap
          (λ (b : Bool).
            segments ++ map events_of (if b then g ∷ keep is_segment gs else keep is_segment gs))
          (sym one)
]

-- What the loop makes of a group under way and the rest.
record Cut (h : Stamped) (tail rest : List Stamped) (segments out : List (List Event))
    : Type 0 where
  first : Burst
  later : List Burst
  head : first.0 ≡ h
  whole : stamped_of (first ∷ later) ≡ (h ∷ tail) ++ rest
  greedy : IsGreedy (first ∷ later)
  result : out ≡ segments ++ map events_of (keep is_segment (first ∷ later))

activity_loop-Cut :
    (h : Stamped) (tail rest : List Stamped) (segments : List (List Event))
    → All (λ (s : Stamped). s.0 ≤ h.0 + activity_window) tail
    → Cut h tail rest segments (activity_loop rest segments (events_of (h, tail)) h.0)
unfolding activity_loop keep
activity_loop-Cut h tail [] segments within = record {
  first = (h, tail);
  later = [];
  head = refl;
  whole = refl;
  greedy = (within, tt, tt);
  result =
      sym (append-nil (closed segments (events_of (h, tail)))) ∙ closed-keep segments (h, tail) [];
}
activity_loop-Cut h tail (s ∷ rest) segments within =
    elim (Bool-cases (leb s.0 (h.0 + activity_window))) [
      | inl soon ↦
          let c =
            activity_loop-Cut h (tail ++ s ∷ []) rest segments
              (All-append _ tail (s ∷ []) within (leb→le _ _ soon, tt)) in
          record {
            first = c.first;
            later = c.later;
            head = c.head;
            whole = c.whole ∙ ap (λ (xs : List Stamped). h ∷ xs) (append_assoc tail (s ∷ []) rest);
            greedy = c.greedy;
            result =
                ap
                  (λ (b : Bool).
                    if b
                    then activity_loop rest segments (events_of (h, tail) ++ s.1 ∷ []) h.0
                    else activity_loop rest (closed segments (events_of (h, tail))) (s.1 ∷ []) s.0)
                  soon
                ∙ (ap (λ (es : List Event). activity_loop rest segments (h.1 ∷ es) h.0)
                      (sym (events-append tail (s ∷ [])))
                    ∙ c.result);
          }
      | inr late ↦
          let c = activity_loop-Cut s [] rest (closed segments (events_of (h, tail))) tt in
          record {
            first = (h, tail);
            later = c.first ∷ c.later;
            head = refl;
            whole = ap (λ (xs : List Stamped). (h ∷ tail) ++ xs) c.whole;
            greedy = (
              within,
              subst (λ (x : Stamped). h.0 + activity_window < x.0) (sym c.head)
                  (ground (arith, late)),
              c.greedy,
            );
            result =
                ap
                  (λ (b : Bool).
                    if b
                    then activity_loop rest segments (events_of (h, tail) ++ s.1 ∷ []) h.0
                    else activity_loop rest (closed segments (events_of (h, tail))) (s.1 ∷ []) s.0)
                  late
                ∙ (c.result ∙ closed-keep segments (h, tail) (c.first ∷ c.later));
          }
    ]

-- The events that have a time, in the order of time, fall into groups: each lasts at most 30 minutes from its first
-- event, and the next one starts later than that. The segments are these groups, but for those of one event.
pub activity_segments-IsGreedy :
    (engine : Engine) (events : List Event)
    → (groups : List Burst) × (stamped_of groups ≡ sort by_time (timestamped engine events))
      × IsSorted by_time (stamped_of groups)
      × IsGreedy groups
      × (activity_segments engine events ≡ map events_of (keep is_segment groups))
unfolding activity_segments by_time keep
activity_segments-IsGreedy engine events = go (sort by_time (timestamped engine events)) (
    sort-IsSorted by_time (λ a b. ground arith) (λ a b c. ground arith) (timestamped engine events))
  where
    go :
        (stamped : List Stamped)
        → IsSorted by_time stamped
        → (groups : List Burst) × (stamped_of groups ≡ stamped)
          × IsSorted by_time (stamped_of groups)
          × IsGreedy groups
          × (activity_loop stamped [] [] 0 ≡ map events_of (keep is_segment groups))
    go [] sorted = ([], refl, sorted, tt, refl)
    go (s ∷ rest) sorted =
        let c = activity_loop-Cut s [] rest [] tt in
        (
          c.first ∷ c.later,
          c.whole,
          subst (IsSorted by_time) (sym c.whole) sorted,
          c.greedy,
          c.result,
        )
