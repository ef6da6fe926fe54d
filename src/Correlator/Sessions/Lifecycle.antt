-- ===== src/Correlator/Sessions/Lifecycle.antt =====
-- Lifecycles of a session: each runs from a logon to the logoff that follows it, or to the next logon.
use breach_scope.Prelude.{
  suc, ◌≤◌, ◌≡◌, refl, sym, ap, subst, ◌⊎◌, inl, inr, true, String, none, some, List, [], ◌∷◌, ◌++◌,
  arith, leb, leb→le, length, length-append, map, All, All-append, Bool-cases, member, member_iff,
  In, Distinct,
}
use breach_scope.Prelude.Sorting.{sort, Distinct-sort}
use breach_scope.Schemas.{Event}
use breach_scope.Analyzer.Texts.{Engine}
use breach_scope.Analyzer.Windows.{parse_timestamp}
use breach_scope.Correlator.{get_event_identity_key}
use breach_scope.Correlator.Sessions.{
  Stamped, has_id, closed, timestamped, first_of_each, lifecycle_le, lifecycle_loop,
  session_lifecycle_segments,
}
use breach_scope.Correlator.Sessions.Keeping.{
  Keeps, done, skipped, taken, joined, lifecycle_loop-Adds,
}

-- User-initiated logoffs, and at most one logoff, which is the last.
abbrev pub EndsOnce : List Event → Type 0
EndsOnce [] = Unit
EndsOnce (e ∷ []) = (has_id "4647" e ≡ true) ⊎ (has_id "4634" e ≡ true)
EndsOnce (e ∷ f ∷ rest) = (has_id "4647" e ≡ true) × EndsOnce (f ∷ rest)

-- A logon, and what ends its session.
abbrev pub IsLifecycle : List Event → Type 0
IsLifecycle [] = ⊥
IsLifecycle (e ∷ rest) = (has_id "4624" e ≡ true) × (1 ≤ length rest) × EndsOnce rest

-- A lifecycle under way: a logon, and user-initiated logoffs.
abbrev IsOpen : List Event → Type 0
IsOpen [] = Unit
IsOpen (e ∷ rest) = (has_id "4624" e ≡ true) × All (λ f. has_id "4647" f ≡ true) rest

EndsOnce-open : (rest : List Event) → All (λ f. has_id "4647" f ≡ true) rest → EndsOnce rest
EndsOnce-open [] h = tt
EndsOnce-open (e ∷ []) h = inl h.0
EndsOnce-open (e ∷ f ∷ rest) h = (h.0, EndsOnce-open (f ∷ rest) h.1)

EndsOnce-snoc :
    (rest : List Event) (last : Event)
    → All (λ f. has_id "4647" f ≡ true) rest
    → has_id "4634" last ≡ true
    → EndsOnce (rest ++ last ∷ [])
EndsOnce-snoc [] last h e = inr e
EndsOnce-snoc (x ∷ []) last h e = (h.0, inr e)
EndsOnce-snoc (x ∷ y ∷ rest) last h e = (h.0, EndsOnce-snoc (y ∷ rest) last h.1 e)

closed-IsLifecycle :
    (segments : List (List Event)) (current : List Event)
    → IsOpen current
    → All IsLifecycle segments
    → All IsLifecycle (closed segments current)
unfolding closed
closed-IsLifecycle segments [] open' h = h
closed-IsLifecycle segments (e ∷ rest) open' h = elim (Bool-cases (leb 2 (suc (length rest)))) [
  | inl two ↦ rw two (
      All-append IsLifecycle segments ((e ∷ rest) ∷ []) h (
        (open'.0, omega (arith, leb→le 2 (suc (length rest)) two), EndsOnce-open rest open'.1),
        tt,
      ))
  | inr one ↦ rw one h
]

lifecycle_loop-IsLifecycle :
    (events : List Event) (segments : List (List Event)) (current : List Event)
    → IsOpen current
    → All IsLifecycle segments
    → All IsLifecycle (lifecycle_loop events segments current)
unfolding lifecycle_loop
lifecycle_loop-IsLifecycle [] segments current open' h = closed-IsLifecycle segments current open' h
lifecycle_loop-IsLifecycle (e ∷ events) segments [] open' h = elim (Bool-cases (has_id "4624" e)) [
  | inl logon ↦ rw logon (lifecycle_loop-IsLifecycle events segments (e ∷ []) (logon, tt) h)
  | inr other ↦ rw other (lifecycle_loop-IsLifecycle events segments [] tt h)
]
lifecycle_loop-IsLifecycle (e ∷ events) segments (first ∷ current) open' h =
    elim (Bool-cases (has_id "4624" e)) [
      | inl logon ↦ rw logon (
          lifecycle_loop-IsLifecycle events (closed segments (first ∷ current)) (e ∷ []) (logon, tt)
            (closed-IsLifecycle segments (first ∷ current) open' h))
      | inr other ↦ rw other (elim (Bool-cases (has_id "4647" e)) [
        | inl user ↦ rw user (
            lifecycle_loop-IsLifecycle events segments (first ∷ current ++ e ∷ [])
              (open'.0, All-append _ current (e ∷ []) open'.1 (user, tt)) h)
        | inr other' ↦ rw other' (elim (Bool-cases (has_id "4634" e)) [
          | inl logoff ↦ rw logoff (
              lifecycle_loop-IsLifecycle events (segments ++ (first ∷ current ++ e ∷ []) ∷ []) [] tt
                (All-append IsLifecycle segments ((first ∷ current ++ e ∷ []) ∷ []) h (
                  (
                    open'.0,
                    omega (arith, length-append current (e ∷ [])),
                    EndsOnce-snoc current e open'.1 logoff,
                  ),
                  tt,
                )))
          | inr none_of ↦
              rw none_of (lifecycle_loop-IsLifecycle events segments (first ∷ current) open' h)
        ])
      ])
    ]

module _ (engine : Engine) where
  abbrev key : Event → String
  key = get_event_identity_key engine

  first_of_each-new :
      (seen : List String) (events : List Event) (k : String)
      → In k seen
      → ¬ In k (map key (first_of_each engine seen events))
  unfolding first_of_each
  first_of_each-new seen [] k m = λ n. elim n [ ]
  first_of_each-new seen (e ∷ events) k m = elim (Bool-cases (member (key e) seen)) [
    | inl old ↦ rw old (first_of_each-new seen events k m)
    | inr new ↦ rw new (λ n. elim n [
      | inl same ↦ cc (new, (member_iff (key e) seen).1 (subst (λ (t : String). In t seen) same m))
      | inr l ↦ first_of_each-new (key e ∷ seen) events k (inr m) l
    ])
  ]

  first_of_each-Distinct :
      (seen : List String) (events : List Event)
      → Distinct (map key (first_of_each engine seen events))
  unfolding first_of_each
  first_of_each-Distinct seen [] = tt
  first_of_each-Distinct seen (e ∷ events) = elim (Bool-cases (member (key e) seen)) [
    | inl old ↦ rw old (first_of_each-Distinct seen events)
    | inr new ↦ rw new (
      first_of_each-new (key e ∷ seen) events (key e) (inl refl),
      first_of_each-Distinct (key e ∷ seen) events,
    )
  ]

  timestamped-Keeps :
      (events : List Event) → Keeps (map (λ (s : Stamped). s.1) (timestamped engine events)) events
  unfolding timestamped
  timestamped-Keeps [] = done
  timestamped-Keeps (e ∷ events) =
      elim (parse_timestamp engine e.timestamp)
        as (λ o.
          Keeps
            (map (λ (s : Stamped). s.1)
              (elim o as (λ x. List Stamped) [
                | none ↦ timestamped engine events
                | some t ↦ (t, e) ∷ timestamped engine events
              ]))
            (e ∷ events)) [
              | none ↦ skipped e (timestamped-Keeps events)
              | some t ↦ taken e (timestamped-Keeps events)
            ]

  Keeps-In : (xs ys : List Event) (k : String) → Keeps xs ys → In k (map key xs) → In k (map key ys)
  Keeps-In _ _ k done m = m
  Keeps-In xs _ k (skipped {ys = ys} y h) m = inr (Keeps-In xs ys k h m)
  Keeps-In _ _ k (taken {xs = xs} {ys = ys} y h) (inl e) = inl e
  Keeps-In _ _ k (taken {xs = xs} {ys = ys} y h) (inr m) = inr (Keeps-In xs ys k h m)

  Keeps-Distinct :
      (xs ys : List Event) → Keeps xs ys → Distinct (map key ys) → Distinct (map key xs)
  Keeps-Distinct _ _ done d = d
  Keeps-Distinct xs _ (skipped {ys = ys} y h) d = Keeps-Distinct xs ys h d.1
  Keeps-Distinct _ _ (taken {xs = xs} {ys = ys} y h) d =
      ((λ m. d.0 (Keeps-In xs ys (key y) h m)), Keeps-Distinct xs ys h d.1)

  map-key :
      (xs : List Stamped)
      → map key (map (λ (s : Stamped). s.1) xs) ≡ map (λ (s : Stamped). key s.1) xs
  map-key [] = refl
  map-key (x ∷ xs) = ap (λ (ks : List String). key x.1 ∷ ks) (map-key xs)

  abbrev pub ordered : List Event → List Event
  ordered grouped_events =
      map (λ (s : Stamped). s.1)
        (sort (lifecycle_le engine) (timestamped engine (first_of_each engine [] grouped_events)))

  ordered-Distinct : (grouped_events : List Event) → Distinct (map key (ordered grouped_events))
  ordered-Distinct grouped_events =
      let stamped = timestamped engine (first_of_each engine [] grouped_events) in
      subst Distinct (sym (map-key (sort (lifecycle_le engine) stamped))) (
        Distinct-sort (λ (s : Stamped). key s.1) (lifecycle_le engine) stamped
          (subst Distinct (map-key stamped) (
            Keeps-Distinct (map (λ (s : Stamped). s.1) stamped)
              (first_of_each engine [] grouped_events)
              (timestamped-Keeps (first_of_each engine [] grouped_events))
              (first_of_each-Distinct [] grouped_events))))

  -- The segments of a session are lifecycles: each starts with a logon, goes on with user-initiated logoffs and at
  -- most one logoff, which ends it, and has two events or more. Together they hold some of the events that have a
  -- time, in order, and no event twice, an event being known by its identity.
  pub session_lifecycle_segments-IsLifecycle :
      (grouped_events : List Event)
      → All IsLifecycle (session_lifecycle_segments engine grouped_events)
        × Keeps (joined (session_lifecycle_segments engine grouped_events)) (ordered grouped_events)
        × Distinct (
            map
              (get_event_identity_key engine)
              (joined (session_lifecycle_segments engine grouped_events)))
  unfolding session_lifecycle_segments
  session_lifecycle_segments-IsLifecycle grouped_events =
      let events = ordered grouped_events in
      let a = lifecycle_loop-Adds events [] [] in
      let kept : Keeps (joined (lifecycle_loop events [] [])) events =
        subst (λ (ss : List (List Event)). Keeps (joined ss) events) (sym a.result) a.kept in
      (
        lifecycle_loop-IsLifecycle events [] [] tt tt,
        kept,
        Keeps-Distinct (joined (lifecycle_loop events [] [])) events kept
            (ordered-Distinct grouped_events),
      )
