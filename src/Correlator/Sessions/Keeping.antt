-- ===== src/Correlator/Sessions/Keeping.antt =====
-- The segments of a session keep some of its events, in their order.
use breach_scope.Prelude.{
  ◌≡◌, refl, sym, subst, ◌∙◌, inl, inr, List, [], ◌∷◌, ◌++◌, leb, length, Bool-cases,
}
use mathlib.Core.List.{append-nil, append_assoc}
use breach_scope.Schemas.{Event}
use breach_scope.Correlator.Sessions.{has_id, closed, lifecycle_loop}

-- The first list keeps some events of the second, in their order.
pub data Keeps : List Event → List Event → Type 0 where
  done : Keeps [] []
  skipped : {xs ys : List Event} (y : Event) → Keeps xs ys → Keeps xs (y ∷ ys)
  taken : {xs ys : List Event} (y : Event) → Keeps xs ys → Keeps (y ∷ xs) (y ∷ ys)

abbrev pub joined : List (List Event) → List Event
joined [] = []
joined (s ∷ ss) = s ++ joined ss

Keeps-all : (xs : List Event) → Keeps xs xs
Keeps-all [] = done
Keeps-all (x ∷ xs) = taken x (Keeps-all xs)

Keeps-none : (xs : List Event) → Keeps [] xs
Keeps-none [] = done
Keeps-none (x ∷ xs) = skipped x (Keeps-none xs)

Keeps-prefix : (xs ys zs : List Event) → Keeps ys zs → Keeps (xs ++ ys) (xs ++ zs)
Keeps-prefix [] ys zs k = k
Keeps-prefix (x ∷ xs) ys zs k = taken x (Keeps-prefix xs ys zs k)

Keeps-without : (xs ys zs : List Event) → Keeps ys zs → Keeps ys (xs ++ zs)
Keeps-without [] ys zs k = k
Keeps-without (x ∷ xs) ys zs k = skipped x (Keeps-without xs ys zs k)

Keeps-insert :
    (xs current : List Event) (e : Event) (zs : List Event)
    → Keeps xs (current ++ zs)
    → Keeps xs (current ++ e ∷ zs)
Keeps-insert xs [] e zs k = skipped e k
Keeps-insert xs (c ∷ current) e zs (skipped _ k) = skipped c (Keeps-insert xs current e zs k)
Keeps-insert _ (c ∷ current) e zs (taken {xs = ys} _ k) = taken c (Keeps-insert ys current e zs k)

-- What the loop adds to the segments that it has, of the events under way and those to come.
pub record Adds (segments : List (List Event)) (events : List Event) (out : List (List Event))
    : Type 0 where
  added : List (List Event)
  pub result : out ≡ segments ++ added
  pub kept : Keeps (joined added) events

closed-Adds :
    (segments : List (List Event)) (current : List Event)
    → Adds segments (current ++ []) (closed segments current)
unfolding closed
closed-Adds segments current = elim (Bool-cases (leb 2 (length current))) [
  | inl two ↦
      rw two
        (record { added = current ∷ []; result = refl; kept = Keeps-prefix current [] [] done })
  | inr one ↦
      rw one (record {
        added = [];
        result = sym (append-nil segments);
        kept = Keeps-none (current ++ []);
      })
]

closed_then-Adds :
    (segments : List (List Event)) (current events : List Event) {out : List (List Event)}
    → Adds (closed segments current) events out
    → Adds segments (current ++ events) out
unfolding closed
closed_then-Adds segments current events a = elim (Bool-cases (leb 2 (length current))) [
  | inl two ↦
      let b = rw (two, closed) at a in
      record {
        added = current ∷ b.added;
        result = b.result ∙ append_assoc segments (current ∷ []) b.added;
        kept = Keeps-prefix current (joined b.added) events b.kept;
      }
  | inr one ↦
      let b = rw (one, closed) at a in
      record {
        added = b.added;
        result = b.result;
        kept = Keeps-without current (joined b.added) events b.kept;
      }
]

pub lifecycle_loop-Adds :
    (events : List Event) (segments : List (List Event)) (current : List Event)
    → Adds segments (current ++ events) (lifecycle_loop events segments current)
unfolding lifecycle_loop
lifecycle_loop-Adds [] segments current = closed-Adds segments current
lifecycle_loop-Adds (e ∷ events) segments [] = elim (Bool-cases (has_id "4624" e)) [
  | inl logon ↦ rw logon (lifecycle_loop-Adds events segments (e ∷ []))
  | inr other ↦
      let a = lifecycle_loop-Adds events segments [] in
      rw other (record { added = a.added; result = a.result; kept = skipped e a.kept })
]
lifecycle_loop-Adds (e ∷ events) segments (first ∷ current) = elim (Bool-cases (has_id "4624" e)) [
  | inl logon ↦ rw logon (
      closed_then-Adds segments (first ∷ current) (e ∷ events)
        (lifecycle_loop-Adds events (closed segments (first ∷ current)) (e ∷ [])))
  | inr other ↦ rw other (elim (Bool-cases (has_id "4647" e)) [
    | inl user ↦ rw user (moved (lifecycle_loop-Adds events segments (first ∷ current ++ e ∷ [])))
    | inr other' ↦ rw other' (elim (Bool-cases (has_id "4634" e)) [
      | inl logoff ↦
          let a = lifecycle_loop-Adds events (segments ++ (first ∷ current ++ e ∷ []) ∷ []) [] in
          rw logoff (
            moved (record {
              added = (first ∷ current ++ e ∷ []) ∷ a.added;
              result = a.result ∙ append_assoc segments ((first ∷ current ++ e ∷ []) ∷ []) a.added;
              kept = Keeps-prefix (first ∷ current ++ e ∷ []) (joined a.added) events a.kept;
            }))
      | inr none_of ↦
          let a = lifecycle_loop-Adds events segments (first ∷ current) in
          rw none_of (record {
            added = a.added;
            result = a.result;
            kept = Keeps-insert (joined a.added) (first ∷ current) e events a.kept;
          })
    ])
  ])
]
  where
    moved :
        {out : List (List Event)}
        → Adds segments ((first ∷ current ++ e ∷ []) ++ events) out
        → Adds segments ((first ∷ current) ++ e ∷ events) out
    moved {out} a =
        subst (λ (xs : List Event). Adds segments (first ∷ xs) out)
          (append_assoc current (e ∷ []) events) a
