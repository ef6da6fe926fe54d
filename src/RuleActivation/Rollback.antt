-- ===== src/RuleActivation/Rollback.antt =====
-- A rollback to the version before a commit brings its active list back.
use breach_scope.Prelude.{
  ℕ, suc, ◌+◌, ◌-◌, ◌≤◌, ◌<◌, ◌≡◌, refl, sym, ap, subst, zero, String, List, [], ◌∷◌, ◌++◌, arith,
  eqb, inl, inr, length, drop, length-append, Bool-cases, eqb_iff,
}
use breach_scope.Prelude.Text.{Unicode, ◌+++◌, decimal}
use breach_scope.Prelude.Result.{ok, ok-injective}
use breach_scope.RuleActivation.{
  Authoring, Entry, Snapshot, Manifest, stored, max_history, read, assert_version, commit_state,
  snapshot_of, save, rollback, find_snapshot, check_entries,
}
use breach_scope.RuleActivation.History.{EndsAt, EndsAt-drop, IsWellFormed}
use breach_scope.RuleActivation.Commits.{Request, perform, perform-Commit, moment, actor_of}

-- In a history that counts up, a version below the last is the one before it or earlier.
version-le-last :
    (version : ℕ) (active : List Entry) (s : Snapshot) (rest : List Snapshot)
    → EndsAt version active (s ∷ rest)
    → s.version ≤ version
version-le-last version active s [] h = omega arith
version-le-last version active s (t ∷ rest) h =
    omega (arith, version-le-last version active t rest h.1)

-- The search finds the last snapshot by its version.
find-EndsAt :
    (version : ℕ) (active : List Entry) (history : List Snapshot)
    → EndsAt version active history
    → (s : Snapshot) × (find_snapshot version history ≡ ok s) × (s.active ≡ active)
unfolding find_snapshot
find-EndsAt version active [] h = elim h [ ]
find-EndsAt version active (s ∷ []) h = (s, rw ((eqb_iff s.version version).1 h.0) refl, h.1)
find-EndsAt version active (s ∷ t ∷ rest) h =
    let (x, e, a) = find-EndsAt version active (t ∷ rest) h.1 in
    let late = version-le-last version active t rest h.1 in (x, ground (arith, e, late, h.0), a)

-- What stands behind the last but one snapshot does not matter to the search.
find-snoc :
    (version : ℕ) (history : List Snapshot) (n : Snapshot) {s : Snapshot}
    → find_snapshot version history ≡ ok s
    → find_snapshot version (history ++ n ∷ []) ≡ ok s
unfolding find_snapshot
find-snoc version [] n h = cc
find-snoc version (t ∷ ts) n h = elim (Bool-cases (eqb t.version version)) [
  | inl hit ↦ rw hit (rw hit at h)
  | inr miss ↦ rw miss (find-snoc version ts n (rw miss at h))
]

drop-append :
    {A : Type 0} (k : ℕ) (xs ys : List A) → k ≤ length xs → drop k (xs ++ ys) ≡ drop k xs ++ ys
drop-append zero xs ys h = refl
drop-append (suc k) [] ys h = elim h [ ]
drop-append (suc k) (x ∷ xs) ys h = drop-append k xs ys (omega arith)

positive :
    (version : ℕ) (active : List Entry) (history : List Snapshot)
    → EndsAt version active history
    → 0 < length history
positive version active [] h = elim h [ ]
positive version active (s ∷ rest) h = omega arith

module _ (u : Unicode) where
  -- After a commit the history still holds the snapshot before it.
  find-commit_state :
      (now : String) (m : Manifest) (active : List Entry) (actor reason : String)
      → IsWellFormed u m
      → (s : Snapshot) × (find_snapshot m.version (commit_state now m active actor reason).history
          ≡ ok s)
        × (s.active ≡ m.active)
  unfolding commit_state
  find-commit_state now m active actor reason h =
      let n = snapshot_of now m active actor reason in
      let k = length (m.history ++ n ∷ []) - max_history in
      let small : k < length m.history =
        omega (arith, h.bounded, length-append m.history (n ∷ []), positive _ _ _ h.ends) in
      let (s, e, a) =
        find-EndsAt m.version m.active (drop k m.history) (EndsAt-drop k _ _ _ small h.ends) in
      (
        s,
        rw (drop-append k m.history (n ∷ []) (omega (arith, small))) (find-snoc m.version _ n e),
        a,
      )

  module _ (store : Authoring) where
    -- From a well-formed manifest: after any request that commits, a rollback to the version before it
    -- commits too, if the publications behind the earlier active list still pass their checks. It makes
    -- that list active again, under a version of its own, two above the earlier one.
    pub rollback_restores :
        (r : Request) (m m' : Manifest) (now actor : String)
        → IsWellFormed u m
        → (perform u store r (stored m)).0 ≡ ok m'
        → check_entries store m.active ≡ ok tt
        → (back : Manifest) × (rollback store now m.version m'.version actor (stored m')
            ≡ (ok back, stored back))
          × (back.active ≡ m.active)
          × (back.version ≡ m.version + 2)
    unfolding rollback read assert_version save commit_state snapshot_of
    rollback_restores r m m' now actor h done checked =
        let c = perform-Commit u store r (stored m) m' done in
        let same : c.doc ≡ m = sym (ok-injective c.found) in
        let made =
          subst (λ (d : Manifest). commit_state (moment r) d c.active (actor_of r) c.reason ≡ m')
            same c.made in
        let (s, e, a) = find-commit_state (moment r) m c.active (actor_of r) c.reason h in
        let found = subst (λ (n : Manifest). find_snapshot m.version n.history ≡ ok s) made e in
        let valid = subst (λ (l : List Entry). check_entries store l ≡ ok tt) (sym a) checked in
        let next = ap (λ (n : Manifest). n.version) made in
        (
          commit_state now m' s.active actor
              ("rollback to activation version " +++ decimal m.version),
          rw ((eqb_iff m'.version m'.version).1 refl) (rw found (rw valid refl)),
          a,
          omega (arith, next),
        )
