-- ===== src/RuleActivation/History.antt =====
-- The invariant of a manifest: its active list is well kept, and its history, of at most 100
-- snapshots, counts the versions up to the current one.
use breach_scope.Prelude.{
  ℕ, suc, ◌+◌, ◌-◌, ◌≤◌, ◌<◌, ◌≡◌, refl, zero, List, [], ◌∷◌, ◌++◌, arith, All, length, drop,
  length-append, length-drop, All-append, All-drop, String,
}
use breach_scope.Prelude.Text.{Unicode}
use breach_scope.RuleActivation.{
  Entry, Snapshot, Manifest, File, stored, max_history, commit_state, snapshot_of, base_document,
}
use breach_scope.RuleActivation.Active.{IsWellKept}

-- The versions go up by one, and the last snapshot is `version` with `active`.
abbrev pub EndsAt : ℕ → List Entry → List Snapshot → Type 0
EndsAt version active [] = ⊥
EndsAt version active (s ∷ []) = (s.version ≡ version) × (s.active ≡ active)
EndsAt version active (s ∷ t ∷ rest) =
    (s.version + 1 ≡ t.version) × EndsAt version active (t ∷ rest)

pub EndsAt-snoc :
    (version : ℕ) (active : List Entry) (history : List Snapshot) (s : Snapshot)
    → EndsAt version active history
    → s.version ≡ version + 1
    → EndsAt (version + 1) s.active (history ++ s ∷ [])
EndsAt-snoc version active [] s h e = elim h [ ]
EndsAt-snoc version active (t ∷ []) s h e = (omega arith, (e, refl))
EndsAt-snoc version active (t ∷ r ∷ rest) s h e =
    (h.0, EndsAt-snoc version active (r ∷ rest) s h.1 e)

pub EndsAt-drop :
    (n version : ℕ) (active : List Entry) (history : List Snapshot)
    → n < length history
    → EndsAt version active history
    → EndsAt version active (drop n history)
EndsAt-drop zero version active history l h = h
EndsAt-drop (suc n) version active [] l h = h
EndsAt-drop (suc n) version active (s ∷ []) l h = absurd (omega arith)
EndsAt-drop (suc n) version active (s ∷ t ∷ rest) l h =
    EndsAt-drop n version active (t ∷ rest) (omega arith) h.1

module _ (u : Unicode) where
  pub record IsWellFormed (m : Manifest) : Type 0 where
    pub current : IsWellKept u m.active
    pub past : All (λ (s : Snapshot). IsWellKept u s.active) m.history
    pub ends : EndsAt m.version m.active m.history
    pub bounded : length m.history ≤ max_history

  abbrev pub FileIsWellFormed : File → Type 0
  FileIsWellFormed (stored m) = IsWellFormed m
  FileIsWellFormed _ = Unit

  pub base_document-IsWellFormed : IsWellFormed base_document
  base_document-IsWellFormed = record {
    current = record { drafts = tt; rules = tt; sorted = tt };
    past = (record { drafts = tt; rules = tt; sorted = tt }, tt);
    ends = (refl, refl);
    bounded = omega arith;
  }

  pub commit_state-IsWellFormed :
      (now : String) (m : Manifest) (active : List Entry) (actor reason : String)
      → IsWellFormed m
      → IsWellKept u active
      → IsWellFormed (commit_state now m active actor reason)
  unfolding commit_state snapshot_of
  commit_state-IsWellFormed now m active actor reason h k = record {
    current = k;
    past = All-drop _ _ _ (All-append _ m.history _ h.past (k, tt));
    ends =
        EndsAt-drop _ _ _ _
          (omega (arith, length-append m.history (snapshot_of now m active actor reason ∷ [])))
          (EndsAt-snoc m.version m.active m.history (snapshot_of now m active actor reason) h.ends
            refl);
    bounded = omega (
      arith,
      length-drop (length (m.history ++ snapshot_of now m active actor reason ∷ []) - max_history)
          (m.history ++ snapshot_of now m active actor reason ∷ []),
    );
  }
