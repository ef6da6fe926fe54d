-- ===== src/RuleActivation/Commits.antt =====
-- What a request does to the manifest file, whether it commits or raises.
use breach_scope.Prelude.{
  ℕ, ◌+◌, ◌≡◌, ◌⊎◌, inl, inr, refl, subst, sym, ap, String, not, length, List, [], ◌∷◌, arith, eqb,
  eqb_iff, All, Bool-cases,
}
use breach_scope.Prelude.Text.{Unicode}
use breach_scope.Prelude.Result.{
  Result, ok, err, >>=-eq-ok, guard-eq-ok, guard_then-eq-ok, ok-injective,
}
use breach_scope.RuleActivation.{
  Authoring, Entry, Snapshot, Manifest, File, stored, Error, read, assert_version, publication,
  verify_publication, entry_of, commit_state, snapshot_of, save, activate, activated, deactivate,
  remaining, rollback, find_snapshot, check_entries, missing, not_active,
}
use breach_scope.RuleActivation.Active.{IsWellKept, activated-IsWellKept, remaining-IsWellKept}
use breach_scope.RuleActivation.History.{
  IsWellFormed, FileIsWellFormed, base_document-IsWellFormed, commit_state-IsWellFormed,
}

-- A call of one of the three methods that change the manifest.
pub data Request : Type 0 where
  activation : (now draft_id : String) (published expected : ℕ) (actor : String) → Request
  deactivation : (now draft_id : String) (expected : ℕ) (actor : String) → Request
  restoration : (now : String) (target expected : ℕ) (actor : String) → Request

abbrev pub expected_version : Request → ℕ
expected_version (activation now draft_id published expected actor) = expected
expected_version (deactivation now draft_id expected actor) = expected
expected_version (restoration now target expected actor) = expected

abbrev pub moment : Request → String
moment (activation now draft_id published expected actor) = now
moment (deactivation now draft_id expected actor) = now
moment (restoration now target expected actor) = now

abbrev pub actor_of : Request → String
actor_of (activation now draft_id published expected actor) = actor
actor_of (deactivation now draft_id expected actor) = actor
actor_of (restoration now target expected actor) = actor

save_cases :
    (file : File) (r : Result Error Manifest)
    → ((m : Manifest) × (save file r ≡ (ok m, stored m)))
      ⊎ ((e : Error) × (save file r ≡ (err e, file)))
unfolding save
save_cases file (ok m) = inl (m, refl)
save_cases file (err e) = inr (e, refl)

module _ (u : Unicode) (store : Authoring) where
  abbrev pub perform : Request → File → Result Error Manifest × File
  perform (activation now draft_id published expected actor) =
      activate u store now draft_id published expected actor
  perform (deactivation now draft_id expected actor) = deactivate now draft_id expected actor
  perform (restoration now target expected actor) = rollback store now target expected actor

  -- The requests that reach one file, in the order in which the lock admits them.
  abbrev pub perform_all : List Request → File → File
  perform_all [] file = file
  perform_all (r ∷ rest) file = perform_all rest (perform r file).1

  read-IsWellFormed :
      (file : File) {m : Manifest} → FileIsWellFormed u file → read file ≡ ok m → IsWellFormed u m
  unfolding read
  read-IsWellFormed missing {m} h e =
      subst (IsWellFormed u) (ok-injective e) (base_document-IsWellFormed u)
  read-IsWellFormed (stored n) {m} h e = subst (IsWellFormed u) (ok-injective e) h
  read-IsWellFormed _ h e = cc

  find_snapshot-IsWellKept :
      (target : ℕ) (history : List Snapshot) {s : Snapshot}
      → All (λ (t : Snapshot). IsWellKept u t.active) history
      → find_snapshot target history ≡ ok s
      → IsWellKept u s.active
  unfolding find_snapshot
  find_snapshot-IsWellKept target [] h e = cc
  find_snapshot-IsWellKept target (t ∷ ts) {s} h e = elim (Bool-cases (eqb t.version target)) [
    | inl hit ↦ subst (λ (x : Snapshot). IsWellKept u x.active) (ok-injective (rw hit at e)) h.0
    | inr miss ↦ find_snapshot-IsWellKept target ts h.1 (rw miss at e)
  ]

  -- What a request that returned has read, checked and written.
  pub record Commit (r : Request) (file : File) (m : Manifest) : Type 0 where
    pub doc : Manifest
    pub active : List Entry
    pub reason : String
    pub found : read file ≡ ok doc
    pub current : expected_version r ≡ doc.version
    pub made : commit_state (moment r) doc active (actor_of r) reason ≡ m
    pub kept : IsWellFormed u doc → IsWellKept u active

  version_checked :
      (doc : Manifest) (expected : ℕ) {a : Unit {0}}
      → assert_version doc expected ≡ ok a
      → expected ≡ doc.version
  unfolding assert_version
  version_checked doc expected h =
      sym ((eqb_iff doc.version expected).0 (guard-eq-ok (eqb doc.version expected) _ h))

  save-eq-ok :
      (file : File) (r : Result Error Manifest) {m : Manifest} → (save file r).0 ≡ ok m → r ≡ ok m
  unfolding save
  save-eq-ok file (ok n) h = h
  save-eq-ok file (err e) h = h

  pub perform-Commit :
      (r : Request) (file : File) (m : Manifest) → (perform r file).0 ≡ ok m → Commit r file m
  unfolding activate deactivate rollback
  perform-Commit (activation now draft_id published expected actor) file m h =
      let (p, _, e1) = >>=-eq-ok (publication store draft_id published) _ (save-eq-ok file _ h) in
      let (_, _, e2) = >>=-eq-ok (verify_publication store p) _ e1 in
      let (doc, found, e3) = >>=-eq-ok (read file) _ e2 in
      let (_, same, e4) = >>=-eq-ok (assert_version doc expected) _ e3 in
      record {
        doc = doc;
        active = activated u doc.active (entry_of draft_id p);
        reason = _;
        found = found;
        current = version_checked doc expected same;
        made = ok-injective e4;
        kept = λ good. activated-IsWellKept u (entry_of draft_id p) doc.active good.current;
      }
  perform-Commit (deactivation now draft_id expected actor) file m h =
      let (doc, found, e1) = >>=-eq-ok (read file) _ (save-eq-ok file _ h) in
      let (_, same, e2) = >>=-eq-ok (assert_version doc expected) _ e1 in
      let (_, e3) =
        guard_then-eq-ok (not (eqb (length (remaining draft_id doc.active)) (length doc.active)))
          not_active _ e2 in
      record {
        doc = doc;
        active = remaining draft_id doc.active;
        reason = _;
        found = found;
        current = version_checked doc expected same;
        made = ok-injective e3;
        kept = λ good. remaining-IsWellKept u draft_id doc.active good.current;
      }
  perform-Commit (restoration now target expected actor) file m h =
      let (doc, found, e1) = >>=-eq-ok (read file) _ (save-eq-ok file _ h) in
      let (_, same, e2) = >>=-eq-ok (assert_version doc expected) _ e1 in
      let (s, hit, e3) = >>=-eq-ok (find_snapshot target doc.history) _ e2 in
      let (_, _, e4) = >>=-eq-ok (check_entries store s.active) _ e3 in
      record {
        doc = doc;
        active = s.active;
        reason = _;
        found = found;
        current = version_checked doc expected same;
        made = ok-injective e4;
        kept = λ good. find_snapshot-IsWellKept target doc.history good.past hit;
      }

  -- The file beside the result: rewritten by a request that returns, and by no other.
  pub perform_file :
      (r : Request) (file : File)
      → ((m : Manifest) × (perform r file ≡ (ok m, stored m)))
        ⊎ ((e : Error) × (perform r file ≡ (err e, file)))
  unfolding activate deactivate rollback
  perform_file (activation now draft_id published expected actor) file = save_cases file _
  perform_file (deactivation now draft_id expected actor) file = save_cases file _
  perform_file (restoration now target expected actor) file = save_cases file _

  version_after :
      {r : Request} {file : File} {m : Manifest} (c : Commit r file m)
      → m.version ≡ c.doc.version + 1
  unfolding commit_state snapshot_of
  version_after c = sym (ap (λ (n : Manifest). n.version) c.made)

  same_doc : {r : Request} {m n : Manifest} (d : Commit r (stored m) n) → d.doc.version ≡ m.version
  unfolding read
  same_doc d = sym (ap (λ (k : Manifest). k.version) (ok-injective d.found))

  perform-IsWellFormed :
      (r : Request) (file : File) → FileIsWellFormed u file → FileIsWellFormed u (perform r file).1
  perform-IsWellFormed r file h = elim (perform_file r file) [
    | inl (m, e) ↦
        let c = perform-Commit r file m (ap (λ (p : Result Error Manifest × File). p.0) e) in
        let good = read-IsWellFormed file h c.found in
        rw e (
          subst (IsWellFormed u) c.made (
            commit_state-IsWellFormed u (moment r) c.doc c.active (actor_of r) c.reason good
              (c.kept good)))
    | inr (x, e) ↦ rw e h
  ]

  -- Whatever requests arrive, in whatever order, and whether each commits or raises: a manifest that
  -- was well formed stays so. No draft and no rule is active twice, the active list is in the order
  -- of its rules, and the history of at most 100 snapshots counts up to the current version and ends
  -- with the current active list.
  pub perform_all-IsWellFormed :
      (requests : List Request) (file : File)
      → FileIsWellFormed u file
      → FileIsWellFormed u (perform_all requests file)
  perform_all-IsWellFormed [] file h = h
  perform_all-IsWellFormed (r ∷ rest) file h =
      perform_all-IsWellFormed rest (perform r file).1 (perform-IsWellFormed r file h)

  -- Two requests that were prepared against the same version do not both commit: once the first has
  -- returned, the second raises and leaves the file as the first wrote it.
  pub no_lost_update :
      (first second : Request) (file : File) {m : Manifest}
      → (perform first file).0 ≡ ok m
      → expected_version first ≡ expected_version second
      → (e : Error) × (perform second (perform first file).1 ≡ (err e, stored m))
  no_lost_update first second file {m} done same = elim (perform_file first file) [
    | inl (n, e) ↦
        let eq : n ≡ m =
          ok-injective {E = Error} (cc (ap (λ (p : Result Error Manifest × File). p.0) e)) in
        let c = perform-Commit first file m done in rw e (rw eq (second_fails c))
    | inr (x, e) ↦ cc (ap (λ (p : Result Error Manifest × File). p.0) e)
  ]
    where
      second_fails :
          Commit first file m → (e : Error) × (perform second (stored m) ≡ (err e, stored m))
      second_fails c = elim (perform_file second (stored m)) [
        | inl (n, e) ↦
            let d =
              perform-Commit second (stored m) n
                (ap (λ (p : Result Error Manifest × File). p.0) e) in
            absurd (omega (arith, c.current, d.current, same, version_after c, same_doc d))
        | inr (x, e) ↦ (x, e)
      ]
