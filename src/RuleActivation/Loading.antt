-- ===== src/RuleActivation/Loading.antt =====
-- `load_active_rules` over a well-formed manifest whose publications still pass their checks.
use breach_scope.Prelude.{
  ◌≡◌, refl, ap, subst, ◌∙◌, All-In, String, List, [], ◌∷◌, arith, true, false, not, ◌&&◌, ◌==◌,
  eq_iff, All, All-intro, In, inl, inr, Distinct, map, member, member_iff, Bool-cases,
}
use breach_scope.Prelude.Text.{Unicode}
use breach_scope.Prelude.Sorting.{In-map_of}
use breach_scope.Prelude.Result.{ok, ok-injective, >>=-eq-ok, guard-eq-ok, guard_then-eq-ok}
use breach_scope.Schemas.{Rule}
use breach_scope.RuleActivation.{
  Authoring, Entry, Publication, Manifest, stored, empty_path, sha_mismatch, other_rule_id,
  outside_root, no_artifact, invalid_rule, or_raise, sole_rule, read, publication,
  verify_publication, entry_of, same_entry, stale_entry, check_entry, check_entries, load_entry,
  load_from, load_active_rules, Provenance, provenance_of, rule_key,
}
use breach_scope.RuleActivation.History.{IsWellFormed}

-- The rule that a checked publication loads has the published id.
verify-rule_id :
    (store : Authoring) (p : Publication) (path : String) (rule : Rule)
    → verify_publication store p ≡ ok (path, rule)
    → rule.id ≡ p.rule_id
unfolding verify_publication
verify-rule_id store p path rule h =
    let (_, e1) = guard_then-eq-ok (not (p.relative_path == "")) empty_path _ h in
    let (path', _, e2) = >>=-eq-ok (or_raise outside_root (store.resolve p.relative_path)) _ e1 in
    let (payload, _, e3) = >>=-eq-ok (or_raise no_artifact (store.read_file path')) _ e2 in
    let (_, e4) =
      guard_then-eq-ok (not (p.sha256 == "") && store.sha256 payload == p.sha256) sha_mismatch _
        e3 in
    let (loaded, _, e5) = >>=-eq-ok (or_raise invalid_rule (store.load_rules payload)) _ e4 in
    let (found, _, e6) = >>=-eq-ok (sole_rule loaded) _ e5 in
    let (same, e7) = guard_then-eq-ok (found.id == p.rule_id) other_rule_id _ e6 in
    let eq : found ≡ rule = ap (λ (q : String × Rule). q.1) (ok-injective e7) in
    subst (λ (r : Rule). r.id ≡ p.rule_id) eq ((eq_iff found.id p.rule_id).0 same)

same_entry-rule_id : (a b : Entry) → same_entry a b ≡ true → a.rule_id ≡ b.rule_id
unfolding same_entry
same_entry-rule_id a b h = ground (arith, eq_iff a.rule_id b.rule_id)

-- An entry that passes the check of a rollback loads, as the rule that it names.
load_entry_total :
    (store : Authoring) (item : Entry)
    → check_entry store item ≡ ok tt
    → (rule : Rule) × (load_entry store item ≡ ok rule) × (rule.id ≡ item.rule_id)
unfolding load_entry check_entry entry_of
load_entry_total store item h =
    let (p, found, e1) = >>=-eq-ok (publication store item.draft_id item.published_version) _ h in
    let ((path, rule), valid, e2) = >>=-eq-ok (verify_publication store p) _ e1 in
    let same = guard-eq-ok (same_entry (entry_of item.draft_id p) item) stale_entry e2 in
    (
      rule,
      rw found (rw same (rw valid refl)),
      verify-rule_id store p path rule valid
          ∙ same_entry-rule_id (entry_of item.draft_id p) item same,
    )

module _ (u : Unicode) (store : Authoring) where
  load_from_total :
      (seen : List String) (items : List Entry)
      → Distinct (map (rule_key u) items)
      → All (λ (e : Entry). ¬ In (rule_key u e) seen) items
      → check_entries store items ≡ ok tt
      → (rules : List Rule) × (origin : List Provenance) × (load_from u store seen items
          ≡ ok (rules, origin))
        × (map (λ (r : Rule). r.id) rules ≡ map (λ (e : Entry). e.rule_id) items)
        × (map (λ (p : Provenance). p.draft_id) origin ≡ map (λ (e : Entry). e.draft_id) items)
  unfolding load_from check_entries provenance_of
  load_from_total seen [] d fresh h = ([], [], refl, refl, refl)
  load_from_total seen (item ∷ items) d fresh h =
      let (_, checked, h') = >>=-eq-ok (check_entry store item) _ h in
      let (rule, loaded, named) = load_entry_total store item checked in
      let key : u.casefold rule.id ≡ rule_key u item = ap u.casefold named in
      let (rules, origin, e, ids, drafts) =
        load_from_total (u.casefold rule.id ∷ seen) items d.1
          (All-intro _ items λ x m. λ k. elim k [
            | inl same ↦ d.0 (
                subst (λ (t : String). In t (map (rule_key u) items)) (same ∙ key)
                  (In-map_of (rule_key u) x items m))
            | inr old ↦ All-In _ x items fresh.1 m old
          ])
          h' in
      let unseen : member (u.casefold rule.id) seen ≡ false =
        elim (Bool-cases (member (u.casefold rule.id) seen)) [
          | inl yes' ↦
              absurd (fresh.0 (subst (λ (t : String). In t seen) key ((member_iff _ seen).0 yes')))
          | inr n ↦ n
        ] in
      (
        rule ∷ rules,
        provenance_of rule item ∷ origin,
        rw loaded (rw unseen (rw e refl)),
        cc (named, ids),
        cc drafts,
      )

  -- A well-formed manifest whose entries pass the checks of their publications loads: one rule for
  -- each active entry, in their order, with the id that the entry names, beside one provenance record
  -- for each. The error for a duplicated rule id does not occur.
  pub load_active_rules_total :
      (m : Manifest)
      → IsWellFormed u m
      → check_entries store m.active ≡ ok tt
      → (rules : List Rule) × (origin : List Provenance) × (load_active_rules u store (stored m)
          ≡ ok (rules, origin))
        × (map (λ (r : Rule). r.id) rules ≡ map (λ (e : Entry). e.rule_id) m.active)
        × (map (λ (p : Provenance). p.draft_id) origin ≡ map (λ (e : Entry). e.draft_id) m.active)
  unfolding load_active_rules read
  load_active_rules_total m h checked =
      load_from_total [] m.active h.current.rules (All-intro _ m.active (λ x k o. elim o [ ]))
        checked
