-- ===== src/RuleActivation/Active.antt =====
-- The active list: no draft and no rule stands in it twice, and it is in the order of the rules.
use breach_scope.Prelude.{String, List, map, arith, eq_iff, In, Distinct, In-keep, keep}
use breach_scope.Prelude.Text.{Unicode, str_le_total, str_le_trans}
use breach_scope.Prelude.Sorting.{
  sort, IsSorted, sort-IsSorted, keep-IsSorted, In-map, Distinct-keep, Distinct-snoc, Distinct-sort,
}
use breach_scope.RuleActivation.{Entry, rule_key, by_rule, stays, activated, remaining}

module _ (u : Unicode) where
  pub record IsWellKept (active : List Entry) : Type 0 where
    pub drafts : Distinct (map (λ (e : Entry). e.draft_id) active)
    pub rules : Distinct (map (rule_key u) active)
    pub sorted : IsSorted (by_rule u) active

  new_draft :
      (entry : Entry) (active : List Entry)
      → ¬ In entry.draft_id (map (λ (e : Entry). e.draft_id) (keep (stays u entry) active))
  unfolding stays
  new_draft entry active m =
      let (x, l, e) = In-map (λ (e : Entry). e.draft_id) entry.draft_id _ m in
      let (_, kept) = In-keep (stays u entry) x active l in
      ground (arith, kept, e, eq_iff x.draft_id entry.draft_id)

  new_rule :
      (entry : Entry) (active : List Entry)
      → ¬ In (rule_key u entry) (map (rule_key u) (keep (stays u entry) active))
  unfolding stays
  new_rule entry active m =
      let (x, l, e) = In-map (rule_key u) (rule_key u entry) _ m in
      let (_, kept) = In-keep (stays u entry) x active l in
      ground (arith, kept, e, eq_iff (rule_key u x) (rule_key u entry))

  by_rule-IsSorted : (xs : List Entry) → IsSorted (by_rule u) (sort (by_rule u) xs)
  unfolding by_rule
  by_rule-IsSorted =
      sort-IsSorted (by_rule u) (λ x y. str_le_total (rule_key u x) (rule_key u y))
        (λ x y z. str_le_trans (rule_key u x) (rule_key u y) (rule_key u z))

  pub activated-IsWellKept :
      (entry : Entry) (active : List Entry)
      → IsWellKept active
      → IsWellKept (activated u active entry)
  unfolding activated
  activated-IsWellKept entry active h = record {
    drafts = Distinct-sort _ (by_rule u) _ (
        Distinct-snoc _ entry _ (new_draft entry active)
          (Distinct-keep _ (stays u entry) active h.drafts));
    rules = Distinct-sort _ (by_rule u) _ (
        Distinct-snoc _ entry _ (new_rule entry active)
          (Distinct-keep _ (stays u entry) active h.rules));
    sorted = by_rule-IsSorted _;
  }

  pub remaining-IsWellKept :
      (draft_id : String) (active : List Entry)
      → IsWellKept active
      → IsWellKept (remaining draft_id active)
  unfolding remaining
  remaining-IsWellKept draft_id active h = record {
    drafts = Distinct-keep _ _ active h.drafts;
    rules = Distinct-keep _ _ active h.rules;
    sorted = keep-IsSorted (by_rule u) _ active h.sorted;
  }
