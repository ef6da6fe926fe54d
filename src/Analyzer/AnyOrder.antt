-- ===== src/Analyzer/AnyOrder.antt =====
-- Chunks that end in any order.
use breach_scope.Prelude.{
  ℕ, suc, ◌≡◌, refl, sym, ap, subst, ◌∙◌, ◌↔◌, inl, inr, List, [], ◌∷◌, map, In, Distinct,
}
use breach_scope.Prelude.Sorting.{In-map, In-map_of}
use breach_scope.Prelude.Result.{Result, ok, ◌>>=◌, ok-injective}
use breach_scope.Schemas.{Event, Rule, Finding}
use breach_scope.Analyzer.Texts.{Engine, Finder}
use breach_scope.Analyzer.Windows.{resolve}
use breach_scope.Analyzer.Matcher.{AnalysisError}
use breach_scope.Analyzer.Rules.{
  Key, key_of, collect, process_chunk, chunks, apply_rules, apply_rules_parallel,
}
use breach_scope.Analyzer.Deduplication.{key, unseen, unseen-IsNew, unseen_complete}
use breach_scope.Analyzer.Chunks.{flatten, In-flatten, In-flatten_of, collect-ok}
use breach_scope.Analyzer.Parallel.{chunked}

abbrev Outcome : Type 0
Outcome = Result AnalysisError (List Finding)

abbrev done : List Finding → Outcome
done fs = ok fs

In-done : (fs : List Finding) (fss : List (List Finding)) → In (done fs) (map ok fss) → In fs fss
In-done fs fss m =
    let (gs, l, e) = In-map done (done fs) fss m in
    subst (λ (hs : List Finding). In hs fss) (sym (ok-injective {E = AnalysisError} e)) l

all_done :
    (rs : List Outcome) (fss : List (List Finding))
    → ((r : Outcome) → In r rs → In r (map ok fss))
    → (gss : List (List Finding)) × (rs ≡ map ok gss)
all_done [] fss sub = ([], refl)
all_done (r ∷ rs) fss sub =
    let (gs, _, e) = In-map done r fss (sub r (inl refl)) in
    let (gss, f) = all_done rs fss (λ s m. sub s (inr m)) in (gs ∷ gss, cc (e, f))

module _ (engine : Engine) where
  -- Two lists of chunk reports with the same members report the same keys.
  same_keys :
      (found : List (List Finding)) (gss : List (List Finding))
      → ((r : Outcome) → In r (map ok gss) ↔ In r (map ok (map (unseen engine []) found)))
      → (k : Key)
      → In k (map (key engine) (unseen engine [] (flatten gss)))
        ↔ In k (map (key engine) (unseen engine [] (flatten found)))
  same_keys found gss same k = (
    (λ m.
        let (f, l, e) = In-map (key engine) k (unseen engine [] (flatten gss)) m in
        let (_, there) = (unseen-IsNew engine [] (flatten gss)).1 f l in
        let (gs, i, j) = In-flatten f gss there in
        let from =
          In-done gs (map (unseen engine []) found)
            ((same (done gs)).0 (In-map_of done gs gss i)) in
        let (d, a, b) = In-map (unseen engine []) gs found from in
        let (_, inside) =
          (unseen-IsNew engine [] d).1 f (subst (λ (hs : List Finding). In f hs) b j) in
        subst (λ (x : Key). In x (map (key engine) (unseen engine [] (flatten found)))) (sym e)
          (reported (flatten found) f (In-flatten_of f d found a inside))),
    (λ m.
        let (f, l, e) = In-map (key engine) k (unseen engine [] (flatten found)) m in
        let (_, there) = (unseen-IsNew engine [] (flatten found)).1 f l in
        let (d, i, j) = In-flatten f found there in
        let (g, a, b) = In-map (key engine) (key engine f) (unseen engine [] d) (reported d f j) in
        let back = In-done (unseen engine [] d) gss (
          (same (done (unseen engine [] d))).1 (
            In-map_of done (unseen engine [] d) (map (unseen engine []) found)
              (In-map_of (unseen engine []) d found i))) in
        subst (λ (x : Key). In x (map (key engine) (unseen engine [] (flatten gss)))) (sym (e ∙ b))
          (reported (flatten gss) g (In-flatten_of g (unseen engine [] d) gss back a))),
  )
    where
      reported :
          (fs : List Finding) (f : Finding)
          → In f fs
          → In (key engine f) (map (key engine) (unseen engine [] fs))
      reported fs f m = elim (unseen_complete engine [] fs f m) [
        | inl none_seen ↦ elim none_seen [ ]
        | inr there ↦ there
      ]

  -- If the futures end in any order, each of them once or more, the rules applied in parallel still end
  -- without an error, report no key twice, and report the keys that the rules applied one by one report.
  pub apply_rules_parallel_any_order :
      (as_completed : List (Result AnalysisError (List Finding))
        → List (Result AnalysisError (List Finding)))
      (chunk_size : ℕ) (event : Event) (events : List Event) (rule : Rule) (rules : List Rule)
      (reported : List Finding)
      → ((rs : List (Result AnalysisError (List Finding))) (r : Result AnalysisError (List Finding))
          → In r (as_completed rs) ↔ In r rs)
      → apply_rules engine (event ∷ events) (rule ∷ rules) ≡ ok reported
      → (findings : List Finding) × (apply_rules_parallel engine as_completed
            (suc chunk_size)
            (event ∷ events)
            (rule ∷ rules)
          ≡ ok findings)
        × Distinct (map (key_of engine) findings)
        × ((k : Key) → In k (map (key_of engine) findings) ↔ In k (map (key_of engine) reported))
  unfolding apply_rules_parallel
  apply_rules_parallel_any_order as_completed chunk_size event events rule rules reported arranged
        h =
      let (compiled, pieces, found, e, c, g, same) =
        chunked engine chunk_size (event ∷ events) (rule ∷ rules) h in
      let results = map (process_chunk engine compiled) pieces in
      let listed =
        subst (λ (rs : List Outcome). (r : Outcome) → In r (as_completed results) ↔ In r rs) g
          (arranged results) in
      let (gss, d) =
        all_done (as_completed results) (map (unseen engine []) found) (λ r m. (listed r).0 m) in
      let listed' =
        subst
          (λ (rs : List Outcome).
            (r : Outcome) → In r rs ↔ In r (map ok (map (unseen engine []) found)))
          d listed in
      (
        unseen engine [] (flatten gss),
        ap
              (λ (r : Result AnalysisError (List (Rule × Finder))). r >>= λ made.
                chunks (suc chunk_size) (resolve engine (event ∷ events)) >>= λ slices.
                collect engine [] (as_completed (map (process_chunk engine made) slices)))
              e
            ∙ (ap
                  (λ (r : Result AnalysisError (List (List Event))). r >>= λ slices.
                    collect engine [] (as_completed (map (process_chunk engine compiled) slices)))
                  c
                ∙ (ap (collect engine []) d ∙ collect-ok engine [] gss)),
        (unseen-IsNew engine [] (flatten gss)).0,
        λ k.
            subst
              (λ (fs : List Finding).
                In k (map (key engine) (unseen engine [] (flatten gss)))
                ↔ In k (map (key engine) fs))
              same (same_keys found gss listed' k),
      )
