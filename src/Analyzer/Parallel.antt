-- ===== src/Analyzer/Parallel.antt =====
-- What both ways of applying the rules report.
use breach_scope.Prelude.{
  ℕ, suc, ◌≡◌, refl, sym, ap, subst, ◌∙◌, inl, inr, List, [], ◌∷◌, arith, map, length, In, Distinct,
}
use breach_scope.Prelude.Result.{Result, ok, ◌>>=◌, >>=-eq-ok, ok-injective}
use breach_scope.Schemas.{Event, Rule, Finding}
use breach_scope.Analyzer.Texts.{Engine, Finder}
use breach_scope.Analyzer.Windows.{resolve}
use breach_scope.Analyzer.Matcher.{AnalysisError}
use breach_scope.Analyzer.Rules.{
  attempts, key_of, collect, process_chunk, compile_all, chunks, nonempty_chunks, apply_rules,
  apply_rules_parallel,
}
use breach_scope.Analyzer.Deduplication.{
  key, unseen, IsNew, unseen-IsNew, unseen_complete, detect_all, scan-filtered,
}
use breach_scope.Analyzer.Chunks.{
  flatten, flatten-chunks, collect-ok, process_chunk-ok, flatten-unseen,
}

module _ (engine : Engine) where
  -- The attempts of a call, all that they detect, and what of it is reported.
  apply_rules-eq-ok :
      (events : List Event) (rules : List Rule) {reported : List Finding}
      → apply_rules engine events rules ≡ ok reported
      → (compiled : List (Rule × Finder)) × (all : List Finding) × (compile_all engine rules
          ≡ ok compiled)
        × (detect_all engine (attempts engine (resolve engine events) compiled) ≡ ok all)
        × (unseen engine [] all ≡ reported)
  unfolding apply_rules
  apply_rules-eq-ok events rules h =
      let (compiled, e, h1) = >>=-eq-ok (compile_all engine rules) _ h in
      let (all, f, h2) =
        >>=-eq-ok (detect_all engine (attempts engine (resolve engine events) compiled)) _
          (sym (scan-filtered engine [] (attempts engine (resolve engine events) compiled)) ∙ h1) in
      (compiled, all, e, f, ok-injective h2)

  -- If the rules apply without an error, each key is reported once; what is reported is what some rule
  -- detects in some event; and whatever a rule detects in an event is reported under its key.
  pub apply_rules_reports :
      (events : List Event) (rules : List Rule) (reported : List Finding)
      → apply_rules engine events rules ≡ ok reported
      → (compiled : List (Rule × Finder)) × (all : List Finding) × (compile_all engine rules
          ≡ ok compiled)
        × (detect_all engine (attempts engine (resolve engine events) compiled) ≡ ok all)
        × Distinct (map (key_of engine) reported)
        × ((f : Finding) → In f reported → In f all)
        × ((f : Finding) → In f all → In (key_of engine f) (map (key_of engine) reported))
  apply_rules_reports events rules reported h =
      let (compiled, all, e, f, same) = apply_rules-eq-ok events rules h in
      let (distinct, some_of) = subst (IsNew engine [] all) same (unseen-IsNew engine [] all) in
      (
        compiled,
        all,
        e,
        f,
        distinct,
        λ g m. (some_of g m).1,
        λ g m. elim (unseen_complete engine [] all g m) [
          | inl none_seen ↦ elim none_seen [ ]
          | inr there ↦
              subst (λ (fs : List Finding). In (key engine g) (map (key engine) fs)) same there
        ],
      )

  -- The chunks, each with what it detects, for a call that applies the rules without an error.
  pub chunked :
      (chunk_size : ℕ) (events : List Event) (rules : List Rule) {reported : List Finding}
      → apply_rules engine events rules ≡ ok reported
      → (compiled : List (Rule × Finder)) × (pieces : List (List Event)) × (found : List
          (List Finding))
        × (compile_all engine rules ≡ ok compiled)
        × (chunks (suc chunk_size) (resolve engine events) ≡ ok pieces)
        × (map (process_chunk engine compiled) pieces ≡ map ok (map (unseen engine []) found))
        × (unseen engine [] (flatten found) ≡ reported)
  unfolding chunks
  chunked chunk_size events rules h =
      let (compiled, all, e, f, same) = apply_rules-eq-ok events rules h in
      let resolved = resolve engine events in
      let whole = flatten-chunks (length resolved) chunk_size resolved (omega arith) in
      let (found, g, k) =
        process_chunk-ok engine compiled
          (nonempty_chunks (length resolved) (suc chunk_size) resolved)
          (ap (λ (es : List Event). detect_all engine (attempts engine es compiled)) whole ∙ f) in
      (compiled, _, found, e, refl, g, ap (unseen engine []) k ∙ same)

  -- Applied in parallel, by chunks of one event or more, the rules report the same findings in the same
  -- order, if the chunks end in their order.
  pub apply_rules_parallel_in_order :
      (chunk_size : ℕ) (event : Event) (events : List Event) (rule : Rule) (rules : List Rule)
      (reported : List Finding)
      → apply_rules engine (event ∷ events) (rule ∷ rules) ≡ ok reported
      → apply_rules_parallel engine (λ rs. rs) (suc chunk_size) (event ∷ events) (rule ∷ rules)
        ≡ ok reported
  unfolding apply_rules_parallel
  apply_rules_parallel_in_order chunk_size event events rule rules reported h =
      let (compiled, pieces, found, e, c, g, same) =
        chunked chunk_size (event ∷ events) (rule ∷ rules) h in
      ap
        (λ (r : Result AnalysisError (List (Rule × Finder))). r >>= λ made.
          chunks (suc chunk_size) (resolve engine (event ∷ events)) >>= λ slices.
          collect engine [] (map (process_chunk engine made) slices))
        e
      ∙ (ap
            (λ (r : Result AnalysisError (List (List Event))).
              r >>= λ slices. collect engine [] (map (process_chunk engine compiled) slices))
            c
          ∙ (ap (collect engine []) g
              ∙ (collect-ok engine [] (map (unseen engine []) found)
                  ∙ ap {B = Result AnalysisError (List Finding)} ok
                      (flatten-unseen engine [] found ∙ same))))
