-- ===== src/RuleTuning/RuleIds.antt =====
-- The list of rules that a request chooses.
use breach_scope.Prelude.{
  ◌≤◌, String, ◌≡◌, ◌≢◌, ◌↔◌, refl, sym, ap, subst, ◌∙◌, ◌⊎◌, inl, inr, Option, none, some, List,
  [], ◌∷◌, ◌++◌, ◌==◌, arith, eq_iff, leb, leb→le, eqb, eqb_iff, length, length-append, member,
  member_iff, In, In-append, In-append_left, In-append_right, Distinct, append-Distinct, Bool-cases,
  some-eq-some, if◌then◌else◌,
}
use breach_scope.Prelude.Text.{Unicode, strip}
use breach_scope.Prelude.Dict.{find, put, find-put}
use breach_scope.Prelude.Result.{Result, ok, >>=-eq-ok, guard_then-eq-ok, ok-injective}
use breach_scope.RuleTuning.{
  max_profile_rules, ProfileError, unknown_rules, too_many_rules, Scan, RuleList, raw_values,
  lookup_from, rule_lookup, scan_found, scan_value, scan_values, normalize_rule_ids,
}

module _ (u : Unicode) (lookup : List (String × String)) where
  -- A key finds an id that folds to it.
  abbrev pub IsKeyed : Type 0
  IsKeyed = (key id : String) → find key lookup ≡ some id → u.casefold id ≡ key

  pub record ScanIsSound (scan : Scan) : Type 0 where
    pub distinct : Distinct scan.result
    pub bounded : length scan.result ≤ max_profile_rules
    pub seen_found :
        (key : String)
        → In key scan.seen
        → (id : String) × (find key lookup ≡ some id) × In id scan.result
    pub found_seen : (id : String) → In id scan.result → In (u.casefold id) scan.seen

  -- The text names the rule.
  abbrev pub Names : String → String → Type 0
  Names value id = (value ≢ "") × (find (u.casefold value) lookup ≡ some id)

  record Steps (value : String) (scan next : Scan) : Type 0 where
    sound : ScanIsSound next
    holds : (id : String) → In id next.result ↔ (In id scan.result ⊎ Names value id)
    grows : length scan.unknown ≤ length next.unknown
    known : length next.unknown ≤ length scan.unknown → value ≢ "" → (id : String) × Names value id

  scan_found-Steps :
      IsKeyed
      → (value canonical : String) (scan : Scan) {next : Scan} → value ≢ ""
      → find (u.casefold value) lookup ≡ some canonical
      → ScanIsSound scan
      → scan_found u (u.casefold value) canonical scan ≡ ok next
      → Steps value scan next
  unfolding scan_found
  scan_found-Steps keyed value canonical scan {next} full found s h =
      elim (Bool-cases (member key scan.seen)) [
        | inl old ↦
            let (_, same) =
              guard_then-eq-ok (leb (length scan.result) max_profile_rules) too_many_rules _
                (rw old at h) in
            let (id, found', there) = s.seen_found key ((member_iff key scan.seen).0 old) in
            subst (Steps value scan) (ok-injective {E = ProfileError} same) (record {
              sound = s;
              holds = λ i. (
                (λ m. inl m),
                (λ k. elim k [
                  | inl m ↦ m
                  | inr n ↦
                      subst (λ (t : String). In t scan.result) (some-eq-some (sym found' ∙ n.1))
                        there
                ]),
              );
              grows = omega arith;
              known = λ _ _. (canonical, (full, found));
            })
        | inr new ↦
            let (small, same) =
              guard_then-eq-ok (leb (length (scan.result ++ canonical ∷ [])) max_profile_rules)
                too_many_rules _ (rw new at h) in
            subst (Steps value scan) (ok-injective {E = ProfileError} same) (record {
              sound = record {
                distinct =
                    append-Distinct canonical scan.result
                      (λ m. cc (
                        new,
                        (member_iff key scan.seen).1 (
                            subst (λ (t : String). In t scan.seen) folded
                              (s.found_seen canonical m)),
                      ))
                      s.distinct;
                bounded = leb→le _ _ small;
                seen_found = λ k m. elim m [
                  | inl e ↦ (
                    canonical,
                    ap (λ (t : String). find t lookup) e ∙ found,
                    In-append_right canonical scan.result (canonical ∷ []) (inl refl),
                  )
                  | inr l ↦
                      let (i, f, there) = s.seen_found k l in
                      (i, f, In-append_left i scan.result (canonical ∷ []) there)
                ];
                found_seen = λ i m. elim (In-append i scan.result (canonical ∷ []) m) [
                  | inl l ↦ inr (s.found_seen i l)
                  | inr l ↦ elim l [ inl e ↦ inl (ap u.casefold e ∙ folded) | inr n ↦ elim n [ ] ]
                ];
              };
              holds = λ i. (
                (λ m. elim (In-append i scan.result (canonical ∷ []) m) [
                  | inl l ↦ inl l
                  | inr l ↦ elim l [
                    | inl e ↦ inr (full, found ∙ ap some (sym e))
                    | inr n ↦ elim n [ ]
                  ]
                ]),
                (λ k. elim k [
                  | inl l ↦ In-append_left i scan.result (canonical ∷ []) l
                  | inr n ↦
                      In-append_right i scan.result (canonical ∷ [])
                        (inl (some-eq-some (sym n.1 ∙ found)))
                ]),
              );
              grows = omega arith;
              known = λ _ _. (canonical, (full, found));
            })
      ]
    where
      key : String
      key = u.casefold value

      folded : u.casefold canonical ≡ u.casefold value
      folded = keyed (u.casefold value) canonical found

  scan_value-Steps :
      IsKeyed
      → (value : String) (scan : Scan) {next : Scan} → ScanIsSound scan
      → scan_value u lookup value scan ≡ ok next
      → Steps value scan next
  unfolding scan_value
  scan_value-Steps keyed value scan {next} s h = elim (Bool-cases (value == "")) [
    | inl empty ↦
        let e = (eq_iff value "").0 empty in
        subst (Steps value scan) (ok-injective {E = ProfileError} (rw empty at h)) (record {
          sound = s;
          holds = λ i. ((λ m. inl m), (λ k. elim k [ inl m ↦ m | inr n ↦ absurd (n.0 e) ]));
          grows = omega arith;
          known = λ _ full. absurd (full e);
        })
    | inr full ↦
        let some_text : value ≢ "" = λ e. cc (full, (eq_iff value "").1 e) in
        go some_text (find (u.casefold value) lookup) refl (rw full at h)
  ]
    where
      go :
          value ≢ ""
          → (o : Option String) → find (u.casefold value) lookup ≡ o
          → ◌≡◌ {A = Result ProfileError Scan}
              (elim o [
                | none ↦ ok (record {
                  result = scan.result;
                  seen = scan.seen;
                  unknown = scan.unknown ++ value ∷ [];
                })
                | some canonical ↦ scan_found u (u.casefold value) canonical scan
              ])
              (ok next)
          → Steps value scan next
      go some_text none e k = subst (Steps value scan) (ok-injective {E = ProfileError} k) (record {
        sound = record {
          distinct = s.distinct;
          bounded = s.bounded;
          seen_found = s.seen_found;
          found_seen = s.found_seen;
        };
        holds = λ i. ((λ m. inl m), (λ l. elim l [ inl m ↦ m | inr n ↦ cc (e, n.1) ]));
        grows = omega (arith, length-append scan.unknown (value ∷ []));
        known = λ less _. absurd (omega (arith, less, length-append scan.unknown (value ∷ [])));
      })
      go some_text (some canonical) e k =
          scan_found-Steps keyed value canonical scan some_text e s k

  -- Some value of the list names the rule.
  abbrev pub IsNamed : List String → String → Type 0
  IsNamed values id = (value : String) × In value values × Names (strip value) id

  record Scans (values : List String) (scan next : Scan) : Type 0 where
    sound : ScanIsSound next
    holds : (id : String) → In id next.result ↔ (In id scan.result ⊎ IsNamed values id)
    grows : length scan.unknown ≤ length next.unknown
    known :
        length next.unknown ≤ length scan.unknown
        → (value : String) → In value values
        → strip value ≢ ""
        → (id : String) × Names (strip value) id

  scan_values-Scans :
      IsKeyed
      → (values : List String) (scan : Scan) {next : Scan} → ScanIsSound scan
      → scan_values u lookup values scan ≡ ok next
      → Scans values scan next
  unfolding scan_values
  scan_values-Scans keyed [] scan s h =
      subst (Scans [] scan) (ok-injective {E = ProfileError} h) (record {
        sound = s;
        holds = λ i. ((λ m. inl m), (λ k. elim k [ inl m ↦ m | inr n ↦ elim n.1 [ ] ]));
        grows = omega arith;
        known = λ _ v m. elim m [ ];
      })
  scan_values-Scans keyed (value ∷ values) scan s h =
      let (middle, first, rest) = >>=-eq-ok (scan_value u lookup (strip value) scan) _ h in
      let a = scan_value-Steps keyed (strip value) scan s first in
      let b = scan_values-Scans keyed values middle a.sound rest in
      record {
        sound = b.sound;
        holds = λ i. (
          (λ m. elim ((b.holds i).0 m) [
            | inl l ↦ elim ((a.holds i).0 l) [ inl k ↦ inl k | inr n ↦ inr (value, inl refl, n) ]
            | inr n ↦ inr (n.0, inr n.1, n.2)
          ]),
          (λ k. (b.holds i).1 (elim k [
            | inl l ↦ inl ((a.holds i).1 (inl l))
            | inr n ↦ elim n.1 [
              | inl e ↦ inl ((a.holds i).1 (inr (subst (λ (t : String). Names (strip t) i) e n.2)))
              | inr m ↦ inr (n.0, m, n.2)
            ]
          ])),
        );
        grows = omega (arith, a.grows, b.grows);
        known = λ less v m full. elim m [
          | inl e ↦
              let (i, n) =
                a.known (omega (arith, less, b.grows))
                  (subst (λ (t : String). strip t ≢ "") e full) in
              (i, subst (λ (t : String). Names (strip t) i) (sym e) n)
          | inr l ↦ b.known (omega (arith, less, a.grows)) v l full
        ];
      }

find_nothing : (key : String) → find {V = String} key [] ≡ none
unfolding find
find_nothing key = refl

lookup_from-IsKeyed :
    (u : Unicode) (ids : List String) (lookup : List (String × String))
    → IsKeyed u lookup
    → IsKeyed u (lookup_from u ids lookup)
unfolding lookup_from
lookup_from-IsKeyed u [] lookup keyed = keyed
lookup_from-IsKeyed u (i ∷ ids) lookup keyed =
    lookup_from-IsKeyed u ids (put (u.casefold i) i lookup)
      (λ key id e. after key id (sym (find-put (u.casefold i) key i lookup) ∙ e))
  where
    after :
        (key id : String)
        → (if u.casefold i == key then some i else find key lookup) ≡ some id
        → u.casefold id ≡ key
    after key id e = elim (Bool-cases (u.casefold i == key)) [
      | inl hit ↦
          let same : i ≡ id = some-eq-some (rw hit at e) in
          ap u.casefold (sym same) ∙ (eq_iff (u.casefold i) key).0 hit
      | inr miss ↦ keyed key id (rw miss at e)
    ]

-- What the list that is chosen is to the values that a request gives.
pub record IsChoice (u : Unicode) (lookup : List (String × String)) (values out : List String)
    : Type 0 where
  pub distinct : Distinct out
  pub bounded : length out ≤ max_profile_rules
  pub named : (id : String) → In id out ↔ IsNamed u lookup values id
  pub all_known :
      (value : String)
      → In value values
      → strip value ≢ ""
      → (id : String) × Names u lookup (strip value) id

-- A list of rules that is accepted has at most 200 ids and no double. It holds exactly the ids of the rules that
-- the given values name, up to surrounding space and case, and each value that is not blank names one.
pub normalize_rule_ids-IsChoice :
    (u : Unicode) (rule_ids : List String) (values : RuleList) {out : List String}
    → normalize_rule_ids u values (rule_lookup u rule_ids) ≡ ok out
    → IsChoice u (rule_lookup u rule_ids) (raw_values values) out
unfolding normalize_rule_ids rule_lookup
normalize_rule_ids-IsChoice u rule_ids values h =
    let lookup = lookup_from u rule_ids [] in
    let (scan, scanned, h1) = >>=-eq-ok (scan_values u lookup (raw_values values) empty) _ h in
    let (none_unknown, h2) = guard_then-eq-ok (eqb (length scan.unknown) 0) unknown_rules _ h1 in
    let s =
      scan_values-Scans u lookup (lookup_from-IsKeyed u rule_ids [] (λ key id e. nothing key e))
        (raw_values values) empty
        (record {
          distinct = tt;
          bounded = omega arith;
          seen_found = λ k m. elim m [ ];
          found_seen = λ i m. elim m [ ];
        })
        scanned in
    subst (IsChoice u lookup (raw_values values)) (ok-injective {E = ProfileError} h2) (record {
      distinct = s.sound.distinct;
      bounded = s.sound.bounded;
      named = λ i. (
        (λ m. elim ((s.holds i).0 m) [ inl l ↦ elim l [ ] | inr n ↦ n ]),
        (λ n. (s.holds i).1 (inr n)),
      );
      all_known = s.known (omega (arith, (eqb_iff (length scan.unknown) 0).0 none_unknown));
    })
  where
    empty : Scan
    empty = record { result = []; seen = []; unknown = [] }

    nothing : (key : String) {id : String} → find key [] ≡ some id → u.casefold id ≡ key
    nothing key e = cc (find_nothing key, e)
