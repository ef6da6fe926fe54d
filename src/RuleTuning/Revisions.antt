-- ===== src/RuleTuning/Revisions.antt =====
-- The revisions of a profile: consecutive versions that end with the current one.
use breach_scope.Prelude.{
  ℕ, zero, suc, ◌+◌, ◌-◌, ◌≤◌, String, ◌≡◌, ◌≢◌, refl, subst, not, List, [], ◌∷◌, ◌++◌, ◌==◌, arith,
  eq_iff, leb, leb→le, eqb, eqb_iff, length, length-append, length-drop, drop, member, member_iff,
  In, In-keep_of, keep, Distinct, if◌then◌else◌,
}
use breach_scope.Prelude.Text.{Unicode, strip, count_chars}
use breach_scope.Prelude.Result.{ok, >>=-eq-ok, guard_then-eq-ok, ok-injective}
use breach_scope.RuleTuning.{
  max_profile_rules, max_revisions, ProfileError, empty_name, long_name, long_description,
  overlapping_rules, Payload, Revision, Profile, Draft, rule_lookup, normalize_rule_ids,
  normalize_name, normalize_description, overlap, normalized_payload, profile_actor, new_profile,
  updated_profile,
}
use breach_scope.RuleTuning.RuleIds.{normalize_rule_ids-IsChoice}

-- What a profile may say of the rules.
pub record IsPayload (payload : Payload) : Type 0 where
  pub include_distinct : Distinct payload.rule_include
  pub exclude_distinct : Distinct payload.rule_exclude
  pub include_bounded : length payload.rule_include ≤ max_profile_rules
  pub exclude_bounded : length payload.rule_exclude ≤ max_profile_rules
  pub disjoint : (id : String) → In id payload.rule_include → ¬ In id payload.rule_exclude
  pub named : payload.name ≢ ""
  pub name_bounded : count_chars payload.name ≤ 120
  pub description_bounded : count_chars payload.description ≤ 1000

empty-In : (xs : List String) (x : String) → length xs ≡ 0 → ¬ In x xs
empty-In [] x e m = elim m [ ]
empty-In (y ∷ ys) x e m = omega (arith, e)

normalize_name-eq-ok :
    (value : String) {name : String}
    → normalize_name value ≡ ok name
    → (name ≢ "") × (count_chars name ≤ 120)
unfolding normalize_name
normalize_name-eq-ok value h =
    let (full, h1) = guard_then-eq-ok (not (strip value == "")) empty_name _ h in
    let (short, h2) = guard_then-eq-ok (leb (count_chars (strip value)) 120) long_name _ h1 in
    subst (λ (s : String). (s ≢ "") × (count_chars s ≤ 120)) (ok-injective {E = ProfileError} h2)
      ((λ e. ground (arith, full, e, eq_iff (strip value) "")), leb→le _ _ short)

normalize_description-eq-ok :
    (value : String) {text : String}
    → normalize_description value ≡ ok text
    → count_chars text ≤ 1000
unfolding normalize_description
normalize_description-eq-ok value h =
    let (short, h2) =
      guard_then-eq-ok (leb (count_chars (strip value)) 1000) long_description _ h in
    subst (λ (s : String). count_chars s ≤ 1000) (ok-injective {E = ProfileError} h2)
      (leb→le _ _ short)

overlap-disjoint :
    (include exclude : List String)
    → length (overlap include exclude) ≡ 0
    → (id : String) → In id include
    → ¬ In id exclude
unfolding overlap
overlap-disjoint include exclude e id m k =
    empty-In (keep (λ i. member i exclude) include) id e
      (In-keep_of (λ i. member i exclude) id include m ((member_iff id exclude).1 k))

pub normalized_payload-IsPayload :
    (u : Unicode) (rule_ids : List String) (draft : Draft) {payload : Payload}
    → normalized_payload u rule_ids draft ≡ ok payload
    → IsPayload payload
unfolding normalized_payload
normalized_payload-IsPayload u rule_ids draft h =
    let lookup = rule_lookup u rule_ids in
    let (include, chosen, h1) = >>=-eq-ok (normalize_rule_ids u draft.rule_include lookup) _ h in
    let (exclude, left, h2) = >>=-eq-ok (normalize_rule_ids u draft.rule_exclude lookup) _ h1 in
    let (none_in_both, h3) =
      guard_then-eq-ok (eqb (length (overlap include exclude)) 0) overlapping_rules _ h2 in
    let (name, named, h4) = >>=-eq-ok (normalize_name draft.name) _ h3 in
    let (description, described, h5) = >>=-eq-ok (normalize_description draft.description) _ h4 in
    let a = normalize_rule_ids-IsChoice u rule_ids draft.rule_include chosen in
    let b = normalize_rule_ids-IsChoice u rule_ids draft.rule_exclude left in
    let (full, short) = normalize_name-eq-ok draft.name named in
    subst IsPayload (ok-injective {E = ProfileError} h5) (record {
      include_distinct = a.distinct;
      exclude_distinct = b.distinct;
      include_bounded = a.bounded;
      exclude_bounded = b.bounded;
      disjoint =
          overlap-disjoint include exclude
            ((eqb_iff (length (overlap include exclude)) 0).0 none_in_both);
      named = full;
      name_bounded = short;
      description_bounded = normalize_description-eq-ok draft.description described;
    })

-- Consecutive versions from the given one on.
abbrev pub IsRun : ℕ → List Revision → Type 0
IsRun first [] = Unit
IsRun first (r ∷ rs) = (r.version ≡ first) × IsRun (suc first) rs

IsRun-drop : (first n : ℕ) (rs : List Revision) → IsRun first rs → IsRun (first + n) (drop n rs)
IsRun-drop first zero rs h = subst (λ (k : ℕ). IsRun k rs) (omega arith) h
IsRun-drop first (suc n) [] h = tt
IsRun-drop first (suc n) (r ∷ rs) h =
    subst (λ (k : ℕ). IsRun k (drop n rs)) (omega arith) (IsRun-drop (suc first) n rs h.1)

IsRun-snoc :
    (first : ℕ) (rs : List Revision) (r : Revision)
    → IsRun first rs
    → r.version ≡ first + length rs
    → IsRun first (rs ++ r ∷ [])
IsRun-snoc first [] r h e = (omega (arith, e), tt)
IsRun-snoc first (x ∷ rs) r h e = (h.0, IsRun-snoc (suc first) rs r h.1 (omega (arith, e)))

drop-snoc :
    (n : ℕ) (rs : List Revision) (r : Revision)
    → n ≤ length rs
    → drop n (rs ++ r ∷ []) ≡ drop n rs ++ r ∷ []
drop-snoc zero rs r h = refl
drop-snoc (suc n) [] r h = absurd (omega (arith, h))
drop-snoc (suc n) (x ∷ rs) r h = drop-snoc n rs r (omega (arith, h))

-- The revision that says what the profile says.
abbrev pub current_revision : Profile → Revision
current_revision p = record {
  version = p.version;
  updated_at = p.updated_at;
  updated_by = p.updated_by;
  payload = p.payload;
}

-- The revisions are the last 100 versions, or all of them, and the last of them is the current one.
pub record IsKept (p : Profile) : Type 0 where
  pub payload : IsPayload p.payload
  pub positive : 1 ≤ p.version
  pub count :
      length p.revisions ≡ (if leb p.version max_revisions then p.version else max_revisions)
  pub run : IsRun (suc p.version - length p.revisions) p.revisions
  pub last : (before : List Revision) × (p.revisions ≡ before ++ current_revision p ∷ [])

pub new_profile-IsKept :
    (fresh now updated_by : String) (payload : Payload)
    → IsPayload payload
    → IsKept (new_profile fresh now updated_by payload)
unfolding new_profile
new_profile-IsKept fresh now updated_by payload good = record {
  payload = good;
  positive = omega arith;
  count = refl;
  run = (refl, tt);
  last = ([], refl);
}

pub updated_profile-IsKept :
    (now updated_by : String) (payload : Payload) (row : Profile)
    → IsPayload payload
    → IsKept row
    → IsKept (updated_profile now updated_by payload row)
unfolding updated_profile
updated_profile-IsKept now updated_by payload row good kept =
    let over = length (row.revisions ++ new ∷ []) - max_revisions in
    let whole : length (row.revisions ++ new ∷ []) ≡ length row.revisions + 1 =
      length-append row.revisions (new ∷ []) in
    let left = length-drop over (row.revisions ++ new ∷ []) in
    record {
      payload = good;
      positive = omega arith;
      count = ground (arith, kept.count, whole, left);
      run =
          subst (λ (k : ℕ). IsRun k (drop over (row.revisions ++ new ∷ [])))
            (ground (arith, kept.count, whole, left))
            (IsRun-drop (suc row.version - length row.revisions) over (row.revisions ++ new ∷ []) (
              IsRun-snoc (suc row.version - length row.revisions) row.revisions new kept.run
                (ground (arith, kept.count))));
      last = (
        drop over row.revisions,
        drop-snoc over row.revisions new (ground (arith, whole, kept.count, kept.positive)),
      );
    }
  where
    new : Revision
    new = record {
      version = row.version + 1;
      updated_at = now;
      updated_by = profile_actor updated_by;
      payload = payload;
    }
