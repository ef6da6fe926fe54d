-- ===== src/AuditLog/Queries.antt =====
-- What a query of the audit log returns.
use breach_scope.Prelude.{
  ℕ, zero, suc, ◌+◌, ◌-◌, ◌≤◌, ◌<◌, String, ◌≡◌, refl, sym, ap, subst, ◌∙◌, inl, inr, Bool, true,
  false, ◌&&◌, Option, none, some, List, [], ◌∷◌, ◌++◌, arith, leb, length, length-append, take,
  keep, All, All-intro, In, In-keep, Bool-cases, if◌then◌else◌,
}
use mathlib.Core.List.{append-nil, append_assoc}
use breach_scope.Prelude.Text.{Unicode}
use breach_scope.Prelude.Json.{Value, Fields}
use breach_scope.Prelude.Result.{Result, ok, err, ◌>>=◌, >>=-eq-ok, ok-injective}
use breach_scope.OrganizationScope.{ScopeError}
use breach_scope.AuditLog.{
  max_audit_limit, Line, blank, broken, row, Query, effective_limit, in_scope, has_wanted, passes,
  scan_lines, wanted_organization, newest_first, read_events,
}

abbrev pub rows_of : List Line → List Fields
rows_of [] = []
rows_of (blank ∷ lines) = rows_of lines
rows_of (broken ∷ lines) = rows_of lines
rows_of (row fields ∷ lines) = fields ∷ rows_of lines

abbrev pub all_lines : Option (List Line) → List Line
all_lines none = []
all_lines (some lines) = lines

abbrev pub holds : Result ScopeError Bool → Bool
holds (err e) = false
holds (ok b) = b

take_nothing : (n : ℕ) → ◌≡◌ {A = List Fields} (take n []) []
take_nothing zero = refl
take_nothing (suc n) = refl

length-take : (n : ℕ) (xs : List Fields) → length (take n xs) ≤ n
length-take zero xs = omega arith
length-take (suc n) [] = omega arith
length-take (suc n) (x ∷ xs) = omega (arith, length-take n xs)

In-take : (n : ℕ) (x : Fields) (xs : List Fields) → In x (take n xs) → In x xs
In-take zero x xs m = elim m [ ]
In-take (suc n) x [] m = m
In-take (suc n) x (y ∷ xs) (inl e) = inl e
In-take (suc n) x (y ∷ xs) (inr m) = inr (In-take n x xs m)

module _ (u : Unicode) (setting : Option String) (repr : Value → String) where
  abbrev pub test : Option String → Query → Fields → Bool
  test organization query fields = holds (passes u setting repr organization query fields)

  -- The rows that are left out of what the loop has are the first that pass.
  scan_lines-take :
      (limit : ℕ) (organization : Option String) (query : Query) (lines : List Line)
      (rows : List Fields) {out : List Fields}
      → length rows < limit
      → scan_lines u setting repr limit organization query lines rows ≡ ok out
      → out ≡ rows ++ take (limit - length rows) (keep (test organization query) (rows_of lines))
  unfolding scan_lines keep
  scan_lines-take limit organization query [] rows {out} room h =
      sym (ok-injective {E = ScopeError} h)
      ∙ (sym (append-nil rows)
          ∙ ap (λ (xs : List Fields). rows ++ xs) (sym (take_nothing (limit - length rows))))
  scan_lines-take limit organization query (blank ∷ lines) rows room h =
      scan_lines-take limit organization query lines rows room h
  scan_lines-take limit organization query (broken ∷ lines) rows room h =
      scan_lines-take limit organization query lines rows room h
  scan_lines-take limit organization query (row fields ∷ lines) rows {out} room h =
      let (kept, tested, h1) = >>=-eq-ok (passes u setting repr organization query fields) _ h in
      let passed : test organization query fields ≡ kept = ap holds tested in
      let later = keep (test organization query) (rows_of lines) in
      let one_more = length-append rows (fields ∷ []) in
      elim (Bool-cases kept) [
        | inr out_of ↦
            scan_lines-take limit organization query lines rows room (rw out_of at h1)
            ∙ ap
                (λ (b : Bool).
                  rows ++ take (limit - length rows) (if b then fields ∷ later else later))
                (sym (passed ∙ out_of))
        | inl inside ↦
            let h2 = rw inside at h1 in
            let chosen : rows ++ take (limit - length rows) (fields ∷ later)
                ≡ rows
                  ++ take (limit - length rows)
                      (if test organization query fields then fields ∷ later else later) =
              ap
                (λ (b : Bool).
                  rows ++ take (limit - length rows) (if b then fields ∷ later else later))
                (sym (passed ∙ inside)) in
            elim (Bool-cases (leb limit (length rows + 1))) [
              | inl full ↦
                  let left : limit - length rows ≡ 1 = ground (arith, full, room) in
                  sym (ok-injective {E = ScopeError} (rw full at h2))
                  ∙ (ap (λ (n : ℕ). rows ++ take n (fields ∷ later)) (sym left) ∙ chosen)
              | inr more ↦
                  let left : limit - length rows ≡ suc (limit - length (rows ++ fields ∷ [])) =
                    ground (arith, more, one_more) in
                  scan_lines-take limit organization query lines (rows ++ fields ∷ [])
                    (ground (arith, more, one_more)) (rw more at h2)
                  ∙ (append_assoc rows (fields ∷ [])
                        (take (limit - length (rows ++ fields ∷ [])) later)
                      ∙ (ap (λ (n : ℕ). rows ++ take n (fields ∷ later)) (sym left) ∙ chosen))
            ]
      ]

  passes-in_scope :
      (organization : Option String) (query : Query) (fields : Fields)
      → test organization query fields ≡ true
      → in_scope u setting repr organization fields ≡ ok true
  unfolding passes
  passes-in_scope organization query fields h = go (in_scope u setting repr organization fields) h
    where
      go :
          (r : Result ScopeError Bool)
          → holds (
              r >>= λ inside. ok (
                inside
                && has_wanted "action" query.action fields
                && has_wanted "status" query.status fields
                && has_wanted "case_id" query.case_id fields))
            ≡ true
          → r ≡ ok true
      go (err e) k = cc k
      go (ok true) k = refl
      go (ok false) k = cc k

  effective_limit-bounds :
      (limit : ℕ) → (1 ≤ effective_limit limit) × (effective_limit limit ≤ max_audit_limit)
  unfolding effective_limit
  effective_limit-bounds limit = ground arith

  -- A query that returns gives the newest records that pass its filters, as many as its limit, which is at most 1000.
  -- With an organization each of them belongs to it.
  pub read_events-take :
      (query : Query) (log : Option (List Line)) {out : List Fields}
      → read_events u setting repr query log ≡ ok out
      → (organization : Option String) × (wanted_organization u query.organization_id
          ≡ ok organization)
        × (out
            ≡ take
                (effective_limit query.limit)
                (keep (test organization query) (rows_of (newest_first (all_lines log)))))
        × (length out ≤ max_audit_limit)
        × All (λ fields. in_scope u setting repr organization fields ≡ ok true) out
  unfolding read_events keep
  read_events-take query log {out} h =
      let (organization, wanted, h1) =
        >>=-eq-ok (wanted_organization u query.organization_id) _ h in
      let p = test organization query in
      let found : out
          ≡ take (effective_limit query.limit) (keep p (rows_of (newest_first (all_lines log)))) =
        of_log log organization h1 in
      let (some', most) = effective_limit-bounds query.limit in
      (
        organization,
        wanted,
        found,
        omega (
          arith,
          most,
          ap length found,
          length-take (effective_limit query.limit)
              (keep p (rows_of (newest_first (all_lines log)))),
        ),
        All-intro _ out (λ fields m.
            passes-in_scope organization query fields
              (In-keep p fields (rows_of (newest_first (all_lines log))) (
                In-take (effective_limit query.limit) fields
                  (keep p (rows_of (newest_first (all_lines log))))
                  (subst (λ (xs : List Fields). In fields xs) found m))).1),
      )
    where
      of_log :
          (l : Option (List Line)) (organization : Option String)
          → ◌≡◌ {A = Result ScopeError (List Fields)}
              (elim l [
                | none ↦ ok []
                | some lines ↦
                    scan_lines u setting repr
                      (effective_limit query.limit)
                      organization
                      query
                      (newest_first lines)
                      []
              ])
              (ok out)
          → out
            ≡ take
                (effective_limit query.limit)
                (keep (test organization query) (rows_of (newest_first (all_lines l))))
      of_log none organization k =
          sym (ok-injective {E = ScopeError} k) ∙ sym (take_nothing (effective_limit query.limit))
      of_log (some lines) organization k =
          scan_lines-take (effective_limit query.limit) organization query (newest_first lines) []
            (omega (arith, (effective_limit-bounds query.limit).0)) k
          ∙ ap (λ (n : ℕ). take n (keep (test organization query) (rows_of (newest_first lines))))
              (omega arith)
