-- ===== src/Scim/Groups/Writing.antt =====
-- Creation, replacement and patching keep the directory sound.
use breach_scope.Prelude.{
  String, ◌≡◌, ◌≢◌, refl, sym, ap, subst, ◌∙◌, inl, inr, Option, none, some, List, [], ◌∷◌, ◌++◌,
  eq_iff, arith, map, All, All-In, All-intro, All-append, In, Distinct,
}
use breach_scope.Prelude.Text.{or_else}
use breach_scope.Prelude.Json.{Value}
use breach_scope.Prelude.Sorting.{In-map, Distinct-snoc}
use breach_scope.Prelude.Result.{Result, ok, err, ◌>>=◌, >>=-eq-ok, ok-injective}
use breach_scope.Scim.Records.{Group, Directory, Runtime, ScimError, user_ids, group_ids}
use breach_scope.Scim.Payload.{group_from_payload}
use breach_scope.Scim.Patch.{operations_of, apply_operations, working_of, body_of}
use breach_scope.Scim.Groups.{
  name_key, check_graph, check_uniqueness, find_group, replace_first, saved, create_rows,
  or_not_found, rewrite_rows, replace_rows, patch_rows,
}
use breach_scope.Scim.Groups.Rows.{
  check_graph-eq-ok, check_uniqueness-eq-ok, find_group-eq-some, In-replace_first,
  replace_first-ids, replace_first-Distinct,
}
use breach_scope.Scim.Users.Soundness.{IsAssigned}
use breach_scope.Scim.Groups.Soundness.{IsSound, group_from_payload-row}

-- A result of the row-level part, if there is one, is a sound list of rows.
abbrev pub RowsAreSound : Runtime → Directory → Result ScimError (Group × List Group) → Type 0
RowsAreSound rt d (err e) = Unit
RowsAreSound rt d (ok (row, rows)) = IsSound rt (record d { groups = rows })

RowsAreSound-intro :
    (rt : Runtime) (d : Directory) (r : Result ScimError (Group × List Group))
    → ((row : Group) (rows : List Group)
        → r ≡ ok (row, rows)
        → IsSound rt (record d { groups = rows }))
    → RowsAreSound rt d r
RowsAreSound-intro rt d (err e) h = tt
RowsAreSound-intro rt d (ok (row, rows)) h = h row rows refl

pub saved-IsSound :
    (rt : Runtime) (base_url : String) (d : Directory) (r : Result ScimError (Group × List Group))
    → IsSound rt d
    → RowsAreSound rt d r
    → IsSound rt (saved base_url d r).1
unfolding saved
saved-IsSound rt base_url d (err e) s h = s
saved-IsSound rt base_url d (ok (row, rows)) s h = h

All-replace_first :
    (P : Group → Type 0) (id : String) (row : Group) (rows : List Group)
    → All P rows
    → P row
    → All P (replace_first id row rows)
All-replace_first P id row rows h k = All-intro P (replace_first id row rows) λ g m.
    elim (In-replace_first id row g rows m) [
      | inl e ↦ subst P (sym e) k
      | inr l ↦ All-In P g rows h l
    ]

module _ (rt : Runtime) where
  pub create_rows-RowsAreSound :
      (base_url fresh now : String) (body : Value) (d : Directory)
      → fresh ≢ ""
      → (¬ In fresh (map (λ (g : Group). g.id) d.groups))
      → IsSound rt d
      → RowsAreSound rt d (create_rows rt base_url fresh now body d)
  unfolding create_rows
  create_rows-RowsAreSound base_url fresh now body d full new s =
      RowsAreSound-intro rt d _ λ made rows h.
        let (row, built, h1) =
          >>=-eq-ok (group_from_payload rt fresh now body d.users d.groups none) _ h in
        let (_, unique, h2) = >>=-eq-ok (check_uniqueness rt d.groups row "") _ h1 in
        let (_, checked, h3) = >>=-eq-ok (check_graph d.users (d.groups ++ row ∷ [])) _ h2 in
        let (id, assigned) = group_from_payload-row rt fresh now body d.users d.groups none built in
        let pair : ◌≡◌ {A = Group × List Group} (row, d.groups ++ row ∷ []) (made, rows) =
          ok-injective h3 in
        subst (λ (gs : List Group). IsSound rt (record d { groups = gs }))
          (ap (λ (p : Group × List Group). p.1) pair)
          (record {
            has = record {
              distinct =
                  Distinct-snoc (λ (g : Group). g.id) row d.groups
                    (subst (λ (i : String). ¬ In i (map (λ (g : Group). g.id) d.groups)) id new)
                    s.has.distinct;
              nonempty =
                  All-append _ d.groups (row ∷ []) s.has.nonempty
                    (subst (λ (i : String). i ≢ "") id full, tt);
            };
            names =
                Distinct-snoc (name_key rt) row d.groups
                  (λ m.
                    let (g, l, e) = In-map (name_key rt) (name_key rt row) d.groups m in
                    check_uniqueness-eq-ok rt d.groups row "" unique g l (inl refl) (sym e))
                  s.names;
            people = s.people;
            graph = check_graph-eq-ok d.users (d.groups ++ row ∷ []) checked;
            assigned = All-append _ d.groups (row ∷ []) s.assigned (assigned, tt);
          })

  rewrite_rows-RowsAreSound :
      (base_url fresh now id : String) (body : Value) (current : Group) (d : Directory)
      → find_group id d.groups ≡ some current
      → IsSound rt d
      → RowsAreSound rt d (rewrite_rows rt base_url fresh now id body current d)
  unfolding rewrite_rows or_else
  rewrite_rows-RowsAreSound base_url fresh now id body current d found s =
      RowsAreSound-intro rt d _ λ made rows h.
        let (row, built, h1) =
          >>=-eq-ok (group_from_payload rt fresh now body d.users d.groups (some current)) _ h in
        let (_, unique, h2) = >>=-eq-ok (check_uniqueness rt d.groups row id) _ h1 in
        let (_, checked, h3) =
          >>=-eq-ok (check_graph d.users (replace_first id row d.groups)) _ h2 in
        let (kept, assigned) =
          group_from_payload-row rt fresh now body d.users d.groups (some current) built in
        let (there, same) = find_group-eq-some id d.groups found in
        let full = All-In (λ (g : Group). g.id ≢ "") current d.groups s.has.nonempty there in
        let row_id : row.id ≡ id = ground (arith, kept, same, full, eq_iff current.id "") in
        let pair : ◌≡◌ {A = Group × List Group} (row, replace_first id row d.groups) (made, rows) =
          ok-injective h3 in
        subst (λ (gs : List Group). IsSound rt (record d { groups = gs }))
          (ap (λ (p : Group × List Group). p.1) pair)
          (record {
            has = record {
              distinct =
                  subst Distinct (sym (replace_first-ids id row row_id d.groups)) s.has.distinct;
              nonempty =
                  All-replace_first (λ g. g.id ≢ "") id row d.groups s.has.nonempty
                    (λ e. full (same ∙ (sym row_id ∙ e)));
            };
            names =
                replace_first-Distinct id row (name_key rt) d.groups s.has.distinct s.names
                  (λ g m other. check_uniqueness-eq-ok rt d.groups row id unique g m (inr other));
            people = s.people;
            graph = check_graph-eq-ok d.users (replace_first id row d.groups) checked;
            assigned =
                All-replace_first (λ g. IsAssigned g.role g.organization_id) id row d.groups
                  s.assigned assigned;
          })

  -- The row that an operation looks up is there, or the operation fails.
  with_current-RowsAreSound :
      (id : String) (d : Directory) (next : Group → Result ScimError (Group × List Group))
      → ((current : Group)
          → find_group id d.groups ≡ some current
          → RowsAreSound rt d (next current))
      → RowsAreSound rt d (or_not_found (find_group id d.groups) >>= next)
  unfolding or_not_found
  with_current-RowsAreSound id d next h = go (find_group id d.groups) h
    where
      go :
          (o : Option Group)
          → ((current : Group) → o ≡ some current → RowsAreSound rt d (next current))
          → RowsAreSound rt d (or_not_found o >>= next)
      go none k = tt
      go (some current) k = k current refl

  then-RowsAreSound {ℓ} :
      {A : Type ℓ} (first : Result ScimError A) (d : Directory)
      (next : A → Result ScimError (Group × List Group))
      → ((a : A) → RowsAreSound rt d (next a))
      → RowsAreSound rt d (first >>= next)
  then-RowsAreSound (err e) d next h = tt
  then-RowsAreSound (ok a) d next h = h a

  pub replace_rows-RowsAreSound :
      (base_url fresh now id : String) (body : Value) (d : Directory)
      → IsSound rt d
      → RowsAreSound rt d (replace_rows rt base_url fresh now id body d)
  unfolding replace_rows
  replace_rows-RowsAreSound base_url fresh now id body d s =
      with_current-RowsAreSound id d _
        (λ current found. rewrite_rows-RowsAreSound base_url fresh now id body current d found s)

  pub patch_rows-RowsAreSound :
      (base_url fresh now id : String) (payload : Value) (d : Directory)
      → IsSound rt d
      → RowsAreSound rt d (patch_rows rt base_url fresh now id payload d)
  unfolding patch_rows
  patch_rows-RowsAreSound base_url fresh now id payload d s =
      then-RowsAreSound (operations_of payload) d _ λ operations.
        with_current-RowsAreSound id d _ λ current found.
          then-RowsAreSound
            (apply_operations rt (user_ids d.users) (group_ids d.groups) (working_of current)
              operations)
            d _
            λ working.
              rewrite_rows-RowsAreSound base_url fresh now id (body_of working) current d found s
