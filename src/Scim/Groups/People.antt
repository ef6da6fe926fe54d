-- ===== src/Scim/Groups/People.antt =====
-- Creation, replacement and patching of a user keep the directory sound.
use breach_scope.Prelude.{
  String, ◌≡◌, ◌≢◌, refl, sym, ap, subst, ◌∙◌, ◌⊎◌, inl, inr, not, Option, none, some, List, [],
  ◌∷◌, ◌++◌, ◌==◌, eq_iff, arith, keep, map, All-In, All-intro, In, In-append, In-keep, In-keep_of,
}
use breach_scope.Prelude.Text.{or_else}
use breach_scope.Prelude.Json.{Value, object}
use breach_scope.Prelude.Sorting.{In-map, In-map_of}
use breach_scope.Prelude.Result.{Result, ok, err, ◌>>=◌, >>=-eq-ok, ok-injective}
use breach_scope.Prelude.Rows.{find_row, find_row-eq-some, replace_row, replace_row-keys}
use breach_scope.Scim.Records.{User, Directory, Runtime, ScimError, user_ids, not_found}
use breach_scope.Scim.Graph.{Node, groups_by_id}
use breach_scope.Scim.Graph.Verdict.{IsOne, IsResolved, Verdict}
use breach_scope.Scim.Patch.{operations_of}
use breach_scope.Scim.Users.{
  id_of, resource_from_payload, check_user_uniqueness, current_row, saved_users, create_user_rows,
  rewrite_user_rows, replace_user_rows, patch_user_rows, apply_user_operations, user_working_of,
}
use breach_scope.Scim.Users.Soundness.{
  resource_from_payload-IsWhole, snoc-UsersAreSound, replace_row-UsersAreSound,
}
use breach_scope.Scim.Groups.{node}
use breach_scope.Scim.Groups.Shrinking.{groups_by_id_self}
use breach_scope.Scim.Groups.Soundness.{IsSound}
use breach_scope.Prelude.Dict.{keys}

IsResolved-mono :
    (users users' ids : List String) (rows : List Node)
    → ((m : String) → IsOne users ids m → IsOne users' ids m)
    → IsResolved users ids rows
    → IsResolved users' ids rows
IsResolved-mono users users' ids [] up h = tt
IsResolved-mono users users' ids ((a, ms) ∷ rows) up h = (
  All-intro _ ms (λ m k. up m (All-In (IsOne users ids) m ms h.0 k)),
  IsResolved-mono users users' ids rows up h.1,
)

In-user_ids_snoc :
    (b : String) (users : List User) (row : User)
    → In b (user_ids (users ++ row ∷ []))
    → In b (user_ids users) ⊎ (b ≡ row.id)
unfolding user_ids
In-user_ids_snoc b users row m =
    let (k, t) = In-keep (λ s. not (s == "")) b (map (λ (u : User). u.id) (users ++ row ∷ [])) m in
    let (u, l, e) = In-map (λ (u : User). u.id) b (users ++ row ∷ []) k in
    elim (In-append u users (row ∷ []) l) [
      | inl old ↦ inl (
          In-keep_of (λ s. not (s == "")) b (map (λ (u : User). u.id) users)
            (subst (λ (s : String). In s (map (λ (u : User). u.id) users)) (sym e)
              (In-map_of (λ (u : User). u.id) u users old))
            t)
      | inr new ↦ elim new [
        | inl same ↦ inr (e ∙ ap (λ (u : User). u.id) same)
        | inr n ↦ elim n [ ]
      ]
    ]

In-user_ids_more :
    (b : String) (users : List User) (row : User)
    → In b (user_ids users)
    → In b (user_ids (users ++ row ∷ []))
unfolding user_ids
In-user_ids_more b users row m =
    let (k, t) = In-keep (λ s. not (s == "")) b (map (λ (u : User). u.id) users) m in
    In-keep_of (λ s. not (s == "")) b (map (λ (u : User). u.id) (users ++ row ∷ [])) (later users k)
      t
  where
    later :
        (us : List User)
        → In b (map (λ (u : User). u.id) us)
        → In b (map (λ (u : User). u.id) (us ++ row ∷ []))
    later [] k = elim k [ ]
    later (u ∷ us) (inl e) = inl e
    later (u ∷ us) (inr k) = inr (later us k)

module _ (rt : Runtime) (d : Directory) (s : IsSound rt d) where
  -- The membership graph stands when a user comes whose id is no group's.
  graph_with :
      (row : User)
      → (¬ In row.id (keys (groups_by_id (map node d.groups))))
      → Verdict (user_ids (d.users ++ row ∷ [])) (map node d.groups) (ok tt)
  graph_with row free = (
    IsResolved-mono (user_ids d.users) (user_ids (d.users ++ row ∷ [])) _ _
        (λ m one. elim one [
          | inl (u, g) ↦ inl (In-user_ids_more m d.users row u, g)
          | inr (g, u) ↦ inr (
            g,
            λ k. elim (In-user_ids_snoc m d.users row k) [
              | inl old ↦ u old
              | inr same ↦
                  free
                    (subst (λ (t : String). In t (keys (groups_by_id (map node d.groups)))) same g)
            ],
          )
        ])
        s.graph.0,
    s.graph.1,
  )

  user_ids-replace_row :
      (id : String) (row : User)
      → row.id ≡ id
      → user_ids (replace_row id_of id row d.users) ≡ user_ids d.users
  unfolding user_ids
  user_ids-replace_row id row same =
      ap (keep (λ t. not (t == ""))) (replace_row-keys id_of id row same d.users)

  -- A result of the row-level part, if there is one, is a sound list of users.
  abbrev pub PeopleAreSound : Result ScimError (User × List User) → Type 0
  PeopleAreSound (err e) = Unit
  PeopleAreSound (ok (row, rows)) = IsSound rt (record d { users = rows })

  PeopleAreSound-intro :
      (r : Result ScimError (User × List User))
      → ((row : User) (rows : List User)
          → r ≡ ok (row, rows)
          → IsSound rt (record d { users = rows }))
      → PeopleAreSound r
  PeopleAreSound-intro (err e) h = tt
  PeopleAreSound-intro (ok (row, rows)) h = h row rows refl

  pub saved_users-IsSound :
      (digest : User → String) (base_url : String) (r : Result ScimError (User × List User))
      → PeopleAreSound r
      → IsSound rt (saved_users rt digest base_url d r).1
  unfolding saved_users
  saved_users-IsSound digest base_url (err e) h = s
  saved_users-IsSound digest base_url (ok (row, rows)) h = h

  pub create_user_rows-PeopleAreSound :
      (digest : User → String) (base_url fresh now : String) (body : Value)
      → fresh ≢ ""
      → (¬ In fresh (map (λ (u : User). u.id) d.users))
      → (¬ In fresh (keys (map node d.groups)))
      → PeopleAreSound (create_user_rows rt digest base_url fresh now body d)
  unfolding create_user_rows
  create_user_rows-PeopleAreSound digest base_url fresh now body full new free =
      PeopleAreSound-intro _ λ made rows h.
        let (row, built, h1) = >>=-eq-ok (resource_from_payload rt fresh now body none) _ h in
        let (_, unique, h2) = >>=-eq-ok (check_user_uniqueness rt d.users row "") _ h1 in
        let (id, named, assigned) = resource_from_payload-IsWhole rt fresh now body none built in
        let pair : ◌≡◌ {A = User × List User} (row, d.users ++ row ∷ []) (made, rows) =
          ok-injective h2 in
        subst (λ (us : List User). IsSound rt (record d { users = us }))
          (ap (λ (p : User × List User). p.1) pair)
          (record {
            has = s.has;
            names = s.names;
            people =
                snoc-UsersAreSound rt d.users row
                  (λ u m e. new (
                    subst (λ (t : String). In t (map (λ (u : User). u.id) d.users)) (e ∙ sym id)
                      (In-map_of (λ (u : User). u.id) u d.users m)))
                  ((λ e. full (id ∙ e)), named, assigned) unique s.people;
            graph = graph_with row (λ m. free (
                subst (λ (t : String). In t (keys (map node d.groups))) (sym id)
                  (subst (λ (ns : List Node). In row.id (keys ns))
                    (groups_by_id_self d.groups s.has) m)));
            assigned = s.assigned;
          })

  rewrite_user_rows-PeopleAreSound :
      (digest : User → String) (base_url fresh now id : String) (body : Value) (current : User)
      → current_row id d.users ≡ ok current
      → PeopleAreSound (rewrite_user_rows rt digest base_url fresh now id body current d)
  unfolding rewrite_user_rows or_else current_row
  rewrite_user_rows-PeopleAreSound digest base_url fresh now id body current found =
      PeopleAreSound-intro _ λ made rows h.
        let (row, built, h1) =
          >>=-eq-ok (resource_from_payload rt fresh now body (some current)) _ h in
        let (_, unique, h2) = >>=-eq-ok (check_user_uniqueness rt d.users row id) _ h1 in
        let (kept, named, assigned) =
          resource_from_payload-IsWhole rt fresh now body (some current) built in
        let (there, same) = find_row-eq-some id_of id d.users (find_of found) in
        let whole = All-In _ current d.users s.people.whole there in
        let full = whole.0 in
        let row_id : row.id ≡ id = ground (arith, kept, same, full, eq_iff current.id "") in
        let pair : ◌≡◌ {A = User × List User} (row, replace_row id_of id row d.users) (made, rows) =
          ok-injective h2 in
        subst (λ (us : List User). IsSound rt (record d { users = us }))
          (ap (λ (p : User × List User). p.1) pair)
          (record {
            has = s.has;
            names = s.names;
            people =
                replace_row-UsersAreSound rt d.users row id row_id
                  ((λ e. full (same ∙ (sym row_id ∙ e))), named, assigned) unique s.people;
            graph =
                subst (λ (us : List String). Verdict us (map node d.groups) (ok tt))
                  (sym (user_ids-replace_row id row row_id)) s.graph;
            assigned = s.assigned;
          })
    where
      found_of :
          (o : Option User)
          → ◌≡◌ {A = Result ScimError User}
              (elim o [ none ↦ err not_found | some row ↦ ok row ])
              (ok current)
          → o ≡ some current
      found_of none h = cc
      found_of (some row) h = ap {B = Option User} some (ok-injective {E = ScimError} h)

      find_of : current_row id d.users ≡ ok current → find_row id_of id d.users ≡ some current
      find_of h = found_of (find_row id_of id d.users) h

  then-PeopleAreSound {ℓ} :
      {A : Type ℓ} (first : Result ScimError A) (next : A → Result ScimError (User × List User))
      → ((a : A) → first ≡ ok a → PeopleAreSound (next a))
      → PeopleAreSound (first >>= next)
  then-PeopleAreSound (err e) next h = tt
  then-PeopleAreSound (ok a) next h = h a refl

  pub replace_user_rows-PeopleAreSound :
      (digest : User → String) (base_url fresh now id : String) (body : Value)
      → PeopleAreSound (replace_user_rows rt digest base_url fresh now id body d)
  unfolding replace_user_rows
  replace_user_rows-PeopleAreSound digest base_url fresh now id body =
      then-PeopleAreSound (current_row id d.users) _ (λ current found.
        rewrite_user_rows-PeopleAreSound digest base_url fresh now id body current found)

  pub patch_user_rows-PeopleAreSound :
      (digest : User → String) (base_url fresh now id : String) (payload : Value)
      → PeopleAreSound (patch_user_rows rt digest base_url fresh now id payload d)
  unfolding patch_user_rows
  patch_user_rows-PeopleAreSound digest base_url fresh now id payload =
      then-PeopleAreSound (operations_of payload) _ λ operations _.
        then-PeopleAreSound (current_row id d.users) _ λ current found.
          then-PeopleAreSound (apply_user_operations rt (user_working_of rt current) operations) _
            λ working _.
              rewrite_user_rows-PeopleAreSound digest base_url fresh now id (object working) current
                found
