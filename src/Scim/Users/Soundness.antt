-- ===== src/Scim/Users/Soundness.antt =====
-- The invariant of the users, and that their operations keep it.
use breach_scope.Prelude.{
  String, ◌≡◌, ◌≢◌, refl, sym, ap, subst, ◌∙◌, ◌⊎◌, inl, inr, true, false, not, ◌&&◌, ◌||◌, Option,
  none, some, List, [], ◌∷◌, ◌++◌, ◌==◌, eq_iff, arith, All, All-append, In, Bool-cases, member,
  member_iff,
}
use breach_scope.Prelude.Text.{or_else}
use breach_scope.Prelude.Json.{
  Value, null, boolean, zero, number, string, array, object, Fields, list_of, get, as_object,
}
use breach_scope.Prelude.Rows.{
  replace_row, remove_row, Apart, Apart-snoc, Apart-replace_row, Apart-remove_row, All-replace_row,
  All-remove_row,
}
use breach_scope.Prelude.Result.{Result, ok, err, >>=-eq-ok, guard_then-eq-ok, ok-injective}
use breach_scope.OrganizationScope.{ScopeError, matches_organization, normalize_organization_id}
use breach_scope.OrganizationScope.Normal.{normal}
use breach_scope.Scim.Records.{User, Runtime, ScimError, invalid, conflict, known_roles}
use breach_scope.Scim.Payload.{is_truthy, or_invalid, mapping, folded_text_of, clean_string}
use breach_scope.Scim.Users.{
  user_schema, id_of, role_values, known_role, sole_role, role_from_roles, extension_text,
  extract_role, organization_text, extract_organization, active_of, resource_from_payload, user_key,
  check_user_uniqueness,
}

-- Neither a role nor an organization, or a known role in a well-formed one.
abbrev pub IsAssigned : String → String → Type 0
IsAssigned role organization_id =
    (role ≡ "") × (organization_id ≡ "")
    ⊎ In role known_roles × (matches_organization organization_id ≡ true)

-- An active user has an external id, and an assignment is whole.
abbrev pub IsWhole : User → Type 0
IsWhole u =
    (u.id ≢ "") × (u.active ≡ true → u.external_id ≢ "") × IsAssigned u.role u.organization_id

module _ (rt : Runtime) where
  -- Users that differ in their id, in their name but for case, and in their external id, if any.
  abbrev pub Differs : User → User → Type 0
  Differs u v =
      (u.id ≢ v.id)
      × (user_key rt u ≢ user_key rt v)
      × ((u.external_id ≡ "") ⊎ (u.external_id ≢ v.external_id))

  Differs-back : (u v : User) → Differs u v → Differs v u
  Differs-back u v (a, b, c) = (
    (λ e. a (sym e)),
    (λ e. b (sym e)),
    elim (Bool-cases (v.external_id == "")) [
      | inl empty ↦ inl ((eq_iff v.external_id "").0 empty)
      | inr full ↦ inr (λ e. elim c [
        | inl empty ↦ cc (full, (eq_iff v.external_id "").1 (e ∙ empty))
        | inr other ↦ other (sym e)
      ])
    ],
  )

  pub record UsersAreSound (users : List User) : Type 0 where
    pub apart : Apart Differs users
    pub whole : All IsWhole users

  pub remove_row-UsersAreSound :
      (id : String) (users : List User)
      → UsersAreSound users
      → UsersAreSound (remove_row id_of id users)
  remove_row-UsersAreSound id users s = record {
    apart = Apart-remove_row id_of Differs Differs-back (λ a b d. d.0) id users s.apart;
    whole = All-remove_row id_of IsWhole id users s.whole;
  }

  known_role-eq-ok : (role : String) {r : String} → known_role rt role ≡ ok r → In r known_roles
  unfolding known_role
  known_role-eq-ok role {r} h = elim (Bool-cases (member role known_roles)) [
    | inl known ↦
        subst (λ (t : String). In t known_roles) (ok-injective {E = ScimError} (rw known at h))
          ((member_iff role known_roles).0 known)
    | inr other ↦ cc (rw other at h)
  ]

  sole_role-eq-ok :
      (values : List String) {r : String} → sole_role rt values ≡ ok r → (r ≡ "") ⊎ In r known_roles
  unfolding sole_role
  sole_role-eq-ok [] h = inl (sym (ok-injective {E = ScimError} h))
  sole_role-eq-ok (v ∷ []) h = inr (known_role-eq-ok v h)
  sole_role-eq-ok (v ∷ w ∷ vs) h = cc

  role_from_roles-eq-ok :
      (v : Value) {r : String} → role_from_roles rt v ≡ ok r → (r ≡ "") ⊎ In r known_roles
  unfolding role_from_roles
  role_from_roles-eq-ok null h = inl (sym (ok-injective {E = ScimError} h))
  role_from_roles-eq-ok (array items) h = sole_role-eq-ok (role_values rt [] (list_of items)) h
  role_from_roles-eq-ok (boolean b) h = cc
  role_from_roles-eq-ok (zero s) h = cc
  role_from_roles-eq-ok (number s) h = cc
  role_from_roles-eq-ok (string s) h = cc
  role_from_roles-eq-ok (object fs) h = cc

  extract_role-eq-ok :
      (payload : Fields) {r : String} → extract_role rt payload ≡ ok r → (r ≡ "") ⊎ In r known_roles
  unfolding extract_role
  extract_role-eq-ok payload h =
      let raw =
        folded_text_of rt
          (extension_text rt "role" payload (as_object (get user_schema payload))) in
      elim (Bool-cases (raw == "")) [
        | inl empty ↦ role_from_roles-eq-ok (get "roles" payload) (rw empty at h)
        | inr full ↦ inr (known_role-eq-ok raw (rw full at h))
      ]

  extract_organization-eq-ok :
      (payload : Fields) {o : String}
      → extract_organization rt payload ≡ ok o
      → (o ≡ "") ⊎ (matches_organization o ≡ true)
  unfolding extract_organization
  extract_organization-eq-ok payload {o} h =
      elim (Bool-cases (organization_text rt payload == "")) [
        | inl empty ↦ inl (sym (ok-injective {E = ScimError} (rw empty at h)))
        | inr full ↦ inr (
            valid (normalize_organization_id rt.unicode (organization_text rt payload) none) refl
              (rw full at h))
      ]
    where
      valid :
          (r : Result ScopeError String)
          → normalize_organization_id rt.unicode (organization_text rt payload) none ≡ r
          → or_invalid r ≡ ok o
          → matches_organization o ≡ true
      valid (ok s) e k =
          (normal rt.unicode (organization_text rt payload) none
            (e ∙ ap {B = Result ScopeError String} ok (ok-injective {E = ScimError} k))).0
      valid (err x) e k = cc

  pub resource_from_payload-IsWhole :
      (fresh now : String) (body : Value) (existing : Option User) {row : User}
      → resource_from_payload rt fresh now body existing ≡ ok row
      → ((elim existing [ none ↦ fresh | some old ↦ or_else old.id fresh ]) ≡ row.id)
        × (row.active ≡ true → row.external_id ≢ "")
        × IsAssigned row.role row.organization_id
  unfolding resource_from_payload is_truthy
  resource_from_payload-IsWhole fresh now body existing {row} h =
      let (payload, _, e0) = >>=-eq-ok (mapping body) _ h in
      let (name, _, e1) = >>=-eq-ok (clean_string rt (get "userName" payload) true 320) _ e0 in
      let (external, _, e2) =
        >>=-eq-ok (clean_string rt (get "externalId" payload) false 512) _ e1 in
      let (active, _, e3) = >>=-eq-ok (active_of rt payload) _ e2 in
      let (role, r, e4) = >>=-eq-ok (extract_role rt payload) _ e3 in
      let (organization, o, e5) = >>=-eq-ok (extract_organization rt payload) _ e4 in
      let (named, e6) = guard_then-eq-ok (not (active && not (is_truthy external))) invalid _ e5 in
      let (both, e7) =
        guard_then-eq-ok
          (not (is_truthy role) && not (is_truthy organization)
            || is_truthy role && is_truthy organization)
          invalid _ e6 in
      let made = ok-injective {E = ScimError} e7 in
      (
        ap (λ (u : User). u.id) made,
        subst (λ (u : User). u.active ≡ true → u.external_id ≢ "") made
            (λ on empty. ground (arith, named, on, empty, eq_iff external "")),
        subst (λ (u : User). IsAssigned u.role u.organization_id) made
            (assignment role organization (extract_role-eq-ok payload r)
              (extract_organization-eq-ok payload o) both),
      )
    where
      assignment :
          (role organization : String)
          → (role ≡ "") ⊎ In role known_roles
          → (organization ≡ "") ⊎ (matches_organization organization ≡ true)
          → not (is_truthy role) && not (is_truthy organization)
              || is_truthy role && is_truthy organization
            ≡ true
          → IsAssigned role organization
      assignment role organization (inr r) (inr o) both = inr (r, o)
      assignment role organization (inl r) o both =
          inl (r, ground (arith, r, both, eq_iff role "", eq_iff organization ""))
      assignment role organization (inr r) (inl o) both =
          inl (ground (arith, o, both, eq_iff role "", eq_iff organization ""), o)

  pub check_user_uniqueness-eq-ok :
      (rows : List User) (candidate : User) (exclude_id : String) {u : Unit {0}}
      → check_user_uniqueness rt rows candidate exclude_id ≡ ok u
      → (row : User) → In row rows
      → (exclude_id ≡ "") ⊎ (row.id ≢ exclude_id)
      → (user_key rt row ≢ user_key rt candidate)
        × ((row.external_id ≡ "") ⊎ (row.external_id ≢ candidate.external_id))
  unfolding check_user_uniqueness
  check_user_uniqueness-eq-ok [] candidate exclude_id h row m other = elim m [ ]
  check_user_uniqueness-eq-ok (r ∷ rows) candidate exclude_id h row m other =
      let (free, rest) =
        guard_then-eq-ok
          (not (exclude_id == "") && r.id == exclude_id
            || not (user_key rt r == user_key rt candidate)
              && not (not (candidate.external_id == "") && r.external_id == candidate.external_id))
          conflict _ h in
      elim m [
        | inl e ↦
            subst
              (λ (v : User).
                (user_key rt v ≢ user_key rt candidate)
                × ((v.external_id ≡ "") ⊎ (v.external_id ≢ candidate.external_id)))
              (sym e)
              (tells r candidate exclude_id free
                (subst (λ (v : User). (exclude_id ≡ "") ⊎ (v.id ≢ exclude_id)) e other))
        | inr k ↦ check_user_uniqueness-eq-ok rows candidate exclude_id rest row k other
      ]
    where
      tells :
          (r candidate : User) (exclude_id : String)
          → not (exclude_id == "") && r.id == exclude_id
              || not (user_key rt r == user_key rt candidate)
                && not (not (candidate.external_id == "") && r.external_id == candidate.external_id)
            ≡ true
          → (exclude_id ≡ "") ⊎ (r.id ≢ exclude_id)
          → (user_key rt r ≢ user_key rt candidate)
            × ((r.external_id ≡ "") ⊎ (r.external_id ≢ candidate.external_id))
      tells r candidate exclude_id free other = (
        (λ same. ground (
          arith,
          free,
          other,
          same,
          eq_iff exclude_id "",
          eq_iff r.id exclude_id,
          eq_iff (user_key rt r) (user_key rt candidate),
        )),
        elim (Bool-cases (r.external_id == "")) [
          | inl empty ↦ inl ((eq_iff r.external_id "").0 empty)
          | inr full ↦ inr (λ same. ground (
            arith,
            free,
            other,
            same,
            full,
            eq_iff exclude_id "",
            eq_iff r.id exclude_id,
            eq_iff r.external_id "",
            eq_iff candidate.external_id "",
            eq_iff r.external_id candidate.external_id,
          ))
        ],
      )

  -- A new row with a new id.
  pub snoc-UsersAreSound :
      (users : List User) (row : User)
      → ((u : User) → In u users → u.id ≢ row.id)
      → IsWhole row
      → {u : Unit {0}} → check_user_uniqueness rt users row "" ≡ ok u
      → UsersAreSound users
      → UsersAreSound (users ++ row ∷ [])
  snoc-UsersAreSound users row new whole unique s = record {
    apart =
        Apart-snoc id_of Differs row users
          (λ u m.
            let (k, x) = check_user_uniqueness-eq-ok users row "" unique u m (inl refl) in
            (new u m, k, x))
          s.apart;
    whole = All-append IsWhole users (row ∷ []) s.whole (whole, tt);
  }

  -- A row in place of the one with its id.
  pub replace_row-UsersAreSound :
      (users : List User) (row : User) (id : String)
      → row.id ≡ id
      → IsWhole row
      → {u : Unit {0}} → check_user_uniqueness rt users row id ≡ ok u
      → UsersAreSound users
      → UsersAreSound (replace_row id_of id row users)
  replace_row-UsersAreSound users row id same whole unique s = record {
    apart =
        Apart-replace_row id_of Differs Differs-back (λ a b d. d.0) id row users
          (λ u m other.
            let (k, x) = check_user_uniqueness-eq-ok users row id unique u m (inr other) in
            ((λ e. other (e ∙ same)), k, x))
          s.apart;
    whole = All-replace_row id_of IsWhole id row users s.whole whole;
  }
