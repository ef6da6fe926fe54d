-- ===== src/Scim/Identity/Examples.antt =====
-- The theorems at a directory with a user in a group that is nested in another.
use breach_scope.Prelude.{
  String, ◌≡◌, ◌≢◌, ◌==◌, refl, true, false, none, List, [], ◌∷◌, ◌↔◌, In, member, keep, Option,
  some, inl, inr, eq_iff, arith, Distinct,
}
use breach_scope.Prelude.Dict.{keys, put, find}
use breach_scope.Prelude.Result.{ok}
use breach_scope.Scim.Records.{User, Group, Runtime, Directory, user_ids}
use breach_scope.OrganizationScope.{matches_organization}
use breach_scope.Scim.Groups.{check_graph}
use breach_scope.Scim.Graph.{
  validate_group_graph, visit_all, visit, for_each, check_rows, check_members, members_of,
  groups_by_id, index,
}
use breach_scope.Scim.Groups.Rows.{check_graph-eq-ok}
use breach_scope.Scim.Groups.Soundness.{IsSound}
use breach_scope.Scim.Identity.Sound.{resolved_identity-IsSound}
use breach_scope.Scim.Identity.{Assignment, Table, effective_groups, resolved_identity}
use breach_scope.Scim.Identity.Effective.{effective_groups_total}
use breach_scope.Scim.Identity.Passes.{IsIn}
use breach_scope.Scim.Identity.Sole.{IsSoleGrant, Grants, resolved_identity_iff}

abbrev plain : Runtime
plain = record {
  unicode = record { casefold = λ s. s; lower = λ s. s };
  repr = λ v. "";
  member_path = λ s. none;
}

abbrev ann : User
ann = record {
  id = "u1";
  user_name = "ann";
  external_id = "ann";
  active = true;
  role = "";
  organization_id = "";
  created = "t0";
  last_modified = "t0";
}

abbrev team : Group
team = record {
  id = "g1";
  display_name = "Team";
  member_ids = "u1" ∷ [];
  role = "";
  organization_id = "";
  created = "t0";
  last_modified = "t0";
}

abbrev staff : Group
staff = record {
  id = "g2";
  display_name = "Staff";
  member_ids = "g1" ∷ [];
  role = "author";
  organization_id = "acme";
  created = "t0";
  last_modified = "t0";
}

abbrev table : Table
table = ("g2", staff) ∷ ("g1", team) ∷ []

table-Distinct : Distinct (keys table)
table-Distinct = (
  (λ m. elim m [ inl e ↦ ground (arith, e, eq_iff "g2" "g1") | inr n ↦ elim n [ ] ]),
  ((λ n. elim n [ ]), tt),
)

effective_groups_total_example :
    (out : List String) × (effective_groups "u1" table ≡ ok out)
    × Distinct out
    × ((id : String) → In id out ↔ IsIn "u1" table id)
effective_groups_total_example = effective_groups_total "u1" table table-Distinct

resolved_identity_iff_example :
    (o : Option Assignment) × (resolved_identity plain ann (staff ∷ team ∷ []) ≡ ok o)
    × ((a : Assignment) → (o ≡ some a) ↔ IsSoleGrant plain ann (staff ∷ team ∷ []) a)
resolved_identity_iff_example = resolved_identity_iff plain ann (staff ∷ team ∷ [])

abbrev office : Directory
office = record { users = ann ∷ []; groups = staff ∷ team ∷ [] }

differ : {a b : String} → (a == b) ≡ false → a ≢ b
differ {a} {b} h e = cc (h, (eq_iff a b).1 e)

acme_matches : matches_organization "acme" ≡ true
unfolding matches_organization
acme_matches = refl

office-IsSound : IsSound plain office
unfolding check_graph validate_group_graph visit_all visit for_each check_rows check_members
    members_of groups_by_id index put member user_ids keep find
office-IsSound = record {
  has = record {
    distinct =
        ((λ m. elim m [ inl e ↦ differ refl e | inr n ↦ elim n [ ] ]), ((λ n. elim n [ ]), tt));
    nonempty = (differ refl, (differ refl, tt));
  };
  names = ((λ m. elim m [ inl e ↦ differ refl e | inr n ↦ elim n [ ] ]), ((λ n. elim n [ ]), tt));
  graph = check_graph-eq-ok (ann ∷ []) (staff ∷ team ∷ []) {u = tt} refl;
  people = record {
    apart = (tt, tt);
    whole = ((differ refl, (λ e. differ refl), inl (refl, refl)), tt);
  };
  assigned = (inr (inr (inl refl), acme_matches), (inl (refl, refl), tt));
}

resolved_identity-IsSound_example :
    (o : Option Assignment) × (resolved_identity plain ann office.groups ≡ ok o)
    × ((a : Assignment)
        → (o ≡ some a) ↔ (
            Grants plain ann office.groups a
            × ((b : Assignment) → Grants plain ann office.groups b → b ≡ a)))
resolved_identity-IsSound_example = resolved_identity-IsSound plain office ann office-IsSound refl
