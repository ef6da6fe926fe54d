-- ===== src/Scim/Identity/Effective.antt =====
-- The loop that collects the groups that a user is in.
use breach_scope.Prelude.{
  ℕ, zero, suc, ◌+◌, ◌<◌, String, ◌≡◌, ◌↔◌, refl, sym, subst, inl, inr, Bool, false, List, arith,
  length, In, Distinct, Bool-cases,
}
use breach_scope.Prelude.Dict.{keys}
use breach_scope.Prelude.Result.{Result, ok, err}
use breach_scope.Scim.Graph.Search.{Within, length-le_of_Within}
use breach_scope.Scim.Identity.{
  IdentityError, Table, direct_groups, grow, close_groups, effective_groups,
}
use breach_scope.Scim.Identity.Passes.{
  IsIn, as_member, by_nesting, IsIn-key, In-direct_groups, direct-Distinct, IsClosed, Grows,
  grow-Grows,
}

module _ (user_id : String) (table : Table) where
  abbrev Closes : List String → Result IdentityError (List String) → Type 0
  Closes effective (err e) = ⊥
  Closes effective (ok out) =
      Within effective out
      × ((id : String) → In id out → IsIn user_id table id)
      × Distinct out
      × IsClosed user_id table table out

  all_keys :
      (xs : List String)
      → ((id : String) → In id xs → IsIn user_id table id)
      → Within xs (keys table)
  all_keys xs sound i m = IsIn-key (sound i m)

  close_groups-Closes :
      (fuel : ℕ) (effective : List String)
      → length (keys table) < fuel + length effective
      → ((id : String) → In id effective → IsIn user_id table id)
      → Distinct effective
      → Closes effective (close_groups fuel table effective)
  unfolding close_groups
  close_groups-Closes zero effective enough sound distinct = omega (
    arith,
    enough,
    length-le_of_Within effective (keys table) distinct (all_keys effective sound),
  )
  close_groups-Closes (suc fuel) effective enough sound distinct =
      let g = grow-Grows user_id table table effective false (λ i gr m. m) sound distinct in
      elim (Bool-cases (grow (keys table) table effective false).1) [
        | inl more ↦ rw more (
            after g _ (
              close_groups-Closes fuel _
                (elim (g.grew more) [ inl never ↦ cc (never) | inr l ↦ omega (arith, l, enough) ])
                g.sound g.distinct))
        | inr settled ↦ rw settled (
          g.kept,
          g.sound,
          g.distinct,
          (let (_, same, closed) = g.settled settled in
              subst (λ (xs : List String). IsClosed user_id table table xs) (sym same) closed),
        )
      ]
    where
      after :
          {outcome : List String × Bool}
          → Grows user_id table table effective false outcome
          → (r : Result IdentityError (List String)) → Closes outcome.0 r
          → Closes effective r
      after g (ok out) c = ((λ i m. c.0 i (g.kept i m)), c.1, c.2, c.3)
      after g (err e) c = c

  closed-IsIn :
      (out : List String)
      → Within (direct_groups user_id (keys table) table) out
      → IsClosed user_id table table out
      → {id : String} → IsIn user_id table id
      → In id out
  closed-IsIn out kept closed {id} (as_member group m k free) =
      kept id ((In-direct_groups user_id table table id).1 (group, m, k, free))
  closed-IsIn out kept closed {id} (by_nesting nested group m k n) =
      closed id nested group m k (IsIn-key n) (closed-IsIn out kept closed n)

  -- For groups with distinct ids the rounds of the loop end, a round more than there are groups being enough.
  -- The list that they leave has no doubles and holds exactly the groups that the user is in, as a member or
  -- through groups nested to any depth.
  pub effective_groups_total :
      Distinct (keys table)
      → (out : List String) × (effective_groups user_id table ≡ ok out)
        × Distinct out
        × ((id : String) → In id out ↔ IsIn user_id table id)
  unfolding effective_groups
  effective_groups_total d =
      done
        (close_groups (suc (length (keys table))) table (direct_groups user_id (keys table) table))
        refl
        (close_groups-Closes (suc (length (keys table))) (direct_groups user_id (keys table) table)
          (omega arith)
          (λ id m.
            let (g, k, x, free) = (In-direct_groups user_id table table id).0 m in
            as_member g k x free)
          (direct-Distinct user_id table table d))
    where
      done :
          (r : Result IdentityError (List String))
          → close_groups
              (suc (length (keys table)))
              table
              (direct_groups user_id (keys table) table)
            ≡ r
          → Closes (direct_groups user_id (keys table) table) r
          → (out : List String) × (close_groups
                (suc (length (keys table)))
                table
                (direct_groups user_id (keys table) table)
              ≡ ok out)
            × Distinct out
            × ((id : String) → In id out ↔ IsIn user_id table id)
      done (err e) same c = elim c [ ]
      done (ok out) same c = (out, same, c.2, λ id. (c.1 id, closed-IsIn out c.0 c.3))
