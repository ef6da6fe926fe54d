-- ===== src/AuthRateLimit/Lockout.antt =====
-- A subject with too many failures is locked out, for as long as the settings say and no longer.
use breach_scope.Prelude.{
  ℕ, ◌+◌, ◌≤◌, ◌<◌, String, ◌≡◌, ◌≢◌, refl, sym, ap, subst, ◌∙◌, true, false, Option, some, List,
  ◌∷◌, ◌++◌, ◌==◌, eq_iff, eq_refl, arith, All, leb,
}
use breach_scope.AuthRateLimit.{
  Item, File, Lock, locked, expired, empty_item, or_zero, lock_of, respond, status, failed_item,
  count_failure, record_failure, allowing,
}
use breach_scope.AuthRateLimit.Entries.{
  entry, entry-clear_other, lock_of-locked, entry-count_failure_self, entry-clear_self,
}
use breach_scope.AuthRateLimit.Logins.{
  Login, failure, failures_of, IsUncleared, IsWithin, perform, run, run-append, IsLocked,
  status-IsLocked, run-IsLocked, HasFailed, from_none-HasFailed,
}

module _ (max lockout : ℕ) where
  -- The failure that reaches the limit locks the subject.
  last_failure-IsLocked :
      (now later n : ℕ) (key : String) (file : File)
      → max ≤ n + 1
      → later < now + lockout
      → HasFailed max lockout key n file
      → IsLocked max lockout (now + lockout) key (perform max lockout (failure now later key) file)
  unfolding perform record_failure failed_item
  last_failure-IsLocked now later n key file full soon (free, count) =
      let changed : entry key (count_failure max lockout now key file)
          ≡ failed_item max lockout now (entry key file) =
        entry-count_failure_self max lockout now key key file (eq_refl key) in
      let full' : leb max (or_zero (entry key file).failures + 1) ≡ true =
        ground (arith, count, full) in
      status-IsLocked max lockout later (now + lockout) key key
        (count_failure max lockout now key file) soon
        (now + lockout, ap (λ (i : Item). i.locked_until) changed ∙ rw full' refl, omega arith)

  locked_out :
      (t end : ℕ) (key : String) (file : File)
      → t < end
      → IsLocked max lockout end key file
      → ((status t key file).0.allowed ≡ false)
        × (end ≤ t + (status t key file).0.retry_after_seconds)
  unfolding status respond
  locked_out t end key file early (u, e, h) =
      let lock : lock_of t (entry key file).locked_until ≡ locked u =
        ap (lock_of t) e ∙ lock_of-locked t u (omega (arith, early, h)) in
      subst
        (λ (l : Lock).
          ((respond t key (or_zero (entry key file).failures) file l).0.allowed ≡ false)
          × (end
              ≤ t
                + (respond t key (or_zero (entry key file).failures) file l).0.retry_after_seconds))
        (sym lock) (refl, ground (arith, h, early))

  -- A subject that is not in the file fails as often as the limit says, with no success in between,
  -- and whatever other subjects do. From its last failure on it is refused until the lockout is over,
  -- and told a waiting time that reaches that far, whatever happens in the meantime short of a success
  -- of its own, as long as the clock does not go back.
  pub too_many_failures :
      (key : String) (file : File) (before after : List Login) (now later t : ℕ)
      → entry key file ≡ empty_item
      → failures_of key before + 1 ≡ max
      → All (IsUncleared key) before
      → later < now + lockout
      → All (IsWithin now (now + lockout) key) after
      → t < now + lockout
      → ((status t key (run max lockout (before ++ failure now later key ∷ after) file)).0.allowed
          ≡ false)
        × (now + lockout
            ≤ t
              + (status t key (
                  run max lockout
                    (before ++ failure now later key ∷ after)
                    file)).0.retry_after_seconds)
  unfolding run or_zero
  too_many_failures key file before after now later t new full uncleared soon within early =
      let failed : HasFailed max lockout key (failures_of key before)
          (run max lockout before file) =
        from_none-HasFailed max lockout key before file (omega (arith, full)) uncleared
          (ap (λ (i : Item). i.locked_until) new, ap (λ (i : Item). or_zero i.failures) new) in
      let shut =
        last_failure-IsLocked now later (failures_of key before) key (run max lockout before file)
          (omega (arith, full)) soon failed in
      locked_out t (now + lockout) key
        (run max lockout (before ++ failure now later key ∷ after) file) early
        (subst (IsLocked max lockout (now + lockout) key)
          (sym (run-append max lockout before (failure now later key ∷ after) file))
          (run-IsLocked max lockout now (now + lockout) key after
            (perform max lockout (failure now later key) (run max lockout before file))
            (omega arith) within shut))

  -- With fewer failures than the limit a subject is let in, and told their number.
  pub few_failures :
      (key : String) (file : File) (ops : List Login) (t : ℕ)
      → entry key file ≡ empty_item
      → failures_of key ops < max
      → All (IsUncleared key) ops
      → (status t key (run max lockout ops file)).0 ≡ allowing key (failures_of key ops)
  unfolding status respond or_zero lock_of
  few_failures key file ops t new few uncleared =
      let (free, count) =
        from_none-HasFailed max lockout key ops file few uncleared
          (ap (λ (i : Item). i.locked_until) new, ap (λ (i : Item). or_zero i.failures) new) in
      ap
        (λ (o : Option ℕ).
          (respond t key (or_zero (entry key (run max lockout ops file)).failures)
            (run max lockout ops file) (lock_of t o)).0)
        free
      ∙ ap (allowing key) count

-- A lock that has run out lets the subject in with a clean slate, and touches no other subject.
pub lock_runs_out :
    (t u : ℕ) (key other : String) (file : File)
    → (entry key file).locked_until ≡ some u
    → 0 < u
    → u ≤ t
    → other ≢ key
    → ((status t key file).0 ≡ allowing key 0)
      × (entry key (status t key file).1 ≡ empty_item)
      × (entry other (status t key file).1 ≡ entry other file)
unfolding status respond lock_of
lock_runs_out t u key other file e positive late apart =
    let over : lock_of t (entry key file).locked_until ≡ expired =
      ap (lock_of t) e ∙ ground (arith, positive, late) in
    let differ : key == other ≡ false = ground (arith, apart, eq_iff key other) in
    subst
      (λ (l : Lock).
        ((respond t key (or_zero (entry key file).failures) file l).0 ≡ allowing key 0)
        × (entry key (respond t key (or_zero (entry key file).failures) file l).1 ≡ empty_item)
        × (entry other (respond t key (or_zero (entry key file).failures) file l).1
            ≡ entry other file))
      (sym over)
      (refl, entry-clear_self key key file (eq_refl key), entry-clear_other key other file differ)
