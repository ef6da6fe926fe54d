-- ===== src/AuthRateLimit/Examples.antt =====
-- The theorems at three failures of one subject, between which another one fails.
use breach_scope.Prelude.{
  String, ◌≡◌, ◌≢◌, refl, ◌≤◌, ◌+◌, false, some, List, [], ◌∷◌, ◌++◌, eq_iff, arith,
}
use breach_scope.Prelude.Dict.{find}
use breach_scope.AuthRateLimit.{File, missing, stored, read, item_of, empty_item, status, allowing}
use breach_scope.AuthRateLimit.Entries.{entry}
use breach_scope.AuthRateLimit.Logins.{Login, failure, check, success, run}
use breach_scope.AuthRateLimit.Lockout.{too_many_failures, few_failures, lock_runs_out}

abbrev before : List Login
before = failure 1 1 "a" ∷ failure 2 2 "b" ∷ success "b" ∷ failure 3 3 "a" ∷ []

abbrev after : List Login
after = failure 5 6 "a" ∷ success "b" ∷ check 7 "a" ∷ []

b-apart : ◌≢◌ {A = String} "b" "a"
b-apart = ground (arith, eq_iff "b" "a")

too_many_failures_example :
    ((status 300 "a" (run 3 300 (before ++ failure 4 4 "a" ∷ after) missing)).0.allowed ≡ false)
    × (4 + 300
        ≤ 300
          + (status 300 "a"
              (run 3 300 (before ++ failure 4 4 "a" ∷ after) missing)).0.retry_after_seconds)
unfolding read item_of find
too_many_failures_example =
    too_many_failures 3 300 "a" missing before after 4 4 300 refl refl
      (tt, (tt, (b-apart, (tt, tt)))) (omega arith)
      ((omega arith, omega arith), (b-apart, (omega arith, tt))) (omega arith)

few_failures_example : (status 9 "a" (run 3 300 before missing)).0 ≡ allowing "a" 2
unfolding read item_of find
few_failures_example =
    few_failures 3 300 "a" missing before 9 refl (omega arith) (tt, (tt, (b-apart, (tt, tt))))

abbrev locked_file : File
locked_file = stored (some 1) (
    some (
      (
        "a",
        record {
          failures = some 3;
          last_failure_at = some 4;
          first_failure_at = some 1;
          locked_until = some 304;
        },
      )
      ∷ []))

lock_runs_out_example :
    ((status 304 "a" locked_file).0 ≡ allowing "a" 0)
    × (entry "a" (status 304 "a" locked_file).1 ≡ empty_item)
    × (entry "b" (status 304 "a" locked_file).1 ≡ entry "b" locked_file)
unfolding read item_of find
lock_runs_out_example =
    lock_runs_out 304 304 "a" "b" locked_file refl (omega arith) (omega arith) b-apart
