-- ===== src/AuthRateLimit/Logins.antt =====
-- What happens at the login page, and what it does to the failures and the lock of a subject.
use breach_scope.Prelude.{
  ℕ, ◌+◌, ◌≤◌, ◌<◌, String, ◌≡◌, ◌≢◌, refl, sym, ap, subst, ◌∙◌, inl, inr, false, none, some, List,
  [], ◌∷◌, ◌++◌, ◌==◌, eq_iff, arith, All, Bool-cases, if◌then◌else◌, some-eq-some, leb,
}
use breach_scope.AuthRateLimit.{
  Item, File, expired, or_zero, clear, lock_of, status, failed_item, count_failure, record_failure,
}
use breach_scope.AuthRateLimit.Entries.{
  entry, entry-clear_other, entry-status, lock_of-expired, entry-count_failure_self,
  entry-count_failure_other,
}

before_end : (u v now end : ℕ) → end ≤ u → now < end → v ≤ now → u ≡ v → ⊥
before_end u v now end h early late same = omega (arith, h, early, late, same)

-- What happens at the login page.
pub data Login : Type 0 where
  failure : (now later : ℕ) (key : String) → Login
  check : (now : ℕ) (key : String) → Login
  success : (key : String) → Login

-- The number of failures of a subject.
abbrev pub failures_of : String → List Login → ℕ
failures_of key [] = 0
failures_of key (failure now later k ∷ ops) = (if k == key then 1 else 0) + failures_of key ops
failures_of key (check now k ∷ ops) = failures_of key ops
failures_of key (success k ∷ ops) = failures_of key ops

-- No login of the subject succeeds.
abbrev pub IsUncleared : String → Login → Type 0
IsUncleared key (failure now later k) = Unit
IsUncleared key (check now k) = Unit
IsUncleared key (success k) = k ≢ key

-- The clock stands between the two times, and no login of the subject succeeds.
abbrev pub IsWithin : (start end : ℕ) → String → Login → Type 0
IsWithin start end key (failure now later k) = (start ≤ now) × (later < end)
IsWithin start end key (check now k) = now < end
IsWithin start end key (success k) = k ≢ key

module _ (max lockout : ℕ) where
  unfoldable pub perform : Login → File → File
  unfolding record_failure
  perform (failure now later key) file = (record_failure max lockout now later key file).1
  perform (check now key) file = (status now key file).1
  perform (success key) file = clear key file

  unfoldable pub run : List Login → File → File
  unfolding perform
  run [] file = file
  run (op ∷ ops) file = run ops (perform op file)

  pub run-append : (xs ys : List Login) (file : File) → run (xs ++ ys) file ≡ run ys (run xs file)
  unfolding run
  run-append [] ys file = refl
  run-append (x ∷ xs) ys file = run-append xs ys (perform x file)

  abbrev pub IsLocked : ℕ → String → File → Type 0
  IsLocked end key file = (u : ℕ) × ((entry key file).locked_until ≡ some u) × (end ≤ u)

  pub status-IsLocked :
      (now end : ℕ) (k key : String) (file : File)
      → now < end
      → IsLocked end key file
      → IsLocked end key (status now k file).1
  status-IsLocked now end k key file early (u, e, h) = elim (entry-status now k key file) [
    | inl same ↦ (u, ap (λ (i : Item). i.locked_until) same ∙ e, h)
    | inr (same, over, _) ↦
        let over' : lock_of now (entry key file).locked_until ≡ expired =
          subst (λ (s : String). lock_of now (entry s file).locked_until ≡ expired) same over in
        let (v, f, late) = lock_of-expired now _ over' in
        absurd (before_end u v now end h early late (some-eq-some (sym e ∙ f)))
  ]

  count_failure-IsLocked :
      (now end : ℕ) (k key : String) (file : File)
      → end ≤ now + lockout
      → IsLocked end key file
      → IsLocked end key (count_failure max lockout now k file)
  unfolding failed_item
  count_failure-IsLocked now end k key file h (u, e, l) = elim (Bool-cases (k == key)) [
    | inl same ↦
        let there : (entry k file).locked_until ≡ some u =
          subst (λ (s : String). (entry s file).locked_until ≡ some u) (sym ((eq_iff k key).0 same))
            e in
        let changed' : entry key (count_failure max lockout now k file)
            ≡ failed_item max lockout now (entry k file) =
          entry-count_failure_self max lockout now k key file same in
        elim (Bool-cases (leb max (or_zero (entry k file).failures + 1))) [
          | inl full ↦ (now + lockout, ap (λ (i : Item). i.locked_until) changed' ∙ rw full refl, h)
          | inr few ↦ (u, ap (λ (i : Item). i.locked_until) changed' ∙ rw few there, l)
        ]
    | inr apart ↦ (
      u,
      ap (λ (i : Item). i.locked_until) (entry-count_failure_other max lockout now k key file apart)
          ∙ e,
      l,
    )
  ]

  perform-IsLocked :
      (start end : ℕ) (key : String) (op : Login) (file : File)
      → end ≤ start + lockout
      → IsWithin start end key op
      → IsLocked end key file
      → IsLocked end key (perform op file)
  unfolding perform record_failure
  perform-IsLocked start end key (failure now later k) file h (i, j) l =
      status-IsLocked later end k key (count_failure max lockout now k file) j
        (count_failure-IsLocked now end k key file (omega (arith, h, i)) l)
  perform-IsLocked start end key (check now k) file h i l = status-IsLocked now end k key file i l
  perform-IsLocked start end key (success k) file h i (u, e, l) = elim (Bool-cases (k == key)) [
    | inl same ↦ absurd (i ((eq_iff k key).0 same))
    | inr apart ↦ (u, ap (λ (x : Item). x.locked_until) (entry-clear_other k key file apart) ∙ e, l)
  ]

  pub run-IsLocked :
      (start end : ℕ) (key : String) (ops : List Login) (file : File)
      → end ≤ start + lockout
      → All (IsWithin start end key) ops
      → IsLocked end key file
      → IsLocked end key (run ops file)
  unfolding run
  run-IsLocked start end key [] file h i l = l
  run-IsLocked start end key (op ∷ ops) file h i l =
      run-IsLocked start end key ops (perform op file) h i.1
        (perform-IsLocked start end key op file h i.0 l)

  -- The subject has so many failures and no lock.
  abbrev pub HasFailed : String → ℕ → File → Type 0
  HasFailed key n file =
      ((entry key file).locked_until ≡ none) × (or_zero (entry key file).failures ≡ n)

  status-HasFailed :
      (now n : ℕ) (k key : String) (file : File)
      → HasFailed key n file
      → HasFailed key n (status now k file).1
  unfolding lock_of
  status-HasFailed now n k key file h = elim (entry-status now k key file) [
    | inl same ↦
        subst (λ (i : Item). (i.locked_until ≡ none) × (or_zero i.failures ≡ n)) (sym same) h
    | inr (same, over, _) ↦
        let over' : lock_of now (entry key file).locked_until ≡ expired =
          subst (λ (s : String). lock_of now (entry s file).locked_until ≡ expired) same over in
        let (v, f, late) = lock_of-expired now (entry key file).locked_until over' in cc (f, h.0)
  ]

  count_failure-HasFailed :
      (now n : ℕ) (k key : String) (file : File)
      → n + (if k == key then 1 else 0) < max
      → HasFailed key n file
      → HasFailed key (n + (if k == key then 1 else 0)) (count_failure max lockout now k file)
  unfolding failed_item or_zero
  count_failure-HasFailed now n k key file few (free, count) = elim (Bool-cases (k == key)) [
    | inl same ↦
        let unlocked_before : (entry k file).locked_until ≡ none =
          subst (λ (s : String). (entry s file).locked_until ≡ none) (sym ((eq_iff k key).0 same))
            free in
        let count' : or_zero (entry k file).failures ≡ n =
          subst (λ (s : String). or_zero (entry s file).failures ≡ n) (sym ((eq_iff k key).0 same))
            count in
        let changed' : entry key (count_failure max lockout now k file)
            ≡ failed_item max lockout now (entry k file) =
          entry-count_failure_self max lockout now k key file same in
        let few' : leb max (or_zero (entry k file).failures + 1) ≡ false =
          ground (arith, count', rw same at few) in
        rw same (
          ap (λ (i : Item). i.locked_until) changed' ∙ rw few' unlocked_before,
          ap (λ (i : Item). or_zero i.failures) changed' ∙ omega (arith, count'),
        )
    | inr apart ↦
        let changed' : entry key (count_failure max lockout now k file) ≡ entry key file =
          entry-count_failure_other max lockout now k key file apart in
        rw apart (
          ap (λ (i : Item). i.locked_until) changed' ∙ free,
          ap (λ (i : Item). or_zero i.failures) changed' ∙ omega (arith, count),
        )
  ]

  pub run-HasFailed :
      (key : String) (ops : List Login) (file : File) (n : ℕ)
      → n + failures_of key ops < max
      → All (IsUncleared key) ops
      → HasFailed key n file
      → HasFailed key (n + failures_of key ops) (run ops file)
  unfolding run perform record_failure
  run-HasFailed key [] file n few u h = (h.0, omega (arith, h.1))
  run-HasFailed key (failure now later k ∷ ops) file n few u h =
      subst (λ (m : ℕ). HasFailed key m (run (failure now later k ∷ ops) file)) (omega arith)
        (run-HasFailed key ops (status later k (count_failure max lockout now k file)).1 _
          (omega (arith, few)) u.1
          (status-HasFailed later _ k key (count_failure max lockout now k file)
            (count_failure-HasFailed now n k key file (omega (arith, few)) h)))
  run-HasFailed key (check now k ∷ ops) file n few u h =
      run-HasFailed key ops (status now k file).1 n few u.1 (status-HasFailed now n k key file h)
  run-HasFailed key (success k ∷ ops) file n few u h = elim (Bool-cases (k == key)) [
    | inl same ↦ absurd (u.0 ((eq_iff k key).0 same))
    | inr apart ↦ run-HasFailed key ops (clear k file) n few u.1 (
        subst (λ (i : Item). (i.locked_until ≡ none) × (or_zero i.failures ≡ n))
          (sym (entry-clear_other k key file apart)) h)
  ]

  pub from_none-HasFailed :
      (key : String) (ops : List Login) (file : File)
      → failures_of key ops < max
      → All (IsUncleared key) ops
      → HasFailed key 0 file
      → HasFailed key (failures_of key ops) (run ops file)
  from_none-HasFailed key ops file few u h =
      subst (λ (m : ℕ). HasFailed key m (run ops file)) (omega arith)
        (run-HasFailed key ops file 0 (omega (arith, few)) u h)
