-- ===== src/AuthRateLimit/Entries.antt =====
-- What the operations do to the items of the file.
use breach_scope.Prelude.{
  ℕ, ◌≤◌, ◌<◌, String, ◌≡◌, refl, sym, ap, ◌∙◌, ◌⊎◌, inl, inr, Bool, true, false, Option, none,
  some, List, ◌==◌, eq_iff, arith, Bool-cases, if◌then◌else◌,
}
use breach_scope.Prelude.Dict.{find, pop, pop_absent, find-put, find-pop}
use breach_scope.AuthRateLimit.{
  Item, File, Lock, unlocked, locked, expired, read, write, empty_item, item_of, or_zero, clear,
  lock_of, respond, status, failed_item, count_failure,
}

-- The item of a subject in the file.
abbrev pub entry : String → File → Item
entry key file = item_of key (read file).subjects

or_empty : Option Item → Item
or_empty o = elim o [ none ↦ empty_item | some item ↦ item ]

subjects-clear :
    (key : String) (file : File) → (read (clear key file)).subjects ≡ pop key (read file).subjects
unfolding clear read write
subjects-clear key file = go (find key (read file).subjects) refl
  where
    go :
        (o : Option Item)
        → find key (read file).subjects ≡ o
        → (read (elim o [
          | none ↦ file
          | some item ↦ write (record (read file) { subjects = pop key (read file).subjects })
        ])).subjects
          ≡ pop key (read file).subjects
    go none absent = sym (pop_absent key (read file).subjects absent)
    go (some item) there = refl

entry-clear :
    (key other : String) (file : File)
    → entry other (clear key file)
      ≡ or_empty (if key == other then none else find other (read file).subjects)
unfolding item_of or_empty
entry-clear key other file =
    ap (λ (d : List (String × Item)). or_empty (find other d)) (subjects-clear key file)
    ∙ ap or_empty (find-pop key other (read file).subjects)

pub entry-clear_other :
    (key other : String) (file : File)
    → key == other ≡ false
    → entry other (clear key file) ≡ entry other file
unfolding item_of or_empty
entry-clear_other key other file apart =
    entry-clear key other file
    ∙ ap (λ (b : Bool). or_empty (if b then none else find other (read file).subjects)) apart

pub entry-clear_self :
    (key other : String) (file : File)
    → key == other ≡ true
    → entry other (clear key file) ≡ empty_item
unfolding or_empty
entry-clear_self key other file same =
    entry-clear key other file
    ∙ ap (λ (b : Bool). or_empty (if b then none else find other (read file).subjects)) same

-- A status changes at most its own subject, and that only where its lock has run out.
pub entry-status :
    (now : ℕ) (key other : String) (file : File)
    → (entry other (status now key file).1 ≡ entry other file)
      ⊎ (key ≡ other)
        × (lock_of now (entry key file).locked_until ≡ expired)
        × (entry other (status now key file).1 ≡ empty_item)
unfolding status respond
entry-status now key other file = go (lock_of now (entry key file).locked_until) refl
  where
    go :
        (l : Lock)
        → lock_of now (entry key file).locked_until ≡ l
        → (entry other (respond now key (or_zero (entry key file).failures) file l).1
            ≡ entry other file)
          ⊎ (key ≡ other)
            × (lock_of now (entry key file).locked_until ≡ expired)
            × (entry other (respond now key (or_zero (entry key file).failures) file l).1
                ≡ empty_item)
    go unlocked e = inl refl
    go (locked u) e = inl refl
    go expired e = elim (Bool-cases (key == other)) [
      | inl same ↦ inr ((eq_iff key other).0 same, e, entry-clear_self key other file same)
      | inr apart ↦ inl (entry-clear_other key other file apart)
    ]

pub lock_of-expired :
    (now : ℕ) (until : Option ℕ)
    → lock_of now until ≡ expired
    → (u : ℕ) × (until ≡ some u) × (u ≤ now)
unfolding lock_of
lock_of-expired now none h = cc
lock_of-expired now (some u) h = (u, refl, ground (arith, h))

pub lock_of-locked : (now u : ℕ) → now < u → lock_of now (some u) ≡ locked u
unfolding lock_of
lock_of-locked now u h = ground (arith, h)

module _ (max lockout : ℕ) where
  entry-count_failure :
      (now : ℕ) (key other : String) (file : File)
      → entry other (count_failure max lockout now key file)
        ≡ or_empty (
            if key == other
            then some (failed_item max lockout now (entry key file))
            else find other (read file).subjects)
  unfolding count_failure read write item_of or_empty
  entry-count_failure now key other file =
      ap or_empty
        (find-put key other (failed_item max lockout now (entry key file)) (read file).subjects)

  pub entry-count_failure_self :
      (now : ℕ) (key other : String) (file : File)
      → key == other ≡ true
      → entry other (count_failure max lockout now key file)
        ≡ failed_item max lockout now (entry key file)
  unfolding or_empty
  entry-count_failure_self now key other file same =
      entry-count_failure now key other file
      ∙ ap
          (λ (b : Bool). or_empty (
            if b
            then some (failed_item max lockout now (entry key file))
            else find other (read file).subjects))
          same

  pub entry-count_failure_other :
      (now : ℕ) (key other : String) (file : File)
      → key == other ≡ false
      → entry other (count_failure max lockout now key file) ≡ entry other file
  unfolding item_of or_empty
  entry-count_failure_other now key other file apart =
      entry-count_failure now key other file
      ∙ ap
          (λ (b : Bool). or_empty (
            if b
            then some (failed_item max lockout now (entry key file))
            else find other (read file).subjects))
          apart
