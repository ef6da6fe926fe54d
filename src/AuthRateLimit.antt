-- ===== src/AuthRateLimit.antt =====
-- api/services/auth_rate_limit.py: the login failures of each subject, kept in a JSON file. An operation
-- takes the file and leaves it changed; `now` is the clock in seconds. Items hold the numbers that the
-- limiter itself writes.
pub mod Entries
pub mod Logins
pub mod Lockout
mod Examples
use breach_scope.Prelude.{
  ℕ, zero, ◌+◌, ◌-◌, String, Bool, true, false, Option, none, some, List, [], ◌∷◌, ◌==◌, ltb, leb,
  eqb, if◌then◌else◌,
}
use breach_scope.Prelude.Text.{Unicode, ◌+++◌, strip, or_else}
use breach_scope.Prelude.Integers.{ℤ, pos, negsuc}
use breach_scope.Prelude.Dict.{find, put, pop}

-- max(minimum, n)
unfoldable pub at_least : (minimum : ℕ) → ℤ → ℕ
at_least minimum (pos n) = if ltb minimum n then n else minimum
at_least minimum (negsuc n) = minimum

-- `parse` is `int` on a text, none where it raises; `raw` the variable's text, or "".
unfoldable pub env_int : (parse : String → Option ℤ) (raw : String) (default minimum : ℕ) → ℕ
unfolding at_least strip
env_int parse raw default minimum =
    if strip raw == ""
    then default
    else elim (parse (strip raw)) [ none ↦ default | some n ↦ at_least minimum n ]

unfoldable pub max_failures : (parse : String → Option ℤ) (raw : String) → ℕ
unfolding env_int
max_failures parse raw = env_int parse raw 5 1

unfoldable pub lockout_seconds : (parse : String → Option ℤ) (raw : String) → ℕ
unfolding env_int
lockout_seconds parse raw = env_int parse raw 300 1

pub record LockoutStatus : Type 0 where
  pub allowed : Bool
  pub key : String
  pub failures : ℕ
  pub locked_until : Option ℕ
  pub retry_after_seconds : ℕ

-- A subject's item, with none for a key that is not there.
pub record Item : Type 0 where
  pub failures : Option ℕ
  pub last_failure_at : Option ℕ
  pub first_failure_at : Option ℕ
  pub locked_until : Option ℕ

pub record Data : Type 0 where
  pub version : ℕ
  pub subjects : List (String × Item)

-- What stands at the path: nothing, a file that is no JSON object, or one with the two keys or without.
pub data File : Type 0 where
  missing unreadable : File
  stored : (version : Option ℕ) (subjects : Option (List (String × Item))) → File

unfoldable pub read : File → Data
read missing = record { version = 1; subjects = [] }
read unreadable = record { version = 1; subjects = [] }
read (stored version subjects) = record {
  version = elim version [ none ↦ 1 | some n ↦ n ];
  subjects = elim subjects [ none ↦ [] | some items ↦ items ];
}

unfoldable pub write : Data → File
write data' = stored (some data'.version) (some data'.subjects)

abbrev pub empty_item : Item
empty_item = record {
  failures = none;
  last_failure_at = none;
  first_failure_at = none;
  locked_until = none;
}

-- subjects.get(key) or {}
unfoldable pub item_of : String → List (String × Item) → Item
item_of key subjects = elim (find key subjects) [ none ↦ empty_item | some item ↦ item ]

-- int(n or 0)
unfoldable pub or_zero : Option ℕ → ℕ
or_zero none = 0
or_zero (some n) = n

unfoldable pub make_key : Unicode → (ip username : Option String) → String
unfolding strip or_else
make_key u ip username =
    or_else (strip (elim ip [ none ↦ "unknown" | some s ↦ or_else s "unknown" ])) "unknown"
    +++ "|"
    +++ or_else (u.lower (strip (elim username [ none ↦ "admin" | some s ↦ or_else s "admin" ])))
        "admin"

unfoldable pub clear : String → File → File
unfolding read write
clear key file = elim (find key (read file).subjects) [
  | none ↦ file
  | some _ ↦ write (record (read file) { subjects = pop key (read file).subjects })
]

pub data Lock : Type 0 where
  unlocked : Lock
  locked : ℕ → Lock
  expired : Lock

-- The two tests on `locked_until`, where 0 counts as absent.
unfoldable pub lock_of : (now : ℕ) → Option ℕ → Lock
lock_of now none = unlocked
lock_of now (some until) =
    if eqb until 0 then unlocked else if ltb now until then locked until else expired

abbrev pub allowing : String → ℕ → LockoutStatus
allowing key failures = record {
  allowed = true;
  key = key;
  failures = failures;
  locked_until = none;
  retry_after_seconds = 0;
}

unfoldable pub respond : (now : ℕ) (key : String) → ℕ → File → Lock → LockoutStatus × File
unfolding clear
respond now key failures file (locked until) = (
  record {
    allowed = false;
    key = key;
    failures = failures;
    locked_until = some until;
    retry_after_seconds = if ltb 1 (until - now) then until - now else 1;
  },
  file,
)
respond now key failures file expired = (allowing key 0, clear key file)
respond now key failures file unlocked = (allowing key failures, file)

unfoldable pub status : (now : ℕ) (key : String) → File → LockoutStatus × File
unfolding read item_of or_zero lock_of respond
status now key file =
    let item = item_of key (read file).subjects in
    respond now key (or_zero item.failures) file (lock_of now item.locked_until)

module _ (max lockout : ℕ) where
  unfoldable pub failed_item : (now : ℕ) → Item → Item
  unfolding or_zero
  failed_item now item = record {
    failures = some (or_zero item.failures + 1);
    last_failure_at = some now;
    first_failure_at = elim item.first_failure_at [ none ↦ some now | some t ↦ some t ];
    locked_until =
        if leb max (or_zero item.failures + 1) then some (now + lockout) else item.locked_until;
  }

  -- The part under the lock.
  unfoldable pub count_failure : (now : ℕ) (key : String) → File → File
  unfolding read write item_of failed_item
  count_failure now key file =
      let data' = read file in
      write (record data' {
        subjects = put key (failed_item now (item_of key data'.subjects)) data'.subjects;
      })

  -- The clock is read again for the status, at `later`.
  unfoldable pub record_failure : (now later : ℕ) (key : String) → File → LockoutStatus × File
  unfolding count_failure status
  record_failure now later key file = status later key (count_failure now key file)
