-- ===== src/AuditLog/Sanitized.antt =====
-- What the sanitized details of a record hold.
use breach_scope.Prelude.{
  ℕ, zero, suc, ◌-◌, ◌≤◌, String, ◌≡◌, refl, sym, subst, eq_iff, ◌⊎◌, ◌==◌, inl, inr, Bool, true,
  false, arith, leb, leb→le, Bool-cases, if◌then◌else◌,
}
use breach_scope.Prelude.Text.{Unicode, count_chars, take_chars, count-take_chars, count-append}
use breach_scope.Prelude.Json.{
  Value, null, boolean, number, string, array, object, Items, nil, cons, Fields, end, field,
  set_field,
}
use breach_scope.Prelude.Json
use breach_scope.AuditLog.{
  redacted, truncate, is_sensitive, Detail, none_value, bool_value, zero_value, number_value,
  str_value, path_value, other_value, list_value, dict_value, Details, no_more, detail, Entries,
  no_entries, entry, sanitize, sanitize_items, sanitize_entries,
}

abbrev pub count_items : Items → ℕ
count_items nil = 0
count_items (cons value items) = suc (count_items items)

-- The text is that of a Path in the details, no key above which names a secret.
abbrev mutual
  pub HasPath : Unicode → String → Detail → Type 0
  HasPath u s (path_value t) = s ≡ t
  HasPath u s (list_value details) = ItemsHavePath u s details
  HasPath u s (dict_value entries) = EntriesHavePath u s entries
  HasPath u s _ = ⊥

  pub ItemsHavePath : Unicode → String → Details → Type 0
  ItemsHavePath u s no_more = ⊥
  ItemsHavePath u s (detail value details) = HasPath u s value ⊎ ItemsHavePath u s details

  pub EntriesHavePath : Unicode → String → Entries → Type 0
  EntriesHavePath u s no_entries = ⊥
  EntriesHavePath u s (entry key value entries) =
      ((is_sensitive u key ≡ false) × HasPath u s value) ⊎ EntriesHavePath u s entries

-- Texts of at most 500 characters, or of a path; lists of at most 50 entries; and nothing but the mark under a
-- sensitive key, at every depth.
abbrev mutual
  pub IsSafe : Unicode → (OfPath : String → Type 0) → Value → Type 0
  IsSafe u OfPath null = Unit
  IsSafe u OfPath (boolean b) = Unit
  IsSafe u OfPath (Json.zero n) = Unit
  IsSafe u OfPath (number n) = Unit
  IsSafe u OfPath (string s) = (count_chars s ≤ 500) ⊎ OfPath s
  IsSafe u OfPath (array items) = (count_items items ≤ 50) × ItemsAreSafe u OfPath items
  IsSafe u OfPath (object fields) = FieldsAreSafe u OfPath fields

  pub ItemsAreSafe : Unicode → (OfPath : String → Type 0) → Items → Type 0
  ItemsAreSafe u OfPath nil = Unit
  ItemsAreSafe u OfPath (cons value items) = IsSafe u OfPath value × ItemsAreSafe u OfPath items

  pub FieldsAreSafe : Unicode → (OfPath : String → Type 0) → Fields → Type 0
  FieldsAreSafe u OfPath end = Unit
  FieldsAreSafe u OfPath (field key value fields) =
      ((is_sensitive u key ≡ true → value ≡ string redacted) × IsSafe u OfPath value)
      × FieldsAreSafe u OfPath fields

count-truncate : (limit : ℕ) (s : String) → 1 ≤ limit → count_chars (truncate limit s) ≤ limit
unfolding truncate count_chars
count-truncate limit s some' = elim (Bool-cases (leb (count_chars s) limit)) [
  | inl short ↦ rw short (leb→le _ _ short)
  | inr long ↦ rw long (
      omega
        (arith, some', count-append (take_chars (limit - 1) s) "…", count-take_chars (limit - 1) s))
]

count-sanitize_items :
    (u : Unicode) (left : ℕ) (details : Details)
    → count_items (sanitize_items u left details) ≤ left
unfolding sanitize
count-sanitize_items u left no_more = omega arith
count-sanitize_items u zero (detail value details) = omega arith
count-sanitize_items u (suc left) (detail value details) =
    omega (arith, count-sanitize_items u left details)

module _ (u : Unicode) (OfPath : String → Type 0) where
  set_field-FieldsAreSafe :
      (key : String) (value : Value) (fields : Fields)
      → (is_sensitive u key ≡ true → value ≡ string redacted) × IsSafe u OfPath value
      → FieldsAreSafe u OfPath fields
      → FieldsAreSafe u OfPath (set_field key value fields)
  unfolding set_field
  set_field-FieldsAreSafe key value end h safe = (h, tt)
  set_field-FieldsAreSafe key value (field k v fields) h safe = elim (Bool-cases (k == key)) [
    | inl hit ↦ rw hit (
      subst
          (λ (j : String).
            (is_sensitive u j ≡ true → value ≡ string redacted) × IsSafe u OfPath value)
          (sym ((eq_iff k key).0 hit)) h,
      safe.1,
    )
    | inr miss ↦ rw miss (safe.0, set_field-FieldsAreSafe key value fields h safe.1)
  ]

  mutual
    unfolding sanitize count_chars

    keep_value :
        (value : Detail)
        → ((s : String) → HasPath u s value → OfPath s)
        → IsSafe u OfPath (sanitize u value)
    keep_value none_value paths = tt
    keep_value (bool_value b) paths = tt
    keep_value (zero_value n) paths = tt
    keep_value (number_value n) paths = tt
    keep_value (str_value s) paths = inl (count-truncate 500 s (omega arith))
    keep_value (path_value s) paths = inr (paths s refl)
    keep_value (other_value s) paths = inl (count-truncate 500 s (omega arith))
    keep_value (list_value details) paths =
        (count-sanitize_items u 50 details, keep_items 50 details paths)
    keep_value (dict_value entries) paths = keep_entries end entries tt paths

    keep_items :
        (left : ℕ) (details : Details)
        → ((s : String) → ItemsHavePath u s details → OfPath s)
        → ItemsAreSafe u OfPath (sanitize_items u left details)
    keep_items left no_more paths = tt
    keep_items zero (detail value details) paths = tt
    keep_items (suc left) (detail value details) paths = (
      keep_value value (λ s h. paths s (inl h)),
      keep_items left details (λ s h. paths s (inr h)),
    )

    keep_entries :
        (done : Fields) (entries : Entries)
        → FieldsAreSafe u OfPath done
        → ((s : String) → EntriesHavePath u s entries → OfPath s)
        → FieldsAreSafe u OfPath (sanitize_entries u done entries)
    keep_entries done no_entries safe paths = safe
    keep_entries done (entry key value entries) safe paths =
        keep_entries _ entries
          (set_field-FieldsAreSafe key _ done
            (marked (is_sensitive u key)
              (λ open_key. keep_value value (λ s h. paths s (inl (open_key, h)))))
            safe)
          (λ s h. paths s (inr h))
      where
        marked :
            (b : Bool)
            → (b ≡ false → IsSafe u OfPath (sanitize u value))
            → (b ≡ true → (if b then string redacted else sanitize u value) ≡ string redacted)
              × IsSafe u OfPath (if b then string redacted else sanitize u value)
        marked true safe_value = ((λ _. refl), inl (omega arith))
        marked false safe_value = ((λ h. cc h), safe_value refl)

-- Whatever the details of a record, what is kept of them has lists of at most 50 entries, under a key that names a
-- secret nothing but the mark, and texts of at most 500 characters but for those of paths that stand in the
-- details under no such key, at every depth. The keys themselves have no bound.
pub sanitize-IsSafe :
    (u : Unicode) (details : Detail) → IsSafe u (λ s. HasPath u s details) (sanitize u details)
sanitize-IsSafe u details = keep_value u (λ s. HasPath u s details) details (λ s h. h)
