-- ===== src/OrganizationScope/Normal.antt =====
-- What a normalized identifier is.
mod Examples
use breach_scope.Prelude.{
  ℕ, suc, ◌≤◌, ◌+◌, String, ◌≡◌, refl, sym, ap, subst, ◌∙◌, inl, inr, Bool, true, false, not, ◌&&◌,
  ◌||◌, Option, none, some, ◌==◌, eq_iff, arith, leb, eqb, Bool-cases, if◌then◌else◌,
}
use breach_scope.Prelude.Text.{Unicode, strip, is_space, lstrip, rstrip, all_chars, count_chars}
use breach_scope.Prelude.Result.{Result, ok, err, ◌>>=◌, ◌>>◌, ok-injective}
use Prim.Native.Char.{Char, code}
use mathlib.Core.Bool.{false≢true}
use breach_scope.OrganizationScope.{
  ScopeError, is_id_char, is_alphanumeric, matches_organization, candidate_of, check_candidate,
  normalize_organization_id,
}

id_char_no_space : (c : ℕ) → is_id_char c ≡ true → is_space c ≡ false
unfolding is_id_char is_space
id_char_no_space c h = ground arith

rstrip_clean : (s : String) → all_chars is_id_char s ≡ true → rstrip s ≡ s
unfolding rstrip all_chars
rstrip_clean String.[] h = refl
rstrip_clean (String.◌∷◌ c s) h = ground (arith, id_char_no_space (code c), rstrip_clean s)

lstrip_clean :
    (c : Char) (s : String) → is_space (code c) ≡ false → lstrip (String.◌∷◌ c s) ≡ String.◌∷◌ c s
unfolding lstrip
lstrip_clean c s h = rw h refl

strip_lem : (s : String) → strip s ≡ rstrip (lstrip s)
unfolding strip
strip_lem s = refl

matches_organization-chars :
    (c : Char) (s : String)
    → matches_organization (String.◌∷◌ c s) ≡ true
    → (is_id_char (code c) ≡ true) × (all_chars is_id_char s ≡ true)
unfolding matches_organization
matches_organization-chars c s h = ground arith

all_chars-cons :
    (c : Char) (s : String)
    → is_id_char (code c) ≡ true
    → all_chars is_id_char s ≡ true
    → all_chars is_id_char (String.◌∷◌ c s) ≡ true
unfolding all_chars
all_chars-cons c s h k = rw h k

-- An identifier has no blanks around it.
matches_organization-strip : (s : String) → matches_organization s ≡ true → strip s ≡ s
matches_organization-strip String.[] h = unfold strip lstrip rstrip in refl
matches_organization-strip (String.◌∷◌ c s) h =
    let (first, rest) = matches_organization-chars c s h in
    strip_lem (String.◌∷◌ c s)
    ∙ (ap rstrip (lstrip_clean c s (id_char_no_space (code c) first))
        ∙ rstrip_clean (String.◌∷◌ c s) (all_chars-cons c s first rest))

not_empty : (s : String) → matches_organization s ≡ true → (s == "") ≡ false
unfolding matches_organization
not_empty s h = elim (Bool-cases (s == "")) [
  | inl empty ↦
      absurd (
        false≢true
          (subst (λ (t : String). matches_organization t ≡ true) ((eq_iff s "").0 empty) h))
  | inr some' ↦ some'
]

module _ (u : Unicode) where
  check_candidate-eq-ok :
      (c : String) {s : String}
      → check_candidate u c ≡ ok s
      → (c ≡ s) × (matches_organization s ≡ true) × (count_chars s ≤ 64)
  unfolding check_candidate
  check_candidate-eq-ok c {s} h = ground arith

  pub normal :
      (v : String) (d : Option String) {s : String}
      → normalize_organization_id u v d ≡ ok s
      → (matches_organization s ≡ true) × (count_chars s ≤ 64)
  unfolding normalize_organization_id
  normal v none {s} h = elim (Bool-cases (candidate_of u v == "")) [
    | inl empty ↦ cc (rw empty at h)
    | inr full ↦ let (_, m, n) = check_candidate-eq-ok (candidate_of u v) (rw full at h) in (m, n)
  ]
  normal v (some d) {s} h = let (_, m, n) = check_candidate-eq-ok _ h in (m, n)

  stays :
      (s : String) (d : Option String)
      → candidate_of u s ≡ s
      → matches_organization s ≡ true
      → count_chars s ≤ 64
      → normalize_organization_id u s d ≡ ok s
  unfolding normalize_organization_id check_candidate
  stays s none e m n = rw e (ground (arith, not_empty s m, m, n))
  stays s (some d) e m n = rw e (ground (arith, not_empty s m, m, n))

  -- What `normalize_organization_id` returns is an identifier, of at most 64 characters in the form
  -- [a-z0-9][a-z0-9._-]*, whatever the value and the default. If case folding leaves such texts alone,
  -- to normalize it once more changes nothing, under any default or none.
  pub normalize_organization_id-IsNormal :
      (value : String) (default again : Option String) {s : String}
      → ((t : String) → matches_organization t ≡ true → u.casefold t ≡ t)
      → normalize_organization_id u value default ≡ ok s
      → (matches_organization s ≡ true)
        × (count_chars s ≤ 64)
        × (normalize_organization_id u s again ≡ ok s)
  unfolding candidate_of
  normalize_organization_id-IsNormal value default again {s} fixed h =
      let (m, n) = normal value default h in
      (m, n, stays s again (ap u.casefold (matches_organization-strip s m) ∙ fixed s m) m n)
