-- ===== src/UploadPolicy/Request.antt =====
-- The uploads of one request, which share a budget.
use breach_scope.Prelude.{
  ℕ, ◌+◌, ◌≤◌, String, ◌≡◌, sym, subst, ◌∙◌, inl, inr, none, List, [], ◌∷◌, ◌==◌, arith, length,
  Bool-cases,
}
use breach_scope.Prelude.Dict.{find, put}
use breach_scope.Prelude.Result.{ok, Result-cases, ok-injective}
use breach_scope.UploadPolicy.{Bytes, Files, UploadError, Settings, Source, stream_upload_to_path}
use breach_scope.UploadPolicy.Limits.{content_of, upload-IsAllOrNothing}

-- The size of all files together.
abbrev pub stored_bytes : Files → ℕ
stored_bytes [] = 0
stored_bytes ((path, bytes) ∷ files) = length bytes + stored_bytes files

stored_bytes-put :
    (path : String) (bytes : Bytes) (files : Files)
    → find path files ≡ none
    → stored_bytes (put path bytes files) ≡ stored_bytes files + length bytes
unfolding find put
stored_bytes-put path bytes [] h = omega arith
stored_bytes-put path bytes ((k, b) ∷ files) h = elim (Bool-cases (k == path)) [
  | inl hit ↦ cc (rw hit at h)
  | inr miss ↦ rw miss (omega (arith, stored_bytes-put path bytes files (rw miss at h)))
]

module _ (settings : Settings) where
  -- Uploads one after the other, those that fail included.
  unfoldable pub upload_all : List (Source × String) → Files → (total : ℕ) → Files × ℕ
  upload_all [] files total = (files, total)
  upload_all ((source, destination) ∷ uploads) files total =
      let outcome = stream_upload_to_path settings source destination files total in
      upload_all uploads outcome.files outcome.total

  -- An upload takes from the budget at least what it stores.
  stored_by_one :
      (source : Source) (destination : String) (files : Files) (total limit max_total : ℕ)
      → settings.max_file_bytes ≡ ok limit
      → settings.max_total_bytes ≡ ok max_total
      → total ≤ max_total
      → let outcome = stream_upload_to_path settings source destination files total in
        (stored_bytes outcome.files + total ≤ stored_bytes files + outcome.total)
        × (outcome.total ≤ max_total)
  stored_by_one source destination files total limit max_total f t h =
      let (failed, done, more, within) =
        upload-IsAllOrNothing settings source destination files total limit f in
      let outcome = stream_upload_to_path settings source destination files total in
      (
        elim (Result-cases outcome.result) [
          | inl (n, e) ↦
              let (new, same, size, taken, _) = done n e in
              subst (λ (fs : Files). stored_bytes fs + total ≤ stored_bytes files + outcome.total)
                (sym same)
                (omega
                  (arith, stored_bytes-put destination (content_of source) files new, size, taken))
          | inr (x, e) ↦
              subst (λ (fs : Files). stored_bytes fs + total ≤ stored_bytes files + outcome.total)
                (sym (failed x e)) (omega (arith, more))
        ],
        elim within [
          | inl same ↦ omega (arith, same, h)
          | inr (limit', e, small) ↦
              let agree : limit' ≡ max_total = ok-injective {E = UploadError} (sym e ∙ t) in
              omega (arith, small, agree)
        ],
      )

  stored_by_all :
      (uploads : List (Source × String)) (files : Files) (total limit max_total : ℕ)
      → settings.max_file_bytes ≡ ok limit
      → settings.max_total_bytes ≡ ok max_total
      → total ≤ max_total
      → (stored_bytes (upload_all uploads files total).0 + total
          ≤ stored_bytes files + (upload_all uploads files total).1)
        × ((upload_all uploads files total).1 ≤ max_total)
  unfolding upload_all
  stored_by_all [] files total limit max_total f t h = (omega arith, h)
  stored_by_all ((source, destination) ∷ uploads) files total limit max_total f t h =
      let outcome = stream_upload_to_path settings source destination files total in
      let (a, b) = stored_by_one source destination files total limit max_total f t h in
      let (c, d) = stored_by_all uploads outcome.files outcome.total limit max_total f t b in
      (omega (arith, a, c), d)

  -- Whatever uploads follow each other on a new budget, and whichever of them fail, all together they
  -- store no more bytes than the limit of a request.
  pub uploads_within_total :
      (uploads : List (Source × String)) (files : Files) (limit max_total : ℕ)
      → settings.max_file_bytes ≡ ok limit
      → settings.max_total_bytes ≡ ok max_total
      → stored_bytes (upload_all uploads files 0).0 ≤ stored_bytes files + max_total
  uploads_within_total uploads files limit max_total f t =
      let (a, b) = stored_by_all uploads files 0 limit max_total f t (omega arith) in
      omega (arith, a, b)
