-- ===== src/UploadPolicy/Examples.antt =====
-- The theorems at a request with two uploads, under the default limits.
use breach_scope.Prelude.{◌≤◌, ◌+◌, refl, true, none, [], ◌∷◌}
use breach_scope.Prelude.Text.{strip}
use breach_scope.UploadPolicy.{
  Files, Settings, Source, reader, blob, chunk, configured, stream_upload_to_path,
}
use breach_scope.UploadPolicy.Limits.{IsAllOrNothing, content_of, upload-IsAllOrNothing}
use breach_scope.UploadPolicy.Request.{stored_bytes, upload_all, uploads_within_total}

abbrev defaults : Settings
defaults = configured (λ s. none) "" "" "" ""

abbrev log : Source
log = reader (chunk (1 ∷ 2 ∷ []) true ∷ chunk (3 ∷ []) true ∷ [])

abbrev there : Files
there = ("old", 9 ∷ []) ∷ []

upload-IsAllOrNothing_example :
    IsAllOrNothing defaults 536870912
      (content_of log)
      "new"
      there
      0
      (stream_upload_to_path defaults log "new" there 0)
unfolding configured strip
upload-IsAllOrNothing_example = upload-IsAllOrNothing defaults log "new" there 0 536870912 refl

uploads_within_total_example :
    stored_bytes (upload_all defaults ((log, "new") ∷ (blob (4 ∷ []) true, "old") ∷ []) there 0).0
    ≤ stored_bytes there + 1073741824
unfolding configured strip
uploads_within_total_example =
    uploads_within_total defaults ((log, "new") ∷ (blob (4 ∷ []) true, "old") ∷ []) there 536870912
      1073741824 refl refl
