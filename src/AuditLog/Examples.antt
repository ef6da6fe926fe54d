-- ===== src/AuditLog/Examples.antt =====
-- The theorems at a log with the records of two organizations.
use breach_scope.Prelude.{
  ◌≤◌, String, ◌≡◌, refl, true, none, some, Option, List, [], ◌∷◌, All, keep, length, take,
}
use breach_scope.Prelude.Text.{Unicode, strip, count_chars}
use breach_scope.Prelude.Json.{string, array, object, Fields, end, field, cons, nil, get}
use breach_scope.Prelude.Result.{ok}
use breach_scope.Scim.Payload.{has_part}
use breach_scope.OrganizationScope.{candidate_of, check_candidate, matches_organization}
use breach_scope.AuditLog.{
  max_audit_limit, Detail, str_value, path_value, list_value, dict_value, no_more, detail,
  no_entries, entry, sanitize, Line, blank, broken, row, Query, effective_limit, in_scope,
  wanted_organization, newest_first, read_events,
}
use breach_scope.AuditLog.Sanitized.{IsSafe, HasPath, sanitize-IsSafe}
use breach_scope.AuditLog.Queries.{rows_of, all_lines, test, read_events-take}

abbrev plain : Unicode
plain = record { casefold = λ s. s; lower = λ s. s }

-- A secret, a path, and two keys with one text.
abbrev details : Detail
details = dict_value (
    entry "api_key" (str_value "k") (
      entry "1" (path_value "/tmp/a") (
        entry "names" (list_value (detail (str_value "a") no_more))
          (entry "1" (path_value "/tmp/b") no_entries))))

sanitize-IsSafe_example : IsSafe plain (λ s. HasPath plain s details) (sanitize plain details)
sanitize-IsSafe_example = sanitize-IsSafe plain details

sanitized :
    sanitize plain details
    ≡ object (
        field "api_key"
          (string "<redacted>")
          (field "1" (string "/tmp/b") (field "names" (array (cons (string "a") nil)) end)))
unfolding sanitize has_part count_chars
sanitized = refl

abbrev record_of : (organization action : String) → Fields
record_of organization action =
    field "organization_id" (string organization) (field "action" (string action) end)

abbrev log : Option (List Line)
log = some (
    row (record_of "acme" "login")
    ∷ blank
    ∷ broken
    ∷ row (record_of "other" "login")
    ∷ row (record_of "acme" "logout")
    ∷ [])

abbrev query : Query
query = record { limit = 0; action = ""; status = ""; case_id = ""; organization_id = some "acme" }

abbrev found : List Fields
found = record_of "acme" "logout" ∷ record_of "acme" "login" ∷ []

read_events-take_example :
    (organization : Option String) × (wanted_organization plain query.organization_id
      ≡ ok organization)
    × (found
        ≡ take (effective_limit query.limit) (
            keep
              (test plain none (λ v. "") organization query)
              (rows_of (newest_first (all_lines log)))))
    × (length found ≤ max_audit_limit)
    × All (λ fields. in_scope plain none (λ v. "") organization fields ≡ ok true) found
unfolding read_events candidate_of strip check_candidate count_chars matches_organization get
read_events-take_example = read_events-take plain none (λ v. "") query log refl
