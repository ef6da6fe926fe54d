-- ===== src/OrganizationScope/Normal/Examples.antt =====
-- The theorem at one identifier, read with blanks around it.
use breach_scope.Prelude.{◌≡◌, refl, none, some, true, ◌≤◌}
use breach_scope.Prelude.Text.{Unicode, strip, count_chars}
use breach_scope.Prelude.Result.{ok}
use breach_scope.OrganizationScope.{
  matches_organization, normalize_organization_id, candidate_of, check_candidate,
}
use breach_scope.OrganizationScope.Normal.{normalize_organization_id-IsNormal}

abbrev plain : Unicode
plain = record { casefold = λ s. s; lower = λ s. s }

normalize_organization_id-IsNormal_example :
    (matches_organization "blue-team.1" ≡ true)
    × (count_chars "blue-team.1" ≤ 64)
    × (normalize_organization_id plain "blue-team.1" none ≡ ok "blue-team.1")
unfolding normalize_organization_id candidate_of check_candidate strip matches_organization
normalize_organization_id-IsNormal_example =
    normalize_organization_id-IsNormal plain "  blue-team.1 " (some "default") none (λ t m. refl)
      refl
