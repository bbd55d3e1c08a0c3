-- ===== src/AccountStatus/Tests.antt =====
-- Runs of the laws on statuses.
use sendly.Common.{true, ◌≡◌, refl, ◌⊎◌, exists, ◌==◌, arith, not}
use sendly.AccountStatus.Text.{
  codes, same_codes, trim_space, trim_left, trim_right, all_space, to_lower,
}
use sendly.AccountStatus.Status.{
  active, limited, suspended, quick_share, transfers, capability_eq, allows, restrictions, text_of,
  is_empty, normalized, parse, parse_among,
}
use sendly.AccountStatus.Laws.{allows-antitone, restrictions-exact, parse-closed}

allows-antitone_example : allows active quick_share ≡ true
allows-antitone_example = allows-antitone active limited quick_share (ground arith) refl

restrictions-exact_example :
    exists (λ x. x == transfers) (restrictions limited) ≡ not (allows limited transfers)
restrictions-exact_example = restrictions-exact limited transfers

parse-closed_example :
    (parse " Limited " ≡ suspended)
    ⊎ (same_codes (codes (text_of (parse " Limited "))) (normalized " Limited ") ≡ true)
    ⊎ ((parse " Limited " ≡ active) × (is_empty (normalized " Limited ") ≡ true))
parse-closed_example = parse-closed " Limited "

parsed : parse " Limited " ≡ limited
unfolding parse parse_among normalized trim_space trim_left trim_right all_space to_lower same_codes
    codes
parsed = refl
