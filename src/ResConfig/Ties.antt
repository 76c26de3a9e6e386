-- ===== src/ResConfig/Ties.antt =====
-- Where isBetterThan of libs/androidfw/ResourceTypes.cpp calls each of two configurations better.
use f2ut_platform_frameworks.Prelude.{arith, some, true, ℕ, ◌≡◌, ◌≢◌, ◌≤◌}
use f2ut_platform_frameworks.ResConfig.{AConfiguration, ResTableConfig, imsi, locale_script0}
use f2ut_platform_frameworks.ResConfig.Better.{
  better_density, better_imsi, better_locale, better_script, choose, effective_density,
  is_better_than, prefer_density, requested_density,
}

-- One configuration with the default density, and one that spells the same density out, at a request
-- for no less: whatever else they hold behind, each is better than the other in that test.
pub better_density-both :
    (k : AConfiguration) (requested : ℕ)
    → k.density_medium ≢ k.density_any
    → k.density_medium ≢ 0
    → k.density_medium ≤ requested_density k requested
    → (better_density k 0 k.density_medium requested ≡ true)
      × (better_density k k.density_medium 0 requested ≡ true)
unfolding better_density effective_density prefer_density
better_density-both k requested h z r = (ground arith, ground arith)

-- Two configurations for scripts that begin with different letters, at a request for any script: if the
-- fields in front tie, each is better than the other.
pub is_better_than-scripts :
    (k : AConfiguration) (a b r : ResTableConfig)
    → (imsi a ≡ 0) × (imsi b ≡ 0)
    → (a.language0 ≡ b.language0) × (a.country0 ≡ b.country0)
    → locale_script0 a ≢ locale_script0 b
    → (locale_script0 a ≢ 0) × (locale_script0 b ≢ 0) × (locale_script0 r ≢ 0)
    → (is_better_than k a b (some r) ≡ true) × (is_better_than k b a (some r) ≡ true)
unfolding is_better_than better_imsi better_locale better_script choose
is_better_than-scripts k a b r i l d n = (ground arith, ground arith)
