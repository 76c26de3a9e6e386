-- ===== src/ResConfig/Asymmetry.antt =====
-- Two configurations that match the request are not each better than the other: isBetterThan of
-- libs/androidfw/ResourceTypes.cpp.
use f2ut_platform_frameworks.Prelude.{
  Bool, Bool-cases, arith, false, if◌then◌else◌, inl, inr, nonzero, not, some, true, ℕ, ◌||◌, ◌≡◌,
  ◌≢◌, ◌⊎◌,
}
use f2ut_platform_frameworks.Prelude.Int.{ℤ}
use f2ut_platform_frameworks.ResConfig.{
  AConfiguration, ResTableConfig, imsi, input, keys_hidden, locale, locale_script0, locale_variant0,
  nav_hidden, screen_long, screen_size, screen_size_bits, screen_size_dp, screen_type,
  ui_mode_night, ui_mode_type, version,
}
use f2ut_platform_frameworks.ResConfig.Accepts.{Accepts, Same, matches_iff}
use f2ut_platform_frameworks.ResConfig.Better.{
  better_density, better_imsi, better_input, better_keys_hidden, better_layout, better_layout_dir,
  better_locale, better_nav_hidden, better_screen_type, better_script, better_size, better_size_dp,
  better_smallest_width, better_ui_mode, better_variant, better_version, choose, closer,
  effective_density, fixed_screen_size, is_better_than, prefer_density, requested_density,
}
use f2ut_platform_frameworks.ResConfig.Match.{matches}
use mathlib.Core.Bool.{false≢true}

-- Both answers are `true` only where both were left to the tests behind.
abbrev Fair : Bool → Bool → Bool → Bool → Type 0
Fair mine theirs x y = mine ≡ true → theirs ≡ true → (x ≡ true) × (y ≡ true)

module _ (x y : Bool) where
  choose-Fair :
      (m n req : ℕ) → Same m req → Same n req → Fair (choose m n req x) (choose n m req y) x y
  unfolding choose
  choose-Fair m n req hm hn = λ h h'. ground arith

  closer-Fair : (m n : ℤ) → Fair (closer m n x) (closer n m y) x y
  unfolding closer
  closer-Fair m n = λ h h'. ground arith

  better_keys_hidden-Fair :
      (m n req : ℕ) → Fair (better_keys_hidden m n req x) (better_keys_hidden n m req y) x y
  unfolding better_keys_hidden
  better_keys_hidden-Fair m n req = λ h h'. ground arith

  better_nav_hidden-Fair :
      (m n req : ℕ) → Fair (better_nav_hidden m n req x) (better_nav_hidden n m req y) x y
  unfolding better_nav_hidden
  better_nav_hidden-Fair m n req = λ h h'. ground arith

  prefer_density_flip :
      (req h l : ℕ) → prefer_density req h l false ≡ not (prefer_density req h l true)
  unfolding prefer_density
  prefer_density_flip req h l = ground arith

  better_density-Fair :
      (k : AConfiguration) (m n req : ℕ)
      → effective_density k m ≢ effective_density k n
      → Fair (better_density k m n req) (better_density k n m req) x y
  unfolding better_density
  better_density-Fair k m n req d = λ h h'. ground (
    arith,
    prefer_density_flip (requested_density k req) (effective_density k m) (effective_density k n),
    prefer_density_flip (requested_density k req) (effective_density k n) (effective_density k m),
  )

  guard-Fair :
      (p q : ℕ) (u v : Bool)
      → Fair u v x y
      → Fair (if nonzero p || nonzero q then u else x) (if nonzero q || nonzero p then v else y) x y
  guard-Fair p q u v f = λ h h'. ground (arith, f)

-- Two tests in a row, and behind a guard.
choose_two-Fair :
    (x y : Bool) (p q m n req m' n' req' : ℕ)
    → Same m req
    → Same n req
    → Same m' req'
    → Same n' req'
    → Fair
        (if nonzero p || nonzero q then choose m n req (choose m' n' req' x) else x)
        (if nonzero q || nonzero p then choose n m req (choose n' m' req' y) else y)
        x
        y
choose_two-Fair x y p q m n req m' n' req' a b c d =
    guard-Fair x y p q _ _
      λ h h'. let (e, e') = choose-Fair _ _ m n req a b h h' in choose-Fair x y m' n' req' c d e e'

module _ (k : AConfiguration) (a b r : ResTableConfig) (u : Accepts k a r) (v : Accepts k b r)
    (x y : Bool) where
  better_imsi-Fair : Fair (better_imsi a b r x) (better_imsi b a r y) x y
  unfolding better_imsi
  better_imsi-Fair =
      choose_two-Fair x y (imsi a) (imsi b) a.mcc b.mcc r.mcc a.mnc b.mnc r.mnc u.mcc v.mcc u.mnc
        v.mnc

  better_locale-Fair : Fair (better_locale a b r x) (better_locale b a r y) x y
  unfolding better_locale
  better_locale-Fair =
      choose_two-Fair x y (locale a) (locale b) a.language0 b.language0 r.language0 a.country0
        b.country0 r.country0 (ground (arith, u.language)) (ground (arith, v.language))
        (ground (arith, u.country)) (ground (arith, v.country))

  better_layout_dir-Fair : Fair (better_layout_dir a b r x) (better_layout_dir b a r y) x y
  unfolding better_layout_dir
  better_layout_dir-Fair = guard-Fair x y a.screen_layout b.screen_layout _ _ (λ h h'. ground arith)

  better_smallest_width-Fair : Fair (better_smallest_width a b x) (better_smallest_width b a y) x y
  unfolding better_smallest_width
  better_smallest_width-Fair =
      guard-Fair x y a.smallest_screen_width_dp b.smallest_screen_width_dp _ _
        (λ h h'. ground arith)

  better_size_dp-Fair : Fair (better_size_dp a b r x) (better_size_dp b a r y) x y
  unfolding better_size_dp
  better_size_dp-Fair =
      guard-Fair x y (screen_size_dp a) (screen_size_dp b) _ _ (closer-Fair x y _ _)

  better_size-Fair : Fair (better_size a b r x) (better_size b a r y) x y
  unfolding better_size
  better_size-Fair = guard-Fair x y (screen_size a) (screen_size b) _ _ (closer-Fair x y _ _)

  better_layout-Fair : Fair (better_layout k a b r x) (better_layout k b a r y) x y
  unfolding better_layout fixed_screen_size
  better_layout-Fair = guard-Fair x y a.screen_layout b.screen_layout _ _ (λ h h'. ground (
    arith,
    choose-Fair x y (screen_long a) (screen_long b) (screen_long r) u.screen_long v.screen_long,
    fixed,
  ))
    where
      fixed :
          fixed_screen_size k r (screen_size_bits a) ≡ fixed_screen_size k r (screen_size_bits b)
          → screen_size_bits a ≢ screen_size_bits b
          → (screen_size_bits a ≡ 0) ⊎ (screen_size_bits b ≡ 0)
      fixed e d = ground arith

  better_ui_mode-Fair : Fair (better_ui_mode a b r x) (better_ui_mode b a r y) x y
  unfolding better_ui_mode
  better_ui_mode-Fair =
      choose_two-Fair x y a.ui_mode b.ui_mode (ui_mode_type a) (ui_mode_type b) (ui_mode_type r)
        (ui_mode_night a) (ui_mode_night b) (ui_mode_night r) u.ui_mode_type v.ui_mode_type
        u.ui_mode_night v.ui_mode_night

  better_input-Fair : Fair (better_input a b r x) (better_input b a r y) x y
  unfolding better_input
  better_input-Fair = guard-Fair x y (input a) (input b) _ _ λ h h'.
      let (e, e') =
        better_keys_hidden-Fair _ _ (keys_hidden a) (keys_hidden b) (keys_hidden r) h h' in
      let (f, f') = better_nav_hidden-Fair _ _ (nav_hidden a) (nav_hidden b) (nav_hidden r) e e' in
      let (g, g') = choose-Fair _ _ a.keyboard b.keyboard r.keyboard u.keyboard v.keyboard f f' in
      choose-Fair x y a.navigation b.navigation r.navigation u.navigation v.navigation g g'

  better_version-Fair : Fair (better_version a b r x) (better_version b a r y) x y
  unfolding better_version
  better_version-Fair = guard-Fair x y (version a) (version b) _ _ (λ h h'. ground (
    arith,
    choose-Fair x y a.minor_version b.minor_version r.minor_version u.minor_version v.minor_version,
  ))

  better_script-Fair :
      Same (locale_script0 a) (locale_script0 r)
      → Same (locale_script0 b) (locale_script0 r)
      → Fair (better_script a b r x) (better_script b a r y) x y
  unfolding better_script
  better_script-Fair s t =
      guard-Fair x y (locale_script0 a) (locale_script0 b) _ _ (choose-Fair x y _ _ _ s t)

  better_variant-Fair :
      Same (locale_variant0 a) (locale_variant0 r)
      → Same (locale_variant0 b) (locale_variant0 r)
      → Fair (better_variant a b r x) (better_variant b a r y) x y
  unfolding better_variant
  better_variant-Fair s t =
      guard-Fair x y (locale_variant0 a) (locale_variant0 b) _ _ (choose-Fair x y _ _ _ s t)

  better_screen_type-Fair :
      (a.density ≡ b.density) ⊎ (effective_density k a.density ≢ effective_density k b.density)
      → Fair (better_screen_type k a b r x) (better_screen_type k b a r y) x y
  unfolding better_screen_type
  better_screen_type-Fair d = guard-Fair x y (screen_type a) (screen_type b) _ _ (λ h h'. ground (
    arith,
    d,
    choose-Fair x y a.touchscreen b.touchscreen r.touchscreen u.touchscreen v.touchscreen,
    better_density-Fair x y k a.density b.density r.density,
  ))

-- What better_screen_type needs of the two densities, and better_script and better_variant of the
-- script and the variant, which `matches` does not look at.
pub record Comparable (k : AConfiguration) (a b r : ResTableConfig) : Type 0 where
  pub density :
      (a.density ≡ b.density) ⊎ (effective_density k a.density ≢ effective_density k b.density)
  pub script_a : Same (locale_script0 a) (locale_script0 r)
  pub script_b : Same (locale_script0 b) (locale_script0 r)
  pub variant_a : Same (locale_variant0 a) (locale_variant0 r)
  pub variant_b : Same (locale_variant0 b) (locale_variant0 r)

-- If two configurations match the request, their scripts and variants are open or begin as the
-- requested ones do, and their densities are equal or stand for different densities, then at most one
-- of them is better than the other.
pub is_better_than-asymm :
    (k : AConfiguration) (a b r : ResTableConfig)
    → matches k a r ≡ true
    → matches k b r ≡ true
    → Comparable k a b r
    → is_better_than k a b (some r) ≡ true
    → is_better_than k b a (some r) ≡ false
unfolding is_better_than
is_better_than-asymm k a b r ma mb c h = elim (Bool-cases (is_better_than k b a (some r))) [
  | inr no_better ↦ no_better
  | inl h' ↦
      let u = (matches_iff k a r).0 ma in
      let v = (matches_iff k b r).0 mb in
      let (e1, f1) = better_imsi-Fair k a b r u v _ _ h h' in
      let (e2, f2) = better_locale-Fair k a b r u v _ _ e1 f1 in
      let (e3, f3) = better_script-Fair k a b r u v _ _ c.script_a c.script_b e2 f2 in
      let (e4, f4) = better_variant-Fair k a b r u v _ _ c.variant_a c.variant_b e3 f3 in
      let (e5, f5) = better_layout_dir-Fair k a b r u v _ _ e4 f4 in
      let (e6, f6) = better_smallest_width-Fair k a b r u v _ _ e5 f5 in
      let (e7, f7) = better_size_dp-Fair k a b r u v _ _ e6 f6 in
      let (e8, f8) = better_layout-Fair k a b r u v _ _ e7 f7 in
      let (e9, f9) =
        choose-Fair _ _ a.orientation b.orientation r.orientation u.orientation v.orientation e8
          f8 in
      let (e10, f10) = better_ui_mode-Fair k a b r u v _ _ e9 f9 in
      let (e11, f11) = better_screen_type-Fair k a b r u v _ _ c.density e10 f10 in
      let (e12, f12) = better_input-Fair k a b r u v _ _ e11 f11 in
      let (e13, f13) = better_size-Fair k a b r u v _ _ e12 f12 in
      absurd (false≢true (better_version-Fair k a b r u v _ _ e13 f13).0)
]
