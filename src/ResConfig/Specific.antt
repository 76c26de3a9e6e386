-- ===== src/ResConfig/Specific.antt =====
-- isLocaleMoreSpecificThan and isMoreSpecificThan of libs/androidfw/ResourceTypes.cpp. The run of tests is cut
-- into stages; each takes what the tests behind it answer.
use f2ut_platform_frameworks.Prelude.{Bool, false, if◌then◌else◌, nonzero, true, ℕ, ◌+◌, ◌==◌, ◌||◌}
use f2ut_platform_frameworks.Prelude.Int.{ltb_ℤ, negsuc, pos, sub_ℕ, ℤ}
use f2ut_platform_frameworks.ResConfig.{
  ResTableConfig, imsi, input, keys_hidden, layout_dir, locale, locale_script0, locale_variant0,
  nav_hidden, screen_long, screen_size, screen_size_bits, screen_size_dp, ui_mode_night,
  ui_mode_type, version,
}

-- `if (x != y) { if (!x) return false; if (!y) return true; }`
unfoldable pub prefer : ℕ → ℕ → Bool → Bool
prefer x y rest = if x == y then rest else if x == 0 then false else if y == 0 then true else rest

-- (localeScript[0] != 0 ? 1 : 0) + (localeVariant[0] != 0 ? 2 : 0)
abbrev pub locale_score : ResTableConfig → ℕ
locale_score c =
    (if nonzero (locale_script0 c) then 1 else 0) + (if nonzero (locale_variant0 c) then 2 else 0)

score_difference : ResTableConfig → ResTableConfig → ℤ
score_difference a b = sub_ℕ (locale_score a) (locale_score b)

-- `if (x != y) { if (!x) return -1; if (!y) return 1; }`
unfoldable pub prefer_sign : ℕ → ℕ → ℤ → ℤ
prefer_sign x y rest =
    if x == y then rest else if x == 0 then negsuc 0 else if y == 0 then pos 1 else rest

-- The first test of language or country that decides, and otherwise the difference of the scores.
unfoldable pub is_locale_more_specific_than : ResTableConfig → ResTableConfig → ℤ
unfolding score_difference
is_locale_more_specific_than a b =
    if nonzero (locale a) || nonzero (locale b)
    then prefer_sign a.language0 b.language0
        (prefer_sign a.country0 b.country0 (score_difference a b))
    else score_difference a b

unfoldable pub specific_imsi : ResTableConfig → ResTableConfig → Bool → Bool
specific_imsi a b rest =
    if nonzero (imsi a) || nonzero (imsi b)
    then prefer a.mcc b.mcc (prefer a.mnc b.mnc rest)
    else rest

unfoldable pub specific_locale : ResTableConfig → ResTableConfig → Bool → Bool
specific_locale a b rest =
    if nonzero (locale a) || nonzero (locale b)
    then (let diff = is_locale_more_specific_than a b in
        if ltb_ℤ diff (pos 0) then false else if ltb_ℤ (pos 0) diff then true else rest)
    else rest

unfoldable pub specific_layout_dir : ResTableConfig → ResTableConfig → Bool → Bool
specific_layout_dir a b rest =
    if nonzero a.screen_layout || nonzero b.screen_layout
    then prefer (layout_dir a) (layout_dir b) rest
    else rest

unfoldable pub specific_smallest_width : ResTableConfig → ResTableConfig → Bool → Bool
specific_smallest_width a b rest =
    if nonzero a.smallest_screen_width_dp || nonzero b.smallest_screen_width_dp
    then prefer a.smallest_screen_width_dp b.smallest_screen_width_dp rest
    else rest

unfoldable pub specific_size_dp : ResTableConfig → ResTableConfig → Bool → Bool
specific_size_dp a b rest =
    if nonzero (screen_size_dp a) || nonzero (screen_size_dp b)
    then prefer a.screen_width_dp b.screen_width_dp
        (prefer a.screen_height_dp b.screen_height_dp rest)
    else rest

unfoldable pub specific_layout : ResTableConfig → ResTableConfig → Bool → Bool
specific_layout a b rest =
    if nonzero a.screen_layout || nonzero b.screen_layout
    then prefer (screen_size_bits a) (screen_size_bits b)
        (prefer (screen_long a) (screen_long b) rest)
    else rest

unfoldable pub specific_ui_mode : ResTableConfig → ResTableConfig → Bool → Bool
specific_ui_mode a b rest =
    if nonzero a.ui_mode || nonzero b.ui_mode
    then prefer (ui_mode_type a) (ui_mode_type b) (prefer (ui_mode_night a) (ui_mode_night b) rest)
    else rest

unfoldable pub specific_input : ResTableConfig → ResTableConfig → Bool → Bool
specific_input a b rest =
    if nonzero (input a) || nonzero (input b)
    then prefer (keys_hidden a) (keys_hidden b) (
        prefer (nav_hidden a) (nav_hidden b)
          (prefer a.keyboard b.keyboard (prefer a.navigation b.navigation rest)))
    else rest

unfoldable pub specific_size : ResTableConfig → ResTableConfig → Bool → Bool
specific_size a b rest =
    if nonzero (screen_size a) || nonzero (screen_size b)
    then prefer a.screen_width b.screen_width (prefer a.screen_height b.screen_height rest)
    else rest

unfoldable pub specific_version : ResTableConfig → ResTableConfig → Bool → Bool
specific_version a b rest =
    if nonzero (version a) || nonzero (version b)
    then prefer a.sdk_version b.sdk_version (prefer a.minor_version b.minor_version rest)
    else rest

unfoldable pub is_more_specific_than : ResTableConfig → ResTableConfig → Bool
is_more_specific_than a b = specific_imsi a b (
    specific_locale a b (
      specific_layout_dir a b (
        specific_smallest_width a b (
          specific_size_dp a b (
            specific_layout a b (
              prefer a.orientation b.orientation (
                specific_ui_mode a b (
                  prefer a.touchscreen b.touchscreen
                    (specific_input a b (specific_size a b (specific_version a b false)))))))))))
