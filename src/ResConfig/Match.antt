-- ===== src/ResConfig/Match.antt =====
-- ResTable_config::match of libs/androidfw/ResourceTypes.cpp, cut into one test for each union.
use f2ut_platform_frameworks.Prelude.{
  Bool, false, if◌then◌else◌, ltb, nonzero, not, true, ℕ, ◌&&◌, ◌==◌, ◌||◌,
}
use f2ut_platform_frameworks.ResConfig.{
  AConfiguration, ResTableConfig, imsi, input, keys_hidden, layout_dir, locale, nav_hidden,
  screen_config, screen_long, screen_size, screen_size_bits, screen_size_dp, screen_type,
  ui_mode_night, ui_mode_type, version,
}

-- A value that is set and is not the setting's.
abbrev pub conflicts : ℕ → ℕ → Bool
conflicts x y = nonzero x && not (x == y)

-- A value that is set and exceeds the setting's.
abbrev pub exceeds : ℕ → ℕ → Bool
exceeds x y = nonzero x && ltb y x

unfoldable pub match_imsi : ResTableConfig → ResTableConfig → Bool
match_imsi c s =
    if nonzero (imsi c)
    then (if conflicts c.mcc s.mcc then false else if conflicts c.mnc s.mnc then false else true)
    else true

-- Script and variant are not considered.
unfoldable pub match_locale : ResTableConfig → ResTableConfig → Bool
match_locale c s =
    if nonzero (locale c)
    then (if nonzero c.language0
          && (not (c.language0 == s.language0) || not (c.language1 == s.language1))
        then false
        else if nonzero c.country0
            && (not (c.country0 == s.country0) || not (c.country1 == s.country1))
        then false
        else true)
    else true

unfoldable pub match_screen_config : ResTableConfig → ResTableConfig → Bool
match_screen_config c s =
    if nonzero (screen_config c)
    then (if conflicts (layout_dir c) (layout_dir s)
        then false
        else if exceeds (screen_size_bits c) (screen_size_bits s)
        then false
        else if conflicts (screen_long c) (screen_long s)
        then false
        else if conflicts (ui_mode_type c) (ui_mode_type s)
        then false
        else if conflicts (ui_mode_night c) (ui_mode_night s)
        then false
        else if exceeds c.smallest_screen_width_dp s.smallest_screen_width_dp
        then false
        else true)
    else true

unfoldable pub match_screen_size_dp : ResTableConfig → ResTableConfig → Bool
match_screen_size_dp c s =
    if nonzero (screen_size_dp c)
    then (if exceeds c.screen_width_dp s.screen_width_dp
        then false
        else if exceeds c.screen_height_dp s.screen_height_dp
        then false
        else true)
    else true

-- Density always matches.
unfoldable pub match_screen_type : ResTableConfig → ResTableConfig → Bool
match_screen_type c s =
    if nonzero (screen_type c)
    then (if conflicts c.orientation s.orientation
        then false
        else if conflicts c.touchscreen s.touchscreen
        then false
        else true)
    else true

-- A configuration for KEYSHIDDEN_NO also matches the setting KEYSHIDDEN_SOFT.
unfoldable pub match_input : AConfiguration → ResTableConfig → ResTableConfig → Bool
match_input k c s =
    if nonzero (input c)
    then (if conflicts (keys_hidden c) (keys_hidden s)
          && (not (keys_hidden c == k.keyshidden_no) || not (keys_hidden s == k.keyshidden_soft))
        then false
        else if conflicts (nav_hidden c) (nav_hidden s)
        then false
        else if conflicts c.keyboard s.keyboard
        then false
        else if conflicts c.navigation s.navigation
        then false
        else true)
    else true

unfoldable pub match_screen_size : ResTableConfig → ResTableConfig → Bool
match_screen_size c s =
    if nonzero (screen_size c)
    then (if exceeds c.screen_width s.screen_width
        then false
        else if exceeds c.screen_height s.screen_height
        then false
        else true)
    else true

unfoldable pub match_version : ResTableConfig → ResTableConfig → Bool
match_version c s =
    if nonzero (version c)
    then (if exceeds c.sdk_version s.sdk_version
        then false
        else if conflicts c.minor_version s.minor_version
        then false
        else true)
    else true

-- The first test that fails returns false.
unfoldable pub matches : AConfiguration → ResTableConfig → ResTableConfig → Bool
matches k c s =
    match_imsi c s
    && (match_locale c s
        && (match_screen_config c s
            && (match_screen_size_dp c s
                && (match_screen_type c s
                    && (match_input k c s && (match_screen_size c s && match_version c s))))))
