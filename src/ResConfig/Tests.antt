-- ===== src/ResConfig/Tests.antt =====
-- Configurations of libs/androidfw/ResourceTypes.cpp at concrete values, and the theorems there.
use f2ut_platform_frameworks.Prelude.{
  List, [], arith, false, inl, inr, refl, some, true, ℕ, ◌++◌, ◌↔◌, ◌∷◌, ◌≡◌,
}
use f2ut_platform_frameworks.Prelude.Int.{pos, ◌*ℤ◌, ◌-ℤ◌}
use f2ut_platform_frameworks.ResConfig.Packed.{
  pack_language, pack_region, unpack_language, unpack_region, unpacked,
  unpack_language-pack_language,
}
use f2ut_platform_frameworks.ResConfig.{AConfiguration, ResTableConfig}
use f2ut_platform_frameworks.ResConfig.Accepts.{Accepts, matches_iff}
use f2ut_platform_frameworks.ResConfig.Asymmetry.{Comparable, is_better_than-asymm}
use f2ut_platform_frameworks.ResConfig.Better.{
  better_density, better_imsi, better_layout, better_layout_dir, better_locale, better_screen_type,
  better_script, better_size_dp, better_smallest_width, better_ui_mode, better_variant, choose,
  effective_density, is_better_than, prefer_density, requested_density,
}
use f2ut_platform_frameworks.ResConfig.Compare.{compare_configs, compare_logical}
use f2ut_platform_frameworks.ResConfig.CompareLaws.{InRange, SameWords, compare_configs-zero}
use f2ut_platform_frameworks.ResConfig.CompareOrder.{compare_logical-neg, neg}
use f2ut_platform_frameworks.ResConfig.Match.{
  match_imsi, match_input, match_locale, match_screen_config, match_screen_size,
  match_screen_size_dp, match_screen_type, match_version, matches,
}
use f2ut_platform_frameworks.ResConfig.Order.{
  LocaleForm, is_more_specific_than-lex_gt, is_more_specific_than-order, lex_gt, specificity,
}
use f2ut_platform_frameworks.ResConfig.Specific.{is_more_specific_than}

-- The values of android/configuration.h.
abbrev platform : AConfiguration
platform = record {
  density_medium = 160;
  density_any = 65534;
  keyshidden_no = 1;
  keyshidden_soft = 3;
  screensize_normal = 2;
}

abbrev no_letters : List ℕ
no_letters = 0 ∷ 0 ∷ 0 ∷ 0 ∷ []

-- A device: English, portrait, with density 320 and SDK version 21.
abbrev device : ResTableConfig
device = record {
  size = 48;
  mcc = 310;
  mnc = 4;
  language0 = 101;
  language1 = 110;
  country0 = 85;
  country1 = 83;
  orientation = 1;
  touchscreen = 3;
  density = 320;
  keyboard = 1;
  navigation = 1;
  input_flags = 1;
  input_pad0 = 0;
  screen_width = 720;
  screen_height = 1280;
  sdk_version = 21;
  minor_version = 0;
  screen_layout = 66;
  ui_mode = 17;
  smallest_screen_width_dp = 360;
  screen_width_dp = 360;
  screen_height_dp = 640;
  locale_script = no_letters;
  locale_variant = no_letters ++ no_letters;
}

-- What sets nothing but the language and the density.
abbrev english : ℕ → ResTableConfig
english density = record {
  size = 48;
  mcc = 0;
  mnc = 0;
  language0 = 101;
  language1 = 110;
  country0 = 0;
  country1 = 0;
  orientation = 0;
  touchscreen = 0;
  density = density;
  keyboard = 0;
  navigation = 0;
  input_flags = 0;
  input_pad0 = 0;
  screen_width = 0;
  screen_height = 0;
  sdk_version = 0;
  minor_version = 0;
  screen_layout = 0;
  ui_mode = 0;
  smallest_screen_width_dp = 0;
  screen_width_dp = 0;
  screen_height_dp = 0;
  locale_script = no_letters;
  locale_variant = no_letters ++ no_letters;
}

abbrev any_config : ResTableConfig
any_config = record (english 0) { language0 = 0; language1 = 0 }

abbrev carrier : ResTableConfig
carrier = record any_config { mcc = 310 }

abbrev with_script : ℕ → ResTableConfig
with_script letter = record (english 0) { locale_script = letter ∷ 0 ∷ 0 ∷ 0 ∷ [] }

english-LocaleForm : LocaleForm (english 240)
english-LocaleForm = record { language = λ h. absurd (omega arith); country = λ h. refl }

any_config-LocaleForm : LocaleForm any_config
any_config-LocaleForm = record { language = λ h. refl; country = λ h. refl }

carrier-LocaleForm : LocaleForm carrier
carrier-LocaleForm = record { language = λ h. refl; country = λ h. refl }

english-InRange : InRange (english 240)
english-InRange = record {
  imsi = omega arith;
  locale = omega arith;
  screen_type = omega arith;
  input = omega arith;
  screen_size = omega arith;
  version = omega arith;
  screen_layout = omega arith;
  ui_mode = omega arith;
  smallest_width = omega arith;
  screen_size_dp = omega arith;
  script = refl;
  variant = refl;
}

english-matches : matches platform (english 240) device ≡ true
unfolding matches match_imsi match_locale match_screen_config match_screen_size_dp match_screen_type
    match_input match_screen_size match_version
english-matches = refl

denser-matches : matches platform (english 480) device ≡ true
unfolding matches match_imsi match_locale match_screen_config match_screen_size_dp match_screen_type
    match_input match_screen_size match_version
denser-matches = refl

-- The device's configuration accepts the English one.
matches_iff_example :
    (matches platform (english 240) device ≡ true) ↔ Accepts platform (english 240) device
matches_iff_example = matches_iff platform (english 240) device

comparable : Comparable platform (english 480) (english 240) device
unfolding effective_density
comparable = record {
  density = inr (λ (h : 480 ≡ 240). omega arith);
  script_a = inl refl;
  script_b = inl refl;
  variant_a = inl refl;
  variant_b = inl refl;
}

denser_is_better : is_better_than platform (english 480) (english 240) (some device) ≡ true
unfolding is_better_than better_imsi better_locale better_script better_variant better_layout_dir
    better_smallest_width better_size_dp better_layout better_ui_mode better_screen_type
    better_density prefer_density effective_density requested_density choose ◌*ℤ◌ ◌-ℤ◌
denser_is_better = refl

-- For a density of 320 the drawable for 480 is scaled down.
is_better_than-asymm_example :
    is_better_than platform (english 240) (english 480) (some device) ≡ false
is_better_than-asymm_example =
    is_better_than-asymm platform (english 480) (english 240) device denser-matches english-matches
      comparable denser_is_better

is_more_specific_than-lex_gt_example :
    is_more_specific_than carrier (english 240)
    ≡ lex_gt (specificity carrier) (specificity (english 240))
is_more_specific_than-lex_gt_example =
    is_more_specific_than-lex_gt carrier (english 240) carrier-LocaleForm english-LocaleForm

is_more_specific_than-order_example :
    (is_more_specific_than carrier carrier ≡ false)
    × (is_more_specific_than carrier (english 240) ≡ true
        → is_more_specific_than (english 240) any_config ≡ true
        → is_more_specific_than carrier any_config ≡ true)
is_more_specific_than-order_example =
    is_more_specific_than-order carrier (english 240) any_config carrier-LocaleForm
      english-LocaleForm any_config-LocaleForm

compare_configs-zero_example :
    (compare_configs (english 240) (english 240) ≡ pos 0) ↔ SameWords (english 240) (english 240)
compare_configs-zero_example =
    compare_configs-zero (english 240) (english 240) english-InRange english-InRange

compare_logical-neg_example :
    compare_logical (english 240) carrier ≡ neg (compare_logical carrier (english 240))
compare_logical-neg_example = compare_logical-neg carrier (english 240) (omega arith) (omega arith)

-- Filipino, and Latin America.
unpack_language-pack_language_example :
    (unpack_language (pack_region (52, 49, 57) (pack_language (102, 105, 108) any_config))
      ≡ unpacked (102, 105, 108))
    × (unpack_region (pack_region (52, 49, 57) (pack_language (102, 105, 108) any_config))
        ≡ unpacked (52, 49, 57))
unpack_language-pack_language_example =
    unpack_language-pack_language any_config (102, 105, 108) (52, 49, 57)
      (inl (omega arith, omega arith, omega arith, omega arith, omega arith, omega arith))
      (inl (omega arith, omega arith, omega arith, omega arith, omega arith, omega arith))
