-- ===== src/ResConfig.antt =====
-- ResTable_config of include/androidfw/ResourceTypes.h and libs/androidfw/ResourceTypes.cpp: the
-- configuration that a resource is for, and that a device has.
pub mod Specific
pub mod Order
pub mod Match
pub mod Accepts
pub mod Better
pub mod Asymmetry
pub mod Ties
pub mod Packed
pub mod Compare
pub mod CompareLaws
pub mod CompareOrder
pub mod Tests
use f2ut_platform_frameworks.Prelude.{List, bit_and, get_or, ℕ, ◌*◌, ◌+◌, ◌^◌}

-- The structure, each union by its members. The host is little-endian, as the code assumes.
pub record ResTableConfig : Type 0 where
  pub size : ℕ
  pub mcc : ℕ
  pub mnc : ℕ
  pub language0 : ℕ
  pub language1 : ℕ
  pub country0 : ℕ
  pub country1 : ℕ
  pub orientation : ℕ
  pub touchscreen : ℕ
  pub density : ℕ
  pub keyboard : ℕ
  pub navigation : ℕ
  pub input_flags : ℕ
  pub input_pad0 : ℕ
  pub screen_width : ℕ
  pub screen_height : ℕ
  pub sdk_version : ℕ
  pub minor_version : ℕ
  pub screen_layout : ℕ
  pub ui_mode : ℕ
  pub smallest_screen_width_dp : ℕ
  pub screen_width_dp : ℕ
  pub screen_height_dp : ℕ
  pub locale_script : List ℕ
  pub locale_variant : List ℕ

-- The other members of the unions: 32-bit words over the same bytes.
abbrev pub imsi : ResTableConfig → ℕ
imsi c = c.mcc + c.mnc * 2 ^ 16

abbrev pub locale : ResTableConfig → ℕ
locale c = c.language0 + c.language1 * 2 ^ 8 + c.country0 * 2 ^ 16 + c.country1 * 2 ^ 24

abbrev pub screen_type : ResTableConfig → ℕ
screen_type c = c.orientation + c.touchscreen * 2 ^ 8 + c.density * 2 ^ 16

abbrev pub input : ResTableConfig → ℕ
input c = c.keyboard + c.navigation * 2 ^ 8 + c.input_flags * 2 ^ 16 + c.input_pad0 * 2 ^ 24

abbrev pub screen_size : ResTableConfig → ℕ
screen_size c = c.screen_width + c.screen_height * 2 ^ 16

abbrev pub version : ResTableConfig → ℕ
version c = c.sdk_version + c.minor_version * 2 ^ 16

abbrev pub screen_config : ResTableConfig → ℕ
screen_config c = c.screen_layout + c.ui_mode * 2 ^ 8 + c.smallest_screen_width_dp * 2 ^ 16

abbrev pub screen_size_dp : ResTableConfig → ℕ
screen_size_dp c = c.screen_width_dp + c.screen_height_dp * 2 ^ 16

-- localeScript[0] and localeVariant[0]
abbrev pub locale_script0 : ResTableConfig → ℕ
locale_script0 c = get_or c.locale_script 0 0

abbrev pub locale_variant0 : ResTableConfig → ℕ
locale_variant0 c = get_or c.locale_variant 0 0

-- Fields under a mask. `((x ^ y) & M) != 0` says that x and y differ under M, and is modelled so.
abbrev pub layout_dir : ResTableConfig → ℕ
layout_dir c = bit_and c.screen_layout 0xC0

abbrev pub screen_size_bits : ResTableConfig → ℕ
screen_size_bits c = bit_and c.screen_layout 0x0f

abbrev pub screen_long : ResTableConfig → ℕ
screen_long c = bit_and c.screen_layout 0x30

abbrev pub ui_mode_type : ResTableConfig → ℕ
ui_mode_type c = bit_and c.ui_mode 0x0f

abbrev pub ui_mode_night : ResTableConfig → ℕ
ui_mode_night c = bit_and c.ui_mode 0x30

abbrev pub keys_hidden : ResTableConfig → ℕ
keys_hidden c = bit_and c.input_flags 0x0003

abbrev pub nav_hidden : ResTableConfig → ℕ
nav_hidden c = bit_and c.input_flags 0x000c

-- The constants of the platform's android/configuration.h that the code names.
pub record AConfiguration : Type 0 where
  pub density_medium : ℕ
  pub density_any : ℕ
  pub keyshidden_no : ℕ
  pub keyshidden_soft : ℕ
  pub screensize_normal : ℕ
