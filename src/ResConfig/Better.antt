-- ===== src/ResConfig/Better.antt =====
-- ResTable_config::isBetterThan of libs/androidfw/ResourceTypes.cpp, cut into stages; each takes what the
-- tests behind it answer. `a` is the object, `b` the other, `r` what is requested.
use f2ut_platform_frameworks.Prelude.{
  Bool, Option, false, if◌then◌else◌, leb, ltb, none, nonzero, not, some, true, ℕ, ◌&&◌, ◌*◌, ◌==◌,
  ◌||◌,
}
use f2ut_platform_frameworks.Prelude.Int.{ltb_ℤ, pos, ℤ, ◌*ℤ◌, ◌+ℤ◌, ◌-ℤ◌}
use f2ut_platform_frameworks.ResConfig.{
  AConfiguration, ResTableConfig, imsi, input, keys_hidden, layout_dir, locale, locale_script0,
  locale_variant0, nav_hidden, screen_long, screen_size, screen_size_bits, screen_size_dp,
  screen_type, ui_mode_night, ui_mode_type, version,
}
use f2ut_platform_frameworks.ResConfig.Specific.{is_more_specific_than}

-- `if ((x != y) && req) { return (x); }`
unfoldable pub choose : ℕ → ℕ → ℕ → Bool → Bool
choose x y req rest = if not (x == y) && nonzero req then nonzero x else rest

unfoldable pub better_imsi : ResTableConfig → ResTableConfig → ResTableConfig → Bool → Bool
better_imsi a b r rest =
    if nonzero (imsi a) || nonzero (imsi b)
    then choose a.mcc b.mcc r.mcc (choose a.mnc b.mnc r.mnc rest)
    else rest

unfoldable pub better_locale : ResTableConfig → ResTableConfig → ResTableConfig → Bool → Bool
better_locale a b r rest =
    if nonzero (locale a) || nonzero (locale b)
    then choose a.language0 b.language0 r.language0 (choose a.country0 b.country0 r.country0 rest)
    else rest

unfoldable pub better_script : ResTableConfig → ResTableConfig → ResTableConfig → Bool → Bool
better_script a b r rest =
    if nonzero (locale_script0 a) || nonzero (locale_script0 b)
    then choose (locale_script0 a) (locale_script0 b) (locale_script0 r) rest
    else rest

unfoldable pub better_variant : ResTableConfig → ResTableConfig → ResTableConfig → Bool → Bool
better_variant a b r rest =
    if nonzero (locale_variant0 a) || nonzero (locale_variant0 b)
    then choose (locale_variant0 a) (locale_variant0 b) (locale_variant0 r) rest
    else rest

unfoldable pub better_layout_dir : ResTableConfig → ResTableConfig → ResTableConfig → Bool → Bool
better_layout_dir a b r rest =
    if nonzero a.screen_layout || nonzero b.screen_layout
    then (if not (layout_dir a == layout_dir b) && nonzero (layout_dir r)
        then ltb (layout_dir b) (layout_dir a)
        else rest)
    else rest

-- The larger one is better: those that are too large are taken to be filtered out.
unfoldable pub better_smallest_width : ResTableConfig → ResTableConfig → Bool → Bool
better_smallest_width a b rest =
    if nonzero a.smallest_screen_width_dp || nonzero b.smallest_screen_width_dp
    then (if not (a.smallest_screen_width_dp == b.smallest_screen_width_dp)
        then ltb b.smallest_screen_width_dp a.smallest_screen_width_dp
        else rest)
    else rest

-- The distance from the requested width and height, of those that are requested.
unfoldable pub delta : ℕ → ℕ → ℕ → ℕ → ℤ
delta req_width req_height width height =
    (if nonzero req_width then pos req_width -ℤ pos width else pos 0)
    +ℤ (if nonzero req_height then pos req_height -ℤ pos height else pos 0)

-- `if (my != other) { return my < other; }`
unfoldable pub closer : ℤ → ℤ → Bool → Bool
closer my other rest = if ltb_ℤ my other then true else if ltb_ℤ other my then false else rest

unfoldable pub better_size_dp : ResTableConfig → ResTableConfig → ResTableConfig → Bool → Bool
better_size_dp a b r rest =
    if nonzero (screen_size_dp a) || nonzero (screen_size_dp b)
    then closer (delta r.screen_width_dp r.screen_height_dp a.screen_width_dp a.screen_height_dp)
        (delta r.screen_width_dp r.screen_height_dp b.screen_width_dp b.screen_height_dp) rest
    else rest

-- Undefined counts as normal where at least a normal screen is requested.
unfoldable pub fixed_screen_size : AConfiguration → ResTableConfig → ℕ → ℕ
fixed_screen_size k r size =
    if leb k.screensize_normal (screen_size_bits r) && size == 0 then k.screensize_normal else size

unfoldable pub better_layout :
    AConfiguration → ResTableConfig → ResTableConfig → ResTableConfig → Bool → Bool
better_layout k a b r rest =
    if nonzero a.screen_layout || nonzero b.screen_layout
    then (if not (screen_size_bits a == screen_size_bits b) && nonzero (screen_size_bits r)
        then (let fixed_my = fixed_screen_size k r (screen_size_bits a) in
            let fixed_other = fixed_screen_size k r (screen_size_bits b) in
            if fixed_my == fixed_other
            then nonzero (screen_size_bits a)
            else ltb fixed_other fixed_my)
        else choose (screen_long a) (screen_long b) (screen_long r) rest)
    else rest

unfoldable pub better_ui_mode : ResTableConfig → ResTableConfig → ResTableConfig → Bool → Bool
better_ui_mode a b r rest =
    if nonzero a.ui_mode || nonzero b.ui_mode
    then choose (ui_mode_type a) (ui_mode_type b) (ui_mode_type r)
        (choose (ui_mode_night a) (ui_mode_night b) (ui_mode_night r) rest)
    else rest

-- DENSITY_MEDIUM if none is specified.
unfoldable pub effective_density : AConfiguration → ℕ → ℕ
effective_density k density = if nonzero density then density else k.density_medium

unfoldable pub requested_density : AConfiguration → ℕ → ℕ
requested_density k density =
    if density == 0 || density == k.density_any then k.density_medium else density

-- Scaling down is taken to be twice as good as scaling up. The products are those of integers; the
-- source's `int` holds them for densities below 2 ^ 15.
unfoldable pub prefer_density : ℕ → ℕ → ℕ → Bool → Bool
prefer_density requested h l im_bigger =
    if leb h requested
    then im_bigger
    else if leb requested l
    then not im_bigger
    else if ltb_ℤ (pos (requested * requested)) ((pos (2 * l) -ℤ pos requested) *ℤ pos h)
    then not im_bigger
    else im_bigger

unfoldable pub better_density : AConfiguration → ℕ → ℕ → ℕ → Bool
better_density k density other requested =
    let this_density = effective_density k density in
    let other_density = effective_density k other in
    if this_density == k.density_any
    then true
    else if other_density == k.density_any
    then false
    else if ltb this_density other_density
    then prefer_density (requested_density k requested) other_density this_density false
    else prefer_density (requested_density k requested) this_density other_density true

unfoldable pub better_screen_type :
    AConfiguration → ResTableConfig → ResTableConfig → ResTableConfig → Bool → Bool
better_screen_type k a b r rest =
    if nonzero (screen_type a) || nonzero (screen_type b)
    then (if not (a.density == b.density)
        then better_density k a.density b.density r.density
        else choose a.touchscreen b.touchscreen r.touchscreen rest)
    else rest

-- An exact match of the hidden keys is more specific.
unfoldable pub better_keys_hidden : ℕ → ℕ → ℕ → Bool → Bool
better_keys_hidden mine other requested rest =
    if not (mine == other) && nonzero requested
    then (if mine == 0
        then false
        else if other == 0
        then true
        else if requested == mine
        then true
        else if requested == other
        then false
        else rest)
    else rest

unfoldable pub better_nav_hidden : ℕ → ℕ → ℕ → Bool → Bool
better_nav_hidden mine other requested rest =
    if not (mine == other) && nonzero requested
    then (if mine == 0 then false else if other == 0 then true else rest)
    else rest

unfoldable pub better_input : ResTableConfig → ResTableConfig → ResTableConfig → Bool → Bool
better_input a b r rest =
    if nonzero (input a) || nonzero (input b)
    then better_keys_hidden (keys_hidden a) (keys_hidden b) (keys_hidden r) (
        better_nav_hidden (nav_hidden a) (nav_hidden b) (nav_hidden r) (
          choose a.keyboard b.keyboard r.keyboard
            (choose a.navigation b.navigation r.navigation rest)))
    else rest

unfoldable pub better_size : ResTableConfig → ResTableConfig → ResTableConfig → Bool → Bool
better_size a b r rest =
    if nonzero (screen_size a) || nonzero (screen_size b)
    then closer (delta r.screen_width r.screen_height a.screen_width a.screen_height)
        (delta r.screen_width r.screen_height b.screen_width b.screen_height) rest
    else rest

unfoldable pub better_version : ResTableConfig → ResTableConfig → ResTableConfig → Bool → Bool
better_version a b r rest =
    if nonzero (version a) || nonzero (version b)
    then (if not (a.sdk_version == b.sdk_version) && nonzero r.sdk_version
        then ltb b.sdk_version a.sdk_version
        else choose a.minor_version b.minor_version r.minor_version rest)
    else rest

-- With no request it is isMoreSpecificThan.
unfoldable pub is_better_than :
    AConfiguration → ResTableConfig → ResTableConfig → Option ResTableConfig → Bool
is_better_than k a b none = is_more_specific_than a b
is_better_than k a b (some r) = better_imsi a b r (
    better_locale a b r (
      better_script a b r (
        better_variant a b r (
          better_layout_dir a b r (
            better_smallest_width a b (
              better_size_dp a b r (
                better_layout k a b r (
                  choose a.orientation b.orientation r.orientation (
                    better_ui_mode a b r (
                      better_screen_type k a b r (
                        better_input a b r
                          (better_size a b r (better_version a b r false)))))))))))))
