-- ===== src/ResConfig/Compare.antt =====
-- compareLocales, compare and compareLogical of libs/androidfw/ResourceTypes.cpp, as the signed numbers
-- that they return.
use f2ut_platform_frameworks.Prelude.{Bool, List, false, if◌then◌else◌, ltb, not, ℕ, ◌==◌, ◌∷◌}
use f2ut_platform_frameworks.Prelude.Int.{ltb_ℤ, negsuc, pos, ℤ}
use f2ut_platform_frameworks.Prelude.Words.{signed32, sub32}
use f2ut_platform_frameworks.ResConfig.{
  ResTableConfig, imsi, input, layout_dir, locale, screen_size, screen_size_dp, screen_type,
  version,
}

-- `if (x != y) { return x < y ? -1 : 1; }`
unfoldable pub by_order : ℕ → ℕ → ℤ → ℤ
by_order x y rest = if x == y then rest else if ltb x y then negsuc 0 else pos 1

-- memcmp over as many bytes as both have. Of its result only the sign is specified: -1, 0 or 1 here.
unfoldable pub memcmp : List ℕ → List ℕ → ℤ
memcmp (x ∷ xs) (y ∷ ys) = by_order x y (memcmp xs ys)
memcmp _ _ = pos 0

abbrev pub is_zero : ℤ → Bool
is_zero (pos n) = n == 0
is_zero (negsuc n) = false

-- The difference of the locale words wraps, and is read as an `int`.
unfoldable pub compare_locales : ResTableConfig → ResTableConfig → ℤ
compare_locales a b =
    if not (locale a == locale b)
    then signed32 (sub32 (locale a) (locale b))
    else (let script = memcmp a.locale_script b.locale_script in
        if is_zero script then memcmp a.locale_variant b.locale_variant else script)

-- `diff = (int32_t)(x - y); if (diff != 0) return diff;`
unfoldable pub by_difference : ℕ → ℕ → ℤ → ℤ
by_difference x y rest = let diff = signed32 (sub32 x y) in if is_zero diff then rest else diff

unfoldable pub compare_configs : ResTableConfig → ResTableConfig → ℤ
compare_configs a b = by_difference (imsi a) (imsi b) (
    let locales = compare_locales a b in
    if not (is_zero locales)
    then locales
    else by_difference (screen_type a) (screen_type b) (
        by_difference (input a) (input b) (
          by_difference (screen_size a) (screen_size b) (
            by_difference (version a) (version b) (
              by_difference a.screen_layout b.screen_layout (
                by_difference a.ui_mode b.ui_mode (
                  by_difference a.smallest_screen_width_dp b.smallest_screen_width_dp
                    (by_difference (screen_size_dp a) (screen_size_dp b) (pos 0)))))))))

unfoldable pub compare_logical : ResTableConfig → ResTableConfig → ℤ
compare_logical a b = by_order a.mcc b.mcc (
    by_order a.mnc b.mnc (
      let locales = compare_locales a b in
      if ltb_ℤ locales (pos 0)
      then negsuc 0
      else if ltb_ℤ (pos 0) locales
      then pos 1
      else by_order (layout_dir a) (layout_dir b) (
          by_order a.smallest_screen_width_dp b.smallest_screen_width_dp (
            by_order a.screen_width_dp b.screen_width_dp (
              by_order a.screen_height_dp b.screen_height_dp (
                by_order a.screen_width b.screen_width (
                  by_order a.screen_height b.screen_height (
                    by_order a.density b.density (
                      by_order a.orientation b.orientation (
                        by_order a.touchscreen b.touchscreen (
                          by_order (input a) (input b) (
                            by_order a.screen_layout b.screen_layout (
                              by_order a.ui_mode b.ui_mode
                                (by_order (version a) (version b) (pos 0)))))))))))))))
