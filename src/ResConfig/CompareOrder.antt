-- ===== src/ResConfig/CompareOrder.antt =====
-- compareLogical of libs/androidfw/ResourceTypes.cpp as an order.
use f2ut_platform_frameworks.Prelude.{
  List, [], arith, if◌then◌else◌, not, refl, suc, zero, ℕ, ◌<◌, ◌==◌, ◌^◌, ◌∷◌, ◌≡◌,
}
use f2ut_platform_frameworks.Prelude.Int.{ltb_ℤ, negsuc, pos, ℤ}
use f2ut_platform_frameworks.Prelude.Words.{signed32, sub32}
use f2ut_platform_frameworks.ResConfig.{ResTableConfig, locale}
use f2ut_platform_frameworks.ResConfig.Compare.{
  by_order, compare_locales, compare_logical, is_zero, memcmp,
}

-- Zero minus a number.
abbrev pub neg : ℤ → ℤ
neg (pos zero) = pos 0
neg (pos (suc n)) = negsuc n
neg (negsuc n) = pos (suc n)

by_order-neg : (x y : ℕ) (r s : ℤ) → s ≡ neg r → by_order y x s ≡ neg (by_order x y r)
unfolding by_order
by_order-neg x y r s h = ground arith

memcmp-neg : (xs ys : List ℕ) → memcmp ys xs ≡ neg (memcmp xs ys)
unfolding memcmp
memcmp-neg [] [] = refl
memcmp-neg [] (y ∷ ys) = refl
memcmp-neg (x ∷ xs) [] = refl
memcmp-neg (x ∷ xs) (y ∷ ys) = by_order-neg x y _ _ (memcmp-neg xs ys)

unless-neg :
    (z w r s : ℤ)
    → w ≡ neg z
    → s ≡ neg r
    → (if is_zero w then s else w) ≡ neg (if is_zero z then r else z)
unless-neg (pos zero) w r s h k = ground arith
unless-neg (pos (suc n)) w r s h k = ground arith
unless-neg (negsuc n) w r s h k = ground arith

locale_word-neg :
    (x y : ℕ) (r s : ℤ)
    → x < 2 ^ 31
    → y < 2 ^ 31
    → s ≡ neg r
    → (if not (y == x) then signed32 (sub32 y x) else s)
      ≡ neg (if not (x == y) then signed32 (sub32 x y) else r)
unfolding sub32
locale_word-neg x y r s hx hy h = ground arith

sign-neg :
    (z w r s : ℤ)
    → w ≡ neg z
    → s ≡ neg r
    → (if ltb_ℤ w (pos 0) then negsuc 0 else if ltb_ℤ (pos 0) w then pos 1 else s)
      ≡ neg (if ltb_ℤ z (pos 0) then negsuc 0 else if ltb_ℤ (pos 0) z then pos 1 else r)
sign-neg (pos zero) w r s h k = ground arith
sign-neg (pos (suc n)) w r s h k = ground arith
sign-neg (negsuc n) w r s h k = ground arith

compare_locales-neg :
    (a b : ResTableConfig)
    → locale a < 2 ^ 31
    → locale b < 2 ^ 31
    → compare_locales b a ≡ neg (compare_locales a b)
unfolding compare_locales
compare_locales-neg a b ha hb = locale_word-neg (locale a) (locale b) _ _ ha hb (
    unless-neg _ _ _ _ (memcmp-neg a.locale_script b.locale_script)
      (memcmp-neg a.locale_variant b.locale_variant))

-- compareLogical is antisymmetric if the locale words are below 2 ^ 31: exchanging the two
-- configurations negates its result.
pub compare_logical-neg :
    (a b : ResTableConfig)
    → locale a < 2 ^ 31
    → locale b < 2 ^ 31
    → compare_logical b a ≡ neg (compare_logical a b)
unfolding compare_logical
compare_logical-neg a b ha hb = by_order-neg _ _ _ _ (
    by_order-neg _ _ _ _ (
      sign-neg _ _ _ _ (compare_locales-neg a b ha hb) (
        by_order-neg _ _ _ _ (
          by_order-neg _ _ _ _ (
            by_order-neg _ _ _ _ (
              by_order-neg _ _ _ _ (
                by_order-neg _ _ _ _ (
                  by_order-neg _ _ _ _ (
                    by_order-neg _ _ _ _ (
                      by_order-neg _ _ _ _ (
                        by_order-neg _ _ _ _ (
                          by_order-neg _ _ _ _ (
                            by_order-neg _ _ _ _
                              (by_order-neg _ _ _ _ (by_order-neg _ _ _ _ refl)))))))))))))))
