-- ===== src/ResConfig/CompareLaws.antt =====
-- What compare and compareLogical of libs/androidfw/ResourceTypes.cpp decide.
use f2ut_platform_frameworks.Prelude.{
  List, [], ap, arith, if◌then◌else◌, length, not, refl, sym, true, ℕ, ◌+◌, ◌<◌, ◌==◌, ◌^◌, ◌↔◌,
  ◌∙◌, ◌∷◌, ◌≡◌,
}
use f2ut_platform_frameworks.Prelude.Int.{ltb_ℤ, negsuc, pos, ℤ}
use f2ut_platform_frameworks.Prelude.Words.{signed32, sub32}
use f2ut_platform_frameworks.ResConfig.{
  ResTableConfig, imsi, input, locale, screen_size, screen_size_dp, screen_type, version,
}
use f2ut_platform_frameworks.ResConfig.Compare.{
  by_difference, by_order, compare_configs, compare_locales, is_zero, memcmp,
}
use mathlib.Core.Path.{ap₂}

-- Every member in the range of its C type, with the four and eight bytes of script and variant.
pub record InRange (c : ResTableConfig) : Type 0 where
  pub imsi : imsi c < 2 ^ 32
  pub locale : locale c < 2 ^ 32
  pub screen_type : screen_type c < 2 ^ 32
  pub input : input c < 2 ^ 32
  pub screen_size : screen_size c < 2 ^ 32
  pub version : version c < 2 ^ 32
  pub screen_layout : c.screen_layout < 2 ^ 8
  pub ui_mode : c.ui_mode < 2 ^ 8
  pub smallest_width : c.smallest_screen_width_dp < 2 ^ 16
  pub screen_size_dp : screen_size_dp c < 2 ^ 32
  pub script : length c.locale_script ≡ 4
  pub variant : length c.locale_variant ≡ 8

by_difference-zero :
    (x y : ℕ) (rest : ℤ)
    → x < 2 ^ 32
    → y < 2 ^ 32
    → (by_difference x y rest ≡ pos 0) ↔ ((x ≡ y) × (rest ≡ pos 0))
unfolding by_difference sub32
by_difference-zero x y rest hx hy = (λ h. (ground arith, ground arith), λ h. ground arith)

by_order-zero : (x y : ℕ) (rest : ℤ) → (by_order x y rest ≡ pos 0) ↔ ((x ≡ y) × (rest ≡ pos 0))
unfolding by_order
by_order-zero x y rest = (λ h. (ground arith, ground arith), λ h. ground arith)

memcmp-zero : (xs ys : List ℕ) → length xs ≡ length ys → (memcmp xs ys ≡ pos 0) ↔ (xs ≡ ys)
unfolding memcmp
memcmp-zero [] [] h = (λ _. refl, λ _. refl)
memcmp-zero [] (y ∷ ys) h = absurd (omega arith)
memcmp-zero (x ∷ xs) [] h = absurd (omega arith)
memcmp-zero (x ∷ xs) (y ∷ ys) h =
    let (to, from) = memcmp-zero xs ys (omega arith) in
    let (split, join) = by_order-zero x y (memcmp xs ys) in
    (λ e. ap₂ ◌∷◌ (split e).0 (to (split e).1), λ e. join (ap first_of e, from (ap rest_of e)))
  where
    first_of : List ℕ → ℕ
    first_of [] = x
    first_of (z ∷ zs) = z

    rest_of : List ℕ → List ℕ
    rest_of [] = xs
    rest_of (z ∷ zs) = zs

-- A result that is passed on unless it is zero.
unless-zero :
    (z rest : ℤ) → ((if is_zero z then rest else z) ≡ pos 0) ↔ ((z ≡ pos 0) × (rest ≡ pos 0))
unless-zero (pos n) rest = (λ h. (ground arith, ground arith), λ h. ground arith)
unless-zero (negsuc n) rest = (λ h. (ground arith, ground arith), λ h. ground arith)

unless_not-zero :
    (z rest : ℤ) → ((if not (is_zero z) then z else rest) ≡ pos 0) ↔ ((z ≡ pos 0) × (rest ≡ pos 0))
unless_not-zero (pos n) rest = (λ h. (ground arith, ground arith), λ h. ground arith)
unless_not-zero (negsuc n) rest = (λ h. (ground arith, ground arith), λ h. ground arith)

pub SameLocale : ResTableConfig → ResTableConfig → Type 0
SameLocale a b =
    (locale a ≡ locale b)
    × ((a.locale_script ≡ b.locale_script) × ((a.locale_variant ≡ b.locale_variant)))

-- Every word that compare looks at, and the locale.
pub SameWords : ResTableConfig → ResTableConfig → Type 0
SameWords a b =
    (imsi a ≡ imsi b)
    × (SameLocale a b
        × ((screen_type a ≡ screen_type b)
            × ((input a ≡ input b)
                × ((screen_size a ≡ screen_size b)
                    × ((version a ≡ version b)
                        × ((a.screen_layout ≡ b.screen_layout)
                            × ((a.ui_mode ≡ b.ui_mode)
                                × ((a.smallest_screen_width_dp ≡ b.smallest_screen_width_dp)
                                    × ((screen_size_dp a ≡ screen_size_dp b))))))))))

chain : {P A B Q R : Type 0} → P ↔ (A × Q) → A ↔ B → Q ↔ R → P ↔ (B × R)
chain (f, g) (there, back) (to, from) =
    (λ p. (there (f p).0, to (f p).1), λ h. g (back h.0, from h.1))

same : {A : Type 0} → A ↔ A
same = (λ a. a, λ a. a)

just : {P A : Type 0} → P ↔ (A × (pos 0 ≡ pos 0)) → P ↔ A
just (f, g) = (λ p. (f p).0, λ h. g (h, refl))

-- Two locales compare as equal exactly when their words, scripts and variants are equal.
locale_word-zero :
    (x y : ℕ) (rest : ℤ)
    → x < 2 ^ 32
    → y < 2 ^ 32
    → ((if not (x == y) then signed32 (sub32 x y) else rest) ≡ pos 0) ↔ ((x ≡ y) × (rest ≡ pos 0))
unfolding sub32
locale_word-zero x y rest hx hy = (λ h. (ground arith, ground arith), λ h. ground arith)

compare_locales-zero :
    (a b : ResTableConfig) → InRange a → InRange b → (compare_locales a b ≡ pos 0) ↔ SameLocale a b
unfolding compare_locales SameLocale
compare_locales-zero a b ha hb =
    chain (locale_word-zero (locale a) (locale b) _ ha.locale hb.locale) same (
      chain (unless-zero (memcmp a.locale_script b.locale_script) _)
        (memcmp-zero _ _ (ha.script ∙ sym hb.script))
        (memcmp-zero _ _ (ha.variant ∙ sym hb.variant)))

-- compare returns 0 for two configurations, with members in the range of their types, exactly when
-- they agree in every word that it looks at and in the locale, the wrapped differences included.
pub compare_configs-zero :
    (a b : ResTableConfig) → InRange a → InRange b → (compare_configs a b ≡ pos 0) ↔ SameWords a b
unfolding compare_configs SameWords
compare_configs-zero a b ha hb = chain (by_difference-zero _ _ _ ha.imsi hb.imsi) same (
    chain (unless_not-zero (compare_locales a b) _) (compare_locales-zero a b ha hb) (
      chain (by_difference-zero _ _ _ ha.screen_type hb.screen_type) same (
        chain (by_difference-zero _ _ _ ha.input hb.input) same (
          chain (by_difference-zero _ _ _ ha.screen_size hb.screen_size) same (
            chain (by_difference-zero _ _ _ ha.version hb.version) same (
              chain (by_difference-zero _ _ _ (omega arith) (omega arith)) same (
                chain (by_difference-zero _ _ _ (omega arith) (omega arith)) same (
                  chain (by_difference-zero _ _ _ (omega arith) (omega arith)) same
                    (just (by_difference-zero _ _ _ ha.screen_size_dp hb.screen_size_dp))))))))))

-- Two network codes that differ by 2 ^ 31 come each before the other, whatever else they hold: the
-- difference that compare returns has wrapped.
pub compare_configs-both_negative :
    (a b : ResTableConfig)
    → imsi a < 2 ^ 31
    → imsi b ≡ imsi a + 2 ^ 31
    → (ltb_ℤ (compare_configs a b) (pos 0) ≡ true) × (ltb_ℤ (compare_configs b a) (pos 0) ≡ true)
unfolding compare_configs by_difference sub32
compare_configs-both_negative a b small far = (ground arith, ground arith)
