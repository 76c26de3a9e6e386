-- ===== src/ResConfig/Order.antt =====
-- What isMoreSpecificThan of libs/androidfw/ResourceTypes.cpp means: an order by the fields that are set.
use f2ut_platform_frameworks.Prelude.{
  Bool, Bool-cases, List, [], ap, arith, false, if◌then◌else◌, inl, inr, ltb, nonzero, refl, sym,
  true, ℕ, ◌==◌, ◌||◌, ◌∙◌, ◌∷◌, ◌≡◌,
}
use f2ut_platform_frameworks.Prelude.Int.{ltb_ℤ, pos, sub_ℕ, ℤ}
use f2ut_platform_frameworks.ResConfig.{
  ResTableConfig, input, keys_hidden, layout_dir, locale, nav_hidden, screen_long, screen_size_bits,
  ui_mode_night, ui_mode_type,
}
use f2ut_platform_frameworks.ResConfig.Specific.{
  is_locale_more_specific_than, is_more_specific_than, locale_score, prefer, prefer_sign,
  specific_imsi, specific_input, specific_layout, specific_layout_dir, specific_locale,
  specific_size, specific_size_dp, specific_smallest_width, specific_ui_mode, specific_version,
}

-- 1 for a value that is set.
abbrev pub flag : ℕ → ℕ
flag x = if x == 0 then 0 else 1

-- The larger of two numbers decides.
abbrev pub rank : ℕ → ℕ → Bool → Bool
rank x y rest = if ltb y x then true else if ltb x y then false else rest

-- The first position that differs decides.
unfoldable pub lex_gt : List ℕ → List ℕ → Bool
lex_gt (x ∷ xs) (y ∷ ys) = rank x y (lex_gt xs ys)
lex_gt _ _ = false

-- Which fields are set, the most important first; script and variant count 1 and 2, and only in a
-- configuration with a locale.
abbrev pub specificity : ResTableConfig → List ℕ
specificity c =
    flag c.mcc
    ∷ flag c.mnc
    ∷ flag c.language0
    ∷ flag c.country0
    ∷ (if locale c == 0 then 0 else locale_score c)
    ∷ flag (layout_dir c)
    ∷ flag c.smallest_screen_width_dp
    ∷ flag c.screen_width_dp
    ∷ flag c.screen_height_dp
    ∷ flag (screen_size_bits c)
    ∷ flag (screen_long c)
    ∷ flag c.orientation
    ∷ flag (ui_mode_type c)
    ∷ flag (ui_mode_night c)
    ∷ flag c.touchscreen
    ∷ flag (keys_hidden c)
    ∷ flag (nav_hidden c)
    ∷ flag c.keyboard
    ∷ flag c.navigation
    ∷ flag c.screen_width
    ∷ flag c.screen_height
    ∷ flag c.sdk_version
    ∷ flag c.minor_version
    ∷ []

-- The score of script and variant, in a configuration with a locale.
abbrev score_of : ResTableConfig → ℕ
score_of c = if locale c == 0 then 0 else locale_score c

-- A language or country with no first letter has no second one.
pub record LocaleForm (c : ResTableConfig) : Type 0 where
  pub language : c.language0 ≡ 0 → c.language1 ≡ 0
  pub country : c.country0 ≡ 0 → c.country1 ≡ 0

module _ (a b : ResTableConfig) (rest : Bool) where
  specific_imsi_lem : specific_imsi a b rest ≡ prefer a.mcc b.mcc (prefer a.mnc b.mnc rest)
  unfolding specific_imsi prefer
  specific_imsi_lem = ground arith

  specific_layout_dir_lem : specific_layout_dir a b rest ≡ prefer (layout_dir a) (layout_dir b) rest
  unfolding specific_layout_dir prefer
  specific_layout_dir_lem = ground arith

  -- How isMoreSpecificThan reads a difference.
  abbrev by_sign : ℤ → Bool
  by_sign diff = if ltb_ℤ diff (pos 0) then false else if ltb_ℤ (pos 0) diff then true else rest

  by_sign-sub_ℕ : (m n : ℕ) → by_sign (sub_ℕ m n) ≡ rank m n rest
  by_sign-sub_ℕ m n = ground arith

  by_sign-prefer : (x y : ℕ) (d : ℤ) → by_sign (prefer_sign x y d) ≡ prefer x y (by_sign d)
  unfolding prefer_sign prefer
  by_sign-prefer x y d = ground arith

prefer-rank : (x y : ℕ) (rest : Bool) → prefer x y rest ≡ rank (flag x) (flag y) rest
unfolding prefer
prefer-rank x y rest = ground arith

module _ (a b : ResTableConfig) (rest : Bool) where
  locale_preferences :
      (nonzero (locale a) || nonzero (locale b)) ≡ true
      → by_sign a b rest (is_locale_more_specific_than a b)
        ≡ prefer a.language0 b.language0
            (prefer a.country0 b.country0 (rank (locale_score a) (locale_score b) rest))
  unfolding is_locale_more_specific_than
  locale_preferences h = rw h (
      by_sign-prefer a b rest a.language0 b.language0 _
      ∙ ap (prefer a.language0 b.language0) (
          by_sign-prefer a b rest a.country0 b.country0 _
          ∙ ap (prefer a.country0 b.country0)
              (by_sign-sub_ℕ a b rest (locale_score a) (locale_score b))))

  some_locale :
      LocaleForm a
      → LocaleForm b
      → (nonzero (locale a) || nonzero (locale b)) ≡ true
      → prefer a.language0 b.language0
          (prefer a.country0 b.country0 (rank (locale_score a) (locale_score b) rest))
        ≡ prefer a.language0 b.language0
            (prefer a.country0 b.country0 (rank (score_of a) (score_of b) rest))
  unfolding prefer
  some_locale fa fb h = ground (arith, fa.language, fa.country, fb.language, fb.country)

  no_locale :
      (nonzero (locale a) || nonzero (locale b)) ≡ false
      → rest
        ≡ prefer a.language0 b.language0
            (prefer a.country0 b.country0 (rank (score_of a) (score_of b) rest))
  unfolding prefer
  no_locale h = ground arith

  specific_locale_lem :
      LocaleForm a
      → LocaleForm b
      → specific_locale a b rest
        ≡ prefer a.language0 b.language0
            (prefer a.country0 b.country0 (rank (score_of a) (score_of b) rest))
  unfolding specific_locale prefer
  specific_locale_lem fa fb = elim (Bool-cases (nonzero (locale a) || nonzero (locale b))) [
    | inl h ↦ rw h (locale_preferences h ∙ some_locale fa fb h)
    | inr h ↦ rw h (no_locale h)
  ]

  specific_smallest_width_lem :
      specific_smallest_width a b rest
      ≡ prefer a.smallest_screen_width_dp b.smallest_screen_width_dp rest
  unfolding specific_smallest_width prefer
  specific_smallest_width_lem = ground arith

  specific_size_dp_lem :
      specific_size_dp a b rest
      ≡ prefer a.screen_width_dp b.screen_width_dp
          (prefer a.screen_height_dp b.screen_height_dp rest)
  unfolding specific_size_dp prefer
  specific_size_dp_lem = ground arith

  specific_layout_lem :
      specific_layout a b rest
      ≡ prefer
          (screen_size_bits a)
          (screen_size_bits b)
          (prefer (screen_long a) (screen_long b) rest)
  unfolding specific_layout prefer
  specific_layout_lem = ground arith

  specific_ui_mode_lem :
      specific_ui_mode a b rest
      ≡ prefer (ui_mode_type a) (ui_mode_type b) (prefer (ui_mode_night a) (ui_mode_night b) rest)
  unfolding specific_ui_mode prefer
  specific_ui_mode_lem = ground arith

  specific_size_lem :
      specific_size a b rest
      ≡ prefer a.screen_width b.screen_width (prefer a.screen_height b.screen_height rest)
  unfolding specific_size prefer
  specific_size_lem = ground arith

  specific_version_lem :
      specific_version a b rest
      ≡ prefer a.sdk_version b.sdk_version (prefer a.minor_version b.minor_version rest)
  unfolding specific_version prefer
  specific_version_lem = ground arith

  -- With no input bits set on either side no test of the stage can decide.
  specific_input_lem :
      specific_input a b rest
      ≡ prefer (keys_hidden a) (keys_hidden b) (
          prefer
            (nav_hidden a)
            (nav_hidden b)
            (prefer a.keyboard b.keyboard (prefer a.navigation b.navigation rest)))
  unfolding specific_input prefer
  specific_input_lem = elim (Bool-cases (nonzero (input a) || nonzero (input b))) [
    | inl h ↦ rw h
    | inr h ↦ ground arith
  ]

-- For configurations whose locales are well formed, `is_more_specific_than` is the lexicographic
-- order of what is set: the first field, by importance, that one sets and the other leaves at 0
-- decides, the score of script and variant standing behind the country.
pub is_more_specific_than-lex_gt :
    (a b : ResTableConfig)
    → LocaleForm a
    → LocaleForm b
    → is_more_specific_than a b ≡ lex_gt (specificity a) (specificity b)
unfolding is_more_specific_than lex_gt
is_more_specific_than-lex_gt a b fa fb = simp (
  specific_imsi_lem, specific_locale_lem, fa, fb, specific_layout_dir_lem,
  specific_smallest_width_lem, specific_size_dp_lem, specific_layout_lem, specific_ui_mode_lem,
  specific_input_lem, specific_size_lem, specific_version_lem, prefer-rank,
)

lex_gt_irrefl : (xs : List ℕ) → lex_gt xs xs ≡ false
unfolding lex_gt
lex_gt_irrefl [] = refl
lex_gt_irrefl (x ∷ xs) = ground (arith, lex_gt_irrefl xs)

lex_gt_trans : (xs ys zs : List ℕ) → lex_gt xs ys ≡ true → lex_gt ys zs ≡ true → lex_gt xs zs ≡ true
unfolding lex_gt
lex_gt_trans (x ∷ xs) (y ∷ ys) (z ∷ zs) h k = ground (arith, lex_gt_trans xs ys zs)
lex_gt_trans [] ys zs h k = cc
lex_gt_trans (x ∷ xs) [] zs h k = cc
lex_gt_trans (x ∷ xs) (y ∷ ys) [] h k = cc

-- Among configurations whose locales are well formed, isMoreSpecificThan is irreflexive and
-- transitive.
pub is_more_specific_than-order :
    (a b c : ResTableConfig)
    → LocaleForm a
    → LocaleForm b
    → LocaleForm c
    → (is_more_specific_than a a ≡ false)
      × (is_more_specific_than a b ≡ true
          → is_more_specific_than b c ≡ true
          → is_more_specific_than a c ≡ true)
is_more_specific_than-order a b c fa fb fc = (
  is_more_specific_than-lex_gt a a fa fa ∙ lex_gt_irrefl (specificity a),
  λ h k.
      is_more_specific_than-lex_gt a c fa fc
      ∙ lex_gt_trans (specificity a) (specificity b) (specificity c)
          (sym (is_more_specific_than-lex_gt a b fa fb) ∙ h)
          (sym (is_more_specific_than-lex_gt b c fb fc) ∙ k),
)
