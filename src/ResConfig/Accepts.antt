-- ===== src/ResConfig/Accepts.antt =====
-- What ResTable_config::match of libs/androidfw/ResourceTypes.cpp accepts, field by field.
use f2ut_platform_frameworks.Prelude.{
  Bool, Bool-cases, ap, arith, bit_and, false, if◌then◌else◌, inl, inr, nonzero, refl, true, ℕ,
  ◌&&◌, ◌↔◌, ◌∙◌, ◌≡◌, ◌≤◌, ◌⊎◌,
}
use f2ut_platform_frameworks.ResConfig.{
  AConfiguration, ResTableConfig, keys_hidden, layout_dir, nav_hidden, screen_config, screen_long,
  screen_size_bits, ui_mode_night, ui_mode_type,
}
use f2ut_platform_frameworks.ResConfig.Match.{
  conflicts, exceeds, match_imsi, match_input, match_locale, match_screen_config, match_screen_size,
  match_screen_size_dp, match_screen_type, match_version, matches,
}

-- A configuration leaves the value open, or has the device's.
abbrev pub Same : ℕ → ℕ → Type 0
Same x y = (x ≡ 0) ⊎ (x ≡ y)

-- A configuration leaves the value open, or asks for no more than the device's.
abbrev pub AtMost : ℕ → ℕ → Type 0
AtMost x y = (x ≡ 0) ⊎ (x ≤ y)

pub record Accepts (k : AConfiguration) (c s : ResTableConfig) : Type 0 where
  pub mcc : Same c.mcc s.mcc
  pub mnc : Same c.mnc s.mnc
  pub language : (c.language0 ≡ 0) ⊎ ((c.language0 ≡ s.language0) × (c.language1 ≡ s.language1))
  pub country : (c.country0 ≡ 0) ⊎ ((c.country0 ≡ s.country0) × (c.country1 ≡ s.country1))
  pub layout_dir : Same (layout_dir c) (layout_dir s)
  pub screen_size : AtMost (screen_size_bits c) (screen_size_bits s)
  pub screen_long : Same (screen_long c) (screen_long s)
  pub ui_mode_type : Same (ui_mode_type c) (ui_mode_type s)
  pub ui_mode_night : Same (ui_mode_night c) (ui_mode_night s)
  pub smallest_width : AtMost c.smallest_screen_width_dp s.smallest_screen_width_dp
  pub width_dp : AtMost c.screen_width_dp s.screen_width_dp
  pub height_dp : AtMost c.screen_height_dp s.screen_height_dp
  pub orientation : Same c.orientation s.orientation
  pub touchscreen : Same c.touchscreen s.touchscreen
  pub keys_hidden :
      Same (keys_hidden c) (keys_hidden s)
      ⊎ ((keys_hidden c ≡ k.keyshidden_no) × (keys_hidden s ≡ k.keyshidden_soft))
  pub nav_hidden : Same (nav_hidden c) (nav_hidden s)
  pub keyboard : Same c.keyboard s.keyboard
  pub navigation : Same c.navigation s.navigation
  pub width : AtMost c.screen_width s.screen_width
  pub height : AtMost c.screen_height s.screen_height
  pub sdk_version : AtMost c.sdk_version s.sdk_version
  pub minor_version : Same c.minor_version s.minor_version

zero-bit_and : (x mask : ℕ) → x ≡ 0 → bit_and 0 mask ≡ 0 → bit_and x mask ≡ 0
zero-bit_and x mask h e = ap (λ y. bit_and y mask) h ∙ e

conflicts_iff : (x y : ℕ) → (conflicts x y ≡ false) ↔ Same x y
conflicts_iff x y = ground arith

exceeds_iff : (x y : ℕ) → (exceeds x y ≡ false) ↔ AtMost x y
exceeds_iff x y = ground arith

conjuncts :
    (a b c d e f g h : Bool)
    → (a && (b && (c && (d && (e && (f && (g && h))))))) ≡ true
    → (a ≡ true)
      × (b ≡ true)
      × (c ≡ true)
      × (d ≡ true)
      × (e ≡ true)
      × (f ≡ true)
      × (g ≡ true)
      × (h ≡ true)
conjuncts a b c d e f g h t = ground arith

six_tests :
    (a b c d e f : Bool)
    → ((if a
          then false
          else if b
          then false
          else if c
          then false
          else if d
          then false
          else if e
          then false
          else if f
          then false
          else true)
        ≡ true)
      ↔ ((a ≡ false) × (b ≡ false) × (c ≡ false) × (d ≡ false) × (e ≡ false) × (f ≡ false))
six_tests a b c d e f = ground arith

module _ (k : AConfiguration) (c s : ResTableConfig) where
  match_imsi_lem : (match_imsi c s ≡ true) ↔ (Same c.mcc s.mcc × Same c.mnc s.mnc)
  unfolding match_imsi
  match_imsi_lem = ground arith

  match_locale_lem : (match_locale c s ≡ true) ↔ (
      ((c.language0 ≡ 0) ⊎ ((c.language0 ≡ s.language0) × (c.language1 ≡ s.language1)))
      × ((c.country0 ≡ 0) ⊎ ((c.country0 ≡ s.country0) × (c.country1 ≡ s.country1))))
  unfolding match_locale
  match_locale_lem = ground arith

  -- The guard of a union only skips tests that pass.
  match_screen_config_lem : (match_screen_config c s ≡ true) ↔ (
      Same (layout_dir c) (layout_dir s)
      × AtMost (screen_size_bits c) (screen_size_bits s)
      × Same (screen_long c) (screen_long s)
      × Same (ui_mode_type c) (ui_mode_type s)
      × Same (ui_mode_night c) (ui_mode_night s)
      × AtMost c.smallest_screen_width_dp s.smallest_screen_width_dp)
  unfolding match_screen_config
  match_screen_config_lem =
      let tests =
        six_tests (conflicts (layout_dir c) (layout_dir s))
          (exceeds (screen_size_bits c) (screen_size_bits s))
          (conflicts (screen_long c) (screen_long s)) (conflicts (ui_mode_type c) (ui_mode_type s))
          (conflicts (ui_mode_night c) (ui_mode_night s))
          (exceeds c.smallest_screen_width_dp s.smallest_screen_width_dp) in
      elim (Bool-cases (nonzero (screen_config c))) [
        | inl g ↦ rw g (
          (λ h.
              let t = tests.0 h in
              (
                (conflicts_iff _ _).0 t.0,
                (exceeds_iff _ _).0 t.1,
                (conflicts_iff _ _).0 t.2,
                (conflicts_iff _ _).0 t.3,
                (conflicts_iff _ _).0 t.4,
                (exceeds_iff _ _).0 t.5,
              )),
          (λ h. tests.1 (
            (conflicts_iff _ _).1 h.0,
            (exceeds_iff _ _).1 h.1,
            (conflicts_iff _ _).1 h.2,
            (conflicts_iff _ _).1 h.3,
            (conflicts_iff _ _).1 h.4,
            (exceeds_iff _ _).1 h.5,
          )),
        )
        | inr g ↦
            let layout : c.screen_layout ≡ 0 = ground arith in
            let mode : c.ui_mode ≡ 0 = ground arith in
            let width : c.smallest_screen_width_dp ≡ 0 = ground arith in
            rw g (
              (λ _. (
                inl (zero-bit_and _ _ layout refl),
                inl (zero-bit_and _ _ layout refl),
                inl (zero-bit_and _ _ layout refl),
                inl (zero-bit_and _ _ mode refl),
                inl (zero-bit_and _ _ mode refl),
                inl width,
              )),
              (λ _. refl),
            )
      ]

  match_screen_size_dp_lem :
      (match_screen_size_dp c s ≡ true)
      ↔ (AtMost c.screen_width_dp s.screen_width_dp × AtMost c.screen_height_dp s.screen_height_dp)
  unfolding match_screen_size_dp
  match_screen_size_dp_lem = ground arith

  match_screen_type_lem :
      (match_screen_type c s ≡ true)
      ↔ (Same c.orientation s.orientation × Same c.touchscreen s.touchscreen)
  unfolding match_screen_type
  match_screen_type_lem = ground arith

  match_input_lem : (match_input k c s ≡ true) ↔ (
      (Same (keys_hidden c) (keys_hidden s)
        ⊎ ((keys_hidden c ≡ k.keyshidden_no) × (keys_hidden s ≡ k.keyshidden_soft)))
      × Same (nav_hidden c) (nav_hidden s)
      × Same c.keyboard s.keyboard
      × Same c.navigation s.navigation)
  unfolding match_input
  match_input_lem =
      let none_set =
        λ (m : ℕ) (e : bit_and 0 m ≡ 0) (h : c.input_flags ≡ 0). zero-bit_and c.input_flags m h e in
      ground (arith, none_set 0x0003 refl, none_set 0x000c refl)

  match_screen_size_lem :
      (match_screen_size c s ≡ true)
      ↔ (AtMost c.screen_width s.screen_width × AtMost c.screen_height s.screen_height)
  unfolding match_screen_size
  match_screen_size_lem = ground arith

  match_version_lem :
      (match_version c s ≡ true)
      ↔ (AtMost c.sdk_version s.sdk_version × Same c.minor_version s.minor_version)
  unfolding match_version
  match_version_lem = ground arith

  -- A configuration matches a device exactly if each of its fields but the density, the script and
  -- the variant is left at 0 or agrees with the device: equal for most fields, at most the device's
  -- for sizes and the SDK version, and with KEYSHIDDEN_NO also allowed for a soft keyboard. Density,
  -- script and variant do not matter, and the unions that guard the tests change nothing.
  pub matches_iff : (matches k c s ≡ true) ↔ Accepts k c s
  unfolding matches
  matches_iff = (
    λ h.
        let t = conjuncts _ _ _ _ _ _ _ _ h in
        let (mcc, mnc) = match_imsi_lem.0 t.0 in
        let (language, country) = match_locale_lem.0 t.1 in
        let config = match_screen_config_lem.0 t.2 in
        let (width_dp, height_dp) = match_screen_size_dp_lem.0 t.3 in
        let (orientation, touchscreen) = match_screen_type_lem.0 t.4 in
        let (keys, nav, keyboard, navigation) = match_input_lem.0 t.5 in
        let (width, height) = match_screen_size_lem.0 t.6 in
        let (sdk, minor) = match_version_lem.0 t.7 in
        record {
          mcc = mcc;
          mnc = mnc;
          language = language;
          country = country;
          layout_dir = config.0;
          screen_size = config.1;
          screen_long = config.2;
          ui_mode_type = config.3;
          ui_mode_night = config.4;
          smallest_width = config.5;
          width_dp = width_dp;
          height_dp = height_dp;
          orientation = orientation;
          touchscreen = touchscreen;
          keys_hidden = keys;
          nav_hidden = nav;
          keyboard = keyboard;
          navigation = navigation;
          width = width;
          height = height;
          sdk_version = sdk;
          minor_version = minor;
        },
    λ a.
        let t0 = match_imsi_lem.1 (a.mcc, a.mnc) in
        let t1 = match_locale_lem.1 (a.language, a.country) in
        let t2 = match_screen_config_lem.1 (
          a.layout_dir, a.screen_size, a.screen_long, a.ui_mode_type, a.ui_mode_night,
          a.smallest_width,
        ) in
        let t3 = match_screen_size_dp_lem.1 (a.width_dp, a.height_dp) in
        let t4 = match_screen_type_lem.1 (a.orientation, a.touchscreen) in
        let t5 = match_input_lem.1 (a.keys_hidden, a.nav_hidden, a.keyboard, a.navigation) in
        let t6 = match_screen_size_lem.1 (a.width, a.height) in
        let t7 = match_version_lem.1 (a.sdk_version, a.minor_version) in
        rw (t0, t1, t2, t3, t4, t5, t6, t7),
  )
