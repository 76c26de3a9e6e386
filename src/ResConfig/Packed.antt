-- ===== src/ResConfig/Packed.antt =====
-- The packed languages and regions of ResTable_config in libs/androidfw/ResourceTypes.cpp. A char is
-- a byte.
use f2ut_platform_frameworks.Prelude.{
  Bool, Bool-cases, List, [], arith, bit_and, bit_or, false, if◌then◌else◌, inl, inr, not, refl,
  suc, true, zero, ℕ, ◌%◌, ◌&&◌, ◌*◌, ◌+◌, ◌-◌, ◌/◌, ◌<◌, ◌==◌, ◌^◌, ◌||◌, ◌∷◌, ◌≡◌, ◌≤◌, ap, sym,
  subst, and_both, ==_iff, ◌∙◌, ◌⊎◌,
}
use f2ut_platform_frameworks.ResConfig.{ResTableConfig}

-- packLanguageOrRegion: the first three chars of `in`, and the two of `out`.
unfoldable pub pack_language_or_region : ℕ → ℕ × ℕ × ℕ → ℕ × ℕ
pack_language_or_region base (in0, in1, in2) =
    let first = bit_and (in0 + 256 - base) 0x7f in
    let second = bit_and (in1 + 256 - base) 0x7f in
    let third = bit_and (in2 + 256 - base) 0x7f in
    if in2 == 0 || in2 == 45 then (in0, in1) else (
      bit_or (bit_or 0x80 (third * 2 ^ 2)) (second / 2 ^ 3) % 256,
      bit_or (second * 2 ^ 5) first % 256,
    )

-- unpackLanguageOrRegion: the length, and the four chars of `out`.
unfoldable pub unpack_language_or_region : ℕ → ℕ × ℕ → ℕ × List ℕ
unpack_language_or_region base (in0, in1) =
    let first = bit_and in1 0x1f in
    let second = bit_and in1 0xe0 / 2 ^ 5 + bit_and in0 0x03 * 2 ^ 3 in
    let third = bit_and in0 0x7c / 2 ^ 2 in
    if not (bit_and in0 0x80 == 0)
    then (3, (first + base) % 256 ∷ (second + base) % 256 ∷ (third + base) % 256 ∷ 0 ∷ [])
    else if not (in0 == 0)
    then (2, in0 ∷ in1 ∷ 0 ∷ 0 ∷ [])
    else (0, 0 ∷ 0 ∷ 0 ∷ 0 ∷ [])

-- The letter `a` and the digit `0`
abbrev pub language_base : ℕ
language_base = 97

abbrev pub region_base : ℕ
region_base = 48

unfoldable pub pack_language : ℕ × ℕ × ℕ → ResTableConfig → ResTableConfig
pack_language language c =
    let (l0, l1) = pack_language_or_region language_base language in
    record c { language0 = l0; language1 = l1 }

unfoldable pub pack_region : ℕ × ℕ × ℕ → ResTableConfig → ResTableConfig
pack_region region c =
    let (c0, c1) = pack_language_or_region region_base region in
    record c { country0 = c0; country1 = c1 }

unfoldable pub unpack_language : ResTableConfig → ℕ × List ℕ
unpack_language c = unpack_language_or_region language_base (c.language0, c.language1)

unfoldable pub unpack_region : ResTableConfig → ℕ × List ℕ
unpack_region c = unpack_language_or_region region_base (c.country0, c.country1)

-- A test of all numbers below a bound.
all_below : ℕ → (ℕ → Bool) → Bool
all_below zero f = true
all_below (suc n) f = f n && all_below n f

all_below-at : (n : ℕ) (f : ℕ → Bool) (i : ℕ) → all_below n f ≡ true → i < n → f i ≡ true
unfolding all_below
all_below-at zero f i all h = absurd (omega arith)
all_below-at (suc n) f i all h =
    let (last, rest) = and_both (f n) (all_below n f) all in
    elim (Bool-cases (i == n)) [
      | inl same ↦ let here : n ≡ i = ground arith in subst (λ k. f k ≡ true) here last
      | inr other ↦ all_below-at n f i rest (ground arith)
    ]

-- What the two bytes hold of letters of 5 bits.
high_byte : ℕ → ℕ → Bool
high_byte second third =
    let out = bit_or (bit_or 0x80 (third * 2 ^ 2)) (second / 2 ^ 3) % 256 in
    not (bit_and out 0x80 == 0)
    && (bit_and out 0x7c / 2 ^ 2 == third && bit_and out 0x03 == second / 8)

low_byte : ℕ → ℕ → Bool
low_byte second first =
    let out = bit_or (second * 2 ^ 5) first % 256 in
    bit_and out 0x1f == first && bit_and out 0xe0 / 2 ^ 5 == second % 8

seven_bits : ℕ → Bool
seven_bits i = bit_and (i + 256) 0x7f == i

high_bytes : all_below 32 (λ second. all_below 32 (high_byte second)) ≡ true
unfolding all_below high_byte
high_bytes = refl

low_bytes : all_below 32 (λ second. all_below 32 (low_byte second)) ≡ true
unfolding all_below low_byte
low_bytes = refl

seven_bits_below : all_below 32 seven_bits ≡ true
unfolding all_below seven_bits
seven_bits_below = refl

-- A code of three chars in the 32 from `base` on, or one of two that ends there or goes on with `-`.
abbrev pub IsCode : ℕ → ℕ × ℕ × ℕ → Type 0
IsCode base (in0, in1, in2) =
    ((base ≤ in0)
      × (in0 < base + 32)
      × (base ≤ in1)
      × (in1 < base + 32)
      × (base ≤ in2)
      × (in2 < base + 32))
    ⊎ ((0 < in0) × (in0 < 128) × ((in2 == 0 || in2 == 45) ≡ true))

-- The length and the chars of a code.
abbrev pub unpacked : ℕ × ℕ × ℕ → ℕ × List ℕ
unpacked (in0, in1, in2) =
    if in2 == 0 || in2 == 45 then (2, in0 ∷ in1 ∷ 0 ∷ 0 ∷ []) else (3, in0 ∷ in1 ∷ in2 ∷ 0 ∷ [])

seven_bits_of :
    (base c : ℕ)
    → base ≤ c
    → c < base + 32
    → (i : ℕ) × (c ≡ i + base) × (i < 32) × (bit_and (c + 256 - base) 0x7f ≡ i)
unfolding seven_bits
seven_bits_of base c h k =
    let i = c - base in
    let checked = all_below-at 32 seven_bits i seven_bits_below (omega arith) in
    let moved : i + 256 ≡ c + 256 - base = omega arith in
    (
      i,
      omega arith,
      omega arith,
      ap (λ x. bit_and x 0x7f) (sym moved) ∙ (==_iff (bit_and (i + 256) 0x7f) i).0 checked,
    )

low_bits : all_below 128 (λ v. bit_and v 0x80 == 0) ≡ true
unfolding all_below
low_bits = refl

high_byte_lem :
    (second third : ℕ)
    → second < 32
    → third < 32
    → (not (bit_and (bit_or (bit_or 0x80 (third * 2 ^ 2)) (second / 2 ^ 3) % 256) 0x80 == 0) ≡ true)
      × (bit_and (bit_or (bit_or 0x80 (third * 2 ^ 2)) (second / 2 ^ 3) % 256) 0x7c / 2 ^ 2 ≡ third)
      × (bit_and (bit_or (bit_or 0x80 (third * 2 ^ 2)) (second / 2 ^ 3) % 256) 0x03 ≡ second / 8)
unfolding high_byte
high_byte_lem second third h k =
    let all = all_below-at 32 (λ second. all_below 32 (high_byte second)) second high_bytes h in
    let (high, rest) = and_both _ _ (all_below-at 32 (high_byte second) third all k) in
    let (upper, lower) = and_both _ _ rest in (high, (==_iff _ _).0 upper, (==_iff _ _).0 lower)

low_byte_lem :
    (second first : ℕ)
    → second < 32
    → first < 32
    → (bit_and (bit_or (second * 2 ^ 5) first % 256) 0x1f ≡ first)
      × (bit_and (bit_or (second * 2 ^ 5) first % 256) 0xe0 / 2 ^ 5 ≡ second % 8)
unfolding low_byte
low_byte_lem second first h k =
    let all = all_below-at 32 (λ second. all_below 32 (low_byte second)) second low_bytes h in
    let (lower, upper) = and_both _ _ (all_below-at 32 (low_byte second) first all k) in
    ((==_iff _ _).0 lower, (==_iff _ _).0 upper)

unpack_language_or_region-pack_language_or_region :
    (base : ℕ) (code : ℕ × ℕ × ℕ)
    → base + 32 ≤ 256
    → 45 < base
    → IsCode base code
    → unpack_language_or_region base (pack_language_or_region base code) ≡ unpacked code
unfolding pack_language_or_region unpack_language_or_region
unpack_language_or_region-pack_language_or_region base (in0, in1, in2) room above
      (inr (set, small, short)) =
    let plain = all_below-at 128 (λ v. bit_and v 0x80 == 0) in0 low_bits small in
    let there : (in0 == 0) ≡ false = ground arith in simp (short, plain, there)
unpack_language_or_region-pack_language_or_region base (in0, in1, in2) room above
      (inl (a0, b0, a1, b1, a2, b2)) =
    let (first, e0, s0, m0) = seven_bits_of base in0 a0 b0 in
    let (second, e1, s1, m1) = seven_bits_of base in1 a1 b1 in
    let (third, e2, s2, m2) = seven_bits_of base in2 a2 b2 in
    let long : (in2 == 0 || in2 == 45) ≡ false = ground arith in
    let (high, c2, c1) = high_byte_lem second third s1 s2 in
    let (c0, c1') = low_byte_lem second first s1 s0 in
    let o0 : (first + base) % 256 ≡ in0 = omega arith in
    let o1 : (second % 8 + second / 8 * 8 + base) % 256 ≡ in1 = omega arith in
    let o2 : (third + base) % 256 ≡ in2 = omega arith in
    simp (long, m0, m1, m2) (simp (high, c0, c1, c1', c2, o0, o1, o2))

-- A language and a region that are packed, one after the other, are unpacked as they were: codes of
-- three chars from `a` or from `0` to the 31st behind it, in their full length, and codes of two
-- ASCII chars, which end there or at a `-`, in the length of 2.
pub unpack_language-pack_language :
    (c : ResTableConfig) (language region : ℕ × ℕ × ℕ)
    → IsCode language_base language
    → IsCode region_base region
    → (unpack_language (pack_region region (pack_language language c)) ≡ unpacked language)
      × (unpack_region (pack_region region (pack_language language c)) ≡ unpacked region)
unfolding pack_language pack_region unpack_language unpack_region
unpack_language-pack_language c language region l r = (
  unpack_language_or_region-pack_language_or_region language_base language (omega arith)
      (omega arith) l,
  unpack_language_or_region-pack_language_or_region region_base region (omega arith) (omega arith)
      r,
)
