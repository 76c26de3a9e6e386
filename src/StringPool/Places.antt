-- ===== src/StringPool/Places.antt =====
-- Where the strings lie that ResStringPool (libs/androidfw/ResourceTypes.cpp) finds in a pool.
use f2ut_platform_frameworks.Prelude.{
  Bool, Bool-cases, Option, arith, false, if◌then◌else◌, inl, inr, leb, ltb, none, refl, some,
  subst, true, ℕ, ◌%◌, ◌&&◌, ◌*◌, ◌+◌, ◌-◌, ◌/◌, ◌<◌, ◌==◌, ◌^◌, ◌≡◌, ◌≤◌, ◌⊎◌,
}
use f2ut_platform_frameworks.Prelude.Words.{sub32}
use f2ut_platform_frameworks.StringPool.{Pool, read8}
use f2ut_platform_frameworks.StringPool.Reads.{read8_inside}
use f2ut_platform_frameworks.StringPool.Strings.{
  Chars, decode_length8, decoded, find16, find8, stored,
}
use f2ut_platform_frameworks.StringPool.Lengths.{
  Length16, Length8, decode_length8_inside, decode_length16_inside,
}

-- The two lengths stand at the offset, the string begins in the pool behind them, and its encoded
-- length ends before the pool does.
abbrev pub IsPlace : Pool → ℕ → Option (ℕ × ℕ × ℕ) → Type 0
IsPlace p off none = Unit {0}
IsPlace p off (some (start, enc_len, len)) =
    ((a : ℕ) × Length8 p.block (p.strings + off) len a × Length8 p.block a enc_len start)
    × (p.strings ≤ start)
    × (start + enc_len < p.strings + p.string_pool_size)

-- The string is said to begin at the last byte but one, and its length to have two bytes.
abbrev pub IsCutShort : Pool → ℕ → Type 0
IsCutShort p off =
    (off + 2 ≡ p.string_pool_size)
    × ((b : ℕ) × (read8 p.block (p.strings + off) ≡ some b) × (128 ≤ b))

pub ltb_below : (a b : ℕ) → ltb a b ≡ true → a < b
ltb_below a b e = ground arith

sub32_one : (n : ℕ) → 0 < n → n < 2 ^ 32 → sub32 n 1 ≡ n - 1
unfolding sub32
sub32_one n positive small = omega arith

-- The length stands at the offset, and the characters behind it, with one more, lie in the pool.
abbrev pub IsStored : Pool → ℕ → Option Chars → Type 0
IsStored p off none = Unit {0}
IsStored p off (some (decoded chars len)) = ⊥
IsStored p off (some (stored start len)) =
    Length16 p.block (p.strings + off * 2) len start
    × (p.strings ≤ start)
    × (start + len * 2 + 2 ≤ p.strings + p.string_pool_size * 2)

checked {κ} :
    {A : Type 0} (P : A → Type κ) (b : Bool) (x y : A)
    → (b ≡ true → P x)
    → P y
    → P (if b then x else y)
checked P true x y h k = h refl
checked P false x y h k = k

module _ (p : Pool) (positive : 0 < p.string_pool_size) (narrow : p.block.size < 2 ^ 31) where
  cut_or_inside :
      (off a b : ℕ)
      → off < p.string_pool_size - 1
      → a ≤ p.strings + off + 2
      → (b < 128 → a ≡ p.strings + off + 1)
      → (off + 2 == p.string_pool_size && leb 128 b) ≡ false
      → a < p.strings + p.string_pool_size
  cut_or_inside off a b near close one whole = elim (Bool-cases (leb 128 b)) [
    | inl high ↦ ground arith
    | inr low ↦ let next = one (ground arith) in omega (arith, next)
  ]

  -- The second length is read from the pool, whose last byte is 0.
  second :
      (a : ℕ)
      → p.strings + p.string_pool_size ≤ p.block.size
      → read8 p.block (p.strings + (p.string_pool_size - 1)) ≡ some 0
      → a < p.strings + p.string_pool_size
      → (start enc_len : ℕ) × (decode_length8 p.block a ≡ some (start, enc_len))
        × (a < start)
        × (start ≤ a + 2)
        × (enc_len < 2 ^ 15)
        × Length8 p.block a enc_len start
  second a fits ends inside =
      let (b, read, byte) = read8_inside p.block a (omega arith) in
      let room : (b < 128) ⊎ (a + 1 < p.block.size) = elim (Bool-cases (leb p.block.size (a + 1))) [
        | inl last ↦
            let there : p.strings + (p.string_pool_size - 1) ≡ a = ground arith in
            let ends' = subst (λ i. read8 p.block i ≡ some 0) there ends in
            let nil : b ≡ 0 = cc in inl (omega (arith, nil))
        | inr before ↦ inr (ground arith)
      ] in
      let (start, enc_len, reads, after, close, small, one, length) =
        decode_length8_inside p.block a b read byte room in
      (start, enc_len, reads, after, close, small, length)

  place :
      (start enc_len a : ℕ)
      → p.strings < a
      → a < start
      → start < 2 ^ 31 + 2
      → enc_len < 2 ^ 15
      → ltb ((start + enc_len - p.strings) % 2 ^ 32) p.string_pool_size ≡ true
      → (p.strings ≤ start) × (start + enc_len < p.strings + p.string_pool_size)
  place start enc_len a first after near small fine = (omega arith, ground arith)

  pub find8-IsPlace :
      (off : ℕ)
      → p.strings + p.string_pool_size ≤ p.block.size
      → read8 p.block (p.strings + (p.string_pool_size - 1)) ≡ some 0
      → ((found : Option (ℕ × ℕ × ℕ)) × (find8 p off ≡ some found) × IsPlace p off found)
        ⊎ IsCutShort p off
  unfolding find8
  find8-IsPlace off fits ends = elim (Bool-cases (ltb off (sub32 p.string_pool_size 1))) [
    | inr beyond ↦ inl (none, rw beyond refl, tt)
    | inl before ↦
        let near : off < p.string_pool_size - 1 = ltb_below off (p.string_pool_size - 1) (
          subst (λ k. ltb off k ≡ true) (sub32_one p.string_pool_size positive (omega arith))
            before) in
        let (b, read, byte) = read8_inside p.block (p.strings + off) (omega arith) in
        let (a, len, reads, after, close, small, one, length) =
          decode_length8_inside p.block (p.strings + off) b read byte (inr (omega arith)) in
        elim (Bool-cases (off + 2 == p.string_pool_size && leb 128 b)) [
          | inl cut ↦ inr (ground arith, (b, read, ground arith))
          | inr whole ↦
              let inside : a < p.strings + p.string_pool_size =
                cut_or_inside off a b near close one whole in
              let (start, enc_len, reads', after', close', small', length') =
                second a fits ends inside in
              inl (
                if ltb ((start + enc_len - p.strings) % 2 ^ 32) p.string_pool_size
                    then some (start, enc_len, len)
                    else none,
                simp (before, reads, reads'),
                checked (IsPlace p off)
                    (ltb ((start + enc_len - p.strings) % 2 ^ 32) p.string_pool_size) _ _
                    (λ fine.
                      let (lower, upper) =
                        place start enc_len a (omega arith) after' (omega arith) small' fine in
                      ((a, length, length'), lower, upper))
                    tt,
              )
        ]
  ]

  stored_place :
      (off e len : ℕ)
      → p.strings + p.string_pool_size * 2 ≤ p.block.size
      → off < p.string_pool_size - 1
      → (e ≡ p.strings + off * 2 + 2) ⊎ (e ≡ p.strings + off * 2 + 4)
      → len < 2 ^ 31
      → ltb (((e - p.strings) / 2 + len) % 2 ^ 32) p.string_pool_size ≡ true
      → (p.strings ≤ e) × (e + len * 2 + 2 ≤ p.strings + p.string_pool_size * 2)
  stored_place off e len fits near (inl at) small fine =
      let half : (e - p.strings) / 2 ≡ off + 1 = omega (arith, at) in
      let below = ltb_below _ _ fine in (omega arith, omega (arith, half, below))
  stored_place off e len fits near (inr at) small fine =
      let half : (e - p.strings) / 2 ≡ off + 2 = omega (arith, at) in
      let below = ltb_below _ _ fine in (omega arith, omega (arith, half, below))

  pub find16-IsStored :
      (off : ℕ)
      → p.strings + p.string_pool_size * 2 ≤ p.block.size
      → (found : Option Chars) × (find16 p off ≡ some found) × IsStored p off found
  unfolding find16
  find16-IsStored off fits = elim (Bool-cases (ltb off (sub32 p.string_pool_size 1))) [
    | inr beyond ↦ (none, rw beyond refl, tt)
    | inl before ↦
        let near : off < p.string_pool_size - 1 = ltb_below off (p.string_pool_size - 1) (
          subst (λ k. ltb off k ≡ true) (sub32_one p.string_pool_size positive (omega arith))
            before) in
        let (e, len, reads, place, small, length) =
          decode_length16_inside p.block (p.strings + off * 2) (omega arith) in
        (
          if ltb (((e - p.strings) / 2 + len) % 2 ^ 32) p.string_pool_size
              then some (stored e len)
              else none,
          simp (before, reads),
          checked (IsStored p off) (ltb (((e - p.strings) / 2 + len) % 2 ^ 32) p.string_pool_size) _
              _
              (λ fine.
                let (lower, upper) = stored_place off e len fits near place small fine in
                (length, lower, upper))
              tt,
        )
  ]
