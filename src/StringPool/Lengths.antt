-- ===== src/StringPool/Lengths.antt =====
-- decodeLength of libs/androidfw/ResourceTypes.cpp within a block.
use f2ut_platform_frameworks.Prelude.{
  Bool-cases, List, [], arith, inl, inr, leb, refl, some, suc, zero, ℕ, ◌*◌, ◌+◌, ◌-◌, ◌<◌, ◌^◌,
  ◌∷◌, ◌≡◌, ◌≤◌, ◌⊎◌,
}
use f2ut_platform_frameworks.StringPool.{Block, read8, read16, read_bytes}
use f2ut_platform_frameworks.StringPool.Reads.{read16_inside, read8_inside}
use f2ut_platform_frameworks.StringPool.Strings.{decode_length16, decode_length8}

-- What stands at an address as the length of a string of bytes, and where the bytes behind it begin:
-- one byte below 128, or two with the high bit of the first one set.
pub data Length8 (d : Block) (a : ℕ) : ℕ → ℕ → Type 0 where
  one_byte : (b : ℕ) → read8 d a ≡ some b → b < 128 → Length8 d a b (a + 1)
  two_bytes :
      (b low : ℕ)
      → read8 d a ≡ some b
      → 128 ≤ b
      → read8 d (a + 1) ≡ some low
      → Length8 d a ((b - 128) * 256 + low) (a + 1 + 1)

-- The same of a string of 16-bit characters.
pub data Length16 (d : Block) (a : ℕ) : ℕ → ℕ → Type 0 where
  one_word : (b : ℕ) → read16 d a ≡ some b → b < 32768 → Length16 d a b (a + 2)
  two_words :
      (b low : ℕ)
      → read16 d a ≡ some b
      → 32768 ≤ b
      → read16 d (a + 2) ≡ some low
      → Length16 d a ((b - 32768) * 65536 + low) (a + 2 + 2)

-- A length is one byte, or two if the first one is 128 or more.
pub decode_length8_inside :
    (d : Block) (a b : ℕ)
    → read8 d a ≡ some b
    → b < 256
    → (b < 128) ⊎ (a + 1 < d.size)
    → (e len : ℕ) × (decode_length8 d a ≡ some (e, len))
      × (a < e)
      × (e ≤ a + 2)
      × (len < 2 ^ 15)
      × (b < 128 → e ≡ a + 1)
      × Length8 d a len e
unfolding decode_length8
decode_length8_inside d a b e small room = elim (Bool-cases (leb 128 b)) [
  | inl long ↦
      let (low, read, low_small) = read8_inside d (a + 1) (ground arith) in
      (
        a + 1 + 1,
        (b - 128) * 256 + low,
        simp (e, long, read),
        omega arith,
        omega arith,
        omega arith,
        (λ h. ground arith),
        two_bytes b low e (ground arith) read,
      )
  | inr short ↦ (
    a + 1,
    b,
    simp (e, short),
    omega arith,
    omega arith,
    omega arith,
    (λ h. refl),
    one_byte b e (ground arith),
  )
]

pub decode_length16_inside :
    (d : Block) (a : ℕ)
    → a + 4 ≤ d.size
    → (e len : ℕ) × (decode_length16 d a ≡ some (e, len))
      × ((e ≡ a + 2) ⊎ (e ≡ a + 4))
      × (len < 2 ^ 31)
      × Length16 d a len e
unfolding decode_length16
decode_length16_inside d a room =
    let (b, e, small) = read16_inside d a (omega arith) in
    let (low, read, low_small) = read16_inside d (a + 2) (omega arith) in
    elim (Bool-cases (leb 32768 b)) [
      | inl long ↦ (
        a + 2 + 2,
        (b - 32768) * 65536 + low,
        simp (e, long, read),
        inr (omega arith),
        omega arith,
        two_words b low e (ground arith) read,
      )
      | inr short ↦ (a + 2, b, simp (e, short), inl refl, omega arith, one_word b e (ground arith))
    ]

pub read_bytes_inside :
    (d : Block) (n a : ℕ) → a + n ≤ d.size → (bytes : List ℕ) × (read_bytes d a n ≡ some bytes)
unfolding read_bytes
read_bytes_inside d zero a h = ([], refl)
read_bytes_inside d (suc n) a h =
    let (b, e, small) = read8_inside d a (omega arith) in
    let (bytes, rest) = read_bytes_inside d n (a + 1) (omega arith) in (b ∷ bytes, simp (e, rest))
