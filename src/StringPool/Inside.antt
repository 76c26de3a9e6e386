-- ===== src/StringPool/Inside.antt =====
-- What ResStringPool::stringAt and string8At (libs/androidfw/ResourceTypes.cpp) read of a pool, and
-- where the strings lie that they answer.
use f2ut_platform_frameworks.Prelude.{
  and_both, ap, ◌∙◌, Bool-cases, List, Option, Option-cases, arith, false, inl, inr, ltb, none,
  refl, some, subst, true, ℕ, ◌&&◌, ◌*◌, ◌+◌, ◌/◌, ◌<◌, ◌==◌, ◌>>=◌, ◌^◌, ◌≡◌, ◌≤◌, ◌⊎◌,
}
use f2ut_platform_frameworks.StringPool.{
  Header, Pool, Status, bad_type, is_utf8, no_error, no_init, read32, read_bytes,
}
use f2ut_platform_frameworks.StringPool.Setting.{char_size}
use f2ut_platform_frameworks.StringPool.Sound.{IsSound}
use f2ut_platform_frameworks.StringPool.Reads.{read32_inside}
use f2ut_platform_frameworks.StringPool.Strings.{
  Chars, Unicode, at_place, decode, decoded, stored, string8_at, string_at, succeeded,
}
use f2ut_platform_frameworks.StringPool.Lengths.{read_bytes_inside}
use f2ut_platform_frameworks.StringPool.Places.{
  IsPlace, IsCutShort, IsStored, ltb_below, find8-IsPlace, find16-IsStored,
}

-- The string at an index is said to begin at the last byte of UTF-8 but one, and its length to have
-- two bytes.
abbrev pub IsOverrun : Pool → ℕ → Type 0
IsOverrun p idx =
    (is_utf8 p.header ≡ true)
    × ((off : ℕ) × (read32 p.block (p.entries + idx * 4) ≡ some off) × IsCutShort p off)

-- The entry at an index, the two lengths at its offset, the string behind them, and the end of the
-- string before that of the pool.
abbrev pub IsText8 : Pool → ℕ → ℕ × ℕ × ℕ → Type 0
IsText8 p idx (start, enc_len, len) =
    (off : ℕ) × (read32 p.block (p.entries + idx * 4) ≡ some off)
    × IsPlace p off (some (start, enc_len, len))

-- The entry at an index, the length at its offset, in 16-bit characters, and the string behind it.
abbrev pub IsText16 : Pool → ℕ → ℕ × ℕ → Type 0
IsText16 p idx (start, len) =
    (off : ℕ) × (read32 p.block (p.entries + idx * 4) ≡ some off)
    × IsStored p (off / 2) (some (stored start len))

-- Characters that stand in the cache, or that libutils makes of the bytes of a string, in the number
-- that the pool says.
abbrev pub IsDecoded : Unicode → Pool → ℕ → List ℕ → ℕ × ℕ × ℕ → Type 0
IsDecoded u p idx chars (start, enc_len, len) =
    (p.cache idx ≡ some chars)
    ⊎ ((bytes : List ℕ) × (p.cache idx ≡ none)
        × (read_bytes p.block start enc_len ≡ some bytes)
        × (u.utf16_length bytes ≡ some len)
        × (u.utf16 bytes ≡ chars))

-- What stringAt answers: NULL, or the string at the index.
abbrev pub IsText : Unicode → Pool → ℕ → Option Chars → Type 0
IsText u p idx none = Unit {0}
IsText u p idx (some (stored start len)) = (is_utf8 p.header ≡ false) × IsText16 p idx (start, len)
IsText u p idx (some (decoded chars len)) =
    (is_utf8 p.header ≡ true)
    × ((start enc_len : ℕ) × IsText8 p idx (start, enc_len, len)
        × IsDecoded u p idx chars (start, enc_len, len))

abbrev pub Answers : Unicode → Pool → ℕ → Option (Pool × Option Chars) → Type 0
Answers u p idx none = ⊥
Answers u p idx (some (q, chars)) = IsText u p idx chars

-- What string8At answers: NULL, or where the string at the index begins and the first length.
abbrev pub Answers8 : Pool → ℕ → Option (Option (ℕ × ℕ)) → Type 0
Answers8 p idx none = ⊥
Answers8 p idx (some none) = Unit {0}
Answers8 p idx (some (some (start, len))) = (enc_len : ℕ) × IsText8 p idx (start, enc_len, len)

succeeded-no_error : (s : Status) → succeeded s ≡ true → s ≡ no_error
succeeded-no_error no_error e = refl
succeeded-no_error no_init e = cc
succeeded-no_error bad_type e = cc

module _ (u : Unicode) (p : Pool) (idx : ℕ) where
  decode-IsText :
      (start enc_len len : ℕ) (bytes : List ℕ)
      → is_utf8 p.header ≡ true
      → IsText8 p idx (start, enc_len, len)
      → p.cache idx ≡ none
      → read_bytes p.block start enc_len ≡ some bytes
      → IsText u p idx (decode u p idx len bytes).1
  unfolding decode
  decode-IsText start enc_len len bytes utf8 text fresh reads =
      elim (Option-cases (u.utf16_length bytes)) [
        | inl bad ↦ rw (bad, IsText, decode) tt
        | inr (n, e) ↦ elim (Bool-cases (n == len)) [
          | inr other ↦ rw (e, other, IsText, decode) tt
          | inl same ↦
              let it : n ≡ len = ground arith in
              rw (e, same, IsText, decode)
                (utf8, (start, enc_len, text, inr (bytes, fresh, reads, e ∙ ap some it, refl)))
        ]
      ]

  at_place-Answers :
      (off : ℕ) (found : Option (ℕ × ℕ × ℕ))
      → is_utf8 p.header ≡ true
      → read32 p.block (p.entries + idx * 4) ≡ some off
      → p.strings + p.string_pool_size ≤ p.block.size
      → IsPlace p off found
      → Answers u p idx (at_place u p idx found)
  unfolding at_place
  at_place-Answers off none utf8 entry fits ok = tt
  at_place-Answers off (some (start, enc_len, len)) utf8 entry fits (lengths, first, last) =
      let text : IsText8 p idx (start, enc_len, len) = (off, entry, (lengths, first, last)) in
      elim (Option-cases (p.cache idx)) [
        | inl fresh ↦
            let (bytes, reads) = read_bytes_inside p.block enc_len start (omega arith) in
            rw (fresh, reads, at_place)
              (decode-IsText start enc_len len bytes utf8 text fresh reads)
        | inr (chars, kept) ↦ rw (kept, at_place) (utf8, (start, enc_len, text, inl kept))
      ]

place-Answers8 :
    (p : Pool) (idx off : ℕ) (found : Option (ℕ × ℕ × ℕ))
    → read32 p.block (p.entries + idx * 4) ≡ some off
    → IsPlace p off found
    → Answers8 p idx (some (found >>= λ (start, enc_len, len). some (start, len)))
place-Answers8 p idx off none entry placed = tt
place-Answers8 p idx off (some (start, enc_len, len)) entry placed = (enc_len, (off, entry, placed))

stored-IsText :
    (u : Unicode) (p : Pool) (idx off : ℕ) (found : Option Chars)
    → is_utf8 p.header ≡ false
    → read32 p.block (p.entries + idx * 4) ≡ some off
    → IsStored p (off / 2) found
    → IsText u p idx found
stored-IsText u p idx off none utf16 entry held = tt
stored-IsText u p idx off (some (decoded chars len)) utf16 entry held = absurd held
stored-IsText u p idx off (some (stored start len)) utf16 entry held = (utf16, (off, entry, held))

sized8 : (h : Header) (n : ℕ) → is_utf8 h ≡ true → n * char_size h ≡ n
unfolding char_size
sized8 h n e = rw e (omega arith)

sized16 : (h : Header) (n : ℕ) → is_utf8 h ≡ false → n * char_size h ≡ n * 2
unfolding char_size
sized16 h n e = rw e refl

-- For a pool that is sound where it has no error, over a block of fewer than 2 ^ 31 bytes, as setTo
-- leaves it, and for any index: stringAt and string8At read nothing outside the block, and each
-- answers NULL or the string of the entry at that index. An UTF-8 string begins behind its two
-- lengths, which stand at the entry's offset, and its encoded length ends in front of the pool's last
-- byte at the latest; string8At answers its beginning and its first length, and stringAt what the
-- cache has for the index, or else what libutils makes of its bytes, if that has as many characters
-- as the first length says. A string of 16-bit characters begins behind its length, and lies in the
-- pool with all its characters and the one behind them. The only exception is an UTF-8 string whose
-- entry is the last byte but one and whose first length has two bytes.
pub string_at-inside :
    (u : Unicode) (p : Pool) (idx : ℕ)
    → (p.error ≡ no_error → IsSound p)
    → p.block.size < 2 ^ 31
    → (Answers u p idx (string_at u p idx) × Answers8 p idx (string8_at p idx)) ⊎ IsOverrun p idx
unfolding string_at string8_at
string_at-inside u p idx sound narrow =
    elim (Bool-cases (succeeded p.error && ltb idx p.header.string_count)) [
      | inr outside ↦ inl (rw outside tt, rw outside tt)
      | inl asked ↦
          let (fine, early) = and_both (succeeded p.error) (ltb idx p.header.string_count) asked in
          let (listed, strings, styles) = sound (succeeded-no_error p.error fine) in
          let listed_first = ltb_below idx p.header.string_count early in
          let (off, read, small) = read32_inside p.block (p.entries + idx * 4) (omega arith) in
          elim strings [
            | inl empty ↦ absurd (omega (arith, empty))
            | inr (positive, n_small, fits, ends) ↦ elim (Bool-cases (is_utf8 p.header)) [
              | inl utf8 ↦
                  let fits' =
                    subst (λ k. p.strings + k ≤ p.block.size)
                      (sized8 p.header p.string_pool_size utf8) fits in
                  elim (find8-IsPlace p positive narrow off fits' (ends utf8)) [
                    | inr cut ↦ inr (utf8, (off, read, cut))
                    | inl (found, finds, placed) ↦ inl (
                      rw (asked, read, utf8, finds)
                          (at_place-Answers u p idx off found utf8 read fits' placed),
                      rw (asked, utf8, read, finds) (place-Answers8 p idx off found read placed),
                    )
                  ]
              | inr utf16 ↦
                  let fits' =
                    subst (λ k. p.strings + k ≤ p.block.size)
                      (sized16 p.header p.string_pool_size utf16) fits in
                  let (found, finds, held) = find16-IsStored p positive narrow (off / 2) fits' in
                  inl (
                    rw (asked, read, utf16, finds)
                        (stored-IsText u p idx off found utf16 read held),
                    rw (asked, utf16) tt,
                  )
            ]
          ]
    ]
