-- ===== src/StringPool/Sound.antt =====
-- What ResStringPool::setTo (libs/androidfw/ResourceTypes.cpp) makes sure of.
use f2ut_platform_frameworks.Prelude.{
  Bool, Bool-cases, Option, arith, false, if◌then◌else◌, inl, inr, leb, ltb, none, not, refl, some,
  subst, true, ℕ, ◌%◌, ◌*◌, ◌+◌, ◌-◌, ◌/◌, ◌<◌, ◌==◌, ◌^◌, ◌||◌, ◌≡◌, ◌≤◌, ◌⊎◌, ap, ◌∙◌,
}
use f2ut_platform_frameworks.Prelude.Words.{sub64}
use f2ut_platform_frameworks.StringPool.{
  Block, Header, Pool, bad_type, is_utf8, no_error, read8, read_header,
}
use f2ut_platform_frameworks.StringPool.Setting.{
  above_int, char_size, check_pool, refuse, set_pool_size, set_strings, set_styles, set_to,
  styles_end, uninit, unterminated,
}
use f2ut_platform_frameworks.StringPool.Reads.{
  read8_inside, IsWords, read_header-IsWords, styles_end_reads,
}

-- The strings lie in the block, and the last of UTF-8 ends with 0.
abbrev pub StringsInside : Pool → Type 0
StringsInside p =
    (p.header.string_count ≡ 0)
    ⊎ ((0 < p.string_pool_size)
        × (p.string_pool_size < 2 ^ 32)
        × (p.strings + p.string_pool_size * char_size p.header ≤ p.block.size)
        × (is_utf8 p.header ≡ true → read8 p.block (p.strings + (p.string_pool_size - 1)) ≡ some 0))

-- The styles lie in the block and end with END.
abbrev pub StylesInside : Pool → Type 0
StylesInside p =
    (p.header.style_count ≡ 0)
    ⊎ ((p.styles + p.style_pool_size * 4 ≤ p.block.size)
        × (styles_end p.block (p.styles + p.style_pool_size * 4 - 12) ≡ some true))

-- What a pool without an error keeps to.
abbrev pub IsSound : Pool → Type 0
IsSound p =
    (p.entries + p.header.string_count * 4 ≤ p.block.size) × StringsInside p × StylesInside p

-- All that was read lay in the block, and a pool without an error is sound.
abbrev pub IsSafe : Option Pool → Type 0
IsSafe none = ⊥
IsSafe (some p) = p.error ≡ no_error → IsSound p

refused {ℓ} : {A : Type ℓ} → bad_type ≡ no_error → A
refused e = cc

check_or :
    (b : Bool) (q : Pool) (x : Option Pool)
    → (b ≡ false → IsSafe x)
    → IsSafe (if b then refuse q else x)
unfolding refuse
check_or true q x safe = refused
check_or false q x safe = safe refl

negated : (b : Bool) → not b ≡ false → b ≡ true
negated true e = refl
negated false e = cc

not_leb : (a b : ℕ) → leb a b ≡ false → b < a
not_leb a b e = ground arith

sub64_plain : (a b : ℕ) → b ≤ a → a < 2 ^ 64 → sub64 a b ≡ a - b
unfolding sub64
sub64_plain a b h small = omega arith

char_size-quotient :
    (h : Header) (m : ℕ) → (m / char_size h * char_size h ≤ m) × (m / char_size h ≤ m)
unfolding char_size
char_size-quotient h m = elim (Bool-cases (is_utf8 h)) [
  | inl utf8 ↦ rw utf8 (omega arith, omega arith)
  | inr utf16 ↦ rw utf16 (omega arith, omega arith)
]

module _ (p : Pool) (long : 28 ≤ p.header.size) (short : p.header.size ≤ p.block.size)
    (words : IsWords p.header) (narrow : p.block.size < 2 ^ 31) where
  set_styles-IsSafe :
      p.entries + p.header.string_count * 4 ≤ p.block.size → StringsInside p → IsSafe (set_styles p)
  unfolding set_styles
  set_styles-IsSafe listed inside = elim (Bool-cases (p.header.style_count == 0)) [
    | inl unstyled ↦ rw unstyled (λ e. (listed, inside, inl (ground arith)))
    | inr styled ↦
        let h = p.header in
        let n = (h.size - h.styles_start) / 4 in
        rw styled (
          check_or (above_int (p.entries + h.string_count * 4) p.block.size) _ _ λ near.
            check_or (leb h.size h.styles_start) _ _ λ before.
              let below : h.styles_start < h.size = ground arith in
              let last : sub64 (h.styles_start + n * 4) 12 ≡ h.styles_start + n * 4 - 12 =
                sub64_plain (h.styles_start + n * 4) 12 (omega (arith, below))
                  (omega (arith, words)) in
              let (ended, reads) =
                styles_end_reads p.block (h.styles_start + n * 4 - 12) (omega arith) in
              rw (last, reads)
                (check_or (not ended) _ _ λ fine.
                  λ e. (listed, inside, inr (omega arith, reads ∙ ap some (negated ended fine)))))
  ]

  unterminated_reads :
      (n : ℕ)
      → 0 < n
      → p.header.strings_start + n * char_size p.header ≤ p.block.size
      → (bad : Bool) × (unterminated p.block p.header n ≡ some bad)
        × (bad ≡ false
            → is_utf8 p.header ≡ true
            → read8 p.block (p.header.strings_start + (n - 1)) ≡ some 0)
  unfolding unterminated char_size
  unterminated_reads n positive fits = elim (Bool-cases (is_utf8 p.header)) [
    | inl utf8 ↦
        let inside : p.header.strings_start + n * 1 ≤ p.block.size =
          subst (λ k. p.header.strings_start + n * (if k then 1 else 2) ≤ p.block.size) utf8 fits in
        let (c, read, small) =
          read8_inside p.block (p.header.strings_start + (n - 1)) (omega (arith, inside)) in
        (not (c == 0), simp (utf8, read), λ good yes. read ∙ ap some (ground arith))
    | inr utf16 ↦ elim (Bool-cases (p.header.flags == 0)) [
      | inl unset ↦ (false, simp (utf16, unset), λ good yes. cc)
      | inr flagged ↦ (false, simp (utf16, flagged), λ good yes. cc)
    ]
  ]

  check_pool-IsSafe :
      (n : ℕ) (next : Pool → Option Pool)
      → n < 2 ^ 32
      → p.header.strings_start + n * char_size p.header ≤ p.block.size
      → (StringsInside (record p { strings = p.header.strings_start; string_pool_size = n })
          → IsSafe (next (record p { strings = p.header.strings_start; string_pool_size = n })))
      → IsSafe (check_pool p n next)
  unfolding check_pool
  check_pool-IsSafe n next small fits later = check_or (n == 0) _ _ λ more.
      let (bad, reads, ends) = unterminated_reads n (ground arith) fits in
      rw reads (check_or bad _ _ λ good. later (inr (ground arith, small, fits, ends good)))

  set_pool_size-IsSafe :
      (next : Pool → Option Pool)
      → p.size ≡ p.header.size
      → leb (sub64 p.size 2) p.header.strings_start ≡ false
      → ((s n : ℕ)
          → StringsInside (record p { strings = s; string_pool_size = n })
          → IsSafe (next (record p { strings = s; string_pool_size = n })))
      → IsSafe (set_pool_size p next)
  unfolding set_pool_size
  set_pool_size-IsSafe next sized starts later =
      let h = p.header in
      let (c, a, b) = words in
      let two : sub64 p.size 2 ≡ h.size - 2 =
        ap (λ k. sub64 k 2) sized ∙ sub64_plain h.size 2 (omega arith) (omega arith) in
      let begins : h.strings_start < h.size - 2 =
        not_leb (h.size - 2) h.strings_start
          (subst (λ k. leb k h.strings_start ≡ false) two starts) in
      let whole : sub64 p.size h.strings_start ≡ h.size - h.strings_start =
        ap (λ k. sub64 k h.strings_start) sized
        ∙ sub64_plain h.size h.strings_start (omega arith) (omega arith) in
      let (fits, less) = char_size-quotient h (h.size - h.strings_start) in
      let (fits', less') = char_size-quotient h (h.styles_start - h.strings_start) in
      elim (Bool-cases (h.style_count == 0)) [
        | inl unstyled ↦
            let n = (h.size - h.strings_start) / char_size h in
            let same : n % 2 ^ 32 ≡ n = omega arith in
            rw (unstyled, whole, same)
              (check_pool-IsSafe n next (omega arith) (omega arith) (later h.strings_start n))
        | inr styled ↦
            let n = (h.styles_start - h.strings_start) / char_size h in
            rw styled (
              check_or (leb (sub64 p.size 2) h.styles_start) _ _ λ near.
                check_or (leb h.styles_start h.strings_start) _ _ λ behind.
                  let before : h.styles_start < h.size - 2 =
                    not_leb (h.size - 2) h.styles_start
                      (subst (λ k. leb k h.styles_start ≡ false) two near) in
                  let after : h.strings_start < h.styles_start = ground arith in
                  check_pool-IsSafe n next (omega arith) (omega arith) (later h.strings_start n))
      ]

  set_strings-IsSafe :
      (next : Pool → Option Pool)
      → p.size ≡ p.header.size
      → p.entries ≡ p.header.header_size
      → p.header.header_size ≤ p.header.size
      → ((s n : ℕ)
          → p.entries + p.header.string_count * 4 ≤ p.block.size
          → StringsInside (record p { strings = s; string_pool_size = n })
          → IsSafe (next (record p { strings = s; string_pool_size = n })))
      → IsSafe (set_strings p next)
  unfolding set_strings
  set_strings-IsSafe next sized listed begins later =
      let h = p.header in
      let (c, a, b) = words in
      elim (Bool-cases (h.string_count == 0)) [
        | inl empty ↦
            let nothing : h.string_count ≡ 0 = ground arith in
            rw empty (later 0 0 (omega arith) (inl nothing))
        | inr some_ ↦ rw some_ (
            check_or
              (ltb (h.string_count * 4 % 2 ^ 64) h.string_count
                || ltb p.block.size (h.header_size + h.string_count * 4 % 2 ^ 64))
              _ _
              λ room.
                let inside : h.header_size + h.string_count * 4 % 2 ^ 64 ≤ p.block.size =
                  ground arith in
                check_or (leb (sub64 p.size 2) h.strings_start) _ _
                  λ starts. set_pool_size-IsSafe next sized starts (λ s n. later s n (omega arith)))
      ]

-- For a block of at least 28 bytes and fewer than 2 ^ 31, whose header says that the pool has at least
-- 28 bytes: setTo reads nothing outside the block, and answers either an error or a pool whose table
-- of strings and whose strings lie in the block, with the last byte of UTF-8 strings 0, and whose
-- styles, where it has any, lie in the block and end with three words END.
pub set_to-IsSound :
    (p : Pool) (d : Block) (h : Header)
    → 28 ≤ d.size
    → d.size < 2 ^ 31
    → read_header d ≡ some h
    → 28 ≤ h.size
    → (q : Pool) × (set_to p d ≡ some q) × (q.error ≡ no_error → IsSound q)
unfolding set_to
set_to-IsSound p d h long narrow read total = result (set_to p d) (
    rw (there, read)
      (check_or (ltb h.size h.header_size || ltb d.size h.size) _ _ λ fits.
        let begins : h.header_size ≤ h.size = ground arith in
        let inside : h.size ≤ d.size = ground arith in
        set_strings-IsSafe q total inside words narrow set_styles refl refl begins
          (λ s n listed strings.
            set_styles-IsSafe (record q { strings = s; string_pool_size = n }) total inside words
              narrow listed strings)))
  where
    there : (d.size == 0) ≡ false
    there = ground arith

    words : IsWords h
    words = read_header-IsWords d h long read

    q : Pool
    q = record (uninit p) { block = d; header = h; size = h.size; entries = h.header_size }

    result :
        (r : Option Pool) → IsSafe r → (q : Pool) × (r ≡ some q) × (q.error ≡ no_error → IsSound q)
    result none safe = absurd safe
    result (some q) safe = (q, refl, safe)
