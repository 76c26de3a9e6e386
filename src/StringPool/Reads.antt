-- ===== src/StringPool/Reads.antt =====
-- Reads of a block (libs/androidfw/ResourceTypes.cpp) that lie within it.
use f2ut_platform_frameworks.Prelude.{
  Bool, arith, ltb, refl, some, subst, true, ℕ, ◌%◌, ◌&&◌, ◌*◌, ◌+◌, ◌<◌, ◌==◌, ◌^◌, ◌≡◌, ◌≤◌,
}
use f2ut_platform_frameworks.StringPool.{Block, Header, read16, read32, read8, read_header}
use f2ut_platform_frameworks.StringPool.Setting.{styles_end}

pub read8_inside : (d : Block) (a : ℕ) → a < d.size → (b : ℕ) × (read8 d a ≡ some b) × (b < 256)
unfolding read8
read8_inside d a h =
    let inside : ltb a d.size ≡ true = ground arith in (d.byte a % 256, rw inside refl, omega arith)

pub read16_inside :
    (d : Block) (a : ℕ) → a + 2 ≤ d.size → (b : ℕ) × (read16 d a ≡ some b) × (b < 2 ^ 16)
unfolding read16
read16_inside d a h =
    let (b0, e0, s0) = read8_inside d a (omega arith) in
    let (b1, e1, s1) = read8_inside d (a + 1) (omega arith) in
    (b0 + b1 * 256, simp (e0, e1), omega arith)

pub read32_inside :
    (d : Block) (a : ℕ) → a + 4 ≤ d.size → (b : ℕ) × (read32 d a ≡ some b) × (b < 2 ^ 32)
unfolding read32
read32_inside d a h =
    let (b0, e0, s0) = read16_inside d a (omega arith) in
    let (b1, e1, s1) = read16_inside d (a + 2) (omega arith) in
    (b0 + b1 * 65536, simp (e0, e1), omega arith)

-- The sizes that the fields of a header have room for.
abbrev pub IsWords : Header → Type 0
IsWords h = (h.string_count < 2 ^ 32) × (h.strings_start < 2 ^ 32) × (h.styles_start < 2 ^ 32)

pub read_header-IsWords :
    (d : Block) (h : Header) → 28 ≤ d.size → read_header d ≡ some h → IsWords h
unfolding read_header
read_header-IsWords d h long e =
    let (w0, e0, s0) = read16_inside d 2 (omega arith) in
    let (w1, e1, s1) = read32_inside d 4 (omega arith) in
    let (w2, e2, s2) = read32_inside d 8 (omega arith) in
    let (w3, e3, s3) = read32_inside d 12 (omega arith) in
    let (w4, e4, s4) = read32_inside d 16 (omega arith) in
    let (w5, e5, s5) = read32_inside d 20 (omega arith) in
    let (w6, e6, s6) = read32_inside d 24 (omega arith) in
    let h' : Header = record {
      header_size = w0;
      size = w1;
      string_count = w2;
      style_count = w3;
      flags = w4;
      strings_start = w5;
      styles_start = w6;
    } in
    let same : read_header d ≡ some h' = simp (e0, e1, e2, e3, e4, e5, e6) in
    let it : h' ≡ h = cc in subst IsWords it (s2, s5, s6)

-- The three words can be read.
pub styles_end_reads :
    (d : Block) (a : ℕ) → a + 12 ≤ d.size → (b : Bool) × (styles_end d a ≡ some b)
unfolding styles_end
styles_end_reads d a h =
    let (w0, e0, s0) = read32_inside d a (omega arith) in
    let (w1, e1, s1) = read32_inside d (a + 4) (omega arith) in
    let (w2, e2, s2) = read32_inside d (a + 8) (omega arith) in
    (w0 == 0xFFFFFFFF && (w1 == 0xFFFFFFFF && w2 == 0xFFFFFFFF), simp (e0, e1, e2))
