-- ===== src/CursorWindow/Memory.antt =====
-- The memory of a CursorWindow (libs/androidfw/CursorWindow.cpp): bytes at offsets, and
-- little-endian words at any offset.
use f2ut_platform_frameworks.Prelude.{
  List, arith, get_or, if◌then◌else◌, leb, length, ltb, ℕ, ◌%◌, ◌&&◌, ◌*◌, ◌+◌, ◌-◌, ◌/◌, ◌<◌, ◌==◌,
  ◌^◌, ◌≡◌, refl, ap, true, ◌≤◌, ◌⊎◌, inl, inr, sym, ◌∙◌,
}
use native.Mathlib.Nat.{add-zero}

unfoldable pub read32 : (ℕ → ℕ) → ℕ → ℕ
read32 m a = m a + m (a + 1) * 256 + m (a + 2) * 65536 + m (a + 3) * 16777216

unfoldable pub write32 : ℕ → ℕ → (ℕ → ℕ) → ℕ → ℕ
write32 a v m i =
    if i == a
    then v % 256
    else if i == a + 1
    then v / 256 % 256
    else if i == a + 2
    then v / 65536 % 256
    else if i == a + 3
    then v / 16777216 % 256
    else m i

unfoldable pub write64 : ℕ → ℕ → (ℕ → ℕ) → ℕ → ℕ
write64 a v m = write32 (a + 4) (v / 2 ^ 32) (write32 a (v % 2 ^ 32) m)

unfoldable pub read64 : (ℕ → ℕ) → ℕ → ℕ
read64 m a = read32 m a + read32 m (a + 4) * 2 ^ 32

-- memcpy
unfoldable pub write_bytes : ℕ → List ℕ → (ℕ → ℕ) → ℕ → ℕ
write_bytes a bytes m i =
    if leb a i && ltb i (a + length bytes) then get_or bytes (i - a) 0 else m i

-- memset to 0
unfoldable pub fill : ℕ → ℕ → (ℕ → ℕ) → ℕ → ℕ
fill a n m i = if leb a i && ltb i (a + n) then 0 else m i

-- An offset outside the `n` bytes at `a`.
abbrev pub NotIn : ℕ → ℕ → ℕ → Type 0
NotIn i a n = (i < a) ⊎ (a + n ≤ i)

pub write32_outside : (a v i : ℕ) (m : ℕ → ℕ) → NotIn i a 4 → write32 a v m i ≡ m i
unfolding write32
write32_outside a v i m (inl h) = ground arith
write32_outside a v i m (inr h) = ground arith

pub write64_outside : (a v i : ℕ) (m : ℕ → ℕ) → NotIn i a 8 → write64 a v m i ≡ m i
unfolding write64
write64_outside a v i m (inl h) =
    write32_outside (a + 4) (v / 2 ^ 32) i (write32 a (v % 2 ^ 32) m) (inl (omega arith))
    ∙ write32_outside a (v % 2 ^ 32) i m (inl h)
write64_outside a v i m (inr h) =
    write32_outside (a + 4) (v / 2 ^ 32) i (write32 a (v % 2 ^ 32) m) (inr (omega arith))
    ∙ write32_outside a (v % 2 ^ 32) i m (inr (omega arith))

pub fill_outside : (a n i : ℕ) (m : ℕ → ℕ) → NotIn i a n → fill a n m i ≡ m i
unfolding fill
fill_outside a n i m (inl h) = ground arith
fill_outside a n i m (inr h) = ground arith

pub fill_inside : (a n i : ℕ) (m : ℕ → ℕ) → i < n → fill a n m (a + i) ≡ 0
unfolding fill
fill_inside a n i m h = ground arith

pub write_bytes_outside :
    (a i : ℕ) (bytes : List ℕ) (m : ℕ → ℕ)
    → NotIn i a (length bytes)
    → write_bytes a bytes m i ≡ m i
unfolding write_bytes
write_bytes_outside a i bytes m (inl h) = ground arith
write_bytes_outside a i bytes m (inr h) = ground arith

pub write_bytes_inside :
    (a i : ℕ) (bytes : List ℕ) (m : ℕ → ℕ)
    → i < length bytes
    → write_bytes a bytes m (a + i) ≡ get_or bytes i 0
unfolding write_bytes
write_bytes_inside a i bytes m h =
    let back : a + i - a ≡ i = omega arith in
    let within : (leb a (a + i) && ltb (a + i) (a + length bytes)) ≡ true = ground arith in
    rw (within, back) refl

-- A word depends on its four bytes.
pub read32_same :
    (a : ℕ) (m n : ℕ → ℕ) → ((i : ℕ) → i < 4 → m (a + i) ≡ n (a + i)) → read32 m a ≡ read32 n a
unfolding read32
read32_same a m n h =
    let h0 : m a ≡ n a = ap m (sym (add-zero a)) ∙ (h 0 (omega arith) ∙ ap n (add-zero a)) in
    omega (arith, h0, h 1 (omega arith), h 2 (omega arith), h 3 (omega arith))

pub read32_zero : (a : ℕ) → read32 (λ i. 0) a ≡ 0
unfolding read32
read32_zero a = refl

pub read64_zero : (a : ℕ) → read64 (λ i. 0) a ≡ 0
unfolding read64 read32
read64_zero a = refl

pub read32-write32 : (a v : ℕ) (m : ℕ → ℕ) → v < 2 ^ 32 → read32 (write32 a v m) a ≡ v
unfolding read32 write32
read32-write32 a v m h = ground arith

pub read64-write64 : (a v : ℕ) (m : ℕ → ℕ) → v < 2 ^ 64 → read64 (write64 a v m) a ≡ v
unfolding read64 write64
read64-write64 a v m h =
    let low = v % 2 ^ 32 in
    let high = v / 2 ^ 32 in
    let kept =
      read32_same a (write32 (a + 4) high (write32 a low m)) (write32 a low m)
        (λ i k. write32_outside (a + 4) high (a + i) (write32 a low m) (inl (omega arith))) in
    omega (
      arith,
      kept,
      read32-write32 a low m (omega arith),
      read32-write32 (a + 4) high (write32 a low m) (omega arith),
    )

pub read64_same :
    (a : ℕ) (m n : ℕ → ℕ) → ((i : ℕ) → i < 8 → m (a + i) ≡ n (a + i)) → read64 m a ≡ read64 n a
unfolding read64
read64_same a m n h =
    let low = read32_same a m n (λ i k. h i (omega arith)) in
    let high = read32_same (a + 4) m n (λ i k.
      let at : a + 4 + i ≡ a + (4 + i) = omega arith in
      ap m at ∙ (h (4 + i) (omega arith) ∙ ap n (sym at))) in
    omega (arith, low, high)
