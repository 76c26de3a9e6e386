-- ===== src/CursorWindow/Wrap.antt =====
-- The sums of `alloc` in libs/androidfw/CursorWindow.cpp, which are cut to 32 bits.
use f2ut_platform_frameworks.Prelude.{Bool, arith, refl, ℕ, ◌%◌, ◌*◌, ◌+◌, ◌^◌, ◌≡◌}
use f2ut_platform_frameworks.CursorWindow.{CursorWindow, alloc, padding}

-- A size and that size with any multiple of 2 ^ 32 are the same to `alloc`: it takes the bytes of
-- the first and answers its offset, however large the second is.
pub alloc-wrap :
    (size k : ℕ) (aligned : Bool) (w : CursorWindow)
    → alloc (size + k * 2 ^ 32) aligned w ≡ alloc size aligned w
unfolding alloc
alloc-wrap size k aligned w =
    let offset = (w.free_offset + padding aligned w.free_offset) % 2 ^ 32 in
    let same : (offset + (size + k * 2 ^ 32)) % 2 ^ 32 ≡ (offset + size) % 2 ^ 32 = omega arith in
    rw same refl
