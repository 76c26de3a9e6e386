-- ===== src/CommonTime/Timeout.antt =====
-- Timeout of libs/common_time/utils.cpp and utils.h. A time is a number of nanoseconds, which the
-- system's clock never gives as negative; an int is an integer.
use f2ut_platform_frameworks.Prelude.{
  Bool-cases, arith, if◌then◌else◌, inl, inr, ltb, refl, ℕ, ◌*◌, ◌+◌, ◌-◌, ◌/◌, ◌<◌, ◌==◌, ◌^◌, ◌≡◌,
  ◌≢◌, ◌≤◌, false,
}
use f2ut_platform_frameworks.Prelude.Int.{negsuc, pos, ℤ}

-- mSystemEndTime
pub record Timeout : Type 0 where
  pub system_end_time : ℕ

-- setTimeout, when the clock shows `now`.
unfoldable pub set_timeout : ℕ → ℤ → Timeout
set_timeout now (pos msec) = record { system_end_time = now + msec * 1000000 }
set_timeout now (negsuc n) = record { system_end_time = 0 }

unfoldable pub msec_till_timeout : ℕ → Timeout → ℤ
msec_till_timeout now t =
    if t.system_end_time == 0
    then negsuc 0
    else if ltb t.system_end_time now
    then pos 0
    else (let delta = (t.system_end_time - now + 999999) / 1000000 in
        pos (if ltb (2 ^ 31 - 1) delta then 2 ^ 31 - 1 else delta))

till_end :
    (now end : ℕ)
    → end ≢ 0
    → end ≤ now + (2 ^ 31 - 1) * 1000000
    → (n : ℕ) × (msec_till_timeout now (record { system_end_time = end }) ≡ pos n)
      × (end ≤ now + n * 1000000)
      × ((k : ℕ) → end ≤ now + k * 1000000 → n ≤ k)
unfolding msec_till_timeout
till_end now end real near =
    let set : (end == 0) ≡ false = ground arith in
    elim (Bool-cases (ltb end now)) [
      | inl past ↦
          let late : end < now = ground arith in
          (0, simp (set, past), omega (arith, late), λ k h. omega arith)
      | inr ahead ↦
          let early : now ≤ end = ground arith in
          let delta = (end - now + 999999) / 1000000 in
          let uncut : ltb (2 ^ 31 - 1) delta ≡ false = ground (arith, near, early) in
          (delta, simp (set, ahead, uncut), omega (arith, early), λ k h. omega (arith, h, early))
    ]

never : (now : ℕ) → msec_till_timeout now (record { system_end_time = 0 }) ≡ negsuc 0
unfolding msec_till_timeout
never now = refl

-- After setTimeout with a number of milliseconds that is not negative, at a time above 0,
-- msecTillTimeout gives at each later time the least number of milliseconds that reach the end of
-- the timeout, and at most the number set: a wait of that length ends neither early nor a
-- millisecond late. After setTimeout with a negative number it gives -1.
pub msec_till_timeout-set_timeout :
    (start now msec : ℕ)
    → 0 < start
    → start ≤ now
    → msec < 2 ^ 31
    → ((n : ℕ) × (msec_till_timeout now (set_timeout start (pos msec)) ≡ pos n)
        × (start + msec * 1000000 ≤ now + n * 1000000)
        × ((k : ℕ) → start + msec * 1000000 ≤ now + k * 1000000 → n ≤ k)
        × (n ≤ msec))
      × ((m : ℕ) → msec_till_timeout now (set_timeout start (negsuc m)) ≡ negsuc 0)
unfolding set_timeout
msec_till_timeout-set_timeout start now msec positive later small =
    let end = start + msec * 1000000 in
    let (n, given, enough, least) = till_end now end (λ e. omega arith) (omega arith) in
    ((n, given, enough, least, least msec (omega arith)), λ m. never now)
