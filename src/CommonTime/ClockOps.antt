-- ===== src/CommonTime/ClockOps.antt =====
-- What libs/common_time/common_time_server.cpp uses of the common clock (common_clock.cpp) and of
-- the clock recovery loop (clock_recovery.cpp) that steers it. Times are 64-bit patterns.
use f2ut_platform_frameworks.Prelude.{ℕ, ◌≡◌, Bool, true, false, Option, none}

pub record ClockOps : Type 1 where
  -- The state of both.
  pub Clk : Type 0
  pub is_valid : Clk → Bool
  -- CommonClock::setBasis(local, common)
  pub set_basis : ℕ → ℕ → Clk → Clk
  pub local_to_common : Clk → ℕ → Option ℕ
  pub local_duration_to_common_duration : Clk → ℕ → ℕ
  -- ClockRecoveryLoop::reset(position, frequency)
  pub reset : Bool → Bool → Clk → Clk
  -- ClockRecoveryLoop::pushDisciplineEvent(local_time, nominal_common_time, rtt)
  pub push_discipline_event : ℕ → ℕ → ℕ → Clk → Bool × Clk
  pub is_valid-set_basis : (l c : ℕ) (k : Clk) → is_valid (set_basis l c k) ≡ true
  pub is_valid-reset_position : (f : Bool) (k : Clk) → is_valid (reset true f k) ≡ false
  pub is_valid-reset_frequency : (f : Bool) (k : Clk) → is_valid (reset false f k) ≡ is_valid k
  pub local_to_common_invalid : (k : Clk) (t : ℕ) → is_valid k ≡ false → local_to_common k t ≡ none
