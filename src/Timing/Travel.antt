-- ===== src/Timing/Travel.antt =====
-- The traveller's time is the clock's.
use deals_server.Prelude.{ℕ, ◌+◌, ◌%◌, ◌<◌, ◌≡◌, refl, true, ◌==◌, arith}
use deals_server.Utils.Calendar.{u32, sub_u32}
use deals_server.Timing.{add, subtract}

every_tick : (n k : ℕ) → k ≡ 1 → (n % k == 0) ≡ true
every_tick n k e = rw e (ground arith)

back : (n step : ℕ) → n < u32 → step < u32 → sub_u32 ((n + step) % u32) step ≡ n
back n step h k = omega arith

-- With one tick in a second, as it is by default: a step forth and the same step back leave the
-- counter and the clock's shift as they were.
pub subtract-add :
    (counter shift step : ℕ)
    → counter < u32
    → shift < u32
    → step < u32
    → subtract
        (add
          (record { tick_counter = counter; ticks_in_second = 1; debug_time_shift = shift })
          step)
        step
      ≡ record { tick_counter = counter; ticks_in_second = 1; debug_time_shift = shift }
unfolding subtract add
subtract-add counter shift step c d s =
    rw
      (
        every_tick ((counter + step) % u32) 1 refl,
        every_tick (sub_u32 ((counter + step) % u32) step) 1 refl,
      )
      (rw (back counter step c s, back shift step d s) refl)
