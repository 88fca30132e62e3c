-- ===== src/Timing.antt =====
-- src/timing.cpp: the clock with its shift, and the traveller in time that the tests use.
pub mod Travel
use deals_server.Prelude.{ℕ, zero, suc, ◌+◌, ◌*◌, ◌/◌, ◌%◌, Bool, leb, ◌==◌, if◌then◌else◌}
use deals_server.Utils.Calendar.{u32, sub_u32}

-- What gettimeofday fills in, after 1970.
pub record Timeval : Type 0 where
  pub tv_sec : ℕ
  pub tv_usec : ℕ

-- A long long; `debug_time_shift` is a uint32_t.
unfoldable pub get_timestamp_ms : ℕ → Timeval → ℕ
get_timestamp_ms debug_time_shift tv = debug_time_shift + tv.tv_sec * 1000 + tv.tv_usec / 1000

unfoldable pub get_timestamp_sec : ℕ → Timeval → ℕ
get_timestamp_sec debug_time_shift tv = (debug_time_shift + tv.tv_sec) % u32

-- TimeLord, with the shift of the clock that it changes; all are uint32_t.
pub record TimeLord : Type 0 where
  pub tick_counter : ℕ
  pub ticks_in_second : ℕ
  pub debug_time_shift : ℕ

-- The constructor.
abbrev pub new_time_lord : ℕ → ℕ → TimeLord
new_time_lord ticks_in_second debug_time_shift = record {
  tick_counter = 1;
  ticks_in_second = ticks_in_second;
  debug_time_shift = debug_time_shift;
}

-- operator uint32_t.
unfoldable pub seconds : TimeLord → ℕ
seconds t = t.tick_counter / t.ticks_in_second

-- What the operators do once the counter has its new value.
abbrev pub travel : TimeLord → ℕ → ℕ → TimeLord
travel t tick_counter debug_time_shift = record t {
  tick_counter = tick_counter;
  debug_time_shift =
      if tick_counter % t.ticks_in_second == 0 then debug_time_shift else t.debug_time_shift;
}

-- operator++.
unfoldable pub increment : TimeLord → TimeLord
increment t = travel t ((t.tick_counter + 1) % u32) ((t.debug_time_shift + 1) % u32)

-- operator+=.
unfoldable pub add : TimeLord → ℕ → TimeLord
add t step = travel t ((t.tick_counter + step) % u32) ((t.debug_time_shift + step) % u32)

-- operator-=.
unfoldable pub subtract : TimeLord → ℕ → TimeLord
subtract t step = travel t (sub_u32 t.tick_counter step) (sub_u32 t.debug_time_shift step)

abbrev pub reset : TimeLord → TimeLord
reset t = record t { tick_counter = 1 }

unfoldable pub test : TimeLord → ℕ → Bool
test t x = leb t.tick_counter (x * t.ticks_in_second % u32)

-- So many `++`.
unfoldable pub increments : ℕ → TimeLord → TimeLord
increments zero t = t
increments (suc n) t = increments n (increment t)
