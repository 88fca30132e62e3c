-- ===== src/Memory/Space.antt =====
-- isMemAvailable and isMemLow of src/shared_memory.cpp.
pub mod Percents
use deals_server.Prelude.{
  ℕ, ◌*◌, ◌/◌, ◌%◌, ◌^◌, Bool, true, false, Option, none, some, leb, ◌==◌, if◌then◌else◌,
}

-- What statvfs fills in, both numbers of 64 bits.
pub record Statvfs : Type 0 where
  pub f_bavail : ℕ
  pub f_blocks : ℕ

abbrev pub lowmem_percent_for_page_reusing : ℕ
lowmem_percent_for_page_reusing = 15

abbrev pub lowmem_error_percent : ℕ
lowmem_error_percent = 10

-- `freemem`, a uint32_t; `none` is the division by zero.
unfoldable pub freemem : Statvfs → Option ℕ
freemem res =
    if res.f_blocks == 0 then none else some (100 * res.f_bavail % 2 ^ 64 / res.f_blocks % 2 ^ 32)

-- At most so many percent are free.
abbrev pub at_most : ℕ → Option ℕ → Option Bool
at_most percent none = none
at_most percent (some free) = some (leb free percent)

abbrev pub negated : Option Bool → Option Bool
negated none = none
negated (some true) = some false
negated (some false) = some true

unfoldable pub is_mem_available : Statvfs → Option Bool
is_mem_available res = negated (at_most lowmem_error_percent (freemem res))

unfoldable pub is_mem_low : Statvfs → Option Bool
is_mem_low res = at_most lowmem_percent_for_page_reusing (freemem res)
