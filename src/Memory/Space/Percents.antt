-- ===== src/Memory/Space/Percents.antt =====
-- What the tests on the free memory say of the blocks.
use native.Mathlib.Nat.{div-lt_iff_lt-mul}
use deals_server.Prelude.{
  ℕ, ◌*◌, ◌/◌, ◌%◌, ◌^◌, ◌≤◌, ◌<◌, ◌≡◌, ap, ◌↔◌, true, false, some, ◌==◌, arith,
}
use deals_server.Memory.Space.{Statvfs, freemem, at_most, negated, is_mem_available, is_mem_low}

percent : ℕ → ℕ → ℕ
percent free blocks = 100 * free / blocks

percent_bound :
    (free blocks n : ℕ) → 0 < blocks → (percent free blocks < n) ↔ (100 * free < n * blocks)
unfolding percent
percent_bound free blocks n h = div-lt_iff_lt-mul h

freemem_lem :
    (res : Statvfs)
    → 0 < res.f_blocks
    → res.f_bavail ≤ res.f_blocks
    → 100 * res.f_blocks < 2 ^ 64
    → freemem res ≡ some (percent res.f_bavail res.f_blocks)
unfolding freemem percent
freemem_lem res some_blocks le fits =
    let small : 100 * res.f_bavail / res.f_blocks < 101 =
      (div-lt_iff_lt-mul some_blocks).1 (omega arith) in
    let whole : 100 * res.f_bavail % 2 ^ 64 ≡ 100 * res.f_bavail = omega arith in
    let positive : (res.f_blocks == 0) ≡ false = ground arith in
    simp (positive, whole) (ap some (omega arith))

is_low : (n : ℕ) → (at_most 15 (some n) ≡ some true) ↔ (n < 16)
is_low n = ground arith

is_available : (n : ℕ) → (negated (at_most 10 (some n)) ≡ some true) ↔ (11 ≤ n)
is_available n = ground arith

chain_ge : (n a b k : ℕ) {P : Type 0} → P ↔ (k ≤ n) → (n < k) ↔ (a < b) → P ↔ (b ≤ a)
chain_ge n a b k p q = ((λ h. ground (arith, p.0 h, q.1)), (λ h. p.1 (ground (arith, q.0))))

-- With blocks, and no more of them free than there are, of which there are few enough for 64 bits:
-- memory is available where at least 11 percent of the blocks are free, and low where fewer than 16
-- percent are.
pub is_mem_low-is_mem_available :
    (res : Statvfs)
    → 0 < res.f_blocks
    → res.f_bavail ≤ res.f_blocks
    → 100 * res.f_blocks < 2 ^ 64
    → ((is_mem_available res ≡ some true) ↔ (11 * res.f_blocks ≤ 100 * res.f_bavail))
      × ((is_mem_low res ≡ some true) ↔ (100 * res.f_bavail < 16 * res.f_blocks))
unfolding is_mem_available is_mem_low
is_mem_low-is_mem_available res some_blocks le fits =
    let n = percent res.f_bavail res.f_blocks in
    rw (freemem_lem res some_blocks le fits) (
      chain_ge n (100 * res.f_bavail) (11 * res.f_blocks) 11 (is_available n)
          (percent_bound res.f_bavail res.f_blocks 11 some_blocks),
      (
        (λ h. (percent_bound res.f_bavail res.f_blocks 16 some_blocks).0 ((is_low n).0 h)),
        (λ h. (is_low n).1 ((percent_bound res.f_bavail res.f_blocks 16 some_blocks).1 h)),
      ),
    )
