-- ===== src/Locks/Resetting.antt =====
-- The loop of reset_not_for_production.
use deals_server.Prelude.{
  ℕ, suc, ◌+◌, ◌-◌, ◌≡◌, refl, ◌∙◌, sym, ap, inl, inr, false, ◌==◌, if◌then◌else◌, arith,
  Bool-cases,
}
use deals_server.Locks.{Lock, reset_loop, reset_not_for_production}

one_round : (rounds v : ℕ) → (v == 0) ≡ false → reset_loop (suc rounds) v ≡ v - 1
unfolding reset_loop
one_round rounds v h = rw h refl

not_zero : (v : ℕ) → ((v + 1) == 0) ≡ false
not_zero v = ground arith

more_rounds : (rounds v : ℕ) → reset_loop (suc (suc rounds)) v ≡ (if v == 0 then 0 else v - 1)
unfolding reset_loop
more_rounds rounds v = elim (Bool-cases (v == 0)) [
  | inl taken ↦
      let next = one_round rounds (v + 1) (not_zero v) in
      let last : (v + 1) - 1 ≡ 0 = ground arith in rw taken (next ∙ last)
  | inr free ↦ rw free refl
]

-- Two rounds of the loop are enough: more give the same. The semaphore is 1 after a reset if it was
-- 0, and is what it was otherwise.
pub reset_loop-enough :
    (rounds : ℕ) (l : Lock)
    → (reset_loop (suc (suc rounds)) l.sem_value ≡ reset_loop 2 l.sem_value)
      × ((reset_not_for_production l).sem_value ≡ (if l.sem_value == 0 then 1 else l.sem_value))
unfolding reset_not_for_production
reset_loop-enough rounds l = (
  more_rounds rounds l.sem_value ∙ sym (more_rounds 0 l.sem_value),
  ap (λ n. n + 1) (more_rounds 0 l.sem_value) ∙ counted l.sem_value,
)
  where
    counted : (v : ℕ) → (if v == 0 then 0 else v - 1) + 1 ≡ (if v == 0 then 1 else v)
    counted v = ground arith
