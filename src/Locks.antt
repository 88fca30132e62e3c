-- ===== src/Locks.antt =====
-- CriticalSection and AutoCloser of src/locks.hpp and src/locks.cpp: the sections of one name, in
-- all processes, over the named semaphore that they share.
pub mod Exclusion
pub mod Resetting
use deals_server.Prelude.{
  ℕ, zero, suc, ◌+◌, ◌-◌, Bool, true, false, not, List, [], ◌∷◌, ◌++◌, ◌==◌, if◌then◌else◌, line,
  Outcome, ok, err, internal, get_or, set, length,
}

-- `sem_value` is the semaphore's; `unlock_needed` has the member of each section that was made.
pub record Lock : Type 0 where
  pub sem_value : ℕ
  pub unlock_needed : List Bool

-- sem_open with O_CREAT: a new semaphore is 1.
abbrev pub new_lock : Lock
new_lock = record { sem_value = 1; unlock_needed = [] }

-- CriticalSection(name): the section's place is the number of those before it.
abbrev pub open_section : Lock → Lock
open_section l = record l { unlock_needed = l.unlock_needed ++ false ∷ [] }

-- sem_timedwait, which gives up after WAIT_FOR_LOCK_SEC when the semaphore stays 0.
unfoldable pub semaphore_accuire : Lock → Outcome (Unit {0}) × Lock
semaphore_accuire l =
    if l.sem_value == 0
    then (err (internal (line "CANT_LOCK")), l)
    else (ok tt, record l { sem_value = l.sem_value - 1 })

-- sem_post; `posts` is whether it succeeds.
unfoldable pub semaphore_release : Bool → Lock → Outcome (Unit {0}) × Lock
semaphore_release posts l =
    if posts
    then (ok tt, record l { sem_value = l.sem_value + 1 })
    else (err (internal (line "CANT_SEM_POST")), l)

abbrev pub is_locked : ℕ → Lock → Bool
is_locked i l = get_or l.unlock_needed i false

abbrev pub marked : ℕ → Bool → Lock → Lock
marked i flag l = record l { unlock_needed = set l.unlock_needed i flag }

-- The member is assigned once nothing was thrown.
abbrev pub then_mark : ℕ → Bool → Outcome (Unit {0}) × Lock → Outcome (Unit {0}) × Lock
then_mark i flag (ok u, l) = (ok u, marked i flag l)
then_mark i flag (err e, l) = (err e, l)
then_mark i flag (Outcome.foreign, l) = (Outcome.foreign, l)

unfoldable pub enter : ℕ → Lock → Outcome (Unit {0}) × Lock
enter i l = then_mark i true (semaphore_accuire l)

unfoldable pub exit : Bool → ℕ → Lock → Outcome (Unit {0}) × Lock
exit posts i l =
    if is_locked i l
    then then_mark i false (semaphore_release posts l)
    else (ok tt, marked i false l)

-- ~CriticalSection; the section at the place is gone. ~AutoCloser is `exit`.
unfoldable pub close_section : Bool → ℕ → Lock → Outcome (Unit {0}) × Lock
close_section posts i l =
    if is_locked i l then then_mark i false (semaphore_release posts l) else (ok tt, l)

-- The loop of reset_not_for_production, for at most `rounds` rounds: the semaphore that it leaves.
unfoldable pub reset_loop : ℕ → ℕ → ℕ
reset_loop zero sem_value = sem_value
reset_loop (suc rounds) sem_value =
    let rest = reset_loop rounds (sem_value + 1) in if sem_value == 0 then rest else sem_value - 1

unfoldable pub reset_not_for_production : Lock → Lock
reset_not_for_production l = record l { sem_value = reset_loop 2 l.sem_value + 1 }
