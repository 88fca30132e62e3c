-- ===== src/Locks/Exclusion.antt =====
-- At most one section is entered at a time, and one that is left can be entered.
use deals_server.Prelude.{
  ℕ, zero, suc, ◌+◌, ◌-◌, ◌≤◌, ◌<◌, ◌≡◌, refl, ap, inl, inr, Bool, true, false, List, [], ◌∷◌, ◌++◌,
  ◌==◌, if◌then◌else◌, ok, get_or, set, length, length-set, get_or-set_self, arith, Bool-cases,
}
use deals_server.Locks.{
  Lock, new_lock, open_section, semaphore_accuire, semaphore_release, is_locked, enter, exit,
  close_section, marked,
}

-- How many sections are entered.
abbrev pub entered : List Bool → ℕ
entered [] = 0
entered (flag ∷ flags) = (if flag then 1 else 0) + entered flags

-- A section is made, entered, left or destroyed, or its process is killed inside it; each step that
-- throws leaves what the operation leaves.
pub data Step : Lock → Lock → Type 0 where
  opens : (l : Lock) → Step l (open_section l)
  enters : (i : ℕ) (l : Lock) → i < length l.unlock_needed → Step l (enter i l).1
  exits : (posts : Bool) (i : ℕ) (l : Lock) → Step l (exit posts i l).1
  closes : (posts : Bool) (i : ℕ) (l : Lock) → Step l (close_section posts i l).1
  dies : (i : ℕ) (l : Lock) → Step l (marked i false l)

pub data Reach (s : Lock) : Lock → Type 0 where
  here : Reach s s
  next : {t u : Lock} → Reach s t → Step t u → Reach s u

entered-append : (flags : List Bool) → entered (flags ++ false ∷ []) ≡ entered flags
entered-append [] = omega arith
entered-append (flag ∷ flags) = ap (λ n. (if flag then 1 else 0) + n) (entered-append flags)

marked_entered : (flags : List Bool) (i : ℕ) → entered (set flags i true) ≤ entered flags + 1
marked_entered [] i = omega arith
marked_entered (flag ∷ flags) zero = ground arith
marked_entered (flag ∷ flags) (suc i) = let below = marked_entered flags i in omega (arith, below)

marked_left : (flags : List Bool) (i : ℕ) → entered (set flags i false) ≤ entered flags
marked_left [] i = omega arith
marked_left (flag ∷ flags) zero = ground arith
marked_left (flag ∷ flags) (suc i) = let below = marked_left flags i in omega (arith, below)

-- A section that was entered counts no more.
entered-left :
    (flags : List Bool) (i : ℕ)
    → get_or flags i false ≡ true
    → entered (set flags i false) + 1 ≡ entered flags
entered-left [] i h = absurd (cc h)
entered-left (flag ∷ flags) zero h = rw h (omega arith)
entered-left (flag ∷ flags) (suc i) h = let below = entered-left flags i h in omega (arith, below)

-- The semaphore and the sections that are entered are at most one together.
abbrev pub IsExclusive : Lock → Type 0
IsExclusive l = l.sem_value + entered l.unlock_needed ≤ 1

enter-IsExclusive : (i : ℕ) (l : Lock) → IsExclusive l → IsExclusive (enter i l).1
unfolding enter semaphore_accuire
enter-IsExclusive i l h = elim (Bool-cases (l.sem_value == 0)) [
  | inl taken ↦ rw taken h
  | inr free ↦ rw free (
      let more = marked_entered l.unlock_needed i in
      less l.sem_value (entered l.unlock_needed) (entered (set l.unlock_needed i true)) free h more)
]
  where
    less : (v n m : ℕ) → (v == 0) ≡ false → v + n ≤ 1 → m ≤ n + 1 → v - 1 + m ≤ 1
    less v n m f h k = ground arith

exit-IsExclusive :
    (posts : Bool) (i : ℕ) (l : Lock) → IsExclusive l → IsExclusive (exit posts i l).1
unfolding exit semaphore_release
exit-IsExclusive posts i l h = elim (Bool-cases (is_locked i l)) [
  | inl locked ↦ elim (Bool-cases posts) [
    | inl succeeds ↦
        rw (locked, succeeds)
          (let left = entered-left l.unlock_needed i locked in omega (arith, left, h))
    | inr fails ↦ rw (locked, fails) h
  ]
  | inr free ↦ rw free (let same = marked_left l.unlock_needed i in omega (arith, same, h))
]

close-IsExclusive :
    (posts : Bool) (i : ℕ) (l : Lock) → IsExclusive l → IsExclusive (close_section posts i l).1
unfolding close_section semaphore_release
close-IsExclusive posts i l h = elim (Bool-cases (is_locked i l)) [
  | inl locked ↦ elim (Bool-cases posts) [
    | inl succeeds ↦
        rw (locked, succeeds)
          (let left = entered-left l.unlock_needed i locked in omega (arith, left, h))
    | inr fails ↦ rw (locked, fails) h
  ]
  | inr free ↦ rw free h
]

Step-IsExclusive : {l k : Lock} → Step l k → IsExclusive l → IsExclusive k
Step-IsExclusive (opens l) h = let same = entered-append l.unlock_needed in omega (arith, same, h)
Step-IsExclusive (enters i l lt) h = enter-IsExclusive i l h
Step-IsExclusive (exits posts i l) h = exit-IsExclusive posts i l h
Step-IsExclusive (closes posts i l) h = close-IsExclusive posts i l h
Step-IsExclusive (dies i l) h = let same = marked_left l.unlock_needed i in omega (arith, same, h)

-- In every run of the sections of a new semaphore, also with failing calls and processes that are
-- killed inside a section, the semaphore and the sections that are entered are at most one together:
-- no two sections are entered at the same time.
pub Reach-IsExclusive : (l : Lock) → Reach new_lock l → IsExclusive l
Reach-IsExclusive l here = omega arith
Reach-IsExclusive l (next before step) = Step-IsExclusive step (Reach-IsExclusive _ before)

-- Once a section that is entered is left, with a sem_post that succeeds, any section can be
-- entered: nothing is thrown, and it is entered then.
pub enter-exit :
    (i j : ℕ) (l : Lock)
    → is_locked i l ≡ true
    → j < length l.unlock_needed
    → ((exit true i l).0 ≡ ok tt)
      × ((enter j (exit true i l).1).0 ≡ ok tt)
      × (is_locked j (enter j (exit true i l).1).1 ≡ true)
unfolding enter exit semaphore_accuire semaphore_release
enter-exit i j l locked lt =
    let free : ((l.sem_value + 1) == 0) ≡ false = positive l.sem_value in
    let inside = length-set l.unlock_needed i false in
    (
      rw locked refl,
      rw (locked, free) refl,
      rw (locked, free)
          (get_or-set_self (set l.unlock_needed i false) j true false (omega (arith, inside, lt))),
    )
  where
    positive : (v : ℕ) → ((v + 1) == 0) ≡ false
    positive v = ground arith
