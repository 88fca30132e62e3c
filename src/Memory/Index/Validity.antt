-- ===== src/Memory/Index/Validity.antt =====
-- The invariant of a table's index, and the writes that keep it.
use deals_server.Prelude.{
  ℕ, zero, suc, ◌≤◌, ◌<◌, ◌≡◌, refl, inl, inr, List, [], ◌∷◌, ◌==◌, ==_iff, length, get_or, set,
  take, All, arith, Bool-cases,
}
use deals_server.Memory.Index.{Slot, no_slot, clear_index_record_full}

abbrev pub IsUsed : Slot → Type 0
IsUsed s = 0 < s.expire_at

abbrev pub IsUnused : Slot → Type 0
IsUnused s = s.expire_at ≡ 0

-- The slots in use are in front of those that are not, and no page has more room than elements.
abbrev pub IsIndex : ℕ → List Slot → Type 0
IsIndex max_elements [] = Unit {0}
IsIndex max_elements (s ∷ slots) =
    (s.page_elements_available ≤ max_elements)
    × (IsUnused s → All IsUnused slots)
    × IsIndex max_elements slots

pub All-get_or :
    (P : Slot → Type 0) (slots : List Slot) (i : ℕ)
    → All P slots
    → i < length slots
    → P (get_or slots i no_slot)
All-get_or P [] i all lt = absurd (omega arith)
All-get_or P (s ∷ slots) zero (p, all) lt = p
All-get_or P (s ∷ slots) (suc i) (p, all) lt = All-get_or P slots i all (omega arith)

pub All-map :
    {P Q : Slot → Type 0} (slots : List Slot) → ((s : Slot) → P s → Q s) → All P slots → All Q slots
All-map [] f all = tt
All-map (s ∷ slots) f (p, all) = (f s p, All-map slots f all)

pub available-le :
    (m : ℕ) (slots : List Slot) (i : ℕ)
    → IsIndex m slots
    → i < length slots
    → (get_or slots i no_slot).page_elements_available ≤ m
available-le m [] i h lt = absurd (omega arith)
available-le m (s ∷ slots) zero (a, p, h) lt = a
available-le m (s ∷ slots) (suc i) (a, p, h) lt = available-le m slots i h (omega arith)

pub used_inside : (slots : List Slot) (i : ℕ) → IsUsed (get_or slots i no_slot) → i < length slots
used_inside [] i u = absurd (omega arith)
used_inside (s ∷ slots) zero u = omega arith
used_inside (s ∷ slots) (suc i) u = let below = used_inside slots i u in omega arith

-- In front of a slot in use all are.
pub IsUsed-before :
    (m : ℕ) (slots : List Slot) (i : ℕ)
    → IsIndex m slots
    → i < length slots
    → IsUsed (get_or slots i no_slot)
    → All IsUsed (take i slots)
IsUsed-before m [] i h lt u = absurd (omega arith)
IsUsed-before m (s ∷ slots) zero h lt u = tt
IsUsed-before m (s ∷ slots) (suc i) (a, p, h) lt u = (
  elim (Bool-cases (s.expire_at == 0)) [
    | inr positive ↦ ground arith
    | inl free ↦
        let e = All-get_or IsUnused slots i (p ((==_iff s.expire_at 0).0 free)) (omega arith) in
        absurd (omega arith)
  ],
  IsUsed-before m slots i h (omega arith) u,
)

-- Writing a slot in use behind slots in use.
pub set-IsIndex :
    (m : ℕ) (slots : List Slot) (i : ℕ) (s : Slot)
    → IsIndex m slots
    → All IsUsed (take i slots)
    → s.page_elements_available ≤ m
    → IsUsed s
    → IsIndex m (set slots i s)
set-IsIndex m [] i s h before room used = tt
set-IsIndex m (x ∷ slots) zero s (a, p, h) before room used =
    (room, (λ free. absurd (omega arith)), h)
set-IsIndex m (x ∷ slots) (suc i) s (a, p, h) (u, before) room used =
    (a, (λ free. absurd (omega arith)), set-IsIndex m slots i s h before room used)

-- All slots from the place on are free.
abbrev pub AllFreeFrom : ℕ → List Slot → Type 0
AllFreeFrom i [] = Unit {0}
AllFreeFrom zero (s ∷ slots) = IsUnused s × AllFreeFrom zero slots
AllFreeFrom (suc i) (s ∷ slots) = AllFreeFrom i slots

-- Clearing the last slot in use.
pub clear-IsIndex :
    (m : ℕ) (slots : List Slot) (i : ℕ) (old : Slot)
    → IsIndex m slots
    → AllFreeFrom (suc i) slots
    → IsIndex m (set slots i (clear_index_record_full m old))
      × AllFreeFrom i (set slots i (clear_index_record_full m old))
clear-IsIndex m [] i old h free = (tt, tt)
clear-IsIndex m (s ∷ slots) zero old (a, p, h) free =
    ((omega arith, (λ e. all_free slots free), h), (refl, free))
  where
    all_free : (slots : List Slot) → AllFreeFrom zero slots → All IsUnused slots
    all_free [] f = tt
    all_free (s ∷ slots) (f, fs) = (f, all_free slots fs)
clear-IsIndex m (s ∷ slots) (suc i) old (a, p, h) free =
    let (kept, rest) = clear-IsIndex m slots i old h free in
    ((a, (λ e. still_free slots i (p e)), kept), rest)
  where
    still_free :
        (slots : List Slot) (i : ℕ)
        → All IsUnused slots
        → All IsUnused (set slots i (clear_index_record_full m old))
    still_free [] i f = tt
    still_free (x ∷ slots) zero (f, fs) = (refl, fs)
    still_free (x ∷ slots) (suc i) (f, fs) = (f, still_free slots i fs)
