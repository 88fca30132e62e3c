-- ===== src/Memory/Index/Choices.antt =====
-- Which page addRecord inserts at.
use deals_server.Prelude.{
  ℕ, suc, ◌+◌, ◌≤◌, ◌<◌, ◌≡◌, refl, ap, inl, inr, true, false, ◌&&◌, List, [], ◌∷◌, ltb, leb, ◌==◌,
  ==_iff, if◌then◌else◌, length, get_or, take, All, arith, Bool-cases,
}
use deals_server.Memory.Index.{
  PageType, expired, oldest, new_page, current, unknown, Slot, no_slot, choose_page, is_earlier,
}

-- A page in use that has no room.
pub record IsFull (current_time records_count : ℕ) (s : Slot) : Type 0 where
  pub used : 0 < s.expire_at
  pub lives : current_time ≤ s.expire_at
  pub small : s.page_elements_available < records_count

-- What the page that is chosen has, by the kind of the choice.
abbrev pub Suits : ℕ → ℕ → PageType → Slot → Type 0
Suits current_time records_count expired s = (0 < s.expire_at) × (s.expire_at < current_time)
Suits current_time records_count current s =
    (0 < s.expire_at) × (current_time ≤ s.expire_at) × (records_count ≤ s.page_elements_available)
Suits current_time records_count new_page s = s.expire_at ≡ 0
Suits current_time records_count oldest s = ⊥
Suits current_time records_count unknown s = ⊥

-- The choice at place i: the first page that is not full; `unknown` is that there is none.
abbrev pub IsChoice : ℕ → ℕ → List Slot → PageType → ℕ → Type 0
IsChoice current_time records_count slots unknown i =
    All (IsFull current_time records_count) slots × (i ≡ length slots)
IsChoice current_time records_count slots expired i =
    All (IsFull current_time records_count) (take i slots)
    × (i < length slots)
    × Suits current_time records_count expired (get_or slots i no_slot)
IsChoice current_time records_count slots current i =
    All (IsFull current_time records_count) (take i slots)
    × (i < length slots)
    × Suits current_time records_count current (get_or slots i no_slot)
IsChoice current_time records_count slots new_page i =
    All (IsFull current_time records_count) (take i slots)
    × (i < length slots)
    × Suits current_time records_count new_page (get_or slots i no_slot)
IsChoice current_time records_count slots oldest i = ⊥

IsChoice-cons :
    (now count : ℕ) (s : Slot) (slots : List Slot) (k : PageType) (i : ℕ)
    → IsFull now count s
    → IsChoice now count slots k i
    → IsChoice now count (s ∷ slots) k (suc i)
IsChoice-cons now count s slots unknown i f (all, e) = ((f, all), ap suc e)
IsChoice-cons now count s slots expired i f (all, lt, p) = ((f, all), omega arith, p)
IsChoice-cons now count s slots current i f (all, lt, p) = ((f, all), omega arith, p)
IsChoice-cons now count s slots new_page i f (all, lt, p) = ((f, all), omega arith, p)
IsChoice-cons now count s slots oldest i f p = absurd p

is_expired : (e now : ℕ) → (ltb 0 e && ltb e now) ≡ true → (0 < e) × (e < now)
is_expired e now h = ground arith

fits :
    (e now n a : ℕ)
    → (ltb 0 e && ltb e now) ≡ false
    → (ltb 0 e && leb n a) ≡ true
    → (0 < e) × (now ≤ e) × (n ≤ a)
fits e now n a h k = ground arith

is_full :
    (e now n a : ℕ)
    → (ltb 0 e && ltb e now) ≡ false
    → (ltb 0 e && leb n a) ≡ false
    → (e == 0) ≡ false
    → (0 < e) × (now ≤ e) × (a < n)
is_full e now n a h k z = ground arith

pub choose_page-IsChoice :
    (now count : ℕ) (slots : List Slot) (idx low low_idx : ℕ)
    → (i : ℕ) × ((choose_page now count slots idx low low_idx).at ≡ idx + i)
      × IsChoice now count slots (choose_page now count slots idx low low_idx).kind i
unfolding choose_page
choose_page-IsChoice now count [] idx low low_idx = (0, omega arith, (tt, refl))
choose_page-IsChoice now count (s ∷ slots) idx low low_idx =
    elim (Bool-cases (ltb 0 s.expire_at && ltb s.expire_at now)) [
      | inl gone ↦ rw gone (0, omega arith, (tt, omega arith, is_expired s.expire_at now gone))
      | inr lives ↦ elim (Bool-cases (ltb 0 s.expire_at && leb count s.page_elements_available)) [
        | inl room ↦
            rw (lives, room)
              (
                0,
                omega arith,
                (tt, omega arith, fits s.expire_at now count s.page_elements_available lives room),
              )
        | inr full ↦ elim (Bool-cases (s.expire_at == 0)) [
          | inl free ↦
              rw (lives, full, free)
                (0, omega arith, (tt, omega arith, (==_iff s.expire_at 0).0 free))
          | inr in_use ↦
              let (i, e, c) =
                choose_page-IsChoice now count slots (suc idx)
                  (if is_earlier s low then s.expire_at else low)
                  (if is_earlier s low then idx else low_idx) in
              let (u, l, m) =
                is_full s.expire_at now count s.page_elements_available lives full in_use in
              rw (lives, full, in_use)
                (
                  suc i,
                  omega (arith, e),
                  IsChoice-cons now count s slots _ i record { used = u; lives = l; small = m } c,
                )
        ]
      ]
    ]
