-- ===== src/Memory/Index/Reserving.antt =====
-- What addRecord does to the index.
use mathlib.Core.Path.{subst}
use deals_server.Prelude.{
  ℕ, zero, suc, ◌+◌, ◌-◌, ◌≢◌, ◌≤◌, ◌<◌, ◌≡◌, refl, ap, ◌⊎◌, inl, inr, Bool, true, false, ◌&&◌,
  List, [], ◌∷◌, some, ltb, leb, ◌==◌, if◌then◌else◌, Text, length, get_or, set, take, All, arith,
  Bool-cases, get_or-set_self,
}
use deals_server.Utils.Calendar.{u32, sub_u32}
use deals_server.Memory.Index.{
  PageType, expired, oldest, new_page, current, unknown, Slot, no_slot, Choice, choose_page,
  is_earlier, or_oldest, prepare, clear_index_record, copy_name, page_name_of, update_record_expire,
  take_elements, Reserved, reserved_with, reserve_at,
}
use deals_server.Memory.Index.Choices.{IsFull, IsChoice, choose_page-IsChoice}
use deals_server.Memory.Index.Validity.{IsUsed, IsIndex, All-map, available-le, set-IsIndex}

sub_u32_lem : (m a : ℕ) → a ≤ m → m < u32 → sub_u32 m a + a ≡ m
sub_u32_lem m a h k = omega arith

-- The slot that is written, from one that has room for the records.
module _ (m count expire_time : ℕ) (s : Slot) (small : m < u32)
    (room : s.page_elements_available ≤ m) (fits : count ≤ s.page_elements_available) where
  abbrev written : Slot
  written = update_record_expire expire_time (take_elements count s)

  written-available : written.page_elements_available + count ≡ s.page_elements_available
  written-available = elim (Bool-cases (ltb s.expire_at expire_time)) [
    | inl later ↦ rw later (sub_u32_lem s.page_elements_available count fits (omega arith))
    | inr sooner ↦ rw sooner (sub_u32_lem s.page_elements_available count fits (omega arith))
  ]

  written-expire : expire_time ≤ written.expire_at
  written-expire = elim (Bool-cases (ltb s.expire_at expire_time)) [
    | inl later ↦ rw later (omega arith)
    | inr sooner ↦ rw sooner (ground arith)
  ]

-- The room that the switch leaves, of the room that the slot had: that of a page in use that is
-- filled further stays, any other page is made empty.
abbrev pub IsRoom : ℕ → PageType → ℕ → ℕ → Type 0
IsRoom m k before after = ((k ≡ current) × (after ≡ before)) ⊎ ((k ≢ current) × (after ≡ m))

-- The slot that the switch leaves.
prepared :
    (m count : ℕ) (name : Text) (k : PageType) (s : Slot)
    → k ≢ unknown
    → count ≤ m
    → (k ≡ current → count ≤ s.page_elements_available)
    → s.page_elements_available ≤ m
    → (p : Slot) × (prepare m name k s ≡ some p)
      × (p.page_elements_available ≤ m)
      × (count ≤ p.page_elements_available)
      × IsRoom m k s.page_elements_available p.page_elements_available
prepared m count name expired s known le fits room =
    (clear_index_record m s, refl, omega arith, le, inr ((λ e. absurd (cc e)), refl))
prepared m count name oldest s known le fits room =
    (clear_index_record m s, refl, omega arith, le, inr ((λ e. absurd (cc e)), refl))
prepared m count name new_page s known le fits room = (
  clear_index_record m (record s { page_name = copy_name name s.page_name }),
  refl,
  omega arith,
  le,
  inr ((λ e. absurd (cc e)), refl),
)
prepared m count name current s known le fits room = (s, refl, room, fits refl, inl (refl, refl))
prepared m count name unknown s known le fits room = absurd (known refl)

-- The choice is a slot of the index behind slots in use, which has room once it is prepared.
pub record IsPlace (m count : ℕ) (slots : List Slot) (c : Choice) : Type 0 where
  pub inside : c.at < length slots
  pub behind : All IsUsed (take c.at slots)
  pub fits : c.kind ≡ current → count ≤ (get_or slots c.at no_slot).page_elements_available

-- What a reservation in a page of kind k is: the records have their places in the page, in front of
-- what stays available; in a page that is filled further, which has room for them, they start where
-- it was filled up to, and in any other at its beginning; no other slot changes, and the slot lives up
-- to the records' expiry.
pub record IsReserved (m count expire_time : ℕ) (table_name : Text) (slots : List Slot)
    (k : PageType) (at : ℕ) (r : Reserved) : Type 0 where
  pub inside : at < length slots
  pub named : r.insert_page_name ≡ page_name_of table_name at
  pub within :
      r.insert_element_idx + count + (get_or r.index at no_slot).page_elements_available ≡ m
  pub fresh :
      ((k ≡ current)
        × (count ≤ (get_or slots at no_slot).page_elements_available)
        × (r.insert_element_idx + (get_or slots at no_slot).page_elements_available ≡ m))
      ⊎ ((k ≢ current) × (r.insert_element_idx ≡ 0))
  pub others : r.index ≡ set slots at (get_or r.index at no_slot)
  pub lives : expire_time ≤ (get_or r.index at no_slot).expire_at
  pub valid : IsIndex m r.index

module _ (m count expire_time : ℕ) (table_name : Text) (slots : List Slot) (small : m < u32)
    (valid : IsIndex m slots) (positive : 0 < expire_time) where
  from_slot :
      (k : PageType) (at g : ℕ) (s : Slot)
      → at < length slots
      → All IsUsed (take at slots)
      → s.page_elements_available ≤ m
      → count ≤ s.page_elements_available
      → IsRoom m k (get_or slots at no_slot).page_elements_available s.page_elements_available
      → IsReserved m count expire_time table_name slots k at (record {
        insert_page_name = page_name_of table_name at;
        insert_element_idx = sub_u32 m s.page_elements_available;
        index = set slots at (update_record_expire expire_time (take_elements count s));
        global_expire_at = g;
      })
  from_slot k at g s inside behind room fits origin =
      let w = update_record_expire expire_time (take_elements count s) in
      let e : get_or (set slots at w) at no_slot ≡ w = get_or-set_self slots at w no_slot inside in
      let left = written-available m count expire_time s small room fits in
      let start = sub_u32_lem m s.page_elements_available room small in
      let late = written-expire m count expire_time s small room fits in
      record {
        inside = inside;
        named = refl;
        within = rw e (omega (arith, left, start));
        fresh = elim origin [
          | inl (kind, same) ↦ inl (kind, omega (arith, fits, same), omega (arith, start, same))
          | inr (kind, whole) ↦ inr (kind, omega (arith, start, whole))
        ];
        others = rw e refl;
        lives = rw e late;
        valid =
            set-IsIndex m slots at w valid behind (omega (arith, left))
              (omega (arith, late, positive));
      }

  pub reserve_at-IsReserved :
      (c : Choice) (g : ℕ)
      → count ≤ m
      → IsPlace m count slots c
      → c.kind ≢ unknown
      → (r : Reserved) × (reserve_at m table_name expire_time count c slots g ≡ some r)
        × IsReserved m count expire_time table_name slots c.kind c.at r
        × (r.global_expire_at ≡ g)
  unfolding reserve_at
  reserve_at-IsReserved c g le p known =
      let old = get_or slots c.at no_slot in
      let (s, e, room, fits, origin) =
        prepared m count (page_name_of table_name c.at) c.kind old known le p.fits
          (available-le m slots c.at valid p.inside) in
      (
        record {
          insert_page_name = page_name_of table_name c.at;
          insert_element_idx = sub_u32 m s.page_elements_available;
          index = set slots c.at (update_record_expire expire_time (take_elements count s));
          global_expire_at = g;
        },
        ap (reserved_with m table_name expire_time count c.at slots g) e,
        from_slot c.kind c.at g s p.inside p.behind room fits origin,
        refl,
      )

-- The page of least expiry stands at or in front of the end of the search.
choose_page-min-le :
    (now count : ℕ) (slots : List Slot) (idx low low_idx : ℕ)
    → low_idx ≤ idx
    → (choose_page now count slots idx low low_idx).expire_min_idx
      ≤ (choose_page now count slots idx low low_idx).at
unfolding choose_page
choose_page-min-le now count [] idx low low_idx h = h
choose_page-min-le now count (s ∷ slots) idx low low_idx h =
    let here : (if is_earlier s low then idx else low_idx) ≤ idx = bounded (is_earlier s low) in
    elim (Bool-cases (ltb 0 s.expire_at && ltb s.expire_at now)) [
      | inl gone ↦ rw gone here
      | inr lives ↦ elim (Bool-cases (ltb 0 s.expire_at && leb count s.page_elements_available)) [
        | inl room ↦ rw (lives, room) here
        | inr full ↦ elim (Bool-cases (s.expire_at == 0)) [
          | inl free ↦ rw (lives, full, free) here
          | inr in_use ↦
              rw (lives, full, in_use)
                (choose_page-min-le now count slots (suc idx)
                  (if is_earlier s low then s.expire_at else low)
                  (if is_earlier s low then idx else low_idx) (omega arith))
        ]
      ]
    ]
  where
    bounded : (b : Bool) → (if b then idx else low_idx) ≤ idx
    bounded true = omega arith
    bounded false = h

take-All :
    (slots : List Slot) (i j : ℕ) → j ≤ i → All IsUsed (take i slots) → All IsUsed (take j slots)
take-All slots i zero h all = tt
take-All [] zero (suc j) h all = absurd (omega arith)
take-All [] (suc i) (suc j) h all = tt
take-All (s ∷ slots) zero (suc j) h all = absurd (omega arith)
take-All (s ∷ slots) (suc i) (suc j) h (u, all) = (u, take-All slots i j (omega arith) all)

-- The choice, with memory low or not.
module _ (m now count : ℕ) (slots : List Slot) (valid : IsIndex m slots) where
  abbrev Placed : Choice → Type 0
  Placed c =
      (All (IsFull now count) slots × (c.kind ≡ unknown))
      ⊎ (IsPlace m count slots c × (c.kind ≢ unknown))

  IsUsed-front : (at : ℕ) → All (IsFull now count) (take at slots) → All IsUsed (take at slots)
  IsUsed-front at all = All-map (take at slots) (λ s f. f.used) all

  placed :
      (k : PageType) (at min_idx : ℕ) (low : Bool)
      → IsChoice now count slots k at
      → min_idx ≤ at
      → Placed (or_oldest low (record { kind = k; at = at; expire_min_idx = min_idx }))
  placed unknown at min_idx low (all, e) le = inl (all, refl)
  placed oldest at min_idx low h le = absurd h
  placed expired at min_idx low (all, lt, gone) le = inr (
    record { inside = lt; behind = IsUsed-front at all; fits = λ e. absurd (cc e) },
    (λ e. absurd (cc e)),
  )
  placed current at min_idx low (all, lt, (used, lives, room)) le =
      inr (
        record { inside = lt; behind = IsUsed-front at all; fits = λ e. room },
        (λ e. absurd (cc e)),
      )
  placed new_page at min_idx false (all, lt, free) le = inr (
    record { inside = lt; behind = IsUsed-front at all; fits = λ e. absurd (cc e) },
    (λ e. absurd (cc e)),
  )
  placed new_page at min_idx true (all, lt, free) le = inr (
    record {
      inside = omega arith;
      behind = take-All slots at min_idx le (IsUsed-front at all);
      fits = λ e. absurd (cc e);
    },
    (λ e. absurd (cc e)),
  )

  pub choice-IsPlace :
      (low : Bool) → Placed (or_oldest low (choose_page now count slots 0 (u32 - 1) 0))
  choice-IsPlace low =
      let c = choose_page now count slots 0 (u32 - 1) 0 in
      let (i, e, chosen) = choose_page-IsChoice now count slots 0 (u32 - 1) 0 in
      let here : i ≡ c.at = omega (arith, e) in
      placed c.kind c.at c.expire_min_idx low (subst (IsChoice now count slots c.kind) here chosen)
        (choose_page-min-le now count slots 0 (u32 - 1) 0 (omega arith))
