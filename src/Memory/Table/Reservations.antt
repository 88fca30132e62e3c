-- ===== src/Memory/Table/Reservations.antt =====
-- The whole step of addRecord on the index, from the search to the new expiry.
use mathlib.Core.Path.{subst}
use deals_server.Prelude.{
  ℕ, zero, suc, [], ◌∷◌, length, take, ◌+◌, ◌-◌, ◌%◌, ◌≤◌, ◌<◌, ◌≡◌, refl, sym, ap, ◌⊎◌, inl, inr,
  Bool, true, List, none, some, Text, get_or, All, arith,
}
use deals_server.Utils.Calendar.{u32}
use deals_server.Memory.Index.{
  PageType, oldest, new_page, unknown, Slot, no_slot, Choice, choose_page, or_oldest, raise_to,
  page_name_of, prepare, lifetime, Reserved, reserved_with, reserve_at, global_after,
}
use deals_server.Memory.Index.Choices.{IsFull, IsChoice, choose_page-IsChoice}
use deals_server.Memory.Index.Oldest.{choose_page-oldest, choose_page-first}
use deals_server.Memory.Index.Validity.{IsIndex, IsUsed, All-map}
use deals_server.Memory.Index.Reserving.{IsReserved, reserve_at-IsReserved, choice-IsPlace}
use deals_server.Memory.Table.{Settings, World, capacity, reserve}

-- The search's choice, with memory low or not.
abbrev pub chosen : World → ℕ → List Slot → Choice
chosen w count slots = or_oldest w.mem_low (choose_page w.now count slots 0 (u32 - 1) 0)

no_place :
    (m count expire_time g : ℕ) (name : Text) (c : Choice) (slots : List Slot)
    → c.kind ≡ unknown
    → reserve_at m name expire_time count c slots g ≡ none
unfolding reserve_at
no_place m count expire_time g name c slots e =
    ap
      (λ k.
        reserved_with m name expire_time count c.at slots g
          (prepare m (page_name_of name c.at) k (get_or slots c.at no_slot)))
      e

-- The later of two times.
abbrev pub IsLater : ℕ → ℕ → ℕ → Type 0
IsLater a b c = (a ≤ c) × (b ≤ c) × ((c ≡ a) ⊎ (c ≡ b))

raise_to-IsLater : (v g : ℕ) → IsLater v g (raise_to v g)
raise_to-IsLater v g = ground arith

-- The global expiry where the choice is evicted.
raised :
    (k : PageType) (at g : ℕ) (slots : List Slot)
    → k ≡ oldest
    → IsLater (get_or slots at no_slot).expire_at g (global_after k at slots g)
raised k at g slots e =
    subst (λ k. IsLater (get_or slots at no_slot).expire_at g (global_after k at slots g)) (sym e)
      (raise_to-IsLater (get_or slots at no_slot).expire_at g)

taken :
    (slots : List Slot) (n i : ℕ)
    → All IsUsed (take n slots)
    → i < n
    → i < length slots
    → 0 < (get_or slots i no_slot).expire_at
taken [] n i all lt inside = absurd (omega arith)
taken (s ∷ slots) zero i all lt inside = absurd (omega arith)
taken (s ∷ slots) (suc n) zero (u, all) lt inside = u
taken (s ∷ slots) (suc n) (suc i) (u, all) lt inside =
    taken slots n i all (omega arith) (omega arith)

-- Where the search ends at an unused slot, the page of least expiry in front of it is in use.
oldest_used :
    (now count : ℕ) (slots : List Slot)
    → (choose_page now count slots 0 (u32 - 1) 0).kind ≡ new_page
    → ((choose_page now count slots 0 (u32 - 1) 0).at ≡ 0)
      ⊎ (0
          < (get_or slots
              (choose_page now count slots 0 (u32 - 1) 0).expire_min_idx
              no_slot).expire_at)
oldest_used now count slots kind =
    let c = choose_page now count slots 0 (u32 - 1) 0 in
    let (i, e, choice) = choose_page-IsChoice now count slots 0 (u32 - 1) 0 in
    let here : i ≡ c.at = omega (arith, e) in
    let (all, lt, free) : IsChoice now count slots new_page c.at =
      subst (λ k. IsChoice now count slots k c.at) kind
        (subst (IsChoice now count slots c.kind) here choice) in
    elim (choose_page-first now count slots (u32 - 1) kind) [
      | inl first ↦ inl first
      | inr before ↦ inr (
          taken slots c.at c.expire_min_idx (All-map (take c.at slots) (λ s f. f.used) all) before
            (omega arith))
    ]

evicts :
    (c : Choice) (low : Bool)
    → c.kind ≡ new_page
    → low ≡ true
    → ((or_oldest low c).at ≡ c.expire_min_idx) × ((or_oldest low c).kind ≡ oldest)
evicts c low kind e = rw (kind, e) (refl, refl)

module _ {ℓ} {E : Type ℓ} where
  abbrev pub expire_of : Settings E → World → ℕ → ℕ
  expire_of st w lifetime_seconds =
      (w.now + lifetime st.record_expire_seconds lifetime_seconds) % u32

  pub reserve-IsReserved :
      (st : Settings E) (w : World) (count lifetime_seconds g : ℕ) (slots : List Slot)
      → IsIndex (capacity st) slots
      → capacity st < u32
      → count ≤ capacity st
      → 0 < expire_of st w lifetime_seconds
      → (All (IsFull w.now count) slots
          × ((chosen w count slots).kind ≡ unknown)
          × (reserve st w count lifetime_seconds slots g ≡ none))
        ⊎ ((r : Reserved) × (reserve st w count lifetime_seconds slots g ≡ some r)
            × IsReserved
                (capacity st)
                count
                (expire_of st w lifetime_seconds)
                st.table_name
                slots
                (chosen w count slots).kind
                (chosen w count slots).at
                r
            × (r.global_expire_at
                ≡ global_after (chosen w count slots).kind (chosen w count slots).at slots g))
  unfolding reserve
  reserve-IsReserved st w count lifetime_seconds g slots valid small le positive =
      let c = or_oldest w.mem_low (choose_page w.now count slots 0 (u32 - 1) 0) in
      elim (choice-IsPlace (capacity st) w.now count slots valid w.mem_low) [
        | inl (full, kind) ↦ inl (
          full,
          kind,
          no_place (capacity st) count (expire_of st w lifetime_seconds)
              (global_after c.kind c.at slots g) st.table_name c slots kind,
        )
        | inr (place, known) ↦
            let (r, e, is, same) =
              reserve_at-IsReserved (capacity st) count (expire_of st w lifetime_seconds)
                st.table_name slots small valid positive c (global_after c.kind c.at slots g) le
                place known in
            inr (r, e, is, same)
      ]

  -- Where the search of a valid index ends at an unused slot and memory is low: there is a reservation
  -- as above in place of it, at the beginning of its page, in a slot that expires no later than any in
  -- front of the unused one, and is in use unless that one is the first; the global expiry is raised to
  -- this slot's expiry, or stays where it is later.
  pub reserve-oldest :
      (st : Settings E) (w : World) (count lifetime_seconds g : ℕ) (slots : List Slot)
      → IsIndex (capacity st) slots
      → capacity st < u32
      → count ≤ capacity st
      → 0 < expire_of st w lifetime_seconds
      → ((k : ℕ) → (get_or slots k no_slot).expire_at < u32)
      → w.mem_low ≡ true
      → (choose_page w.now count slots 0 (u32 - 1) 0).kind ≡ new_page
      → let at = (choose_page w.now count slots 0 (u32 - 1) 0).expire_min_idx in
        let end = (choose_page w.now count slots 0 (u32 - 1) 0).at in
        (r : Reserved) × (reserve st w count lifetime_seconds slots g ≡ some r)
        × IsReserved
            (capacity st)
            count
            (expire_of st w lifetime_seconds)
            st.table_name
            slots
            oldest
            at
            r
        × (r.insert_element_idx ≡ 0)
        × ((end ≡ 0) ⊎ (0 < (get_or slots at no_slot).expire_at))
        × ((k : ℕ)
            → k < end
            → (get_or slots at no_slot).expire_at ≤ (get_or slots k no_slot).expire_at)
        × IsLater (get_or slots at no_slot).expire_at g r.global_expire_at
  reserve-oldest st w count lifetime_seconds g slots valid small le positive bounded low kind =
      let c = choose_page w.now count slots 0 (u32 - 1) 0 in
      let expire : ℕ → ℕ = λ k. (get_or slots k no_slot).expire_at in
      let (at, eviction) = evicts c w.mem_low kind low in
      let Reserves : PageType → ℕ → Reserved → Type 0 =
        IsReserved (capacity st) count (expire_of st w lifetime_seconds) st.table_name slots in
      elim (reserve-IsReserved st w count lifetime_seconds g slots valid small le positive) [
        | inl (full, none_left, e) ↦ absurd (cc (eviction, none_left))
        | inr (r, e, is, same) ↦
            let evicted : Reserves oldest c.expire_min_idx r =
              subst (λ i. Reserves oldest i r) at
                (subst (λ k. Reserves k (chosen w count slots).at r) eviction is) in
            (
              r,
              e,
              evicted,
              elim evicted.fresh [
                | inl (filled, room, rest) ↦ absurd (cc filled)
                | inr (emptied, start) ↦ start
              ],
              oldest_used w.now count slots kind,
              choose_page-oldest expire w.now count slots 0 (u32 - 1) 0
                  (λ k lt. ap expire (omega arith)) (λ k lt. absurd (omega arith))
                  (let b = bounded 0 in omega arith) kind,
              subst (λ i. IsLater (expire i) g r.global_expire_at) at
                  (subst (IsLater (expire (chosen w count slots).at) g) (sym same) (
                    raised (chosen w count slots).kind (chosen w count slots).at g slots eviction)),
            )
      ]
