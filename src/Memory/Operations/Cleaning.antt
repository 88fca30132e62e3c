-- ===== src/Memory/Operations/Cleaning.antt =====
-- cleanup, and what it leaves of the index.
use deals_server.Prelude.{
  ℕ, zero, suc, ◌+◌, ◌≤◌, ◌≡◌, refl, sym, ap, ◌∙◌, inl, inr, List, [], ◌∷◌, ltb, length, get_or,
  set, length-set, All, arith, Bool-cases,
}
use mathlib.Core.Path.{subst}
use deals_server.Memory.Index.{Slot, no_slot, clear_index_record_full}
use deals_server.Memory.Index.Validity.{IsIndex, IsUnused}
use deals_server.Memory.Table.{locked, Settings, Table, World, capacity, remove_page}
use deals_server.Memory.Table.Maintenance.{
  Ends, locked-Ends, after-Ends, Ends-weaken, remove_page-Ends,
}
use deals_server.Memory.Operations.{clean_pages, cleanup}

-- The slots in front of the place are cleared, the others are valid.
abbrev IsCleaned : ℕ → ℕ → List Slot → Type 0
IsCleaned m zero slots = IsIndex m slots
IsCleaned m (suc i) [] = Unit {0}
IsCleaned m (suc i) (s ∷ slots) = IsUnused s × (s.page_elements_available ≤ m) × IsCleaned m i slots

abbrev pub IsEmpty : ℕ → List Slot → Type 0
IsEmpty m slots = All IsUnused slots × IsIndex m slots

clear-IsCleaned :
    (m i : ℕ) (slots : List Slot)
    → IsCleaned m i slots
    → IsCleaned m (suc i) (set slots i (clear_index_record_full m no_slot))
clear-IsCleaned m zero [] h = tt
clear-IsCleaned m zero (s ∷ slots) (a, p, h) = (refl, omega arith, h)
clear-IsCleaned m (suc i) [] h = tt
clear-IsCleaned m (suc i) (s ∷ slots) (u, a, h) = (u, a, clear-IsCleaned m i slots h)

-- At an unused slot, or behind the last, nothing is left to clean.
cleaned-IsEmpty :
    (m i : ℕ) (slots : List Slot)
    → IsCleaned m i slots
    → IsUnused (get_or slots i no_slot)
    → IsEmpty m slots
cleaned-IsEmpty m zero [] h u = (tt, tt)
cleaned-IsEmpty m zero (s ∷ slots) (a, p, h) u = ((u, p u), (a, p, h))
cleaned-IsEmpty m (suc i) [] h u = (tt, tt)
cleaned-IsEmpty m (suc i) (s ∷ slots) (v, a, h) u =
    let (all, valid) = cleaned-IsEmpty m i slots h u in ((v, all), (a, (λ e. all), valid))

behind_last : (slots : List Slot) (i : ℕ) → i ≡ length slots → IsUnused (get_or slots i no_slot)
behind_last [] i e = refl
behind_last (s ∷ slots) zero e = absurd (omega arith)
behind_last (s ∷ slots) (suc i) e = behind_last slots i (omega arith)

module _ {ℓ} {E : Type ℓ} (st : Settings E) (w : World) where
  -- The index has as many slots as the table has pages.
  abbrev Cleaning : ℕ → ℕ → Table E → Type 0
  Cleaning left idx t =
      IsCleaned (capacity st) idx t.index
      × (idx + left ≡ st.table_max_pages)
      × (length t.index ≡ st.table_max_pages)

  abbrev pub Cleaned : Table E → Type 0
  Cleaned u = IsEmpty (capacity st) u.index × (length u.index ≡ st.table_max_pages)

  next_step :
      (left idx : ℕ) (t u : Table E)
      → Cleaning (suc left) idx t
      → u.index
        ≡ set t.index idx (clear_index_record_full (capacity st) (get_or t.index idx no_slot))
      → Cleaning left (suc idx) u
  next_step left idx t u (cleaned, sum, len) e = (
    subst (λ slots. IsCleaned (capacity st) (suc idx) slots) (sym e)
        (clear-IsCleaned (capacity st) idx t.index cleaned),
    omega arith,
    ap length e ∙ (length-set t.index idx (clear_index_record_full (capacity st) no_slot) ∙ len),
  )

  clean_pages-Ends :
      (left idx : ℕ) (t : Table E)
      → Cleaning left idx t
      → Ends Cleaned (λ u. Unit {0}) (clean_pages st w left idx t)
  unfolding clean_pages
  clean_pages-Ends zero idx t (cleaned, sum, len) = (
    cleaned-IsEmpty (capacity st) idx t.index cleaned (behind_last t.index idx (omega arith)),
    len,
  )
  clean_pages-Ends (suc left) idx t (cleaned, sum, len) =
      elim (Bool-cases (ltb 0 (get_or t.index idx no_slot).expire_at)) [
        | inr free ↦ rw free (cleaned-IsEmpty (capacity st) idx t.index cleaned (ground arith), len)
        | inl used ↦ rw used (
            after-Ends Cleaned (λ u. Unit {0}) (remove_page st w idx t)
              (clean_pages st w left (suc idx))
              (Ends-weaken (Cleaning left (suc idx)) (λ u. Unit {0}) (remove_page st w idx t)
                (remove_page-Ends st w idx t) (λ u e. next_step left idx t u (cleaned, sum, len) e)
                (λ u e. tt))
              (λ u h. clean_pages-Ends left (suc idx) u h))
      ]

  -- A cleanup of a valid index, with as many slots as the table has pages, that returns leaves every
  -- slot unused, also those whose pages were not expired, the index valid, and its length.
  pub cleanup-IsEmpty :
      (t : Table E)
      → IsIndex (capacity st) t.index
      → length t.index ≡ st.table_max_pages
      → Ends Cleaned (λ u. Unit {0}) (cleanup st w t)
  unfolding cleanup
  cleanup-IsEmpty t valid len =
      after-Ends Cleaned (λ u. Unit {0}) (locked w.enters (clean_pages st w st.table_max_pages 0) t)
        _
        (locked-Ends Cleaned (λ u. Unit {0}) w.enters (clean_pages st w st.table_max_pages 0) t
          (clean_pages-Ends st.table_max_pages 0 t (valid, omega arith, len)) tt)
        (λ u h. h)
