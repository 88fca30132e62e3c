-- ===== src/Utils/Days/Names.antt =====
-- The names, the indices and the bits of the weekdays.
use deals_server.Prelude.{
  ℕ, zero, suc, ◌≤◌, ◌+◌, ◌≢◌, ap, some, All, get_elem?, length, ◌<◌, ◌^◌, ◌≡◌, refl, ◌⊎◌, inl, inr,
  List, [], ◌∷◌, arith, Text, text_eq, text_eq_iff, Bool-cases,
}
use native.Mathlib.Nat.{zero-add}
use deals_server.Utils.Strings.{to_lower_case}
use deals_server.Utils.Days.{
  day_names, search_days, day_of_week_from_str, day_of_week_bitmask_from_str,
  day_of_week_str_from_bitmask,
}

-- What the search answers: an index where the text stands, or 7 where it stands nowhere.
search_days_cases :
    (w : Text) (names : List Text) (i : ℕ)
    → ((search_days w names i ≡ 7) × All (λ name. name ≢ w) names)
      ⊎ ((k : ℕ) × (search_days w names i ≡ i + k) × (get_elem? names k ≡ some w))
unfolding search_days
search_days_cases w [] i = inl (refl, tt)
search_days_cases w (name ∷ names) i = elim (Bool-cases (text_eq name w)) [
  | inl same ↦ inr (0, rw same (omega arith), ap some ((text_eq_iff name w).0 same))
  | inr other ↦ elim (search_days_cases w names (suc i)) [
    | inl (none_here, differ) ↦
        inl (rw other none_here, ((λ e. absurd (ground (arith, text_eq_iff name w, e))), differ))
    | inr (k, found, at_k) ↦ inr (suc k, rw other (omega (arith, found)), at_k)
  ]
]

-- The bit of each entry is named by the entry.
days_bit :
    (k : ℕ) (w : Text)
    → get_elem? day_names k ≡ some w
    → (2 ^ k ≤ 64) × (day_of_week_str_from_bitmask (2 ^ k) ≡ w)
unfolding day_of_week_str_from_bitmask
days_bit zero w e = (omega arith, cc)
days_bit (suc zero) w e = (omega arith, cc)
days_bit (suc (suc zero)) w e = (omega arith, cc)
days_bit (suc (suc (suc zero))) w e = (omega arith, cc)
days_bit (suc (suc (suc (suc zero)))) w e = (omega arith, cc)
days_bit (suc (suc (suc (suc (suc zero))))) w e = (omega arith, cc)
days_bit (suc (suc (suc (suc (suc (suc zero)))))) w e = (omega arith, cc)
days_bit (suc (suc (suc (suc (suc (suc (suc k))))))) w e = absurd (ground arith)

-- From a name to its bit and back: a weekday's name, in any case, gives a bit up to 64 that is named
-- by it in lower case; any other text gives the bit 128, which has no name.
pub day_of_week_str_from_bitmask-from_str :
    (s : Text)
    → ((day_of_week_bitmask_from_str s ≤ 64)
        × (day_of_week_str_from_bitmask (day_of_week_bitmask_from_str s) ≡ to_lower_case s))
      ⊎ ((day_of_week_bitmask_from_str s ≡ 128)
          × (day_of_week_str_from_bitmask (day_of_week_bitmask_from_str s) ≡ [])
          × All (λ name. name ≢ to_lower_case s) day_names)
unfolding day_of_week_bitmask_from_str day_of_week_from_str day_of_week_str_from_bitmask
day_of_week_str_from_bitmask-from_str s = elim (search_days_cases (to_lower_case s) day_names 0) [
  | inl (seven, differ) ↦ inr (rw seven, rw seven, differ)
  | inr (k, found, at_k) ↦
      let (low, named) = days_bit k (to_lower_case s) at_k in
      inl (rw (found, zero-add) low, rw (found, zero-add) named)
]

get_elem?-lt {ℓ} :
    {A : Type ℓ} (xs : List A) (k : ℕ) (x : A) → get_elem? xs k ≡ some x → k < length xs
get_elem?-lt [] k x e = absurd (ground arith)
get_elem?-lt (y ∷ xs) zero x e = omega arith
get_elem?-lt (y ∷ xs) (suc k) x e = omega (arith, get_elem?-lt xs k x e)

-- The index of a text is that of a weekday, or 7.
pub day_of_week_from_str-le : (s : Text) → day_of_week_from_str s ≤ 7
unfolding day_of_week_from_str
day_of_week_from_str-le s = elim (search_days_cases (to_lower_case s) day_names 0) [
  | inl (seven, _) ↦ rw seven (omega arith)
  | inr (k, found, at_k) ↦
      rw (found, zero-add) (omega (arith, get_elem?-lt day_names k (to_lower_case s) at_k))
]
