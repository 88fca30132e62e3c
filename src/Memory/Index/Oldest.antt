-- ===== src/Memory/Index/Oldest.antt =====
-- The page that addRecord takes where memory is low.
use mathlib.Core.Path.{subst}
use deals_server.Prelude.{
  ap, ◌∙◌, ltb→lt, ◌⊎◌, refl, Bool, ℕ, suc, ◌+◌, ◌≤◌, ◌<◌, ◌≡◌, true, false, ◌&&◌, List, [], ◌∷◌,
  ltb, leb, ◌==◌, if◌then◌else◌, length, get_or, arith, Bool-cases, inl, inr,
}
use deals_server.Memory.Index.{new_page, Slot, no_slot, choose_page, is_earlier}

earlier_lem :
    (e low f : ℕ)
    → (e == 0) ≡ false
    → e ≡ f
    → ((if ltb 0 e && ltb e low then e else low) ≤ f)
      × ((if ltb 0 e && ltb e low then e else low) ≤ low)
earlier_lem e low f h k = ground arith

not_earlier : (e low : ℕ) → (e == 0) ≡ true → (ltb 0 e && ltb e low) ≡ false
not_earlier e low h = ground arith

-- Place idx joins the places seen.
seen_next :
    (expire : ℕ → ℕ) (s : Slot) (idx low k : ℕ)
    → (s.expire_at == 0) ≡ false
    → s.expire_at ≡ expire idx
    → ((j : ℕ) → j < idx → low ≤ expire j)
    → k < suc idx
    → (if is_earlier s low then s.expire_at else low) ≤ expire k
seen_next expire s idx low k used e seen lt =
    let (at_idx, at_low) = earlier_lem s.expire_at low (expire idx) used e in
    elim (Bool-cases (ltb k idx)) [
      | inl before ↦ let below = seen k (ltb→lt k idx before) in omega arith
      | inr here ↦
          let same : idx ≡ k = ground arith in
          subst (λ j. (if is_earlier s low then s.expire_at else low) ≤ expire j) same at_idx
    ]

least_next :
    (expire : ℕ → ℕ) (s : Slot) (idx low low_idx : ℕ)
    → s.expire_at ≡ expire idx
    → expire low_idx ≤ low
    → expire (if is_earlier s low then idx else low_idx)
      ≤ (if is_earlier s low then s.expire_at else low)
least_next expire s idx low low_idx e least = elim (Bool-cases (is_earlier s low)) [
  | inl yes_earlier ↦ rw yes_earlier (omega arith)
  | inr no_earlier ↦ rw no_earlier least
]

-- `expire k` is the expiry at place k of the whole index, of which the loop has seen the places
-- under idx; low is the least expiry that it has seen, at low_idx.
pub choose_page-oldest :
    (expire : ℕ → ℕ) (now count : ℕ) (slots : List Slot) (idx low low_idx : ℕ)
    → ((k : ℕ) → k < length slots → (get_or slots k no_slot).expire_at ≡ expire (idx + k))
    → ((k : ℕ) → k < idx → low ≤ expire k)
    → expire low_idx ≤ low
    → (choose_page now count slots idx low low_idx).kind ≡ new_page
    → (k : ℕ) → k < (choose_page now count slots idx low low_idx).at
    → expire (choose_page now count slots idx low low_idx).expire_min_idx ≤ expire k
unfolding choose_page
choose_page-oldest expire now count [] idx low low_idx whole seen least =
    λ kind k lt. absurd (cc kind)
choose_page-oldest expire now count (s ∷ slots) idx low low_idx whole seen least =
    let here : s.expire_at ≡ expire idx = whole 0 (omega arith) ∙ ap expire (omega arith) in
    elim (Bool-cases (ltb 0 s.expire_at && ltb s.expire_at now)) [
      | inl gone ↦ rw gone (λ kind k lt. absurd (cc kind))
      | inr lives ↦ elim (Bool-cases (ltb 0 s.expire_at && leb count s.page_elements_available)) [
        | inl room ↦ rw (lives, room) (λ kind k lt. absurd (cc kind))
        | inr full ↦ elim (Bool-cases (s.expire_at == 0)) [
          | inl free ↦
              rw (lives, full, free)
                (rw (not_earlier s.expire_at low free)
                  (λ kind k lt. let below = seen k lt in omega arith))
          | inr in_use ↦
              rw (lives, full, in_use)
                (choose_page-oldest expire now count slots (suc idx)
                  (if is_earlier s low then s.expire_at else low)
                  (if is_earlier s low then idx else low_idx)
                  (λ k lt. whole (suc k) (omega arith) ∙ ap expire (omega arith))
                  (λ k. seen_next expire s idx low k in_use here seen)
                  (least_next expire s idx low low_idx here least))
        ]
      ]
    ]

-- The page of least expiry stands in front of the unused slot that ends the search.
choose_page-min-lt :
    (now count : ℕ) (slots : List Slot) (idx low low_idx : ℕ)
    → low_idx < idx
    → (choose_page now count slots idx low low_idx).kind ≡ new_page
    → (choose_page now count slots idx low low_idx).expire_min_idx
      < (choose_page now count slots idx low low_idx).at
unfolding choose_page
choose_page-min-lt now count [] idx low low_idx lt = λ kind. absurd (cc kind)
choose_page-min-lt now count (s ∷ slots) idx low low_idx lt =
    elim (Bool-cases (ltb 0 s.expire_at && ltb s.expire_at now)) [
      | inl gone ↦ rw gone (λ kind. absurd (cc kind))
      | inr lives ↦ elim (Bool-cases (ltb 0 s.expire_at && leb count s.page_elements_available)) [
        | inl room ↦ rw (lives, room) (λ kind. absurd (cc kind))
        | inr full ↦ elim (Bool-cases (s.expire_at == 0)) [
          | inl free ↦ rw (lives, full, free) (rw (not_earlier s.expire_at low free) (λ kind. lt))
          | inr in_use ↦
              rw (lives, full, in_use)
                (choose_page-min-lt now count slots (suc idx)
                  (if is_earlier s low then s.expire_at else low)
                  (if is_earlier s low then idx else low_idx) (below (is_earlier s low)))
        ]
      ]
    ]
  where
    below : (b : Bool) → (if b then idx else low_idx) < suc idx
    below true = omega arith
    below false = omega arith

-- A search from the start that ends at an unused slot ends at the first one, or has its page of least
-- expiry in front of it.
pub choose_page-first :
    (now count : ℕ) (slots : List Slot) (low : ℕ)
    → (choose_page now count slots 0 low 0).kind ≡ new_page
    → ((choose_page now count slots 0 low 0).at ≡ 0)
      ⊎ ((choose_page now count slots 0 low 0).expire_min_idx
          < (choose_page now count slots 0 low 0).at)
unfolding choose_page
choose_page-first now count [] low = λ kind. absurd (cc kind)
choose_page-first now count (s ∷ slots) low =
    elim (Bool-cases (ltb 0 s.expire_at && ltb s.expire_at now)) [
      | inl gone ↦ rw gone (λ kind. absurd (cc kind))
      | inr lives ↦ elim (Bool-cases (ltb 0 s.expire_at && leb count s.page_elements_available)) [
        | inl room ↦ rw (lives, room) (λ kind. absurd (cc kind))
        | inr full ↦ elim (Bool-cases (s.expire_at == 0)) [
          | inl free ↦ rw (lives, full, free) (λ kind. inl refl)
          | inr in_use ↦
              rw (lives, full, in_use)
                (λ kind. inr (
                  choose_page-min-lt now count slots 1
                    (if is_earlier s low then s.expire_at else low)
                    (if is_earlier s low then 0 else 0) (zero_lt (is_earlier s low)) kind))
        ]
      ]
    ]
  where
    zero_lt : (b : Bool) → (if b then 0 else 0) < 1
    zero_lt true = omega arith
    zero_lt false = omega arith
