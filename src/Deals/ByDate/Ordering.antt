-- ===== src/Deals/ByDate/Ordering.antt =====
-- The comparison that the deals are sorted by is one that a sort can rely on.
use deals_server.Prelude.{
  ℕ, ◌≤◌, ◌≡◌, ◌⊎◌, inl, inr, Bool, true, false, ◌&&◌, ltb, ◌==◌, if◌then◌else◌, arith, Bool-cases,
}
use deals_server.Deals.Info.{DealInfo}
use deals_server.Deals.ByDate.{ByDay, sorts_before}

-- A deal around the exact date, if there is one, that does not return before it departs.
pub record IsAround (s : ByDay) (d : DealInfo) : Type 0 where
  pub meets :
      s.query.filter_exact_date ≡ true
      → (d.return_date ≡ s.query.exact_date_value) ⊎ (d.departure_date ≡ s.query.exact_date_value)
  pub ordered : s.query.filter_exact_date ≡ true → d.departure_date ≤ d.return_date

-- The comparisons on the dates alone.
exact_lt : ℕ → ℕ → ℕ → ℕ → ℕ → Bool
exact_lt e ad ar bd br =
    if e == ar && e == br then ltb ad bd else if e == ad && e == bd then ltb ar br else e == ar

exact_lt_irrefl : (e d r : ℕ) → exact_lt e d r d r ≡ false
unfolding exact_lt
exact_lt_irrefl e d r = ground arith

exact_lt_trans :
    (e ad ar bd br cd cr : ℕ)
    → (ar ≡ e) ⊎ (ad ≡ e)
    → ad ≤ ar
    → (br ≡ e) ⊎ (bd ≡ e)
    → bd ≤ br
    → (cr ≡ e) ⊎ (cd ≡ e)
    → cd ≤ cr
    → exact_lt e ad ar bd br ≡ true
    → exact_lt e bd br cd cr ≡ true
    → exact_lt e ad ar cd cr ≡ true
unfolding exact_lt
exact_lt_trans e ad ar bd br cd cr am ao bm bo cm co h k = ground arith

ltb_irrefl : (n : ℕ) → ltb n n ≡ false
ltb_irrefl n = ground arith

ltb_trans : (l m n : ℕ) → ltb l m ≡ true → ltb m n ≡ true → ltb l n ≡ true
ltb_trans l m n h k = ground arith

days_lt : ℕ → ℕ → ℕ → ℕ → Bool
days_lt ad ar bd br = if ad == bd then ltb ar br else ltb ad bd

days_lt_irrefl : (d r : ℕ) → days_lt d r d r ≡ false
unfolding days_lt
days_lt_irrefl d r = ground arith

days_lt_trans :
    (ad ar bd br cd cr : ℕ)
    → days_lt ad ar bd br ≡ true
    → days_lt bd br cd cr ≡ true
    → days_lt ad ar cd cr ≡ true
unfolding days_lt
days_lt_trans ad ar bd br cd cr h k = ground arith

-- The comparison of `post_search` is a strict order, as std::sort needs it: on deals around the
-- exact date, where one is given, that do not return before they depart, no deal stands before
-- itself, and it is transitive. Without an exact date this holds for all deals.
pub sorts_before-IsStrict :
    (s : ByDay) (a b c : DealInfo)
    → IsAround s a
    → IsAround s b
    → IsAround s c
    → (sorts_before s a a ≡ false)
      × (sorts_before s a b ≡ true → sorts_before s b c ≡ true → sorts_before s a c ≡ true)
unfolding sorts_before exact_lt days_lt
sorts_before-IsStrict s a b c ha hb hc = elim (Bool-cases s.query.filter_exact_date) [
  | inl exact ↦ rw exact (
    exact_lt_irrefl s.query.exact_date_value a.departure_date a.return_date,
    exact_lt_trans s.query.exact_date_value a.departure_date a.return_date b.departure_date
        b.return_date c.departure_date c.return_date (ha.meets exact) (ha.ordered exact)
        (hb.meets exact) (hb.ordered exact) (hc.meets exact) (hc.ordered exact),
  )
  | inr free ↦ elim (Bool-cases s.group_by_return_date) [
    | inl back ↦
        rw (free, back)
          (ltb_irrefl a.return_date, ltb_trans a.return_date b.return_date c.return_date)
    | inr out ↦
        rw (free, out)
          (
            days_lt_irrefl a.departure_date a.return_date,
            days_lt_trans a.departure_date a.return_date b.departure_date b.return_date
                c.departure_date c.return_date,
          )
  ]
]
