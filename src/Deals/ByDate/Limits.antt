-- ===== src/Deals/ByDate/Limits.antt =====
-- What an accepted search by date limits its results to.
use mathlib.Core.Path.{subst}
use deals_server.Prelude.{
  ℕ, ◌*◌, ◌≤◌, ◌≡◌, refl, Bool, true, false, ◌&&◌, ◌||◌, ltb, ◌==◌, arith, Outcome, ok, Error,
  throw_if, ◌>>◌, ◌%◌, ◌^◌,
}
use deals_server.Query.Search.{SearchQuery}
use deals_server.Deals.ByDate.{
  ByDay, departing, returning, check_input_params, pre_search, set_limit, no_interval,
  interval_too_long, one_interval, too_many_combinations,
}

-- Where four tests in a row throw nothing, all of them are false.
four_passed :
    (a b c d : Bool) (e₁ e₂ e₃ e₄ : Error) (m : Outcome ByDay) (s : ByDay)
    → ((throw_if a e₁ >> (throw_if b e₂ >> (throw_if c e₃ >> throw_if d e₄))) >> m) ≡ ok s
    → (a ≡ false) × (b ≡ false) × (c ≡ false) × (d ≡ false) × (m ≡ ok s)
four_passed true b c d e₁ e₂ e₃ e₄ m s h = absurd (cc h)
four_passed false true c d e₁ e₂ e₃ e₄ m s h = absurd (cc h)
four_passed false false true d e₁ e₂ e₃ e₄ m s h = absurd (cc h)
four_passed false false false true e₁ e₂ e₃ e₄ m s h = absurd (cc h)
four_passed false false false false e₁ e₂ e₃ e₄ m s h = (refl, refl, refl, refl, h)

-- The checks that a search passes.
checked :
    (q : SearchQuery) (m : Outcome ByDay) (s : ByDay)
    → (check_input_params q >> m) ≡ ok s
    → (no_interval q ≡ false)
      × (interval_too_long q ≡ false)
      × ((q.filter_all_combinations && one_interval q) ≡ false)
      × ((q.filter_all_combinations && too_many_combinations q) ≡ false)
      × (m ≡ ok s)
unfolding check_input_params
checked q m s h =
    four_passed (no_interval q) (interval_too_long q) (q.filter_all_combinations && one_interval q)
      (q.filter_all_combinations && too_many_combinations q) _ _ _ _ m s h

positive_days : (m n : ℕ) → (m == 0 || n == 0) ≡ false → (1 ≤ m) × (1 ≤ n)
positive_days m n h = ground arith

few_days : (m n : ℕ) → (ltb 11 m || ltb 11 n) ≡ false → (m ≤ 11) × (n ≤ 11)
few_days m n h = ground arith

both_false : (a b : Bool) → (a && b) ≡ false → a ≡ true → b ≡ false
both_false a b h k = ground arith

few_combinations : (m n : ℕ) → m ≤ 11 → n ≤ 11 → m * n % 2 ^ 32 % 2 ^ 16 ≡ m * n
few_combinations m n hm hn = let le : m * n ≤ 121 = grind (arith, hm, hn) in omega arith

ok_inj : (a b : ByDay) → ◌≡◌ {A = Outcome ByDay} (ok a) (ok b) → a ≡ b
ok_inj a b e = cc e

-- A search for all combinations of two intervals that is accepted has from one to eleven days in
-- each, and one place in the answer for each combination, at most 121.
pub pre_search-combinations :
    (q : SearchQuery) (s : ByDay)
    → pre_search q ≡ ok s
    → q.filter_exact_date ≡ false
    → q.filter_all_combinations ≡ true
    → (1 ≤ departing q)
      × (departing q ≤ 11)
      × (1 ≤ returning q)
      × (returning q ≤ 11)
      × (s.query.filter_result_limit ≡ departing q * returning q)
unfolding pre_search set_limit
pre_search-combinations q s h exact all =
    let (some_interval, short, two, few, e) = checked q (ok (set_limit q)) s h in
    let (from_one, back_from_one) =
      positive_days (departing q) (returning q) (both_false _ _ two all) in
    let (to_eleven, back_to_eleven) =
      few_days (departing q) (returning q) (both_false _ _ few all) in
    let limit : s.query.filter_result_limit ≡ departing q * returning q =
      subst (λ x. x.query.filter_result_limit ≡ departing q * returning q)
        (ok_inj (set_limit q) s e)
        (rw (exact, all) (few_combinations (departing q) (returning q) to_eleven back_to_eleven)) in
    (from_one, to_eleven, back_from_one, back_to_eleven, limit)
