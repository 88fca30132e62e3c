-- ===== src/Deals/Search/Results.antt =====
-- What a search by destination answers.
use mathlib.Core.Path.{subst}
use deals_server.Prelude.{
  ℕ, zero, suc, ◌≤◌, ◌<◌, ◌≡◌, ◌≢◌, refl, sym, ap, ◌∙◌, ◌⊎◌, inl, inr, Bool, true, false, List, [],
  ◌∷◌, ltb, ltb→lt, arith, Bool-cases, ok, take, length,
}
use deals_server.Query.Search.{SearchQuery}
use deals_server.Deals.Info.{DealInfo, no_deal, find_cheapest_and_last}
use deals_server.Deals.Info.Last.{Among}
use deals_server.Deals.Filter.{selects, set_min_timestamp, limited}
use deals_server.Deals.Group.{no_groups, history, process_by_destination, group_results}
use deals_server.Deals.Group.Member.{IsDistinct, IsCheapest}
use deals_server.Deals.Group.Entries.{
  find_or-Entry, process_elements-IsFilled, results-Entry, Entry-results,
}
use deals_server.Deals.Group.Best.{groups_of, process_elements-IsCheapest}
use deals_server.Deals.Search.{
  IsWeakOrder, IsSortedBy, Sorting, price_before, execute, cheapest_by_destination,
}

take-Among : (n : ℕ) (xs : List DealInfo) (r : DealInfo) → Among r (take n xs) → Among r xs
take-Among zero xs r a = absurd a
take-Among (suc n) [] r a = absurd a
take-Among (suc n) (x ∷ xs) r (inl e) = inl e
take-Among (suc n) (x ∷ xs) r (inr a) = inr (take-Among n xs r a)

length-take-le : (n : ℕ) (xs : List DealInfo) → n < length xs → length (take n xs) ≡ n
length-take-le zero xs h = refl
length-take-le (suc n) [] h = omega arith
length-take-le (suc n) (x ∷ xs) h = ap suc (length-take-le n xs (omega arith))

take-IsSortedBy :
    (before : DealInfo → DealInfo → Bool) (n : ℕ) (xs : List DealInfo)
    → IsSortedBy before xs
    → IsSortedBy before (take n xs)
take-IsSortedBy before zero xs h = tt
take-IsSortedBy before (suc n) [] h = tt
take-IsSortedBy before (suc zero) (x ∷ xs) h = tt
take-IsSortedBy before (suc (suc n)) (x ∷ []) h = tt
take-IsSortedBy before (suc (suc n)) (x ∷ y ∷ xs) (p, h) =
    (p, take-IsSortedBy before (suc n) (y ∷ xs) h)

price_le_trans : (a b c : ℕ) → ltb a b ≡ true → ltb b c ≡ true → ltb a c ≡ true
price_le_trans a b c h k = ground arith

price_ge_trans : (a b c : ℕ) → ltb a b ≡ false → ltb b c ≡ false → ltb a c ≡ false
price_ge_trans a b c h k = ground arith

price_irrefl : (a : ℕ) → ltb a a ≡ false
price_irrefl a = ground arith

price_before-IsWeakOrder : IsWeakOrder price_before
price_before-IsWeakOrder = record {
  irreflexive = λ a. price_irrefl a.price;
  transitive = λ a b c. price_le_trans a.price b.price c.price;
  indifferent = λ a b c. price_ge_trans a.price b.price c.price;
}

-- The cut to the limit.
limited_lem :
    (q : SearchQuery) (xs : List DealInfo)
    → (length (limited q xs) ≤ q.filter_result_limit)
      × ((r : DealInfo) → Among r (limited q xs) → Among r xs)
      × ((before : DealInfo → DealInfo → Bool)
          → IsSortedBy before xs
          → IsSortedBy before (limited q xs))
      × (length (limited q xs) < q.filter_result_limit → limited q xs ≡ xs)
unfolding limited
limited_lem q xs = elim (Bool-cases (ltb q.filter_result_limit (length xs))) [
  | inr fits ↦ rw fits (ground arith, (λ r a. a), (λ before h. h), (λ h. refl))
  | inl more ↦
      let e =
        length-take-le q.filter_result_limit xs (ltb→lt q.filter_result_limit (length xs) more) in
      rw more (
        omega arith,
        take-Among q.filter_result_limit xs,
        (λ before h. take-IsSortedBy before q.filter_result_limit xs h),
        (λ h. absurd (omega arith)),
      )
]

nil-cases : (h : List DealInfo) → (h ≡ []) ⊎ (h ≢ [])
nil-cases [] = inl refl
nil-cases (d ∷ h) = inr (λ e. absurd (cc e))

has_price : (x : DealInfo) (seen ds : List DealInfo) → IsDistinct seen ds → Among x ds → 0 < x.price
has_price x seen [] distinct a = absurd a
has_price x seen (d ∷ ds) (p, new, rest) (inl e) = subst (λ y. 0 < y.price) (sym e) p
has_price x seen (d ∷ ds) (p, new, rest) (inr a) = has_price x (d ∷ seen) ds rest a

no_answer : (h : List DealInfo) → h ≡ [] → find_cheapest_and_last h ≡ no_deal
unfolding find_cheapest_and_last
no_answer h e = ap find_cheapest_and_last e

module _ (q : SearchQuery) (key : DealInfo → ℕ) (table : List DealInfo)
    (distinct : IsDistinct [] table) where
  -- Every result of the grouping is a cheapest deal of its group.
  result-IsCheapest :
      (r : DealInfo)
      → Among r (group_results (groups_of q key table))
      → IsCheapest q key (key r) table r
  unfolding group_results
  result-IsCheapest r a =
      let g = groups_of q key table in
      let (k, h, entry, e) = results-Entry r g.hist a in
      let (unique, filled) =
        process_elements-IsFilled q key no_groups table (tt, λ k h x. absurd x) in
      let found : history k g ≡ h = find_or-Entry [] k h g.hist unique entry in
      elim (process_elements-IsCheapest q key k table distinct) [
        | inl out ↦ absurd (filled k h entry (sym found ∙ out.1))
        | inr best ↦
            let c : IsCheapest q key k table r =
              subst (IsCheapest q key k table) (ap find_cheapest_and_last found ∙ sym e) best in
            subst (λ j. IsCheapest q key j table r) (sym c.member.grouped) c
      ]

  -- And every deal that is asked for has one at its key.
  result-exists :
      (d : DealInfo)
      → Among d table
      → selects q d ≡ true
      → (r : DealInfo) × Among r (group_results (groups_of q key table))
        × IsCheapest q key (key d) table r
  unfolding group_results
  result-exists d a asked =
      let g = groups_of q key table in
      elim (process_elements-IsCheapest q key (key d) table distinct) [
        | inl out ↦ absurd (out.0 d a record { selected = asked; grouped = refl })
        | inr best ↦ (
          find_cheapest_and_last (history (key d) g),
          elim (nil-cases (history (key d) g)) [
            | inr some_history ↦ Entry-results (key d) g.hist some_history
            | inl empty ↦
                let priced =
                  has_price (find_cheapest_and_last (history (key d) g)) [] table distinct
                    best.among in
                let none : 0 < 0 =
                  subst (λ (x : DealInfo). 0 < x.price) (no_answer (history (key d) g) empty)
                    priced in
                absurd (omega arith)
          ],
          best,
        )
      ]

-- A search by destination, of a table whose deals have prices and differ in route or dates, that does
-- not ask for all combinations: it succeeds with at most as many deals as its limit, in the order
-- of their prices; each of them is a deal of least price among those that the search selects with the
-- same destination; and where there are fewer than the limit, every deal that is selected has its
-- destination in the answer.
pub cheapest_by_destination-IsCheapest :
    (s : Sorting) (global_expire_at now : ℕ) (q : SearchQuery) (table : List DealInfo)
    → IsDistinct [] table
    → q.filter_all_combinations ≡ false
    → (rs : List DealInfo) × (cheapest_by_destination ⦃s = s⦄ global_expire_at now q table ≡ ok rs)
      × (length rs ≤ q.filter_result_limit)
      × IsSortedBy price_before rs
      × ((r : DealInfo)
          → Among r rs
          → IsCheapest
              (set_min_timestamp global_expire_at now q)
              (λ d. d.destination)
              r.destination
              table
              r)
      × (length rs < q.filter_result_limit
          → (d : DealInfo) → Among d table
          → selects (set_min_timestamp global_expire_at now q) d ≡ true
          → (r : DealInfo) × Among r rs × (r.destination ≡ d.destination))
unfolding cheapest_by_destination execute process_by_destination set_min_timestamp
cheapest_by_destination-IsCheapest s global_expire_at now q table distinct plain =
    let bounded = set_min_timestamp global_expire_at now q in
    let found = group_results (groups_of bounded (λ d. d.destination) table) in
    let sorted = s.sort price_before found in
    let (short, kept, ordered, whole) = limited_lem q sorted in
    (
      limited q sorted,
      rw plain refl,
      short,
      ordered price_before (s.sort-IsSortedBy price_before found price_before-IsWeakOrder),
      (λ r a.
          result-IsCheapest bounded (λ d. d.destination) table distinct r
            ((s.sort-Among price_before found r).0 (kept r a))),
      (λ few d a asked.
          let (r, b, c) = result-exists bounded (λ d. d.destination) table distinct d a asked in
          (
            r,
            subst (Among r) (sym (whole few)) ((s.sort-Among price_before found r).1 b),
            c.member.grouped,
          )),
    )
