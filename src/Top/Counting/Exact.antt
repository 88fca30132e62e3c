-- ===== src/Top/Counting/Exact.antt =====
-- The counters are the numbers of the visits.
use deals_server.Prelude.{
  ℕ, ◌+◌, ◌%◌, ◌^◌, ◌<◌, ◌≡◌, refl, ap, ◌∙◌, inl, inr, Bool, true, false, not, ◌&&◌, List, [], ◌∷◌,
  ◌==◌, if◌then◌else◌, arith, Bool-cases,
}
use deals_server.Query.Search.{SearchQuery}
use deals_server.Top.Counting.{
  Visit, DstInfo, other_locale, departs_outside, increment, process_element, process_elements,
}

-- A visit that the query counts for the destination, and their number.
abbrev pub is_counted : SearchQuery → ℕ → Visit → Bool
is_counted q d v = not (other_locale q v) && (not (departs_outside q v) && (v.destination == d))

abbrev pub visits_of : SearchQuery → ℕ → List Visit → ℕ
visits_of q d [] = 0
visits_of q d (v ∷ visits) = (if is_counted q d v then 1 else 0) + visits_of q d visits

-- The counter of a destination, 0 where it has no entry.
abbrev pub counter_of : ℕ → List DstInfo → ℕ
counter_of d [] = 0
counter_of d (g ∷ groups) = if g.destination == d then g.counter else counter_of d groups

same_test : (g e d : ℕ) → (g == e) ≡ true → (g == d) ≡ true → (e == d) ≡ true
same_test g e d h k = ground arith

other_test : (g e d : ℕ) → (g == e) ≡ true → (g == d) ≡ false → (e == d) ≡ false
other_test g e d h k = ground arith

moved_test : (g e d : ℕ) → (g == e) ≡ false → (g == d) ≡ true → (e == d) ≡ false
moved_test g e d h k = ground arith

counter_of-increment :
    (d e : ℕ) (groups : List DstInfo)
    → counter_of d (increment e groups)
      ≡ (if e == d then (counter_of d groups + 1) % 2 ^ 32 else counter_of d groups)
unfolding increment
counter_of-increment d e [] = refl
counter_of-increment d e (g ∷ groups) = elim (Bool-cases (g.destination == e)) [
  | inl same ↦ elim (Bool-cases (g.destination == d)) [
    | inl here ↦
        let h : (e == d) ≡ true = same_test g.destination e d same here in rw (same, h, here) refl
    | inr there ↦
        let h : (e == d) ≡ false = other_test g.destination e d same there in
        rw (same, h, there) refl
  ]
  | inr other ↦ elim (Bool-cases (g.destination == d)) [
    | inl here ↦
        let h : (e == d) ≡ false = moved_test g.destination e d other here in
        rw (other, h, here) refl
    | inr there ↦ rw (other, there) (counter_of-increment d e groups)
  ]
]

counter_of-process_element :
    (q : SearchQuery) (d : ℕ) (groups : List DstInfo) (v : Visit)
    → counter_of d groups < 2 ^ 32
    → counter_of d (process_element q groups v)
      ≡ (counter_of d groups + (if is_counted q d v then 1 else 0)) % 2 ^ 32
unfolding process_element
counter_of-process_element q d groups v lt = elim (Bool-cases (other_locale q v)) [
  | inl other ↦ rw other (omega arith)
  | inr here ↦ elim (Bool-cases (departs_outside q v)) [
    | inl outside ↦ rw (here, outside) (omega arith)
    | inr inside ↦ elim (Bool-cases (v.destination == d)) [
      | inl same ↦ rw (here, inside, counter_of-increment d v.destination groups, same) refl
      | inr not_same ↦
          rw (here, inside, counter_of-increment d v.destination groups, not_same) (omega arith)
    ]
  ]
]

next_count : (c n m : ℕ) → ((c + n) % 2 ^ 32 + m) % 2 ^ 32 ≡ (c + (n + m)) % 2 ^ 32
next_count c n m = omega arith

counter_of-process_elements :
    (q : SearchQuery) (d : ℕ) (groups : List DstInfo) (visits : List Visit)
    → counter_of d groups < 2 ^ 32
    → counter_of d (process_elements q groups visits)
      ≡ (counter_of d groups + visits_of q d visits) % 2 ^ 32
unfolding process_elements
counter_of-process_elements q d groups [] lt = omega arith
counter_of-process_elements q d groups (v ∷ visits) lt =
    let e = counter_of-process_element q d groups v lt in
    counter_of-process_elements q d (process_element q groups v) visits (omega (arith, e))
    ∙ (ap (λ c. (c + visits_of q d visits) % 2 ^ 32) e
        ∙ next_count (counter_of d groups) (if is_counted q d v then 1 else 0)
            (visits_of q d visits))

-- For every destination the map of a query on the elements of a table holds, modulo 2^32, the number
-- of those that the query passes: of its locale, if it has one, with a departure in its interval, if
-- it has one, and with that destination. Without an entry the number is 0.
pub process_elements-visits_of :
    (q : SearchQuery) (d : ℕ) (visits : List Visit)
    → counter_of d (process_elements q [] visits) ≡ visits_of q d visits % 2 ^ 32
process_elements-visits_of q d visits =
    let e = counter_of-process_elements q d [] visits (omega arith) in omega (arith, e)
