-- ===== src/Deals/Group/Best.antt =====
-- The answer of each group is its cheapest deal.
use mathlib.Core.Path.{subst}
use deals_server.Prelude.{
  ℕ, suc, ◌-◌, ◌<◌, ◌≡◌, refl, sym, ap, ◌∙◌, ◌⊎◌, inl, inr, false, List, [], ◌∷◌, ◌++◌, leb, ◌==◌,
  if◌then◌else◌, arith, Bool-cases, length, get_or,
}
use deals_server.Query.Search.{SearchQuery}
use deals_server.Deals.Info.{DealInfo, no_deal, equal, outdates, find_cheapest_and_last}
use deals_server.Deals.Info.Last.{Among, newest, get_or-Among, find_cheapest_and_last_current}
use deals_server.Deals.Filter.{selects, process_elements}
use deals_server.Deals.Group.{Groups, no_groups, history, process_at, find_or}
use deals_server.Deals.Group.Member.{IsDistinct, IsMember, IsCheapest, Holds, Inv}
use deals_server.Deals.Group.Rounds.{at_other}
use deals_server.Deals.Group.Steps.{keep, first, cheaper, dearer}

rev_onto : List DealInfo → List DealInfo → List DealInfo
rev_onto seen [] = seen
rev_onto seen (d ∷ ds) = rev_onto (d ∷ seen) ds

Among-rev :
    (x : DealInfo) (seen ds : List DealInfo)
    → Among x (rev_onto seen ds)
    → Among x seen ⊎ Among x ds
unfolding rev_onto
Among-rev x seen [] a = inl a
Among-rev x seen (d ∷ ds) a = elim (Among-rev x (d ∷ seen) ds a) [
  | inl b ↦ elim b [ inl e ↦ inr (inl e) | inr c ↦ inl c ]
  | inr b ↦ inr (inr b)
]

rev-Among :
    (x : DealInfo) (seen ds : List DealInfo)
    → Among x seen ⊎ Among x ds
    → Among x (rev_onto seen ds)
unfolding rev_onto
rev-Among x seen [] (inl a) = a
rev-Among x seen [] (inr b) = absurd b
rev-Among x seen (d ∷ ds) (inl a) = rev-Among x (d ∷ seen) ds (inl (inr a))
rev-Among x seen (d ∷ ds) (inr (inl e)) = rev-Among x (d ∷ seen) ds (inl (inl e))
rev-Among x seen (d ∷ ds) (inr (inr b)) = rev-Among x (d ∷ seen) ds (inr b)

get_or-snoc : (xs : List DealInfo) (r : DealInfo) → get_or (xs ++ r ∷ []) (length xs) no_deal ≡ r
get_or-snoc [] r = refl
get_or-snoc (x ∷ xs) r = get_or-snoc xs r

length-snoc : (xs : List DealInfo) (r : DealInfo) → length (xs ++ r ∷ []) ≡ suc (length xs)
length-snoc [] r = refl
length-snoc (x ∷ xs) r = ap suc (length-snoc xs r)

last_index : (xs : List DealInfo) (r : DealInfo) → suc (length (xs ++ r ∷ [])) - 1 ≡ suc (length xs)
last_index xs r = let e = length-snoc xs r in omega arith

current_lem :
    (d : DealInfo) (ds : List DealInfo) (r : DealInfo)
    → newest d ds ≡ r
    → ((x : DealInfo) → Among x (d ∷ ds) → outdates x r ≡ false)
    → find_cheapest_and_last (d ∷ ds) ≡ r
current_lem d ds r e current =
    find_cheapest_and_last_current d ds (λ i lt.
      subst (λ y. outdates (get_or (d ∷ ds) i no_deal) y ≡ false) (sym e)
        (current (get_or (d ∷ ds) i no_deal) (get_or-Among (d ∷ ds) i lt)))
    ∙ e

current_last :
    (front : List DealInfo) (r : DealInfo)
    → ((x : DealInfo) → Among x (front ++ r ∷ []) → outdates x r ≡ false)
    → find_cheapest_and_last (front ++ r ∷ []) ≡ r
current_last [] r current = current_lem r [] r refl current
current_last (d ∷ front) r current =
    current_lem d (front ++ r ∷ []) r
      (ap (λ n. get_or (d ∷ front ++ r ∷ []) n no_deal) (last_index front r) ∙ get_or-snoc front r)
      current

-- The groups that a search makes of the table.
abbrev pub groups_of : SearchQuery → (DealInfo → ℕ) → List DealInfo → Groups
groups_of q key ds = process_elements q (λ g d. process_at (key d) g d) no_groups ds

module _ (q : SearchQuery) (key : DealInfo → ℕ) (k : ℕ) where
  not_member_ne : (d : DealInfo) → (key d == k) ≡ false → IsMember q key k d → ⊥
  not_member_ne d ne m = let e = m.grouped in ground arith

  not_member_out : (d : DealInfo) → selects q d ≡ false → IsMember q key k d → ⊥
  not_member_out d out m = let e = m.selected in absurd (cc (sym out ∙ e))

  mine_lem :
      (seen : List DealInfo) (g : Groups) (d : DealInfo)
      → IsMember q key k d
      → 0 < d.price
      → ((x : DealInfo) → Among x seen → equal d x ≡ false)
      → Inv q key k seen g
      → Inv q key k (d ∷ seen) (process_at k g d)
  mine_lem seen g d m p new (inl (empty, s, h)) = first q key k seen g d m p empty s h
  mine_lem seen g d m p new (inr holds) = elim (Bool-cases (leb d.price holds.best.price)) [
    | inl c ↦ cheaper q key k seen g d m p new holds c
    | inr c ↦ dearer q key k seen g d new holds c
  ]

  step :
      (seen : List DealInfo) (g : Groups) (d : DealInfo)
      → 0 < d.price
      → ((x : DealInfo) → Among x seen → equal d x ≡ false)
      → Inv q key k seen g
      → Inv q key k (d ∷ seen) (if selects q d then process_at (key d) g d else g)
  step seen g d p new inv = elim (Bool-cases (selects q d)) [
    | inr out ↦ rw out (keep q key k seen g g d (not_member_out d out) (refl, refl) inv)
    | inl asked ↦ rw asked (elim (Bool-cases (key d == k)) [
      | inr other ↦
          keep q key k seen g (process_at (key d) g d) d (not_member_ne d other)
            (at_other (key d) k g d other) inv
      | inl same ↦
          let e : key d ≡ k = ground arith in
          subst (λ j. Inv q key k (d ∷ seen) (process_at j g d)) (sym e)
            (mine_lem seen g d record { selected = asked; grouped = e } p new inv)
    ])
  ]

  rounds :
      (seen : List DealInfo) (g : Groups) (ds : List DealInfo)
      → IsDistinct seen ds
      → Inv q key k seen g
      → Inv q key k (rev_onto seen ds) (process_elements q (λ s d. process_at (key d) s d) g ds)
  unfolding process_elements rev_onto
  rounds seen g [] distinct inv = inv
  rounds seen g (d ∷ ds) (p, new, distinct) inv =
      rounds (d ∷ seen) (if selects q d then process_at (key d) g d else g) ds distinct
        (step seen g d p new inv)

  unrev :
      (ds : List DealInfo) (r : DealInfo)
      → IsCheapest q key k (rev_onto [] ds) r
      → IsCheapest q key k ds r
  unrev ds r c = record {
    among = elim (Among-rev r [] ds c.among) [ inl a ↦ absurd a | inr a ↦ a ];
    member = c.member;
    cheapest = λ d a m. c.cheapest d (rev-Among d [] ds (inr a)) m;
  }

  answer :
      (seen : List DealInfo) (g : Groups)
      → (holds : Holds q key k seen g) → find_cheapest_and_last (history k g) ≡ holds.best
  answer seen g holds =
      ap find_cheapest_and_last holds.history_is ∙ current_last holds.front holds.best holds.current

  -- Where the deals of the table have prices and differ in route or dates, each key that deals the
  -- search asks for have is answered by `find_cheapest_and_last` on its history with such a deal of
  -- least price; a key that none of them has keeps an empty history.
  pub process_elements-IsCheapest :
      (ds : List DealInfo)
      → IsDistinct [] ds
      → (((d : DealInfo) → Among d ds → IsMember q key k d → ⊥)
          × (history k (groups_of q key ds) ≡ []))
        ⊎ IsCheapest q key k ds (find_cheapest_and_last (history k (groups_of q key ds)))
  unfolding find_or
  process_elements-IsCheapest ds distinct =
      elim (rounds [] no_groups ds distinct (inl ((λ d a m. absurd a), refl, refl))) [
        | inl (empty, s, h) ↦ inl ((λ d a m. empty d (rev-Among d [] ds (inr a)) m), h)
        | inr holds ↦ inr (
            subst (IsCheapest q key k ds) (sym (answer (rev_onto [] ds) (groups_of q key ds) holds))
              (unrev ds holds.best holds.is_cheapest))
      ]
