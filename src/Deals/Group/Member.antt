-- ===== src/Deals/Group/Member.antt =====
-- The members of a group, its cheapest one, and what the aggregation keeps true of a group.
use deals_server.Prelude.{ℕ, ◌≤◌, ◌<◌, ◌≡◌, ◌⊎◌, true, false, List, [], ◌∷◌, ◌++◌}
use deals_server.Query.Search.{SearchQuery}
use deals_server.Deals.Info.{DealInfo, no_deal, equal, outdates}
use deals_server.Deals.Info.Last.{Among}
use deals_server.Deals.Filter.{selects}
use deals_server.Deals.Group.{Groups, slot, history}

-- Every deal has a price, and none has route and dates of a deal in front of it.
abbrev pub IsDistinct : List DealInfo → List DealInfo → Type 0
IsDistinct seen [] = Unit {0}
IsDistinct seen (d ∷ ds) =
    (0 < d.price) × ((x : DealInfo) → Among x seen → equal d x ≡ false) × IsDistinct (d ∷ seen) ds

module _ (q : SearchQuery) (key : DealInfo → ℕ) (k : ℕ) where
  -- A deal of the group that the search asks for.
  pub record IsMember (d : DealInfo) : Type 0 where
    pub selected : selects q d ≡ true
    pub grouped : key d ≡ k

  -- The cheapest of the deals that were seen.
  pub record IsCheapest (seen : List DealInfo) (r : DealInfo) : Type 0 where
    pub among : Among r seen
    pub member : IsMember r
    pub cheapest : (d : DealInfo) → Among d seen → IsMember d → r.price ≤ d.price

  pub record Holds (seen : List DealInfo) (g : Groups) : Type 0 where
    pub best : DealInfo
    pub front : List DealInfo
    pub slot_is : slot k g ≡ best
    pub history_is : history k g ≡ front ++ best ∷ []
    pub positive : 0 < best.price
    pub is_cheapest : IsCheapest seen best
    pub known : (x : DealInfo) → Among x (front ++ best ∷ []) → Among x seen
    pub current : (x : DealInfo) → Among x (front ++ best ∷ []) → outdates x best ≡ false

  abbrev pub Inv : List DealInfo → Groups → Type 0
  Inv seen g =
      (((d : DealInfo) → Among d seen → IsMember d → ⊥) × (slot k g ≡ no_deal) × (history k g ≡ []))
      ⊎ Holds seen g
