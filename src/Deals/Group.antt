-- ===== src/Deals/Group.antt =====
-- The grouping that the three aggregations share: the cheapest deal of each group and the history of
-- the deals that were it. Their `process_deal` functions differ in the key alone
-- (src/deals_cheapest.cpp, src/deals_cheapest_by_country.cpp, src/deals_cheapest_by_date.cpp).
pub mod Maps
pub mod Member
pub mod Entries
pub mod Rounds
pub mod Steps
pub mod Best
use deals_server.Prelude.{
  ℕ, Bool, true, false, ◌&&◌, ◌||◌, List, [], ◌∷◌, ◌++◌, leb, ltb, ◌==◌, if◌then◌else◌, map,
}
use deals_server.Deals.Info.{DealInfo, no_deal, equal, find_cheapest_and_last}

-- An unordered_map, in the order of insertion; `find_or` is operator[] read, with what a new
-- element holds.
module _ {ℓ} {V : Type ℓ} where
  unfoldable pub find_or : V → ℕ → List (ℕ × V) → V
  find_or v k [] = v
  find_or v k ((j, w) ∷ m) = if j == k then w else find_or v k m

  unfoldable pub put : ℕ → V → List (ℕ × V) → List (ℕ × V)
  put k v [] = (k, v) ∷ []
  put k v ((j, w) ∷ m) = if j == k then (k, v) ∷ m else (j, w) ∷ put k v m

pub record Groups : Type 0 where
  pub grouped : List (ℕ × DealInfo)
  pub hist : List (ℕ × List DealInfo)

abbrev pub no_groups : Groups
no_groups = record { grouped = []; hist = [] }

abbrev pub slot : ℕ → Groups → DealInfo
slot k g = find_or no_deal k g.grouped

abbrev pub history : ℕ → Groups → List DealInfo
history k g = find_or [] k g.hist

-- `auto &dst_deal = grouped[key]` makes the element, also where nothing is assigned to it.
abbrev pub touch : ℕ → Groups → Groups
touch k g = record g { grouped = put k (slot k g) g.grouped }

-- dst_deal = d, and hist[key].push_back(pushed).
abbrev pub replace : ℕ → DealInfo → DealInfo → Groups → Groups
replace k d pushed g = record {
  grouped = put k d g.grouped;
  hist = put k (history k g ++ pushed ∷ []) g.hist;
}

abbrev pub is_cheaper : DealInfo → DealInfo → Bool
is_cheaper deal dst_deal = dst_deal.price == 0 || leb deal.price dst_deal.price

-- process_deal, at the key of the deal.
unfoldable pub process_at : ℕ → Groups → DealInfo → Groups
process_at key g deal =
    if is_cheaper deal (slot key g)
    then (if equal deal (slot key g) && ltb deal.timestamp (slot key g).timestamp
        then touch key g
        else replace key deal deal g)
    else if equal deal (slot key g) && ltb (slot key g).timestamp deal.timestamp
    then replace key (record deal { overriden = true }) deal g
    else touch key g

-- The loop of `post_search`, before the sort.
unfoldable pub group_results : Groups → List DealInfo
group_results g = map (λ (entry : ℕ × List DealInfo). find_cheapest_and_last entry.1) g.hist

-- SimplyCheapest::process_deal.
unfoldable pub process_by_destination : Groups → DealInfo → Groups
process_by_destination g deal = process_at deal.destination g deal

-- CheapestByCountry::process_deal.
unfoldable pub process_by_country : Groups → DealInfo → Groups
process_by_country g deal = process_at deal.destination_country g deal
