-- ===== src/Deals/Reports.antt =====
-- The reports over the whole table: src/deals_stats.cpp and src/deals_unique_routes.cpp.
pub mod Bounds
use deals_server.Prelude.{
  ℕ, ◌+◌, ◌-◌, ◌*◌, ◌%◌, ◌^◌, Bool, true, false, ◌&&◌, List, [], ◌∷◌, ◌++◌, ltb, leb, ◌==◌, bool_eq,
  if◌then◌else◌, Text, codes,
}
use deals_server.Prelude.Decimal.{to_string}
use deals_server.Types.Iata.{code_to_origin}
use deals_server.Deals.Info.{DealInfo, no_deal}
use deals_server.Deals.Group.{find_or, put}

-- StatsProcessor; `elements` and `size` are uint64_t.
pub record Stats : Type 0 where
  pub elements : ℕ
  pub total_size : ℕ
  pub latest : ℕ
  pub earliest : ℕ

abbrev pub no_stats : Stats
no_stats = record { elements = 0; total_size = 0; latest = 0; earliest = 2 ^ 32 - 1 }

unfoldable pub count_element : Stats → DealInfo → Stats
count_element s deal = record {
  elements = (s.elements + 1) % 2 ^ 64;
  total_size = (s.total_size + deal.size) % 2 ^ 64;
  latest = if ltb s.latest deal.timestamp then deal.timestamp else s.latest;
  earliest = if ltb deal.timestamp s.earliest then deal.timestamp else s.earliest;
}

-- processRecords with this processor, on the deals of the table.
unfoldable pub stats_of : Stats → List DealInfo → Stats
stats_of s [] = s
stats_of s (deal ∷ deals) = stats_of (count_element s deal) deals

-- getStringResults: the text in JSON.
unfoldable pub stats_results : Stats → Text
stats_results s =
    codes "{\"elements\":"
    ++ (to_string s.elements
        ++ (codes ",\"size\":"
            ++ (to_string s.total_size
                ++ (codes ",\"min\":"
                    ++ (to_string s.earliest
                        ++ (codes ",\"max\":" ++ (to_string s.latest ++ codes "}")))))))

-- UniqueProcessor::process_element; the key is a uint64_t.
abbrev pub route_of : DealInfo → ℕ
route_of deal = deal.origin * 2 ^ 32 + deal.destination

abbrev pub same_days : DealInfo → DealInfo → Bool
same_days deal dst_deal =
    deal.departure_date == dst_deal.departure_date
    && deal.return_date == dst_deal.return_date
    && bool_eq deal.direct dst_deal.direct

unfoldable pub unique_deal : DealInfo → DealInfo → DealInfo
unique_deal dst_deal deal =
    if dst_deal.price == 0
    then (if dst_deal.price == deal.price && ltb deal.timestamp dst_deal.timestamp
        then dst_deal
        else deal)
    else if leb deal.price dst_deal.price
    then (if dst_deal.price == deal.price && ltb deal.timestamp dst_deal.timestamp
        then dst_deal
        else deal)
    else if same_days deal dst_deal && ltb dst_deal.timestamp deal.timestamp
    then record deal { overriden = true }
    else dst_deal

unfoldable pub process_route : List (ℕ × DealInfo) → DealInfo → List (ℕ × DealInfo)
process_route grouped deal =
    put (route_of deal) (unique_deal (find_or no_deal (route_of deal) grouped) deal) grouped

-- UniqueProcessor::getStringResults, in the order of the map.
unfoldable pub routes_results : List (ℕ × DealInfo) → Text
routes_results [] = []
routes_results ((route, deal) ∷ grouped) =
    code_to_origin deal.origin
    ++ (b',' ∷ code_to_origin deal.destination
        ++ (b',' ∷ to_string deal.price ++ (10 ∷ routes_results grouped)))
