-- ===== src/Tests/Requests.antt =====
-- Locks, the top destinations and the HTTP parser at concrete inputs.
use deals_server.Prelude.{
  ℕ, ◌+◌, ◌%◌, ◌^◌, ◌≤◌, ◌<◌, ◌≡◌, refl, ◌⊎◌, true, false, List, [], ◌∷◌, ◌++◌, Text, codes, ok,
  arith, length, text_eq,
}
use deals_server.Utils.Calendar.{u32}
use deals_server.Utils.Strings.{
  find, concat_string, starts_with, split_string, split_loop, to_lower_case,
}
use deals_server.Utils.Numbers.{stol, signed, magnitude, skip_spaces}
use deals_server.Prelude.Decimal.{read_digits, to_string}
use deals_server.Server.Routing.{on_data, route, get_route, handles, ping}
use deals_server.Server.Responses.{size_info, sizes_of}
use deals_server.Server.Responses.Sizes.{size_info-length}
use deals_server.Types.Params.{lookup, add_object}
use deals_server.Types.Country.{CountryCode}
use deals_server.Types.Date.{undefined_date}
use deals_server.Types.Scalars.{Number}
use deals_server.Query.Search.{SearchQuery, Garbage, fresh}
use deals_server.Locks.{Lock, new_lock, open_section, enter, exit, is_locked}
use deals_server.Locks.Exclusion.{
  IsExclusive, opens, enters, here, next, Reach-IsExclusive, enter-exit,
}
use deals_server.Top.Counting.{Visit, DstInfo, process_elements}
use deals_server.Top.Counting.Exact.{counter_of, visits_of, process_elements-visits_of}
use deals_server.Top.Caching
use deals_server.Top.Caching.{Results, get_cached_result, save_result_to_cache}
use deals_server.Top.Caching.Saved.{IsLimited, get_cached_result-save_result_to_cache}
use deals_server.Http.Messages.{
  parse_headers, parse_request, header_of, add_headers, parse_query, param_of, add_params,
}
use deals_server.Http.Parser.{
  new_parser, write_all, get_headers, get_body, write, read_head, check_body, content_length_of,
}
use deals_server.Http.Parser.Pieces.{HasHead, HasBody, write_all-framed}

-- Two sections, of which the first is entered.
abbrev entered_lock : Lock
entered_lock = record { sem_value = 0; unlock_needed = true ∷ false ∷ [] }

Reach-IsExclusive_example : IsExclusive (enter 0 (open_section new_lock)).1
Reach-IsExclusive_example =
    Reach-IsExclusive (enter 0 (open_section new_lock)).1
      (next (next here (opens new_lock)) (enters 0 (open_section new_lock) (omega arith)))

enter-exit_example :
    ((exit true 0 entered_lock).0 ≡ ok tt)
    × ((enter 1 (exit true 0 entered_lock).1).0 ≡ ok tt)
    × (is_locked 1 (enter 1 (exit true 0 entered_lock).1).1 ≡ true)
enter-exit_example = enter-exit 0 1 entered_lock refl (omega arith)

-- Searches from the country 3, two of them for the place 9.
abbrev pub garbage : Garbage
garbage = record {
  origin_value = 1;
  departure_date_values = record { from = 0; to = 0; duration = 0 };
  return_date_values = record { from = 0; to = 0; duration = 0 };
  exact_date_value = 0;
  timestamp_value = 0;
  direct_flights_flag = false;
  roundtrip_flight_flag = false;
  departure_weekdays_bitmask = 0;
  return_weekdays_bitmask = 0;
  stay_days_values = record { from = 0; to = 0 };
  locale_value = 0;
}

abbrev from_three : SearchQuery
from_three = record (fresh garbage) { filter_locale = true; locale_value = 3 }

abbrev visit_at : ℕ → ℕ → Visit
visit_at country place = record { locale = country; destination = place; departure_date = 20160501 }

abbrev visits : List Visit
visits = visit_at 3 9 ∷ visit_at 4 9 ∷ visit_at 3 8 ∷ visit_at 3 9 ∷ []

process_elements-visits_of_example :
    counter_of 9 (process_elements from_three [] visits) ≡ visits_of from_three 9 visits % 2 ^ 32
process_elements-visits_of_example = process_elements-visits_of from_three 9 visits

two_visits : visits_of from_three 9 visits ≡ 2
two_visits = refl

abbrev country : CountryCode
country = record { paramter_undefined = false; code = 3 }

abbrev top_two : List DstInfo
top_two = record { destination = 9; counter = 2 } ∷ record { destination = 8; counter = 1 } ∷ []

get_cached_result-save_result_to_cache_example :
    (saved : Results) × (save_result_to_cache 1000 country undefined_date undefined_date top_two []
      ≡ ok saved)
    × ((later : ℕ) (limit : Number)
        → ((later ≤ (60 + 1000) % u32)
            × IsLimited limit top_two
                (get_cached_result later country undefined_date undefined_date limit saved).0
            × ((get_cached_result later country undefined_date undefined_date limit saved).1
                ≡ saved))
          ⊎ (((60 + 1000) % u32 < later)
              × (get_cached_result later country undefined_date undefined_date limit saved
                  ≡ (ok [], Caching.erase 3 []))))
    × ((other : ℕ) → (3 ≡ other) ⊎ (Caching.find other saved ≡ Caching.find other []))
get_cached_result-save_result_to_cache_example =
    get_cached_result-save_result_to_cache 1000 country undefined_date undefined_date top_two []
      refl refl (omega arith)

-- A request that is cut inside its blank line.
abbrev pieces : List Text
pieces =
    (codes "POST /a HTTP/1.0" ++ (13 ∷ 10 ∷ codes "Content-Length: 2") ++ (13 ∷ 10 ∷ 13 ∷ []))
    ∷ (10 ∷ codes "o")
    ∷ codes "k"
    ∷ []

write_all-framed_example :
    (get_headers (write_all new_parser pieces) ++ get_body (write_all new_parser pieces)
      ≡ concat_string pieces)
    × HasHead (write_all new_parser pieces) (concat_string pieces)
    × HasBody (write_all new_parser pieces)
unfolding concat_string
write_all-framed_example = write_all-framed pieces (omega arith)

completes : (write_all new_parser pieces).parsing_complete ≡ true
unfolding write_all write read_head check_body parse_headers parse_request header_of add_headers
    parse_query param_of add_params content_length_of concat_string find starts_with split_string
    split_loop to_lower_case stol signed magnitude skip_spaces read_digits lookup add_object text_eq
completes = refl

size_info-length_example :
    size_info (codes "{}" ∷ codes "{1}" ∷ [])
    ≡ to_string (length (size_info (codes "{}" ∷ codes "{1}" ∷ [])))
      ++ (codes ";" ++ sizes_of (codes "{}" ∷ codes "{1}" ∷ []))
size_info-length_example = size_info-length (codes "{}" ∷ codes "{1}" ∷ [])

size_text : size_info (codes "{}" ∷ codes "{1}" ∷ []) ≡ codes "6;2;3;"
unfolding size_info sizes_of to_string
size_text = refl

routed :
    (on_data false new_parser (codes "GET /ping HTTP/1.0" ++ (13 ∷ 10 ∷ 13 ∷ 10 ∷ []))).0
    ≡ handles ping
unfolding on_data route get_route write read_head check_body parse_headers parse_request header_of
    add_headers parse_query param_of add_params content_length_of concat_string find starts_with
    split_string split_loop to_lower_case stol signed magnitude skip_spaces read_digits lookup
    add_object text_eq
routed = refl
