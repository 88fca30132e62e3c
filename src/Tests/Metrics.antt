-- ===== src/Tests/Metrics.antt =====
-- The parameters of requests, the index, the memory and the metrics at concrete inputs.
use deals_server.Prelude.{
  ℕ, ◌-◌, ◌^◌, ◌*◌, ◌≤◌, ◌<◌, ◌≡◌, ◌↔◌, refl, true, false, [], ◌∷◌, none, some, Text, codes, ok,
  arith, text_eq,
}
use deals_server.Prelude.Decimal.{read_digits}
use deals_server.Types.Params.{Object, ObjectMap, lookup, optional, required}
use deals_server.Utils.Strings.{split_string, split_loop, starts_with, find, to_upper_case}
use deals_server.Utils.Numbers.{stol, signed, magnitude, skip_spaces}
use deals_server.Utils.Calendar.{month_offset, from_monday, day_of_week}
use deals_server.Types.Iata.{
  IataCode, iata_of_text, origin_to_code, iata_eq, iatas_of_text, iata_insert_all, iata_insert,
  iata_contains,
}
use deals_server.Types.Country.{
  country_of_text, country_to_code, countries_of_text, country_insert_all, country_insert,
  countries, search_country, pairs,
}
use deals_server.Types.Date.{
  Date, undefined_date, date_of_text, date_to_int, erase, parsed_date, compare_dates, weekday,
}
use deals_server.Types.Scalars.{Number, Boolean, number_of_text, boolean_of_text}
use deals_server.Types.Weekdays.{
  Weekdays, weekdays_of_text, weekdays_bitmask, join_days, weekdays_of_date,
}
use deals_server.Deals.Info.{DealInfo}
use deals_server.Server.Parameters.{
  Addition, add_deal_parameters, TopRequest, top_parameters, checked_parameters,
}
use deals_server.Server.Parameters.Records.{IsRecord, add_deal-IsRecord}
use deals_server.Server.Parameters.Checks.{InOrder}
use deals_server.Server.Parameters.Windows.{window, departure_dates-checked_parameters}
use deals_server.Query.Search.{fresh}
use deals_server.Query.Setters.{departure_dates, return_dates}
use deals_server.Tests.Requests.{garbage}
use deals_server.Deals.Adding
use deals_server.Deals.Adding.{Stored}
use deals_server.Memory.Space.{Statvfs, is_mem_available, is_mem_low}
use deals_server.Memory.Space.Percents.{is_mem_low-is_mem_available}
use deals_server.Statsd.{Rate, Client, Network}

abbrev some_space : Statvfs
some_space = record { f_bavail = 15; f_blocks = 100 }

is_mem_low-is_mem_available_example :
    ((is_mem_available some_space ≡ some true) ↔ (11 * 100 ≤ 100 * 15))
    × ((is_mem_low some_space ≡ some true) ↔ (100 * 15 < 16 * 100))
is_mem_low-is_mem_available_example =
    is_mem_low-is_mem_available some_space (omega arith) (omega arith) (omega arith)

abbrev client : Client
client = record {
  sock = none;
  ns = codes "deals.";
  host = codes "localhost";
  port = 8125;
  is_init = false;
}

abbrev network : Network
network = record { socket = some 3; inet_aton = false; getaddrinfo = true; sends = true }

abbrev rate : Rate
rate = record { is_one = true; is_drawn = false; text = codes "1.00" }

abbrev given : Text → Text → Object
given name value = record { name = name; value = value }

abbrev of_top : ObjectMap
of_top =
    given (codes "origin") (codes "MOW")
    ∷ given (codes "departure_date_from") (codes "2016-05-01")
    ∷ given (codes "departure_date_to") (codes "2016-05-10")
    ∷ []

abbrev date_is : ℕ → ℕ → ℕ → ℕ → Date
date_is code day month year = record {
  paramter_undefined = false;
  code = code;
  day = day;
  month = month;
  year = year;
}

abbrev place : ℕ → IataCode
place code = record { paramter_undefined = false; code = code }

abbrev no_number : Number
no_number = record { paramter_undefined = true; value = 0 }

abbrev no_boolean : Boolean
no_boolean = record { paramter_undefined = true; value = false }

abbrev no_weekdays : Weekdays
no_weekdays = record { paramter_undefined = true; bitmask = 0 }

abbrev pub top_request : TopRequest
top_request = record {
  request = record {
    origin = place 1464814848;
    destinations = record { paramter_undefined = true; codes = [] };
    destination_countries = record { paramter_undefined = true; codes = [] };
    departure_date_from = date_is 20160501 1 5 2016;
    departure_date_to = date_is 20160510 10 5 2016;
    departure_days_of_week = no_weekdays;
    return_date_from = undefined_date;
    return_date_to = undefined_date;
    return_days_of_week = no_weekdays;
    stay_from = no_number;
    stay_to = no_number;
    direct_flights = no_boolean;
    limit = no_number;
    max_lifetime_sec = no_number;
    roundtrip_flights = no_boolean;
    departure_or_return_date = undefined_date;
    all_combinations = no_boolean;
  };
  add_locale_top = no_boolean;
  group_by_date = no_boolean;
  group_by_country = no_boolean;
  locale = record {
    base = record { paramter_undefined = true; code = 0 };
    parameter_name = codes "locale";
    parameter_value = [];
  };
}

departure_dates-checked_parameters_example :
    (departure_dates (fresh garbage) (date_is 20160501 1 5 2016) (date_is 20160510 10 5 2016)
      ≡ ok (record (fresh garbage) {
        filter_departure_date = true;
        departure_date_values = window (date_is 20160501 1 5 2016) (date_is 20160510 10 5 2016);
      }))
    × (return_dates (fresh garbage) undefined_date undefined_date ≡ ok (fresh garbage))
    × (20160501 ≤ 20160510)
    × (0 ≤ 2 ^ 32 - 1)
    × (20160501 ≤ 2 ^ 32 - 1)
    × InOrder (date_is 20160501 1 5 2016) undefined_date
    × InOrder (date_is 20160510 10 5 2016) undefined_date
unfolding checked_parameters top_parameters lookup text_eq iata_of_text origin_to_code to_upper_case
    date_of_text date_to_int erase parsed_date stol signed magnitude skip_spaces read_digits
    compare_dates optional required iatas_of_text split_string split_loop starts_with find
    iata_insert_all iata_insert iata_contains country_of_text country_to_code countries_of_text
    country_insert_all country_insert weekdays_of_text weekdays_bitmask join_days number_of_text
    boolean_of_text
departure_dates-checked_parameters_example =
    departure_dates-checked_parameters of_top top_request (fresh garbage) refl

abbrev of_deal : ObjectMap
of_deal =
    given (codes "departure_date") (codes "2016-05-01")
    ∷ given (codes "return_date") (codes "2016-05-10")
    ∷ given (codes "price") (codes "9000")
    ∷ given (codes "locale") (codes "RU")
    ∷ given (codes "destination_country") (codes "FR")
    ∷ given (codes "origin") (codes "MOW")
    ∷ given (codes "destination") (codes "PAR")
    ∷ given (codes "direct_flight") (codes "true")
    ∷ []

abbrev addition : Addition
addition = record {
  deal = record {
    origin = place 1464814848;
    destination = place 1380012032;
    destination_country = record { paramter_undefined = false; code = 75 };
    departure_date = date_is 20160501 1 5 2016;
    return_date = date_is 20160510 10 5 2016;
    direct_flight = record { paramter_undefined = false; value = true };
    price = record { paramter_undefined = false; value = 9000 };
  };
  locale = record { paramter_undefined = false; code = 184 };
}

abbrev stored : Stored
stored = record { page_name = codes "D:0"; index = 0; size = 3 }

add_deal-IsRecord_example :
    (info : DealInfo) × (Adding.add_deal 100 stored addition.deal ≡ some (ok info))
    × IsRecord 100 stored addition.deal info
unfolding add_deal_parameters iata_eq countries search_country pairs weekdays_of_date weekday
    day_of_week month_offset from_monday lookup text_eq iata_of_text origin_to_code to_upper_case
    date_of_text date_to_int erase parsed_date stol signed magnitude skip_spaces read_digits
    compare_dates optional required iatas_of_text split_string split_loop starts_with find
    iata_insert_all iata_insert iata_contains country_of_text country_to_code countries_of_text
    country_insert_all country_insert weekdays_of_text weekdays_bitmask join_days number_of_text
    boolean_of_text
add_deal-IsRecord_example =
    add_deal-IsRecord 100 stored of_deal addition
      (record { paramter_undefined = false; bitmask = 64 })
      (record { paramter_undefined = false; bitmask = 2 }) refl refl refl
