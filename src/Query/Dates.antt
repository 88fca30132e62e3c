-- ===== src/Query/Dates.antt =====
-- The date intervals of a query, against the calendar.
use deals_server.Prelude.{ℕ, ◌+◌, ◌≤◌, ◌<◌, ◌≡◌, sym, ◌∙◌, true, line, ok, err, bad, arith}
use deals_server.Types.Date.{Date, get_field}
use deals_server.Types.Date.Order.{
  IsCalendar, number, number_bound, date_lt-number, ltb_code, code_ordered,
}
use deals_server.Query.Search.{SearchQuery}
use deals_server.Query.Setters.{departure_dates, date_interval, duration_of}

duration_lem :
    (a b : Date)
    → IsCalendar a
    → IsCalendar b
    → number a ≤ number b
    → duration_of a b + number a ≡ number b + 1
duration_lem a b ha hb le =
    simp (ha.given, hb.given)
      (omega (arith, (date_lt-number a b ha hb).1 le, number_bound a ha, number_bound b hb))

-- The interval is from the one to the other, and its duration counts the
-- days of the calendar from the first to the last, both included.
departure_dates_ordered :
    (q : SearchQuery) (a b : Date)
    → IsCalendar a
    → IsCalendar b
    → number a ≤ number b
    → (n : ℕ) × (departure_dates q a b
        ≡ ok (record q {
          filter_departure_date = true;
          departure_date_values = record { from = a.code; to = b.code; duration = n };
        }))
      × (n + number a ≡ number b + 1)
unfolding departure_dates date_interval get_field
departure_dates_ordered q a b ha hb le =
    (duration_of a b, rw (ha.given, hb.given, code_ordered a b ha hb le), duration_lem a b ha hb le)

-- In the wrong order: an error.
departure_dates_reversed :
    (q : SearchQuery) (a b : Date)
    → IsCalendar a
    → IsCalendar b
    → number b < number a
    → departure_dates q a b
      ≡ err (bad (line "departure_dates departure_date_from > departure_date_to"))
unfolding departure_dates date_interval get_field
departure_dates_reversed q a b ha hb lt =
    rw (ha.given, hb.given, sym (ltb_code b a hb ha) ∙ (date_lt-number b a hb ha).0.1 lt)

-- For two dates of the calendar, `departure_dates` sets the interval from the one to the other, its
-- duration the days from the first to the last, both counted, where they are in order; where they
-- are not, it is a bad parameter.
pub departure_dates-number :
    (q : SearchQuery) (a b : Date)
    → IsCalendar a
    → IsCalendar b
    → (number a ≤ number b
        → (n : ℕ) × (departure_dates q a b
            ≡ ok (record q {
              filter_departure_date = true;
              departure_date_values = record { from = a.code; to = b.code; duration = n };
            }))
          × (n + number a ≡ number b + 1))
      × (number b < number a
          → departure_dates q a b
            ≡ err (bad (line "departure_dates departure_date_from > departure_date_to")))
departure_dates-number q a b ha hb =
    (departure_dates_ordered q a b ha hb, departure_dates_reversed q a b ha hb)
