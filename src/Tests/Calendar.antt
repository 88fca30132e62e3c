-- ===== src/Tests/Calendar.antt =====
-- The calendar of src/utils.cpp, the date codes of src/types.cpp and the weekdays, at concrete dates.
use deals_server.Prelude.{false, ◌+◌, ◌%◌, ◌≤◌, ◌<◌, ◌≡◌, refl, ◌↔◌, true, some, arith}
use deals_server.Utils.Calendar.{day_of_week, rdn, month_offset, from_monday}
use deals_server.Utils.Calendar.Gregorian.{days_in_month, IsDate, day_number}
use deals_server.Utils.Calendar.DayNumber.{rdn-eq-day_number}
use deals_server.Utils.Calendar.Weekday.{day_of_week-eq}
use deals_server.Types.Date.{Date, date_lt, days_after}
use deals_server.Types.Date.Order.{IsCalendar, number, date_lt-number}

rdn_leap_day : rdn 2016 2 29 ≡ 736023
unfolding rdn
rdn_leap_day = refl

-- 2016-06-16 was a Thursday.
day_of_week_thursday : day_of_week 16 6 2016 ≡ some 3
unfolding day_of_week month_offset from_monday
day_of_week_thursday = refl

abbrev pub first_of_may : Date
first_of_may = record {
  paramter_undefined = false;
  code = 20160501;
  day = 1;
  month = 5;
  year = 2016;
}

abbrev pub end_of_may : Date
end_of_may = record {
  paramter_undefined = false;
  code = 20160531;
  day = 31;
  month = 5;
  year = 2016;
}

leap_day-IsDate : IsDate 2016 2 29
unfolding days_in_month
leap_day-IsDate = record {
  year_from = omega arith;
  year_to = omega arith;
  month_from = omega arith;
  month_to = omega arith;
  day_from = omega arith;
  day_to = omega arith;
}

first-IsDate : IsDate 2016 5 1
unfolding days_in_month
first-IsDate = record {
  year_from = omega arith;
  year_to = omega arith;
  month_from = omega arith;
  month_to = omega arith;
  day_from = omega arith;
  day_to = omega arith;
}

end-IsDate : IsDate 2016 5 31
unfolding days_in_month
end-IsDate = record {
  year_from = omega arith;
  year_to = omega arith;
  month_from = omega arith;
  month_to = omega arith;
  day_from = omega arith;
  day_to = omega arith;
}

pub first-IsCalendar : IsCalendar first_of_may
first-IsCalendar = record { given = refl; date = first-IsDate; made = refl }

pub end-IsCalendar : IsCalendar end_of_may
end-IsCalendar = record { given = refl; date = end-IsDate; made = refl }

rdn-eq-day_number_example : rdn 2016 2 29 ≡ day_number 2016 2 29
rdn-eq-day_number_example = rdn-eq-day_number 2016 2 29 leap_day-IsDate

day_of_week-eq_example : day_of_week 29 2 2016 ≡ some ((day_number 2016 2 29 + 6) % 7)
day_of_week-eq_example = day_of_week-eq 2016 2 29 leap_day-IsDate

pub may_ordered : day_number 2016 5 1 ≤ day_number 2016 5 31
unfolding day_number
may_ordered = omega arith

date_lt-number_example :
    ((date_lt first_of_may end_of_may ≡ true) ↔ (number first_of_may < number end_of_may))
    × (number first_of_may ≤ number end_of_may
        → days_after end_of_may first_of_may + number first_of_may ≡ number end_of_may)
date_lt-number_example = date_lt-number first_of_may end_of_may first-IsCalendar end-IsCalendar
