-- ===== src/Deals/Adding/Stays.antt =====
-- A deal without a return date, and the length of a stay.
use deals_server.Prelude.{
  Option-cases, ◌∙◌, ℕ, ◌≡◌, ◌≤◌, ◌<◌, ◌+◌, refl, ap, none, arith, ltb, if◌then◌else◌, inl, inr,
}
use deals_server.Utils.Calendar.{day_of_week, month_offset}
use deals_server.Types.Date.{Date, weekday, undefined_date, days_after}
use deals_server.Types.Date.Order.{IsCalendar, number, date_lt-number}
use deals_server.Types.Weekdays.{weekdays_of_date}
use deals_server.Deals.Adding.{Stored, NewDeal, add_deal, stay_of}

cut :
    (n a b : ℕ)
    → n + a ≡ b
    → ((if ltb 255 n then 255 else n) ≤ 255)
      × (b < a + 256 → (if ltb 255 n then 255 else n) + a ≡ b)
cut n a b e = ground arith

-- The stay of a deal between two dates of the calendar in order fits into a byte, and is the number
-- of days from the one to the other where that is at most 255.
pub stay_of-number :
    (a b : Date)
    → IsCalendar a
    → IsCalendar b
    → number a ≤ number b
    → (stay_of a b ≤ 255) × (number b < number a + 256 → stay_of a b + number a ≡ number b)
stay_of-number a b ha hb le =
    simp hb.given (cut (days_after b a) (number a) (number b) ((date_lt-number a b ha hb).1 le))

no_weekday : weekdays_of_date undefined_date ≡ none
unfolding weekdays_of_date weekday day_of_week month_offset
no_weekday = refl

-- For every deal whose return date is not given, `addDeal` reads outside the table of months.
pub add_deal-none :
    (now : ℕ) (result : Stored) (deal : NewDeal)
    → deal.return_date ≡ undefined_date
    → add_deal now result deal ≡ none
unfolding add_deal
add_deal-none now result deal e =
    let r : weekdays_of_date deal.return_date ≡ none = ap weekdays_of_date e ∙ no_weekday in
    elim (Option-cases (weekdays_of_date deal.departure_date)) [
      | inl missing ↦ rw (missing, add_deal) refl
      | inr (w, found) ↦ rw (found, add_deal) (rw r refl)
    ]
