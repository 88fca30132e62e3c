-- ===== src/Deals/Filter/Matches.antt =====
-- The filter, against what each parameter of a search asks for.
use Prim.Native.Nat.{bit_and}
use deals_server.Prelude.{
  ℕ, ◌≤◌, ◌<◌, ◌≡◌, ◌≢◌, refl, ◌↔◌, ◌⊎◌, inl, inr, Bool, true, false, not, ◌&&◌, ◌||◌, arith, leb,
  ltb, ◌==◌, bool_eq, if◌then◌else◌, Bool-cases,
}
use deals_server.Query.Search.{SearchQuery}
use deals_server.Query.Setters.{contains}
use deals_server.Deals.Info.{DealInfo}
use deals_server.Deals.Filter.{
  selects, expired, other_origin, too_old, wrong_direction, other_destination, other_country,
  departs_outside, returns_outside, misses_exact_date, stays_outside, other_stops,
  other_departure_weekday, other_return_weekday,
}

-- What a search asks of a deal: each part only where its parameter was given.
pub record Matches (q : SearchQuery) (deal : DealInfo) : Type 0 where
  pub current : q.min_timestamp < deal.timestamp
  pub from_origin : q.filter_origin ≡ true → deal.origin ≡ q.origin_value
  pub young : q.filter_timestamp ≡ true → q.timestamp_value ≤ deal.timestamp
  pub direction :
      q.filter_flight_by_roundtrip ≡ true
      → (q.roundtrip_flight_flag ≡ true) ↔ (deal.return_date ≢ 0)
  pub destination_in :
      q.filter_destination ≡ true → contains q.destination_values_set deal.destination ≡ true
  pub country_in :
      q.filter_destination_country ≡ true
      → contains q.destination_country_set deal.destination_country ≡ true
  pub departs :
      q.filter_departure_date ≡ true
      → (q.departure_date_values.from ≤ deal.departure_date)
        × (deal.departure_date ≤ q.departure_date_values.to)
  pub returns :
      q.filter_return_date ≡ true
      → (q.return_date_values.from ≤ deal.return_date)
        × (deal.return_date ≤ q.return_date_values.to)
  pub exact :
      q.filter_exact_date ≡ true
      → (deal.return_date ≡ q.exact_date_value) ⊎ (deal.departure_date ≡ q.exact_date_value)
  pub stays :
      q.filter_stay_days ≡ true
      → (q.stay_days_values.from ≤ deal.stay_days) × (deal.stay_days ≤ q.stay_days_values.to)
  pub stops : q.filter_flight_by_stops ≡ true → q.direct_flights_flag ≡ deal.direct
  pub departure_weekday :
      q.filter_departure_weekdays ≡ true
      → bit_and deal.departure_day_of_week q.departure_weekdays_bitmask ≢ 0
  pub return_weekday :
      q.filter_return_weekdays ≡ true
      → bit_and deal.return_day_of_week q.return_weekdays_bitmask ≢ 0

leb-false : (a b : ℕ) → leb a b ≡ false → b < a
leb-false a b h = ground arith

ltb-false : (a b : ℕ) → ltb a b ≡ false → b ≤ a
ltb-false a b h = ground arith

not_eq : (a b : ℕ) → not (a == b) ≡ false → b ≡ a
not_eq a b h = ground arith

false-leb : (a b : ℕ) → b < a → leb a b ≡ false
false-leb a b h = ground arith

false-ltb : (a b : ℕ) → b ≤ a → ltb a b ≡ false
false-ltb a b h = ground arith

eq_not : (a b : ℕ) → b ≡ a → not (a == b) ≡ false
eq_not a b h = ground arith

-- A step of the ladder.
passes : (b rest : Bool) → ((if b then false else rest) ≡ true) → (b ≡ false) × (rest ≡ true)
passes true rest h = absurd (cc h)
passes false rest h = (refl, h)

pass : (b rest : Bool) → b ≡ false → rest ≡ true → (if b then false else rest) ≡ true
pass b rest h k = rw h k

guarded : (f t : Bool) → (f && t) ≡ false → f ≡ true → t ≡ false
guarded true t h e = h
guarded false t h e = absurd (cc e)

guard_off : (f t : Bool) → (f ≡ true → t ≡ false) → (f && t) ≡ false
guard_off true t h = h refl
guard_off false t h = refl

contains_not : (b : Bool) → (not b ≡ false) ↔ (b ≡ true)
contains_not true = (λ _. refl, λ _. refl)
contains_not false = (λ e. absurd (cc e), λ e. absurd (cc e))

outside : (x a b : ℕ) → ((ltb x a || ltb b x) ≡ false) ↔ ((a ≤ x) × (x ≤ b))
outside x a b = (λ h. (ground arith, ground arith), λ h. ground arith)

weekday_lem : (x : ℕ) → ((x == 0) ≡ false) ↔ (x ≢ 0)
weekday_lem x = ground arith

direction_lem :
    (f : Bool) (r : ℕ) → ((if f then r == 0 else not (r == 0)) ≡ false) ↔ ((f ≡ true) ↔ (r ≢ 0))
direction_lem true r =
    (λ h. (λ _. (weekday_lem r).0 h, λ _. refl), λ k. (weekday_lem r).1 (k.0 refl))
direction_lem false r = (
  λ h. (λ e. absurd (cc e), λ n. absurd (n (ground arith))),
  λ k. elim (Bool-cases (r == 0)) [
    | inl z ↦ rw z
    | inr nz ↦ absurd (cc (k.1 ((weekday_lem r).0 nz)))
  ],
)

neither : (a b x : ℕ) → ((not (a == x) && not (b == x)) ≡ false) ↔ ((a ≡ x) ⊎ (b ≡ x))
neither a b x = (λ h. ground arith, λ h. ground arith)

stops_lem : (a b : Bool) → (not (bool_eq a b) ≡ false) ↔ (a ≡ b)
stops_lem a b = ground arith

-- A deal is passed on just when it is newer than the least timestamp of the search, which is not enough
-- itself, and matches every part of the search that was given: nothing that matches is dropped, and
-- nothing else gets through.
pub selects-Matches : (q : SearchQuery) (deal : DealInfo) → (selects q deal ≡ true) ↔ Matches q deal
unfolding selects
selects-Matches q deal = (sound, complete)
  where
    sound : selects q deal ≡ true → Matches q deal
    sound h₀ =
        let (t₀, h₁) = passes (expired q deal) _ h₀ in
        let (t₁, h₂) = passes (other_origin q deal) _ h₁ in
        let (t₂, h₃) = passes (too_old q deal) _ h₂ in
        let (t₃, h₄) = passes (wrong_direction q deal) _ h₃ in
        let (t₄, h₅) = passes (other_destination q deal) _ h₄ in
        let (t₅, h₆) = passes (other_country q deal) _ h₅ in
        let (t₆, h₇) = passes (departs_outside q deal) _ h₆ in
        let (t₇, h₈) = passes (returns_outside q deal) _ h₇ in
        let (t₈, h₉) = passes (misses_exact_date q deal) _ h₈ in
        let (t₉, h₁₀) = passes (stays_outside q deal) _ h₉ in
        let (t₁₀, h₁₁) = passes (other_stops q deal) _ h₁₀ in
        let (t₁₁, h₁₂) = passes (other_departure_weekday q deal) _ h₁₁ in
        let (t₁₂, h₁₃) = passes (other_return_weekday q deal) _ h₁₂ in
        record {
          current = leb-false deal.timestamp q.min_timestamp t₀;
          from_origin = λ e. not_eq q.origin_value deal.origin (guarded q.filter_origin _ t₁ e);
          young =
              λ e. ltb-false deal.timestamp q.timestamp_value (guarded q.filter_timestamp _ t₂ e);
          direction = λ e.
              (direction_lem q.roundtrip_flight_flag deal.return_date).0
                (guarded q.filter_flight_by_roundtrip _ t₃ e);
          destination_in = λ e.
              (contains_not (contains q.destination_values_set deal.destination)).0
                (guarded q.filter_destination _ t₄ e);
          country_in = λ e.
              (contains_not (contains q.destination_country_set deal.destination_country)).0
                (guarded q.filter_destination_country _ t₅ e);
          departs = λ e.
              (outside deal.departure_date q.departure_date_values.from
                  q.departure_date_values.to).0
                (guarded q.filter_departure_date _ t₆ e);
          returns = λ e.
              (outside deal.return_date q.return_date_values.from q.return_date_values.to).0
                (guarded q.filter_return_date _ t₇ e);
          exact = λ e.
              (neither deal.return_date deal.departure_date q.exact_date_value).0
                (guarded q.filter_exact_date _ t₈ e);
          stays = λ e.
              (outside deal.stay_days q.stay_days_values.from q.stay_days_values.to).0
                (guarded q.filter_stay_days _ t₉ e);
          stops = λ e.
              (stops_lem q.direct_flights_flag deal.direct).0
                (guarded q.filter_flight_by_stops _ t₁₀ e);
          departure_weekday = λ e.
              (weekday_lem (bit_and deal.departure_day_of_week q.departure_weekdays_bitmask)).0
                (guarded q.filter_departure_weekdays _ t₁₁ e);
          return_weekday = λ e.
              (weekday_lem (bit_and deal.return_day_of_week q.return_weekdays_bitmask)).0
                (guarded q.filter_return_weekdays _ t₁₂ e);
        }

    complete : Matches q deal → selects q deal ≡ true
    complete m = pass (expired q deal) _ (false-leb deal.timestamp q.min_timestamp m.current) (
        pass (other_origin q deal) _
          (guard_off q.filter_origin _ (λ e. eq_not q.origin_value deal.origin (m.from_origin e)))
          (pass (too_old q deal) _
            (guard_off q.filter_timestamp _
              (λ e. false-ltb deal.timestamp q.timestamp_value (m.young e)))
            (pass (wrong_direction q deal) _
              (guard_off q.filter_flight_by_roundtrip _
                (λ e. (direction_lem q.roundtrip_flight_flag deal.return_date).1 (m.direction e)))
              (pass (other_destination q deal) _
                (guard_off q.filter_destination _ (λ e.
                  (contains_not (contains q.destination_values_set deal.destination)).1
                    (m.destination_in e)))
                (pass (other_country q deal) _
                  (guard_off q.filter_destination_country _ (λ e.
                    (contains_not (contains q.destination_country_set deal.destination_country)).1
                      (m.country_in e)))
                  (pass (departs_outside q deal) _
                    (guard_off q.filter_departure_date _ (λ e.
                      (outside deal.departure_date q.departure_date_values.from
                          q.departure_date_values.to).1
                        (m.departs e)))
                    (pass (returns_outside q deal) _
                      (guard_off q.filter_return_date _ (λ e.
                        (outside deal.return_date q.return_date_values.from
                            q.return_date_values.to).1
                          (m.returns e)))
                      (pass (misses_exact_date q deal) _
                        (guard_off q.filter_exact_date _ (λ e.
                          (neither deal.return_date deal.departure_date q.exact_date_value).1
                            (m.exact e)))
                        (pass (stays_outside q deal) _
                          (guard_off q.filter_stay_days _ (λ e.
                            (outside deal.stay_days q.stay_days_values.from q.stay_days_values.to).1
                              (m.stays e)))
                          (pass (other_stops q deal) _
                            (guard_off q.filter_flight_by_stops _
                              (λ e. (stops_lem q.direct_flights_flag deal.direct).1 (m.stops e)))
                            (pass (other_departure_weekday q deal) _
                              (guard_off q.filter_departure_weekdays _ (λ e.
                                (weekday_lem (
                                    bit_and deal.departure_day_of_week
                                      q.departure_weekdays_bitmask)).1
                                  (m.departure_weekday e)))
                              (pass (other_return_weekday q deal) _
                                (guard_off q.filter_return_weekdays _ (λ e.
                                  (weekday_lem
                                      (bit_and deal.return_day_of_week q.return_weekdays_bitmask)).1
                                    (m.return_weekday e)))
                                refl))))))))))))
