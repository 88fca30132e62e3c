-- ===== src/Top/Caching.antt =====
-- Cache of src/cache.hpp, and the results that TopDstDatabase keeps for each locale.
pub mod Saved
use deals_server.Prelude.{
  ℕ, ◌+◌, ◌%◌, Bool, true, false, not, ◌&&◌, ◌||◌, List, [], ◌∷◌, Option, none, some, ltb, ◌==◌,
  if◌then◌else◌, length, take, Outcome, ok, err, foreign, ◌>>=◌,
}
use deals_server.Utils.Calendar.{u32}
use deals_server.Types.Country.{CountryCode, country_get_code}
use deals_server.Types.Date.{Date}
use deals_server.Types.Scalars.{Number, get_value}
use deals_server.Top.Counting.{DstInfo}

pub record Cache {ℓ} (A : Type ℓ) : Type ℓ where
  pub ts_live_until_sec : ℕ
  pub value : A

module _ {ℓ} {A : Type ℓ} where
  -- The constructor, at a time.
  abbrev pub new_cache : ℕ → A → ℕ → Cache A
  new_cache now value lifetime_sec = record {
    ts_live_until_sec = (lifetime_sec + now) % u32;
    value = value;
  }

  unfoldable pub is_expired : ℕ → Cache A → Bool
  is_expired now c = ltb c.ts_live_until_sec now

-- `result_cache_by_locale`, where a locale has at most one entry.
abbrev pub Results : Type 0
Results = List (ℕ × Cache (List DstInfo))

unfoldable pub find : ℕ → Results → Option (Cache (List DstInfo))
find locale [] = none
find locale ((k, c) ∷ entries) = if k == locale then some c else find locale entries

unfoldable pub erase : ℕ → Results → Results
erase locale [] = []
erase locale ((k, c) ∷ entries) =
    let rest = erase locale entries in if k == locale then entries else (k, c) ∷ rest

-- The result that is served under a limit.
unfoldable pub served : Number → List DstInfo → Outcome (List DstInfo)
served limit result = if limit.paramter_undefined then ok result else (do
  limit_value ← get_value limit
  ok (
      if ltb (length result) limit_value
      then []
      else if ltb limit_value (length result)
      then take limit_value result
      else result))

abbrev pub has_dates : Date → Date → Bool
has_dates departure_date_from departure_date_to =
    not departure_date_from.paramter_undefined || not departure_date_to.paramter_undefined

-- getCachedResult, from what is found under the locale's code.
abbrev pub cached :
    ℕ → Number → Results → ℕ → Option (Cache (List DstInfo)) → Outcome (List DstInfo) × Results
cached now limit entries locale none = (ok [], entries)
cached now limit entries locale (some c) =
    if is_expired now c then (ok [], erase locale entries) else (served limit c.value, entries)

abbrev pub cached_under : ℕ → Number → Results → Outcome ℕ → Outcome (List DstInfo) × Results
cached_under now limit entries (ok locale) = cached now limit entries locale (find locale entries)
cached_under now limit entries (err e) = (err e, entries)
cached_under now limit entries foreign = (foreign, entries)

unfoldable pub get_cached_result :
    ℕ → CountryCode → Date → Date → Number → Results → Outcome (List DstInfo) × Results
get_cached_result now locale departure_date_from departure_date_to limit entries =
    if has_dates departure_date_from departure_date_to
    then (ok [], entries)
    else cached_under now limit entries (country_get_code locale)

-- saveResultToCache: a result is kept for a minute.
unfoldable pub save_result_to_cache :
    ℕ → CountryCode → Date → Date → List DstInfo → Results → Outcome Results
save_result_to_cache now locale departure_date_from departure_date_to result entries =
    if length result == 0 || has_dates departure_date_from departure_date_to
    then ok entries
    else (do
      locale_code ← country_get_code locale
      ok ((locale_code, new_cache now result 60) ∷ erase locale_code entries))
