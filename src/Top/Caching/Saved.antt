-- ===== src/Top/Caching/Saved.antt =====
-- What getCachedResult gives after saveResultToCache.
use deals_server.Prelude.{
  ℕ, zero, suc, ◌+◌, ◌%◌, ◌≢◌, ◌≤◌, ◌<◌, ◌≡◌, refl, sym, ap, ◌∙◌, ◌⊎◌, inl, inr, true, false, List,
  [], ◌∷◌, ltb, lt→ltb, ltb→lt, ◌==◌, ==_iff, ==_refl, length, take, Outcome, ok, arith, Bool-cases,
}
use deals_server.Utils.Calendar.{u32}
use deals_server.Types.Country.{CountryCode, country_get_code}
use deals_server.Types.Date.{Date}
use deals_server.Types.Scalars.{Number, get_value}
use deals_server.Top.Counting.{DstInfo}
use deals_server.Top.Caching.{
  Cache, new_cache, is_expired, Results, find, erase, served, has_dates, get_cached_result,
  save_result_to_cache,
}

not_short : (n l : ℕ) → l ≤ n → ltb n l ≡ false
not_short n l h = ground arith

not_equal : (a b : ℕ) → a ≢ b → (a == b) ≡ false
not_equal a b h = ground arith

take_whole : (result : List DstInfo) (n : ℕ) → length result ≤ n → take n result ≡ result
take_whole [] zero h = refl
take_whole [] (suc n) h = refl
take_whole (r ∷ result) zero h = absurd (omega arith)
take_whole (r ∷ result) (suc n) h = ap (λ rs. r ∷ rs) (take_whole result n (omega arith))

-- What a limit leaves of a result: nothing where the result is too short.
served_lem :
    (limit : Number) (result : List DstInfo)
    → (limit.paramter_undefined ≡ true → served limit result ≡ ok result)
      × (limit.paramter_undefined ≡ false
          → length result < limit.value
          → served limit result ≡ ok [])
      × (limit.paramter_undefined ≡ false
          → limit.value ≤ length result
          → served limit result ≡ ok (take limit.value result))
unfolding served get_value
served_lem limit result = (
  (λ undefined. rw undefined refl),
  (λ defined short. rw (defined, lt→ltb (length result) limit.value short) refl),
  (λ defined long.
      rw (defined, not_short (length result) limit.value long)
        (elim (Bool-cases (ltb limit.value (length result))) [
          | inl longer ↦ rw longer refl
          | inr equal ↦ rw equal (ap ok (sym (take_whole result limit.value (ground arith))))
        ])),
)

-- Another locale's entry is not touched.
find-erase_ne : (c d : ℕ) (entries : Results) → c ≢ d → find d (erase c entries) ≡ find d entries
unfolding find erase
find-erase_ne c d [] h = refl
find-erase_ne c d ((k, e) ∷ entries) h = elim (Bool-cases (k == c)) [
  | inl same ↦ elim (Bool-cases (k == d)) [
    | inl also ↦ absurd (h (sym ((==_iff k c).0 same) ∙ (==_iff k d).0 also))
    | inr other ↦ rw (same, other) refl
  ]
  | inr not_same ↦ elim (Bool-cases (k == d)) [
    | inl found ↦ rw (not_same, found) refl
    | inr other ↦ rw (not_same, other) (find-erase_ne c d entries h)
  ]
]

erase-front :
    (c : ℕ) (kept : Cache (List DstInfo)) (entries : Results)
    → erase c ((c, kept) ∷ entries) ≡ entries
unfolding erase
erase-front c kept entries = rw (==_refl c) refl

-- What a lookup gives for a result that was saved, by the limit.
abbrev pub IsLimited : Number → List DstInfo → Outcome (List DstInfo) → Type 0
IsLimited limit result o =
    ((limit.paramter_undefined ≡ true) × (o ≡ ok result))
    ⊎ (((limit.paramter_undefined ≡ false) × (length result < limit.value) × (o ≡ ok []))
        ⊎ ((limit.paramter_undefined ≡ false)
            × (limit.value ≤ length result)
            × (o ≡ ok (take limit.value result))))

served-IsLimited :
    (limit : Number) (result : List DstInfo) → IsLimited limit result (served limit result)
served-IsLimited limit result =
    let (whole, short, cut) = served_lem limit result in
    elim (Bool-cases limit.paramter_undefined) [
      | inl undefined ↦ inl (undefined, whole undefined)
      | inr defined ↦ elim (Bool-cases (ltb (length result) limit.value)) [
        | inl lt ↦
            let less = ltb→lt (length result) limit.value lt in
            inr (inl (defined, less, short defined less))
        | inr ge ↦
            let le : limit.value ≤ length result = ground arith in
            inr (inr (defined, le, cut defined le))
      ]
    ]

-- A result that is not empty, saved for a locale without dates. A lookup for that locale gives it for
-- 60 seconds, on uint32_t: whole where no limit is given, cut to the limit where it is as long, and
-- as an empty one where it is shorter; after them it gives nothing, and the entry is erased. What is
-- saved for another locale stays.
pub get_cached_result-save_result_to_cache :
    (now : ℕ) (locale : CountryCode) (from to : Date) (result : List DstInfo) (entries : Results)
    → locale.paramter_undefined ≡ false
    → has_dates from to ≡ false
    → 0 < length result
    → (saved : Results) × (save_result_to_cache now locale from to result entries ≡ ok saved)
      × ((later : ℕ) (limit : Number)
          → ((later ≤ (60 + now) % u32)
              × IsLimited limit result (get_cached_result later locale from to limit saved).0
              × ((get_cached_result later locale from to limit saved).1 ≡ saved))
            ⊎ (((60 + now) % u32 < later)
                × (get_cached_result later locale from to limit saved
                    ≡ (ok [], erase locale.code entries))))
      × ((other : ℕ) → (locale.code ≡ other) ⊎ (find other saved ≡ find other entries))
unfolding save_result_to_cache get_cached_result country_get_code find erase is_expired
get_cached_result-save_result_to_cache now locale from to result entries defined no_dates
      some_results =
    let here : (locale.code == locale.code) ≡ true = ==_refl locale.code in
    let empty : (length result == 0) ≡ false = ground arith in
    (
      (locale.code, new_cache now result 60) ∷ erase locale.code entries,
      rw (empty, no_dates, defined) refl,
      (λ later limit. elim (Bool-cases (ltb ((60 + now) % u32) later)) [
        | inr live ↦
            let le : later ≤ (60 + now) % u32 = ground arith in
            inl (
              le,
              rw (no_dates, defined, here, live) (served-IsLimited limit result),
              rw (no_dates, defined, here, live) refl,
            )
        | inl gone ↦ inr (
          ltb→lt ((60 + now) % u32) later gone,
          rw (no_dates, defined, here, gone)
              (ap (λ es. (ok [], es))
                (erase-front locale.code (new_cache now result 60) (erase locale.code entries))),
        )
      ]),
      (λ other. elim (Bool-cases (locale.code == other)) [
        | inl same ↦ inl ((==_iff locale.code other).0 same)
        | inr away ↦
            let ne : locale.code ≢ other = λ e. unequal locale.code other away e in
            inr (rw away (find-erase_ne locale.code other entries ne))
      ]),
    )
  where
    unequal : (a b : ℕ) → (a == b) ≡ false → a ≡ b → ⊥
    unequal a b h e = ground arith
