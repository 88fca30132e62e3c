-- ===== src/Types/Country.antt =====
-- CountryCode and CountryCodes of src/types.cpp, and the table COUNTRIES of src/types.hpp.
pub mod Table
use deals_server.Prelude.{
  is_empty, ℕ, zero, suc, ◌+◌, ◌%◌, ◌<◌, Bool, true, false, not, ◌&&◌, ◌||◌, List, [], ◌∷◌, ◌++◌,
  Option, none, some, leb, ltb, ◌==◌, if◌then◌else◌, Text, line, codes, Outcome, ok, err, bad,
  internal, ◌>>=◌, ◌>>◌, length, get_or, get_elem?,
}
use deals_server.Prelude.Decimal.{to_string}
use deals_server.Utils.Strings.{to_upper_case, split_string}
use deals_server.Types.Params.{Parameter}

-- Two letters to a country, as in the source's rows.
unfoldable pub pairs : Text → List Text
pairs [] = []
pairs (a ∷ []) = []
pairs (a ∷ b ∷ s) = (a ∷ b ∷ []) ∷ pairs s

unfoldable pub countries : List Text
unfolding pairs
countries = pairs (
    codes "AFAXALDZASADAOAIAQAGARAMAWAUATAZ"
    ++ (codes "BSBHBDBBBYBEBZBJBMBTBOBQBABWBVBR"
        ++ (codes "IOVGBNBGBFBIKHCMCACVKYCFTDCLCNCX"
            ++ (codes "CCCOKMCKCRHRCUCWCYCZCDDKDJDMDOTL"
                ++ (codes "ECEGSVGQEREEETFKFOFJFIFRGFPFTFGA"
                    ++ (codes "GMGEDEGHGIGRGLGDGPGUGTGGGNGWGYHT"
                        ++ (codes "HMHNHKHUISINIDIRIQIEIMILITCIJMJP"
                            ++ (codes "JEJOKZKEKIXKKWKGLALVLBLSLRLYLILT"
                                ++ (codes "LUMOMKMGMWMYMVMLMTMHMQMRMUYTMXFM"
                                    ++ (codes "MDMCMNMEMSMAMZMMNANRNPNLANNCNZNI"
                                        ++ (codes "NENGNUNFKPMPNOOMPKPWPSPAPGPYPEPH"
                                            ++ (codes "PNPLPTPRQACGRERORURWBLSHKNLCMFPM"
                                                ++ (codes "VCWSSMSTSASNRSCSSCSLSGSXSKSISBSO"
                                                    ++ (codes "ZAGSKRSSESLKSDSRSJSZSECHSYTWTJTZ"
                                                        ++ (codes "THTGTKTOTTTNTRTMTCTVVIUGUAAEGBUS"
                                                            ++ (codes
                                                            "UMUYUZVUVAVEVNWFEHYEZMZW"))))))))))))))))

-- The loop of `country_to_code` at index x; `auto x = 0` is an int, the result a uint8_t.
unfoldable pub search_country : Text → List Text → ℕ → Option ℕ
search_country country [] x = none
search_country country (code ∷ codes) x =
    let rest = search_country country codes (suc x) in
    if get_or code 0 0 == get_or country 0 0 && get_or code 1 0 == get_or country 1 0
    then some (x % 256)
    else rest

unfoldable pub country_to_code : Text → Outcome ℕ
unfolding search_country countries
country_to_code country = elim (search_country country countries 0) [
  | none ↦ err (bad (codes "unknown country:" ++ (country ++ 10 ∷ [])))
  | some x ↦ ok x
]

-- `none` is a read behind the end of the table.
unfoldable pub code_to_country : ℕ → Option (Outcome Text)
unfolding countries to_string
code_to_country code =
    if ltb (length countries) code
    then some (err (internal (codes "CountryCode bad code:'" ++ (to_string code ++ line "'"))))
    else elim (get_elem? countries code) [ none ↦ none | some country ↦ some (ok country) ]

pub record CountryCode : Type 0 where
  pub paramter_undefined : Bool
  pub code : ℕ

-- CountryCode(std::string).
unfoldable pub country_of_text : Text → Outcome CountryCode
unfolding country_to_code to_upper_case
country_of_text text =
    if is_empty text
    then ok (record { paramter_undefined = true; code = 0 })
    else if not (length text == 2)
    then err (bad (codes "CountryCode format error:" ++ (text ++ 10 ∷ [])))
    else (do
      code ← country_to_code (to_upper_case text)
      ok (record { paramter_undefined = false; code = code }))

-- CountryCode(uint8_t).
unfoldable pub country_of_dbcode : ℕ → Outcome CountryCode
unfolding countries to_string
country_of_dbcode dbcode =
    if leb (length countries) dbcode
    then err (internal (codes "Bad Country code:" ++ (to_string dbcode ++ 10 ∷ [])))
    else ok (record { paramter_undefined = false; code = dbcode })

unfoldable pub country_eq : CountryCode → CountryCode → Bool
country_eq a b = if a.paramter_undefined || b.paramter_undefined then false else a.code == b.code

unfoldable pub country_get_code : CountryCode → Outcome ℕ
country_get_code c =
    if c.paramter_undefined then err (bad (line "CountryCode parameter not defined")) else ok c.code

instance abbrev pub country_parameter : Parameter CountryCode
country_parameter = record { of_text = country_of_text; is_undefined = λ c. c.paramter_undefined }

-- An unordered_set in the order of insertion.
pub record CountryCodes : Type 0 where
  pub paramter_undefined : Bool
  pub codes : List CountryCode

unfoldable pub country_contains : List CountryCode → CountryCode → Bool
unfolding country_eq
country_contains [] c = false
country_contains (x ∷ xs) c = country_eq x c || country_contains xs c

unfoldable pub country_insert : List CountryCode → CountryCode → List CountryCode
unfolding country_contains
country_insert xs c = if country_contains xs c then xs else xs ++ c ∷ []

-- The loop of CountryCodes(std::string) over the tokens.
unfoldable pub country_insert_all : List CountryCode → List Text → Outcome (List CountryCode)
unfolding country_of_text country_insert
country_insert_all xs [] = ok xs
country_insert_all xs (t ∷ ts) = do
  c ← country_of_text t
  country_insert_all (country_insert xs c) ts

unfoldable pub countries_of_text : Text → Outcome CountryCodes
unfolding country_insert_all split_string
countries_of_text text =
    if is_empty text then ok (record { paramter_undefined = true; codes = [] }) else (do
      cs ← country_insert_all [] (split_string text (b',' ∷ []))
      ok (record { paramter_undefined = false; codes = cs }))

-- CountryCodes::add_code.
unfoldable pub countries_add_code : CountryCodes → ℕ → Outcome CountryCodes
unfolding country_of_dbcode country_insert
countries_add_code cs dbcode = do
  c ← country_of_dbcode dbcode
  ok (record { paramter_undefined = false; codes = country_insert cs.codes c })

instance abbrev pub countries_parameter : Parameter CountryCodes
countries_parameter = record {
  of_text = countries_of_text;
  is_undefined = λ c. c.paramter_undefined;
}
