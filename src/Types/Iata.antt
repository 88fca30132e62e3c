-- ===== src/Types/Iata.antt =====
-- IATACode, IATACodes and the place codec of src/types.cpp. The union PlaceCodec is read on a
-- little-endian machine: byte i of the array is worth 256 ^ i.
pub mod Codec
use deals_server.Prelude.{
  is_empty, ℕ, ◌+◌, ◌*◌, ◌/◌, ◌%◌, ◌^◌, Bool, true, false, not, ◌&&◌, ◌||◌, List, [], ◌∷◌, ◌++◌,
  ◌==◌, if◌then◌else◌, Text, line, codes, Outcome, ok, err, bad, internal, ◌>>=◌, ◌>>◌, throw_if,
  length, get_or,
}
use deals_server.Prelude.Decimal.{to_string}
use deals_server.Utils.Strings.{to_upper_case, split_string}
use deals_server.Types.Params.{Parameter}

-- origin_to_code reads three bytes; behind the end of a text stands a zero.
unfoldable pub origin_to_code : Text → ℕ
origin_to_code code = get_or code 0 0 * 2 ^ 8 + get_or code 1 0 * 2 ^ 16 + get_or code 2 0 * 2 ^ 24

unfoldable pub code_to_origin : ℕ → Text
code_to_origin code = (code / 2 ^ 8 % 256) ∷ (code / 2 ^ 16 % 256) ∷ (code / 2 ^ 24 % 256) ∷ []

pub record IataCode : Type 0 where
  pub paramter_undefined : Bool
  pub code : ℕ

-- IATACode(std::string).
unfoldable pub iata_of_text : Text → Outcome IataCode
unfolding origin_to_code to_upper_case
iata_of_text text =
    if is_empty text
    then ok (record { paramter_undefined = true; code = 0 })
    else if not (length text == 3)
    then err (bad (codes "Bad IATA code:" ++ (text ++ 10 ∷ [])))
    else ok (record { paramter_undefined = false; code = origin_to_code (to_upper_case text) })

-- IATACode(uint32_t).
unfoldable pub iata_of_dbcode : ℕ → Outcome IataCode
unfolding to_string
iata_of_dbcode dbcode =
    if dbcode == 0
    then err (internal (codes "Bad IATA code:" ++ (to_string dbcode ++ 10 ∷ [])))
    else ok (record { paramter_undefined = false; code = dbcode })

-- operator==: a code that is not given equals nothing.
unfoldable pub iata_eq : IataCode → IataCode → Bool
iata_eq a b = if a.paramter_undefined || b.paramter_undefined then false else a.code == b.code

unfoldable pub iata_get_code : IataCode → Outcome ℕ
iata_get_code c =
    if c.paramter_undefined then err (bad (line "IATACode parameter not defined")) else ok c.code

instance abbrev pub iata_parameter : Parameter IataCode
iata_parameter = record { of_text = iata_of_text; is_undefined = λ c. c.paramter_undefined }

-- An unordered_set in the order of insertion.
pub record IataCodes : Type 0 where
  pub paramter_undefined : Bool
  pub codes : List IataCode

unfoldable pub iata_contains : List IataCode → IataCode → Bool
unfolding iata_eq
iata_contains [] c = false
iata_contains (x ∷ xs) c = iata_eq x c || iata_contains xs c

-- unordered_set::insert.
unfoldable pub iata_insert : List IataCode → IataCode → List IataCode
unfolding iata_contains
iata_insert xs c = if iata_contains xs c then xs else xs ++ c ∷ []

-- The loop of IATACodes(std::string) over the tokens.
unfoldable pub iata_insert_all : List IataCode → List Text → Outcome (List IataCode)
unfolding iata_of_text iata_insert
iata_insert_all xs [] = ok xs
iata_insert_all xs (t ∷ ts) = do c ← iata_of_text t; iata_insert_all (iata_insert xs c) ts

unfoldable pub iatas_of_text : Text → Outcome IataCodes
unfolding iata_insert_all split_string
iatas_of_text text =
    if is_empty text then ok (record { paramter_undefined = true; codes = [] }) else (do
      cs ← iata_insert_all [] (split_string text (b',' ∷ []))
      ok (record { paramter_undefined = false; codes = cs }))

-- IATACodes::add_code.
unfoldable pub iatas_add_code : IataCodes → ℕ → Outcome IataCodes
unfolding iata_of_dbcode iata_insert
iatas_add_code cs dbcode = do
  c ← iata_of_dbcode dbcode
  ok (record { paramter_undefined = false; codes = iata_insert cs.codes c })

instance abbrev pub iatas_parameter : Parameter IataCodes
iatas_parameter = record { of_text = iatas_of_text; is_undefined = λ c. c.paramter_undefined }
