-- ===== src/Types/Scalars.antt =====
-- Number and Boolean of src/types.cpp.
use deals_server.Prelude.{
  is_empty, ℕ, ◌%◌, Bool, true, false, not, [], ◌∷◌, ◌++◌, if◌then◌else◌, Text, line, codes,
  text_eq, Outcome, ok, err, foreign, bad,
}
use deals_server.Utils.Calendar.{u32}
use deals_server.Utils.Numbers.{Stol, stol}
use deals_server.Utils.Strings.{to_lower_case}
use deals_server.Types.Params.{Parameter}

pub record Number : Type 0 where
  pub paramter_undefined : Bool
  pub value : ℕ

-- The long is converted to uint32_t; what std::stol throws is no `types::Error`.
abbrev pub number_of_stol : Stol → Outcome Number
number_of_stol (Stol.value n) = ok (record { paramter_undefined = false; value = n % u32 })
number_of_stol Stol.invalid_argument = foreign
number_of_stol Stol.out_of_range = foreign

-- Number(std::string).
unfoldable pub number_of_text : Text → Outcome Number
unfolding stol
number_of_text text =
    if is_empty text
    then ok (record { paramter_undefined = true; value = 0 })
    else number_of_stol (stol text)

-- Number(uint32_t).
abbrev pub number_of_value : ℕ → Number
number_of_value n = record { paramter_undefined = false; value = n }

unfoldable pub get_value : Number → Outcome ℕ
get_value n =
    if n.paramter_undefined then err (bad (line "Number value not defined")) else ok n.value

instance abbrev pub number_parameter : Parameter Number
number_parameter = record { of_text = number_of_text; is_undefined = λ n. n.paramter_undefined }

pub record Boolean : Type 0 where
  pub paramter_undefined : Bool
  pub value : Bool

-- Boolean(std::string).
unfoldable pub boolean_of_text : Text → Outcome Boolean
unfolding to_lower_case text_eq
boolean_of_text param =
    let p = to_lower_case param in
    if is_empty param
    then ok (record { paramter_undefined = true; value = false })
    else if text_eq p (codes "true")
    then ok (record { paramter_undefined = false; value = true })
    else if text_eq p (codes "false")
    then ok (record { paramter_undefined = false; value = false })
    else err (bad (codes "Not a boolean type:" ++ (param ++ 10 ∷ [])))

-- Boolean(bool).
abbrev pub boolean_of_bool : Bool → Boolean
boolean_of_bool b = record { paramter_undefined = false; value = b }

unfoldable pub is_true : Boolean → Outcome Bool
is_true b =
    if b.paramter_undefined then err (bad (line "Boolean value not defined")) else ok b.value

unfoldable pub is_false : Boolean → Outcome Bool
is_false b =
    if b.paramter_undefined then err (bad (line "Boolean value not defined")) else ok (not b.value)

instance abbrev pub boolean_parameter : Parameter Boolean
boolean_parameter = record { of_text = boolean_of_text; is_undefined = λ b. b.paramter_undefined }
