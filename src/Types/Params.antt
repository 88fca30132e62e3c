-- ===== src/Types/Params.antt =====
-- ObjectMap, Optional<Base> and Required<Base> of src/types.hpp. A class with a constructor from a
-- string and a flag for "not given" is an instance of `Parameter`.
pub mod Laws
use deals_server.Prelude.{
  Bool, true, false, List, [], ◌∷◌, ◌++◌, if◌then◌else◌, Text, codes, line, text_eq, Outcome, ok,
  err, foreign, Error, bad, ◌>>=◌, ◌>>◌, throw_if,
}

-- Object.
pub record Object : Type 0 where
  pub name : Text
  pub value : Text

abbrev pub ObjectMap : Type 0
ObjectMap = List Object

-- ObjectMap::operator[]: the first object of that name, or the empty text.
unfoldable pub lookup : ObjectMap → Text → Text
unfolding text_eq
lookup [] name = []
lookup (o ∷ objects) name = if text_eq o.name name then o.value else lookup objects name

-- ObjectMap::add_object.
unfoldable pub add_object : ObjectMap → Object → ObjectMap
add_object objects o = objects ++ o ∷ []

pub record Parameter {ℓ} (Base : Type ℓ) : Type ℓ where
  pub of_text : Text → Outcome Base
  pub is_undefined : Base → Bool

-- Optional<Base>.
pub record Optional {ℓ} (Base : Type ℓ) : Type ℓ where
  pub base : Base
  pub parameter_name : Text
  pub parameter_value : Text

-- The handlers of the constructors: a `types::Error` gets a new text and becomes a bad parameter,
-- whatever its code was; any other exception passes.
abbrev pub rethrow {ℓ} : {A : Type ℓ} → (Text → Text) → Outcome A → Outcome A
rethrow wrap (ok a) = ok a
rethrow wrap (err e) = err (bad (wrap e.message))
rethrow wrap foreign = foreign

abbrev pub bad_parameter_text : Text → Text → Text
bad_parameter_text name message = codes "Bad parameter:" ++ (name ++ (codes ". " ++ message))

abbrev pub bad_value_text : Text → Text → Text
bad_value_text name message = codes "Bad parameter:" ++ (name ++ (10 ∷ message))

abbrev pub must_be_defined : Error
must_be_defined = bad (line "Must be defined")

module _ {ℓ} {Base : Type ℓ} ⦃p : Parameter Base⦄ where
  -- The constructor of Optional.
  unfoldable pub optional : ObjectMap → Text → Outcome (Optional Base)
  unfolding lookup
  optional params name = rethrow (bad_parameter_text name) (do
    b ← p.of_text (lookup params name)
    ok (record { base = b; parameter_name = name; parameter_value = lookup params name }))

  -- The body that the two constructors of Required share.
  abbrev pub defined_from : Text → Outcome Base
  defined_from text = do b ← p.of_text text; throw_if (p.is_undefined b) must_be_defined; ok b

  -- Required(params, name). A Required object has the fields of its base alone.
  unfoldable pub required : ObjectMap → Text → Outcome Base
  unfolding lookup
  required params name = rethrow (bad_parameter_text name) (defined_from (lookup params name))

  -- Required(optional): the kept text is parsed again.
  unfoldable pub required_of_optional : Optional Base → Outcome Base
  required_of_optional o =
      rethrow (bad_value_text o.parameter_name) (defined_from o.parameter_value)
