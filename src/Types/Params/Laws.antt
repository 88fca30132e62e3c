-- ===== src/Types/Params/Laws.antt =====
-- What the constructors of the parameters promise.
use deals_server.Prelude.{
  Bool, true, false, ◌≡◌, ◌⊎◌, inl, inr, refl, ap, bad, Text, Outcome, ok, err, foreign,
  bad_parameter, arith,
}
use deals_server.Types.Params.{
  ObjectMap, Parameter, Optional, lookup, optional, required, required_of_optional, rethrow,
  defined_from, bad_parameter_text, bad_value_text, must_be_defined,
}

module _ (Base : Type 0) ⦃p : Parameter Base⦄ where
  -- A required parameter that is built is defined, and is what its text says.
  abbrev pub IsGiven : ObjectMap → Text → Outcome Base → Type 0
  IsGiven params name (ok b) = (p.of_text (lookup params name) ≡ ok b) × (p.is_undefined b ≡ false)
  IsGiven params name (err e) = e.error_code ≡ bad_parameter
  IsGiven params name foreign = p.of_text (lookup params name) ≡ foreign

  pub required-IsGiven :
      (params : ObjectMap) (name : Text) → IsGiven params name (required params name)
  unfolding required
  required-IsGiven params name = given (p.of_text (lookup params name)) refl
    where
      text : Text
      text = lookup params name

      defined :
          (b : Base)
          → p.of_text text ≡ ok b
          → (u : Bool) → p.is_undefined b ≡ u
          → IsGiven params name (required params name)
      defined b e true u = rw (e, required) (rw u refl)
      defined b e false u = rw (e, required) (rw u (e, u))

      given : (r : Outcome Base) → p.of_text text ≡ r → IsGiven params name (required params name)
      given (ok b) e = defined b e (p.is_undefined b) refl
      given (err x) e = rw (e, required) refl
      given foreign e = rw (e, required) e

  -- The optional parameter of a value.
  abbrev pub kept_as : ObjectMap → Text → Base → Optional Base
  kept_as params name b = record {
    base = b;
    parameter_name = name;
    parameter_value = lookup params name;
  }

  -- The three constructors, by what the constructor of the base ends with on the parameter's text.
  abbrev pub Built : ObjectMap → Text → Outcome Base → Type 0
  Built params name (ok b) =
      (optional {Base = Base} params name ≡ ok (kept_as params name b))
      × (((p.is_undefined b ≡ false)
            × (required {Base = Base} params name ≡ ok b)
            × (required_of_optional (kept_as params name b) ≡ ok b))
          ⊎ ((p.is_undefined b ≡ true)
              × (required {Base = Base} params name
                  ≡ err (bad (bad_parameter_text name must_be_defined.message)))
              × (required_of_optional (kept_as params name b)
                  ≡ err (bad (bad_value_text name must_be_defined.message)))))
  Built params name (err e) =
      (optional {Base = Base} params name ≡ err (bad (bad_parameter_text name e.message)))
      × (required {Base = Base} params name ≡ err (bad (bad_parameter_text name e.message)))
  Built params name foreign =
      (optional {Base = Base} params name ≡ foreign)
      × (required {Base = Base} params name ≡ foreign)

  -- Whatever the constructor of a type ends with on a parameter's text: where it gives a value, Optional
  -- keeps it with the name and the text, and both constructors of Required give that value where it is
  -- defined, and the bad parameter that must be defined where it is not; where it throws a
  -- `types::Error`, of any code, Optional and Required throw a bad parameter with its message behind
  -- the parameter's name; an exception of another type passes both.
  pub required-Built :
      (params : ObjectMap) (name : Text) → Built params name (p.of_text (lookup params name))
  unfolding optional required required_of_optional
  required-Built params name = built (p.of_text (lookup params name)) refl
    where
      defined :
          (b : Base)
          → p.of_text (lookup params name) ≡ ok b
          → (u : Bool) → p.is_undefined b ≡ u
          → Built params name (ok b)
      defined b e true u = rw (e, u) (refl, inr (refl, refl, refl))
      defined b e false u = rw (e, u) (refl, inl (refl, refl, refl))

      built : (r : Outcome Base) → p.of_text (lookup params name) ≡ r → Built params name r
      built (ok b) e = defined b e (p.is_undefined b) refl
      built (err x) e = rw e (refl, refl)
      built foreign e = rw e (refl, refl)

module _ {Base : Type 0} ⦃p : Parameter Base⦄ where
  -- An optional parameter keeps its name and its text.
  optional-eq-ok :
      (params : ObjectMap) (name : Text) (o : Optional Base)
      → optional params name ≡ ok o
      → (p.of_text (lookup params name) ≡ ok o.base)
        × (o
            ≡ record { base = o.base; parameter_name = name; parameter_value = lookup params name })
  unfolding optional
  optional-eq-ok params name o e = parsed (p.of_text (lookup params name)) refl
    where
      parsed :
          (r : Outcome Base)
          → p.of_text (lookup params name) ≡ r
          → (p.of_text (lookup params name) ≡ ok o.base)
            × (o ≡ record {
              base = o.base;
              parameter_name = name;
              parameter_value = lookup params name;
            })
      parsed (ok b) r = ground (arith, r, e)
      parsed (err x) r = absurd (ground (arith, r, e))
      parsed foreign r = absurd (ground (arith, r, e))

  defined_from_lem :
      (wrap : Text → Text) (text : Text) (b : Base)
      → p.of_text text ≡ ok b
      → p.is_undefined b ≡ false
      → rethrow wrap (defined_from text) ≡ ok b
  defined_from_lem wrap text b e d = rw (e, d)

  -- Where an optional parameter was built and is defined, the required one is built from it, and
  -- is the same as that from the map.
  pub required_of_optional-eq :
      (params : ObjectMap) (name : Text) (o : Optional Base)
      → optional params name ≡ ok o
      → p.is_undefined o.base ≡ false
      → (required_of_optional o ≡ ok o.base) × (required params name ≡ ok o.base)
  unfolding required_of_optional required
  required_of_optional-eq params name o e d =
      let (parsed, kept) = optional-eq-ok params name o e in
      (
        rw (ap (λ (x : Optional Base). x.parameter_value) kept) (
            defined_from_lem (bad_value_text o.parameter_name) (lookup params name) o.base parsed
              d),
        defined_from_lem (bad_parameter_text name) (lookup params name) o.base parsed d,
      )
