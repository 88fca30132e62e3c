-- ===== src/Prelude/Decimal.antt =====
-- std::to_string of an unsigned integer, and the digits that std::stol reads.
use Prim.Native.Nat.{ℕ, zero, suc, ◌+◌, ◌-◌, ◌*◌, ◌/◌, ◌%◌, ◌≤◌, ◌<◌}
use mathlib.Core.Path.{◌≡◌, refl, ap, ◌∙◌}
use mathlib.Core.Bool.{Bool, true, ◌&&◌}
use mathlib.Core.Logic.{inl, inr}
use mathlib.Core.List.{[], ◌∷◌, ◌++◌}
use native.Mathlib.Omega.{arith}
use deals_server.Prelude.Tests.{ltb, leb, if◌then◌else◌, Bool-cases}
use deals_server.Prelude.Bytes.{Text}

-- Digits are made from the last one; the number itself is fuel enough.
digits_from : ℕ → ℕ → Text → Text
digits_from zero n out = out
digits_from (suc fuel) n out =
    let more = digits_from fuel (n / 10) ((b'0' + n % 10) ∷ out) in
    if ltb n 10 then (b'0' + n) ∷ out else more

unfoldable pub to_string : ℕ → Text
unfolding digits_from
to_string n = digits_from (suc n) n []

abbrev pub is_digit : ℕ → Bool
is_digit c = leb b'0' c && leb c b'9'

-- The digits at the front of a text, read as a number behind `acc`, and what follows them.
unfoldable pub read_digits : ℕ → Text → ℕ × Text
read_digits acc [] = (acc, [])
read_digits acc (c ∷ s) = if is_digit c then read_digits (acc * 10 + (c - b'0')) s else (acc, c ∷ s)

-- Enough fuel is any amount above the number.
digits_from_fuel :
    (f g n : ℕ) (out : Text) → n < f → n < g → digits_from f n out ≡ digits_from g n out
unfolding digits_from
digits_from_fuel zero g n out h k = absurd (omega arith)
digits_from_fuel (suc f) zero n out h k = absurd (omega arith)
digits_from_fuel (suc f) (suc g) n out h k = elim (Bool-cases (ltb n 10)) [
  | inl low ↦ rw low
  | inr high ↦ rw high (digits_from_fuel f g (n / 10) _ (ground arith) (ground arith))
]

digits_from-append :
    (f n : ℕ) (out rest : Text) → digits_from f n (out ++ rest) ≡ digits_from f n out ++ rest
unfolding digits_from
digits_from-append zero n out rest = refl
digits_from-append (suc f) n out rest = elim (Bool-cases (ltb n 10)) [
  | inl low ↦ rw low
  | inr high ↦ rw high (digits_from-append f (n / 10) ((b'0' + n % 10) ∷ out) rest)
]

pub to_string_low : (n : ℕ) → n < 10 → to_string n ≡ (b'0' + n) ∷ []
unfolding to_string
to_string_low n h = ground arith

-- The digits of a number of two digits or more.
pub to_string_step : (n : ℕ) → 10 ≤ n → to_string n ≡ to_string (n / 10) ++ (b'0' + n % 10) ∷ []
unfolding to_string
to_string_step n h = elim (Bool-cases (ltb n 10)) [
  | inl low ↦ absurd (ground arith)
  | inr high ↦ rw high (
      digits_from_fuel n (suc (n / 10)) (n / 10) _ (omega arith) (omega arith)
      ∙ digits_from-append (suc (n / 10)) (n / 10) [] ((b'0' + n % 10) ∷ []))
]

-- A digit in front is read, and the rest is read behind it.
pub read_digits_step :
    (acc d : ℕ) (s : Text)
    → d < 10
    → read_digits acc ((b'0' + d) ∷ s) ≡ read_digits (acc * 10 + d) s
unfolding read_digits
read_digits_step acc d s h =
    rw (digit_lem d h) (ap (λ n. read_digits (acc * 10 + n) s) (omega arith))
  where
    digit_lem : (d : ℕ) → d < 10 → is_digit (b'0' + d) ≡ true
    digit_lem d h = ground arith

pub read_digits_nil : (acc : ℕ) → read_digits acc [] ≡ (acc, [])
unfolding read_digits
read_digits_nil acc = refl
