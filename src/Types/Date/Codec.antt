-- ===== src/Types/Date/Codec.antt =====
-- A date's text and its code.
use deals_server.Prelude.{
  ℕ, ◌+◌, ◌*◌, ◌/◌, ◌^◌, ◌≤◌, ◌<◌, ◌≡◌, ap, [], ◌∷◌, ◌++◌, arith, ltb, ltb→lt, Bool-cases, inl, inr,
  Text, ok,
}
use deals_server.Prelude.Decimal.{
  to_string, to_string_low, to_string_step, read_digits, read_digits_step, read_digits_nil,
}
use deals_server.Utils.Numbers.{Stol, stol, signed, magnitude, skip_spaces}
use deals_server.Types.Date.{
  date_to_int, year_of_code, month_of_code, day_of_code, int_to_date, two_digits,
}

-- y1 y2 y3 y4 - m1 m2 - d1 d2, by the values of the digits.
abbrev pub date_text : ℕ → ℕ → ℕ → ℕ → ℕ → ℕ → ℕ → ℕ → Text
date_text y₁ y₂ y₃ y₄ m₁ m₂ d₁ d₂ =
    (b'0' + y₁)
    ∷ (b'0' + y₂)
    ∷ (b'0' + y₃)
    ∷ (b'0' + y₄)
    ∷ b'-'
    ∷ (b'0' + m₁)
    ∷ (b'0' + m₂)
    ∷ b'-'
    ∷ (b'0' + d₁)
    ∷ (b'0' + d₂)
    ∷ []

abbrev pub date_code : ℕ → ℕ → ℕ → ℕ → ℕ → ℕ → ℕ → ℕ → ℕ
date_code y₁ y₂ y₃ y₄ m₁ m₂ d₁ d₂ =
    (y₁ * 1000 + y₂ * 100 + y₃ * 10 + y₄) * 10000 + (m₁ * 10 + m₂) * 100 + (d₁ * 10 + d₂)

two_digits_lem :
    (a b : ℕ) → a < 10 → b < 10 → two_digits (a * 10 + b) ≡ (b'0' + a) ∷ (b'0' + b) ∷ []
unfolding two_digits
two_digits_lem a b ha hb = elim (Bool-cases (ltb (a * 10 + b) 10)) [
  | inl low ↦
      rw (low, to_string_low (a * 10 + b) (ltb→lt (a * 10 + b) 10 low)) (ground (arith, low))
  | inr high ↦
      rw
        (
          high,
          to_string_step (a * 10 + b) (ground (arith, high)),
          to_string_low ((a * 10 + b) / 10) (omega arith),
        )
        (ground arith)
]

-- Digits with a number below 2 ^ 63 in front are read whole.
stol_digits :
    (d : ℕ) (s : Text) (n : ℕ)
    → d < 10
    → (read_digits 0 ((b'0' + d) ∷ s)).0 ≡ n
    → n < 2 ^ 63
    → stol ((b'0' + d) ∷ s) ≡ Stol.value n
unfolding stol signed magnitude skip_spaces
stol_digits d s n h e small = ground (arith, e)

to_string_four :
    (a b c d : ℕ)
    → 1 ≤ a
    → a < 10
    → b < 10
    → c < 10
    → d < 10
    → to_string (a * 1000 + b * 100 + c * 10 + d)
      ≡ (b'0' + a) ∷ (b'0' + b) ∷ (b'0' + c) ∷ (b'0' + d) ∷ []
to_string_four a b c d pos ha hb hc hd =
    let n = a * 1000 + b * 100 + c * 10 + d in
    rw
      (
        to_string_step n (omega arith),
        to_string_step (n / 10) (omega arith),
        to_string_step (n / 10 / 10) (omega arith),
        to_string_low (n / 10 / 10 / 10) (omega arith),
      )
      (ground arith)

code_parts :
    (y m d : ℕ)
    → 1 ≤ y
    → y < 10000
    → m < 100
    → d < 100
    → (year_of_code (y * 10000 + m * 100 + d) ≡ y)
      × (month_of_code (y * 10000 + m * 100 + d) ≡ m)
      × (day_of_code (y * 10000 + m * 100 + d) ≡ d)
unfolding day_of_code
code_parts y m d pos hy hm hd = (omega arith, omega arith, omega arith)

-- The divisions of `int_to_date` give the parts that a code is made of.
int_to_date_parts :
    (y m d : ℕ)
    → 1 ≤ y
    → y < 10000
    → m < 100
    → d < 100
    → int_to_date (y * 10000 + m * 100 + d)
      ≡ ok (to_string y ++ (b'-' ∷ (two_digits m ++ (b'-' ∷ two_digits d))))
unfolding int_to_date
int_to_date_parts y m d pos hy hm hd =
    let (same_year, same_month, same_day) = code_parts y m d pos hy hm hd in
    rw (same_year, same_month, same_day) (ground arith)

module _ (y₁ y₂ y₃ y₄ m₁ m₂ d₁ d₂ : ℕ) (hy₁ : y₁ < 10) (hy₂ : y₂ < 10) (hy₃ : y₃ < 10)
    (hy₄ : y₄ < 10) (hm₁ : m₁ < 10) (hm₂ : m₂ < 10) (hd₁ : d₁ < 10) (hd₂ : d₂ < 10) where
  abbrev text : Text
  text = date_text y₁ y₂ y₃ y₄ m₁ m₂ d₁ d₂

  abbrev number : ℕ
  number = date_code y₁ y₂ y₃ y₄ m₁ m₂ d₁ d₂

  digits_read :
      (read_digits 0 (
        (b'0' + y₁)
        ∷ (b'0' + y₂)
        ∷ (b'0' + y₃)
        ∷ (b'0' + y₄)
        ∷ (b'0' + m₁)
        ∷ (b'0' + m₂)
        ∷ (b'0' + d₁)
        ∷ (b'0' + d₂)
        ∷ [])).0
      ≡ number
  digits_read =
      rw
        (
          read_digits_step 0 y₁ _ hy₁,
          read_digits_step _ y₂ _ hy₂,
          read_digits_step _ y₃ _ hy₃,
          read_digits_step _ y₄ _ hy₄,
          read_digits_step _ m₁ _ hm₁,
          read_digits_step _ m₂ _ hm₂,
          read_digits_step _ d₁ _ hd₁,
          read_digits_step _ d₂ _ hd₂,
          read_digits_nil,
        )
        (omega arith)

  -- A text of eight decimal digits and two dashes is read as the number of the digits.
  pub date_to_int-date_text : date_to_int text ≡ ok number
  unfolding date_to_int
  date_to_int-date_text =
      rw (stol_digits y₁ _ number hy₁ digits_read (omega arith)) (ap ok (omega arith))

  -- And that number is printed as the text again, where the year has no leading zero.
  pub int_to_date-date_code : 1 ≤ y₁ → int_to_date number ≡ ok text
  int_to_date-date_code h = rw (
    int_to_date_parts (y₁ * 1000 + y₂ * 100 + y₃ * 10 + y₄) (m₁ * 10 + m₂) (d₁ * 10 + d₂)
        (omega arith) (omega arith) (omega arith) (omega arith),
    to_string_four y₁ y₂ y₃ y₄ h hy₁ hy₂ hy₃ hy₄,
    two_digits_lem m₁ m₂ hm₁ hm₂,
    two_digits_lem d₁ d₂ hd₁ hd₂,
  )
