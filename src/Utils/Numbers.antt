-- ===== src/Utils/Numbers.antt =====
-- std::stol of the 64-bit platform, which the program calls on parameters and headers.
use deals_server.Prelude.{
  ℕ, ◌-◌, ◌%◌, ◌^◌, Bool, true, false, ◌&&◌, ◌||◌, [], ◌∷◌, ltb, leb, ◌==◌, if◌then◌else◌, Text,
}
use deals_server.Prelude.Decimal.{read_digits, is_digit}

-- The value is the 64-bit pattern of the long; the other two are the exceptions.
pub data Stol : Type 0 where
  value : ℕ → Stol
  invalid_argument : Stol
  out_of_range : Stol

abbrev pub is_space : ℕ → Bool
is_space c = c == 32 || (leb 9 c && leb c 13)

unfoldable pub skip_spaces : Text → Text
skip_spaces [] = []
skip_spaces (c ∷ s) = if is_space c then skip_spaces s else c ∷ s

-- At least one digit has to follow.
unfoldable pub magnitude : Bool → Text → Stol
magnitude negative [] = invalid_argument
magnitude negative (c ∷ s) =
    let n = (read_digits 0 (c ∷ s)).0 in
    if is_digit c
    then (if negative
        then (if leb n (2 ^ 63) then value ((2 ^ 64 - n) % 2 ^ 64) else out_of_range)
        else (if ltb n (2 ^ 63) then value n else out_of_range))
    else invalid_argument

unfoldable pub signed : Text → Stol
unfolding magnitude
signed [] = invalid_argument
signed (c ∷ s) =
    if c == b'-'
    then magnitude true s
    else if c == b'+'
    then magnitude false s
    else magnitude false (c ∷ s)

unfoldable pub stol : Text → Stol
unfolding skip_spaces signed
stol s = signed (skip_spaces s)

-- string_to_int, for an integer type of so many bits.
unfoldable pub string_to_int : ℕ → Text → ℕ
string_to_int bits text = elim (stol text) [
  | Stol.value n ↦ n % 2 ^ bits
  | Stol.invalid_argument ↦ 0
  | Stol.out_of_range ↦ 0
]
