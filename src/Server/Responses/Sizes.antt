-- ===== src/Server/Responses/Sizes.antt =====
-- The first number of size_info.
use deals_server.Prelude.{
  ℕ, zero, suc, ◌+◌, ◌*◌, ◌/◌, ◌%◌, ◌≤◌, ◌<◌, ◌≡◌, sym, ap, ◌∙◌, inl, inr, false, List, [], ◌∷◌,
  ◌++◌, ltb, ltb→lt, ◌==◌, ==_iff, length, length-append, Text, codes, arith, Bool-cases,
}
use deals_server.Prelude.Decimal.{to_string, to_string_low, to_string_step}
use deals_server.Server.Responses.{digits, sizes_of, sizes_strlen, size_info}

abbrev power_of_ten : ℕ → ℕ
power_of_ten zero = 1
power_of_ten (suc d) = 10 * power_of_ten d

digits_low : (n : ℕ) → n < 10 → digits n ≡ 1
digits_low n h = ap length (to_string_low n h)

digits_step : (n : ℕ) → 10 ≤ n → digits n ≡ digits (n / 10) + 1
digits_step n h =
    ap length (to_string_step n h) ∙ length-append (to_string (n / 10)) ((b'0' + n % 10) ∷ [])

-- The number of digits is the least power that the number is below.
digits-le : (d n : ℕ) → n < power_of_ten (suc d) → digits n ≤ suc d
digits-le zero n h = let e = digits_low n (omega arith) in omega arith
digits-le (suc d) n h = elim (Bool-cases (ltb n 10)) [
  | inl low ↦ let e = digits_low n (ltb→lt n 10 low) in omega arith
  | inr high ↦
      let many : 10 ≤ n = ground arith in
      let e = digits_step n many in let below = digits-le d (n / 10) (omega arith) in omega arith
]

digits_cover :
    (b n : ℕ) → n < power_of_ten b → (d : ℕ) × (digits n ≡ suc d) × (n < power_of_ten (suc d))
digits_cover zero n h = (0, digits_low n (omega arith), omega arith)
digits_cover (suc b) n h = elim (Bool-cases (ltb n 10)) [
  | inl low ↦ let lt = ltb→lt n 10 low in (0, digits_low n lt, omega arith)
  | inr high ↦
      let many : 10 ≤ n = ground arith in
      let (d, e, lt) = digits_cover b (n / 10) (omega arith) in
      let step = digits_step n many in (suc d, omega arith, omega arith)
]

below_power : (n : ℕ) → n < power_of_ten n
below_power zero = omega arith
below_power (suc n) = let h = below_power n in omega arith

digits_mono : (a b : ℕ) → a ≤ b → digits a ≤ digits b
digits_mono a b h =
    let (d, e, lt) = digits_cover b b (below_power b) in
    let le = digits-le d a (omega arith) in omega arith

-- Two more than its digits do not make a number longer by two digits.
digits-grows : (n : ℕ) → digits (n + digits n + 2) ≤ digits n + 1
digits-grows n =
    let (d, e, lt) = digits_cover n n (below_power n) in
    let small = below_power d in
    let le = digits-le (suc d) (n + digits n + 2) (omega arith) in omega arith

between : (m k l : ℕ) → (m == k) ≡ false → k ≤ m → m ≤ l → l ≤ k + 1 → l ≡ k + 1
between m k l h a b c = ground arith

sizes_strlen_lem : (n : ℕ) → digits (n + sizes_strlen n + 1) ≡ sizes_strlen n
sizes_strlen_lem n = elim (Bool-cases (digits (n + digits n + 1) == digits n)) [
  | inl same ↦ rw same ((==_iff (digits (n + digits n + 1)) (digits n)).0 same)
  | inr longer ↦
      let k = digits n in
      let same : n + (k + 1) + 1 ≡ n + k + 2 = omega arith in
      rw longer (
        ap digits same
        ∙ between (digits (n + k + 1)) k (digits (n + k + 2)) longer
            (digits_mono n (n + k + 1) (omega arith))
            (digits_mono (n + k + 1) (n + k + 2) (omega arith)) (digits-grows n))
]

-- The size header of an answer begins with its own length, the digits of that number and the mark
-- behind it included; what follows is the length of each data block.
pub size_info-length :
    (blocks : List Text)
    → size_info blocks ≡ to_string (length (size_info blocks)) ++ (codes ";" ++ sizes_of blocks)
unfolding size_info
size_info-length blocks =
    let n = length (sizes_of blocks) in
    let total = length-append (to_string (n + sizes_strlen n + 1)) (codes ";" ++ sizes_of blocks) in
    let k = sizes_strlen_lem n in
    ap (λ l. to_string l ++ (codes ";" ++ sizes_of blocks))
      (sym (total ∙ sum (digits (n + sizes_strlen n + 1)) (sizes_strlen n) n k))
  where
    sum : (d k n : ℕ) → d ≡ k → d + suc n ≡ n + k + 1
    sum d k n h = omega arith
