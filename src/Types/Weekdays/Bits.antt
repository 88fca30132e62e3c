-- ===== src/Types/Weekdays/Bits.antt =====
-- The bit mask of a list of weekdays.
use Prim.Native.Nat.{bit_or, bit_and}
use mathlib.Core.Path.{subst}
use deals_server.Prelude.{
  ℕ, zero, suc, ◌/◌, ◌%◌, ◌^◌, ◌≤◌, ◌<◌, ◌≡◌, ◌≢◌, refl, sym, ◌∙◌, ◌⊎◌, inl, inr, ◌↔◌, Bool, true,
  false, ◌&&◌, List, [], ◌∷◌, arith, ltb, ltb→lt, ◌==◌, ==_iff, bool_eq, if◌then◌else◌, Bool-cases,
  Text, Outcome, ok, err, foreign, bad_parameter,
}
use deals_server.Utils.Days.{day_of_week_from_str, day_of_week_bitmask_from_str}
use deals_server.Utils.Days.Names.{day_of_week_from_str-le}
use deals_server.Utils.Strings.{split_string}
use deals_server.Utils.Strings.Split.{split_string-ne-nil}
use deals_server.Types.Weekdays.{join_days, weekdays_bitmask}

-- A test that each number under a bound passes.
each_under : ℕ → (ℕ → Bool) → Bool
each_under zero test = true
each_under (suc bound) test = each_under bound test && test bound

pass :
    (bound : ℕ) (test : ℕ → Bool)
    → each_under bound test ≡ true
    → (n : ℕ) → n < bound
    → test n ≡ true
unfolding each_under
pass zero test all n under = absurd (omega arith)
pass (suc bound) test all n under = ground (arith, pass bound test (ground arith) n)

abbrev pub bit : ℕ → ℕ → ℕ
bit j x = x / 2 ^ j % 2

or_test : ℕ → ℕ → ℕ → Bool
or_test x i j = bit j (bit_or x (2 ^ i)) == (if i == j then 1 else bit j x)

or_table :
    each_under 128
      (λ x. each_under 7 (λ i. ltb (bit_or x (2 ^ i)) 128 && each_under 7 (or_test x i)))
    ≡ true
unfolding each_under or_test
or_table = refl

and_table :
    each_under 128 (λ x. each_under 7 (λ i. bool_eq (bit_and (2 ^ i) x == 0) (bit i x == 0))) ≡ true
unfolding each_under
and_table = refl

-- Setting a bit sets that one and no other.
or_bit :
    (x i j : ℕ)
    → x < 128
    → i < 7
    → j < 7
    → (bit_or x (2 ^ i) < 128) × (bit j (bit_or x (2 ^ i)) ≡ (if i == j then 1 else bit j x))
or_bit x i j hx hi hj =
    let at_i = pass 7 _ (pass 128 _ or_table x hx) i hi in
    let (small, rest) = and_true _ _ at_i in
    (ltb→lt _ 128 small, (==_iff _ _).0 (unfold or_test in pass 7 (or_test x i) rest j hj))
  where
    and_true : (a b : Bool) → (a && b) ≡ true → (a ≡ true) × (b ≡ true)
    and_true true b h = (refl, h)
    and_true false b h = absurd (cc h)

-- A weekday's bit meets a mask just when the mask has that bit.
pub and_bit : (x i : ℕ) → x < 128 → i < 7 → (bit_and (2 ^ i) x ≡ 0) ↔ (bit i x ≡ 0)
and_bit x i hx hi = let e = pass 7 _ (pass 128 _ and_table x hx) i hi in ground (arith, e)

-- One of the names is that of day j.
abbrev pub Listed : ℕ → List Text → Type 0
Listed j [] = ⊥
Listed j (t ∷ ts) = (day_of_week_from_str t ≡ j) ⊎ Listed j ts

-- What the mask of some names is: the bits of the days that they name; where one of them names no
-- day, which is index 7, it is an error.
abbrev pub IsMask : List Text → Outcome ℕ → Type 0
IsMask tokens (ok b) =
    (b < 128) × ((j : ℕ) → j < 7 → (bit j b ≡ 1) ↔ Listed j tokens) × ¬ Listed 7 tokens
IsMask tokens (err e) = Listed 7 tokens × (e.error_code ≡ bad_parameter)
IsMask tokens foreign = ⊥

abbrev IsJoin : ℕ → List Text → Outcome ℕ → Type 0
IsJoin r tokens (ok b) =
    (b < 128)
    × ((j : ℕ) → j < 7 → (bit j b ≡ 1) ↔ ((bit j r ≡ 1) ⊎ Listed j tokens))
    × ¬ Listed 7 tokens
IsJoin r tokens (err e) = Listed 7 tokens × (e.error_code ≡ bad_parameter)
IsJoin r tokens foreign = ⊥

seven_of : (n : ℕ) → ltb n 7 ≡ false → n ≤ 7 → n ≡ 7
seven_of n h k = ground arith

-- One more name in front adds its bit.
cons-IsJoin :
    (r : ℕ) (t : Text) (ts : List Text) (o : Outcome ℕ)
    → r < 128
    → day_of_week_from_str t < 7
    → IsJoin (bit_or r (2 ^ day_of_week_from_str t)) ts o
    → IsJoin r (t ∷ ts) o
cons-IsJoin r t ts (ok b) hr ht (hb, bits, no_bad) = (
  hb,
  λ j hj. (
    λ e. elim ((bits j hj).0 e) [
      | inl old ↦
          (let m = (or_bit r (day_of_week_from_str t) j hr ht hj).1 in
            elim (Bool-cases (day_of_week_from_str t == j)) [
              | inl same ↦ inr (inl ((==_iff _ _).0 same))
              | inr other ↦ inl (sym (rw other at m) ∙ old)
            ])
      | inr later ↦ inr (inr later)
    ],
    λ e. (bits j hj).1 (elim e [
      | inl old ↦ inl (
          (or_bit r (day_of_week_from_str t) j hr ht hj).1
          ∙ keep (day_of_week_from_str t == j) (bit j r) old)
      | inr (inl here) ↦
          inl ((or_bit r (day_of_week_from_str t) j hr ht hj).1 ∙ rw ((==_iff _ _).1 here))
      | inr (inr later) ↦ inr later
    ]),
  ),
  λ e. elim e [ inl seven ↦ omega arith | inr later ↦ no_bad later ],
)
  where
    keep : (b : Bool) (x : ℕ) → x ≡ 1 → (if b then 1 else x) ≡ 1
    keep true x e = refl
    keep false x e = e
cons-IsJoin r t ts (err x) hr ht (bad_day, kind) = (inr bad_day, kind)
cons-IsJoin r t ts foreign hr ht j = j

bool_eq-false : (b : Bool) → bool_eq b false ≡ true → b ≡ false
bool_eq-false true h = absurd (cc h)
bool_eq-false false h = refl

pow_le : (i : ℕ) → i < 7 → ltb 64 (2 ^ i) ≡ false
unfolding each_under
pow_le i h = bool_eq-false _ (pass 7 (λ i. bool_eq (ltb 64 (2 ^ i)) false) refl i h)

join_days-IsJoin :
    (whole : Text) (r : ℕ) (tokens : List Text)
    → r < 128
    → IsJoin r tokens (join_days whole r tokens)
unfolding join_days day_of_week_bitmask_from_str
join_days-IsJoin whole r [] h =
    (h, λ j hj. (λ e. inl e, λ e. elim e [ inl x ↦ x | inr x ↦ absurd x ]), λ x. x)
join_days-IsJoin whole r (t ∷ ts) h = elim (Bool-cases (ltb (day_of_week_from_str t) 7)) [
  | inl day ↦
      let lt = ltb→lt (day_of_week_from_str t) 7 day in
      rw (pow_le (day_of_week_from_str t) lt) (
        cons-IsJoin r t ts _ h lt (
          join_days-IsJoin whole (bit_or r (2 ^ day_of_week_from_str t)) ts
            (or_bit r (day_of_week_from_str t) 0 h lt (omega arith)).0))
  | inr none_such ↦
      let seven : day_of_week_from_str t ≡ 7 =
        seven_of (day_of_week_from_str t) none_such (day_of_week_from_str-le t) in
      rw seven (inl seven, refl)
]

zero_bit : (j : ℕ) → j < 7 → bit j 0 ≢ 1
unfolding each_under
zero_bit j h e = let z = (==_iff (bit j 0) 0).0 (pass 7 (λ j. bit j 0 == 0) refl j h) in omega arith

none_zero : (b : ℕ) (tokens : List Text) → tokens ≢ [] → IsMask tokens (ok b) → b ≢ 0
none_zero b [] some_day m e = absurd (some_day refl)
none_zero b (t ∷ ts) some_day (hb, bits, no_bad) e =
    let i = day_of_week_from_str t in
    elim (Bool-cases (ltb (day_of_week_from_str t) 7)) [
      | inl day ↦
          let lt = ltb→lt (day_of_week_from_str t) 7 day in
          zero_bit (day_of_week_from_str t) lt
            (subst (λ b. bit (day_of_week_from_str t) b ≡ 1) e ((bits _ lt).1 (inl refl)))
      | inr none_such ↦
          no_bad (inl (seven_of (day_of_week_from_str t) none_such (day_of_week_from_str-le t)))
    ]

join-IsMask : (tokens : List Text) (o : Outcome ℕ) → IsJoin 0 tokens o → IsMask tokens o
join-IsMask tokens (ok b) (hb, bits, no_bad) = (
  hb,
  λ j hj. (
    λ e. elim ((bits j hj).0 e) [ inl old ↦ absurd (zero_bit j hj old) | inr x ↦ x ],
    λ x. (bits j hj).1 (inr x),
  ),
  no_bad,
)
join-IsMask tokens (err e) j = j
join-IsMask tokens foreign j = j

-- For a text that is not empty, the mask has the bits of the weekdays that the text names between
-- its commas, and no other; it is an error, a bad parameter, just where one of the names is none
-- of a weekday.
pub weekdays_bitmask-IsMask :
    (s : Text) → s ≢ [] → IsMask (split_string s (b',' ∷ [])) (weekdays_bitmask s)
unfolding weekdays_bitmask
weekdays_bitmask-IsMask [] h = absurd (h refl)
weekdays_bitmask-IsMask (c ∷ s) h =
    joined _ refl (
      join-IsMask (split_string (c ∷ s) (b',' ∷ [])) _ (join_days-IsJoin (c ∷ s) 0 _ (omega arith)))
  where
    joined :
        (o : Outcome ℕ)
        → join_days (c ∷ s) 0 (split_string (c ∷ s) (b',' ∷ [])) ≡ o
        → IsMask (split_string (c ∷ s) (b',' ∷ [])) o
        → IsMask (split_string (c ∷ s) (b',' ∷ [])) (weekdays_bitmask (c ∷ s))
    joined (ok b) e m = elim (Bool-cases (b == 0)) [
      | inl zero_mask ↦
          absurd
            (none_zero b _ (split_string-ne-nil b',' [] (c ∷ s) h) m ((==_iff b 0).0 zero_mask))
      | inr positive ↦ rw (e, weekdays_bitmask, positive) m
    ]
    joined (err x) e m = rw (e, weekdays_bitmask) m
    joined foreign e m = absurd m
