-- ===== src/Statsd/Cleaning.antt =====
-- What cleanup makes of a key.
use deals_server.Prelude.{
  ℕ, zero, suc, ◌+◌, ◌≤◌, ◌<◌, ◌≡◌, refl, sym, ap, ◌∙◌, false, [], ◌∷◌, none, some, if◌then◌else◌,
  length, map, Text, set, All, arith, Bool-cases, inl, inr, ◌⊎◌,
}
use deals_server.Statsd.{is_special, find_special, clean, cleanup}

-- Each special byte is replaced.
abbrev pub replaced : Text → Text
replaced key = map (λ c. if is_special c then b'_' else c) key

specials : Text → ℕ
specials [] = 0
specials (c ∷ key) = (if is_special c then 1 else 0) + specials key

-- A special byte is the first one, or there is none.
find_special_lem :
    (key : Text)
    → ((find_special key ≡ none) × (replaced key ≡ key))
      ⊎ ((i : ℕ) × (find_special key ≡ some i)
          × (replaced (set key i b'_') ≡ replaced key)
          × (specials (set key i b'_') + 1 ≡ specials key))
unfolding find_special specials
find_special_lem [] = inl (refl, refl)
find_special_lem (c ∷ key) = elim (Bool-cases (is_special c)) [
  | inl special ↦ inr (0, rw special refl, rw special refl, rw special (omega arith))
  | inr plain ↦ elim (find_special_lem key) [
    | inl (e, same) ↦ inl (rw plain (rw e refl), rw plain (ap (λ k. c ∷ k) same))
    | inr (i, e, same, fewer) ↦
        inr (suc i, rw plain (rw e refl), rw plain (ap (λ k. c ∷ k) same), rw plain (omega arith))
  ]
]

clean_lem :
    (rounds : ℕ) (key : Text) → specials key < rounds → clean rounds key ≡ some (replaced key)
unfolding clean
clean_lem zero key h = absurd (omega arith)
clean_lem (suc rounds) key h = elim (find_special_lem key) [
  | inl (e, same) ↦ rw (e, clean) (ap some (sym same))
  | inr (i, e, same, fewer) ↦
      rw (e, clean) (clean_lem rounds (set key i b'_') (omega arith) ∙ ap some same)
]

specials-le : (key : Text) → specials key ≤ length key
unfolding specials
specials-le [] = omega arith
specials-le (c ∷ key) = ground (arith, specials-le key)

plain_lem : (c : ℕ) → is_special (if is_special c then b'_' else c) ≡ false
plain_lem c = ground arith

replaced_plain : (key : Text) → All (λ c. is_special c ≡ false) (replaced key)
replaced_plain [] = tt
replaced_plain (c ∷ key) = (plain_lem c, replaced_plain key)

-- The loop of cleanup ends on every key, within a round for each of its bytes and one more: each of
-- the bytes `:`, `|` and `@` is replaced, and none of them is left.
pub cleanup-replaced :
    (key : Text)
    → (cleanup key ≡ some (replaced key)) × All (λ c. is_special c ≡ false) (replaced key)
cleanup-replaced key =
    (clean_lem (suc (length key)) key (omega (arith, specials-le key)), replaced_plain key)
