-- ===== src/Utils/Strings/Find.antt =====
-- What `find` returns is the first place where the pattern stands.

use native.Mathlib.Nat.{zero-add, suc-add}
use deals_server.Prelude.{
  ℕ, zero, suc, ◌+◌, ◌≡◌, ◌≤◌, ◌&&◌, ◌==◌, ◌∙◌, sym, refl, ap, Bool, false, true, length-append, [],
  ◌∷◌, ◌++◌, none, some, arith, Bool-cases, Option-cases, inl, inr, length, take, drop, Text,
}
use mathlib.Core.Option
use mathlib.Core.Path.{subst}
use deals_server.Utils.Strings.{starts_with, find}

pub starts_with-eq : (p s : Text) → starts_with p s ≡ true → s ≡ p ++ drop (length p) s
unfolding starts_with
starts_with-eq [] s h = refl
starts_with-eq (c ∷ p) [] h = absurd (ground arith)
starts_with-eq (c ∷ p) (b ∷ s) h = ground (arith, starts_with-eq p s)

starts_with-take : (p s : Text) (n : ℕ) → starts_with p (take n s) ≡ true → starts_with p s ≡ true
unfolding starts_with
starts_with-take [] s n h = refl
starts_with-take (c ∷ p) s zero h = absurd (ground arith)
starts_with-take (c ∷ p) [] (suc n) h = absurd (ground arith)
starts_with-take (c ∷ p) (b ∷ s) (suc n) h = ground (arith, starts_with-take p s n)

found_here : (p s : Text) (n : ℕ) → starts_with p s ≡ true → find p s ≡ some n → 0 ≡ n
unfolding find
found_here p [] n here h = ground arith
found_here p (c ∷ s) n here h = ground arith

found_later :
    (p : Text) (c : ℕ) (s : Text) (n : ℕ)
    → starts_with p (c ∷ s) ≡ false
    → find p (c ∷ s) ≡ some n
    → (m : ℕ) × (find p s ≡ some m) × (n ≡ suc m)
unfolding find
found_later p c s n away h = elim (Option-cases (find p s)) [
  | inl e ↦ absurd (ground arith)
  | inr (m, e) ↦ (m, e, ground arith)
]

-- The text at the place found is the pattern.
pub find-eq :
    (p s : Text) (n : ℕ) → find p s ≡ some n → s ≡ take n s ++ (p ++ drop (n + length p) s)
unfolding find
find-eq p [] n h = elim (Bool-cases (starts_with p [])) [
  | inl here ↦ rw (← found_here p [] n here h, zero-add) (starts_with-eq p [] here)
  | inr away ↦ absurd (ground arith)
]
find-eq p (c ∷ s) n h = elim (Bool-cases (starts_with p (c ∷ s))) [
  | inl here ↦ rw (← found_here p (c ∷ s) n here h, zero-add) (starts_with-eq p (c ∷ s) here)
  | inr away ↦
      let (m, found, e) = found_later p c s n away h in
      rw (e, suc-add m (length p)) (ap (◌∷◌ c) (find-eq p s m found))
]

-- And in front of it the pattern does not stand.
pub find-take :
    (b : ℕ) (p s : Text) (n : ℕ) → find (b ∷ p) s ≡ some n → find (b ∷ p) (take n s) ≡ none
unfolding find starts_with
find-take b p [] n h = absurd (ground arith)
find-take b p (c ∷ s) n h = elim (Bool-cases (starts_with (b ∷ p) (c ∷ s))) [
  | inl here ↦ rw (← found_here (b ∷ p) (c ∷ s) n here h)
  | inr away ↦
      let (m, found, e) = found_later (b ∷ p) c s n away h in
      rw e (ground (arith, find-take b p s m found, starts_with-take (b ∷ p) (c ∷ s) (suc m)))
]

starts_with-append : (p s t : Text) → starts_with p s ≡ true → starts_with p (s ++ t) ≡ true
unfolding starts_with
starts_with-append [] s t h = refl
starts_with-append (c ∷ p) [] t h = absurd (ground arith)
starts_with-append (c ∷ p) (b ∷ s) t h = ground (arith, starts_with-append p s t)

starts_with-prefix :
    (p s t : Text) → length p ≤ length s → starts_with p (s ++ t) ≡ true → starts_with p s ≡ true
unfolding starts_with
starts_with-prefix [] s t le h = refl
starts_with-prefix (c ∷ p) [] t le h = absurd (omega arith)
starts_with-prefix (c ∷ p) (b ∷ s) t le h = elim (Bool-cases (c == b)) [
  | inl same ↦ rw same (
      starts_with-prefix p s t (omega arith)
        (subst (λ x. (x && starts_with p (s ++ t)) ≡ true) same h))
  | inr other ↦ absurd (false_and (c == b) (starts_with p (s ++ t)) other h)
]
  where
    false_and : (a x : Bool) → a ≡ false → (a && x) ≡ true → ⊥
    false_and true x e h = cc e
    false_and false x e h = cc h

starts_with-length : (p s : Text) → starts_with p s ≡ true → length p ≤ length s
starts_with-length p s h =
    let e = ap length (starts_with-eq p s h) ∙ length-append p (drop (length p) s) in
    omega (arith, e)

-- A pattern that is found lies within the text.
pub find-within : (p s : Text) (n : ℕ) → find p s ≡ some n → n + length p ≤ length s
unfolding find
find-within p [] n h = elim (Bool-cases (starts_with p [])) [
  | inl here ↦
      let e = found_here p [] n here h in let le = starts_with-length p [] here in omega arith
  | inr away ↦ absurd (ground arith)
]
find-within p (c ∷ s) n h = elim (Bool-cases (starts_with p (c ∷ s))) [
  | inl here ↦
      let e = found_here p (c ∷ s) n here h in
      let le = starts_with-length p (c ∷ s) here in omega arith
  | inr away ↦
      let (m, found, e) = found_later p c s n away h in
      let le = find-within p s m found in omega arith
]

empty_found : (p t : Text) → starts_with p [] ≡ true → find p t ≡ some 0
unfolding find starts_with
empty_found [] [] h = refl
empty_found [] (b ∷ t) h = refl
empty_found (c ∷ p) t h = absurd (ground arith)

-- What is found is found at the same place once more text follows.
pub find-append : (p s t : Text) (n : ℕ) → find p s ≡ some n → find p (s ++ t) ≡ some n
unfolding find
find-append p [] t n h = elim (Bool-cases (starts_with p [])) [
  | inl here ↦ let e = found_here p [] n here h in empty_found p t here ∙ ap some e
  | inr away ↦ absurd (ground arith)
]
find-append p (c ∷ s) t n h = elim (Bool-cases (starts_with p (c ∷ s))) [
  | inl here ↦
      let e = found_here p (c ∷ s) n here h in rw (starts_with-append p (c ∷ s) t here) (ap some e)
  | inr away ↦
      let (m, found, e) = found_later p c s n away h in
      let le = find-within p s m found in
      elim (Bool-cases (starts_with p (c ∷ (s ++ t)))) [
        | inl earlier ↦ absurd (cc (away, starts_with-prefix p (c ∷ s) t (omega arith) earlier))
        | inr not_here ↦
            rw not_here (ap (Option.map suc) (find-append p s t m found) ∙ ap some (sym e))
      ]
]
