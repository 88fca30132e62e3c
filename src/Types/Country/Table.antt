-- ===== src/Types/Country/Table.antt =====
-- The table of the countries, and the two conversions over it.
use mathlib.Core.Path.{subst}
use deals_server.Prelude.{
  ℕ, zero, suc, ◌+◌, ◌%◌, ◌≤◌, ◌<◌, ◌≡◌, ◌∙◌, sym, ◌↔◌, Option-cases, ltb→lt, refl, ap, Bool, true,
  false, ◌&&◌, List, [], ◌∷◌, none, some, arith, ltb, ◌==◌, Text, ok, length, get_or, get_elem?,
  Bool-cases, inl, inr,
}
use deals_server.Types.Country.{countries, search_country, country_to_code, code_to_country}

pub length-countries : length countries ≡ 252
unfolding countries
length-countries = refl

-- Every code comes back from its own country.
is_own : ℕ → List Text → Bool
is_own x [] = true
is_own x (c ∷ cs) =
    (elim (search_country c countries 0) [ none ↦ false | some y ↦ y == x ]) && is_own (suc x) cs

own : is_own 0 countries ≡ true
unfolding is_own search_country countries
own = refl

is_own-get_elem? :
    (x : ℕ) (cs : List Text) (k : ℕ) (c : Text)
    → is_own x cs ≡ true
    → get_elem? cs k ≡ some c
    → search_country c countries 0 ≡ some (x + k)
unfolding is_own
is_own-get_elem? x [] k c h e = absurd (ground arith)
is_own-get_elem? x (d ∷ cs) zero c h e = elim (Option-cases (search_country d countries 0)) [
  | inl missing ↦ absurd (ground (arith, missing))
  | inr (y, found) ↦ ground (arith, found)
]
is_own-get_elem? x (d ∷ cs) (suc k) c h e =
    is_own-get_elem? (suc x) cs k c (ground arith) e ∙ ap some (omega arith)

get_elem?-lt {ℓ} :
    {A : Type ℓ} (xs : List A) (k : ℕ) → k < length xs → (x : A) × (get_elem? xs k ≡ some x)
get_elem?-lt [] k h = absurd (omega arith)
get_elem?-lt (x ∷ xs) zero h = (x, refl)
get_elem?-lt (x ∷ xs) (suc k) h = get_elem?-lt xs k (omega arith)

get_elem?-ge {ℓ} : {A : Type ℓ} (xs : List A) (k : ℕ) → length xs ≤ k → get_elem? xs k ≡ none
get_elem?-ge [] k h = refl
get_elem?-ge (x ∷ xs) zero h = absurd (omega arith)
get_elem?-ge (x ∷ xs) (suc k) h = get_elem?-ge xs k (omega arith)

code_to_country_lem :
    (x : ℕ) (c : Text) → get_elem? countries x ≡ some c → code_to_country x ≡ some (ok c)
unfolding code_to_country
code_to_country_lem x c e = elim (Bool-cases (ltb (length countries) x)) [
  | inl above ↦ absurd (
      ground
        (arith, e, get_elem?-ge countries x (omega (arith, ltb→lt (length countries) x above))))
  | inr within ↦ rw (within, e, code_to_country)
]

-- Each of the 252 codes has a country, whose code it is: no entry of the table stands twice.
pub country_to_code-code_to_country :
    (x : ℕ) → x < 252 → (c : Text) × (code_to_country x ≡ some (ok c)) × (country_to_code c ≡ ok x)
unfolding country_to_code
country_to_code-code_to_country x h =
    let (c, at_x) = get_elem?-lt countries x (rw length-countries h) in
    (
      c,
      code_to_country_lem x c at_x,
      rw (is_own-get_elem? 0 countries x c own at_x, country_to_code) (ap ok (omega arith)),
    )

search_country_sound :
    (s : Text) (cs : List Text) (i x : ℕ)
    → search_country s cs i ≡ some x
    → (k : ℕ) × (c : Text) × (x ≡ (i + k) % 256)
      × (get_elem? cs k ≡ some c)
      × (k < length cs)
      × (get_or c 0 0 ≡ get_or s 0 0)
      × (get_or c 1 0 ≡ get_or s 1 0)
unfolding search_country
search_country_sound s [] i x e = absurd (ground arith)
search_country_sound s (d ∷ cs) i x e =
    elim (Bool-cases (get_or d 0 0 == get_or s 0 0 && get_or d 1 0 == get_or s 1 0)) [
      | inl here ↦ (
        0,
        d,
        ground (arith, here, e),
        refl,
        omega arith,
        ground (arith, here),
        ground (arith, here),
      )
      | inr away ↦
          let (k, c, eq, at_k, lt, l₀, l₁) =
            search_country_sound s cs (suc i) x (ground (arith, away, e)) in
          (suc k, c, eq ∙ ap (λ n. n % 256) (omega arith), at_k, omega arith, l₀, l₁)
    ]

country_to_code-eq-ok :
    (s : Text) (x : ℕ) → country_to_code s ≡ ok x → search_country s countries 0 ≡ some x
unfolding country_to_code
country_to_code-eq-ok s x e = elim (Option-cases (search_country s countries 0)) [
  | inl missing ↦ absurd (ground (arith, missing))
  | inr (y, found) ↦ ground (arith, found)
]

-- A country that has a code is the one that the code stands for, by its first two letters.
pub code_to_country-country_to_code :
    (s : Text) (x : ℕ)
    → country_to_code s ≡ ok x
    → (x < 252)
      × (c : Text) × (code_to_country x ≡ some (ok c))
      × (get_or c 0 0 ≡ get_or s 0 0)
      × (get_or c 1 0 ≡ get_or s 1 0)
code_to_country-country_to_code s x e =
    let (k, c, eq, at_k, lt, l₀, l₁) =
      search_country_sound s countries 0 x (country_to_code-eq-ok s x e) in
    let small : k < 252 = omega (arith, lt, length-countries) in
    let same : x ≡ k = omega (arith, eq) in
    (subst (λ n. n < 252) (sym same) small, c, rw same (code_to_country_lem k c at_k), l₀, l₁)

between : (n x : ℕ) → ltb n x ≡ false → ltb x n ≡ false → x ≡ n
between n x h k = ground arith

-- The one code for which `code_to_country` reads behind the table is its size, 252; every smaller
-- code has a country, and every greater one is refused.
pub code_to_country-none : (x : ℕ) → (code_to_country x ≡ none) ↔ (x ≡ 252)
unfolding code_to_country
code_to_country-none x = (only, λ e. rw e refl)
  where
    only : code_to_country x ≡ none → x ≡ 252
    only e = elim (Bool-cases (ltb 252 x)) [
      | inl above ↦ absurd (cc (rw above at e))
      | inr within ↦ elim (Bool-cases (ltb x 252)) [
        | inl below ↦
            let (c, found) = get_elem?-lt countries x (ltb→lt x 252 below) in
            absurd (cc (e, code_to_country_lem x c found))
        | inr high ↦ between 252 x within high
      ]
    ]
