-- ===== src/Deals/Info/Last.antt =====
-- What `find_cheapest_and_last` returns.
use mathlib.Core.Path.{subst}
use deals_server.Prelude.{
  ℕ, zero, suc, ◌+◌, ◌-◌, ◌*◌, ◌≤◌, ◌<◌, ◌≡◌, refl, sym, ◌⊎◌, inl, inr, true, false, List, [], ◌∷◌,
  some, arith, ltb, ltb→lt, ◌==◌, length, get_or, Bool-cases,
}
use deals_server.Deals.Info.{
  DealInfo, no_deal, outdates, scan_history, scan_rounds, find_cheapest_and_last,
}

-- One of the deals of a history.
abbrev pub Among : DealInfo → List DealInfo → Type 0
Among d [] = ⊥
Among d (x ∷ xs) = (d ≡ x) ⊎ Among d xs

pub get_or-Among : (xs : List DealInfo) (i : ℕ) → i < length xs → Among (get_or xs i no_deal) xs
get_or-Among [] i h = omega arith
get_or-Among (x ∷ xs) zero h = inl refl
get_or-Among (x ∷ xs) (suc i) h = inr (get_or-Among xs i (omega arith))

restart_rounds :
    (len n i fuel : ℕ)
    → i < len
    → i ≤ n
    → len * (n + 1) + (n - i) < suc fuel
    → (len - 1) * (n + 1) + (n - 1) < fuel
restart_rounds zero n i fuel h k f = absurd (omega arith)
restart_rounds (suc len) n i fuel h k f =
    let e : suc len - 1 ≡ len = omega arith in rw e (omega arith)

not_zero : (i len : ℕ) → ltb i len ≡ true → (len == 0) ≡ false
not_zero i len h = ground arith

-- The loop ends with a deal of the history.
scan_history-Among :
    (fuel : ℕ) (h : List DealInfo) (last : DealInfo) (len i : ℕ)
    → Among last h
    → len < length h
    → i ≤ length h
    → len * (length h + 1) + (length h - i) < fuel
    → (r : DealInfo) × (scan_history fuel h last len i ≡ some r) × Among r h
unfolding scan_history
scan_history-Among zero h last len i a lt li f = absurd (omega arith)
scan_history-Among (suc fuel) h last len i a lt li f = elim (Bool-cases (ltb i len)) [
  | inr over ↦ (last, rw over, a)
  | inl more ↦ elim (Bool-cases (outdates (get_or h i no_deal) last)) [
    | inr fine ↦
        let (r, e, b) =
          scan_history-Among fuel h last len (i + 1) a lt (ground arith) (ground arith) in
        (r, rw (more, fine) e, b)
    | inl hit ↦
        let (r, e, b) =
          scan_history-Among fuel h (get_or h len no_deal) (len - 1) 1 (get_or-Among h len lt)
            (omega arith) (omega arith)
            (restart_rounds len (length h) i fuel (ltb→lt i len more) li f) in
        (r, rw (more, hit, not_zero i len more) e, b)
  ]
]

-- The deal at the back of a history that is not empty.
abbrev pub newest : DealInfo → List DealInfo → DealInfo
newest d ds = get_or (d ∷ ds) (length (d ∷ ds) - 1) no_deal

find_lem :
    (d : DealInfo) (ds : List DealInfo) (r : DealInfo)
    → scan_history (scan_rounds (length (d ∷ ds))) (d ∷ ds) (newest d ds) (length (d ∷ ds) - 1) 0
      ≡ some r
    → find_cheapest_and_last (d ∷ ds) ≡ r
unfolding find_cheapest_and_last
find_lem d ds r e = rw (e, find_cheapest_and_last)

enough_rounds : (n : ℕ) → (suc n - 1) * (suc n + 1) + (suc n - 0) < scan_rounds (suc n)
enough_rounds n = let e : suc n - 1 ≡ n = omega arith in rw e (omega arith)

-- For a history that is not empty the search ends, within (n + 1) ^ 2 rounds, and returns one of its
-- deals.
pub find_cheapest_and_last-Among :
    (d : DealInfo) (ds : List DealInfo) → Among (find_cheapest_and_last (d ∷ ds)) (d ∷ ds)
find_cheapest_and_last-Among d ds =
    let n = length (d ∷ ds) in
    let (r, e, b) =
      scan_history-Among (scan_rounds (length (d ∷ ds))) (d ∷ ds) (newest d ds)
        (length (d ∷ ds) - 1) 0 (get_or-Among (d ∷ ds) (length (d ∷ ds) - 1) (omega arith))
        (omega arith) (omega arith) (enough_rounds (length ds)) in
    subst (λ x. Among x (d ∷ ds)) (sym (find_lem d ds r e)) b

-- No deal of the history is newer than the given one at the same route and dates.
abbrev pub NoneOutdates : DealInfo → List DealInfo → Type 0
NoneOutdates last h = (i : ℕ) → i < length h → outdates (get_or h i no_deal) last ≡ false

scan_history_none :
    (fuel : ℕ) (h : List DealInfo) (last : DealInfo) (len i : ℕ)
    → NoneOutdates last h
    → len ≤ length h
    → len - i < fuel
    → scan_history fuel h last len i ≡ some last
unfolding scan_history
scan_history_none zero h last len i none_newer le f = absurd (omega arith)
scan_history_none (suc fuel) h last len i none_newer le f = elim (Bool-cases (ltb i len)) [
  | inr over ↦ rw over
  | inl more ↦
      let lt = ltb→lt i len more in
      rw (more, none_newer i (omega arith))
        (scan_history_none fuel h last len (i + 1) none_newer le (omega arith))
]

-- Where no deal of the history is newer than the last one at the same route and dates, the last one
-- is returned.
pub find_cheapest_and_last_current :
    (d : DealInfo) (ds : List DealInfo)
    → NoneOutdates (newest d ds) (d ∷ ds)
    → find_cheapest_and_last (d ∷ ds) ≡ newest d ds
find_cheapest_and_last_current d ds none_newer = find_lem d ds (newest d ds) (
    scan_history_none (scan_rounds (length (d ∷ ds))) (d ∷ ds) (newest d ds) (length (d ∷ ds) - 1) 0
      none_newer (omega arith) (omega arith))

-- In every history of three deals whose first is newer than the last at the same route and dates,
-- the outdated last deal is returned: the restart takes the deal that it replaces.
pub find_cheapest_and_last_outdated :
    (x y z : DealInfo) → outdates x z ≡ true → find_cheapest_and_last (x ∷ y ∷ z ∷ []) ≡ z
unfolding scan_history
find_cheapest_and_last_outdated x y z hit = find_lem x (y ∷ z ∷ []) z (rw hit)
