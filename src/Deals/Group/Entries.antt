-- ===== src/Deals/Group/Entries.antt =====
-- The history map of a grouping has one entry for a key, and none of them is empty.
use mathlib.Core.Path.{subst}
use deals_server.Prelude.{
  ℕ, ◌≡◌, ◌≢◌, refl, sym, ap, ◌⊎◌, inl, inr, Bool, true, false, ◌&&◌, List, [], ◌∷◌, ◌++◌, ltb,
  ◌==◌, arith, Bool-cases, if◌then◌else◌, map,
}
use deals_server.Query.Search.{SearchQuery}
use deals_server.Deals.Info.{DealInfo, equal, find_cheapest_and_last}
use deals_server.Deals.Info.Last.{Among}
use deals_server.Deals.Filter.{selects, process_elements}
use deals_server.Deals.Group.{
  Groups, slot, history, touch, replace, is_cheaper, process_at, find_or, put,
}

module _ {V : Type 0} where
  abbrev pub Entry : ℕ → V → List (ℕ × V) → Type 0
  Entry k v [] = ⊥
  Entry k v ((j, w) ∷ m) = ((j ≡ k) × (w ≡ v)) ⊎ Entry k v m

  abbrev pub IsUnique : List (ℕ × V) → Type 0
  IsUnique [] = Unit {0}
  IsUnique ((j, w) ∷ m) = ((v : V) → Entry j v m → ⊥) × IsUnique m

  pub put-Entry :
      (k : ℕ) (w : V) (m : List (ℕ × V)) (j : ℕ) (v : V)
      → Entry j v (put k w m)
      → ((k ≡ j) × (w ≡ v)) ⊎ Entry j v m
  unfolding put
  put-Entry k w [] j v (inl e) = inl e
  put-Entry k w [] j v (inr e) = absurd e
  put-Entry k w ((i, u) ∷ m) j v e = elim (Bool-cases (i == k)) [
    | inl same ↦
        elim (subst (Entry j v) (ap (λ b. if b then (k, w) ∷ m else (i, u) ∷ put k w m) same) e) [
          | inl here ↦ inl here
          | inr there ↦ inr (inr there)
        ]
    | inr other ↦
        elim (subst (Entry j v) (ap (λ b. if b then (k, w) ∷ m else (i, u) ∷ put k w m) other) e) [
          | inl here ↦ inr (inl here)
          | inr there ↦ elim (put-Entry k w m j v there) [ inl p ↦ inl p | inr p ↦ inr (inr p) ]
        ]
  ]

  pub put-IsUnique : (k : ℕ) (w : V) (m : List (ℕ × V)) → IsUnique m → IsUnique (put k w m)
  unfolding put
  put-IsUnique k w [] h = ((λ v e. e), tt)
  put-IsUnique k w ((i, u) ∷ m) (alone, rest) = elim (Bool-cases (i == k)) [
    | inl same ↦
        let e : i ≡ k = ground arith in
        rw same ((λ v here. alone v (subst (λ n. Entry n v m) (sym e) here)), rest)
    | inr other ↦
        let ne : i ≢ k = ground arith in
        rw other (
          (λ v here. elim (put-Entry k w m i v here) [ inl p ↦ ne (sym p.0) | inr p ↦ alone v p ]),
          put-IsUnique k w m rest,
        )
  ]

  pub find_or-Entry :
      (d : V) (k : ℕ) (v : V) (m : List (ℕ × V)) → IsUnique m → Entry k v m → find_or d k m ≡ v
  unfolding find_or
  find_or-Entry d k v [] h e = absurd e
  find_or-Entry d k v ((j, w) ∷ m) (alone, rest) (inl (same, eq)) =
      let t : (j == k) ≡ true = ground arith in rw t eq
  find_or-Entry d k v ((j, w) ∷ m) (alone, rest) (inr e) = elim (Bool-cases (j == k)) [
    | inl same ↦
        let eq : j ≡ k = ground arith in absurd (alone v (subst (λ n. Entry n v m) (sym eq) e))
    | inr other ↦ rw other (find_or-Entry d k v m rest e)
  ]

-- What holds of the histories.
abbrev pub IsFilled : List (ℕ × List DealInfo) → Type 0
IsFilled m = IsUnique m × ((k : ℕ) (h : List DealInfo) → Entry k h m → h ≢ [])

snoc-ne-nil : (h : List DealInfo) (d : DealInfo) → h ++ d ∷ [] ≢ []
snoc-ne-nil [] d e = absurd (cc e)
snoc-ne-nil (x ∷ h) d e = absurd (cc e)

replace-IsFilled :
    (k : ℕ) (d pushed : DealInfo) (g : Groups)
    → IsFilled g.hist
    → IsFilled (replace k d pushed g).hist
replace-IsFilled k d pushed g (unique, filled) = (
  put-IsUnique k (history k g ++ pushed ∷ []) g.hist unique,
  (λ j h e. elim (put-Entry k (history k g ++ pushed ∷ []) g.hist j h e) [
    | inl p ↦ subst (λ x. x ≢ []) p.1 (snoc-ne-nil (history k g) pushed)
    | inr p ↦ filled j h p
  ]),
)

if-IsFilled :
    (x y : Groups) (c : Bool)
    → IsFilled x.hist
    → IsFilled y.hist
    → IsFilled (if c then x else y).hist
if-IsFilled x y true p r = p
if-IsFilled x y false p r = r

process_at-IsFilled :
    (k : ℕ) (g : Groups) (d : DealInfo) → IsFilled g.hist → IsFilled (process_at k g d).hist
unfolding process_at
process_at-IsFilled k g d f =
    let replaced = replace k d d g in
    let overriden = replace k (record d { overriden = true }) d g in
    let c = equal d (slot k g) && ltb d.timestamp (slot k g).timestamp in
    let e = equal d (slot k g) && ltb (slot k g).timestamp d.timestamp in
    if-IsFilled (if c then touch k g else replaced) (if e then overriden else touch k g)
      (is_cheaper d (slot k g)) (if-IsFilled (touch k g) replaced c f (replace-IsFilled k d d g f))
      (if-IsFilled overriden (touch k g) e
        (replace-IsFilled k (record d { overriden = true }) d g f) f)

pub process_elements-IsFilled :
    (q : SearchQuery) (key : DealInfo → ℕ) (g : Groups) (ds : List DealInfo)
    → IsFilled g.hist
    → IsFilled (process_elements q (λ s d. process_at (key d) s d) g ds).hist
unfolding process_elements
process_elements-IsFilled q key g [] f = f
process_elements-IsFilled q key g (d ∷ ds) f =
    process_elements-IsFilled q key (if selects q d then process_at (key d) g d else g) ds
      (if-IsFilled (process_at (key d) g d) g (selects q d) (process_at-IsFilled (key d) g d f) f)

-- Each result comes from an entry, and each entry gives a result.
pub results-Entry :
    (r : DealInfo) (m : List (ℕ × List DealInfo))
    → Among r (map (λ (entry : ℕ × List DealInfo). find_cheapest_and_last entry.1) m)
    → (k : ℕ) × (h : List DealInfo) × Entry k h m × (r ≡ find_cheapest_and_last h)
results-Entry r [] a = absurd a
results-Entry r ((k, h) ∷ m) (inl e) = (k, h, inl (refl, refl), e)
results-Entry r ((k, h) ∷ m) (inr a) =
    let (j, w, entry, e) = results-Entry r m a in (j, w, inr entry, e)

pub Entry-results :
    (k : ℕ) (m : List (ℕ × List DealInfo))
    → find_or [] k m ≢ []
    → Among
        (find_cheapest_and_last (find_or [] k m))
        (map (λ (entry : ℕ × List DealInfo). find_cheapest_and_last entry.1) m)
unfolding find_or
Entry-results k [] ne = absurd (ne refl)
Entry-results k ((j, h) ∷ m) ne = elim (Bool-cases (j == k)) [
  | inl same ↦ inl (ap find_cheapest_and_last (ap (λ b. if b then h else find_or [] k m) same))
  | inr other ↦
      let e : find_or [] k ((j, h) ∷ m) ≡ find_or [] k m =
        ap (λ b. if b then h else find_or [] k m) other in
      inr (
        subst
          (λ x.
            Among (find_cheapest_and_last x)
              (map (λ (entry : ℕ × List DealInfo). find_cheapest_and_last entry.1) m))
          (sym e) (Entry-results k m (subst (λ x. x ≢ []) e ne)))
]
