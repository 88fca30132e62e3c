-- ===== src/Deals/Group/Rounds.antt =====
-- One round of the aggregation: `process_at` on its own group and on the others.
use deals_server.Prelude.{
  ℕ, ◌<◌, ◌≡◌, refl, ◌⊎◌, inl, inr, Bool, true, false, ◌&&◌, List, [], ◌∷◌, ◌++◌, leb, ltb, ◌==◌,
  if◌then◌else◌, arith, Bool-cases, bool_eq,
}
use deals_server.Deals.Info.{DealInfo, no_deal, equal, outdates}
use deals_server.Deals.Info.Last.{Among}
use deals_server.Deals.Group.{Groups, slot, history, touch, replace, is_cheaper, process_at}
use deals_server.Deals.Group.Maps.{find_or-put_ne}

-- `outdates` needs the same route and dates, which does not depend on the order.
bool_eq_sym : (a b : Bool) → bool_eq a b ≡ bool_eq b a
bool_eq_sym a b = ground arith

==_sym : (a b : ℕ) → (a == b) ≡ (b == a)
==_sym a b = ground arith

equal_sym : (a b : DealInfo) → equal a b ≡ equal b a
unfolding equal
equal_sym a b = rw (
  ==_sym a.departure_date b.departure_date,
  ==_sym a.return_date b.return_date,
  bool_eq_sym a.direct b.direct,
  ==_sym a.destination b.destination,
  ==_sym a.origin b.origin,
)

pub not_outdates_self : (a : DealInfo) → outdates a a ≡ false
not_outdates_self a = elim (Bool-cases (equal a a)) [ inl e ↦ rw e (ground arith) | inr e ↦ rw e ]

pub not_outdates : (a b : DealInfo) → equal b a ≡ false → outdates a b ≡ false
not_outdates a b h = rw (equal_sym a b, h)

pub Among-snoc :
    (x r : DealInfo) (xs : List DealInfo) → Among x (xs ++ r ∷ []) → Among x xs ⊎ (x ≡ r)
Among-snoc x r [] (inl e) = inr e
Among-snoc x r [] (inr h) = absurd h
Among-snoc x r (y ∷ xs) (inl e) = inl (inl e)
Among-snoc x r (y ∷ xs) (inr h) = elim (Among-snoc x r xs h) [ inl a ↦ inl (inr a) | inr e ↦ inr e ]

Among-front : (x : DealInfo) (xs ys : List DealInfo) → Among x xs → Among x (xs ++ ys)
Among-front x [] ys a = absurd a
Among-front x (y ∷ xs) ys (inl e) = inl e
Among-front x (y ∷ xs) ys (inr a) = inr (Among-front x xs ys a)

Among-back : (r : DealInfo) (xs : List DealInfo) → Among r (xs ++ r ∷ [])
Among-back r [] = inl refl
Among-back r (x ∷ xs) = inr (Among-back r xs)

-- What `process_at` does to its own group and to the others.
pub at_empty :
    (k : ℕ) (g : Groups) (d : DealInfo) → slot k g ≡ no_deal → process_at k g d ≡ replace k d d g
unfolding process_at
at_empty k g d e =
    let never : ltb d.timestamp 0 ≡ false = ground arith in
    elim (Bool-cases (equal d no_deal)) [ inl s ↦ rw (e, s, never) | inr s ↦ rw (e, s) ]

pub at_cheaper :
    (k : ℕ) (g : Groups) (d b : DealInfo)
    → slot k g ≡ b
    → equal d b ≡ false
    → leb d.price b.price ≡ true
    → process_at k g d ≡ replace k d d g
unfolding process_at
at_cheaper k g d b e ne c = elim (Bool-cases (b.price == 0)) [
  | inl z ↦ rw (e, z, ne)
  | inr z ↦ rw (e, z, c, ne)
]

pub at_dearer :
    (k : ℕ) (g : Groups) (d b : DealInfo)
    → slot k g ≡ b
    → equal d b ≡ false
    → 0 < b.price
    → leb d.price b.price ≡ false
    → process_at k g d ≡ touch k g
unfolding process_at
at_dearer k g d b e ne p c = let z : (b.price == 0) ≡ false = ground arith in rw (e, z, c, ne)

-- The group k is the same in both.
abbrev pub Same : ℕ → Groups → Groups → Type 0
Same k g g' = (slot k g' ≡ slot k g) × (history k g' ≡ history k g)

pub Same-if :
    (k : ℕ) (g x y : Groups) (c : Bool) → Same k g x → Same k g y → Same k g (if c then x else y)
Same-if k g x y true p r = p
Same-if k g x y false p r = r

Same-touch : (j k : ℕ) (g : Groups) → (j == k) ≡ false → Same k g (touch j g)
Same-touch j k g ne = (find_or-put_ne no_deal (slot j g) j k g.grouped ne, refl)

Same-replace :
    (j k : ℕ) (d pushed : DealInfo) (g : Groups)
    → (j == k) ≡ false
    → Same k g (replace j d pushed g)
Same-replace j k d pushed g ne = (
  find_or-put_ne no_deal d j k g.grouped ne,
  find_or-put_ne [] (history j g ++ pushed ∷ []) j k g.hist ne,
)

pub at_other :
    (j k : ℕ) (g : Groups) (d : DealInfo) → (j == k) ≡ false → Same k g (process_at j g d)
unfolding process_at
at_other j k g d ne =
    let replaced = replace j d d g in
    let overriden = replace j (record d { overriden = true }) d g in
    let c = equal d (slot j g) && ltb d.timestamp (slot j g).timestamp in
    let e = equal d (slot j g) && ltb (slot j g).timestamp d.timestamp in
    Same-if k g (if c then touch j g else replaced) (if e then overriden else touch j g)
      (is_cheaper d (slot j g))
      (Same-if k g (touch j g) replaced c (Same-touch j k g ne) (Same-replace j k d d g ne))
      (Same-if k g overriden (touch j g) e (Same-replace j k (record d { overriden = true }) d g ne)
        (Same-touch j k g ne))
