-- ===== src/Deals/Group/Steps.antt =====
-- Each round keeps the invariant of a group.
use mathlib.Core.Path.{subst}
use deals_server.Prelude.{
  ℕ, ◌<◌, ◌≡◌, refl, ap, ◌∙◌, inl, inr, true, false, List, [], ◌∷◌, ◌++◌, leb, leb→le, arith,
}
use deals_server.Query.Search.{SearchQuery}
use deals_server.Deals.Info.{DealInfo, no_deal, equal}
use deals_server.Deals.Info.Last.{Among}
use deals_server.Deals.Group.{Groups, slot, history, process_at}
use deals_server.Deals.Group.Maps.{find_or-put_self}
use deals_server.Deals.Group.Member.{IsMember, Holds, Inv}
use deals_server.Deals.Group.Rounds.{
  not_outdates_self, not_outdates, Among-snoc, at_empty, at_cheaper, at_dearer, Same,
}

module _ (q : SearchQuery) (key : DealInfo → ℕ) (k : ℕ) where
  -- A deal that is no member leaves the invariant as it was.
  pub keep :
      (seen : List DealInfo) (g g' : Groups) (d : DealInfo)
      → (IsMember q key k d → ⊥)
      → Same k g g'
      → Inv q key k seen g
      → Inv q key k (d ∷ seen) g'
  keep seen g g' d out (s, h) (inl (empty, e, f)) = inl (
    (λ x a m. elim a [ inl p ↦ out (subst (IsMember q key k) p m) | inr b ↦ empty x b m ]),
    s ∙ e,
    h ∙ f,
  )
  keep seen g g' d out (s, h) (inr holds) = inr record {
    best = holds.best;
    front = holds.front;
    slot_is = s ∙ holds.slot_is;
    history_is = h ∙ holds.history_is;
    positive = holds.positive;
    is_cheapest = record {
      among = inr holds.is_cheapest.among;
      member = holds.is_cheapest.member;
      cheapest = λ x a m. elim a [
        | inl p ↦ absurd (out (subst (IsMember q key k) p m))
        | inr b ↦ holds.is_cheapest.cheapest x b m
      ];
    };
    known = λ x a. inr (holds.known x a);
    current = holds.current;
  }

  -- The first member of the group.
  pub first :
      (seen : List DealInfo) (g : Groups) (d : DealInfo)
      → IsMember q key k d
      → 0 < d.price
      → ((x : DealInfo) → Among x seen → IsMember q key k x → ⊥)
      → slot k g ≡ no_deal
      → history k g ≡ []
      → Inv q key k (d ∷ seen) (process_at k g d)
  first seen g d m p empty s h = rw (at_empty k g d s) (
      inr record {
        best = d;
        front = [];
        slot_is = find_or-put_self no_deal d k g.grouped;
        history_is =
            find_or-put_self [] (history k g ++ d ∷ []) k g.hist ∙ ap (λ xs. xs ++ d ∷ []) h;
        positive = p;
        is_cheapest = record {
          among = inl refl;
          member = m;
          cheapest = λ x a n. elim a [
            | inl e ↦ let same : x.price ≡ d.price = ap (λ y. y.price) e in omega arith
            | inr b ↦ absurd (empty x b n)
          ];
        };
        known = λ x a. elim a [ inl e ↦ inl e | inr b ↦ absurd b ];
        current = λ x a. elim a [ inl e ↦ rw e (not_outdates_self d) | inr b ↦ absurd b ];
      })

  -- A later member, not dearer than the best.
  pub cheaper :
      (seen : List DealInfo) (g : Groups) (d : DealInfo)
      → IsMember q key k d
      → 0 < d.price
      → ((x : DealInfo) → Among x seen → equal d x ≡ false)
      → (holds : Holds q key k seen g) → leb d.price holds.best.price ≡ true
      → Inv q key k (d ∷ seen) (process_at k g d)
  cheaper seen g d m p new holds c =
      let differs = new holds.best holds.is_cheapest.among in
      let le = leb→le d.price holds.best.price c in
      rw (at_cheaper k g d holds.best holds.slot_is differs c) (
        inr record {
          best = d;
          front = holds.front ++ holds.best ∷ [];
          slot_is = find_or-put_self no_deal d k g.grouped;
          history_is =
              find_or-put_self [] (history k g ++ d ∷ []) k g.hist
              ∙ ap (λ xs. xs ++ d ∷ []) holds.history_is;
          positive = p;
          is_cheapest = record {
            among = inl refl;
            member = m;
            cheapest = λ x a n. elim a [
              | inl e ↦ let same : x.price ≡ d.price = ap (λ y. y.price) e in omega arith
              | inr b ↦ let least = holds.is_cheapest.cheapest x b n in omega arith
            ];
          };
          known = λ x a. elim (Among-snoc x d (holds.front ++ holds.best ∷ []) a) [
            | inl b ↦ inr (holds.known x b)
            | inr e ↦ inl e
          ];
          current = λ x a. elim (Among-snoc x d (holds.front ++ holds.best ∷ []) a) [
            | inl b ↦ not_outdates x d (new x (holds.known x b))
            | inr e ↦ rw e (not_outdates_self d)
          ];
        })

  -- A later member that is dearer.
  pub dearer :
      (seen : List DealInfo) (g : Groups) (d : DealInfo)
      → ((x : DealInfo) → Among x seen → equal d x ≡ false)
      → (holds : Holds q key k seen g) → leb d.price holds.best.price ≡ false
      → Inv q key k (d ∷ seen) (process_at k g d)
  dearer seen g d new holds c =
      let differs = new holds.best holds.is_cheapest.among in
      let lt : holds.best.price < d.price = ground arith in
      rw (at_dearer k g d holds.best holds.slot_is differs holds.positive c) (
        inr record {
          best = holds.best;
          front = holds.front;
          slot_is = find_or-put_self no_deal (slot k g) k g.grouped ∙ holds.slot_is;
          history_is = holds.history_is;
          positive = holds.positive;
          is_cheapest = record {
            among = inr holds.is_cheapest.among;
            member = holds.is_cheapest.member;
            cheapest = λ x a n. elim a [
              | inl e ↦ let same : x.price ≡ d.price = ap (λ y. y.price) e in omega arith
              | inr b ↦ holds.is_cheapest.cheapest x b n
            ];
          };
          known = λ x a. inr (holds.known x a);
          current = holds.current;
        })
