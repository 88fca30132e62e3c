-- ===== src/Tests/Sorts.antt =====
-- A sort that has the laws of std::sort: insertion.
use mathlib.Core.Path.{subst}
use deals_server.Prelude.{
  ◌≡◌, ◌∙◌, sym, ◌⊎◌, inl, inr, ◌↔◌, Bool, true, false, List, [], ◌∷◌, Bool-cases, if◌then◌else◌,
}
use deals_server.Deals.Info.{DealInfo}
use deals_server.Deals.Info.Last.{Among}
use deals_server.Deals.Search.{IsWeakOrder, IsSortedBy, Sorting}

module _ (before : DealInfo → DealInfo → Bool) where
  unfoldable pub insert_before : DealInfo → List DealInfo → List DealInfo
  insert_before d [] = d ∷ []
  insert_before d (x ∷ xs) = if before d x then d ∷ x ∷ xs else x ∷ insert_before d xs

  unfoldable pub insertion : List DealInfo → List DealInfo
  insertion [] = []
  insertion (d ∷ ds) = insert_before d (insertion ds)

  insert-Among :
      (d : DealInfo) (xs : List DealInfo) (y : DealInfo)
      → Among y (insert_before d xs) ↔ ((y ≡ d) ⊎ Among y xs)
  unfolding insert_before
  insert-Among d [] y = ((λ h. h), (λ h. h))
  insert-Among d (x ∷ xs) y = elim (Bool-cases (before d x)) [
    | inl first ↦ rw first ((λ h. h), (λ h. h))
    | inr later ↦
        let rest = insert-Among d xs y in
        rw later (
          (λ h. elim h [
            | inl e ↦ inr (inl e)
            | inr a ↦ elim (rest.0 a) [ inl e ↦ inl e | inr b ↦ inr (inr b) ]
          ]),
          (λ h. elim h [
            | inl e ↦ inr (rest.1 (inl e))
            | inr a ↦ elim a [ inl e ↦ inl e | inr b ↦ inr (rest.1 (inr b)) ]
          ]),
        )
  ]

  pub insertion-Among : (ds : List DealInfo) (y : DealInfo) → Among y (insertion ds) ↔ Among y ds
  unfolding insertion
  insertion-Among [] y = ((λ h. h), (λ h. h))
  insertion-Among (d ∷ ds) y =
      let here = insert-Among d (insertion ds) y in
      let rest = insertion-Among ds y in
      (
        (λ a. elim (here.0 a) [ inl e ↦ inl e | inr b ↦ inr (rest.0 b) ]),
        (λ a. here.1 (elim a [ inl e ↦ inl e | inr b ↦ inr (rest.1 b) ])),
      )

  asymmetric : IsWeakOrder before → (a b : DealInfo) → before a b ≡ true → before b a ≡ false
  asymmetric o a b h = elim (Bool-cases (before b a)) [
    | inr ahead ↦ ahead
    | inl back ↦ absurd (cc (sym (o.transitive a b a h back) ∙ o.irreflexive a))
  ]

  insert-IsSortedBy :
      IsWeakOrder before
      → (d : DealInfo) (xs : List DealInfo) → IsSortedBy before xs
      → IsSortedBy before (insert_before d xs)
  unfolding insert_before
  insert-IsSortedBy o d [] h = tt
  insert-IsSortedBy o d (x ∷ []) h = elim (Bool-cases (before d x)) [
    | inl first ↦ rw first (asymmetric o d x first, tt)
    | inr later ↦ rw later (later, tt)
  ]
  insert-IsSortedBy o d (x ∷ y ∷ xs) (p, h) = elim (Bool-cases (before d x)) [
    | inl first ↦ rw first (asymmetric o d x first, (p, h))
    | inr later ↦
        let rest = insert-IsSortedBy o d (y ∷ xs) h in
        elim (Bool-cases (before d y)) [
          | inl second ↦ rw (later, second) (later, (asymmetric o d y second, h))
          | inr third ↦
              rw (later, third)
                (
                  p,
                  subst (λ b. IsSortedBy before (if b then d ∷ y ∷ xs else y ∷ insert_before d xs))
                      third rest,
                )
        ]
  ]

  pub insertion-IsSortedBy :
      (ds : List DealInfo) → IsWeakOrder before → IsSortedBy before (insertion ds)
  unfolding insertion
  insertion-IsSortedBy [] o = tt
  insertion-IsSortedBy (d ∷ ds) o = insert-IsSortedBy o d (insertion ds) (insertion-IsSortedBy ds o)

abbrev pub by_insertion : Sorting
by_insertion = record {
  sort = insertion;
  sort-Among = insertion-Among;
  sort-IsSortedBy = insertion-IsSortedBy;
}
