-- ===== src/Memory/Pages/Copies.antt =====
-- memcpy of records over a page's elements.
use deals_server.Prelude.{
  ℕ, zero, suc, ◌+◌, ◌-◌, ◌≤◌, ◌≡◌, refl, ap, ◌∙◌, List, [], ◌∷◌, ◌++◌, length, take, drop,
  length-append, length-take, length-drop, arith,
}
use deals_server.Memory.Pages.{copy_records}

module _ {ℓ} {E : Type ℓ} where
  pub length-copy_records :
      (at : ℕ) (records elements : List E)
      → length (copy_records at records elements) ≡ length elements
  unfolding copy_records
  length-copy_records at records elements =
      rw
        (
          length-append (take at elements)
              (take (length elements - at) records ++ drop (at + length records) elements),
          length-append (take (length elements - at) records) (drop (at + length records) elements),
          length-take at elements,
          length-take (length elements - at) records,
          length-drop (at + length records) elements,
        )
        (omega arith)

  drop-take : (n : ℕ) (xs ys : List E) → n ≤ length xs → drop n (take n xs ++ ys) ≡ ys
  drop-take zero xs ys h = refl
  drop-take (suc n) [] ys h = absurd (omega arith)
  drop-take (suc n) (x ∷ xs) ys h = drop-take n xs ys (omega arith)

  take_all : (xs : List E) (n : ℕ) → length xs ≤ n → take n xs ≡ xs
  take_all [] zero h = refl
  take_all [] (suc n) h = refl
  take_all (x ∷ xs) zero h = absurd (omega arith)
  take_all (x ∷ xs) (suc n) h = ap (λ zs. x ∷ zs) (take_all xs n (omega arith))

  -- What is copied into the elements stands at its place, in front of what was there.
  pub copied_back :
      (at : ℕ) (records elements : List E)
      → at + length records ≤ length elements
      → drop at (copy_records at records elements) ≡ records ++ drop (at + length records) elements
  unfolding copy_records
  copied_back at records elements h =
      drop-take at elements
        (take (length elements - at) records ++ drop (at + length records) elements) (omega arith)
      ∙ ap (λ front. front ++ drop (at + length records) elements)
          (take_all records (length elements - at) (omega arith))
