-- ===== src/Memory/Pages/Writes.antt =====
-- The writes to mapped objects, and what is unmapped.
use deals_server.Prelude.{
  ℕ, ◌≡◌, refl, inl, inr, true, List, [], ◌∷◌, Option, none, some, Text, set, get_elem?, All,
  Bool-cases,
}
use deals_server.Memory.Pages.Copies.{length-copy_records}
use deals_server.Memory.Pages.{
  Format, Page, mark_unlinked, copy_records, write_page, is_unlinked, release_unlinked,
}
use deals_server.Memory.Pages.Mapped.{IsWhole, Later, same-Later, set-Later}

module _ {ℓ} {E : Type ℓ} (f : Format E) where
  pub mark_unlinked-Later :
      (h : ℕ) (objects : List (Page E))
      → All (IsWhole f) objects
      → Later f objects (mark_unlinked h objects)
  unfolding mark_unlinked
  mark_unlinked-Later h objects whole = by_object (get_elem? objects h) refl
    where
      by_object :
          (o : Option (Page E))
          → get_elem? objects h ≡ o
          → Later f objects (elim o [
            | none ↦ objects
            | some page ↦ set objects h (record page { unlinked = true })
          ])
      by_object none e = same-Later f objects whole
      by_object (some page) e =
          set-Later f objects h page (record page { unlinked = true }) whole e refl refl

  pub write_page-Later :
      (h at : ℕ) (records : List E) (objects : List (Page E))
      → All (IsWhole f) objects
      → Later f objects (write_page h at records objects)
  unfolding write_page
  write_page-Later h at records objects whole = by_object (get_elem? objects h) refl
    where
      by_object :
          (o : Option (Page E))
          → get_elem? objects h ≡ o
          → Later f objects (elim o [
            | none ↦ objects
            | some page ↦
                set objects h
                  (record page { shared_elements = copy_records at records page.shared_elements })
          ])
      by_object none e = same-Later f objects whole
      by_object (some page) e =
          set-Later f objects h page
            (record page { shared_elements = copy_records at records page.shared_elements }) whole e
            refl (length-copy_records at records page.shared_elements)

  pub release_unlinked-All :
      (P : Text × ℕ → Type ℓ) (objects : List (Page E)) (opened : List (Text × ℕ))
      → All P opened
      → All P (release_unlinked objects opened)
  unfolding release_unlinked
  release_unlinked-All P objects [] h = tt
  release_unlinked-All P objects ((n, i) ∷ opened) (p, h) =
      elim (Bool-cases (is_unlinked i objects)) [
        | inl gone ↦ rw gone (release_unlinked-All P objects opened h)
        | inr here ↦ rw here (p, release_unlinked-All P objects opened h)
      ]
