-- ===== src/Deals/Group/Maps.antt =====
-- The map of a grouping.
use deals_server.Prelude.{ℕ, ◌≡◌, refl, false, List, [], ◌∷◌, ◌==◌, if◌then◌else◌, arith, ==_refl}
use deals_server.Deals.Group.{find_or, put}

module _ {ℓ} {V : Type ℓ} where
  pub find_or-put :
      (d v : V) (k j : ℕ) (m : List (ℕ × V))
      → find_or d j (put k v m) ≡ (if k == j then v else find_or d j m)
  unfolding find_or put
  find_or-put d v k j [] = refl
  find_or-put d v k j ((i, w) ∷ m) = ground (arith, find_or-put d v k j m)

  pub find_or-put_self : (d v : V) (k : ℕ) (m : List (ℕ × V)) → find_or d k (put k v m) ≡ v
  find_or-put_self d v k m = rw (find_or-put d v k k m, ==_refl k)

  pub find_or-put_ne :
      (d v : V) (k j : ℕ) (m : List (ℕ × V))
      → (k == j) ≡ false
      → find_or d j (put k v m) ≡ find_or d j m
  find_or-put_ne d v k j m h = rw (find_or-put d v k j m, h)
