-- ===== src/Memory/Index/Scanning.antt =====
-- The first loop of release_expired_memory_pages.
use mathlib.Core.Path.{subst}
use deals_server.Prelude.{
  ℕ, zero, suc, ◌+◌, ◌≤◌, ◌<◌, ◌≡◌, sym, inl, inr, true, List, [], ◌∷◌, ltb, ltb→lt, ◌==◌, ==_iff,
  if◌then◌else◌, length, get_or, All, arith, Bool-cases,
}
use deals_server.Memory.Index.{Slot, no_slot, is_kept, find_last_data}
use deals_server.Memory.Index.Validity.{All-get_or, IsIndex, IsUnused, AllFreeFrom}

AllFree-zero : (slots : List Slot) → All IsUnused slots → AllFreeFrom zero slots
AllFree-zero [] f = tt
AllFree-zero (s ∷ slots) (u, f) = (u, AllFree-zero slots f)

-- The first loop ends behind the slots in use, and its last page kept is behind no other.
pub record IsScan (now g : ℕ) (slots : List Slot) (idx last : ℕ) (r : ℕ × ℕ) : Type 0 where
  pub used : ℕ
  pub end : r.0 ≡ idx + used
  pub free : AllFreeFrom used slots
  pub grows : last ≤ idx → last ≤ r.1
  pub kept :
      last ≤ idx
      → (k : ℕ) → is_kept now g (get_or slots k no_slot) ≡ true
      → k < length slots
      → idx + k ≤ r.1

pub kept_used : (now g : ℕ) (s : Slot) → is_kept now g s ≡ true → 0 < s.expire_at
kept_used now g s h = elim (Bool-cases (ltb 0 s.expire_at)) [
  | inl used ↦ ltb→lt 0 s.expire_at used
  | inr free ↦ absurd (cc (h, free))
]

-- The last page to keep, once a slot is looked at.
module _ (now g idx last : ℕ) (s : Slot) (le : last ≤ idx) where
  abbrev seen : ℕ
  seen = if is_kept now g s then idx else last

  seen_bounds : (last ≤ seen) × (seen ≤ idx)
  seen_bounds = elim (Bool-cases (is_kept now g s)) [
    | inl kept ↦ rw kept (omega arith, omega arith)
    | inr gone ↦ rw gone (omega arith, omega arith)
  ]

kept_here :
    (now g idx last : ℕ) (s : Slot) (end : ℕ)
    → is_kept now g s ≡ true
    → (if is_kept now g s then idx else last) ≤ end
    → idx ≤ end
kept_here now g idx last s end kept =
    subst (λ b. (if b then idx else last) ≤ end → idx ≤ end) (sym kept) (λ le. le)

IsScan-used :
    (now g idx last : ℕ) (s : Slot) (slots : List Slot) (r : ℕ × ℕ)
    → IsScan now g slots (suc idx) (if is_kept now g s then idx else last) r
    → IsScan now g (s ∷ slots) idx last r
IsScan-used now g idx last s slots r scan = record {
  used = suc scan.used;
  end = let e = scan.end in omega arith;
  free = scan.free;
  grows = λ le.
      let (low, high) = seen_bounds now g idx last s le in
      let grown = scan.grows (omega arith) in omega arith;
  kept = kept;
}
  where
    kept :
        last ≤ idx
        → (k : ℕ) → is_kept now g (get_or (s ∷ slots) k no_slot) ≡ true
        → k < suc (length slots)
        → idx + k ≤ r.1
    kept le zero e lt =
        let (low, high) = seen_bounds now g idx last s le in
        let h = kept_here now g idx last s r.1 e (scan.grows (omega arith)) in omega arith
    kept le (suc k) e lt =
        let (low, high) = seen_bounds now g idx last s le in
        let there = scan.kept (omega arith) k e (omega arith) in omega arith

IsScan-unused :
    (now g idx last : ℕ) (s : Slot) (slots : List Slot)
    → IsUnused s
    → All IsUnused slots
    → IsScan now g (s ∷ slots) idx last (idx, if is_kept now g s then idx else last)
IsScan-unused now g idx last s slots free rest = record {
  used = 0;
  end = omega arith;
  free = (free, AllFree-zero slots rest);
  grows = λ le. let (low, high) = seen_bounds now g idx last s le in low;
  kept = λ le k e lt.
      let unused = All-get_or IsUnused (s ∷ slots) k (free, rest) lt in
      let used = kept_used now g (get_or (s ∷ slots) k no_slot) e in absurd (omega arith);
}

pub find_last_data-IsScan :
    (m now g : ℕ) (slots : List Slot) (idx last : ℕ)
    → IsIndex m slots
    → IsScan now g slots idx last (find_last_data now g slots idx last)
unfolding find_last_data
find_last_data-IsScan m now g [] idx last h = record {
  used = 0;
  end = omega arith;
  free = tt;
  grows = λ le. omega arith;
  kept = λ le k kept lt. absurd (omega arith);
}
find_last_data-IsScan m now g (s ∷ slots) idx last (a, p, h) =
    elim (Bool-cases (s.expire_at == 0)) [
      | inl free ↦
          rw free
            (let e = (==_iff s.expire_at 0).0 free in IsScan-unused now g idx last s slots e (p e))
      | inr used ↦ rw used (
          IsScan-used now g idx last s slots _ (
            find_last_data-IsScan m now g slots (suc idx) (if is_kept now g s then idx else last)
              h))
    ]
