-- ===== src/Memory/Table/Maintenance.antt =====
-- release_expired_memory_pages, cleanup, and what they do to the index.
use mathlib.Core.Path.{subst}
use deals_server.Prelude.{
  Bool, true, ℕ, zero, suc, ◌-◌, ◌<◌, ◌≡◌, refl, sym, ◌∙◌, ◌⊎◌, inl, inr, false, List, ltb, leb,
  ltb→lt, length, get_or, set, get_or-set, length-set, arith, Bool-cases, Outcome, ok, err, foreign,
}
use deals_server.Memory.Index.{
  Slot, no_slot, is_kept, find_last_data, clear_index_record_full, remove_at_once,
}
use deals_server.Memory.Index.Validity.{IsIndex, used_inside, AllFreeFrom, clear-IsIndex}
use deals_server.Memory.Index.Scanning.{IsScan, kept_used, find_last_data-IsScan}
use deals_server.Memory.Pages.{Pages}
use deals_server.Memory.Table.{
  locked, Settings, Table, World, capacity, get_page, removed, remove_page, after, remove_expired,
  maintain, release_local, release_expired_memory_pages,
}

module _ {ℓ} {E : Type ℓ} where
  -- What holds of the table after an operation: one predicate where it returns, one where it throws.
  abbrev pub Ends {κ} :
      (Table E → Type κ) → (Table E → Type κ) → Outcome (Unit {0}) × Table E → Type κ
  Ends Good Bad (ok u, t) = Good t
  Ends Good Bad (err e, t) = Bad t
  Ends Good Bad (foreign, t) = Bad t

  pub after-Ends {κ} :
      {P : Table E → Type κ} (Q B : Table E → Type κ) (o : Outcome (Unit {0}) × Table E)
      (next : Table E → Outcome (Unit {0}) × Table E)
      → Ends P B o
      → ((t : Table E) → P t → Ends Q B (next t))
      → Ends Q B (after o next)
  after-Ends Q B (ok u, t) next p h = h t p
  after-Ends Q B (err e, t) next p h = p
  after-Ends Q B (foreign, t) next p h = p

  pub locked-Ends {κ} :
      (Q B : Table E → Type κ) (b : Bool) (run : Table E → Outcome (Unit {0}) × Table E)
      (t : Table E)
      → Ends Q B (run t)
      → B t
      → Ends Q B (locked b run t)
  locked-Ends Q B true run t ends bad = ends
  locked-Ends Q B false run t ends bad = bad

  pub Ends-weaken {κ} :
      {P A : Table E → Type κ} (Q B : Table E → Type κ) (o : Outcome (Unit {0}) × Table E)
      → Ends P A o
      → ((t : Table E) → P t → Q t)
      → ((t : Table E) → A t → B t)
      → Ends Q B o
  Ends-weaken Q B (ok u, t) p f g = f t p
  Ends-weaken Q B (err e, t) p f g = g t p
  Ends-weaken Q B (foreign, t) p f g = g t p

  -- A page that is removed clears its slot; where its page cannot be opened the index stays.
  removed-Ends :
      (m idx : ℕ) (t : Table E) (o : Outcome ℕ × Pages E)
      → Ends
          (λ u. u.index ≡ set t.index idx (clear_index_record_full m (get_or t.index idx no_slot)))
          (λ u. u.index ≡ t.index)
          (removed m idx t o)
  removed-Ends m idx t (ok h, p) = refl
  removed-Ends m idx t (err e, p) = refl
  removed-Ends m idx t (foreign, p) = refl

  pub remove_page-Ends :
      (st : Settings E) (w : World) (idx : ℕ) (t : Table E)
      → Ends
          (λ u.
            u.index
            ≡ set t.index idx (clear_index_record_full (capacity st) (get_or t.index idx no_slot)))
          (λ u. u.index ≡ t.index)
          (remove_page st w idx t)
  unfolding remove_page
  remove_page-Ends st w idx t =
      removed-Ends (capacity st) idx t
        (get_page st w (get_or t.index idx no_slot).page_name t.pages)

-- Every slot stays or is cleared, and is then one of those that may be.
abbrev pub IsSwept : ℕ → (ℕ → Type 0) → List Slot → List Slot → Type 0
IsSwept m Removable before later =
    (length later ≡ length before)
    × ((k : ℕ)
        → (get_or later k no_slot ≡ get_or before k no_slot)
          ⊎ (Removable k × (get_or later k no_slot ≡ clear_index_record_full m no_slot)))

clear-IsSwept :
    (m idx : ℕ) (Removable : ℕ → Type 0) (before slots : List Slot)
    → Removable idx
    → IsSwept m Removable before slots
    → IsSwept m Removable before (set slots idx (clear_index_record_full m no_slot))
clear-IsSwept m idx Removable before slots removable (len, h) = (
  length-set slots idx _ ∙ len,
  λ k. elim (get_or-set slots idx k (clear_index_record_full m no_slot) no_slot) [
    | inl (here, e) ↦ inr (subst Removable here removable, e)
    | inr there ↦ elim (h k) [ inl same ↦ inl (there ∙ same) | inr (r, e) ↦ inr (r, there ∙ e) ]
  ],
)

module _ {ℓ} {E : Type ℓ} (st : Settings E) (w : World) where
  -- The slots between the last page to keep and `idx` are cleared, from the last on.
  abbrev Sweeping : ℕ → List Slot → Table E → Type 0
  Sweeping last before t =
      IsIndex (capacity st) t.index × IsSwept (capacity st) (λ k. last < k) before t.index

  swept_step :
      (last idx : ℕ) (before : List Slot) (t u : Table E)
      → last < idx
      → AllFreeFrom (suc idx) t.index
      → Sweeping last before t
      → u.index
        ≡ set t.index idx (clear_index_record_full (capacity st) (get_or t.index idx no_slot))
      → AllFreeFrom (suc (idx - 1)) u.index × Sweeping last before u
  swept_step last idx before t u lt free (valid, swept) e =
      let m = capacity st in
      let (valid_next, free_next) = clear-IsIndex m t.index idx no_slot valid free in
      let here : idx ≡ suc (idx - 1) = omega arith in
      (
        subst (λ slots. AllFreeFrom (suc (idx - 1)) slots) (sym e)
            (subst (λ i. AllFreeFrom i (set t.index idx (clear_index_record_full m no_slot))) here
              free_next),
        (
          subst (IsIndex m) (sym e) valid_next,
          subst (IsSwept m (λ k. last < k) before) (sym e)
              (clear-IsSwept m idx (λ k. last < k) before t.index lt swept),
        ),
      )

  same_step :
      (last : ℕ) (before : List Slot) (t u : Table E)
      → Sweeping last before t
      → u.index ≡ t.index
      → Sweeping last before u
  same_step last before t u (valid, swept) e = (
    subst (IsIndex (capacity st)) (sym e) valid,
    subst (IsSwept (capacity st) (λ k. last < k) before) (sym e) swept,
  )

  remove_expired-Ends :
      (left last idx : ℕ) (before : List Slot) (t : Table E)
      → AllFreeFrom (suc idx) t.index
      → Sweeping last before t
      → Ends (Sweeping last before) (Sweeping last before) (remove_expired st w left last idx t)
  unfolding remove_expired
  remove_expired-Ends zero last idx before t free h = h
  remove_expired-Ends (suc left) last idx before t free (valid, swept) =
      elim (Bool-cases (ltb last idx)) [
        | inr done ↦ rw done (valid, swept)
        | inl more ↦ rw more (
            after-Ends (Sweeping last before) (Sweeping last before) (remove_page st w idx t)
              (remove_expired st w left last (idx - 1))
              (Ends-weaken (λ u. AllFreeFrom (suc (idx - 1)) u.index × Sweeping last before u)
                (Sweeping last before) (remove_page st w idx t) (remove_page-Ends st w idx t)
                (λ u. swept_step last idx before t u (ltb→lt last idx more) free (valid, swept))
                (λ u. same_step last before t u (valid, swept)))
              (λ u now. remove_expired-Ends left last (idx - 1) before u now.0 now.1))
      ]

  -- What maintenance keeps: a valid index, where a slot stays or was not to be kept and is cleared.
  abbrev pub Maintained : Table E → Table E → Type 0
  Maintained t u =
      IsIndex (capacity st) u.index
      × IsSwept (capacity st)
          (λ k. is_kept w.now t.global_expire_at (get_or t.index k no_slot) ≡ false) t.index u.index

  behind_kept :
      (g : ℕ) (slots : List Slot) (r : ℕ × ℕ) (k : ℕ)
      → IsScan w.now g slots 0 0 r
      → r.1 < k
      → is_kept w.now g (get_or slots k no_slot) ≡ false
  behind_kept g slots r k scan lt = elim (Bool-cases (is_kept w.now g (get_or slots k no_slot))) [
    | inr gone ↦ gone
    | inl kept ↦
        let inside = used_inside slots k (kept_used w.now g (get_or slots k no_slot) kept) in
        let le = scan.kept (omega arith) k kept inside in absurd (omega arith)
  ]

  unswept : (m : ℕ) (R : ℕ → Type 0) (slots : List Slot) → IsSwept m R slots slots
  unswept m R slots = (refl, λ k. inl refl)

  sweep_weaken :
      (m : ℕ) (R S : ℕ → Type 0) (before later : List Slot)
      → ((k : ℕ) → R k → S k)
      → IsSwept m R before later
      → IsSwept m S before later
  sweep_weaken m R S before later f (len, h) =
      (len, λ k. elim (h k) [ inl same ↦ inl same | inr (r, e) ↦ inr (f k r, e) ])

  maintain-Ends :
      (t : Table E)
      → IsIndex (capacity st) t.index
      → Ends (Maintained t) (Maintained t) (maintain st w t)
  unfolding maintain
  maintain-Ends t valid =
      let m = capacity st in
      let r = find_last_data w.now t.global_expire_at t.index 0 0 in
      let scan = find_last_data-IsScan m w.now t.global_expire_at t.index 0 0 valid in
      let whole =
        unswept m (λ k. is_kept w.now t.global_expire_at (get_or t.index k no_slot) ≡ false)
          t.index in
      elim (Bool-cases (leb t.expiration_check w.now)) [
        | inr later ↦ rw later (valid, whole)
        | inl due ↦ elim (Bool-cases (ltb 0 r.0)) [
          | inr empty ↦ rw (due, empty) (valid, whole)
          | inl some_used ↦
              let last_used : scan.used ≡ suc (r.0 - 1) =
                (let e = scan.end in let lt = ltb→lt 0 r.0 some_used in omega arith) in
              rw (due, some_used)
                (Ends-weaken (Maintained t) (Maintained t)
                  (remove_expired st w remove_at_once r.1 (r.0 - 1) _)
                  (remove_expired-Ends remove_at_once r.1 (r.0 - 1) t.index _
                    (subst (λ i. AllFreeFrom i t.index) last_used scan.free)
                    (valid, unswept m (λ k. r.1 < k) t.index))
                  (λ u h. (
                    h.0,
                    sweep_weaken m (λ k. r.1 < k) _ t.index u.index
                        (λ k. behind_kept t.global_expire_at t.index r k scan) h.1,
                  ))
                  (λ u h. (
                    h.0,
                    sweep_weaken m (λ k. r.1 < k) _ t.index u.index
                        (λ k. behind_kept t.global_expire_at t.index r k scan) h.1,
                  )))
        ]
      ]

  -- Whatever release_expired_memory_pages returns or throws on a valid index: the index stays valid,
  -- and each slot stays as it is or is cleared, where only those are cleared that were not to be
  -- kept: not in use, or 60 seconds past their expiry or the global one.
  pub release_expired_memory_pages-IsIndex :
      (t : Table E)
      → IsIndex (capacity st) t.index
      → Ends (Maintained t) (Maintained t) (release_expired_memory_pages st w t)
  unfolding release_expired_memory_pages
  release_expired_memory_pages-IsIndex t valid =
      elim (Bool-cases (ltb w.now t.time_to_check_page_expire)) [
        | inl early ↦ rw early (valid, unswept (capacity st) _ t.index)
        | inr due ↦ rw due (
            after-Ends (Maintained t) (Maintained t) (locked w.enters_maintenance (maintain st w) _)
              release_local
              (locked-Ends (Maintained t) (Maintained t) w.enters_maintenance (maintain st w) _
                (maintain-Ends _ valid) (valid, unswept (capacity st) _ t.index))
              (λ u h. h))
      ]
