-- ===== src/Memory/Operations/Paging.antt =====
-- The operations keep the pages as they should be.
use deals_server.Prelude.{
  Bool, true, false, ℕ, zero, suc, ◌-◌, ◌<◌, refl, inl, inr, List, [], ◌∷◌, Text, ltb, leb, get_or,
  Bool-cases, Outcome, ok, err, foreign,
}
use deals_server.Memory.Index.{find_last_data, no_slot, remove_at_once, Slot}
use deals_server.Memory.Pages.{Pages, size_of, mark_unlinked}
use deals_server.Memory.Pages.Mapped.{IsPages, Later-IsPages, Gets, get_page_by_name-Gets, IsMapped}
use deals_server.Memory.Pages.Writes.{mark_unlinked-Later, release_unlinked-All}
use deals_server.Memory.Table.{
  locked, Settings, Table, World, capacity, get_page, removed, remove_page, after, remove_expired,
  maintain, release_local, release_expired_memory_pages,
}
use deals_server.Memory.Table.Maintenance.{Ends}
use deals_server.Memory.Operations.{
  then_return, clean_pages, cleanup, scan_pages, and_then, add_front, used_elements,
}

pub Ends-always {ℓ κ} :
    {E : Type ℓ} (P : Table E → Type κ) (o : Outcome (Unit {0}) × Table E) → Ends P P o → P o.1
Ends-always P (ok u, t) h = h
Ends-always P (err e, t) h = h
Ends-always P (foreign, t) h = h

module _ {ℓ} {E : Type ℓ} where
  pub after-keeps :
      (P : Table E → Type ℓ) (o : Outcome (Unit {0}) × Table E)
      (next : Table E → Outcome (Unit {0}) × Table E)
      → P o.1
      → ((t : Table E) → P t → P (next t).1)
      → P (after o next).1
  after-keeps P (ok u, t) next h f = f t h
  after-keeps P (err e, t) next h f = h
  after-keeps P (foreign, t) next h f = h

  pub then_return-keeps {κ} :
      {A : Type κ} (P : Table E → Type ℓ) (o : Outcome (Unit {0}) × Table E)
      (next : Table E → Outcome A × Table E)
      → P o.1
      → ((t : Table E) → P t → P (next t).1)
      → P (then_return o next).1
  then_return-keeps P (ok u, t) next h f = f t h
  then_return-keeps P (err e, t) next h f = h
  then_return-keeps P (foreign, t) next h f = h

pub locked-keeps {ℓ κ μ} :
    {E : Type ℓ} {A : Type κ} (P : Table E → Type μ) (b : Bool)
    (run : Table E → Outcome A × Table E) (t : Table E)
    → P t
    → ((t : Table E) → P t → P (run t).1)
    → P (locked b run t).1
locked-keeps P true run t h f = f t h
locked-keeps P false run t h f = h

module _ {ℓ} {E : Type ℓ} (st : Settings E) (w : World) (positive : 0 < size_of st.format) where
  abbrev HasPages : Table E → Type ℓ
  HasPages t = IsPages st.format t.pages

  removed-HasPages :
      (idx : ℕ) (name : Text) (t : Table E) (o : Outcome ℕ × Pages E)
      → Gets st.format name t.pages o
      → HasPages (removed (capacity st) idx t o).1
  removed-HasPages idx name t (err e, p) is = is
  removed-HasPages idx name t (foreign, p) is = is
  removed-HasPages idx name t (ok h, p) (is, got, found) =
      Later-IsPages st.format p (record p { objects = mark_unlinked h p.objects; directory = _ }) is
        (mark_unlinked-Later st.format h p.objects is.whole) refl

  remove_page-HasPages : (idx : ℕ) (t : Table E) → HasPages t → HasPages (remove_page st w idx t).1
  unfolding remove_page
  remove_page-HasPages idx t is =
      let name = (get_or t.index idx no_slot).page_name in
      removed-HasPages idx name t (get_page st w name t.pages)
        (get_page_by_name-Gets st.format w.answers name t.pages positive is)

  remove_expired-HasPages :
      (left last idx : ℕ) (t : Table E)
      → HasPages t
      → HasPages (remove_expired st w left last idx t).1
  unfolding remove_expired
  remove_expired-HasPages zero last idx t is = is
  remove_expired-HasPages (suc left) last idx t is = elim (Bool-cases (ltb last idx)) [
    | inr done ↦ rw done is
    | inl more ↦ rw more (
        after-keeps HasPages (remove_page st w idx t) (remove_expired st w left last (idx - 1))
          (remove_page-HasPages idx t is) (remove_expired-HasPages left last (idx - 1)))
  ]

  maintain-HasPages : (t : Table E) → HasPages t → HasPages (maintain st w t).1
  unfolding maintain
  maintain-HasPages t is = elim (Bool-cases (leb t.expiration_check w.now)) [
    | inr later ↦ rw later is
    | inl due ↦ elim (Bool-cases (ltb 0 (find_last_data w.now t.global_expire_at t.index 0 0).0)) [
      | inr empty ↦ rw (due, empty) is
      | inl some_used ↦ rw (due, some_used) (remove_expired-HasPages remove_at_once _ _ _ is)
    ]
  ]

  release_local-HasPages : (t : Table E) → HasPages t → HasPages (release_local t).1
  release_local-HasPages t is = record {
    whole = is.whole;
    mapped =
        release_unlinked-All st.format (IsMapped st.format t.pages.objects) t.pages.objects
          t.pages.opened_pages_list is.mapped;
  }

  pub release-HasPages :
      (t : Table E) → HasPages t → HasPages (release_expired_memory_pages st w t).1
  unfolding release_expired_memory_pages
  release-HasPages t is = elim (Bool-cases (ltb w.now t.time_to_check_page_expire)) [
    | inl early ↦ rw early is
    | inr due ↦ rw due (
        after-keeps HasPages (locked w.enters_maintenance (maintain st w) _) release_local
          (locked-keeps HasPages w.enters_maintenance (maintain st w) _ is maintain-HasPages)
          release_local-HasPages)
  ]

  clean_pages-HasPages :
      (left idx : ℕ) (t : Table E) → HasPages t → HasPages (clean_pages st w left idx t).1
  unfolding clean_pages
  clean_pages-HasPages zero idx t is = is
  clean_pages-HasPages (suc left) idx t is =
      elim (Bool-cases (ltb 0 (get_or t.index idx no_slot).expire_at)) [
        | inr free ↦ rw free is
        | inl used ↦ rw used (
            after-keeps HasPages (remove_page st w idx t) (clean_pages st w left (suc idx))
              (remove_page-HasPages idx t is) (clean_pages-HasPages left (suc idx)))
      ]

  pub scan_pages-IsPages :
      (slots : List Slot) (p : Pages E)
      → IsPages st.format p
      → IsPages st.format (scan_pages st w slots p).1
  unfolding scan_pages
  scan_pages-IsPages [] p is = is
  scan_pages-IsPages (s ∷ slots) p is =
      scanned_page (get_page st w s.page_name p)
        (get_page_by_name-Gets st.format w.answers s.page_name p positive is)
        (scan_pages-IsPages slots)
    where
      front :
          (xs : List E) (o : Outcome (List E) × Pages E)
          → IsPages st.format o.1
          → IsPages st.format (add_front xs o).1
      front xs (ok ys, p) is = is
      front xs (err e, p) is = is
      front xs (foreign, p) is = is

      scanned_page :
          (o : Outcome ℕ × Pages E)
          → Gets st.format s.page_name p o
          → ((q : Pages E) → IsPages st.format q → IsPages st.format (scan_pages st w slots q).1)
          → IsPages st.format
              (and_then o
                λ h p. add_front (used_elements (capacity st) s h p) (scan_pages st w slots p)).1
      scanned_page (err e, q) got f = got
      scanned_page (foreign, q) got f = got
      scanned_page (ok h, q) got f =
          front (used_elements (capacity st) s h q) (scan_pages st w slots q) (f q got.0)

  pub cleanup-HasPages : (t : Table E) → HasPages t → HasPages (cleanup st w t).1
  unfolding cleanup
  cleanup-HasPages t is =
      after-keeps HasPages (locked w.enters (clean_pages st w st.table_max_pages 0) t) _
        (locked-keeps HasPages w.enters (clean_pages st w st.table_max_pages 0) t is
          (clean_pages-HasPages st.table_max_pages 0))
        (λ u h. record { whole = h.whole; mapped = tt })
