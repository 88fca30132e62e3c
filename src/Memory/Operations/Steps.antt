-- ===== src/Memory/Operations/Steps.antt =====
-- The runs of a process on a table, of the steps below, and the invariant that holds in all of them.
use deals_server.Prelude.{
  ℕ, zero, suc, ◌<◌, ◌≡◌, refl, List, [], replicate, length-replicate, All, arith, Outcome, ok, err,
  foreign,
}
use deals_server.Memory.Index.{no_slot, records_to_scan}
use deals_server.Memory.Index.Validity.{IsIndex, IsUnused}
use deals_server.Memory.Pages.{Pages}
use deals_server.Memory.Pages.Mapped.{IsPages, Gets, get_page_by_name-Gets}
use deals_server.Memory.Table.{
  Settings, Table, World, capacity, new_table, get_page, release_expired_memory_pages,
}
use deals_server.Memory.Table.Reservations.{expire_of}
use deals_server.Memory.Operations.{
  Extractor, add_record, process_records, elements_at, get_element_data, cleanup,
}
use deals_server.Memory.Table.Maintenance.{Ends}
use deals_server.Memory.Operations.Paging.{
  locked-keeps, scan_pages-IsPages, then_return-keeps, cleanup-HasPages,
}
use deals_server.Memory.Operations.Cleaning.{cleanup-IsEmpty, Cleaned}
use deals_server.Memory.Operations.Adding.{
  IsTable, IsSettings, Added, get_element_data-add_record, release-IsTable,
}

-- What a process may do, at any time and whatever the system answers: an addition counts where its
-- expiry is not 0, and a cleanup where it returns, since one that throws may leave a hole among the
-- slots in use. `restarts` is another process that starts, with nothing mapped.
pub data Step {ℓ} {E : Type ℓ} (st : Settings E) : Table E → Table E → Type ℓ where
  adds :
      (w : World) (records : List E) (lifetime_seconds : ℕ) (t : Table E)
      → 0 < expire_of st w lifetime_seconds
      → Step st t (add_record st w records lifetime_seconds t).1
  processes : (w : World) (t : Table E) → Step st t (process_records st w t).1
  extracts : (w : World) (x : Extractor) (t : Table E) → Step st t (get_element_data st w x t).1
  cleans : (w : World) (t : Table E) → (cleanup st w t).0 ≡ ok tt → Step st t (cleanup st w t).1
  restarts :
      (t : Table E)
      → Step st t (record t {
        time_to_check_page_expire = 0;
        pages = record t.pages { opened_pages_list = [] };
      })

pub data Reach {ℓ} {E : Type ℓ} (st : Settings E) (s : Table E) : Table E → Type ℓ where
  here : Reach st s s
  next : {t u : Table E} → Reach st s t → Step st t u → Reach st s u

module _ {ℓ} {E : Type ℓ} (st : Settings E) (is_settings : IsSettings st) where
  empty_slots :
      (n : ℕ) → IsIndex (capacity st) (replicate n no_slot) × All IsUnused (replicate n no_slot)
  empty_slots zero = (tt, tt)
  empty_slots (suc n) =
      let (valid, unused) = empty_slots n in ((omega arith, (λ e. unused), valid), (refl, unused))

  pub new_table-IsTable : IsTable st (new_table st)
  new_table-IsTable = record {
    index = (empty_slots st.table_max_pages).0;
    sized = length-replicate st.table_max_pages no_slot;
    pages = record { whole = tt; mapped = tt };
  }

  Added-IsTable :
      (records : List E) (o : Outcome Extractor × Table E) → Added st records o → IsTable st o.1
  Added-IsTable records (ok x, u) h = h.0
  Added-IsTable records (err e, u) h = h
  Added-IsTable records (foreign, u) h = h

  with_pages :
      (t : Table E) (p : Pages E)
      → IsTable st t
      → IsPages st.format p
      → IsTable st (record t { pages = p })
  with_pages t p is pages = record { index = is.index; sized = is.sized; pages = pages }

  processed-IsTable :
      (w : World) (t : Table E) → IsTable st t → IsTable st (process_records st w t).1
  unfolding process_records
  processed-IsTable w t is =
      then_return-keeps (IsTable st) (release_expired_memory_pages st w t) _
        (release-IsTable st w is_settings t is)
        λ u is. locked-keeps (IsTable st) w.enters _ u is λ u is. with_pages u _ is (
          scan_pages-IsPages st w is_settings.positive
            (records_to_scan w.now u.global_expire_at u.index) u.pages is.pages)

  extracted-IsTable :
      (x : Extractor) (t : Table E) (o : Outcome ℕ × Pages E)
      → IsTable st t
      → Gets st.format x.page_name t.pages o
      → IsTable st (elements_at x t o).1
  extracted-IsTable x t (ok h, p) is got = with_pages t p is got.0
  extracted-IsTable x t (err e, p) is got = with_pages t p is got
  extracted-IsTable x t (foreign, p) is got = with_pages t p is got

  returned :
      (P B : Table E → Type 0) (o : Outcome (Unit {0}) × Table E) → o.0 ≡ ok tt → Ends P B o → P o.1
  returned P B (ok u, t) e h = h
  returned P B (err x, t) e h = absurd (cc e)
  returned P B (foreign, t) e h = absurd (cc e)

  pub Step-IsTable : {t u : Table E} → Step st t u → IsTable st t → IsTable st u
  unfolding get_element_data
  Step-IsTable (adds w records lifetime_seconds t expires) is =
      Added-IsTable records (add_record st w records lifetime_seconds t)
        (get_element_data-add_record st w records lifetime_seconds is_settings expires t is)
  Step-IsTable (processes w t) is = processed-IsTable w t is
  Step-IsTable (extracts w x t) is =
      extracted-IsTable x t (get_page st w x.page_name t.pages) is (
        get_page_by_name-Gets st.format w.answers x.page_name t.pages is_settings.positive is.pages)
  Step-IsTable (cleans w t e) is =
      let ((all, valid), len) =
        returned (Cleaned st w) (λ u. Unit {0}) (cleanup st w t) e
          (cleanup-IsEmpty st w t is.index is.sized) in
      record {
        index = valid;
        sized = len;
        pages = cleanup-HasPages st w is_settings.positive t is.pages;
      }
  Step-IsTable (restarts t) is = record {
    index = is.index;
    sized = is.sized;
    pages = record { whole = is.pages.whole; mapped = tt };
  }

  -- In every run from a new table that consists of additions whose expiry is not 0 (modulo 2^32),
  -- readings, extractions, cleanups that return, and restarts, each of the first three also where it
  -- throws, with settings in range: the slots in use stand in front of those that are not, no page has
  -- more room than elements, the index has a slot for each page, every object of a page's size has a
  -- page's elements, and what is opened is such an object. A cleanup that throws is no step of such a
  -- run.
  pub Reach-IsTable : (t : Table E) → Reach st (new_table st) t → IsTable st t
  Reach-IsTable t here = new_table-IsTable
  Reach-IsTable t (next before step) = Step-IsTable step (Reach-IsTable _ before)
