-- ===== src/Memory/Table.antt =====
-- Table of src/shared_memory.tpp. An operation is one function from the table before to what it
-- returns or throws, and the table after, also where it throws. The lock is taken
-- around the parts that the source names, which may fail; giving it back does not fail; a time is read once in an operation.
pub mod Reservations
pub mod Maintenance
use deals_server.Prelude.{
  ℕ, zero, suc, ◌+◌, ◌-◌, ◌%◌, ◌^◌, Bool, true, false, ◌&&◌, List, [], ◌∷◌, ◌++◌, Option, none,
  some, ltb, leb, ◌==◌, if◌then◌else◌, Text, codes, line, Outcome, ok, err, foreign, internal,
  length, set, get_or, replicate, drop, take,
}
use deals_server.Prelude.Decimal.{to_string}
use deals_server.Utils.Calendar.{u32, sub_u32}
use deals_server.Memory.Index.{
  remove_at_once, remove_delay_sec, check_interval_sec, PageType, Slot, no_slot, clear_index_record,
  clear_index_record_full, find_last_data, choose_page, or_oldest, Choice, lifetime, Reserved,
  reserve_at, global_after,
}
use deals_server.Memory.Pages.{
  Answers, Format, Page, Pages, get_page_by_name, unlink, mark_unlinked, write_page, elements_of,
  release_unlinked, release_open_pages,
}

pub record Settings {ℓ} (E : Type ℓ) : Type ℓ where
  pub table_name : Text
  pub table_max_pages : ℕ
  pub record_expire_seconds : ℕ
  pub format : Format E

-- The index, `expiration_check` of its page and the context's `global_expire_at` are shared with the
-- other processes; `time_to_check_page_expire` is not.
pub record Table {ℓ} (E : Type ℓ) : Type ℓ where
  pub index : List Slot
  pub expiration_check : ℕ
  pub global_expire_at : ℕ
  pub time_to_check_page_expire : ℕ
  pub pages : Pages E

-- The constructor, where the index is made; what is mapped of it is cleared.
abbrev pub new_table {ℓ} : {E : Type ℓ} → Settings E → Table E
new_table st = record {
  index = replicate st.table_max_pages no_slot;
  expiration_check = 0;
  global_expire_at = 0;
  time_to_check_page_expire = 0;
  pages = record { objects = []; directory = []; opened_pages_list = [] };
}

-- What the clock and the system say: the time, whether memory is low, whether the table's section is
-- entered for its maintenance and for the operation itself, and the answers for a page.
pub record World : Type 0 where
  pub now : ℕ
  pub mem_low : Bool
  pub enters_maintenance : Bool
  pub enters : Bool
  pub answers : Text → Answers

module _ {ℓ} {E : Type ℓ} where
  abbrev pub capacity : Settings E → ℕ
  capacity st = st.format.elements

  unfoldable pub reserve : Settings E → World → ℕ → ℕ → List Slot → ℕ → Option Reserved
  reserve st w records_count lifetime_seconds index global_expire_at =
      let c = or_oldest w.mem_low (choose_page w.now records_count index 0 (u32 - 1) 0) in
      reserve_at (capacity st) st.table_name
        ((w.now + lifetime st.record_expire_seconds lifetime_seconds) % u32) records_count c index
        (global_after c.kind c.at index global_expire_at)

  abbrev pub get_page : Settings E → World → Text → Pages E → Outcome ℕ × Pages E
  get_page st w name p = get_page_by_name w.answers st.format name p

  -- Marks the page of a slot as deleted, unlinks it and clears the slot.
  abbrev pub removed : ℕ → ℕ → Table E → Outcome ℕ × Pages E → Outcome (Unit {0}) × Table E
  removed max_elements idx t (err e, p) = (err e, record t { pages = p })
  removed max_elements idx t (foreign, p) = (foreign, record t { pages = p })
  removed max_elements idx t (ok h, p) = (
    ok tt,
    record t {
      index = set t.index idx (clear_index_record_full max_elements (get_or t.index idx no_slot));
      pages =
          unlink (get_or t.index idx no_slot).page_name
            (record p { objects = mark_unlinked h p.objects });
    },
  )

  unfoldable pub remove_page : Settings E → World → ℕ → Table E → Outcome (Unit {0}) × Table E
  remove_page st w idx t =
      removed (capacity st) idx t (get_page st w (get_or t.index idx no_slot).page_name t.pages)

  -- lock.enter(), and what follows it up to lock.exit().
  abbrev pub locked {κ} :
      {A : Type κ} → Bool → (Table E → Outcome A × Table E) → Table E → Outcome A × Table E
  locked true run t = run t
  locked false run t = (err (internal (line "CANT_LOCK")), t)

  -- One after the other, as long as nothing is thrown.
  abbrev pub after :
      Outcome (Unit {0}) × Table E
      → (Table E → Outcome (Unit {0}) × Table E)
      → Outcome (Unit {0}) × Table E
  after (ok u, t) next = next t
  after (err e, t) next = (err e, t)
  after (foreign, t) next = (foreign, t)

  -- The second loop of release_expired_memory_pages, from `idx` down, with the pages that may still be
  -- removed at once.
  unfoldable pub remove_expired :
      Settings E → World → ℕ → ℕ → ℕ → Table E → Outcome (Unit {0}) × Table E
  remove_expired st w zero last_data_idx idx t = (ok tt, t)
  remove_expired st w (suc left) last_data_idx idx t =
      let rest = remove_expired st w left last_data_idx (idx - 1) in
      if ltb last_data_idx idx then after (remove_page st w idx t) rest else (ok tt, t)

  -- The part under the lock.
  unfoldable pub maintain : Settings E → World → Table E → Outcome (Unit {0}) × Table E
  maintain st w t =
      let (idx, last_data_idx) = find_last_data w.now t.global_expire_at t.index 0 0 in
      let checked = record t { expiration_check = t.time_to_check_page_expire } in
      if leb t.expiration_check w.now
      then (if ltb 0 idx
          then remove_expired st w remove_at_once last_data_idx (idx - 1) checked
          else (ok tt, checked))
      else (ok tt, t)

  abbrev pub release_local : Table E → Outcome (Unit {0}) × Table E
  release_local t = (
    ok tt,
    record t {
      pages = record t.pages {
        opened_pages_list = release_unlinked t.pages.objects t.pages.opened_pages_list;
      };
    },
  )

  unfoldable pub release_expired_memory_pages :
      Settings E → World → Table E → Outcome (Unit {0}) × Table E
  release_expired_memory_pages st w t =
      let started = record t { time_to_check_page_expire = (w.now + check_interval_sec) % u32 } in
      if ltb w.now t.time_to_check_page_expire
      then (ok tt, t)
      else after (locked w.enters_maintenance (maintain st w) started) release_local
