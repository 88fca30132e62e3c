-- ===== src/Memory/Operations.antt =====
-- addRecord, processRecords and cleanup of src/shared_memory.tpp.
pub mod Cleaning
pub mod Paging
pub mod Adding
pub mod Steps
use deals_server.Prelude.{
  ℕ, zero, suc, ◌+◌, ◌-◌, Bool, true, false, ◌&&◌, List, [], ◌∷◌, ◌++◌, Option, none, some, ltb,
  ◌==◌, if◌then◌else◌, Text, codes, line, Outcome, ok, err, foreign, internal, length, get_or, take,
  drop,
}
use deals_server.Prelude.Decimal.{to_string}
use deals_server.Utils.Calendar.{sub_u32}
use deals_server.Memory.Index.{records_to_scan, Slot, no_slot, Reserved}
use deals_server.Memory.Pages.{Pages, write_page, elements_of, release_open_pages}
use deals_server.Memory.Table.{
  Settings, Table, World, capacity, get_page, reserve, remove_page, locked, after,
  release_expired_memory_pages,
}

-- ElementExtractor: where the records of a call are.
pub record Extractor : Type 0 where
  pub page_name : Text
  pub index : ℕ
  pub size : ℕ

module _ {ℓ} {E : Type ℓ} where
  -- The records are copied once the lock is given back.
  abbrev pub store : List E → Reserved → Table E → Outcome ℕ × Pages E → Outcome Extractor × Table E
  store records r t (err e, p) = (err e, record t { pages = p })
  store records r t (foreign, p) = (foreign, record t { pages = p })
  store records r t (ok h, p) = (
    ok (record {
      page_name = r.insert_page_name;
      index = r.insert_element_idx;
      size = length records;
    }),
    record t { pages = record p { objects = write_page h r.insert_element_idx records p.objects } },
  )

  unfoldable pub insert_records :
      Settings E → World → List E → ℕ → Table E → Outcome Extractor × Table E
  insert_records st w records lifetime_seconds t =
      elim (reserve st w (length records) lifetime_seconds t.index t.global_expire_at) [
        | none ↦ (err (internal (line "addRecord::NO_SPACE_TO_INSERT")), t)
        | some r ↦
            store records r (record t { index = r.index; global_expire_at = r.global_expire_at })
              (get_page st w r.insert_page_name t.pages)
      ]

  unfoldable pub check_record : ℕ → Settings E → Outcome (Unit {0})
  check_record records_count st =
      if ltb (capacity st) records_count
      then err (
          internal
            (codes "checkRecord::RECORD_SIZE_TO_BIG size:" ++ (to_string records_count ++ 10 ∷ [])))
      else ok tt

  abbrev pub then_return {κ} :
      {A : Type κ}
      → Outcome (Unit {0}) × Table E
      → (Table E → Outcome A × Table E)
      → Outcome A × Table E
  then_return (ok u, t) next = next t
  then_return (err e, t) next = (err e, t)
  then_return (foreign, t) next = (foreign, t)

  -- addRecord; a lifetime of 0 stands for the table's own.
  unfoldable pub add_record :
      Settings E → World → List E → ℕ → Table E → Outcome Extractor × Table E
  add_record st w records lifetime_seconds t =
      then_return (release_expired_memory_pages st w t) λ t.
        then_return (check_record (length records) st, t)
          λ t. locked w.enters (insert_records st w records lifetime_seconds) t

  -- The elements that are passed to `process_element`, in order, page after page.
  abbrev pub and_then :
      {A : Type 0} {B : Type ℓ}
      → Outcome A × Pages E
      → (A → Pages E → Outcome B × Pages E)
      → Outcome B × Pages E
  and_then (ok a, p) next = next a p
  and_then (err e, p) next = (err e, p)
  and_then (foreign, p) next = (foreign, p)

  abbrev pub add_front :
      {A : Type ℓ} → List A → Outcome (List A) × Pages E → Outcome (List A) × Pages E
  add_front xs (ok ys, p) = (ok (xs ++ ys), p)
  add_front xs (err e, p) = (err e, p)
  add_front xs (foreign, p) = (foreign, p)

  -- The elements of a slot's page that are in use.
  abbrev pub used_elements : ℕ → Slot → ℕ → Pages E → List E
  used_elements max_elements s h p =
      take (sub_u32 max_elements s.page_elements_available) (elements_of h p.objects)

  unfoldable pub scan_pages : Settings E → World → List Slot → Pages E → Outcome (List E) × Pages E
  scan_pages st w [] p = (ok [], p)
  scan_pages st w (s ∷ slots) p =
      and_then (get_page st w s.page_name p)
        λ h p. add_front (used_elements (capacity st) s h p) (scan_pages st w slots p)

  abbrev pub scanned : Table E → Outcome (List E) × Pages E → Outcome (List E) × Table E
  scanned t (r, p) = (r, record t { pages = p })

  unfoldable pub process_records : Settings E → World → Table E → Outcome (List E) × Table E
  process_records st w t = then_return (release_expired_memory_pages st w t) λ t.
      locked w.enters
        (λ t.
          scanned t (scan_pages st w (records_to_scan w.now t.global_expire_at t.index) t.pages))
        t

  -- ElementExtractor.get_element_data: the elements from the first record of the call on.
  abbrev pub elements_at : Extractor → Table E → Outcome ℕ × Pages E → Outcome (List E) × Table E
  elements_at x t (err e, p) = (err e, record t { pages = p })
  elements_at x t (foreign, p) = (foreign, record t { pages = p })
  elements_at x t (ok h, p) = (ok (drop x.index (elements_of h p.objects)), record t { pages = p })

  unfoldable pub get_element_data :
      Settings E → World → Extractor → Table E → Outcome (List E) × Table E
  get_element_data st w x t = elements_at x t (get_page st w x.page_name t.pages)

  -- The loop of cleanup, from `idx` on, with the slots that are left.
  unfoldable pub clean_pages : Settings E → World → ℕ → ℕ → Table E → Outcome (Unit {0}) × Table E
  clean_pages st w zero idx t = (ok tt, t)
  clean_pages st w (suc left) idx t =
      let rest = clean_pages st w left (suc idx) in
      if ltb 0 (get_or t.index idx no_slot).expire_at
      then after (remove_page st w idx t) rest
      else (ok tt, t)

  unfoldable pub cleanup : Settings E → World → Table E → Outcome (Unit {0}) × Table E
  cleanup st w t =
      after (locked w.enters (clean_pages st w st.table_max_pages 0) t)
        λ t. (ok tt, record t { pages = release_open_pages t.pages })
