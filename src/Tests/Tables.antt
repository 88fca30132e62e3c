-- ===== src/Tests/Tables.antt =====
-- A table of numbers with two pages of three elements.
use deals_server.Prelude.{
  ℕ, zero, suc, ◌-◌, ◌≤◌, ◌<◌, ◌≡◌, refl, ◌⊎◌, true, false, some, List, [], ◌∷◌, Text, codes, ok,
  arith, get_or, text_eq,
}
use deals_server.Prelude.Decimal.{to_string}
use deals_server.Utils.Calendar.{u32}
use deals_server.Memory.Index.{
  Slot, no_slot, Reserved, choose_page, oldest, find_last_data, reserve_at, records_to_scan,
}
use deals_server.Memory.Index.Reserving.{IsReserved}
use deals_server.Memory.Index.Validity.{IsIndex}
use deals_server.Memory.Pages.{
  Answers, page_memory_size, find_name, create_page, open_existing, open_page, get_page_by_name,
  write_page, copy_records, elements_of, release_unlinked,
}
use deals_server.Memory.Table.{
  Settings, Table, World, new_table, reserve, release_expired_memory_pages, maintain,
  remove_expired,
}
use deals_server.Memory.Table.Reservations.{IsLater, reserve-oldest}
use deals_server.Memory.Table.Maintenance.{Ends}
use deals_server.Memory.Operations.{
  add_record, process_records, cleanup, check_record, insert_records, scan_pages,
}
use deals_server.Memory.Operations.Cleaning.{Cleaned, cleanup-IsEmpty}
use deals_server.Memory.Operations.Adding.{IsTable, IsSettings, Added, get_element_data-add_record}
use deals_server.Deals.Info.{no_deal}
use deals_server.Database.Answering.{IsAnswered, deal_data-add_record}
use deals_server.Memory.Operations.Steps.{adds, processes, Reach, here, next, Reach-IsTable}

abbrev settings : Settings ℕ
settings = record {
  table_name = codes "T";
  table_max_pages = 2;
  record_expire_seconds = 10;
  format = record { system_page = 4096; element_size = 4; elements = 3; cleared = 0 };
}

abbrev all_well : Text → Answers
all_well name = record {
  locks = true;
  enters = true;
  opens = true;
  truncates = true;
  maps = true;
  mem_available = true;
}

abbrev pub at_time : ℕ → World
at_time now = record {
  now = now;
  mem_low = false;
  enters_maintenance = true;
  enters = true;
  answers = all_well;
}

abbrev low_at_time : ℕ → World
low_at_time now = record (at_time now) { mem_low = true }

settings-IsSettings : IsSettings settings
unfolding page_memory_size
settings-IsSettings = record { small = omega arith; positive = omega arith }

-- One page with room for an element, and one that is not used.
abbrev two_slots : List Slot
two_slots =
    record { expire_at = 200; page_elements_available = 1; page_name = codes "T:0" } ∷ no_slot ∷ []

two_slots-IsIndex : IsIndex 3 two_slots
two_slots-IsIndex = (omega arith, (λ e. absurd (omega arith)), (omega arith, (λ e. tt), tt))

abbrev first_table : Table ℕ
first_table = new_table settings

abbrev filled_table : Table ℕ
filled_table = (add_record settings (at_time 100) (7 ∷ 8 ∷ []) 0 first_table).1

stored_where :
    (add_record settings (at_time 100) (7 ∷ 8 ∷ []) 0 first_table).0
    ≡ ok (record { page_name = codes "T:0"; index = 0; size = 2 })
unfolding add_record release_expired_memory_pages maintain remove_expired find_last_data
    check_record insert_records reserve choose_page reserve_at get_page_by_name find_name open_page
    create_page open_existing page_memory_size write_page copy_records elements_of release_unlinked
    text_eq to_string process_records records_to_scan scan_pages
stored_where = refl

seen_again : (process_records settings (at_time 105) filled_table).0 ≡ ok (7 ∷ 8 ∷ [])
unfolding add_record release_expired_memory_pages maintain remove_expired find_last_data
    check_record insert_records reserve choose_page reserve_at get_page_by_name find_name open_page
    create_page open_existing page_memory_size write_page copy_records elements_of release_unlinked
    text_eq to_string process_records records_to_scan scan_pages
seen_again = refl

seen_no_more : (process_records settings (at_time 110) filled_table).0 ≡ ok []
unfolding add_record release_expired_memory_pages maintain remove_expired find_last_data
    check_record insert_records reserve choose_page reserve_at get_page_by_name find_name open_page
    create_page open_existing page_memory_size write_page copy_records elements_of release_unlinked
    text_eq to_string process_records records_to_scan scan_pages
seen_no_more = refl

two_slots_bounded : (k : ℕ) → (get_or two_slots k no_slot).expire_at < u32
two_slots_bounded zero = omega arith
two_slots_bounded (suc zero) = omega arith
two_slots_bounded (suc (suc k)) = omega arith

-- The slot that is evicted.
abbrev evicted : ℕ
evicted = (choose_page 100 2 two_slots 0 (u32 - 1) 0).expire_min_idx

reserve-oldest_example :
    (r : Reserved) × (reserve settings (low_at_time 100) 2 0 two_slots 0 ≡ some r)
    × IsReserved 3 2 110 (codes "T") two_slots oldest evicted r
    × (r.insert_element_idx ≡ 0)
    × (((choose_page 100 2 two_slots 0 (u32 - 1) 0).at ≡ 0)
        ⊎ (0 < (get_or two_slots evicted no_slot).expire_at))
    × ((k : ℕ)
        → k < (choose_page 100 2 two_slots 0 (u32 - 1) 0).at
        → (get_or two_slots evicted no_slot).expire_at ≤ (get_or two_slots k no_slot).expire_at)
    × IsLater (get_or two_slots evicted no_slot).expire_at 0 r.global_expire_at
unfolding choose_page
reserve-oldest_example =
    reserve-oldest settings (low_at_time 100) 2 0 0 two_slots two_slots-IsIndex (omega arith)
      (omega arith) (omega arith) two_slots_bounded refl refl

first_table-IsTable : IsTable settings first_table
first_table-IsTable = Reach-IsTable settings settings-IsSettings first_table here

filled-Reach : Reach settings first_table filled_table
filled-Reach = next here (adds (at_time 100) (7 ∷ 8 ∷ []) 0 first_table (omega arith))

filled_table-IsTable : IsTable settings filled_table
filled_table-IsTable = Reach-IsTable settings settings-IsSettings filled_table filled-Reach

cleanup-IsEmpty_example :
    Ends
      (Cleaned settings (at_time 105))
      (λ u. Unit {0})
      (cleanup settings (at_time 105) filled_table)
cleanup-IsEmpty_example =
    cleanup-IsEmpty settings (at_time 105) filled_table filled_table-IsTable.index
      filled_table-IsTable.sized

get_element_data-add_record_example :
    Added settings (7 ∷ 8 ∷ []) (add_record settings (at_time 100) (7 ∷ 8 ∷ []) 0 first_table)
get_element_data-add_record_example =
    get_element_data-add_record settings (at_time 100) (7 ∷ 8 ∷ []) 0 settings-IsSettings
      (omega arith) first_table first_table-IsTable

Reach-IsTable_example : IsTable settings (process_records settings (at_time 300) filled_table).1
Reach-IsTable_example =
    Reach-IsTable settings settings-IsSettings
      (process_records settings (at_time 300) filled_table).1
      (next filled-Reach (processes (at_time 300) filled_table))

deal_data-add_record_example :
    IsAnswered settings
      (at_time 100)
      (codes "ab")
      no_deal
      settings-IsSettings
      (omega arith)
      (add_record settings (at_time 100) (codes "ab") 0 first_table)
deal_data-add_record_example =
    deal_data-add_record settings (at_time 100) (codes "ab") no_deal settings-IsSettings
      (omega arith) first_table first_table-IsTable
