-- ===== src/Memory/Index.antt =====
-- The index of a table: which page addRecord inserts at, and which pages are kept, over the list of
-- TablePageIndexElement. src/shared_memory.hpp, src/shared_memory.tpp.
pub mod Choices
pub mod Oldest
pub mod Validity
pub mod Reserving
pub mod Scanning
use deals_server.Prelude.{
  ℕ, zero, suc, ◌+◌, ◌-◌, ◌%◌, ◌^◌, Bool, true, false, ◌&&◌, List, [], ◌∷◌, ◌++◌, Option, none,
  some, ltb, leb, ◌==◌, if◌then◌else◌, Text, codes, length, set, get_or, drop, take,
}
use deals_server.Prelude.Decimal.{to_string}
use deals_server.Utils.Calendar.{u32, sub_u32}

-- MEMPAGE_REMOVE_EXPIRED_PAGES_AT_ONCE, _DELAY_SEC, and MEMPAGE_CHECK_EXPIRED_PAGES_INTERVAL_SEC.
abbrev pub remove_at_once : ℕ
remove_at_once = 5

abbrev pub remove_delay_sec : ℕ
remove_delay_sec = 60

abbrev pub check_interval_sec : ℕ
check_interval_sec = 5

pub data PageType : Type 0 where
  expired oldest new_page current unknown : PageType

-- TablePageIndexElement; the name's bytes in front of the first zero.
pub record Slot : Type 0 where
  pub expire_at : ℕ
  pub page_elements_available : ℕ
  pub page_name : Text

abbrev pub no_slot : Slot
no_slot = record { expire_at = 0; page_elements_available = 0; page_name = [] }

module _ (max_elements_in_page : ℕ) where
  abbrev pub clear_index_record : Slot → Slot
  clear_index_record s = record s { expire_at = 0; page_elements_available = max_elements_in_page }

  abbrev pub clear_index_record_full : Slot → Slot
  clear_index_record_full s = record {
    expire_at = 0;
    page_elements_available = max_elements_in_page;
    page_name = [];
  }

-- The first loop of release_expired_memory_pages, at `idx`: the page that it holds to be in use.
abbrev pub is_kept : ℕ → ℕ → Slot → Bool
is_kept current_time global_expire_at s =
    ltb 0 s.expire_at
    && (ltb current_time ((s.expire_at + remove_delay_sec) % u32)
        && ltb global_expire_at ((s.expire_at + remove_delay_sec) % u32))

unfoldable pub find_last_data : ℕ → ℕ → List Slot → ℕ → ℕ → ℕ × ℕ
find_last_data current_time global_expire_at [] idx last_data_idx = (idx, last_data_idx)
find_last_data current_time global_expire_at (s ∷ slots) idx last_data_idx =
    let last = if is_kept current_time global_expire_at s then idx else last_data_idx in
    let rest = find_last_data current_time global_expire_at slots (suc idx) last in
    if s.expire_at == 0 then (idx, last) else rest

-- The loop of addRecord, at `idx`: the page to insert at, and the one that expires first.
pub record Choice : Type 0 where
  pub kind : PageType
  pub at : ℕ
  pub expire_min_idx : ℕ

abbrev pub is_earlier : Slot → ℕ → Bool
is_earlier s expire_min = ltb 0 s.expire_at && ltb s.expire_at expire_min

unfoldable pub choose_page : ℕ → ℕ → List Slot → ℕ → ℕ → ℕ → Choice
choose_page current_time records_count [] idx expire_min expire_min_idx = record {
  kind = unknown;
  at = idx;
  expire_min_idx = expire_min_idx;
}
choose_page current_time records_count (s ∷ slots) idx expire_min expire_min_idx =
    let minimum = if is_earlier s expire_min then s.expire_at else expire_min in
    let minimum_idx = if is_earlier s expire_min then idx else expire_min_idx in
    let rest = choose_page current_time records_count slots (suc idx) minimum minimum_idx in
    if ltb 0 s.expire_at && ltb s.expire_at current_time
    then record { kind = expired; at = idx; expire_min_idx = minimum_idx }
    else if ltb 0 s.expire_at && leb records_count s.page_elements_available
    then record { kind = current; at = idx; expire_min_idx = minimum_idx }
    else if s.expire_at == 0
    then record { kind = new_page; at = idx; expire_min_idx = minimum_idx }
    else rest

abbrev pub or_oldest : Bool → Choice → Choice
or_oldest low c = elim c.kind [
  | new_page ↦
      if low
      then record { kind = oldest; at = c.expire_min_idx; expire_min_idx = c.expire_min_idx }
      else c
  | expired ↦ c
  | oldest ↦ c
  | current ↦ c
  | unknown ↦ c
]

-- update_global_expire.
abbrev pub raise_to : ℕ → ℕ → ℕ
raise_to value global_expire_at = if ltb global_expire_at value then value else global_expire_at

abbrev pub page_name_of : Text → ℕ → Text
page_name_of table_name idx = table_name ++ (codes ":" ++ to_string idx)

-- memcpy of a name over the bytes of an old one, without its end.
abbrev pub copy_name : Text → Text → Text
copy_name name old = name ++ drop (length name) old

-- The switch of addRecord; `none` is the throw.
abbrev pub prepare : ℕ → Text → PageType → Slot → Option Slot
prepare max_elements name new_page s =
    some (clear_index_record max_elements (record s { page_name = copy_name name s.page_name }))
prepare max_elements name oldest s = some (clear_index_record max_elements s)
prepare max_elements name expired s = some (clear_index_record max_elements s)
prepare max_elements name current s = some s
prepare max_elements name unknown s = none

-- update_record_expire, with the two times added.
abbrev pub lifetime : ℕ → ℕ → ℕ
lifetime record_expire_seconds lifetime_seconds =
    if lifetime_seconds == 0 then record_expire_seconds else lifetime_seconds

abbrev pub update_record_expire : ℕ → Slot → Slot
update_record_expire expire_time s =
    if ltb s.expire_at expire_time then record s { expire_at = expire_time } else s

abbrev pub take_elements : ℕ → Slot → Slot
take_elements records_count s = record s {
  page_elements_available = sub_u32 s.page_elements_available records_count;
}

-- What addRecord does to the index under its lock: the page's name, the first element's place, and
-- the index and the global expiry after it.
pub record Reserved : Type 0 where
  pub insert_page_name : Text
  pub insert_element_idx : ℕ
  pub index : List Slot
  pub global_expire_at : ℕ

abbrev pub reserved_with : ℕ → Text → ℕ → ℕ → ℕ → List Slot → ℕ → Option Slot → Option Reserved
reserved_with max_elements table_name expire_time records_count at index global_expire_at none =
    none
reserved_with max_elements table_name expire_time records_count at index global_expire_at (some s) =
    some (record {
      insert_page_name = page_name_of table_name at;
      insert_element_idx = sub_u32 max_elements s.page_elements_available;
      index = set index at (update_record_expire expire_time (take_elements records_count s));
      global_expire_at = global_expire_at;
    })

unfoldable pub reserve_at : ℕ → Text → ℕ → ℕ → Choice → List Slot → ℕ → Option Reserved
reserve_at max_elements table_name expire_time records_count c index global_expire_at =
    reserved_with max_elements table_name expire_time records_count c.at index global_expire_at
      (prepare max_elements (page_name_of table_name c.at) c.kind (get_or index c.at no_slot))

abbrev pub global_after : PageType → ℕ → List Slot → ℕ → ℕ
global_after oldest at index global_expire_at =
    raise_to ((get_or index at no_slot).expire_at) global_expire_at
global_after new_page at index global_expire_at = global_expire_at
global_after expired at index global_expire_at = global_expire_at
global_after current at index global_expire_at = global_expire_at
global_after unknown at index global_expire_at = global_expire_at

-- The pages that processRecords scans: those of the used slots that are neither expired nor older
-- than the global expiry.
abbrev pub is_live : ℕ → ℕ → Slot → Bool
is_live timestamp_now global_expire_at s =
    ltb timestamp_now s.expire_at && ltb global_expire_at s.expire_at

unfoldable pub records_to_scan : ℕ → ℕ → List Slot → List Slot
records_to_scan timestamp_now global_expire_at [] = []
records_to_scan timestamp_now global_expire_at (s ∷ slots) =
    let rest = records_to_scan timestamp_now global_expire_at slots in
    if s.expire_at == 0
    then []
    else if is_live timestamp_now global_expire_at s
    then s ∷ rest
    else rest
