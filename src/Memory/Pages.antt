-- ===== src/Memory/Pages.antt =====
-- SharedMemoryPage of src/shared_memory.tpp, and the pages that a table has opened.
pub mod Copies
pub mod Mapped
pub mod Writes
use deals_server.Prelude.{
  ℕ, zero, suc, ◌+◌, ◌-◌, ◌*◌, ◌/◌, ◌%◌, ◌^◌, Bool, true, false, not, List, [], ◌∷◌, ◌++◌, Option,
  none, some, map, ltb, ◌==◌, if◌then◌else◌, Text, codes, line, text_eq, Outcome, ok, err, foreign,
  Error, bad, internal, length, set, get_elem?, replicate, take, drop,
}

-- MEMPAGE_NAME_MAX_LEN.
abbrev pub name_max_len : ℕ
name_max_len = 20

-- What the system answers when a page is opened: whether shm_open, ftruncate and mmap succeed, and
-- `isMemAvailable()`.
pub record Answers : Type 0 where
  pub locks : Bool
  pub enters : Bool
  pub opens : Bool
  pub truncates : Bool
  pub maps : Bool
  pub mem_available : Bool

-- sizeof(Page_information), and what a page of `elements` elements takes, in uint32_t: the bytes
-- rounded up to pages of the system.
abbrev pub info_size : ℕ
info_size = 8

unfoldable pub page_memory_size : ℕ → ℕ → ℕ → ℕ
page_memory_size system_page element_size elements =
    (((info_size + element_size * elements) % 2 ^ 32 / system_page + 1) * system_page) % 2 ^ 32

-- The constructor's arguments beside the name, and the bytes of memset as an element.
pub record Format {ℓ} (E : Type ℓ) : Type ℓ where
  pub system_page : ℕ
  pub element_size : ℕ
  pub elements : ℕ
  pub cleared : E

-- An object of the system's shared memory: its size, and what is mapped from it.
pub record Page {ℓ} (E : Type ℓ) : Type ℓ where
  pub memory_size : ℕ
  pub unlinked : Bool
  pub shared_elements : List E

-- All objects, where an object is named by its place; the names that shm_open finds; and the names
-- that this process has mapped, in `opened_pages_list`. An object that is unlinked stays mapped.
pub record Pages {ℓ} (E : Type ℓ) : Type ℓ where
  pub objects : List (Page E)
  pub directory : List (Text × ℕ)
  pub opened_pages_list : List (Text × ℕ)

unfoldable pub find_name : Text → List (Text × ℕ) → Option ℕ
find_name name [] = none
find_name name ((n, h) ∷ entries) = if text_eq n name then some h else find_name name entries

-- shm_unlink: the name is removed, the object is kept for those that have it mapped.
unfoldable pub unlink_name : Text → List (Text × ℕ) → List (Text × ℕ)
unlink_name name [] = []
unlink_name name ((n, h) ∷ entries) =
    let rest = unlink_name name entries in if text_eq n name then rest else (n, h) ∷ rest

module _ {ℓ} {E : Type ℓ} where
  abbrev pub unlink : Text → Pages E → Pages E
  unlink name p = record p { directory = unlink_name name p.directory }

  abbrev pub size_of : Format E → ℕ
  size_of f = page_memory_size f.system_page f.element_size f.elements

  -- A new object, with ftruncate and memset.
  abbrev pub create : Format E → Text → Pages E → Pages E
  create f name p = record p {
    objects =
        p.objects
        ++ record {
          memory_size = size_of f;
          unlinked = false;
          shared_elements = replicate f.elements f.cleared;
        }
          ∷ [];
    directory = (name, length p.objects) ∷ p.directory;
  }

  -- A new object without a size, which is left behind where memory is low.
  abbrev pub create_empty : Text → Pages E → Pages E
  create_empty name p = record p {
    objects = p.objects ++ record { memory_size = 0; unlinked = false; shared_elements = [] } ∷ [];
    directory = (name, length p.objects) ∷ p.directory;
  }

  abbrev pub has_size : ℕ → Option (Page E) → Bool
  has_size n none = false
  has_size n (some page) = page.memory_size == n

  -- The constructor of a page whose name shm_open does not find, and of one that it finds.
  unfoldable pub create_page : Answers → Format E → Text → Pages E → Outcome ℕ × Pages E
  create_page a f name p =
      if not a.mem_available
      then (err (internal (line "ERR_LOW_SHMEM")), create_empty name p)
      else if not a.truncates
      then (err (internal (line "ERR_CREATE_SHMEM_PAGE")), p)
      else if not a.maps
      then (err (internal (line "ERR_SHMEM_MAP_FAILED")), create f name p)
      else (ok (length p.objects), create f name p)

  unfoldable pub open_existing : Answers → Format E → Text → ℕ → Pages E → Outcome ℕ × Pages E
  open_existing a f name h p =
      if not (has_size (size_of f) (get_elem? p.objects h))
      then (err (internal (line "ERR_WRONG_SHMEM_PAGE_SIZE")), unlink name p)
      else if not a.maps
      then (err (internal (line "ERR_SHMEM_MAP_FAILED")), p)
      else (ok h, p)

  -- SharedMemoryPage(page_name, elements): the object, or what is thrown, and the system after it.
  unfoldable pub open_page : Answers → Format E → Text → Pages E → Outcome ℕ × Pages E
  open_page a f name p =
      if length name == 0
      then (err (internal (line "EMPTY_PAGE_NAME")), p)
      else if ltb (name_max_len - 6) (length name)
      then (err (internal (line "LONG_PAGE_NAME")), p)
      else if not a.locks
      then (err (internal (line "LOCK_SEM_FAILED")), p)
      else if not a.enters
      then (err (internal (line "CANT_LOCK")), p)
      else if not a.opens
      then (err (internal (line "CANNOT_OPEN_SHMEM_PAGE")), p)
      else elim (find_name name p.directory) [
        | none ↦ create_page a f name p
        | some h ↦ open_existing a f name h p
      ]

  abbrev pub remember : Text → Outcome ℕ × Pages E → Outcome ℕ × Pages E
  remember name (ok h, p) =
      (ok h, record p { opened_pages_list = p.opened_pages_list ++ (name, h) ∷ [] })
  remember name (err e, p) = (err e, p)
  remember name (foreign, p) = (foreign, p)

  -- getPageByName, with localGetPageByName.
  unfoldable pub get_page_by_name :
      (Text → Answers) → Format E → Text → Pages E → Outcome ℕ × Pages E
  get_page_by_name os f name p = elim (find_name name p.opened_pages_list) [
    | some h ↦ (ok h, p)
    | none ↦ remember name (open_page (os name) f name p)
  ]

  -- page->shared_pageinfo->unlinked = true.
  unfoldable pub mark_unlinked : ℕ → List (Page E) → List (Page E)
  mark_unlinked h objects = elim (get_elem? objects h) [
    | none ↦ objects
    | some page ↦ set objects h (record page { unlinked = true })
  ]

  -- memcpy of the records to `&elements[at]`; what would be written behind the elements is lost.
  unfoldable pub copy_records : ℕ → List E → List E → List E
  copy_records at records elements =
      take at elements
      ++ (take (length elements - at) records ++ drop (at + length records) elements)

  unfoldable pub write_page : ℕ → ℕ → List E → List (Page E) → List (Page E)
  write_page h at records objects = elim (get_elem? objects h) [
    | none ↦ objects
    | some page ↦
        set objects h
          (record page { shared_elements = copy_records at records page.shared_elements })
  ]

  unfoldable pub elements_of : ℕ → List (Page E) → List E
  elements_of h objects = elim (get_elem? objects h) [
    | none ↦ []
    | some page ↦ page.shared_elements
  ]

  abbrev pub is_unlinked : ℕ → List (Page E) → Bool
  is_unlinked h objects = elim (get_elem? objects h) [ none ↦ false | some page ↦ page.unlinked ]

  -- The loop at the end of release_expired_memory_pages: what is unlinked is unmapped.
  unfoldable pub release_unlinked : List (Page E) → List (Text × ℕ) → List (Text × ℕ)
  release_unlinked objects [] = []
  release_unlinked objects ((n, h) ∷ opened) =
      let rest = release_unlinked objects opened in
      if is_unlinked h objects then rest else (n, h) ∷ rest

  -- release_open_pages.
  abbrev pub release_open_pages : Pages E → Pages E
  release_open_pages p = record p { opened_pages_list = [] }
