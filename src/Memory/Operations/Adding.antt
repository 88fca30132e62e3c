-- ===== src/Memory/Operations/Adding.antt =====
-- addRecord and ElementExtractor.
use deals_server.Prelude.{
  Bool, true, false, ℕ, ◌+◌, ◌≤◌, ◌<◌, ◌≡◌, refl, sym, ap, ◌∙◌, inl, inr, List, [], ◌++◌, Option,
  none, some, Text, ltb, length, get_elem?, drop, get_elem?-set_here, All-get_elem?, set,
  length-set, arith, Bool-cases, Outcome, ok, err, foreign, internal, line,
}
use mathlib.Core.Path.{subst}
use deals_server.Utils.Calendar.{u32}
use deals_server.Memory.Index.{Reserved}
use deals_server.Memory.Index.Validity.{IsIndex}
use deals_server.Memory.Pages.{
  Pages, Page, size_of, write_page, copy_records, elements_of, find_name, get_page_by_name,
  remember, open_page,
}
use deals_server.Memory.Pages.Copies.{copied_back}
use deals_server.Memory.Pages.Mapped.{IsPages, Later-IsPages, Gets, get_page_by_name-Gets, IsWhole}
use deals_server.Memory.Pages.Writes.{write_page-Later}
use deals_server.Memory.Table.{
  locked, Settings, Table, World, capacity, get_page, release_expired_memory_pages,
}
use deals_server.Memory.Table.Maintenance.{Ends-weaken, release_expired_memory_pages-IsIndex}
use deals_server.Memory.Table.Reservations.{expire_of, reserve-IsReserved}
use deals_server.Memory.Operations.{
  Extractor, store, insert_records, check_record, then_return, add_record, elements_at,
  get_element_data,
}
use deals_server.Memory.Operations.Paging.{Ends-always, release-HasPages}

module _ {ℓ} {E : Type ℓ} where
  -- The invariant of a table: a valid index with a slot for each page, and pages that are mapped with a page's size.
  pub record IsTable (st : Settings E) (t : Table E) : Type ℓ where
    pub index : IsIndex (capacity st) t.index
    pub sized : length t.index ≡ st.table_max_pages
    pub pages : IsPages st.format t.pages

  -- What is required of a table's settings.
  pub record IsSettings (st : Settings E) : Type 0 where
    pub small : capacity st < u32
    pub positive : 0 < size_of st.format

  -- After addRecord: a table; and the records are read back where it says that they are, in front of
  -- other elements, whatever the system answers later.
  abbrev pub Added : Settings E → List E → Outcome Extractor × Table E → Type ℓ
  Added st records (ok x, u) =
      IsTable st u
      × (x.size ≡ length records)
      × ((later : World)
          → (rest : List E) × ((get_element_data st later x u).0 ≡ ok (records ++ rest)))
  Added st records (err e, u) = IsTable st u
  Added st records (foreign, u) = IsTable st u

  copied_page :
      (h at : ℕ) (records : List E) (objects : List (Page E)) (page : Page E)
      → get_elem? objects h ≡ some page
      → at + length records ≤ length page.shared_elements
      → drop at (elements_of h (write_page h at records objects))
        ≡ records ++ drop (at + length records) page.shared_elements
  unfolding elements_of write_page
  copied_page h at records objects page e le =
      let next : Page E = record page {
        shared_elements = copy_records at records page.shared_elements;
      } in
      ap
        (λ o. drop at (
          elements_of h (elim o [
            | none ↦ objects
            | some page ↦
                set objects h
                  (record page { shared_elements = copy_records at records page.shared_elements })
          ])))
        e
      ∙ (ap (λ o. drop at (elim o [ none ↦ [] | some page ↦ page.shared_elements ]))
            (get_elem?-set_here objects h page next e)
          ∙ copied_back at records page.shared_elements le)

  -- A page that is opened is given as it is.
  found_again :
      (st : Settings E) (w : World) (name : Text) (p : Pages E) (h : ℕ)
      → find_name name p.opened_pages_list ≡ some h
      → get_page st w name p ≡ (ok h, p)
  unfolding get_page_by_name
  found_again st w name p h e =
      ap
        (λ (o : Option ℕ). elim o as (λ o. Outcome ℕ × Pages E) [
          | some h ↦ (ok h, p)
          | none ↦ remember name (open_page (w.answers name) st.format name p)
        ])
        e

  store-Added :
      (st : Settings E) (records : List E) (r : Reserved) (t : Table E) (o : Outcome ℕ × Pages E)
      → IsIndex (capacity st) t.index
      → length t.index ≡ st.table_max_pages
      → r.insert_element_idx + length records ≤ capacity st
      → Gets st.format r.insert_page_name t.pages o
      → Added st records (store records r t o)
  unfolding get_element_data
  store-Added st records r t (err e, p) valid len within is = record {
    index = valid;
    sized = len;
    pages = is;
  }
  store-Added st records r t (foreign, p) valid len within is = record {
    index = valid;
    sized = len;
    pages = is;
  }
  store-Added st records r t (ok h, p) valid len within (is, (page, e, size), found) = (
    record {
      index = valid;
      sized = len;
      pages =
          Later-IsPages st.format p
            (record p { objects = write_page h r.insert_element_idx records p.objects }) is
            (write_page-Later st.format h r.insert_element_idx records p.objects is.whole) refl;
    },
    refl,
    λ later. (drop (r.insert_element_idx + length records) page.shared_elements, read_back later),
  )
    where
      u : Table E
      u = record t {
        pages = record p { objects = write_page h r.insert_element_idx records p.objects };
      }

      x : Extractor
      x = record {
        page_name = r.insert_page_name;
        index = r.insert_element_idx;
        size = length records;
      }

      read_back :
          (later : World)
          → (get_element_data st later x u).0
            ≡ ok (records ++ drop (r.insert_element_idx + length records) page.shared_elements)
      read_back later =
          ap (λ o. (elements_at x u o).0) (found_again st later r.insert_page_name u.pages h found)
          ∙ ap ok (
              copied_page h r.insert_element_idx records p.objects page e (
                let full = All-get_elem? (IsWhole st.format) p.objects h page is.whole e size in
                omega arith))

module _ {ℓ} {E : Type ℓ} (st : Settings E) (w : World) (is_settings : IsSettings st) where
  abbrev HasIndex : Table E → Type 0
  HasIndex u = IsIndex (capacity st) u.index × (length u.index ≡ st.table_max_pages)

  pub release-IsTable :
      (t : Table E) → IsTable st t → IsTable st (release_expired_memory_pages st w t).1
  release-IsTable t is =
      let maintained = release_expired_memory_pages-IsIndex st w t is.index in
      let (valid, len) = Ends-always HasIndex (release_expired_memory_pages st w t) (
        Ends-weaken HasIndex HasIndex (release_expired_memory_pages st w t) maintained
          (λ u h. (h.0, h.1.0 ∙ is.sized)) (λ u h. (h.0, h.1.0 ∙ is.sized))) in
      record {
        index = valid;
        sized = len;
        pages = release-HasPages st w is_settings.positive t is.pages;
      }

-- An addRecord at a time and with a lifetime whose sum is not 0.
module _ {ℓ} {E : Type ℓ} (st : Settings E) (w : World) (records : List E) (lifetime_seconds : ℕ)
    (is_settings : IsSettings st) (expires : 0 < expire_of st w lifetime_seconds) where
  insert_records-Added :
      (t : Table E)
      → IsTable st t
      → length records ≤ capacity st
      → Added st records (insert_records st w records lifetime_seconds t)
  unfolding insert_records
  insert_records-Added t is le =
      elim (reserve-IsReserved st w (length records) lifetime_seconds t.global_expire_at t.index
        is.index is_settings.small le expires) [
          | inl (full, kind, e) ↦ subst (λ o. Added st records (inserted o)) (sym e) is
          | inr (r, e, reserved, same) ↦
              subst (λ o. Added st records (inserted o)) (sym e)
                (store-Added st records r
                  (record t { index = r.index; global_expire_at = r.global_expire_at })
                  (get_page st w r.insert_page_name t.pages) reserved.valid
                  (ap length reserved.others ∙ (length-set t.index _ _ ∙ is.sized))
                  (let within = reserved.within in omega arith)
                  (get_page_by_name-Gets st.format w.answers r.insert_page_name t.pages
                    is_settings.positive is.pages))
        ]
    where
      inserted : Option Reserved → Outcome Extractor × Table E
      inserted o = elim o [
        | none ↦ (err (internal (line "addRecord::NO_SPACE_TO_INSERT")), t)
        | some r ↦
            store records r (record t { index = r.index; global_expire_at = r.global_expire_at })
              (get_page st w r.insert_page_name t.pages)
      ]

  then-Added :
      (o : Outcome (Unit {0}) × Table E) (next : Table E → Outcome Extractor × Table E)
      → IsTable st o.1
      → ((t : Table E) → IsTable st t → Added st records (next t))
      → Added st records (then_return o next)
  then-Added (ok u, t) next is f = f t is
  then-Added (err e, t) next is f = is
  then-Added (foreign, t) next is f = is

  entered-Added :
      (t : Table E) (b : Bool)
      → IsTable st t
      → Added st records (insert_records st w records lifetime_seconds t)
      → Added st records (locked b (insert_records st w records lifetime_seconds) t)
  entered-Added t true is added = added
  entered-Added t false is added = is

  -- addRecord on a table whose settings are in range, with an expiry that is not 0: whether it returns
  -- or throws, the invariant of the table holds after it; and where it returns, the extractor has the
  -- number of the records, and its get_element_data gives the records, in front of other elements,
  -- whatever the clock and the system then say.
  pub get_element_data-add_record :
      (t : Table E) → IsTable st t → Added st records (add_record st w records lifetime_seconds t)
  unfolding add_record check_record
  get_element_data-add_record t is =
      then-Added (release_expired_memory_pages st w t) _ (release-IsTable st w is_settings t is)
        λ u is. elim (Bool-cases (ltb (capacity st) (length records))) [
          | inl big ↦ rw big is
          | inr fits ↦
              rw fits (entered-Added u w.enters is (insert_records-Added u is (ground arith)))
        ]
