-- ===== src/Memory/Pages/Mapped.antt =====
-- The objects that a process has mapped have a page's size and its elements.
use mathlib.Core.Path.{subst}
use mathlib.Core.Option.{some-injective}
use deals_server.Prelude.{
  ℕ, ◌-◌, ◌<◌, ◌≡◌, refl, sym, ap, ◌∙◌, ◌⊎◌, inl, inr, Bool, true, false, List, [], ◌∷◌, ◌++◌,
  Option, none, some, ltb, ◌==◌, ==_iff, if◌then◌else◌, Text, text_eq, text_eq_iff, Outcome, ok,
  err, foreign, length, set, get_elem?, length-replicate, All, All-append, All-set, All-get_elem?,
  All-weaken, get_elem?-append, get_elem?-last, get_elem?-set, arith, Bool-cases,
}
use deals_server.Memory.Pages.{
  Answers, Format, Page, Pages, name_max_len, size_of, create, create_empty, has_size, find_name,
  create_page, open_existing, open_page, remember, get_page_by_name,
}

if_some :
    (b : Bool) (i h : ℕ) (rest : Option ℕ)
    → (if b then some i else rest) ≡ some h
    → (i ≡ h) ⊎ (rest ≡ some h)
if_some true i h rest e = inl (some-injective i h e)
if_some false i h rest e = inr e

if_none :
    (b : Bool) (i : ℕ) (rest : Option ℕ)
    → (if b then some i else rest) ≡ none
    → (b ≡ false) × (rest ≡ none)
if_none true i rest e = absurd (cc e)
if_none false i rest e = (refl, e)

-- A name that was not found is found once it is put at the end.
find_name-append :
    (name : Text) (entries : List (Text × ℕ)) (h : ℕ)
    → find_name name entries ≡ none
    → find_name name (entries ++ (name, h) ∷ []) ≡ some h
unfolding find_name
find_name-append name [] h e = rw ((text_eq_iff name name).1 refl) refl
find_name-append name ((n, i) ∷ entries) h e =
    let (other, rest) = if_none (text_eq n name) i (find_name name entries) e in
    rw other (find_name-append name entries h rest)

module _ {ℓ} {E : Type ℓ} (f : Format E) where
  -- An object of a page's size has a page's elements.
  abbrev pub IsWhole : Page E → Type 0
  IsWhole page = page.memory_size ≡ size_of f → length page.shared_elements ≡ f.elements

  abbrev pub IsMapped : List (Page E) → Text × ℕ → Type ℓ
  IsMapped objects (n, h) =
      (page : Page E) × (get_elem? objects h ≡ some page) × (page.memory_size ≡ size_of f)

  pub record IsPages (p : Pages E) : Type ℓ where
    pub whole : All IsWhole p.objects
    pub mapped : All (IsMapped p.objects) p.opened_pages_list

  -- What is mapped stays mapped.
  abbrev pub Later : List (Page E) → List (Page E) → Type ℓ
  Later objects later =
      All IsWhole later × ((entry : Text × ℕ) → IsMapped objects entry → IsMapped later entry)

  append-Later :
      (objects : List (Page E)) (page : Page E)
      → All IsWhole objects
      → IsWhole page
      → Later objects (objects ++ page ∷ [])
  append-Later objects page whole w = (
    All-append IsWhole objects (page ∷ []) whole (w, tt),
    λ entry m. (m.0, get_elem?-append objects (page ∷ []) entry.1 m.0 m.1, m.2),
  )

  -- A write that keeps an object's size and the number of its elements.
  pub set-Later :
      (objects : List (Page E)) (h : ℕ) (page next : Page E)
      → All IsWhole objects
      → get_elem? objects h ≡ some page
      → next.memory_size ≡ page.memory_size
      → length next.shared_elements ≡ length page.shared_elements
      → Later objects (set objects h next)
  set-Later objects h page next whole e size len = (
    All-set IsWhole objects h next whole
        (λ s. len ∙ All-get_elem? IsWhole objects h page whole e (sym size ∙ s)),
    λ entry m. elim (get_elem?-set objects h entry.1 page next e) [
      | inl (here, now) ↦ (
        next,
        now,
        size
            ∙ (ap (λ q. q.memory_size)
                  (some-injective page m.0 (sym e ∙ (ap (get_elem? objects) here ∙ m.1)))
                ∙ m.2),
      )
      | inr there ↦ (m.0, there ∙ m.1, m.2)
    ],
  )

  create-Later :
      (name : Text) (p : Pages E)
      → All IsWhole p.objects
      → Later p.objects (create f name p).objects
  create-Later name p whole =
      append-Later p.objects _ whole (λ e. length-replicate f.elements f.cleared)

  create_empty-Later :
      (name : Text) (p : Pages E)
      → 0 < size_of f
      → All IsWhole p.objects
      → Later p.objects (create_empty name p).objects
  create_empty-Later name p positive whole =
      append-Later p.objects _ whole (λ e. absurd (omega (arith, e, positive)))

  -- Opening: what it gives is mapped, and everything else stays so, also where it throws.
  abbrev pub Opens : Text → Pages E → Outcome ℕ × Pages E → Type ℓ
  Opens name p (ok h, q) =
      IsMapped q.objects (name, h)
      × Later p.objects q.objects
      × (q.opened_pages_list ≡ p.opened_pages_list)
  Opens name p (err e, q) = Later p.objects q.objects × (q.opened_pages_list ≡ p.opened_pages_list)
  Opens name p (foreign, q) =
      Later p.objects q.objects × (q.opened_pages_list ≡ p.opened_pages_list)

  pub same-Later : (objects : List (Page E)) → All IsWhole objects → Later objects objects
  same-Later objects whole = (whole, λ entry m. m)

  create_page-Opens :
      (a : Answers) (name : Text) (p : Pages E)
      → 0 < size_of f
      → All IsWhole p.objects
      → Opens name p (create_page a f name p)
  unfolding create_page
  create_page-Opens a name p positive whole = elim (Bool-cases a.mem_available) [
    | inr low ↦ rw low (create_empty-Later name p positive whole, refl)
    | inl available ↦ elim (Bool-cases a.truncates) [
      | inr fails ↦ rw (available, fails) (same-Later p.objects whole, refl)
      | inl truncates ↦ elim (Bool-cases a.maps) [
        | inr fails ↦ rw (available, truncates, fails) (create-Later name p whole, refl)
        | inl maps ↦
            rw (available, truncates, maps)
              ((_, get_elem?-last p.objects _, refl), create-Later name p whole, refl)
      ]
    ]
  ]

  has_size_lem :
      (n : ℕ) (o : Option (Page E))
      → has_size n o ≡ true
      → (page : Page E) × (o ≡ some page) × (page.memory_size ≡ n)
  has_size_lem n none e = absurd (cc e)
  has_size_lem n (some page) e = (page, refl, (==_iff page.memory_size n).0 e)

  open_existing-Opens :
      (a : Answers) (name : Text) (h : ℕ) (p : Pages E)
      → All IsWhole p.objects
      → Opens name p (open_existing a f name h p)
  unfolding open_existing
  open_existing-Opens a name h p whole =
      elim (Bool-cases (has_size (size_of f) (get_elem? p.objects h))) [
        | inr wrong ↦ rw wrong (same-Later p.objects whole, refl)
        | inl right ↦ elim (Bool-cases a.maps) [
          | inr fails ↦ rw (right, fails) (same-Later p.objects whole, refl)
          | inl maps ↦
              rw (right, maps)
                (
                  has_size_lem (size_of f) (get_elem? p.objects h) right,
                  same-Later p.objects whole,
                  refl,
                )
        ]
      ]

  open_page-Opens :
      (a : Answers) (name : Text) (p : Pages E)
      → 0 < size_of f
      → All IsWhole p.objects
      → Opens name p (open_page a f name p)
  unfolding open_page
  open_page-Opens a name p positive whole = elim (Bool-cases (length name == 0)) [
    | inl empty ↦ rw empty (same-Later p.objects whole, refl)
    | inr named ↦ elim (Bool-cases (ltb (name_max_len - 6) (length name))) [
      | inl long ↦ rw (named, long) (same-Later p.objects whole, refl)
      | inr short ↦ elim (Bool-cases a.locks) [
        | inr unlocked ↦ rw (named, short, unlocked) (same-Later p.objects whole, refl)
        | inl locks ↦ elim (Bool-cases a.enters) [
          | inr waits ↦ rw (named, short, locks, waits) (same-Later p.objects whole, refl)
          | inl enters ↦ elim (Bool-cases a.opens) [
            | inr fails ↦ rw (named, short, locks, enters, fails) (same-Later p.objects whole, refl)
            | inl opens ↦
                rw (named, short, locks, enters, opens) (by_name (find_name name p.directory))
          ]
        ]
      ]
    ]
  ]
    where
      by_name :
          (o : Option ℕ)
          → Opens name p
              (elim o [ none ↦ create_page a f name p | some h ↦ open_existing a f name h p ])
      by_name none = create_page-Opens a name p positive whole
      by_name (some h) = open_existing-Opens a name h p whole

  found-IsMapped :
      (objects : List (Page E)) (name : Text) (entries : List (Text × ℕ)) (h : ℕ)
      → All (IsMapped objects) entries
      → find_name name entries ≡ some h
      → IsMapped objects (name, h)
  unfolding find_name
  found-IsMapped objects name [] h all e = absurd (cc e)
  found-IsMapped objects name ((n, i) ∷ entries) h (m, all) e =
      elim (if_some (text_eq n name) i h (find_name name entries) e) [
        | inl here ↦ subst (λ k. IsMapped objects (name, k)) here m
        | inr there ↦ found-IsMapped objects name entries h all there
      ]

  -- getPageByName: what it gives is mapped and remembered, and the pages stay as they should be.
  abbrev pub Gets : Text → Pages E → Outcome ℕ × Pages E → Type ℓ
  Gets name p (ok h, q) =
      IsPages q × IsMapped q.objects (name, h) × (find_name name q.opened_pages_list ≡ some h)
  Gets name p (err e, q) = IsPages q
  Gets name p (foreign, q) = IsPages q

  pub Later-IsPages :
      (p q : Pages E)
      → IsPages p
      → Later p.objects q.objects
      → q.opened_pages_list ≡ p.opened_pages_list
      → IsPages q
  Later-IsPages p q is later e = record {
    whole = later.0;
    mapped = subst (All (IsMapped q.objects)) (sym e) (
        All-weaken (IsMapped p.objects) (IsMapped q.objects) p.opened_pages_list later.1 is.mapped);
  }

  remember-Gets :
      (name : Text) (p : Pages E) (o : Outcome ℕ × Pages E)
      → IsPages p
      → find_name name p.opened_pages_list ≡ none
      → Opens name p o
      → Gets name p (remember name o)
  remember-Gets name p (err e, q) is unknown_name (later, same) = Later-IsPages p q is later same
  remember-Gets name p (foreign, q) is unknown_name (later, same) = Later-IsPages p q is later same
  remember-Gets name p (ok h, q) is unknown_name (m, later, same) =
      let kept = Later-IsPages p q is later same in
      (
        record {
          whole = kept.whole;
          mapped =
              All-append (IsMapped q.objects) q.opened_pages_list ((name, h) ∷ []) kept.mapped
                (m, tt);
        },
        m,
        find_name-append name q.opened_pages_list h (ap (find_name name) same ∙ unknown_name),
      )

  pub get_page_by_name-Gets :
      (os : Text → Answers) (name : Text) (p : Pages E)
      → 0 < size_of f
      → IsPages p
      → Gets name p (get_page_by_name os f name p)
  unfolding get_page_by_name
  get_page_by_name-Gets os name p positive is = by_opened (find_name name p.opened_pages_list) refl
    where
      by_opened :
          (o : Option ℕ)
          → find_name name p.opened_pages_list ≡ o
          → Gets name p
              (elim o [ some h ↦ (ok h, p) | none ↦ remember name (open_page (os name) f name p) ])
      by_opened none e =
          remember-Gets name p (open_page (os name) f name p) is e
            (open_page-Opens (os name) name p positive is.whole)
      by_opened (some h) e =
          (is, found-IsMapped p.objects name p.opened_pages_list h is.mapped e, e)
