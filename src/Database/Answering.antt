-- ===== src/Database/Answering.antt =====
-- What is stored with a deal is what is answered for it.
use deals_server.Prelude.{
  ℕ, ◌<◌, ◌≡◌, refl, ap, ◌∙◌, [], ◌∷◌, ◌++◌, Text, Outcome, ok, err, foreign, take, length,
}
use deals_server.Deals.Info.{DealInfo}
use deals_server.Memory.Table.{Settings, Table, World}
use deals_server.Memory.Table.Reservations.{expire_of}
use deals_server.Memory.Operations.{Extractor, add_record, get_element_data}
use deals_server.Memory.Operations.Adding.{IsTable, IsSettings, Added, get_element_data-add_record}
use deals_server.Database.{first_bytes, deal_data}

take_front : (text rest : Text) → take (length text) (text ++ rest) ≡ text
take_front [] rest = refl
take_front (c ∷ text) rest = ap (λ t. c ∷ t) (take_front text rest)

first_bytes_lem :
    (text rest : Text) (o : Outcome Text × Table ℕ)
    → o.0 ≡ ok (text ++ rest)
    → (first_bytes (length text) o).0 ≡ ok text
first_bytes_lem text rest (ok bytes, t) e =
    ap (λ o. (first_bytes (length text) (o, t)).0) e ∙ ap ok (take_front text rest)
first_bytes_lem text rest (err x, t) e = absurd (cc e)
first_bytes_lem text rest (foreign, t) e = absurd (cc e)

-- A deal with the place and the size that addRecord returned, as addDeal makes it.
abbrev pub placed : Extractor → DealInfo → DealInfo
placed x deal = record deal { page_name = x.page_name; index = x.index; size = x.size }

module _ (st : Settings ℕ) (w : World) (text : Text) (deal : DealInfo) (is_settings : IsSettings st)
    (expires : 0 < expire_of st w 0) where
  -- Where addRecord returned, the deal's data is the text, whatever the clock and the system say.
  abbrev pub IsAnswered : Outcome Extractor × Table ℕ → Type 0
  IsAnswered (ok x, u) = (later : World) → (deal_data st later (placed x deal) u).0 ≡ ok text
  IsAnswered (err e, u) = IsTable st u
  IsAnswered (foreign, u) = IsTable st u

  answered : (o : Outcome Extractor × Table ℕ) → Added st text o → IsAnswered o
  unfolding deal_data
  answered (err e, u) is = is
  answered (foreign, u) is = is
  answered (ok x, u) (is, size, reads) = λ later.
      let (rest, there) = reads later in
      ap (λ n. (first_bytes n (get_element_data st later x u)).0) size
      ∙ first_bytes_lem text rest (get_element_data st later x u) there

  -- On a table of data with settings in range and an expiry that is not 0: where addRecord of a text
  -- returns, a deal with the place and the size that it returned is answered with that text, whatever
  -- the clock and the system then say; where it throws, the table keeps its invariant.
  pub deal_data-add_record : (t : Table ℕ) → IsTable st t → IsAnswered (add_record st w text 0 t)
  deal_data-add_record t is =
      answered (add_record st w text 0 t)
        (get_element_data-add_record st w text 0 is_settings expires t is)
