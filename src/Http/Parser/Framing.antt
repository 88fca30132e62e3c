-- ===== src/Http/Parser/Framing.antt =====
-- Where a request's head ends, and when it is complete, whatever pieces it comes in.
use deals_server.Prelude.{
  ℕ, ◌+◌, ◌-◌, ◌%◌, ◌^◌, ◌≤◌, ◌<◌, ◌≡◌, refl, sym, ap, ◌∙◌, ◌⊎◌, inl, inr, Bool, true, false, List,
  [], ◌∷◌, ◌++◌, Option, none, some, ltb, if◌then◌else◌, length, length-append, append_assoc, Text,
  codes, text_eq, text_eq_iff, arith, Bool-cases,
}
use mathlib.Core.Path.{subst}
use deals_server.Utils.Strings.{find, concat_string}
use deals_server.Utils.Strings.Find.{find-append, find-within}
use deals_server.Types.Params.{ObjectMap}
use deals_server.Http.Messages.{
  ParserResult, parse_ok, parse_await, parse_err, double_crlf, parse_headers, HttpRequest,
  parse_request,
}
use deals_server.Http.Parser.{
  HttpParser, content_length_of, body_bytes, check_body, requested, headed, read_head, received,
  write,
}

pub concat_string-append :
    (msgs : List Text) (msg : Text) → concat_string (msgs ++ msg ∷ []) ≡ concat_string msgs ++ msg
unfolding concat_string
concat_string-append [] [] = refl
concat_string-append [] (c ∷ msg) = ap (λ rest. c ∷ rest) (concat_string-append [] msg)
concat_string-append (m ∷ msgs) msg =
    ap (λ rest. m ++ rest) (concat_string-append msgs msg)
    ∙ sym (append_assoc m (concat_string msgs) msg)

-- A request that is complete: a GET, or a POST with as many bytes behind its head as it names.
abbrev pub IsComplete : HttpParser → Type 0
IsComplete p =
    (p.headers_written ≡ true)
    × ((p.request.method ≡ codes "GET")
        ⊎ ((p.request.method ≡ codes "POST")
            × (p.content_length + p.headers_end ≤ length (concat_string p.msgs))))

abbrev pub IsFramed : HttpParser → Type 0
IsFramed p =
    (pos : ℕ) × (find double_crlf (concat_string p.msgs) ≡ some pos) × (p.headers_end ≡ pos + 4)

pub record IsParser (p : HttpParser) : Type 0 where
  pub counted : p.bytes_written ≡ length (concat_string p.msgs) % 2 ^ 64
  pub framed : p.headers_written ≡ true → IsFramed p
  pub complete : p.parsing_complete ≡ true → IsComplete p

enough :
    (bytes total end content : ℕ)
    → bytes ≡ total % 2 ^ 64
    → total < 2 ^ 64
    → end ≤ total
    → ltb ((bytes + 2 ^ 64 - end) % 2 ^ 64) content ≡ false
    → content + end ≤ total
enough bytes total end content e small le h = ground arith

pub end-le : (p : HttpParser) → IsFramed p → p.headers_end ≤ length (concat_string p.msgs)
end-le p (pos, found, e) =
    let within = find-within double_crlf (concat_string p.msgs) pos found in omega arith

check_body-IsParser :
    (p : HttpParser)
    → IsParser p
    → p.headers_written ≡ true
    → length (concat_string p.msgs) < 2 ^ 64
    → IsParser (check_body p)
unfolding check_body
check_body-IsParser p is written small =
    elim (Bool-cases (text_eq p.request.method (codes "POST"))) [
      | inr other ↦ rw other is
      | inl post ↦ elim (Bool-cases (ltb (body_bytes p) p.content_length)) [
        | inl short ↦ rw (post, short) is
        | inr long ↦
            rw (post, long)
              (record {
                counted = is.counted;
                framed = is.framed;
                complete = λ e. (
                  written,
                  inr (
                    (text_eq_iff p.request.method (codes "POST")).0 post,
                    enough p.bytes_written (length (concat_string p.msgs)) p.headers_end
                        p.content_length is.counted small (end-le p (is.framed written)) long,
                  ),
                );
              })
      ]
    ]

requested-IsParser :
    (p : HttpParser) (o : ParserResult × HttpRequest)
    → IsParser p
    → p.headers_written ≡ true
    → p.parsing_complete ≡ false
    → length (concat_string p.msgs) < 2 ^ 64
    → IsParser (requested p o)
requested-IsParser p (parse_await, request) is written running small = record {
  counted = is.counted;
  framed = is.framed;
  complete = λ e. absurd (cc (e, running));
}
requested-IsParser p (parse_err, request) is written running small = record {
  counted = is.counted;
  framed = is.framed;
  complete = λ e. absurd (cc (e, running));
}
requested-IsParser p (parse_ok, request) is written running small =
    check_body-IsParser _
      (record { counted = is.counted; framed = is.framed; complete = completed }) written small
  where
    completed :
        (if text_eq request.method (codes "GET") then true else p.parsing_complete) ≡ true
        → (p.headers_written ≡ true)
          × ((request.method ≡ codes "GET")
              ⊎ ((request.method ≡ codes "POST")
                  × (p.content_length + p.headers_end ≤ length (concat_string p.msgs))))
    completed e = elim (Bool-cases (text_eq request.method (codes "GET"))) [
      | inl get ↦ (written, inl ((text_eq_iff request.method (codes "GET")).0 get))
      | inr other ↦
          absurd
            (cc (subst (λ b. (if b then true else p.parsing_complete) ≡ true) other e, running))
    ]

headed-IsParser :
    (p : HttpParser) (pos : ℕ) (o : ParserResult × ObjectMap)
    → IsParser p
    → find double_crlf (concat_string p.msgs) ≡ some pos
    → p.parsing_complete ≡ false
    → length (concat_string p.msgs) < 2 ^ 64
    → IsParser (headed p (concat_string p.msgs) pos o)
headed-IsParser p pos (parse_await, headers) is found running small = record {
  counted = is.counted;
  framed = is.framed;
  complete = is.complete;
}
headed-IsParser p pos (parse_err, headers) is found running small = record {
  counted = is.counted;
  framed = is.framed;
  complete = is.complete;
}
headed-IsParser p pos (parse_ok, headers) is found running small =
    requested-IsParser
      (record p {
        headers = headers;
        headers_end = pos + 4;
        headers_written = true;
        content_length = content_length_of headers p.content_length;
      })
      (parse_request p.request (concat_string p.msgs))
      (record {
        counted = is.counted;
        framed = λ e. (pos, found, refl);
        complete = λ e. absurd (cc (e, running));
      })
      refl running small

read_head-IsParser :
    (p : HttpParser)
    → IsParser p
    → p.parsing_complete ≡ false
    → length (concat_string p.msgs) < 2 ^ 64
    → IsParser (read_head p (concat_string p.msgs))
unfolding read_head
read_head-IsParser p is running small = by_place (find double_crlf (concat_string p.msgs)) refl
  where
    by_place :
        (o : Option ℕ)
        → find double_crlf (concat_string p.msgs) ≡ o
        → IsParser (elim o [
          | none ↦ p
          | some pos ↦
              headed p (concat_string p.msgs) pos (parse_headers p.headers (concat_string p.msgs))
        ])
    by_place none e = is
    by_place (some pos) e =
        headed-IsParser p pos (parse_headers p.headers (concat_string p.msgs)) is e running small

received-IsParser : (p : HttpParser) (msg : Text) → IsParser p → IsParser (received p msg)
received-IsParser p msg is =
    let whole = concat_string-append p.msgs msg in
    let total : length (concat_string (p.msgs ++ msg ∷ []))
        ≡ length (concat_string p.msgs) + length msg =
      ap length whole ∙ length-append (concat_string p.msgs) msg in
    let counted = is.counted in
    record {
      counted = omega (arith, total, counted);
      framed = λ e.
          let (pos, found, end) = is.framed e in
          (
            pos,
            ap (find double_crlf) whole
                ∙ find-append double_crlf (concat_string p.msgs) msg pos found,
            end,
          );
      complete = λ e.
          let (written, kind) = is.complete e in
          (
            written,
            elim kind [ inl get ↦ inl get | inr (post, le) ↦ inr (post, omega (arith, total, le)) ],
          );
    }

-- A parser whose head is not read is not complete.
running_lem : (p : HttpParser) → IsParser p → p.headers_written ≡ false → p.parsing_complete ≡ false
running_lem p is unread = elim (Bool-cases p.parsing_complete) [
  | inr running ↦ running
  | inl done ↦ let (written, kind) = is.complete done in absurd (cc (written, unread))
]

pub write-IsParser :
    (p : HttpParser) (msg : Text)
    → IsParser p
    → length (concat_string (p.msgs ++ msg ∷ [])) < 2 ^ 64
    → IsParser (write p msg)
unfolding write
write-IsParser p msg is small =
    either p.headers_written (check_body (received p msg))
      (read_head (received p msg) (concat_string (p.msgs ++ msg ∷ [])))
      (λ written. check_body-IsParser (received p msg) (received-IsParser p msg is) written small)
      (λ unread.
        read_head-IsParser (received p msg) (received-IsParser p msg is) (running_lem p is unread)
          small)
  where
    either :
        (b : Bool) (q r : HttpParser)
        → (b ≡ true → IsParser q)
        → (b ≡ false → IsParser r)
        → IsParser (if b then q else r)
    either true q r f g = f refl
    either false q r f g = g refl
