-- ===== src/Http/Parser/Pieces.antt =====
-- A request that comes in pieces.
use deals_server.Prelude.{
  ℕ, ◌+◌, ◌^◌, ◌≤◌, ◌<◌, ◌≡◌, refl, sym, ap, ◌∙◌, ◌⊎◌, inl, inr, Bool, true, false, List, [], ◌∷◌,
  ◌++◌, Option, none, some, ltb, if◌then◌else◌, length, length-append, length-drop, length-take,
  append-nil, append_assoc, Text, codes, text_eq, take, drop, take-append-drop, arith, Bool-cases,
}
use deals_server.Utils.Strings.{find, concat_string}
use deals_server.Types.Params.{ObjectMap}
use deals_server.Http.Messages.{
  ParserResult, parse_ok, parse_await, parse_err, double_crlf, parse_headers, HttpRequest,
  parse_request,
}
use deals_server.Http.Parser.{
  HttpParser, new_parser, content_length_of, body_bytes, check_body, requested, headed, read_head,
  received, write, get_body, get_headers, write_all,
}
use deals_server.Http.Parser.Framing.{IsParser, write-IsParser, concat_string-append, end-le}

-- The pieces that a parser holds are not touched by what follows.
msgs-check_body : (p : HttpParser) → (check_body p).msgs ≡ p.msgs
unfolding check_body
msgs-check_body p = elim (Bool-cases (text_eq p.request.method (codes "POST"))) [
  | inr other ↦ rw other refl
  | inl post ↦ elim (Bool-cases (ltb (body_bytes p) p.content_length)) [
    | inl short ↦ rw (post, short) refl
    | inr long ↦ rw (post, long) refl
  ]
]

msgs-requested : (p : HttpParser) (o : ParserResult × HttpRequest) → (requested p o).msgs ≡ p.msgs
msgs-requested p (parse_ok, request) = msgs-check_body _
msgs-requested p (parse_await, request) = refl
msgs-requested p (parse_err, request) = refl

msgs-headed :
    (p : HttpParser) (text : Text) (pos : ℕ) (o : ParserResult × ObjectMap)
    → (headed p text pos o).msgs ≡ p.msgs
msgs-headed p text pos (parse_ok, headers) =
    msgs-requested
      (record p {
        headers = headers;
        headers_end = pos + 4;
        headers_written = true;
        content_length = content_length_of headers p.content_length;
      })
      (parse_request p.request text)
msgs-headed p text pos (parse_await, headers) = refl
msgs-headed p text pos (parse_err, headers) = refl

msgs-read_head : (p : HttpParser) (text : Text) → (read_head p text).msgs ≡ p.msgs
unfolding read_head
msgs-read_head p text = by_place (find double_crlf text)
  where
    by_place :
        (o : Option ℕ)
        → (elim o as (λ o. HttpParser) [
          | none ↦ p
          | some pos ↦ headed p text pos (parse_headers p.headers text)
        ]).msgs
          ≡ p.msgs
    by_place none = refl
    by_place (some pos) = msgs-headed p text pos (parse_headers p.headers text)

msgs-write : (p : HttpParser) (msg : Text) → (write p msg).msgs ≡ p.msgs ++ msg ∷ []
unfolding write
msgs-write p msg =
    either p.headers_written (check_body (received p msg))
      (read_head (received p msg) (concat_string (p.msgs ++ msg ∷ [])))
      (msgs-check_body (received p msg)) (msgs-read_head (received p msg) _)
  where
    either :
        (b : Bool) (q r : HttpParser)
        → q.msgs ≡ p.msgs ++ msg ∷ []
        → r.msgs ≡ p.msgs ++ msg ∷ []
        → (if b then q else r).msgs ≡ p.msgs ++ msg ∷ []
    either true q r f g = f
    either false q r f g = g

write_all-IsParser :
    (p : HttpParser) (pieces : List Text)
    → IsParser p
    → length (concat_string p.msgs ++ concat_string pieces) < 2 ^ 64
    → IsParser (write_all p pieces)
      × (concat_string (write_all p pieces).msgs ≡ concat_string p.msgs ++ concat_string pieces)
unfolding write_all concat_string
write_all-IsParser p [] is small = (is, sym (append-nil (concat_string p.msgs)))
write_all-IsParser p (msg ∷ pieces) is small =
    let here : concat_string (write p msg).msgs ≡ concat_string p.msgs ++ msg =
      ap concat_string (msgs-write p msg) ∙ concat_string-append p.msgs msg in
    let there : (concat_string p.msgs ++ msg) ++ concat_string pieces
        ≡ concat_string p.msgs ++ (msg ++ concat_string pieces) =
      append_assoc (concat_string p.msgs) msg (concat_string pieces) in
    let whole = ap (λ text. text ++ concat_string pieces) here ∙ there in
    let long = ap length (concat_string-append p.msgs msg) in
    let short = ap length there ∙ refl in
    let parts = length-append (concat_string p.msgs ++ msg) (concat_string pieces) in
    let (done, text) =
      write_all-IsParser (write p msg) pieces
        (write-IsParser p msg is (omega (arith, small, long, short, parts)))
        (let e = ap length whole in omega (arith, e, small)) in
    (done, text ∙ whole)

new-IsParser : IsParser new_parser
unfolding concat_string
new-IsParser = record { counted = refl; framed = λ e. absurd (cc e); complete = λ e. absurd (cc e) }

framed_headers : (n : ℕ) (text : Text) → n ≤ length text → length (take n (drop 0 text)) ≡ n
framed_headers n text le = let e = length-take n text in omega (arith, e, le)

-- The head of a request of that text: not read, or it ends behind the first blank line.
abbrev pub HasHead : HttpParser → Text → Type 0
HasHead p text =
    (p.headers_written ≡ false)
    ⊎ ((pos : ℕ) × (find double_crlf text ≡ some pos) × (length (get_headers p) ≡ pos + 4))

-- Not complete, or a GET, or a POST with as many bytes as it names.
abbrev pub HasBody : HttpParser → Type 0
HasBody p =
    (p.parsing_complete ≡ false)
    ⊎ ((p.headers_written ≡ true)
        × ((p.request.method ≡ codes "GET")
            ⊎ ((p.request.method ≡ codes "POST") × (p.content_length ≤ length (get_body p)))))

-- For the pieces of a request of under 2^64 bytes in all, however it is cut: the headers and the body
-- are the request. Unless the headers are still awaited, they end behind the first blank line of the
-- request. A parser that is complete has its headers, and is a GET, or a POST with at least as many
-- bytes in its body as its content-length, so no other method is ever complete.
pub write_all-framed :
    (pieces : List Text)
    → length (concat_string pieces) < 2 ^ 64
    → (get_headers (write_all new_parser pieces) ++ get_body (write_all new_parser pieces)
        ≡ concat_string pieces)
      × HasHead (write_all new_parser pieces) (concat_string pieces)
      × HasBody (write_all new_parser pieces)
unfolding get_headers get_body concat_string
write_all-framed pieces small =
    let p = write_all new_parser pieces in
    let (is, text) = write_all-IsParser new_parser pieces new-IsParser small in
    (
      take-append-drop p.headers_end (concat_string p.msgs) ∙ text,
      elim (Bool-cases p.headers_written) [
        | inr unread ↦ inl unread
        | inl written ↦
            let (pos, found, end) = is.framed written in
            inr (
              pos,
              ap (find double_crlf) (sym text) ∙ found,
              framed_headers p.headers_end (concat_string p.msgs) (end-le p (is.framed written))
                  ∙ end,
            )
      ],
      elim (Bool-cases p.parsing_complete) [
        | inr running ↦ inl running
        | inl done ↦
            let (written, kind) = is.complete done in
            inr (
              written,
              elim kind [
                | inl get ↦ inl get
                | inr (post, le) ↦ inr (
                  post,
                  (let e = length-drop p.headers_end (concat_string p.msgs) in
                      omega (arith, e, le)),
                )
              ],
            )
      ],
    )
