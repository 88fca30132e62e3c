-- ===== src/Http/Parser.antt =====
-- HttpParser of src/http.cpp: the pieces of a request as they come.
pub mod Framing
pub mod Pieces
use deals_server.Prelude.{
  ℕ, ◌+◌, ◌-◌, ◌%◌, ◌^◌, Bool, true, false, not, List, [], ◌∷◌, ◌++◌, Option, none, some, ltb, ◌==◌,
  if◌then◌else◌, length, Text, codes, text_eq, take, drop,
}
use deals_server.Utils.Strings.{find, substr, substr_from, concat_string}
use deals_server.Utils.Numbers.{Stol, stol}
use deals_server.Types.Params.{ObjectMap, lookup}
use deals_server.Http.Messages.{
  ParserResult, parse_ok, parse_await, parse_err, crlf, double_crlf, parse_headers, HttpRequest,
  parse_request,
}

-- The lengths are size_t.
pub record HttpParser : Type 0 where
  pub headers : ObjectMap
  pub request : HttpRequest
  pub msgs : List Text
  pub headers_end : ℕ
  pub bytes_written : ℕ
  pub content_length : ℕ
  pub headers_written : Bool
  pub parsing_complete : Bool
  pub bad_request : Bool

abbrev pub new_parser : HttpParser
new_parser = record {
  headers = [];
  request = record {
    method = [];
    uri = [];
    http_version = [];
    query = record { params = []; path = [] };
  };
  msgs = [];
  headers_end = 0;
  bytes_written = 0;
  content_length = 0;
  headers_written = false;
  parsing_complete = false;
  bad_request = false;
}

-- The content length that the headers name, or the one before.
abbrev pub read_length : Stol → ℕ → ℕ
read_length (Stol.value n) before = n
read_length Stol.invalid_argument before = before
read_length Stol.out_of_range before = before

unfoldable pub content_length_of : ObjectMap → ℕ → ℕ
content_length_of headers before =
    if length (lookup headers (codes "content-length")) == 0
    then before
    else read_length (stol (lookup headers (codes "content-length"))) before

-- The difference on size_t.
abbrev pub body_bytes : HttpParser → ℕ
body_bytes p = (p.bytes_written + 2 ^ 64 - p.headers_end) % 2 ^ 64

-- The last part of `write`.
unfoldable pub check_body : HttpParser → HttpParser
check_body p =
    if text_eq p.request.method (codes "POST")
    then (if ltb (body_bytes p) p.content_length then p else record p { parsing_complete = true })
    else p

abbrev pub requested : HttpParser → ParserResult × HttpRequest → HttpParser
requested p (parse_ok, request) = check_body (record p {
  request = request;
  parsing_complete = if text_eq request.method (codes "GET") then true else p.parsing_complete;
})
requested p (parse_await, request) = record p { request = request; bad_request = true }
requested p (parse_err, request) = record p { request = request; bad_request = true }

-- The part of `write` for headers that end at `pos`.
abbrev pub headed : HttpParser → Text → ℕ → ParserResult × ObjectMap → HttpParser
headed p text pos (parse_await, headers) = record p { headers = headers }
headed p text pos (parse_err, headers) = record p { headers = headers }
headed p text pos (parse_ok, headers) =
    requested
      (record p {
        headers = headers;
        headers_end = pos + 4;
        headers_written = true;
        content_length = content_length_of headers p.content_length;
      })
      (parse_request p.request text)

unfoldable pub read_head : HttpParser → Text → HttpParser
read_head p text = elim (find double_crlf text) [
  | none ↦ p
  | some pos ↦ headed p text pos (parse_headers p.headers text)
]

abbrev pub received : HttpParser → Text → HttpParser
received p msg = record p {
  msgs = p.msgs ++ msg ∷ [];
  bytes_written = (p.bytes_written + length msg) % 2 ^ 64;
}

unfoldable pub write : HttpParser → Text → HttpParser
write p msg =
    let q = received p msg in
    if p.headers_written then check_body q else read_head q (concat_string q.msgs)

unfoldable pub get_body : HttpParser → Text
get_body p = substr_from (concat_string p.msgs) p.headers_end

unfoldable pub get_headers : HttpParser → Text
get_headers p = substr (concat_string p.msgs) 0 p.headers_end

-- Without a CRLF the count is npos: the whole.
unfoldable pub get_request_line : HttpParser → Text
get_request_line p = elim (find crlf (get_headers p)) [
  | none ↦ get_headers p
  | some pos ↦ substr (get_headers p) 0 pos
]

-- The pieces of a connection, one after the other.
unfoldable pub write_all : HttpParser → List Text → HttpParser
write_all p [] = p
write_all p (msg ∷ msgs) = write_all (write p msg) msgs
