-- ===== src/Http/Messages.antt =====
-- HttpHeaders, URIQueryParams and HttpRequest of src/http.cpp.
use deals_server.Prelude.{
  ℕ, ◌+◌, List, [], ◌∷◌, Option, none, some, ◌==◌, if◌then◌else◌, length, get_or, Text, codes,
}
use deals_server.Utils.Strings.{find, substr, substr_from, split_string, to_lower_case}
use deals_server.Types.Params.{Object, ObjectMap, add_object}

pub data ParserResult : Type 0 where
  parse_ok parse_await parse_err : ParserResult

-- CRLF, and CRLF twice.
abbrev pub crlf : Text
crlf = 13 ∷ 10 ∷ []

abbrev pub double_crlf : Text
double_crlf = 13 ∷ 10 ∷ 13 ∷ 10 ∷ []

-- A header of a line with a colon; the byte behind a string's last is 0.
abbrev pub header_at : Text → ℕ → Object
header_at line hpos = record {
  name = to_lower_case (substr line 0 hpos);
  value =
      if get_or line (hpos + 1) 0 == b' '
      then substr_from line (hpos + 1 + 1)
      else substr_from line (hpos + 1);
}

unfoldable pub header_of : Text → Option Object
header_of line = elim (find (codes ":") line) [
  | none ↦ none
  | some hpos ↦ some (header_at line hpos)
]

-- The loop over the lines behind the request line.
unfoldable pub add_headers : ObjectMap → List Text → ObjectMap
add_headers headers [] = headers
add_headers headers (line ∷ lines) = elim (header_of line) [
  | none ↦ add_headers headers lines
  | some one_header ↦ add_headers (add_object headers one_header) lines
]

abbrev pub header_lines : ObjectMap → List Text → ParserResult × ObjectMap
header_lines headers [] = (parse_err, headers)
header_lines headers (request_line ∷ lines) = (parse_ok, add_headers headers lines)

-- HttpHeaders.parse.
unfoldable pub parse_headers : ObjectMap → Text → ParserResult × ObjectMap
parse_headers headers http_message =
    if length http_message == 0
    then (parse_err, headers)
    else elim (find double_crlf http_message) [
      | none ↦ (parse_await, headers)
      | some pos ↦ header_lines headers (split_string (substr http_message 0 pos) crlf)
    ]

pub record UriQueryParams : Type 0 where
  pub params : ObjectMap
  pub path : Text

unfoldable pub param_of : Text → Object
param_of param = elim (find (codes "=") param) [
  | none ↦ record { name = param; value = [] }
  | some pos ↦ record { name = substr param 0 pos; value = substr_from param (pos + 1) }
]

unfoldable pub add_params : ObjectMap → List Text → ObjectMap
add_params params [] = params
add_params params (param ∷ rest) = add_params (add_object params (param_of param)) rest

-- URIQueryParams.parse.
unfoldable pub parse_query : UriQueryParams → Text → ParserResult × UriQueryParams
parse_query query query_text =
    if length query_text == 0 then (parse_err, query) else elim (find (codes "?") query_text) [
      | none ↦ (parse_ok, record query { path = query_text })
      | some pos ↦ (
        parse_ok,
        record {
          params =
              add_params query.params (split_string (substr_from query_text (pos + 1)) (codes "&"));
          path = substr query_text 0 pos;
        },
      )
    ]

pub record HttpRequest : Type 0 where
  pub method : Text
  pub uri : Text
  pub http_version : Text
  pub query : UriQueryParams

abbrev pub with_query : HttpRequest → ParserResult × UriQueryParams → ParserResult × HttpRequest
with_query request (res, query) = (res, record request { query = query })

-- The three words of the request line.
abbrev pub request_words : HttpRequest → List Text → ParserResult × HttpRequest
request_words request (method ∷ uri ∷ http_version ∷ []) =
    with_query (record request { method = method; uri = uri; http_version = http_version })
      (parse_query request.query uri)
request_words request [] = (parse_err, request)
request_words request (a ∷ []) = (parse_err, request)
request_words request (a ∷ b ∷ []) = (parse_err, request)
request_words request (a ∷ b ∷ c ∷ d ∷ words) = (parse_err, request)

-- HttpRequest.parse.
unfoldable pub parse_request : HttpRequest → Text → ParserResult × HttpRequest
parse_request request requestline =
    if length requestline == 0 then (parse_err, request) else elim (find crlf requestline) [
      | none ↦ (parse_err, request)
      | some pos ↦ request_words request (split_string (substr requestline 0 pos) (codes " "))
    ]
