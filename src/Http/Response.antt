-- ===== src/Http/Response.antt =====
-- HttpResponse of src/http.cpp.
use deals_server.Prelude.{ℕ, List, [], ◌∷◌, ◌++◌, Text, codes}
use deals_server.Prelude.Decimal.{to_string}
use deals_server.Utils.Strings.{concat_string}
use deals_server.Http.Messages.{crlf}

pub record HttpResponse : Type 0 where
  pub status_code : ℕ
  pub reason_phrase : Text
  pub headers : List Text
  pub body : List Text

-- The two constructors.
abbrev pub new_response : ℕ → Text → HttpResponse
new_response status_code reason_phrase = record {
  status_code = status_code;
  reason_phrase = reason_phrase;
  headers = [];
  body = [];
}

abbrev pub response_with : ℕ → Text → Text → HttpResponse
response_with status_code reason_phrase body = record (new_response status_code reason_phrase) {
  body = body ∷ [];
}

unfoldable pub add_header : HttpResponse → Text → Text → HttpResponse
add_header r name value = record r {
  headers = r.headers ++ (name ++ (codes ": " ++ (value ++ crlf))) ∷ [];
}

abbrev pub write_body : HttpResponse → Text → HttpResponse
write_body r msg = record r { body = r.body ++ msg ∷ [] }

-- operator std::string.
unfoldable pub response_text : HttpResponse → Text
response_text r =
    codes "HTTP/1.0 "
    ++ (to_string r.status_code
        ++ (codes " "
            ++ (r.reason_phrase
                ++ (crlf ++ (concat_string r.headers ++ (crlf ++ concat_string r.body))))))
