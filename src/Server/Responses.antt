-- ===== src/Server/Responses.antt =====
-- The responses of the handlers of src/deals_server.cpp.
pub mod Sizes
use deals_server.Prelude.{
  ℕ, ◌+◌, Bool, true, false, List, [], ◌∷◌, ◌++◌, ◌==◌, if◌then◌else◌, length, Text, codes,
}
use deals_server.Prelude.Decimal.{to_string}
use deals_server.Utils.Strings.{concat_string}
use deals_server.Http.Response.{HttpResponse, new_response, add_header, write_body}

abbrev pub empty_result : Text → HttpResponse
empty_result reason_phrase =
    add_header (new_response 204 reason_phrase) (codes "Content-Length") (codes "0")

-- A result with the headers of its type and its length.
abbrev pub result_with : Text → Text → HttpResponse
result_with content_type response =
    write_body
      (add_header (add_header (new_response 200 (codes "OK")) (codes "Content-Type") content_type)
        (codes "Content-Length") (to_string (length response)))
      response

-- The length of each data block.
unfoldable pub sizes_of : List Text → Text
sizes_of [] = []
sizes_of (block ∷ blocks) = to_string (length block) ++ (codes ";" ++ sizes_of blocks)

abbrev pub digits : ℕ → ℕ
digits n = length (to_string n)

-- How many digits the length of `size_info` takes.
abbrev pub sizes_strlen : ℕ → ℕ
sizes_strlen sizes =
    if digits (sizes + digits sizes + 1) == digits sizes then digits sizes else digits sizes + 1

unfoldable pub size_info : List Text → Text
size_info blocks =
    to_string (length (sizes_of blocks) + sizes_strlen (length (sizes_of blocks)) + 1)
    ++ (codes ";" ++ sizes_of blocks)

-- writeTopResult, on the data of the deals.
unfoldable pub write_top_result : List Text → HttpResponse
write_top_result [] = empty_result (codes "Empty result")
write_top_result (block ∷ blocks) =
    result_with (codes "application/octet-stream")
      (size_info (block ∷ blocks) ++ concat_string (block ∷ blocks))

-- The end of getUniqueRoutes and of getStats.
unfoldable pub write_text : Text → HttpResponse
write_text result =
    if length result == 0
    then empty_result (codes "Empty result")
    else result_with (codes "text/plain") result
