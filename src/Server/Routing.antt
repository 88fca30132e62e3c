-- ===== src/Server/Routing.antt =====
-- on_data and terminateWithError of src/deals_server.cpp: what happens to the data that comes, up to
-- the handler of a path.
use deals_server.Prelude.{
  Bool, not, ◌++◌, if◌then◌else◌, Text, codes, line, text_eq, Outcome, ok, err, foreign, Error,
  ErrorCode, bad_parameter, internal_error, internal,
}
use deals_server.Http.Parser.{HttpParser, write, get_request_line}
use deals_server.Http.Response.{HttpResponse, response_with}

-- The branches of on_data for a complete request, one for each handler.
pub data Route : Type 0 where
  get_top get_unique_routes get_stats get_destinations_top : Route
  clear_deals clear_destinations clear_all ping quit_server add_deal method_unknown : Route

unfoldable pub get_route : Text → Route
get_route path =
    if text_eq path (codes "/deals/top")
    then get_top
    else if text_eq path (codes "/deals/uniqueRoutes")
    then get_unique_routes
    else if text_eq path (codes "/deals/stats")
    then get_stats
    else if text_eq path (codes "/destinations/top")
    then get_destinations_top
    else if text_eq path (codes "/deals/clear")
    then clear_deals
    else if text_eq path (codes "/destinations/clear")
    then clear_destinations
    else if text_eq path (codes "/clear")
    then clear_all
    else if text_eq path (codes "/ping")
    then ping
    else if text_eq path (codes "/quit")
    then quit_server
    else method_unknown

unfoldable pub route : Text → Text → Route
route method path =
    if text_eq method (codes "GET")
    then get_route path
    else if text_eq method (codes "POST")
    then (if text_eq path (codes "/deals/add") then add_deal else method_unknown)
    else method_unknown

abbrev pub method_unknown_response : HttpResponse
method_unknown_response = response_with 404 (codes "Not Found") (line "Method unknown")

-- terminateWithError: the response that closes the connection.
abbrev pub error_response : ErrorCode → Text → HttpResponse
error_response bad_parameter message = response_with 400 (codes "Bad request") message
error_response internal_error message = response_with 500 (codes "Internal Server Error") message

abbrev pub terminate_with_error : Error → HttpResponse
terminate_with_error e = error_response e.error_code e.message

-- What a handler ends with closes the connection: its response, or an error's.
abbrev pub respond : Outcome HttpResponse → HttpResponse
respond (ok response) = response
respond (err e) = terminate_with_error e
respond foreign = terminate_with_error (internal (line "Something is broken inside me"))

-- The connection is closed with a response, waits for more data, or a handler is called.
pub data Reaction : Type 0 where
  closes : HttpResponse → Reaction
  waits : Reaction
  handles : Route → Reaction

abbrev pub bad_format : HttpParser → Error
bad_format p = internal (codes "Bad HTTP Request format <" ++ (get_request_line p ++ codes ">"))

-- The response after a request to quit.
abbrev pub unavailable : HttpResponse
unavailable = response_with 503 (codes "Service unavailable") (line "Service unavailable")

abbrev pub reaction : HttpParser → Reaction
reaction p =
    if p.bad_request
    then closes (terminate_with_error (bad_format p))
    else if not p.parsing_complete
    then waits
    else handles (route p.request.method p.request.query.path)

unfoldable pub on_data : Bool → HttpParser → Text → Reaction × HttpParser
on_data quit_request p data_received =
    if quit_request
    then (closes unavailable, p)
    else (reaction (write p data_received), write p data_received)
