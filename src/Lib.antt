-- ===== src/Lib.antt =====
-- Deals server: an in-memory database of flight deals with an HTTP interface. A request's parameters
-- are parsed and checked (src/types.cpp), fill a search query (src/search_query.cpp), and the query
-- is run over the table of deals by an aggregation that keeps the cheapest deal for each
-- destination, country or day (src/deals_query.cpp, src/deals_cheapest.cpp,
-- src/deals_cheapest_by_country.cpp, src/deals_cheapest_by_date.cpp).
--
-- The files, by the parts of the program:
-- - Prelude: lists, options, tests and decimal numbers that all parts share; Prelude/Results has
--   `types::Error` and what a call ends with: a value, such an error, or an exception of another
--   type (`foreign`).
-- - Utils: src/utils.cpp. Utils/Calendar has `day_of_week`, `rdn` and `days_between_dates`, with the
--   calendar's own rules in Utils/Calendar/Gregorian; Utils/Strings has `split_string`,
--   `concat_string`, `toLowerCase` and `toUpperCase`; Utils/Days the names of the weekdays;
--   Utils/Numbers `std::stol` as the C++ standard describes it; Utils/DateTexts the overloads of the
--   date functions on texts.
-- - Types: src/types.hpp and src/types.cpp. Types/Params has ObjectMap, Optional and Required over an
--   instance of `Parameter`; Types/Iata, Types/Country, Types/Date, Types/Scalars and Types/Weekdays
--   have the classes of values, a constructor being a function into an outcome.
-- - Query: src/search_query.hpp and src/search_query.cpp. Query/Search is the state and
--   Query/Setters has one function for each setter, from the query before to the outcome
--   after; Query/Requests is the query that `searchFor` of src/deals_database.hpp makes.
-- - Deals: src/deals_types.cpp in Deals/Info, src/deals_query.cpp in Deals/Filter, and in Deals/Group
--   the `process_deal` that the aggregations share; Deals/Search has the whole search by destination
--   and by country (`execute`, src/deals_cheapest.cpp, src/deals_cheapest_by_country.cpp), and
--   Deals/ByDate the checks, the key and the comparisons of src/deals_cheapest_by_date.cpp;
--   Deals/Adding has `addDeal` of src/deals_database.cpp up to the record for the index, and
--   Deals/Reports the statistics and the unique routes.
-- - Locks: src/locks.hpp and src/locks.cpp, the sections of one name over their semaphore.
-- - Memory: src/shared_memory.hpp and src/shared_memory.tpp. Memory/Pages has SharedMemoryPage over
--   the objects of the system's shared memory, with `getPageByName`; Memory/Index the slots of a
--   table's index and how a page is chosen, filled and cleared; Memory/Table the table's state, the
--   step of `addRecord` on the index (`reserve`) and `release_expired_memory_pages`;
--   Memory/Operations `addRecord`, `processRecords`, `cleanup` and `get_element_data`, and in
--   Memory/Operations/Steps the runs of a process; Memory/Space the tests on the free memory of
--   src/shared_memory.cpp.
-- - Top: src/top_destinations.cpp over a table of Memory, with the cache of src/cache.hpp.
-- - Http: src/http.hpp and src/http.cpp. Http/Messages has the parsers of the head, Http/Parser the
--   parser that takes a request in pieces, and Http/Response the text of an answer.
-- - Database: src/deals_database.cpp, `addDeal`, `truncate` and `fill_deals_with_data` over two tables
--   of Memory with one global expiry; Database/Searching has `searchFor` of src/deals_database.hpp,
--   `getStats` and `getUniqueRoutesDeals` over the index.
-- - Server: src/deals_server.cpp. Server/Routing has `on_data` up to the handler and
--   `terminateWithError`, Server/Responses `writeTopResult` and the responses of texts,
--   Server/Parameters the parameters of the handlers and the checks on them, Server/Actions the state
--   of the server and how a handler acts on it, Server/Handlers the handlers and the whole of
--   `on_data`, and Server/Serving the signals and `process` on top of Tcp.
-- - Tcp: src/tcp_server.cpp in Tcp/Connection, the buffers and the life of a connection, and
--   src/tcp_server.hpp in Tcp/Polling, one round of `process` for any class with `on_connect` and
--   `on_data` (the record `Handlers`, whose contract is in Tcp/Polling/Contract).
-- - Timing: the clock and the traveller in time of src/timing.cpp.
-- - Statsd: src/statsd_client.cpp and src/statsd_client.hpp.
-- - Tests: runs at concrete inputs.
--
-- Texts are lists of bytes. Machine words are native numbers with their wrap-around written out:
-- subtraction on uint32_t is `sub_u32`, and the year of `day_of_week` steps back on uint16_t. A read
-- outside a table, which the program does not guard against, is `none`. Members that a constructor
-- leaves uninitialised are an argument, `Garbage`. The current time is an argument of the operations
-- that read it. Unordered sets and maps are lists in the order of insertion.
--
-- std::sort is a parameter: in Deals/Search the record `Sorting` keeps the deals and sorts by a
-- comparison that is a strict weak order; in Top/Counting it also stands for the order in which the
-- map is iterated. In Deals, `processRecords` is the calls on a list of deals.
--
-- An operation of a table takes the state before and gives what it returns or throws with the state
-- after, also where it throws. What the clock, the semaphores, shm_open, ftruncate, mmap and statvfs
-- say is the argument `World`: a section may not be entered (CANT_LOCK), while leaving one, which Locks
-- has with its failures, is taken to succeed. An operation runs from its beginning to its end; other processes are between
-- operations. A handler of the server runs in an `Environment`, which has one `World` for all that it
-- calls.
--
-- A round of the TCP server takes what poll, accept, ioctl, recv and send say as an argument, `Tick`,
-- and gives the connections that it keeps, the state, and the descriptors that it closed.
--
-- Fuel: the loop of `split_string` takes one round for each byte of the text, that of
-- `findCheapestAndLast` at most (n + 1) ^ 2 rounds for a history of n deals, and that of `cleanup` one
-- round for each byte of the key and one more; that these are enough is proved. Two rounds are taken
-- for the loop of `reset_not_for_production`.
--
-- Not modelled: the setting up of the listening socket and of the shared context, `main`, the sending
-- in chunks of another build, the timer and the reports of the memory's use, which only print, and the
-- printing of deals.
pub mod Prelude
pub mod Utils
pub mod Types
pub mod Query
pub mod Locks
pub mod Memory
pub mod Deals
pub mod Top
pub mod Http
pub mod Server
pub mod Tcp
pub mod Timing
pub mod Statsd
pub mod Database
pub mod Tests
