-- ===== src/Lib.antt =====
-- sonarr-anime-bridge serves Sonarr import lists: it fetches each year's anime from AniList, keeps the
-- years in SQLite, filters them on request, and maps them to TVDB numbers with the anibridge mapping.
--
-- The parts, and how they work together:
-- * Show is the AniList record with its methods (internal/anilist/anilist.go, `Show` and its parts), with
--   the calendar of `IsWithinMonths` in Show/Dates and `%d` in Show/Decimal.
-- * Filter has the functions of internal/filter/filter.go. Their loop, which compacts a slice in place, is
--   Compact; Compact/Laws proves it against a loop over a copy, and Filter/Laws and Filter/Season say
--   what each filter returns.
-- * Client is the AniList client (internal/anilist/anilist.go, `FetchYear` in Client/Paging, `throttle` and
--   `observeAllowance` in Client/Limits, `doRequest` in Client/Request).
-- * Decoded is the bounded cache of decoded years (internal/cache/decoded_year.go, `decodedYearCache`), with
--   its invariant in Decoded/Invariant, eviction in Decoded/Evict and admission in Decoded/Admit.
--   DecodedYear is `readDecodedYearContext` among other goroutines.
-- * Cache is the cache of years (internal/cache/cache.go): the methods in Cache, the worker that writes access
--   times in Cache/Hits (`flushLastHits`), the seen mappings in Cache/Seen (`MarkSeenMappings`). Retry is
--   `retryBusyValue` of that file. Every write of Cache invalidates Decoded.
-- * Mapping is the mapping in memory and the resolver (internal/mapping/resolve.go, and `AnibridgeMapping`
--   and `countMissing` of internal/mapping/anibridge.go). Mapping/Parse is `parseAnibridgeJSON` of
--   internal/mapping/parse.go: the tokens of encoding/json in Parse/Json, ranges, targets and the document
--   in Parse/Ranges, Parse/Targets and Parse/Document. Parse/Tree is the independent description, which
--   decodes the document whole; Parse/Skip, Parse/Reads and Parse/Refines show that the parser implements
--   it, and Parse/Settles that it returns on any input. Mapping/Url has the hosts and addresses that are
--   allowed (internal/mappingurl/allowlist.go, `validateMappingURL`, `validateRemoteURL`, `RoundTrip`),
--   Mapping/Source the download (`head`, `fetch`), and Mapping/Loader `Load` of internal/mapping/loader.go,
--   which joins the file, the download and the parser.
-- * Config is internal/config/config.go, with `Validate` of internal/datapath/datapath.go.
-- * Scheduler is internal/scheduler/scheduler.go: Scheduler/Failures (`recordFetchFailure`), Scheduler/Fetch
--   (`fetchAndStore`, which joins the client, the cache and the failures), Scheduler/Flights (how calls of
--   `fetchAndStore` for one year share a fetch), Scheduler/Tasks
--   (`StartBackground`, `ScheduleYearFetch`, `Wait`), Scheduler/Process (`Process`, which joins the filters and the
--   resolver), Scheduler/Track (`trackNewMappings`, `prune`, `vacuumMaybe`), Scheduler/Loading
--   (`loadResolver`, which joins the loader and the resolver), Scheduler/Prewarm (`Prewarm`,
--   `refreshStaleYears`).
-- * Server has cmd/server/main.go: Server/List (`handleList`), Server/Health (`handleHealth`), Server/Debug
--   (`debugHandler`), Server/Admin (`handleCacheStats`, `handleCacheClear`) and Server/Response, which is
--   what all of them run in (`loggingMiddleware`, `recoveryMiddleware`, `statusResponseWriter`).
-- * Tests holds sample data, and applies theorems to it. Prelude has what all share: tests on numbers, lists,
--   Go's signed integers, maps as association lists, and text.
--
-- A struct is a record with the fields of the source, state is passed and returned, and a method is a
-- function on it, named as in the source in snake case. A critical section is one step. What the
-- outside answers is an argument: the clock, SQLite, AniList, random numbers, the end of a context, the
-- folding table of `strings.EqualFold`, JSON. Where other goroutines may run in between, what they do
-- is an argument too (Cache/Hits, DecodedYear), or a step relation has every order (Scheduler/Tasks,
-- Scheduler/Flights).
-- Log lines are left out, except for the outcome of a load and the line of a request. A panic is `none`,
-- or a result of its own in the parser.
--
-- Integers from outside are Prelude's ℤ, which is unbounded: the code only compares them and counts months
-- and seconds. Times are nanoseconds or seconds since 1970 on ℕ. The generation of Decoded wraps at
-- 2 ^ 64, durations of Client/Limits are cut off at 2 ^ 63 - 1 as in the source, and the episodes that the
-- parser adds up wrap at 2 ^ 64 and are read as a signed number. `strconv.Atoi` refuses what 64 bits do
-- not hold.
--
-- Loops are recursion on the list they range over, except these, which run on fuel. Eviction has as many
-- rounds as there are entries; running out would stand for the panic on an empty list, and admission
-- is proved never to come to that. Paging has as many rounds as there may be pages and takes four pages
-- in each. The retry loops count down the attempts of the source. Decimal printing has more fuel than
-- digits. Each loop of the parser has as many rounds as there are tokens ahead, and one more, as each round
-- reads a token; that this is enough is proved in Parse/Settles.
--
-- Not modelled: the zstd stream and the reader that bounds it, the atomic write of a file and the JSON of its
-- sidecar, the text of JSON below its tokens, opening and migrating the database, process start and
-- shutdown, and the gates that let one goroutine decode a year at a time, as they are system calls, glue
-- or library code, or lie outside the parts above.
pub mod Prelude
pub mod Show
pub mod Compact
pub mod Filter
pub mod Decoded
pub mod Retry
pub mod Cache
pub mod DecodedYear
pub mod Mapping
pub mod Config
pub mod Client
pub mod Scheduler
pub mod Server
pub mod Tests
