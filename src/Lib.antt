-- ===== src/Lib.antt =====
-- go-clipboard: an online clipboard. A client claims a name, stores a text under it for ten minutes,
-- an hour or two hours, and others read it by the name until it expires.
--
-- The parts and how they meet. The command (cmd/server/main.go) reads its configuration
-- (internal/config), opens the pool (internal/database) and the runner of migrations
-- (internal/migrate), and starts the server and the sweeper (internal/sweeper). A request passes
-- the host check (internal/httpapi/host.go), the wrappers that log it and recover from a panic
-- (internal/httpapi/middleware.go), the mux (internal/httpapi/server.go), which may choose the
-- frontend's files (internal/httpapi/static.go), and, on the routes that are limited, the rate
-- limiter (internal/httpapi/ratelimit.go), which asks a limiter (internal/ratelimit) under the key
-- of the client (internal/httpapi/clientip.go). The handlers (internal/httpapi/clips.go, health.go)
-- call the clip service (internal/clips/service.go), which validates the name (internal/slug), the
-- size and the lifetime (internal/clips/clips.go), reads its clock and calls a store: the table
-- behind the queries of internal/db (internal/clips/pgstore.go), or the one in memory
-- (internal/clips/fake). A sweeper deletes what has expired.
--
-- The modules:
--   Base, with Tests, Lists, Ints, Strings, Results, Map: what the others share. Strings are lists of
--     bytes; a Go map is an association list, and the order of a `range` over it is an argument, a list
--     that visits the same entries (Map.Visits). int64 arithmetic is Ints.wrap64.
--   Clock: instants and durations of package time, in nanoseconds; Sub saturates.
--   Slug: Validate, IsReserved; Slug.Rules says which names are accepted.
--   Clips: Clip, the errors, the presets, TTLFromSeconds and ResolveTTL; Clips.Ttl has their laws.
--   Clips.Store: the interface `store` of service.go as a record of operations, and the contract
--     IsStore that its clients rely on.
--   Clips.Fake (fake/store.go: ClaimClip, GetLiveClip, DeleteExpiredClips, SlugIsLive), with Sweep for
--     the deletion and Contract for IsStore.
--   Db: the statements of db/queries/clips.sql as functions of a table (internal/db/clips.sql.go), and
--     the interface Querier; Db.Queries (New, WithTx and the generated methods) over any connection.
--   Clips.Postgres (PGStore's methods over any Querier), with Errors and Contract.
--   Clips.Service: Create, Read, Availability and DeleteExpired over any store; Create, Reading and
--     Agreement below it are about any store that keeps IsStore, Texts about one that fails for what is
--     no text (IsTextStore).
--   RateLimit: MemoryLimiter with Allow and makeRoom; Retry is about refusals, Room about eviction,
--     Capacity about the cap on keys, Quota about the calls within a window.
--   Http: responses, writeJSON and writeError; Http.Clips (CreateClip, GetClip, GetClipAvailability,
--     writeClipError) with Replies; Http.Health (buildHealthResponse, healthHTTPStatus) with Contract;
--     Http.ClientIp (ClientIP and its helpers) with Split and Keys; Http.Limiting (RateLimit) with
--     Refusals; Http.Host (requireHost, hostMatches); Http.Server (clipRoutes, healthRoutes, the
--     patterns and the map of allowed methods in NewServer, and the handlers on what they share) with
--     Allowed, Stores, Tables, Methods and Routes; Http.Mux (the choice of http.ServeMux) with Depth and Natural;
--     Http.Writer (http.ResponseWriter) with Sent; Http.Middleware (RequestLogging, PanicRecovery,
--     Chain) with Logged; Http.Static (spaFileServer, fileExists, serveFile) with Clean and Served;
--     Http.App (NewServer's mux and Handler put together) with Answers, Postings, History,
--     Parallel and Agreement.
--   Config (LoadFromEnv and its helpers) with Bounds; Sweeper (Run and sweep, on the events that the
--     loop receives) with Reads and Ends.
--   Migrate (Up, Down, PrintStatus, CheckPending, NewRunner) with Provided and Reported; Database (NewPool,
--     Probe, VerifyConnectivity); Command (main, runServe, runMigrate and what they call) with Balanced, Exits,
--     Lifecycle, Wiring, Limits and Origin.
--   Json: JSON values, and Json.Schema, what it is to conform to a schema. Openapi: the JSON of
--     the responses; Openapi.Document (docs/api/openapi.yaml) with
--     Declared, Answers, Served, Dispatched and Runs, the handlers against it; Openapi.Decode (the
--     decoding of a body in CreateClip) with Typed, Conforming, Lookup, Documented, Accepted and Exchange;
--     Openapi.Generated (the enumerations, ServerInterfaceWrapper and HandlerWithOptions of
--     openapi.gen.go) with Routes, Agreement and Lifetimes.
--   The modules whose name ends in Tests run the definitions.
--
-- State and time. A method that changes a store, a table or a limiter is a function from the state
-- to a result and the new state. The methods of the store in memory and of the limiter hold a mutex
-- from start to end, and a statement of the database is atomic, so concurrent calls are calls in
-- some order. What a clock shows is an argument of each call: the service's clock and the store's
-- clock are separate, as they are in production. An error is a value, with the constructors of the
-- errors that the program names and one for all that a driver may report.
--
-- Every loop goes over a list and is structural recursion, but for Sweeper.loop, which runs on an
-- endless sequence of events with fuel for its turns; more than the number of the event that ends
-- the context is enough. Lengths and counts are natural numbers; where the source computes in int64
-- (a lifetime in nanoseconds, the rest of a window) the wrap-around is written out.
--
-- Parameters. What the parsers of the standard library make of a variable's text (Config.Parsers),
-- what the scanner of JSON reads in a request body and how it folds a name (Openapi.Decode; the
-- handlers are over any decoder), how an instant is printed and which texts are date-times
-- (Openapi), what runtime binds a slug to (Openapi.Generated), what the probes of the health report
-- return, and what the code calls of net, strings and strconv for addresses and host names
-- (Http.ClientIp.Net) are arguments, as are the frontend's file system and http.ServeContent
-- (Http.Static) and the answer of a mux that redirects (Http.App.Settings), goose's provider
-- (Migrate.Provider) and what the command meets of its surroundings (Command.World); a theorem that
-- relies on their documented behaviour says so in a hypothesis. The precision to which the database
-- holds an instant is a function that loses less than a microsecond.
--
-- Choices. The location of an instant (UTC()) is not part of an instant. The pattern of a slug is
-- its test byte by byte, with the length that Validate has tested before. Duration.Seconds is exact,
-- where the source rounds to float64. Headers hold the number or the list that the source prints.
--
-- A response is compared with the document by its status, its content type, the header that the
-- document names and the JSON of its body; an object that conforms to a schema has no members but
-- the named ones, which is more than the document asks. Which byte strings PostgreSQL takes for
-- a text is a parameter of the statements; the theorems over a store that never fails (IsStore) are about
-- names and bodies that are texts, and Clips.Service.Texts says what becomes of the others.
--
-- What an endpoint logs of its errors is left out; the log of a request is that of the wrappers.
--
-- Not modelled: the calls of pgx, goose, the runtime of oapi-codegen and net/http below what is said
-- above; the examples, the descriptions and the limits of lengths in docs/api/openapi.yaml; the
-- timeouts of the HTTP server; the web frontend and the deployment files, which are in other
-- languages.
pub mod Http
pub mod Config
pub mod Sweeper
pub mod Base
pub mod Slug
pub mod Clock
pub mod Db
pub mod Clips
pub mod RateLimit
pub mod Migrate
pub mod Database
pub mod Command
pub mod Json
pub mod Openapi
