-- ===== src/Lib.antt =====
-- keypooler keeps provider API keys in a pool, serves them to consumers within rate limits, usage limits and
-- budgets, and writes what was used back to Postgres behind the requests.
--
-- The parts, and the files that model them:
--   Time, Time/Calendar   what is used of Go's package time, with AddDate and Date by months
--   Float64               float64 as far as values are compared
--   Json                  the metadata values, which only pass through
--   Crypto                internal/crypto/sealer.go (Seal is `seal`, Open is `open_sealed`); Crypto/Hex is encoding/hex
--   Strconv               strconv.Atoi, as internal/db/migrations.go and internal/api/handlers.go use it
--   Db                    the rows of internal/db/adapter.go
--   Db/Adapter            its interface DBAdapter
--   Db/Store              the tables of migrations/*.sql, and the statements of internal/db/postgres_keys.go (Tiers, Keys),
--                         internal/db/postgres_consumers.go (Consumers) and DeleteTier, as functions on them;
--                         Implementation puts them behind DBAdapter, Callers and References are about what the
--                         schema checks, Features about the features of a tier, Created about a new key that is read back,
--                         Counting about the usage columns
--   Db/Postgres           AddUsage and ResetUsageWindow of internal/db/postgres_keys.go, on the usage columns alone
--   Db/Postgres/Spend     UpdateKeyBudget and RecordSpend of internal/db/postgres_budget.go, over the tables
--                         `keys` and `spend_events`
--   Db/Migrations         internal/db/migrations.go, over any scripts
--   Writeback             internal/writeback/writer.go: Refinement has its flushes in rounds, each of which ends in one of
--                         three ways, Repeats and Within compare them with counting at once, Flush is about a
--                         whole flush, Events about the queue of events
--   Keypool/Budget        internal/keypool/budget.go
--   Keypool/Types         internal/keypool/types.go, and the methods of PoolKey of budget.go
--   Keypool/Manager       GetKeyForFeature and KeyByID of internal/keypool/manager.go
--   Keypool/Reload        ReloadKeys, featureLimits and openSecrets of manager.go
--   Keypool/Upkeep        the other methods of Manager, of manager.go and balance.go
--   Balance               internal/balance/sync.go, over any providers; Balance/Providers is internal/balance/providers.go
--   Config                internal/config/config.go
--   Api/Auth              internal/api/middleware.go and internal/api/authcache.go
--   Api/Server            the server of internal/api/handlers.go, and the answers of internal/api/responses.go;
--                         Rejection is about the callers that it turns away
--   Api/Draws             GetKey, GetKeyByID, ExhaustKey and the checks of health
--   Api/Budgets           internal/api/budget.go
--   Api/Keys              AddKey, ListKeys and DeleteKey of internal/api/keys.go
--   Api/Tiers             internal/api/tiers.go
--   Api/Consumers         internal/api/consumers.go, with parseLimit
--   Api/Router            internal/api/router.go: Keeps and Cache are about the cache of callers, Reach about any
--                         requests in a row, Guard about callers that nobody knows
--   Api/Revocation        the server on the store
--   Examples              the theorems at concrete inputs, and runs of the model
-- A draw goes through the manager to the methods of a key, and what it consumed goes to the writer; the writer
-- flushes to the database, whose rows a reload loads into the keys again.
--
-- State is passed along: an operation takes a record (Manager, PoolKey, Writer) and returns the new one. A mutex
-- makes a method of PoolKey or Writer one step; a method of Manager is modelled as running alone. A pointer
-- to a key is its position in the pool, which stays under the manager's lock. A call reads the clock
-- several times: its readings are a function from their number, and none of them is assumed to be later than another.
--
-- Numbers: instants are nanoseconds from Go's zero Time, so nothing before the year 1 is modelled; a Duration is
-- an int64 and wraps where the program multiplies seconds; counters that go up by one are naturals, and other
-- ints are integers without a bound. The round-robin counter wraps at 2 ^ 64. A
-- TIMESTAMPTZ column keeps the microseconds of an instant. A float64 is its rank in the order
-- of the doubles, and arithmetic on it is a parameter. Strings that are sealed are lists of bytes.
--
-- Loops are structural. The drawing loop of GetKeyForFeature runs on the number of candidates as fuel, which is enough
-- because each refused attempt removes one; the month of a day is searched with one more than the day's
-- number as fuel, since each month takes 28 days or more.
--
-- A request with a bearer token is resolved to a caller, from a cache that every admin write empties. A handler is a
-- function from the server to the server after it and an answer, or the status of an error; what it changed before an
-- error stays changed. Two requests follow one another: a lookup that runs between a write and the emptying of
-- the cache is not modelled, and neither is the interleaving of two calls on the manager.
--
-- The handlers are over any database behind DBAdapter, a record of operations on a state: a read gives none where it
-- fails, a write gives the state after it and its error. The store of Db/Store fills the record; its statements say what
-- the schema checks, and a transaction ends in one of three ways: it works, nothing of it stays, or it is committed and the
-- answer is lost. The order of text columns is a parameter, and rows with equal sort columns keep their order.
--
-- AES-GCM, SHA-256, the random source, encoding/json, RFC 3339 and the matching of paths by net/http are parameters or
-- stand before the model: a handler takes the decoded body. Not modelled: the messages of errors, the HTTP calls of the balance
-- providers, the ticker loops, logging, and the wiring of cmd/keypooler/main.go.
pub mod Base
pub mod Time
pub mod Float64
pub mod Json
pub mod Strconv
pub mod Crypto
pub mod Db
pub mod Writeback
pub mod Keypool
pub mod Balance
pub mod Config
pub mod Api
pub mod Examples
