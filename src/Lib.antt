-- ===== src/Lib.antt =====
-- ComicsHub: search in the comics of xkcd.
--
-- The program is a set of Go services under search-services/ that talk over gRPC behind an HTTP
-- gateway. `update` fetches comics from xkcd.com, has their texts normalised by `words` and keeps
-- them in a table; `search` answers queries from that table and from an inverted index that it
-- builds of it; `favorites` keeps pairs of a user and a comic; `auth` registers users and gives out
-- tokens; `api` is the gateway. The modules and what they model:
--
--   Base       the native numbers and lists, signed integers with Go's conversions, finite maps,
--              results with errors, sorting, and the parts of `strings` and `strconv` that are used
--   Search     search-services/search: core/index.go (Index), core/service.go (Rank for makeSet,
--              scoreComic and rangComics, Service for the methods), adapters/db (Storage),
--              adapters/grpc (Server), adapters/words (WordsClient), adapters/broker and
--              adapters/initiator (Refresh, when the index is rebuilt); Unordered has the table as
--              a quotient that forgets the order of the rows
--   Update     search-services/update: core/service.go (Service for what one worker does and the
--              short methods, Planned for what Update finds out first, Run for the worker pool,
--              Calls for the flag `running`, Whole for a call of Update from its test of the flag
--              to its return, Keys for the primary key, Kept for the rows after any call, Schedules for two calls on one table),
--              adapters/db (Storage), adapters/grpc (Server), adapters/broker (Publisher),
--              adapters/xkcd (Xkcd), adapters/words (WordsClient) and run of main.go (Main)
--   Favorites  search-services/favorites: core and adapters/grpc (Service), adapters/db (Storage);
--              Rows has the abstract set of pairs, History any sequence of calls
--   Auth       search-services/auth: core/service.go (Email for the regular expression, Service),
--              adapters/db (Storage; Telegram has UpsertTelegramUser statement by statement),
--              adapters/grpc (Server) and run of main.go (Main); Bot has two logins of one user
--   Words      search-services/words: words/words.go, words/set.go and the handler of main.go
--              (Service); a text is the list of its code points there, and a String elsewhere,
--              where Server translates between the two
--   Api        search-services/api: core (Model), adapters (Clients), adapters/rest (Http,
--              Handlers, Middleware with Limits and Slots for limits.go), and of main.go the
--              routes (Routes, over Mux for http.ServeMux), both servers (Server) and how they end (Life)
--   Gateway    the handlers joined with the clients, servers and storages behind them: Access,
--              Paths, Pages and Served for the servers of main.go, Session for a user from the
--              registration on, Admin for the superuser, Bot for a Telegram user
--   Pipeline   the table of comics from the site to a response: what update writes, search reads;
--              OwnTitle for a search, Served for a request to the public server, Schedules for what
--              the workers of an update cannot change
--   Tests      the theorems at concrete inputs
--
-- A method takes the state of what it changes and returns it with a Result, whose `err` is a
-- sentinel of the package, a gRPC status or another failure. A map of Go is an association list, a
-- set the list of its keys. `int` is a signed integer without bounds, except where the program
-- converts it: uint32 and int32 wrap as in Go; and the column of a comic's id is an INT, so a
-- statement with an id outside of 32 bits fails. The worker pool is a relation between states, one
-- step for what a goroutine does between two points where it can wait; a run is any sequence of
-- steps, so a theorem on runs holds for every schedule. The flag of the update service, the slots
-- of the gateway, its two servers beside main, and the two goroutines that rebuild the index are such
-- relations, too. No definition runs on fuel, except the digits of a number, of which a uint32 has at
-- most ten and a 64-bit int at most twenty; loops are recursions on lists, and runs are bounded by a measure.
--
-- Parameters stand for what is not in the repository: PostgreSQL answers a statement or fails as a
-- whole, a statement with a context that is done fails, and transactions run alone, except in
-- Auth.Telegram; http.Client is a function from URLs to
-- replies, and a body is what the decoder of JSON makes of it; the stemmer and the stop words are
-- functions; bcrypt accepts the password of a hash, and the JWT library accepts a token under its
-- secret until it expires and reads it as what was signed; rand.Intn is a function; the clock, and
-- whether the rate limiter lets a request pass, come with a request. A network delivers every call
-- and reply.
--
-- Not modelled: flags, the reading of configuration files, dialling, the level of the log, the
-- start-up of the gateway, of search, favorites and words, and the shutting down of the services
-- behind the gateway, which hold no logic of the program; logs and timeouts; generated code; the bot, which is a program of its own;
-- the tests.
pub mod Base
pub mod Search
pub mod Update
pub mod Favorites
pub mod Api
pub mod Auth
pub mod Words
pub mod Gateway
pub mod Pipeline
pub mod Tests
