-- ===== src/Lib.antt =====
-- The agent-events server (server/): agents create, read, change and delete events for the users
-- that they belong to.
--
-- Its parts and the files that model them:
--   Prelude, Text, Time, Encoding   lists, integers, and what the server uses of the Go library
--   Apperr      server/pkg/apperr/apperr.go
--   Domain      server/internal/core/domain
--   Port        server/internal/core/port; Port/Laws and Port/Accounts say what a client relies on
--   Usecase     server/internal/core/usecase: event.go is Usecase/Event, auth.go is Usecase/Auth
--   Postgres    server/internal/adapters/postgres: the tables, the statements, the repositories
--   Memory      server/internal/adapters/memory/rate_limiter.go
--   Oidc        server/internal/adapters/oidc: which identity a token stands for
--   Zap         server/internal/adapters/logger/zap_adapter.go
--   Config      server/pkg/config/config.go
--   Http        server/internal/transport/http: the bodies, the handlers, the middleware, the routes,
--               and Http/Controller the line of the log for each request
--   World       the state of the running server
--   Server      server/cmd/api/main.go: how the parts are put together; Server/Start is what they
--               take from the configuration, Server/Cleanup the loop that removes expired tokens,
--               Server/Steps the running server as a sequence of requests and removals
--   Tests       a small server on which the theorems are applied
--
-- A Go function that may fail is an `App W A` (Exec): from a state to a value or an error and a new
-- state. A use case is a function of the record of its ports, over any state `W`; the adapters work
-- on `World`. Port/Laws and Port/Accounts say what a use case relies on of its ports, as records of
-- laws about what the store shows of events and accounts; the files below Postgres/Events and
-- Postgres/Accounts fill them for the PostgreSQL repositories, World and Server for the rest.
-- The contract of a method (Usecase/*/Outcome, AgentOutcome) relates what the store shows before and
-- after a call to the result. Its errors that come from a port are those of the types in
-- Usecase/*/Fails and AgentFails: they name the call that has failed, and what the calls before it
-- returned.
--
-- The parameters are an `Engine` (which texts PostgreSQL reads as UUIDs, and to what instant it
-- rounds a time), a `Net` (the parsing of addresses and networks of the package net), a `Codec`
-- (JSON, the validator, the parsing of UUIDs), SHA-256, the packages go-oidc (Library), zap
-- (ZapLibrary), and viper with the environment (Settings), and in `World` the
-- answers of the clock, of the sources of UUIDs and random bytes, of the order in which Go ranges
-- over a map, and the statements that fail, because the connection does or because PostgreSQL
-- refuses a text that is no valid UTF-8.
--
-- Durations, times and counts are integers; the count of a bucket, the start of its window and the
-- configured lifetime of tokens wrap at 64 bits, and a difference of times saturates as in Go. Each
-- call of a repository is one step,
-- and a transaction of which the commit fails is undone: two requests at once are not modelled, nor
-- a request that is cancelled. Loops are over lists, so no fuel is used.
--
-- Not modelled: opening the pool and the migrations, the start and the end of the server with the
-- hooks of fx, and the middleware of the chi package, which are calls of other packages; the
-- handle of sqlc, which is generated.
pub mod Prelude
pub mod Time
pub mod Text
pub mod Apperr
pub mod Exec
pub mod Encoding
pub mod Domain
pub mod Port
pub mod Usecase
pub mod Postgres
pub mod Memory
pub mod World
pub mod Http
pub mod Config
pub mod Oidc
pub mod Zap
pub mod Server
mod Tests
