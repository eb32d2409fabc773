-- ===== src/Lib.antt =====
-- A verification library for the Python service under app/: what its authentication, its users, its
-- middleware and its error answers do, as functions, and theorems about them.
--
-- The parts of the program and the modules that model them:
-- - Shared: the package app/shared. `Errors` has the application errors as records with their class
--   as a field, and the exceptions of Python that the program meets; `ProblemDetails` the documents
--   that answer them; `Values` the values of Python dictionaries; `Types` identifiers, times, the
--   clock and Python's `uuid`.
-- - Action: a method that changes a state and may raise is a function from a state to an outcome
--   and a state, with `do` blocks; what was written before an exception stays written. `Rules` are
--   the rules by which such methods are reasoned about.
-- - Database: the tables, the open session and what is committed, with the constraints that
--   app/auth/persistence.py, app/users/persistence.py and the migrations declare. A flush checks
--   the unique indexes, the lengths and the foreign key of the user, a commit the deferred foreign
--   key of `replaced_by`; a refused statement rolls the transaction back. `Steps` runs methods on
--   known tables.
-- - Auth: app/auth. `Domain`, `Ports`, `Persistence`, `Service`, `Api` and `Deps` are the files of
--   these names (`Deps` with policies.py), `JwtSigner` and `Argon2Hasher` those of
--   app/auth/adapters. `Invariant` is about what the tables always satisfy, `Atomic` about methods
--   that raise, `Login` and `Registration` about logging in, `AccessTokens` about the tokens that a
--   login gives, `RefusedTokens` about tokens that PyJWT does not decode, `Rotation` about the
--   rotation of refresh tokens and about their reuse, and `Sessions` has the state machine of the
--   refresh tokens, of which every request is a step at most.
-- - Users: app/users, in a session of its own for each request; `Access` is about whose profile is
--   answered, `Lost` about what becomes of it.
-- - Http, Observability, Api, Main: requests and responses, app/observability, app/api and the
--   stack of middleware of app/main/app_factory.py.
-- - Infrastructure: `RateLimit`, `Idempotency`, `HttpClient` and `Storage` are
--   app/infrastructure/rate_limit/redis.py, idempotency/redis.py, http/client.py and
--   storage/local.py.
-- - Core: app/core. `Config` and `Settings` are config/settings.py, `Wiring` the package wiring,
--   and `Lifespan` is lifespan.py with the container: start-up, the readiness flag and shutdown.
-- - Migrations: alembic/versions, the three migrations up and down.
-- - Prelude: names of the libraries, lists measured by native numbers, texts, integers. Tests: the
--   theorems at concrete inputs.
--
-- The parts meet here: the service of app/auth takes the ports `PasswordHasher` and `TokenSigner`,
-- which the adapters fill (`Core.Wiring` makes them of the settings), and `Registration`,
-- `AccessTokens` and `RefusedTokens` are about the service with these adapters.
-- `Core.Wiring.Loaded` is about the client of `HttpClient` under the settings of `Settings`,
-- `Core.Lifespan.Serving` about what the endpoints of `Observability.Health` answer with the probes
-- that start-up registers.
--
-- The clock, random identifiers, salts, signatures and hashes are parameters: functions of the
-- number of the question, so that every answer may differ from all others. Identifiers of type
-- `UUID` are numbers, times are microseconds, and numbers have no bound, as in Python. Fuel is
-- given where a text is written or a file is read in chunks, as much as the number or the file has
-- units; each round takes one at least. Other code loops over a list only.
--
-- Parameters stand for the code outside the repository: the ports of app/auth/ports.py are taken
-- with no hypothesis at all, as are the functions of PyJWT; argon2-cffi with the law that a hash
-- verifies its password; Starlette with the laws that its documentation gives for exceptions; Redis
-- with those of the commands that `Idempotency` sends; the doubles of Lua with laws of IEEE 754 on
-- whole numbers and times; tenacity with its documented loop, httpx with none; the file system
-- with what pathlib documents; pydantic with three laws on texts and lists; Alembic with what its
-- operations do to a schema where PostgreSQL accepts them. What the libraries of `Core.Wiring` make
-- or raise is open.
--
-- Not modelled: concurrent transactions, the configuration of logging, tracing and metrics, the
-- providers of app/core/di.py, alembic/env.py, and app/infrastructure/redis/cache.py, each method
-- of which passes one command on. Times of the HTTP client between attempts, and settings that are
-- given to `AppSettings` in place of the environment, are left out. So are a few things that
-- PostgreSQL and Starlette do: an email with a NUL, at which a query raises, and a text whose
-- characters beyond the limit are all spaces, which are cut off; and that the exception behind an
-- unexpected error is raised again for the server once it is answered.
pub mod Prelude
pub mod Shared
pub mod Action
pub mod Database
pub mod Auth
pub mod Http
pub mod Observability
pub mod Api
pub mod Main
pub mod Users
mod Tests
pub mod Infrastructure
pub mod Core
pub mod Migrations
