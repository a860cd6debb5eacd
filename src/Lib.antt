-- ===== src/Lib.antt =====
-- Holvit's backend: an identity provider whose login flow, tokens and SQL queries are modelled here
-- as they are written in Go, with panics and errors as values and state passed explicitly.
--
-- The parts and the files:
--   Go: statements that change a state and may panic; options, results and HTTP errors
--     (h/optional.go, h/result.go, httpErrors/httpErrors.go).
--   Sqlb: the query builder (sqlb). Syntax has the stored values, Writer and Build the `build`
--     methods of raw and select queries, Query the `Build` methods; Fragment, Select, Insert, Update,
--     Delete and With have the methods that make queries. Arguments reads off a query what it binds,
--     with no builder, and Numbering proves that building does just this. Insert/Exclusive is about
--     sequences of method calls.
--   Filter: the results of the repositories' queries (repos/BaseFilter.go).
--   Tokens: the codes in Redis (services/TokenService.go). Store is the interface of Redis and of
--     JSON, Service the operations, Lifecycle their laws.
--   Hashing: the validation of passwords (utils/hashing.go).
--   Ip: addresses of clients (utils/ip.go).
--   Auth: the login flow (handlers/auth) with the parts of services/UserService.go,
--     services/DeviceService.go and services/SessionService.go that it calls. Env is the interface to
--     the database, to libraries and to the token service; Services, Steps and Handlers are the code;
--     NextStep, Guards, Password, Devices and Finish are what is proved of it.
--   RequestContext: the transaction of a request and its answer (requestContext, middlewares), and
--     in Commit what becomes of the database.
--   Oidc: authorization and the token endpoints (services/OidcService.go, services/ClientService.go,
--     services/RefreshTokenService.go). Env is the interface, Clients, RefreshTokens, Grants and
--     Authorize are the code, Checks is about which requests get tokens and Codes about codes.
--   Repos: the repositories (repos), clients of the query builder. Database has the answers and errors
--     of PostgreSQL and the statements, Filters the paging and sorting, Rows the scanning of rows;
--     then each repository has a file of its name. Users/Search and Users/Text are about the search
--     for users, RoleImplications/Scan about the rows of implications.
--   Sqlb/Text: the text of a query that is built without looking at the values it binds.
--   Roles: the roles and what they imply (services/RoleService.go). Cache is the search, Service the
--     operations, Closure, its child Caches and
--     Recalculate are about the search and the relation of implication.
--   Jobs: queued jobs (services/JobService.go). Table is a table with one job as a database answers for
--     it, Lifecycle follows the row of the job, and Runs is about the runs of executeQueuedJobs.
--   Sessions: the session of a request (services/SessionService.go,
--     services/CurrentSessionService.go); Lookup is about which sessions are found.
--   Claims, Realms: the claims of a user and the making of a realm (services/ClaimsService.go,
--     services/RealmService.go).
--   Oidc/Endpoints: the handlers of authorization and tokens (handlers/oidc/oidc.go), and in Granting
--     the one by which a user grants scopes (handlers/auth/AuthorizeGrant.go).
--   Oidc/Registration: the making of clients (services/ClientService.go); Secrets is about their
--     secrets.
--   Accounts: new users, second factors and the mail that verifies a device (services/UserService.go,
--     services/DeviceService.go).
--   Api: the interface of the administration (handlers/api). Query has what is read off a request,
--     Endpoints the handlers, Lists what they answer.
--   Ioc: the dependency provider (ioc/ioc.go), with its builder in Builder; Lifetimes is about its
--     instances.
--   Tests: a concrete world, runs at it, and the theorems at concrete inputs.
--
-- How they interact: a handler is a computation on a request, which holds the world, the errors
-- recorded so far and the answer. It calls services, which are computations on the world; these read
-- the database's rows and write to it through the interface of Auth/Env, and keep a login between
-- requests under its code in the token service.
--
-- Bounds and fuel: `getNextStep` calls itself; the model has fuel, the handlers give five, and five
-- tries are proved enough. The decimal digits of a placeholder's number are made with the number
-- plus one as fuel, one step a digit. The search for implied roles has no bound in the code; its fuel
-- is the stack, it is enough where it is above the length of every chain of implications, and
-- running out is a panic. The fuel of the dependency provider is the depth to which providers ask
-- for others. Identifiers are numbers and times are seconds.
--
-- Not modelled: a failing Redis server and keys that expire between two commands, a failing source
-- of random bytes, the aliasing of a query that is changed after it was made a part of another,
-- HTTP headers and the format of answers, start and configuration of the program, the frontend,
-- the sending of mail and the schedule of jobs, and the keys of realms. What the database answers
-- is a parameter of the repositories; only Jobs/Table, Oidc/Registration/Secrets and the environments
-- of services suppose what a statement or a query finds. A run of jobs in which the sending of a mail
-- panics is modelled, and Jobs/Runs does not follow it. The login flow has an interface of its own to
-- the database, which is not derived from the repositories.
mod Prelude
pub mod Go
pub mod Sqlb
pub mod Filter
pub mod Tokens
pub mod Hashing
pub mod Ip
pub mod Api
pub mod Accounts
pub mod Auth
pub mod RequestContext
pub mod Oidc
pub mod Repos
pub mod Roles
pub mod Jobs
pub mod Sessions
pub mod Claims
pub mod Ioc
pub mod Realms
pub mod Tests
