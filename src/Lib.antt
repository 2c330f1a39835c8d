-- ===== src/Lib.antt =====
-- Verification of the network diagnostic tool, a FastAPI service that looks up names, tries TCP ports
-- and makes HTTP requests for its users, and that must not let them reach hosts they may not reach.
--
-- Parts, and the files that model them:
-- - app/core/config.py, `Settings`: Settings.antt. The settings are an argument of all that reads them.
-- - app/core/security.py, the target policy (`is_blocked_ip`, `validate_domain`, `validate_host`,
--   `validate_url`, `assert_port_allowed`, `assert_domain_allowlisted`): Security/Address.antt,
--   Security/Domain.antt, Security/Port.antt and Security/Allowlist.antt, with what is proved of the
--   texts in Security/Chars.antt and Security/Url.antt.
-- - app/core/security.py, `RateLimiter`: RateLimiter/Defs.antt, with a specification that forgets
--   nothing. The windows of the limiter are an association list.
-- - app/services/http_service.py, `_resolve_and_validate` and `perform_http_check`:
--   HttpService/Defs.antt, over the policy. One round of the loop is `round`.
-- - app/services/tcp_service.py, `perform_port_check`: TcpService/Defs.antt, over the policy.
-- - app/core/auth.py: Accounts/Credentials.antt.
-- - app/services/auth_service.py: Accounts/Events.antt (`add_auth_event`, transactions),
--   Accounts/Login.antt (`authenticate`), Accounts/Sessions.antt (`resolve_session`, `csrf_matches`,
--   `revoke_session`) and Accounts/Change.antt (`change_password`), over the tables of
--   Accounts/Tables.antt.
-- - app/core/auth_deps.py: Guards/Defs.antt, over `resolve_session` and `csrf_matches`.
-- - app/core/deps.py: Guards/ClientIp.antt, over the rate limiter.
-- - app/api/admin_users.py, the routes that write: AdminUsers/Defs.antt, over the tables. The
--   list of users, with the query that it builds: AdminUsers/Listing.antt.
-- - app/api/auth.py: SessionRoutes/Defs.antt, over the guards and app/services/auth_service.py; the
--   cookies of an answer are part of it. Lifecycle/Defs.antt runs any sequence of the operations on
--   the accounts.
-- - app/services/dns_service.py: Dns/Defs.antt.
-- - app/services/persistence.py: Diagnostics/Rows.antt, Diagnostics/Persistence.antt and
--   Diagnostics/History.antt (`list_diagnostics`, `get_diagnostic`, with app/api/history.py).
-- - app/api/http_check.py, port_check.py and dns_lookup.py: Diagnostics/Routes.antt, over the services
--   and `persist_diagnostic`. app/schemas/response.py: Responses.antt.
-- - app/main.py, the middleware, the exception handlers and the pages: Application/Middleware.antt.
--   app/services/audit.py: Application/Audit.antt.
-- - app/cli.py, `create_admin`: CommandLine/Defs.antt.
-- - app/schemas/request.py and auth.py, the bounds and the validators: Requests.antt.
-- - app/api/client_info.py, with `get_request_id` of app/core/logging.py: ClientInfo.antt.
-- - app/db/migrations.py: Migrations.antt. What a script does to the tables is a parameter.
-- Common.antt passes on what they share, and Exceptions.antt lists the exceptions.
--
-- State and effects. A table is the list of its rows, and a query is a function of it; `World` holds
-- the tables and the log. A function that changes state takes the state and returns it beside its
-- result. A function that may raise returns a value or an exception, without its message.
-- `transaction` runs a body and puts the tables back where the body raises; the log keeps its lines.
-- One transaction runs at a time, as the row locks of the source have it for one user. The clock's
-- readings, the random tokens, the new ids and the salts are arguments. So is the order in which
-- PostgreSQL meets the rows of the list of diagnostics (`scan`), which decides among runs of one
-- time.
--
-- Parameters. `Web`, `Net`, `Resolver`, `Crypto`, `Outside` and `Matching` stand for ipaddress, IDNA,
-- urllib.parse, httpx, the sockets, dnspython, PostgreSQL's `LIKE` and whether it takes a row,
-- argon2, hashlib, hmac and the methods of `str` that read Unicode's tables. The answers of the
-- network carry the number of the hop, so that a name may resolve differently from one hop to the
-- next. The hypotheses on them are `MappedIsPlain`, that the IPv4 address that an IPv6 address maps
-- is not itself an address that maps another, `IsScan`, that a query meets no rows but those it is
-- given, and, for the first login, that Argon2 accepts what it has hashed.
--
-- Bounds and fuel. Numbers are unbounded, as Python's are. A text is a list of code points. A time is
-- a number of microseconds in the tables, of nanoseconds at the monotonic clock. The redirect loop
-- runs on fuel of one more than the setting `max_redirects`; more fuel gives the same result. The
-- address check recurses on the mapped address down to Python's recursion limit of 1000; two steps
-- are enough where `MappedIsPlain` holds.
--
-- Not modelled. Of the accounts' database, a statement or a commit that fails for another reason than
-- a unique column or a database that is not enabled: what is proved of a transaction is proved of
-- those that PostgreSQL carries out, and the log lines that such a failure leaves behind a
-- transaction that is rolled back are not seen. The order that PostgreSQL takes among the users of
-- one time in the list of users, where the model has one fixed order. That httpx resolves the name
-- once more when it connects, so that the addresses looked at need not be the one connected to; the
-- two rounds of hashing that an unknown user's login computes and drops; the messages of TCP results
-- and the timestamps of the answers; the semaphore around a check; app/db/session.py, which is
-- asyncpg's pool; app/core/logging.py, the format of the lines; the assembly of the application. The
-- rows carry the dates up to which they are kept, and no code of app/ deletes them.
mod Common
pub mod Exceptions
pub mod Settings
pub mod RateLimiter
pub mod Security
pub mod HttpService
pub mod TcpService
pub mod Dns
pub mod Accounts
pub mod Guards
pub mod Responses
pub mod Diagnostics
pub mod AdminUsers
pub mod Lifecycle
pub mod SessionRoutes
pub mod Application
pub mod CommandLine
pub mod Requests
pub mod ClientInfo
pub mod Migrations
