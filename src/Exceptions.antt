-- ===== src/Exceptions.antt =====
-- The exceptions that the program raises or lets through, without their messages:
-- app/core/security.py, app/services/http_service.py, tcp_service.py and dns_service.py,
-- app/api/admin_users.py and history.py, and those of Python and of its libraries.
use network_diagnostic_tool.Common.{Result}

pub data Exception : Type 0 where
  -- app/core/security.py
  target_not_allowed validation_error : Exception
  -- the services
  dns_failed tls_or_transport too_many_redirects domain_not_found no_records : Exception
  -- Python's own; `value_error` is also the password policy's
  value_error timeout_error connection_refused os_error recursion_error : Exception
  -- asyncpg: a unique column would hold a value twice, or the database cannot be reached
  unique_violation database_error : Exception
  -- `HTTPException` of app/api/admin_users.py and history.py, by its code
  user_not_found last_admin_protected username_already_exists : Exception
  database_unavailable diagnostic_not_found : Exception
  -- any other exception of a library
  other_error : Exception
  -- the model's own mark that a loop used up its bound; no code raises it
  out_of_fuel : Exception

abbrev pub Raises : Type 0 → Type 0
Raises A = Result Exception A
