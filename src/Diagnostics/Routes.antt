-- ===== src/Diagnostics/Routes.antt =====
-- app/api/http_check.py, port_check.py and dns_lookup.py: the handlers. The semaphore around a check
-- is left out. The messages of the answers are an argument.
use network_diagnostic_tool.Common.{
  ℕ, Bool, true, false, Option, none, some, [], Text, text, ok, raised, ◌>>=◌, ◌>>◌,
}
use network_diagnostic_tool.Exceptions.{
  Exception, Raises, target_not_allowed, validation_error, dns_failed, tls_or_transport,
  too_many_redirects, domain_not_found, no_records, timeout_error, connection_refused,
}
use network_diagnostic_tool.Settings.{Settings}
use network_diagnostic_tool.Responses.{Response, success_response, error_response}
use network_diagnostic_tool.Security.Domain.{validate_domain, validate_host}
use network_diagnostic_tool.Security.Port.{assert_port_allowed}
use network_diagnostic_tool.HttpService.Defs.{Web, HttpCheck, HttpCheckResult, perform_http_check}
use network_diagnostic_tool.TcpService.Defs.{Net, PortCheck, PortCheckResult, perform_port_check}
use network_diagnostic_tool.Dns.Defs.{Resolver, DnsLookupResult, perform_dns_lookup}
use network_diagnostic_tool.Accounts.Credentials.{Crypto}
use network_diagnostic_tool.Accounts.Login.{AuthContext}
use network_diagnostic_tool.Guards.ClientIp.{Peer}
use network_diagnostic_tool.Diagnostics.Rows.{
  HttpCheckRequest, PortCheckRequest, DnsLookupRequest, Details, http_details, tcp_details,
  dns_details, Store, state_name,
}
use network_diagnostic_tool.Diagnostics.Persistence.{Outside, Report, persist_diagnostic}

-- the code and the status of an answer
abbrev pub Failure : Type 0
Failure = Text × ℕ

abbrev pub internal_server_error : Failure
internal_server_error = (text "INTERNAL_SERVER_ERROR", 500)

-- the `except` clauses of the three handlers
unfoldable pub http_failure : Exception → Failure
http_failure validation_error = (text "VALIDATION_ERROR", 422)
http_failure target_not_allowed = (text "TARGET_NOT_ALLOWED", 403)
http_failure dns_failed = (text "DNS_RESOLUTION_FAILED", 400)
http_failure timeout_error = (text "CONNECTION_TIMEOUT", 200)
http_failure connection_refused = (text "CONNECTION_REFUSED", 200)
http_failure tls_or_transport = (text "TLS_ERROR", 200)
http_failure too_many_redirects = (text "TOO_MANY_REDIRECTS", 200)
http_failure _ = internal_server_error

unfoldable pub port_failure : Exception → Failure
port_failure validation_error = (text "VALIDATION_ERROR", 422)
port_failure target_not_allowed = (text "TARGET_NOT_ALLOWED", 403)
port_failure _ = internal_server_error

unfoldable pub dns_failure : Exception → Failure
dns_failure validation_error = (text "VALIDATION_ERROR", 422)
dns_failure domain_not_found = (text "DNS_RESOLUTION_FAILED", 400)
dns_failure timeout_error = (text "CONNECTION_TIMEOUT", 200)
dns_failure _ = internal_server_error

-- a request behind the guards: its state, and the readings of the clock, the durations as they are
-- computed where the check has ended and where it has failed
pub record DiagnosticCall : Type 0 where
  pub request_id : ℕ
  pub api_path : Text
  pub peer : Peer
  pub current_user : Option AuthContext
  pub started_at : ℕ
  pub completed_at : ℕ
  pub created_at : ℕ
  pub duration_ms : ℕ
  pub failure_ms : ℕ
  -- the clock around the connection or the lookup
  pub start : ℕ
  pub end : ℕ

-- `request.state.result_code`, and what is written
pub record Exchange : Type 0 where
  pub result_code : Option Text
  pub store : Store

abbrev pub Handled : Type 0 → Type 0
Handled D = Raises (Response D) × Exchange

module _ (o : Outside) (s : Settings) (x : Crypto) (message : Exception → Text)
    (c : DiagnosticCall) where
  -- the report on a check that has ended
  abbrev pub end_report : Bool → Text → Details → Report
  end_report success code details = record {
    request_id = c.request_id;
    api_path = c.api_path;
    peer = c.peer;
    current_user = c.current_user;
    success = success;
    result_code = code;
    api_status_code = 200;
    duration_ms = c.duration_ms;
    started_at = c.started_at;
    completed_at = c.completed_at;
    created_at = c.created_at;
    details = details;
    error_message = none;
  }

  abbrev pub failure_report : Failure → Text → Details → Report
  failure_report (code, status) said details = record {
    request_id = c.request_id;
    api_path = c.api_path;
    peer = c.peer;
    current_user = c.current_user;
    success = false;
    result_code = code;
    api_status_code = status;
    duration_ms = c.failure_ms;
    started_at = c.started_at;
    completed_at = c.completed_at;
    created_at = c.created_at;
    details = details;
    error_message = some said;
  }

  module _ {D : Type 0} where
    abbrev pub failed : Failure → Text → Response D
    failed (code, status) said = record {
      status_code = status;
      content = error_response code said c.request_id c.failure_ms;
    }

    abbrev pub succeeded : D → ℕ → Response D
    succeeded content duration_ms = record {
      status_code = 200;
      content = success_response content c.request_id duration_ms;
    }

    -- the answer behind `persist_diagnostic`, which may raise, with the code before and after it
    abbrev pub answered : Response D → Option Text → Option Text → Raises Unit × Store → Handled D
    answered response before after (ok tt, st) =
        (ok response, record { result_code = after; store = st })
    answered response before after (raised e, st) =
        (raised e, record { result_code = before; store = st })

    -- `failure`: the code is set, and the failure is recorded and answered
    unfoldable pub failure : Failure → Exception → Details → Store → Handled D
    failure (code, status) e details st =
        answered (failed (code, status) (message e)) (some code) (some code)
          (persist_diagnostic o s x (failure_report (code, status) (message e) details) st)

    -- what follows the check's own record
    unfoldable pub after_persist :
        (Exception → Failure) → Details → Text → D → Exchange → Raises Unit × Store → Handled D
    unfolding failure
    after_persist codes details code content ex (ok tt, st) =
        (ok (succeeded content c.duration_ms), record { result_code = some code; store = st })
    after_persist codes details code content ex (raised e, st) = failure (codes e) e details st

    -- a check that has ended is recorded inside the `try`
    unfoldable pub end_check :
        (Exception → Failure) → Details → Bool → Text → Details → D → Exchange → Handled D
    unfolding after_persist
    end_check codes details success code full content ex =
        after_persist codes details code content ex
          (persist_diagnostic o s x (end_report success code full) ex.store)

  abbrev pub http_check_of : HttpCheckRequest → HttpCheck
  http_check_of p = record {
    url = p.url;
    method = p.method;
    timeout = p.timeout;
    follow_redirects = p.follow_redirects;
    start = c.start;
    end = c.end;
  }

  unfoldable pub after_http_check :
      HttpCheckRequest → Raises HttpCheckResult → Exchange → Handled HttpCheckResult
  unfolding end_check failure http_failure
  after_http_check p (raised e) ex = failure (http_failure e) e (http_details p none) ex.store
  after_http_check p (ok r) ex =
      end_check http_failure (http_details p none) true (text "OK") (http_details p (some r)) r ex

  unfoldable pub http_check : Web → HttpCheckRequest → Exchange → Handled HttpCheckResult
  unfolding after_http_check
  http_check w p ex = after_http_check p (perform_http_check s w (http_check_of p)).0 ex

  abbrev pub port_check_of : PortCheckRequest → Text → PortCheck
  port_check_of p host = record {
    host = host;
    port = p.port;
    timeout = p.timeout;
    start = c.start;
    end = c.end;
  }

  -- the body of the `try` up to the result
  unfoldable pub port_result :
      Net → (Text → Option Text) → PortCheckRequest → Raises PortCheckResult
  port_result n idna p = do
    host ← validate_host idna n.ip_address p.host
    assert_port_allowed s p.port
    (perform_port_check s n (port_check_of p host)).0

  unfoldable pub after_port_check :
      PortCheckRequest → Raises PortCheckResult → Exchange → Handled PortCheckResult
  unfolding end_check failure port_failure state_name
  after_port_check p (raised e) ex = failure (port_failure e) e (tcp_details p none) ex.store
  after_port_check p (ok r) ex =
      end_check port_failure (tcp_details p none) r.«open» (state_name r.result)
        (tcp_details p (some r)) r ex

  unfoldable pub port_check :
      Net → (Text → Option Text) → PortCheckRequest → Exchange → Handled PortCheckResult
  unfolding after_port_check port_result
  port_check n idna p ex = after_port_check p (port_result n idna p) ex

  -- the empty result of a domain without such records
  abbrev pub empty_lookup : DnsLookupRequest → Text → DnsLookupResult
  empty_lookup p domain = record {
    domain = domain;
    record_type = p.record_type;
    records = [];
    ttl = none;
    resolver = none;
    lookup_time_ms = c.failure_ms;
  }

  -- `except NoRecordsError`, and the other clauses
  unfoldable pub dns_error :
      DnsLookupRequest → Text → Exception → Exchange → Handled DnsLookupResult
  unfolding failure dns_failure
  dns_error p domain no_records ex =
      let result = empty_lookup p domain in
      let persisted =
        persist_diagnostic o s x
          (record (end_report true (text "OK_EMPTY") (dns_details p (some result))) {
            duration_ms = c.failure_ms;
          })
          ex.store in
      answered (succeeded result c.failure_ms) ex.result_code (some (text "OK_EMPTY")) persisted
  dns_error p domain e ex = failure (dns_failure e) e (dns_details p none) ex.store

  unfoldable pub after_dns_lookup :
      DnsLookupRequest → Text → Raises DnsLookupResult → Exchange → Handled DnsLookupResult
  unfolding end_check dns_error dns_failure
  after_dns_lookup p domain (raised e) ex = dns_error p domain e ex
  after_dns_lookup p domain (ok r) ex =
      end_check dns_failure (dns_details p none) true (text "OK") (dns_details p (some r)) r ex

  unfoldable pub after_domain :
      Resolver → DnsLookupRequest → Raises Text → Exchange → Handled DnsLookupResult
  unfolding after_dns_lookup
  after_domain n p (raised e) ex = dns_error p p.domain e ex
  after_domain n p (ok domain) ex =
      after_dns_lookup p domain (perform_dns_lookup n c.start c.end domain p.record_type) ex

  unfoldable pub dns_lookup :
      Resolver → (Text → Option Text) → DnsLookupRequest → Exchange → Handled DnsLookupResult
  unfolding after_domain
  dns_lookup n idna p ex = after_domain n p (validate_domain idna p.domain) ex
