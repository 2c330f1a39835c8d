-- ===== src/Diagnostics/Persistence.antt =====
-- app/services/persistence.py: `redact_url` and `persist_diagnostic`.
use network_diagnostic_tool.Common.{
  ℕ, ◌+◌, Bool, true, false, not, ◌&&◌, ◌||◌, Option, none, some, [], ◌∷◌, ◌++◌, Text, text,
  non_empty, any, length, take, leb, ◌==◌, nat_eq, list_eq, ok, raised, ◌>>=◌, if◌then◌else◌,
}
use network_diagnostic_tool.Exceptions.{Raises, value_error, unique_violation, database_error}
use network_diagnostic_tool.Settings.{Settings}
use network_diagnostic_tool.Security.Domain.{UrlParts}
use network_diagnostic_tool.HttpService.Defs.{HttpCheckResult}
use network_diagnostic_tool.TcpService.Defs.{PortCheckResult}
use network_diagnostic_tool.Dns.Defs.{RecordType, txt, DnsLookupResult}
use network_diagnostic_tool.Accounts.Credentials.{Crypto, hash_client_ip}
use network_diagnostic_tool.Accounts.Tables.{days}
use network_diagnostic_tool.Accounts.Login.{AuthContext}
use network_diagnostic_tool.Guards.ClientIp.{Peer, get_real_client_ip}
use network_diagnostic_tool.Diagnostics.Rows.{
  HttpCheckRequest, PortCheckRequest, DnsLookupRequest, Details, http_details, tcp_details,
  dns_details, DiagnosticType, http, tcp, dns, Run, HttpRow, TcpRow, DnsRow, Detail, http_row,
  tcp_row, dns_row, Subject, http_subject, tcp_subject, dns_subject, LogLine, checked,
  database_write_failed, Store, state_name,
}

-- `urllib.parse`, and PostgreSQL: whether it is reached and takes the two rows, their other columns
-- being as they are
pub record Outside : Type 0 where
  -- `urlsplit`, `none` for its `ValueError`
  pub urlsplit : Text → Option UrlParts
  -- `urlunsplit` of a scheme, a network location and a path
  pub urlunsplit : Text → Text → Text → Text
  pub accepts : Run → Detail → Bool

-- what a route hands to `persist_diagnostic`: the request, with its id, path and user, the outcome
-- and the readings of the clock
pub record Report : Type 0 where
  pub request_id : ℕ
  pub api_path : Text
  pub peer : Peer
  pub current_user : Option AuthContext
  pub success : Bool
  pub result_code : Text
  pub api_status_code : ℕ
  pub duration_ms : ℕ
  pub started_at : ℕ
  pub completed_at : ℕ
  pub created_at : ℕ
  pub details : Details
  pub error_message : Option Text

-- `not value`, negated, for a value that may be `None`
abbrev pub or_else : Option Text → Text → Text
or_else none default = default
or_else (some value) default = if non_empty value then value else default

abbrev pub type_of : Details → DiagnosticType
type_of (http_details payload result) = http
type_of (tcp_details payload result) = tcp
type_of (dns_details payload result) = dns

-- `context.user_id if context else None`
abbrev pub user_id_of : Option AuthContext → Option ℕ
user_id_of none = none
user_id_of (some context) = some context.user_id

abbrev pub is_text_type : RecordType → Bool
is_text_type txt = true
is_text_type _ = false

-- `varchar(n)`
abbrev pub fits : ℕ → Option Text → Bool
fits n none = true
fits n (some value) = leb (length value) n

module _ (o : Outside) where
  unfoldable pub redact_parts : Text → Option UrlParts → Option Text × Bool
  redact_parts value none = (some (take 2048 value), false)
  redact_parts value (some parts) = (
    some (o.urlunsplit parts.scheme parts.netloc parts.path),
    non_empty parts.query || non_empty parts.fragment,
  )

  unfoldable pub redact_url : Option Text → Option Text × Bool
  unfolding redact_parts
  redact_url none = (none, false)
  redact_url (some value) =
      if non_empty value then redact_parts value (o.urlsplit value) else (none, false)

  abbrev pub hostname_of : Option UrlParts → Raises (Option Text)
  hostname_of none = raised value_error
  hostname_of (some parts) = ok parts.hostname

  -- `urlsplit(url or "").hostname`
  unfoldable pub target_host : Option Text → Raises (Option Text)
  target_host url = hostname_of (o.urlsplit (or_else url []))

  -- the fields that the log line of each kind adds
  unfoldable pub subject_of : Details → Raises Subject
  unfolding redact_url target_host
  subject_of (http_details p none) = do
    let url = (redact_url (some p.url)).0
    host ← target_host url
    ok (http_subject host url p.method none none)
  subject_of (http_details p (some r)) = do
    let url = (redact_url (some r.url)).0
    host ← target_host url
    ok (http_subject host url p.method r.status_code (some r.response_time_ms))
  subject_of (tcp_details p none) = ok (tcp_subject p.host p.port false none)
  subject_of (tcp_details p (some r)) = ok (tcp_subject r.host r.port r.«open» r.connection_time_ms)
  subject_of (dns_details p none) = ok (dns_subject p.domain p.record_type [] none none)
  subject_of (dns_details p (some r)) =
      ok (dns_subject r.domain r.record_type r.records r.resolver (some r.lookup_time_ms))

  -- the row of an HTTP check, by the redacted URL and the mark that something was cut off
  unfoldable pub http_row_at :
      Option Text × Bool → HttpCheckRequest → Option HttpCheckResult → Raises HttpRow
  unfolding redact_url target_host
  http_row_at (requested, redacted) p none = do
    host ← target_host requested
    ok (record {
      requested_url = or_else requested (text "invalid");
      target_host = take 253 (or_else host (text "invalid"));
      method = p.method;
      timeout_ms = p.timeout;
      follow_redirects = p.follow_redirects;
      query_redacted = redacted;
      final_url = none;
      reachable = false;
      status_code = none;
      reason_phrase = none;
      resolved_ip = none;
      response_time_ms = none;
      content_length = none;
      content_type = none;
      server_header = none;
      redirect_count = 0;
    })
  http_row_at (requested, redacted) p (some r) = do
    let (final, final_redacted) = redact_url r.final_url
    host ← target_host requested
    ok (record {
      requested_url = or_else requested (text "invalid");
      target_host = take 253 (or_else host (text "invalid"));
      method = p.method;
      timeout_ms = p.timeout;
      follow_redirects = p.follow_redirects;
      query_redacted = redacted || final_redacted;
      final_url = final;
      reachable = r.reachable;
      status_code = r.status_code;
      reason_phrase = r.reason_phrase;
      resolved_ip = r.resolved_ip;
      response_time_ms = some r.response_time_ms;
      content_length = r.content_length;
      content_type = r.content_type;
      server_header = r.server;
      redirect_count = r.redirect_count;
    })

  unfoldable pub http_row_of : HttpCheckRequest → Option HttpCheckResult → Raises HttpRow
  unfolding http_row_at redact_url
  http_row_of p none = http_row_at (redact_url (some p.url)) p none
  http_row_of p (some r) = http_row_at (redact_url (some r.url)) p (some r)

  unfoldable pub tcp_row_of : Text → PortCheckRequest → Option PortCheckResult → TcpRow
  unfolding state_name
  tcp_row_of code p none = record {
    host = take 253 p.host;
    port = p.port;
    timeout_ms = p.timeout;
    resolved_ips = [];
    is_open = false;
    connection_result = code;
    connection_time_ms = none;
  }
  tcp_row_of code p (some r) = record {
    host = take 253 r.host;
    port = r.port;
    timeout_ms = p.timeout;
    resolved_ips = r.resolved_ips;
    is_open = r.«open»;
    connection_result = state_name r.result;
    connection_time_ms = r.connection_time_ms;
  }

  -- the records of a TXT lookup are counted, and not kept
  unfoldable pub dns_row_of : DnsLookupRequest → Option DnsLookupResult → DnsRow
  dns_row_of p none = record {
    domain = take 253 p.domain;
    record_type = p.record_type;
    records = [];
    record_count = 0;
    records_redacted = is_text_type p.record_type;
    ttl = none;
    resolver = none;
    lookup_time_ms = none;
  }
  dns_row_of p (some r) = record {
    domain = take 253 r.domain;
    record_type = r.record_type;
    records = if is_text_type r.record_type then [] else r.records;
    record_count = length r.records;
    records_redacted = is_text_type r.record_type;
    ttl = r.ttl;
    resolver = r.resolver;
    lookup_time_ms = some r.lookup_time_ms;
  }

  unfoldable pub detail_of : Text → Details → Raises Detail
  unfolding http_row_of tcp_row_of dns_row_of
  detail_of code (http_details p r) = do row ← http_row_of p r; ok (http_row row)
  detail_of code (tcp_details p r) = ok (tcp_row (tcp_row_of code p r))
  detail_of code (dns_details p r) = ok (dns_row (dns_row_of p r))

  -- the columns of limited width that are not cut to it
  unfoldable pub columns_fit : Detail → Bool
  columns_fit (http_row row) =
      fits 120 row.reason_phrase && (fits 255 row.content_type && fits 255 row.server_header)
  columns_fit (tcp_row row) = true
  columns_fit (dns_row row) = fits 255 row.resolver

  -- the level of the log line
  unfoldable pub log_level : Bool → Text → ℕ
  log_level success code =
      if success then 20 else if code == text "INTERNAL_SERVER_ERROR" then 40 else 30

  module _ (s : Settings) (x : Crypto) where
    unfoldable pub run_of : Report → Run
    run_of r =
        let client_ip = get_real_client_ip s x r.peer in
        record {
          id = r.request_id;
          user_id = user_id_of r.current_user;
          diagnostic_type = type_of r.details;
          success = r.success;
          result_code = r.result_code;
          api_status_code = r.api_status_code;
          error_message =
              if non_empty (or_else r.error_message [])
              then some (take 500 (or_else r.error_message []))
              else none;
          duration_ms = r.duration_ms;
          client_key = hash_client_ip s x client_ip;
          client_ip =
              if s.store_raw_client_ip && not (client_ip == text "unknown")
              then some client_ip
              else none;
          app_version = s.app_version;
          started_at = r.started_at;
          completed_at = r.completed_at;
          expires_at = r.completed_at + days s.diagnostic_retention_days;
          created_at = r.created_at;
        }

    -- the two `INSERT`s of a transaction; `diagnostic_runs.id` is a key
    unfoldable pub insert_run : Run → Detail → Store → Raises Store
    unfolding columns_fit
    insert_run run detail st =
        if any (λ (r : Run). r.id == run.id) st.runs
        then raised unique_violation
        else if not (o.accepts run detail && columns_fit detail)
        then raised database_error
        else ok (record st {
          runs = st.runs ++ run ∷ [];
          details = st.details ++ (run.id, detail) ∷ [];
        })

    -- `except Exception`: a failure is written to the log, and to nothing else
    unfoldable pub or_logged : ℕ → Store → Raises Store → Store
    or_logged request_id st (raised e) = record st {
      log = st.log ++ database_write_failed request_id ∷ [];
    }
    or_logged request_id st (ok st') = st'

    unfoldable pub log_line : Report → Subject → LogLine
    unfolding log_level
    log_line r subject =
        checked (log_level r.success r.result_code) r.request_id r.api_path
          (hash_client_ip s x (get_real_client_ip s x r.peer)) r.success r.duration_ms subject
          r.result_code

    -- the part behind the log line
    unfoldable pub write_rows : Report → Store → Store
    unfolding run_of detail_of insert_run or_logged
    write_rows r st =
        if s.database_enabled && s.diagnostic_persistence_enabled
        then or_logged r.request_id st
            (detail_of r.result_code r.details >>= λ detail. insert_run (run_of r) detail st)
        else st

    -- an exception of the log line's fields passes through
    unfoldable pub persist_diagnostic : Report → Store → Raises Unit × Store
    unfolding subject_of log_line write_rows
    persist_diagnostic r st = elim (subject_of r.details) [
      | raised e ↦ (raised e, st)
      | ok subject ↦ (ok tt, write_rows r (record st { log = st.log ++ log_line r subject ∷ [] }))
    ]
