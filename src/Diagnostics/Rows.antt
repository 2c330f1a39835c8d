-- ===== src/Diagnostics/Rows.antt =====
-- The requests of the three diagnostics (app/schemas/request.py), and the rows and log lines that
-- app/services/persistence.py writes of them.
use network_diagnostic_tool.Common.{ℕ, Bool, Option, List, Text, text}
use network_diagnostic_tool.HttpService.Defs.{Method, HttpCheckResult}
use network_diagnostic_tool.TcpService.Defs.{
  PortState, is_open, is_refused, timed_out, no_dns, blocked, PortCheckResult,
}
use network_diagnostic_tool.Dns.Defs.{RecordType, DnsLookupResult}

-- times are in milliseconds
pub record HttpCheckRequest : Type 0 where
  pub url : Text
  pub method : Method
  pub timeout : ℕ
  pub follow_redirects : Bool

pub record PortCheckRequest : Type 0 where
  pub host : Text
  pub port : ℕ
  pub timeout : ℕ

pub record DnsLookupRequest : Type 0 where
  pub domain : Text
  pub record_type : RecordType

-- `payload.model_dump()`, with `data.model_dump()` where there is a result
pub data Details : Type 0 where
  http_details : HttpCheckRequest → Option HttpCheckResult → Details
  tcp_details : PortCheckRequest → Option PortCheckResult → Details
  dns_details : DnsLookupRequest → Option DnsLookupResult → Details

pub data DiagnosticType : Type 0 where
  http tcp dns : DiagnosticType

-- a row of `diagnostic_runs`
pub record Run : Type 0 where
  pub id : ℕ
  pub user_id : Option ℕ
  pub diagnostic_type : DiagnosticType
  pub success : Bool
  pub result_code : Text
  pub api_status_code : ℕ
  pub error_message : Option Text
  pub duration_ms : ℕ
  pub client_key : Option Text
  pub client_ip : Option Text
  pub app_version : Text
  pub started_at : ℕ
  pub completed_at : ℕ
  pub expires_at : ℕ
  pub created_at : ℕ

pub record HttpRow : Type 0 where
  pub requested_url : Text
  pub target_host : Text
  pub method : Method
  pub timeout_ms : ℕ
  pub follow_redirects : Bool
  pub query_redacted : Bool
  pub final_url : Option Text
  pub reachable : Bool
  pub status_code : Option ℕ
  pub reason_phrase : Option Text
  pub resolved_ip : Option Text
  pub response_time_ms : Option ℕ
  pub content_length : Option ℕ
  pub content_type : Option Text
  pub server_header : Option Text
  pub redirect_count : ℕ

pub record TcpRow : Type 0 where
  pub host : Text
  pub port : ℕ
  pub timeout_ms : ℕ
  pub resolved_ips : List Text
  pub is_open : Bool
  pub connection_result : Text
  pub connection_time_ms : Option ℕ

pub record DnsRow : Type 0 where
  pub domain : Text
  pub record_type : RecordType
  pub records : List Text
  pub record_count : ℕ
  pub records_redacted : Bool
  pub ttl : Option ℕ
  pub resolver : Option Text
  pub lookup_time_ms : Option ℕ

-- a row of one of the three tables of results, whose `run_id` is kept beside it
pub data Detail : Type 0 where
  http_row : HttpRow → Detail
  tcp_row : TcpRow → Detail
  dns_row : DnsRow → Detail

-- the fields of a log line that are not common to the three kinds
pub data Subject : Type 0 where
  http_subject : Option Text → Option Text → Method → Option ℕ → Option ℕ → Subject
  tcp_subject : Text → ℕ → Bool → Option ℕ → Subject
  dns_subject : Text → RecordType → List Text → Option Text → Option ℕ → Subject

pub data LogLine : Type 0 where
  checked :
      (level request_id : ℕ) (api_path : Text) (client_key : Option Text) (success : Bool)
      (duration_ms : ℕ) (subject : Subject) (result_code : Text)
      → LogLine
  database_write_failed : (request_id : ℕ) → LogLine

-- the tables of the diagnostics, and the log
pub record Store : Type 0 where
  pub runs : List Run
  pub details : List (ℕ × Detail)
  pub log : List LogLine

-- `PortCheckResult.result`
unfoldable pub state_name : PortState → Text
state_name is_open = text "OPEN"
state_name is_refused = text "REFUSED"
state_name timed_out = text "TIMEOUT"
state_name no_dns = text "DNS_FAILED"
state_name blocked = text "BLOCKED"
