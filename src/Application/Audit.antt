-- ===== src/Application/Audit.antt =====
-- app/services/audit.py: `persist_http_audit`, and the log that it shares with app/main.py.
use network_diagnostic_tool.Common.{
  ℕ, ◌+◌, Bool, Option, List, [], ◌∷◌, ◌++◌, Text, ltb, if◌then◌else◌,
}
use network_diagnostic_tool.Settings.{Settings}
use network_diagnostic_tool.Accounts.Tables.{Role, days}

-- the fields of an HTTP audit event, as app/main.py fills them
pub record AuditFields : Type 0 where
  pub request_id : ℕ
  pub http_method : Text
  pub api_path : Text
  pub route_template : Text
  pub http_status_code : ℕ
  pub success : Bool
  pub duration_ms : ℕ
  pub client_key : Option Text
  pub actor_user_id : Option ℕ
  pub actor_role : Option Role
  pub result_code : Option Text

-- the fields that are stored as the details
pub record SafeFields : Type 0 where
  pub request_id : ℕ
  pub http_method : Text
  pub api_path : Text
  pub route_template : Text
  pub http_status_code : ℕ
  pub success : Bool
  pub duration_ms : ℕ
  pub actor_role : Option Role
  pub result_code : Option Text

pub data Severity : Type 0 where
  info warning error : Severity

-- a row of `audit_events`
pub record AuditEvent : Type 0 where
  pub actor_user_id : Option ℕ
  pub severity : Severity
  pub client_key : Option Text
  pub details : SafeFields
  pub expires_at : ℕ

-- the lines of the log
pub data AuditLine : Type 0 where
  http_request : (level : ℕ) → AuditFields → AuditLine
  database_write_failed : (request_id : ℕ) → AuditLine
  unhandled_exception : (request_id : ℕ) (api_path : Text) → AuditLine

pub record Trail : Type 0 where
  pub log : List AuditLine
  pub audit_events : List AuditEvent

unfoldable pub severity_of : ℕ → Severity
severity_of status = if ltb status 400 then info else if ltb status 500 then warning else error

abbrev pub safe_fields : AuditFields → SafeFields
safe_fields f = record {
  request_id = f.request_id;
  http_method = f.http_method;
  api_path = f.api_path;
  route_template = f.route_template;
  http_status_code = f.http_status_code;
  success = f.success;
  duration_ms = f.duration_ms;
  actor_role = f.actor_role;
  result_code = f.result_code;
}

-- `accepts` says whether PostgreSQL is reached and takes the row.
module _ (accepts : AuditEvent → Bool) (s : Settings) where
  unfoldable pub audit_event : ℕ → Option ℕ → Option Text → AuditFields → AuditEvent
  unfolding severity_of
  audit_event now actor_user_id client_key fields = record {
    actor_user_id = actor_user_id;
    severity = severity_of fields.http_status_code;
    client_key = client_key;
    details = safe_fields fields;
    expires_at = now + days s.audit_retention_days;
  }

  unfoldable pub persist_http_audit : ℕ → Option ℕ → Option Text → AuditFields → Trail → Trail
  unfolding audit_event
  persist_http_audit now actor_user_id client_key fields t =
      let row = audit_event now actor_user_id client_key fields in
      if s.database_enabled
      then (if accepts row
          then record t { audit_events = t.audit_events ++ row ∷ [] }
          else record t { log = t.log ++ database_write_failed fields.request_id ∷ [] })
      else t
