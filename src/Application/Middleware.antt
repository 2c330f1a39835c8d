-- ===== src/Application/Middleware.antt =====
-- app/main.py: `response_middleware` and the exception handlers, and the pages.
-- An `HTTPException` and a failed validation are answered inside the middleware. Any other exception
-- passes through it to the outermost layer of Starlette, where its handler answers.
use network_diagnostic_tool.Common.{
  ℕ, Bool, false, not, ◌&&◌, Option, none, some, List, [], ◌∷◌, ◌++◌, Text, text, non_empty, ltb,
  leb, Result, ok, raised, if◌then◌else◌,
}
use network_diagnostic_tool.Exceptions.{Exception}
use network_diagnostic_tool.Settings.{Settings}
use network_diagnostic_tool.Responses.{Response, error_response}
use network_diagnostic_tool.HttpService.Defs.{elapsed_ms}
use network_diagnostic_tool.Accounts.Credentials.{Crypto, hash_client_ip}
use network_diagnostic_tool.Accounts.Tables.{Role}
use network_diagnostic_tool.Accounts.Login.{AuthContext}
use network_diagnostic_tool.Guards.ClientIp.{Peer, get_real_client_ip}
use network_diagnostic_tool.Guards.Defs.{cookie_name}
use network_diagnostic_tool.Application.Audit.{
  AuditFields, AuditEvent, Trail, http_request, unhandled_exception, persist_http_audit,
}

-- what a route raises: `HTTPException` with the code and the message of its detail,
-- `RequestValidationError` with its messages joined, or any other exception
pub data Thrown : Type 0 where
  http_error : (status_code : ℕ) (code : Option Text) (message : Text) → Thrown
  invalid_request : (messages : Text) → Thrown
  unexpected : Exception → Thrown

-- a request, its state when the route has ended, and the readings of the clocks: at the start, in
-- an exception handler, and for the two durations of the middleware, in nanoseconds, and the time
-- of the audit row
pub record Arrival : Type 0 where
  pub request_id : ℕ
  pub http_method : Text
  pub api_path : Text
  pub route : Option Text
  pub peer : Peer
  pub current_user : Option AuthContext
  pub result_code : Option Text
  pub start : ℕ
  pub handled : ℕ
  pub done : ℕ
  pub stamped : ℕ
  pub now : ℕ

-- the headers that the middleware sets
pub record Headers : Type 0 where
  pub x_response_time_ms : ℕ
  pub x_request_id : ℕ
  pub x_content_type_options : Text
  pub x_frame_options : Text
  pub referrer_policy : Text

pub record Answer (D : Type 0) : Type 0 where
  pub response : Response D
  pub headers : Option Headers

-- the level of the log line
unfoldable pub level_of_status : ℕ → ℕ
level_of_status status = if ltb status 400 then 20 else if ltb status 500 then 30 else 40

-- `detail.get("code", …)`
unfoldable pub code_of : ℕ → Option Text → Text
code_of status none =
    if leb 500 status then text "INTERNAL_SERVER_ERROR" else text "VALIDATION_ERROR"
code_of status (some code) = code

abbrev pub route_path : Arrival → Text
route_path a = elim a.route [ none ↦ a.api_path | some path ↦ path ]

-- `context.user_id if context else None`, and the role
abbrev pub actor_id : Option AuthContext → Option ℕ
actor_id none = none
actor_id (some context) = some context.user_id

abbrev pub actor_role_of : Option AuthContext → Option Role
actor_role_of none = none
actor_role_of (some context) = some context.role

abbrev pub headers_of : Arrival → Headers
headers_of a = record {
  x_response_time_ms = elapsed_ms a.start a.stamped;
  x_request_id = a.request_id;
  x_content_type_options = text "nosniff";
  x_frame_options = text "DENY";
  referrer_policy = text "no-referrer";
}

module _ (s : Settings) (x : Crypto) where
  abbrev pub audit_fields : Arrival → Option Text → ℕ → AuditFields
  audit_fields a result_code status = record {
    request_id = a.request_id;
    http_method = a.http_method;
    api_path = a.api_path;
    route_template = route_path a;
    http_status_code = status;
    success = ltb status 400;
    duration_ms = elapsed_ms a.start a.done;
    client_key = hash_client_ip s x (get_real_client_ip s x a.peer);
    actor_user_id = actor_id a.current_user;
    actor_role = actor_role_of a.current_user;
    result_code = result_code;
  }

-- `unhandled` is the message of an internal error.
module _ (accepts : AuditEvent → Bool) (s : Settings) (x : Crypto) (unhandled : Text)
    {D : Type 0} where
  -- an exception handler's answer
  abbrev pub error_answer : Arrival → ℕ → Text → Text → Response D
  error_answer a status code message = record {
    status_code = status;
    content = error_response code message a.request_id (elapsed_ms a.start a.handled);
  }

  -- the middleware behind `call_next`
  unfoldable pub response_middleware : Arrival → Option Text → Response D → Trail → Answer D × Trail
  unfolding level_of_status persist_http_audit
  response_middleware a result_code response t =
      let fields = audit_fields s x a result_code response.status_code in
      (
        record { response = response; headers = some (headers_of a) },
        persist_http_audit accepts s a.now (actor_id a.current_user) fields.client_key fields
            (record t {
              log = t.log ++ http_request (level_of_status response.status_code) fields ∷ [];
            }),
      )

  -- a request whose route has returned or raised
  unfoldable pub serve : Arrival → Result Thrown (Response D) → Trail → Answer D × Trail
  unfolding response_middleware code_of
  serve a (ok response) t = response_middleware a a.result_code response t
  serve a (raised (invalid_request messages)) t =
      response_middleware a (some (text "VALIDATION_ERROR"))
        (error_answer a 422 (text "VALIDATION_ERROR") messages) t
  serve a (raised (http_error status code message)) t =
      response_middleware a (some (code_of status code))
        (error_answer a status (code_of status code) message) t
  serve a (raised (unexpected e)) t = (
    record {
      response = error_answer a 500 (text "INTERNAL_SERVER_ERROR") unhandled;
      headers = none;
    },
    record t { log = t.log ++ unhandled_exception a.request_id a.api_path ∷ [] },
  )

  -- one request after the other
  unfoldable pub serve_all : List (Arrival × Result Thrown (Response D)) → Trail → Trail
  unfolding serve
  serve_all [] t = t
  serve_all ((a, end) ∷ requests) t = serve_all requests (serve a end t).1

-- the two pages and the health check
pub data Page : Type 0 where
  redirect_to : Text → Page
  file : Text → Page

pub record Readiness : Type 0 where
  pub status_code : ℕ
  pub status : Text
  pub database : Text

module _ (s : Settings) (x : Crypto) where
  -- `ready` is the answer of `database_ready`, which is asked only where the database is on
  unfoldable pub readiness : Bool → Readiness
  readiness ready =
      if s.database_enabled && not ready
      then record { status_code = 503; status = text "not_ready"; database = text "unavailable" }
      else record {
        status_code = 200;
        status = text "ready";
        database = if s.database_enabled then text "enabled" else text "disabled";
      }

  unfoldable pub login_page : Page
  login_page = if not s.auth_enabled then redirect_to (text "/") else file (text "login.html")

  abbrev pub has_value : Option Text → Bool
  has_value none = false
  has_value (some value) = non_empty value

  unfoldable pub index : (Text → Option Text) → Page
  unfolding cookie_name
  index cookies =
      if s.auth_enabled && not (has_value (cookies (cookie_name s x)))
      then redirect_to (text "/login")
      else file (text "index.html")
