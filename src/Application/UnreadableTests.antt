-- ===== src/Application/UnreadableTests.antt =====
-- A request for a URL that `urlsplit` refuses, through the handler and the application.
use network_diagnostic_tool.Common.{◌≡◌, refl, true, false, none, some, [], ◌∷◌, ◌++◌, text, arith}
use network_diagnostic_tool.HttpService.Defs.{Web, get_method, gaierror, connect_error}
use network_diagnostic_tool.Accounts.Sample.{settings, crypto, context}
use network_diagnostic_tool.Diagnostics.Rows.{HttpCheckRequest}
use network_diagnostic_tool.Diagnostics.Persistence.{Outside}
use network_diagnostic_tool.Diagnostics.Routes.{DiagnosticCall, Exchange, http_check}
use network_diagnostic_tool.Application.Audit.{Trail, unhandled_exception}
use network_diagnostic_tool.Application.Middleware.{Arrival, error_answer}
use network_diagnostic_tool.Application.Unreadable.{served, http_check-unreadable-serve}

abbrev outside : Outside
outside = record {
  urlsplit = λ url. none;
  urlunsplit = λ scheme netloc path. netloc;
  accepts = λ run detail. true;
}

abbrev web : Web
web = record {
  ip_address = λ ip. none;
  idna = λ d. some d;
  urlsplit = λ url. none;
  join = λ url location. none;
  isdigit = λ t. false;
  int = λ t. none;
  getaddrinfo = λ hop host. gaierror;
  build_request = λ method url. true;
  send = λ timeout hop method url. connect_error;
}

abbrev payload : HttpCheckRequest
payload = record {
  url = text "http://[";
  method = get_method;
  timeout = 5000;
  follow_redirects = true;
}

abbrev call : DiagnosticCall
call = record {
  request_id = 9;
  api_path = text "/api/v1/http-check";
  peer = record { host = some (text "9.9.9.9"); x_forwarded_for = none };
  current_user = some context;
  started_at = 10;
  completed_at = 20;
  created_at = 20;
  duration_ms = 5;
  failure_ms = 5;
  start = 0;
  end = 5000000;
}

abbrev arrival : Arrival
arrival = record {
  request_id = 9;
  http_method = text "POST";
  api_path = text "/api/v1/http-check";
  route = some (text "/api/v1/http-check");
  peer = record { host = some (text "9.9.9.9"); x_forwarded_for = none };
  current_user = some context;
  result_code = none;
  start = 0;
  handled = 1000000;
  done = 2000000;
  stamped = 2000000;
  now = 100;
}

abbrev fresh : Exchange
fresh = record { result_code = none; store = record { runs = []; details = []; log = [] } }

abbrev empty : Trail
empty = record { log = []; audit_events = [] }

http_check-unreadable-serve_example :
    let end =
      served outside settings crypto
        (λ e. [])
        (λ row. true)
        (text "oops")
        call
        web
        payload
        fresh
        arrival
        empty in
    (end.0.response
      ≡ error_answer
          (λ row. true)
          settings
          crypto
          (text "oops")
          arrival
          500
          (text "INTERNAL_SERVER_ERROR")
          (text "oops"))
    × (end.0.headers ≡ none)
    × (end.1.log ≡ [] ++ unhandled_exception 9 (text "/api/v1/http-check") ∷ [])
    × (end.1.audit_events ≡ [])
    × ((http_check outside settings crypto (λ e. []) call web payload fresh).1.store ≡ fresh.store)
http_check-unreadable-serve_example =
    http_check-unreadable-serve outside settings crypto (λ e. []) (λ row. true) (text "oops") call
      web payload fresh arrival empty refl refl refl (omega arith)
