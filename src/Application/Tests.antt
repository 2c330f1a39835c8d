-- ===== src/Application/Tests.antt =====
-- Requests that are answered, refused and broken off, before an empty log.
use network_diagnostic_tool.Common.{
  ℕ, ◌+◌, ◌≡◌, refl, Bool, true, false, none, some, List, [], ◌∷◌, text, count_if, starts_with,
  Result, ok, raised, if◌then◌else◌, ◌==◌, nat_eq,
}
use network_diagnostic_tool.Exceptions.{value_error}
use network_diagnostic_tool.Responses.{Response, success_response}
use network_diagnostic_tool.Accounts.Sample.{settings, crypto}
use network_diagnostic_tool.Guards.Defs.{cookie_name}
use network_diagnostic_tool.Application.Audit.{AuditEvent, Trail}
use network_diagnostic_tool.Application.Middleware.{
  Thrown, http_error, unexpected, Arrival, redirect_to, file, serve, serve_all, index, login_page,
  readiness,
}
use network_diagnostic_tool.Application.Balance.{
  is_request, is_answered, IsBalanced, serve_all-IsBalanced,
}
use network_diagnostic_tool.Application.Told.{IsTold, serve-IsTold}

abbrev arrival : ℕ → Arrival
arrival id = record {
  request_id = id;
  http_method = text "POST";
  api_path = text "/api/v1/dns-lookup";
  route = some (text "/api/v1/dns-lookup");
  peer = record { host = some (text "9.9.9.9"); x_forwarded_for = none };
  current_user = none;
  result_code = none;
  start = 0;
  handled = 1000000;
  done = 2000000;
  stamped = 2000000;
  now = 100;
}

-- a database that takes the rows of all requests but one
abbrev accepts : AuditEvent → Bool
accepts row = if row.details.request_id == 2 then false else true

abbrev empty : Trail
empty = record { log = []; audit_events = [] }

abbrev found : Response ℕ
found = record { status_code = 200; content = success_response 5 1 0 }

abbrev requests : List (Arrival × Result Thrown (Response ℕ))
requests =
    (arrival 1, ok found)
    ∷ (arrival 2, raised (http_error 429 (some (text "RATE_LIMIT_EXCEEDED")) (text "slow down")))
    ∷ (arrival 3, raised (unexpected value_error))
    ∷ []

serve_all-IsBalanced_example :
    IsBalanced (serve_all accepts settings crypto (text "oops") requests empty)
    × (count_if is_request (serve_all accepts settings crypto (text "oops") requests empty).log
        ≡ 0 + count_if is_answered requests)
serve_all-IsBalanced_example =
    serve_all-IsBalanced accepts settings crypto (text "oops") requests empty refl refl

abbrev refused : Thrown
refused = http_error 404 none (text "gone")

serve-IsTold_example :
    IsTold
      (serve accepts settings crypto (text "oops") {D = ℕ} (arrival 4) (raised refused) empty).0
      empty
      (serve accepts settings crypto (text "oops") {D = ℕ} (arrival 4) (raised refused) empty).1
serve-IsTold_example =
    serve-IsTold accepts settings crypto (text "oops") {D = ℕ} (arrival 4) refused empty refl

index-no_cookie : index settings crypto (λ name. none) ≡ redirect_to (text "/login")
unfolding index cookie_name starts_with
index-no_cookie = refl

login_page-on : login_page settings crypto ≡ file (text "login.html")
unfolding login_page
login_page-on = refl

readiness-down : (readiness settings crypto false).status_code ≡ 503
unfolding readiness
readiness-down = refl
