-- ===== src/Application/Unreadable.antt =====
-- app/api/http_check.py behind app/main.py: a request for a URL that `urlsplit` refuses.
use network_diagnostic_tool.Common.{
  ◌≤◌, ◌≡◌, refl, true, Bool, none, [], ◌∷◌, ◌++◌, Text, text, non_empty, length, Result, ok,
  raised,
}
use network_diagnostic_tool.Exceptions.{Exception, Raises}
use network_diagnostic_tool.Settings.{Settings}
use network_diagnostic_tool.Responses.{Response}
use network_diagnostic_tool.HttpService.Defs.{Web, HttpCheckResult}
use network_diagnostic_tool.Accounts.Credentials.{Crypto}
use network_diagnostic_tool.Diagnostics.Rows.{HttpCheckRequest}
use network_diagnostic_tool.Diagnostics.Persistence.{Outside}
use network_diagnostic_tool.Diagnostics.Routes.{DiagnosticCall, Exchange, http_check}
use network_diagnostic_tool.Diagnostics.Answers.{http_check-unreadable}
use network_diagnostic_tool.Application.Audit.{AuditEvent, Trail, unhandled_exception}
use network_diagnostic_tool.Application.Middleware.{
  Thrown, unexpected, Arrival, Answer, error_answer, serve,
}

-- a diagnostic route raises no `HTTPException`
abbrev pub route_end : {D : Type 0} → Raises (Response D) → Result Thrown (Response D)
route_end (ok response) = ok response
route_end (raised e) = raised (unexpected e)

module _ (o : Outside) (s : Settings) (x : Crypto) (message : Exception → Text)
    (accepts : AuditEvent → Bool) (unhandled : Text) where
  -- the request's answer and what is left in the log and `audit_events`
  abbrev pub served :
      DiagnosticCall
      → Web
      → HttpCheckRequest
      → Exchange
      → Arrival
      → Trail
      → Answer HttpCheckResult × Trail
  served c w p ex a t =
      serve accepts s x unhandled a (route_end (http_check o s x message c w p ex).0) t

  -- A request to check a URL that `urlsplit` refuses, not too long and not empty, passes through the
  -- handler as an exception. It is answered with status 500 by the handler of the application, not
  -- with the 422 of an invalid URL, and without the headers of the middleware. It leaves one line in
  -- the application's log, of the exception, with the request's id and path, and no audit row, no line
  -- of a diagnostic's result and no rows of a run.
  pub http_check-unreadable-serve :
      (c : DiagnosticCall) (w : Web) (p : HttpCheckRequest) (ex : Exchange) (a : Arrival)
      (t : Trail)
      → w.urlsplit p.url ≡ none
      → o.urlsplit p.url ≡ none
      → non_empty p.url ≡ true
      → length p.url ≤ 2048
      → ((served c w p ex a t).0.response
          ≡ error_answer accepts s x unhandled a 500 (text "INTERNAL_SERVER_ERROR") unhandled)
        × ((served c w p ex a t).0.headers ≡ none)
        × ((served c w p ex a t).1.log ≡ t.log ++ unhandled_exception a.request_id a.api_path ∷ [])
        × ((served c w p ex a t).1.audit_events ≡ t.audit_events)
        × ((http_check o s x message c w p ex).1.store ≡ ex.store)
  unfolding serve
  http_check-unreadable-serve c w p ex a t refused refused_again full short =
      let (raises, kept) =
        http_check-unreadable o s x message c w p ex refused refused_again full short in
      (rw raises refl, rw raises refl, rw raises refl, rw raises refl, kept)
