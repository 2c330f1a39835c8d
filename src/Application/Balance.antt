-- ===== src/Application/Balance.antt =====
-- No request is lost between the log and the table: app/main.py with app/services/audit.py.
use network_diagnostic_tool.Common.{
  ℕ, ◌+◌, ◌≡◌, refl, inl, inr, Bool, true, false, Option, some, List, [], ◌∷◌, ◌++◌, arith, Text,
  text, length, count_if, count_if-append, Bool-cases, Result, ok, raised, if◌then◌else◌,
}
use network_diagnostic_tool.Settings.{Settings}
use network_diagnostic_tool.Responses.{Response}
use network_diagnostic_tool.Accounts.Credentials.{Crypto}
use network_diagnostic_tool.Application.Audit.{
  AuditEvent, AuditFields, AuditLine, Trail, http_request, database_write_failed,
  unhandled_exception, audit_event, persist_http_audit,
}
use network_diagnostic_tool.Application.Middleware.{
  Thrown, http_error, invalid_request, unexpected, Arrival, response_middleware, serve, serve_all,
  level_of_status, audit_fields, actor_id, code_of, error_answer,
}

abbrev pub is_request : AuditLine → Bool
is_request (http_request level fields) = true
is_request (database_write_failed id) = false
is_request (unhandled_exception id path) = false

abbrev pub is_failed_write : AuditLine → Bool
is_failed_write (http_request level fields) = false
is_failed_write (database_write_failed id) = true
is_failed_write (unhandled_exception id path) = false

-- Each line of a request has a row, or a line that says that the row could not be written.
abbrev pub IsBalanced : Trail → Type 0
IsBalanced t = length t.audit_events + count_if is_failed_write t.log ≡ count_if is_request t.log

-- the route has returned, or raised what is answered inside the middleware
abbrev pub is_answered : {D : Type 0} → Arrival × Result Thrown (Response D) → Bool
is_answered (a, raised (unexpected e)) = false
is_answered (a, raised (http_error status code message)) = true
is_answered (a, raised (invalid_request messages)) = true
is_answered (a, ok response) = true

length-append-one : {A : Type 0} (xs : List A) (x : A) → length (xs ++ x ∷ []) ≡ length xs + 1
length-append-one [] x = refl
length-append-one (y ∷ xs) x = ground (arith, length-append-one xs x)

count_if-append-one :
    (p : AuditLine → Bool) (log : List AuditLine) (line : AuditLine)
    → count_if p (log ++ line ∷ []) ≡ count_if p log + (if p line then 1 else 0)
count_if-append-one p log line = ground (arith, count_if-append p log (line ∷ []))

-- what a step adds to a trail: `n` lines of requests, and as many rows and failed writes
abbrev Grows : ℕ → Trail → Trail → Type 0
Grows n t t' =
    (length t'.audit_events + count_if is_failed_write t'.log
      ≡ length t.audit_events + count_if is_failed_write t.log + n)
    × (count_if is_request t'.log ≡ count_if is_request t.log + n)

-- the same of the table alone
abbrev Stores : Trail → Trail → Type 0
Stores t t' =
    (length t'.audit_events + count_if is_failed_write t'.log
      ≡ length t.audit_events + count_if is_failed_write t.log + 1)
    × (count_if is_request t'.log ≡ count_if is_request t.log)

module _ (accepts : AuditEvent → Bool) (s : Settings) where
  persist_http_audit-Stores :
      (now : ℕ) (actor : Option ℕ) (key : Option Text) (fields : AuditFields) (t : Trail)
      → s.database_enabled ≡ true
      → Stores t (persist_http_audit accepts s now actor key fields t)
  unfolding persist_http_audit
  persist_http_audit-Stores now actor key fields t on =
      let row = audit_event accepts s now actor key fields in
      elim (Bool-cases (accepts row)) [
        | inl taken ↦ rw (on, taken) (ground (arith, length-append-one t.audit_events row), refl)
        | inr refused ↦
            let line = database_write_failed fields.request_id in
            rw (on, refused)
              (
                ground (arith, count_if-append-one is_failed_write t.log line),
                ground (arith, count_if-append-one is_request t.log line),
              )
      ]

module _ (accepts : AuditEvent → Bool) (s : Settings) (x : Crypto) (unhandled : Text)
    {D : Type 0} where
  response_middleware-Grows :
      (a : Arrival) (code : Option Text) (response : Response D) (t : Trail)
      → s.database_enabled ≡ true
      → Grows 1 t (response_middleware accepts s x unhandled a code response t).1
  unfolding response_middleware
  response_middleware-Grows a code response t on =
      let fields = audit_fields s x a code response.status_code in
      let line = http_request (level_of_status response.status_code) fields in
      let logged : Trail = record t { log = t.log ++ line ∷ [] } in
      ground (
        arith,
        persist_http_audit-Stores accepts s a.now (actor_id a.current_user) fields.client_key fields
            logged on,
        count_if-append-one is_failed_write t.log line,
        count_if-append-one is_request t.log line,
      )

  serve-Grows :
      (a : Arrival) (end : Result Thrown (Response D)) (t : Trail)
      → s.database_enabled ≡ true
      → Grows (if is_answered (a, end) then 1 else 0) t (serve accepts s x unhandled a end t).1
  unfolding serve
  serve-Grows a (ok response) t on = response_middleware-Grows a a.result_code response t on
  serve-Grows a (raised (invalid_request messages)) t on =
      response_middleware-Grows a (some (text "VALIDATION_ERROR"))
        (error_answer accepts s x unhandled a 422 (text "VALIDATION_ERROR") messages) t on
  serve-Grows a (raised (http_error status code message)) t on =
      response_middleware-Grows a (some (code_of status code))
        (error_answer accepts s x unhandled a status (code_of status code) message) t on
  serve-Grows a (raised (unexpected e)) t on =
      let line = unhandled_exception a.request_id a.api_path in
      ground (
        arith,
        count_if-append-one is_failed_write t.log line,
        count_if-append-one is_request t.log line,
      )

  -- Where the database is on: any sequence of requests keeps the log and the table in balance, each
  -- line of a request having a row or a line that says that the row could not be written, and it adds
  -- one line of a request for each request whose route has returned or raised what is answered inside
  -- the middleware, and none for the others.
  pub serve_all-IsBalanced :
      (requests : List (Arrival × Result Thrown (Response D))) (t : Trail)
      → s.database_enabled ≡ true
      → IsBalanced t
      → IsBalanced (serve_all accepts s x unhandled requests t)
        × (count_if is_request (serve_all accepts s x unhandled requests t).log
            ≡ count_if is_request t.log + count_if is_answered requests)
  unfolding serve_all
  serve_all-IsBalanced [] t on same = (same, omega arith)
  serve_all-IsBalanced ((a, end) ∷ requests) t on same =
      let step = serve-Grows a end t on in
      let rest =
        serve_all-IsBalanced requests (serve accepts s x unhandled a end t).1 on
          (omega (arith, step.0, step.1)) in
      (rest.0, ground (arith, rest.1, step.1))
