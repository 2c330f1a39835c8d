-- ===== src/Application/Told.antt =====
-- What a client is told is what the log says: the exception handlers and the middleware of
-- app/main.py, with app/services/audit.py.
use network_diagnostic_tool.Common.{
  ℕ, ◌≡◌, refl, inl, inr, Bool, true, false, Option, some, List, [], ◌∷◌, ◌++◌, Text, text,
  Bool-cases, raised, ◌⊎◌, append_assoc, append-nil, ◌∙◌, sym,
}
use network_diagnostic_tool.Settings.{Settings}
use network_diagnostic_tool.Responses.{ErrorDetail}
use network_diagnostic_tool.Accounts.Credentials.{Crypto}
use network_diagnostic_tool.Application.Audit.{
  AuditEvent, AuditFields, AuditLine, Trail, http_request, database_write_failed, audit_event,
  safe_fields, persist_http_audit,
}
use network_diagnostic_tool.Application.Middleware.{
  Thrown, http_error, invalid_request, unexpected, Arrival, Answer, Headers, response_middleware,
  serve, level_of_status, audit_fields, actor_id, code_of, error_answer, headers_of,
}
use network_diagnostic_tool.Application.Balance.{is_answered}

-- The trail behind one stored event: the log goes on with `rest`, and the table has at most one row
-- more, of the same fields.
record Kept (fields : AuditFields) (t t' : Trail) : Type 0 where
  rest : List AuditLine
  log : t'.log ≡ t.log ++ rest
  rows :
      (t'.audit_events ≡ t.audit_events)
      ⊎ ((row : AuditEvent) × (t'.audit_events ≡ t.audit_events ++ row ∷ [])
          × (row.details ≡ safe_fields fields))

-- What a refused request leaves: the answer is an error with the code, the status and the request id
-- that its line of the log has, the header has that id too, and a row holds the fields of the line.
pub record IsTold {D : Type 0} (answer : Answer D) (t t' : Trail) : Type 0 where
  pub fields : AuditFields
  pub headers : Headers
  pub detail : ErrorDetail
  pub is_error : answer.response.content.success ≡ false
  pub says : answer.response.content.error ≡ some detail
  pub same_code : fields.result_code ≡ some detail.code
  pub same_status : fields.http_status_code ≡ answer.response.status_code
  pub same_id : fields.request_id ≡ answer.response.content.meta.request_id
  pub stamped : answer.headers ≡ some headers
  pub same_header : headers.x_request_id ≡ answer.response.content.meta.request_id
  pub rest : List AuditLine
  pub log :
      t'.log ≡ t.log ++ http_request (level_of_status answer.response.status_code) fields ∷ rest
  pub rows :
      (t'.audit_events ≡ t.audit_events)
      ⊎ ((row : AuditEvent) × (t'.audit_events ≡ t.audit_events ++ row ∷ [])
          × (row.details ≡ safe_fields fields))

module _ (accepts : AuditEvent → Bool) (s : Settings) where
  persist_http_audit-Kept :
      (now : ℕ) (actor : Option ℕ) (key : Option Text) (fields : AuditFields) (t : Trail)
      → Kept fields t (persist_http_audit accepts s now actor key fields t)
  unfolding persist_http_audit audit_event
  persist_http_audit-Kept now actor key fields t = elim (Bool-cases s.database_enabled) [
    | inl on ↦
        let row = audit_event accepts s now actor key fields in
        elim (Bool-cases (accepts row)) [
          | inl taken ↦
              rw (on, taken)
                (record { rest = []; log = sym (append-nil t.log); rows = inr (row, refl, refl) })
          | inr refused ↦
              rw (on, refused)
                (record {
                  rest = database_write_failed fields.request_id ∷ [];
                  log = refl;
                  rows = inl refl;
                })
        ]
    | inr off ↦ rw off (record { rest = []; log = sym (append-nil t.log); rows = inl refl })
  ]

module _ (accepts : AuditEvent → Bool) (s : Settings) (x : Crypto) (unhandled : Text)
    {D : Type 0} where
  error_answer-IsTold :
      (a : Arrival) (status : ℕ) (code message : Text) (t : Trail)
      → (let end =
            response_middleware accepts s x unhandled {D = D} a
              (some code)
              (error_answer accepts s x unhandled a status code message)
              t in
          IsTold end.0 t end.1)
  unfolding response_middleware
  error_answer-IsTold a status code message t =
      let fields = audit_fields s x a (some code) status in
      let line = http_request (level_of_status status) fields in
      let kept =
        persist_http_audit-Kept accepts s a.now (actor_id a.current_user) fields.client_key fields
          (record t { log = t.log ++ line ∷ [] }) in
      record {
        fields = fields;
        headers = headers_of a;
        detail = record { code = code; message = message };
        is_error = refl;
        says = refl;
        same_code = refl;
        same_status = refl;
        same_id = refl;
        stamped = refl;
        same_header = refl;
        rest = kept.rest;
        log = kept.log ∙ append_assoc t.log (line ∷ []) kept.rest;
        rows = kept.rows;
      }

  -- A request whose route raises an `HTTPException` or fails the validation is answered by an error
  -- that has the code, the status and the request id of its line in the log, the id also in its
  -- header; the table of audit events gets the fields of that line as one row, or nothing.
  pub serve-IsTold :
      (a : Arrival) (e : Thrown) (t : Trail)
      → is_answered {D = D} (a, raised e) ≡ true
      → IsTold
          (serve accepts s x unhandled {D = D} a (raised e) t).0
          t
          (serve accepts s x unhandled {D = D} a (raised e) t).1
  unfolding serve
  serve-IsTold a (invalid_request messages) t h =
      error_answer-IsTold a 422 (text "VALIDATION_ERROR") messages t
  serve-IsTold a (http_error status code message) t h =
      error_answer-IsTold a status (code_of status code) message t
  serve-IsTold a (unexpected e) t h = cc
