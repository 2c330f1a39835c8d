-- ===== src/Diagnostics/Redaction.antt =====
-- What the log and the tables keep of a URL.
use network_diagnostic_tool.Common.{
  ◌≡◌, ◌∙◌, refl, ap, Bool, true, ◌||◌, Option, none, some, arith, Text, non_empty, ok, ◌>>=◌,
}
use network_diagnostic_tool.Exceptions.{Raises}
use network_diagnostic_tool.Settings.{Settings}
use network_diagnostic_tool.Security.Domain.{UrlParts}
use network_diagnostic_tool.HttpService.Defs.{HttpCheckResult}
use network_diagnostic_tool.Accounts.Credentials.{Crypto}
use network_diagnostic_tool.Diagnostics.Rows.{
  HttpCheckRequest, Details, http_details, http_subject, http_row, HttpRow, Store,
}
use network_diagnostic_tool.Diagnostics.Persistence.{
  Outside, Report, type_of, redact_url, redact_parts, http_row_at, target_host, subject_of,
  http_row_of, detail_of, run_of, log_line, write_rows, persist_diagnostic,
}

module _ (o : Outside) where
  -- Two URLs that differ in their queries and fragments only, and both have one of these or neither.
  pub record IsSameTarget (u v : Text) : Type 0 where
    pub left : UrlParts
    pub right : UrlParts
    pub is_text : (non_empty u ≡ true) × (non_empty v ≡ true)
    pub split_left : o.urlsplit u ≡ some left
    pub split_right : o.urlsplit v ≡ some right
    pub scheme : left.scheme ≡ right.scheme
    pub netloc : left.netloc ≡ right.netloc
    pub path : left.path ≡ right.path
    pub extra :
        non_empty left.query || non_empty left.fragment
        ≡ non_empty right.query || non_empty right.fragment

  redact_url-same : (u v : Text) → IsSameTarget u v → redact_url o (some u) ≡ redact_url o (some v)
  unfolding redact_url redact_parts
  redact_url-same u v t = ground arith

  -- The same of a URL that may be missing.
  abbrev pub IsSameOption : Option Text → Option Text → Type 0
  IsSameOption none none = Unit
  IsSameOption (some u) (some v) = IsSameTarget u v
  IsSameOption _ _ = ⊥

  redact_url-option : (f g : Option Text) → IsSameOption f g → redact_url o f ≡ redact_url o g
  redact_url-option none none t = refl
  redact_url-option (some u) (some v) t = redact_url-same u v t
  redact_url-option none (some v) t = absurd t
  redact_url-option (some u) none t = absurd t

  -- A check of the URL, and its result, if it has one, of that URL, which ended at another.
  abbrev pub details_at : HttpCheckRequest → Option HttpCheckResult → Text → Option Text → Details
  details_at p none u f = http_details (record p { url = u }) none
  details_at p (some r) u f =
      http_details (record p { url = u }) (some (record r { url = u; final_url = f }))

  subject_of-same :
      (p : HttpCheckRequest) (result : Option HttpCheckResult) (u v : Text) (f g : Option Text)
      → redact_url o (some u) ≡ redact_url o (some v)
      → subject_of o (details_at p result u f) ≡ subject_of o (details_at p result v g)
  unfolding subject_of
  subject_of-same p none u v f g e =
      ap
        (λ (q : Option Text × Bool).
          target_host o q.0 >>= λ host. ok (http_subject host q.0 p.method none none))
        e
  subject_of-same p (some r) u v f g e =
      ap
        (λ (q : Option Text × Bool). target_host o q.0 >>= λ host.
          ok (http_subject host q.0 p.method r.status_code (some r.response_time_ms)))
        e

  -- the row reads the last URL only in its redacted form
  http_row_at-same :
      (q : Option Text × Bool) (p : HttpCheckRequest) (r : HttpCheckResult) (f g : Option Text)
      → redact_url o f ≡ redact_url o g
      → http_row_at o q p (some (record r { final_url = f }))
        ≡ http_row_at o q p (some (record r { final_url = g }))
  unfolding http_row_at
  http_row_at-same q p r f g e = rw e refl

  detail_of-same :
      (code : Text) (p : HttpCheckRequest) (result : Option HttpCheckResult) (u v : Text)
      (f g : Option Text)
      → redact_url o (some u) ≡ redact_url o (some v)
      → redact_url o f ≡ redact_url o g
      → detail_of o code (details_at p result u f) ≡ detail_of o code (details_at p result v g)
  unfolding detail_of http_row_of http_row_at
  detail_of-same code p none u v f g e last =
      ap (λ (q : Option Text × Bool). http_row_at o q p none >>= λ row. ok (http_row row)) e
  detail_of-same code p (some r) u v f g e last =
      ap
        (λ (q : Option Text × Bool).
          http_row_at o q p (some (record r { final_url = f })) >>= λ row. ok (http_row row))
        e
      ∙ ap (λ (row : Raises HttpRow). row >>= λ row'. ok (http_row row'))
          (http_row_at-same (redact_url o (some v)) p r f g last)

  details_at-type :
      (p : HttpCheckRequest) (result : Option HttpCheckResult) (u v : Text) (f g : Option Text)
      → type_of (details_at p result u f) ≡ type_of (details_at p result v g)
  details_at-type p none u v f g = refl
  details_at-type p (some r) u v f g = refl

  module _ (s : Settings) (x : Crypto) where
    -- What a report leaves behind, by what it reads of the details.
    persist_diagnostic-reads :
        (r : Report) (d : Details) (st : Store)
        → subject_of o r.details ≡ subject_of o d
        → detail_of o r.result_code r.details ≡ detail_of o r.result_code d
        → type_of r.details ≡ type_of d
        → persist_diagnostic o s x r st ≡ persist_diagnostic o s x (record r { details = d }) st
    unfolding persist_diagnostic write_rows run_of log_line
    persist_diagnostic-reads r d st subject detail kind = ground arith

    -- Neither the log line nor the rows of a report hold anything of a query or a fragment, but whether
    -- there was one, of the URL that was asked for and of the URL at which the redirects ended: two
    -- reports of HTTP checks that differ only there leave the same behind, with a result and without.
    pub persist_diagnostic-IsSameTarget :
        (r : Report) (p : HttpCheckRequest) (result : Option HttpCheckResult) (u v : Text)
        (f g : Option Text) (st : Store)
        → IsSameTarget u v
        → IsSameOption f g
        → persist_diagnostic o s x (record r { details = details_at p result u f }) st
          ≡ persist_diagnostic o s x (record r { details = details_at p result v g }) st
    persist_diagnostic-IsSameTarget r p result u v f g st same same_last =
        let e = redact_url-same u v same in
        persist_diagnostic-reads (record r { details = details_at p result u f })
          (details_at p result v g) st (subject_of-same p result u v f g e)
          (detail_of-same r.result_code p result u v f g e (redact_url-option f g same_last))
          (details_at-type p result u v f g)
