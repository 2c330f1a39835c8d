-- ===== src/Diagnostics/Answers.antt =====
-- What a diagnostic route answers.
use network_diagnostic_tool.Common.{
  ℕ, zero, suc, ◌≤◌, ◌≡◌, ◌≢◌, refl, ap, Bool, true, false, ◌||◌, Option, none, some, List, [], ◌∷◌,
  arith, Text, text, non_empty, length, take, ◌==◌, ==_iff, nat_eq, list_eq, ok, raised,
}
use network_diagnostic_tool.Exceptions.{Exception, Raises, too_many_redirects, value_error}
use network_diagnostic_tool.Settings.{Settings}
use network_diagnostic_tool.Responses.{Response}
use network_diagnostic_tool.Security.Domain.{validate_url, out_of_bounds}
use network_diagnostic_tool.HttpService.Defs.{Web, HttpCheckResult, perform_http_check}
use network_diagnostic_tool.HttpService.Errors.{perform_http_check-raises}
use network_diagnostic_tool.HttpService.Report.{perform_http_check-Reports}
use network_diagnostic_tool.Accounts.Credentials.{Crypto}
use network_diagnostic_tool.Diagnostics.Rows.{HttpCheckRequest, http_details, Store}
use network_diagnostic_tool.Diagnostics.Persistence.{
  Outside, Report, redact_url, redact_parts, target_host, subject_of, persist_diagnostic,
}
use network_diagnostic_tool.Diagnostics.Routes.{
  http_failure, DiagnosticCall, Exchange, failed, succeeded, end_report, failure_report,
  http_check_of, after_http_check, http_check,
}

take-all : {A : Type 0} (n : ℕ) (xs : List A) → length xs ≤ n → take n xs ≡ xs
take-all zero [] h = refl
take-all zero (x ∷ xs) h = absurd (omega arith)
take-all (suc n) [] h = refl
take-all (suc n) (x ∷ xs) h = ap (λ l. x ∷ l) (take-all n xs (omega arith))

differs : (a b : Text) → (a == b) ≡ false → a ≢ b
differs a b h e = ground (arith, ==_iff a b)

-- the statuses of the handlers
abbrev pub is_status : ℕ → Bool
is_status n = n == 200 || (n == 400 || (n == 403 || (n == 422 || n == 500)))

module _ (o : Outside) where
  -- `urlsplit` takes the redacted URL, so that the log line can be written.
  abbrev pub IsReadable : Text → Type 0
  IsReadable url = (host : Option Text) × (target_host o (redact_url o (some url)).0 ≡ ok host)

  module _ (s : Settings) (x : Crypto) (message : Exception → Text) (c : DiagnosticCall) where
    persist_readable :
        (r : Report) (p : HttpCheckRequest) (result : Option HttpCheckResult) (st : Store)
        → IsReadable p.url
        → ((q : HttpCheckResult) → result ≡ some q → q.url ≡ p.url)
        → (persist_diagnostic o s x (record r { details = http_details p result }) st).0 ≡ ok tt
    unfolding persist_diagnostic subject_of
    persist_readable r p none st (host, given) same = ground (arith, given)
    persist_readable r p (some q) st (host, given) same =
        let e = same q refl in
        let readable : target_host o (redact_url o (some q.url)).0 ≡ ok host = rw e given in
        ground (arith, readable)

    -- the answer to a check's outcome
    pub http_answer : Raises HttpCheckResult → Response HttpCheckResult
    http_answer (raised e) = failed o s x message c (http_failure e) (message e)
    http_answer (ok r) = succeeded o s x message c r c.duration_ms

    pub http_code : Raises HttpCheckResult → Text
    http_code (raised e) = (http_failure e).0
    http_code (ok r) = text "OK"

    http_failure-status : (e : Exception) → is_status (http_failure e).1 ≡ true
    unfolding http_failure
    http_failure-status too_many_redirects = refl
    http_failure-status _ = refl

    http_answer-status :
        (outcome : Raises HttpCheckResult) → is_status (http_answer outcome).status_code ≡ true
    unfolding http_answer http_failure
    http_answer-status (ok r) = refl
    http_answer-status (raised e) = http_failure-status e

    not_redirects :
        (e : Exception) → e ≢ too_many_redirects → (http_failure e).0 ≢ text "TOO_MANY_REDIRECTS"
    unfolding http_failure
    not_redirects too_many_redirects h e = h refl
    not_redirects other h e = differs (http_failure other).0 (text "TOO_MANY_REDIRECTS") refl e

    http_code-redirects :
        (outcome : Raises HttpCheckResult)
        → outcome ≢ raised too_many_redirects
        → http_code outcome ≢ text "TOO_MANY_REDIRECTS"
    unfolding http_code
    http_code-redirects (ok r) h e = cc
    http_code-redirects (raised f) h e =
        not_redirects f (λ same. h (ap (λ (k : Exception). raised k) same)) e

    after_http_check-answer :
        (p : HttpCheckRequest) (outcome : Raises HttpCheckResult) (ex : Exchange)
        → IsReadable p.url
        → ((r : HttpCheckResult) → outcome ≡ ok r → r.url ≡ p.url)
        → ((after_http_check o s x message c p outcome ex).0 ≡ ok (http_answer outcome))
          × ((after_http_check o s x message c p outcome ex).1.result_code
              ≡ some (http_code outcome))
    unfolding after_http_check http_answer http_code
    after_http_check-answer p (raised e) ex readable same = ground (
      arith,
      persist_readable
          (failure_report o s x message c (http_failure e) (message e) (http_details p none)) p none
          ex.store readable (λ q h. cc),
    )
    after_http_check-answer p (ok r) ex readable same = ground (
      arith,
      persist_readable (end_report o s x message c true (text "OK") (http_details p (some r))) p
          (some r) ex.store readable (λ q h. same q (ground arith)),
    )

    -- Where the redacted URL can be split again: an HTTP check is answered by its outcome alone, with
    -- the result, or with the code and the status of the exception, whatever the database does with
    -- the rows. The status is one of the five, the answer's code is left for the audit, and the code
    -- is never TOO_MANY_REDIRECTS.
    pub http_check-answer :
        (w : Web) (p : HttpCheckRequest) (ex : Exchange)
        → IsReadable p.url
        → let outcome = (perform_http_check s w (http_check_of o s x message c p)).0 in
          ((http_check o s x message c w p ex).0 ≡ ok (http_answer outcome))
          × ((http_check o s x message c w p ex).1.result_code ≡ some (http_code outcome))
          × (is_status (http_answer outcome).status_code ≡ true)
          × (http_code outcome ≢ text "TOO_MANY_REDIRECTS")
    unfolding http_check
    http_check-answer w p ex readable =
        let check = http_check_of o s x message c p in
        let outcome = (perform_http_check s w check).0 in
        let (answer, code) =
          after_http_check-answer p outcome ex readable
            (λ r done. (perform_http_check-Reports s w check r done).url) in
        (
          answer,
          code,
          http_answer-status outcome,
          http_code-redirects outcome (perform_http_check-raises s w check).1,
        )

    -- A URL that `urlsplit` refuses, not too long and not empty: the check, and then the log line of
    -- its failure, raise `ValueError`, so that the handler raises it too, without a `diagnostic_result`
    -- line and without rows of a run.
    pub http_check-unreadable :
        (w : Web) (p : HttpCheckRequest) (ex : Exchange)
        → w.urlsplit p.url ≡ none
        → o.urlsplit p.url ≡ none
        → non_empty p.url ≡ true
        → length p.url ≤ 2048
        → ((http_check o s x message c w p ex).0 ≡ raised value_error)
          × ((http_check o s x message c w p ex).1.store ≡ ex.store)
    unfolding http_check after_http_check persist_diagnostic subject_of redact_url redact_parts
        target_host perform_http_check validate_url out_of_bounds http_failure
    http_check-unreadable w p ex refused refused_again full short =
        ground (arith, take-all 2048 p.url short)
