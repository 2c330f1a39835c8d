-- ===== src/Diagnostics/Tests.antt =====
-- Reports of a user's HTTP checks, with a toy `urlsplit` that takes a URL for its own query.
use network_diagnostic_tool.Common.{
  ℕ, ◌≤◌, ◌≡◌, ◌≢◌, refl, true, false, Option, none, some, List, [], Text, text, All, length, ◌==◌,
  nat_eq, list_eq, ok, raised, if◌then◌else◌,
}
use network_diagnostic_tool.Exceptions.{Exception, Raises}
use network_diagnostic_tool.Security.Domain.{UrlParts}
use network_diagnostic_tool.HttpService.Defs.{
  Web, HttpCheckResult, get_method, gaierror, connect_error, perform_http_check,
}
use network_diagnostic_tool.Accounts.Sample.{settings, crypto, context}
use network_diagnostic_tool.Settings.{Settings}
use network_diagnostic_tool.Guards.ClientIp.{Peer}
use network_diagnostic_tool.Diagnostics.Rows.{HttpCheckRequest, Details, dns_details, Run, Store}
use network_diagnostic_tool.Dns.Defs.{mx}
use network_diagnostic_tool.Diagnostics.Persistence.{
  Outside, Report, redact_url, target_host, subject_of, persist_diagnostic,
}
use network_diagnostic_tool.Diagnostics.History.{
  Item, DiagnosticDetail, recent_diagnostics, diagnostic_detail, is_admin_context,
}
use network_diagnostic_tool.Diagnostics.Recorded.{
  IsConsistent, Adds, persist_diagnostic-Adds, persist_diagnostic-IsConsistent,
}
use network_diagnostic_tool.Diagnostics.Access.{IsScan, IsOwnDetail, IsOwnItem, history-IsOwn}
use network_diagnostic_tool.Diagnostics.Readback.{ReadsBack, persist_diagnostic-get_diagnostic}
use network_diagnostic_tool.Diagnostics.Redaction.{
  IsSameTarget, details_at, persist_diagnostic-IsSameTarget,
}
use network_diagnostic_tool.Diagnostics.Routes.{DiagnosticCall, Exchange, http_check_of, http_check}
use network_diagnostic_tool.Diagnostics.Answers.{
  IsReadable, http_answer, http_code, is_status, http_check-answer,
}

abbrev keeping : Settings
keeping = record settings { diagnostic_persistence_enabled = true }

abbrev refused : Text
refused = text "http://["

abbrev split_url : Text → Option UrlParts
split_url url =
    if url == refused
    then none
    else some (record {
      scheme = text "http";
      netloc = text "a.co";
      path = text "/";
      query = url;
      fragment = [];
      username = none;
      password = none;
      hostname = some (text "a.co");
    })

abbrev outside : Outside
outside = record {
  urlsplit = split_url;
  urlunsplit = λ scheme netloc path. netloc;
  accepts = λ run detail. true;
}

abbrev peer : Peer
peer = record { host = some (text "9.9.9.9"); x_forwarded_for = none }

abbrev lookup : Details
lookup = dns_details (record { domain = text "a.co"; record_type = mx }) none

abbrev report : Report
report = record {
  request_id = 1;
  api_path = text "/api/v1/dns-lookup";
  peer = peer;
  current_user = some context;
  success = false;
  result_code = text "CONNECTION_TIMEOUT";
  api_status_code = 200;
  duration_ms = 5;
  started_at = 10;
  completed_at = 20;
  created_at = 20;
  details = lookup;
  error_message = some (text "late");
}

abbrev empty : Store
empty = record { runs = []; details = []; log = [] }

abbrev stored : Store
stored = (persist_diagnostic outside keeping crypto report empty).1

persists : (persist_diagnostic outside keeping crypto report empty).0 ≡ ok tt
unfolding persist_diagnostic subject_of
persists = refl

persist_diagnostic-Adds_example :
    ((persist_diagnostic outside keeping crypto report empty).0 ≡ ok tt
      → Adds outside keeping crypto report empty stored)
    × ((e : Exception)
        → (persist_diagnostic outside keeping crypto report empty).0 ≡ raised e
        → (subject_of outside lookup ≡ raised e) × (stored ≡ empty))
persist_diagnostic-Adds_example = persist_diagnostic-Adds outside keeping crypto report empty

persist_diagnostic-IsConsistent_example : IsConsistent stored
persist_diagnostic-IsConsistent_example =
    persist_diagnostic-IsConsistent outside keeping crypto report empty refl

persist_diagnostic-get_diagnostic_example : ReadsBack outside keeping crypto report 7 stored
persist_diagnostic-get_diagnostic_example =
    persist_diagnostic-get_diagnostic outside keeping crypto report context empty refl refl refl
      persists

history-IsOwn_example :
    ((scan : List Run → List Run) (limit offset : ℕ) (items : List Item)
      → IsScan keeping scan
      → recent_diagnostics keeping scan (some context) limit offset stored ≡ ok items
      → All (IsOwnItem keeping (some context) stored) items × (length items ≤ limit))
    × ((run_id : ℕ) (d : DiagnosticDetail)
        → diagnostic_detail keeping (some context) run_id stored ≡ ok d
        → (d.item.id ≡ run_id) × IsOwnDetail keeping (some context) stored d)
history-IsOwn_example =
    history-IsOwn keeping (some context) stored (unfold is_admin_context in refl)

abbrev payload : Text → HttpCheckRequest
payload url = record { url = url; method = get_method; timeout = 5000; follow_redirects = true }

same_target : IsSameTarget outside (text "?q=1") (text "?q=22")
same_target = record {
  left = parts (text "?q=1");
  right = parts (text "?q=22");
  is_text = (refl, refl);
  split_left = refl;
  split_right = refl;
  scheme = refl;
  netloc = refl;
  path = refl;
  extra = refl;
}
  where
    parts : Text → UrlParts
    parts url = record {
      scheme = text "http";
      netloc = text "a.co";
      path = text "/";
      query = url;
      fragment = [];
      username = none;
      password = none;
      hostname = some (text "a.co");
    }

abbrev arrived : HttpCheckResult
arrived = record {
  url = [];
  final_url = none;
  reachable = true;
  status_code = some 200;
  reason_phrase = none;
  resolved_ip = none;
  response_time_ms = 3;
  content_length = none;
  content_type = none;
  server = none;
  redirect_count = 1;
}

persist_diagnostic-IsSameTarget_example :
    persist_diagnostic outside keeping crypto
      (record report {
        details = details_at outside (payload []) (some arrived) (text "?q=1") (some (text "?q=1"));
      })
      empty
    ≡ persist_diagnostic outside keeping crypto
        (record report {
          details =
              details_at outside (payload []) (some arrived) (text "?q=22") (some (text "?q=22"));
        })
        empty
persist_diagnostic-IsSameTarget_example =
    persist_diagnostic-IsSameTarget outside keeping crypto report (payload []) (some arrived)
      (text "?q=1") (text "?q=22") (some (text "?q=1")) (some (text "?q=22")) empty same_target
      same_target

abbrev web : Web
web = record {
  ip_address = λ ip. none;
  idna = λ d. some d;
  urlsplit = split_url;
  join = λ url location. none;
  isdigit = λ t. false;
  int = λ t. none;
  getaddrinfo = λ hop host. gaierror;
  build_request = λ method url. true;
  send = λ timeout hop method url. connect_error;
}

abbrev call : DiagnosticCall
call = record {
  request_id = 1;
  api_path = text "/api/v1/http-check";
  peer = peer;
  current_user = some context;
  started_at = 10;
  completed_at = 20;
  created_at = 20;
  duration_ms = 5;
  failure_ms = 5;
  start = 0;
  end = 5000000;
}

abbrev no_message : Exception → Text
no_message e = []

abbrev fresh : Exchange
fresh = record { result_code = none; store = empty }

abbrev outcome : Raises HttpCheckResult
outcome =
    (perform_http_check keeping web
      (http_check_of outside keeping crypto no_message call (payload (text "http://a.co/")))).0

readable : IsReadable outside (text "http://a.co/")
unfolding redact_url target_host
readable = (some (text "a.co"), refl)

http_check-answer_example :
    ((http_check outside keeping crypto no_message call web (payload (text "http://a.co/")) fresh).0
      ≡ ok (http_answer outside keeping crypto no_message call outcome))
    × ((http_check outside keeping crypto no_message call web
          (payload (text "http://a.co/"))
          fresh).1.result_code
        ≡ some (http_code outside keeping crypto no_message call outcome))
    × (is_status (http_answer outside keeping crypto no_message call outcome).status_code ≡ true)
    × (http_code outside keeping crypto no_message call outcome ≢ text "TOO_MANY_REDIRECTS")
http_check-answer_example =
    http_check-answer outside keeping crypto no_message call web (payload (text "http://a.co/"))
      fresh readable
