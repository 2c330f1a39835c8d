-- ===== src/HttpService/Tests.antt =====
-- HTTP checks over a small network: one redirect, and an address that maps a private one.
use Prim.Native.String.{String}
use network_diagnostic_tool.Common.{
  ◌≤◌, ◌≡◌, ◌≢◌, refl, ap, Bool, true, false, Option, none, some, List, [], ◌∷◌, arith, Text, text,
  ◌==◌, list_eq, nat_eq, if◌then◌else◌, length, starts_with, ends_with, has_part, strip_leading,
  strip_trailing, split_pieces, split, sorted_set, ok, raised,
}
use network_diagnostic_tool.Exceptions.{Exception, Raises, too_many_redirects, out_of_fuel}
use network_diagnostic_tool.Settings.{Settings, defaults}
use network_diagnostic_tool.Security.Address.{
  Address, is_metadata, is_special, blocked_within, is_blocked_ip, assert_ip_allowed, MappedIsPlain,
}
use network_diagnostic_tool.Security.Domain.{
  UrlParts, is_alnum, is_label_char, last_of, matches_rest, matches_body, before_newline,
  matches_label, check_labels, out_of_bounds, has_scheme_or_path, is_web_scheme, candidate,
  validate_domain, validate_host, validate_url,
}
use network_diagnostic_tool.HttpService.Defs.{
  Web, Hop, HttpCheck, HttpCheckResult, HttpResponse, responds, connect_error, found, get_method,
  receive, assert_all_allowed, check_ips, resolve_and_validate, content_length_of, complete,
  prepare, is_redirect, redirect, after_send, round, loop, perform_http_check,
}
use network_diagnostic_tool.HttpService.Termination.{perform_http_check-ends}
use network_diagnostic_tool.HttpService.Safety.{
  AllFrom, IsPublicHop, perform_http_check-IsPublicHop,
}
use network_diagnostic_tool.HttpService.AtLimit.{perform_http_check-at_limit}
use network_diagnostic_tool.HttpService.Report.{Reports, perform_http_check-Reports}
use network_diagnostic_tool.HttpService.Errors.{is_check_error, perform_http_check-raises}

abbrev public_address : Address
public_address = record {
  is_loopback = false;
  is_link_local = false;
  is_multicast = false;
  is_reserved = false;
  is_unspecified = false;
  is_private = false;
  ipv4_mapped = none;
}

abbrev parts_of : String → String → UrlParts
parts_of scheme host = record {
  scheme = text scheme;
  netloc = text host;
  path = [];
  query = [];
  fragment = [];
  username = none;
  password = none;
  hostname = some (text host);
}

abbrev first_url : Text
first_url = text "http://a.co"

abbrev second_url : Text
second_url = text "https://b.co"

abbrev split_url : Text → Option UrlParts
split_url url =
    if url == first_url
    then some (parts_of "http" "a.co")
    else if url == second_url
    then some (parts_of "https" "b.co")
    else none

abbrev target : Text
target = text "1.1.1.1"

abbrev parse_address : Text → Option Address
parse_address ip = if ip == target then some public_address else none

abbrev moved : HttpResponse
moved = record {
  status_code = 301;
  reason_phrase = text "Moved Permanently";
  is_redirect = true;
  location = some second_url;
  content_length = none;
  content_type = none;
  server = none;
  chunks = [];
  breaks = false;
}

abbrev served : HttpResponse
served = record {
  status_code = 200;
  reason_phrase = text "OK";
  is_redirect = false;
  location = none;
  content_length = none;
  content_type = some (text "text/html");
  server = none;
  chunks = 600 ∷ 12 ∷ [];
  breaks = false;
}

abbrev web : Web
web = record {
  ip_address = parse_address;
  idna = λ d. some d;
  urlsplit = split_url;
  join = λ url location. some location;
  isdigit = λ t. false;
  int = λ t. none;
  getaddrinfo = λ hop host. found (target ∷ target ∷ []);
  build_request = λ method url. true;
  send = λ timeout hop method url.
      if url == first_url
      then responds moved
      else if url == second_url
      then responds served
      else connect_error;
}

abbrev check : HttpCheck
check = record {
  url = first_url;
  method = get_method;
  timeout = 5000;
  follow_redirects = true;
  start = 1000000;
  end = 43000000;
}

abbrev expected : HttpCheckResult
expected = record {
  url = first_url;
  final_url = some second_url;
  reachable = true;
  status_code = some 200;
  reason_phrase = some (text "OK");
  resolved_ip = some target;
  response_time_ms = 42;
  content_length = some 612;
  content_type = some (text "text/html");
  server = none;
  redirect_count = 1;
}

abbrev hops : List Hop
hops =
    record { url = first_url; ips = target ∷ [] }
    ∷ record { url = second_url; ips = target ∷ [] }
    ∷ []

follows : perform_http_check defaults web check ≡ (ok expected, hops)
unfolding perform_http_check validate_url out_of_bounds is_web_scheme validate_host
    has_scheme_or_path candidate has_part starts_with ends_with validate_domain strip_trailing
    strip_leading split split_pieces check_labels matches_label matches_body matches_rest
    is_label_char is_alnum last_of before_newline loop round prepare resolve_and_validate sorted_set
    check_ips assert_all_allowed assert_ip_allowed is_blocked_ip blocked_within is_metadata
    is_special after_send is_redirect redirect complete receive content_length_of
follows = refl

first_url_valid : validate_url web.idna web.ip_address web.urlsplit first_url ≡ ok first_url
unfolding validate_url out_of_bounds is_web_scheme validate_host has_scheme_or_path candidate
    has_part starts_with ends_with validate_domain strip_trailing strip_leading split split_pieces
    check_labels matches_label matches_body matches_rest is_label_char is_alnum last_of
    before_newline
first_url_valid = refl

perform_http_check-ends_example :
    (loop defaults web check 9 first_url 0 ≡ some (perform_http_check defaults web check))
    × (length (perform_http_check defaults web check).1 ≤ 6)
perform_http_check-ends_example =
    perform_http_check-ends defaults web check 9 first_url first_url_valid (omega arith)

web-MappedIsPlain : MappedIsPlain parse_address
web-MappedIsPlain ip mapped a h e = absurd (unmapped (ip == target) h)
  where
    unmapped : (b : Bool) → (if b then some public_address else none) ≡ some a → ⊥
    unmapped true p = ground arith
    unmapped false p = cc

perform_http_check-IsPublicHop_example :
    AllFrom (IsPublicHop defaults web) 0 (perform_http_check defaults web check).1
perform_http_check-IsPublicHop_example =
    perform_http_check-IsPublicHop defaults web check refl web-MappedIsPlain

perform_http_check-Reports_example :
    Reports defaults web check 0 expected (perform_http_check defaults web check).1
perform_http_check-Reports_example =
    perform_http_check-Reports defaults web check expected
      (ap (λ (p : Raises HttpCheckResult × List Hop). p.0) follows)

perform_http_check-raises_example :
    ((e : Exception)
      → (perform_http_check defaults web check).0 ≡ raised e
      → is_check_error e ≡ true)
    × ((perform_http_check defaults web check).0 ≢ raised too_many_redirects)
    × ((perform_http_check defaults web check).0 ≢ raised out_of_fuel)
perform_http_check-raises_example = perform_http_check-raises defaults web check

-- no redirect is followed
abbrev unmoving : Settings
unmoving = record defaults { max_redirects = 0 }

abbrev first_hop : Hop
first_hop = record { url = first_url; ips = target ∷ [] }

one_request : (perform_http_check unmoving web check).1 ≡ first_hop ∷ []
unfolding perform_http_check validate_url out_of_bounds is_web_scheme validate_host
    has_scheme_or_path candidate has_part starts_with ends_with validate_domain strip_trailing
    strip_leading split split_pieces check_labels matches_label matches_body matches_rest
    is_label_char is_alnum last_of before_newline loop round prepare resolve_and_validate sorted_set
    check_ips assert_all_allowed assert_ip_allowed is_blocked_ip blocked_within is_metadata
    is_special after_send is_redirect redirect complete receive content_length_of
one_request = refl

perform_http_check-at_limit_example :
    (result : HttpCheckResult) × ((perform_http_check unmoving web check).0 ≡ ok result)
    × (result.status_code ≡ some 301)
    × (result.final_url ≡ some first_url)
    × (result.redirect_count ≡ 0)
perform_http_check-at_limit_example =
    perform_http_check-at_limit unmoving web check [] first_hop moved 0 none one_request refl refl
      (unfold receive in refl) (unfold content_length_of in refl)
