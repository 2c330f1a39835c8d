-- ===== src/HttpService/Defs.antt =====
-- app/services/http_service.py: `_resolve_and_validate` and `perform_http_check`.
-- The network and the libraries are an argument, `Web`: each call names the number of the hop, so
-- that two calls may be answered differently. The requests sent come back beside the result.
use mathlib.Core.Option
use mathlib.Core.List.{head?}
use network_diagnostic_tool.Common.{
  ℕ, zero, suc, ◌+◌, ◌-◌, ◌/◌, Bool, true, false, ◌&&◌, Option, none, some, List, [], ◌∷◌, Text,
  sorted_set, leb, ltb, nat_beq, ok, raised, ◌>>=◌, ◌>>◌, if◌then◌else◌,
}
use network_diagnostic_tool.Exceptions.{
  Raises, dns_failed, tls_or_transport, too_many_redirects, value_error, timeout_error,
  connection_refused, other_error, out_of_fuel,
}
use network_diagnostic_tool.Settings.{Settings}
use network_diagnostic_tool.Security.Address.{Address, assert_ip_allowed}
use network_diagnostic_tool.Security.Domain.{UrlParts, validate_url, truthy}

-- app/schemas/request.py, `HttpMethod`
pub data Method : Type 0 where
  get_method head_method : Method

pub record HttpResponse : Type 0 where
  pub status_code : ℕ
  pub reason_phrase : Text
  pub is_redirect : Bool
  pub location : Option Text
  pub content_length : Option Text
  pub content_type : Option Text
  pub server : Option Text
  -- the lengths of the body's chunks, and whether reading raises behind them
  pub chunks : List ℕ
  pub breaks : Bool

-- what `client.send` does: `httpx.ConnectTimeout`, `ReadTimeout`, `ConnectError`, any other
-- `TransportError`, and any other exception
pub data Reply : Type 0 where
  responds : HttpResponse → Reply
  connect_timeout read_timeout connect_error transport_error send_error : Reply

-- what `getaddrinfo` does: addresses, `socket.gaierror`, any other exception
pub data Lookup : Type 0 where
  found : List Text → Lookup
  gaierror lookup_error : Lookup

pub record Web : Type 0 where
  -- `ipaddress.ip_address`, the IDNA codec, `urlsplit`: `none` where they raise
  pub ip_address : Text → Option Address
  pub idna : Text → Option Text
  pub urlsplit : Text → Option UrlParts
  -- `httpx.URL(url).join(location)`, `none` where it raises
  pub join : Text → Text → Option Text
  -- `str.isdigit`, and `int`, `none` where it raises
  pub isdigit : Text → Bool
  pub int : Text → Option ℕ
  pub getaddrinfo : ℕ → Option Text → Lookup
  -- whether `client.build_request` takes the URL
  pub build_request : Method → Text → Bool
  -- by the timeout, the hop, the method and the URL
  pub send : ℕ → ℕ → Method → Text → Reply

-- a request that was sent: its URL, and the addresses that were looked at before
pub record Hop : Type 0 where
  pub url : Text
  pub ips : List Text

pub record HttpCheckResult : Type 0 where
  pub url : Text
  pub final_url : Option Text
  pub reachable : Bool
  pub status_code : Option ℕ
  pub reason_phrase : Option Text
  pub resolved_ip : Option Text
  pub response_time_ms : ℕ
  pub content_length : Option ℕ
  pub content_type : Option Text
  pub server : Option Text
  pub redirect_count : ℕ

-- the loop over the chunks, from what is received already
unfoldable pub receive : ℕ → ℕ → List ℕ → Bool → Raises ℕ
receive limit received [] breaks = if breaks then raised other_error else ok received
receive limit received (chunk ∷ chunks) breaks =
    let rest = receive limit (received + chunk) chunks breaks in
    if leb limit (received + chunk) then ok (received + chunk) else rest

-- `int((end - start) * 1000)`, of two readings in nanoseconds
abbrev pub elapsed_ms : ℕ → ℕ → ℕ
elapsed_ms start end = (end - start) / 1000000

-- one round of the loop ends the check, or goes on at the next URL
pub data Round : Type 0 where
  finished : Raises HttpCheckResult → List Hop → Round
  redirected : Text → Hop → Round

pub record HttpCheck : Type 0 where
  pub url : Text
  pub method : Method
  pub timeout : ℕ
  pub follow_redirects : Bool
  -- the readings of the clock at the start and at the end
  pub start : ℕ
  pub end : ℕ

-- `received or None`
abbrev pub or_none : ℕ → Option ℕ
or_none n = if nat_beq n 0 then none else some n

-- `"location" in response.headers`
abbrev pub has : Option Text → Bool
has none = false
has (some header) = true

module _ (s : Settings) (w : Web) where
  -- `for ip in ips: assert_ip_allowed(ip)`
  unfoldable pub assert_all_allowed : List Text → Raises Unit
  assert_all_allowed [] = ok tt
  assert_all_allowed (ip ∷ ips) = do assert_ip_allowed w.ip_address s ip; assert_all_allowed ips

  unfoldable pub check_ips : List Text → Raises (List Text)
  check_ips [] = raised dns_failed
  check_ips (ip ∷ ips) = do assert_all_allowed (ip ∷ ips); ok (ip ∷ ips)

  unfoldable pub after_lookup : Lookup → Raises (List Text)
  after_lookup (found infos) = check_ips (sorted_set infos)
  after_lookup gaierror = raised dns_failed
  after_lookup lookup_error = raised other_error

  unfoldable pub resolve_and_validate : ℕ → Option Text → Raises (List Text)
  unfolding after_lookup
  resolve_and_validate hop hostname = after_lookup (w.getaddrinfo hop hostname)

  -- `int(header)`
  unfoldable pub parsed : Option ℕ → Raises (Option ℕ)
  parsed none = raised value_error
  parsed (some n) = ok (some n)

  unfoldable pub content_length_of : Option Text → ℕ → Raises (Option ℕ)
  unfolding parsed
  content_length_of none received = ok (or_none received)
  content_length_of (some header) received =
      if truthy (some header) && w.isdigit header
      then parsed (w.int header)
      else ok (or_none received)

  module _ (c : HttpCheck) where
    -- the response that is no redirect to follow
    unfoldable pub complete : ℕ → Hop → HttpResponse → Raises HttpCheckResult
    complete count hop r = do
      received ← receive s.max_response_bytes 0 r.chunks r.breaks
      length ← content_length_of r.content_length received
      ok (record {
        url = c.url;
        final_url = some hop.url;
        reachable = true;
        status_code = some r.status_code;
        reason_phrase = some r.reason_phrase;
        resolved_ip = head? hop.ips;
        response_time_ms = elapsed_ms c.start c.end;
        content_length = length;
        content_type = r.content_type;
        server = r.server;
        redirect_count = count;
      })

    -- what precedes the request of a round
    unfoldable pub prepare_parts : Text → ℕ → Option UrlParts → Raises Hop
    prepare_parts url count none = raised value_error
    prepare_parts url count (some parts) = do
      ips ← resolve_and_validate count parts.hostname
      if w.build_request c.method url
          then ok (record { url = url; ips = ips })
          else raised other_error

    unfoldable pub prepare : Text → ℕ → Raises Hop
    unfolding prepare_parts
    prepare url count = prepare_parts url count (w.urlsplit url)

    -- the next URL; a missing header is a `KeyError`
    unfoldable pub redirect : ℕ → Hop → Option Text → Round
    redirect count hop none = finished (raised other_error) (hop ∷ [])
    redirect count hop (some location) = elim (w.join hop.url location) [
      | none ↦ finished (raised other_error) (hop ∷ [])
      | some next ↦ elim (validate_url w.idna w.ip_address w.urlsplit next) [
        | raised e ↦ finished (raised e) (hop ∷ [])
        | ok checked ↦
            if ltb s.max_redirects (count + 1)
            then finished (raised too_many_redirects) (hop ∷ [])
            else redirected next hop
      ]
    ]

    unfoldable pub is_redirect : ℕ → HttpResponse → Bool
    is_redirect count r =
        c.follow_redirects && (r.is_redirect && (has r.location && ltb count s.max_redirects))

    unfoldable pub after_send : ℕ → Hop → Reply → Round
    after_send count hop (responds r) =
        if is_redirect count r
        then redirect count hop r.location
        else finished (complete count hop r) (hop ∷ [])
    after_send count hop connect_timeout = finished (raised timeout_error) (hop ∷ [])
    after_send count hop read_timeout = finished (raised timeout_error) (hop ∷ [])
    after_send count hop connect_error = finished (raised connection_refused) (hop ∷ [])
    after_send count hop transport_error = finished (raised tls_or_transport) (hop ∷ [])
    after_send count hop send_error = finished (raised other_error) (hop ∷ [])

    unfoldable pub round : Text → ℕ → Round
    round url count = elim (prepare url count) [
      | raised e ↦ finished (raised e) []
      | ok hop ↦ after_send count hop (w.send c.timeout count c.method url)
    ]

    -- the loop, at a URL and a number of redirects: `none` if the fuel runs out
    unfoldable pub loop : ℕ → Text → ℕ → Option (Raises HttpCheckResult × List Hop)
    loop zero url count = none
    loop (suc fuel) url count = elim (round url count) [
      | finished result hops ↦ some (result, hops)
      | redirected next hop ↦
          Option.map (λ (result, hops). (result, hop ∷ hops)) (loop fuel next (count + 1))
    ]

    -- the result, and the requests that were sent, in their order
    unfoldable pub perform_http_check : Raises HttpCheckResult × List Hop
    perform_http_check = elim (validate_url w.idna w.ip_address w.urlsplit c.url) [
      | raised e ↦ (raised e, [])
      | ok checked ↦ Option.get_or (loop (s.max_redirects + 1) c.url 0) (raised out_of_fuel, [])
    ]
