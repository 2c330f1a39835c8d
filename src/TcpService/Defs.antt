-- ===== src/TcpService/Defs.antt =====
-- app/services/tcp_service.py: `socket_addr_or_none`, `_resolve` and `perform_port_check`.
-- The network is an argument, `Net`. The connections that are tried come back beside the result.
-- The messages of the results, which are for people, are left out.
use network_diagnostic_tool.Common.{
  ℕ, Bool, true, false, Option, none, some, List, [], ◌∷◌, Text, sorted_set, ok, raised, ◌>>=◌,
  if◌then◌else◌,
}
use network_diagnostic_tool.Exceptions.{Raises, dns_failed, other_error}
use network_diagnostic_tool.Settings.{Settings}
use network_diagnostic_tool.Security.Address.{Address, assert_ip_allowed}
use network_diagnostic_tool.HttpService.Defs.{Lookup, found, gaierror, lookup_error, elapsed_ms}

pub data Family : Type 0 where
  inet inet6 : Family

-- what `asyncio.wait_for(asyncio.open_connection(…))` does: it connects, times out, is refused,
-- raises another `OSError` or any other exception
pub data Connect : Type 0 where
  connects times_out refuses os_fails fails : Connect

pub record Net : Type 0 where
  pub ip_address : Text → Option Address
  -- `socket.inet_pton`: whether the family has the address; `OSError` where it has not
  pub inet_pton : Family → Text → Raises Bool
  pub getaddrinfo : Text → Lookup
  -- by the timeout, the address and the port
  pub open_connection : ℕ → Text → ℕ → Connect

pub data PortState : Type 0 where
  is_open is_refused timed_out no_dns blocked : PortState

pub record PortCheckResult : Type 0 where
  pub host : Text
  pub resolved_ips : List Text
  pub port : ℕ
  pub «open» : Bool
  pub result : PortState
  pub connection_time_ms : Option ℕ

-- a connection that was tried
pub record Connection : Type 0 where
  pub ip : Text
  pub port : ℕ

pub record PortCheck : Type 0 where
  pub host : Text
  pub port : ℕ
  pub timeout : ℕ
  -- the readings of the clock around the connection
  pub start : ℕ
  pub end : ℕ

module _ (s : Settings) (n : Net) where
  unfoldable pub socket_addr_or_none : Text → Raises (Option Text)
  socket_addr_or_none host = do
    four ← n.inet_pton inet host
    if four
        then ok (some host)
        else do six ← n.inet_pton inet6 host; ok (if six then some host else none)

  unfoldable pub resolve_name : Lookup → Raises (List Text)
  resolve_name (found infos) = ok (sorted_set infos)
  resolve_name gaierror = raised dns_failed
  resolve_name lookup_error = raised other_error

  unfoldable pub resolve_host : Text → Option Text → Raises (List Text)
  unfolding resolve_name
  resolve_host host (some (c ∷ ip)) = ok ((c ∷ ip) ∷ [])
  resolve_host host _ = resolve_name (n.getaddrinfo host)

  -- `_resolve`
  unfoldable pub resolve : Text → Raises (List Text)
  unfolding resolve_host
  resolve host = do literal ← socket_addr_or_none host; resolve_host host literal

  module _ (c : PortCheck) where
    unfoldable pub no_address : PortCheckResult
    no_address = record {
      host = c.host;
      resolved_ips = [];
      port = c.port;
      «open» = false;
      result = no_dns;
      connection_time_ms = none;
    }

    abbrev pub report : List Text → Bool → PortState → Option ℕ → Raises PortCheckResult
    report ips is_listening result time = ok (record {
      host = c.host;
      resolved_ips = ips;
      port = c.port;
      «open» = is_listening;
      result = result;
      connection_time_ms = time;
    })

    unfoldable pub after_connect : List Text → Connect → Raises PortCheckResult
    after_connect ips connects = report ips true is_open (some (elapsed_ms c.start c.end))
    after_connect ips times_out = report ips false timed_out none
    after_connect ips refuses = report ips false is_refused (some (elapsed_ms c.start c.end))
    after_connect ips os_fails = report ips false blocked (some (elapsed_ms c.start c.end))
    after_connect ips fails = raised other_error

    -- the first address is asserted to be allowed, and is the one that is connected to
    unfoldable pub connect :
        Text → List Text → Raises Unit → Raises PortCheckResult × List Connection
    unfolding after_connect
    connect ip ips (raised e) = (raised e, [])
    connect ip ips (ok allowed) = (
      after_connect ips (n.open_connection c.timeout ip c.port),
      record { ip = ip; port = c.port } ∷ [],
    )

    unfoldable pub after_resolve : Raises (List Text) → Raises PortCheckResult × List Connection
    unfolding connect no_address
    after_resolve (raised dns_failed) = (ok no_address, [])
    after_resolve (raised e) = (raised e, [])
    after_resolve (ok []) = (ok no_address, [])
    after_resolve (ok (ip ∷ ips)) = connect ip (ip ∷ ips) (assert_ip_allowed n.ip_address s ip)

    unfoldable pub perform_port_check : Raises PortCheckResult × List Connection
    unfolding after_resolve
    perform_port_check = after_resolve (resolve c.host)
