-- ===== src/TcpService/Tests.antt =====
-- A port check of a host that the resolver knows.
use network_diagnostic_tool.Common.{
  ◌≡◌, refl, true, false, none, some, [], ◌∷◌, text, All, sorted_set, ok,
}
use network_diagnostic_tool.Settings.{defaults}
use network_diagnostic_tool.Security.Address.{
  Address, is_metadata, is_special, blocked_within, is_blocked_ip, assert_ip_allowed,
}
use network_diagnostic_tool.HttpService.Defs.{found}
use network_diagnostic_tool.TcpService.Defs.{
  Net, connects, is_open, PortCheck, PortCheckResult, socket_addr_or_none, resolve_name,
  resolve_host, resolve, after_connect, connect, after_resolve, perform_port_check,
}
use network_diagnostic_tool.TcpService.Report.{
  IsAllowed, perform_port_check-IsAllowed, Tells, perform_port_check-Tells,
}

abbrev address : Address
address = record {
  is_loopback = false;
  is_link_local = false;
  is_multicast = false;
  is_reserved = false;
  is_unspecified = false;
  is_private = false;
  ipv4_mapped = none;
}

abbrev net : Net
net = record {
  ip_address = λ ip. some address;
  inet_pton = λ family host. ok false;
  getaddrinfo = λ host. found (text "1.1.1.1" ∷ []);
  open_connection = λ timeout ip port. connects;
}

abbrev check : PortCheck
check = record { host = text "a.co"; port = 443; timeout = 3000; start = 1000000; end = 8000000 }

abbrev expected : PortCheckResult
expected = record {
  host = text "a.co";
  resolved_ips = text "1.1.1.1" ∷ [];
  port = 443;
  «open» = true;
  result = is_open;
  connection_time_ms = some 7;
}

finds_open : (perform_port_check defaults net check).0 ≡ ok expected
unfolding perform_port_check resolve socket_addr_or_none resolve_host resolve_name sorted_set
    after_resolve connect after_connect assert_ip_allowed is_blocked_ip blocked_within is_metadata
    is_special
finds_open = refl

perform_port_check-IsAllowed_example :
    All (IsAllowed defaults net check) (perform_port_check defaults net check).1
perform_port_check-IsAllowed_example = perform_port_check-IsAllowed defaults net check

perform_port_check-Tells_example :
    Tells defaults net check expected (perform_port_check defaults net check).1
perform_port_check-Tells_example = perform_port_check-Tells defaults net check expected finds_open
