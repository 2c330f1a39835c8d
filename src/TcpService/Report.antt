-- ===== src/TcpService/Report.antt =====
-- What a port check connects to, and what its result says.
use network_diagnostic_tool.Common.{
  ◌≡◌, ◌↔◌, refl, true, List, [], ◌∷◌, arith, Text, All, ok, raised,
}
use network_diagnostic_tool.Exceptions.{Raises}
use network_diagnostic_tool.Settings.{Settings}
use network_diagnostic_tool.Security.Address.{assert_ip_allowed}
use network_diagnostic_tool.TcpService.Defs.{
  Net, connects, is_open, PortCheck, PortCheckResult, Connection, resolve, no_address,
  after_connect, connect, after_resolve, perform_port_check,
}

module _ (s : Settings) (n : Net) (c : PortCheck) where
  -- An attempt goes to the port that was asked for, at the first address of the host, and that address
  -- is allowed.
  pub record IsAllowed (a : Connection) : Type 0 where
    pub rest : List Text
    pub first : resolve s n c.host ≡ ok (a.ip ∷ rest)
    pub allowed : assert_ip_allowed n.ip_address s a.ip ≡ ok tt
    pub port : a.port ≡ c.port

  connect-IsAllowed :
      (ip : Text) (ips : List Text) (r : Raises Unit)
      → resolve s n c.host ≡ ok (ip ∷ ips)
      → assert_ip_allowed n.ip_address s ip ≡ r
      → All IsAllowed (connect s n c ip (ip ∷ ips) r).1
  unfolding connect
  connect-IsAllowed ip ips (raised e) resolved allowed = tt
  connect-IsAllowed ip ips (ok tt) resolved allowed =
      (record { rest = ips; first = resolved; allowed = allowed; port = refl }, tt)

  after_resolve-IsAllowed :
      (r : Raises (List Text)) → resolve s n c.host ≡ r → All IsAllowed (after_resolve s n c r).1
  unfolding after_resolve
  after_resolve-IsAllowed (raised e) resolved = ground arith
  after_resolve-IsAllowed (ok []) resolved = tt
  after_resolve-IsAllowed (ok (ip ∷ ips)) resolved =
      connect-IsAllowed ip ips (assert_ip_allowed n.ip_address s ip) resolved refl

  -- A port check connects to no address but the first of the host's, to the port that was asked for,
  -- and only if that address is allowed.
  pub perform_port_check-IsAllowed : All IsAllowed (perform_port_check s n c).1
  unfolding perform_port_check
  perform_port_check-IsAllowed = after_resolve-IsAllowed (resolve s n c.host) refl

  -- The result is for the host and the port asked for, and says that the port is open just if a
  -- connection was tried and was made.
  pub record Tells (result : PortCheckResult) (attempts : List Connection) : Type 0 where
    pub host : result.host ≡ c.host
    pub port : result.port ≡ c.port
    pub if_open :
        result.«open» ≡ true
        → (ip : Text) × (attempts ≡ record { ip = ip; port = c.port } ∷ [])
          × (n.open_connection c.timeout ip c.port ≡ connects)
    pub if_connected :
        (ip : Text)
        → attempts ≡ record { ip = ip; port = c.port } ∷ []
        → n.open_connection c.timeout ip c.port ≡ connects
        → result.«open» ≡ true
    pub as_result : (result.«open» ≡ true) ↔ (result.result ≡ is_open)

  connect-Tells :
      (ip : Text) (ips : List Text) (r : Raises Unit) (result : PortCheckResult)
      → (connect s n c ip ips r).0 ≡ ok result
      → Tells result (connect s n c ip ips r).1
  unfolding connect after_connect
  connect-Tells ip ips (raised e) result h = cc
  connect-Tells ip ips (ok tt) result h = record {
    host = ground arith;
    port = ground arith;
    if_open = λ opened. (ip, refl, ground arith);
    if_connected = λ i same made. ground arith;
    as_result = ground arith;
  }

  no_address-Tells : Tells (no_address s n c) []
  unfolding no_address
  no_address-Tells = record {
    host = refl;
    port = refl;
    if_open = λ opened. cc;
    if_connected = λ i same made. cc;
    as_result = ground arith;
  }

  after_resolve-Tells :
      (r : Raises (List Text)) (result : PortCheckResult)
      → (after_resolve s n c r).0 ≡ ok result
      → Tells result (after_resolve s n c r).1
  unfolding after_resolve
  after_resolve-Tells (raised e) result h = ground (arith, no_address-Tells)
  after_resolve-Tells (ok []) result h = ground (arith, no_address-Tells)
  after_resolve-Tells (ok (ip ∷ ips)) result h =
      connect-Tells ip (ip ∷ ips) (assert_ip_allowed n.ip_address s ip) result h

  -- A port check that gives a result gives one for the host and the port that were asked for. It says
  -- that the port is open, in both of the fields that tell it, if and only if a connection to the port
  -- was tried and was made.
  pub perform_port_check-Tells :
      (result : PortCheckResult)
      → (perform_port_check s n c).0 ≡ ok result
      → Tells result (perform_port_check s n c).1
  unfolding perform_port_check
  perform_port_check-Tells result h = after_resolve-Tells (resolve s n c.host) result h
