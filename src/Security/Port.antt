-- ===== src/Security/Port.antt =====
-- app/core/security.py: `assert_port_allowed`.
use network_diagnostic_tool.Common.{
  ℕ, ◌≤◌, ◌≡◌, ◌≢◌, ◌↔◌, ◌⊎◌, Bool, true, false, not, ◌&&◌, List, [], ◌∷◌, arith, leb, contains,
  nat_eq, ok, raised, ◌>>◌, raise_if, if◌then◌else◌,
}
use network_diagnostic_tool.Exceptions.{Raises, validation_error, target_not_allowed}
use network_diagnostic_tool.Settings.{Settings}

-- `bool(ports)`
abbrev pub any_port : List ℕ → Bool
any_port [] = false
any_port (port ∷ ports) = true

unfoldable pub assert_port_allowed : Settings → ℕ → Raises Unit
assert_port_allowed s port = do
  raise_if (not (leb 1 port && leb port 65535)) validation_error
  if s.allow_private_targets
      then ok tt
      else raise_if (any_port s.allowed_tcp_ports && not (contains s.allowed_tcp_ports port))
          target_not_allowed

-- A port passes exactly if it lies between 1 and 65535 and either private targets are allowed, or no
-- list of ports is set, or the list has it. It is a validation error exactly if it lies outside the
-- range, and a target that is not allowed exactly if it lies in the range, private targets are not
-- allowed, and a list of ports is set that does not have it.
pub assert_port_allowed_iff :
    (s : Settings) (port : ℕ)
    → ((assert_port_allowed s port ≡ ok tt) ↔ (
        (1 ≤ port)
        × (port ≤ 65535)
        × ((s.allow_private_targets ≡ true)
            ⊎ ((s.allowed_tcp_ports ≡ []) ⊎ (contains s.allowed_tcp_ports port ≡ true)))))
      × ((assert_port_allowed s port ≡ raised validation_error) ↔ ((port ≡ 0) ⊎ (65536 ≤ port)))
      × ((assert_port_allowed s port ≡ raised target_not_allowed) ↔ (
          (1 ≤ port)
          × (port ≤ 65535)
          × (s.allow_private_targets ≡ false)
          × (s.allowed_tcp_ports ≢ [])
          × (contains s.allowed_tcp_ports port ≡ false)))
unfolding assert_port_allowed
assert_port_allowed_iff s port = (ground arith, ground arith, ground arith)
