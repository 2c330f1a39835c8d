-- ===== src/Security/Tests.antt =====
-- The target checks at concrete inputs.
use network_diagnostic_tool.Common.{
  ℕ, ◌≡◌, ◌≤◌, ◌↔◌, ◌⊎◌, refl, Bool, true, false, Option, none, some, [], ◌∷◌, ◌++◌, arith, Text,
  text, ◌==◌, list_eq, nat_eq, if◌then◌else◌, All, contains, starts_with, ends_with, has_part,
  strip_leading, strip_trailing, split_pieces, split, ok, raised,
}
use network_diagnostic_tool.Exceptions.{target_not_allowed, validation_error}
use network_diagnostic_tool.Settings.{defaults}
use network_diagnostic_tool.Security.Address.{
  Address, IsPublic, MappedIsPlain, is_metadata, is_special, blocked_within, is_blocked_ip,
  assert_ip_allowed, assert_ip_allowed_iff,
}
use network_diagnostic_tool.Security.Domain.{
  UrlParts, is_alnum, is_label_char, last_of, matches_rest, matches_body, before_newline,
  matches_label, check_labels, out_of_bounds, has_scheme_or_path, is_web_scheme, candidate,
  validate_domain, validate_host, validate_url,
}
use network_diagnostic_tool.Common.{◌≢◌}
use network_diagnostic_tool.Security.Port.{assert_port_allowed, assert_port_allowed_iff}
use network_diagnostic_tool.Security.Chars.{
  IsDomainChar, validate_domain-IsDomainChar, matches_label-newline,
}
use network_diagnostic_tool.Security.Url.{IsWebUrl, validate_url-IsWebUrl}

-- a codec that leaves ASCII as it is
abbrev ascii : Text → Option Text
ascii domain = some domain

domain_accepted : validate_domain ascii (text "example.com") ≡ ok (text "example.com")
unfolding validate_domain out_of_bounds has_scheme_or_path has_part starts_with strip_trailing
    strip_leading split split_pieces check_labels matches_label matches_body matches_rest
    is_label_char is_alnum last_of before_newline
domain_accepted = refl

domains_rejected :
    (validate_domain ascii (text "localhost") ≡ raised validation_error)
    × (validate_domain ascii (text "https://example.com") ≡ raised validation_error)
    × (validate_domain ascii (text "example.com/path") ≡ raised validation_error)
    × (validate_domain ascii (text "-a.com") ≡ raised validation_error)
unfolding validate_domain out_of_bounds has_scheme_or_path has_part starts_with strip_trailing
    strip_leading split split_pieces check_labels matches_label matches_body matches_rest
    is_label_char is_alnum last_of before_newline
domains_rejected = (refl, refl, refl, refl)

-- a newline at the end of a domain passes
newline_accepted : validate_domain ascii (text "example.com\n") ≡ ok (text "example.com\n")
unfolding validate_domain out_of_bounds has_scheme_or_path has_part starts_with strip_trailing
    strip_leading split split_pieces check_labels matches_label matches_body matches_rest
    is_label_char is_alnum last_of before_newline
newline_accepted = refl

validate_domain-IsDomainChar_example : All IsDomainChar (text "example.com")
validate_domain-IsDomainChar_example =
    validate_domain-IsDomainChar ascii (text "example.com") (text "example.com") domain_accepted

matches_label-newline_example : matches_label (text "com" ++ 10 ∷ []) ≡ true
matches_label-newline_example =
    matches_label-newline (text "com")
      (unfold matches_body matches_rest is_label_char is_alnum last_of in refl)

abbrev closed_port : ℕ
closed_port = 9999

assert_port_allowed_iff_example :
    ((assert_port_allowed defaults closed_port ≡ ok tt) ↔ (
      (1 ≤ closed_port)
      × (closed_port ≤ 65535)
      × ((defaults.allow_private_targets ≡ true)
          ⊎ ((defaults.allowed_tcp_ports ≡ [])
              ⊎ (contains defaults.allowed_tcp_ports closed_port ≡ true)))))
    × ((assert_port_allowed defaults closed_port ≡ raised validation_error)
        ↔ ((closed_port ≡ 0) ⊎ (65536 ≤ closed_port)))
    × ((assert_port_allowed defaults closed_port ≡ raised target_not_allowed) ↔ (
        (1 ≤ closed_port)
        × (closed_port ≤ 65535)
        × (defaults.allow_private_targets ≡ false)
        × (defaults.allowed_tcp_ports ≢ [])
        × (contains defaults.allowed_tcp_ports closed_port ≡ false)))
assert_port_allowed_iff_example = assert_port_allowed_iff defaults closed_port

-- a small reader of addresses: one public, one private, and one that maps the private one
abbrev plain_address : Bool → Option Text → Address
plain_address private mapped = record {
  is_loopback = false;
  is_link_local = false;
  is_multicast = false;
  is_reserved = false;
  is_unspecified = false;
  is_private = private;
  ipv4_mapped = mapped;
}

abbrev read_address : Text → Option Address
read_address ip =
    if ip == text "8.8.8.8"
    then some (plain_address false none)
    else if ip == text "10.0.0.5"
    then some (plain_address true none)
    else if ip == text "::ffff:10.0.0.5"
    then some (plain_address false (some (text "10.0.0.5")))
    else none

mapped_blocked :
    assert_ip_allowed read_address defaults (text "::ffff:10.0.0.5") ≡ raised target_not_allowed
unfolding assert_ip_allowed is_blocked_ip blocked_within is_metadata is_special
mapped_blocked = refl

public_passes : assert_ip_allowed read_address defaults (text "8.8.8.8") ≡ ok tt
unfolding assert_ip_allowed is_blocked_ip blocked_within is_metadata is_special
public_passes = refl

read_address-MappedIsPlain : MappedIsPlain read_address
read_address-MappedIsPlain ip mapped a h e =
    decide (ip == text "8.8.8.8") (ip == text "10.0.0.5") (ip == text "::ffff:10.0.0.5") h
  where
    decide :
        (x y z : Bool)
        → (if x
            then some (plain_address false none)
            else if y
            then some (plain_address true none)
            else if z
            then some (plain_address false (some (text "10.0.0.5")))
            else none)
          ≡ some a
        → (b : Address) × (read_address mapped ≡ some b) × (b.ipv4_mapped ≡ none)
    decide true y z p = absurd (ground arith)
    decide false true z p = absurd (ground arith)
    decide false false true p =
        let same : text "10.0.0.5" ≡ mapped = ground arith in
        rw (← same) (plain_address true none, refl, refl)
    decide false false false p = cc

assert_ip_allowed_iff_example :
    ((assert_ip_allowed read_address defaults (text "8.8.8.8") ≡ ok tt)
      ↔ IsPublic read_address (text "8.8.8.8"))
    × ((assert_ip_allowed read_address defaults (text "8.8.8.8") ≡ raised target_not_allowed)
        ↔ ¬ IsPublic read_address (text "8.8.8.8"))
assert_ip_allowed_iff_example =
    assert_ip_allowed_iff read_address defaults (text "8.8.8.8") refl read_address-MappedIsPlain

abbrev site : Text
site = text "https://example.com"

abbrev site_parts : UrlParts
site_parts = record {
  scheme = text "https";
  netloc = text "example.com";
  path = [];
  query = [];
  fragment = [];
  username = none;
  password = none;
  hostname = some (text "example.com");
}

site_accepted : validate_url ascii read_address (λ url. some site_parts) site ≡ ok site
unfolding validate_url out_of_bounds is_web_scheme validate_host has_scheme_or_path candidate
    has_part starts_with ends_with validate_domain strip_trailing strip_leading split split_pieces
    check_labels matches_label matches_body matches_rest is_label_char is_alnum last_of
    before_newline
site_accepted = refl

validate_url-IsWebUrl_example :
    (site ≡ site) × IsWebUrl ascii read_address (λ url. some site_parts) site
validate_url-IsWebUrl_example =
    validate_url-IsWebUrl ascii read_address (λ url. some site_parts) site site site_accepted
