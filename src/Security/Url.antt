-- ===== src/Security/Url.antt =====
-- What an accepted URL is.
use network_diagnostic_tool.Common.{
  ◌≤◌, ◌≡◌, ◌⊎◌, inl, inr, true, false, Option, some, arith, Text, length, ok, Option-cases,
  Result-cases,
}
use network_diagnostic_tool.Security.Address.{Address}
use network_diagnostic_tool.Security.Domain.{
  UrlParts, truthy, out_of_bounds, is_web_scheme, candidate, validate_domain, validate_host,
  check_parts, after_split, validate_url,
}

module _ (idna : Text → Option Text) (ip_address : Text → Option Address) where
  -- A host that the check accepts is the text of an address, without brackets round it, or what
  -- `validate_domain` makes of it.
  pub record IsHost (host r : Text) : Type 0 where
    pub fits : length host ≤ 253
    pub kind :
        ((address : Address) × (ip_address r ≡ some address) × (r ≡ candidate host))
        ⊎ (validate_domain idna host ≡ ok r)

  pub validate_host-IsHost :
      (host r : Text) → validate_host idna ip_address host ≡ ok r → IsHost host r
  unfolding validate_host out_of_bounds
  validate_host-IsHost host r h = elim (Option-cases (ip_address (candidate host))) [
    | inl no_address ↦ record { fits = ground arith; kind = inr (ground (arith, no_address)) }
    | inr (address, parsed) ↦
        let same : candidate host ≡ r = ground (arith, parsed) in
        record { fits = ground arith; kind = inl (address, (rw (← same) parsed), ground arith) }
  ]

  -- What the check of a URL promises of it.
  pub record IsWebUrl (urlsplit : Text → Option UrlParts) (url : Text) : Type 0 where
    pub fits : length url ≤ 2048
    pub parts : UrlParts
    pub splits : urlsplit url ≡ some parts
    pub scheme : is_web_scheme parts.scheme ≡ true
    pub no_username : truthy parts.username ≡ false
    pub no_password : truthy parts.password ≡ false
    pub host : Text
    pub named : parts.hostname ≡ some host
    pub checked : Text
    pub is_host : IsHost host checked

  check_parts-host :
      (parts : UrlParts)
      → check_parts idna ip_address parts ≡ ok tt
      → (host : Text) × (parts.hostname ≡ some host)
        × (r : Text) × (validate_host idna ip_address host ≡ ok r)
  unfolding check_parts
  check_parts-host parts h = elim (Option-cases parts.hostname) [
    | inl missing ↦ absurd (ground (arith, missing))
    | inr (host, named) ↦ elim (Result-cases (validate_host idna ip_address host)) [
      | inl (r, valid) ↦ (host, named, r, valid)
      | inr (e, invalid) ↦ absurd (ground (arith, named, invalid))
    ]
  ]

  check_parts-tests :
      (parts : UrlParts)
      → check_parts idna ip_address parts ≡ ok tt
      → (is_web_scheme parts.scheme ≡ true)
        × (truthy parts.username ≡ false)
        × (truthy parts.password ≡ false)
  unfolding check_parts
  check_parts-tests parts h = ground arith

  after_split-IsWebUrl :
      (urlsplit : Text → Option UrlParts) (url v : Text)
      → length url ≤ 2048
      → after_split idna ip_address url (urlsplit url) ≡ ok v
      → (v ≡ url) × IsWebUrl urlsplit url
  unfolding after_split
  after_split-IsWebUrl urlsplit url v fits h = elim (Option-cases (urlsplit url)) [
    | inl bad ↦ absurd (ground (arith, bad))
    | inr (parts, splits) ↦
        let passes : check_parts idna ip_address parts ≡ ok tt = ground (arith, splits) in
        let (scheme, no_username, no_password) = check_parts-tests parts passes in
        let (host, named, checked, valid) = check_parts-host parts passes in
        (
          ground (arith, splits),
          record {
            fits = fits;
            parts = parts;
            splits = splits;
            scheme = scheme;
            no_username = no_username;
            no_password = no_password;
            host = host;
            named = named;
            checked = checked;
            is_host = validate_host-IsHost host checked valid;
          },
        )
  ]

  -- An accepted URL is returned as it came. It has at most 2048 characters, splits, has the scheme
  -- http or https, neither a user name nor a password, and a host that is an address or a valid
  -- domain of at most 253 characters.
  pub validate_url-IsWebUrl :
      (urlsplit : Text → Option UrlParts) (url v : Text)
      → validate_url idna ip_address urlsplit url ≡ ok v
      → (v ≡ url) × IsWebUrl urlsplit url
  unfolding validate_url out_of_bounds
  validate_url-IsWebUrl urlsplit url v h =
      after_split-IsWebUrl urlsplit url v (ground arith) (ground arith)
