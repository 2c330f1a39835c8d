-- ===== src/Requests.antt =====
-- app/schemas/request.py and app/schemas/auth.py: what pydantic checks of a request's body by the
-- declared bounds and the validators, `none` for a `ValidationError`.
use network_diagnostic_tool.Common.{
  ℕ, ◌≡◌, refl, Bool, true, false, ◌&&◌, Option, none, some, Text, length, leb, ltb, arith, ok,
  raised, raise_if, if◌then◌else◌,
}
use network_diagnostic_tool.Exceptions.{Raises, value_error}
use network_diagnostic_tool.Settings.{Settings}
use network_diagnostic_tool.Accounts.Credentials.{
  Crypto, normalize_username, holds_username, validate_password,
}
use network_diagnostic_tool.AdminUsers.Defs.{UserCreateRequest, UserUpdateRequest}
use network_diagnostic_tool.Diagnostics.Rows.{HttpCheckRequest, PortCheckRequest, DnsLookupRequest}
use network_diagnostic_tool.SessionRoutes.Defs.{LoginRequest, ChangePasswordRequest}

-- `Field(min_length=…, max_length=…)`
abbrev has_length : ℕ → ℕ → Text → Bool
has_length least most value = leb least (length value) && leb (length value) most

-- the same of a value that may be `None`
abbrev may_have_length : ℕ → ℕ → Option Text → Bool
may_have_length least most none = true
may_have_length least most (some value) = has_length least most value

-- `ge` and `le`
abbrev is_between : ℕ → ℕ → ℕ → Bool
is_between least most n = leb least n && leb n most

abbrev kept_if : {A : Type 0} → Bool → A → Option A
kept_if test a = if test then some a else none

-- a request with the name that its validator returns
abbrev with_name : {A : Type 0} → (Text → A) → Raises Text → Option A
with_name put (ok name) = some (put name)
with_name put (raised e) = none

-- the validator of a time, by the setting
unfoldable clamp_timeout : ℕ → ℕ → Bool
clamp_timeout most timeout = if ltb most timeout then false else true

module _ (s : Settings) where
  unfoldable validate_http_check : HttpCheckRequest → Option HttpCheckRequest
  unfolding clamp_timeout
  validate_http_check p =
      kept_if
        (has_length 0 2048 p.url
          && (is_between 1000 10000 p.timeout && clamp_timeout s.max_http_timeout p.timeout))
        p

  unfoldable validate_port_check : PortCheckRequest → Option PortCheckRequest
  unfolding clamp_timeout
  validate_port_check p =
      kept_if
        (has_length 0 253 p.host
          && (is_between 1 65535 p.port
              && (is_between 1000 10000 p.timeout && clamp_timeout s.max_tcp_timeout p.timeout)))
        p

  unfoldable validate_dns_lookup : DnsLookupRequest → Option DnsLookupRequest
  validate_dns_lookup p = kept_if (has_length 0 253 p.domain) p

  unfoldable validate_change_password : ChangePasswordRequest → Option ChangePasswordRequest
  validate_change_password p =
      kept_if (has_length 1 128 p.current_password && has_length 12 128 p.new_password) p

  unfoldable validate_user_update : UserUpdateRequest → Option UserUpdateRequest
  validate_user_update p =
      kept_if (may_have_length 1 100 p.display_name && may_have_length 0 320 p.email) p

  module _ (x : Crypto) where
    unfoldable validate_login : LoginRequest → Option LoginRequest
    validate_login p =
        if has_length 3 50 p.username && has_length 1 128 p.password
        then with_name (λ name. record p { username = name }) (normalize_username s x p.username)
        else none

    unfoldable validate_user_create : UserCreateRequest → Option UserCreateRequest
    validate_user_create p =
        if has_length 3 50 p.username
          && (has_length 1 100 p.display_name
              && (may_have_length 0 320 p.email && has_length 12 128 p.temporary_password))
        then with_name (λ name. record p { username = name }) (normalize_username s x p.username)
        else none

    -- of the policy for passwords, a request that is accepted can only fail to leave the name out
    validate_password-accepted :
        (p q : ChangePasswordRequest) (username : Text)
        → validate_change_password p ≡ some q
        → validate_password x.lower q.new_password username
          ≡ raise_if (holds_username x.lower q.new_password username) value_error
    unfolding validate_change_password validate_password
    validate_password-accepted p q username h =
        let (least, most, same) : (leb 12 (length p.new_password) ≡ true)
            × (leb (length p.new_password) 128 ≡ true)
            × (p ≡ q) =
          ground arith in
        rw (← same, least, most) refl
