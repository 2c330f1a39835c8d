-- ===== src/Security/Domain.antt =====
-- app/core/security.py: `validate_domain`, `validate_host` and `validate_url`.
use network_diagnostic_tool.Common.{
  ℕ, Bool, true, false, not, ◌&&◌, ◌||◌, Option, none, some, List, [], ◌∷◌, reverse, Text, text,
  non_empty, starts_with, ends_with, has_part, strip_trailing, split, contains, all, length, leb,
  ltb, ◌==◌, nat_eq, list_eq, ok, raised, ◌>>=◌, ◌>>◌, raise_if, if◌then◌else◌, drop,
}
use mathlib.Core.Option
use network_diagnostic_tool.Exceptions.{Raises, validation_error, value_error}
use network_diagnostic_tool.Security.Address.{Address}

-- `[a-zA-Z0-9]`
unfoldable pub is_alnum : ℕ → Bool
is_alnum c =
    (leb b'a' c && leb c b'z') || ((leb b'A' c && leb c b'Z') || (leb b'0' c && leb c b'9'))

-- `[a-zA-Z0-9-]`
unfoldable pub is_label_char : ℕ → Bool
unfolding is_alnum
is_label_char c = is_alnum c || c == b'-'

unfoldable pub last_of : ℕ → Text → ℕ
last_of c [] = c
last_of c (d ∷ s) = last_of d s

-- `([a-zA-Z0-9-]{0,61}[a-zA-Z0-9])?`, over the whole of the text
unfoldable pub matches_rest : Text → Bool
unfolding is_label_char last_of
matches_rest [] = true
matches_rest (c ∷ s) =
    all is_label_char (c ∷ s) && (is_alnum (last_of c s) && leb (length (c ∷ s)) 62)

-- `[a-zA-Z0-9]([a-zA-Z0-9-]{0,61}[a-zA-Z0-9])?`, over the whole of the text
unfoldable pub matches_body : Text → Bool
unfolding matches_rest
matches_body [] = false
matches_body (c ∷ s) = is_alnum c && matches_rest s

-- the text before a newline at its end, or the text
unfoldable pub before_newline : Text → Text
before_newline [] = []
before_newline (c ∷ []) = if c == 10 then [] else c ∷ []
before_newline (c ∷ d ∷ s) = c ∷ before_newline (d ∷ s)

-- `_DOMAIN_LABEL_RE.match(label)`: Python's `$` matches at the end, and before a newline at the end.
unfoldable pub matches_label : Text → Bool
unfolding matches_body before_newline
matches_label label = matches_body label || matches_body (before_newline label)

-- the loop over the labels
unfoldable pub check_labels : List Text → Raises Unit
unfolding matches_label
check_labels [] = ok tt
check_labels (label ∷ labels) =
    let rest = check_labels labels in
    if ltb 63 (length label) || not (matches_label label) then raised validation_error else rest

-- What the code reads of `urlsplit(url)`: an attribute is `None` where the URL has no such part.
pub record UrlParts : Type 0 where
  pub scheme : Text
  pub netloc : Text
  pub path : Text
  pub query : Text
  pub fragment : Text
  pub username : Option Text
  pub password : Option Text
  pub hostname : Option Text

-- `scheme in ("http", "https")`
unfoldable pub is_web_scheme : Text → Bool
is_web_scheme scheme = contains (text "http" ∷ text "https" ∷ []) scheme

-- `bool(x)` for a text or `None`
abbrev pub truthy : Option Text → Bool
truthy none = false
truthy (some s) = non_empty s

-- `x[1:-1]`
unfoldable pub inner : Text → Text
inner s = reverse (drop 1 (reverse (drop 1 s)))

-- `host[1:-1] if host.startswith("[") and host.endswith("]") else host`
unfoldable pub candidate : Text → Text
unfolding inner
candidate host =
    if starts_with host (text "[") && ends_with host (text "]") then inner host else host

-- `not x or len(x) > most`
unfoldable pub out_of_bounds : ℕ → Text → Bool
out_of_bounds most s = not (non_empty s) || ltb most (length s)

-- `"://" in x or "/" in x`
unfoldable pub has_scheme_or_path : Text → Bool
has_scheme_or_path s = has_part s (text "://") || has_part s (text "/")

-- what follows the encoding: `none` is the codec's `UnicodeError`
unfoldable pub after_idna : Option Text → Raises Text
after_idna none = raised validation_error
after_idna (some idna_domain) =
    let labels = split b'.' (strip_trailing b'.' idna_domain) in
    (do raise_if (ltb (length labels) 2) validation_error; check_labels labels; ok idna_domain)

-- `idna` is `domain.encode("idna").decode("ascii")`, `none` for its `UnicodeError`.
module _ (idna : Text → Option Text) where
  unfoldable pub validate_domain : Text → Raises Text
  unfolding after_idna
  validate_domain domain = do
    raise_if (out_of_bounds 253 domain) validation_error
    raise_if (has_scheme_or_path domain || contains domain b':') validation_error
    after_idna (idna domain)

  -- what follows the attempt to read the host as an address
  unfoldable pub after_address : Text → Option Address → Raises Text
  after_address host (some address) = ok (candidate host)
  after_address host none = validate_domain host

  -- `ip_address` is Python's `ipaddress.ip_address`, `none` for its `ValueError`.
  module _ (ip_address : Text → Option Address) where
    unfoldable pub validate_host : Text → Raises Text
    unfolding after_address
    validate_host host = do
      raise_if (out_of_bounds 253 host) validation_error
      raise_if (has_scheme_or_path host) validation_error
      after_address host (ip_address (candidate host))

    -- what follows the split
    unfoldable pub check_parts : UrlParts → Raises Unit
    check_parts parts = do
      raise_if (not (is_web_scheme parts.scheme)) validation_error
      raise_if (truthy parts.username || truthy parts.password) validation_error
      raise_if (not (truthy parts.hostname)) validation_error
      host ← validate_host (Option.get_or parts.hostname [])
      ok tt

    unfoldable pub after_split : Text → Option UrlParts → Raises Text
    unfolding check_parts
    after_split url none = raised value_error
    after_split url (some parts) = do check_parts parts; ok url

    -- `urlsplit` is Python's, `none` for its `ValueError`, which the code lets through.
    module _ (urlsplit : Text → Option UrlParts) where
      unfoldable pub validate_url : Text → Raises Text
      unfolding after_split
      validate_url url = do
        raise_if (out_of_bounds 2048 url) validation_error
        after_split url (urlsplit url)
