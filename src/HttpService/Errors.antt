-- ===== src/HttpService/Errors.antt =====
-- Which exceptions an HTTP check can raise.
use network_diagnostic_tool.Common.{
  ℕ, zero, suc, ◌+◌, ◌<◌, ◌≡◌, ◌≢◌, ◌∙◌, refl, inl, inr, Bool, true, false, Option, none, some,
  List, [], ◌∷◌, arith, Text, nat_eq, sorted_set, ok, raised, ◌>>=◌, Result-cases, raise_if,
  if◌then◌else◌, Option-cases,
}
use network_diagnostic_tool.Exceptions.{
  Exception, Raises, target_not_allowed, validation_error, dns_failed, tls_or_transport,
  too_many_redirects, value_error, timeout_error, connection_refused, recursion_error, other_error,
  out_of_fuel,
}
use network_diagnostic_tool.Settings.{Settings}
use network_diagnostic_tool.Security.Address.{
  Address, blocked_within, is_blocked_ip, assert_ip_allowed,
}
use network_diagnostic_tool.Security.Domain.{
  UrlParts, check_labels, after_idna, validate_domain, candidate, validate_host, check_parts,
  after_address, after_split, validate_url,
}
use network_diagnostic_tool.HttpService.Defs.{
  Web, Hop, HttpCheck, HttpResponse, Reply, responds, Lookup, found, gaierror, lookup_error,
  after_lookup, parsed, prepare_parts, finished, receive, assert_all_allowed, check_ips,
  resolve_and_validate, content_length_of, complete, prepare, is_redirect, redirect, after_send,
  round, loop, perform_http_check,
}
use network_diagnostic_tool.HttpService.Termination.{Round-cases, perform_http_check-ends}

-- the exceptions that the parts of a check raise
abbrev pub is_check_error : Exception → Bool
is_check_error target_not_allowed = true
is_check_error validation_error = true
is_check_error dns_failed = true
is_check_error tls_or_transport = true
is_check_error value_error = true
is_check_error timeout_error = true
is_check_error connection_refused = true
is_check_error recursion_error = true
is_check_error other_error = true
is_check_error _ = false

pub record Checked {A : Type 0} (r : Raises A) : Type 0 where
  pub kind : (e : Exception) → r ≡ raised e → is_check_error e ≡ true

module _ {A : Type 0} where
  Checked-ok : (a : A) → Checked {A = A} (ok a)
  Checked-ok a = record { kind = λ e h. cc }

  Checked-raised : (e : Exception) → is_check_error e ≡ true → Checked {A = A} (raised e)
  Checked-raised e k = record { kind = λ e' h. ground arith }

  Checked-if : (b : Bool) (m n : Raises A) → Checked m → Checked n → Checked (if b then m else n)
  Checked-if true m n km kn = km
  Checked-if false m n km kn = kn

  Checked-bind :
      {B : Type 0} (m : Raises B) (f : B → Raises A)
      → Checked m
      → ((b : B) → Checked (f b))
      → Checked (m >>= f)
  Checked-bind (ok b) f km kf = kf b
  Checked-bind (raised e) f km kf = record { kind = λ e' h. km.kind e' (ground arith) }

Checked-raise_if : (b : Bool) (e : Exception) → is_check_error e ≡ true → Checked (raise_if b e)
Checked-raise_if true e k = Checked-raised e k
Checked-raise_if false e k = Checked-ok tt

ruleset checked_rules = (Checked-ok, Checked-raised, Checked-if, Checked-bind, Checked-raise_if)

check_labels-Checked : (labels : List Text) → Checked (check_labels labels)
unfolding check_labels
check_labels-Checked [] = Checked-ok tt
check_labels-Checked (label ∷ labels) =
    Checked-if _ _ _ (Checked-raised validation_error refl) (check_labels-Checked labels)

after_idna-Checked : (o : Option Text) → Checked (after_idna o)
unfolding after_idna
after_idna-Checked none = Checked-raised validation_error refl
after_idna-Checked (some t) = search (checked_rules, check_labels-Checked)

module _ (idna : Text → Option Text) where
  validate_domain-Checked : (domain : Text) → Checked (validate_domain idna domain)
  unfolding validate_domain
  validate_domain-Checked domain = search (checked_rules, after_idna-Checked)

  after_address-Checked : (host : Text) (o : Option Address) → Checked (after_address idna host o)
  unfolding after_address
  after_address-Checked host none = validate_domain-Checked host
  after_address-Checked host (some a) = Checked-ok (candidate host)

  module _ (ip_address : Text → Option Address) where
    validate_host-Checked : (host : Text) → Checked (validate_host idna ip_address host)
    unfolding validate_host
    validate_host-Checked host = search (checked_rules, after_address-Checked)

    check_parts-Checked : (parts : UrlParts) → Checked (check_parts idna ip_address parts)
    unfolding check_parts
    check_parts-Checked parts = search (checked_rules, validate_host-Checked)

    after_split-Checked :
        (url : Text) (o : Option UrlParts) → Checked (after_split idna ip_address url o)
    unfolding after_split
    after_split-Checked url none = Checked-raised value_error refl
    after_split-Checked url (some parts) = search (checked_rules, check_parts-Checked)

    validate_url-Checked :
        (urlsplit : Text → Option UrlParts) (url : Text)
        → Checked (validate_url idna ip_address urlsplit url)
    unfolding validate_url
    validate_url-Checked urlsplit url = search (checked_rules, after_split-Checked)

blocked_within-Checked :
    (ip_address : Text → Option Address) (depth : ℕ) (ip : Text)
    → Checked (blocked_within ip_address depth ip)
unfolding blocked_within
blocked_within-Checked ip_address zero ip = Checked-raised recursion_error refl
blocked_within-Checked ip_address (suc depth) ip = record {
  kind = λ e h.
      grind (arith, λ (mapped : Text). (blocked_within-Checked ip_address depth mapped).kind e);
}

module _ (s : Settings) (w : Web) where
  assert_ip_allowed-Checked : (ip : Text) → Checked (assert_ip_allowed w.ip_address s ip)
  unfolding assert_ip_allowed is_blocked_ip
  assert_ip_allowed-Checked ip = search (checked_rules, blocked_within-Checked)

  assert_all_allowed-Checked : (ips : List Text) → Checked (assert_all_allowed s w ips)
  unfolding assert_all_allowed
  assert_all_allowed-Checked [] = Checked-ok tt
  assert_all_allowed-Checked (ip ∷ ips) =
      Checked-bind (assert_ip_allowed w.ip_address s ip) _ (assert_ip_allowed-Checked ip)
        λ _. assert_all_allowed-Checked ips

  check_ips-Checked : (ips : List Text) → Checked (check_ips s w ips)
  unfolding check_ips
  check_ips-Checked [] = Checked-raised dns_failed refl
  check_ips-Checked (ip ∷ ips) = search (checked_rules, assert_all_allowed-Checked)

  resolve_and_validate-Checked :
      (hop : ℕ) (host : Option Text) → Checked (resolve_and_validate s w hop host)
  unfolding resolve_and_validate
  resolve_and_validate-Checked hop host = after_lookup-Checked (w.getaddrinfo hop host)
    where
      after_lookup-Checked : (l : Lookup) → Checked (after_lookup s w l)
      after_lookup-Checked (found infos) = check_ips-Checked (sorted_set infos)
      after_lookup-Checked gaierror = Checked-raised dns_failed refl
      after_lookup-Checked lookup_error = Checked-raised other_error refl

  receive-Checked :
      (limit received : ℕ) (chunks : List ℕ) (breaks : Bool)
      → Checked (receive limit received chunks breaks)
  unfolding receive
  receive-Checked limit received [] breaks = search (checked_rules)
  receive-Checked limit received (chunk ∷ chunks) breaks =
      Checked-if _ _ _ (Checked-ok (received + chunk))
        (receive-Checked limit (received + chunk) chunks breaks)

  content_length_of-Checked :
      (header : Option Text) (received : ℕ) → Checked (content_length_of s w header received)
  unfolding content_length_of
  content_length_of-Checked none received = Checked-ok _
  content_length_of-Checked (some header) received =
      Checked-if _ _ _ (parsed-Checked (w.int header)) (Checked-ok _)
    where
      parsed-Checked : (o : Option ℕ) → Checked (parsed s w o)
      parsed-Checked none = Checked-raised value_error refl
      parsed-Checked (some n) = Checked-ok (some n)

  module _ (c : HttpCheck) where
    complete-Checked :
        (count : ℕ) (hop : Hop) (r : HttpResponse) → Checked (complete s w c count hop r)
    unfolding complete
    complete-Checked count hop r =
        search (checked_rules, receive-Checked, content_length_of-Checked)

    prepare-Checked : (url : Text) (count : ℕ) → Checked (prepare s w c url count)
    unfolding prepare
    prepare-Checked url count = prepare_parts-Checked (w.urlsplit url)
      where
        prepare_parts-Checked : (o : Option UrlParts) → Checked (prepare_parts s w c url count o)
        prepare_parts-Checked none = Checked-raised value_error refl
        prepare_parts-Checked (some parts) = search (checked_rules, resolve_and_validate-Checked)

    redirect-kind :
        (count : ℕ) (hop : Hop) (location : Option Text) (e : Exception) (hops : List Hop)
        → count < s.max_redirects
        → redirect s w c count hop location ≡ finished (raised e) hops
        → is_check_error e ≡ true
    unfolding redirect
    redirect-kind count hop location e hops below h =
        grind (
          arith,
          λ (next : Text). (validate_url-Checked w.idna w.ip_address w.urlsplit next).kind e,
        )

    after_send-kind :
        (count : ℕ) (hop : Hop) (reply : Reply) (e : Exception) (hops : List Hop)
        → after_send s w c count hop reply ≡ finished (raised e) hops
        → is_check_error e ≡ true
    unfolding after_send is_redirect
    after_send-kind count hop (responds r) e hops h =
        ground
          (arith, redirect-kind count hop r.location e hops, (complete-Checked count hop r).kind e)
    after_send-kind count hop _ e hops h = ground arith

    round-kind :
        (url : Text) (count : ℕ) (e : Exception) (hops : List Hop)
        → round s w c url count ≡ finished (raised e) hops
        → is_check_error e ≡ true
    unfolding round
    round-kind url count e hops h =
        grind (arith, (prepare-Checked url count).kind e, after_send-kind)

    loop-kind :
        (fuel : ℕ) (url : Text) (count : ℕ) (e : Exception) (hops : List Hop)
        → loop s w c fuel url count ≡ some (raised e, hops)
        → is_check_error e ≡ true
    unfolding loop
    loop-kind zero url count e hops h = cc
    loop-kind (suc fuel) url count e hops h = elim (Round-cases (round s w c url count)) [
      | inl (result, sent, r) ↦
          let same : result ≡ raised e = ground (arith, r) in
          round-kind url count e sent (rw same at r)
      | inr (next, hop, r) ↦ elim (Option-cases (loop s w c fuel next (count + 1))) [
        | inl out ↦ absurd (ground (arith, r, out))
        | inr ((result, sent), later) ↦
            let same : result ≡ raised e = ground (arith, r, later) in
            loop-kind fuel next (count + 1) e sent (rw same at later)
      ]
    ]

    perform_http_check-kind :
        (e : Exception) → (perform_http_check s w c).0 ≡ raised e → is_check_error e ≡ true
    unfolding perform_http_check
    perform_http_check-kind e h =
        elim (Result-cases (validate_url w.idna w.ip_address w.urlsplit c.url)) [
          | inl (checked, valid) ↦
              let (ends, few) =
                perform_http_check-ends s w c (s.max_redirects + 1) checked valid (omega arith) in
              loop-kind (s.max_redirects + 1) c.url 0 e (perform_http_check s w c).1
                (ends ∙ λ i. some (h i, (perform_http_check s w c).1))
          | inr (e', invalid) ↦
              (validate_url-Checked w.idna w.ip_address w.urlsplit c.url).kind e
                (ground (arith, invalid))
        ]

    -- An HTTP check raises only the exceptions of `is_check_error`: `TooManyRedirectsError` is not
    -- among them, nor is the mark of a loop that does not come to its end.
    pub perform_http_check-raises :
        ((e : Exception) → (perform_http_check s w c).0 ≡ raised e → is_check_error e ≡ true)
        × ((perform_http_check s w c).0 ≢ raised too_many_redirects)
        × ((perform_http_check s w c).0 ≢ raised out_of_fuel)
    perform_http_check-raises = (
      perform_http_check-kind,
      λ h. cc (perform_http_check-kind too_many_redirects h),
      λ h. cc (perform_http_check-kind out_of_fuel h),
    )
