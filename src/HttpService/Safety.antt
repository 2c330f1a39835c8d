-- ===== src/HttpService/Safety.antt =====
-- No request leaves before its target has passed the checks.
use network_diagnostic_tool.Common.{
  ℕ, zero, suc, ◌+◌, ◌≡◌, ◌≢◌, ◌∙◌, ◌⊎◌, sym, ap, inl, inr, false, Option, none, some, List, [],
  ◌∷◌, arith, Text, sorted_set, insert_sorted, text_lt, refl, Bool-cases, ◌==◌, ==_iff, list_eq,
  nat_eq, All, ok, Option-cases, Result-cases,
}
use network_diagnostic_tool.Exceptions.{Raises}
use network_diagnostic_tool.Settings.{Settings}
use network_diagnostic_tool.Security.Address.{
  assert_ip_allowed, IsPublic, MappedIsPlain, assert_ip_allowed_iff,
}
use network_diagnostic_tool.Security.Domain.{UrlParts, validate_url}
use network_diagnostic_tool.Security.Url.{IsWebUrl, validate_url-IsWebUrl}
use network_diagnostic_tool.HttpService.Defs.{
  Web, Hop, HttpCheck, HttpCheckResult, Reply, responds, Lookup, found, gaierror, lookup_error,
  after_lookup, finished, redirected, assert_all_allowed, check_ips, resolve_and_validate,
  prepare_parts, prepare, redirect, after_send, round, loop, perform_http_check,
}
use network_diagnostic_tool.HttpService.Termination.{
  Round-cases, after_send-finished, perform_http_check-ends,
}

-- what holds of all texts of a sorted set holds of all texts that were put into it
insert_sorted-All :
    (P : Text → Type 0) (t : Text) (ts : List Text) → All P (insert_sorted t ts) → P t × All P ts
unfolding insert_sorted
insert_sorted-All P t [] h = h
insert_sorted-All P t (u ∷ ts) h = elim (Bool-cases (t == u)) [
  | inl same ↦ let all : All P (u ∷ ts) = rw same at h in (rw ((==_iff t u).0 same) all.0, all)
  | inr differ ↦ elim (Bool-cases (text_lt t u)) [
    | inl before ↦ let all : All P (t ∷ u ∷ ts) = rw (differ, before) at h in all
    | inr behind ↦
        let all : All P (u ∷ insert_sorted t ts) = rw (differ, behind) at h in
        let (holds, rest) = insert_sorted-All P t ts all.1 in (holds, (all.0, rest))
  ]
]

sorted_set-All : (P : Text → Type 0) (ts : List Text) → All P (sorted_set ts) → All P ts
unfolding sorted_set
sorted_set-All P [] h = tt
sorted_set-All P (t ∷ ts) h =
    let (holds, rest) = insert_sorted-All P t (sorted_set ts) h in (holds, sorted_set-All P ts rest)

-- `P` holds of each hop with its number, from `n` on.
abbrev pub AllFrom : (ℕ → Hop → Type 0) → ℕ → List Hop → Type 0
AllFrom P n [] = Unit
AllFrom P n (hop ∷ hops) = P n hop × AllFrom P (n + 1) hops

module _ (s : Settings) (w : Web) where
  abbrev pub IsAllowed : Text → Type 0
  IsAllowed ip = assert_ip_allowed w.ip_address s ip ≡ ok tt

  assert_all_allowed-All :
      (ips : List Text) → assert_all_allowed s w ips ≡ ok tt → All IsAllowed ips
  unfolding assert_all_allowed
  assert_all_allowed-All [] h = tt
  assert_all_allowed-All (ip ∷ ips) h = (ground arith, assert_all_allowed-All ips (ground arith))

  -- At the hop `n`: the URL has passed, and the lookup of its own host, made at that hop, has given
  -- at least one address, all of which are allowed.
  pub record IsSafe (n : ℕ) (hop : Hop) : Type 0 where
    pub web_url : IsWebUrl w.idna w.ip_address w.urlsplit hop.url
    pub parts : UrlParts
    pub split : w.urlsplit hop.url ≡ some parts
    pub infos : List Text
    pub looked_up : w.getaddrinfo n parts.hostname ≡ found infos
    pub resolved : infos ≢ []
    pub allowed : All IsAllowed infos
    pub kept : hop.ips ≡ sorted_set infos

  check_ips-IsAllowed :
      (ips r : List Text) → check_ips s w ips ≡ ok r → (r ≡ ips) × (ips ≢ []) × All IsAllowed ips
  unfolding check_ips
  check_ips-IsAllowed [] r h = cc
  check_ips-IsAllowed (ip ∷ ips) r h =
      (ground arith, (λ e. cc), assert_all_allowed-All (ip ∷ ips) (ground arith))

  -- What a lookup that passes has given.
  record LookedUp (l : Lookup) (r : List Text) : Type 0 where
    infos : List Text
    is_found : l ≡ found infos
    resolved : infos ≢ []
    allowed : All IsAllowed infos
    kept : r ≡ sorted_set infos

  after_lookup-LookedUp : (l : Lookup) (r : List Text) → after_lookup s w l ≡ ok r → LookedUp l r
  unfolding after_lookup
  after_lookup-LookedUp gaierror r h = cc
  after_lookup-LookedUp lookup_error r h = cc
  after_lookup-LookedUp (found infos) r h =
      let (same, some_ip, allowed) = check_ips-IsAllowed (sorted_set infos) r h in
      record {
        infos = infos;
        is_found = refl;
        resolved = λ none_found. some_ip (rw none_found (unfold sorted_set in refl));
        allowed = sorted_set-All IsAllowed infos allowed;
        kept = same;
      }

  module _ (c : HttpCheck) where
    abbrev IsValid : Text → Type 0
    IsValid url = IsWebUrl w.idna w.ip_address w.urlsplit url

    prepare_parts-IsSafe :
        (url : Text) (count : ℕ) (o : Option UrlParts) (hop : Hop)
        → IsValid url
        → w.urlsplit url ≡ o
        → prepare_parts s w c url count o ≡ ok hop
        → (hop.url ≡ url) × IsSafe count hop
    unfolding prepare_parts resolve_and_validate
    prepare_parts-IsSafe url count none hop valid split h = cc
    prepare_parts-IsSafe url count (some parts) hop valid split h =
        elim (Result-cases (resolve_and_validate s w count parts.hostname)) [
          | inl (ips, found_ips) ↦
              let looked =
                after_lookup-LookedUp (w.getaddrinfo count parts.hostname) ips found_ips in
              let made : record { url = url; ips = ips } ≡ hop = ground (arith, found_ips) in
              rw (← made) (
                refl,
                record {
                  web_url = valid;
                  parts = parts;
                  split = split;
                  infos = looked.infos;
                  looked_up = looked.is_found;
                  resolved = looked.resolved;
                  allowed = looked.allowed;
                  kept = looked.kept;
                },
              )
          | inr (e, failed) ↦ absurd (ground (arith, failed))
        ]

    pub prepare-IsSafe :
        (url : Text) (count : ℕ) (hop : Hop)
        → IsValid url
        → prepare s w c url count ≡ ok hop
        → (hop.url ≡ url) × IsSafe count hop
    unfolding prepare
    prepare-IsSafe url count hop valid h =
        prepare_parts-IsSafe url count (w.urlsplit url) hop valid refl h

    redirect-next :
        (count : ℕ) (hop hop' : Hop) (location : Option Text) (next : Text)
        → redirect s w c count hop location ≡ redirected next hop'
        → (hop' ≡ hop) × ((v : Text) × (validate_url w.idna w.ip_address w.urlsplit next ≡ ok v))
    unfolding redirect
    redirect-next count hop hop' none next h = cc
    redirect-next count hop hop' (some location) next h =
        elim (Option-cases (w.join hop.url location)) [
          | inl bad ↦ absurd (ground (arith, bad))
          | inr (url, joined) ↦
              elim (Result-cases (validate_url w.idna w.ip_address w.urlsplit url)) [
                | inl (v, valid) ↦
                    let same : url ≡ next = ground (arith, joined, valid) in
                    (ground (arith, joined, valid), (v, rw (← same) valid))
                | inr (e, invalid) ↦ absurd (ground (arith, joined, invalid))
              ]
        ]

    after_send-next :
        (count : ℕ) (hop hop' : Hop) (reply : Reply) (next : Text)
        → after_send s w c count hop reply ≡ redirected next hop'
        → (location : Option Text) × (redirect s w c count hop location ≡ redirected next hop')
    unfolding after_send
    after_send-next count hop hop' (responds r) next h = (r.location, ground arith)
    after_send-next count hop hop' _ next h = cc

    -- a round that goes on has sent its request, to a URL that was prepared
    pub round-next :
        (url next : Text) (count : ℕ) (hop : Hop)
        → round s w c url count ≡ redirected next hop
        → (prepare s w c url count ≡ ok hop)
          × ((v : Text) × (validate_url w.idna w.ip_address w.urlsplit next ≡ ok v))
    unfolding round
    round-next url next count hop h = elim (Result-cases (prepare s w c url count)) [
      | inl (made, prepared) ↦
          let (location, r) =
            after_send-next count made hop (w.send c.timeout count c.method url) next
              (rw (prepared, round) at h) in
          let (same, valid) = redirect-next count made hop location next r in
          (prepared ∙ ap (λ x. ok x) (sym same), valid)
      | inr (e, failed) ↦ absurd (ground (arith, failed))
    ]

    -- a round that ends has sent at most the request that was prepared
    pub round-end :
        (url : Text) (count : ℕ) (result : Raises HttpCheckResult) (hops : List Hop)
        → round s w c url count ≡ finished result hops
        → (hops ≡ []) ⊎ ((hop : Hop) × (prepare s w c url count ≡ ok hop) × (hops ≡ hop ∷ []))
    unfolding round
    round-end url count result hops h = elim (Result-cases (prepare s w c url count)) [
      | inl (made, prepared) ↦ inr (
        made,
        prepared,
        after_send-finished s w c count made (w.send c.timeout count c.method url) result hops
            (rw (prepared, round) at h),
      )
      | inr (e, failed) ↦ inl (ground (arith, failed))
    ]

    loop-IsSafe :
        (fuel : ℕ) (url : Text) (count : ℕ) (result : Raises HttpCheckResult) (hops : List Hop)
        → IsValid url
        → loop s w c fuel url count ≡ some (result, hops)
        → AllFrom IsSafe count hops
    unfolding loop
    loop-IsSafe zero url count result hops valid h = cc
    loop-IsSafe (suc fuel) url count result hops valid h =
        elim (Round-cases (round s w c url count)) [
          | inl (end, sent, r) ↦
              let same : sent ≡ hops = ground (arith, r) in
              rw (← same) (elim (round-end url count end sent r) [
                | inl empty ↦ rw empty tt
                | inr (hop, prepared, one) ↦
                    rw one ((prepare-IsSafe url count hop valid prepared).1, tt)
              ])
          | inr (next, hop, r) ↦ elim (Option-cases (loop s w c fuel next (count + 1))) [
            | inl out ↦ absurd (ground (arith, r, out))
            | inr ((end, sent), later) ↦
                let same : hop ∷ sent ≡ hops = ground (arith, r, later) in
                let (prepared, (v, ok_next)) = round-next url next count hop r in
                rw (← same) (
                  (prepare-IsSafe url count hop valid prepared).1,
                  loop-IsSafe fuel next (count + 1) end sent
                      (validate_url-IsWebUrl w.idna w.ip_address w.urlsplit next v ok_next).1 later,
                )
          ]
        ]

    perform_http_check-IsSafe : AllFrom IsSafe 0 (perform_http_check s w c).1
    unfolding perform_http_check
    perform_http_check-IsSafe =
        elim (Result-cases (validate_url w.idna w.ip_address w.urlsplit c.url)) [
          | inl (v, valid) ↦
              let (ends, few) =
                perform_http_check-ends s w c (s.max_redirects + 1) v valid (omega arith) in
              loop-IsSafe (s.max_redirects + 1) c.url 0 (perform_http_check s w c).0
                (perform_http_check s w c).1
                (validate_url-IsWebUrl w.idna w.ip_address w.urlsplit c.url v valid).1 ends
          | inr (e, invalid) ↦ rw (invalid, perform_http_check) tt
        ]

  -- What the request of the hop `n` is sent to: an accepted URL, the lookup of whose own host at that
  -- hop has given addresses, each of them public; they are the addresses that the hop reports.
  pub record IsPublicHop (n : ℕ) (hop : Hop) : Type 0 where
    pub web_url : IsWebUrl w.idna w.ip_address w.urlsplit hop.url
    pub parts : UrlParts
    pub split : w.urlsplit hop.url ≡ some parts
    pub infos : List Text
    pub looked_up : w.getaddrinfo n parts.hostname ≡ found infos
    pub resolved : infos ≢ []
    pub public : All (IsPublic w.ip_address) infos
    pub kept : hop.ips ≡ sorted_set infos

  All-IsPublic :
      (ips : List Text)
      → s.allow_private_targets ≡ false
      → MappedIsPlain w.ip_address
      → All IsAllowed ips
      → All (IsPublic w.ip_address) ips
  All-IsPublic [] closed law h = tt
  All-IsPublic (ip ∷ ips) closed law (h, k) =
      ((assert_ip_allowed_iff w.ip_address s ip closed law).0.0 h, All-IsPublic ips closed law k)

  AllFrom-IsPublicHop :
      (n : ℕ) (hops : List Hop)
      → s.allow_private_targets ≡ false
      → MappedIsPlain w.ip_address
      → AllFrom IsSafe n hops
      → AllFrom IsPublicHop n hops
  AllFrom-IsPublicHop n [] closed law h = tt
  AllFrom-IsPublicHop n (hop ∷ hops) closed law (safe, h) = (
    record {
      web_url = safe.web_url;
      parts = safe.parts;
      split = safe.split;
      infos = safe.infos;
      looked_up = safe.looked_up;
      resolved = safe.resolved;
      public = All-IsPublic safe.infos closed law safe.allowed;
      kept = safe.kept;
    },
    AllFrom-IsPublicHop (n + 1) hops closed law h,
  )

  -- With private targets not allowed, every request that an HTTP check sends, the first and those
  -- that follow redirects, however the check ends, goes to an accepted URL, and the lookup of that
  -- URL's own host, made anew at that hop, had given at least one address, and none that is not
  -- public; the addresses of the hop are those.
  pub perform_http_check-IsPublicHop :
      (c : HttpCheck)
      → s.allow_private_targets ≡ false
      → MappedIsPlain w.ip_address
      → AllFrom IsPublicHop 0 (perform_http_check s w c).1
  perform_http_check-IsPublicHop c closed law =
      AllFrom-IsPublicHop 0 (perform_http_check s w c).1 closed law (perform_http_check-IsSafe c)
