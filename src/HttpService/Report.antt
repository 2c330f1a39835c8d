-- ===== src/HttpService/Report.antt =====
-- What a successful HTTP check reports of the requests that it sent.
use mathlib.Core.List.{head?}
use network_diagnostic_tool.Common.{
  ℕ, zero, suc, ◌+◌, ◌≤◌, ◌<◌, ◌≡◌, ◌≢◌, ◌∙◌, refl, ap, inl, inr, Bool, true, Option, some, List,
  [], ◌∷◌, ◌++◌, arith, Text, length, All, ok, Option-cases, Result-cases,
}
use network_diagnostic_tool.Settings.{Settings}
use network_diagnostic_tool.Security.Domain.{validate_url}
use network_diagnostic_tool.HttpService.Defs.{
  Web, Hop, HttpCheck, HttpCheckResult, HttpResponse, Reply, responds, finished, receive,
  content_length_of, complete, redirect, after_send, round, loop, perform_http_check, prepare,
}
use network_diagnostic_tool.HttpService.Termination.{
  Round-cases, round-redirected, perform_http_check-ends,
}

-- The body is read up to the chunk that reaches the limit: what was received stays below the limit
-- and one chunk more.
pub receive_bounded :
    (limit received most : ℕ) (chunks : List ℕ) (breaks : Bool) (n : ℕ)
    → received < limit
    → All (λ chunk. chunk ≤ most) chunks
    → receive limit received chunks breaks ≡ ok n
    → n < limit + most
unfolding receive
receive_bounded limit received most [] breaks n h small e = ground arith
receive_bounded limit received most (chunk ∷ chunks) breaks n h (fits, small) e =
    ground (arith, receive_bounded limit (received + chunk) most chunks breaks n)

module _ (s : Settings) (w : Web) (c : HttpCheck) where
  -- what the result says of the requests, the last of them behind the others
  pub record Reports (count : ℕ) (r : HttpCheckResult) (hops : List Hop) : Type 0 where
    pub before : List Hop
    pub last : Hop
    pub in_order : hops ≡ before ++ last ∷ []
    pub url : r.url ≡ c.url
    pub reachable : r.reachable ≡ true
    pub final_url : r.final_url ≡ some last.url
    pub resolved_ip : r.resolved_ip ≡ head? last.ips
    pub redirects : r.redirect_count ≡ count + length before
    pub limited : r.redirect_count ≤ s.max_redirects

  complete-Reports :
      (count : ℕ) (hop : Hop) (response : HttpResponse) (r : HttpCheckResult)
      → count ≤ s.max_redirects
      → complete s w c count hop response ≡ ok r
      → Reports count r (hop ∷ [])
  unfolding complete
  complete-Reports count hop response r limit h =
      elim (Result-cases (receive s.max_response_bytes 0 response.chunks response.breaks)) [
        | inl (received, read) ↦
            elim (Result-cases (content_length_of s w response.content_length received)) [
              | inl (len, parsed) ↦ record {
                before = [];
                last = hop;
                in_order = refl;
                url = ground (arith, read, parsed);
                reachable = ground (arith, read, parsed);
                final_url = ground (arith, read, parsed);
                resolved_ip = ground (arith, read, parsed);
                redirects = ground (arith, read, parsed);
                limited = ground (arith, read, parsed);
              }
              | inr (e, bad) ↦ absurd (ground (arith, read, bad))
            ]
        | inr (e, broken) ↦ absurd (ground (arith, broken))
      ]

  redirect-ne-ok :
      (count : ℕ) (hop : Hop) (location : Option Text) (r : HttpCheckResult) (hops : List Hop)
      → redirect s w c count hop location ≢ finished (ok r) hops
  unfolding redirect
  redirect-ne-ok count hop location r hops h = ground arith

  after_send-Reports :
      (count : ℕ) (hop : Hop) (reply : Reply) (r : HttpCheckResult) (hops : List Hop)
      → count ≤ s.max_redirects
      → after_send s w c count hop reply ≡ finished (ok r) hops
      → Reports count r hops
  unfolding after_send
  after_send-Reports count hop (responds response) r hops limit h =
      let done : complete s w c count hop response ≡ ok r =
        ground (arith, redirect-ne-ok count hop response.location r hops) in
      let one : hop ∷ [] ≡ hops =
        ground (arith, redirect-ne-ok count hop response.location r hops) in
      rw (← one) (complete-Reports count hop response r limit done)
  after_send-Reports count hop _ r hops limit h = cc

  round-Reports :
      (url : Text) (count : ℕ) (r : HttpCheckResult) (hops : List Hop)
      → count ≤ s.max_redirects
      → round s w c url count ≡ finished (ok r) hops
      → Reports count r hops
  unfolding round
  round-Reports url count r hops limit h = elim (Result-cases (prepare s w c url count)) [
    | inl (hop, prepared) ↦
        after_send-Reports count hop (w.send c.timeout count c.method url) r hops limit
          (rw (prepared, round) at h)
    | inr (e, failed) ↦ absurd (ground (arith, failed))
  ]

  Reports-cons :
      (count : ℕ) (r : HttpCheckResult) (hop : Hop) (hops : List Hop)
      → Reports (count + 1) r hops
      → Reports count r (hop ∷ hops)
  Reports-cons count r hop hops p = record {
    before = hop ∷ p.before;
    last = p.last;
    in_order = ap (λ l. hop ∷ l) p.in_order;
    url = p.url;
    reachable = p.reachable;
    final_url = p.final_url;
    resolved_ip = p.resolved_ip;
    redirects = omega (arith, p.redirects);
    limited = p.limited;
  }

  loop-Reports :
      (fuel : ℕ) (url : Text) (count : ℕ) (r : HttpCheckResult) (hops : List Hop)
      → count ≤ s.max_redirects
      → loop s w c fuel url count ≡ some (ok r, hops)
      → Reports count r hops
  unfolding loop
  loop-Reports zero url count r hops limit h = cc
  loop-Reports (suc fuel) url count r hops limit h = elim (Round-cases (round s w c url count)) [
    | inl (end, sent, e) ↦
        let done : end ≡ ok r = ground (arith, e) in
        let all : sent ≡ hops = ground (arith, e) in
        round-Reports url count r hops limit (rw (done, all) at e)
    | inr (next, hop, e) ↦ elim (Option-cases (loop s w c fuel next (count + 1))) [
      | inl out ↦ absurd (ground (arith, e, out))
      | inr ((end, sent), later) ↦
          let done : end ≡ ok r = ground (arith, e, later) in
          let all : hop ∷ sent ≡ hops = ground (arith, e, later) in
          rw (← all) (
            Reports-cons count r hop sent (
              loop-Reports fuel next (count + 1) r sent
                (omega (arith, round-redirected s w c url next count hop e)) (rw done at later)))
    ]
  ]

  -- The result of a successful check is about the last request that it sent: its final URL is the one
  -- of that request, its address the first that was looked up for it, and its redirects, at most as
  -- many as the limit, are the requests before it.
  pub perform_http_check-Reports :
      (r : HttpCheckResult)
      → (perform_http_check s w c).0 ≡ ok r
      → Reports 0 r (perform_http_check s w c).1
  unfolding perform_http_check
  perform_http_check-Reports r h =
      elim (Result-cases (validate_url w.idna w.ip_address w.urlsplit c.url)) [
        | inl (v, valid) ↦
            let (ends, few) =
              perform_http_check-ends s w c (s.max_redirects + 1) v valid (omega arith) in
            loop-Reports (s.max_redirects + 1) c.url 0 r (perform_http_check s w c).1 (omega arith)
              (ends ∙ λ i. some (h i, (perform_http_check s w c).1))
        | inr (e, invalid) ↦ absurd (ground (arith, invalid))
      ]
