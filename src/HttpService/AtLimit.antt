-- ===== src/HttpService/AtLimit.antt =====
-- What a check makes of the response at the limit on redirects.
use network_diagnostic_tool.Common.{
  ℕ, zero, suc, ◌+◌, ◌≡◌, ◌≢◌, ◌∙◌, refl, sym, ap, inl, inr, Option, none, some, List, [], ◌∷◌,
  ◌++◌, arith, Text, length, nat_eq, ok, Result-cases, Option-cases,
}
use network_diagnostic_tool.Exceptions.{Raises}
use network_diagnostic_tool.Settings.{Settings}
use network_diagnostic_tool.Security.Domain.{UrlParts, validate_url}
use network_diagnostic_tool.HttpService.Defs.{
  Web, Hop, HttpCheck, HttpCheckResult, HttpResponse, responds, finished, receive,
  resolve_and_validate, content_length_of, complete, prepare_parts, prepare, is_redirect,
  after_send, round, loop, perform_http_check,
}
use network_diagnostic_tool.HttpService.Termination.{
  Round-cases, round-redirected, perform_http_check-ends,
}
use network_diagnostic_tool.HttpService.Safety.{round-end}

not_single : (front : List Hop) (a b hop : Hop) → a ∷ [] ≢ b ∷ (front ++ hop ∷ [])
not_single [] a b hop = λ h. cc
not_single (f ∷ front) a b hop = λ h. cc

not_empty : (front : List Hop) (hop : Hop) → [] ≢ front ++ hop ∷ []
not_empty [] hop = λ h. cc
not_empty (f ∷ front) hop = λ h. cc

module _ (s : Settings) (w : Web) (c : HttpCheck) where
  prepare_parts-url :
      (url : Text) (count : ℕ) (o : Option UrlParts) (hop : Hop)
      → prepare_parts s w c url count o ≡ ok hop
      → hop.url ≡ url
  unfolding prepare_parts
  prepare_parts-url url count none hop h = cc
  prepare_parts-url url count (some parts) hop h =
      elim (Result-cases (resolve_and_validate s w count parts.hostname)) [
        | inl (ips, found_ips) ↦ ground (arith, found_ips)
        | inr (e, failed) ↦ absurd (ground (arith, failed))
      ]

  -- At the limit a response ends the check, whether it redirects or not.
  round-at_limit :
      (url : Text) (hop : Hop) (r : HttpResponse)
      → prepare s w c url s.max_redirects ≡ ok hop
      → w.send c.timeout s.max_redirects c.method hop.url ≡ responds r
      → round s w c url s.max_redirects ≡ finished (complete s w c s.max_redirects hop r) (hop ∷ [])
  unfolding round prepare after_send is_redirect
  round-at_limit url hop r prepared answered =
      let same = prepare_parts-url url s.max_redirects (w.urlsplit url) hop prepared in
      let sent : w.send c.timeout s.max_redirects c.method url ≡ responds r =
        rw (← same) answered in
      ground (arith, prepared, sent)

  loop-at_limit :
      (fuel : ℕ) (url : Text) (count : ℕ) (result : Raises HttpCheckResult) (front : List Hop)
      (hop : Hop) (r : HttpResponse)
      → loop s w c fuel url count ≡ some (result, front ++ hop ∷ [])
      → count + length front ≡ s.max_redirects
      → w.send c.timeout s.max_redirects c.method hop.url ≡ responds r
      → result ≡ complete s w c s.max_redirects hop r
  unfolding loop
  loop-at_limit zero url count result front hop r h m answered = cc
  loop-at_limit (suc fuel) url count result [] hop r h m answered =
      let at : count ≡ s.max_redirects = omega arith in
      elim (Round-cases (round s w c url count)) [
        | inl (end, sent, e) ↦
            let same : sent ≡ hop ∷ [] = ground (arith, e) in
            let ends : end ≡ result = ground (arith, e) in
            elim (round-end s w c url count end sent e) [
              | inl empty ↦ absurd (cc)
              | inr (hop', prepared, one) ↦
                  let is_hop : hop' ≡ hop = cc in
                  let made : prepare s w c url s.max_redirects ≡ ok hop =
                    rw (at, is_hop) at prepared in
                  let done = round-at_limit url hop r made answered in
                  let e' : round s w c url s.max_redirects ≡ finished result sent =
                    rw (at, ends) at e in
                  cc
            ]
        | inr (next, hop', e) ↦ absurd (omega (arith, round-redirected s w c url next count hop' e))
      ]
  loop-at_limit (suc fuel) url count result (f ∷ front) hop r h m answered =
      elim (Round-cases (round s w c url count)) [
        | inl (end, sent, e) ↦
            let same : sent ≡ f ∷ (front ++ hop ∷ []) = ground (arith, e) in
            elim (round-end s w c url count end sent e) [
              | inl empty ↦ absurd (cc)
              | inr (hop', prepared, one) ↦ absurd (not_single front hop' f hop (sym one ∙ same))
            ]
        | inr (next, hop', e) ↦ elim (Option-cases (loop s w c fuel next (count + 1))) [
          | inl out ↦ absurd (ground (arith, e, out))
          | inr ((end, sent), later) ↦
              let same : sent ≡ front ++ hop ∷ [] = ground (arith, e, later) in
              let ends : end ≡ result = ground (arith, e, later) in
              loop-at_limit fuel next (count + 1) result front hop r (rw (ends, same) at later)
                (omega arith) answered
        ]
      ]

  complete-reads :
      (hop : Hop) (r : HttpResponse) (received : ℕ) (size : Option ℕ)
      → receive s.max_response_bytes 0 r.chunks r.breaks ≡ ok received
      → content_length_of s w r.content_length received ≡ ok size
      → (result : HttpCheckResult) × (complete s w c s.max_redirects hop r ≡ ok result)
        × ((result.status_code ≡ some r.status_code)
            × (result.final_url ≡ some hop.url)
            × (result.redirect_count ≡ s.max_redirects))
  unfolding complete
  complete-reads hop r received size read parsed = rw (read, parsed) (_, refl, (refl, refl, refl))

  -- If a check sends as many requests after the first as the limit on redirects allows, and the last of
  -- them is answered by a response whose body and length can be read, the check returns that response:
  -- the result has its status, the URL of that last request, and the limit as its count of redirects,
  -- also where the response redirects once more.
  pub perform_http_check-at_limit :
      (front : List Hop) (hop : Hop) (r : HttpResponse) (received : ℕ) (size : Option ℕ)
      → (perform_http_check s w c).1 ≡ front ++ hop ∷ []
      → length front ≡ s.max_redirects
      → w.send c.timeout s.max_redirects c.method hop.url ≡ responds r
      → receive s.max_response_bytes 0 r.chunks r.breaks ≡ ok received
      → content_length_of s w r.content_length received ≡ ok size
      → (result : HttpCheckResult) × ((perform_http_check s w c).0 ≡ ok result)
        × (result.status_code ≡ some r.status_code)
        × (result.final_url ≡ some hop.url)
        × (result.redirect_count ≡ s.max_redirects)
  perform_http_check-at_limit front hop r received size sent many answered read parsed =
      elim (Result-cases (validate_url w.idna w.ip_address w.urlsplit c.url)) [
        | inl (checked, valid) ↦
            let (ends, few) =
              perform_http_check-ends s w c (s.max_redirects + 1) checked valid (omega arith) in
            let ended : loop s w c (s.max_redirects + 1) c.url 0
                ≡ some ((perform_http_check s w c).0, front ++ hop ∷ []) =
              ends ∙ ap (λ hops. some ((perform_http_check s w c).0, hops)) sent in
            let done =
              loop-at_limit (s.max_redirects + 1) c.url 0 (perform_http_check s w c).0 front hop r
                ended (omega arith) answered in
            let (result, completed, reads) = complete-reads hop r received size read parsed in
            (result, done ∙ completed, reads.0, reads.1, reads.2)
        | inr (e, invalid) ↦
            let none_sent : (perform_http_check s w c).1 ≡ [] =
              unfold perform_http_check in ground (arith, invalid) in
            absurd (not_empty front hop (sym none_sent ∙ sent))
      ]
