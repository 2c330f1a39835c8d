-- ===== src/HttpService/Termination.antt =====
-- The loop over the redirects ends.
use network_diagnostic_tool.Common.{
  ℕ, zero, suc, ◌+◌, ◌-◌, ◌≤◌, ◌<◌, ◌≡◌, refl, ◌⊎◌, inl, inr, some, List, [], ◌∷◌, arith, Text,
  length, ok,
}
use network_diagnostic_tool.Exceptions.{Raises}
use network_diagnostic_tool.Settings.{Settings}
use network_diagnostic_tool.Security.Domain.{validate_url}
use network_diagnostic_tool.HttpService.Defs.{
  Web, Hop, HttpCheck, HttpCheckResult, Reply, Round, finished, redirected, is_redirect, redirect,
  after_send, round, loop, perform_http_check,
}

pub Round-cases :
    (r : Round)
    → ((result : Raises HttpCheckResult) × (hops : List Hop) × (r ≡ finished result hops))
      ⊎ ((next : Text) × (hop : Hop) × (r ≡ redirected next hop))
Round-cases (finished result hops) = inl (result, hops, refl)
Round-cases (redirected next hop) = inr (next, hop, refl)

abbrev pub Answer : Type 0
Answer = Raises HttpCheckResult × List Hop

module _ (s : Settings) (w : Web) (c : HttpCheck) where
  after_send-redirected :
      (count : ℕ) (hop hop' : Hop) (reply : Reply) (next : Text)
      → after_send s w c count hop reply ≡ redirected next hop'
      → count < s.max_redirects
  unfolding after_send redirect is_redirect
  after_send-redirected count hop hop' reply next h = ground arith

  -- the loop goes on only below the limit on redirects
  pub round-redirected :
      (url next : Text) (count : ℕ) (hop : Hop)
      → round s w c url count ≡ redirected next hop
      → count < s.max_redirects
  unfolding round
  round-redirected url next count hop h = grind (arith, after_send-redirected)

  pub after_send-finished :
      (count : ℕ) (hop : Hop) (reply : Reply) (result : Raises HttpCheckResult) (hops : List Hop)
      → after_send s w c count hop reply ≡ finished result hops
      → hops ≡ hop ∷ []
  unfolding after_send redirect
  after_send-finished count hop reply result hops h = ground arith

  pub round-finished :
      (url : Text) (count : ℕ) (result : Raises HttpCheckResult) (hops : List Hop)
      → round s w c url count ≡ finished result hops
      → length hops ≤ 1
  unfolding round
  round-finished url count result hops h = grind (arith, after_send-finished)

  pub loop-finished :
      (fuel : ℕ) (url : Text) (count : ℕ) (result : Raises HttpCheckResult) (hops : List Hop)
      → 0 < fuel
      → round s w c url count ≡ finished result hops
      → loop s w c fuel url count ≡ some (result, hops)
  unfolding loop
  loop-finished zero url count result hops h e = absurd (omega arith)
  loop-finished (suc fuel) url count result hops h e = rw (e, loop)

  pub loop-redirected :
      (fuel : ℕ) (url : Text) (count : ℕ) (next : Text) (hop : Hop) (answer : Answer)
      → 0 < fuel
      → round s w c url count ≡ redirected next hop
      → loop s w c (fuel - 1) next (count + 1) ≡ some answer
      → loop s w c fuel url count ≡ some (answer.0, hop ∷ answer.1)
  unfolding loop
  loop-redirected zero url count next hop answer h e r = absurd (omega arith)
  loop-redirected (suc fuel) url count next hop answer h e r =
      let same : suc fuel - 1 ≡ fuel = omega arith in rw (e, loop, (rw same at r))

  -- With the redirects that are left and one more round the loop ends, and more fuel changes nothing.
  pub loop_ends :
      (left count : ℕ) (url : Text)
      → s.max_redirects ≡ count + left
      → (answer : Answer) × ((fuel : ℕ) → left < fuel → loop s w c fuel url count ≡ some answer)
        × (length answer.1 ≤ left + 1)
  loop_ends zero count url m = elim (Round-cases (round s w c url count)) [
    | inl (result, hops, e) ↦ (
      (result, hops),
      λ fuel h. loop-finished fuel url count result hops (omega arith) e,
      round-finished url count result hops e,
    )
    | inr (next, hop, e) ↦ absurd (omega (arith, round-redirected url next count hop e))
  ]
  loop_ends (suc left) count url m = elim (Round-cases (round s w c url count)) [
    | inl (result, hops, e) ↦ (
      (result, hops),
      λ fuel h. loop-finished fuel url count result hops (omega arith) e,
      omega (arith, round-finished url count result hops e),
    )
    | inr (next, hop, e) ↦
        let (answer, same, few) = loop_ends left (count + 1) next (omega arith) in
        (
          (answer.0, hop ∷ answer.1),
          λ fuel h.
              loop-redirected fuel url count next hop answer (omega arith) e
                (same (fuel - 1) (omega arith)),
          omega arith,
        )
  ]

  -- Once the URL has been accepted, the loop over the redirects comes to an end with any fuel above
  -- the limit on redirects, always with the result of the whole check, and at most one request more
  -- than that limit has been sent.
  pub perform_http_check-ends :
      (fuel : ℕ) (checked : Text)
      → validate_url w.idna w.ip_address w.urlsplit c.url ≡ ok checked
      → s.max_redirects < fuel
      → (loop s w c fuel c.url 0 ≡ some (perform_http_check s w c))
        × (length (perform_http_check s w c).1 ≤ s.max_redirects + 1)
  unfolding perform_http_check
  perform_http_check-ends fuel checked valid h =
      let (answer, same, few) = loop_ends s.max_redirects 0 c.url (omega arith) in
      rw (valid, perform_http_check, same (s.max_redirects + 1) (omega arith)) (same fuel h, few)
