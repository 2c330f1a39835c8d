-- ===== src/Guards/ClientIp.antt =====
-- app/core/deps.py: `get_real_client_ip` and `enforce_rate_limit`. The semaphore is left out.
use network_diagnostic_tool.Common.{
  ℕ, ◌≤◌, ◌≡◌, refl, ap, Bool, true, false, Option, none, some, List, [], ◌∷◌, arith, Text, text,
  non_empty, split, contains, count_if, ◌==◌, ==_iff, list_eq, nat_eq, if◌then◌else◌,
}
use network_diagnostic_tool.Settings.{Settings}
use network_diagnostic_tool.Accounts.Credentials.{Crypto, strip}
use network_diagnostic_tool.RateLimiter.Defs.{RateLimiter, new, check, run, accepted, IsMonotonic}
use network_diagnostic_tool.RateLimiter.Bounds.{in_minute, run_bounded}

-- `request.client.host` and the header `x-forwarded-for`
pub record Peer : Type 0 where
  pub host : Option Text
  pub x_forwarded_for : Option Text

-- `request.client.host if request.client else "unknown"`
unfoldable pub direct_ip : Peer → Text
direct_ip peer = elim peer.host [ none ↦ text "unknown" | some host ↦ host ]

-- `forwarded.split(",")[0]`; a split has at least one piece
abbrev pub first_piece : List Text → Text
first_piece [] = []
first_piece (piece ∷ pieces) = piece

module _ (s : Settings) (x : Crypto) where
  unfoldable pub forwarded_ip : Text → Option Text → Text
  forwarded_ip direct none = direct
  forwarded_ip direct (some forwarded) =
      if non_empty forwarded then strip s x (first_piece (split b',' forwarded)) else direct

  unfoldable pub get_real_client_ip : Peer → Text
  unfolding direct_ip forwarded_ip
  get_real_client_ip peer =
      if contains s.trusted_proxy_ips (direct_ip peer)
      then forwarded_ip (direct_ip peer) peer.x_forwarded_for
      else direct_ip peer

  -- whether the request passes; where it does not, the answer is 429
  unfoldable pub enforce_rate_limit : ℕ → Peer → RateLimiter Text → Bool × RateLimiter Text
  unfolding get_real_client_ip
  enforce_rate_limit now peer limiter = check now (get_real_client_ip peer) limiter

  -- the answers to a sequence of requests, each with the clock's reading
  unfoldable pub enforce_all : RateLimiter Text → List (ℕ × Peer) → List Bool
  unfolding enforce_rate_limit
  enforce_all limiter [] = []
  enforce_all limiter ((now, peer) ∷ requests) =
      let (answer, limiter') = enforce_rate_limit now peer limiter in
      answer ∷ enforce_all limiter' requests

  -- the readings at which requests from a host were let through
  unfoldable pub passed_from : Text → List (ℕ × Peer) → List Bool → List ℕ
  passed_from host ((now, peer) ∷ requests) (answer ∷ answers) =
      let rest = passed_from host requests answers in
      if answer then (if direct_ip peer == host then now ∷ rest else rest) else rest
  passed_from host requests answers = []

  abbrev pub keyed : List (ℕ × Peer) → List (ℕ × Text)
  keyed [] = []
  keyed ((now, peer) ∷ requests) = (now, get_real_client_ip peer) ∷ keyed requests

  enforce_all-run :
      (limiter : RateLimiter Text) (requests : List (ℕ × Peer))
      → enforce_all limiter requests ≡ run limiter (keyed requests)
  unfolding enforce_all enforce_rate_limit run
  enforce_all-run limiter [] = refl
  enforce_all-run limiter ((now, peer) ∷ requests) =
      let (answer, limiter') = check now (get_real_client_ip peer) limiter in
      ap (λ answers. answer ∷ answers) (enforce_all-run limiter' requests)

  untrusted_ip :
      (peer : Peer)
      → contains s.trusted_proxy_ips (direct_ip peer) ≡ false
      → get_real_client_ip peer ≡ direct_ip peer
  unfolding get_real_client_ip
  untrusted_ip peer h = ground arith

  keyed_as :
      (peer : Peer) (host : Text)
      → contains s.trusted_proxy_ips host ≡ false
      → (direct_ip peer == host) ≡ true
      → (get_real_client_ip peer == host) ≡ true
  keyed_as peer host untrusted same =
      let at = (==_iff (direct_ip peer) host).0 same in
      rw (untrusted_ip peer (rw at untrusted)) same

  passed_from-le :
      (p : ℕ → Bool) (host : Text) (requests : List (ℕ × Peer)) (answers : List Bool)
      → contains s.trusted_proxy_ips host ≡ false
      → count_if p (passed_from host requests answers)
        ≤ count_if p (accepted host (keyed requests) answers)
  unfolding passed_from accepted
  passed_from-le p host [] answers untrusted = omega arith
  passed_from-le p host ((now, peer) ∷ requests) [] untrusted = omega arith
  passed_from-le p host ((now, peer) ∷ requests) (answer ∷ answers) untrusted =
      ground (arith, keyed_as peer host untrusted, passed_from-le p host requests answers untrusted)

  -- With a monotonic clock: of the requests that come directly from one host that is no trusted proxy,
  -- no more than the limit pass in any minute, whatever `X-Forwarded-For` they and all other requests
  -- carry.
  pub enforce_all_bounded :
      (limit start : ℕ) (host : Text) (requests : List (ℕ × Peer))
      → contains s.trusted_proxy_ips host ≡ false
      → IsMonotonic 0 (keyed requests)
      → count_if (in_minute start) (passed_from host requests (enforce_all (new limit) requests))
        ≤ limit
  enforce_all_bounded limit start host requests untrusted monotonic = omega (
    arith,
    run_bounded limit start host (keyed requests) monotonic,
    passed_from-le (in_minute start) host requests (run (new limit) (keyed requests)) untrusted,
    ap (λ answers. count_if (in_minute start) (passed_from host requests answers))
        (enforce_all-run (new limit) requests),
  )
