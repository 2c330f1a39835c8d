-- ===== src/RateLimiter/Refinement.antt =====
-- `RateLimiter` answers as its specification does, and what that says of the accepted requests.
use network_diagnostic_tool.Common.{
  ℕ, ◌≤◌, ◌≡◌, refl, List, [], ◌∷◌, ◌++◌, arith, Comparable, ==_iff, keep_if, All, All-append,
  length-keep_if, get_or, get_or-put,
}
use network_diagnostic_tool.RateLimiter.Defs.{
  RateLimiter, new, evict, cutoff_at, window, check, run, IsMonotonic, is_recent, History,
  spec_check, spec_run,
}
use network_diagnostic_tool.RateLimiter.Window.{
  evict-evict, evict-All, evict-append, keep_if-append,
}

All-later :
    (t u : ℕ) (hits : List ℕ) → t ≤ u → All (λ hit. hit ≤ t) hits → All (λ hit. hit ≤ u) hits
All-later t u [] h a = tt
All-later t u (hit ∷ hits) h a = (omega arith, All-later t u hits h a.1)

module _ {K : Type 0} ⦃e : Comparable K⦄ where
  -- The windows at a reading hold what later checks can still see of the histories.
  pub record Tracks (limit time : ℕ) (l : RateLimiter K) (h : History K) : Type 0 where
    pub same_limit : l.limit ≡ limit
    pub agree :
        (k : K) (c : ℕ) → cutoff_at time ≤ c → evict c (window l k) ≡ keep_if (is_recent c) (h k)
    pub bounded : (k : K) → All (λ hit. hit ≤ time) (window l k)

  pub Tracks-new : (limit : ℕ) → Tracks limit 0 (new limit) (λ k. [])
  unfolding new evict keep_if get_or
  Tracks-new limit = record { same_limit = refl; agree = λ k c h. refl; bounded = λ k. tt }

  module _ {limit time : ℕ} {l : RateLimiter K} {h : History K} (tracks : Tracks limit time l h)
      (now : ℕ) (key : K) (later : time ≤ now) where
    check-answer : (check now key l).0 ≡ (spec_check limit now key h).0
    unfolding check spec_check
    check-answer = ground (
      arith,
      tracks.same_limit,
      tracks.agree key (cutoff_at now) (omega arith),
      length-keep_if (is_recent (cutoff_at now)) (h key),
    )

    window-agree :
        (k : K) (c : ℕ)
        → cutoff_at now ≤ c
        → evict c (window (check now key l).1 k)
          ≡ keep_if (is_recent c) ((spec_check limit now key h).1 k)
    unfolding check spec_check
    window-agree k c le = ground (
      arith,
      tracks.same_limit,
      tracks.agree key (cutoff_at now) (omega arith),
      tracks.agree key c (omega arith),
      tracks.agree k c (omega arith),
      length-keep_if (is_recent (cutoff_at now)) (h key),
      ==_iff key k,
      get_or-put l.windows key k (evict (cutoff_at now) (window l key)) [],
      get_or-put l.windows key k (evict (cutoff_at now) (window l key) ++ now ∷ []) [],
      evict-evict (cutoff_at now) c (window l key) le,
      evict-append c now (evict (cutoff_at now) (window l key)) (
          evict-All (λ hit. hit ≤ now) (cutoff_at now) (window l key)
            (All-later time now (window l key) later (tracks.bounded key))),
      keep_if-append (is_recent c) (h key) (now ∷ []),
    )

    window-bounded : (k : K) → All (λ hit. hit ≤ now) (window (check now key l).1 k)
    unfolding check
    window-bounded k = ground (
      arith,
      ==_iff key k,
      get_or-put l.windows key k (evict (cutoff_at now) (window l key)) [],
      get_or-put l.windows key k (evict (cutoff_at now) (window l key) ++ now ∷ []) [],
      All-later time now (window l k) later (tracks.bounded k),
      evict-All (λ hit. hit ≤ now) (cutoff_at now) (window l key)
          (All-later time now (window l key) later (tracks.bounded key)),
      All-append (λ hit. hit ≤ now) (evict (cutoff_at now) (window l key)) (now ∷ []),
    )

    -- A check keeps the windows in step with the histories.
    pub check-Tracks : Tracks limit now (check now key l).1 (spec_check limit now key h).1
    check-Tracks = record {
      same_limit = unfold check in ground (arith, tracks.same_limit);
      agree = window-agree;
      bounded = window-bounded;
    }

  run-Tracks :
      (limit time : ℕ) (l : RateLimiter K) (h : History K) (requests : List (ℕ × K))
      → Tracks limit time l h
      → IsMonotonic time requests
      → run l requests ≡ spec_run limit h requests
  unfolding run spec_run
  run-Tracks limit time l h [] tracks m = refl
  run-Tracks limit time l h ((now, key) ∷ requests) tracks (later, m) =
      let ih =
        run-Tracks limit now (check now key l).1 (spec_check limit now key h).1 requests
          (check-Tracks tracks now key later) m in
      cc (check-answer tracks now key later, ih)

  -- Whatever the limit, the keys and the order in which their requests come, if the clock is
  -- monotonic then a new limiter gives each request the answer of the specification: it lets the
  -- request through exactly if fewer than the limit of the requests of the same key that it let
  -- through before lie in the minute before it.
  pub run-eq-spec_run :
      (limit : ℕ) (requests : List (ℕ × K))
      → IsMonotonic 0 requests
      → run (new limit) requests ≡ spec_run limit (λ k. []) requests
  run-eq-spec_run limit requests m =
      run-Tracks limit 0 (new limit) (λ k. []) requests (Tracks-new limit) m
