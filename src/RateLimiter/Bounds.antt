-- ===== src/RateLimiter/Bounds.antt =====
-- How many requests of a key pass in a minute, how large a window grows, and what a check leaves
-- alone.
use network_diagnostic_tool.Common.{
  ℕ, ◌+◌, ◌≤◌, ◌≡◌, Bool, true, ◌&&◌, List, [], ◌∷◌, ◌++◌, append_assoc, append-nil, arith,
  Comparable, ==_iff, ltb, leb, length, length-append, count_if, count_if-append, get_or-put, ◌≢◌,
}
use network_diagnostic_tool.RateLimiter.Defs.{
  minute, RateLimiter, new, evict, cutoff_at, window, check, run, accepted, IsMonotonic, is_recent,
  History, spec_check, spec_run,
}
use network_diagnostic_tool.RateLimiter.Refinement.{run-eq-spec_run}

-- the readings of the minute that begins at `start`, both ends included
abbrev pub in_minute : ℕ → ℕ → Bool
in_minute start hit = leb start hit && leb hit (start + minute)

in_minute-le-recent :
    (start now : ℕ) (hits : List ℕ)
    → now ≤ start + minute
    → count_if (in_minute start) hits ≤ count_if (is_recent (cutoff_at now)) hits
in_minute-le-recent start now [] h = omega arith
in_minute-le-recent start now (hit ∷ hits) h = ground (arith, in_minute-le-recent start now hits h)

-- one more reading, let through with room in the minute before it
count-accepted :
    (limit start now : ℕ) (hits : List ℕ)
    → count_if (in_minute start) hits ≤ limit
    → ltb (count_if (is_recent (cutoff_at now)) hits) limit ≡ true
    → count_if (in_minute start) (hits ++ now ∷ []) ≤ limit
count-accepted limit start now hits h room =
    ground
      (arith, count_if-append (in_minute start) hits (now ∷ []), in_minute-le-recent start now hits)

length-evict-le : (c : ℕ) (hits : List ℕ) → length (evict c hits) ≤ length hits
unfolding evict
length-evict-le c [] = omega arith
length-evict-le c (hit ∷ hits) = ground (arith, length-evict-le c hits)

module _ {K : Type 0} ⦃e : Comparable K⦄ where
  spec_check-bounded :
      (limit start now : ℕ) (key k : K) (h : History K)
      → ((j : K) → count_if (in_minute start) (h j) ≤ limit)
      → count_if (in_minute start) ((spec_check limit now key h).1 k) ≤ limit
  unfolding spec_check
  spec_check-bounded limit start now key k h b =
      ground (arith, b k, ==_iff key k, count-accepted limit start now (h k) (b k))

  spec_run-bounded :
      (limit start : ℕ) (k : K) (h : History K) (requests : List (ℕ × K))
      → ((j : K) → count_if (in_minute start) (h j) ≤ limit)
      → count_if (in_minute start) (h k ++ accepted k requests (spec_run limit h requests)) ≤ limit
  unfolding spec_run accepted spec_check
  spec_run-bounded limit start k h [] b = simp append-nil (b k)
  spec_run-bounded limit start k h ((now, key) ∷ requests) b =
      let ih =
        spec_run-bounded limit start k (spec_check limit now key h).1 requests
          (λ j. spec_check-bounded limit start now key j h b) in
      let rest = accepted k requests (spec_run limit (spec_check limit now key h).1 requests) in
      ground (arith, append_assoc (h k) (now ∷ []) rest, ih)

  -- With a monotonic clock, of the requests of one key no more than the limit pass in any minute,
  -- wherever that minute begins.
  pub run_bounded :
      (limit start : ℕ) (key : K) (requests : List (ℕ × K))
      → IsMonotonic 0 requests
      → count_if (in_minute start) (accepted key requests (run (new limit) requests)) ≤ limit
  run_bounded limit start key requests m =
      rw (run-eq-spec_run limit requests m)
        (spec_run-bounded limit start key (λ k. []) requests (λ j. omega arith))

  abbrev pub IsBounded : RateLimiter K → Type 0
  IsBounded l = (k : K) → length (window l k) ≤ l.limit

  -- A check, whatever its answer, keeps every window at no more hits than the limit, and leaves the
  -- windows of all other keys as they were.
  pub check-IsBounded :
      (now : ℕ) (key k : K) (l : RateLimiter K)
      → IsBounded l
      → (length (window (check now key l).1 k) ≤ l.limit)
        × (key ≢ k → window (check now key l).1 k ≡ window l k)
  unfolding check
  check-IsBounded now key k l b =
      let kept = evict (cutoff_at now) (window l key) in
      let facts : (length kept ≤ length (window l key))
          × (length (kept ++ now ∷ []) ≡ length kept + 1) =
        (length-evict-le (cutoff_at now) (window l key), length-append kept (now ∷ [])) in
      ground (
        arith,
        facts,
        b k,
        b key,
        ==_iff key k,
        get_or-put l.windows key k kept [],
        get_or-put l.windows key k (kept ++ now ∷ []) [],
      )
