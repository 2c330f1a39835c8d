-- ===== src/RateLimiter/Defs.antt =====
-- app/core/security.py: `_RateWindow`, `RateLimiter`, and a run of checks. The specification below
-- keeps every accepted reading and forgets nothing.
use network_diagnostic_tool.Common.{
  ℕ, ◌-◌, ◌*◌, ◌^◌, ◌≤◌, Bool, true, false, List, [], ◌∷◌, ◌++◌, Comparable, ◌==◌, ltb, leb,
  if◌then◌else◌, length, count_if, Table, get_or, put,
}

-- 60.0 seconds
abbrev pub minute : ℕ
minute = 60 * 10 ^ 9

-- `_limit`, and `_windows` with the deque of each key's hits, the oldest at the head
pub record RateLimiter (K : Type 0) : Type 0 where
  pub limit : ℕ
  pub windows : Table K (List ℕ)

unfoldable pub new : {K : Type 0} → ℕ → RateLimiter K
new limit = record { limit = limit; windows = [] }

-- `while window.hits and window.hits[0] < cutoff: window.hits.popleft()`
unfoldable pub evict : ℕ → List ℕ → List ℕ
evict cutoff [] = []
evict cutoff (hit ∷ hits) =
    let rest = evict cutoff hits in if ltb hit cutoff then rest else hit ∷ hits

-- Before a minute has passed on the clock the source's cutoff is negative, and here it is 0: no
-- reading is below either.
abbrev pub cutoff_at : ℕ → ℕ
cutoff_at now = now - minute

module _ {K : Type 0} ⦃e : Comparable K⦄ where
  -- the deque of a key, empty for a key not met before
  abbrev pub window : RateLimiter K → K → List ℕ
  window l key = get_or l.windows key []

  unfoldable pub check : ℕ → K → RateLimiter K → Bool × RateLimiter K
  check now key l =
      let hits = evict (cutoff_at now) (window l key) in
      if leb l.limit (length hits)
      then (false, record l { windows = put l.windows key hits })
      else (true, record l { windows = put l.windows key (hits ++ now ∷ []) })

  -- the answers to a sequence of requests, each with the clock's reading and its key
  unfoldable pub run : RateLimiter K → List (ℕ × K) → List Bool
  run l [] = []
  run l ((now, key) ∷ requests) = let (answer, l') = check now key l in answer ∷ run l' requests

  -- the readings at which requests of a key were let through
  unfoldable pub accepted : K → List (ℕ × K) → List Bool → List ℕ
  accepted key ((now, k) ∷ requests) (answer ∷ answers) =
      let rest = accepted key requests answers in
      if answer then (if k == key then now ∷ rest else rest) else rest
  accepted key requests answers = []

-- The clock is monotonic: no reading is below an earlier one.
abbrev pub IsMonotonic : {K : Type 0} → ℕ → List (ℕ × K) → Type 0
IsMonotonic earlier [] = Unit
IsMonotonic earlier ((now, key) ∷ requests) = (earlier ≤ now) × IsMonotonic now requests

-- A reading that lies in the minute before another, or after it.
abbrev pub is_recent : ℕ → ℕ → Bool
is_recent cutoff hit = leb cutoff hit

-- The specification keeps for each key all readings at which it was let through, and lets a request
-- through while fewer than the limit of them lie in the last minute.
abbrev pub History : Type 0 → Type 0
History K = K → List ℕ

module _ {K : Type 0} ⦃e : Comparable K⦄ where
  unfoldable pub spec_check : ℕ → ℕ → K → History K → Bool × History K
  spec_check limit now key h =
      if ltb (count_if (is_recent (cutoff_at now)) (h key)) limit
      then (true, λ k. if key == k then h k ++ now ∷ [] else h k)
      else (false, h)

  unfoldable pub spec_run : ℕ → History K → List (ℕ × K) → List Bool
  spec_run limit h [] = []
  spec_run limit h ((now, key) ∷ requests) =
      let (answer, h') = spec_check limit now key h in answer ∷ spec_run limit h' requests
