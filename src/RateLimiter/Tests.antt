-- ===== src/RateLimiter/Tests.antt =====
-- The limiter at concrete readings.
use network_diagnostic_tool.Common.{
  ℕ, ◌+◌, ◌*◌, ◌^◌, ◌≤◌, ◌≡◌, refl, true, false, List, [], ◌∷◌, arith, count_if, Text, text,
  list_eq, nat_eq, get_or, put,
}
use network_diagnostic_tool.RateLimiter.Defs.{new, evict, check, run, accepted, spec_run}
use network_diagnostic_tool.RateLimiter.Refinement.{run-eq-spec_run}
use network_diagnostic_tool.RateLimiter.Bounds.{in_minute, run_bounded}

abbrev second : ℕ
second = 10 ^ 9

abbrev client : Text
client = text "203.0.113.7"

-- three requests of one client at a limit of two, and one more when the first has aged
abbrev burst : List (ℕ × Text)
burst =
    (second, client) ∷ (2 * second, client) ∷ (3 * second, client) ∷ (61 * second + 1, client) ∷ []

burst_answers : run (new 2) burst ≡ true ∷ true ∷ false ∷ true ∷ []
unfolding run check new evict get_or put
burst_answers = refl

run-eq-spec_run_example : run (new 2) burst ≡ spec_run 2 (λ k. []) burst
run-eq-spec_run_example = run-eq-spec_run 2 burst (omega arith)

run_bounded_example : count_if (in_minute second) (accepted client burst (run (new 2) burst)) ≤ 2
run_bounded_example = run_bounded 2 second client burst (omega arith)
