-- ===== src/RateLimiter/Window.antt =====
-- The window of one key: what `evict` keeps.
use network_diagnostic_tool.Common.{
  ℕ, ◌≤◌, ◌≡◌, refl, Bool, List, [], ◌∷◌, ◌++◌, arith, keep_if, All,
}
use network_diagnostic_tool.RateLimiter.Defs.{evict, is_recent}

pub evict-evict : (c d : ℕ) (hits : List ℕ) → c ≤ d → evict d (evict c hits) ≡ evict d hits
unfolding evict
evict-evict c d [] h = refl
evict-evict c d (hit ∷ hits) h = ground (arith, evict-evict c d hits h)

pub evict-All : (P : ℕ → Type 0) (c : ℕ) (hits : List ℕ) → All P hits → All P (evict c hits)
unfolding evict
evict-All P c [] h = tt
evict-All P c (hit ∷ hits) h = ground (arith, evict-All P c hits h.1)

-- A hit at the end is never lost while an older one stays.
pub evict-append :
    (c now : ℕ) (hits : List ℕ)
    → All (λ hit. hit ≤ now) hits
    → evict c (hits ++ now ∷ []) ≡ evict c hits ++ keep_if (is_recent c) (now ∷ [])
unfolding evict keep_if
evict-append c now [] h = ground arith
evict-append c now (hit ∷ hits) h = ground (arith, evict-append c now hits h.1)

pub keep_if-append {ℓ} :
    {A : Type ℓ} (p : A → Bool) (xs ys : List A)
    → keep_if p (xs ++ ys) ≡ keep_if p xs ++ keep_if p ys
unfolding keep_if
keep_if-append p [] ys = refl
keep_if-append p (x ∷ xs) ys = ground (arith, keep_if-append p xs ys)
