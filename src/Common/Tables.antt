-- ===== src/Common/Tables.antt =====
-- Python's `dict` as an association list; the program never iterates over such a dict.
use mathlib.Core.Path.{◌≡◌, refl}
use mathlib.Core.List.{List, [], ◌∷◌}
use native.Mathlib.Omega.{arith}
use network_diagnostic_tool.Common.Tests.{Comparable, ◌==◌, ==_iff, if◌then◌else◌}

abbrev pub Table {ℓ} : Type ℓ → Type ℓ → Type ℓ
Table K V = List (K × V)

module _ {ℓ} {K V : Type ℓ} ⦃e : Comparable K⦄ where
  -- `d[k]`, with the factory's value for a missing key
  unfoldable pub get_or : Table K V → K → V → V
  get_or [] k v = v
  get_or ((j, w) ∷ d) k v = if j == k then w else get_or d k v

  -- `d[k] = v`
  unfoldable pub put : Table K V → K → V → Table K V
  put [] k v = (k, v) ∷ []
  put ((j, w) ∷ d) k v = if j == k then (k, v) ∷ d else (j, w) ∷ put d k v

  pub get_or-put :
      (d : Table K V) (k j : K) (v w : V)
      → get_or (put d k v) j w ≡ (if k == j then v else get_or d j w)
  unfolding get_or put
  get_or-put [] k j v w = refl
  get_or-put ((i, u) ∷ d) k j v w =
      ground (arith, ==_iff k j, ==_iff i k, ==_iff i j, get_or-put d k j v w)
