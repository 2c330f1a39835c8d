-- ===== src/Common/Texts.antt =====
-- Python's `str` as the list of its code points, with the methods that the program calls.
use Prim.Native.Nat.{ℕ}
use Prim.Native.Char.{code}
use Prim.Native.String.{String}
use mathlib.Core.Bool.{Bool, true, false, ◌&&◌, ◌||◌}
use mathlib.Core.List.{List, [], ◌∷◌, reverse}
use network_diagnostic_tool.Common.Tests.{◌==◌, nat_eq, list_eq, ltb, if◌then◌else◌}

abbrev pub Text : Type 0
Text = List ℕ

-- a text literal
abbrev pub text : String → Text
text String.[] = []
text (String.◌∷◌ c s) = code c ∷ text s

-- `bool(s)`
abbrev pub non_empty : Text → Bool
non_empty [] = false
non_empty (c ∷ s) = true

-- `s.startswith(t)`
unfoldable pub starts_with : Text → Text → Bool
starts_with s [] = true
starts_with [] (d ∷ t) = false
starts_with (c ∷ s) (d ∷ t) = c == d && starts_with s t

-- `s.endswith(t)`
unfoldable pub ends_with : Text → Text → Bool
unfolding starts_with
ends_with s t = starts_with (reverse s) (reverse t)

-- `t in s`
unfoldable pub has_part : Text → Text → Bool
unfolding starts_with
has_part [] t = starts_with [] t
has_part (c ∷ s) t = starts_with (c ∷ s) t || has_part s t

-- the leading occurrences of one character removed
unfoldable pub strip_leading : ℕ → Text → Text
strip_leading d [] = []
strip_leading d (c ∷ s) = let rest = strip_leading d s in if c == d then rest else c ∷ s

-- `s.rstrip(".")`, for one character
unfoldable pub strip_trailing : ℕ → Text → Text
unfolding strip_leading
strip_trailing d s = reverse (strip_leading d (reverse s))

-- the first piece of a split and the pieces behind it: a split has at least one piece
unfoldable pub split_pieces : ℕ → Text → Text × List Text
split_pieces d [] = ([], [])
split_pieces d (c ∷ s) =
    let (piece, more) = split_pieces d s in if c == d then ([], piece ∷ more) else (c ∷ piece, more)

-- `s.split(".")`, for one character
unfoldable pub split : ℕ → Text → List Text
unfolding split_pieces
split d s = let (piece, more) = split_pieces d s in piece ∷ more

-- `s < t`: by the first code points that differ, and a prefix before a longer text
unfoldable pub text_lt : Text → Text → Bool
text_lt s [] = false
text_lt [] (d ∷ t) = true
text_lt (c ∷ s) (d ∷ t) = if c == d then text_lt s t else ltb c d

-- a text put in its place in a sorted list that holds no text twice
unfoldable pub insert_sorted : Text → List Text → List Text
unfolding text_lt
insert_sorted s [] = s ∷ []
insert_sorted s (t ∷ ts) =
    let rest = insert_sorted s ts in
    if s == t then t ∷ ts else (if text_lt s t then s ∷ t ∷ ts else t ∷ rest)

-- `sorted({...})` of texts
unfoldable pub sorted_set : List Text → List Text
unfolding insert_sorted
sorted_set [] = []
sorted_set (s ∷ ss) = insert_sorted s (sorted_set ss)
