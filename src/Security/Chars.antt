-- ===== src/Security/Chars.antt =====
-- The characters of an accepted domain.
use mathlib.Core.Path.{subst}
use mathlib.Core.List.{reverse-cons}
use network_diagnostic_tool.Common.{
  ℕ, ◌≡◌, refl, ap, Bool, true, false, ◌||◌, Option, none, some, List, [], ◌∷◌, ◌++◌, reverse,
  reverse-reverse, arith, Text, strip_leading, strip_trailing, split_pieces, split, all, All,
  All-append, ◌==◌, nat_eq, ok, Bool-cases, inl, inr,
}
use network_diagnostic_tool.Security.Domain.{
  is_label_char, matches_rest, matches_body, before_newline, matches_label, check_labels,
  after_idna, validate_domain,
}

or-true : (b : Bool) → (b || true) ≡ true
or-true true = refl
or-true false = refl

all→All : (p : ℕ → Bool) (s : Text) → all p s ≡ true → All (λ c. p c ≡ true) s
all→All p [] h = tt
all→All p (c ∷ s) h = ground (arith, all→All p s)

module _ (P : ℕ → Type 0) where
  All-reverse : (s : Text) → All P s → All P (reverse s)
  All-reverse [] h = tt
  All-reverse (c ∷ s) (p, h) =
      rw reverse-cons (All-append P (reverse s) (c ∷ []) (All-reverse s h) (p, tt))

  All-strip_leading : (d : ℕ) (s : Text) → P d → All P (strip_leading d s) → All P s
  unfolding strip_leading
  All-strip_leading d [] p h = tt
  All-strip_leading d (c ∷ s) p h = ground (arith, All-strip_leading d s p)

  All-strip_trailing : (d : ℕ) (s : Text) → P d → All P (strip_trailing d s) → All P s
  unfolding strip_trailing
  All-strip_trailing d s p h = rw reverse-reverse at (
      All-reverse (reverse s) (
        All-strip_leading d (reverse s) p
          (rw reverse-reverse at (All-reverse (reverse (strip_leading d (reverse s))) h))))

  All-split_pieces :
      (d : ℕ) (s : Text)
      → P d
      → All P (split_pieces d s).0
      → All (All P) (split_pieces d s).1
      → All P s
  unfolding split_pieces
  All-split_pieces d [] p h k = tt
  All-split_pieces d (c ∷ s) p h k = ground (arith, All-split_pieces d s p)

  All-split : (d : ℕ) (s : Text) → P d → All (All P) (split d s) → All P s
  unfolding split
  All-split d s p (h, k) = All-split_pieces d s p h k

  All-before_newline : (s : Text) → P 10 → All P (before_newline s) → All P s
  unfolding before_newline
  All-before_newline [] p h = tt
  All-before_newline (c ∷ []) p h = ground arith
  All-before_newline (c ∷ d ∷ s) p (h, k) = (h, All-before_newline (d ∷ s) p k)

-- A letter, a digit, a hyphen or a dot, or the newline that Python's `$` lets stand at a label's end.
abbrev pub IsDomainChar : ℕ → Type 0
IsDomainChar c = (is_label_char c || (c == b'.' || c == 10)) ≡ true

All-weaken : (P Q : ℕ → Type 0) (s : Text) → ((c : ℕ) → P c → Q c) → All P s → All Q s
All-weaken P Q [] f h = tt
All-weaken P Q (c ∷ s) f (h, k) = (f c h, All-weaken P Q s f k)

matches_body-chars : (s : Text) → matches_body s ≡ true → All (λ c. is_label_char c ≡ true) s
unfolding matches_body matches_rest is_label_char
matches_body-chars [] h = tt
matches_body-chars (c ∷ []) h = (ground arith, tt)
matches_body-chars (c ∷ d ∷ s) h = (ground arith, all→All is_label_char (d ∷ s) (ground arith))

body-IsDomainChar : (s : Text) → matches_body s ≡ true → All IsDomainChar s
body-IsDomainChar s h =
    All-weaken (λ c. is_label_char c ≡ true) IsDomainChar s (λ c e. rw e) (matches_body-chars s h)

label-IsDomainChar : (label : Text) → matches_label label ≡ true → All IsDomainChar label
unfolding matches_label
label-IsDomainChar label h = elim (Bool-cases (matches_body label)) [
  | inl body ↦ body-IsDomainChar label body
  | inr other ↦
      All-before_newline IsDomainChar label (or-true (is_label_char 10))
        (body-IsDomainChar (before_newline label) (ground arith))
]

check_labels-IsDomainChar :
    (labels : List Text) → check_labels labels ≡ ok tt → All (All IsDomainChar) labels
unfolding check_labels
check_labels-IsDomainChar [] h = tt
check_labels-IsDomainChar (label ∷ labels) h =
    (label-IsDomainChar label (ground arith), check_labels-IsDomainChar labels (ground arith))

dot-IsDomainChar : IsDomainChar b'.'
dot-IsDomainChar = or-true (is_label_char b'.')

after_idna-IsDomainChar : (o : Option Text) (r : Text) → after_idna o ≡ ok r → All IsDomainChar r
unfolding after_idna
after_idna-IsDomainChar none r h = cc
after_idna-IsDomainChar (some t) r h =
    let labels = split b'.' (strip_trailing b'.' t) in
    let checked : check_labels labels ≡ ok tt = ground arith in
    let same : t ≡ r = ground arith in
    subst (All IsDomainChar) same (
      All-strip_trailing IsDomainChar b'.' t dot-IsDomainChar (
        All-split IsDomainChar b'.' (strip_trailing b'.' t) dot-IsDomainChar
          (check_labels-IsDomainChar labels checked)))

-- Every character of a domain that `validate_domain` accepts is a letter, a digit, a hyphen, a dot
-- or a newline, whatever the IDNA codec returns.
pub validate_domain-IsDomainChar :
    (idna : Text → Option Text) (domain r : Text)
    → validate_domain idna domain ≡ ok r
    → All IsDomainChar r
unfolding validate_domain
validate_domain-IsDomainChar idna domain r h =
    ground (arith, after_idna-IsDomainChar (idna domain) r)

before_newline-append : (s : Text) → before_newline (s ++ 10 ∷ []) ≡ s
unfolding before_newline
before_newline-append [] = refl
before_newline-append (c ∷ []) = refl
before_newline-append (c ∷ d ∷ s) = ap (λ t. c ∷ t) (before_newline-append (d ∷ s))

-- Every label that matches to its end still matches with a newline put behind it.
pub matches_label-newline :
    (label : Text) → matches_body label ≡ true → matches_label (label ++ 10 ∷ []) ≡ true
unfolding matches_label
matches_label-newline label h = rw (before_newline-append label) (ground arith)
