-- ===== src/Security/Allowlist.antt =====
-- app/core/security.py: `assert_domain_allowlisted`.
use mathlib.Core.Path.{◌≡⟨◌⟩◌, ◌∎}
use mathlib.Core.List.{Memᴰ}
use network_diagnostic_tool.Common.{
  ◌≡◌, refl, sym, ap, ◌↔◌, ◌⊎◌, ◌≢◌, inl, inr, Bool-cases, reverse, reverse-reverse, reverse-append,
  ==_iff, ==_refl, starts_with, Bool, true, false, ◌||◌, List, [], ◌∷◌, ◌++◌, arith, Text, text,
  ends_with, strip_trailing, list_eq, nat_eq, ◌==◌, ok, raised, if◌then◌else◌,
}
use network_diagnostic_tool.Exceptions.{Raises, target_not_allowed}
use network_diagnostic_tool.Settings.{Settings}

-- `lower` is Python's `str.lower`.
module _ (lower : Text → Text) where
  -- `domain.rstrip(".").lower()`
  unfoldable pub normalized : Text → Text
  normalized domain = lower (strip_trailing b'.' domain)

  -- the loop over the allowed domains: whether it returns
  unfoldable pub is_allowlisted : Text → List Text → Bool
  is_allowlisted name [] = false
  is_allowlisted name (allowed ∷ more) =
      (name == normalized allowed || ends_with name (text "." ++ normalized allowed))
      || is_allowlisted name more

  -- the body of the function, over the setting
  unfoldable pub check_domain : Text → List Text → Raises Unit
  check_domain domain [] = ok tt
  check_domain domain (allowed ∷ more) =
      if is_allowlisted (normalized domain) (allowed ∷ more)
      then ok tt
      else raised target_not_allowed

  unfoldable pub assert_domain_allowlisted : Settings → Text → Raises Unit
  unfolding check_domain
  assert_domain_allowlisted s domain = check_domain domain s.allowed_target_domains

starts_with_sound : (s t : Text) → starts_with s t ≡ true → (r : Text) × (s ≡ t ++ r)
unfolding starts_with
starts_with_sound s [] h = (s, refl)
starts_with_sound [] (d ∷ t) h = cc
starts_with_sound (c ∷ s) (d ∷ t) h =
    let (r, e) = starts_with_sound s t (ground arith) in (r, ground (arith, ==_iff c d))

starts_with_complete : (t r : Text) → starts_with (t ++ r) t ≡ true
unfolding starts_with
starts_with_complete [] [] = refl
starts_with_complete [] (c ∷ r) = refl
starts_with_complete (d ∷ t) r = ground (arith, ==_refl d, starts_with_complete t r)

ends_with_iff : (s t : Text) → (ends_with s t ≡ true) ↔ ((p : Text) × (s ≡ p ++ t))
unfolding ends_with
ends_with_iff s t = (
  λ h.
      let (r, e) = starts_with_sound (reverse s) (reverse t) h in
      (
        reverse r,
        s
            ≡⟨ sym (reverse-reverse s) ⟩ reverse (reverse s)
            ≡⟨ ap reverse e ⟩ reverse (reverse t ++ r)
            ≡⟨ reverse-append (reverse t) r ⟩ reverse r ++ reverse (reverse t)
            ≡⟨ ap (λ u. reverse r ++ u) (reverse-reverse t) ⟩ reverse r ++ t ∎,
      ),
  λ (p, e). rw (e, reverse-append) (starts_with_complete (reverse t) (reverse p)),
)

-- A name is an allowed domain, or a name below one.
abbrev pub IsUnder : Text → Text → Type 0
IsUnder name allowed = (name ≡ allowed) ⊎ ((p : Text) × (name ≡ p ++ (text "." ++ allowed)))

module _ (lower : Text → Text) where
  is_allowlisted_sound :
      (name : Text) (domains : List Text)
      → is_allowlisted lower name domains ≡ true
      → (allowed : Text) × Memᴰ allowed domains × IsUnder name (normalized lower allowed)
  unfolding is_allowlisted
  is_allowlisted_sound name [] h = cc
  is_allowlisted_sound name (d ∷ more) h = elim (Bool-cases (is_allowlisted lower name more)) [
    | inl later ↦
        let (allowed, listed, under) = is_allowlisted_sound name more later in
        (allowed, Memᴰ.tail listed, under)
    | inr earlier ↦ elim (Bool-cases (name == normalized lower d)) [
      | inl same ↦ (d, Memᴰ.head refl, inl ((==_iff _ _).0 same))
      | inr other ↦ (
        d,
        Memᴰ.head refl,
        inr ((ends_with_iff name (text "." ++ normalized lower d)).0 (ground arith)),
      )
    ]
  ]

  is_allowlisted_complete :
      (name allowed : Text) (domains : List Text)
      → Memᴰ allowed domains
      → IsUnder name (normalized lower allowed)
      → is_allowlisted lower name domains ≡ true
  unfolding is_allowlisted
  is_allowlisted_complete name allowed [] m u = elim m [ ]
  is_allowlisted_complete name allowed (d ∷ more) (Memᴰ.head e) (inl same) =
      ground (arith, ==_iff name (normalized lower d), e)
  is_allowlisted_complete name allowed (d ∷ more) (Memᴰ.head e) (inr (p, below)) =
      let ends : ends_with name (text "." ++ normalized lower d) ≡ true =
        (ends_with_iff name (text "." ++ normalized lower d)).1 (p, rw (← e) below) in
      ground (arith, ends)
  is_allowlisted_complete name allowed (d ∷ more) (Memᴰ.tail m) u =
      ground (arith, is_allowlisted_complete name allowed more m u)

  check_domain_iff :
      (domain : Text) (domains : List Text)
      → domains ≢ []
      → (check_domain lower domain domains ≡ ok tt)
        ↔ (is_allowlisted lower (normalized lower domain) domains ≡ true)
  unfolding check_domain
  check_domain_iff domain [] set = absurd (set refl)
  check_domain_iff domain (d ∷ more) set = ground arith

  -- Where a list of allowed domains is set, a domain passes exactly if its normal form is that of a
  -- domain of the list, or ends with a dot and that of a domain of the list.
  pub assert_domain_allowlisted_iff :
      (s : Settings) (domain : Text)
      → s.allowed_target_domains ≢ []
      → (assert_domain_allowlisted lower s domain ≡ ok tt) ↔ (
          (allowed : Text) × Memᴰ allowed s.allowed_target_domains
          × IsUnder (normalized lower domain) (normalized lower allowed))
  unfolding assert_domain_allowlisted
  assert_domain_allowlisted_iff s domain set =
      let (to, from) = check_domain_iff domain s.allowed_target_domains set in
      (
        λ h. is_allowlisted_sound (normalized lower domain) s.allowed_target_domains (to h),
        λ (allowed, listed, under). from (
            is_allowlisted_complete (normalized lower domain) allowed s.allowed_target_domains
              listed under),
      )
