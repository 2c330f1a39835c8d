-- ===== src/Security/Address.antt =====
-- app/core/security.py: `is_blocked_ip` and `assert_ip_allowed`.
use network_diagnostic_tool.Common.{
  ℕ, zero, suc, ◌≡◌, refl, ◌↔◌, Bool, true, false, ◌||◌, Option, none, some, List, [], ◌∷◌, arith,
  Text, text, contains, list_eq, nat_eq, ok, raised, ◌>>=◌, raise_if, if◌then◌else◌, Option-cases,
  inl, inr,
}
use network_diagnostic_tool.Exceptions.{Raises, target_not_allowed, recursion_error}
use network_diagnostic_tool.Settings.{Settings}

-- What the code reads of an address object of Python's `ipaddress`. The last field is
-- `str(addr.ipv4_mapped)`, for an IPv6 address that maps an IPv4 address.
pub record Address : Type 0 where
  pub is_loopback : Bool
  pub is_link_local : Bool
  pub is_multicast : Bool
  pub is_reserved : Bool
  pub is_unspecified : Bool
  pub is_private : Bool
  pub ipv4_mapped : Option Text

abbrev pub metadata_addresses : List Text
metadata_addresses = text "169.254.169.254" ∷ text "100.100.100.200" ∷ text "fd00:ec2::254" ∷ []

-- `ip_str in _METADATA_ADDRESSES`
unfoldable pub is_metadata : Text → Bool
is_metadata ip = contains metadata_addresses ip

unfoldable pub is_special : Address → Bool
is_special a =
    a.is_loopback
    || (a.is_link_local
        || (a.is_multicast || (a.is_reserved || (a.is_unspecified || a.is_private))))

-- the depth at which Python gives up on a recursion
abbrev pub recursion_limit : ℕ
recursion_limit = 1000

-- `ip_address` is Python's `ipaddress.ip_address`, `none` for its `ValueError`.
module _ (ip_address : Text → Option Address) where
  -- the recursion of `is_blocked_ip`, on the depth that is left
  unfoldable pub blocked_within : ℕ → Text → Raises Bool
  blocked_within zero ip = raised recursion_error
  blocked_within (suc depth) ip = if is_metadata ip then ok true else elim (ip_address ip) [
    | none ↦ ok true
    | some a ↦
        if is_special a
        then ok true
        else elim a.ipv4_mapped [ none ↦ ok false | some mapped ↦ blocked_within depth mapped ]
  ]

  unfoldable pub is_blocked_ip : Text → Raises Bool
  is_blocked_ip ip = blocked_within recursion_limit ip

  unfoldable pub assert_ip_allowed : Settings → Text → Raises Unit
  assert_ip_allowed s ip =
      if s.allow_private_targets
      then ok tt
      else do blocked ← is_blocked_ip ip; raise_if blocked target_not_allowed

  -- What the check means: an address that is not listed, parses, has no special range, and maps no
  -- IPv4 address but one of the same kind.
  pub data IsPublic : Text → Type 0 where
    plain :
        (ip : Text) (a : Address)
        → is_metadata ip ≡ false
        → ip_address ip ≡ some a
        → is_special a ≡ false
        → a.ipv4_mapped ≡ none
        → IsPublic ip
    mapping :
        (ip mapped : Text) (a : Address)
        → is_metadata ip ≡ false
        → ip_address ip ≡ some a
        → is_special a ≡ false
        → a.ipv4_mapped ≡ some mapped
        → IsPublic mapped
        → IsPublic ip

  -- The text of a mapped address is that of an IPv4 address, which maps none.
  abbrev pub MappedIsPlain : Type 0
  MappedIsPlain =
      (ip mapped : Text) (a : Address)
      → ip_address ip ≡ some a
      → a.ipv4_mapped ≡ some mapped
      → (b : Address) × (ip_address mapped ≡ some b) × (b.ipv4_mapped ≡ none)

  blocked_within-IsPublic :
      (depth : ℕ) (ip : Text) → blocked_within depth ip ≡ ok false → IsPublic ip
  unfolding blocked_within
  blocked_within-IsPublic zero ip h = cc
  blocked_within-IsPublic (suc depth) ip h = elim (Option-cases (ip_address ip)) [
    | inl bad ↦ absurd (ground arith)
    | inr (a, parsed) ↦ elim (Option-cases a.ipv4_mapped) [
      | inl unmapped ↦ IsPublic.plain ip a (ground arith) parsed (ground arith) unmapped
      | inr (mapped, maps) ↦
          IsPublic.mapping ip mapped a (ground arith) parsed (ground arith) maps
            (blocked_within-IsPublic depth mapped (ground arith))
    ]
  ]

  plain-blocked_within :
      (depth : ℕ) (ip : Text) (b : Address)
      → IsPublic ip
      → ip_address ip ≡ some b
      → b.ipv4_mapped ≡ none
      → blocked_within (suc depth) ip ≡ ok false
  unfolding blocked_within
  plain-blocked_within depth ip b (IsPublic.plain _ a m p s u) q v = ground arith
  plain-blocked_within depth ip b (IsPublic.mapping _ mapped a m p s u k) q v =
      absurd (ground arith)

  IsPublic-blocked_within :
      (depth : ℕ) (ip : Text)
      → MappedIsPlain
      → IsPublic ip
      → blocked_within (suc (suc depth)) ip ≡ ok false
  unfolding blocked_within
  IsPublic-blocked_within depth ip law (IsPublic.plain _ a m p s u) = ground arith
  IsPublic-blocked_within depth ip law (IsPublic.mapping _ mapped a m p s u k) =
      let (b, parsed, unmapped) = law ip mapped a p u in
      ground (arith, plain-blocked_within depth mapped b k parsed unmapped)

  -- two levels are enough
  blocked_within_total :
      (depth : ℕ) (ip : Text)
      → MappedIsPlain
      → (b : Bool) × (blocked_within (suc (suc depth)) ip ≡ ok b)
  unfolding blocked_within
  blocked_within_total depth ip law = elim (Option-cases (ip_address ip)) [
    | inl bad ↦ (true, ground arith)
    | inr (a, parsed) ↦ elim (Option-cases a.ipv4_mapped) [
      | inl unmapped ↦ (is_metadata ip || is_special a, ground arith)
      | inr (mapped, maps) ↦
          let (b, parsed', unmapped) = law ip mapped a parsed maps in
          (is_metadata ip || (is_special a || (is_metadata mapped || is_special b)), ground arith)
    ]
  ]

  -- With private targets not allowed, and with the mapped texts that `ipaddress` prints, the check
  -- always comes to an end: it lets an address through exactly if the address is public, and raises
  -- `TargetNotAllowedError` exactly if it is not.
  pub assert_ip_allowed_iff :
      (s : Settings) (ip : Text)
      → s.allow_private_targets ≡ false
      → MappedIsPlain
      → ((assert_ip_allowed s ip ≡ ok tt) ↔ IsPublic ip)
        × ((assert_ip_allowed s ip ≡ raised target_not_allowed) ↔ ¬ IsPublic ip)
  unfolding assert_ip_allowed is_blocked_ip
  assert_ip_allowed_iff s ip closed law =
      let (b, decided) = blocked_within_total 998 ip law in decide b decided
    where
      decide :
          (b : Bool)
          → blocked_within recursion_limit ip ≡ ok b
          → ((assert_ip_allowed s ip ≡ ok tt) ↔ IsPublic ip)
            × ((assert_ip_allowed s ip ≡ raised target_not_allowed) ↔ ¬ IsPublic ip)
      decide true e =
          rw (closed, e)
            (
              (λ h. cc, λ p. absurd (cc (IsPublic-blocked_within 998 ip law p))),
              (λ h p. cc (IsPublic-blocked_within 998 ip law p), λ n. refl),
            )
      decide false e =
          rw (closed, e)
            (
              (λ h. blocked_within-IsPublic recursion_limit ip e, λ p. refl),
              (λ h. cc, λ n. absurd (n (blocked_within-IsPublic recursion_limit ip e))),
            )
