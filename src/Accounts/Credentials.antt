-- ===== src/Accounts/Credentials.antt =====
-- app/core/auth.py: user names, passwords, tokens and the client's key.
use mathlib.Core.Option
use network_diagnostic_tool.Common.{
  ℕ, Bool, true, false, not, ◌&&◌, ◌||◌, Option, none, some, List, [], ◌∷◌, ◌++◌, reverse, Text,
  text, non_empty, has_part, length, take, leb, ◌==◌, nat_eq, list_eq, ok, raised, raise_if,
  if◌then◌else◌,
}
use network_diagnostic_tool.Exceptions.{Raises, value_error}
use network_diagnostic_tool.Settings.{Settings}

-- What `PasswordHasher.verify` does: it returns, or raises `VerifyMismatchError` or
-- `InvalidHashError`.
pub data Verdict : Type 0 where
  matches mismatch invalid_hash : Verdict

-- argon2, hashlib, hmac and the methods of `str` that depend on Unicode's tables
pub record Crypto : Type 0 where
  -- `PasswordHasher.hash`, by the salt that it draws
  pub argon2_hash : ℕ → Text → Text
  pub argon2_verify : Text → Text → Verdict
  -- `check_needs_rehash`, `none` for `InvalidHashError`
  pub argon2_needs_rehash : Text → Option Bool
  pub sha256 : Text → Text
  pub hmac_sha256 : Text → Text → Text
  pub lower : Text → Text
  pub is_space : ℕ → Bool

-- `[a-z0-9]`
unfoldable pub is_name_end : ℕ → Bool
is_name_end c = (leb b'a' c && leb c b'z') || (leb b'0' c && leb c b'9')

-- `[a-z0-9._-]`
unfoldable pub is_name_char : ℕ → Bool
unfolding is_name_end
is_name_char c = is_name_end c || (c == b'.' || (c == b'_' || c == b'-'))

-- `[a-z0-9._-]{1,48}[a-z0-9]`, over the whole of the text: the last character, behind some others
unfoldable pub matches_name_rest : Text → Bool
unfolding is_name_char
matches_name_rest [] = false
matches_name_rest (c ∷ []) = is_name_end c
matches_name_rest (c ∷ d ∷ s) = is_name_char c && matches_name_rest (d ∷ s)

-- `USERNAME_RE.fullmatch(username)`
unfoldable pub matches_username : Text → Bool
unfolding matches_name_rest
matches_username [] = false
matches_username (c ∷ s) =
    is_name_end c && (matches_name_rest s && (leb 2 (length s) && leb (length s) 49))

abbrev pub password_min_length : ℕ
password_min_length = 12

abbrev pub password_max_length : ℕ
password_max_length = 128

-- `not username or username.lower() not in password.lower()`, negated
unfoldable pub holds_username : (Text → Text) → Text → Text → Bool
holds_username lower password username =
    non_empty username && has_part (lower password) (lower username)

unfoldable pub validate_password : (Text → Text) → Text → Text → Raises Unit
validate_password lower password username =
    if leb password_min_length (length password) && leb (length password) password_max_length
    then raise_if (holds_username lower password username) value_error
    else raised value_error

-- the words of a text, split at white space: the word that is being read, and the words behind it
unfoldable pub words_from : (ℕ → Bool) → Text → Text × List Text
words_from is_space [] = ([], [])
words_from is_space (c ∷ s) =
    let (word, more) = words_from is_space s in
    if is_space c then ([], (if non_empty word then word ∷ more else more)) else (c ∷ word, more)

-- `s.split()`
unfoldable pub words : (ℕ → Bool) → Text → List Text
unfolding words_from
words is_space s =
    let (word, more) = words_from is_space s in if non_empty word then word ∷ more else more

-- `" ".join(words)`
unfoldable pub join_words : List Text → Text
join_words [] = []
join_words (word ∷ []) = word
join_words (word ∷ next ∷ more) = word ++ b' ' ∷ join_words (next ∷ more)

-- `value.replace("\r", " ").replace("\n", " ")`
unfoldable pub without_breaks : Text → Text
without_breaks [] = []
without_breaks (c ∷ s) = (if c == 13 || c == 10 then b' ' else c) ∷ without_breaks s

module _ (s : Settings) (x : Crypto) where
  unfoldable pub strip_leading_spaces : Text → Text
  strip_leading_spaces [] = []
  strip_leading_spaces (c ∷ t) =
      let rest = strip_leading_spaces t in if x.is_space c then rest else c ∷ t

  -- `value.strip()`
  unfoldable pub strip : Text → Text
  unfolding strip_leading_spaces
  strip t = reverse (strip_leading_spaces (reverse (strip_leading_spaces t)))

  unfoldable pub normalize_username : Text → Raises Text
  normalize_username value =
      let username = x.lower (strip value) in
      if matches_username username then ok username else raised value_error

  unfoldable pub peppered : Text → Text
  peppered password = password ++ s.password_pepper

  unfoldable pub hash_password : ℕ → Text → Text
  unfolding peppered
  hash_password salt password = x.argon2_hash salt (peppered password)

  unfoldable pub verify_password : Text → Text → Bool
  unfolding peppered
  verify_password password encoded_hash = elim (x.argon2_verify encoded_hash (peppered password)) [
    | matches ↦ true
    | mismatch ↦ false
    | invalid_hash ↦ false
  ]

  unfoldable pub password_needs_rehash : Text → Bool
  password_needs_rehash encoded_hash = Option.get_or (x.argon2_needs_rehash encoded_hash) true

  unfoldable pub hash_token : Text → Text
  hash_token token = x.sha256 (token ++ s.session_token_pepper)

  unfoldable pub hash_client_ip : Text → Option Text
  hash_client_ip ip =
      if not (non_empty s.client_hash_secret) || (not (non_empty ip) || ip == text "unknown")
      then none
      else some (x.hmac_sha256 s.client_hash_secret ip)

  unfoldable pub summarize_user_agent : Option Text → Option Text
  summarize_user_agent none = none
  summarize_user_agent (some value) =
      if non_empty value
      then some (take 255 (join_words (words x.is_space (without_breaks value))))
      else none
