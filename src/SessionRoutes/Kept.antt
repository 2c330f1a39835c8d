-- ===== src/SessionRoutes/Kept.antt =====
-- What a lookup of a session leaves of the table: `resolve_session` of app/services/auth_service.py,
-- as the routes of app/api/auth.py call it.
use network_diagnostic_tool.Common.{
  ℕ, ◌≡◌, ◌≢◌, refl, inl, inr, Bool, true, false, Option, none, some, List, [], ◌∷◌, arith, Text,
  All, ok, Bool-cases, if◌then◌else◌, list_eq, nat_eq,
}
use network_diagnostic_tool.Settings.{Settings}
use network_diagnostic_tool.Accounts.Credentials.{Crypto, hash_token}
use network_diagnostic_tool.Accounts.Tables.{User, Session, find, update_where}
use network_diagnostic_tool.Accounts.Events.{World}
use network_diagnostic_tool.Accounts.Login.{AuthContext, has_id}
use network_diagnostic_tool.Accounts.Granted.{transaction-ok}
use network_diagnostic_tool.Accounts.Sessions.{
  is_live_token, session_has_id, refresh, touch, resolve_row, resolve_found, resolve_session,
}
use network_diagnostic_tool.Lifecycle.Logout.{HasUniqueHashes}

-- a refreshed row keeps its hash
refresh-others :
    (s : Settings) (now : ℕ) (q : Session → Bool) (hash : Text) (rows : List Session)
    → All (λ (r : Session). r.token_hash ≢ hash) rows
    → All (λ (r : Session). r.token_hash ≢ hash) (update_where q (refresh s now) rows)
unfolding update_where refresh
refresh-others s now q hash [] h = tt
refresh-others s now q hash (r ∷ rows) (ne, h) = elim (Bool-cases (q r)) [
  | inl hit ↦ rw hit (ne, refresh-others s now q hash rows h)
  | inr miss ↦ rw miss (ne, refresh-others s now q hash rows h)
]

refresh-HasUniqueHashes :
    (s : Settings) (now : ℕ) (q : Session → Bool) (rows : List Session)
    → HasUniqueHashes rows
    → HasUniqueHashes (update_where q (refresh s now) rows)
unfolding update_where refresh
refresh-HasUniqueHashes s now q [] h = tt
refresh-HasUniqueHashes s now q (r ∷ rows) (others, h) = elim (Bool-cases (q r)) [
  | inl hit ↦
      rw hit
        (refresh-others s now q r.token_hash rows others, refresh-HasUniqueHashes s now q rows h)
  | inr miss ↦
      rw miss
        (refresh-others s now q r.token_hash rows others, refresh-HasUniqueHashes s now q rows h)
]

-- The live row of a hash, by its id.
abbrev pub Holds : Text → ℕ → List Session → Type 0
Holds hash id rows = (r : Session) × (find (is_live_token hash) rows ≡ some r) × (r.id ≡ id)

refresh-Holds :
    (s : Settings) (now : ℕ) (q : Session → Bool) (hash : Text) (r : Session) (rows : List Session)
    → find (is_live_token hash) rows ≡ some r
    → Holds hash r.id (update_where q (refresh s now) rows)
unfolding find update_where refresh is_live_token
refresh-Holds s now q hash r [] h = cc
refresh-Holds s now q hash r (row ∷ rows) h = elim (Bool-cases (is_live_token hash row)) [
  | inl hit ↦ elim (Bool-cases (q row)) [
    | inl chosen ↦ (refresh s now row, ground (arith, hit, chosen), ground (arith, hit))
    | inr left ↦ (row, ground (arith, hit, left), ground (arith, hit))
  ]
  | inr miss ↦
      let (r', found, same) = refresh-Holds s now q hash r rows (ground (arith, miss)) in
      (r', ground (arith, miss, found), same)
]

module _ (s : Settings) (x : Crypto) where
  -- the table behind a lookup that finds the session `id`
  abbrev pub Kept : Text → ℕ → World → Type 0
  Kept token id w = HasUniqueHashes w.db.sessions × Holds (hash_token s x token) id w.db.sessions

  if-Kept :
      (token : Text) (id : ℕ) (b : Bool) (v w : World)
      → Kept token id v
      → Kept token id w
      → Kept token id (if b then v else w)
  if-Kept token id true v w kv kw = kv
  if-Kept token id false v w kv kw = kw

  touch-Kept :
      (now : ℕ) (token : Text) (r : Session) (w : World)
      → HasUniqueHashes w.db.sessions
      → find (is_live_token (hash_token s x token)) w.db.sessions ≡ some r
      → Kept token r.id (touch s now r w)
  unfolding touch
  touch-Kept now token r w keys found =
      if-Kept token r.id _ _ w
        (
          refresh-HasUniqueHashes s now (session_has_id r.id) w.db.sessions keys,
          refresh-Holds s now (session_has_id r.id) (hash_token s x token) r w.db.sessions found,
        )
        (keys, (r, found, refl))

  resolve_row-Kept :
      (now : ℕ) (token : Text) (r : Session) (o : Option User) (w w' : World)
      (context : AuthContext)
      → HasUniqueHashes w.db.sessions
      → find (is_live_token (hash_token s x token)) w.db.sessions ≡ some r
      → resolve_row s now r o w ≡ (ok (some context), w')
      → Kept token context.session_id w'
  unfolding resolve_row
  resolve_row-Kept now token r none w w' context keys found h = cc
  resolve_row-Kept now token r (some u) w w' context keys found h =
      let (world, id) : (touch s now r w ≡ w') × (r.id ≡ context.session_id) = ground arith in
      rw (← world, ← id) (touch-Kept now token r w keys found)

  resolve_found-Kept :
      (now : ℕ) (token : Text) (o : Option Session) (w w' : World) (context : AuthContext)
      → HasUniqueHashes w.db.sessions
      → find (is_live_token (hash_token s x token)) w.db.sessions ≡ o
      → resolve_found s now o w ≡ (ok (some context), w')
      → Kept token context.session_id w'
  unfolding resolve_found
  resolve_found-Kept now token none w w' context keys found h = cc
  resolve_found-Kept now token (some r) w w' context keys found h =
      resolve_row-Kept now token r (find (has_id r.user_id) w.db.users) w w' context keys found h

  pub resolve_session-Kept :
      (now : ℕ) (token : Text) (w w' : World) (context : AuthContext)
      → HasUniqueHashes w.db.sessions
      → resolve_session s x now token w ≡ (ok (some context), w')
      → (s.database_enabled ≡ true) × Kept token context.session_id w'
  unfolding resolve_session
  resolve_session-Kept now token w w' context keys h =
      let (on, body) =
        transaction-ok s
          (λ v. resolve_found s now (find (is_live_token (hash_token s x token)) v.db.sessions) v) w
          w' (some context) h in
      (
        on,
        resolve_found-Kept now token (find (is_live_token (hash_token s x token)) w.db.sessions) w
            w' context keys refl body,
      )
