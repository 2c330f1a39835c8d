-- ===== src/Accounts/Resolved.antt =====
-- What stands behind a session that is resolved.
use mathlib.Core.List.{Mem}
use network_diagnostic_tool.Common.{
  ℕ, ◌<◌, ◌≡◌, refl, true, Option, none, some, arith, Text, ==_iff, list_eq, nat_eq, ok,
}
use network_diagnostic_tool.Settings.{Settings}
use network_diagnostic_tool.Accounts.Credentials.{Crypto, hash_token}
use network_diagnostic_tool.Accounts.Tables.{User, Session, is_open, find}
use network_diagnostic_tool.Accounts.Rows.{find-holds, find-Mem}
use network_diagnostic_tool.Accounts.Events.{World}
use network_diagnostic_tool.Accounts.Login.{AuthContext, has_id}
use network_diagnostic_tool.Accounts.Granted.{transaction-ok}
use network_diagnostic_tool.Accounts.Sessions.{
  is_live_token, is_expired, resolved_context, resolve_row, resolve_found, resolve_session,
}

module _ (s : Settings) (x : Crypto) where
  -- The rows behind a context: a session of the table, of the token, that is neither revoked nor
  -- expired, and its user, who may log in and is not deleted.
  pub record IsLive (now : ℕ) (token : Text) (w : World) (context : AuthContext) : Type 0 where
    pub row : Session
    pub user : User
    pub stored : Mem row w.db.sessions
    pub of_token : row.token_hash ≡ hash_token s x token
    pub not_revoked : row.revoked_at ≡ none
    pub before_idle : now < row.idle_expires_at
    pub before_absolute : now < row.absolute_expires_at
    pub owner : find (has_id row.user_id) w.db.users ≡ some user
    pub may_log_in : is_open user.status ≡ true
    pub not_deleted : user.deleted_at ≡ none
    pub reported : context ≡ resolved_context s row user

  live_token :
      (hash : Text) (r : Session)
      → is_live_token hash r ≡ true
      → (r.token_hash ≡ hash) × (r.revoked_at ≡ none)
  unfolding is_live_token
  live_token hash r h = ground (arith, ==_iff r.token_hash hash)

  resolve_row-IsLive :
      (now : ℕ) (token : Text) (w w' : World) (r : Session) (o : Option User)
      (context : AuthContext)
      → is_live_token (hash_token s x token) r ≡ true
      → Mem r w.db.sessions
      → find (has_id r.user_id) w.db.users ≡ o
      → resolve_row s now r o w ≡ (ok (some context), w')
      → IsLive now token w context
  unfolding resolve_row is_expired
  resolve_row-IsLive now token w w' r none context live stored owner h = cc
  resolve_row-IsLive now token w w' r (some u) context live stored owner h =
      let (of_token, not_revoked) = live_token (hash_token s x token) r live in
      record {
        row = r;
        user = u;
        stored = stored;
        of_token = of_token;
        not_revoked = not_revoked;
        before_idle = ground arith;
        before_absolute = ground arith;
        owner = owner;
        may_log_in = ground arith;
        not_deleted = ground arith;
        reported = ground arith;
      }

  resolve_found-IsLive :
      (now : ℕ) (token : Text) (w w' : World) (o : Option Session) (context : AuthContext)
      → find (is_live_token (hash_token s x token)) w.db.sessions ≡ o
      → resolve_found s now o w ≡ (ok (some context), w')
      → IsLive now token w context
  unfolding resolve_found
  resolve_found-IsLive now token w w' none context found h = cc
  resolve_found-IsLive now token w w' (some r) context found h =
      resolve_row-IsLive now token w w' r (find (has_id r.user_id) w.db.users) context
        (find-holds (is_live_token (hash_token s x token)) w.db.sessions r found)
        (find-Mem (is_live_token (hash_token s x token)) w.db.sessions r found) refl h

  -- A token is resolved only to a session of the table that its hash is of, that is not revoked and
  -- whose two times have not come, and to the user of that session, who is active or pending and not
  -- deleted; the name, the role and the duty to change the password are the ones in that user's row.
  pub resolve_session-IsLive :
      (now : ℕ) (token : Text) (w w' : World) (context : AuthContext)
      → resolve_session s x now token w ≡ (ok (some context), w')
      → IsLive now token w context
  unfolding resolve_session
  resolve_session-IsLive now token w w' context h =
      let (_, body) =
        transaction-ok s
          (λ v. resolve_found s now (find (is_live_token (hash_token s x token)) v.db.sessions) v) w
          w' (some context) h in
      resolve_found-IsLive now token w w'
        (find (is_live_token (hash_token s x token)) w.db.sessions) context refl body
