-- ===== src/Accounts/Sessions.antt =====
-- app/services/auth_service.py: `resolve_session`, `csrf_matches` and `revoke_session`.
use network_diagnostic_tool.Common.{
  ℕ, ◌+◌, ◌-◌, Bool, not, ◌&&◌, ◌||◌, Option, none, some, Text, any, leb, min, ◌==◌, nat_eq,
  list_eq, if◌then◌else◌, ok, raised,
}
use network_diagnostic_tool.Exceptions.{Raises, other_error}
use network_diagnostic_tool.Settings.{Settings}
use network_diagnostic_tool.Accounts.Credentials.{Crypto, hash_token}
use network_diagnostic_tool.Accounts.Tables.{
  Reason, User, Session, logout, expired, minutes, is_null, is_open, find, update_where,
}
use network_diagnostic_tool.Accounts.Events.{
  World, EventType, event_of, logged_out, session_revoked, success, add_auth_event, transaction,
}
use network_diagnostic_tool.Accounts.Login.{AuthContext, has_id, revoke, sessions_of}

-- `WHERE s.token_hash=$1 AND s.revoked_at IS NULL`
unfoldable pub is_live_token : Text → Session → Bool
is_live_token hash r = r.token_hash == hash && is_null r.revoked_at

abbrev pub session_has_id : ℕ → Session → Bool
session_has_id id r = r.id == id

unfoldable pub is_expired : ℕ → Session → Bool
is_expired now r = leb r.idle_expires_at now || leb r.absolute_expires_at now

module _ (s : Settings) where
  -- `UPDATE user_sessions SET last_seen_at=$2,idle_expires_at=LEAST($3,absolute_expires_at)`
  unfoldable pub refresh : ℕ → Session → Session
  refresh now r = record r {
    last_seen_at = now;
    idle_expires_at = min (now + minutes s.session_idle_minutes) r.absolute_expires_at;
  }

  -- a session that has not expired: its row is written at most once in five minutes
  unfoldable pub touch : ℕ → Session → World → World
  unfolding refresh
  touch now r w =
      if leb (minutes 5) (now - r.last_seen_at)
      then sessions_of w (update_where (session_has_id r.id) (refresh now))
      else w

  unfoldable pub resolved_context : Session → User → AuthContext
  resolved_context r u = record {
    user_id = r.user_id;
    session_id = r.id;
    username = u.username;
    display_name = u.display_name;
    role = u.role;
    must_change_password = u.must_change_password;
  }

  -- the session and its user, where the join has such a row
  unfoldable pub resolve_row :
      ℕ → Session → Option User → World → Raises (Option AuthContext) × World
  unfolding touch resolved_context
  resolve_row now r none w = (ok none, w)
  resolve_row now r (some u) w =
      if not (is_open u.status) || not (is_null u.deleted_at)
      then (ok none, w)
      else if is_expired now r
      then (ok none, sessions_of w (update_where (session_has_id r.id) (revoke now expired)))
      else (ok (some (resolved_context r u)), touch now r w)

  unfoldable pub resolve_found : ℕ → Option Session → World → Raises (Option AuthContext) × World
  unfolding resolve_row
  resolve_found now none w = (ok none, w)
  resolve_found now (some r) w = resolve_row now r (find (has_id r.user_id) w.db.users) w

  module _ (x : Crypto) where
    unfoldable pub resolve_session : ℕ → Text → World → Raises (Option AuthContext) × World
    unfolding resolve_found
    resolve_session now token w =
        transaction s
          (λ v. resolve_found now (find (is_live_token (hash_token s x token)) v.db.sessions) v) w

    unfoldable pub csrf_matches : ℕ → Text → World → Raises Bool
    csrf_matches session_id token w =
        if s.database_enabled
        then ok (
            any
              (λ (r : Session).
                r.id == session_id
                && (r.csrf_token_hash == hash_token s x token && is_null r.revoked_at))
              w.db.sessions)
        else raised other_error

  -- `WHERE id=$1 AND revoked_at IS NULL`
  unfoldable pub is_live_id : ℕ → Session → Bool
  is_live_id id r = r.id == id && is_null r.revoked_at

  -- the event of a revocation, by its reason
  unfoldable pub revocation_event : Reason → EventType
  revocation_event logout = logged_out
  revocation_event _ = session_revoked

  -- `utcnow()` is read twice: for the row and for the event
  unfoldable pub revoke_session : ℕ → ℕ → ℕ → ℕ → Reason → World → Raises Unit × World
  unfolding revocation_event
  revoke_session now event_now session_id user_id reason w =
      transaction s
        (λ v. (
          ok tt,
          add_auth_event s event_now
              (event_of (revocation_event reason) success (some user_id) (some user_id)
                (some reason) none (some session_id))
              (sessions_of v (update_where (is_live_id session_id) (revoke now reason))),
        ))
        w
