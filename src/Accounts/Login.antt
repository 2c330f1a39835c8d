-- ===== src/Accounts/Login.antt =====
-- app/services/auth_service.py: `authenticate`, stage by stage.
use network_diagnostic_tool.Common.{
  ℕ, ◌+◌, ◌-◌, Bool, false, not, ◌&&◌, ◌||◌, Option, none, some, List, [], ◌∷◌, ◌++◌, map, Text,
  length, take, keep_if, contains, any, leb, ◌==◌, nat_eq, list_eq, if◌then◌else◌, ok, raised,
}
use network_diagnostic_tool.Exceptions.{Raises, unique_violation}
use network_diagnostic_tool.Settings.{Settings}
use network_diagnostic_tool.Accounts.Credentials.{
  Crypto, hash_password, verify_password, password_needs_rehash, hash_token, hash_client_ip,
  summarize_user_agent,
}
use network_diagnostic_tool.Accounts.Tables.{
  Role, Status, Reason, User, Session, active, pending, locked, unknown_user, bad_password,
  by_status, max_sessions, minutes, hours, is_null, is_admin, is_open, find, update_where, order_by,
}
use network_diagnostic_tool.Accounts.Events.{
  World, event_of, login_failed, login_succeeded, success, failure, add_auth_event, transaction,
}

-- app/core/auth.py, `AuthContext`
pub record AuthContext : Type 0 where
  pub user_id : ℕ
  pub session_id : ℕ
  pub username : Text
  pub display_name : Text
  pub role : Role
  pub must_change_password : Bool

-- the arguments of `authenticate`, and what it draws: the time of the server, before and
-- behind the work, and that of the database, two tokens, the id of the session and the salt of a new hash
pub record Attempt : Type 0 where
  pub username : Text
  pub password : Text
  pub client_ip : Text
  pub user_agent : Option Text
  pub now : ℕ
  pub event_now : ℕ
  pub db_now : ℕ
  pub token : Text
  pub csrf_token : Text
  pub session_id : ℕ
  pub salt : ℕ

pub record Login : Type 0 where
  pub context : AuthContext
  pub token : Text
  pub csrf_token : Text

-- `WHERE username=$1 AND deleted_at IS NULL`
unfoldable pub has_name : Text → User → Bool
has_name name u = u.username == name && is_null u.deleted_at

-- `WHERE id=$1`
abbrev pub has_id : ℕ → User → Bool
has_id id u = u.id == id

-- `WHERE user_id=$1 AND revoked_at IS NULL`
unfoldable pub is_live_of : ℕ → Session → Bool
is_live_of id session = session.user_id == id && is_null session.revoked_at

-- a lock whose time has come is taken off
abbrev pub reopen : User → User
reopen u = record u { status = active; locked_until = none; failed_login_count = 0 }

-- `user["status"] == "LOCKED" and user["locked_until"] and user["locked_until"] <= now`
unfoldable pub lock_is_over : ℕ → Status → Option ℕ → Bool
lock_is_over now locked (some until) = leb until now
lock_is_over now _ _ = false

abbrev pub activate : Status → Status
activate pending = active
activate status = status

abbrev pub users_of : World → (List User → List User) → World
users_of w f = record w { db = record w.db { users = f w.db.users } }

abbrev pub sessions_of : World → (List Session → List Session) → World
sessions_of w f = record w { db = record w.db { sessions = f w.db.sessions } }

-- `SET revoked_at=…,revoke_reason=…`
abbrev pub revoke : ℕ → Reason → Session → Session
revoke at reason row = record row { revoked_at = some at; revoke_reason = some reason }

-- `INSERT INTO user_sessions`, whose `id` and `token_hash` are unique
unfoldable pub insert_session : Session → List Session → Raises (List Session)
insert_session new sessions =
    if any (λ (r : Session). r.id == new.id || r.token_hash == new.token_hash) sessions
    then raised unique_violation
    else ok (sessions ++ new ∷ [])

module _ (s : Settings) (x : Crypto) (a : Attempt) where
  abbrev pub client_key : Option Text
  client_key = hash_client_ip s x a.client_ip

  -- the user, if any, with an overdue lock taken off in the table and in the row at hand
  unfoldable pub reopened : User → User
  reopened u = if lock_is_over a.now u.status u.locked_until then reopen u else u

  unfoldable pub reopen_due : User → World → World
  reopen_due u w =
      if lock_is_over a.now u.status u.locked_until
      then users_of w (update_where (has_id u.id) reopen)
      else w

  -- one more failure, which may lock the account
  unfoldable pub is_locking : User → Bool
  is_locking u = leb s.login_max_failures (u.failed_login_count + 1)

  unfoldable pub mark_failure : User → User → User
  unfolding is_locking
  mark_failure u row = record row {
    failed_login_count = u.failed_login_count + 1;
    status = if is_locking u then locked else u.status;
    locked_until = if is_locking u then some (a.now + minutes s.login_lock_minutes) else none;
    updated_at = a.db_now;
  }

  unfoldable pub mark_success : User → User → User
  mark_success u row = record row {
    password_hash =
        if password_needs_rehash s x u.password_hash
        then hash_password s x a.salt a.password
        else u.password_hash;
    failed_login_count = 0;
    locked_until = none;
    last_login_at = some a.now;
    status = activate row.status;
    updated_at = a.db_now;
  }

  -- the oldest of the user's live sessions, as many as leave room for one more
  unfoldable pub excess : ℕ → List Session → List ℕ
  excess id sessions =
      let live = order_by (λ (r : Session). r.created_at) (keep_if (is_live_of id) sessions) in
      map (λ (r : Session). r.id) (take (length live + 1 - s.max_sessions_per_user) live)

  unfoldable pub drop_excess : ℕ → List Session → List Session
  unfolding excess
  drop_excess id sessions =
      update_where (λ r. contains (excess id sessions) r.id) (revoke a.now max_sessions) sessions

  unfoldable pub new_session : User → Session
  new_session u = record {
    id = a.session_id;
    user_id = u.id;
    token_hash = hash_token s x a.token;
    csrf_token_hash = hash_token s x a.csrf_token;
    client_key = client_key;
    user_agent_summary = summarize_user_agent s x a.user_agent;
    created_at = a.db_now;
    last_seen_at = a.now;
    idle_expires_at = a.now + minutes s.session_idle_minutes;
    absolute_expires_at =
        a.now
        + hours
            (if is_admin u.role then s.admin_session_absolute_hours else s.session_absolute_hours);
    revoked_at = none;
    revoke_reason = none;
  }

  unfoldable pub context_of : User → AuthContext
  context_of u = record {
    user_id = u.id;
    session_id = a.session_id;
    username = u.username;
    display_name = u.display_name;
    role = u.role;
    must_change_password = u.must_change_password;
  }

  -- the last steps, by the sessions with the new one, or the exception of its insertion
  unfoldable pub finish : User → World → Raises (List Session) → Raises (Option Login) × World
  unfolding context_of
  finish u w (raised e) = (raised e, w)
  finish u w (ok sessions) = (
    ok (some (record { context = context_of u; token = a.token; csrf_token = a.csrf_token })),
    add_auth_event s a.event_now
        (event_of login_succeeded success (some u.id) (some u.id) none client_key
          (some a.session_id))
        (sessions_of w (λ old. sessions)),
  )

  unfoldable pub succeed : User → World → Raises (Option Login) × World
  unfolding finish
  succeed u w =
      let w' = users_of w (update_where (has_id u.id) (mark_success u)) in
      let kept = drop_excess u.id w'.db.sessions in
      finish u (sessions_of w' (λ old. kept)) (insert_session (new_session u) kept)

  unfoldable pub fail : User → World → Raises (Option Login) × World
  fail u w = (
    ok none,
    add_auth_event s a.event_now
        (event_of login_failed failure none (some u.id)
          (some (if is_locking u then by_status locked else bad_password)) client_key none)
        (users_of w (update_where (has_id u.id) (mark_failure u))),
  )

  -- a user, with an overdue lock taken off
  unfoldable pub known : User → World → Raises (Option Login) × World
  known u w =
      if not (is_open u.status)
      then (
        ok none,
        add_auth_event s a.event_now
            (event_of login_failed failure none (some u.id) (some (by_status u.status)) client_key
              none)
            w,
      )
      else if not (verify_password s x a.password u.password_hash)
      then fail u w
      else succeed u w

  unfoldable pub login_body : World → Option User → Raises (Option Login) × World
  unfolding reopened reopen_due
  login_body w none = (
    ok none,
    add_auth_event s a.event_now
        (event_of login_failed failure none none (some unknown_user) client_key none) w,
  )
  login_body w (some u) = known (reopened u) (reopen_due u w)

  -- The result is `none` where the login is refused. The password hash that an unknown user's attempt
  -- computes and drops is left out.
  unfoldable pub authenticate : World → Raises (Option Login) × World
  unfolding login_body
  authenticate w = transaction s (λ v. login_body v (find (has_name a.username) v.db.users)) w
