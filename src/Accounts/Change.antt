-- ===== src/Accounts/Change.antt =====
-- app/services/auth_service.py: `change_password`.
use network_diagnostic_tool.Common.{
  ℕ, suc, Bool, true, false, not, ◌&&◌, ◌||◌, Option, none, some, List, [], ◌∷◌, ◌++◌, map, reverse,
  Text, any, take, keep_if, contains, ◌==◌, nat_eq, list_eq, if◌then◌else◌, ok, raised,
}
use network_diagnostic_tool.Exceptions.{Raises, value_error}
use network_diagnostic_tool.Settings.{Settings}
use network_diagnostic_tool.Accounts.Credentials.{
  Crypto, hash_password, verify_password, validate_password,
}
use network_diagnostic_tool.Accounts.Tables.{
  User, Session, HistoryRow, password_changed, is_null, find, update_where, order_by,
}
use network_diagnostic_tool.Accounts.Events.{
  Database, World, event_of, changed_password, success, add_auth_event, transaction,
}
use network_diagnostic_tool.Accounts.Login.{AuthContext, has_id, revoke, users_of, sessions_of}

-- the arguments of `change_password`, the times that it reads and the salt of the new hash
pub record Change : Type 0 where
  pub context : AuthContext
  pub current_password : Text
  pub new_password : Text
  pub now : ℕ
  pub db_now : ℕ
  pub salt : ℕ

-- `WHERE user_id=$1`
abbrev pub history_of : ℕ → List HistoryRow → List HistoryRow
history_of id rows = keep_if (λ (r : HistoryRow). r.user_id == id) rows

-- `WHERE user_id=$1 ORDER BY created_at DESC LIMIT $2`
unfoldable pub recent_history : ℕ → ℕ → List HistoryRow → List HistoryRow
recent_history id limit rows =
    take limit (reverse (order_by (λ (r : HistoryRow). r.created_at) (history_of id rows)))

-- `INSERT INTO user_password_history`
unfoldable pub insert_history : ℕ → ℕ → Text → Database → Database
insert_history db_now id hash db = record db {
  password_history =
      db.password_history
      ++ record { id = db.next_history_id; user_id = id; password_hash = hash; created_at = db_now }
        ∷ [];
  next_history_id = suc db.next_history_id;
}

-- `DELETE FROM user_password_history WHERE user_id=$1 AND id NOT IN (…)`
unfoldable pub prune_history : ℕ → ℕ → List HistoryRow → List HistoryRow
unfolding recent_history
prune_history id limit rows =
    keep_if
      (λ (r : HistoryRow).
        not (r.user_id == id)
        || contains (map (λ (k : HistoryRow). k.id) (recent_history id limit rows)) r.id)
      rows

-- `WHERE user_id=$1 AND id<>$2 AND revoked_at IS NULL`
unfoldable pub is_other_session : ℕ → ℕ → Session → Bool
is_other_session user_id session_id r =
    r.user_id == user_id && (not (r.id == session_id) && is_null r.revoked_at)

module _ (s : Settings) (x : Crypto) (c : Change) where
  unfoldable pub mark_changed : User → User
  mark_changed row = record row {
    password_hash = hash_password s x c.salt c.new_password;
    password_changed_at = c.db_now;
    must_change_password = false;
    updated_at = c.db_now;
  }

  -- whether the new password is the current one, or one of the recent ones
  unfoldable pub is_reused : User → List HistoryRow → Bool
  is_reused u rows =
      verify_password s x c.new_password u.password_hash
      || any (λ (r : HistoryRow). verify_password s x c.new_password r.password_hash) rows

  -- the writes of a change
  unfoldable pub change_writes : User → World → World
  unfolding mark_changed is_other_session
  change_writes u w =
      let inserted = record w { db = insert_history c.db_now u.id u.password_hash w.db } in
      let changed = users_of inserted (update_where (has_id u.id) mark_changed) in
      let pruned = record changed {
        db = record changed.db {
          password_history =
              prune_history u.id s.password_history_count changed.db.password_history;
        };
      } in
      let revoked = sessions_of pruned (
        update_where (is_other_session u.id c.context.session_id)
          (revoke c.db_now password_changed)) in
      add_auth_event s c.now
        (event_of changed_password success (some u.id) (some u.id) none none
          (some c.context.session_id))
        revoked

  -- the checks behind the current password
  unfoldable pub change_checked : User → World → Raises Unit → Raises Bool × World
  unfolding is_reused change_writes
  change_checked u w (raised e) = (raised e, w)
  change_checked u w (ok checked) =
      if is_reused u (recent_history u.id s.password_history_count w.db.password_history)
      then (raised value_error, w)
      else (ok true, change_writes u w)

  unfoldable pub change_body : World → Option User → Raises Bool × World
  unfolding change_checked
  change_body w none = (ok false, w)
  change_body w (some u) =
      if not (verify_password s x c.current_password u.password_hash)
      then (ok false, w)
      else change_checked u w (validate_password x.lower c.new_password u.username)

  unfoldable pub change_password : World → Raises Bool × World
  unfolding change_body
  change_password w =
      transaction s (λ v. change_body v (find (has_id c.context.user_id) v.db.users)) w
