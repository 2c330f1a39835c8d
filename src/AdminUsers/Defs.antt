-- ===== src/AdminUsers/Defs.antt =====
-- app/api/admin_users.py: the five routes that change the tables. Behind the guards, each is a
-- transaction. The JSON of the answers is left out: a route returns the row or the number it reports.
use network_diagnostic_tool.Common.{
  ℕ, suc, Bool, true, false, not, ◌&&◌, ◌||◌, Option, none, some, List, [], ◌∷◌, ◌++◌, Text, text,
  non_empty, any, count_if, leb, ◌==◌, nat_eq, list_eq, if◌then◌else◌, ok, raised,
}
use network_diagnostic_tool.Exceptions.{
  Raises, unique_violation, user_not_found, last_admin_protected, username_already_exists,
}
use network_diagnostic_tool.Settings.{Settings}
use network_diagnostic_tool.Accounts.Credentials.{Crypto, strip, hash_password, validate_password}
use network_diagnostic_tool.Accounts.Tables.{
  Role, Status, Reason, User, admin, operator, viewer, pending, active, locked, disabled,
  account_disabled, password_reset, admin_revoked, is_admin, is_open, is_null, find, update_where,
}
use network_diagnostic_tool.Accounts.Events.{
  World, Detail, word, number, EventType, account_created, account_updated, account_unlocked,
  password_reset_by_admin, session_revoked, success, event_of, add_auth_event, transaction,
}
use network_diagnostic_tool.Accounts.Login.{
  has_id, is_live_of, revoke, reopen, users_of, sessions_of,
}
use network_diagnostic_tool.Accounts.Change.{insert_history}

-- app/schemas/auth.py, `UserCreateRequest` and `UserUpdateRequest`
pub record UserCreateRequest : Type 0 where
  pub username : Text
  pub display_name : Text
  pub email : Option Text
  pub role : Role
  pub temporary_password : Text

pub record UserUpdateRequest : Type 0 where
  pub display_name : Option Text
  pub email : Option Text
  pub role : Option Role
  pub status : Option Status

-- what a route draws and reads: the administrator, the times of the server and of the database, a
-- new id and the salt of a hash
pub record Call : Type 0 where
  pub actor : ℕ
  pub now : ℕ
  pub db_now : ℕ
  pub user_id : ℕ
  pub salt : ℕ

abbrev pub role_name : Role → Text
role_name admin = text "ADMIN"
role_name operator = text "OPERATOR"
role_name viewer = text "VIEWER"

abbrev pub status_name : Status → Text
status_name pending = text "PENDING"
status_name active = text "ACTIVE"
status_name locked = text "LOCKED"
status_name disabled = text "DISABLED"

-- `COALESCE($n, column)`
abbrev pub coalesce : {A : Type 0} → Option A → A → A
coalesce none a = a
coalesce (some b) a = b

-- `f(value) if value else None`
unfoldable pub if_given : (Text → Text) → Option Text → Option Text
if_given f none = none
if_given f (some value) = if non_empty value then some (f value) else none

-- `email=COALESCE($3,email)`
abbrev pub coalesce_email : Option Text → Option Text → Option Text
coalesce_email none email = email
coalesce_email (some e) email = some e

abbrev pub has_email : Text → Option Text → Bool
has_email e none = false
has_email e (some email) = email == e

-- whether an email that is written is another row's
unfoldable pub email_is_taken : ℕ → Option Text → List User → Bool
email_is_taken id none users = false
email_is_taken id (some e) users = any (λ (r : User). not (r.id == id) && has_email e r.email) users

-- `payload.role not in {None, "ADMIN"}`
unfoldable pub takes_role : Option Role → Bool
takes_role none = false
takes_role (some role) = not (is_admin role)

-- `payload.status == "DISABLED"`
unfoldable pub disables : Option Status → Bool
disables (some disabled) = true
disables _ = false

-- `role='ADMIN' AND status IN ('ACTIVE','PENDING') AND deleted_at IS NULL`
unfoldable pub is_working_admin : User → Bool
is_working_admin u = is_admin u.role && (is_open u.status && is_null u.deleted_at)

-- `WHERE id=$1 AND deleted_at IS NULL`
unfoldable pub is_present : ℕ → User → Bool
is_present id u = u.id == id && is_null u.deleted_at

-- what is left of the payload without its `None`s
abbrev pub dump_role : Option Role → List (Text × Detail)
dump_role none = []
dump_role (some role) = (text "role", word (role_name role)) ∷ []

abbrev pub dump_status : Option Status → List (Text × Detail)
dump_status none = []
dump_status (some status) = (text "status", word (status_name status)) ∷ []

abbrev pub dump_text : Text → Option Text → List (Text × Detail)
dump_text key none = []
dump_text key (some value) = (key, word value) ∷ []

unfoldable pub model_dump : UserUpdateRequest → List (Text × Detail)
model_dump p =
    dump_text (text "display_name") p.display_name
    ++ (dump_text (text "email") p.email ++ (dump_role p.role ++ dump_status p.status))

module _ (s : Settings) (x : Crypto) (c : Call) where
  -- an event of the administrator's about a user
  unfoldable pub admin_event : EventType → ℕ → List (Text × Detail) → World → World
  admin_event event_type target details w =
      add_auth_event s c.now
        (record (event_of event_type success (some c.actor) (some target) none none none) {
          details = details;
        })
        w

  -- `UPDATE user_sessions SET revoked_at=now(),revoke_reason=… WHERE user_id=$1 AND revoked_at IS NULL`
  unfoldable pub revoke_all : ℕ → Reason → World → World
  revoke_all id reason w = sessions_of w (update_where (is_live_of id) (revoke c.db_now reason))

  unfoldable pub new_user : UserCreateRequest → User
  new_user p = record {
    id = c.user_id;
    username = p.username;
    email = if_given (λ e. strip s x (x.lower e)) p.email;
    display_name = strip s x p.display_name;
    password_hash = hash_password s x c.salt p.temporary_password;
    role = p.role;
    status = pending;
    must_change_password = true;
    failed_login_count = 0;
    locked_until = none;
    last_login_at = none;
    password_changed_at = c.db_now;
    created_by = some c.actor;
    created_at = c.db_now;
    updated_at = c.db_now;
    disabled_at = none;
    deleted_at = none;
    version = 1;
  }

  -- `INSERT INTO user_accounts`, whose `id`, `username` and `email` are unique
  unfoldable pub insert_user : User → World → Raises User × World
  unfolding admin_event
  insert_user new w =
      if any (λ (r : User). r.id == new.id || r.username == new.username) w.db.users
        || email_is_taken new.id new.email w.db.users
      then (raised unique_violation, w)
      else (
        ok new,
        admin_event account_created new.id ((text "role", word (role_name new.role)) ∷ [])
            (users_of w (λ users. users ++ new ∷ [])),
      )

  -- `except asyncpg.UniqueViolationError`
  unfoldable pub as_conflict : {A : Type 0} → Raises A × World → Raises A × World
  as_conflict (raised unique_violation, w) = (raised username_already_exists, w)
  as_conflict end = end

  unfoldable pub after_policy : UserCreateRequest → Raises Unit → World → Raises User × World
  unfolding insert_user as_conflict
  after_policy p (raised e) w = (raised e, w)
  after_policy p (ok accepted) w = as_conflict (transaction s (insert_user (new_user p)) w)

  unfoldable pub create_user : UserCreateRequest → World → Raises User × World
  unfolding after_policy
  create_user p w = after_policy p (validate_password x.lower p.temporary_password p.username) w

  unfoldable pub mark_updated : UserUpdateRequest → User → User
  mark_updated p row = record row {
    display_name = coalesce (if_given (strip s x) p.display_name) row.display_name;
    email = coalesce_email (if_given (λ e. x.lower (strip s x e)) p.email) row.email;
    role = coalesce p.role row.role;
    status = coalesce p.status row.status;
    disabled_at = if disables p.status then some c.db_now else row.disabled_at;
    version = suc row.version;
    updated_at = c.db_now;
  }

  -- whether the update is refused, for the sake of the last administrator
  unfoldable pub is_protected : UserUpdateRequest → User → List User → Bool
  is_protected p u users =
      is_admin u.role
      && ((takes_role p.role || disables p.status) && leb (count_if is_working_admin users) 1)

  unfoldable pub write_update : UserUpdateRequest → User → World → Raises User × World
  unfolding admin_event revoke_all
  write_update p u w =
      if email_is_taken u.id (if_given (λ e. x.lower (strip s x e)) p.email) w.db.users
      then (raised unique_violation, w)
      else let updated = users_of w (update_where (has_id u.id) (mark_updated p)) in
        let closed =
          if disables p.status then revoke_all u.id account_disabled updated else updated in
        (ok (mark_updated p u), admin_event account_updated u.id (model_dump p) closed)

  unfoldable pub update_body : UserUpdateRequest → World → Option User → Raises User × World
  unfolding is_protected write_update
  update_body p w none = (raised user_not_found, w)
  update_body p w (some u) =
      if is_protected p u w.db.users then (raised last_admin_protected, w) else write_update p u w

  unfoldable pub update_user : ℕ → UserUpdateRequest → World → Raises User × World
  unfolding update_body
  update_user id p w = transaction s (λ v. update_body p v (find (is_present id) v.db.users)) w

  abbrev pub mark_unlocked : User → User
  mark_unlocked row = record (reopen row) { updated_at = c.db_now }

  unfoldable pub unlock_user : ℕ → World → Raises Unit × World
  unfolding admin_event
  unlock_user id w =
      transaction s
        (λ v.
          if any (has_id id) v.db.users
          then (
            ok tt,
            admin_event account_unlocked id []
                (users_of v (update_where (has_id id) mark_unlocked)),
          )
          else (raised user_not_found, v))
        w

  unfoldable pub mark_reset : Text → User → User
  mark_reset password row = record row {
    password_hash = hash_password s x c.salt password;
    password_changed_at = c.db_now;
    must_change_password = true;
    updated_at = c.db_now;
  }

  unfoldable pub write_reset : Text → User → World → World
  unfolding mark_reset admin_event revoke_all
  write_reset password u w =
      let kept = record w { db = insert_history c.db_now u.id u.password_hash w.db } in
      let changed = users_of kept (update_where (has_id u.id) (mark_reset password)) in
      admin_event password_reset_by_admin u.id [] (revoke_all u.id password_reset changed)

  unfoldable pub reset_checked : Text → User → World → Raises Unit → Raises Unit × World
  unfolding write_reset
  reset_checked password u w (raised e) = (raised e, w)
  reset_checked password u w (ok accepted) = (ok tt, write_reset password u w)

  unfoldable pub reset_body : Text → World → Option User → Raises Unit × World
  unfolding reset_checked
  reset_body password w none = (raised user_not_found, w)
  reset_body password w (some u) =
      reset_checked password u w (validate_password x.lower password u.username)

  unfoldable pub reset_password : ℕ → Text → World → Raises Unit × World
  unfolding reset_body
  reset_password id password w =
      transaction s (λ v. reset_body password v (find (has_id id) v.db.users)) w

  unfoldable pub revoke_user_sessions : ℕ → World → Raises ℕ × World
  unfolding admin_event revoke_all
  revoke_user_sessions id w =
      transaction s
        (λ v.
          let count = count_if (is_live_of id) v.db.sessions in
          (
            ok count,
            admin_event session_revoked id ((text "count", number count) ∷ [])
                (revoke_all id admin_revoked v),
          ))
        w
