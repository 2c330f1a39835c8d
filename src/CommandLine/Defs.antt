-- ===== src/CommandLine/Defs.antt =====
-- app/cli.py: `create_admin`.
use network_diagnostic_tool.Common.{
  ℕ, true, not, ◌||◌, Option, none, [], ◌∷◌, ◌++◌, Text, any, ◌==◌, nat_eq, list_eq, Result, ok,
  raised, if◌then◌else◌,
}
use network_diagnostic_tool.Exceptions.{Exception, Raises, other_error}
use network_diagnostic_tool.Settings.{Settings}
use network_diagnostic_tool.Accounts.Credentials.{
  Crypto, strip, normalize_username, hash_password, validate_password,
}
use network_diagnostic_tool.Accounts.Tables.{User, admin, active}
use network_diagnostic_tool.Accounts.Events.{World}
use network_diagnostic_tool.Accounts.Login.{users_of}
use network_diagnostic_tool.AdminUsers.Defs.{email_is_taken}

-- `SystemExit`, or an exception that passes through
pub data Exit : Type 0 where
  system_exit : Exit
  passes : Exception → Exit

-- the arguments, the two texts that are typed in, and what is drawn: an id, a salt and the time of
-- the database
pub record AdminArguments : Type 0 where
  pub username : Text
  pub display_name : Text
  pub email : Option Text
  pub password : Text
  pub confirm : Text
  pub user_id : ℕ
  pub salt : ℕ
  pub db_now : ℕ

module _ (s : Settings) (x : Crypto) (c : AdminArguments) where
  unfoldable pub first_admin : Text → User
  first_admin username = record {
    id = c.user_id;
    username = username;
    email = c.email;
    display_name = strip s x c.display_name;
    password_hash = hash_password s x c.salt c.password;
    role = admin;
    status = active;
    must_change_password = true;
    failed_login_count = 0;
    locked_until = none;
    last_login_at = none;
    password_changed_at = c.db_now;
    created_by = none;
    created_at = c.db_now;
    updated_at = c.db_now;
    disabled_at = none;
    deleted_at = none;
    version = 1;
  }

  -- the `INSERT`, whose unique columns may refuse the row
  unfoldable pub insert_admin : User → World → Result Exit Unit × World
  insert_admin new w =
      if any (λ (r : User). r.id == new.id || r.username == new.username) w.db.users
        || email_is_taken new.id new.email w.db.users
      then (raised system_exit, w)
      else (ok tt, users_of w (λ users. users ++ new ∷ []))

  unfoldable pub after_checks : Text → Raises Unit → World → Result Exit Unit × World
  unfolding insert_admin first_admin
  after_checks username (raised e) w = (raised (passes e), w)
  after_checks username (ok checked) w =
      if not s.database_enabled
      then (raised (passes other_error), w)
      else insert_admin (first_admin username) w

  unfoldable pub after_name : Raises Text → World → Result Exit Unit × World
  unfolding after_checks
  after_name (raised e) w = (raised (passes e), w)
  after_name (ok username) w =
      if not (c.password == c.confirm)
      then (raised system_exit, w)
      else after_checks username (validate_password x.lower c.password username) w

  unfoldable pub create_admin : World → Result Exit Unit × World
  unfolding after_name
  create_admin w = after_name (normalize_username s x c.username) w
