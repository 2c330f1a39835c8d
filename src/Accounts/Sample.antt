-- ===== src/Accounts/Sample.antt =====
-- One user, the settings and a toy cryptography for the tests: a hash is the text itself.
use network_diagnostic_tool.Common.{
  ◌≡◌, refl, true, false, none, some, [], ◌∷◌, Text, text, keep_if, ◌==◌, list_eq, nat_eq, ok,
  if◌then◌else◌,
}
use network_diagnostic_tool.Settings.{Settings, defaults}
use network_diagnostic_tool.Accounts.Credentials.{
  Crypto, matches, mismatch, peppered, verify_password, hash_token,
}
use network_diagnostic_tool.Accounts.Tables.{
  User, operator, active, locked, find, update_where, order_by,
}
use network_diagnostic_tool.Accounts.Events.{
  World, add_auth_event, safe_details, pick, level_of, rolled_back, transaction,
}
use network_diagnostic_tool.Accounts.Login.{
  AuthContext, Attempt, Login, has_name, lock_is_over, insert_session, reopened, reopen_due,
  mark_success, excess, drop_excess, new_session, context_of, finish, succeed, known, login_body,
  authenticate,
}

abbrev pub settings : Settings
settings = record defaults { database_enabled = true; auth_enabled = true }

abbrev pub crypto : Crypto
crypto = record {
  argon2_hash = λ salt p. p;
  argon2_verify = λ hash p. if hash == p then matches else mismatch;
  argon2_needs_rehash = λ hash. some false;
  sha256 = λ t. t;
  hmac_sha256 = λ key t. t;
  lower = λ t. t;
  is_space = λ c. c == b' ';
}

abbrev pub kim : User
kim = record {
  id = 7;
  username = text "kim";
  email = none;
  display_name = text "Kim";
  password_hash = text "pw";
  role = operator;
  status = active;
  must_change_password = false;
  failed_login_count = 0;
  locked_until = none;
  last_login_at = none;
  password_changed_at = 1;
  created_by = none;
  created_at = 1;
  updated_at = 1;
  disabled_at = none;
  deleted_at = none;
  version = 1;
}

abbrev pub locked_kim : User
locked_kim = record kim { status = locked; locked_until = some 200 }

abbrev pub world_of : User → World
world_of u = record {
  db = record {
    users = u ∷ [];
    sessions = [];
    password_history = [];
    next_history_id = 1;
    auth_audit_events = [];
  };
  log = [];
}

abbrev pub attempt : Text → Attempt
attempt password = record {
  username = text "kim";
  password = password;
  client_ip = text "1.1.1.1";
  user_agent = none;
  now = 100;
  event_now = 101;
  db_now = 100;
  token = text "t";
  csrf_token = text "c";
  session_id = 1;
  salt = 3;
}

abbrev pub right : Attempt
right = attempt (text "pw")

abbrev pub wrong : Attempt
wrong = attempt (text "x")

abbrev pub context : AuthContext
context = record {
  user_id = 7;
  session_id = 1;
  username = text "kim";
  display_name = text "Kim";
  role = operator;
  must_change_password = false;
}

abbrev pub login : Login
login = record { context = context; token = text "t"; csrf_token = text "c" }

abbrev pub after_login : World
after_login = (authenticate settings crypto right (world_of kim)).1

pub kim_found : find (has_name (text "kim")) (world_of kim).db.users ≡ some kim
unfolding find has_name
kim_found = refl

pub logs_in : authenticate settings crypto right (world_of kim) ≡ (ok (some login), after_login)
unfolding authenticate transaction rolled_back login_body find has_name reopened reopen_due
    lock_is_over known verify_password peppered succeed update_where mark_success drop_excess excess
    keep_if order_by insert_session new_session hash_token finish context_of add_auth_event
    safe_details pick level_of
logs_in = refl
