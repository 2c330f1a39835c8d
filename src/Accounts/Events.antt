-- ===== src/Accounts/Events.antt =====
-- app/services/auth_service.py: `add_auth_event`, and the state that the account code works on.
use network_diagnostic_tool.Common.{
  ℕ, ◌+◌, Option, none, List, [], ◌∷◌, ◌++◌, Text, text, list_eq, nat_eq, ◌==◌, if◌then◌else◌, ok,
  raised,
}
use network_diagnostic_tool.Exceptions.{Raises, other_error}
use network_diagnostic_tool.Settings.{Settings}
use network_diagnostic_tool.Accounts.Tables.{User, Session, HistoryRow, Reason, days}

pub data EventType : Type 0 where
  login_failed login_succeeded logged_out session_revoked changed_password : EventType
  account_created account_updated account_unlocked password_reset_by_admin : EventType

pub data Outcome : Type 0 where
  success failure : Outcome

-- a value of the event's details: a text or a number
pub data Detail : Type 0 where
  word : Text → Detail
  number : ℕ → Detail

-- the arguments of `add_auth_event` behind the connection
pub record Event : Type 0 where
  pub event_type : EventType
  pub outcome : Outcome
  pub actor_user_id : Option ℕ
  pub target_user_id : Option ℕ
  pub reason_code : Option Reason
  pub client_key : Option Text
  pub session_id : Option ℕ
  pub details : List (Text × Detail)

-- a row of `auth_audit_events`
pub record AuditRow : Type 0 where
  pub event : Event
  pub expires_at : ℕ

-- a line of the log: the event without its session
pub record LogLine : Type 0 where
  pub level : ℕ
  pub event : Event

pub record Database : Type 0 where
  pub users : List User
  pub sessions : List Session
  pub password_history : List HistoryRow
  -- the sequence of `user_password_history.id`
  pub next_history_id : ℕ
  pub auth_audit_events : List AuditRow

pub record World : Type 0 where
  pub db : Database
  pub log : List LogLine

-- `{key: details[key]}`, if the key is there
unfoldable pub pick : Text → List (Text × Detail) → List (Text × Detail)
pick key [] = []
pick key ((k, v) ∷ details) = let rest = pick key details in if k == key then (k, v) ∷ [] else rest

-- the allow-list of the details
unfoldable pub safe_details : List (Text × Detail) → List (Text × Detail)
safe_details details =
    pick (text "role") details ++ (pick (text "status") details ++ pick (text "count") details)

unfoldable pub level_of : Outcome → ℕ
level_of success = 20
level_of failure = 30

-- the log line is written first, and stays when the transaction is rolled back
unfoldable pub add_auth_event : Settings → ℕ → Event → World → World
unfolding safe_details level_of
add_auth_event s now event w =
    let safe = record event { details = safe_details event.details } in
    record {
      db = record w.db {
        auth_audit_events =
            w.db.auth_audit_events
            ++ record { event = safe; expires_at = now + days s.auth_audit_retention_days } ∷ [];
      };
      log =
          w.log
          ++ record { level = level_of event.outcome; event = record safe { session_id = none } }
            ∷ [];
    }

-- `async with pool.acquire() as connection, connection.transaction()`: `get_pool` raises where the
-- database is not enabled, and an exception undoes what the body wrote to the tables.
-- A statement or a commit that fails is not modelled, but for a unique column.
unfoldable pub rolled_back : {A : Type 0} → Database → Raises A × World → Raises A × World
rolled_back db (ok a, w) = (ok a, w)
rolled_back db (raised e, w) = (raised e, record w { db = db })

unfoldable pub transaction :
    {A : Type 0} → Settings → (World → Raises A × World) → World → Raises A × World
unfolding rolled_back
transaction s body w =
    if s.database_enabled then rolled_back w.db (body w) else (raised other_error, w)

-- an event without details
abbrev pub event_of :
    EventType → Outcome → Option ℕ → Option ℕ → Option Reason → Option Text → Option ℕ → Event
event_of event_type outcome actor target reason client_key session_id = record {
  event_type = event_type;
  outcome = outcome;
  actor_user_id = actor;
  target_user_id = target;
  reason_code = reason;
  client_key = client_key;
  session_id = session_id;
  details = [];
}
