-- ===== src/Accounts/Granted.antt =====
-- What a login that succeeds has found and done.
use network_diagnostic_tool.Common.{
  ◌≡◌, refl, inl, inr, true, Option, none, some, List, arith, ok, raised, Bool-cases,
}
use network_diagnostic_tool.Exceptions.{Raises}
use network_diagnostic_tool.Settings.{Settings}
use network_diagnostic_tool.Accounts.Credentials.{Crypto, verify_password}
use network_diagnostic_tool.Accounts.Tables.{User, Session, is_open, find, update_where}
use network_diagnostic_tool.Accounts.Events.{
  Database, World, event_of, login_succeeded, success, add_auth_event, rolled_back, transaction,
}
use network_diagnostic_tool.Accounts.Login.{
  Attempt, Login, has_name, has_id, users_of, sessions_of, client_key, reopened, reopen_due,
  mark_success, drop_excess, new_session, insert_session, context_of, finish, succeed, fail, known,
  login_body, authenticate,
}

rolled_back-ok :
    {A : Type 0} (db : Database) (end : Raises A × World) (w' : World) (r : A)
    → rolled_back db end ≡ (ok r, w')
    → end ≡ (ok r, w')
unfolding rolled_back
rolled_back-ok db (ok a, v) w' r e = e
rolled_back-ok db (raised e', v) w' r e = cc

-- A transaction that returns was possible, and is its body.
pub transaction-ok :
    {A : Type 0} (s : Settings) (body : World → Raises A × World) (w w' : World) (r : A)
    → transaction s body w ≡ (ok r, w')
    → (s.database_enabled ≡ true) × (body w ≡ (ok r, w'))
unfolding transaction
transaction-ok s body w w' r h = elim (Bool-cases s.database_enabled) [
  | inl enabled ↦ (enabled, rolled_back-ok w.db (body w) w' r (rw (enabled, transaction) at h))
  | inr off ↦ absurd (ground (arith, off))
]

module _ (s : Settings) (x : Crypto) (a : Attempt) where
  -- the users' table once the success is written
  abbrev pub users_after : User → World → World
  users_after u w =
      users_of (reopen_due s x a u w) (update_where (has_id u.id) (mark_success s x a u))

  -- the world once a login has succeeded
  abbrev pub world_after : User → World → List Session → World
  world_after u w sessions =
      add_auth_event s a.event_now
        (event_of login_succeeded success (some u.id) (some u.id) none (client_key s x a)
          (some a.session_id))
        (sessions_of w (λ old. sessions))

  pub record Granted (w w' : World) (l : Login) : Type 0 where
    pub row : User
    pub found : find (has_name a.username) w.db.users ≡ some row
    pub may_open : is_open (reopened s x a row).status ≡ true
    pub verified : verify_password s x a.password (reopened s x a row).password_hash ≡ true
    pub sessions : List Session
    pub inserted :
        insert_session
          (new_session s x a (reopened s x a row))
          (drop_excess s x a (reopened s x a row).id w.db.sessions)
        ≡ ok sessions
    pub login : l ≡ record {
      context = context_of s x a (reopened s x a row);
      token = a.token;
      csrf_token = a.csrf_token;
    }
    pub world : w'.db.sessions ≡ sessions
    pub users :
        w'.db.users
        ≡ update_where
            (has_id (reopened s x a row).id)
            (mark_success s x a (reopened s x a row))
            (reopen_due s x a row w).db.users

  sessions-reopen_due : (u : User) (w : World) → (reopen_due s x a u w).db.sessions ≡ w.db.sessions
  unfolding reopen_due
  sessions-reopen_due u w = ground arith

  finish-some :
      (u : User) (w w' : World) (r : Raises (List Session)) (l : Login)
      → finish s x a u w r ≡ (ok (some l), w')
      → (sessions : List Session) × (r ≡ ok sessions)
        × (l ≡ record { context = context_of s x a u; token = a.token; csrf_token = a.csrf_token })
        × (w'.db.sessions ≡ sessions)
        × (w'.db.users ≡ w.db.users)
  unfolding finish add_auth_event
  finish-some u w w' (ok sessions) l h = (sessions, refl, ground arith, ground arith, ground arith)
  finish-some u w w' (raised e) l h = cc

  known-some :
      (u : User) (w w' : World) (l : Login)
      → known s x a u w ≡ (ok (some l), w')
      → (is_open u.status ≡ true)
        × (verify_password s x a.password u.password_hash ≡ true)
        × (succeed s x a u w ≡ (ok (some l), w'))
  unfolding known fail
  known-some u w w' l h = ground arith

  login_body-Granted :
      (w w' : World) (o : Option User) (l : Login)
      → find (has_name a.username) w.db.users ≡ o
      → login_body s x a w o ≡ (ok (some l), w')
      → Granted w w' l
  unfolding login_body succeed
  login_body-Granted w w' none l found h = cc
  login_body-Granted w w' (some row) l found h =
      let u = reopened s x a row in
      let (may_open, verified, done) = known-some u (reopen_due s x a row w) w' l h in
      let (sessions, inserted, login, after, users) =
        finish-some u _ w'
          (insert_session (new_session s x a u)
            (drop_excess s x a u.id (reopen_due s x a row w).db.sessions))
          l done in
      record {
        row = row;
        found = found;
        may_open = may_open;
        verified = verified;
        sessions = sessions;
        inserted = rw (sessions-reopen_due row w) at inserted;
        login = login;
        world = after;
        users = users;
      }

  pub authenticate-Granted :
      (w w' : World) (l : Login) → authenticate s x a w ≡ (ok (some l), w') → Granted w w' l
  unfolding authenticate
  authenticate-Granted w w' l h =
      let (enabled, body) =
        transaction-ok s (λ v. login_body s x a v (find (has_name a.username) v.db.users)) w w'
          (some l) h in
      login_body-Granted w w' (find (has_name a.username) w.db.users) l refl body
