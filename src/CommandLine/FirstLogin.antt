-- ===== src/CommandLine/FirstLogin.antt =====
-- The first administrator can log in: app/cli.py with app/services/auth_service.py.
use network_diagnostic_tool.Common.{
  ℕ, ◌≡◌, ◌∙◌, refl, ap, Bool, true, false, ◌||◌, Option, none, some, List, [], ◌∷◌, ◌++◌, arith,
  Text, any, contains, ◌==◌, ==_refl, nat_eq, list_eq, ok, raised,
}
use network_diagnostic_tool.Exceptions.{Raises}
use network_diagnostic_tool.Settings.{Settings}
use network_diagnostic_tool.Accounts.Credentials.{
  Crypto, matches, peppered, hash_password, verify_password, normalize_username, validate_password,
  hash_token, strip,
}
use network_diagnostic_tool.Accounts.Tables.{
  User, Session, Reason, max_sessions, find, update_where, admin,
}
use network_diagnostic_tool.Accounts.Events.{World, Database, transaction, rolled_back}
use network_diagnostic_tool.Accounts.Login.{
  Attempt, has_name, lock_is_over, revoke, users_of, insert_session, reopened, reopen_due, excess,
  drop_excess, new_session, context_of, finish, succeed, known, login_body, authenticate,
}
use network_diagnostic_tool.CommandLine.Defs.{
  AdminArguments, first_admin, insert_admin, after_checks, after_name, create_admin,
}

-- `id` or the hash is taken
abbrev pub clashes : ℕ → Text → Session → Bool
clashes id hash r = r.id == id || r.token_hash == hash

any-revoke :
    (id at : ℕ) (hash : Text) (q : Session → Bool) (rows : List Session) (reason : Reason)
    → any (clashes id hash) (update_where q (revoke at reason) rows) ≡ any (clashes id hash) rows
unfolding update_where
any-revoke id at hash q [] reason = refl
any-revoke id at hash q (r ∷ rows) reason = ground (arith, any-revoke id at hash q rows reason)

find-last :
    (name : Text) (new : User) (users : List User)
    → any (λ (r : User). r.id == new.id || r.username == new.username) users ≡ false
    → new.username ≡ name
    → new.deleted_at ≡ none
    → find (has_name name) (users ++ new ∷ []) ≡ some new
unfolding find has_name
find-last name new [] free same here = ground (arith, ==_refl name)
find-last name new (u ∷ users) free same here = ground (arith, find-last name new users)

rolled_back-result :
    {A : Type 0} (db : Database) (end : Raises A × World) → (rolled_back db end).0 ≡ end.0
unfolding rolled_back
rolled_back-result db (ok a, w) = refl
rolled_back-result db (raised e, w) = refl

transaction-result :
    {A : Type 0} (s : Settings) (body : World → Raises A × World) (w : World)
    → s.database_enabled ≡ true
    → (transaction s body w).0 ≡ (body w).0
unfolding transaction
transaction-result s body w on = rw on (rolled_back-result w.db (body w))

module _ (s : Settings) (x : Crypto) (c : AdminArguments) where
  verify-first_admin :
      (name : Text)
      → ((salt : ℕ) (password : Text)
          → x.argon2_verify (x.argon2_hash salt password) password ≡ matches)
      → verify_password s x c.password (first_admin s x c name).password_hash ≡ true
  unfolding verify_password hash_password first_admin
  verify-first_admin name verifies =
      rw (verify_password, verifies c.salt (peppered s x c.password)) refl

  -- a command that succeeds has added the user
  record Created (name : Text) (w w' : World) : Type 0 where
    pub on : s.database_enabled ≡ true
    pub free :
        any
          (λ (r : User).
            r.id == (first_admin s x c name).id || r.username == (first_admin s x c name).username)
          w.db.users
        ≡ false
    pub world : w' ≡ users_of w (λ users. users ++ first_admin s x c name ∷ [])

  after_checks-Created :
      (name : Text) (r : Raises Unit) (w w' : World)
      → after_checks s x c name r w ≡ (ok tt, w')
      → Created name w w'
  unfolding after_checks insert_admin
  after_checks-Created name (raised e) w w' h = cc
  after_checks-Created name (ok tt) w w' h = record {
    on = ground arith;
    free = ground arith;
    world = ground arith;
  }

  create_admin-Created :
      (name : Text) (w w' : World)
      → normalize_username s x c.username ≡ ok name
      → create_admin s x c w ≡ (ok tt, w')
      → Created name w w'
  unfolding create_admin after_name
  create_admin-Created name w w' named h =
      after_checks-Created name (validate_password x.lower c.password name) w w'
        (let named_h : after_name s x c (ok name) w ≡ (ok tt, w') = rw named at h in ground arith)

  module _ (a : Attempt) where
    succeeds :
        (u : User) (w : World)
        → any (clashes a.session_id (hash_token s x a.token)) w.db.sessions ≡ false
        → (succeed s x a u w).0
          ≡ ok (
              some (record {
                context = context_of s x a u;
                token = a.token;
                csrf_token = a.csrf_token;
              }))
    unfolding succeed finish insert_session drop_excess new_session
    succeeds u w free =
        let chosen : Session → Bool = λ r. contains (excess s x a u.id w.db.sessions) r.id in
        let still : any (clashes a.session_id (hash_token s x a.token))
              (update_where chosen (revoke a.now max_sessions) w.db.sessions)
            ≡ false =
          any-revoke a.session_id a.now (hash_token s x a.token) chosen w.db.sessions max_sessions
          ∙ free in
        rw still refl

    known-first_admin :
        (name : Text) (w : World)
        → verify_password s x a.password (first_admin s x c name).password_hash ≡ true
        → any (clashes a.session_id (hash_token s x a.token)) w.db.sessions ≡ false
        → (known s x a (first_admin s x c name) w).0
          ≡ ok (
              some (record {
                context = context_of s x a (first_admin s x c name);
                token = a.token;
                csrf_token = a.csrf_token;
              }))
    unfolding known first_admin
    known-first_admin name w verified free = rw verified (succeeds (first_admin s x c name) w free)

    -- Where Argon2 accepts what it has hashed: after the command has created an administrator, a login
    -- with the normalized name and the password that was typed in succeeds, if neither the id nor the
    -- token of its session is taken: the user is an administrator and must change the password.
    pub create_admin-authenticate :
        (w w' : World)
        → ((salt : ℕ) (password : Text)
            → x.argon2_verify (x.argon2_hash salt password) password ≡ matches)
        → normalize_username s x c.username ≡ ok a.username
        → a.password ≡ c.password
        → create_admin s x c w ≡ (ok tt, w')
        → any (clashes a.session_id (hash_token s x a.token)) w.db.sessions ≡ false
        → (authenticate s x a w').0
          ≡ ok (
              some (record {
                context = record {
                  user_id = c.user_id;
                  session_id = a.session_id;
                  username = a.username;
                  display_name = strip s x c.display_name;
                  role = admin;
                  must_change_password = true;
                };
                token = a.token;
                csrf_token = a.csrf_token;
              }))
    unfolding authenticate login_body reopened reopen_due lock_is_over first_admin context_of
    create_admin-authenticate w w' verifies named typed created free =
        let made = create_admin-Created a.username w w' named created in
        let new = first_admin s x c a.username in
        let found : find (has_name a.username) w'.db.users ≡ some new =
          rw made.world (find-last a.username new w.db.users made.free refl refl) in
        let verified : verify_password s x a.password new.password_hash ≡ true =
          rw typed (verify-first_admin a.username verifies) in
        let free' : any (clashes a.session_id (hash_token s x a.token)) w'.db.sessions ≡ false =
          rw made.world free in
        transaction-result s (λ v. login_body s x a v (find (has_name a.username) v.db.users)) w'
          made.on
        ∙ ap (λ (o : Option User). (login_body s x a w' o).0) found
        ∙ known-first_admin a.username w' verified free'
