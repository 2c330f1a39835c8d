-- ===== src/Lifecycle/DeadTokens.antt =====
-- A hash that is dead stays dead: what app/services/auth_service.py does to the sessions.
use network_diagnostic_tool.Common.{
  ℕ, ◌≡◌, refl, Bool, true, false, not, ◌||◌, Option, none, some, List, [], ◌∷◌, ◌++◌, arith, Text,
  any, contains, ◌==◌, ==_iff, list_eq, nat_eq, ok, raised, if◌then◌else◌,
}
use network_diagnostic_tool.Exceptions.{Raises, other_error}
use network_diagnostic_tool.Settings.{Settings}
use network_diagnostic_tool.Accounts.Credentials.{Crypto, validate_password, verify_password}
use network_diagnostic_tool.Accounts.Tables.{
  User, Session, Reason, max_sessions, expired, password_changed, is_open, is_null, find,
  update_where,
}
use network_diagnostic_tool.Accounts.Events.{World, add_auth_event, rolled_back, transaction}
use network_diagnostic_tool.Accounts.Login.{
  Attempt, has_id, lock_is_over, excess, revoke, insert_session, reopened, reopen_due, drop_excess,
  new_session, finish, succeed, fail, known, login_body,
}
use network_diagnostic_tool.Accounts.Sessions.{
  is_live_token, session_has_id, is_expired, refresh, touch, resolve_row, resolve_found,
}
use network_diagnostic_tool.Accounts.Change.{
  Change, change_writes, change_checked, change_body, insert_history, is_other_session,
}

-- the rows of the token's hash
abbrev pub has_hash : Text → Session → Bool
has_hash hash r = r.token_hash == hash

-- A hash is dead: the table has a row of it, and no row of it is live.
pub record IsDead (hash : Text) (rows : List Session) : Type 0 where
  pub known : any (has_hash hash) rows ≡ true
  pub dead : any (is_live_token hash) rows ≡ false

-- An update that keeps the hash of a row, and brings no revoked row back.
pub record IsHarmless (f : Session → Session) : Type 0 where
  pub same_hash : (r : Session) → (f r).token_hash ≡ r.token_hash
  pub no_return : (r : Session) → is_null (f r).revoked_at ≡ true → is_null r.revoked_at ≡ true

revoke-IsHarmless : (at : ℕ) (reason : Reason) → IsHarmless (revoke at reason)
revoke-IsHarmless at reason = record { same_hash = λ r. refl; no_return = λ r h. cc }

refresh-IsHarmless : (s : Settings) (now : ℕ) → IsHarmless (refresh s now)
unfolding refresh
refresh-IsHarmless s now = record { same_hash = λ r. refl; no_return = λ r h. h }

update_where-known :
    (hash : Text) (q : Session → Bool) (f : Session → Session) (rows : List Session)
    → IsHarmless f
    → any (has_hash hash) rows ≡ true
    → any (has_hash hash) (update_where q f rows) ≡ true
unfolding update_where
update_where-known hash q f [] h k = cc
update_where-known hash q f (r ∷ rows) h k =
    ground (arith, h.same_hash r, update_where-known hash q f rows h)

update_where-dead :
    (hash : Text) (q : Session → Bool) (f : Session → Session) (rows : List Session)
    → IsHarmless f
    → any (is_live_token hash) rows ≡ false
    → any (is_live_token hash) (update_where q f rows) ≡ false
unfolding update_where is_live_token
update_where-dead hash q f [] h k = refl
update_where-dead hash q f (r ∷ rows) h k =
    ground (arith, h.same_hash r, h.no_return r, update_where-dead hash q f rows h)

update_where-IsDead :
    (hash : Text) (q : Session → Bool) (f : Session → Session) (rows : List Session)
    → IsHarmless f
    → IsDead hash rows
    → IsDead hash (update_where q f rows)
update_where-IsDead hash q f rows h d = record {
  known = update_where-known hash q f rows h d.known;
  dead = update_where-dead hash q f rows h d.dead;
}

-- what the unique column refuses has another hash
other_hash :
    (hash : Text) (new : Session) (rows : List Session)
    → any (has_hash hash) rows ≡ true
    → any (λ (r : Session). r.id == new.id || r.token_hash == new.token_hash) rows ≡ false
    → (new.token_hash == hash) ≡ false
other_hash hash new [] k free = cc
other_hash hash new (r ∷ rows) k free = ground (
  arith,
  ==_iff r.token_hash hash,
  ==_iff new.token_hash hash,
  ==_iff r.token_hash new.token_hash,
  other_hash hash new rows,
)

any-append-one :
    (p : Session → Bool) (rows : List Session) (new : Session)
    → any p (rows ++ new ∷ []) ≡ any p rows || p new
any-append-one p [] new = ground arith
any-append-one p (r ∷ rows) new = ground (arith, any-append-one p rows new)

insert_session-IsDead :
    (hash : Text) (new : Session) (rows sessions : List Session)
    → IsDead hash rows
    → insert_session new rows ≡ ok sessions
    → IsDead hash sessions
unfolding insert_session is_live_token
insert_session-IsDead hash new rows sessions d h =
    let free : any (λ (r : Session). r.id == new.id || r.token_hash == new.token_hash) rows
        ≡ false =
      ground arith in
    let same : rows ++ new ∷ [] ≡ sessions = ground arith in
    let other = other_hash hash new rows d.known free in
    rw (← same) (record {
      known = ground (arith, any-append-one (has_hash hash) rows new, d.known);
      dead = ground (arith, any-append-one (is_live_token hash) rows new, d.dead, other);
    })

module _ (s : Settings) (x : Crypto) (hash : Text) where
  abbrev pub IsDeadIn : World → Type 0
  IsDeadIn w = IsDead hash w.db.sessions

  rolled_back-IsDead :
      {A : Type 0} (w : World) (end : Raises A × World)
      → IsDeadIn w
      → IsDeadIn end.1
      → IsDeadIn (rolled_back w.db end).1
  unfolding rolled_back
  rolled_back-IsDead w (ok a, v) d k = k
  rolled_back-IsDead w (raised e, v) d k = d

  -- a test between two ends, or between two worlds
  pub if-IsDead :
      {A : Type 0} (b : Bool) (m n : Raises A × World)
      → IsDeadIn m.1
      → IsDeadIn n.1
      → IsDeadIn (if b then m else n).1
  if-IsDead true m n d e = d
  if-IsDead false m n d e = e

  pub if_world-IsDead :
      (b : Bool) (v w : World) → IsDeadIn v → IsDeadIn w → IsDeadIn (if b then v else w)
  if_world-IsDead true v w d e = d
  if_world-IsDead false v w d e = e

  pub transaction-IsDead :
      {A : Type 0} (body : World → Raises A × World) (w : World)
      → IsDeadIn w
      → IsDeadIn (body w).1
      → IsDeadIn (transaction s body w).1
  unfolding transaction
  transaction-IsDead body w d k =
      if-IsDead s.database_enabled (rolled_back w.db (body w)) (raised other_error, w)
        (rolled_back-IsDead w (body w) d k) d

  pub updated-IsDead :
      (q : Session → Bool) (at : ℕ) (reason : Reason) (rows : List Session)
      → IsDead hash rows
      → IsDead hash (update_where q (revoke at reason) rows)
  updated-IsDead q at reason rows d =
      update_where-IsDead hash q (revoke at reason) rows (revoke-IsHarmless at reason) d

  finish-IsDead :
      (a : Attempt) (u : User) (w : World) (new : Session) (rows : List Session)
      (r : Raises (List Session))
      → IsDeadIn w
      → IsDead hash rows
      → insert_session new rows ≡ r
      → IsDeadIn (finish s x a u w r).1
  unfolding finish add_auth_event
  finish-IsDead a u w new rows (ok sessions) d e done =
      insert_session-IsDead hash new rows sessions e done
  finish-IsDead a u w new rows (raised e') d e failed = d

  succeed-IsDead :
      (a : Attempt) (u : User) (w : World) → IsDeadIn w → IsDeadIn (succeed s x a u w).1
  unfolding succeed drop_excess
  succeed-IsDead a u w d =
      let kept =
        updated-IsDead (λ r. contains (excess s x a u.id w.db.sessions) r.id) a.now max_sessions
          w.db.sessions d in
      finish-IsDead a u _ (new_session s x a u) _ _ kept kept refl

  known-IsDead : (a : Attempt) (u : User) (w : World) → IsDeadIn w → IsDeadIn (known s x a u w).1
  unfolding known fail add_auth_event
  known-IsDead a u w d = if-IsDead (not (is_open u.status)) _ _ d (
      if-IsDead (not (verify_password s x a.password u.password_hash)) _ _ d
        (succeed-IsDead a u w d))

  reopen_due-IsDead :
      (a : Attempt) (u : User) (w : World) → IsDeadIn w → IsDeadIn (reopen_due s x a u w)
  unfolding reopen_due
  reopen_due-IsDead a u w d = if_world-IsDead (lock_is_over a.now u.status u.locked_until) _ _ d d

  pub login_body-IsDead :
      (a : Attempt) (w : World) (o : Option User) → IsDeadIn w → IsDeadIn (login_body s x a w o).1
  unfolding login_body add_auth_event
  login_body-IsDead a w none d = d
  login_body-IsDead a w (some u) d =
      known-IsDead a (reopened s x a u) (reopen_due s x a u w) (reopen_due-IsDead a u w d)

  touch-IsDead : (now : ℕ) (r : Session) (w : World) → IsDeadIn w → IsDeadIn (touch s now r w)
  unfolding touch
  touch-IsDead now r w d =
      if_world-IsDead _ _ w
        (update_where-IsDead hash (session_has_id r.id) (refresh s now) w.db.sessions
          (refresh-IsHarmless s now) d)
        d

  resolve_row-IsDead :
      (now : ℕ) (r : Session) (o : Option User) (w : World)
      → IsDeadIn w
      → IsDeadIn (resolve_row s now r o w).1
  unfolding resolve_row
  resolve_row-IsDead now r none w d = d
  resolve_row-IsDead now r (some u) w d =
      if-IsDead (not (is_open u.status) || not (is_null u.deleted_at)) _ _ d (
        if-IsDead (is_expired now r) _ _
          (updated-IsDead (session_has_id r.id) now expired w.db.sessions d)
          (touch-IsDead now r w d))

  pub resolve_found-IsDead :
      (now : ℕ) (o : Option Session) (w : World) → IsDeadIn w → IsDeadIn (resolve_found s now o w).1
  unfolding resolve_found
  resolve_found-IsDead now none w d = d
  resolve_found-IsDead now (some r) w d =
      resolve_row-IsDead now r (find (has_id r.user_id) w.db.users) w d

  change_checked-IsDead :
      (c : Change) (u : User) (w : World) (r : Raises Unit)
      → IsDeadIn w
      → IsDeadIn (change_checked s x c u w r).1
  unfolding change_checked change_writes insert_history add_auth_event
  change_checked-IsDead c u w (raised e) d = d
  change_checked-IsDead c u w (ok tt) d = if-IsDead _ _ _ d (
      updated-IsDead (is_other_session u.id c.context.session_id) c.db_now password_changed
        w.db.sessions d)

  pub change_body-IsDead :
      (c : Change) (w : World) (o : Option User) → IsDeadIn w → IsDeadIn (change_body s x c w o).1
  unfolding change_body
  change_body-IsDead c w none d = d
  change_body-IsDead c w (some u) d =
      if-IsDead _ _ _ d
        (change_checked-IsDead c u w (validate_password x.lower c.new_password u.username) d)
