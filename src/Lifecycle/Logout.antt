-- ===== src/Lifecycle/Logout.antt =====
-- What follows a logout.
use network_diagnostic_tool.Common.{
  ℕ, ◌≡◌, ◌≢◌, refl, inl, inr, Bool, true, false, Option, none, some, List, [], ◌∷◌, arith, Text,
  any, All, ==_iff, ==_refl, list_eq, nat_eq, Bool-cases, ok, raised,
}
use network_diagnostic_tool.Exceptions.{Raises, unique_violation, last_admin_protected}
use network_diagnostic_tool.Settings.{Settings}
use network_diagnostic_tool.Accounts.Credentials.{Crypto, hash_token, validate_password}
use network_diagnostic_tool.Accounts.Tables.{
  User, Session, Reason, account_disabled, password_reset, admin_revoked, find, update_where,
}
use network_diagnostic_tool.Accounts.Events.{World, add_auth_event, rolled_back, transaction}
use network_diagnostic_tool.Accounts.Login.{AuthContext, is_live_of, revoke, authenticate}
use network_diagnostic_tool.Accounts.Sessions.{
  is_live_token, is_live_id, resolve_found, resolve_session, revoke_session,
}
use network_diagnostic_tool.Accounts.Change.{change_password, insert_history}
use network_diagnostic_tool.AdminUsers.Defs.{
  UserCreateRequest, UserUpdateRequest, Call, new_user, insert_user, as_conflict, after_policy,
  create_user, disables, write_update, update_body, update_user, is_protected, unlock_user,
  write_reset, reset_checked, reset_body, reset_password, revoke_user_sessions, admin_event,
  revoke_all,
}
use network_diagnostic_tool.Lifecycle.Defs.{
  Operation, authenticates, resolves, revokes, changes, creates, updates, unlocks, resets,
  revokes_all, step, run_all,
}
use network_diagnostic_tool.Lifecycle.DeadTokens.{
  has_hash, IsDeadIn, transaction-IsDead, updated-IsDead, if-IsDead, login_body-IsDead,
  resolve_found-IsDead, change_body-IsDead,
}

module _ (s : Settings) (x : Crypto) (hash : Text) where
  as_conflict-IsDead :
      {A : Type 0} (c : Call) (end : Raises A × World)
      → IsDeadIn s x hash end.1
      → IsDeadIn s x hash (as_conflict s x c end).1
  unfolding as_conflict
  as_conflict-IsDead c (ok a, w) d = d
  as_conflict-IsDead c (raised unique_violation, w) d = d
  as_conflict-IsDead c (raised _, w) d = d

  after_policy-IsDead :
      (c : Call) (p : UserCreateRequest) (r : Raises Unit) (w : World)
      → IsDeadIn s x hash w
      → IsDeadIn s x hash (after_policy s x c p r w).1
  unfolding after_policy insert_user admin_event add_auth_event
  after_policy-IsDead c p (raised e) w d = d
  after_policy-IsDead c p (ok tt) w d =
      as_conflict-IsDead c (transaction s (insert_user s x c (new_user s x c p)) w) (
        transaction-IsDead s x hash (insert_user s x c (new_user s x c p)) w d
          (if-IsDead s x hash _ _ _ d d))

  write_update-IsDead :
      (c : Call) (p : UserUpdateRequest) (u : User) (w : World)
      → IsDeadIn s x hash w
      → IsDeadIn s x hash (write_update s x c p u w).1
  unfolding write_update admin_event add_auth_event revoke_all
  write_update-IsDead c p u w d = elim (Bool-cases (disables p.status)) [
    | inl closes ↦ ground (
      arith,
      closes,
      d,
      updated-IsDead s x hash (is_live_of u.id) c.db_now account_disabled w.db.sessions d,
    )
    | inr stays ↦ ground (arith, stays, d)
  ]

  update_body-IsDead :
      (c : Call) (p : UserUpdateRequest) (w : World) (o : Option User)
      → IsDeadIn s x hash w
      → IsDeadIn s x hash (update_body s x c p w o).1
  unfolding update_body
  update_body-IsDead c p w none d = d
  update_body-IsDead c p w (some u) d =
      if-IsDead s x hash (is_protected s x c p u w.db.users) (raised last_admin_protected, w)
        (write_update s x c p u w) d (write_update-IsDead c p u w d)

  reset_checked-IsDead :
      (c : Call) (password : Text) (u : User) (w : World) (r : Raises Unit)
      → IsDeadIn s x hash w
      → IsDeadIn s x hash (reset_checked s x c password u w r).1
  unfolding reset_checked write_reset admin_event add_auth_event revoke_all insert_history
  reset_checked-IsDead c password u w (raised e) d = d
  reset_checked-IsDead c password u w (ok tt) d =
      updated-IsDead s x hash (is_live_of u.id) c.db_now password_reset w.db.sessions d

  reset_body-IsDead :
      (c : Call) (password : Text) (w : World) (o : Option User)
      → IsDeadIn s x hash w
      → IsDeadIn s x hash (reset_body s x c password w o).1
  unfolding reset_body
  reset_body-IsDead c password w none d = d
  reset_body-IsDead c password w (some u) d =
      reset_checked-IsDead c password u w (validate_password x.lower password u.username) d

  -- No operation, whatever its outcome, brings a dead hash back.
  pub step-IsDead :
      (op : Operation) (w : World) → IsDeadIn s x hash w → IsDeadIn s x hash (step s x op w)
  unfolding step authenticate resolve_session revoke_session change_password create_user update_user
      unlock_user reset_password revoke_user_sessions admin_event add_auth_event revoke_all
  step-IsDead (authenticates a) w d =
      transaction-IsDead s x hash _ w d (login_body-IsDead s x hash a w _ d)
  step-IsDead (resolves now token) w d =
      transaction-IsDead s x hash _ w d (resolve_found-IsDead s x hash now _ w d)
  step-IsDead (revokes now event_now session_id user_id reason) w d =
      transaction-IsDead s x hash _ w d
        (updated-IsDead s x hash (is_live_id s session_id) now reason w.db.sessions d)
  step-IsDead (changes c) w d =
      transaction-IsDead s x hash _ w d (change_body-IsDead s x hash c w _ d)
  step-IsDead (creates c p) w d = after_policy-IsDead c p _ w d
  step-IsDead (updates c id p) w d =
      transaction-IsDead s x hash _ w d (update_body-IsDead c p w _ d)
  step-IsDead (unlocks c id) w d = transaction-IsDead s x hash _ w d (if-IsDead s x hash _ _ _ d d)
  step-IsDead (resets c id password) w d =
      transaction-IsDead s x hash _ w d (reset_body-IsDead c password w _ d)
  step-IsDead (revokes_all c id) w d =
      transaction-IsDead s x hash _ w d
        (updated-IsDead s x hash (is_live_of id) c.db_now admin_revoked w.db.sessions d)

  run_all-IsDead :
      (ops : List Operation) (w : World)
      → IsDeadIn s x hash w
      → IsDeadIn s x hash (run_all s x ops w)
  unfolding run_all
  run_all-IsDead [] w d = d
  run_all-IsDead (op ∷ ops) w d = run_all-IsDead ops (step s x op w) (step-IsDead op w d)

-- No two rows have one hash: the unique column `user_sessions.token_hash`.
abbrev pub HasUniqueHashes : List Session → Type 0
HasUniqueHashes [] = Unit
HasUniqueHashes (r ∷ rows) =
    All (λ (q : Session). q.token_hash ≢ r.token_hash) rows × HasUniqueHashes rows

module _ (s : Settings) (hash : Text) (at : ℕ) (reason : Reason) where
  abbrev revoked : ℕ → List Session → List Session
  revoked id rows = update_where (is_live_id s id) (revoke at reason) rows

  absent :
      (id : ℕ) (rows : List Session)
      → All (λ (q : Session). q.token_hash ≢ hash) rows
      → any (is_live_token hash) (revoked id rows) ≡ false
  unfolding update_where is_live_token
  absent id [] h = refl
  absent id (q ∷ rows) (ne, h) = ground (arith, ==_iff q.token_hash hash, absent id rows h)

  pub revoked-IsDead :
      (rows : List Session) (r : Session)
      → HasUniqueHashes rows
      → find (is_live_token hash) rows ≡ some r
      → (any (has_hash hash) (revoked r.id rows) ≡ true)
        × (any (is_live_token hash) (revoked r.id rows) ≡ false)
  unfolding find update_where is_live_token is_live_id
  revoked-IsDead [] r keys found = cc
  revoked-IsDead (q ∷ rows) r (ne, keys) found = elim (Bool-cases (is_live_token hash q)) [
    | inl hit ↦
        let same_hash : q.token_hash ≡ hash = ground (arith, hit, ==_iff q.token_hash hash) in
        ground (arith, hit, ==_refl q.id, absent q.id rows (rw same_hash at ne))
    | inr miss ↦ ground (arith, miss, revoked-IsDead rows r keys)
  ]

find-none : (p : Session → Bool) (rows : List Session) → any p rows ≡ false → find p rows ≡ none
unfolding find
find-none p [] h = refl
find-none p (r ∷ rows) h = ground (arith, find-none p rows)

module _ (s : Settings) (x : Crypto) where
  resolve_session-IsDead :
      (now : ℕ) (token : Text) (w : World) (context : AuthContext)
      → IsDeadIn s x (hash_token s x token) w
      → (resolve_session s x now token w).0 ≢ ok (some context)
  unfolding resolve_session transaction rolled_back resolve_found
  resolve_session-IsDead now token w context d =
      let gone = find-none (is_live_token (hash_token s x token)) w.db.sessions d.dead in
      λ h. ground (arith, gone)

  sessions-revoke_session :
      (w : World) (now event_now id user_id : ℕ) (reason : Reason)
      → s.database_enabled ≡ true
      → (revoke_session s now event_now id user_id reason w).1.db.sessions
        ≡ update_where (is_live_id s id) (revoke now reason) w.db.sessions
  unfolding revoke_session transaction rolled_back add_auth_event
  sessions-revoke_session w now event_now id user_id reason on = ground arith

  revoke_session-IsDead :
      (token : Text) (r : Session) (w : World) (now event_now user_id : ℕ) (reason : Reason)
      → s.database_enabled ≡ true
      → HasUniqueHashes w.db.sessions
      → find (is_live_token (hash_token s x token)) w.db.sessions ≡ some r
      → IsDeadIn s x (hash_token s x token) (revoke_session s now event_now r.id user_id reason w).1
  revoke_session-IsDead token r w now event_now user_id reason on keys found =
      let (known, dead) =
        revoked-IsDead s (hash_token s x token) now reason w.db.sessions r keys found in
      rw (sessions-revoke_session w now event_now r.id user_id reason on)
        (record { known = known; dead = dead })

  -- Where no two sessions have one hash, and the database is on: once the session of a token is
  -- revoked, as a logout does it, the token is resolved to nobody ever after, whatever operations
  -- follow, logins, changes of passwords and what administrators do among them.
  pub logout_is_final :
      (token : Text) (r : Session) (w : World) (now event_now user_id : ℕ) (reason : Reason)
      (ops : List Operation) (later : ℕ) (context : AuthContext)
      → s.database_enabled ≡ true
      → HasUniqueHashes w.db.sessions
      → find (is_live_token (hash_token s x token)) w.db.sessions ≡ some r
      → (resolve_session s x later token
          (run_all s x ops (revoke_session s now event_now r.id user_id reason w).1)).0
        ≢ ok (some context)
  logout_is_final token r w now event_now user_id reason ops later context on keys found =
      resolve_session-IsDead later token
        (run_all s x ops (revoke_session s now event_now r.id user_id reason w).1) context
        (run_all-IsDead s x (hash_token s x token) ops
          (revoke_session s now event_now r.id user_id reason w).1
          (revoke_session-IsDead token r w now event_now user_id reason on keys found))
