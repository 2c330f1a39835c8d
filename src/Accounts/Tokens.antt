-- ===== src/Accounts/Tokens.antt =====
-- What a session token opens: from the login that made it to its revocation.
use network_diagnostic_tool.Common.{
  ℕ, ◌+◌, ◌<◌, ◌≡◌, ◌≢◌, refl, ap, inl, inr, Bool, true, false, ◌||◌, Option, none, some, List, [],
  ◌∷◌, ◌++◌, arith, All, any, ◌==◌, ==_iff, ==_refl, nat_eq, list_eq, ok, Bool-cases, if◌then◌else◌,
}
use network_diagnostic_tool.Exceptions.{Raises}
use network_diagnostic_tool.Settings.{Settings}
use network_diagnostic_tool.Accounts.Credentials.{Crypto, hash_token}
use network_diagnostic_tool.Accounts.Tables.{
  User, Session, Role, admin, operator, viewer, is_admin, minutes, hours, is_open, find,
}
use network_diagnostic_tool.Accounts.Rows.{find-holds, find-update_where}
use network_diagnostic_tool.Accounts.Events.{World, rolled_back, transaction}
use network_diagnostic_tool.Accounts.Login.{
  AuthContext, Attempt, Login, has_name, has_id, reopen, reopened, reopen_due, mark_success,
  new_session, insert_session, context_of, login_body, authenticate,
}
use network_diagnostic_tool.Accounts.Granted.{Granted, transaction-ok, authenticate-Granted}
use network_diagnostic_tool.Accounts.Sessions.{
  is_live_token, is_expired, resolved_context, resolve_row, resolve_found, resolve_session,
}

-- No two rows have one id: the primary key of `user_accounts`.
abbrev pub HasUniqueIds : List User → Type 0
HasUniqueIds [] = Unit
HasUniqueIds (u ∷ users) = All (λ v. v.id ≢ u.id) users × HasUniqueIds users

find-All_ne :
    (p : User → Bool) (id : ℕ) (users : List User) (u : User)
    → All (λ v. v.id ≢ id) users
    → find p users ≡ some u
    → u.id ≢ id
unfolding find
find-All_ne p id [] u h f = cc
find-All_ne p id (v ∷ users) u (ne, h) f = elim (Bool-cases (p v)) [
  | inl hit ↦ ground (arith, hit)
  | inr miss ↦ find-All_ne p id users u h (ground (arith, miss))
]

pub find-has_id :
    (p : User → Bool) (users : List User) (u : User)
    → HasUniqueIds users
    → find p users ≡ some u
    → find (has_id u.id) users ≡ some u
unfolding find
find-has_id p [] u keys f = cc
find-has_id p (v ∷ users) u (ne, keys) f = elim (Bool-cases (p v)) [
  | inl hit ↦ ground (arith, hit, ==_refl u.id)
  | inr miss ↦
      let later : find p users ≡ some u = ground (arith, miss) in
      ground (
        arith,
        find-has_id p users u keys later,
        find-All_ne p v.id users u ne later,
        ==_iff v.id u.id,
      )
]

find-appended :
    (new : Session) (rows : List Session)
    → new.revoked_at ≡ none
    → any (λ (r : Session). r.id == new.id || r.token_hash == new.token_hash) rows ≡ false
    → find (is_live_token new.token_hash) (rows ++ new ∷ []) ≡ some new
unfolding find is_live_token
find-appended new [] live free = ground (arith, ==_refl new.token_hash)
find-appended new (r ∷ rows) live free = ground (arith, find-appended new rows live)

-- a token hash that the unique column took is the hash of no older row
find-inserted :
    (new : Session) (rows sessions : List Session)
    → new.revoked_at ≡ none
    → insert_session new rows ≡ ok sessions
    → find (is_live_token new.token_hash) sessions ≡ some new
unfolding insert_session
find-inserted new rows sessions live h = ground (arith, find-appended new rows live)

-- how long a session lasts at most, by the role of its user
abbrev pub absolute_hours : Settings → Role → ℕ
absolute_hours s admin = s.admin_session_absolute_hours
absolute_hours s operator = s.session_absolute_hours
absolute_hours s viewer = s.session_absolute_hours

absolute_hours-is_admin :
    (s : Settings) (role : Role)
    → (if is_admin role then s.admin_session_absolute_hours else s.session_absolute_hours)
      ≡ absolute_hours s role
absolute_hours-is_admin s admin = refl
absolute_hours-is_admin s operator = refl
absolute_hours-is_admin s viewer = refl

module _ (s : Settings) (x : Crypto) (a : Attempt) where
  same_id : (u : User) → (reopened s x a u).id ≡ u.id
  unfolding reopened
  same_id u = ground arith

  find-reopen_due :
      (u : User) (w : World)
      → find (has_id u.id) w.db.users ≡ some u
      → find (has_id u.id) (reopen_due s x a u w).db.users ≡ some (reopened s x a u)
  unfolding reopen_due reopened
  find-reopen_due u w h = ground (
    arith,
    find-update_where (has_id u.id) (has_id u.id) reopen w.db.users u (λ r. refl) (==_refl u.id) h,
  )

  -- the row that a login that succeeds leaves behind
  user_after :
      (w w' : World) (l : Login) (g : Granted s x a w w' l)
      → HasUniqueIds w.db.users
      → find (has_id (reopened s x a g.row).id) w'.db.users
        ≡ some (mark_success s x a (reopened s x a g.row) (reopened s x a g.row))
  unfolding reopened
  user_after w w' l g keys =
      let u = reopened s x a g.row in
      let by_id = find-has_id (has_name a.username) w.db.users g.row keys g.found in
      rw g.users (
        find-update_where (has_id u.id) (has_id u.id) (mark_success s x a u)
          (reopen_due s x a g.row w).db.users u (λ r. unfold mark_success in refl) (==_refl u.id)
          (rw (same_id g.row) (find-reopen_due g.row w by_id)))

  -- the row that a login leaves, seen by the query for a session
  resolve_new :
      (u : User) (now : ℕ) (w : World)
      → is_open u.status ≡ true
      → u.deleted_at ≡ none
      → now < a.now + minutes s.session_idle_minutes
      → now < a.now + hours (absolute_hours s u.role)
      → find (has_id u.id) w.db.users ≡ some (mark_success s x a u u)
      → (resolve_row s now
          (new_session s x a u)
          (find (has_id (new_session s x a u).user_id) w.db.users)
          w).0
        ≡ ok (some (context_of s x a u))
  unfolding resolve_row is_expired new_session mark_success resolved_context context_of
  resolve_new u now w opened kept idle absolute row =
      ground (arith, absolute_hours-is_admin s u.role)

  not_deleted : (u : User) → has_name a.username u ≡ true → (reopened s x a u).deleted_at ≡ none
  unfolding has_name reopened
  not_deleted u h = ground arith

  authenticate-enabled :
      (w w' : World) (l : Login)
      → authenticate s x a w ≡ (ok (some l), w')
      → s.database_enabled ≡ true
  unfolding authenticate
  authenticate-enabled w w' l h =
      (transaction-ok s (λ v. login_body s x a v (find (has_name a.username) v.db.users)) w w'
        (some l) h).0

  resolve_session-found :
      (now : ℕ) (w : World) (r : Session) (o : Raises (Option AuthContext))
      → s.database_enabled ≡ true
      → find (is_live_token (hash_token s x a.token)) w.db.sessions ≡ some r
      → (resolve_row s now r (find (has_id r.user_id) w.db.users) w).0 ≡ o
      → (resolve_session s x now a.token w).0 ≡ o
  unfolding resolve_session transaction rolled_back resolve_found
  resolve_session-found now w r o on found h = ground arith

  -- Where no two users have one id: the token that a login hands out is resolved, in the world that
  -- the login leaves and up to the idle time and to the absolute time of the role, the administrators'
  -- for an administrator and the ordinary one for the others, to the very user, session, role and duty
  -- to change the password that the login reported.
  pub authenticate-resolve_session :
      (w w' : World) (l : Login) (now : ℕ)
      → HasUniqueIds w.db.users
      → authenticate s x a w ≡ (ok (some l), w')
      → now < a.now + minutes s.session_idle_minutes
      → now < a.now + hours (absolute_hours s l.context.role)
      → (resolve_session s x now l.token w').0 ≡ ok (some l.context)
  unfolding context_of
  authenticate-resolve_session w w' l now keys h idle absolute =
      let g = authenticate-Granted s x a w w' l h in
      let u = reopened s x a g.row in
      let named = find-holds (has_name a.username) w.db.users g.row g.found in
      let new : find (is_live_token (hash_token s x a.token)) w'.db.sessions
          ≡ some (new_session s x a u) =
        rw g.world (
          unfold new_session in find-inserted (new_session s x a u) _ g.sessions refl g.inserted) in
      rw g.login (
        resolve_session-found now w' (new_session s x a u) (ok (some (context_of s x a u)))
          (authenticate-enabled w w' l h) new
          (resolve_new u now w' g.may_open (not_deleted g.row named) idle
            (rw (ap (λ (d : Login). d.context.role) g.login) at absolute)
            (user_after w w' l g keys)))
