-- ===== src/Accounts/Lockout.antt =====
-- Failed logins, and the lock that they put on an account.
use mathlib.Core.Path.{subst}
use network_diagnostic_tool.Common.{
  ℕ, ◌+◌, ◌<◌, ◌≡◌, ◌⊎◌, refl, true, false, none, some, List, [], ◌∷◌, ◌++◌, arith, Text, All,
  length, ==_iff, ==_refl, nat_eq, list_eq, ok,
}
use network_diagnostic_tool.Settings.{Settings}
use network_diagnostic_tool.Accounts.Credentials.{Crypto, verify_password}
use network_diagnostic_tool.Accounts.Tables.{User, locked, minutes, is_open, find}
use network_diagnostic_tool.Accounts.Rows.{find-holds, find-update_where}
use network_diagnostic_tool.Accounts.Events.{World, add_auth_event, rolled_back, transaction}
use network_diagnostic_tool.Accounts.Login.{
  Attempt, Login, has_name, has_id, lock_is_over, reopened, reopen_due, is_locking, mark_failure,
  fail, context_of, known, login_body, authenticate,
}
use network_diagnostic_tool.Accounts.Granted.{authenticate-Granted}

pub has_name-not_deleted :
    (name : Text) (u : User) → has_name name u ≡ true → (u.username ≡ name) × (u.deleted_at ≡ none)
unfolding has_name
has_name-not_deleted name u h = ground (arith, ==_iff u.username name)

module _ (s : Settings) (x : Crypto) where
  reopened_parts :
      (a : Attempt) (u : User)
      → ((reopened s x a u).password_hash ≡ u.password_hash)
        × ((reopened s x a u).id ≡ u.id)
        × (is_open (reopened s x a u).status ≡ true
            → (is_open u.status ≡ true) ⊎ (lock_is_over a.now u.status u.locked_until ≡ true))
  unfolding reopened
  reopened_parts a u = ground arith

  -- A login is granted only to a user of that name who is not deleted, on the password that the hash
  -- of the user verifies, and if the account is active or pending, or was locked up to a time that has
  -- passed. The login is that user's.
  pub authenticate_sound :
      (a : Attempt) (w w' : World) (l : Login)
      → authenticate s x a w ≡ (ok (some l), w')
      → (u : User) × (find (has_name a.username) w.db.users ≡ some u)
        × (u.deleted_at ≡ none)
        × (verify_password s x a.password u.password_hash ≡ true)
        × ((is_open u.status ≡ true) ⊎ (lock_is_over a.now u.status u.locked_until ≡ true))
        × (l.context.user_id ≡ u.id)
  unfolding context_of
  authenticate_sound a w w' l h =
      let g = authenticate-Granted s x a w w' l h in
      let (same_hash, same_id, opens) = reopened_parts a g.row in
      (
        g.row,
        g.found,
        (has_name-not_deleted a.username g.row
            (find-holds (has_name a.username) w.db.users g.row g.found)).1,
        rw same_hash at g.verified,
        opens g.may_open,
        (rw g.login same_id),
      )

  -- no lock to take off an account that is open
  reopened-open :
      (a : Attempt) (u : User) (w : World)
      → is_open u.status ≡ true
      → (reopened s x a u ≡ u) × (reopen_due s x a u w ≡ w)
  unfolding reopened reopen_due lock_is_over
  reopened-open a u w h = ground arith

  -- An account that is locked, without a time or up to a time that has not come, refuses every
  -- password: no user and no session changes.
  pub authenticate-locked :
      (a : Attempt) (w : World) (u : User)
      → s.database_enabled ≡ true
      → find (has_name a.username) w.db.users ≡ some u
      → u.status ≡ locked
      → (u.locked_until ≡ none) ⊎ ((until : ℕ) × (u.locked_until ≡ some until) × (a.now < until))
      → ((authenticate s x a w).0 ≡ ok none)
        × ((authenticate s x a w).1.db.users ≡ w.db.users)
        × ((authenticate s x a w).1.db.sessions ≡ w.db.sessions)
  unfolding authenticate transaction login_body known lock_is_over reopened reopen_due
      add_auth_event rolled_back
  authenticate-locked a w u on found lock until = ground arith

  -- one attempt with a wrong password on an open account
  wrong_password :
      (a : Attempt) (w : World) (u : User)
      → s.database_enabled ≡ true
      → find (has_name a.username) w.db.users ≡ some u
      → is_open u.status ≡ true
      → verify_password s x a.password u.password_hash ≡ false
      → find (has_name a.username) (authenticate s x a w).1.db.users ≡ some (mark_failure s x a u u)
  unfolding authenticate transaction login_body known fail add_auth_event rolled_back
  wrong_password a w u on found opened wrong =
      let (same, untouched) = reopened-open a u w opened in
      let hit =
        find-update_where (has_name a.username) (has_id u.id) (mark_failure s x a u) w.db.users u
          (λ r. unfold has_name mark_failure in refl) (==_refl u.id) found in
      ground (arith, hit)

  wrong_password_named :
      (a : Attempt) (name : Text) (w : World) (u : User)
      → s.database_enabled ≡ true
      → is_open u.status ≡ true
      → (a.username ≡ name) × (verify_password s x a.password u.password_hash ≡ false)
      → find (has_name name) w.db.users ≡ some u
      → find (has_name name) (authenticate s x a w).1.db.users ≡ some (mark_failure s x a u u)
  wrong_password_named a name w u on opened (named, wrong) =
      subst
        (λ n.
          find (has_name n) w.db.users ≡ some u
          → find (has_name n) (authenticate s x a w).1.db.users ≡ some (mark_failure s x a u u))
        named (λ found. wrong_password a w u on found opened wrong)

  -- a sequence of attempts
  unfoldable pub attempts : List Attempt → World → World
  attempts [] w = w
  attempts (a ∷ rest) w = attempts rest (authenticate s x a w).1

  -- An attempt that names a user and gives a password that the hash does not verify.
  abbrev pub IsWrong : Text → Text → Attempt → Type 0
  IsWrong name hash a = (a.username ≡ name) × (verify_password s x a.password hash ≡ false)

  pub failures_lock :
      (rest : List Attempt) (last : Attempt) (name : Text) (w : World) (u : User)
      → s.database_enabled ≡ true
      → find (has_name name) w.db.users ≡ some u
      → is_open u.status ≡ true
      → u.failed_login_count + length rest + 1 ≡ s.login_max_failures
      → All (IsWrong name u.password_hash) rest
      → IsWrong name u.password_hash last
      → (v : User) × (find (has_name name) (attempts (rest ++ last ∷ []) w).db.users ≡ some v)
        × (v.status ≡ locked)
        × (v.locked_until ≡ some (last.now + minutes s.login_lock_minutes))
  unfolding attempts
  failures_lock [] last name w u on found opened left _ wrong = (
    mark_failure s x last u u,
    wrong_password_named last name w u on opened wrong found,
    (unfold mark_failure is_locking in ground arith),
    (unfold mark_failure is_locking in ground arith),
  )
  failures_lock (a ∷ rest) last name w u on found opened left (wrong, more) last_wrong =
      let next : find (has_name name) (authenticate s x a w).1.db.users
          ≡ some (mark_failure s x a u u) =
        wrong_password_named a name w u on opened wrong found in
      let kept : ((mark_failure s x a u u).status ≡ u.status)
          × ((mark_failure s x a u u).failed_login_count ≡ u.failed_login_count + 1)
          × ((mark_failure s x a u u).password_hash ≡ u.password_hash) =
        unfold mark_failure is_locking in (ground arith, ground arith, refl) in
      failures_lock rest last name (authenticate s x a w).1 (mark_failure s x a u u) on next
        (rw kept.0 opened) (omega (arith, kept.1)) (rw kept.2 more) (rw kept.2 last_wrong)
