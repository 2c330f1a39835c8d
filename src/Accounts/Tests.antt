-- ===== src/Accounts/Tests.antt =====
-- A table with one user: logins with the right password and with wrong ones, and a new password.
use network_diagnostic_tool.Common.{
  ◌≤◌, ◌≡◌, ◌⊎◌, refl, true, false, none, some, [], ◌∷◌, ◌++◌, arith, Text, text, count_if,
  has_part, starts_with, keep_if, ◌==◌, list_eq, nat_eq, ok, raised, inr,
}
use network_diagnostic_tool.Accounts.Credentials.{
  peppered, hash_password, verify_password, hash_token, holds_username, validate_password,
}
use network_diagnostic_tool.Accounts.Tables.{User, find, update_where, order_by, is_open}
use network_diagnostic_tool.Accounts.Events.{
  World, add_auth_event, safe_details, pick, level_of, rolled_back, transaction,
}
use network_diagnostic_tool.Accounts.Login.{
  Attempt, has_name, is_live_of, lock_is_over, insert_session, reopened, reopen_due, mark_success,
  excess, drop_excess, new_session, context_of, finish, succeed, known, login_body, authenticate,
}
use network_diagnostic_tool.Accounts.Lockout.{authenticate_sound, attempts}
use network_diagnostic_tool.Accounts.Limit.{authenticate-limit}
use network_diagnostic_tool.Accounts.Sessions.{resolve_session}
use network_diagnostic_tool.Exceptions.{value_error}
use network_diagnostic_tool.Accounts.LockedOut.{wrong_passwords_lock}
use network_diagnostic_tool.Accounts.Tokens.{authenticate-resolve_session}
use network_diagnostic_tool.Accounts.Change.{
  Change, recent_history, is_other_session, is_reused, change_writes, change_checked, change_body,
  change_password,
}
use network_diagnostic_tool.Accounts.Changed.{
  IsAccepted, change_password-IsAccepted, change_password-IsRefused, IsRefused,
}
use network_diagnostic_tool.Accounts.Resolved.{IsLive, resolve_session-IsLive}
use network_diagnostic_tool.Accounts.Sessions.{
  resolve_found, resolve_row, is_live_token, is_expired, touch, resolved_context,
}
use network_diagnostic_tool.Accounts.Sample.{
  settings, crypto, kim, world_of, right, wrong, context, login, after_login, kim_found, logs_in,
}

authenticate_sound_example :
    (u : User) × (find (has_name (text "kim")) (kim ∷ []) ≡ some u)
    × (u.deleted_at ≡ none)
    × (verify_password settings crypto (text "pw") u.password_hash ≡ true)
    × ((is_open u.status ≡ true) ⊎ (lock_is_over 100 u.status u.locked_until ≡ true))
    × (7 ≡ u.id)
authenticate_sound_example =
    authenticate_sound settings crypto right (world_of kim) after_login login logs_in

authenticate-limit_example : count_if (is_live_of 7) after_login.db.sessions ≤ 5
authenticate-limit_example =
    authenticate-limit settings crypto right (world_of kim) after_login login (omega arith) logs_in

authenticate-resolve_session_example :
    (resolve_session settings crypto 100 (text "t") after_login).0 ≡ ok (some context)
authenticate-resolve_session_example =
    authenticate-resolve_session settings crypto right (world_of kim) after_login login 100 (tt, tt)
      logs_in (omega arith) (omega arith)

is_wrong : verify_password settings crypto (text "x") (text "pw") ≡ false
unfolding verify_password peppered
is_wrong = refl

-- an attempt in the name of nobody
abbrev stranger : Attempt
stranger = record wrong { username = text "lee" }

wrong_passwords_lock_example :
    (authenticate settings crypto right (
      attempts settings crypto (stranger ∷ right ∷ []) (
        attempts settings crypto
          ((wrong ∷ wrong ∷ wrong ∷ wrong ∷ []) ++ wrong ∷ [])
          (world_of kim)))).0
    ≡ ok none
wrong_passwords_lock_example =
    wrong_passwords_lock settings crypto (wrong ∷ wrong ∷ wrong ∷ wrong ∷ []) wrong (text "kim")
      (world_of kim) kim (stranger ∷ right ∷ []) right refl (tt, tt) kim_found refl refl refl
      ((refl, is_wrong), ((refl, is_wrong), ((refl, is_wrong), ((refl, is_wrong), tt))))
      (refl, is_wrong) (omega arith, (omega arith, tt)) refl (omega arith)

abbrev change : Text → Change
change new_password = record {
  context = context;
  current_password = text "pw";
  new_password = new_password;
  now = 300;
  db_now = 300;
  salt = 4;
}

abbrev new_phrase : Text
new_phrase = text "correct horse"

abbrev after_change : World
after_change = (change_password settings crypto (change new_phrase) (world_of kim)).1

changes :
    change_password settings crypto (change new_phrase) (world_of kim) ≡ (ok true, after_change)
unfolding change_password transaction rolled_back change_body find verify_password peppered
    validate_password holds_username has_part starts_with change_checked is_reused recent_history
    keep_if order_by change_writes
changes = refl

change_password-IsAccepted_example :
    (u : User) × IsAccepted settings crypto (change new_phrase) (world_of kim) u
    × (v : User) × (find (λ r. r.id == 7) after_change.db.users ≡ some v)
    × (v.password_hash ≡ hash_password settings crypto 4 new_phrase)
    × (v.must_change_password ≡ false)
    × (count_if (is_other_session u.id 1) after_change.db.sessions ≡ 0)
change_password-IsAccepted_example =
    change_password-IsAccepted settings crypto (change new_phrase) (world_of kim) after_change
      changes

too_short :
    (change_password settings crypto (change (text "short")) (world_of kim)).0 ≡ raised value_error
unfolding change_password transaction rolled_back change_body find verify_password peppered
    validate_password change_checked
too_short = refl

change_password-IsRefused_example :
    ((change_password settings crypto (change (text "short")) (world_of kim)).1 ≡ world_of kim)
    × IsRefused settings crypto (change (text "short")) (world_of kim)
change_password-IsRefused_example =
    change_password-IsRefused settings crypto (change (text "short")) (world_of kim) refl
      (inr too_short)

abbrev after_resolve : World
after_resolve = (resolve_session settings crypto 100 (text "t") after_login).1

resolves :
    resolve_session settings crypto 100 (text "t") after_login ≡ (ok (some context), after_resolve)
unfolding resolve_session transaction rolled_back find is_live_token hash_token resolve_found
    resolve_row is_expired touch resolved_context authenticate login_body has_name reopened
    reopen_due lock_is_over known verify_password peppered succeed update_where mark_success
    drop_excess excess keep_if order_by insert_session new_session finish context_of add_auth_event
    safe_details pick level_of
resolves = refl

resolve_session-IsLive_example : IsLive settings crypto 100 (text "t") after_login context
resolve_session-IsLive_example =
    resolve_session-IsLive settings crypto 100 (text "t") after_login after_resolve context resolves
