-- ===== src/AdminUsers/Tests.antt =====
-- Two administrators, of whom one becomes an operator.
use network_diagnostic_tool.Common.{
  ◌≤◌, ◌≡◌, refl, none, some, [], ◌∷◌, arith, text, count_if, nat_eq, list_eq, ok,
}
use network_diagnostic_tool.Accounts.Tables.{User, admin, operator, find}
use network_diagnostic_tool.Accounts.Events.{World, rolled_back, transaction}
use network_diagnostic_tool.Accounts.Sample.{settings, crypto, kim, world_of}
use network_diagnostic_tool.AdminUsers.Defs.{
  UserUpdateRequest, Call, takes_role, disables, is_working_admin, is_present, if_given,
  email_is_taken, mark_updated, is_protected, write_update, update_body, update_user,
}
use network_diagnostic_tool.AdminUsers.Defs.{reset_body, reset_checked, reset_password}
use network_diagnostic_tool.AdminUsers.Sessions.{reset_password-no_session}
use network_diagnostic_tool.Accounts.Credentials.{validate_password, holds_username, hash_password}
use network_diagnostic_tool.Accounts.Login.{has_id, is_live_of}
use network_diagnostic_tool.Common.{has_part, starts_with, true}
use network_diagnostic_tool.AdminUsers.LastAdmin.{update_user-admins}

abbrev first : User
first = record kim { role = admin }

abbrev second : User
second = record kim { id = 8; username = text "lee"; role = admin }

abbrev two_admins : World
two_admins = record (world_of kim) { db = record (world_of kim).db { users = first ∷ second ∷ [] } }

abbrev call : Call
call = record { actor = 7; now = 10; db_now = 10; user_id = 9; salt = 1 }

abbrev demotion : UserUpdateRequest
demotion = record { display_name = none; email = none; role = some operator; status = none }

abbrev after_demotion : World
after_demotion = (update_user settings crypto call 8 demotion two_admins).1

demotes :
    update_user settings crypto call 8 demotion two_admins
    ≡ (ok (mark_updated settings crypto call demotion second), after_demotion)
unfolding update_user transaction rolled_back find is_present update_body is_protected takes_role
    disables is_working_admin write_update if_given email_is_taken
demotes = refl

one_admin : 1 ≤ count_if is_working_admin two_admins.db.users
unfolding is_working_admin
one_admin = omega arith

update_user-admins_example : 1 ≤ count_if is_working_admin after_demotion.db.users
update_user-admins_example =
    update_user-admins settings crypto call 8 demotion two_admins after_demotion
      (mark_updated settings crypto call demotion second) (((λ h. ground arith), tt), (tt, tt))
      (λ h. cc) one_admin demotes

abbrev after_reset : World
after_reset = (reset_password settings crypto call 8 (text "correct horse") two_admins).1

resets :
    reset_password settings crypto call 8 (text "correct horse") two_admins ≡ (ok tt, after_reset)
unfolding reset_password transaction rolled_back find reset_body reset_checked validate_password
    holds_username has_part starts_with
resets = refl

reset_password-no_session_example :
    (u : User) × (find (has_id 8) two_admins.db.users ≡ some u)
    × (validate_password crypto.lower (text "correct horse") u.username ≡ ok tt)
    × (v : User) × (find (has_id 8) after_reset.db.users ≡ some v)
    × (v.password_hash ≡ hash_password settings crypto 1 (text "correct horse"))
    × (v.must_change_password ≡ true)
    × (count_if (is_live_of u.id) after_reset.db.sessions ≡ 0)
reset_password-no_session_example =
    reset_password-no_session settings crypto call 8 (text "correct horse") two_admins after_reset
      resets
