-- ===== src/Lifecycle/Defs.antt =====
-- The operations on the tables, one after the other. Each is what a request makes of the world,
-- whether it succeeds, is refused or raises.
use network_diagnostic_tool.Common.{ℕ, List, [], ◌∷◌, Text}
use network_diagnostic_tool.Settings.{Settings}
use network_diagnostic_tool.Accounts.Credentials.{Crypto}
use network_diagnostic_tool.Accounts.Tables.{Reason}
use network_diagnostic_tool.Accounts.Events.{World}
use network_diagnostic_tool.Accounts.Login.{Attempt, authenticate}
use network_diagnostic_tool.Accounts.Sessions.{resolve_session, revoke_session}
use network_diagnostic_tool.Accounts.Change.{Change, change_password}
use network_diagnostic_tool.AdminUsers.Defs.{
  UserCreateRequest, UserUpdateRequest, Call, create_user, update_user, unlock_user, reset_password,
  revoke_user_sessions,
}

pub data Operation : Type 0 where
  authenticates : Attempt → Operation
  resolves : (now : ℕ) (token : Text) → Operation
  revokes : (now event_now session_id user_id : ℕ) (reason : Reason) → Operation
  changes : Change → Operation
  creates : Call → UserCreateRequest → Operation
  updates : Call → ℕ → UserUpdateRequest → Operation
  unlocks : Call → ℕ → Operation
  resets : Call → ℕ → Text → Operation
  revokes_all : Call → ℕ → Operation

module _ (s : Settings) (x : Crypto) where
  unfoldable pub step : Operation → World → World
  step (authenticates a) w = (authenticate s x a w).1
  step (resolves now token) w = (resolve_session s x now token w).1
  step (revokes now event_now session_id user_id reason) w =
      (revoke_session s now event_now session_id user_id reason w).1
  step (changes c) w = (change_password s x c w).1
  step (creates c p) w = (create_user s x c p w).1
  step (updates c id p) w = (update_user s x c id p w).1
  step (unlocks c id) w = (unlock_user s x c id w).1
  step (resets c id password) w = (reset_password s x c id password w).1
  step (revokes_all c id) w = (revoke_user_sessions s x c id w).1

  unfoldable pub run_all : List Operation → World → World
  unfolding step
  run_all [] w = w
  run_all (op ∷ ops) w = run_all ops (step op w)
