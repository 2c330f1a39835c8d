-- ===== src/AdminUsers/Sessions.antt =====
-- The sessions of a user whose password is reset or whose account is disabled.
use network_diagnostic_tool.Common.{
  ℕ, ◌≡◌, refl, inl, inr, true, Option, none, some, List, [], ◌∷◌, arith, Text, count_if, ==_refl,
  nat_eq, Result-cases, ok,
}
use network_diagnostic_tool.Settings.{Settings}
use network_diagnostic_tool.Accounts.Credentials.{Crypto, validate_password, hash_password}
use network_diagnostic_tool.Accounts.Tables.{
  User, Session, Reason, password_reset, find, update_where,
}
use network_diagnostic_tool.Accounts.Rows.{find-update_where}
use network_diagnostic_tool.Accounts.Events.{World, add_auth_event}
use network_diagnostic_tool.Accounts.Login.{has_id, is_live_of, revoke}
use network_diagnostic_tool.Accounts.Granted.{transaction-ok}
use network_diagnostic_tool.Accounts.Change.{insert_history}
use network_diagnostic_tool.AdminUsers.Defs.{
  Call, admin_event, revoke_all, mark_reset, write_reset, reset_checked, reset_body, reset_password,
}

all_revoked :
    (id at : ℕ) (reason : Reason) (rows : List Session)
    → count_if (is_live_of id) (update_where (is_live_of id) (revoke at reason) rows) ≡ 0
unfolding update_where is_live_of
all_revoked id at reason [] = refl
all_revoked id at reason (r ∷ rows) = ground (arith, all_revoked id at reason rows)

module _ (s : Settings) (x : Crypto) (c : Call) where
  reset_body-ok :
      (id : ℕ) (password : Text) (w w' : World) (o : Option User)
      → find (has_id id) w.db.users ≡ o
      → reset_body s x c password w o ≡ (ok tt, w')
      → (u : User) × (find (has_id id) w.db.users ≡ some u)
        × (validate_password x.lower password u.username ≡ ok tt)
        × (w' ≡ write_reset s x c password u w)
  unfolding reset_body reset_checked
  reset_body-ok id password w w' none found h = cc
  reset_body-ok id password w w' (some u) found h =
      elim (Result-cases (validate_password x.lower password u.username)) [
        | inl (accepted, valid) ↦ (u, found, valid, ground (arith, valid))
        | inr (e, refused) ↦ absurd (ground (arith, refused))
      ]

  -- A password is reset only for a user whose row is found, and to one that the policy accepts. Then
  -- the user's row holds the hash of the new password and the duty to change it, and the user has no
  -- live session left.
  pub reset_password-no_session :
      (id : ℕ) (password : Text) (w w' : World)
      → reset_password s x c id password w ≡ (ok tt, w')
      → (u : User) × (find (has_id id) w.db.users ≡ some u)
        × (validate_password x.lower password u.username ≡ ok tt)
        × (v : User) × (find (has_id id) w'.db.users ≡ some v)
        × (v.password_hash ≡ hash_password s x c.salt password)
        × (v.must_change_password ≡ true)
        × (count_if (is_live_of u.id) w'.db.sessions ≡ 0)
  unfolding reset_password
  reset_password-no_session id password w w' h =
      let (_, body) =
        transaction-ok s (λ v. reset_body s x c password v (find (has_id id) v.db.users)) w w' tt
          h in
      let (u, found, valid, written) =
        reset_body-ok id password w w' (find (has_id id) w.db.users) refl body in
      let row =
        find-update_where (has_id id) (has_id u.id) (mark_reset s x c password) w.db.users u
          (λ r. unfold mark_reset in refl) (==_refl u.id) found in
      (
        u,
        found,
        valid,
        mark_reset s x c password u,
        rw written (unfold write_reset admin_event insert_history revoke_all add_auth_event in row),
        (unfold mark_reset in refl),
        (unfold mark_reset in refl),
        rw written (
            unfold write_reset admin_event insert_history revoke_all add_auth_event in
            all_revoked u.id c.db_now password_reset w.db.sessions),
      )
