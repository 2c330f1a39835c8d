-- ===== src/Accounts/Changed.antt =====
-- What a change of the password requires and does.
use network_diagnostic_tool.Common.{
  ℕ, ◌≡◌, ◌⊎◌, refl, true, false, Option, none, some, List, [], ◌∷◌, arith, count_if, ==_refl,
  nat_eq, list_eq, ok, raised, inl, inr, Bool-cases,
}
use network_diagnostic_tool.Exceptions.{Raises, value_error}
use network_diagnostic_tool.Settings.{Settings}
use network_diagnostic_tool.Accounts.Credentials.{
  Crypto, hash_password, verify_password, validate_password,
}
use network_diagnostic_tool.Accounts.Tables.{
  User, Session, Reason, password_changed, find, update_where,
}
use network_diagnostic_tool.Accounts.Rows.{find-holds, find-update_where}
use network_diagnostic_tool.Accounts.Events.{World, rolled_back, transaction, add_auth_event}
use network_diagnostic_tool.Accounts.Login.{has_id, revoke}
use network_diagnostic_tool.Accounts.Granted.{transaction-ok}
use network_diagnostic_tool.Accounts.Change.{
  Change, recent_history, insert_history, is_other_session, mark_changed, is_reused, change_writes,
  change_checked, change_body, change_password,
}

-- a revocation of the rows of a test leaves none of them live
others_revoked :
    (id kept at : ℕ) (reason : Reason) (rows : List Session)
    → count_if
        (is_other_session id kept)
        (update_where (is_other_session id kept) (revoke at reason) rows)
      ≡ 0
unfolding update_where is_other_session
others_revoked id kept at reason [] = refl
others_revoked id kept at reason (r ∷ rows) = ground (arith, others_revoked id kept at reason rows)

module _ (s : Settings) (x : Crypto) (c : Change) where
  -- What a change that succeeds has checked: the row, both passwords, and the recent ones.
  abbrev pub IsAccepted : World → User → Type 0
  IsAccepted w u =
      (find (has_id c.context.user_id) w.db.users ≡ some u)
      × (verify_password s x c.current_password u.password_hash ≡ true)
      × (validate_password x.lower c.new_password u.username ≡ ok tt)
      × (is_reused s x c u (recent_history u.id s.password_history_count w.db.password_history)
          ≡ false)

  change_checked-true :
      (u : User) (w w' : World) (r : Raises Unit)
      → change_checked s x c u w r ≡ (ok true, w')
      → (r ≡ ok tt)
        × (is_reused s x c u (recent_history u.id s.password_history_count w.db.password_history)
            ≡ false)
        × (w' ≡ change_writes s x c u w)
  unfolding change_checked
  change_checked-true u w w' (raised e) h = cc
  change_checked-true u w w' (ok tt) h = ground arith

  change_body-true :
      (w w' : World) (o : Option User)
      → find (has_id c.context.user_id) w.db.users ≡ o
      → change_body s x c w o ≡ (ok true, w')
      → (u : User) × IsAccepted w u × (w' ≡ change_writes s x c u w)
  unfolding change_body
  change_body-true w w' none found h = cc
  change_body-true w w' (some u) found h =
      let (current, checked) : (verify_password s x c.current_password u.password_hash ≡ true)
          × (change_checked s x c u w (validate_password x.lower c.new_password u.username)
              ≡ (ok true, w')) =
        ground arith in
      let (valid, fresh, written) =
        change_checked-true u w w' (validate_password x.lower c.new_password u.username) checked in
      (u, (found, current, valid, fresh), written)

  -- A password is changed only for a user whose row is found, on the current password, to a new one
  -- that the policy accepts and that neither the current hash nor one of the recent hashes verifies.
  -- Then the user's row holds the hash of the new password and no duty to change it, and every
  -- session of the user but the present one is revoked.
  pub change_password-IsAccepted :
      (w w' : World)
      → change_password s x c w ≡ (ok true, w')
      → (u : User) × IsAccepted w u
        × (v : User) × (find (has_id c.context.user_id) w'.db.users ≡ some v)
        × (v.password_hash ≡ hash_password s x c.salt c.new_password)
        × (v.must_change_password ≡ false)
        × (count_if (is_other_session u.id c.context.session_id) w'.db.sessions ≡ 0)
  unfolding change_password
  change_password-IsAccepted w w' h =
      let (_, body) =
        transaction-ok s (λ v. change_body s x c v (find (has_id c.context.user_id) v.db.users)) w
          w' true h in
      let (u, accepted, written) =
        change_body-true w w' (find (has_id c.context.user_id) w.db.users) refl body in
      let same = find-holds (has_id c.context.user_id) w.db.users u accepted.0 in
      let row =
        find-update_where (has_id c.context.user_id) (has_id u.id) (mark_changed s x c) w.db.users u
          (λ r. unfold mark_changed in refl) (==_refl u.id) accepted.0 in
      (
        u,
        accepted,
        mark_changed s x c u,
        rw written (unfold change_writes insert_history add_auth_event in row),
        (unfold mark_changed in refl),
        (unfold mark_changed in refl),
        rw written (
            unfold change_writes insert_history add_auth_event in
            others_revoked u.id c.context.session_id c.db_now password_changed w.db.sessions),
      )

  -- Why a change is refused: there is no such user, or the current password is wrong, or the new one
  -- breaks the policy or has been used of late.
  abbrev pub IsRefused : World → Type 0
  IsRefused w =
      (find (has_id c.context.user_id) w.db.users ≡ none)
      ⊎ ((u : User) × (find (has_id c.context.user_id) w.db.users ≡ some u)
          × ((verify_password s x c.current_password u.password_hash ≡ false)
              ⊎ ((validate_password x.lower c.new_password u.username ≡ raised value_error)
                  ⊎ (is_reused s x c u
                        (recent_history u.id s.password_history_count w.db.password_history)
                      ≡ true))))

  change_checked-refused :
      (u : User) (w : World) (r : Raises Unit)
      → ((change_checked s x c u w r).0 ≡ ok false)
        ⊎ ((change_checked s x c u w r).0 ≡ raised value_error)
      → ((change_checked s x c u w r).1 ≡ w)
        × ((r ≡ raised value_error)
            ⊎ (is_reused s x c u
                  (recent_history u.id s.password_history_count w.db.password_history)
                ≡ true))
  unfolding change_checked
  change_checked-refused u w (raised e) refused = (refl, inl (ground arith))
  change_checked-refused u w (ok tt) refused =
      let reused : is_reused s x c u
            (recent_history u.id s.password_history_count w.db.password_history)
          ≡ true =
        ground arith in
      (ground (arith, reused), inr reused)

  change_body-IsRefused :
      (w : World) (o : Option User)
      → find (has_id c.context.user_id) w.db.users ≡ o
      → ((change_body s x c w o).0 ≡ ok false) ⊎ ((change_body s x c w o).0 ≡ raised value_error)
      → ((change_body s x c w o).1 ≡ w) × IsRefused w
  unfolding change_body
  change_body-IsRefused w none found refused = (refl, inl found)
  change_body-IsRefused w (some u) found refused =
      elim (Bool-cases (verify_password s x c.current_password u.password_hash)) [
        | inl right ↦
            let (same, why) =
              change_checked-refused u w (validate_password x.lower c.new_password u.username)
                (ground (arith, right)) in
            (ground (arith, right, same), inr (u, found, inr why))
        | inr wrong ↦ (ground (arith, wrong), inr (u, found, inl wrong))
      ]

  -- Where the database is on: a change that the code's own checks refuse, with the answer `false` or
  -- with `ValueError`, leaves the tables and the log as they were, and it is refused because there is
  -- no such user, because the current password is wrong, or because the new one breaks the policy or
  -- is one of the last.
  pub change_password-IsRefused :
      (w : World)
      → s.database_enabled ≡ true
      → ((change_password s x c w).0 ≡ ok false)
        ⊎ ((change_password s x c w).0 ≡ raised value_error)
      → ((change_password s x c w).1 ≡ w) × IsRefused w
  unfolding change_password transaction rolled_back
  change_password-IsRefused w on refused =
      let o = find (has_id c.context.user_id) w.db.users in
      let (same, why) = change_body-IsRefused w o refl (ground (arith, on)) in
      (ground (arith, on, same), why)
