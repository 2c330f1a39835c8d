-- ===== src/Accounts/Limit.antt =====
-- How many live sessions a user has after a login.
use network_diagnostic_tool.Common.{
  ℕ, ◌+◌, ◌-◌, ◌≤◌, ◌≡◌, refl, Bool, not, some, List, [], ◌∷◌, ◌++◌, map, arith, length, take, drop,
  length-drop, keep_if, count_if, count_if-append, count_if-le-length, contains, nat_eq, ok,
}
use network_diagnostic_tool.Settings.{Settings}
use network_diagnostic_tool.Accounts.Credentials.{Crypto}
use network_diagnostic_tool.Accounts.Tables.{Session, Reason, max_sessions, order_by, update_where}
use network_diagnostic_tool.Accounts.Rows.{
  count_if-order_by, count_if-take-drop, count_if-not-contains-map,
}
use network_diagnostic_tool.Accounts.Events.{World}
use network_diagnostic_tool.Accounts.Login.{
  Attempt, Login, is_live_of, revoke, drop_excess, new_session, insert_session, context_of,
  reopened, authenticate,
}
use network_diagnostic_tool.Accounts.Granted.{authenticate-Granted}

-- a revocation by ids leaves the live sessions with other ids
live-revoked :
    (id at : ℕ) (reason : Reason) (ids : List ℕ) (rows : List Session)
    → count_if (is_live_of id) (update_where (λ r. contains ids r.id) (revoke at reason) rows)
      ≡ count_if (λ (r : Session). not (contains ids r.id)) (keep_if (is_live_of id) rows)
unfolding update_where keep_if is_live_of
live-revoked id at reason ids [] = refl
live-revoked id at reason ids (r ∷ rows) = ground (arith, live-revoked id at reason ids rows)

module _ (s : Settings) (x : Crypto) (a : Attempt) where
  drop_excess-le :
      (id : ℕ) (rows : List Session)
      → count_if (is_live_of id) (drop_excess s x a id rows) ≤ s.max_sessions_per_user - 1
  unfolding drop_excess
  drop_excess-le id rows =
      let live = keep_if (is_live_of id) rows in
      let ordered = order_by (λ (r : Session). r.created_at) live in
      let n = length ordered + 1 - s.max_sessions_per_user in
      let ids = map (λ (r : Session). r.id) (take n ordered) in
      let outside : Session → Bool = λ r. not (contains ids r.id) in
      omega (
        arith,
        live-revoked id a.now max_sessions ids rows,
        count_if-order_by outside (λ r. r.created_at) live,
        count_if-take-drop outside n ordered,
        count_if-not-contains-map (λ r. r.id) (take n ordered),
        count_if-le-length outside (drop n ordered),
        length-drop n ordered,
      )

  pub insert_session-append :
      (new : Session) (rows sessions : List Session)
      → insert_session new rows ≡ ok sessions
      → sessions ≡ rows ++ new ∷ []
  unfolding insert_session
  insert_session-append new rows sessions h = ground arith

  -- Where users may have a session at all, a login that succeeds leaves the user with no more live
  -- sessions than the setting allows, the new one included.
  pub authenticate-limit :
      (w w' : World) (l : Login)
      → 1 ≤ s.max_sessions_per_user
      → authenticate s x a w ≡ (ok (some l), w')
      → count_if (is_live_of l.context.user_id) w'.db.sessions ≤ s.max_sessions_per_user
  unfolding context_of
  authenticate-limit w w' l some_allowed h =
      let g = authenticate-Granted s x a w w' l h in
      let u = reopened s x a g.row in
      let kept = drop_excess s x a u.id w.db.sessions in
      rw
        (
          g.world,
          insert_session-append (new_session s x a u) kept g.sessions g.inserted,
          g.login,
          count_if-append (is_live_of u.id) kept (new_session s x a u ∷ []),
        )
        (omega (
          arith,
          drop_excess-le u.id w.db.sessions,
          count_if-le-length (is_live_of u.id) (new_session s x a u ∷ []),
        ))
