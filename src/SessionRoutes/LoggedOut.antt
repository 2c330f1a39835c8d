-- ===== src/SessionRoutes/LoggedOut.antt =====
-- What the answer to a logout promises: app/api/auth.py with app/core/auth_deps.py and
-- app/services/auth_service.py.
use network_diagnostic_tool.Common.{
  ℕ, ◌≡◌, ◌≢◌, refl, ap, true, Option, none, some, List, arith, Text, Result, ok, raised, list_eq,
  nat_eq,
}
use network_diagnostic_tool.Exceptions.{Raises}
use network_diagnostic_tool.Settings.{Settings}
use network_diagnostic_tool.Accounts.Credentials.{Crypto}
use network_diagnostic_tool.Accounts.Tables.{logout as by_logout}
use network_diagnostic_tool.Accounts.Events.{World}
use network_diagnostic_tool.Accounts.Login.{AuthContext}
use network_diagnostic_tool.Accounts.Sessions.{resolve_session, revoke_session}
use network_diagnostic_tool.Guards.Defs.{
  Request, Visit, Guarded, cookie_name, after_resolve, after_cookie, require_current_user,
  after_match, check_tokens, user_of, require_csrf,
}
use network_diagnostic_tool.Guards.Authorized.{and_then-ok, after_resolve-ok}
use network_diagnostic_tool.Lifecycle.Defs.{Operation, run_all}
use network_diagnostic_tool.Lifecycle.Logout.{HasUniqueHashes, logout_is_final}
use network_diagnostic_tool.SessionRoutes.Defs.{
  Rejection, Reply, guarded, after_revoke, end_session, logout,
}
use network_diagnostic_tool.SessionRoutes.Kept.{Kept, resolve_session-Kept}

module _ (s : Settings) (x : Crypto) where
  require_current_user-Kept :
      (now : ℕ) (token : Text) (v v' : Visit) (o : Option AuthContext)
      → s.auth_enabled ≡ true
      → v.request.cookies (cookie_name s x) ≡ some token
      → HasUniqueHashes v.world.db.sessions
      → require_current_user s x now v ≡ (ok o, v')
      → (context : AuthContext) × (o ≡ some context)
        × (v'.request.cookies ≡ v.request.cookies)
        × (s.database_enabled ≡ true)
        × Kept s x token context.session_id v'.world
  unfolding require_current_user after_cookie
  require_current_user-Kept now token v v' o on cookie keys h =
      let passed : after_resolve s x v (resolve_session s x now token v.world) ≡ (ok o, v') =
        ground arith in
      let (context, same, resolved, request) =
        after_resolve-ok s x v v' (resolve_session s x now token v.world) o passed in
      let (db, kept) = resolve_session-Kept s x now token v.world v'.world context keys resolved in
      (context, same, ap (λ (r : Request). r.cookies) request, db, kept)

  check_tokens-same :
      (o : Option AuthContext) (v v' : Visit) (header cookie : Option Text)
      → check_tokens s x o v header cookie ≡ (ok tt, v')
      → v ≡ v'
  unfolding check_tokens after_match
  check_tokens-same o v v' none cookie h = cc
  check_tokens-same o v v' (some header) none h = cc
  check_tokens-same none v v' (some header) (some cookie) h = ground arith
  check_tokens-same (some context) v v' (some header) (some cookie) h = ground arith

  user_of-keeps :
      (now : ℕ) (token : Text) (v v' : Visit) (user o : Option AuthContext)
      → s.auth_enabled ≡ true
      → v.request.cookies (cookie_name s x) ≡ some token
      → HasUniqueHashes v.world.db.sessions
      → user_of s x now v user ≡ (ok o, v')
      → (v'.request.cookies ≡ v.request.cookies) × HasUniqueHashes v'.world.db.sessions
  unfolding user_of
  user_of-keeps now token v v' none o on cookie keys h =
      let (context, _, cookies, _, (kept, _)) =
        require_current_user-Kept now token v v' o on cookie keys h in
      (cookies, kept)
  user_of-keeps now token v v' (some context) o on cookie keys h =
      let same : v ≡ v' = ground arith in rw (← same) (refl, keys)

  require_csrf-keeps :
      (now : ℕ) (token : Text) (v v' : Visit)
      → s.auth_enabled ≡ true
      → v.request.cookies (cookie_name s x) ≡ some token
      → HasUniqueHashes v.world.db.sessions
      → require_csrf s x now v ≡ (ok tt, v')
      → (v'.request.cookies ≡ v.request.cookies) × HasUniqueHashes v'.world.db.sessions
  unfolding require_csrf
  require_csrf-keeps now token v v' on cookie keys h =
      let (o, u, first, second) =
        and_then-ok (user_of s x now v v.request.current_user)
          (λ context u.
            check_tokens s x context u u.request.x_csrf_token
              (u.request.cookies s.csrf_cookie_name))
          tt v' (ground (arith, on)) in
      let same =
        check_tokens-same o u v' u.request.x_csrf_token (u.request.cookies s.csrf_cookie_name)
          second in
      rw (← same) (user_of-keeps now token v u v.request.current_user o on cookie keys first)

  guarded-ok :
      {A : Type 0} (g : Guarded A) (handler : A → Visit → Result Rejection Reply × Visit)
      (reply : Reply) (v' : Visit)
      → guarded g handler ≡ (ok reply, v')
      → (a : A) × (v : Visit) × (g ≡ (ok a, v)) × (handler a v ≡ (ok reply, v'))
  unfolding guarded
  guarded-ok (ok a, v) handler reply v' h = (a, v, refl, h)
  guarded-ok (raised e, v) handler reply v' h = cc

  module _ (request_id : ℕ) where
    after_revoke-ok :
        (v v' : Visit) (end : Raises Unit × World) (reply : Reply)
        → after_revoke s x request_id v end ≡ (ok reply, v')
        → end.1 ≡ v'.world
    unfolding after_revoke
    after_revoke-ok v v' (raised e, w) reply h = cc
    after_revoke-ok v v' (ok done, w) reply h = ground arith

    -- Where authentication is on and no two sessions have one hash: after a logout that is answered,
    -- the token of the request's session cookie is resolved to nobody ever after, whatever
    -- operations follow, logins, changes of passwords and what administrators do among them.
    pub logout_is_final_for_cookie :
        (token : Text) (v v' : Visit) (reply : Reply) (csrf_now now at event_now : ℕ)
        (ops : List Operation) (later : ℕ) (context : AuthContext)
        → s.auth_enabled ≡ true
        → v.request.cookies (cookie_name s x) ≡ some token
        → HasUniqueHashes v.world.db.sessions
        → logout s x request_id csrf_now now at event_now v ≡ (ok reply, v')
        → (resolve_session s x later token (run_all s x ops v'.world)).0 ≢ ok (some context)
    unfolding logout end_session
    logout_is_final_for_cookie token v v' reply csrf_now now at event_now ops later context on
          cookie keys h =
        let (_, u, first, rest) =
          guarded-ok (require_csrf s x csrf_now v)
            (λ checked u.
              guarded (require_current_user s x now u) (end_session s x request_id at event_now))
            reply v' h in
        let (o, u', second, last) =
          guarded-ok (require_current_user s x now u) (end_session s x request_id at event_now)
            reply v' rest in
        let (same_cookies, unique) = require_csrf-keeps csrf_now token v u on cookie keys first in
        let (user, is_user, _, db, (unique', (row, found, id))) =
          require_current_user-Kept now token u u' o on (rw same_cookies cookie) unique second in
        let ended : after_revoke s x request_id u'
              (revoke_session s at event_now user.session_id user.user_id by_logout u'.world)
            ≡ (ok reply, v') =
          rw is_user at last in
        let world =
          after_revoke-ok u' v'
            (revoke_session s at event_now user.session_id user.user_id by_logout u'.world) reply
            ended in
        let final =
          logout_is_final s x token row u'.world at event_now user.user_id by_logout ops later
            context db unique' found in
        rw (← world, ← id) final
